-- ===== src/Index/Insert.antt =====
-- index_add on a sorted list: where a new key goes, and what a key does that is there already.
use tuxanci_ng.Prelude.{
  ℕ, zero, suc, ◌+◌, ◌*◌, ◌≤◌, ◌<◌, ◌≡◌, refl, sym, ap, ◌∙◌, ◌⊎◌, inl, inr, ◌≢◌, List, true, false,
  some, ok, arith, if◌then◌else◌, leb, ◌==◌, Bool-cases, ℕ_discrete, length, get_elem?,
}
use tuxanci_ng.Prelude.Int.{ℤ, pos, ◌-ℤ◌, ltb_ℤ, leb_ℤ, ◌<ℤ◌, eq_of_parts}
use tuxanci_ng.Memory.{load}
use tuxanci_ng.Sequence.{insert_at, insert_at_end}
use tuxanci_ng.Index.{IndexItem, insert_item, add_loop}
use tuxanci_ng.Index.Keys.{IsSorted, IsSorted-get, nth}
use tuxanci_ng.Index.Bisect.{
  last, last-suc, last-zero_zero, last-zero, mid, midpoint-suc, midpoint-zero, point_plus, upper,
  lower, upper-last,
}

quick : (count n : ℕ) → count ≤ n → (count + 1 < n * 5) ⊎ (n ≡ 0)
quick count zero h = inr refl
quick count (suc n) h = inl (omega arith)

module _ {ℓ} {D : Type ℓ} where
  -- The keys before `p` are below `k` and those from `p` on above it.
  pub record Splits (l : List (IndexItem D)) (k : ℤ) (p q : ℕ) : Type ℓ where
    pub ordered : p ≤ q
    pub within : q ≤ length l
    pub below : (i : ℕ) (x : IndexItem D) → i < p → get_elem? l i ≡ some x → x.key <ℤ k
    pub above : (i : ℕ) (x : IndexItem D) → q ≤ i → get_elem? l i ≡ some x → k <ℤ x.key

  -- One round with candidates left, at the candidate in the middle.
  pub round :
      (fuel count lo v : ℕ) (l : List (IndexItem D)) (item this : IndexItem D)
      → count + 1 < length l * 5
      → lo + suc v ≤ length l
      → get_elem? l (mid lo v) ≡ some this
      → add_loop (suc fuel) count l item (pos lo) (last lo (suc v)) ≡ (
          if ltb_ℤ this.key item.key
          then add_loop fuel (count + 1) l item (pos (mid lo v + 1)) (last lo (suc v))
          else if ltb_ℤ item.key this.key
          then add_loop fuel (count + 1) l item (pos lo) (pos (mid lo v) -ℤ pos 1)
          else add_loop fuel (count + 1) l item (pos lo) (last lo (suc v)))
  unfolding add_loop load
  round fuel count lo v l item this hc hl here =
      let running : ((count + 1) == (length l * 5)) ≡ false = ground arith in
      let some_left : ltb_ℤ (pos (lo + v)) (pos 0) ≡ false = ground arith in
      let inside : leb_ℤ (pos (length l)) (pos lo) ≡ false = ground arith in
      let proper : ltb_ℤ (pos (lo + v)) (pos lo) ≡ false = ground arith in
      rw (last-suc lo v, midpoint-suc lo v, point_plus (mid lo v))
        (rw (running, some_left, inside, here) (rw proper))

  -- The round with no candidate left inserts at `lo`.
  final :
      (fuel count lo : ℕ) (l : List (IndexItem D)) (item : IndexItem D)
      → (count + 1 < length l * 5) ⊎ (length l ≡ 0)
      → lo ≤ length l
      → add_loop (suc fuel) count l item (pos lo) (last lo 0) ≡ ok (insert_at l lo item)
  unfolding add_loop insert_item load
  final fuel count zero l item hc hl =
      let running : ((count + 1) == (length l * 5)) ≡ false = ground arith in
      let fits : leb 0 (length l) ≡ true = ground arith in rw last-zero_zero (rw running (rw fits))
  final fuel count (suc lo) l item (inr none_there) hl = absurd (omega arith)
  final fuel count (suc lo) l item (inl hc) hl =
      let running : ((count + 1) == (length l * 5)) ≡ false = ground arith in
      let some_left : ltb_ℤ (pos lo) (pos 0) ≡ false = ground arith in
      let crossed : ltb_ℤ (pos lo) (pos (suc lo)) ≡ true = ground arith in
      rw (last-zero lo, midpoint-zero lo)
        (rw (running, some_left)
          (elim (Bool-cases (leb_ℤ (pos (length l)) (pos (suc lo)))) [
            | inl at_end ↦
                let e : suc lo ≡ length l = ground arith in
                rw (at_end, e) (ap ok (sym (insert_at_end l item)))
            | inr before ↦
                let (x, here) = nth l (suc lo) (ground arith) in
                let fits : leb (suc lo) (length l) ≡ true = ground arith in
                rw (before, here) (rw (crossed, fits))
          ]))

  Splits-upper :
      (lo v : ℕ) (l : List (IndexItem D)) (item this : IndexItem D)
      → IsSorted l
      → get_elem? l (mid lo v) ≡ some this
      → this.key <ℤ item.key
      → Splits l item.key lo (lo + suc v)
      → Splits l item.key (mid lo v + 1) (mid lo v + 1 + upper lo v)
  Splits-upper lo v l item this s here lt inv = record {
    ordered = omega arith;
    within = omega (arith, inv.within);
    below = λ i x h e. elim (ℕ_discrete i (mid lo v)) [
      | yes same ↦
          let e' : some x ≡ some this = sym e ∙ ap (get_elem? l) same ∙ here in ground arith
      | no other ↦ omega (arith, IsSorted-get l i (mid lo v) x this s (omega arith) e here)
    ];
    above = λ i x h e. inv.above i x (omega arith) e;
  }

  Splits-lower :
      (lo v : ℕ) (l : List (IndexItem D)) (item this : IndexItem D)
      → IsSorted l
      → get_elem? l (mid lo v) ≡ some this
      → item.key <ℤ this.key
      → Splits l item.key lo (lo + suc v)
      → Splits l item.key lo (lo + lower v)
  Splits-lower lo v l item this s here lt inv = record {
    ordered = omega arith;
    within = omega (arith, inv.within);
    below = inv.below;
    above = λ i x h e. elim (ℕ_discrete i (mid lo v)) [
      | yes same ↦
          let e' : some x ≡ some this = sym e ∙ ap (get_elem? l) same ∙ here in ground arith
      | no other ↦ omega (arith, IsSorted-get l (mid lo v) i this x s (omega arith) here e)
    ];
  }

  -- With a key that is not in the list the bisection ends at the place that splits it.
  pub add_loop-Splits :
      (fuel count lo w : ℕ) (l : List (IndexItem D)) (item : IndexItem D)
      → IsSorted l
      → ((i : ℕ) (x : IndexItem D) → get_elem? l i ≡ some x → x.key ≢ item.key)
      → w < fuel
      → count + w ≤ length l
      → Splits l item.key lo (lo + w)
      → (p : ℕ) × Splits l item.key p p
        × (add_loop fuel count l item (pos lo) (last lo w) ≡ ok (insert_at l p item))
  add_loop-Splits zero count lo w l item s fresh hf hc inv = absurd (omega arith)
  add_loop-Splits (suc fuel) count lo zero l item s fresh hf hc inv = (
    lo,
    record {
      ordered = omega arith;
      within = omega (arith, inv.within);
      below = inv.below;
      above = λ i x h e. inv.above i x (omega arith) e;
    },
    final fuel count lo l item (quick count (length l) (omega arith)) (omega (arith, inv.within)),
  )
  add_loop-Splits (suc fuel) count lo (suc v) l item s fresh hf hc inv =
      let (this, here) = nth l (mid lo v) (omega (arith, inv.within)) in
      rw (round fuel count lo v l item this (omega arith) inv.within here)
        (elim (Bool-cases (ltb_ℤ this.key item.key)) [
          | inl up ↦ rw up (
              rw (upper-last lo v) (
                add_loop-Splits fuel (count + 1) (mid lo v + 1) (upper lo v) l item s fresh
                  (omega arith) (omega arith)
                  (Splits-upper lo v l item this s here (ground arith) inv)))
          | inr not_up ↦ elim (Bool-cases (ltb_ℤ item.key this.key)) [
            | inl down ↦
                rw (not_up, down)
                  (add_loop-Splits fuel (count + 1) lo (lower v) l item s fresh (omega arith)
                    (omega arith) (Splits-lower lo v l item this s here (ground arith) inv))
            | inr not_down ↦
                absurd (fresh (mid lo v) this here (eq_of_parts this.key item.key (ground arith)))
          ]
        ])
