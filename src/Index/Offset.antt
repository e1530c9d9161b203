-- ===== src/Index/Offset.antt =====
-- src/base/index.c: getOffsetFromIndex on a sorted list.
use tuxanci_ng.Prelude.{
  ℕ, zero, suc, ◌+◌, ◌≤◌, ◌<◌, ◌≡◌, refl, sym, ap, ◌∙◌, inl, inr, ◌≢◌, List, [], ◌∷◌, Bool, ◌||◌,
  true, false, some, ok, arith, if◌then◌else◌, ◌==◌, Bool-cases, length, get_elem?, get_elem?-some,
}
use tuxanci_ng.Prelude.Int.{ℤ, pos, negsuc, ◌-ℤ◌, ltb_ℤ, leb_ℤ, ◌==ℤ◌, ==ℤ_iff, eq_of_parts}
use tuxanci_ng.Memory.{load}
use tuxanci_ng.Index.{IndexItem, offset_loop, get_offset_from_index}
use tuxanci_ng.Index.Keys.{IsSorted, nth}
use tuxanci_ng.Index.Bisect.{
  last, last-suc, last-zero_zero, last-zero, mid, midpoint-suc, midpoint-zero, point_plus, upper,
  lower, upper-last,
}
use tuxanci_ng.Index.Place.{place-upper, place-lower}

true_last : (b : Bool) → (b || true) ≡ true
true_last true = refl
true_last false = refl

module _ {ℓ} {D : Type ℓ} where
  -- One round with candidates left.
  round :
      (fuel lo v : ℕ) (l : List (IndexItem D)) (k : ℤ) (this : IndexItem D)
      → lo + suc v ≤ length l
      → get_elem? l (mid lo v) ≡ some this
      → offset_loop (suc fuel) l k (pos lo) (last lo (suc v)) ≡ (
          if k ==ℤ this.key
          then ok (pos (mid lo v))
          else if ltb_ℤ this.key k
          then offset_loop fuel l k (pos (mid lo v + 1)) (last lo (suc v))
          else if ltb_ℤ k this.key
          then offset_loop fuel l k (pos lo) (pos (mid lo v) -ℤ pos 1)
          else offset_loop fuel l k (pos lo) (last lo (suc v)))
  unfolding offset_loop load
  round fuel lo v l k this hl here =
      let some_left : ltb_ℤ (pos (lo + v)) (pos 0) ≡ false = ground arith in
      let inside : leb_ℤ (pos (length l)) (pos (mid lo v)) ≡ false = ground arith in
      let proper : ltb_ℤ (pos (lo + v)) (pos lo) ≡ false = ground arith in
      rw (last-suc lo v, midpoint-suc lo v, point_plus (mid lo v))
        (rw (some_left, inside, here) (rw proper))

  final :
      (fuel lo : ℕ) (l : List (IndexItem D)) (k : ℤ)
      → offset_loop (suc fuel) l k (pos lo) (last lo 0) ≡ ok (negsuc 0)
  unfolding offset_loop
  final fuel zero l k = rw last-zero_zero
  final fuel (suc lo) l k =
      let crossed : ltb_ℤ (pos lo) (pos (suc lo)) ≡ true = ground arith in
      let some_left : ltb_ℤ (pos lo) (pos 0) ≡ false = ground arith in
      rw (last-zero lo, midpoint-zero lo)
        (rw (some_left) (rw (crossed, true_last (leb_ℤ (pos (length l)) (pos (suc lo))))))

  -- `o` tells where the key is, or that it is nowhere.
  pub data Located (l : List (IndexItem D)) (k : ℤ) (o : ℤ) : Type ℓ where
    at_place :
        (p : ℕ) (x : IndexItem D) → o ≡ pos p → get_elem? l p ≡ some x → x.key ≡ k → Located l k o
    nowhere :
        o ≡ negsuc 0
        → ((i : ℕ) (x : IndexItem D) → get_elem? l i ≡ some x → x.key ≢ k)
        → Located l k o

  offset_loop-Located :
      (fuel lo w : ℕ) (l : List (IndexItem D)) (k : ℤ)
      → IsSorted l
      → w < fuel
      → lo + w ≤ length l
      → ((i : ℕ) (x : IndexItem D) → get_elem? l i ≡ some x → x.key ≡ k → (lo ≤ i) × (i < lo + w))
      → (o : ℤ) × (offset_loop fuel l k (pos lo) (last lo w) ≡ ok o) × Located l k o
  offset_loop-Located zero lo w l k s hf hl only = absurd (omega arith)
  offset_loop-Located (suc fuel) lo zero l k s hf hl only =
      (negsuc 0, final fuel lo l k, nowhere refl (λ i x e same. omega (arith, only i x e same)))
  offset_loop-Located (suc fuel) lo (suc v) l k s hf hl only =
      let (this, here) = nth l (mid lo v) (omega arith) in
      rw (round fuel lo v l k this hl here) (elim (Bool-cases (k ==ℤ this.key)) [
        | inl hit ↦ rw hit (
          pos (mid lo v),
          refl,
          at_place (mid lo v) this refl here (sym ((==ℤ_iff k this.key).0 hit)),
        )
        | inr miss ↦ elim (Bool-cases (ltb_ℤ this.key k)) [
          | inl up ↦
              rw (miss, up)
                (rw (upper-last lo v) (
                  offset_loop-Located fuel (mid lo v + 1) (upper lo v) l k s (omega arith)
                    (omega arith)
                    (λ i x e same.
                      let low : mid lo v + 1 ≤ i =
                        place-upper lo v l this x i s here e (ground arith) in
                      (low, omega (arith, only i x e same)))))
          | inr not_up ↦ elim (Bool-cases (ltb_ℤ k this.key)) [
            | inl down ↦
                rw (miss, not_up)
                  (rw down (
                    offset_loop-Located fuel lo (lower v) l k s (omega arith) (omega arith)
                      (λ i x e same.
                        let high : i < mid lo v =
                          place-lower lo v l this x i s here e (ground arith) in
                        ((only i x e same).0, high))))
            | inr not_down ↦
                let e : k ≡ this.key = eq_of_parts k this.key (ground arith) in
                absurd (cc (sym miss ∙ (==ℤ_iff k this.key).1 e))
          ]
        ]
      ])

  pub get_offset-Located :
      (l : List (IndexItem D)) (k : ℤ)
      → IsSorted l
      → (o : ℤ) × (get_offset_from_index l k ≡ ok o) × Located l k o
  unfolding get_offset_from_index
  get_offset-Located [] k s = (negsuc 0, refl, nowhere refl (λ i x e same. cc))
  get_offset-Located (y ∷ l) k s =
      let n : ℕ = length (y ∷ l) in
      let whole : last 0 n ≡ pos n -ℤ pos 1 = ap (λ (m : ℕ). pos m -ℤ pos 1) (omega arith) in
      let (o, run, there) =
        offset_loop-Located (suc n) 0 n (y ∷ l) k s (omega arith) (omega arith)
          (λ i x e same. (omega arith, omega (arith, get_elem?-some (y ∷ l) i e))) in
      let some_there : (n == 0) ≡ false = ground arith in
      (o, rw some_there (ap (offset_loop (suc n) (y ∷ l) k (pos 0)) (sym whole) ∙ run), there)
