-- ===== src/ArrayList/Refine.antt =====
-- src/base/list.c: each function against its counterpart in Sequence, on the live cells.
use mathlib.Core.Option
use native.Mathlib.Numerals.{add-one}
use tuxanci_ng.Prelude.{
  ℕ, zero, suc, ◌+◌, ◌-◌, ◌≤◌, ◌<◌, ◌≡◌, refl, sym, ap, ap₂, ◌∙◌, ◌⊎◌, inl, inr, List, [], ◌∷◌,
  ◌++◌, Bool, Option, none, some, ok, err, out_of_bounds, of_option, get_elem?-take, drop_step,
  arith, leb, ltb, ◌==◌, Bool-cases, length, take, drop, get_elem?, set, length-append, length-set,
  length-take, length-replicate, take-append_le, take_all,
}
use tuxanci_ng.Prelude.Int.{ℤ, pos, negsuc, ◌+ℤ◌, ◌-ℤ◌, ◌<ℤ◌, ◌≤ℤ◌}
use tuxanci_ng.Sequence.{add, insert_at, remove_at, index_of, length-add}
use tuxanci_ng.Memory.{malloc, load, read_block, memmove}
use tuxanci_ng.Memory.Blocks.{
  overwrite, store-set, memmove_lem, memmove_before, memcpy_lem, length-overwrite, length-section,
}
use tuxanci_ng.ArrayList.{
  ListT, assert_index, list_alloc_limit, list_new, list_add, list_ins, list_get, list_search,
  search_from, list_del, shrink, list_do_empty,
}

-- `p` is well formed and its live cells hold `xs`.
pub record Holds {ℓ} {B : Type ℓ} (p : ListT B) (xs : List B) : Type ℓ where
  pub sized : length p.cells ≡ p.alloc
  pub fits : p.count ≤ p.alloc
  pub live : take p.count p.cells ≡ xs

-- The index arithmetic of the two shifts stays in range.
plus_one : (i : ℕ) → pos i +ℤ pos 1 ≡ pos (suc i)
unfolding ◌+ℤ◌
plus_one i = ground arith

shift_length : (n i : ℕ) → i ≤ n → pos (suc n) -ℤ pos 1 -ℤ pos i ≡ pos (n - i)
unfolding ◌-ℤ◌
shift_length n i h = ground arith

past_end : (n i : ℕ) → n ≤ i → pos n -ℤ pos 1 -ℤ pos i ≡ negsuc (i - n)
unfolding ◌-ℤ◌
past_end n i h = ground arith

module _ {ℓ} {B : Type ℓ} where
  assert_index_lem : (p : ListT B) (i : ℕ) → assert_index p (pos i) ≡ ok tt
  assert_index_lem p i = ground arith

  -- The assertion of list_ins, list_get, list_del and list_del_item, `n >= 0 || n < p->count`,
  -- holds for every index.
  pub assert_index_passes : (p : ListT B) (n : ℤ) → assert_index p n ≡ ok tt
  assert_index_passes p (pos i) = assert_index_lem p i
  assert_index_passes p (negsuc i) = ground arith

  pub Holds-count : {p : ListT B} {xs : List B} → Holds p xs → p.count ≡ length xs
  Holds-count {p} {xs} h =
      omega (arith, length-take p.count p.cells, ap length h.live, h.fits, h.sized)

  length_zero : (xs : List B) → length xs ≡ 0 → xs ≡ []
  length_zero [] h = refl
  length_zero (x ∷ xs) h = absurd (omega arith)

  take_prefix :
      (xs cells : List B) (a : B)
      → take (suc (length xs)) cells ≡ add xs a
      → take (length xs) cells ≡ xs
  take_prefix [] cells a h = refl
  take_prefix (x ∷ xs) [] a h = cc
  take_prefix (x ∷ xs) (c ∷ cells) a h =
      ap₂ ◌∷◌ (ground arith) (take_prefix xs cells a (ground arith))

  take-add :
      (cells : List B) (n : ℕ) (a : B)
      → n < length cells
      → take (suc n) (set cells n a) ≡ add (take n cells) a
  take-add [] n a h = absurd (omega arith)
  take-add (x ∷ cells) zero a h = refl
  take-add (x ∷ cells) (suc n) a h = ap (λ t. x ∷ t) (take-add cells n a (omega arith))

  -- The shift to the right of list_ins, followed by its store.
  take-shift_right :
      (cells rest : List B) (i k m : ℕ) (a : B)
      → m ≡ i + k
      → m < length cells
      → take (suc m) (set (take (suc i) cells ++ (take k (drop i cells) ++ rest)) i a)
        ≡ insert_at (take m cells) i a
  take-shift_right [] rest i k m a e h = absurd (omega arith)
  take-shift_right (x ∷ cells) rest zero k m a e h =
      let e' : k ≡ m = omega arith in
      rw e' (
        ap (λ t. a ∷ t)
          (take-append_le m (take m (x ∷ cells)) rest (omega (arith, length-take m (x ∷ cells)))
            ∙ take_all m (take m (x ∷ cells)) (omega (arith, length-take m (x ∷ cells)))))
  take-shift_right (x ∷ cells) rest (suc i) k zero a e h = absurd (omega arith)
  take-shift_right (x ∷ cells) rest (suc i) k (suc m) a e h =
      ap (λ t. x ∷ t) (take-shift_right cells rest i k m a (omega arith) (omega arith))

  -- The shift to the left of list_del.
  take-shift_left :
      (cells rest : List B) (i k m : ℕ)
      → m ≡ i + k
      → m < length cells
      → take m (take i cells ++ (take k (drop (suc i) cells) ++ rest))
        ≡ remove_at (take (suc m) cells) i
  take-shift_left [] rest i k m e h = absurd (omega arith)
  take-shift_left (x ∷ cells) rest zero k m e h =
      let e' : k ≡ m = omega arith in
      rw e' (
        take-append_le m (take m cells) rest (omega (arith, length-take m cells))
        ∙ take_all m (take m cells) (omega (arith, length-take m cells)))
  take-shift_left (x ∷ cells) rest (suc i) k zero e h = absurd (omega arith)
  take-shift_left (x ∷ cells) rest (suc i) k (suc m) e h =
      ap (λ t. x ∷ t) (take-shift_left cells rest i k m (omega arith) (omega arith))

module _ {ℓ} {B : Type ℓ} (null : B) where
  pub list_new-Holds : Holds (list_new null) []
  unfolding list_new
  list_new-Holds = record { sized = refl; fits = omega arith; live = refl }

  -- A store behind the live cells, in a block of `a` cells.
  stored : List B → ℕ → ℕ → B → ListT B
  stored cells n a item = record { cells = set cells n item; count = n + 1; alloc = a }

  stored-Holds :
      (cells : List B) (n a : ℕ) (item : B)
      → length cells ≡ a
      → n < a
      → Holds (stored cells n a item) (add (take n cells) item)
  unfolding stored
  stored-Holds cells n a item e h = record {
    sized = length-set cells n item ∙ e;
    fits = omega arith;
    live = rw add-one (take-add cells n item (omega arith));
  }

  pub list_add-Holds :
      (p : ListT B) (xs : List B) (item : B)
      → Holds p xs
      → (q : ListT B) × (list_add null p item ≡ ok q) × Holds q (add xs item)
  unfolding list_add stored
  list_add-Holds p xs item h = elim (Bool-cases (p.alloc == 0)) [
    | inl empty ↦
        let none_live : take p.count p.cells ≡ [] =
          length_zero (take p.count p.cells)
            (ground (arith, h.sized, h.fits, length-take p.count p.cells)) in
        rw (empty, store-set (malloc list_alloc_limit null) 0 item (omega arith))
          (
            _,
            refl,
            rw (sym h.live, none_live)
                (stored-Holds (malloc list_alloc_limit null) 0 list_alloc_limit item refl
                  (omega arith)),
          )
    | inr full ↦ elim (Bool-cases (leb (p.count + 1) p.alloc)) [
      | inl room ↦
          let fits : p.count < p.alloc = ground arith in
          rw (full, room, store-set p.cells p.count item (omega (arith, h.sized)))
            (_, refl, rw (sym h.live) (stored-Holds p.cells p.count p.alloc item h.sized fits))
      | inr grow ↦
          let full_len : p.count ≡ p.alloc = ground (arith, h.fits) in
          let grown : length (p.cells ++ malloc list_alloc_limit null)
              ≡ p.alloc + list_alloc_limit =
            omega (arith, length-append p.cells (malloc list_alloc_limit null), h.sized) in
          let same : take p.count (p.cells ++ malloc list_alloc_limit null) ≡ xs =
            take-append_le p.count p.cells (malloc list_alloc_limit null) (omega (arith, h.sized))
            ∙ h.live in
          rw
            (
              full,
              grow,
              store-set (p.cells ++ malloc list_alloc_limit null) p.count item (omega arith),
            )
            (
              _,
              refl,
              rw (← same) (
                  stored-Holds (p.cells ++ malloc list_alloc_limit null) p.count
                    (p.alloc + list_alloc_limit) item grown (omega arith)),
            )
    ]
  ]

  pub list_ins-Holds :
      (p : ListT B) (xs : List B) (i : ℕ) (item : B)
      → Holds p xs
      → i ≤ length xs
      → (q : ListT B) × (list_ins null p (pos i) item ≡ ok q) × Holds q (insert_at xs i item)
  unfolding list_ins
  list_ins-Holds p xs i item h le = finish (list_add-Holds p xs null h)
    where
      finish :
          ((r : ListT B) × (list_add null p null ≡ ok r) × Holds r (add xs null))
          → (q : ListT B) × (list_ins null p (pos i) item ≡ ok q) × Holds q (insert_at xs i item)
      finish (r, e, hr) =
          let n : ℕ = length xs in
          let k : ℕ = n - i in
          let count_eq : r.count ≡ suc n = Holds-count hr ∙ length-add xs null in
          let room : n < length r.cells = omega (arith, hr.fits, hr.sized) in
          let moved : List B = overwrite r.cells (suc i) (take k (drop i r.cells)) k in
          let len : length moved ≡ length r.cells =
            length-overwrite r.cells (take k (drop i r.cells)) (suc i) k
              (length-section r.cells i k (omega arith)) (omega arith) in
          rw e (
            rw (plus_one i) (
              rw count_eq (
                rw (shift_length n i le) (
                  rw
                    (
                      memmove_lem r.cells (suc i) i k (omega arith) (omega arith),
                      store-set moved i item (omega arith),
                    )
                    (
                      record { cells = set moved i item; count = suc n; alloc = r.alloc },
                      ground arith,
                      record {
                        sized = length-set moved i item ∙ len ∙ hr.sized;
                        fits = omega arith;
                        live =
                            take-shift_right r.cells (drop (suc i + k) r.cells) i k n item
                              (omega arith) room
                            ∙ ap (λ t. insert_at t i item)
                                (take_prefix xs r.cells null (rw count_eq at hr.live));
                      },
                    )))))

  -- Giving memory back keeps the live cells.
  shrink-Holds :
      (p : ListT B) (xs : List B) → Holds p xs → (q : ListT B) × (shrink null p ≡ ok q) × Holds q xs
  unfolding shrink
  shrink-Holds p xs h = elim (Bool-cases (ltb (p.count + list_alloc_limit) p.alloc)) [
    | inr keep ↦ rw keep (p, refl, h)
    | inl waste ↦
        let a : ℕ = p.alloc - list_alloc_limit in
        let n : ℕ = p.count in
        let room : n ≤ a = ground arith in
        let fresh : List B = malloc a null in
        let have : length fresh ≡ a = length-replicate a null in
        let block_len : length (take n (drop 0 p.cells)) ≡ n =
          ground (arith, h.fits, h.sized, length-take n p.cells) in
        rw (waste, memcpy_lem fresh p.cells 0 0 n (omega (arith, h.fits, h.sized)) (omega arith))
          (
            _,
            refl,
            record {
              sized =
                  length-overwrite fresh (take n (drop 0 p.cells)) 0 n block_len (omega arith)
                  ∙ have;
              fits = room;
              live =
                  (take-append_le n (take n p.cells) (drop (0 + n) fresh) (omega arith)
                    ∙ take_all n (take n p.cells) (omega arith))
                  ∙ h.live;
            },
          )
  ]

  pub list_del-Holds :
      (p : ListT B) (xs : List B) (i : ℕ)
      → Holds p xs
      → i < length xs
      → (q : ListT B) × (list_del null p (pos i) ≡ ok q) × Holds q (remove_at xs i)
  unfolding list_del
  list_del-Holds p xs i h lt =
      let m : ℕ = length xs - 1 in
      let k : ℕ = m - i in
      let count_eq : p.count ≡ suc m = omega (arith, Holds-count h) in
      let room : m < length p.cells = omega (arith, h.fits, h.sized) in
      let moved : List B = overwrite p.cells i (take k (drop (suc i) p.cells)) k in
      let len : length moved ≡ length p.cells =
        length-overwrite p.cells (take k (drop (suc i) p.cells)) i k
          (length-section p.cells (suc i) k (omega arith)) (omega arith) in
      let r : ListT B = record { cells = moved; count = p.count - 1; alloc = p.alloc } in
      let hr : Holds r (remove_at xs i) = record {
        sized = len ∙ h.sized;
        fits = omega (arith, h.fits);
        live =
            (ap (λ t. take t moved) (omega (arith, count_eq))
              ∙ take-shift_left p.cells (drop (i + k) p.cells) i k m (omega arith) room)
            ∙ ap (λ t. remove_at t i) (rw count_eq at h.live);
      } in
      rw (plus_one i, ap pos count_eq)
        (rw (shift_length m i (omega arith)) (
          rw (memmove_lem p.cells i (suc i) k (omega arith) (omega arith), assert_index_lem p i)
            (shrink-Holds r (remove_at xs i) hr)))

  pub list_get-Holds :
      (p : ListT B) (xs : List B) (i : ℕ)
      → Holds p xs
      → i < length xs
      → list_get null p (pos i) ≡ of_option (get_elem? xs i) out_of_bounds
  unfolding list_get load
  list_get-Holds p xs i h lt = rw (assert_index_lem p i) (
      ap (λ t. of_option t out_of_bounds)
        (sym (get_elem?-take p.count i p.cells (omega (arith, Holds-count h)))
          ∙ ap (λ t. get_elem? t i) h.live))

  -- What list_search answers for the first match `i` places on.
  abbrev pub found : ℕ → Option ℕ → ℤ
  found i none = negsuc 0
  found i (some j) = pos (i + j)

  found-suc : (i : ℕ) (o : Option ℕ) → found (i + 1) o ≡ found i (Option.map suc o)
  found-suc i none = refl
  found-suc i (some j) = ap pos (omega arith)

  search_from_lem :
      (eqb : B → B → Bool) (cells : List B) (k i : ℕ) (n : B)
      → i + k ≤ length cells
      → search_from null eqb cells k i n ≡ ok (found i (index_of eqb n (take k (drop i cells))))
  unfolding search_from load
  search_from_lem eqb cells zero i n h = refl
  search_from_lem eqb cells (suc k) i n h =
      let (c, at_i, next) = drop_step i cells (omega arith) in
      let rest : search_from null eqb cells k (i + 1) n
          ≡ ok (found (i + 1) (index_of eqb n (take k (drop (i + 1) cells)))) =
        search_from_lem eqb cells k (i + 1) n (omega arith) in
      let one : i + 1 ≡ suc i = omega arith in
      rw (at_i, next)
        (elim (Bool-cases (eqb c n)) [
          | inl hit ↦ rw hit (ap (λ t. ok (pos t)) (omega arith))
          | inr miss ↦ rw miss (
              rest
              ∙ ap ok (found-suc i (index_of eqb n (take k (drop (i + 1) cells))))
              ∙ ap (λ t. ok (found i (Option.map suc (index_of eqb n (take k (drop t cells))))))
                  one)
        ])

  pub list_search-Holds :
      (eqb : B → B → Bool) (p : ListT B) (xs : List B) (n : B)
      → Holds p xs
      → list_search null eqb p n ≡ ok (found 0 (index_of eqb n xs))
  unfolding list_search
  list_search-Holds eqb p xs n h =
      search_from_lem eqb p.cells p.count 0 n (omega (arith, h.fits, h.sized))
      ∙ ap (λ t. ok (found 0 (index_of eqb n t))) h.live

  pub list_do_empty-Holds :
      (p : ListT B) (xs : List B) → Holds p xs → Holds (list_do_empty null p) []
  unfolding list_do_empty
  list_do_empty-Holds p xs h = record { sized = h.sized; fits = omega arith; live = refl }

  -- list_del at an index from the length on, below -1, or at -1 in a list that is not empty: its
  -- assertion lets the index pass, and memmove reads or writes outside the block.
  pub list_del_outside :
      (p : ListT B) (xs : List B) (n : ℤ)
      → Holds p xs
      → (pos (length xs) ≤ℤ n) ⊎ ((n <ℤ negsuc 0) ⊎ ((n ≡ negsuc 0) × (0 < length xs)))
      → (assert_index p n ≡ ok tt) × (list_del null p n ≡ err out_of_bounds)
  unfolding list_del memmove read_block
  list_del_outside p xs (pos i) h (inl high) = (
    assert_index_lem p i,
    rw (assert_index_lem p i, plus_one i, ap pos (Holds-count h))
        (rw (past_end (length xs) i (omega arith)) refl),
  )
  list_del_outside p xs (pos i) h (inr (inl low)) = absurd (omega arith)
  list_del_outside p xs (pos i) h (inr (inr (at, some_live))) = absurd (cc)
  list_del_outside p xs (negsuc i) h out = (
    assert_index_passes p (negsuc i),
    rw (assert_index_passes p (negsuc i), memmove_before p.cells i),
  )
