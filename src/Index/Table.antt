-- ===== src/Index/Table.antt =====
-- What an index promises: a finite map from keys to objects, kept as a sorted association list.
use tuxanci_ng.Prelude.{
  ℕ, zero, suc, ◌≤◌, ◌<◌, ◌≡◌, refl, inl, inr, ◌≢◌, List, [], ◌∷◌, false, Option, none, some, ok,
  arith, if◌then◌else◌, Bool-cases, length, get_elem?,
}
use tuxanci_ng.Prelude.Int.{ℤ, ◌<ℤ◌, ltb_ℤ, ◌==ℤ◌, ==ℤ_iff}
use tuxanci_ng.Sequence.{insert_at, remove_at}
use tuxanci_ng.Index.{IndexItem, check_list}
use tuxanci_ng.Index.Keys.{Above, IsSorted, Above-get, Above-mono}

module _ {ℓ} {D : Type ℓ} where
  unfoldable pub lookup : ℤ → List (IndexItem D) → Option D
  lookup k [] = none
  lookup k (x ∷ xs) = if x.key ==ℤ k then some x.object else lookup k xs

  unfoldable pub insert : IndexItem D → List (IndexItem D) → List (IndexItem D)
  insert item [] = item ∷ []
  insert item (x ∷ xs) = if ltb_ℤ item.key x.key then item ∷ x ∷ xs else x ∷ insert item xs

  unfoldable pub erase : ℤ → List (IndexItem D) → List (IndexItem D)
  erase k [] = []
  erase k (x ∷ xs) = if x.key ==ℤ k then xs else x ∷ erase k xs

  pub lookup-none :
      (k : ℤ) (l : List (IndexItem D)) (i : ℕ) (x : IndexItem D)
      → lookup k l ≡ none
      → get_elem? l i ≡ some x
      → x.key ≢ k
  unfolding lookup
  lookup-none k [] i x h e = absurd (cc)
  lookup-none k (y ∷ l) zero x h e = ground (arith, ==ℤ_iff y.key k)
  lookup-none k (y ∷ l) (suc i) x h e = lookup-none k l i x (ground arith) e

  pub lookup-Above : (j k : ℤ) (l : List (IndexItem D)) → Above k l → j <ℤ k → lookup j l ≡ none
  unfolding lookup
  lookup-Above j k [] a h = refl
  lookup-Above j k (x ∷ l) a h = ground (arith, lookup-Above j k l a.1 h)

  pub lookup-Above_self : (k : ℤ) (l : List (IndexItem D)) → Above k l → lookup k l ≡ none
  unfolding lookup
  lookup-Above_self k [] a = refl
  lookup-Above_self k (x ∷ l) a = ground (arith, lookup-Above_self k l a.1)

  pub Above-insert :
      (k : ℤ) (item : IndexItem D) (l : List (IndexItem D))
      → k <ℤ item.key
      → Above k l
      → Above k (insert item l)
  unfolding insert
  Above-insert k item [] h a = (h, tt)
  Above-insert k item (x ∷ l) h a = ground (arith, Above-insert k item l h a.1)

  pub insert-IsSorted :
      (item : IndexItem D) (l : List (IndexItem D))
      → IsSorted l
      → lookup item.key l ≡ none
      → IsSorted (insert item l)
  unfolding insert lookup
  insert-IsSorted item [] s h = (tt, tt)
  insert-IsSorted item (x ∷ l) s h = elim (Bool-cases (ltb_ℤ item.key x.key)) [
    | inl lt ↦ rw lt ((ground arith, Above-mono item.key x.key l (ground arith) s.0), s)
    | inr ge ↦
        rw ge
          (Above-insert x.key item l (ground arith) s.0, insert-IsSorted item l s.1 (ground arith))
  ]

  pub lookup-insert :
      (j : ℤ) (item : IndexItem D) (l : List (IndexItem D))
      → lookup item.key l ≡ none
      → lookup j (insert item l) ≡ (if item.key ==ℤ j then some item.object else lookup j l)
  unfolding insert lookup
  lookup-insert j item [] h = refl
  lookup-insert j item (x ∷ l) h = elim (Bool-cases (ltb_ℤ item.key x.key)) [
    | inl lt ↦ rw lt
    | inr ge ↦ elim (Bool-cases (x.key ==ℤ item.key)) [
      | inl same ↦ absurd (cc (rw same at h))
      | inr other ↦
          let ih : lookup j (insert item l)
              ≡ (if item.key ==ℤ j then some item.object else lookup j l) =
            lookup-insert j item l (rw other at h) in
          rw (ge, ih)
            (elim (Bool-cases (item.key ==ℤ j)) [
              | inr new ↦ rw new
              | inl hit ↦
                  let e : item.key ≡ j = (==ℤ_iff item.key j).0 hit in
                  let miss : (x.key ==ℤ j) ≡ false = rw e at other in rw (hit, miss)
            ])
    ]
  ]

  pub insert_at-insert :
      (item : IndexItem D) (l : List (IndexItem D)) (p : ℕ)
      → p ≤ length l
      → ((i : ℕ) (x : IndexItem D) → i < p → get_elem? l i ≡ some x → x.key <ℤ item.key)
      → ((i : ℕ) (x : IndexItem D) → p ≤ i → get_elem? l i ≡ some x → item.key <ℤ x.key)
      → insert_at l p item ≡ insert item l
  unfolding insert
  insert_at-insert item [] zero h below above = refl
  insert_at-insert item [] (suc p) h below above = absurd (omega arith)
  insert_at-insert item (x ∷ l) zero h below above =
      let lt : item.key <ℤ x.key = above 0 x (omega arith) refl in ground arith
  insert_at-insert item (x ∷ l) (suc p) h below above =
      let lt : x.key <ℤ item.key = below 0 x (omega arith) refl in
      let rest : insert_at l p item ≡ insert item l =
        insert_at-insert item l p (omega arith) (λ i y hi e. below (suc i) y (omega arith) e)
          (λ i y hi e. above (suc i) y (omega arith) e) in
      ground arith

  pub check_list-IsSorted : (l : List (IndexItem D)) → IsSorted l → check_list l ≡ ok tt
  unfolding check_list
  check_list-IsSorted [] s = refl
  check_list-IsSorted (x ∷ []) s = refl
  check_list-IsSorted (x ∷ y ∷ l) s = ground (arith, check_list-IsSorted (y ∷ l) s.1)

  -- A key found at a place of a sorted list.
  pub lookup-get :
      (l : List (IndexItem D)) (p : ℕ) (x : IndexItem D)
      → IsSorted l
      → get_elem? l p ≡ some x
      → lookup x.key l ≡ some x.object
  unfolding lookup
  lookup-get [] p x s e = absurd (cc)
  lookup-get (y ∷ l) zero x s e = ground arith
  lookup-get (y ∷ l) (suc p) x s e =
      let lt : y.key <ℤ x.key = Above-get y.key l p x s.0 e in
      ground (arith, lookup-get l p x s.1 e)

  pub remove_at-erase :
      (l : List (IndexItem D)) (p : ℕ) (x : IndexItem D)
      → IsSorted l
      → get_elem? l p ≡ some x
      → remove_at l p ≡ erase x.key l
  unfolding erase
  remove_at-erase [] p x s e = absurd (cc)
  remove_at-erase (y ∷ l) zero x s e = ground arith
  remove_at-erase (y ∷ l) (suc p) x s e =
      let lt : y.key <ℤ x.key = Above-get y.key l p x s.0 e in
      ground (arith, remove_at-erase l p x s.1 e)

  pub erase-absent : (k : ℤ) (l : List (IndexItem D)) → lookup k l ≡ none → erase k l ≡ l
  unfolding erase lookup
  erase-absent k [] h = refl
  erase-absent k (x ∷ l) h = ground (arith, erase-absent k l)

  pub Above-erase : (j k : ℤ) (l : List (IndexItem D)) → Above j l → Above j (erase k l)
  unfolding erase
  Above-erase j k [] a = tt
  Above-erase j k (x ∷ l) a = ground (arith, Above-erase j k l a.1)

  pub erase-IsSorted : (k : ℤ) (l : List (IndexItem D)) → IsSorted l → IsSorted (erase k l)
  unfolding erase
  erase-IsSorted k [] s = tt
  erase-IsSorted k (x ∷ l) s = ground (arith, erase-IsSorted k l s.1, Above-erase x.key k l s.0)

  pub lookup-erase :
      (j k : ℤ) (l : List (IndexItem D))
      → IsSorted l
      → lookup j (erase k l) ≡ (if k ==ℤ j then none else lookup j l)
  unfolding erase lookup
  lookup-erase j k [] s = ground arith
  lookup-erase j k (x ∷ l) s = elim (Bool-cases (x.key ==ℤ k)) [
    | inl here ↦
        let e : x.key ≡ k = (==ℤ_iff x.key k).0 here in
        ground (arith, lookup-Above_self x.key l s.0, ==ℤ_iff k j, ==ℤ_iff x.key j)
    | inr there ↦
        ground (arith, lookup-erase j k l s.1, ==ℤ_iff k j, ==ℤ_iff x.key j, ==ℤ_iff x.key k)
  ]

  pub lookup_nowhere :
      (k : ℤ) (l : List (IndexItem D))
      → ((i : ℕ) (x : IndexItem D) → get_elem? l i ≡ some x → x.key ≢ k)
      → lookup k l ≡ none
  unfolding lookup
  lookup_nowhere k [] h = refl
  lookup_nowhere k (x ∷ l) h = elim (Bool-cases (x.key ==ℤ k)) [
    | inl hit ↦ absurd (h 0 x refl ((==ℤ_iff x.key k).0 hit))
    | inr miss ↦ rw miss (lookup_nowhere k l (λ i y e. h (suc i) y e))
  ]
