-- ===== src/IdManager/Counts.antt =====
-- The id table as a map from ids to counts.
use tuxanci_ng.Prelude.{
  ℕ, suc, ◌+◌, ◌≡◌, refl, sym, ap, ◌∙◌, ◌⊎◌, inl, inr, ◌≢◌, List, [], ◌∷◌, false, Option, none,
  some, arith, if◌then◌else◌, Bool-cases, Option-cases, get_elem?, set,
}
use tuxanci_ng.Prelude.Int.{ℤ, pos, negsuc, ◌==ℤ◌, ==ℤ_iff}
use tuxanci_ng.Sequence.{add, remove_at}
use tuxanci_ng.IdManager.{IdItem, is_register_from}

unfoldable pub count_of : ℤ → List IdItem → Option ℤ
count_of k [] = none
count_of k (x ∷ xs) = if x.id ==ℤ k then some x.count else count_of k xs

pub change : ℤ → IdItem → List IdItem → List IdItem
change k y [] = []
change k y (x ∷ xs) = if x.id ==ℤ k then y ∷ xs else x ∷ change k y xs

pub erase : ℤ → List IdItem → List IdItem
erase k [] = []
erase k (x ∷ xs) = if x.id ==ℤ k then xs else x ∷ erase k xs

-- No id is in the table twice.
abbrev pub IsDistinct : List IdItem → Type 0
IsDistinct [] = Unit
IsDistinct (x ∷ xs) = (count_of x.id xs ≡ none) × IsDistinct xs

-- Where id_is_register finds an id, and what a write or a removal there does.
pub record Registered (list : List IdItem) (i : ℕ) (k : ℤ) (o : ℤ) : Type 0 where
  pub place : ℕ
  pub item : IdItem
  pub index : o ≡ pos (i + place)
  pub here : get_elem? list place ≡ some item
  pub same : item.id ≡ k
  pub counted : count_of k list ≡ some item.count
  pub changed : (y : IdItem) → set list place y ≡ change k y list
  pub erased : (y : IdItem) → remove_at (set list place y) place ≡ erase k list

pub is_register_cases :
    (list : List IdItem) (i : ℕ) (k : ℤ)
    → ((is_register_from list i k ≡ negsuc 0) × (count_of k list ≡ none))
      ⊎ Registered list i k (is_register_from list i k)
unfolding is_register_from count_of change erase
is_register_cases [] i k = inl (refl, refl)
is_register_cases (x ∷ list) i k = elim (Bool-cases (x.id ==ℤ k)) [
  | inl hit ↦ inr (
      rw hit (record {
        place = 0;
        item = x;
        index = ap pos (omega arith);
        here = refl;
        same = (==ℤ_iff x.id k).0 hit;
        counted = rw hit;
        changed = λ y. rw hit;
        erased = λ y. rw hit;
      }))
  | inr miss ↦ elim (is_register_cases list (i + 1) k) [
    | inl (e, absent) ↦ inl (rw miss e, rw miss absent)
    | inr r ↦ inr (
        rw miss (record {
          place = suc r.place;
          item = r.item;
          index = r.index ∙ ap pos (omega arith);
          here = r.here;
          same = r.same;
          counted = rw miss r.counted;
          changed = λ y. rw miss (ap (λ t. x ∷ t) (r.changed y));
          erased = λ y. rw miss (ap (λ t. x ∷ t) (r.erased y));
        }))
  ]
]

pub count_of-add :
    (k : ℤ) (y : IdItem) (list : List IdItem)
    → count_of y.id list ≡ none
    → count_of k (add list y) ≡ (if y.id ==ℤ k then some y.count else count_of k list)
unfolding count_of
count_of-add k y [] h = refl
count_of-add k y (x ∷ list) h =
    ground (arith, count_of-add k y list, ==ℤ_iff x.id k, ==ℤ_iff y.id k, ==ℤ_iff x.id y.id)

pub add-IsDistinct :
    (y : IdItem) (list : List IdItem)
    → IsDistinct list
    → count_of y.id list ≡ none
    → IsDistinct (add list y)
unfolding count_of
add-IsDistinct y [] d h = (refl, tt)
add-IsDistinct y (x ∷ list) d h =
    ground
      (arith, add-IsDistinct y list, count_of-add x.id y list, ==ℤ_iff x.id y.id, ==ℤ_iff y.id x.id)

pub count_of-change :
    (k j : ℤ) (y : IdItem) (list : List IdItem)
    → y.id ≡ k
    → count_of k list ≢ none
    → count_of j (change k y list) ≡ (if k ==ℤ j then some y.count else count_of j list)
unfolding count_of change
count_of-change k j y [] e h = absurd (h refl)
count_of-change k j y (x ∷ list) e h = elim (Bool-cases (x.id ==ℤ k)) [
  | inl hit ↦
      let e' : x.id ≡ k = (==ℤ_iff x.id k).0 hit in
      rw (hit, e, e') (elim (Bool-cases (k ==ℤ j)) [ inl t ↦ rw t | inr t ↦ rw t ])
  | inr miss ↦
      let ih : count_of j (change k y list) ≡ (if k ==ℤ j then some y.count else count_of j list) =
        count_of-change k j y list e (rw miss at h) in
      rw (miss, ih) (ground (arith, ==ℤ_iff x.id j, ==ℤ_iff k j, ==ℤ_iff x.id k))
]

pub count_of-erase :
    (k j : ℤ) (list : List IdItem)
    → IsDistinct list
    → count_of j (erase k list) ≡ (if k ==ℤ j then none else count_of j list)
unfolding count_of erase
count_of-erase k j [] d = ground arith
count_of-erase k j (x ∷ list) d = elim (Bool-cases (x.id ==ℤ k)) [
  | inl hit ↦
      let e : x.id ≡ k = (==ℤ_iff x.id k).0 hit in
      rw (hit, e)
        (elim (Bool-cases (k ==ℤ j)) [
          | inl t ↦ rw t (rw (e, (==ℤ_iff k j).0 t) at d.0)
          | inr t ↦ rw t
        ])
  | inr miss ↦
      rw (miss, count_of-erase k j list d.1)
        (ground (arith, ==ℤ_iff x.id j, ==ℤ_iff k j, ==ℤ_iff x.id k))
]

pub erase-IsDistinct : (k : ℤ) (list : List IdItem) → IsDistinct list → IsDistinct (erase k list)
unfolding erase
erase-IsDistinct k [] d = tt
erase-IsDistinct k (x ∷ list) d =
    ground (arith, erase-IsDistinct k list d.1, count_of-erase k x.id list d.1)

pub change-absent :
    (k : ℤ) (y : IdItem) (list : List IdItem) → count_of k list ≡ none → change k y list ≡ list
unfolding change count_of
change-absent k y [] h = refl
change-absent k y (x ∷ list) h = ground (arith, change-absent k y list)

pub change-IsDistinct :
    (k : ℤ) (y : IdItem) (list : List IdItem)
    → y.id ≡ k
    → IsDistinct list
    → IsDistinct (change k y list)
unfolding change
change-IsDistinct k y [] e d = tt
change-IsDistinct k y (x ∷ list) e d = elim (Bool-cases (x.id ==ℤ k)) [
  | inl hit ↦ let e' : x.id ≡ y.id = (==ℤ_iff x.id k).0 hit ∙ sym e in rw hit (rw e' at d.0, d.1)
  | inr miss ↦ elim (Option-cases (count_of k list)) [
    | inl absent ↦ rw (miss, change-absent k y list absent) d
    | inr (c, there) ↦ rw miss (
      ground
          (arith, count_of-change k x.id y list e (λ h. cc), d.0, ==ℤ_iff x.id k, ==ℤ_iff k x.id),
      change-IsDistinct k y list e d.1,
    )
  ]
]

-- A new id for the entry of `k`.
pub count_of-rename :
    (k j : ℤ) (y : IdItem) (list : List IdItem)
    → IsDistinct list
    → count_of k list ≢ none
    → count_of y.id list ≡ none
    → count_of j (change k y list)
      ≡ (if y.id ==ℤ j then some y.count else if k ==ℤ j then none else count_of j list)
unfolding count_of change
count_of-rename k j y [] d h new = absurd (h refl)
count_of-rename k j y (x ∷ list) d h new = elim (Bool-cases (x.id ==ℤ k)) [
  | inl hit ↦
      let e : x.id ≡ k = (==ℤ_iff x.id k).0 hit in
      let gone : count_of k list ≡ none = rw e at d.0 in
      rw (hit, e)
        (elim (Bool-cases (k ==ℤ j)) [
          | inl t ↦
              rw t
                (ap (λ r. if y.id ==ℤ j then some y.count else r) (rw ((==ℤ_iff k j).0 t) at gone))
          | inr t ↦ rw t
        ])
  | inr miss ↦
      let other : (x.id ==ℤ y.id) ≡ false = ground arith in
      let ih : count_of j (change k y list)
          ≡ (if y.id ==ℤ j then some y.count else if k ==ℤ j then none else count_of j list) =
        count_of-rename k j y list d.1 (rw miss at h) (rw other at new) in
      rw (miss, ih)
        (ground
          (arith, ==ℤ_iff x.id j, ==ℤ_iff k j, ==ℤ_iff x.id k, ==ℤ_iff x.id y.id, ==ℤ_iff y.id j))
]

pub rename-IsDistinct :
    (k : ℤ) (y : IdItem) (list : List IdItem)
    → IsDistinct list
    → count_of k list ≢ none
    → count_of y.id list ≡ none
    → IsDistinct (change k y list)
unfolding count_of change
rename-IsDistinct k y [] d h new = tt
rename-IsDistinct k y (x ∷ list) d h new = elim (Bool-cases (x.id ==ℤ k)) [
  | inl hit ↦ let e : x.id ≡ k = (==ℤ_iff x.id k).0 hit in rw hit (ground arith, d.1)
  | inr miss ↦
      let other : (x.id ==ℤ y.id) ≡ false = ground arith in
      rw miss (
        ground (
          arith,
          count_of-rename k x.id y list d.1 (rw miss at h) (rw other at new),
          d.0,
          ==ℤ_iff x.id k,
          ==ℤ_iff k x.id,
          ==ℤ_iff x.id y.id,
          ==ℤ_iff y.id x.id,
        ),
        rename-IsDistinct k y list d.1 (rw miss at h) (rw other at new),
      )
]
