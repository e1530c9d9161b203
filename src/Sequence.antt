-- ===== src/Sequence.antt =====
-- What src/base/list.c promises: a list_t is the sequence of its first `count` pointers. The parts
-- that use lists are modelled over these operations; ArrayList/Refine shows that list.c has them.
use tuxanci_ng.Prelude.{
  ℕ, zero, suc, ◌≤◌, ◌<◌, ◌≡◌, refl, ap, List, [], ◌∷◌, ◌++◌, Bool, Option, none, some, arith,
  if◌then◌else◌, length,
}
use mathlib.Core.Option

module _ {ℓ} {A : Type ℓ} where
  -- list_add
  abbrev pub add : List A → A → List A
  add xs a = xs ++ (a ∷ [])

  -- list_ins, at an index up to the length
  abbrev pub insert_at : List A → ℕ → A → List A
  insert_at xs zero a = a ∷ xs
  insert_at [] (suc i) a = a ∷ []
  insert_at (x ∷ xs) (suc i) a = x ∷ insert_at xs i a

  -- list_del, at an index below the length
  abbrev pub remove_at : List A → ℕ → List A
  remove_at [] i = []
  remove_at (x ∷ xs) zero = xs
  remove_at (x ∷ xs) (suc i) = x ∷ remove_at xs i

  -- list_search: the first index that holds the pointer
  abbrev pub index_of : (A → A → Bool) → A → List A → Option ℕ
  index_of eqb a [] = none
  index_of eqb a (x ∷ xs) = if eqb x a then some 0 else Option.map suc (index_of eqb a xs)

  pub length-add : (xs : List A) (a : A) → length (add xs a) ≡ suc (length xs)
  length-add [] a = refl
  length-add (x ∷ xs) a = ap suc (length-add xs a)

  pub length-insert_at : (xs : List A) (i : ℕ) (a : A) → length (insert_at xs i a) ≡ suc (length xs)
  length-insert_at xs zero a = refl
  length-insert_at [] (suc i) a = refl
  length-insert_at (x ∷ xs) (suc i) a = ap suc (length-insert_at xs i a)

  pub length-remove_at :
      (xs : List A) (i : ℕ) → i < length xs → suc (length (remove_at xs i)) ≡ length xs
  length-remove_at [] i h = absurd (omega arith)
  length-remove_at (x ∷ xs) zero h = refl
  length-remove_at (x ∷ xs) (suc i) h = ap suc (length-remove_at xs i (omega arith))

  pub insert_at_end : (xs : List A) (a : A) → insert_at xs (length xs) a ≡ add xs a
  insert_at_end [] a = refl
  insert_at_end (x ∷ xs) a = ap (λ t. x ∷ t) (insert_at_end xs a)

  -- Removing what was inserted restores the sequence.
  pub remove_at-insert_at :
      (xs : List A) (i : ℕ) (a : A) → i ≤ length xs → remove_at (insert_at xs i a) i ≡ xs
  remove_at-insert_at xs zero a h = refl
  remove_at-insert_at [] (suc i) a h = absurd (omega arith)
  remove_at-insert_at (x ∷ xs) (suc i) a h =
      ap (λ t. x ∷ t) (remove_at-insert_at xs i a (omega arith))
