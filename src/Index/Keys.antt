-- ===== src/Index/Keys.antt =====
-- Keys in a list, by position, and what it means that the list is sorted.
use tuxanci_ng.Prelude.{ℕ, zero, suc, ◌<◌, ◌≡◌, refl, List, [], ◌∷◌, some, arith, length, get_elem?}
use tuxanci_ng.Prelude.Int.{ℤ, ◌<ℤ◌}
use tuxanci_ng.Index.{IndexItem}

module _ {ℓ} {D : Type ℓ} where
  -- Every key of the list is above `k`.
  abbrev pub Above : ℤ → List (IndexItem D) → Type 0
  Above k [] = Unit
  Above k (x ∷ xs) = (k <ℤ x.key) × Above k xs

  -- Strictly ascending keys.
  abbrev pub IsSorted : List (IndexItem D) → Type 0
  IsSorted [] = Unit
  IsSorted (x ∷ xs) = Above x.key xs × IsSorted xs

  pub Above-get :
      (k : ℤ) (xs : List (IndexItem D)) (i : ℕ) (x : IndexItem D)
      → Above k xs
      → get_elem? xs i ≡ some x
      → k <ℤ x.key
  Above-get k [] i x a e = absurd (cc)
  Above-get k (y ∷ xs) zero x a e = ground arith
  Above-get k (y ∷ xs) (suc i) x a e = Above-get k xs i x a.1 e

  pub Above-mono : (j k : ℤ) (xs : List (IndexItem D)) → j <ℤ k → Above k xs → Above j xs
  Above-mono j k [] h a = tt
  Above-mono j k (x ∷ xs) h a = (omega (arith, a.0), Above-mono j k xs h a.1)

  pub IsSorted-get :
      (xs : List (IndexItem D)) (i j : ℕ) (x y : IndexItem D)
      → IsSorted xs
      → i < j
      → get_elem? xs i ≡ some x
      → get_elem? xs j ≡ some y
      → x.key <ℤ y.key
  IsSorted-get [] i j x y s h ei ej = absurd (cc)
  IsSorted-get (z ∷ xs) i zero x y s h ei ej = absurd (omega arith)
  IsSorted-get (z ∷ xs) zero (suc j) x y s h ei ej =
      let a : z.key <ℤ y.key = Above-get z.key xs j y s.0 ej in ground arith
  IsSorted-get (z ∷ xs) (suc i) (suc j) x y s h ei ej =
      IsSorted-get xs i j x y s.1 (omega arith) ei ej

  pub nth :
      (xs : List (IndexItem D)) (i : ℕ)
      → i < length xs
      → (x : IndexItem D) × (get_elem? xs i ≡ some x)
  nth [] i h = absurd (omega arith)
  nth (x ∷ xs) zero h = (x, refl)
  nth (x ∷ xs) (suc i) h = nth xs i (omega arith)
