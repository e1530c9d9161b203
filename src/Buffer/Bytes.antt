-- ===== src/Buffer/Bytes.antt =====
-- Blocks of bytes cut out of and written into the storage.
use tuxanci_ng.Prelude.{
  ℕ, zero, suc, ◌+◌, ◌-◌, ◌≤◌, ◌≡◌, refl, sym, ap, ◌∙◌, List, [], ◌∷◌, ◌++◌, append_assoc, arith,
  length, take, drop, length-append, length-take, take-append_le, take_all,
}
use tuxanci_ng.Memory.Blocks.{overwrite}

module _ {ℓ} {A : Type ℓ} where
  take-nil : (n : ℕ) → take {A = A} n [] ≡ []
  take-nil zero = refl
  take-nil (suc n) = refl

  pub drop-take : (n m : ℕ) (xs : List A) → drop n (take m xs) ≡ take (m - n) (drop n xs)
  drop-take zero m xs = let e : m ≡ m - 0 = omega arith in ap (λ (k : ℕ). take k xs) e
  drop-take (suc n) zero xs =
      let e : 0 ≡ zero - suc n = omega arith in ap (λ (k : ℕ). take k (drop (suc n) xs)) e
  drop-take (suc n) (suc m) [] = sym (take-nil (suc m - suc n))
  drop-take (suc n) (suc m) (x ∷ xs) =
      let e : m - n ≡ suc m - suc n = omega arith in
      drop-take n m xs ∙ ap (λ (k : ℕ). take k (drop n xs)) e

  -- What stands up to the end of a block written at `i`.
  pub take-overwrite :
      (cells b : List A) (i k : ℕ)
      → length b ≡ k
      → i ≤ length cells
      → take (i + k) (overwrite cells i b k) ≡ take i cells ++ b
  take-overwrite cells b i k e h =
      let len : length (take i cells ++ b) ≡ i + k =
        omega (arith, length-append (take i cells) b, length-take i cells) in
      ap (take (i + k)) (sym (append_assoc (take i cells) b (drop (i + k) cells)))
      ∙ take-append_le (i + k) (take i cells ++ b) (drop (i + k) cells) (omega arith)
      ∙ take_all (i + k) (take i cells ++ b) (omega arith)

  pub take-take : (n m : ℕ) (xs : List A) → n ≤ m → take n xs ≡ take n (take m xs)
  take-take zero m xs h = refl
  take-take (suc n) zero xs h = absurd (omega arith)
  take-take (suc n) (suc m) [] h = refl
  take-take (suc n) (suc m) (x ∷ xs) h = ap (λ t. x ∷ t) (take-take n m xs (omega arith))
