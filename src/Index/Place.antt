-- ===== src/Index/Place.antt =====
-- Where a key stands in a sorted list, by comparison with the candidate in the middle.
use tuxanci_ng.Prelude.{
  ℕ, ◌+◌, ◌≤◌, ◌<◌, ◌≡◌, sym, ap, ◌∙◌, List, some, arith, ℕ_discrete, dec_lt, get_elem?,
}
use tuxanci_ng.Prelude.Int.{◌<ℤ◌}
use tuxanci_ng.Index.{IndexItem}
use tuxanci_ng.Index.Keys.{IsSorted, IsSorted-get}
use tuxanci_ng.Index.Bisect.{mid}

module _ {ℓ} {D : Type ℓ} where
  -- A key above that of the middle stands behind the middle, one below it before the middle.
  pub place-upper :
      (lo v : ℕ) (l : List (IndexItem D)) (this there : IndexItem D) (p : ℕ)
      → IsSorted l
      → get_elem? l (mid lo v) ≡ some this
      → get_elem? l p ≡ some there
      → this.key <ℤ there.key
      → mid lo v + 1 ≤ p
  place-upper lo v l this there p s here at_p lt = elim (dec_lt (mid lo v) p) [
    | yes behind ↦ omega arith
    | no before ↦ elim (ℕ_discrete p (mid lo v)) [
      | yes same ↦
          let e : some there ≡ some this = sym at_p ∙ ap (get_elem? l) same ∙ here in
          absurd (ground arith)
      | no other ↦
          absurd (omega (arith, IsSorted-get l p (mid lo v) there this s (omega arith) at_p here))
    ]
  ]

  pub place-lower :
      (lo v : ℕ) (l : List (IndexItem D)) (this there : IndexItem D) (p : ℕ)
      → IsSorted l
      → get_elem? l (mid lo v) ≡ some this
      → get_elem? l p ≡ some there
      → there.key <ℤ this.key
      → p < mid lo v
  place-lower lo v l this there p s here at_p lt = elim (dec_lt p (mid lo v)) [
    | yes before ↦ before
    | no behind ↦ elim (ℕ_discrete p (mid lo v)) [
      | yes same ↦
          let e : some there ≡ some this = sym at_p ∙ ap (get_elem? l) same ∙ here in
          absurd (ground arith)
      | no other ↦
          absurd (omega (arith, IsSorted-get l (mid lo v) p this there s (omega arith) here at_p))
    ]
  ]
