-- ===== src/Shots/Members.antt =====
-- The objects that the entries of an index hold.
use mathlib.Core.Option.{some_inj}
use tuxanci_ng.Prelude.{
  ℕ, suc, ◌≡◌, refl, inl, inr, List, [], ◌∷◌, Bool, true, false, some, if◌then◌else◌, ◌==◌, ==_iff,
  Bool-cases, get_elem?,
}
use tuxanci_ng.Prelude.Int.{ℤ, ◌==ℤ◌}
use tuxanci_ng.Index.{IndexItem}
use tuxanci_ng.Index.Table.{lookup}
use tuxanci_ng.Space.Walk.{objects}

unfoldable pub mem : ℕ → List ℕ → Bool
mem this [] = false
mem this (o ∷ os) = if o == this then true else mem this os

pub mem-at :
    (o : ℕ) (l : List (IndexItem ℕ))
    → mem o (objects l) ≡ true
    → (i : ℕ) × (e : IndexItem ℕ) × (get_elem? l i ≡ some e) × (e.object ≡ o)
unfolding mem
mem-at o [] h = absurd (cc)
mem-at o (e ∷ l) h = elim (Bool-cases (e.object == o)) [
  | inl here ↦ (0, e, refl, (==_iff e.object o).0 here)
  | inr there ↦ let (i, e', at_i, same) = mem-at o l (rw there at h) in (suc i, e', at_i, same)
]

pub lookup-mem :
    (k : ℤ) (o : ℕ) (l : List (IndexItem ℕ)) → lookup k l ≡ some o → mem o (objects l) ≡ true
unfolding lookup mem
lookup-mem k o [] h = cc
lookup-mem k o (e ∷ l) h = elim (Bool-cases (e.key ==ℤ k)) [
  | inl here ↦
      let held : e.object ≡ o = some_inj.0 (rw here at h) in
      let same : (e.object == o) ≡ true = (==_iff e.object o).1 held in rw same refl
  | inr there ↦
      let rest = lookup-mem k o l (rw there at h) in
      elim (Bool-cases (e.object == o)) [ inl same ↦ rw same refl | inr other ↦ rw other rest ]
]
