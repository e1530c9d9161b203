-- ===== src/Shots/Ready.antt =====
-- src/base/shot.c: the shots at the entries of the index of their space.
use tuxanci_ng.Prelude.{
  ℕ, suc, ◌+◌, ◌≡◌, refl, sym, ap, subst, ◌∙◌, inl, inr, List, [], ◌∷◌, ◌++◌, append_assoc, true,
  false, some, arith, ◌==◌, ==_iff, Bool-cases, length, get_elem?, get_elem?_middle,
  get_elem?_behind,
}
use tuxanci_ng.Prelude.Int.{ℤ, ◌<ℤ◌, ◌==ℤ◌, ==ℤ_iff}
use mathlib.Core.Option.{some_inj}
use tuxanci_ng.Index.{IndexItem}
use tuxanci_ng.Index.Keys.{IsSorted-get}
use tuxanci_ng.Index.Table.{lookup, lookup-get}
use tuxanci_ng.Space.Walk.{objects}
use tuxanci_ng.Space.Invariant.{registered, is_it, registered-lookup}
use tuxanci_ng.Tux.{shot_kind}
use tuxanci_ng.Shots.{Shots}
use tuxanci_ng.Shots.Members.{mem, mem-at, lookup-mem}
use tuxanci_ng.Shots.Flight.{Flies}

-- The shots that stand at the entries of an index whose keys are sorted.
module _ (s : Shots) (f : Flies s) where
  pub entry_key :
      (l : List (IndexItem ℕ)) (e : IndexItem ℕ) (i : ℕ)
      → get_elem? s.space.list_index i ≡ some e
      → (s.heap e.object).id ≡ e.key
  unfolding shot_kind
  entry_key l e i at_i =
      f.consistent.keyed e.key e.object (lookup-get s.space.list_index i e f.consistent.sorted at_i)

  pub entry_registered :
      (e : IndexItem ℕ) (i : ℕ)
      → get_elem? s.space.list_index i ≡ some e
      → registered shot_kind s.heap s.space e.object ≡ true
  unfolding registered shot_kind is_it
  entry_registered e i at_i =
      let self : (e.object == e.object) ≡ true = (==_iff e.object e.object).1 refl in
      let found : lookup (s.heap e.object).id s.space.list_index ≡ some e.object =
        ap (λ (k : ℤ). lookup k s.space.list_index) (entry_key [] e i at_i)
        ∙ lookup-get s.space.list_index i e f.consistent.sorted at_i in
      rw found self

-- Two shots of the space have two ids.
pub ids_differ :
    (s : Shots)
    → Flies s
    → (o this : ℕ) → registered shot_kind s.heap s.space o ≡ true
    → registered shot_kind s.heap s.space this ≡ true
    → (o == this) ≡ false
    → ((s.heap o).id ==ℤ (s.heap this).id) ≡ false
unfolding shot_kind
ids_differ s f o this at_o at_this other = elim (Bool-cases ((s.heap o).id ==ℤ (s.heap this).id)) [
  | inr differs ↦ differs
  | inl same ↦
      let both : some o ≡ some this =
        sym (registered-lookup shot_kind s.heap s.space o at_o)
        ∙ ap (λ (i : ℤ). lookup i s.space.list_index) ((==ℤ_iff _ _).0 same)
        ∙ registered-lookup shot_kind s.heap s.space this at_this in
      cc (sym other ∙ (==_iff o this).1 (some_inj.0 both))
]

no_less : (k : ℤ) → ¬ (k <ℤ k)
no_less k h = omega arith

-- Registered shots, each once.
unfoldable pub Ready : Shots → List ℕ → Type 0
Ready s [] = Unit
Ready s (o ∷ os) = (registered shot_kind s.heap s.space o ≡ true) × (mem o os ≡ false) × Ready s os

pub Ready-mem :
    (os : List ℕ) (s : Shots) (this : ℕ)
    → Ready s os
    → mem this os ≡ true
    → registered shot_kind s.heap s.space this ≡ true
unfolding Ready mem
Ready-mem [] s this r at = absurd (cc)
Ready-mem (o ∷ os) s this (reg, once, r) at = elim (Bool-cases (o == this)) [
  | inl same ↦
      subst (λ t. registered shot_kind s.heap s.space t ≡ true) ((==_iff o this).0 same) reg
  | inr other ↦ Ready-mem os s this r (rw other at at)
]

-- No two entries hold the same object.
alone :
    (s : Shots) (f : Flies s) (pre post : List (IndexItem ℕ)) (e : IndexItem ℕ)
    → s.space.list_index ≡ pre ++ e ∷ post
    → get_elem? s.space.list_index (length pre) ≡ some e
    → mem e.object (objects post) ≡ false
alone s f pre post e l at_e = elim (Bool-cases (mem e.object (objects post))) [
  | inr absent ↦ absent
  | inl again ↦
      let (i, e', at_i, same) = mem-at e.object post again in
      let at_e' : get_elem? s.space.list_index (length pre + suc i) ≡ some e' =
        ap (λ t. get_elem? t (length pre + suc i)) l
        ∙ get_elem?_behind pre (e ∷ post) (suc i)
        ∙ at_i in
      let above : e.key <ℤ e'.key =
        IsSorted-get s.space.list_index (length pre) (length pre + suc i) e e' f.consistent.sorted
          (omega arith) at_e at_e' in
      let keys : e'.key ≡ e.key =
        sym (entry_key s f [] e' (length pre + suc i) at_e')
        ∙ ap (λ o. (s.heap o).id) same
        ∙ entry_key s f [] e (length pre) at_e in
      absurd (no_less e.key (subst (λ (k : ℤ). e.key <ℤ k) keys above))
]

pub Ready-objects :
    (s : Shots) (f : Flies s) (pre post : List (IndexItem ℕ))
    → s.space.list_index ≡ pre ++ post
    → Ready s (objects post)
unfolding Ready
Ready-objects s f pre [] l = tt
Ready-objects s f pre (e ∷ post) l =
    let at_e : get_elem? s.space.list_index (length pre) ≡ some e =
      ap (λ t. get_elem? t (length pre)) l ∙ get_elem?_middle pre e post in
    (
      entry_registered s f e (length pre) at_e,
      alone s f pre post e l at_e,
      Ready-objects s f (pre ++ e ∷ []) post (l ∙ sym (append_assoc pre (e ∷ []) post)),
    )

-- The objects of the index are the registered ones.
pub mem-objects :
    (s : Shots) (f : Flies s) (this : ℕ)
    → mem this (objects s.space.list_index) ≡ registered shot_kind s.heap s.space this
unfolding shot_kind
mem-objects s f this = elim (Bool-cases (registered shot_kind s.heap s.space this)) [
  | inl there ↦
      lookup-mem (s.heap this).id this s.space.list_index
        (registered-lookup shot_kind s.heap s.space this there)
      ∙ sym there
  | inr gone ↦ elim (Bool-cases (mem this (objects s.space.list_index))) [
    | inr absent ↦ absent ∙ sym gone
    | inl held ↦
        let (i, e, at_i, same) = mem-at this s.space.list_index held in
        cc (
          sym gone
          ∙ ap (registered shot_kind s.heap s.space) (sym same)
          ∙ entry_registered s f e i at_i)
  ]
]
