-- ===== src/Space/Walk.antt =====
-- src/base/space.c: space_action visits every object of a space once, also when the function that it
-- calls deletes the object it is called for.
use tuxanci_ng.Prelude.{
  ℕ, zero, suc, ◌+◌, ◌-◌, ◌<◌, ◌≡◌, refl, sym, ap, ap₂, ◌∙◌, ◌⊎◌, inl, inr, List, [], ◌∷◌, ◌++◌,
  map, append_assoc, true, false, some, Result, ok, ltb, ◌==◌, arith, length, get_elem?,
  get_elem?_middle, length-append,
}
use tuxanci_ng.Sequence.{add}
use tuxanci_ng.Index.{IndexItem}
use tuxanci_ng.Space.{Space}
use tuxanci_ng.Space.Actions.{act, space_action_loop, space_action}

-- The objects of an index.
abbrev pub objects : List (IndexItem ℕ) → List ℕ
objects l = map (λ (e : IndexItem ℕ). e.object) l

-- `steps`: the function returns, keeps the invariant, and leaves the index or deletes the entry of the
-- object that it is called for.
module _ {S : Type 0} (space_of : S → Space) (fce : ℕ → S → Result S) (Inv : S → Type 0)
    (steps : (s : S) (e : IndexItem ℕ) (pre post : List (IndexItem ℕ))
      → Inv s
      → (space_of s).list_index ≡ pre ++ e ∷ post
      → (s' : S) × (fce e.object s ≡ ok s')
        × Inv s'
        × (((space_of s').list_index ≡ pre ++ e ∷ post)
            ⊎ ((space_of s').list_index ≡ pre ++ post))) where
  space_action_loop-act :
      (fuel : ℕ) (done todo : List (IndexItem ℕ)) (s : S)
      → Inv s
      → (space_of s).list_index ≡ done ++ todo
      → length todo < fuel
      → space_action_loop space_of fce fuel (length done) (length done + length todo) s
        ≡ act fce (objects todo) s
  unfolding space_action_loop act
  space_action_loop-act zero done todo s i e k = absurd (omega arith)
  space_action_loop-act (suc fuel) done [] s i e k =
      let over : ltb (length done) (length done + 0) ≡ false = ground arith in rw over refl
  space_action_loop-act (suc fuel) done (t ∷ todo) s i e k =
      let more : ltb (length done) (length done + suc (length todo)) ≡ true = ground arith in
      let this : get_elem? (space_of s).list_index (length done) ≡ some t =
        ap (λ l. get_elem? l (length done)) e ∙ get_elem?_middle done t todo in
      let (s', run, i', kept) = steps s t done todo i e in
      rw more (
        rw this (
          rw run (elim kept [
            | inl same ↦
                let all : (length (space_of s').list_index + 1 == length done + suc (length todo))
                    ≡ false =
                  ground (arith, ap length same, length-append done (t ∷ todo)) in
                let here : length done + 1 ≡ length (add done t) =
                  omega (arith, length-append done (t ∷ [])) in
                let rest : length done + suc (length todo) ≡ length (add done t) + length todo =
                  omega (arith, length-append done (t ∷ [])) in
                rw all (
                  ap₂ (λ (a : ℕ) (b : ℕ). space_action_loop space_of fce fuel a b s') here rest
                  ∙ space_action_loop-act fuel (add done t) todo s' i'
                      (same ∙ sym (append_assoc done (t ∷ []) todo)) (omega arith))
            | inr gone ↦
                let one_less : (length (space_of s').list_index + 1
                      == length done + suc (length todo))
                    ≡ true =
                  ground (arith, ap length gone, length-append done todo) in
                let rest : length done + suc (length todo) - 1 ≡ length done + length todo =
                  omega arith in
                rw one_less (
                  ap (λ (b : ℕ). space_action_loop space_of fce fuel (length done) b s') rest
                  ∙ space_action_loop-act fuel done todo s' i' gone (omega arith))
          ])))

  -- space_action is the function called for each object that the index holds at the start, in its order.
  pub space_action-act :
      (s : S) → Inv s → space_action space_of fce s ≡ act fce (objects (space_of s).list_index) s
  unfolding space_action
  space_action-act s i =
      let len : ℕ = length (space_of s).list_index in
      let start : len ≡ 0 + len = omega arith in
      ap (λ (n : ℕ). space_action_loop space_of fce (suc len) 0 n s) start
      ∙ space_action_loop-act (suc len) [] (space_of s).list_index s i refl (omega arith)
