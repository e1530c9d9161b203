-- ===== src/Shots/Pass.antt =====
-- src/base/shot.c: action_moveShot for each of a list of shots.
use tuxanci_ng.Prelude.{
  ℕ, ◌≡◌, refl, sym, ap, ap₂, subst, ◌∙◌, inl, inr, List, [], ◌∷◌, Bool, true, false, not, ◌&&◌,
  Option, ok, arith, if◌then◌else◌, ◌==◌, ==_iff, Bool-cases,
}
use tuxanci_ng.Prelude.Int.{ℤ, ◌==ℤ◌, ==ℤ_iff}
use tuxanci_ng.IdManager.Counts.{count_of}
use tuxanci_ng.Space.Actions.{act}
use tuxanci_ng.Space.Invariant.{registered}
use tuxanci_ng.Tux.{Shot, shot_kind}
use tuxanci_ng.Shots.{Shots, has_left, action_move_shot}
use tuxanci_ng.Shots.Members.{mem}
use tuxanci_ng.Shots.Flight.{one_less, flown, Flies, Moves, action_move_shot-Moves}
use tuxanci_ng.Shots.Ready.{ids_differ, Ready, Ready-mem}

if_and_false {ℓ} : {A : Type ℓ} (b : Bool) (x y : A) → (if b && false then x else y) ≡ y
if_and_false true x y = refl
if_and_false false x y = refl

if_and_true {ℓ} :
    {A : Type ℓ} (b : Bool) (x y : A) → (if b && true then x else y) ≡ (if b then x else y)
if_and_true true x y = refl
if_and_true false x y = refl

behind : (o this : ℕ) (os : List ℕ) → mem this os ≡ true → mem this (o ∷ os) ≡ true
unfolding mem
behind o this os at = ground arith

at_front : (o : ℕ) (os : List ℕ) → mem o (o ∷ os) ≡ true
unfolding mem
at_front o os = rw ((==_iff o o).1 refl) refl

module _ (arena_w arena_h : ℕ) where
  Ready-Moves :
      (o : ℕ) (os : List ℕ) (s s' : Shots)
      → Moves arena_w arena_h o s s'
      → mem o os ≡ false
      → Ready s os
      → Ready s' os
  unfolding Ready mem
  Ready-Moves o [] s s' m new r = tt
  Ready-Moves o (p ∷ os) s s' m new (reg, once, r) =
      let other : (o == p) ≡ false = ground arith in
      let kept : registered shot_kind s'.heap s'.space p ≡ registered shot_kind s.heap s.space p =
        m.remains p ∙ (rw other refl) in
      (kept ∙ reg, once, Ready-Moves o os s s' m (ground arith) r)

  id-Moves :
      (o : ℕ) (s s' : Shots)
      → Moves arena_w arena_h o s s'
      → (this : ℕ) → (s'.heap this).id ≡ (s.heap this).id
  id-Moves o s s' m this =
      ap (λ (t : Shot). t.id) (m.placed this) ∙ (elim (Bool-cases (this == o)) [
        | inl same ↦ rw same (ap (λ t. (s.heap t).id) (sym ((==_iff this o).0 same)))
        | inr other ↦ rw other refl
      ])

  -- The count of an id that the moved shot does not have.
  count-Moves :
      (o : ℕ) (s s' : Shots) (j : ℤ)
      → Moves arena_w arena_h o s s'
      → ((s.heap o).id ==ℤ j) ≡ false
      → count_of j s'.ids.list_id ≡ count_of j s.ids.list_id
  count-Moves o s s' j m other =
      m.returned j ∙ (rw other (if_and_false (has_left arena_w arena_h (flown (s.heap o))) _ _))

  -- What the flight of all shots leaves.
  pub record Flown (s s' : Shots) (os : List ℕ) : Type 0 where
    pub flies : Flies s'
    pub placed :
        (this : ℕ) → s'.heap this ≡ (if mem this os then flown (s.heap this) else s.heap this)
    pub remains :
        (this : ℕ)
        → registered shot_kind s'.heap s'.space this ≡ (
            if mem this os
            then not (has_left arena_w arena_h (flown (s.heap this)))
            else registered shot_kind s.heap s.space this)
    pub returned :
        (this : ℕ)
        → mem this os ≡ true
        → count_of (s.heap this).id s'.ids.list_id ≡ (
            if has_left arena_w arena_h (flown (s.heap this))
            then one_less (count_of (s.heap this).id s.ids.list_id)
            else count_of (s.heap this).id s.ids.list_id)
    pub kept :
        (j : ℤ)
        → ((this : ℕ) → mem this os ≡ true → ((s.heap this).id ==ℤ j) ≡ false)
        → count_of j s'.ids.list_id ≡ count_of j s.ids.list_id

  -- A shot that left has given a count of its id back, one that stays has not.
  unfoldable pub Returned : Shots → Shots → ℕ → Type 0
  Returned s s' this = count_of (s.heap this).id s'.ids.list_id ≡ (
      if has_left arena_w arena_h (flown (s.heap this))
      then one_less (count_of (s.heap this).id s.ids.list_id)
      else count_of (s.heap this).id s.ids.list_id)

  -- The shot that moves first: the others leave the count of its id.
  first-Returned :
      (s s1 s2 : Shots) (o : ℕ) (os : List ℕ)
      → Flies s
      → registered shot_kind s.heap s.space o ≡ true
      → mem o os ≡ false
      → Ready s os
      → Moves arena_w arena_h o s s1
      → ((j : ℤ)
          → ((this : ℕ) → mem this os ≡ true → ((s1.heap this).id ==ℤ j) ≡ false)
          → count_of j s2.ids.list_id ≡ count_of j s1.ids.list_id)
      → Returned s s2 o
  unfolding Returned
  first-Returned s s1 s2 o os f reg once r m kept =
      let j = (s.heap o).id in
      let self : (j ==ℤ j) ≡ true = (==ℤ_iff j j).1 refl in
      let away : (this : ℕ) → mem this os ≡ true → ((s1.heap this).id ==ℤ j) ≡ false = λ this at.
        let other : (this == o) ≡ false = elim (Bool-cases (this == o)) [
          | inr differs ↦ differs
          | inl same ↦ cc (sym once ∙ ap (λ t. mem t os) (sym ((==_iff this o).0 same)) ∙ at)
        ] in
        ap (λ (i : ℤ). i ==ℤ j) (id-Moves o s s1 m this)
        ∙ ids_differ s f this o (Ready-mem os s this r at) reg other in
      kept j away
      ∙ m.returned j
      ∙ (rw self (if_and_true (has_left arena_w arena_h (flown (s.heap o))) _ _))

  -- One shot, and then the others.
  module _ (s s1 s2 : Shots) (o : ℕ) (os : List ℕ) (f : Flies s)
      (reg : registered shot_kind s.heap s.space o ≡ true) (once : mem o os ≡ false)
      (r : Ready s os) (m : Moves arena_w arena_h o s s1) (fl : Flown s1 s2 os) where
    untouched : (this : ℕ) → (o == this) ≡ false → s1.heap this ≡ s.heap this
    untouched this other =
        let other' : (this == o) ≡ false = ground arith in m.placed this ∙ (rw other' refl)

    placed_on :
        (this : ℕ) → s2.heap this ≡ (if mem this (o ∷ os) then flown (s.heap this) else s.heap this)
    unfolding mem
    placed_on this = fl.placed this ∙ (elim (Bool-cases (o == this)) [
      | inl same ↦
          let e : o ≡ this = (==_iff o this).0 same in
          let gone : mem this os ≡ false = subst (λ t. mem t os ≡ false) e once in
          let same' : (this == o) ≡ true = ground arith in
          rw same (rw gone (m.placed this ∙ (rw same' (ap (λ t. flown (s.heap t)) e))))
      | inr other ↦
          rw other (ap (λ (t : Shot). if mem this os then flown t else t) (untouched this other))
    ])

    remains_on :
        (this : ℕ)
        → registered shot_kind s2.heap s2.space this ≡ (
            if mem this (o ∷ os)
            then not (has_left arena_w arena_h (flown (s.heap this)))
            else registered shot_kind s.heap s.space this)
    unfolding mem
    remains_on this = fl.remains this ∙ (elim (Bool-cases (o == this)) [
      | inl same ↦
          let e : o ≡ this = (==_iff o this).0 same in
          let gone : mem this os ≡ false = subst (λ t. mem t os ≡ false) e once in
          rw same (
            rw gone (
              m.remains this
              ∙ (rw same (ap (λ t. not (has_left arena_w arena_h (flown (s.heap t)))) e))))
      | inr other ↦
          let still : registered shot_kind s1.heap s1.space this
              ≡ registered shot_kind s.heap s.space this =
            m.remains this ∙ (rw other refl) in
          rw other (
            ap₂
              (λ (t : Shot) (b : Bool).
                if mem this os then not (has_left arena_w arena_h (flown t)) else b)
              (untouched this other) still)
    ])

    back_on : (this : ℕ) → mem this (o ∷ os) ≡ true → Returned s s2 this
    unfolding mem Returned
    back_on this at = elim (Bool-cases (o == this)) [
      | inl same ↦
          subst (λ t. Returned s s2 t) ((==_iff o this).0 same)
            (first-Returned s s1 s2 o os f reg once r m fl.kept)
      | inr other ↦
          let kept : s1.heap this ≡ s.heap this = untouched this other in
          let there : mem this os ≡ true = rw other at at in
          let same_count : count_of (s.heap this).id s1.ids.list_id
              ≡ count_of (s.heap this).id s.ids.list_id =
            count-Moves o s s1 (s.heap this).id m
              (ids_differ s f o this reg (Ready-mem os s this r there) other) in
          ap (λ (t : Shot). count_of t.id s2.ids.list_id) (sym kept)
          ∙ fl.returned this there
          ∙ ap₂
              (λ (t : Shot) (c : Option ℤ).
                if has_left arena_w arena_h (flown t) then one_less c else c)
              kept (ap (λ (t : Shot). count_of t.id s1.ids.list_id) kept ∙ same_count)
    ]

    kept_on :
        (j : ℤ)
        → ((this : ℕ) → mem this (o ∷ os) ≡ true → ((s.heap this).id ==ℤ j) ≡ false)
        → count_of j s2.ids.list_id ≡ count_of j s.ids.list_id
    kept_on j away =
        fl.kept j (λ this at.
          ap (λ (i : ℤ). i ==ℤ j) (id-Moves o s s1 m this) ∙ away this (behind o this os at))
        ∙ count-Moves o s s1 j m (away o (at_front o os))

  pub act-Flown :
      (os : List ℕ) (s : Shots)
      → Flies s
      → Ready s os
      → (s' : Shots) × (act (action_move_shot arena_w arena_h) os s ≡ ok s') × Flown s s' os
  unfolding act Ready mem Returned
  act-Flown [] s f r = (
    s,
    refl,
    record {
      flies = f;
      placed = λ this. refl;
      remains = λ this. refl;
      returned = λ this at. absurd (cc);
      kept = λ j away. refl;
    },
  )
  act-Flown (o ∷ os) s f (reg, once, r) =
      let (s1, run, m) = action_move_shot-Moves arena_w arena_h o s f reg in
      let (s2, rest, fl) = act-Flown os s1 m.flies (Ready-Moves o os s s1 m once r) in
      (
        s2,
        rw run rest,
        record {
          flies = fl.flies;
          placed = placed_on s s1 s2 o os f reg once r m fl;
          remains = remains_on s s1 s2 o os f reg once r m fl;
          returned = back_on s s1 s2 o os f reg once r m fl;
          kept = kept_on s s1 s2 o os f reg once r m fl;
        },
      )
