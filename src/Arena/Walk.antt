-- ===== src/Arena/Walk.antt =====
-- src/base/tux.c: where a tux stands after moveTux.
use tuxanci_ng.Prelude.{
  ℕ, ◌≡◌, ◌≢◌, refl, sym, ap, subst, ◌∙◌, ◌⊎◌, inl, inr, Bool, true, false, not, ok, ◌>>=◌, arith,
  if◌then◌else◌, ◌==◌, ==_iff, Bool-cases,
}
use mathlib.Core.Path.{fun_ext}
use tuxanci_ng.Prelude.Int.{ℤ, pos, ◌+ℤ◌, ◌-ℤ◌, ◌*ℤ◌, ◌==ℤ◌, ==ℤ_iff}
use tuxanci_ng.Space.{space_move_object, Space, visited, get_segment}
use tuxanci_ng.Space.Objects.{Status}
use tuxanci_ng.Space.Invariant.{registered, IsConsistent, is_it}
use tuxanci_ng.Index.Table.{lookup}
use tuxanci_ng.Space.Zones.{occ}
use tuxanci_ng.Space.Move.{space_move_object-IsConsistent}
use tuxanci_ng.Space.Query.{IsGridOf}
use tuxanci_ng.Tux.{Tux, tux_kind, tux_get_status, tux_set_proportion, tux_set_status}
use tuxanci_ng.Arena.{Arena}
use tuxanci_ng.Arena.Laws.{IsSpaceOf}
use tuxanci_ng.Arena.Teleport.{grid-space_move_object, tux_size}
use tuxanci_ng.Shots.Index.{heap-space_move_object}
use tuxanci_ng.Arena.Ahead.{
  Heading, is_inside, beyond, Heading-course, at_edge-is_inside, Heading-corner,
}
use tuxanci_ng.Arena.Room.{IsOpen, IsTaken, asked, asked-IsOpen, asked-IsTaken}
use tuxanci_ng.Arena.Step.{tux_get_course, at_edge, ahead, set_tux, move_tux}

there_again : (x : ℤ) → x -ℤ pos 15 +ℤ pos 15 ≡ x
unfolding ◌+ℤ◌ ◌-ℤ◌
there_again x = ground arith

restored : (t : Tux) → tux_set_proportion t (tux_get_status t).x (tux_get_status t).y ≡ t
unfolding tux_set_proportion tux_get_status
restored t = rw (there_again t.x, there_again t.y) refl

set_tux_same : (tuxes : ℕ → Tux) (tux : ℕ) (t : Tux) → t ≡ tuxes tux → set_tux tuxes tux t ≡ tuxes
set_tux_same tuxes tux t e = fun_ext (λ this. elim (Bool-cases (this == tux)) [
  | inl it ↦ rw it (e ∙ ap tuxes (sym ((==_iff this tux).0 it)))
  | inr other ↦ rw other refl
])

set_tux_status :
    (tuxes : ℕ → Tux) (tux : ℕ) (t : Tux)
    → tux_get_status t ≡ tux_get_status (tuxes tux)
    → (this : ℕ) → tux_get_status (set_tux tuxes tux t this) ≡ tux_get_status (tuxes this)
set_tux_status tuxes tux t e this = elim (Bool-cases (this == tux)) [
  | inl it ↦ rw it (e ∙ ap (λ k. tux_get_status (tuxes k)) (sym ((==_iff this tux).0 it)))
  | inr other ↦ rw other refl
]

-- A space sees of its objects only what getStatus says.
module _ (heap heap' : ℕ → Tux) (p : Space)
    (same : (this : ℕ) → tux_get_status (heap' this) ≡ tux_get_status (heap this)) where
  registered_same : (this : ℕ) → registered tux_kind heap' p this ≡ registered tux_kind heap p this
  unfolding registered tux_kind
  registered_same this = ap (λ (s : Status). is_it (lookup s.id p.list_index) this) (same this)

  same_place-IsConsistent : IsConsistent tux_kind heap p → IsConsistent tux_kind heap' p
  unfolding tux_kind
  same_place-IsConsistent c = record {
    sorted = c.sorted;
    keyed = λ k this e. ap (λ s. s.id) (same this) ∙ c.keyed k this e;
    placed = λ this j i.
        c.placed this j i
        ∙ sym (
            rw (registered_same this) (
              ap
                (λ (s : Status).
                  if registered tux_kind heap p this
                  then occ j i (visited p.grid (get_segment p.grid s.x s.y s.w s.h))
                  else 0)
                (same this)));
  }

same_place-IsSpaceOf :
    (a b : ℕ) (tuxes tuxes' : ℕ → Tux) (p : Space)
    → ((this : ℕ) → tux_get_status (tuxes' this) ≡ tux_get_status (tuxes this))
    → IsSpaceOf tux_kind a b tuxes p
    → IsSpaceOf tux_kind a b tuxes' p
same_place-IsSpaceOf a b tuxes tuxes' p same g = record {
  consistent = same_place-IsConsistent tuxes tuxes' p same g.consistent;
  grid_of = g.grid_of;
  wide = λ this. (tux_size (tuxes' this)).0;
  high = λ this. (tux_size (tuxes' this)).1;
}

-- What moveTux does with the direction n, whose unit vector is px, py. The place ahead is one stride on.
module _ (blocked : ℤ → ℤ → ℤ → ℤ → Bool) (arena : Arena) (tux : ℕ) (n px py : ℤ) where
  -- Whether the tux steps: it looks that way already, the point 7 ahead of its middle lies in the arena,
  -- and nothing stops it at the place ahead.
  pub Outcome : Bool → Type 0
  Outcome stepped =
      let t = arena.tuxes tux in
      let near = is_inside arena (t.x +ℤ px *ℤ pos 7) (t.y +ℤ py *ℤ pos 7) in
      ((stepped ≡ true)
        × (t.position ≡ n)
        × (near ≡ true)
        × IsOpen blocked arena tux (beyond t t.x px -ℤ pos 15) (beyond t t.y py -ℤ pos 15))
      ⊎ ((stepped ≡ false)
          × ((t.position ≢ n)
              ⊎ ((near ≡ false)
                  ⊎ IsTaken blocked arena tux (beyond t t.x px -ℤ pos 15)
                      (beyond t t.y py -ℤ pos 15))))

  pub record Moves : Type 0 where
    pub after : Arena
    pub stepped : Bool
    pub runs : move_tux blocked arena tux n ≡ ok (after, stepped)
    pub spaces : IsSpaceOf tux_kind arena.w arena.h after.tuxes after.space_tux
    pub members :
        (this : ℕ)
        → registered tux_kind after.tuxes after.space_tux this
          ≡ registered tux_kind arena.tuxes arena.space_tux this
    pub tuxes :
        (this : ℕ)
        → after.tuxes this ≡ (
            if this == tux
            then (if stepped
                then record (arena.tuxes tux) {
                  x = beyond (arena.tuxes tux) (arena.tuxes tux).x px;
                  y = beyond (arena.tuxes tux) (arena.tuxes tux).y py;
                }
                else record (arena.tuxes tux) { position = n })
            else arena.tuxes this)
    pub outcome : Outcome stepped

module _ (blocked : ℤ → ℤ → ℤ → ℤ → Bool) (arena : Arena) (tux : ℕ) (n px py : ℤ)
    (g : IsSpaceOf tux_kind arena.w arena.h arena.tuxes arena.space_tux) where
  -- A return of moveTux that turns the tux or leaves it as it is.
  still-Moves :
      (t : Tux)
      → t ≡ record (arena.tuxes tux) { position = n }
      → move_tux blocked arena tux n
        ≡ ok (record arena { tuxes = set_tux arena.tuxes tux t }, false)
      → Outcome blocked arena tux n px py false
      → Moves blocked arena tux n px py
  unfolding tux_get_status
  still-Moves t e run why =
      let tuxes = set_tux arena.tuxes tux t in
      let same = set_tux_status arena.tuxes tux t (ap tux_get_status e) in
      record {
        after = record arena { tuxes = tuxes };
        stepped = false;
        runs = run;
        spaces = same_place-IsSpaceOf arena.w arena.h arena.tuxes tuxes arena.space_tux same g;
        members = registered_same arena.tuxes tuxes arena.space_tux same;
        tuxes = λ this. ap (λ r. if this == tux then r else arena.tuxes this) e;
        outcome = why;
      }

  -- The tux once space_move_object has put it ahead.
  put_ahead :
      Heading n px py
      → (let t = arena.tuxes tux in
          let s = tux_get_status t in
          tux_set_proportion t (ahead t s.x px) (ahead t s.y py)
          ≡ record t { x = beyond t t.x px; y = beyond t t.y py })
  unfolding tux_set_proportion tux_get_status
  put_ahead d =
      let t = arena.tuxes tux in
      let (ex, ey) = Heading-corner t d in
      rw (ex, ey) (rw (there_again (beyond t t.x px), there_again (beyond t t.y py)) refl)

  step-Moves :
      Heading n px py
      → registered tux_kind arena.tuxes arena.space_tux tux ≡ true
      → (let t = arena.tuxes tux in
          let s = tux_get_status t in
          move_tux blocked arena tux n ≡ (
            space_move_object tux_kind arena.tuxes tux
              (ahead t s.x px)
              (ahead t s.y py)
              arena.space_tux
            >>= λ (tuxes, space_tux).
                ok (record arena { tuxes = tuxes; space_tux = space_tux }, true)))
      → Outcome blocked arena tux n px py true
      → Moves blocked arena tux n px py
  unfolding tux_kind tux_set_status
  step-Moves d there runs why =
      let t = arena.tuxes tux in
      let s = tux_get_status t in
      let x = ahead t s.x px in
      let y = ahead t s.y py in
      let (tuxes, space, run, placed, c, reg) =
        space_move_object-IsConsistent tux_kind arena.tuxes arena.space_tux tux x y g.consistent
          there in
      let grid =
        grid-space_move_object tux_kind arena.tuxes tuxes arena.space_tux space tux x y run in
      let heap =
        heap-space_move_object tux_kind arena.tuxes tuxes arena.space_tux space tux x y run in
      record {
        after = record arena { tuxes = tuxes; space_tux = space };
        stepped = true;
        runs = runs ∙ (rw run refl);
        spaces = record {
          consistent = c;
          grid_of = subst (IsGridOf arena.w arena.h) (sym grid) g.grid_of;
          wide = λ this. (tux_size (tuxes this)).0;
          high = λ this. (tux_size (tuxes this)).1;
        };
        members = reg;
        tuxes = λ this.
            ap (λ (h : ℕ → Tux). h this) heap
            ∙ ap (λ r. if this == tux then r else arena.tuxes this) (put_ahead d);
        outcome = why;
      }

  -- A tux that looks that way and is not at the edge there.
  near-Moves :
      Heading n px py
      → registered tux_kind arena.tuxes arena.space_tux tux ≡ true
      → (arena.tuxes tux).position ≡ n
      → (let t = arena.tuxes tux in
          is_inside arena (t.x +ℤ px *ℤ pos 7) (t.y +ℤ py *ℤ pos 7) ≡ true)
      → at_edge arena (arena.tuxes tux) n ≡ false
      → Moves blocked arena tux n px py
  unfolding move_tux Outcome tux_get_status
  near-Moves d there looks near inside =
      let t = arena.tuxes tux in
      let s = tux_get_status t in
      let x = ahead t s.x px in
      let y = ahead t s.y py in
      let (ex, ey) = Heading-corner t d in
      let faces : (t.position ==ℤ n) ≡ true = (==ℤ_iff t.position n).1 looks in
      let course : tux_get_course t.position ≡ ok (px, py) =
        ap tux_get_course looks ∙ Heading-course d in
      let still = set_tux_same arena.tuxes tux (tux_set_proportion t s.x s.y) (restored t) in
      elim (Bool-cases (asked blocked arena tux g x y)) [
        | inl taken ↦
            still-Moves (tux_set_proportion t s.x s.y)
              (restored t ∙ ap (λ (k : ℤ). record t { position = k }) looks)
              (rw faces (rw inside (rw course (rw taken refl))))
              (inr (
                refl,
                inr (
                    inr (
                      subst (λ (a : ℤ). IsTaken blocked arena tux a (beyond t t.y py -ℤ pos 15)) ex
                        (subst (λ (b : ℤ). IsTaken blocked arena tux x b) ey
                          (asked-IsTaken blocked arena tux g x y taken)))),
              ))
        | inr free ↦
            step-Moves d there (rw faces (rw inside (rw course (rw free (rw still refl))))) (
              inl (
                refl,
                looks,
                near,
                subst (λ (a : ℤ). IsOpen blocked arena tux a (beyond t t.y py -ℤ pos 15)) ex
                    (subst (λ (b : ℤ). IsOpen blocked arena tux x b) ey
                      (asked-IsOpen blocked arena tux g x y free)),
              ))
      ]

-- moveTux, up to its call of item_tux_give_list_item, of a tux of the arena whose middle lies in it, in
-- one of the four directions, where the space of the tuxes is consistent and fits the arena: it
-- returns, the space stays so with the same tuxes in it, and only this tux changes. It steps where it
-- already looks that way, the point 7 ahead of its middle lies in the arena, and nothing stops it at the
-- place ahead: it is a ghost, or no module blocks that place and, where the place lies in the arena, no
-- other tux overlaps it. The step is 7, and 14 with the bonus of speed, which may take the tux over the
-- edge. Otherwise it only turns that way: then it looked another way, or the point 7 ahead is outside, or
-- it is no ghost and a module blocks the place or another tux overlaps it.
pub move_tux-Moves :
    (blocked : ℤ → ℤ → ℤ → ℤ → Bool) (arena : Arena) (tux : ℕ) (n px py : ℤ)
    → Heading n px py
    → IsSpaceOf tux_kind arena.w arena.h arena.tuxes arena.space_tux
    → registered tux_kind arena.tuxes arena.space_tux tux ≡ true
    → is_inside arena (arena.tuxes tux).x (arena.tuxes tux).y ≡ true
    → Moves blocked arena tux n px py
unfolding move_tux Outcome
move_tux-Moves blocked arena tux n px py d g there middle =
    let t = arena.tuxes tux in
    let edge = at_edge-is_inside arena t d middle in
    let same_tuxes = set_tux_same arena.tuxes tux t refl in
    elim (Bool-cases (t.position ==ℤ n)) [
      | inr other ↦
          still-Moves blocked arena tux n px py g (record t { position = n }) refl (rw other refl)
            (inr (refl, inl (λ same. cc (sym other ∙ (==ℤ_iff t.position n).1 same))))
      | inl faces ↦
          let looks : t.position ≡ n = (==ℤ_iff t.position n).0 faces in
          elim (Bool-cases (is_inside arena (t.x +ℤ px *ℤ pos 7) (t.y +ℤ py *ℤ pos 7))) [
            | inl near ↦
                near-Moves blocked arena tux n px py g d there looks near (edge ∙ ap not near)
            | inr far ↦
                let at : at_edge arena t n ≡ true = edge ∙ ap not far in
                still-Moves blocked arena tux n px py g t
                  (ap (λ (k : ℤ). record t { position = k }) looks)
                  (rw faces (rw at (rw same_tuxes refl))) (inr (refl, inr (inl far)))
          ]
    ]
