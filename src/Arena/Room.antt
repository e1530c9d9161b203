-- ===== src/Arena/Room.antt =====
-- src/base/tux.c: what moveTux asks of the place where a tux would go, described by the tuxes that stand in
-- the arena.
use tuxanci_ng.Prelude.{
  ℕ, ◌≡◌, ◌≢◌, refl, sym, ◌∙◌, ◌⊎◌, inl, inr, Bool, true, false, not, ◌&&◌, ◌||◌, arith, ◌==◌,
  Bool-cases,
}
use tuxanci_ng.Prelude.Int.{ℤ, pos, ◌+ℤ◌, ◌==ℤ◌, ==ℤ_iff, leb_ℤ, ◌≤ℤ◌}
use tuxanci_ng.Space.{space_is_conflict_with_object_but, conflict}
use tuxanci_ng.Space.Invariant.{registered}
use tuxanci_ng.Space.But.{conflict_but_sound, conflict_but_complete}
use tuxanci_ng.Tux.{tux_kind, tux_get_status}
use tuxanci_ng.Arena.{Arena}
use tuxanci_ng.Arena.Laws.{IsSpaceOf}
use tuxanci_ng.Arena.Step.{bonus_ghost}

-- A rectangle that lies in the arena.
abbrev pub fits : Arena → ℤ → ℤ → ℤ → ℤ → Bool
fits arena x y w h =
    leb_ℤ (pos 0) x
    && (leb_ℤ (x +ℤ w) (pos arena.w) && (leb_ℤ (pos 0) y && leb_ℤ (y +ℤ h) (pos arena.h)))

-- Another tux of the arena that overlaps the place of a tux with its upper left corner at x, y.
abbrev pub stands_there : Arena → ℕ → ℤ → ℤ → ℕ → Bool
stands_there arena tux x y this =
    let s = tux_get_status (arena.tuxes this) in
    not (this == tux)
    && (registered tux_kind arena.tuxes arena.space_tux this
        && conflict x y (pos 30) (pos 30) s.x s.y s.w s.h)

-- Nothing stops a tux at the place with the upper left corner x, y: it is a ghost, or no module blocks the
-- place and, where the place lies in the arena, no other tux overlaps it.
pub IsOpen : (ℤ → ℤ → ℤ → ℤ → Bool) → Arena → ℕ → ℤ → ℤ → Type 0
IsOpen blocked arena tux x y =
    ((arena.tuxes tux).bonus ≡ bonus_ghost)
    ⊎ ((blocked x y (pos 30) (pos 30) ≡ false)
        × ((this : ℕ)
            → fits arena x y (pos 30) (pos 30) && stands_there arena tux x y this ≡ false))

-- Something stops it: it is no ghost, and a module blocks the place or another tux overlaps it.
pub IsTaken : (ℤ → ℤ → ℤ → ℤ → Bool) → Arena → ℕ → ℤ → ℤ → Type 0
IsTaken blocked arena tux x y =
    ((arena.tuxes tux).bonus ≢ bonus_ghost)
    × ((blocked x y (pos 30) (pos 30) ≡ true)
        ⊎ ((this : ℕ) × (stands_there arena tux x y this ≡ true)))

taken_if : (g c b : Bool) → not g && (c || b) ≡ true → (g ≡ false) × ((c ≡ true) ⊎ (b ≡ true))
taken_if true c b e = absurd (cc)
taken_if false true b e = (refl, inl refl)
taken_if false false b e = (refl, inr e)

open_if : (g c b : Bool) → not g && (c || b) ≡ false → (g ≡ true) ⊎ ((c ≡ false) × (b ≡ false))
open_if true c b e = inl refl
open_if false true b e = absurd (cc)
open_if false false b e = inr (refl, e)

both : (a b : Bool) → a && b ≡ true → (a ≡ true) × (b ≡ true)
both true b e = (refl, e)
both false b e = absurd (cc)

within : (a b : ℤ) → leb_ℤ a b ≡ true → a ≤ℤ b
within a b e = ground arith

-- The condition of moveTux says whether the place is taken.
module _ (blocked : ℤ → ℤ → ℤ → ℤ → Bool) (arena : Arena) (tux : ℕ)
    (g : IsSpaceOf tux_kind arena.w arena.h arena.tuxes arena.space_tux) (x y : ℤ) where
  abbrev pub asked : Bool
  asked =
      not ((arena.tuxes tux).bonus ==ℤ bonus_ghost)
      && (space_is_conflict_with_object_but tux_kind arena.tuxes arena.space_tux x y (pos 30)
            (pos 30) tux
          || blocked x y (pos 30) (pos 30))

  pub asked-IsTaken : asked ≡ true → IsTaken blocked arena tux x y
  unfolding IsTaken tux_kind
  asked-IsTaken e =
      let (no_ghost, why) =
        taken_if ((arena.tuxes tux).bonus ==ℤ bonus_ghost)
          (space_is_conflict_with_object_but tux_kind arena.tuxes arena.space_tux x y (pos 30)
            (pos 30) tux)
          (blocked x y (pos 30) (pos 30)) e in
      (
        λ ghost.
            let is_ghost : ((arena.tuxes tux).bonus ==ℤ bonus_ghost) ≡ true =
              (==ℤ_iff _ _).1 ghost in
            cc (sym no_ghost ∙ is_ghost),
        elim why [
          | inr stop ↦ inl stop
          | inl hit ↦
              let (this, other, there, over) =
                conflict_but_sound tux_kind arena.tuxes arena.space_tux x y (pos 30) (pos 30) tux
                  g.consistent hit in
              inr (this, rw other (rw there over))
        ],
      )

  unnoticed :
      space_is_conflict_with_object_but tux_kind arena.tuxes arena.space_tux x y
          (pos 30)
          (pos 30)
          tux
        ≡ false
      → (this : ℕ) → fits arena x y (pos 30) (pos 30) && stands_there arena tux x y this ≡ false
  unfolding tux_kind
  unnoticed quiet this =
      elim (Bool-cases (fits arena x y (pos 30) (pos 30) && stands_there arena tux x y this)) [
        | inr away ↦ away
        | inl e ↦
            let (room, stands) = both (fits arena x y (pos 30) (pos 30)) _ e in
            let (x0, room1) = both (leb_ℤ (pos 0) x) _ room in
            let (xa, room2) = both (leb_ℤ (x +ℤ pos 30) (pos arena.w)) _ room1 in
            let (y0, yb) = both (leb_ℤ (pos 0) y) _ room2 in
            let (other, stands1) = both (not (this == tux)) _ stands in
            let (there, over) =
              both (registered tux_kind arena.tuxes arena.space_tux this) _ stands1 in
            let other' : (this == tux) ≡ false = ground arith in
            let noticed =
              conflict_but_complete tux_kind arena.tuxes arena.space_tux arena.w arena.h x y
                (pos 30) (pos 30) tux this g.consistent g.grid_of (within (pos 0) x x0)
                (within (pos 0) y y0) (omega arith) (omega arith)
                (within (x +ℤ pos 30) (pos arena.w) xa) (within (y +ℤ pos 30) (pos arena.h) yb)
                (g.wide this) (g.high this) other' there over in
            cc (sym quiet ∙ noticed)
      ]

  pub asked-IsOpen : asked ≡ false → IsOpen blocked arena tux x y
  unfolding IsOpen
  asked-IsOpen e = elim (open_if _ _ (blocked x y (pos 30) (pos 30)) e) [
    | inl ghost ↦ inl ((==ℤ_iff _ _).0 ghost)
    | inr (quiet, open_place) ↦ inr (open_place, unnoticed quiet)
  ]
