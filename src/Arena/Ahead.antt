-- ===== src/Arena/Ahead.antt =====
-- src/base/tux.c: the place ahead of a tux, described by coordinates: what moveTux asks of the edge of
-- the arena and where it goes.
use tuxanci_ng.Prelude.{
  ◌≡◌, refl, ap, ◌∙◌, inl, inr, Bool, true, not, ◌&&◌, ok, arith, if◌then◌else◌, Bool-cases,
}
use tuxanci_ng.Prelude.Int.{ℤ, pos, negsuc, ◌+ℤ◌, ◌-ℤ◌, ◌*ℤ◌, ◌==ℤ◌, ltb_ℤ}
use tuxanci_ng.Tux.{Tux}
use tuxanci_ng.Arena.{Arena}
use tuxanci_ng.Arena.Step.{tux_get_course, at_edge, ahead}

-- A direction, and the unit vector on the screen that it stands for: y grows downwards.
pub data Heading : ℤ → ℤ → ℤ → Type 0 where
  to_up : Heading (pos 8) (pos 0) (negsuc 0)
  to_left : Heading (pos 4) (negsuc 0) (pos 0)
  to_right : Heading (pos 6) (pos 1) (pos 0)
  to_down : Heading (pos 2) (pos 0) (pos 1)

-- A point that lies in the arena and not on its border.
unfoldable pub is_inside : Arena → ℤ → ℤ → Bool
is_inside arena x y =
    ltb_ℤ (pos 0) x && (ltb_ℤ x (pos arena.w) && (ltb_ℤ (pos 0) y && ltb_ℤ y (pos arena.h)))

-- How far a step goes: 7, and with the bonus of speed 14.
abbrev pub stride : Tux → ℤ
stride t = if t.bonus ==ℤ pos 10 then pos 14 else pos 7

-- One coordinate after a step from z.
abbrev pub beyond : Tux → ℤ → ℤ → ℤ
beyond t z p = z +ℤ p *ℤ stride t

pub Heading-course : {n px py : ℤ} → Heading n px py → tux_get_course n ≡ ok (px, py)
unfolding tux_get_course
Heading-course to_up = refl
Heading-course to_left = refl
Heading-course to_right = refl
Heading-course to_down = refl

-- The test at the edge asks whether the point 7 ahead of the middle lies in the arena.
pub at_edge-is_inside :
    {n px py : ℤ} (arena : Arena) (t : Tux)
    → Heading n px py
    → is_inside arena t.x t.y ≡ true
    → at_edge arena t n ≡ not (is_inside arena (t.x +ℤ px *ℤ pos 7) (t.y +ℤ py *ℤ pos 7))
unfolding is_inside ◌*ℤ◌ ◌+ℤ◌ ◌-ℤ◌
at_edge-is_inside arena t to_up inside = ground arith
at_edge-is_inside arena t to_left inside = ground arith
at_edge-is_inside arena t to_right inside = ground arith
at_edge-is_inside arena t to_down inside = ground arith

shift : (z a : ℤ) → z -ℤ pos 15 +ℤ a ≡ z +ℤ a -ℤ pos 15
unfolding ◌+ℤ◌ ◌-ℤ◌
shift z a = ground arith

+ℤ_assoc : (z a b : ℤ) → z +ℤ a +ℤ b ≡ z +ℤ (a +ℤ b)
unfolding ◌+ℤ◌
+ℤ_assoc z a b = ground arith

-- The upper left corner of the tux after a step in one coordinate, which goes two times 7 with the bonus.
corner :
    (p z : ℤ) (t : Tux)
    → p *ℤ pos 7 +ℤ p *ℤ pos 7 ≡ p *ℤ pos 14
    → ahead t (z -ℤ pos 15) p ≡ beyond t z p -ℤ pos 15
corner p z t twice = elim (Bool-cases (t.bonus ==ℤ pos 10)) [
  | inr slow ↦ rw slow (shift z (p *ℤ pos 7))
  | inl fast ↦ rw fast (
      ap (λ a. a +ℤ p *ℤ pos 7) (shift z (p *ℤ pos 7))
      ∙ shift (z +ℤ p *ℤ pos 7) (p *ℤ pos 7)
      ∙ ap (λ a. a -ℤ pos 15) (+ℤ_assoc z (p *ℤ pos 7) (p *ℤ pos 7) ∙ ap (λ a. z +ℤ a) twice))
]

pub Heading-corner :
    {n px py : ℤ} (t : Tux)
    → Heading n px py
    → (ahead t (t.x -ℤ pos 15) px ≡ beyond t t.x px -ℤ pos 15)
      × (ahead t (t.y -ℤ pos 15) py ≡ beyond t t.y py -ℤ pos 15)
unfolding ◌*ℤ◌ ◌+ℤ◌
Heading-corner t to_up = (corner (pos 0) t.x t refl, corner (negsuc 0) t.y t refl)
Heading-corner t to_left = (corner (negsuc 0) t.x t refl, corner (pos 0) t.y t refl)
Heading-corner t to_right = (corner (pos 1) t.x t refl, corner (pos 0) t.y t refl)
Heading-corner t to_down = (corner (pos 0) t.x t refl, corner (pos 1) t.y t refl)
