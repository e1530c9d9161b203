-- ===== src/Arena/Step.antt =====
-- src/base/tux.c: the step of a tux in the arena, as moveTux makes it before it calls
-- item_tux_give_list_item, and the picture that follows. `blocked` is module_is_conflict.
use tuxanci_ng.Prelude.{
  ℕ, Bool, true, false, not, ◌&&◌, ◌||◌, Result, ok, err, assertion, ◌>>=◌, if◌then◌else◌, ◌==◌,
}
use tuxanci_ng.Prelude.Int.{ℤ, pos, negsuc, ◌+ℤ◌, ◌-ℤ◌, ◌*ℤ◌, ◌==ℤ◌, leb_ℤ}
use tuxanci_ng.Space.{space_move_object, space_is_conflict_with_object_but}
use tuxanci_ng.Tux.{Tux, tux_kind, tux_get_status, tux_set_proportion}
use tuxanci_ng.Arena.{Arena}

abbrev pub tux_up : ℤ
tux_up = pos 8

abbrev pub tux_left : ℤ
tux_left = pos 4

abbrev pub tux_right : ℤ
tux_right = pos 6

abbrev pub tux_down : ℤ
tux_down = pos 2

abbrev pub bonus_speed : ℤ
bonus_speed = pos 10

abbrev pub bonus_ghost : ℤ
bonus_ghost = pos 13

abbrev pub tux_step : ℤ
tux_step = pos 7

unfoldable pub tux_get_course : ℤ → Result (ℤ × ℤ)
tux_get_course n =
    if n ==ℤ tux_up
    then ok (pos 0, negsuc 0)
    else if n ==ℤ tux_left
    then ok (negsuc 0, pos 0)
    else if n ==ℤ tux_right
    then ok (pos 1, pos 0)
    else if n ==ℤ tux_down
    then ok (pos 0, pos 1)
    else err assertion

-- The second return of moveTux: the tux stands at the edge that it faces.
abbrev pub at_edge : Arena → Tux → ℤ → Bool
at_edge arena t n =
    ((n ==ℤ tux_left) && leb_ℤ (t.x -ℤ tux_step) (pos 0))
    || (((n ==ℤ tux_right) && leb_ℤ (pos arena.w) (t.x +ℤ tux_step))
        || (((n ==ℤ tux_up) && leb_ℤ (t.y -ℤ tux_step) (pos 0))
            || ((n ==ℤ tux_down) && leb_ℤ (pos arena.h) (t.y +ℤ tux_step))))

-- One coordinate of the new place.
abbrev pub ahead : Tux → ℤ → ℤ → ℤ
ahead t zal p =
    let once = zal +ℤ p *ℤ tux_step in
    if t.bonus ==ℤ bonus_speed then once +ℤ p *ℤ tux_step else once

abbrev pub set_tux : (ℕ → Tux) → ℕ → Tux → ℕ → Tux
set_tux tuxes tux t this = if this == tux then t else tuxes this

-- The arena afterwards, and whether the tux made a step.
unfoldable pub move_tux : (ℤ → ℤ → ℤ → ℤ → Bool) → Arena → ℕ → ℤ → Result (Arena × Bool)
move_tux blocked arena tux n =
    let t = arena.tuxes tux in
    let zal = tux_get_status t in
    let same_place = set_tux arena.tuxes tux (tux_set_proportion t zal.x zal.y) in
    if not (t.position ==ℤ n)
    then ok (record arena { tuxes = set_tux arena.tuxes tux (record t { position = n }) }, false)
    else if at_edge arena t n
    then ok (arena, false)
    else (tux_get_course t.position >>= λ (px, py).
        let x = ahead t zal.x px in
        let y = ahead t zal.y py in
        if not (t.bonus ==ℤ bonus_ghost)
          && (space_is_conflict_with_object_but tux_kind arena.tuxes arena.space_tux x y zal.w zal.h
                tux
              || blocked x y zal.w zal.h)
        then ok (record arena { tuxes = same_place }, false)
        else (space_move_object tux_kind same_place tux x y arena.space_tux
            >>= λ (tuxes, space_tux).
                ok (record arena { tuxes = tuxes; space_tux = space_tux }, true)))

-- What moveTux does last, after a step.
unfoldable pub next_frame : Tux → Tux
next_frame t = record t { frame = if t.frame +ℤ pos 1 ==ℤ pos 10 then pos 0 else t.frame +ℤ pos 1 }
