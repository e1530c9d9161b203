-- ===== src/Tests/Teleports.antt =====
-- An arena of 800 x 600 with one tux, which teleports or makes a step.
use tuxanci_ng.Prelude.{
  ℕ, ◌≡◌, refl, sym, subst, ◌∙◌, [], ◌∷◌, Bool, true, false, none, ok, ok_inj, arith, if◌then◌else◌,
  ◌==◌, ltb, ◌>>=◌,
}
use tuxanci_ng.Prelude.Int.{ℤ, pos, negsuc, ◌+ℤ◌, ◌-ℤ◌, ◌*ℤ◌, ◌/ℤ◌, ◌≤ℤ◌}
use tuxanci_ng.Index.{index_add, add_loop, insert_item, check_list}
use tuxanci_ng.Index.Table.{lookup}
use tuxanci_ng.Space.{
  Space, space_add, space_is_conflict_with_object, any_zone, any_hit, hits,
  space_is_conflict_with_object_but, any_zone_but, any_hit_but, space_move_object, conflict,
  visited, rows, row, range, outside, get_segment, add_zones,
}
use tuxanci_ng.Space.Invariant.{registered, IsConsistent, space_add-IsConsistent}
use tuxanci_ng.Tux.{
  Tux, tux_kind, shot_kind, item_kind, tux_get_status, tux_set_proportion, tux_set_status,
}
use tuxanci_ng.Tux.Guns.{game_alone}
use tuxanci_ng.Arena.{Arena, arena_is_free_space}
use tuxanci_ng.Arena.Laws.{IsSpaceOf, Clear}
use tuxanci_ng.Arena.Free.{tux_teleport}
use tuxanci_ng.Arena.Teleport.{tried, tux_teleport_lem}
use tuxanci_ng.Arena.Step.{move_tux, tux_left, tux_right, bonus_speed, tux_get_course}
use tuxanci_ng.Arena.Ahead.{is_inside, to_right}
use tuxanci_ng.Arena.Walk.{Moves, move_tux-Moves}
use tuxanci_ng.Tests.Arenas.{a_tux, empty, field, tuxes_fit, items_fit, shots_fit, open_field}

-- The space of the tuxes with tux 0, which stands at 100, 100.
abbrev with_tux : Space
with_tux = record empty {
  zone =
      add_zones 0 (visited empty.grid (get_segment empty.grid (pos 85) (pos 85) (pos 30) (pos 30)))
        empty.zone;
  list_index = record { key = pos 3; object = 0 } ∷ [];
}

tux_is_added : space_add tux_kind field.tuxes 0 empty ≡ ok with_tux
unfolding space_add index_add add_loop insert_item check_list tux_kind tux_get_status ◌-ℤ◌
tux_is_added = refl

tux_is_free : lookup (pos 3) empty.list_index ≡ none
unfolding lookup
tux_is_free = refl

with_tux_fits :
    IsSpaceOf tux_kind 800 600 field.tuxes with_tux
    × (registered tux_kind field.tuxes with_tux 0 ≡ true)
unfolding tux_kind tux_get_status
with_tux_fits =
    let (q, run, grid, c, reg) =
      space_add-IsConsistent tux_kind field.tuxes empty 0 tuxes_fit.consistent tux_is_free in
    let same : q ≡ with_tux = ok_inj (sym run ∙ tux_is_added) in
    (
      record {
        consistent = subst (IsConsistent tux_kind field.tuxes) same c;
        grid_of = tuxes_fit.grid_of;
        wide = tuxes_fit.wide;
        high = tuxes_fit.high;
      },
      subst (λ p. registered tux_kind field.tuxes p 0 ≡ true) same (reg 0),
    )

abbrev playing : Arena
playing = record field { space_tux = with_tux }

-- The first place is that of the tux itself, the second is 300, 200.
abbrev numbers : ℕ → ℕ
numbers n = if ltb n 2 then 90 else if n == 2 then 300 else 200

second_is_free :
    (let z = tried playing 30 30 1 numbers in
      arena_is_free_space open_field playing z.0 z.1 (pos 30) (pos 30) ≡ true)
unfolding tried arena_is_free_space space_is_conflict_with_object any_zone any_hit hits conflict
    visited rows row range outside get_segment add_zones tux_kind tux_get_status ◌+ℤ◌ ◌-ℤ◌ ◌/ℤ◌
second_is_free = refl

tux_teleport_lem_example :
    (arena : Arena) × (rest : ℕ → ℕ) × (x y : ℤ) × (tux_teleport 5 game_alone open_field numbers 0
        playing
      ≡ ok (arena, rest))
    × (tux_get_status (arena.tuxes 0) ≡ record (tux_get_status a_tux) { x = x; y = y })
    × (pos 0 ≤ℤ x)
    × (pos 0 ≤ℤ y)
    × (x +ℤ pos 30 ≤ℤ pos 800)
    × (y +ℤ pos 30 ≤ℤ pos 600)
    × Clear tux_kind playing.tuxes with_tux x y (pos 30) (pos 30)
    × Clear shot_kind playing.shots empty x y (pos 30) (pos 30)
    × Clear item_kind playing.items empty x y (pos 30) (pos 30)
    × (open_field x y (pos 30) (pos 30) ≡ false)
    × IsSpaceOf tux_kind 800 600 arena.tuxes arena.space_tux
    × ((this : ℕ)
        → registered tux_kind arena.tuxes arena.space_tux this
          ≡ registered tux_kind playing.tuxes with_tux this)
tux_teleport_lem_example =
    tux_teleport_lem 5 1 game_alone open_field numbers 0 playing refl with_tux_fits.0 shots_fit
      items_fit with_tux_fits.1 (omega arith) (omega arith) (omega arith) second_is_free

in_the_middle : is_inside playing a_tux.x a_tux.y ≡ true
unfolding is_inside
in_the_middle = refl

move_tux-Moves_example : Moves open_field playing 0 (pos 6) (pos 1) (pos 0)
move_tux-Moves_example =
    move_tux-Moves open_field playing 0 (pos 6) (pos 1) (pos 0) to_right with_tux_fits.0
      with_tux_fits.1 in_the_middle

-- The tux looks right; with the key held down it goes 7 to the right.
a_step :
    ◌>>=◌ {S = ℤ × ℤ × Bool}
      (move_tux open_field playing 0 tux_right)
      (λ (arena, stepped). ok ((arena.tuxes 0).x, (arena.tuxes 0).y, stepped))
    ≡ ok (pos 107, pos 100, true)
unfolding move_tux tux_get_course space_is_conflict_with_object_but any_zone_but any_hit_but visited
    rows row range outside get_segment add_zones tux_kind tux_get_status tux_set_proportion
    tux_set_status space_move_object ◌+ℤ◌ ◌-ℤ◌ ◌/ℤ◌ ◌*ℤ◌
a_step = refl

-- Near the left edge, with the bonus of speed.
abbrev hasty : Tux
hasty = record a_tux { x = pos 8; position = tux_left; bonus = bonus_speed }

abbrev near_edge : Arena
near_edge = record field {
  tuxes = λ n. hasty;
  space_tux = record empty {
    zone =
        add_zones 0
          (visited empty.grid (get_segment empty.grid (negsuc 6) (pos 85) (pos 30) (pos 30)))
          empty.zone;
    list_index = record { key = pos 3; object = 0 } ∷ [];
  };
}

-- The two steps of the bonus take it over the edge, which is looked for only one step ahead.
over_the_edge :
    ◌>>=◌ {S = ℤ × Bool}
      (move_tux open_field near_edge 0 tux_left)
      (λ (arena, stepped). ok ((arena.tuxes 0).x, stepped))
    ≡ ok (negsuc 5, true)
unfolding move_tux tux_get_course space_is_conflict_with_object_but any_zone_but any_hit_but visited
    rows row range outside get_segment add_zones tux_kind tux_get_status tux_set_proportion
    tux_set_status space_move_object ◌+ℤ◌ ◌-ℤ◌ ◌/ℤ◌ ◌*ℤ◌
over_the_edge = refl
