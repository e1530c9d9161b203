-- ===== src/Tests/Arenas.antt =====
-- An arena of 800 x 600 with nothing in it.
use tuxanci_ng.Prelude.{◌≡◌, refl, [], Bool, true, false, ok, arith}
use tuxanci_ng.Prelude.Int.{ℤ, pos, negsuc, ◌≤ℤ◌, ◌+ℤ◌, ◌-ℤ◌, ◌/ℤ◌}
use tuxanci_ng.Index.Table.{lookup}
use tuxanci_ng.Space.{
  Space, space_is_conflict_with_object, any_zone, any_hit, visited, rows, row, range, outside,
  get_segment,
}
use tuxanci_ng.Space.Zones.{count}
use tuxanci_ng.Space.Invariant.{is_it, registered}
use tuxanci_ng.Tux.{
  Tux, Shot, Item, tux_kind, shot_kind, item_kind, tux_get_status, shot_get_status, item_get_status,
}
use tuxanci_ng.Arena.{Arena, arena_new, arena_is_free_space, arena_get_center_screen}
use tuxanci_ng.Arena.Laws.{
  IsSpaceOf, Clear, arena_new_lem, arena_is_free_space_lem, arena_get_center_screen_lem,
}

abbrev pub a_tux : Tux
a_tux = record {
  id = pos 3;
  x = pos 100;
  y = pos 100;
  status = 0;
  control = 1;
  position = pos 6;
  score = pos 0;
  gun = 0;
  shot = [];
  bonus = negsuc 0;
  bonus_time = pos 0;
  pickup_time = pos 0;
  is_can_shot = true;
  is_can_switch_gun = true;
  frame = pos 0;
}

abbrev pub a_shot : Shot
a_shot = record {
  id = pos 4;
  x = pos 10;
  y = pos 10;
  w = pos 5;
  h = pos 5;
  px = pos 5;
  py = pos 0;
  position = pos 6;
  gun = 0;
  author_id = pos 3;
  is_can_kill_author = false;
  del = false;
}

abbrev pub an_item : Item
an_item = record {
  id = pos 5;
  type_of = pos 7;
  x = pos 50;
  y = pos 50;
  w = pos 15;
  h = pos 11;
  frame = pos 0;
  count = pos 0;
  author_id = pos 3;
}

abbrev pub empty : Space
empty = record {
  grid = record { w = 11; h = 11; seg_w = 80; seg_h = 60 };
  zone = λ j i. [];
  list_index = [];
}

abbrev pub field : Arena
field = record {
  w = 800;
  h = 600;
  space_tux = empty;
  space_item = empty;
  space_shot = empty;
  tuxes = λ n. a_tux;
  items = λ n. an_item;
  shots = λ n. a_shot;
  count_round = 0;
  max_count_round = 0;
}

arena_new_lem_example :
    (arena : Arena) × (arena_new 800 600 (λ n. a_tux) (λ n. an_item) (λ n. a_shot) ≡ ok arena)
    × (arena.w ≡ 800)
    × (arena.h ≡ 600)
    × IsSpaceOf tux_kind 800 600 (λ n. a_tux) arena.space_tux
    × IsSpaceOf item_kind 800 600 (λ n. an_item) arena.space_item
    × IsSpaceOf shot_kind 800 600 (λ n. a_shot) arena.space_shot
arena_new_lem_example =
    arena_new_lem 800 600 (λ n. a_tux) (λ n. an_item) (λ n. a_shot) (omega arith) (omega arith)
      (λ n. (omega arith, omega arith)) (λ n. (omega arith, omega arith))

pub tuxes_fit : IsSpaceOf tux_kind 800 600 field.tuxes empty
unfolding registered is_it lookup count tux_kind tux_get_status
tuxes_fit = record {
  consistent = record { sorted = tt; keyed = λ k this e. absurd (cc); placed = λ this j i. refl };
  grid_of = record { wide = refl; high = refl; seg_w_pos = omega arith; seg_h_pos = omega arith };
  wide = λ this. omega arith;
  high = λ this. omega arith;
}

pub items_fit : IsSpaceOf item_kind 800 600 field.items empty
unfolding registered is_it lookup count item_kind item_get_status
items_fit = record {
  consistent = record { sorted = tt; keyed = λ k this e. absurd (cc); placed = λ this j i. refl };
  grid_of = record { wide = refl; high = refl; seg_w_pos = omega arith; seg_h_pos = omega arith };
  wide = λ this. omega arith;
  high = λ this. omega arith;
}

pub shots_fit : IsSpaceOf shot_kind 800 600 field.shots empty
unfolding registered is_it lookup count shot_kind shot_get_status
shots_fit = record {
  consistent = record { sorted = tt; keyed = λ k this e. absurd (cc); placed = λ this j i. refl };
  grid_of = record { wide = refl; high = refl; seg_w_pos = omega arith; seg_h_pos = omega arith };
  wide = λ this. omega arith;
  high = λ this. omega arith;
}

abbrev pub open_field : ℤ → ℤ → ℤ → ℤ → Bool
open_field x y w h = false

is_free : arena_is_free_space open_field field (pos 70) (pos 40) (pos 30) (pos 30) ≡ true
unfolding arena_is_free_space space_is_conflict_with_object any_zone any_hit visited rows row range
    outside get_segment ◌+ℤ◌ ◌-ℤ◌ ◌/ℤ◌
is_free = refl

arena_is_free_space_lem_example :
    (pos 0 ≤ℤ pos 70)
    × (pos 0 ≤ℤ pos 40)
    × (pos 70 +ℤ pos 30 ≤ℤ pos 800)
    × (pos 40 +ℤ pos 30 ≤ℤ pos 600)
    × Clear tux_kind field.tuxes empty (pos 70) (pos 40) (pos 30) (pos 30)
    × Clear shot_kind field.shots empty (pos 70) (pos 40) (pos 30) (pos 30)
    × Clear item_kind field.items empty (pos 70) (pos 40) (pos 30) (pos 30)
    × (open_field (pos 70) (pos 40) (pos 30) (pos 30) ≡ false)
arena_is_free_space_lem_example =
    arena_is_free_space_lem open_field field (pos 70) (pos 40) (pos 30) (pos 30) tuxes_fit shots_fit
      items_fit (omega arith) (omega arith) is_free

arena_get_center_screen_lem_example :
    (let r = arena_get_center_screen field (pos 790) (negsuc 4) 640 480 in
      (pos 0 ≤ℤ r.0) × (r.0 +ℤ pos 640 ≤ℤ pos 800) × (pos 0 ≤ℤ r.1) × (r.1 +ℤ pos 480 ≤ℤ pos 600))
arena_get_center_screen_lem_example =
    arena_get_center_screen_lem field (pos 790) (negsuc 4) 640 480 (omega arith) (omega arith)
