-- ===== src/Shots.antt =====
-- src/base/shot.c: the flight of the shots of an arena, the bouncing ball and the turn of a laser.
pub mod Index
pub mod Flight
pub mod Members
pub mod Ready
pub mod Pass
pub mod Laws
pub mod Making
pub mod Created
pub mod Made
pub mod Turned
pub mod Course
use tuxanci_ng.Prelude.{
  ℕ, zero, suc, ◌+◌, ◌%◌, List, [], ◌∷◌, Bool, true, false, not, ◌&&◌, ◌||◌, Option, none, some,
  Result, ok, err, out_of_fuel, ◌>>=◌, if◌then◌else◌, ◌==◌,
}
use tuxanci_ng.Prelude.Int.{ℤ, pos, negsuc, ◌+ℤ◌, ◌-ℤ◌, ltb_ℤ, ◌==ℤ◌}
use tuxanci_ng.IdManager.{IdManager, id_del}
use tuxanci_ng.Space.{Space, space_move_object, space_get_object_id, space_del, space_add}
use tuxanci_ng.Space.Actions.{space_del_with_item, space_action}
use tuxanci_ng.Tux.{Shot, shot_kind}
use tuxanci_ng.Tux.Guns.{gun_bombball}

-- What the flight of the shots changes: the shots, their space, and the table of ids.
pub record Shots : Type 0 where
  pub heap : ℕ → Shot
  pub space : Space
  pub ids : IdManager

-- shot_destroy, without its free.
unfoldable pub shot_destroy : (ℕ → Shot) → IdManager → ℕ → Result IdManager
shot_destroy heap ids p = id_del (heap p).id ids

-- The test by which action_moveShot deletes a shot.
unfoldable pub has_left : ℕ → ℕ → Shot → Bool
has_left arena_w arena_h shot =
    ltb_ℤ (shot.x +ℤ shot.w) (pos 0)
    || (ltb_ℤ (pos arena_w) shot.x
        || (ltb_ℤ (shot.y +ℤ shot.h) (pos 0) || ltb_ℤ (pos arena_h) shot.y))

unfoldable pub action_move_shot : ℕ → ℕ → ℕ → Shots → Result Shots
unfolding shot_kind shot_destroy
action_move_shot arena_w arena_h shot s =
    let new_x = (s.heap shot).x +ℤ (s.heap shot).px in
    let new_y = (s.heap shot).y +ℤ (s.heap shot).py in
    space_move_object shot_kind s.heap shot new_x new_y s.space >>= λ (heap, space).
    if has_left arena_w arena_h (heap shot)
    then (space_del_with_item shot_kind heap shot space (shot_destroy heap s.ids) >>= λ (left, ids).
        ok (record { heap = heap; space = left; ids = ids }))
    else ok (record { heap = heap; space = space; ids = s.ids })

unfoldable pub shot_event_move_list : ℕ → ℕ → Shots → Result Shots
unfolding action_move_shot
shot_event_move_list arena_w arena_h s =
    space_action (λ (t : Shots). t.space) (action_move_shot arena_w arena_h) s
