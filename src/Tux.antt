-- ===== src/Tux.antt =====
-- src/base/tux.c, tux.h, gun.h, shot.c, shot.h, item.c and item.h: the three kinds of objects of an
-- arena, with the callbacks by which their spaces read and set their places.
pub mod Guns
pub mod Events
pub mod Ammo
pub mod Shooting
use tuxanci_ng.Prelude.{
  ℕ, zero, suc, ◌+◌, ◌≡◌, refl, List, [], ◌∷◌, Bool, true, false, Option, none, some, Result, ok,
  err, assertion, ◌>>=◌, if◌then◌else◌, ◌==◌, ◌&&◌, ◌||◌, leb, arith,
}
use tuxanci_ng.Prelude.Int.{
  ℤ, pos, negsuc, ◌+ℤ◌, ◌-ℤ◌, ltb_ℤ, ◌==ℤ◌, int_laws, eq_of_parts, +ℤ_parts, -ℤ_parts,
}
use tuxanci_ng.Space.Objects.{Status, ObjectKind}

pub record Tux : Type 0 where
  pub id : ℤ
  pub x : ℤ
  pub y : ℤ
  pub status : ℕ
  pub control : ℕ
  pub position : ℤ
  pub score : ℤ
  pub gun : ℕ
  pub shot : List ℤ
  pub bonus : ℤ
  pub bonus_time : ℤ
  pub pickup_time : ℤ
  pub is_can_shot : Bool
  pub is_can_switch_gun : Bool
  pub frame : ℤ

pub record Shot : Type 0 where
  pub id : ℤ
  pub x : ℤ
  pub y : ℤ
  pub w : ℤ
  pub h : ℤ
  pub px : ℤ
  pub py : ℤ
  pub position : ℤ
  pub gun : ℕ
  pub author_id : ℤ
  pub is_can_kill_author : Bool
  pub del : Bool

pub record Item : Type 0 where
  pub id : ℤ
  pub type_of : ℤ
  pub x : ℤ
  pub y : ℤ
  pub w : ℤ
  pub h : ℤ
  pub frame : ℤ
  pub count : ℤ
  pub author_id : ℤ

-- TUX_WIDTH and TUX_HEIGHT are 30.
unfoldable pub tux_get_status : Tux → Status
tux_get_status tux = record {
  id = tux.id;
  x = tux.x -ℤ pos 15;
  y = tux.y -ℤ pos 15;
  w = pos 30;
  h = pos 30;
}

-- tux_set_proportion
unfoldable pub tux_set_proportion : Tux → ℤ → ℤ → Tux
tux_set_proportion tux x y = record tux { x = x +ℤ pos 15; y = y +ℤ pos 15 }

unfoldable pub tux_set_status : Tux → ℤ → ℤ → ℤ → ℤ → Tux
tux_set_status tux x y w h = tux_set_proportion tux x y

unfoldable pub shot_get_status : Shot → Status
shot_get_status shot = record { id = shot.id; x = shot.x; y = shot.y; w = shot.w; h = shot.h }

unfoldable pub shot_set_status : Shot → ℤ → ℤ → ℤ → ℤ → Shot
shot_set_status shot x y w h = record shot { x = x; y = y; w = w; h = h }

unfoldable pub item_get_status : Item → Status
item_get_status item = record { id = item.id; x = item.x; y = item.y; w = item.w; h = item.h }

unfoldable pub item_set_status : Item → ℤ → ℤ → ℤ → ℤ → Item
item_set_status item x y w h = record item { x = x; y = y; w = w; h = h }

pub back : (x : ℤ) (n : ℕ) → x +ℤ pos n -ℤ pos n ≡ x
unfolding ◌+ℤ◌ ◌-ℤ◌
back x n = ground arith

-- The callbacks that arena_new hands to the three spaces.
instance unfoldable pub tux_kind : ObjectKind Tux
unfolding tux_get_status tux_set_status tux_set_proportion
tux_kind = record {
  get_status = tux_get_status;
  set_status = tux_set_status;
  get-set = λ o x y. rw (back x 15, back y 15);
}

instance unfoldable pub shot_kind : ObjectKind Shot
unfolding shot_get_status shot_set_status
shot_kind = record {
  get_status = shot_get_status;
  set_status = shot_set_status;
  get-set = λ o x y. refl;
}

instance unfoldable pub item_kind : ObjectKind Item
unfolding item_get_status item_set_status
item_kind = record {
  get_status = item_get_status;
  set_status = item_set_status;
  get-set = λ o x y. refl;
}

-- The sizes that the switch of item_new gives by type; for any other type it sets none.
unfoldable pub item_size : ℕ → Option (ℕ × ℕ)
item_size type_of =
    if leb 1 type_of && leb type_of 6
    then some (50, 20)
    else if type_of == 7
    then some (15, 11)
    else if type_of == 8
    then some (40, 40)
    else if type_of == 9
    then some (100, 100)
    else if leb 10 type_of && leb type_of 15
    then some (20, 20)
    else none
