-- ===== src/Arena.antt =====
-- src/base/arena.c: an arena with its three spaces, the places that are free in it, and the part of it
-- that a screen shows. `blocked` is module_is_conflict of the loaded modules.
pub mod Laws
pub mod Free
pub mod Teleport
pub mod Step
pub mod Ahead
pub mod Room
pub mod Walk
use tuxanci_ng.Prelude.{
  ℕ, ◌/◌, Bool, true, false, not, ◌&&◌, ◌||◌, Result, ok, ◌>>=◌, if◌then◌else◌, ltb,
}
use tuxanci_ng.Prelude.Int.{ℤ, pos, ◌+ℤ◌, ◌-ℤ◌, ltb_ℤ, leb_ℤ}
use tuxanci_ng.Space.{Space, space_new, space_is_conflict_with_object}
use tuxanci_ng.Tux.{Tux, Shot, Item, tux_kind, shot_kind, item_kind}

-- The fields of arena_t that the server has, and what stands behind the pointers of its spaces.
pub record Arena : Type 0 where
  pub w : ℕ
  pub h : ℕ
  pub space_tux : Space
  pub space_item : Space
  pub space_shot : Space
  pub tuxes : ℕ → Tux
  pub items : ℕ → Item
  pub shots : ℕ → Shot
  pub count_round : ℕ
  pub max_count_round : ℕ

-- arena_new, with the memory in which objects will stand.
unfoldable pub arena_new : ℕ → ℕ → (ℕ → Tux) → (ℕ → Item) → (ℕ → Shot) → Result Arena
arena_new w h tuxes items shots =
    let big = ltb 800 w || ltb 600 h in
    let zone_w = if big then 320 else 80 in
    let zone_h = if big then 240 else 60 in
    space_new w h zone_w zone_h >>= λ space_tux. space_new w h zone_w zone_h >>= λ space_item.
    space_new w h zone_w zone_h >>= λ space_shot. ok (record {
      w = w;
      h = h;
      space_tux = space_tux;
      space_item = space_item;
      space_shot = space_shot;
      tuxes = tuxes;
      items = items;
      shots = shots;
      count_round = 0;
      max_count_round = 0;
    })

-- The return value 1 is true.
unfoldable pub arena_is_free_space : (ℤ → ℤ → ℤ → ℤ → Bool) → Arena → ℤ → ℤ → ℤ → ℤ → Bool
arena_is_free_space blocked arena x y w h = not (
    (ltb_ℤ x (pos 0)
      || (ltb_ℤ y (pos 0) || (ltb_ℤ (pos arena.w) (x +ℤ w) || ltb_ℤ (pos arena.h) (y +ℤ h))))
    || (space_is_conflict_with_object tux_kind arena.tuxes arena.space_tux x y w h
        || (space_is_conflict_with_object shot_kind arena.shots arena.space_shot x y w h
            || (space_is_conflict_with_object item_kind arena.items arena.space_item x y w h
                || (space_is_conflict_with_object shot_kind arena.shots arena.space_shot x y w h
                    || blocked x y w h)))))

-- One coordinate of arena_get_center_screen: the middle `at`, the size of the screen, and that of the
-- arena.
unfoldable pub center : ℕ → ℕ → ℤ → ℤ
center arena_size screen_size at =
    let start = at -ℤ pos (screen_size / 2) in
    let inner = if ltb_ℤ start (pos 0) then pos 0 else start in
    if leb_ℤ (pos arena_size) (inner +ℤ pos screen_size)
    then pos arena_size -ℤ pos screen_size
    else inner

unfoldable pub arena_get_center_screen : Arena → ℤ → ℤ → ℕ → ℕ → ℤ × ℤ
arena_get_center_screen arena x y screen_size_x screen_size_y =
    (center arena.w screen_size_x x, center arena.h screen_size_y y)
