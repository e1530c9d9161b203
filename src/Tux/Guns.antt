-- ===== src/Tux/Guns.antt =====
-- src/base/tux.c and src/base/gun.c: the guns of a tux and what it does with them. What a handler
-- asks of the rest of the program is a list of effects, in order: tasks added to the arena's timer,
-- shots and mines added to its spaces, and rounds counted. Sounds and messages to the network are left
-- out.
use tuxanci_ng.Prelude.{
  ℕ, zero, suc, ◌+◌, ◌*◌, List, [], ◌∷◌, Bool, true, false, not, ◌&&◌, Option, none, some, Result,
  ok, err, aborted, ◌>>=◌, if◌then◌else◌, ◌==◌, drop,
}
use tuxanci_ng.Prelude.Int.{ℤ, pos, ◌+ℤ◌, ◌-ℤ◌, ltb_ℤ, ◌==ℤ◌}
use tuxanci_ng.Tux.{Tux}

abbrev pub gun_simple : ℕ
gun_simple = 0

abbrev pub gun_mine : ℕ
gun_mine = 5

abbrev pub gun_lasser : ℕ
gun_lasser = 4

abbrev pub gun_bombball : ℕ
gun_bombball = 6

abbrev pub gun_count : ℕ
gun_count = 7

abbrev pub gun_max_shot : ℤ
gun_max_shot = pos 5

abbrev pub max_pickup : ℤ
max_pickup = pos 50

-- The callbacks that tux.c and gun.c hand to timer_add_task.
pub data Task : Type 0 where
  spawn_tux tux_can_shot tux_can_switch_gun add_shot_timer add_laser_timer : Task

-- The arguments of shot_new.
pub record ShotArgs : Type 0 where
  pub x : ℤ
  pub y : ℤ
  pub px : ℤ
  pub py : ℤ
  pub gun : ℕ
  pub author_id : ℤ

pub data Effect : Type 0 where
  add_task : Task → ℤ → ℕ → Effect
  new_shot : ShotArgs → Effect
  new_mine : ℤ → ℤ → ℤ → Effect
  inc_round : Effect

-- net_multiplayer_get_game_type
pub data GameType : Type 0 where
  game_alone game_server game_client : GameType

abbrev pub is_client : GameType → Bool
is_client game_client = true
is_client game_alone = false
is_client game_server = false

-- The loop of tux_is_any_gun.
unfoldable pub any_loaded : List ℤ → Bool
any_loaded [] = false
any_loaded (n ∷ shot) = if ltb_ℤ (pos 0) n then true else any_loaded shot

unfoldable pub tux_is_any_gun : Tux → Bool
tux_is_any_gun tux = any_loaded tux.shot

-- The first i of a loop over the guns from `i` on with shot[i] > 0.
unfoldable pub first_loaded : List ℤ → ℕ → Option ℕ
first_loaded [] i = none
first_loaded (n ∷ shot) i = if ltb_ℤ (pos 0) n then some i else first_loaded shot (i + 1)

-- The body that both loops of switchTuxGun run for the gun they find.
abbrev pub take_gun : Tux → ℕ → Tux × List Effect
take_gun tux i =
    (record tux { gun = i; is_can_switch_gun = false }, add_task tux_can_switch_gun tux.id 100 ∷ [])

-- tux->control != TUX_CONTROL_NET && tux->isCanSwitchGun == FALSE
abbrev pub may_not_switch : Tux → Bool
may_not_switch tux = not (tux.control == 3) && not tux.is_can_switch_gun

unfoldable pub switch_tux_gun : Tux → Tux × List Effect
switch_tux_gun tux =
    if may_not_switch tux
    then (tux, [])
    else (elim (first_loaded (drop (suc tux.gun) tux.shot) (suc tux.gun)) [
      | some i ↦ take_gun tux i
      | none ↦ elim (first_loaded tux.shot 0) [ some i ↦ take_gun tux i | none ↦ (tux, []) ]
    ])

-- modificiationCopuse
unfoldable pub modificiation_copuse : ℤ → ℤ → ℤ → Result (ℤ × ℤ)
modificiation_copuse courser right_x right_y =
    if courser ==ℤ pos 8
    then ok (right_y, pos 0 -ℤ right_x)
    else if courser ==ℤ pos 6
    then ok (right_x, right_y)
    else if courser ==ℤ pos 4
    then ok (pos 0 -ℤ right_x, right_y)
    else if courser ==ℤ pos 2
    then ok (right_y, right_x)
    else err aborted

-- addShotTrivial for a tux that looks to `position`, up to the arguments of shot_new.
unfoldable pub add_shot_trivial : Tux → ℤ → ℤ → ℤ → ℤ → ℤ → ℕ → Result Effect
add_shot_trivial tux position x y px py gun = modificiation_copuse position px py >>= λ p.
    modificiation_copuse position x y >>= λ d. ok (
      new_shot (record {
        x = tux.x +ℤ (if (gun == gun_lasser) && (position ==ℤ pos 4) then d.0 -ℤ pos 40 else d.0);
        y = tux.y +ℤ (if (gun == gun_lasser) && (position ==ℤ pos 8) then d.1 -ℤ pos 40 else d.1);
        px = p.0;
        py = p.1;
        gun = gun;
        author_id = tux.id;
      }))

-- The gun of the shot that a tux makes with its gun.
abbrev pub shot_gun : ℕ → ℕ
shot_gun gun =
    if gun == gun_bombball
    then gun_bombball
    else if gun == gun_lasser
    then gun_lasser
    else gun_simple

-- tux->bonus == BONUS_4X shoots up, right, left and down.
unfoldable pub add_shot : GameType → Tux → ℤ → ℤ → ℤ → ℤ → Result (List Effect)
add_shot game tux x y px py =
    let gun = shot_gun tux.gun in
    if is_client game
    then ok []
    else if tux.bonus ==ℤ pos 14
    then (add_shot_trivial tux (pos 8) x y px py gun >>= λ a.
        add_shot_trivial tux (pos 6) x y px py gun >>= λ b.
        add_shot_trivial tux (pos 4) x y px py gun >>= λ c.
        add_shot_trivial tux (pos 2) x y px py gun >>= λ d. ok (a ∷ b ∷ c ∷ d ∷ []))
    else (add_shot_trivial tux tux.position x y px py gun >>= λ a. ok (a ∷ []))

-- timer_add_task(..., i * step) for i from `i` on, `rounds` times.
unfoldable pub tasks : Task → ℤ → ℕ → ℕ → ℕ → List Effect
tasks task id i step zero = []
tasks task id i step (suc rounds) = add_task task id (i * step) ∷ tasks task id (i + 1) step rounds
