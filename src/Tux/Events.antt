-- ===== src/Tux/Events.antt =====
-- src/base/tux.c and src/base/gun.c: shooting, switching, reloading, bonuses and death of a tux.
-- `free` is arena_is_free_space and `blocked` is module_is_conflict, both for the current arena.
use tuxanci_ng.Prelude.{
  List, [], ◌∷◌, ◌++◌, Bool, true, false, not, ◌&&◌, Result, ok, ◌>>=◌, if◌then◌else◌, ◌==◌,
  replicate, set,
}
use tuxanci_ng.Prelude.Int.{ℤ, pos, negsuc, ◌+ℤ◌, ◌-ℤ◌, ltb_ℤ, ◌==ℤ◌}
use tuxanci_ng.Memory.{load, store}
use tuxanci_ng.Tux.{Tux, tux_get_status}
use tuxanci_ng.Tux.Guns.{
  gun_simple, gun_mine, gun_max_shot, max_pickup, add_shot_timer, add_laser_timer, spawn_tux,
  tux_can_shot, Effect, add_task, new_mine, inc_round, GameType, is_client, tux_is_any_gun,
  switch_tux_gun, add_shot, tasks,
}

-- tux->shot[tux->gun]--
abbrev pub spend : Tux → Result Tux
spend tux = load tux.shot (pos tux.gun) >>= λ n.
    store tux.shot (pos tux.gun) (n -ℤ pos 1) >>= λ shot. ok (record tux { shot = shot })

-- Where putInGunMine puts the mine: behind the tux.
abbrev pub behind : Tux → ℤ × ℤ
behind tux =
    if tux.position ==ℤ pos 8
    then (tux.x, tux.y +ℤ pos 30)
    else if tux.position ==ℤ pos 6
    then (tux.x -ℤ pos 30, tux.y)
    else if tux.position ==ℤ pos 4
    then (tux.x +ℤ pos 30, tux.y)
    else if tux.position ==ℤ pos 2
    then (tux.x, tux.y -ℤ pos 30)
    else (tux.x, tux.y)

unfoldable pub put_in_gun_mine :
    GameType → (ℤ → ℤ → ℤ → ℤ → Bool) → Tux → Result (Tux × List Effect)
put_in_gun_mine game free tux =
    let place = behind tux in
    if free place.0 place.1 (pos 15) (pos 11)
    then (spend tux >>= λ tux'.
        ok (tux', if is_client game then [] else new_mine place.0 place.1 tux.id ∷ []))
    else ok (tux, [])

-- The switch of gun_shot, on the tux whose ammunition was counted down already.
unfoldable pub fire : GameType → (ℤ → ℤ → ℤ → ℤ → Bool) → Tux → Result (Tux × List Effect)
fire game free tux =
    if tux.gun == 0
    then (add_shot game tux (pos 0) (pos 0) (pos 5) (pos 0) >>= λ l. ok (tux, l))
    else if tux.gun == 1
    then (add_shot game tux (pos 0) (negsuc 9) (pos 6) (pos 0) >>= λ l.
        add_shot game tux (pos 0) (pos 10) (pos 6) (pos 0) >>= λ l'. ok (tux, l ++ l'))
    else if tux.gun == 2
    then (add_shot game tux (pos 0) (pos 0) (pos 8) (negsuc 1) >>= λ a.
        add_shot game tux (pos 0) (pos 0) (pos 8) (negsuc 0) >>= λ b.
        add_shot game tux (pos 0) (pos 0) (pos 8) (pos 0) >>= λ c.
        add_shot game tux (pos 0) (pos 0) (pos 8) (pos 1) >>= λ d.
        add_shot game tux (pos 0) (pos 0) (pos 8) (pos 2) >>= λ e. ok (tux, a ++ b ++ c ++ d ++ e))
    else if tux.gun == 3
    then ok (tux, tasks add_shot_timer tux.id 0 100 10)
    else if tux.gun == 4
    then ok (tux, tasks add_laser_timer tux.id 0 10 50)
    else if tux.gun == 6
    then (add_shot game tux (pos 0) (pos 0) (pos 10) (pos 0) >>= λ l. ok (tux, l))
    else if tux.gun == gun_mine
    then put_in_gun_mine game free tux
    else ok (tux, [])

unfoldable pub gun_shot : GameType → (ℤ → ℤ → ℤ → ℤ → Bool) → Tux → Result (Tux × List Effect)
gun_shot game free tux =
    (if not (tux.bonus ==ℤ pos 11) && not (tux.gun == gun_mine) then spend tux else ok tux)
    >>= λ tux'. fire game free tux'

-- The last if of shotTux.
abbrev pub switch_if_empty : Tux → ℤ → List Effect → Result (Tux × List Effect)
switch_if_empty tux n l =
    let r = switch_tux_gun tux in if n ==ℤ pos 0 then ok (r.0, l ++ r.1) else ok (tux, l)

unfoldable pub shot_tux : GameType → (ℤ → ℤ → ℤ → ℤ → Bool) → Tux → Result (Tux × List Effect)
shot_tux game free tux =
    if not tux.is_can_shot
    then ok (tux, [])
    else (load tux.shot (pos tux.gun) >>= λ n.
        if n ==ℤ pos 0
        then ok (tux, [])
        else (gun_shot game free tux >>= λ r. load r.0.shot (pos r.0.gun) >>= λ n'.
            switch_if_empty (record r.0 { is_can_shot = false }) n'
              (r.1 ++ (add_task tux_can_shot tux.id 500 ∷ []))))

-- pickUpGun once pickup_time was counted up.
abbrev pub reload : GameType → Tux → Result Tux
reload game tux =
    if (tux.pickup_time ==ℤ max_pickup) && not (is_client game)
    then (store tux.shot (pos gun_simple) gun_max_shot >>= λ shot.
        ok (record tux { gun = gun_simple; shot = shot; pickup_time = pos 0 }))
    else ok tux

unfoldable pub pick_up_gun : GameType → Tux → Result Tux
pick_up_gun game tux =
    if tux_is_any_gun tux
    then ok tux
    else reload game (record tux {
      gun = gun_simple;
      pickup_time =
          if ltb_ℤ tux.pickup_time max_pickup then tux.pickup_time +ℤ pos 1 else tux.pickup_time;
    })

-- eventBonus once bonus_time was counted down.
abbrev pub end_bonus : GameType → (ℤ → ℤ → ℤ → ℤ → Bool) → Tux → Tux
end_bonus game blocked tux =
    let s = tux_get_status tux in
    if (tux.bonus_time ==ℤ pos 0) && not (is_client game)
    then (if (tux.bonus ==ℤ pos 13) && blocked s.x s.y s.w s.h
        then tux
        else record tux { bonus = negsuc 0 })
    else tux

unfoldable pub event_bonus : GameType → (ℤ → ℤ → ℤ → ℤ → Bool) → Tux → Tux
event_bonus game blocked tux =
    if tux.bonus ==ℤ negsuc 0
    then tux
    else end_bonus game blocked (
        if ltb_ℤ (pos 0) tux.bonus_time
        then record tux { bonus_time = tux.bonus_time -ℤ pos 1 }
        else tux)

unfoldable pub tux_event_tux_is_dead : GameType → Tux → Tux × List Effect
tux_event_tux_is_dead game tux = if tux.status == 1 then (tux, []) else (
  record tux {
    status = 1;
    shot = set (replicate 7 (pos 0)) gun_simple gun_max_shot;
    gun = gun_simple;
    bonus = negsuc 0;
    bonus_time = pos 0;
    pickup_time = pos 0;
    is_can_shot = true;
    is_can_switch_gun = true;
  },
  inc_round ∷ (if is_client game then [] else add_task spawn_tux tux.id 2000 ∷ []),
)
