-- ===== src/Tests/Players.antt =====
-- A tux with its guns at a concrete input.
use tuxanci_ng.Prelude.{
  ℕ, ◌+◌, ◌≤◌, set, ◌≡◌, refl, List, [], ◌∷◌, true, false, some, ok, arith, get_elem?,
}
use tuxanci_ng.Prelude.Int.{ℤ, pos, negsuc, ◌≤ℤ◌}
use tuxanci_ng.Tux.{Tux}
use tuxanci_ng.Tux.Guns.{game_server, switch_tux_gun, tux_is_any_gun, any_loaded}
use tuxanci_ng.Tux.Events.{shot_tux}
use tuxanci_ng.Tux.Ammo.{
  IsArmed, Switched, switch_tux_gun-Switched, pick_up_guns, pick_up_guns_lem,
  switch_tux_gun-IsArmed,
}
use tuxanci_ng.Tux.Shooting.{right, Fires, shot_tux-Fires}

-- A tux that looks right with one shot in its simple gun, and one without any.
abbrev with_shots : List ℤ → ℤ → Tux
with_shots shot time = record {
  id = pos 3;
  x = pos 100;
  y = pos 100;
  status = 0;
  control = 1;
  position = pos 6;
  score = pos 0;
  gun = 0;
  shot = shot;
  bonus = negsuc 0;
  bonus_time = pos 0;
  pickup_time = time;
  is_can_shot = true;
  is_can_switch_gun = true;
  frame = pos 0;
}

abbrev loaded_tux : Tux
loaded_tux = with_shots (pos 1 ∷ pos 0 ∷ pos 0 ∷ pos 4 ∷ pos 0 ∷ pos 0 ∷ pos 0 ∷ []) (pos 0)

abbrev spent_tux : Tux
spent_tux = with_shots (pos 0 ∷ pos 0 ∷ pos 0 ∷ pos 0 ∷ pos 0 ∷ pos 0 ∷ pos 0 ∷ []) (pos 0)

-- Seven shots that are not negative.
seven_nonneg :
    (a b c d e f g : ℕ) (i : ℕ) (n : ℤ)
    → get_elem? (pos a ∷ pos b ∷ pos c ∷ pos d ∷ pos e ∷ pos f ∷ pos g ∷ []) i ≡ some n
    → pos 0 ≤ℤ n
seven_nonneg a b c d e f g i n h = ground arith

loaded-IsArmed : IsArmed loaded_tux
loaded-IsArmed = record { seven = refl; held = omega arith; nonneg = seven_nonneg 1 0 0 4 0 0 0 }

spent-IsArmed : IsArmed spent_tux
spent-IsArmed = record { seven = refl; held = omega arith; nonneg = seven_nonneg 0 0 0 0 0 0 0 }

any_left : tux_is_any_gun loaded_tux ≡ true
unfolding tux_is_any_gun any_loaded
any_left = refl

none_left : tux_is_any_gun spent_tux ≡ false
unfolding tux_is_any_gun any_loaded
none_left = refl

shot_tux-Fires_example : Fires (shot_tux game_server (λ x y w h. true) loaded_tux)
shot_tux-Fires_example =
    shot_tux-Fires game_server (λ x y w h. true) loaded_tux loaded-IsArmed right

switch_tux_gun-Switched_example : Switched loaded_tux (switch_tux_gun loaded_tux)
switch_tux_gun-Switched_example = switch_tux_gun-Switched loaded_tux loaded-IsArmed refl any_left

switch_tux_gun-IsArmed_example : IsArmed (switch_tux_gun loaded_tux).0
switch_tux_gun-IsArmed_example = switch_tux_gun-IsArmed loaded_tux loaded-IsArmed

-- From a count of 0 on, the 50th call reloads.
pick_up_guns_lem_example :
    ((j : ℕ)
      → j ≤ 49
      → (tux' : Tux) × (pick_up_guns game_server j spent_tux ≡ ok tux')
        × (tux'.shot ≡ spent_tux.shot)
        × (tux'.pickup_time ≡ pos (0 + j)))
    × (pick_up_guns game_server 50 spent_tux
        ≡ ok (record spent_tux {
          gun = 0;
          shot = set spent_tux.shot 0 (pos 5);
          pickup_time = pos 0;
        }))
pick_up_guns_lem_example =
    pick_up_guns_lem game_server 49 0 spent_tux spent-IsArmed refl none_left refl (omega arith)
