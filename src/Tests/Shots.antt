-- ===== src/Tests/Shots.antt =====
-- The making, turning and bouncing of shots at concrete inputs.
use tuxanci_ng.Prelude.{ℕ, ◌≡◌, refl, [], true, false, none, ok, arith, if◌then◌else◌, ◌==◌}
use tuxanci_ng.Prelude.Int.{pos, negsuc, ◌==ℤ◌, ◌-ℤ◌}
use tuxanci_ng.IdManager.Counts.{count_of}
use tuxanci_ng.Index.Table.{lookup}
use tuxanci_ng.Space.Invariant.{registered, is_it}
use tuxanci_ng.Tux.{Tux, Shot, shot_kind}
use tuxanci_ng.Tux.Guns.{ShotArgs}
use tuxanci_ng.Shots.{Shots}
use tuxanci_ng.Shots.Flight.{Flies}
use tuxanci_ng.Shots.Making.{
  course, shot_bound_bomb_ball, shot_transform_lasser, make_shot, written, turned,
}
use tuxanci_ng.Shots.Made.{make_shot-Flies, can_make}
use tuxanci_ng.Shots.Turned.{shot_transform_lasser-Flies}
use tuxanci_ng.Shots.Course.{shot_bound_bomb_ball_lem}
use tuxanci_ng.Tests.Spaces.{shots, empty, one, added, flying, flying-Flies}

abbrev some_args : ShotArgs
some_args = record { x = pos 20; y = pos 30; px = pos 5; py = pos 0; gun = 0; author_id = pos 1 }

abbrev a_tux : Tux
a_tux = record {
  id = pos 1;
  x = pos 20;
  y = pos 30;
  status = 0;
  control = 0;
  position = pos 6;
  score = pos 0;
  gun = 0;
  shot = [];
  bonus = negsuc 0;
  bonus_time = pos 0;
  pickup_time = pos 0;
  is_can_shot = true;
  is_can_switch_gun = true;
  frame = pos 0;
}

seven_fresh : registered shot_kind shots one 7 ≡ false
unfolding registered is_it lookup
seven_fresh = added.4 7

make_shot-Flies_example :
    (s : Shots) × (shot : Shot) × (make_shot 1 (λ n. a_tux) empty 7 some_args flying ≡ ok s)
    × Flies s
    × (s.heap ≡ written shots 7 shot)
    × (count_of shot.id flying.ids.list_id ≡ none)
    × ((this : ℕ)
        → registered shot_kind s.heap s.space this
          ≡ (if 7 == this then true else registered shot_kind shots one this))
unfolding can_make lookup count_of
make_shot-Flies_example =
    make_shot-Flies 1 0 (λ n. a_tux) empty 7 some_args flying flying-Flies seven_fresh tt refl
      (omega arith) (omega arith) refl

shot_transform_lasser-Flies_example :
    (s : Shots) × (shot_transform_lasser 0 flying ≡ ok s)
    × Flies s
    × (s.heap ≡ written shots 0 (turned (shots 0)))
    × ((this : ℕ) → registered shot_kind s.heap s.space this ≡ registered shot_kind shots one this)
shot_transform_lasser-Flies_example = shot_transform_lasser-Flies flying flying-Flies 0 added.3

abbrev ball : Shot
ball = record (shots 0) { px = pos 10; py = pos 10; gun = 6 }

shot_bound_bomb_ball_lem_example :
    (k l : ℕ) × (rest : ℕ → ℕ) × (shot_bound_bomb_ball 2 (λ n. n) ball
      ≡ ok (
        record ball { px = course k (pos 10); py = course l (pos 10); is_can_kill_author = true },
        rest,
      ))
    × ((course k (pos 10) ==ℤ pos 10) ≡ false)
    × ((course l (pos 10) ==ℤ pos 10) ≡ false)
unfolding ◌-ℤ◌
shot_bound_bomb_ball_lem_example =
    shot_bound_bomb_ball_lem 2 1 2 (λ n. n) ball refl (omega arith) (omega arith) refl refl
