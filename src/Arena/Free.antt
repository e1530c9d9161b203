-- ===== src/Arena/Free.antt =====
-- src/base/arena.c and src/base/tux.c: a free place drawn by random(), and the tux that is put there.
-- random() is the stream `draws`. Where the arena is as wide or as high as what is to be placed, the
-- code divides by zero, which is the fault out_of_bounds. Sound and network are left out.
use tuxanci_ng.Prelude.{
  ℕ, zero, suc, ◌-◌, ◌%◌, Bool, not, ◌||◌, Result, ok, err, out_of_bounds, out_of_fuel, ◌>>=◌,
  if◌then◌else◌, leb, ◌==◌,
}
use tuxanci_ng.Prelude.Int.{ℤ, pos}
use tuxanci_ng.IdManager.{rest_of}
use tuxanci_ng.Space.{space_move_object}
use tuxanci_ng.Tux.{tux_kind}
use tuxanci_ng.Tux.Guns.{GameType, is_client}
use tuxanci_ng.Arena.{Arena, arena_is_free_space}

-- The remainder of a division in C takes the divisor without its sign.
abbrev pub distance : ℕ → ℕ → ℕ
distance a b = if leb b a then a - b else b - a

-- The place that the next two draws give.
abbrev pub drawn : Arena → ℕ → ℕ → (ℕ → ℕ) → ℤ × ℤ
drawn arena w h draws = (pos (draws 0 % distance arena.w w), pos (draws 1 % distance arena.h h))

-- The do-while of arena_find_free_space; the first number bounds its rounds.
unfoldable pub arena_find_free_space :
    ℕ → (ℤ → ℤ → ℤ → ℤ → Bool) → Arena → (ℕ → ℕ) → ℕ → ℕ → Result ((ℤ × ℤ) × (ℕ → ℕ))
arena_find_free_space zero blocked arena draws w h = err out_of_fuel
arena_find_free_space (suc fuel) blocked arena draws w h =
    let z = drawn arena w h draws in
    let again = arena_find_free_space fuel blocked arena (rest_of (rest_of draws)) w h in
    if (arena.w == w) || (arena.h == h)
    then err out_of_bounds
    else if arena_is_free_space blocked arena z.0 z.1 (pos w) (pos h)
    then ok (z, rest_of (rest_of draws))
    else again

unfoldable pub tux_teleport :
    ℕ → GameType → (ℤ → ℤ → ℤ → ℤ → Bool) → (ℕ → ℕ) → ℕ → Arena → Result (Arena × (ℕ → ℕ))
unfolding arena_find_free_space tux_kind
tux_teleport fuel game blocked draws tux arena =
    if not (is_client game)
    then (arena_find_free_space fuel blocked arena draws 30 30 >>= λ (z, draws').
        space_move_object tux_kind arena.tuxes tux z.0 z.1 arena.space_tux >>= λ (tuxes, space_tux).
        ok (record arena { tuxes = tuxes; space_tux = space_tux }, draws'))
    else ok (arena, draws)
