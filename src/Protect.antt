-- ===== src/Protect.antt =====
-- src/base/protect.c and src/base/protect.h: when a client was heard of last. Each call of
-- timer_get_current_time takes the next value of the stream `clock`; my_time_t is a 32-bit word.
pub mod Laws
use tuxanci_ng.Prelude.{
  ℕ, zero, suc, ◌+◌, ◌-◌, ◌%◌, ◌^◌, Bool, true, false, if◌then◌else◌, ltb, ◌==◌,
}
use tuxanci_ng.Timer.{later}

abbrev pub ping_interval_timeout : ℕ
ping_interval_timeout = 5000

abbrev pub speed_avarage : ℕ
speed_avarage = 10

pub record Protect : Type 0 where
  pub last_ping : ℕ
  pub last_move : ℕ
  pub avarage : ℕ
  pub count : ℕ
  pub is_down : Bool

-- a - b on my_time_t.
abbrev pub elapsed : ℕ → ℕ → ℕ
elapsed a b = (a + (2 ^ 32 - b)) % 2 ^ 32

unfoldable pub new_protect : (ℕ → ℕ) → Protect × (ℕ → ℕ)
new_protect clock = (
  record {
    last_move = clock 0 % 2 ^ 32;
    last_ping = clock 1 % 2 ^ 32;
    avarage = 0;
    count = 0;
    is_down = false;
  },
  later (later clock),
)

unfoldable pub refresh_last_move : Protect → (ℕ → ℕ) → Protect × (ℕ → ℕ)
refresh_last_move p clock =
    let interval = elapsed (clock 0 % 2 ^ 32) p.last_move in
    let moved : Protect = record p {
      last_move = clock 1 % 2 ^ 32;
      avarage = (p.avarage + interval) % 2 ^ 32;
      count = p.count + 1;
    } in
    (
      (if moved.count == speed_avarage then record moved { avarage = 0; count = 0 } else moved),
      later (later clock),
    )

unfoldable pub reresh_last_ping : Protect → (ℕ → ℕ) → Protect × (ℕ → ℕ)
reresh_last_ping p clock = (record p { last_ping = clock 0 % 2 ^ 32 }, later clock)

-- isDown: the answer is the field of the new state.
unfoldable pub is_down_now : Protect → (ℕ → ℕ) → Protect × (ℕ → ℕ)
is_down_now p clock = (
  (if ltb ping_interval_timeout (elapsed (clock 0 % 2 ^ 32) p.last_ping)
      then record p { is_down = true }
      else p),
  later clock,
)
