-- ===== src/Protect/Laws.antt =====
-- src/base/protect.c: the watch on a client as a state machine.
use tuxanci_ng.Prelude.{ℕ, ◌<◌, ◌≡◌, true, arith}
use tuxanci_ng.Protect.{Protect, new_protect, refresh_last_move, reresh_last_ping, is_down_now}

-- One call of protect.c, at a time that the clock gives.
pub data Step : Protect → Protect → Type 0 where
  move : {p : Protect} (clock : ℕ → ℕ) → Step p (refresh_last_move p clock).0
  ping : {p : Protect} (clock : ℕ → ℕ) → Step p (reresh_last_ping p clock).0
  ask : {p : Protect} (clock : ℕ → ℕ) → Step p (is_down_now p clock).0

-- A watch that newProtect made, after any calls.
pub data Reachable : Protect → Type 0 where
  made : (clock : ℕ → ℕ) → Reachable (new_protect clock).0
  called : {p q : Protect} → Reachable p → Step p q → Reachable q

-- A reachable watch has counted fewer than PROTECT_SPEED_AVARAGE moves since it last reset.
pub Reachable-count : (p : Protect) → Reachable p → p.count < 10
unfolding refresh_last_move reresh_last_ping is_down_now new_protect
Reachable-count p (made clock) = omega arith
Reachable-count p (called r (move {p = q} clock)) =
    let ih : q.count < 10 = Reachable-count q r in ground arith
Reachable-count p (called r (ping {p = q} clock)) = Reachable-count q r
Reachable-count p (called r (ask {p = q} clock)) =
    let ih : q.count < 10 = Reachable-count q r in ground arith

-- A client that is down stays down, whatever is called.
pub Step-down : (p q : Protect) → Step p q → p.is_down ≡ true → q.is_down ≡ true
unfolding refresh_last_move reresh_last_ping is_down_now
Step-down p q (move clock) h = ground arith
Step-down p q (ping clock) h = h
Step-down p q (ask clock) h = ground arith
