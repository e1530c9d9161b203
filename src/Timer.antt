-- ===== src/Timer.antt =====
-- src/base/myTimer.c and src/base/myTimer.h: tasks that run when their time has come. gettimeofday is
-- the stream `clock` of the values that timer_get_current_time returns, consumed from its head. A
-- callback with its argument is a function on the rest of the program's state; the callbacks of the
-- program do not touch the list that they stand in.
pub mod Laws
use tuxanci_ng.Prelude.{
  ℕ, zero, suc, ◌+◌, ◌%◌, ◌^◌, List, [], ◌∷◌, Bool, true, false, Option, none, some, Result, ok,
  err, assertion, aborted, ◌>>=◌, if◌then◌else◌, leb, ◌==◌, length,
}
use tuxanci_ng.Prelude.Int.{ℤ, pos, ◌==ℤ◌}
use tuxanci_ng.Sequence.{add, remove_at}
use tuxanci_ng.Sweep.{sweep_loop}

abbrev pub timer_one : ℤ
timer_one = pos 0

abbrev pub timer_periodic : ℤ
timer_periodic = pos 1

-- my_timer_t over a program state W.
pub record MyTimer {ℓ} (W : Type ℓ) : Type ℓ where
  pub id : ℕ
  pub fce : W → W
  pub type_of : ℤ
  pub create_time : ℕ
  pub time : ℕ

-- The stream behind its first value.
abbrev pub later : (ℕ → ℕ) → ℕ → ℕ
later clock n = clock (suc n)

module _ {ℓ} {W : Type ℓ} where
  -- timer_newItem, with the static new_id before and after.
  unfoldable pub timer_new_item : ℤ → (W → W) → ℕ → ℕ → (ℕ → ℕ) → MyTimer W × (ℕ × (ℕ → ℕ))
  timer_new_item type_of fce my_time new_id clock = (
    record {
      id = new_id;
      fce = fce;
      type_of = type_of;
      create_time = clock 0 % 2 ^ 32;
      time = my_time;
    },
    ((new_id + 1) % 2 ^ 32, later clock),
  )

  -- The list, the id returned, the next new_id and the clock afterwards.
  unfoldable pub timer_add_task :
      List (MyTimer W) → ℤ → (W → W) → ℕ → ℕ → (ℕ → ℕ) → List (MyTimer W) × (ℕ × (ℕ × (ℕ → ℕ)))
  timer_add_task list type_of fce my_time new_id clock =
      let r = timer_new_item type_of fce my_time new_id clock in
      (add list r.0, (r.0.id, (r.1.0, r.1.1)))

  -- currentTime >= thisTimer->createTime + thisTimer->time, the sum in unsigned int.
  abbrev pub is_due : ℕ → MyTimer W → Bool
  is_due current this = leb ((this.create_time + this.time) % 2 ^ 32) current

  -- The body of the loop of timer_event, on the program state and the clock.
  unfoldable pub event_body :
      ℕ → MyTimer W → W × (ℕ → ℕ) → Result (Option (MyTimer W) × (W × (ℕ → ℕ)))
  event_body current this s =
      if this.type_of ==ℤ timer_one
      then (if is_due current this then ok (none, (this.fce s.0, s.1)) else ok (some this, s))
      else if this.type_of ==ℤ timer_periodic
      then (if is_due current this
          then ok (some (record this { create_time = s.1 0 % 2 ^ 32 }), (this.fce s.0, later s.1))
          else ok (some this, s))
      else err aborted

  unfoldable pub timer_event :
      List (MyTimer W) → W → (ℕ → ℕ) → Result (List (MyTimer W) × (W × (ℕ → ℕ)))
  timer_event list w clock =
      sweep_loop (event_body (clock 0 % 2 ^ 32)) (suc (length list)) 0 list (w, later clock)

  -- The index that the loop of timer_del stops at.
  unfoldable pub find_timer : List (MyTimer W) → ℕ → ℕ → Option ℕ
  find_timer [] i id = none
  find_timer (this ∷ list) i id = if this.id == id then some i else find_timer list (i + 1) id

  -- timer_del, of an id already turned into an unsigned int.
  unfoldable pub timer_del : List (MyTimer W) → ℕ → Result (List (MyTimer W))
  timer_del list id = elim (find_timer list 0 id) [
    | none ↦ err assertion
    | some i ↦ ok (remove_at list i)
  ]
