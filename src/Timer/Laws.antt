-- ===== src/Timer/Laws.antt =====
-- src/base/myTimer.c: what timer_event runs and what it leaves in the list; a task and its id.
use tuxanci_ng.Prelude.{
  ℕ, suc, ◌+◌, ◌%◌, ◌^◌, ◌≡◌, ◌≢◌, refl, ap, ◌∙◌, ◌⊎◌, inl, inr, List, [], ◌∷◌, true, false, ◌&&◌,
  some, Result, ok, arith, if◌then◌else◌, ◌==◌, ==_iff, Bool-cases, map,
}
use tuxanci_ng.Prelude.Int.{ℤ, ◌==ℤ◌}
use tuxanci_ng.Sequence.{add, remove_at}
use tuxanci_ng.Sweep.{sweep, sweep_loop-sweep}
use tuxanci_ng.Timer.{
  MyTimer, timer_one, timer_periodic, later, is_due, event_body, timer_event, timer_add_task,
  timer_new_item, find_timer, timer_del,
}

module _ {ℓ} {W : Type ℓ} where
  -- Every task is a one-shot or a periodic one.
  unfoldable pub AreTyped : List (MyTimer W) → Type 0
  AreTyped [] = Unit
  AreTyped (x ∷ list) = ((x.type_of ≡ timer_one) ⊎ (x.type_of ≡ timer_periodic)) × AreTyped list

  -- The callbacks of the due tasks, run in list order.
  unfoldable pub run_due : ℕ → List (MyTimer W) → W → W
  run_due current [] w = w
  run_due current (x ∷ list) w = run_due current list (if is_due current x then x.fce w else w)

  -- The ids of the tasks that are not one-shots whose time has come, in order.
  unfoldable pub survivors : ℕ → List (MyTimer W) → List ℕ
  survivors current [] = []
  survivors current (x ∷ list) =
      if (x.type_of ==ℤ timer_one) && is_due current x
      then survivors current list
      else x.id ∷ survivors current list

  abbrev pub ids : List (MyTimer W) → List ℕ
  ids list = map (λ (t : MyTimer W). t.id) list

  -- What a sweep with the body of timer_event gives.
  Gives : ℕ → List (MyTimer W) → W → (ℕ → ℕ) → Result (List (MyTimer W) × (W × (ℕ → ℕ))) → Type ℓ
  Gives current list w clock m =
      (list' : List (MyTimer W)) × (clock' : ℕ → ℕ) × (m
        ≡ ok (list', (run_due current list w, clock')))
      × (ids list' ≡ survivors current list)

  sweep-event_body :
      (current : ℕ) (list : List (MyTimer W)) (w : W) (clock : ℕ → ℕ)
      → AreTyped list
      → Gives current list w clock (sweep (event_body current) list (w, clock))
  unfolding sweep event_body AreTyped run_due survivors Gives
  sweep-event_body current [] w clock typed = ([], clock, refl, refl)
  sweep-event_body current (x ∷ list) w clock (inl one, typed) =
      let is_one : (x.type_of ==ℤ timer_one) ≡ true = ap (λ t. t ==ℤ timer_one) one in
      elim (Bool-cases (is_due current x)) [
        | inl due ↦
            let (list', clock', run, left) = sweep-event_body current list (x.fce w) clock typed in
            rw (is_one, due) (list', clock', rw run, left)
        | inr early ↦
            let (list', clock', run, left) = sweep-event_body current list w clock typed in
            rw (is_one, early) (x ∷ list', clock', rw run, ap (λ t. x.id ∷ t) left)
      ]
  sweep-event_body current (x ∷ list) w clock (inr periodic, typed) =
      let not_one : (x.type_of ==ℤ timer_one) ≡ false = ap (λ t. t ==ℤ timer_one) periodic in
      let again : (x.type_of ==ℤ timer_periodic) ≡ true = ap (λ t. t ==ℤ timer_periodic) periodic in
      elim (Bool-cases (is_due current x)) [
        | inl due ↦
            let (list', clock', run, left) =
              sweep-event_body current list (x.fce w) (later clock) typed in
            rw (not_one, again, due)
              (
                record x { create_time = clock 0 % 2 ^ 32 } ∷ list',
                clock',
                rw run,
                ap (λ t. x.id ∷ t) left,
              )
        | inr early ↦
            let (list', clock', run, left) = sweep-event_body current list w clock typed in
            rw (not_one, again, early) (x ∷ list', clock', rw run, ap (λ t. x.id ∷ t) left)
      ]

  -- timer_event on a list of one-shot and periodic tasks ends: it has run exactly the tasks that
  -- were due at the time it started, each once and in list order, and leaves all tasks but the
  -- one-shots that ran, in their order.
  pub timer_event_lem :
      (list : List (MyTimer W)) (w : W) (clock : ℕ → ℕ)
      → AreTyped list
      → (list' : List (MyTimer W)) × (clock' : ℕ → ℕ) × (timer_event list w clock
          ≡ ok (list', (run_due (clock 0 % 2 ^ 32) list w, clock')))
        × (ids list' ≡ survivors (clock 0 % 2 ^ 32) list)
  unfolding timer_event Gives
  timer_event_lem list w clock typed =
      let (list', clock', run, left) =
        sweep-event_body (clock 0 % 2 ^ 32) list w (later clock) typed in
      (
        list',
        clock',
        sweep_loop-sweep (event_body (clock 0 % 2 ^ 32)) list (w, later clock) ∙ run,
        left,
      )

  unfoldable pub Absent : ℕ → List (MyTimer W) → Type 0
  Absent id [] = Unit
  Absent id (x ∷ list) = (x.id ≢ id) × Absent id list

  find_timer-add :
      (list : List (MyTimer W)) (x : MyTimer W) (i : ℕ)
      → Absent x.id list
      → (k : ℕ) × (find_timer (add list x) i x.id ≡ some (i + k))
        × (remove_at (add list x) k ≡ list)
  unfolding find_timer Absent
  find_timer-add [] x i h = (0, rw ((==_iff x.id x.id).1 refl) (ap some (omega arith)), refl)
  find_timer-add (y ∷ list) x i (other, h) =
      let (k, found, back) = find_timer-add list x (i + 1) h in
      let miss : (y.id == x.id) ≡ false = ground (arith, ==_iff y.id x.id) in
      let place : i + 1 + k ≡ i + suc k = omega arith in
      (suc k, rw miss (found ∙ ap some place), ap (λ t. y ∷ t) back)

  -- timer_del of the id that timer_add_task returned restores the list, when no task in it already
  -- has that id.
  pub timer_del-timer_add_task :
      (list : List (MyTimer W)) (type_of : ℤ) (fce : W → W) (my_time new_id : ℕ) (clock : ℕ → ℕ)
      → Absent new_id list
      → (let r = timer_add_task list type_of fce my_time new_id clock in
          timer_del r.0 r.1.0 ≡ ok list)
  unfolding timer_add_task timer_new_item timer_del
  timer_del-timer_add_task list type_of fce my_time new_id clock h =
      let x = (timer_new_item type_of fce my_time new_id clock).0 in
      let (k, found, back) = find_timer-add list x 0 h in
      let found' : find_timer (add list x) 0 x.id ≡ some k = found ∙ ap some (omega arith) in
      rw (timer_del, found') (ap ok back)
