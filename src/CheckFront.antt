-- ===== src/CheckFront.antt =====
-- src/base/checkFront.c and src/base/checkFront.h: the messages waiting to be sent to a client. A
-- checked message is sent again until the client confirms it or it was sent too often; while it
-- waits it holds a count of its id. server_send_client is seen in the list of messages sent.
pub mod Laws
use tuxanci_ng.Prelude.{
  ℕ, zero, suc, ◌+◌, ◌-◌, ◌%◌, ◌^◌, List, [], ◌∷◌, Bool, true, false, ◌||◌, Option, none, some,
  Result, ok, err, aborted, ◌>>=◌, if◌then◌else◌, ltb, ◌==◌, length,
}
use tuxanci_ng.Prelude.Int.{ℤ, pos, ◌==ℤ◌}
use tuxanci_ng.Sequence.{add, remove_at}
use tuxanci_ng.Sweep.{sweep_loop}
use tuxanci_ng.IdManager.{IdManager, id_inc, id_del}

abbrev pub type_simple : ℤ
type_simple = pos 1

abbrev pub type_check : ℤ
type_check = pos 2

abbrev pub send_time_interval : ℕ
send_time_interval = 100

abbrev pub max_count_send : ℕ
max_count_send = 30

-- checkfront_t, the message of any type M.
pub record Check {ℓ} (M : Type ℓ) : Type ℓ where
  pub msg : M
  pub time : ℕ
  pub id : ℤ
  pub count : ℕ
  pub type_of : ℤ

-- What check_front_event changes besides the list: the messages sent, and the table of ids.
pub record Front {ℓ} (M : Type ℓ) : Type ℓ where
  pub sent : List M
  pub manager : IdManager

module _ {ℓ} {M : Type ℓ} where
  abbrev pub new_check : M → ℤ → ℤ → ℕ → Check M
  new_check s type_of id now = record {
    msg = s;
    time = now % 2 ^ 32;
    id = id;
    count = 0;
    type_of = type_of;
  }

  unfoldable pub check_front_msg_add :
      List (Check M) → M → ℤ → ℤ → ℕ → IdManager → Result (List (Check M) × IdManager)
  check_front_msg_add list msg type_of id now m =
      (if type_of ==ℤ type_check then id_inc id m else ok m) >>= λ m'.
      ok (add list (new_check msg type_of id now), m')

  -- this->count == 0 || currentTime - this->time > CHECK_FRONT_SEND_TIME_INTERVAL, in unsigned int.
  unfoldable pub is_time : ℕ → Check M → Bool
  is_time current this =
      (this.count == 0) || ltb send_time_interval ((current + (2 ^ 32 - this.time)) % 2 ^ 32)

  -- The first if of the case CHECK_FRONT_TYPE_CHECK: the item and the messages sent afterwards.
  unfoldable pub send_again : ℕ → Check M → Front M → Check M × Front M
  send_again current this s =
      if is_time current this
      then (
        record this { time = current; count = this.count + 1 },
        record s { sent = add s.sent this.msg },
      )
      else (this, s)

  unfoldable pub event_body : ℕ → Check M → Front M → Result (Option (Check M) × Front M)
  event_body current this s =
      if this.type_of ==ℤ type_simple
      then ok (none, record s { sent = add s.sent this.msg })
      else if this.type_of ==ℤ type_check
      then (let r = send_again current this s in
          if ltb max_count_send r.0.count
          then (id_del r.0.id r.1.manager >>= λ m. ok (none, record r.1 { manager = m }))
          else ok (some r.0, r.1))
      else err aborted

  unfoldable pub check_front_event :
      List (Check M) → ℕ → Front M → Result (List (Check M) × Front M)
  check_front_event list now s = sweep_loop (event_body (now % 2 ^ 32)) (suc (length list)) 0 list s

  -- The index at which the loop of check_front_del_msg stops.
  unfoldable pub find_msg : List (Check M) → ℕ → ℤ → Option ℕ
  find_msg [] i id = none
  find_msg (this ∷ list) i id = if this.id ==ℤ id then some i else find_msg list (i + 1) id

  unfoldable pub check_front_del_msg :
      List (Check M) → ℤ → IdManager → Result (List (Check M) × IdManager)
  check_front_del_msg list id m = elim (find_msg list 0 id) [
    | none ↦ ok (list, m)
    | some i ↦ id_del id m >>= λ m'. ok (remove_at list i, m')
  ]
