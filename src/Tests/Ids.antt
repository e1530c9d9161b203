-- ===== src/Tests/Ids.antt =====
-- The id table, the waiting messages and the watch on a client at concrete inputs.
use tuxanci_ng.Prelude.{
  ℕ, zero, suc, ◌+◌, ◌<◌, ◌≡◌, refl, inl, inr, List, [], ◌∷◌, true, none, some, ok, arith,
  if◌then◌else◌, Bool-cases,
}
use tuxanci_ng.Prelude.Int.{ℤ, pos, negsuc, ◌≤ℤ◌, ◌==ℤ◌}
use tuxanci_ng.IdManager.{IdManager, max_id, id_get_newcount}
use tuxanci_ng.IdManager.Counts.{count_of, IsDistinct}
use tuxanci_ng.IdManager.Fresh.{id_get_newcount_lem, id_of_draw}
use tuxanci_ng.CheckFront.{
  Check, Front, type_simple, type_check, check_front_msg_add, check_front_event,
}
use tuxanci_ng.CheckFront.Laws.{
  Backs, AreSound, AreWaiting, held, check_front_event-Backs, check_front_msg_add-Backs,
}
use tuxanci_ng.Protect.{Protect, new_protect, refresh_last_move}
use tuxanci_ng.Protect.Laws.{move, made, called, Reachable-count}

-- Two ids in use, 7 twice; random() gives 6, 41, 42, ...
abbrev draws_of : ℕ → ℕ
draws_of zero = 6
draws_of (suc n) = 41 + n

abbrev in_use : IdManager
in_use = record {
  list_id = record { id = pos 7; count = pos 2 } ∷ record { id = pos 9; count = pos 1 } ∷ [];
  draws = draws_of;
}

in_use-IsDistinct : IsDistinct in_use.list_id
unfolding count_of
in_use-IsDistinct = (refl, (refl, tt))

seven_twice : count_of (pos 7) in_use.list_id ≡ some (pos 2)
unfolding count_of
seven_twice = refl

nine_once : count_of (pos 9) in_use.list_id ≡ some (pos 1)
unfolding count_of
nine_once = refl

five_free : count_of (pos 5) in_use.list_id ≡ none
unfolding count_of
five_free = refl

second_draw_free : count_of (id_of_draw (in_use.draws 1)) in_use.list_id ≡ none
unfolding count_of
second_draw_free = refl

id_get_newcount_lem_example :
    (id : ℤ) × (m' : IdManager) × (id_get_newcount 2 (pos 1) in_use ≡ ok (id, m'))
    × (pos 1 ≤ℤ id)
    × (id ≤ℤ pos max_id)
    × (count_of id in_use.list_id ≡ none)
    × IsDistinct m'.list_id
    × ((j : ℤ)
        → count_of j m'.list_id ≡ (if id ==ℤ j then some (pos 1) else count_of j in_use.list_id))
id_get_newcount_lem_example =
    id_get_newcount_lem 2 1 (pos 1) in_use in_use-IsDistinct (omega arith) (omega arith)
      second_draw_free

-- A simple message and a checked one that holds a count of the id 7 and was sent 30 times.
abbrev waiting : List (Check ℕ)
waiting =
    record { msg = 1; time = 0; id = negsuc 0; count = 0; type_of = type_simple }
    ∷ record { msg = 2; time = 0; id = pos 7; count = 30; type_of = type_check }
    ∷ []

waiting-AreSound : AreSound waiting
unfolding AreSound
waiting-AreSound = (inl refl, (inr (refl, omega arith), tt))

waiting-Backs : Backs in_use (λ k. held k waiting)
unfolding held count_of
waiting-Backs = record {
  distinct = in_use-IsDistinct;
  backed = λ k h. elim (Bool-cases (pos 7 ==ℤ k)) [
    | inl seven ↦ rw seven (2, refl, omega arith)
    | inr other ↦ let nothing_held : held k waiting ≡ 0 = rw other in absurd (omega arith)
  ];
}

check_front_event-Backs_example :
    (list' : List (Check ℕ)) × (s' : Front ℕ) × (check_front_event waiting 500
        (record { sent = []; manager = in_use })
      ≡ ok (list', s'))
    × AreWaiting list'
    × Backs s'.manager (λ k. held k list')
check_front_event-Backs_example =
    check_front_event-Backs waiting 500 (record { sent = []; manager = in_use }) waiting-AreSound
      waiting-Backs

check_front_msg_add-Backs_example :
    (list' : List (Check ℕ)) × (m' : IdManager) × (check_front_msg_add waiting 3 type_check
        (pos 9)
        500
        in_use
      ≡ ok (list', m'))
    × (count_of (pos 9) m'.list_id ≡ some (pos 2))
    × Backs m' (λ k. held k list')
check_front_msg_add-Backs_example =
    check_front_msg_add-Backs waiting 3 (pos 9) 500 1 in_use waiting-Backs nine_once

abbrev ticking : ℕ → ℕ
ticking n = 9000 + n

Reachable-count_example : (refresh_last_move (new_protect ticking).0 ticking).0.count < 10
Reachable-count_example =
    Reachable-count (refresh_last_move (new_protect ticking).0 ticking).0
      (called (made ticking) (move ticking))

abbrev lost : Protect
lost = record { last_ping = 100; last_move = 100; avarage = 0; count = 0; is_down = true }
