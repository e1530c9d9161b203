-- ===== src/Tests/Containers.antt =====
-- Lists, buffers, indices, storages and timers at concrete inputs.
use mathlib.Core.Option
use tuxanci_ng.Prelude.{
  ℕ, ◌+◌, ◌≡◌, refl, inl, inr, ◌≢◌, List, [], ◌∷◌, none, some, ok, err, out_of_bounds, aborted,
  ◌==◌, arith,
}
use tuxanci_ng.Prelude.Int.{pos, negsuc}
use tuxanci_ng.ArrayList.{list_new, list_del, assert_index}
use tuxanci_ng.ArrayList.Refine.{list_new-Holds, list_del_outside}
use tuxanci_ng.ArrayList.Trace.{
  Call, adds, inserts, gets, searches, deletes, Reply, nothing, item, index, calls, seq_call,
  seq_calls, calls-new_refine,
}
use tuxanci_ng.Buffer.{BufferT, buffer_get_line}
use tuxanci_ng.Buffer.Queue
use tuxanci_ng.Buffer.Lines
use tuxanci_ng.Index.{IndexItem, index_add, index_get, index_del}
use tuxanci_ng.Index.Keys.{IsSorted}
use tuxanci_ng.Index.Table.{lookup}
use tuxanci_ng.Index.Laws.{index_add-duplicate, index_get-index_add, index_get-index_del}
use tuxanci_ng.Storage.{StorageItem, storage_add, storage_get, storage_del_all, same_text}
use tuxanci_ng.Storage.Laws.{storage_get-storage_add, storage_del_all_lem, others, members}
use tuxanci_ng.Timer.{MyTimer, timer_one, timer_periodic, timer_event}
use tuxanci_ng.Timer.Laws.{timer_event_lem, run_due, survivors, ids, AreTyped}

abbrev some_calls : List (Call ℕ)
some_calls = adds 7 ∷ adds 8 ∷ inserts 1 9 ∷ gets 1 ∷ deletes 0 ∷ searches 8 ∷ []

abbrev some_replies : List (Reply ℕ)
some_replies = nothing ∷ nothing ∷ nothing ∷ item 9 ∷ nothing ∷ index (pos 1) ∷ []

abbrev null : ℕ
null = 0

some_calls_ok : seq_calls null ◌==◌ [] some_calls ≡ some some_replies
unfolding seq_calls seq_call Option.bind
some_calls_ok = refl

calls-new_refine_example : calls null ◌==◌ (list_new null) some_calls ≡ ok some_replies
calls-new_refine_example = calls-new_refine null ◌==◌ some_calls some_replies some_calls_ok

list_del_outside_example :
    (assert_index (list_new null) (negsuc 2) ≡ ok tt)
    × (list_del null (list_new null) (negsuc 2) ≡ err out_of_bounds)
list_del_outside_example =
    list_del_outside null (list_new null) [] (negsuc 2) (list_new-Holds null)
      (inr (inl (omega arith)))

-- A buffer of 8 bytes that holds the line "ab" and a piece of the next one.
abbrev text : List ℕ
text = 97 ∷ 98 ∷ 10 ∷ 99 ∷ []

abbrev full : BufferT
full = record { bytes = 97 ∷ 98 ∷ 10 ∷ 99 ∷ 0 ∷ 0 ∷ 0 ∷ 0 ∷ []; size = 4; alloc = 8 }

full-Holds : Queue.Holds full text
full-Holds = record { sized = refl; fits = omega arith; small = omega arith; live = refl }

abbrev room_for : List ℕ
room_for = 0 ∷ 0 ∷ 0 ∷ 0 ∷ 0 ∷ []

buffer_get_line-Holds_example :
    (q : BufferT) × (buffer_get_line full room_for (pos 5)
      ≡ ok (pos 3, 97 ∷ 98 ∷ 10 ∷ 0 ∷ 0 ∷ [], q))
    × Queue.Holds q (99 ∷ [])
buffer_get_line-Holds_example =
    Lines.buffer_get_line-Holds full room_for 5 (omega arith) (97 ∷ 98 ∷ []) (99 ∷ []) full-Holds
      (omega arith, (omega arith, tt)) (omega arith) (omega arith)

abbrev piece : BufferT
piece = record { bytes = 97 ∷ 98 ∷ 0 ∷ []; size = 2; alloc = 3 }

-- An index with the keys 3 and 5.
abbrev two : List (IndexItem ℕ)
two = record { key = pos 3; object = 30 } ∷ record { key = pos 5; object = 50 } ∷ []

two-IsSorted : IsSorted two
two-IsSorted = ((omega arith, tt), (tt, tt))

four_free : lookup (pos 4) two ≡ none
unfolding lookup
four_free = refl

index_get-index_add_example :
    (l' : List (IndexItem ℕ)) × (index_add two (pos 4) 40 ≡ ok l')
    × IsSorted l'
    × (index_get l' (pos 5) ≡ index_get two (pos 5))
index_get-index_add_example = index_get-index_add two (pos 4) (pos 5) 40 two-IsSorted four_free

index_get-index_del_example :
    (l' : List (IndexItem ℕ)) × (index_del two (pos 3) ≡ ok l')
    × IsSorted l'
    × (index_get l' (pos 3) ≡ ok none)
index_get-index_del_example = index_get-index_del two (pos 3) (pos 3) two-IsSorted

five_there : lookup (pos 5) two ≢ none
unfolding lookup
five_there e = absurd (cc (e))

index_add-duplicate_example : index_add two (pos 5) 51 ≡ err aborted
index_add-duplicate_example = index_add-duplicate two (pos 5) 51 two-IsSorted five_there

-- Two images and a sound.
abbrev store_items : List (StorageItem ℕ)
store_items =
    record { name = 97 ∷ []; group = 1 ∷ []; data_of = 10 }
    ∷ record { name = 97 ∷ []; group = 2 ∷ []; data_of = 20 }
    ∷ record { name = 98 ∷ []; group = 1 ∷ []; data_of = 11 }
    ∷ []

storage_get-storage_add_example :
    storage_get (storage_add store_items (2 ∷ []) (98 ∷ []) 21) (2 ∷ []) (98 ∷ []) ≡ some 21
unfolding storage_get same_text
storage_get-storage_add_example =
    storage_get-storage_add store_items (2 ∷ []) (98 ∷ []) (2 ∷ []) (98 ∷ []) 21

storage_del_all_lem_example :
    storage_del_all store_items (1 ∷ [])
    ≡ ok (record { name = 97 ∷ []; group = 2 ∷ []; data_of = 20 } ∷ [], 10 ∷ 11 ∷ [])
unfolding others members same_text
storage_del_all_lem_example = storage_del_all_lem store_items (1 ∷ [])

-- A one-shot task that is due at 500, a periodic one, and a one-shot that is not due, over a number.
abbrev tasks_of : List (MyTimer ℕ)
tasks_of =
    record { id = 0; fce = λ n. n + 1; type_of = timer_one; create_time = 100; time = 400 }
    ∷ record { id = 1; fce = λ n. n + 10; type_of = timer_periodic; create_time = 0; time = 50 }
    ∷ record { id = 2; fce = λ n. n + 100; type_of = timer_one; create_time = 400; time = 400 }
    ∷ []

abbrev at_500 : ℕ → ℕ
at_500 n = 500 + n

timer_event_lem_example :
    (list' : List (MyTimer ℕ)) × (clock' : ℕ → ℕ) × (timer_event tasks_of 0 at_500
      ≡ ok (list', (11, clock')))
    × (ids list' ≡ 1 ∷ 2 ∷ [])
unfolding run_due survivors AreTyped
timer_event_lem_example = timer_event_lem tasks_of 0 at_500 (inl refl, (inr refl, (inl refl, tt)))
