-- ===== src/IdManager/Fresh.antt =====
-- src/base/idManager.c: findNewID and id_get_newcount.
use tuxanci_ng.Prelude.{
  ℕ, zero, suc, ◌+◌, ◌%◌, ◌≤◌, ◌<◌, ◌≡◌, sym, ◌∙◌, ◌⊎◌, inl, inr, ◌≢◌, List, true, false, none,
  some, ok, err, aborted, arith, if◌then◌else◌, leb, length,
}
use tuxanci_ng.Prelude.Int.{ℤ, pos, negsuc, ◌==ℤ◌, ◌≤ℤ◌}
use tuxanci_ng.Sequence.{add}
use tuxanci_ng.IdManager.{
  IdItem, IdManager, max_id, rest_of, id_is_register, find_new_id_loop, find_new_id,
  id_get_newcount,
}
use tuxanci_ng.IdManager.Counts.{
  count_of, IsDistinct, is_register_cases, count_of-add, add-IsDistinct,
}

-- The id that a draw of random() stands for.
abbrev pub id_of_draw : ℕ → ℤ
id_of_draw n = pos (n % max_id + 1)

is_free_iff :
    (list : List IdItem) (k : ℤ)
    → ((count_of k list ≡ none) × ((id_is_register list k ==ℤ negsuc 0) ≡ true))
      ⊎ ((count_of k list ≢ none) × ((id_is_register list k ==ℤ negsuc 0) ≡ false))
unfolding id_is_register
is_free_iff list k = elim (is_register_cases list 0 k) [
  | inl (e, absent) ↦ inl (absent, rw e)
  | inr r ↦ inr (λ e. cc (sym e ∙ r.counted), rw r.index (ground arith))
]

-- If one of the next draws is a free id, the loop ends, with an id in range that was free.
find_new_id_loop_lem :
    (fuel n : ℕ) (list : List IdItem) (draws : ℕ → ℕ)
    → n < fuel
    → count_of (id_of_draw (draws n)) list ≡ none
    → (id : ℤ) × (rest : ℕ → ℕ) × (find_new_id_loop fuel list draws ≡ ok (id, rest))
      × (count_of id list ≡ none)
      × (pos 1 ≤ℤ id)
      × (id ≤ℤ pos max_id)
unfolding find_new_id_loop
find_new_id_loop_lem zero n list draws h free = absurd (omega arith)
find_new_id_loop_lem (suc fuel) zero list draws h free =
    elim (is_free_iff list (id_of_draw (draws 0))) [
      | inl (absent, test) ↦
          (id_of_draw (draws 0), rest_of draws, rw test, absent, omega arith, omega arith)
      | inr (there, test) ↦ absurd (there free)
    ]
find_new_id_loop_lem (suc fuel) (suc n) list draws h free =
    elim (is_free_iff list (id_of_draw (draws 0))) [
      | inl (absent, test) ↦
          (id_of_draw (draws 0), rest_of draws, rw test, absent, omega arith, omega arith)
      | inr (there, test) ↦
          rw test (find_new_id_loop_lem fuel n list (rest_of draws) (omega arith) free)
    ]

-- In a table without a repeated id, id_get_newcount with fewer than MAX_ID - 1 ids registered, where one of the next `fuel` draws of
-- random() is a free id: it ends, the id is between 1 and MAX_ID and was free, it gets the count,
-- and the other ids keep theirs.
pub id_get_newcount_lem :
    (fuel n : ℕ) (count : ℤ) (m : IdManager)
    → IsDistinct m.list_id
    → length m.list_id < 999_999
    → n < fuel
    → count_of (id_of_draw (m.draws n)) m.list_id ≡ none
    → (id : ℤ) × (m' : IdManager) × (id_get_newcount fuel count m ≡ ok (id, m'))
      × (pos 1 ≤ℤ id)
      × (id ≤ℤ pos max_id)
      × (count_of id m.list_id ≡ none)
      × IsDistinct m'.list_id
      × ((j : ℤ) → count_of j m'.list_id ≡ (if id ==ℤ j then some count else count_of j m.list_id))
unfolding id_get_newcount find_new_id
id_get_newcount_lem fuel n count m d room h free =
    let (id, rest, run, absent, low, high) = find_new_id_loop_lem fuel n m.list_id m.draws h free in
    let item : IdItem = record { id = id; count = count } in
    let roomy : leb 999_999 (length m.list_id) ≡ false = ground arith in
    (
      id,
      record { list_id = add m.list_id item; draws = rest },
      rw roomy (rw run),
      low,
      high,
      absent,
      add-IsDistinct item m.list_id d absent,
      λ j. count_of-add j item m.list_id absent,
    )

-- With MAX_ID - 1 ids registered it aborts.
pub id_get_newcount_full :
    (fuel : ℕ) (count : ℤ) (m : IdManager)
    → 999_999 ≤ length m.list_id
    → id_get_newcount fuel count m ≡ err aborted
unfolding id_get_newcount find_new_id
id_get_newcount_full fuel count m h =
    let full : leb 999_999 (length m.list_id) ≡ true = ground arith in rw full
