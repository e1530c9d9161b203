-- ===== src/IdManager.antt =====
-- src/base/idManager.c and src/base/idManager.h: the table of object ids with their reference counts.
-- random() is the stream `draws`, consumed from its head.
pub mod Counts
pub mod Laws
pub mod Fresh
use tuxanci_ng.Prelude.{
  ℕ, zero, suc, ◌+◌, ◌%◌, List, [], ◌∷◌, Result, ok, err, assertion, aborted, out_of_fuel, ◌>>=◌,
  if◌then◌else◌, leb, ltb, length, set,
}
use tuxanci_ng.Prelude.Int.{ℤ, pos, negsuc, ◌+ℤ◌, ◌-ℤ◌, leb_ℤ, ◌==ℤ◌}
use tuxanci_ng.Memory.{load, store}
use tuxanci_ng.Sequence.{add, remove_at}

abbrev pub max_id : ℕ
max_id = 1_000_000

pub record IdItem : Type 0 where
  pub id : ℤ
  pub count : ℤ

pub record IdManager : Type 0 where
  pub list_id : List IdItem
  pub draws : ℕ → ℕ

-- The stream behind its first draw.
abbrev pub rest_of : (ℕ → ℕ) → ℕ → ℕ
rest_of draws n = draws (suc n)

unfoldable pub id_init_list : (ℕ → ℕ) → IdManager
id_init_list draws = record { list_id = []; draws = draws }

-- The loop of id_is_register from index `i` on.
unfoldable pub is_register_from : List IdItem → ℕ → ℤ → ℤ
is_register_from [] i id = negsuc 0
is_register_from (this ∷ list) i id =
    if this.id ==ℤ id then pos i else is_register_from list (i + 1) id

unfoldable pub id_is_register : List IdItem → ℤ → ℤ
id_is_register list id = is_register_from list 0 id

-- The do-while of findNewID; the first argument bounds its rounds.
unfoldable pub find_new_id_loop : ℕ → List IdItem → (ℕ → ℕ) → Result (ℤ × (ℕ → ℕ))
find_new_id_loop zero list draws = err out_of_fuel
find_new_id_loop (suc fuel) list draws =
    let ret = pos (draws 0 % max_id + 1) in
    let again = find_new_id_loop fuel list (rest_of draws) in
    if id_is_register list ret ==ℤ negsuc 0 then ok (ret, rest_of draws) else again

unfoldable pub find_new_id : ℕ → IdManager → Result (ℤ × (ℕ → ℕ))
find_new_id fuel m =
    if leb 999_999 (length m.list_id) then err aborted else find_new_id_loop fuel m.list_id m.draws

unfoldable pub id_get_newcount : ℕ → ℤ → IdManager → Result (ℤ × IdManager)
id_get_newcount fuel count m = find_new_id fuel m >>= λ (id, draws).
    ok (id, record { list_id = add m.list_id (record { id = id; count = count }); draws = draws })

unfoldable pub id_get_new : ℕ → IdManager → Result (ℤ × IdManager)
id_get_new fuel m = id_get_newcount fuel (pos 1) m

unfoldable pub id_inc : ℤ → IdManager → Result IdManager
id_inc id m =
    let index = id_is_register m.list_id id in
    if index ==ℤ negsuc 0 then err assertion else (do
      this ← load m.list_id index
      list ← store m.list_id index (record this { count = this.count +ℤ pos 1 })
      ok (record m { list_id = list }))

-- list_del at the index of id_del.
abbrev pub delete_at : List IdItem → ℤ → List IdItem
delete_at list (pos i) = remove_at list i
delete_at list (negsuc i) = list

unfoldable pub id_del : ℤ → IdManager → Result IdManager
id_del id m =
    let index = id_is_register m.list_id id in
    if index ==ℤ negsuc 0
    then err assertion
    else (load m.list_id index >>= λ this.
        store m.list_id index (record this { count = this.count -ℤ pos 1 }) >>= λ list.
        if leb_ℤ (this.count -ℤ pos 1) (pos 0)
        then ok (record m { list_id = delete_at list index })
        else ok (record m { list_id = list }))

unfoldable pub id_replace : ℤ → ℤ → IdManager → Result IdManager
id_replace old_id new_id m =
    let index_old_id = id_is_register m.list_id old_id in
    let index_new_id = id_is_register m.list_id new_id in
    if old_id ==ℤ new_id
    then ok m
    else if index_old_id ==ℤ negsuc 0
    then err assertion
    else if index_new_id ==ℤ negsuc 0
    then (do
      this ← load m.list_id index_old_id
      list ← store m.list_id index_old_id (record this { id = new_id })
      ok (record m { list_id = list }))
    else err assertion
