-- ===== src/Index.antt =====
-- src/base/index.c and src/base/index.h: the map from int keys to objects, a list kept sorted by
-- key and searched by bisection. `D` is the type of the object pointers.
pub mod Keys
pub mod Bisect
pub mod Insert
pub mod Place
pub mod Duplicate
pub mod Offset
pub mod Table
pub mod Laws
use tuxanci_ng.Prelude.{
  ℕ, zero, suc, ◌+◌, ◌*◌, List, [], ◌∷◌, ◌||◌, Option, none, some, Result, ok, err, aborted,
  out_of_bounds, out_of_fuel, ◌>>=◌, ◌>>◌, guard, if◌then◌else◌, leb, ◌==◌, length,
}
use tuxanci_ng.Prelude.Int.{ℤ, pos, negsuc, ◌+ℤ◌, ◌-ℤ◌, ◌/ℤ◌, ltb_ℤ, leb_ℤ, ◌==ℤ◌}
use tuxanci_ng.Memory.{load}
use tuxanci_ng.Sequence.{add, insert_at, remove_at}

pub record IndexItem {ℓ} (D : Type ℓ) : Type ℓ where
  pub key : ℤ
  pub object : D

-- min + (max - min) / 2
unfoldable pub midpoint : ℤ → ℤ → ℤ
midpoint min max = min +ℤ (max -ℤ min) /ℤ 2

module _ {ℓ} {D : Type ℓ} where
  -- checkList: the debug check that aborts where two neighbours are out of order.
  unfoldable pub check_list : List (IndexItem D) → Result (Unit {0})
  check_list (x ∷ y ∷ list) =
      let rest = check_list (y ∷ list) in if leb_ℤ y.key x.key then err aborted else rest
  check_list list = ok tt

  -- list_ins(list, n, item), whose index the caller computed as an int.
  unfoldable pub insert_item : List (IndexItem D) → ℤ → IndexItem D → Result (List (IndexItem D))
  insert_item list (pos i) item =
      if leb i (length list) then ok (insert_at list i item) else err out_of_bounds
  insert_item list (negsuc i) item = err out_of_bounds

  -- The for (;;) of index_add. `count` is its debug counter, which aborts the program when it
  -- reaches five times the length; the first argument bounds the rounds of the model.
  unfoldable pub add_loop :
      ℕ → ℕ → List (IndexItem D) → IndexItem D → ℤ → ℤ → Result (List (IndexItem D))
  add_loop zero count list item min max = err out_of_fuel
  add_loop (suc fuel) count list item min max =
      let point = midpoint min max in
      let above = add_loop fuel (count + 1) list item (point +ℤ pos 1) max in
      let below = add_loop fuel (count + 1) list item min (point -ℤ pos 1) in
      let again = add_loop fuel (count + 1) list item min max in
      if (count + 1) == (length list * 5)
      then err aborted
      else if ltb_ℤ max (pos 0)
      then insert_item list (pos 0) item
      else if leb_ℤ (pos (length list)) min
      then ok (add list item)
      else load list point >>= λ this.
          if ltb_ℤ max min
          then insert_item list point item
          else if ltb_ℤ this.key item.key
          then above
          else if ltb_ℤ item.key this.key
          then below
          else again

  unfoldable pub index_add : List (IndexItem D) → ℤ → D → Result (List (IndexItem D))
  index_add list key object = do
    list' ←
        add_loop (suc (length list * 5)) 0 list (record { key = key; object = object }) (pos 0)
          (pos (length list) -ℤ pos 1)
    check_list list'
    ok list'

  -- The for (;;) of getOffsetFromIndex.
  unfoldable pub offset_loop : ℕ → List (IndexItem D) → ℤ → ℤ → ℤ → Result ℤ
  offset_loop zero list key min max = err out_of_fuel
  offset_loop (suc fuel) list key min max =
      let point = midpoint min max in
      let above = offset_loop fuel list key (point +ℤ pos 1) max in
      let below = offset_loop fuel list key min (point -ℤ pos 1) in
      let again = offset_loop fuel list key min max in
      if ltb_ℤ max (pos 0) || (leb_ℤ (pos (length list)) point || ltb_ℤ max min)
      then ok (negsuc 0)
      else load list point >>= λ this.
          if key ==ℤ this.key
          then ok point
          else if ltb_ℤ this.key key
          then above
          else if ltb_ℤ key this.key
          then below
          else again

  unfoldable pub get_offset_from_index : List (IndexItem D) → ℤ → Result ℤ
  get_offset_from_index list key =
      if length list == 0
      then ok (negsuc 0)
      else offset_loop (suc (length list)) list key (pos 0) (pos (length list) -ℤ pos 1)

  -- `none` is NULL.
  unfoldable pub index_get : List (IndexItem D) → ℤ → Result (Option D)
  index_get list key = get_offset_from_index list key >>= λ offset.
      if offset ==ℤ negsuc 0 then ok none else (load list offset >>= λ this. ok (some this.object))

  -- list_del(list, n).
  unfoldable pub delete_item : List (IndexItem D) → ℤ → Result (List (IndexItem D))
  delete_item list (pos i) =
      if leb (suc i) (length list) then ok (remove_at list i) else err out_of_bounds
  delete_item list (negsuc i) = err out_of_bounds

  unfoldable pub index_del : List (IndexItem D) → ℤ → Result (List (IndexItem D))
  index_del list key = get_offset_from_index list key >>= λ offset.
      if offset ==ℤ negsuc 0 then ok list else delete_item list offset

  -- index_del_with_object: `fce` acts on the state `S` with the item before the item goes.
  unfoldable pub index_del_with_object {κ} :
      {S : Type κ}
      → (IndexItem D → S → S)
      → List (IndexItem D)
      → ℤ
      → S
      → Result (List (IndexItem D) × S)
  index_del_with_object fce list key s = get_offset_from_index list key >>= λ offset.
      if offset ==ℤ negsuc 0
      then ok (list, s)
      else (load list offset >>= λ this.
          delete_item list offset >>= λ list'. ok (list', fce this s))

  unfoldable pub index_action {κ} :
      {S : Type κ} → (IndexItem D → S → S) → List (IndexItem D) → S → S
  index_action fce [] s = s
  index_action fce (this ∷ list) s = index_action fce list (fce this s)
