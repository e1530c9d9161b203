-- ===== src/ArrayList.antt =====
-- src/base/list.c and src/base/list.h: the growable array of pointers that the other parts use.
-- `B` is the type of a `void *`, and `null` the pointer NULL (it also stands for the unspecified
-- contents of new memory). A list_t that was never filled has no block: `cells` is then empty.
pub mod Refine
pub mod Trace
use tuxanci_ng.Prelude.{
  ℕ, zero, suc, ◌+◌, ◌-◌, ◌≤◌, ◌≡◌, List, [], ◌∷◌, ◌++◌, Bool, true, false, ◌||◌, Option, none,
  some, Result, ok, err, assertion, ◌>>=◌, ◌>>◌, guard, if◌then◌else◌, leb, ltb, ◌==◌, length, take,
}
use tuxanci_ng.Prelude.Int.{ℤ, pos, negsuc, ◌+ℤ◌, ◌-ℤ◌, leb_ℤ, ltb_ℤ}
use tuxanci_ng.Memory.{malloc, load, store, memmove, memcpy}

pub record ListT {ℓ} (B : Type ℓ) : Type ℓ where
  pub cells : List B
  pub count : ℕ
  pub alloc : ℕ

abbrev pub list_alloc_limit : ℕ
list_alloc_limit = 16

-- assert(n >= 0 || n < p->count)
abbrev pub assert_index {ℓ} : {B : Type ℓ} → ListT B → ℤ → Result (Unit {0})
assert_index p n = guard (leb_ℤ (pos 0) n || ltb_ℤ n (pos p.count)) assertion

module _ {ℓ} {B : Type ℓ} (null : B) where
  unfoldable pub list_new : ListT B
  list_new = record { cells = []; count = 0; alloc = 0 }

  -- The copy shares no cell with the original; a block that is there is copied whole.
  unfoldable pub list_clone : ListT B → ListT B
  list_clone p = record { cells = take p.alloc p.cells; count = p.count; alloc = p.alloc }

  unfoldable pub list_add : ListT B → B → Result (ListT B)
  list_add p item =
      if p.alloc == 0
      then (do
        cells ← store (malloc list_alloc_limit null) (pos 0) item
        ok (record { cells = cells; count = 1; alloc = list_alloc_limit }))
      else if leb (p.count + 1) p.alloc
      then (do
        cells ← store p.cells (pos p.count) item
        ok (record p { cells = cells; count = p.count + 1 }))
      else (do
        cells ← store (p.cells ++ malloc list_alloc_limit null) (pos p.count) item
        ok (record { cells = cells; count = p.count + 1; alloc = p.alloc + list_alloc_limit }))

  unfoldable pub list_ins : ListT B → ℤ → B → Result (ListT B)
  list_ins p n item = do
    q ← list_add p null
    assert_index q n
    moved ← memmove q.cells (n +ℤ pos 1) n (pos q.count -ℤ pos 1 -ℤ n)
    cells ← store moved n item
    ok (record q { cells = cells })

  unfoldable pub list_get : ListT B → ℤ → Result B
  list_get p n = do assert_index p n; load p.cells n

  -- The loop of list_search, from index `i` with `rounds` cells left to look at.
  unfoldable pub search_from : (B → B → Bool) → List B → ℕ → ℕ → B → Result ℤ
  search_from eqb cells zero i n = ok (negsuc 0)
  search_from eqb cells (suc rounds) i n =
      let rest = search_from eqb cells rounds (i + 1) n in
      load cells (pos i) >>= λ c. if eqb c n then ok (pos i) else rest

  unfoldable pub list_search : (B → B → Bool) → ListT B → B → Result ℤ
  unfolding search_from
  list_search eqb p n = search_from eqb p.cells p.count 0 n

  -- The block after list_del shrank it: malloc, memcpy of the `count` live cells, free.
  unfoldable pub shrink : ListT B → Result (ListT B)
  shrink p =
      if ltb (p.count + list_alloc_limit) p.alloc
      then (do
        let alloc = p.alloc - list_alloc_limit
        cells ← memcpy (malloc alloc null) (pos 0) p.cells (pos 0) (pos p.count)
        ok (record p { cells = cells; alloc = alloc }))
      else ok p

  -- An empty list at -1 is a fault here: memmove is given the address before the block, which C
  -- leaves undefined even where it copies no bytes. So p->count is not 0 where it is counted down.
  unfoldable pub list_del : ListT B → ℤ → Result (ListT B)
  list_del p n = do
    assert_index p n
    cells ← memmove p.cells n (n +ℤ pos 1) (pos p.count -ℤ pos 1 -ℤ n)
    shrink (record p { cells = cells; count = p.count - 1 })

  -- fce(p->list[n]) acts on the state `S`; `none` is a NULL function.
  unfoldable pub list_del_item {κ} :
      {S : Type κ} → Option (B → S → S) → ListT B → ℤ → S → Result (ListT B × S)
  list_del_item none p n s = do assert_index p n; q ← list_del p n; ok (q, s)
  list_del_item (some fce) p n s = do
    assert_index p n
    item ← load p.cells n
    q ← list_del p n
    ok (q, fce item s)

  unfoldable pub list_do_empty : ListT B → ListT B
  list_do_empty p = record p { count = 0 }

  -- for (i = 0; i < p->count; i++) fce(p->list[i])
  unfoldable pub for_items {κ} : {S : Type κ} → (B → S → S) → List B → ℕ → ℕ → S → Result S
  for_items fce cells zero i s = ok s
  for_items fce cells (suc rounds) i s =
      load cells (pos i) >>= λ c. for_items fce cells rounds (i + 1) (fce c s)

  -- What list_destroy_item does beside freeing the list.
  unfoldable pub list_destroy_item {κ} : {S : Type κ} → ListT B → (B → S → S) → S → Result S
  unfolding for_items
  list_destroy_item p fce s = for_items fce p.cells p.count 0 s

  -- new->list[i] = fce(p->list[i]) for the `rounds` cells from `i` on.
  unfoldable pub clone_items : (B → B) → List B → List B → ℕ → ℕ → Result (List B)
  clone_items fce from to zero i = ok to
  clone_items fce from to (suc rounds) i = do
    c ← load from (pos i)
    to' ← store to (pos i) (fce c)
    clone_items fce from to' rounds (i + 1)

  unfoldable pub list_clone_item : ListT B → (B → B) → Result (ListT B)
  unfolding list_clone clone_items
  list_clone_item p fce = do
    cells ← clone_items fce p.cells (list_clone p).cells p.count 0
    ok (record (list_clone p) { cells = cells })
