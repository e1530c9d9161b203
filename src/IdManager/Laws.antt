-- ===== src/IdManager/Laws.antt =====
-- id_inc, id_del and id_replace as operations on the map from ids to counts.
use tuxanci_ng.Prelude.{
  ℕ, ◌≡◌, sym, ap, ◌∙◌, inl, inr, List, true, false, Option, none, some, Result, ok, err, assertion,
  arith, if◌then◌else◌, Bool-cases, get_elem?-some,
}
use tuxanci_ng.Prelude.Int.{ℤ, pos, negsuc, ◌+ℤ◌, ◌-ℤ◌, leb_ℤ, ◌==ℤ◌, ==ℤ_iff}
use tuxanci_ng.Memory.{load, store}
use tuxanci_ng.Memory.Blocks.{store-set}
use tuxanci_ng.Sequence.{remove_at}
use tuxanci_ng.IdManager.{IdItem, IdManager, id_is_register, id_inc, id_del, id_replace}
use tuxanci_ng.IdManager.Counts.{
  count_of, change, erase, IsDistinct, is_register_cases, count_of-change, change-IsDistinct,
  count_of-erase, erase-IsDistinct, count_of-rename, rename-IsDistinct,
}

-- The outcome of an operation on the table: it succeeds, no id is twice in the new table, and the
-- count of each id `j` there is `f j`.
pub record Gives (r : Result IdManager) (f : ℤ → Option ℤ) : Type 0 where
  pub after : IdManager
  pub runs : r ≡ ok after
  pub distinct : IsDistinct after.list_id
  pub counts : (j : ℤ) → count_of j after.list_id ≡ f j

is_place : (p : ℕ) → (pos p ==ℤ negsuc 0) ≡ false
is_place p = ground arith

-- Where an id has a count, id_is_register gives its index.
found :
    (list : List IdItem) (k c : ℤ)
    → count_of k list ≡ some c
    → (p : ℕ) × (item : IdItem) × (id_is_register list k ≡ pos p)
      × (load list (pos p) ≡ ok item)
      × (item.id ≡ k)
      × (item.count ≡ c)
      × ((y : IdItem) → store list (pos p) y ≡ ok (change k y list))
      × ((y : IdItem) → remove_at (change k y list) p ≡ erase k list)
unfolding id_is_register load
found list k c h = elim (is_register_cases list 0 k) [
  | inl (e, absent) ↦ absurd (cc (sym h ∙ absent))
  | inr r ↦ (
    r.place,
    r.item,
    r.index ∙ ap pos (omega arith),
    rw r.here,
    r.same,
    ground (arith, r.counted, h),
    λ y. store-set list r.place y (get_elem?-some list r.place r.here) ∙ ap ok (r.changed y),
    λ y. rw (← r.changed y) (r.erased y),
  )
]

not_found : (list : List IdItem) (k : ℤ) → count_of k list ≡ none → id_is_register list k ≡ negsuc 0
unfolding id_is_register
not_found list k h = elim (is_register_cases list 0 k) [
  | inl (e, absent) ↦ e
  | inr r ↦ absurd (cc (sym h ∙ r.counted))
]

-- In a table without a repeated id, id_inc adds one to the count of a registered id and leaves the others.
pub id_inc-Gives :
    (m : IdManager) (id c : ℤ)
    → IsDistinct m.list_id
    → count_of id m.list_id ≡ some c
    → Gives (id_inc id m) (λ j. if id ==ℤ j then some (c +ℤ pos 1) else count_of j m.list_id)
unfolding id_inc
id_inc-Gives m id c d h =
    let (p, item, index, at_p, same, counted, stored, erased) = found m.list_id id c h in
    let y : IdItem = record item { count = item.count +ℤ pos 1 } in
    record {
      after = record m { list_id = change id y m.list_id };
      runs = rw (index, is_place p) (rw (at_p, stored y));
      distinct = change-IsDistinct id y m.list_id same d;
      counts = λ j. rw (← counted) (count_of-change id j y m.list_id same (λ e. cc (sym h ∙ e)));
    }

-- In a table without a repeated id, id_del takes one off the count of a registered id, drops the id when none is left, and leaves
-- the others.
pub id_del-Gives :
    (m : IdManager) (id c : ℤ)
    → IsDistinct m.list_id
    → count_of id m.list_id ≡ some c
    → Gives (id_del id m) (λ j.
      if id ==ℤ j
      then (if leb_ℤ (c -ℤ pos 1) (pos 0) then none else some (c -ℤ pos 1))
      else count_of j m.list_id)
unfolding id_del
id_del-Gives m id c d h =
    let (p, item, index, at_p, same, counted, stored, erased) = found m.list_id id c h in
    let y : IdItem = record item { count = item.count -ℤ pos 1 } in
    elim (Bool-cases (leb_ℤ (c -ℤ pos 1) (pos 0))) [
      | inl gone ↦
          let gone' : leb_ℤ (item.count -ℤ pos 1) (pos 0) ≡ true = rw counted gone in
          record {
            after = record m { list_id = erase id m.list_id };
            runs = rw (index, is_place p) (rw (at_p, stored y) (rw (gone', erased y)));
            distinct = erase-IsDistinct id m.list_id d;
            counts = λ j. rw gone (count_of-erase id j m.list_id d);
          }
      | inr left ↦
          let left' : leb_ℤ (item.count -ℤ pos 1) (pos 0) ≡ false = rw counted left in
          record {
            after = record m { list_id = change id y m.list_id };
            runs = rw (index, is_place p) (rw (at_p, stored y) (rw left'));
            distinct = change-IsDistinct id y m.list_id same d;
            counts = λ j.
                rw left
                  (rw (← counted) (count_of-change id j y m.list_id same (λ e. cc (sym h ∙ e))));
          }
    ]

-- On an id that is not registered id_inc and id_del fail their assertion.
pub unregistered :
    (m : IdManager) (id : ℤ)
    → count_of id m.list_id ≡ none
    → (id_inc id m ≡ err assertion) × (id_del id m ≡ err assertion)
unfolding id_inc id_del
unregistered m id h = (rw (not_found m.list_id id h), rw (not_found m.list_id id h))

-- In a table without a repeated id, id_replace gives the entry of a registered id a new id that is not registered; its count and all
-- other entries stay.
pub id_replace-Gives :
    (m : IdManager) (old_id new_id c : ℤ)
    → IsDistinct m.list_id
    → count_of old_id m.list_id ≡ some c
    → count_of new_id m.list_id ≡ none
    → Gives
        (id_replace old_id new_id m)
        (λ j. if new_id ==ℤ j then some c else if old_id ==ℤ j then none else count_of j m.list_id)
unfolding id_replace
id_replace-Gives m old_id new_id c d h new =
    let (p, item, index, at_p, same, counted, stored, erased) = found m.list_id old_id c h in
    let y : IdItem = record item { id = new_id } in
    let other : (old_id ==ℤ new_id) ≡ false = elim (Bool-cases (old_id ==ℤ new_id)) [
      | inl e ↦
          absurd (cc (sym h ∙ ap (λ k. count_of k m.list_id) ((==ℤ_iff old_id new_id).0 e) ∙ new))
      | inr e ↦ e
    ] in
    record {
      after = record m { list_id = change old_id y m.list_id };
      runs =
          rw other (rw (index, is_place p, not_found m.list_id new_id new) (rw (at_p, stored y)));
      distinct = rename-IsDistinct old_id y m.list_id d (λ e. cc (sym h ∙ e)) new;
      counts =
          λ j. rw (← counted) (count_of-rename old_id j y m.list_id d (λ e. cc (sym h ∙ e)) new);
    }
