-- ===== src/Index/Laws.antt =====
-- src/base/index.c: each operation, with its debug checks, against the finite map of Table.
use tuxanci_ng.Prelude.{
  ℕ, suc, ◌*◌, ◌<◌, ◌≡◌, sym, ap, ◌∙◌, inl, inr, ◌≢◌, List, true, false, none, some, ok, err,
  aborted, arith, if◌then◌else◌, leb, length, get_elem?-some, Bool-cases,
}
use tuxanci_ng.Prelude.Int.{ℤ, pos, negsuc, ◌-ℤ◌, ◌==ℤ◌}
use tuxanci_ng.Memory.{load}
use tuxanci_ng.Sequence.{insert_at}
use tuxanci_ng.Index.{IndexItem, index_add, index_get, index_del, delete_item}
use tuxanci_ng.Index.Keys.{IsSorted}
use tuxanci_ng.Index.Bisect.{last}
use tuxanci_ng.Index.Insert.{add_loop-Splits}
use tuxanci_ng.Index.Duplicate.{add_loop-duplicate}
use tuxanci_ng.Index.Offset.{at_place, nowhere, get_offset-Located}
use tuxanci_ng.Index.Table.{
  lookup, insert, erase, lookup-none, lookup_nowhere, insert-IsSorted, insert_at-insert,
  check_list-IsSorted, lookup-get, remove_at-erase, erase-absent, lookup-insert, erase-IsSorted,
  lookup-erase,
}

is_place : (p : ℕ) → (pos p ==ℤ negsuc 0) ≡ false
is_place p = ground arith

module _ {ℓ} {D : Type ℓ} where
  -- index_add of a key that is not there terminates, passes checkList, and inserts in order.
  pub index_add-fresh :
      (l : List (IndexItem D)) (k : ℤ) (d : D)
      → IsSorted l
      → lookup k l ≡ none
      → index_add l k d ≡ ok (insert (record { key = k; object = d }) l)
  unfolding index_add
  index_add-fresh l k d s fresh =
      let item : IndexItem D = record { key = k; object = d } in
      let whole : last 0 (length l) ≡ pos (length l) -ℤ pos 1 =
        ap (λ (m : ℕ). pos m -ℤ pos 1) (omega arith) in
      let (p, split, run) =
        add_loop-Splits (suc (length l * 5)) 0 0 (length l) l item s
          (λ i x e. lookup-none k l i x fresh e) (omega arith) (omega arith)
          (record {
            ordered = omega arith;
            within = omega arith;
            below = λ i x h e. absurd (omega arith);
            above = λ i x h e. absurd (omega (arith, get_elem?-some l i e));
          }) in
      let there : insert_at l p item ≡ insert item l =
        insert_at-insert item l p split.within split.below split.above in
      rw (← whole) (
        rw (run, there) (rw (check_list-IsSorted (insert item l) (insert-IsSorted item l s fresh))))

  -- On a sorted list, index_add of a key that is there never inserts: the debug counter aborts the program.
  pub index_add-duplicate :
      (l : List (IndexItem D)) (k : ℤ) (d : D)
      → IsSorted l
      → lookup k l ≢ none
      → index_add l k d ≡ err aborted
  unfolding index_add
  index_add-duplicate l k d s there =
      let whole : last 0 (length l) ≡ pos (length l) -ℤ pos 1 =
        ap (λ (m : ℕ). pos m -ℤ pos 1) (omega arith) in
      let (o, run, loc) = get_offset-Located l k s in
      elim loc [
        | nowhere e h ↦ absurd (there (lookup_nowhere k l h))
        | at_place p x e here same ↦
            let inside : p < length l = get_elem?-some l p here in
            rw (← whole) (
              rw (
                add_loop-duplicate (suc (length l * 5)) 0 0 (length l) l
                  (record { key = k; object = d }) x p s here same (omega arith) (omega arith)
                  (omega arith) (omega arith) (omega arith)))
      ]

  pub index_get_lem :
      (l : List (IndexItem D)) (k : ℤ) → IsSorted l → index_get l k ≡ ok (lookup k l)
  unfolding index_get load
  index_get_lem l k s =
      let (o, run, loc) = get_offset-Located l k s in
      elim loc [
        | nowhere e h ↦ rw (run, e) (ap ok (sym (lookup_nowhere k l h)))
        | at_place p x e here same ↦
            rw (run, e)
              (rw (here, is_place p)
                (ap ok (sym (lookup-get l p x s here) ∙ ap (λ t. lookup t l) same)))
      ]

  pub index_del_lem : (l : List (IndexItem D)) (k : ℤ) → IsSorted l → index_del l k ≡ ok (erase k l)
  unfolding index_del delete_item
  index_del_lem l k s =
      let (o, run, loc) = get_offset-Located l k s in
      elim loc [
        | nowhere e h ↦ rw (run, e) (ap ok (sym (erase-absent k l (lookup_nowhere k l h))))
        | at_place p x e here same ↦
            let fits : leb (suc p) (length l) ≡ true = ground (arith, get_elem?-some l p here) in
            rw (run, e)
              (rw (fits, is_place p)
                (ap ok (remove_at-erase l p x s here ∙ ap (λ t. erase t l) same)))
      ]

  -- On a sorted list, after index_add of a key k that was absent, index_get returns the new object for k, and for any
  -- other key what it returned before; the list stays sorted.
  pub index_get-index_add :
      (l : List (IndexItem D)) (k j : ℤ) (d : D)
      → IsSorted l
      → lookup k l ≡ none
      → (l' : List (IndexItem D)) × (index_add l k d ≡ ok l')
        × IsSorted l'
        × (index_get l' j ≡ (if k ==ℤ j then ok (some d) else index_get l j))
  index_get-index_add l k j d s fresh =
      let item : IndexItem D = record { key = k; object = d } in
      let sorted : IsSorted (insert item l) = insert-IsSorted item l s fresh in
      (
        insert item l,
        index_add-fresh l k d s fresh,
        sorted,
        rw
            (
              index_get_lem (insert item l) j sorted,
              index_get_lem l j s,
              lookup-insert j item l fresh,
            )
            (elim (Bool-cases (k ==ℤ j)) [ inl e ↦ rw e | inr e ↦ rw e ]),
      )

  -- On a sorted list, index_del removes the key k, keeps every other key, and keeps the list sorted.
  pub index_get-index_del :
      (l : List (IndexItem D)) (k j : ℤ)
      → IsSorted l
      → (l' : List (IndexItem D)) × (index_del l k ≡ ok l')
        × IsSorted l'
        × (index_get l' j ≡ (if k ==ℤ j then ok none else index_get l j))
  index_get-index_del l k j s =
      let sorted : IsSorted (erase k l) = erase-IsSorted k l s in
      (
        erase k l,
        index_del_lem l k s,
        sorted,
        rw (index_get_lem (erase k l) j sorted, index_get_lem l j s, lookup-erase j k l s)
            (elim (Bool-cases (k ==ℤ j)) [ inl e ↦ rw e | inr e ↦ rw e ]),
      )
