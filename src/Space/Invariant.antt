-- ===== src/Space/Invariant.antt =====
-- src/base/space.c: when the grid and the index of a space agree; space_add and space_del.
use tuxanci_ng.Prelude.{
  ℕ, ◌+◌, ◌≡◌, refl, sym, ap, ◌∙◌, inl, inr, List, Bool, true, false, Option, none, some, ok, arith,
  if◌then◌else◌, ◌==◌, ==_iff, Bool-cases, Option-cases,
}
use mathlib.Core.Option.{some_inj}
use tuxanci_ng.Prelude.Int.{ℤ, ◌==ℤ◌, ==ℤ_iff}
use tuxanci_ng.Index.{IndexItem}
use tuxanci_ng.Index.Keys.{IsSorted}
use tuxanci_ng.Index.Table.{
  lookup, insert, erase, insert-IsSorted, lookup-insert, erase-IsSorted, lookup-erase,
}
use tuxanci_ng.Index.Laws.{index_add-fresh, index_del_lem}
use tuxanci_ng.Space.{Space, get_segment, visited, add_zones, space_add, space_del}
use tuxanci_ng.Space.Objects.{ObjectKind}
use tuxanci_ng.Space.Zones.{count, occ, count-add_zones, del_zones-count}

unfoldable pub is_it : Option ℕ → ℕ → Bool
is_it none this = false
is_it (some t) this = t == this

module _ {ℓ} {O : Type ℓ} (kind : ObjectKind O) where
  -- Whether the index gives the object `this` for its own id.
  unfoldable pub registered : (ℕ → O) → Space → ℕ → Bool
  registered heap p this = is_it (lookup (kind.get_status (heap this)).id p.list_index) this

  -- The zones that `this` stands on.
  abbrev pub zones_of : (ℕ → O) → Space → ℕ → List (ℤ × ℤ)
  zones_of heap p this =
      let s = kind.get_status (heap this) in visited p.grid (get_segment p.grid s.x s.y s.w s.h)

  -- The index is sorted, its keys are the ids of its objects, and a zone holds exactly the
  -- registered objects that stand on it, once for each visit.
  pub record IsConsistent (heap : ℕ → O) (p : Space) : Type 0 where
    pub sorted : IsSorted p.list_index
    pub keyed :
        (k : ℤ) (this : ℕ)
        → lookup k p.list_index ≡ some this
        → (kind.get_status (heap this)).id ≡ k
    pub placed :
        (this : ℕ) (j i : ℤ)
        → count this (p.zone j i)
          ≡ (if registered heap p this then occ j i (zones_of heap p this) else 0)

  -- Whether an object is registered, after its index entry was added or removed.
  registered-insert :
      (heap : ℕ → O) (p q : Space) (item this : ℕ)
      → lookup (kind.get_status (heap item)).id p.list_index ≡ none
      → q.list_index
        ≡ insert (record { key = (kind.get_status (heap item)).id; object = item }) p.list_index
      → registered heap q this ≡ (if item == this then true else registered heap p this)
  unfolding registered is_it
  registered-insert heap p q item this free e =
      let a = (kind.get_status (heap item)).id in
      let b = (kind.get_status (heap this)).id in
      rw (e, lookup-insert b (record { key = a; object = item }) p.list_index free)
        (elim (Bool-cases (item == this)) [
          | inl same ↦
              let ids : (a ==ℤ b) ≡ true =
                (==ℤ_iff a b).1
                  (ap (λ t. (kind.get_status (heap t)).id) ((==_iff item this).0 same)) in
              rw (ids, same)
          | inr other ↦ elim (Bool-cases (a ==ℤ b)) [
            | inl ids ↦
                let none_there : lookup b p.list_index ≡ none =
                  ap (λ t. lookup t p.list_index) (sym ((==ℤ_iff a b).0 ids)) ∙ free in
                rw (ids, other, none_there)
            | inr ids ↦ rw (ids, other)
          ]
        ])

  registered-erase :
      (heap : ℕ → O) (p q : Space) (item this : ℕ)
      → IsSorted p.list_index
      → lookup (kind.get_status (heap item)).id p.list_index ≡ some item
      → q.list_index ≡ erase (kind.get_status (heap item)).id p.list_index
      → registered heap q this ≡ (if item == this then false else registered heap p this)
  unfolding registered is_it
  registered-erase heap p q item this s there e =
      let a = (kind.get_status (heap item)).id in
      let b = (kind.get_status (heap this)).id in
      rw (e, lookup-erase b a p.list_index s)
        (elim (Bool-cases (item == this)) [
          | inl same ↦
              let ids : (a ==ℤ b) ≡ true =
                (==ℤ_iff a b).1
                  (ap (λ t. (kind.get_status (heap t)).id) ((==_iff item this).0 same)) in
              rw (ids, same)
          | inr other ↦ elim (Bool-cases (a ==ℤ b)) [
            | inl ids ↦
                let it : lookup b p.list_index ≡ some item =
                  ap (λ t. lookup t p.list_index) (sym ((==ℤ_iff a b).0 ids)) ∙ there in
                rw (ids, other, it) (sym other)
            | inr ids ↦ rw (ids, other)
          ]
        ])

  pub registered-lookup :
      (heap : ℕ → O) (p : Space) (this : ℕ)
      → registered heap p this ≡ true
      → lookup (kind.get_status (heap this)).id p.list_index ≡ some this
  unfolding registered is_it
  registered-lookup heap p this h =
      elim (Option-cases (lookup (kind.get_status (heap this)).id p.list_index)) [
        | inl e ↦ absurd (cc (rw e at h))
        | inr (t, e) ↦ e ∙ ap some ((==_iff t this).0 (rw e at h))
      ]

  -- The object that an index with the new entry gives for a key has that key as its id.
  keyed-insert :
      (heap : ℕ → O) (p : Space) (item : ℕ)
      → IsConsistent heap p
      → lookup (kind.get_status (heap item)).id p.list_index ≡ none
      → (k : ℤ) (this : ℕ)
      → lookup k
          (insert (record { key = (kind.get_status (heap item)).id; object = item }) p.list_index)
        ≡ some this
      → (kind.get_status (heap this)).id ≡ k
  keyed-insert heap p item c free k this e =
      let a = (kind.get_status (heap item)).id in
      let found : (if a ==ℤ k then some item else lookup k p.list_index) ≡ some this =
        sym (lookup-insert k (record { key = a; object = item }) p.list_index free) ∙ e in
      elim (Bool-cases (a ==ℤ k)) [
        | inl hit ↦
            let same : item ≡ this = some_inj.0 (rw hit at found) in
            ap (λ t. (kind.get_status (heap t)).id) (sym same) ∙ (==ℤ_iff a k).0 hit
        | inr miss ↦ c.keyed k this (rw miss at found)
      ]

  -- What a zone holds after an object that was not registered was added.
  placed-insert :
      (heap : ℕ → O) (p : Space) (item this : ℕ) (j i : ℤ) {r : Bool} {n : ℕ}
      → IsConsistent heap p
      → registered heap p item ≡ false
      → r ≡ (if item == this then true else registered heap p this)
      → n ≡ count this (p.zone j i) + (if item == this then occ j i (zones_of heap p item) else 0)
      → n ≡ (if r then occ j i (zones_of heap p this) else 0)
  placed-insert heap p item this j i {r} {n} c absent reg e = elim (Bool-cases (item == this)) [
    | inl hit ↦
        let same : item ≡ this = (==_iff item this).0 hit in
        let old : count this (p.zone j i) ≡ 0 =
          c.placed this j i
          ∙ ap (λ b. if b then occ j i (zones_of heap p this) else 0)
              (ap (λ t. registered heap p t) (sym same) ∙ absent) in
        let e' : n ≡ count this (p.zone j i) + occ j i (zones_of heap p item) = rw hit at e in
        let e'' : n ≡ occ j i (zones_of heap p item) = omega arith in
        let yes : r ≡ true = rw hit at reg in
        rw yes (e'' ∙ ap (λ t. occ j i (zones_of heap p t)) same)
    | inr miss ↦
        let e' : n ≡ count this (p.zone j i) + 0 = rw miss at e in
        let e'' : n ≡ count this (p.zone j i) = omega arith in
        let same : r ≡ registered heap p this = rw miss at reg in
        e''
        ∙ c.placed this j i
        ∙ ap (λ b. if b then occ j i (zones_of heap p this) else 0) (sym same)
  ]

  free-registered :
      (heap : ℕ → O) (p : Space) (item : ℕ)
      → lookup (kind.get_status (heap item)).id p.list_index ≡ none
      → registered heap p item ≡ false
  unfolding registered is_it
  free-registered heap p item free = rw free

  -- In a consistent space, space_add of an object whose id is free succeeds, registers it, keeps the others, and keeps
  -- the grid and the index consistent.
  pub space_add-IsConsistent :
      (heap : ℕ → O) (p : Space) (item : ℕ)
      → IsConsistent heap p
      → lookup (kind.get_status (heap item)).id p.list_index ≡ none
      → (q : Space) × (space_add kind heap item p ≡ ok q)
        × (q.grid ≡ p.grid)
        × IsConsistent heap q
        × ((this : ℕ)
            → registered heap q this ≡ (if item == this then true else registered heap p this))
  unfolding space_add
  space_add-IsConsistent heap p item c free =
      let a = (kind.get_status (heap item)).id in
      let entry : IndexItem ℕ = record { key = a; object = item } in
      let q : Space = record p {
        zone = add_zones item (zones_of heap p item) p.zone;
        list_index = insert (record { key = a; object = item }) p.list_index;
      } in
      let reg = λ (this : ℕ). registered-insert heap p q item this free refl in
      (
        q,
        rw (index_add-fresh p.list_index a item c.sorted free),
        refl,
        record {
          sorted = insert-IsSorted (record { key = a; object = item }) p.list_index c.sorted free;
          keyed = keyed-insert heap p item c free;
          placed = λ this j i.
              placed-insert heap p item this j i c (free-registered heap p item free) (reg this)
                (count-add_zones this item (zones_of heap p item) p.zone j i);
        },
        reg,
      )

  -- What a zone holds after a registered object was taken out of it.
  placed-erase :
      (heap : ℕ → O) (p : Space) (item this : ℕ) (j i : ℤ) {r : Bool} {n : ℕ}
      → IsConsistent heap p
      → registered heap p item ≡ true
      → r ≡ (if item == this then false else registered heap p this)
      → n + (if item == this then occ j i (zones_of heap p item) else 0) ≡ count this (p.zone j i)
      → n ≡ (if r then occ j i (zones_of heap p this) else 0)
  placed-erase heap p item this j i {r} {n} c there reg e = elim (Bool-cases (item == this)) [
    | inl hit ↦
        let same : item ≡ this = (==_iff item this).0 hit in
        let old : count this (p.zone j i) ≡ occ j i (zones_of heap p item) =
          ap (λ t. count t (p.zone j i)) (sym same)
          ∙ c.placed item j i
          ∙ ap (λ b. if b then occ j i (zones_of heap p item) else 0) there in
        let e' : n + occ j i (zones_of heap p item) ≡ count this (p.zone j i) = rw hit at e in
        let no : r ≡ false = rw hit at reg in rw no (omega arith)
    | inr miss ↦
        let e' : n + 0 ≡ count this (p.zone j i) = rw miss at e in
        let e'' : n ≡ count this (p.zone j i) = omega arith in
        let same : r ≡ registered heap p this = rw miss at reg in
        e''
        ∙ c.placed this j i
        ∙ ap (λ b. if b then occ j i (zones_of heap p this) else 0) (sym same)
  ]

  keyed-erase :
      (heap : ℕ → O) (p : Space) (a : ℤ)
      → IsConsistent heap p
      → (k : ℤ) (this : ℕ) → lookup k (erase a p.list_index) ≡ some this
      → (kind.get_status (heap this)).id ≡ k
  keyed-erase heap p a c k this e =
      let found : (if a ==ℤ k then none else lookup k p.list_index) ≡ some this =
        sym (lookup-erase k a p.list_index c.sorted) ∙ e in
      elim (Bool-cases (a ==ℤ k)) [
        | inl hit ↦ absurd (cc (rw hit at found))
        | inr miss ↦ c.keyed k this (rw miss at found)
      ]

  -- In a consistent space, space_del of a registered object succeeds: none of its assertions fails, the object is not
  -- registered afterwards, the others are as before, and the grid and the index stay consistent.
  pub space_del-IsConsistent :
      (heap : ℕ → O) (p : Space) (item : ℕ)
      → IsConsistent heap p
      → registered heap p item ≡ true
      → (q : Space) × (space_del kind heap item p ≡ ok q)
        × (q.grid ≡ p.grid)
        × (lookup (kind.get_status (heap item)).id q.list_index ≡ none)
        × IsConsistent heap q
        × ((this : ℕ)
            → registered heap q this ≡ (if item == this then false else registered heap p this))
  unfolding space_del
  space_del-IsConsistent heap p item c there =
      let a = (kind.get_status (heap item)).id in
      let (zone', run, counts) = del_zones-count item (zones_of heap p item) p.zone (λ j i.
        let n : count item (p.zone j i) ≡ occ j i (zones_of heap p item) =
          c.placed item j i ∙ ap (λ b. if b then occ j i (zones_of heap p item) else 0) there in
        omega arith) in
      let q : Space = record p { zone = zone'; list_index = erase a p.list_index } in
      let found : lookup a p.list_index ≡ some item = registered-lookup heap p item there in
      let reg = λ (this : ℕ). registered-erase heap p q item this c.sorted found refl in
      let self : (a ==ℤ a) ≡ true = (==ℤ_iff a a).1 refl in
      (
        q,
        rw (run, index_del_lem p.list_index a c.sorted),
        refl,
        lookup-erase a a p.list_index c.sorted ∙ rw self,
        record {
          sorted = erase-IsSorted a p.list_index c.sorted;
          keyed = keyed-erase heap p a c;
          placed =
              λ this j i. placed-erase heap p item this j i c there (reg this) (counts this j i);
        },
        reg,
      )
