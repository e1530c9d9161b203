-- ===== src/Space/Move.antt =====
-- src/base/space.c: space_move_object, between zones and within them.
use tuxanci_ng.Prelude.{
  ℕ, ◌≡◌, refl, sym, ap, subst, ◌∙◌, ◌⊎◌, inl, inr, true, false, none, ok, arith, if◌then◌else◌,
  ◌==◌, ==_iff, Bool-cases,
}
use tuxanci_ng.Prelude.Int.{ℤ, ==ℤ_iff}
use tuxanci_ng.Index.Table.{lookup}
use tuxanci_ng.Space.{
  Space, Segment, get_segment, visited, space_move_object, set_object, moved_zone,
}
use tuxanci_ng.Space.Objects.{Status, ObjectKind}
use tuxanci_ng.Space.Zones.{occ}
use tuxanci_ng.Space.Invariant.{
  is_it, registered, zones_of, IsConsistent, space_add-IsConsistent, space_del-IsConsistent,
}

same_segment : (a b : Segment) → moved_zone a b ≡ false → a ≡ b
same_segment a b h =
    let ex : a.seg_x ≡ b.seg_x = (==ℤ_iff a.seg_x b.seg_x).0 (ground arith) in
    let ey : a.seg_y ≡ b.seg_y = (==ℤ_iff a.seg_y b.seg_y).0 (ground arith) in
    let ew : a.seg_w ≡ b.seg_w = (==ℤ_iff a.seg_w b.seg_w).0 (ground arith) in
    let eh : a.seg_h ≡ b.seg_h = (==ℤ_iff a.seg_h b.seg_h).0 (ground arith) in
    λ i. record { seg_x = ex i; seg_y = ey i; seg_w = ew i; seg_h = eh i }

module _ {ℓ} {O : Type ℓ} (kind : ObjectKind O) where
  abbrev status_of : (ℕ → O) → ℕ → Status
  status_of heap this = kind.get_status (heap this)

  -- A heap in which `item` alone has another place.
  pub record IsMoved (heap heap' : ℕ → O) (item : ℕ) : Type ℓ where
    pub ids : (this : ℕ) → (status_of heap' this).id ≡ (status_of heap this).id
    pub others : (this : ℕ) → (item == this) ≡ false → heap' this ≡ heap this

  set_object-IsMoved :
      (heap : ℕ → O) (item : ℕ) (x y : ℤ)
      → IsMoved heap
          (set_object kind heap item x y (status_of heap item).w (status_of heap item).h)
          item
  set_object-IsMoved heap item x y =
      let s = status_of heap item in
      record {
        ids = λ this. elim (Bool-cases (this == item)) [
          | inr other ↦ rw (status_of, other)
          | inl same ↦
              let e : this ≡ item = (==_iff this item).0 same in
              rw (status_of, same)
                (ap (λ t. t.id) (kind.get-set (heap item) x y)
                  ∙ ap (λ t. (status_of heap t).id) (sym e))
        ];
        others = λ this other.
            let other' : (this == item) ≡ false =
              ground (arith, ==_iff item this, ==_iff this item) in
            rw other';
      }

  pub registered-IsMoved :
      (heap heap' : ℕ → O) (item : ℕ) (p : Space) (this : ℕ)
      → IsMoved heap heap' item
      → registered kind heap' p this ≡ registered kind heap p this
  unfolding registered
  registered-IsMoved heap heap' item p this m =
      ap (λ t. is_it (lookup t p.list_index) this) (m.ids this)

  -- An object may get another place behind the back of a space that agrees with itself, when the
  -- object is not in it or stays in its zones.
  pub moved-IsConsistent :
      (heap heap' : ℕ → O) (item : ℕ) (p : Space)
      → IsConsistent kind heap p
      → IsMoved heap heap' item
      → ((registered kind heap p item ≡ false)
          ⊎ (zones_of kind heap' p item ≡ zones_of kind heap p item))
      → IsConsistent kind heap' p
  moved-IsConsistent heap heap' item p c m or = record {
    sorted = c.sorted;
    keyed = λ k this e. m.ids this ∙ c.keyed k this e;
    placed = λ this j i.
        c.placed this j i
        ∙ ap (λ r. if r then occ j i (zones_of kind heap p this) else 0)
            (sym (registered-IsMoved heap heap' item p this m))
        ∙ elim (Bool-cases (item == this)) [
          | inr other ↦
              ap
                (λ o.
                  if registered kind heap' p this
                  then occ j i (
                      visited p.grid
                        (let s = kind.get_status o in get_segment p.grid s.x s.y s.w s.h))
                  else 0)
                (sym (m.others this other))
          | inl same ↦ elim or [
            | inl absent ↦
                let gone : registered kind heap' p this ≡ false =
                  registered-IsMoved heap heap' item p this m
                  ∙ ap (λ t. registered kind heap p t) (sym ((==_iff item this).0 same))
                  ∙ absent in
                rw gone
            | inr stays ↦
                ap (λ l. if registered kind heap' p this then occ j i l else 0)
                  (subst (λ t. zones_of kind heap p t ≡ zones_of kind heap' p t)
                    ((==_iff item this).0 same) (sym stays))
          ]
        ];
  }

  -- In a consistent space, space_move_object of a registered object, to any place: it returns, the object has its new place
  -- and its old size, the same objects are registered, and the grid and the index stay consistent.
  pub space_move_object-IsConsistent :
      (heap : ℕ → O) (p : Space) (item : ℕ) (x y : ℤ)
      → IsConsistent kind heap p
      → registered kind heap p item ≡ true
      → (heap' : ℕ → O) × (q : Space) × (space_move_object kind heap item x y p ≡ ok (heap', q))
        × (kind.get_status (heap' item) ≡ record (kind.get_status (heap item)) { x = x; y = y })
        × IsConsistent kind heap' q
        × ((this : ℕ) → registered kind heap' q this ≡ registered kind heap p this)
  unfolding space_move_object
  space_move_object-IsConsistent heap p item x y c there =
      let s = status_of heap item in
      let heap' = set_object kind heap item x y s.w s.h in
      let m = set_object-IsMoved heap item x y in
      let self : (item == item) ≡ true = (==_iff item item).1 refl in
      let at_place : kind.get_status (heap' item) ≡ record s { x = x; y = y } =
        rw self (kind.get-set (heap item) x y) in
      elim (Bool-cases
        (moved_zone (get_segment p.grid s.x s.y s.w s.h) (get_segment p.grid x y s.w s.h))) [
          | inr stays ↦
              let same : visited p.grid (get_segment p.grid x y s.w s.h)
                  ≡ zones_of kind heap p item =
                ap (visited p.grid) (sym (same_segment _ _ stays)) in
              let zones : zones_of kind heap' p item ≡ zones_of kind heap p item =
                ap (λ t. visited p.grid (get_segment p.grid t.x t.y t.w t.h)) at_place ∙ same in
              (
                heap',
                p,
                rw stays,
                at_place,
                moved-IsConsistent heap heap' item p c m (inr zones),
                λ this. registered-IsMoved heap heap' item p this m,
              )
          | inl moves ↦
              let (q, del, grid, free, c', reg) = space_del-IsConsistent kind heap p item c there in
              let gone : registered kind heap q item ≡ false = reg item ∙ rw self in
              let c'' = moved-IsConsistent heap heap' item q c' m (inl gone) in
              let free' : lookup (status_of heap' item).id q.list_index ≡ none =
                ap (λ k. lookup k q.list_index) (m.ids item) ∙ free in
              let (r, add, grid', c3, reg') = space_add-IsConsistent kind heap' q item c'' free' in
              (
                heap',
                r,
                rw moves (rw del (rw add)),
                at_place,
                c3,
                λ this.
                    reg' this
                    ∙ ap (λ b. if item == this then true else b)
                        (registered-IsMoved heap heap' item q this m ∙ reg this)
                    ∙ again this there,
              )
        ]
    where
      again :
          (this : ℕ)
          → registered kind heap p item ≡ true
          → (if item == this
              then true
              else if item == this
              then false
              else registered kind heap p this)
            ≡ registered kind heap p this
      again this h = elim (Bool-cases (item == this)) [
        | inr other ↦ rw other
        | inl same ↦
            rw same (sym h ∙ ap (λ t. registered kind heap p t) ((==_iff item this).0 same))
      ]
