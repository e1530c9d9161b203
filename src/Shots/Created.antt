-- ===== src/Shots/Created.antt =====
-- src/base/shot.c: a new shot among the others.
use tuxanci_ng.Prelude.{
  ℕ, ◌≡◌, refl, sym, ap, ap₂, subst, ◌∙◌, inl, inr, List, Bool, true, false, none, some, ok, arith,
  if◌then◌else◌, ◌==◌, ==_iff, Bool-cases, Option-cases,
}
use tuxanci_ng.Prelude.Int.{ℤ, pos, ◌==ℤ◌}
use tuxanci_ng.IdManager.{IdManager}
use tuxanci_ng.IdManager.Counts.{count_of, IsDistinct}
use tuxanci_ng.Index.Table.{lookup}
use tuxanci_ng.Space.{Space, space_add, visited, get_segment}
use tuxanci_ng.Space.Zones.{count, occ}
use tuxanci_ng.Space.Invariant.{is_it, registered, zones_of, IsConsistent, space_add-IsConsistent}
use tuxanci_ng.Tux.{Shot, tux_kind, shot_kind}
use tuxanci_ng.Shots.{Shots}
use tuxanci_ng.Shots.Flight.{Flies}
use tuxanci_ng.Shots.Making.{written}

module _ (s : Shots) (f : Flies s) (new : ℕ) (shot : Shot)
    (fresh : registered shot_kind s.heap s.space new ≡ false)
    (free : count_of shot.id s.ids.list_id ≡ none) where
  held :
      (k : ℤ) (this : ℕ)
      → lookup k s.space.list_index ≡ some this
      → registered shot_kind s.heap s.space this ≡ true
  unfolding registered is_it shot_kind
  held k this there =
      let self : (this == this) ≡ true = (==_iff this this).1 refl in
      let found : lookup (s.heap this).id s.space.list_index ≡ some this =
        ap (λ (i : ℤ). lookup i s.space.list_index) (f.consistent.keyed k this there) ∙ there in
      rw found self

  -- No shot of the space has the id of the new one.
  id_free : lookup shot.id s.space.list_index ≡ none
  unfolding shot_kind
  id_free = elim (Option-cases (lookup shot.id s.space.list_index)) [
    | inl absent ↦ absent
    | inr (this, there) ↦
        let same : (s.heap this).id ≡ shot.id = f.consistent.keyed shot.id this there in
        let (k, e) = f.counted this (held shot.id this there) in
        cc (sym free ∙ ap (λ (i : ℤ). count_of i s.ids.list_id) (sym same) ∙ e)
  ]

  heap_other : (this : ℕ) → (this == new) ≡ false → written s.heap new shot this ≡ s.heap this
  heap_other this other = rw other refl

  registered_other :
      (this : ℕ)
      → (this == new) ≡ false
      → registered shot_kind (written s.heap new shot) s.space this
        ≡ registered shot_kind s.heap s.space this
  unfolding registered
  registered_other this other =
      ap (λ (o : Shot). is_it (lookup (shot_kind.get_status o).id s.space.list_index) this)
        (heap_other this other)

  registered_new : registered shot_kind (written s.heap new shot) s.space new ≡ false
  unfolding registered shot_kind is_it
  registered_new =
      let self : (new == new) ≡ true = (==_iff new new).1 refl in rw self (rw id_free refl)

  cells : Shot → List (ℤ × ℤ)
  cells o =
      let t = shot_kind.get_status o in
      visited s.space.grid (get_segment s.space.grid t.x t.y t.w t.h)

  -- The old space with the new shot in memory.
  written-IsConsistent : IsConsistent shot_kind (written s.heap new shot) s.space
  unfolding cells
  written-IsConsistent = record {
    sorted = f.consistent.sorted;
    keyed = λ k this there. elim (Bool-cases (this == new)) [
      | inl same ↦ cc (
          sym fresh
          ∙ ap (registered shot_kind s.heap s.space) (sym ((==_iff this new).0 same))
          ∙ held k this there)
      | inr other ↦
          ap (λ (o : Shot). (shot_kind.get_status o).id) (heap_other this other)
          ∙ f.consistent.keyed k this there
    ];
    placed = λ this j i. elim (Bool-cases (this == new)) [
      | inl same ↦
          let none_there : count new (s.space.zone j i) ≡ 0 =
            f.consistent.placed new j i ∙ (rw fresh refl) in
          let at_new : count new (s.space.zone j i) ≡ (
              if registered shot_kind (written s.heap new shot) s.space new
              then occ j i (zones_of shot_kind (written s.heap new shot) s.space new)
              else 0) =
            none_there ∙ sym (rw registered_new refl) in
          subst
            (λ t. count t (s.space.zone j i) ≡ (
              if registered shot_kind (written s.heap new shot) s.space t
              then occ j i (zones_of shot_kind (written s.heap new shot) s.space t)
              else 0))
            (sym ((==_iff this new).0 same)) at_new
      | inr other ↦
          f.consistent.placed this j i
          ∙ ap₂ (λ (b : Bool) (o : Shot). if b then occ j i (cells o) else 0)
              (sym (registered_other this other)) (sym (heap_other this other))
    ];
  }

  written_new : written s.heap new shot new ≡ shot
  written_new = let self : (new == new) ≡ true = (==_iff new new).1 refl in rw self refl

  module _ (ids : IdManager) (distinct : IsDistinct ids.list_id)
      (counts : (j : ℤ)
        → count_of j ids.list_id
          ≡ (if shot.id ==ℤ j then some (pos 1) else count_of j s.ids.list_id)) where
    -- Every id that was counted still is.
    still_counted :
        (j k : ℤ) → count_of j s.ids.list_id ≡ some k → (c : ℤ) × (count_of j ids.list_id ≡ some c)
    still_counted j k e = elim (Bool-cases (shot.id ==ℤ j)) [
      | inl same ↦ (pos 1, counts j ∙ (rw same refl))
      | inr other ↦ (k, counts j ∙ (rw other e))
    ]

    pub space_add-Flies :
        (space : Space) × (space_add shot_kind (written s.heap new shot) new s.space ≡ ok space)
        × Flies (record { heap = written s.heap new shot; space = space; ids = ids })
        × ((this : ℕ)
            → registered shot_kind (written s.heap new shot) space this
              ≡ (if new == this then true else registered shot_kind s.heap s.space this))
    unfolding shot_kind
    space_add-Flies =
        let (space, added, grid, c, reg) =
          space_add-IsConsistent shot_kind (written s.heap new shot) s.space new
            written-IsConsistent
            (ap (λ (o : Shot). lookup o.id s.space.list_index) written_new ∙ id_free) in
        let reg' : (this : ℕ)
            → registered shot_kind (written s.heap new shot) space this
              ≡ (if new == this then true else registered shot_kind s.heap s.space this) =
          λ (this : ℕ). reg this ∙ (elim (Bool-cases (new == this)) [
            | inl same ↦ rw same refl
            | inr other ↦ rw other (registered_other this (ground arith))
          ]) in
        (
          space,
          added,
          record {
            consistent = c;
            distinct = distinct;
            counted = λ this there. elim (Bool-cases (this == new)) [
              | inl same ↦
                  let e : (written s.heap new shot this).id ≡ shot.id =
                    ap (λ t. (written s.heap new shot t).id) ((==_iff this new).0 same)
                    ∙ ap (λ (o : Shot). o.id) written_new in
                  let self : (shot.id ==ℤ shot.id) ≡ true = ground arith in
                  (
                    pos 1,
                    ap (λ (i : ℤ). count_of i ids.list_id) e ∙ counts shot.id ∙ (rw self refl),
                  )
              | inr other ↦
                  let other' : (new == this) ≡ false = ground arith in
                  let old : registered shot_kind (written s.heap new shot) space this
                      ≡ registered shot_kind s.heap s.space this =
                    reg' this ∙ (rw other' refl) in
                  let (k, e) = f.counted this (sym old ∙ there) in
                  let (k', e') = still_counted (s.heap this).id k e in
                  (k', ap (λ (o : Shot). count_of o.id ids.list_id) (heap_other this other) ∙ e')
            ];
          },
          reg',
        )
