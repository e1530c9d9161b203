-- ===== src/Shots/Turned.antt =====
-- src/base/shot.c: the turn of a laser, which changes the size of a shot of the space.
use tuxanci_ng.Prelude.{
  ℕ, ◌≡◌, refl, sym, ap, ◌∙◌, inl, inr, true, false, some, ok, arith, ◌==◌, ==_iff, Bool-cases,
}
use tuxanci_ng.Prelude.Int.{ℤ}
use tuxanci_ng.IdManager.Counts.{count_of}
use tuxanci_ng.Index.Table.{lookup}
use tuxanci_ng.Index.Laws.{index_get_lem}
use tuxanci_ng.Space.{space_get_object_id}
use tuxanci_ng.Space.Invariant.{
  registered, registered-lookup, space_add-IsConsistent, space_del-IsConsistent,
}
use tuxanci_ng.Space.Move.{IsMoved, registered-IsMoved, moved-IsConsistent}
use tuxanci_ng.Tux.{Shot, shot_kind}
use tuxanci_ng.Shots.{Shots}
use tuxanci_ng.Shots.Flight.{Flies}
use tuxanci_ng.Shots.Making.{written, turned, shot_transform_lasser}

module _ (s : Shots) (f : Flies s) (shot : ℕ) where
  abbrev after : ℕ → Shot
  after = written s.heap shot (turned (s.heap shot))

  ids_same : (this : ℕ) → (after this).id ≡ (s.heap this).id
  ids_same this = elim (Bool-cases (this == shot)) [
    | inl same ↦ rw same (ap (λ t. (s.heap t).id) (sym ((==_iff this shot).0 same)))
    | inr other ↦ rw other refl
  ]

  after-IsMoved : IsMoved shot_kind s.heap after shot
  unfolding shot_kind
  after-IsMoved = record {
    ids = ids_same;
    others = λ this other. let other' : (this == shot) ≡ false = ground arith in rw other' refl;
  }

  -- shot_transform_lasser of a shot of the space returns. It sets the size of that shot to that of a
  -- laser in its direction and changes no other shot; the same shots are in the space, and grid, index
  -- and ids are consistent for the new size.
  pub shot_transform_lasser-Flies :
      registered shot_kind s.heap s.space shot ≡ true
      → (s' : Shots) × (shot_transform_lasser shot s ≡ ok s')
        × Flies s'
        × (s'.heap ≡ written s.heap shot (turned (s.heap shot)))
        × ((this : ℕ)
            → registered shot_kind s'.heap s'.space this ≡ registered shot_kind s.heap s.space this)
  unfolding shot_transform_lasser space_get_object_id shot_kind
  shot_transform_lasser-Flies there =
      let found : lookup (s.heap shot).id s.space.list_index ≡ some shot =
        registered-lookup shot_kind s.heap s.space shot there in
      let asked =
        index_get_lem s.space.list_index (s.heap shot).id f.consistent.sorted ∙ ap ok found in
      let (space, del, grid, free, c, reg) =
        space_del-IsConsistent shot_kind s.heap s.space shot f.consistent there in
      let self : (shot == shot) ≡ true = (==_iff shot shot).1 refl in
      let gone : registered shot_kind s.heap space shot ≡ false = reg shot ∙ (rw self refl) in
      let c' = moved-IsConsistent shot_kind s.heap after shot space c after-IsMoved (inl gone) in
      let (space', added, grid', c'', reg') =
        space_add-IsConsistent shot_kind after space shot c'
          (ap (λ (i : ℤ). lookup i space.list_index) (ids_same shot) ∙ free) in
      let same_registered : (this : ℕ)
          → registered shot_kind after space' this ≡ registered shot_kind s.heap s.space this =
        λ (this : ℕ). reg' this ∙ (elim (Bool-cases (shot == this)) [
          | inl same ↦ rw same (
              sym (
                ap (registered shot_kind s.heap s.space) (sym ((==_iff shot this).0 same)) ∙ there))
          | inr other ↦ rw other (
              registered-IsMoved shot_kind s.heap after shot space this after-IsMoved
              ∙ reg this
              ∙ (rw other refl))
        ]) in
      (
        record { heap = after; space = space'; ids = s.ids },
        rw asked (rw del (rw added refl)),
        record {
          consistent = c'';
          distinct = f.distinct;
          counted = λ this held.
              let (k, e) = f.counted this (sym (same_registered this) ∙ held) in
              (k, ap (λ (i : ℤ). count_of i s.ids.list_id) (ids_same this) ∙ e);
        },
        refl,
        same_registered,
      )
