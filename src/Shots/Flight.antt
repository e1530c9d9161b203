-- ===== src/Shots/Flight.antt =====
-- src/base/shot.c: one step of the flight of a shot.
use mathlib.Core.Option.{some_inj}
use tuxanci_ng.Prelude.{
  ℕ, ◌≡◌, refl, sym, ap, ap₂, ◌∙◌, ◌⊎◌, inl, inr, true, false, not, ◌&&◌, Option, none, some, ok,
  if◌then◌else◌, ◌==◌, ==_iff, Bool-cases,
}
use tuxanci_ng.Prelude.Int.{ℤ, pos, ◌+ℤ◌, ◌-ℤ◌, leb_ℤ, ◌==ℤ◌, ==ℤ_iff}
use tuxanci_ng.IdManager.{IdManager}
use tuxanci_ng.IdManager.Counts.{count_of, IsDistinct}
use tuxanci_ng.IdManager.Laws.{id_del-Gives}
use tuxanci_ng.Index.Table.{lookup, erase}
use tuxanci_ng.Space.{Space, space_del}
use tuxanci_ng.Space.Objects.{Status}
use tuxanci_ng.Space.Actions.{space_del_with_item}
use tuxanci_ng.Space.Invariant.{registered, IsConsistent, registered-lookup, space_del-IsConsistent}
use tuxanci_ng.Space.Move.{space_move_object-IsConsistent}
use tuxanci_ng.Tux.{Shot, shot_kind, shot_get_status, shot_set_status}
use tuxanci_ng.Shots.{Shots, shot_destroy, has_left, action_move_shot}
use tuxanci_ng.Shots.Index.{index-space_del, heap-space_move_object, index-space_move_object}

-- A shot one step further.
abbrev pub flown : Shot → Shot
flown shot = record shot { x = shot.x +ℤ shot.px; y = shot.y +ℤ shot.py }

-- The space of the shots is consistent, and the table of ids counts the id of each shot in it.
pub record Flies (s : Shots) : Type 0 where
  pub consistent : IsConsistent shot_kind s.heap s.space
  pub distinct : IsDistinct s.ids.list_id
  pub counted :
      (this : ℕ)
      → registered shot_kind s.heap s.space this ≡ true
      → (c : ℤ) × (count_of (s.heap this).id s.ids.list_id ≡ some c)

-- A count after id_del, which takes the id out where none is left.
abbrev pub one_less : Option ℤ → Option ℤ
one_less none = none
one_less (some c) = if leb_ℤ (c -ℤ pos 1) (pos 0) then none else some (c -ℤ pos 1)

-- What action_moveShot does for a registered shot.
pub record Moves (arena_w arena_h : ℕ) (shot : ℕ) (s s' : Shots) : Type 0 where
  pub flies : Flies s'
  pub placed :
      (this : ℕ) → s'.heap this ≡ (if this == shot then flown (s.heap shot) else s.heap this)
  pub remains :
      (this : ℕ)
      → registered shot_kind s'.heap s'.space this ≡ (
          if shot == this
          then not (has_left arena_w arena_h (flown (s.heap shot)))
          else registered shot_kind s.heap s.space this)
  pub returned :
      (j : ℤ)
      → count_of j s'.ids.list_id ≡ (
          if has_left arena_w arena_h (flown (s.heap shot)) && ((s.heap shot).id ==ℤ j)
          then one_less (count_of j s.ids.list_id)
          else count_of j s.ids.list_id)
  pub index :
      (s'.space.list_index ≡ s.space.list_index)
      ⊎ (s'.space.list_index ≡ erase (s.heap shot).id s.space.list_index)

-- The facts about the shot once it is moved.
module _ (arena_w arena_h : ℕ) (shot : ℕ) (s : Shots) (f : Flies s)
    (there : registered shot_kind s.heap s.space shot ≡ true) (heap : ℕ → Shot) (space : Space)
    (moved : heap ≡ (λ this. if this == shot then flown (s.heap shot) else s.heap this))
    (c : IsConsistent shot_kind heap space)
    (reg : (this : ℕ)
      → registered shot_kind heap space this ≡ registered shot_kind s.heap s.space this)
    (index : space.list_index ≡ s.space.list_index) where
  ids_kept : (this : ℕ) → (heap this).id ≡ (s.heap this).id
  ids_kept this = ap (λ h. (h this).id) moved ∙ (elim (Bool-cases (this == shot)) [
    | inl same ↦ rw same (ap (λ t. (s.heap t).id) (sym ((==_iff this shot).0 same)))
    | inr other ↦ rw other refl
  ])

  shot_moved : heap shot ≡ flown (s.heap shot)
  shot_moved =
      let self : (shot == shot) ≡ true = (==_iff shot shot).1 refl in
      ap (λ h. h shot) moved ∙ (rw self refl)

  counted_moved :
      (this : ℕ)
      → registered shot_kind heap space this ≡ true
      → (k : ℤ) × (count_of (heap this).id s.ids.list_id ≡ some k)
  counted_moved this r =
      let (k, e) = f.counted this (sym (reg this) ∙ r) in
      (k, ap (λ (i : ℤ). count_of i s.ids.list_id) (ids_kept this) ∙ e)

  stays-Moves :
      has_left arena_w arena_h (heap shot) ≡ false
      → Moves arena_w arena_h shot s (record { heap = heap; space = space; ids = s.ids })
  stays-Moves stays = record {
    flies = record { consistent = c; distinct = f.distinct; counted = counted_moved };
    placed = λ this. ap (λ h. h this) moved;
    remains = λ this.
        let inside : has_left arena_w arena_h (flown (s.heap shot)) ≡ false =
          ap (has_left arena_w arena_h) (sym shot_moved) ∙ stays in
        elim (Bool-cases (shot == this)) [
          | inl same ↦ rw same (
              rw inside (
                ap (registered shot_kind heap space) (sym ((==_iff shot this).0 same))
                ∙ reg shot
                ∙ there))
          | inr other ↦ rw other (reg this)
        ];
    returned = λ j.
        let inside : has_left arena_w arena_h (flown (s.heap shot)) ≡ false =
          ap (has_left arena_w arena_h) (sym shot_moved) ∙ stays in
        rw inside refl;
    index = inl index;
  }

  other_id :
      (this : ℕ)
      → registered shot_kind heap space this ≡ true
      → (shot == this) ≡ false
      → ((heap shot).id ==ℤ (heap this).id) ≡ false
  unfolding shot_kind
  other_id this r other = elim (Bool-cases ((heap shot).id ==ℤ (heap this).id)) [
    | inr differs ↦ differs
    | inl same ↦
        let ids : (heap shot).id ≡ (heap this).id = (==ℤ_iff _ _).0 same in
        let both : some shot ≡ some this =
          sym (registered-lookup shot_kind heap space shot (reg shot ∙ there))
          ∙ ap (λ (i : ℤ). lookup i space.list_index) ids
          ∙ registered-lookup shot_kind heap space this r in
        cc (sym other ∙ (==_iff shot this).1 (some_inj.0 both))
  ]

  leaves-Moves :
      (left : Space) (ids : IdManager)
      → space_del shot_kind heap shot space ≡ ok left
      → IsConsistent shot_kind heap left
      → ((this : ℕ)
          → registered shot_kind heap left this
            ≡ (if shot == this then false else registered shot_kind heap space this))
      → IsDistinct ids.list_id
      → ((j : ℤ)
          → count_of j ids.list_id ≡ (
              if (heap shot).id ==ℤ j
              then one_less (count_of j s.ids.list_id)
              else count_of j s.ids.list_id))
      → has_left arena_w arena_h (heap shot) ≡ true
      → Moves arena_w arena_h shot s (record { heap = heap; space = left; ids = ids })
  unfolding shot_kind
  leaves-Moves left ids del c' reg' distinct counts leaves = record {
    flies = record {
      consistent = c';
      distinct = distinct;
      counted = λ this r. elim (Bool-cases (shot == this)) [
        | inl same ↦
            let gone : registered shot_kind heap left this ≡ false = reg' this ∙ (rw same refl) in
            cc (sym r ∙ gone)
        | inr other ↦
            let kept : registered shot_kind heap left this ≡ registered shot_kind heap space this =
              reg' this ∙ (rw other refl) in
            let r' : registered shot_kind heap space this ≡ true = sym kept ∙ r in
            let (k, e) = counted_moved this r' in
            (k, counts (heap this).id ∙ (rw (other_id this r' other) e))
      ];
    };
    placed = λ this. ap (λ h. h this) moved;
    remains = λ this.
        let outside : has_left arena_w arena_h (flown (s.heap shot)) ≡ true =
          ap (has_left arena_w arena_h) (sym shot_moved) ∙ leaves in
        reg' this ∙ (elim (Bool-cases (shot == this)) [
          | inl same ↦ rw same (rw outside refl)
          | inr other ↦ rw other (reg this)
        ]);
    returned = λ j.
        let outside : has_left arena_w arena_h (flown (s.heap shot)) ≡ true =
          ap (has_left arena_w arena_h) (sym shot_moved) ∙ leaves in
        counts j
        ∙ (rw outside (
            ap
              (λ (i : ℤ).
                if i ==ℤ j then one_less (count_of j s.ids.list_id) else count_of j s.ids.list_id)
              (ids_kept shot)));
    index = inr (
        index-space_del shot_kind heap shot space left c.sorted del
        ∙ ap₂ erase (ids_kept shot) index);
  }

pub action_move_shot-Moves :
    (arena_w arena_h : ℕ) (shot : ℕ) (s : Shots)
    → Flies s
    → registered shot_kind s.heap s.space shot ≡ true
    → (s' : Shots) × (action_move_shot arena_w arena_h shot s ≡ ok s')
      × Moves arena_w arena_h shot s s'
unfolding action_move_shot shot_destroy space_del_with_item shot_kind shot_get_status
    shot_set_status
action_move_shot-Moves arena_w arena_h shot s f there =
    let o : Shot = s.heap shot in
    let (heap, space, run, at_place, c, reg) =
      space_move_object-IsConsistent shot_kind s.heap s.space shot (o.x +ℤ o.px) (o.y +ℤ o.py)
        f.consistent there in
    let same_id : (heap shot).id ≡ o.id = ap (λ (t : Status). t.id) at_place in
    let index =
      index-space_move_object shot_kind s.heap heap s.space space shot (o.x +ℤ o.px) (o.y +ℤ o.py)
        f.consistent there run same_id in
    let set : heap ≡ (λ this. if this == shot then flown o else s.heap this) =
      heap-space_move_object shot_kind s.heap heap s.space space shot (o.x +ℤ o.px) (o.y +ℤ o.py)
        run in
    elim (Bool-cases (has_left arena_w arena_h (heap shot))) [
      | inr stays ↦ (
        record { heap = heap; space = space; ids = s.ids },
        rw run (rw stays refl),
        stays-Moves arena_w arena_h shot s f there heap space set c reg index stays,
      )
      | inl leaves ↦
          let (left, del, grid, free, c', reg') =
            space_del-IsConsistent shot_kind heap space shot c (reg shot ∙ there) in
          let (k, e) =
            counted_moved arena_w arena_h shot s f there heap space set c reg index shot
              (reg shot ∙ there) in
          let g = id_del-Gives s.ids (heap shot).id k f.distinct e in
          (
            record { heap = heap; space = left; ids = g.after },
            rw run (rw leaves (rw del (rw g.runs refl))),
            leaves-Moves arena_w arena_h shot s f there heap space set c reg index left g.after del
                c' reg' g.distinct
                (λ j. g.counts j ∙ (elim (Bool-cases ((heap shot).id ==ℤ j)) [
                  | inl same ↦
                      let e' : count_of j s.ids.list_id ≡ some k =
                        ap (λ (i : ℤ). count_of i s.ids.list_id) (sym ((==ℤ_iff _ _).0 same)) ∙ e in
                      rw same (rw e' refl)
                  | inr other ↦ rw other refl
                ]))
                leaves,
          )
    ]
