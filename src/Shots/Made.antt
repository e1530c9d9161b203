-- ===== src/Shots/Made.antt =====
-- src/base/shot.c and src/base/gun.c: shot_new, and what addShotTrivial does with the shot.
use tuxanci_ng.Prelude.{
  ℕ, ◌<◌, ◌≡◌, refl, inl, inr, Bool, ◌||◌, length, true, false, Option, none, some, ok, arith,
  if◌then◌else◌, ◌==◌, Bool-cases,
}
use tuxanci_ng.Prelude.Int.{ℤ, pos}
use tuxanci_ng.IdManager.{id_get_new}
use tuxanci_ng.IdManager.Fresh.{id_of_draw, id_get_newcount_lem}
use tuxanci_ng.Index.Keys.{IsSorted}
use tuxanci_ng.Index.Laws.{index_get_lem}
use tuxanci_ng.IdManager.Counts.{count_of}
use tuxanci_ng.Index.Table.{lookup}
use tuxanci_ng.Space.{Space, space_get_object_id}
use tuxanci_ng.Space.Invariant.{registered}
use tuxanci_ng.Tux.{Tux, Shot, tux_kind, shot_kind}
use tuxanci_ng.Tux.Guns.{ShotArgs, gun_simple, gun_lasser, gun_bombball}
use tuxanci_ng.Shots.{Shots}
use tuxanci_ng.Shots.Flight.{Flies}
use tuxanci_ng.Shots.Making.{
  laser_size, size_of_gun, position_of, position_or_unknown, written, shot_new, make_shot,
}
use tuxanci_ng.Shots.Created.{space_add-Flies}

-- The guns for which shot_new returns: a laser only where the tux that shot is there.
unfoldable pub can_make : ℕ → Option ℕ → Bool
can_make gun none = (gun == gun_simple) || (gun == gun_bombball)
can_make gun (some author) = (gun == gun_simple) || ((gun == gun_lasser) || (gun == gun_bombball))

size_of_gun_lem :
    (tuxes : ℕ → Tux) (gun : ℕ) (author : Option ℕ)
    → can_make gun author ≡ true
    → (size : ℤ × ℤ) × (size_of_gun gun (position_of tuxes author) ≡ ok size)
unfolding can_make size_of_gun
size_of_gun_lem tuxes gun none h = elim (Bool-cases (gun == gun_simple)) [
  | inl simple ↦ ((pos 5, pos 5), rw simple refl)
  | inr other ↦
      let ball : (gun == gun_bombball) ≡ true = ground arith in
      let no_laser : (gun == gun_lasser) ≡ false = ground arith in
      ((pos 20, pos 20), rw other (rw no_laser (rw ball refl)))
]
size_of_gun_lem tuxes gun (some author) h = elim (Bool-cases (gun == gun_simple)) [
  | inl simple ↦ ((pos 5, pos 5), rw simple refl)
  | inr other ↦ elim (Bool-cases (gun == gun_lasser)) [
    | inl laser ↦ (laser_size (tuxes author).position (pos 0, pos 0), rw other (rw laser refl))
    | inr no_laser ↦
        let ball : (gun == gun_bombball) ≡ true = ground arith in
        ((pos 20, pos 20), rw other (rw no_laser (rw ball refl)))
  ]
]

-- A new shot at a place of memory that no shot of the space uses, made by shot_new and put into the
-- space by space_add: where the index of the tuxes is sorted, the gun is the simple one or a ball, or a
-- laser whose author is there, fewer than MAX_ID - 1 ids are in use and one of the next `fuel` draws of
-- random() is a free id, it returns. The shot has an id that was free, only its place of memory has
-- changed, exactly it has come to the shots of the space, and grid, index and ids are consistent again.
pub make_shot-Flies :
    (fuel n : ℕ) (tuxes : ℕ → Tux) (space_tux : Space) (new : ℕ) (args : ShotArgs) (s : Shots)
    → Flies s
    → registered shot_kind s.heap s.space new ≡ false
    → IsSorted space_tux.list_index
    → can_make args.gun (lookup args.author_id space_tux.list_index) ≡ true
    → length s.ids.list_id < 999_999
    → n < fuel
    → count_of (id_of_draw (s.ids.draws n)) s.ids.list_id ≡ none
    → (s' : Shots) × (shot : Shot) × (make_shot fuel tuxes space_tux new args s ≡ ok s')
      × Flies s'
      × (s'.heap ≡ written s.heap new shot)
      × (count_of shot.id s.ids.list_id ≡ none)
      × ((this : ℕ)
          → registered shot_kind s'.heap s'.space this
            ≡ (if new == this then true else registered shot_kind s.heap s.space this))
unfolding make_shot shot_new id_get_new space_get_object_id tux_kind
make_shot-Flies fuel n tuxes space_tux new args s f fresh sorted can room h free =
    let (id, ids, drawn, low, high, absent, distinct, counts) =
      id_get_newcount_lem fuel n (pos 1) s.ids f.distinct room h free in
    let author = lookup args.author_id space_tux.list_index in
    let asked = index_get_lem space_tux.list_index args.author_id sorted in
    let (size, sized) = size_of_gun_lem tuxes args.gun author can in
    let shot : Shot = record {
      id = id;
      x = args.x;
      y = args.y;
      w = size.0;
      h = size.1;
      px = args.px;
      py = args.py;
      position = position_or_unknown (position_of tuxes author);
      gun = args.gun;
      author_id = args.author_id;
      is_can_kill_author = false;
      del = false;
    } in
    let (space, added, flies, reg) =
      space_add-Flies s f new shot fresh absent ids distinct counts in
    (
      record { heap = written s.heap new shot; space = space; ids = ids },
      shot,
      rw drawn (rw asked (rw sized (rw added refl))),
      flies,
      refl,
      absent,
      reg,
    )
