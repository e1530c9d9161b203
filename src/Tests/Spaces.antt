-- ===== src/Tests/Spaces.antt =====
-- A space of shots at a concrete input.
use tuxanci_ng.Prelude.{
  ℕ, ◌≡◌, refl, sym, subst, ◌∙◌, inl, inr, [], ◌∷◌, true, false, not, ◌&&◌, none, some, ok, arith,
  if◌then◌else◌, ◌==◌, ==_iff, Bool-cases,
}
use tuxanci_ng.Prelude.Int.{ℤ, pos, ◌+ℤ◌}
use tuxanci_ng.Index.Table.{lookup}
use tuxanci_ng.Space.{
  Space, space_new, space_add, space_del, space_move_object, space_is_conflict_with_object,
  conflict,
}
use tuxanci_ng.Space.Invariant.{
  registered, IsConsistent, is_it, space_add-IsConsistent, space_del-IsConsistent,
}
use tuxanci_ng.Space.Zones.{count}
use tuxanci_ng.Space.Move.{space_move_object-IsConsistent}
use tuxanci_ng.Space.Query.{IsGridOf, conflict_sound, conflict_complete}
use tuxanci_ng.Tux.{Shot, shot_kind, shot_get_status}
use tuxanci_ng.IdManager.Counts.{count_of}
use tuxanci_ng.Shots.{Shots, has_left, shot_event_move_list}
use tuxanci_ng.Shots.Flight.{Flies, flown}
use tuxanci_ng.Shots.Laws.{shot_event_move_list_lem, count_after}

-- Shot 0 has the id 4, stands at 100, 100 and is so fast that one step takes it out of the arena; the others have the id 5 and stand at 10, 10.
abbrev pub shots : ℕ → Shot
shots n = record {
  id = if n == 0 then pos 4 else pos 5;
  x = if n == 0 then pos 100 else pos 10;
  y = if n == 0 then pos 100 else pos 10;
  w = pos 5;
  h = pos 5;
  px = if n == 0 then pos 705 else pos 5;
  py = pos 0;
  position = pos 6;
  gun = 0;
  author_id = pos 1;
  is_can_kill_author = false;
  del = false;
}

-- What space_new makes for an arena of 800 x 600 with zones of 80 x 60.
abbrev pub empty : Space
empty = record {
  grid = record { w = 11; h = 11; seg_w = 80; seg_h = 60 };
  zone = λ j i. [];
  list_index = [];
}

empty_is_new : space_new 800 600 80 60 ≡ ok empty
unfolding space_new
empty_is_new = refl

empty-IsConsistent : IsConsistent shot_kind shots empty
unfolding lookup registered is_it count
empty-IsConsistent = record {
  sorted = tt;
  keyed = λ k this e. absurd (cc);
  placed = λ this j i. refl;
}

four_free : lookup (shot_get_status (shots 0)).id empty.list_index ≡ none
unfolding lookup
four_free = refl

space_add-IsConsistent_example :
    (q : Space) × (space_add shot_kind shots 0 empty ≡ ok q)
    × (q.grid ≡ empty.grid)
    × IsConsistent shot_kind shots q
    × ((this : ℕ)
        → registered shot_kind shots q this
          ≡ (if 0 == this then true else registered shot_kind shots empty this))
unfolding shot_kind shot_get_status
space_add-IsConsistent_example =
    space_add-IsConsistent shot_kind shots empty 0 empty-IsConsistent four_free

-- The space with shot 0 in it.
pub added :
    (q : Space) × (q.grid ≡ empty.grid)
    × IsConsistent shot_kind shots q
    × (registered shot_kind shots q 0 ≡ true)
    × ((this : ℕ)
        → registered shot_kind shots q this
          ≡ (if 0 == this then true else registered shot_kind shots empty this))
unfolding shot_kind shot_get_status
added =
    let (q, run, grid, c, reg) =
      space_add-IsConsistent shot_kind shots empty 0 empty-IsConsistent four_free in
    (q, grid, c, reg 0, reg)

abbrev pub one : Space
one = added.0

one-IsGridOf : IsGridOf 800 600 one.grid
one-IsGridOf = subst (IsGridOf 800 600) (sym added.1) empty_grid
  where
    empty_grid : IsGridOf 800 600 empty.grid
    empty_grid = record {
      wide = refl;
      high = refl;
      seg_w_pos = omega arith;
      seg_h_pos = omega arith;
    }

space_del-IsConsistent_example :
    (q : Space) × (space_del shot_kind shots 0 one ≡ ok q)
    × (q.grid ≡ one.grid)
    × (lookup (pos 4) q.list_index ≡ none)
    × IsConsistent shot_kind shots q
    × ((this : ℕ)
        → registered shot_kind shots q this
          ≡ (if 0 == this then false else registered shot_kind shots one this))
unfolding shot_kind shot_get_status
space_del-IsConsistent_example = space_del-IsConsistent shot_kind shots one 0 added.2 added.3

space_move_object-IsConsistent_example :
    (heap' : ℕ → Shot) × (q : Space) × (space_move_object shot_kind shots 0 (pos 400) (pos 105) one
      ≡ ok (heap', q))
    × (shot_get_status (heap' 0) ≡ record (shot_get_status (shots 0)) { x = pos 400; y = pos 105 })
    × IsConsistent shot_kind heap' q
    × ((this : ℕ) → registered shot_kind heap' q this ≡ registered shot_kind shots one this)
unfolding shot_kind shot_get_status
space_move_object-IsConsistent_example =
    space_move_object-IsConsistent shot_kind shots one 0 (pos 400) (pos 105) added.2 added.3

shot_hits : conflict (pos 90) (pos 90) (pos 30) (pos 30) (pos 100) (pos 100) (pos 5) (pos 5) ≡ true
unfolding conflict ◌+ℤ◌
shot_hits = refl

asked : space_is_conflict_with_object shot_kind shots one (pos 90) (pos 90) (pos 30) (pos 30) ≡ true
unfolding ◌+ℤ◌ shot_kind shot_get_status
asked =
    conflict_complete shot_kind shots one 800 600 (pos 90) (pos 90) (pos 30) (pos 30) 0 added.2
      one-IsGridOf (omega arith) (omega arith) (omega arith) (omega arith) (omega arith)
      (omega arith) (omega arith) (omega arith) added.3 shot_hits

conflict_complete_example :
    space_is_conflict_with_object shot_kind shots one (pos 90) (pos 90) (pos 30) (pos 30) ≡ true
unfolding ◌+ℤ◌ shot_kind shot_get_status
conflict_complete_example =
    conflict_complete shot_kind shots one 800 600 (pos 90) (pos 90) (pos 30) (pos 30) 0 added.2
      one-IsGridOf (omega arith) (omega arith) (omega arith) (omega arith) (omega arith)
      (omega arith) (omega arith) (omega arith) added.3 shot_hits

conflict_sound_example :
    (this : ℕ) × (registered shot_kind shots one this ≡ true)
    × (let s = shot_get_status (shots this) in
        conflict (pos 90) (pos 90) (pos 30) (pos 30) s.x s.y s.w s.h ≡ true)
unfolding shot_kind shot_get_status
conflict_sound_example =
    conflict_sound shot_kind shots one (pos 90) (pos 90) (pos 30) (pos 30) added.2 asked

-- The shot 0 on its way, with its id counted once.
abbrev pub flying : Shots
flying = record {
  heap = shots;
  space = one;
  ids = record { list_id = record { id = pos 4; count = pos 1 } ∷ []; draws = λ n. n };
}

pub flying-Flies : Flies flying
unfolding count_of registered is_it lookup
flying-Flies = record {
  consistent = added.2;
  distinct = (refl, tt);
  counted = λ this there. elim (Bool-cases (0 == this)) [
    | inl same ↦
        let e : 0 ≡ this = (==_iff 0 this).0 same in
        (pos 1, subst (λ t. count_of (shots t).id flying.ids.list_id ≡ some (pos 1)) e refl)
    | inr other ↦
        let absent : registered shot_kind shots one this ≡ false = added.4 this ∙ (rw other refl) in
        cc (sym absent ∙ there)
  ];
}

-- It leaves.
zero_leaves : has_left 800 600 (flown (shots 0)) ≡ true
unfolding has_left ◌+ℤ◌
zero_leaves = refl

shot_event_move_list_lem_example :
    (s : Shots) × (shot_event_move_list 800 600 flying ≡ ok s)
    × Flies s
    × ((this : ℕ)
        → s.heap this
          ≡ (if registered shot_kind shots one this then flown (shots this) else shots this))
    × ((this : ℕ)
        → registered shot_kind s.heap s.space this
          ≡ (registered shot_kind shots one this && not (has_left 800 600 (flown (shots this)))))
    × ((j : ℤ) → count_of j s.ids.list_id ≡ count_after 800 600 flying (lookup j one.list_index) j)
shot_event_move_list_lem_example = shot_event_move_list_lem 800 600 flying flying-Flies
