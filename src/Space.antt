-- ===== src/Space.antt =====
-- src/base/space.c and src/base/space.h: the objects of an arena, found by id through an index and by
-- place through a grid of zones. Objects are shared pointers, numbered; `heap` says what stands
-- behind each. A zone is read and written only after the code's own test of its coordinates.
pub mod Objects
pub mod Zones
pub mod Visits
pub mod Invariant
pub mod Move
pub mod Query
pub mod But
pub mod Actions
pub mod Walk
use tuxanci_ng.Prelude.{
  ℕ, zero, suc, ◌+◌, ◌-◌, ◌/◌, List, [], ◌∷◌, ◌++◌, Bool, true, false, not, ◌&&◌, ◌||◌, Option,
  none, some, Result, ok, err, assertion, ◌>>=◌, if◌then◌else◌, ltb, ◌==◌, length, get_elem?, arith,
  of_option, out_of_bounds,
}
use tuxanci_ng.Prelude.Int.{ℤ, pos, negsuc, ◌+ℤ◌, ◌-ℤ◌, ◌/ℤ◌, ltb_ℤ, leb_ℤ, ◌==ℤ◌, pos_part}
use tuxanci_ng.Sequence.{add, remove_at, index_of}
use tuxanci_ng.Index.{IndexItem, index_add, index_get, index_del}
use Objects.{Status, ObjectKind}

-- The int fields of space_t: the number of zones, and the size of one.
pub record Grid : Type 0 where
  pub w : ℕ
  pub h : ℕ
  pub seg_w : ℕ
  pub seg_h : ℕ

pub record Space : Type 0 where
  pub grid : Grid
  pub zone : ℤ → ℤ → List ℕ
  pub list_index : List (IndexItem ℕ)

-- my_arena_conflict_space
unfoldable pub conflict : ℤ → ℤ → ℤ → ℤ → ℤ → ℤ → ℤ → ℤ → Bool
conflict x1 y1 w1 h1 x2 y2 w2 h2 =
    ltb_ℤ x1 (x2 +ℤ w2) && (ltb_ℤ x2 (x1 +ℤ w1) && (ltb_ℤ y1 (y2 +ℤ h2) && ltb_ℤ y2 (y1 +ℤ h1)))

unfoldable pub space_new : ℕ → ℕ → ℕ → ℕ → Result Space
space_new w h seg_w seg_h =
    if ltb 0 w && (ltb 0 h && (ltb 0 seg_w && ltb 0 seg_h))
    then ok (record {
      grid = record { w = w / seg_w + 1; h = h / seg_h + 1; seg_w = seg_w; seg_h = seg_h };
      zone = λ j i. [];
      list_index = [];
    })
    else err assertion

pub record Segment : Type 0 where
  pub seg_x : ℤ
  pub seg_y : ℤ
  pub seg_w : ℤ
  pub seg_h : ℤ

unfoldable pub get_segment : Grid → ℤ → ℤ → ℤ → ℤ → Segment
get_segment p x y w h = record {
  seg_x = x /ℤ p.seg_w;
  seg_y = y /ℤ p.seg_h;
  seg_w = (x +ℤ w) /ℤ p.seg_w +ℤ pos 1 -ℤ x /ℤ p.seg_w;
  seg_h = (y +ℤ h) /ℤ p.seg_h +ℤ pos 1 -ℤ y /ℤ p.seg_h;
}

-- from, from + 1, ... for `rounds` values: the counter of a for loop.
unfoldable pub range : ℤ → ℕ → List ℤ
range from zero = []
range from (suc rounds) = from ∷ range (from +ℤ pos 1) rounds

-- The test that skips a zone: j < 0 || j >= p->w || i < 0 || i >= p->h.
unfoldable pub outside : Grid → ℤ → ℤ → Bool
outside p j i = ltb_ℤ j (pos 0) || (leb_ℤ (pos p.w) j || (ltb_ℤ i (pos 0) || leb_ℤ (pos p.h) i))

-- The zones of one row that the inner loop does not skip.
unfoldable pub row : Grid → ℤ → List ℤ → List (ℤ × ℤ)
row p i [] = []
row p i (j ∷ js) = if outside p j i then row p i js else (j, i) ∷ row p i js

unfoldable pub rows : Grid → List ℤ → List ℤ → List (ℤ × ℤ)
rows p [] js = []
rows p (i ∷ is) js = row p i js ++ rows p is js

-- The zones that the two nested loops visit, in their order.
unfoldable pub visited : Grid → Segment → List (ℤ × ℤ)
visited p s = rows p (range s.seg_y (pos_part s.seg_h)) (range s.seg_x (pos_part s.seg_w))

abbrev pub set_zone : (ℤ → ℤ → List ℕ) → ℤ → ℤ → List ℕ → ℤ → ℤ → List ℕ
set_zone zone j i l a b = if (a ==ℤ j) && (b ==ℤ i) then l else zone a b

-- list_add(p->zone[j][i]->list, item) for each zone.
unfoldable pub add_zones : ℕ → List (ℤ × ℤ) → (ℤ → ℤ → List ℕ) → ℤ → ℤ → List ℕ
add_zones item [] zone = zone
add_zones item ((j, i) ∷ cells) zone =
    add_zones item cells (set_zone zone j i (add (zone j i) item))

-- list_search, its assertion, and list_del for each zone.
unfoldable pub del_zones : ℕ → List (ℤ × ℤ) → (ℤ → ℤ → List ℕ) → Result (ℤ → ℤ → List ℕ)
del_zones item [] zone = ok zone
del_zones item ((j, i) ∷ cells) zone =
    of_option (index_of ◌==◌ item (zone j i)) assertion >>= λ my_index.
    del_zones item cells (set_zone zone j i (remove_at (zone j i) my_index))

-- Two segments that differ in some field.
abbrev pub moved_zone : Segment → Segment → Bool
moved_zone a b =
    not (a.seg_x ==ℤ b.seg_x)
    || (not (a.seg_y ==ℤ b.seg_y) || (not (a.seg_w ==ℤ b.seg_w) || not (a.seg_h ==ℤ b.seg_h)))

module _ {ℓ} {O : Type ℓ} (kind : ObjectKind O) where
  abbrev status : (ℕ → O) → ℕ → Status
  status heap this = kind.get_status (heap this)

  -- The rectangle of `this` against x, y, w, h.
  unfoldable pub hits : (ℕ → O) → ℤ → ℤ → ℤ → ℤ → ℕ → Bool
  hits heap x y w h this = let s = kind.get_status (heap this) in conflict x y w h s.x s.y s.w s.h

  unfoldable pub space_add : (ℕ → O) → ℕ → Space → Result Space
  space_add heap item p =
      let s = kind.get_status (heap item) in
      let cells = visited p.grid (get_segment p.grid s.x s.y s.w s.h) in
      index_add p.list_index s.id item >>= λ index.
      ok (record p { zone = add_zones item cells p.zone; list_index = index })

  -- The loop over one zone of space_get_object.
  unfoldable pub collect : (ℕ → O) → ℤ → ℤ → ℤ → ℤ → List ℕ → List ℕ → List ℕ
  collect heap x y w h [] list = list
  collect heap x y w h (this ∷ zone) list = collect heap x y w h zone (
      if hits heap x y w h this && (elim (index_of ◌==◌ this list) [ none ↦ true | some k ↦ false ])
      then add list this
      else list)

  unfoldable pub collect_zones : (ℕ → O) → Space → ℤ → ℤ → ℤ → ℤ → List (ℤ × ℤ) → List ℕ → List ℕ
  collect_zones heap p x y w h [] list = list
  collect_zones heap p x y w h ((j, i) ∷ cells) list =
      collect_zones heap p x y w h cells (collect heap x y w h (p.zone j i) list)

  unfoldable pub space_get_object : (ℕ → O) → Space → ℤ → ℤ → ℤ → ℤ → List ℕ → List ℕ
  space_get_object heap p x y w h list =
      collect_zones heap p x y w h (visited p.grid (get_segment p.grid x y w h)) list

  -- The loop over one zone of space_is_conflict_with_object.
  unfoldable pub any_hit : (ℕ → O) → ℤ → ℤ → ℤ → ℤ → List ℕ → Bool
  any_hit heap x y w h [] = false
  any_hit heap x y w h (this ∷ zone) =
      if hits heap x y w h this then true else any_hit heap x y w h zone

  unfoldable pub any_zone : (ℕ → O) → Space → ℤ → ℤ → ℤ → ℤ → List (ℤ × ℤ) → Bool
  any_zone heap p x y w h [] = false
  any_zone heap p x y w h ((j, i) ∷ cells) =
      if any_hit heap x y w h (p.zone j i) then true else any_zone heap p x y w h cells

  unfoldable pub space_is_conflict_with_object : (ℕ → O) → Space → ℤ → ℤ → ℤ → ℤ → Bool
  space_is_conflict_with_object heap p x y w h =
      any_zone heap p x y w h (visited p.grid (get_segment p.grid x y w h))

  unfoldable pub any_hit_but : ℕ → (ℕ → O) → ℤ → ℤ → ℤ → ℤ → List ℕ → Bool
  any_hit_but but heap x y w h [] = false
  any_hit_but but heap x y w h (this ∷ zone) =
      if this == but
      then any_hit_but but heap x y w h zone
      else if hits heap x y w h this
      then true
      else any_hit_but but heap x y w h zone

  unfoldable pub any_zone_but : ℕ → (ℕ → O) → Space → ℤ → ℤ → ℤ → ℤ → List (ℤ × ℤ) → Bool
  any_zone_but but heap p x y w h [] = false
  any_zone_but but heap p x y w h ((j, i) ∷ cells) =
      if any_hit_but but heap x y w h (p.zone j i)
      then true
      else any_zone_but but heap p x y w h cells

  unfoldable pub space_is_conflict_with_object_but : (ℕ → O) → Space → ℤ → ℤ → ℤ → ℤ → ℕ → Bool
  space_is_conflict_with_object_but heap p x y w h but =
      any_zone_but but heap p x y w h (visited p.grid (get_segment p.grid x y w h))

  unfoldable pub space_del : (ℕ → O) → ℕ → Space → Result Space
  space_del heap item p =
      let s = kind.get_status (heap item) in
      let cells = visited p.grid (get_segment p.grid s.x s.y s.w s.h) in
      del_zones item cells p.zone >>= λ zone.
      index_del p.list_index s.id >>= λ index. ok (record p { zone = zone; list_index = index })

  -- p->setStatus(item, x, y, w, h)
  abbrev pub set_object : (ℕ → O) → ℕ → ℤ → ℤ → ℤ → ℤ → ℕ → O
  set_object heap item x y w h this =
      if this == item then kind.set_status (heap item) x y w h else heap this

  unfoldable pub space_move_object : (ℕ → O) → ℕ → ℤ → ℤ → Space → Result ((ℕ → O) × Space)
  space_move_object heap item move_x move_y p =
      let s = kind.get_status (heap item) in
      let heap' = set_object heap item move_x move_y s.w s.h in
      if moved_zone (get_segment p.grid s.x s.y s.w s.h) (get_segment p.grid move_x move_y s.w s.h)
      then (space_del heap item p >>= λ q. space_add heap' item q >>= λ r. ok (heap', r))
      else ok (heap', p)

  unfoldable pub space_get_object_id : Space → ℤ → Result (Option ℕ)
  space_get_object_id p id = index_get p.list_index id

  unfoldable pub space_get_count : Space → ℕ
  space_get_count p = length p.list_index
