-- ===== src/Arena/Laws.antt =====
-- src/base/arena.c: free places of an arena, and the screens that show a part of it.
use tuxanci_ng.Prelude.{
  ℕ, ◌+◌, ◌/◌, ◌≤◌, ◌<◌, ◌≡◌, refl, sym, ◌∙◌, inl, inr, [], Bool, true, false, not, ◌&&◌, ◌||◌, ok,
  arith, if◌then◌else◌, ltb, Bool-cases,
}
use tuxanci_ng.Prelude.Int.{ℤ, pos, ◌+ℤ◌, ◌-ℤ◌, ◌≤ℤ◌, ltb_ℤ, leb_ℤ, +ℤ_parts, -ℤ_parts}
use tuxanci_ng.Space.{Space, space_new, conflict, space_is_conflict_with_object}
use tuxanci_ng.Space.Objects.{ObjectKind}
use tuxanci_ng.Index.Table.{lookup}
use tuxanci_ng.Space.Zones.{count}
use tuxanci_ng.Space.Invariant.{is_it, registered, IsConsistent}
use tuxanci_ng.Space.Query.{IsGridOf, conflict_complete}
use tuxanci_ng.Tux.{
  Tux, Shot, Item, tux_kind, shot_kind, item_kind, tux_get_status, shot_get_status, item_get_status,
}
use tuxanci_ng.Arena.{Arena, arena_new, arena_is_free_space, center, arena_get_center_screen}

-- A space of an arena of size a, b is consistent and its objects have no negative size.
pub record IsSpaceOf {ℓ} {O : Type ℓ} (kind : ObjectKind O) (a b : ℕ) (heap : ℕ → O) (p : Space)
    : Type ℓ where
  pub consistent : IsConsistent kind heap p
  pub grid_of : IsGridOf a b p.grid
  pub wide : (this : ℕ) → pos 0 ≤ℤ (kind.get_status (heap this)).w
  pub high : (this : ℕ) → pos 0 ≤ℤ (kind.get_status (heap this)).h

-- No registered object overlaps the rectangle.
pub Clear {ℓ} : {O : Type ℓ} (kind : ObjectKind O) → (ℕ → O) → Space → ℤ → ℤ → ℤ → ℤ → Type 0
Clear kind heap p x y w h =
    (this : ℕ)
    → (let s = kind.get_status (heap this) in
        registered kind heap p this && conflict x y w h s.x s.y s.w s.h ≡ false)

no_answer-Clear {ℓ} :
    {O : Type ℓ} (kind : ObjectKind O) (a b : ℕ) (heap : ℕ → O) (p : Space) (x y w h : ℤ)
    → IsSpaceOf kind a b heap p
    → pos 0 ≤ℤ x
    → pos 0 ≤ℤ y
    → pos 0 ≤ℤ w
    → pos 0 ≤ℤ h
    → x +ℤ w ≤ℤ pos a
    → y +ℤ h ≤ℤ pos b
    → space_is_conflict_with_object kind heap p x y w h ≡ false
    → Clear kind heap p x y w h
unfolding Clear
no_answer-Clear kind a b heap p x y w h g x0 y0 w0 h0 xa yb no_conflict this =
    let s = kind.get_status (heap this) in
    elim (Bool-cases (registered kind heap p this)) [
      | inr gone ↦ rw gone
      | inl there ↦ elim (Bool-cases (conflict x y w h s.x s.y s.w s.h)) [
        | inr away ↦ rw (there, away)
        | inl hit ↦
            let said : space_is_conflict_with_object kind heap p x y w h ≡ true =
              conflict_complete kind heap p a b x y w h this g.consistent g.grid_of x0 y0 w0 h0 xa
                yb (g.wide this) (g.high this) there hit in
            absurd (cc (sym no_conflict ∙ said))
      ]
    ]

-- What the condition of arena_is_free_space rules out.
none_of :
    (a b c d t s i m : Bool)
    → not ((a || (b || (c || d))) || (t || (s || (i || (s || m))))) ≡ true
    → (a ≡ false)
      × (b ≡ false)
      × (c ≡ false)
      × (d ≡ false)
      × (t ≡ false)
      × (s ≡ false)
      × (i ≡ false)
      × (m ≡ false)
none_of a b c d t s i m h = ground arith

not_below : (a b : ℤ) → ltb_ℤ a b ≡ false → b ≤ℤ a
not_below a b h = ground arith

-- In an arena whose three spaces are consistent and fit it, for a rectangle of no negative size: where
-- arena_is_free_space says yes, the rectangle lies in the arena, no tux, shot or item of the
-- arena overlaps it, and no module blocks it.
pub arena_is_free_space_lem :
    (blocked : ℤ → ℤ → ℤ → ℤ → Bool) (arena : Arena) (x y w h : ℤ)
    → IsSpaceOf tux_kind arena.w arena.h arena.tuxes arena.space_tux
    → IsSpaceOf shot_kind arena.w arena.h arena.shots arena.space_shot
    → IsSpaceOf item_kind arena.w arena.h arena.items arena.space_item
    → pos 0 ≤ℤ w
    → pos 0 ≤ℤ h
    → arena_is_free_space blocked arena x y w h ≡ true
    → (pos 0 ≤ℤ x)
      × (pos 0 ≤ℤ y)
      × (x +ℤ w ≤ℤ pos arena.w)
      × (y +ℤ h ≤ℤ pos arena.h)
      × Clear tux_kind arena.tuxes arena.space_tux x y w h
      × Clear shot_kind arena.shots arena.space_shot x y w h
      × Clear item_kind arena.items arena.space_item x y w h
      × (blocked x y w h ≡ false)
unfolding arena_is_free_space
arena_is_free_space_lem blocked arena x y w h gt gs gi w0 h0 e =
    let (left, top, wide, high, no_tux, no_shot, no_item, open_place) =
      none_of (ltb_ℤ x (pos 0)) (ltb_ℤ y (pos 0)) (ltb_ℤ (pos arena.w) (x +ℤ w))
        (ltb_ℤ (pos arena.h) (y +ℤ h))
        (space_is_conflict_with_object tux_kind arena.tuxes arena.space_tux x y w h)
        (space_is_conflict_with_object shot_kind arena.shots arena.space_shot x y w h)
        (space_is_conflict_with_object item_kind arena.items arena.space_item x y w h)
        (blocked x y w h) e in
    let x0 = not_below x (pos 0) left in
    let y0 = not_below y (pos 0) top in
    let xa = not_below (pos arena.w) (x +ℤ w) wide in
    let yb = not_below (pos arena.h) (y +ℤ h) high in
    (
      x0,
      y0,
      xa,
      yb,
      no_answer-Clear tux_kind arena.w arena.h arena.tuxes arena.space_tux x y w h gt x0 y0 w0 h0 xa
          yb no_tux,
      no_answer-Clear shot_kind arena.w arena.h arena.shots arena.space_shot x y w h gs x0 y0 w0 h0
          xa yb no_shot,
      no_answer-Clear item_kind arena.w arena.h arena.items arena.space_item x y w h gi x0 y0 w0 h0
          xa yb no_item,
      open_place,
    )

center-inside :
    (arena_size screen_size : ℕ) (at : ℤ)
    → screen_size ≤ arena_size
    → (pos 0 ≤ℤ center arena_size screen_size at)
      × (center arena_size screen_size at +ℤ pos screen_size ≤ℤ pos arena_size)
unfolding center
center-inside a n at h =
    let start = at -ℤ pos (n / 2) in
    elim (Bool-cases (ltb_ℤ start (pos 0))) [
      | inl before ↦ rw before (elim (Bool-cases (leb_ℤ (pos a) (pos 0 +ℤ pos n))) [
        | inl over ↦ rw over (at_end a n h)
        | inr inner ↦ rw inner (omega arith, ground arith)
      ])
      | inr from ↦ rw from (elim (Bool-cases (leb_ℤ (pos a) (start +ℤ pos n))) [
        | inl over ↦ rw over (at_end a n h)
        | inr inner ↦ rw inner (ground arith, ground arith)
      ])
    ]
  where
    at_end : (a n : ℕ) → n ≤ a → (pos 0 ≤ℤ pos a -ℤ pos n) × (pos a -ℤ pos n +ℤ pos n ≤ℤ pos a)
    at_end a n h = (
      omega (arith, -ℤ_parts (pos a) (pos n)),
      omega (arith, -ℤ_parts (pos a) (pos n), +ℤ_parts (pos a -ℤ pos n) (pos n)),
    )

-- A screen that is not larger than the arena lies within it, whatever it is centred on.
pub arena_get_center_screen_lem :
    (arena : Arena) (x y : ℤ) (size_x size_y : ℕ)
    → size_x ≤ arena.w
    → size_y ≤ arena.h
    → (let r = arena_get_center_screen arena x y size_x size_y in
        (pos 0 ≤ℤ r.0)
        × (r.0 +ℤ pos size_x ≤ℤ pos arena.w)
        × (pos 0 ≤ℤ r.1)
        × (r.1 +ℤ pos size_y ≤ℤ pos arena.h))
unfolding arena_get_center_screen
arena_get_center_screen_lem arena x y size_x size_y fits_x fits_y =
    let (left, right) = center-inside arena.w size_x x fits_x in
    let (top, bottom) = center-inside arena.h size_y y fits_y in (left, right, top, bottom)

abbrev empty_space : ℕ → ℕ → ℕ → ℕ → Space
empty_space w h seg_w seg_h = record {
  grid = record { w = w / seg_w + 1; h = h / seg_h + 1; seg_w = seg_w; seg_h = seg_h };
  zone = λ j i. [];
  list_index = [];
}

space_new-empty_space :
    (w h seg_w seg_h : ℕ)
    → 0 < w
    → 0 < h
    → 0 < seg_w
    → 0 < seg_h
    → space_new w h seg_w seg_h ≡ ok (empty_space w h seg_w seg_h)
unfolding space_new
space_new-empty_space w h seg_w seg_h hw hh hsw hsh =
    let test : ltb 0 w && (ltb 0 h && (ltb 0 seg_w && ltb 0 seg_h)) ≡ true = ground arith in rw test

empty_space-IsSpaceOf {ℓ} :
    {O : Type ℓ} (kind : ObjectKind O) (w h seg_w seg_h : ℕ) (heap : ℕ → O)
    → 0 < seg_w
    → 0 < seg_h
    → ((this : ℕ) → pos 0 ≤ℤ (kind.get_status (heap this)).w)
    → ((this : ℕ) → pos 0 ≤ℤ (kind.get_status (heap this)).h)
    → IsSpaceOf kind w h heap (empty_space w h seg_w seg_h)
unfolding registered is_it lookup count
empty_space-IsSpaceOf kind w h seg_w seg_h heap hsw hsh wide high = record {
  consistent = record { sorted = tt; keyed = λ k this e. absurd (cc); placed = λ this j i. refl };
  grid_of = record { wide = refl; high = refl; seg_w_pos = hsw; seg_h_pos = hsh };
  wide = wide;
  high = high;
}

-- arena_new of an arena with a size, where no shot or item has a negative size, returns, and its three spaces are consistent and fit it.
pub arena_new_lem :
    (w h : ℕ) (tuxes : ℕ → Tux) (items : ℕ → Item) (shots : ℕ → Shot)
    → 0 < w
    → 0 < h
    → ((this : ℕ) → (pos 0 ≤ℤ (items this).w) × (pos 0 ≤ℤ (items this).h))
    → ((this : ℕ) → (pos 0 ≤ℤ (shots this).w) × (pos 0 ≤ℤ (shots this).h))
    → (arena : Arena) × (arena_new w h tuxes items shots ≡ ok arena)
      × (arena.w ≡ w)
      × (arena.h ≡ h)
      × IsSpaceOf tux_kind w h tuxes arena.space_tux
      × IsSpaceOf item_kind w h items arena.space_item
      × IsSpaceOf shot_kind w h shots arena.space_shot
unfolding arena_new tux_kind item_kind shot_kind tux_get_status item_get_status shot_get_status
arena_new_lem w h tuxes items shots hw hh item_size shot_size =
    let zone_w : ℕ = if ltb 800 w || ltb 600 h then 320 else 80 in
    let zone_h : ℕ = if ltb 800 w || ltb 600 h then 240 else 60 in
    let zw : 0 < zone_w = ground arith in
    let zh : 0 < zone_h = ground arith in
    let p = empty_space w h zone_w zone_h in
    (
      record {
        w = w;
        h = h;
        space_tux = p;
        space_item = p;
        space_shot = p;
        tuxes = tuxes;
        items = items;
        shots = shots;
        count_round = 0;
        max_count_round = 0;
      },
      rw (space_new-empty_space w h zone_w zone_h hw hh zw zh),
      refl,
      refl,
      empty_space-IsSpaceOf tux_kind w h zone_w zone_h tuxes zw zh (λ this. omega arith)
          (λ this. omega arith),
      empty_space-IsSpaceOf item_kind w h zone_w zone_h items zw zh (λ this. (item_size this).0)
          (λ this. (item_size this).1),
      empty_space-IsSpaceOf shot_kind w h zone_w zone_h shots zw zh (λ this. (shot_size this).0)
          (λ this. (shot_size this).1),
    )
