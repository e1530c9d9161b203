-- ===== src/Arena/Teleport.antt =====
-- src/base/tux.c and src/base/arena.c: a teleported tux stands in the arena and overlaps nothing.
use tuxanci_ng.Prelude.{
  ℕ, zero, suc, ◌<◌, ◌≡◌, refl, sym, ap, subst, ◌∙◌, inl, inr, Bool, true, false, ◌||◌, ok, >>=-inv,
  ok_inj, arith, ◌==◌, Bool-cases,
}
use tuxanci_ng.Prelude.Int.{ℤ, pos, ◌+ℤ◌, ◌≤ℤ◌}
use tuxanci_ng.IdManager.{rest_of}
use tuxanci_ng.Index.{index_add, index_del}
use tuxanci_ng.Space.{
  Space, space_move_object, space_add, space_del, del_zones, moved_zone, get_segment, set_object,
}
use tuxanci_ng.Space.Objects.{ObjectKind}
use tuxanci_ng.Space.Invariant.{registered}
use tuxanci_ng.Space.Move.{space_move_object-IsConsistent}
use tuxanci_ng.Space.Query.{IsGridOf}
use tuxanci_ng.Tux.{Tux, tux_kind, shot_kind, item_kind, tux_get_status}
use tuxanci_ng.Tux.Guns.{GameType, is_client}
use tuxanci_ng.Arena.{Arena, arena_is_free_space}
use tuxanci_ng.Arena.Laws.{IsSpaceOf, Clear, arena_is_free_space_lem}
use tuxanci_ng.Arena.Free.{drawn, arena_find_free_space, tux_teleport}

-- The place that the round k of arena_find_free_space tries.
unfoldable pub tried : Arena → ℕ → ℕ → ℕ → (ℕ → ℕ) → ℤ × ℤ
tried arena w h zero draws = drawn arena w h draws
tried arena w h (suc k) draws = tried arena w h k (rest_of (rest_of draws))

arena_find_free_space_lem :
    (fuel k : ℕ) (blocked : ℤ → ℤ → ℤ → ℤ → Bool) (arena : Arena) (draws : ℕ → ℕ) (w h : ℕ)
    → k < fuel
    → w < arena.w
    → h < arena.h
    → (let z = tried arena w h k draws in
        arena_is_free_space blocked arena z.0 z.1 (pos w) (pos h) ≡ true)
    → (x y : ℤ) × (rest : ℕ → ℕ) × (arena_find_free_space fuel blocked arena draws w h
        ≡ ok ((x, y), rest))
      × (arena_is_free_space blocked arena x y (pos w) (pos h) ≡ true)
unfolding arena_find_free_space tried
arena_find_free_space_lem zero k blocked arena draws w h less wide high free = absurd (omega arith)
arena_find_free_space_lem (suc fuel) zero blocked arena draws w h less wide high free =
    let z = drawn arena w h draws in
    let room : ((arena.w == w) || (arena.h == h)) ≡ false = ground arith in
    (z.0, z.1, rest_of (rest_of draws), rw room (rw free refl), free)
arena_find_free_space_lem (suc fuel) (suc k) blocked arena draws w h less wide high free =
    let z = drawn arena w h draws in
    let room : ((arena.w == w) || (arena.h == h)) ≡ false = ground arith in
    elim (Bool-cases (arena_is_free_space blocked arena z.0 z.1 (pos w) (pos h))) [
      | inl now ↦ (z.0, z.1, rest_of (rest_of draws), rw room (rw now refl), now)
      | inr taken ↦ rw room (
          rw taken (
            arena_find_free_space_lem fuel k blocked arena (rest_of (rest_of draws)) w h
              (omega arith) wide high free))
    ]

module _ {ℓ} {O : Type ℓ} (kind : ObjectKind O) where
  pub grid-space_move_object :
      (heap heap' : ℕ → O) (p q : Space) (item : ℕ) (x y : ℤ)
      → space_move_object kind heap item x y p ≡ ok (heap', q)
      → q.grid ≡ p.grid
  unfolding space_move_object space_del space_add
  grid-space_move_object heap heap' p q item x y run =
      let s = kind.get_status (heap item) in
      let heap'' = set_object kind heap item x y s.w s.h in
      elim (Bool-cases
        (moved_zone (get_segment p.grid s.x s.y s.w s.h) (get_segment p.grid x y s.w s.h))) [
          | inl moves ↦
              let (q1, del, rest) = >>=-inv (space_del kind heap item p) _ (rw moves at run) in
              let (q2, add, done) = >>=-inv (space_add kind heap'' item q1) _ rest in
              let (zone, d1, d2) = >>=-inv (del_zones item _ p.zone) _ del in
              let (index, d3, d4) = >>=-inv (index_del p.list_index _) _ d2 in
              let (index', a1, a2) = >>=-inv (index_add q1.list_index _ item) _ add in
              sym (ap (λ (r : (ℕ → O) × Space). r.1.grid) (ok_inj done))
              ∙ sym (ap (λ (r : Space). r.grid) (ok_inj a2))
              ∙ sym (ap (λ (r : Space). r.grid) (ok_inj d4))
          | inr stays ↦ sym (ap (λ (r : (ℕ → O) × Space). r.1.grid) (ok_inj (rw stays at run)))
        ]

pub tux_size :
    (t : Tux) → (pos 0 ≤ℤ (tux_kind.get_status t).w) × (pos 0 ≤ℤ (tux_kind.get_status t).h)
unfolding tux_kind tux_get_status
tux_size t = (omega arith, omega arith)

-- tux_teleport of a registered tux, not on a client, in an arena larger than a tux whose three spaces are
-- consistent and fit it, where one of the places that are tried within the bound on the rounds is free:
-- it returns, and the tux stands at a place of the arena that no tux, shot or item overlapped before and
-- no module blocks. The space of the tuxes stays consistent, with the same tuxes in it.
pub tux_teleport_lem :
    (fuel k : ℕ) (game : GameType) (blocked : ℤ → ℤ → ℤ → ℤ → Bool) (draws : ℕ → ℕ) (tux : ℕ)
    (arena : Arena)
    → is_client game ≡ false
    → IsSpaceOf tux_kind arena.w arena.h arena.tuxes arena.space_tux
    → IsSpaceOf shot_kind arena.w arena.h arena.shots arena.space_shot
    → IsSpaceOf item_kind arena.w arena.h arena.items arena.space_item
    → registered tux_kind arena.tuxes arena.space_tux tux ≡ true
    → 30 < arena.w
    → 30 < arena.h
    → k < fuel
    → (let z = tried arena 30 30 k draws in
        arena_is_free_space blocked arena z.0 z.1 (pos 30) (pos 30) ≡ true)
    → (arena' : Arena) × (rest : ℕ → ℕ) × (x y : ℤ) × (tux_teleport fuel game blocked draws tux
          arena
        ≡ ok (arena', rest))
      × (tux_get_status (arena'.tuxes tux)
          ≡ record (tux_get_status (arena.tuxes tux)) { x = x; y = y })
      × (pos 0 ≤ℤ x)
      × (pos 0 ≤ℤ y)
      × (x +ℤ pos 30 ≤ℤ pos arena.w)
      × (y +ℤ pos 30 ≤ℤ pos arena.h)
      × Clear tux_kind arena.tuxes arena.space_tux x y (pos 30) (pos 30)
      × Clear shot_kind arena.shots arena.space_shot x y (pos 30) (pos 30)
      × Clear item_kind arena.items arena.space_item x y (pos 30) (pos 30)
      × (blocked x y (pos 30) (pos 30) ≡ false)
      × IsSpaceOf tux_kind arena.w arena.h arena'.tuxes arena'.space_tux
      × ((this : ℕ)
          → registered tux_kind arena'.tuxes arena'.space_tux this
            ≡ registered tux_kind arena.tuxes arena.space_tux this)
unfolding tux_teleport tux_kind
tux_teleport_lem fuel k game blocked draws tux arena here gt gs gi there wide high less free =
    let (x, y, rest, found, is_free) =
      arena_find_free_space_lem fuel k blocked arena draws 30 30 less wide high free in
    let (x0, y0, xa, yb, no_tux, no_shot, no_item, open_place) =
      arena_is_free_space_lem blocked arena x y (pos 30) (pos 30) gt gs gi (omega arith)
        (omega arith) is_free in
    let (tuxes, space, run, placed, c, reg) =
      space_move_object-IsConsistent tux_kind arena.tuxes arena.space_tux tux x y gt.consistent
        there in
    let grid =
      grid-space_move_object tux_kind arena.tuxes tuxes arena.space_tux space tux x y run in
    (
      record arena { tuxes = tuxes; space_tux = space },
      rest,
      x,
      y,
      rw here (rw found (rw run refl)),
      placed,
      x0,
      y0,
      xa,
      yb,
      no_tux,
      no_shot,
      no_item,
      open_place,
      record {
        consistent = c;
        grid_of = subst (IsGridOf arena.w arena.h) (sym grid) gt.grid_of;
        wide = λ this. (tux_size (tuxes this)).0;
        high = λ this. (tux_size (tuxes this)).1;
      },
      reg,
    )
