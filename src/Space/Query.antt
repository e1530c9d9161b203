-- ===== src/Space/Query.antt =====
-- src/base/space.c: space_is_conflict_with_object, against all objects of the space.
use tuxanci_ng.Prelude.{
  ℕ, ◌+◌, ◌/◌, ◌<◌, ◌≡◌, refl, sym, ap, subst, ◌∙◌, inl, inr, List, [], ◌∷◌, true, false, ◌&&◌,
  arith, if◌then◌else◌, ◌==◌, ==_iff, Bool-cases,
}
use tuxanci_ng.Prelude.Int.{ℤ, pos, ◌+ℤ◌, ◌≤ℤ◌, ◌<ℤ◌, ◌==ℤ◌, ==ℤ_iff}
use tuxanci_ng.Space.{
  Grid, Space, conflict, get_segment, visited, outside, hits, any_hit, any_zone,
  space_is_conflict_with_object,
}
use tuxanci_ng.Space.Objects.{ObjectKind}
use tuxanci_ng.Space.Zones.{count, occ}
use tuxanci_ng.Space.Visits.{occ-visited, share_zone}
use tuxanci_ng.Space.Invariant.{registered, zones_of, IsConsistent}

-- The grid that space_new makes for an arena of size a, b.
pub record IsGridOf (a b : ℕ) (g : Grid) : Type 0 where
  pub wide : g.w ≡ a / g.seg_w + 1
  pub high : g.h ≡ b / g.seg_h + 1
  pub seg_w_pos : 0 < g.seg_w
  pub seg_h_pos : 0 < g.seg_h

inside_grid :
    (g : Grid) (j i : ℤ)
    → pos 0 ≤ℤ j
    → j <ℤ pos g.w
    → pos 0 ≤ℤ i
    → i <ℤ pos g.h
    → outside g j i ≡ false
unfolding outside
inside_grid g j i a b c d = ground arith

module _ {ℓ} {O : Type ℓ} (kind : ObjectKind O) where
  any_hit-some :
      (heap : ℕ → O) (x y w h : ℤ) (l : List ℕ)
      → any_hit kind heap x y w h l ≡ true
      → (this : ℕ) × (0 < count this l) × (hits kind heap x y w h this ≡ true)
  unfolding any_hit count
  any_hit-some heap x y w h [] e = absurd (cc)
  any_hit-some heap x y w h (t ∷ l) e = elim (Bool-cases (hits kind heap x y w h t)) [
    | inl hit ↦ (t, rw ((==_iff t t).1 refl) (omega arith), hit)
    | inr miss ↦
        let (this, there, hit) = any_hit-some heap x y w h l (rw miss at e) in
        (this, ground arith, hit)
  ]

  pub any_zone-some :
      (heap : ℕ → O) (p : Space) (x y w h : ℤ) (cells : List (ℤ × ℤ))
      → any_zone kind heap p x y w h cells ≡ true
      → (this : ℕ) × (j : ℤ) × (i : ℤ) × (0 < count this (p.zone j i))
        × (hits kind heap x y w h this ≡ true)
  unfolding any_zone
  any_zone-some heap p x y w h [] e = absurd (cc)
  any_zone-some heap p x y w h ((j, i) ∷ cells) e =
      elim (Bool-cases (any_hit kind heap x y w h (p.zone j i))) [
        | inl found ↦
            let (this, there, hit) = any_hit-some heap x y w h (p.zone j i) found in
            (this, j, i, there, hit)
        | inr nothing ↦ any_zone-some heap p x y w h cells (rw nothing at e)
      ]

  any_hit-true :
      (heap : ℕ → O) (x y w h : ℤ) (l : List ℕ) (this : ℕ)
      → 0 < count this l
      → hits kind heap x y w h this ≡ true
      → any_hit kind heap x y w h l ≡ true
  unfolding any_hit count
  any_hit-true heap x y w h [] this e hit = absurd (omega arith)
  any_hit-true heap x y w h (t ∷ l) this e hit = elim (Bool-cases (t == this)) [
    | inl same ↦
        let hit' : hits kind heap x y w h t ≡ true =
          ap (λ o. hits kind heap x y w h o) ((==_iff t this).0 same) ∙ hit in
        rw hit'
    | inr other ↦
        let rest = any_hit-true heap x y w h l this (rw other at e) hit in
        rw rest (elim (Bool-cases (hits kind heap x y w h t)) [ inl a ↦ rw a | inr a ↦ rw a ])
  ]

  pub any_zone-true :
      (heap : ℕ → O) (p : Space) (x y w h : ℤ) (cells : List (ℤ × ℤ)) (this : ℕ) (j i : ℤ)
      → 0 < occ j i cells
      → 0 < count this (p.zone j i)
      → hits kind heap x y w h this ≡ true
      → any_zone kind heap p x y w h cells ≡ true
  unfolding any_zone occ
  any_zone-true heap p x y w h [] this j i o n hit = absurd (omega arith)
  any_zone-true heap p x y w h ((a, b) ∷ cells) this j i o n hit =
      elim (Bool-cases (any_hit kind heap x y w h (p.zone a b))) [
        | inl found ↦ rw found
        | inr nothing ↦ elim (Bool-cases ((j ==ℤ a) && (i ==ℤ b))) [
          | inr other ↦
              rw nothing (any_zone-true heap p x y w h cells this j i (rw other at o) n hit)
          | inl here ↦
              let ej : j ≡ a = (==ℤ_iff j a).0 (ground arith) in
              let ei : i ≡ b = (==ℤ_iff i b).0 (ground arith) in
              let n' : 0 < count this (p.zone a b) =
                subst (λ t. 0 < count this (p.zone t b)) ej
                  (subst (λ t. 0 < count this (p.zone j t)) ei n) in
              absurd (cc (sym nothing ∙ any_hit-true heap x y w h (p.zone a b) this n' hit))
        ]
      ]

  -- What stands in a zone is registered.
  pub in_zone :
      (heap : ℕ → O) (p : Space) (this : ℕ) (j i : ℤ)
      → IsConsistent kind heap p
      → 0 < count this (p.zone j i)
      → registered kind heap p this ≡ true
  in_zone heap p this j i c there = elim (Bool-cases (registered kind heap p this)) [
    | inl r ↦ r
    | inr r ↦
        let none_there : count this (p.zone j i) ≡ 0 =
          c.placed this j i ∙ ap (λ b. if b then occ j i (zones_of kind heap p this) else 0) r in
        absurd (omega arith)
  ]

  -- In a consistent space: when space_is_conflict_with_object says yes, some object of the space does overlap the rectangle.
  pub conflict_sound :
      (heap : ℕ → O) (p : Space) (x y w h : ℤ)
      → IsConsistent kind heap p
      → space_is_conflict_with_object kind heap p x y w h ≡ true
      → (this : ℕ) × (registered kind heap p this ≡ true)
        × (let s = kind.get_status (heap this) in conflict x y w h s.x s.y s.w s.h ≡ true)
  unfolding space_is_conflict_with_object hits
  conflict_sound heap p x y w h c e =
      let (this, j, i, there, hit) =
        any_zone-some heap p x y w h (visited p.grid (get_segment p.grid x y w h)) e in
      (this, in_zone heap p this j i c there, hit)

  -- A registered object that overlaps a rectangle inside the arena stands in a zone that the rectangle
  -- touches.
  pub common_zone :
      (heap : ℕ → O) (p : Space) (a b : ℕ) (x y w h : ℤ) (this : ℕ)
      → IsConsistent kind heap p
      → IsGridOf a b p.grid
      → pos 0 ≤ℤ x
      → pos 0 ≤ℤ y
      → pos 0 ≤ℤ w
      → pos 0 ≤ℤ h
      → x +ℤ w ≤ℤ pos a
      → y +ℤ h ≤ℤ pos b
      → pos 0 ≤ℤ (kind.get_status (heap this)).w
      → pos 0 ≤ℤ (kind.get_status (heap this)).h
      → registered kind heap p this ≡ true
      → (let s = kind.get_status (heap this) in conflict x y w h s.x s.y s.w s.h ≡ true)
      → (j i : ℤ) × (0 < occ j i (visited p.grid (get_segment p.grid x y w h)))
        × (0 < count this (p.zone j i))
  unfolding conflict get_segment
  common_zone heap p a b x y w h this c g x0 y0 w0 h0 xa yb sw sh there hit =
      let s = kind.get_status (heap this) in
      let (j, asked_x, held_x, j0, j1) =
        share_zone p.grid.seg_w a x w s.x s.w g.seg_w_pos w0 sw x0 xa (ground arith)
          (ground arith) in
      let (i, asked_y, held_y, i0, i1) =
        share_zone p.grid.seg_h b y h s.y s.h g.seg_h_pos h0 sh y0 yb (ground arith)
          (ground arith) in
      let j2 : j <ℤ pos p.grid.w = subst (λ t. j <ℤ pos t) (sym g.wide) j1 in
      let i2 : i <ℤ pos p.grid.h = subst (λ t. i <ℤ pos t) (sym g.high) i1 in
      let inner : outside p.grid j i ≡ false = inside_grid p.grid j i j0 j2 i0 i2 in
      let seen : 0 < occ j i (visited p.grid (get_segment p.grid x y w h)) =
        occ-visited p.grid (get_segment p.grid x y w h) j i inner asked_x.0 asked_x.1 asked_y.0
          asked_y.1 in
      let stands : 0 < occ j i (zones_of kind heap p this) =
        occ-visited p.grid (get_segment p.grid s.x s.y s.w s.h) j i inner held_x.0 held_x.1 held_y.0
          held_y.1 in
      let counted : count this (p.zone j i) ≡ occ j i (zones_of kind heap p this) =
        c.placed this j i ∙ ap (λ t. if t then occ j i (zones_of kind heap p this) else 0) there in
      (j, i, seen, subst (λ t. 0 < t) (sym counted) stands)

  -- In a consistent space whose grid is that of an arena of size a, b: when a registered object, of no
  -- negative size, overlaps a rectangle inside the arena, space_is_conflict_with_object
  -- says yes for that rectangle: looking only into the zones that it touches misses nothing.
  pub conflict_complete :
      (heap : ℕ → O) (p : Space) (a b : ℕ) (x y w h : ℤ) (this : ℕ)
      → IsConsistent kind heap p
      → IsGridOf a b p.grid
      → pos 0 ≤ℤ x
      → pos 0 ≤ℤ y
      → pos 0 ≤ℤ w
      → pos 0 ≤ℤ h
      → x +ℤ w ≤ℤ pos a
      → y +ℤ h ≤ℤ pos b
      → pos 0 ≤ℤ (kind.get_status (heap this)).w
      → pos 0 ≤ℤ (kind.get_status (heap this)).h
      → registered kind heap p this ≡ true
      → (let s = kind.get_status (heap this) in conflict x y w h s.x s.y s.w s.h ≡ true)
      → space_is_conflict_with_object kind heap p x y w h ≡ true
  unfolding space_is_conflict_with_object hits
  conflict_complete heap p a b x y w h this c g x0 y0 w0 h0 xa yb sw sh there hit =
      let (j, i, seen, stands) =
        common_zone heap p a b x y w h this c g x0 y0 w0 h0 xa yb sw sh there hit in
      any_zone-true heap p x y w h (visited p.grid (get_segment p.grid x y w h)) this j i seen
        stands hit
