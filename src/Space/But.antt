-- ===== src/Space/But.antt =====
-- src/base/space.c: space_is_conflict_with_object_but, against all objects of the space but one.
use tuxanci_ng.Prelude.{
  ℕ, ◌≡◌, refl, sym, ap, ap₂, ◌∙◌, inl, inr, List, [], ◌∷◌, Bool, true, false, arith, if◌then◌else◌,
  ◌==◌, Bool-cases,
}
use tuxanci_ng.Prelude.Int.{ℤ, pos, ◌+ℤ◌, ◌≤ℤ◌}
use tuxanci_ng.Space.{
  Space, conflict, get_segment, visited, hits, any_hit, any_zone, any_hit_but, any_zone_but,
  space_is_conflict_with_object_but,
}
use tuxanci_ng.Space.Objects.{ObjectKind}
use tuxanci_ng.Space.Zones.{count}
use tuxanci_ng.Space.Invariant.{registered, IsConsistent}
use tuxanci_ng.Space.Query.{IsGridOf, any_zone-some, any_zone-true, in_zone, common_zone}

-- A zone without one of its objects.
unfoldable pub others : ℕ → List ℕ → List ℕ
others but [] = []
others but (this ∷ zone) = if this == but then others but zone else this ∷ others but zone

count-others :
    (but this : ℕ) (zone : List ℕ)
    → count this (others but zone) ≡ (if this == but then 0 else count this zone)
unfolding others count
count-others but this [] = ground arith
count-others but this (t ∷ zone) = ground (arith, count-others but this zone)

module _ {ℓ} {O : Type ℓ} (kind : ObjectKind O) where
  any_hit-others :
      (but : ℕ) (heap : ℕ → O) (x y w h : ℤ) (zone : List ℕ)
      → any_hit_but kind but heap x y w h zone ≡ any_hit kind heap x y w h (others but zone)
  unfolding any_hit_but any_hit others
  any_hit-others but heap x y w h [] = refl
  any_hit-others but heap x y w h (this ∷ zone) =
      let rest = any_hit-others but heap x y w h zone in
      elim (Bool-cases (this == but)) [
        | inl it ↦ rw it rest
        | inr other ↦ rw other (ap (λ b. if hits kind heap x y w h this then true else b) rest)
      ]

  any_zone-others :
      (but : ℕ) (heap : ℕ → O) (p : Space) (x y w h : ℤ) (cells : List (ℤ × ℤ))
      → any_zone_but kind but heap p x y w h cells
        ≡ any_zone kind heap (record p { zone = λ j i. others but (p.zone j i) }) x y w h cells
  unfolding any_zone_but any_zone
  any_zone-others but heap p x y w h [] = refl
  any_zone-others but heap p x y w h ((j, i) ∷ cells) =
      ap₂ (λ (a b : Bool). if a then true else b) (any_hit-others but heap x y w h (p.zone j i))
        (any_zone-others but heap p x y w h cells)

  -- In a consistent space: when space_is_conflict_with_object_but says yes, an object of the space other
  -- than the given one overlaps the rectangle.
  pub conflict_but_sound :
      (heap : ℕ → O) (p : Space) (x y w h : ℤ) (but : ℕ)
      → IsConsistent kind heap p
      → space_is_conflict_with_object_but kind heap p x y w h but ≡ true
      → (this : ℕ) × ((this == but) ≡ false)
        × (registered kind heap p this ≡ true)
        × (let s = kind.get_status (heap this) in conflict x y w h s.x s.y s.w s.h ≡ true)
  unfolding space_is_conflict_with_object_but hits
  conflict_but_sound heap p x y w h but c e =
      let cells = visited p.grid (get_segment p.grid x y w h) in
      let (this, j, i, there, hit) =
        any_zone-some kind heap (record p { zone = λ j i. others but (p.zone j i) }) x y w h cells
          (sym (any_zone-others but heap p x y w h cells) ∙ e) in
      let n = count-others but this (p.zone j i) in
      elim (Bool-cases (this == but)) [
        | inl it ↦
            let z : count this (others but (p.zone j i)) ≡ 0 = n ∙ (rw it refl) in
            absurd (omega arith)
        | inr other ↦
            let k : count this (others but (p.zone j i)) ≡ count this (p.zone j i) =
              n ∙ (rw other refl) in
            (this, other, in_zone kind heap p this j i c (omega arith), hit)
      ]

  -- In a consistent space that fits an arena of size a, b: a registered object other than the given one
  -- that overlaps a rectangle inside the arena is noticed.
  pub conflict_but_complete :
      (heap : ℕ → O) (p : Space) (a b : ℕ) (x y w h : ℤ) (but this : ℕ)
      → IsConsistent kind heap p
      → IsGridOf a b p.grid
      → pos 0 ≤ℤ x
      → pos 0 ≤ℤ y
      → pos 0 ≤ℤ w
      → pos 0 ≤ℤ h
      → x +ℤ w ≤ℤ pos a
      → y +ℤ h ≤ℤ pos b
      → pos 0 ≤ℤ (kind.get_status (heap this)).w
      → pos 0 ≤ℤ (kind.get_status (heap this)).h
      → (this == but) ≡ false
      → registered kind heap p this ≡ true
      → (let s = kind.get_status (heap this) in conflict x y w h s.x s.y s.w s.h ≡ true)
      → space_is_conflict_with_object_but kind heap p x y w h but ≡ true
  unfolding space_is_conflict_with_object_but hits
  conflict_but_complete heap p a b x y w h but this c g x0 y0 w0 h0 xa yb sw sh other there hit =
      let cells = visited p.grid (get_segment p.grid x y w h) in
      let (j, i, looked, stands) =
        common_zone kind heap p a b x y w h this c g x0 y0 w0 h0 xa yb sw sh there hit in
      let k : count this (others but (p.zone j i)) ≡ count this (p.zone j i) =
        count-others but this (p.zone j i) ∙ (rw other refl) in
      any_zone-others but heap p x y w h cells
      ∙ any_zone-true kind heap (record p { zone = λ j i. others but (p.zone j i) }) x y w h cells
          this j i looked (omega arith) hit
