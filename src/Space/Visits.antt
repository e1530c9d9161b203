-- ===== src/Space/Visits.antt =====
-- src/base/space.c: the zones that the nested loops visit, for rectangles that meet.
use native.Mathlib.Nat.{le-div_iff_mul-le, div-mul-le_self, le_trans}
use tuxanci_ng.Prelude.{
  ℕ, zero, suc, ◌+◌, ◌/◌, ◌≤◌, ◌<◌, ◌≡◌, subst, inl, inr, List, [], ◌∷◌, ◌++◌, Bool, true, false,
  ◌||◌, arith, Bool-cases,
}
use tuxanci_ng.Prelude.Int.{
  ℤ, pos, negsuc, ◌+ℤ◌, ◌-ℤ◌, ◌/ℤ◌, ◌≤ℤ◌, ◌<ℤ◌, leb_ℤ, ◌==ℤ◌, ==ℤ_iff, pos_part, int_laws, +ℤ_parts,
  -ℤ_parts,
}
use tuxanci_ng.Space.{Grid, Segment, range, outside, row, rows, visited}
use tuxanci_ng.Space.Zones.{occ}

-- C's division by a positive number keeps the order, also across 0.
div_mono : (d m n : ℕ) → 0 < d → m ≤ n → m / d ≤ n / d
div_mono d m n h le = (le-div_iff_mul-le h).1 (le_trans (div-mul-le_self m d) le)

pub /ℤ_mono : (d : ℕ) (a b : ℤ) → 0 < d → a ≤ℤ b → a /ℤ d ≤ℤ b /ℤ d
unfolding ◌/ℤ◌
/ℤ_mono d (pos a) (pos b) h le = ground (arith, div_mono d a b h)
/ℤ_mono d (pos a) (negsuc b) h le = absurd (omega arith)
/ℤ_mono d (negsuc a) (pos b) h le = ground arith
/ℤ_mono d (negsuc a) (negsuc b) h le = ground (arith, div_mono d (suc b) (suc a) h)

-- A counter from `from` on reaches every value of its rounds.
has : ℤ → List ℤ → Bool
has k [] = false
has k (x ∷ xs) = (k ==ℤ x) || has k xs

has-range : (from k : ℤ) (n : ℕ) → from ≤ℤ k → k <ℤ from +ℤ pos n → has k (range from n) ≡ true
unfolding range has
has-range from k zero lo hi = absurd (omega int_laws)
has-range from k (suc n) lo hi = elim (Bool-cases (k ==ℤ from)) [
  | inl here ↦ rw here
  | inr later ↦
      let next : from +ℤ pos 1 ≤ℤ k = ground (arith, +ℤ_parts from (pos 1), ==ℤ_iff k from) in
      rw later (
        has-range (from +ℤ pos 1) k n next (
          omega (
            arith,
            +ℤ_parts from (pos 1),
            +ℤ_parts (from +ℤ pos 1) (pos n),
            +ℤ_parts from (pos (suc n)),
          )))
]

occ-append : (j i : ℤ) (xs ys : List (ℤ × ℤ)) → occ j i (xs ++ ys) ≡ occ j i xs + occ j i ys
unfolding occ
occ-append j i [] ys = omega arith
occ-append j i ((a, b) ∷ xs) ys = ground (arith, occ-append j i xs ys)

occ-row :
    (p : Grid) (j i : ℤ) (js : List ℤ)
    → outside p j i ≡ false
    → has j js ≡ true
    → 0 < occ j i (row p i js)
unfolding occ row has
occ-row p j i [] inside h = absurd (cc)
occ-row p j i (a ∷ js) inside h = elim (Bool-cases (j ==ℤ a)) [
  | inl here ↦
      let e : outside p a i ≡ false = rw ((==ℤ_iff j a).0 here) at inside in
      rw (e, here) (ground (arith, ==ℤ_iff i i))
  | inr there ↦
      let ih : 0 < occ j i (row p i js) = occ-row p j i js inside (rw there at h) in
      elim (Bool-cases (outside p a i)) [ inl skip ↦ rw skip ih | inr keep ↦ rw (keep, there) ih ]
]

occ-rows :
    (p : Grid) (j i : ℤ) (is js : List ℤ)
    → outside p j i ≡ false
    → has i is ≡ true
    → has j js ≡ true
    → 0 < occ j i (rows p is js)
unfolding rows has
occ-rows p j i [] js inside hi hj = absurd (cc)
occ-rows p j i (b ∷ is) js inside hi hj = elim (Bool-cases (i ==ℤ b)) [
  | inl here ↦
      let e : i ≡ b = (==ℤ_iff i b).0 here in
      let first : 0 < occ j i (row p b js) =
        subst (λ t. 0 < occ j i (row p t js)) e (occ-row p j i js inside hj) in
      omega (arith, occ-append j i (row p b js) (rows p is js))
  | inr there ↦ omega (
    arith,
    occ-append j i (row p b js) (rows p is js),
    occ-rows p j i is js inside (rw there at hi) hj,
  )
]

-- A zone inside the grid that the segment covers is visited.
pub occ-visited :
    (p : Grid) (s : Segment) (j i : ℤ)
    → outside p j i ≡ false
    → s.seg_x ≤ℤ j
    → j <ℤ s.seg_x +ℤ s.seg_w
    → s.seg_y ≤ℤ i
    → i <ℤ s.seg_y +ℤ s.seg_h
    → 0 < occ j i (visited p s)
unfolding visited
occ-visited p s j i inside xl xh yl yh =
    occ-rows p j i _ _ inside
      (has-range s.seg_y i (pos_part s.seg_h) yl
        (omega (arith, +ℤ_parts s.seg_y (pos (pos_part s.seg_h)), +ℤ_parts s.seg_y s.seg_h)))
      (has-range s.seg_x j (pos_part s.seg_w) xl
        (omega (arith, +ℤ_parts s.seg_x (pos (pos_part s.seg_w)), +ℤ_parts s.seg_x s.seg_w)))

-- The width of a segment, in zones.
abbrev pub span : ℕ → ℤ → ℤ → ℤ
span s x w = (x +ℤ w) /ℤ s +ℤ pos 1 -ℤ x /ℤ s

-- A coordinate of a zone that covers `x`, `w`.
abbrev pub Covers : ℕ → ℤ → ℤ → ℤ → Type 0
Covers s x w j = (x /ℤ s ≤ℤ j) × (j <ℤ x /ℤ s +ℤ span s x w)

Covers_lem : (s : ℕ) (x w j : ℤ) → x /ℤ s ≤ℤ j → j ≤ℤ (x +ℤ w) /ℤ s → Covers s x w j
Covers_lem s x w j lo hi = (
  lo,
  omega (
    arith,
    +ℤ_parts (x /ℤ s) (span s x w),
    -ℤ_parts ((x +ℤ w) /ℤ s +ℤ pos 1) (x /ℤ s),
    +ℤ_parts ((x +ℤ w) /ℤ s) (pos 1),
  ),
)

zero_div : (s : ℕ) → pos 0 /ℤ s ≡ pos 0
unfolding ◌/ℤ◌
zero_div s = ground arith

pos_div : (s a : ℕ) → pos a /ℤ s ≡ pos (a / s)
unfolding ◌/ℤ◌
pos_div s a = ground arith

-- Along one axis: two intervals that meet, the first of them within 0 ... a, share a zone of the grid.
pub share_zone :
    (s a : ℕ) (x1 w1 x2 w2 : ℤ)
    → 0 < s
    → pos 0 ≤ℤ w1
    → pos 0 ≤ℤ w2
    → pos 0 ≤ℤ x1
    → x1 +ℤ w1 ≤ℤ pos a
    → x1 <ℤ x2 +ℤ w2
    → x2 <ℤ x1 +ℤ w1
    → (j : ℤ) × Covers s x1 w1 j × Covers s x2 w2 j × (pos 0 ≤ℤ j) × (j <ℤ pos (a / s + 1))
share_zone s a x1 w1 x2 w2 hs hw1 hw2 lo hi left right =
    let m11 = /ℤ_mono s x1 (x1 +ℤ w1) hs (omega (arith, +ℤ_parts x1 w1)) in
    let m22 = /ℤ_mono s x2 (x2 +ℤ w2) hs (omega (arith, +ℤ_parts x2 w2)) in
    let m12 = /ℤ_mono s x1 (x2 +ℤ w2) hs (omega (arith, left)) in
    let m21 = /ℤ_mono s x2 (x1 +ℤ w1) hs (omega (arith, right)) in
    let low : pos 0 ≤ℤ x1 /ℤ s = rw (zero_div s) at (/ℤ_mono s (pos 0) x1 hs lo) in
    let high : (x1 +ℤ w1) /ℤ s ≤ℤ pos (a / s) =
      rw (pos_div s a) at (/ℤ_mono s (x1 +ℤ w1) (pos a) hs hi) in
    elim (Bool-cases (leb_ℤ (x1 /ℤ s) (x2 /ℤ s))) [
      | inl le ↦
          let le' : x1 /ℤ s ≤ℤ x2 /ℤ s = ground arith in
          (
            x2 /ℤ s,
            Covers_lem s x1 w1 (x2 /ℤ s) le' m21,
            Covers_lem s x2 w2 (x2 /ℤ s) (omega arith) m22,
            omega arith,
            omega arith,
          )
      | inr gt ↦
          let gt' : x2 /ℤ s ≤ℤ x1 /ℤ s = ground arith in
          (
            x1 /ℤ s,
            Covers_lem s x1 w1 (x1 /ℤ s) (omega arith) m11,
            Covers_lem s x2 w2 (x1 /ℤ s) gt' m12,
            omega arith,
            omega arith,
          )
    ]
