-- ===== src/Index/Bisect.antt =====
-- The int arithmetic of the two bisections: `min` is `lo`, and `max` is the last of `w` candidates.
use tuxanci_ng.Prelude.{ℕ, suc, ◌+◌, ◌-◌, ◌/◌, ◌≡◌, refl, ap, arith}
use tuxanci_ng.Prelude.Int.{ℤ, pos, negsuc, ◌+ℤ◌, ◌-ℤ◌, ◌/ℤ◌}
use tuxanci_ng.Index.{midpoint}

-- The `max` of `w` candidates from `lo` on.
abbrev pub last : ℕ → ℕ → ℤ
last lo w = pos (lo + w) -ℤ pos 1

pub last-suc : (lo v : ℕ) → last lo (suc v) ≡ pos (lo + v)
unfolding ◌-ℤ◌
last-suc lo v = ground arith

pub last-zero_zero : last 0 0 ≡ negsuc 0
unfolding ◌-ℤ◌
last-zero_zero = refl

pub last-zero : (lo : ℕ) → last (suc lo) 0 ≡ pos lo
unfolding ◌-ℤ◌
last-zero lo = ground arith

-- The candidate in the middle of `suc v`.
abbrev pub mid : ℕ → ℕ → ℕ
mid lo v = lo + v / 2

pub midpoint-suc : (lo v : ℕ) → midpoint (pos lo) (pos (lo + v)) ≡ pos (mid lo v)
unfolding midpoint ◌+ℤ◌ ◌-ℤ◌ ◌/ℤ◌
midpoint-suc lo v = ground arith

-- With no candidate left, C's division rounds (-1) / 2 to 0.
pub midpoint-zero : (lo : ℕ) → midpoint (pos (suc lo)) (pos lo) ≡ pos (suc lo)
unfolding midpoint ◌+ℤ◌ ◌-ℤ◌ ◌/ℤ◌
midpoint-zero lo = ground arith

pub point_plus : (n : ℕ) → pos n +ℤ pos 1 ≡ pos (n + 1)
unfolding ◌+ℤ◌
point_plus n = ground arith

-- The candidates above and below the middle.
abbrev pub upper : ℕ → ℕ → ℕ
upper lo v = v - v / 2

abbrev pub lower : ℕ → ℕ
lower v = v / 2

pub upper-last : (lo v : ℕ) → last lo (suc v) ≡ last (mid lo v + 1) (upper lo v)
upper-last lo v = ap (λ (n : ℕ). pos n -ℤ pos 1) (omega arith)

pub lower-last : (lo v : ℕ) → pos (mid lo v) -ℤ pos 1 ≡ last lo (lower v)
lower-last lo v = refl
