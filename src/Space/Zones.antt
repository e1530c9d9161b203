-- ===== src/Space/Zones.antt =====
-- How often an object stands in a zone, before and after the loops of space_add and space_del.
use native.Mathlib.Nat.{add-zero}
use tuxanci_ng.Prelude.{
  ℕ, suc, ◌+◌, ◌≤◌, ◌<◌, ◌≡◌, refl, ◌∙◌, inl, inr, List, [], ◌∷◌, ◌&&◌, some, ok, arith,
  if◌then◌else◌, ◌==◌, ==_iff, Bool-cases,
}
use tuxanci_ng.Prelude.Int.{ℤ, ◌==ℤ◌, ==ℤ_iff}
use tuxanci_ng.Sequence.{add, remove_at, index_of}
use tuxanci_ng.Space.{set_zone, add_zones, del_zones}

unfoldable pub count : ℕ → List ℕ → ℕ
count t [] = 0
count t (x ∷ xs) = if x == t then suc (count t xs) else count t xs

-- How often the zone j, i stands in a list of zones.
unfoldable pub occ : ℤ → ℤ → List (ℤ × ℤ) → ℕ
occ j i [] = 0
occ j i ((a, b) ∷ cells) = if (j ==ℤ a) && (i ==ℤ b) then suc (occ j i cells) else occ j i cells

pub count-add : (t a : ℕ) (l : List ℕ) → count t (add l a) ≡ count t l + (if a == t then 1 else 0)
unfolding count
count-add t a [] = ground arith
count-add t a (x ∷ l) = ground (arith, count-add t a l)

pub count-add_zones :
    (t item : ℕ) (cells : List (ℤ × ℤ)) (zone : ℤ → ℤ → List ℕ) (j i : ℤ)
    → count t (add_zones item cells zone j i)
      ≡ count t (zone j i) + (if item == t then occ j i cells else 0)
unfolding add_zones occ
count-add_zones t item [] zone j i = ground arith
count-add_zones t item ((a, b) ∷ cells) zone j i =
    count-add_zones t item cells (set_zone zone a b (add (zone a b) item)) j i ∙ step
  where
    step :
        count t (set_zone zone a b (add (zone a b) item) j i)
          + (if item == t then occ j i cells else 0)
        ≡ count t (zone j i)
          + (if item == t
              then (if (j ==ℤ a) && (i ==ℤ b) then suc (occ j i cells) else occ j i cells)
              else 0)
    step = elim (Bool-cases (j ==ℤ a)) [
      | inr other ↦ rw other
      | inl same ↦ elim (Bool-cases (i ==ℤ b)) [
        | inr other ↦ rw (same, other)
        | inl same' ↦
            let ej : j ≡ a = (==ℤ_iff j a).0 same in
            let ei : i ≡ b = (==ℤ_iff i b).0 same' in
            rw (same, same') (rw (count-add t item (zone a b), ej, ei) (ground arith))
      ]
    ]

-- An object that stands in a list is found, and removing the place found takes one off its count.
pub index_of-count :
    (item : ℕ) (l : List ℕ)
    → 0 < count item l
    → (k : ℕ) × (index_of ◌==◌ item l ≡ some k)
      × ((t : ℕ) → count t (remove_at l k) + (if item == t then 1 else 0) ≡ count t l)
unfolding count
index_of-count item [] h = absurd (omega arith)
index_of-count item (x ∷ l) h = elim (Bool-cases (x == item)) [
  | inl hit ↦ (0, rw hit, λ t. ground (arith, ==_iff x item))
  | inr miss ↦
      let (k, found, less) = index_of-count item l (rw miss at h) in
      (suc k, rw (miss, found), λ t. ground (arith, less t))
]

-- Replacing one zone changes the counts there only.
set_zone-count :
    (zone : ℤ → ℤ → List ℕ) (a b : ℤ) (l : List ℕ) (t d : ℕ)
    → count t l + d ≡ count t (zone a b)
    → (j i : ℤ)
    → count t (set_zone zone a b l j i) + (if (j ==ℤ a) && (i ==ℤ b) then d else 0)
      ≡ count t (zone j i)
set_zone-count zone a b l t d h j i = elim (Bool-cases (j ==ℤ a)) [
  | inr other ↦ rw other (add-zero (count t (zone j i)))
  | inl same ↦ elim (Bool-cases (i ==ℤ b)) [
    | inr other ↦ rw (same, other) (add-zero (count t (zone j i)))
    | inl same' ↦
        let ej : j ≡ a = (==ℤ_iff j a).0 same in
        let ei : i ≡ b = (==ℤ_iff i b).0 same' in rw (same, same') (rw (ej, ei) h)
  ]
]

pub del_zones-count :
    (item : ℕ) (cells : List (ℤ × ℤ)) (zone : ℤ → ℤ → List ℕ)
    → ((j i : ℤ) → occ j i cells ≤ count item (zone j i))
    → (zone' : ℤ → ℤ → List ℕ) × (del_zones item cells zone ≡ ok zone')
      × ((t : ℕ) (j i : ℤ)
          → count t (zone' j i) + (if item == t then occ j i cells else 0) ≡ count t (zone j i))
unfolding del_zones occ
del_zones-count item [] zone h = (zone, refl, λ t j i. ground arith)
del_zones-count item ((a, b) ∷ cells) zone h =
    let there : 0 < count item (zone a b) = ground (arith, h a b, ==ℤ_iff a a, ==ℤ_iff b b) in
    let (k, found, less) = index_of-count item (zone a b) there in
    let next : ℤ → ℤ → List ℕ = set_zone zone a b (remove_at (zone a b) k) in
    let step = set_zone-count zone a b (remove_at (zone a b) k) in
    let (zone', run, counts) =
      del_zones-count item cells next
        (λ j i. ground (arith, h j i, step item 1 (ground (arith, less item)) j i)) in
    (
      zone',
      rw found run,
      λ t j i. ground (arith, counts t j i, step t (if item == t then 1 else 0) (less t) j i),
    )
