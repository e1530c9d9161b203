-- ===== src/Memory.antt =====
-- The C library's block functions, on a block of cells of one size: malloc, array access, memmove
-- and memcpy. An access outside the block is the fault `out_of_bounds`, and so is an address before
-- the block that is given to memmove or memcpy, whatever the length: C does not define it.
pub mod Blocks
use tuxanci_ng.Prelude.{
  ℕ, ◌+◌, ◌≤◌, ◌≡◌, ◌⊎◌, List, ◌++◌, Option, none, some, Result, ok, err, out_of_bounds, ◌>>=◌,
  of_option, if◌then◌else◌, leb, length, take, drop, replicate, get_elem?, set, ltb, arith,
}
use tuxanci_ng.Prelude.Int.{ℤ, pos, negsuc}

module _ {ℓ} {A : Type ℓ} where
  -- The contents of new memory are unspecified: `fill` stands for whatever they are.
  abbrev pub malloc : ℕ → A → List A
  malloc n fill = replicate n fill

  -- *(cells + i)
  unfoldable pub load : List A → ℤ → Result A
  load cells (pos i) = of_option (get_elem? cells i) out_of_bounds
  load cells (negsuc i) = err out_of_bounds

  -- *(cells + i) = a
  unfoldable pub store : List A → ℤ → A → Result (List A)
  store cells (pos i) a = if ltb i (length cells) then ok (set cells i a) else err out_of_bounds
  store cells (negsuc i) a = err out_of_bounds

  -- The `n` cells from `i` on; a negative length is a huge `size_t`.
  unfoldable pub read_block : List A → ℤ → ℤ → Result (List A)
  read_block cells (pos i) (pos n) =
      if leb (i + n) (length cells) then ok (take n (drop i cells)) else err out_of_bounds
  read_block cells (pos i) (negsuc n) = err out_of_bounds
  read_block cells (negsuc i) n = err out_of_bounds

  unfoldable pub write_block : List A → ℤ → List A → Result (List A)
  write_block cells (pos i) b =
      if leb (i + length b) (length cells)
      then ok (take i cells ++ (b ++ drop (i + length b) cells))
      else err out_of_bounds
  write_block cells (negsuc i) b = err out_of_bounds

  -- memmove(cells + dst, cells + src, n): overlapping blocks are copied as if through a buffer.
  unfoldable pub memmove : List A → ℤ → ℤ → ℤ → Result (List A)
  memmove cells dst src n = do b ← read_block cells src n; write_block cells dst b

  -- memcpy(to + dst, from + src, n) between two blocks.
  unfoldable pub memcpy : List A → ℤ → List A → ℤ → ℤ → Result (List A)
  memcpy to dst from src n = do b ← read_block from src n; write_block to dst b
