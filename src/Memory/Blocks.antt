-- ===== src/Memory/Blocks.antt =====
-- Block copies inside the bounds, and what they leave in the block.
use tuxanci_ng.Prelude.{
  ℕ, ◌+◌, ◌≤◌, ◌<◌, ◌≡◌, refl, List, ◌++◌, ok, err, out_of_bounds, arith, length, take, drop, set,
  length-append, length-take, length-drop,
}
use tuxanci_ng.Prelude.Int.{ℤ, pos, negsuc}
use tuxanci_ng.Memory.{store, read_block, write_block, memmove, memcpy}

module _ {ℓ} {A : Type ℓ} where
  -- A block of `k` cells written over the cells from `i` on.
  abbrev pub overwrite : List A → ℕ → List A → ℕ → List A
  overwrite cells i b k = take i cells ++ (b ++ drop (i + k) cells)

  pub store-set :
      (cells : List A) (i : ℕ) (a : A)
      → i < length cells
      → store cells (pos i) a ≡ ok (set cells i a)
  unfolding store
  store-set cells i a h = ground arith

  pub length-section :
      (cells : List A) (i k : ℕ) → i + k ≤ length cells → length (take k (drop i cells)) ≡ k
  length-section cells i k h = omega (arith, length-take k (drop i cells), length-drop i cells)

  pub length-overwrite :
      (cells b : List A) (i k : ℕ)
      → length b ≡ k
      → i + k ≤ length cells
      → length (overwrite cells i b k) ≡ length cells
  length-overwrite cells b i k e h = omega (
    arith,
    length-append (take i cells) (b ++ drop (i + k) cells),
    length-append b (drop (i + k) cells),
    length-take i cells,
    length-drop (i + k) cells,
  )

  pub read_block_lem :
      (cells : List A) (i k : ℕ)
      → i + k ≤ length cells
      → read_block cells (pos i) (pos k) ≡ ok (take k (drop i cells))
  unfolding read_block
  read_block_lem cells i k h = ground arith

  pub write_block_lem :
      (cells b : List A) (i k : ℕ)
      → length b ≡ k
      → i + k ≤ length cells
      → write_block cells (pos i) b ≡ ok (overwrite cells i b k)
  unfolding write_block
  write_block_lem cells b i k e h = rw e (ground arith)

  pub memcpy_lem :
      (to from : List A) (d s k : ℕ)
      → s + k ≤ length from
      → d + k ≤ length to
      → memcpy to (pos d) from (pos s) (pos k) ≡ ok (overwrite to d (take k (drop s from)) k)
  unfolding memcpy
  memcpy_lem to from d s k hs hd =
      rw (read_block_lem from s k hs)
        (write_block_lem to (take k (drop s from)) d k (length-section from s k hs) hd)

  pub memmove_lem :
      (cells : List A) (d s k : ℕ)
      → s + k ≤ length cells
      → d + k ≤ length cells
      → memmove cells (pos d) (pos s) (pos k) ≡ ok (overwrite cells d (take k (drop s cells)) k)
  unfolding memmove
  memmove_lem cells d s k hs hd =
      rw (read_block_lem cells s k hs)
        (write_block_lem cells (take k (drop s cells)) d k (length-section cells s k hs) hd)

  -- A copy to an address before the block faults.
  pub memmove_before :
      (cells : List A) (i : ℕ) (s n : ℤ) → memmove cells (negsuc i) s n ≡ err out_of_bounds
  unfolding memmove read_block write_block
  memmove_before cells i (pos s) (pos n) = ground arith
  memmove_before cells i (pos s) (negsuc n) = refl
  memmove_before cells i (negsuc s) n = refl
