-- ===== src/Buffer/Lines.antt =====
-- buffer_get_line and buffer_count_line: the buffer as a queue of lines.
use native.Mathlib.Nat.{zero-add}
use tuxanci_ng.Prelude.{
  ℕ, zero, suc, ◌+◌, ◌-◌, ◌%◌, ◌^◌, ◌≤◌, ◌<◌, ◌≡◌, refl, ap, ◌∙◌, ◌⊎◌, inl, inr, ◌≢◌, List, [], ◌∷◌,
  ◌++◌, true, false, none, some, ok, arith, if◌then◌else◌, ◌==◌, Bool-cases, length, take, drop,
  replicate, length-append, length-replicate, min,
}
use tuxanci_ng.Prelude.Int.{pos, negsuc, ◌-ℤ◌, leb_ℤ, ltb_ℤ}
use tuxanci_ng.Memory.Blocks.{overwrite, write_block_lem, length-overwrite}
use tuxanci_ng.Buffer.{
  BufferT, newline, memchr, count_line_loop, buffer_count_line, buffer_get_line,
}
use tuxanci_ng.Buffer.Queue.{Holds, hand_out-Holds}

-- No byte of the list is a newline.
abbrev pub NoNewline : List ℕ → Type 0
NoNewline [] = Unit
NoNewline (b ∷ bs) = (b ≢ newline) × NoNewline bs

unfoldable pub count_newlines : List ℕ → ℕ
count_newlines [] = 0
count_newlines (b ∷ bs) = if b == newline then suc (count_newlines bs) else count_newlines bs

-- The search looks at the first `n` bytes only.
memchr-take :
    (bytes : List ℕ) (c n : ℕ) → memchr bytes c n ≡ memchr (take n bytes) c (length (take n bytes))
unfolding memchr
memchr-take bytes c zero = refl
memchr-take [] c (suc n) = refl
memchr-take (b ∷ bytes) c (suc n) = rw (memchr-take bytes c n)

memchr-line :
    (l rest : List ℕ)
    → NoNewline l
    → memchr (l ++ newline ∷ rest) newline (length (l ++ newline ∷ rest)) ≡ some (length l)
unfolding memchr
memchr-line [] rest h = refl
memchr-line (b ∷ l) rest h =
    let test : (b == newline) ≡ false = ground (arith, h.0) in rw (test, memchr-line l rest h.1)

memchr-NoNewline : (l : List ℕ) → NoNewline l → memchr l newline (length l) ≡ none
unfolding memchr
memchr-NoNewline [] h = refl
memchr-NoNewline (b ∷ l) h =
    let test : (b == newline) ≡ false = ground (arith, h.0) in rw (test, memchr-NoNewline l h.1)

-- Every list of bytes is a line and what follows it, or has no newline.
pub split_line :
    (xs : List ℕ)
    → NoNewline xs ⊎ ((l : List ℕ) × (rest : List ℕ) × NoNewline l × (xs ≡ l ++ newline ∷ rest))
split_line [] = inl tt
split_line (b ∷ xs) = elim (Bool-cases (b == newline)) [
  | inl hit ↦ inr ([], xs, tt, ground arith)
  | inr miss ↦ elim (split_line xs) [
    | inl h ↦ inl (ground arith, h)
    | inr (l, rest, h, e) ↦ inr (b ∷ l, rest, (ground arith, h), ap (λ t. b ∷ t) e)
  ]
]

limit :
    (n m : ℕ)
    → 0 < n
    → (if ltb_ℤ (pos n -ℤ pos 1) (pos m) then pos n -ℤ pos 1 else pos m) ≡ pos (min m (n - 1))
unfolding ◌-ℤ◌
limit n m h = ground arith

module _ (p : BufferT) (line : List ℕ) (n : ℕ) (small : n < 2 ^ 31) where
  -- buffer_get_line with no complete line returns -1 and changes nothing.
  pub buffer_get_line-none :
      (xs : List ℕ)
      → Holds p xs
      → NoNewline xs
      → buffer_get_line p line (pos n) ≡ ok (negsuc 0, line, p)
  unfolding buffer_get_line
  buffer_get_line-none xs h free =
      let test : leb_ℤ (pos 0) (pos n) ≡ true = ground arith in
      let search : memchr p.bytes newline p.size ≡ none =
        memchr-take p.bytes newline p.size
        ∙ ap (λ t. memchr t newline (length t)) h.live
        ∙ memchr-NoNewline xs free in
      rw test (rw search)

  -- buffer_get_line into an array of at least `n` cells, n > 0: the first line with its newline, cut
  -- after n - 1 bytes, goes to the start of the array, zeros fill the `n` cells up, and the bytes
  -- handed out leave the buffer.
  pub buffer_get_line-Holds :
      (l rest : List ℕ)
      → Holds p (l ++ newline ∷ rest)
      → NoNewline l
      → 0 < n
      → n ≤ length line
      → let k = min (length l + 1) (n - 1) in
        (q : BufferT) × (buffer_get_line p line (pos n)
          ≡ ok (
            pos k,
            overwrite (overwrite line 0 (replicate n 0) n) 0 (take k (l ++ newline ∷ rest)) k,
            q,
          ))
        × Holds q (drop k (l ++ newline ∷ rest))
  unfolding buffer_get_line
  buffer_get_line-Holds l rest h free positive room =
      let k : ℕ = min (length l + 1) (n - 1) in
      let test : leb_ℤ (pos 0) (pos n) ≡ true = ground arith in
      let plain : n % 2 ^ 32 ≡ n = omega arith in
      let xs : List ℕ = l ++ newline ∷ rest in
      let search : memchr p.bytes newline p.size ≡ some (length l) =
        memchr-take p.bytes newline p.size
        ∙ ap (λ t. memchr t newline (length t)) h.live
        ∙ memchr-line l rest free in
      let blank : List ℕ = replicate n 0 in
      let zeros : length blank ≡ n = length-replicate {A = ℕ} n 0 in
      let cleared : List ℕ = overwrite line 0 blank n in
      let len : length cleared ≡ length line =
        length-overwrite line blank 0 n zeros (omega arith) in
      let ret : (if ltb_ℤ (pos n -ℤ pos 1) (pos (length l + 1))
            then pos n -ℤ pos 1
            else pos (length l + 1))
          ≡ pos k =
        limit n (length l + 1) positive in
      rw test (
        rw search (
          rw (ret, plain)
            (rw (write_block_lem line blank 0 n zeros (omega arith)) (
              hand_out-Holds p xs cleared k h (omega (arith, length-append l (newline ∷ rest)))
                (omega arith)))))

-- What one round of buffer_count_line finds.
memchr-count :
    (bytes : List ℕ) (n : ℕ)
    → ((memchr bytes newline n ≡ none) × (count_newlines (take n bytes) ≡ 0))
      ⊎ ((i : ℕ) × (memchr bytes newline n ≡ some i)
          × (i < n)
          × (count_newlines (take n bytes)
              ≡ suc (count_newlines (take (n - suc i) (drop (suc i) bytes)))))
unfolding memchr count_newlines
memchr-count bytes zero = inl (refl, refl)
memchr-count [] (suc n) = inl (refl, refl)
memchr-count (b ∷ bytes) (suc n) = elim (Bool-cases (b == newline)) [
  | inl hit ↦ let e : suc n - 1 ≡ n = omega arith in inr (0, rw hit, omega arith, rw (hit, e))
  | inr miss ↦ elim (memchr-count bytes n) [
    | inl (absent, zero_there) ↦ inl (rw (miss, absent), rw (miss, zero_there))
    | inr (i, there, lt, e) ↦
        let same : suc n - suc (suc i) ≡ n - suc i = omega arith in
        inr (suc i, rw (miss, there), omega arith, rw (miss, e, same))
  ]
]

count_line_loop_lem :
    (fuel : ℕ) (begin : List ℕ) (size count : ℕ)
    → size < fuel
    → count_line_loop fuel begin size count ≡ ok (count + count_newlines (take size begin))
unfolding count_line_loop
count_line_loop_lem zero begin size count h = absurd (omega arith)
count_line_loop_lem (suc fuel) begin size count h = elim (memchr-count begin size) [
  | inl (absent, none_there) ↦
      let e : count ≡ count + 0 = omega arith in rw (absent, count_line_loop, none_there) (ap ok e)
  | inr (i, there, lt, e) ↦
      let rest : ℕ = count_newlines (take (size - suc i) (drop (suc i) begin)) in
      let sum : count + 1 + rest ≡ count + suc rest = omega arith in
      rw (there, count_line_loop, e)
        (count_line_loop_lem fuel (drop (suc i) begin) (size - suc i) (count + 1) (omega arith)
          ∙ ap ok sum)
]

-- buffer_count_line ends and counts the newlines among the bytes that are there.
pub buffer_count_line-Holds :
    (p : BufferT) (xs : List ℕ) → Holds p xs → buffer_count_line p ≡ ok (count_newlines xs)
unfolding buffer_count_line
buffer_count_line-Holds p xs h =
    count_line_loop_lem (suc p.size) p.bytes p.size 0 (omega arith)
    ∙ ap (λ t. ok (0 + count_newlines t)) h.live
    ∙ ap ok (zero-add (count_newlines xs))
