-- ===== src/Buffer/Queue.antt =====
-- A buffer_t is a bounded byte queue: each operation against the bytes that it holds.
use tuxanci_ng.Prelude.{
  ℕ, ◌+◌, ◌-◌, ◌%◌, ◌^◌, ◌≤◌, ◌<◌, ◌≡◌, refl, sym, ap, ◌∙◌, inl, inr, List, [], ◌++◌, true, false,
  ok, arith, leb, ltb, Bool-cases, length, take, drop, length-take, length-replicate, take_all,
  take-append_le, min,
}
use tuxanci_ng.Prelude.Int.{pos, negsuc, leb_ℤ}
use tuxanci_ng.Memory.Blocks.{overwrite, memmove_lem, memcpy_lem, length-overwrite, length-section}
use tuxanci_ng.Buffer.{
  BufferT, buffer_new, buffer_append, buffer_cut, buffer_get_data_len, hand_out,
}
use tuxanci_ng.Buffer.Bytes.{drop-take, take-take, take-overwrite}

-- The storage is there, is smaller than an int, and the first `size` bytes are `xs`.
pub record Holds (p : BufferT) (xs : List ℕ) : Type 0 where
  pub sized : length p.bytes ≡ p.alloc
  pub fits : p.size ≤ p.alloc
  pub small : p.alloc < 2 ^ 31
  pub live : take p.size p.bytes ≡ xs

pub Holds-size : {p : BufferT} {xs : List ℕ} → Holds p xs → p.size ≡ length xs
Holds-size {p} {xs} h = omega (arith, length-take p.size p.bytes, ap length h.live, h.fits, h.sized)

-- A new buffer is empty.
pub buffer_new-Holds : (n : ℕ) → n < 2 ^ 31 → Holds (buffer_new n) []
unfolding buffer_new
buffer_new-Holds n h = record {
  sized = length-replicate n 0;
  fits = omega arith;
  small = h;
  live = refl;
}

nonnegative : (n : ℕ) → leb_ℤ (pos 0) (pos n) ≡ true
nonnegative n = ground arith

-- buffer_append of `n` bytes that fit returns `n` and puts them behind the others.
pub buffer_append-Holds :
    (p : BufferT) (xs source : List ℕ) (n : ℕ)
    → Holds p xs
    → n ≤ length source
    → length xs + n ≤ p.alloc
    → (q : BufferT) × (buffer_append p source (pos n) ≡ ok (pos n, q))
      × Holds q (xs ++ take n source)
      × (q.alloc ≡ p.alloc)
unfolding buffer_append
buffer_append-Holds p xs source n h enough room =
    let plain : n % 2 ^ 32 ≡ n = omega (arith, h.small) in
    let sum : (p.size + n) % 2 ^ 32 ≡ p.size + n = omega (arith, Holds-size h, h.small) in
    let test : leb (p.size + n) p.alloc ≡ true = ground (arith, Holds-size h) in
    let block : length (take n source) ≡ n = omega (arith, length-take n source) in
    rw (nonnegative n, plain)
      (rw sum (
        rw test (
          rw
            (memcpy_lem p.bytes source p.size 0 n (omega arith)
              (omega (arith, Holds-size h, h.sized)))
            (
              record {
                bytes = overwrite p.bytes p.size (take n source) n;
                size = p.size + n;
                alloc = p.alloc;
              },
              refl,
              record {
                sized =
                    length-overwrite p.bytes (take n source) p.size n block
                      (omega (arith, Holds-size h, h.sized))
                    ∙ h.sized;
                fits = omega (arith, Holds-size h);
                small = h.small;
                live =
                    take-overwrite p.bytes (take n source) p.size n block
                      (omega (arith, h.fits, h.sized))
                    ∙ ap (λ t. t ++ take n source) h.live;
              },
              refl,
            ))))

-- buffer_append of `n` bytes that do not fit returns -1 and changes nothing.
pub buffer_append-full :
    (p : BufferT) (xs source : List ℕ) (n : ℕ)
    → Holds p xs
    → n < 2 ^ 31
    → p.alloc < length xs + n
    → buffer_append p source (pos n) ≡ ok (negsuc 0, p)
unfolding buffer_append
buffer_append-full p xs source n h small over =
    let plain : n % 2 ^ 32 ≡ n = omega arith in
    let sum : (p.size + n) % 2 ^ 32 ≡ p.size + n = omega (arith, h.fits, h.small) in
    let test : leb (p.size + n) p.alloc ≡ false = ground (arith, Holds-size h) in
    rw (nonnegative n, plain) (rw sum (rw test))

-- buffer_cut of at most the bytes that are there drops them from the front and returns 0.
pub buffer_cut-Holds :
    (p : BufferT) (xs : List ℕ) (n : ℕ)
    → Holds p xs
    → n ≤ length xs
    → (q : BufferT) × (buffer_cut p (pos n) ≡ ok (pos 0, q))
      × Holds q (drop n xs)
      × (q.alloc ≡ p.alloc)
unfolding buffer_cut
buffer_cut-Holds p xs n h le =
    let plain : n % 2 ^ 32 ≡ n = omega (arith, Holds-size h, h.fits, h.small) in
    let test : leb n p.size ≡ true = ground (arith, Holds-size h) in
    let k : ℕ = p.size - n in
    let block : length (take k (drop n p.bytes)) ≡ k =
      length-section p.bytes n k (omega (arith, Holds-size h, h.fits, h.sized)) in
    let kept : take k (overwrite p.bytes 0 (take k (drop n p.bytes)) k) ≡ drop n xs =
      take-append_le k (take k (drop n p.bytes)) (drop (0 + k) p.bytes) (omega arith)
      ∙ take_all k (take k (drop n p.bytes)) (omega arith)
      ∙ sym (drop-take n p.size p.bytes)
      ∙ ap (drop n) h.live in
    rw (nonnegative n, plain)
      (rw test (
        rw
          (memmove_lem p.bytes 0 n k (omega (arith, Holds-size h, h.fits, h.sized))
            (omega (arith, h.fits, h.sized)))
          (
            record {
              bytes = overwrite p.bytes 0 (take k (drop n p.bytes)) k;
              size = k;
              alloc = p.alloc;
            },
            refl,
            record {
              sized =
                  length-overwrite p.bytes (take k (drop n p.bytes)) 0 k block
                    (omega (arith, h.fits, h.sized))
                  ∙ h.sized;
              fits = omega (arith, h.fits);
              small = h.small;
              live = kept;
            },
            refl,
          )))

-- buffer_cut of more bytes than are there returns -1 and changes nothing.
pub buffer_cut-short :
    (p : BufferT) (xs : List ℕ) (n : ℕ)
    → Holds p xs
    → n < 2 ^ 31
    → length xs < n
    → buffer_cut p (pos n) ≡ ok (negsuc 0, p)
unfolding buffer_cut
buffer_cut-short p xs n h small over =
    let plain : n % 2 ^ 32 ≡ n = omega arith in
    let test : leb n p.size ≡ false = ground (arith, Holds-size h) in
    rw (nonnegative n, plain) (rw test)

-- hand_out of `k` bytes that are there writes them to the start of `line` and drops them.
pub hand_out-Holds :
    (p : BufferT) (xs line : List ℕ) (k : ℕ)
    → Holds p xs
    → k ≤ length xs
    → k ≤ length line
    → (q : BufferT) × (hand_out p line (pos k) ≡ ok (pos k, overwrite line 0 (take k xs) k, q))
      × Holds q (drop k xs)
unfolding hand_out
hand_out-Holds p xs line k h le room =
    let (q, cut, hq, same) = buffer_cut-Holds p xs k h le in
    let out : take k p.bytes ≡ take k xs =
      take-take k p.size p.bytes (omega (arith, Holds-size h)) ∙ ap (take k) h.live in
    rw
      (
        memcpy_lem line p.bytes 0 0 k (omega (arith, Holds-size h, h.fits, h.sized)) (omega arith),
        cut,
      )
      (q, ap (λ t. ok (pos k, overwrite line 0 t k, q)) out, hq)

-- buffer_get_data_len into an array of at least `n` cells takes the first min(n, size) bytes out,
-- writes them to the start of the array, leaves the rest of the array, and returns their number.
pub buffer_get_data_len-Holds :
    (p : BufferT) (xs line : List ℕ) (n : ℕ)
    → Holds p xs
    → n < 2 ^ 31
    → n ≤ length line
    → let k = min (length xs) n in
      (q : BufferT) × (buffer_get_data_len p line (pos n)
        ≡ ok (pos k, overwrite line 0 (take k xs) k, q))
      × Holds q (drop k xs)
unfolding buffer_get_data_len
buffer_get_data_len-Holds p xs line n h small room =
    let plain : n % 2 ^ 32 ≡ n = omega arith in
    elim (Bool-cases (ltb p.size n)) [
      | inl less ↦
          let k : min (length xs) n ≡ length xs = ground (arith, Holds-size h) in
          let e : pos p.size ≡ pos (length xs) = ap pos (Holds-size h) in
          rw (nonnegative n, plain)
            (rw (less, e, k)
              (hand_out-Holds p xs line (length xs) h (omega arith) (ground (arith, Holds-size h))))
      | inr enough ↦
          let k : min (length xs) n ≡ n = ground (arith, Holds-size h) in
          rw (nonnegative n, plain)
            (rw (enough, k) (hand_out-Holds p xs line n h (ground (arith, Holds-size h)) room))
    ]
