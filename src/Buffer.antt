-- ===== src/Buffer.antt =====
-- src/base/buffer.c and src/base/buffer.h: the bounded byte buffer of a network connection.
-- Bytes are numbers; `size` and `alloc` are unsigned 32-bit numbers.
pub mod Bytes
pub mod Queue
pub mod Lines
use tuxanci_ng.Prelude.{
  ℕ, zero, suc, ◌+◌, ◌-◌, ◌%◌, ◌^◌, ◌≤◌, List, [], ◌∷◌, Option, none, some, Result, ok, err,
  assertion, out_of_fuel, ◌>>=◌, ◌>>◌, guard, if◌then◌else◌, leb, ltb, ◌==◌, length, replicate,
  drop,
}
use tuxanci_ng.Prelude.Int.{ℤ, pos, negsuc, ◌-ℤ◌, leb_ℤ, ltb_ℤ}
use tuxanci_ng.Memory.{malloc, memmove, memcpy, write_block}

pub record BufferT : Type 0 where
  pub bytes : List ℕ
  pub size : ℕ
  pub alloc : ℕ

abbrev pub newline : ℕ
newline = 10

-- (unsigned) x, for a 32-bit int.
abbrev pub unsigned : ℤ → ℕ
unsigned (pos n) = n % 2 ^ 32
unsigned (negsuc n) = (2 ^ 32 - 1 - n % 2 ^ 32) % 2 ^ 32

-- malloc and memset: all bytes are 0.
unfoldable pub buffer_new : ℕ → BufferT
buffer_new n = record { bytes = replicate n 0; size = 0; alloc = n }

unfoldable pub buffer_get_size : BufferT → ℕ
buffer_get_size p = p.size

-- The result is what the function returns, and the buffer.
unfoldable pub buffer_append : BufferT → List ℕ → ℤ → Result (ℤ × BufferT)
buffer_append p source len = guard (leb_ℤ (pos 0) len) assertion >>= λ _.
    if leb ((p.size + unsigned len) % 2 ^ 32) p.alloc
    then (memcpy p.bytes (pos p.size) source (pos 0) len >>= λ bytes.
        ok (len, record p { bytes = bytes; size = (p.size + unsigned len) % 2 ^ 32 }))
    else ok (negsuc 0, p)

unfoldable pub buffer_cut : BufferT → ℤ → Result (ℤ × BufferT)
buffer_cut p len = guard (leb_ℤ (pos 0) len) assertion >>= λ _.
    if leb (unsigned len) p.size
    then (memmove p.bytes (pos 0) len (pos (p.size - unsigned len)) >>= λ bytes.
        ok (pos 0, record p { bytes = bytes; size = p.size - unsigned len }))
    else ok (negsuc 0, p)

-- memchr(bytes, c, n), as the distance of the byte from the start.
unfoldable pub memchr : List ℕ → ℕ → ℕ → Option ℕ
memchr bytes c zero = none
memchr [] c (suc n) = none
memchr (b ∷ bytes) c (suc n) =
    if b == c then some 0 else elim (memchr bytes c n) [ none ↦ none | some i ↦ some (suc i) ]

-- The while of buffer_count_line; the first argument bounds its rounds.
unfoldable pub count_line_loop : ℕ → List ℕ → ℕ → ℕ → Result ℕ
count_line_loop zero begin size count = err out_of_fuel
count_line_loop (suc fuel) begin size count = elim (memchr begin newline size) [
  | none ↦ ok count
  | some end ↦ count_line_loop fuel (drop (suc end) begin) (size - suc end) (count + 1)
]

unfoldable pub buffer_count_line : BufferT → Result ℕ
buffer_count_line p = count_line_loop (suc p.size) p.bytes p.size 0

-- memcpy(line, p->data, n); buffer_cut(p, n); return n; as two functions end.
unfoldable pub hand_out : BufferT → List ℕ → ℤ → Result (ℤ × List ℕ × BufferT)
hand_out p line n = memcpy line (pos 0) p.bytes (pos 0) n >>= λ filled.
    buffer_cut p n >>= λ (r, q). ok (n, filled, q)

-- `line` is the caller's array; the result is the return value, the array and the buffer.
unfoldable pub buffer_get_line : BufferT → List ℕ → ℤ → Result (ℤ × List ℕ × BufferT)
buffer_get_line p line len = guard (leb_ℤ (pos 0) len) assertion >>= λ _.
    elim (memchr p.bytes newline p.size) [
      | none ↦ ok (negsuc 0, line, p)
      | some end ↦
          let ret_len =
            if ltb_ℤ (len -ℤ pos 1) (pos (end + 1)) then len -ℤ pos 1 else pos (end + 1) in
          write_block line (pos 0) (replicate (unsigned len) 0) >>= λ cleared.
          hand_out p cleared ret_len
    ]

unfoldable pub buffer_get_data_len : BufferT → List ℕ → ℤ → Result (ℤ × List ℕ × BufferT)
buffer_get_data_len p line len = guard (leb_ℤ (pos 0) len) assertion >>= λ _.
    hand_out p line (if ltb p.size (unsigned len) then pos p.size else len)
