-- ===== src/KeyboardBuffer.antt =====
-- src/client/keyboardBuffer.c: the ring buffer of the keys that wait to be read. A key is an SDL_Keysym
-- of SDL, so its type is a parameter, with the key of zero bytes and the `emptyKey` of the file. The
-- static pointer is an Option, `none` for NULL; the indices never fall below zero.
pub mod Refine
use tuxanci_ng.Prelude.{
  ℕ, ◌+◌, ◌-◌, List, Bool, true, false, Option, none, some, Result, ok, err, assertion, ◌>>=◌, ◌>>◌,
  guard, if◌then◌else◌, ltb, leb, replicate,
}
use tuxanci_ng.Prelude.Int.{ℤ, pos, pos_part, ltb_ℤ}
use tuxanci_ng.Memory.{load, store}

-- keyboardBuffer_t
pub record KeyboardBuffer {ℓ} (K : Type ℓ) : Type ℓ where
  pub buff : List K
  pub begin : ℕ
  pub end : ℕ
  pub count : ℕ
  pub size : ℕ

-- An index one further, in the ring.
unfoldable pub step : ℕ → ℕ → ℕ
step size i = if leb size (i + 1) then 0 else i + 1

module _ {ℓ} {K : Type ℓ} where
  abbrev pub is_null : Option (KeyboardBuffer K) → Bool
  is_null none = true
  is_null (some b) = false

  unfoldable pub keyboard_buffer_init :
      K → Option (KeyboardBuffer K) → ℤ → Result (KeyboardBuffer K)
  keyboard_buffer_init zero_key current size = do
    guard (ltb_ℤ (pos 0) size) assertion
    guard (is_null current) assertion
    ok (record {
      buff = replicate (pos_part size) zero_key;
      begin = 0;
      end = 0;
      count = 0;
      size = pos_part size;
    })

  unfoldable pub keyboard_buffer_clear : K → KeyboardBuffer K → KeyboardBuffer K
  keyboard_buffer_clear zero_key b = record b {
    buff = replicate b.size zero_key;
    begin = 0;
    end = 0;
    count = 0;
  }

  -- The value returned, and the buffer afterwards.
  unfoldable pub keyboard_buffer_push : KeyboardBuffer K → K → Result (Bool × KeyboardBuffer K)
  keyboard_buffer_push b key = if leb b.size b.count then ok (false, b) else do
    buff ← store b.buff (pos b.end) key
    ok (true, record b { buff = buff; end = step b.size b.end; count = b.count + 1 })

  unfoldable pub keyboard_buffer_pop : K → KeyboardBuffer K → Result (K × KeyboardBuffer K)
  keyboard_buffer_pop empty_key b = if leb b.count 0 then ok (empty_key, b) else do
    key ← load b.buff (pos b.begin)
    buff ← store b.buff (pos b.begin) empty_key
    ok (key, record b { buff = buff; begin = step b.size b.begin; count = b.count - 1 })

  unfoldable pub keyboard_buffer_get_size : KeyboardBuffer K → ℕ
  keyboard_buffer_get_size b = b.size

  unfoldable pub keyboard_buffer_get_count : KeyboardBuffer K → ℕ
  keyboard_buffer_get_count b = b.count

  unfoldable pub keyboard_buffer_is_any_key : KeyboardBuffer K → Bool
  unfolding keyboard_buffer_get_count
  keyboard_buffer_is_any_key b = ltb 0 (keyboard_buffer_get_count b)
