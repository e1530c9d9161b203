-- ===== src/ConfigFile.antt =====
-- src/client/configFile.c: named values in the lines of a text file, written NAME="value". The array
-- that a value is copied to is a block of cells; the arrays of STR_SIZE characters fault where the code
-- writes behind their end.
pub mod Entries
pub mod Laws
use tuxanci_ng.Prelude.{
  ℕ, zero, suc, ◌+◌, ◌-◌, List, [], ◌∷◌, ◌++◌, Bool, true, false, Option, none, some, Result, ok,
  err, out_of_bounds, ◌>>=◌, ◌>>◌, guard, if◌then◌else◌, ltb, ◌==◌, length, take, drop, replicate,
}
use tuxanci_ng.Prelude.Int.{ℤ, pos, negsuc, ◌==ℤ◌}
use tuxanci_ng.Memory.{write_block}
use tuxanci_ng.Sequence.{add, insert_at, remove_at}
use tuxanci_ng.Text.{str_size, quote, starts_with, strstr, strchr}

-- strcpy into an array of STR_SIZE characters.
abbrev pub fits : List ℕ → Bool
fits text = ltb (length text) str_size

-- Where a line holds its value: the offsets behind the first quote that follows the name, and of the
-- next quote.
unfoldable pub value_offsets : List ℕ → List ℕ → Option (ℕ × ℕ)
value_offsets line env = elim (strstr line env) [
  | none ↦ none
  | some offset_env ↦ elim (strchr (drop offset_env line) quote) [
    | none ↦ none
    | some to_begin ↦ elim (strchr (drop (offset_env + to_begin + 1) line) quote) [
      | none ↦ none
      | some val_len ↦ some (offset_env + to_begin + 1, offset_env + to_begin + 1 + val_len)
    ]
  ]
]

-- What getValue returns, and the array `val` afterwards.
unfoldable pub get_value : List ℕ → List ℕ → List ℕ → ℕ → Result (ℤ × List ℕ)
get_value line env val len = guard (fits env) out_of_bounds >> (elim (value_offsets line env) [
  | none ↦ ok (negsuc 0, val)
  | some (begin, end) ↦ do
    guard (ltb 0 len) out_of_bounds
    let val_len = if ltb (len - 1) (end - begin) then len - 1 else end - begin
    cleared ← write_block val (pos 0) (replicate len 0)
    copied ← write_block cleared (pos 0) (take val_len (drop begin line))
    ok (pos 0, copied)
])

-- NULL is none.
unfoldable pub set_value : List ℕ → List ℕ → List ℕ → Result (Option (List ℕ))
set_value line env val = guard (fits env) out_of_bounds >> (elim (value_offsets line env) [
  | none ↦ ok none
  | some (begin, end) ↦ do
    let clone = take begin line ++ (val ++ drop end line)
    guard (fits clone) out_of_bounds
    ok (some clone)
])

unfoldable pub get_value_in_config_file : List (List ℕ) → List ℕ → List ℕ → ℕ → Result (ℤ × List ℕ)
get_value_in_config_file [] env val len = ok (negsuc 0, val)
get_value_in_config_file (line ∷ text) env val len =
    if starts_with line env
    then get_value line env val len
    else get_value_in_config_file text env val len

-- The loop of setValueInConfigFile over the lines from `i` on, with all lines.
unfoldable pub set_value_loop :
    List (List ℕ) → ℕ → List (List ℕ) → List ℕ → List ℕ → Result (ℤ × List (List ℕ))
set_value_loop [] i text env val = ok (negsuc 0, text)
set_value_loop (line ∷ rest) i text env val =
    let next = set_value_loop rest (i + 1) text env val in
    if starts_with line env
    then (set_value line env val >>= λ ret. elim ret [
      | none ↦ next
      | some new ↦ ok (pos 0, insert_at (remove_at text i) i new)
    ])
    else next

unfoldable pub set_value_in_config_file :
    List (List ℕ) → List ℕ → List ℕ → Result (ℤ × List (List ℕ))
set_value_in_config_file text env val = set_value_loop text 0 text env val

-- sprintf of the line that is added.
abbrev pub config_line : List ℕ → List ℕ → List ℕ
config_line env val = env ++ (b'=' ∷ quote ∷ (val ++ (quote ∷ [])))

-- The array `val` and the lines afterwards.
unfoldable pub load_value_from_config_file :
    List (List ℕ) → List ℕ → List ℕ → ℕ → List ℕ → Result (List ℕ × List (List ℕ))
load_value_from_config_file text env val len but_val =
    write_block val (pos 0) (but_val ++ (0 ∷ [])) >>= λ preset.
    get_value_in_config_file text env preset len >>= λ r.
    if r.0 ==ℤ pos 0
    then ok (r.1, text)
    else (guard (fits (config_line env but_val)) out_of_bounds
        >> ok (r.1, add text (config_line env but_val)))
