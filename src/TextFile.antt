-- ===== src/TextFile.antt =====
-- src/base/textFile.c: text files read into a list of lines and written back. `files` says what each
-- path holds, none where lstat or fopen for reading fails; `writable` where fopen for writing works;
-- `getcwd` is what that function writes. text_file_print only prints.
pub mod Laws
use tuxanci_ng.Prelude.{
  ℕ, zero, suc, ◌+◌, ◌-◌, List, [], ◌∷◌, ◌++◌, Bool, true, false, Option, none, some, Result, ok,
  err, out_of_bounds, out_of_fuel, ◌>>=◌, if◌then◌else◌, ◌==◌, length, take, drop,
}
use tuxanci_ng.Sequence.{add}
use tuxanci_ng.Text.{c_text, memchr, newline}

-- textFile_t
pub record TextFile : Type 0 where
  pub file : List ℕ
  pub text : List (List ℕ)

-- isFillPath of main.c, where it is not built for Windows.
unfoldable pub is_fill_path : List ℕ → Bool
is_fill_path [] = false
is_fill_path (b ∷ path) = b == b'/'

unfoldable pub text_file_new : List ℕ → List ℕ → TextFile
unfolding is_fill_path
text_file_new getcwd s = record {
  file = if is_fill_path s then s else getcwd ++ (b'/' ∷ s);
  text = [];
}

-- The loop of createLine, on the bytes from begin_line on.
unfoldable pub create_line_loop : ℕ → List (List ℕ) → List ℕ → ℕ → Result (List (List ℕ))
create_line_loop zero list begin_line len = err out_of_fuel
create_line_loop (suc fuel) list begin_line len = memchr begin_line newline len >>= λ found.
    elim found [
      | none ↦ ok list
      | some length_line ↦
          create_line_loop fuel (add list (c_text (take length_line begin_line)))
            (drop (length_line + 1) begin_line) (len - (length_line + 1))
    ]

unfoldable pub create_line : List (List ℕ) → List ℕ → ℕ → Result (List (List ℕ))
create_line list p len = create_line_loop (suc len) list p len

-- NULL is none. fread of no bytes does not return 1.
unfoldable pub text_file_load :
    List ℕ → (List ℕ → Option (List ℕ)) → List ℕ → Result (Option TextFile)
text_file_load getcwd files s = elim (files s) [
  | none ↦ ok none
  | some p ↦
      if length p == 0
      then ok none
      else create_line (text_file_new getcwd s).text p (length p) >>= λ text.
          ok (some (record { file = (text_file_new getcwd s).file; text = text }))
]

-- What the loop of text_file_save prints.
unfoldable pub print_lines : List (List ℕ) → List ℕ
print_lines [] = []
print_lines (line ∷ lines) = line ++ (newline ∷ print_lines lines)

-- What the path of the file holds afterwards. The code does not test what fopen returns.
unfoldable pub text_file_save : (List ℕ → Bool) → TextFile → Result (List ℕ)
text_file_save writable p = if writable p.file then ok (print_lines p.text) else err out_of_bounds
