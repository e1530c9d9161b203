-- ===== src/TextFile/Laws.antt =====
-- Reading a text file and writing it back.
use tuxanci_ng.Prelude.{
  ℕ, zero, suc, ◌+◌, ◌-◌, ◌≤◌, ◌<◌, ◌≡◌, refl, sym, ap, ◌∙◌, List, [], ◌∷◌, ◌++◌, append-nil,
  append_assoc, Bool, true, false, ◌&&◌, Option, some, ok, ◌==◌, arith, length, take, drop,
  length-append, take-append,
}
use tuxanci_ng.Sequence.{add}
use tuxanci_ng.Text.{c_text, newline, lacks, memchr-append, memchr-none, c_text-id}
use tuxanci_ng.TextFile.{
  is_fill_path, text_file_new, create_line_loop, create_line, text_file_load, print_lines,
  text_file_save,
}

-- Lines that hold no newline and no zero.
unfoldable pub are_lines : List (List ℕ) → Bool
are_lines [] = true
are_lines (line ∷ lines) = lacks newline line && (lacks 0 line && are_lines lines)

drop-line : (line rest : List ℕ) → drop (length line + 1) (line ++ newline ∷ rest) ≡ rest
drop-line [] rest = refl
drop-line (b ∷ line) rest =
    let e : suc (length line) + 1 ≡ suc (length line + 1) = omega arith in
    rw e (drop-line line rest)

length-line :
    (line rest : List ℕ) → length (line ++ newline ∷ rest) - (length line + 1) ≡ length rest
length-line line rest = omega (arith, length-append line (newline ∷ rest))

create_line_step :
    (fuel : ℕ) (list : List (List ℕ)) (line rest : List ℕ)
    → lacks newline line ≡ true
    → lacks 0 line ≡ true
    → create_line_loop (suc fuel) list (line ++ newline ∷ rest) (length (line ++ newline ∷ rest))
      ≡ create_line_loop fuel (add list line) rest (length rest)
unfolding create_line_loop
create_line_step fuel list line rest ends whole =
    let found =
      memchr-append newline line rest (length (line ++ newline ∷ rest)) ends
        (omega (arith, length-append line (newline ∷ rest))) in
    let text : c_text (take (length line) (line ++ newline ∷ rest)) ≡ line =
      ap c_text (take-append line (newline ∷ rest)) ∙ c_text-id line whole in
    rw found (rw (text, drop-line line rest, length-line line rest))

create_line_loop_lem :
    (fuel : ℕ) (list lines : List (List ℕ)) (tail : List ℕ)
    → are_lines lines ≡ true
    → lacks newline tail ≡ true
    → length lines < fuel
    → create_line_loop fuel list (print_lines lines ++ tail) (length (print_lines lines ++ tail))
      ≡ ok (list ++ lines)
unfolding are_lines print_lines
create_line_loop_lem zero list lines tail h t k = absurd (omega arith)
create_line_loop_lem (suc fuel) list [] tail h t k =
    unfold create_line_loop in rw (memchr-none newline tail t) (ap ok (sym (append-nil list)))
create_line_loop_lem (suc fuel) list (line ∷ lines) tail h t k =
    let rest : List ℕ = print_lines lines ++ tail in
    ap (λ (bytes : List ℕ). create_line_loop (suc fuel) list bytes (length bytes))
      (append_assoc line (newline ∷ print_lines lines) tail)
    ∙ create_line_step fuel list line rest (ground arith) (ground arith)
    ∙ create_line_loop_lem fuel (add list line) lines tail (ground arith) t (omega arith)
    ∙ ap ok (append_assoc list (line ∷ []) lines)

length-print_lines : (lines : List (List ℕ)) → length lines ≤ length (print_lines lines)
unfolding print_lines
length-print_lines [] = omega arith
length-print_lines (line ∷ lines) =
    omega (arith, length-print_lines lines, length-append line (newline ∷ print_lines lines))

-- createLine of lines that are each ended by a newline gives exactly these lines, where no line holds
-- a newline or a zero; what stands behind the last newline is dropped.
pub create_line_lem :
    (list lines : List (List ℕ)) (tail : List ℕ)
    → are_lines lines ≡ true
    → lacks newline tail ≡ true
    → create_line list (print_lines lines ++ tail) (length (print_lines lines ++ tail))
      ≡ ok (list ++ lines)
unfolding create_line
create_line_lem list lines tail h t =
    create_line_loop_lem (suc (length (print_lines lines ++ tail))) list lines tail h t
      (omega (arith, length-append (print_lines lines) tail, length-print_lines lines))

-- text_file_load of a file that text_file_save wrote gives the file back, where its path begins with a
-- slash and can be written, there is a line, and no line holds a newline or a zero.
pub text_file_load-text_file_save :
    (getcwd path : List ℕ) (lines : List (List ℕ)) (files : List ℕ → Option (List ℕ))
    (writable : List ℕ → Bool) (bytes : List ℕ)
    → is_fill_path path ≡ true
    → writable path ≡ true
    → 0 < length lines
    → are_lines lines ≡ true
    → text_file_save writable (record { file = path; text = lines }) ≡ ok bytes
    → files path ≡ some bytes
    → text_file_load getcwd files path ≡ ok (some (record { file = path; text = lines }))
unfolding text_file_load text_file_save text_file_new lacks
text_file_load-text_file_save getcwd path lines files writable bytes full may some_line h saved
      there =
    let content : print_lines lines ≡ bytes = ground arith in
    let read : create_line [] bytes (length bytes) ≡ ok lines =
      ap (λ (b : List ℕ). create_line [] b (length b))
        (sym content ∙ sym (append-nil (print_lines lines)))
      ∙ create_line_lem [] lines [] h refl in
    let filled : (length bytes == 0) ≡ false =
      ground (arith, length-print_lines lines, ap length content) in
    rw (there, text_file_load) (rw filled (rw full (rw read)))
