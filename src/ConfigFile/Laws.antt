-- ===== src/ConfigFile/Laws.antt =====
-- Setting and reading a value of a configuration file.
use tuxanci_ng.Prelude.{
  ℕ, suc, ◌+◌, ◌≤◌, ◌<◌, ◌≡◌, refl, sym, ap, ◌∙◌, inl, inr, List, [], ◌∷◌, ◌++◌, append_assoc, Bool,
  true, false, ◌&&◌, not, ok, ◌==◌, arith, Bool-cases, length, drop, length-append, lt→ltb, ltb→lt,
}
use tuxanci_ng.Prelude.Int.{pos, negsuc}
use tuxanci_ng.Sequence.{add, insert_at, remove_at}
use tuxanci_ng.Text.{str_size, quote, starts_with, lacks, starts_with_self}
use tuxanci_ng.ConfigFile.{
  fits, get_value_in_config_file, set_value_loop, set_value_in_config_file, config_line,
  load_value_from_config_file,
}
use tuxanci_ng.ConfigFile.Entries.{
  entry, filled, starts_with-quote, set_value-entry, get_value-entry, write_block-front,
}

-- No line begins with the name.
unfoldable pub none_starts : List ℕ → List (List ℕ) → Bool
none_starts env [] = true
none_starts env (line ∷ text) = not (starts_with line env) && none_starts env text

get-skip :
    (env array : List ℕ) (len : ℕ) (before text : List (List ℕ))
    → none_starts env before ≡ true
    → get_value_in_config_file (before ++ text) env array len
      ≡ get_value_in_config_file text env array len
unfolding get_value_in_config_file none_starts
get-skip env array len [] text h = refl
get-skip env array len (line ∷ before) text h = elim (Bool-cases (starts_with line env)) [
  | inl this ↦ let s : not (starts_with line env) ≡ false = ap not this in ground arith
  | inr other ↦ rw other (get-skip env array len before text (ground arith))
]

set-skip :
    (env val : List ℕ) (all : List (List ℕ)) (i : ℕ) (before text : List (List ℕ))
    → none_starts env before ≡ true
    → set_value_loop (before ++ text) i all env val
      ≡ set_value_loop text (i + length before) all env val
unfolding set_value_loop none_starts
set-skip env val all i [] text h = let e : i + 0 ≡ i = omega arith in rw e
set-skip env val all i (line ∷ before) text h = elim (Bool-cases (starts_with line env)) [
  | inl this ↦ let s : not (starts_with line env) ≡ false = ap not this in ground arith
  | inr other ↦
      let e : i + 1 + length before ≡ i + suc (length before) = omega arith in
      rw other (
        set-skip env val all (i + 1) before text (ground arith)
        ∙ ap (λ (j : ℕ). set_value_loop text j all env val) e)
]

replace_middle :
    (before after : List (List ℕ)) (x y : List ℕ)
    → insert_at (remove_at (before ++ x ∷ after) (length before)) (length before) y
      ≡ before ++ y ∷ after
replace_middle [] after x y = refl
replace_middle (b ∷ before) after x y = ap (λ t. b ∷ t) (replace_middle before after x y)

module _ (env pre value rest val : List ℕ) (before after : List (List ℕ))
    (first : none_starts env before ≡ true) (starts : starts_with pre env ≡ true)
    (plain_env : lacks quote env ≡ true) (plain_pre : lacks quote pre ≡ true)
    (plain_value : lacks quote value ≡ true) (short : fits env ≡ true) where
  set_value_in_config_file-entry :
      fits (entry pre val rest) ≡ true
      → set_value_in_config_file (before ++ entry pre value rest ∷ after) env val
        ≡ ok (pos 0, before ++ entry pre val rest ∷ after)
  unfolding set_value_in_config_file set_value_loop
  set_value_in_config_file-entry enough =
      let all : List (List ℕ) = before ++ entry pre value rest ∷ after in
      let here : starts_with (entry pre value rest) env ≡ true =
        starts_with-quote pre env (value ++ quote ∷ rest) plain_env ∙ starts in
      let index : 0 + length before ≡ length before = omega arith in
      set-skip env val all 0 before (entry pre value rest ∷ after) first
      ∙ (rw (here, set_value_loop)
          (rw
            (set_value-entry env pre value rest val starts plain_env plain_pre plain_value short
              enough)
            (rw index (
              ap (λ (t : List (List ℕ)). ok (pos 0, t))
                (replace_middle before after (entry pre value rest) (entry pre val rest))))))

  get_value_in_config_file-entry :
      (array : List ℕ) (len : ℕ)
      → length value < len
      → len ≤ length array
      → get_value_in_config_file (before ++ entry pre value rest ∷ after) env array len
        ≡ ok (pos 0, filled value len array)
  unfolding get_value_in_config_file
  get_value_in_config_file-entry array len small room =
      let here : starts_with (entry pre value rest) env ≡ true =
        starts_with-quote pre env (value ++ quote ∷ rest) plain_env ∙ starts in
      get-skip env array len before (entry pre value rest ∷ after) first
      ∙ rw here (
          get_value-entry env pre value rest array len starts plain_env plain_pre plain_value short
            small room)

-- setValueInConfigFile of a name finds the first line that begins with it; where the name stands in
-- front of the first quote of that line, the line has a value, neither the name nor the new value holds
-- a quote, and name and line fit into STR_SIZE characters, it returns 0 and writes the value there.
-- getValueInConfigFile then returns 0 and copies the new value, with zeros behind it, to an array that
-- has room for it.
pub get_value-set_value :
    (env pre value rest val array : List ℕ) (len : ℕ) (before after : List (List ℕ))
    → none_starts env before ≡ true
    → starts_with pre env ≡ true
    → lacks quote env ≡ true
    → lacks quote pre ≡ true
    → lacks quote value ≡ true
    → lacks quote val ≡ true
    → fits env ≡ true
    → fits (entry pre val rest) ≡ true
    → length val < len
    → len ≤ length array
    → (text : List (List ℕ)) × (set_value_in_config_file
          (before ++ entry pre value rest ∷ after)
          env
          val
        ≡ ok (pos 0, text))
      × (get_value_in_config_file text env array len ≡ ok (pos 0, filled val len array))
get_value-set_value env pre value rest val array len before after first starts plain_env plain_pre
      plain_value plain_val short enough small room =
    (
      before ++ entry pre val rest ∷ after,
      set_value_in_config_file-entry env pre value rest val before after first starts plain_env
          plain_pre plain_value short enough,
      get_value_in_config_file-entry env pre val rest val before after first starts plain_env
          plain_pre plain_val short array len small room,
    )

get-others :
    (env array : List ℕ) (len : ℕ) (old new : List ℕ) (before after : List (List ℕ))
    → starts_with old env ≡ false
    → starts_with new env ≡ false
    → get_value_in_config_file (before ++ old ∷ after) env array len
      ≡ get_value_in_config_file (before ++ new ∷ after) env array len
unfolding get_value_in_config_file
get-others env array len old new [] after h k = rw (h, k)
get-others env array len old new (line ∷ before) after h k =
    elim (Bool-cases (starts_with line env)) [
      | inl this ↦ rw this
      | inr other ↦ rw other (get-others env array len old new before after h k)
    ]

-- Under the same conditions setValueInConfigFile of one name does not change what getValueInConfigFile
-- returns and copies for another name without a quote that the changed line does not begin with.
pub get_value-set_value_other :
    (env pre value rest val other array : List ℕ) (len : ℕ) (before after : List (List ℕ))
    → none_starts env before ≡ true
    → starts_with pre env ≡ true
    → lacks quote env ≡ true
    → lacks quote pre ≡ true
    → lacks quote value ≡ true
    → fits env ≡ true
    → fits (entry pre val rest) ≡ true
    → lacks quote other ≡ true
    → starts_with pre other ≡ false
    → (text : List (List ℕ)) × (set_value_in_config_file
          (before ++ entry pre value rest ∷ after)
          env
          val
        ≡ ok (pos 0, text))
      × (get_value_in_config_file text other array len
          ≡ get_value_in_config_file (before ++ entry pre value rest ∷ after) other array len)
get_value-set_value_other env pre value rest val other array len before after first starts plain_env
      plain_pre plain_value short enough plain_other differs =
    (
      before ++ entry pre val rest ∷ after,
      set_value_in_config_file-entry env pre value rest val before after first starts plain_env
          plain_pre plain_value short enough,
      get-others other array len (entry pre val rest) (entry pre value rest) before after
          (starts_with-quote pre other (val ++ quote ∷ rest) plain_other ∙ differs)
          (starts_with-quote pre other (value ++ quote ∷ rest) plain_other ∙ differs),
    )

get-missing :
    (env array : List ℕ) (len : ℕ) (text : List (List ℕ))
    → none_starts env text ≡ true
    → get_value_in_config_file text env array len ≡ ok (negsuc 0, array)
unfolding get_value_in_config_file none_starts
get-missing env array len [] h = refl
get-missing env array len (line ∷ text) h = elim (Bool-cases (starts_with line env)) [
  | inl this ↦ let s : not (starts_with line env) ≡ false = ap not this in ground arith
  | inr other ↦ rw other (get-missing env array len text (ground arith))
]

lacks-append : (env : List ℕ) → lacks quote env ≡ true → lacks quote (env ++ b'=' ∷ []) ≡ true
unfolding lacks
lacks-append [] h = refl
lacks-append (k ∷ env) h = elim (Bool-cases (k == quote)) [
  | inl same ↦ cc
  | inr other ↦ rw other (lacks-append env (ground arith))
]

-- loadValueFromConfigFile of a name that no line begins with copies the default to the array and adds a
-- line, where getValueInConfigFile finds the default from then on, if neither name nor default holds a
-- quote, the line fits into STR_SIZE characters and the array has room.
pub load_value_from_config_file_lem :
    (env val array array' : List ℕ) (len : ℕ) (text : List (List ℕ))
    → none_starts env text ≡ true
    → lacks quote env ≡ true
    → lacks quote val ≡ true
    → fits (config_line env val) ≡ true
    → length val < len
    → len ≤ length array
    → len ≤ length array'
    → (load_value_from_config_file text env array len val
        ≡ ok (val ++ 0 ∷ drop (length val + 1) array, add text (config_line env val)))
      × (get_value_in_config_file (add text (config_line env val)) env array' len
          ≡ ok (pos 0, filled val len array'))
unfolding load_value_from_config_file
load_value_from_config_file_lem env val array array' len text missing plain_env plain_val enough
      small room room' =
    let preset =
      write_block-front array (val ++ 0 ∷ []) (length val + 1) (length-append val (0 ∷ []))
        (omega arith) in
    let named : List ℕ = env ++ b'=' ∷ [] in
    let line : config_line env val ≡ entry named val [] =
      sym (append_assoc env (b'=' ∷ []) (quote ∷ (val ++ quote ∷ []))) in
    let room_env : length env < length (config_line env val) =
      omega (arith, length-append env (b'=' ∷ quote ∷ (val ++ quote ∷ []))) in
    let short : fits env ≡ true =
      lt→ltb (length env) str_size
        (omega (arith, ltb→lt (length (config_line env val)) str_size enough)) in
    (
      rw preset (
          rw (get-missing env ((val ++ 0 ∷ []) ++ drop (length val + 1) array) len text missing) (
            rw enough (
              ap (λ (t : List ℕ). ok (t, add text (config_line env val)))
                (append_assoc val (0 ∷ []) (drop (length val + 1) array))))),
      ap (λ (t : List ℕ). get_value_in_config_file (add text t) env array' len) line
          ∙ get_value_in_config_file-entry env named val [] val text [] missing
              (starts_with_self env (b'=' ∷ [])) plain_env (lacks-append env plain_env) plain_val
              short array' len small room',
    )
