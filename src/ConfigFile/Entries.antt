-- ===== src/ConfigFile/Entries.antt =====
-- A line NAME="value" of a configuration file, set and read.
use tuxanci_ng.Prelude.{
  ℕ, zero, suc, ◌+◌, ◌-◌, ◌≤◌, ◌<◌, ◌≡◌, refl, ap, ap₂, ◌∙◌, List, [], ◌∷◌, ◌++◌, append_assoc,
  Bool, true, false, ◌&&◌, some, ok, if◌then◌else◌, ltb, leb, ◌==◌, arith, length, take, drop,
  replicate, length-append, length-replicate, take-append, drop-append, drop-append_le,
}
use tuxanci_ng.Prelude.Int.{pos}
use tuxanci_ng.Memory.{write_block}
use tuxanci_ng.Text.{quote, starts_with, lacks, strstr-starts_with, strchr-append}
use tuxanci_ng.ConfigFile.{fits, value_offsets, get_value, set_value}

-- A line with a value: what stands in front of the first quote, the value, what stands behind it.
abbrev pub entry : List ℕ → List ℕ → List ℕ → List ℕ
entry pre value rest = pre ++ quote ∷ (value ++ quote ∷ rest)

-- A name without a quote is looked for in front of the first quote.
pub starts_with-quote :
    (pre env rest : List ℕ)
    → lacks quote env ≡ true
    → starts_with (pre ++ quote ∷ rest) env ≡ starts_with pre env
unfolding starts_with lacks
starts_with-quote pre [] rest h = refl
starts_with-quote [] (k ∷ env) rest h = ground arith
starts_with-quote (b ∷ pre) (k ∷ env) rest h =
    ap (λ (t : Bool). (b == k) && t) (starts_with-quote pre env rest (ground arith))

drop-entry : (pre rest : List ℕ) → drop (length pre + 1) (pre ++ quote ∷ rest) ≡ rest
drop-entry [] rest = refl
drop-entry (b ∷ pre) rest =
    let e : suc (length pre) + 1 ≡ suc (length pre + 1) = omega arith in rw e (drop-entry pre rest)

value_offsets-entry :
    (env pre value rest : List ℕ)
    → starts_with pre env ≡ true
    → lacks quote env ≡ true
    → lacks quote pre ≡ true
    → lacks quote value ≡ true
    → value_offsets (entry pre value rest) env
      ≡ some (length pre + 1, length pre + 1 + length value)
unfolding value_offsets
value_offsets-entry env pre value rest starts plain_env plain_pre plain_value =
    let at_front =
      strstr-starts_with (entry pre value rest) env
        (starts_with-quote pre env (value ++ quote ∷ rest) plain_env ∙ starts) in
    let first = strchr-append quote pre (value ++ quote ∷ rest) plain_pre in
    let second = strchr-append quote value rest plain_value in
    let start : 0 + length pre ≡ length pre = omega arith in
    rw (at_front, value_offsets)
      (rw first (
        rw start (
          rw (drop-entry pre (value ++ quote ∷ rest))
            (rw second (ap (λ (n : ℕ). some (n + 1, n + 1 + length value)) start)))))

take-entry : (pre rest : List ℕ) → take (length pre + 1) (pre ++ quote ∷ rest) ≡ pre ++ quote ∷ []
take-entry [] rest = refl
take-entry (b ∷ pre) rest =
    let e : suc (length pre) + 1 ≡ suc (length pre + 1) = omega arith in
    rw e (ap (λ t. b ∷ t) (take-entry pre rest))

drop-value :
    (pre value rest : List ℕ)
    → drop (length pre + 1 + length value) (pre ++ quote ∷ (value ++ rest)) ≡ rest
drop-value [] value rest =
    let e : 0 + 1 + length value ≡ suc (length value) = omega arith in rw e (drop-append value rest)
drop-value (b ∷ pre) value rest =
    let e : suc (length pre) + 1 + length value ≡ suc (length pre + 1 + length value) =
      omega arith in
    rw e (drop-value pre value rest)

pub set_value-entry :
    (env pre value rest val : List ℕ)
    → starts_with pre env ≡ true
    → lacks quote env ≡ true
    → lacks quote pre ≡ true
    → lacks quote value ≡ true
    → fits env ≡ true
    → fits (entry pre val rest) ≡ true
    → set_value (entry pre value rest) env val ≡ ok (some (entry pre val rest))
unfolding set_value
set_value-entry env pre value rest val starts plain_env plain_pre plain_value short enough =
    let clone : take (length pre + 1) (entry pre value rest)
          ++ (val ++ drop (length pre + 1 + length value) (entry pre value rest))
        ≡ entry pre val rest =
      ap₂ (λ (s : List ℕ) (t : List ℕ). s ++ (val ++ t)) (take-entry pre (value ++ quote ∷ rest))
        (drop-value pre value (quote ∷ rest))
      ∙ append_assoc pre (quote ∷ []) (val ++ quote ∷ rest) in
    rw short (
      rw (value_offsets-entry env pre value rest starts plain_env plain_pre plain_value)
        (rw clone (rw enough refl)))

-- The array that a value is copied to: the value, zeros up to `len`, and what stood behind.
abbrev pub filled : List ℕ → ℕ → List ℕ → List ℕ
filled value len val = value ++ (replicate (len - length value) 0 ++ drop len val)

pub write_block-front :
    (cells b : List ℕ) (n : ℕ)
    → length b ≡ n
    → n ≤ length cells
    → write_block cells (pos 0) b ≡ ok (b ++ drop n cells)
unfolding write_block
write_block-front cells b n e h =
    let plain : 0 + length b ≡ n = omega arith in
    let inside : leb n (length cells) ≡ true = ground arith in rw plain (rw inside refl)

drop-replicate : (k n : ℕ) → drop {A = ℕ} k (replicate n 0) ≡ replicate (n - k) 0
drop-replicate zero n = let e : n - 0 ≡ n = omega arith in rw e
drop-replicate (suc k) zero = let e : zero - suc k ≡ 0 = omega arith in rw e
drop-replicate (suc k) (suc n) =
    let e : suc n - suc k ≡ n - k = omega arith in rw e (drop-replicate k n)

pub get_value-entry :
    (env pre value rest val : List ℕ) (len : ℕ)
    → starts_with pre env ≡ true
    → lacks quote env ≡ true
    → lacks quote pre ≡ true
    → lacks quote value ≡ true
    → fits env ≡ true
    → length value < len
    → len ≤ length val
    → get_value (entry pre value rest) env val len ≡ ok (pos 0, filled value len val)
unfolding get_value
get_value-entry env pre value rest val len starts plain_env plain_pre plain_value short small room =
    let positive : ltb 0 len ≡ true = ground arith in
    let clear = write_block-front val (replicate len 0) len (length-replicate {A = ℕ} len 0) room in
    let distance : length pre + 1 + length value - (length pre + 1) ≡ length value = omega arith in
    let whole : ltb (len - 1) (length value) ≡ false = ground arith in
    let count : (if ltb (len - 1) (length pre + 1 + length value - (length pre + 1))
          then len - 1
          else length pre + 1 + length value - (length pre + 1))
        ≡ length value =
      rw distance (rw whole refl) in
    let part : take
          (if ltb (len - 1) (length pre + 1 + length value - (length pre + 1))
            then len - 1
            else length pre + 1 + length value - (length pre + 1))
          (drop (length pre + 1) (entry pre value rest))
        ≡ value =
      ap₂ take count (drop-entry pre (value ++ quote ∷ rest)) ∙ take-append value (quote ∷ rest) in
    let cleared : List ℕ = replicate len 0 ++ drop len val in
    let copy = write_block-front cleared value (length value) refl (
      omega
        (arith, length-append (replicate len 0) (drop len val), length-replicate {A = ℕ} len 0)) in
    let same : ok (pos 0, value ++ drop (length value) cleared) ≡ ok (pos 0, filled value len val) =
      ap (λ (t : List ℕ). ok (pos 0, value ++ t))
        (drop-append_le (length value) (replicate len 0) (drop len val)
            (omega (arith, length-replicate {A = ℕ} len 0))
          ∙ ap (λ (t : List ℕ). t ++ drop len val) (drop-replicate (length value) len)) in
    rw short (
      rw (value_offsets-entry env pre value rest starts plain_env plain_pre plain_value)
        (rw positive (rw clear (rw part (rw copy same)))))
