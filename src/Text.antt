-- ===== src/Text.antt =====
-- The C library's functions on strings and bytes that the code calls. A string is the list of its
-- characters, without the zero that ends it.
use tuxanci_ng.Prelude.{
  ℕ, zero, suc, ◌<◌, ◌≡◌, refl, ap, inl, inr, List, [], ◌∷◌, ◌++◌, Bool, true, false, ◌&&◌, Option,
  none, some, Result, ok, err, out_of_bounds, ◌>>=◌, if◌then◌else◌, ◌==◌, not, arith, Bool-cases,
  length,
}
use mathlib.Core.Option

-- sizeof of the arrays that hold a line.
abbrev pub str_size : ℕ
str_size = 128

abbrev pub newline : ℕ
newline = 10

abbrev pub quote : ℕ
quote = 34

-- The string at the start of a block of bytes that ends in a zero.
unfoldable pub c_text : List ℕ → List ℕ
c_text [] = []
c_text (b ∷ bs) = if b == 0 then [] else b ∷ c_text bs

-- memchr(bytes, c, n), as an offset.
unfoldable pub memchr : List ℕ → ℕ → ℕ → Result (Option ℕ)
memchr bytes c zero = ok none
memchr [] c (suc n) = err out_of_bounds
memchr (b ∷ bytes) c (suc n) =
    let rest = memchr bytes c n >>= λ found. ok (Option.map suc found) in
    if b == c then ok (some 0) else rest

-- strchr(text, c) for a character c, as an offset.
unfoldable pub strchr : List ℕ → ℕ → Option ℕ
strchr [] c = none
strchr (b ∷ text) c = if b == c then some 0 else Option.map suc (strchr text c)

-- strncmp(text, key, strlen(key)) == 0
unfoldable pub starts_with : List ℕ → List ℕ → Bool
starts_with text [] = true
starts_with [] (k ∷ key) = false
starts_with (b ∷ text) (k ∷ key) = (b == k) && starts_with text key

-- strstr(text, key), as an offset.
unfoldable pub strstr : List ℕ → List ℕ → Option ℕ
strstr [] key = if starts_with [] key then some 0 else none
strstr (b ∷ text) key =
    if starts_with (b ∷ text) key then some 0 else Option.map suc (strstr text key)

-- A character does not occur.
unfoldable pub lacks : ℕ → List ℕ → Bool
lacks c [] = true
lacks c (b ∷ text) = not (b == c) && lacks c text

pub strstr-starts_with :
    (text key : List ℕ) → starts_with text key ≡ true → strstr text key ≡ some 0
unfolding strstr
strstr-starts_with [] key h = rw h
strstr-starts_with (b ∷ text) key h = rw h

pub starts_with_self : (key text : List ℕ) → starts_with (key ++ text) key ≡ true
unfolding starts_with
starts_with_self [] text = refl
starts_with_self (k ∷ key) text = ground (arith, starts_with_self key text)

-- The first `c` behind characters that are not.
pub strchr-append :
    (c : ℕ) (text rest : List ℕ)
    → lacks c text ≡ true
    → strchr (text ++ c ∷ rest) c ≡ some (length text)
unfolding strchr lacks
strchr-append c [] rest h = ground arith
strchr-append c (b ∷ text) rest h = elim (Bool-cases (b == c)) [
  | inl same ↦ cc
  | inr other ↦ rw other (ap (Option.map suc) (strchr-append c text rest (ground arith)))
]

pub memchr-append :
    (c : ℕ) (text rest : List ℕ) (n : ℕ)
    → lacks c text ≡ true
    → length text < n
    → memchr (text ++ c ∷ rest) c n ≡ ok (some (length text))
unfolding memchr lacks
memchr-append c text rest zero h k = absurd (omega arith)
memchr-append c [] rest (suc n) h k = let same : (c == c) ≡ true = ground arith in rw same
memchr-append c (b ∷ text) rest (suc n) h k = elim (Bool-cases (b == c)) [
  | inl same ↦ cc
  | inr other ↦ rw other (rw (memchr-append c text rest n (ground arith) (omega arith)))
]

pub memchr-none :
    (c : ℕ) (text : List ℕ) → lacks c text ≡ true → memchr text c (length text) ≡ ok none
unfolding memchr lacks
memchr-none c [] h = refl
memchr-none c (b ∷ text) h = elim (Bool-cases (b == c)) [
  | inl same ↦ cc
  | inr other ↦ rw other (rw (memchr-none c text (ground arith)))
]

pub c_text-id : (text : List ℕ) → lacks 0 text ≡ true → c_text text ≡ text
unfolding c_text lacks
c_text-id [] h = refl
c_text-id (b ∷ text) h = elim (Bool-cases (b == 0)) [
  | inl ends ↦ cc
  | inr goes ↦ rw goes (ap (λ t. b ∷ t) (c_text-id text (ground arith)))
]
