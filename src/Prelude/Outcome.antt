-- ===== src/Prelude/Outcome.antt =====
-- Outcomes of C code that may stop: undefined memory accesses, failed assertions, aborts.
use mathlib.Core.Path.{◌≡◌, refl}
use mathlib.Core.Bool.{Bool, true, false}
use mathlib.Core.Option.{Option, none, some}

-- `out_of_bounds` is an access outside an allocated block, `assertion` a failed `assert`,
-- `aborted` a call of `fatal` or `abort`, `out_of_fuel` a loop cut off by the model.
pub data Fault : Type 0 where
  out_of_bounds : Fault
  assertion : Fault
  aborted : Fault
  out_of_fuel : Fault

pub data Result {ℓ} (R : Type ℓ) : Type ℓ where
  err : Fault → Result R
  ok : R → Result R

infixl 5 ◌>>=◌ ◌>>◌
-- What a library call that may find nothing stands for, where C code asserts that it does.
abbrev pub of_option {ℓ} : {R : Type ℓ} → Option R → Fault → Result R
of_option (some r) fault = ok r
of_option none fault = err fault

-- C code after C code, unless the first stops.
abbrev pub ◌>>=◌ {ℓ κ} : {R : Type ℓ} {S : Type κ} → Result R → (R → Result S) → Result S
err fault >>= next = err fault
ok r >>= next = next r

-- assert, and code behind it.
abbrev pub guard : Bool → Fault → Result (Unit {0})
guard test fault = elim test [ false ↦ err fault | true ↦ ok tt ]

abbrev pub ◌>>◌ {κ} : {S : Type κ} → Result (Unit {0}) → Result S → Result S
check >> next = check >>= λ done. next

-- What a sequence of two runs satisfies, where the first one ends normally.
pub >>=-elim {ℓ κ μ} :
    {R : Type ℓ} {S : Type κ} (P : Result S → Type μ) (m : Result R) (next : R → Result S)
    → ((r : R) × (m ≡ ok r))
    → ((r : R) → m ≡ ok r → P (next r))
    → P (m >>= next)
>>=-elim P (ok r) next h k = k r refl
>>=-elim P (err fault) next (r, h) k = absurd (cc)

-- Both parts of a sequence that ends normally do.
pub >>=-inv {ℓ κ} :
    {R : Type ℓ} {S : Type κ} (m : Result R) (next : R → Result S) {s : S}
    → (m >>= next) ≡ ok s
    → (r : R) × (m ≡ ok r) × (next r ≡ ok s)
>>=-inv (ok r) next h = (r, refl, h)
>>=-inv (err fault) next h = cc

pub ok_inj {ℓ} : {R : Type ℓ} {a b : R} → ok a ≡ ok b → a ≡ b
ok_inj h = cc
