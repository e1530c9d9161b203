-- ===== src/Space/Objects.antt =====
-- What a space asks of the objects in it: the callbacks getStatus and setStatus of space_new.
use tuxanci_ng.Prelude.{◌≡◌}
use tuxanci_ng.Prelude.Int.{ℤ}

pub record Status : Type 0 where
  pub id : ℤ
  pub x : ℤ
  pub y : ℤ
  pub w : ℤ
  pub h : ℤ

pub record ObjectKind {ℓ} (O : Type ℓ) : Type ℓ where
  pub get_status : O → Status
  pub set_status : O → ℤ → ℤ → ℤ → ℤ → O
  -- Setting a place, with the size that the object has, sets that place and nothing else.
  pub get-set :
      (o : O) (x y : ℤ)
      → get_status (set_status o x y (get_status o).w (get_status o).h)
        ≡ record (get_status o) { x = x; y = y }
