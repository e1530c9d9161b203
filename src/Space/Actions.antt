-- ===== src/Space/Actions.antt =====
-- src/base/space.c: space_action and space_action_from_location, which call a function for objects of a
-- space, and space_del_with_item. The function may change the whole state S of the program, the space
-- in it included.
use tuxanci_ng.Prelude.{
  ℕ, zero, suc, ◌+◌, ◌-◌, List, [], ◌∷◌, Result, ok, err, out_of_bounds, out_of_fuel, of_option,
  ◌>>=◌, if◌then◌else◌, ltb, ◌==◌, length, get_elem?,
}
use tuxanci_ng.Prelude.Int.{ℤ}
use tuxanci_ng.Space.{Space, space_del, space_get_object}
use tuxanci_ng.Space.Objects.{ObjectKind}

-- What stands behind the object is destroyed by `fce`.
unfoldable pub space_del_with_item {ℓ κ} :
    {O : Type ℓ} {R : Type κ}
    → ObjectKind O
    → (ℕ → O)
    → ℕ
    → Space
    → (ℕ → Result R)
    → Result (Space × R)
space_del_with_item kind heap item p fce =
    space_del kind heap item p >>= λ q. fce item >>= λ r. ok (q, r)

module _ {κ} {S : Type κ} where
  -- The function for each object of a list.
  unfoldable pub act : (ℕ → S → Result S) → List ℕ → S → Result S
  act fce [] s = ok s
  act fce (item ∷ list) s = fce item s >>= λ s'. act fce list s'

  -- The loop of space_action; the first number bounds its rounds.
  unfoldable pub space_action_loop : (S → Space) → (ℕ → S → Result S) → ℕ → ℕ → ℕ → S → Result S
  space_action_loop space_of fce zero i len s = err out_of_fuel
  space_action_loop space_of fce (suc fuel) i len s =
      if ltb i len
      then (of_option (get_elem? (space_of s).list_index i) out_of_bounds >>= λ this.
          fce this.object s >>= λ s'.
          let again = space_action_loop space_of fce fuel i (len - 1) s' in
          let go_on = space_action_loop space_of fce fuel (i + 1) len s' in
          if length (space_of s').list_index + 1 == len then again else go_on)
      else ok s

  unfoldable pub space_action : (S → Space) → (ℕ → S → Result S) → S → Result S
  space_action space_of fce s =
      let len = length (space_of s).list_index in space_action_loop space_of fce (suc len) 0 len s

  unfoldable pub space_action_from_location {ℓ} :
      {O : Type ℓ}
      → ObjectKind O
      → (ℕ → O)
      → Space
      → (ℕ → S → Result S)
      → ℤ
      → ℤ
      → ℤ
      → ℤ
      → S
      → Result S
  space_action_from_location kind heap p fce x y w h s =
      act fce (space_get_object kind heap p x y w h []) s
