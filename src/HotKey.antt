-- ===== src/HotKey.antt =====
-- src/client/hotKey.c and src/client/hotKey.h: the keys of the client that call a handler. A key that
-- is registered again hides its older handler until it is unregistered. SDL_GetKeyboardState is the
-- parameter `is_down`; a handler is of any type, and hot_key_event returns the one that it calls last.
pub mod Stacks
pub mod Refine
pub mod Press
use tuxanci_ng.Prelude.{
  ℕ, zero, suc, ◌+◌, ◌-◌, ◌%◌, ◌^◌, List, [], ◌∷◌, Bool, true, false, ◌&&◌, Option, none, some,
  Result, ok, err, aborted, ◌>>=◌, of_option, if◌then◌else◌, ltb,
}
use tuxanci_ng.Prelude.Int.{ℤ, ◌==ℤ◌}
use tuxanci_ng.Sequence.{insert_at, remove_at}
use mathlib.Core.Option

abbrev pub active_interval : ℕ
active_interval = 500

-- hotKey_t
pub record HotKey {ℓ} (H : Type ℓ) : Type ℓ where
  pub key : ℤ
  pub active : Bool
  pub handler : H

-- The static variables of the file.
pub record HotKeys {ℓ} (H : Type ℓ) : Type ℓ where
  pub list : List (HotKey H)
  pub last_active : ℕ

-- currentTime - lastActive < HOTKEY_ACTIVE_INTERVAL, in unsigned int
unfoldable pub too_soon : ℕ → ℕ → Bool
too_soon current last = ltb ((current % 2 ^ 32 + (2 ^ 32 - last)) % 2 ^ 32) active_interval

module _ {ℓ} {H : Type ℓ} where
  abbrev pub new_hot_key : ℤ → H → HotKey H
  new_hot_key key handler = record { key = key; active = true; handler = handler }

  -- The pointer that findHotkey returns is given by its index: each entry is a block of its own, so
  -- this is also the index that list_search finds for it.
  unfoldable pub find_hotkey : List (HotKey H) → ℤ → Option ℕ
  find_hotkey [] key = none
  find_hotkey (this ∷ list) key =
      if this.key ==ℤ key then some 0 else Option.map suc (find_hotkey list key)

  abbrev pub hot_key_init : ℕ → HotKeys H
  hot_key_init now = record { list = []; last_active = now % 2 ^ 32 }

  unfoldable pub hot_key_register : ℤ → H → HotKeys H → HotKeys H
  hot_key_register key handler s = record s { list = insert_at s.list 0 (new_hot_key key handler) }

  unfoldable pub hot_key_unregister : ℤ → HotKeys H → Result (HotKeys H)
  hot_key_unregister key s = of_option (find_hotkey s.list key) aborted >>= λ my_index.
      ok (record s { list = remove_at s.list my_index })

  -- hotkey->active = value for the entry at an index
  unfoldable pub set_active : List (HotKey H) → ℕ → Bool → List (HotKey H)
  set_active [] i value = []
  set_active (this ∷ list) zero value = record this { active = value } ∷ list
  set_active (this ∷ list) (suc i) value = this ∷ set_active list i value

  unfoldable pub hot_key_enable : ℤ → ℕ → HotKeys H → Result (HotKeys H)
  hot_key_enable key now s = of_option (find_hotkey s.list key) aborted >>= λ hotkey.
      ok (record { list = set_active s.list hotkey true; last_active = now % 2 ^ 32 })

  unfoldable pub hot_key_disable : ℤ → ℕ → HotKeys H → Result (HotKeys H)
  hot_key_disable key now s = of_option (find_hotkey s.list key) aborted >>= λ hotkey.
      ok (record { list = set_active s.list hotkey false; last_active = now % 2 ^ 32 })

  -- The loop of hot_key_event: the handler it stops at.
  unfoldable pub pressed : (ℤ → Bool) → List (HotKey H) → Option H
  pressed is_down [] = none
  pressed is_down (this ∷ list) =
      if is_down this.key && this.active then some this.handler else pressed is_down list

  -- The clock is read at the start, and again when a handler is called.
  unfoldable pub hot_key_event : (ℤ → Bool) → ℕ → ℕ → HotKeys H → HotKeys H × Option H
  hot_key_event is_down current later s =
      if too_soon current s.last_active then (s, none) else elim (pressed is_down s.list) [
        | none ↦ (s, none)
        | some handler ↦ (record s { last_active = later % 2 ^ 32 }, some handler)
      ]
