-- ===== src/Storage.antt =====
-- src/base/storage.c: the named resources of the game (images, sounds, music), by group and name.
-- Strings are lists of character codes; the callback that frees the data of an item is seen in the
-- list of the data it was called with.
pub mod Laws
use tuxanci_ng.Prelude.{
  ℕ, zero, suc, ◌+◌, List, [], ◌∷◌, ◌++◌, Bool, true, false, ◌&&◌, Option, none, some, Result, ok,
  ◌>>=◌, if◌then◌else◌, ◌==◌, length,
}
use tuxanci_ng.Sequence.{add, remove_at}
use tuxanci_ng.Sweep.{sweep_loop}

-- strcmp(a, b) == 0
unfoldable pub same_text : List ℕ → List ℕ → Bool
same_text [] [] = true
same_text [] (b ∷ bs) = false
same_text (a ∷ tail) [] = false
same_text (a ∷ tail) (b ∷ bs) = (a == b) && same_text tail bs

pub record StorageItem {ℓ} (D : Type ℓ) : Type ℓ where
  pub name : List ℕ
  pub group : List ℕ
  pub data_of : D

module _ {ℓ} {D : Type ℓ} where
  -- The test of storage_get and storage_del.
  abbrev pub named : List ℕ → List ℕ → StorageItem D → Bool
  named group name this = same_text group this.group && same_text name this.name

  abbrev pub storage_new : List (StorageItem D)
  storage_new = []

  abbrev pub storage_new_item : List ℕ → List ℕ → D → StorageItem D
  storage_new_item group name d = record { name = name; group = group; data_of = d }

  unfoldable pub storage_add : List (StorageItem D) → List ℕ → List ℕ → D → List (StorageItem D)
  storage_add list group name d = add list (storage_new_item group name d)

  unfoldable pub storage_get : List (StorageItem D) → List ℕ → List ℕ → Option D
  storage_get [] group name = none
  storage_get (this ∷ list) group name =
      if named group name this then some this.data_of else storage_get list group name

  -- The index and the data of the first item that the loop of storage_del stops at.
  unfoldable pub del_loop : List (StorageItem D) → ℕ → List ℕ → List ℕ → Option (ℕ × D)
  del_loop [] i group name = none
  del_loop (this ∷ list) i group name =
      if named group name this then some (i, this.data_of) else del_loop list (i + 1) group name

  -- The list afterwards, and the data that was freed.
  unfoldable pub storage_del :
      List (StorageItem D) → List ℕ → List ℕ → List (StorageItem D) × Option D
  storage_del list group name = elim (del_loop list 0 group name) [
    | none ↦ (list, none)
    | some (i, d) ↦ (remove_at list i, some d)
  ]

  unfoldable pub del_all_body :
      List ℕ → StorageItem D → List D → Result (Option (StorageItem D) × List D)
  del_all_body group this freed =
      if same_text group this.group
      then ok (none, add freed this.data_of)
      else ok (some this, freed)

  unfoldable pub storage_del_all :
      List (StorageItem D) → List ℕ → Result (List (StorageItem D) × List D)
  storage_del_all list group = sweep_loop (del_all_body group) (suc (length list)) 0 list []

  -- storage_destroy: the data it frees, in order.
  unfoldable pub storage_destroy : List (StorageItem D) → List D
  storage_destroy [] = []
  storage_destroy (this ∷ list) = this.data_of ∷ storage_destroy list
