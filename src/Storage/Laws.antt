-- ===== src/Storage/Laws.antt =====
-- src/base/storage.c as a map from group and name to data.
use tuxanci_ng.Prelude.{
  ℕ, ◌+◌, ◌≡◌, refl, sym, ap, ◌∙◌, inl, inr, List, [], ◌∷◌, ◌++◌, append-nil, append_assoc, true,
  ◌&&◌, Option, none, some, ok, if◌then◌else◌, ◌==◌, ==_iff, Bool-cases, Option-cases,
}
use tuxanci_ng.Sequence.{add}
use tuxanci_ng.Sweep.{sweep, sweep_loop-sweep}
use tuxanci_ng.Storage.{
  same_text, StorageItem, named, storage_add, storage_get, del_loop, storage_del, del_all_body,
  storage_del_all,
}

pub same_text-eq : (a b : List ℕ) → same_text a b ≡ true → a ≡ b
unfolding same_text
same_text-eq [] [] h = refl
same_text-eq [] (b ∷ tail') h = absurd (cc)
same_text-eq (a ∷ tail) [] h = absurd (cc)
same_text-eq (a ∷ tail) (b ∷ tail') h = elim (Bool-cases (a == b)) [
  | inr other ↦ absurd (cc (rw other at h))
  | inl same ↦
      let tails : tail ≡ tail' = same_text-eq tail tail' (rw same at h) in
      ap (λ t. t ∷ tail) ((==_iff a b).0 same) ∙ ap (λ t. b ∷ t) tails
]

module _ {ℓ} {D : Type ℓ} where
  -- storage_get after storage_add: an item that was there under the asked name is still found first;
  -- otherwise the new item is found exactly when group and name are its own.
  pub storage_get-storage_add :
      (list : List (StorageItem D)) (g n group name : List ℕ) (d : D)
      → storage_get (storage_add list g n d) group name ≡ (elim (storage_get list group name) [
        | some old ↦ some old
        | none ↦ if same_text group g && same_text name n then some d else none
      ])
  unfolding storage_get storage_add
  storage_get-storage_add [] g n group name d = refl
  storage_get-storage_add (x ∷ list) g n group name d = elim (Bool-cases (named group name x)) [
    | inl hit ↦ rw hit
    | inr miss ↦ rw miss (storage_get-storage_add list g n group name d)
  ]

  -- The items that storage_del_all keeps, and the data of the others.
  unfoldable pub others : List ℕ → List (StorageItem D) → List (StorageItem D)
  others group [] = []
  others group (x ∷ list) =
      if same_text group x.group then others group list else x ∷ others group list

  unfoldable pub members : List ℕ → List (StorageItem D) → List D
  members group [] = []
  members group (x ∷ list) =
      if same_text group x.group then x.data_of ∷ members group list else members group list

  sweep-del_all :
      (list : List (StorageItem D)) (group : List ℕ) (freed : List D)
      → sweep (del_all_body group) list freed ≡ ok (others group list, freed ++ members group list)
  unfolding sweep del_all_body others members
  sweep-del_all [] group freed = ap (λ t. ok ([], t)) (sym (append-nil freed))
  sweep-del_all (x ∷ list) group freed = elim (Bool-cases (same_text group x.group)) [
    | inl hit ↦ rw hit (
        rw (sweep-del_all list group (add freed x.data_of)) (
          ap (λ t. ok (others group list, t))
            (append_assoc freed (x.data_of ∷ []) (members group list))))
    | inr miss ↦ rw miss (rw (sweep-del_all list group freed))
  ]

  -- storage_del_all ends, keeps exactly the items of other groups in their order, and frees the data
  -- of exactly the items of the group, each once and in order.
  pub storage_del_all_lem :
      (list : List (StorageItem D)) (group : List ℕ)
      → storage_del_all list group ≡ ok (others group list, members group list)
  unfolding storage_del_all
  storage_del_all_lem list group =
      sweep_loop-sweep (del_all_body group) list [] ∙ sweep-del_all list group []

  storage_get-others_same :
      (list : List (StorageItem D)) (group name : List ℕ)
      → storage_get (others group list) group name ≡ none
  unfolding storage_get others
  storage_get-others_same [] group name = refl
  storage_get-others_same (x ∷ list) group name = elim (Bool-cases (same_text group x.group)) [
    | inl hit ↦ rw hit (storage_get-others_same list group name)
    | inr miss ↦ rw miss (rw miss (storage_get-others_same list group name))
  ]

  -- After storage_del_all of a group, storage_get finds nothing in that group.
  pub storage_get-storage_del_all :
      (list : List (StorageItem D)) (group name : List ℕ)
      → (list' : List (StorageItem D)) × (freed : List D) × (storage_del_all list group
          ≡ ok (list', freed))
        × (storage_get list' group name ≡ none)
  storage_get-storage_del_all list group name = (
    others group list,
    members group list,
    storage_del_all_lem list group,
    storage_get-others_same list group name,
  )

  abbrev freed_of : Option (ℕ × D) → Option D
  freed_of none = none
  freed_of (some r) = some r.1

  del_loop-found :
      (list : List (StorageItem D)) (i : ℕ) (group name : List ℕ)
      → freed_of (del_loop list i group name) ≡ storage_get list group name
  unfolding del_loop storage_get
  del_loop-found [] i group name = refl
  del_loop-found (x ∷ list) i group name = elim (Bool-cases (named group name x)) [
    | inl hit ↦ rw hit
    | inr miss ↦ rw miss (del_loop-found list (i + 1) group name)
  ]

  -- storage_del frees exactly the data that storage_get gives for the same group and name.
  pub storage_del_freed :
      (list : List (StorageItem D)) (group name : List ℕ)
      → (storage_del list group name).1 ≡ storage_get list group name
  unfolding storage_del
  storage_del_freed list group name =
      let found = del_loop-found list 0 group name in
      elim (Option-cases (del_loop list 0 group name)) [
        | inl e ↦ rw (storage_del, e) (sym (ap freed_of e) ∙ found)
        | inr (r, e) ↦ rw (storage_del, e) (sym (ap freed_of e) ∙ found)
      ]
