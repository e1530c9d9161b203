-- ===== src/HotKey/Stacks.antt =====
-- src/client/hotKey.c as one stack of entries for each key, whatever their order in the list.
use tuxanci_ng.Prelude.{
  ℕ, suc, ◌≡◌, refl, ap, ◌∙◌, ◌⊎◌, inl, inr, List, [], ◌∷◌, Bool, true, false, none, some,
  if◌then◌else◌, Bool-cases, arith,
}
use tuxanci_ng.Prelude.Int.{ℤ, ◌==ℤ◌, ==ℤ_iff}
use tuxanci_ng.Sequence.{remove_at}
use tuxanci_ng.HotKey.{HotKey, find_hotkey, set_active}

pub same_key : (a b : ℤ) → (a ==ℤ b) ≡ true → a ≡ b
same_key a b = (==ℤ_iff a b).0

module _ {ℓ} {H : Type ℓ} where
  -- The entries of one key, the one that counts first.
  unfoldable pub stack : List (HotKey H) → ℤ → List (HotKey H)
  stack [] key = []
  stack (this ∷ list) key = if this.key ==ℤ key then this ∷ stack list key else stack list key

  abbrev pub with_stack : (ℤ → List (HotKey H)) → ℤ → List (HotKey H) → ℤ → List (HotKey H)
  with_stack stacks key entries k = if k ==ℤ key then entries else stacks k

  -- What findHotkey finds, and what the removal and the marking of it do to the stacks.
  pub record IsFound (list : List (HotKey H)) (key : ℤ) (i : ℕ) (this : HotKey H)
      (rest : List (HotKey H)) : Type ℓ where
    pub found : find_hotkey list key ≡ some i
    pub top : stack list key ≡ this ∷ rest
    pub removed : (k : ℤ) → stack (remove_at list i) k ≡ with_stack (stack list) key rest k
    pub marked :
        (value : Bool) (k : ℤ)
        → stack (set_active list i value) k
          ≡ with_stack (stack list) key (record this { active = value } ∷ rest) k

  first-IsFound :
      (this : HotKey H) (list : List (HotKey H)) (key : ℤ)
      → (this.key ==ℤ key) ≡ true
      → IsFound (this ∷ list) key 0 this (stack list key)
  unfolding find_hotkey stack set_active
  first-IsFound this list key same = record {
    found = rw same refl;
    top = rw same refl;
    removed = λ k. elim (Bool-cases (k ==ℤ key)) [
      | inl it ↦ rw it (ap (stack list) (same_key k key it))
      | inr other ↦ let e : (this.key ==ℤ k) ≡ false = ground arith in rw other (rw e refl)
    ];
    marked = λ value k. elim (Bool-cases (k ==ℤ key)) [
      | inl it ↦
          let e : (this.key ==ℤ k) ≡ true = ground arith in
          rw it (rw e (ap (λ r. record this { active = value } ∷ stack list r) (same_key k key it)))
      | inr other ↦ let e : (this.key ==ℤ k) ≡ false = ground arith in rw other (rw e refl)
    ];
  }

  later-IsFound :
      (that : HotKey H) (list : List (HotKey H)) (key : ℤ) (i : ℕ) (this : HotKey H)
      (rest : List (HotKey H))
      → (that.key ==ℤ key) ≡ false
      → IsFound list key i this rest
      → IsFound (that ∷ list) key (suc i) this rest
  unfolding find_hotkey stack set_active
  later-IsFound that list key i this rest other f = record {
    found = rw other (rw f.found refl);
    top = rw other f.top;
    removed = λ k. elim (Bool-cases (that.key ==ℤ k)) [
      | inl it ↦
          let e : (k ==ℤ key) ≡ false = ground arith in
          rw it (rw e (ap (λ t. that ∷ t) (f.removed k ∙ rw e refl)))
      | inr not_it ↦ rw not_it (f.removed k)
    ];
    marked = λ value k. elim (Bool-cases (that.key ==ℤ k)) [
      | inl it ↦
          let e : (k ==ℤ key) ≡ false = ground arith in
          rw it (rw e (ap (λ t. that ∷ t) (f.marked value k ∙ rw e refl)))
      | inr not_it ↦ rw not_it (f.marked value k)
    ];
  }

  -- findHotkey finds nothing where the stack of the key is empty, and its top otherwise.
  pub find_hotkey-stack :
      (list : List (HotKey H)) (key : ℤ)
      → ((find_hotkey list key ≡ none) × (stack list key ≡ []))
        ⊎ ((i : ℕ) × (this : HotKey H) × (rest : List (HotKey H)) × IsFound list key i this rest)
  unfolding find_hotkey stack
  find_hotkey-stack [] key = inl (refl, refl)
  find_hotkey-stack (that ∷ list) key = elim (Bool-cases (that.key ==ℤ key)) [
    | inl same ↦ inr (0, that, stack list key, first-IsFound that list key same)
    | inr other ↦ elim (find_hotkey-stack list key) [
      | inl (f, e) ↦ inl (rw other (rw f refl), rw other e)
      | inr (i, this, rest, f) ↦
          inr (suc i, this, rest, later-IsFound that list key i this rest other f)
    ]
  ]
