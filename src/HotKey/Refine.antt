-- ===== src/HotKey/Refine.antt =====
-- src/client/hotKey.c: any sequence of calls, against one stack of entries for each key.
use tuxanci_ng.Prelude.{
  ℕ, ◌%◌, ◌^◌, ◌≡◌, refl, ap, ◌∙◌, inl, inr, List, [], ◌∷◌, Bool, true, false, Result, ok, err,
  aborted, ◌>>=◌, Bool-cases, arith,
}
use mathlib.Core.Path.{fun_ext}
use tuxanci_ng.Prelude.Int.{ℤ, ◌==ℤ◌}
use tuxanci_ng.HotKey.{
  HotKey, HotKeys, new_hot_key, hot_key_register, hot_key_unregister, hot_key_enable,
  hot_key_disable,
}
use tuxanci_ng.HotKey.Stacks.{stack, with_stack, find_hotkey-stack, same_key}

-- The calls of the screens that change the keys; a number is what the clock says.
pub data Call {ℓ} (H : Type ℓ) : Type ℓ where
  register : ℤ → H → Call H
  unregister : ℤ → Call H
  enable : ℤ → ℕ → Call H
  disable : ℤ → ℕ → Call H

-- The stacks of all keys, and the time that hot_key_event reads.
abbrev pub View {ℓ} : Type ℓ → Type ℓ
View H = (ℤ → List (HotKey H)) × ℕ

module _ {ℓ} {H : Type ℓ} where
  unfoldable pub call : Call H → HotKeys H → Result (HotKeys H)
  call (register key handler) s = ok (hot_key_register key handler s)
  call (unregister key) s = hot_key_unregister key s
  call (enable key now) s = hot_key_enable key now s
  call (disable key now) s = hot_key_disable key now s

  unfoldable pub calls : List (Call H) → HotKeys H → Result (HotKeys H)
  calls [] s = ok s
  calls (c ∷ cs) s = call c s >>= λ s'. calls cs s'

  abbrev pub view : HotKeys H → View H
  view s = (stack s.list, s.last_active)

  unfoldable pub marked : ℤ → Bool → ℕ → View H → Result (View H)
  marked key value now v = elim (v.0 key) [
    | [] ↦ err aborted
    | this ∷ rest ↦ ok (with_stack v.0 key (record this { active = value } ∷ rest), now % 2 ^ 32)
  ]

  -- What a call does to the stacks.
  unfoldable pub spec : Call H → View H → Result (View H)
  spec (register key handler) v = ok (with_stack v.0 key (new_hot_key key handler ∷ v.0 key), v.1)
  spec (unregister key) v = elim (v.0 key) [
    | [] ↦ err aborted
    | this ∷ rest ↦ ok (with_stack v.0 key rest, v.1)
  ]
  spec (enable key now) v = marked key true now v
  spec (disable key now) v = marked key false now v

  unfoldable pub specs : List (Call H) → View H → Result (View H)
  specs [] v = ok v
  specs (c ∷ cs) v = spec c v >>= λ v'. specs cs v'

  register-view :
      (key : ℤ) (handler : H) (s : HotKeys H) (k : ℤ)
      → stack (new_hot_key key handler ∷ s.list) k
        ≡ with_stack (stack s.list) key (new_hot_key key handler ∷ stack s.list key) k
  unfolding stack
  register-view key handler s k = elim (Bool-cases (k ==ℤ key)) [
    | inl it ↦
        let e : (key ==ℤ k) ≡ true = ground arith in
        rw it (rw e (ap (λ r. new_hot_key key handler ∷ stack s.list r) (same_key k key it)))
    | inr other ↦ let e : (key ==ℤ k) ≡ false = ground arith in rw other (rw e refl)
  ]

  call-view : (c : Call H) (s : HotKeys H) → (call c s >>= λ s'. ok (view s')) ≡ spec c (view s)
  unfolding call spec marked hot_key_register hot_key_unregister hot_key_enable hot_key_disable
  call-view (register key handler) s =
      ap (λ (t : ℤ → List (HotKey H)). ok (t, s.last_active))
        (fun_ext (register-view key handler s))
  call-view (unregister key) s = elim (find_hotkey-stack s.list key) [
    | inl (none_found, empty) ↦ rw none_found (rw (empty, spec) refl)
    | inr (i, this, rest, f) ↦ rw f.found (
        rw (f.top, spec)
          (ap (λ (t : ℤ → List (HotKey H)). ok (t, s.last_active)) (fun_ext f.removed)))
  ]
  call-view (enable key now) s = elim (find_hotkey-stack s.list key) [
    | inl (none_found, empty) ↦ rw none_found (rw (empty, spec, marked) refl)
    | inr (i, this, rest, f) ↦ rw f.found (
        rw (f.top, spec, marked)
          (ap (λ (t : ℤ → List (HotKey H)). ok (t, now % 2 ^ 32)) (fun_ext (f.marked true))))
  ]
  call-view (disable key now) s = elim (find_hotkey-stack s.list key) [
    | inl (none_found, empty) ↦ rw none_found (rw (empty, spec, marked) refl)
    | inr (i, this, rest, f) ↦ rw f.found (
        rw (f.top, spec, marked)
          (ap (λ (t : ℤ → List (HotKey H)). ok (t, now % 2 ^ 32)) (fun_ext (f.marked false))))
  ]

  specs-run :
      (m : Result (HotKeys H)) (cs : List (Call H))
      → ((s : HotKeys H) → (calls cs s >>= λ s'. ok (view s')) ≡ specs cs (view s))
      → ((m >>= λ s. calls cs s) >>= λ s'. ok (view s'))
        ≡ ((m >>= λ s'. ok (view s')) >>= λ v. specs cs v)
  specs-run (ok s) cs same = same s
  specs-run (err fault) cs same = refl

  -- Any sequence of hot_key_register, hot_key_unregister, hot_key_enable and hot_key_disable is
  -- answered as by one stack for each key: registering hides the older entry of the key,
  -- unregistering brings it back, enabling and disabling mark the top one, and each of these aborts
  -- where the stack is empty; other keys are left alone.
  pub calls-view_refine :
      (cs : List (Call H)) (s : HotKeys H) → (calls cs s >>= λ s'. ok (view s')) ≡ specs cs (view s)
  unfolding calls specs
  calls-view_refine [] s = refl
  calls-view_refine (c ∷ cs) s =
      specs-run (call c s) cs (calls-view_refine cs)
      ∙ ap (λ r. r >>= λ v. specs cs v) (call-view c s)
