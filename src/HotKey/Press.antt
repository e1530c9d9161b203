-- ===== src/HotKey/Press.antt =====
-- src/client/hotKey.c: which handler hot_key_event calls, and that it then waits.
use tuxanci_ng.Prelude.{
  ℕ, zero, suc, ◌+◌, ◌-◌, ◌%◌, ◌^◌, ◌<◌, ◌≡◌, refl, subst, ◌⊎◌, inl, inr, List, [], ◌∷◌, Bool, true,
  false, ◌&&◌, none, some, Bool-cases, Option-cases, get_elem?, length, lt→ltb, arith,
}
use mathlib.Core.Option.{some_inj}
use tuxanci_ng.Prelude.Int.{ℤ}
use tuxanci_ng.HotKey.{HotKey, HotKeys, too_soon, pressed, active_interval, hot_key_event}

too_soon_lem : (t later : ℕ) → t < 500 → too_soon (later + t) (later % 2 ^ 32) ≡ true
unfolding too_soon
too_soon_lem t later less =
    let e : ((later + t) % 2 ^ 32 + (2 ^ 32 - later % 2 ^ 32)) % 2 ^ 32 ≡ t = omega arith in
    rw e (lt→ltb t 500 less)

module _ {ℓ} {H : Type ℓ} where
  -- A key is held down and its entry is enabled.
  unfoldable pub counts : (ℤ → Bool) → HotKey H → Bool
  counts is_down this = is_down this.key && this.active

  -- Nothing counts below the place i of the list.
  abbrev NothingBefore : (ℤ → Bool) → List (HotKey H) → ℕ → Type ℓ
  NothingBefore is_down list i =
      (j : ℕ) (that : HotKey H) → j < i → get_elem? list j ≡ some that → counts is_down that ≡ false

  nothing_more :
      (is_down : ℤ → Bool) (this : HotKey H) (list : List (HotKey H)) (i : ℕ)
      → counts is_down this ≡ false
      → NothingBefore is_down list i
      → NothingBefore is_down (this ∷ list) (suc i)
  nothing_more is_down this list i up before zero that less at =
      subst (λ e. counts is_down e ≡ false) (some_inj.0 at) up
  nothing_more is_down this list i up before (suc j) that less at = before j that (omega arith) at

  pressed-none :
      (is_down : ℤ → Bool) (list : List (HotKey H))
      → pressed is_down list ≡ none
      → NothingBefore is_down list (length list)
  unfolding pressed counts
  pressed-none is_down [] quiet = λ j that less at. absurd (omega arith)
  pressed-none is_down (this ∷ list) quiet = elim (Bool-cases (is_down this.key && this.active)) [
    | inl it ↦ (let e : some this.handler ≡ none = rw it at quiet in absurd (cc))
    | inr other ↦
        nothing_more is_down this list (length list) other
          (pressed-none is_down list (rw other at quiet))
  ]

  pressed-some :
      (is_down : ℤ → Bool) (list : List (HotKey H)) (handler : H)
      → pressed is_down list ≡ some handler
      → (i : ℕ) × (this : HotKey H) × (get_elem? list i ≡ some this)
        × (counts is_down this ≡ true)
        × (this.handler ≡ handler)
        × NothingBefore is_down list i
  unfolding pressed counts
  pressed-some is_down [] handler found = absurd (cc)
  pressed-some is_down (this ∷ list) handler found =
      elim (Bool-cases (is_down this.key && this.active)) [
        | inl it ↦
            (0, this, refl, it, some_inj.0 (rw it at found), λ j that less at. absurd (omega arith))
        | inr other ↦
            let (i, that, at, down, same, before) =
              pressed-some is_down list handler (rw other at found) in
            (suc i, that, at, down, same, nothing_more is_down this list i other before)
      ]

  -- hot_key_event either calls no handler and changes nothing, because the last time it did so or a key
  -- was enabled or disabled is less than HOTKEY_ACTIVE_INTERVAL ago or because no enabled entry has its
  -- key held down; or it calls the handler of the first such entry, keeps the entries, and calls none
  -- again for the next HOTKEY_ACTIVE_INTERVAL milliseconds, whatever is pressed.
  pub hot_key_event_lem :
      (is_down : ℤ → Bool) (current later : ℕ) (s : HotKeys H)
      → ((hot_key_event is_down current later s ≡ (s, none))
          × ((too_soon current s.last_active ≡ true)
              ⊎ ((j : ℕ) (that : HotKey H)
                  → j < length s.list
                  → get_elem? s.list j ≡ some that
                  → counts is_down that ≡ false)))
        ⊎ ((i : ℕ) × (this : HotKey H) × (s' : HotKeys H) × (get_elem? s.list i ≡ some this)
            × (counts is_down this ≡ true)
            × ((j : ℕ) (that : HotKey H)
                → j < i
                → get_elem? s.list j ≡ some that
                → counts is_down that ≡ false)
            × (hot_key_event is_down current later s ≡ (s', some this.handler))
            × (s'.list ≡ s.list)
            × ((t : ℕ) (is_down' : ℤ → Bool) (later' : ℕ)
                → t < active_interval
                → hot_key_event is_down' (later + t) later' s' ≡ (s', none)))
  unfolding hot_key_event
  hot_key_event_lem is_down current later s = elim (Bool-cases (too_soon current s.last_active)) [
    | inl soon ↦ inl (rw soon refl, inl soon)
    | inr due ↦ elim (Option-cases (pressed is_down s.list)) [
      | inl quiet ↦ inl (rw due (rw quiet refl), inr (pressed-none is_down s.list quiet))
      | inr (handler, found) ↦
          let (i, this, at, down, same, before) = pressed-some is_down s.list handler found in
          inr (
            i,
            this,
            record s { last_active = later % 2 ^ 32 },
            at,
            down,
            before,
            rw due (rw found (rw same refl)),
            refl,
            λ t is_down' later' less. rw (too_soon_lem t later less) refl,
          )
    ]
  ]
