-- ===== src/Tux/Ammo.antt =====
-- src/base/tux.c: the ammunition of a tux, in switchTuxGun and pickUpGun.
use tuxanci_ng.Prelude.{
  ℕ, zero, suc, ◌+◌, ◌-◌, ◌%◌, ◌≤◌, ◌<◌, dec_lt, ◌≡◌, refl, sym, ap, subst, ◌∙◌, inl, inr, List, [],
  ◌∷◌, true, false, not, ◌&&◌, none, some, Result, ok, ◌>>=◌, arith, if◌then◌else◌, Bool-cases,
  Option-cases, length, get_elem?, drop, set, length-set, get_elem?-some,
}
use tuxanci_ng.Prelude.Int.{ℤ, pos, ◌+ℤ◌, ◌-ℤ◌, ◌≤ℤ◌, ◌<ℤ◌, ltb_ℤ, ◌==ℤ◌, +ℤ_parts, -ℤ_parts}
use tuxanci_ng.Memory.{load, store}
use tuxanci_ng.Memory.Blocks.{store-set}
use mathlib.Core.Option.{some_inj}
use tuxanci_ng.Tux.{Tux}
use tuxanci_ng.Tux.Events.{spend, pick_up_gun}
use tuxanci_ng.Tux.Guns.{
  any_loaded, tux_is_any_gun, first_loaded, take_gun, may_not_switch, switch_tux_gun, GameType,
  is_client, Effect, add_task, tux_can_switch_gun,
}

-- Where the loops of switchTuxGun stop.
first_loaded-some :
    (shot : List ℤ) (i k : ℕ)
    → first_loaded shot i ≡ some k
    → (j : ℕ) × (n : ℤ) × (k ≡ i + j) × (get_elem? shot j ≡ some n) × (pos 0 <ℤ n)
unfolding first_loaded
first_loaded-some [] i k h = absurd (cc)
first_loaded-some (n ∷ shot) i k h = elim (Bool-cases (ltb_ℤ (pos 0) n)) [
  | inl loaded ↦
      let e : some i ≡ some k = rw loaded at h in (0, n, ground arith, refl, ground arith)
  | inr empty ↦
      let (j, m, e, here, positive) = first_loaded-some shot (i + 1) k (rw empty at h) in
      (suc j, m, omega arith, here, positive)
]

first_loaded-any :
    (shot : List ℤ) (i : ℕ) → any_loaded shot ≡ true → (k : ℕ) × (first_loaded shot i ≡ some k)
unfolding first_loaded any_loaded
first_loaded-any [] i h = absurd (cc)
first_loaded-any (n ∷ shot) i h = elim (Bool-cases (ltb_ℤ (pos 0) n)) [
  | inl loaded ↦ (i, rw loaded)
  | inr empty ↦ let (k, e) = first_loaded-any shot (i + 1) (rw empty at h) in (k, rw empty e)
]

get_elem?-drop : (d j : ℕ) (l : List ℤ) → get_elem? (drop d l) j ≡ get_elem? l (d + j)
get_elem?-drop zero j l = let e : j ≡ 0 + j = omega arith in ap (get_elem? l) e
get_elem?-drop (suc d) j [] = refl
get_elem?-drop (suc d) j (x ∷ l) =
    let e : suc (d + j) ≡ suc d + j = omega arith in get_elem?-drop d j l ∙ ap (get_elem? (x ∷ l)) e

-- Every gun has a place in the ammunition, and none holds a negative number of shots.
pub record IsArmed (tux : Tux) : Type 0 where
  pub seven : length tux.shot ≡ 7
  pub held : tux.gun < 7
  pub nonneg : (i : ℕ) (n : ℤ) → get_elem? tux.shot i ≡ some n → pos 0 ≤ℤ n

-- The loops of switchTuxGun pass only guns without a shot.
first_loaded-before :
    (shot : List ℤ) (i k : ℕ)
    → first_loaded shot i ≡ some k
    → (j : ℕ) (n : ℤ) → i + j < k
    → get_elem? shot j ≡ some n
    → n ≤ℤ pos 0
unfolding first_loaded
first_loaded-before [] i k h j n less at = absurd (cc)
first_loaded-before (x ∷ shot) i k h j n less at = elim (Bool-cases (ltb_ℤ (pos 0) x)) [
  | inl loaded ↦ let e : some i ≡ some k = rw loaded at h in absurd (ground arith)
  | inr empty ↦ behind shot x j empty (first_loaded-before shot (i + 1) k (rw empty at h)) less at
]
  where
    behind :
        (shot : List ℤ) (x : ℤ) (j : ℕ)
        → ltb_ℤ (pos 0) x ≡ false
        → ((j : ℕ) (n : ℤ) → i + 1 + j < k → get_elem? shot j ≡ some n → n ≤ℤ pos 0)
        → i + j < k
        → get_elem? (x ∷ shot) j ≡ some n
        → n ≤ℤ pos 0
    behind shot x zero empty rest less at = subst (λ t. t ≤ℤ pos 0) (some_inj.0 at) (ground arith)
    behind shot x (suc j) empty rest less at = rest j n (omega arith) at

first_loaded-none :
    (shot : List ℤ) (i : ℕ)
    → first_loaded shot i ≡ none
    → (j : ℕ) (n : ℤ) → get_elem? shot j ≡ some n
    → n ≤ℤ pos 0
unfolding first_loaded
first_loaded-none [] i h j n at = absurd (cc)
first_loaded-none (x ∷ shot) i h zero n at = elim (Bool-cases (ltb_ℤ (pos 0) x)) [
  | inl loaded ↦ let e : some i ≡ none = rw loaded at h in absurd (cc)
  | inr empty ↦ subst (λ t. t ≤ℤ pos 0) (some_inj.0 at) (ground arith)
]
first_loaded-none (x ∷ shot) i h (suc j) n at = elim (Bool-cases (ltb_ℤ (pos 0) x)) [
  | inl loaded ↦ let e : some i ≡ none = rw loaded at h in absurd (cc)
  | inr empty ↦ first_loaded-none shot (i + 1) (rw empty at h) j n at
]

-- What a switch of guns does: going round the seven guns from the one behind the gun in hand on, the
-- first that has a shot is the new one, which is the gun in hand only after a whole round; the tux may
-- not switch again, nothing else of it changes, and the timer is asked to allow it again after 100 ms.
pub record Switched (tux : Tux) (r : Tux × List Effect) : Type 0 where
  pub turns : ℕ
  pub forward : 0 < turns
  pub round : turns ≤ 7
  pub left : ℤ
  pub loaded : get_elem? tux.shot ((tux.gun + turns) % 7) ≡ some left
  pub positive : pos 0 <ℤ left
  pub skipped :
      (e : ℕ) (n : ℤ)
      → 0 < e
      → e < turns
      → get_elem? tux.shot ((tux.gun + e) % 7) ≡ some n
      → n ≤ℤ pos 0
  pub switches : r ≡ (
    record tux { gun = (tux.gun + turns) % 7; is_can_switch_gun = false },
    add_task tux_can_switch_gun tux.id 100 ∷ [],
  )

module _ (tux : Tux) (a : IsArmed tux) where
  -- The first loop of switchTuxGun goes over the guns behind the one in hand.
  at_behind :
      (j i : ℕ)
      → i ≡ suc tux.gun + j
      → get_elem? (drop (suc tux.gun) tux.shot) j ≡ get_elem? tux.shot i
  at_behind j i e = get_elem?-drop (suc tux.gun) j tux.shot ∙ ap (get_elem? tux.shot) (sym e)

  behind-Switched :
      (k : ℕ)
      → first_loaded (drop (suc tux.gun) tux.shot) (suc tux.gun) ≡ some k
      → Switched tux (take_gun tux k)
  behind-Switched k found =
      let shots = drop (suc tux.gun) tux.shot in
      let (j, n, place, here, positive) = first_loaded-some shots (suc tux.gun) k found in
      let at_k : get_elem? tux.shot k ≡ some n = sym (at_behind j k place) ∙ here in
      let inside : k < length tux.shot = get_elem?-some tux.shot k at_k in
      let e : (tux.gun + suc j) % 7 ≡ k = omega (arith, a.seven) in
      record {
        turns = suc j;
        forward = omega arith;
        round = omega (arith, a.seven);
        left = n;
        loaded = ap (get_elem? tux.shot) e ∙ at_k;
        positive = positive;
        skipped = λ d m some_turn less at_d.
            let c : ℕ = d - 1 in
            first_loaded-before shots (suc tux.gun) k found c m (omega arith)
              (at_behind c ((tux.gun + d) % 7) (omega (arith, a.seven)) ∙ at_d);
        switches = rw e refl;
      }

  around-Switched :
      (k : ℕ)
      → first_loaded (drop (suc tux.gun) tux.shot) (suc tux.gun) ≡ none
      → first_loaded tux.shot 0 ≡ some k
      → Switched tux (take_gun tux k)
  around-Switched k nothing found =
      let (j, n, place, here, positive) = first_loaded-some tux.shot 0 k found in
      let at_k : get_elem? tux.shot k ≡ some n =
        ap (get_elem? tux.shot) (let z : 0 + j ≡ j = omega arith in place ∙ z) ∙ here in
      let inside : k < length tux.shot = get_elem?-some tux.shot k at_k in
      let front : k ≤ tux.gun = not_behind k n at_k positive in
      let e : (tux.gun + (7 - tux.gun + k)) % 7 ≡ k = omega (arith, a.seven, a.held) in
      record {
        turns = 7 - tux.gun + k;
        forward = omega (arith, a.held);
        round = omega (arith, a.held);
        left = n;
        loaded = ap (get_elem? tux.shot) e ∙ at_k;
        positive = positive;
        skipped = λ d m some_turn less at_d. elim (dec_lt (tux.gun + d) 7) [
          | yes short ↦
              let c : ℕ = d - 1 in
              first_loaded-none (drop (suc tux.gun) tux.shot) (suc tux.gun) nothing c m
                (at_behind c ((tux.gun + d) % 7) (omega arith) ∙ at_d)
          | no long ↦
              first_loaded-before tux.shot 0 k found ((tux.gun + d) % 7) m (omega (arith, a.held))
                at_d
        ];
        switches = rw e refl;
      }
    where
      not_behind : (k : ℕ) (n : ℤ) → get_elem? tux.shot k ≡ some n → pos 0 <ℤ n → k ≤ tux.gun
      not_behind k n at_k positive = elim (dec_lt tux.gun k) [
        | yes after ↦
            let none_left : n ≤ℤ pos 0 =
              first_loaded-none (drop (suc tux.gun) tux.shot) (suc tux.gun) nothing
                (k - suc tux.gun) n (at_behind (k - suc tux.gun) k (omega arith) ∙ at_k) in
            absurd (omega arith)
        | no before ↦ omega arith
      ]

-- switchTuxGun of a tux that may switch, has a loaded gun and its seven guns in order: going round from
-- the gun behind the one in hand on, it switches to the first that has a shot, so it keeps the gun in
-- hand only where no other has one. It locks switching, asks the timer once, and changes nothing else.
pub switch_tux_gun-Switched :
    (tux : Tux)
    → IsArmed tux
    → may_not_switch tux ≡ false
    → tux_is_any_gun tux ≡ true
    → Switched tux (switch_tux_gun tux)
unfolding switch_tux_gun tux_is_any_gun
switch_tux_gun-Switched tux a may any =
    elim (Option-cases (first_loaded (drop (suc tux.gun) tux.shot) (suc tux.gun))) [
      | inr (k, e) ↦ rw (may, e) (behind-Switched tux a k e)
      | inl e ↦
          let (k, found) = first_loaded-any tux.shot 0 any in
          rw (may, e) (rw found (around-Switched tux a k e found))
    ]

pub get_elem?-in : (l : List ℤ) (i : ℕ) → i < length l → (n : ℤ) × (get_elem? l i ≡ some n)
get_elem?-in [] i h = absurd (omega arith)
get_elem?-in (x ∷ l) zero h = (x, refl)
get_elem?-in (x ∷ l) (suc i) h = get_elem?-in l i (omega arith)

nonneg-set :
    (l : List ℤ) (k : ℕ) (v : ℤ)
    → pos 0 ≤ℤ v
    → ((i : ℕ) (n : ℤ) → get_elem? l i ≡ some n → pos 0 ≤ℤ n)
    → (i : ℕ) (n : ℤ) → get_elem? (set l k v) i ≡ some n
    → pos 0 ≤ℤ n
nonneg-set [] k v hv h i n e = absurd (cc)
nonneg-set (x ∷ l) zero v hv h zero n e = subst (λ t. pos 0 ≤ℤ t) (some_inj.0 e) hv
nonneg-set (x ∷ l) zero v hv h (suc i) n e = h (suc i) n e
nonneg-set (x ∷ l) (suc k) v hv h zero n e = h zero n e
nonneg-set (x ∷ l) (suc k) v hv h (suc i) n e = nonneg-set l k v hv (λ a b. h (suc a) b) i n e

pub load_at : (l : List ℤ) (i : ℕ) (n : ℤ) → get_elem? l i ≡ some n → load l (pos i) ≡ ok n
unfolding load
load_at l i n e = rw e

-- Spending a shot that is there.
pub spend-IsArmed :
    (tux : Tux) (n : ℤ)
    → IsArmed tux
    → get_elem? tux.shot tux.gun ≡ some n
    → (n ==ℤ pos 0) ≡ false
    → (tux' : Tux) × (spend tux ≡ ok tux')
      × IsArmed tux'
      × (tux'.gun ≡ tux.gun)
      × (tux'.position ≡ tux.position)
spend-IsArmed tux n a here some_left =
    let inside : tux.gun < length tux.shot = get_elem?-some tux.shot tux.gun here in
    let enough : pos 0 ≤ℤ n -ℤ pos 1 =
      let h = a.nonneg tux.gun n here in ground (arith, -ℤ_parts n (pos 1), h) in
    (
      record tux { shot = set tux.shot tux.gun (n -ℤ pos 1) },
      rw (load_at tux.shot tux.gun n here, store-set tux.shot tux.gun (n -ℤ pos 1) inside),
      record {
        seven = length-set tux.shot tux.gun (n -ℤ pos 1) ∙ a.seven;
        held = a.held;
        nonneg = nonneg-set tux.shot tux.gun (n -ℤ pos 1) enough a.nonneg;
      },
      refl,
      refl,
    )

-- The ammunition is in order for a tux that has the same shots and a gun among the seven.
pub IsArmed-same :
    (tux tux' : Tux) → IsArmed tux → tux'.shot ≡ tux.shot → tux'.gun < 7 → IsArmed tux'
IsArmed-same tux tux' a e h = record {
  seven = ap length e ∙ a.seven;
  held = h;
  nonneg = λ i n here. a.nonneg i n (ap (λ t. get_elem? t i) (sym e) ∙ here);
}

-- switchTuxGun keeps the ammunition in order.
pub switch_tux_gun-IsArmed : (tux : Tux) → IsArmed tux → IsArmed (switch_tux_gun tux).0
unfolding switch_tux_gun
switch_tux_gun-IsArmed tux a = elim (Bool-cases (may_not_switch tux)) [
  | inl locked ↦ rw (switch_tux_gun, locked) a
  | inr may ↦ elim (Option-cases (first_loaded (drop (suc tux.gun) tux.shot) (suc tux.gun))) [
    | inr (k, e) ↦
        let (j, n, place, here, positive) =
          first_loaded-some (drop (suc tux.gun) tux.shot) (suc tux.gun) k e in
        let inside : suc tux.gun + j < length tux.shot =
          get_elem?-some tux.shot (suc tux.gun + j)
            (sym (get_elem?-drop (suc tux.gun) j tux.shot) ∙ here) in
        rw (switch_tux_gun, may, e)
          (IsArmed-same tux (take_gun tux k).0 a refl (omega (arith, a.seven)))
    | inl e ↦ elim (Option-cases (first_loaded tux.shot 0)) [
      | inl none_left ↦ rw (switch_tux_gun, may, e) (rw none_left a)
      | inr (k, found) ↦
          let (j, n, place, here, positive) = first_loaded-some tux.shot 0 k found in
          let inside : j < length tux.shot = get_elem?-some tux.shot j here in
          rw (switch_tux_gun, may, e)
            (rw found (IsArmed-same tux (take_gun tux k).0 a refl (omega (arith, a.seven))))
    ]
  ]
]

-- pickUpGun with pickup_time between 0 and 50 succeeds, keeps it there, and keeps the ammunition in
-- order.
pub pick_up_gun-IsArmed :
    (game : GameType) (tux : Tux)
    → IsArmed tux
    → pos 0 ≤ℤ tux.pickup_time
    → tux.pickup_time ≤ℤ pos 50
    → (tux' : Tux) × (pick_up_gun game tux ≡ ok tux')
      × IsArmed tux'
      × (pos 0 ≤ℤ tux'.pickup_time)
      × (tux'.pickup_time ≤ℤ pos 50)
unfolding pick_up_gun
pick_up_gun-IsArmed game tux a low high = elim (Bool-cases (tux_is_any_gun tux)) [
  | inl any ↦ (tux, rw any, a, low, high)
  | inr empty ↦
      let time : ℤ =
        if ltb_ℤ tux.pickup_time (pos 50) then tux.pickup_time +ℤ pos 1 else tux.pickup_time in
      let waiting : Tux = record tux { gun = 0; pickup_time = time } in
      let low' : pos 0 ≤ℤ time = ground (arith, +ℤ_parts tux.pickup_time (pos 1)) in
      let high' : time ≤ℤ pos 50 = ground (arith, +ℤ_parts tux.pickup_time (pos 1)) in
      let stored : store tux.shot (pos 0) (pos 5) ≡ ok (set tux.shot 0 (pos 5)) =
        store-set tux.shot 0 (pos 5) (omega (arith, a.seven)) in
      elim (Bool-cases ((time ==ℤ pos 50) && not (is_client game))) [
        | inl now ↦ (
          record tux { gun = 0; shot = set tux.shot 0 (pos 5); pickup_time = pos 0 },
          rw empty (rw (now, stored)),
          record {
            seven = length-set tux.shot 0 (pos 5) ∙ a.seven;
            held = omega arith;
            nonneg = nonneg-set tux.shot 0 (pos 5) (omega arith) a.nonneg;
          },
          omega arith,
          omega arith,
        )
        | inr wait ↦ (
          waiting,
          rw empty (rw wait),
          IsArmed-same tux waiting a refl (omega arith),
          low',
          high',
        )
      ]
]

fifty : (pos 49 +ℤ pos 1 ==ℤ pos 50) ≡ true
unfolding ◌+ℤ◌
fifty = refl

-- pickUpGun called a number of times.
unfoldable pub pick_up_guns : GameType → ℕ → Tux → Result Tux
pick_up_guns game zero tux = ok tux
pick_up_guns game (suc k) tux = pick_up_gun game tux >>= λ t. pick_up_guns game k t

pick_up_gun-waits :
    (game : GameType) (p : ℕ) (tux : Tux)
    → tux_is_any_gun tux ≡ false
    → tux.pickup_time ≡ pos p
    → p < 49
    → pick_up_gun game tux ≡ ok (record tux { gun = 0; pickup_time = pos (suc p) })
unfolding pick_up_gun ◌+ℤ◌
pick_up_gun-waits game p tux empty time less =
    let before : ltb_ℤ tux.pickup_time (pos 50) ≡ true = rw time (ground arith) in
    let next : tux.pickup_time +ℤ pos 1 ≡ pos (suc p) = rw time (ground arith) in
    let not_yet : (pos (suc p) ==ℤ pos 50) ≡ false = ground arith in
    rw (empty, before) (rw next (rw not_yet refl))

pick_up_guns-wait :
    (game : GameType) (j p : ℕ) (tux : Tux)
    → tux_is_any_gun tux ≡ false
    → tux.pickup_time ≡ pos p
    → p + j < 50
    → (tux' : Tux) × (pick_up_guns game j tux ≡ ok tux')
      × (tux'.shot ≡ tux.shot)
      × (tux'.pickup_time ≡ pos (p + j))
unfolding pick_up_guns tux_is_any_gun
pick_up_guns-wait game zero p tux empty time less = (tux, refl, refl, time ∙ ap pos (omega arith))
pick_up_guns-wait game (suc j) p tux empty time less =
    let (tux', run, shot, time') =
      pick_up_guns-wait game j (suc p) (record tux { gun = 0; pickup_time = pos (suc p) }) empty
        refl (omega arith) in
    (
      tux',
      rw (pick_up_gun-waits game p tux empty time (omega arith)) run,
      shot,
      time' ∙ ap pos (omega arith),
    )

-- pickUpGun, not on a client, called again and again of a tux that has no shot in any of its seven guns
-- and a pickup_time of p below 50: none of the first 49 - p calls gives it a shot, and the next
-- one, with which 50 - p calls are made, gives it the simple gun with 5 shots, starts the count again and
-- changes nothing else.
pub pick_up_guns_lem :
    (game : GameType) (k p : ℕ) (tux : Tux)
    → IsArmed tux
    → is_client game ≡ false
    → tux_is_any_gun tux ≡ false
    → tux.pickup_time ≡ pos p
    → p + k ≡ 49
    → ((j : ℕ)
        → j ≤ k
        → (tux' : Tux) × (pick_up_guns game j tux ≡ ok tux')
          × (tux'.shot ≡ tux.shot)
          × (tux'.pickup_time ≡ pos (p + j)))
      × (pick_up_guns game (suc k) tux
          ≡ ok (record tux { gun = 0; shot = set tux.shot 0 (pos 5); pickup_time = pos 0 }))
unfolding pick_up_guns pick_up_gun tux_is_any_gun
pick_up_guns_lem game zero p tux a here empty time count = (
  λ j less. pick_up_guns-wait game j p tux empty time (omega arith),
  let at_end : tux.pickup_time ≡ pos 49 = time ∙ ap pos (omega arith) in
      let before : ltb_ℤ tux.pickup_time (pos 50) ≡ true = ap (λ t. ltb_ℤ t (pos 50)) at_end in
      let reached : (tux.pickup_time +ℤ pos 1 ==ℤ pos 50) ≡ true =
        ap (λ t. t +ℤ pos 1 ==ℤ pos 50) at_end ∙ fifty in
      let stored : store tux.shot (pos 0) (pos 5) ≡ ok (set tux.shot 0 (pos 5)) =
        store-set tux.shot 0 (pos 5) (omega (arith, a.seven)) in
      rw (empty, before) (rw (reached, here) (rw stored refl)),
)
pick_up_guns_lem game (suc k) p tux a here empty time count = (
  λ j less. pick_up_guns-wait game j p tux empty time (omega arith),
  let next : Tux = record tux { gun = 0; pickup_time = pos (suc p) } in
      let rest =
        pick_up_guns_lem game k (suc p) next (IsArmed-same tux next a refl (omega arith)) here empty
          refl (omega arith) in
      rw (pick_up_gun-waits game p tux empty time (omega arith)) rest.1,
)
