-- ===== src/Tux/Shooting.antt =====
-- src/base/tux.c and src/base/gun.c: shotTux with gun_shot.
use tuxanci_ng.Prelude.{
  ℕ, ◌≡◌, refl, sym, ap, subst, ◌∙◌, inl, inr, List, [], ◌∷◌, Bool, true, false, not, some, Result,
  ok, ◌>>=◌, >>=-elim, arith, if◌then◌else◌, ◌==◌, Bool-cases, get_elem?,
}
use tuxanci_ng.Prelude.Int.{ℤ, pos, negsuc, ◌==ℤ◌}
use tuxanci_ng.Memory.{load}
use tuxanci_ng.Tux.{Tux}
use tuxanci_ng.Tux.Guns.{
  modificiation_copuse, add_shot_trivial, add_shot, shot_gun, switch_tux_gun, Effect, new_mine,
  GameType, is_client,
}
use tuxanci_ng.Tux.Events.{behind, put_in_gun_mine, fire, gun_shot, switch_if_empty, shot_tux}
use tuxanci_ng.Tux.Ammo.{
  IsArmed, IsArmed-same, spend-IsArmed, switch_tux_gun-IsArmed, get_elem?-in, load_at,
}

-- One of the four directions.
pub data IsCourse : ℤ → Type 0 where
  up : IsCourse (pos 8)
  right : IsCourse (pos 6)
  left : IsCourse (pos 4)
  down : IsCourse (pos 2)

copuse-ok : (c x y : ℤ) → IsCourse c → (p : ℤ × ℤ) × (modificiation_copuse c x y ≡ ok p)
unfolding modificiation_copuse
copuse-ok c x y up = (_, refl)
copuse-ok c x y right = (_, refl)
copuse-ok c x y left = (_, refl)
copuse-ok c x y down = (_, refl)

Ends : Result Effect → Type 0
Ends m = (e : Effect) × (m ≡ ok e)

trivial-ok :
    (tux : Tux) (c x y px py : ℤ) (gun : ℕ)
    → IsCourse c
    → (e : Effect) × (add_shot_trivial tux c x y px py gun ≡ ok e)
unfolding add_shot_trivial Ends
trivial-ok tux c x y px py gun h =
    >>=-elim Ends (modificiation_copuse c px py) _ (copuse-ok c px py h) (λ p run.
      >>=-elim Ends (modificiation_copuse c x y) _ (copuse-ok c x y h) (λ d run'. (_, refl)))

add_shot-ok :
    (game : GameType) (tux : Tux) (x y px py : ℤ)
    → IsCourse tux.position
    → (l : List Effect) × (add_shot game tux x y px py ≡ ok l)
unfolding add_shot
add_shot-ok game tux x y px py h = elim (Bool-cases (is_client game)) [
  | inl client ↦ ([], rw client)
  | inr other ↦ elim (Bool-cases (tux.bonus ==ℤ pos 14)) [
    | inr single ↦
        let (a, run) = trivial-ok tux tux.position x y px py (shot_gun tux.gun) h in
        (a ∷ [], rw (other, single) (rw run))
    | inl four ↦
        let (a, run_a) = trivial-ok tux (pos 8) x y px py (shot_gun tux.gun) up in
        let (b, run_b) = trivial-ok tux (pos 6) x y px py (shot_gun tux.gun) right in
        let (c, run_c) = trivial-ok tux (pos 4) x y px py (shot_gun tux.gun) left in
        let (d, run_d) = trivial-ok tux (pos 2) x y px py (shot_gun tux.gun) down in
        (a ∷ b ∷ c ∷ d ∷ [], rw (other, four) (rw (run_a, run_b, run_c, run_d)))
  ]
]

-- The outcome of a handler that leaves the ammunition in order.
pub record Fires (m : Result (Tux × List Effect)) : Type 0 where
  pub after : Tux
  pub effects : List Effect
  pub runs : m ≡ ok (after, effects)
  pub armed : IsArmed after

put_in_gun_mine-Fires :
    (game : GameType) (free : ℤ → ℤ → ℤ → ℤ → Bool) (tux : Tux) (n : ℤ)
    → IsArmed tux
    → get_elem? tux.shot tux.gun ≡ some n
    → (n ==ℤ pos 0) ≡ false
    → Fires (put_in_gun_mine game free tux)
unfolding put_in_gun_mine
put_in_gun_mine-Fires game free tux n a here some_left =
    let place = behind tux in
    elim (Bool-cases (free place.0 place.1 (pos 15) (pos 11))) [
      | inr taken ↦ record { after = tux; effects = []; runs = rw taken; armed = a }
      | inl clear ↦
          let (tux', run, armed', same, same') = spend-IsArmed tux n a here some_left in
          record {
            after = tux';
            effects = if is_client game then [] else new_mine place.0 place.1 tux.id ∷ [];
            runs = rw (clear, run);
            armed = armed';
          }
    ]

fired : (tux : Tux) (l : List Effect) → IsArmed tux → Fires (ok (tux, l))
fired tux l a = record { after = tux; effects = l; runs = refl; armed = a }

fire-Fires :
    (game : GameType) (free : ℤ → ℤ → ℤ → ℤ → Bool) (tux : Tux)
    → IsArmed tux
    → IsCourse tux.position
    → ((tux.gun == 5) ≡ true
        → (n : ℤ) × (get_elem? tux.shot tux.gun ≡ some n) × ((n ==ℤ pos 0) ≡ false))
    → Fires (fire game free tux)
unfolding fire
fire-Fires game free tux a c mine =
    let shoots = λ (x : ℤ) (y : ℤ) (px : ℤ) (py : ℤ). add_shot-ok game tux x y px py c in
    elim (Bool-cases (tux.gun == 0)) [
      | inl e ↦
          rw e (>>=-elim Fires _ _ (shoots (pos 0) (pos 0) (pos 5) (pos 0)) (λ l r. fired tux _ a))
      | inr g0 ↦ elim (Bool-cases (tux.gun == 1)) [
        | inl e ↦
            rw (g0, e)
              (>>=-elim Fires _ _ (shoots (pos 0) (negsuc 9) (pos 6) (pos 0)) (λ l r.
                >>=-elim Fires _ _ (shoots (pos 0) (pos 10) (pos 6) (pos 0))
                  (λ l' r'. fired tux _ a)))
        | inr g1 ↦ elim (Bool-cases (tux.gun == 2)) [
          | inl e ↦
              rw (g0, g1, e)
                (>>=-elim Fires _ _ (shoots (pos 0) (pos 0) (pos 8) (negsuc 1)) (λ l1 r1.
                  >>=-elim Fires _ _ (shoots (pos 0) (pos 0) (pos 8) (negsuc 0)) (λ l2 r2.
                    >>=-elim Fires _ _ (shoots (pos 0) (pos 0) (pos 8) (pos 0)) (λ l3 r3.
                      >>=-elim Fires _ _ (shoots (pos 0) (pos 0) (pos 8) (pos 1)) (λ l4 r4.
                        >>=-elim Fires _ _ (shoots (pos 0) (pos 0) (pos 8) (pos 2))
                          (λ l5 r5. fired tux _ a))))))
          | inr g2 ↦ elim (Bool-cases (tux.gun == 3)) [
            | inl e ↦ rw (g0, g1, g2, e) (fired tux _ a)
            | inr g3 ↦ elim (Bool-cases (tux.gun == 4)) [
              | inl e ↦ rw (g0, g1, g2, g3, e) (fired tux _ a)
              | inr g4 ↦ elim (Bool-cases (tux.gun == 6)) [
                | inl e ↦
                    rw (g0, g1, g2, g3, g4, e)
                      (>>=-elim Fires _ _ (shoots (pos 0) (pos 0) (pos 10) (pos 0))
                        (λ l r. fired tux _ a))
                | inr g6 ↦ elim (Bool-cases (tux.gun == 5)) [
                  | inl e ↦
                      let (n, here, some_left) = mine e in
                      rw (g0, g1, g2, g3, g4, g6, e)
                        (put_in_gun_mine-Fires game free tux n a here some_left)
                  | inr g5 ↦ rw (g0, g1, g2, g3, g4, g6, g5) (fired tux _ a)
                ]
              ]
            ]
          ]
        ]
      ]
    ]

gun_shot-Fires :
    (game : GameType) (free : ℤ → ℤ → ℤ → ℤ → Bool) (tux : Tux) (n : ℤ)
    → IsArmed tux
    → IsCourse tux.position
    → get_elem? tux.shot tux.gun ≡ some n
    → (n ==ℤ pos 0) ≡ false
    → Fires (gun_shot game free tux)
unfolding gun_shot
gun_shot-Fires game free tux n a c here some_left = elim (Bool-cases (tux.gun == 5)) [
  | inl mine ↦ rw mine (elim (Bool-cases (tux.bonus ==ℤ pos 11)) [
    | inl bonus ↦ rw bonus (fire-Fires game free tux a c (λ e. (n, here, some_left)))
    | inr bonus ↦ rw bonus (fire-Fires game free tux a c (λ e. (n, here, some_left)))
  ])
  | inr gun ↦ elim (Bool-cases (tux.bonus ==ℤ pos 11)) [
    | inl bonus ↦ rw (gun, bonus) (fire-Fires game free tux a c (λ e. absurd (cc (sym gun ∙ e))))
    | inr bonus ↦
        let (tux', run, armed', same, same') = spend-IsArmed tux n a here some_left in
        rw (gun, bonus)
          (rw run (
            fire-Fires game free tux' armed' (subst IsCourse (sym same') c)
              (λ e. absurd (cc (sym gun ∙ ap (λ t. t == 5) (sym same) ∙ e)))))
  ]
]

then_load :
    (tux : Tux) (f : ℤ → Result (Tux × List Effect))
    → IsArmed tux
    → ((n : ℤ) → get_elem? tux.shot tux.gun ≡ some n → Fires (f n))
    → Fires (load tux.shot (pos tux.gun) >>= f)
then_load tux f a k =
    let (n, here) = get_elem?-in tux.shot tux.gun (omega (arith, a.seven, a.held)) in
    subst (λ m. Fires (m >>= f)) (sym (load_at tux.shot tux.gun n here)) (k n here)

switch_if_empty-Fires :
    (tux : Tux) (n : ℤ) (l : List Effect) → IsArmed tux → Fires (switch_if_empty tux n l)
switch_if_empty-Fires tux n l a = elim (Bool-cases (n ==ℤ pos 0)) [
  | inl empty ↦ rw empty (fired (switch_tux_gun tux).0 _ (switch_tux_gun-IsArmed tux a))
  | inr more ↦ rw more (fired tux l a)
]

-- shotTux of a tux whose ammunition is in order and that looks in one of the four directions always
-- returns, and the ammunition is in order afterwards: no gun falls below 0 shots.
pub shot_tux-Fires :
    (game : GameType) (free : ℤ → ℤ → ℤ → ℤ → Bool) (tux : Tux)
    → IsArmed tux
    → IsCourse tux.position
    → Fires (shot_tux game free tux)
unfolding shot_tux
shot_tux-Fires game free tux a c = elim (Bool-cases (not tux.is_can_shot)) [
  | inl early ↦ rw early (fired tux [] a)
  | inr ready ↦ rw ready (
      then_load tux _ a (λ n here. elim (Bool-cases (n ==ℤ pos 0)) [
        | inl empty ↦ rw empty (fired tux [] a)
        | inr some_left ↦
            let g = gun_shot-Fires game free tux n a c here some_left in
            rw some_left (
              rw g.runs (
                then_load g.after _ g.armed (λ n' here'.
                  switch_if_empty-Fires (record g.after { is_can_shot = false }) n' _
                    (IsArmed-same g.after (record g.after { is_can_shot = false }) g.armed refl
                      g.armed.held))))
      ]))
]
