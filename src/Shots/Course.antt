-- ===== src/Shots/Course.antt =====
-- src/base/shot.c: the course of a ball that bounces.
use tuxanci_ng.Prelude.{
  ℕ, zero, suc, ◌+◌, ◌-◌, ◌≤◌, ◌<◌, ◌≡◌, refl, sym, ap, ◌∙◌, inl, inr, true, false, ok, arith, ◌==◌,
  Bool-cases,
}
use tuxanci_ng.Prelude.Int.{ℤ, pos, ◌==ℤ◌}
use tuxanci_ng.IdManager.{rest_of}
use tuxanci_ng.Tux.{Shot}
use tuxanci_ng.Tux.Guns.{gun_bombball}
use tuxanci_ng.Shots.Making.{course, get_random_course, shot_bound_bomb_ball}

-- The stream behind its first draws.
skip : ℕ → (ℕ → ℕ) → ℕ → ℕ
skip zero draws = draws
skip (suc n) draws = skip n (rest_of draws)

skip-at : (k i : ℕ) (draws : ℕ → ℕ) → skip k draws i ≡ draws (k + i)
unfolding skip
skip-at zero i draws = let e : 0 + i ≡ i = omega arith in rw e refl
skip-at (suc k) i draws =
    let e : suc (k + i) ≡ suc k + i = omega arith in skip-at k i (rest_of draws) ∙ ap draws e

-- The first draw that gives another course is taken.
get_random_course_lem :
    (fuel n : ℕ) (draws : ℕ → ℕ) (x y : ℤ)
    → n < fuel
    → (course (draws n) y ==ℤ x) ≡ false
    → (k : ℕ) × (k ≤ n)
      × (get_random_course fuel draws x y ≡ ok (course (draws k) y, skip (suc k) draws))
      × ((course (draws k) y ==ℤ x) ≡ false)
unfolding get_random_course skip
get_random_course_lem zero n draws x y h other = absurd (omega arith)
get_random_course_lem (suc fuel) zero draws x y h other = (0, omega arith, rw other refl, other)
get_random_course_lem (suc fuel) (suc n) draws x y h other =
    elim (Bool-cases (course (draws 0) y ==ℤ x)) [
      | inr new ↦ (0, omega arith, rw new refl, new)
      | inl same ↦
          let (k, le, run, differs) =
            get_random_course_lem fuel n (rest_of draws) x y (omega arith) other in
          (suc k, omega arith, rw same run, differs)
    ]

-- shot_bound_bombBall of a ball ends, where the draw n of random() gives a course other than the one
-- it has across and a later draw m, within the bound on the rounds, one other than it has down. Each new
-- course is one of 10, -10 and 0, drawn by random(), and not the old one; from then on the ball can kill
-- its author, and nothing else of it has changed.
pub shot_bound_bomb_ball_lem :
    (fuel n m : ℕ) (draws : ℕ → ℕ) (shot : Shot)
    → (shot.gun == gun_bombball) ≡ true
    → n < m
    → m ≤ fuel
    → (course (draws n) (pos 10) ==ℤ shot.px) ≡ false
    → (course (draws m) (pos 10) ==ℤ shot.py) ≡ false
    → (k l : ℕ) × (rest : ℕ → ℕ) × (shot_bound_bomb_ball fuel draws shot
        ≡ ok (
          record shot {
            px = course (draws k) (pos 10);
            py = course (draws l) (pos 10);
            is_can_kill_author = true;
          },
          rest,
        ))
      × ((course (draws k) (pos 10) ==ℤ shot.px) ≡ false)
      × ((course (draws l) (pos 10) ==ℤ shot.py) ≡ false)
unfolding shot_bound_bomb_ball
shot_bound_bomb_ball_lem fuel n m draws shot ball before enough across down =
    let (k, le, run, differs) =
      get_random_course_lem fuel n draws shot.px (pos 10) (omega arith) across in
    let at_m : skip (suc k) draws (m - suc k) ≡ draws m =
      skip-at (suc k) (m - suc k) draws ∙ ap draws (omega arith) in
    let down' : (course (skip (suc k) draws (m - suc k)) (pos 10) ==ℤ shot.py) ≡ false =
      ap (λ (d : ℕ). course d (pos 10) ==ℤ shot.py) at_m ∙ down in
    let (l, le', run', differs') =
      get_random_course_lem fuel (m - suc k) (skip (suc k) draws) shot.py (pos 10) (omega arith)
        down' in
    let at_l : skip (suc k) draws l ≡ draws (suc k + l) = skip-at (suc k) l draws in
    (
      k,
      suc k + l,
      skip (suc l) (skip (suc k) draws),
      rw ball (rw run (rw run' (rw at_l refl))),
      differs,
      ap (λ (d : ℕ). course d (pos 10) ==ℤ shot.py) (sym at_l) ∙ differs',
    )
