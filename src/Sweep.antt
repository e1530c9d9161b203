-- ===== src/Sweep.antt =====
-- The loop that myTimer.c, checkFront.c and storage.c share, over a list_t whose elements it deletes
-- as it goes: for (i = 0; i < list->count; i++) { ... list_del_item(list, i, f); i--; ... }.
use tuxanci_ng.Prelude.{
  ℕ, zero, suc, ◌+◌, ◌<◌, ◌≡◌, refl, ap, ◌∙◌, ◌⊎◌, inl, inr, List, [], ◌∷◌, ◌++◌, append_assoc,
  Option, none, some, Result, ok, err, out_of_fuel, ◌>>=◌, arith, length, get_elem?,
  get_elem?_middle, set,
}
use tuxanci_ng.Sequence.{add, remove_at, length-add}

module _ {ℓ} {A : Type ℓ} where
  abbrev pub keep : Option A → List A → List A
  keep none l = l
  keep (some a) l = a ∷ l

  remove_at_middle :
      (pre : List A) (x : A) (xs : List A) → remove_at (pre ++ (x ∷ xs)) (length pre) ≡ pre ++ xs
  remove_at_middle [] x xs = refl
  remove_at_middle (y ∷ pre) x xs = ap (λ t. y ∷ t) (remove_at_middle pre x xs)

  set_middle :
      (pre : List A) (x y : A) (xs : List A)
      → set (pre ++ (x ∷ xs)) (length pre) y ≡ add pre y ++ xs
  set_middle [] x y xs = refl
  set_middle (z ∷ pre) x y xs = ap (λ t. z ∷ t) (set_middle pre x y xs)

  get_elem?_end : (pre : List A) → get_elem? (pre ++ []) (length pre) ≡ none
  get_elem?_end [] = refl
  get_elem?_end (y ∷ pre) = get_elem?_end pre

module _ {ℓ κ} {A : Type ℓ} {S : Type κ} where
  -- The loop from index `i` on. The body says what becomes of an element: none when it deletes it.
  -- The first number bounds the rounds; the body may stop the program.
  unfoldable pub sweep_loop :
      (A → S → Result (Option A × S)) → ℕ → ℕ → List A → S → Result (List A × S)
  sweep_loop body zero i list s = err out_of_fuel
  sweep_loop body (suc fuel) i list s = elim (get_elem? list i) [
    | none ↦ ok (list, s)
    | some this ↦ body this s >>= λ r. elim r.0 [
      | none ↦ sweep_loop body fuel i (remove_at list i) r.1
      | some that ↦ sweep_loop body fuel (i + 1) (set list i that) r.1
    ]
  ]

  -- Each element once, in order: what the loop is meant to do.
  unfoldable pub sweep : (A → S → Result (Option A × S)) → List A → S → Result (List A × S)
  sweep body [] s = ok ([], s)
  sweep body (x ∷ xs) s = body x s >>= λ r. sweep body xs r.1 >>= λ t. ok (keep r.0 t.0, t.1)

  -- What the loop has behind it stays in front.
  abbrev behind : List A → Result (List A × S) → Result (List A × S)
  behind pre m = m >>= λ t. ok (pre ++ t.0, t.1)

  Result-cases :
      (m : Result (Option A × S))
      → ((e : _) × (m ≡ err e)) ⊎ ((o : Option A) × (s : S) × (m ≡ ok (o, s)))
  Result-cases (err e) = inl (e, refl)
  Result-cases (ok (o, s)) = inr (o, s, refl)

  behind-keep :
      (pre : List A) (y : A) (m : Result (List A × S))
      → behind (add pre y) m ≡ behind pre (m >>= λ t. ok (y ∷ t.0, t.1))
  behind-keep pre y (err e) = refl
  behind-keep pre y (ok (l, s)) = ap (λ t. ok (t, s)) (append_assoc pre (y ∷ []) l)

  behind-drop :
      (pre : List A) (m : Result (List A × S))
      → behind pre m ≡ behind pre (m >>= λ t. ok (t.0, t.1))
  behind-drop pre (err e) = refl
  behind-drop pre (ok (l, s)) = refl

  sweep_loop-middle :
      (body : A → S → Result (Option A × S)) (fuel : ℕ) (pre rest : List A) (s : S)
      → length rest < fuel
      → sweep_loop body fuel (length pre) (pre ++ rest) s ≡ behind pre (sweep body rest s)
  unfolding sweep_loop sweep
  sweep_loop-middle body zero pre rest s h = absurd (omega arith)
  sweep_loop-middle body (suc fuel) pre [] s h = rw (sweep_loop, get_elem?_end pre)
  sweep_loop-middle body (suc fuel) pre (x ∷ rest) s h =
      rw (sweep_loop, get_elem?_middle pre x rest)
        (elim (Result-cases (body x s)) [
          | inl (e, stop) ↦ rw stop
          | inr (none, s', run) ↦
              rw (run, remove_at_middle pre x rest)
                (sweep_loop-middle body fuel pre rest s' (omega arith)
                  ∙ behind-drop pre (sweep body rest s'))
          | inr (some y, s', run) ↦
              let next : length pre + 1 ≡ length (add pre y) = omega (arith, length-add pre y) in
              rw (run, set_middle pre x y rest, next)
                (sweep_loop-middle body fuel (add pre y) rest s' (omega arith)
                  ∙ behind-keep pre y (sweep body rest s'))
        ])

  -- With one round more than the list is long the loop ends, and has met each element once.
  pub sweep_loop-sweep :
      (body : A → S → Result (Option A × S)) (list : List A) (s : S)
      → sweep_loop body (suc (length list)) 0 list s ≡ sweep body list s
  sweep_loop-sweep body list s =
      sweep_loop-middle body (suc (length list)) [] list s (omega arith) ∙ whole (sweep body list s)
    where
      whole : (m : Result (List A × S)) → behind [] m ≡ m
      whole (err e) = refl
      whole (ok (l, t)) = refl
