-- ===== src/KeyboardBuffer/Refine.antt =====
-- The ring buffer of keys is a bounded queue: any sequence of calls is answered as by a list of keys.
use tuxanci_ng.Prelude.{
  ℕ, suc, ◌+◌, ◌-◌, ◌≤◌, ◌<◌, ◌≡◌, ◌≢◌, refl, ap, ◌∙◌, inl, inr, List, [], ◌∷◌, ◌++◌, Bool, true,
  false, none, some, Result, ok, ◌>>=◌, arith, if◌then◌else◌, ltb, leb, Bool-cases, length,
  get_elem?, set, length-append, length-set, length-replicate, get_elem?-set_self, get_elem?-set_ne,
  replicate, get_elem?-append_le, get_elem?-append_end, ap₂, subst, ltb→lt, sym,
}
use tuxanci_ng.Prelude.Int.{pos, ltb_ℤ}
use tuxanci_ng.Memory.{load, store}
use tuxanci_ng.KeyboardBuffer.{
  KeyboardBuffer, keyboard_buffer_init, keyboard_buffer_clear, keyboard_buffer_push,
  keyboard_buffer_pop, keyboard_buffer_get_count, keyboard_buffer_is_any_key, step,
}

-- The calls that the client makes, and what they return.
pub data Call {ℓ} (K : Type ℓ) : Type ℓ where
  push : K → Call K
  pop : Call K
  clear : Call K
  is_any : Call K

pub data Reply {ℓ} (K : Type ℓ) : Type ℓ where
  key : K → Reply K
  truth : Bool → Reply K
  done : Reply K

-- The place behind `begin` by `i`, in a ring of `size`.
place : ℕ → ℕ → ℕ → ℕ
place size begin i = if ltb (begin + i) size then begin + i else begin + i - size

place-suc : (n b i : ℕ) → b < n → i < n → place n (step n b) i ≡ place n b (suc i)
unfolding place step
place-suc n b i hb hi = ground arith

place_lt : (n b i : ℕ) → b < n → i ≤ n → place n b i < n
unfolding place
place_lt n b i hb hi = ground arith

step_lt : (n b : ℕ) → b < n → step n b < n
unfolding step
step_lt n b h = ground arith

place_ne : (n b i j : ℕ) → b < n → i < j → j < n → place n b j ≢ place n b i
unfolding place
place_ne n b i j hb hi hj e = ground arith

place_zero : (n b : ℕ) → b < n → place n b 0 ≡ b
unfolding place
place_zero n b h = ground arith

step-place : (n b i : ℕ) → b < n → i < n → step n (place n b i) ≡ place n b (suc i)
unfolding place step
step-place n b i hb hi = ground arith

place-suc-ne : (n b i : ℕ) → b < n → suc i < n → place n b (suc i) ≢ b
unfolding place
place-suc-ne n b i hb hi e = ground arith

positive : (n : ℕ) → ltb 0 (suc n) ≡ true
positive n = ground arith

module _ {ℓ} {K : Type ℓ} where
  -- What a sequence of calls returns, from a buffer.
  unfoldable pub call : K → K → KeyboardBuffer K → Call K → Result (Reply K × KeyboardBuffer K)
  call zero_key empty_key b (push k) = do r ← keyboard_buffer_push b k; ok (truth r.0, r.1)
  call zero_key empty_key b pop = do r ← keyboard_buffer_pop empty_key b; ok (key r.0, r.1)
  call zero_key empty_key b clear = ok (done, keyboard_buffer_clear zero_key b)
  call zero_key empty_key b is_any = ok (truth (keyboard_buffer_is_any_key b), b)

  unfoldable pub calls : K → K → KeyboardBuffer K → List (Call K) → Result (List (Reply K))
  unfolding call
  calls zero_key empty_key b [] = ok []
  calls zero_key empty_key b (c ∷ cs) = do
    r ← call zero_key empty_key b c
    rest ← calls zero_key empty_key r.1 cs
    ok (r.0 ∷ rest)

  -- The same of a queue of at most `n` keys.
  unfoldable pub queue_call : K → ℕ → List K → Call K → Reply K × List K
  queue_call empty_key n xs (push k) =
      if ltb (length xs) n then (truth true, xs ++ k ∷ []) else (truth false, xs)
  queue_call empty_key n [] pop = (key empty_key, [])
  queue_call empty_key n (x ∷ xs) pop = (key x, xs)
  queue_call empty_key n xs clear = (done, [])
  queue_call empty_key n [] is_any = (truth false, [])
  queue_call empty_key n (x ∷ xs) is_any = (truth true, x ∷ xs)

  unfoldable pub queue_calls : K → ℕ → List K → List (Call K) → List (Reply K)
  unfolding queue_call
  queue_calls empty_key n xs [] = []
  queue_calls empty_key n xs (c ∷ cs) =
      let r = queue_call empty_key n xs c in r.0 ∷ queue_calls empty_key n r.1 cs

  -- The keys `xs` stand one behind the other in the ring, from the cell `begin` on.
  Stand : ℕ → List K → ℕ → List K → Type ℓ
  Stand n cells begin xs =
      (i : ℕ) → i < length xs → get_elem? cells (place n begin i) ≡ get_elem? xs i

  record Queues (n : ℕ) (b : KeyboardBuffer K) (xs : List K) : Type ℓ where
    sized : b.size ≡ n
    cells : length b.buff ≡ n
    counted : b.count ≡ length xs
    fits : length xs ≤ n
    first : b.begin < n
    last : b.end ≡ place n b.begin (length xs)
    keys : Stand n b.buff b.begin xs

  Stand-push :
      (n b : ℕ) (buff xs : List K) (k : K)
      → length buff ≡ n
      → b < n
      → length xs < n
      → Stand n buff b xs
      → Stand n (set buff (place n b (length xs)) k) b (xs ++ k ∷ [])
  unfolding Stand
  Stand-push n b buff xs k sized hb room h i below = elim (Bool-cases (ltb i (length xs))) [
    | inl old ↦
        get_elem?-set_ne buff k (place_ne n b i (length xs) hb (ltb→lt i (length xs) old) room)
        ∙ h i (ltb→lt i (length xs) old)
        ∙ sym (get_elem?-append_le xs (k ∷ []) i (ltb→lt i (length xs) old))
    | inr new ↦
        let e : i ≡ length xs = ground (arith, length-append xs (k ∷ [])) in
        rw e (
          get_elem?-set_self buff (place n b (length xs)) k
            (omega (arith, place_lt n b (length xs) hb (omega arith)))
          ∙ sym (get_elem?-append_end xs k))
  ]

  Stand-pop :
      (n b : ℕ) (buff xs : List K) (x k : K)
      → b < n
      → suc (length xs) ≤ n
      → Stand n buff b (x ∷ xs)
      → Stand n (set buff b k) (step n b) xs
  unfolding Stand
  Stand-pop n b buff xs x k hb room h i below =
      ap (get_elem? (set buff b k)) (place-suc n b i hb (omega arith))
      ∙ get_elem?-set_ne buff k (λ e. place-suc-ne n b i hb (omega arith) (sym e))
      ∙ h (suc i) (omega arith)

  push-Queues :
      (n : ℕ) (b : KeyboardBuffer K) (xs : List K) (k : K)
      → Queues n b xs
      → length xs < n
      → (c : KeyboardBuffer K) × (keyboard_buffer_push b k ≡ ok (true, c))
        × Queues n c (xs ++ k ∷ [])
  unfolding keyboard_buffer_push store
  push-Queues n b xs k h room =
      let free : leb b.size b.count ≡ false = ground (arith, h.sized, h.counted) in
      let there : ltb b.end (length b.buff) ≡ true =
        ground (arith, h.cells, h.last, place_lt n b.begin (length xs) h.first (omega arith)) in
      rw free (
        rw there (
          record b { buff = set b.buff b.end k; end = step b.size b.end; count = b.count + 1 },
          refl,
          record {
            sized = h.sized;
            cells = length-set b.buff b.end k ∙ h.cells;
            counted = omega (arith, h.counted, length-append xs (k ∷ []));
            fits = omega (arith, length-append xs (k ∷ []));
            first = h.first;
            last =
                ap₂ step h.sized h.last
                ∙ step-place n b.begin (length xs) h.first room
                ∙ ap (place n b.begin) (omega (arith, length-append xs (k ∷ [])));
            keys =
                subst (λ (e : ℕ). Stand n (set b.buff e k) b.begin (xs ++ k ∷ [])) (sym h.last)
                  (Stand-push n b.begin b.buff xs k h.cells h.first room h.keys);
          },
        ))

  push-full :
      (n : ℕ) (b : KeyboardBuffer K) (xs : List K) (k : K)
      → Queues n b xs
      → ltb (length xs) n ≡ false
      → keyboard_buffer_push b k ≡ ok (false, b)
  unfolding keyboard_buffer_push
  push-full n b xs k h full =
      let none_free : leb b.size b.count ≡ true = ground (arith, h.sized, h.counted) in rw none_free

  pop-Queues :
      (n : ℕ) (b : KeyboardBuffer K) (x : K) (xs : List K) (empty_key : K)
      → Queues n b (x ∷ xs)
      → (c : KeyboardBuffer K) × (keyboard_buffer_pop empty_key b ≡ ok (x, c)) × Queues n c xs
  unfolding keyboard_buffer_pop store load Stand
  pop-Queues n b x xs empty_key h =
      let any : leb b.count 0 ≡ false = ground (arith, h.counted) in
      let there : ltb b.begin (length b.buff) ≡ true = ground (arith, h.cells, h.first) in
      let front : get_elem? b.buff b.begin ≡ some x =
        ap (get_elem? b.buff) (sym (place_zero n b.begin h.first)) ∙ h.keys 0 (omega arith) in
      rw any (
        rw (front, there)
          (
            record b {
              buff = set b.buff b.begin empty_key;
              begin = step b.size b.begin;
              count = b.count - 1;
            },
            refl,
            record {
              sized = h.sized;
              cells = length-set b.buff b.begin empty_key ∙ h.cells;
              counted = omega (arith, h.counted);
              fits = omega (arith, h.fits);
              first =
                  omega (arith, step_lt n b.begin h.first, ap (λ (m : ℕ). step m b.begin) h.sized);
              last =
                  h.last
                  ∙ sym (place-suc n b.begin (length xs) h.first (omega (arith, h.fits)))
                  ∙ ap (λ (m : ℕ). place n (step m b.begin) (length xs)) (sym h.sized);
              keys =
                  subst (λ (m : ℕ). Stand n (set b.buff b.begin empty_key) (step m b.begin) xs)
                    (sym h.sized) (Stand-pop n b.begin b.buff xs x empty_key h.first h.fits h.keys);
            },
          ))

  pop-empty :
      (n : ℕ) (b : KeyboardBuffer K) (empty_key : K)
      → Queues n b []
      → keyboard_buffer_pop empty_key b ≡ ok (empty_key, b)
  unfolding keyboard_buffer_pop
  pop-empty n b empty_key h =
      let none_left : leb b.count 0 ≡ true = ground (arith, h.counted) in rw none_left

  any-Queues :
      (n : ℕ) (b : KeyboardBuffer K) (xs : List K)
      → Queues n b xs
      → keyboard_buffer_is_any_key b ≡ ltb 0 (length xs)
  unfolding keyboard_buffer_is_any_key keyboard_buffer_get_count
  any-Queues n b xs h = ap (ltb 0) h.counted

  clear-Queues :
      (n : ℕ) (b : KeyboardBuffer K) (xs : List K) (zero_key : K)
      → Queues n b xs
      → Queues n (keyboard_buffer_clear zero_key b) []
  unfolding keyboard_buffer_clear Stand
  clear-Queues n b xs zero_key h = record {
    sized = h.sized;
    cells = length-replicate b.size zero_key ∙ h.sized;
    counted = refl;
    fits = omega arith;
    first = omega (arith, h.first);
    last = sym (place_zero n 0 (omega (arith, h.first)));
    keys = λ i below. elim below [ ];
  }

  -- What one call returns, and the queue that it leaves.
  Replies : K → K → ℕ → KeyboardBuffer K → List K → Call K → Type ℓ
  Replies zero_key empty_key n b xs c =
      (b' : KeyboardBuffer K) × (call zero_key empty_key b c
        ≡ ok ((queue_call empty_key n xs c).0, b'))
      × Queues n b' (queue_call empty_key n xs c).1

  call-Replies :
      (zero_key empty_key : K) (n : ℕ) (b : KeyboardBuffer K) (xs : List K) (c : Call K)
      → Queues n b xs
      → Replies zero_key empty_key n b xs c
  unfolding Replies call queue_call
  call-Replies zero_key empty_key n b xs (push k) h = elim (Bool-cases (ltb (length xs) n)) [
    | inl room ↦
        let (b', run, q) = push-Queues n b xs k h (ltb→lt (length xs) n room) in
        rw (room, run) (b', refl, q)
    | inr full ↦ rw (full, push-full n b xs k h full) (b, refl, h)
  ]
  call-Replies zero_key empty_key n b [] pop h = (b, rw (pop-empty n b empty_key h), h)
  call-Replies zero_key empty_key n b (x ∷ xs) pop h =
      let (b', run, q) = pop-Queues n b x xs empty_key h in rw run (b', refl, q)
  call-Replies zero_key empty_key n b xs clear h =
      (keyboard_buffer_clear zero_key b, refl, clear-Queues n b xs zero_key h)
  call-Replies zero_key empty_key n b [] is_any h = (b, rw (any-Queues n b [] h), h)
  call-Replies zero_key empty_key n b (x ∷ xs) is_any h =
      (b, ap (λ (t : Bool). ok (truth t, b)) (any-Queues n b (x ∷ xs) h ∙ positive (length xs)), h)

  calls-Queues :
      (zero_key empty_key : K) (n : ℕ) (b : KeyboardBuffer K) (xs : List K) (cs : List (Call K))
      → Queues n b xs
      → calls zero_key empty_key b cs ≡ ok (queue_calls empty_key n xs cs)
  unfolding calls queue_calls Replies
  calls-Queues zero_key empty_key n b xs [] h = refl
  calls-Queues zero_key empty_key n b xs (c ∷ cs) h =
      let (b', run, q) = call-Replies zero_key empty_key n b xs c h in
      rw (run, calls-Queues zero_key empty_key n b' (queue_call empty_key n xs c).1 cs q)

  -- From keyboard_buffer_init of a positive size on, any sequence of keyboard_buffer_push,
  -- keyboard_buffer_pop, keyboard_buffer_clear and keyboard_buffer_is_any_key stays within the array
  -- and is answered as by a queue of at most that many keys: a key too many is dropped, and an empty
  -- queue gives emptyKey.
  pub keyboard_calls_refine :
      (zero_key empty_key : K) (n : ℕ) (cs : List (Call K))
      → 0 < n
      → (do b ← keyboard_buffer_init zero_key none (pos n); calls zero_key empty_key b cs)
        ≡ ok (queue_calls empty_key n [] cs)
  unfolding keyboard_buffer_init Stand
  keyboard_calls_refine zero_key empty_key n cs h =
      let b : KeyboardBuffer K = record {
        buff = replicate n zero_key;
        begin = 0;
        end = 0;
        count = 0;
        size = n;
      } in
      let q : Queues n b [] = record {
        sized = refl;
        cells = length-replicate n zero_key;
        counted = refl;
        fits = omega arith;
        first = h;
        last = sym (place_zero n 0 h);
        keys = λ i below. elim below [ ];
      } in
      let test : ltb_ℤ (pos 0) (pos n) ≡ true = ground arith in
      rw (test, calls-Queues zero_key empty_key n b [] cs q)
