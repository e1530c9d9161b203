-- ===== src/ArrayList/Trace.antt =====
-- src/base/list.c: a client that only calls it, and the sequence that such a client has in mind.
use mathlib.Core.Option
use tuxanci_ng.Prelude.{
  inl, inr, ℕ, ◌≡◌, refl, ap, List, [], ◌∷◌, Bool, Option, none, some, Result, ok, ◌>>=◌,
  if◌then◌else◌, leb, ltb, length, get_elem?, get_elem?-some, arith, Bool-cases, Option-cases,
}
use tuxanci_ng.Prelude.Int.{ℤ, pos}
use tuxanci_ng.Sequence.{add, insert_at, remove_at, index_of}
use tuxanci_ng.ArrayList.{
  ListT, list_new, list_add, list_ins, list_get, list_search, list_del, list_do_empty,
}
use tuxanci_ng.ArrayList.Refine.{
  Holds, list_new-Holds, list_add-Holds, list_ins-Holds, list_get-Holds, list_search-Holds,
  list_del-Holds, list_do_empty-Holds, found,
}

-- The calls that a client makes, with indices that are not negative.
pub data Call {ℓ} (B : Type ℓ) : Type ℓ where
  adds : B → Call B
  inserts : ℕ → B → Call B
  gets : ℕ → Call B
  searches : B → Call B
  deletes : ℕ → Call B
  empties : Call B

-- What a call returns.
pub data Reply {ℓ} (B : Type ℓ) : Type ℓ where
  nothing : Reply B
  item : B → Reply B
  index : ℤ → Reply B

map-eq-some {ℓ κ} :
    {A : Type ℓ} {B : Type κ} {f : A → B} {b : B} (o : Option A)
    → Option.map f o ≡ some b
    → (a : A) × (o ≡ some a) × (f a ≡ b)
map-eq-some none h = cc
map-eq-some (some a) h = (a, refl, ground arith)

module _ {ℓ} {B : Type ℓ} (null : B) (eqb : B → B → Bool) where
  unfoldable pub call : ListT B → Call B → Result (ListT B × Reply B)
  call p (adds b) = list_add null p b >>= λ q. ok (q, nothing)
  call p (inserts i b) = list_ins null p (pos i) b >>= λ q. ok (q, nothing)
  call p (gets i) = list_get null p (pos i) >>= λ b. ok (p, item b)
  call p (searches b) = list_search null eqb p b >>= λ i. ok (p, index i)
  call p (deletes i) = list_del null p (pos i) >>= λ q. ok (q, nothing)
  call p empties = ok (list_do_empty null p, nothing)

  -- The replies of a sequence of calls.
  unfoldable pub calls : ListT B → List (Call B) → Result (List (Reply B))
  calls p [] = ok []
  calls p (c ∷ cs) = call p c >>= λ (q, r). calls q cs >>= λ rs. ok (r ∷ rs)

  -- The same calls on a sequence; those out of range are no calls of a correct client.
  unfoldable pub seq_call : List B → Call B → Option (List B × Reply B)
  seq_call xs (adds b) = some (add xs b, nothing)
  seq_call xs (inserts i b) = if leb i (length xs) then some (insert_at xs i b, nothing) else none
  seq_call xs (gets i) = Option.map (λ b. (xs, item b)) (get_elem? xs i)
  seq_call xs (searches b) = some (xs, index (found null 0 (index_of eqb b xs)))
  seq_call xs (deletes i) = if ltb i (length xs) then some (remove_at xs i, nothing) else none
  seq_call xs empties = some ([], nothing)

  unfoldable pub seq_calls : List B → List (Call B) → Option (List (Reply B))
  seq_calls xs [] = some []
  seq_calls xs (c ∷ cs) =
      Option.bind (seq_call xs c) λ (ys, r). Option.map (λ rs. r ∷ rs) (seq_calls ys cs)

  call_refines :
      (p : ListT B) (xs ys : List B) (c : Call B) (r : Reply B)
      → Holds p xs
      → seq_call xs c ≡ some (ys, r)
      → (q : ListT B) × (call p c ≡ ok (q, r)) × Holds q ys
  unfolding call seq_call
  call_refines p xs ys (adds b) r h e =
      let (q, run, hq) = list_add-Holds null p xs b h in
      rw run (q, ground arith, ground (arith, hq))
  call_refines p xs ys (inserts i b) r h e = elim (Bool-cases (leb i (length xs))) [
    | inl inside ↦
        let (q, run, hq) = list_ins-Holds null p xs i b h (ground arith) in
        rw run (q, ground arith, ground (arith, hq))
    | inr outside ↦ absurd (ground arith)
  ]
  call_refines p xs ys (gets i) r h e = elim (Option-cases (get_elem? xs i)) [
    | inl missing ↦ absurd (ground arith)
    | inr (b, there) ↦
        rw (list_get-Holds null p xs i h (get_elem?-some xs i there), there)
          (p, ground arith, ground (arith, h))
  ]
  call_refines p xs ys (searches b) r h e =
      rw (list_search-Holds null eqb p xs b h) (p, ground arith, ground (arith, h))
  call_refines p xs ys (deletes i) r h e = elim (Bool-cases (ltb i (length xs))) [
    | inl inside ↦
        let (q, run, hq) = list_del-Holds null p xs i h (ground arith) in
        rw run (q, ground arith, ground (arith, hq))
    | inr outside ↦ absurd (ground arith)
  ]
  call_refines p xs ys empties r h e =
      (list_do_empty null p, ground arith, ground (arith, list_do_empty-Holds null p xs h))

  -- Where no call is out of range, list.c faults in none of them and gives the replies of the
  -- sequence.
  pub calls_refine :
      (cs : List (Call B)) (p : ListT B) (xs : List B) (rs : List (Reply B))
      → Holds p xs
      → seq_calls xs cs ≡ some rs
      → calls p cs ≡ ok rs
  unfolding calls seq_calls
  calls_refine [] p xs rs h e = ground arith
  calls_refine (c ∷ cs) p xs rs h e =
      let ((ys, r), one, more) = (Option.bind-eq-some_iff (seq_call xs c) _).0 e in
      let (rest, there, e') = map-eq-some (seq_calls ys cs) more in
      let (q, run, hq) = call_refines p xs ys c r h one in
      rw (run, calls_refine cs q ys rest hq there) (ap ok e')

  -- From a new list on.
  pub calls-new_refine :
      (cs : List (Call B)) (rs : List (Reply B))
      → seq_calls [] cs ≡ some rs
      → calls (list_new null) cs ≡ ok rs
  calls-new_refine cs rs e = calls_refine cs (list_new null) [] rs (list_new-Holds null) e
