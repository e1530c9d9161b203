-- ===== src/CheckFront/Laws.antt =====
-- src/base/checkFront.c: the waiting messages and the counts of their ids, in check_front_event and
-- check_front_msg_add.
use tuxanci_ng.Prelude.{
  ℕ, suc, ◌+◌, ◌-◌, ◌%◌, ◌^◌, ◌≤◌, ◌<◌, ◌≡◌, refl, sym, ap, subst, ◌∙◌, ◌⊎◌, inl, inr, List, [],
  ◌∷◌, Bool, true, false, ◌&&◌, none, some, Result, ok, ◌>>=◌, arith, if◌then◌else◌, ltb,
  Bool-cases,
}
use mathlib.Core.Option.{some_inj}
use tuxanci_ng.Prelude.Int.{pos_part, pos_pred, pos_succ, ℤ, pos, ◌+ℤ◌, ◌-ℤ◌, leb_ℤ, ◌==ℤ◌, ==ℤ_iff}
use tuxanci_ng.Sequence.{add}
use tuxanci_ng.Sweep.{keep, sweep, sweep_loop-sweep}
use tuxanci_ng.IdManager.{IdManager, id_del}
use tuxanci_ng.IdManager.Counts.{count_of, IsDistinct}
use tuxanci_ng.IdManager.Laws.{id_inc-Gives, id_del-Gives}
use tuxanci_ng.CheckFront.{
  type_simple, type_check, max_count_send, Check, Front, new_check, check_front_msg_add, is_time,
  send_again, event_body, check_front_event,
}

-- The table counts at least `f k` for each id `k`, and no id is twice in it.
pub record Backs (m : IdManager) (f : ℤ → ℕ) : Type 0 where
  pub distinct : IsDistinct m.list_id
  pub backed : (k : ℤ) → 0 < f k → (c : ℕ) × (count_of k m.list_id ≡ some (pos c)) × (f k ≤ c)

Backs-mono : (m : IdManager) (f g : ℤ → ℕ) → ((k : ℤ) → g k ≤ f k) → Backs m f → Backs m g
Backs-mono m f g h b = record {
  distinct = b.distinct;
  backed = λ k positive.
      let (c, counted, enough) = b.backed k (omega (arith, h k)) in
      (c, counted, omega (arith, h k));
}

keeps :
    (a b c : Bool) (m n : ℕ)
    → b ≡ true
    → c ≡ a
    → m + (if b && c then suc n else n) ≤ (if a then suc m else m) + n
keeps a b c m n hb hc = rw (hb, hc) (ground arith)

taken :
    (c : ℕ)
    → 2 ≤ c
    → (if leb_ℤ (pos c -ℤ pos 1) (pos 0) then none else some (pos c -ℤ pos 1)) ≡ some (pos (c - 1))
taken c h = rw (pos_pred c (omega arith)) (ground arith)

Backs-count :
    (m : IdManager) (f : ℤ → ℕ) (k : ℤ) (c : ℕ)
    → Backs m f
    → count_of k m.list_id ≡ some (pos c)
    → f k ≤ c
Backs-count m f k c b counted = elim (Bool-cases (ltb 0 (f k))) [
  | inr none_held ↦ ground arith
  | inl held_once ↦
      let (c', counted', enough) = b.backed k (ground arith) in
      let same : c' ≡ c = ap pos_part (some_inj.0 (sym counted' ∙ counted)) in omega arith
]

-- Giving back one count of an id.
id_del-Backs :
    (m : IdManager) (id : ℤ) (f : ℤ → ℕ)
    → Backs m (λ k. if id ==ℤ k then suc (f k) else f k)
    → (m' : IdManager) × (id_del id m ≡ ok m') × Backs m' f
id_del-Backs m id f b =
    let self : (id ==ℤ id) ≡ true = (==ℤ_iff id id).1 refl in
    let (c, counted, enough) = b.backed id (rw self (omega arith)) in
    let shape : (if id ==ℤ id then suc (f id) else f id) ≡ suc (f id) = rw self in
    let enough' : suc (f id) ≤ c = subst (λ t. t ≤ c) shape enough in
    let g = id_del-Gives m id (pos c) b.distinct counted in
    (
      g.after,
      g.runs,
      record {
        distinct = g.distinct;
        backed = λ k positive. elim (Bool-cases (id ==ℤ k)) [
          | inr other ↦
              let shape : (if id ==ℤ k then suc (f k) else f k) ≡ f k = rw other in
              let (c', counted', enough'') = b.backed k (subst (λ t. 0 < t) (sym shape) positive) in
              (c', g.counts k ∙ rw other counted', subst (λ t. t ≤ c') shape enough'')
          | inl same ↦
              let e : id ≡ k = (==ℤ_iff id k).0 same in
              let more : suc (f k) ≤ c = subst (λ t. suc (f t) ≤ c) e enough' in
              (c - 1, g.counts k ∙ rw same (taken c (omega arith)), omega arith)
        ];
      },
    )

module _ {ℓ} {M : Type ℓ} where
  -- How many checked messages with the id `k` wait.
  unfoldable pub held : ℤ → List (Check M) → ℕ
  held k [] = 0
  held k (x ∷ list) =
      if (x.type_of ==ℤ type_check) && (x.id ==ℤ k) then suc (held k list) else held k list

  -- Every message is simple, or checked and sent at most 30 times.
  unfoldable pub AreSound : List (Check M) → Type 0
  AreSound [] = Unit
  AreSound (x ∷ list) =
      ((x.type_of ≡ type_simple) ⊎ ((x.type_of ≡ type_check) × (x.count ≤ max_count_send)))
      × AreSound list

  -- Every message is checked, and was sent between 1 and 30 times.
  unfoldable pub AreWaiting : List (Check M) → Type 0
  AreWaiting [] = Unit
  AreWaiting (x ∷ list) =
      ((x.type_of ≡ type_check) × (0 < x.count) × (x.count ≤ max_count_send)) × AreWaiting list

  -- What the loop of check_front_event leaves, where `extra` counts are held by others.
  record Leaves (extra : ℤ → ℕ) (m : Result (List (Check M) × Front M)) : Type ℓ where
    left : List (Check M)
    front : Front M
    runs : m ≡ ok (left, front)
    waiting : AreWaiting left
    backs : Backs front.manager (λ k. extra k + held k left)

  -- A checked message after send_again: the counters that matter, and the table as before.
  send_again-Check :
      (current : ℕ) (x : Check M) (s : Front M)
      → x.count ≤ max_count_send
      → (let r = send_again current x s in
          (r.0.type_of ≡ x.type_of)
          × (r.0.id ≡ x.id)
          × (0 < r.0.count)
          × (r.0.count ≤ max_count_send + 1)
          × (r.1.manager ≡ s.manager))
  unfolding send_again is_time
  send_again-Check current x s h = elim (Bool-cases (is_time current x)) [
    | inl ready ↦ rw (send_again, ready) (refl, refl, omega arith, omega arith, refl)
    | inr not_yet ↦
        let sent_once : 0 < x.count = ground arith in
        rw (send_again, not_yet) (refl, refl, sent_once, omega arith, refl)
  ]

  event_body-again :
      (current : ℕ) (x : Check M) (s : Front M)
      → x.type_of ≡ type_check
      → (let r = send_again current x s in
          ltb max_count_send r.0.count ≡ false → event_body current x s ≡ ok (some r.0, r.1))
  unfolding event_body
  event_body-again current x s check again =
      let not_simple : (x.type_of ==ℤ type_simple) ≡ false = ap (λ t. t ==ℤ type_simple) check in
      let is_check : (x.type_of ==ℤ type_check) ≡ true = ap (λ t. t ==ℤ type_check) check in
      rw (not_simple, is_check) (rw again)

  sweep-event_body :
      (current : ℕ) (list : List (Check M)) (s : Front M) (extra : ℤ → ℕ)
      → AreSound list
      → Backs s.manager (λ k. extra k + held k list)
      → Leaves extra (sweep (event_body current) list s)
  unfolding sweep event_body AreSound AreWaiting held
  sweep-event_body current [] s extra sound b = record {
    left = [];
    front = s;
    runs = refl;
    waiting = tt;
    backs = b;
  }
  sweep-event_body current (x ∷ list) s extra (inl simple, sound) b =
      let is_simple : (x.type_of ==ℤ type_simple) ≡ true = ap (λ t. t ==ℤ type_simple) simple in
      let not_check : (x.type_of ==ℤ type_check) ≡ false = ap (λ t. t ==ℤ type_check) simple in
      let ih =
        sweep-event_body current list (record s { sent = add s.sent x.msg }) extra sound
          (Backs-mono s.manager (λ k. extra k + held k (x ∷ list)) (λ k. extra k + held k list)
            (λ k. rw not_check (omega arith)) b) in
      record {
        left = ih.left;
        front = ih.front;
        runs = rw (is_simple) (rw ih.runs);
        waiting = ih.waiting;
        backs = ih.backs;
      }
  sweep-event_body current (x ∷ list) s extra (inr (check, few), sound) b =
      let not_simple : (x.type_of ==ℤ type_simple) ≡ false = ap (λ t. t ==ℤ type_simple) check in
      let is_check : (x.type_of ==ℤ type_check) ≡ true = ap (λ t. t ==ℤ type_check) check in
      let r = send_again current x s in
      let (same_type, same_id, sent, few', same_manager) = send_again-Check current x s few in
      let mine : (k : ℤ)
          → held k (x ∷ list) ≡ (if x.id ==ℤ k then suc (held k list) else held k list) =
        λ k. rw is_check in
      elim (Bool-cases (ltb max_count_send r.0.count)) [
        | inl over ↦
            let (m', ran, b') =
              id_del-Backs s.manager x.id (λ k. extra k + held k list)
                (Backs-mono s.manager (λ k. extra k + held k (x ∷ list))
                  (λ k. if x.id ==ℤ k then suc (extra k + held k list) else extra k + held k list)
                  (λ k. rw (mine k) (ground arith)) b) in
            let ran' : id_del r.0.id r.1.manager ≡ ok m' =
              ap (λ t. id_del t r.1.manager) same_id ∙ ap (id_del x.id) same_manager ∙ ran in
            let ih = sweep-event_body current list (record r.1 { manager = m' }) extra sound b' in
            record {
              left = ih.left;
              front = ih.front;
              runs = rw (not_simple, is_check) (rw (over, ran') (rw ih.runs));
              waiting = ih.waiting;
              backs = ih.backs;
            }
        | inr again ↦
            let extra' = λ (k : ℤ). if x.id ==ℤ k then suc (extra k) else extra k in
            let ih = sweep-event_body current list r.1 extra' sound (
              subst (λ m. Backs m (λ k. extra' k + held k list)) (sym same_manager)
                (Backs-mono s.manager (λ k. extra k + held k (x ∷ list))
                  (λ k. extra' k + held k list) (λ k. rw (mine k) (ground arith)) b)) in
            let is_check' : (r.0.type_of ==ℤ type_check) ≡ true =
              ap (λ t. t ==ℤ type_check) same_type ∙ is_check in
            record {
              left = r.0 ∷ ih.left;
              front = ih.front;
              runs =
                  ap
                    (λ m. m >>= λ t.
                      sweep (event_body current) list t.1 >>= λ u. ok (keep t.0 u.0, u.1))
                    (event_body-again current x s check again)
                  ∙ ap (λ m. m >>= λ u. ok (keep (some r.0) u.0, u.1)) ih.runs;
              waiting = ((same_type ∙ check, sent, ground arith), ih.waiting);
              backs =
                  Backs-mono ih.front.manager (λ k. extra' k + held k ih.left)
                    (λ k. extra k + held k (r.0 ∷ ih.left))
                    (λ k.
                      keeps (x.id ==ℤ k) (r.0.type_of ==ℤ type_check) (r.0.id ==ℤ k) (extra k)
                        (held k ih.left) is_check' (ap (λ t. t ==ℤ k) same_id))
                    ih.backs;
            }
      ]

  -- check_front_event on messages that are simple, or checked and sent at most 30 times, where the
  -- table counts each waiting checked message: it ends without a failed assertion; the messages left
  -- are checked ones, sent between 1 and 30 times; and the table still counts each of them.
  pub check_front_event-Backs :
      (list : List (Check M)) (now : ℕ) (s : Front M)
      → AreSound list
      → Backs s.manager (λ k. held k list)
      → (list' : List (Check M)) × (s' : Front M) × (check_front_event list now s ≡ ok (list', s'))
        × AreWaiting list'
        × Backs s'.manager (λ k. held k list')
  unfolding check_front_event
  check_front_event-Backs list now s sound b =
      let r =
        sweep-event_body (now % 2 ^ 32) list s (λ k. 0) sound
          (Backs-mono s.manager (λ k. held k list) (λ k. 0 + held k list) (λ k. omega arith) b) in
      (
        r.left,
        r.front,
        sweep_loop-sweep (event_body (now % 2 ^ 32)) list s ∙ r.runs,
        r.waiting,
        Backs-mono r.front.manager (λ k. 0 + held k r.left) (λ k. held k r.left) (λ k. omega arith)
            r.backs,
      )

  held-add :
      (k : ℤ) (list : List (Check M)) (x : Check M)
      → held k (add list x) ≡ held k list + held k (x ∷ [])
  unfolding held
  held-add k [] x = omega arith
  held-add k (y ∷ list) x = ground (arith, held-add k list x)

  -- check_front_msg_add of a checked message whose id is registered succeeds and takes one count of
  -- the id, so that the table counts every waiting message again.
  pub check_front_msg_add-Backs :
      (list : List (Check M)) (msg : M) (id : ℤ) (now c : ℕ) (m : IdManager)
      → Backs m (λ k. held k list)
      → count_of id m.list_id ≡ some (pos c)
      → (list' : List (Check M)) × (m' : IdManager) × (check_front_msg_add list msg type_check id
            now m
          ≡ ok (list', m'))
        × (count_of id m'.list_id ≡ some (pos (c + 1)))
        × Backs m' (λ k. held k list')
  unfolding check_front_msg_add held
  check_front_msg_add-Backs list msg id now c m b counted =
      let g = id_inc-Gives m id (pos c) b.distinct counted in
      let x : Check M = new_check msg type_check id now in
      let self : (id ==ℤ id) ≡ true = (==ℤ_iff id id).1 refl in
      let more : pos c +ℤ pos 1 ≡ pos (c + 1) = pos_succ c in
      (
        add list x,
        g.after,
        rw g.runs,
        g.counts id ∙ rw (self, more),
        record {
          distinct = g.distinct;
          backed = λ k positive. elim (Bool-cases (id ==ℤ k)) [
            | inl same ↦
                let e : id ≡ k = (==ℤ_iff id k).0 same in
                let enough : held k list ≤ c =
                  Backs-count m (λ t. held t list) k c b
                    (ap (λ t. count_of t m.list_id) (sym e) ∙ counted) in
                let one : held k (add list x) ≡ held k list + 1 = held-add k list x ∙ rw same in
                (c + 1, g.counts k ∙ rw (same, more), omega arith)
            | inr other ↦
                let same_held : held k (add list x) ≡ held k list =
                  held-add k list x ∙ rw other (omega arith) in
                let (c', counted', enough) = b.backed k (subst (λ t. 0 < t) same_held positive) in
                (c', g.counts k ∙ rw other counted', subst (λ t. t ≤ c') (sym same_held) enough)
          ];
        },
      )
