-- ===== src/Shots/Index.antt =====
-- The index of a space while one object of it is moved or deleted.
use mathlib.Core.Option.{some_inj}
use tuxanci_ng.Prelude.{
  ℕ, ◌≡◌, refl, sym, ap, ap₂, ◌∙◌, subst, >>=-inv, ok_inj, ltb→lt, inl, inr, List, [], ◌∷◌, ◌++◌,
  true, false, none, some, ok, arith, Bool-cases,
}
use tuxanci_ng.Prelude.Int.{ℤ, ltb_ℤ, ◌<ℤ◌, ◌==ℤ◌, ==ℤ_iff}
use tuxanci_ng.Index.{IndexItem, index_del, index_add}
use tuxanci_ng.Index.Keys.{Above, IsSorted}
use tuxanci_ng.Index.Table.{lookup, insert, erase, lookup-Above, lookup-erase, erase-IsSorted}
use tuxanci_ng.Index.Laws.{index_add-fresh, index_del_lem}
use tuxanci_ng.Space.{
  Space, space_del, space_add, del_zones, get_segment, moved_zone, set_object, space_move_object,
}
use tuxanci_ng.Space.Invariant.{registered, IsConsistent, registered-lookup}
use tuxanci_ng.Space.Objects.{ObjectKind}

insert-Above : (e : IndexItem ℕ) (l : List (IndexItem ℕ)) → Above e.key l → insert e l ≡ e ∷ l
unfolding insert
insert-Above e [] a = refl
insert-Above e (x ∷ l) a = let less : ltb_ℤ e.key x.key ≡ true = ground arith in rw less

-- Putting back what was erased.
pub insert-erase :
    (k : ℤ) (o : ℕ) (l : List (IndexItem ℕ))
    → IsSorted l
    → lookup k l ≡ some o
    → insert (record { key = k; object = o }) (erase k l) ≡ l
unfolding insert erase lookup
insert-erase k o [] s h = cc
insert-erase k o (x ∷ l) s h = elim (Bool-cases (x.key ==ℤ k)) [
  | inl same ↦
      let key : x.key ≡ k = (==ℤ_iff x.key k).0 same in
      let held : x.object ≡ o = some_inj.0 (rw same at h) in
      rw same (
        ap₂ (λ (a : ℤ) (b : ℕ). insert (record { key = a; object = b }) l) (sym key) (sym held)
        ∙ insert-Above x l s.0)
  | inr other ↦
      let there : lookup k l ≡ some o = rw other at h in
      elim (Bool-cases (ltb_ℤ k x.key)) [
        | inl less ↦ cc (lookup-Above k x.key l s.0 (ltb→lt _ _ less))
        | inr more ↦ rw other (rw more (ap (λ t. x ∷ t) (insert-erase k o l s.1 there)))
      ]
]

Above-middle :
    (k : ℤ) (pre post : List (IndexItem ℕ)) (e : IndexItem ℕ)
    → Above k (pre ++ e ∷ post)
    → k <ℤ e.key
Above-middle k [] post e a = a.0
Above-middle k (x ∷ pre) post e a = Above-middle k pre post e a.1

-- Erasing the key of an entry takes out that entry.
pub erase-middle :
    (pre post : List (IndexItem ℕ)) (e : IndexItem ℕ)
    → IsSorted (pre ++ e ∷ post)
    → erase e.key (pre ++ e ∷ post) ≡ pre ++ post
unfolding erase
erase-middle [] post e s = let same : (e.key ==ℤ e.key) ≡ true = ground arith in rw same
erase-middle (x ∷ pre) post e s =
    let below : x.key <ℤ e.key = Above-middle x.key pre post e s.0 in
    let other : (x.key ==ℤ e.key) ≡ false = ground arith in
    rw other (ap (λ t. x ∷ t) (erase-middle pre post e s.1))

module _ {ℓ} {O : Type ℓ} (kind : ObjectKind O) where
  pub index-space_del :
      (heap : ℕ → O) (item : ℕ) (p q : Space)
      → IsSorted p.list_index
      → space_del kind heap item p ≡ ok q
      → q.list_index ≡ erase (kind.get_status (heap item)).id p.list_index
  unfolding space_del
  index-space_del heap item p q s run =
      let (zone, zones, rest) = >>=-inv (del_zones item _ p.zone) _ run in
      let (index, erased, done) = >>=-inv (index_del p.list_index _) _ rest in
      sym (ap (λ (r : Space). r.list_index) (ok_inj done))
      ∙ ok_inj (sym erased ∙ index_del_lem p.list_index (kind.get_status (heap item)).id s)

  pub index-space_add :
      (heap : ℕ → O) (item : ℕ) (p q : Space)
      → IsSorted p.list_index
      → lookup (kind.get_status (heap item)).id p.list_index ≡ none
      → space_add kind heap item p ≡ ok q
      → q.list_index
        ≡ insert (record { key = (kind.get_status (heap item)).id; object = item }) p.list_index
  unfolding space_add
  index-space_add heap item p q s free run =
      let (index, added, done) = >>=-inv (index_add p.list_index _ item) _ run in
      sym (ap (λ (r : Space). r.list_index) (ok_inj done))
      ∙ ok_inj
          (sym added ∙ index_add-fresh p.list_index (kind.get_status (heap item)).id item s free)

lookup-erase_self : (k : ℤ) (l : List (IndexItem ℕ)) → IsSorted l → lookup k (erase k l) ≡ none
lookup-erase_self k l s =
    let self : (k ==ℤ k) ≡ true = ground arith in lookup-erase k k l s ∙ (rw self refl)

module _ {ℓ} {O : Type ℓ} (kind : ObjectKind O) where
  -- Where space_move_object returns, it has set the place of its object alone.
  pub heap-space_move_object :
      (heap heap' : ℕ → O) (p q : Space) (item : ℕ) (x y : ℤ)
      → space_move_object kind heap item x y p ≡ ok (heap', q)
      → heap'
        ≡ set_object kind heap item x y
            (kind.get_status (heap item)).w
            (kind.get_status (heap item)).h
  unfolding space_move_object
  heap-space_move_object heap heap' p q item x y run =
      let s = kind.get_status (heap item) in
      let heap'' = set_object kind heap item x y s.w s.h in
      elim (Bool-cases
        (moved_zone (get_segment p.grid s.x s.y s.w s.h) (get_segment p.grid x y s.w s.h))) [
          | inl moves ↦
              let (q1, del, rest) = >>=-inv (space_del kind heap item p) _ (rw moves at run) in
              let (q2, add, done) = >>=-inv (space_add kind heap'' item q1) _ rest in
              sym (ap (λ (r : (ℕ → O) × Space). r.0) (ok_inj done))
          | inr stays ↦ sym (ap (λ (r : (ℕ → O) × Space). r.0) (ok_inj (rw stays at run)))
        ]

  -- space_move_object leaves the index as it is, also where it deletes the object and adds it again.
  pub index-space_move_object :
      (heap heap' : ℕ → O) (p q : Space) (item : ℕ) (x y : ℤ)
      → IsConsistent kind heap p
      → registered kind heap p item ≡ true
      → space_move_object kind heap item x y p ≡ ok (heap', q)
      → (kind.get_status (heap' item)).id ≡ (kind.get_status (heap item)).id
      → q.list_index ≡ p.list_index
  unfolding space_move_object
  index-space_move_object heap heap' p q item x y c there run same_id =
      let s = kind.get_status (heap item) in
      let heap'' = set_object kind heap item x y s.w s.h in
      let same_heap = heap-space_move_object heap heap' p q item x y run in
      let id' : (kind.get_status (heap'' item)).id ≡ s.id =
        ap (λ (h : ℕ → O). (kind.get_status (h item)).id) (sym same_heap) ∙ same_id in
      elim (Bool-cases
        (moved_zone (get_segment p.grid s.x s.y s.w s.h) (get_segment p.grid x y s.w s.h))) [
          | inl moves ↦
              let (q1, del, rest) = >>=-inv (space_del kind heap item p) _ (rw moves at run) in
              let (q2, add, done) = >>=-inv (space_add kind heap'' item q1) _ rest in
              let erased = index-space_del kind heap item p q1 c.sorted del in
              let free : lookup (kind.get_status (heap'' item)).id q1.list_index ≡ none =
                ap₂ lookup id' erased ∙ lookup-erase_self s.id p.list_index c.sorted in
              let sorted : IsSorted q1.list_index =
                subst IsSorted (sym erased) (erase-IsSorted s.id p.list_index c.sorted) in
              let added = index-space_add kind heap'' item q1 q2 sorted free add in
              sym (ap (λ (r : (ℕ → O) × Space). r.1.list_index) (ok_inj done))
              ∙ added
              ∙ ap₂
                  (λ (k : ℤ) (l : List (IndexItem ℕ)). insert (record { key = k; object = item }) l)
                  id' erased
              ∙ insert-erase s.id item p.list_index c.sorted
                  (registered-lookup kind heap p item there)
          | inr stays ↦
              sym (ap (λ (r : (ℕ → O) × Space). r.1.list_index) (ok_inj (rw stays at run)))
        ]
