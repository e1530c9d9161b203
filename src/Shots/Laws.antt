-- ===== src/Shots/Laws.antt =====
-- src/base/shot.c: shot_event_move_list over all the shots of an arena.
use tuxanci_ng.Prelude.{
  ℕ, ◌≡◌, refl, sym, ap, ap₂, subst, ◌∙◌, ◌⊎◌, inl, inr, List, [], ◌∷◌, ◌++◌, Bool, true, false,
  not, ◌&&◌, Option, none, some, ok, if◌then◌else◌, ◌==◌, ==_iff, Bool-cases, Option-cases, length,
  get_elem?, get_elem?_middle,
}
use tuxanci_ng.Prelude.Int.{ℤ, ◌==ℤ◌, ==ℤ_iff}
use tuxanci_ng.IdManager.Counts.{count_of}
use tuxanci_ng.Index.{IndexItem}
use tuxanci_ng.Index.Keys.{IsSorted}
use tuxanci_ng.Index.Table.{lookup, erase}
use tuxanci_ng.Space.Walk.{objects, space_action-act}
use tuxanci_ng.Space.Invariant.{registered, is_it, registered-lookup}
use tuxanci_ng.Tux.{shot_kind}
use tuxanci_ng.Shots.{Shots, has_left, action_move_shot, shot_event_move_list}
use tuxanci_ng.Shots.Index.{erase-middle}
use tuxanci_ng.Shots.Flight.{one_less, flown, Flies, action_move_shot-Moves}
use tuxanci_ng.Shots.Ready.{entry_key, entry_registered, Ready-objects, mem-objects}
use tuxanci_ng.Shots.Pass.{Flown, act-Flown}

if_and : (b c : Bool) → (if b then c else b) ≡ (b && c)
if_and true c = refl
if_and false c = refl

module _ (arena_w arena_h : ℕ) where
  -- action_moveShot as space_action wants it.
  move_steps :
      (s : Shots) (e : IndexItem ℕ) (pre post : List (IndexItem ℕ))
      → Flies s
      → s.space.list_index ≡ pre ++ e ∷ post
      → (s' : Shots) × (action_move_shot arena_w arena_h e.object s ≡ ok s')
        × Flies s'
        × ((s'.space.list_index ≡ pre ++ e ∷ post) ⊎ (s'.space.list_index ≡ pre ++ post))
  move_steps s e pre post f l =
      let at_e : get_elem? s.space.list_index (length pre) ≡ some e =
        ap (λ t. get_elem? t (length pre)) l ∙ get_elem?_middle pre e post in
      let (s', run, m) =
        action_move_shot-Moves arena_w arena_h e.object s f
          (entry_registered s f e (length pre) at_e) in
      (
        s',
        run,
        m.flies,
        elim m.index [
          | inl same ↦ inl (same ∙ l)
          | inr gone ↦ inr (
              gone
              ∙ ap₂ erase (entry_key s f [] e (length pre) at_e) l
              ∙ erase-middle pre post e (subst IsSorted l f.consistent.sorted))
        ],
      )

  -- The count of the id j after the flight, where the space held the given shot under that id.
  abbrev pub count_after : Shots → Option ℕ → ℤ → Option ℤ
  count_after s none j = count_of j s.ids.list_id
  count_after s (some this) j =
      if has_left arena_w arena_h (flown (s.heap this))
      then one_less (count_of j s.ids.list_id)
      else count_of j s.ids.list_id

  counts-Flown :
      (s s' : Shots)
      → Flies s
      → Flown arena_w arena_h s s' (objects s.space.list_index)
      → (j : ℤ) → count_of j s'.ids.list_id ≡ count_after s (lookup j s.space.list_index) j
  unfolding shot_kind registered is_it
  counts-Flown s s' f fl j = elim (Option-cases (lookup j s.space.list_index)) [
    | inl nobody ↦ rw nobody (
        fl.kept j (λ this at. elim (Bool-cases ((s.heap this).id ==ℤ j)) [
          | inr other ↦ other
          | inl same ↦
              let found : lookup j s.space.list_index ≡ some this =
                ap (λ (i : ℤ). lookup i s.space.list_index) (sym ((==ℤ_iff _ _).0 same))
                ∙ registered-lookup shot_kind s.heap s.space this
                    (sym (mem-objects s f this) ∙ at) in
              cc (sym nobody ∙ found)
        ]))
    | inr (this, found) ↦
        let e : (s.heap this).id ≡ j = f.consistent.keyed j this found in
        let self : (this == this) ≡ true = (==_iff this this).1 refl in
        let found' : lookup (s.heap this).id s.space.list_index ≡ some this =
          ap (λ (i : ℤ). lookup i s.space.list_index) e ∙ found in
        let there : registered shot_kind s.heap s.space this ≡ true = rw found' self in
        rw found (
          subst (λ (i : ℤ). count_of i s'.ids.list_id ≡ count_after s (some this) i) e
            (fl.returned this (mem-objects s f this ∙ there)))
  ]

  -- shot_event_move_list, where the space of the shots is consistent and the table of ids has no id
  -- twice and counts the id of each shot in that space: it returns, and leaves it so. Every shot of the
  -- space has moved once by its course, and nothing else of it and no other shot has changed; of the
  -- shots of the space exactly those are still in it that have not left the arena, and none has come. The
  -- table of ids has one count less of the id of each shot that left, and no other count has changed.
  pub shot_event_move_list_lem :
      (s : Shots)
      → Flies s
      → (s' : Shots) × (shot_event_move_list arena_w arena_h s ≡ ok s')
        × Flies s'
        × ((this : ℕ)
            → s'.heap this ≡ (
                if registered shot_kind s.heap s.space this
                then flown (s.heap this)
                else s.heap this))
        × ((this : ℕ)
            → registered shot_kind s'.heap s'.space this ≡ (
                registered shot_kind s.heap s.space this
                && not (has_left arena_w arena_h (flown (s.heap this)))))
        × ((j : ℤ) → count_of j s'.ids.list_id ≡ count_after s (lookup j s.space.list_index) j)
  unfolding shot_event_move_list
  shot_event_move_list_lem s f =
      let walk =
        space_action-act (λ (t : Shots). t.space) (action_move_shot arena_w arena_h) Flies
          move_steps s f in
      let (s', run, fl) =
        act-Flown arena_w arena_h (objects s.space.list_index) s f (Ready-objects s f [] _ refl) in
      (
        s',
        walk ∙ run,
        fl.flies,
        λ this.
            fl.placed this
            ∙ ap (λ (b : Bool). if b then flown (s.heap this) else s.heap this)
                (mem-objects s f this),
        λ this.
            fl.remains this
            ∙ ap
                (λ (b : Bool).
                  if b
                  then not (has_left arena_w arena_h (flown (s.heap this)))
                  else registered shot_kind s.heap s.space this)
                (mem-objects s f this)
            ∙ if_and (registered shot_kind s.heap s.space this)
                (not (has_left arena_w arena_h (flown (s.heap this)))),
        counts-Flown s s' f fl,
      )
