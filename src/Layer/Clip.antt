-- ===== src/Layer/Clip.antt =====
-- What layer.c shows of the images.
use tuxanci_ng.Prelude.{
  ◌≡◌, refl, ap, ap₂, ◌∙◌, inl, inr, List, [], ◌∷◌, Bool, true, false, ◌&&◌, ◌||◌, if◌then◌else◌,
  Bool-cases, arith, lt→ltb, ltb→lt,
}
use tuxanci_ng.Prelude.Int.{ℤ, ◌+ℤ◌, ◌-ℤ◌, ltb_ℤ, leb_ℤ, int_laws}
use tuxanci_ng.Layer.{
  Layer, Draw, Span, clip_begin, clip_end, clip, is_off, draw_spans, split_loop, layer_draw_slpit,
  across, down,
}

-- A point lies in a range that begins at `place`.
unfoldable pub covers : ℤ → ℤ → ℤ → Bool
covers place size at = leb_ℤ place at && ltb_ℤ at (place +ℤ size)

cut_begin :
    (local p end at : ℤ)
    → ltb_ℤ p local ≡ true
    → (leb_ℤ local at && ltb_ℤ at end) ≡ (leb_ℤ local at && (leb_ℤ p at && ltb_ℤ at end))
cut_begin local p end at h = ground arith

same_begin :
    (local p end at : ℤ)
    → ltb_ℤ p local ≡ false
    → (leb_ℤ p at && ltb_ℤ at end) ≡ (leb_ℤ local at && (leb_ℤ p at && ltb_ℤ at end))
same_begin local p end at h = ground arith

cut_end :
    (limit p end at : ℤ)
    → ltb_ℤ limit end ≡ true
    → (leb_ℤ p at && ltb_ℤ at limit) ≡ (ltb_ℤ at limit && (leb_ℤ p at && ltb_ℤ at end))
cut_end limit p end at h = ground arith

same_end :
    (limit p end at : ℤ)
    → ltb_ℤ limit end ≡ false
    → (leb_ℤ p at && ltb_ℤ at end) ≡ (ltb_ℤ at limit && (leb_ℤ p at && ltb_ℤ at end))
same_end limit p end at h = ground arith

moved_place :
    (local start place : ℤ)
    → local +ℤ (place +ℤ (local -ℤ (local +ℤ (place -ℤ start))) -ℤ start) ≡ local
moved_place local start place = omega int_laws

moved_end : (local p size : ℤ) → local +ℤ (size -ℤ (local -ℤ p)) ≡ p +ℤ size
moved_end local p size = omega int_laws

cut_size : (limit p size : ℤ) → p +ℤ (size -ℤ (p +ℤ size -ℤ limit)) ≡ limit
cut_size limit p size = omega int_laws

moved_part :
    (local start place part at : ℤ)
    → part +ℤ (local -ℤ (local +ℤ (place -ℤ start))) +ℤ (at -ℤ local)
      ≡ part +ℤ (at -ℤ (local +ℤ (place -ℤ start)))
moved_part local start place part at = omega int_laws

-- A span on the screen, whose windows begin at `local` there and at `start` in the arena.
abbrev shows : ℤ → ℤ → Span → ℤ → Bool
shows local start s at = covers (local +ℤ (s.place -ℤ start)) s.size at

-- The row or column of the image that shows at `at`.
abbrev shown_part : ℤ → ℤ → Span → ℤ → ℤ
shown_part local start s at = s.part +ℤ (at -ℤ (local +ℤ (s.place -ℤ start)))

clip_begin-shows :
    (local start at : ℤ) (s : Span)
    → (shows local start (clip_begin local start s) at ≡ (leb_ℤ local at && shows local start s at))
      × (shown_part local start (clip_begin local start s) at ≡ shown_part local start s at)
unfolding clip_begin covers
clip_begin-shows local start at s =
    let p : ℤ = local +ℤ (s.place -ℤ start) in
    elim (Bool-cases (ltb_ℤ p local)) [
      | inl before ↦
          let move : local +ℤ (s.place +ℤ (local -ℤ p) -ℤ start) ≡ local =
            moved_place local start s.place in
          rw before (
            ap₂ (λ (a : ℤ) (b : ℤ). leb_ℤ a at && ltb_ℤ at b) move
                  (ap (λ (a : ℤ). a +ℤ (s.size -ℤ (local -ℤ p))) move ∙ moved_end local p s.size)
                ∙ cut_begin local p (p +ℤ s.size) at before,
            ap (λ (a : ℤ). s.part +ℤ (local -ℤ p) +ℤ (at -ℤ a)) move
                ∙ moved_part local start s.place s.part at,
          )
      | inr after ↦ rw after (same_begin local p (p +ℤ s.size) at after, refl)
    ]

clip_end-shows :
    (local start room at : ℤ) (s : Span)
    → (shows local start (clip_end local start room s) at
        ≡ (ltb_ℤ at (local +ℤ room) && shows local start s at))
      × (shown_part local start (clip_end local start room s) at ≡ shown_part local start s at)
unfolding clip_end covers
clip_end-shows local start room at s =
    let p : ℤ = local +ℤ (s.place -ℤ start) in
    let limit : ℤ = local +ℤ room in
    elim (Bool-cases (ltb_ℤ limit (p +ℤ s.size))) [
      | inl over ↦ rw over (
        ap (λ (b : ℤ). leb_ℤ p at && ltb_ℤ at b) (cut_size limit p s.size)
            ∙ cut_end limit p (p +ℤ s.size) at over,
        refl,
      )
      | inr inside ↦ rw inside (same_end limit p (p +ℤ s.size) at inside, refl)
    ]

and_swap : (a b c : Bool) → (b && (a && c)) ≡ ((a && b) && c)
and_swap true b c = refl
and_swap false true c = refl
and_swap false false c = refl

-- A clipped span shows the same of the image, and only in the window.
clip-shows :
    (local start room at : ℤ) (s : Span)
    → (shows local start (clip local start room s) at
        ≡ (covers local room at && shows local start s at))
      × (shown_part local start (clip local start room s) at ≡ shown_part local start s at)
unfolding clip covers
clip-shows local start room at s =
    let c : Span = clip_begin local start s in
    let (shown, part) = clip_begin-shows local start at s in
    let (shown', part') = clip_end-shows local start room at c in
    (
      shown'
          ∙ ap (λ (t : Bool). ltb_ℤ at (local +ℤ room) && t) shown
          ∙ and_swap (leb_ℤ local at) (ltb_ℤ at (local +ℤ room)) (shows local start s at),
      part' ∙ part,
    )

-- A span that the tests of is_off skip does not show in the window.
skip_before :
    (local start room place size at : ℤ)
    → ltb_ℤ (place +ℤ size) start ≡ true
    → (covers local room at && covers (local +ℤ (place -ℤ start)) size at) ≡ false
unfolding covers
skip_before local start room place size at h =
    let far : ltb_ℤ (local +ℤ (place -ℤ start) +ℤ size) local ≡ true =
      lt→ltb _ _ (omega (int_laws, ltb→lt _ _ h)) in
    ground arith

skip_behind :
    (local start room place size at : ℤ)
    → ltb_ℤ (start +ℤ room) place ≡ true
    → (covers local room at && covers (local +ℤ (place -ℤ start)) size at) ≡ false
unfolding covers
skip_behind local start room place size at h =
    let far : ltb_ℤ (local +ℤ room) (local +ℤ (place -ℤ start)) ≡ true =
      lt→ltb _ _ (omega (int_laws, ltb→lt _ _ h)) in
    ground arith

and_rest : (c s : Bool) → c ≡ true → (c && s) ≡ false → s ≡ false
and_rest true s h k = k
and_rest false s h k = cc

skip_any :
    (left right above below sx sy : Bool)
    → (left || (right || (above || below))) ≡ true
    → (left ≡ true → sx ≡ false)
    → (right ≡ true → sx ≡ false)
    → (above ≡ true → sy ≡ false)
    → (below ≡ true → sy ≡ false)
    → (sx && sy) ≡ false
skip_any left right above below sx sy off h1 h2 h3 h4 = ground (arith, h1, h2, h3, h4)

and_left : (b c : Bool) → (b && c) ≡ true → b ≡ true
and_left true c h = refl
and_left false c h = h

and_right : (b c : Bool) → (b && c) ≡ true → c ≡ true
and_right true c h = h
and_right false c h = cc

and_outside : (wx wy ux uy : Bool) → (wx && wy) ≡ false → ((wx && ux) && (wy && uy)) ≡ false
and_outside false wy ux uy h = refl
and_outside true false true uy h = refl
and_outside true false false uy h = refl
and_outside true true ux uy h = cc

module _ {ℓ} {I : Type ℓ} where
  -- What shows at a point of the screen, from the back to the front: the images with the place in
  -- each of them.
  unfoldable pub seen : ℤ → ℤ → List (Draw I) → List (I × ℤ × ℤ)
  seen a b [] = []
  seen a b (d ∷ ds) =
      let rest = seen a b ds in
      if covers d.x d.w a && covers d.y d.h b
      then (d.image, d.px +ℤ (a -ℤ d.x), d.py +ℤ (b -ℤ d.y)) ∷ rest
      else rest

  -- The images drawn whole, with the point (x, y) of the arena at (local_x, local_y).
  unfoldable pub whole : ℤ → ℤ → ℤ → ℤ → List (Layer I) → List (Draw I)
  whole local_x local_y x y [] = []
  whole local_x local_y x y (this ∷ list) =
      draw_spans local_x local_y x y this.image (across this) (down this)
      ∷ whole local_x local_y x y list

  off_unseen :
      (local_x local_y x y w h a b : ℤ) (this : Layer I)
      → is_off x y w h this ≡ true
      → covers local_x w a ≡ true
      → covers local_y h b ≡ true
      → (shows local_x x (across this) a && shows local_y y (down this) b) ≡ false
  unfolding is_off
  off_unseen local_x local_y x y w h a b this off in_x in_y =
      skip_any _ _ _ _ _ _ off (λ e. and_rest _ _ in_x (skip_before local_x x w this.x this.w a e))
        (λ e. and_rest _ _ in_x (skip_behind local_x x w this.x this.w a e))
        (λ e. and_rest _ _ in_y (skip_before local_y y h this.y this.h b e))
        (λ e. and_rest _ _ in_y (skip_behind local_y y h this.y this.h b e))

  seen_inside :
      (local_x local_y x y w h a b : ℤ) (list : List (Layer I))
      → covers local_x w a ≡ true
      → covers local_y h b ≡ true
      → seen a b (split_loop local_x local_y x y w h list)
        ≡ seen a b (whole local_x local_y x y list)
  unfolding seen split_loop whole
  seen_inside local_x local_y x y w h a b [] in_x in_y = refl
  seen_inside local_x local_y x y w h a b (this ∷ list) in_x in_y =
      let ih = seen_inside local_x local_y x y w h a b list in_x in_y in
      let (show_x, part_x) = clip-shows local_x x w a (across this) in
      let (show_y, part_y) = clip-shows local_y y h b (down this) in
      elim (Bool-cases (is_off x y w h this)) [
        | inl off ↦
            let unseen = off_unseen local_x local_y x y w h a b this off in_x in_y in
            rw off (rw unseen ih)
        | inr on ↦ rw on (rw (show_x, show_y, in_x, in_y) (rw (part_x, part_y, ih)))
      ]

  seen_outside :
      (local_x local_y x y w h a b : ℤ) (list : List (Layer I))
      → (covers local_x w a && covers local_y h b) ≡ false
      → seen a b (split_loop local_x local_y x y w h list) ≡ []
  unfolding seen split_loop
  seen_outside local_x local_y x y w h a b [] out = refl
  seen_outside local_x local_y x y w h a b (this ∷ list) out =
      let ih = seen_outside local_x local_y x y w h a b list out in
      let (show_x, part_x) = clip-shows local_x x w a (across this) in
      let (show_y, part_y) = clip-shows local_y y h b (down this) in
      elim (Bool-cases (is_off x y w h this)) [
        | inl off ↦ rw off ih
        | inr on ↦ rw on (
            rw (show_x, show_y)
              (rw
                (and_outside (covers local_x w a) (covers local_y h b)
                  (shows local_x x (across this) a) (shows local_y y (down this) b) out)
                ih))
      ]

  -- layer_draw_slpit ends with the empty list, and draws in its window, w by h at (local_x, local_y) on
  -- the screen, exactly what a drawing of the whole images would show there: at each point of the
  -- window the same images from back to front with the same place in each. Outside the window it draws
  -- nothing.
  pub layer_draw_slpit_lem :
      (local_x local_y x y w h a b : ℤ) (list : List (Layer I))
      → (seen a b (layer_draw_slpit local_x local_y x y w h list).0 ≡ (
          if covers local_x w a && covers local_y h b
          then seen a b (whole local_x local_y x y list)
          else []))
        × ((layer_draw_slpit local_x local_y x y w h list).1 ≡ [])
  unfolding layer_draw_slpit
  layer_draw_slpit_lem local_x local_y x y w h a b list =
      elim (Bool-cases (covers local_x w a && covers local_y h b)) [
        | inl inside ↦ rw inside (
          seen_inside local_x local_y x y w h a b list (and_left _ _ inside) (and_right _ _ inside),
          refl,
        )
        | inr outside ↦ rw outside (seen_outside local_x local_y x y w h a b list outside, refl)
      ]
