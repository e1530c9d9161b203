-- ===== src/Layer/Order.antt =====
-- The order of the images in the list of layer.c.
use mathlib.Core.Option
use tuxanci_ng.Prelude.{
  ℕ, suc, ◌+◌, ◌≡◌, refl, sym, ap, ◌∙◌, inl, inr, List, [], ◌∷◌, ◌++◌, true, false, Option, none,
  some, if◌then◌else◌, Bool-cases, arith, append-nil, append_assoc,
}
use tuxanci_ng.Prelude.Int.{ℤ, ltb_ℤ, ◌==ℤ◌, ◌≤ℤ◌}
use tuxanci_ng.Sequence.{add, insert_at}
use tuxanci_ng.Layer.{Layer, depth, place_of, add_layer}

module _ {ℓ} {I : Type ℓ} where
  -- Insertion by recursion: in front of the first image that lies deeper.
  insert : Layer I → List (Layer I) → List (Layer I)
  insert new [] = new ∷ []
  insert new (actual ∷ list) =
      if ltb_ℤ (depth new) (depth actual) then new ∷ (actual ∷ list) else actual ∷ insert new list

  -- No image of the list lies above `bound`.
  abbrev pub AreBelow : ℤ → List (Layer I) → Type 0
  AreBelow bound [] = Unit
  AreBelow bound (this ∷ list) = (bound ≤ℤ depth this) × AreBelow bound list

  abbrev pub IsSorted : List (Layer I) → Type 0
  IsSorted [] = Unit
  IsSorted (this ∷ list) = AreBelow (depth this) list × IsSorted list

  -- The images of one depth, in order.
  unfoldable pub of_depth : ℤ → List (Layer I) → List (Layer I)
  of_depth d [] = []
  of_depth d (this ∷ list) = if depth this ==ℤ d then this ∷ of_depth d list else of_depth d list

  -- addLayer of the images of a list, one after the other.
  unfoldable pub add_layers : List (Layer I) → List (Layer I) → List (Layer I)
  add_layers list [] = list
  add_layers list (new ∷ news) =
      add_layers (add_layer list new.image new.x new.y new.px new.py new.w new.h new.layer) news

  placed : List (Layer I) → Layer I → Option ℕ → List (Layer I)
  placed list new (some i) = insert_at list i new
  placed list new none = add list new

  placed-suc :
      (actual new : Layer I) (list : List (Layer I)) (o : Option ℕ)
      → placed (actual ∷ list) new (Option.map suc o) ≡ actual ∷ placed list new o
  unfolding placed
  placed-suc actual new list none = refl
  placed-suc actual new list (some i) = refl

  place_of-suc :
      (list : List (Layer I)) (i : ℕ) (v : ℤ)
      → place_of list (i + 1) v ≡ Option.map suc (place_of list i v)
  unfolding place_of
  place_of-suc [] i v = refl
  place_of-suc (actual ∷ list) i v = elim (Bool-cases (ltb_ℤ v (depth actual))) [
    | inl deeper ↦ let e : i + 1 ≡ suc i = omega arith in rw deeper (ap some e)
    | inr above ↦ rw above (place_of-suc list (i + 1) v)
  ]

  placed-insert :
      (list : List (Layer I)) (new : Layer I)
      → placed list new (place_of list 0 (depth new)) ≡ insert new list
  unfolding placed place_of insert
  placed-insert [] new = refl
  placed-insert (actual ∷ list) new = elim (Bool-cases (ltb_ℤ (depth new) (depth actual))) [
    | inl deeper ↦ rw deeper
    | inr above ↦ rw above (
        ap (placed (actual ∷ list) new) (place_of-suc list 0 (depth new))
        ∙ placed-suc actual new list (place_of list 0 (depth new))
        ∙ ap (λ t. actual ∷ t) (placed-insert list new))
  ]

  add_layer-insert :
      (list : List (Layer I)) (new : Layer I)
      → add_layer list new.image new.x new.y new.px new.py new.w new.h new.layer ≡ insert new list
  unfolding add_layer placed
  add_layer-insert list new = placed-insert list new

  insert-AreBelow :
      (bound : ℤ) (new : Layer I) (list : List (Layer I))
      → bound ≤ℤ depth new
      → AreBelow bound list
      → AreBelow bound (insert new list)
  unfolding insert
  insert-AreBelow bound new [] h a = (h, tt)
  insert-AreBelow bound new (actual ∷ list) h (first, a) =
      elim (Bool-cases (ltb_ℤ (depth new) (depth actual))) [
        | inl deeper ↦ rw deeper (h, (first, a))
        | inr above ↦ rw above (first, insert-AreBelow bound new list h a)
      ]

  AreBelow-mono :
      (low high : ℤ) (list : List (Layer I)) → low ≤ℤ high → AreBelow high list → AreBelow low list
  AreBelow-mono low high [] h a = tt
  AreBelow-mono low high (this ∷ list) h (first, a) = (omega arith, AreBelow-mono low high list h a)

  insert-IsSorted :
      (new : Layer I) (list : List (Layer I)) → IsSorted list → IsSorted (insert new list)
  unfolding insert
  insert-IsSorted new [] s = (tt, tt)
  insert-IsSorted new (actual ∷ list) (a, s) =
      elim (Bool-cases (ltb_ℤ (depth new) (depth actual))) [
        | inl deeper ↦
            let below : depth new ≤ℤ depth actual = ground arith in
            rw deeper ((below, AreBelow-mono (depth new) (depth actual) list below a), (a, s))
        | inr above ↦
            let below : depth actual ≤ℤ depth new = ground arith in
            rw above (insert-AreBelow (depth actual) new list below a, insert-IsSorted new list s)
      ]

  of_depth_none :
      (d bound : ℤ) (list : List (Layer I))
      → ltb_ℤ d bound ≡ true
      → AreBelow bound list
      → of_depth d list ≡ []
  unfolding of_depth
  of_depth_none d bound [] h a = refl
  of_depth_none d bound (this ∷ list) h (first, a) =
      let other : (depth this ==ℤ d) ≡ false = ground arith in
      rw other (of_depth_none d bound list h a)

  of_depth-insert :
      (d : ℤ) (new : Layer I) (list : List (Layer I))
      → IsSorted list
      → of_depth d (insert new list) ≡ of_depth d list ++ of_depth d (new ∷ [])
  unfolding of_depth insert
  of_depth-insert d new [] s = refl
  of_depth-insert d new (actual ∷ list) (a, s) =
      elim (Bool-cases (ltb_ℤ (depth new) (depth actual))) [
        | inl deeper ↦ elim (Bool-cases (depth new ==ℤ d)) [
          | inl here ↦
              let deep : ltb_ℤ d (depth actual) ≡ true = ground arith in
              let none_here : of_depth d (actual ∷ list) ≡ [] =
                of_depth_none d (depth actual) (actual ∷ list) deep (omega arith, a) in
              rw deeper
                (rw here (ap (λ t. new ∷ t) none_here ∙ sym (ap (λ t. t ++ new ∷ []) none_here)))
          | inr elsewhere ↦ rw deeper (rw elsewhere (sym (append-nil _)))
        ]
        | inr above ↦ elim (Bool-cases (depth actual ==ℤ d)) [
          | inl here ↦ rw above (rw here (ap (λ t. actual ∷ t) (of_depth-insert d new list s)))
          | inr elsewhere ↦ rw above (rw elsewhere (of_depth-insert d new list s))
        ]
      ]

  of_depth-first :
      (d : ℤ) (new : Layer I) (news : List (Layer I))
      → of_depth d (new ∷ news) ≡ of_depth d (new ∷ []) ++ of_depth d news
  unfolding of_depth
  of_depth-first d new news = elim (Bool-cases (depth new ==ℤ d)) [
    | inl here ↦ rw here
    | inr elsewhere ↦ rw elsewhere
  ]

  add_layers-ordered :
      (list news : List (Layer I))
      → IsSorted list
      → IsSorted (add_layers list news)
        × ((d : ℤ) → of_depth d (add_layers list news) ≡ of_depth d list ++ of_depth d news)
  unfolding add_layers of_depth
  add_layers-ordered list [] s = (s, λ d. sym (append-nil (of_depth d list)))
  add_layers-ordered list (new ∷ news) s =
      let (sorted, same) = add_layers-ordered (insert new list) news (insert-IsSorted new list s) in
      rw (add_layer-insert list new) (
        sorted,
        λ d.
            same d
            ∙ ap (λ t. t ++ of_depth d news) (of_depth-insert d new list s)
            ∙ append_assoc (of_depth d list) (of_depth d (new ∷ [])) (of_depth d news)
            ∙ ap (λ t. of_depth d list ++ t) (sym (of_depth-first d new news)),
      )

  -- The list that addLayer makes of any sequence of images is in the order of their depth,
  -- layer * WINDOW_SIZE_Y + y + h, and the images of one depth stand in the order in which they came,
  -- each once.
  pub add_layers_lem :
      (news : List (Layer I))
      → IsSorted (add_layers [] news)
        × ((d : ℤ) → of_depth d (add_layers [] news) ≡ of_depth d news)
  unfolding of_depth
  add_layers_lem news = add_layers-ordered [] news tt
