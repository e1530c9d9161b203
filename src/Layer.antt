-- ===== src/Layer.antt =====
-- src/client/layer.c: the images that wait to be drawn, in the order in which they are drawn, and the
-- drawing of them. An image_t is opaque here, so its type is a parameter; a drawing operation is seen in
-- the calls of image_draw that it makes, in order. Coordinates are integers: the code adds a few numbers
-- of the size of an arena, which an int holds. layer_init, layer_flush and layer_quit leave the empty
-- list.
pub mod Order
pub mod Clip
use tuxanci_ng.Prelude.{
  ℕ, zero, suc, ◌+◌, List, [], ◌∷◌, ◌++◌, map, Bool, true, false, ◌||◌, Option, none, some,
  if◌then◌else◌,
}
use tuxanci_ng.Prelude.Int.{ℤ, pos, ◌+ℤ◌, ◌-ℤ◌, ◌*ℤ◌, ltb_ℤ}
use tuxanci_ng.Sequence.{add, insert_at}
use tuxanci_ng.Arena.{Arena, arena_get_center_screen}

abbrev pub window_size_x : ℕ
window_size_x = 800

abbrev pub window_size_y : ℕ
window_size_y = 600

-- layer_t, whose fields pw and ph no code uses.
pub record Layer {ℓ} (I : Type ℓ) : Type ℓ where
  pub x : ℤ
  pub y : ℤ
  pub w : ℤ
  pub h : ℤ
  pub px : ℤ
  pub py : ℤ
  pub layer : ℤ
  pub image : I

-- A call of image_draw: the place on the screen, then the place in the image, then the size of both.
pub record Draw {ℓ} (I : Type ℓ) : Type ℓ where
  pub image : I
  pub x : ℤ
  pub y : ℤ
  pub px : ℤ
  pub py : ℤ
  pub w : ℤ
  pub h : ℤ

-- One dimension of an image in layer_draw_slpit: where it stands, where its part begins, and its size.
pub record Span : Type 0 where
  pub place : ℤ
  pub part : ℤ
  pub size : ℤ

-- The first test of layer_draw_slpit on a dimension, and its body.
unfoldable pub clip_begin : ℤ → ℤ → Span → Span
clip_begin local start s =
    if ltb_ℤ (local +ℤ (s.place -ℤ start)) local
    then (let z = local -ℤ (local +ℤ (s.place -ℤ start)) in
        record { place = s.place +ℤ z; part = s.part +ℤ z; size = s.size -ℤ z })
    else s

-- The second test, and its body.
unfoldable pub clip_end : ℤ → ℤ → ℤ → Span → Span
clip_end local start room s =
    if ltb_ℤ (local +ℤ room) (local +ℤ (s.place -ℤ start) +ℤ s.size)
    then record s { size = s.size -ℤ (local +ℤ (s.place -ℤ start) +ℤ s.size -ℤ (local +ℤ room)) }
    else s

unfoldable pub clip : ℤ → ℤ → ℤ → Span → Span
clip local start room s = clip_end local start room (clip_begin local start s)

module _ {ℓ} {I : Type ℓ} where
  -- actual_value and new_value
  unfoldable pub depth : Layer I → ℤ
  depth this = this.layer *ℤ pos window_size_y +ℤ this.y +ℤ this.h

  -- The index that the loop of addLayer stops at, from `i` on.
  unfoldable pub place_of : List (Layer I) → ℕ → ℤ → Option ℕ
  place_of [] i new_value = none
  place_of (actual ∷ list) i new_value =
      if ltb_ℤ new_value (depth actual) then some i else place_of list (i + 1) new_value

  unfoldable pub add_layer : List (Layer I) → I → ℤ → ℤ → ℤ → ℤ → ℤ → ℤ → ℤ → List (Layer I)
  add_layer list img x y px py w h player =
      let new : Layer I = record {
        x = x;
        y = y;
        w = w;
        h = h;
        px = px;
        py = py;
        layer = player;
        image = img;
      } in
      elim (place_of list 0 (depth new)) [ some i ↦ insert_at list i new | none ↦ add list new ]

  -- image_draw of a layer that is not clipped, with what is taken off its place.
  abbrev pub draw_at : ℤ → ℤ → Layer I → Draw I
  draw_at left top this = record {
    image = this.image;
    x = this.x -ℤ left;
    y = this.y -ℤ top;
    px = this.px;
    py = this.py;
    w = this.w;
    h = this.h;
  }

  -- The calls of image_draw, and the list afterwards.
  unfoldable pub layer_draw_all : List (Layer I) → List (Draw I) × List (Layer I)
  layer_draw_all list = (
    map
        (λ (this : Layer I). record {
          image = this.image;
          x = this.x;
          y = this.y;
          px = this.px;
          py = this.py;
          w = this.w;
          h = this.h;
        })
        list,
    [],
  )

  -- The test that layer_draw_center and layer_draw_slpit skip an image by.
  unfoldable pub is_off : ℤ → ℤ → ℤ → ℤ → Layer I → Bool
  is_off x y w h this =
      ltb_ℤ (this.x +ℤ this.w) x
      || (ltb_ℤ (x +ℤ w) this.x || (ltb_ℤ (this.y +ℤ this.h) y || ltb_ℤ (y +ℤ h) this.y))

  unfoldable pub center_loop : ℤ → ℤ → List (Layer I) → List (Draw I)
  center_loop screen_x screen_y [] = []
  center_loop screen_x screen_y (this ∷ list) =
      let rest = center_loop screen_x screen_y list in
      if is_off screen_x screen_y (pos window_size_x) (pos window_size_y) this
      then rest
      else draw_at screen_x screen_y this ∷ rest

  unfoldable pub layer_draw_center : Arena → ℤ → ℤ → List (Layer I) → List (Draw I) × List (Layer I)
  layer_draw_center arena x y list =
      let at = arena_get_center_screen arena x y window_size_x window_size_y in
      (center_loop at.0 at.1 list, [])

  abbrev pub across : Layer I → Span
  across this = record { place = this.x; part = this.px; size = this.w }

  abbrev pub down : Layer I → Span
  down this = record { place = this.y; part = this.py; size = this.h }

  -- The image_draw at the end of the loop of layer_draw_slpit.
  abbrev pub draw_spans : ℤ → ℤ → ℤ → ℤ → I → Span → Span → Draw I
  draw_spans local_x local_y x y image horizontal vertical = record {
    image = image;
    x = local_x +ℤ (horizontal.place -ℤ x);
    y = local_y +ℤ (vertical.place -ℤ y);
    px = horizontal.part;
    py = vertical.part;
    w = horizontal.size;
    h = vertical.size;
  }

  unfoldable pub split_loop : ℤ → ℤ → ℤ → ℤ → ℤ → ℤ → List (Layer I) → List (Draw I)
  split_loop local_x local_y x y w h [] = []
  split_loop local_x local_y x y w h (this ∷ list) =
      let rest = split_loop local_x local_y x y w h list in
      if is_off x y w h this
      then rest
      else draw_spans local_x local_y x y this.image (clip local_x x w (across this))
          (clip local_y y h (down this))
        ∷ rest

  unfoldable pub layer_draw_slpit :
      ℤ → ℤ → ℤ → ℤ → ℤ → ℤ → List (Layer I) → List (Draw I) × List (Layer I)
  layer_draw_slpit local_x local_y x y w h list = (split_loop local_x local_y x y w h list, [])
