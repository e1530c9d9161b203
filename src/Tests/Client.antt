-- ===== src/Tests/Client.antt =====
-- The client's key buffer, layers, text files and configuration at concrete inputs.
use tuxanci_ng.Prelude.{
  ℕ, ◌≡◌, refl, List, [], ◌∷◌, ◌++◌, true, none, some, ok, ◌>>=◌, ◌&&◌, if◌then◌else◌, arith,
}
use tuxanci_ng.Prelude.Int.{ℤ, pos, negsuc, ◌+ℤ◌, ◌-ℤ◌}
use tuxanci_ng.KeyboardBuffer.{keyboard_buffer_init}
use tuxanci_ng.KeyboardBuffer.Refine.{
  Call, push, pop, is_any, clear, calls, queue_calls, keyboard_calls_refine,
}
use tuxanci_ng.Layer.{Layer, layer_draw_slpit, split_loop, is_off, clip, clip_begin, clip_end}
use tuxanci_ng.Layer.Order.{add_layers, add_layers_lem, IsSorted, of_depth}
use tuxanci_ng.Layer.Clip.{seen, whole, covers, layer_draw_slpit_lem}
use tuxanci_ng.Text.{lacks, starts_with}
use tuxanci_ng.TextFile.{is_fill_path, create_line, print_lines, text_file_load, text_file_save}
use tuxanci_ng.TextFile.Laws.{are_lines, create_line_lem, text_file_load-text_file_save}
use tuxanci_ng.ConfigFile.{
  get_value_in_config_file, set_value_in_config_file, load_value_from_config_file, config_line,
}
use tuxanci_ng.ConfigFile.Entries.{entry}
use tuxanci_ng.ConfigFile.Laws.{
  none_starts, get_value-set_value, get_value-set_value_other, load_value_from_config_file_lem,
}

-- Three keys into room for two, and one more behind a key that is taken.
abbrev some_keys : List (Call ℕ)
some_keys = push 7 ∷ push 8 ∷ push 9 ∷ pop ∷ push 10 ∷ pop ∷ is_any ∷ pop ∷ pop ∷ clear ∷ []

keyboard_calls_refine_example :
    (keyboard_buffer_init 0 none (pos 2) >>= λ b. calls 0 1 b some_keys)
    ≡ ok (queue_calls 1 2 [] some_keys)
keyboard_calls_refine_example = keyboard_calls_refine 0 1 2 some_keys (omega arith)

abbrev layer_at : ℤ → ℤ → ℕ → Layer ℕ
layer_at x y image = record {
  x = x;
  y = y;
  w = pos 40;
  h = pos 50;
  px = pos 0;
  py = pos 0;
  layer = pos 1;
  image = image;
}

abbrev some_layers : List (Layer ℕ)
some_layers =
    layer_at (pos 10) (pos 90) 1
    ∷ layer_at (pos 300) (pos 20) 2
    ∷ layer_at (negsuc 9) (pos 90) 3
    ∷ []

add_layers_lem_example :
    IsSorted (add_layers [] some_layers)
    × ((d : ℤ) → of_depth d (add_layers [] some_layers) ≡ of_depth d some_layers)
add_layers_lem_example = add_layers_lem some_layers

-- The image 3 begins left of the window and shows at its left edge.
edge_seen :
    seen
      (pos 400)
      (pos 95)
      (layer_draw_slpit (pos 400) (pos 0) (pos 0) (pos 0) (pos 400) (pos 600) some_layers).0
    ≡ (3, pos 10, pos 5) ∷ []
unfolding seen layer_draw_slpit split_loop is_off clip clip_begin clip_end covers ◌+ℤ◌ ◌-ℤ◌
edge_seen = refl

layer_draw_slpit_lem_example :
    (seen
        (pos 400)
        (pos 95)
        (layer_draw_slpit (pos 400) (pos 0) (pos 0) (pos 0) (pos 400) (pos 600) some_layers).0
      ≡ (if covers (pos 400) (pos 400) (pos 400) && covers (pos 0) (pos 600) (pos 95)
          then seen (pos 400) (pos 95) (whole (pos 400) (pos 0) (pos 0) (pos 0) some_layers)
          else []))
    × ((layer_draw_slpit (pos 400) (pos 0) (pos 0) (pos 0) (pos 400) (pos 600) some_layers).1 ≡ [])
layer_draw_slpit_lem_example =
    layer_draw_slpit_lem (pos 400) (pos 0) (pos 0) (pos 0) (pos 400) (pos 600) (pos 400) (pos 95)
      some_layers

abbrev some_lines : List (List ℕ)
some_lines = (97 ∷ 98 ∷ []) ∷ [] ∷ (99 ∷ []) ∷ []

create_line_lem_example : create_line [] (97 ∷ 98 ∷ 10 ∷ 10 ∷ 99 ∷ 10 ∷ 100 ∷ []) 7 ≡ ok some_lines
unfolding are_lines lacks print_lines
create_line_lem_example = create_line_lem [] some_lines (100 ∷ []) refl refl

abbrev a_path : List ℕ
a_path = 47 ∷ 97 ∷ []

text_file_load-text_file_save_example :
    text_file_load (47 ∷ []) (λ path. some (97 ∷ 98 ∷ 10 ∷ 10 ∷ 99 ∷ 10 ∷ [])) a_path
    ≡ ok (some (record { file = a_path; text = some_lines }))
unfolding is_fill_path are_lines lacks text_file_save print_lines
text_file_load-text_file_save_example =
    text_file_load-text_file_save (47 ∷ []) a_path some_lines
      (λ path. some (97 ∷ 98 ∷ 10 ∷ 10 ∷ 99 ∷ 10 ∷ [])) (λ path. true)
      (97 ∷ 98 ∷ 10 ∷ 10 ∷ 99 ∷ 10 ∷ []) refl refl (omega arith) refl refl refl

-- The line PORT="99" behind a line of another name.
abbrev port : List ℕ
port = 80 ∷ 79 ∷ 82 ∷ 84 ∷ []

abbrev host : List ℕ
host = 72 ∷ 79 ∷ 83 ∷ 84 ∷ []

abbrev host_line : List ℕ
host_line = config_line host (97 ∷ [])

abbrev array : List ℕ
array = 1 ∷ 2 ∷ 3 ∷ 4 ∷ 5 ∷ []

get_value-set_value_example :
    (text : List (List ℕ)) × (set_value_in_config_file
        (host_line ∷ entry (port ++ 61 ∷ []) (57 ∷ 57 ∷ []) [] ∷ [])
        port
        (49 ∷ [])
      ≡ ok (pos 0, text))
    × (get_value_in_config_file text port array 4 ≡ ok (pos 0, 49 ∷ 0 ∷ 0 ∷ 0 ∷ 5 ∷ []))
unfolding none_starts starts_with lacks
get_value-set_value_example =
    get_value-set_value port (port ++ 61 ∷ []) (57 ∷ 57 ∷ []) [] (49 ∷ []) array 4 (host_line ∷ [])
      [] refl refl refl refl refl refl refl refl (omega arith) (omega arith)

get_value-set_value_other_example :
    (text : List (List ℕ)) × (set_value_in_config_file
        (host_line ∷ entry (port ++ 61 ∷ []) (57 ∷ 57 ∷ []) [] ∷ [])
        port
        (49 ∷ [])
      ≡ ok (pos 0, text))
    × (get_value_in_config_file text host array 4
        ≡ get_value_in_config_file
            (host_line ∷ entry (port ++ 61 ∷ []) (57 ∷ 57 ∷ []) [] ∷ [])
            host
            array
            4)
unfolding none_starts starts_with lacks
get_value-set_value_other_example =
    get_value-set_value_other port (port ++ 61 ∷ []) (57 ∷ 57 ∷ []) [] (49 ∷ []) host array 4
      (host_line ∷ []) [] refl refl refl refl refl refl refl refl refl

load_value_from_config_file_lem_example :
    (load_value_from_config_file (host_line ∷ []) port array 4 (49 ∷ [])
      ≡ ok (49 ∷ 0 ∷ 3 ∷ 4 ∷ 5 ∷ [], host_line ∷ config_line port (49 ∷ []) ∷ []))
    × (get_value_in_config_file (host_line ∷ config_line port (49 ∷ []) ∷ []) port array 4
        ≡ ok (pos 0, 49 ∷ 0 ∷ 0 ∷ 0 ∷ 5 ∷ []))
unfolding none_starts starts_with lacks
load_value_from_config_file_lem_example =
    load_value_from_config_file_lem port (49 ∷ []) array array 4 (host_line ∷ []) refl refl refl
      refl (omega arith) (omega arith) (omega arith)
