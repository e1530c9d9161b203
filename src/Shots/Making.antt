-- ===== src/Shots/Making.antt =====
-- src/base/shot.c: the making of a shot, the bouncing of a ball and the turn of a laser; and the end of
-- addShotTrivial of src/base/gun.c, which puts a new shot into its space. The memory that malloc returns
-- is the number `new`. What is sent to other players is left out.
use tuxanci_ng.Prelude.{
  ℕ, zero, suc, ◌%◌, true, false, not, ◌||◌, Option, none, some, Result, ok, err, assertion,
  out_of_bounds, out_of_fuel, ◌>>=◌, if◌then◌else◌, ◌==◌,
}
use tuxanci_ng.Prelude.Int.{ℤ, pos, negsuc, ◌-ℤ◌, ◌==ℤ◌}
use tuxanci_ng.IdManager.{id_get_new, rest_of}
use tuxanci_ng.Space.{Space, space_add, space_del, space_get_object_id}
use tuxanci_ng.Tux.{Tux, Shot, tux_kind, shot_kind}
use tuxanci_ng.Tux.Guns.{ShotArgs, gun_simple, gun_lasser, gun_bombball}
use tuxanci_ng.Shots.{Shots}

abbrev pub position_unknown : ℤ
position_unknown = negsuc 0

-- The size of a laser by the way its tux looks; no size is set for other values.
unfoldable pub laser_size : ℤ → ℤ × ℤ → ℤ × ℤ
laser_size position size =
    if (position ==ℤ pos 6) || (position ==ℤ pos 4)
    then (pos 40, pos 5)
    else if (position ==ℤ pos 8) || (position ==ℤ pos 2)
    then (pos 5, pos 40)
    else size

-- The switch of shot_new. The author of a laser is read without a test for NULL.
unfoldable pub size_of_gun : ℕ → Option ℤ → Result (ℤ × ℤ)
unfolding laser_size
size_of_gun gun author_position =
    if gun == gun_simple
    then ok (pos 5, pos 5)
    else if gun == gun_lasser
    then (elim author_position [
      | none ↦ err out_of_bounds
      | some position ↦ ok (laser_size position (pos 0, pos 0))
    ])
    else if gun == gun_bombball
    then ok (pos 20, pos 20)
    else err assertion

-- author->position, or POSITION_UNKNOWN.
abbrev pub position_or_unknown : Option ℤ → ℤ
position_or_unknown none = position_unknown
position_or_unknown (some position) = position

abbrev pub position_of : (ℕ → Tux) → Option ℕ → Option ℤ
position_of tuxes none = none
position_of tuxes (some tux) = some (tuxes tux).position

-- The table of ids afterwards, and the shot; `fuel` bounds the draws of findNewID.
unfoldable pub shot_new : ℕ → (ℕ → Tux) → Space → Shots → ShotArgs → Result (Shots × Shot)
unfolding size_of_gun tux_kind
shot_new fuel tuxes space_tux s args = id_get_new fuel s.ids >>= λ (id, ids).
    space_get_object_id tux_kind space_tux args.author_id >>= λ author.
    size_of_gun args.gun (position_of tuxes author) >>= λ (w, h). ok (
      record s { ids = ids },
      record {
        id = id;
        x = args.x;
        y = args.y;
        w = w;
        h = h;
        px = args.px;
        py = args.py;
        position = position_or_unknown (position_of tuxes author);
        gun = args.gun;
        author_id = args.author_id;
        is_can_kill_author = false;
        del = false;
      },
    )

-- A heap with something else at one place.
abbrev pub written {ℓ} : {O : Type ℓ} → (ℕ → O) → ℕ → O → ℕ → O
written heap new o this = if this == new then o else heap this

-- shot_new and space_add at the end of addShotTrivial.
unfoldable pub make_shot : ℕ → (ℕ → Tux) → Space → ℕ → ShotArgs → Shots → Result Shots
unfolding shot_new shot_kind
make_shot fuel tuxes space_tux new args s = shot_new fuel tuxes space_tux s args >>= λ (t, shot).
    space_add shot_kind (written t.heap new shot) new t.space >>= λ space.
    ok (record t { heap = written t.heap new shot; space = space })

-- The switch of getRandomCourse.
abbrev pub course : ℕ → ℤ → ℤ
course draw y = let n = draw % 3 in if n == 0 then y else if n == 1 then pos 0 -ℤ y else pos 0

-- The do-while of getRandomCourse, with random() as a stream; the first number bounds its rounds.
unfoldable pub get_random_course : ℕ → (ℕ → ℕ) → ℤ → ℤ → Result (ℤ × (ℕ → ℕ))
get_random_course zero draws x y = err out_of_fuel
get_random_course (suc fuel) draws x y =
    let ret = course (draws 0) y in
    let again = get_random_course fuel (rest_of draws) x y in
    if ret ==ℤ x then again else ok (ret, rest_of draws)

unfoldable pub shot_bound_bomb_ball : ℕ → (ℕ → ℕ) → Shot → Result (Shot × (ℕ → ℕ))
unfolding get_random_course
shot_bound_bomb_ball fuel draws shot =
    if not (shot.gun == gun_bombball)
    then ok (shot, draws)
    else (get_random_course fuel draws shot.px (pos 10) >>= λ (px, draws').
        get_random_course fuel draws' shot.py (pos 10) >>= λ (py, draws'').
        ok (record shot { px = px; py = py; is_can_kill_author = true }, draws''))

-- shot->w and shot->h by the switch of shot_transform_lasser.
abbrev pub turned : Shot → Shot
turned shot =
    let size = laser_size shot.position (shot.w, shot.h) in record shot { w = size.0; h = size.1 }

unfoldable pub shot_transform_lasser : ℕ → Shots → Result Shots
unfolding shot_kind laser_size
shot_transform_lasser shot s =
    let heap = written s.heap shot (turned (s.heap shot)) in
    space_get_object_id shot_kind s.space (s.heap shot).id >>= λ found. elim found [
      | none ↦ ok (record s { heap = heap })
      | some other ↦ space_del shot_kind s.heap shot s.space >>= λ space.
          space_add shot_kind heap shot space >>= λ space'.
          ok (record s { heap = heap; space = space' })
    ]
