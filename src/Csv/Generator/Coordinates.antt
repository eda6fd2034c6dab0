-- ===== src/Csv/Generator/Coordinates.antt =====
-- The states of a location: a round of the loop for each.
use cc_dey.Base.{
  ℕ, suc, ◌≡◌, refl, ap, true, false, Option, some, List, [], ◌∷◌, Bytes, if◌then◌else◌,
}
use cc_dey.Csv.{Buffer}
use cc_dey.Csv.Number.{Floats, init_double_info}
use cc_dey.Csv.Number.Print.{extend, Roomy, put_character-Roomy, double_text}
use cc_dey.Csv.Quoted.{init_string_info, quote}
use cc_dey.Csv.Quoted.Print.{enclosed, final_info, process_string-Roomy}
use cc_dey.Csv.Point.{Location, Point, Stream}
use cc_dey.Csv.Machine.{
  csv_location, LocationState, put_leading_quote, init_latitude, put_latitude, put_1st_comma,
  init_longitude, put_longitude, put_2nd_comma, init_elevation, put_elevation, put_trailing_quote,
  finish, next_location, Process, Ran, run_string, run_double, put_location, advance_location,
  init_coordinate, init_coordinate_text, after_coordinate, location_native, location_text,
  start_location, process_csv_location,
}
use cc_dey.Csv.Generator.Fields.{Scratch, at, double_done, double-printed}

-- A coordinate of either kind.
pub data Coordinate (floats : Floats) : Type 0 where
  number : floats.F → Coordinate floats
  words : Option Bytes → Coordinate floats

module _ (floats : Floats) (s : Stream floats) (later : List (Stream floats)) (x : Point floats)
    (rest : List (Point floats)) (spin : ℕ) where
  unfoldable pub fill : Coordinate floats → Scratch → Scratch
  fill (number v) g = record g { dbl = init_double_info floats v }
  fill (words t) g = record g { str = record (init_string_info t) { quotes_needed = false } }

  unfoldable pub spend : Coordinate floats → Scratch → Scratch
  spend (number v) g = record g { dbl = double_done floats s later x rest v }
  spend (words t) g = record g { str = final_info false t }

  unfoldable pub coordinate_text : Coordinate floats → Bytes
  coordinate_text (number v) = double_text (init_double_info floats v)
  coordinate_text (words t) = enclosed false t

  abbrev pub here : Scratch → Process floats
  here g = at floats s later x rest csv_location true g

  unfoldable pub put_coordinate : Coordinate floats → Process floats → Buffer → Ran floats
  put_coordinate (number v) p b = after_coordinate floats (run_double floats (suc spin) p b)
  put_coordinate (words t) p b = after_coordinate floats (run_string floats p b)

  abbrev pub to : LocationState → Scratch → Scratch
  to l g = record g { location = l }

  pub put_coordinate-fill :
      (c : Coordinate floats) (l : LocationState) (g : Scratch) (b : Buffer)
      → Roomy b
      → put_coordinate c (here (to l (fill c g))) b
        ≡ some (false, (here (to (next_location l) (spend c g)), extend (coordinate_text c) b))
  unfolding put_coordinate fill spend coordinate_text after_coordinate run_string
  put_coordinate-fill (number v) l g b h = ap (after_coordinate floats) (
      double-printed floats s later x rest csv_location spin v true (record g { location = l }) b h)
  put_coordinate-fill (words t) l g b h =
      ap
        (λ r. after_coordinate floats (
          some (
            r.0,
            (
              at floats s later x rest csv_location true (record g { location = l; str = r.1.0 }),
              r.1.1,
            ),
          )))
        (process_string-Roomy t false b h)

  pub put_location-Roomy :
      (c : ℕ) (l : LocationState) (g : Scratch) (b : Buffer)
      → Roomy b
      → put_location floats c (here (to l g)) b
        ≡ some (false, (here (to (next_location l) g), extend (c ∷ []) b))
  unfolding put_location
  put_location-Roomy c l g b h =
      ap
        (λ w.
          if w.0
          then some (false, (here (to (next_location l) g), w.1))
          else some (true, (here (to l g), w.1)))
        (put_character-Roomy c b h)

  -- The rounds for three coordinates.
  unfoldable pub location_round :
      Coordinate floats
      → Coordinate floats
      → Coordinate floats
      → LocationState
      → Scratch
      → Buffer
      → Ran floats
  location_round a o e put_leading_quote g b =
      put_location floats quote (here (to put_leading_quote g)) b
  location_round a o e init_latitude g b = some (false, (here (to put_latitude (fill a g)), b))
  location_round a o e put_latitude g b = put_coordinate a (here (to put_latitude g)) b
  location_round a o e put_1st_comma g b = put_location floats b',' (here (to put_1st_comma g)) b
  location_round a o e init_longitude g b = some (false, (here (to put_longitude (fill o g)), b))
  location_round a o e put_longitude g b = put_coordinate o (here (to put_longitude g)) b
  location_round a o e put_2nd_comma g b = put_location floats b',' (here (to put_2nd_comma g)) b
  location_round a o e init_elevation g b = some (false, (here (to put_elevation (fill e g)), b))
  location_round a o e put_elevation g b = put_coordinate e (here (to put_elevation g)) b
  location_round a o e put_trailing_quote g b =
      put_location floats quote (here (to put_trailing_quote g)) b
  location_round a o e finish g b = some (true, (here (to finish g), b))

  -- A location with its three coordinates.
  pub data Three
      : Location floats → Coordinate floats → Coordinate floats → Coordinate floats → Type 0 where
    numbers : (a o e : floats.F) → Three (Location.native a o e) (number a) (number o) (number e)
    texts : (a o e : Option Bytes) → Three (Location.text a o e) (words a) (words o) (words e)

  location_native-round :
      (a o e : floats.F) (l : LocationState) (g : Scratch) (b : Buffer)
      → location_native floats l (suc spin) a o e (here (to l g)) b
        ≡ location_round (number a) (number o) (number e) l g b
  unfolding location_native location_round put_coordinate fill advance_location init_coordinate
      next_location
  location_native-round a o e put_leading_quote g b = refl
  location_native-round a o e _ g b = refl

  location_text-round :
      (a o e : Option Bytes) (l : LocationState) (g : Scratch) (b : Buffer)
      → location_text floats l a o e (here (to l g)) b
        ≡ location_round (words a) (words o) (words e) l g b
  unfolding location_text location_round put_coordinate fill advance_location init_coordinate_text
      next_location
  location_text-round a o e put_leading_quote g b = refl
  location_text-round a o e _ g b = refl

  pub process_csv_location-round :
      {p : Location floats} {a o e : Coordinate floats}
      → Three p a o e
      → (l : LocationState) (g : Scratch) (b : Buffer)
      → process_csv_location floats (suc spin) p (here (to l g)) b ≡ location_round a o e l g b
  unfolding process_csv_location start_location
  process_csv_location-round (numbers a o e) l g b = location_native-round a o e l g b
  process_csv_location-round (texts a o e) l g b = location_text-round a o e l g b

  pub process_csv_location-start :
      {p : Location floats} {a o e : Coordinate floats}
      → Three p a o e
      → (g : Scratch) (b : Buffer)
      → process_csv_location floats (suc spin) p (at floats s later x rest csv_location false g) b
        ≡ location_round a o e put_leading_quote g b
  unfolding process_csv_location start_location
  process_csv_location-start (numbers a o e) g b = location_native-round a o e put_leading_quote g b
  process_csv_location-start (texts a o e) g b = location_text-round a o e put_leading_quote g b
