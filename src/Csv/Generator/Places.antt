-- ===== src/Csv/Generator/Places.antt =====
-- The location, whose states print it piece by piece.
use cc_dey.Base.{
  ℕ, suc, ◌≡◌, refl, sym, ap, ◌∙◌, subst, Bool, true, false, ◌||◌, some, List, [], ◌∷◌, ◌++◌, Bytes,
  ltb, ◌==◌,
}
use cc_dey.Csv.{Buffer}
use cc_dey.Csv.Number.{Floats}
use cc_dey.Csv.Number.Print.{extend, extend-extend, extend-nil, Roomy, printed}
use cc_dey.Csv.Quoted.{quote}
use cc_dey.Csv.Point.{Point, Stream}
use cc_dey.Csv.Machine.{
  Field, csv_location, csv_type, LocationState, put_leading_quote, init_latitude, put_latitude,
  init_longitude, put_longitude, init_elevation, put_elevation, finish, Process, Ran,
  process_csv_location, next_location, put_location,
}
use cc_dey.Csv.Generator.{end_field, on_field, is_finished}
use cc_dey.Csv.Generator.Fields.{Scratch, at}
use cc_dey.Csv.Generator.Coordinates.{
  Coordinate, coordinate_text, Three, location_round, process_csv_location-round,
  process_csv_location-start, put_location-Roomy, put_coordinate-fill, fill, spend, to, here,
  put_coordinate,
}
use cc_dey.Csv.Generator.Rounds.{Reaches, reaches_trans}
use cc_dey.Csv.Generator.Fragments.{inside, closing}

module _ (floats : Floats) (s : Stream floats) (later : List (Stream floats)) (x : Point floats)
    (rest : List (Point floats)) (spin max_dp n : ℕ)
    (live : (max_dp == 0 || ltb n max_dp) ≡ true) where
  abbrev inner : Field → Bool → Scratch → Process floats
  inner f init g = at floats s later x rest f init g

  abbrev placed : LocationState → Scratch → Process floats
  placed l g = here floats s later x rest spin (to floats s later x rest spin l g)

  module _ {a o e : Coordinate floats}
      (three : Three floats s later x rest spin x.location a o e) where
    abbrev round_of : LocationState → Scratch → Buffer → Ran floats
    round_of l g b = location_round floats s later x rest spin a o e l g b

    on_location :
        (init : Bool) (g : Scratch) (b : Buffer)
        → on_field floats csv_location (suc spin) x rest (inner csv_location init g) b
          ≡ end_field floats csv_type
              (process_csv_location floats (suc spin) x.location (inner csv_location init g) b)
    unfolding on_field
    on_location init g b = refl

    step :
        (l l' : LocationState) (g g' : Scratch) (b b' : Buffer)
        → round_of l g b ≡ some (false, (placed l' g', b'))
        → Reaches floats s later x rest spin max_dp n live 1 (placed l g) b (placed l' g') b'
    unfolding is_finished
    step l l' g g' b b' same =
        inside floats s later x rest spin max_dp n live csv_location csv_type true
          (to floats s later x rest spin l g) b (placed l' g') b'
          (process_csv_location floats (suc spin) x.location (placed l g) b) refl
          (on_location true (to floats s later x rest spin l g) b)
          (process_csv_location-round floats s later x rest spin three l g b ∙ same)

    -- The characters: a quote or a comma.
    mark :
        (c : ℕ) (l : LocationState) (g : Scratch) (b : Buffer)
        → Roomy b
        → ((g : Scratch) (b : Buffer) → round_of l g b ≡ put_location floats c (placed l g) b)
        → Reaches floats s later x rest spin max_dp n live 1
            (placed l g)
            b
            (placed (next_location l) g)
            (extend (c ∷ []) b)
    mark c l g b h same =
        step l (next_location l) g g b (extend (c ∷ []) b)
          (same g b ∙ put_location-Roomy floats s later x rest spin c l g b h)

    -- A coordinate: it is loaded, and then printed.
    coordinate :
        (c : Coordinate floats) (l l' : LocationState) (g : Scratch) (b : Buffer)
        → Roomy b
        → ((g : Scratch) (b : Buffer)
            → round_of l g b ≡ some (false, (placed l' (fill floats s later x rest spin c g), b)))
        → ((g : Scratch) (b : Buffer)
            → round_of l' g b ≡ put_coordinate floats s later x rest spin c (placed l' g) b)
        → Reaches floats s later x rest spin max_dp n live 2
            (placed l g)
            b
            (placed (next_location l') (spend floats s later x rest spin c g))
            (extend (coordinate_text floats s later x rest spin c) b)
    coordinate c l l' g b h loaded printed =
        let g1 = fill floats s later x rest spin c g in
        let g2 = spend floats s later x rest spin c g in
        reaches_trans floats s later x rest spin max_dp n live (step l l' g g1 b b (loaded g b)) (
          step l' (next_location l') g1 g2 b
            (extend (coordinate_text floats s later x rest spin c) b)
            (printed g1 b ∙ put_coordinate-fill floats s later x rest spin c l' g b h))

    start :
        (g : Scratch) (b : Buffer)
        → Roomy b
        → Reaches floats s later x rest spin max_dp n live 1
            (inner csv_location false g)
            b
            (placed init_latitude g)
            (extend (quote ∷ []) b)
    unfolding location_round next_location is_finished
    start g b h =
        inside floats s later x rest spin max_dp n live csv_location csv_type false g b
          (placed init_latitude g) (extend (quote ∷ []) b)
          (process_csv_location floats (suc spin) x.location (inner csv_location false g) b) refl
          (on_location false g b)
          (process_csv_location-start floats s later x rest spin three g b
            ∙ put_location-Roomy floats s later x rest spin quote put_leading_quote g b h)

    done :
        (g : Scratch) (b : Buffer)
        → Roomy b
        → (g' : Scratch) × Reaches floats s later x rest spin max_dp n live 1
            (placed finish g)
            b
            (inner csv_type false g')
            (extend (b',' ∷ []) b)
    unfolding location_round is_finished
    done g b h =
        let g1 = to floats s later x rest spin finish g in
        closing floats s later x rest spin max_dp n live csv_location csv_type true g1 b []
          (process_csv_location floats (suc spin) x.location (placed finish g) b) refl
          (on_location true g1 b) h
          (
            true,
            g1,
            process_csv_location-round floats s later x rest spin three finish g b
                ∙ ap (λ y. some (true, (placed finish g, y))) (sym (extend-nil b)),
          )

    abbrev shown : Coordinate floats → Bytes
    shown c = coordinate_text floats s later x rest spin c

    abbrev emptied : Coordinate floats → Scratch → Scratch
    emptied c g = spend floats s later x rest spin c g

    -- A coordinate and the character behind it.
    marked :
        (c : Coordinate floats) (l l' : LocationState) (m : ℕ) (g : Scratch) (b : Buffer)
        → Roomy b
        → ((g : Scratch) (b : Buffer)
            → round_of l g b ≡ some (false, (placed l' (fill floats s later x rest spin c g), b)))
        → ((g : Scratch) (b : Buffer)
            → round_of l' g b ≡ put_coordinate floats s later x rest spin c (placed l' g) b)
        → ((g : Scratch) (b : Buffer)
            → round_of (next_location l') g b
              ≡ put_location floats m (placed (next_location l') g) b)
        → Reaches floats s later x rest spin max_dp n live 3
            (placed l g)
            b
            (placed (next_location (next_location l')) (emptied c g))
            (extend (shown c ++ m ∷ []) b)
    marked c l l' m g b h loaded printed put =
        let g' = emptied c g in
        subst
          (λ y.
            Reaches floats s later x rest spin max_dp n live 3 (placed l g) b
              (placed (next_location (next_location l')) g') y)
          (extend-extend (shown c) (m ∷ []) b)
          (reaches_trans floats s later x rest spin max_dp n live
            (coordinate c l l' g b h loaded printed)
            (mark m (next_location l') g' (extend (shown c) b) h put))

    pub located :
        (g : Scratch) (b : Buffer)
        → Roomy b
        → (g' : Scratch) × Reaches floats s later x rest spin max_dp n live 11
            (inner csv_location false g)
            b
            (inner csv_type false g')
            (extend (b',' ∷ []) (
              extend (shown e ++ quote ∷ []) (
                extend
                  (shown o ++ b',' ∷ [])
                  (extend (shown a ++ b',' ∷ []) (extend (quote ∷ []) b)))))
    unfolding location_round next_location
    located g b h =
        let b1 = extend (quote ∷ []) b in
        let b2 = extend (shown a ++ b',' ∷ []) b1 in
        let b3 = extend (shown o ++ b',' ∷ []) b2 in
        let b4 = extend (shown e ++ quote ∷ []) b3 in
        let g1 = emptied a g in
        let g2 = emptied o g1 in
        let g3 = emptied e g2 in
        let (g', last) = done g3 b4 h in
        (
          g',
          reaches_trans floats s later x rest spin max_dp n live
              (reaches_trans floats s later x rest spin max_dp n live
                (reaches_trans floats s later x rest spin max_dp n live
                  (reaches_trans floats s later x rest spin max_dp n live (start g b h) (
                    marked a init_latitude put_latitude b',' g b1 h (λ g b. refl) (λ g b. refl)
                      (λ g b. refl)))
                  (marked o init_longitude put_longitude b',' g1 b2 h (λ g b. refl) (λ g b. refl)
                    (λ g b. refl)))
                (marked e init_elevation put_elevation quote g2 b3 h (λ g b. refl) (λ g b. refl)
                  (λ g b. refl)))
              last,
        )
