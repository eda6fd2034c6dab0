-- ===== src/Csv/Generator/Fragments.antt =====
-- The two fields that take several rounds: a time and a location.
use cc_dey.Base.{
  ℕ, suc, ◌≡◌, refl, sym, ap, ◌∙◌, subst, ◌<◌, ◌^◌, Bool, true, false, ◌||◌, some, List, [], ◌∷◌,
  ◌++◌, append_assoc, Bytes, ℤ, nat_abs, ltb, ◌==◌, if◌then◌else◌, arith,
}
use cc_dey.Csv.{Buffer}
use cc_dey.Csv.Number.{Floats, IntInfo, init_int_info}
use cc_dey.Csv.Number.Print.{
  extend, extend-extend, extend-nil, Roomy, info_text, process_integer-Roomy,
  process_integer-int_text, int_text,
}
use cc_dey.Csv.Quoted.Print.{string_text}
use cc_dey.Csv.Point.{PointTime, Point, Stream}
use cc_dey.Csv.Machine.{
  Field, csv_time, csv_quality, TimeState, seconds, milliseconds, next_time, Process, Ran,
  start_fraction, start_integer, start_string, fraction_state, process_csv_time,
}
use cc_dey.Csv.Generator.{end_field, on_field, is_finished}
use cc_dey.Csv.Generator.Text.{time_text, TimeFits, milliseconds_text}
use cc_dey.Csv.Generator.Fields.{
  Scratch, at, Prints, end_field-Ends, nothing-Prints, integer-Prints, string-Prints,
}
use cc_dey.Csv.Generator.Rounds.{Reaches, reaches_trans, round, Goes}
use cc_dey.Csv.Generator.Fields.{Prints}

module _ (floats : Floats) (s : Stream floats) (later : List (Stream floats)) (x : Point floats)
    (rest : List (Point floats)) (spin max_dp n : ℕ)
    (live : (max_dp == 0 || ltb n max_dp) ≡ true) where
  -- Shorthands with the section's parameters.
  abbrev Step : ℕ → Process floats → Buffer → Process floats → Buffer → Type 0
  Step m p b p' b' = Reaches floats s later x rest spin max_dp n live m p b p' b'

  abbrev inner : Field → Bool → Scratch → Process floats
  inner f init g = at floats s later x rest f init g

  -- A round of a field that is not done with it.
  pub inside :
      (f next : Field) (init : Bool) (g : Scratch) (b : Buffer) (p' : Process floats) (b' : Buffer)
      (r : Ran floats)
      → is_finished floats f ≡ 0
      → on_field floats f (suc spin) x rest (inner f init g) b ≡ end_field floats next r
      → r ≡ some (false, (p', b'))
      → Step 1 (inner f init g) b p' b'
  unfolding end_field
  inside f next init g b p' b' r e field same =
      round floats s later x rest spin max_dp n live f init g b p' b' e
        (field ∙ ap (end_field floats next) same)

  -- A round of a field that ends it.
  pub closing :
      (f next : Field) (init : Bool) (g : Scratch) (b : Buffer) (text : Bytes) (r : Ran floats)
      → is_finished floats f ≡ 0
      → on_field floats f (suc spin) x rest (inner f init g) b ≡ end_field floats next r
      → Roomy b
      → Prints floats s later x rest r f text b
      → (g' : Scratch) × Step 1
          (inner f init g)
          b
          (inner next false g')
          (extend (text ++ b',' ∷ []) b)
  closing f next init g b text r e field h prints =
      let (g', same) = end_field-Ends floats s later x rest next f r text b h prints in
      (
        g',
        round floats s later x rest spin max_dp n live f init g b (inner next false g')
            (extend (text ++ b',' ∷ []) b) e (field ∙ same),
      )

  module _ (t : PointTime floats) (is_time : x.time ≡ t) where
    on_time :
        (init : Bool) (g : Scratch) (b : Buffer)
        → on_field floats csv_time (suc spin) x rest (inner csv_time init g) b
          ≡ end_field floats csv_quality (process_csv_time floats t (inner csv_time init g) b)
    unfolding on_field
    on_time init g b =
        ap (λ t. end_field floats csv_quality (process_csv_time floats t (inner csv_time init g) b))
          is_time

    time_once :
        (g : Scratch) (b : Buffer) (text : Bytes)
        → Roomy b
        → Prints floats s later x rest
            (process_csv_time floats t (inner csv_time false g) b)
            csv_time
            text
            b
        → Goes floats s later x rest spin max_dp n live 3 csv_time csv_quality
            (text ++ b',' ∷ [])
            g
            b
    unfolding is_finished
    time_once g b text h prints =
        let (g', u) =
          closing csv_time csv_quality false g b text
            (process_csv_time floats t (inner csv_time false g) b) refl (on_time false g b) h
            prints in
        let few = u.bounded in
        (g', record { rounds = u.rounds; bounded = omega arith; reaches = u.reaches })

  -- Seconds and milliseconds take a round each, and one more ends the field.
  module _ (whole ms : ℤ) (is_time : x.time ≡ PointTime.local_epoch_fractional whole ms) where
    abbrev tried : Process floats → Buffer → Ran floats
    tried p b = process_csv_time floats (PointTime.local_epoch_fractional whole ms) p b

    abbrev three_figures : IntInfo
    three_figures = record (init_int_info ms 10) { figures = 3 }

    abbrev on_milliseconds : Scratch → Scratch
    on_milliseconds g = record g { intg = three_figures; time = milliseconds }

    abbrev on_finish : Scratch → Scratch
    on_finish g = record g { intg = three_figures; time = TimeState.finish }

    first_round :
        (g : Scratch) (b : Buffer)
        → nat_abs whole < 2 ^ 64
        → Roomy b
        → tried (inner csv_time false g) b
          ≡ some (false, (inner csv_time true (on_milliseconds g), extend (int_text whole) b))
    unfolding process_csv_time start_fraction fraction_state next_time
    first_round g b small h =
        ap
          (λ r.
            if r.0
            then some (false, (inner csv_time true (on_milliseconds g), r.1.1))
            else some
                (false, (inner csv_time true (record g { intg = r.1.0; time = seconds }), r.1.1)))
          (process_integer-int_text whole b small h)

    second_round :
        (g : Scratch) (b : Buffer)
        → Roomy b
        → tried (inner csv_time true (on_milliseconds g)) b
          ≡ some
              (false, (inner csv_time true (on_finish g), extend (milliseconds_text floats ms) b))
    unfolding process_csv_time start_fraction fraction_state next_time milliseconds_text info_text
        init_int_info
    second_round g b h =
        ap
          (λ r.
            if r.0
            then some (false, (inner csv_time true (on_finish g), r.1.1))
            else some (
              false,
              (inner csv_time true (record g { intg = r.1.0; time = milliseconds }), r.1.1),
            ))
          (process_integer-Roomy three_figures b refl h)

    third_round :
        (g : Scratch) (b : Buffer)
        → Prints floats s later x rest (tried (inner csv_time true (on_finish g)) b) csv_time [] b
    unfolding process_csv_time start_fraction fraction_state
    third_round g b = (
      true,
      on_finish g,
      ap (λ y. some (true, (inner csv_time true (on_finish g), y))) (sym (extend-nil b)),
    )

    fraction-Goes :
        (g : Scratch) (b : Buffer)
        → nat_abs whole < 2 ^ 64
        → Roomy b
        → Goes floats s later x rest spin max_dp n live 3 csv_time csv_quality
            ((int_text whole ++ milliseconds_text floats ms) ++ b',' ∷ [])
            g
            b
    unfolding is_finished
    fraction-Goes g b small h =
        let b1 = extend (int_text whole) b in
        let b2 = extend (milliseconds_text floats ms) b1 in
        let on = on_time (PointTime.local_epoch_fractional whole ms) is_time in
        let one =
          inside csv_time csv_quality false g b (inner csv_time true (on_milliseconds g)) b1
            (tried (inner csv_time false g) b) refl (on false g b) (first_round g b small h) in
        let two =
          inside csv_time csv_quality true (on_milliseconds g) b1
            (inner csv_time true (on_finish g)) b2
            (tried (inner csv_time true (on_milliseconds g)) b1) refl
            (on true (on_milliseconds g) b1) (second_round g b1 h) in
        let (g', three) =
          closing csv_time csv_quality true (on_finish g) b2 []
            (tried (inner csv_time true (on_finish g)) b2) refl (on true (on_finish g) b2) h
            (third_round g b2) in
        (
          g',
          subst (λ y. Step 3 (inner csv_time false g) b (inner csv_quality false g') y)
              (extend-extend (milliseconds_text floats ms) (b',' ∷ []) b1
                ∙ extend-extend (int_text whole) (milliseconds_text floats ms ++ b',' ∷ []) b
                ∙ ap (λ l. extend l b)
                    (sym (append_assoc (int_text whole) (milliseconds_text floats ms) (b',' ∷ []))))
              (reaches_trans floats s later x rest spin max_dp n live
                (reaches_trans floats s later x rest spin max_dp n live one two) three),
        )

  pub time-Goes :
      (t : PointTime floats)
      → x.time ≡ t
      → (g : Scratch) (b : Buffer) → TimeFits floats t
      → Roomy b
      → Goes floats s later x rest spin max_dp n live 3 csv_time csv_quality
          (time_text floats t ++ b',' ∷ [])
          g
          b
  unfolding time_text process_csv_time start_integer start_string
  time-Goes PointTime.cloud e g b fits h =
      time_once PointTime.cloud e g b [] h (nothing-Prints floats s later x rest csv_time g b)
  time-Goes (PointTime.local_epoch_fractional whole ms) e g b fits h =
      fraction-Goes whole ms e g b fits h
  time-Goes (PointTime.local_epoch_whole ms) e g b fits h =
      time_once (PointTime.local_epoch_whole ms) e g b (int_text ms) h
        (integer-Prints floats s later x rest csv_time ms true g b fits h)
  time-Goes (PointTime.local_iso8601 t) e g b fits h =
      time_once (PointTime.local_iso8601 t) e g b (string_text t) h
        (string-Prints floats s later x rest csv_time t true g b h)
