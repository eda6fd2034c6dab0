-- ===== src/Csv/Generator/Line.antt =====
-- A point is written as its line, and the generator goes on to the next one.
use cc_dey.Base.{
  ℕ, suc, ◌+◌, ◌≡◌, refl, ap, ◌∙◌, ◌≤◌, Bool, true, false, ◌||◌, Option, none, some, List, [], ◌∷◌,
  ◌++◌, append_assoc, Bytes, ltb, ◌==◌, arith,
}
use cc_dey.Csv.{Buffer}
use cc_dey.Csv.Number.{Floats}
use cc_dey.Csv.Number.Print.{extend, extend-extend, Roomy, put_character-Roomy}
use cc_dey.Csv.Quoted.Print.{string_text}
use cc_dey.Csv.Point.{Point, Stream}
use cc_dey.Csv.Machine.{
  Field, csv_data, csv_time, csv_quality, csv_description, csv_location, csv_type, csv_unit,
  csv_forward_to, csv_stream_id, csv_finished, Process, Ran, start_string, type_name,
  process_csv_data, process_csv_quality, start_string,
}
use cc_dey.Csv.Generator.{
  end_field, on_field, end_line, next_point, is_finished, generate_dp_csv, end_string_field,
  string_field,
}
use cc_dey.Csv.Generator.Text.{
  time_text, DataFits, QualityFits, location_text_of, line_text, Fits, then_comma, data_text,
  quality_text,
}
use cc_dey.Csv.Generator.Fields.{
  Scratch, at, end_field-Ends, string_field-Ends, data-Prints, quality-Prints, string-Prints,
}
use cc_dey.Csv.Generator.Rounds.{Goes, Goes-Ends, Goes-then_comma, run}
use cc_dey.Csv.Generator.Fragments.{time-Goes}
use cc_dey.Csv.Generator.Triple.{location-Goes}

module _ (floats : Floats) (s : Stream floats) (later : List (Stream floats)) (x : Point floats)
    (rest : List (Point floats)) (spin max_dp n : ℕ)
    (live : (max_dp == 0 || ltb n max_dp) ≡ true) where
  abbrev inner : Field → Bool → Scratch → Process floats
  inner f init g = at floats s later x rest f init g

  abbrev Passes : ℕ → Field → Field → Bytes → Scratch → Buffer → Type 0
  Passes m f next text g b = Goes floats s later x rest spin max_dp n live m f next text g b

  data_goes :
      (g : Scratch) (b : Buffer)
      → DataFits floats s.type x.element
      → Roomy b
      → Passes 1 csv_data csv_time (data_text floats s.type x.element ++ b',' ∷ []) g b
  unfolding on_field is_finished
  data_goes g b fits h =
      Goes-Ends floats s later x rest spin max_dp n live csv_data csv_time
        (data_text floats s.type x.element ++ b',' ∷ []) g b refl
        (end_field-Ends floats s later x rest csv_time csv_data
          (process_csv_data floats (suc spin) x.element (inner csv_data false g) b)
          (data_text floats s.type x.element) b h
          (data-Prints floats s later x rest x.element spin g b fits h))

  quality_goes :
      (g : Scratch) (b : Buffer)
      → QualityFits floats x.quality
      → Roomy b
      → Passes 1 csv_quality csv_description (quality_text floats x.quality ++ b',' ∷ []) g b
  unfolding on_field is_finished
  quality_goes g b fits h =
      Goes-Ends floats s later x rest spin max_dp n live csv_quality csv_description
        (quality_text floats x.quality ++ b',' ∷ []) g b refl
        (end_field-Ends floats s later x rest csv_description csv_quality
          (process_csv_quality floats x.quality (inner csv_quality false g) b)
          (quality_text floats x.quality) b h
          (quality-Prints floats s later x rest x.quality g b fits h))

  string_goes :
      (f next : Field) (t : Option Bytes) (g : Scratch) (b : Buffer)
      → is_finished floats f ≡ 0
      → on_field floats f (suc spin) x rest (inner f false g) b
        ≡ string_field floats next t (inner f false g) b
      → ((r : Ran floats) → end_string_field floats next r ≡ end_field floats next r)
      → Roomy b
      → Passes 1 f next (string_text t ++ b',' ∷ []) g b
  string_goes f next t g b e field plain h =
      let (g', same) = string_field-Ends floats s later x rest f next t g b plain h in
      Goes-Ends floats s later x rest spin max_dp n live f next (string_text t ++ b',' ∷ []) g b e
        (g', field ∙ same)

  plain :
      (next : Field)
      → is_finished floats next ≡ 0
      → (r : Ran floats) → end_string_field floats next r ≡ end_field floats next r
  unfolding end_string_field end_field is_finished
  plain csv_finished e r = absurd (omega arith)
  plain _ e none = refl
  plain _ e (some (done, (p, b))) = refl

  room : {f f' : ℕ → Bool} → ((m : ℕ) → f m ≡ true) → f' ≡ f → (m : ℕ) → f' m ≡ true
  room h e m = ap (λ f. f m) e ∙ h m

  -- The last field has no comma.
  id_goes :
      (g : Scratch) (b : Buffer)
      → Roomy b
      → Passes 1 csv_stream_id csv_finished (string_text s.stream_id) g b
  unfolding on_field is_finished string_field start_string end_string_field
  id_goes g b h =
      let (init, g', same) =
        string-Prints floats s later x rest csv_stream_id s.stream_id true g b h in
      Goes-Ends floats s later x rest spin max_dp n live csv_stream_id csv_finished
        (string_text s.stream_id) g b refl (g', ap (end_string_field floats csv_finished) same)

  -- The fields from the type on.
  stream_fields_text : Bytes
  stream_fields_text = then_comma floats (string_text (some (type_name s.type))) (
      then_comma floats (string_text s.unit)
        (then_comma floats (string_text s.forward_to) (string_text s.stream_id)))

  stream_fields_go :
      (g : Scratch) (b : Buffer) → Roomy b → Passes 4 csv_type csv_finished stream_fields_text g b
  unfolding on_field is_finished end_string_field end_field stream_fields_text
  stream_fields_go g b h =
      Goes-then_comma floats s later x rest spin max_dp n live
        (string_text (some (type_name s.type)))
        (then_comma floats (string_text s.unit)
          (then_comma floats (string_text s.forward_to) (string_text s.stream_id)))
        (string_goes csv_type csv_unit (some (type_name s.type)) g b refl refl (plain csv_unit refl)
          h)
        (λ g1 b1 e1.
          Goes-then_comma floats s later x rest spin max_dp n live (string_text s.unit)
            (then_comma floats (string_text s.forward_to) (string_text s.stream_id))
            (string_goes csv_unit csv_forward_to s.unit g1 b1 refl refl (plain csv_forward_to refl)
              (room h e1))
            (λ g2 b2 e2.
              Goes-then_comma floats s later x rest spin max_dp n live (string_text s.forward_to)
                (string_text s.stream_id)
                (string_goes csv_forward_to csv_stream_id s.forward_to g2 b2 refl refl
                  (plain csv_stream_id refl) (room h (e2 ∙ e1)))
                (λ g3 b3 e3. id_goes g3 b3 (room h (e3 ∙ (e2 ∙ e1))))))

  behind_quality :
      (g : Scratch) (b : Buffer)
      → Roomy b
      → Passes 16 csv_description csv_finished
          (then_comma floats
            (string_text x.description)
            (then_comma floats (location_text_of floats x.location) stream_fields_text))
          g
          b
  unfolding on_field is_finished
  behind_quality g b h =
      Goes-then_comma floats s later x rest spin max_dp n live (string_text x.description)
        (then_comma floats (location_text_of floats x.location) stream_fields_text)
        (string_goes csv_description csv_location x.description g b refl refl
          (plain csv_location refl) h)
        (λ g1 b1 e1.
          Goes-then_comma floats s later x rest spin max_dp n live
            (location_text_of floats x.location) stream_fields_text
            (location-Goes floats s later x rest spin max_dp n live x.location refl g1 b1
              (room h e1))
            (λ g2 b2 e2. stream_fields_go g2 b2 (room h (e2 ∙ e1))))

  -- The fields up to the newline.
  fields_text : Bytes
  fields_text = then_comma floats (data_text floats s.type x.element) (
      then_comma floats (time_text floats x.time) (
        then_comma floats (quality_text floats x.quality) (
          then_comma floats (string_text x.description)
            (then_comma floats (location_text_of floats x.location) stream_fields_text))))

  fields_go :
      (g : Scratch) (b : Buffer)
      → Fits floats s.type x
      → Roomy b
      → Passes 21 csv_data csv_finished fields_text g b
  unfolding on_field is_finished fields_text
  fields_go g b (fits_data, fits_time, fits_quality) h =
      Goes-then_comma floats s later x rest spin max_dp n live (data_text floats s.type x.element)
        (then_comma floats (time_text floats x.time) (
          then_comma floats (quality_text floats x.quality) (
            then_comma floats (string_text x.description)
              (then_comma floats (location_text_of floats x.location) stream_fields_text))))
        (data_goes g b fits_data h)
        (λ g1 b1 e1.
          Goes-then_comma floats s later x rest spin max_dp n live (time_text floats x.time)
            (then_comma floats (quality_text floats x.quality) (
              then_comma floats (string_text x.description)
                (then_comma floats (location_text_of floats x.location) stream_fields_text)))
            (time-Goes floats s later x rest spin max_dp n live x.time refl g1 b1 fits_time
              (room h e1))
            (λ g2 b2 e2.
              Goes-then_comma floats s later x rest spin max_dp n live
                (quality_text floats x.quality)
                (then_comma floats (string_text x.description)
                  (then_comma floats (location_text_of floats x.location) stream_fields_text))
                (quality_goes g2 b2 fits_quality (room h (e2 ∙ e1)))
                (λ g3 b3 e3. behind_quality g3 b3 (room h (e3 ∙ (e2 ∙ e1))))))

  comma-append : (t u v : Bytes) → then_comma floats t u ++ v ≡ then_comma floats t (u ++ v)
  unfolding then_comma
  comma-append t u v = append_assoc t (b',' ∷ u) v

  fields_text-newline : fields_text ++ b'\n' ∷ [] ≡ line_text floats s x
  unfolding fields_text stream_fields_text line_text
  fields_text-newline = simp comma-append

  -- The point is written as its line and counted, in at most 22 rounds.
  pub point_goes :
      (g : Scratch) (b : Buffer)
      → Fits floats s.type x
      → Roomy b
      → (g' : Scratch) × (k : ℕ) × (k ≤ 22)
        × ((fuel : ℕ)
            → generate_dp_csv floats (k + fuel) (suc spin) max_dp n (inner csv_data false g) b
              ≡ generate_dp_csv floats fuel
                  (suc spin)
                  max_dp
                  (n + 1)
                  (next_point floats rest later (inner csv_finished false g'))
                  (extend (line_text floats s x) b))
  unfolding generate_dp_csv on_field end_line is_finished
  point_goes g b fits h =
      let (g', u) = fields_go g b fits h in
      let few = u.bounded in
      (
        g',
        suc u.rounds,
        omega arith,
        λ fuel.
            (let order : suc u.rounds + fuel ≡ u.rounds + suc fuel = omega arith in
              ap (λ m. run floats s later x rest spin max_dp n live m (inner csv_data false g) b)
                order)
            ∙ u.reaches (suc fuel)
            ∙ rw (live, generate_dp_csv, put_character-Roomy b'\n' (extend fields_text b) h)
                (ap
                  (λ y.
                    generate_dp_csv floats fuel (suc spin) max_dp (n + 1)
                      (next_point floats rest later (inner csv_finished false g')) y)
                  (extend-extend fields_text (b'\n' ∷ []) b
                    ∙ ap (λ l. extend l b) fields_text-newline)),
      )
