-- ===== src/Csv/Generator/Triple.antt =====
-- The location as one field: what its states print is one text.
use cc_dey.Base.{
  ℕ, suc, ◌≡◌, refl, sym, ap, ◌∙◌, subst, Bool, true, false, ◌||◌, List, [], ◌∷◌, ◌++◌,
  append_assoc, Bytes, ltb, ◌==◌, arith,
}
use cc_dey.Csv.{Buffer}
use cc_dey.Csv.Number.{Floats}
use cc_dey.Csv.Number.Print.{extend, extend-extend, Roomy}
use cc_dey.Csv.Quoted.{quote}
use cc_dey.Csv.Point.{Location, Point, Stream}
use cc_dey.Csv.Machine.{Field, csv_location, csv_type, Process, process_csv_location}
use cc_dey.Csv.Generator.{end_field, on_field, is_finished}
use cc_dey.Csv.Generator.Text.{location_text_of, triple_text}
use cc_dey.Csv.Generator.Fields.{Scratch, at}
use cc_dey.Csv.Generator.Coordinates.{
  Coordinate, number, words, coordinate_text, Three, numbers, texts,
}
use cc_dey.Csv.Generator.Fields.{nothing-Prints}
use cc_dey.Csv.Generator.Rounds.{Reaches, Goes}
use cc_dey.Csv.Generator.Fragments.{closing}
use cc_dey.Csv.Generator.Places.{located}

module _ (floats : Floats) (s : Stream floats) (later : List (Stream floats)) (x : Point floats)
    (rest : List (Point floats)) (spin max_dp n : ℕ)
    (live : (max_dp == 0 || ltb n max_dp) ≡ true) where
  abbrev inner : Field → Bool → Scratch → Process floats
  inner f init g = at floats s later x rest f init g

  -- The five pieces of a location are one text.
  triple-pieces :
      (u v w : Bytes) (b : Buffer)
      → extend (b',' ∷ []) (
          extend
            (w ++ quote ∷ [])
            (extend (v ++ b',' ∷ []) (extend (u ++ b',' ∷ []) (extend (quote ∷ []) b))))
        ≡ extend (triple_text floats u v w ++ b',' ∷ []) b
  unfolding triple_text
  triple-pieces u v w b =
      let b1 = extend (quote ∷ []) b in
      let b2 = extend (u ++ b',' ∷ []) b1 in
      let b3 = extend (v ++ b',' ∷ []) b2 in
      let end = (w ++ quote ∷ []) ++ b',' ∷ [] in
      extend-extend (w ++ quote ∷ []) (b',' ∷ []) b3
      ∙ extend-extend (v ++ b',' ∷ []) end b2
      ∙ extend-extend (u ++ b',' ∷ []) ((v ++ b',' ∷ []) ++ end) b1
      ∙ extend-extend (quote ∷ []) ((u ++ b',' ∷ []) ++ ((v ++ b',' ∷ []) ++ end)) b
      ∙ ap (λ l. extend (quote ∷ l) b)
          (append_assoc u (b',' ∷ []) ((v ++ b',' ∷ []) ++ end)
            ∙ ap (λ l. u ++ (b',' ∷ l))
                (append_assoc v (b',' ∷ []) end
                  ∙ sym (append_assoc v (b',' ∷ (w ++ quote ∷ [])) (b',' ∷ [])))
            ∙ sym (append_assoc u (b',' ∷ (v ++ b',' ∷ (w ++ quote ∷ []))) (b',' ∷ [])))

  Three-Goes :
      {a o e : Coordinate floats}
      → Three floats s later x rest spin x.location a o e
      → (g : Scratch) (b : Buffer) → Roomy b
      → Goes floats s later x rest spin max_dp n live 11 csv_location csv_type
          (triple_text floats
              (coordinate_text floats s later x rest spin a)
              (coordinate_text floats s later x rest spin o)
              (coordinate_text floats s later x rest spin e)
            ++ b',' ∷ [])
          g
          b
  Three-Goes {a = a} {o = o} {e = e} three g b h =
      let (g', all) = located floats s later x rest spin max_dp n live three g b h in
      (
        g',
        subst
            (λ y.
              Reaches floats s later x rest spin max_dp n live 11 (inner csv_location false g) b
                (inner csv_type false g') y)
            (triple-pieces (coordinate_text floats s later x rest spin a)
              (coordinate_text floats s later x rest spin o)
              (coordinate_text floats s later x rest spin e) b)
            all,
      )

  pub location-Goes :
      (q : Location floats)
      → x.location ≡ q
      → (g : Scratch) (b : Buffer) → Roomy b
      → Goes floats s later x rest spin max_dp n live 11 csv_location csv_type
          (location_text_of floats q ++ b',' ∷ [])
          g
          b
  unfolding location_text_of process_csv_location on_field is_finished coordinate_text
  location-Goes Location.ignore same g b h =
      let (g', u) =
        closing floats s later x rest spin max_dp n live csv_location csv_type false g b []
          (process_csv_location floats (suc spin) Location.ignore (inner csv_location false g) b)
          refl
          (ap
            (λ q.
              end_field floats csv_type
                (process_csv_location floats (suc spin) q (inner csv_location false g) b))
            same)
          h (nothing-Prints floats s later x rest csv_location g b) in
      let few = u.bounded in
      (g', record { rounds = u.rounds; bounded = omega arith; reaches = u.reaches })
  location-Goes (Location.text a o e) same g b h =
      Three-Goes
        (subst (λ q. Three floats s later x rest spin q (words a) (words o) (words e)) (sym same)
          (texts a o e))
        g b h
  location-Goes (Location.native a o e) same g b h =
      Three-Goes
        (subst (λ q. Three floats s later x rest spin q (number a) (number o) (number e)) (sym same)
          (numbers a o e))
        g b h
