-- ===== src/Csv/Generator/Fields.antt =====
-- Each field of the state machine, with room in the heap: what it prints, in how many rounds.
use cc_dey.Base.{
  ℕ, suc, ◌≡◌, refl, sym, ap, ◌∙◌, Bool, true, false, Option, none, some, List, [], ◌∷◌, ◌++◌,
  Bytes, ℤ, nat_abs, if◌then◌else◌, arith, ◌<◌, ◌^◌,
}
use cc_dey.Csv.{Buffer}
use cc_dey.Csv.Number.{Floats, IntInfo, DoubleInfo, init_int_info, init_double_info}
use cc_dey.Csv.Number.Print.{
  extend, extend-extend, extend-nil, Roomy, put_character-Roomy, printed, process_integer-int_text,
  int_text, double_text, process_double-Roomy,
}
use cc_dey.Csv.Quoted.{StringInfo, string_needs_quotes, init_string_info}
use cc_dey.Csv.Quoted.Print.{string_text, final_info, process_string-string_text}
use cc_dey.Csv.Point.{
  PointType, integer, long, float, double, string, binary, json, geojson, Native, PointData,
  Quality, Point, Stream,
}
use cc_dey.Csv.Machine.{
  Field, csv_data, csv_quality, LocationState, TimeState, Process, Ran, run_integer, run_string,
  run_double, init_native, init_data, run_native, run_data, process_csv_data, process_csv_quality,
  start_string, start_integer,
}
use cc_dey.Csv.Generator.{
  Round, going, broken, terminate_csv_field, end_field, string_field, end_string_field,
}
use cc_dey.Csv.Generator.Text.{data_text, native_text, DataFits, quality_text, QualityFits}

-- The members of the state that are left over from earlier fields.
pub record Scratch : Type 0 where
  pub intg : IntInfo
  pub dbl : DoubleInfo
  pub str : StringInfo
  pub location : LocationState
  pub time : TimeState

module _ (floats : Floats) (s : Stream floats) (later : List (Stream floats)) (x : Point floats)
    (rest : List (Point floats)) where
  -- The state at a field of the point `x`.
  abbrev pub at : Field → Bool → Scratch → Process floats
  at f init g = record {
    stream = s;
    later = later;
    points = x ∷ rest;
    field = f;
    init = init;
    intg = g.intg;
    dbl = g.dbl;
    str = g.str;
    location = g.location;
    time = g.time;
  }

  -- A field function that is done, and has printed `text`.
  abbrev pub Prints : Ran floats → Field → Bytes → Buffer → Type 0
  Prints r f text b =
      (init : Bool) × (g' : Scratch) × (r ≡ some (true, (at f init g', extend text b)))

  pub integer-Prints :
      (f : Field) (z : ℤ) (init : Bool) (g : Scratch) (b : Buffer)
      → nat_abs z < 2 ^ 64
      → Roomy b
      → Prints
          (run_integer floats (at f init (record g { intg = init_int_info z 10 })) b)
          f
          (int_text z)
          b
  unfolding run_integer
  integer-Prints f z init g b small h = (
    init,
    record g { intg = printed (init_int_info z 10) },
    ap (λ r. some (r.0, (at f init (record g { intg = r.1.0 }), r.1.1)))
        (process_integer-int_text z b small h),
  )

  pub string-Prints :
      (f : Field) (t : Option Bytes) (init : Bool) (g : Scratch) (b : Buffer)
      → Roomy b
      → Prints
          (run_string floats (at f init (record g { str = init_string_info t })) b)
          f
          (string_text t)
          b
  unfolding run_string
  string-Prints f t init g b h = (
    init,
    record g { str = final_info (string_needs_quotes t) t },
    ap (λ r. some (r.0, (at f init (record g { str = r.1.0 }), r.1.1)))
        (process_string-string_text t b h),
  )

  abbrev pub double_done : floats.F → DoubleInfo
  double_done v =
      let d = init_double_info floats v in
      record { integer = printed d.integer; fractional = printed d.fractional; point_set = true }

  pub double-printed :
      (f : Field) (spin : ℕ) (v : floats.F) (init : Bool) (g : Scratch) (b : Buffer)
      → Roomy b
      → run_double floats (suc spin) (at f init (record g { dbl = init_double_info floats v })) b
        ≡ some (
          true,
          (
            at f init (record g { dbl = double_done v }),
            extend (double_text (init_double_info floats v)) b,
          ),
        )
  unfolding run_double init_double_info init_int_info
  double-printed f spin v init g b h =
      let d = init_double_info floats v in
      ap
        (λ o. elim o as (λ _. Ran floats) [
          | none ↦ none
          | some r ↦ some (r.0, (at f init (record g { dbl = r.1.0 }), r.1.1))
        ])
        (process_double-Roomy d.integer d.fractional (ground arith) refl b h spin)

  double-Prints :
      (f : Field) (spin : ℕ) (v : floats.F) (init : Bool) (g : Scratch) (b : Buffer)
      → Roomy b
      → Prints
          (run_double floats
            (suc spin)
            (at f init (record g { dbl = init_double_info floats v }))
            b)
          f
          (double_text (init_double_info floats v))
          b
  double-Prints f spin v init g b h =
      (init, record g { dbl = double_done v }, double-printed f spin v init g b h)

  native-Prints :
      (type : PointType) (spin : ℕ) (n : Native floats) (g : Scratch) (b : Buffer)
      → DataFits floats type (PointData.native n)
      → Roomy b
      → Prints
          (run_native floats type (suc spin) (init_native floats type n (at csv_data true g)) b)
          csv_data
          (native_text floats type n)
          b
  unfolding run_native init_native native_text
  native-Prints integer spin n g b fits h = integer-Prints csv_data n.int_value true g b fits h
  native-Prints long spin n g b fits h = integer-Prints csv_data n.long_value true g b fits h
  native-Prints float spin n g b fits h = double-Prints csv_data spin n.float_value true g b h
  native-Prints double spin n g b fits h = double-Prints csv_data spin n.double_value true g b h
  native-Prints string spin n g b fits h = string-Prints csv_data n.string_value true g b h
  native-Prints binary spin n g b fits h = string-Prints csv_data n.string_value true g b h
  native-Prints json spin n g b fits h = string-Prints csv_data n.string_value true g b h
  native-Prints geojson spin n g b fits h = string-Prints csv_data n.string_value true g b h

  pub data-Prints :
      (d : PointData floats) (spin : ℕ) (g : Scratch) (b : Buffer)
      → DataFits floats s.type d
      → Roomy b
      → Prints
          (process_csv_data floats (suc spin) d (at csv_data false g) b)
          csv_data
          (data_text floats s.type d)
          b
  unfolding process_csv_data run_data init_data data_text
  data-Prints (PointData.text t) spin g b fits h = string-Prints csv_data t true g b h
  data-Prints (PointData.native n) spin g b fits h = native-Prints s.type spin n g b fits h

  pub nothing-Prints :
      (f : Field) (g : Scratch) (b : Buffer) → Prints (some (true, (at f false g, b))) f [] b
  nothing-Prints f g b = (false, g, ap (λ y. some (true, (at f false g, y))) (sym (extend-nil b)))

  pub quality-Prints :
      (q : Quality floats) (g : Scratch) (b : Buffer)
      → QualityFits floats q
      → Roomy b
      → Prints
          (process_csv_quality floats q (at csv_quality false g) b)
          csv_quality
          (quality_text floats q)
          b
  unfolding process_csv_quality start_integer quality_text
  quality-Prints Quality.ignore g b fits h = nothing-Prints csv_quality g b
  quality-Prints (Quality.native z) g b fits h = integer-Prints csv_quality z true g b fits h

  -- A field that is done is followed by a comma, and the next one begins.
  abbrev pub Ends : Round floats → Field → Bytes → Buffer → Type 0
  Ends r next text b = (g' : Scratch) × (r ≡ going (at next false g') (extend text b))

  pub terminate-Ends :
      (next f : Field) (init : Bool) (g : Scratch) (text : Bytes) (b : Buffer)
      → Roomy b
      → terminate_csv_field floats next (at f init g) (extend text b)
        ≡ going (at next false g) (extend (text ++ b',' ∷ []) b)
  unfolding terminate_csv_field
  terminate-Ends next f init g text b h =
      ap (λ w. if w.0 then going (at next false g) w.1 else broken)
        (put_character-Roomy b',' (extend text b) h)
      ∙ ap (going (at next false g)) (extend-extend text (b',' ∷ []) b)

  pub end_field-Ends :
      (next f : Field) (r : Ran floats) (text : Bytes) (b : Buffer)
      → Roomy b
      → Prints r f text b
      → Ends (end_field floats next r) next (text ++ b',' ∷ []) b
  unfolding end_field
  end_field-Ends next f r text b h (init, g, e) =
      (g, ap (end_field floats next) e ∙ terminate-Ends next f init g text b h)

  -- The fields that are strings, but for the last one.
  pub string_field-Ends :
      (f next : Field) (t : Option Bytes) (g : Scratch) (b : Buffer)
      → ((r : Ran floats) → end_string_field floats next r ≡ end_field floats next r)
      → Roomy b
      → Ends (string_field floats next t (at f false g) b) next (string_text t ++ b',' ∷ []) b
  unfolding string_field start_string
  string_field-Ends f next t g b e h =
      let (g', run) =
        end_field-Ends next f
          (run_string floats (at f true (record g { str = init_string_info t })) b) (string_text t)
          b h (string-Prints f t true g b h) in
      (g', e (run_string floats (at f true (record g { str = init_string_info t })) b) ∙ run)
