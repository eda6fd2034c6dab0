-- ===== src/Csv/Generator/Rounds.antt =====
-- Rounds of the loop within a line, and how they compose.
use cc_dey.Base.{
  ℕ, suc, ◌+◌, ◌≡◌, refl, ap, ◌∙◌, subst, ◌≤◌, Bool, true, false, ◌||◌, Option, List, [], ◌∷◌, ◌++◌,
  append_assoc, Bytes, ltb, ◌==◌, arith,
}
use cc_dey.Csv.{Buffer}
use cc_dey.Csv.Number.{Floats}
use cc_dey.Csv.Number.Print.{extend, extend-extend}
use cc_dey.Csv.Point.{Point, Stream}
use cc_dey.Csv.Machine.{Field, Process}
use cc_dey.Csv.Generator.{going, on_field, Generated, is_finished, generate_dp_csv}
use cc_dey.Csv.Generator.Text.{then_comma}
use cc_dey.Csv.Generator.Fields.{Scratch, at, Ends}

module _ (floats : Floats) (s : Stream floats) (later : List (Stream floats)) (x : Point floats)
    (rest : List (Point floats)) (spin max_dp n : ℕ)
    (live : (max_dp == 0 || ltb n max_dp) ≡ true) where
  abbrev pub here_at : Field → Bool → Scratch → Process floats
  here_at f init g = at floats s later x rest f init g

  abbrev pub run : ℕ → Process floats → Buffer → Option (Generated floats)
  run fuel p b = generate_dp_csv floats fuel (suc spin) max_dp n p b

  -- The loop comes from one state to another in at most `m` rounds.
  pub record Reaches (m : ℕ) (p : Process floats) (b : Buffer) (p' : Process floats) (b' : Buffer)
      : Type 0 where
    pub rounds : ℕ
    pub bounded : rounds ≤ m
    pub reaches : (fuel : ℕ) → run (rounds + fuel) p b ≡ run fuel p' b'

  pub reaches_trans :
      {m m' : ℕ} {p p' p'' : Process floats} {b b' b'' : Buffer}
      → Reaches m p b p' b'
      → Reaches m' p' b' p'' b''
      → Reaches (m + m') p b p'' b''
  reaches_trans {p = p} {b = b} u v =
      let lu = u.bounded in
      let lv = v.bounded in
      record {
        rounds = u.rounds + v.rounds;
        bounded = omega arith;
        reaches = λ fuel.
            (let assoc : u.rounds + v.rounds + fuel ≡ u.rounds + (v.rounds + fuel) = omega arith in
              ap (λ m. run m p b) assoc)
            ∙ u.reaches (v.rounds + fuel)
            ∙ v.reaches fuel;
      }

  -- A round that does not end the line.
  pub round :
      (f : Field) (init : Bool) (g : Scratch) (b : Buffer) (p' : Process floats) (b' : Buffer)
      → is_finished floats f ≡ 0
      → on_field floats f (suc spin) x rest (here_at f init g) b ≡ going p' b'
      → Reaches 1 (here_at f init g) b p' b'
  unfolding generate_dp_csv
  round f init g b p' b' inside e = record {
    rounds = 1;
    bounded = omega arith;
    reaches = λ fuel.
        let same : n + is_finished floats f ≡ n = omega arith in
        let one : 1 + fuel ≡ suc fuel = omega arith in
        ap (λ m. run m (here_at f init g) b) one
        ∙ rw (live, generate_dp_csv, e)
            (ap (λ m. generate_dp_csv floats fuel (suc spin) max_dp m p' b') same);
  }

  -- A field is printed in at most `m` rounds, and another one begins.
  abbrev pub Goes : ℕ → Field → Field → Bytes → Scratch → Buffer → Type 0
  Goes m f next text g b =
      (g' : Scratch) × Reaches m (here_at f false g) b (here_at next false g') (extend text b)

  pub Goes-Ends :
      (f next : Field) (text : Bytes) (g : Scratch) (b : Buffer)
      → is_finished floats f ≡ 0
      → Ends floats s later x rest
          (on_field floats f (suc spin) x rest (here_at f false g) b)
          next
          text
          b
      → Goes 1 f next text g b
  Goes-Ends f next text g b inside (g', e) =
      (g', round f false g b (here_at next false g') (extend text b) inside e)

  -- A field and its comma, and the fields behind it.
  pub Goes-then_comma :
      {m m' : ℕ} {f next last : Field} {b : Buffer} {g : Scratch} (t u : Bytes)
      → Goes m f next (t ++ b',' ∷ []) g b
      → ((g' : Scratch) (b' : Buffer) → b'.alloc ≡ b.alloc → Goes m' next last u g' b')
      → Goes (m + m') f last (then_comma floats t u) g b
  unfolding then_comma
  Goes-then_comma {m = m} {m' = m'} {f = f} {last = last} {b = b} {g = g} t u (g', first)
        later_fields =
      let (g'', second) = later_fields g' (extend (t ++ b',' ∷ []) b) refl in
      (
        g'',
        subst (λ y. Reaches (m + m') (here_at f false g) b (here_at last false g'') y)
            (extend-extend (t ++ b',' ∷ []) u b
              ∙ ap (λ l. extend l b) (append_assoc t (b',' ∷ []) u))
            (reaches_trans first second),
      )
