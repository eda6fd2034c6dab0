-- ===== src/Csv/Generator/Sheet.antt =====
-- All the points that the generator comes to are written, line by line.
use cc_dey.Base.{
  ℕ, zero, suc, ◌+◌, ◌*◌, ◌%◌, ◌^◌, ◌≤◌, ◌≡◌, refl, sym, ap, ◌∙◌, true, false, ◌||◌, some, List, [],
  ◌∷◌, ◌++◌, map, take, length, ◌-◌, ◌≢◌, Bytes, ltb, ◌==◌, if◌then◌else◌, arith, Bool-cases, inl,
  inr,
}
use cc_dey.Csv.{Buffer}
use cc_dey.Csv.Number.{Floats}
use cc_dey.Csv.Number.Print.{extend, extend-extend, extend-nil, Roomy}
use cc_dey.Csv.Point.{Point, Stream}
use cc_dey.Csv.Machine.{csv_data, csv_finished, Process}
use cc_dey.Csv.Generator.{generated, generate_dp_csv, next_point}
use cc_dey.Csv.Generator.Text.{line_text, Fits}
use cc_dey.Csv.Generator.Fields.{Scratch, at}
use cc_dey.Csv.Generator.Line.{point_goes}

module _ (floats : Floats) where
  -- The points that the generator comes to, in order: a stream without points ends them.
  unfoldable pub sheet :
      List (Stream floats)
      → Stream floats
      → List (Point floats)
      → List (Stream floats × Point floats)
  sheet later s [] = []
  sheet [] s (x ∷ xs) = map (λ y. (s, y)) (x ∷ xs)
  sheet (s' ∷ later) s (x ∷ xs) = map (λ y. (s, y)) (x ∷ xs) ++ sheet later s' s'.points

  -- Those of them that `max_dp` admits, when `n` are written; 0 is no bound.
  unfoldable pub admitted :
      ℕ → ℕ → List (Stream floats × Point floats) → List (Stream floats × Point floats)
  admitted max_dp n [] = []
  admitted max_dp n (y ∷ ys) =
      let rest = admitted max_dp (n + 1) ys in if max_dp == 0 || ltb n max_dp then y ∷ rest else []

  unfoldable pub lines_text : List (Stream floats × Point floats) → Bytes
  lines_text [] = []
  lines_text ((s, x) ∷ ys) = line_text floats s x ++ lines_text ys

  abbrev pub AllFit : List (Stream floats × Point floats) → Type 0
  AllFit [] = Unit
  AllFit ((s, x) ∷ ys) = Fits floats s.type x × AllFit ys

  -- The state before a line.
  abbrev pub before :
      List (Stream floats) → Stream floats → List (Point floats) → Scratch → Process floats
  before later s xs g = record {
    stream = s;
    later = later;
    points = xs;
    field = csv_data;
    init = false;
    intg = g.intg;
    dbl = g.dbl;
    str = g.str;
    location = g.location;
    time = g.time;
  }

  module _ (spin max_dp : ℕ) where
    -- The loop comes to its end with the lines of `ys` behind the buffer.
    pub record Writes (p : Process floats) (n : ℕ) (b : Buffer)
        (ys : List (Stream floats × Point floats)) : Type 0 where
      pub rounds : ℕ
      pub bounded : rounds ≤ 22 * length ys + 1
      pub result :
          (fuel : ℕ)
          → generate_dp_csv floats (rounds + fuel) (suc spin) max_dp n p b
            ≡ some (generated (extend (lines_text ys) b) ((n + length ys) % 2 ^ 32))

    ended :
        (p : Process floats) (n : ℕ) (b : Buffer)
        → ((fuel : ℕ)
            → generate_dp_csv floats (suc fuel) (suc spin) max_dp n p b
              ≡ some (generated b (n % 2 ^ 32)))
        → Writes p n b []
    unfolding lines_text
    ended p n b stops = record {
      rounds = 1;
      bounded = omega arith;
      result = λ fuel.
          (let one : 1 + fuel ≡ suc fuel = omega arith in
            ap (λ m. generate_dp_csv floats m (suc spin) max_dp n p b) one)
          ∙ stops fuel
          ∙ (let same : n ≡ n + 0 = omega arith in
              λ i. some (generated (sym (extend-nil b) i) (same i % 2 ^ 32)));
    }

    -- Where a line ends, the state of the next one is what next_point makes of it.
    next_point-before :
        (later : List (Stream floats)) (s : Stream floats) (x : Point floats)
        (xs : List (Point floats)) (g : Scratch)
        → next_point floats xs later (at floats s later x xs csv_finished false g)
          ≡ next_point floats xs later (before later s (x ∷ xs) g)
    unfolding next_point
    next_point-before later s x (y ∷ ys) g = refl
    next_point-before [] s x [] g = refl
    next_point-before (s' ∷ later) s x [] g = refl

    -- A point, and those behind it.
    line :
        (later : List (Stream floats)) (s : Stream floats) (x : Point floats)
        (xs : List (Point floats)) (g : Scratch) (n : ℕ) (b : Buffer)
        (ys : List (Stream floats × Point floats))
        → Fits floats s.type x
        → Roomy b
        → ((g' : Scratch)
            → Writes
                (next_point floats xs later (before later s (x ∷ xs) g'))
                (n + 1)
                (extend (line_text floats s x) b)
                (admitted max_dp (n + 1) ys))
        → Writes (before later s (x ∷ xs) g) n b (admitted max_dp n ((s, x) ∷ ys))
    unfolding admitted lines_text next_point generate_dp_csv
    line later s x xs g n b ys fits h behind = elim (Bool-cases (max_dp == 0 || ltb n max_dp)) [
      | inr dead ↦
          rw dead (ended (before later s (x ∷ xs) g) n b (λ fuel. rw (dead, generate_dp_csv) refl))
      | inl live ↦
          let (g', k, few, e) = point_goes floats s later x xs spin max_dp n live g b fits h in
          let w = behind g' in
          let less = w.bounded in
          rw live (record {
            rounds = k + w.rounds;
            bounded = omega arith;
            result = λ fuel.
                (let order : k + w.rounds + fuel ≡ k + (w.rounds + fuel) = omega arith in
                  ap
                    (λ m.
                      generate_dp_csv floats m (suc spin) max_dp n (before later s (x ∷ xs) g) b)
                    order)
                ∙ e (w.rounds + fuel)
                ∙ (let counted : n + 1 + length (admitted max_dp (n + 1) ys)
                        ≡ n + length ((s, x) ∷ admitted max_dp (n + 1) ys) =
                      omega arith in
                    ap
                      (λ p.
                        generate_dp_csv floats (w.rounds + fuel) (suc spin) max_dp (n + 1) p
                          (extend (line_text floats s x) b))
                      (next_point-before later s x xs g')
                    ∙ w.result fuel
                    ∙ (λ i. some (
                        generated
                          (extend-extend (line_text floats s x)
                            (lines_text (admitted max_dp (n + 1) ys)) b i)
                          (counted i % 2 ^ 32))));
          })
    ]

    pub sheet-Writes :
        (later : List (Stream floats)) (s : Stream floats) (xs : List (Point floats)) (g : Scratch)
        (n : ℕ) (b : Buffer)
        → AllFit (sheet later s xs)
        → Roomy b
        → Writes (before later s xs g) n b (admitted max_dp n (sheet later s xs))
    unfolding sheet admitted next_point generate_dp_csv
    sheet-Writes later s [] g n b fits h = ended (before later s [] g) n b (λ fuel. refl)
    sheet-Writes [] s (x ∷ []) g n b (fit, fits) h =
        line [] s x [] g n b [] fit h
          (λ g'. sheet-Writes [] s [] g' (n + 1) (extend (line_text floats s x) b) fits h)
    sheet-Writes [] s (x ∷ y ∷ xs) g n b (fit, fits) h =
        line [] s x (y ∷ xs) g n b (map (λ z. (s, z)) (y ∷ xs)) fit h
          (λ g'. sheet-Writes [] s (y ∷ xs) g' (n + 1) (extend (line_text floats s x) b) fits h)
    sheet-Writes (s' ∷ later) s (x ∷ []) g n b (fit, fits) h =
        line (s' ∷ later) s x [] g n b (sheet later s' s'.points) fit h (λ g'.
          sheet-Writes later s' s'.points g' (n + 1) (extend (line_text floats s x) b) fits h)
    sheet-Writes (s' ∷ later) s (x ∷ y ∷ xs) g n b (fit, fits) h =
        line (s' ∷ later) s x (y ∷ xs) g n b
          (map (λ z. (s, z)) (y ∷ xs) ++ sheet later s' s'.points) fit h
          (λ g'.
            sheet-Writes (s' ∷ later) s (y ∷ xs) g' (n + 1) (extend (line_text floats s x) b) fits
              h)

  -- The bound on the points: 0 is none.
  unfoldable pub limited :
      ℕ → List (Stream floats × Point floats) → List (Stream floats × Point floats)
  limited max_dp ys = if max_dp == 0 then ys else take max_dp ys

  admitted-unbounded : (n : ℕ) (ys : List (Stream floats × Point floats)) → admitted 0 n ys ≡ ys
  unfolding admitted
  admitted-unbounded n [] = refl
  admitted-unbounded n (y ∷ ys) = ap (λ l. y ∷ l) (admitted-unbounded (n + 1) ys)

  admitted-take :
      (k n max_dp : ℕ) (ys : List (Stream floats × Point floats))
      → max_dp ≢ 0
      → n + k ≡ max_dp
      → admitted max_dp n ys ≡ take k ys
  unfolding admitted
  admitted-take zero n max_dp [] some_bound e = refl
  admitted-take (suc k) n max_dp [] some_bound e = refl
  admitted-take zero n max_dp (y ∷ ys) some_bound e =
      let stop : (max_dp == 0 || ltb n max_dp) ≡ false = ground arith in rw stop refl
  admitted-take (suc k) n max_dp (y ∷ ys) some_bound e =
      let go : (max_dp == 0 || ltb n max_dp) ≡ true = ground arith in
      let left : n + 1 + k ≡ max_dp = omega arith in
      rw go (ap (λ l. y ∷ l) (admitted-take k (n + 1) max_dp ys some_bound left))

  admitted-limited :
      (max_dp : ℕ) (ys : List (Stream floats × Point floats))
      → admitted max_dp 0 ys ≡ limited max_dp ys
  unfolding limited
  admitted-limited max_dp ys = elim (Bool-cases (max_dp == 0)) [
    | inl none_set ↦
        let zero_bound : max_dp ≡ 0 = ground arith in
        rw none_set (rw zero_bound (admitted-unbounded 0 ys))
    | inr bound ↦
        let some_bound : max_dp ≢ 0 = ground arith in
        rw bound (admitted-take max_dp 0 max_dp ys some_bound (omega arith))
  ]

  -- Given enough rounds, and a heap that never is full, the generator comes to its end with the
  -- lines of the points of the streams, up to the first stream without points and to `max_dp`
  -- points, and says how many they are (modulo 2^32); whatever the buffer and the members of the state held.
  pub generate_dp_csv-lines_text :
      (fuel spin max_dp : ℕ) (later : List (Stream floats)) (s : Stream floats) (g : Scratch)
      (b : Buffer)
      → 22 * length (limited max_dp (sheet later s s.points)) + 1 ≤ fuel
      → AllFit (sheet later s s.points)
      → ((n : ℕ) → b.alloc n ≡ true)
      → generate_dp_csv floats fuel (suc spin) max_dp 0 (before later s s.points g) b
        ≡ some (
            generated
              (extend (lines_text (limited max_dp (sheet later s s.points))) b)
              (length (limited max_dp (sheet later s s.points)) % 2 ^ 32))
  generate_dp_csv-lines_text fuel spin max_dp later s g b enough fits h =
      let ys = admitted max_dp 0 (sheet later s s.points) in
      let same = admitted-limited max_dp (sheet later s s.points) in
      let w = sheet-Writes spin max_dp later s s.points g 0 b fits h in
      let bound = w.bounded in
      let size : length ys ≡ length (limited max_dp (sheet later s s.points)) = ap length same in
      let left : w.rounds + (fuel - w.rounds) ≡ fuel = omega arith in
      ap (λ m. generate_dp_csv floats m (suc spin) max_dp 0 (before later s s.points g) b)
        (sym left)
      ∙ w.result (fuel - w.rounds)
      ∙ (let counted : 0 + length ys ≡ length (limited max_dp (sheet later s s.points)) =
            omega arith in
          λ i. some (generated (extend (lines_text (same i)) b) (counted i % 2 ^ 32)))
