-- ===== src/Collection/Taken.antt =====
-- The points that the generator includes are those that the removal takes, and what is left is the
-- rest, in order.
use cc_dey.Base.{
  ℕ, zero, suc, ◌+◌, ◌-◌, ◌^◌, ◌≤◌, ◌<◌, ◌≡◌, ◌≢◌, refl, sym, ap, ◌∙◌, false, List, [], ◌∷◌, ◌++◌,
  append_assoc, Bytes, length, take, ◌==◌, arith,
}
use cc_dey.Csv.Number.{Floats}
use cc_dey.Csv.Point.{Point, Stream}
use cc_dey.Csv.Generator.Text.{line_text}
use cc_dey.Csv.Generator.Sheet.{sheet, lines_text}
use cc_dey.Collection.{
  Collection, Removed, decrement, in_front, one_more, remove_loop, remove_from,
  dp_remove_from_collection,
}

module _ (floats : Floats) where
  -- The lines of the points of a stream, and of a list of streams.
  unfoldable pub stream_lines : Stream floats → List (Point floats) → Bytes
  stream_lines s [] = []
  stream_lines s (x ∷ xs) = line_text floats s x ++ stream_lines s xs

  unfoldable pub all_lines : List (Stream floats) → Bytes
  unfolding stream_lines
  all_lines [] = []
  all_lines (s ∷ later) = stream_lines s s.points ++ all_lines later

  unfoldable pub count_points : List (Stream floats) → ℕ
  count_points [] = 0
  count_points (s ∷ later) = length s.points + count_points later

  -- What a removal of at most `n` points leaves of the lines, the number of points and the count.
  record Takes (n count : ℕ) (lines : Bytes) (points : ℕ) (ys : List (Stream floats × Point floats))
      (r : Removed floats) : Type 0 where
    taken : r.removed ≡ length (take n ys)
    kept : lines ≡ lines_text floats (take n ys) ++ all_lines r.streams
    left : points ≡ r.removed + count_points r.streams
    counted : r.removed ≤ count → count < 2 ^ 32 → r.dp_count ≡ count - r.removed

  stream_lines-points :
      (s : Stream floats) (ps xs : List (Point floats))
      → stream_lines (record s { points = ps }) xs ≡ stream_lines s xs
  unfolding stream_lines line_text
  stream_lines-points s ps [] = refl
  stream_lines-points s ps (x ∷ xs) =
      ap (λ l. line_text floats s x ++ l) (stream_lines-points s ps xs)

  -- Nothing is removed.
  nothing-Takes :
      (n count : ℕ) (s : Stream floats) (xs : List (Point floats)) (later : List (Stream floats))
      (ys : List (Stream floats × Point floats))
      → take n ys ≡ []
      → Takes n count
          (stream_lines s xs ++ all_lines later)
          (length xs + count_points later)
          ys
          (record { streams = record s { points = xs } ∷ later; dp_count = count; removed = 0 })
  unfolding all_lines lines_text count_points
  nothing-Takes n count s xs later ys e = record {
    taken = ap length (sym e);
    kept = rw e (ap (λ l. l ++ all_lines later) (sym (stream_lines-points s xs xs)));
    left = omega arith;
    counted = λ h k. omega arith;
  }

  -- A point in front of those that are removed.
  one_more-Takes :
      (n count points : ℕ) (s : Stream floats) (x : Point floats) (lines : Bytes)
      (ys : List (Stream floats × Point floats)) (r : Removed floats)
      → Takes n (decrement floats count) lines points ys r
      → Takes
          (suc n)
          count
          (line_text floats s x ++ lines)
          (suc points)
          ((s, x) ∷ ys)
          (one_more floats r)
  unfolding one_more lines_text decrement
  one_more-Takes n count points s x lines ys r t =
      let taken = t.taken in
      let left = t.left in
      record {
        taken = omega arith;
        kept =
            ap (λ l. line_text floats s x ++ l) t.kept
            ∙ sym (
                append_assoc (line_text floats s x) (lines_text floats (take n ys))
                  (all_lines r.streams));
        left = omega arith;
        counted = λ h k. let c = t.counted (omega arith) (omega arith) in omega arith;
      }

  Takes-eq :
      {n count : ℕ} {lines lines' : Bytes} {points points' : ℕ}
      {ys : List (Stream floats × Point floats)} {r : Removed floats}
      → lines ≡ lines'
      → points ≡ points'
      → Takes n count lines points ys r
      → Takes n count lines' points' ys r
  Takes-eq el ep t = record {
    taken = t.taken;
    kept = sym el ∙ t.kept;
    left = sym ep ∙ t.left;
    counted = t.counted;
  }

  pub take-nil : (n : ℕ) → take {A = Stream floats × Point floats} n [] ≡ []
  take-nil zero = refl
  take-nil (suc n) = refl

  sheet-more :
      (later : List (Stream floats)) (s : Stream floats) (x y : Point floats)
      (xs : List (Point floats))
      → sheet floats later s (x ∷ y ∷ xs) ≡ (s, x) ∷ sheet floats later s (y ∷ xs)
  unfolding sheet
  sheet-more [] s x y xs = refl
  sheet-more (s' ∷ later) s x y xs = refl

  in_front-Takes :
      (n count points : ℕ) (s : Stream floats) (lines : Bytes)
      (ys : List (Stream floats × Point floats)) (r : Removed floats)
      → Takes n count lines points ys r
      → Takes n count lines points ys (in_front floats (record s { points = [] }) r)
  unfolding in_front all_lines stream_lines count_points
  in_front-Takes n count points s lines ys r t = record {
    taken = t.taken;
    kept = t.kept;
    left = t.left ∙ omega arith;
    counted = t.counted;
  }

  remove_loop-Takes :
      (n count : ℕ) (s : Stream floats) (xs : List (Point floats)) (later : List (Stream floats))
      → Takes n count
          (stream_lines s xs ++ all_lines later)
          (length xs + count_points later)
          (sheet floats later s xs)
          (remove_loop floats n count s xs later)
  unfolding remove_loop sheet all_lines stream_lines count_points
  remove_loop-Takes zero count s xs later =
      nothing-Takes zero count s xs later (sheet floats later s xs) refl
  remove_loop-Takes (suc n) count s [] later = nothing-Takes (suc n) count s [] later [] refl
  remove_loop-Takes (suc n) count s (x ∷ y ∷ xs) later =
      let t =
        one_more-Takes n count (length (y ∷ xs) + count_points later) s x
          (stream_lines s (y ∷ xs) ++ all_lines later) (sheet floats later s (y ∷ xs))
          (remove_loop floats n (decrement floats count) s (y ∷ xs) later)
          (remove_loop-Takes n (decrement floats count) s (y ∷ xs) later) in
      rw (sheet-more later s x y xs) (
        Takes-eq
          (sym (append_assoc (line_text floats s x) (stream_lines s (y ∷ xs)) (all_lines later)))
          (omega arith) t)
  remove_loop-Takes (suc n) count s (x ∷ []) [] =
      Takes-eq (sym (append_assoc (line_text floats s x) [] [])) (omega arith) (
        one_more-Takes n count 0 s x [] []
          (record {
            streams = record s { points = [] } ∷ [];
            dp_count = decrement floats count;
            removed = 0;
          })
          (nothing-Takes n (decrement floats count) s [] [] [] (take-nil n)))
  remove_loop-Takes (suc n) count s (x ∷ []) (s' ∷ later) =
      let rest = remove_loop-Takes n (decrement floats count) s' s'.points later in
      let t =
        one_more-Takes n count (length s'.points + count_points later) s x
          (stream_lines s' s'.points ++ all_lines later) (sheet floats later s' s'.points)
          (in_front floats (record s { points = [] })
            (remove_loop floats n (decrement floats count) s' s'.points later))
          (in_front-Takes n (decrement floats count) (length s'.points + count_points later) s
            (stream_lines s' s'.points ++ all_lines later) (sheet floats later s' s'.points)
            (remove_loop floats n (decrement floats count) s' s'.points later) rest) in
      Takes-eq
        (sym
          (append_assoc (line_text floats s x) [] (stream_lines s' s'.points ++ all_lines later)))
        (omega arith) t

  abbrev pub sheet_of : List (Stream floats) → List (Stream floats × Point floats)
  sheet_of [] = []
  sheet_of (s ∷ later) = sheet floats later s s.points

  remove_from-Takes :
      (n count : ℕ) (streams : List (Stream floats))
      → n ≢ 0
      → Takes n count
          (all_lines streams)
          (count_points streams)
          (sheet_of streams)
          (remove_from floats n count streams)
  unfolding remove_from all_lines count_points lines_text
  remove_from-Takes n count [] some_points = record {
    taken = ap length (sym (take-nil n));
    kept = ap (λ ys. lines_text floats ys ++ []) (sym (take-nil n));
    left = omega arith;
    counted = λ h k. omega arith;
  }
  remove_from-Takes n count (s ∷ later) some_points =
      let bound : (n == 0) ≡ false = ground arith in
      rw bound (remove_loop-Takes n count s s.points later)

  -- A removal of a number of points takes the first ones that the generator comes to, as many as
  -- there are: their lines and those of what is left are the lines before, and so are the numbers
  -- of points; the count goes down by as much.
  pub dp_remove_from_collection-take :
      (c : Collection floats) (n : ℕ)
      → n ≢ 0
      → c.dp_count ≡ count_points c.streams
      → c.dp_count < 2 ^ 32
      → let removed = dp_remove_from_collection floats c n in
        (all_lines c.streams
          ≡ lines_text floats (take n (sheet_of c.streams)) ++ all_lines removed.1.streams)
        × (removed.0 ≡ length (take n (sheet_of c.streams)))
        × (removed.1.dp_count ≡ count_points removed.1.streams)
        × (removed.1.dp_count + removed.0 ≡ c.dp_count)
  unfolding dp_remove_from_collection
  dp_remove_from_collection-take c n some_points valid small =
      let t = remove_from-Takes n c.dp_count c.streams some_points in
      let left = t.left in
      let counted = t.counted (omega arith) small in (t.kept, t.taken, omega arith, omega arith)
