-- ===== src/Collection/Sent.antt =====
-- What becomes of the points of a collection that is sent.
use cc_dey.Base.{
  ℕ, suc, ◌+◌, ◌*◌, ◌%◌, ◌^◌, ◌≤◌, ◌<◌, ◌≡◌, ◌≢◌, subst, refl, sym, ap, ◌∙◌, Bool, true, false,
  Option, none, some, List, [], ◌∷◌, ◌++◌, Bytes, length, take, ltb, arith, length-take, ◌⊎◌,
  Bool-cases, inl, inr,
}
use cc_dey.CommError
use cc_dey.Socket.{Sock}
use cc_dey.Csv.Number.{Floats}
use cc_dey.Csv.Point.{Stream}
use cc_dey.Csv.Generator.Fields.{Scratch}
use cc_dey.Csv.Generator.Sheet.{sheet, limited, lines_text, AllFit, generate_dp_csv-lines_text}
use cc_dey.Client.Upload.{Resp, metrics, send_dp_data}
use cc_dey.Collection.{
  Collection, csv, bufsiz, dp_max_number_per_request, limit_dp, dp_generate_csv_from_collection,
  dp_remove_from_collection, returned, is_settled, after_send, send_csv, on_call, or_garbage,
  send_generation, has_no_stream, send_locked, release, dp_send_collection, code_only,
}
use cc_dey.Collection.Taken.{all_lines, count_points, take-nil, dp_remove_from_collection-take}
use cc_dey.Collection.Request.{
  length-some, limited-take, take-take-length, take-Starts, on_call-answer, answer, request_points,
  send_dp_data-unconnected,
}

module _ (floats : Floats) where
  module _ (fuel spin : ℕ) (alloc : ℕ → Bool) (room : (n : ℕ) → alloc n ≡ true) (g : Scratch)
      (s : Stream floats) (later : List (Stream floats)) (count : ℕ) where
    abbrev pub collection : Collection floats
    collection = record { streams = s ∷ later; dp_count = count }

    abbrev pub limit : ℕ
    limit = limit_dp floats collection dp_max_number_per_request

    few : length (request_points floats collection) ≤ dp_max_number_per_request
    unfolding request_points limit_dp
    few =
        let bound : limit ≤ 250 = ground arith in
        omega (arith, length-take limit (sheet floats later s s.points))

    pub generate_lem :
        limit ≢ 0
        → 22 * dp_max_number_per_request + 1 ≤ fuel
        → AllFit floats (sheet floats later s s.points)
        → dp_generate_csv_from_collection floats fuel
            (suc spin)
            alloc
            g
            collection
            dp_max_number_per_request
          ≡ csv (record {
            size = length (lines_text floats (request_points floats collection));
            buffer = some (lines_text floats (request_points floats collection));
            n_dp = some (length (request_points floats collection));
          })
    unfolding dp_generate_csv_from_collection request_points
    generate_lem some_points enough fits =
        let ys = sheet floats later s s.points in
        let same = limited-take floats limit ys some_points in
        let size : length (limited floats limit ys) ≡ length (take limit ys) = ap length same in
        let bound = few in
        let run =
          generate_dp_csv-lines_text floats fuel spin limit later s g
            (record { bytes = []; available = bufsiz; alloc = alloc }) (omega arith) fits room in
        let small : length (take limit ys) % 2 ^ 32 ≡ length (take limit ys) = omega arith in
        rw (room bufsiz, run, same, small) refl

    sheet-empty : s.points ≡ [] → sheet floats later s s.points ≡ []
    unfolding sheet
    sheet-empty e = rw e refl

    abbrev pub text : Bytes
    text = lines_text floats (request_points floats collection)

    abbrev pub sent_count : ℕ
    sent_count = length (request_points floats collection)

    pub limit-positive : count ≢ 0 → limit ≢ 0
    unfolding limit_dp
    limit-positive some_points = ground arith

    -- A collection with points whose first stream has some: what its sending comes to is what that
    -- of its text does.
    dp_send_collection-call :
        count ≢ 0
        → s.points ≢ []
        → 22 * dp_max_number_per_request + 1 ≤ fuel
        → AllFit floats (sheet floats later s s.points)
        → (garbage timeout : ℕ) (connect : Option Sock)
        → dp_send_collection floats fuel
            (suc spin)
            alloc
            g
            garbage
            true
            true
            (some collection)
            timeout
            connect
          ≡ on_call floats collection sent_count
              (send_dp_data (metrics (some text)) timeout connect)
    unfolding dp_send_collection limit_dp send_locked release send_csv request_points or_garbage
    dp_send_collection-call some_points full enough fits garbage timeout connect =
        let positive = limit-positive some_points in
        let (many, long) = take-Starts floats limit later s s.points positive full in
        let csv_size : ltb 0 (length text) ≡ true = ground arith in
        rw (generate_lem positive enough fits) (rw csv_size refl)

    pub some_text : count ≢ 0 → s.points ≢ [] → 0 < length text
    unfolding request_points
    some_text some_points full =
        (take-Starts floats limit later s s.points (limit-positive some_points) full).1

    pub some_sent : count ≢ 0 → s.points ≢ [] → sent_count ≢ 0
    unfolding request_points
    some_sent some_points full =
        (take-Starts floats limit later s s.points (limit-positive some_points) full).0

    -- What the removal of the points of a request leaves.
    abbrev pub Sent : Collection floats → Type 0
    Sent left =
        (all_lines floats collection.streams ≡ text ++ all_lines floats left.streams)
        × (left.dp_count ≡ count_points floats left.streams)
        × (left.dp_count + sent_count ≡ count)

    pub remove-Sent :
        count ≡ count_points floats collection.streams
        → count < 2 ^ 32
        → sent_count ≢ 0
        → Sent ((dp_remove_from_collection floats collection sent_count).1)
    unfolding request_points
    remove-Sent valid small some_points =
        let ys = sheet floats later s s.points in
        let (lines, taken, counted, less) =
          dp_remove_from_collection-take floats collection sent_count some_points valid small in
        let same = take-take-length floats limit ys in
        let sent : length (take sent_count ys) ≡ sent_count = ap length same in
        (
          lines
              ∙ ap
                  (λ l.
                    lines_text floats l
                    ++ all_lines floats
                        (dp_remove_from_collection floats collection sent_count).1.streams)
                  same,
          counted,
          omega arith,
        )

    pub points-count : s.points ≢ [] → count ≡ count_points floats collection.streams → count ≢ 0
    unfolding count_points
    points-count full valid = let some_points = length-some floats s.points full in omega arith

    -- A collection that counts its points, and whose first stream has some, is sent where the heap
    -- is never full and the lock is free. Where the exchange with the daemon gives a result and a
    -- response, they are returned. If the result is no error, or the code of the response is not
    -- that the points could not be stored, then the points of the request are removed and no
    -- others: the lines before are the text that was sent and the lines left, and the count is that
    -- of the points left. Else the collection is as it was.
    pub dp_send_collection-Sent :
        count ≡ count_points floats collection.streams
        → count < 2 ^ 32
        → s.points ≢ []
        → 22 * dp_max_number_per_request + 1 ≤ fuel
        → AllFit floats (sheet floats later s s.points)
        → (garbage timeout ret : ℕ) (r : Resp) (connect : Option Sock)
        → answer floats (send_dp_data (metrics (some text)) timeout connect) ≡ some (ret, r)
        → (left : Collection floats) × (dp_send_collection floats fuel
              (suc spin)
              alloc
              g
              garbage
              true
              true
              (some collection)
              timeout
              connect
            ≡ returned ret r left)
          × (((is_settled floats ret r ≡ true) × Sent left)
              ⊎ ((is_settled floats ret r ≡ false) × (left ≡ collection)))
    unfolding after_send request_points
    dp_send_collection-Sent valid small full enough fits garbage timeout ret r connect e =
        let some_points = points-count full valid in
        let positive : limit ≢ 0 = limit-positive some_points in
        let (many, long) = take-Starts floats limit later s s.points positive full in
        let run =
          dp_send_collection-call some_points full enough fits garbage timeout connect
          ∙ on_call-answer floats collection sent_count
              (send_dp_data (metrics (some text)) timeout connect) (ret, r) e in
        (
          _,
          run,
          elim (Bool-cases (is_settled floats ret r)) [
            | inl settled ↦ inl (settled, rw settled (remove-Sent valid small many))
            | inr open_end ↦ inr (open_end, rw open_end refl)
          ],
        )

    -- Where there is no daemon to connect to, nothing is sent, and the points of the request are
    -- removed all the same: the call says that it could not connect, with a response of code 0.
    pub dp_send_collection-unconnected :
        count ≡ count_points floats collection.streams
        → count < 2 ^ 32
        → s.points ≢ []
        → 22 * dp_max_number_per_request + 1 ≤ fuel
        → AllFit floats (sheet floats later s s.points)
        → (garbage timeout : ℕ)
        → (left : Collection floats) × (dp_send_collection floats fuel
              (suc spin)
              alloc
              g
              garbage
              true
              true
              (some collection)
              timeout
              none
            ≡ returned CommError.unable_to_connect (code_only floats 0) left)
          × Sent left
          × (sent_count ≢ 0)
    unfolding request_points after_send is_settled
    dp_send_collection-unconnected valid small full enough fits garbage timeout =
        let positive = limit-positive (points-count full valid) in
        let (many, long) = take-Starts floats limit later s s.points positive full in
        let run =
          dp_send_collection-call (points-count full valid) full enough fits garbage timeout none
          ∙ on_call-answer floats collection sent_count
              (send_dp_data (metrics (some text)) timeout none)
              (CommError.unable_to_connect, code_only floats 0)
              (send_dp_data-unconnected floats text timeout long) in
        (_, run, remove-Sent valid small many, many)

    -- Where the first stream has no points, nothing is sent, the call says that its argument is
    -- invalid, and the collection is as it was, however many points the later streams have.
    pub dp_send_collection-stuck :
        count ≢ 0
        → s.points ≡ []
        → 22 * dp_max_number_per_request + 1 ≤ fuel
        → (garbage timeout : ℕ) (connect : Option Sock)
        → dp_send_collection floats fuel
            (suc spin)
            alloc
            g
            garbage
            true
            true
            (some collection)
            timeout
            connect
          ≡ returned CommError.invalid_argument
              (code_only floats CommError.invalid_argument)
              collection
    unfolding dp_send_collection limit_dp send_locked release send_csv send_generation has_no_stream
        request_points lines_text
    dp_send_collection-stuck some_points dry enough garbage timeout connect =
        let none_left = sheet-empty dry in
        let positive = limit-positive some_points in
        let nothing : request_points floats collection ≡ [] =
          ap (take limit) none_left ∙ take-nil floats limit in
        rw (generate_lem positive enough (subst (AllFit floats) (sym none_left) tt), nothing) refl
