-- ===== src/Backlog/Store/Stored.antt =====
-- Data points that dp_process_send_dp_error keeps: the file they are in, and the other files.
use cc_dey.Base.{
  ℕ, zero, suc, ◌+◌, ◌*◌, ◌%◌, ◌^◌, ◌≤◌, ◌<◌, ◌≡◌, ◌≢◌, refl, sym, ap, ◌∙◌, true, false, ◌||◌, none,
  some, [], ◌∷◌, ◌++◌, Bytes, codes, length, ltb, eq_bytes, eq_bytes_iff, ◌==◌, if◌then◌else◌, not,
  arith, Bool-cases, ◌⊎◌, inl, inr, append-nil, append_assoc, ==_self, All, All-append, ◌/◌,
}
use cc_dey.Backlog.{value, Node, regular, folder, Entries, no_entry, entry, check_backlog_size}
use cc_dey.Backlog.Trim.{
  weight, files, Distinct, Slack, Works, Trimmed, without_oldest, drop_oldest,
  check_backlog_size-Trimmed,
}
use cc_dey.Backlog.Copy.{file, no_text, write_buffer_to_file}
use cc_dey.Backlog.Copy.Whole.{take_all}
use cc_dey.Decimal.{digits}
use cc_dey.Socket.{Timeval}
use cc_dey.Backlog.Directory.{
  before_name, lookup, place, mkpath, is_folder, in_directory, at_path, split_path, trim_slash,
  strip_slashes, ends_in_slash, at_slash,
}
use cc_dey.Backlog.Store.{
  three_digits, Sys, dp_get_backlog_dir, file_name, dp_get_backlog_file_path, io_at, write_file,
  present, write_below, store_in, store_dp, Kept, is_kept, after_check, keep, no_backlog,
  dp_process_send_dp_error, file_metrics, file_events, file_metrics_binary, file_path_binary,
}

pub lookup-place_self :
    (name : Bytes) (node : Node) (entries : Entries)
    → lookup name (place name node entries) ≡ some node
unfolding lookup place
lookup-place_self name node no_entry = rw ((eq_bytes_iff name name).1 refl) refl
lookup-place_self name node (entry other kept later) =
    let self = (eq_bytes_iff name name).1 refl in
    elim (Bool-cases (eq_bytes name other)) [
      | inl same ↦ rw (same, self) refl
      | inr differs ↦ elim (Bool-cases (before_name name other)) [
        | inl first ↦ rw (differs, first, self) refl
        | inr behind ↦ rw (differs, behind, differs) (lookup-place_self name node later)
      ]
    ]

pub lookup-place_other :
    (other name : Bytes) (node : Node) (entries : Entries)
    → eq_bytes other name ≡ false
    → lookup other (place name node entries) ≡ lookup other entries
unfolding lookup place
lookup-place_other other name node no_entry h = rw h refl
lookup-place_other other name node (entry third kept later) h =
    elim (Bool-cases (eq_bytes name third)) [
      | inl same ↦
          let e : eq_bytes other third ≡ false =
            ap (eq_bytes other) (sym ((eq_bytes_iff name third).0 same)) ∙ h in
          rw (same, h, e) refl
      | inr differs ↦ elim (Bool-cases (before_name name third)) [
        | inl first ↦ rw (differs, first, h) refl
        | inr behind ↦
            rw (differs, behind)
              (ap (λ r. if eq_bytes other third then some kept else r)
                (lookup-place_other other name node later h))
      ]
    ]

weight-place :
    (name content : Bytes) (entries : Entries)
    → weight (place name (regular content) entries) ≤ weight entries + length content
unfolding weight place
weight-place name content no_entry = omega arith
weight-place name content (entry other (regular d) later) =
    let less = weight-place name content later in
    elim (Bool-cases (eq_bytes name other)) [
      | inl same ↦ rw same (omega arith)
      | inr differs ↦ elim (Bool-cases (before_name name other)) [
        | inl first ↦ rw (differs, first) (omega arith)
        | inr behind ↦ rw (differs, behind) (omega arith)
      ]
    ]
weight-place name content (entry other (folder inner) later) =
    let less = weight-place name content later in
    elim (Bool-cases (eq_bytes name other)) [
      | inl same ↦ rw same (omega arith)
      | inr differs ↦ elim (Bool-cases (before_name name other)) [
        | inl first ↦ rw (differs, first) (omega arith)
        | inr behind ↦ rw (differs, behind) (omega arith)
      ]
    ]

-- A byte that is not '/'.
abbrev pub Plain : ℕ → Type 0
Plain c = (c == b'/') ≡ false

pub split_path-Plain : (start s : Bytes) → All Plain s → split_path start s ≡ ([], start ++ s)
unfolding split_path
split_path-Plain start [] h = λ i. ([], sym (append-nil start) i)
split_path-Plain start (c ∷ s) (h, rest) =
    rw h (split_path-Plain (start ++ c ∷ []) s rest ∙ (λ i. ([], append_assoc start (c ∷ []) s i)))

pub strip_slashes-Plain : (s : Bytes) → All Plain s → strip_slashes s ≡ s
unfolding strip_slashes trim_slash
strip_slashes-Plain [] h = refl
strip_slashes-Plain (c ∷ []) (h, rest) = rw h refl
strip_slashes-Plain (c ∷ x ∷ s) (h, rest) = ap (trim_slash c) (strip_slashes-Plain (x ∷ s) rest)

pub ends_in_slash-same : (s : Bytes) → strip_slashes s ≡ s → ends_in_slash s ≡ false
unfolding ends_in_slash
ends_in_slash-same s e = ap not ((eq_bytes_iff (strip_slashes s) s).1 e)

digits-Plain : (fuel n : ℕ) → All Plain (digits fuel n)
unfolding digits
digits-Plain zero n = (ground arith, tt)
digits-Plain (suc fuel) n = elim (Bool-cases (ltb n 10)) [
  | inl small ↦ rw small (ground arith, tt)
  | inr big ↦ rw big (
      All-append Plain (digits fuel (n / 10)) ((b'0' + n % 10) ∷ []) (digits-Plain fuel (n / 10))
        (ground arith, tt))
]

three_digits-Plain : (n : ℕ) → All Plain (three_digits n)
unfolding three_digits
three_digits-Plain n = elim (Bool-cases (ltb n 1000)) [
  | inl small ↦ rw small (ground arith, (ground arith, (ground arith, tt)))
  | inr big ↦ rw big (digits-Plain 19 n)
]

-- The name of a backlog file with this end.
abbrev pub named : Timeval → Bytes → Bytes
named now end = digits 19 now.sec ++ three_digits (now.usec / 1000) ++ (b'_' ∷ end)

pub named-Plain : (now : Timeval) (end : Bytes) → All Plain end → All Plain (named now end)
named-Plain now end h =
    All-append Plain (digits 19 now.sec ++ three_digits (now.usec / 1000)) (b'_' ∷ end)
      (All-append Plain (digits 19 now.sec) (three_digits (now.usec / 1000))
        (digits-Plain 19 now.sec) (three_digits-Plain (now.usec / 1000)))
      (refl, h)

lookup-without_oldest :
    (name : Bytes) (entries : Entries)
    → lookup name entries ≡ none
    → lookup name (without_oldest entries) ≡ none
unfolding lookup without_oldest
lookup-without_oldest name no_entry h = h
lookup-without_oldest name (entry other (regular d) later) h = ground arith
lookup-without_oldest name (entry other (folder inner) later) h =
    elim (Bool-cases (eq_bytes name other)) [
      | inl same ↦ cc
      | inr differs ↦ rw differs (lookup-without_oldest name later (ground arith))
    ]

lookup-drop_oldest :
    (name : Bytes) (k : ℕ) (entries : Entries)
    → lookup name entries ≡ none
    → lookup name (drop_oldest k entries) ≡ none
unfolding drop_oldest
lookup-drop_oldest name zero entries h = h
lookup-drop_oldest name (suc k) entries h =
    lookup-drop_oldest name k (without_oldest entries) (lookup-without_oldest name entries h)

module _ (sys : Sys) (works : Works sys.calls) (opens : (path : Bytes) → sys.io.opens path ≡ true)
    (d : ℕ) (ds : Bytes) (text : (d == 0) ≡ false) where
  pub write_file-buffer :
      (type x : ℕ) (xs out_file : Bytes)
      → (type == file_events || type == file_metrics || type == file_metrics_binary) ≡ true
      → sys.io.fwrite_count (x ∷ xs) ≡ length (x ∷ xs)
      → write_file sys.io type (x ∷ xs) ((d ∷ ds) ++ out_file) false ≡ file (x ∷ xs) true
  unfolding write_file io_at write_buffer_to_file no_text
  write_file-buffer type x xs out_file buffer whole =
      rw
        (
          buffer,
          text,
          opens ((d ∷ ds) ++ out_file),
          whole,
          ==_self (length (x ∷ xs)),
          take_all (x ∷ xs),
        )
        refl

  store_in-csv :
      (x : ℕ) (xs out_file : Bytes) (entries : Entries)
      → sys.io.fwrite_count (x ∷ xs) ≡ length (x ∷ xs)
      → All Plain out_file
      → lookup out_file entries ≡ none
      → store_in sys file_metrics (x ∷ xs) (d ∷ ds) out_file (some entries)
        ≡ value (0, some (place out_file (regular (x ∷ xs)) entries))
  unfolding store_in mkpath write_below at_path in_directory is_folder present at_slash
  store_in-csv x xs out_file entries whole plain fresh =
      let same = strip_slashes-Plain out_file plain in
      let split = ap (split_path []) same ∙ split_path-Plain [] out_file plain in
      rw
        (
          split,
          ends_in_slash-same out_file same,
          fresh,
          write_file-buffer file_metrics x xs out_file refl whole,
        )
        refl

  abbrev csv_name : Bytes
  csv_name = file_name file_metrics [] sys.now

  csv_name-Plain : All Plain csv_name
  unfolding file_name
  csv_name-Plain = named-Plain sys.now [] tt

  store_dp-csv :
      (x : ℕ) (xs : Bytes) (entries : Entries)
      → sys.io.fwrite_count (x ∷ xs) ≡ length (x ∷ xs)
      → lookup csv_name entries ≡ none
      → store_dp sys file_metrics (x ∷ xs) [] (d ∷ ds) (some entries)
        ≡ value (0, some (place csv_name (regular (x ∷ xs)) entries))
  unfolding store_dp dp_get_backlog_file_path
  store_dp-csv x xs entries whole fresh =
      let room = works.alloc (length (d ∷ ds) + length csv_name + 1) in
      rw (store_dp, dp_get_backlog_file_path, room, store_dp, room)
        (store_in-csv x xs csv_name entries whole csv_name-Plain fresh)

process_error-keep :
    (dp_b send : Kept) (fuel type error backlog_kb b : ℕ) (bs : Bytes) (sys : Sys)
    (buff stream_id : Bytes) (entries : Entries)
    → Works sys.calls
    → (error == file_metrics_binary || error == file_path_binary) ≡ false
    → is_kept send error ≡ true
    → backlog_kb ≢ 0
    → dp_process_send_dp_error dp_b send fuel sys type error buff stream_id
        (some (b ∷ bs))
        backlog_kb
        (some entries)
      ≡ after_check sys type buff stream_id (b ∷ (bs ++ codes "/cccs/")) (
          check_backlog_size sys.calls fuel
            (some (b ∷ (bs ++ codes "/cccs/")))
            backlog_kb
            (some entries))
unfolding dp_process_send_dp_error keep no_backlog dp_get_backlog_dir
process_error-keep dp_b send fuel type error backlog_kb b bs sys buff stream_id entries works plain
      kept limited =
    let bound : (backlog_kb == 0) ≡ false = ground arith in
    rw (plain, bound, kept, works.alloc (length ((b ∷ bs) ++ codes "/cccs/") + 1)) refl

-- The data points of a CSV text that could not be sent, where every call of the system succeeds,
-- the heap gives a byte more than it is asked for at the path of each entry of the backlog, there
-- is more fuel than files, and the backlog has a limit and no file of that time. If the error is
-- one of those after which data are kept, and is not the number of a type of binary data, the size
-- of the backlog is checked; and if that succeeds the text is stored in a file named for the time,
-- beside the files that are left, the result is 0, and the backlog exceeds its limit at most by the
-- text. Else the result is 1, and nothing is stored.
pub dp_process_send_dp_error-stores :
    (dp_b send : Kept) (fuel error backlog_kb b : ℕ) (bs : Bytes) (sys : Sys) (x : ℕ) (xs : Bytes)
    (entries : Entries)
    → Works sys.calls
    → ((path : Bytes) → sys.io.opens path ≡ true)
    → sys.io.fwrite_count (x ∷ xs) ≡ length (x ∷ xs)
    → (b == 0) ≡ false
    → (error == file_metrics_binary || error == file_path_binary) ≡ false
    → is_kept send error ≡ true
    → backlog_kb ≢ 0
    → files entries < fuel
    → Distinct entries
    → Slack sys.calls (b ∷ (bs ++ codes "/cccs/")) entries
    → weight entries < 2 ^ 64
    → lookup (file_name file_metrics [] sys.now) entries ≡ none
    → (r : ℕ × Entries) × Trimmed (backlog_kb * 1024) entries r
      × (((left : Entries) × (dp_process_send_dp_error dp_b send fuel sys file_metrics error
                (x ∷ xs)
                []
                (some (b ∷ bs))
                backlog_kb
                (some entries)
              ≡ value (0, some left))
            × (left ≡ place (file_name file_metrics [] sys.now) (regular (x ∷ xs)) r.1)
            × (lookup (file_name file_metrics [] sys.now) left ≡ some (regular (x ∷ xs)))
            × (weight left ≤ backlog_kb * 1024 + length (x ∷ xs)))
          ⊎ ((r.0 ≡ 1)
              × (dp_process_send_dp_error dp_b send fuel sys file_metrics error
                    (x ∷ xs)
                    []
                    (some (b ∷ bs))
                    backlog_kb
                    (some entries)
                  ≡ value (1, some r.1))))
unfolding after_check
dp_process_send_dp_error-stores dp_b send fuel error backlog_kb b bs sys x xs entries works opens
      whole text plain kept limited enough distinct slack small fresh =
    let dir_end = bs ++ codes "/cccs/" in
    let (r, run, t) =
      check_backlog_size-Trimmed sys.calls works b dir_end backlog_kb fuel entries limited enough
        distinct slack small in
    let path =
      process_error-keep dp_b send fuel file_metrics error backlog_kb b bs sys (x ∷ xs) [] entries
        works plain kept limited in
    let name = file_name file_metrics [] sys.now in
    (
      r,
      t,
      elim t.outcome [
        | inl (ok, fits) ↦
            let some_name : lookup name r.1 ≡ none =
              ap (lookup name) t.left ∙ lookup-drop_oldest name t.k entries fresh in
            let stored = store_dp-csv sys works opens b dir_end text x xs r.1 whole some_name in
            let size = weight-place name (x ∷ xs) r.1 in
            inl (
              place name (regular (x ∷ xs)) r.1,
              path ∙ rw (run, ok) stored,
              refl,
              lookup-place_self name (regular (x ∷ xs)) r.1,
              omega arith,
            )
        | inr (failed, over, dry) ↦ inr (failed, path ∙ rw (run, failed) refl)
      ],
    )
