-- ===== src/Backlog/Store/Slash.antt =====
-- library/src/_cc_datapoints.c, `store_dp`: binary data whose stream id has a '/', and the search
-- for the next file behind it.
use cc_dey.Base.{
  ℕ, ◌+◌, ◌/◌, ◌≡◌, ◌≢◌, refl, sym, ap, ◌∙◌, Bool, true, false, Option, none, some, [], ◌∷◌, ◌++◌,
  Bytes, length, eq_bytes, ◌==◌, arith, Bool-cases, inl, inr, append-nil, append_assoc,
  length-append, All, ◌≤◌, ltb,
}
use cc_dey.Decimal.{digits}
use cc_dey.Backlog.{
  value, Node, regular, folder, Entries, no_entry, entry, Calls, in_dir, is_regular, stat_regular,
  next_entry, dp_get_next_store_dp_file,
}
use cc_dey.Backlog.Trim.{Slack, Works}
use cc_dey.Backlog.Copy.{Effect, file}
use cc_dey.Backlog.Directory.{
  before_name, lookup, place, make_dir, mkpath, is_folder, in_directory, at_node, at_path,
  split_path, trim_slash, strip_slashes, at_slash,
}
use cc_dey.Backlog.Store.{
  three_digits, Sys, file_name, dp_get_backlog_file_path, write_file, present, write_below,
  store_in, store_dp, file_metrics_binary,
}
use cc_dey.Backlog.Store.Stored.{
  lookup-place_self, Plain, split_path-Plain, strip_slashes-Plain, ends_in_slash-same, named,
  named-Plain, write_file-buffer,
}

split_path-slash :
    (start s c : Bytes)
    → All Plain s
    → All Plain c
    → length (start ++ s) ≢ 0
    → split_path start (s ++ (b'/' ∷ c)) ≡ ((start ++ s) ∷ [], c)
unfolding split_path
split_path-slash start [] c hs hc some_name =
    let e = append-nil start in
    let full : (length start == 0) ≡ false = ground (arith, ap length e) in
    rw (split_path-Plain [] c hc, full) (λ i. (sym e i ∷ [], c))
split_path-slash start (x ∷ s) c (h, hs) hc some_name =
    let e = append_assoc start (x ∷ []) s in
    rw h (
      split_path-slash (start ++ x ∷ []) s c hs hc (ground (arith, ap length e))
      ∙ (λ i. (e i ∷ [], c)))

pub strip_slashes-append :
    (s : Bytes) (y : ℕ) (ys : Bytes)
    → strip_slashes (y ∷ ys) ≡ y ∷ ys
    → strip_slashes (s ++ (y ∷ ys)) ≡ s ++ (y ∷ ys)
unfolding strip_slashes trim_slash
strip_slashes-append [] y ys e = e
strip_slashes-append (c ∷ []) y ys e = ap (trim_slash c) (strip_slashes-append [] y ys e)
strip_slashes-append (c ∷ x ∷ s) y ys e = ap (trim_slash c) (strip_slashes-append (x ∷ s) y ys e)

abbrev is_file : Option Node → Bool
is_file none = false
is_file (some (regular content)) = true
is_file (some (folder inner)) = false

-- The path of a name is within its block.
abbrev Room : Calls → Bytes → Bytes → Type 0
Room calls dir name = length dir + length name + 2 ≤ calls.usable (length dir + length name + 1)

module _ (calls : Calls) (works : Works calls) where
  enough_room : (n usable : ℕ) → n + 2 ≤ usable → ltb usable (n + 2) ≡ false
  enough_room n usable h = ground arith

  -- A directory where there is no file is passed over.
  next_entry-place_folder :
      (dir name : Bytes) (inner entries : Entries)
      → Room calls dir name
      → Slack calls dir entries
      → is_file (lookup name entries) ≡ false
      → next_entry calls dir (place name (folder inner) entries) ≡ next_entry calls dir entries
  unfolding next_entry stat_regular is_regular place lookup
  next_entry-place_folder dir name inner no_entry own slack h =
      rw
        (
          works.alloc (length dir + length name + 1),
          enough_room (length dir + length name) _ own,
          works.stats (in_dir dir name),
        )
        refl
  next_entry-place_folder dir name inner (entry other (regular d) later) own (one, slack) h =
      let room = works.alloc (length dir + length name + 1) in
      let fits = enough_room (length dir + length name) _ own in
      let stat = works.stats (in_dir dir name) in
      let room_other = works.alloc (length dir + length other + 1) in
      let fits_other = enough_room (length dir + length other) _ one in
      let stat_other = works.stats (in_dir dir other) in
      elim (Bool-cases (eq_bytes name other)) [
        | inl same ↦ absurd (ground arith)
        | inr differs ↦ elim (Bool-cases (before_name name other)) [
          | inl first ↦ rw (differs, first, room, fits, stat) refl
          | inr behind ↦ rw (differs, behind, room_other, fits_other, stat_other) refl
        ]
      ]
  next_entry-place_folder dir name inner (entry other (folder old) later) own (one, slack) h =
      let room = works.alloc (length dir + length name + 1) in
      let fits = enough_room (length dir + length name) _ own in
      let stat = works.stats (in_dir dir name) in
      let room_other = works.alloc (length dir + length other + 1) in
      let fits_other = enough_room (length dir + length other) _ one in
      let stat_other = works.stats (in_dir dir other) in
      elim (Bool-cases (eq_bytes name other)) [
        | inl same ↦ rw (same, room, fits, stat, room_other, fits_other, stat_other) refl
        | inr differs ↦ elim (Bool-cases (before_name name other)) [
          | inl first ↦ rw (differs, first, room, fits, stat) refl
          | inr behind ↦
              rw (differs, behind, room_other, fits_other, stat_other)
                (next_entry-place_folder dir name inner later own slack (ground arith))
        ]
      ]

  Slack-place_folder :
      (dir name : Bytes) (inner entries : Entries)
      → Room calls dir name
      → Slack calls dir entries
      → Slack calls dir (place name (folder inner) entries)
  unfolding place
  Slack-place_folder dir name inner no_entry own slack = (own, tt)
  Slack-place_folder dir name inner (entry other kept later) own (one, slack) =
      elim (Bool-cases (eq_bytes name other)) [
        | inl same ↦ rw same (own, slack)
        | inr differs ↦ elim (Bool-cases (before_name name other)) [
          | inl first ↦ rw (differs, first) (own, (one, slack))
          | inr behind ↦
              rw (differs, behind) (one, Slack-place_folder dir name inner later own slack)
        ]
      ]

mkpath-new :
    (mkdir : Bytes → Bool) (dir : Bytes) (entries : Entries)
    → mkdir dir ≡ true
    → lookup dir entries ≡ none
    → mkpath mkdir (dir ∷ []) entries ≡ (true, place dir (folder no_entry) entries)
unfolding mkpath make_dir
mkpath-new mkdir dir entries made fresh = rw (mkpath, fresh, made) refl

at_path-below :
    (effect : Bool → Effect) (dir name content : Bytes) (entries : Entries)
    → effect false ≡ file content true
    → lookup dir entries ≡ some (folder no_entry)
    → at_path effect (dir ∷ []) name entries
      ≡ some (0, place dir (folder (entry name (regular content) no_entry)) entries)
unfolding at_path at_node in_directory is_folder lookup place
at_path-below effect dir name content entries e h = rw (at_path, h, at_node, e) refl

module _ (sys : Sys) (works : Works sys.calls) (opens : (path : Bytes) → sys.io.opens path ≡ true)
    (d : ℕ) (ds : Bytes) (text : (d == 0) ≡ false) where
  -- Below a directory that is not there yet.
  store_in-below :
      (x : ℕ) (xs out_file dir name : Bytes) (entries : Entries)
      → sys.io.fwrite_count (x ∷ xs) ≡ length (x ∷ xs)
      → sys.mkdir dir ≡ true
      → strip_slashes out_file ≡ out_file
      → split_path [] out_file ≡ (dir ∷ [], name)
      → lookup dir entries ≡ none
      → store_in sys file_metrics_binary (x ∷ xs) (d ∷ ds) out_file (some entries)
        ≡ value (
          0,
          some (
              place dir
                (folder (entry name (regular (x ∷ xs)) no_entry))
                (place dir (folder no_entry) entries)),
        )
  unfolding store_in write_below present at_slash
  store_in-below x xs out_file dir name entries whole made same split fresh =
      let write = write_file sys.io file_metrics_binary (x ∷ xs) ((d ∷ ds) ++ out_file) in
      let below = place dir (folder no_entry) entries in
      rw (ap (split_path []) same ∙ split) (
        ap (write_below sys file_metrics_binary (x ∷ xs) (d ∷ ds) out_file (dir ∷ [], name))
          (mkpath-new sys.mkdir dir entries made fresh)
        ∙ ap (λ slash. present (at_path (at_slash slash write) (dir ∷ []) name below))
            (ends_in_slash-same out_file same)
        ∙ ap present (
            at_path-below (at_slash false write) dir name (x ∷ xs) below
              (write_file-buffer sys works opens d ds text file_metrics_binary x xs out_file refl
                whole)
              (lookup-place_self dir (folder no_entry) entries)))

  -- Binary data with a stream id "a/b", where `a` and `b` have no '/' and `b` is not empty. Every
  -- call of the system succeeds, the heap gives a byte more than it is asked for at the paths that
  -- are looked at, and the backlog has no entry for that time and "a". Storing them gives 0, and
  -- puts them into a file "b" of a new subdirectory. The next file of the backlog is the one it was
  -- before; if there was none, there still is none.
  pub store_dp-slash :
      (x : ℕ) (xs stream_id a : Bytes) (y : ℕ) (ys : Bytes) (entries : Entries)
      → stream_id ≡ a ++ (b'/' ∷ y ∷ ys)
      → All Plain a
      → All Plain (y ∷ ys)
      → Room sys.calls (d ∷ ds) (named sys.now a)
      → Slack sys.calls (d ∷ ds) entries
      → sys.io.fwrite_count (x ∷ xs) ≡ length (x ∷ xs)
      → sys.mkdir (named sys.now a) ≡ true
      → lookup (named sys.now a) entries ≡ none
      → (left : Entries) × (store_dp sys file_metrics_binary
            (x ∷ xs)
            stream_id
            (d ∷ ds)
            (some entries)
          ≡ value (0, some left))
        × (lookup (named sys.now a) left
            ≡ some (folder (entry (y ∷ ys) (regular (x ∷ xs)) no_entry)))
        × (dp_get_next_store_dp_file sys.calls (some (d ∷ ds)) (some left)
            ≡ dp_get_next_store_dp_file sys.calls (some (d ∷ ds)) (some entries))
  unfolding store_dp dp_get_backlog_file_path file_name dp_get_next_store_dp_file
  store_dp-slash x xs stream_id a y ys entries e plain_a plain_b own slack whole made fresh =
      let b = y ∷ ys in
      let dir = named sys.now a in
      let inner = entry b (regular (x ∷ xs)) no_entry in
      let room =
        works.alloc
          (length (d ∷ ds) + length (file_name file_metrics_binary stream_id sys.now) + 1) in
      let below = place dir (folder no_entry) entries in
      let left = place dir (folder inner) below in
      let name : file_name file_metrics_binary stream_id sys.now ≡ dir ++ (b'/' ∷ b) =
        ap (λ s. digits 19 sys.now.sec ++ three_digits (sys.now.usec / 1000) ++ (b'_' ∷ s)) e
        ∙ sym (
            append_assoc (digits 19 sys.now.sec ++ three_digits (sys.now.usec / 1000)) (b'_' ∷ a)
              (b'/' ∷ b)) in
      let split = split_path-slash [] dir b (named-Plain sys.now a plain_a) plain_b (
        omega (
          arith,
          length-append (digits 19 sys.now.sec ++ three_digits (sys.now.usec / 1000)) (b'_' ∷ a),
        )) in
      let plain_end =
        strip_slashes-append (dir ++ (b'/' ∷ [])) y ys (strip_slashes-Plain b plain_b) in
      let joined = append_assoc dir (b'/' ∷ []) b in
      let unstripped = ap strip_slashes (name ∙ sym joined) ∙ plain_end ∙ joined ∙ sym name in
      (
        left,
        rw (store_dp, dp_get_backlog_file_path, room, store_dp, room)
            (store_in-below x xs (file_name file_metrics_binary stream_id sys.now) dir b entries
              whole made unstripped (ap (split_path []) name ∙ split) fresh),
        lookup-place_self dir (folder inner) below,
        next_entry-place_folder sys.calls works (d ∷ ds) dir inner below own
              (Slack-place_folder sys.calls works (d ∷ ds) dir no_entry entries own slack)
              (ap is_file (lookup-place_self dir (folder no_entry) entries))
            ∙ next_entry-place_folder sys.calls works (d ∷ ds) dir no_entry entries own slack
                (ap is_file fresh),
      )
