-- ===== src/Backlog/Send.antt =====
-- library/src/_cc_datapoints.c, `dp_send_stored_data`: the oldest file of the backlog is sent, and
-- removed once the cloud has it.
use cc_dey.Base.{
  ℕ, subst, ◌+◌, ◌/◌, ◌≡◌, ◌≢◌, refl, true, false, ◌||◌, Option, none, some, [], ◌∷◌, ◌++◌, Bytes,
  codes, length, All, ◌==◌, suc, sym, ap, ◌∙◌, Bool, uncons, Bool-cases, append-nil, append_assoc,
  length-append, if◌then◌else◌, arith, inl, inr, ◌⊎◌, ltb, All-append, ◌<◌, ◌^◌,
}
use cc_dey.Decimal.{digits}
use cc_dey.Decimal.RoundTrip.{IsDigit, digits-IsDigit}
use cc_dey.Socket.{Timeval}
use cc_dey.Backlog.{
  Result, value, fault, Next, next_file, no_next, overflow, Entries, Calls, in_dir, remove_entry,
  dp_get_next_store_dp_file,
}
use cc_dey.Backlog.Trim.{files, without_oldest, Distinct, Slack, Works, no_file, found, oldest}
use cc_dey.Backlog.Directory.{base_name, last_component, or_root, strip_slashes}
use cc_dey.Backlog.Store.{
  dp_get_backlog_dir, file_name, three_digits, file_path_binary, file_metrics_binary,
}
use cc_dey.Backlog.Store.Stored.{Plain, strip_slashes-Plain, named, named-Plain}
use cc_dey.Backlog.Store.Slash.{strip_slashes-append}

-- ccapi_send_file and ccapi_dp_binary_send_file: the code for a path, and a stream.
pub record Uploader : Type 0 where
  pub send_file : Bytes → ℕ
  pub binary_send_file : Bytes → Bytes → ℕ

-- strchr(file_name, '_') + 1, if there is one.
unfoldable pub stream_of : Bytes → Option Bytes
stream_of [] = none
stream_of (c ∷ s) = if c == b'_' then some s else stream_of s

unfoldable pub upload_to : Uploader → Bytes → Option Bytes → ℕ
upload_to cloud path none = cloud.send_file path
upload_to cloud path (some []) = cloud.send_file path
upload_to cloud path (some (c ∷ s)) = cloud.binary_send_file path (c ∷ s)

-- The code with which a file of the backlog is sent.
unfoldable pub upload_file : Uploader → Bytes → Bytes → ℕ
unfolding upload_to stream_of base_name in_dir
upload_file cloud dir name =
    upload_to cloud (in_dir dir name) (stream_of (base_name (in_dir dir name)))

unfoldable pub after_remove : Entries → Option Entries → Option ℕ × Option Entries
after_remove entries none = (none, some entries)
after_remove entries (some left) = (some 0, some left)

unfoldable pub send_entry : Calls → Uploader → Bytes → Bytes → Entries → Option ℕ × Option Entries
unfolding upload_file after_remove
send_entry calls cloud dir name entries =
    if calls.alloc (length dir + length name + 2)
    then (if upload_file cloud dir name == 0
        then after_remove entries (remove_entry calls dir name entries)
        else (some (upload_file cloud dir name), some entries))
    else (none, some entries)

unfoldable pub send_next :
    Calls → Uploader → Option Bytes → Next → Option Entries → Result (Option ℕ × Option Entries)
unfolding send_entry
send_next calls cloud dir overflow entries = fault
send_next calls cloud dir no_next entries = value (some 0, entries)
send_next calls cloud none (next_file name) entries = value (some 0, entries)
send_next calls cloud (some dir) (next_file name) none = value (some 0, none)
send_next calls cloud (some dir) (next_file name) (some entries) =
    value (send_entry calls cloud dir name entries)

-- The result, where `none` is -1, and the backlog directory.
unfoldable pub dp_send_stored_data :
    Calls → Uploader → Option Bytes → Option Entries → Result (Option ℕ × Option Entries)
unfolding send_next
dp_send_stored_data calls cloud backlog_dir_path entries =
    let dir = dp_get_backlog_dir calls.alloc backlog_dir_path in
    send_next calls cloud dir (dp_get_next_store_dp_file calls dir entries) entries

-- The oldest file is sent. It is removed if the cloud took it; else it stays, and the result is the
-- code of the cloud. Where there is no file, nothing is sent. All this where every call of the
-- system succeeds, the names of the directory differ, and the heap gives a byte more than it is
-- asked for at the path of each entry.
pub dp_send_stored_data-oldest :
    (calls : Calls) (cloud : Uploader) (b : ℕ) (bs : Bytes) (entries : Entries)
    → Works calls
    → Distinct entries
    → Slack calls (b ∷ (bs ++ codes "/cccs/")) entries
    → let dir = b ∷ (bs ++ codes "/cccs/") in
      let r = dp_send_stored_data calls cloud (some (b ∷ bs)) (some entries) in
      ((files entries ≡ 0) × (r ≡ value (some 0, some entries)))
      ⊎ ((files entries ≢ 0)
          × (name : Bytes) × (dp_get_next_store_dp_file calls (some dir) (some entries)
              ≡ next_file name)
          × (r
              ≡ value (
                  if upload_file cloud dir name == 0
                  then (some 0, some (without_oldest entries))
                  else (some (upload_file cloud dir name), some entries))))
unfolding dp_send_stored_data dp_get_backlog_dir dp_get_next_store_dp_file after_remove
dp_send_stored_data-oldest calls cloud b bs entries works distinct slack =
    let dir = b ∷ (bs ++ codes "/cccs/") in
    let room = works.alloc (length dir + 1) in
    elim (oldest calls works dir entries distinct slack) [
      | no_file none_left e ↦ inl (none_left, rw (room, e) refl)
      | found name some_file e unused gone ↦
          let more = works.alloc (length dir + length name + 2) in
          inr (some_file, name, e, rw (room, e, more, gone) refl)
    ]

-- A byte that is not '_'.
abbrev Joined : ℕ → Type 0
Joined c = (c == b'_') ≡ false

stream_of-behind :
    (s stream_id : Bytes) → All Joined s → stream_of (s ++ (b'_' ∷ stream_id)) ≡ some stream_id
unfolding stream_of
stream_of-behind [] stream_id h = refl
stream_of-behind (c ∷ s) stream_id (h, rest) = rw h (stream_of-behind s stream_id rest)

IsDigit-Joined : (s : Bytes) → All IsDigit s → All Joined s
IsDigit-Joined [] h = tt
IsDigit-Joined (c ∷ s) (h, rest) = (ground arith, IsDigit-Joined s rest)

three_digits-IsDigit : (n : ℕ) → n < 1000 → All IsDigit (three_digits n)
unfolding three_digits
three_digits-IsDigit n small =
    let bound : ltb n 1000 ≡ true = ground arith in
    rw bound (omega arith, (omega arith, (omega arith, tt)))

last_component-Plain : (start s : Bytes) → All Plain s → last_component start s ≡ start ++ s
unfolding last_component
last_component-Plain start [] h = sym (append-nil start)
last_component-Plain start (c ∷ s) (h, rest) =
    rw h (last_component-Plain (start ++ c ∷ []) s rest ∙ append_assoc start (c ∷ []) s)

last_component-behind :
    (start s name : Bytes) → All Plain name → last_component start (s ++ (b'/' ∷ name)) ≡ name
unfolding last_component
last_component-behind start [] name h = last_component-Plain [] name h
last_component-behind start (c ∷ s) name h = elim (Bool-cases (c == b'/')) [
  | inl slash ↦ rw slash (last_component-behind [] s name h)
  | inr other ↦ rw other (last_component-behind (start ++ c ∷ []) s name h)
]

or_root-some : (path s : Bytes) (n : ℕ) → length s ≡ suc n → or_root path s ≡ last_component [] s
unfolding or_root
or_root-some path [] n e = absurd (omega arith)
or_root-some path (x ∷ s) n e = refl

base_name-in_dir :
    (dir : Bytes) (x : ℕ) (name : Bytes)
    → All Plain (x ∷ name)
    → base_name (in_dir dir (x ∷ name)) ≡ x ∷ name
unfolding base_name in_dir
base_name-in_dir dir x name h =
    let path = dir ++ (b'/' ∷ x ∷ name) in
    let joined = append_assoc dir (b'/' ∷ []) (x ∷ name) in
    let same =
      ap strip_slashes (sym joined)
      ∙ strip_slashes-append (dir ++ (b'/' ∷ [])) x name (strip_slashes-Plain (x ∷ name) h)
      ∙ joined in
    ap (or_root path) same
    ∙ or_root-some path path (length dir + suc (length name))
        (omega (arith, length-append dir (b'/' ∷ x ∷ name)))
    ∙ last_component-behind [] dir (x ∷ name) h

if-Plain : (b : Bool) (s : Bytes) → All Plain s → All Plain (if b then s else [])
if-Plain true s h = h
if-Plain false s h = tt

named-cons : (now : Timeval) (end : Bytes) → (x : ℕ) × (xs : Bytes) × (named now end ≡ x ∷ xs)
named-cons now end = uncons (named now end) (
    omega (arith, length-append (digits 19 now.sec ++ three_digits (now.usec / 1000)) (b'_' ∷ end)))

-- The stream id that is read out of the path of a backlog file is the one it was stored under, for
-- binary data, and empty for CSV. This is where the stream id has no '/', and the time is one that
-- gettimeofday gives.
pub stream_of-file_name :
    (dir : Bytes) (type : ℕ) (stream_id : Bytes) (now : Timeval)
    → now.sec < 2 ^ 63
    → now.usec < 1000000
    → All Plain stream_id
    → stream_of (base_name (in_dir dir (file_name type stream_id now)))
      ≡ some (if type == file_path_binary || type == file_metrics_binary then stream_id else [])
unfolding file_name
stream_of-file_name dir type stream_id now sec usec plain =
    let start = digits 19 now.sec ++ three_digits (now.usec / 1000) in
    let end = if type == file_path_binary || type == file_metrics_binary then stream_id else [] in
    let plain_end =
      if-Plain (type == file_path_binary || type == file_metrics_binary) stream_id plain in
    let (x, name, e) = named-cons now end in
    ap stream_of (
      ap (λ n. base_name (in_dir dir n)) e
      ∙ base_name-in_dir dir x name (subst (All Plain) e (named-Plain now end plain_end))
      ∙ sym e)
    ∙ stream_of-behind start end (
        IsDigit-Joined start (
          All-append IsDigit (digits 19 now.sec) (three_digits (now.usec / 1000))
            (digits-IsDigit 19 now.sec (omega arith))
            (three_digits-IsDigit (now.usec / 1000) (omega arith))))
