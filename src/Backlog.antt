-- ===== src/Backlog.antt =====
-- library/src/_cc_datapoints.c and library/src/utils.c: the directory in which data points wait that
-- could not be sent. A directory is the list of its entries, less "." and "..", in the order of
-- alphasort, so that the oldest file stands first.
pub mod Trim
pub mod Copy
pub mod Directory
pub mod Store
pub mod Send
use cc_dey.Base.{
  ℕ, zero, suc, ◌+◌, ◌*◌, ◌%◌, ◌^◌, Bool, true, false, Option, none, some, List, [], ◌∷◌, ◌++◌,
  Bytes, codes, length, ltb, eq_bytes, ◌==◌, if◌then◌else◌,
}

mutual
  pub data Node : Type 0 where
    regular : Bytes → Node
    folder : Entries → Node

  pub data Entries : Type 0 where
    no_entry : Entries
    entry : Bytes → Node → Entries → Entries

-- Which calls of the system succeed, by their path (or size), how many bytes a block really has that
-- was allocated for a number of bytes, and what S_ISREG makes of a buffer that a stat that failed has
-- left alone.
pub record Calls : Type 0 where
  pub opens : Bytes → Bool
  pub stats : Bytes → Bool
  pub removes : Bytes → Bool
  pub alloc : ℕ → Bool
  pub usable : ℕ → ℕ
  pub garbage_regular : Bool

-- What a call comes to: its value; or it is not over; or it writes behind a block of the heap.
pub data Result {ℓ} (A : Type ℓ) : Type ℓ where
  value : A → Result A
  looping fault : Result A

-- What the search for the next file gives: its name, NULL, or a write behind the block of the path.
pub data Next : Type 0 where
  next_file : Bytes → Next
  no_next overflow : Next

-- What get_directory_size gives: 0 and the size, -1, or 1.
pub data Size : Type 0 where
  size : ℕ → Size
  absent failed : Size

unfoldable pub in_dir : Bytes → Bytes → Bytes
in_dir dir name = dir ++ (b'/' ∷ name)

-- *dir_size += s, an unsigned long long.
unfoldable pub add_size : ℕ → ℕ → ℕ
add_size acc s = (acc + s) % 2 ^ 64

-- An unlink, or an rmdir, which a directory with entries refuses.
unfoldable pub delete : Node → Entries → Option Entries
delete (regular data_bytes) later = some later
delete (folder no_entry) later = some later
delete (folder (entry name node inner)) later = none

module _ (calls : Calls) where
  -- The loop over the entries; `none` is a failure.
  unfoldable pub entries_size : Bytes → ℕ → Entries → Option ℕ
  unfolding in_dir add_size
  entries_size dir acc no_entry = some acc
  entries_size dir acc (entry name (regular data_bytes) later) =
      let rest = entries_size dir (add_size acc (length data_bytes)) later in
      if calls.stats (in_dir dir name) then rest else none
  entries_size dir acc (entry name (folder inner) later) =
      if calls.stats (in_dir dir name)
      then (if calls.opens (in_dir dir name)
          then elim (entries_size (in_dir dir name) 0 inner) [
            | none ↦ none
            | some s ↦ entries_size dir (add_size acc s) later
          ]
          else none)
      else none

  unfoldable pub size_or_failed : Option ℕ → Size
  size_or_failed none = failed
  size_or_failed (some s) = size s

  -- A directory that does not exist is `none`.
  unfoldable pub get_directory_size : Bytes → Option Entries → Size
  unfolding size_or_failed
  get_directory_size [] entries = size 0
  get_directory_size (b ∷ bs) none = absent
  get_directory_size (b ∷ bs) (some entries) =
      if calls.opens (b ∷ bs) then size_or_failed (entries_size (b ∷ bs) 0 entries) else failed

  unfoldable pub is_regular : Node → Bool
  is_regular (regular data_bytes) = true
  is_regular (folder inner) = false

  -- S_ISREG after a stat whose result is not looked at.
  unfoldable pub stat_regular : Bytes → Node → Bool
  unfolding is_regular
  stat_regular path node = if calls.stats path then is_regular node else calls.garbage_regular

  -- The name of the first entry that is a regular file; a heap that is full ends the search. The
  -- block has room for "%s%s" and its end, and "%s/%s" is written, a byte more.
  unfoldable pub next_entry : Bytes → Entries → Next
  unfolding stat_regular in_dir
  next_entry dir no_entry = no_next
  next_entry dir (entry name node later) =
      let rest = next_entry dir later in
      let len = length dir + length name in
      if calls.alloc (len + 1)
      then (if ltb (calls.usable (len + 1)) (len + 2)
          then overflow
          else if stat_regular (in_dir dir name) node
          then next_file name
          else rest)
      else no_next

  unfoldable pub dp_get_next_store_dp_file : Option Bytes → Option Entries → Next
  unfolding next_entry
  dp_get_next_store_dp_file none entries = no_next
  dp_get_next_store_dp_file (some []) entries = no_next
  dp_get_next_store_dp_file (some (b ∷ bs)) none = no_next
  dp_get_next_store_dp_file (some (b ∷ bs)) (some entries) = next_entry (b ∷ bs) entries

  unfoldable pub keep_before : Bytes → Node → Option Entries → Option Entries
  keep_before name node none = none
  keep_before name node (some later) = some (entry name node later)

  -- What remove of <stdio.h> leaves of the directory that has the file; `none` is a failure.
  unfoldable pub remove_entry : Bytes → Bytes → Entries → Option Entries
  unfolding delete keep_before in_dir
  remove_entry dir target no_entry = none
  remove_entry dir target (entry name node later) =
      let rest = keep_before name node (remove_entry dir target later) in
      if eq_bytes name target
      then (if calls.removes (in_dir dir name) then delete node later else none)
      else rest

  -- remove(NULL) fails with EFAULT.
  unfoldable pub remove_file : Bytes → Next → Entries → Result (Option Entries)
  unfolding remove_entry
  remove_file dir no_next entries = value none
  remove_file dir (next_file name) entries = value (remove_entry dir name entries)
  remove_file dir overflow entries = fault

  -- What is left; `none` is a result of 1.
  unfoldable pub remove_oldest_stored_data : Bytes → Entries → Result (Option Entries)
  unfolding dp_get_next_store_dp_file remove_file
  remove_oldest_stored_data dir entries =
      remove_file dir (dp_get_next_store_dp_file (some dir) (some entries)) entries

  -- The loop of check_backlog_size on fuel: what it returns and what it leaves.
  unfoldable pub trim_loop : ℕ → Bytes → ℕ → ℕ → Entries → Result (ℕ × Entries)
  unfolding remove_oldest_stored_data get_directory_size
  trim_loop zero dir backlog_kb dir_size entries = looping
  trim_loop (suc fuel) dir backlog_kb dir_size entries =
      if ltb (backlog_kb * 1024) dir_size
      then elim (remove_oldest_stored_data dir entries) [
        | looping ↦ looping
        | fault ↦ fault
        | value removed ↦ elim removed [
          | none ↦ value (1, entries)
          | some left ↦ elim (get_directory_size dir (some left)) [
            | size s ↦ trim_loop fuel dir backlog_kb s left
            | absent ↦ value (1, left)
            | failed ↦ value (1, left)
          ]
        ]
      ]
      else value (0, entries)

  unfoldable pub in_place : Result (ℕ × Entries) → Result (ℕ × Option Entries)
  in_place looping = looping
  in_place fault = fault
  in_place (value (ret, entries)) = value (ret, some entries)

  unfoldable pub check_size : ℕ → Bytes → ℕ → Option Entries → Size → Result (ℕ × Option Entries)
  unfolding trim_loop in_place
  check_size fuel dir backlog_kb entries absent = value (0, entries)
  check_size fuel dir backlog_kb entries failed = value (1, entries)
  check_size fuel dir backlog_kb none (size s) =
      value (if ltb (backlog_kb * 1024) s then 1 else 0, none)
  check_size fuel dir backlog_kb (some entries) (size s) =
      in_place (trim_loop fuel dir backlog_kb s entries)

  unfoldable pub check_backlog_size :
      ℕ → Option Bytes → ℕ → Option Entries → Result (ℕ × Option Entries)
  unfolding check_size get_directory_size
  check_backlog_size fuel none backlog_kb entries = value (0, entries)
  check_backlog_size fuel (some []) backlog_kb entries = value (0, entries)
  check_backlog_size fuel (some (b ∷ bs)) backlog_kb entries =
      if backlog_kb == 0
      then value (0, entries)
      else check_size fuel (b ∷ bs) backlog_kb entries (get_directory_size (b ∷ bs) entries)
