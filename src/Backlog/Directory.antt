-- ===== src/Backlog/Directory.antt =====
-- library/src/utils.c and library/src/_cc_datapoints.c: the calls that change the backlog directory,
-- with `mkpath`. A path is the list of its components, less the empty ones.
use cc_dey.Base.{
  ℕ, Bool, true, false, ◌&&◌, Option, none, some, List, [], ◌∷◌, ◌++◌, Bytes, length, ltb, eq_bytes,
  ◌==◌, not, if◌then◌else◌,
}
use cc_dey.Backlog.{Node, regular, folder, Entries, no_entry, entry, delete}
use cc_dey.Backlog.Copy.{Effect, no_file, file, not_opened, removed, not_over}

-- The order of the names: that of their bytes.
unfoldable pub before_name : Bytes → Bytes → Bool
before_name [] [] = false
before_name [] (b ∷ bs) = true
before_name (a ∷ r) [] = false
before_name (a ∷ r) (b ∷ bs) =
    let later = before_name r bs in if ltb a b then true else (a == b) && later

unfoldable pub lookup : Bytes → Entries → Option Node
lookup name no_entry = none
lookup name (entry other node later) = if eq_bytes name other then some node else lookup name later

-- An entry takes the place of one with its name, or its own.
unfoldable pub place : Bytes → Node → Entries → Entries
unfolding before_name
place name node no_entry = entry name node no_entry
place name node (entry other kept later) =
    let rest = entry other kept (place name node later) in
    if eq_bytes name other
    then entry name node later
    else if before_name name other
    then entry name node (entry other kept later)
    else rest

-- The directory of a path, if it can be had: mkdir, where nothing is there.
unfoldable pub make_dir : Bool → Option Node → Option Entries
make_dir mkdir none = if mkdir then some no_entry else none
make_dir mkdir (some (folder inner)) = some inner
make_dir mkdir (some (regular data_bytes)) = none

-- The loop of mkpath; `mkdir` says which directories can be made. Those that are made before it
-- fails stay.
unfoldable pub mkpath : (Bytes → Bool) → List Bytes → Entries → Bool × Entries
unfolding make_dir place lookup
mkpath mkdir [] entries = (true, entries)
mkpath mkdir (name ∷ path) entries = elim (make_dir (mkdir name) (lookup name entries)) [
  | none ↦ (false, entries)
  | some inner ↦ let r = mkpath mkdir path inner in (r.0, place name (folder r.1) entries)
]

-- What a file operation leaves at a name: `none` where there is a directory. A file that is
-- removed may not be there.
unfoldable pub discard : Bytes → Entries → Entries
unfolding delete
discard name no_entry = no_entry
discard name (entry other node later) =
    let rest = entry other node (discard name later) in
    if eq_bytes name other
    then elim (delete node later) [ none ↦ entry other node later | some left ↦ left ]
    else rest

unfoldable pub is_folder : Option Node → Bool
is_folder none = false
is_folder (some (regular data_bytes)) = false
is_folder (some (folder inner)) = true

-- The result, and the directory; `none` is a call that is not over.
unfoldable pub in_directory : Effect → Bytes → Entries → Option (ℕ × Entries)
unfolding place discard
in_directory no_file name entries = some (0, entries)
in_directory (file content whole) name entries =
    some (if whole then 0 else 1, place name (regular content) entries)
in_directory not_opened name entries = some (1, entries)
in_directory removed name entries = some (1, discard name entries)
in_directory not_over name entries = none

unfoldable pub at_node :
    (Entries → Option (ℕ × Entries)) → Bytes → Entries → Option Node → Option (ℕ × Entries)
unfolding place
at_node act name entries (some (folder inner)) = elim (act inner) [
  | none ↦ none
  | some r ↦ some (r.0, place name (folder r.1) entries)
]
at_node act name entries (some (regular data_bytes)) = some (1, entries)
at_node act name entries none = some (1, entries)

-- A file operation on a path.
unfoldable pub at_path : (Bool → Effect) → List Bytes → Bytes → Entries → Option (ℕ × Entries)
unfolding in_directory at_node lookup is_folder
at_path effect [] name entries =
    in_directory (effect (is_folder (lookup name entries))) name entries
at_path effect (dir ∷ path) name entries =
    at_node (at_path effect path name) dir entries (lookup dir entries)

-- The components behind the first, when `start` is what has been read of it.
unfoldable pub split_path : Bytes → Bytes → List Bytes × Bytes
split_path start [] = ([], start)
split_path start (c ∷ s) =
    let (dirs, name) = split_path [] s in
    let more = split_path (start ++ c ∷ []) s in
    if c == b'/' then (if length start == 0 then dirs else start ∷ dirs, name) else more

unfoldable pub trim_slash : ℕ → Bytes → Bytes
trim_slash c [] = if c == b'/' then [] else c ∷ []
trim_slash c (x ∷ xs) = c ∷ (x ∷ xs)

-- The path without the '/' at its end, which dirname and basename pass over.
unfoldable pub strip_slashes : Bytes → Bytes
unfolding trim_slash
strip_slashes [] = []
strip_slashes (c ∷ s) = trim_slash c (strip_slashes s)

unfoldable pub ends_in_slash : Bytes → Bool
unfolding strip_slashes
ends_in_slash s = not (eq_bytes (strip_slashes s) s)

unfoldable pub last_component : Bytes → Bytes → Bytes
last_component start [] = start
last_component start (c ∷ s) =
    let rest = last_component [] s in
    let more = last_component (start ++ c ∷ []) s in if c == b'/' then rest else more

unfoldable pub or_root : Bytes → Bytes → Bytes
unfolding last_component
or_root [] [] = b'.' ∷ []
or_root (c ∷ s) [] = b'/' ∷ []
or_root path (x ∷ xs) = last_component [] (x ∷ xs)

-- basename of <libgen.h>.
unfoldable pub base_name : Bytes → Bytes
unfolding or_root strip_slashes
base_name path = or_root path (strip_slashes path)

-- A remove that fails.
unfoldable pub keep_file : Effect → Effect
keep_file no_file = no_file
keep_file (file content whole) = file content whole
keep_file not_opened = not_opened
keep_file removed = not_opened
keep_file not_over = not_over

-- No file can be opened or removed under a name that ends in '/'; a directory can be removed.
unfoldable pub at_slash : Bool → (Bool → Effect) → Bool → Effect
unfolding keep_file
at_slash slash effect is_dir =
    if slash then (if is_dir then effect true else keep_file (effect true)) else effect is_dir
