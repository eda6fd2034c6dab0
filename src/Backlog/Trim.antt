-- ===== src/Backlog/Trim.antt =====
-- library/src/_cc_datapoints.c, `check_backlog_size`: which files it removes.
use cc_dey.Base.{
  ℕ, zero, suc, ◌+◌, ◌*◌, ◌%◌, ◌^◌, ◌≤◌, ◌<◌, ◌≡◌, ◌≢◌, refl, ap, ◌∙◌, true, false, some, ◌∷◌,
  Bytes, length, ltb, eq_bytes, eq_bytes_iff, ◌==◌, arith, Bool-cases, ◌⊎◌, inl, inr,
}
use cc_dey.Backlog.{
  value, next_file, no_next, regular, folder, Entries, no_entry, entry, Calls, size, in_dir,
  add_size, entries_size, get_directory_size, size_or_failed, is_regular, stat_regular, next_entry,
  delete, keep_before, remove_entry, remove_file, remove_oldest_stored_data, trim_loop, check_size,
  in_place, check_backlog_size, dp_get_next_store_dp_file,
}

-- The bytes of the files of a directory, those of its subdirectories with them.
unfoldable pub weight : Entries → ℕ
weight no_entry = 0
weight (entry name (regular data_bytes) later) = length data_bytes + weight later
weight (entry name (folder inner) later) = weight inner + weight later

-- The number of files, less those of the subdirectories.
unfoldable pub files : Entries → ℕ
files no_entry = 0
files (entry name (regular data_bytes) later) = suc (files later)
files (entry name (folder inner) later) = files later

-- The directory less its first file.
unfoldable pub without_oldest : Entries → Entries
without_oldest no_entry = no_entry
without_oldest (entry name (regular data_bytes) later) = later
without_oldest (entry name (folder inner) later) = entry name (folder inner) (without_oldest later)

unfoldable pub drop_oldest : ℕ → Entries → Entries
unfolding without_oldest
drop_oldest zero entries = entries
drop_oldest (suc k) entries = drop_oldest k (without_oldest entries)

abbrev Unused : Bytes → Entries → Type 0
Unused name no_entry = Unit
Unused name (entry other node later) = (eq_bytes name other ≡ false) × Unused name later

-- The names of a directory differ.
abbrev pub Distinct : Entries → Type 0
Distinct no_entry = Unit
Distinct (entry name node later) = Unused name later × Distinct later

-- The heap gives a byte more than it is asked for, for the path of each entry.
abbrev pub Slack : Calls → Bytes → Entries → Type 0
Slack calls dir no_entry = Unit
Slack calls dir (entry name node later) =
    (length dir + length name + 2 ≤ calls.usable (length dir + length name + 1))
    × Slack calls dir later

-- Every call of the system succeeds.
pub record Works (calls : Calls) : Type 0 where
  pub opens : (path : Bytes) → calls.opens path ≡ true
  pub stats : (path : Bytes) → calls.stats path ≡ true
  pub removes : (path : Bytes) → calls.removes path ≡ true
  pub alloc : (n : ℕ) → calls.alloc n ≡ true

Unused-without_oldest :
    (name : Bytes) (entries : Entries) → Unused name entries → Unused name (without_oldest entries)
unfolding without_oldest
Unused-without_oldest name no_entry h = tt
Unused-without_oldest name (entry other (regular d) later) (h, rest) = rest
Unused-without_oldest name (entry other (folder inner) later) (h, rest) =
    (h, Unused-without_oldest name later rest)

Distinct-without_oldest : (entries : Entries) → Distinct entries → Distinct (without_oldest entries)
unfolding without_oldest
Distinct-without_oldest no_entry h = tt
Distinct-without_oldest (entry name (regular d) later) (h, rest) = rest
Distinct-without_oldest (entry name (folder inner) later) (h, rest) =
    (Unused-without_oldest name later h, Distinct-without_oldest later rest)

Slack-without_oldest :
    (calls : Calls) (dir : Bytes) (entries : Entries)
    → Slack calls dir entries
    → Slack calls dir (without_oldest entries)
unfolding without_oldest
Slack-without_oldest calls dir no_entry h = tt
Slack-without_oldest calls dir (entry name (regular d) later) (h, rest) = rest
Slack-without_oldest calls dir (entry name (folder inner) later) (h, rest) =
    (h, Slack-without_oldest calls dir later rest)

weight-without_oldest : (entries : Entries) → weight (without_oldest entries) ≤ weight entries
unfolding weight without_oldest
weight-without_oldest no_entry = omega arith
weight-without_oldest (entry name (regular d) later) = omega arith
weight-without_oldest (entry name (folder inner) later) =
    let less = weight-without_oldest later in omega arith

files-without_oldest :
    (entries : Entries) → files entries ≢ 0 → files entries ≡ suc (files (without_oldest entries))
unfolding files without_oldest
files-without_oldest no_entry h = absurd (h refl)
files-without_oldest (entry name (regular d) later) h = refl
files-without_oldest (entry name (folder inner) later) h = files-without_oldest later h

-- What a check of the size leaves: the directory less its `k` oldest files, where with any fewer
-- of them dropped the limit is exceeded; and either it is kept, and the result 0, or there is no
-- file left, and the result 1.
pub record Trimmed (limit : ℕ) (entries : Entries) (r : ℕ × Entries) : Type 0 where
  pub k : ℕ
  pub few : k ≤ files entries
  pub left : r.1 ≡ drop_oldest k entries
  pub needed : (j : ℕ) → j < k → limit < weight (drop_oldest j entries)
  pub outcome :
      ((r.0 ≡ 0) × (weight r.1 ≤ limit)) ⊎ ((r.0 ≡ 1) × (limit < weight r.1) × (files r.1 ≡ 0))

module _ (calls : Calls) (works : Works calls) where
  entries_size-weight :
      (dir : Bytes) (acc : ℕ) (entries : Entries)
      → acc + weight entries < 2 ^ 64
      → entries_size calls dir acc entries ≡ some (acc + weight entries)
  unfolding entries_size weight add_size
  entries_size-weight dir acc no_entry small = ap some (omega arith)
  entries_size-weight dir acc (entry name (regular d) later) small =
      let fits : (acc + length d) % 2 ^ 64 ≡ acc + length d = omega arith in
      let order : acc + length d + weight later ≡ acc + (length d + weight later) = omega arith in
      rw (works.stats (in_dir dir name), fits)
        (entries_size-weight dir (acc + length d) later (omega arith) ∙ ap some order)
  entries_size-weight dir acc (entry name (folder inner) later) small =
      let fits : (acc + (0 + weight inner)) % 2 ^ 64 ≡ acc + weight inner = omega arith in
      let order : acc + weight inner + weight later ≡ acc + (weight inner + weight later) =
        omega arith in
      rw
        (
          works.stats (in_dir dir name),
          works.opens (in_dir dir name),
          entries_size-weight (in_dir dir name) 0 inner (omega arith),
          fits,
        )
        (entries_size-weight dir (acc + weight inner) later (omega arith) ∙ ap some order)

  get_directory_size-weight :
      (b : ℕ) (bs : Bytes) (entries : Entries)
      → weight entries < 2 ^ 64
      → get_directory_size calls (b ∷ bs) (some entries) ≡ size (weight entries)
  unfolding get_directory_size size_or_failed
  get_directory_size-weight b bs entries small =
      let fits : 0 + weight entries < 2 ^ 64 = omega arith in
      rw (works.opens (b ∷ bs), entries_size-weight (b ∷ bs) 0 entries fits) (ap size (omega arith))

  pub fits_block :
      (dir name : Bytes)
      → length dir + length name + 2 ≤ calls.usable (length dir + length name + 1)
      → ltb (calls.usable (length dir + length name + 1)) (length dir + length name + 2) ≡ false
  fits_block dir name h = ground arith

  -- What the search for the next file and its removal come to.
  pub data Oldest (dir : Bytes) (entries : Entries) : Type 0 where
    no_file : files entries ≡ 0 → next_entry calls dir entries ≡ no_next → Oldest dir entries
    found :
        (name : Bytes)
        → files entries ≢ 0
        → next_entry calls dir entries ≡ next_file name
        → ((other : Bytes) → Unused other entries → eq_bytes other name ≡ false)
        → remove_entry calls dir name entries ≡ some (without_oldest entries)
        → Oldest dir entries

  -- An entry in front that is not a file.
  folder-Oldest :
      (dir name : Bytes) (inner later : Entries)
      → Unused name later
      → length dir + length name + 2 ≤ calls.usable (length dir + length name + 1)
      → Oldest dir later
      → Oldest dir (entry name (folder inner) later)
  unfolding files next_entry stat_regular is_regular remove_entry keep_before without_oldest
  folder-Oldest dir name inner later h slack (no_file none_left e) =
      let fits = fits_block dir name slack in
      no_file none_left
        (rw (works.alloc (length dir + length name + 1), fits, works.stats (in_dir dir name)) e)
  folder-Oldest dir name inner later h slack (found target some_left e unused gone) =
      let fits = fits_block dir name slack in
      let other : eq_bytes name target ≡ false = unused name h in
      found target some_left
        (rw (works.alloc (length dir + length name + 1), fits, works.stats (in_dir dir name)) e)
        (λ o u. unused o (u.1)) (rw (other, gone) refl)

  pub oldest :
      (dir : Bytes) (entries : Entries)
      → Distinct entries
      → Slack calls dir entries
      → Oldest dir entries
  unfolding files next_entry stat_regular is_regular remove_entry delete without_oldest
  oldest dir no_entry h slack = no_file refl refl
  oldest dir (entry name (folder inner) later) (h, rest) (room, slack) =
      folder-Oldest dir name inner later h room (oldest dir later rest slack)
  oldest dir (entry name (regular d) later) (h, rest) (room, slack) =
      let fits = fits_block dir name room in
      let same : eq_bytes name name ≡ true = (eq_bytes_iff name name).1 refl in
      found name (ground arith)
        (rw (works.alloc (length dir + length name + 1), fits, works.stats (in_dir dir name)) refl)
        (λ o u. u.0) (rw (same, works.removes (in_dir dir name)) refl)

  one_more-Trimmed :
      (limit : ℕ) (entries : Entries) (r : ℕ × Entries)
      → limit < weight entries
      → files entries ≢ 0
      → Trimmed limit (without_oldest entries) r
      → Trimmed limit entries r
  unfolding drop_oldest
  one_more-Trimmed limit entries r over some_file t =
      let fewer = files-without_oldest entries some_file in
      let few = t.few in
      record {
        k = suc t.k;
        few = omega arith;
        left = t.left;
        needed = λ j. elim j as (λ m. m < suc t.k → limit < weight (drop_oldest m entries)) [
          | zero ↦ λ h. over
          | suc i ↦ λ h. t.needed i (omega arith)
        ];
        outcome = t.outcome;
      }

  trim_loop-Trimmed :
      (b : ℕ) (bs : Bytes) (backlog_kb fuel : ℕ) (entries : Entries)
      → files entries < fuel
      → Distinct entries
      → Slack calls (b ∷ bs) entries
      → weight entries < 2 ^ 64
      → (r : ℕ × Entries) × (trim_loop calls fuel (b ∷ bs) backlog_kb (weight entries) entries
          ≡ value r)
        × Trimmed (backlog_kb * 1024) entries r
  unfolding trim_loop drop_oldest remove_oldest_stored_data dp_get_next_store_dp_file remove_file
  trim_loop-Trimmed b bs backlog_kb zero entries enough distinct slack small = absurd (omega arith)
  trim_loop-Trimmed b bs backlog_kb (suc fuel) entries enough distinct slack small =
      elim (Bool-cases (ltb (backlog_kb * 1024) (weight entries))) [
        | inr fits ↦ (
          (0, entries),
          rw fits refl,
          record {
            k = 0;
            few = omega arith;
            left = refl;
            needed = λ j h. absurd (omega arith);
            outcome = inl (refl, ground arith);
          },
        )
        | inl over ↦
            let more : backlog_kb * 1024 < weight entries = ground arith in
            elim (oldest (b ∷ bs) entries distinct slack) [
              | no_file none_left e ↦ (
                (1, entries),
                rw (over, e) refl,
                record {
                  k = 0;
                  few = omega arith;
                  left = refl;
                  needed = λ j h. absurd (omega arith);
                  outcome = inr (refl, more, none_left);
                },
              )
              | found name some_file e unused gone ↦
                  let less = weight-without_oldest entries in
                  let fewer = files-without_oldest entries some_file in
                  let (r, run, t) =
                    trim_loop-Trimmed b bs backlog_kb fuel (without_oldest entries) (omega arith)
                      (Distinct-without_oldest entries distinct)
                      (Slack-without_oldest calls (b ∷ bs) entries slack) (omega arith) in
                  (
                    r,
                    rw
                        (
                          over,
                          e,
                          gone,
                          get_directory_size-weight b bs (without_oldest entries) (omega arith),
                        )
                        run,
                    one_more-Trimmed (backlog_kb * 1024) entries r more some_file t,
                  )
            ]
      ]

  -- Where every call of the system succeeds, the names of the directory differ, the heap gives a byte
  -- more than it is asked for at the path of each entry, and there is more fuel than files, the check
  -- of the backlog's size comes to its end. It drops the oldest files,
  -- only as many as are needed, until the size is at most the limit, and returns 0; or, if the
  -- subdirectories alone exceed the limit, all the files, and returns 1.
  pub check_backlog_size-Trimmed :
      (b : ℕ) (bs : Bytes) (backlog_kb fuel : ℕ) (entries : Entries)
      → backlog_kb ≢ 0
      → files entries < fuel
      → Distinct entries
      → Slack calls (b ∷ bs) entries
      → weight entries < 2 ^ 64
      → (r : ℕ × Entries) × (check_backlog_size calls fuel (some (b ∷ bs)) backlog_kb (some entries)
          ≡ value (r.0, some r.1))
        × Trimmed (backlog_kb * 1024) entries r
  unfolding check_backlog_size check_size in_place
  check_backlog_size-Trimmed b bs backlog_kb fuel entries limited enough distinct slack small =
      let (r, run, t) =
        trim_loop-Trimmed b bs backlog_kb fuel entries enough distinct slack small in
      let bound : (backlog_kb == 0) ≡ false = ground arith in
      (r, rw (bound, get_directory_size-weight b bs entries small) (ap (in_place calls) run), t)
