-- ===== src/Backlog/Copy.antt =====
-- library/src/utils.c: `cp_file`, which copies a file by blocks, and `write_buffer_to_file`.
pub mod Whole
use cc_dey.Base.{
  ℕ, zero, suc, ◌-◌, ◌*◌, min, Bool, true, false, Option, none, some, List, [], ◌∷◌, ◌++◌, Bytes,
  length, take, drop, ◌==◌, if◌then◌else◌,
}

-- sizeof(buffer)
abbrev pub block : ℕ
block = 1024 * 2

-- What the write loop leaves: the output and the answers of write that are not used up; or a write
-- that failed, or one that is not over.
pub data Written : Type 0 where
  written : Bytes → List (Option ℕ) → Written
  write_failed writing : Written

-- `left` bytes are still to be written, and every write starts at the head of the buffer. A write
-- takes as many bytes as its answer says, or fails (`none`).
unfoldable pub write_block : List (Option ℕ) → Bytes → ℕ → Bytes → Written
write_block writes buffer zero out = written out writes
write_block [] buffer (suc left) out = writing
write_block (none ∷ writes) buffer (suc left) out = write_failed
write_block (some n ∷ writes) buffer (suc left) out =
    let n_w = min n (suc left) in
    write_block writes buffer (suc left - n_w) (out ++ take n_w buffer)

pub data Copied : Type 0 where
  copied : Bytes → Copied
  copy_failed copying : Copied

-- The copy loop: `len` bytes are still to be copied, `rest` is what the input still gives. A read
-- gives as many bytes as its answer says and the buffer holds, or fails.
unfoldable pub copy_blocks : List (Option ℕ) → List (Option ℕ) → Bytes → ℕ → Bytes → Copied
unfolding write_block
copy_blocks reads writes rest zero out = copied out
copy_blocks [] writes rest (suc len) out = copying
copy_blocks (none ∷ reads) writes rest (suc len) out = copy_failed
copy_blocks (some n ∷ reads) writes rest (suc len) out =
    let buffer = take (min n block) rest in
    elim (write_block writes buffer (length buffer) out) [
      | write_failed ↦ copy_failed
      | writing ↦ copying
      | written out' writes' ↦
          copy_blocks reads writes' (drop (length buffer) rest) (suc len - length buffer) out'
    ]

-- What a file operation does: nothing, with a result of 0; a file with these bytes, and whether the
-- result is 0; a result of 1 that leaves the file system as it was, or without the file; or a call
-- that is not over.
pub data Effect : Type 0 where
  no_file : Effect
  file : Bytes → Bool → Effect
  not_opened removed not_over : Effect

unfoldable pub copied_effect : Copied → Effect
copied_effect (copied out) = file out true
copied_effect copy_failed = removed
copied_effect copying = not_over

unfoldable pub no_text : Bytes → Bool
no_text [] = true
no_text (b ∷ bs) = b == 0

-- The calls of the system in one operation on files: the input file (`none` cannot be opened),
-- whether the output can be opened and the input's size be had, the answers of read and write, and
-- the number of bytes that fwrite writes.
pub record Io : Type 0 where
  pub input : Bytes → Option Bytes
  pub opens : Bytes → Bool
  pub sized : Bool
  pub reads : List (Option ℕ)
  pub writes : List (Option ℕ)
  pub fwrite_count : Bytes → ℕ

unfoldable pub from_input : Io → Bytes → Option Bytes → Effect
unfolding copied_effect copy_blocks
from_input io out_path none = not_opened
from_input io out_path (some content) =
    if io.opens out_path
    then (if io.sized
        then copied_effect (copy_blocks io.reads io.writes content (length content) [])
        else removed)
    else removed

unfoldable pub cp_file : Io → Bytes → Bytes → Effect
unfolding no_text from_input
cp_file io in_path out_path =
    if no_text in_path
    then no_file
    else if no_text out_path
    then no_file
    else from_input io out_path (io.input in_path)

-- `buff` is the buffer with its size.
unfoldable pub write_buffer_to_file : Io → Bytes → Bytes → Effect
unfolding no_text
write_buffer_to_file io path [] = no_file
write_buffer_to_file io path (b ∷ bs) =
    let buff = b ∷ bs in
    let n_written = io.fwrite_count buff in
    if no_text path
    then no_file
    else if io.opens path
    then file (take n_written buff) (n_written == length buff)
    else not_opened
