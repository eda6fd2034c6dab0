-- ===== src/Csv.antt =====
-- library/src/services-client/stringify_tools.c: `put_character`, and the buffer that the CSV
-- generator writes to.
pub mod Number
pub mod Quoted
pub mod Point
pub mod Machine
pub mod Generator
pub mod Read
use cc_dey.Base.{ℕ, ◌+◌, ◌-◌, Bool, true, false, [], ◌∷◌, ◌++◌, Bytes, length, ◌==◌, if◌then◌else◌}

-- buffer_info_t: the bytes that are written, and the room behind them. `alloc n` says whether
-- realloc finds n bytes.
pub record Buffer : Type 0 where
  pub bytes : Bytes
  pub available : ℕ
  pub alloc : ℕ → Bool

-- A full buffer grows by the one byte that is written.
unfoldable pub put_character : ℕ → Buffer → Bool × Buffer
put_character c b =
    if b.available == 0
    then if b.alloc (length b.bytes + 1)
      then (true, record b { bytes = b.bytes ++ c ∷ [] })
      else (false, b)
    else (true, record b { bytes = b.bytes ++ c ∷ []; available = b.available - 1 })
