-- ===== src/Wire/Write.antt =====
-- What the writing functions put on the wire.
use cc_dey.Base.{ℕ, ◌+◌, ◌%◌, ◌<◌, [], ◌∷◌, ◌++◌, Bytes, length, arith, length-append}
use native.Mathlib.Nat.{mod-eq_of_lt}
use cc_dey.Socket.{Sock, M, ◌>>◌}
use cc_dey.Socket.Line.{terminator}
use cc_dey.Socket.Send.{send_amt, write_byte}
use cc_dey.Socket.Send.Fair.{Ready, Emits, Emits-then, send_amt-Emits, write_byte-Emits}
use cc_dey.Wire.{
  separator, dt_blob, resp_error, resp_errorcode, u32_mod, c_string, integer_text, write_uint32,
  send_blob, write_blob, send_end_of_response, send_ok, send_error, send_error_codes,
}
use cc_dey.Wire.Grammar.{integer_frame, blob_frame, error_frame, error_codes_frame}

-- `m` emits `bytes` from every socket that is ready for them and for what follows.
abbrev pub Writes : M (Unit {0}) → Bytes → Type 0
Writes m bytes = (extra : ℕ) (s : Sock) → Ready (length bytes + extra) s → Emits m bytes extra s

pub Writes-then :
    (m n : M (Unit {0})) (xs ys : Bytes) → Writes m xs → Writes n ys → Writes (m >> n) (xs ++ ys)
Writes-then m n xs ys wm wn extra s r =
    let e : Emits m xs (length ys + extra) s =
      wm (length ys + extra) s
        (record { live = r.live; enough = omega (arith, r.enough, length-append xs ys) }) in
    Emits-then m n xs ys extra s e (wn extra e.last e.ready)

pub write_uint32-Writes : (value : ℕ) → Writes (write_uint32 value) (integer_frame value)
unfolding write_uint32 integer_text integer_frame
write_uint32-Writes value extra s r = send_amt-Emits (integer_frame value) extra s r

terminator-Writes : Writes (write_byte terminator) (terminator ∷ [])
terminator-Writes extra s r =
    write_byte-Emits terminator extra s (record { live = r.live; enough = omega (arith, r.enough) })

-- A blob of less than 2^32 bytes is written as the grammar says.
pub send_blob-Writes :
    (type : ℕ) (bytes : Bytes)
    → length bytes < u32_mod
    → Writes (send_blob type bytes) (blob_frame type bytes)
unfolding send_blob blob_frame
send_blob-Writes type bytes h =
    Writes-then (send_amt (type ∷ separator ∷ [])) _ (type ∷ separator ∷ [])
      (integer_frame (length bytes) ++ (bytes ++ terminator ∷ []))
      (send_amt-Emits (type ∷ separator ∷ []))
      (Writes-then (write_uint32 (length bytes % u32_mod)) _ (integer_frame (length bytes))
        (bytes ++ terminator ∷ []) (rw (mod-eq_of_lt h) (write_uint32-Writes (length bytes)))
        (Writes-then (send_amt bytes) (write_byte terminator) bytes (terminator ∷ [])
          (send_amt-Emits bytes) terminator-Writes))

pub send_ok-Writes : Writes send_ok (integer_frame 0)
unfolding send_ok send_end_of_response
send_ok-Writes = write_uint32-Writes 0

pub send_error-Writes :
    (msg : Bytes)
    → length (c_string msg) < u32_mod
    → Writes (send_error msg) (error_frame (c_string msg))
unfolding send_error error_frame send_end_of_response write_blob
send_error-Writes msg h =
    Writes-then (write_uint32 resp_error) _ _ _ (write_uint32-Writes resp_error) (
      Writes-then (write_blob (c_string msg)) _ _ _ (send_blob-Writes dt_blob (c_string msg) h)
        (write_uint32-Writes 0))

pub send_error_codes-Writes :
    (msg : Bytes) (srv ccapi cccs : ℕ)
    → length (c_string msg) < u32_mod
    → Writes (send_error_codes msg srv ccapi cccs) (error_codes_frame (c_string msg) srv ccapi cccs)
unfolding send_error_codes error_codes_frame send_end_of_response write_blob
send_error_codes-Writes msg srv ccapi cccs h =
    Writes-then (write_uint32 resp_errorcode) _ _ _ (write_uint32-Writes resp_errorcode) (
      Writes-then (write_uint32 srv) _ _ _ (write_uint32-Writes srv) (
        Writes-then (write_uint32 ccapi) _ _ _ (write_uint32-Writes ccapi) (
          Writes-then (write_uint32 cccs) _ _ _ (write_uint32-Writes cccs) (
            Writes-then (write_blob (c_string msg)) _ _ _
              (send_blob-Writes dt_blob (c_string msg) h) (write_uint32-Writes 0)))))
