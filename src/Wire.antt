-- ===== src/Wire.antt =====
-- library/src/services/services_util.c, the serialization protocol: integers, strings and blobs on
-- a stream socket, and the responses of the daemon.
pub mod Grammar
pub mod Write
pub mod Read
pub mod Overflow
use cc_dey.Base.{
  ℕ, suc, ◌+◌, ◌%◌, ◌^◌, Bool, ◌&&◌, Option, none, some, [], ◌∷◌, ◌++◌, Bytes, length, take,
  get_elem?, ltb, ◌==◌, if◌then◌else◌,
}
use cc_dey.Socket.{
  Timeval, Reply, M, ok, err, done, fault, timed_out, no_memory, failure, read_amt, ◌>>=◌, ◌>>◌,
  pure, fail, attempt,
}
use cc_dey.Socket.Line.{Line, terminator, read_line}
use cc_dey.Socket.Send.{send_amt, write_byte}
use cc_dey.Decimal.{Parsed, decimal, strtoul}

abbrev pub separator : ℕ
separator = b':'

abbrev pub dt_integer : ℕ
dt_integer = b'i'

abbrev pub dt_string : ℕ
dt_string = b's'

abbrev pub dt_blob : ℕ
dt_blob = b'b'

abbrev pub u32_mod : ℕ
u32_mod = 2 ^ 32

-- The C string that starts a buffer: what stands before the first '\0'.
unfoldable pub c_string : Bytes → Bytes
c_string [] = []
c_string (b ∷ bs) = if b == 0 then [] else b ∷ c_string bs

-- snprintf(text, (sizeof text) - 1, "i:%u%c", value, TERMINATOR): at most 13 of 19 bytes.
unfoldable pub integer_text : ℕ → Bytes
integer_text value = dt_integer ∷ separator ∷ decimal value ++ terminator ∷ []

-- `value` is a uint32_t.
unfoldable pub write_uint32 : ℕ → M (Unit {0})
write_uint32 value = send_amt (integer_text value)

-- *end == '\0', and the cast to uint32_t.
unfoldable pub integer_result : Parsed → M ℕ
integer_result parsed = elim parsed.rest [
  | [] ↦ pure (parsed.value % u32_mod)
  | c ∷ s ↦ fail failure
]

-- strtoul on the text behind the type.
unfoldable pub integer_value : Bytes → M ℕ
unfolding integer_result
integer_value text = integer_result (strtoul (c_string text))

-- The tests on a line of more than two bytes: its type and the separator.
unfoldable pub parse_integer : Bytes → M ℕ
parse_integer (t ∷ s ∷ text) =
    if t == dt_integer && s == separator then integer_value text else fail failure
parse_integer _ = fail failure

unfoldable pub check_line : Reply Line → M ℕ
check_line (ok line) = if ltb 2 line.count then parse_integer line.text else fail failure
check_line (err timed_out) = fail timed_out
check_line (err _) = fail failure

-- text[50] with a capacity of 49.
unfoldable pub read_uint32 : Option Timeval → M ℕ
read_uint32 timeout = do line ← attempt (read_line 49 timeout); check_line line

unfoldable pub send_blob : ℕ → Bytes → M (Unit {0})
send_blob type bytes = do
  send_amt (type ∷ separator ∷ [])
  write_uint32 (length bytes % u32_mod)
  send_amt bytes
  write_byte terminator

-- calloc(count, 1)
unfoldable pub allocate : ℕ → M (Unit {0})
allocate count s = if s.alloc count then done (ok tt) s else done (err no_memory) s

-- buffer[index], for a buffer of the size of `bytes`: outside it the access is a fault.
unfoldable pub load : Bytes → ℕ → M ℕ
load bytes index s = elim (get_elem? bytes index) [ none ↦ fault | some b ↦ done (ok b) s ]

-- length + 1 is computed in uint32_t.
unfoldable pub recv_payload : ℕ → Option Timeval → M Bytes
recv_payload length timeout = do
  allocate ((length + 1) % u32_mod)
  buffer ← read_amt ((length + 1) % u32_mod) timeout
  last ← load buffer length
  if last == terminator then pure (take length buffer) else fail failure

unfoldable pub check_type : ℕ → Bytes → Option Timeval → M Bytes
check_type type (t ∷ s ∷ _) timeout =
    if t == type && s == separator
    then (do length ← read_uint32 timeout; recv_payload length timeout)
    else fail failure
check_type type _ timeout = fail failure

unfoldable pub recv_blob : ℕ → Option Timeval → M Bytes
recv_blob type timeout = do rxtype ← read_amt 2 timeout; check_type type rxtype timeout

unfoldable pub write_string : Bytes → M (Unit {0})
write_string string = send_blob dt_string (c_string string)

unfoldable pub read_string : Option Timeval → M Bytes
read_string timeout = recv_blob dt_string timeout

unfoldable pub read_blob : Option Timeval → M Bytes
read_blob timeout = recv_blob dt_blob timeout

unfoldable pub write_blob : Bytes → M (Unit {0})
write_blob bytes = send_blob dt_blob bytes

abbrev pub resp_end_of_message : ℕ
resp_end_of_message = 0

abbrev pub resp_error : ℕ
resp_error = 1

abbrev pub resp_errorcode : ℕ
resp_errorcode = 2

unfoldable pub send_end_of_response : M (Unit {0})
send_end_of_response = write_uint32 resp_end_of_message

unfoldable pub send_ok : M (Unit {0})
send_ok = send_end_of_response

unfoldable pub send_error : Bytes → M (Unit {0})
send_error msg = do write_uint32 resp_error; write_blob (c_string msg); send_end_of_response

unfoldable pub send_error_codes : Bytes → ℕ → ℕ → ℕ → M (Unit {0})
send_error_codes msg srv_error ccapi_error cccs_error = do
  write_uint32 resp_errorcode
  write_uint32 srv_error
  write_uint32 ccapi_error
  write_uint32 cccs_error
  write_blob (c_string msg)
  send_end_of_response
