-- ===== src/CommError.antt =====
-- library/src/services-client/cccs_definitions.h: `cccs_comm_error_t`, by its numbers, since the
-- daemon sends such a code on the wire.
use cc_dey.Base.{ℕ}

abbrev pub none : ℕ
none = 0

abbrev pub invalid_argument : ℕ
invalid_argument = 2

abbrev pub out_of_memory : ℕ
out_of_memory = 3

abbrev pub lock : ℕ
lock = 4

abbrev pub unable_to_connect : ℕ
unable_to_connect = 5

abbrev pub read_timeout : ℕ
read_timeout = 6

abbrev pub read_error : ℕ
read_error = 7

abbrev pub bad_response : ℕ
bad_response = 8

abbrev pub from_cloud : ℕ
from_cloud = 9

abbrev pub unable_to_store : ℕ
unable_to_store = 10

abbrev pub ccapi_error : ℕ
ccapi_error = 11

abbrev pub srv_error : ℕ
srv_error = 12
