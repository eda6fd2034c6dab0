-- ===== src/Wire/Grammar.antt =====
-- The grammar in the head comment of library/src/services/services_util.c: the bytes that stand
-- for each serialized value.
use cc_dey.Base.{ℕ, [], ◌∷◌, ◌++◌, Bytes, length}
use cc_dey.Socket.Line.{terminator}
use cc_dey.Wire.{separator, dt_integer, dt_blob, resp_error, resp_errorcode}
use cc_dey.Decimal.{decimal}

-- <integer> <= i<separator><digits><terminator>
unfoldable pub integer_frame : ℕ → Bytes
integer_frame value = dt_integer ∷ separator ∷ decimal value ++ terminator ∷ []

-- <blob> <= b<separator><length><bytes><terminator>, and the same with s for a string.
unfoldable pub blob_frame : ℕ → Bytes → Bytes
blob_frame type bytes =
    (type ∷ separator ∷ []) ++ (integer_frame (length bytes) ++ (bytes ++ terminator ∷ []))

unfoldable pub error_frame : Bytes → Bytes
error_frame msg = integer_frame resp_error ++ (blob_frame dt_blob msg ++ integer_frame 0)

unfoldable pub error_codes_frame : Bytes → ℕ → ℕ → ℕ → Bytes
error_codes_frame msg srv ccapi cccs =
    integer_frame resp_errorcode
    ++ (integer_frame srv
        ++ (integer_frame ccapi
            ++ (integer_frame cccs ++ (blob_frame dt_blob msg ++ integer_frame 0))))
