-- ===== src/Client/Upload/Frame.antt =====
-- The bytes of an upload request.
use cc_dey.Base.{◌<◌, Option, none, some, [], ◌++◌, append-nil, Bytes, length, arith, refl, sym}
use cc_dey.Socket.{pure}
use cc_dey.Wire.{dt_string, dt_blob, u32_mod, c_string, write_uint32, write_string, write_blob}
use cc_dey.Wire.Grammar.{integer_frame, blob_frame}
use cc_dey.Wire.Write.{Writes, Writes-then, write_uint32-Writes, send_blob-Writes}
use cc_dey.Client.Upload.{
  Upload, metrics, path_metrics, path_binary, metrics_binary, upload_type, upload_terminate,
  tag_dp_file_request, or_empty, write_stream_id, write_data, send_dp_data_type,
}

unfoldable pub string_frame : Bytes → Bytes
string_frame s = blob_frame dt_string (c_string s)

unfoldable pub stream_frame : Option Bytes → Bytes
stream_frame none = []
stream_frame (some s) = string_frame s

unfoldable pub data_frame : Upload → Bytes
data_frame (metrics d) = blob_frame dt_blob (or_empty d)
data_frame (path_metrics p) = string_frame (or_empty p)
data_frame (path_binary p s) = string_frame (or_empty p) ++ stream_frame s
data_frame (metrics_binary d s) = blob_frame dt_blob (or_empty d) ++ stream_frame s

unfoldable pub upload_frame : Upload → Bytes
upload_frame u =
    string_frame tag_dp_file_request
    ++ (integer_frame (upload_type u) ++ (data_frame u ++ integer_frame upload_terminate))

abbrev Short : Option Bytes → Type 0
Short none = Unit
Short (some s) = length (c_string s) < u32_mod

-- Data and texts of less than 2^32 bytes.
abbrev pub Fits : Upload → Type 0
Fits (metrics d) = length (or_empty d) < u32_mod
Fits (path_metrics p) = length (c_string (or_empty p)) < u32_mod
Fits (path_binary p s) = (length (c_string (or_empty p)) < u32_mod) × Short s
Fits (metrics_binary d s) = (length (or_empty d) < u32_mod) × Short s

pub write_string-Writes :
    (s : Bytes) → length (c_string s) < u32_mod → Writes (write_string s) (string_frame s)
unfolding write_string string_frame
write_string-Writes s h = send_blob-Writes dt_string (c_string s) h

pure-Writes : Writes (pure tt) []
pure-Writes extra s r = record {
  last = s;
  runs = refl;
  sent = sym (append-nil s.sent);
  ready = record { live = r.live; enough = omega (arith, r.enough) };
  quiet = record { incoming = refl; turns = refl; clock = refl; alloc = refl };
}

write_stream_id-Writes : (s : Option Bytes) → Short s → Writes (write_stream_id s) (stream_frame s)
unfolding write_stream_id stream_frame
write_stream_id-Writes none h = pure-Writes
write_stream_id-Writes (some s) h = write_string-Writes s h

write_data-Writes : (u : Upload) → Fits u → Writes (write_data u) (data_frame u)
unfolding write_data data_frame write_blob
write_data-Writes (metrics d) h = send_blob-Writes dt_blob (or_empty d) h
write_data-Writes (path_metrics p) h = write_string-Writes (or_empty p) h
write_data-Writes (path_binary p s) (hp, hs) =
    Writes-then (write_string (or_empty p)) (write_stream_id s) _ _
      (write_string-Writes (or_empty p) hp) (write_stream_id-Writes s hs)
write_data-Writes (metrics_binary d s) (hd, hs) =
    Writes-then (write_blob (or_empty d)) (write_stream_id s) _ _
      (send_blob-Writes dt_blob (or_empty d) hd) (write_stream_id-Writes s hs)

pub send_dp_data_type-Writes : (u : Upload) → Fits u → Writes (send_dp_data_type u) (upload_frame u)
unfolding send_dp_data_type upload_frame
send_dp_data_type-Writes u h =
    Writes-then (write_string tag_dp_file_request) _ _ _
      (write_string-Writes tag_dp_file_request (unfold c_string in omega arith))
      (Writes-then (write_uint32 (upload_type u)) _ _ _ (write_uint32-Writes (upload_type u)) (
        Writes-then (write_data u) _ _ _ (write_data-Writes u h)
          (write_uint32-Writes upload_terminate)))
