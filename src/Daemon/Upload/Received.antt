-- ===== src/Daemon/Upload/Received.antt =====
-- What the reading steps of `handle_datapoint_file_upload` make of the bytes that
-- `send_dp_data_type` writes.
use cc_dey.Base.{
  ℕ, ◌+◌, ◌<◌, ◌≡◌, refl, ap, false, none, some, [], ◌∷◌, ◌++◌, Bytes, length, arith, subst,
  append-nil,
}
use cc_dey.Socket.{ok, done, attempt}
use cc_dey.Socket.Fair.{Patient}
use cc_dey.Wire.{dt_string, dt_blob, u32_mod, c_string, read_uint32, read_string, read_blob}
use cc_dey.Wire.Grammar.{integer_frame, blob_frame}
use cc_dey.Wire.Read.{
  Reads, Reads-bind, Reads-attempt, Reads-still, read_uint32-Reads, recv_blob-Reads,
}
use cc_dey.Client.Upload as Client
use cc_dey.Client.Upload.{Upload, upload_type, or_empty, is_invalid}
use cc_dey.Client.Upload.Frame.{data_frame, stream_frame, string_frame}
use cc_dey.Daemon.Upload.{
  Posted, metrics, path_metrics, path_binary, metrics_binary, read_limit, taken, take_stream_id,
  read_stream_id, take_path, take_blob, read_posted,
}

c_string-c_string : (s : Bytes) → c_string (c_string s) ≡ c_string s
unfolding c_string
c_string-c_string [] = refl
c_string-c_string (b ∷ s) = ground (arith, c_string-c_string s)

-- What the cloud is to be given for an upload.
abbrev pub posted : Upload → Posted
posted (Client.metrics d) = metrics (or_empty d)
posted (Client.path_metrics p) = path_metrics (c_string (or_empty p))
posted (Client.path_binary p s) = path_binary (c_string (or_empty p)) (c_string (or_empty s))
posted (Client.metrics_binary d s) = metrics_binary (or_empty d) (c_string (or_empty s))

-- No blob or text is so long that its length with the terminator passes 32 bits.
abbrev pub Receivable : Upload → Type 0
Receivable (Client.metrics d) = length (or_empty d) + 1 < u32_mod
Receivable (Client.path_metrics p) = length (c_string (or_empty p)) + 1 < u32_mod
Receivable (Client.path_binary p s) =
    (length (c_string (or_empty p)) + 1 < u32_mod) × (length (c_string (or_empty s)) + 1 < u32_mod)
Receivable (Client.metrics_binary d s) =
    (length (or_empty d) + 1 < u32_mod) × (length (c_string (or_empty s)) + 1 < u32_mod)

module _ (window : ℕ) (patient : Patient window read_limit) where
  string-Reads :
      (s : Bytes)
      → length (c_string s) + 1 < u32_mod
      → Reads (attempt (read_string read_limit)) window (string_frame s) (ok (c_string s))
  unfolding read_string string_frame
  string-Reads s h =
      Reads-attempt window (read_string read_limit) (blob_frame dt_string (c_string s)) (c_string s)
        (recv_blob-Reads window dt_string (c_string s) read_limit patient h)

  blob-Reads :
      (b : Bytes)
      → length b + 1 < u32_mod
      → Reads (attempt (read_blob read_limit)) window (blob_frame dt_blob b) (ok b)
  unfolding read_blob
  blob-Reads b h =
      Reads-attempt window (read_blob read_limit) (blob_frame dt_blob b) b
        (recv_blob-Reads window dt_blob b read_limit patient h)

  stream_id-Reads :
      (make : Bytes → Posted) (s : Bytes)
      → length (c_string s) + 1 < u32_mod
      → Reads (read_stream_id make) window (string_frame s) (taken (make (c_string s)))
  unfolding read_stream_id take_stream_id
  stream_id-Reads make s h =
      subst (λ l. Reads (read_stream_id make) window l (taken (make (c_string s))))
        (append-nil (string_frame s))
        (Reads-bind window (attempt (read_string read_limit)) (take_stream_id make) (string_frame s)
          [] (ok (c_string s)) (taken (make (c_string s))) (string-Reads s h)
          (Reads-still window (take_stream_id make (ok (c_string s))) (taken (make (c_string s)))
            (λ k roomy. ap (λ x. done (ok (taken (make x))) k) (c_string-c_string s))))

  pub read_posted-Reads :
      (u : Upload)
      → is_invalid u ≡ false
      → Receivable u
      → Reads (read_posted (upload_type u)) window (data_frame u) (taken (posted u))
  unfolding read_posted upload_type take_path take_blob data_frame stream_frame is_invalid or_empty
  read_posted-Reads (Client.metrics d) v h =
      subst (λ l. Reads (read_posted 1) window l (taken (metrics (or_empty d))))
        (append-nil (blob_frame dt_blob (or_empty d)))
        (Reads-bind window (attempt (read_blob read_limit)) (take_blob 1)
          (blob_frame dt_blob (or_empty d)) [] (ok (or_empty d)) _ (blob-Reads (or_empty d) h)
          (Reads-still window (take_blob 1 (ok (or_empty d))) (taken (metrics (or_empty d)))
            (λ k roomy. refl)))
  read_posted-Reads (Client.path_metrics p) v h =
      subst (λ l. Reads (read_posted 3) window l (taken (path_metrics (c_string (or_empty p)))))
        (append-nil (string_frame (or_empty p)))
        (Reads-bind window (attempt (read_string read_limit)) (take_path 3)
          (string_frame (or_empty p)) [] (ok (c_string (or_empty p))) _
          (string-Reads (or_empty p) h)
          (Reads-still window (take_path 3 (ok (c_string (or_empty p))))
            (taken (path_metrics (c_string (or_empty p))))
            (λ k roomy.
              ap (λ x. done (ok (taken (path_metrics x))) k) (c_string-c_string (or_empty p)))))
  read_posted-Reads (Client.path_binary p (some s)) v (hp, hs) =
      subst
        (λ x.
          Reads (read_posted 4) window (string_frame (or_empty p) ++ string_frame s)
            (taken (path_binary x (c_string s))))
        (c_string-c_string (or_empty p))
        (Reads-bind window (attempt (read_string read_limit)) (take_path 4)
          (string_frame (or_empty p)) (string_frame s) (ok (c_string (or_empty p))) _
          (string-Reads (or_empty p) hp)
          (stream_id-Reads (path_binary (c_string (c_string (or_empty p)))) s hs))
  read_posted-Reads (Client.path_binary p none) v h = absurd (ground arith)
  read_posted-Reads (Client.metrics_binary d (some s)) v (hd, hs) =
      Reads-bind window (attempt (read_blob read_limit)) (take_blob 5)
        (blob_frame dt_blob (or_empty d)) (string_frame s) (ok (or_empty d)) _
        (blob-Reads (or_empty d) hd) (stream_id-Reads (metrics_binary (or_empty d)) s hs)
  read_posted-Reads (Client.metrics_binary d none) v h = absurd (ground arith)

  pub type-Reads :
      (n : ℕ)
      → n < u32_mod
      → Reads (attempt (read_uint32 read_limit)) window (integer_frame n) (ok n)
  type-Reads n h =
      Reads-attempt window (read_uint32 read_limit) (integer_frame n) n
        (read_uint32-Reads window n read_limit patient h)
