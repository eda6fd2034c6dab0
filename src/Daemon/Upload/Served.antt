-- ===== src/Daemon/Upload/Served.antt =====
-- What becomes of the data that a client uploads.
use cc_dey.Base.{
  ℕ, suc, ◌+◌, ◌<◌, ◌≤◌, ◌≡◌, ◌≢◌, refl, true, ◌&&◌, List, ap, sym, ◌∙◌, false, [], ◌∷◌, ◌++◌,
  Bytes, length, arith, subst, All, ◌==◌, if◌then◌else◌,
}
use cc_dey.CommError
use cc_dey.Socket.{Sock, M, ok, done, pure, ◌>>=◌, continue, attempt_run}
use cc_dey.Socket.Fair.{Fair, Patient}
use cc_dey.Socket.Send.Fair.{Ready, Emits, IsLive, Quiet, room as writes}
use cc_dey.Wire.{u32_mod, c_string, send_ok}
use cc_dey.Wire.Grammar.{integer_frame, error_codes_frame}
use cc_dey.Wire.Write.{send_ok-Writes, send_error_codes-Writes}
use cc_dey.Client.Upload as Client
use cc_dey.Client.Upload.{Upload, upload_type, or_empty, is_invalid}
use cc_dey.Client.Upload.Frame.{data_frame}
use cc_dey.Client.Upload.Codes.{Fair-Quiet}
use cc_dey.Daemon.Upload.{
  Posted, Cloud, read_limit, read_posted, Round, again, return, with_hint, server_error, respond,
  on_taken, on_type, upload_round, handle_datapoint_file_upload,
}
use cc_dey.Daemon.Upload.Received.{posted, Receivable, read_posted-Reads, type-Reads}

-- A socket that is read to the point where the response is due: what is left, and what it can
-- still do.
record Read (base window : ℕ) (extra : ℕ) (rest : Bytes) (s s' : Sock) : Type 0 where
  incoming : s'.incoming ≡ rest
  sent : s'.sent ≡ s.sent
  fair : Fair base window s'
  roomy : (n : ℕ) → s'.alloc n ≡ true
  ready : Ready extra s'

Ready-sends : {count : ℕ} {s s' : Sock} → s'.sends ≡ s.sends → Ready count s → Ready count s'
Ready-sends {count} e r = record {
  live = subst (All IsLive) (sym e) r.live;
  enough = subst (λ l. count ≤ writes l) (sym e) r.enough;
}

upload_type-small : (u : Upload) → upload_type u < u32_mod
unfolding upload_type
upload_type-small (Client.metrics d) = omega arith
upload_type-small (Client.path_metrics p) = omega arith
upload_type-small (Client.path_binary p s) = omega arith
upload_type-small (Client.metrics_binary d s) = omega arith

module _ (cloud : Cloud) where
  -- What send_error_codes is called with when a transfer fails.
  abbrev pub message_of : Posted → Bytes
  message_of p = with_hint (cloud.message p (cloud.send p).error) (cloud.send p).hint

  abbrev pub stored_code : Posted → ℕ
  stored_code p = if cloud.store p (cloud.send p).error == 0 then 0 else CommError.unable_to_store

  abbrev pub failure_frame : Posted → Bytes
  failure_frame p =
      error_codes_frame (c_string (message_of p)) (server_error (cloud.send p).server)
        (cloud.send p).error (stored_code p)

  on_type-read_posted :
      (u : Upload)
      → on_type cloud (ok (upload_type u)) ≡ (read_posted (upload_type u) >>= on_taken cloud)
  unfolding on_type upload_type
  on_type-read_posted (Client.metrics d) = refl
  on_type-read_posted (Client.path_metrics p) = refl
  on_type-read_posted (Client.path_binary p s) = refl
  on_type-read_posted (Client.metrics_binary d s) = refl

  -- One round is the reading of a record and the response to it.
  upload_round-respond :
      (base window count : ℕ) (u : Upload) (rest : Bytes) (s : Sock)
      → Patient window read_limit
      → is_invalid u ≡ false
      → Receivable u
      → s.incoming ≡ integer_frame (upload_type u) ++ (data_frame u ++ rest)
      → Fair base window s
      → ((n : ℕ) → s.alloc n ≡ true)
      → Ready count s
      → (s' : Sock) × (upload_round cloud s ≡ respond cloud (posted u) s')
        × Read base window count rest s s'
  unfolding upload_round on_taken
  upload_round-respond base window count u rest s patient valid h e fair roomy ready =
      let small : upload_type u < u32_mod = upload_type-small u in
      let g =
        type-Reads window patient (upload_type u) small base (data_frame u ++ rest) s fair roomy
          e in
      let k =
        read_posted-Reads window patient u valid h base rest g.last g.took.fair
          (λ n. ap (λ a. a n) g.took.alloc ∙ roomy n) g.took.incoming in
      (
        k.last,
        ap (λ x. continue x (on_type cloud)) g.runs
            ∙ ap (λ m. m g.last) (on_type-read_posted u)
            ∙ ap (λ x. continue x (on_taken cloud)) k.runs,
        record {
          incoming = k.took.incoming;
          sent = k.took.sent ∙ g.took.sent;
          fair = k.took.fair;
          roomy = λ n. ap (λ a. a n) (k.took.alloc ∙ g.took.alloc) ∙ roomy n;
          ready = Ready-sends (k.took.sends ∙ g.took.sends) ready;
        },
      )

  -- Success: the response is the end marker alone, and the next round is due.
  respond-accepted :
      (p : Posted) (extra : ℕ) (s : Sock)
      → (cloud.send p).error ≡ 0
      → cloud.store p 0 ≡ 0
      → Ready (length (integer_frame 0) + extra) s
      → (s' : Sock) × (respond cloud p s ≡ done (ok (again p)) s')
        × (s'.sent ≡ s.sent ++ integer_frame 0)
        × Quiet s s'
  unfolding respond
  respond-accepted p extra s sent stored ready =
      let e : Emits send_ok (integer_frame 0) extra s = send_ok-Writes extra s ready in
      let both : ((cloud.send p).error == 0 && cloud.store p (cloud.send p).error == 0) ≡ true =
        ground (arith, sent, stored, ap (cloud.store p) sent) in
      (
        e.last,
        rw both (ap (λ x. continue (attempt_run x) (λ _. pure (again p))) e.runs),
        e.sent,
        e.quiet,
      )

  -- Failure: the response holds the three codes and the message, and the handler returns 1.
  respond-refused :
      (p : Posted) (extra : ℕ) (s : Sock)
      → (cloud.send p).error ≢ 0
      → length (c_string (message_of p)) < u32_mod
      → Ready (length (failure_frame p) + extra) s
      → (s' : Sock) × (respond cloud p s ≡ done (ok (return 1 (p ∷ []))) s')
        × (s'.sent ≡ s.sent ++ failure_frame p)
  unfolding respond
  respond-refused p extra s failed short ready =
      let e =
        send_error_codes-Writes (message_of p) (server_error (cloud.send p).server)
          (cloud.send p).error (stored_code p) short extra s ready in
      let both : ((cloud.send p).error == 0 && cloud.store p (cloud.send p).error == 0) ≡ false =
        ground (arith, failed) in
      (
        e.last,
        rw both (ap (λ x. continue (attempt_run x) (λ _. pure (return 1 (p ∷ [])))) e.runs),
        e.sent,
      )

  -- What the loop does after a round.
  next_round : ℕ → Round → M (ℕ × List Posted)
  next_round fuel r = elim r [
    | return v ps ↦ pure (v, ps)
    | again p ↦ do (v, ps) ← handle_datapoint_file_upload cloud fuel; pure (v, p ∷ ps)
  ]

  -- An upload that the daemon reads whole (from a fair socket, with room in the heap and for the
  -- response), that a client would not refuse as invalid, and that the cloud takes with nothing
  -- left to store, is posted once, unchanged, and answered with success; the handler takes the
  -- end of the request, returns 0, and reads nothing behind it. Two rounds are enough.
  pub handle_upload-accepted :
      (base window extra fuel : ℕ) (u : Upload) (rest : Bytes) (s : Sock)
      → Patient window read_limit
      → is_invalid u ≡ false
      → Receivable u
      → s.incoming ≡ integer_frame (upload_type u) ++ (data_frame u ++ (integer_frame 0 ++ rest))
      → Fair base window s
      → ((n : ℕ) → s.alloc n ≡ true)
      → Ready (length (integer_frame 0) + extra) s
      → (cloud.send (posted u)).error ≡ 0
      → cloud.store (posted u) 0 ≡ 0
      → (s' : Sock) × (handle_datapoint_file_upload cloud (suc (suc fuel)) s
          ≡ done (ok (0, posted u ∷ [])) s')
        × (s'.sent ≡ s.sent ++ integer_frame 0)
        × (s'.incoming ≡ rest)
  unfolding handle_datapoint_file_upload upload_round on_type next_round
  handle_upload-accepted base window extra fuel u rest s patient valid h e fair roomy ready sent
        stored =
      let (s₁, runs₁, read) =
        upload_round-respond base window (length (integer_frame 0) + extra) u
          (integer_frame 0 ++ rest) s patient valid h e fair roomy ready in
      let (s₂, runs₂, sent₂, quiet) = respond-accepted (posted u) extra s₁ sent stored read.ready in
      let g =
        type-Reads window patient 0 (omega arith) base rest s₂ (Fair-Quiet quiet read.fair)
          (λ n. ap (λ a. a n) quiet.alloc ∙ read.roomy n) (quiet.incoming ∙ read.incoming) in
      (
        g.last,
        ap (λ x. continue x (next_round (suc fuel))) (runs₁ ∙ runs₂)
            ∙ ap
                (λ x.
                  continue (continue (continue x (on_type cloud)) (next_round fuel))
                    (λ r. pure (r.0, posted u ∷ r.1)))
                g.runs,
        g.took.sent ∙ sent₂ ∙ ap (λ l. l ++ integer_frame 0) read.sent,
        g.took.incoming,
      )

  -- An upload that the daemon reads whole (from a fair socket, with room in the heap and for the
  -- response), that a client would not refuse as invalid, and that the cloud refuses, is posted
  -- once, and answered with the error's message and the three codes: that of the server (255 if
  -- it is not known), that of CCAPI, and whether the data could be stored. The handler returns 1
  -- with the end of the request unread. One round is enough.
  pub handle_upload-refused :
      (base window extra fuel : ℕ) (u : Upload) (rest : Bytes) (s : Sock)
      → Patient window read_limit
      → is_invalid u ≡ false
      → Receivable u
      → s.incoming ≡ integer_frame (upload_type u) ++ (data_frame u ++ rest)
      → Fair base window s
      → ((n : ℕ) → s.alloc n ≡ true)
      → length (c_string (message_of (posted u))) < u32_mod
      → Ready (length (failure_frame (posted u)) + extra) s
      → (cloud.send (posted u)).error ≢ 0
      → (s' : Sock) × (handle_datapoint_file_upload cloud (suc fuel) s
          ≡ done (ok (1, posted u ∷ [])) s')
        × (s'.sent ≡ s.sent ++ failure_frame (posted u))
  unfolding handle_datapoint_file_upload next_round
  handle_upload-refused base window extra fuel u rest s patient valid h e fair roomy short ready
        failed =
      let (s₁, runs₁, read) =
        upload_round-respond base window (length (failure_frame (posted u)) + extra) u rest s
          patient valid h e fair roomy ready in
      let (s₂, runs₂, sent₂) = respond-refused (posted u) extra s₁ failed short read.ready in
      (
        s₂,
        ap (λ x. continue x (next_round fuel)) (runs₁ ∙ runs₂),
        sent₂ ∙ ap (λ l. l ++ failure_frame (posted u)) read.sent,
      )
