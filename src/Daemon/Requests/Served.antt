-- ===== src/Daemon/Requests/Served.antt =====
-- What a registration on the wire does to the table.
use cc_dey.Base.{
  ℕ, ◌+◌, ◌<◌, ◌≡◌, refl, ap, sym, ◌∙◌, true, Option, some, [], ◌++◌, append-nil, Bytes, length,
  arith, ◌≤◌, All, subst, eq_bytes, if◌then◌else◌,
}
use cc_dey.Socket.{Sock, pure, ok, done, ◌>>=◌, attempt, continue, attempt_run}
use cc_dey.Socket.Fair.{Fair, Patient}
use cc_dey.Socket.Send.Fair.{Ready, Emits, IsLive, room as writes}
use cc_dey.Wire.{dt_string, u32_mod, c_string, read_uint32, read_string, send_ok}
use cc_dey.Wire.Grammar.{integer_frame, blob_frame}
use cc_dey.Wire.Read.{
  Reads, Reads-bind, Reads-attempt, Reads-still, read_uint32-Reads, recv_blob-Reads,
}
use cc_dey.Wire.Write.{send_ok-Writes}
use cc_dey.Registry.{
  Recipient, Request, Table, Ccapi, receive_error_none, add_registered_target,
  register_data_request,
}
use cc_dey.Registry.Lookup.{recipient_of}
use cc_dey.Registry.Sync.{Laws, Covered, register_new, recipient_new, register-Covered}
use cc_dey.Daemon.Upload.{read_limit}
use cc_dey.Daemon.Requests.{
  htons, take_end, take_target, take_port, read_port, send_errors, confirm, answer_registered,
  on_register, handle_register, handle_register_data_request, read_request,
}

-- What a client writes behind the tag of the request.
unfoldable pub registration_frame : ℕ → Bytes → Bytes
registration_frame port target =
    integer_frame port ++ (blob_frame dt_string target ++ integer_frame 0)

module _ (window : ℕ) (patient : Patient window read_limit) where
  take_end-Reads : (r : Request) → Reads (take_end r (ok 0)) window [] (some r)
  unfolding take_end
  take_end-Reads r = Reads-still window (take_end r (ok 0)) (some r) (λ s roomy. refl)

  end-Reads :
      (r : Request)
      → Reads (attempt (read_uint32 read_limit) >>= take_end r) window (integer_frame 0) (some r)
  end-Reads r =
      subst (λ l. Reads (attempt (read_uint32 read_limit) >>= take_end r) window l (some r))
        (append-nil (integer_frame 0))
        (Reads-bind window (attempt (read_uint32 read_limit)) (take_end r) (integer_frame 0) []
          (ok 0) (some r)
          (Reads-attempt window (read_uint32 read_limit) (integer_frame 0) 0
            (read_uint32-Reads window 0 read_limit patient (omega arith)))
          (take_end-Reads r))

  read_port-Reads :
      (to : Recipient) (port : ℕ) (target : Bytes)
      → port < u32_mod
      → length target + 1 < u32_mod
      → Reads
          (read_port to)
          window
          (registration_frame port target)
          (some (record { recipient = record to { port = htons port }; target = c_string target }))
  unfolding read_port take_port take_target read_string registration_frame
  read_port-Reads to port target hp ht =
      Reads-bind window (attempt (read_uint32 read_limit)) (take_port to) (integer_frame port) _
        (ok port) _
        (Reads-attempt window (read_uint32 read_limit) (integer_frame port) port
          (read_uint32-Reads window port read_limit patient hp))
        (Reads-bind window (attempt (read_string read_limit))
          (take_target (record to { port = htons port })) (blob_frame dt_string target)
          (integer_frame 0) (ok target) _
          (Reads-attempt window (read_string read_limit) (blob_frame dt_string target) target
            (recv_blob-Reads window dt_string target read_limit patient ht))
          (end-Reads
            (record { recipient = record to { port = htons port }; target = c_string target })))

-- The local process that listens on `port`.
abbrev pub registered : ℕ → Bytes → Request
registered port target = record {
  recipient = record { family = 2; port = htons port; addr = 0x0100007f };
  target = c_string target;
}

module _ (ccapi : Ccapi) (laws : Laws ccapi) (inet_pton : Bytes → Option ℕ) where
  open ccapi use {State, add_target}

  -- The socket's part of the handler, once the request is read.
  on_register-new :
      (extra : ℕ) (r : Request) (c : State) (t : Table) (s : Sock)
      → Covered ccapi laws c t
      → (add_target r.target c).0 ≡ receive_error_none
      → ((n : ℕ) → s.alloc n ≡ true)
      → Ready (length (integer_frame 0) + extra) s
      → (s' : Sock) × (on_register ccapi c t (some r) s
          ≡ done
              (ok (record {
                result = some 0;
                ccapi_state = (add_target r.target c).1;
                table = (add_registered_target s.alloc r t).1;
              }))
              s')
        × (s'.sent ≡ s.sent ++ integer_frame 0)
  unfolding on_register register_data_request answer_registered send_errors confirm
  on_register-new extra r c t s covered new roomy ready =
      let out : Emits send_ok (integer_frame 0) extra s = send_ok-Writes extra s ready in
      let answered = register_new ccapi laws s.alloc roomy r c t covered new in
      (
        out.last,
        ap (λ d. answer_registered ccapi (d, (add_target r.target c).1) s) answered
            ∙ ap
                (λ x. continue (attempt_run x) (λ _. pure (record {
                  result = some 0;
                  ccapi_state = (add_target r.target c).1;
                  table = (add_registered_target s.alloc r t).1;
                })))
                out.runs,
        out.sent,
      )

  -- A registration that the daemon reads whole (from a fair socket, with room in the heap and for
  -- the response, a port of 32 bits and a target of less) and that CCAPI, which keeps the laws,
  -- takes for a new target is answered with success and nothing else, where the table has none but
  -- targets that CCAPI serves; from then on the target belongs to the process that listens on the
  -- port, every other target to the process that had it, and the table is as described.
  pub handle_register-served :
      (base window extra port : ℕ) (target rest : Bytes) (c : State) (t : Table) (s : Sock)
      → Covered ccapi laws c t
      → (add_target (c_string target) c).0 ≡ receive_error_none
      → port < u32_mod
      → length target + 1 < u32_mod
      → s.incoming ≡ registration_frame port target ++ rest
      → Fair base window s
      → ((n : ℕ) → s.alloc n ≡ true)
      → Patient window read_limit
      → Ready (length (integer_frame 0) + extra) s
      → (s' : Sock) × (t' : Table) × (handle_register_data_request ccapi inet_pton c t s
          ≡ done
              (ok (record {
                result = some 0;
                ccapi_state = (add_target (c_string target) c).1;
                table = t';
              }))
              s')
        × (s'.sent ≡ s.sent ++ integer_frame 0)
        × Covered ccapi laws (add_target (c_string target) c).1 t'
        × ((u : Bytes)
            → recipient_of t' u ≡ (
                if eq_bytes (c_string target) u
                then some (registered port target).recipient
                else recipient_of t u))
  unfolding handle_register_data_request handle_register read_request
  handle_register-served base window extra port target rest c t s covered new hp ht e fair roomy
        patient ready =
      let r : Request = registered port target in
      let g =
        read_port-Reads window patient (record { family = 2; port = 0; addr = 0x0100007f }) port
          target hp ht base rest s fair roomy e in
      let room : (n : ℕ) → g.last.alloc n ≡ true = λ n. ap (λ a. a n) g.took.alloc ∙ roomy n in
      let (s', runs, sent) = on_register-new extra r c t g.last covered new room (record {
        live = subst (All IsLive) (sym g.took.sends) ready.live;
        enough =
            subst (λ l. length (integer_frame 0) + extra ≤ writes l) (sym g.took.sends)
              ready.enough;
      }) in
      (
        s',
        (add_registered_target g.last.alloc r t).1,
        ap (λ x. continue x (on_register ccapi c t)) g.runs ∙ runs,
        sent ∙ ap (λ l. l ++ integer_frame 0) g.took.sent,
        subst (λ d. Covered ccapi laws (add_target (c_string target) c).1 d.table)
            (register_new ccapi laws g.last.alloc room r c t covered new)
            (register-Covered ccapi laws g.last.alloc room r c t covered),
        λ u. recipient_new ccapi laws g.last.alloc room r c t covered u new,
      )
