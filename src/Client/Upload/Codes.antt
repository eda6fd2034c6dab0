-- ===== src/Client/Upload/Codes.antt =====
-- The code that the caller of an upload is given.
use cc_dey.Base.{
  ℕ, ◌+◌, ◌<◌, ◌≡◌, sym, ap, ◌∙◌, true, some, ◌++◌, Bytes, length, ◌==◌, if◌then◌else◌, subst, All,
  false,
}
use cc_dey.CommError
use cc_dey.Socket.{Sock, M, ok, done, continue, pure}
use cc_dey.Socket.Fair.{Prompt, Fair, Patient}
use cc_dey.Socket.Send.Fair.{Ready, Emits, Quiet}
use cc_dey.Wire.{u32_mod}
use cc_dey.Wire.Grammar.{integer_frame, error_codes_frame}
use cc_dey.Wire.Write.{Writes}
use cc_dey.Client.{SrvResp, client_timeout}
use cc_dey.Client.Response.{parse-error_codes, error_codes_frame-append}
use cc_dey.Client.Upload.{
  Upload, resp_code, finish, parse_after, exchange, is_invalid, send_dp_data_type, send_dp_data,
  ran,
}
use cc_dey.Client.Upload.Frame.{upload_frame, Fits, send_dp_data_type-Writes}

-- The reply to a request: the codes and the message of the daemon.
abbrev answer : Bytes → ℕ → ℕ → ℕ → SrvResp
answer msg srv ccapi cccs = record {
  srv_err = srv;
  ccapi_err = ccapi;
  cccs_err = cccs;
  hint = some msg;
}

pub Fair-Quiet :
    {base window : ℕ} {s s' : Sock} → Quiet s s' → Fair base window s → Fair base window s'
Fair-Quiet {base} {window} q f = record {
  started = rw q.clock f.started;
  prompt = subst (All (Prompt base window)) (sym q.turns) f.prompt;
  enough = rw (q.incoming, q.turns) f.enough;
}

-- A request that is written whole and answered by `send_error_codes`.
exchange-Gives :
    (base window timeout extra : ℕ) (request : M (Unit {0})) (bytes msg : Bytes)
    (srv ccapi cccs : ℕ) (c : Sock)
    → Writes request bytes
    → srv < u32_mod
    → ccapi < u32_mod
    → cccs < u32_mod
    → length msg + 1 < u32_mod
    → Ready (length bytes + extra) c
    → c.incoming ≡ error_codes_frame msg srv ccapi cccs
    → Fair base window c
    → ((n : ℕ) → c.alloc n ≡ true)
    → Patient window (client_timeout timeout)
    → (s' : Sock) × (exchange request timeout c
        ≡ done (ok (finish CommError.from_cloud (answer msg srv ccapi cccs))) s')
      × (s'.sent ≡ c.sent ++ bytes)
unfolding exchange parse_after
exchange-Gives base window timeout extra request bytes msg srv ccapi cccs c w hs ha hc hm ready e
      fair roomy patient =
    let emits : Emits request bytes extra c = w extra c ready in
    let g =
      parse-error_codes window timeout patient msg srv ccapi cccs hs ha hc hm base (integer_frame 0)
        emits.last (Fair-Quiet emits.quiet fair) (λ n. rw emits.quiet.alloc (roomy n))
        (emits.quiet.incoming ∙ e ∙ error_codes_frame-append msg srv ccapi cccs) in
    (
      g.last,
      rw emits.runs (ap (λ r. continue r (λ p. pure (finish p.0 p.1))) g.runs),
      g.took.sent ∙ emits.sent,
    )

-- An upload that is not refused as invalid, on a connection that takes the whole request and
-- brings the three codes and the message of `send_error_codes`: the request is on the wire as the
-- grammar says, and the caller gets the daemon's code, or that of CCAPI or of the server if the
-- daemon's is the marker of the one or the other; with the daemon's code 0 it gets 0 whatever the
-- other two are. The codes and lengths have 32 bits, the socket is fair and within the time
-- limit, and the heap has room.
pub send_dp_data-answered :
    (base window timeout extra : ℕ) (u : Upload) (msg : Bytes) (srv ccapi cccs : ℕ) (c : Sock)
    → is_invalid u ≡ false
    → Fits u
    → srv < u32_mod
    → ccapi < u32_mod
    → cccs < u32_mod
    → length msg + 1 < u32_mod
    → Ready (length (upload_frame u) + extra) c
    → c.incoming ≡ error_codes_frame msg srv ccapi cccs
    → Fair base window c
    → ((n : ℕ) → c.alloc n ≡ true)
    → Patient window (client_timeout timeout)
    → (s' : Sock) × (send_dp_data u timeout (some c)
        ≡ ran (
            done
              (ok (
                CommError.from_cloud,
                record {
                  code =
                      if cccs == 0
                      then 0
                      else if cccs == CommError.ccapi_error
                      then ccapi
                      else if cccs == CommError.srv_error
                      then srv
                      else cccs;
                  hint = some msg;
                },
              ))
              s'))
      × (s'.sent ≡ c.sent ++ upload_frame u)
unfolding send_dp_data finish resp_code
send_dp_data-answered base window timeout extra u msg srv ccapi cccs c valid fits hs ha hc hm ready
      e fair roomy patient =
    let (s', runs, sent) =
      exchange-Gives base window timeout extra (send_dp_data_type u) (upload_frame u) msg srv ccapi
        cccs c (send_dp_data_type-Writes u fits) hs ha hc hm ready e fair roomy patient in
    (s', rw valid (ap ran runs), sent)
