-- ===== src/Daemon/Dispatch.antt =====
-- library/src/services/services.c: the body of the loop of `handle_requests`, which serves one
-- connection. The listening socket, the thread and the closing of the connection are not modelled.
use cc_dey.Base.{Option, none, some, List, [], ◌∷◌, Bytes, codes, eq_bytes, if◌then◌else◌}
use cc_dey.Socket.{
  Timeval, Code, timed_out, no_memory, closed_pipe, failure, Reply, ok, err, M, ◌>>=◌, ◌>>◌, pure,
  attempt,
}
use cc_dey.Wire.{c_string, read_string, send_error}

-- { .tv_sec = 20, .tv_usec = 0 }
abbrev pub tag_limit : Option Timeval
tag_limit = some (record { sec = 20; usec = 0 })

unfoldable pub complain_tag : Code → M (Reply (Unit {0}))
complain_tag timed_out = attempt (send_error (codes "Timeout reading request code"))
complain_tag no_memory = attempt (send_error (codes "Failed to read request code: Out of memory"))
complain_tag closed_pipe = pure (ok tt)
complain_tag failure = attempt (send_error (codes "Failed to read request code"))

-- handler_t; `A` is the state that the handlers change and what they did.
pub record Handler (A : Type 0) : Type 0 where
  pub request_tag : Bytes
  pub request_handler : M A

-- request_handlers, with the handlers of the other files.
unfoldable pub request_handlers :
    {A : Type 0} (upload maintenance register register_ipv4 unregister unregister_ipv4 : M A)
    → List (Handler A)
request_handlers upload maintenance register register_ipv4 unregister unregister_ipv4 =
    record { request_tag = codes "upload_1_dp"; request_handler = upload }
    ∷ record { request_tag = codes "mnt_request"; request_handler = maintenance }
    ∷ record { request_tag = codes "register_devicerequest"; request_handler = register }
    ∷ record { request_tag = codes "register_devicerequest_ipv4"; request_handler = register_ipv4 }
    ∷ record { request_tag = codes "unregister_devicerequest"; request_handler = unregister }
    ∷ record {
      request_tag = codes "unregister_devicerequest_ipv4";
      request_handler = unregister_ipv4;
    }
    ∷ []

-- The first handler with that tag.
unfoldable pub find_handler : {A : Type 0} → List (Handler A) → Bytes → Option (Handler A)
find_handler [] tag = none
find_handler (h ∷ hs) tag = if eq_bytes tag h.request_tag then some h else find_handler hs tag

-- `none` where no handler ran.
unfoldable pub invoke : {A : Type 0} → Option (Handler A) → M (Option A)
invoke none = do attempt (send_error (codes "Invalid request type")); pure none
invoke (some h) = do a ← h.request_handler; pure (some a)

unfoldable pub on_tag : {A : Type 0} → List (Handler A) → Reply Bytes → M (Option A)
unfolding find_handler invoke complain_tag
on_tag handlers (err c) = do complain_tag c; pure none
on_tag handlers (ok tag) = invoke (find_handler handlers (c_string tag))

unfoldable pub handle_request : {A : Type 0} → List (Handler A) → M (Option A)
unfolding on_tag
handle_request handlers = do tag ← attempt (read_string tag_limit); on_tag handlers tag
