-- ===== src/Tests/Registration.antt =====
-- Tests of the table of data requests, with a CCAPI that keeps the list of its targets.
use cc_dey.Base.{
  ℕ, ◌≡◌, refl, Bool, true, false, some, none, List, [], ◌∷◌, Bytes, codes, ◌&&◌, not, eq_bytes_iff,
  if◌then◌else◌, arith, ◌==◌, ◌||◌, ◌⊎◌, length, All, ◌+◌,
}
use cc_dey.Base.Lists.{eq_bytes}
use cc_dey.Socket.{Sock, done, ok}
use cc_dey.Wire.{c_string}
use cc_dey.Wire.Grammar.{integer_frame, blob_frame}
use cc_dey.Decimal.{decimal, digits}
use cc_dey.Daemon.Requests.{handle_register_data_request}
use cc_dey.Daemon.Requests.Served.{registration_frame, registered, handle_register-served}
use cc_dey.Tests.Sockets.{socket, socket-Fair, socket-Ready}
use cc_dey.Registry.{
  Recipient, Request, Registered, find_in, Table, Ccapi, receive_error_none, register_answered,
  register_data_request,
}
use cc_dey.Registry.Lookup.{recipient_of}
use cc_dey.Registry.Sync.{
  Laws, Covered, is_known, register-recipient_of, register-Covered, register_out_of_memory,
}
use cc_dey.Registry.Dump.{recipient_object, Disk, Heap, dump_datarequests, import_datarequests}
use cc_dey.Registry.Dump.RoundTrip.{
  Ample, RequestFits, dump_size, requests_object, request_object, register_all,
  import_datarequests-dump_datarequests,
}

unfoldable serves : List Bytes → Bytes → Bool
serves [] u = false
serves (v ∷ vs) u = eq_bytes v u || serves vs u

unfoldable without : List Bytes → Bytes → List Bytes
without [] u = []
without (v ∷ vs) u = if eq_bytes v u then without vs u else v ∷ without vs u

unfoldable listed_add : Bytes → List Bytes → ℕ × List Bytes
unfolding serves
listed_add u c = if serves c u then (3, c) else (0, u ∷ c)

unfoldable listed_remove : Bytes → List Bytes → ℕ × List Bytes
unfolding serves without
listed_remove u c = if serves c u then (0, without c u) else (2, c)

abbrev listed : Ccapi
listed = record {
  State = List Bytes;
  add_target = listed_add;
  remove_target = listed_remove;
  invalid_target = 1;
  not_added = 2;
  already_added = 3;
  insufficient_memory = 4;
  status_timeout = 5;
}

serves-without :
    (c : List Bytes) (u v : Bytes)
    → serves (without c u) v ≡ (if eq_bytes u v then false else serves c v)
unfolding serves without
serves-without [] u v = ground arith
serves-without (w ∷ c) u v =
    ground (arith, serves-without c u v, eq_bytes_iff w u, eq_bytes_iff w v, eq_bytes_iff u v)

abbrev listed_laws : Laws listed
listed_laws = record {
  has_target = serves;
  codes_differ = omega arith;
  add_new = λ u c h. unfold listed_add in ground arith;
  add_sets = λ u v c h. unfold listed_add in ground arith;
  add_old = λ u c h. unfold listed_add in ground arith;
  add_keeps = λ u v c h. unfold listed_add in ground arith;
  remove_clears = λ u v c h. unfold listed_remove in ground (arith, serves-without c u v);
  remove_keeps = λ u v c h. unfold listed_remove in ground arith;
}

abbrev here : Recipient
here = record { family = 2; port = 977; addr = 16777343 }

abbrev there : Recipient
there = record { family = 2; port = 4000; addr = 16777343 }

abbrev table : Table
table = record { array = record { recipient = here; target = codes "led" } ∷ []; max_size = 16 }

abbrev moved : Request
moved = record { recipient = there; target = codes "led" }

abbrev fresh : Request
fresh = record { recipient = there; target = codes "fan" }

-- The targets that CCAPI serves: that of the table, and a built-in one.
abbrev serving : List Bytes
serving = codes "led" ∷ codes "builtin/edp_certificate_update" ∷ []

table-Covered : Covered listed listed_laws serving table
unfolding find_in
table-Covered = record {
  valid = record { fits = omega arith; unique = (refl, tt) };
  serves = λ u h. unfold serves in ground arith;
}

-- What CCAPI answers, and the registration.
abbrev status : Request → ℕ
status r = (listed_add r.target serving).0

abbrev answered : Request → Registered
answered r = register_answered listed (λ n. true) (status r) r table

register-recipient_of_example :
    (answered fresh).result ≡ true
      × ((answered fresh).messages ≡ (
          if status fresh == 3 && not (is_known (recipient_of table fresh.target))
          then codes "Internal connector error" ∷ []
          else []))
      × ((u : Bytes)
          → recipient_of (answered fresh).table u
            ≡ (if eq_bytes fresh.target u then some there else recipient_of table u))
    ⊎ ((answered fresh).result ≡ false)
      × ((answered fresh).table ≡ table)
      × (length (answered fresh).messages ≡ 1)
register-recipient_of_example =
    register-recipient_of listed listed_laws (λ n. true) (λ n. refl) fresh serving table
      table-Covered

register-Covered_example :
    Covered listed listed_laws (listed_add (codes "led") serving).1 (answered moved).table
register-Covered_example =
    register-Covered listed listed_laws (λ n. true) (λ n. refl) moved serving table table-Covered

is_new : (listed_add fresh.target serving).0 ≡ receive_error_none
unfolding listed_add serves eq_bytes
is_new = refl

register_out_of_memory_example :
    ((register_data_request listed (λ n. false) fresh serving table).0.result ≡ false)
    × (serves (register_data_request listed (λ n. false) fresh serving table).1 (codes "fan")
        ≡ true)
    × (recipient_of
          (register_data_request listed (λ n. false) fresh serving table).0.table
          (codes "fan")
        ≡ none)
register_out_of_memory_example =
    register_out_of_memory listed listed_laws (λ n. false) fresh serving table table-Covered is_new
      refl

abbrev registration : Bytes
registration = registration_frame 4000 (codes "fan")

handle_register-served_example :
    (s' : Sock) × (t' : Table) × (handle_register_data_request listed
        (λ ip. none)
        serving
        table
        (socket registration)
      ≡ done
          (ok (record {
            result = some 0;
            ccapi_state = (listed_add (c_string (codes "fan")) serving).1;
            table = t';
          }))
          s')
    × (s'.sent ≡ integer_frame 0)
    × Covered listed listed_laws (listed_add (c_string (codes "fan")) serving).1 t'
    × ((u : Bytes)
        → recipient_of t' u ≡ (
            if eq_bytes (c_string (codes "fan")) u
            then some (registered 4000 (codes "fan")).recipient
            else recipient_of table u))
unfolding integer_frame blob_frame decimal digits c_string registration_frame
handle_register-served_example =
    handle_register-served listed listed_laws (λ ip. none) 100 10 0 4000 (codes "fan") [] serving
      table (socket registration) table-Covered is_new (omega arith) (omega arith) refl
      (socket-Fair registration (omega arith)) (λ n. refl) (omega arith)
      (socket-Ready _ registration (omega arith))

abbrev heap : Heap
heap = record { alloc = λ n. true; usable = λ n. n + 8 }

heap-Ample : Ample heap
heap-Ample = record { room = λ n. refl; large = λ n. omega arith }

abbrev disk : Disk
disk = record { contents = some (codes "old"); opens = true; free = 100; buffer = 4096 }

abbrev empty_table : Table
empty_table = record { array = []; max_size = 0 }

abbrev at_start : List Bytes
at_start = codes "builtin/edp_certificate_update" ∷ []

table-RequestFits : All RequestFits table.array
table-RequestFits = (
  (
    (omega arith, omega arith, omega arith),
    (omega arith, omega arith, (omega arith, (omega arith, (omega arith, tt)))),
  ),
  tt,
)

import_datarequests-dump_datarequests_example :
    ((dump_datarequests table disk).0 ≡ true)
    × (import_datarequests listed heap (dump_datarequests table disk).1 (at_start, empty_table)
        ≡ register_all listed heap table.array (at_start, empty_table))
unfolding dump_size requests_object request_object recipient_object
import_datarequests-dump_datarequests_example =
    import_datarequests-dump_datarequests listed heap table disk (at_start, empty_table)
      (omega arith) (omega arith) table-RequestFits refl (omega arith) heap-Ample
