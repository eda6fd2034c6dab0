-- ===== src/Client/Requests.antt =====
-- library/src/services-client/cccs_data_request.c: the client's own table of request targets, and
-- the two calls that change it. The listening thread is not modelled.
pub mod Forgets
pub mod Added
use cc_dey.Base.{
  ℕ, zero, suc, ◌+◌, ◌-◌, ◌*◌, ◌^◌, Bool, true, false, Option, none, some, List, [], ◌∷◌, ◌++◌,
  Bytes, length, eq_bytes, ◌==◌, if◌then◌else◌,
}
use cc_dey.CommError
use cc_dey.Socket.{Sock, ok, err, done, blocked, fault}
use cc_dey.Client.Upload.{Resp, Call, refused, ran}
use cc_dey.Client.Registration.{Action, register_dr, unregister_dr, send_data_request_data}

-- request_data_t, less its buffers; a callback is a number.
pub record Target : Type 0 where
  pub target : Bytes
  pub data_cb : ℕ
  pub status_cb : ℕ
  pub max_request_size : ℕ

-- active_requests, whose size is the length of the array.
pub record Targets : Type 0 where
  pub array : List Target
  pub max_size : ℕ

-- active_requests.lock: NULL, a lock, or one that was destroyed.
pub data Lock : Type 0 where
  no_lock live destroyed : Lock

-- The static variables of the file; `port` is that of server_sock, `none` where its fd is -1.
pub record Client : Type 0 where
  pub targets : Targets
  pub lock : Lock
  pub port : Option ℕ
  pub listening : Bool

-- What the system gives in one call: `opened` is the port of a new server socket, `connect` the
-- connection to the daemon, `starts` whether the thread can be started.
pub record Answers : Type 0 where
  pub new_lock : Bool
  pub acquires : Bool
  pub releases : Bool
  pub alloc : ℕ → Bool
  pub opened : Option ℕ
  pub connect : Option Sock
  pub starts : Bool

abbrev pub local_max_size : ℕ
local_max_size = 16

-- sizeof(request_data_t) on a 64-bit machine.
abbrev pub target_bytes : ℕ
target_bytes = 64

unfoldable pub make_room : (ℕ → Bool) → Targets → Option Targets
make_room alloc t =
    let new_max_size = if t.max_size == 0 then local_max_size else 2 * t.max_size in
    if length t.array == t.max_size
    then (if alloc (new_max_size * target_bytes)
        then some (record t { max_size = new_max_size })
        else none)
    else some t

-- Whether the target is added, and the table.
unfoldable pub add_local_target : (ℕ → Bool) → Targets → Target → Bool × Targets
unfolding make_room
add_local_target alloc t new = elim (make_room alloc t) [
  | none ↦ (false, t)
  | some room ↦
      if alloc (length new.target + 1)
      then (true, record room { array = room.array ++ (new ∷ []) })
      else (false, room)
]

unfoldable pub find_local : List Target → Bytes → Option Target
find_local [] name = none
find_local (r ∷ rs) name = if eq_bytes r.target name then some r else find_local rs name

unfoldable pub remove_local : List Target → Bytes → List Target
remove_local [] name = []
remove_local (r ∷ rs) name =
    let rest = r ∷ remove_local rs name in if eq_bytes r.target name then rs else rest

-- The callbacks of a target that is there are replaced.
unfoldable pub override_local : List Target → Target → List Target
override_local [] new = []
override_local (r ∷ rs) new =
    let rest = r ∷ override_local rs new in
    if eq_bytes r.target new.target
    then record r { data_cb = new.data_cb; status_cb = new.status_cb; max_request_size = 0 } ∷ rs
    else rest

-- What a call comes to: its result, the response and the state; a call that is not over; or one
-- that uses a lock that was destroyed.
pub data Finished : Type 0 where
  finished : ℕ → Resp → Client → Finished
  waiting undefined : Finished

unfoldable pub get_server_socket : Answers → Client → Client
get_server_socket a c = elim c.port [ none ↦ record c { port = a.opened } | some p ↦ c ]

-- The response of an exchange with the daemon that is over.
unfoldable pub over : Call → Option (ℕ × Resp)
over (refused r) = some r
over (ran (done (ok r) s)) = some r
over (ran (done (err e) s)) = none
over (ran blocked) = none
over (ran fault) = none

unfoldable pub release_lock : Answers → ℕ → Resp → Client → Finished
release_lock a ret r c =
    if a.releases
    then finished ret r c
    else finished (if ret == CommError.none then CommError.lock else ret) r c

-- start_listening_for_requests
unfoldable pub start_listening : Answers → Finished → Finished
start_listening a waiting = waiting
start_listening a undefined = undefined
start_listening a (finished ret r c) =
    if ret == CommError.none
    then finished ret r (record c { listening = if c.listening then true else a.starts })
    else finished ret r c

-- ret = -2, in an enum of 32 bits.
abbrev pub minus_two : ℕ
minus_two = 2 ^ 32 - 2

unfoldable pub after_register : Answers → Target → Client → Option (ℕ × Resp) → Finished
unfolding add_local_target release_lock
after_register a new c none = waiting
after_register a new c (some (ret, r)) =
    let (added, targets) = add_local_target a.alloc c.targets new in
    if ret == CommError.none
    then release_lock a (if added then ret else minus_two) r (record c { targets = targets })
    else release_lock a ret r c

-- A target that is not in the table.
unfoldable pub register_and_add : Answers → Target → ℕ → Client → Finished
unfolding after_register over
register_and_add a new timeout c = elim c.port [
  | none ↦
      release_lock a CommError.unable_to_connect
        (record { code = CommError.unable_to_connect; hint = none }) c
  | some port ↦
      after_register a new c
        (over (send_data_request_data register_dr port new.target timeout a.connect))
]

-- `code` is what resp->code holds before the call: where a target is overridden it is not written.
unfoldable pub add_locked : Answers → Target → ℕ → ℕ → Client → Finished
unfolding register_and_add find_local override_local get_server_socket
add_locked a new timeout code c = elim (find_local c.targets.array new.target) [
  | none ↦ register_and_add a new timeout (get_server_socket a c)
  | some old ↦
      release_lock a CommError.none (record { code = code; hint = none })
        (record c { targets = record c.targets { array = override_local c.targets.array new } })
]

unfoldable pub lock_error : Client → Finished
lock_error c = finished CommError.lock (record { code = CommError.lock; hint = none }) c

unfoldable pub add_with_lock : Answers → Target → ℕ → ℕ → Client → Lock → Finished
unfolding add_locked start_listening lock_error
add_with_lock a new timeout code c no_lock = lock_error c
add_with_lock a new timeout code c destroyed = undefined
add_with_lock a new timeout code c live =
    if a.acquires
    then start_listening a (add_locked a new timeout code c)
    else lock_error (record c { lock = destroyed })

unfoldable pub ensure_lock : Answers → Client → Client
ensure_lock a c = elim c.lock [
  | no_lock ↦ record c { lock = if a.new_lock then live else no_lock }
  | live ↦ c
  | destroyed ↦ c
]

unfoldable pub no_target : Client → Finished
no_target c =
    finished CommError.invalid_argument (record { code = CommError.invalid_argument; hint = none })
      c

unfoldable pub cccs_add_request_target_tout :
    Answers → Option Bytes → ℕ → ℕ → ℕ → ℕ → Client → Finished
unfolding add_with_lock ensure_lock no_target
cccs_add_request_target_tout a none data_cb status_cb timeout code c = no_target c
cccs_add_request_target_tout a (some target) data_cb status_cb timeout code c =
    let c' = ensure_lock a c in
    add_with_lock a
      (record { target = target; data_cb = data_cb; status_cb = status_cb; max_request_size = 0 })
      timeout code c' c'.lock

-- The port as it is written, -1 where there is no socket.
unfoldable pub port_number : Option ℕ → ℕ
port_number none = 2 ^ 32 - 1
port_number (some p) = p

unfoldable pub stop_if_empty : Answers → Client → List Target → Client
unfolding get_server_socket
stop_if_empty a c [] = record (get_server_socket a c) { listening = false }
stop_if_empty a c (r ∷ rs) = c

unfoldable pub lock_after : List Target → Lock → Lock
lock_after [] lock = no_lock
lock_after (r ∷ rs) lock = lock

unfoldable pub after_unregister : Answers → Client → Option (ℕ × Resp) → Finished
unfolding release_lock lock_after
after_unregister a c none = waiting
after_unregister a c (some (ret, r)) =
    release_lock a ret r (record c { lock = lock_after c.targets.array c.lock })

unfoldable pub remove_locked : Answers → Bytes → ℕ → Client → Finished
unfolding remove_local stop_if_empty after_unregister over port_number
remove_locked a target timeout c =
    let left = remove_local c.targets.array target in
    let c' = stop_if_empty a (record c { targets = record c.targets { array = left } }) left in
    after_unregister a c'
      (over (send_data_request_data unregister_dr (port_number c'.port) target timeout a.connect))

unfoldable pub remove_from_table : Answers → Bytes → ℕ → Client → List Target → Lock → Finished
unfolding remove_locked lock_error
remove_from_table a target timeout c [] lock =
    finished CommError.none (record { code = CommError.none; hint = none }) c
remove_from_table a target timeout c (r ∷ rs) destroyed = undefined
remove_from_table a target timeout c (r ∷ rs) no_lock = lock_error c
remove_from_table a target timeout c (r ∷ rs) live =
    if a.acquires then remove_locked a target timeout c else lock_error c

unfoldable pub cccs_remove_request_target_tout : Answers → Option Bytes → ℕ → Client → Finished
unfolding remove_from_table no_target
cccs_remove_request_target_tout a none timeout c = no_target c
cccs_remove_request_target_tout a (some target) timeout c =
    remove_from_table a target timeout c c.targets.array c.lock
