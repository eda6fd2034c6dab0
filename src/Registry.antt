-- ===== src/Registry.antt =====
-- library/src/services/service_data_request.c: the table of the data requests that local processes
-- serve (`active_requests`), and its registration with CCAPI. CCAPI is not part of this repository:
-- its calls come by an interface.
pub mod Lookup
pub mod Sync
pub mod Dump
use cc_dey.Base.{
  ℕ, suc, ◌+◌, ◌*◌, Bool, true, false, Option, none, some, List, [], ◌∷◌, ◌++◌, Bytes, codes,
  length, eq_bytes, ◌==◌, if◌then◌else◌,
}

-- struct sockaddr_in, as far as the code reads it.
pub record Recipient : Type 0 where
  pub family : ℕ
  pub port : ℕ
  pub addr : ℕ

-- request_data_t
pub record Request : Type 0 where
  pub recipient : Recipient
  pub target : Bytes

-- request_data_darray_t: the first `size` elements, and the capacity.
pub record Table : Type 0 where
  pub array : List Request
  pub max_size : ℕ

abbrev pub initial_max_size : ℕ
initial_max_size = 16

-- sizeof(request_data_t): 16 bytes of address and a pointer.
abbrev pub request_size : ℕ
request_size = 24

abbrev new_max_size : ℕ → ℕ
new_max_size max = if max == 0 then initial_max_size else 2 * max

-- The table after the (re)allocation, if it succeeds. `alloc` is the answer of the heap by size.
unfoldable pub grow : (ℕ → Bool) → Table → Option Table
grow alloc t =
    if length t.array == t.max_size
    then if alloc (new_max_size t.max_size * request_size)
      then some (record t { max_size = new_max_size t.max_size })
      else none
    else some t

-- strdup, and the element behind the last.
unfoldable pub append_request : (ℕ → Bool) → Request → Table → Bool × Table
append_request alloc r t =
    if alloc (length r.target + 1)
    then (true, record t { array = t.array ++ r ∷ [] })
    else (false, t)

-- The first component is `false` where the function returns -1.
unfoldable pub add_registered_target : (ℕ → Bool) → Request → Table → Bool × Table
unfolding grow append_request
add_registered_target alloc r t = elim (grow alloc t) [
  | none ↦ (false, t)
  | some t' ↦ append_request alloc r t'
]

-- The first element with that target.
unfoldable pub find_in : List Request → Bytes → Option Request
find_in [] target = none
find_in (r ∷ rs) target = if eq_bytes r.target target then some r else find_in rs target

unfoldable pub find_request_data : Table → Bytes → Option Request
unfolding find_in
find_request_data t target = find_in t.array target

-- memmove of the elements behind the first one with that target.
unfoldable pub remove_first : List Request → Bytes → List Request
remove_first [] target = []
remove_first (r ∷ rs) target = if eq_bytes r.target target then rs else r ∷ remove_first rs target

unfoldable pub remove_registered_target : Bytes → Table → Bool × Table
unfolding find_request_data remove_first
remove_registered_target target t = elim (find_request_data t target) [
  | none ↦ (false, t)
  | some r ↦ (true, record t { array = remove_first t.array target })
]

-- memcpy of the new recipient over that of the element that find_request_data returns.
unfoldable pub override_in : List Request → Request → List Request
override_in [] new = []
override_in (r ∷ rs) new =
    if eq_bytes r.target new.target
    then record r { recipient = new.recipient } ∷ rs
    else r ∷ override_in rs new

-- The calls of ccapi_receive that the daemon makes, and the codes of ccapi_receive_error_t that it
-- names; `none` is 0.
pub record Ccapi : Type 1 where
  pub State : Type 0
  pub add_target : Bytes → State → ℕ × State
  pub remove_target : Bytes → State → ℕ × State
  pub invalid_target : ℕ
  pub not_added : ℕ
  pub already_added : ℕ
  pub insufficient_memory : ℕ
  pub status_timeout : ℕ

abbrev pub receive_error_none : ℕ
receive_error_none = 0

-- What register_data_request did: its result (`true` for 0), the messages that it sent to the
-- client, and the table.
pub record Registered : Type 0 where
  pub result : Bool
  pub messages : List Bytes
  pub table : Table

-- The end of register_data_request, where the target is added to the table.
unfoldable pub add_or_complain : (ℕ → Bool) → Request → List Bytes → Table → Registered
add_or_complain alloc r messages t =
    let (done, t') = add_registered_target alloc r t in
    if done then (record { result = true; messages = messages; table = t' }) else (record {
      result = false;
      messages = messages ++ codes "Could not register data request, out of memory" ∷ [];
      table = t';
    })

module _ (ccapi : Ccapi) where
  open ccapi use {
    State, add_target, remove_target, invalid_target, not_added, already_added, insufficient_memory,
    status_timeout,
  }

  unfoldable pub to_user_error_msg : ℕ → Bytes
  to_user_error_msg error =
      if error == receive_error_none
      then codes "Success"
      else if error == invalid_target
      then codes "Invalid target"
      else if error == not_added
      then codes "Target is not registered"
      else if error == already_added
      then codes "Target already registered"
      else if error == insufficient_memory
      then codes "Out of memory"
      else if error == status_timeout
      then codes "Timeout"
      else codes "Internal connector error"

  -- register_data_request once CCAPI has answered `status`.
  unfoldable pub register_answered : (ℕ → Bool) → ℕ → Request → Table → Registered
  unfolding add_or_complain
  register_answered alloc status r t =
      if status == already_added
      then elim (find_request_data t r.target) [
        | none ↦ add_or_complain alloc r (codes "Internal connector error" ∷ []) t
        | some old ↦ record {
          result = true;
          messages = [];
          table = record t { array = override_in t.array r };
        }
      ]
      else if status == receive_error_none
      then add_or_complain alloc r [] t
      else (record { result = false; messages = to_user_error_msg status ∷ []; table = t })

  unfoldable pub register_data_request : (ℕ → Bool) → Request → State → Table → Registered × State
  unfolding register_answered
  register_data_request alloc r c t =
      let (status, c') = add_target r.target c in (register_answered alloc status r t, c')

  -- The result is the answer of CCAPI; the table is changed only if that is "none".
  unfoldable pub unregister_target : Bytes → State → Table → ℕ × (State × Table)
  unregister_target target c t =
      let (status, c') = remove_target target c in
      if status == receive_error_none
      then (status, (c', (remove_registered_target target t).1))
      else (status, (c', t))
