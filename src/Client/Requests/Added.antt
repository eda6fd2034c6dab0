-- ===== src/Client/Requests/Added.antt =====
-- A new target is in the table of the client, once the daemon has taken it.
use cc_dey.Base.{
  ℕ, ◌+◌, ◌*◌, ◌≡◌, refl, Bool, true, false, none, some, List, [], ◌∷◌, ◌++◌, Bytes, length,
  eq_bytes, eq_bytes_iff, ◌==◌, if◌then◌else◌, arith, Bool-cases, inl, inr,
}
use cc_dey.CommError
use cc_dey.Client.Upload.{Resp}
use cc_dey.Client.Registration.{register_dr, send_data_request_data}
use cc_dey.Client.Requests.{
  Target, Targets, live, Client, Answers, make_room, add_local_target, find_local,
  get_server_socket, finished, over, release_lock, start_listening, after_register,
  register_and_add, add_locked, add_with_lock, ensure_lock, cccs_add_request_target_tout,
}

find_local-append :
    (rs : List Target) (new : Target) (u : Bytes)
    → find_local rs new.target ≡ none
    → find_local (rs ++ (new ∷ [])) u
      ≡ (if eq_bytes new.target u then some new else find_local rs u)
unfolding find_local
find_local-append [] new u h = refl
find_local-append (r ∷ rs) new u h = elim (Bool-cases (eq_bytes r.target new.target)) [
  | inl taken ↦ absurd (ground arith)
  | inr free ↦
      let rest = find_local-append rs new u (ground arith) in
      elim (Bool-cases (eq_bytes r.target u)) [
        | inr differs ↦ rw differs rest
        | inl same ↦
            let apart : eq_bytes new.target u ≡ false = ground (
              arith,
              eq_bytes_iff new.target u,
              eq_bytes_iff r.target u,
              eq_bytes_iff r.target new.target,
            ) in
            rw (same, apart) refl
      ]
]

add_local_target-append :
    (alloc : ℕ → Bool) (t : Targets) (new : Target)
    → ((n : ℕ) → alloc n ≡ true)
    → (m : ℕ) × (add_local_target alloc t new
        ≡ (true, record { array = t.array ++ (new ∷ []); max_size = m }))
unfolding add_local_target make_room
add_local_target-append alloc t new room =
    let new_size = if t.max_size == 0 then 16 else 2 * t.max_size in
    elim (Bool-cases (length t.array == t.max_size)) [
      | inl full ↦ (
        new_size,
        rw (add_local_target, make_room, full, room (new_size * 64), room (length new.target + 1))
            refl,
      )
      | inr space ↦
          (t.max_size, rw (add_local_target, make_room, space, room (length new.target + 1)) refl)
    ]

-- A target that the client does not have yet, with its callbacks, where the lock and the socket are
-- there, the heap has room, and the daemon's answer is no error: the call returns no error and the
-- response of the daemon, the target is in the table with its callbacks, every other target is there
-- as before, and the client listens if it did or the thread could be started.
pub add_target-find_local :
    (a : Answers) (name : Bytes) (data_cb status_cb timeout code port : ℕ) (targets : Targets)
    (listening : Bool) (r : Resp)
    → a.acquires ≡ true
    → a.releases ≡ true
    → ((n : ℕ) → a.alloc n ≡ true)
    → find_local targets.array name ≡ none
    → over (send_data_request_data register_dr port name timeout a.connect)
      ≡ some (CommError.none, r)
    → (c : Client) × (cccs_add_request_target_tout a
          (some name)
          data_cb
          status_cb
          timeout
          code
          (record { targets = targets; lock = live; port = some port; listening = listening })
        ≡ finished CommError.none r c)
      × ((u : Bytes)
          → find_local c.targets.array u ≡ (
              if eq_bytes name u
              then some (record {
                target = name;
                data_cb = data_cb;
                status_cb = status_cb;
                max_request_size = 0;
              })
              else find_local targets.array u))
      × (c.listening ≡ (if listening then true else a.starts))
unfolding cccs_add_request_target_tout ensure_lock add_with_lock add_locked get_server_socket
    register_and_add after_register release_lock start_listening
add_target-find_local a name data_cb status_cb timeout code port targets listening r acquires
      releases room absent answered =
    let new : Target = record {
      target = name;
      data_cb = data_cb;
      status_cb = status_cb;
      max_request_size = 0;
    } in
    let (m, added) = add_local_target-append a.alloc targets new room in
    (
      record {
        targets = record { array = targets.array ++ (new ∷ []); max_size = m };
        lock = live;
        port = some port;
        listening = if listening then true else a.starts;
      },
      rw (acquires, absent, answered, added, releases) refl,
      λ u. find_local-append targets.array new u absent,
      refl,
    )
