-- ===== src/Client/Requests/Forgets.antt =====
-- A target whose removal the daemon does not get is forgotten by the client.
use cc_dey.Base.{
  ℕ, ◌≡◌, refl, Bool, true, false, Option, none, some, [], ◌∷◌, Bytes, eq_bytes, eq_bytes_iff,
}
use cc_dey.CommError
use cc_dey.Client.Registration.{is_unknown, conclude, unregister_dr, send_data_request_data}
use cc_dey.Client.Requests.{
  Target, live, no_lock, Client, Answers, remove_local, finished, over, release_lock, port_number,
  get_server_socket, stop_if_empty, lock_after, after_unregister, remove_locked, remove_from_table,
  cccs_remove_request_target_tout,
}

unregister-unconnected :
    (port timeout : ℕ) (name : Bytes)
    → over (send_data_request_data unregister_dr port name timeout none)
      ≡ some (CommError.unable_to_connect, record { code = 0; hint = none })
unfolding send_data_request_data is_unknown conclude over
unregister-unconnected port timeout name = refl

-- A client without a target.
abbrev emptied : ℕ → Option ℕ → Client
emptied max_size port = record {
  targets = record { array = []; max_size = max_size };
  lock = no_lock;
  port = port;
  listening = false;
}

-- The only target of a client is removed while the daemon cannot be reached: the call fails, and the
-- table is empty. The next call for the same target says that all is well, with any answers of the
-- system, and leaves everything as it was: the daemon never hears of the removal.
pub remove_target-Forgets :
    (a later : Answers) (r : Target) (timeout again max_size : ℕ) (port : Option ℕ)
    (listening : Bool)
    → a.acquires ≡ true
    → a.releases ≡ true
    → a.connect ≡ none
    → (c : Client) × (cccs_remove_request_target_tout a (some r.target) timeout (record {
      targets = record { array = r ∷ []; max_size = max_size };
      lock = live;
      port = port;
      listening = listening;
    })
        ≡ finished CommError.unable_to_connect (record { code = 0; hint = none }) c)
      × (c.targets.array ≡ [])
      × (cccs_remove_request_target_tout later (some r.target) again c
          ≡ finished CommError.none (record { code = CommError.none; hint = none }) c)
unfolding cccs_remove_request_target_tout get_server_socket remove_from_table remove_locked
    remove_local stop_if_empty after_unregister lock_after release_lock
remove_target-Forgets a later r timeout again max_size none listening acquires releases connect =
    let same : eq_bytes r.target r.target ≡ true = (eq_bytes_iff r.target r.target).1 refl in
    let left = emptied max_size a.opened in
    (
      left,
      rw
          (
            acquires,
            same,
            connect,
            unregister-unconnected (port_number a.opened) timeout r.target,
            releases,
          )
          refl,
      refl,
      refl,
    )
remove_target-Forgets a later r timeout again max_size (some p) listening acquires releases
      connect =
    let same : eq_bytes r.target r.target ≡ true = (eq_bytes_iff r.target r.target).1 refl in
    let left = emptied max_size (some p) in
    (
      left,
      rw
          (
            acquires,
            same,
            connect,
            unregister-unconnected (port_number (some p)) timeout r.target,
            releases,
          )
          refl,
      refl,
      refl,
    )
