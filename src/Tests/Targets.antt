-- ===== src/Tests/Targets.antt =====
-- A run of the client's table of targets.
use cc_dey.Base.{◌≡◌, refl, true, none, some, [], ◌∷◌, codes}
use cc_dey.CommError
use cc_dey.Client.Requests.{
  Target, live, Client, Answers, finished, cccs_remove_request_target_tout,
}
use cc_dey.Client.Requests.Forgets.{remove_target-Forgets}

abbrev offline : Answers
offline = record {
  new_lock = true;
  acquires = true;
  releases = true;
  alloc = λ n. true;
  opened = some 4000;
  connect = none;
  starts = true;
}

abbrev door : Target
door = record { target = codes "door"; data_cb = 1; status_cb = 2; max_request_size = 0 }

remove_target-Forgets_example :
    (c : Client) × (cccs_remove_request_target_tout offline (some (codes "door")) 10 (record {
      targets = record { array = door ∷ []; max_size = 16 };
      lock = live;
      port = some 4000;
      listening = true;
    })
      ≡ finished CommError.unable_to_connect (record { code = 0; hint = none }) c)
    × (c.targets.array ≡ [])
    × (cccs_remove_request_target_tout offline (some (codes "door")) 10 c
        ≡ finished CommError.none (record { code = CommError.none; hint = none }) c)
remove_target-Forgets_example =
    remove_target-Forgets offline offline door 10 10 16 (some 4000) true refl refl refl
