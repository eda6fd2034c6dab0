-- ===== src/Registry/Dump/Restored.antt =====
-- library/src/services/service_data_request.c: what import_datarequests registers of the targets
-- that were dumped.
use cc_dey.Base.{◌≡◌, ◌⊎◌, Option, none, some, Bytes}
use cc_dey.Registry.{Recipient, Ccapi, receive_error_none}

abbrev pub or_else : Option Recipient → Option Recipient → Option Recipient
or_else none other = other
or_else (some r) other = some r

-- CCAPI takes every target, or has it.
abbrev pub Accepts : (ccapi : Ccapi) → Type 0
Accepts ccapi =
    (u : Bytes) (c : ccapi.State)
    → ((ccapi.add_target u c).0 ≡ receive_error_none)
      ⊎ ((ccapi.add_target u c).0 ≡ ccapi.already_added)
