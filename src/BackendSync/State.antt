-- ===== src/BackendSync/State.antt =====
-- The states of `BackendSync::Client` of ssdb/src/backend_sync.h.
use model_lib.Prelude.{Bool, true, false}

pub data Status : Type 0 where
  init : Status
  out_of_sync : Status
  copy : Status
  sync : Status

-- `status == Client::COPY`.
abbrev pub is_copy : Status → Bool
is_copy init = false
is_copy out_of_sync = false
is_copy copy = true
is_copy sync = false

-- `status == Client::OUT_OF_SYNC`.
abbrev pub is_out_of_sync : Status → Bool
is_out_of_sync init = false
is_out_of_sync out_of_sync = true
is_out_of_sync copy = false
is_out_of_sync sync = false
