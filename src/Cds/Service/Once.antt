-- ===== src/Cds/Service/Once.antt =====
-- When the server is stopped, every request gets one reply, or is dropped once.
use contact_discovery_servic.Prelude.{
  ℕ, ◌≡◌, Bool, if◌then◌else◌, Option, none, some, List, [], ◌∷◌, ◌++◌, length, Result, ok, err,
}
use contact_discovery_servic.Sgxsd.Types.{Bytes, Status, MsgFrom}
use contact_discovery_servic.Cds.HashKey.{Instructions}
use contact_discovery_servic.Cds.HashTable.{Uuid}
use contact_discovery_servic.Cds.Service.{
  StopArgs, PendingRequest, ServerState, Outcome, returned, Replies, directory_of, lookup_chunks,
  bad_stop,
}

module _ {World : Type 0} where
  -- The results of a chunk and of the chunks after it, with the worlds they leave.
  abbrev joined :
      Result Status (List Uuid)
      → Result Status (List Uuid)
      → World
      → World
      → Result Status (List Uuid) × World
  joined r s w' w'' = elim r [
    | err z ↦ (err z, w')
    | ok us ↦ elim s [ err z ↦ (err z, w'') | ok more ↦ (ok (us ++ more), w'') ]
  ]

module _ {World : Type 0} (y : Replies World) where
  -- Each sender in turn got a reply, or was dropped without one.
  pub data Finished : List MsgFrom → World → World → Type 0 where
    none_left : {w : World} → Finished [] w w
    replied :
        {sender : MsgFrom} {senders : List MsgFrom} {w w' : World} (msg : Bytes)
        → Finished senders (y.server_reply msg sender w).1 w'
        → Finished (sender ∷ senders) w w'
    dropped :
        {sender : MsgFrom} {senders : List MsgFrom} {w w' : World}
        → Finished senders (y.server_noreply sender w).1 w'
        → Finished (sender ∷ senders) w w'

  abbrev pub senders_of : List PendingRequest → List MsgFrom
  senders_of [] = []
  senders_of (request ∷ requests) = request.sender ∷ senders_of requests

  -- An outcome with its world: no panic, and every sender is finished.
  abbrev Ends : List MsgFrom → World → Outcome × World → Type 0
  Ends senders w after =
      (r : Result Status (Unit {0})) × (after.0 ≡ returned r) × Finished senders w after.1

  module _ (x : Instructions World) (sgx_is_outside_enclave : ℕ → ℕ → Bool) where
    -- The world after the lookups, if there are any.
    abbrev pub looked_up : Option StopArgs → ServerState → World → World
    looked_up none state w = w
    looked_up (some args) state w =
        if bad_stop y x sgx_is_outside_enclave args state.query_phones
        then w
        else (lookup_chunks x (directory_of args) (length state.query_phones) state.query_phones
            w).1
