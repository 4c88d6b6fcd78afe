-- ===== src/Sgxsd/Reachable/Callbacks.antt =====
-- The entry points of the servers keep what holds outside the critical sections.
use contact_discovery_servic.Prelude.{ℕ, refl, Bool-cases, inl, inr, Option, none, some}
use contact_discovery_servic.Prelude.Monad.Preserves.{Preserves, Preserves-modify, preserves_rules}
use contact_discovery_servic.Sgxsd.Types.{Bytes, MsgHeader, MsgBuf, MsgFrom}
use contact_discovery_servic.Sgxsd.Crypto.{Crypto}
use contact_discovery_servic.Sgxsd.Platform.{Platform, Server, Host}
use contact_discovery_servic.Sgxsd.State.{Enclave, EnclaveM, zero_desc}
use contact_discovery_servic.Sgxsd.Reply.{non_null}
use contact_discovery_servic.Sgxsd.Servers.{
  desc, with_desc, check_handle, check_valid, server_start_locked, server_start, message,
  decrypt_message, handle_call, create_fingerprint, terminate, deliver, server_call_locked,
  server_call, server_stop_locked, server_stop, ratelimit_fingerprint_locked, ratelimit_fingerprint,
}
use contact_discovery_servic.Sgxsd.Reachable.{unlocked}
use contact_discovery_servic.Sgxsd.Reachable.Sections.{Holds, with_desc-Holds, set_desc-Holds}
use contact_discovery_servic.Sgxsd.Reachable.Steps.{Keyed, get-Holds, remove-Holds}

module _ (c : Crypto) (p : Platform) (v : Server p) (o : Option ℕ) where
  abbrev pub Kept : Enclave p v → Type 0
  Kept = Holds unlocked o (Keyed c)

  in_host : (host : Host p.World) (s : Enclave p v) → Kept s → Kept (record s { host = host })
  in_host host s h = record {
    locks_are = h.locks_are;
    descs_free = h.descs_free;
    servers = h.servers;
    facts = h.facts;
  }

  check_handle-Kept : (handle : ℕ) → Preserves Kept (check_handle handle)
  unfolding check_handle
  check_handle-Kept handle = search preserves_rules

  check_valid-Kept : (handle : ℕ) → Preserves Kept (check_valid handle)
  unfolding check_valid
  check_valid-Kept handle = search preserves_rules

  non_null-Kept : {A : Type 0} (q : Option A) → Preserves Kept (non_null q)
  unfolding non_null
  non_null-Kept none = search preserves_rules
  non_null-Kept (some a) = search preserves_rules

  message-Kept : (msg : Option ℕ) (n : ℕ) → Preserves Kept (message c p v msg n)
  unfolding message
  message-Kept none n = search preserves_rules
  message-Kept (some a) n = search preserves_rules

  decrypt_message-Kept :
      (key : Bytes) (header : MsgHeader) (a n : ℕ)
      → Preserves Kept (decrypt_message c p v key header a n)
  unfolding decrypt_message
  decrypt_message-Kept key header a n = record { after = λ s h. in_host _ s h }

  create_fingerprint-Kept :
      (key : Option Bytes) (args : Option v.CallArgs) (msg : MsgBuf) (from : MsgFrom)
      (out : Option Bytes) (size : ℕ)
      → Preserves Kept (create_fingerprint c p v key args msg from out size)
  unfolding create_fingerprint
  create_fingerprint-Kept key args msg from out size = record { after = λ s h. in_host _ s h }

  terminate-Kept :
      (args : Option v.StopArgs) (state : Option v.ServerState)
      → Preserves Kept (terminate c p v args state)
  unfolding terminate
  terminate-Kept args state = record { after = λ s h. in_host _ s h }

-- Under the lock of a server.
module _ (c : Crypto) (p : Platform) (v : Server p) (handle : ℕ) where
  abbrev Open : Enclave p v → Type 0
  Open = Kept c p v (some handle)

  server_start_locked-Open :
      (args : Option v.InitArgs) → Preserves Open (server_start_locked c p v args handle)
  unfolding server_start_locked
  server_start_locked-Open args = record {
    after = λ s h.
        let started = set_desc-Holds p v unlocked (Keyed c) handle _ s h in
        elim (Bool-cases (desc handle s).valid) [
          | inl e ↦ rw e h
          | inr e ↦ rw e (in_host c p v (some handle) _ _ started)
        ];
  }

  handle_call-Open :
      (args : Option v.CallArgs) (msg : MsgBuf) (from : MsgFrom)
      → Preserves Open (handle_call c p v args msg from handle)
  unfolding handle_call
  handle_call-Open args msg from = record {
    after =
        λ s h. in_host c p v (some handle) _ _ (set_desc-Holds p v unlocked (Keyed c) handle _ s h);
  }

  ruleset under_lock = (
    preserves_rules, check_valid-Kept, non_null-Kept, message-Kept, decrypt_message-Kept,
    create_fingerprint-Kept, terminate-Kept, handle_call-Open,
  )

  server_call_locked-Open :
      (args : Option v.CallArgs) (header : Option MsgHeader) (msg : Option ℕ) (n tag : ℕ)
      → Preserves Open (server_call_locked c p v args header msg n tag handle)
  unfolding server_call_locked deliver
  server_call_locked-Open args header msg n tag =
      search (under_lock, remove-Holds c p v unlocked (some handle) refl) depth 12 fits 4000

  server_stop_locked-Open :
      (args : Option v.StopArgs) → Preserves Open (server_stop_locked c p v args handle)
  unfolding server_stop_locked
  server_stop_locked-Open args =
      search (under_lock, Preserves-modify, set_desc-Holds p v unlocked (Keyed c) handle zero_desc)

  fingerprint_locked-Open :
      (key : Option Bytes) (args : Option v.CallArgs) (header : Option MsgHeader) (msg : Option ℕ)
      (n tag : ℕ) (out : Option Bytes) (size : ℕ)
      → Preserves Open
          (ratelimit_fingerprint_locked c p v key args header msg n tag handle out size)
  unfolding ratelimit_fingerprint_locked
  fingerprint_locked-Open key args header msg n tag out size =
      search (under_lock, get-Holds c p v unlocked (some handle) refl) depth 12 fits 4000

module _ (c : Crypto) (p : Platform) (v : Server p) where
  under_desc :
      {A : Type 0} (handle : ℕ) (m : EnclaveM p v A)
      → Preserves (Open c p v handle) m
      → Preserves (Kept c p v none) (with_desc handle m)
  under_desc handle m h = with_desc-Holds p v unlocked (Keyed c) handle m h

  pub server_start-Kept :
      (args : Option v.InitArgs) (handle : ℕ)
      → Preserves (Kept c p v none) (server_start c p v args handle)
  unfolding server_start
  server_start-Kept args handle =
      search (preserves_rules, check_handle-Kept, under_desc, server_start_locked-Open)

  pub server_call-Kept :
      (args : Option v.CallArgs) (header : Option MsgHeader) (msg : Option ℕ) (n tag handle : ℕ)
      → Preserves (Kept c p v none) (server_call c p v args header msg n tag handle)
  unfolding server_call
  server_call-Kept args header msg n tag handle =
      search (preserves_rules, check_handle-Kept, under_desc, server_call_locked-Open)

  pub server_stop-Kept :
      (args : Option v.StopArgs) (handle : ℕ)
      → Preserves (Kept c p v none) (server_stop c p v args handle)
  unfolding server_stop
  server_stop-Kept args handle =
      search (preserves_rules, check_handle-Kept, under_desc, server_stop_locked-Open)

  pub fingerprint-Kept :
      (key : Option Bytes) (args : Option v.CallArgs) (header : Option MsgHeader) (msg : Option ℕ)
      (n tag handle : ℕ) (out : Option Bytes) (size : ℕ)
      → Preserves
          (Kept c p v none)
          (ratelimit_fingerprint c p v key args header msg n tag handle out size)
  unfolding ratelimit_fingerprint
  fingerprint-Kept key args header msg n tag handle out size =
      search (preserves_rules, check_handle-Kept, under_desc, fingerprint_locked-Open)
