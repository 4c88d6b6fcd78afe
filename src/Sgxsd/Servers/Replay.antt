-- ===== src/Sgxsd/Servers/Replay.antt =====
-- A pending request is used once: sgxsd_enclave_server_call consumes it.
use contact_discovery_servic.Prelude.{
  ℕ, ◌%◌, ◌^◌, ◌<◌, ◌≡◌, ◌≢◌, ap, ◌∙◌, true, Option, none, some, List, get_or, arith, bind-err, ok,
  err, Result, ◌>>=◌,
}
use contact_discovery_servic.Prelude.Monad.Preserves.{Preserves, bind-establishes, preserves_rules}
use contact_discovery_servic.Sgxsd.Types.{
  Bytes, Status, pending_request_not_found, PendingRequest, PendingRequestId, MsgHeader, MsgBuf,
  MsgFrom,
}
use contact_discovery_servic.Sgxsd.Crypto.{Crypto}
use contact_discovery_servic.Sgxsd.Platform.{Platform, Server}
use contact_discovery_servic.Sgxsd.State.{
  Lock, acquire, zero_desc, ServerStateDesc, max_servers, Enclave, with_lock,
}
use contact_discovery_servic.Sgxsd.Pending.{
  decrypt_id, take_entry, get_pending_request, remove_pending_request,
}
use contact_discovery_servic.Sgxsd.Pending.Table.{
  IsTable, stored, take_entry_removes, get_entry-stored, take_entry-stored, answer,
}
use contact_discovery_servic.Sgxsd.Servers.Descs.{valid-acquire_desc, valid-set_desc}
use contact_discovery_servic.Sgxsd.Servers.Guards.{
  check_valid-bind, check_handle-bind, non_null-bind, message-bind,
}
use contact_discovery_servic.Sgxsd.Servers.{
  desc, acquire_desc, with_desc, decrypt_message, handle_call, server_call_locked, server_call,
  deliver,
}

module _ (c : Crypto) (p : Platform) (v : Server p) where
  abbrev IsGone : ℕ → Enclave p v → Type 0
  IsGone id s = stored s id ≡ none

  -- A server runs, a request ID decrypts to a number, and nothing is stored under that number.
  abbrev Spent : PendingRequestId → ℕ → ℕ → Enclave p v → Type 0
  Spent pid id handle s =
      IsGone id s
      × (decrypt_id c s.pending_request_id_key pid ≡ ok id)
      × (s.node_initialized ≡ true)
      × ((desc handle s).valid ≡ true)

  module _ (pid : PendingRequestId) (id handle : ℕ) where
    decrypt_message-Spent :
        (key : Bytes) (header : MsgHeader) (address n : ℕ)
        → Preserves (Spent pid id handle) (decrypt_message c p v key header address n)
    unfolding decrypt_message stored
    decrypt_message-Spent key header address n = record { after = λ s h. h }

    handle_call-Spent :
        (args : Option v.CallArgs) (msg : MsgBuf) (from : MsgFrom)
        → Preserves (Spent pid id handle) (handle_call c p v args msg from handle)
    unfolding handle_call stored
    handle_call-Spent args msg from = record {
      after = λ s h. (h.0, h.1, h.2, valid-set_desc handle _ s (h.3) (h.3));
    }

    deliver-Spent :
        (args : Option v.CallArgs) (header : MsgHeader) (address n tag : ℕ) (r : PendingRequest)
        → Preserves (Spent pid id handle) (deliver c p v args header address n tag handle r)
    unfolding deliver
    deliver-Spent args header address n tag r =
        search (preserves_rules, decrypt_message-Spent, handle_call-Spent)

    take_entry-rest :
        (s : Enclave p v)
        → ((take_entry id s).1.pending_request_id_key ≡ s.pending_request_id_key)
          × ((take_entry id s).1.node_initialized ≡ s.node_initialized)
          × ((take_entry id s).1.server_states ≡ s.server_states)
    unfolding take_entry
    take_entry-rest s = ground arith

    -- The removal by an ID that decrypts to a number leaves nothing under that number.
    remove_spends :
        (s : Enclave p v)
        → IsTable s
        → id ≢ 0
        → decrypt_id c s.pending_request_id_key pid ≡ ok id
        → s.node_initialized ≡ true
        → (desc handle s).valid ≡ true
        → Spent pid id handle (remove_pending_request c p v pid s).1
    unfolding remove_pending_request ◌>>=◌ with_lock stored
    remove_spends s t nz e init valid =
        let locked : Enclave p v = record s { locks = acquire Lock.pending_requests s.locks } in
        let same = take_entry-rest locked in
        rw e (
          take_entry_removes locked id (record { sized = t.sized; small = t.small }) nz,
          ap (λ key. decrypt_id c key pid) (same.0) ∙ e,
          same.1 ∙ init,
          ap (λ (ds : List (ServerStateDesc v.ServerState)). (get_or ds handle zero_desc).valid)
                (same.2)
              ∙ valid,
        )

    server_call_locked-Spent :
        (args : Option v.CallArgs) (iv mac : Bytes) (address n tag : ℕ) (s : Enclave p v)
        → IsTable s
        → id ≢ 0
        → decrypt_id c s.pending_request_id_key pid ≡ ok id
        → s.node_initialized ≡ true
        → (desc handle s).valid ≡ true
        → n ≢ 0
        → let header : MsgHeader = record { iv = iv; mac = mac; pending_request_id = pid } in
          Spent pid id handle
            (server_call_locked c p v args (some header) (some address) n tag handle s).1
    unfolding server_call_locked
    server_call_locked-Spent args iv mac address n tag s t nz e init valid ne =
        let header : MsgHeader = record { iv = iv; mac = mac; pending_request_id = pid } in
        rw
          (
            check_valid-bind handle _ s valid,
            non_null-bind header _ s,
            message-bind c p v address n _ s ne,
          )
          (bind-establishes {P = Spent pid id handle} (remove_pending_request c p v pid) _ s
            (remove_spends s t nz e init valid)
            (deliver-Spent args header address (n % 2 ^ 32) tag))

    server_call-Spent :
        (args : Option v.CallArgs) (iv mac : Bytes) (address n tag : ℕ) (s : Enclave p v)
        → IsTable s
        → id ≢ 0
        → decrypt_id c s.pending_request_id_key pid ≡ ok id
        → s.node_initialized ≡ true
        → handle < max_servers
        → (desc handle s).valid ≡ true
        → n ≢ 0
        → let header : MsgHeader = record { iv = iv; mac = mac; pending_request_id = pid } in
          Spent pid id handle (server_call c p v args (some header) (some address) n tag handle s).1
    unfolding server_call with_desc stored
    server_call-Spent args iv mac address n tag s t nz e init h valid ne =
        let header : MsgHeader = record { iv = iv; mac = mac; pending_request_id = pid } in
        let after : Enclave p v =
          (server_call_locked c p v args (some header) (some address) n tag handle
            (acquire_desc handle s)).1 in
        let spent : Spent pid id handle after =
          server_call_locked-Spent args iv mac address n tag (acquire_desc handle s)
            (record { sized = t.sized; small = t.small }) nz e init
            (valid-acquire_desc handle s valid) ne in
        rw (check_handle-bind handle _ s init h)
          (spent.0, spent.1, spent.2, valid-set_desc handle _ after (spent.3) (spent.3))

  -- A request is not found, with or without removal, if nothing is stored under its number.
  get_pending_request_gone :
      (pid : PendingRequestId) (id : ℕ) (s : Enclave p v)
      → decrypt_id c s.pending_request_id_key pid ≡ ok id
      → IsGone id s
      → ((get_pending_request c p v pid s).0 ≡ err pending_request_not_found)
        × ((remove_pending_request c p v pid s).0 ≡ err pending_request_not_found)
  unfolding get_pending_request remove_pending_request ◌>>=◌ with_lock stored
  get_pending_request_gone pid id s e gone = (
    rw e (
        ap (λ (r : Result Status PendingRequest × Enclave p v). r.0) (get_entry-stored _ id)
        ∙ ap (answer id) gone),
    rw e (take_entry-stored _ id ∙ ap (answer id) gone),
  )

  server_call_locked_refuses :
      (args : Option v.CallArgs) (header : MsgHeader) (address n tag id handle : ℕ)
      (s : Enclave p v)
      → Spent header.pending_request_id id handle s
      → n ≢ 0
      → (server_call_locked c p v args (some header) (some address) n tag handle s).0
        ≡ err pending_request_not_found
  unfolding server_call_locked
  server_call_locked_refuses args header address n tag id handle s spent ne =
      let pid = header.pending_request_id in
      let s' = (remove_pending_request c p v pid s).1 in
      let missing : remove_pending_request c p v pid s ≡ (err pending_request_not_found, s') =
        ap (λ r. (r, s')) (get_pending_request_gone pid id s (spent.1) (spent.0)).1 in
      rw (
        check_valid-bind handle _ s (spent.3),
        non_null-bind header _ s,
        message-bind c p v address n _ s ne,
        bind-err (remove_pending_request c p v pid) _ s s' pending_request_not_found missing,
      )

  server_call_refuses :
      (args : Option v.CallArgs) (header : MsgHeader) (address n tag id handle : ℕ)
      (s : Enclave p v)
      → Spent header.pending_request_id id handle s
      → handle < max_servers
      → n ≢ 0
      → (server_call c p v args (some header) (some address) n tag handle s).0
        ≡ err pending_request_not_found
  unfolding server_call with_desc stored
  server_call_refuses args header address n tag id handle s spent h ne =
      rw (check_handle-bind handle _ s (spent.2) h) (
        server_call_locked_refuses args header address n tag id handle (acquire_desc handle s)
          (spent.0, spent.1, spent.2, valid-acquire_desc handle s (spent.3)) ne)

  -- For a table of the right size, an ID that decrypts to a number other than 0, an initialized
  -- node and a running server: after a call with that ID and a message that is not empty, whatever
  -- its result, nothing is stored under the number, and a second call of the server with the same ID
  -- and a message that is not empty returns SGXSD_ERROR_PENDING_REQUEST_NOT_FOUND.
  pub server_call_once :
      (pid : PendingRequestId) (id handle : ℕ) (s : Enclave p v) (args args' : Option v.CallArgs)
      (iv mac iv' mac' : Bytes) (address n tag address' n' tag' : ℕ)
      → IsTable s
      → id ≢ 0
      → decrypt_id c s.pending_request_id_key pid ≡ ok id
      → s.node_initialized ≡ true
      → handle < max_servers
      → (desc handle s).valid ≡ true
      → n ≢ 0
      → n' ≢ 0
      → let first : MsgHeader = record { iv = iv; mac = mac; pending_request_id = pid } in
        let second : MsgHeader = record { iv = iv'; mac = mac'; pending_request_id = pid } in
        let after : Enclave p v =
          (server_call c p v args (some first) (some address) n tag handle s).1 in
        (stored after id ≡ none)
        × ((server_call c p v args' (some second) (some address') n' tag' handle after).0
            ≡ err pending_request_not_found)
  server_call_once pid id handle s args args' iv mac iv' mac' address n tag address' n' tag' t nz e
        init h valid ne ne' =
      let second : MsgHeader = record { iv = iv'; mac = mac'; pending_request_id = pid } in
      let spent =
        server_call-Spent pid id handle args iv mac address n tag s t nz e init h valid ne in
      (spent.0, server_call_refuses args' second address' n' tag' id handle _ spent h ne')
