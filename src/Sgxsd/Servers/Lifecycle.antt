-- ===== src/Sgxsd/Servers/Lifecycle.antt =====
-- What sgxsd_enclave_server_stop leaves of a server, and of the others.
use contact_discovery_servic.Prelude.{
  ℕ, ◌<◌, ◌≡◌, ◌≢◌, ap, ◌∙◌, true, false, Option, List, arith, length, length-set, set, set-set,
  get_or, get_or-set_self, get_or-set_ne, err, ◌>>=◌,
}
use contact_discovery_servic.Sgxsd.Types.{MsgHeader, invalid_state}
use contact_discovery_servic.Sgxsd.Crypto.{Crypto}
use contact_discovery_servic.Sgxsd.Platform.{Platform, Server}
use contact_discovery_servic.Sgxsd.State.{Enclave, ServerStateDesc, zero_desc, max_servers}
use contact_discovery_servic.Sgxsd.Servers.Descs.{desc_in_range, valid-acquire_desc}
use contact_discovery_servic.Sgxsd.Servers.Guards.{check_valid-bind, check_handle-bind}
use contact_discovery_servic.Sgxsd.Servers.{
  desc, acquire_desc, with_desc, check_valid, terminate, server_stop_locked, server_stop,
  server_call_locked, server_call,
}

-- The writes of a stop: the lock, the zeros, the lock.
stopped_descs :
    {S : Type 0} (ds : List (ServerStateDesc S)) (i : ℕ) (d : ServerStateDesc S)
    → i < length ds
    → let zeroed = set (set ds i d) i zero_desc in
      set zeroed i (record (get_or zeroed i zero_desc) { lock = false }) ≡ set ds i zero_desc
stopped_descs ds i d h = rw (
  set-set ds i d zero_desc,
  get_or-set_self ds i zero_desc zero_desc h,
  set-set ds i zero_desc zero_desc,
)

module _ (c : Crypto) (p : Platform) (v : Server p) where
  stopped :
      (args : Option v.StopArgs) (handle : ℕ) (s : Enclave p v)
      → s.node_initialized ≡ true
      → handle < max_servers
      → (desc handle s).valid ≡ true
      → let after = (server_stop c p v args handle s).1 in
        (after.server_states ≡ set s.server_states handle zero_desc)
        × (after.node_initialized ≡ true)
  unfolding server_stop with_desc server_stop_locked terminate ◌>>=◌
  stopped args handle s init h valid =
      rw
        (
          check_handle-bind handle _ s init h,
          check_valid-bind handle _ (acquire_desc handle s) (valid-acquire_desc handle s valid),
        )
        (stopped_descs s.server_states handle _ (desc_in_range handle s valid), init)

  -- A call of a server that does not run is refused.
  invalid-acquire_desc :
      (handle : ℕ) (s : Enclave p v)
      → handle < length s.server_states
      → (desc handle s).valid ≡ false
      → (desc handle (acquire_desc handle s)).valid ≡ false
  invalid-acquire_desc handle s h invalid =
      ap (λ (d : ServerStateDesc v.ServerState). d.valid)
        (get_or-set_self s.server_states handle (record (desc handle s) { lock = true }) zero_desc
          h)
      ∙ invalid

  server_call_refuses :
      (args : Option v.CallArgs) (header : Option MsgHeader) (msg_data : Option ℕ)
      (n tag handle : ℕ) (s : Enclave p v)
      → s.node_initialized ≡ true
      → handle < max_servers
      → handle < length s.server_states
      → (desc handle s).valid ≡ false
      → (server_call c p v args header msg_data n tag handle s).0 ≡ err invalid_state
  unfolding server_call with_desc server_call_locked check_valid ◌>>=◌
  server_call_refuses args header msg_data n tag handle s init h in_range invalid =
      rw (check_handle-bind handle _ s init h, invalid-acquire_desc handle s in_range invalid)

  -- For an initialized node and a running server: after sgxsd_enclave_server_stop, whatever the
  -- callback returns, the server's descriptor is zeros, every other descriptor is as it was, and a
  -- call of the server returns SGX_ERROR_INVALID_STATE.
  pub server_stop_closes :
      (args : Option v.StopArgs) (handle : ℕ) (s : Enclave p v)
      → s.node_initialized ≡ true
      → handle < max_servers
      → (desc handle s).valid ≡ true
      → let after = (server_stop c p v args handle s).1 in
        (desc handle after ≡ zero_desc)
        × ((other : ℕ) → handle ≢ other → desc other after ≡ desc other s)
        × ((call : Option v.CallArgs) (header : Option MsgHeader) (msg_data : Option ℕ) (n tag : ℕ)
            → (server_call c p v call header msg_data n tag handle after).0 ≡ err invalid_state)
  server_stop_closes args handle s init h valid =
      let in_range = desc_in_range handle s valid in
      let after : Enclave p v = (server_stop c p v args handle s).1 in
      let (descs, still) = stopped args handle s init h valid in
      let at : (i : ℕ) → desc i after ≡ get_or (set s.server_states handle zero_desc) i zero_desc =
        λ i. ap (λ (ds : List (ServerStateDesc v.ServerState)). get_or ds i zero_desc) descs in
      let closed : desc handle after ≡ zero_desc =
        at handle ∙ get_or-set_self s.server_states handle zero_desc zero_desc in_range in
      let sized : length after.server_states ≡ length s.server_states =
        ap length descs ∙ length-set s.server_states handle zero_desc in
      (
        closed,
        λ other ne. at other ∙ get_or-set_ne s.server_states handle other zero_desc zero_desc ne,
        λ call header msg_data n tag.
            server_call_refuses call header msg_data n tag handle after still h
              (omega (arith, sized, in_range))
              (ap (λ (d : ServerStateDesc v.ServerState). d.valid) closed),
      )
