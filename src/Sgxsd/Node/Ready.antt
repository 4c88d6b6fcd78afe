-- ===== src/Sgxsd/Node/Ready.antt =====
-- What sgxsd_enclave_node_init leaves behind.
use contact_discovery_servic.Prelude.{
  ℕ, ◌^◌, ◌≤◌, ◌≡◌, ◌≢◌, refl, ap, sym, not, ltb, true, false, ==_of_ne, Option, none, some, arith,
  replicate, length-replicate, get_or-replicate, Result, ok, err, modify, ◌>>=◌,
}
use contact_discovery_servic.Prelude.Monad.Triple.{
  OnOk, NoError, Triple, Triple-bind, Triple-modify, Triple-gets, Triple-pure, Triple-passes,
  Triple-fact,
}
use contact_discovery_servic.Sgxsd.Types.{
  Bytes, Status, success, invalid_state, NodeInitArgs, key_size, hash_size, curve25519_key_size,
}
use contact_discovery_servic.Sgxsd.Crypto.{Crypto}
use contact_discovery_servic.Sgxsd.Platform.{Platform, Server}
use contact_discovery_servic.Sgxsd.State.{Enclave, Lock, acquire, release, with_lock, rand}
use contact_discovery_servic.Sgxsd.Keys.{mix_rand, read_rand, generate_curve25519_keypair}
use contact_discovery_servic.Sgxsd.Pending.Table.{IsTable, stored}
use contact_discovery_servic.Sgxsd.Node.{
  uintptr_max, max_table_order, zero_request, pending_request_size, order_of, allocate_table,
  init_keys, node_init_locked, node_init,
}

module _ (c : Crypto) (p : Platform) (v : Server p) where
  -- A table of the right size in which nothing is stored but under ID 0, where a request with a key of
  -- zeros is found, since 0 is also the ID of an empty entry.
  abbrev pub IsEmptyTable : Enclave p v → Type 0
  IsEmptyTable s =
      IsTable s
      × ((id : ℕ) → id ≢ 0 → stored s id ≡ none)
      × (stored s 0 ≡ some (replicate hash_size 0))

  abbrev pub IsReady : Unit {0} → Enclave p v → Type 0
  IsReady u s = IsEmptyTable s × (s.node_initialized ≡ true)

  abbrev Always : Enclave p v → Type 0
  Always s = Unit {0}

  allocated :
      (order : ℕ)
      → order ≤ 63
      → ((w : p.World) → (p.calloc (2 ^ order) pending_request_size w).0 ≡ true)
      → Triple NoError Always (allocate_table c p v order) (λ u. IsEmptyTable)
  unfolding allocate_table stored
  allocated order small calloc = record {
    success = λ s h. rw (calloc s.host.world) (
      record { sized = length-replicate (2 ^ order) zero_request; small = small },
      λ id nz. rw (get_or-replicate (2 ^ order) _ zero_request, ==_of_ne 0 id (λ e. nz (sym e))),
      rw (get_or-replicate (2 ^ order) _ zero_request) refl,
    );
  }

  given_order :
      (a : NodeInitArgs)
      → a.pending_requests_table_order ≤ 63
      → Triple NoError Always
          (order_of c p v (some a))
          (λ order s. Unit {0} × (order ≡ a.pending_requests_table_order))
  unfolding order_of
  given_order a small =
      let low : ltb max_table_order a.pending_requests_table_order ≡ false = ground arith in
      Triple-bind {R = λ u. Always} _ _ (Triple-passes _ _ (λ s h. (low, tt)))
        (λ u. Triple-pure _ (λ s h. (tt, refl)))

  module _ (works : (n : ℕ) (w : p.World) → (p.sgx_read_rand n w).0 ≡ success) where
    random : (n : ℕ) → Triple NoError Always (rand p v n) (λ x. Always)
    unfolding rand
    random n = record { success = λ s h. rw (works n s.host.world) tt }

    mixed :
        (k : Lock) (x : Bytes)
        → Triple NoError Always (with_lock p v k (mix_rand c p v x)) (λ y. Always)
    unfolding with_lock mix_rand
    mixed k x = record { success = λ s h. tt }

    generated : Triple NoError Always (generate_curve25519_keypair c p v) (λ k. Always)
    unfolding generate_curve25519_keypair read_rand
    generated =
        Triple-bind {R = λ x. Always} _ _
          (Triple-bind {R = λ x. Always} _ _ (random curve25519_key_size)
            (λ x. mixed Lock.read_rand x))
          (λ x. Triple-pure _ (λ s h. tt))

    written :
        (f : Enclave p v → Enclave p v)
        → Triple NoError Always (modify {E = Status} f) (λ u. Always)
    written f = Triple-modify f (λ s h. tt)

    keys_initialized : Triple NoError Always (init_keys c p v) (λ u. Always)
    unfolding init_keys
    keys_initialized = Triple-bind {R = λ k. Always} _ _ generated (λ k.
        Triple-bind {R = λ u. Always} _ _ (written _) (λ u.
          Triple-bind {R = λ k. Always} _ _ generated (λ k.
            Triple-bind {R = λ u. Always} _ _ (written _)
              (λ u. Triple-bind {R = λ k. Always} _ _ (random key_size) (λ k. written _)))))

    initialized :
        (a : NodeInitArgs)
        → a.pending_requests_table_order ≤ 63
        → p.sgx_is_outside_enclave 0 0 ≡ true
        → p.sgx_is_outside_enclave uintptr_max 0 ≡ true
        → ((w : p.World)
            → (p.calloc (2 ^ a.pending_requests_table_order) pending_request_size w).0 ≡ true)
        → Triple NoError (λ s. s.node_initialized ≡ false) (node_init_locked c p v (some a)) IsReady
    unfolding node_init_locked stored
    initialized a small low high calloc =
        Triple-bind {R = λ b s. b ≡ false} _ _ (Triple-gets _ (λ s h. h)) (λ b.
          Triple-bind {R = λ u. Always} _ _ (Triple-passes _ _ (λ s h. (h, tt))) (λ u.
            Triple-bind {R = λ u. Always} _ _ (Triple-passes _ _ (λ s h. (ap not low, tt))) (λ u.
              Triple-bind {R = λ u. Always} _ _ (Triple-passes _ _ (λ s h. (ap not high, tt))) (λ u.
                Triple-bind _ _ (given_order a small) (λ order. Triple-fact (λ same.
                  Triple-bind {R = λ u. Always} _ _ keys_initialized (λ u.
                    Triple-bind {R = λ u. IsEmptyTable} _ _
                      (rw same (allocated a.pending_requests_table_order small calloc))
                      (λ u. Triple-modify _ (λ s h.
                        ((record { sized = h.0.sized; small = h.0.small }, h.1, h.2), refl))))))))))

    IsReady-release :
        (k : Lock) (r : Result Status (Unit {0}) × Enclave p v)
        → OnOk NoError IsReady r
        → (r.0 ≡ ok tt) × IsReady tt (record (r.1) { locks = release k r.1.locks })
    unfolding stored
    IsReady-release k (ok a, s) h =
        (refl, ((record { sized = h.0.0.sized; small = h.0.0.small }, h.0.1, h.0.2), h.1))
    IsReady-release k (err e, s) h = absurd h

    node_init_refuses :
        (args : Option NodeInitArgs) (s : Enclave p v)
        → s.node_initialized ≡ true
        → (node_init c p v args s).0 ≡ err invalid_state
    unfolding node_init node_init_locked with_lock ◌>>=◌
    node_init_refuses args s h = rw h

    -- For a node that is not initialized, a table order of at most 63, a working sgx_read_rand, a
    -- calloc that finds room for the table, and a sgx_is_outside_enclave that holds of the two empty
    -- ranges at the ends of memory: sgxsd_enclave_node_init succeeds and leaves the node initialized,
    -- with a table of pending requests of the right size in which no ID but 0 is found, and ID 0 with a
    -- key of zeros; and from then on the function returns SGX_ERROR_INVALID_STATE.
    pub node_init-IsReady :
        (a : NodeInitArgs) (s : Enclave p v)
        → a.pending_requests_table_order ≤ 63
        → p.sgx_is_outside_enclave 0 0 ≡ true
        → p.sgx_is_outside_enclave uintptr_max 0 ≡ true
        → ((w : p.World)
            → (p.calloc (2 ^ a.pending_requests_table_order) pending_request_size w).0 ≡ true)
        → s.node_initialized ≡ false
        → let (r, s') = node_init c p v (some a) s in
          (r ≡ ok tt)
          × IsReady tt s'
          × ((again : Option NodeInitArgs) → (node_init c p v again s').0 ≡ err invalid_state)
    unfolding node_init with_lock
    node_init-IsReady a s small low high calloc fresh =
        let locked : Enclave p v = record s { locks = acquire Lock.node_init s.locks } in
        let ready =
          IsReady-release Lock.node_init (node_init_locked c p v (some a) locked)
            ((initialized a small low high calloc).success locked fresh) in
        (
          ready.0,
          ready.1,
          λ again. node_init_refuses again (node_init c p v (some a) s).1 (ready.1.1),
        )
