-- ===== src/Sgxsd/Reachable/Init.antt =====
-- sgxsd_enclave_node_init keeps what holds outside the critical sections, on every path.
use contact_discovery_servic.Prelude.{
  ℕ, ◌^◌, ◌≤◌, ◌≡◌, ◌≢◌, refl, ◌∙◌, true, false, Bool, Option, none, some, List, length, arith,
  length-replicate, replicate, fail_if, Bool-cases, inl, inr,
}
use contact_discovery_servic.Prelude.Monad.Preserves.{Preserves}
use contact_discovery_servic.Prelude.Monad.Ends.{
  Ends, Ends-bind, Ends-pure, Ends-fact, Ends-gets, Ends-modify, Ends-fail_if, Ends-fails,
  Ends-fail, Ends-Preserves, Preserves-Ends,
}
use contact_discovery_servic.Sgxsd.Types.{Status, KeyPair, NodeInitArgs, PendingRequest, key_size}
use contact_discovery_servic.Sgxsd.Crypto.{Crypto}
use contact_discovery_servic.Sgxsd.Platform.{Platform, Server}
use contact_discovery_servic.Sgxsd.State.{Lock, Locks, acquire, Enclave}
use contact_discovery_servic.Sgxsd.Node.{
  order_of, allocate_table, init_keys, node_init_locked, node_init, pending_request_size,
  zero_request,
}
use contact_discovery_servic.Sgxsd.Negotiate.Steps.{IsPair}
use contact_discovery_servic.Sgxsd.Reachable.{unlocked}
use contact_discovery_servic.Sgxsd.Reachable.Sections.{Facts, Holds, with_lock-Holds, rand-Holds}
use contact_discovery_servic.Sgxsd.Reachable.Steps.{Keyed, generate-Holds}
use contact_discovery_servic.Sgxsd.Reachable.Callbacks.{Kept}

-- What node_init has established before it says that the node is initialized.
abbrev Cold : Facts
Cold init dh new requests order = init ≡ false

abbrev OnePair : Crypto → Facts
OnePair c init dh new requests order = (init ≡ false) × IsPair c dh

abbrev TwoPairs : Crypto → Facts
TwoPairs c init dh new requests order = (init ≡ false) × IsPair c dh × IsPair c new

abbrev Ready : Crypto → ℕ → Facts
Ready c n init dh new requests order =
    (init ≡ false) × IsPair c dh × IsPair c new × (length requests ≡ 2 ^ order) × (order ≡ n)

abbrev in_init : Locks
in_init = acquire Lock.node_init unlocked

module _ (c : Crypto) (p : Platform) (v : Server p) where
  abbrev During : Facts → Enclave p v → Type 0
  During k = Holds in_init none k

  weaker :
      (k k' : Facts) (s : Enclave p v)
      → ((init : Bool) (dh new : KeyPair) (requests : List PendingRequest) (order : ℕ)
          → k init dh new requests order
          → k' init dh new requests order)
      → During k s
      → During k' s
  weaker k k' s hk h = record {
    locks_are = h.locks_are;
    descs_free = h.descs_free;
    servers = h.servers;
    facts = hk _ _ _ _ _ h.facts;
  }

  -- A node that is not initialized promises nothing.
  cold :
      (k : Facts) (s : Enclave p v)
      → ((init : Bool) (dh new : KeyPair) (requests : List PendingRequest) (order : ℕ)
          → k init dh new requests order
          → init ≡ false)
      → During k s
      → During (Keyed c) s
  cold k s hk h =
      weaker k (Keyed c) s
        (λ init dh new requests order facts.
          let f = hk init dh new requests order facts in
          (
            λ e. absurd (cc (e, f)),
            λ e. absurd (cc (e, f)),
            λ e. absurd (cc (e, f)),
            λ e. absurd (cc (e, f)),
          ))
        h

  order_of-Ends :
      (args : Option NodeInitArgs)
      → Ends
          (During Cold)
          (order_of c p v args)
          (λ order s. During Cold s × (order ≤ 63))
          (During (Keyed c))
  unfolding order_of
  order_of-Ends none = Ends-fail _ (λ s h. cold Cold s (λ init dh new requests order f. f) h)
  order_of-Ends (some a) =
      Ends-bind {Q = λ u s. During Cold s × (a.pending_requests_table_order ≤ 63)} _ _
        (Ends-fail_if _ _ (λ s h e. cold Cold s (λ init dh new requests order f. f) h)
          (λ s h e. (h, ground arith)))
        (λ u. Ends-pure _ (λ s h. h))

  init_keys-Ends :
      Ends (During Cold) (init_keys c p v) (λ u. During (TwoPairs c)) (During (Keyed c))
  unfolding init_keys
  init_keys-Ends =
      Ends-bind _ _
        (Ends-fails _ (generate-Holds c p v in_init none Cold refl)
          (λ s h. cold Cold s (λ init dh new requests order f. f) h))
        (λ dh. Ends-fact (λ pair.
          Ends-bind {Q = λ u. During (OnePair c)} _ _
            (Ends-modify _ (λ s h. record {
              locks_are = h.locks_are;
              descs_free = h.descs_free;
              servers = h.servers;
              facts = (h.facts, pair);
            }))
            (λ u.
              Ends-bind _ _
                (Ends-fails _ (generate-Holds c p v in_init none (OnePair c) refl)
                  (λ s h. cold (OnePair c) s (λ init dh new requests order f. f.0) h))
                (λ new. Ends-fact (λ new_pair.
                  Ends-bind {Q = λ u. During (TwoPairs c)} _ _
                    (Ends-modify _ (λ s h. record {
                      locks_are = h.locks_are;
                      descs_free = h.descs_free;
                      servers = h.servers;
                      facts = (h.facts.0, h.facts.1, new_pair);
                    }))
                    (λ u.
                      Ends-bind _ _
                        (Ends-Preserves _ (rand-Holds p v in_init none (TwoPairs c) key_size)
                          (λ s h. cold (TwoPairs c) s (λ init dh new requests order f. f.0) h))
                        (λ key. Ends-modify _ (λ s h. record {
                          locks_are = h.locks_are;
                          descs_free = h.descs_free;
                          servers = h.servers;
                          facts = h.facts;
                        }))))))))

  allocate_table-Ends :
      (n : ℕ)
      → Ends
          (During (TwoPairs c))
          (allocate_table c p v n)
          (λ u. During (Ready c n))
          (During (Keyed c))
  unfolding allocate_table
  allocate_table-Ends n = record {
    from = λ s h.
        let vain : s.node_initialized ≢ true = λ e. absurd (cc (e, h.facts.0)) in
        let made : During (Ready c n) (record s {
          pending_requests = replicate (2 ^ n) zero_request;
          pending_requests_table_order = n;
        }) =
          record {
            locks_are = h.locks_are;
            descs_free = h.descs_free;
            servers = h.servers;
            facts = (h.facts.0, h.facts.1, h.facts.2, length-replicate (2 ^ n) zero_request, refl);
          } in
        elim (Bool-cases (p.calloc (2 ^ n) pending_request_size s.host.world).0) [
          | inl e ↦ rw e (record {
            locks_are = made.locks_are;
            descs_free = made.descs_free;
            servers = made.servers;
            facts = made.facts;
          })
          | inr e ↦ rw e (record {
            locks_are = h.locks_are;
            descs_free = h.descs_free;
            servers = h.servers;
            facts = (
              λ e. absurd (vain e),
              λ e. absurd (vain e),
              λ e. absurd (vain e),
              λ e. absurd (vain e),
            );
          })
        ];
  }

  node_init_locked-Ends :
      (args : Option NodeInitArgs)
      → Ends
          (During (Keyed c))
          (node_init_locked c p v args)
          (λ u. During (Keyed c))
          (During (Keyed c))
  unfolding node_init_locked
  node_init_locked-Ends args =
      let checked : (b : Bool) (e : Status)
          → Ends (During Cold) (fail_if b e) (λ u. During Cold) (During (Keyed c)) =
        λ b e.
          Ends-fail_if _ _ (λ s h eq. cold Cold s (λ init dh new requests order f. f) h)
            (λ s h eq. h) in
      Ends-bind {Q = λ b s. During (Keyed c) s × (s.node_initialized ≡ b)} _ _
        (Ends-gets _ (λ s h. (h, refl)))
        (λ b.
          Ends-bind {Q = λ u. During Cold} _ _
            (Ends-fail_if _ _ (λ s h e. h.0)
              (λ s h e. record {
                locks_are = h.0.locks_are;
                descs_free = h.0.descs_free;
                servers = h.0.servers;
                facts = h.1 ∙ e;
              }))
            (λ u. Ends-bind _ _ (checked _ _) (λ u. Ends-bind _ _ (checked _ _) (λ u.
              Ends-bind _ _ (order_of-Ends args) (λ order. Ends-fact (λ small.
                Ends-bind _ _ init_keys-Ends (λ u. Ends-bind _ _ (allocate_table-Ends order) (λ u.
                  Ends-modify _ (λ s h. record {
                    locks_are = h.locks_are;
                    descs_free = h.descs_free;
                    servers = h.servers;
                    facts = (
                      λ e. h.facts.3,
                      λ e. omega (arith, h.facts.4, small),
                      λ e. h.facts.1,
                      λ e. h.facts.2,
                    );
                  })))))))))

  pub node_init-Kept :
      (args : Option NodeInitArgs) → Preserves (Kept c p v none) (node_init c p v args)
  unfolding node_init
  node_init-Kept args =
      with_lock-Holds p v unlocked (Keyed c) none Lock.node_init _ refl
        (Preserves-Ends _ (node_init_locked-Ends args))
