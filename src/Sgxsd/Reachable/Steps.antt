-- ===== src/Sgxsd/Reachable/Steps.antt =====
-- The functions that the entry points are made of keep what holds inside the critical sections.
use contact_discovery_servic.Prelude.{
  ℕ, ◌^◌, ◌≤◌, ◌≡◌, refl, inl, inr, Bool-cases, ◌∙◌, ◌==◌, true, false, Option, set, length,
  length-set,
}
use contact_discovery_servic.Prelude.Monad.Preserves.{Preserves, Preserves-bind, preserves_rules}
use contact_discovery_servic.Prelude.Monad.Ends.{Ends, Ends-bind, Ends-pure, Ends-Preserves}
use contact_discovery_servic.Sgxsd.Types.{Bytes, KeyPair, PendingRequest, PendingRequestId}
use contact_discovery_servic.Sgxsd.Crypto.{Crypto}
use contact_discovery_servic.Sgxsd.Platform.{Platform, Server}
use contact_discovery_servic.Sgxsd.State.{Lock, Locks, acquire, Enclave, EnclaveM, with_lock}
use contact_discovery_servic.Sgxsd.Keys.{
  mix_rand, read_rand, generate_curve25519_keypair, create_report,
}
use contact_discovery_servic.Sgxsd.Negotiate.Steps.{IsPair}
use contact_discovery_servic.Sgxsd.Node.{zero_request}
use contact_discovery_servic.Sgxsd.Pending.{
  slot, entry, insert_entry, get_entry, take_entry, add_pending_request, get_pending_request,
  remove_pending_request,
}
use contact_discovery_servic.Sgxsd.Reachable.Sections.{Facts, Holds, with_lock-Holds, rand-Holds}

-- If the node is initialized, the table has the size of its order and the keys are pairs.
abbrev pub Keyed : Crypto → Facts
Keyed c init dh new requests order =
    (init ≡ true → length requests ≡ 2 ^ order)
    × (init ≡ true → order ≤ 63)
    × (init ≡ true → IsPair c dh)
    × (init ≡ true → IsPair c new)

module _ (c : Crypto) (p : Platform) (v : Server p) (l : Locks) (o : Option ℕ) (k : Facts) where
  mix_rand-Holds : (x : Bytes) → Preserves (Holds l o k) (mix_rand c p v x)
  unfolding mix_rand
  mix_rand-Holds x = record {
    after = λ s h. record {
      locks_are = h.locks_are;
      descs_free = h.descs_free;
      servers = h.servers;
      facts = h.facts;
    };
  }

  pub create_report-Holds :
      (target report_data : Bytes)
      → Preserves (Holds l o k) (create_report c p v target report_data)
  unfolding create_report
  create_report-Holds target report_data = record {
    after = λ s h. record {
      locks_are = h.locks_are;
      descs_free = h.descs_free;
      servers = h.servers;
      facts = h.facts;
    };
  }

module _ (c : Crypto) (p : Platform) (v : Server p) (l : Locks) (o : Option ℕ) (k : Facts)
    (free : l.read_rand_lock ≡ false) where
  pub read_rand-Holds : Preserves (Holds l o k) (read_rand c p v)
  unfolding read_rand
  read_rand-Holds = Preserves-bind _ _ (rand-Holds p v l o k _) (λ x.
      with_lock-Holds p v l k o Lock.read_rand _ free
        (mix_rand-Holds c p v (acquire Lock.read_rand l) o k x))

  pub generate-Holds :
      Ends
        (Holds l o k)
        (generate_curve25519_keypair c p v)
        (λ (keys : KeyPair) s. Holds l o k s × IsPair c keys)
        (Holds l o k)
  unfolding generate_curve25519_keypair
  generate-Holds =
      Ends-bind _ _ (Ends-Preserves _ read_rand-Holds (λ s h. h))
        (λ x. Ends-pure _ (λ s h. (h, refl)))

-- The table of pending requests.
module _ (c : Crypto) (p : Platform) (v : Server p) (l : Locks) (o : Option ℕ) where
  abbrev Kept : Enclave p v → Type 0
  Kept = Holds l o (Keyed c)

  insert_entry-Holds : (r : PendingRequest) → Preserves Kept (insert_entry r)
  unfolding insert_entry
  insert_entry-Holds r = record {
    after = λ s h. record {
      locks_are = h.locks_are;
      descs_free = h.descs_free;
      servers = h.servers;
      facts = (
        λ init. length-set s.pending_requests _ _ ∙ h.facts.0 init,
        h.facts.1,
        h.facts.2,
        h.facts.3,
      );
    };
  }

  get_entry-Holds : (id : ℕ) → Preserves Kept (get_entry id)
  unfolding get_entry
  get_entry-Holds id = record {
    after =
        λ s h. elim (Bool-cases ((entry s id).id_val == id)) [ inl e ↦ rw e h | inr e ↦ rw e h ];
  }

  take_entry-Holds : (id : ℕ) → Preserves Kept (take_entry id)
  unfolding take_entry
  take_entry-Holds id = record {
    after = λ s h.
        let taken : Kept
            (record s { pending_requests = set s.pending_requests (slot s id) zero_request }) =
          record {
            locks_are = h.locks_are;
            descs_free = h.descs_free;
            servers = h.servers;
            facts = (
              λ init. length-set s.pending_requests _ _ ∙ h.facts.0 init,
              h.facts.1,
              h.facts.2,
              h.facts.3,
            );
          } in
        elim (Bool-cases ((entry s id).id_val == id)) [ inl e ↦ rw e taken | inr e ↦ rw e h ];
  }

module _ (c : Crypto) (p : Platform) (v : Server p) (l : Locks) (o : Option ℕ)
    (free : l.pending_requests_lock ≡ false) where
  locked-Holds :
      {A : Type 0} (m : EnclaveM p v A)
      → Preserves (Holds (acquire Lock.pending_requests l) o (Keyed c)) m
      → Preserves (Holds l o (Keyed c)) (with_lock p v Lock.pending_requests m)
  locked-Holds m h = with_lock-Holds p v l (Keyed c) o Lock.pending_requests m free h

  pub add-Holds :
      (out : PendingRequestId) (r : PendingRequest)
      → Preserves (Holds l o (Keyed c)) (add_pending_request c p v out r)
  unfolding add_pending_request
  add-Holds out r =
      search (
        preserves_rules,
        locked-Holds,
        rand-Holds p v l o (Keyed c),
        insert_entry-Holds c p v _ o r,
      )

  pub get-Holds :
      (id : PendingRequestId) → Preserves (Holds l o (Keyed c)) (get_pending_request c p v id)
  unfolding get_pending_request
  get-Holds id = search (preserves_rules, locked-Holds, get_entry-Holds c p v _ o)

  pub remove-Holds :
      (id : PendingRequestId) → Preserves (Holds l o (Keyed c)) (remove_pending_request c p v id)
  unfolding remove_pending_request
  remove-Holds id = search (preserves_rules, locked-Holds, take_entry-Holds c p v _ o)
