-- ===== src/Sgxsd/Reachable/Sections.antt =====
-- What holds inside the critical sections, and that they give the locks back.
use contact_discovery_servic.Prelude.{
  ℕ, zero, suc, ◌≡◌, ◌≢◌, refl, ap, ◌∙◌, false, Bool, ◌||◌, Option, none, some, List, [], ◌∷◌, set,
  get_or, length, length-set, arith,
}
use native.Mathlib.Decide.{ℕ_discrete}
use contact_discovery_servic.Prelude.Monad.Preserves.{Preserves}
use contact_discovery_servic.Sgxsd.Types.{KeyPair, PendingRequest}
use contact_discovery_servic.Sgxsd.Platform.{Platform, Server}
use contact_discovery_servic.Sgxsd.State.{
  Lock, Locks, held, acquire, release, ServerStateDesc, zero_desc, State, Enclave, EnclaveM,
  max_servers, with_lock, rand,
}
use contact_discovery_servic.Sgxsd.Servers.{desc, set_desc, acquire_desc, release_desc, with_desc}
use contact_discovery_servic.Sgxsd.Servers.Descs.{desc-set_desc_ne}

-- A predicate on the variables that node_init initializes: whether it has, the two key pairs, the
-- table and its order.
abbrev pub Facts : Type 1
Facts = Bool → KeyPair → KeyPair → List PendingRequest → ℕ → Type 0

-- The descriptors but that of a server under its lock.
abbrev pub Outside : Option ℕ → ℕ → Type 0
Outside none i = Unit {0}
Outside (some handle) i = handle ≢ i

-- The locks are these, and no descriptor but one is locked.
pub record Holds {W S : Type 0} (l : Locks) (o : Option ℕ) (k : Facts) (s : State W S)
    : Type 0 where
  pub locks_are : s.locks ≡ l
  pub descs_free : (i : ℕ) → Outside o i → (desc i s).lock ≡ false
  pub servers : length s.server_states ≡ max_servers
  pub facts :
      k s.node_initialized s.dh_keypair s.new_dh_keypair s.pending_requests
        s.pending_requests_table_order

release-acquire : (k : Lock) (l : Locks) → held k l ≡ false → release k (acquire k l) ≡ l
release-acquire Lock.node_init l h = ground arith
release-acquire Lock.read_rand l h = ground arith
release-acquire Lock.dh_keypair l h = ground arith
release-acquire Lock.pending_requests l h = ground arith

still : (l : Locks) (b : Bool) → b ≡ false → record l { stuck = l.stuck || b } ≡ l
still l b h = ground arith

-- A lock that is cleared is clear, and none is where there is no descriptor.
cleared :
    {S : Type 0} (ds : List (ServerStateDesc S)) (i : ℕ) (d : ServerStateDesc S)
    → d.lock ≡ false
    → (get_or (set ds i d) i zero_desc).lock ≡ false
cleared [] i d h = refl
cleared (x ∷ ds) zero d h = h
cleared (x ∷ ds) (suc i) d h = cleared ds i d h

module _ (p : Platform) (v : Server p) (l : Locks) (k : Facts) where
  pub with_lock-Holds :
      {A : Type 0} (o : Option ℕ) (x : Lock) (m : EnclaveM p v A)
      → held x l ≡ false
      → Preserves (Holds (acquire x l) o k) m
      → Preserves (Holds l o k) (with_lock p v x m)
  unfolding with_lock
  with_lock-Holds o x m h hm = record {
    after = λ s hs.
        let inside =
          hm.after (record s { locks = acquire x s.locks })
            (record {
              locks_are = ap (acquire x) hs.locks_are;
              descs_free = hs.descs_free;
              servers = hs.servers;
              facts = hs.facts;
            }) in
        record {
          locks_are = ap (release x) inside.locks_are ∙ release-acquire x l h;
          descs_free = inside.descs_free;
          servers = inside.servers;
          facts = inside.facts;
        };
  }

  acquired :
      (handle : ℕ) (s : Enclave p v)
      → Holds l none k s
      → Holds l (some handle) k (acquire_desc handle s)
  acquired handle s h = record {
    locks_are = still s.locks _ (h.descs_free handle tt) ∙ h.locks_are;
    descs_free = λ i out.
        ap (λ (d : ServerStateDesc v.ServerState). d.lock) (desc-set_desc_ne handle i _ s out)
        ∙ h.descs_free i tt;
    servers = length-set s.server_states handle _ ∙ h.servers;
    facts = h.facts;
  }

  released :
      (handle : ℕ) (s : Enclave p v)
      → Holds l (some handle) k s
      → Holds l none k (release_desc handle s)
  released handle s h = record {
    locks_are = h.locks_are;
    descs_free = λ i out. elim (ℕ_discrete handle i) [
      | yes e ↦ rw (← e) (cleared s.server_states handle _ refl)
      | no ne ↦
          ap (λ (d : ServerStateDesc v.ServerState). d.lock) (desc-set_desc_ne handle i _ s ne)
          ∙ h.descs_free i ne
    ];
    servers = length-set s.server_states handle _ ∙ h.servers;
    facts = h.facts;
  }

  pub with_desc-Holds :
      {A : Type 0} (handle : ℕ) (m : EnclaveM p v A)
      → Preserves (Holds l (some handle) k) m
      → Preserves (Holds l none k) (with_desc handle m)
  unfolding with_desc
  with_desc-Holds handle m hm = record {
    after = λ s h. released handle _ (hm.after (acquire_desc handle s) (acquired handle s h));
  }

  -- A write to the descriptor that is open.
  pub set_desc-Holds :
      (handle : ℕ) (d : ServerStateDesc v.ServerState) (s : Enclave p v)
      → Holds l (some handle) k s
      → Holds l (some handle) k (set_desc handle d s)
  set_desc-Holds handle d s h = record {
    locks_are = h.locks_are;
    descs_free = λ i out.
        ap (λ (d : ServerStateDesc v.ServerState). d.lock) (desc-set_desc_ne handle i d s out)
        ∙ h.descs_free i out;
    servers = length-set s.server_states handle d ∙ h.servers;
    facts = h.facts;
  }

-- The actions that touch no lock.
module _ (p : Platform) (v : Server p) (l : Locks) (o : Option ℕ) (k : Facts) where
  pub rand-Holds : (n : ℕ) → Preserves (Holds l o k) (rand p v n)
  unfolding rand
  rand-Holds n = record {
    after = λ s h. record {
      locks_are = h.locks_are;
      descs_free = h.descs_free;
      servers = h.servers;
      facts = h.facts;
    };
  }
