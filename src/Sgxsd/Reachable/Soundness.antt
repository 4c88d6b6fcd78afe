-- ===== src/Sgxsd/Reachable/Soundness.antt =====
-- Every reachable state is sound.
use contact_discovery_servic.Prelude.{
  refl, ap, Bool, Option, none, some, length-replicate, get_or-replicate, gets,
}
use contact_discovery_servic.Prelude.Monad.Preserves.{
  Preserves, Preserves-bind, Preserves-modify, Preserves-gets, Preserves-fail_if, Preserves-pure,
  preserves_rules,
}
use contact_discovery_servic.Prelude.Monad.Ends.{
  Ends-bind, Ends-fact, Ends-Preserves, Preserves-Ends,
}
use contact_discovery_servic.Sgxsd.Types.{Bytes, NegotiationRequest, NegotiationResponse}
use contact_discovery_servic.Sgxsd.Crypto.{Crypto}
use contact_discovery_servic.Sgxsd.Platform.{Platform, Server, Host}
use contact_discovery_servic.Sgxsd.State.{
  Lock, Enclave, with_lock, ServerStateDesc, zero_desc, max_servers,
}
use contact_discovery_servic.Sgxsd.Keys.{
  generate_curve25519_keypair, get_next_report, set_current_quote,
}
use contact_discovery_servic.Sgxsd.Negotiate.{negotiate_request}
use contact_discovery_servic.Sgxsd.Reply.{non_null}
use contact_discovery_servic.Sgxsd.Reachable.{
  unlocked, loaded, Step, to_node_init, to_get_next_report, to_set_current_quote,
  to_negotiate_request, to_server_start, to_server_call, to_server_stop, to_fingerprint, elsewhere,
  Reach, start, next, IsSound,
}
use contact_discovery_servic.Sgxsd.Reachable.Sections.{with_lock-Holds}
use contact_discovery_servic.Sgxsd.Reachable.Steps.{
  Keyed, read_rand-Holds, create_report-Holds, generate-Holds, add-Holds,
}
use contact_discovery_servic.Sgxsd.Reachable.Init.{node_init-Kept}
use contact_discovery_servic.Sgxsd.Reachable.Callbacks.{
  Kept, server_start-Kept, server_call-Kept, server_stop-Kept, fingerprint-Kept,
}

module _ (c : Crypto) (p : Platform) (v : Server p) where
  get_next_report-Kept :
      (target : Bytes) (pointer : Bool)
      → Preserves (Kept c p v none) (get_next_report c p v target pointer)
  unfolding get_next_report
  get_next_report-Kept target pointer = Preserves-bind _ _ (Preserves-gets _) (λ init.
      Preserves-bind _ _ (Preserves-fail_if _ _) (λ u.
        Preserves-bind _ _ (Preserves-fail_if _ _) (λ u. Preserves-Ends _ (
          Ends-bind _ _ (generate-Holds c p v unlocked none (Keyed c) refl) (λ keys.
            Ends-fact (λ pair.
              Ends-Preserves _
                (Preserves-bind _ _ (create_report-Holds c p v unlocked none (Keyed c) target _)
                  (λ report.
                    Preserves-bind _ _
                      (with_lock-Holds p v unlocked (Keyed c) none Lock.dh_keypair _ refl (
                        Preserves-modify _ (λ s h. record {
                          locks_are = h.locks_are;
                          descs_free = h.descs_free;
                          servers = h.servers;
                          facts = (h.facts.0, h.facts.1, h.facts.2, λ e. pair);
                        })))
                      (λ u. Preserves-pure _)))
                (λ s h. h)))))))

  set_current_quote-Kept : Preserves (Kept c p v none) (set_current_quote c p v)
  unfolding set_current_quote
  set_current_quote-Kept = Preserves-bind _ _ (Preserves-gets _) (λ init.
      Preserves-bind _ _ (Preserves-fail_if _ _) (λ u.
        with_lock-Holds p v unlocked (Keyed c) none Lock.dh_keypair _ refl (
          Preserves-modify _ (λ s h. record {
            locks_are = h.locks_are;
            descs_free = h.descs_free;
            servers = h.servers;
            facts = (h.facts.0, h.facts.1, h.facts.3, h.facts.3);
          }))))

  non_null-Kept : {A : Type 0} (q : Option A) → Preserves (Kept c p v none) (non_null q)
  unfolding non_null
  non_null-Kept none = search preserves_rules
  non_null-Kept (some a) = search preserves_rules

  generate-Kept : Preserves (Kept c p v none) (generate_curve25519_keypair c p v)
  unfolding generate_curve25519_keypair
  generate-Kept = search (preserves_rules, read_rand-Holds c p v unlocked none (Keyed c) refl)

  static_keys-Kept :
      Preserves (Kept c p v none) (with_lock p v Lock.dh_keypair (gets (λ s. s.dh_keypair)))
  static_keys-Kept =
      with_lock-Holds p v unlocked (Keyed c) none Lock.dh_keypair _ refl (Preserves-gets _)

  negotiate_request-Kept :
      (q : Option NegotiationRequest) (out : Option NegotiationResponse)
      → Preserves (Kept c p v none) (negotiate_request c p v q out)
  unfolding negotiate_request
  negotiate_request-Kept q out =
      search
        (
          preserves_rules,
          non_null-Kept,
          generate-Kept,
          static_keys-Kept,
          add-Holds c p v unlocked none refl,
        )
        depth 14 fits 4000

  -- A node that is loaded is sound.
  loaded-Kept : (host : Host p.World) → Kept c p v none (loaded p v host)
  loaded-Kept host = record {
    locks_are = refl;
    descs_free = λ i out.
        ap (λ (d : ServerStateDesc v.ServerState). d.lock)
          (get_or-replicate max_servers i (zero_desc {S = v.ServerState}));
    servers = length-replicate max_servers (zero_desc {S = v.ServerState});
    facts =
        (λ e. absurd (cc (e)), λ e. absurd (cc (e)), λ e. absurd (cc (e)), λ e. absurd (cc (e)));
  }

  Step-Kept : {s t : Enclave p v} → Step c p v s t → Kept c p v none s → Kept c p v none t
  Step-Kept (to_node_init args) h = (node_init-Kept c p v args).after _ h
  Step-Kept (to_get_next_report target q) h = (get_next_report-Kept target q).after _ h
  Step-Kept to_set_current_quote h = set_current_quote-Kept.after _ h
  Step-Kept (to_negotiate_request q out) h = (negotiate_request-Kept q out).after _ h
  Step-Kept (to_server_start args handle) h = (server_start-Kept c p v args handle).after _ h
  Step-Kept (to_server_call args header msg n tag handle) h =
      (server_call-Kept c p v args header msg n tag handle).after _ h
  Step-Kept (to_server_stop args handle) h = (server_stop-Kept c p v args handle).after _ h
  Step-Kept (to_fingerprint key args header msg n tag handle out size) h =
      (fingerprint-Kept c p v key args header msg n tag handle out size).after _ h
  Step-Kept (elsewhere host) h = record {
    locks_are = h.locks_are;
    descs_free = h.descs_free;
    servers = h.servers;
    facts = h.facts;
  }

  Reach-Kept : {s : Enclave p v} → Reach c p v s → Kept c p v none s
  Reach-Kept (start host) = loaded-Kept host
  Reach-Kept (next r st) = Step-Kept st (Reach-Kept r)

  -- After any calls of the entry points, one after the other, with any arguments and whatever they
  -- returned: no lock is held, of the four or of a server, and none was taken while it was held; there
  -- are as many descriptors as SGXSD_ENCLAVE_MAX_SERVERS; and if the node is initialized, the table of
  -- pending requests has the size of its order, which is at most 63, and in both key pairs the public
  -- key belongs to the private one.
  pub Reach-IsSound : {s : Enclave p v} → Reach c p v s → IsSound c p v s
  Reach-IsSound r =
      let h = Reach-Kept r in
      record {
        locks_free = h.locks_are;
        descs_free = λ i. h.descs_free i tt;
        servers = h.servers;
        sized = h.facts.0;
        small = h.facts.1;
        paired = h.facts.2;
        new_paired = h.facts.3;
      }
