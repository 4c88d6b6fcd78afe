-- ===== src/Cds/Service/Session.antt =====
-- A server from its start to its stop.
use contact_discovery_servic.Prelude.{
  ℕ, ◌≡◌, inl, inr, sym, ap, ◌∙◌, Bool, false, Option, none, some, List, [], ◌∷◌, ◌++◌,
  append_assoc, append-nil, Result, ok, err, err-ne-ok, ok-injective,
}
use mathlib.Core.Path.{subst}
use contact_discovery_servic.Sgxsd.Types.{Bytes, Status, MsgFrom}
use contact_discovery_servic.Sgxsd.Crypto.{Crypto, Laws}
use contact_discovery_servic.Cds.HashKey.{Instructions}
use contact_discovery_servic.Cds.HashTable.Answers.{directory_lookup}
use contact_discovery_servic.Cds.Request.{CallArgs}
use contact_discovery_servic.Cds.Service.{
  StartArgs, StopArgs, ServerState, Replies, init, handle_call, directory_of, bad_stop, terminate,
}
use contact_discovery_servic.Cds.Service.Requests.{
  Query, phones_of, Refines, Decodes, init-Refines, handle_call-Refines,
}
use contact_discovery_servic.Cds.Service.Answers.{LookedUp, answer_all, terminate-answer_all}

pub record Call : Type 0 where
  pub args : Option CallArgs
  pub request_data : Bytes
  pub sender : MsgFrom

module _ (c : Crypto) (sgx_is_outside_enclave : ℕ → ℕ → Bool) where
  abbrev pub handle : Call → ServerState → Result Status (Unit {0}) × ServerState
  handle call state =
      handle_call c sgx_is_outside_enclave call.args call.request_data call.sender state

  -- The state after some calls, one after the other.
  unfoldable pub run_calls : List Call → ServerState → ServerState
  run_calls [] state = state
  run_calls (call ∷ calls) state = run_calls calls (handle call state).1

  -- The requests that the calls leave, in order: of each call that succeeds its sender, and the
  -- phones that its message decodes to.
  pub data Collected : List Call → ServerState → List Query → Type 0 where
    no_call : {state : ServerState} → Collected [] state []
    refused :
        {call : Call} {calls : List Call} {state : ServerState} {queries : List Query} {e : Status}
        → (handle call state).0 ≡ err e
        → Collected calls (handle call state).1 queries
        → Collected (call ∷ calls) state queries
    accepted :
        {call : Call} {calls : List Call} {state : ServerState} {queries : List Query}
        {phones : List ℕ}
        → (handle call state).0 ≡ ok tt
        → Decodes c sgx_is_outside_enclave call.args call.request_data phones
        → Collected calls (handle call state).1 queries
        → Collected (call ∷ calls) state ((call.sender, phones) ∷ queries)

  decoded_once :
      (args : Option CallArgs) (request_data : Bytes) (phones others : List ℕ)
      → Decodes c sgx_is_outside_enclave args request_data phones
      → Decodes c sgx_is_outside_enclave args request_data others
      → phones ≡ others
  decoded_once none request_data phones others d d' = absurd d
  decoded_once (some args) request_data phones others d d' = ok-injective phones others (sym d ∙ d')

  module _ (laws : Laws c) where
    -- A call that is refused changes nothing, and one that is accepted adds its request.
    refused-Refines :
        (call : Call) (state : ServerState) (before : List Query) (e : Status)
        → Refines before state
        → (handle call state).0 ≡ err e
        → Refines before (handle call state).1
    refused-Refines call state before e refines failed =
        elim (handle_call-Refines c sgx_is_outside_enclave laws before state refines
          call.request_data call.sender call.args) [
            | inl (z, after) ↦ subst (Refines before) (sym (ap (λ r. r.1) after)) refines
            | inr (phones, decoded, fine, more) ↦ absurd (err-ne-ok e tt (sym failed ∙ fine))
          ]

    accepted-Refines :
        (call : Call) (state : ServerState) (before : List Query) (phones : List ℕ)
        → Refines before state
        → (handle call state).0 ≡ ok tt
        → Decodes c sgx_is_outside_enclave call.args call.request_data phones
        → Refines (before ++ ((call.sender, phones) ∷ [])) (handle call state).1
    accepted-Refines call state before phones refines fine decoded =
        elim (handle_call-Refines c sgx_is_outside_enclave laws before state refines
          call.request_data call.sender call.args) [
            | inl (z, after) ↦ absurd (err-ne-ok z tt (sym (ap (λ r. r.0) after) ∙ fine))
            | inr (others, decoded', fine', more) ↦
                subst (λ ps. Refines (before ++ ((call.sender, ps) ∷ [])) (handle call state).1)
                  (decoded_once call.args call.request_data others phones decoded' decoded) more
          ]

    run_calls-Refines :
        (calls : List Call) (state : ServerState) (before queries : List Query)
        → Refines before state
        → Collected calls state queries
        → Refines (before ++ queries) (run_calls calls state)
    unfolding run_calls
    run_calls-Refines calls state before queries refines no_call =
        subst (λ qs. Refines qs state) (sym (append-nil before)) refines
    run_calls-Refines calls state before queries refines
          (refused {call = call} {calls = later} {e = z} e rest) =
        run_calls-Refines later (handle call state).1 before queries
          (refused-Refines call state before z refines e) rest
    run_calls-Refines calls state before queries refines
          (accepted {call = call} {calls = later} {queries = more} {phones = phones} e decoded
            rest) =
        subst (λ qs. Refines qs (run_calls later (handle call state).1))
          (append_assoc before ((call.sender, phones) ∷ []) more)
          (run_calls-Refines later (handle call state).1 (before ++ ((call.sender, phones) ∷ []))
            more (accepted-Refines call state before phones refines e decoded) rest)

    -- A server is started, called, and stopped, with arguments whose sizes and memory are right and
    -- phones whose lookups, chunk by chunk, say what the directory says: every call that succeeded
    -- is answered, in order, with the UUIDs of the phones that its message decodes to, up to the
    -- first reply that fails, and the others are dropped, under the laws of the cryptography.
    pub session-answer_all :
        {World : Type 0} (y : Replies World) (x : Instructions World) (with_capacity : ℕ → ℕ)
        (start_args : Option StartArgs) (started : ServerState) (calls : List Call)
        (queries : List Query) (stop_args : StopArgs) (w w' : World)
        → init with_capacity start_args ≡ ok started
        → Collected calls started queries
        → bad_stop y x sgx_is_outside_enclave stop_args (phones_of queries) ≡ false
        → LookedUp x (directory_of stop_args) (phones_of queries) w w'
        → terminate y x sgx_is_outside_enclave (some stop_args) (run_calls calls started) w
          ≡ answer_all y (directory_lookup (directory_of stop_args)) queries w'
    session-answer_all y x with_capacity start_args started calls queries stop_args w w' begun
          collected good looked_up =
        let refines =
          run_calls-Refines calls started [] queries
            (init-Refines with_capacity start_args started begun) collected in
        terminate-answer_all y x sgx_is_outside_enclave queries stop_args (run_calls calls started)
          w w' refines
          (ap (bad_stop y x sgx_is_outside_enclave stop_args) refines.same_phones ∙ good) looked_up
