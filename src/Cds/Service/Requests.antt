-- ===== src/Cds/Service/Requests.antt =====
-- The requests that the server has collected, each with its own phones.
use contact_discovery_servic.Prelude.{
  ℕ, ◌+◌, ◌-◌, ◌^◌, ◌≤◌, ◌≡◌, ◌⊎◌, inl, inr, refl, sym, ap, ◌∙◌, ltb, leb, ◌==◌, Bool, Bool-cases,
  ◌||◌, Option, none, some, List, [], ◌∷◌, ◌++◌, map, length, length-append, append_assoc,
  append-nil, ok, err, if-ok, ok-injective, err-ne-ok, Result-cases, arith,
}
use mathlib.Core.Path.{subst}
use contact_discovery_servic.Sgxsd.Types.{Bytes, Status, invalid_parameter, MsgFrom}
use contact_discovery_servic.Sgxsd.Crypto.{Crypto, Laws}
use contact_discovery_servic.Cds.Request.{CallArgs, decode_phone_list}
use contact_discovery_servic.Cds.Request.Decoding.{decode_phone_list-length}
use contact_discovery_servic.Cds.Service.{
  StartArgs, PendingRequest, ServerState, init, decode_request, handle_call,
}

-- A request: its sender and its phones.
abbrev pub Query : Type 0
Query = MsgFrom × List ℕ

abbrev pub pending_of : Query → PendingRequest
pending_of q = record { sender = q.0; request_phone_count = length q.1 }

abbrev pub phones_of : List Query → List ℕ
phones_of [] = []
phones_of (q ∷ queries) = q.1 ++ phones_of queries

-- The state holds these requests, in order, and no more phones than it was made for.
pub record Refines (queries : List Query) (state : ServerState) : Type 0 where
  pub same_requests : state.requests ≡ map pending_of queries
  pub same_phones : state.query_phones ≡ phones_of queries
  pub fits : length state.query_phones ≤ state.capacity

map-snoc :
    (queries : List Query) (q : Query)
    → map pending_of (queries ++ (q ∷ [])) ≡ map pending_of queries ++ (pending_of q ∷ [])
map-snoc [] q = refl
map-snoc (r ∷ queries) q = ap (λ rs. pending_of r ∷ rs) (map-snoc queries q)

phones_of-snoc :
    (queries : List Query) (q : Query) → phones_of (queries ++ (q ∷ [])) ≡ phones_of queries ++ q.1
phones_of-snoc [] q = append-nil q.1
phones_of-snoc (r ∷ queries) q =
    ap (λ ps. r.1 ++ ps) (phones_of-snoc queries q) ∙ sym (append_assoc r.1 (phones_of queries) q.1)

module _ (c : Crypto) (sgx_is_outside_enclave : ℕ → ℕ → Bool) where
  abbrev pub Decodes : Option CallArgs → Bytes → List ℕ → Type 0
  Decodes none request_data phones = ⊥
  Decodes (some args) request_data phones =
      decode_phone_list c sgx_is_outside_enclave args request_data ≡ ok phones

  -- The phones of a decoded request fit.
  module _ (laws : Laws c) (queries : List Query) (state : ServerState)
      (refines : Refines queries state) (request_data : Bytes) (sender : MsgFrom) where
    abbrev Added : List ℕ → ServerState → Type 0
    Added phones after = Refines (queries ++ ((sender, phones) ∷ [])) after

    decoded_fits :
        (args : CallArgs) (phones : List ℕ)
        → decode_request c sgx_is_outside_enclave state args request_data ≡ ok phones
        → (decode_phone_list c sgx_is_outside_enclave args request_data ≡ ok phones)
          × (length state.query_phones + length phones ≤ state.capacity)
    unfolding decode_request
    decoded_fits args phones e =
        let (room, decoded) =
          if-ok
            ((args.query_phone_count == 0)
              || ltb (state.capacity - length state.query_phones) args.query_phone_count)
            _ _ phones e in
        let counted =
          decode_phone_list-length c laws sgx_is_outside_enclave args request_data phones decoded in
        (decoded, ground (arith, refines.fits))

    added :
        (phones : List ℕ)
        → length state.query_phones + length phones ≤ state.capacity
        → Added phones (record state {
          query_phones = state.query_phones ++ phones;
          requests = state.requests ++ (pending_of (sender, phones) ∷ []);
        })
    added phones room = record {
      same_requests =
          ap (λ rs. rs ++ (pending_of (sender, phones) ∷ [])) refines.same_requests
          ∙ sym (map-snoc queries (sender, phones));
      same_phones =
          ap (λ ps. ps ++ phones) refines.same_phones
          ∙ sym (phones_of-snoc queries (sender, phones));
      fits = omega (arith, length-append state.query_phones phones);
    }

    -- Of a server that holds these requests: a call, whatever its arguments, either fails and changes
    -- nothing, or succeeds and adds one request, with its sender and the phones that its message
    -- decodes to, and all phones still fit into the capacity, under the laws of the cryptography.
    pub handle_call-Refines :
        (args : Option CallArgs)
        → let after = handle_call c sgx_is_outside_enclave args request_data sender state in
          ((e : Status) × (after ≡ (err e, state)))
          ⊎ ((phones : List ℕ) × Decodes args request_data phones
              × (after.0 ≡ ok tt)
              × Added phones after.1)
    unfolding handle_call
    handle_call-Refines none = inl (invalid_parameter, refl)
    handle_call-Refines (some args) =
        elim (Result-cases (decode_request c sgx_is_outside_enclave state args request_data)) [
          | inr (e, failed) ↦ inl (e, rw (handle_call, failed) refl)
          | inl (phones, decoded) ↦
              (let (listed, room) = decoded_fits args phones decoded in
                elim (Bool-cases (leb (2 ^ 32) (length phones))) [
                  | inl many ↦ inl (invalid_parameter, rw (handle_call, decoded, many) refl)
                  | inr few ↦ inr (
                    phones,
                    listed,
                    rw (handle_call, decoded, few) refl,
                    rw (handle_call, decoded, few) (added phones room),
                  )
                ])
        ]

pub init-Refines :
    (with_capacity : ℕ → ℕ) (args : Option StartArgs) (state : ServerState)
    → init with_capacity args ≡ ok state
    → Refines [] state
unfolding init
init-Refines with_capacity none state e = absurd (err-ne-ok invalid_parameter state e)
init-Refines with_capacity (some args) state e =
    subst (Refines []) (ok-injective _ state e)
      (record { same_requests = refl; same_phones = refl; fits = omega arith })
