-- ===== src/Edl/Untrusted/Steps.antt =====
-- The steps of an ecall around the function that it calls: what they keep, and what the call leaves.
use contact_discovery_servic.Prelude.{
  ℕ, zero, suc, ◌≡◌, refl, ap, ◌∙◌, false, Option, none, some, List, [], ◌∷◌, take, Result, ok, err,
  ◌>>=◌,
}
use contact_discovery_servic.Prelude.Monad.Triple.{
  Triple, OnOk, Triple-bind, Triple-fact, Triple-modify, Triple-pure, Triple-fail, Triple-fail_if,
}
use contact_discovery_servic.Sgxsd.Types.{Bytes, Status, is_success}
use contact_discovery_servic.Sgxsd.Platform.{Platform, Server}
use contact_discovery_servic.Sgxsd.State.{Enclave, EnclaveM, set_world}
use contact_discovery_servic.Sgxsd.Reply.{store}
use contact_discovery_servic.Edl.Frame.{
  Pointer, Output, FrameOf, BridgeM, check_ref, check_unique, malloc, keep_block, copy_in,
  copy_message, room_out, call, copy_out, with_world, free_held, free_all, leave, until_err,
  status_of,
}

-- What an `[in]` pointer points to, and the room of an `[out]` pointer.
abbrev pub target_of : {T : Type 0} → Option (Pointer T) → Option T
target_of none = none
target_of (some q) = some q.target

abbrev pub room_of : {T : Type 0} → Option ℕ → T → Option T
room_of none zeroed = none
room_of (some a) zeroed = some zeroed

-- An error of the bridge is not SGX_SUCCESS.
abbrev pub IsFailure : Status → Type 0
IsFailure e = is_success e ≡ false

module _ (p : Platform) (v : Server p) where
  -- The state with the message at an address of the enclave's, and the pointer to it.
  abbrev pub with_message : Option (Pointer Bytes) → ℕ → ℕ → Enclave p v → Option ℕ × Enclave p v
  with_message none n a s = (none, s)
  with_message (some q) zero a s = (none, s)
  with_message (some q) (suc n) a s =
      let mem = store s.host.mem (some a) (some (take (suc n) q.target)) in
      (some a, record s { host = record (s.host) { mem = mem } })

  abbrev pub status_run : {A : Type 0} → Result Status A × Enclave p v → Status × Enclave p v
  status_run (r, s) = (status_of r, s)

  -- The frame holds this enclave, in some world.
  abbrev pub At : Enclave p v → FrameOf p v → Type 0
  At s f = (w : p.World) × (f.enclave ≡ set_world p v w s)

  -- The function ran in this enclave, in some world and with its message at some address, returned
  -- what stands in `ms_retval`, and left the enclave as it is, in some world.
  abbrev pub Ran : (ℕ → Enclave p v → Status × Enclave p v) → Enclave p v → FrameOf p v → Type 0
  Ran g s f =
      (a : ℕ) × (w : p.World) × (w' : p.World) × (f.ms_retval ≡ some (g a (set_world p v w s)).0)
      × (f.enclave ≡ set_world p v w' (g a (set_world p v w s)).1)

  -- A pointer check, and a call that only changes the world, keep the enclave.
  module _ (s : Enclave p v) where
    pub check_ref-At :
        (q : Option ℕ) (n : ℕ) → Triple IsFailure (At s) (check_ref p v q n) (λ u. At s)
    unfolding check_ref
    check_ref-At none n = Triple-fail _ refl
    check_ref-At (some a) n = Triple-fail_if _ _ refl

    pub check_unique-At :
        (q : Option ℕ) (n : ℕ) → Triple IsFailure (At s) (check_unique p v q n) (λ u. At s)
    unfolding check_unique
    check_unique-At none n = Triple-pure _ (λ f h. h)
    check_unique-At (some a) n = Triple-fail_if _ _ refl

    keep_block-At :
        (l : ℕ) (block : Option ℕ) (f : FrameOf p v)
        → At s f
        → OnOk IsFailure (λ a. At s) (keep_block p v l block f)
    keep_block-At l none f h = refl
    keep_block-At l (some a) f h = h

    malloc-At : (l n : ℕ) → Triple IsFailure (At s) (malloc p v l n) (λ a. At s)
    unfolding malloc
    malloc-At l n = record {
      success = λ f h.
          let (block, w) = p.malloc n f.enclave.host.world in
          keep_block-At l block (with_world p v w f) (w, ap (set_world p v w) h.1);
    }

    pub checked :
        {A : Type 0} {m : BridgeM p v (Unit {0})} (k : Unit {0} → BridgeM p v A)
        {Q : A → FrameOf p v → Type 0}
        → Triple IsFailure (At s) m (λ u. At s)
        → Triple IsFailure (At s) (k tt) Q
        → Triple IsFailure (At s) (m >>= k) Q
    checked k h hk = Triple-bind _ _ h (λ u. hk)

    pub copy_in-At :
        {T : Type 0} (l : ℕ) (q : Option (Pointer T)) (n : ℕ)
        → Triple IsFailure (At s) (copy_in p v l q n) (λ a f. At s f × (a ≡ target_of q))
    unfolding copy_in
    copy_in-At l none n = Triple-pure _ (λ f h. (h, refl))
    copy_in-At l (some q) n =
        Triple-bind _ _ (malloc-At l n)
          (λ a. checked _ (Triple-fail_if _ _ refl) (Triple-pure _ (λ f h. (h, refl))))

    pub room_out-At :
        {T : Type 0} (l : ℕ) (q : Option ℕ) (n : ℕ) (zeroed : T)
        → Triple IsFailure
            (At s)
            (room_out p v l q n zeroed)
            (λ a f. At s f × (a ≡ room_of q zeroed))
    unfolding room_out
    room_out-At l none n zeroed = Triple-pure _ (λ f h. (h, refl))
    room_out-At l (some q) n zeroed =
        Triple-bind _ _ (malloc-At l n) (λ a. Triple-pure _ (λ f h. (h, refl)))

    copy_message-At :
        (l : ℕ) (q : Option (Pointer Bytes)) (n : ℕ)
        → Triple IsFailure
            (At s)
            (copy_message p v l q n)
            (λ b f. (a : ℕ) × At (with_message q n a s).1 f × (b ≡ (with_message q n a s).0))
    unfolding copy_message
    copy_message-At l none n = Triple-pure _ (λ f h. (0, h, refl))
    copy_message-At l (some q) zero = Triple-pure _ (λ f h. (0, h, refl))
    copy_message-At l (some q) (suc n) = Triple-bind _ _ (malloc-At l (suc n)) (λ a.
        checked _ (Triple-fail_if _ _ refl) (
          Triple-bind {R = λ u. At (with_message (some q) (suc n) a s).1} _ _
            (Triple-modify _ (λ f h. (h.0, ap (λ t. (with_message (some q) (suc n) a t).1) h.1)))
            (λ u. Triple-pure _ (λ f h. (a, h, refl)))))

    pub given :
        {A B : Type 0} {m : BridgeM p v A} (k : A → BridgeM p v B) (x : A)
        {Q : B → FrameOf p v → Type 0}
        → Triple IsFailure (At s) m (λ a f. At s f × (a ≡ x))
        → Triple IsFailure (At s) (k x) Q
        → Triple IsFailure (At s) (m >>= k) Q
    given k x hm hk = Triple-bind _ _ hm (λ a. Triple-fact (λ e. rw e hk))

    pub message_copied :
        {B : Type 0} (l : ℕ) (q : Option (Pointer Bytes)) (n : ℕ) (k : Option ℕ → BridgeM p v B)
        {Q : B → FrameOf p v → Type 0}
        → ((a : ℕ) → let (msg, t) = with_message q n a s in Triple IsFailure (At t) (k msg) Q)
        → Triple IsFailure (At s) (copy_message p v l q n >>= k) Q
    message_copied l q n k {Q} hk = Triple-bind _ _ (copy_message-At l q n) (λ b. record {
      success = λ f h.
          let (a, at, e) = h in
          let t : Triple IsFailure (At (with_message q n a s).1) (k b) Q = rw e (hk a) in
          t.success f at;
    })

  module _ (g : ℕ → Enclave p v → Status × Enclave p v) (s : Enclave p v) where
    -- The message may stand in the enclave already.
    call-Ran :
        {A : Type 0} (m : EnclaveM p v A) (s' : Enclave p v) (a : ℕ)
        → ((w : p.World) → status_run (m (set_world p v w s')) ≡ g a (set_world p v w s))
        → Triple IsFailure (At s') (call p v m) (λ r. Ran g s)
    unfolding call
    call-Ran m s' a e = record {
      success = λ f h.
          let w' = (m (set_world p v h.0 s')).1.host.world in
          (
            a,
            h.0,
            w',
            ap (λ t. some (status_of (m t).0)) h.1 ∙ ap (λ x. some x.0) (e h.0),
            ap (λ t. (m t).1) h.1 ∙ ap (λ x. set_world p v w' x.1) (e h.0),
          );
    }

    pub returned :
        {A : Type 0} (m : EnclaveM p v A) (s' : Enclave p v) (a : ℕ)
        (k : Option A → BridgeM p v (Unit {0}))
        → ((w : p.World) → status_run (m (set_world p v w s')) ≡ g a (set_world p v w s))
        → ((r : Option A) → Triple IsFailure (Ran g s) (k r) (λ u. Ran g s))
        → Triple IsFailure (At s') (call p v m >>= k) (λ u. Ran g s)
    returned m s' a k e hk = Triple-bind _ _ (call-Ran m s' a e) hk

    pub copy_out-Ran :
        (q : Option ℕ) (n : ℕ) (o : Option Output)
        → Triple IsFailure (Ran g s) (copy_out p v q n o) (λ u. Ran g s)
    unfolding copy_out
    copy_out-Ran none n o = Triple-pure _ (λ f h. h)
    copy_out-Ran (some q) n o =
        Triple-bind _ _ (Triple-fail_if _ _ refl) (λ u. Triple-modify _ (λ f h. h))

    free_held-Ran :
        (block : Option ℕ) (f : FrameOf p v) → Ran g s f → Ran g s (free_held p v block f)
    free_held-Ran none f h = h
    free_held-Ran (some a) f h = (h.0, h.1, _, h.3, ap (set_world p v _) h.4)

    free_all-Ran : (ls : List ℕ) (f : FrameOf p v) → Ran g s f → Ran g s (free_all p v ls f)
    unfolding free_all
    free_all-Ran [] f h = h
    free_all-Ran (l ∷ ls) f h = free_all-Ran ls _ (free_held-Ran (f.locals l) f h)

    freed-Ran :
        (ls : List ℕ) (r : Result Status (Unit {0}) × FrameOf p v)
        → OnOk IsFailure (λ u. Ran g s) r
        → OnOk IsFailure (λ u. Ran g s) (r.0, leave p v (free_all p v ls r.1))
    freed-Ran ls (ok u, f) h = free_all-Ran ls f h
    freed-Ran ls (err e, f) h = h

    pub until_err-Ran :
        (ls : List ℕ) (m : BridgeM p v (Unit {0}))
        → Triple IsFailure (At s) m (λ u. Ran g s)
        → Triple IsFailure (At s) (until_err p v ls m) (λ u. Ran g s)
    unfolding until_err
    until_err-Ran ls m h = record { success = λ f hf. freed-Ran ls (m f) (h.success f hf) }
