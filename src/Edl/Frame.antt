-- ===== src/Edl/Frame.antt =====
-- The steps of which an ecall of enclave/include/cds_enclave_t.c is made: pointer checks, copies into
-- and out of the enclave, the call, and the label `err` that frees the copies. `sgx_lfence` has no
-- effect on the state.
use contact_discovery_servic.Prelude.{
  ℕ, zero, ◌+◌, ◌-◌, ◌==◌, not, if◌then◌else◌, Option, none, some, List, [], ◌∷◌, take, Result, M,
  ok, err, pure, fail, fail_if, modify, ◌>>=◌, ◌>>◌,
}
use contact_discovery_servic.Sgxsd.Types.{
  Bytes, Status, success, unexpected, invalid_parameter, out_of_memory, NegotiationResponse,
}
use contact_discovery_servic.Sgxsd.Platform.{Platform, Server}
use contact_discovery_servic.Sgxsd.State.{State, EnclaveM, set_world}
use contact_discovery_servic.Sgxsd.Reply.{store}

-- A pointer of the caller, and what stands there when it is copied.
pub record Pointer (T : Type 0) : Type 0 where
  pub address : ℕ
  pub target : T

abbrev pub address_of : {T : Type 0} → Option (Pointer T) → Option ℕ
address_of none = none
address_of (some q) = some q.address

-- What an ecall copies out.
pub data Output : Type 0 where
  report : Bytes → Output
  response : NegotiationResponse → Output
  fingerprint : Bytes → Output

-- The enclave during an ecall. `locals` are the local `_in_` variables, in the order in which the
-- ecall declares them, `none` for NULL; `live` counts for an address the blocks that were allocated
-- there and not freed. `ms_retval` and `output` are what the caller finds afterwards, with
-- `none` for what was not written, or was written by a function that failed.
pub record Frame (W S : Type 0) : Type 0 where
  pub enclave : State W S
  pub locals : ℕ → Option ℕ
  pub live : ℕ → ℕ
  pub ms_retval : Option Status
  pub output : Option Output

abbrev pub one_at : ℕ → ℕ → ℕ
one_at a x = if x == a then 1 else 0

-- The locals with another value in one of them.
abbrev pub assign : ℕ → Option ℕ → (ℕ → Option ℕ) → ℕ → Option ℕ
assign l block locals i = if i == l then block else locals i

abbrev pub status_of : {A : Type 0} → Result Status A → Status
status_of (ok a) = success
status_of (err e) = e

abbrev pub value_of : {A : Type 0} → Result Status A → Option A
value_of (ok a) = some a
value_of (err e) = none

abbrev pub output_of : {A : Type 0} → (A → Output) → Option A → Option Output
output_of f none = none
output_of f (some a) = some (f a)

module _ (p : Platform) (v : Server p) where
  abbrev pub FrameOf : Type 0
  FrameOf = Frame p.World v.ServerState

  abbrev pub BridgeM : Type 0 → Type 0
  BridgeM A = M Status FrameOf A

  -- `CHECK_REF_POINTER`
  unfoldable pub check_ref : Option ℕ → ℕ → BridgeM (Unit {0})
  check_ref none n = fail invalid_parameter
  check_ref (some a) n = fail_if (not (p.sgx_is_outside_enclave a n)) invalid_parameter

  -- `CHECK_UNIQUE_POINTER`
  unfoldable pub check_unique : Option ℕ → ℕ → BridgeM (Unit {0})
  check_unique none n = pure tt
  check_unique (some a) n = fail_if (not (p.sgx_is_outside_enclave a n)) invalid_parameter

  abbrev pub with_world : p.World → FrameOf → FrameOf
  with_world w f = record f { enclave = set_world p v w f.enclave }

  abbrev pub keep_block : ℕ → Option ℕ → FrameOf → Result Status ℕ × FrameOf
  keep_block l none f = (err out_of_memory, record f { locals = assign l none f.locals })
  keep_block l (some a) f =
      (ok a, record f { locals = assign l (some a) f.locals; live = λ x. f.live x + one_at a x })

  -- `malloc` into a local, with its check
  unfoldable pub malloc : ℕ → ℕ → BridgeM ℕ
  malloc l n f =
      let (block, w) = p.malloc n f.enclave.host.world in keep_block l block (with_world w f)

  -- An `[in]` argument of a size that is not 0, into a local.
  unfoldable pub copy_in : {T : Type 0} → ℕ → Option (Pointer T) → ℕ → BridgeM (Option T)
  copy_in l none n = pure none
  copy_in l (some q) n = do
    _ ← malloc l n
    fail_if (p.memcpy_s n n) unexpected
    pure (some q.target)

  -- The copy of a message in the enclave's memory.
  abbrev pub put_message : ℕ → Bytes → FrameOf → FrameOf
  put_message a bytes f =
      let host = f.enclave.host in
      let mem = store host.mem (some a) (some bytes) in
      record f { enclave = record (f.enclave) { host = record host { mem = mem } } }

  -- The `[in, size=n]` bytes of a message.
  unfoldable pub copy_message : ℕ → Option (Pointer Bytes) → ℕ → BridgeM (Option ℕ)
  copy_message l none n = pure none
  copy_message l (some q) zero = pure none
  copy_message l (some q) n = do
    a ← malloc l n
    fail_if (p.memcpy_s n n) unexpected
    modify (put_message a (take n q.target))
    pure (some a)

  -- An `[out]` argument, zeroed.
  unfoldable pub room_out : {T : Type 0} → ℕ → Option ℕ → ℕ → T → BridgeM (Option T)
  room_out l none n zeroed = pure none
  room_out l (some a) n zeroed = do _ ← malloc l n; pure (some zeroed)

  -- The call of the function itself.
  unfoldable pub call : {A : Type 0} → EnclaveM p v A → BridgeM (Option A)
  call m f =
      let (r, s) = m f.enclave in
      (ok (value_of r), record f { enclave = s; ms_retval = some (status_of r) })

  -- The copy of an `[out]` argument to the caller.
  unfoldable pub copy_out : Option ℕ → ℕ → Option Output → BridgeM (Unit {0})
  copy_out none n o = pure tt
  copy_out (some a) n o = do
    fail_if (p.memcpy_s n n) unexpected
    modify (λ f. record f { output = o })

  abbrev pub free : ℕ → FrameOf → FrameOf
  free a f = record (with_world (p.free a f.enclave.host.world) f) {
    live = λ x. f.live x - one_at a x;
  }

  -- `if (_in_x) free(_in_x);`
  abbrev pub free_held : Option ℕ → FrameOf → FrameOf
  free_held none f = f
  free_held (some a) f = free a f

  unfoldable pub free_all : List ℕ → FrameOf → FrameOf
  free_all [] f = f
  free_all (l ∷ ls) f = free_all ls (free_held (f.locals l) f)

  -- The locals are gone when the ecall returns.
  abbrev pub leave : FrameOf → FrameOf
  leave f = record f { locals = λ i. none }

  -- A body and then the label `err`, which frees these locals.
  unfoldable pub until_err : List ℕ → BridgeM (Unit {0}) → BridgeM (Unit {0})
  until_err ls m f = let (r, f') = m f in (r, leave (free_all ls f'))
