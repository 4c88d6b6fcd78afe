-- ===== src/Sgxsd/Servers/Guards.antt =====
-- The checks at the head of the entry points, when they pass.
use contact_discovery_servic.Prelude.{
  ℕ, ◌<◌, ◌≡◌, ◌≢◌, leb, ==_of_ne, true, false, some, arith, M, ◌>>=◌, refl,
}
use contact_discovery_servic.Sgxsd.Types.{Status}
use contact_discovery_servic.Sgxsd.Crypto.{Crypto}
use contact_discovery_servic.Sgxsd.Platform.{Platform, Server}
use contact_discovery_servic.Sgxsd.State.{State, max_servers, Enclave, EnclaveM}
use contact_discovery_servic.Sgxsd.Reply.{non_null}
use contact_discovery_servic.Sgxsd.Servers.{desc, check_valid, check_handle, message}

module _ {W S B : Type 0} where
  pub check_valid-bind :
      (handle : ℕ) (f : Unit {0} → M Status (State W S) B) (s : State W S)
      → (desc handle s).valid ≡ true
      → (check_valid handle >>= f) s ≡ f tt s
  unfolding check_valid ◌>>=◌
  check_valid-bind handle f s valid = rw valid

  pub check_handle-bind :
      (handle : ℕ) (f : Unit {0} → M Status (State W S) B) (s : State W S)
      → s.node_initialized ≡ true
      → handle < max_servers
      → (check_handle handle >>= f) s ≡ f tt s
  unfolding check_handle ◌>>=◌
  check_handle-bind handle f s init h =
      let low : leb max_servers handle ≡ false = ground arith in rw (init, low)

  pub non_null-bind :
      {A : Type 0} (a : A) (f : A → M Status (State W S) B) (s : State W S)
      → (non_null (some a) >>= f) s ≡ f a s
  unfolding non_null ◌>>=◌
  non_null-bind a f s = refl

module _ (c : Crypto) (p : Platform) (v : Server p) where
  pub message-bind :
      {B : Type 0} (address n : ℕ) (f : ℕ → EnclaveM p v B) (s : Enclave p v)
      → n ≢ 0
      → (message c p v (some address) n >>= f) s ≡ f address s
  unfolding message ◌>>=◌
  message-bind address n f s ne = rw (==_of_ne n 0 ne)
