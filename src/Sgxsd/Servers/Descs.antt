-- ===== src/Sgxsd/Servers/Descs.antt =====
-- The array of server descriptors.
use contact_discovery_servic.Prelude.{
  ℕ, zero, suc, ◌<◌, ◌≡◌, ◌≢◌, ◌∙◌, ap, true, List, [], ◌∷◌, arith, length, get_or, get_or-set_ne,
  get_or-set_self,
}
use contact_discovery_servic.Sgxsd.State.{State, ServerStateDesc, zero_desc}
use contact_discovery_servic.Sgxsd.Servers.{desc, set_desc, acquire_desc}

-- A descriptor that is valid, or locked, is one of the array.
valid-in_range :
    {S : Type 0} (ds : List (ServerStateDesc S)) (i : ℕ)
    → (get_or ds i zero_desc).valid ≡ true
    → i < length ds
valid-in_range [] i h = absurd (ground arith)
valid-in_range (d ∷ ds) zero h = omega arith
valid-in_range (d ∷ ds) (suc i) h = omega (arith, valid-in_range ds i h)

module _ {W S : Type 0} where
  pub desc_in_range :
      (handle : ℕ) (s : State W S) → (desc handle s).valid ≡ true → handle < length s.server_states
  desc_in_range handle s h = valid-in_range s.server_states handle h

  pub desc-set_desc :
      (handle : ℕ) (d : ServerStateDesc S) (s : State W S)
      → handle < length s.server_states
      → desc handle (set_desc handle d s) ≡ d
  desc-set_desc handle d s h = get_or-set_self s.server_states handle d zero_desc h

  pub desc-set_desc_ne :
      (handle other : ℕ) (d : ServerStateDesc S) (s : State W S)
      → handle ≢ other
      → desc other (set_desc handle d s) ≡ desc other s
  desc-set_desc_ne handle other d s h = get_or-set_ne s.server_states handle other d zero_desc h

  pub valid-acquire_desc :
      (handle : ℕ) (s : State W S)
      → (desc handle s).valid ≡ true
      → (desc handle (acquire_desc handle s)).valid ≡ true
  valid-acquire_desc handle s h =
      ap (λ (d : ServerStateDesc S). d.valid)
        (desc-set_desc handle (record (desc handle s) { lock = true }) s (desc_in_range handle s h))
      ∙ h

  pub p_state-acquire_desc :
      (handle : ℕ) (s : State W S)
      → (desc handle s).valid ≡ true
      → (desc handle (acquire_desc handle s)).p_state ≡ (desc handle s).p_state
  p_state-acquire_desc handle s h =
      ap (λ (d : ServerStateDesc S). d.p_state)
        (desc-set_desc handle (record (desc handle s) { lock = true }) s (desc_in_range handle s h))

  -- A descriptor is valid as before when only its other fields were written.
  pub valid-set_desc :
      (handle : ℕ) (d : ServerStateDesc S) (s : State W S)
      → (desc handle s).valid ≡ true
      → d.valid ≡ true
      → (desc handle (set_desc handle d s)).valid ≡ true
  valid-set_desc handle d s h hd =
      ap (λ (d : ServerStateDesc S). d.valid) (desc-set_desc handle d s (desc_in_range handle s h))
      ∙ hd
