-- ===== src/Dma/Start/Outcome.antt =====
-- What a call of `dma_emul_start` leaves of the driver.
use warp_pipe.Base.{
  ℕ, ◌≡◌, ◌⊎◌, inl, inr, refl, ap, sym, ◌∙◌, arith, true, false, Bool, Option, Option-cases, none,
  some, List, ◌∷◌, leb, if◌then◌else◌,
}
use warp_pipe.Dma.State.{
  ChannelState, unused, loaded, started, stopped, DmaEmulConfig, Driver, Result, Pcie,
}
use warp_pipe.Dma.Start.{dma_emul_start, start_in, start_work, start_linked, submitted}
use warp_pipe.Dma.Start.Chain.{start_all, start_linked_iff}

module _ (config : DmaEmulConfig) (pcie : Pcie) where
  either {ℓ} : {A : Type ℓ} (b : Bool) (x y z : A) → (if b then x else y) ≡ z → (x ≡ z) ⊎ (y ≡ z)
  either true x y z e = inl e
  either false x y z e = inr e

  -- What `dma_emul_start` does to the driver, if it returns.
  abbrev pub StartsTo : ℕ → Driver → Driver → Type 0
  StartsTo channel d d' =
      (d' ≡ d)
      ⊎ ((channels : List ℕ) × (d' ≡ start_all (record d { work_channel = channel }) channels))

  -- What a call gives, when it returns.
  the_driver : Driver → Option (Result × Driver × pcie.World) → Driver
  the_driver d none = d
  the_driver d (some (r, d', w)) = d'

  not_none :
      (d : Driver) (r : Result) (w : pcie.World)
      → ¬ Path (Option (Result × Driver × pcie.World)) none (some (r, d, w))
  not_none d r w e = grind arith

  work_outcome :
      (rounds : ℕ) (d : Driver) (w : pcie.World) (channel : ℕ) (r : Result) (d' : Driver)
      (w' : pcie.World)
      → start_work config pcie rounds d w channel ≡ some (r, d', w')
      → StartsTo channel d d'
  unfolding start_work the_driver
  work_outcome rounds d w channel r d' w' e =
      elim (Option-cases (start_linked rounds (record d { work_channel = channel }) channel)) [
        | inl never ↦ absurd (not_none d' r w' (sym (rw (never, start_work) refl) ∙ e))
        | inr (d₁, ended) ↦
            let (channels, chain, lt, same) =
              (start_linked_iff rounds (record d { work_channel = channel }) channel d₁).0 ended in
            let returns : start_work config pcie rounds d w channel
                ≡ (let (ret, w₁) = pcie.k_work_submit_to_queue w in some (submitted ret, d₁, w₁)) =
              rw (ended, start_work) refl in
            inr (channel ∷ channels, ap (the_driver d') (sym e ∙ returns) ∙ same)
      ]

  state_outcome :
      (state : ChannelState) (rounds : ℕ) (d : Driver) (w : pcie.World) (channel : ℕ) (r : Result)
      (d' : Driver) (w' : pcie.World)
      → start_in config pcie state rounds d w channel ≡ some (r, d', w')
      → StartsTo channel d d'
  unfolding start_in the_driver
  state_outcome unused rounds d w channel r d' w' e = inl (ap (the_driver d) (sym e))
  state_outcome started rounds d w channel r d' w' e = inl (ap (the_driver d) (sym e))
  state_outcome loaded rounds d w channel r d' w' e = work_outcome rounds d w channel r d' w' e
  state_outcome stopped rounds d w channel r d' w' e = work_outcome rounds d w channel r d' w' e

  pub start_outcome :
      (rounds : ℕ) (d : Driver) (w : pcie.World) (channel : ℕ) (r : Result) (d' : Driver)
      (w' : pcie.World)
      → dma_emul_start config pcie rounds d w channel ≡ some (r, d', w')
      → StartsTo channel d d'
  unfolding dma_emul_start the_driver
  start_outcome rounds d w channel r d' w' e =
      elim (either (leb config.num_channels channel) _ _ _ e) [
        | inl refused ↦ inl (ap (the_driver d) (sym refused))
        | inr tried ↦ elim (either (pcie.warppipe_server_create w).0 _ _ _ tried) [
          | inl going ↦ state_outcome (d.xfer channel).reserved rounds d _ channel r d' w' going
          | inr failed ↦ inl (ap (the_driver d) (sym failed))
        ]
      ]
