-- ===== src/Dma/Runs.antt =====
-- The work handler together with the other threads that use the driver: every order of the steps of
-- the handler, the calls of the driver's functions, and what goes on outside.
pub mod Invariant
use mathlib.Core.Path.{subst}
use warp_pipe.Base.{
  ℕ, suc, zero, ◌+◌, ◌-◌, ◌*◌, ◌≤◌, ◌<◌, ◌≡◌, ◌≢◌, ◌⊎◌, inl, inr, refl, ap, sym, ◌∙◌, arith, true,
  false, Bool, Bool-cases, Option, some, List, [], ◌∷◌, Mem, length, update, update_at,
  update_apart, ltb, ◌==◌, if◌then◌else◌,
}
use warp_pipe.Dma.State.{
  ChannelState, unused, loaded, started, stopped, is_stopped, DmaBlockConfig, DmaConfig,
  DmaEmulConfig, Driver, Result, dma_emul_get_channel_state, dma_emul_set_channel_state, is_linked,
  Pcie,
}
use warp_pipe.Dma.Config.{dma_emul_configure, dma_emul_stop}
use warp_pipe.Dma.Config.Valid.{IsConfigValid}
use warp_pipe.Dma.Config.Slots.{IsLoaded, configure_outcome}
use warp_pipe.Dma.Start.{dma_emul_start, start_linked}
use warp_pipe.Dma.Start.Chain.{IsChain, start_all, start_linked_iff}
use warp_pipe.Dma.Worker.{
  Place, idle, next_channel, next_block, next_burst, waiting, finished, minimum, pcie_completion_cb,
  deliver, call_back, advance, cancel, System, step, run,
}
use warp_pipe.Dma.Worker.Steps.{
  at, step_blocks, step_end, step_empty, step-cancel, step_ask, step_loop, step_take,
}

module _ (config : DmaEmulConfig) (pcie : Pcie) where
  pub data Step : System config pcie → System config pcie → Type 0 where
    works : (s : System config pcie) → Step s (step config pcie s)
    configures :
        (s : System config pcie) (channel : ℕ) (c : DmaConfig)
        → Step s (record s { driver = (dma_emul_configure config s.driver channel c).1 })
    starts :
        (s : System config pcie) (rounds channel : ℕ) (r : Result) (d : Driver) (w : pcie.World)
        → dma_emul_start config pcie rounds s.driver s.world channel ≡ some (r, d, w)
        → Step s (record s { driver = d; world = w })
    stops :
        (s : System config pcie) (channel : ℕ)
        → Step s (record s { driver = (dma_emul_stop s.driver channel).1 })
    outside : (s : System config pcie) (w : pcie.World) → Step s (record s { world = w })

  pub data Reach (s : System config pcie) : System config pcie → Type 0 where
    here : Reach s s
    next : {t u : System config pcie} → Reach s t → Step t u → Reach s u

  -- What the driver relies on in a configuration.
  abbrev pub IsUsable : DmaConfig → Type 0
  IsUsable c =
      (c.dma_slot < config.num_requests)
      × (c.dest_burst_length ≡ c.source_burst_length)
      × (c.block_count ≤ config.num_requests)

  abbrev pub IsPlaced : Place → Type 0
  IsPlaced idle = Unit {0}
  IsPlaced (next_channel channel) = Unit {0}
  IsPlaced (next_block channel c i) = IsUsable c × (i ≤ c.block_count)
  IsPlaced (next_burst channel c i b) = IsUsable c × (i < c.block_count)
  IsPlaced (waiting channel c i b bytes) =
      IsUsable c
      × (i < c.block_count)
      × (1 ≤ bytes)
      × (bytes ≤ b.block_size)
      × (bytes ≤ c.dest_burst_length)
  IsPlaced (finished channel c) = IsUsable c

  abbrev pub IsSound : System config pcie → Type 0
  IsSound s = ((channel : ℕ) → IsUsable (s.driver.xfer channel)) × IsPlaced s.place
