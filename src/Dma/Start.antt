-- ===== src/Dma/Start.antt =====
-- `dma_emul_start`: the channels that are linked to each other are started together.
pub mod Chain
pub mod Outcome
use warp_pipe.Base.{
  ℕ, suc, zero, Bool, true, false, Option, none, some, update, leb, if◌then◌else◌, ℤ, pos, negsuc,
  ◌+◌,
}
use warp_pipe.Dma.State.{
  ChannelState, unused, loaded, started, stopped, DmaConfig, DmaEmulConfig, Driver, Result, success,
  einval, eio, minus_one, kernel_error, dma_emul_get_channel_state, dma_emul_set_channel_state,
  is_linked, Pcie,
}

-- The `while (true)` loop, for `rounds` rounds at most; `none` if it has not ended by then.
unfoldable pub start_linked : ℕ → Driver → ℕ → Option Driver
start_linked zero d channel = none
start_linked (suc rounds) d channel =
    let d' = dma_emul_set_channel_state d channel started in
    let rest = start_linked rounds d' ((d'.xfer channel).linked_channel) in
    if is_linked (d'.xfer channel) then rest else some d'

-- `ret < 0 ? ret : 0`
abbrev pub submitted : ℤ → Result
submitted (pos n) = success
submitted (negsuc n) = kernel_error (n + 1)

module _ (config : DmaEmulConfig) (pcie : Pcie) where
  -- The cases of LOADED and STOPPED.
  unfoldable pub start_work : ℕ → Driver → pcie.World → ℕ → Option (Result × Driver × pcie.World)
  unfolding start_linked
  start_work rounds d w channel =
      elim (start_linked rounds (record d { work_channel = channel }) channel) [
        | none ↦ none
        | some d' ↦ (let (ret, w') = pcie.k_work_submit_to_queue w in some (submitted ret, d', w'))
      ]

  -- The `switch` on the state.
  unfoldable pub start_in :
      ChannelState → ℕ → Driver → pcie.World → ℕ → Option (Result × Driver × pcie.World)
  unfolding start_work
  start_in started rounds d w channel = some (success, d, w)
  start_in loaded rounds d w channel = start_work rounds d w channel
  start_in stopped rounds d w channel = start_work rounds d w channel
  start_in unused rounds d w channel = some (eio, d, w)

  unfoldable pub dma_emul_start :
      ℕ → Driver → pcie.World → ℕ → Option (Result × Driver × pcie.World)
  unfolding start_in
  dma_emul_start rounds d w channel =
      if leb config.num_channels channel
      then some (einval, d, w)
      else (let (created, w₁) = pcie.warppipe_server_create w in
          let w₂ = pcie.enumerate w₁ in
          if created
          then start_in (dma_emul_get_channel_state d channel) rounds d w₂ channel
          else some (minus_one, d, w₁))
