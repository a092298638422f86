-- ===== src/Dma/Config.antt =====
-- `dma_emul_config_valid`, `dma_emul_configure`, `dma_emul_stop`, `dma_emul_chan_filter`,
-- `dma_emul_init` and the functions that are not implemented.
pub mod Valid
pub mod Slots
use warp_pipe.Base.{
  ℕ, ◌+◌, ◌*◌, ◌-◌, suc, zero, Bool, true, false, not, ◌&&◌, List, [], ◌∷◌, update, ltb, leb, ◌==◌,
  if◌then◌else◌,
}
use warp_pipe.Dma.State.{
  ChannelState, unused, loaded, started, stopped, is_unused, DmaBlockConfig, DmaConfig, DmaContext,
  DmaEmulConfig, Driver, Result, success, einval, ebusy, enosys, dma_emul_get_channel_state,
  dma_emul_set_channel_state,
}

-- The loop from its round `i` on, with `count` rounds left.
unfoldable pub blocks_valid : ℕ → ℕ → ℕ → List DmaBlockConfig → Bool
blocks_valid num_requests i zero blocks = true
blocks_valid num_requests i (suc count) [] = false
blocks_valid num_requests i (suc count) (b ∷ blocks) =
    let rest = blocks_valid num_requests (i + 1) count blocks in
    if leb num_requests i then false else rest

unfoldable pub dma_emul_config_valid : DmaEmulConfig → ℕ → DmaConfig → Bool
unfolding blocks_valid
dma_emul_config_valid config channel xfer_config =
    if leb config.num_requests xfer_config.dma_slot
    then false
    else if leb config.num_channels channel
    then false
    else if not (xfer_config.dest_burst_length == xfer_config.source_burst_length)
    then false
    else blocks_valid config.num_requests 0 xfer_config.block_count xfer_config.head_block

-- The `block_count` first blocks go to the slots from `i` on.
unfoldable pub copy_blocks : ℕ → ℕ → List DmaBlockConfig → (ℕ → DmaBlockConfig) → ℕ → DmaBlockConfig
copy_blocks i zero blocks slots = slots
copy_blocks i (suc count) [] slots = slots
copy_blocks i (suc count) (b ∷ blocks) slots = copy_blocks (i + 1) count blocks (update slots i b)

-- The slot of the first block of a configuration.
abbrev pub first_slot : DmaEmulConfig → ℕ → DmaConfig → ℕ
first_slot config channel c = channel * config.num_requests + c.dma_slot

-- The configuration is copied with its blocks, and the channel is then loaded.
unfoldable pub load : DmaEmulConfig → Driver → ℕ → DmaConfig → Driver
unfolding copy_blocks
load config d channel xfer_config =
    dma_emul_set_channel_state
      (record d {
        xfer = update d.xfer channel xfer_config;
        block =
            copy_blocks (first_slot config channel xfer_config) xfer_config.block_count
              xfer_config.head_block d.block;
      })
      channel loaded

unfoldable pub dma_emul_configure : DmaEmulConfig → Driver → ℕ → DmaConfig → Result × Driver
unfolding dma_emul_config_valid load
dma_emul_configure config d channel xfer_config =
    if not (dma_emul_config_valid config channel xfer_config)
    then (einval, d)
    else elim (dma_emul_get_channel_state d channel) [
      | unused ↦ (success, load config d channel xfer_config)
      | stopped ↦ (success, load config d channel xfer_config)
      | loaded ↦ (ebusy, d)
      | started ↦ (ebusy, d)
    ]

unfoldable pub dma_emul_stop : Driver → ℕ → Result × Driver
dma_emul_stop d channel = (success, dma_emul_set_channel_state d channel stopped)

unfoldable pub dma_emul_chan_filter : Driver → ℕ → Bool
dma_emul_chan_filter d channel = is_unused (dma_emul_get_channel_state d channel)

-- These are not implemented.
abbrev pub dma_emul_reload : ℕ → ℕ → ℕ → ℕ → Result
dma_emul_reload channel src dst size = enosys

abbrev pub dma_emul_suspend : ℕ → Result
dma_emul_suspend channel = enosys

abbrev pub dma_emul_resume : ℕ → Result
dma_emul_resume channel = enosys

abbrev pub dma_emul_get_status : ℕ → Result
dma_emul_get_status channel = enosys

abbrev pub dma_emul_get_attribute : ℕ → Result
dma_emul_get_attribute type = enosys

-- `dma_magic` is DMA_MAGIC, `channels_atomic` the address of the variable, and `start_queue` the calls
-- of the kernel that set up the work queue and start its thread.
unfoldable pub dma_emul_init {ℓ} :
    {World : Type ℓ} → (World → World) → ℕ → ℕ → DmaEmulConfig → World → Result × DmaContext × World
dma_emul_init start_queue dma_magic channels_atomic config w = (
  success,
  record { magic = dma_magic; dma_channels = config.num_channels; atomic = channels_atomic },
  start_queue w,
)
