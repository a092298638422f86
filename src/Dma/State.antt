-- ===== src/Dma/State.antt =====
-- The data of zephyr-samples/drivers/dma/dma_emul.c: channel states, channel configurations and
-- block slots, and the two small accessors of the channel state.
use Prim.Native.String.{String}
use warp_pipe.Base.{ℕ, Bool, true, false, List, Mem, update, if◌then◌else◌, ℤ, pos, negsuc}

pub data ChannelState : Type 0 where
  unused : ChannelState
  loaded : ChannelState
  started : ChannelState
  stopped : ChannelState

abbrev pub is_started : ChannelState → Bool
is_started started = true
is_started _ = false

abbrev pub is_stopped : ChannelState → Bool
is_stopped stopped = true
is_stopped _ = false

abbrev pub is_unused : ChannelState → Bool
is_unused unused = true
is_unused _ = false

-- What the log calls a state.
unfoldable pub dma_emul_channel_state_to_string : ChannelState → String
dma_emul_channel_state_to_string unused = "UNUSED"
dma_emul_channel_state_to_string loaded = "LOADED"
dma_emul_channel_state_to_string started = "STARTED"
dma_emul_channel_state_to_string stopped = "STOPPED"

-- `struct dma_block_config`, with the fields that the driver works on. The list of blocks that
-- starts at `head_block` is a list, its end the null pointer.
pub record DmaBlockConfig : Type 0 where
  pub source_address : ℕ
  pub dest_address : ℕ
  pub block_size : ℕ

-- `struct dma_config`, with the fields that the driver works on. `reserved` is `_reserved`, where the
-- driver keeps the state of the channel.
pub record DmaConfig : Type 0 where
  pub dma_slot : ℕ
  pub error_callback_en : Bool
  pub source_chaining_en : Bool
  pub dest_chaining_en : Bool
  pub linked_channel : ℕ
  pub reserved : ChannelState
  pub source_burst_length : ℕ
  pub dest_burst_length : ℕ
  pub block_count : ℕ
  pub head_block : List DmaBlockConfig
  pub user_data : ℕ
  pub dma_callback : ℕ

-- `struct dma_emul_config` without its arrays, and the width of `dma_addr_t`: 64 with
-- CONFIG_DMA_64BIT, else 32.
pub record DmaEmulConfig : Type 0 where
  pub num_channels : ℕ
  pub num_requests : ℕ
  pub addr_bits : ℕ

-- `struct dma_context`, with the address of the atomic variable.
pub record DmaContext : Type 0 where
  pub magic : ℕ
  pub dma_channels : ℕ
  pub atomic : ℕ

-- What the driver tells a callback: DMA_STATUS_COMPLETE or -ECANCELED.
pub data Status : Type 0 where
  complete : Status
  canceled : Status

-- A call of a `dma_callback`: its pointer, `user_data`, the channel and the status.
pub record CallbackCall : Type 0 where
  pub callback : ℕ
  pub user_data : ℕ
  pub channel : ℕ
  pub status : Status

-- What a function of the driver returns: 0, a negated `errno`, -1, or what the kernel returned.
pub data Result : Type 0 where
  success : Result
  einval : Result
  ebusy : Result
  eio : Result
  enosys : Result
  minus_one : Result
  kernel_error : ℕ → Result

-- The arrays `xfer` and `block`, as functions of the index, the channel of the work item, the static
-- `result` and `got_result`, and what lies outside of the driver: the memory that it writes to and
-- the callbacks that were called, the last one first. The assertions on indices are off, as they are
-- by default in Zephyr.
pub record Driver : Type 0 where
  pub xfer : ℕ → DmaConfig
  pub block : ℕ → DmaBlockConfig
  pub work_channel : ℕ
  pub result : Mem
  pub got_result : Bool
  pub memory : Mem
  pub called : List CallbackCall

-- `dma_emul_get_channel_state` and `dma_emul_set_channel_state`
abbrev pub dma_emul_get_channel_state : Driver → ℕ → ChannelState
dma_emul_get_channel_state d channel = (d.xfer channel).reserved

abbrev pub dma_emul_set_channel_state : Driver → ℕ → ChannelState → Driver
dma_emul_set_channel_state d channel state = record d {
  xfer = update d.xfer channel (record (d.xfer channel) { reserved = state });
}

abbrev pub dma_emul_xfer_is_error_status : ℤ → Bool
dma_emul_xfer_is_error_status (pos n) = false
dma_emul_xfer_is_error_status (negsuc n) = true

-- `source_chaining_en || dest_chaining_en`
abbrev pub is_linked : DmaConfig → Bool
is_linked c = if c.source_chaining_en then true else c.dest_chaining_en

-- What the worker needs of the PCIe client, the first one of the driver's server: `warppipe_read`,
-- with the BAR, the address and the length; `warppipe_server_loop`, with the data of the completions
-- that arrive in it; `warppipe_server_create`, false for -1; and `enumerate`.
pub record Pcie : Type 1 where
  pub World : Type 0
  pub warppipe_read : ℕ → ℕ → ℕ → World → World
  pub warppipe_server_loop : World → List Mem × World
  pub warppipe_server_create : World → Bool × World
  pub enumerate : World → World
  pub k_work_submit_to_queue : World → ℤ × World
