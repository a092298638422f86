-- ===== src/Dma/Worker.antt =====
-- `dma_emul_work_handler` in steps. Each step takes the lock at most once, so that what other
-- threads do to the driver comes between two steps.
pub mod Steps
pub mod Burst
pub mod Block
pub mod Transfer
pub mod Cancel
pub mod Linked
use warp_pipe.Base.{
  ℕ, suc, zero, ◌+◌, ◌-◌, ◌*◌, ◌%◌, ◌^◌, Bool, true, false, List, [], ◌∷◌, Mem, slice, poke, ltb,
  ◌==◌, if◌then◌else◌,
}
use warp_pipe.Dma.State.{
  ChannelState, started, stopped, is_stopped, DmaBlockConfig, DmaConfig, DmaEmulConfig, Driver,
  Status, complete, canceled, CallbackCall, dma_emul_get_channel_state, dma_emul_set_channel_state,
  is_linked, Pcie,
}

-- Where the handler is, with its local variables: it does not run; at the top of the `do`; at the
-- test of the loop on the blocks; at the test of the loop on the bursts of a block, and at that of
-- `while (!got_result)` in it; after the blocks; and where the state is set and the callback is due.
pub data Place : Type 0 where
  idle : Place
  next_channel : ℕ → Place
  next_block : ℕ → DmaConfig → ℕ → Place
  next_burst : ℕ → DmaConfig → ℕ → DmaBlockConfig → Place
  waiting : ℕ → DmaConfig → ℕ → DmaBlockConfig → ℕ → Place
  finished : ℕ → DmaConfig → Place

abbrev pub minimum : ℕ → ℕ → ℕ
minimum a b = if ltb a b then a else b

-- The first 4 bytes of the completion are kept, whatever its length is.
unfoldable pub pcie_completion_cb : Mem → Driver → Driver
pcie_completion_cb response d = record d {
  result = poke d.result 0 (slice response 0 4);
  got_result = true;
}

unfoldable pub deliver : List Mem → Driver → Driver
unfolding pcie_completion_cb
deliver [] d = d
deliver (response ∷ rest) d = deliver rest (pcie_completion_cb response d)

unfoldable pub call_back : DmaConfig → ℕ → Status → Driver → Driver
call_back c channel status d = record d {
  called =
      (record {
        callback = c.dma_callback;
        user_data = c.user_data;
        channel = channel;
        status = status;
      })
      ∷ d.called;
}

-- The block after a burst of `bytes`.
abbrev pub advance : DmaEmulConfig → DmaBlockConfig → ℕ → DmaBlockConfig
advance config b bytes = record {
  source_address = (b.source_address + bytes) % 2 ^ config.addr_bits;
  dest_address = (b.dest_address + bytes) % 2 ^ config.addr_bits;
  block_size = b.block_size - bytes;
}

module _ (config : DmaEmulConfig) (pcie : Pcie) where
  pub record System : Type 0 where
    pub place : Place
    pub driver : Driver
    pub world : pcie.World

  -- A burst that is stopped, and one that asks the peer for its bytes.
  unfoldable pub cancel : ℕ → DmaConfig → Driver → Driver
  unfolding call_back
  cancel channel c d = if c.error_callback_en then call_back c channel canceled d else d

  -- One step of the handler, wherever it is. An idle one is started by the queue.
  unfoldable pub step : System → System
  unfolding deliver call_back cancel
  step s = elim s.place [
    | idle ↦ record s { place = next_channel s.driver.work_channel }
    | next_channel channel ↦ record s { place = next_block channel (s.driver.xfer channel) 0 }
    | next_block channel c i ↦
        if ltb i c.block_count
        then record s {
          place =
              next_burst channel c i
                (s.driver.block (channel * config.num_requests + c.dma_slot + i));
        }
        else record {
          place = finished channel c;
          driver = dma_emul_set_channel_state s.driver channel stopped;
          world = s.world;
        }
    | next_burst channel c i b ↦
        (let bytes = minimum b.block_size c.dest_burst_length in
          if bytes == 0
          then record s { place = next_block channel c (i + 1) }
          else if is_stopped (dma_emul_get_channel_state s.driver channel)
          then record s { place = idle; driver = cancel channel c s.driver }
          else record {
            place = waiting channel c i b bytes;
            driver = s.driver;
            world = pcie.warppipe_read 0 b.source_address bytes s.world;
          })
    | waiting channel c i b bytes ↦
        if s.driver.got_result
        then record s {
          place = next_burst channel c i (advance config b bytes);
          driver = record (s.driver) {
            memory = poke s.driver.memory b.dest_address (slice s.driver.result 0 bytes);
            got_result = false;
          };
        }
        else (let (arrived, w) = pcie.warppipe_server_loop s.world in
            record s { driver = deliver arrived s.driver; world = w })
    | finished channel c ↦ record s {
      place = if is_linked c then next_channel c.linked_channel else idle;
      driver = call_back c channel complete s.driver;
    }
  ]

  unfoldable pub run : ℕ → System → System
  unfolding step
  run zero s = s
  run (suc n) s = run n (step s)
