-- ===== src/Dma/Whole.antt =====
-- A transfer from its configuration to its callback: `dma_emul_configure`, `dma_emul_start` and the
-- work handler, one after the other.
use warp_pipe.Base.{
  ℕ, suc, ◌≤◌, ◌<◌, ◌≡◌, ◌⊎◌, refl, ap, ◌∙◌, arith, true, false, Bool, some, List, ◌∷◌, length,
  take, entries-take, update_at, leb, if◌then◌else◌, ℤ, pos,
}
use warp_pipe.Dma.State.{
  ChannelState, unused, loaded, started, stopped, DmaConfig, DmaEmulConfig, Driver, success,
  CallbackCall, complete, dma_emul_set_channel_state, is_linked, Pcie,
}
use warp_pipe.Dma.Config.{first_slot, dma_emul_configure, load}
use warp_pipe.Dma.Config.Valid.{IsConfigValid, IsConfigValid-iff}
use warp_pipe.Dma.Config.Slots.{free, IsLoaded, load-IsLoaded}
use warp_pipe.Dma.Start.{submitted, start_work, start_in, dma_emul_start}
use warp_pipe.Dma.Start.Chain.{ends}
use warp_pipe.Dma.Worker.{idle, next_channel, call_back, step, run}
use warp_pipe.Dma.Worker.Steps.{at, Reaches-trans, one_step, Reaches-path}
use warp_pipe.Dma.Worker.Burst.{Answers}
use warp_pipe.Dma.Worker.Transfer.{copied_blocks, AreInRange, done, channel_moved}

module _ (config : DmaEmulConfig) (pcie : Pcie) where
  -- A loaded channel without a link is started in one round.
  abbrev pub started_on : Driver → ℕ → Driver
  started_on d channel =
      dma_emul_set_channel_state (record d { work_channel = channel }) channel started

  work_starts :
      (rounds : ℕ) (d : Driver) (w : pcie.World) (channel : ℕ)
      → is_linked (d.xfer channel) ≡ false
      → start_work config pcie (suc rounds) d w channel ≡ (
          let (ret, w') = pcie.k_work_submit_to_queue w in
          some (submitted ret, started_on d channel, w'))
  unfolding start_work
  work_starts rounds d w channel alone =
      let round = ends rounds (record d { work_channel = channel }) channel alone in
      rw (round, start_work) refl

  pub start_loaded :
      (rounds : ℕ) (d : Driver) (w : pcie.World) (channel : ℕ)
      → channel < config.num_channels
      → (d.xfer channel).reserved ≡ loaded
      → is_linked (d.xfer channel) ≡ false
      → (pcie.warppipe_server_create w).0 ≡ true
      → dma_emul_start config pcie (suc rounds) d w channel ≡ (
          let (ret, w') =
            pcie.k_work_submit_to_queue (pcie.enumerate (pcie.warppipe_server_create w).1) in
          some (submitted ret, started_on d channel, w'))
  unfolding dma_emul_start start_in
  start_loaded rounds d w channel there is_loaded alone created =
      let inside : leb config.num_channels channel ≡ false = ground (arith, there) in
      let w' = pcie.enumerate (pcie.warppipe_server_create w).1 in
      rw (inside, created)
        (ap (λ (st : ChannelState). start_in config pcie st (suc rounds) d w' channel) is_loaded
          ∙ work_starts rounds d w' channel alone)

  module _ (peer : Answers pcie) where
    -- The run of the handler on a channel that has just been loaded and started.
    loaded_moved :
        (d : Driver) (channel : ℕ) (c : DmaConfig) (d₁ : Driver) (w : pcie.World)
        → IsLoaded config d channel c d₁
        → d₁.memory ≡ d.memory
        → d₁.called ≡ d.called
        → d₁.got_result ≡ false
        → c.block_count ≤ length c.head_block
        → is_linked c ≡ false
        → 1 ≤ c.dest_burst_length
        → c.dest_burst_length ≤ 4
        → AreInRange config pcie peer (take c.block_count c.head_block)
        → peer.Ready w
        → (n : ℕ) × (e : Driver) × (w' : pcie.World) × (run config pcie n
              (at config pcie idle (started_on d₁ channel) w)
            ≡ at config pcie idle e w')
          × (e.memory ≡ copied_blocks peer.bar.memory (take c.block_count c.head_block) d.memory)
          × ((e.xfer channel).reserved ≡ stopped)
          × (e.called
              ≡ (record {
                callback = c.dma_callback;
                user_data = c.user_data;
                channel = channel;
                status = complete;
              })
                ∷ d.called)
    unfolding step call_back
    loaded_moved d channel c d₁ w (has, others, slots, rest) memory called quiet there alone one
          four range ready =
        let d₂ = started_on d₁ channel in
        let now : d₂.xfer channel ≡ record c { reserved = started } =
          update_at d₁.xfer channel (record (d₁.xfer channel) { reserved = started })
          ∙ ap (λ (x : DmaConfig). record x { reserved = started }) has in
        let (r, w', ready', moves) =
          channel_moved config pcie peer channel (record c { reserved = started })
            (take c.block_count c.head_block) d₂ w now
            (entries-take d₁.block (first_slot config channel c) c.block_count c.head_block there
              slots)
            one four range refl quiet ready in
        let f = done config pcie peer (take c.block_count c.head_block) r d₂ in
        let e =
          call_back (record c { reserved = started }) channel complete
            (dma_emul_set_channel_state f channel stopped) in
        let whole = Reaches-trans config pcie (one_step config pcie refl) (
          Reaches-trans config pcie moves (
            Reaches-path config pcie (
              ap
                (λ (b : Bool).
                  at config pcie (if b then next_channel c.linked_channel else idle) e w')
                alone))) in
        (
          whole.steps,
          e,
          w',
          whole.runs,
          ap (copied_blocks peer.bar.memory (take c.block_count c.head_block)) memory,
          ap (λ (x : DmaConfig). x.reserved)
              (update_at f.xfer channel (record (f.xfer channel) { reserved = stopped })),
          ap
              (λ (l : List CallbackCall).
                record {
                  callback = c.dma_callback;
                  user_data = c.user_data;
                  channel = channel;
                  status = complete;
                }
                ∷ l)
              called,
        )

-- The configuration is taken, the start returns 0, and the handler's steps end: the blocks are copied
-- in their order, the channel is stopped, and the callback has been called once, as complete.
abbrev pub Transfers :
    (config : DmaEmulConfig) (pcie : Pcie)
    → Answers pcie
    → ℕ
    → Driver
    → pcie.World
    → ℕ
    → DmaConfig
    → Type 0
Transfers config pcie peer rounds d w channel c =
    (d₁ : Driver) × (d₂ : Driver) × (e : Driver) × (w₂ : pcie.World) × (w' : pcie.World) × (n : ℕ)
    × (dma_emul_configure config d channel c ≡ (success, d₁))
    × (dma_emul_start config pcie (suc rounds) d₁ w channel ≡ some (success, d₂, w₂))
    × (run config pcie n (at config pcie idle d₂ w₂) ≡ at config pcie idle e w')
    × (e.memory ≡ copied_blocks peer.bar.memory (take c.block_count c.head_block) d.memory)
    × ((e.xfer channel).reserved ≡ stopped)
    × (e.called
        ≡ (record {
          callback = c.dma_callback;
          user_data = c.user_data;
          channel = channel;
          status = complete;
        })
          ∷ d.called)

-- A whole transfer. A valid configuration without links, with bursts of 1 to 4 bytes and with
-- addresses that do not wrap around, for a channel that is unused or stopped, is taken; if the server
-- can be created and the work queued, `dma_emul_start` then returns 0 in any positive number of
-- rounds; and if the peer answers reads of its BAR 0, in which the sources of the blocks lie, and
-- nothing else runs, the handler comes to its end in a finite
-- number of steps: the blocks have been copied in their order, the channel is stopped, and the
-- callback has been called once, with DMA_STATUS_COMPLETE.
pub transfer_done :
    (config : DmaEmulConfig) (pcie : Pcie) (peer : Answers pcie) (rounds : ℕ) (d : Driver)
    (w : pcie.World) (channel : ℕ) (c : DmaConfig) (queued : ℕ)
    → IsConfigValid config channel c
    → ((d.xfer channel).reserved ≡ unused) ⊎ ((d.xfer channel).reserved ≡ stopped)
    → is_linked c ≡ false
    → 1 ≤ c.dest_burst_length
    → c.dest_burst_length ≤ 4
    → AreInRange config pcie peer (take c.block_count c.head_block)
    → d.got_result ≡ false
    → (pcie.warppipe_server_create w).0 ≡ true
    → (pcie.k_work_submit_to_queue (pcie.enumerate (pcie.warppipe_server_create w).1)).0
      ≡ pos queued
    → peer.Ready (pcie.k_work_submit_to_queue (pcie.enumerate (pcie.warppipe_server_create w).1)).1
    → Transfers config pcie peer rounds d w channel c
unfolding load
transfer_done config pcie peer rounds d w channel c queued valid ready_state alone one four range
      quiet created is_queued ready =
    let d₁ = load config d channel c in
    let is_load = load-IsLoaded config d channel c valid.3 in
    let w₂ = (pcie.k_work_submit_to_queue (pcie.enumerate (pcie.warppipe_server_create w).1)).1 in
    let (n, e, w', runs, copied, now, called) =
      loaded_moved config pcie peer d channel c d₁ w₂ is_load refl refl quiet valid.3 alone one four
        range ready in
    (
      d₁,
      started_on config pcie d₁ channel,
      e,
      w₂,
      w',
      n,
      free config d channel c ((IsConfigValid-iff config channel c).1 valid) ready_state,
      start_loaded config pcie rounds d₁ w channel valid.1
            (ap (λ (x : DmaConfig). x.reserved) is_load.0) (ap is_linked is_load.0 ∙ alone) created
          ∙ ap (λ (ret : ℤ). some (submitted ret, started_on config pcie d₁ channel, w₂)) is_queued,
      runs,
      copied,
      now,
      called,
    )
