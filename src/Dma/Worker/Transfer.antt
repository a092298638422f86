-- ===== src/Dma/Worker/Transfer.antt =====
-- A whole run of the work handler, and a transfer from its configuration to its callback.
use mathlib.Core.Path.{subst}
use warp_pipe.Base.{
  ℕ, suc, zero, ◌+◌, ◌*◌, ◌≤◌, ◌≡◌, refl, ap, sym, ◌∙◌, arith, false, Bool, List, [], ◌∷◌, Mem,
  entries, slice, poke, if◌then◌else◌,
}
use warp_pipe.Dma.State.{
  stopped, is_stopped, DmaBlockConfig, DmaConfig, DmaEmulConfig, Driver, complete,
  dma_emul_get_channel_state, dma_emul_set_channel_state, is_linked, Pcie,
}
use warp_pipe.Dma.Config.{first_slot}
use warp_pipe.Dma.Worker.{idle, next_channel, next_block, next_burst, finished, call_back, step}
use warp_pipe.Dma.Worker.Steps.{at, Reaches, Reaches-trans, one_step, step_blocks, step_end}
use warp_pipe.Dma.Worker.Burst.{Answers}
use warp_pipe.Dma.Worker.Block.{InRange, moved, block_moved}

-- The blocks one after the other, each read from `remote` and written to `memory`.
abbrev pub copied_blocks : Mem → List DmaBlockConfig → Mem → Mem
copied_blocks remote [] memory = memory
copied_blocks remote (b ∷ blocks) memory =
    copied_blocks remote blocks
      (poke memory b.dest_address (slice remote b.source_address b.block_size))

module _ (config : DmaEmulConfig) (pcie : Pcie) (peer : Answers pcie) where
  abbrev pub AreInRange : List DmaBlockConfig → Type 0
  AreInRange [] = Unit {0}
  AreInRange (b ∷ blocks) = InRange config pcie peer b × AreInRange blocks

  -- The driver when the blocks are there; `r` is then in `result`.
  abbrev pub done : List DmaBlockConfig → Mem → Driver → Driver
  done blocks r d = record d {
    memory = copied_blocks peer.bar.memory blocks d.memory;
    result = r;
    got_result = false;
  }

  module _ (channel : ℕ) (c : DmaConfig) (one : 1 ≤ c.dest_burst_length)
      (four : c.dest_burst_length ≤ 4) where
    abbrev base : ℕ
    base = channel * config.num_requests + c.dma_slot

    -- The handler reaches the end of the blocks from a round of the loop on.
    abbrev Finishes : ℕ → List DmaBlockConfig → Driver → pcie.World → Type 0
    Finishes i blocks d w =
        (r : Mem) × (w' : pcie.World) × peer.Ready w'
        × Reaches config pcie (at config pcie (next_block channel c i) d w) (
            at config pcie (finished channel c)
              (dma_emul_set_channel_state (done blocks r d) channel stopped) w')

    pub blocks_moved :
        (n i k : ℕ) (d : Driver) (w : pcie.World)
        → i + n ≡ c.block_count
        → base + i ≡ k
        → AreInRange (entries d.block k n)
        → is_stopped (dma_emul_get_channel_state d channel) ≡ false
        → d.got_result ≡ false
        → peer.Ready w
        → Finishes i (entries d.block k n) d w
    blocks_moved zero i k d w count here range runs quiet ready = (
      d.result,
      w,
      ready,
      one_step config pcie (
          step_end config pcie channel c i d w (ground (arith, count))
          ∙ ap
              (λ (g : Bool).
                at config pcie (finished channel c)
                  (dma_emul_set_channel_state (record d { got_result = g }) channel stopped) w)
              quiet),
    )
    blocks_moved (suc n) i k d w count here range runs quiet ready =
        let b = d.block k in
        let (r, w₁, ready₁, first) =
          block_moved config pcie peer b.block_size channel c i b d w (omega arith) range.0 one four
            runs quiet ready in
        let (q, w₂, ready₂, others) =
          blocks_moved n (i + 1) (k + 1) (moved config pcie peer b r d) w₁ (omega (arith, count))
            (omega (arith, here)) range.1 runs refl ready₁ in
        (
          q,
          w₂,
          ready₂,
          Reaches-trans config pcie
              (one_step config pcie (
                step_blocks config pcie channel c i d w (ground (arith, count))
                ∙ ap (λ (j : ℕ). at config pcie (next_burst channel c i (d.block j)) d w) here))
              (Reaches-trans config pcie first others),
        )

  -- The handler from the top of its loop, on a channel with the configuration `c` that is not
  -- stopped, with bursts of 1 to 4 bytes and all blocks in range: it ends the loop's round in
  -- finitely many steps.
  pub channel_moved :
      (channel : ℕ) (c : DmaConfig) (blocks : List DmaBlockConfig) (d : Driver) (w : pcie.World)
      → d.xfer channel ≡ c
      → entries d.block (first_slot config channel c) c.block_count ≡ blocks
      → 1 ≤ c.dest_burst_length
      → c.dest_burst_length ≤ 4
      → AreInRange blocks
      → is_stopped c.reserved ≡ false
      → d.got_result ≡ false
      → peer.Ready w
      → (r : Mem) × (w' : pcie.World) × peer.Ready w'
        × Reaches config pcie (at config pcie (next_channel channel) d w) (
            at config pcie
              (if is_linked c then next_channel c.linked_channel else idle)
              (call_back c channel complete
                (dma_emul_set_channel_state (done blocks r d) channel stopped))
              w')
  unfolding step
  channel_moved channel c blocks d w has same one four range runs quiet ready =
      let (r, w', ready', moves) =
        blocks_moved channel c one four c.block_count 0 (first_slot config channel c) d w
          (omega arith) (omega arith) (subst AreInRange (sym same) range)
          (ap (λ (x : DmaConfig). is_stopped x.reserved) has ∙ runs) quiet ready in
      (
        r,
        w',
        ready',
        Reaches-trans config pcie
            (one_step config pcie
              (ap (λ (x : DmaConfig). at config pcie (next_block channel x 0) d w) has))
            (Reaches-trans config pcie moves (
              one_step config pcie (
                ap
                  (λ (bs : List DmaBlockConfig).
                    at config pcie (if is_linked c then next_channel c.linked_channel else idle)
                      (call_back c channel complete
                        (dma_emul_set_channel_state (done bs r d) channel stopped))
                      w')
                  same))),
      )
