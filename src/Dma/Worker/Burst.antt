-- ===== src/Dma/Worker/Burst.antt =====
-- The bursts of one block, when the peer answers.
use warp_pipe.Base.{
  ℕ, suc, zero, ◌≤◌, ◌≡◌, refl, ap, ◌∙◌, arith, true, false, [], ◌∷◌, Mem, slice, poke, slice_ext,
  ◌+◌, pos,
}
use warp_pipe.Base.Copy.{poke-slice}
use warp_pipe.MemoryMock.{BarConfig, copied, read_bar}
use warp_pipe.MemoryMock.Transfers.{read_bar_lem}
use warp_pipe.Dma.State.{
  is_stopped, DmaBlockConfig, DmaConfig, DmaEmulConfig, Driver, dma_emul_get_channel_state, Pcie,
}
use warp_pipe.Dma.Worker.{next_burst, waiting, minimum, pcie_completion_cb, deliver, advance}
use warp_pipe.Dma.Worker.Steps.{
  at, Reaches, Reaches-trans, one_step, step_ask, step_loop, step_take,
}

-- After `n` rounds of the server's loop without a completion, one round has a single one.
abbrev pub Arrives : (pcie : Pcie) → ℕ → pcie.World → Mem → pcie.World → Type 0
Arrives pcie zero w payload w' = pcie.warppipe_server_loop w ≡ (payload ∷ [], w')
Arrives pcie (suc n) w payload w' =
    (next : pcie.World) × (pcie.warppipe_server_loop w ≡ ([], next))
    × Arrives pcie n next payload w'

-- A peer whose BAR 0 is one of the memory mock: it answers each read of 1 to 4 bytes that lies within
-- it, in finite time, with what `read_bar` gives.
pub record Answers (pcie : Pcie) : Type 1 where
  pub bar : BarConfig
  pub Ready : pcie.World → Type 0
  pub answers :
      (addr len : ℕ) (w : pcie.World)
      → Ready w
      → 1 ≤ len
      → len ≤ 4
      → addr + len ≤ bar.size
      → (n : ℕ) × (payload : Mem) × (w' : pcie.World) × Arrives pcie n
          (pcie.warppipe_read 0 addr len w)
          payload
          w'
        × Ready w'
        × (read_bar bar addr (pos len) ≡ copied (slice payload 0 len))

module _ (config : DmaEmulConfig) (pcie : Pcie) (peer : Answers pcie) where
  abbrev delivered : Mem → Driver → Driver
  delivered payload d = record d { result = poke d.result 0 (slice payload 0 4); got_result = true }

  wait :
      (n : ℕ) (channel : ℕ) (c : DmaConfig) (i : ℕ) (b : DmaBlockConfig) (bytes : ℕ) (d : Driver)
      (w : pcie.World) (payload : Mem) (w' : pcie.World)
      → d.got_result ≡ false
      → Arrives pcie n w payload w'
      → Reaches config pcie
          (at config pcie (waiting channel c i b bytes) d w)
          (at config pcie (waiting channel c i b bytes) (delivered payload d) w')
  unfolding deliver pcie_completion_cb
  wait zero channel c i b bytes d w payload w' quiet e =
      one_step config pcie (step_loop config pcie channel c i d w b bytes (payload ∷ []) w' quiet e)
  wait (suc n) channel c i b bytes d w payload w' quiet (next, e, later) =
      Reaches-trans config pcie
        (one_step config pcie (step_loop config pcie channel c i d w b bytes [] next quiet e))
        (wait n channel c i b bytes d next payload w' quiet later)

  result_bytes :
      (r payload : Mem) (bytes : ℕ)
      → bytes ≤ 4
      → slice (poke r 0 (slice payload 0 4)) 0 bytes ≡ slice payload 0 bytes
  result_bytes r payload bytes few =
      slice_ext _ payload 0 bytes (λ k lo hi. poke-slice r payload 0 4 k lo (omega arith))

  -- A block of at least a burst: the peer is asked, answers, and the bytes are written.
  pub burst_moved :
      (channel : ℕ) (c : DmaConfig) (i : ℕ) (b : DmaBlockConfig) (d : Driver) (w : pcie.World)
      (bytes : ℕ)
      → minimum b.block_size c.dest_burst_length ≡ bytes
      → 1 ≤ bytes
      → bytes ≤ 4
      → b.source_address + bytes ≤ peer.bar.size
      → is_stopped (dma_emul_get_channel_state d channel) ≡ false
      → d.got_result ≡ false
      → peer.Ready w
      → (r : Mem) × (w' : pcie.World) × peer.Ready w'
        × (slice r 0 bytes ≡ slice peer.bar.memory b.source_address bytes)
        × Reaches config pcie (at config pcie (next_burst channel c i b) d w) (
            at config pcie
              (next_burst channel c i (advance config b bytes))
              (record d {
                memory = poke d.memory b.dest_address (slice r 0 bytes);
                result = r;
                got_result = false;
              })
              w')
  burst_moved channel c i b d w bytes e one four fits runs quiet ready =
      let (n, payload, w', arrives, ready', same) =
        peer.answers b.source_address bytes w ready one four fits in
      (
        poke d.result 0 (slice payload 0 4),
        w',
        ready',
        result_bytes d.result payload bytes four
            ∙ read_bar_lem peer.bar b.source_address bytes (slice payload 0 bytes) fits same,
        Reaches-trans config pcie
            (one_step config pcie (
              step_ask config pcie channel c i d w b (ground (arith, e, one)) runs
              ∙ ap
                  (λ (k : ℕ).
                    at config pcie (waiting channel c i b k) d
                      (pcie.warppipe_read 0 b.source_address k w))
                  e))
            (Reaches-trans config pcie
              (wait n channel c i b bytes d (pcie.warppipe_read 0 b.source_address bytes w) payload
                w' quiet arrives)
              (one_step config pcie
                (step_take config pcie channel c i (delivered payload d) w' b bytes refl))),
      )
