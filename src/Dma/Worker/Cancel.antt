-- ===== src/Dma/Worker/Cancel.antt =====
-- What the work handler does with a channel that has been stopped.
use warp_pipe.Base.{
  ℕ, suc, zero, ◌+◌, ◌*◌, ◌≤◌, ◌<◌, ◌≡◌, ◌⊎◌, inl, inr, refl, ap, ◌∙◌, arith, true, Bool-cases,
  List, [], ◌∷◌, entries, ◌==◌, if◌then◌else◌,
}
use warp_pipe.Dma.State.{
  stopped, is_stopped, DmaBlockConfig, DmaConfig, DmaEmulConfig, Driver, dma_emul_get_channel_state,
  dma_emul_set_channel_state, Pcie, canceled,
}
use warp_pipe.Dma.Worker.{idle, next_block, next_burst, finished, minimum, call_back, cancel}
use warp_pipe.Dma.Worker.Steps.{
  at, Reaches, Reaches-trans, one_step, step_blocks, step_end, step_empty, step-cancel,
}

-- No block has data, or one has.
abbrev pub AreEmpty : List DmaBlockConfig → Type 0
AreEmpty [] = Unit {0}
AreEmpty (b ∷ blocks) = (b.block_size ≡ 0) × AreEmpty blocks

abbrev pub HasData : List DmaBlockConfig → Type 0
HasData [] = ⊥
HasData (b ∷ blocks) = (0 < b.block_size) ⊎ HasData blocks

module _ (config : DmaEmulConfig) (pcie : Pcie) (channel : ℕ) (c : DmaConfig) (d : Driver)
    (w : pcie.World) where
  abbrev pub base : ℕ
  base = channel * config.num_requests + c.dma_slot

  -- The driver as it is, but for a call of the channel's callback with -ECANCELED, if it wants those.
  abbrev pub told : Driver
  told = record d {
    called =
        if c.error_callback_en
        then record {
          callback = c.dma_callback;
          user_data = c.user_data;
          channel = channel;
          status = canceled;
        }
          ∷ d.called
        else d.called;
  }

  cancel-told : cancel config pcie channel c d ≡ told
  unfolding cancel call_back
  cancel-told = elim (Bool-cases c.error_callback_en) [ inl e ↦ rw e refl | inr e ↦ rw e refl ]

  abbrev pub Ends : ℕ → List DmaBlockConfig → Type 0
  Ends i blocks =
      (HasData blocks
        × Reaches config pcie (at config pcie (next_block channel c i) d w)
            (at config pcie idle told w))
      ⊎ (AreEmpty blocks
          × Reaches config pcie (at config pcie (next_block channel c i) d w) (
              at config pcie (finished channel c) (dma_emul_set_channel_state d channel stopped) w))

  blocks_end :
      (n i k : ℕ)
      → i + n ≡ c.block_count
      → base + i ≡ k
      → 1 ≤ c.dest_burst_length
      → is_stopped (dma_emul_get_channel_state d channel) ≡ true
      → Ends i (entries d.block k n)
  blocks_end zero i k count here one is_stop =
      inr (tt, one_step config pcie (step_end config pcie channel c i d w (ground (arith, count))))
  blocks_end (suc n) i k count here one is_stop =
      let b = d.block k in
      let looks : Reaches config pcie (at config pcie (next_block channel c i) d w)
          (at config pcie (next_burst channel c i b) d w) =
        one_step config pcie (
          step_blocks config pcie channel c i d w (ground (arith, count))
          ∙ ap (λ (j : ℕ). at config pcie (next_burst channel c i (d.block j)) d w) here) in
      elim (Bool-cases (minimum b.block_size c.dest_burst_length == 0)) [
        | inr e ↦ inl (
          inl (ground (arith, e)),
          Reaches-trans config pcie looks (
              one_step config pcie (
                step-cancel config pcie channel c i d w b e is_stop
                ∙ ap (λ (x : Driver). at config pcie idle x w) cancel-told)),
        )
        | inl e ↦
            let skips =
              Reaches-trans config pcie looks
                (one_step config pcie (step_empty config pcie channel c i d w b e)) in
            elim (blocks_end n (i + 1) (k + 1) (omega (arith, count)) (omega (arith, here)) one
              is_stop) [
                | inl (has, moves) ↦ inl (inr has, Reaches-trans config pcie skips moves)
                | inr (none, moves) ↦
                    inr ((ground (arith, e, one), none), Reaches-trans config pcie skips moves)
              ]
      ]

-- A stopped channel. Where the handler takes up block `i` of a channel that is stopped by then, with
-- a positive burst length, it comes to its end in finitely many steps, if nothing else runs. If a
-- block that is left has data, it gives up: it is then idle, and nothing of the driver is changed but
-- that the callback has been called once, with -ECANCELED, if `error_callback_en` is set, and not at
-- all if it is not. If no block that is left has data, it goes to the end of a whole transfer.
pub stopped-Ends :
    (config : DmaEmulConfig) (pcie : Pcie) (channel : ℕ) (c : DmaConfig) (d : Driver)
    (w : pcie.World) (i n : ℕ)
    → i + n ≡ c.block_count
    → 1 ≤ c.dest_burst_length
    → is_stopped (dma_emul_get_channel_state d channel) ≡ true
    → Ends config pcie channel c d w i (entries d.block (base config pcie channel c d w + i) n)
stopped-Ends config pcie channel c d w i n count one is_stop =
    blocks_end config pcie channel c d w n i (base config pcie channel c d w + i) count refl one
      is_stop
