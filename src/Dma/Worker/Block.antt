-- ===== src/Dma/Worker/Block.antt =====
-- A whole block, burst by burst.
use mathlib.Core.Path.{subst}
use warp_pipe.Base.{
  ℕ, suc, zero, ◌+◌, ◌-◌, ◌%◌, ◌^◌, ◌≤◌, ◌<◌, ◌≡◌, inl, inr, refl, ap, sym, ◌∙◌, arith, true, false,
  Bool-cases, Mem, slice, poke, length-slice, ◌==◌,
}
use warp_pipe.Base.Copy.{slice-append, poke-append}
use warp_pipe.Dma.State.{
  is_stopped, DmaBlockConfig, DmaConfig, DmaEmulConfig, Driver, dma_emul_get_channel_state, Pcie,
}
use warp_pipe.Dma.Worker.{next_block, next_burst, minimum, advance}
use native.Mathlib.Nat.{mod-eq_of_lt}
use warp_pipe.Dma.Worker.Burst.{Answers, burst_moved}
use warp_pipe.Dma.Worker.Steps.{at, Reaches, Reaches-trans, one_step, step_empty}

module _ (config : DmaEmulConfig) (pcie : Pcie) (peer : Answers pcie) where
  -- Two chunks one after the other are one.
  chunks :
      (m res : Mem) (src dst by left : ℕ)
      → slice res 0 by ≡ slice peer.bar.memory src by
      → poke (poke m dst (slice res 0 by)) (dst + by) (slice peer.bar.memory (src + by) left)
        ≡ poke m dst (slice peer.bar.memory src (by + left))
  chunks m res src dst by left same =
      rw
        (
          slice-append peer.bar.memory src by left,
          poke-append m dst (slice peer.bar.memory src by) (slice peer.bar.memory (src + by) left),
          length-slice peer.bar.memory src by,
          same,
        )
        refl

  -- What the driver is after a block has been moved; `r` is then in `result`.
  abbrev pub moved : DmaBlockConfig → Mem → Driver → Driver
  moved b r d = record d {
    memory = poke d.memory b.dest_address (slice peer.bar.memory b.source_address b.block_size);
    result = r;
    got_result = false;
  }

  abbrev pub InRange : DmaBlockConfig → Type 0
  InRange b =
      (b.source_address + b.block_size ≤ peer.bar.size)
      × (b.source_address + b.block_size < 2 ^ config.addr_bits)
      × (b.dest_address + b.block_size < 2 ^ config.addr_bits)

  nothing_moved :
      (b : DmaBlockConfig) (d : Driver)
      → b.block_size ≡ 0
      → d.got_result ≡ false
      → moved b d.result d ≡ d
  unfolding slice poke
  nothing_moved b d none quiet = rw (none, quiet) refl

  -- The addresses of the rest of the block have not wrapped around.
  advance_lem :
      (b : DmaBlockConfig) (bytes : ℕ)
      → InRange b
      → bytes ≤ b.block_size
      → ((b.source_address + bytes) % 2 ^ config.addr_bits ≡ b.source_address + bytes)
        × ((b.dest_address + bytes) % 2 ^ config.addr_bits ≡ b.dest_address + bytes)
  advance_lem b bytes range le =
      (mod-eq_of_lt (omega (arith, range)), mod-eq_of_lt (omega (arith, range)))

  -- The rest of the block, after its first burst, completes it.
  moved-advance :
      (b : DmaBlockConfig) (d : Driver) (bytes : ℕ) (r q : Mem)
      → InRange b
      → bytes ≤ b.block_size
      → slice r 0 bytes ≡ slice peer.bar.memory b.source_address bytes
      → moved (advance config b bytes) q (record d {
        memory = poke d.memory b.dest_address (slice r 0 bytes);
        result = r;
        got_result = false;
      })
        ≡ moved b q d
  moved-advance b d bytes r q range le same =
      let (src, dst) = advance_lem b bytes range le in
      let whole : bytes + (b.block_size - bytes) ≡ b.block_size = omega arith in
      ap (λ (m : Mem). record d { memory = m; result = q; got_result = false })
        (rw (src, dst)
            (chunks d.memory r b.source_address b.dest_address bytes (b.block_size - bytes) same)
          ∙ ap (λ (k : ℕ). poke d.memory b.dest_address (slice peer.bar.memory b.source_address k))
              whole)

  -- The handler moves the whole block, from where it looks at its next burst.
  abbrev pub Moves : ℕ → DmaConfig → ℕ → DmaBlockConfig → Driver → pcie.World → Type 0
  Moves channel c i b d w =
      (r : Mem) × (w' : pcie.World) × peer.Ready w'
      × Reaches config pcie (at config pcie (next_burst channel c i b) d w)
          (at config pcie (next_block channel c (i + 1)) (moved b r d) w')

  Moves-empty :
      (channel : ℕ) (c : DmaConfig) (i : ℕ) (b : DmaBlockConfig) (d : Driver) (w : pcie.World)
      → 1 ≤ c.dest_burst_length
      → d.got_result ≡ false
      → peer.Ready w
      → (minimum b.block_size c.dest_burst_length == 0) ≡ true
      → Moves channel c i b d w
  Moves-empty channel c i b d w one quiet ready e = (
    d.result,
    w,
    ready,
    one_step config pcie (
        step_empty config pcie channel c i d w b e
        ∙ ap (λ (x : Driver). at config pcie (next_block channel c (i + 1)) x w)
            (sym (nothing_moved b d (ground (arith, e, one)) quiet))),
  )

  Moves-burst :
      (channel : ℕ) (c : DmaConfig) (i : ℕ) (b : DmaBlockConfig) (d : Driver) (w : pcie.World)
      → InRange b
      → c.dest_burst_length ≤ 4
      → is_stopped (dma_emul_get_channel_state d channel) ≡ false
      → d.got_result ≡ false
      → peer.Ready w
      → (minimum b.block_size c.dest_burst_length == 0) ≡ false
      → ((d' : Driver) (w' : pcie.World)
          → d'.xfer ≡ d.xfer
          → d'.got_result ≡ false
          → peer.Ready w'
          → Moves channel c i (advance config b (minimum b.block_size c.dest_burst_length)) d' w')
      → Moves channel c i b d w
  Moves-burst channel c i b d w range four runs quiet ready e rest =
      let bytes = minimum b.block_size c.dest_burst_length in
      let (r, w₁, ready₁, same, first) =
        burst_moved config pcie peer channel c i b d w bytes refl (ground (arith, e))
          (ground (arith, four)) (ground (arith, range)) runs quiet ready in
      let (q, w₂, ready₂, others) =
        rest
          (record d {
            memory = poke d.memory b.dest_address (slice r 0 bytes);
            result = r;
            got_result = false;
          })
          w₁ refl refl ready₁ in
      (
        q,
        w₂,
        ready₂,
        Reaches-trans config pcie first (
            subst
              (λ (x : Driver).
                Reaches config pcie
                  (at config pcie (next_burst channel c i (advance config b bytes))
                    (record d {
                      memory = poke d.memory b.dest_address (slice r 0 bytes);
                      result = r;
                      got_result = false;
                    })
                    w₁)
                  (at config pcie (next_block channel c (i + 1)) x w₂))
              (moved-advance b d bytes r q range (ground arith) same) others),
      )

  InRange-advance :
      (b : DmaBlockConfig) (bytes : ℕ)
      → InRange b
      → bytes ≤ b.block_size
      → InRange (advance config b bytes)
  InRange-advance b bytes range le =
      let (src, dst) = advance_lem b bytes range le in
      (omega (arith, src, range), omega (arith, src, range), omega (arith, dst, range))

  pub block_moved :
      (m channel : ℕ) (c : DmaConfig) (i : ℕ) (b : DmaBlockConfig) (d : Driver) (w : pcie.World)
      → b.block_size ≤ m
      → InRange b
      → 1 ≤ c.dest_burst_length
      → c.dest_burst_length ≤ 4
      → is_stopped (dma_emul_get_channel_state d channel) ≡ false
      → d.got_result ≡ false
      → peer.Ready w
      → Moves channel c i b d w
  block_moved zero channel c i b d w small range one four runs quiet ready =
      Moves-empty channel c i b d w one quiet ready (ground (arith, small))
  block_moved (suc m) channel c i b d w small range one four runs quiet ready =
      elim (Bool-cases (minimum b.block_size c.dest_burst_length == 0)) [
        | inl e ↦ Moves-empty channel c i b d w one quiet ready e
        | inr e ↦
            Moves-burst channel c i b d w range four runs quiet ready e (λ d' w' kept quiet' ready'.
              block_moved m channel c i
                (advance config b (minimum b.block_size c.dest_burst_length)) d' w'
                (ground (arith, e, small))
                (InRange-advance b (minimum b.block_size c.dest_burst_length) range (ground arith))
                one four (ap (λ (x : ℕ → DmaConfig). is_stopped (x channel).reserved) kept ∙ runs)
                quiet' ready')
      ]
