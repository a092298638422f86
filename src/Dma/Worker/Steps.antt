-- ===== src/Dma/Worker/Steps.antt =====
-- The steps of the work handler at each place, as equations, and how runs are put together.
use warp_pipe.Base.{
  ℕ, suc, zero, ◌+◌, ◌*◌, ◌≡◌, refl, ap, ◌∙◌, arith, true, false, List, Mem, slice, poke, ltb, ◌==◌,
}
use warp_pipe.Dma.State.{
  stopped, is_stopped, DmaBlockConfig, DmaConfig, DmaEmulConfig, Driver, dma_emul_get_channel_state,
  dma_emul_set_channel_state, Pcie,
}
use warp_pipe.Dma.Worker.{
  Place, idle, next_block, next_burst, waiting, finished, minimum, deliver, advance, cancel, System,
  step, run,
}

module _ (config : DmaEmulConfig) (pcie : Pcie) where
  abbrev pub at : Place → Driver → pcie.World → System config pcie
  at place d w = record { place = place; driver = d; world = w }

  pub run-add :
      (a b : ℕ) (s : System config pcie)
      → run config pcie (a + b) s ≡ run config pcie b (run config pcie a s)
  unfolding run
  run-add zero b s = let e : 0 + b ≡ b = omega arith in rw e
  run-add (suc a) b s =
      let e : suc a + b ≡ suc (a + b) = omega arith in
      ap (λ (n : ℕ). run config pcie n s) e ∙ run-add a b (step config pcie s)

  -- The handler gets from one system to another in some number of steps.
  pub record Reaches (s t : System config pcie) : Type 0 where
    pub steps : ℕ
    pub runs : run config pcie steps s ≡ t

  pub stays : (s : System config pcie) → Reaches s s
  unfolding run
  stays s = record { steps = 0; runs = refl }

  pub Reaches-trans : {s t u : System config pcie} → Reaches s t → Reaches t u → Reaches s u
  Reaches-trans {s} {t} {u} p q = record {
    steps = p.steps + q.steps;
    runs = run-add p.steps q.steps s ∙ ap (run config pcie q.steps) p.runs ∙ q.runs;
  }

  pub Reaches-path : {s t : System config pcie} → s ≡ t → Reaches s t
  unfolding run
  Reaches-path e = record { steps = 0; runs = e }

  pub one_step : {s t : System config pcie} → step config pcie s ≡ t → Reaches s t
  unfolding run
  one_step e = record { steps = 1; runs = e }

  module _ (channel : ℕ) (c : DmaConfig) (i : ℕ) (d : Driver) (w : pcie.World) where
    pub step_blocks :
        ltb i c.block_count ≡ true
        → step config pcie (at (next_block channel c i) d w)
          ≡ at
              (next_burst channel c i (d.block (channel * config.num_requests + c.dma_slot + i)))
              d
              w
    unfolding step
    step_blocks e = rw e refl

    pub step_end :
        ltb i c.block_count ≡ false
        → step config pcie (at (next_block channel c i) d w)
          ≡ at (finished channel c) (dma_emul_set_channel_state d channel stopped) w
    unfolding step
    step_end e = rw e refl

    module _ (b : DmaBlockConfig) where
      pub step_empty :
          (minimum b.block_size c.dest_burst_length == 0) ≡ true
          → step config pcie (at (next_burst channel c i b) d w)
            ≡ at (next_block channel c (i + 1)) d w
      unfolding step
      step_empty e = rw e refl

      pub step-cancel :
          (minimum b.block_size c.dest_burst_length == 0) ≡ false
          → is_stopped (dma_emul_get_channel_state d channel) ≡ true
          → step config pcie (at (next_burst channel c i b) d w)
            ≡ at idle (cancel config pcie channel c d) w
      unfolding step
      step-cancel e f = simp (e, f)

      pub step_ask :
          (minimum b.block_size c.dest_burst_length == 0) ≡ false
          → is_stopped (dma_emul_get_channel_state d channel) ≡ false
          → step config pcie (at (next_burst channel c i b) d w)
            ≡ at
                (waiting channel c i b (minimum b.block_size c.dest_burst_length))
                d
                (pcie.warppipe_read 0 b.source_address (minimum b.block_size c.dest_burst_length) w)
      unfolding step
      step_ask e f = simp (e, f)

      pub step_loop :
          (bytes : ℕ) (arrived : List Mem) (w' : pcie.World)
          → d.got_result ≡ false
          → pcie.warppipe_server_loop w ≡ (arrived, w')
          → step config pcie (at (waiting channel c i b bytes) d w)
            ≡ at (waiting channel c i b bytes) (deliver arrived d) w'
      unfolding step
      step_loop bytes arrived w' e f = simp (e, f)

      pub step_take :
          (bytes : ℕ)
          → d.got_result ≡ true
          → step config pcie (at (waiting channel c i b bytes) d w)
            ≡ at
                (next_burst channel c i (advance config b bytes))
                (record d {
                  memory = poke d.memory b.dest_address (slice d.result 0 bytes);
                  got_result = false;
                })
                w
      unfolding step
      step_take bytes e = simp e
