-- ===== src/Dma/Runs/Invariant.antt =====
-- What holds in every order of the steps.
use mathlib.Core.Path.{subst}
use warp_pipe.Base.{
  ℕ, ◌≡◌, inl, inr, refl, ap, sym, arith, true, false, Bool, Bool-cases, List, [], ◌∷◌, Mem,
  update_at, update_apart, ltb, ◌==◌, if◌then◌else◌,
}
use warp_pipe.Dma.State.{
  ChannelState, started, stopped, is_stopped, DmaConfig, DmaEmulConfig, Driver, Result,
  dma_emul_get_channel_state, dma_emul_set_channel_state, is_linked, Pcie,
}
use warp_pipe.Dma.Config.{dma_emul_configure, dma_emul_stop}
use warp_pipe.Dma.Config.Slots.{configure_outcome}
use warp_pipe.Dma.Start.Chain.{start_all}
use warp_pipe.Dma.Start.Outcome.{StartsTo, start_outcome}
use warp_pipe.Dma.Worker.{
  Place, idle, next_channel, next_block, next_burst, waiting, finished, minimum, pcie_completion_cb,
  deliver, call_back, cancel, System, step,
}
use warp_pipe.Dma.Worker.Steps.{
  at, step_blocks, step_end, step_empty, step-cancel, step_ask, step_loop, step_take,
}
use warp_pipe.Dma.Runs.{
  Step, works, configures, starts, stops, outside, Reach, here, next, IsUsable, IsPlaced, IsSound,
}

module _ (config : DmaEmulConfig) (pcie : Pcie) where
  -- The state of a channel has no part in it.
  set-IsUsable :
      (d : Driver) (channel : ℕ) (state : ChannelState)
      → ((j : ℕ) → IsUsable config pcie (d.xfer j))
      → (j : ℕ) → IsUsable config pcie ((dma_emul_set_channel_state d channel state).xfer j)
  set-IsUsable d channel state h j = elim (Bool-cases (j == channel)) [
    | inl e ↦
        let same : j ≡ channel = ground (arith, e) in
        rw same
          (rw (update_at d.xfer channel (record (d.xfer channel) { reserved = state })) (h channel))
    | inr e ↦
        rw
          (update_apart d.xfer channel j (record (d.xfer channel) { reserved = state })
            (ground (arith, e)))
          (h j)
  ]

  start_all-IsUsable :
      (channels : List ℕ) (d : Driver)
      → ((j : ℕ) → IsUsable config pcie (d.xfer j))
      → (j : ℕ) → IsUsable config pcie ((start_all d channels).xfer j)
  start_all-IsUsable [] d h = h
  start_all-IsUsable (channel ∷ channels) d h =
      start_all-IsUsable channels (dma_emul_set_channel_state d channel started)
        (set-IsUsable d channel started h)

  deliver-xfer : (arrived : List Mem) (d : Driver) → (deliver arrived d).xfer ≡ d.xfer
  unfolding deliver
  deliver-xfer [] d = refl
  deliver-xfer (response ∷ rest) d = deliver-xfer rest (pcie_completion_cb response d)

  cancel-xfer :
      (channel : ℕ) (c : DmaConfig) (d : Driver) → (cancel config pcie channel c d).xfer ≡ d.xfer
  unfolding cancel call_back
  cancel-xfer channel c d = elim (Bool-cases c.error_callback_en) [
    | inl e ↦ rw (e, cancel) refl
    | inr e ↦ rw (e, cancel) refl
  ]

  kept :
      (f g : ℕ → DmaConfig)
      → g ≡ f
      → ((j : ℕ) → IsUsable config pcie (f j))
      → (j : ℕ) → IsUsable config pcie (g j)
  kept f g e h = subst (λ (k : ℕ → DmaConfig). (j : ℕ) → IsUsable config pcie (k j)) (sym e) h

  after : (b : Bool) (linked : ℕ) → IsPlaced config pcie (if b then next_channel linked else idle)
  after true linked = tt
  after false linked = tt

  step-IsSound :
      (p : Place) (d : Driver) (w : pcie.World)
      → IsSound config pcie (at config pcie p d w)
      → IsSound config pcie (step config pcie (at config pcie p d w))
  unfolding step call_back
  step-IsSound idle d w (usable, _) = (usable, tt)
  step-IsSound (next_channel channel) d w (usable, _) = (usable, (usable channel, omega arith))
  step-IsSound (next_block channel c i) d w (usable, (c_usable, le)) =
      elim (Bool-cases (ltb i c.block_count)) [
        | inl e ↦
            subst (IsSound config pcie) (sym (step_blocks config pcie channel c i d w e))
              (usable, (c_usable, ground (arith, e)))
        | inr e ↦
            subst (IsSound config pcie) (sym (step_end config pcie channel c i d w e))
              (set-IsUsable d channel stopped usable, c_usable)
      ]
  step-IsSound (next_burst channel c i b) d w (usable, (c_usable, lt)) =
      elim (Bool-cases (minimum b.block_size c.dest_burst_length == 0)) [
        | inl e ↦
            subst (IsSound config pcie) (sym (step_empty config pcie channel c i d w b e))
              (usable, (c_usable, omega (arith, lt)))
        | inr e ↦ elim (Bool-cases (is_stopped (dma_emul_get_channel_state d channel))) [
          | inl f ↦
              subst (IsSound config pcie) (sym (step-cancel config pcie channel c i d w b e f)) (
                kept d.xfer (cancel config pcie channel c d).xfer (cancel-xfer channel c d) usable,
                tt,
              )
          | inr f ↦
              subst (IsSound config pcie) (sym (step_ask config pcie channel c i d w b e f))
                (usable, (c_usable, lt, ground (arith, e), ground arith, ground arith))
        ]
      ]
  step-IsSound (waiting channel c i b bytes) d w (usable, (c_usable, lt, some_bytes, left, burst)) =
      elim (Bool-cases d.got_result) [
        | inl e ↦
            subst (IsSound config pcie) (sym (step_take config pcie channel c i d w b bytes e))
              (usable, (c_usable, lt))
        | inr e ↦
            subst (IsSound config pcie)
              (sym (
                step_loop config pcie channel c i d w b bytes (pcie.warppipe_server_loop w).0
                  (pcie.warppipe_server_loop w).1 e refl))
              (
                kept d.xfer (deliver (pcie.warppipe_server_loop w).0 d).xfer
                    (deliver-xfer (pcie.warppipe_server_loop w).0 d) usable,
                (c_usable, lt, some_bytes, left, burst),
              )
      ]
  step-IsSound (finished channel c) d w (usable, c_usable) =
      (usable, after (is_linked c) c.linked_channel)

  configure-IsUsable :
      (d : Driver) (channel : ℕ) (c : DmaConfig)
      → ((j : ℕ) → IsUsable config pcie (d.xfer j))
      → (j : ℕ) → IsUsable config pcie ((dma_emul_configure config d channel c).1.xfer j)
  configure-IsUsable d channel c h = elim (configure_outcome config d channel c) [
    | inl (bad, e) ↦ kept d.xfer _ (ap (λ (r : Result × Driver). r.1.xfer) e) h
    | inr (inl (valid, used, e)) ↦ kept d.xfer _ (ap (λ (r : Result × Driver). r.1.xfer) e) h
    | inr (inr (valid, free, e, is_load)) ↦ λ j. elim (Bool-cases (j == channel)) [
      | inl same ↦
          let here : j ≡ channel = ground (arith, same) in
          rw here (rw is_load.0 (valid.0, valid.2, valid.4))
      | inr apart ↦ rw (is_load.1 j (ground (arith, apart))) (h j)
    ]
  ]

  start-IsUsable :
      (channel : ℕ) (d d' : Driver)
      → StartsTo config pcie channel d d'
      → ((j : ℕ) → IsUsable config pcie (d.xfer j))
      → (j : ℕ) → IsUsable config pcie (d'.xfer j)
  start-IsUsable channel d d' (inl e) h = kept d.xfer d'.xfer (ap (λ (x : Driver). x.xfer) e) h
  start-IsUsable channel d d' (inr (channels, e)) h =
      kept (start_all (record d { work_channel = channel }) channels).xfer d'.xfer
        (ap (λ (x : Driver). x.xfer) e)
        (start_all-IsUsable channels (record d { work_channel = channel }) h)

  Step-IsSound :
      {s t : System config pcie}
      → Step config pcie s t
      → IsSound config pcie s
      → IsSound config pcie t
  unfolding dma_emul_stop
  Step-IsSound (works s) h = step-IsSound s.place s.driver s.world h
  Step-IsSound (configures s channel c) h = (configure-IsUsable s.driver channel c h.0, h.1)
  Step-IsSound (starts s rounds channel r d w e) h = (
    start-IsUsable channel s.driver d
        (start_outcome config pcie rounds s.driver s.world channel r d w e) h.0,
    h.1,
  )
  Step-IsSound (stops s channel) h = (set-IsUsable s.driver channel stopped h.0, h.1)
  Step-IsSound (outside s w) h = h

-- Whatever the order of the handler's steps, of the calls of other threads and of the events
-- outside, if the configurations are usable at first, with the handler at a place that fits, then
-- they stay so: a block that is looked at is one of the counted ones, and a burst that is read has at
-- least a byte, and no more than the burst length or than what is left of its block.
pub Reach-IsSound :
    (config : DmaEmulConfig) (pcie : Pcie) {s t : System config pcie}
    → IsSound config pcie s
    → Reach config pcie s t
    → IsSound config pcie t
Reach-IsSound config pcie h here = h
Reach-IsSound config pcie h (next r st) =
    Step-IsSound config pcie st (Reach-IsSound config pcie h r)
