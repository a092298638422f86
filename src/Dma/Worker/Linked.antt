-- ===== src/Dma/Worker/Linked.antt =====
-- The work handler on channels that are linked to each other.
use warp_pipe.Base.{
  ℕ, ◌≤◌, ◌≡◌, ◌≢◌, refl, ap, sym, ◌∙◌, false, Bool, List, [], ◌∷◌, ◌++◌, Mem, entries, update_at,
  update_apart, if◌then◌else◌,
}
use warp_pipe.Dma.State.{
  stopped, is_stopped, DmaBlockConfig, DmaConfig, DmaEmulConfig, Driver, CallbackCall, complete,
  dma_emul_set_channel_state, Pcie,
}
use warp_pipe.Dma.Config.{first_slot}
use warp_pipe.Dma.Start.Chain.{IsChain}
use warp_pipe.Dma.Worker.{idle, next_channel, call_back, System, step}
use warp_pipe.Dma.Worker.Steps.{at, Reaches, one_step, Reaches-trans, Reaches-path}
use warp_pipe.Dma.Worker.Burst.{Answers}
use warp_pipe.Dma.Worker.Transfer.{copied_blocks, AreInRange, done, channel_moved}

copied_blocks-append :
    (remote : Mem) (xs ys : List DmaBlockConfig) (m : Mem)
    → copied_blocks remote (xs ++ ys) m ≡ copied_blocks remote ys (copied_blocks remote xs m)
copied_blocks-append remote [] ys m = refl
copied_blocks-append remote (x ∷ xs) ys m = copied_blocks-append remote xs ys _

abbrev pub All : (ℕ → Type 0) → List ℕ → Type 0
All P [] = Unit {0}
All P (x ∷ xs) = P x × All P xs

All-map : (P Q : ℕ → Type 0) → ((j : ℕ) → P j → Q j) → (xs : List ℕ) → All P xs → All Q xs
All-map P Q f [] h = tt
All-map P Q f (x ∷ xs) h = (f x h.0, All-map P Q f xs h.1)

All-both : (P Q : ℕ → Type 0) → (xs : List ℕ) → All P xs → All Q xs → All (λ j. P j × Q j) xs
All-both P Q [] h g = tt
All-both P Q (x ∷ xs) h g = ((h.0, g.0), All-both P Q xs h.1 g.1)

-- No channel comes twice.
abbrev pub AreDistinct : List ℕ → Type 0
AreDistinct [] = Unit {0}
AreDistinct (x ∷ xs) = All (λ j. j ≢ x) xs × AreDistinct xs

module _ (config : DmaEmulConfig) (pcie : Pcie) (peer : Answers pcie) (xfer : ℕ → DmaConfig)
    (block : ℕ → DmaBlockConfig) where
  -- The blocks of a channel, and those of some channels in their order.
  abbrev pub blocks_of : ℕ → List DmaBlockConfig
  blocks_of channel =
      entries block (first_slot config channel (xfer channel)) (xfer channel).block_count

  abbrev pub all_blocks : List ℕ → List DmaBlockConfig
  all_blocks [] = []
  all_blocks (channel ∷ channels) = blocks_of channel ++ all_blocks channels

  -- The calls of the callbacks of some channels, the last one first.
  abbrev pub all_called : List ℕ → List CallbackCall → List CallbackCall
  all_called [] called = called
  all_called (channel ∷ channels) called = all_called channels (
      (record {
        callback = (xfer channel).dma_callback;
        user_data = (xfer channel).user_data;
        channel = channel;
        status = complete;
      })
      ∷ called)

  -- Bursts of 1 to 4 bytes, addresses that do not wrap around, and a state other than STOPPED.
  abbrev pub IsRunnable : ℕ → Type 0
  IsRunnable channel =
      (1 ≤ (xfer channel).dest_burst_length)
      × ((xfer channel).dest_burst_length ≤ 4)
      × AreInRange config pcie peer (blocks_of channel)
      × (is_stopped (xfer channel).reserved ≡ false)

  abbrev pub LinkedEnd : List ℕ → Driver → System config pcie → Type 0
  LinkedEnd channels d s =
      (e : Driver) × (w' : pcie.World) × Reaches config pcie s (at config pcie idle e w')
      × (e.memory ≡ copied_blocks peer.bar.memory (all_blocks channels) d.memory)
      × (e.called ≡ all_called channels d.called)
      × All (λ j. (e.xfer j).reserved ≡ stopped) channels
      × ((j : ℕ) → All (λ k. k ≢ j) channels → e.xfer j ≡ d.xfer j)

  linked_moved :
      (channels : List ℕ) (channel : ℕ) (d : Driver) (w : pcie.World)
      → All (λ j. d.xfer j ≡ xfer j) (channel ∷ channels)
      → d.block ≡ block
      → IsChain xfer channel channels
      → AreDistinct (channel ∷ channels)
      → All IsRunnable (channel ∷ channels)
      → d.got_result ≡ false
      → peer.Ready w
      → LinkedEnd (channel ∷ channels) d (at config pcie (next_channel channel) d w)
  unfolding call_back
  linked_moved [] channel d w (has, _) same alone apart ((one, four, range, runs), _) quiet ready =
      let c = xfer channel in
      let (r, w', ready', moves) =
        channel_moved config pcie peer channel c (blocks_of channel) d w has
          (ap (λ (f : ℕ → DmaBlockConfig). entries f (first_slot config channel c) c.block_count)
            same)
          one four range runs quiet ready in
      let f = done config pcie peer (blocks_of channel) r d in
      let e = call_back c channel complete (dma_emul_set_channel_state f channel stopped) in
      (
        e,
        w',
        Reaches-trans config pcie moves (
            Reaches-path config pcie (
              ap
                (λ (b : Bool).
                  at config pcie (if b then next_channel c.linked_channel else idle) e w')
                alone)),
        sym (copied_blocks-append peer.bar.memory (blocks_of channel) [] d.memory),
        refl,
        (
          ap (λ (x : DmaConfig). x.reserved)
              (update_at d.xfer channel (record (d.xfer channel) { reserved = stopped })),
          tt,
        ),
        λ j (other, _).
            update_apart d.xfer channel j (record (d.xfer channel) { reserved = stopped })
              (λ e. other (sym e)),
      )
  linked_moved (next ∷ channels) channel d w (has, all_have) same (linked, to, chain)
        (apart, apart') ((one, four, range, runs), runnable) quiet ready =
      let c = xfer channel in
      let (r, w₁, ready₁, moves) =
        channel_moved config pcie peer channel c (blocks_of channel) d w has
          (ap (λ (f : ℕ → DmaBlockConfig). entries f (first_slot config channel c) c.block_count)
            same)
          one four range runs quiet ready in
      let f = done config pcie peer (blocks_of channel) r d in
      let d₁ = call_back c channel complete (dma_emul_set_channel_state f channel stopped) in
      let kept : (j : ℕ) → j ≢ channel → d₁.xfer j ≡ d.xfer j = λ j other.
        update_apart d.xfer channel j (record (d.xfer channel) { reserved = stopped }) other in
      let (e, w', others, memory, called, all_stopped, rest_kept) =
        linked_moved channels next d₁ w₁
          (All-map _ (λ j. d₁.xfer j ≡ xfer j) (λ j (other, had). kept j other ∙ had)
            (next ∷ channels)
            (All-both (λ j. j ≢ channel) (λ j. d.xfer j ≡ xfer j) (next ∷ channels) apart all_have))
          same chain apart' runnable refl ready₁ in
      (
        e,
        w',
        Reaches-trans config pcie moves (
            Reaches-trans config pcie
              (Reaches-path config pcie (
                ap
                  (λ (b : Bool).
                    at config pcie (if b then next_channel c.linked_channel else idle) d₁ w₁)
                  linked
                ∙ ap (λ (k : ℕ). at config pcie (next_channel k) d₁ w₁) to))
              others),
        memory
            ∙ sym (
                copied_blocks-append peer.bar.memory (blocks_of channel)
                  (all_blocks (next ∷ channels)) d.memory),
        called,
        (
          ap (λ (x : DmaConfig). x.reserved)
              (rest_kept channel apart
                ∙ update_at d.xfer channel (record (d.xfer channel) { reserved = stopped })),
          all_stopped,
        ),
        λ j (other, others'). rest_kept j others' ∙ kept j (λ e. other (sym e)),
      )

All-always : (P : ℕ → Type 0) → ((j : ℕ) → P j) → (xs : List ℕ) → All P xs
All-always P f [] = tt
All-always P f (x ∷ xs) = (f x, All-always P f xs)

-- Linked channels. If the channel of the work item and those that it is linked to, one after the
-- other, are all different, are not stopped, have bursts of 1 to 4 bytes and addresses that do not
-- wrap around, with the sources of their blocks in BAR 0 of the peer, and if the peer answers reads of
-- this BAR and nothing else runs, the handler comes to its end in a
-- finite number of steps: the blocks of all these channels have been copied, channel by channel;
-- each channel is stopped and its callback has been called once, with DMA_STATUS_COMPLETE, in this
-- order; all other channels are as they were.
pub linked_done :
    (config : DmaEmulConfig) (pcie : Pcie) (peer : Answers pcie) (channels : List ℕ) (d : Driver)
    (w : pcie.World)
    → IsChain d.xfer d.work_channel channels
    → AreDistinct (d.work_channel ∷ channels)
    → All (IsRunnable config pcie peer d.xfer d.block) (d.work_channel ∷ channels)
    → d.got_result ≡ false
    → peer.Ready w
    → LinkedEnd config pcie peer d.xfer d.block
        (d.work_channel ∷ channels)
        d
        (at config pcie idle d w)
unfolding step
linked_done config pcie peer channels d w chain apart runnable quiet ready =
    let (e, w', moves, memory, called, all_stopped, kept) =
      linked_moved config pcie peer d.xfer d.block channels d.work_channel d w
        (All-always (λ j. d.xfer j ≡ d.xfer j) (λ j. refl) (d.work_channel ∷ channels)) refl chain
        apart runnable quiet ready in
    (
      e,
      w',
      Reaches-trans config pcie (one_step config pcie refl) moves,
      memory,
      called,
      all_stopped,
      kept,
    )
