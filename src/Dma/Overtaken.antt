-- ===== src/Dma/Overtaken.antt =====
-- Two transfers that are started before the work handler runs: there is one work item for all
-- channels.
use warp_pipe.Base.{
  ℕ, suc, ◌<◌, ◌≡◌, ◌≢◌, inr, refl, ap, sym, ◌∙◌, true, false, some, update_at, update_apart, ℤ,
  pos, ◌≤◌, List, ◌∷◌, Bool, entries, if◌then◌else◌,
}
use warp_pipe.Dma.State.{
  loaded, started, stopped, DmaBlockConfig, DmaConfig, DmaEmulConfig, Driver, success, ebusy,
  is_linked, Pcie, CallbackCall, complete, dma_emul_set_channel_state,
}
use warp_pipe.Dma.Config.{first_slot, dma_emul_configure}
use warp_pipe.Dma.Config.Valid.{IsConfigValid, IsConfigValid-iff}
use warp_pipe.Dma.Config.Slots.{busy}
use warp_pipe.Dma.Start.{submitted, dma_emul_start}
use warp_pipe.Dma.Worker.{idle, next_channel, call_back, step, run}
use warp_pipe.Dma.Worker.Steps.{at, Reaches-trans, one_step, Reaches-path}
use warp_pipe.Dma.Worker.Burst.{Answers}
use warp_pipe.Dma.Worker.Transfer.{copied_blocks, AreInRange, done, channel_moved}
use warp_pipe.Dma.Whole.{started_on, start_loaded}

module _ (config : DmaEmulConfig) (pcie : Pcie) where
  -- The world after the calls that a start makes, and what the kernel says to the work item.
  abbrev pub submits : pcie.World → ℤ × pcie.World
  submits w = pcie.k_work_submit_to_queue (pcie.enumerate (pcie.warppipe_server_create w).1)

-- The blocks of a channel, and the call of its callback after a whole transfer.
abbrev pub blocks_of : DmaEmulConfig → Driver → ℕ → List DmaBlockConfig
blocks_of config d channel =
    entries d.block (first_slot config channel (d.xfer channel)) (d.xfer channel).block_count

abbrev pub done_call : DmaConfig → ℕ → CallbackCall
done_call c channel = record {
  callback = c.dma_callback;
  user_data = c.user_data;
  channel = channel;
  status = complete;
}

-- Both starts return 0, the handler begins with `b` and ends when it has done that, and `a` is started
-- then and can no longer be configured.
abbrev pub Overtakes :
    (config : DmaEmulConfig) (pcie : Pcie) → Answers pcie → Driver → pcie.World → ℕ → ℕ → ℕ → Type 0
Overtakes config pcie peer d w a b rounds =
    (d₁ : Driver) × (d₂ : Driver) × (w₂ : pcie.World) × (n : ℕ) × (e : Driver) × (w' : pcie.World)
    × (dma_emul_start config pcie (suc rounds) d w a
        ≡ some (success, d₁, (submits config pcie w).1))
    × (dma_emul_start config pcie (suc rounds) d₁ (submits config pcie w).1 b
        ≡ some (success, d₂, w₂))
    × (step config pcie (at config pcie idle d₂ w₂) ≡ at config pcie (next_channel b) d₂ w₂)
    × (run config pcie n (at config pcie idle d₂ w₂) ≡ at config pcie idle e w')
    × (e.memory ≡ copied_blocks peer.bar.memory (blocks_of config d b) d.memory)
    × (e.called ≡ done_call (d.xfer b) b ∷ d.called)
    × ((e.xfer b).reserved ≡ stopped)
    × ((e.xfer a).reserved ≡ started)
    × ((c : DmaConfig) → IsConfigValid config a c → dma_emul_configure config e a c ≡ (ebusy, e))

-- The last start wins. Of two different loaded channels without links that are started one after the
-- other before the handler runs, both with success, the handler takes the second one. If this has
-- bursts of 1 to 4 bytes and blocks that do not wrap around and have their sources in BAR 0 of the
-- peer, and the peer answers and nothing else runs, the handler comes to its end in a finite number of
-- steps: only the blocks of the second channel have been copied, only its callback has been called,
-- and it is stopped; the first channel is still started, so that each new valid configuration for it
-- is refused with -EBUSY.
pub start_overtaken :
    (config : DmaEmulConfig) (pcie : Pcie) (peer : Answers pcie) (d : Driver) (w : pcie.World)
    (a b m n rounds : ℕ)
    → a ≢ b
    → a < config.num_channels
    → b < config.num_channels
    → (d.xfer a).reserved ≡ loaded
    → (d.xfer b).reserved ≡ loaded
    → is_linked (d.xfer a) ≡ false
    → is_linked (d.xfer b) ≡ false
    → (pcie.warppipe_server_create w).0 ≡ true
    → (submits config pcie w).0 ≡ pos m
    → (pcie.warppipe_server_create (submits config pcie w).1).0 ≡ true
    → (submits config pcie (submits config pcie w).1).0 ≡ pos n
    → 1 ≤ (d.xfer b).dest_burst_length
    → (d.xfer b).dest_burst_length ≤ 4
    → AreInRange config pcie peer (blocks_of config d b)
    → d.got_result ≡ false
    → peer.Ready (submits config pcie (submits config pcie w).1).1
    → Overtakes config pcie peer d w a b rounds
unfolding step call_back
start_overtaken config pcie peer d w a b m n rounds apart a_there b_there a_loaded b_loaded a_alone
      b_alone created₁ queued₁ created₂ queued₂ one four range quiet ready =
    let d₁ = started_on config pcie d a in
    let w₁ = (submits config pcie w).1 in
    let b_kept : d₁.xfer b ≡ d.xfer b =
      update_apart d.xfer a b (record (d.xfer a) { reserved = started }) (λ e. apart (sym e)) in
    let d₂ = started_on config pcie d₁ b in
    let a_started : (d₂.xfer a).reserved ≡ started =
      ap (λ (x : DmaConfig). x.reserved)
        (update_apart d₁.xfer b a (record (d₁.xfer b) { reserved = started }) apart
          ∙ update_at d.xfer a (record (d.xfer a) { reserved = started })) in
    let w₂ = (submits config pcie w₁).1 in
    let c : DmaConfig = record (d.xfer b) { reserved = started } in
    let b_started : d₂.xfer b ≡ c =
      update_at d₁.xfer b (record (d₁.xfer b) { reserved = started })
      ∙ ap (λ (x : DmaConfig). record x { reserved = started }) b_kept in
    let blocks = blocks_of config d b in
    let (r, w', ready', moves) =
      channel_moved config pcie peer b c blocks d₂ w₂ b_started refl one four range refl quiet
        ready in
    let f = done config pcie peer blocks r d₂ in
    let e = call_back c b complete (dma_emul_set_channel_state f b stopped) in
    let a_still : (e.xfer a).reserved ≡ started =
      ap (λ (x : DmaConfig). x.reserved)
        (update_apart f.xfer b a (record (f.xfer b) { reserved = stopped }) apart)
      ∙ a_started in
    let whole = Reaches-trans config pcie (one_step config pcie refl) (
      Reaches-trans config pcie moves (
        Reaches-path config pcie (
          ap
            (λ (l : Bool).
              at config pcie (if l then next_channel (d.xfer b).linked_channel else idle) e w')
            b_alone))) in
    (
      d₁,
      d₂,
      w₂,
      whole.steps,
      e,
      w',
      start_loaded config pcie rounds d w a a_there a_loaded a_alone created₁
          ∙ ap (λ (r : ℤ). some (submitted r, d₁, w₁)) queued₁,
      start_loaded config pcie rounds d₁ w₁ b b_there
            (ap (λ (x : DmaConfig). x.reserved) b_kept ∙ b_loaded) (ap is_linked b_kept ∙ b_alone)
            created₂
          ∙ ap (λ (r : ℤ). some (submitted r, d₂, w₂)) queued₂,
      refl,
      whole.runs,
      refl,
      refl,
      ap (λ (x : DmaConfig). x.reserved)
          (update_at f.xfer b (record (f.xfer b) { reserved = stopped })),
      a_still,
      λ c' valid. busy config e a c' ((IsConfigValid-iff config a c').1 valid) (inr a_still),
    )
