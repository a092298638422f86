-- ===== src/Examples/Dma.antt =====
-- Transfers of the DMA driver on concrete channels, and tests of its definitions.
use warp_pipe.Base.{
  ℕ, ◌+◌, ◌≡◌, ◌↔◌, inl, refl, ap, ◌∙◌, arith, true, false, some, List, [], ◌∷◌, Mem, length,
  entries, slice, poke, slice-poke, length-slice, sym, ltb, if◌then◌else◌, pos, ◌<◌,
}
use warp_pipe.MemoryMock.{Copy, outside, copied, overrun, read_bar}
use warp_pipe.MemoryMock.Setup.{mock_bars}
use warp_pipe.MemoryMock.Transfers.{read_bar_whole}
use warp_pipe.Dma.State.{
  unused, loaded, started, stopped, DmaBlockConfig, DmaConfig, DmaEmulConfig, Driver, Pcie,
}
use warp_pipe.Dma.Config.{dma_emul_config_valid, dma_emul_stop}
use warp_pipe.Dma.Config.Valid.{IsConfigValid, IsConfigValid-iff}
use warp_pipe.Dma.Config.Slots.{Outcome, configure_outcome}
use warp_pipe.Dma.Start.{start_linked}
use warp_pipe.Dma.Start.Chain.{IsChain, start_all, start_linked_iff}
use warp_pipe.Dma.Worker.{idle, System, step}
use warp_pipe.Dma.Worker.Steps.{at}
use warp_pipe.Dma.Worker.Burst.{Answers}
use warp_pipe.Dma.Worker.Cancel.{Ends, base, stopped-Ends}
use warp_pipe.Dma.Worker.Linked.{LinkedEnd, linked_done}
use warp_pipe.Dma.Whole.{Transfers, transfer_done}
use warp_pipe.Dma.Overtaken.{Overtakes, start_overtaken}
use warp_pipe.Dma.Runs.{works, stops, here, next, IsUsable, IsSound}
use warp_pipe.Dma.Runs.Invariant.{Reach-IsSound}

-- What the memory mock at the other end makes of a read of its BAR: the payload of a completion with
-- data, or none.
abbrev payload_of : Copy → List Mem
payload_of outside = []
payload_of (copied bytes) = poke (λ _. 0) 0 bytes ∷ []
payload_of overrun = []

-- A connection to the memory mock on which each read is answered in the next round.

abbrev pub line : Pcie
line = record {
  World = List Mem;
  warppipe_read = λ bar addr len w. payload_of (read_bar (mock_bars bar) addr (pos len));
  warppipe_server_loop = λ w. (w, []);
  warppipe_server_create = λ w. (true, w);
  enumerate = λ w. w;
  k_work_submit_to_queue = λ w. (pos 1, w);
}

pub given_back :
    (m : Mem) (addr n : ℕ) → slice (poke (λ _. 0) 0 (slice m addr n)) 0 n ≡ slice m addr n
given_back m addr n =
    ap (λ (k : ℕ). slice (poke (λ _. 0) 0 (slice m addr n)) 0 k) (sym (length-slice m addr n))
    ∙ slice-poke (λ _. 0) 0 (slice m addr n)

abbrev peer : Answers line
peer = record {
  bar = mock_bars 0;
  Ready = λ w. Unit {0};
  answers = λ addr len w ready one four fits.
      let bytes = slice (mock_bars 0).memory addr len in
      let e = read_bar_whole (mock_bars 0) addr len fits (omega arith) in
      (
        0,
        poke (λ _. 0) 0 bytes,
        [],
        ap (λ (c : Copy). (payload_of c, [])) e,
        tt,
        e ∙ ap copied (sym (given_back (mock_bars 0).memory addr len)),
      );
}

-- Two channels with three slots each.
abbrev pub config : DmaEmulConfig
config = record { num_channels = 2; num_requests = 3; addr_bits = 32 }

abbrev block_a : DmaBlockConfig
block_a = record { source_address = 16; dest_address = 100; block_size = 6 }

abbrev block_b : DmaBlockConfig
block_b = record { source_address = 64; dest_address = 200; block_size = 4 }

abbrev no_block : DmaBlockConfig
no_block = record { source_address = 0; dest_address = 0; block_size = 0 }

abbrev pub two_blocks : DmaConfig
two_blocks = record {
  dma_slot = 0;
  error_callback_en = true;
  source_chaining_en = false;
  dest_chaining_en = false;
  linked_channel = 0;
  reserved = unused;
  source_burst_length = 4;
  dest_burst_length = 4;
  block_count = 2;
  head_block = block_a ∷ block_b ∷ [];
  user_data = 9;
  dma_callback = 5;
}

abbrev no_config : DmaConfig
no_config = record (record (two_blocks) { block_count = 0; head_block = [] }) { user_data = 0 }

abbrev pub rest_driver : Driver
rest_driver = record {
  xfer = λ channel. no_config;
  block = λ i. no_block;
  work_channel = 0;
  result = λ k. 0;
  got_result = false;
  memory = λ k. 0;
  called = [];
}

two_blocks-valid : IsConfigValid config 1 two_blocks
two_blocks-valid = (omega arith, omega arith, refl, omega arith, omega arith)

IsConfigValid-iff_test :
    (dma_emul_config_valid config 1 two_blocks ≡ true) ↔ IsConfigValid config 1 two_blocks
IsConfigValid-iff_test = IsConfigValid-iff config 1 two_blocks

configure_outcome_example : Outcome config rest_driver 1 two_blocks
configure_outcome_example = configure_outcome config rest_driver 1 two_blocks

-- A configuration that is linked to channel 1, on channel 0.
abbrev pub linked_driver : Driver
linked_driver = record (rest_driver) {
  xfer = λ channel.
      if ltb channel 1
      then record (two_blocks) { source_chaining_en = true; linked_channel = 1 }
      else two_blocks;
}

start_linked_iff_example :
    (start_linked 2 linked_driver 0 ≡ some (start_all linked_driver (0 ∷ 1 ∷ []))) ↔ (
      (channels : List ℕ) × IsChain linked_driver.xfer 0 channels
      × (length channels < 2)
      × (start_all linked_driver (0 ∷ 1 ∷ []) ≡ start_all linked_driver (0 ∷ channels)))
start_linked_iff_example = start_linked_iff 2 linked_driver 0 (start_all linked_driver (0 ∷ 1 ∷ []))

transfer_done_example : Transfers config line peer 0 rest_driver [] 1 two_blocks
transfer_done_example =
    transfer_done config line peer 0 rest_driver [] 1 two_blocks 1 two_blocks-valid (inl refl) refl
      (omega arith) (omega arith)
      ((omega arith, omega arith, omega arith), ((omega arith, omega arith, omega arith), tt)) refl
      refl refl tt

-- Both channels are loaded.
abbrev pub loaded_driver : Driver
loaded_driver = record (rest_driver) {
  xfer = λ channel. record (two_blocks) { reserved = loaded };
  block = λ i. if ltb i 4 then block_a else block_b;
}

start_overtaken_example : Overtakes config line peer loaded_driver [] 0 1 0
start_overtaken_example =
    start_overtaken config line peer loaded_driver [] 0 1 1 1 0 (λ e. absurd (omega (arith, e)))
      (omega arith) (omega arith) refl refl refl refl refl refl refl refl (omega arith)
      (omega arith)
      ((omega arith, omega arith, omega arith), ((omega arith, omega arith, omega arith), tt)) refl
      tt

-- Channel 1 is stopped after its first block.
abbrev stopped_driver : Driver
stopped_driver = record (rest_driver) {
  xfer = λ channel. record (two_blocks) { reserved = stopped };
  block = λ i. if ltb i 4 then block_a else block_b;
}

stopped-Ends_example :
    Ends config line 1 two_blocks stopped_driver [] 1
      (entries stopped_driver.block (base config line 1 two_blocks stopped_driver [] + 1) 1)
stopped-Ends_example =
    stopped-Ends config line 1 two_blocks stopped_driver [] 1 1 (omega arith) (omega arith) refl

-- The handler looks at the channel of the work item while another thread stops it.
abbrev before : System config line
before = at config line idle rest_driver []

abbrev after : System config line
after = record (step config line before) {
  driver = (dma_emul_stop (step config line before).driver 0).1;
}

usable : (channel : ℕ) → IsUsable config line no_config
usable channel = (omega arith, refl, omega arith)

Reach-IsSound_example : IsSound config line after
Reach-IsSound_example =
    Reach-IsSound config line (usable, tt)
      (next (next here (works before)) (stops (step config line before) 0))

-- Channel 0 is linked to channel 1; both are started.
abbrev pub started_driver : Driver
started_driver = record (linked_driver) {
  xfer = λ channel.
      if ltb channel 1
      then record (two_blocks) { reserved = started; source_chaining_en = true; linked_channel = 1 }
      else record (two_blocks) { reserved = started };
  block = λ i. if ltb i 4 then block_a else block_b;
}

linked_done_example :
    LinkedEnd config line peer started_driver.xfer started_driver.block
      (0 ∷ 1 ∷ [])
      started_driver
      (at config line idle started_driver [])
linked_done_example =
    linked_done config line peer (1 ∷ []) started_driver [] (refl, refl, refl)
      (((λ e. absurd (omega (arith, e))), tt), (tt, tt))
      (
        (
          omega arith,
          omega arith,
          ((omega arith, omega arith, omega arith), ((omega arith, omega arith, omega arith), tt)),
          refl,
        ),
        (
          (
            omega arith,
            omega arith,
            (
              (omega arith, omega arith, omega arith),
              ((omega arith, omega arith, omega arith), tt),
            ),
            refl,
          ),
          tt,
        ),
      )
      refl tt
