-- ===== src/Examples/Board.antt =====
-- A host whose requests reach a memory mock at once: the enumeration, and the programs that test it.
use warp_pipe.Base.{
  ◌/◌, ◌%◌, ◌↔◌, ◌≤◌, ◌^◌, ℕ, suc, zero, ◌+◌, ◌*◌, ◌<◌, ◌≡◌, inl, inr, refl, ap, sym, ◌∙◌, arith,
  Bool, true, false, none, some, List, [], ◌∷◌, Mem, view, slice, poke, length, update, ◌==◌,
  if◌then◌else◌, pos, Option, bit_and, ◌≢◌,
}
use warp_pipe.Base.Bits.{bit_and-mask}
use warp_pipe.Base.Copy.{poke-slice, slice-view}
use warp_pipe.Examples.Dma.{given_back}
use warp_pipe.Client.State.{Client, Callback}
use warp_pipe.Client.Bars.{warppipe_register_bar}
use warp_pipe.MemoryMock.{
  BarConfig, Copy, outside, copied, overrun, handle_config_bar_write, Mock, config0_read_cb,
  config0_write_cb, read_bar, write_bar,
}
use warp_pipe.MemoryMock.Setup.{mock_bars, mock_space}
use warp_pipe.Zephyr.{Link, Completed, enumerate, read_config_header_field}
use warp_pipe.Zephyr.Field.{header_field_read}
use warp_pipe.Zephyr.Attached.{Attached, bar_address, view as seen}
use warp_pipe.Zephyr.Enumerate.Mapped.{IsUsual, IsUnmapped, IsMapped}
use warp_pipe.Zephyr.Enumerate.Whole.{enumerate_maps}
use warp_pipe.MemoryMock.Transfers.{read_bar_whole, write_bar_whole}
use warp_pipe.Zephyr.Enumerate.Large.{large_bar_rounded}
use warp_pipe.Zephyr.Populated.{Populated, IsReachable}
use warp_pipe.Zephyr.Native.{main}
use warp_pipe.Zephyr.Native.Passes.{IsTestable, main_passes}
use warp_pipe.Zephyr.Checked.{done, hello}
use warp_pipe.Zephyr.Suite.{
  fixture_before, test_write, test_read, test_unaligned_read, test_unaligned_write,
}
use warp_pipe.Zephyr.Suite.Passes.{Succeeds, suite_passes}
use warp_pipe.Examples.Pipe.{zeroed}

-- Both sides, and the completions under way.
pub record Board : Type 0 where
  pub mock : Mock
  pub host : Client
  pub pending : List Completed

abbrev pub answer : Mem → ℕ → Completed
answer payload size = record { error_code = pos 0; payload = payload; length = size }

-- A completion with data, or none: the host drops one without data.
abbrev pub config_answer : Option (List ℕ) → ℕ → List Completed
config_answer none size = []
config_answer (some bytes) size = answer (poke (λ _. 0) 0 bytes) size ∷ []

abbrev pub copy_answer : Copy → ℕ → List Completed
copy_answer outside size = []
copy_answer (copied bytes) size = answer (poke (λ _. 0) 0 bytes) size ∷ []
copy_answer overrun size = []

-- A BAR without a callback for reads does not answer.
abbrev pub answered : Option Callback → Copy → ℕ → List Completed
answered none copy size = []
answered (some cb) copy size = copy_answer copy size

abbrev pub bar_answer : BarConfig → ℕ → ℕ → List Completed
bar_answer bar addr size = answered bar.read_cb (read_bar bar addr (pos size)) size

abbrev pub board : Link
board = record {
  World = Board;
  warppipe_config0_read = λ addr size b.
      (true, record b { pending = config_answer (config0_read_cb b.mock addr size) size });
  warppipe_config0_write = λ addr bytes b.
      (true, record b { mock = config0_write_cb b.mock addr (poke (λ _. 0) 0 bytes) 4 });
  warppipe_read = λ i addr size b.
      if b.host.bar i == 0
      then (false, b)
      else (true, record b { pending = bar_answer (b.mock.bars_config i) addr size });
  warppipe_register_bar = λ bar size i b.
      let r = warppipe_register_bar b.host bar size i none none in (r.1, record b { host = r.0 });
  warppipe_server_loop = λ b. (b.pending, record b { pending = [] });
  quit = λ b. false;
}

pub shifted : (m : Mem) (addr size : ℕ) → slice m addr size ≡ slice (view addr m) 0 size
shifted m addr size =
    let start : addr ≡ addr + 0 = omega arith in
    ap (λ (a : ℕ). slice m a size) start ∙ sym (slice-view addr m 0 size)

pub config0_read :
    (mock : Mock) (addr : ℕ)
    → addr % 4 ≡ 0
    → config0_read_cb mock addr 4 ≡ some (slice mock.configuration_space addr 4)
unfolding config0_read_cb
config0_read mock addr whole =
    let aligned : bit_and addr 3 ≡ 0 = bit_and-mask 2 addr ∙ whole in rw aligned refl

abbrev pub attached : Attached board
attached = record {
  Ready = λ b. Unit {0};
  delay = 0;
  mock = λ b. b.mock;
  host = λ b. b.host;
  reads = λ addr b ready whole inside.
      let payload : Mem = poke (λ _. 0) 0 (slice b.mock.configuration_space addr 4) in
      (
        record b { pending = answer payload 4 ∷ [] },
        0,
        payload,
        record b { pending = [] },
        ap (λ (r : Option (List ℕ)). (true, record b { pending = config_answer r 4 }))
            (config0_read b.mock addr whole),
        (refl, refl, refl),
        omega arith,
        tt,
        refl,
        λ k lt.
            ap (λ (l : List ℕ). poke (λ _. 0) 0 l k) (shifted b.mock.configuration_space addr 4)
            ∙ poke-slice (λ _. 0) (view addr b.mock.configuration_space) 0 4 k (omega arith) lt,
      );
  writes = λ addr bytes b ready whole inside few.
      (record b { mock = config0_write_cb b.mock addr (poke (λ _. 0) 0 bytes) 4 }, refl, tt, refl);
  registers = λ bar size i b ready in_range.
      (record b { host = (warppipe_register_bar b.host bar size i none none).0 }, refl, tt, refl);
}

-- A BAR without a callback for writes drops them.
abbrev pub stored : Board → ℕ → Option Callback → Option BarConfig → Board
stored b i none bar = b
stored b i (some cb) none = b
stored b i (some cb) (some bar) = record b {
  mock = record (b.mock) { bars_config = update b.mock.bars_config i bar };
}

abbrev pub write : ℕ → ℕ → List ℕ → Board → Bool × Board
write i addr bytes b =
    let bar = b.mock.bars_config i in
    (
      true,
      stored b i bar.write_cb (write_bar bar addr (poke (λ _. 0) 0 bytes) (pos (length bytes))),
    )

-- The power-on state of the mock, and a client without BARs.
abbrev started : Board
started = record {
  mock = record {
    bars_config = mock_bars;
    configuration_space = mock_space;
    mock_dev_client = zeroed;
  };
  host = zeroed;
  pending = [];
}

mock_sizes : (j : ℕ) → j < 6 → IsUsual (mock_bars j)
mock_sizes zero lt = inr (7, omega arith, omega arith, refl, omega arith)
mock_sizes (suc zero) lt = inr (11, omega arith, omega arith, refl, omega arith)
mock_sizes (suc (suc j)) lt = inl (refl, refl)

no_addresses : (j : ℕ) → j < 6 → IsUnmapped (seen attached started) j
no_addresses j lt = (refl, refl, refl, refl)

enumerate_maps_example :
    (b : Board) × (enumerate board 2 (λ _. 0) started ≡ some (true, b))
    × Unit {0}
    × ((j : ℕ) → j < 6 → IsMapped (seen attached b) j)
    × (b.mock.bars_config ≡ mock_bars)
enumerate_maps_example =
    enumerate_maps board attached (λ _. 0) 2 started (omega arith) tt (omega arith) refl mock_sizes
      no_addresses

pub known : (b : Board) (i : ℕ) → IsReachable (seen attached b) i → (b.host.bar i == 0) ≡ false
known b i r =
    let (mapped, size) = r.1 i (omega arith) in
    let present : ((b.mock.bars_config i).size == 0) ≡ false = ground (arith, size) in
    let address : b.host.bar i ≡ 0x10_0000 + 0x4_0000 * i = mapped.0 ∙ rw present refl in
    ground (arith, address)

some-of : {A : Type 0} (x : Option A) → x ≢ none → (a : A) × (x ≡ some a)
some-of none h = absurd (h refl)
some-of (some a) h = (a, refl)

pub read_answered :
    (bar : BarConfig) (addr size : ℕ)
    → bar.read_cb ≢ none
    → bar.size < 2 ^ 31
    → addr + size ≤ bar.size
    → bar_answer bar addr size ≡ answer (poke (λ _. 0) 0 (slice bar.memory addr size)) size ∷ []
read_answered bar addr size there small fits =
    let (cb, e) = some-of bar.read_cb there in
    ap (λ (c : Option Callback). answered c (read_bar bar addr (pos size)) size) e
    ∙ ap (λ (r : Copy). copy_answer r size) (read_bar_whole bar addr size fits small)

pub write_stored :
    (b : Board) (i : ℕ) (cb : Option Callback) (written : Option BarConfig) (bar : BarConfig)
    → cb ≢ none
    → written ≡ some bar
    → stored b i cb written
      ≡ record b { mock = record (b.mock) { bars_config = update b.mock.bars_config i bar } }
write_stored b i none written bar there e = absurd (there refl)
write_stored b i (some cb) written bar there e = rw e refl

abbrev pub populated : Populated attached write
populated = record {
  bar_reads = λ i addr size b ready r some_bytes one_packet fits.
      let bar = b.mock.bars_config i in
      let payload : Mem = poke (λ _. 0) 0 (slice bar.memory addr size) in
      (
        record b { pending = answer payload size ∷ [] },
        0,
        payload,
        record b { pending = [] },
        rw (known b i r.0) (
            ap (λ (l : List Completed). (true, record b { pending = l }))
              (read_answered bar addr size r.2 r.1 fits)),
        (refl, refl, refl),
        omega arith,
        tt,
        refl,
        read_bar_whole bar addr size fits r.1 ∙ ap copied (sym (given_back bar.memory addr size)),
      );
  bar_refuses = λ i addr size b in_range unmapped. rw unmapped refl;
  bar_writes = λ i addr bytes b ready r some_bytes one_packet fits.
      let old = b.mock.bars_config i in
      let payload : Mem = poke (λ _. 0) 0 bytes in
      let (bar, e) = write_bar_whole old addr (length bytes) payload fits (r.0).1 in
      (
        record b { mock = record (b.mock) { bars_config = update b.mock.bars_config i bar } },
        bar,
        ap (λ (x : Board). (true, x))
            (write_stored b i old.write_cb (write_bar old addr payload (pos (length bytes))) bar r.1
              e),
        tt,
        e,
        refl,
      );
}

testable : IsTestable (seen attached started)
testable = record {
  vendor = omega arith;
  header = refl;
  usual = mock_sizes;
  unmapped = no_addresses;
  first = omega arith;
  second = omega arith;
  third = refl;
  first_read = λ e. cc e;
  second_read = λ e. cc e;
  second_written = λ e. cc e;
}

abbrev connect : Board → Bool × Board
connect b = (true, b)

main_passes_example :
    (b : Board) × (main board connect write 2 (λ _. 0) started ≡ done (pos 0, b))
    × (slice (b.mock.bars_config 1).memory 0 5 ≡ hello)
main_passes_example =
    main_passes board attached connect write populated 2 (λ _. 0) started started (omega arith) refl
      tt testable

counted : (k : ℕ) → k < 16 → (mock_bars 0).memory k ≡ 0x10 + k
counted k lt = ground arith

suite_passes_example :
    let before = fixture_before board connect write 2 (λ _. 0) started in
    Succeeds before (test_write board connect write (λ _. 0))
    × Succeeds before (test_read board connect write 2 (λ _. 0))
    × Succeeds before (test_unaligned_read board connect write 2 (λ _. 0))
    × Succeeds before (test_unaligned_write board connect write 2 (λ _. 0))
suite_passes_example =
    suite_passes board attached connect write populated 2 (λ _. 0) started started (omega arith)
      refl tt testable refl counted

header_field_read_example :
    (b : Board) × Unit {0}
    × (seen attached b ≡ seen attached started)
    × (read_config_header_field board 2 (λ _. 0xcc) 2 1 (λ _. 0xdd) started
        ≡ some (pos 4, poke (λ _. 0xdd) 0 (slice mock_space 2 1), b))
header_field_read_example =
    header_field_read board attached (λ _. 0xcc) 2 1 (λ _. 0xdd) 2 started (omega arith)
      (omega arith) (omega arith) tt

-- A mock whose BARs have 512 KB.
abbrev large : Mock
large = record {
  bars_config =
      λ i. record { config = 1; size = 2 ^ 19; read_cb = none; write_cb = none; memory = λ _. 0 };
  configuration_space = mock_space;
  mock_dev_client = zeroed;
}

large_bar_rounded_example :
    let registered = (handle_config_bar_write large 1 (bar_address 1)).mock_dev_client.bar 1 in
    (registered ≡ bar_address 1 / 2 ^ 19 * 2 ^ 19)
    × (19 ≤ 18 → registered ≡ bar_address 1)
    × ((registered ≡ bar_address 1) ↔ (bar_address 1 % 2 ^ 19 ≡ 0))
large_bar_rounded_example = large_bar_rounded large 1 19 (omega arith) (omega arith) refl refl
