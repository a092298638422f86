-- ===== src/Zephyr/Suite/Passes.antt =====
-- The tests of zephyr-tests/src/main.cpp, with the memory mock at the other end of the link.
use warp_pipe.Base.{
  ℕ, suc, zero, ◌+◌, ◌*◌, ◌^◌, ◌%◌, ◌≤◌, ◌<◌, ◌≡◌, ◌==◌, ==_iff, refl, ap, ◌∙◌, arith, Bool, true,
  List, Mem, slice, poke, slice-poke, pos,
}
use warp_pipe.Base.Copy.{poke-slice}
use warp_pipe.MemoryMock.{BarConfig}
use warp_pipe.Zephyr.{ReadComplData, Link}
use warp_pipe.Zephyr.Attached.{View, Attached, view}
use warp_pipe.Zephyr.Enumerate.Exchanges.{takes_part}
use warp_pipe.Zephyr.Enumerate.Whole.{first_byte}
use warp_pipe.MemoryMock.Transfers.{read_bar_lem}
use warp_pipe.Zephyr.Populated.{Populated, IsReadable, write_mapped, found_there}
use warp_pipe.Zephyr.Native.Passes.{IsTestable, IsPrepared, IsTestable-IsPrepared}
use warp_pipe.Zephyr.Checked.{Checked, done, ◌>>=◌, hello}
use warp_pipe.Zephyr.Suite.{
  counted_up, fixture_before, read_data, expected, test_write, test_read, test_unaligned_read,
  test_unaligned_write,
}
use warp_pipe.Zephyr.Suite.Enumerated.{waits, Enumerates-enumerate}

counted_up_lem :
    (m : Mem) (i left : ℕ)
    → ((k : ℕ) → i ≤ k → k < i + left → m k ≡ 0x10 + k)
    → counted_up m i left ≡ done tt
unfolding counted_up
counted_up_lem m i zero h = refl
counted_up_lem m i (suc left) h =
    let here : (m i == 0x10 + i) ≡ true =
      (==_iff (m i) (0x10 + i)).1 (h i (omega arith) (omega arith)) in
    rw here (counted_up_lem m (i + 1) left (λ k lo hi. h k (omega arith) (omega arith)))

abbrev filled_with : Mem → ℕ → List ℕ → ReadComplData
filled_with junk size bytes = record {
  buf = poke junk 0 bytes;
  buf_size = size;
  ret = pos size;
  finished = true;
}

module _ (link : Link) (d : Attached link) (create : link.World → Bool × link.World)
    (warppipe_write : ℕ → ℕ → List ℕ → link.World → Bool × link.World)
    (p : Populated d warppipe_write) (rounds : ℕ) (enough : d.delay + 2 ≤ rounds) (junk : Mem) where
  -- The structure with the bytes at `addr` of the memory of the BAR `i`.
  abbrev read_out : ℕ → ℕ → ℕ → View → ReadComplData
  read_out i addr size v = record {
    buf = poke junk 0 (slice (v.bars_config i).memory addr size);
    buf_size = size;
    ret = pos size;
    finished = true;
  }

  suite_read :
      (i addr size : ℕ) (w : link.World)
      → d.Ready w
      → IsReadable (view d w) i
      → 0 < size
      → addr % 4 + size ≤ 4092
      → addr + size ≤ ((view d w).bars_config i).size
      → (w' : link.World) × (read_data link create warppipe_write rounds i addr size
            (expected junk size)
            w
          ≡ done (pos size, read_out i addr size (view d w), w'))
  unfolding read_data
  suite_read i addr size w ready readable some_bytes one_packet fits =
      let (w₁, n, payload, w', asked, arrives, soon, ready', kept, held) =
        p.bar_reads i addr size w ready readable some_bytes one_packet fits in
      let bytes =
        read_bar_lem ((view d w).bars_config i) addr size (slice payload 0 size) fits held in
      (
        w',
        rw asked (
            rw
              (waits link create warppipe_write payload size w' n rounds (expected junk size) w₁
                (omega arith) refl refl arrives)
              (ap (λ (l : List ℕ). done (pos size, filled_with junk size l, w')) bytes)),
      )

  -- The fixture enumerates the device.
  prepares :
      (w w₁ : link.World)
      → create w ≡ (true, w₁)
      → d.Ready w₁
      → IsTestable (view d w₁)
      → (view d w₁).space 0 + (view d w₁).space 1 * 2 ^ 8 ≡ 1
      → (w' : link.World) × (fixture_before link create warppipe_write rounds junk w ≡ done w')
        × d.Ready w'
        × IsPrepared (view d w')
        × ((view d w').bars_config ≡ (view d w₁).bars_config)
  unfolding fixture_before
  prepares w w₁ made ready t vendor =
      let (w₂, trace, ready₂, mapped, kept) = takes_part d w₁ ready t.usual t.unmapped in
      let e =
        Enumerates-enumerate link create warppipe_write d junk rounds enough w₁ w₂ trace vendor
          t.header in
      (w₂, rw made e, ready₂, IsTestable-IsPrepared (view d w₁) (view d w₂) t mapped kept, kept)

  module _ (w : link.World) (ready : d.Ready w) (h : IsPrepared (view d w)) where
    write_passes : (w' : link.World) × (test_write link create warppipe_write junk w ≡ done w')
    unfolding test_write
    write_passes =
        let (w₁, told, _, _, _, _) =
          write_mapped link d warppipe_write p rounds enough 1 0 hello w ready h.1 (omega arith)
            (omega arith) (omega (arith, h.3)) in
        (w₁, rw (slice-poke junk 0 hello) (rw told refl))

    module _ (counted : (k : ℕ) → k < 16 → ((view d w).bars_config 0).memory k ≡ 0x10 + k) where
      read_passes :
          (w' : link.World) × (test_read link create warppipe_write rounds junk w ≡ done w')
      unfolding test_read
      read_passes =
          let memory : Mem = ((view d w).bars_config 0).memory in
          let (w₁, e) =
            suite_read 0 0 16 w ready h.0 (omega arith) (omega arith) (omega (arith, h.2)) in
          let up =
            counted_up_lem (poke junk 0 (slice memory 0 16)) 0 16
              (λ k lo hi. poke-slice junk memory 0 16 k lo hi ∙ counted k hi) in
          (w₁, rw e (rw up refl))

      unaligned_read_passes :
          (w' : link.World) × (test_unaligned_read link create warppipe_write rounds junk w
            ≡ done w')
      unfolding test_unaligned_read
      unaligned_read_passes =
          let memory : Mem = ((view d w).bars_config 0).memory in
          let (w₁, e) =
            suite_read 0 1 1 w ready h.0 (omega arith) (omega arith) (omega (arith, h.2)) in
          let byte = first_byte junk memory 1 ∙ counted 1 (omega arith) in (w₁, rw e (rw byte refl))

    unaligned_write_passes :
        (w' : link.World) × (test_unaligned_write link create warppipe_write rounds junk w
          ≡ done w')
    unfolding test_unaligned_write poke
    unaligned_write_passes =
        let (w₁, told, ready₁, v₁, kept, _) =
          write_mapped link d warppipe_write p rounds enough 1 1 hello w ready h.1 (omega arith)
            (omega arith) (omega (arith, h.3)) in
        let (sized, text) = found_there link d warppipe_write p rounds enough 1 1 hello w w₁ v₁ in
        let fits : 6 ≤ ((view d w₁).bars_config 1).size = rw sized (omega (arith, h.3)) in
        let (w₂, e) =
          suite_read 1 1 5 w₁ ready₁ (kept 1 (h.1).0) (omega arith) (omega arith)
            (omega (arith, fits)) in
        (w₂, rw (slice-poke junk 0 hello) (rw told (rw e (rw text refl))))

-- A test that passes after its fixture, from a given state.
abbrev pub Succeeds : {W : Type 0} → Checked W → (W → Checked W) → Type 0
Succeeds {W} fixture test = (w' : W) × ((fixture >>= test) ≡ done w')

-- The four tests of the suite pass when the server connects and the memory mock at the other end
-- has the vendor 1, its first two BARs, with callbacks to read both and to write BAR 1, not the third,
-- and in the first 16 bytes of its BAR 0 the
-- numbers from 0x10 on (its header type is 0, each BAR that is there has a power of two from 16
-- bytes to 256 KB, and none has an address yet on either side): no assertion fails in the
-- enumeration of the fixture or in the test. Each wait may take two rounds more than the delay of
-- the device.
pub suite_passes :
    (link : Link) (d : Attached link) (create : link.World → Bool × link.World)
    (warppipe_write : ℕ → ℕ → List ℕ → link.World → Bool × link.World)
    (p : Populated d warppipe_write) (rounds : ℕ) (junk : Mem) (w w₁ : link.World)
    → d.delay + 2 ≤ rounds
    → create w ≡ (true, w₁)
    → d.Ready w₁
    → IsTestable (view d w₁)
    → (view d w₁).space 0 + (view d w₁).space 1 * 2 ^ 8 ≡ 1
    → ((k : ℕ) → k < 16 → ((view d w₁).bars_config 0).memory k ≡ 0x10 + k)
    → let before = fixture_before link create warppipe_write rounds junk w in
      Succeeds before (test_write link create warppipe_write junk)
      × Succeeds before (test_read link create warppipe_write rounds junk)
      × Succeeds before (test_unaligned_read link create warppipe_write rounds junk)
      × Succeeds before (test_unaligned_write link create warppipe_write rounds junk)
suite_passes link d create warppipe_write p rounds junk w w₁ enough made ready t vendor counted =
    let (w₂, e, ready₂, h, kept) =
      prepares link d create warppipe_write p rounds enough junk w w₁ made ready t vendor in
    let counted₂ : (k : ℕ) → k < 16 → ((view d w₂).bars_config 0).memory k ≡ 0x10 + k =
      λ k lt. ap (λ (c : ℕ → BarConfig). (c 0).memory k) kept ∙ counted k lt in
    let a = write_passes link d create warppipe_write p rounds enough junk w₂ ready₂ h in
    let b = read_passes link d create warppipe_write p rounds enough junk w₂ ready₂ h counted₂ in
    let c =
      unaligned_read_passes link d create warppipe_write p rounds enough junk w₂ ready₂ h
        counted₂ in
    let f = unaligned_write_passes link d create warppipe_write p rounds enough junk w₂ ready₂ h in
    ((a.0, rw e (a.1)), (b.0, rw e (b.1)), (c.0, rw e (c.1)), (f.0, rw e (f.1)))
