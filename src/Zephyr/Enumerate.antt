-- ===== src/Zephyr/Enumerate.antt =====
-- `enumerate` of zephyr-samples/common/common.c, with the memory mock at the other end of the link:
-- what happens on the link in a round of its loop.
pub mod Mapped
pub mod Exchanges
pub mod Whole
pub mod Large
use warp_pipe.Base.{
  ℕ, ◌+◌, ◌-◌, ◌*◌, ◌%◌, ◌^◌, ◌≤◌, ◌<◌, ◌≡◌, refl, ap, sym, ◌∙◌, arith, Bool, true, none, Mem, pos,
}
use mathlib.Core.Path.{subst}
use warp_pipe.Client.Bars.Register.{register_unused}
use warp_pipe.Client.State.{Client}
use warp_pipe.MemoryMock.{BarConfig, bar_offset, load_word}
use warp_pipe.MemoryMock.Probe.{load-store_word, bounds}
use warp_pipe.Zephyr.{Link, bytes32}
use warp_pipe.Zephyr.HeaderField.{Arrives}
use warp_pipe.Zephyr.Attached.{
  View, Attached, view, bar_address, after, absent_written, probe_written, address_written,
}
use warp_pipe.Zephyr.Settled.{multiple, register_probed, absent, probed, hosted, addressed, settled}

-- A read of a word that the device answers, from its request to the arrival of its completion.
abbrev pub Fetches : {link : Link} → Attached link → ℕ → link.World → link.World → Type 0
Fetches {link} d addr w w' =
    (w₁ : link.World) × (n : ℕ) × (payload : Mem) × (link.warppipe_config0_read addr 4 w
      ≡ (true, w₁))
    × Arrives link n w₁ (record { error_code = pos 0; payload = payload; length = 4 }) w'
    × (n ≤ d.delay)
    × ((k : ℕ) → k < 4 → payload k ≡ (view d w).space (addr + k))

-- The host reads the register of the BAR `i`, writes all ones to it, and reads `value` from it.
abbrev pub Probes : {link : Link} → Attached link → ℕ → link.World → link.World → ℕ → Type 0
Probes {link} d i w w' value =
    (w₁ w₂ : link.World) × Fetches d (bar_offset + 4 * i) w w₁
    × (link.warppipe_config0_write (bar_offset + 4 * i) (bytes32 0xffff_ffff) w₁ ≡ (true, w₂))
    × Fetches d (bar_offset + 4 * i) w₂ w'
    × (load_word (bar_offset + 4 * i) (view d w₂).space ≡ value)

-- What happens on the link in a round for the BAR `i`.
pub data Exchange {link : Link} (d : Attached link) (i : ℕ) (w w' : link.World) : Type 0 where
  passed_over : Probes d i w w' 0 → Exchange d i w w'
  mapped :
      (k config : ℕ) (w₁ w₂ : link.World)
      → i < 6
      → 4 ≤ k
      → k < 32
      → config < 16
      → Probes d i w w₁ (2 ^ 32 - 2 ^ k + config)
      → link.warppipe_register_bar (bar_address i) (2 ^ k) i w₁ ≡ (true, w₂)
      → link.warppipe_config0_write (bar_offset + 4 * i) (bytes32 (bar_address i)) w₂ ≡ (true, w')
      → Exchange d i w w'

module _ {link : Link} (d : Attached link) where
  pub fetch :
      (addr : ℕ) (w : link.World)
      → d.Ready w
      → addr % 4 ≡ 0
      → addr + 4 ≤ 64
      → (w' : link.World) × Fetches d addr w w' × d.Ready w' × (view d w' ≡ view d w)
  fetch addr w ready whole inside =
      let (w₁, n, payload, w', asked, arrives, soon, ready', kept, same) =
        d.reads addr w ready whole inside in
      (w', (w₁, n, payload, asked, arrives, soon, same), ready', kept)

  module _ (i : ℕ) (w : link.World) (in_range : i < 6) (ready : d.Ready w) where
    abbrev bar : BarConfig
    bar = (view d w).bars_config i

    -- With what a write of all ones leaves, as it was found for the state before.
    probe :
        (change : View → View) (value : ℕ)
        → ((w₁ : link.World)
            → view d w₁ ≡ view d w
            → after (d.mock w₁) (d.host w₁) i 0xffff_ffff ≡ change (view d w₁))
        → load_word (bar_offset + 4 * i) (change (view d w)).space ≡ value
        → (w' : link.World) × Probes d i w w' value × d.Ready w' × (view d w' ≡ change (view d w))
    probe change value written holds =
        let off : ℕ = bar_offset + 4 * i in
        let (w₁, first, r₁, kept₁) = fetch off w ready (omega arith) (omega arith) in
        let (w₂, asked, r₂, left) =
          d.writes off (bytes32 0xffff_ffff) w₁ r₁ (omega arith) (omega arith) refl in
        let (w₃, second, r₃, kept₃) = fetch off w₂ r₂ (omega arith) (omega arith) in
        let v₂ : view d w₂ ≡ change (view d w) = left ∙ written w₁ kept₁ ∙ ap change kept₁ in
        (
          w₃,
          (w₁, w₂, first, asked, second, ap (λ (v : View). load_word off v.space) v₂ ∙ holds),
          r₃,
          kept₃ ∙ v₂,
        )

    -- The round for a BAR that the device does not have.
    pub skip :
        bar.size ≡ 0
        → bar.config ≡ 0
        → (w' : link.World) × Exchange d i w w' × d.Ready w' × (view d w' ≡ absent i (view d w))
    skip no_size no_config =
        let (w', probed, ready', v) =
          probe (absent i) 0
            (λ w₁ kept.
              let same : (d.mock w₁).bars_config i ≡ bar =
                ap (λ (v : View). v.bars_config i) kept in
              absent_written (d.mock w₁) (d.host w₁) i in_range
                (ap (λ (b : BarConfig). b.size) same ∙ no_size)
                (ap (λ (b : BarConfig). b.config) same ∙ no_config))
            (load-store_word (bar_offset + 4 * i) 0 (view d w).space (omega arith)) in
        (w', passed_over probed, ready', v)

    -- The round for a BAR of `2 ^ k` bytes.
    module _ (k : ℕ) (low : 4 ≤ k) (high : k ≤ 18) (sized : bar.size ≡ 2 ^ k)
        (small : bar.config < 16) (device_free : (view d w).device_bar i ≡ 0)
        (host_free : (view d w).host_bar i ≡ 0) where
      fitting : register_probed k bar < 2 ^ 32
      fitting = omega (arith, bounds k bar.config low (omega arith) small)

      size_read :
          (w' : link.World) × Probes d i w w' (register_probed k bar)
          × d.Ready w'
          × (view d w' ≡ probed i k (view d w))
      size_read =
          probe (probed i k) (register_probed k bar)
            (λ w₁ kept.
              probe_written (d.mock w₁) (d.host w₁) i in_range k low (omega arith)
                (ap (λ (v : View). (v.bars_config i).size) kept ∙ sized)
                (subst (λ (v : View). (v.bars_config i).config < 16) (sym kept) small))
            (load-store_word (bar_offset + 4 * i) (register_probed k bar) (view d w).space fitting)

      -- The write of the address, when the host has registered the BAR.
      address_given :
          (w₁ : link.World)
          → d.Ready w₁
          → view d w₁ ≡ hosted i k (probed i k (view d w))
          → (w' : link.World) × (link.warppipe_config0_write
                (bar_offset + 4 * i)
                (bytes32 (bar_address i))
                w₁
              ≡ (true, w'))
            × d.Ready w'
            × (view d w' ≡ settled i k (view d w))
      address_given w₁ r₁ v₁ =
          let (w', asked, ready', left) =
            d.writes (bar_offset + 4 * i) (bytes32 (bar_address i)) w₁ r₁ (omega arith)
              (omega arith) refl in
          let same : (d.mock w₁).bars_config i ≡ bar = ap (λ (v : View). v.bars_config i) v₁ in
          (
            w',
            asked,
            ready',
            left
                ∙ address_written (d.mock w₁) (d.host w₁) i in_range k low (omega arith)
                    (ap (λ (b : BarConfig). b.size) same ∙ sized)
                    (subst (λ (b : BarConfig). b.config < 16) (sym same) small) (bar_address i)
                    ((4 + i) * 2 ^ (18 - k)) (multiple i k high) (omega arith)
                    (ap (λ (v : View). v.device_bar i) v₁ ∙ device_free)
                ∙ ap (addressed i k) v₁,
          )

      pub settle :
          (w' : link.World) × Exchange d i w w' × d.Ready w' × (view d w' ≡ settled i k (view d w))
      settle =
          let (w₁, read, r₁, v₁) = size_read in
          let (w₂, asked, r₂, kept) = d.registers (bar_address i) (2 ^ k) i w₁ r₁ in_range in
          let accepted =
            register_unused (d.host w₁) (bar_address i) i k none none (omega arith)
              (ap (λ (v : View). v.host_bar i) v₁ ∙ host_free) in
          let v₂ : view d w₂ ≡ hosted i k (probed i k (view d w)) =
            kept ∙ rw accepted refl ∙ ap (hosted i k) v₁ in
          let named : link.warppipe_register_bar (bar_address i) (2 ^ k) i w₁ ≡ (true, w₂) =
            asked ∙ ap (λ (r : Client × Bool). (r.1, w₂)) accepted in
          let (w', told, ready', v) = address_given w₂ r₂ v₂ in
          (
            w',
            mapped k bar.config w₁ w₂ in_range low (omega arith) small read named told,
            ready',
            v,
          )
