-- ===== src/Zephyr/Enumerate/Mapped.antt =====
-- What the BARs are after `enumerate`, for the host and for the memory mock.
use warp_pipe.Base.{
  ℕ, ◌+◌, ◌*◌, ◌^◌, ◌≤◌, ◌<◌, ◌≡◌, ◌≢◌, ◌⊎◌, inl, inr, refl, ap, sym, ◌∙◌, arith, false, Mem, u32,
  ◌==◌, if◌then◌else◌, update_at, update_apart,
}
use native.Mathlib.Nat.{one-le-pow}
use mathlib.Core.Path.{subst}
use warp_pipe.ConfigSpace.{store_word}
use warp_pipe.MemoryMock.{BarConfig, bar_offset, load_word}
use warp_pipe.MemoryMock.Probe.{load-store_word}
use warp_pipe.Zephyr.Attached.{View, bar_address}
use warp_pipe.Zephyr.Settled.{absent, settled, register_probed}

-- The device does not have the BAR, or has one of 16 bytes to 256 KB, a power of two.
abbrev pub IsUsual : BarConfig → Type 0
IsUsual bar =
    ((bar.size ≡ 0) × (bar.config ≡ 0))
    ⊎ ((k : ℕ) × (4 ≤ k) × (k ≤ 18) × (bar.size ≡ 2 ^ k) × (bar.config < 16))

abbrev pub IsUnmapped : View → ℕ → Type 0
IsUnmapped v i =
    (v.host_bar i ≡ 0) × (v.device_bar i ≡ 0) × (v.host_size i ≡ 0) × (v.device_size i ≡ 0)

-- The two sides have the same address and size for the BAR, which are 0 for one that the device does
-- not have, and the register holds the address and the flags.
abbrev pub IsMapped : View → ℕ → Type 0
IsMapped v i =
    (v.host_bar i ≡ (if (v.bars_config i).size == 0 then 0 else bar_address i))
    × (v.device_bar i ≡ v.host_bar i)
    × (v.host_size i ≡ (v.bars_config i).size)
    × (v.device_size i ≡ (v.bars_config i).size)
    × (load_word (bar_offset + 4 * i) v.space ≡ v.host_bar i + (v.bars_config i).config)

load-store_apart :
    (i j n : ℕ) (m : Mem)
    → (j < i) ⊎ (i < j)
    → load_word (bar_offset + 4 * j) (store_word (bar_offset + 4 * i) n m)
      ≡ load_word (bar_offset + 4 * j) m
load-store_apart i j n m (inl h) = ground arith
load-store_apart i j n m (inr h) = ground arith

le_cases : (j i : ℕ) → j < i + 1 → (j ≡ i) ⊎ (j < i)
le_cases j i h = ground arith

-- The round for the BAR `i` leaves another one as it was.
module _ (i j : ℕ) (v : View) (apart : (j < i) ⊎ (i < j)) where
  j-ne-i : j ≢ i
  j-ne-i e = elim apart [ inl h ↦ absurd (omega arith) | inr h ↦ absurd (omega arith) ]

  absent-IsMapped : IsMapped v j → IsMapped (absent i v) j
  absent-IsMapped h = (h.0, h.1, h.2, h.3, load-store_apart i j 0 v.space apart ∙ h.4)

  module _ (k : ℕ) where
    settled-space :
        load_word (bar_offset + 4 * j) (settled i k v).space
        ≡ load_word (bar_offset + 4 * j) v.space
    settled-space =
        let first : ℕ = register_probed k (v.bars_config i) in
        load-store_apart i j (bar_address i + (v.bars_config i).config)
          (store_word (bar_offset + 4 * i) first v.space) apart
        ∙ load-store_apart i j first v.space apart

    host_kept : (settled i k v).host_bar j ≡ v.host_bar j
    host_kept = update_apart v.host_bar i j (u32 (bar_address i)) j-ne-i

    device_kept : (settled i k v).device_bar j ≡ v.device_bar j
    device_kept = update_apart v.device_bar i j (bar_address i) j-ne-i

    host_size_kept : (settled i k v).host_size j ≡ v.host_size j
    host_size_kept = update_apart v.host_size i j (2 ^ k) j-ne-i

    device_size_kept : (settled i k v).device_size j ≡ v.device_size j
    device_size_kept = update_apart v.device_size i j (2 ^ k) j-ne-i

    settled-IsMapped : IsMapped v j → IsMapped (settled i k v) j
    settled-IsMapped h = (
      host_kept ∙ h.0,
      device_kept ∙ h.1 ∙ sym host_kept,
      host_size_kept ∙ h.2,
      device_size_kept ∙ h.3,
      settled-space ∙ h.4 ∙ ap (λ (a : ℕ). a + (v.bars_config j).config) (sym host_kept),
    )

    settled-IsUnmapped : IsUnmapped v j → IsUnmapped (settled i k v) j
    settled-IsUnmapped h =
        (host_kept ∙ h.0, device_kept ∙ h.1, host_size_kept ∙ h.2, device_size_kept ∙ h.3)

-- The round for the BAR `i` maps it.
module _ (i : ℕ) (v : View) (in_range : i < 6) where
  absent_maps :
      (v.bars_config i).size ≡ 0
      → (v.bars_config i).config ≡ 0
      → IsUnmapped v i
      → IsMapped (absent i v) i
  absent_maps no_size no_config h = (
    rw no_size h.0,
    h.1 ∙ sym h.0,
    h.2 ∙ sym no_size,
    h.3 ∙ sym no_size,
    load-store_word (bar_offset + 4 * i) 0 v.space (omega arith) ∙ omega arith,
  )

  settled_maps :
      (k : ℕ)
      → (v.bars_config i).size ≡ 2 ^ k
      → (v.bars_config i).config < 16
      → IsMapped (settled i k v) i
  settled_maps k sized small =
      let n : ℕ = bar_address i + (v.bars_config i).config in
      let present : ((v.bars_config i).size == 0) ≡ false =
        ground (arith, one-le-pow k 2 (omega arith)) in
      let host : (settled i k v).host_bar i ≡ bar_address i =
        update_at v.host_bar i (u32 (bar_address i)) ∙ omega arith in
      (
        host ∙ rw present refl,
        update_at v.device_bar i (bar_address i) ∙ sym host,
        update_at v.host_size i (2 ^ k) ∙ sym sized,
        update_at v.device_size i (2 ^ k) ∙ sym sized,
        load-store_word (bar_offset + 4 * i) n
              (store_word (bar_offset + 4 * i) (register_probed k (v.bars_config i)) v.space)
              (omega arith)
            ∙ ap (λ (a : ℕ). a + (v.bars_config i).config) (sym host),
      )

-- The BARs before `i` are mapped, and those from `i` on are not.
pub record IsHalfway (v : View) (i : ℕ) : Type 0 where
  pub usual : (j : ℕ) → j < 6 → IsUsual (v.bars_config j)
  pub before : (j : ℕ) → j < i → IsMapped v j
  pub from_here : (j : ℕ) → i ≤ j → j < 6 → IsUnmapped v j

pub IsHalfway-absent :
    (v : View) (i : ℕ)
    → i < 6
    → (v.bars_config i).size ≡ 0
    → (v.bars_config i).config ≡ 0
    → IsHalfway v i
    → IsHalfway (absent i v) (i + 1)
IsHalfway-absent v i in_range no_size no_config h = record {
  usual = h.usual;
  before = λ j lt. elim (le_cases j i lt) [
    | inl e ↦
        subst (IsMapped (absent i v)) (sym e)
          (absent_maps i v in_range no_size no_config (h.from_here i (omega arith) in_range))
    | inr less ↦ absent-IsMapped i j v (inl less) (h.before j less)
  ];
  from_here = λ j le lt. h.from_here j (omega arith) lt;
}

pub IsHalfway-settled :
    (v : View) (i k : ℕ)
    → i < 6
    → (v.bars_config i).size ≡ 2 ^ k
    → (v.bars_config i).config < 16
    → IsHalfway v i
    → IsHalfway (settled i k v) (i + 1)
IsHalfway-settled v i k in_range sized small h = record {
  usual = h.usual;
  before = λ j lt. elim (le_cases j i lt) [
    | inl e ↦ subst (IsMapped (settled i k v)) (sym e) (settled_maps i v in_range k sized small)
    | inr less ↦ settled-IsMapped i j v (inl less) k (h.before j less)
  ];
  from_here =
      λ j le lt. settled-IsUnmapped i j v (inr (omega arith)) k (h.from_here j (omega arith) lt);
}
