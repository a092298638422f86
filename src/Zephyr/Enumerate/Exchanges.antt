-- ===== src/Zephyr/Enumerate/Exchanges.antt =====
-- The six rounds of `enumerate`, and the fields that it reads before them.
use warp_pipe.Base.{ℕ, suc, zero, ◌+◌, ◌<◌, ◌≡◌, inl, inr, refl, ap, sym, ◌∙◌, arith}
use mathlib.Core.Path.{subst}
use warp_pipe.Zephyr.{Link}
use warp_pipe.Zephyr.Attached.{View, Attached, view}
use warp_pipe.Zephyr.Enumerate.{Fetches, Exchange, fetch, settle, skip}
use warp_pipe.Zephyr.Enumerate.Mapped.{
  IsUsual, IsUnmapped, IsMapped, IsHalfway, IsHalfway-absent, IsHalfway-settled,
}

-- `left` rounds from the BAR `i` on.
abbrev pub Exchanges : {link : Link} → Attached link → ℕ → ℕ → link.World → link.World → Type 0
Exchanges d zero i w w' = w ≡ w'
Exchanges {link} d (suc left) i w w' =
    (w₁ : link.World) × Exchange d i w w₁ × Exchanges d left (i + 1) w₁ w'

-- The reads and the rounds of a whole enumeration.
abbrev pub Enumerates : {link : Link} → Attached link → link.World → link.World → Type 0
Enumerates {link} d w w' =
    (w₁ w₂ : link.World) × Fetches d 0 w w₁
    × Fetches d 0xc w₁ w₂
    × (view d w₁ ≡ view d w)
    × Exchanges d 6 0 w₂ w'

module _ {link : Link} (d : Attached link) where
  one_round :
      (i : ℕ) (w : link.World)
      → i < 6
      → d.Ready w
      → IsHalfway (view d w) i
      → (w' : link.World) × Exchange d i w w'
        × d.Ready w'
        × IsHalfway (view d w') (i + 1)
        × ((view d w').bars_config ≡ (view d w).bars_config)
  one_round i w in_range ready h = elim (h.usual i in_range) [
    | inl missing ↦
        (let (w', round, ready', v) = skip d i w in_range ready missing.0 missing.1 in
          (
            w',
            round,
            ready',
            subst (λ (v : View). IsHalfway v (i + 1)) (sym v)
                (IsHalfway-absent (view d w) i in_range missing.0 missing.1 h),
            ap (λ (v : View). v.bars_config) v,
          ))
    | inr found ↦
        (let (k, low, high, sized, small) = found in
          let free = h.from_here i (omega arith) in_range in
          let (w', round, ready', v) =
            settle d i w in_range ready k low high sized small free.1 free.0 in
          (
            w',
            round,
            ready',
            subst (λ (v : View). IsHalfway v (i + 1)) (sym v)
                (IsHalfway-settled (view d w) i k in_range sized small h),
            ap (λ (v : View). v.bars_config) v,
          ))
  ]

  all_rounds :
      (left i : ℕ) (w : link.World)
      → left + i ≡ 6
      → d.Ready w
      → IsHalfway (view d w) i
      → (w' : link.World) × Exchanges d left i w w'
        × d.Ready w'
        × IsHalfway (view d w') 6
        × ((view d w').bars_config ≡ (view d w).bars_config)
  all_rounds zero i w sum ready h =
      (w, refl, ready, subst (IsHalfway (view d w)) (omega arith) h, refl)
  all_rounds (suc left) i w sum ready h =
      let (w₁, round, ready₁, h₁, same₁) = one_round i w (omega arith) ready h in
      let (w₂, rounds, ready₂, h₂, same₂) = all_rounds left (i + 1) w₁ (omega arith) ready₁ h₁ in
      (w₂, (w₁, round, rounds), ready₂, h₂, same₂ ∙ same₁)

  -- The device takes part in the enumeration, and then the BARs are mapped.
  pub takes_part :
      (w : link.World)
      → d.Ready w
      → ((j : ℕ) → j < 6 → IsUsual ((view d w).bars_config j))
      → ((j : ℕ) → j < 6 → IsUnmapped (view d w) j)
      → (w' : link.World) × Enumerates d w w'
        × d.Ready w'
        × ((j : ℕ) → j < 6 → IsMapped (view d w') j)
        × ((view d w').bars_config ≡ (view d w).bars_config)
  takes_part w ready usual unmapped =
      let (w₁, vendor, ready₁, v₁) = fetch d 0 w ready refl (omega arith) in
      let (w₂, header, ready₂, v₂) = fetch d 0xc w₁ ready₁ refl (omega arith) in
      let start : IsHalfway (view d w) 0 = record {
        usual = usual;
        before = λ j lt. elim lt [ ];
        from_here = λ j le lt. unmapped j lt;
      } in
      let (w₃, rounds, ready₃, halfway, kept) =
        all_rounds 6 0 w₂ refl ready₂ (subst (λ (v : View). IsHalfway v 0) (sym (v₂ ∙ v₁)) start) in
      (
        w₃,
        (w₁, w₂, vendor, header, v₁, rounds),
        ready₃,
        halfway.before,
        kept ∙ ap (λ (v : View). v.bars_config) (v₂ ∙ v₁),
      )
