-- ===== src/Dma/Config/Slots.antt =====
-- What a configuration does to the channels and to the slots of the blocks.
use warp_pipe.Base.{
  ℕ, suc, zero, ◌+◌, ◌≤◌, ◌<◌, ◌≡◌, ◌≢◌, ◌⊎◌, inl, inr, refl, ap, sym, ◌∙◌, arith, true, false,
  Bool, Bool-cases, List, [], ◌∷◌, length, get_or, update, update_at, update_apart,
}
use mathlib.Core.Path.{subst}
use warp_pipe.Dma.State.{
  ChannelState, unused, loaded, started, stopped, DmaBlockConfig, DmaConfig, DmaEmulConfig, Driver,
  Result, success, einval, ebusy,
}
use warp_pipe.Dma.Config.{dma_emul_config_valid, copy_blocks, first_slot, load, dma_emul_configure}
use warp_pipe.Dma.Config.Valid.{IsConfigValid, IsConfigValid-iff}

copied_before :
    (i count : ℕ) (blocks : List DmaBlockConfig) (slots : ℕ → DmaBlockConfig) (j : ℕ)
    → (j < i) ⊎ (i + count ≤ j)
    → copy_blocks i count blocks slots j ≡ slots j
unfolding copy_blocks
copied_before i zero blocks slots j h = refl
copied_before i (suc count) [] slots j h = refl
copied_before i (suc count) (b ∷ blocks) slots j h =
    copied_before (i + 1) count blocks (update slots i b) j
      (elim h [ inl lt ↦ inl (omega (arith, lt)) | inr le ↦ inr (omega (arith, le)) ])
    ∙ (elim h [ inl lt ↦ ground (arith, lt) | inr le ↦ ground (arith, le) ])

copied :
    (i count : ℕ) (blocks : List DmaBlockConfig) (slots : ℕ → DmaBlockConfig) (j : ℕ)
    (d : DmaBlockConfig)
    → count ≤ length blocks
    → j < count
    → copy_blocks i count blocks slots (i + j) ≡ get_or blocks j d
unfolding copy_blocks
copied i zero blocks slots j d there lt = absurd (omega arith)
copied i (suc count) [] slots j d there lt = absurd (omega arith)
copied i (suc count) (b ∷ blocks) slots zero d there lt =
    copied_before (i + 1) count blocks (update slots i b) (i + 0) (inl (omega arith)) ∙ ground arith
copied i (suc count) (b ∷ blocks) slots (suc j) d there lt =
    let next : i + suc j ≡ i + 1 + j = omega arith in
    rw next (copied (i + 1) count blocks (update slots i b) j d (omega arith) (omega arith))

-- The channel has the configuration and is loaded, its slots from `first_slot` on hold the counted
-- blocks of the list in order, and nothing else of the two arrays is changed.
abbrev pub IsLoaded : DmaEmulConfig → Driver → ℕ → DmaConfig → Driver → Type 0
IsLoaded config d channel c d' =
    (d'.xfer channel ≡ record c { reserved = loaded })
    × ((other : ℕ) → other ≢ channel → d'.xfer other ≡ d.xfer other)
    × ((i : ℕ) (b : DmaBlockConfig)
        → i < c.block_count
        → d'.block (first_slot config channel c + i) ≡ get_or c.head_block i b)
    × ((j : ℕ)
        → (j < first_slot config channel c) ⊎ (first_slot config channel c + c.block_count ≤ j)
        → d'.block j ≡ d.block j)

pub load-IsLoaded :
    (config : DmaEmulConfig) (d : Driver) (channel : ℕ) (c : DmaConfig)
    → c.block_count ≤ length c.head_block
    → IsLoaded config d channel c (load config d channel c)
unfolding load
load-IsLoaded config d channel c there = (
  update_at (update d.xfer channel c) channel _
      ∙ ap (λ (x : DmaConfig). record x { reserved = loaded }) (update_at d.xfer channel c),
  λ other apart.
      update_apart (update d.xfer channel c) channel other _ apart
      ∙ update_apart d.xfer channel other c apart,
  λ i b lt. copied (first_slot config channel c) c.block_count c.head_block d.block i b there lt,
  λ j out. copied_before (first_slot config channel c) c.block_count c.head_block d.block j out,
)

state_cases :
    (state : ChannelState)
    → ((state ≡ loaded) ⊎ (state ≡ started)) ⊎ ((state ≡ unused) ⊎ (state ≡ stopped))
state_cases unused = inr (inl refl)
state_cases loaded = inl (inl refl)
state_cases started = inl (inr refl)
state_cases stopped = inr (inr refl)

not_true : (b : Bool) → b ≡ false → b ≢ true
not_true b e f = grind arith

module _ (config : DmaEmulConfig) (d : Driver) (channel : ℕ) (c : DmaConfig) where
  refused :
      dma_emul_config_valid config channel c ≡ false
      → dma_emul_configure config d channel c ≡ (einval, d)
  unfolding dma_emul_configure
  refused e = rw e refl

  pub busy :
      dma_emul_config_valid config channel c ≡ true
      → ((d.xfer channel).reserved ≡ loaded) ⊎ ((d.xfer channel).reserved ≡ started)
      → dma_emul_configure config d channel c ≡ (ebusy, d)
  unfolding dma_emul_configure
  busy e (inl s) = rw (e, s) refl
  busy e (inr s) = rw (e, s) refl

  pub free :
      dma_emul_config_valid config channel c ≡ true
      → ((d.xfer channel).reserved ≡ unused) ⊎ ((d.xfer channel).reserved ≡ stopped)
      → dma_emul_configure config d channel c ≡ (success, load config d channel c)
  unfolding dma_emul_configure
  free e (inl s) = simp (e, s)
  free e (inr s) = simp (e, s)

-- -EINVAL, -EBUSY or success.
abbrev pub Outcome : DmaEmulConfig → Driver → ℕ → DmaConfig → Type 0
Outcome config d channel c =
    (¬ IsConfigValid config channel c) × (dma_emul_configure config d channel c ≡ (einval, d))
    ⊎ (IsConfigValid config channel c
        × ((d.xfer channel).reserved ≡ loaded ⊎ (d.xfer channel).reserved ≡ started)
        × (dma_emul_configure config d channel c ≡ (ebusy, d)))
    ⊎ (IsConfigValid config channel c
        × ((d.xfer channel).reserved ≡ unused ⊎ (d.xfer channel).reserved ≡ stopped)
        × ((dma_emul_configure config d channel c).0 ≡ success)
        × IsLoaded config d channel c (dma_emul_configure config d channel c).1)

-- Every outcome of `dma_emul_configure`: -EINVAL and no change for a configuration that is not
-- valid; for a valid one -EBUSY and no change if the channel is loaded or started, and otherwise
-- success, with the channel loaded and just the slots for its counted blocks written.
pub configure_outcome :
    (config : DmaEmulConfig) (d : Driver) (channel : ℕ) (c : DmaConfig) → Outcome config d channel c
configure_outcome config d channel c = elim (Bool-cases (dma_emul_config_valid config channel c)) [
  | inr e ↦
      inl
        (λ v. not_true _ e ((IsConfigValid-iff config channel c).1 v), refused config d channel c e)
  | inl e ↦
      let v = (IsConfigValid-iff config channel c).0 e in
      elim (state_cases (d.xfer channel).reserved) [
        | inl s ↦ inr (inl (v, s, busy config d channel c e s))
        | inr s ↦ inr (
            inr (
              let done = free config d channel c e s in
              (
                v,
                s,
                ap (λ (r : Result × Driver). r.0) done,
                subst (λ (r : Result × Driver). IsLoaded config d channel c r.1) (sym done)
                    (load-IsLoaded config d channel c v.3),
              )))
      ]
]
