-- ===== src/Dma/Config/Valid.antt =====
-- Which configurations the driver takes, and what it then does with them.
use warp_pipe.Base.{
  passes, ℕ, suc, zero, ◌+◌, ◌≤◌, ◌<◌, ◌≡◌, ◌↔◌, ◌⊎◌, inl, inr, refl, arith, true, not, List, [],
  ◌∷◌, length, leb, ◌==◌,
}
use warp_pipe.Dma.State.{DmaBlockConfig, DmaConfig, DmaEmulConfig}
use warp_pipe.Dma.Config.{blocks_valid, dma_emul_config_valid}

-- The blocks are there, and there are no more of them than a channel has slots.
abbrev pub IsConfigValid : DmaEmulConfig → ℕ → DmaConfig → Type 0
IsConfigValid config channel c =
    (c.dma_slot < config.num_requests)
    × (channel < config.num_channels)
    × (c.dest_burst_length ≡ c.source_burst_length)
    × (c.block_count ≤ length c.head_block)
    × (c.block_count ≤ config.num_requests)

blocks_valid-take :
    (n i count : ℕ) (blocks : List DmaBlockConfig)
    → blocks_valid n i count blocks ≡ true
    → (count ≤ length blocks) × ((count ≡ 0) ⊎ (i + count ≤ n))
unfolding blocks_valid
blocks_valid-take n i zero blocks h = (omega arith, inl refl)
blocks_valid-take n i (suc count) [] h = absurd (grind arith)
blocks_valid-take n i (suc count) (b ∷ blocks) h =
    let (below, left) = passes (leb n i) (blocks_valid n (i + 1) count blocks) h in
    let (there, room) = blocks_valid-take n (i + 1) count blocks left in
    (
      omega (arith, there),
      inr (elim room [ inl z ↦ ground (arith, below, z) | inr m ↦ omega (arith, m) ]),
    )

take-blocks_valid :
    (n i count : ℕ) (blocks : List DmaBlockConfig)
    → count ≤ length blocks
    → i + count ≤ n
    → blocks_valid n i count blocks ≡ true
unfolding blocks_valid
take-blocks_valid n i zero blocks there room = refl
take-blocks_valid n i (suc count) [] there room = absurd (omega arith)
take-blocks_valid n i (suc count) (b ∷ blocks) there room =
    ground (arith, take-blocks_valid n (i + 1) count blocks (omega arith) (omega arith))

-- The check of a configuration passes just for the valid ones: the slot and the channel exist, the
-- burst lengths agree, the list has all the blocks that are counted, and a channel has that many
-- slots.
pub IsConfigValid-iff :
    (config : DmaEmulConfig) (channel : ℕ) (c : DmaConfig)
    → (dma_emul_config_valid config channel c ≡ true) ↔ IsConfigValid config channel c
unfolding dma_emul_config_valid
IsConfigValid-iff config channel c = (
  λ h.
      let (slot, h₁) = passes (leb config.num_requests c.dma_slot) _ h in
      let (chan, h₂) = passes (leb config.num_channels channel) _ h₁ in
      let (burst, h₃) = passes (not (c.dest_burst_length == c.source_burst_length)) _ h₂ in
      let (there, room) = blocks_valid-take config.num_requests 0 c.block_count c.head_block h₃ in
      let few : c.block_count ≤ config.num_requests = elim room [
        | inl z ↦ omega (arith, z)
        | inr m ↦ omega (arith, m)
      ] in
      (ground (arith, slot), ground (arith, chan), ground (arith, burst), there, few),
  λ (slot, chan, burst, there, room). ground (
    arith,
    slot,
    chan,
    burst,
    take-blocks_valid config.num_requests 0 c.block_count c.head_block there (omega (arith, room)),
  ),
)
