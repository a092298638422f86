-- ===== src/Dma/Start/Chain.antt =====
-- The loop of `dma_emul_start` over the channels that are linked to each other.
use warp_pipe.Base.{
  ℕ, suc, zero, ◌<◌, ◌≡◌, ◌↔◌, inl, inr, refl, ap, sym, ◌∙◌, arith, true, false, Bool-cases, Option,
  none, some, List, [], ◌∷◌, length, update_at, update_apart, ◌==◌,
}
use warp_pipe.Dma.State.{started, DmaConfig, Driver, dma_emul_set_channel_state, is_linked}
use warp_pipe.Dma.Start.{start_linked}

-- `channels` are those that come after `channel`, up to one that is not linked any further.
abbrev pub IsChain : (ℕ → DmaConfig) → ℕ → List ℕ → Type 0
IsChain xfer channel [] = is_linked (xfer channel) ≡ false
IsChain xfer channel (next ∷ channels) =
    (is_linked (xfer channel) ≡ true)
    × ((xfer channel).linked_channel ≡ next)
    × IsChain xfer next channels

abbrev pub start_all : Driver → List ℕ → Driver
start_all d [] = d
start_all d (channel ∷ channels) = start_all (dma_emul_set_channel_state d channel started) channels

-- The state of a channel has no part in how the channels are linked.
restarted :
    (d : Driver) (channel j : ℕ)
    → (is_linked ((dma_emul_set_channel_state d channel started).xfer j) ≡ is_linked (d.xfer j))
      × (((dma_emul_set_channel_state d channel started).xfer j).linked_channel
          ≡ (d.xfer j).linked_channel)
restarted d channel j = elim (Bool-cases (j == channel)) [
  | inl e ↦
      let same : j ≡ channel = ground (arith, e) in
      rw same (
        rw (update_at d.xfer channel (record (d.xfer channel) { reserved = started })) (refl, refl))
  | inr e ↦
      rw
        (update_apart d.xfer channel j (record (d.xfer channel) { reserved = started })
          (ground (arith, e)))
        (refl, refl)
]

IsChain-ext :
    (f g : ℕ → DmaConfig)
    → ((j : ℕ)
        → (is_linked (f j) ≡ is_linked (g j)) × ((f j).linked_channel ≡ (g j).linked_channel))
    → (channel : ℕ) (channels : List ℕ) → IsChain g channel channels
    → IsChain f channel channels
IsChain-ext f g same channel [] e = (same channel).0 ∙ e
IsChain-ext f g same channel (next ∷ channels) (e, to, rest) =
    ((same channel).0 ∙ e, (same channel).1 ∙ to, IsChain-ext f g same next channels rest)

-- One round of the loop.
pub ends :
    (rounds : ℕ) (d : Driver) (channel : ℕ)
    → is_linked (d.xfer channel) ≡ false
    → start_linked (suc rounds) d channel ≡ some (dma_emul_set_channel_state d channel started)
unfolding start_linked
ends rounds d channel e = rw ((restarted d channel channel).0 ∙ e) refl

goes_on :
    (rounds : ℕ) (d : Driver) (channel next : ℕ)
    → is_linked (d.xfer channel) ≡ true
    → (d.xfer channel).linked_channel ≡ next
    → start_linked (suc rounds) d channel
      ≡ start_linked rounds (dma_emul_set_channel_state d channel started) next
unfolding start_linked
goes_on rounds d channel next e to = rw ((restarted d channel channel).0 ∙ e) (
    ap (start_linked rounds (dma_emul_set_channel_state d channel started))
      ((restarted d channel channel).1 ∙ to))

-- The loop ends if the links do, within as many rounds as there are channels on the way, and has
-- then started just those channels.
start_linked-IsChain :
    (rounds : ℕ) (d : Driver) (channel : ℕ) (channels : List ℕ)
    → IsChain d.xfer channel channels
    → length channels < rounds
    → start_linked rounds d channel ≡ some (start_all d (channel ∷ channels))
start_linked-IsChain zero d channel channels chain lt = absurd (omega arith)
start_linked-IsChain (suc rounds) d channel [] chain lt = ends rounds d channel chain
start_linked-IsChain (suc rounds) d channel (next ∷ channels) (e, to, chain) lt =
    goes_on rounds d channel next e to
    ∙ start_linked-IsChain rounds (dma_emul_set_channel_state d channel started) next channels
        (IsChain-ext (dma_emul_set_channel_state d channel started).xfer d.xfer
          (restarted d channel) next channels chain)
        (omega (arith, lt))

abbrev or_else {ℓ} : {A : Type ℓ} → A → Option A → A
or_else d none = d
or_else d (some x) = x

-- Whatever the number of rounds, the loop ends only where the links do.
IsChain-start_linked :
    (rounds : ℕ) (d : Driver) (channel : ℕ) (d' : Driver)
    → start_linked rounds d channel ≡ some d'
    → (channels : List ℕ) × IsChain d.xfer channel channels
      × (length channels < rounds)
      × (d' ≡ start_all d (channel ∷ channels))
unfolding start_linked
IsChain-start_linked zero d channel d' e = absurd (grind arith)
IsChain-start_linked (suc rounds) d channel d' e = elim (Bool-cases (is_linked (d.xfer channel))) [
  | inr f ↦ ([], f, omega arith, ap (or_else d') (sym e ∙ ends rounds d channel f))
  | inl f ↦
      let (channels, chain, lt, same) =
        IsChain-start_linked rounds (dma_emul_set_channel_state d channel started)
          (d.xfer channel).linked_channel d' (sym (goes_on rounds d channel _ f refl) ∙ e) in
      (
        (d.xfer channel).linked_channel ∷ channels,
        (
          f,
          refl,
          IsChain-ext d.xfer (dma_emul_set_channel_state d channel started).xfer
              (λ j. (sym (restarted d channel j).0, sym (restarted d channel j).1))
              (d.xfer channel).linked_channel channels chain,
        ),
        omega (arith, lt),
        same,
      )
]

-- When starting linked channels returns: the loop has ended within a number of rounds just if the
-- links lead to a channel that is not linked any further, by fewer links than that; then all
-- channels on the way are started, and nothing else is changed.
pub start_linked_iff :
    (rounds : ℕ) (d : Driver) (channel : ℕ) (d' : Driver)
    → (start_linked rounds d channel ≡ some d') ↔ (
        (channels : List ℕ) × IsChain d.xfer channel channels
        × (length channels < rounds)
        × (d' ≡ start_all d (channel ∷ channels)))
start_linked_iff rounds d channel d' = (
  IsChain-start_linked rounds d channel d',
  λ (channels, chain, lt, same).
      start_linked-IsChain rounds d channel channels chain lt ∙ ap some (sym same),
)
