-- ===== src/MemoryMock/Transfers.antt =====
-- Reads and writes of the memory behind a BAR.
use warp_pipe.Base.{
  ℕ, ◌+◌, ◌-◌, ◌^◌, ◌≤◌, ◌<◌, ◌≡◌, ◌⊎◌, ◌↔◌, inl, inr, refl, arith, ap, ◌∙◌, Bool-cases, none, some,
  Mem, slice, poke, slice-poke, poke_above, poke_below, length-slice, ltb, true, false, List,
  length, ℤ, pos, negsuc, ltb_ℤ,
}
use warp_pipe.MemoryMock.{BarConfig, copied, truncated, read_bar, write_bar}

-- A length that fits is kept, unless the rest of the BAR is no `int`.
truncated_cases :
    (size addr n : ℕ)
    → addr + n ≤ size
    → (truncated size addr (pos n) ≡ pos n) ⊎ ((k : ℕ) × (truncated size addr (pos n) ≡ negsuc k))
truncated_cases size addr n fits = elim (Bool-cases (ltb (size - addr) (2 ^ 31))) [
  | inl e ↦
      (let whole : ltb (size - addr) n ≡ false = ground (arith, fits) in inl (rw e (rw whole refl)))
  | inr e ↦ inr (2 ^ 32 - 1 - (size - addr), rw e refl)
]

-- A read that gives bytes gives those of the memory, if it lies within the BAR.
pub read_bar_lem :
    (bar : BarConfig) (addr n : ℕ) (bytes : List ℕ)
    → addr + n ≤ bar.size
    → read_bar bar addr (pos n) ≡ copied bytes
    → bytes ≡ slice bar.memory addr n
unfolding read_bar
read_bar_lem bar addr n bytes fits e =
    let inside : ltb bar.size addr ≡ false = ground (arith, fits) in
    elim (truncated_cases bar.size addr n fits) [
      | inl t ↦ cc (e, inside, t)
      | inr (k, t) ↦ cc (e, inside, t)
    ]

-- A read that lies within a BAR of less than 2 ^ 31 bytes.
pub read_bar_whole :
    (bar : BarConfig) (addr n : ℕ)
    → addr + n ≤ bar.size
    → bar.size < 2 ^ 31
    → read_bar bar addr (pos n) ≡ copied (slice bar.memory addr n)
unfolding read_bar
read_bar_whole bar addr n fits small =
    let inside : ltb bar.size addr ≡ false = ground (arith, fits) in
    let known : ltb (bar.size - addr) (2 ^ 31) ≡ true = ground (arith, small) in
    let whole : ltb (bar.size - addr) n ≡ false = ground (arith, fits) in
    rw (inside, known) (rw whole refl)

-- A write that does not run past the memory stores its bytes, if they lie within the BAR.
pub write_bar_lem :
    (bar bar' : BarConfig) (addr n : ℕ) (payload : Mem)
    → addr + n ≤ bar.size
    → write_bar bar addr payload (pos n) ≡ some bar'
    → bar' ≡ record bar { memory = poke bar.memory addr (slice payload 0 n) }
unfolding write_bar
write_bar_lem bar bar' addr n payload fits e =
    let inside : ltb bar.size addr ≡ false = ground (arith, fits) in
    elim (truncated_cases bar.size addr n fits) [
      | inl t ↦ cc (e, inside, t)
      | inr (k, t) ↦ cc (e, inside, t)
    ]

pub held_after_write :
    (old bar : BarConfig) (addr : ℕ) (bytes : List ℕ)
    → addr + length bytes ≤ old.size
    → write_bar old addr (poke (λ _. 0) 0 bytes) (pos (length bytes)) ≡ some bar
    → bar ≡ record old { memory = poke old.memory addr bytes }
held_after_write old bar addr bytes fits e =
    write_bar_lem old bar addr (length bytes) (poke (λ _. 0) 0 bytes) fits e
    ∙ ap (λ (l : List ℕ). record old { memory = poke old.memory addr l })
        (slice-poke (λ _. 0) 0 bytes)

-- The bytes that are copied end with the BAR.
poke-inside :
    (m : Mem) (size addr n : ℕ) (payload : Mem) (k : ℕ)
    → addr + n ≤ size
    → (size ≤ k) ⊎ (k < addr)
    → poke m addr (slice payload 0 n) k ≡ m k
poke-inside m size addr n payload k fits (inr below) = poke_below m addr _ k below
poke-inside m size addr n payload k fits (inl above) =
    poke_above m addr (slice payload 0 n) k (omega (arith, length-slice payload 0 n))

pub write_bar_whole :
    (bar : BarConfig) (addr n : ℕ) (payload : Mem)
    → addr + n ≤ bar.size
    → bar.size < 2 ^ 31
    → (bar' : BarConfig) × (write_bar bar addr payload (pos n) ≡ some bar')
unfolding write_bar
write_bar_whole bar addr n payload fits small =
    let inside : ltb bar.size addr ≡ false = ground (arith, fits) in
    let known : ltb (bar.size - addr) (2 ^ 31) ≡ true = ground (arith, small) in
    let whole : ltb (bar.size - addr) n ≡ false = ground (arith, fits) in
    (
      record bar { memory = poke bar.memory addr (slice payload 0 n) },
      rw (inside, known) (rw whole refl),
    )

-- What is left of a length that is not negative.
truncated_pos :
    (size addr n : ℕ)
    → addr ≤ size
    → size < 2 ^ 31
    → (t : ℕ) × (truncated size addr (pos n) ≡ pos t) × (addr + t ≤ size)
truncated_pos size addr n le small =
    let whole : ltb (size - addr) (2 ^ 31) ≡ true = ground (arith, small) in
    elim (Bool-cases (ltb (size - addr) n)) [
      | inl e ↦ (size - addr, rw whole (rw e refl), omega arith)
      | inr e ↦ (n, rw whole (rw e refl), ground (arith, e, le))
    ]

truncated_negsuc : (size addr n : ℕ) → size < 2 ^ 31 → truncated size addr (negsuc n) ≡ negsuc n
truncated_negsuc size addr n small =
    let whole : ltb (size - addr) (2 ^ 31) ≡ true = ground (arith, small) in rw whole refl

abbrev pub IsNegative : ℤ → Type 0
IsNegative n = ltb_ℤ n (pos 0) ≡ true

write_bar-copied :
    (bar : BarConfig) (addr : ℕ) (length : ℤ) (payload : Mem) (t : ℕ)
    → ltb bar.size addr ≡ false
    → truncated bar.size addr length ≡ pos t
    → write_bar bar addr payload length
      ≡ some (record bar { memory = poke bar.memory addr (slice payload 0 t) })
unfolding write_bar
write_bar-copied bar addr length payload t e same = rw e (rw same refl)

write_bar-outside :
    (bar : BarConfig) (addr : ℕ) (length : ℤ) (payload : Mem)
    → ltb bar.size addr ≡ true
    → write_bar bar addr payload length ≡ some bar
unfolding write_bar
write_bar-outside bar addr length payload e = rw e refl

write_bar-overrun :
    (bar : BarConfig) (addr : ℕ) (length : ℤ) (payload : Mem) (t : ℕ)
    → ltb bar.size addr ≡ false
    → truncated bar.size addr length ≡ negsuc t
    → write_bar bar addr payload length ≡ none
unfolding write_bar
write_bar-overrun bar addr length payload t e same = rw e (rw same refl)

-- A write to a BAR with less than 2 ^ 31 bytes, at any address and of any `int` as its length. The
-- `memcpy` runs past the memory just when the address is not behind the BAR and the length is
-- negative; otherwise the write changes no byte behind the end of the BAR's memory, and none before
-- the address.
pub write_bar-inside :
    (bar : BarConfig) (addr : ℕ) (length : ℤ) (payload : Mem)
    → bar.size < 2 ^ 31
    → ((write_bar bar addr payload length ≡ none) ↔ ((addr ≤ bar.size) × IsNegative length))
      × ((bar' : BarConfig) (k : ℕ)
          → write_bar bar addr payload length ≡ some bar'
          → (bar.size ≤ k) ⊎ (k < addr)
          → bar'.memory k ≡ bar.memory k)
write_bar-inside bar addr (pos n) payload small = elim (Bool-cases (ltb bar.size addr)) [
  | inl e ↦
      rw (write_bar-outside bar addr (pos n) payload e)
        (((λ h. cc h), (λ h. absurd (ground (arith, h.1)))), (λ bar' k h out. cc h))
  | inr e ↦
      (let (t, same, fits) = truncated_pos bar.size addr n (ground (arith, e)) small in
        rw (write_bar-copied bar addr (pos n) payload t e same) (
          ((λ h. cc h), (λ h. absurd (ground (arith, h.1)))),
          (λ bar' k h out.
              let kept = poke-inside bar.memory bar.size addr t payload k fits out in cc (h, kept)),
        ))
]
write_bar-inside bar addr (negsuc n) payload small = elim (Bool-cases (ltb bar.size addr)) [
  | inl e ↦
      rw (write_bar-outside bar addr (negsuc n) payload e)
        (((λ h. cc h), (λ h. absurd (ground (arith, e, h.0)))), (λ bar' k h out. cc h))
  | inr e ↦
      (let same = truncated_negsuc bar.size addr n small in
        rw (write_bar-overrun bar addr (negsuc n) payload n e same)
          (((λ h. (ground (arith, e), refl)), (λ h. refl)), (λ bar' k h out. cc h)))
]
