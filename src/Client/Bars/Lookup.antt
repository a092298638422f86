-- ===== src/Client/Bars/Lookup.antt =====
-- Which BAR `get_bar_idx` finds.
use warp_pipe.Base.{
  ℕ, zero, suc, ◌+◌, ◌-◌, ◌*◌, ◌/◌, ◌%◌, ◌^◌, ◌≤◌, ◌<◌, ◌≡◌, ◌≢◌, ◌↔◌, ap, ◌∙◌, inl, inr, bit_and,
  arith, true, false, Bool-cases, Option, none, some, u32, sym, ==_iff,
}
use native.Mathlib.Nat.{
  one-le-pow, mul_comm, mul_assoc, div-add-mod', mod-lt, mod-eq_of_lt, div-lt_iff_lt-mul,
  mul-add-div_right, mul-add-mod_self_right, div-eq_of_lt-le,
}
use mathlib.Core.Path.{subst}
use warp_pipe.Base.Bits.{bit_and-shift, bit_and-mask, bit_and-zero, two-pow-add}
use warp_pipe.Crc.{complement32}
use warp_pipe.Client.State.{Client}
use warp_pipe.Client.Bars.{size_mask, in_bar, find_bar, get_bar_idx}

-- The BAR at `i` was registered with a size of `2 ^ k`, at a multiple of it.
pub record IsRegistered (client : Client) (i k : ℕ) : Type 0 where
  pub small : k < 32
  pub sized : client.bar_size i ≡ 2 ^ k
  pub aligned : client.bar i % 2 ^ k ≡ 0
  pub fits : client.bar i < 2 ^ 32

-- The BAR at `i` is as `warppipe_client_create` left it.
pub record IsUnused (client : Client) (i : ℕ) : Type 0 where
  pub no_size : client.bar_size i ≡ 0
  pub no_address : client.bar i ≡ 0

-- The window that holds an address, by the bits above `t` and below `t * d`.
pub window_start : (addr t d : ℕ) → 0 < t → 0 < d → (addr / t % d) * t ≡ addr % (t * d) / t * t
window_start addr t d ht hd =
    let w : ℕ = t * d in
    let r : ℕ = addr % w in
    let split : addr ≡ addr / w * d * t + r =
      omega (arith, div-add-mod' addr w, mul_comm t d, mul_assoc (addr / w) d t) in
    let above : addr / t ≡ addr / w * d + r / t =
      ap (λ (x : ℕ). x / t) split ∙ mul-add-div_right ht (addr / w * d) r in
    let below : r / t < d =
      (div-lt_iff_lt-mul ht).1 (rw (mul_comm d t) (mod-lt addr (grind arith))) in
    rw (above, mul-add-mod_self_right (addr / w) d (r / t), mod-eq_of_lt below)

pub less_one : (d t : ℕ) → 0 < d → (d - 1) * t + t ≡ d * t
less_one zero t h = absurd (omega arith)
less_one (suc d) t h = let before : suc d - 1 ≡ d = omega arith in rw before (omega arith)

module _ (k : ℕ) (small : k < 32) where
  abbrev higher : ℕ
  higher = 2 ^ (32 - k)

  word_split : 2 ^ k * higher ≡ 2 ^ 32
  word_split =
      let whole : k + (32 - k) ≡ 32 = omega arith in
      sym (two-pow-add k (32 - k)) ∙ ap (λ (e : ℕ). 2 ^ e) whole

  window_mask : complement32 (size_mask (2 ^ k)) ≡ (higher - 1) * 2 ^ k
  window_mask =
      let positive = one-le-pow (32 - k) 2 (omega arith) in
      omega (arith, word_split, one-le-pow k 2 (omega arith), less_one higher (2 ^ k) positive)

  pub window_lem :
      (addr : ℕ) → bit_and addr (complement32 (size_mask (2 ^ k))) ≡ u32 addr / 2 ^ k * 2 ^ k
  window_lem addr =
      rw (window_mask, bit_and-shift k addr (higher - 1), bit_and-mask (32 - k) (addr / 2 ^ k))
        (window_start addr (2 ^ k) higher (one-le-pow k 2 (omega arith))
            (one-le-pow (32 - k) 2 (omega arith))
          ∙ ap (λ (w : ℕ). addr % w / 2 ^ k * 2 ^ k) word_split)

pub multiple_iff : (r b t : ℕ) → 0 < t → b % t ≡ 0 → (r / t * t ≡ b) ↔ ((b ≤ r) × (r < b + t))
multiple_iff r b t ht h = (
  (λ e. (omega (arith, div-add-mod' r t), omega (arith, div-add-mod' r t, mod-lt r ht))),
  (λ p.
      let whole : b / t * t ≡ b = omega (arith, div-add-mod' b t) in
      ap (λ (x : ℕ). x * t) (div-eq_of_lt-le {k = b / t} t (omega arith) (omega arith)) ∙ whole),
)

-- A BAR that was registered with a size of `2 ^ k`, for a `k` below 32, at a multiple of this size
-- takes exactly the addresses whose low 32 bits lie in its window: the high bits are ignored.
pub in_bar_iff :
    (client : Client) (addr i k : ℕ)
    → IsRegistered client i k
    → (in_bar client addr i ≡ true)
      ↔ ((client.bar i ≤ u32 addr) × (u32 addr < client.bar i + 2 ^ k))
unfolding in_bar
in_bar_iff client addr i k r =
    let same =
      multiple_iff (u32 addr) (client.bar i) (2 ^ k) (one-le-pow k 2 (omega arith)) r.aligned in
    let test = ==_iff (u32 addr / 2 ^ k * 2 ^ k) (client.bar i) in
    rw (r.sized, window_lem k r.small addr) ((λ e. same.0 (test.0 e)), (λ p. test.1 (same.1 p)))

-- An unused BAR is found for every address.
pub in_bar_unused : (client : Client) (addr i : ℕ) → IsUnused client i → in_bar client addr i ≡ true
unfolding in_bar
in_bar_unused client addr i u = rw (u.no_size, u.no_address, bit_and-zero addr)

-- What the loop from `i` on comes to.
abbrev Finds : Client → ℕ → ℕ → ℕ → Option ℕ → Type 0
Finds client addr i left none = (h : ℕ) → i ≤ h → h < i + left → in_bar client addr h ≡ false
Finds client addr i left (some j) =
    (i ≤ j)
    × (j < i + left)
    × (in_bar client addr j ≡ true)
    × ((h : ℕ) → i ≤ h → h < j → in_bar client addr h ≡ false)

Finds-suc :
    (client : Client) (addr i left : ℕ) (r : Option ℕ)
    → in_bar client addr i ≡ false
    → Finds client addr (i + 1) left r
    → Finds client addr i (suc left) r
Finds-suc client addr i left none out rest = λ h lo hi. ground (arith, rest h)
Finds-suc client addr i left (some j) out rest =
    (omega arith, omega arith, rest.2, λ h lo hi. ground (arith, rest.3 h))

find_bar-Finds :
    (client : Client) (addr i left : ℕ) → Finds client addr i left (find_bar client addr i left)
unfolding find_bar
find_bar-Finds client addr i zero = λ h lo hi. absurd (omega arith)
find_bar-Finds client addr i (suc left) = elim (Bool-cases (in_bar client addr i)) [
  | inl e ↦ rw e (omega arith, omega arith, e, λ h lo hi. absurd (omega arith))
  | inr e ↦ rw e (Finds-suc client addr i left _ e (find_bar-Finds client addr (i + 1) left))
]

abbrev IsFirst : Client → ℕ → ℕ → Type 0
IsFirst client addr j =
    (j < 6) × (in_bar client addr j ≡ true) × ((h : ℕ) → h < j → in_bar client addr h ≡ false)

Finds-first :
    (client : Client) (addr j : ℕ) (r : Option ℕ)
    → Finds client addr 0 6 r
    → IsFirst client addr j
    → r ≡ some j
Finds-first client addr j none f p = cc (f j (omega arith) (omega arith), p.1)
Finds-first client addr j (some i) f p = ground (arith, f.3 j, p.2 i)

Finds-some :
    (client : Client) (addr j : ℕ) (r : Option ℕ)
    → Finds client addr 0 6 r
    → r ≡ some j
    → IsFirst client addr j
Finds-some client addr j none f e = cc
Finds-some client addr j (some i) f e =
    let same : i ≡ j = cc in
    subst (IsFirst client addr) same (omega arith, f.2, λ h lt. f.3 h (omega arith) lt)

Finds-none :
    (client : Client) (addr : ℕ) (r : Option ℕ)
    → Finds client addr 0 6 r
    → r ≡ none
    → (h : ℕ) → h < 6
    → in_bar client addr h ≡ false
Finds-none client addr none f e h lt = f h (omega arith) lt
Finds-none client addr (some j) f e h lt = cc

-- `get_bar_idx` gives the first of the six BARs that holds the address.
pub get_bar_idx_iff :
    (client : Client) (addr j : ℕ)
    → (get_bar_idx client addr ≡ some j)
      ↔ ((j < 6) × (in_bar client addr j ≡ true) × ((h : ℕ) → h < j → in_bar client addr h ≡ false))
unfolding get_bar_idx
get_bar_idx_iff client addr j = (
  Finds-some client addr j _ (find_bar-Finds client addr 0 6),
  Finds-first client addr j _ (find_bar-Finds client addr 0 6),
)

-- While one of the six BARs is unused, no address is reported to be outside all BARs, and a BAR at
-- a higher index than the unused one is never found.
pub unused_hides :
    (client : Client) (addr i j : ℕ)
    → i < 6
    → IsUnused client i
    → (i < j → get_bar_idx client addr ≢ some j) × (get_bar_idx client addr ≢ none)
unfolding get_bar_idx
unused_hides client addr i j lt u = (
  (λ later found.
      cc (in_bar_unused client addr i u, ((get_bar_idx_iff client addr j).0 found).2 i later)),
  (λ missed. cc (
    in_bar_unused client addr i u,
    Finds-none client addr _ (find_bar-Finds client addr 0 6) missed i lt,
  )),
)
