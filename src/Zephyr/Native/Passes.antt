-- ===== src/Zephyr/Native/Passes.antt =====
-- The program of zephyr-samples/pcie_native with the memory mock at the other end of the link.
use warp_pipe.Base.{
  ℕ, suc, zero, ◌+◌, ◌*◌, ◌^◌, ◌≤◌, ◌<◌, ◌≡◌, ◌≢◌, inl, inr, refl, ap, sym, ◌∙◌, arith, Bool, true,
  some, List, [], ◌∷◌, Mem, slice-poke, slice, poke, pos, negsuc, ◌==◌, none,
}
use native.Mathlib.Nat.{pow-le-pow_right}
use mathlib.Core.Path.{subst}
use warp_pipe.MemoryMock.{BarConfig}
use warp_pipe.Zephyr.{Link, read_data}
use warp_pipe.Zephyr.Attached.{View, Attached, view}
use warp_pipe.Zephyr.Enumerate.Mapped.{IsUsual, IsUnmapped, IsMapped}
use warp_pipe.Zephyr.Enumerate.Whole.{enumerate_maps}
use warp_pipe.Zephyr.Populated.{
  Populated, IsReadable, IsWritable, read_mapped, read_refused, write_mapped, found_there,
}
use warp_pipe.Zephyr.Checked.{done, same_bytes, hello}
use warp_pipe.Zephyr.Native.{transfers, main}

-- A BAR that is there has 16 bytes at least.
pub usual_size : (bar : BarConfig) → IsUsual bar → bar.size ≢ 0 → 16 ≤ bar.size
usual_size bar (inl missing) found = absurd (found missing.0)
usual_size bar (inr (k, low, high, sized, small)) found =
    rw sized (pow-le-pow_right (omega arith) {i = 4} low)

small_size : (bar : BarConfig) → IsUsual bar → bar.size < 2 ^ 31
small_size bar (inl missing) = rw (missing.0) (omega arith)
small_size bar (inr (k, low, high, sized, small)) =
    let le : 2 ^ k ≤ 2 ^ 18 = pow-le-pow_right (omega arith) {i = k} high in
    rw sized (omega (arith, le))

same_bytes_self : (xs : List ℕ) → same_bytes xs xs ≡ true
unfolding same_bytes
same_bytes_self [] = refl
same_bytes_self (x ∷ xs) = ground (arith, same_bytes_self xs)

-- The first bytes of an array that was filled.
first_five : (buf m : Mem) → slice (poke buf 0 (slice m 0 16)) 0 5 ≡ slice m 0 5
unfolding poke slice
first_five buf m = refl

-- The first two BARs are mapped, can be read, and the second one written, and the third is missing.
abbrev pub IsPrepared : View → Type 0
IsPrepared v =
    IsReadable v 0
    × IsWritable v 1
    × (16 ≤ (v.bars_config 0).size)
    × (16 ≤ (v.bars_config 1).size)
    × (v.host_bar 2 ≡ 0)

up_to_first :
    (v : View)
    → ((j : ℕ) → j < 6 → IsMapped v j)
    → (v.bars_config 0).size ≢ 0
    → (j : ℕ) → j ≤ 0
    → IsMapped v j × ((v.bars_config j).size ≢ 0)
up_to_first v mapped first zero le = (mapped 0 (omega arith), first)
up_to_first v mapped first (suc j) le = absurd (omega arith)

up_to_second :
    (v : View)
    → ((j : ℕ) → j < 6 → IsMapped v j)
    → (v.bars_config 0).size ≢ 0
    → (v.bars_config 1).size ≢ 0
    → (j : ℕ) → j ≤ 1
    → IsMapped v j × ((v.bars_config j).size ≢ 0)
up_to_second v mapped first second zero le = (mapped 0 (omega arith), first)
up_to_second v mapped first second (suc zero) le = (mapped 1 (omega arith), second)
up_to_second v mapped first second (suc (suc j)) le = absurd (omega arith)

module _ (link : Link) (d : Attached link) (create : link.World → Bool × link.World)
    (warppipe_write : ℕ → ℕ → List ℕ → link.World → Bool × link.World)
    (p : Populated d warppipe_write) (rounds : ℕ) (enough : d.delay + 2 ≤ rounds) where
  -- The assertions hold when the calls have these results.
  runs :
      (buf b₁ b₂ b₃ : Mem) (w w₁ w₂ w₃ w₄ : link.World)
      → read_data link rounds 0 0 16 buf w ≡ some (pos 16, b₁, w₁)
      → read_data link rounds 1 0 16 b₁ w₁ ≡ some (pos 16, b₂, w₂)
      → warppipe_write 1 0 (slice (poke b₂ 0 hello) 0 5) w₂ ≡ (true, w₃)
      → read_data link rounds 1 0 16 (poke b₂ 0 hello) w₃ ≡ some (pos 16, b₃, w₄)
      → slice b₃ 0 5 ≡ hello
      → read_data link rounds 2 0 16 b₃ w₄ ≡ some (negsuc 0, b₃, w₄)
      → transfers link create warppipe_write rounds buf w ≡ done (pos 0, w₄)
  unfolding transfers
  runs buf b₁ b₂ b₃ w w₁ w₂ w₃ w₄ e₁ e₂ e₃ e₄ same e₅ =
      rw (e₁, e₂) (rw (e₃, e₄) (rw (same, e₅) refl))

  transfers_succeed :
      (buf : Mem) (w : link.World)
      → d.Ready w
      → IsPrepared (view d w)
      → (w' : link.World) × (transfers link create warppipe_write rounds buf w ≡ done (pos 0, w'))
        × (slice ((view d w').bars_config 1).memory 0 5 ≡ hello)
  transfers_succeed buf w ready h =
      let (w₁, e₁, ready₁, v₁) =
        read_mapped link d warppipe_write p rounds enough 0 0 16 buf w ready h.0 (omega arith)
          (omega arith) (omega (arith, h.2)) in
      let h₁ : IsPrepared (view d w₁) = subst IsPrepared (sym v₁) h in
      let b₁ : Mem = poke buf 0 (slice ((view d w).bars_config 0).memory 0 16) in
      let (w₂, e₂, ready₂, v₂) =
        read_mapped link d warppipe_write p rounds enough 1 0 16 b₁ w₁ ready₁ (h₁.1).0 (omega arith)
          (omega arith) (omega (arith, h₁.3)) in
      let h₂ : IsPrepared (view d w₂) = subst IsPrepared (sym v₂) h₁ in
      let b₂ : Mem = poke b₁ 0 (slice ((view d w₁).bars_config 1).memory 0 16) in
      let (w₃, e₃, ready₃, v₃, kept, _) =
        write_mapped link d warppipe_write p rounds enough 1 0 hello w₂ ready₂ h₂.1 (omega arith)
          (omega arith) (omega (arith, h₂.3)) in
      let (sized, stored) = found_there link d warppipe_write p rounds enough 1 0 hello w₂ w₃ v₃ in
      let still : 16 ≤ ((view d w₃).bars_config 1).size = rw sized h₂.3 in
      let text : Mem = poke b₂ 0 hello in
      let (w₄, e₄, ready₄, v₄) =
        read_mapped link d warppipe_write p rounds enough 1 0 16 text w₃ ready₃ (kept 1 (h₂.1).0)
          (omega arith) (omega arith) (omega (arith, still)) in
      let memory : Mem = ((view d w₃).bars_config 1).memory in
      let missing : (view d w₄).host_bar 2 ≡ 0 = ap (λ (v : View). v.host_bar 2) (v₄ ∙ v₃) ∙ h₂.4 in
      (
        w₄,
        runs buf b₁ b₂ (poke text 0 (slice memory 0 16)) w w₁ w₂ w₃ w₄ e₁ e₂
            (ap (λ (l : List ℕ). warppipe_write 1 0 l w₂) (slice-poke b₂ 0 hello) ∙ e₃) e₄
            (first_five text memory ∙ stored)
            (read_refused link d warppipe_write p rounds enough 2 0 16
              (poke text 0 (slice memory 0 16)) w₄ (omega arith) missing),
        ap (λ (v : View). slice (v.bars_config 1).memory 0 5) v₄ ∙ stored,
      )

-- A device that the program can be tested with, as it is when the server has connected: a memory
-- mock whose first two BARs are there and whose third is not. Both can be read, and the second one
-- written.
pub record IsTestable (v : View) : Type 0 where
  pub vendor : v.space 0 + v.space 1 * 2 ^ 8 ≢ 0xffff
  pub header : v.space 0xe ≡ 0
  pub usual : (j : ℕ) → j < 6 → IsUsual (v.bars_config j)
  pub unmapped : (j : ℕ) → j < 6 → IsUnmapped v j
  pub first : (v.bars_config 0).size ≢ 0
  pub second : (v.bars_config 1).size ≢ 0
  pub third : (v.bars_config 2).size ≡ 0
  pub first_read : (v.bars_config 0).read_cb ≢ none
  pub second_read : (v.bars_config 1).read_cb ≢ none
  pub second_written : (v.bars_config 1).write_cb ≢ none

-- What an enumeration leaves of such a device.
pub IsTestable-IsPrepared :
    (v v' : View)
    → IsTestable v
    → ((j : ℕ) → j < 6 → IsMapped v' j)
    → v'.bars_config ≡ v.bars_config
    → IsPrepared v'
IsTestable-IsPrepared v v' t mapped kept =
    let size : (j : ℕ) → (v'.bars_config j).size ≡ (v.bars_config j).size =
      λ j. ap (λ (c : ℕ → BarConfig). (c j).size) kept in
    let first : (v'.bars_config 0).size ≢ 0 = λ e. t.first (sym (size 0) ∙ e) in
    let second : (v'.bars_config 1).size ≢ 0 = λ e. t.second (sym (size 1) ∙ e) in
    let missing : ((v'.bars_config 2).size == 0) ≡ true = rw (size 2 ∙ t.third) refl in
    (
      (
        (omega arith, λ j le. up_to_first v' mapped first j le),
        rw (size 0) (small_size (v.bars_config 0) (t.usual 0 (omega arith))),
        (λ e. t.first_read (sym (ap (λ (c : ℕ → BarConfig). (c 0).read_cb) kept) ∙ e)),
      ),
      (
        (
          (omega arith, λ j le. up_to_second v' mapped first second j le),
          rw (size 1) (small_size (v.bars_config 1) (t.usual 1 (omega arith))),
          (λ e. t.second_read (sym (ap (λ (c : ℕ → BarConfig). (c 1).read_cb) kept) ∙ e)),
        ),
        (λ e. t.second_written (sym (ap (λ (c : ℕ → BarConfig). (c 1).write_cb) kept) ∙ e)),
      ),
      rw (size 0) (usual_size (v.bars_config 0) (t.usual 0 (omega arith)) t.first),
      rw (size 1) (usual_size (v.bars_config 1) (t.usual 1 (omega arith)) t.second),
      (mapped 2 (omega arith)).0 ∙ rw missing refl,
    )

-- The program of pcie_native, when the server connects and the memory mock at the other end has its
-- first two BARs and not the third, with callbacks to read both and to write BAR 1 (its vendor is not 0xffff, its header type is 0, each BAR that is
-- there has a power of two from 16 bytes to 256 KB, and none has an address yet on either side),
-- comes to its end with 0: no assertion fails, so that the reads give 16 bytes each, the text that
-- was written to BAR 1 is read back, and the read of BAR 2 is refused. The text then stands at the
-- start of the device's BAR 1. Each wait may take two rounds more than the delay of the device.
pub main_passes :
    (link : Link) (d : Attached link) (create : link.World → Bool × link.World)
    (warppipe_write : ℕ → ℕ → List ℕ → link.World → Bool × link.World)
    (p : Populated d warppipe_write) (rounds : ℕ) (junk : Mem) (w w₁ : link.World)
    → d.delay + 2 ≤ rounds
    → create w ≡ (true, w₁)
    → d.Ready w₁
    → IsTestable (view d w₁)
    → (w' : link.World) × (main link create warppipe_write rounds junk w ≡ done (pos 0, w'))
      × (slice ((view d w').bars_config 1).memory 0 5 ≡ hello)
unfolding main
main_passes link d create warppipe_write p rounds junk w w₁ enough made ready t =
    let (w₂, e₂, ready₂, mapped, kept) =
      enumerate_maps link d junk rounds w₁ enough ready t.vendor t.header t.usual t.unmapped in
    let (w₃, e₃, text) =
      transfers_succeed link d create warppipe_write p rounds enough junk w₂ ready₂
        (IsTestable-IsPrepared (view d w₁) (view d w₂) t mapped kept) in
    (w₃, rw (made, e₂) e₃, text)
