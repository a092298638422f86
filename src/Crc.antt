-- ===== src/Crc.antt =====
-- src/crc.c with the polynomials of inc/warppipe/crc.h. `crc32p` takes the bytes from `start` up
-- to `end` as a list; a packet is the memory of its `struct pcie_dllp` or `struct pcie_dltlp`.
pub mod Word
pub mod Detection
pub mod Dllp
pub mod Lcrc
use warp_pipe.Base.{
  ℕ, zero, suc, ◌+◌, ◌-◌, ◌%◌, ◌^◌, bit_and, bit_xor, Bool, true, false, List, [], ◌∷◌, Mem, update,
  view, slice, u16, u32, ◌>>>◌, ◌==◌, if◌then◌else◌, ℤ, pos, negsuc,
}
use warp_pipe.Proto.Layout.{dl_crc16, dl_tlp}
use warp_pipe.Proto.Header.{has, tlp_total_length}

abbrev pub dllp_crc16_poly : ℕ
dllp_crc16_poly = 0xd008

abbrev pub tlp_lcrc32_poly : ℕ
tlp_lcrc32_poly = 0xedb88320

-- One round of the inner loop.
unfoldable pub crc_round : ℕ → ℕ → ℕ
crc_round poly crc = if has crc 1 then bit_xor (crc >>> 1) poly else crc >>> 1

unfoldable pub crc_rounds : ℕ → ℕ → ℕ → ℕ
unfolding crc_round
crc_rounds zero poly crc = crc
crc_rounds (suc n) poly crc = crc_rounds n poly (crc_round poly crc)

unfoldable pub crc32p : List ℕ → ℕ → ℕ → ℕ
unfolding crc_rounds
crc32p [] crc poly = crc
crc32p (byte ∷ rest) crc poly = crc32p rest (crc_rounds 8 poly (bit_xor crc byte)) poly

-- `~x` of a `uint32_t`.
abbrev pub complement32 : ℕ → ℕ
complement32 x = 2 ^ 32 - 1 - x

-- `for (i = 0; i < n; i++) { p[i] = crc & 0xff; crc = crc >> 8; }` with `left` for `n - i`.
unfoldable pub store_crc : ℕ → ℕ → ℕ → Mem → Mem
store_crc crc p zero pkt = pkt
store_crc crc p (suc left) pkt =
    store_crc (crc >>> 8) (p + 1) left (update pkt p (bit_and crc 0xff))

-- `for (i = 0; i < n; i++) { if (p[i] != (crc & 0xff)) return false; crc = crc >> 8; }`
unfoldable pub matches_crc : ℕ → ℕ → ℕ → Mem → Bool
matches_crc crc p zero pkt = true
matches_crc crc p (suc left) pkt =
    let rest = matches_crc (crc >>> 8) (p + 1) left pkt in
    if pkt p == bit_and crc 0xff then rest else false

unfoldable pub dllp_crc : Mem → ℕ
unfolding crc32p
dllp_crc pkt = u16 (complement32 (crc32p (slice pkt 0 dl_crc16) 0xffff dllp_crc16_poly))

unfoldable pub pcie_crc16 : Mem → Mem
unfolding dllp_crc store_crc
pcie_crc16 pkt = store_crc (dllp_crc pkt) dl_crc16 2 pkt

unfoldable pub pcie_crc16_valid : Mem → Bool
unfolding dllp_crc matches_crc
pcie_crc16_valid pkt = matches_crc (dllp_crc pkt) dl_crc16 2 pkt

-- `(uint8_t *)&pkt->dl_tlp + total_length`, from the start of the packet.
unfoldable pub lcrc_end : Mem → ℕ
unfolding tlp_total_length
lcrc_end pkt = elim (tlp_total_length (view dl_tlp pkt)) [
  | pos total ↦ dl_tlp + total
  | negsuc n ↦ dl_tlp - suc n
]

unfoldable pub tlp_crc : Mem → ℕ
unfolding crc32p lcrc_end
tlp_crc pkt = complement32 (crc32p (slice pkt 0 (lcrc_end pkt)) 0xffffffff tlp_lcrc32_poly)

unfoldable pub pcie_lcrc32 : Mem → Mem
unfolding tlp_crc store_crc
pcie_lcrc32 pkt = store_crc (tlp_crc pkt) (lcrc_end pkt) 4 pkt

unfoldable pub pcie_lcrc32_valid : Mem → Bool
unfolding tlp_crc matches_crc
pcie_lcrc32_valid pkt = matches_crc (tlp_crc pkt) (lcrc_end pkt) 4 pkt
