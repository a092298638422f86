-- ===== src/Crc/Dllp.antt =====
-- `pcie_crc16` and `pcie_crc16_valid` of src/crc.c.
use warp_pipe.Base.{
  ℕ, ◌^◌, ◌≤◌, ◌<◌, true, false, ◌≡◌, ◌≢◌, ap, ◌∙◌, ◌⊎◌, inl, arith, Mem, update, slice_ext, u16,
}
use warp_pipe.Crc.{
  crc32p, dllp_crc16_poly, complement32, dllp_crc, pcie_crc16, pcie_crc16_valid, matches_crc,
}
use warp_pipe.Crc.Detection.{store_crc_outside, matches_crc_ext, matches-store_crc, checks_detects}

pub crc16_keeps : (pkt : Mem) (k : ℕ) → (k < 4) ⊎ (6 ≤ k) → pcie_crc16 pkt k ≡ pkt k
unfolding pcie_crc16
crc16_keeps pkt k h = store_crc_outside (dllp_crc pkt) 4 2 pkt k h

dllp_crc-crc16 : (pkt : Mem) → dllp_crc (pcie_crc16 pkt) ≡ dllp_crc pkt
unfolding dllp_crc
dllp_crc-crc16 pkt =
    ap (λ l. u16 (complement32 (crc32p l 0xffff dllp_crc16_poly)))
      (slice_ext (pcie_crc16 pkt) pkt 0 4 (λ k lo hi. crc16_keeps pkt k (inl (omega arith))))

-- A data link packet is valid once its CRC is written, and only the two CRC bytes are.
pub crc16_valid-crc16 :
    (pkt : Mem)
    → (pcie_crc16_valid (pcie_crc16 pkt) ≡ true)
      × ((k : ℕ) → (k < 4) ⊎ (6 ≤ k) → pcie_crc16 pkt k ≡ pkt k)
crc16_valid-crc16 pkt = (valid, crc16_keeps pkt)
  where
    valid : pcie_crc16_valid (pcie_crc16 pkt) ≡ true
    valid =
        unfold pcie_crc16_valid in
        ap (λ c. matches_crc c 4 2 (pcie_crc16 pkt)) (dllp_crc-crc16 pkt)
        ∙ unfold pcie_crc16 in matches-store_crc (dllp_crc pkt) 4 2 pkt

out_injective :
    (c d : ℕ) → c < 2 ^ 16 → d < 2 ^ 16 → u16 (complement32 c) ≡ u16 (complement32 d) → c ≡ d
out_injective c d hc hd e = omega arith

-- A valid data link packet is no longer valid once any one of its six bytes is changed.
pub crc16_detects :
    (pkt : Mem) (j v : ℕ)
    → ((i : ℕ) → pkt i < 256)
    → v < 256
    → v ≢ pkt j
    → j < 6
    → pcie_crc16_valid pkt ≡ true
    → pcie_crc16_valid (update pkt j v) ≡ false
unfolding pcie_crc16_valid
crc16_detects pkt j v h hv ne lt valid =
    checks_detects 15 dllp_crc16_poly 0xffff 2 (λ c. u16 (complement32 c)) (omega arith)
      (omega arith) (omega arith) (omega arith) (λ c hc. omega arith) out_injective pkt 4 j v h hv
      ne lt valid

-- The check reads the packet only.
pub crc16_valid_ext :
    (p q : Mem) → ((k : ℕ) → k < 6 → p k ≡ q k) → pcie_crc16_valid p ≡ pcie_crc16_valid q
unfolding pcie_crc16_valid dllp_crc
crc16_valid_ext p q h =
    rw (slice_ext p q 0 4 (λ k lo hi. h k (omega arith)))
      (matches_crc_ext _ 4 2 p q (λ k lo hi. h k (omega arith)))
