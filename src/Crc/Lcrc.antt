-- ===== src/Crc/Lcrc.antt =====
-- `pcie_lcrc32` and `pcie_lcrc32_valid` of src/crc.c.
use warp_pipe.Base.{
  ℕ, ◌+◌, ◌*◌, ◌%◌, ◌^◌, ◌≤◌, ◌<◌, true, false, ◌≡◌, ◌≢◌, ap, sym, slice, pos, ◌⊎◌, inl, arith, Mem,
  update, view, slice_ext, ltb, if◌then◌else◌,
}
use warp_pipe.Proto.Layout.{dl_tlp, tlp_fmt}
use warp_pipe.Proto.Header.{tlp_total_length, tlp_data_length}
use warp_pipe.Crc.{
  crc32p, tlp_lcrc32_poly, complement32, lcrc_end, tlp_crc, pcie_lcrc32, pcie_lcrc32_valid,
}
use warp_pipe.Crc.Detection.{store_crc_outside, matches_crc_ext, matches-store_crc, checks_detects}

-- The length depends on the format and on the length field only.
pub tlp_total_length_ext :
    (p q : Mem) → p 0 ≡ q 0 → p 2 ≡ q 2 → p 3 ≡ q 3 → tlp_total_length p ≡ tlp_total_length q
unfolding tlp_total_length tlp_data_length
tlp_total_length_ext p q a b c = ground arith

pub lcrc_end_lem :
    (pkt : Mem)
    → tlp_fmt (view dl_tlp pkt) < 4
    → (lcrc_end pkt
        ≡ 14
          + tlp_fmt (view dl_tlp pkt) % 2 * 4
          + (if ltb (tlp_fmt (view dl_tlp pkt)) 2
              then 0
              else tlp_data_length (view dl_tlp pkt) * 4))
unfolding lcrc_end tlp_total_length
lcrc_end_lem pkt h = ground arith

module _ (pkt : Mem) (known : tlp_fmt (view dl_tlp pkt) < 4) where
  lcrc_end-ge : 14 ≤ lcrc_end pkt
  lcrc_end-ge = omega (arith, lcrc_end_lem pkt known)

  pub lcrc32_keeps :
      (k : ℕ) → (k < lcrc_end pkt) ⊎ (lcrc_end pkt + 4 ≤ k) → pcie_lcrc32 pkt k ≡ pkt k
  unfolding pcie_lcrc32
  lcrc32_keeps k h = store_crc_outside (tlp_crc pkt) (lcrc_end pkt) 4 pkt k h

  header_kept : (k : ℕ) → k < 14 → pcie_lcrc32 pkt k ≡ pkt k
  header_kept k h = lcrc32_keeps k (inl (omega (arith, lcrc_end-ge)))

  pub lcrc_end-lcrc32 : lcrc_end (pcie_lcrc32 pkt) ≡ lcrc_end pkt
  unfolding lcrc_end
  lcrc_end-lcrc32 = rw (
    tlp_total_length_ext (view dl_tlp (pcie_lcrc32 pkt)) (view dl_tlp pkt)
        (header_kept 2 (omega arith)) (header_kept 4 (omega arith)) (header_kept 5 (omega arith)),
    lcrc_end,
  )

  tlp_crc-lcrc32 : tlp_crc (pcie_lcrc32 pkt) ≡ tlp_crc pkt
  unfolding tlp_crc
  tlp_crc-lcrc32 = rw (lcrc_end-lcrc32) (
      ap (λ l. complement32 (crc32p l 0xffffffff tlp_lcrc32_poly))
        (slice_ext (pcie_lcrc32 pkt) pkt 0 (lcrc_end pkt)
          (λ k lo hi. lcrc32_keeps k (inl (omega arith)))))

  -- A transaction packet of a known format is valid once its CRC is written, and writing it changes
  -- the four bytes behind the data only.
  pub lcrc32_valid-lcrc32 :
      (pcie_lcrc32_valid (pcie_lcrc32 pkt) ≡ true)
      × ((k : ℕ) → (k < lcrc_end pkt) ⊎ (lcrc_end pkt + 4 ≤ k) → pcie_lcrc32 pkt k ≡ pkt k)
  lcrc32_valid-lcrc32 = (valid, lcrc32_keeps)
    where
      valid : pcie_lcrc32_valid (pcie_lcrc32 pkt) ≡ true
      valid =
          unfold pcie_lcrc32_valid in
          rw (tlp_crc-lcrc32, lcrc_end-lcrc32)
            (unfold pcie_lcrc32 in matches-store_crc (tlp_crc pkt) (lcrc_end pkt) 4 pkt)

complement32_injective :
    (c d : ℕ) → c < 2 ^ 32 → d < 2 ^ 32 → complement32 c ≡ complement32 d → c ≡ d
complement32_injective c d hc hd e = omega arith

-- A valid transaction packet is no longer valid once any one byte of it is changed, from the
-- sequence number to the CRC, unless the change makes the header say another length.
pub lcrc32_detects :
    (pkt : Mem) (j v : ℕ)
    → ((i : ℕ) → pkt i < 256)
    → v < 256
    → v ≢ pkt j
    → j < lcrc_end pkt + 4
    → lcrc_end (update pkt j v) ≡ lcrc_end pkt
    → pcie_lcrc32_valid pkt ≡ true
    → pcie_lcrc32_valid (update pkt j v) ≡ false
unfolding pcie_lcrc32_valid tlp_crc
lcrc32_detects pkt j v h hv ne lt same valid = rw (same) (
    checks_detects 31 tlp_lcrc32_poly 0xffffffff 4 complement32 (omega arith) (omega arith)
      (omega arith) (omega arith) (λ c hc. omega arith) complement32_injective pkt (lcrc_end pkt) j
      v h hv ne lt valid)

-- The check reads the packet and its CRC only.
pub lcrc32_valid_ext :
    (p q : Mem)
    → tlp_fmt (view dl_tlp p) < 4
    → ((k : ℕ) → k < lcrc_end p + 4 → p k ≡ q k)
    → pcie_lcrc32_valid p ≡ pcie_lcrc32_valid q
lcrc32_valid_ext p q known h =
    let at_least = lcrc_end-ge p known in
    let ends : lcrc_end q ≡ lcrc_end p =
      unfold lcrc_end in
      rw (
        tlp_total_length_ext (view dl_tlp p) (view dl_tlp q) (h 2 (omega arith)) (h 4 (omega arith))
            (h 5 (omega arith)),
        lcrc_end,
      ) in
    let bytes : slice q 0 (lcrc_end p) ≡ slice p 0 (lcrc_end p) =
      slice_ext q p 0 (lcrc_end p) (λ k lo hi. sym (h k (omega arith))) in
    unfold pcie_lcrc32_valid tlp_crc in
    rw (ends, bytes) (matches_crc_ext _ (lcrc_end p) 4 p q (λ k lo hi. h k (omega arith)))

pub lcrc_end-pos :
    (p : Mem) (t : ℕ) → tlp_total_length (view dl_tlp p) ≡ pos t → lcrc_end p ≡ dl_tlp + t
unfolding lcrc_end
lcrc_end-pos p t e = rw (e, lcrc_end)
