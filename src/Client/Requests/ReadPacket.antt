-- ===== src/Client/Requests/ReadPacket.antt =====
-- The packet that `warppipe_read` sends.
use warp_pipe.Base.{
  ℕ, ◌+◌, ◌^◌, ◌≤◌, ◌<◌, ◌≡◌, ap, ◌∙◌, inl, inr, arith, Mem, ltb, if◌then◌else◌, pos, view, update,
}
use native.Mathlib.Nat.{mod-eq_of_lt}
use warp_pipe.Base.Copy.{view-put_view}
use warp_pipe.Proto.Layout.{tlp_fmt, tlp_type, r_tag, set_r_tag, pcie_tlp_mrd64, pcie_proto_tlp}
use warp_pipe.Proto.Fields.{fields}
use warp_pipe.Proto.Header.{tlp_total_length, tlp_req_set_addr}
use warp_pipe.Proto.Request.{set_addr_keeps, tlp_total_length_cases}
use warp_pipe.Proto.Agree.{request_data}
use warp_pipe.Client.Send.{t_tlp_tlp}
use warp_pipe.Client.Requests.{set_code, read_packet}

-- The memory from `calloc`, from the transaction packet on, and the request before its address.
abbrev pub blank : Mem
blank = view t_tlp_tlp (update (λ _. 0) 0 pcie_proto_tlp)

abbrev pub request : ℕ → Mem
request tag = set_r_tag tag (set_code pcie_tlp_mrd64 blank)

module _ (tag addr len : ℕ) (small : addr < 2 ^ 64) where
  abbrev pub header : Mem
  header = tlp_req_set_addr (request tag) addr len

  pub fmt-header : tlp_fmt header ≡ (if ltb addr 0x1_0000_0000 then 0 else 1)
  fmt-header = (set_addr_keeps (request tag) addr len small).0 ∙ simp fields (ground arith)

  pub type-header : tlp_type header ≡ 0
  type-header = (set_addr_keeps (request tag) addr len small).1 ∙ simp fields

  pub tag-header : tag < 256 → r_tag header ≡ tag
  tag-header lt = (set_addr_keeps (request tag) addr len small).2 ∙ simp fields (mod-eq_of_lt lt)

  pub starts : request_data header ≡ 12 + (if ltb addr 0x1_0000_0000 then 0 else 4)
  starts = rw fmt-header (ground arith)

  pub starts-le : request_data header ≤ 16
  starts-le = ground (arith, starts)

  -- It has no data.
  pub total-header : tlp_total_length header ≡ pos (request_data header)
  total-header = elim (tlp_total_length_cases header) [
    | inl (known, e) ↦ e ∙ ap pos (ground (arith, fmt-header, starts))
    | inr (unknown, e) ↦ absurd (ground (arith, fmt-header))
  ]

  pub view-read_packet : view t_tlp_tlp (read_packet tag addr len pcie_tlp_mrd64) ≡ header
  unfolding read_packet
  view-read_packet = view-put_view t_tlp_tlp (update (λ _. 0) 0 pcie_proto_tlp) header
