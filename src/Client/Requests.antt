-- ===== src/Client/Requests.antt =====
-- The requests of src/client.c that a program sends through a client.
pub mod Packet
pub mod ReadPacket
pub mod Read
use warp_pipe.Base.{
  ℕ, ◌+◌, ◌-◌, ◌%◌, ◌^◌, bit_and, Bool, true, false, not, Option, none, some, List, Mem, update,
  poke, slice, u64, ◌>>>◌, ◌==◌, length, if◌then◌else◌,
}
use warp_pipe.Proto.Layout.{
  pcie_proto_tlp, pcie_tlp_mrd64, pcie_tlp_mwr64, pcie_tlp_cr0, pcie_tlp_cw0, pcie_tlp_fmt_4dw,
  tlp_fmt, set_tlp_type, set_tlp_fmt, set_r_tag, r_data32, r_data64,
}
use warp_pipe.Proto.Header.{has, tlp_req_set_addr}
use warp_pipe.Client.State.{Client, Callback, Host, State, set_client}
use warp_pipe.Client.Send.{at, t_tlp_tlp, is_minus_one, client_send_pcie_transport}

abbrev pub set_code : ℕ → Mem → Mem
set_code code tlp = set_tlp_type (bit_and code 0x1f) (set_tlp_fmt (code >>> 5) tlp)

-- The packet of a read request: zero but for what is written here.
unfoldable pub read_packet : ℕ → ℕ → ℕ → ℕ → Mem
read_packet tag addr length code =
    at t_tlp_tlp (λ tlp. tlp_req_set_addr (set_r_tag tag (set_code code tlp)) addr length)
      (update (λ _. 0) 0 pcie_proto_tlp)

-- The packet of a write request, in memory from `malloc` that holds `junk`.
unfoldable pub write_tlp : Mem → ℕ → List ℕ → ℕ → Mem
write_tlp junk addr bytes code =
    let tlp = tlp_req_set_addr (set_code code junk) addr (length bytes) in
    let payload = if has (tlp_fmt tlp) pcie_tlp_fmt_4dw then r_data64 else r_data32 in
    poke tlp (payload + bit_and addr 3) bytes

unfoldable pub write_packet : Mem → ℕ → List ℕ → ℕ → Mem
unfolding write_tlp
write_packet junk addr bytes code =
    at t_tlp_tlp (λ tlp. write_tlp tlp addr bytes code) (update junk 0 pcie_proto_tlp)

module _ (host : Host) where
  -- `false` is the result -1. A tag that is in use is only reported.
  unfoldable pub warppipe_read_imp : State host → ℕ → ℕ → Option Callback → ℕ → State host × Bool
  unfolding read_packet
  warppipe_read_imp s addr length completion_cb code =
      let tag = s.client.read_tag in
      let counted : State host =
        set_client s (record (s.client) { read_tag = (tag + 1) % 2 ^ 5 }) in
      let (s', n) = client_send_pcie_transport host counted (read_packet tag addr length code) in
      if is_minus_one n then (s', false) else (
        set_client s' (record (s'.client) {
          completion_cb = update (s'.client.completion_cb) tag completion_cb;
        }),
        true,
      )

  unfoldable pub warppipe_write_imp : State host → Mem → ℕ → List ℕ → ℕ → State host × Bool
  unfolding write_packet
  warppipe_write_imp s junk addr bytes code =
      let (s', n) = client_send_pcie_transport host s (write_packet junk addr bytes code) in
      (s', not (is_minus_one n))

  unfoldable pub warppipe_read : State host → ℕ → ℕ → ℕ → Option Callback → State host × Bool
  unfolding warppipe_read_imp
  warppipe_read s bar_idx addr length completion_cb =
      if s.client.bar bar_idx == 0
      then (s, false)
      else warppipe_read_imp s (u64 (s.client.bar bar_idx + addr)) length completion_cb
          pcie_tlp_mrd64

  unfoldable pub warppipe_config0_read : State host → ℕ → ℕ → Option Callback → State host × Bool
  unfolding warppipe_read_imp
  warppipe_config0_read s addr length completion_cb =
      warppipe_read_imp s addr length completion_cb pcie_tlp_cr0

  unfoldable pub warppipe_write : State host → Mem → ℕ → ℕ → List ℕ → State host × Bool
  unfolding warppipe_write_imp
  warppipe_write s junk bar_idx addr bytes =
      if s.client.bar bar_idx == 0
      then (s, false)
      else warppipe_write_imp s junk (u64 (s.client.bar bar_idx + addr)) bytes pcie_tlp_mwr64

  unfoldable pub warppipe_config0_write : State host → Mem → ℕ → List ℕ → State host × Bool
  unfolding warppipe_write_imp
  warppipe_config0_write s junk addr bytes = warppipe_write_imp s junk addr bytes pcie_tlp_cw0
