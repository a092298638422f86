-- ===== src/Client/Send.antt =====
-- The outgoing packets of src/client.c: `client_send_pcie_transport` and `warppipe_ack`. A
-- transport packet is the memory of its `struct warppipe_pcie_transport`.
pub mod Wire
pub mod Ack
use warp_pipe.Base.{
  ℕ, ◌+◌, ◌-◌, ◌%◌, ◌^◌, bit_and, Bool, false, not, length, List, Mem, update, view, put_view,
  slice, ◌==◌, ◌>>>◌, if◌then◌else◌, ℤ, pos, negsuc,
}
use warp_pipe.Proto.Layout.{
  pcie_proto_dllp, pcie_proto_tlp, set_dl_seqno_hi, set_dl_seqno_lo, with_bits,
}
use warp_pipe.Proto.Header.{tlp_total_length}
use warp_pipe.Crc.{pcie_crc16, pcie_lcrc32}
use warp_pipe.Client.State.{Client, Host, State, set_client}

-- The offset of `t_dllp` and `t_tlp` in a transport packet, and of the packet in `t_tlp`.
abbrev pub t_tlp : ℕ
t_tlp = 1

abbrev pub t_tlp_tlp : ℕ
t_tlp_tlp = 3

-- `1 + sizeof(tport->t_dllp)`
abbrev pub header_length : ℕ
header_length = 7

-- An assignment through a pointer into a packet.
abbrev pub at : ℕ → (Mem → Mem) → Mem → Mem
at off f m = put_view off m (f (view off m))

-- `n + total` where the sum is not negative.
abbrev pub add_int : ℕ → ℤ → ℕ
add_int n (pos m) = n + m
add_int n (negsuc m) = n - (m + 1)

abbrev pub next_seqno : ℕ → ℕ
next_seqno seqno = (seqno + 1) % 2 ^ 32

-- The packet as it is sent, for the new sequence number.
unfoldable pub finish_tlp : ℕ → Mem → Mem
finish_tlp seqno tport =
    at t_tlp pcie_lcrc32
      (at t_tlp (λ p. set_dl_seqno_lo (bit_and seqno 0xff) (set_dl_seqno_hi (seqno >>> 8) p)) tport)

unfoldable pub packet_bytes : Mem → List ℕ
packet_bytes tport = slice tport 0 (add_int header_length (tlp_total_length (view t_tlp_tlp tport)))

abbrev pub is_minus_one : ℤ → Bool
is_minus_one (pos n) = false
is_minus_one (negsuc n) = n == 0

abbrev eq_int : ℤ → ℕ → Bool
eq_int (pos m) n = m == n
eq_int (negsuc m) n = false

-- The designated initialiser of `warppipe_ack`: what it does not name is 0.
unfoldable pub ack_packet : ℕ → ℕ → Mem
ack_packet type seqno =
    at t_tlp
      (λ dllp.
        let d₁ = update dllp 0 (type % 2 ^ 8) in
        let d₂ = update d₁ 2 (with_bits 0 4 (seqno >>> 8) (d₁ 2)) in
        update d₂ 3 (bit_and seqno 0xff))
      (update (λ _. 0) 0 pcie_proto_dllp)

module _ (host : Host) where
  -- The call of `send` and the test of its result.
  unfoldable pub send_bytes : State host → List ℕ → State host × ℤ
  send_bytes s bytes =
      let (n, world) = host.send s.client.fd bytes s.world in
      if eq_int n (length bytes)
      then (record s { world = world }, n)
      else (record s { client = record (s.client) { active = false }; world = world }, negsuc 0)

  unfoldable pub client_send_pcie_transport : State host → Mem → State host × ℤ
  unfolding send_bytes finish_tlp packet_bytes
  client_send_pcie_transport s tport =
      let seqno = next_seqno s.client.seqno in
      if tport 0 == pcie_proto_tlp
      then send_bytes (set_client s (record (s.client) { seqno = seqno }))
          (packet_bytes (finish_tlp seqno tport))
      else if tport 0 == pcie_proto_dllp
      then send_bytes s (slice (at t_tlp pcie_crc16 tport) 0 header_length)
      else send_bytes s (slice tport 0 header_length)

  -- `true` is the result 0.
  unfoldable pub warppipe_ack : State host → ℕ → ℕ → State host × Bool
  unfolding client_send_pcie_transport ack_packet
  warppipe_ack s type seqno =
      let (s', n) = client_send_pcie_transport s (ack_packet type seqno) in
      (s', not (is_minus_one n))
