-- ===== src/Client/Receive/Report.antt =====
-- What the sender of a packet learns from the answer: `warppipe_ack` of one client, through to
-- `handle_dllp` of its peer.
use warp_pipe.Base.{
  ℕ, ◌+◌, ◌/◌, ◌%◌, ◌^◌, ◌<◌, bit_and, bit_or, ◌≡◌, ap, ◌∙◌, ◌⊎◌, inl, arith, true, some, List,
  ◌++◌, Mem, length, view, poke, length-slice, ◌==◌, ◌||◌, ◌<<<◌,
}
use warp_pipe.Base.Bits.{bit_and-mask, bit_or-shift}
use warp_pipe.Base.Copy.{view-put_view, poke-slice}
use warp_pipe.Proto.Fields.{fields}
use warp_pipe.Proto.Layout.{bits, pcie_dllp_ack, pcie_dllp_nak, pcie_proto_dllp}
use warp_pipe.Crc.{pcie_crc16, pcie_crc16_valid}
use warp_pipe.Crc.Dllp.{crc16_keeps, crc16_valid-crc16, crc16_valid_ext}
use warp_pipe.Client.State.{Host, State, received}
use warp_pipe.Client.Send.{at, t_tlp, header_length, ack_packet}
use warp_pipe.Client.Send.Ack.{ack_bytes}
use warp_pipe.Client.Handlers.{ack_nak, handle_dllp}
use warp_pipe.Client.Receive.{reported, receive_dllp, recv_at, store_received, warppipe_client_read}
use warp_pipe.Client.Receive.Fill.{Delivers, arrived}

module _ (type seqno : ℕ) (answers : (type ≡ pcie_dllp_ack) ⊎ (type ≡ pcie_dllp_nak)) where
  abbrev answer : Mem
  answer = at t_tlp pcie_crc16 (ack_packet type seqno)

  abbrev dllp : Mem
  dllp = view t_tlp (ack_packet type seqno)

  view-answer : view t_tlp answer ≡ pcie_crc16 dllp
  view-answer = view-put_view t_tlp (ack_packet type seqno) (pcie_crc16 dllp)

  low_byte : bits 0 8 (bit_and seqno 255) ≡ seqno % 256
  unfolding bits
  low_byte = omega (arith, bit_and-mask 8 seqno)

  seqno_sent : bit_or (bits 0 4 (dllp 2) <<< 8) (bits 0 8 (dllp 3)) ≡ seqno % 2 ^ 12
  unfolding ack_packet
  seqno_sent =
      rw low_byte
        (simp fields (omega (arith, bit_or-shift 8 (seqno / 256 % 16) (seqno % 256) (omega arith))))

  is_answer : (p : Mem) → p 0 ≡ dllp 0 → (p 0 == pcie_dllp_ack || p 0 == pcie_dllp_nak) ≡ true
  unfolding ack_packet
  is_answer p e = ground arith

  report :
      (p : Mem)
      → p 0 ≡ dllp 0
      → p 2 ≡ dllp 2
      → p 3 ≡ dllp 3
      → handle_dllp p ≡ ack_nak (seqno % 2 ^ 12)
  unfolding handle_dllp
  report p a b c = rw (is_answer p a, b, c) (ap ack_nak seqno_sent)

  -- What the peer holds in its buffer, once it has read the packet into it.
  module _ (buf : Mem) where
    abbrev copied : Mem
    copied = poke buf 0 (ack_bytes type seqno)

    copied_byte : (k : ℕ) → k < header_length → copied k ≡ answer k
    copied_byte k h = poke-slice buf answer 0 header_length k (omega arith) h

    copied_bytes : (k : ℕ) → k < 4 → copied (1 + k) ≡ dllp k
    copied_bytes k h =
        copied_byte (1 + k) (omega arith)
        ∙ ap (λ (m : Mem). m k) view-answer
        ∙ crc16_keeps dllp k (inl h)

    copied_report : receive_dllp (view t_tlp copied) ≡ some (ack_nak (seqno % 2 ^ 12))
    unfolding receive_dllp
    copied_report =
        let valid : pcie_crc16_valid (view t_tlp copied) ≡ true =
          crc16_valid_ext (view t_tlp copied) (pcie_crc16 dllp)
            (λ k h. copied_byte (1 + k) (omega arith) ∙ ap (λ (m : Mem). m k) view-answer)
          ∙ (crc16_valid-crc16 dllp).0 in
        rw (valid) (
          ap some (
            report (view t_tlp copied) (copied_bytes 0 (omega arith)) (copied_bytes 2 (omega arith))
              (copied_bytes 3 (omega arith))))

    copied_proto : copied 0 ≡ pcie_proto_dllp
    unfolding ack_packet
    copied_proto = copied_byte 0 (omega arith)

client_read-dllp :
    (host : Host) (s : State host) (xs : List ℕ)
    → (host.recv s.client.fd header_length s.world).0 ≡ received xs
    → length xs ≡ header_length
    → poke s.client.buf 0 xs 0 ≡ pcie_proto_dllp
    → warppipe_client_read host s
      ≡ reported (receive_dllp (view t_tlp (poke s.client.buf 0 xs))) (record {
        client = record (s.client) { buf = poke (s.client.buf) 0 xs };
        world = (host.recv s.client.fd header_length s.world).1;
      })
unfolding warppipe_client_read recv_at store_received
client_read-dllp host s xs got long is_dllp =
    rw (got, warppipe_client_read) (rw (got, long, is_dllp))

-- An answer arrives: an ACK or a NAK that is next in the stream of a client is read in one step,
-- passes its CRC and is reported with its sequence number modulo 2 ^ 12. Nothing but the buffer of
-- the client changes.
pub answer_reported :
    (host : Host) (net : Delivers host) (s : State host) (type seqno : ℕ) (ys : List ℕ)
    → (type ≡ pcie_dllp_ack) ⊎ (type ≡ pcie_dllp_nak)
    → net.incoming s.world ≡ ack_bytes type seqno ++ ys
    → (w : host.World) × (warppipe_client_read host s
        ≡ reported
            (some (ack_nak (seqno % 2 ^ 12)))
            (arrived host net s 0 (ack_bytes type seqno) w))
      × (net.incoming w ≡ ys)
answer_reported host net s type seqno ys answers there =
    let long = length-slice (answer type seqno answers) 0 header_length in
    let (got, rest) = net.whole_header s.client.fd s.world (ack_bytes type seqno) ys there long in
    let w = (host.recv s.client.fd header_length s.world).1 in
    (
      w,
      client_read-dllp host s (ack_bytes type seqno) got long
            (copied_proto type seqno answers s.client.buf)
          ∙ ap (λ r. reported r (arrived host net s 0 (ack_bytes type seqno) w))
              (copied_report type seqno answers s.client.buf),
      rest,
    )
