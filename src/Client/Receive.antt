-- ===== src/Client/Receive.antt =====
-- `warppipe_client_read` of src/client.c.
pub mod Fill
pub mod Ends
pub mod Accept
pub mod Delivery
pub mod Report
mod Kept
pub mod Write
pub mod Read
pub mod Completion
pub mod RoundTrip
use warp_pipe.Base.{
  ℕ, zero, suc, ◌+◌, ◌-◌, ◌<◌, bit_or, Bool, true, false, Option, none, some, List, [], ◌∷◌, length,
  Mem, view, poke, ◌<<<◌, ◌==◌, ltb, leb, not, if◌then◌else◌, ℤ, pos, negsuc,
}
use warp_pipe.Proto.Layout.{
  pcie_proto_dllp, pcie_proto_tlp, pcie_dllp_ack, pcie_dllp_nak, dl_seqno_hi, dl_seqno_lo,
}
use warp_pipe.Proto.Header.{tlp_total_length}
use warp_pipe.Crc.{pcie_crc16_valid, pcie_lcrc32_valid}
use warp_pipe.Client.State.{Client, Received, received, failed, Host, State, set_client}
use warp_pipe.Client.Send.{t_tlp, t_tlp_tlp, header_length, warppipe_ack}
use warp_pipe.Client.Handlers.{DllpReport, handle_dllp, handle_tlp}

-- inc/warppipe/config.h
abbrev pub client_max_packet_data_size : ℕ
client_max_packet_data_size = 4096

abbrev pub client_max_packet_header_size : ℕ
client_max_packet_header_size = 21

abbrev pub client_buffer_size : ℕ
client_buffer_size = client_max_packet_data_size + client_max_packet_header_size

-- The step returns, with the report on a DLLP if it read one, or its assertion fails and the process is aborted. `stalled` is the fuel of
-- the loop running out.
pub data Outcome (host : Host) : Type 0 where
  returned : State host → Outcome host
  reported : Option DllpReport → State host → Outcome host
  aborted : Outcome host
  stalled : Outcome host

-- How the loop that reads the rest of a packet ends.
pub data Filled (host : Host) : Type 0 where
  filled : State host → Filled host
  disconnected : State host → Filled host
  out_of_fuel : Filled host

-- `none` is a DLLP with a wrong CRC. Neither changes the client.
unfoldable pub receive_dllp : Mem → Option DllpReport
unfolding handle_dllp
receive_dllp pkt = if pcie_crc16_valid pkt then some (handle_dllp pkt) else none

module _ (host : Host) where
  open host use {recv}

  abbrev pub deactivate : State host → State host
  deactivate s = set_client s (record (s.client) { active = false })

  -- A `recv` into `client->buf + off`: what it gives, and the state with the bytes stored.
  unfoldable pub store_received : State host → ℕ → Received → host.World → State host
  store_received s off (received bytes) world = record {
    client = record (s.client) { buf = poke (s.client.buf) off bytes };
    world = world;
  }
  store_received s off (failed again) world = record s { world = world }

  unfoldable pub recv_at : State host → ℕ → ℕ → Received × State host
  unfolding store_received
  recv_at s off n = let (r, world) = recv s.client.fd n s.world in (r, store_received s off r world)

  -- `while (len < total) { … }`
  unfoldable pub fill : ℕ → State host → ℕ → ℕ → Filled host
  unfolding recv_at
  fill zero s len total = if ltb len total then out_of_fuel else filled s
  fill (suc fuel) s len total =
      let (r, s') = recv_at s len (total - len) in
      let rest : Filled host = elim r [
        | failed again ↦ disconnected (deactivate s')
        | received [] ↦ disconnected (deactivate s')
        | received (byte ∷ bytes) ↦ fill fuel s' (len + length (byte ∷ bytes)) total
      ] in
      if ltb len total then rest else filled s

  -- The packet is complete: answer ACK or NAK, and handle it if it is intact.
  unfoldable pub accept_tlp : State host → State host
  accept_tlp s =
      let pkt = view t_tlp (s.client.buf) in
      let crc_ok = pcie_lcrc32_valid pkt in
      let seqno = bit_or (dl_seqno_hi pkt <<< 8) (dl_seqno_lo pkt) in
      let (s', sent) =
        warppipe_ack host s (if crc_ok then pcie_dllp_ack else pcie_dllp_nak) seqno in
      if crc_ok then handle_tlp host s' else s'

  unfoldable pub receive_tlp : State host → Outcome host
  unfolding fill accept_tlp
  receive_tlp s = elim (tlp_total_length (view t_tlp_tlp (s.client.buf))) [
    | negsuc n ↦ returned (deactivate s)
    | pos length ↦
        let total = length + header_length in
        elim (leb total client_buffer_size) [
          | false ↦ aborted
          | true ↦ elim (fill total s header_length total) [
            | filled s' ↦ returned (accept_tlp s')
            | disconnected s' ↦ returned s'
            | out_of_fuel ↦ stalled
          ]
        ]
  ]

  unfoldable pub warppipe_client_read : State host → Outcome host
  unfolding recv_at receive_tlp receive_dllp
  warppipe_client_read s =
      let (r, s') = recv_at s 0 header_length in
      elim r [
        | failed again ↦ returned (if again then s' else deactivate s')
        | received bytes ↦
            if not (length bytes == header_length)
            then returned (deactivate s')
            else if s'.client.buf 0 == pcie_proto_dllp
            then reported (receive_dllp (view t_tlp (s'.client.buf))) s'
            else if s'.client.buf 0 == pcie_proto_tlp
            then receive_tlp s'
            else returned (deactivate s')
      ]
