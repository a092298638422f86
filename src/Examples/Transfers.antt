-- ===== src/Examples/Transfers.antt =====
-- Packets through a pipe, from one client to another.
use warp_pipe.Base.{
  ℕ, ◌+◌, ◌-◌, ◌^◌, ◌%◌, ◌<◌, ◌≡◌, ◌≢◌, ◌⊎◌, inr, refl, ap, arith, none, some, List, [], ◌∷◌, ◌++◌,
  Mem, view, slice, poke, update, pos,
}
use warp_pipe.Proto.Layout.{
  bits, with_bits, tlp_fmt, pcie_proto_tlp, pcie_dllp_ack, pcie_dllp_nak, pcie_tlp_mwr64,
  pcie_tlp_fmt_4dw_data,
}
use warp_pipe.Proto.Header.{
  tlp_data_length, tlp_total_length, tlp_req_set_addr, set_address, store_addr,
}
use warp_pipe.Client.State.{Client, State}
use warp_pipe.Client.Bars.{get_bar_idx}
use warp_pipe.Client.Send.{t_tlp_tlp, finish_tlp, packet_bytes, warppipe_ack}
use warp_pipe.Client.Send.Ack.{ack_bytes}
use warp_pipe.Client.Requests.{write_packet, write_tlp}
use warp_pipe.Client.Handlers.{ack_nak, handle_tlp}
use warp_pipe.Client.Handlers.Write.{handle_tlp-write}
use warp_pipe.Client.Receive.{
  returned, reported, aborted, stalled, filled, fill, accept_tlp, receive_tlp, warppipe_client_read,
}
use warp_pipe.Client.Receive.Fill.{arrived, fill-incoming}
use warp_pipe.Client.Receive.Ends.{receive_tlp_ends, client_read_ends}
use warp_pipe.Client.Receive.Accept.{client_read-tlp}
use warp_pipe.Client.Receive.Delivery.{sent_tlp_handled}
use warp_pipe.Client.Receive.Report.{answer_reported}
use warp_pipe.Client.Receive.Write.{answered, write_arrives}
use warp_pipe.Examples.Pipe.{pipe, pipe_delivers, zeroed}

-- A client with BAR 0 of 4 KiB at 0x4000 and a write callback for it.
abbrev device : Client
device = record zeroed {
  bar = update (λ _. 0) 0 0x4000;
  bar_size = update (λ _. 0) 0 0x1000;
  bar_write_cb = update (λ _. none) 0 (some 9);
}

-- The client, with bytes to read.
abbrev facing : List ℕ → State pipe
facing bytes = record { client = device; world = bytes }

abbrev payload_bytes : List ℕ
payload_bytes = 0xde ∷ 0xad ∷ 0xbe ∷ 0xef ∷ 0x55 ∷ []

abbrev write_sent : List ℕ
write_sent =
    packet_bytes (finish_tlp 1 (write_packet (λ _. 0xee) 0x4123 payload_bytes pcie_tlp_mwr64))

found : get_bar_idx device 0x4120 ≡ some 0
unfolding get_bar_idx
found = refl

write_arrives_example :
    (w : List ℕ) × (payload : Mem) × (warppipe_client_read pipe (facing (write_sent ++ []))
      ≡ returned (
          let (client, world) =
            pipe.call_write 9
              (0x4123 % 2 ^ 12)
              payload
              (pos 5)
              (answered pipe pipe_delivers
                (facing (write_sent ++ []))
                []
                (λ _. 0xee)
                1
                0x4123
                payload_bytes
                0
                12
                9
                w).client
              (answered pipe pipe_delivers
                (facing (write_sent ++ []))
                []
                (λ _. 0xee)
                1
                0x4123
                payload_bytes
                0
                12
                9
                w).world in
          record { client = client; world = world }))
    × (slice payload 0 5 ≡ payload_bytes)
    × (w ≡ [])
write_arrives_example =
    write_arrives pipe pipe_delivers (facing (write_sent ++ [])) [] (λ _. 0xee) 1 0x4123
      payload_bytes 0 12 9 (omega arith) (omega arith) (omega arith) refl found refl (omega arith)
      (omega arith) refl

-- A packet without data, as it is handed to `client_send_pcie_transport`.
abbrev read_request : Mem
read_request = update (update (λ _. 0) 0 pcie_proto_tlp) 3 0x20

request_sized : tlp_total_length (view t_tlp_tlp read_request) ≡ pos 16
unfolding tlp_total_length bits
request_sized = refl

sent_tlp_handled_example :
    (w : List ℕ) × (warppipe_client_read pipe
        (facing (packet_bytes (finish_tlp 7 read_request) ++ 1 ∷ []))
      ≡ returned (
          handle_tlp pipe (
            (warppipe_ack pipe
              (arrived pipe pipe_delivers
                (facing (packet_bytes (finish_tlp 7 read_request) ++ 1 ∷ []))
                0
                (packet_bytes (finish_tlp 7 read_request))
                w)
              pcie_dllp_ack
              7).0)))
    × (w ≡ 1 ∷ [])
sent_tlp_handled_example =
    sent_tlp_handled read_request 7 16 refl request_sized pipe pipe_delivers
      (facing (packet_bytes (finish_tlp 7 read_request) ++ 1 ∷ [])) (1 ∷ []) (omega arith) refl

client_read-tlp_example :
    (w : List ℕ) × (warppipe_client_read pipe (facing (slice read_request 0 23 ++ 1 ∷ []))
      ≡ returned (
          accept_tlp pipe (
            arrived pipe pipe_delivers
              (facing (slice read_request 0 23 ++ 1 ∷ []))
              0
              (slice read_request 0 23)
              w)))
    × (w ≡ 1 ∷ [])
client_read-tlp_example =
    client_read-tlp pipe pipe_delivers (facing (slice read_request 0 23 ++ 1 ∷ [])) read_request 16
      (1 ∷ []) refl request_sized (omega arith) refl

answer_reported_example :
    (w : List ℕ) × (warppipe_client_read pipe (facing (ack_bytes pcie_dllp_nak 0x1234 ++ []))
      ≡ reported (some (ack_nak 0x234)) (
          arrived pipe pipe_delivers
            (facing (ack_bytes pcie_dllp_nak 0x1234 ++ []))
            0
            (ack_bytes pcie_dllp_nak 0x1234)
            w))
    × (w ≡ [])
answer_reported_example =
    answer_reported pipe pipe_delivers (facing (ack_bytes pcie_dllp_nak 0x1234 ++ [])) pcie_dllp_nak
      0x1234 [] (inr refl) refl

fill-incoming_test :
    (w : List ℕ) × (fill pipe 3 (facing (4 ∷ 5 ∷ 6 ∷ 7 ∷ [])) 7 10
      ≡ filled (arrived pipe pipe_delivers (facing (4 ∷ 5 ∷ 6 ∷ 7 ∷ [])) 7 (4 ∷ 5 ∷ 6 ∷ []) w))
    × (w ≡ 7 ∷ [])
fill-incoming_test =
    fill-incoming pipe pipe_delivers 3 (facing (4 ∷ 5 ∷ 6 ∷ 7 ∷ [])) 7 10 (4 ∷ 5 ∷ 6 ∷ []) (7 ∷ [])
      refl refl (omega arith)

client_read_ends_example : warppipe_client_read pipe (facing (3 ∷ 0 ∷ 1 ∷ [])) ≢ stalled
client_read_ends_example = client_read_ends pipe (facing (3 ∷ 0 ∷ 1 ∷ []))

-- A client that has read the header of a packet with 4 words of header and 1024 words of data.
abbrev largest_begun : State pipe
largest_begun = record { client = record device { buf = update (λ _. 0) 3 0x60 }; world = [] }

receive_tlp_ends_example :
    ((tlp_fmt (view t_tlp_tlp largest_begun.client.buf) ≡ pcie_tlp_fmt_4dw_data)
      × (tlp_data_length (view t_tlp_tlp largest_begun.client.buf) ≡ 1024)
      × (receive_tlp pipe largest_begun ≡ aborted))
    ⊎ (((tlp_fmt (view t_tlp_tlp largest_begun.client.buf) ≢ pcie_tlp_fmt_4dw_data)
          ⊎ (tlp_data_length (view t_tlp_tlp largest_begun.client.buf) < 1024))
        × ((s' : State pipe) × (receive_tlp pipe largest_begun ≡ returned s')))
receive_tlp_ends_example = receive_tlp_ends pipe largest_begun

-- A client that has read a memory write and answered it.
abbrev holding : State pipe
holding = record {
  client = record device {
    buf = λ k. write_tlp (λ _. 0) 0x4123 payload_bytes pcie_tlp_mwr64 (k - t_tlp_tlp);
  };
  world = [];
}

write_sized : tlp_total_length (write_tlp (λ _. 0) 0x4123 payload_bytes pcie_tlp_mwr64) ≡ pos 20
unfolding write_tlp tlp_total_length bits poke tlp_req_set_addr set_address store_addr with_bits
    tlp_data_length
write_sized = refl

found_holding : get_bar_idx holding.client 0x4120 ≡ some 0
unfolding get_bar_idx
found_holding = refl

handle_tlp-write_test :
    (payload : Mem) × (handle_tlp pipe holding ≡ (
      let (client, world) = pipe.call_write 9 0x123 payload (pos 5) holding.client holding.world in
      record { client = client; world = world }))
    × (slice payload 0 5 ≡ payload_bytes)
handle_tlp-write_test =
    handle_tlp-write pipe holding (λ _. 0) 0x4123 payload_bytes 20 0 12 9 (omega arith)
      (omega arith) (omega arith) write_sized
      (λ j h.
        let back : t_tlp_tlp + j - t_tlp_tlp ≡ j = omega arith in
        ap (write_tlp (λ _. 0) 0x4123 payload_bytes pcie_tlp_mwr64) back)
      found_holding refl (omega arith) (omega arith) refl
