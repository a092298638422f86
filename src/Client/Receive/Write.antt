-- ===== src/Client/Receive/Write.antt =====
-- A `warppipe_write` of one client, through to the write callback of its peer.
use warp_pipe.Base.{
  ℕ, ◌+◌, ◌*◌, ◌/◌, ◌%◌, ◌^◌, ◌≤◌, ◌<◌, ◌≡◌, refl, ap, ◌∙◌, arith, false, Option, some, List, ◌++◌,
  Mem, length, view, slice, update, u64, ◌==◌, pos,
}
use warp_pipe.Base.Copy.{view-put_view}
use warp_pipe.Proto.Layout.{pcie_tlp_mwr64, pcie_dllp_ack, pcie_proto_tlp}
use warp_pipe.Proto.Header.{tlp_total_length, tlp_req_set_addr}
use warp_pipe.Proto.Agree.{request_data}
use warp_pipe.Client.State.{Callback, Host, State, set_client}
use warp_pipe.Client.Bars.{get_bar_idx}
use warp_pipe.Client.Send.{
  t_tlp_tlp, next_seqno, finish_tlp, packet_bytes, send_bytes, warppipe_ack,
}
use warp_pipe.Client.Send.Wire.{send_tlp}
use warp_pipe.Client.Send.Ack.{ack-IsKept}
use warp_pipe.Client.Receive.Kept.{kept_buf, kept_write_cb, kept_size, kept_bar_idx}
use warp_pipe.Client.Requests.{set_code, write_tlp, write_packet, warppipe_write}
use warp_pipe.Client.Requests.Packet.{starts-le, total-written}
use warp_pipe.Client.Handlers.Write.{handle_tlp-write}
use warp_pipe.Client.Receive.{returned, warppipe_client_read}
use warp_pipe.Client.Receive.Fill.{Delivers, arrived}
use warp_pipe.Client.Receive.Delivery.{copied_tlp, sent_tlp_handled}

-- What a write to a BAR that has an address sends.
pub write-sends :
    (host : Host) (s : State host) (junk : Mem) (i addr : ℕ) (bytes : List ℕ)
    → (s.client.bar i == 0) ≡ false
    → (warppipe_write host s junk i addr bytes).0
      ≡ (send_bytes host (set_client s (record (s.client) { seqno = next_seqno s.client.seqno })) (
          packet_bytes (
            finish_tlp
              (next_seqno s.client.seqno)
              (write_packet junk (u64 (s.client.bar i + addr)) bytes pcie_tlp_mwr64)))).0
unfolding warppipe_write write_packet
write-sends host s junk i addr bytes used =
    rw
      (
        used,
        send_tlp host s (write_packet junk (u64 (s.client.bar i + addr)) bytes pcie_tlp_mwr64) refl,
      )
      refl

module _ (host : Host) (net : Delivers host) (s : State host) (ys : List ℕ) (junk : Mem)
    (seqno addr : ℕ) (bytes : List ℕ) (i k cb : ℕ) where
  abbrev pub sent : List ℕ
  sent = packet_bytes (finish_tlp seqno (write_packet junk addr bytes pcie_tlp_mwr64))

  abbrev tport : Mem
  tport = write_packet junk addr bytes pcie_tlp_mwr64

  -- The memory of the request itself, before it is written.
  abbrev rest_of : Mem
  rest_of = view t_tlp_tlp (update junk 0 pcie_proto_tlp)

  abbrev t : ℕ
  t =
      request_data (tlp_req_set_addr (set_code pcie_tlp_mwr64 rest_of) addr (length bytes))
      + (length bytes + addr % 4 + 3) / 4 * 4

  inside : view t_tlp_tlp tport ≡ write_tlp rest_of addr bytes pcie_tlp_mwr64
  unfolding write_packet
  inside = view-put_view t_tlp_tlp (update junk 0 pcie_proto_tlp) _

  starts_tlp : tport 0 ≡ pcie_proto_tlp
  unfolding write_packet
  starts_tlp = refl

  sized :
      addr < 2 ^ 64
      → 1 ≤ length bytes
      → length bytes + addr % 4 ≤ 4092
      → tlp_total_length (view t_tlp_tlp tport) ≡ pos t
  sized small one fits =
      ap tlp_total_length inside ∙ total-written rest_of addr bytes small one (omega arith)

  -- The client that has read the packet and answered it, in what is then the world.
  abbrev pub answered : host.World → State host
  answered w = (warppipe_ack host (arrived host net s 0 sent w) pcie_dllp_ack (seqno % 2 ^ 12)).0

  -- A write arrives. If the sent bytes are next in the stream of a client whose BAR `i` of `2 ^ k`
  -- bytes, for a `k` from 2 to 31, is found for the word of the 64-bit address and has a write
  -- callback, one step reads them, answers ACK and calls this callback, with the address within the
  -- BAR, the number of bytes and the same bytes; what follows in the stream is left there. This
  -- holds for 1 byte to as many as fit in 1023 words.
  pub write_arrives :
      addr < 2 ^ 64
      → 1 ≤ length bytes
      → length bytes + addr % 4 ≤ 4092
      → net.incoming s.world ≡ sent ++ ys
      → get_bar_idx s.client (addr / 4 * 4) ≡ some i
      → s.client.bar_size i ≡ 2 ^ k
      → 2 ≤ k
      → k < 32
      → s.client.bar_write_cb i ≡ some cb
      → (w : host.World) × (payload : Mem) × (warppipe_client_read host s
          ≡ returned (
              let (client, world) =
                host.call_write cb
                  (addr % 2 ^ k)
                  payload
                  (pos (length bytes))
                  (answered w).client
                  (answered w).world in
              record { client = client; world = world }))
        × (slice payload 0 (length bytes) ≡ bytes)
        × (net.incoming w ≡ ys)
  unfolding get_bar_idx
  write_arrives small one fits there found size lo hi called =
      let (w, runs, rest) =
        sent_tlp_handled tport seqno t starts_tlp (sized small one fits) host net s ys
          (omega (arith, starts-le rest_of addr bytes small one (omega arith))) there in
      let kept = ack-IsKept host (arrived host net s 0 sent w) pcie_dllp_ack (seqno % 2 ^ 12) in
      let (payload, handled, same) =
        handle_tlp-write host (answered w) rest_of addr bytes t i k cb small one (omega arith)
          (total-written rest_of addr bytes small one (omega arith))
          (λ j lt.
            ap (λ (m : Mem). m (t_tlp_tlp + j)) (kept_buf _ _ kept)
            ∙ copied_tlp tport seqno t starts_tlp (sized small one fits) s.client.buf j lt
            ∙ ap (λ (m : Mem). m j) inside)
          (kept_bar_idx _ _ (addr / 4 * 4) kept ∙ found)
          (ap (λ (f : ℕ → ℕ). f i) (kept_size _ _ kept) ∙ size) lo hi
          (ap (λ (f : ℕ → Option Callback). f i) (kept_write_cb _ _ kept) ∙ called) in
      (w, payload, runs ∙ ap returned handled, same, rest)
