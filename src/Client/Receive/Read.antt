-- ===== src/Client/Receive/Read.antt =====
-- A `warppipe_read` of one client, through to the read callback of its peer and the completion.
use warp_pipe.Base.{
  ℕ, ◌+◌, ◌*◌, ◌/◌, ◌%◌, ◌^◌, ◌≤◌, ◌<◌, ◌≡◌, refl, ap, ◌∙◌, arith, Option, some, List, ◌++◌, Mem,
  view, pos,
}
use warp_pipe.Proto.Layout.{r_tag, pcie_tlp_mrd64, pcie_dllp_ack, pcie_proto_tlp}
use warp_pipe.Proto.Header.{tlp_total_length, tlp_data_length}
use warp_pipe.Proto.Agree.{request_data}
use warp_pipe.Client.State.{Callback, Host, State}
use warp_pipe.Client.Bars.{get_bar_idx}
use warp_pipe.Client.Send.{t_tlp_tlp, finish_tlp, packet_bytes, warppipe_ack}
use warp_pipe.Client.Send.Ack.{ack-IsKept}
use warp_pipe.Client.Requests.{read_packet}
use warp_pipe.Client.Requests.ReadPacket.{header, total-header, starts-le, view-read_packet}
use warp_pipe.Client.Handlers.{received_tlp}
use warp_pipe.Client.Handlers.Read.{reply_sent, handle_tlp-read, tag_received, words_received}
use warp_pipe.Client.Receive.{returned, warppipe_client_read}
use warp_pipe.Client.Receive.Fill.{Delivers, arrived}
use warp_pipe.Client.Receive.Delivery.{copied_tlp, sent_tlp_handled}
use warp_pipe.Client.Receive.Kept.{kept_buf, kept_read_cb, kept_size, kept_bar_idx}

module _ (host : Host) (net : Delivers host) (s : State host) (ys : List ℕ)
    (seqno tag addr len i k cb : ℕ) where
  abbrev tport : Mem
  tport = read_packet tag addr len pcie_tlp_mrd64

  abbrev pub sent : List ℕ
  sent = packet_bytes (finish_tlp seqno tport)

  starts_tlp : tport 0 ≡ pcie_proto_tlp
  unfolding read_packet
  starts_tlp = refl

  sized :
      (small : addr < 2 ^ 64)
      → tlp_total_length (view t_tlp_tlp tport) ≡ pos (request_data (header tag addr len small))
  sized small =
      ap tlp_total_length (view-read_packet tag addr len small) ∙ total-header tag addr len small

  -- The peer that has read the packet and answered it, in what is then the world.
  abbrev pub answered : host.World → State host
  answered w = (warppipe_ack host (arrived host net s 0 sent w) pcie_dllp_ack (seqno % 2 ^ 12)).0

  -- The peer answers, calls its callback and sends what this gives, for a packet `p` with the tag
  -- and the words of the request.
  abbrev pub Served : Type 0
  Served =
      (w : host.World) × (p : Mem) × (warppipe_client_read host s
        ≡ returned (
            reply_sent host p len
              (host.call_read cb (addr % 2 ^ k) (pos len) (answered w).client (answered w).world)))
      × (r_tag p ≡ tag)
      × (tlp_data_length p ≡ (len + addr % 4 + 3) / 4)
      × (net.incoming w ≡ ys)

  -- A read request arrives. If the sent bytes are next in the stream of a client whose BAR `i` of
  -- `2 ^ k` bytes, for a `k` from 2 to 31, is found for the word of the 64-bit address and has a read
  -- callback, one step reads them, answers ACK, calls this callback with the address within the BAR
  -- and the number of bytes, and sends what it gives as the completion for the request, which has
  -- the tag of the sender and the number of words that the bytes take up; what follows in the stream
  -- is left there. This holds for 1 byte to as many as fit in 1024 words, and tags below 256.
  pub read_arrives :
      addr < 2 ^ 64
      → 1 ≤ len
      → len + addr % 4 ≤ 4096
      → tag < 256
      → net.incoming s.world ≡ sent ++ ys
      → get_bar_idx s.client (addr / 4 * 4) ≡ some i
      → s.client.bar_size i ≡ 2 ^ k
      → 2 ≤ k
      → k < 32
      → s.client.bar_read_cb i ≡ some cb
      → Served
  unfolding get_bar_idx
  read_arrives small one fits tag_lt there found size lo hi called =
      let t = request_data (header tag addr len small) in
      let (w, runs, rest) =
        sent_tlp_handled tport seqno t starts_tlp (sized small) host net s ys
          (omega (arith, starts-le tag addr len small)) there in
      let kept = ack-IsKept host (arrived host net s 0 sent w) pcie_dllp_ack (seqno % 2 ^ 12) in
      let agree : (j : ℕ)
          → j < t
          → received_tlp (answered w).client j ≡ header tag addr len small j =
        λ j lt.
          ap (λ (m : Mem). m (t_tlp_tlp + j)) (kept_buf _ _ kept)
          ∙ copied_tlp tport seqno t starts_tlp (sized small) s.client.buf j lt
          ∙ ap (λ (m : Mem). m j) (view-read_packet tag addr len small) in
      (
        w,
        received_tlp (answered w).client,
        runs
            ∙ ap returned (
                handle_tlp-read host (answered w) tag addr len i k cb small one fits agree
                  (kept_bar_idx _ _ (addr / 4 * 4) kept ∙ found)
                  (ap (λ (f : ℕ → ℕ). f i) (kept_size _ _ kept) ∙ size) lo hi
                  (ap (λ (f : ℕ → Option Callback). f i) (kept_read_cb _ _ kept) ∙ called)),
        tag_received tag addr len small one fits _ agree tag_lt,
        words_received tag addr len small one fits _ agree,
        rest,
      )
