-- ===== src/Client/Receive/Completion.antt =====
-- The completion of a read request, from the peer that sends it to the completion callback.
use warp_pipe.Base.{
  ℕ, ◌+◌, ◌*◌, ◌%◌, ◌^◌, ◌≤◌, ◌<◌, ◌≡◌, refl, ap, ◌∙◌, arith, Option, some, none, List, ◌++◌, Mem,
  length, view, slice, poke, update, pos,
}
use warp_pipe.Base.Copy.{view-put_view}
use warp_pipe.Proto.Layout.{r_tag, c_tag, c_data, pcie_dllp_ack, pcie_proto_tlp}
use warp_pipe.Proto.Header.{tlp_total_length, tlp_data_length}
use warp_pipe.Proto.Request.{tlp_data_length_range}
use warp_pipe.Client.State.{Callback, Host, State}
use warp_pipe.Client.Send.{t_tlp_tlp, finish_tlp, packet_bytes, warppipe_ack}
use warp_pipe.Client.Send.Ack.{ack-IsKept}
use warp_pipe.Client.Handlers.{received_tlp, completion_header, completion}
use warp_pipe.Client.Handlers.Completion.{total-tlp, handle_tlp-completion}
use warp_pipe.Client.Receive.{returned, warppipe_client_read}
use warp_pipe.Client.Receive.Fill.{Delivers, arrived}
use warp_pipe.Client.Receive.Delivery.{copied_tlp, sent_tlp_handled}
use warp_pipe.Client.Receive.Kept.{kept_buf, kept_completion_cb}

module _ (host : Host) (net : Delivers host) (s : State host) (ys : List ℕ) (p : Mem)
    (written : List ℕ) (seqno cb : ℕ) where
  abbrev tport : Mem
  tport = completion p (pos (length written)) written (pos 0)

  abbrev pub sent : List ℕ
  sent = packet_bytes (finish_tlp seqno tport)

  inside : view t_tlp_tlp tport ≡ poke (completion_header p (pos (length written))) c_data written
  unfolding completion
  inside = view-put_view t_tlp_tlp (update (λ _. 0) 0 pcie_proto_tlp) _

  starts_tlp : tport 0 ≡ pcie_proto_tlp
  unfolding completion
  starts_tlp = refl

  sized :
      length written < 4096
      → tlp_total_length (view t_tlp_tlp tport) ≡ pos (12 + tlp_data_length p * 4)
  sized small = ap tlp_total_length inside ∙ total-tlp p (length written) small written

  -- The client that has read the packet and answered it, in what is then the world.
  abbrev pub answered : host.World → State host
  answered w = (warppipe_ack host (arrived host net s 0 sent w) pcie_dllp_ack (seqno % 2 ^ 12)).0

  -- The client answers and calls the callback, which has the bytes, and then forgets it.
  abbrev pub Completes : Type 0
  Completes =
      (w : host.World) × (payload : Mem) × (warppipe_client_read host s
        ≡ returned (
            let (client, world) =
              host.call_completion cb 0 payload (length written) (answered w).client
                (answered w).world in
            record {
              client = record client {
                completion_cb = update client.completion_cb (c_tag (received_tlp client)) none;
              };
              world = world;
            }))
      × (slice payload 0 (length written) ≡ written)
      × (net.incoming w ≡ ys)

  -- A completion arrives. If the bytes of the completion for a request `p`, with as much data as the
  -- read callback has written, below 4096 bytes and no more than the request has words for, are next
  -- in the stream of a client that waits for the tag of `p`, one step reads them, answers ACK, and
  -- calls the completion callback with the number of bytes and the same bytes; then the callback of
  -- the tag that the buffer holds is forgotten. What follows in the stream is left there.
  pub completion_arrives :
      length written < 4096
      → length written ≤ tlp_data_length p * 4
      → net.incoming s.world ≡ sent ++ ys
      → s.client.completion_cb (r_tag p) ≡ some cb
      → Completes
  completion_arrives small fits there called =
      let t = 12 + tlp_data_length p * 4 in
      let (w, runs, rest) =
        sent_tlp_handled tport seqno t starts_tlp (sized small) host net s ys
          (omega (arith, tlp_data_length_range p)) there in
      let kept = ack-IsKept host (arrived host net s 0 sent w) pcie_dllp_ack (seqno % 2 ^ 12) in
      let (payload, handled, same) =
        handle_tlp-completion host (answered w) p written cb small fits
          (λ j lt.
            ap (λ (m : Mem). m (t_tlp_tlp + j)) (kept_buf _ _ kept)
            ∙ copied_tlp tport seqno t starts_tlp (sized small) s.client.buf j lt
            ∙ ap (λ (m : Mem). m j) inside)
          (ap (λ (f : ℕ → Option Callback). f (r_tag p)) (kept_completion_cb _ _ kept) ∙ called) in
      (w, payload, runs ∙ ap returned handled, same, rest)
