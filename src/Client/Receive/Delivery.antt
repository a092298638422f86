-- ===== src/Client/Receive/Delivery.antt =====
-- From `client_send_pcie_transport` of one client to the handler of its peer.
use warp_pipe.Base.{
  ℕ, ◌+◌, ◌%◌, ◌^◌, ◌≤◌, ◌<◌, ◌≡◌, ◌≢◌, sym, ap, ◌∙◌, inl, inr, arith, true, List, ◌++◌, Mem, view,
  slice, poke, pos, negsuc, bit_or, ◌<<<◌,
}
use warp_pipe.Base.Copy.{view-view, poke-slice}
use warp_pipe.Proto.Layout.{pcie_proto_tlp, tlp_fmt, pcie_dllp_ack, dl_seqno_hi, dl_seqno_lo}
use warp_pipe.Proto.Header.{tlp_total_length}
use warp_pipe.Proto.Request.{tlp_total_length_cases}
use warp_pipe.Crc.{pcie_lcrc32_valid, lcrc_end}
use warp_pipe.Crc.Lcrc.{lcrc_end-pos, lcrc32_valid_ext}
use warp_pipe.Client.State.{Host, State}
use warp_pipe.Client.Send.{header_length, t_tlp, t_tlp_tlp, finish_tlp, packet_bytes, warppipe_ack}
use warp_pipe.Client.Send.Wire.{
  data_end, finish_tlp_keeps, total-finish_tlp, valid-finish_tlp, seqno-finish_tlp,
}
use warp_pipe.Client.Handlers.{handle_tlp}
use warp_pipe.Client.Receive.{client_buffer_size, returned, accept_tlp, warppipe_client_read}
use warp_pipe.Client.Receive.Fill.{Delivers, arrived}
use warp_pipe.Client.Receive.Accept.{client_read-tlp, accept_tlp-intact}

pos≢negsuc : (a b : ℕ) → pos a ≢ negsuc b
pos≢negsuc a b e = cc

pub fmt_known : (pkt : Mem) (t : ℕ) → tlp_total_length pkt ≡ pos t → tlp_fmt pkt < 4
fmt_known pkt t e = elim (tlp_total_length_cases pkt) [
  | inl (known, _) ↦ known
  | inr (_, f) ↦ absurd (pos≢negsuc t 0 (sym e ∙ f))
]

module _ (tport : Mem) (seqno t : ℕ) (is_tlp : tport 0 ≡ pcie_proto_tlp)
    (sized : tlp_total_length (view t_tlp_tlp tport) ≡ pos t) where
  abbrev known : tlp_fmt (view t_tlp_tlp tport) < 4
  known = fmt_known (view t_tlp_tlp tport) t sized

  sized_finished : tlp_total_length (view t_tlp_tlp (finish_tlp seqno tport)) ≡ pos t
  sized_finished = total-finish_tlp seqno tport known ∙ sized

  pub packet_bytes-finish_tlp :
      packet_bytes (finish_tlp seqno tport) ≡ slice (finish_tlp seqno tport) 0 (header_length + t)
  unfolding packet_bytes
  packet_bytes-finish_tlp = rw (sized_finished)

  data_end_sized : data_end tport ≡ 3 + t
  data_end_sized =
      omega (
        arith,
        lcrc_end-pos (view t_tlp tport) t (ap tlp_total_length (view-view 1 2 tport) ∙ sized),
      )

  finished_end : lcrc_end (view t_tlp (finish_tlp seqno tport)) ≡ 2 + t
  finished_end =
      lcrc_end-pos (view t_tlp (finish_tlp seqno tport)) t
        (ap tlp_total_length (view-view 1 2 (finish_tlp seqno tport)) ∙ sized_finished)

  pub finished_keeps :
      (k : ℕ) → k < t → finish_tlp seqno tport (t_tlp_tlp + k) ≡ tport (t_tlp_tlp + k)
  finished_keeps k h =
      finish_tlp_keeps seqno tport known (t_tlp_tlp + k) (inr (omega arith))
        (omega (arith, data_end_sized))

  finished_is_tlp : finish_tlp seqno tport 0 ≡ pcie_proto_tlp
  finished_is_tlp =
      finish_tlp_keeps seqno tport known 0 (inl (omega arith)) (omega (arith, data_end_sized))
      ∙ is_tlp

  -- What the peer holds in its buffer, once it has read the packet into it.
  module _ (buf : Mem) where
    abbrev copied : Mem
    copied = poke buf 0 (packet_bytes (finish_tlp seqno tport))

    pub copied_byte : (k : ℕ) → k < header_length + t → copied k ≡ finish_tlp seqno tport k
    copied_byte k h =
        ap (λ l. poke buf 0 l k) packet_bytes-finish_tlp
        ∙ poke-slice buf (finish_tlp seqno tport) 0 (header_length + t) k (omega arith)
            (omega arith)

    copied_valid : pcie_lcrc32_valid (view t_tlp copied) ≡ true
    copied_valid =
        sym (
          lcrc32_valid_ext (view t_tlp (finish_tlp seqno tport)) (view t_tlp copied)
            (fmt_known _ t
              (ap tlp_total_length (view-view 1 2 (finish_tlp seqno tport)) ∙ sized_finished))
            (λ k h. sym (copied_byte (1 + k) (omega (arith, finished_end)))))
        ∙ valid-finish_tlp seqno tport known

    copied_seqno :
        bit_or (dl_seqno_hi (view t_tlp copied) <<< 8) (dl_seqno_lo (view t_tlp copied))
        ≡ seqno % 2 ^ 12
    copied_seqno =
        rw (copied_byte 1 (omega arith), copied_byte 2 (omega arith))
          (seqno-finish_tlp seqno tport known)

    -- The transaction packet in it is the one that was handed to the sender.
    pub copied_tlp : (k : ℕ) → k < t → copied (t_tlp_tlp + k) ≡ tport (t_tlp_tlp + k)
    copied_tlp k h = copied_byte (t_tlp_tlp + k) (omega arith) ∙ finished_keeps k h

  -- A transaction packet with a length, of at most `client_buffer_size` bytes, arrives: a peer with
  -- the sent bytes next in its stream reads them in one step, answers ACK for the sequence number modulo 2 ^ 12,
  -- and then handles the packet; what follows in the stream is left there.
  pub sent_tlp_handled :
      (host : Host) (net : Delivers host) (s : State host) (ys : List ℕ)
      → t + header_length ≤ client_buffer_size
      → net.incoming s.world ≡ packet_bytes (finish_tlp seqno tport) ++ ys
      → (w : host.World) × (warppipe_client_read host s
          ≡ returned (
              handle_tlp host (
                (warppipe_ack host
                  (arrived host net s 0 (packet_bytes (finish_tlp seqno tport)) w)
                  pcie_dllp_ack
                  (seqno % 2 ^ 12)).0)))
        × (net.incoming w ≡ ys)
  sent_tlp_handled host net s ys fits there =
      let (w, runs, rest) =
        client_read-tlp host net s (finish_tlp seqno tport) t ys finished_is_tlp sized_finished fits
          (there ∙ ap (λ l. l ++ ys) packet_bytes-finish_tlp) in
      let same : arrived host net s 0 (slice (finish_tlp seqno tport) 0 (header_length + t)) w
          ≡ arrived host net s 0 (packet_bytes (finish_tlp seqno tport)) w =
        ap (λ l. arrived host net s 0 l w) (sym packet_bytes-finish_tlp) in
      (
        w,
        runs
            ∙ ap returned (
                ap (accept_tlp host) same
                ∙ accept_tlp-intact host
                    (arrived host net s 0 (packet_bytes (finish_tlp seqno tport)) w)
                    (seqno % 2 ^ 12) (copied_valid s.client.buf) (copied_seqno s.client.buf)),
        rest,
      )
