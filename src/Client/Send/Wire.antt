-- ===== src/Client/Send/Wire.antt =====
-- What `client_send_pcie_transport` puts on the wire.
use warp_pipe.Base.{
  ℕ, zero, suc, ◌+◌, ◌/◌, ◌%◌, ◌^◌, ◌≤◌, ◌<◌, ◌≡◌, refl, ap, ◌∙◌, ◌⊎◌, inl, inr, bit_and, bit_or,
  arith, true, Mem, length, length-slice, view, ◌<<<◌, ◌>>>◌, pos,
}
use warp_pipe.Base.Bits.{bit_and-mask, bit_or-shift}
use warp_pipe.Base.Copy.{view-put_view}
use warp_pipe.Proto.Fields.{fields}
use warp_pipe.Proto.Layout.{
  tlp_fmt, dl_seqno_hi, dl_seqno_lo, set_dl_seqno_hi, set_dl_seqno_lo, pcie_proto_tlp,
}
use warp_pipe.Proto.Header.{tlp_total_length}
use warp_pipe.Crc.{pcie_lcrc32, pcie_lcrc32_valid, lcrc_end}
use warp_pipe.Crc.Lcrc.{tlp_total_length_ext, lcrc32_keeps, lcrc32_valid-lcrc32, lcrc_end_lem}
use warp_pipe.Client.State.{Host, State, set_client}
use warp_pipe.Client.Send.{
  at, t_tlp, t_tlp_tlp, header_length, next_seqno, finish_tlp, packet_bytes, send_bytes,
  client_send_pcie_transport,
}

abbrev pub numbered : ℕ → Mem → Mem
numbered seqno p = set_dl_seqno_lo (bit_and seqno 0xff) (set_dl_seqno_hi (seqno >>> 8) p)

-- The end of the data of a transport packet, where its CRC goes.
abbrev pub data_end : Mem → ℕ
data_end tport = 1 + lcrc_end (view t_tlp tport)

lcrc_end-numbered : (seqno : ℕ) (p : Mem) → lcrc_end (numbered seqno p) ≡ lcrc_end p
unfolding lcrc_end
lcrc_end-numbered seqno p =
    rw (tlp_total_length_ext (view 2 (numbered seqno p)) (view 2 p) refl refl refl, lcrc_end)

module _ (seqno : ℕ) (tport : Mem) (known : tlp_fmt (view t_tlp_tlp tport) < 4) where
  abbrev inner : Mem
  inner = numbered seqno (view t_tlp tport)

  view-finish_tlp : view t_tlp (finish_tlp seqno tport) ≡ pcie_lcrc32 inner
  unfolding finish_tlp
  view-finish_tlp =
      view-put_view t_tlp (at t_tlp (numbered seqno) tport) _
      ∙ ap pcie_lcrc32 (view-put_view t_tlp tport inner)

  inner_fmt : tlp_fmt (view 2 inner) < 4
  inner_fmt = known

  inner_end : lcrc_end inner ≡ lcrc_end (view t_tlp tport)
  inner_end = lcrc_end-numbered seqno (view t_tlp tport)

  finished_byte :
      (k : ℕ) → k < lcrc_end (view t_tlp tport) → finish_tlp seqno tport (1 + k) ≡ inner k
  finished_byte k h =
      ap (λ (m : Mem). m k) view-finish_tlp
      ∙ lcrc32_keeps inner inner_fmt k (inl (omega (arith, inner_end)))

  -- Only the sequence number and the CRC are written.
  pub finish_tlp_keeps :
      (k : ℕ) → (k < 1) ⊎ (3 ≤ k) → k < data_end tport → finish_tlp seqno tport k ≡ tport k
  finish_tlp_keeps zero h l = unfold finish_tlp in refl
  finish_tlp_keeps (suc k) h l =
      let e : suc k ≡ 1 + k = omega arith in rw (e, finished_byte k (omega arith)) (ground arith)

  end_bound : 14 ≤ lcrc_end (view t_tlp tport)
  end_bound = omega (arith, lcrc_end_lem (view t_tlp tport) known)

  pub total-finish_tlp :
      tlp_total_length (view t_tlp_tlp (finish_tlp seqno tport))
      ≡ tlp_total_length (view t_tlp_tlp tport)
  total-finish_tlp =
      tlp_total_length_ext _ _ (finish_tlp_keeps 3 (inr (omega arith)) (omega (arith, end_bound)))
        (finish_tlp_keeps 5 (inr (omega arith)) (omega (arith, end_bound)))
        (finish_tlp_keeps 6 (inr (omega arith)) (omega (arith, end_bound)))

  pub valid-finish_tlp : pcie_lcrc32_valid (view t_tlp (finish_tlp seqno tport)) ≡ true
  valid-finish_tlp = rw view-finish_tlp ((lcrc32_valid-lcrc32 inner inner_fmt).0)

  -- The sequence number is sent modulo 2 ^ 12.
  pub seqno-finish_tlp :
      let p = view t_tlp (finish_tlp seqno tport) in
      bit_or (dl_seqno_hi p <<< 8) (dl_seqno_lo p) ≡ seqno % 2 ^ 12
  seqno-finish_tlp =
      rw (finished_byte 0 (omega (arith, end_bound)), finished_byte 1 (omega (arith, end_bound)))
        (simp (fields, bit_and-mask 8 seqno)
          (omega (arith, bit_or-shift 8 (seqno / 256 % 16) (seqno % 256 % 256) (omega arith))))

module _ (host : Host) (s : State host) (tport : Mem) where
  abbrev new_seqno : ℕ
  new_seqno = next_seqno s.client.seqno

  pub send_tlp :
      tport 0 ≡ pcie_proto_tlp
      → client_send_pcie_transport host s tport
        ≡ send_bytes host
            (set_client s (record (s.client) { seqno = new_seqno }))
            (packet_bytes (finish_tlp new_seqno tport))
  send_tlp e = unfold client_send_pcie_transport in rw (e)

  pub length-packet_bytes :
      (n : ℕ)
      → tlp_total_length (view t_tlp_tlp tport) ≡ pos n
      → length (packet_bytes tport) ≡ header_length + n
  length-packet_bytes n e = unfold packet_bytes in rw (e) (length-slice tport 0 (header_length + n))
