-- ===== src/Client/Receive/Ends.antt =====
-- How `warppipe_client_read` ends, over any socket.
use warp_pipe.Base.{
  ℕ, ◌+◌, ◌*◌, ◌%◌, ◌≤◌, ◌<◌, ◌≡◌, ◌≢◌, refl, sym, ◌∙◌, ◌⊎◌, ltb, inl, inr, arith, Bool, true,
  false, Option, List, Mem, length, view, poke, leb, not, ◌==◌, if◌then◌else◌, pos, negsuc,
}
use native.Mathlib.Decide.{dec_lt}
use warp_pipe.Proto.Layout.{tlp_fmt, pcie_tlp_fmt_4dw_data, pcie_proto_dllp, pcie_proto_tlp}
use warp_pipe.Proto.Header.{tlp_total_length, tlp_data_length}
use warp_pipe.Proto.Request.{tlp_total_length_cases, tlp_data_length_range}
use warp_pipe.Client.State.{Host, State, Received, received, failed}
use warp_pipe.Client.Send.{t_tlp, t_tlp_tlp, header_length}
use warp_pipe.Client.Handlers.{DllpReport}
use warp_pipe.Client.Receive.{
  Outcome, returned, reported, aborted, stalled, client_buffer_size, Filled, filled, disconnected,
  out_of_fuel, fill, recv_at, store_received, deactivate, accept_tlp, receive_tlp, receive_dllp,
  warppipe_client_read,
}
use warp_pipe.Client.Receive.Fill.{fill_ends}

Filled-cases :
    (host : Host) (r : Filled host)
    → ((s : State host) × (r ≡ filled s))
      ⊎ (((s : State host) × (r ≡ disconnected s)) ⊎ (r ≡ out_of_fuel))
Filled-cases host (filled s) = inl (s, refl)
Filled-cases host (disconnected s) = inr (inl (s, refl))
Filled-cases host out_of_fuel = inr (inr refl)

-- What `receive_tlp` comes to for the length of the packet.
module _ (host : Host) (s : State host) where
  abbrev Returns : Type 0
  Returns = (s' : State host) × (receive_tlp host s ≡ returned s')

  no_length : (n : ℕ) → tlp_total_length (view t_tlp_tlp s.client.buf) ≡ negsuc n → Returns
  no_length n e = (deactivate host s, unfold receive_tlp in rw (e, receive_tlp))

  too_long :
      (t : ℕ)
      → tlp_total_length (view t_tlp_tlp s.client.buf) ≡ pos t
      → client_buffer_size < t + header_length
      → receive_tlp host s ≡ aborted
  unfolding receive_tlp
  too_long t e h =
      let over : leb (t + header_length) client_buffer_size ≡ false = ground arith in
      rw (e, receive_tlp) (rw over)

  fits_buffer :
      (t : ℕ)
      → tlp_total_length (view t_tlp_tlp s.client.buf) ≡ pos t
      → t + header_length ≤ client_buffer_size
      → Returns
  unfolding receive_tlp
  fits_buffer t e h =
      let within : leb (t + header_length) client_buffer_size ≡ true = ground arith in
      elim (Filled-cases host (fill host (t + header_length) s header_length (t + header_length))) [
        | inl (s', f) ↦ (accept_tlp host s', rw (e, receive_tlp) (rw (within, f)))
        | inr (inl (s', f)) ↦ (s', rw (e, receive_tlp) (rw (within, f)))
        | inr (inr f) ↦
            absurd (
              fill_ends host (t + header_length) s header_length (t + header_length) (omega arith)
                f)
      ]

  abbrev pkt : Mem
  pkt = view t_tlp_tlp s.client.buf

  abbrev total : ℕ
  total = 12 + tlp_fmt pkt % 2 * 4 + (if ltb (tlp_fmt pkt) 2 then 0 else tlp_data_length pkt * 4)

  largest :
      client_buffer_size < total + header_length
      → (tlp_fmt pkt < 4)
      → (tlp_fmt pkt ≡ 3) × (tlp_data_length pkt ≡ 1024)
  largest over known = ground (arith, tlp_data_length_range pkt)

  smaller :
      ¬ (client_buffer_size < total + header_length)
      → (tlp_fmt pkt ≢ 3) ⊎ (tlp_data_length pkt < 1024)
  smaller fits = elim (dec_lt (tlp_data_length pkt) 1024) [
    | yes few ↦ inr few
    | no many ↦ inl (λ f. fits (ground (arith, f, many)))
  ]

  -- If the packet that has begun to arrive has 4 words of header and 1024 words of data, which is a
  -- valid length, the assertion on the size of the buffer fails; for any other, the step returns.
  pub receive_tlp_ends :
      ((tlp_fmt (view t_tlp_tlp s.client.buf) ≡ pcie_tlp_fmt_4dw_data)
        × (tlp_data_length (view t_tlp_tlp s.client.buf) ≡ 1024)
        × (receive_tlp host s ≡ aborted))
      ⊎ (((tlp_fmt (view t_tlp_tlp s.client.buf) ≢ pcie_tlp_fmt_4dw_data)
            ⊎ (tlp_data_length (view t_tlp_tlp s.client.buf) < 1024))
          × ((s' : State host) × (receive_tlp host s ≡ returned s')))
  receive_tlp_ends = elim (tlp_total_length_cases pkt) [
    | inr (unknown, e) ↦ inr (inl (λ f. absurd (omega (arith, f))), no_length 0 e)
    | inl (known, e) ↦ elim (dec_lt client_buffer_size (total + header_length)) [
      | yes over ↦ inl ((largest over known).0, (largest over known).1, too_long total e over)
      | no fits ↦ inr (smaller fits, fits_buffer total e (omega arith))
    ]
  ]

Received-cases :
    (r : Received)
    → ((bytes : List ℕ) × (r ≡ received bytes)) ⊎ ((again : Bool) × (r ≡ failed again))
Received-cases (received bytes) = inl (bytes, refl)
Received-cases (failed again) = inr (again, refl)

receive_tlp-ends : (host : Host) (s : State host) → receive_tlp host s ≢ stalled
receive_tlp-ends host s e = elim (receive_tlp_ends host s) [
  | inl (_, _, f) ↦ cc
  | inr (_, (s', f)) ↦ cc
]

returned-ends : {host : Host} (s : State host) → returned s ≢ stalled
returned-ends s e = cc

reported-ends : {host : Host} (r : Option DllpReport) (s : State host) → reported r s ≢ stalled
reported-ends r s e = cc

either-ends :
    {host : Host} (b : Bool) (x y : Outcome host)
    → x ≢ stalled
    → y ≢ stalled
    → (if b then x else y) ≢ stalled
either-ends true x y hx hy = hx
either-ends false x y hx hy = hy

-- What the step does with the first bytes it is given.
module _ (host : Host) (s : State host) where
  abbrev asked : Received × host.World
  asked = host.recv s.client.fd header_length s.world

  abbrev started : List ℕ → State host
  started bytes = record {
    client = record (s.client) { buf = poke (s.client.buf) 0 bytes };
    world = asked.1;
  }

  on_failure :
      (again : Bool)
      → asked.0 ≡ failed again
      → (s' : State host) × (warppipe_client_read host s ≡ returned s')
  unfolding warppipe_client_read recv_at store_received
  on_failure again f = (
    if again then record s { world = asked.1 } else deactivate host (record s { world = asked.1 }),
    rw (f, warppipe_client_read) (rw f),
  )

  on_bytes :
      (bytes : List ℕ)
      → asked.0 ≡ received bytes
      → warppipe_client_read host s ≡ (
          let s' = started bytes in
          if not (length bytes == header_length)
          then returned (deactivate host s')
          else if s'.client.buf 0 == pcie_proto_dllp
          then reported (receive_dllp (view t_tlp (s'.client.buf))) s'
          else if s'.client.buf 0 == pcie_proto_tlp
          then receive_tlp host s'
          else returned (deactivate host s'))
  unfolding warppipe_client_read recv_at store_received
  on_bytes bytes f = rw (f, warppipe_client_read) (rw f)

  -- One step of reading ends, whatever the socket gives: the rounds that `receive_tlp` has for its
  -- loop are enough.
  pub client_read_ends : warppipe_client_read host s ≢ stalled
  client_read_ends e = elim (Received-cases asked.0) [
    | inr (again, f) ↦ cc ((on_failure again f).1)
    | inl (bytes, f) ↦
        either-ends _ _ _ (returned-ends _)
          (either-ends _ _ _ (reported-ends _ _)
            (either-ends _ _ _ (receive_tlp-ends host (started bytes)) (returned-ends _)))
          (sym (on_bytes bytes f) ∙ e)
  ]
