-- ===== src/Client/Receive/Accept.antt =====
-- What `warppipe_client_read` makes of a transaction packet that is in the stream.
use warp_pipe.Base.{
  ℕ, ◌+◌, ◌≤◌, ◌<◌, ◌≡◌, refl, sym, ap, ◌∙◌, arith, true, false, List, [], ◌∷◌, ◌++◌, Mem, length,
  length-slice, view, slice, poke, bit_or, ◌<<<◌, leb, pos,
}
use warp_pipe.Base.Copy.{poke-append, poke-slice, slice-append}
use warp_pipe.Proto.Layout.{dl_seqno_hi, dl_seqno_lo, pcie_dllp_ack, pcie_dllp_nak, pcie_proto_tlp}
use warp_pipe.Proto.Header.{tlp_total_length}
use warp_pipe.Crc.{pcie_lcrc32_valid}
use warp_pipe.Crc.Lcrc.{tlp_total_length_ext}
use warp_pipe.Client.State.{Host, State, received}
use warp_pipe.Client.Send.{t_tlp, warppipe_ack, header_length, t_tlp_tlp}
use warp_pipe.Client.Handlers.{handle_tlp}
use warp_pipe.Client.Receive.{
  client_buffer_size, returned, filled, fill, store_received, recv_at, accept_tlp, receive_tlp,
  warppipe_client_read,
}
use warp_pipe.Client.Receive.Fill.{Delivers, fill-incoming, arrived}

append_assoc {ℓ} : {A : Type ℓ} (xs ys zs : List A) → (xs ++ ys) ++ zs ≡ xs ++ (ys ++ zs)
append_assoc [] ys zs = refl
append_assoc (x ∷ xs) ys zs = ap (x ∷◌) (append_assoc xs ys zs)

receive_tlp-filled :
    (host : Host) (s s' : State host) (t : ℕ)
    → tlp_total_length (view t_tlp_tlp s.client.buf) ≡ pos t
    → t + header_length ≤ client_buffer_size
    → fill host (t + header_length) s header_length (t + header_length) ≡ filled s'
    → receive_tlp host s ≡ returned (accept_tlp host s')
unfolding receive_tlp
receive_tlp-filled host s s' t sized fits runs =
    let bounded : leb (t + header_length) client_buffer_size ≡ true = ground arith in
    rw (sized, receive_tlp) (rw (bounded, runs))

client_read-header :
    (host : Host) (s : State host) (xs : List ℕ)
    → (host.recv s.client.fd header_length s.world).0 ≡ received xs
    → length xs ≡ header_length
    → poke s.client.buf 0 xs 0 ≡ pcie_proto_tlp
    → warppipe_client_read host s
      ≡ receive_tlp host (record {
        client = record (s.client) { buf = poke (s.client.buf) 0 xs };
        world = (host.recv s.client.fd header_length s.world).1;
      })
unfolding warppipe_client_read recv_at store_received
client_read-header host s xs got long is_tlp =
    rw (got, warppipe_client_read) (rw (got, long, is_tlp))

module _ (host : Host) (net : Delivers host) (s : State host) (m : Mem) (t : ℕ) (ys : List ℕ)
    (is_tlp : m 0 ≡ pcie_proto_tlp) (sized : tlp_total_length (view t_tlp_tlp m) ≡ pos t)
    (fits : t + header_length ≤ client_buffer_size)
    (there : net.incoming s.world ≡ slice m 0 (header_length + t) ++ ys) where
  abbrev header_bytes : List ℕ
  header_bytes = slice m 0 header_length

  abbrev other_bytes : List ℕ
  other_bytes = slice m header_length t

  in_two : slice m 0 (header_length + t) ≡ header_bytes ++ other_bytes
  in_two = slice-append m 0 header_length t

  begins : net.incoming s.world ≡ header_bytes ++ (other_bytes ++ ys)
  begins = there ∙ ap (λ l. l ++ ys) in_two ∙ append_assoc header_bytes other_bytes ys

  abbrev first : State host
  first = arrived host net s 0 header_bytes ((host.recv s.client.fd header_length s.world).1)

  first_byte : (k : ℕ) → k < header_length → first.client.buf k ≡ m k
  first_byte k h = poke-slice s.client.buf m 0 header_length k (omega arith) h

  receives :
      (w : host.World) × (receive_tlp host first
        ≡ returned (accept_tlp host (arrived host net s 0 (slice m 0 (header_length + t)) w)))
      × (net.incoming w ≡ ys)
  unfolding slice
  receives =
      let (got, left) =
        net.whole_header s.client.fd s.world header_bytes (other_bytes ++ ys) begins
          (length-slice m 0 header_length) in
      let (w, runs, rest) =
        fill-incoming host net (t + header_length) first header_length (t + header_length)
          other_bytes ys left (omega (arith, length-slice m header_length t)) (omega arith) in
      let known : tlp_total_length (view t_tlp_tlp first.client.buf) ≡ pos t =
        tlp_total_length_ext _ _ (first_byte 3 (omega arith)) (first_byte 5 (omega arith))
          (first_byte 6 (omega arith))
        ∙ sized in
      let all : arrived host net first header_length other_bytes w
          ≡ arrived host net s 0 (slice m 0 (header_length + t)) w =
        ap (λ b. record { client = record (s.client) { buf = b }; world = w })
          (sym (
            ap (poke s.client.buf 0) in_two
            ∙ poke-append s.client.buf 0 header_bytes other_bytes)) in
      (
        w,
        receive_tlp-filled host first _ t known fits runs
            ∙ ap (λ z. returned (accept_tlp host z)) all,
        rest,
      )

  -- A transaction packet that is next in the stream, of at most `client_buffer_size` bytes with the
  -- 7 of `header_length`, is read in one step, if its first 7 bytes come in one piece, as `Delivers`
  -- says: however the rest is cut up, its bytes stand at the start of the buffer when the client
  -- answers and handles it, and what follows in the stream is left there.
  pub client_read-tlp :
      (w : host.World) × (warppipe_client_read host s
        ≡ returned (accept_tlp host (arrived host net s 0 (slice m 0 (header_length + t)) w)))
      × (net.incoming w ≡ ys)
  client_read-tlp =
      let (got, left) =
        net.whole_header s.client.fd s.world header_bytes (other_bytes ++ ys) begins
          (length-slice m 0 header_length) in
      let (w, runs, rest) = receives in
      (
        w,
        client_read-header host s header_bytes got (length-slice m 0 header_length)
              (first_byte 0 (omega arith) ∙ is_tlp)
            ∙ runs,
        rest,
      )

pub accept_tlp-intact :
    (host : Host) (s : State host) (seqno : ℕ)
    → pcie_lcrc32_valid (view t_tlp s.client.buf) ≡ true
    → bit_or (dl_seqno_hi (view t_tlp s.client.buf) <<< 8) (dl_seqno_lo (view t_tlp s.client.buf))
      ≡ seqno
    → accept_tlp host s ≡ handle_tlp host ((warppipe_ack host s pcie_dllp_ack seqno).0)
unfolding accept_tlp
accept_tlp-intact host s seqno valid numbered = rw (valid, numbered)

-- A packet whose CRC is wrong is answered with a NAK for its sequence number, and not handled.
pub accept_tlp-corrupt :
    (host : Host) (s : State host) (seqno : ℕ)
    → pcie_lcrc32_valid (view t_tlp s.client.buf) ≡ false
    → bit_or (dl_seqno_hi (view t_tlp s.client.buf) <<< 8) (dl_seqno_lo (view t_tlp s.client.buf))
      ≡ seqno
    → accept_tlp host s ≡ (warppipe_ack host s pcie_dllp_nak seqno).0
unfolding accept_tlp
accept_tlp-corrupt host s seqno wrong numbered = rw (wrong, numbered)
