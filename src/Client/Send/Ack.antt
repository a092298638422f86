-- ===== src/Client/Send/Ack.antt =====
-- `warppipe_ack`: what it leaves of the client, and what the peer makes of the packet.
use warp_pipe.Base.{ℕ, ◌≡◌, refl, ◌⊎◌, inl, inr, Bool-cases, false, List, length, slice}
use warp_pipe.Crc.{pcie_crc16}
use warp_pipe.Client.State.{Client, Host, State}
use warp_pipe.Client.Send.{
  at, t_tlp, header_length, eq_int, ack_packet, send_bytes, client_send_pcie_transport,
  warppipe_ack,
}

-- The client is as it was, or only no longer active.
abbrev pub IsKept : Client → Client → Type 0
IsKept c d = (d ≡ c) ⊎ (d ≡ record c { active = false })

send_bytes-IsKept :
    (host : Host) (s : State host) (bytes : List ℕ)
    → IsKept s.client ((send_bytes host s bytes).0.client)
send_bytes-IsKept host s bytes =
    elim (Bool-cases (eq_int ((host.send s.client.fd bytes s.world).0) (length bytes))) [
      | inl e ↦ inl (unfold send_bytes in rw e refl)
      | inr e ↦ inr (unfold send_bytes in rw e refl)
    ]

-- The bytes of the packet on the wire.
abbrev pub ack_bytes : ℕ → ℕ → List ℕ
ack_bytes type seqno = slice (at t_tlp pcie_crc16 (ack_packet type seqno)) 0 header_length

pub ack-send_bytes :
    (host : Host) (s : State host) (type seqno : ℕ)
    → (warppipe_ack host s type seqno).0 ≡ (send_bytes host s (ack_bytes type seqno)).0
unfolding warppipe_ack client_send_pcie_transport ack_packet
ack-send_bytes host s type seqno = refl

-- An answer keeps the client but for its being active: its sequence number counts transaction
-- packets only.
pub ack-IsKept :
    (host : Host) (s : State host) (type seqno : ℕ)
    → IsKept s.client ((warppipe_ack host s type seqno).0.client)
ack-IsKept host s type seqno =
    rw (ack-send_bytes host s type seqno) (send_bytes-IsKept host s (ack_bytes type seqno))
