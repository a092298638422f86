-- ===== src/Client/Receive/Kept.antt =====
-- What an answer keeps of the client, as far as the handlers of packets look at it.
use warp_pipe.Base.{ℕ, ◌≡◌, refl, ap, ◌∙◌, inl, inr, false}
use warp_pipe.Client.State.{Client}
use warp_pipe.Client.Bars.{get_bar_idx}
use warp_pipe.Client.Send.Ack.{IsKept}

pub kept_buf : (c d : Client) → IsKept c d → d.buf ≡ c.buf
kept_buf c d (inl e) = ap (λ z. z.buf) e
kept_buf c d (inr e) = ap (λ z. z.buf) e

pub kept_write_cb : (c d : Client) → IsKept c d → d.bar_write_cb ≡ c.bar_write_cb
kept_write_cb c d (inl e) = ap (λ z. z.bar_write_cb) e
kept_write_cb c d (inr e) = ap (λ z. z.bar_write_cb) e

pub kept_read_cb : (c d : Client) → IsKept c d → d.bar_read_cb ≡ c.bar_read_cb
kept_read_cb c d (inl e) = ap (λ z. z.bar_read_cb) e
kept_read_cb c d (inr e) = ap (λ z. z.bar_read_cb) e

pub kept_completion_cb : (c d : Client) → IsKept c d → d.completion_cb ≡ c.completion_cb
kept_completion_cb c d (inl e) = ap (λ z. z.completion_cb) e
kept_completion_cb c d (inr e) = ap (λ z. z.completion_cb) e

pub kept_size : (c d : Client) → IsKept c d → d.bar_size ≡ c.bar_size
kept_size c d (inl e) = ap (λ z. z.bar_size) e
kept_size c d (inr e) = ap (λ z. z.bar_size) e

active_apart :
    (c : Client) (addr : ℕ) → get_bar_idx (record c { active = false }) addr ≡ get_bar_idx c addr
unfolding get_bar_idx
active_apart c addr = refl

pub kept_bar_idx : (c d : Client) (addr : ℕ) → IsKept c d → get_bar_idx d addr ≡ get_bar_idx c addr
kept_bar_idx c d addr (inl e) = ap (λ z. get_bar_idx z addr) e
kept_bar_idx c d addr (inr e) = ap (λ z. get_bar_idx z addr) e ∙ active_apart c addr
