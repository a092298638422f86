-- ===== src/Client/State.antt =====
-- `struct warppipe_client` of inc/warppipe/client.h, `warppipe_client_create`, and what the client
-- takes from outside: the socket calls and the registered callbacks.
use warp_pipe.Base.{ℕ, Bool, true, Option, none, List, Mem, ltb, if◌then◌else◌, ℤ}

-- A function pointer; NULL is `none`. An array is a function of the index.
abbrev pub Callback : Type 0
Callback = ℕ

-- `seqno` is the bit pattern of the `int`, and `private_data` an address that the client only stores.
pub record Client : Type 0 where
  pub fd : ℕ
  pub seqno : ℕ
  pub active : Bool
  pub private_data : ℕ
  pub bar_read_cb : ℕ → Option Callback
  pub bar_write_cb : ℕ → Option Callback
  pub bar : ℕ → ℕ
  pub bar_size : ℕ → ℕ
  pub cfg0_read_cb : Option Callback
  pub cfg0_write_cb : Option Callback
  pub completion_cb : ℕ → Option Callback
  pub read_tag : ℕ
  pub buf : Mem

-- What `recv` gives: bytes, none at the end of the stream, or -1, with `true` for an `errno` of
-- EAGAIN or EWOULDBLOCK.
pub data Received : Type 0 where
  received : List ℕ → Received
  failed : Bool → Received

-- The first `bars` entries of an array are set to `v`.
abbrev pub fill_array {ℓ} : {A : Type ℓ} → ℕ → A → (ℕ → A) → ℕ → A
fill_array bars v old i = if ltb i bars then v else old i

-- `warppipe_client_create`. The client comes from `malloc`: what is not assigned here keeps what
-- the memory held, `completion_cb` and `private_data` too.
unfoldable pub warppipe_client_create : Client → ℕ → Client
warppipe_client_create client client_fd = record client {
  fd = client_fd;
  seqno = 0;
  active = true;
  cfg0_read_cb = none;
  cfg0_write_cb = none;
  read_tag = 0;
  bar_read_cb = fill_array 6 none client.bar_read_cb;
  bar_write_cb = fill_array 6 none client.bar_write_cb;
  bar = fill_array 6 0 client.bar;
  bar_size = fill_array 6 0 client.bar_size;
}

-- What a read callback does: the error code, the bytes that it writes from `data` on, and the
-- state that it leaves, as it may call the library for its client.
pub record ReadReply (World : Type 0) : Type 0 where
  pub error : ℤ
  pub written : List ℕ
  pub client : Client
  pub world : World

-- The socket calls, whose `World` holds the network and all else outside, and the calls of a
-- callback by its pointer. A data pointer is the memory from there on.
pub record Host : Type 1 where
  pub World : Type 0
  pub send : ℕ → List ℕ → World → ℤ × World
  pub recv : ℕ → ℕ → World → Received × World
  pub call_read : Callback → ℕ → ℤ → Client → World → ReadReply World
  pub call_write : Callback → ℕ → Mem → ℤ → Client → World → Client × World
  pub call_completion : Callback → ℕ → Mem → ℕ → Client → World → Client × World

-- What a function of the client works on.
pub record State (host : Host) : Type 0 where
  pub client : Client
  pub world : host.World

abbrev pub set_client : {host : Host} → State host → Client → State host
set_client s c = record s { client = c }
