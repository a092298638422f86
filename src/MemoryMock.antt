-- ===== src/MemoryMock.antt =====
-- memory-mock/main.c: a device with memory behind its BARs. A callback's name stands for its address.
pub mod Transfers
pub mod Probe
pub mod Setup
use warp_pipe.Base.{
  ℕ, zero, suc, ◌+◌, ◌-◌, ◌*◌, ◌/◌, ◌^◌, bit_and, bit_or, Bool, true, false, not, ◌&&◌, ◌||◌,
  Option, none, some, List, Mem, slice, poke, u32, ltb, leb, ◌==◌, if◌then◌else◌, ℤ, pos, negsuc,
  ltb_ℤ, int_of,
}
use warp_pipe.Proto.Header.{has}
use warp_pipe.Crc.{complement32}
use warp_pipe.Client.State.{Client, Callback}
use warp_pipe.Client.Bars.{
  size_mask, warppipe_register_bar, warppipe_register_config0_read_cb,
  warppipe_register_config0_write_cb,
}
use warp_pipe.ConfigSpace.{store_word}

-- `struct bar_config`, with the memory that `data` points to.
pub record BarConfig : Type 0 where
  pub config : ℕ
  pub size : ℕ
  pub read_cb : Option Callback
  pub write_cb : Option Callback
  pub memory : Mem

-- The variables of the program, with the client that `mock_dev_client` points to.
pub record Mock : Type 0 where
  pub bars_config : ℕ → BarConfig
  pub configuration_space : Mem
  pub mock_dev_client : Client

-- What becomes of a copy: it is refused before the `memcpy`, its bytes are copied, or its length is
-- negative, and the `memcpy` runs past every memory.
pub data Copy : Type 0 where
  outside : Copy
  copied : List ℕ → Copy
  overrun : Copy

abbrev pub memcpy_from : Mem → ℕ → ℤ → Copy
memcpy_from m addr (pos n) = copied (slice m addr n)
memcpy_from m addr (negsuc n) = overrun

-- The `length` that is left within the BAR: an `int`, like `max_len`.
abbrev pub truncated : ℕ → ℕ → ℤ → ℤ
truncated size addr length =
    let max_len = int_of (size - addr) in if ltb_ℤ max_len length then max_len else length

-- `outside` is the result 1.
unfoldable pub read_bar : BarConfig → ℕ → ℤ → Copy
read_bar bar addr length =
    if ltb bar.size addr
    then outside
    else memcpy_from bar.memory addr (truncated bar.size addr length)

abbrev pub store_copy : BarConfig → ℕ → Copy → Option BarConfig
store_copy bar addr outside = some bar
store_copy bar addr (copied bytes) = some (record bar { memory = poke bar.memory addr bytes })
store_copy bar addr overrun = none

-- The BAR afterwards, unless the `memcpy` runs past its memory.
unfoldable pub write_bar : BarConfig → ℕ → Mem → ℤ → Option BarConfig
write_bar bar addr payload length =
    store_copy bar addr (
      if ltb bar.size addr then outside else memcpy_from payload 0 (truncated bar.size addr length))

-- `offsetof(struct pcie_configuration_space_header_type0, bar)`
abbrev pub bar_offset : ℕ
bar_offset = 16

abbrev pub bar_addr_test : ℕ → Bool
bar_addr_test addr = leb bar_offset addr && ltb addr (bar_offset + 4 * 6)

abbrev pub bar_idx : ℕ → ℕ
bar_idx addr = (addr - bar_offset) / 4

-- A `uint32_t` in the memory of a little-endian host.
abbrev pub load_word : ℕ → Mem → ℕ
load_word off m = m off + m (off + 1) * 2 ^ 8 + m (off + 2) * 2 ^ 16 + m (off + 3) * 2 ^ 24

unfoldable pub handle_config_bar_write : Mock → ℕ → ℕ → Mock
handle_config_bar_write mock i value =
    let bar = mock.bars_config i in
    let bar_addr = bit_and value (complement32 (size_mask (bar.size))) in
    let space =
      store_word (bar_offset + 4 * i) (bit_or bar_addr (bar.config)) (mock.configuration_space) in
    let client =
      if not (value == 0xffff_ffff) && mock.mock_dev_client.bar i == 0
      then (warppipe_register_bar (mock.mock_dev_client) bar_addr (bar.size) i (bar.read_cb)
          (bar.write_cb)).0
      else mock.mock_dev_client in
    record mock { configuration_space = space; mock_dev_client = client }

-- `none` is the result 1; otherwise the four bytes of the register.
unfoldable pub config0_read_cb : Mock → ℕ → ℕ → Option (List ℕ)
config0_read_cb mock addr length =
    if has addr 3 || not (length == 4) then none else some (slice (mock.configuration_space) addr 4)

unfoldable pub config0_write_cb : Mock → ℕ → Mem → ℕ → Mock
unfolding handle_config_bar_write
config0_write_cb mock addr payload length =
    if has addr 3 || not (length == 4)
    then mock
    else if bar_addr_test addr
    then handle_config_bar_write mock (bar_idx addr) (load_word 0 payload)
    else mock

-- The loop of `server_client_accept` from `i` on, with `left` rounds to go.
unfoldable pub reset_bars : (ℕ → BarConfig) → ℕ → ℕ → Mem → Mem
reset_bars bars i zero space = space
reset_bars bars i (suc left) space =
    reset_bars bars (i + 1) left
      (store_word (bar_offset + 4 * i) (bit_and (bars i).config 0xf) space)

-- `read_cb` and `write_cb` are the addresses of the two configuration callbacks.
unfoldable pub server_client_accept : Mock → Client → Callback → Callback → Mock
unfolding reset_bars warppipe_register_config0_read_cb warppipe_register_config0_write_cb
server_client_accept mock client read_cb write_cb = record mock {
  mock_dev_client =
      warppipe_register_config0_write_cb (warppipe_register_config0_read_cb client (some read_cb))
        (some write_cb);
  configuration_space = reset_bars (mock.bars_config) 0 6 (mock.configuration_space);
}

-- `BAR_DECODE_SIZE`
abbrev pub bar_decode_size : ℕ → ℕ
bar_decode_size s = u32 (complement32 (bit_and s (2 ^ 32 - 16)) + 1)
