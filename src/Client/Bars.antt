-- ===== src/Client/Bars.antt =====
-- The base address registers of src/client.c: `get_bar_idx` and `warppipe_register_bar`.
pub mod Lookup
pub mod Register
use warp_pipe.Base.{
  ℕ, zero, suc, ◌+◌, ◌-◌, ◌%◌, ◌^◌, bit_and, Bool, true, false, not, ◌||◌, Option, none, some,
  update, u32, ◌==◌, if◌then◌else◌,
}
use warp_pipe.Crc.{complement32}
use warp_pipe.Client.State.{Client, Callback}

-- `bar_size - 1` of a `uint32_t`.
abbrev pub size_mask : ℕ → ℕ
size_mask size = u32 (size + 2 ^ 32 - 1)

-- `(addr & ~(bar_size[i] - 1)) == bar[i]`, where the mask is a `uint32_t`.
unfoldable pub in_bar : Client → ℕ → ℕ → Bool
in_bar client addr i = bit_and addr (complement32 (size_mask (client.bar_size i))) == client.bar i

-- The loop from `i` on, with `left` rounds to go.
unfoldable pub find_bar : Client → ℕ → ℕ → ℕ → Option ℕ
unfolding in_bar
find_bar client addr i zero = none
find_bar client addr i (suc left) =
    let rest = find_bar client addr (i + 1) left in if in_bar client addr i then some i else rest

unfoldable pub get_bar_idx : Client → ℕ → Option ℕ
unfolding find_bar
get_bar_idx client addr = find_bar client addr 0 6

-- `warppipe_register_bar`: `false` is the result -1.
unfoldable pub warppipe_register_bar :
    Client → ℕ → ℕ → ℕ → Option Callback → Option Callback → Client × Bool
warppipe_register_bar client bar bar_size bar_idx read_cb write_cb =
    if not (client.bar bar_idx == 0)
    then (client, false)
    else if bar_size == 0 || not (bit_and bar_size (size_mask bar_size) == 0)
    then (client, false)
    else (
      record client {
        bar = update client.bar bar_idx (u32 bar);
        bar_size = update client.bar_size bar_idx bar_size;
        bar_read_cb = update client.bar_read_cb bar_idx read_cb;
        bar_write_cb = update client.bar_write_cb bar_idx write_cb;
      },
      true,
    )

unfoldable pub warppipe_register_config0_read_cb : Client → Option Callback → Client
warppipe_register_config0_read_cb client read_cb = record client { cfg0_read_cb = read_cb }

unfoldable pub warppipe_register_config0_write_cb : Client → Option Callback → Client
warppipe_register_config0_write_cb client write_cb = record client { cfg0_write_cb = write_cb }
