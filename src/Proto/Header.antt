-- ===== src/Proto/Header.antt =====
-- src/proto.c. A length is the `int` that the source computes; `addr` is a `uint64_t`. The
-- `length` of `tlp_req_set_addr` is an `int` that is not negative and far below 2 ^ 31.
use warp_pipe.Base.{
  Bool, not, ℕ, zero, suc, ◌+◌, ◌-◌, ◌*◌, ◌/◌, ◌^◌, bit_and, bit_or, Mem, update, u8, u64, ◌<<<◌,
  ◌>>>◌, ltb, leb, ◌==◌, if◌then◌else◌, ℤ, pos, negsuc, sub_ℕ, word32,
}
use warp_pipe.Proto.Layout.{
  tlp_fmt, tlp_length_hi, tlp_length_lo, set_tlp_fmt, set_tlp_length_hi, set_tlp_length_lo, bits,
  with_bits, r_first_be, r_last_be, r_address, pcie_tlp_fmt_3dw_nodata, pcie_tlp_fmt_3dw_data,
  pcie_tlp_fmt_4dw_nodata, pcie_tlp_fmt_4dw_data, pcie_tlp_fmt_4dw,
}

-- `x & mask` as a condition.
abbrev pub has : ℕ → ℕ → Bool
has x mask = not (bit_and x mask == 0)

-- 0 stands for 1024.
unfoldable pub tlp_data_length : Mem → ℕ
tlp_data_length pkt =
    let data_len = bit_or (tlp_length_hi pkt <<< 8) (tlp_length_lo pkt) in
    bit_and (word32 (sub_ℕ data_len 1)) 0x3ff + 1

-- The bytes that remain from the first to the last enabled one, given those of the words.
unfoldable pub last_enabled : ℕ → ℕ → ℤ
last_enabled last_be n =
    if has last_be 8
    then pos n
    else if has last_be 4
    then sub_ℕ n 1
    else if has last_be 2
    then sub_ℕ n 2
    else if has last_be 1
    then sub_ℕ n 3
    else negsuc 0

unfoldable pub tlp_data_length_bytes : Mem → ℤ
tlp_data_length_bytes pkt =
    let data_len_bytes = tlp_data_length pkt * 4 in
    let first_be = r_first_be pkt in
    let last_be = if data_len_bytes == 4 then first_be else r_last_be pkt in
    if has first_be 1
    then last_enabled last_be data_len_bytes
    else if has first_be 2
    then last_enabled last_be (data_len_bytes - 1)
    else if has first_be 4
    then last_enabled last_be (data_len_bytes - 2)
    else if has first_be 8
    then last_enabled last_be (data_len_bytes - 3)
    else if data_len_bytes == 4
    then pos 0
    else negsuc 0

unfoldable pub tlp_total_length : Mem → ℤ
tlp_total_length pkt =
    let data_len = tlp_data_length pkt in
    if tlp_fmt pkt == pcie_tlp_fmt_3dw_nodata
    then pos ((3 + 0) * 4)
    else if tlp_fmt pkt == pcie_tlp_fmt_3dw_data
    then pos ((3 + data_len) * 4)
    else if tlp_fmt pkt == pcie_tlp_fmt_4dw_nodata
    then pos ((4 + 0) * 4)
    else if tlp_fmt pkt == pcie_tlp_fmt_4dw_data
    then pos ((4 + data_len) * 4)
    else negsuc 0

-- `for (i = 0; i < n; i++) p[i] = addr >> 8 * (n - i - 1);` with `left` for `n - i`.
unfoldable pub store_addr : ℕ → ℕ → ℕ → Mem → Mem
store_addr addr p zero pkt = pkt
store_addr addr p (suc left) pkt =
    store_addr addr (p + 1) left (update pkt p (u8 (addr >>> (8 * left))))

-- `for (i = 0; i < n; i++) addr |= (uint64_t)p[i] << 8 * (n - i - 1);`
unfoldable pub load_addr : ℕ → ℕ → ℕ → Mem → ℕ
load_addr addr p zero pkt = addr
load_addr addr p (suc left) pkt =
    load_addr (bit_or addr (u64 (pkt p <<< (8 * left)))) (p + 1) left pkt

-- The byte that holds `r_first_be` and `r_last_be`, through the writes of `tlp_req_set_addr`.
unfoldable pub enables_byte : ℕ → ℕ → ℕ → ℕ
enables_byte align length b =
    let length_with_align = length + align in
    let b₁ = with_bits 0 4 (0xf <<< align) b in
    let b₂ = with_bits 4 4 (0xf >>> bit_and (word32 (sub_ℕ 0 length_with_align)) 3) b₁ in
    let b₃ =
      if leb length_with_align 4
      then with_bits 4 4 0 (with_bits 0 4 (bit_and (bits 0 4 b₂) (bits 4 4 b₂)) b₂)
      else b₂ in
    if length == 0 then with_bits 0 4 0 b₃ else b₃

-- The format's address size and the address bytes, for an aligned address.
unfoldable pub set_address : ℕ → Mem → Mem
set_address addr pkt =
    if ltb addr 0x1_0000_0000
    then store_addr addr r_address 4
        (set_tlp_fmt (bit_and (tlp_fmt pkt) (7 - pcie_tlp_fmt_4dw)) pkt)
    else store_addr addr r_address 8 (set_tlp_fmt (bit_or (tlp_fmt pkt) pcie_tlp_fmt_4dw) pkt)

-- `length = 4` in the case of length 0 is overwritten before it is read.
unfoldable pub tlp_req_set_addr : Mem → ℕ → ℕ → Mem
tlp_req_set_addr pkt addr length =
    let align = bit_and addr 3 in
    let length_with_align = length + align in
    let p₁ = update pkt 7 (enables_byte align length (pkt 7)) in
    let length' = (length_with_align + 4 - 1) / 4 in
    let p₂ = set_tlp_length_lo (bit_and length' 0xff) (set_tlp_length_hi (length' >>> 8) p₁) in
    set_address (bit_and addr (2 ^ 64 - 4)) p₂

unfoldable pub tlp_req_get_addr : Mem → ℕ
tlp_req_get_addr pkt =
    if has (tlp_fmt pkt) pcie_tlp_fmt_4dw
    then load_addr 0 r_address 8 pkt
    else load_addr 0 r_address 4 pkt
