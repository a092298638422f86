-- ===== src/Zephyr.antt =====
-- zephyr-samples/common/common.c: how a host reads the configuration space and the BARs of a device,
-- and registers the BARs. What it calls of the library is a parameter.
pub mod HeaderField
pub mod Field
pub mod Attached
pub mod Settled
pub mod Enumerate
pub mod Checked
pub mod Populated
pub mod Native
pub mod Suite
pub mod Thread
pub mod Scan
use warp_pipe.Base.{
  ℕ, suc, zero, ◌+◌, ◌-◌, ◌*◌, ◌/◌, ◌%◌, ◌^◌, bit_and, Bool, true, false, not, ◌||◌, Option, none,
  some, List, [], ◌∷◌, Mem, slice, poke, u32, u64, ltb, ◌==◌, if◌then◌else◌, ℤ, pos, negsuc, get_or,
}
use warp_pipe.Client.Handlers.{is_zero}

-- `struct read_compl_data`, with the memory from `buf` on.
pub record ReadComplData : Type 0 where
  pub buf : Mem
  pub buf_size : ℕ
  pub ret : ℤ
  pub finished : Bool

-- What a completion callback is given: the error code, the data and its length.
pub record Completed : Type 0 where
  pub error_code : ℤ
  pub payload : Mem
  pub length : ℕ

-- The library as `common.c` uses it, for its server and client: the requests, where false is a
-- negative result, a round of the server's loop with the completions that arrive in it, and whether
-- the server has quit.
pub record Link : Type 1 where
  pub World : Type 0
  pub warppipe_config0_read : ℕ → ℕ → World → Bool × World
  pub warppipe_config0_write : ℕ → List ℕ → World → Bool × World
  pub warppipe_read : ℕ → ℕ → ℕ → World → Bool × World
  pub warppipe_register_bar : ℕ → ℕ → ℕ → World → Bool × World
  pub warppipe_server_loop : World → List Completed × World
  pub quit : World → Bool

unfoldable pub read_compl : Completed → ReadComplData → ReadComplData
read_compl c d =
    let n = if ltb d.buf_size c.length then d.buf_size else c.length in
    if not (is_zero c.error_code)
    then record d { finished = true; ret = c.error_code }
    else record d { finished = true; ret = pos n; buf = poke d.buf 0 (slice c.payload 0 n) }

unfoldable pub complete_all : List Completed → ReadComplData → ReadComplData
unfolding read_compl
complete_all [] d = d
complete_all (c ∷ rest) d = complete_all rest (read_compl c d)

-- The bytes of a `uint32_t` and a `uint16_t` variable in memory, the low byte first.
abbrev pub load32 : Mem → ℕ
load32 m = m 0 + m 1 * 2 ^ 8 + m 2 * 2 ^ 16 + m 3 * 2 ^ 24

abbrev pub load16 : Mem → ℕ
load16 m = m 0 + m 1 * 2 ^ 8

abbrev pub bytes32 : ℕ → List ℕ
bytes32 v = v % 256 ∷ v / 2 ^ 8 % 256 ∷ v / 2 ^ 16 % 256 ∷ v / 2 ^ 24 % 256 ∷ []

-- `-(bar & ~0xF)`
abbrev pub probed_size : ℕ → ℕ
probed_size bar = u32 (2 ^ 32 - bit_and bar (2 ^ 32 - 16))

module _ (link : Link) where
  -- For `rounds` tests of the loop at most, and `none` if it has not ended by then; false is -1.
  unfoldable pub wait_for_completion :
      ℕ → ReadComplData → link.World → Option (Bool × ReadComplData × link.World)
  unfolding complete_all
  wait_for_completion zero d w = none
  wait_for_completion (suc rounds) d w =
      let (arrived, w') = link.warppipe_server_loop w in
      let rest = wait_for_completion rounds (complete_all arrived d) w' in
      if d.finished || link.quit w then some (not (link.quit w), d, w) else rest

  -- `buf` is the memory from the given pointer on, and `aligned_buf` what the variable of this name
  -- holds at first.
  unfoldable pub read_config_header_field :
      ℕ → Mem → ℕ → ℕ → Mem → link.World → Option (ℤ × Mem × link.World)
  unfolding wait_for_completion
  read_config_header_field rounds aligned_buf addr length buf w =
      let offset = bit_and addr 3 in
      if ltb 4 (u64 (length + offset))
      then some (negsuc 0, buf, w)
      else (let (sent, w₁) = link.warppipe_config0_read (addr - offset) 4 w in
          let waited =
            wait_for_completion rounds
              (record { buf = aligned_buf; buf_size = 4; ret = pos 0; finished = false }) w₁ in
          if not sent then some (negsuc 0, buf, w₁) else elim waited [
            | none ↦ none
            | some (going, d, w₂) ↦
                if going
                then some (d.ret, poke buf 0 (slice d.buf offset length), w₂)
                else some (negsuc 0, buf, w₂)
          ])

  unfoldable pub read_data : ℕ → ℕ → ℕ → ℕ → Mem → link.World → Option (ℤ × Mem × link.World)
  unfolding wait_for_completion
  read_data rounds bar addr length buf w =
      let (sent, w₁) = link.warppipe_read bar addr length w in
      let waited =
        wait_for_completion rounds
          (record { buf = buf; buf_size = length; ret = pos 0; finished = false }) w₁ in
      if not sent then some (negsuc 0, buf, w₁) else elim waited [
        | none ↦ none
        | some (going, d, w₂) ↦ some (if going then d.ret else negsuc 0, d.buf, w₂)
      ]

  -- One round of the loop on the BARs in `enumerate`, for its `bar_offset`; what it gives is the
  -- world after it, `continue` or not.
  unfoldable pub enumerate_bar : ℕ → Mem → ℕ → link.World → Option link.World
  enumerate_bar rounds junk bar_offset w =
      elim (read_config_header_field rounds junk bar_offset 4 junk w) [
        | none ↦ none
        | some (negsuc e, old_bar, w₁) ↦ some w₁
        | some (pos n, old_bar, w₁) ↦
            (let (asked, w₂) = link.warppipe_config0_write bar_offset (bytes32 0xffff_ffff) w₁ in
              if not asked
              then some w₂
              else elim (read_config_header_field rounds junk bar_offset 4
                  (poke junk 0 (bytes32 0xffff_ffff)) w₂) [
                    | none ↦ none
                    | some (negsuc e, bar, w₃) ↦ some w₃
                    | some (pos m, bar, w₃) ↦
                        if load32 bar == 0
                        then some w₃
                        else (let bar_idx = (bar_offset - 0x10) / 4 in
                            let bar_addr = u32 (bar_offset * 0x1_0000) in
                            let (registered, w₄) =
                              link.warppipe_register_bar bar_addr (probed_size (load32 bar)) bar_idx
                                w₃ in
                            if not registered
                            then some w₄
                            else some
                                (link.warppipe_config0_write bar_offset (bytes32 bar_addr) w₄).1)
                  ])
      ]

  -- The rounds of that loop, for `left` BARs from `bar_offset` on.
  unfoldable pub enumerate_bars : ℕ → Mem → ℕ → ℕ → link.World → Option link.World
  enumerate_bars rounds junk zero bar_offset w = some w
  enumerate_bars rounds junk (suc left) bar_offset w =
      elim (enumerate_bar rounds junk bar_offset w) [
        | none ↦ none
        | some w' ↦ enumerate_bars rounds junk left (bar_offset + 4) w'
      ]

  abbrev failed : ℤ → Bool
  failed (pos n) = false
  failed (negsuc n) = true

  -- `junk` is what the variables hold at first. False is -1.
  unfoldable pub enumerate : ℕ → Mem → link.World → Option (Bool × link.World)
  enumerate rounds junk w = elim (read_config_header_field rounds junk 0 2 junk w) [
    | none ↦ none
    | some (ret, vendor_id, w₁) ↦
        if failed ret || load16 vendor_id == 0xffff
        then some (false, w₁)
        else elim (read_config_header_field rounds junk 0xe 1 junk w₁) [
          | none ↦ none
          | some (ret', header_type, w₂) ↦
              if failed ret' || not (header_type 0 == 0)
              then some (false, w₂)
              else elim (enumerate_bars rounds junk 6 0x10 w₂) [
                | none ↦ none
                | some w₃ ↦ some (true, w₃)
              ]
        ]
  ]
