-- ===== src/Zephyr/Field.antt =====
-- `read_config_header_field` of zephyr-samples/common/common.c with the memory mock at the other end.
use warp_pipe.Base.{ℕ, ◌+◌, ◌%◌, ◌*◌, ◌/◌, ◌≤◌, ◌<◌, ◌≡◌, arith, some, Mem, slice, poke, pos}
use warp_pipe.Zephyr.{Link, read_config_header_field}
use warp_pipe.Zephyr.HeaderField.{field_answered}
use warp_pipe.Zephyr.Attached.{Attached, view}

-- A field of the configuration space of a memory mock that is attached. For a field that starts in
-- the 64 bytes of the space and lies within a word, `read_config_header_field` returns 4, if its wait
-- may take two rounds more than the delay of the device; it has put just the bytes of the field at
-- `buf`, and left the configuration space and the BARs of both sides as they were.
pub header_field_read :
    (link : Link) (d : Attached link) (junk : Mem) (addr length : ℕ) (buf : Mem) (rounds : ℕ)
    (w : link.World)
    → d.delay + 2 ≤ rounds
    → length + addr % 4 ≤ 4
    → addr < 64
    → d.Ready w
    → (w' : link.World) × d.Ready w'
      × (view d w' ≡ view d w)
      × (read_config_header_field link rounds junk addr length buf w
          ≡ some (pos 4, poke buf 0 (slice (d.mock w).configuration_space addr length), w'))
header_field_read link d junk addr length buf rounds w enough fits inside ready =
    let (w₁, n, payload, w', asked, arrives, soon, ready', kept, same) =
      d.reads (addr / 4 * 4) w ready (omega arith) (omega arith) in
    (
      w',
      ready',
      kept,
      field_answered link junk payload (d.mock w).configuration_space addr length buf w w₁ w' n
          rounds (omega arith) fits asked arrives same,
    )
