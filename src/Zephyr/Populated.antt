-- ===== src/Zephyr/Populated.antt =====
-- The memory behind the BARs of an attached memory mock: how it answers the reads and writes of a host
-- to BARs that are mapped.
use warp_pipe.Base.{
  ℕ, ◌+◌, ◌%◌, ◌≤◌, ◌<◌, ◌≡◌, ◌≢◌, refl, sym, ap, ◌∙◌, inl, inr, ◌==◌, ==_iff, Bool-cases,
  if◌then◌else◌, negsuc, arith, true, false, Bool, some, List, Mem, slice, poke, length, update,
  pos, none, ◌^◌, slice-poke, update_at,
}
use mathlib.Core.Path.{subst}
use warp_pipe.MemoryMock.Transfers.{read_bar_lem, held_after_write}
use warp_pipe.MemoryMock.{BarConfig, copied, read_bar, write_bar}
use warp_pipe.Zephyr.{Link, ReadComplData, read_data}
use warp_pipe.Zephyr.HeaderField.{Arrives, waits}
use warp_pipe.Zephyr.Attached.{View, Attached, view, bar_address}
use warp_pipe.Zephyr.Enumerate.Mapped.{IsMapped}

-- Every BAR up to `i` is there and mapped: an unused BAR would be found for the addresses of a
-- later one.
abbrev pub IsReachable : View → ℕ → Type 0
IsReachable v i = (i < 6) × ((j : ℕ) → j ≤ i → IsMapped v j × ((v.bars_config j).size ≢ 0))

-- Such a BAR has less than 2 ^ 31 bytes and a callback for reads; and one for writes.
abbrev pub IsReadable : View → ℕ → Type 0
IsReadable v i =
    IsReachable v i × ((v.bars_config i).size < 2 ^ 31) × ((v.bars_config i).read_cb ≢ none)

abbrev pub IsWritable : View → ℕ → Type 0
IsWritable v i = IsReadable v i × ((v.bars_config i).write_cb ≢ none)

-- Where a BAR has the callback, the device answers a read that lies within it and has at most 1023
-- words, with what `read_bar` gives, and does such a write with `write_bar`. A request for a BAR that
-- the host has not registered is refused at once.
pub record Populated {link : Link} (d : Attached link)
    (warppipe_write : ℕ → ℕ → List ℕ → link.World → Bool × link.World) : Type 0 where
  pub bar_reads :
      (i addr size : ℕ) (w : link.World)
      → d.Ready w
      → IsReadable (view d w) i
      → 0 < size
      → addr % 4 + size ≤ 4092
      → addr + size ≤ ((view d w).bars_config i).size
      → (w₁ : link.World) × (n : ℕ) × (payload : Mem) × (w' : link.World) × (link.warppipe_read i
            addr size w
          ≡ (true, w₁))
        × Arrives link n w₁ (record { error_code = pos 0; payload = payload; length = size }) w'
        × (n ≤ d.delay)
        × d.Ready w'
        × (view d w' ≡ view d w)
        × (read_bar ((view d w).bars_config i) addr (pos size) ≡ copied (slice payload 0 size))
  pub bar_refuses :
      (i addr size : ℕ) (w : link.World)
      → i < 6
      → (view d w).host_bar i ≡ 0
      → link.warppipe_read i addr size w ≡ (false, w)
  pub bar_writes :
      (i addr : ℕ) (bytes : List ℕ) (w : link.World)
      → d.Ready w
      → IsWritable (view d w) i
      → 0 < length bytes
      → addr % 4 + length bytes ≤ 4092
      → addr + length bytes ≤ ((view d w).bars_config i).size
      → (w' : link.World) × (bar : BarConfig) × (warppipe_write i addr bytes w ≡ (true, w'))
        × d.Ready w'
        × (write_bar ((view d w).bars_config i) addr (poke (λ _. 0) 0 bytes) (pos (length bytes))
            ≡ some bar)
        × (view d w' ≡ record (view d w) { bars_config = update (view d w).bars_config i bar })

data_answered :
    (link : Link) (payload buf : Mem) (i addr size : ℕ) (w w₁ w' : link.World) (n rounds : ℕ)
    → n + 2 ≤ rounds
    → link.warppipe_read i addr size w ≡ (true, w₁)
    → Arrives link n w₁ (record { error_code = pos 0; payload = payload; length = size }) w'
    → read_data link rounds i addr size buf w
      ≡ some (pos size, poke buf 0 (slice payload 0 size), w')
unfolding read_data
data_answered link payload buf i addr size w w₁ w' n rounds enough asked arrives =
    let d : ReadComplData = record { buf = buf; buf_size = size; ret = pos 0; finished = false } in
    rw asked (rw (waits link payload size w' n rounds d w₁ enough refl refl arrives) refl)

abbrev pub replaced : View → ℕ → BarConfig → View
replaced v i bar = record v { bars_config = update v.bars_config i bar }

-- The BAR with other bytes in its memory.
abbrev pub rewritten : View → ℕ → ℕ → List ℕ → BarConfig
rewritten v i addr bytes = record (v.bars_config i) {
  memory = poke (v.bars_config i).memory addr bytes;
}

module _ (v : View) (i addr : ℕ) (bytes : List ℕ) (j : ℕ) where
  abbrev new : BarConfig
  new = (replaced v i (rewritten v i addr bytes)).bars_config j

  -- All but the memory is as it was.
  same_but_memory : (m : Mem) × (new ≡ record (v.bars_config j) { memory = m })
  same_but_memory = elim (Bool-cases (j == i)) [
    | inl e ↦
        (let same : i ≡ j = sym ((==_iff j i).0 e) in
          (
            poke (v.bars_config i).memory addr bytes,
            rw e (
                ap
                  (λ (x : ℕ). record (v.bars_config x) {
                    memory = poke (v.bars_config i).memory addr bytes;
                  })
                  same),
          ))
    | inr e ↦ ((v.bars_config j).memory, rw e refl)
  ]

  size_kept : new.size ≡ (v.bars_config j).size
  size_kept = ap (λ (b : BarConfig). b.size) same_but_memory.1

  rewritten-IsMapped : IsMapped v j → IsMapped (replaced v i (rewritten v i addr bytes)) j
  rewritten-IsMapped h = (
    h.0 ∙ ap (λ (s : ℕ). if s == 0 then 0 else bar_address j) (sym size_kept),
    h.1,
    h.2 ∙ sym size_kept,
    h.3 ∙ sym size_kept,
    h.4 ∙ ap (λ (b : BarConfig). v.host_bar j + b.config) (sym same_but_memory.1),
  )

  rewritten-ne-zero : (v.bars_config j).size ≢ 0 → new.size ≢ 0
  rewritten-ne-zero h e = h (sym size_kept ∙ e)

rewritten-IsReadable :
    (v : View) (i addr : ℕ) (bytes : List ℕ) (j : ℕ)
    → IsReadable v j
    → IsReadable (replaced v i (rewritten v i addr bytes)) j
rewritten-IsReadable v i addr bytes j (reachable, small, readable) =
    let kept = (same_but_memory v i addr bytes j).1 in
    (
      (
        reachable.0,
        (λ h le. (
          rewritten-IsMapped v i addr bytes h (reachable.1 h le).0,
          rewritten-ne-zero v i addr bytes h (reachable.1 h le).1,
        )),
      ),
      subst (λ (s : ℕ). s < 2 ^ 31) (sym (size_kept v i addr bytes j)) small,
      (λ e. readable (sym (ap (λ (b : BarConfig). b.read_cb) kept) ∙ e)),
    )

rewritten-IsWritable :
    (v : View) (i addr : ℕ) (bytes : List ℕ) (j : ℕ)
    → IsWritable v j
    → IsWritable (replaced v i (rewritten v i addr bytes)) j
rewritten-IsWritable v i addr bytes j (readable, writable) =
    let kept = (same_but_memory v i addr bytes j).1 in
    (
      rewritten-IsReadable v i addr bytes j readable,
      (λ e. writable (sym (ap (λ (b : BarConfig). b.write_cb) kept) ∙ e)),
    )

module _ (link : Link) (d : Attached link)
    (warppipe_write : ℕ → ℕ → List ℕ → link.World → Bool × link.World)
    (p : Populated d warppipe_write) (rounds : ℕ) (enough : d.delay + 2 ≤ rounds) where
  -- A read that lies within a BAR gives what its memory holds there.
  pub read_mapped :
      (i addr size : ℕ) (buf : Mem) (w : link.World)
      → d.Ready w
      → IsReadable (view d w) i
      → 0 < size
      → addr % 4 + size ≤ 4092
      → addr + size ≤ ((view d w).bars_config i).size
      → (w' : link.World) × (read_data link rounds i addr size buf w
          ≡ some (pos size, poke buf 0 (slice ((view d w).bars_config i).memory addr size), w'))
        × d.Ready w'
        × (view d w' ≡ view d w)
  read_mapped i addr size buf w ready readable some_bytes one_packet fits =
      let (w₁, n, payload, w', asked, arrives, soon, ready', kept, held) =
        p.bar_reads i addr size w ready readable some_bytes one_packet fits in
      let bytes =
        read_bar_lem ((view d w).bars_config i) addr size (slice payload 0 size) fits held in
      (
        w',
        data_answered link payload buf i addr size w w₁ w' n rounds (omega arith) asked arrives
            ∙ ap (λ (l : List ℕ). some (pos size, poke buf 0 l, w')) bytes,
        ready',
        kept,
      )

  pub read_refused :
      (i addr size : ℕ) (buf : Mem) (w : link.World)
      → i < 6
      → (view d w).host_bar i ≡ 0
      → read_data link rounds i addr size buf w ≡ some (negsuc 0, buf, w)
  unfolding read_data
  read_refused i addr size buf w in_range unmapped =
      rw (p.bar_refuses i addr size w in_range unmapped) refl

  -- What a write that lies within a BAR leaves.
  pub write_mapped :
      (i addr : ℕ) (bytes : List ℕ) (w : link.World)
      → d.Ready w
      → IsWritable (view d w) i
      → 0 < length bytes
      → addr % 4 + length bytes ≤ 4092
      → addr + length bytes ≤ ((view d w).bars_config i).size
      → (w' : link.World) × (warppipe_write i addr bytes w ≡ (true, w'))
        × d.Ready w'
        × (view d w' ≡ replaced (view d w) i (rewritten (view d w) i addr bytes))
        × ((j : ℕ) → IsReadable (view d w) j → IsReadable (view d w') j)
        × ((j : ℕ) → IsWritable (view d w) j → IsWritable (view d w') j)
  write_mapped i addr bytes w ready writable some_bytes one_packet fits =
      let (w', bar, asked, ready', stored, left) =
        p.bar_writes i addr bytes w ready writable some_bytes one_packet fits in
      let same = held_after_write ((view d w).bars_config i) bar addr bytes fits stored in
      let v = left ∙ ap (replaced (view d w) i) same in
      (
        w',
        asked,
        ready',
        v,
        (λ j h.
            subst (λ (x : View). IsReadable x j) (sym v)
              (rewritten-IsReadable (view d w) i addr bytes j h)),
        (λ j h.
            subst (λ (x : View). IsWritable x j) (sym v)
              (rewritten-IsWritable (view d w) i addr bytes j h)),
      )

  -- The BAR that was written, and what it holds.
  pub found_there :
      (i addr : ℕ) (bytes : List ℕ) (w w' : link.World)
      → view d w' ≡ replaced (view d w) i (rewritten (view d w) i addr bytes)
      → (((view d w').bars_config i).size ≡ ((view d w).bars_config i).size)
        × (slice ((view d w').bars_config i).memory addr (length bytes) ≡ bytes)
  found_there i addr bytes w w' v =
      let bar = rewritten (view d w) i addr bytes in
      let same : (view d w').bars_config i ≡ bar =
        ap (λ (x : View). x.bars_config i) v ∙ update_at (view d w).bars_config i bar in
      (
        ap (λ (b : BarConfig). b.size) same,
        ap (λ (b : BarConfig). slice b.memory addr (length bytes)) same
            ∙ slice-poke ((view d w).bars_config i).memory addr bytes,
      )
