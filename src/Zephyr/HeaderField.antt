-- ===== src/Zephyr/HeaderField.antt =====
-- `read_config_header_field` when the word that it asks for arrives.
use warp_pipe.Base.{
  ℕ, suc, zero, ◌+◌, ◌-◌, ◌*◌, ◌/◌, ◌%◌, ◌≤◌, ◌<◌, bit_and, ◌≡◌, refl, ap, ◌∙◌, arith, true, false,
  some, List, [], ◌∷◌, Mem, view, slice, slice_ext, poke, ltb, u64, pos,
}
use warp_pipe.Base.Bits.{bit_and-mask}
use warp_pipe.Base.Copy.{poke-slice, slice-view}
use warp_pipe.Zephyr.{
  ReadComplData, Completed, Link, read_compl, complete_all, wait_for_completion,
  read_config_header_field,
}

-- After `n` rounds of the server's loop without a completion, one round has a single one; the server
-- has not quit in between.
abbrev pub Arrives : (link : Link) → ℕ → link.World → Completed → link.World → Type 0
Arrives link zero w c w' =
    (link.quit w ≡ false) × (link.warppipe_server_loop w ≡ (c ∷ [], w')) × (link.quit w' ≡ false)
Arrives link (suc n) w c w' =
    (next : link.World) × (link.quit w ≡ false)
    × (link.warppipe_server_loop w ≡ ([], next))
    × Arrives link n next c w'

module _ (link : Link) where
  -- The structure with the completion of `length` bytes in it.
  abbrev pub filled : Mem → ℕ → ReadComplData → ReadComplData
  filled payload length d = record d {
    finished = true;
    ret = pos length;
    buf = poke d.buf 0 (slice payload 0 length);
  }

  goes_on :
      (n : ℕ) (d : ReadComplData) (w : link.World) (arrived : List Completed) (w' : link.World)
      → d.finished ≡ false
      → link.quit w ≡ false
      → link.warppipe_server_loop w ≡ (arrived, w')
      → wait_for_completion link (suc n) d w
        ≡ wait_for_completion link n (complete_all arrived d) w'
  unfolding wait_for_completion
  goes_on n d w arrived w' open_yet on e = rw (open_yet, on, e) refl

  ends :
      (n : ℕ) (d : ReadComplData) (w : link.World)
      → d.finished ≡ true
      → link.quit w ≡ false
      → wait_for_completion link (suc n) d w ≡ some (true, d, w)
  unfolding wait_for_completion
  ends n d w over on = rw (over, on) refl

  completes :
      (payload : Mem) (length : ℕ) (d : ReadComplData)
      → d.buf_size ≡ length
      → read_compl (record { error_code = pos 0; payload = payload; length = length }) d
        ≡ filled payload length d
  unfolding read_compl
  completes payload length d size =
      let exact : ltb length length ≡ false = ground arith in rw (size, exact) refl

  module _ (payload : Mem) (length : ℕ) (w' : link.World) where
    abbrev completion : Completed
    completion = record { error_code = pos 0; payload = payload; length = length }

    -- It waits until the completion has arrived, for any number of rounds that is large enough.
    pub waits :
        (n rounds : ℕ) (d : ReadComplData) (w : link.World)
        → n + 2 ≤ rounds
        → d.finished ≡ false
        → d.buf_size ≡ length
        → Arrives link n w completion w'
        → wait_for_completion link rounds d w ≡ some (true, filled payload length d, w')
    unfolding complete_all
    waits n zero d w enough open_yet size _ = absurd (omega arith)
    waits n (suc zero) d w enough open_yet size _ = absurd (omega arith)
    waits zero (suc (suc r)) d w enough open_yet size (on, e, on') =
        goes_on (suc r) d w (completion ∷ []) w' open_yet on e
        ∙ ap (λ (x : ReadComplData). wait_for_completion link (suc r) x w')
            (completes payload length d size)
        ∙ ends r (filled payload length d) w' refl on'
    waits (suc n) (suc (suc r)) d w enough open_yet size (next, on, e, later) =
        goes_on (suc r) d w [] next open_yet on e
        ∙ waits n (suc r) d next (omega arith) open_yet size later

  -- The bytes of a field, in the word that was read for it.
  pub field_bytes :
      (junk payload space : Mem) (addr length : ℕ)
      → length + addr % 4 ≤ 4
      → ((k : ℕ) → k < 4 → payload k ≡ space (addr / 4 * 4 + k))
      → slice (poke junk 0 (slice payload 0 4)) (addr % 4) length ≡ slice space addr length
  field_bytes junk payload space addr length fits same =
      slice_ext (poke junk 0 (slice payload 0 4)) (view (addr / 4 * 4) space) (addr % 4) length
        (λ k lo hi.
          poke-slice junk payload 0 4 k (omega arith) (omega arith) ∙ same k (omega arith))
      ∙ slice-view (addr / 4 * 4) space (addr % 4) length
      ∙ ap (λ (a : ℕ). slice space a length) (omega arith)

-- The word with the field was asked for, and has arrived.
pub field_answered :
    (link : Link) (junk payload space : Mem) (addr length : ℕ) (buf : Mem) (w w₁ w' : link.World)
    (n rounds : ℕ)
    → n + 2 ≤ rounds
    → length + addr % 4 ≤ 4
    → link.warppipe_config0_read (addr / 4 * 4) 4 w ≡ (true, w₁)
    → Arrives link n w₁ (record { error_code = pos 0; payload = payload; length = 4 }) w'
    → ((k : ℕ) → k < 4 → payload k ≡ space (addr / 4 * 4 + k))
    → read_config_header_field link rounds junk addr length buf w
      ≡ some (pos 4, poke buf 0 (slice space addr length), w')
unfolding read_config_header_field
field_answered link junk payload space addr length buf w w₁ w' n rounds enough fits asked arrives
      same =
    let offset : bit_and addr 3 ≡ addr % 4 = bit_and-mask 2 addr in
    let aligned : addr - addr % 4 ≡ addr / 4 * 4 = omega arith in
    let inside : ltb 4 (u64 (length + addr % 4)) ≡ false = ground (arith, fits) in
    let d : ReadComplData = record { buf = junk; buf_size = 4; ret = pos 0; finished = false } in
    rw (offset, inside, aligned, asked)
      (rw (waits link payload 4 w' n rounds d w₁ enough refl refl arrives) (
        rw offset (
          ap (λ (bytes : List ℕ). some (pos 4, poke buf 0 bytes, w'))
            (field_bytes link junk payload space addr length fits same))))
