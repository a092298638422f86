-- ===== src/Proto/Fields.antt =====
-- A bit-field of inc/warppipe/proto.h holds what was last written to it, cut to its width.
use warp_pipe.Base.{ℕ, ◌%◌, ◌^◌, ◌<◌, ◌≡◌, arith}
use warp_pipe.Proto.Layout.{bits, with_bits}

-- The fields that fill a byte, and those that share one.
pub byte_written : (v b : ℕ) → bits 0 8 (with_bits 0 8 v b) ≡ v % 256
unfolding bits with_bits
byte_written v b = omega arith

pub low_half_written : (v b : ℕ) → bits 0 4 (with_bits 0 4 v b) ≡ v % 16
unfolding bits with_bits
low_half_written v b = omega arith

pub high_half_written : (v b : ℕ) → bits 4 4 (with_bits 4 4 v b) ≡ v % 16
unfolding bits with_bits
high_half_written v b = omega arith

pub low_half_kept : (v b : ℕ) → bits 0 4 (with_bits 4 4 v b) ≡ bits 0 4 b
unfolding bits with_bits
low_half_kept v b = omega arith

pub high_half_kept : (v b : ℕ) → bits 4 4 (with_bits 0 4 v b) ≡ bits 4 4 b
unfolding bits with_bits
high_half_kept v b = omega arith

pub two_bits_written : (v b : ℕ) → bits 0 2 (with_bits 0 2 v b) ≡ v % 4
unfolding bits with_bits
two_bits_written v b = omega arith

pub type_written : (v b : ℕ) → bits 0 5 (with_bits 0 5 v b) ≡ v % 32
unfolding bits with_bits
type_written v b = omega arith

pub fmt_written : (v b : ℕ) → bits 5 3 (with_bits 5 3 v b) ≡ v % 8
unfolding bits with_bits
fmt_written v b = omega arith

pub type_kept : (v b : ℕ) → bits 0 5 (with_bits 5 3 v b) ≡ bits 0 5 b
unfolding bits with_bits
type_kept v b = omega arith

pub fmt_kept : (v b : ℕ) → bits 5 3 (with_bits 0 5 v b) ≡ bits 5 3 b
unfolding bits with_bits
fmt_kept v b = omega arith

pub ruleset fields = (
  byte_written, low_half_written, high_half_written, low_half_kept, high_half_kept,
  two_bits_written, type_written, fmt_written, type_kept, fmt_kept,
)

pub bits-lt : (lo width b : ℕ) → 0 < 2 ^ width → bits lo width b < 2 ^ width
unfolding bits
bits-lt lo width b h = omega arith
