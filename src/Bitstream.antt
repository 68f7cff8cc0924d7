-- ===== src/Bitstream.antt =====
-- src/vmir_bitstream.c: the bit reader under the bitcode parser, and the readers of the
-- arguments that a record carries. `rdata` is the list of the mapped bytes.
pub mod Field
pub mod Read
pub mod Vbr
pub mod Total
use vmir.Common.{
  ℕ, zero, suc, ◌+◌, ◌-◌, ◌*◌, ◌/◌, ◌%◌, ◌^◌, List, min, ltb, leb, ◌==◌, if◌then◌else◌, get_or,
}
use Prim.Native.Nat.{bit_and, bit_or}

-- `remain` counts the bits of `tmp` that are not yet read.
pub record Bitstream : Type 0 where
  pub rdata : List ℕ
  pub bytes_length : ℕ
  pub bytes_offset : ℕ
  pub remain : ℕ
  pub tmp : ℕ

-- The part of the loop body that takes the next byte when none is left of the last.
pub refill : Bitstream → Bitstream
refill bs =
    if bs.remain == 0
    then record bs {
      tmp = get_or bs.rdata bs.bytes_offset 0;
      bytes_offset = suc bs.bytes_offset;
      remain = 8;
    }
    else bs

-- The part that moves `pick` bits out of `tmp`.
pub consume : ℕ → Bitstream → Bitstream
consume pick bs = record bs { tmp = bs.tmp / 2 ^ pick; remain = bs.remain - pick }

-- The bits that the round adds to the result, `(tmp & ((1 << pick) - 1)) << off` in 32 bits.
pub picked : ℕ → ℕ → Bitstream → ℕ
picked pick off bs = bit_and bs.tmp (2 ^ pick - 1) * 2 ^ off % 2 ^ 32

-- `while(num > 0)`. A round takes one bit at least, so `num` rounds are enough.
pub read_bits_loop : (fuel num r off : ℕ) → Bitstream → ℕ × Bitstream
read_bits_loop zero num r off bs = (r, bs)
read_bits_loop (suc fuel) num r off bs =
    let bs1 = refill bs in
    let pick = min num bs1.remain in
    let rest =
      read_bits_loop fuel (num - pick) (bit_or r (picked pick off bs1)) (off + pick)
        (consume pick bs1) in
    if num == 0 then (r, bs) else if leb bs.bytes_length bs.bytes_offset then (0, bs) else rest

unfoldable pub read_bits : Bitstream → ℕ → ℕ × Bitstream
unfolding read_bits_loop refill consume picked
read_bits bs num = read_bits_loop num num 0 0 bs

-- `(bytes_offset + 3) & ~3` clears the low two bits.
unfoldable pub align_bits32 : Bitstream → Bitstream
align_bits32 bs = record bs { bytes_offset = (bs.bytes_offset + 3) / 4 * 4; remain = 0 }

-- What a variable-width read comes to: a value, a failed `assert`, or too little fuel.
pub data VbrResult : Type 0 where
  value_read : ℕ → Bitstream → VbrResult
  assert_failed : VbrResult
  out_of_fuel : VbrResult

-- `while(1)` of read_vbr (`limit` 32) and of read_vbr64 (`limit` 64), which differ in the width
-- of `ret` and in the bound that is asserted. `ret` is a word of `limit` bits.
pub read_vbr_loop : (limit fuel width ret stride : ℕ) → Bitstream → VbrResult
read_vbr_loop limit zero width ret stride bs = out_of_fuel
read_vbr_loop limit (suc fuel) width ret stride bs =
    let cont = 2 ^ (width - 1) in
    let x = (read_bits bs width).0 in
    let bs1 = (read_bits bs width).1 in
    let ret1 = bit_or ret (bit_and x (cont - 1) * 2 ^ stride % 2 ^ limit) in
    let stride1 = stride + (width - 1) in
    let rest = read_vbr_loop limit fuel width ret1 stride1 bs1 in
    if bit_and cont x == 0
    then value_read ret1 bs1
    else if ltb stride1 limit
    then rest
    else assert_failed

-- Every round but the last takes `width` bits, so no more rounds are made than there are bits.
abbrev vbr_fuel : Bitstream → ℕ
vbr_fuel bs = suc (8 * bs.bytes_length)

unfoldable pub read_vbr : Bitstream → ℕ → VbrResult
unfolding read_vbr_loop
read_vbr bs width =
    if width == 0 then assert_failed else read_vbr_loop 32 (vbr_fuel bs) width 0 0 bs

unfoldable pub read_vbr64 : Bitstream → ℕ → VbrResult
unfolding read_vbr_loop
read_vbr64 bs width =
    if width == 0 then assert_failed else read_vbr_loop 64 (vbr_fuel bs) width 0 0 bs
