-- ===== src/Vm/Frame.antt =====
-- The registers of a frame, as the macros R8 to S64 and AR32, AR64 of src/vmir_vm.c address them.
pub mod ReadWrite
use vmir.Common.{
  ℕ, ◌+◌, ◌*◌, ◌/◌, ◌%◌, ◌^◌, ◌<◌, ◌≡◌, ◌≢◌, refl, Bool, true, false, ◌==◌, if◌then◌else◌, arith,
}

-- The bytes of the register file. The place `0` is 2 ^ 15 bytes below `rf`.
abbrev pub Frame : Type 0
Frame = ℕ → ℕ

-- `rf + (int16_t)reg`
abbrev pub reg_addr : ℕ → ℕ
reg_addr reg = (reg + 2 ^ 15) % 2 ^ 16

abbrev put_byte : Frame → ℕ → ℕ → Frame
put_byte m at v a = if a == at then v % 2 ^ 8 else m a

unfoldable pub peek32 : Frame → ℕ → ℕ
peek32 m a =
    m a % 2 ^ 8
    + m (a + 1) % 2 ^ 8 * 2 ^ 8
    + m (a + 2) % 2 ^ 8 * 2 ^ 16
    + m (a + 3) % 2 ^ 8 * 2 ^ 24

unfoldable pub poke32 : Frame → ℕ → ℕ → Frame
poke32 m a v =
    put_byte (put_byte (put_byte (put_byte m a v) (a + 1) (v / 2 ^ 8)) (a + 2) (v / 2 ^ 16)) (a + 3)
      (v / 2 ^ 24)

-- R32(r) and R64(r), of the register that stands at I[r].
unfoldable pub rd32 : Frame → ℕ → ℕ
unfolding peek32
rd32 m reg = peek32 m (reg_addr reg)

unfoldable pub rd64 : Frame → ℕ → ℕ
unfolding peek32
rd64 m reg = peek32 m (reg_addr reg) + peek32 m (reg_addr reg + 4) * 2 ^ 32

-- R32(r) = v and R64(r) = v
unfoldable pub wr32 : Frame → ℕ → ℕ → Frame
unfolding poke32
wr32 m reg v = poke32 m (reg_addr reg) v

unfoldable pub wr64 : Frame → ℕ → ℕ → Frame
unfolding poke32
wr64 m reg v = poke32 (poke32 m (reg_addr reg) v) (reg_addr reg + 4) (v / 2 ^ 32)
