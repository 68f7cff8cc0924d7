-- ===== src/Vm/Emit/Words.antt =====
-- The integers of 8 to 64 bits that the emitters of src/vmir_vm.c tell apart, in the registers.
use vmir.Common.{ℕ, ◌%◌, ◌^◌, ◌<◌, ◌≡◌, arith}
use vmir.Types.{TypeCode, c_int8, c_int16, c_int32, c_int64}
use vmir.Vm.Frame.{Frame, reg_addr, rd32, rd64, wr32, wr64}
use vmir.Vm.Frame.ReadWrite.{SameBut, rd32-wr32, rd64-wr64, wr32-SameBut, wr64-SameBut}
use vmir.Vm.Alu.Truncate.{Narrow, n8, n16, n32, bits}

pub data Width : Type 0 where
  narrow : Narrow → Width
  wide : Width

abbrev pub width_bits : Width → ℕ
width_bits (narrow n) = bits n
width_bits wide = 64

abbrev pub width_code : Width → TypeCode
width_code (narrow n8) = c_int8
width_code (narrow n16) = c_int16
width_code (narrow n32) = c_int32
width_code wide = c_int64

-- The bytes of its register.
abbrev pub width_bytes : Width → ℕ
width_bytes (narrow n) = 4
width_bytes wide = 8

-- The integer in a register: the low bits of the word there.
abbrev pub read : Width → Frame → ℕ → ℕ
read (narrow n) m reg = rd32 m reg % 2 ^ bits n
read wide m reg = rd64 m reg

-- On a result that the machine stores in the register, its low bits are what is read there.
abbrev pub Computes : (w : Width) → Frame → (ret v : ℕ) → Frame → Type 0
Computes w m ret v m' = (read w m' ret ≡ v) × SameBut (reg_addr ret) (width_bytes w) m m'

pub Computes-wr32 :
    (n : Narrow) (m : Frame) (ret x v : ℕ)
    → x % 2 ^ bits n ≡ v
    → Computes (narrow n) m ret v (wr32 m ret x)
Computes-wr32 n8 m ret x v e = (omega (arith, rd32-wr32 m ret x, e), wr32-SameBut m ret x)
Computes-wr32 n16 m ret x v e = (omega (arith, rd32-wr32 m ret x, e), wr32-SameBut m ret x)
Computes-wr32 n32 m ret x v e = (omega (arith, rd32-wr32 m ret x, e), wr32-SameBut m ret x)

pub Computes-wr64 : (m : Frame) (ret v : ℕ) → v < 2 ^ 64 → Computes wide m ret v (wr64 m ret v)
Computes-wr64 m ret v h = (omega (arith, rd64-wr64 m ret v), wr64-SameBut m ret v)
