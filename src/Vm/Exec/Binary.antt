-- ===== src/Vm/Exec/Binary.antt =====
-- src/vmir_vm.c: vm_exec, the operators on words.
use vmir.Common.{ℕ, ◌+◌, ◌-◌, ◌*◌, ◌%◌, ◌^◌, Option, none, some, List, leb, if◌then◌else◌}
use vmir.Vm.{Binop, mul, sdiv, srem, shl, ashr, Cell}
use vmir.Vm.Alu.{sext, c_binop, c_ashr}
use vmir.Vm.Frame.{Frame}
use vmir.Vm.Exec.{
  Effect, ◌>>?◌, cell_arg, imm8, imm32, imm64, reg8, reg16, reg32, reg64, ar32, ar64, both,
}

-- `/`, `%` and `>>` on a signed word of `w` bits, promoted to int.
unfoldable pub exec_signed : (w : ℕ) → Binop → ℕ → ℕ → Option ℕ
unfolding c_binop c_ashr
exec_signed w ashr x y = c_ashr 32 (sext w 32 x) y
exec_signed w o x y = c_binop 32 o (sext w 32 x) (sext w 32 y)

-- The operators on two words of 16 bits, promoted to int; an int that overflows is undefined.
unfoldable pub exec_u16 : Binop → ℕ → ℕ → Option ℕ
unfolding c_binop exec_signed
exec_u16 sdiv x y = exec_signed 16 sdiv x y
exec_u16 srem x y = exec_signed 16 srem x y
exec_u16 ashr x y = exec_signed 16 ashr x y
exec_u16 mul x y = if leb (2 ^ 31) (x * y) then none else c_binop 32 mul x y
exec_u16 shl x y =
    if leb 32 y then none else if leb (2 ^ 31) (x * 2 ^ y) then none else c_binop 32 shl x y
exec_u16 o x y = c_binop 32 o x y

unfoldable pub exec_r8 : Binop → List Cell → Frame → Option Effect
unfolding exec_signed reg8 ar32
exec_r8 o I m = ar32 I m 3 (both (reg8 I m 1) (reg8 I m 2) (exec_signed 8 o))

unfoldable pub exec_r8c : Binop → List Cell → Frame → Option Effect
unfolding exec_signed reg8 imm8 ar32
exec_r8c o I m = ar32 I m 3 (both (reg8 I m 1) (imm8 I 2) (exec_signed 8 o))

unfoldable pub exec_r16 : Binop → List Cell → Frame → Option Effect
unfolding exec_signed reg16 ar32
exec_r16 o I m = ar32 I m 3 (both (reg16 I m 1) (reg16 I m 2) (exec_signed 16 o))

unfoldable pub exec_r16c : Binop → List Cell → Frame → Option Effect
unfolding exec_u16 reg16 cell_arg ar32
exec_r16c o I m = ar32 I m 3 (both (reg16 I m 1) (cell_arg I 2) (exec_u16 o))

unfoldable pub exec_r32 : Binop → List Cell → Frame → Option Effect
unfolding c_binop reg32 ar32
exec_r32 o I m = ar32 I m 3 (both (reg32 I m 1) (reg32 I m 2) (c_binop 32 o))

unfoldable pub exec_r32c : Binop → List Cell → Frame → Option Effect
unfolding c_binop reg32 imm32 ar32
exec_r32c o I m = ar32 I m 4 (both (reg32 I m 1) (imm32 I 2) (c_binop 32 o))

unfoldable pub exec_r64 : Binop → List Cell → Frame → Option Effect
unfolding c_binop reg64 ar64
exec_r64 o I m = ar64 I m 3 (both (reg64 I m 1) (reg64 I m 2) (c_binop 64 o))

unfoldable pub exec_r64c : Binop → List Cell → Frame → Option Effect
unfolding c_binop reg64 imm64 ar64
exec_r64c o I m = ar64 I m 6 (both (reg64 I m 1) (imm64 I 2) (c_binop 64 o))

-- VM_INC_R32 and VM_DEC_R32
unfoldable pub exec_inc : List Cell → Frame → Option Effect
unfolding reg32 ar32
exec_inc I m = ar32 I m 2 (reg32 I m 1 >>? λ x. some ((x + 1) % 2 ^ 32))

unfoldable pub exec_dec : List Cell → Frame → Option Effect
unfolding reg32 ar32
exec_dec I m = ar32 I m 2 (reg32 I m 1 >>? λ x. some ((x + 2 ^ 32 - 1) % 2 ^ 32))
