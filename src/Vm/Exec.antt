-- ===== src/Vm/Exec.antt =====
-- src/vmir_vm.c: what the instructions of vm_exec have in common, which are their operands, their result
-- and where they go on.
pub mod Binary
pub mod Compare
pub mod Float
pub mod Casts
pub mod Search
pub mod Step
use vmir.Common.{
  ℕ, zero, suc, ◌+◌, ◌-◌, ◌*◌, ◌%◌, ◌^◌, Bool, true, false, Option, none, some, List, ◌==◌,
  if◌then◌else◌, get_elem?,
}
use Prim.Native.Nat.{bit_and}
use vmir.Vm.{Cell, half}
use vmir.Vm.Frame.{Frame, rd32, rd64, wr32, wr64}

-- What an instruction does, once past its opcode: NEXT(skip), a branch by a signed count of bytes, or
-- `return 0` with what it stored in `*ret`.
pub data Effect : Type 0 where
  next : (skip : ℕ) → Frame → Effect
  jump : (offset : ℕ) → Frame → Effect
  return_void : Effect
  return32 return64 : (bits : ℕ) → Effect

infixl 5 ◌>>?◌
abbrev pub ◌>>?◌ {ℓ κ} : {A : Type ℓ} {B : Type κ} → Option A → (A → Option B) → Option B
some a >>? f = f a
none >>? f = none

unfoldable pub number : Option Cell → Option ℕ
number (some (half n)) = some n
number c = none

-- I[k], UIMM8(k) and UIMM16(k), UIMM32(k), UIMM64(k). An opcode in their place is no number.
unfoldable pub cell_arg : List Cell → ℕ → Option ℕ
unfolding number
cell_arg I k = number (get_elem? I k)

unfoldable pub imm8 : List Cell → ℕ → Option ℕ
unfolding cell_arg
imm8 I k = cell_arg I k >>? λ v. some (v % 2 ^ 8)

unfoldable pub imm32 : List Cell → ℕ → Option ℕ
unfolding cell_arg
imm32 I k = cell_arg I k >>? λ v. cell_arg I (suc k) >>? λ w. some (v + w * 2 ^ 16)

unfoldable pub imm64 : List Cell → ℕ → Option ℕ
unfolding imm32
imm64 I k = imm32 I k >>? λ v. imm32 I (suc (suc k)) >>? λ w. some (v + w * 2 ^ 32)

-- R8(k), R16(k), R32(k), R64(k)
unfoldable pub reg8 : List Cell → Frame → ℕ → Option ℕ
unfolding cell_arg rd32
reg8 I m k = cell_arg I k >>? λ r. some (rd32 m r % 2 ^ 8)

unfoldable pub reg16 : List Cell → Frame → ℕ → Option ℕ
unfolding cell_arg rd32
reg16 I m k = cell_arg I k >>? λ r. some (rd32 m r % 2 ^ 16)

unfoldable pub reg32 : List Cell → Frame → ℕ → Option ℕ
unfolding cell_arg rd32
reg32 I m k = cell_arg I k >>? λ r. some (rd32 m r)

unfoldable pub reg64 : List Cell → Frame → ℕ → Option ℕ
unfolding cell_arg rd64
reg64 I m k = cell_arg I k >>? λ r. some (rd64 m r)

-- AR32(0, v); NEXT(skip) and AR64(0, v); NEXT(skip)
unfoldable pub ar32 : List Cell → Frame → (skip : ℕ) → Option ℕ → Option Effect
unfolding cell_arg wr32
ar32 I m skip v = v >>? λ x. cell_arg I 0 >>? λ r. some (next skip (wr32 m r x))

unfoldable pub ar64 : List Cell → Frame → (skip : ℕ) → Option ℕ → Option Effect
unfolding cell_arg wr64
ar64 I m skip v = v >>? λ x. cell_arg I 0 >>? λ r. some (next skip (wr64 m r x))

abbrev pub both {ℓ} : {A : Type ℓ} → Option ℕ → Option ℕ → (ℕ → ℕ → Option A) → Option A
both a c f = a >>? λ x. c >>? λ y. f x y

-- An int that is 1 or 0.
abbrev pub bit : Bool → ℕ
bit c = if c then 1 else 0

-- `I = (void *)I + (int16_t)(c ? I[taken] : I[other])`
unfoldable pub branch : List Cell → Frame → Option ℕ → (taken other : ℕ) → Option Effect
unfolding cell_arg
branch I m c taken other =
    c >>? λ x. cell_arg I (if x == 0 then other else taken) >>? λ off. some (jump off m)

-- The SELECT instructions: R32(1) picks one of two values.
unfoldable pub select_word : List Cell → Frame → Option ℕ → Option ℕ → Option ℕ
unfolding reg32
select_word I m x y = reg32 I m 1 >>? λ c. both x y (λ a d. some (if c == 0 then d else a))

-- VM_RET_R32 and VM_RET_R64, VM_BCOND and VM_JUMPTABLE.
unfoldable pub exec_ret_r32 : List Cell → Frame → Option Effect
unfolding reg32
exec_ret_r32 I m = reg32 I m 0 >>? λ v. some (return32 v)

unfoldable pub exec_ret_r64 : List Cell → Frame → Option Effect
unfolding reg64
exec_ret_r64 I m = reg64 I m 0 >>? λ v. some (return64 v)

unfoldable pub exec_bcond : List Cell → Frame → Option Effect
unfolding reg32 branch
exec_bcond I m = branch I m (reg32 I m 0) 1 2

unfoldable pub exec_jumptable : List Cell → Frame → Option Effect
unfolding reg8 cell_arg
exec_jumptable I m = reg8 I m 0 >>? λ v. cell_arg I 1 >>? λ size.
    cell_arg I (2 + (if size == 0 then v else bit_and v (size - 1))) >>? λ off. some (jump off m)
