-- ===== src/Vm/Exec/Compare.antt =====
-- src/vmir_vm.c: vm_exec, the comparisons of words, and those with a branch or a selection.
use vmir.Common.{ℕ, Option, some, List, ◌==◌, if◌then◌else◌}
use vmir.Vm.{IcmpPred, Cell}
use vmir.Vm.Alu.{c_compare}
use vmir.Vm.Frame.{Frame}
use vmir.Vm.Exec.{
  Effect, ◌>>?◌, cell_arg, imm8, imm32, imm64, reg8, reg16, reg32, reg64, ar32, both, bit, branch,
}

unfoldable pub compare_words : (w : ℕ) → IcmpPred → Option ℕ → Option ℕ → Option ℕ
unfolding c_compare
compare_words w p x y = both x y (λ a c. some (bit (c_compare w p a c)))

unfoldable pub exec_cmp8 : IcmpPred → List Cell → Frame → Option Effect
unfolding compare_words reg8 ar32
exec_cmp8 p I m = ar32 I m 3 (compare_words 8 p (reg8 I m 1) (reg8 I m 2))

unfoldable pub exec_cmp8_c : IcmpPred → List Cell → Frame → Option Effect
unfolding compare_words reg8 imm8 ar32
exec_cmp8_c p I m = ar32 I m 3 (compare_words 8 p (reg8 I m 1) (imm8 I 2))

unfoldable pub exec_cmp16 : IcmpPred → List Cell → Frame → Option Effect
unfolding compare_words reg16 ar32
exec_cmp16 p I m = ar32 I m 3 (compare_words 16 p (reg16 I m 1) (reg16 I m 2))

unfoldable pub exec_cmp16_c : IcmpPred → List Cell → Frame → Option Effect
unfolding compare_words reg16 cell_arg ar32
exec_cmp16_c p I m = ar32 I m 3 (compare_words 16 p (reg16 I m 1) (cell_arg I 2))

unfoldable pub exec_cmp32 : IcmpPred → List Cell → Frame → Option Effect
unfolding compare_words reg32 ar32
exec_cmp32 p I m = ar32 I m 3 (compare_words 32 p (reg32 I m 1) (reg32 I m 2))

unfoldable pub exec_cmp32_c : IcmpPred → List Cell → Frame → Option Effect
unfolding compare_words reg32 imm32 ar32
exec_cmp32_c p I m = ar32 I m 4 (compare_words 32 p (reg32 I m 1) (imm32 I 2))

unfoldable pub exec_cmp64 : IcmpPred → List Cell → Frame → Option Effect
unfolding compare_words reg64 ar32
exec_cmp64 p I m = ar32 I m 3 (compare_words 64 p (reg64 I m 1) (reg64 I m 2))

unfoldable pub exec_cmp64_c : IcmpPred → List Cell → Frame → Option Effect
unfolding compare_words reg64 imm64 ar32
exec_cmp64_c p I m = ar32 I m 6 (compare_words 64 p (reg64 I m 1) (imm64 I 2))

unfoldable pub exec_cmp_br :
    IcmpPred → (w : ℕ) → Option ℕ → Option ℕ → List Cell → Frame → Option Effect
unfolding compare_words branch
exec_cmp_br p w x y I m = branch I m (compare_words w p x y) 0 1

-- `AR32(0, c ? R32(1) : R32(2)); NEXT(skip)`
unfoldable pub exec_cmp_sel : IcmpPred → Option ℕ → (skip : ℕ) → List Cell → Frame → Option Effect
unfolding compare_words reg32 ar32
exec_cmp_sel p y skip I m =
    ar32 I m skip (compare_words 32 p (reg32 I m 3) y >>? λ c. reg32 I m (if c == 0 then 2 else 1))
