-- ===== src/Vm/Exec/Float.antt =====
-- src/vmir_vm.c: vm_exec, the instructions on floats and doubles. What C does with them is a parameter.
use vmir.Common.{ℕ, Bool, not, ◌&&◌, ◌||◌, Option, some, List}
use vmir.Vm.{
  FcmpPred, oeq, ogt, oge, olt, ole, fone, ord, uno, ueq, fugt, fuge, fult, fule, une, Farith,
  CastOp, Cell,
}
use vmir.Vm.Frame.{Frame}
use vmir.Vm.Exec.{Effect, imm32, imm64, reg32, reg64, ar32, ar64, both, bit}

-- The width of a floating point number.
pub data Precision : Type 0 where
  flt dbl : Precision

-- The operators of C on floats and doubles, on their bit patterns: `+`, `-`, `*` and `/`,
-- `__builtin_isnan`, `==`, `<`, `<=` and the conversions that each cast makes.
pub record Fpu : Type 0 where
  pub arith : Precision → Farith → ℕ → ℕ → ℕ
  pub isnan : Precision → ℕ → Bool
  pub equal : Precision → ℕ → ℕ → Bool
  pub less : Precision → ℕ → ℕ → Bool
  pub less_equal : Precision → ℕ → ℕ → Bool
  pub convert : CastOp → ℕ → ℕ

module _ (F : Fpu) where
  unfoldable pub exec_arith_dbl : Farith → List Cell → Frame → Option Effect
  unfolding reg64 ar64
  exec_arith_dbl o I m =
      ar64 I m 3 (both (reg64 I m 1) (reg64 I m 2) (λ x y. some (F.arith dbl o x y)))

  unfoldable pub exec_arith_dblc : Farith → List Cell → Frame → Option Effect
  unfolding reg64 imm64 ar64
  exec_arith_dblc o I m =
      ar64 I m 6 (both (reg64 I m 1) (imm64 I 2) (λ x y. some (F.arith dbl o x y)))

  unfoldable pub exec_arith_flt : Farith → List Cell → Frame → Option Effect
  unfolding reg32 ar32
  exec_arith_flt o I m =
      ar32 I m 3 (both (reg32 I m 1) (reg32 I m 2) (λ x y. some (F.arith flt o x y)))

  unfoldable pub exec_arith_fltc : Farith → List Cell → Frame → Option Effect
  unfolding reg32 imm32 ar32
  exec_arith_fltc o I m =
      ar32 I m 4 (both (reg32 I m 1) (imm32 I 2) (λ x y. some (F.arith flt o x y)))

  -- The comparison of two registers. The tests of `uno` and `fuge` are those of the source.
  unfoldable pub compare_floats : Precision → FcmpPred → ℕ → ℕ → Bool
  compare_floats d oeq x y = F.equal d x y
  compare_floats d ogt x y = F.less d y x
  compare_floats d oge x y = F.less_equal d y x
  compare_floats d olt x y = F.less d x y
  compare_floats d ole x y = F.less_equal d x y
  compare_floats d fone x y = not (F.isnan d x) && (not (F.isnan d y) && not (F.equal d x y))
  compare_floats d ord x y = not (F.isnan d x) && not (F.isnan d y)
  compare_floats d uno x y = F.isnan d x || F.isnan d x
  compare_floats d ueq x y = F.isnan d x || (F.isnan d y || F.equal d x y)
  compare_floats d fugt x y = F.isnan d x || (F.isnan d y || F.less d y x)
  compare_floats d fuge x y = F.isnan d x || (F.isnan d y || F.less_equal d x y)
  compare_floats d fult x y = F.isnan d x || (F.isnan d y || F.less d x y)
  compare_floats d fule x y = F.isnan d x || (F.isnan d y || F.less_equal d x y)
  compare_floats d une x y = not (F.equal d x y)

  -- The comparison of a register with a number in the text.
  unfoldable pub compare_float_const : Precision → FcmpPred → ℕ → ℕ → Bool
  compare_float_const d oeq x y = F.equal d x y
  compare_float_const d ogt x y = F.less d y x
  compare_float_const d oge x y = F.less_equal d y x
  compare_float_const d olt x y = F.less d x y
  compare_float_const d ole x y = F.less_equal d x y
  compare_float_const d fone x y = not (F.isnan d x) && not (F.equal d x y)
  compare_float_const d ord x y = not (F.isnan d x)
  compare_float_const d uno x y = F.isnan d x
  compare_float_const d ueq x y = F.isnan d x || F.equal d x y
  compare_float_const d fugt x y = F.isnan d x || F.less d y x
  compare_float_const d fuge x y = F.isnan d x || F.less_equal d x y
  compare_float_const d fult x y = F.isnan d x || F.less d x y
  compare_float_const d fule x y = F.isnan d x || F.less_equal d x y
  compare_float_const d une x y = not (F.equal d x y)

  unfoldable pub exec_cmp_dbl : FcmpPred → List Cell → Frame → Option Effect
  unfolding compare_floats reg64 ar32
  exec_cmp_dbl p I m =
      ar32 I m 3 (both (reg64 I m 1) (reg64 I m 2) (λ x y. some (bit (compare_floats dbl p x y))))

  unfoldable pub exec_cmp_dbl_c : FcmpPred → List Cell → Frame → Option Effect
  unfolding compare_float_const reg64 imm64 ar32
  exec_cmp_dbl_c p I m =
      ar32 I m 6
        (both (reg64 I m 1) (imm64 I 2) (λ x y. some (bit (compare_float_const dbl p x y))))

  unfoldable pub exec_cmp_flt : FcmpPred → List Cell → Frame → Option Effect
  unfolding compare_floats reg32 ar32
  exec_cmp_flt p I m =
      ar32 I m 3 (both (reg32 I m 1) (reg32 I m 2) (λ x y. some (bit (compare_floats flt p x y))))

  unfoldable pub exec_cmp_flt_c : FcmpPred → List Cell → Frame → Option Effect
  unfolding compare_float_const reg32 imm32 ar32
  exec_cmp_flt_c p I m =
      ar32 I m 4
        (both (reg32 I m 1) (imm32 I 2) (λ x y. some (bit (compare_float_const flt p x y))))
