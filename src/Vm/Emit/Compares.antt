-- ===== src/Vm/Emit/Compares.antt =====
-- src/vmir_vm.c: emit_cmp2, emit_cmp_branch and emit_cmp_select, and swap_pred of
-- src/vmir_instr_parse.c.
pub mod Runs
pub mod Consts
use vmir.Common.{ℕ, ◌%◌, ◌^◌, true, false, [], ◌∷◌, ◌++◌, if◌then◌else◌}
use vmir.Types.{
  TypeCode, c_int8, c_int16, c_int32, c_int64, c_float, c_double, c_pointer, Result, ok, err, ◌>>=◌,
  parser_error, assertion, type_get, legalize_type,
}
use vmir.Parser.{
  Value, ValueClass, regframe, constant, globalvar, function_value, IrUnit, value_get, value_reg,
  value_get_const32,
}
use vmir.Vm.{
  IcmpPred, eq, ne, ugt, uge, ult, ule, sgt, sge, slt, sle, FcmpPred, oeq, ogt, oge, olt, ole, fone,
  ord, uno, ueq, fugt, fuge, fult, fule, une, Pred, icmp, fcmp, fcmp_false, fcmp_true, other, VmOp,
  cmp8, cmp8_c, cmp16, cmp16_c, cmp32, cmp32_c, cmp64, cmp64_c, cmp_dbl, cmp_dbl_c, cmp_flt,
  cmp_flt_c, cmp8_br, cmp8_c_br, cmp32_br, cmp32_c_br, cmp32_sel, cmp32_c_sel, mov32_c, Text,
  text_size, emit_i8, emit_i16, emit_i32, emit_op, emit_op1, emit_op3, emit_branch, vm_align32,
}
use vmir.Vm.Exec.Float.{Fpu, flt, dbl}
use vmir.Vm.Emit.{
  ValueType, InstrCmp, emit_reg_imm8, emit_reg_imm16, emit_reg_imm32, emit_reg_imm64,
}

unfoldable pub swap_icmp : IcmpPred → IcmpPred
swap_icmp sgt = slt
swap_icmp slt = sgt
swap_icmp sge = sle
swap_icmp sle = sge
swap_icmp ugt = ult
swap_icmp ult = ugt
swap_icmp uge = ule
swap_icmp ule = uge
swap_icmp p = p

unfoldable pub swap_fcmp : FcmpPred → FcmpPred
swap_fcmp ogt = olt
swap_fcmp olt = ogt
swap_fcmp oge = ole
swap_fcmp ole = oge
swap_fcmp fugt = fult
swap_fcmp fult = fugt
swap_fcmp fuge = fule
swap_fcmp fule = fuge
swap_fcmp p = p

unfoldable pub swap_pred : Pred → Result Pred
unfolding swap_icmp swap_fcmp
swap_pred (icmp p) = ok (icmp (swap_icmp p))
swap_pred (fcmp p) = ok (fcmp (swap_fcmp p))
swap_pred other = err assertion
swap_pred p = ok p

-- The opcode for two registers.
unfoldable pub cmp_reg_op : Pred → TypeCode → Result VmOp
cmp_reg_op (fcmp p) c_float = ok (cmp_flt p)
cmp_reg_op (fcmp p) c_double = ok (cmp_dbl p)
cmp_reg_op (icmp p) c_int8 = ok (cmp8 p)
cmp_reg_op (icmp p) c_int16 = ok (cmp16 p)
cmp_reg_op (icmp p) c_int32 = ok (cmp32 p)
cmp_reg_op (icmp p) c_pointer = ok (cmp32 p)
cmp_reg_op (icmp p) c_int64 = ok (cmp64 p)
cmp_reg_op p code = err parser_error

module _ (F : Fpu) where
  -- A register and a number, whose bits are `u64`.
  unfoldable pub emit_cmp_const :
      IrUnit
      → Pred
      → TypeCode
      → (ret : Value) → (lhs : ℕ) → (rhs : Value) → (u64 : ℕ) → Text
      → Result Text
  unfolding vm_align32 emit_reg_imm8 emit_reg_imm16 emit_reg_imm32 emit_reg_imm64
  emit_cmp_const iu (fcmp p) c_double ret lhs rhs u64 t =
      if F.isnan dbl u64 then err parser_error else emit_reg_imm64 iu (cmp_dbl_c p) ret lhs rhs t
  emit_cmp_const iu (fcmp p) c_float ret lhs rhs u64 t =
      if F.isnan flt (u64 % 2 ^ 32)
      then err parser_error
      else (vm_align32 1 t >>= λ t1. emit_reg_imm32 iu (cmp_flt_c p) ret lhs rhs t1)
  emit_cmp_const iu (icmp p) c_int8 ret lhs rhs u64 t = emit_reg_imm8 iu (cmp8_c p) ret lhs rhs t
  emit_cmp_const iu (icmp p) c_int16 ret lhs rhs u64 t = emit_reg_imm16 iu (cmp16_c p) ret lhs rhs t
  emit_cmp_const iu (icmp p) c_int32 ret lhs rhs u64 t = emit_reg_imm32 iu (cmp32_c p) ret lhs rhs t
  emit_cmp_const iu (icmp p) c_pointer ret lhs rhs u64 t =
      emit_reg_imm32 iu (cmp32_c p) ret lhs rhs t
  emit_cmp_const iu (icmp p) c_int64 ret lhs rhs u64 t = emit_reg_imm64 iu (cmp64_c p) ret lhs rhs t
  emit_cmp_const iu p code ret lhs rhs u64 t = err parser_error

  -- A register and the address of a global variable.
  unfoldable pub emit_cmp_global :
      IrUnit → Pred → TypeCode → (ret : Value) → (lhs : ℕ) → (rhs : Value) → Text → Result Text
  unfolding emit_reg_imm32
  emit_cmp_global iu (icmp p) c_pointer ret lhs rhs t = emit_reg_imm32 iu (cmp32_c p) ret lhs rhs t
  emit_cmp_global iu p code ret lhs rhs t = err parser_error

  unfoldable pub emit_cmp2_classes :
      IrUnit
      → Pred
      → TypeCode
      → (ret lhs rhs : Value) → (lhs_class rhs_class : ValueClass) → Text
      → Result Text
  unfolding cmp_reg_op value_reg emit_op3 emit_cmp_const emit_cmp_global swap_pred
  emit_cmp2_classes iu p code ret lhs rhs (regframe l) (regframe r) t =
      cmp_reg_op p code >>= λ vm_op. value_reg ret >>= λ d. emit_op3 vm_op d l r t
  emit_cmp2_classes iu p code ret lhs rhs (regframe l) (constant u64) t =
      emit_cmp_const iu p code ret l rhs u64 t
  emit_cmp2_classes iu p code ret lhs rhs (constant u64) (regframe r) t =
      swap_pred p >>= λ q. emit_cmp_const iu q code ret r lhs u64 t
  emit_cmp2_classes iu p code ret lhs rhs (regframe l) (globalvar ig) t =
      emit_cmp_global iu p code ret l rhs t
  emit_cmp2_classes iu p code ret lhs rhs (globalvar ig) (regframe r) t =
      swap_pred p >>= λ q. emit_cmp_global iu q code ret r lhs t
  emit_cmp2_classes iu p code ret lhs rhs lhs_class rhs_class t = err parser_error

  unfoldable pub emit_cmp2 : IrUnit → InstrCmp → Text → Result Text
  unfolding value_get type_get legalize_type emit_cmp2_classes
  emit_cmp2 iu ii t = value_get iu ((ii.lhs_value).value) >>= λ lhs.
      value_get iu ((ii.rhs_value).value) >>= λ rhs. value_get iu ((ii.ret).value) >>= λ ret.
      type_get ((iu.table).types) ((ii.lhs_value).type) >>= λ it.
      emit_cmp2_classes iu (ii.op) (legalize_type it) ret lhs rhs (lhs.class) (rhs.class) t
