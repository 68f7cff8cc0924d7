-- ===== src/Vm/Emit/Binops.antt =====
-- src/vmir_vm.c: emit_binop.
pub mod RegReg
pub mod Promoted
pub mod Increments
pub mod RegConst
use vmir.Common.{ℕ, ◌-◌, ◌^◌, true, false, ◌==◌, if◌then◌else◌}
use Prim.Native.Nat.{bit_and}
use vmir.Types.{
  TypeCode, c_int1, c_int8, c_int16, c_int32, c_int64, c_float, c_double, Result, ok, err, ◌>>=◌,
  parser_error, type_get, legalize_type,
}
use vmir.Parser.{
  Value, ValueClass, regframe, constant, IrUnit, value_get, value_reg, value_get_const32,
  value_get_const64,
}
use vmir.Vm.{
  Binop, add, sub, mul, udiv, sdiv, srem, ashr, Farith, fadd, fsub, fmul, fdiv, VmOp, sdiv_r8,
  srem_r8, ashr_r8, sdiv_r8c, srem_r8c, ashr_r8c, sdiv_r16, srem_r16, ashr_r16, binop_r16c,
  binop_r32, inc_r32, dec_r32, binop_r32c, binop_r64, binop_r64c, arith_dbl, arith_dblc, arith_flt,
  arith_fltc, Text, emit_i16, emit_i32, emit_op2, emit_op3, vm_align32,
}
use vmir.Vm.Emit.{InstrBinop, emit_reg_imm8, emit_reg_imm16, emit_reg_imm32, emit_reg_imm64}

-- The operators on floats and doubles.
unfoldable pub float_arith : Binop → Result Farith
float_arith add = ok fadd
float_arith sub = ok fsub
float_arith mul = ok fmul
float_arith sdiv = ok fdiv
float_arith udiv = ok fdiv
float_arith o = err parser_error

unfoldable pub binop_r8_op : Binop → VmOp
binop_r8_op sdiv = sdiv_r8
binop_r8_op srem = srem_r8
binop_r8_op ashr = ashr_r8
binop_r8_op o = binop_r32 o

unfoldable pub binop_r16_op : Binop → VmOp
binop_r16_op sdiv = sdiv_r16
binop_r16_op srem = srem_r16
binop_r16_op ashr = ashr_r16
binop_r16_op o = binop_r32 o

-- The opcode for two registers.
unfoldable pub binop_reg_op : Binop → TypeCode → Result VmOp
unfolding float_arith binop_r8_op binop_r16_op
binop_reg_op o c_int1 = ok (binop_r32 o)
binop_reg_op o c_int32 = ok (binop_r32 o)
binop_reg_op o c_int8 = ok (binop_r8_op o)
binop_reg_op o c_int16 = ok (binop_r16_op o)
binop_reg_op o c_int64 = ok (binop_r64 o)
binop_reg_op o c_double = float_arith o >>= λ f. ok (arith_dbl f)
binop_reg_op o c_float = float_arith o >>= λ f. ok (arith_flt f)
binop_reg_op o code = err parser_error

-- A register and a number of 8 bits.
unfoldable pub emit_binop_r8c :
    IrUnit → Binop → (ret : Value) → (lhs : ℕ) → (rhs : Value) → Text → Result Text
unfolding emit_reg_imm8 value_reg emit_op2 value_get_const32 emit_i16
emit_binop_r8c iu sdiv ret lhs rhs t = emit_reg_imm8 iu sdiv_r8c ret lhs rhs t
emit_binop_r8c iu srem ret lhs rhs t = emit_reg_imm8 iu srem_r8c ret lhs rhs t
emit_binop_r8c iu ashr ret lhs rhs t = emit_reg_imm8 iu ashr_r8c ret lhs rhs t
emit_binop_r8c iu o ret lhs rhs t = value_reg ret >>= λ r. emit_op2 (binop_r16c o) r lhs t >>= λ t1.
    value_get_const32 iu rhs >>= λ c. emit_i16 (bit_and c (2 ^ 8 - 1)) t1

-- The increments and decrements by one, and what is neither.
pub data Increment : Type 0 where
  increment decrement no_increment : Increment

unfoldable pub increment_of : Binop → (u32 : ℕ) → Increment
increment_of add u32 =
    if u32 == 1 then increment else if u32 == 2 ^ 32 - 1 then decrement else no_increment
increment_of sub u32 =
    if u32 == 2 ^ 32 - 1 then increment else if u32 == 1 then decrement else no_increment
increment_of o u32 = no_increment

unfoldable pub emit_binop_r32c :
    IrUnit → Binop → (ret : Value) → (lhs : ℕ) → (rhs : Value) → Text → Result Text
unfolding value_get_const32 increment_of value_reg emit_op2 emit_reg_imm32
emit_binop_r32c iu o ret lhs rhs t = value_get_const32 iu rhs >>= λ u32. elim (increment_of o u32) [
  | increment ↦ value_reg ret >>= λ r. emit_op2 inc_r32 r lhs t
  | decrement ↦ value_reg ret >>= λ r. emit_op2 dec_r32 r lhs t
  | no_increment ↦ emit_reg_imm32 iu (binop_r32c o) ret lhs rhs t
]

unfoldable pub emit_binop_const :
    IrUnit → Binop → TypeCode → (ret : Value) → (lhs : ℕ) → (rhs : Value) → Text → Result Text
unfolding emit_binop_r8c emit_reg_imm16 emit_binop_r32c emit_reg_imm64 float_arith vm_align32
    emit_reg_imm32
emit_binop_const iu o c_int8 ret lhs rhs t = emit_binop_r8c iu o ret lhs rhs t
emit_binop_const iu o c_int16 ret lhs rhs t = emit_reg_imm16 iu (binop_r16c o) ret lhs rhs t
emit_binop_const iu o c_int1 ret lhs rhs t = emit_binop_r32c iu o ret lhs rhs t
emit_binop_const iu o c_int32 ret lhs rhs t = emit_binop_r32c iu o ret lhs rhs t
emit_binop_const iu o c_int64 ret lhs rhs t = emit_reg_imm64 iu (binop_r64c o) ret lhs rhs t
emit_binop_const iu o c_double ret lhs rhs t =
    float_arith o >>= λ f. emit_reg_imm64 iu (arith_dblc f) ret lhs rhs t
emit_binop_const iu o c_float ret lhs rhs t =
    float_arith o >>= λ f. vm_align32 1 t >>= λ t1. emit_reg_imm32 iu (arith_fltc f) ret lhs rhs t1
emit_binop_const iu o code ret lhs rhs t = err parser_error

-- The two pairs of classes that emit_binop knows.
unfoldable pub emit_binop_classes :
    IrUnit
    → Binop
    → TypeCode
    → (ret rhs : Value) → (lhs_class rhs_class : ValueClass) → Text
    → Result Text
unfolding binop_reg_op value_reg emit_op3 emit_binop_const
emit_binop_classes iu o code ret rhs (regframe l) (regframe r) t =
    binop_reg_op o code >>= λ vm_op. value_reg ret >>= λ d. emit_op3 vm_op d l r t
emit_binop_classes iu o code ret rhs (regframe l) (constant u64) t =
    emit_binop_const iu o code ret l rhs t
emit_binop_classes iu o code ret rhs lhs_class rhs_class t = err parser_error

unfoldable pub emit_binop : IrUnit → InstrBinop → Text → Result Text
unfolding value_get type_get legalize_type emit_binop_classes
emit_binop iu ii t = value_get iu ((ii.lhs_value).value) >>= λ lhs.
    value_get iu ((ii.rhs_value).value) >>= λ rhs. value_get iu ((ii.ret).value) >>= λ ret.
    type_get ((iu.table).types) ((ii.lhs_value).type) >>= λ it.
    emit_binop_classes iu (ii.op) (legalize_type it) ret rhs (lhs.class) (rhs.class) t
