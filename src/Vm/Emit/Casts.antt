-- ===== src/Vm/Emit/Casts.antt =====
-- src/vmir_vm.c: emit_cast.
pub mod Runs
use vmir.Common.{ℕ}
use vmir.Types.{
  TypeCode, c_int1, c_int8, c_int16, c_int32, c_int64, c_float, c_double, c_pointer, Result, ok,
  err, ◌>>=◌, parser_error, type_get, legalize_type,
}
use vmir.Parser.{IrUnit, value_get, value_reg}
use vmir.Vm.{
  CastOp, cast_1_trunc_8, cast_1_trunc_16, cast_8_sext_1, cast_8_trunc_16, cast_8_trunc_32,
  cast_8_trunc_32, cast_8_trunc_64, cast_16_zext_1, cast_16_zext_8, cast_16_sext_8,
  cast_16_trunc_32, cast_16_trunc_64, cast_16_fptosi_flt, cast_16_fptoui_flt, cast_16_fptosi_dbl,
  cast_16_fptoui_dbl, cast_32_trunc_64, cast_32_sext_1, cast_32_zext_8, cast_32_sext_8,
  cast_32_zext_16, cast_32_sext_16, cast_32_fptosi_flt, cast_32_fptoui_flt, cast_32_fptosi_dbl,
  cast_32_fptoui_dbl, cast_64_zext_1, cast_64_sext_1, cast_64_zext_8, cast_64_sext_8,
  cast_64_zext_16, cast_64_sext_16, cast_64_zext_32, cast_64_sext_32, cast_64_fptosi_flt,
  cast_64_fptoui_flt, cast_64_fptosi_dbl, cast_64_fptoui_dbl, cast_flt_fptrunc_dbl,
  cast_flt_sitofp_8, cast_flt_uitofp_8, cast_flt_sitofp_16, cast_flt_uitofp_16, cast_flt_sitofp_32,
  cast_flt_uitofp_32, cast_flt_sitofp_64, cast_flt_uitofp_64, cast_dbl_sitofp_8, cast_dbl_uitofp_8,
  cast_dbl_sitofp_16, cast_dbl_uitofp_16, cast_dbl_sitofp_32, cast_dbl_uitofp_32,
  cast_dbl_sitofp_64, cast_dbl_uitofp_64, cast_dbl_fpext_flt, cast, mov32, mov64, Text, emit_op2,
}
use vmir.Vm.Emit.{ValueType}

-- CAST_TRUNC to CAST_BITCAST, and any other number.
pub data CastCode : Type 0 where
  trunc zext sext fptoui fptosi uitofp sitofp fptrunc fpext ptrtoint inttoptr bitcast : CastCode
  unknown_cast : CastCode

-- What a cast is emitted as: an instruction, a move, nothing at all, or an error.
pub data CastPlan : Type 0 where
  convert : CastOp → CastPlan
  instead_move32 instead_move64 nothing unable : CastPlan

-- The casts to an integer. That of a pointer to 64 bits leaves emit_cast before it emits.
unfoldable pub cast_to_int : (dst : TypeCode) → CastCode → (src : TypeCode) → CastPlan
cast_to_int c_int1 trunc c_int8 = convert cast_1_trunc_8
cast_to_int c_int1 trunc c_int16 = convert cast_1_trunc_16
cast_to_int c_int8 sext c_int1 = convert cast_8_sext_1
cast_to_int c_int8 trunc c_int16 = convert cast_8_trunc_16
cast_to_int c_int8 trunc c_int32 = convert cast_8_trunc_32
cast_to_int c_int8 zext c_int1 = convert cast_8_trunc_32
cast_to_int c_int8 trunc c_int64 = convert cast_8_trunc_64
cast_to_int c_int16 zext c_int1 = convert cast_16_zext_1
cast_to_int c_int16 zext c_int8 = convert cast_16_zext_8
cast_to_int c_int16 sext c_int8 = convert cast_16_sext_8
cast_to_int c_int16 trunc c_int32 = convert cast_16_trunc_32
cast_to_int c_int16 trunc c_int64 = convert cast_16_trunc_64
cast_to_int c_int16 fptosi c_float = convert cast_16_fptosi_flt
cast_to_int c_int16 fptoui c_float = convert cast_16_fptoui_flt
cast_to_int c_int16 fptosi c_double = convert cast_16_fptosi_dbl
cast_to_int c_int16 fptoui c_double = convert cast_16_fptoui_dbl
cast_to_int c_int32 trunc c_int64 = convert cast_32_trunc_64
cast_to_int c_int32 sext c_int1 = convert cast_32_sext_1
cast_to_int c_int32 zext c_int8 = convert cast_32_zext_8
cast_to_int c_int32 sext c_int8 = convert cast_32_sext_8
cast_to_int c_int32 zext c_int16 = convert cast_32_zext_16
cast_to_int c_int32 sext c_int16 = convert cast_32_sext_16
cast_to_int c_int32 fptosi c_float = convert cast_32_fptosi_flt
cast_to_int c_int32 fptoui c_float = convert cast_32_fptoui_flt
cast_to_int c_int32 fptosi c_double = convert cast_32_fptosi_dbl
cast_to_int c_int32 fptoui c_double = convert cast_32_fptoui_dbl
cast_to_int c_int64 zext c_int1 = convert cast_64_zext_1
cast_to_int c_int64 sext c_int1 = convert cast_64_sext_1
cast_to_int c_int64 zext c_int8 = convert cast_64_zext_8
cast_to_int c_int64 sext c_int8 = convert cast_64_sext_8
cast_to_int c_int64 zext c_int16 = convert cast_64_zext_16
cast_to_int c_int64 sext c_int16 = convert cast_64_sext_16
cast_to_int c_int64 zext c_int32 = convert cast_64_zext_32
cast_to_int c_int64 sext c_int32 = convert cast_64_sext_32
cast_to_int c_int64 fptosi c_float = convert cast_64_fptosi_flt
cast_to_int c_int64 fptoui c_float = convert cast_64_fptoui_flt
cast_to_int c_int64 fptosi c_double = convert cast_64_fptosi_dbl
cast_to_int c_int64 fptoui c_double = convert cast_64_fptoui_dbl
cast_to_int c_int32 zext c_int1 = instead_move32
cast_to_int c_int32 bitcast c_float = instead_move32
cast_to_int c_int64 bitcast c_double = instead_move64
cast_to_int c_int64 ptrtoint c_pointer = nothing
cast_to_int dst castop src = unable

-- The casts to a floating point number.
unfoldable pub cast_to_float : (dst : TypeCode) → CastCode → (src : TypeCode) → CastPlan
cast_to_float c_float fptrunc c_double = convert cast_flt_fptrunc_dbl
cast_to_float c_float sitofp c_int8 = convert cast_flt_sitofp_8
cast_to_float c_float uitofp c_int8 = convert cast_flt_uitofp_8
cast_to_float c_float sitofp c_int16 = convert cast_flt_sitofp_16
cast_to_float c_float uitofp c_int16 = convert cast_flt_uitofp_16
cast_to_float c_float sitofp c_int32 = convert cast_flt_sitofp_32
cast_to_float c_float uitofp c_int32 = convert cast_flt_uitofp_32
cast_to_float c_float sitofp c_int64 = convert cast_flt_sitofp_64
cast_to_float c_float uitofp c_int64 = convert cast_flt_uitofp_64
cast_to_float c_double sitofp c_int8 = convert cast_dbl_sitofp_8
cast_to_float c_double uitofp c_int8 = convert cast_dbl_uitofp_8
cast_to_float c_double sitofp c_int16 = convert cast_dbl_sitofp_16
cast_to_float c_double uitofp c_int16 = convert cast_dbl_uitofp_16
cast_to_float c_double sitofp c_int32 = convert cast_dbl_sitofp_32
cast_to_float c_double uitofp c_int32 = convert cast_dbl_uitofp_32
cast_to_float c_double sitofp c_int64 = convert cast_dbl_sitofp_64
cast_to_float c_double uitofp c_int64 = convert cast_dbl_uitofp_64
cast_to_float c_double fpext c_float = convert cast_dbl_fpext_flt
cast_to_float c_float bitcast c_int32 = instead_move32
cast_to_float c_double bitcast c_int64 = instead_move64
cast_to_float dst castop src = unable

unfoldable pub cast_plan : (dst : TypeCode) → CastCode → (src : TypeCode) → CastPlan
unfolding cast_to_int cast_to_float
cast_plan c_float castop src = cast_to_float c_float castop src
cast_plan c_double castop src = cast_to_float c_double castop src
cast_plan dst castop src = cast_to_int dst castop src

-- ir_instr_unary_t of an IR_IC_CAST.
pub record InstrCast : Type 0 where
  pub value : ValueType
  pub op : CastCode
  pub ret : ValueType

unfoldable pub emit_cast_plan : CastPlan → (ret src : Result ℕ) → Text → Result Text
unfolding emit_op2
emit_cast_plan (convert o) ret src t = ret >>= λ d. src >>= λ s. emit_op2 (cast o) d s t
emit_cast_plan instead_move32 ret src t = ret >>= λ d. src >>= λ s. emit_op2 mov32 d s t
emit_cast_plan instead_move64 ret src t = ret >>= λ d. src >>= λ s. emit_op2 mov64 d s t
emit_cast_plan nothing ret src t = ok t
emit_cast_plan unable ret src t = err parser_error

unfoldable pub emit_cast : IrUnit → InstrCast → Text → Result Text
unfolding value_get type_get legalize_type cast_plan emit_cast_plan value_reg
emit_cast iu ii t = value_get iu ((ii.value).value) >>= λ src.
    value_get iu ((ii.ret).value) >>= λ ret.
    type_get ((iu.table).types) ((ii.value).type) >>= λ srcty.
    type_get ((iu.table).types) ((ii.ret).type) >>= λ dstty.
    emit_cast_plan (cast_plan (legalize_type dstty) (ii.op) (legalize_type srcty)) (value_reg ret)
      (value_reg src) t
