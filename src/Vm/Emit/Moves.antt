-- ===== src/Vm/Emit/Moves.antt =====
-- src/vmir_vm.c: emit_ret and emit_move.
pub mod Runs
use vmir.Common.{ℕ, ◌+◌, Bool, true, false, not, ◌||◌, Option, none, some, ◌==◌, if◌then◌else◌}
use vmir.Types.{
  TypeCode, c_int1, c_int8, c_int16, c_int32, c_int64, c_float, c_double, c_pointer, c_function,
  Result, ok, err, ◌>>=◌, parser_error, uninitialised, type_get, legalize_type,
}
use vmir.Parser.{
  Value, ValueClass, regframe, constant, globalvar, function_value, IrUnit, value_get, value_reg,
  value_get_const32, value_get_const64,
}
use vmir.Vm.{
  ret_void, ret_r32, ret_r64, ret_r32c, ret_r64c, mov32, mov64, mov8_c, mov16_c, mov32_c, mov64_c,
  VmOp, Text, emit_i8, emit_i16, emit_i32, emit_i64, emit_op, emit_op1, emit_op2, vm_align32,
}
use vmir.Vm.Emit.{ValueType, value_function_addr}

-- An opcode followed by a number of 32 bits that a value gives.
unfoldable pub emit_ret_c : IrUnit → Value → Text → Result Text
unfolding emit_op value_get_const32 emit_i32
emit_ret_c iu iv t = emit_op ret_r32c t >>= λ t1. value_get_const32 iu iv >>= λ c. emit_i32 c t1

unfoldable pub emit_ret_c64 : IrUnit → Value → Text → Result Text
unfolding vm_align32 emit_op value_get_const64 emit_i64
emit_ret_c64 iu iv t = vm_align32 1 t >>= λ t1.
    emit_op ret_r64c t1 >>= λ t2. value_get_const64 iu iv >>= λ c. emit_i64 c t2

-- The registers and the constants that a type is returned in: of 32 bits, of 64 bits or none.
pub data Slot : Type 0 where
  slot32 slot64 no_slot : Slot

unfoldable pub return_slot : TypeCode → Slot
return_slot c_int1 = slot32
return_slot c_int8 = slot32
return_slot c_int16 = slot32
return_slot c_int32 = slot32
return_slot c_pointer = slot32
return_slot c_float = slot32
return_slot c_int64 = slot64
return_slot c_double = slot64
return_slot code = no_slot

unfoldable pub emit_ret_reg : Slot → (reg : ℕ) → Text → Result Text
unfolding emit_op1
emit_ret_reg slot32 reg t = emit_op1 ret_r32 reg t
emit_ret_reg slot64 reg t = emit_op1 ret_r64 reg t
emit_ret_reg no_slot reg t = err parser_error

unfoldable pub emit_ret_const : IrUnit → Slot → Value → Text → Result Text
unfolding emit_ret_c emit_ret_c64
emit_ret_const iu slot32 iv t = emit_ret_c iu iv t
emit_ret_const iu slot64 iv t = emit_ret_c64 iu iv t
emit_ret_const iu no_slot iv t = err parser_error

unfoldable pub emit_ret_global : IrUnit → TypeCode → Value → Text → Result Text
unfolding emit_ret_c
emit_ret_global iu c_pointer iv t = emit_ret_c iu iv t
emit_ret_global iu code iv t = err parser_error

unfoldable pub emit_ret_class : IrUnit → TypeCode → Value → ValueClass → Text → Result Text
unfolding return_slot emit_ret_reg emit_ret_const emit_ret_global emit_op emit_i32
    value_function_addr
emit_ret_class iu code iv (regframe reg) t = emit_ret_reg (return_slot code) reg t
emit_ret_class iu code iv (globalvar ig) t = emit_ret_global iu code iv t
emit_ret_class iu code iv (constant u64) t = emit_ret_const iu (return_slot code) iv t
emit_ret_class iu code iv (function_value gfid) t =
    emit_op ret_r32c t >>= λ t1. value_function_addr iv >>= λ a. emit_i32 a t1
emit_ret_class iu code iv class t = err parser_error

-- The value of an IR_IC_RET. Of a function that returns none, it is -1.
unfoldable pub emit_ret : IrUnit → Option ValueType → Text → Result Text
unfolding emit_op value_get type_get legalize_type emit_ret_class
emit_ret iu none t = emit_op ret_void t
emit_ret iu (some value) t = value_get iu (value.value) >>= λ iv.
    type_get ((iu.table).types) (value.type) >>= λ it.
    emit_ret_class iu (legalize_type it) iv (iv.class) t

-- ir_instr_move_t: one result, or two that stand in `ii_rets`.
pub data MoveRet : Type 0 where
  single : ValueType → MoveRet
  pair : (ret0 ret1 : ValueType) → MoveRet

pub record InstrMove : Type 0 where
  pub value : ValueType
  pub ret : MoveRet

-- `iv_reg`, read without an assertion on the class.
unfoldable pub raw_reg : ValueClass → Result ℕ
raw_reg (regframe reg) = ok reg
raw_reg class = err uninitialised

-- The register that the move goes to and the code of its type; two adjacent words are one of 64 bits.
unfoldable pub move_dest : IrUnit → MoveRet → Result (ℕ × TypeCode)
unfolding raw_reg value_get value_reg type_get legalize_type
move_dest iu (single ret) = value_get iu (ret.value) >>= λ v.
    type_get ((iu.table).types) (ret.type) >>= λ ty.
    value_reg v >>= λ reg. ok (reg, legalize_type ty)
move_dest iu (pair ret0 ret1) = value_get iu (ret0.value) >>= λ v1.
    value_get iu (ret1.value) >>= λ v2. raw_reg (v1.class) >>= λ r1. raw_reg (v2.class) >>= λ r2.
    if not (r1 + 4 == r2) || not (ret0.type == ret1.type)
    then err parser_error
    else (type_get ((iu.table).types) (ret0.type) >>= λ ty. elim (legalize_type ty) [
      | c_int32 ↦ value_reg v1 >>= λ reg. ok (reg, c_int64)
      | _ ↦ err parser_error
    ])

unfoldable pub emit_mov_c32 : IrUnit → (reg : ℕ) → Value → Text → Result Text
unfolding emit_op1 value_get_const32 emit_i32
emit_mov_c32 iu reg src t =
    emit_op1 mov32_c reg t >>= λ t1. value_get_const32 iu src >>= λ c. emit_i32 c t1

unfoldable pub emit_mov_c64 : IrUnit → (reg : ℕ) → Value → Text → Result Text
unfolding vm_align32 emit_op1 value_get_const64 emit_i64
emit_mov_c64 iu reg src t = vm_align32 0 t >>= λ t1.
    emit_op1 mov64_c reg t1 >>= λ t2. value_get_const64 iu src >>= λ c. emit_i64 c t2

unfoldable pub emit_move_const : IrUnit → TypeCode → (reg : ℕ) → Value → Text → Result Text
unfolding emit_op1 value_get_const32 emit_i8 emit_i16 emit_mov_c32 emit_mov_c64
emit_move_const iu c_int8 reg src t =
    emit_op1 mov8_c reg t >>= λ t1. value_get_const32 iu src >>= λ c. emit_i8 c t1
emit_move_const iu c_int16 reg src t =
    emit_op1 mov16_c reg t >>= λ t1. value_get_const32 iu src >>= λ c. emit_i16 c t1
emit_move_const iu c_int1 reg src t = emit_mov_c32 iu reg src t
emit_move_const iu c_int32 reg src t = emit_mov_c32 iu reg src t
emit_move_const iu c_pointer reg src t = emit_mov_c32 iu reg src t
emit_move_const iu c_float reg src t = emit_mov_c32 iu reg src t
emit_move_const iu c_int64 reg src t = emit_mov_c64 iu reg src t
emit_move_const iu c_double reg src t = emit_mov_c64 iu reg src t
emit_move_const iu code reg src t = err parser_error

unfoldable pub emit_move_reg : Slot → (reg src : ℕ) → Text → Result Text
unfolding emit_op2
emit_move_reg slot32 reg src t = emit_op2 mov32 reg src t
emit_move_reg slot64 reg src t = emit_op2 mov64 reg src t
emit_move_reg no_slot reg src t = err parser_error

unfoldable pub emit_move_function : TypeCode → (reg : ℕ) → Value → Text → Result Text
unfolding emit_op1 emit_i32 value_function_addr
emit_move_function c_function reg src t =
    emit_op1 mov32_c reg t >>= λ t1. value_function_addr src >>= λ a. emit_i32 a t1
emit_move_function c_pointer reg src t =
    emit_op1 mov32_c reg t >>= λ t1. value_function_addr src >>= λ a. emit_i32 a t1
emit_move_function code reg src t = err parser_error

unfoldable pub emit_move_global : IrUnit → TypeCode → (reg : ℕ) → Value → Text → Result Text
unfolding emit_mov_c32
emit_move_global iu c_pointer reg src t = emit_mov_c32 iu reg src t
emit_move_global iu code reg src t = err parser_error

-- The types that a register is moved by are those that it is returned by.
unfoldable pub emit_move_class :
    IrUnit → TypeCode → (reg : ℕ) → Value → ValueClass → Text → Result Text
unfolding emit_move_const emit_move_global emit_move_reg return_slot emit_move_function
emit_move_class iu code reg src (constant u64) t = emit_move_const iu code reg src t
emit_move_class iu code reg src (globalvar ig) t = emit_move_global iu code reg src t
emit_move_class iu code reg src (regframe r) t = emit_move_reg (return_slot code) reg r t
emit_move_class iu code reg src (function_value gfid) t = emit_move_function code reg src t
emit_move_class iu code reg src class t = err parser_error

unfoldable pub emit_move : IrUnit → InstrMove → Text → Result Text
unfolding value_get move_dest emit_move_class
emit_move iu ii t = value_get iu ((ii.value).value) >>= λ src.
    move_dest iu (ii.ret) >>= λ d. emit_move_class iu (d.1) (d.0) src (src.class) t
