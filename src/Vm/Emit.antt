-- ===== src/Vm/Emit.antt =====
-- src/vmir_vm.c: the emitters, from the instructions of a function to its text. The instructions are
-- those of src/vmir_instr_parse.c.
pub mod Binops
pub mod Compares
pub mod Moves
pub mod Casts
pub mod Branches
pub mod Selects
pub mod Switches
pub mod Blocks
pub mod Words
pub mod Runs
use vmir.Common.{ℕ, ◌%◌, ◌^◌, Option}
use vmir.Types.{Result, ok, err, ◌>>=◌, assertion}
use vmir.Parser.{
  Value, ValueClass, function_value, IrUnit, value_reg, value_get_const32, value_get_const64,
}
use vmir.Vm.{Binop, Pred, VmOp, Text, emit_i8, emit_i16, emit_i32, emit_i64, emit_op2, vm_align32}

-- ir_valuetype_t
pub record ValueType : Type 0 where
  pub value : ℕ
  pub type : ℕ

-- ir_instr_binary_t of an IR_IC_BINOP and of an IR_IC_CMP2.
pub record InstrBinop : Type 0 where
  pub op : Binop
  pub lhs_value : ValueType
  pub rhs_value : ValueType
  pub ret : ValueType

pub record InstrCmp : Type 0 where
  pub op : Pred
  pub lhs_value : ValueType
  pub rhs_value : ValueType
  pub ret : ValueType

-- An operation of a register and a number, which follows its registers in the text.
unfoldable pub emit_reg_imm8 :
    IrUnit → VmOp → (ret : Value) → (reg : ℕ) → (imm : Value) → Text → Result Text
unfolding value_reg emit_op2 value_get_const32 emit_i8
emit_reg_imm8 iu o ret reg imm t = value_reg ret >>= λ r.
    emit_op2 o r reg t >>= λ t1. value_get_const32 iu imm >>= λ c. emit_i8 c t1

unfoldable pub emit_reg_imm16 :
    IrUnit → VmOp → (ret : Value) → (reg : ℕ) → (imm : Value) → Text → Result Text
unfolding value_reg emit_op2 value_get_const32 emit_i16
emit_reg_imm16 iu o ret reg imm t = value_reg ret >>= λ r.
    emit_op2 o r reg t >>= λ t1. value_get_const32 iu imm >>= λ c. emit_i16 c t1

unfoldable pub emit_reg_imm32 :
    IrUnit → VmOp → (ret : Value) → (reg : ℕ) → (imm : Value) → Text → Result Text
unfolding value_reg emit_op2 value_get_const32 emit_i32
emit_reg_imm32 iu o ret reg imm t = value_reg ret >>= λ r.
    emit_op2 o r reg t >>= λ t1. value_get_const32 iu imm >>= λ c. emit_i32 c t1

unfoldable pub emit_op_imm64 :
    IrUnit → VmOp → (ret : Value) → (reg : ℕ) → (imm : Value) → Text → Result Text
unfolding value_reg emit_op2 value_get_const64 emit_i64
emit_op_imm64 iu o ret reg imm t = value_reg ret >>= λ r.
    emit_op2 o r reg t >>= λ t1. value_get_const64 iu imm >>= λ c. emit_i64 c t1

-- With the number at a place that is a multiple of 4.
unfoldable pub emit_reg_imm64 :
    IrUnit → VmOp → (ret : Value) → (reg : ℕ) → (imm : Value) → Text → Result Text
unfolding vm_align32 emit_op_imm64
emit_reg_imm64 iu o ret reg imm t = vm_align32 1 t >>= emit_op_imm64 iu o ret reg imm

unfoldable pub function_addr : ValueClass → Result ℕ
function_addr (function_value gfid) = ok gfid
function_addr class = err assertion

unfoldable pub value_function_addr : Value → Result ℕ
unfolding function_addr
value_function_addr iv = function_addr (iv.class)
