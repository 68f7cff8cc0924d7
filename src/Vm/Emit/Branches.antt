-- ===== src/Vm/Emit/Branches.antt =====
-- src/vmir_vm.c: emit_cmp_branch and emit_br.
pub mod Fixup
pub mod Lands
use vmir.Common.{
  ℕ, ◌+◌, ◌*◌, ◌-◌, ◌%◌, ◌^◌, true, false, Option, none, some, List, [], ◌∷◌, ◌++◌, leb, ◌==◌,
  if◌then◌else◌,
}
use vmir.Types.{
  TypeCode, c_int8, c_int32, c_pointer, Result, ok, err, ◌>>=◌, parser_error, assertion, type_get,
  legalize_type,
}
use vmir.Parser.{
  Value, ValueClass, regframe, constant, globalvar, function_value, IrUnit, value_get, value_reg,
  value_get_const32,
}
use vmir.Vm.{
  Pred, icmp, VmOp, cmp8_br, cmp8_c_br, cmp32_br, cmp32_c_br, cmp32_sel, cmp32_c_sel, mov32_c, br,
  bcond, Text, text_size, emit_i8, emit_i16, emit_i32, emit_op, emit_op1, emit_branch,
}
use vmir.Vm.Emit.{ValueType, value_function_addr}
use vmir.Vm.Emit.Compares.{swap_pred}

-- VECTOR_PUSH_BACK(&iu->iu_branch_fixups, textpos)
unfoldable pub push_fixup : Text → Text
unfolding text_size
push_fixup t = record t { branch_fixups = t.branch_fixups ++ text_size t ∷ [] }

-- ir_instr_br_t. The condition of an unconditional branch is -1.
pub record InstrBr : Type 0 where
  pub condition : Option ValueType
  pub true_branch : ℕ
  pub false_branch : ℕ

unfoldable pub emit_b : (block : ℕ) → Text → Result Text
unfolding push_fixup emit_branch emit_i16
emit_b block t = emit_branch br (push_fixup t) >>= λ t1. emit_i16 block t1

unfoldable pub emit_br_class : IrUnit → Value → ValueClass → InstrBr → Text → Result Text
unfolding push_fixup emit_branch emit_i16 value_get_const32 emit_b
emit_br_class iu iv (regframe reg) ii t = emit_branch bcond (push_fixup t) >>= λ t1.
    emit_i16 reg t1 >>= λ t2. emit_i16 (ii.true_branch) t2 >>= λ t3. emit_i16 (ii.false_branch) t3
emit_br_class iu iv (constant u64) ii t =
    value_get_const32 iu iv >>= λ c. emit_b (if c == 0 then ii.false_branch else ii.true_branch) t
emit_br_class iu iv class ii t = err parser_error

-- A jump to the block that follows is left out. `follows` is the number of that block.
unfoldable pub emit_br : IrUnit → InstrBr → (follows : Option ℕ) → Text → Result Text
unfolding value_get emit_br_class emit_b
emit_br iu ii follows t = elim (ii.condition) [
  | none ↦ elim follows [
    | none ↦ emit_b (ii.true_branch) t
    | some id ↦ if id == ii.true_branch then ok t else emit_b (ii.true_branch) t
  ]
  | some c ↦ value_get iu (c.value) >>= λ iv. emit_br_class iu iv (iv.class) ii t
]

-- ir_instr_cmp_branch_t
pub record InstrCmpBranch : Type 0 where
  pub op : Pred
  pub lhs_value : ValueType
  pub rhs_value : ValueType
  pub true_branch : ℕ
  pub false_branch : ℕ

-- The branch, the two blocks and the first register.
unfoldable pub emit_cmp_head : VmOp → InstrCmpBranch → (lhs : ℕ) → Text → Result Text
unfolding emit_branch emit_i16
emit_cmp_head o ii lhs t = emit_branch o t >>= λ t1.
    emit_i16 (ii.true_branch) t1 >>= λ t2. emit_i16 (ii.false_branch) t2 >>= λ t3. emit_i16 lhs t3

unfoldable pub emit_cmp_br_reg :
    Pred → TypeCode → InstrCmpBranch → (lhs rhs : ℕ) → Text → Result Text
unfolding emit_cmp_head emit_i16
emit_cmp_br_reg (icmp p) c_int8 ii lhs rhs t =
    emit_cmp_head (cmp8_br p) ii lhs t >>= λ t1. emit_i16 rhs t1
emit_cmp_br_reg (icmp p) c_int32 ii lhs rhs t =
    emit_cmp_head (cmp32_br p) ii lhs t >>= λ t1. emit_i16 rhs t1
emit_cmp_br_reg (icmp p) c_pointer ii lhs rhs t =
    emit_cmp_head (cmp32_br p) ii lhs t >>= λ t1. emit_i16 rhs t1
emit_cmp_br_reg p code ii lhs rhs t = err parser_error

unfoldable pub emit_cmp_br_const :
    IrUnit → Pred → TypeCode → InstrCmpBranch → (lhs : ℕ) → (rhs : Value) → Text → Result Text
unfolding emit_cmp_head value_get_const32 emit_i8 emit_i32
emit_cmp_br_const iu (icmp p) c_int8 ii lhs rhs t =
    emit_cmp_head (cmp8_c_br p) ii lhs t >>= λ t1. value_get_const32 iu rhs >>= λ c. emit_i8 c t1
emit_cmp_br_const iu (icmp p) c_int32 ii lhs rhs t =
    emit_cmp_head (cmp32_c_br p) ii lhs t >>= λ t1. value_get_const32 iu rhs >>= λ c. emit_i32 c t1
emit_cmp_br_const iu (icmp p) c_pointer ii lhs rhs t =
    emit_cmp_head (cmp32_c_br p) ii lhs t >>= λ t1. value_get_const32 iu rhs >>= λ c. emit_i32 c t1
emit_cmp_br_const iu p code ii lhs rhs t = err parser_error

-- A function's address is compared whatever the type. Of a `pred` that is no ICMP the source would
-- form the number of another opcode.
unfoldable pub emit_cmp_br_function :
    Pred → InstrCmpBranch → (lhs : ℕ) → (rhs : Value) → Text → Result Text
unfolding emit_cmp_head value_function_addr emit_i32
emit_cmp_br_function (icmp p) ii lhs rhs t =
    emit_cmp_head (cmp32_c_br p) ii lhs t >>= λ t1. value_function_addr rhs >>= λ a. emit_i32 a t1
emit_cmp_br_function p ii lhs rhs t = err assertion

-- With a register on the left.
unfoldable pub emit_cmp_br_right :
    IrUnit
    → Pred
    → TypeCode
    → InstrCmpBranch
    → (lhs : ℕ) → (rhs : Value) → ValueClass
    → Text
    → Result Text
unfolding emit_cmp_br_reg emit_cmp_br_const emit_cmp_br_function
emit_cmp_br_right iu p code ii lhs rhs (regframe r) t = emit_cmp_br_reg p code ii lhs r t
emit_cmp_br_right iu p code ii lhs rhs (constant u64) t = emit_cmp_br_const iu p code ii lhs rhs t
emit_cmp_br_right iu p code ii lhs rhs (globalvar ig) t = emit_cmp_br_const iu p code ii lhs rhs t
emit_cmp_br_right iu p code ii lhs rhs (function_value gfid) t = emit_cmp_br_function p ii lhs rhs t
emit_cmp_br_right iu p code ii lhs rhs class t = err parser_error

-- A register on the right alone is swapped to the left.
unfoldable pub emit_cmp_br_classes :
    IrUnit
    → Pred
    → TypeCode
    → InstrCmpBranch
    → (lhs rhs : Value) → (lhs_class rhs_class : ValueClass) → Text
    → Result Text
unfolding emit_cmp_br_right swap_pred
emit_cmp_br_classes iu p code ii lhs rhs (regframe l) rhs_class t =
    emit_cmp_br_right iu p code ii l rhs rhs_class t
emit_cmp_br_classes iu p code ii lhs rhs lhs_class (regframe r) t =
    swap_pred p >>= λ q. emit_cmp_br_right iu q code ii r lhs lhs_class t
emit_cmp_br_classes iu p code ii lhs rhs lhs_class rhs_class t = err parser_error

unfoldable pub emit_cmp_branch : IrUnit → InstrCmpBranch → Text → Result Text
unfolding value_get type_get legalize_type push_fixup emit_cmp_br_classes
emit_cmp_branch iu ii t = value_get iu ((ii.lhs_value).value) >>= λ lhs.
    value_get iu ((ii.rhs_value).value) >>= λ rhs.
    type_get ((iu.table).types) ((ii.lhs_value).type) >>= λ it.
    emit_cmp_br_classes iu (ii.op) (legalize_type it) ii lhs rhs (lhs.class) (rhs.class)
      (push_fixup t)
