-- ===== src/Vm/Emit/Selects.antt =====
-- src/vmir_vm.c: emit_cmp_select.
use vmir.Common.{ℕ}
use vmir.Types.{
  TypeCode, c_int32, c_pointer, Result, ok, err, ◌>>=◌, parser_error, type_get, legalize_type,
}
use vmir.Parser.{
  Value, ValueClass, regframe, constant, globalvar, IrUnit, value_get, value_reg, value_get_const32,
}
use vmir.Vm.{
  Pred, icmp, VmOp, cmp32_sel, cmp32_c_sel, mov32_c, Text, emit_i16, emit_i32, emit_op, emit_op1,
}
use vmir.Vm.Emit.{ValueType}
use vmir.Vm.Emit.Compares.{swap_pred}

-- ir_instr_cmp_select_t
pub record InstrCmpSelect : Type 0 where
  pub op : Pred
  pub lhs_value : ValueType
  pub rhs_value : ValueType
  pub true_value : ValueType
  pub false_value : ValueType
  pub ret : ValueType

-- A value in a register, or in the scratch register that it is moved to first.
unfoldable pub emit_selected :
    IrUnit → (scratch : ℕ) → Value → ValueClass → Text → Result (ℕ × Text)
unfolding emit_op1 value_get_const32 emit_i32
emit_selected iu scratch v (regframe reg) t = ok (reg, t)
emit_selected iu scratch v (constant u64) t = emit_op1 mov32_c scratch t >>= λ t1.
    value_get_const32 iu v >>= λ c. emit_i32 c t1 >>= λ t2. ok (scratch, t2)
emit_selected iu scratch v (globalvar ig) t = emit_op1 mov32_c scratch t >>= λ t1.
    value_get_const32 iu v >>= λ c. emit_i32 c t1 >>= λ t2. ok (scratch, t2)
emit_selected iu scratch v class t = err parser_error

-- The result, the two values and the first register, after the opcode.
unfoldable pub emit_sel_head :
    VmOp → (ret : Value) → (truereg falsereg lhs : ℕ) → Text → Result Text
unfolding emit_op value_reg emit_i16
emit_sel_head o ret truereg falsereg lhs t = emit_op o t >>= λ t1. value_reg ret >>= λ d.
    emit_i16 d t1 >>= λ t2.
    emit_i16 truereg t2 >>= λ t3. emit_i16 falsereg t3 >>= λ t4. emit_i16 lhs t4

unfoldable pub emit_sel_reg :
    Pred → TypeCode → (ret : Value) → (truereg falsereg lhs rhs : ℕ) → Text → Result Text
unfolding emit_sel_head emit_i16
emit_sel_reg (icmp p) c_int32 ret x y lhs rhs t =
    emit_sel_head (cmp32_sel p) ret x y lhs t >>= λ t1. emit_i16 rhs t1
emit_sel_reg (icmp p) c_pointer ret x y lhs rhs t =
    emit_sel_head (cmp32_sel p) ret x y lhs t >>= λ t1. emit_i16 rhs t1
emit_sel_reg p code ret x y lhs rhs t = err parser_error

unfoldable pub emit_sel_const :
    IrUnit
    → Pred
    → TypeCode
    → (ret : Value) → (truereg falsereg lhs : ℕ) → (rhs : Value) → Text
    → Result Text
unfolding emit_sel_head value_get_const32 emit_i32
emit_sel_const iu (icmp p) c_int32 ret x y lhs rhs t =
    emit_sel_head (cmp32_c_sel p) ret x y lhs t >>= λ t1.
    value_get_const32 iu rhs >>= λ c. emit_i32 c t1
emit_sel_const iu (icmp p) c_pointer ret x y lhs rhs t =
    emit_sel_head (cmp32_c_sel p) ret x y lhs t >>= λ t1.
    value_get_const32 iu rhs >>= λ c. emit_i32 c t1
emit_sel_const iu p code ret x y lhs rhs t = err parser_error

unfoldable pub emit_sel_classes :
    IrUnit
    → Pred
    → TypeCode
    → (ret : Value) → (truereg falsereg : ℕ) → (rhs : Value) → (lhs_class rhs_class : ValueClass)
    → Text
    → Result Text
unfolding emit_sel_reg emit_sel_const
emit_sel_classes iu p code ret x y rhs (regframe l) (regframe r) t =
    emit_sel_reg p code ret x y l r t
emit_sel_classes iu p code ret x y rhs (regframe l) (constant u64) t =
    emit_sel_const iu p code ret x y l rhs t
emit_sel_classes iu p code ret x y rhs (regframe l) (globalvar ig) t =
    emit_sel_const iu p code ret x y l rhs t
emit_sel_classes iu p code ret x y rhs lhs_class rhs_class t = err parser_error

-- The operands in the order they are emitted in: a register on the right alone is swapped to the left.
pub record Operands : Type 0 where
  pub pred : Pred
  pub lhs : Value
  pub rhs : Value

unfoldable pub select_operands :
    Pred → (lhs rhs : Value) → (lhs_class rhs_class : ValueClass) → Result Operands
unfolding swap_pred
select_operands p lhs rhs (regframe l) rhs_class = ok (record { pred = p; lhs = lhs; rhs = rhs })
select_operands p lhs rhs lhs_class (regframe r) =
    swap_pred p >>= λ q. ok (record { pred = q; lhs = rhs; rhs = lhs })
select_operands p lhs rhs lhs_class rhs_class = ok (record { pred = p; lhs = lhs; rhs = rhs })

unfoldable pub emit_cmp_select : IrUnit → InstrCmpSelect → Text → Result Text
unfolding value_get type_get legalize_type select_operands emit_selected emit_sel_classes
emit_cmp_select iu ii t = value_get iu ((ii.ret).value) >>= λ ret.
    value_get iu ((ii.lhs_value).value) >>= λ lhs. value_get iu ((ii.rhs_value).value) >>= λ rhs.
    value_get iu ((ii.true_value).value) >>= λ trueval.
    value_get iu ((ii.false_value).value) >>= λ falseval.
    type_get ((iu.table).types) ((ii.lhs_value).type) >>= λ it.
    select_operands (ii.op) lhs rhs (lhs.class) (rhs.class) >>= λ o.
    emit_selected iu 0 trueval (trueval.class) t >>= λ x.
    emit_selected iu 4 falseval (falseval.class) (x.1) >>= λ y.
    emit_sel_classes iu (o.pred) (legalize_type it) ret (x.0) (y.0) (o.rhs) ((o.lhs).class)
      ((o.rhs).class) (y.1)
