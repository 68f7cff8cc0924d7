-- ===== src/Vm/Emit/Switches.antt =====
-- src/vmir_vm.c: emit_switch and emit_select, and the instructions of src/vmir_instr_parse.c that they
-- read.
pub mod Selected
use vmir.Common.{
  ℕ, zero, suc, ◌-◌, ◌*◌, ◌%◌, ◌^◌, List, [], ◌∷◌, leb, ltb, if◌then◌else◌, length, set,
}
use Prim.Native.Nat.{bit_and}
use vmir.Types.{
  TypeCode, c_int8, c_int16, c_int32, c_int64, c_float, c_double, c_pointer, IrType, int1, int8,
  int16, int32, int64, intx, Result, ok, err, ◌>>=◌, parser_error, assertion, type_get,
  legalize_type, type_code_mask,
}
use vmir.Parser.{
  Value, ValueClass, regframe, constant, globalvar, IrUnit, value_get, value_reg, value_get_const32,
  value_get_const64,
}
use vmir.Vm.{
  bitand, VmOp, select32rr, select32rc, select32cr, select32cc, select64rr, select64rc, select64cr,
  select64cc, jumptable, switch8_bs, switch32_bs, switch64_bs, binop_r32c, cast, cast_16_trunc_32,
  Cell, half, Text, emit_cells, emit_i8, emit_i16, emit_i32, emit_i64, emit_branch, emit_op2,
  emit_op3, vm_align32,
}
use vmir.Vm.Emit.{ValueType}
use vmir.Vm.Emit.Branches.{push_fixup}

-- ir_instr_path_t
pub record InstrPath : Type 0 where
  pub v64 : ℕ
  pub block : ℕ

-- ir_instr_switch_t
pub record InstrSwitch : Type 0 where
  pub value : ValueType
  pub defblock : ℕ
  pub paths : List InstrPath

-- ir_instr_select_t
pub record InstrSelect : Type 0 where
  pub true_value : ValueType
  pub false_value : ValueType
  pub pred : ValueType
  pub ret : ValueType

-- The key of each path, of the size that `emit_key` writes.
unfoldable emit_keys : (ℕ → Text → Result Text) → List InstrPath → Text → Result Text
emit_keys emit_key [] t = ok t
emit_keys emit_key (p ∷ paths) t = emit_key p.v64 t >>= emit_keys emit_key paths

-- The block of each path.
unfoldable emit_targets : List InstrPath → Text → Result Text
unfolding emit_i16
emit_targets [] t = ok t
emit_targets (p ∷ paths) t = emit_i16 p.block t >>= emit_targets paths

-- A binary search: its opcode, register and number of paths, the keys, the blocks and the default.
unfoldable emit_search :
    VmOp → (ℕ → Text → Result Text) → InstrSwitch → (reg : ℕ) → Text → Result Text
unfolding push_fixup emit_branch emit_i16 emit_keys emit_targets
emit_search o emit_key ii reg t = emit_branch o (push_fixup t) >>= λ t1. emit_i16 reg t1 >>= λ t2.
    emit_i16 (length ii.paths) t2 >>= λ t3. emit_keys emit_key (ii.paths) t3 >>= λ t4.
    emit_targets (ii.paths) t4 >>= λ t5. emit_i16 ii.defblock t5

-- `switch32`, whose keys are masked.
unfoldable emit_switch32 : (mask32 : ℕ) → InstrSwitch → (reg : ℕ) → Text → Result Text
unfolding emit_search emit_i32
emit_switch32 mask32 ii reg t =
    emit_search switch32_bs (λ v64. emit_i32 (bit_and v64 mask32)) ii reg t

-- The table of default paths, and the paths written over it.
unfoldable default_table : (jumptable_size defblock : ℕ) → List Cell
default_table zero defblock = []
default_table (suc n) defblock = half (defblock % 2 ^ 16) ∷ default_table n defblock

unfoldable fill_table : (mask : ℕ) → List InstrPath → List Cell → List Cell
fill_table mask [] table = table
fill_table mask (p ∷ paths) table =
    fill_table mask paths (set table (bit_and p.v64 mask) (half (p.block % 2 ^ 16)))

unfoldable emit_jumptable : (jumptable_size : ℕ) → InstrSwitch → (reg : ℕ) → Text → Result Text
unfolding push_fixup emit_branch emit_i16 emit_cells default_table fill_table
emit_jumptable size ii reg t = emit_branch jumptable (push_fixup t) >>= λ t1.
    emit_i16 reg t1 >>= λ t2. emit_i16 size t2 >>= λ t3.
    emit_cells (size * 2) (fill_table (size - 1) (ii.paths) (default_table size ii.defblock)) t3

-- By the type of the value. A type of more than 31 bits that the machine does not know fails the
-- assert.
unfoldable emit_switch_type : InstrSwitch → IrType → (reg : ℕ) → Text → Result Text
unfolding emit_jumptable emit_switch32 emit_search emit_op2 emit_i32 emit_i8 emit_i64 vm_align32
emit_switch_type ii (intx width) reg t =
    if leb 32 width
    then err assertion
    else if leb width 4
    then emit_jumptable (2 ^ width) ii reg t
    else (emit_op2 (binop_r32c bitand) 0 reg t >>= λ t1.
        emit_i32 (2 ^ width - 1) t1 >>= λ t2. emit_switch32 (2 ^ width - 1) ii 0 t2)
emit_switch_type ii int1 reg t =
    if ltb 64 (length ii.paths)
    then emit_jumptable 256 ii reg t
    else emit_search switch8_bs emit_i8 ii reg t
emit_switch_type ii int8 reg t =
    if ltb 64 (length ii.paths)
    then emit_jumptable 256 ii reg t
    else emit_search switch8_bs emit_i8 ii reg t
emit_switch_type ii int16 reg t =
    emit_op2 (cast cast_16_trunc_32) 0 reg t >>= emit_switch32 0xffff ii 0
emit_switch_type ii int32 reg t = emit_switch32 0xffffffff ii reg t
emit_switch_type ii int64 reg t = vm_align32 1 t >>= emit_search switch64_bs emit_i64 ii reg
emit_switch_type ii it reg t = err parser_error

unfoldable pub emit_switch : IrUnit → InstrSwitch → Text → Result Text
unfolding value_get type_get value_reg emit_switch_type
emit_switch iu ii t = value_get iu ((ii.value).value) >>= λ c.
    type_get ((iu.table).types) ((ii.value).type) >>= λ cty.
    value_reg c >>= λ reg. emit_switch_type ii cty reg t

-- How a value stands in the text: by its register or by its number.
pub data Selectable : Type 0 where
  in_register : (reg : ℕ) → Selectable
  as_number unselectable : Selectable

unfoldable pub select_class : TypeCode → ValueClass → Selectable
select_class code (regframe reg) = in_register reg
select_class code (constant u64) = as_number
select_class c_pointer (globalvar ig) = as_number
select_class code class = unselectable

-- A number of a type of 32 bits or less.
unfoldable emit_masked : IrUnit → TypeCode → Value → Text → Result Text
unfolding value_get_const32 type_code_mask emit_i32
emit_masked iu code v t =
    value_get_const32 iu v >>= λ u32. emit_i32 (bit_and u32 (type_code_mask code)) t

unfoldable emit_long : IrUnit → Value → Text → Result Text
unfolding value_get_const64 emit_i64
emit_long iu v t = value_get_const64 iu v >>= λ u64. emit_i64 u64 t

unfoldable pub emit_select32 :
    IrUnit
    → TypeCode
    → (ret p : ℕ) → (tv fv : Value) → (true_class false_class : Selectable) → Text
    → Result Text
unfolding emit_op3 emit_op2 emit_i16 emit_masked
emit_select32 iu code ret p tv fv (in_register x) (in_register y) t =
    emit_op3 select32rr ret p x t >>= emit_i16 y
emit_select32 iu code ret p tv fv (in_register x) as_number t =
    emit_op3 select32rc ret p x t >>= emit_masked iu code fv
emit_select32 iu code ret p tv fv as_number (in_register y) t =
    emit_op3 select32cr ret p y t >>= emit_masked iu code tv
emit_select32 iu code ret p tv fv as_number as_number t =
    emit_op2 select32cc ret p t >>= λ t1. emit_masked iu code tv t1 >>= emit_masked iu code fv
emit_select32 iu code ret p tv fv true_class false_class t = err parser_error

unfoldable pub emit_select64 :
    IrUnit
    → (ret p : ℕ) → (tv fv : Value) → (true_class false_class : Selectable) → Text
    → Result Text
unfolding emit_op3 emit_op2 emit_i16 emit_long vm_align32
emit_select64 iu ret p tv fv (in_register x) (in_register y) t =
    emit_op3 select64rr ret p x t >>= emit_i16 y
emit_select64 iu ret p tv fv (in_register x) as_number t =
    vm_align32 0 t >>= λ t1. emit_op3 select64rc ret p x t1 >>= emit_long iu fv
emit_select64 iu ret p tv fv as_number (in_register y) t =
    vm_align32 0 t >>= λ t1. emit_op3 select64cr ret p y t1 >>= emit_long iu tv
emit_select64 iu ret p tv fv as_number as_number t = vm_align32 1 t >>= λ t1.
    emit_op2 select64cc ret p t1 >>= λ t2. emit_long iu tv t2 >>= emit_long iu fv
emit_select64 iu ret p tv fv true_class false_class t = err parser_error

unfoldable pub emit_select_code :
    IrUnit
    → TypeCode
    → (ret p : ℕ) → (tv fv : Value) → (true_class false_class : Selectable) → Text
    → Result Text
unfolding emit_select32 emit_select64
emit_select_code iu c_int8 ret p tv fv x y t = emit_select32 iu c_int8 ret p tv fv x y t
emit_select_code iu c_int16 ret p tv fv x y t = emit_select32 iu c_int16 ret p tv fv x y t
emit_select_code iu c_int32 ret p tv fv x y t = emit_select32 iu c_int32 ret p tv fv x y t
emit_select_code iu c_pointer ret p tv fv x y t = emit_select32 iu c_pointer ret p tv fv x y t
emit_select_code iu c_float ret p tv fv x y t = emit_select32 iu c_float ret p tv fv x y t
emit_select_code iu c_int64 ret p tv fv x y t = emit_select64 iu ret p tv fv x y t
emit_select_code iu c_double ret p tv fv x y t = emit_select64 iu ret p tv fv x y t
emit_select_code iu code ret p tv fv x y t = err parser_error

unfoldable pub emit_select : IrUnit → InstrSelect → Text → Result Text
unfolding value_get type_get legalize_type value_reg select_class emit_select_code
emit_select iu ii t = value_get iu ((ii.pred).value) >>= λ p.
    value_get iu ((ii.true_value).value) >>= λ tv. value_get iu ((ii.false_value).value) >>= λ fv.
    value_get iu ((ii.ret).value) >>= λ ret. type_get ((iu.table).types) ((ii.ret).type) >>= λ ty.
    value_reg ret >>= λ d. value_reg p >>= λ c.
    emit_select_code iu (legalize_type ty) d c tv fv (select_class (legalize_type ty) (tv.class))
      (select_class (legalize_type ty) (fv.class)) t
