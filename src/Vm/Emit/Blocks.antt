-- ===== src/Vm/Emit/Blocks.antt =====
-- src/vmir_vm.c: instr_emit, the code of a basic block one instruction after another.
pub mod Runs
use vmir.Common.{ℕ, Option, List, [], ◌∷◌}
use vmir.Types.{Result, ok, ◌>>=◌}
use vmir.Parser.{IrUnit}
use vmir.Vm.{Text}
use vmir.Vm.Exec.Float.{Fpu}
use vmir.Vm.Emit.{ValueType, InstrBinop, InstrCmp}
use vmir.Vm.Emit.Binops.{emit_binop}
use vmir.Vm.Emit.Compares.{emit_cmp2}
use vmir.Vm.Emit.Moves.{InstrMove, emit_move, emit_ret}
use vmir.Vm.Emit.Casts.{InstrCast, emit_cast}
use vmir.Vm.Emit.Branches.{InstrBr, InstrCmpBranch, emit_br, emit_cmp_branch}
use vmir.Vm.Emit.Selects.{InstrCmpSelect, emit_cmp_select}
use vmir.Vm.Emit.Switches.{InstrSwitch, InstrSelect, emit_switch, emit_select}

-- The classes of ir_instr_t whose emitters are modelled.
pub data Instr : Type 0 where
  ic_ret : Option ValueType → Instr
  ic_binop : InstrBinop → Instr
  ic_cmp2 : InstrCmp → Instr
  ic_br : InstrBr → Instr
  ic_move : InstrMove → Instr
  ic_switch : InstrSwitch → Instr
  ic_cast : InstrCast → Instr
  ic_select : InstrSelect → Instr
  ic_cmp_branch : InstrCmpBranch → Instr
  ic_cmp_select : InstrCmpSelect → Instr

module _ (F : Fpu) (iu : IrUnit) (follows : Option ℕ) where
  -- One turn of the loop.
  unfoldable pub emit_instr : Instr → Text → Result Text
  unfolding emit_ret emit_binop emit_cmp2 emit_br emit_move emit_cast emit_cmp_branch
      emit_cmp_select emit_switch emit_select
  emit_instr (ic_ret value) t = emit_ret iu value t
  emit_instr (ic_binop ii) t = emit_binop iu ii t
  emit_instr (ic_cmp2 ii) t = emit_cmp2 F iu ii t
  emit_instr (ic_br ii) t = emit_br iu ii follows t
  emit_instr (ic_move ii) t = emit_move iu ii t
  emit_instr (ic_switch ii) t = emit_switch iu ii t
  emit_instr (ic_cast ii) t = emit_cast iu ii t
  emit_instr (ic_select ii) t = emit_select iu ii t
  emit_instr (ic_cmp_branch ii) t = emit_cmp_branch iu ii t
  emit_instr (ic_cmp_select ii) t = emit_cmp_select iu ii t

  unfoldable pub instr_emit : List Instr → Text → Result Text
  unfolding emit_instr
  instr_emit [] t = ok t
  instr_emit (ii ∷ instrs) t = emit_instr ii t >>= instr_emit instrs
