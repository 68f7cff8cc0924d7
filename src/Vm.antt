-- ===== src/Vm.antt =====
-- src/vmir_vm.h and the head of the emitter in src/vmir_vm.c: the opcodes of the virtual machine, and
-- the text of a function that they are written to.
pub mod Alu
pub mod Frame
pub mod Exec
pub mod Emit
use vmir.Common.{
  ℕ, ◌+◌, ◌*◌, ◌/◌, ◌%◌, ◌^◌, Bool, true, false, List, [], ◌∷◌, ◌++◌, leb, ◌==◌, if◌then◌else◌,
  length,
}
use vmir.Types.{Result, ok, err, ◌>>=◌, parser_error}

-- BINOP_ADD to BINOP_XOR, in their order.
pub data Binop : Type 0 where
  add sub mul udiv sdiv urem srem shl lshr ashr bitand bitor bitxor : Binop

-- ICMP_EQ to ICMP_SLE.
pub data IcmpPred : Type 0 where
  eq ne ugt uge ult ule sgt sge slt sle : IcmpPred

-- FCMP_OEQ to FCMP_UNE.
pub data FcmpPred : Type 0 where
  oeq ogt oge olt ole fone ord uno ueq fugt fuge fult fule une : FcmpPred

-- `pred` of a comparison: FCMP_FALSE, FCMP_TRUE and any other number are `other`.
pub data Pred : Type 0 where
  icmp : IcmpPred → Pred
  fcmp : FcmpPred → Pred
  fcmp_false fcmp_true other : Pred

-- The four operations of the _DBL and _FLT instructions.
pub data Farith : Type 0 where
  fadd fsub fmul fdiv : Farith

-- VM_CAST_1_TRUNC_8 to VM_CAST_DBL_FPEXT_FLT: the result, the operation, the operand.
pub data CastOp : Type 0 where
  cast_1_trunc_8 cast_1_trunc_16 : CastOp
  cast_8_zext_1 cast_8_sext_1 cast_8_trunc_16 cast_8_trunc_32 cast_8_trunc_64 : CastOp
  cast_16_zext_1 cast_16_zext_8 cast_16_sext_8 cast_16_trunc_32 cast_16_trunc_64 : CastOp
  cast_16_fptosi_flt cast_16_fptoui_flt cast_16_fptosi_dbl cast_16_fptoui_dbl : CastOp
  cast_32_trunc_64 cast_32_sext_1 cast_32_zext_8 cast_32_sext_8 cast_32_zext_16 : CastOp
  cast_32_sext_16 : CastOp
  cast_32_fptosi_flt cast_32_fptoui_flt cast_32_fptosi_dbl cast_32_fptoui_dbl : CastOp
  cast_64_zext_1 cast_64_sext_1 cast_64_zext_8 cast_64_sext_8 cast_64_zext_16 : CastOp
  cast_64_sext_16 cast_64_zext_32 cast_64_sext_32 : CastOp
  cast_64_fptosi_flt cast_64_fptoui_flt cast_64_fptosi_dbl cast_64_fptoui_dbl : CastOp
  cast_flt_fptrunc_dbl cast_flt_sitofp_8 cast_flt_uitofp_8 cast_flt_sitofp_16 : CastOp
  cast_flt_uitofp_16 cast_flt_sitofp_32 cast_flt_uitofp_32 cast_flt_sitofp_64 : CastOp
  cast_flt_uitofp_64 : CastOp
  cast_dbl_fpext_flt cast_dbl_sitofp_8 cast_dbl_uitofp_8 cast_dbl_sitofp_16 : CastOp
  cast_dbl_uitofp_16 cast_dbl_sitofp_32 cast_dbl_uitofp_32 cast_dbl_sitofp_64 : CastOp
  cast_dbl_uitofp_64 : CastOp

-- vm_op_t. Opcodes that the enum keeps in the order of another enum, so that the emitter may add to
-- the first of them, are one constructor over that enum.
pub data VmOp : Type 0 where
  nop ret_void ret_r32 ret_r64 ret_r32c ret_r64c : VmOp
  sdiv_r8 srem_r8 ashr_r8 sdiv_r8c srem_r8c ashr_r8c sdiv_r16 srem_r16 ashr_r16 : VmOp
  binop_r16c binop_r32 : Binop → VmOp
  inc_r32 dec_r32 : VmOp
  binop_r32c binop_r64 binop_r64c : Binop → VmOp
  arith_dbl arith_dblc arith_flt arith_fltc : Farith → VmOp
  cmp8 cmp8_c cmp16 cmp16_c cmp32 cmp32_c cmp64 cmp64_c : IcmpPred → VmOp
  cmp_dbl cmp_dbl_c cmp_flt cmp_flt_c : FcmpPred → VmOp
  cmp8_br cmp8_c_br cmp32_br cmp32_c_br : IcmpPred → VmOp
  cmp32_sel cmp32_c_sel : IcmpPred → VmOp
  select32rr select32rc select32cr select32cc select64rr select64rc select64cr select64cc : VmOp
  br bcond jumptable switch8_bs switch32_bs switch64_bs : VmOp
  mov32 mov64 mov8_c mov16_c mov32_c mov64_c : VmOp
  cast : CastOp → VmOp

-- A half word of the text: an opcode as `vm_resolve` writes it, a branch that `branch_fixup` has still
-- to resolve, or a number.
pub data Cell : Type 0 where
  op : VmOp → Cell
  unresolved : VmOp → Cell
  half : (bits : ℕ) → Cell

-- iu_text_alloc up to iu_text_ptr, in half words, iu_text_alloc_memsize, and iu_branch_fixups.
pub record Text : Type 0 where
  pub cells : List Cell
  pub memsize : ℕ
  pub branch_fixups : List ℕ

-- iu_text_ptr - iu_text_alloc
unfoldable pub text_size : Text → ℕ
text_size t = 2 * length t.cells

-- The check of every emitter, and the half words that `n` bytes take.
unfoldable pub emit_cells : (n : ℕ) → List Cell → Text → Result Text
unfolding text_size
emit_cells n cs t =
    if leb t.memsize (text_size t + n)
    then err parser_error
    else ok (record t { cells = t.cells ++ cs })

unfoldable pub emit_i16 : ℕ → Text → Result Text
unfolding emit_cells
emit_i16 i16 t = emit_cells 2 (half (i16 % 2 ^ 16) ∷ []) t

-- The byte above is left as it was; it is read by no instruction.
unfoldable pub emit_i8 : ℕ → Text → Result Text
unfolding emit_cells
emit_i8 i8 t = emit_cells 2 (half (i8 % 2 ^ 8) ∷ []) t

unfoldable pub emit_i32 : ℕ → Text → Result Text
unfolding emit_cells
emit_i32 i32 t = emit_cells 4 (half (i32 % 2 ^ 16) ∷ half (i32 / 2 ^ 16 % 2 ^ 16) ∷ []) t

unfoldable pub emit_i64 : ℕ → Text → Result Text
unfolding emit_cells
emit_i64 i64 t =
    emit_cells 8
      (half (i64 % 2 ^ 16)
        ∷ half (i64 / 2 ^ 16 % 2 ^ 16)
        ∷ half (i64 / 2 ^ 32 % 2 ^ 16)
        ∷ half (i64 / 2 ^ 48 % 2 ^ 16)
        ∷ [])
      t

-- emit_i16(iu, vm_resolve(op))
unfoldable pub emit_op : VmOp → Text → Result Text
unfolding emit_cells
emit_op o t = emit_cells 2 (op o ∷ []) t

-- emit_i16(iu, op), of a branch.
unfoldable pub emit_branch : VmOp → Text → Result Text
unfolding emit_cells
emit_branch o t = emit_cells 2 (unresolved o ∷ []) t

unfoldable pub emit_op1 : VmOp → ℕ → Text → Result Text
unfolding emit_op emit_i16
emit_op1 o a t = emit_op o t >>= λ t1. emit_i16 a t1

unfoldable pub emit_op2 : VmOp → ℕ → ℕ → Text → Result Text
unfolding emit_op1 emit_i16
emit_op2 o a1 a2 t = emit_op1 o a1 t >>= λ t1. emit_i16 a2 t1

unfoldable pub emit_op3 : VmOp → ℕ → ℕ → ℕ → Text → Result Text
unfolding emit_op2 emit_i16
emit_op3 o a1 a2 a3 t = emit_op2 o a1 a2 t >>= λ t1. emit_i16 a3 t1

-- vm_align32. The text is allocated at an even word, so the parity of the pointer is that of the text.
unfoldable pub vm_align32 : (imm_at_odd : ℕ) → Text → Result Text
unfolding emit_op
vm_align32 imm_at_odd t = if imm_at_odd == length t.cells % 2 then ok t else emit_op nop t
