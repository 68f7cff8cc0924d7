-- ===== src/Vm/Exec/Step.antt =====
-- src/vmir_vm.c: vm_exec, its dispatch on the opcode and its run through a text.
use vmir.Common.{
  ℕ, zero, suc, ◌+◌, ◌-◌, ◌*◌, ◌/◌, ◌%◌, ◌^◌, ◌≡◌, Option, none, some, List, [], ◌∷◌, leb, ◌==◌,
  if◌then◌else◌,
}
use vmir.Vm.{
  VmOp, nop, ret_void, ret_r32, ret_r64, ret_r32c, ret_r64c, sdiv_r8, srem_r8, ashr_r8, sdiv_r8c,
  srem_r8c, ashr_r8c, sdiv_r16, srem_r16, ashr_r16, binop_r16c, binop_r32, inc_r32, dec_r32,
  binop_r32c, binop_r64, binop_r64c, arith_dbl, arith_dblc, arith_flt, arith_fltc, cmp8, cmp8_c,
  cmp16, cmp16_c, cmp32, cmp32_c, cmp64, cmp64_c, cmp_dbl, cmp_dbl_c, cmp_flt, cmp_flt_c, cmp8_br,
  cmp8_c_br, cmp32_br, cmp32_c_br, cmp32_sel, cmp32_c_sel, select32rr, select32rc, select32cr,
  select32cc, select64rr, select64rc, select64cr, select64cc, br, bcond, jumptable, switch8_bs,
  switch32_bs, switch64_bs, mov32, mov64, mov8_c, mov16_c, mov32_c, mov64_c, cast, sdiv, srem, ashr,
  Cell, op,
}
use vmir.Vm.Frame.{Frame}
use vmir.Vm.Exec.{
  Effect, next, jump, return_void, return32, return64, ◌>>?◌, cell_arg, imm8, imm32, imm64, reg8,
  reg32, reg64, ar32, ar64, select_word, exec_ret_r32, exec_ret_r64, exec_bcond, exec_jumptable,
}
use vmir.Vm.Exec.Binary.{
  exec_r8, exec_r8c, exec_r16, exec_r16c, exec_r32, exec_r32c, exec_r64, exec_r64c, exec_inc,
  exec_dec,
}
use vmir.Vm.Exec.Compare.{
  exec_cmp8, exec_cmp8_c, exec_cmp16, exec_cmp16_c, exec_cmp32, exec_cmp32_c, exec_cmp64,
  exec_cmp64_c, exec_cmp_br, exec_cmp_sel,
}
use vmir.Vm.Exec.Float.{
  Fpu, exec_arith_dbl, exec_arith_dblc, exec_arith_flt, exec_arith_fltc, exec_cmp_dbl,
  exec_cmp_dbl_c, exec_cmp_flt, exec_cmp_flt_c,
}
use vmir.Vm.Exec.Casts.{exec_cast}
use vmir.Vm.Exec.Search.{exec_switch8, exec_switch32, exec_switch64}

module _ (F : Fpu) where
  -- One instruction, on the text past its opcode.
  unfoldable pub exec_op : VmOp → List Cell → Frame → Option Effect
  unfolding cell_arg imm8 imm32 imm64 reg8 reg32 reg64 ar32 ar64 select_word exec_ret_r32
      exec_ret_r64 exec_bcond exec_jumptable exec_r8 exec_r8c exec_r16 exec_r16c exec_r32 exec_r32c
      exec_r64 exec_r64c exec_inc exec_dec exec_cmp8 exec_cmp8_c exec_cmp16 exec_cmp16_c exec_cmp32
      exec_cmp32_c exec_cmp64 exec_cmp64_c exec_cmp_br exec_cmp_sel exec_arith_dbl exec_arith_dblc
      exec_arith_flt exec_arith_fltc exec_cmp_dbl exec_cmp_dbl_c exec_cmp_flt exec_cmp_flt_c
      exec_cast exec_switch8 exec_switch32 exec_switch64
  exec_op nop I m = some (next 0 m)
  exec_op ret_void I m = some return_void
  exec_op ret_r32 I m = exec_ret_r32 I m
  exec_op ret_r64 I m = exec_ret_r64 I m
  exec_op ret_r32c I m = imm32 I 0 >>? λ v. some (return32 v)
  exec_op ret_r64c I m = imm64 I 0 >>? λ v. some (return64 v)
  exec_op sdiv_r8 I m = exec_r8 sdiv I m
  exec_op srem_r8 I m = exec_r8 srem I m
  exec_op ashr_r8 I m = exec_r8 ashr I m
  exec_op sdiv_r8c I m = exec_r8c sdiv I m
  exec_op srem_r8c I m = exec_r8c srem I m
  exec_op ashr_r8c I m = exec_r8c ashr I m
  exec_op sdiv_r16 I m = exec_r16 sdiv I m
  exec_op srem_r16 I m = exec_r16 srem I m
  exec_op ashr_r16 I m = exec_r16 ashr I m
  exec_op (binop_r16c o) I m = exec_r16c o I m
  exec_op (binop_r32 o) I m = exec_r32 o I m
  exec_op inc_r32 I m = exec_inc I m
  exec_op dec_r32 I m = exec_dec I m
  exec_op (binop_r32c o) I m = exec_r32c o I m
  exec_op (binop_r64 o) I m = exec_r64 o I m
  exec_op (binop_r64c o) I m = exec_r64c o I m
  exec_op (arith_dbl o) I m = exec_arith_dbl F o I m
  exec_op (arith_dblc o) I m = exec_arith_dblc F o I m
  exec_op (arith_flt o) I m = exec_arith_flt F o I m
  exec_op (arith_fltc o) I m = exec_arith_fltc F o I m
  exec_op (cmp8 p) I m = exec_cmp8 p I m
  exec_op (cmp8_c p) I m = exec_cmp8_c p I m
  exec_op (cmp16 p) I m = exec_cmp16 p I m
  exec_op (cmp16_c p) I m = exec_cmp16_c p I m
  exec_op (cmp32 p) I m = exec_cmp32 p I m
  exec_op (cmp32_c p) I m = exec_cmp32_c p I m
  exec_op (cmp64 p) I m = exec_cmp64 p I m
  exec_op (cmp64_c p) I m = exec_cmp64_c p I m
  exec_op (cmp_dbl p) I m = exec_cmp_dbl F p I m
  exec_op (cmp_dbl_c p) I m = exec_cmp_dbl_c F p I m
  exec_op (cmp_flt p) I m = exec_cmp_flt F p I m
  exec_op (cmp_flt_c p) I m = exec_cmp_flt_c F p I m
  exec_op (cmp8_br p) I m = exec_cmp_br p 8 (reg8 I m 2) (reg8 I m 3) I m
  exec_op (cmp8_c_br p) I m = exec_cmp_br p 8 (reg8 I m 2) (imm8 I 3) I m
  exec_op (cmp32_br p) I m = exec_cmp_br p 32 (reg32 I m 2) (reg32 I m 3) I m
  exec_op (cmp32_c_br p) I m = exec_cmp_br p 32 (reg32 I m 2) (imm32 I 3) I m
  exec_op (cmp32_sel p) I m = exec_cmp_sel p (reg32 I m 4) 5 I m
  exec_op (cmp32_c_sel p) I m = exec_cmp_sel p (imm32 I 4) 6 I m
  exec_op select32rr I m = ar32 I m 4 (select_word I m (reg32 I m 2) (reg32 I m 3))
  exec_op select32rc I m = ar32 I m 5 (select_word I m (reg32 I m 2) (imm32 I 3))
  exec_op select32cr I m = ar32 I m 5 (select_word I m (imm32 I 3) (reg32 I m 2))
  exec_op select32cc I m = ar32 I m 6 (select_word I m (imm32 I 2) (imm32 I 4))
  exec_op select64rr I m = ar64 I m 4 (select_word I m (reg64 I m 2) (reg64 I m 3))
  exec_op select64rc I m = ar64 I m 7 (select_word I m (reg64 I m 2) (imm64 I 3))
  exec_op select64cr I m = ar64 I m 7 (select_word I m (imm64 I 3) (reg64 I m 2))
  exec_op select64cc I m = ar64 I m 10 (select_word I m (imm64 I 2) (imm64 I 6))
  exec_op br I m = cell_arg I 0 >>? λ off. some (jump off m)
  exec_op bcond I m = exec_bcond I m
  exec_op jumptable I m = exec_jumptable I m
  exec_op switch8_bs I m = exec_switch8 I m
  exec_op switch32_bs I m = exec_switch32 I m
  exec_op switch64_bs I m = exec_switch64 I m
  exec_op mov32 I m = ar32 I m 2 (reg32 I m 1)
  exec_op mov64 I m = ar64 I m 2 (reg64 I m 1)
  exec_op mov8_c I m = ar32 I m 2 (imm8 I 1)
  exec_op mov16_c I m = ar32 I m 2 (cell_arg I 1)
  exec_op mov32_c I m = ar32 I m 3 (imm32 I 1)
  exec_op mov64_c I m = ar64 I m 5 (imm64 I 1)
  exec_op (cast o) I m = exec_cast F o I m

-- The half words from place `pc` on.
abbrev pub drop : ℕ → List Cell → List Cell
drop zero cells = cells
drop (suc n) [] = []
drop (suc n) (c ∷ cells) = drop n cells

-- Where a branch by `offset` bytes leads from the half word `at`: nowhere before the text or between
-- two half words.
unfoldable pub target : (at offset : ℕ) → Option ℕ
target at offset =
    let place = 2 * at + (offset + 2 ^ 15) % 2 ^ 16 in
    if leb (2 ^ 15) place
    then (if place % 2 == 0 then some ((place - 2 ^ 15) / 2) else none)
    else none

-- A frame at a place of the text, or what the function returned.
pub data State : Type 0 where
  at : (pc : ℕ) → Frame → State
  returned : Effect → State

unfoldable pub advance : ℕ → Effect → Option State
unfolding target
advance pc (next skip m) = some (at (suc pc + skip) m)
advance pc (jump offset m) = target (suc pc) offset >>? λ pc'. some (at pc' m)
advance pc o = some (returned o)

module _ (F : Fpu) (text : List Cell) where
  -- The opcode at `pc` is fetched and executed. What is no opcode stops the machine.
  unfoldable pub fetch : ℕ → List Cell → Frame → Option State
  unfolding exec_op advance
  fetch pc (op o ∷ I) m = exec_op F o I m >>? advance pc
  fetch pc cells m = none

  unfoldable pub step : ℕ → Frame → Option State
  unfolding fetch
  step pc m = fetch pc (drop pc text) m

  -- What the loop of vm_exec reaches.
  pub data Reaches : ℕ → Frame → State → Type 0 where
    here : {pc : ℕ} {m : Frame} → Reaches pc m (at pc m)
    stops :
        {pc : ℕ} {m : Frame} {o : Effect}
        → step pc m ≡ some (returned o)
        → Reaches pc m (returned o)
    steps :
        {pc pc' : ℕ} {m m' : Frame} {s : State}
        → step pc m ≡ some (at pc' m')
        → Reaches pc' m' s
        → Reaches pc m s
