-- ===== src/Vm/Emit/Moves/Runs.antt =====
-- src/vmir_vm.c: emit_ret and emit_move on registers and constants, and what vm_exec does with the code.
use vmir.Common.{
  ℕ, ◌+◌, ◌%◌, ◌^◌, ◌<◌, ◌≡◌, refl, ◌∙◌, ap, some, [], ◌∷◌, ◌⊎◌, inl, inr, subst, arith,
}
use vmir.Types.{ok, ◌>>=◌}
use vmir.Parser.{Value, IrUnit, value_reg, class_reg, value_get_const32, value_get_const64}
use vmir.Vm.{
  mov32, mov64, mov8_c, mov16_c, mov32_c, mov64_c, VmOp, op, half, Text, text_size, emit_op,
  emit_op1, emit_i8, emit_i16, emit_i32, emit_i64,
}
use vmir.Vm.Alu.Truncate.{n8, n16, n32}
use vmir.Vm.Frame.{Frame, rd32, rd64, wr32, wr64}
use vmir.Vm.Frame.ReadWrite.{rd64-lt, rd32-half, rd64-half, wr32-half, wr64-half}
use vmir.Vm.Exec.{next}
use vmir.Vm.Exec.Float.{Fpu}
use vmir.Vm.Exec.Step.{exec_op}
use vmir.Vm.Emit.{ValueType}
use vmir.Vm.Emit.Words.{
  Width, narrow, wide, width_bits, width_code, read, Computes, Computes-wr32, Computes-wr64,
}
use vmir.Vm.Emit.Runs.{
  Emits, Emits-seq, RunsTo, RunsTo-one, RunsTo-aligned, InReg, InConst, HasCode, width_const,
  emit_op2-Emits, emit_cells-Emits, emit_i16-Emits, halves32, halves64, halves32-sum, halves64-sum,
}
use vmir.Vm.Emit.Moves.{
  return_slot, single, move_dest, emit_move, emit_move_class, emit_move_reg, emit_move_const,
  emit_mov_c32, emit_mov_c64,
}

abbrev mov_op : Width → VmOp
mov_op (narrow n) = mov32
mov_op wide = mov64

emit_move_reg-Emits :
    (w : Width) (d s : ℕ)
    → Emits
        (emit_move_reg (return_slot (width_code w)) d s)
        (op (mov_op w) ∷ half (d % 2 ^ 16) ∷ half (s % 2 ^ 16) ∷ [])
unfolding emit_move_reg return_slot
emit_move_reg-Emits (narrow n8) d s = emit_op2-Emits mov32 d s
emit_move_reg-Emits (narrow n16) d s = emit_op2-Emits mov32 d s
emit_move_reg-Emits (narrow n32) d s = emit_op2-Emits mov32 d s
emit_move_reg-Emits wide d s = emit_op2-Emits mov64 d s

run_reg :
    (F : Fpu) (w : Width) (d s : ℕ) (t : Text) (m : Frame)
    → text_size t + 6 < t.memsize
    → RunsTo F (emit_move_reg (return_slot (width_code w)) d s) t m (Computes w m d (read w m s))
unfolding exec_op text_size
run_reg F (narrow n) d s t m room =
    RunsTo-one F mov32 (half (d % 2 ^ 16) ∷ half (s % 2 ^ 16) ∷ []) m (wr32 m d (rd32 m s))
      (emit_move_reg-Emits (narrow n) d s)
      (λ more. rw (rd32-half m s) (ap (λ f. some (next 2 f)) (wr32-half m d _)))
      (Computes-wr32 n m d _ _ refl) (omega arith) t (omega arith)
run_reg F wide d s t m room =
    RunsTo-one F mov64 (half (d % 2 ^ 16) ∷ half (s % 2 ^ 16) ∷ []) m (wr64 m d (rd64 m s))
      (emit_move_reg-Emits wide d s)
      (λ more. rw (rd64-half m s) (ap (λ f. some (next 2 f)) (wr64-half m d _)))
      (Computes-wr64 m d _ (rd64-lt m s)) (omega arith) t (omega arith)

mod8 : (c : ℕ) → c % 2 ^ 8 % 2 ^ 8 ≡ c % 2 ^ 8
mod8 c = omega arith

-- A constant of each width, the one of 64 bits at an odd place.
emit_op1-Emits : (o : VmOp) (a : ℕ) → Emits (emit_op1 o a) (op o ∷ half (a % 2 ^ 16) ∷ [])
unfolding emit_op1 emit_op
emit_op1-Emits o a = Emits-seq (emit_cells-Emits (op o ∷ [])) (emit_i16-Emits a)

run_const :
    (F : Fpu) (iu : IrUnit) (w : Width) (src : Value) (d c : ℕ) (t : Text) (m : Frame)
    → width_const w iu src ≡ ok c
    → text_size t + 14 < t.memsize
    → RunsTo F (emit_move_const iu (width_code w) d src) t m (Computes w m d (c % 2 ^ width_bits w))
unfolding exec_op text_size emit_move_const emit_mov_c32 emit_mov_c64 emit_i8 emit_i32 emit_i64
run_const F iu (narrow n8) src d c t m cr room =
    RunsTo-one F
      {f = λ t1. emit_op1 mov8_c d t1 >>= λ t2. value_get_const32 iu src >>= λ b. emit_i8 b t2}
      mov8_c (half (d % 2 ^ 16) ∷ half (c % 2 ^ 8) ∷ []) m (wr32 m d (c % 2 ^ 8))
      (λ t1 h.
        rw cr (Emits-seq (emit_op1-Emits mov8_c d) (emit_cells-Emits (half (c % 2 ^ 8) ∷ [])) t1 h))
      (λ more. rw (mod8 c) (ap (λ f. some (next 2 f)) (wr32-half m d _)))
      (Computes-wr32 n8 m d _ _ (mod8 c)) (omega arith) t (omega arith)
run_const F iu (narrow n16) src d c t m cr room =
    RunsTo-one F
      {f = λ t1. emit_op1 mov16_c d t1 >>= λ t2. value_get_const32 iu src >>= λ b. emit_i16 b t2}
      mov16_c (half (d % 2 ^ 16) ∷ half (c % 2 ^ 16) ∷ []) m (wr32 m d (c % 2 ^ 16))
      (λ t1 h. rw cr (Emits-seq (emit_op1-Emits mov16_c d) (emit_i16-Emits c) t1 h))
      (λ more. ap (λ f. some (next 2 f)) (wr32-half m d _))
      (Computes-wr32 n16 m d _ _ (omega arith)) (omega arith) t (omega arith)
run_const F iu (narrow n32) src d c t m cr room =
    RunsTo-one F {f = emit_mov_c32 iu d src} mov32_c (half (d % 2 ^ 16) ∷ halves32 c) m
      (wr32 m d (c % 2 ^ 32))
      (λ t1 h. rw cr (Emits-seq (emit_op1-Emits mov32_c d) (emit_cells-Emits (halves32 c)) t1 h))
      (λ more. rw (halves32-sum c) (ap (λ f. some (next 3 f)) (wr32-half m d _)))
      (Computes-wr32 n32 m d _ _ (omega arith)) (omega arith) t (omega arith)
run_const F iu wide src d c t m cr room =
    RunsTo-aligned F
      {f = λ t1. emit_op1 mov64_c d t1 >>= λ t2. value_get_const64 iu src >>= λ b. emit_i64 b t2}
      mov64_c (half (d % 2 ^ 16) ∷ halves64 c) m (wr64 m d (c % 2 ^ 64))
      (λ t1 h. rw cr (Emits-seq (emit_op1-Emits mov64_c d) (emit_cells-Emits (halves64 c)) t1 h))
      (λ more. rw (halves64-sum c) (ap (λ f. some (next 5 f)) (wr64-half m d _)))
      (Computes-wr64 m d _ (omega arith)) (omega arith) 0 t (omega arith)

-- What is moved: a register, or a constant of the unit.
abbrev pub Moves : IrUnit → Width → ValueType → Frame → (v : ℕ) → Type 0
Moves iu w vt m v =
    ((s : ℕ) × InReg iu vt s × (read w m s ≡ v))
    ⊎ ((c : ℕ) × InConst iu w vt c × (c % 2 ^ width_bits w ≡ v))

move_dest-reg :
    (iu : IrUnit) (ret : ValueType) (w : Width) {d : ℕ}
    → HasCode iu ret (width_code w)
    → InReg iu ret d
    → move_dest iu (single ret) ≡ ok (d, width_code w)
unfolding move_dest value_reg class_reg
move_dest-reg iu ret w {d = d} (it, it_eq, code) (dv, dv_eq, dc) =
    rw (dv_eq, it_eq, dc) (ap (λ k. ok (d, k)) code)

-- For a move to one register of 8, 16, 32 or 64 bits, from a register or a constant, in a text with
-- room for seven half words more, emit_move emits code that vm_exec runs to its end, whatever stands
-- before and after it; the register of the result then holds, in the low bits of its width, those of
-- the source, and all bytes of the frame but those of that register are as before.
pub emit_move-runs :
    (F : Fpu) (iu : IrUnit) (value ret : ValueType) (w : Width) (d v : ℕ) (t : Text) (m : Frame)
    → HasCode iu ret (width_code w)
    → InReg iu ret d
    → Moves iu w value m v
    → text_size t + 14 < t.memsize
    → RunsTo F (emit_move iu (record { value = value; ret = single ret })) t m (Computes w m d v)
unfolding emit_move emit_move_class text_size
emit_move-runs F iu value ret w d v t m code in_d (inl (s, (sv, sv_eq, sc), e)) room =
    let (t', made, short, m', post, reaches) = run_reg F w d s t m (omega arith) in
    subst
      (λ x.
        RunsTo F (emit_move iu (record { value = value; ret = single ret })) t m (Computes w m d x))
      e
      (
        t',
        rw (sv_eq, move_dest-reg iu ret w code in_d)
            (ap (λ k. emit_move_class iu (width_code w) d sv k t) sc ∙ made),
        short,
        m',
        post,
        reaches,
      )
emit_move-runs F iu value ret w d v t m code in_d (inr (c, (cv, u, cv_eq, cc_eq, cr), e)) room =
    let (t', made, short, m', post, reaches) = run_const F iu w cv d c t m cr room in
    subst
      (λ x.
        RunsTo F (emit_move iu (record { value = value; ret = single ret })) t m (Computes w m d x))
      e
      (
        t',
        rw (cv_eq, move_dest-reg iu ret w code in_d)
            (ap (λ k. emit_move_class iu (width_code w) d cv k t) cc_eq ∙ made),
        short,
        m',
        post,
        reaches,
      )
