-- ===== src/Vm/Emit/Switches/Selected.antt =====
-- src/vmir_vm.c: emit_select on two registers, and what vm_exec computes with the code.
use vmir.Common.{ℕ, ◌+◌, ◌%◌, ◌^◌, ◌<◌, ap, some, List, [], ◌∷◌, ◌==◌, if◌then◌else◌, arith}
use vmir.Parser.{Value, IrUnit, value_reg, class_reg}
use vmir.Vm.{VmOp, op, select32rr, select64rr, Cell, half, Text, text_size}
use vmir.Vm.Alu.Truncate.{n8, n16, n32}
use vmir.Vm.Frame.{Frame, rd32, rd64, wr32, wr64}
use vmir.Vm.Frame.ReadWrite.{rd64-lt, rd32-half, rd64-half, wr32-half, wr64-half}
use vmir.Vm.Exec.{next, select_word}
use vmir.Vm.Exec.Float.{Fpu}
use vmir.Vm.Exec.Step.{exec_op}
use vmir.Vm.Emit.Words.{
  Width, narrow, wide, width_code, read, Computes, Computes-wr32, Computes-wr64,
}
use vmir.Vm.Emit.Runs.{
  Emits, Emits-seq, emit_op3-Emits, emit_i16-Emits, RunsTo, RunsTo-one, InReg, HasCode,
}
use vmir.Vm.Emit.Switches.{
  InstrSelect, emit_select, emit_select_code, select_class, in_register, emit_select32,
  emit_select64,
}

-- What the machine stores, and what is read of it.
abbrev chosen : (c x y : ℕ) → ℕ
chosen c x y = if c == 0 then y else x

abbrev select_op : Width → VmOp
select_op (narrow n) = select32rr
select_op wide = select64rr

abbrev args : (d p x y : ℕ) → List Cell
args d p x y = half (d % 2 ^ 16) ∷ half (p % 2 ^ 16) ∷ half (x % 2 ^ 16) ∷ half (y % 2 ^ 16) ∷ []

select_code-Emits :
    (iu : IrUnit) (w : Width) (d p x y : ℕ) (tv fv : Value)
    → Emits
        (emit_select_code iu (width_code w) d p tv fv (in_register x) (in_register y))
        (op (select_op w) ∷ args d p x y)
unfolding emit_select_code emit_select32 emit_select64
select_code-Emits iu (narrow n8) d p x y tv fv =
    Emits-seq (emit_op3-Emits select32rr d p x) (emit_i16-Emits y)
select_code-Emits iu (narrow n16) d p x y tv fv =
    Emits-seq (emit_op3-Emits select32rr d p x) (emit_i16-Emits y)
select_code-Emits iu (narrow n32) d p x y tv fv =
    Emits-seq (emit_op3-Emits select32rr d p x) (emit_i16-Emits y)
select_code-Emits iu wide d p x y tv fv =
    Emits-seq (emit_op3-Emits select64rr d p x) (emit_i16-Emits y)

emit_select-Emits :
    (iu : IrUnit) (ii : InstrSelect) (w : Width) {d p x y : ℕ}
    → HasCode iu (ii.ret) (width_code w)
    → InReg iu (ii.pred) p
    → InReg iu (ii.true_value) x
    → InReg iu (ii.false_value) y
    → InReg iu (ii.ret) d
    → Emits (emit_select iu ii) (op (select_op w) ∷ args d p x y)
unfolding emit_select value_reg class_reg select_class
emit_select-Emits iu ii w {d = d} {p = p} {x = x} {y = y} (it, it_eq, code) (pv, p_eq, pc)
      (tv, t_eq, tc) (fv, f_eq, fc) (ret, r_eq, rc) t room =
    rw (p_eq, t_eq, f_eq, r_eq, it_eq, rc, pc, tc, fc, code)
      (select_code-Emits iu w d p x y _ _ t room)

-- For a condition and two values of 8, 16, 32 or 64 bits in registers, in a text with room for five
-- half words more, emit_select emits code that vm_exec runs to its end, whatever stands before and
-- after it; the register of the result then holds the second value if the word of the condition is 0
-- and the first if not, and all bytes of the frame but those of that register are as before.
pub emit_select-runs :
    (F : Fpu) (iu : IrUnit) (ii : InstrSelect) (w : Width) (d p x y : ℕ) (t : Text) (m : Frame)
    → HasCode iu (ii.ret) (width_code w)
    → InReg iu (ii.pred) p
    → InReg iu (ii.true_value) x
    → InReg iu (ii.false_value) y
    → InReg iu (ii.ret) d
    → text_size t + 10 < t.memsize
    → RunsTo F
        (emit_select iu ii)
        t
        m
        (Computes w m d (if rd32 m p == 0 then read w m y else read w m x))
unfolding text_size exec_op select_word
emit_select-runs F iu ii (narrow n) d p x y t m code in_p in_x in_y in_d room =
    RunsTo-one F select32rr (args d p x y) m (wr32 m d (chosen (rd32 m p) (rd32 m x) (rd32 m y)))
      (emit_select-Emits iu ii (narrow n) code in_p in_x in_y in_d)
      (λ more.
        rw (rd32-half m p, rd32-half m x, rd32-half m y)
          (ap (λ f. some (next 4 f)) (wr32-half m d _)))
      (Computes-wr32 n m d _ _ (ground arith)) (omega arith) t (omega arith)
emit_select-runs F iu ii wide d p x y t m code in_p in_x in_y in_d room =
    RunsTo-one F select64rr (args d p x y) m (wr64 m d (chosen (rd32 m p) (rd64 m x) (rd64 m y)))
      (emit_select-Emits iu ii wide code in_p in_x in_y in_d)
      (λ more.
        rw (rd32-half m p, rd64-half m x, rd64-half m y)
          (ap (λ f. some (next 4 f)) (wr64-half m d _)))
      (Computes-wr64 m d _ (ground (arith, rd64-lt m x, rd64-lt m y))) (omega arith) t (omega arith)
