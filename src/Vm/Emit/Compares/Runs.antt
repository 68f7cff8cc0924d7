-- ===== src/Vm/Emit/Compares/Runs.antt =====
-- src/vmir_vm.c: emit_cmp2 on integers, and what vm_exec computes with the code.
use vmir.Common.{
  ℕ, ◌+◌, ◌%◌, ◌^◌, ◌<◌, ◌≡◌, refl, ap, some, List, [], ◌∷◌, Bool, true, false, arith,
}
use native.Mathlib.Nat.{mod-eq_of_lt}
use vmir.Types.{ok}
use vmir.Parser.{IrUnit, value_reg, class_reg}
use vmir.Vm.{IcmpPred, icmp, VmOp, cmp8, cmp16, cmp32, cmp64, Cell, op, half, Text, text_size}
use vmir.Vm.Alu.{c_compare}
use vmir.Vm.Alu.Truncate.{n8, n16, n32}
use vmir.Vm.Frame.{Frame, wr32}
use vmir.Vm.Frame.ReadWrite.{rd32-lt, rd32-half, rd64-half, wr32-half}
use vmir.Vm.Exec.{next, bit}
use vmir.Vm.Exec.Compare.{compare_words, exec_cmp8, exec_cmp16, exec_cmp32, exec_cmp64}
use vmir.Vm.Exec.Float.{Fpu}
use vmir.Vm.Exec.Step.{exec_op}
use vmir.Vm.Emit.{InstrCmp}
use vmir.Vm.Emit.Words.{Width, narrow, wide, width_bits, width_code, read, Computes, Computes-wr32}
use vmir.Vm.Emit.Runs.{Emits, RunsTo, RunsTo-one, InReg, HasCode, emit_op3-Emits}
use vmir.Vm.Emit.Compares.{swap_icmp, cmp_reg_op, emit_cmp2_classes, emit_cmp2}

-- A comparison with its operands swapped.
pub c_compare-swap_icmp :
    (w : ℕ) (p : IcmpPred) (a b : ℕ) → c_compare w (swap_icmp p) b a ≡ c_compare w p a b
unfolding c_compare swap_icmp
c_compare-swap_icmp w p a b = ground arith

abbrev cmp_op : Width → IcmpPred → VmOp
cmp_op (narrow n8) p = cmp8 p
cmp_op (narrow n16) p = cmp16 p
cmp_op (narrow n32) p = cmp32 p
cmp_op wide p = cmp64 p

cmp_reg_op-width : (w : Width) (p : IcmpPred) → cmp_reg_op (icmp p) (width_code w) ≡ ok (cmp_op w p)
unfolding cmp_reg_op
cmp_reg_op-width (narrow n8) p = refl
cmp_reg_op-width (narrow n16) p = refl
cmp_reg_op-width (narrow n32) p = refl
cmp_reg_op-width wide p = refl

emit_cmp2-Emits :
    (F : Fpu) (iu : IrUnit) (ii : InstrCmp) (w : Width) (p : IcmpPred) {d l r : ℕ}
    → ii.op ≡ icmp p
    → HasCode iu (ii.lhs_value) (width_code w)
    → InReg iu (ii.lhs_value) l
    → InReg iu (ii.rhs_value) r
    → InReg iu (ii.ret) d
    → Emits
        (emit_cmp2 F iu ii)
        (op (cmp_op w p) ∷ half (d % 2 ^ 16) ∷ half (l % 2 ^ 16) ∷ half (r % 2 ^ 16) ∷ [])
unfolding emit_cmp2 emit_cmp2_classes value_reg class_reg
emit_cmp2-Emits F iu ii w p {d = d} {l = l} {r = r} op_eq (it, it_eq, code) (lhs, lhs_eq, lc)
      (rhs, rhs_eq, rc) (ret, ret_eq, dc) t room =
    rw (lhs_eq, rhs_eq, ret_eq, it_eq, lc, rc, code, op_eq, cmp_reg_op-width w p, dc)
      (emit_op3-Emits (cmp_op w p) d l r t room)

exec-cmp_op :
    (F : Fpu) (w : Width) (p : IcmpPred) (d l r : ℕ) (more : List Cell) (m : Frame)
    → exec_op F (cmp_op w p) (half (d % 2 ^ 16) ∷ half (l % 2 ^ 16) ∷ half (r % 2 ^ 16) ∷ more) m
      ≡ some (next 3 (wr32 m d (bit (c_compare (width_bits w) p (read w m l) (read w m r)))))
unfolding exec_op exec_cmp8 exec_cmp16 exec_cmp32 exec_cmp64 compare_words
exec-cmp_op F (narrow n8) p d l r more m =
    rw (rd32-half m l, rd32-half m r) (ap (λ f. some (next 3 f)) (wr32-half m d _))
exec-cmp_op F (narrow n16) p d l r more m =
    rw (rd32-half m l, rd32-half m r) (ap (λ f. some (next 3 f)) (wr32-half m d _))
exec-cmp_op F (narrow n32) p d l r more m =
    rw (rd32-half m l, rd32-half m r, mod-eq_of_lt (rd32-lt m l), mod-eq_of_lt (rd32-lt m r))
      (ap (λ f. some (next 3 f)) (wr32-half m d _))
exec-cmp_op F wide p d l r more m =
    rw (rd64-half m l, rd64-half m r) (ap (λ f. some (next 3 f)) (wr32-half m d _))

pub bit-lt : (c : Bool) → bit c % 2 ^ 32 ≡ bit c
bit-lt true = refl
bit-lt false = refl

-- For two registers of 8, 16, 32 or 64 bits and an integer predicate, in a text with room for four
-- half words more, emit_cmp2 emits code that vm_exec runs to its end, whatever stands before and
-- after it; the register of the result then holds 1 if C compares the words of that width in the
-- low bits of the operands so, and 0 if not, and all bytes of the frame but the 4 of that register
-- are as before.
pub emit_cmp2-reg_runs :
    (F : Fpu) (iu : IrUnit) (ii : InstrCmp) (w : Width) (p : IcmpPred) (d l r : ℕ) (t : Text)
    (m : Frame)
    → ii.op ≡ icmp p
    → HasCode iu (ii.lhs_value) (width_code w)
    → InReg iu (ii.lhs_value) l
    → InReg iu (ii.rhs_value) r
    → InReg iu (ii.ret) d
    → text_size t + 8 < t.memsize
    → RunsTo F
        (emit_cmp2 F iu ii)
        t
        m
        (Computes (narrow n32) m d (bit (c_compare (width_bits w) p (read w m l) (read w m r))))
unfolding text_size
emit_cmp2-reg_runs F iu ii w p d l r t m op_eq code in_l in_r in_d room =
    let c = c_compare (width_bits w) p (read w m l) (read w m r) in
    RunsTo-one F (cmp_op w p) (half (d % 2 ^ 16) ∷ half (l % 2 ^ 16) ∷ half (r % 2 ^ 16) ∷ []) m
      (wr32 m d (bit c)) (emit_cmp2-Emits F iu ii w p op_eq code in_l in_r in_d)
      (λ more. exec-cmp_op F w p d l r more m) (Computes-wr32 n32 m d (bit c) (bit c) (bit-lt c))
      (omega arith) t (omega arith)
