-- ===== src/Vm/Emit/Compares/Consts.antt =====
-- src/vmir_vm.c: emit_cmp2 on a register and a constant, in either order.
use vmir.Common.{ℕ, ◌+◌, ◌%◌, ◌^◌, ◌<◌, ◌≡◌, refl, ◌∙◌, ap, some, [], ◌∷◌, arith, subst}
use native.Mathlib.Nat.{mod-eq_of_lt}
use vmir.Types.{ok, legalize_type}
use vmir.Parser.{Value, constant, IrUnit, value_reg, class_reg}
use vmir.Vm.{IcmpPred, icmp, cmp8_c, cmp16_c, cmp32_c, cmp64_c, half, Text, text_size}
use vmir.Vm.Alu.{c_compare}
use vmir.Vm.Alu.Truncate.{n8, n16, n32}
use vmir.Vm.Frame.{Frame, wr32}
use vmir.Vm.Frame.ReadWrite.{rd32-lt, rd32-half, rd64-half, wr32-half}
use vmir.Vm.Exec.{next, bit}
use vmir.Vm.Exec.Compare.{compare_words, exec_cmp8_c, exec_cmp16_c, exec_cmp32_c, exec_cmp64_c}
use vmir.Vm.Exec.Float.{Fpu}
use vmir.Vm.Exec.Step.{exec_op}
use vmir.Vm.Emit.{InstrCmp, emit_reg_imm64}
use vmir.Vm.Emit.Words.{Width, narrow, wide, width_bits, width_code, read, Computes, Computes-wr32}
use vmir.Vm.Emit.Runs.{
  RunsTo, RunsTo-one, RunsTo-aligned, InReg, InConst, HasCode, width_const, emit_reg_imm8-Emits,
  emit_reg_imm16-Emits, emit_reg_imm32-Emits, emit_op_imm64-Emits, halves32, halves64, halves32-sum,
  halves64-sum,
}
use vmir.Vm.Emit.Compares.{swap_icmp, swap_pred, emit_cmp_const, emit_cmp2_classes, emit_cmp2}
use vmir.Vm.Emit.Compares.Runs.{c_compare-swap_icmp, bit-lt}

mod8 : (c : ℕ) → c % 2 ^ 8 % 2 ^ 8 ≡ c % 2 ^ 8
mod8 c = omega arith

-- What the result of a comparison is.
abbrev outcome : (w : Width) → IcmpPred → Frame → (l c : ℕ) → ℕ
outcome w p m l c = bit (c_compare (width_bits w) p (read w m l) (c % 2 ^ width_bits w))

run_const :
    (F : Fpu) (iu : IrUnit) (w : Width) (p : IcmpPred) (ret rhs : Value) (d l c u : ℕ) (t : Text)
    (m : Frame)
    → value_reg ret ≡ ok d
    → text_size t + 16 < t.memsize
    → width_const w iu rhs ≡ ok c
    → RunsTo F
        (emit_cmp_const F iu (icmp p) (width_code w) ret l rhs u)
        t
        m
        (Computes (narrow n32) m d (outcome w p m l c))
unfolding emit_cmp_const exec_op exec_cmp8_c exec_cmp16_c exec_cmp32_c exec_cmp64_c compare_words
    text_size emit_reg_imm64
run_const F iu (narrow n8) p ret rhs d l c u t m dr room cr =
    RunsTo-one F (cmp8_c p) (half (d % 2 ^ 16) ∷ half (l % 2 ^ 16) ∷ half (c % 2 ^ 8) ∷ []) m
      (wr32 m d (outcome (narrow n8) p m l c)) (emit_reg_imm8-Emits iu (cmp8_c p) ret rhs l dr cr)
      (λ more. rw (rd32-half m l, mod8 c) (ap (λ f. some (next 3 f)) (wr32-half m d _)))
      (Computes-wr32 n32 m d _ _ (bit-lt _)) (omega arith) t (omega arith)
run_const F iu (narrow n16) p ret rhs d l c u t m dr room cr =
    RunsTo-one F (cmp16_c p) (half (d % 2 ^ 16) ∷ half (l % 2 ^ 16) ∷ half (c % 2 ^ 16) ∷ []) m
      (wr32 m d (outcome (narrow n16) p m l c))
      (emit_reg_imm16-Emits iu (cmp16_c p) ret rhs l dr cr)
      (λ more. rw (rd32-half m l) (ap (λ f. some (next 3 f)) (wr32-half m d _)))
      (Computes-wr32 n32 m d _ _ (bit-lt _)) (omega arith) t (omega arith)
run_const F iu (narrow n32) p ret rhs d l c u t m dr room cr =
    RunsTo-one F (cmp32_c p) (half (d % 2 ^ 16) ∷ half (l % 2 ^ 16) ∷ halves32 c) m
      (wr32 m d (outcome (narrow n32) p m l c))
      (emit_reg_imm32-Emits iu (cmp32_c p) ret rhs l dr cr)
      (λ more.
        rw (rd32-half m l, halves32-sum c, mod-eq_of_lt (rd32-lt m l))
          (ap (λ f. some (next 4 f)) (wr32-half m d _)))
      (Computes-wr32 n32 m d _ _ (bit-lt _)) (omega arith) t (omega arith)
run_const F iu wide p ret rhs d l c u t m dr room cr =
    RunsTo-aligned F (cmp64_c p) (half (d % 2 ^ 16) ∷ half (l % 2 ^ 16) ∷ halves64 c) m
      (wr32 m d (outcome wide p m l c)) (emit_op_imm64-Emits iu (cmp64_c p) ret rhs l dr cr)
      (λ more. rw (rd64-half m l, halves64-sum c) (ap (λ f. some (next 6 f)) (wr32-half m d _)))
      (Computes-wr32 n32 m d _ _ (bit-lt _)) (omega arith) 1 t (omega arith)

-- For a constant on the left and a register on the right, of 8, 16, 32 or 64 bits, and an integer
-- predicate, in a text with room for eight half words more, emit_cmp2, which swaps the operands and
-- the predicate, emits code that vm_exec runs to its end, whatever stands before and after it; the
-- register of the result then holds 1 if C compares the constant with the low bits of the register
-- so, as words of that width and in the order of the instruction, and 0 if not, and all bytes of the
-- frame but the 4 of that register are as before.
pub emit_cmp2-swapped_runs :
    (F : Fpu) (iu : IrUnit) (ii : InstrCmp) (w : Width) (p : IcmpPred) (d r c : ℕ) (t : Text)
    (m : Frame)
    → ii.op ≡ icmp p
    → HasCode iu (ii.lhs_value) (width_code w)
    → InConst iu w (ii.lhs_value) c
    → InReg iu (ii.rhs_value) r
    → InReg iu (ii.ret) d
    → text_size t + 16 < t.memsize
    → RunsTo F (emit_cmp2 F iu ii) t m (
        Computes
          (narrow n32)
          m
          d
          (bit (c_compare (width_bits w) p (c % 2 ^ width_bits w) (read w m r))))
unfolding emit_cmp2 emit_cmp2_classes swap_pred value_reg class_reg
emit_cmp2-swapped_runs F iu ii w p d r c t m op_eq (it, it_eq, code) (lhs, u, lhs_eq, lc, cr)
      (rhs, rhs_eq, rc) (ret, ret_eq, dc) room =
    let (t', made, short, m', post, reaches) =
      run_const F iu w (swap_icmp p) ret lhs d r c u t m (rw dc refl) room cr in
    let classes : emit_cmp2_classes F iu (ii.op) (legalize_type it) ret lhs rhs (lhs.class)
          (rhs.class) t
        ≡ emit_cmp_const F iu (icmp (swap_icmp p)) (width_code w) ret r lhs u t =
      ap (λ q. emit_cmp2_classes F iu q (legalize_type it) ret lhs rhs (lhs.class) (rhs.class) t)
        op_eq
      ∙ ap (λ k. emit_cmp2_classes F iu (icmp p) (legalize_type it) ret lhs rhs k (rhs.class) t) lc
      ∙ ap (λ k. emit_cmp2_classes F iu (icmp p) (legalize_type it) ret lhs rhs (constant u) k t) rc
      ∙ ap (λ k. emit_cmp_const F iu (icmp (swap_icmp p)) k ret r lhs u t) code in
    let swapped : outcome w (swap_icmp p) m r c
        ≡ bit (c_compare (width_bits w) p (c % 2 ^ width_bits w) (read w m r)) =
      ap bit (c_compare-swap_icmp (width_bits w) p (c % 2 ^ width_bits w) (read w m r)) in
    subst (λ v. RunsTo F (emit_cmp2 F iu ii) t m (Computes (narrow n32) m d v)) swapped
      (t', rw (lhs_eq, rhs_eq, ret_eq, it_eq) (classes ∙ made), short, m', post, reaches)
