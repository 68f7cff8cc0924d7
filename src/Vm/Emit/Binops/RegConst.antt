-- ===== src/Vm/Emit/Binops/RegConst.antt =====
-- src/vmir_vm.c: emit_binop on a register and a constant, and what vm_exec computes with the code.
use vmir.Common.{ℕ, ◌+◌, ◌-◌, ◌*◌, ◌%◌, ◌^◌, ◌<◌, ◌≡◌, refl, sym, ◌∙◌, ap, some, [], ◌∷◌, arith}
use native.Mathlib.Nat.{mod-eq_of_lt}
use vmir.Types.{IrType, Result, ok, err, ◌>>=◌, type_get, legalize_type}
use vmir.Parser.{
  Value, ValueClass, regframe, constant, const32_bits, const32_of, IrUnit, value_reg, class_reg,
  value_get_const32, value_get_const64,
}
use vmir.Vm.{
  Binop, mul, binop_r16c, binop_r32c, binop_r64c, inc_r32, dec_r32, half, Text, text_size, emit_op2,
}
use vmir.Vm.Alu.{c_binop}
use vmir.Vm.Alu.Truncate.{n8, n16, n32, c_binop-lt}
use vmir.Vm.Frame.{Frame, rd32, rd64, wr32, wr64}
use vmir.Vm.Frame.ReadWrite.{rd32-lt, rd64-lt, rd32-half, rd64-half, wr32-half, wr64-half}
use vmir.Vm.Exec.{next}
use vmir.Vm.Exec.Binary.{exec_r16c, exec_r32c, exec_r64c, exec_inc, exec_dec}
use vmir.Vm.Exec.Float.{Fpu}
use vmir.Vm.Exec.Step.{exec_op}
use vmir.Vm.Emit.{InstrBinop, emit_reg_imm16, emit_reg_imm32, emit_reg_imm64}
use vmir.Vm.Emit.Words.{
  Width, narrow, wide, width_bits, width_code, read, Computes, Computes-wr32, Computes-wr64,
}
use vmir.Vm.Emit.Runs.{
  RunsTo, RunsTo-one, RunsTo-aligned, InReg, InConst, HasCode, width_const, emit_op2-Emits,
  emit_reg_imm16-Emits, emit_reg_imm32-Emits, emit_op_imm64-Emits, halves32, halves64, halves32-sum,
  halves64-sum,
}
use vmir.Vm.Emit.Binops.{
  emit_binop, emit_binop_classes, emit_binop_const, emit_binop_r8c, emit_binop_r32c, Increment,
  increment, decrement, no_increment,
}
use vmir.Vm.Emit.Binops.Promoted.{ConstSafe, const8-Low, const16-Low}
use vmir.Vm.Emit.Binops.Increments.{
  const8_op, const8_cell, exec-const8_op, emit-const8_Emits, IncrementLaw, increment_law,
}

-- What the four widths have in common: the value of the result and of the constant, the room, the
-- operator being defined and its conditions.
module _ (F : Fpu) (iu : IrUnit) (o : Binop) (ret rhs : Value) (d l c v : ℕ) (t : Text) (m : Frame)
    (dr : value_reg ret ≡ ok d) (room : text_size t + 16 < t.memsize) where
  run8 :
      value_get_const32 iu rhs ≡ ok c
      → ConstSafe (narrow n8) o m l c
      → c_binop 8 o (rd32 m l % 2 ^ 8) (c % 2 ^ 8) ≡ some v
      → RunsTo F (emit_binop_r8c iu o ret l rhs) t m (Computes (narrow n8) m d v)
  unfolding text_size
  run8 cr safe e =
      let (x, x_eq, x_low) = const8-Low o m l c v safe e in
      RunsTo-one F (const8_op o)
        (half (d % 2 ^ 16) ∷ half (l % 2 ^ 16) ∷ half (const8_cell o c) ∷ []) m (wr32 m d x)
        (emit-const8_Emits iu o ret rhs l dr cr)
        (λ more.
          exec-const8_op F o (d % 2 ^ 16) (l % 2 ^ 16) c more m
          ∙ rw (rd32-half m l, x_eq) (ap (λ f. some (next 3 f)) (wr32-half m d x)))
        (Computes-wr32 n8 m d x v x_low) (omega arith) t (omega arith)

  run16 :
      value_get_const32 iu rhs ≡ ok c
      → ConstSafe (narrow n16) o m l c
      → c_binop 16 o (rd32 m l % 2 ^ 16) (c % 2 ^ 16) ≡ some v
      → RunsTo F (emit_reg_imm16 iu (binop_r16c o) ret l rhs) t m (Computes (narrow n16) m d v)
  unfolding text_size exec_op exec_r16c
  run16 cr safe e =
      let (x, x_eq, x_low) =
        const16-Low o (rd32 m l % 2 ^ 16) (c % 2 ^ 16) v (omega arith) (omega arith)
          (product_safe o safe) (low_operands e) in
      RunsTo-one F (binop_r16c o) (half (d % 2 ^ 16) ∷ half (l % 2 ^ 16) ∷ half (c % 2 ^ 16) ∷ []) m
        (wr32 m d x) (emit_reg_imm16-Emits iu (binop_r16c o) ret rhs l dr cr)
        (λ more. rw (rd32-half m l, x_eq) (ap (λ f. some (next 3 f)) (wr32-half m d x)))
        (Computes-wr32 n16 m d x v x_low) (omega arith) t (omega arith)
    where
      low_operands :
          c_binop 16 o (rd32 m l % 2 ^ 16) (c % 2 ^ 16) ≡ some v
          → c_binop 16 o (rd32 m l % 2 ^ 16 % 2 ^ 16) (c % 2 ^ 16 % 2 ^ 16) ≡ some v
      low_operands h =
          let hx : rd32 m l % 2 ^ 16 % 2 ^ 16 ≡ rd32 m l % 2 ^ 16 = omega arith in
          let hc : c % 2 ^ 16 % 2 ^ 16 ≡ c % 2 ^ 16 = omega arith in
          ap (λ s. c_binop 16 o s (c % 2 ^ 16 % 2 ^ 16)) hx
          ∙ ap (c_binop 16 o (rd32 m l % 2 ^ 16)) hc
          ∙ h

      product_safe :
          (p : Binop)
          → ConstSafe (narrow n16) p m l c
          → p ≡ mul
          → rd32 m l % 2 ^ 16 * (c % 2 ^ 16) < 2 ^ 31
      product_safe mul h q = h
      product_safe p h q = absurd (cc)

  run64 :
      value_get_const64 iu rhs ≡ ok c
      → c_binop 64 o (rd64 m l) (c % 2 ^ 64) ≡ some v
      → RunsTo F (emit_reg_imm64 iu (binop_r64c o) ret l rhs) t m (Computes wide m d v)
  unfolding text_size exec_op exec_r64c emit_reg_imm64
  run64 cr e =
      RunsTo-aligned F (binop_r64c o) (half (d % 2 ^ 16) ∷ half (l % 2 ^ 16) ∷ halves64 c) m
        (wr64 m d v) (emit_op_imm64-Emits iu (binop_r64c o) ret rhs l dr cr)
        (λ more.
          rw (rd64-half m l, halves64-sum c, e) (ap (λ f. some (next 6 f)) (wr64-half m d v)))
        (Computes-wr64 m d v
          (c_binop-lt 64 o (rd64 m l) (c % 2 ^ 64) v (rd64-lt m l) (omega arith) e))
        (omega arith) 1 t (omega arith)

  -- The code for 32 bits, by whether it is an increment.
  abbrev code32 : Increment → Text → Result Text
  code32 i t1 = elim i [
    | increment ↦ value_reg ret >>= λ r. emit_op2 inc_r32 r l t1
    | decrement ↦ value_reg ret >>= λ r. emit_op2 dec_r32 r l t1
    | no_increment ↦ emit_reg_imm32 iu (binop_r32c o) ret l rhs t1
  ]

  same_result :
      (x : ℕ)
      → c_binop 32 o (rd32 m l) c ≡ some (x % 2 ^ 32)
      → c_binop 32 o (rd32 m l) c ≡ some v
      → x % 2 ^ 32 % 2 ^ 32 ≡ v
  same_result x p q = ground arith

  run32_by :
      (i : Increment)
      → IncrementLaw o c i
      → value_get_const32 iu rhs ≡ ok c
      → c_binop 32 o (rd32 m l) (c % 2 ^ 32) ≡ some v
      → c_binop 32 o (rd32 m l) c ≡ some v
      → v < 2 ^ 32
      → RunsTo F (code32 i) t m (Computes (narrow n32) m d v)
  unfolding text_size exec_op exec_r32c exec_inc exec_dec
  run32_by increment law cr e e' small =
      RunsTo-one F {f = code32 increment} inc_r32 (half (d % 2 ^ 16) ∷ half (l % 2 ^ 16) ∷ []) m
        (wr32 m d ((rd32 m l + 1) % 2 ^ 32)) (λ t1 h. rw dr (emit_op2-Emits inc_r32 d l t1 h))
        (λ more.
          rw (rd32-half m l) (ap (λ f. some (next 2 f)) (wr32-half m d ((rd32 m l + 1) % 2 ^ 32))))
        (Computes-wr32 n32 m d ((rd32 m l + 1) % 2 ^ 32) v
          (same_result _ (law (rd32 m l) (rd32-lt m l)) e'))
        (omega arith) t (omega arith)
  run32_by decrement law cr e e' small =
      RunsTo-one F {f = code32 decrement} dec_r32 (half (d % 2 ^ 16) ∷ half (l % 2 ^ 16) ∷ []) m
        (wr32 m d ((rd32 m l + 2 ^ 32 - 1) % 2 ^ 32))
        (λ t1 h. rw dr (emit_op2-Emits dec_r32 d l t1 h))
        (λ more.
          rw (rd32-half m l)
            (ap (λ f. some (next 2 f)) (wr32-half m d ((rd32 m l + 2 ^ 32 - 1) % 2 ^ 32))))
        (Computes-wr32 n32 m d ((rd32 m l + 2 ^ 32 - 1) % 2 ^ 32) v
          (same_result _ (law (rd32 m l) (rd32-lt m l)) e'))
        (omega arith) t (omega arith)
  run32_by no_increment law cr e e' small =
      RunsTo-one F (binop_r32c o) (half (d % 2 ^ 16) ∷ half (l % 2 ^ 16) ∷ halves32 c) m
        (wr32 m d v) (emit_reg_imm32-Emits iu (binop_r32c o) ret rhs l dr cr)
        (λ more.
          rw (rd32-half m l, halves32-sum c, e) (ap (λ f. some (next 4 f)) (wr32-half m d v)))
        (Computes-wr32 n32 m d v v (mod-eq_of_lt small)) (omega arith) t (omega arith)

  run32 :
      value_get_const32 iu rhs ≡ ok c
      → c < 2 ^ 32
      → c_binop 32 o (rd32 m l % 2 ^ 32) (c % 2 ^ 32) ≡ some v
      → RunsTo F (emit_binop_r32c iu o ret l rhs) t m (Computes (narrow n32) m d v)
  unfolding emit_binop_r32c
  run32 cr small e =
      let (i, i_eq, law) = increment_law o c in
      let e1 : c_binop 32 o (rd32 m l) (c % 2 ^ 32) ≡ some v =
        ap (λ s. c_binop 32 o s (c % 2 ^ 32)) (sym (mod-eq_of_lt (rd32-lt m l))) ∙ e in
      let e2 : c_binop 32 o (rd32 m l) c ≡ some v =
        ap (c_binop 32 o (rd32 m l)) (sym (mod-eq_of_lt small)) ∙ e1 in
      let (t', made, short, m', post, reaches) =
        run32_by i law cr e1 e2 (c_binop-lt 32 o (rd32 m l) c v (rd32-lt m l) small e2) in
      (t', rw cr (ap (λ k. code32 k t) i_eq) ∙ made, short, m', post, reaches)

const32_bits-lt : (it : IrType) (u c : ℕ) → const32_bits it u ≡ ok c → c < 2 ^ 32
unfolding const32_bits
const32_bits-lt it u c e = ground arith

const32_lt :
    (r : Result IrType) (class : ValueClass) (u c : ℕ)
    → class ≡ constant u
    → (r >>= λ it. const32_of it class) ≡ ok c
    → c < 2 ^ 32
unfolding const32_of
const32_lt (ok it) class u c k e = const32_bits-lt it u c (sym (ap (const32_of it) k) ∙ e)
const32_lt (err x) class u c k e = absurd (cc)

-- The code of a width, by the emitter that its type selects.
run_width :
    (F : Fpu) (iu : IrUnit) (w : Width) (o : Binop) (ret rhs : Value) (d l c v : ℕ) (t : Text)
    (m : Frame)
    → value_reg ret ≡ ok d
    → text_size t + 16 < t.memsize
    → width_const w iu rhs ≡ ok c
    → (n : ℕ) × (rhs.class ≡ constant n)
    → ConstSafe w o m l c
    → c_binop (width_bits w) o (read w m l) (c % 2 ^ width_bits w) ≡ some v
    → RunsTo F (emit_binop_const iu o (width_code w) ret l rhs) t m (Computes w m d v)
unfolding emit_binop_const value_get_const32
run_width F iu (narrow n8) o ret rhs d l c v t m dr room cr k safe e =
    run8 F iu o ret rhs d l c v t m dr room cr safe e
run_width F iu (narrow n16) o ret rhs d l c v t m dr room cr k safe e =
    run16 F iu o ret rhs d l c v t m dr room cr safe e
run_width F iu (narrow n32) o ret rhs d l c v t m dr room cr (u, k) safe e =
    let small : c < 2 ^ 32 =
      const32_lt (type_get ((iu.table).types) (rhs.type)) (rhs.class) u c k cr in
    run32 F iu o ret rhs d l c v t m dr room cr small e
run_width F iu wide o ret rhs d l c v t m dr room cr k safe e =
    run64 F iu o ret rhs d l c v t m dr room cr e

-- For a register and a constant of 8, 16, 32 or 64 bits, in a text with room for eight half words
-- more, emit_binop emits code that vm_exec runs to its end, whatever stands before and after it, be
-- it an increment, an operation with its number in the text or one that an NOP aligns; the register
-- of the result then holds, in the low bits of its width, what the operator of C on words of that
-- width gives for the low bits of the register and of the constant, and all bytes of the frame but
-- those of that register are as before. Provided: that operator is defined there, and of 8 bits an
-- unsigned division or remainder and a logical shift to the right have a register whose low 16 bits
-- are below 2 ^ 8, of 16 bits a product is below 2 ^ 31.
pub emit_binop-const_runs :
    (F : Fpu) (iu : IrUnit) (ii : InstrBinop) (w : Width) (d l c v : ℕ) (t : Text) (m : Frame)
    → HasCode iu (ii.lhs_value) (width_code w)
    → InReg iu (ii.lhs_value) l
    → InConst iu w (ii.rhs_value) c
    → InReg iu (ii.ret) d
    → text_size t + 16 < t.memsize
    → ConstSafe w (ii.op) m l c
    → c_binop (width_bits w) (ii.op) (read w m l) (c % 2 ^ width_bits w) ≡ some v
    → RunsTo F (emit_binop iu ii) t m (Computes w m d v)
unfolding emit_binop emit_binop_classes value_reg class_reg
emit_binop-const_runs F iu ii w d l c v t m (it, it_eq, code) (lhs, lhs_eq, lc)
      (rhs, u, rhs_eq, rc, cr) (ret, ret_eq, dc) room safe e =
    let (t', made, short, m', post, reaches) =
      run_width F iu w (ii.op) ret rhs d l c v t m (rw dc refl) room cr (u, rc) safe e in
    let classes : emit_binop_classes iu (ii.op) (legalize_type it) ret rhs (lhs.class) (rhs.class) t
        ≡ emit_binop_const iu (ii.op) (width_code w) ret l rhs t =
      ap (λ k. emit_binop_classes iu (ii.op) (legalize_type it) ret rhs k (rhs.class) t) lc
      ∙ ap (λ k. emit_binop_classes iu (ii.op) (legalize_type it) ret rhs (regframe l) k t) rc
      ∙ ap (λ k. emit_binop_const iu (ii.op) k ret l rhs t) code in
    (t', rw (lhs_eq, rhs_eq, ret_eq, it_eq) (classes ∙ made), short, m', post, reaches)
