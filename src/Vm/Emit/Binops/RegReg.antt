-- ===== src/Vm/Emit/Binops/RegReg.antt =====
-- src/vmir_vm.c: emit_binop on two registers, and what vm_exec computes with the code.
use vmir.Common.{ℕ, ◌+◌, ◌%◌, ◌^◌, ◌<◌, ◌≡◌, refl, sym, ◌∙◌, ap, Option, some, List, [], ◌∷◌, arith}
use native.Mathlib.Nat.{mod-eq_of_lt}
use vmir.Types.{ok}
use vmir.Parser.{IrUnit, value_reg, class_reg}
use vmir.Vm.{
  Binop, add, sub, mul, udiv, sdiv, urem, srem, shl, lshr, ashr, bitand, bitor, bitxor, VmOp,
  binop_r32, binop_r64, Cell, op, half, Text, text_size,
}
use vmir.Vm.Alu.{c_binop}
use vmir.Vm.Alu.Truncate.{
  Narrow, n8, n16, n32, bits, Low, add-Low, sub-Low, mul-Low, udiv-Low, urem-Low, shl-Low, lshr-Low,
  bitand-Low, bitor-Low, bitxor-Low, c_binop-lt,
}
use vmir.Vm.Alu.Truncate.Signed.{sdiv-Low, srem-Low, ashr-Low}
use vmir.Vm.Frame.{Frame, rd32, rd64, wr32, wr64}
use vmir.Vm.Frame.ReadWrite.{rd32-lt, rd64-lt, rd32-half, rd64-half, wr32-half, wr64-half}
use vmir.Vm.Exec.{next, ◌>>?◌}
use vmir.Vm.Exec.Binary.{exec_signed, exec_r32, exec_r64}
use vmir.Vm.Exec.Float.{Fpu}
use vmir.Vm.Exec.Step.{exec_op}
use vmir.Vm.Emit.{InstrBinop}
use vmir.Vm.Emit.Words.{
  Width, narrow, wide, width_bits, width_code, read, Computes, Computes-wr32, Computes-wr64,
}
use vmir.Vm.Emit.Runs.{Emits, RunsTo, RunsTo-one, InReg, HasCode, emit_op3-Emits}
use vmir.Vm.Emit.Binops.{binop_reg_op, binop_r8_op, binop_r16_op, emit_binop, emit_binop_classes}

-- What the operator needs of the upper bits: below 32 bits a division of unsigned words and a shift
-- to the right read them all, and a shift to the left those of its count.
abbrev pub UpperBitsClear : Width → Binop → Frame → (lhs rhs : ℕ) → Type 0
UpperBitsClear (narrow n) udiv m l r = (rd32 m l < 2 ^ bits n) × (rd32 m r < 2 ^ bits n)
UpperBitsClear (narrow n) urem m l r = (rd32 m l < 2 ^ bits n) × (rd32 m r < 2 ^ bits n)
UpperBitsClear (narrow n) lshr m l r = (rd32 m l < 2 ^ bits n) × (rd32 m r < 2 ^ bits n)
UpperBitsClear (narrow n) shl m l r = rd32 m r < 2 ^ bits n
UpperBitsClear w o m l r = Unit

-- The result of the operators that have instructions of their own below 32 bits.
abbrev signed_value : Narrow → Binop → (x y : ℕ) → Option ℕ
signed_value n8 o x y = exec_signed 8 o (x % 2 ^ 8) (y % 2 ^ 8)
signed_value n16 o x y = exec_signed 16 o (x % 2 ^ 16) (y % 2 ^ 16)
signed_value n32 o x y = c_binop 32 o x y

-- The result of the instruction that is emitted.
abbrev machine_value : Binop → Narrow → (x y : ℕ) → Option ℕ
machine_value sdiv n x y = signed_value n sdiv x y
machine_value srem n x y = signed_value n srem x y
machine_value ashr n x y = signed_value n ashr x y
machine_value o n x y = c_binop 32 o x y

abbrev machine_op : Narrow → Binop → VmOp
machine_op n8 o = binop_r8_op o
machine_op n16 o = binop_r16_op o
machine_op n32 o = binop_r32 o

exec-machine_op :
    (F : Fpu) (n : Narrow) (o : Binop) (d l r : ℕ) (more : List Cell) (m : Frame)
    → exec_op F (machine_op n o) (half d ∷ half l ∷ half r ∷ more) m
      ≡ machine_value o n (rd32 m l) (rd32 m r) >>? λ x. some (next 3 (wr32 m d x))
unfolding exec_op binop_r8_op binop_r16_op exec_r32
exec-machine_op F n8 sdiv d l r more m = refl
exec-machine_op F n16 sdiv d l r more m = refl
exec-machine_op F n32 sdiv d l r more m = refl
exec-machine_op F n8 srem d l r more m = refl
exec-machine_op F n16 srem d l r more m = refl
exec-machine_op F n32 srem d l r more m = refl
exec-machine_op F n8 ashr d l r more m = refl
exec-machine_op F n16 ashr d l r more m = refl
exec-machine_op F n32 ashr d l r more m = refl
exec-machine_op F n8 o d l r more m = refl
exec-machine_op F n16 o d l r more m = refl
exec-machine_op F n32 o d l r more m = refl

full-Low :
    (o : Binop) (x y v : ℕ)
    → x < 2 ^ 32
    → y < 2 ^ 32
    → c_binop 32 o (x % 2 ^ 32) (y % 2 ^ 32) ≡ some v
    → Low 32 (c_binop 32 o x y) v
full-Low o x y v hx hy e =
    let same : c_binop 32 o x y ≡ some v =
      sym (
        ap (λ t. c_binop 32 o t (y % 2 ^ 32)) (mod-eq_of_lt hx)
        ∙ ap (c_binop 32 o x) (mod-eq_of_lt hy))
      ∙ e in
    (v, same, mod-eq_of_lt (c_binop-lt 32 o x y v hx hy same))

-- C on the registers computes the low bits of what it computes on the low bits.
machine-Low :
    (n : Narrow) (o : Binop) (m : Frame) (l r v : ℕ)
    → UpperBitsClear (narrow n) o m l r
    → c_binop (bits n) o (rd32 m l % 2 ^ bits n) (rd32 m r % 2 ^ bits n) ≡ some v
    → Low (bits n) (machine_value o n (rd32 m l) (rd32 m r)) v
machine-Low n add m l r v h e = add-Low n (rd32 m l) (rd32 m r) v e
machine-Low n sub m l r v h e = sub-Low n (rd32 m l) (rd32 m r) v (rd32-lt m r) e
machine-Low n mul m l r v h e = mul-Low n (rd32 m l) (rd32 m r) v e
machine-Low n udiv m l r v h e = udiv-Low n (rd32 m l) (rd32 m r) v (h.0) (h.1) e
machine-Low n8 sdiv m l r v h e =
    sdiv-Low n8 (rd32 m l % 2 ^ 8) (rd32 m r % 2 ^ 8) v (omega arith) (omega arith) e
machine-Low n16 sdiv m l r v h e =
    sdiv-Low n16 (rd32 m l % 2 ^ 16) (rd32 m r % 2 ^ 16) v (omega arith) (omega arith) e
machine-Low n32 sdiv m l r v h e =
    full-Low sdiv (rd32 m l) (rd32 m r) v (rd32-lt m l) (rd32-lt m r) e
machine-Low n urem m l r v h e = urem-Low n (rd32 m l) (rd32 m r) v (h.0) (h.1) e
machine-Low n8 srem m l r v h e =
    srem-Low n8 (rd32 m l % 2 ^ 8) (rd32 m r % 2 ^ 8) v (omega arith) (omega arith) e
machine-Low n16 srem m l r v h e =
    srem-Low n16 (rd32 m l % 2 ^ 16) (rd32 m r % 2 ^ 16) v (omega arith) (omega arith) e
machine-Low n32 srem m l r v h e =
    full-Low srem (rd32 m l) (rd32 m r) v (rd32-lt m l) (rd32-lt m r) e
machine-Low n shl m l r v h e = shl-Low n (rd32 m l) (rd32 m r) v h e
machine-Low n lshr m l r v h e = lshr-Low n (rd32 m l) (rd32 m r) v (h.0) (h.1) e
machine-Low n8 ashr m l r v h e =
    ashr-Low n8 (rd32 m l % 2 ^ 8) (rd32 m r % 2 ^ 8) v (omega arith) e
machine-Low n16 ashr m l r v h e =
    ashr-Low n16 (rd32 m l % 2 ^ 16) (rd32 m r % 2 ^ 16) v (omega arith) e
machine-Low n32 ashr m l r v h e =
    full-Low ashr (rd32 m l) (rd32 m r) v (rd32-lt m l) (rd32-lt m r) e
machine-Low n bitand m l r v h e = bitand-Low n (rd32 m l) (rd32 m r) v e
machine-Low n bitor m l r v h e = bitor-Low n (rd32 m l) (rd32 m r) v e
machine-Low n bitxor m l r v h e = bitxor-Low n (rd32 m l) (rd32 m r) v e

abbrev op_of : Width → Binop → VmOp
op_of (narrow n) o = machine_op n o
op_of wide o = binop_r64 o

binop_reg_op-width : (w : Width) (o : Binop) → binop_reg_op o (width_code w) ≡ ok (op_of w o)
unfolding binop_reg_op
binop_reg_op-width (narrow n8) o = refl
binop_reg_op-width (narrow n16) o = refl
binop_reg_op-width (narrow n32) o = refl
binop_reg_op-width wide o = refl

emit_binop-Emits :
    (iu : IrUnit) (ii : InstrBinop) (w : Width) {d l r : ℕ}
    → HasCode iu (ii.lhs_value) (width_code w)
    → InReg iu (ii.lhs_value) l
    → InReg iu (ii.rhs_value) r
    → InReg iu (ii.ret) d
    → Emits
        (emit_binop iu ii)
        (op (op_of w (ii.op)) ∷ half (d % 2 ^ 16) ∷ half (l % 2 ^ 16) ∷ half (r % 2 ^ 16) ∷ [])
unfolding emit_binop emit_binop_classes value_reg class_reg
emit_binop-Emits iu ii w {d = d} {l = l} {r = r} (it, it_eq, code) (lhs, lhs_eq, lc)
      (rhs, rhs_eq, rc) (ret, ret_eq, dc) t room =
    rw (lhs_eq, rhs_eq, ret_eq, it_eq, lc, rc, code, binop_reg_op-width w (ii.op), dc)
      (emit_op3-Emits (op_of w (ii.op)) d l r t room)

-- The instruction on the registers as they are written in the text.
exec-op_of :
    (F : Fpu) (w : Width) (o : Binop) (d l r v : ℕ) (m : Frame)
    → UpperBitsClear w o m l r
    → c_binop (width_bits w) o (read w m l) (read w m r) ≡ some v
    → (m' : Frame) × ((more : List Cell)
        → exec_op F (op_of w o) (half (d % 2 ^ 16) ∷ half (l % 2 ^ 16) ∷ half (r % 2 ^ 16) ∷ more) m
          ≡ some (next 3 m'))
      × Computes w m d v m'
unfolding exec_op exec_r64
exec-op_of F (narrow n) o d l r v m clear e =
    let (x, x_eq, x_low) = machine-Low n o m l r v clear e in
    (
      wr32 m d x,
      λ more.
          exec-machine_op F n o (d % 2 ^ 16) (l % 2 ^ 16) (r % 2 ^ 16) more m
          ∙ rw (rd32-half m l, rd32-half m r, x_eq) (ap (λ f. some (next 3 f)) (wr32-half m d x)),
      Computes-wr32 n m d x v x_low,
    )
exec-op_of F wide o d l r v m clear e = (
  wr64 m d v,
  λ more. rw (rd64-half m l, rd64-half m r, e) (ap (λ f. some (next 3 f)) (wr64-half m d v)),
  Computes-wr64 m d v (c_binop-lt 64 o (rd64 m l) (rd64 m r) v (rd64-lt m l) (rd64-lt m r) e),
)

-- For two registers of 8, 16, 32 or 64 bits, in a text with room for four half words more, emit_binop
-- emits code that vm_exec runs to its end, whatever stands before and after it; the register of the
-- result then holds, in the low bits of its width, what the operator of C on words of that width
-- gives for the low bits of the operands, and all bytes of the frame but those of that register are
-- as before. Provided: that operator is defined there, and below 32 bits an unsigned division or
-- remainder and a logical shift to the right have operands with no upper bits, a shift to the left
-- a count with none.
pub emit_binop-reg_runs :
    (F : Fpu) (iu : IrUnit) (ii : InstrBinop) (w : Width) (d l r v : ℕ) (t : Text) (m : Frame)
    → HasCode iu (ii.lhs_value) (width_code w)
    → InReg iu (ii.lhs_value) l
    → InReg iu (ii.rhs_value) r
    → InReg iu (ii.ret) d
    → text_size t + 8 < t.memsize
    → UpperBitsClear w (ii.op) m l r
    → c_binop (width_bits w) (ii.op) (read w m l) (read w m r) ≡ some v
    → RunsTo F (emit_binop iu ii) t m (Computes w m d v)
unfolding text_size
emit_binop-reg_runs F iu ii w d l r v t m code in_l in_r in_d room clear e =
    let (m', runs, computes) = exec-op_of F w (ii.op) d l r v m clear e in
    RunsTo-one F (op_of w (ii.op)) (half (d % 2 ^ 16) ∷ half (l % 2 ^ 16) ∷ half (r % 2 ^ 16) ∷ [])
      m m' (emit_binop-Emits iu ii w code in_l in_r in_d) runs computes (omega arith) t
      (omega arith)
