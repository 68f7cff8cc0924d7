-- ===== src/Vm/Emit/Binops/Increments.antt =====
-- src/vmir_vm.c: what emit_binop writes for a byte and a constant, and which operations of a register
-- and a constant are an increment or a decrement.
use vmir.Common.{
  ℕ, ◌+◌, ◌-◌, ◌%◌, ◌^◌, ◌<◌, ◌≡◌, refl, some, List, [], ◌∷◌, Eq-cases, ◌⊎◌, ◌≢◌, inl, inr, arith,
}
use vmir.Common.Bits.{bit_and_mask}
use Prim.Native.Nat.{bit_and}
use vmir.Types.{ok}
use vmir.Parser.{Value, IrUnit, value_reg, value_get_const32}
use vmir.Vm.{
  Binop, add, sub, sdiv, srem, ashr, VmOp, sdiv_r8c, srem_r8c, ashr_r8c, binop_r16c, Cell, op, half,
}
use vmir.Vm.Alu.{c_binop}
use vmir.Vm.Frame.{Frame, rd32, wr32}
use vmir.Vm.Exec.{next, ◌>>?◌}
use vmir.Vm.Exec.Binary.{exec_r8c, exec_r16c}
use vmir.Vm.Exec.Float.{Fpu}
use vmir.Vm.Exec.Step.{exec_op}
use vmir.Vm.Emit.Runs.{Emits, Emits-seq, emit_op2-Emits, emit_i16-Emits, emit_reg_imm8-Emits}
use vmir.Vm.Emit.Binops.{
  emit_binop_r8c, increment_of, Increment, increment, decrement, no_increment,
}
use vmir.Vm.Emit.Binops.Promoted.{const8_value}

abbrev pub const8_op : Binop → VmOp
const8_op sdiv = sdiv_r8c
const8_op srem = srem_r8c
const8_op ashr = ashr_r8c
const8_op o = binop_r16c o

abbrev pub const8_cell : Binop → ℕ → ℕ
const8_cell sdiv c = c % 2 ^ 8
const8_cell srem c = c % 2 ^ 8
const8_cell ashr c = c % 2 ^ 8
const8_cell o c = bit_and c (2 ^ 8 - 1) % 2 ^ 16

masked : (c : ℕ) → bit_and c (2 ^ 8 - 1) % 2 ^ 16 ≡ c % 2 ^ 8
masked c = omega (arith, bit_and_mask 8 c)

low_twice : (c : ℕ) → c % 2 ^ 8 % 2 ^ 8 ≡ c % 2 ^ 8
low_twice c = omega arith

pub exec-const8_op :
    (F : Fpu) (o : Binop) (d l c : ℕ) (more : List Cell) (m : Frame)
    → exec_op F (const8_op o) (half d ∷ half l ∷ half (const8_cell o c) ∷ more) m
      ≡ const8_value o (rd32 m l) c >>? λ x. some (next 3 (wr32 m d x))
unfolding exec_op exec_r8c exec_r16c
exec-const8_op F sdiv d l c more m = rw (low_twice c) refl
exec-const8_op F srem d l c more m = rw (low_twice c) refl
exec-const8_op F ashr d l c more m = rw (low_twice c) refl
exec-const8_op F o d l c more m = rw (masked c) refl

pub emit-const8_Emits :
    (iu : IrUnit) (o : Binop) (ret rhs : Value) (l : ℕ) {d c : ℕ}
    → value_reg ret ≡ ok d
    → value_get_const32 iu rhs ≡ ok c
    → Emits
        (emit_binop_r8c iu o ret l rhs)
        (op (const8_op o) ∷ half (d % 2 ^ 16) ∷ half (l % 2 ^ 16) ∷ half (const8_cell o c) ∷ [])
unfolding emit_binop_r8c
emit-const8_Emits iu sdiv ret rhs l dr cr = emit_reg_imm8-Emits iu sdiv_r8c ret rhs l dr cr
emit-const8_Emits iu srem ret rhs l dr cr = emit_reg_imm8-Emits iu srem_r8c ret rhs l dr cr
emit-const8_Emits iu ashr ret rhs l dr cr = emit_reg_imm8-Emits iu ashr_r8c ret rhs l dr cr
emit-const8_Emits iu o ret rhs l {d = d} {c = c} dr cr = λ t room.
    rw (dr, cr)
      (Emits-seq (emit_op2-Emits (binop_r16c o) d l) (emit_i16-Emits (bit_and c (2 ^ 8 - 1))) t
        room)

-- What makes an operation an increment or a decrement by one.
abbrev pub IncrementLaw : Binop → ℕ → Increment → Type 0
IncrementLaw o c increment = (x : ℕ) → x < 2 ^ 32 → c_binop 32 o x c ≡ some ((x + 1) % 2 ^ 32)
IncrementLaw o c decrement =
    (x : ℕ) → x < 2 ^ 32 → c_binop 32 o x c ≡ some ((x + 2 ^ 32 - 1) % 2 ^ 32)
IncrementLaw o c no_increment = Unit

-- `c` is one, minus one or neither.
ones : (c : ℕ) → (c ≡ 1) ⊎ (c ≡ 2 ^ 32 - 1) ⊎ ((c ≢ 1) × (c ≢ 2 ^ 32 - 1))
ones c = elim (Eq-cases c 1) [
  | inl e ↦ inl e
  | inr e ↦ elim (Eq-cases c (2 ^ 32 - 1)) [ inl h ↦ inr (inl h) | inr h ↦ inr (inr (e, h)) ]
]

pub increment_law :
    (o : Binop) (c : ℕ) → (i : Increment) × (increment_of o c ≡ i) × IncrementLaw o c i
unfolding increment_of c_binop
increment_law add c = elim (ones c) [
  | inl e ↦ (increment, ground arith, λ x h. ground arith)
  | inr (inl e) ↦ (decrement, ground arith, λ x h. ground arith)
  | inr (inr h) ↦ (no_increment, ground arith, tt)
]
increment_law sub c = elim (ones c) [
  | inl e ↦ (decrement, ground arith, λ x h. ground arith)
  | inr (inl e) ↦ (increment, ground arith, λ x h. ground arith)
  | inr (inr h) ↦ (no_increment, ground arith, tt)
]
increment_law o c = (no_increment, refl, tt)
