-- ===== src/Vm/Emit/Binops/Promoted.antt =====
-- The instructions of vm_exec in src/vmir_vm.c on a register and a number of 8 or 16 bits, which they
-- promote to int.
use vmir.Common.{
  ℕ, ◌+◌, ◌*◌, ◌%◌, ◌^◌, ◌≤◌, ◌<◌, ◌≡◌, refl, sym, ◌∙◌, ap, subst, Option, some, false, leb, arith,
}
use vmir.Common.Bits.{pow_mono, pow_sum, pow_pos}
use native.Mathlib.Nat.{mod-eq_of_lt, mul-le-mul_left, mul-lt-mul_of_pos_right}
use vmir.Vm.{Binop, add, sub, mul, udiv, sdiv, urem, srem, shl, lshr, ashr, bitand, bitor, bitxor}
use vmir.Vm.Alu.{c_binop}
use vmir.Vm.Alu.Truncate.{
  Narrow, n8, n16, bits, Low, add-Low, sub-Low, mul-Low, udiv-Low, urem-Low, shl-Low, lshr-Low,
  bitand-Low, bitor-Low, bitxor-Low,
}
use vmir.Vm.Alu.Truncate.Signed.{sdiv-Low, srem-Low, ashr-Low}
use vmir.Vm.Frame.{Frame, rd32}
use vmir.Vm.Exec.Binary.{exec_u16, exec_signed}
use vmir.Vm.Emit.Words.{Width, narrow}

-- What the operator needs below 32 bits: of 8 bits, a division of unsigned words and a shift to the
-- right read 16 bits of the register; of 16 bits, the product is that of two ints.
abbrev pub ConstSafe : Width → Binop → Frame → (lhs c : ℕ) → Type 0
ConstSafe (narrow n8) udiv m l c = rd32 m l % 2 ^ 16 < 2 ^ 8
ConstSafe (narrow n8) urem m l c = rd32 m l % 2 ^ 16 < 2 ^ 8
ConstSafe (narrow n8) lshr m l c = rd32 m l % 2 ^ 16 < 2 ^ 8
ConstSafe (narrow n16) mul m l c = rd32 m l % 2 ^ 16 * (c % 2 ^ 16) < 2 ^ 31
ConstSafe w o m l c = Unit

-- The promotion to int is exact, where no int overflows.
mul-u16 :
    (n : Narrow) (x y v : ℕ)
    → x * y < 2 ^ 31
    → c_binop (bits n) mul (x % 2 ^ bits n) (y % 2 ^ bits n) ≡ some v
    → Low (bits n) (exec_u16 mul x y) v
unfolding exec_u16
mul-u16 n x y v h e =
    let small : leb (2 ^ 31) (x * y) ≡ false = ground arith in rw small (mul-Low n x y v e)

shl-u16 :
    (n : Narrow) (x y v : ℕ)
    → x * 2 ^ y < 2 ^ 31
    → y < 2 ^ bits n
    → y < 32
    → c_binop (bits n) shl (x % 2 ^ bits n) (y % 2 ^ bits n) ≡ some v
    → Low (bits n) (exec_u16 shl x y) v
unfolding exec_u16
shl-u16 n x y v h hy h32 e =
    let same : exec_u16 shl x y ≡ c_binop 32 shl x y = ground arith in
    subst (λ (o : Option ℕ). Low (bits n) o v) (sym same) (shl-Low n x y v hy e)

shl-count : (w x y v : ℕ) → c_binop w shl x y ≡ some v → y < w
unfolding c_binop
shl-count w x y v e = ground arith

product-lt : (x y p q : ℕ) → x < 2 ^ p → y ≤ 2 ^ q → p + q ≤ 31 → x * y < 2 ^ 31
product-lt x y p q hx hy h = omega (
  arith,
  pow_sum p q,
  pow_mono (p + q) 31 h,
  mul-le-mul_left x hy,
  mul-lt-mul_of_pos_right hx (pow_pos q),
)

-- A shift by less than 16 of 16 bits.
shl-u16_defined :
    (n : Narrow) (x y v : ℕ)
    → bits n ≤ 16
    → x < 2 ^ 16
    → y < 2 ^ bits n
    → c_binop (bits n) shl (x % 2 ^ bits n) (y % 2 ^ bits n) ≡ some v
    → Low (bits n) (exec_u16 shl x y) v
shl-u16_defined n x y v hn hx hy e =
    let count : y < bits n =
      omega (arith, shl-count (bits n) (x % 2 ^ bits n) (y % 2 ^ bits n) v e, mod-eq_of_lt hy) in
    shl-u16 n x y v (product-lt x (2 ^ y) 16 15 hx (pow_mono y 15 (omega arith)) (omega arith)) hy
      (omega arith) e

-- The result of the instruction for 8 bits.
abbrev pub const8_value : Binop → (x c : ℕ) → Option ℕ
const8_value sdiv x c = exec_signed 8 sdiv (x % 2 ^ 8) (c % 2 ^ 8)
const8_value srem x c = exec_signed 8 srem (x % 2 ^ 8) (c % 2 ^ 8)
const8_value ashr x c = exec_signed 8 ashr (x % 2 ^ 8) (c % 2 ^ 8)
const8_value o x c = exec_u16 o (x % 2 ^ 16) (c % 2 ^ 8)

-- The low bits that C sees are those of the operands.
same_low :
    (o : Binop) (x c v : ℕ)
    → c_binop 8 o (x % 2 ^ 8) (c % 2 ^ 8) ≡ some v
    → c_binop 8 o (x % 2 ^ 16 % 2 ^ 8) (c % 2 ^ 8 % 2 ^ 8) ≡ some v
same_low o x c v e =
    let hx : x % 2 ^ 16 % 2 ^ 8 ≡ x % 2 ^ 8 = omega arith in
    let hc : c % 2 ^ 8 % 2 ^ 8 ≡ c % 2 ^ 8 = omega arith in
    ap (λ t. c_binop 8 o t (c % 2 ^ 8 % 2 ^ 8)) hx ∙ ap (c_binop 8 o (x % 2 ^ 8)) hc ∙ e

pub const8-Low :
    (o : Binop) (m : Frame) (l c v : ℕ)
    → ConstSafe (narrow n8) o m l c
    → c_binop 8 o (rd32 m l % 2 ^ 8) (c % 2 ^ 8) ≡ some v
    → Low 8 (const8_value o (rd32 m l) c) v
unfolding exec_u16
const8-Low add m l c v safe e =
    add-Low n8 (rd32 m l % 2 ^ 16) (c % 2 ^ 8) v (same_low add (rd32 m l) c v e)
const8-Low sub m l c v safe e =
    sub-Low n8 (rd32 m l % 2 ^ 16) (c % 2 ^ 8) v (omega arith) (same_low sub (rd32 m l) c v e)
const8-Low mul m l c v safe e =
    mul-u16 n8 (rd32 m l % 2 ^ 16) (c % 2 ^ 8) v
      (product-lt (rd32 m l % 2 ^ 16) (c % 2 ^ 8) 16 8 (omega arith) (omega arith) (omega arith))
      (same_low mul (rd32 m l) c v e)
const8-Low udiv m l c v safe e =
    udiv-Low n8 (rd32 m l % 2 ^ 16) (c % 2 ^ 8) v safe (omega arith)
      (same_low udiv (rd32 m l) c v e)
const8-Low sdiv m l c v safe e =
    sdiv-Low n8 (rd32 m l % 2 ^ 8) (c % 2 ^ 8) v (omega arith) (omega arith) e
const8-Low urem m l c v safe e =
    urem-Low n8 (rd32 m l % 2 ^ 16) (c % 2 ^ 8) v safe (omega arith)
      (same_low urem (rd32 m l) c v e)
const8-Low srem m l c v safe e =
    srem-Low n8 (rd32 m l % 2 ^ 8) (c % 2 ^ 8) v (omega arith) (omega arith) e
const8-Low shl m l c v safe e =
    shl-u16_defined n8 (rd32 m l % 2 ^ 16) (c % 2 ^ 8) v (omega arith) (omega arith) (omega arith)
      (same_low shl (rd32 m l) c v e)
const8-Low lshr m l c v safe e =
    lshr-Low n8 (rd32 m l % 2 ^ 16) (c % 2 ^ 8) v safe (omega arith)
      (same_low lshr (rd32 m l) c v e)
const8-Low ashr m l c v safe e = ashr-Low n8 (rd32 m l % 2 ^ 8) (c % 2 ^ 8) v (omega arith) e
const8-Low bitand m l c v safe e =
    bitand-Low n8 (rd32 m l % 2 ^ 16) (c % 2 ^ 8) v (same_low bitand (rd32 m l) c v e)
const8-Low bitor m l c v safe e =
    bitor-Low n8 (rd32 m l % 2 ^ 16) (c % 2 ^ 8) v (same_low bitor (rd32 m l) c v e)
const8-Low bitxor m l c v safe e =
    bitxor-Low n8 (rd32 m l % 2 ^ 16) (c % 2 ^ 8) v (same_low bitxor (rd32 m l) c v e)

small_operands :
    {x c : ℕ} (f : ℕ → ℕ → Option ℕ) → x < 2 ^ 16 → c < 2 ^ 16 → f (x % 2 ^ 16) (c % 2 ^ 16) ≡ f x c
small_operands {x = x} {c = c} f hx hc =
    ap (λ t. f t (c % 2 ^ 16)) (mod-eq_of_lt hx) ∙ ap (f x) (mod-eq_of_lt hc)

-- Of 16 bits every operator works on two ints.
pub const16-Low :
    (o : Binop) (x c v : ℕ)
    → x < 2 ^ 16
    → c < 2 ^ 16
    → (o ≡ mul → x * c < 2 ^ 31)
    → c_binop 16 o (x % 2 ^ 16) (c % 2 ^ 16) ≡ some v
    → Low 16 (exec_u16 o x c) v
unfolding exec_u16
const16-Low mul x c v hx hc safe e = mul-u16 n16 x c v (safe refl) e
const16-Low shl x c v hx hc safe e = shl-u16_defined n16 x c v (omega arith) hx hc e
const16-Low sdiv x c v hx hc safe e =
    subst (λ (o : Option ℕ). Low 16 o v) (small_operands (exec_signed 16 sdiv) hx hc)
      (sdiv-Low n16 (x % 2 ^ 16) (c % 2 ^ 16) v (omega arith) (omega arith) e)
const16-Low srem x c v hx hc safe e =
    subst (λ (o : Option ℕ). Low 16 o v) (small_operands (exec_signed 16 srem) hx hc)
      (srem-Low n16 (x % 2 ^ 16) (c % 2 ^ 16) v (omega arith) (omega arith) e)
const16-Low ashr x c v hx hc safe e =
    subst (λ (o : Option ℕ). Low 16 o v) (small_operands (exec_signed 16 ashr) hx hc)
      (ashr-Low n16 (x % 2 ^ 16) (c % 2 ^ 16) v (omega arith) e)
const16-Low add x c v hx hc safe e = add-Low n16 x c v e
const16-Low sub x c v hx hc safe e = sub-Low n16 x c v (omega arith) e
const16-Low udiv x c v hx hc safe e = udiv-Low n16 x c v hx hc e
const16-Low urem x c v hx hc safe e = urem-Low n16 x c v hx hc e
const16-Low lshr x c v hx hc safe e = lshr-Low n16 x c v hx hc e
const16-Low bitand x c v hx hc safe e = bitand-Low n16 x c v e
const16-Low bitor x c v hx hc safe e = bitor-Low n16 x c v e
const16-Low bitxor x c v hx hc safe e = bitxor-Low n16 x c v e
