-- ===== src/Vm/Alu/Truncate.antt =====
-- The operators of C on 32-bit words, below the words of 8 and 16 bits that the emitters of
-- src/vmir_vm.c use them for.
pub mod Signed
use vmir.Common.{
  ℕ, ◌+◌, ◌-◌, ◌*◌, ◌/◌, ◌%◌, ◌^◌, ◌≤◌, ◌<◌, ◌≡◌, refl, sym, ◌∙◌, ap, Bool, true, false, Option,
  none, some, leb, ◌==◌, if◌then◌else◌, subst, inl, inr, Option-cases, arith,
}
use vmir.Common.Bits.{bit_and-mod, bit_or-mod, bit_xor-mod, mul-mod, pow_pos, pow_mono}
use Prim.Native.Nat.{bit_and, bit_or, bit_xor}
use native.Mathlib.Nat.{mod-eq_of_lt, mod-lt, div-le_self, mod-le}
use vmir.Vm.{Binop, add, sub, mul, udiv, sdiv, urem, srem, shl, lshr, ashr, bitand, bitor, bitxor}
use vmir.Vm.Alu.{
  c_binop, c_sdiv, c_srem, c_ashr, sext, negative, magnitude, signed, signed_quotient, xor_sign,
  remainder_of,
}
use vmir.Vm.Exec.Binary.{exec_signed}

-- The words that the emitters know, and the low bits of a machine word.
pub data Narrow : Type 0 where
  n8 n16 n32 : Narrow

abbrev pub bits : Narrow → ℕ
bits n8 = 8
bits n16 = 16
bits n32 = 32

-- The machine computes a word whose low bits are `v`.
abbrev pub Low : (w : ℕ) → Option ℕ → ℕ → Type 0
Low w machine v = (x : ℕ) × (machine ≡ some x) × (x % 2 ^ w ≡ v)

digits_lt :
    (f : ℕ → ℕ → ℕ) (w : ℕ)
    → ((a c : ℕ) → f (a % 2 ^ w) (c % 2 ^ w) ≡ f a c % 2 ^ w)
    → (a c : ℕ) → a < 2 ^ w
    → c < 2 ^ w
    → f a c < 2 ^ w
digits_lt f w law a c ha hc =
    let same : f a c ≡ f a c % 2 ^ w =
      sym (ap (λ t. f t (c % 2 ^ w)) (mod-eq_of_lt ha) ∙ ap (f a) (mod-eq_of_lt hc)) ∙ law a c in
    omega (arith, same, mod-lt (f a c) (pow_pos w))

-- A result that C defines is a word again.
pub c_binop-lt :
    (w : ℕ) (o : Binop) (a c v : ℕ) → a < 2 ^ w → c < 2 ^ w → c_binop w o a c ≡ some v → v < 2 ^ w
unfolding c_binop c_sdiv c_srem c_ashr
c_binop-lt w add a c v ha hc e = ground (arith, mod-lt (a + c) (pow_pos w))
c_binop-lt w sub a c v ha hc e = ground (arith, mod-lt (a + 2 ^ w - c) (pow_pos w))
c_binop-lt w mul a c v ha hc e = ground (arith, mod-lt (a * c) (pow_pos w))
c_binop-lt w udiv a c v ha hc e = ground (arith, div-le_self a c)
c_binop-lt w sdiv a c v ha hc e =
    let q = magnitude w a / magnitude w c in
    ground (arith, mod-lt (2 ^ w - q) (pow_pos w), pow_mono (w - 1) w (omega arith))
c_binop-lt w urem a c v ha hc e = ground (arith, mod-le a c)
c_binop-lt w srem a c v ha hc e =
    let r = magnitude w a % magnitude w c in
    ground (arith, mod-lt (2 ^ w - r) (pow_pos w), mod-le (magnitude w a) (magnitude w c))
c_binop-lt w shl a c v ha hc e = ground (arith, mod-lt (a * 2 ^ c) (pow_pos w))
c_binop-lt w lshr a c v ha hc e = ground (arith, div-le_self a (2 ^ c))
c_binop-lt w ashr a c v ha hc e = ground (arith, pow_pos w, div-le_self a (2 ^ c))
c_binop-lt w bitand a c v ha hc e = ground (arith, digits_lt bit_and w (bit_and-mod w) a c ha hc)
c_binop-lt w bitor a c v ha hc e = ground (arith, digits_lt bit_or w (bit_or-mod w) a c ha hc)
c_binop-lt w bitxor a c v ha hc e = ground (arith, digits_lt bit_xor w (bit_xor-mod w) a c ha hc)

-- On the low bits of the operands the operators of the ring and those on digits are exact.
pub add-Low :
    (n : Narrow) (a c v : ℕ)
    → c_binop (bits n) add (a % 2 ^ bits n) (c % 2 ^ bits n) ≡ some v
    → Low (bits n) (c_binop 32 add a c) v
unfolding c_binop
add-Low n8 a c v e = ((a + c) % 2 ^ 32, refl, ground arith)
add-Low n16 a c v e = ((a + c) % 2 ^ 32, refl, ground arith)
add-Low n32 a c v e = ((a + c) % 2 ^ 32, refl, ground arith)

pub sub-Low :
    (n : Narrow) (a c v : ℕ)
    → c < 2 ^ 32
    → c_binop (bits n) sub (a % 2 ^ bits n) (c % 2 ^ bits n) ≡ some v
    → Low (bits n) (c_binop 32 sub a c) v
unfolding c_binop
sub-Low n8 a c v h e = ((a + 2 ^ 32 - c) % 2 ^ 32, refl, ground arith)
sub-Low n16 a c v h e = ((a + 2 ^ 32 - c) % 2 ^ 32, refl, ground arith)
sub-Low n32 a c v h e = ((a + 2 ^ 32 - c) % 2 ^ 32, refl, ground arith)

pub mul-Low :
    (n : Narrow) (a c v : ℕ)
    → c_binop (bits n) mul (a % 2 ^ bits n) (c % 2 ^ bits n) ≡ some v
    → Low (bits n) (c_binop 32 mul a c) v
unfolding c_binop
mul-Low n8 a c v e = (a * c % 2 ^ 32, refl, ground (arith, mul-mod a c (2 ^ 8)))
mul-Low n16 a c v e = (a * c % 2 ^ 32, refl, ground (arith, mul-mod a c (2 ^ 16)))
mul-Low n32 a c v e = (a * c % 2 ^ 32, refl, ground (arith, mul-mod a c (2 ^ 32)))

pub bitand-Low :
    (n : Narrow) (a c v : ℕ)
    → c_binop (bits n) bitand (a % 2 ^ bits n) (c % 2 ^ bits n) ≡ some v
    → Low (bits n) (c_binop 32 bitand a c) v
unfolding c_binop
bitand-Low n a c v e = (bit_and a c, refl, ground (arith, bit_and-mod (bits n) a c))

pub bitor-Low :
    (n : Narrow) (a c v : ℕ)
    → c_binop (bits n) bitor (a % 2 ^ bits n) (c % 2 ^ bits n) ≡ some v
    → Low (bits n) (c_binop 32 bitor a c) v
unfolding c_binop
bitor-Low n a c v e = (bit_or a c, refl, ground (arith, bit_or-mod (bits n) a c))

pub bitxor-Low :
    (n : Narrow) (a c v : ℕ)
    → c_binop (bits n) bitxor (a % 2 ^ bits n) (c % 2 ^ bits n) ≡ some v
    → Low (bits n) (c_binop 32 bitxor a c) v
unfolding c_binop
bitxor-Low n a c v e = (bit_xor a c, refl, ground (arith, bit_xor-mod (bits n) a c))

-- A shift to the left, by a count of which the machine sees no other bits.
pub shl-Low :
    (n : Narrow) (a c v : ℕ)
    → c < 2 ^ bits n
    → c_binop (bits n) shl (a % 2 ^ bits n) (c % 2 ^ bits n) ≡ some v
    → Low (bits n) (c_binop 32 shl a c) v
unfolding c_binop
shl-Low n8 a c v h e = (
  a * 2 ^ c % 2 ^ 32,
  ground arith,
  ground (arith, mul-mod a (2 ^ c) (2 ^ 8), mul-mod (a % 2 ^ 8) (2 ^ c) (2 ^ 8)),
)
shl-Low n16 a c v h e = (
  a * 2 ^ c % 2 ^ 32,
  ground arith,
  ground (arith, mul-mod a (2 ^ c) (2 ^ 16), mul-mod (a % 2 ^ 16) (2 ^ c) (2 ^ 16)),
)
shl-Low n32 a c v h e = (
  a * 2 ^ c % 2 ^ 32,
  ground arith,
  ground (arith, mul-mod a (2 ^ c) (2 ^ 32), mul-mod (a % 2 ^ 32) (2 ^ c) (2 ^ 32)),
)

-- The operators that read the upper bits are exact on words that have none.
pub udiv-Low :
    (n : Narrow) (a c v : ℕ)
    → a < 2 ^ bits n
    → c < 2 ^ bits n
    → c_binop (bits n) udiv (a % 2 ^ bits n) (c % 2 ^ bits n) ≡ some v
    → Low (bits n) (c_binop 32 udiv a c) v
unfolding c_binop
udiv-Low n8 a c v ha hc e = (a / c, ground arith, ground (arith, div-le_self a c))
udiv-Low n16 a c v ha hc e = (a / c, ground arith, ground (arith, div-le_self a c))
udiv-Low n32 a c v ha hc e = (a / c, ground arith, ground (arith, div-le_self a c))

pub urem-Low :
    (n : Narrow) (a c v : ℕ)
    → a < 2 ^ bits n
    → c < 2 ^ bits n
    → c_binop (bits n) urem (a % 2 ^ bits n) (c % 2 ^ bits n) ≡ some v
    → Low (bits n) (c_binop 32 urem a c) v
unfolding c_binop
urem-Low n8 a c v ha hc e = (a % c, ground arith, ground (arith, mod-le a c))
urem-Low n16 a c v ha hc e = (a % c, ground arith, ground (arith, mod-le a c))
urem-Low n32 a c v ha hc e = (a % c, ground arith, ground (arith, mod-le a c))

pub lshr-Low :
    (n : Narrow) (a c v : ℕ)
    → a < 2 ^ bits n
    → c < 2 ^ bits n
    → c_binop (bits n) lshr (a % 2 ^ bits n) (c % 2 ^ bits n) ≡ some v
    → Low (bits n) (c_binop 32 lshr a c) v
unfolding c_binop
lshr-Low n8 a c v ha hc e = (a / 2 ^ c, ground arith, ground (arith, div-le_self a (2 ^ c)))
lshr-Low n16 a c v ha hc e = (a / 2 ^ c, ground arith, ground (arith, div-le_self a (2 ^ c)))
lshr-Low n32 a c v ha hc e = (a / 2 ^ c, ground arith, ground (arith, div-le_self a (2 ^ c)))
