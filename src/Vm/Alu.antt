-- ===== src/Vm/Alu.antt =====
-- The integer arithmetic of C on `w`-bit words, as the instructions of vm_exec in src/vmir_vm.c use it
-- on int, unsigned and their 64-bit forms. A word is its bit pattern. What C leaves undefined is none.
pub mod Truncate
use vmir.Common.{
  ℕ, suc, ◌+◌, ◌-◌, ◌*◌, ◌/◌, ◌%◌, ◌^◌, Bool, true, false, not, Option, none, some, ltb, leb, ◌==◌,
  if◌then◌else◌,
}
use Prim.Native.Nat.{bit_and, bit_or, bit_xor}
use vmir.Vm.{
  Binop, add, sub, mul, udiv, sdiv, urem, srem, shl, lshr, ashr, bitand, bitor, bitxor, IcmpPred,
  eq, ne, ugt, uge, ult, ule, sgt, sge, slt, sle,
}

-- The sign bit, and the magnitude, of a signed word.
abbrev pub negative : (w a : ℕ) → Bool
negative w a = leb (2 ^ (w - 1)) a

abbrev pub magnitude : (w a : ℕ) → ℕ
magnitude w a = if negative w a then 2 ^ w - a else a

-- The word of a signed number, given by its sign and magnitude.
abbrev pub signed : (w : ℕ) → Bool → ℕ → ℕ
signed w neg m = if neg then (2 ^ w - m) % 2 ^ w else m

-- The word of `v` bits as one of `w` bits.
abbrev pub sext : (v w a : ℕ) → ℕ
sext v w a = if negative v a then a + (2 ^ w - 2 ^ v) else a

abbrev pub xor_sign : Bool → Bool → Bool
xor_sign true q = not q
xor_sign false q = q

-- A quotient that rounds to zero, unless it is the one that no word holds.
abbrev pub signed_quotient : (w : ℕ) → Bool → ℕ → Option ℕ
signed_quotient w true q = some (signed w true q)
signed_quotient w false q = if leb (2 ^ (w - 1)) q then none else some q

unfoldable pub c_sdiv : (w a b : ℕ) → Option ℕ
c_sdiv w a b =
    if b == 0
    then none
    else signed_quotient w (xor_sign (negative w a) (negative w b)) (magnitude w a / magnitude w b)

-- A remainder is undefined with the quotient.
abbrev pub remainder_of : (quotient : Option ℕ) → ℕ → Option ℕ
remainder_of none r = none
remainder_of (some q) r = some r

unfoldable pub c_srem : (w a b : ℕ) → Option ℕ
unfolding c_sdiv
c_srem w a b = remainder_of (c_sdiv w a b) (signed w (negative w a) (magnitude w a % magnitude w b))

-- `>>` of a signed word, which fills with the sign.
unfoldable pub c_ashr : (w a k : ℕ) → Option ℕ
c_ashr w a k =
    if leb w k
    then none
    else if negative w a
    then some (2 ^ w - 1 - (2 ^ w - 1 - a) / 2 ^ k)
    else some (a / 2 ^ k)

unfoldable pub c_binop : (w : ℕ) → Binop → ℕ → ℕ → Option ℕ
unfolding c_sdiv c_srem c_ashr
c_binop w add a b = some ((a + b) % 2 ^ w)
c_binop w sub a b = some ((a + 2 ^ w - b) % 2 ^ w)
c_binop w mul a b = some (a * b % 2 ^ w)
c_binop w udiv a b = if b == 0 then none else some (a / b)
c_binop w sdiv a b = c_sdiv w a b
c_binop w urem a b = if b == 0 then none else some (a % b)
c_binop w srem a b = c_srem w a b
c_binop w shl a b = if leb w b then none else some (a * 2 ^ b % 2 ^ w)
c_binop w lshr a b = if leb w b then none else some (a / 2 ^ b)
c_binop w ashr a b = c_ashr w a b
c_binop w bitand a b = some (bit_and a b)
c_binop w bitor a b = some (bit_or a b)
c_binop w bitxor a b = some (bit_xor a b)

-- `<` on signed words.
abbrev pub slt_word : (w a b : ℕ) → Bool
slt_word w a b = ltb ((a + 2 ^ (w - 1)) % 2 ^ w) ((b + 2 ^ (w - 1)) % 2 ^ w)

unfoldable pub c_compare : (w : ℕ) → IcmpPred → ℕ → ℕ → Bool
c_compare w eq a b = a == b
c_compare w ne a b = not (a == b)
c_compare w ugt a b = ltb b a
c_compare w uge a b = leb b a
c_compare w ult a b = ltb a b
c_compare w ule a b = leb a b
c_compare w sgt a b = slt_word w b a
c_compare w sge a b = not (slt_word w a b)
c_compare w slt a b = slt_word w a b
c_compare w sle a b = not (slt_word w b a)
