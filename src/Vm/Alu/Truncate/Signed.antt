-- ===== src/Vm/Alu/Truncate/Signed.antt =====
-- The signed operators of C on 32-bit words, below the words of 8 and 16 bits that the emitters of
-- src/vmir_vm.c use them for.
use vmir.Common.{
  ℕ, ◌-◌, ◌/◌, ◌%◌, ◌^◌, ◌≤◌, ◌<◌, ◌≡◌, refl, sym, ◌∙◌, ap, Bool, true, false, Option, none, some,
  leb, ◌==◌, if◌then◌else◌, subst, inl, inr, Option-cases, arith,
}
use vmir.Common.Bits.{pow_pos}
use native.Mathlib.Nat.{div-le_self, mod-le}
use vmir.Vm.{sdiv, srem, ashr}
use vmir.Vm.Alu.{
  c_binop, c_sdiv, c_srem, c_ashr, sext, negative, magnitude, signed, signed_quotient, xor_sign,
  remainder_of,
}
use vmir.Vm.Exec.Binary.{exec_signed}
use vmir.Vm.Alu.Truncate.{Low, Narrow, bits, n8, n16, n32}

-- A signed word keeps its sign and magnitude when it is promoted.
sext-negative :
    (n : Narrow) (a : ℕ) → a < 2 ^ bits n → negative 32 (sext (bits n) 32 a) ≡ negative (bits n) a
sext-negative n8 a h = ground arith
sext-negative n16 a h = ground arith
sext-negative n32 a h = ground arith

sext-magnitude :
    (n : Narrow) (a : ℕ) → a < 2 ^ bits n → magnitude 32 (sext (bits n) 32 a) ≡ magnitude (bits n) a
sext-magnitude n8 a h = ground arith
sext-magnitude n16 a h = ground arith
sext-magnitude n32 a h = ground arith

sext-zero : (n : Narrow) (a : ℕ) → a < 2 ^ bits n → (sext (bits n) 32 a == 0) ≡ (a == 0)
sext-zero n8 a h = ground arith
sext-zero n16 a h = ground arith
sext-zero n32 a h = ground arith

quotient-Low :
    (n : Narrow) (neg : Bool) (q v : ℕ)
    → q ≤ 2 ^ (bits n - 1)
    → signed_quotient (bits n) neg q ≡ some v
    → Low (bits n) (signed_quotient 32 neg q) v
quotient-Low n8 true q v h e = ((2 ^ 32 - q) % 2 ^ 32, refl, ground arith)
quotient-Low n16 true q v h e = ((2 ^ 32 - q) % 2 ^ 32, refl, ground arith)
quotient-Low n32 true q v h e = ((2 ^ 32 - q) % 2 ^ 32, refl, ground arith)
quotient-Low n8 false q v h e = (q, ground arith, ground arith)
quotient-Low n16 false q v h e = (q, ground arith, ground arith)
quotient-Low n32 false q v h e = (q, ground arith, ground arith)

magnitude-le : (n : Narrow) (a : ℕ) → a < 2 ^ bits n → magnitude (bits n) a ≤ 2 ^ (bits n - 1)
magnitude-le n8 a h = ground arith
magnitude-le n16 a h = ground arith
magnitude-le n32 a h = ground arith

-- The quotient by the parts that it is made of.
abbrev quotient : (w : ℕ) → (zero_divisor neg_a neg_c : Bool) → (mag_a mag_c : ℕ) → Option ℕ
quotient w z p r x y = if z then none else signed_quotient w (xor_sign p r) (x / y)

sdiv-sext :
    (n : Narrow) (a c : ℕ)
    → a < 2 ^ bits n
    → c < 2 ^ bits n
    → c_sdiv 32 (sext (bits n) 32 a) (sext (bits n) 32 c)
      ≡ quotient 32
          (c == 0)
          (negative (bits n) a)
          (negative (bits n) c)
          (magnitude (bits n) a)
          (magnitude (bits n) c)
unfolding c_sdiv
sdiv-sext n a c ha hc =
    let A = sext (bits n) 32 a in
    let C = sext (bits n) 32 c in
    ap (λ z. quotient 32 z (negative 32 A) (negative 32 C) (magnitude 32 A) (magnitude 32 C))
      (sext-zero n c hc)
    ∙ ap (λ p. quotient 32 (c == 0) p (negative 32 C) (magnitude 32 A) (magnitude 32 C))
        (sext-negative n a ha)
    ∙ ap (λ p. quotient 32 (c == 0) (negative (bits n) a) p (magnitude 32 A) (magnitude 32 C))
        (sext-negative n c hc)
    ∙ ap (λ x. quotient 32 (c == 0) (negative (bits n) a) (negative (bits n) c) x (magnitude 32 C))
        (sext-magnitude n a ha)
    ∙ ap (quotient 32 (c == 0) (negative (bits n) a) (negative (bits n) c) (magnitude (bits n) a))
        (sext-magnitude n c hc)

-- Both quotients are defined by the same parts.
parts-Low :
    (n : Narrow) (z p r : Bool) (x y v : ℕ)
    → x ≤ 2 ^ (bits n - 1)
    → quotient (bits n) z p r x y ≡ some v
    → Low (bits n) (quotient 32 z p r x y) v
parts-Low n true p r x y v h e = absurd (cc)
parts-Low n false p r x y v h e =
    quotient-Low n (xor_sign p r) (x / y) v (omega (arith, div-le_self x y)) e

pub sdiv-Low :
    (n : Narrow) (a c v : ℕ)
    → a < 2 ^ bits n
    → c < 2 ^ bits n
    → c_binop (bits n) sdiv a c ≡ some v
    → Low (bits n) (exec_signed (bits n) sdiv a c) v
unfolding c_binop c_sdiv exec_signed
sdiv-Low n a c v ha hc e =
    subst (λ (o : Option ℕ). Low (bits n) o v) (sym (sdiv-sext n a c ha hc))
      (parts-Low n (c == 0) (negative (bits n) a) (negative (bits n) c) (magnitude (bits n) a)
        (magnitude (bits n) c) v (magnitude-le n a ha) e)

-- A remainder takes the sign of the dividend.
remainder-Low :
    (n : Narrow) (neg : Bool) (r v : ℕ)
    → r ≤ 2 ^ (bits n - 1)
    → signed (bits n) neg r ≡ v
    → signed 32 neg r % 2 ^ bits n ≡ v
remainder-Low n8 neg r v h e = ground arith
remainder-Low n16 neg r v h e = ground arith
remainder-Low n32 neg r v h e = ground arith

pub srem-Low :
    (n : Narrow) (a c v : ℕ)
    → a < 2 ^ bits n
    → c < 2 ^ bits n
    → c_binop (bits n) srem a c ≡ some v
    → Low (bits n) (exec_signed (bits n) srem a c) v
unfolding c_binop c_srem exec_signed
srem-Low n a c v ha hc e = elim (Option-cases (c_sdiv (bits n) a c)) [
  | inl none_eq ↦ absurd (no_remainder (c_sdiv (bits n) a c) none_eq e)
  | inr (q, q_eq) ↦
      let (x, x_eq, x_low) = sdiv-Low n a c q ha hc q_eq in
      (
        signed 32 (negative 32 A) (magnitude 32 A % magnitude 32 C),
        ap (λ o. remainder_of o (signed 32 (negative 32 A) (magnitude 32 A % magnitude 32 C))) x_eq,
        ap (λ t. t % 2 ^ bits n) parts
            ∙ remainder-Low n (negative (bits n) a) r v small
                (remainder (c_sdiv (bits n) a c) q_eq e),
      )
]
  where
    A : ℕ
    A = sext (bits n) 32 a

    C : ℕ
    C = sext (bits n) 32 c

    r : ℕ
    r = magnitude (bits n) a % magnitude (bits n) c

    small : r ≤ 2 ^ (bits n - 1)
    small = omega (arith, mod-le (magnitude (bits n) a) (magnitude (bits n) c), magnitude-le n a ha)

    parts :
        signed 32 (negative 32 A) (magnitude 32 A % magnitude 32 C)
        ≡ signed 32 (negative (bits n) a) r
    parts =
        ap (λ p. signed 32 p (magnitude 32 A % magnitude 32 C)) (sext-negative n a ha)
        ∙ ap (λ m. signed 32 (negative (bits n) a) (m % magnitude 32 C)) (sext-magnitude n a ha)
        ∙ ap (λ m. signed 32 (negative (bits n) a) (magnitude (bits n) a % m))
            (sext-magnitude n c hc)

    no_remainder :
        (o : Option ℕ)
        → o ≡ none
        → remainder_of o (signed (bits n) (negative (bits n) a) r) ≡ some v
        → ⊥
    no_remainder none p h = absurd (cc)
    no_remainder (some q) p h = absurd (cc)

    remainder :
        (o : Option ℕ) {q : ℕ}
        → o ≡ some q
        → remainder_of o (signed (bits n) (negative (bits n) a) r) ≡ some v
        → signed (bits n) (negative (bits n) a) r ≡ v
    remainder none p h = absurd (cc)
    remainder (some q) p h = cc

complement :
    (n : Narrow) (a : ℕ)
    → a < 2 ^ bits n
    → negative (bits n) a ≡ true
    → 2 ^ 32 - 1 - sext (bits n) 32 a ≡ 2 ^ bits n - 1 - a
complement n8 a h e = ground arith
complement n16 a h e = ground arith
complement n32 a h e = ground arith

itself :
    (n : Narrow) (a : ℕ) → a < 2 ^ bits n → negative (bits n) a ≡ false → sext (bits n) 32 a ≡ a
itself n8 a h e = ground arith
itself n16 a h e = ground arith
itself n32 a h e = ground arith

-- A shift by the sign, the complement and the word.
abbrev shift_of : (w k : ℕ) → Bool → (complement a : ℕ) → Option ℕ
shift_of w k neg y a =
    if leb w k then none else if neg then some (2 ^ w - 1 - y / 2 ^ k) else some (a / 2 ^ k)

-- Promoted, a word keeps its complement when it is negative and itself when it is not.
sext-shift :
    (n : Narrow) (a k : ℕ)
    → a < 2 ^ bits n
    → shift_of 32 k
        (negative 32 (sext (bits n) 32 a))
        (2 ^ 32 - 1 - sext (bits n) 32 a)
        (sext (bits n) 32 a)
      ≡ shift_of 32 k (negative (bits n) a) (2 ^ bits n - 1 - a) a
sext-shift n a k h =
    ap (λ p. shift_of 32 k p (2 ^ 32 - 1 - sext (bits n) 32 a) (sext (bits n) 32 a))
      (sext-negative n a h)
    ∙ rest (negative (bits n) a) refl
  where
    rest :
        (p : Bool)
        → negative (bits n) a ≡ p
        → shift_of 32 k p (2 ^ 32 - 1 - sext (bits n) 32 a) (sext (bits n) 32 a)
          ≡ shift_of 32 k p (2 ^ bits n - 1 - a) a
    rest true e = ap (λ y. shift_of 32 k true y a) (complement n a h e)
    rest false e = ap (λ y. shift_of 32 k false 0 y) (itself n a h e)

shift-Low :
    (n : Narrow) (k y a v : ℕ) (neg : Bool)
    → y < 2 ^ bits n
    → a < 2 ^ bits n
    → shift_of (bits n) k neg y a ≡ some v
    → Low (bits n) (shift_of 32 k neg y a) v
shift-Low n8 k y a v true hy ha e =
    (2 ^ 32 - 1 - y / 2 ^ k, ground arith, ground (arith, div-le_self y (2 ^ k)))
shift-Low n16 k y a v true hy ha e =
    (2 ^ 32 - 1 - y / 2 ^ k, ground arith, ground (arith, div-le_self y (2 ^ k)))
shift-Low n32 k y a v true hy ha e =
    (2 ^ 32 - 1 - y / 2 ^ k, ground arith, ground (arith, div-le_self y (2 ^ k)))
shift-Low n8 k y a v false hy ha e =
    (a / 2 ^ k, ground arith, ground (arith, div-le_self a (2 ^ k)))
shift-Low n16 k y a v false hy ha e =
    (a / 2 ^ k, ground arith, ground (arith, div-le_self a (2 ^ k)))
shift-Low n32 k y a v false hy ha e =
    (a / 2 ^ k, ground arith, ground (arith, div-le_self a (2 ^ k)))

pub ashr-Low :
    (n : Narrow) (a c v : ℕ)
    → a < 2 ^ bits n
    → c_binop (bits n) ashr a c ≡ some v
    → Low (bits n) (exec_signed (bits n) ashr a c) v
unfolding c_binop c_ashr exec_signed
ashr-Low n a c v h e =
    subst (λ (o : Option ℕ). Low (bits n) o v) (sym (sext-shift n a c h))
      (shift-Low n c (2 ^ bits n - 1 - a) a v (negative (bits n) a)
        (omega (arith, pow_pos (bits n))) h e)
