-- ===== src/Common/Bits.antt =====
-- Laws of the bit operations at variables, from their digit recursion.
use Prim.Native.Nat.{
  ℕ, zero, suc, ◌+◌, ◌-◌, ◌*◌, ◌/◌, ◌%◌, ◌^◌, ◌≤◌, ◌<◌, min, max, bit_and, bit_or, bit_xor, differ,
  digits, bit_and-bitwise, bit_or-bitwise, bit_xor-bitwise,
}
use mathlib.Core.Path.{◌≡◌, refl, sym, ◌∙◌, ap}
use native.Mathlib.Omega.{arith}
use native.Mathlib.Nat.{
  zero-add, suc-add, div-add-mod, mod-lt, pow-succ', div-div-eq-div-mul, add-mul-div_right,
  div-eq_of_lt, add-mul-mod_self_right, mod-eq_of_lt, add-mul-mod_self_left,
}

-- The digit recursion does not depend on its count, once that is large enough.
module _ (z : ℕ → ℕ) (f : ℕ → ℕ → ℕ) where
  digits_count : (n m a b : ℕ) → a ≤ n → a ≤ m → digits z f n a b ≡ digits z f m a b
  digits_count zero zero a b p q = refl
  digits_count zero (suc m) zero b p q = refl
  digits_count zero (suc m) (suc a) b p q = absurd (omega arith)
  digits_count (suc n) zero zero b p q = refl
  digits_count (suc n) zero (suc a) b p q = absurd (omega arith)
  digits_count (suc n) (suc m) zero b p q = refl
  digits_count (suc n) (suc m) (suc a) b p q =
      omega (arith, digits_count n m (suc a / 2) (b / 2) (omega arith) (omega arith))

zero-bit_and : (b : ℕ) → bit_and 0 b ≡ 0
zero-bit_and b = bit_and-bitwise 0 b

pub zero-bit_or : (b : ℕ) → bit_or 0 b ≡ b
zero-bit_or b = bit_or-bitwise 0 b

-- The lowest digit of `a & b` and of `a | b`.
pub bit_and_digit : (a b : ℕ) → bit_and a b ≡ bit_and (a / 2) (b / 2) * 2 + min (a % 2) (b % 2)
bit_and_digit zero b = omega (arith, zero-bit_and b, zero-bit_and (b / 2))
bit_and_digit (suc a) b = omega (
  arith,
  bit_and-bitwise (suc a) b,
  bit_and-bitwise (suc a / 2) (b / 2),
  digits_count (λ b. zero) min a (suc a / 2) (suc a / 2) (b / 2) (omega arith) (omega arith),
)

pub bit_or_digit : (a b : ℕ) → bit_or a b ≡ bit_or (a / 2) (b / 2) * 2 + max (a % 2) (b % 2)
bit_or_digit zero b = omega (arith, zero-bit_or b, zero-bit_or (b / 2))
bit_or_digit (suc a) b = omega (
  arith,
  bit_or-bitwise (suc a) b,
  bit_or-bitwise (suc a / 2) (b / 2),
  digits_count (λ b. b) max a (suc a / 2) (suc a / 2) (b / 2) (omega arith) (omega arith),
)

pub bit_xor_digit : (a b : ℕ) → bit_xor a b ≡ bit_xor (a / 2) (b / 2) * 2 + differ (a % 2) (b % 2)
bit_xor_digit zero b =
    let zero_xor : (c : ℕ) → bit_xor 0 c ≡ c = λ c. bit_xor-bitwise 0 c in
    omega (arith, zero_xor b, zero_xor (b / 2))
bit_xor_digit (suc a) b = omega (
  arith,
  bit_xor-bitwise (suc a) b,
  bit_xor-bitwise (suc a / 2) (b / 2),
  digits_count (λ b. b) differ a (suc a / 2) (suc a / 2) (b / 2) (omega arith) (omega arith),
)

pub pow_double : (k : ℕ) → 2 ^ suc k ≡ 2 * 2 ^ k
pow_double k = pow-succ' 2 k

pub pow_pos : (k : ℕ) → 1 ≤ 2 ^ k
pow_pos zero = omega arith
pow_pos (suc k) = omega (arith, pow_pos k, pow_double k)

-- `2 ^ (j + k)` as a product.
pub pow_sum : (j k : ℕ) → 2 ^ (j + k) ≡ 2 ^ j * 2 ^ k
pow_sum zero k = rw zero-add (omega arith)
pow_sum (suc j) k =
    rw (suc-add, pow_double (j + k), pow_double j)
      (omega (arith, ap (λ (t : ℕ). 2 * t) (pow_sum j k)))

pub pow_mono : (j k : ℕ) → j ≤ k → 2 ^ j ≤ 2 ^ k
pow_mono j k h =
    let e : k ≡ k - j + j = omega arith in
    let p : 2 ^ k ≡ 2 ^ (k - j) * 2 ^ j = ap (λ (t : ℕ). 2 ^ t) e ∙ pow_sum (k - j) j in
    grind (arith, p, pow_pos (k - j))

-- `a | (b << k)` is a sum when `a` has `k` bits at most.
pub bit_or_shifted : (k a b : ℕ) → a < 2 ^ k → bit_or a (b * 2 ^ k) ≡ a + b * 2 ^ k
bit_or_shifted zero a b h =
    let e : a ≡ 0 = omega arith in rw e (zero-bit_or (b * 2 ^ 0) ∙ omega arith)
bit_or_shifted (suc k) a b h =
    let d : b * 2 ^ suc k ≡ 2 * (b * 2 ^ k) = rw (pow_double k) (omega arith) in
    let half : 2 * (b * 2 ^ k) / 2 ≡ b * 2 ^ k = omega arith in
    rw d (
      bit_or_digit a (2 * (b * 2 ^ k))
      ∙ rw (half, bit_or_shifted k (a / 2) b (omega (arith, pow_double k))) (omega arith))

bit_and_zero_below : (n a : ℕ) → a ≤ n → bit_and a 0 ≡ 0
bit_and_zero_below n zero h = refl
bit_and_zero_below zero (suc a) h = absurd (omega arith)
bit_and_zero_below (suc n) (suc a) h =
    omega (arith, bit_and_digit (suc a) 0, bit_and_zero_below n (suc a / 2) (omega arith))

-- The digits of `a` in the mixed base of `m` and `n`.
pub mod_split : (a m n : ℕ) → 1 ≤ m → 1 ≤ n → a % (m * n) ≡ a / m % n * m + a % m
mod_split a m n hm hn =
    let q = a / m in
    let r = q % n * m + a % m in
    let e : a ≡ r + m * n * (q / n) =
      omega (arith, div-add-mod a m, ap (λ (t : ℕ). m * t) (div-add-mod q n)) in
    let small : r < m * n = grind (arith, mod-lt q hn, mod-lt a hm) in
    ap (λ (t : ℕ). t % (m * n)) e ∙ add-mul-mod_self_left r (m * n) (q / n) ∙ mod-eq_of_lt small

-- `a & ((1 << k) - 1)` keeps the low `k` bits.
pub bit_and_mask : (k a : ℕ) → bit_and a (2 ^ k - 1) ≡ a % 2 ^ k
bit_and_mask zero a = omega (arith, bit_and_zero_below a a (omega arith))
bit_and_mask (suc k) a =
    let e : (2 ^ suc k - 1) / 2 ≡ 2 ^ k - 1 = omega (arith, pow_pos k, pow_double k) in
    bit_and_digit a (2 ^ suc k - 1)
    ∙ rw (e, bit_and_mask k (a / 2), pow_double k)
        (omega (arith, pow_pos k, mod_split a 2 (2 ^ k) (omega arith) (pow_pos k)))

-- `(1 << j) & a` keeps the digit at place `j`.
pub bit_and_power : (j a : ℕ) → bit_and (2 ^ j) a ≡ a / 2 ^ j % 2 * 2 ^ j
bit_and_power zero a = omega (arith, bit_and_digit 1 a, zero-bit_and (a / 2))
bit_and_power (suc j) a =
    let half : 2 * 2 ^ j / 2 ≡ 2 ^ j = omega arith in
    rw (pow_double j) (
      bit_and_digit (2 * 2 ^ j) a
      ∙ rw (half, bit_and_power j (a / 2), div-div-eq-div-mul a 2 (2 ^ j)) (omega arith))

-- A quotient and a remainder are determined by the number they make up.
pub digits_unique : (a b c d m : ℕ) → b < m → d < m → b + a * m ≡ d + c * m → (a ≡ c) × (b ≡ d)
digits_unique a b c d m hb hd e = (high, low)
  where
    pos : 0 < m
    pos = omega arith

    quotient : (x y : ℕ) → x < m → (x + y * m) / m ≡ y
    quotient x y h = add-mul-div_right x y pos ∙ rw (div-eq_of_lt h, zero-add)

    high : a ≡ c
    high = sym (quotient b a hb) ∙ ap (λ (t : ℕ). t / m) e ∙ quotient d c hd

    low : b ≡ d
    low =
        sym (add-mul-mod_self_right b a m ∙ mod-eq_of_lt hb)
        ∙ ap (λ (t : ℕ). t % m) e
        ∙ add-mul-mod_self_right d c m
        ∙ mod-eq_of_lt hd

-- The two digits of `low + m`.
pub one_above : (low m : ℕ) → low < m → ((low + m) / m ≡ 1) × ((low + m) % m ≡ low)
one_above low m h = (
  rw e (add-mul-div_right low 1 (omega arith) ∙ rw (div-eq_of_lt h, zero-add)),
  rw e (add-mul-mod_self_right low 1 m ∙ mod-eq_of_lt h),
)
  where
    e : low + m ≡ low + 1 * m
    e = omega arith

-- A mask of `j` ones above `k` zeros.
pub bit_and_field : (k j a : ℕ) → bit_and a ((2 ^ j - 1) * 2 ^ k) ≡ a / 2 ^ k % 2 ^ j * 2 ^ k
bit_and_field zero j a =
    let one : (2 ^ j - 1) * 2 ^ 0 ≡ 2 ^ j - 1 = omega arith in
    let all : a / 2 ^ 0 ≡ a = omega arith in
    ap (bit_and a) one ∙ bit_and_mask j a ∙ rw all (omega arith)
bit_and_field (suc k) j a =
    let d : (2 ^ j - 1) * 2 ^ suc k ≡ 2 * ((2 ^ j - 1) * 2 ^ k) = rw (pow_double k) (omega arith) in
    let half : 2 * ((2 ^ j - 1) * 2 ^ k) / 2 ≡ (2 ^ j - 1) * 2 ^ k = omega arith in
    rw d (
      bit_and_digit a (2 * ((2 ^ j - 1) * 2 ^ k))
      ∙ rw (half, bit_and_field k j (a / 2), div-div-eq-div-mul a 2 (2 ^ k), pow_double k)
          (omega arith))

-- A function of two numbers whose lowest digit is that of theirs, and its rest that of their rests.
module _ (f d : ℕ → ℕ → ℕ) (digit : (a b : ℕ) → f a b ≡ f (a / 2) (b / 2) * 2 + d (a % 2) (b % 2))
    (low : (a b : ℕ) → d (a % 2) (b % 2) < 2) (none_left : f 0 0 ≡ 0) where
  pub digitwise-mod : (k a b : ℕ) → f (a % 2 ^ k) (b % 2 ^ k) ≡ f a b % 2 ^ k
  digitwise-mod zero a b =
      let za : a % 2 ^ 0 ≡ 0 = omega arith in
      let zb : b % 2 ^ 0 ≡ 0 = omega arith in rw (za, zb, none_left) (omega arith)
  digitwise-mod (suc k) a b =
      let q = f (a / 2) (b / 2) in
      let ea : a % 2 ^ suc k ≡ a / 2 % 2 ^ k * 2 + a % 2 =
        rw (pow_double k) (mod_split a 2 (2 ^ k) (omega arith) (pow_pos k)) in
      let eb : b % 2 ^ suc k ≡ b / 2 % 2 ^ k * 2 + b % 2 =
        rw (pow_double k) (mod_split b 2 (2 ^ k) (omega arith) (pow_pos k)) in
      let ha : a % 2 ^ suc k / 2 ≡ a / 2 % 2 ^ k = omega (arith, ea) in
      let hb : b % 2 ^ suc k / 2 ≡ b / 2 % 2 ^ k = omega (arith, eb) in
      let la : a % 2 ^ suc k % 2 ≡ a % 2 = omega (arith, ea) in
      let lb : b % 2 ^ suc k % 2 ≡ b % 2 = omega (arith, eb) in
      let whole : f a b % 2 ^ suc k ≡ f a b / 2 % 2 ^ k * 2 + f a b % 2 =
        rw (pow_double k) (mod_split (f a b) 2 (2 ^ k) (omega arith) (pow_pos k)) in
      let half : f a b / 2 ≡ q = omega (arith, digit a b, low a b) in
      let last : f a b % 2 ≡ d (a % 2) (b % 2) = omega (arith, digit a b, low a b) in
      digit (a % 2 ^ suc k) (b % 2 ^ suc k)
      ∙ rw (ha, hb, la, lb, digitwise-mod k (a / 2) (b / 2), whole, half, last) refl

pub bit_and-mod : (k a b : ℕ) → bit_and (a % 2 ^ k) (b % 2 ^ k) ≡ bit_and a b % 2 ^ k
bit_and-mod = digitwise-mod bit_and min bit_and_digit (λ a b. omega arith) refl

pub bit_or-mod : (k a b : ℕ) → bit_or (a % 2 ^ k) (b % 2 ^ k) ≡ bit_or a b % 2 ^ k
bit_or-mod = digitwise-mod bit_or max bit_or_digit (λ a b. omega arith) refl

differ-lt : (x y : ℕ) → x < 2 → y < 2 → differ x y < 2
differ-lt zero y p q = q
differ-lt (suc zero) zero p q = omega arith
differ-lt (suc zero) (suc y) p q = omega arith
differ-lt (suc (suc x)) y p q = absurd (omega arith)

pub bit_xor-mod : (k a b : ℕ) → bit_xor (a % 2 ^ k) (b % 2 ^ k) ≡ bit_xor a b % 2 ^ k
bit_xor-mod =
    digitwise-mod bit_xor differ bit_xor_digit
      (λ a b. differ-lt (a % 2) (b % 2) (omega arith) (omega arith)) refl

product : (m q r p s : ℕ) → (m * q + r) * (m * p + s) ≡ r * s + m * (q * (m * p + s) + r * p)
product m q r p s = omega arith

-- A product modulo `m` is that of the remainders.
pub mul-mod : (a b m : ℕ) → a * b % m ≡ a % m * (b % m) % m
mul-mod a b m =
    let more = a / m * (m * (b / m) + b % m) + a % m * (b / m) in
    let e : a * b ≡ a % m * (b % m) + m * more =
      ap (λ (t : ℕ). t * b) (sym (div-add-mod a m))
      ∙ ap (λ (t : ℕ). (m * (a / m) + a % m) * t) (sym (div-add-mod b m))
      ∙ product m (a / m) (a % m) (b / m) (b % m) in
    ap (λ (t : ℕ). t % m) e ∙ add-mul-mod_self_left (a % m * (b % m)) m more
