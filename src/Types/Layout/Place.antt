-- ===== src/Types/Layout/Place.antt =====
-- The placing of elements with known sizes and alignments: what the loop of type_struct_layout does
-- with the numbers, and where the elements come to lie.
use vmir.Common.{
  ℕ, ◌+◌, ◌-◌, ◌*◌, ◌/◌, ◌%◌, ◌^◌, ◌≤◌, ◌<◌, ◌≡◌, ◌∙◌, ap, Bool, true, false, List, [], ◌∷◌, arith,
  ltb, Bool-cases, inl, inr, All,
}
use vmir.Common.Bits.{bit_and_field, pow_pos, pow_sum}
use native.Mathlib.Nat.{mod-eq_of_lt, div-lt_iff_lt-mul}
use vmir.Types.Layout.{vmir_align, vmir_max}

-- The next multiple of `2 ^ k`, for an address that is not near the end of the words.
vmir_align_lem :
    (k a : ℕ) → k < 31 → a + 2 ^ k < 2 ^ 31 → vmir_align a (2 ^ k) ≡ (a + 2 ^ k - 1) / 2 ^ k * 2 ^ k
unfolding vmir_align
vmir_align_lem k a hk h =
    rw (x, mask)
      (bit_and_field k (32 - k) (a + 2 ^ k - 1) ∙ ap (λ (t : ℕ). t * 2 ^ k) (mod-eq_of_lt small))
  where
    pos : 1 ≤ 2 ^ k
    pos = pow_pos k

    word : 32 ≡ 32 - k + k
    word = omega arith

    p : 2 ^ 32 ≡ 2 ^ (32 - k) * 2 ^ k
    p = ap (λ (t : ℕ). 2 ^ t) word ∙ pow_sum (32 - k) k

    x : (a + 2 ^ k + 2 ^ 32 - 1) % 2 ^ 32 ≡ a + 2 ^ k - 1
    x = omega (arith, pos)

    ones : 2 ^ (32 - k) ≡ 2 ^ (32 - k) - 1 + 1
    ones = omega (arith, pow_pos (32 - k))

    mask : (2 ^ 32 - 2 ^ k) % 2 ^ 32 ≡ (2 ^ (32 - k) - 1) * 2 ^ k
    mask = omega (arith, pos, p, ap (λ (t : ℕ). t * 2 ^ k) ones)

    small : (a + 2 ^ k - 1) / 2 ^ k < 2 ^ (32 - k)
    small = (div-lt_iff_lt-mul pos).1 (omega (arith, p))

-- The alignments that type_alignment_ptr gives to anything but `void`.
pub data IsAlignment : ℕ → Type 0 where
  one : {a : ℕ} → a ≡ 1 → IsAlignment a
  two : {a : ℕ} → a ≡ 2 → IsAlignment a
  four : {a : ℕ} → a ≡ 4 → IsAlignment a
  eight : {a : ℕ} → a ≡ 8 → IsAlignment a

-- `o` is the first multiple of `b` from `a` on.
abbrev pub IsNext : ℕ → ℕ → ℕ → Type 0
IsNext a b o = (a ≤ o) × (o < a + b) × (o % b ≡ 0)

pub vmir_align-IsNext : (a b : ℕ) → IsAlignment b → a + 8 < 2 ^ 31 → IsNext a b (vmir_align a b)
vmir_align-IsNext a b (one e) h =
    rw (e, vmir_align_lem 0 a (omega arith) (omega arith)) (omega arith)
vmir_align-IsNext a b (two e) h =
    rw (e, vmir_align_lem 1 a (omega arith) (omega arith)) (omega arith)
vmir_align-IsNext a b (four e) h =
    rw (e, vmir_align_lem 2 a (omega arith) (omega arith)) (omega arith)
vmir_align-IsNext a b (eight e) h =
    rw (e, vmir_align_lem 3 a (omega arith) (omega arith)) (omega arith)

pub IsAlignment-le : (a : ℕ) → IsAlignment a → (1 ≤ a) × (a ≤ 8)
IsAlignment-le a (one e) = omega arith
IsAlignment-le a (two e) = omega arith
IsAlignment-le a (four e) = omega arith
IsAlignment-le a (eight e) = omega arith

pub vmir_max-IsAlignment : (a b : ℕ) → IsAlignment a → IsAlignment b → IsAlignment (vmir_max a b)
unfolding vmir_max
vmir_max-IsAlignment a b ha hb = elim (Bool-cases (ltb b a)) [ inl e ↦ rw e ha | inr e ↦ rw e hb ]

-- Sizes and alignments of the elements.
abbrev pub Shapes : Type 0
Shapes = List (ℕ × ℕ)

-- Where an element goes: right behind the last if the struct is packed, else at the next multiple of
-- its alignment.
abbrev pub Fits : Bool → ℕ → ℕ → ℕ → Type 0
Fits true a lo o = o ≡ lo
Fits false a lo o = IsNext lo a o

-- The offsets place the elements one after the other, from `lo` to `end`.
abbrev pub Placed : Bool → Shapes → List ℕ → ℕ → ℕ → Type 0
Placed packed [] [] lo end = lo ≡ end
Placed packed [] (o ∷ os) lo end = ⊥
Placed packed (sa ∷ es) [] lo end = ⊥
Placed packed ((s, a) ∷ es) (o ∷ os) lo end = Fits packed a lo o × Placed packed es os (o + s) end

-- Room for the elements with the padding before each.
unfoldable pub room : Shapes → ℕ
room [] = 0
room ((s, a) ∷ es) = s + 8 + room es

pub Placed-le :
    (packed : Bool) (es : Shapes) (os : List ℕ) (lo end : ℕ)
    → All (λ (s, a). IsAlignment a) es
    → Placed packed es os lo end
    → (lo ≤ end) × (end ≤ lo + room es)
unfolding room
Placed-le packed [] [] lo end al p = omega arith
Placed-le packed [] (o ∷ os) lo end al p = absurd p
Placed-le packed (sa ∷ es) [] lo end al p = absurd p
Placed-le true ((s, a) ∷ es) (o ∷ os) lo end al p =
    omega (arith, Placed-le true es os (o + s) end (al.1) (p.1))
Placed-le false ((s, a) ∷ es) (o ∷ os) lo end al p =
    omega (arith, IsAlignment-le a (al.0), Placed-le false es os (o + s) end (al.1) (p.1))
