-- ===== src/Bitstream/Total.antt =====
-- The readers end on every input: what a read leaves behind at the end of the data.
use vmir.Common.{
  ℕ, zero, suc, ◌+◌, ◌-◌, ◌*◌, ◌%◌, ◌^◌, ◌≤◌, ◌<◌, ◌≡◌, ◌≢◌, refl, ◌∙◌, ◌⊎◌, inl, inr, min, leb,
  ◌==◌, Bool-cases, false, arith,
}
use vmir.Common.Bits.{bit_and_power, pow_pos}
use Prim.Native.Nat.{bit_or, bit_and}
use native.Mathlib.Nat.{div-eq_of_lt}
use vmir.Bitstream.{
  Bitstream, out_of_fuel, refill, consume, read_bits_loop, read_bits, read_vbr_loop, read_vbr,
  read_vbr64,
}

-- The number of unread bits.
abbrev unread : Bitstream → ℕ
unread bs = bs.remain + 8 * (bs.bytes_length - bs.bytes_offset)

unread-refill :
    (bs : Bitstream) → bs.bytes_offset < bs.bytes_length → unread (refill bs) ≡ unread bs
unfolding refill
unread-refill bs h = ground arith

refill_some : (bs : Bitstream) → 0 < (refill bs).remain
unfolding refill
refill_some bs = ground arith

positive : (num : ℕ) → (num == 0) ≡ false → 0 < num
positive num e = ground arith

after_round :
    (num : ℕ) (bs : Bitstream) (out : ℕ × Bitstream)
    → 0 < num
    → bs.bytes_offset < bs.bytes_length
    → let pick = min num (refill bs).remain in
      (out.0 ≡ 0) ⊎ (unread out.1 + (num - pick) ≡ unread (consume pick (refill bs)))
      → (out.0 ≡ 0) ⊎ (unread out.1 + num ≡ unread bs)
unfolding consume
after_round num bs out pos h (inl z) = inl z
after_round num bs out pos h (inr e) = inr (omega (arith, unread-refill bs h))

-- A read moves on by what was asked, or it returns 0.
read_bits_loop-unread :
    (fuel num r off : ℕ) (bs : Bitstream)
    → num ≤ fuel
    → ((read_bits_loop fuel num r off bs).0 ≡ 0)
      ⊎ (unread (read_bits_loop fuel num r off bs).1 + num ≡ unread bs)
unfolding read_bits_loop
read_bits_loop-unread zero num r off bs h = inr (omega arith)
read_bits_loop-unread (suc fuel) num r off bs h = elim (Bool-cases (num == 0)) [
  | inl e ↦ rw e (inr (ground arith))
  | inr e ↦ elim (Bool-cases (leb bs.bytes_length bs.bytes_offset)) [
    | inl ended ↦ rw (e, ended) (inl refl)
    | inr more ↦
        rw (e, more)
          (after_round num bs (read_bits_loop fuel _ _ _ _) (ground arith) (ground arith)
            (read_bits_loop-unread fuel _ _ _ _ (omega (arith, refill_some bs, positive num e))))
  ]
]

-- Where the last byte is taken, also while bits of it are still unread, `read_bits` of one bit or
-- more returns 0 and changes nothing.
read_bits-end :
    (bs : Bitstream) (num : ℕ)
    → bs.bytes_length ≤ bs.bytes_offset
    → 0 < num
    → read_bits bs num ≡ (0, bs)
unfolding read_bits
read_bits-end bs zero h pos = elim pos [ ]
read_bits-end bs (suc num) h pos = ground arith

read_bits-unread :
    (bs : Bitstream) (num : ℕ)
    → ((read_bits bs num).0 ≡ 0) ⊎ (unread (read_bits bs num).1 + num ≡ unread bs)
unfolding read_bits
read_bits-unread bs num = read_bits_loop-unread num num 0 0 bs (omega arith)

no_bit : (w : ℕ) → bit_and (2 ^ (w - 1)) 0 ≡ 0
no_bit w = bit_and_power (w - 1) 0 ∙ rw (div-eq_of_lt (pow_pos (w - 1))) (omega arith)

read_vbr_loop-ends :
    (limit fuel w ret stride : ℕ) (bs : Bitstream)
    → 0 < w
    → unread bs < fuel
    → read_vbr_loop limit fuel w ret stride bs ≢ out_of_fuel
unfolding read_vbr_loop
read_vbr_loop-ends limit zero w ret stride bs h f = elim f [ ]
read_vbr_loop-ends limit (suc fuel) w ret stride bs h f = elim (read_bits-unread bs w) [
  | inl z ↦ rw (z, no_bit w) (λ p. cc)
  | inr e ↦ λ p. ground (
    arith,
    read_vbr_loop-ends limit fuel w
        (bit_or ret (bit_and (read_bits bs w).0 (2 ^ (w - 1) - 1) * 2 ^ stride % 2 ^ limit))
        (stride + (w - 1)) (read_bits bs w).1 h,
  )
]

read_vbr_loop-suffices :
    (limit w : ℕ) (bs : Bitstream)
    → 0 < w
    → bs.remain ≤ 8 * bs.bytes_offset
    → read_vbr_loop limit (suc (8 * bs.bytes_length)) w 0 0 bs ≢ out_of_fuel
unfolding read_vbr_loop
read_vbr_loop-suffices limit w bs pos h = elim (Bool-cases (leb bs.bytes_length bs.bytes_offset)) [
  | inl ended ↦ rw (read_bits-end bs w (ground arith) pos, no_bit w) (λ p. cc)
  | inr more ↦ read_vbr_loop-ends limit (suc (8 * bs.bytes_length)) w 0 0 bs pos (ground arith)
]

-- `read_vbr` and `read_vbr64` end on every stream with no more bits left of the last byte than were
-- taken, valid or not: the fuel is enough.
pub read_vbr-ends :
    (bs : Bitstream) (w : ℕ)
    → bs.remain ≤ 8 * bs.bytes_offset
    → (read_vbr bs w ≢ out_of_fuel) × (read_vbr64 bs w ≢ out_of_fuel)
unfolding read_vbr read_vbr64
read_vbr-ends bs zero h = (λ p. cc, λ p. cc)
read_vbr-ends bs (suc w) h =
    let given : (suc w == 0) ≡ false = ground arith in
    (
      rw given (read_vbr_loop-suffices 32 (suc w) bs (omega arith) h),
      rw given (read_vbr_loop-suffices 64 (suc w) bs (omega arith) h),
    )
