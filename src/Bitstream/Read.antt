-- ===== src/Bitstream/Read.antt =====
-- `read_bits` returns the next bits of the stream and moves past them.
use vmir.Common.{
  ℕ, zero, suc, ◌+◌, ◌-◌, ◌*◌, ◌/◌, ◌%◌, ◌^◌, ◌≤◌, ◌<◌, ◌≡◌, refl, ap, ◌∙◌, inl, inr, min, leb,
  ◌==◌, Bool-cases, false, arith,
}
use vmir.Common.Bits.{bit_or_shifted, pow_pos, pow_sum, mod_split}
use Prim.Native.Nat.{bit_or}
use native.Mathlib.Nat.{mod-lt, div-div-eq-div-mul}
use vmir.Bitstream.{Bitstream, refill, consume, picked, read_bits_loop, read_bits}
use vmir.Bitstream.Field.{
  IsValid, pending, Refilled, refill-Refilled, pending-consume, consume-IsValid, picked-mod,
}

-- `out` comes from reading `num` bits of `bs` onto the `off` bits `r`.
pub record Reads (num r off : ℕ) (bs : Bitstream) (out : ℕ × Bitstream) : Type 0 where
  pub value : out.0 ≡ r + pending bs % 2 ^ num * 2 ^ off
  pub rest : pending out.1 ≡ pending bs / 2 ^ num
  pub valid : IsValid out.1
  pub place : 8 * out.1.bytes_offset + bs.remain ≡ 8 * bs.bytes_offset + out.1.remain + num
  pub total : out.1.bytes_length ≡ bs.bytes_length

-- The bits are there: `num` of them are unread, and the last byte is not yet taken.
pub record Available (num : ℕ) (bs : Bitstream) : Type 0 where
  pub enough : 8 * bs.bytes_offset + num ≤ bs.remain + 8 * bs.bytes_length
  pub not_last : 0 < num → bs.bytes_offset < bs.bytes_length

Reads-none : (r off : ℕ) (bs : Bitstream) → IsValid bs → Reads 0 r off bs (r, bs)
Reads-none r off bs v = record {
  value = let z : pending bs % 2 ^ 0 ≡ 0 = omega arith in rw z (omega arith);
  rest = omega arith;
  valid = v;
  place = omega arith;
  total = refl;
}

-- A round that takes `pick` bits, then the rounds that take the others.
module _ (num r off : ℕ) (bs : Bitstream) (v : IsValid bs) (some_asked : 0 < num)
    (r_fits : r < 2 ^ off) (in_word : off + num ≤ 32) (there : Available num bs) where
  abbrev after : Refilled bs (refill bs)
  after = refill-Refilled bs v (there.not_last some_asked)

  abbrev pick : ℕ
  pick = min num (refill bs).remain

  abbrev r' : ℕ
  r' = bit_or r (picked pick off (refill bs))

  abbrev c : Bitstream
  c = consume pick (refill bs)

  some_picked : 0 < min num (refill bs).remain
  some_picked = omega (arith, after.some_left)

  c_valid : IsValid c
  c_valid = consume-IsValid (refill bs) pick after.valid after.fits (omega arith) after.sum

  pending-c : pending c ≡ pending bs / 2 ^ pick
  pending-c =
      pending-consume (refill bs) pick after.valid after.fits (omega arith) after.sum
      ∙ rw (after.same)

  picked_bits : picked pick off (refill bs) ≡ pending bs % 2 ^ pick * 2 ^ off
  picked_bits =
      picked-mod (refill bs) pick after.valid after.fits (omega arith) after.sum off (omega arith)
      ∙ rw (after.same)

  r'_sum : r' ≡ r + pending bs % 2 ^ pick * 2 ^ off
  r'_sum = rw picked_bits (bit_or_shifted off r (pending bs % 2 ^ pick) r_fits)

  r'_fits : r' < 2 ^ (off + pick)
  r'_fits = grind (arith, r'_sum, mod-lt (pending bs) (pow_pos pick), pow_sum off pick, pow_pos off)

  pow_num : 2 ^ num ≡ 2 ^ pick * 2 ^ (num - pick)
  pow_num =
      let e : num ≡ pick + (num - pick) = omega arith in
      ap (λ (t : ℕ). 2 ^ t) e ∙ pow_sum pick (num - pick)

  Available-c : Available (num - pick) c
  unfolding consume
  Available-c = record {
    enough = omega (arith, after.place, after.total, there.enough);
    not_last = λ h. omega (arith, after.place, after.total, there.enough);
  }

  Reads-more :
      {out : ℕ × Bitstream} → Reads (num - pick) r' (off + pick) c out → Reads num r off bs out
  unfolding consume
  Reads-more h = record {
    value =
        h.value
        ∙ rw
            (
              r'_sum,
              pending-c,
              pow_num,
              mod_split (pending bs) (2 ^ pick) (2 ^ (num - pick)) (pow_pos pick)
                  (pow_pos (num - pick)),
              pow_sum off pick,
            )
            (omega arith);
    rest = h.rest ∙ rw (pending-c, pow_num) (div-div-eq-div-mul _ _ _);
    valid = h.valid;
    place = omega (arith, h.place, after.place);
    total = h.total ∙ after.total;
  }

read_bits_loop-Reads :
    (fuel num r off : ℕ) (bs : Bitstream)
    → IsValid bs
    → num ≤ fuel
    → r < 2 ^ off
    → off + num ≤ 32
    → Available num bs
    → Reads num r off bs (read_bits_loop fuel num r off bs)
unfolding read_bits_loop
read_bits_loop-Reads zero num r off bs v hf hr hw there =
    let e : num ≡ 0 = omega arith in rw e (Reads-none r off bs v)
read_bits_loop-Reads (suc fuel) num r off bs v hf hr hw there = elim (Bool-cases (num == 0)) [
  | inl e ↦ let z : num ≡ 0 = ground arith in rw z (Reads-none r off bs v)
  | inr e ↦
      let more : 0 < num = ground arith in
      let loaded : leb bs.bytes_length bs.bytes_offset ≡ false = ground (arith, there.not_last) in
      rw (e, loaded)
        (Reads-more num r off bs v more hr hw there (
          read_bits_loop-Reads fuel _ _ _ _ (c_valid num r off bs v more hr hw there)
            (omega (arith, some_picked num r off bs v more hr hw there))
            (r'_fits num r off bs v more hr hw there) (omega arith)
            (Available-c num r off bs v more hr hw there)))
]

-- On a valid stream with up to 32 bits at hand before the last byte is taken, `read_bits` returns
-- them as a number, low bit first, leaves the bits above them, and moves as many places on.
pub read_bits-Reads :
    (bs : Bitstream) (num : ℕ)
    → IsValid bs
    → num ≤ 32
    → Available num bs
    → Reads num 0 0 bs (read_bits bs num)
unfolding read_bits
read_bits-Reads bs num v h there =
    read_bits_loop-Reads num num 0 0 bs v (omega arith) (omega arith) (omega arith) there
