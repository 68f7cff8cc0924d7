-- ===== src/Bitstream/Field.antt =====
-- `read_bits` as a field of one number: the unread bits of the stream, lowest first.
use vmir.Common.{
  ℕ, zero, suc, ◌+◌, ◌-◌, ◌*◌, ◌/◌, ◌%◌, ◌^◌, ◌≤◌, ◌<◌, ◌≡◌, refl, ap, ◌∙◌, sym, ◌⊎◌, inl, inr,
  List, [], ◌∷◌, ◌==◌, if◌then◌else◌, get_or, length, All, arith, Bool-cases,
}
use vmir.Common.Bits.{bit_and_mask, pow_pos, pow_sum, pow_mono}
use native.Mathlib.Nat.{
  mod-lt, mod-eq_of_lt, add-mul-mod_self_right, add-mul-div_right, div-lt_iff_lt-mul,
}
use vmir.Bitstream.{Bitstream, refill, consume, picked}

abbrev pub IsByte : ℕ → Type 0
IsByte b = b < 256

-- The bytes from place `i` on as one little-endian number.
unfoldable pub number_from : List ℕ → ℕ → ℕ
number_from [] i = 0
number_from (b ∷ bs) zero = b + 256 * number_from bs 0
number_from (b ∷ bs) (suc i) = number_from bs i

-- The bits that are not yet read, as one number.
unfoldable pub pending : Bitstream → ℕ
pending bs =
    let later = number_from bs.rdata bs.bytes_offset in
    if bs.remain == 0 then later else bs.tmp + later * 2 ^ bs.remain

pub record IsValid (bs : Bitstream) : Type 0 where
  pub whole : length bs.rdata ≡ bs.bytes_length
  pub bytes : All IsByte bs.rdata
  pub in_byte : bs.remain ≤ 8
  pub taken : bs.remain ≤ 8 * bs.bytes_offset
  pub loaded : (bs.remain ≡ 0) ⊎ (bs.tmp < 2 ^ bs.remain)

number_from_step :
    (l : List ℕ) (i : ℕ)
    → i < length l
    → number_from l i ≡ get_or l i 0 + 256 * number_from l (suc i)
unfolding number_from
number_from_step [] i h = elim h [ ]
number_from_step (b ∷ bs) zero h = refl
number_from_step (b ∷ bs) (suc i) h = number_from_step bs i (omega arith)

get_or-IsByte : (l : List ℕ) (i : ℕ) → All IsByte l → get_or l i 0 < 256
get_or-IsByte [] i h = omega arith
get_or-IsByte (b ∷ bs) zero h = h.0
get_or-IsByte (b ∷ bs) (suc i) h = get_or-IsByte bs i h.1

-- What the refilled state has, in one record.
pub record Refilled (bs b : Bitstream) : Type 0 where
  pub valid : IsValid b
  pub some_left : 0 < b.remain
  pub same : pending b ≡ pending bs
  pub place : 8 * b.bytes_offset + bs.remain ≡ 8 * bs.bytes_offset + b.remain
  pub total : b.bytes_length ≡ bs.bytes_length
  pub sum : pending b ≡ b.tmp + number_from b.rdata b.bytes_offset * 2 ^ b.remain
  pub fits : b.tmp < 2 ^ b.remain
  pub kept : b.rdata ≡ bs.rdata

refilled :
    (bs : Bitstream)
    → IsValid bs
    → bs.bytes_offset < bs.bytes_length
    → bs.remain ≡ 0
    → Refilled bs (record bs {
      tmp = get_or bs.rdata bs.bytes_offset 0;
      bytes_offset = suc bs.bytes_offset;
      remain = 8;
    })
unfolding pending
refilled bs v h z = record {
  valid = record {
    whole = v.whole;
    bytes = v.bytes;
    in_byte = omega arith;
    taken = omega arith;
    loaded = inr (get_or-IsByte bs.rdata bs.bytes_offset v.bytes);
  };
  some_left = omega arith;
  same = rw z (omega (arith, number_from_step bs.rdata bs.bytes_offset (omega arith)));
  place = omega arith;
  total = refl;
  sum = refl;
  fits = get_or-IsByte bs.rdata bs.bytes_offset v.bytes;
  kept = refl;
}

pub refill-Refilled :
    (bs : Bitstream) → IsValid bs → bs.bytes_offset < bs.bytes_length → Refilled bs (refill bs)
unfolding refill pending
refill-Refilled bs v h = elim (Bool-cases (bs.remain == 0)) [
  | inl e ↦ rw e (refilled bs v h (ground arith))
  | inr e ↦ rw e (ground arith)
]

-- One round on a loaded byte: it takes the low `pick` bits of what is pending and keeps the others.
module _ (b : Bitstream) (pick : ℕ) (v : IsValid b) (fits : b.tmp < 2 ^ b.remain)
    (le : pick ≤ b.remain)
    (sum : pending b ≡ b.tmp + number_from b.rdata b.bytes_offset * 2 ^ b.remain) where
  later : ℕ
  later = number_from b.rdata b.bytes_offset

  pow_remain : 2 ^ b.remain ≡ 2 ^ (b.remain - pick) * 2 ^ pick
  pow_remain =
      let e : b.remain ≡ b.remain - pick + pick = omega arith in
      ap (λ (t : ℕ). 2 ^ t) e ∙ pow_sum (b.remain - pick) pick

  pending_sum :
      pending b ≡ b.tmp + number_from b.rdata b.bytes_offset * 2 ^ (b.remain - pick) * 2 ^ pick
  pending_sum = sum ∙ rw pow_remain (omega arith)

  pending-mod : pending b % 2 ^ pick ≡ b.tmp % 2 ^ pick
  pending-mod = rw pending_sum (add-mul-mod_self_right _ _ _)

  tmp_fits : b.tmp / 2 ^ pick < 2 ^ (b.remain - pick)
  tmp_fits = (div-lt_iff_lt-mul (pow_pos pick)).1 (rw pow_remain at fits)

  pending-consume_sum :
      pending (consume pick b)
      ≡ b.tmp / 2 ^ pick + number_from b.rdata b.bytes_offset * 2 ^ (b.remain - pick)
  unfolding consume pending
  pending-consume_sum = elim (Bool-cases ((b.remain - pick) == 0)) [
    | inl e ↦
        let z : b.remain - pick ≡ 0 = ground arith in
        let small : b.tmp / 2 ^ pick < 2 ^ 0 = rw z at tmp_fits in rw (e, z) (omega (arith, small))
    | inr e ↦ rw e
  ]

  pub pending-consume : pending (consume pick b) ≡ pending b / 2 ^ pick
  pending-consume =
      pending-consume_sum ∙ sym (rw pending_sum (add-mul-div_right _ _ (pow_pos pick)))

  pub consume-IsValid : IsValid (consume pick b)
  unfolding consume
  consume-IsValid = record {
    whole = v.whole;
    bytes = v.bytes;
    in_byte = omega (arith, v.in_byte);
    taken = omega (arith, v.taken);
    loaded = inr tmp_fits;
  }

  pub picked-mod : (off : ℕ) → off + pick ≤ 32 → picked pick off b ≡ pending b % 2 ^ pick * 2 ^ off
  unfolding picked
  picked-mod off h = rw (bit_and_mask pick b.tmp, pending-mod) (mod-eq_of_lt small)
    where
      low : b.tmp % 2 ^ pick < 2 ^ pick
      low = mod-lt b.tmp (pow_pos pick)

      small : b.tmp % 2 ^ pick * 2 ^ off < 2 ^ 32
      small = grind (arith, low, pow_pos off, pow_sum off pick, pow_mono (off + pick) 32 h)
