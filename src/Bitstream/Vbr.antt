-- ===== src/Bitstream/Vbr.antt =====
-- Variable-width numbers: what `read_vbr` and `read_vbr64` make of LLVM's encoding.
use vmir.Common.{
  ℕ, zero, suc, ◌+◌, ◌-◌, ◌*◌, ◌/◌, ◌%◌, ◌^◌, ◌≤◌, ◌<◌, ◌≡◌, ap, ◌∙◌, subst, inl, inr, ltb, ◌==◌,
  Bool-cases, true, false, arith, if◌then◌else◌,
}
use vmir.Common.Bits.{
  bit_or_shifted, bit_and_mask, bit_and_power, pow_pos, pow_sum, pow_double, pow_mono, mod_split,
  digits_unique, one_above,
}
use Prim.Native.Nat.{bit_or, bit_and}
use native.Mathlib.Nat.{
  mod-lt, div-add-mod, mod-eq_of_lt, div-eq_of_lt, div-div-eq-div-mul, div-lt_iff_lt-mul,
}
use vmir.Bitstream.{
  Bitstream, VbrResult, value_read, read_bits, read_vbr_loop, read_vbr, read_vbr64,
}
use vmir.Bitstream.Field.{IsValid, pending}
use vmir.Bitstream.Read.{Reads, Available, read_bits-Reads}

-- The encoding of `v` in chunks of `w` bits, lowest first: `w - 1` bits of `v` in each, and the top
-- bit set in all but the last. `k` bounds the chunks behind the first.
unfoldable pub vbr_code : (k w v : ℕ) → ℕ
vbr_code zero w v = v
vbr_code (suc k) w v =
    let more = vbr_code k w (v / 2 ^ (w - 1)) in
    if ltb v (2 ^ (w - 1)) then v else v % 2 ^ (w - 1) + 2 ^ (w - 1) + more * 2 ^ w

-- The number of bits of the encoding.
unfoldable pub vbr_bits : (k w v : ℕ) → ℕ
vbr_bits zero w v = w
vbr_bits (suc k) w v =
    let more = vbr_bits k w (v / 2 ^ (w - 1)) in if ltb v (2 ^ (w - 1)) then w else w + more

-- `num` bits are unread, and a byte behind them.
abbrev pub Spare : ℕ → Bitstream → Type 0
Spare num bs = 8 * bs.bytes_offset + num + 8 ≤ bs.remain + 8 * bs.bytes_length

Spare-Available : (n m : ℕ) (bs : Bitstream) → IsValid bs → n ≤ m → Spare m bs → Available n bs
Spare-Available n m bs v le s = record {
  enough = omega arith;
  not_last = λ h. omega (arith, v.in_byte);
}

-- `out` is a read of `v` that takes `n` bits of `bs`.
pub data ReadsVbr (v n : ℕ) (bs : Bitstream) : VbrResult → Type 0 where
  reads :
      (bs' : Bitstream)
      → IsValid bs'
      → pending bs' ≡ pending bs / 2 ^ n
      → 8 * bs'.bytes_offset + bs.remain ≡ 8 * bs.bytes_offset + bs'.remain + n
      → bs'.bytes_length ≡ bs.bytes_length
      → ReadsVbr v n bs (value_read v bs')

-- One round of the loop, on a chunk `x` that holds the `w - 1` bits `low` of the number.
module _ (limit fuel w ret stride low : ℕ) (bs : Bitstream) (wide : 0 < w) (narrow : w ≤ 32)
    (v : IsValid bs) (there : Available w bs) (low_fits : low < 2 ^ (w - 1))
    (ret_fits : ret < 2 ^ stride) (in_word : ret + low * 2 ^ stride < 2 ^ limit) where
  abbrev next : Bitstream
  next = (read_bits bs w).1

  is_read : Reads w 0 0 bs (read_bits bs w)
  is_read = read_bits-Reads bs w v narrow there

  x_read : (read_bits bs w).0 ≡ pending bs % 2 ^ w
  x_read = is_read.value ∙ omega arith

  joined :
      (x : ℕ)
      → x % 2 ^ (w - 1) ≡ low
      → bit_or ret (bit_and x (2 ^ (w - 1) - 1) * 2 ^ stride % 2 ^ limit) ≡ ret + low * 2 ^ stride
  joined x e =
      let small : low * 2 ^ stride < 2 ^ limit = omega arith in
      rw (bit_and_mask (w - 1) x, e, mod-eq_of_lt small) (bit_or_shifted stride ret low ret_fits)

  last_round :
      pending bs % 2 ^ w ≡ low
      → ReadsVbr (ret + low * 2 ^ stride) w bs (read_vbr_loop limit (suc fuel) w ret stride bs)
  unfolding read_vbr_loop
  last_round e =
      let stop : bit_and (2 ^ (w - 1)) low ≡ 0 =
        rw (bit_and_power (w - 1) low, div-eq_of_lt low_fits) (omega arith) in
      rw (x_read, e, stop, joined low (mod-eq_of_lt low_fits))
        (reads next is_read.valid is_read.rest is_read.place is_read.total)

  more_round :
      pending bs % 2 ^ w ≡ low + 2 ^ (w - 1)
      → stride + (w - 1) < limit
      → read_vbr_loop limit (suc fuel) w ret stride bs
        ≡ read_vbr_loop limit fuel w (ret + low * 2 ^ stride) (stride + (w - 1)) next
  unfolding read_vbr_loop
  more_round e h =
      let (top, rest) = one_above low (2 ^ (w - 1)) low_fits in
      let on : bit_and (2 ^ (w - 1)) (low + 2 ^ (w - 1)) ≡ 2 ^ (w - 1) =
        rw (bit_and_power (w - 1) (low + 2 ^ (w - 1)), top) (omega arith) in
      let goes : (2 ^ (w - 1) == 0) ≡ false = ground (arith, pow_pos (w - 1)) in
      let below : ltb (stride + (w - 1)) limit ≡ true = ground arith in
      rw (x_read, e, on, goes, below, joined (low + 2 ^ (w - 1)) rest)

vbr_bits-le : (k w v : ℕ) → w ≤ vbr_bits k w v
unfolding vbr_bits
vbr_bits-le zero w v = omega arith
vbr_bits-le (suc k) w v = ground arith

-- A chunk that is followed by another leaves the next shift inside the word.
stride_fits :
    (limit w stride v : ℕ) → 2 ^ (w - 1) ≤ v → v * 2 ^ stride < 2 ^ limit → stride + (w - 1) < limit
stride_fits limit w stride v hv h = elim (Bool-cases (ltb (stride + (w - 1)) limit)) [
  | inl e ↦ ground arith
  | inr e ↦
      let up : 2 ^ limit ≤ 2 ^ (stride + (w - 1)) =
        pow_mono limit (stride + (w - 1)) (ground arith) in
      absurd (grind (arith, up, pow_sum stride (w - 1), pow_pos stride))
]

ReadsVbr-after :
    {value v : ℕ} (n m : ℕ) (bs : Bitstream) {out : VbrResult} (bs1 : Bitstream)
    → pending bs1 ≡ pending bs / 2 ^ n
    → 8 * bs1.bytes_offset + bs.remain ≡ 8 * bs.bytes_offset + bs1.remain + n
    → bs1.bytes_length ≡ bs.bytes_length
    → value ≡ v
    → ReadsVbr value m bs1 out
    → ReadsVbr v (n + m) bs out
ReadsVbr-after {value = value} n m bs bs1 rest place total e (reads bs' valid rest' place' total') =
    subst (λ t. ReadsVbr t (n + m) bs (value_read value bs')) e
      (reads bs' valid (rest' ∙ rw (rest, pow_sum n m) (div-div-eq-div-mul _ _ _)) (omega arith)
        (total' ∙ total))

module _ (k w v : ℕ) where
  vbr_last : ltb v (2 ^ (w - 1)) ≡ true → (vbr_bits (suc k) w v ≡ w) × (vbr_code (suc k) w v ≡ v)
  unfolding vbr_bits vbr_code
  vbr_last e = (rw e, rw e)

  vbr_more :
      ltb v (2 ^ (w - 1)) ≡ false
      → (vbr_bits (suc k) w v ≡ w + vbr_bits k w (v / 2 ^ (w - 1)))
        × (vbr_code (suc k) w v
            ≡ v % 2 ^ (w - 1) + 2 ^ (w - 1) + vbr_code k w (v / 2 ^ (w - 1)) * 2 ^ w)
  unfolding vbr_bits vbr_code
  vbr_more e = (rw e, rw e)

chunks_split :
    (p w m c t : ℕ)
    → p % 2 ^ (w + m) ≡ t + c * 2 ^ w
    → t < 2 ^ w
    → (p / 2 ^ w % 2 ^ m ≡ c) × (p % 2 ^ w ≡ t)
chunks_split p w m c t e h =
    digits_unique (p / 2 ^ w % 2 ^ m) (p % 2 ^ w) c t (2 ^ w) (mod-lt p (pow_pos w)) h
      (omega (arith, mod_split p (2 ^ w) (2 ^ m) (pow_pos w) (pow_pos m), rw (pow_sum w m) at e))

shorter : (k w v : ℕ) → 2 ≤ w → v < 2 ^ suc (suc k) → v / 2 ^ (w - 1) < 2 ^ suc k
shorter k w v h2 h =
    (div-lt_iff_lt-mul (pow_pos (w - 1))).1
      (grind (arith, pow_double (suc k), pow_mono 1 (w - 1) (omega arith)))

longer :
    (ret w stride v : ℕ)
    → ret < 2 ^ stride
    → ret + v % 2 ^ (w - 1) * 2 ^ stride < 2 ^ (stride + (w - 1))
longer ret w stride v h =
    grind (arith, pow_sum stride (w - 1), mod-lt v (pow_pos (w - 1)), pow_pos stride)

chunk_fits : (w : ℕ) → 1 ≤ w → 2 ^ w ≡ 2 * 2 ^ (w - 1)
chunk_fits zero h = elim h [ ]
chunk_fits (suc w) h =
    let e : w ≡ suc w - 1 = omega arith in pow_double w ∙ ap (λ (t : ℕ). 2 * 2 ^ t) e

-- The number of a chunk and of those behind it.
value_split :
    (ret w stride v : ℕ)
    → ret + v % 2 ^ (w - 1) * 2 ^ stride + v / 2 ^ (w - 1) * 2 ^ (stride + (w - 1))
      ≡ ret + v * 2 ^ stride
value_split ret w stride v =
    rw (pow_sum stride (w - 1))
      (omega (arith, ap (λ (t : ℕ). t * 2 ^ stride) (div-add-mod v (2 ^ (w - 1)))))

read_vbr_loop-ReadsVbr :
    (limit k fuel w ret stride v : ℕ) (bs : Bitstream)
    → 2 ≤ w
    → w ≤ 32
    → IsValid bs
    → Spare (vbr_bits k w v) bs
    → pending bs % 2 ^ vbr_bits k w v ≡ vbr_code k w v
    → v < 2 ^ suc k
    → vbr_bits k w v ≤ fuel
    → ret < 2 ^ stride
    → ret + v * 2 ^ stride < 2 ^ limit
    → ReadsVbr (ret + v * 2 ^ stride) (vbr_bits k w v) bs (read_vbr_loop limit fuel w ret stride bs)
read_vbr_loop-ReadsVbr limit k zero w ret stride v bs h2 h32 ok spare code small fuel fits word =
    absurd (omega (arith, vbr_bits-le k w v))
read_vbr_loop-ReadsVbr limit zero (suc f) w ret stride v bs h2 h32 ok spare code small fuel fits
      word =
    unfold vbr_bits vbr_code in
    last_round limit f w ret stride v bs (omega arith) h32 ok
      (Spare-Available w w bs ok (omega arith) spare)
      (omega (arith, pow_mono 1 (w - 1) (omega arith))) fits word code
read_vbr_loop-ReadsVbr limit (suc k) (suc f) w ret stride v bs h2 h32 ok spare code small fuel fits
      word =
    elim (Bool-cases (ltb v (2 ^ (w - 1)))) [
      | inl e ↦
          let (bits, code_eq) = vbr_last k w v e in
          rw bits (
            last_round limit f w ret stride v bs (omega arith) h32 ok
              (Spare-Available w _ bs ok (vbr_bits-le (suc k) w v) spare) (ground arith) fits word
              (rw (bits, code_eq) at code))
      | inr e ↦
          let (bits, code_eq) = vbr_more k w v e in
          let low_fits : v % 2 ^ (w - 1) < 2 ^ (w - 1) = mod-lt v (pow_pos (w - 1)) in
          let (tail, head) =
            chunks_split (pending bs) w _ _ (v % 2 ^ (w - 1) + 2 ^ (w - 1))
              (rw (bits, code_eq) at code) (omega (arith, chunk_fits w (omega arith))) in
          let below = stride_fits limit w stride v (ground arith) (omega arith) in
          let word1 = value_split ret w stride v in
          let there = Spare-Available w _ bs ok (vbr_bits-le (suc k) w v) spare in
          let rd = read_bits-Reads bs w ok h32 there in
          rw
            (
              bits,
              more_round limit f w ret stride (v % 2 ^ (w - 1)) bs (omega arith) h32 ok there
                  low_fits fits (omega arith) head below,
            )
            (ReadsVbr-after w _ bs _ (rd.rest) (rd.place) (rd.total) word1 (
              read_vbr_loop-ReadsVbr limit k f w _ _ (v / 2 ^ (w - 1)) (read_bits bs w).1 h2 h32
                rd.valid (omega (arith, rd.place, rd.total)) (rw (rd.rest) tail)
                (shorter k w v h2 small) (omega arith) (longer ret w stride v fits) (omega arith)))
    ]

-- On a valid stream that holds the encoding of a 32-bit number in chunks of 2 to 32 bits, and a
-- byte behind it, `read_vbr` returns the number and moves past the encoding.
pub read_vbr-vbr_code :
    (bs : Bitstream) (w v : ℕ)
    → 2 ≤ w
    → w ≤ 32
    → v < 2 ^ 32
    → IsValid bs
    → Spare (vbr_bits 31 w v) bs
    → pending bs % 2 ^ vbr_bits 31 w v ≡ vbr_code 31 w v
    → ReadsVbr v (vbr_bits 31 w v) bs (read_vbr bs w)
unfolding read_vbr
read_vbr-vbr_code bs w v h2 h32 hv ok spare code =
    let some_width : (w == 0) ≡ false = ground arith in
    rw some_width (
      subst
        (λ t.
          ReadsVbr t (vbr_bits 31 w v) bs (read_vbr_loop 32 (suc (8 * bs.bytes_length)) w 0 0 bs))
        (omega arith)
        (read_vbr_loop-ReadsVbr 32 31 (suc (8 * bs.bytes_length)) w 0 0 v bs h2 h32 ok spare code hv
          (omega (arith, ok.taken)) (omega arith) (omega arith)))

-- On a valid stream that holds the encoding of a 64-bit number in chunks of 2 to 32 bits, and a
-- byte behind it, `read_vbr64` returns the number and moves past the encoding.
pub read_vbr64-vbr_code :
    (bs : Bitstream) (w v : ℕ)
    → 2 ≤ w
    → w ≤ 32
    → v < 2 ^ 64
    → IsValid bs
    → Spare (vbr_bits 63 w v) bs
    → pending bs % 2 ^ vbr_bits 63 w v ≡ vbr_code 63 w v
    → ReadsVbr v (vbr_bits 63 w v) bs (read_vbr64 bs w)
unfolding read_vbr64
read_vbr64-vbr_code bs w v h2 h32 hv ok spare code =
    let some_width : (w == 0) ≡ false = ground arith in
    rw some_width (
      subst
        (λ t.
          ReadsVbr t (vbr_bits 63 w v) bs (read_vbr_loop 64 (suc (8 * bs.bytes_length)) w 0 0 bs))
        (omega arith)
        (read_vbr_loop-ReadsVbr 64 63 (suc (8 * bs.bytes_length)) w 0 0 v bs h2 h32 ok spare code hv
          (omega (arith, ok.taken)) (omega arith) (omega arith)))
