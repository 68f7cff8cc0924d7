-- ===== src/Parser/Unabbrev.antt =====
-- src/vmir_bitcode_parser.c: ir_unabbrev_record, which reads a record that is not abbreviated: its code,
-- the number of its operands, and the operands, each in chunks of 6 bits.
use vmir.Common.{
  ℕ, zero, suc, ◌+◌, ◌*◌, ◌/◌, ◌%◌, ◌^◌, ◌<◌, ◌≡◌, refl, ◌∙◌, ap, List, [], ◌∷◌, length, arith,
}
use vmir.Bitstream.{
  Bitstream, VbrResult, value_read, assert_failed, out_of_fuel, read_vbr, read_vbr64,
}
use vmir.Bitstream.Field.{IsValid, pending}
use vmir.Bitstream.Vbr.{
  vbr_code, vbr_bits, Spare, ReadsVbr, reads, read_vbr-vbr_code, read_vbr64-vbr_code,
}

-- What is handed to the handler of the record, and the stream behind it; or a read that failed.
pub data Reading {ℓ} (A : Type ℓ) : Type ℓ where
  got : A → Bitstream → Reading A
  failed : Reading A

-- A number, then what `next` reads with it.
unfoldable pub and_then {ℓ} : {A : Type ℓ} → VbrResult → (ℕ → Bitstream → Reading A) → Reading A
and_then (value_read v bs) next = next v bs
and_then assert_failed next = failed
and_then out_of_fuel next = failed

unfoldable pub cons_arg : ℕ → Reading (List ℕ) → Reading (List ℕ)
cons_arg v (got argv bs) = got (v ∷ argv) bs
cons_arg v failed = failed

-- `for(i = 0; i < numops; i++)`
unfoldable pub read_args : (numops : ℕ) → Bitstream → Reading (List ℕ)
unfolding and_then cons_arg
read_args zero bs = got [] bs
read_args (suc n) bs = and_then (read_vbr64 bs 6) λ v bs1. cons_arg v (read_args n bs1)

unfoldable pub with_code : ℕ → Reading (List ℕ) → Reading (ℕ × List ℕ)
with_code code (got argv bs) = got (code, argv) bs
with_code code failed = failed

unfoldable pub ir_unabbrev_record : Bitstream → Reading (ℕ × List ℕ)
unfolding read_args and_then with_code
ir_unabbrev_record bs =
    and_then (read_vbr bs 6)
      λ code bs1. and_then (read_vbr bs1 6) λ numops bs2. with_code code (read_args numops bs2)

-- The bits of a list of operands, and that the unread bits `p` start with their encodings.
unfoldable pub args_bits : List ℕ → ℕ
args_bits [] = 0
args_bits (v ∷ vs) = vbr_bits 63 6 v + args_bits vs

abbrev pub HoldsArgs : ℕ → List ℕ → Type 0
HoldsArgs p [] = Unit {0}
HoldsArgs p (v ∷ vs) =
    (v < 2 ^ 64)
    × (p % 2 ^ vbr_bits 63 6 v ≡ vbr_code 63 6 v)
    × HoldsArgs (p / 2 ^ vbr_bits 63 6 v) vs

-- `bs'` is the stream `n` places on.
pub record Moved (n : ℕ) (bs bs' : Bitstream) : Type 0 where
  pub valid : IsValid bs'
  pub place : 8 * bs'.bytes_offset + bs.remain ≡ 8 * bs.bytes_offset + bs'.remain + n
  pub total : bs'.bytes_length ≡ bs.bytes_length

-- What is read after a number that is there.
after_number :
    {A : Type 0} (v n : ℕ) (bs : Bitstream) (r : VbrResult) (next : ℕ → Bitstream → Reading A)
    → ReadsVbr v n bs r
    → (bs1 : Bitstream) × (and_then r next ≡ next v bs1)
      × Moved n bs bs1
      × (pending bs1 ≡ pending bs / 2 ^ n)
unfolding and_then
after_number v n bs r next (reads bs1 ok rest place total) =
    (bs1, refl, record { valid = ok; place = place; total = total }, rest)

read_args-HoldsArgs :
    (vs : List ℕ) (p : ℕ) (bs : Bitstream)
    → IsValid bs
    → Spare (args_bits vs) bs
    → pending bs ≡ p
    → HoldsArgs p vs
    → (bs' : Bitstream) × (read_args (length vs) bs ≡ got vs bs') × Moved (args_bits vs) bs bs'
unfolding read_args args_bits cons_arg
read_args-HoldsArgs [] p bs ok spare e h =
    (bs, refl, record { valid = ok; place = omega arith; total = refl })
read_args-HoldsArgs (v ∷ vs) p bs ok spare e (hv, code, rest) =
    let code1 : pending bs % 2 ^ vbr_bits 63 6 v ≡ vbr_code 63 6 v =
      ap (λ (t : ℕ). t % 2 ^ vbr_bits 63 6 v) e ∙ code in
    let next : ℕ → Bitstream → Reading (List ℕ) = λ u bs1. cons_arg u (read_args (length vs) bs1) in
    let (bs1, run, m1, p1) =
      after_number v (vbr_bits 63 6 v) bs (read_vbr64 bs 6) next
        (read_vbr64-vbr_code bs 6 v (omega arith) (omega arith) hv ok (omega arith) code1) in
    let (bs2, run2, m2) =
      read_args-HoldsArgs vs _ bs1 m1.valid (omega (arith, m1.place, m1.total))
        (p1 ∙ ap (λ (t : ℕ). t / 2 ^ vbr_bits 63 6 v) e) rest in
    (
      bs2,
      run ∙ ap (cons_arg v) run2,
      record {
        valid = m2.valid;
        place = omega (arith, m1.place, m2.place);
        total = m2.total ∙ m1.total;
      },
    )

-- The unread bits `p` start with the record.
pub record HoldsRecord (p code : ℕ) (vs : List ℕ) : Type 0 where
  pub code_fits : code < 2 ^ 32
  pub code_bits : p % 2 ^ vbr_bits 31 6 code ≡ vbr_code 31 6 code
  pub count_fits : length vs < 2 ^ 32
  pub count_bits :
      p / 2 ^ vbr_bits 31 6 code % 2 ^ vbr_bits 31 6 (length vs) ≡ vbr_code 31 6 (length vs)
  pub args : HoldsArgs (p / 2 ^ vbr_bits 31 6 code / 2 ^ vbr_bits 31 6 (length vs)) vs

abbrev pub record_bits : ℕ → List ℕ → ℕ
record_bits code vs = vbr_bits 31 6 code + vbr_bits 31 6 (length vs) + args_bits vs

-- On a valid stream that starts with the encoding of a record, its code below 2 ^ 32 and its operands
-- below 2 ^ 64, with a byte behind it, ir_unabbrev_record reads the code and the operands and moves past
-- the encoding.
pub ir_unabbrev_record-HoldsRecord :
    (bs : Bitstream) (code : ℕ) (vs : List ℕ)
    → IsValid bs
    → Spare (record_bits code vs) bs
    → HoldsRecord (pending bs) code vs
    → (bs' : Bitstream) × (ir_unabbrev_record bs ≡ got (code, vs) bs')
      × Moved (record_bits code vs) bs bs'
unfolding ir_unabbrev_record with_code
ir_unabbrev_record-HoldsRecord bs code vs ok spare h =
    let count_next : ℕ → Bitstream → Reading (ℕ × List ℕ) =
      λ n bs2. with_code code (read_args n bs2) in
    let code_next : ℕ → Bitstream → Reading (ℕ × List ℕ) =
      λ c bs1. and_then (read_vbr bs1 6) λ n bs2. with_code c (read_args n bs2) in
    let (bs1, run1, m1, p1) = after_number code (vbr_bits 31 6 code) bs (read_vbr bs 6) code_next (
      read_vbr-vbr_code bs 6 code (omega arith) (omega arith) h.code_fits ok (omega arith)
        h.code_bits) in
    let n = length vs in
    let (bs2, run2, m2, p2) = after_number n (vbr_bits 31 6 n) bs1 (read_vbr bs1 6) count_next (
      read_vbr-vbr_code bs1 6 n (omega arith) (omega arith) h.count_fits m1.valid
        (omega (arith, m1.place, m1.total))
        (ap (λ (t : ℕ). t % 2 ^ vbr_bits 31 6 n) p1 ∙ h.count_bits)) in
    let (bs3, run3, m3) =
      read_args-HoldsArgs vs _ bs2 m2.valid (omega (arith, m1.place, m1.total, m2.place, m2.total))
        (p2 ∙ ap (λ (t : ℕ). t / 2 ^ vbr_bits 31 6 n) p1) h.args in
    (
      bs3,
      run1 ∙ run2 ∙ ap (with_code code) run3,
      record {
        valid = m3.valid;
        place = omega (arith, m1.place, m2.place, m3.place);
        total = m3.total ∙ m2.total ∙ m1.total;
      },
    )
