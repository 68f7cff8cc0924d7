-- ===== src/Tests/Unabbrevs.antt =====
-- A record that is not abbreviated: code 1 with the operand 100.
use vmir.Common.{ℕ, ◌+◌, ◌*◌, ◌≤◌, ◌≡◌, refl, List, [], ◌∷◌, inl, arith}
use vmir.Bitstream.{Bitstream}
use vmir.Bitstream.Field.{IsValid, pending, number_from}
use vmir.Bitstream.Vbr.{vbr_bits, vbr_code}
use vmir.Parser.Unabbrev.{
  got, ir_unabbrev_record, HoldsRecord, record_bits, args_bits, Moved,
  ir_unabbrev_record-HoldsRecord,
}

abbrev stream : Bitstream
stream = record {
  rdata = 0x41 ∷ 0x40 ∷ 0x0e ∷ 0 ∷ [];
  bytes_length = 4;
  bytes_offset = 0;
  remain = 0;
  tmp = 0;
}

stream-IsValid : IsValid stream
stream-IsValid = record {
  whole = refl;
  bytes = omega arith;
  in_byte = omega arith;
  taken = omega arith;
  loaded = inl refl;
}

abbrev operands : List ℕ
operands = 100 ∷ []

stream-HoldsRecord : HoldsRecord (pending stream) 1 operands
unfolding vbr_bits vbr_code pending number_from
stream-HoldsRecord = record {
  code_fits = omega arith;
  code_bits = refl;
  count_fits = omega arith;
  count_bits = refl;
  args = (omega arith, refl, tt);
}

stream-Spare :
    8 * stream.bytes_offset + record_bits 1 operands + 8 ≤ stream.remain + 8 * stream.bytes_length
unfolding vbr_bits args_bits
stream-Spare = omega arith

ir_unabbrev_record-HoldsRecord_example :
    (bs' : Bitstream) × (ir_unabbrev_record stream ≡ got (1, operands) bs')
    × Moved (record_bits 1 operands) stream bs'
ir_unabbrev_record-HoldsRecord_example =
    ir_unabbrev_record-HoldsRecord stream 1 operands stream-IsValid stream-Spare stream-HoldsRecord
