-- ===== src/Tests/Streams.antt =====
-- The bit reader on small streams.
use vmir.Common.{◌≡◌, ◌≢◌, refl, [], ◌∷◌, some, inl, arith}
use vmir.Bitstream.{Bitstream, read_bits, read_vbr, read_vbr64, out_of_fuel}
use vmir.Bitstream.Field.{IsValid, pending, number_from}
use vmir.Bitstream.Read.{Reads, read_bits-Reads}
use vmir.Bitstream.Vbr.{ReadsVbr, vbr_bits, vbr_code, read_vbr-vbr_code, read_vbr64-vbr_code}
use vmir.Bitstream.Total.{read_vbr-ends}
use vmir.Argv.{read_zstr_from_argv, read_sign_rotated}
use vmir.Argv.Strings.{read_zstr_from_argv-append}
use vmir.Argv.SignRotated.{
  sign_rotated, read_sign_rotated-sign_rotated, sign_rotated-read_sign_rotated,
}

-- `BC` 0xc0de, the magic of a bitcode file.
abbrev magic : Bitstream
magic = record {
  rdata = 0x42 ∷ 0x43 ∷ 0xc0 ∷ 0xde ∷ [];
  bytes_length = 4;
  bytes_offset = 0;
  remain = 0;
  tmp = 0;
}

abbrev magic-IsValid : IsValid magic
magic-IsValid = record {
  whole = refl;
  bytes = omega arith;
  in_byte = omega arith;
  taken = omega arith;
  loaded = inl refl;
}

first_word : (read_bits magic 32).0 ≡ 0xdec04342
unfolding read_bits
first_word = refl

-- The last byte is taken by the first read, and its high bits are lost to the second.
last_bits : (read_bits (read_bits magic 28).1 4).0 ≡ 0
unfolding read_bits
last_bits = refl

read_bits-Reads_example : Reads 12 0 0 magic (read_bits magic 12)
read_bits-Reads_example =
    read_bits-Reads magic 12 magic-IsValid (omega arith)
      (record { enough = omega arith; not_last = λ h. omega arith })

-- 100 in chunks of 6 bits: 36, with the top bit set, and 3.
abbrev hundred : Bitstream
hundred = record {
  rdata = 228 ∷ 0 ∷ 0 ∷ 0 ∷ [];
  bytes_length = 4;
  bytes_offset = 0;
  remain = 0;
  tmp = 0;
}

abbrev hundred-IsValid : IsValid hundred
hundred-IsValid = record {
  whole = refl;
  bytes = omega arith;
  in_byte = omega arith;
  taken = omega arith;
  loaded = inl refl;
}

read_vbr-vbr_code_example : ReadsVbr 100 (vbr_bits 31 6 100) hundred (read_vbr hundred 6)
unfolding vbr_bits vbr_code pending number_from
read_vbr-vbr_code_example =
    read_vbr-vbr_code hundred 6 100 (omega arith) (omega arith) (omega arith) hundred-IsValid
      (omega arith) refl

read_vbr64-vbr_code_example : ReadsVbr 100 (vbr_bits 63 6 100) hundred (read_vbr64 hundred 6)
unfolding vbr_bits vbr_code pending number_from
read_vbr64-vbr_code_example =
    read_vbr64-vbr_code hundred 6 100 (omega arith) (omega arith) (omega arith) hundred-IsValid
      (omega arith) refl

read_vbr-ends_example : (read_vbr hundred 1 ≢ out_of_fuel) × (read_vbr64 hundred 1 ≢ out_of_fuel)
read_vbr-ends_example = read_vbr-ends hundred 1 (omega arith)

read_zstr_from_argv-append_example :
    read_zstr_from_argv (104 ∷ 105 ∷ 0 ∷ 7 ∷ []) ≡ some (104 ∷ 105 ∷ [], 7 ∷ [])
read_zstr_from_argv-append_example =
    read_zstr_from_argv-append (104 ∷ 105 ∷ []) (7 ∷ []) (omega arith)

-- -5 is 11 in the sign-rotated form.
minus_five : read_sign_rotated 11 ≡ 0xffff_ffff_ffff_fffb
unfolding read_sign_rotated
minus_five = refl

read_sign_rotated-sign_rotated_example :
    read_sign_rotated (sign_rotated 0x8000_0000_0000_0000) ≡ 0x8000_0000_0000_0000
read_sign_rotated-sign_rotated_example =
    read_sign_rotated-sign_rotated 0x8000_0000_0000_0000 (omega arith)

sign_rotated-read_sign_rotated_example : sign_rotated (read_sign_rotated 11) ≡ 11
sign_rotated-read_sign_rotated_example = sign_rotated-read_sign_rotated 11 (omega arith)
