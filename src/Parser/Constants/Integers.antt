-- ===== src/Parser/Constants/Integers.antt =====
-- src/vmir_bitcode_parser.c: integer constants and constant data, read back.
use vmir.Common.{
  ℕ, zero, suc, ◌*◌, ◌/◌, ◌^◌, ◌<◌, ◌≡◌, refl, sym, ◌∙◌, ap, some, List, [], ◌∷◌, get_elem?,
  get_elem?-append_self, length, length-append, arith,
}
use vmir.Argv.SignRotated.{sign_rotated, read_sign_rotated-sign_rotated}
use vmir.Types.{
  IrType, int32, int64, int16, float, double, Types, Result, ok, ◌>>=◌, type_get, type_sizeof_ptr,
}
use vmir.Parser.{
  ValueClass, constant, data_value, Value, IrUnit, value_get, value_get_const64, const64_of,
}
use vmir.Parser.Values.{with_value, value_append_lem, put_value-with_value}
use vmir.Parser.Constants.{
  integer_constant, host_wr, host_wr_all, data_elements, const_code, constant_class,
  constants_rec_handler,
}

length-host_wr : (n a : ℕ) → length (host_wr n a) ≡ n
unfolding host_wr
length-host_wr zero a = refl
length-host_wr (suc n) a = ap suc (length-host_wr n (a / 256))

length-host_wr_all : (n : ℕ) (argv : List ℕ) → length (host_wr_all n argv) ≡ n * length argv
unfolding host_wr_all
length-host_wr_all n [] = omega arith
length-host_wr_all n (a ∷ argv) = omega (
  arith,
  length-append (host_wr n a) (host_wr_all n argv),
  length-host_wr n a,
  length-host_wr_all n argv,
)

data_value-injective :
    {xs ys : List ℕ} → Path (Result ValueClass) (ok (data_value xs)) (ok (data_value ys)) → xs ≡ ys
data_value-injective e = cc

length-data :
    (n : ℕ) (argv bytes : List ℕ)
    → Path (Result ValueClass) (ok (data_value (host_wr_all n argv))) (ok (data_value bytes))
    → length bytes ≡ n * length argv
length-data n argv bytes e = ap length (sym (data_value-injective e)) ∙ length-host_wr_all n argv

-- Constant data of a type that it is accepted for has as many bytes as its elements take in memory.
pub length-data_elements :
    (fuel : ℕ) (types : Types) (it : IrType) (argv bytes : List ℕ)
    → data_elements it argv ≡ ok (data_value bytes)
    → (s : ℕ) × (type_sizeof_ptr fuel types it ≡ ok s) × (length bytes ≡ s * length argv)
unfolding data_elements type_sizeof_ptr
length-data_elements fuel types int64 argv bytes e = (8, refl, length-data 8 argv bytes e)
length-data_elements fuel types double argv bytes e = (8, refl, length-data 8 argv bytes e)
length-data_elements fuel types int32 argv bytes e = (4, refl, length-data 4 argv bytes e)
length-data_elements fuel types float argv bytes e = (4, refl, length-data 4 argv bytes e)
length-data_elements fuel types int16 argv bytes e = (2, refl, length-data 2 argv bytes e)
length-data_elements fuel types it argv bytes e = absurd (cc)

-- With values up to the end of the list and int64 as the current type, the record of a 64-bit
-- integer appends a constant from which the same integer is read.
pub constants_rec_handler-value_get_const64 :
    (iu : IrUnit) (w : ℕ) (argv : List ℕ)
    → iu.next_value ≡ length iu.values
    → get_elem? (iu.table).types iu.current_type ≡ some int64
    → w < 2 ^ 64
    → (iu' : IrUnit) × (v : Value) × (constants_rec_handler iu 4 (sign_rotated w ∷ argv) ≡ ok iu')
      × (value_get iu' (length iu.values) ≡ ok v)
      × (value_get_const64 iu' v ≡ ok w)
unfolding constants_rec_handler constant_class value_get value_get_const64 integer_constant
    const64_of const_code type_get
constants_rec_handler-value_get_const64 iu w argv h at hw = (
  with_value iu (some v),
  v,
  rw
      (
        value_append_lem iu h,
        ◌>>=◌,
        at,
        read_sign_rotated-sign_rotated w hw,
        put_value-with_value iu v,
      )
      refl,
  rw (value_get, get_elem?-append_self iu.values (some v)) refl,
  rw (at, ◌>>=◌) refl,
)
  where
    v : Value
    v = record { class = constant w; type = iu.current_type }
