-- ===== src/Parser/Constants.antt =====
-- src/vmir_bitcode_parser.c: constants_rec_handler.
pub mod Integers
use vmir.Common.{
  ℕ, zero, suc, ◌+◌, ◌-◌, ◌*◌, ◌/◌, ◌%◌, ◌^◌, Bool, true, false, not, ◌&&◌, Option, none, some,
  List, [], ◌∷◌, ◌++◌, ltb, leb, ◌==◌, if◌then◌else◌, get_elem?, length, map,
}
use vmir.Argv.{read_str_from_argv, read_sign_rotated}
use vmir.Types.{
  IrType, struct, void, int1, int8, int16, int32, int64, intx, float, double, array, pointer,
  function, metadata, label, opaque, Types, Result, ok, err, ◌>>=◌, parser_error, uninitialised,
  assertion, type_get,
}
use vmir.Types.Records.{arg, to_int}
use vmir.Parser.{
  ConstExpr, ce_cast, ce_gep, ce_binop, ce_cmp, ValueClass, constant, data_value, const_expr,
  aggregate, zero_initializer, Value, IrUnit, value_append, value_get, put_value,
}

-- CST_CODE_*, and any other code.
pub data ConstCode : Type 0 where
  settype null undef integer float_code aggregate_code cstring ce_binop_code ce_cast_code :
      ConstCode
  ce_gep_code ce_cmp_code inline_asm blockaddress data_code : ConstCode
  unknown : ConstCode

unfoldable pub const_code : ℕ → ConstCode
const_code op =
    if op == 1
    then settype
    else if op == 2
    then null
    else if op == 3
    then undef
    else if op == 4
    then integer
    else if op == 6
    then float_code
    else if op == 7
    then aggregate_code
    else if op == 8
    then cstring
    else if op == 9
    then cstring
    else if op == 10
    then ce_binop_code
    else if op == 11
    then ce_cast_code
    else if op == 12
    then ce_gep_code
    else if op == 17
    then ce_cmp_code
    else if op == 18
    then inline_asm
    else if op == 20
    then ce_gep_code
    else if op == 21
    then blockaddress
    else if op == 22
    then data_code
    else if op == 23
    then inline_asm
    else unknown

-- CST_CODE_NULL and CST_CODE_UNDEF
unfoldable pub null_constant : IrType → Result ValueClass
null_constant int1 = ok (constant 0)
null_constant int8 = ok (constant 0)
null_constant int16 = ok (constant 0)
null_constant int32 = ok (constant 0)
null_constant (pointer t) = ok (constant 0)
null_constant double = ok (constant 0)
null_constant int64 = ok (constant 0)
null_constant float = ok (constant 0)
null_constant (intx bits) = ok (constant 0)
null_constant (array n t) = ok zero_initializer
null_constant (struct s) = ok zero_initializer
null_constant it = err parser_error

-- CST_CODE_INTEGER. A write to `iv_u32` leaves the high half of a new value 0.
unfoldable pub integer_constant : IrType → ℕ → Result ValueClass
unfolding read_sign_rotated
integer_constant int1 a = ok (constant (read_sign_rotated a % 2 ^ 32))
integer_constant int8 a = ok (constant (read_sign_rotated a % 2 ^ 32))
integer_constant int16 a = ok (constant (read_sign_rotated a % 2 ^ 32))
integer_constant int32 a = ok (constant (read_sign_rotated a % 2 ^ 32))
integer_constant int64 a = ok (constant (read_sign_rotated a))
integer_constant (intx bits) a = ok (constant (read_sign_rotated a))
integer_constant it a = err parser_error

-- CST_CODE_FLOAT
unfoldable pub float_constant : IrType → ℕ → Result ValueClass
float_constant float a = ok (constant (a % 2 ^ 32))
float_constant double a = ok (constant a)
float_constant it a = err parser_error

-- CST_CODE_AGGREGATE: the values with their types. The value that the record makes, at `id`, has the
-- current type already.
unfoldable pub aggregate_values : IrUnit → (id type : ℕ) → List ℕ → Result (List (ℕ × ℕ))
unfolding value_get
aggregate_values iu id type [] = ok []
aggregate_values iu id type (a ∷ argv) = value_get iu (to_int a) >>= λ ivx.
    aggregate_values iu id type argv >>= λ values.
    ok ((to_int a, if to_int a == id then type else ivx.type) ∷ values)

-- The `n` low bytes of an argument, low byte first: host_wr16, host_wr32 and host_wr64.
unfoldable pub host_wr : (n : ℕ) → ℕ → List ℕ
host_wr zero a = []
host_wr (suc n) a = a % 256 ∷ host_wr n (a / 256)

unfoldable pub host_wr_all : (n : ℕ) → List ℕ → List ℕ
unfolding host_wr
host_wr_all n [] = []
host_wr_all n (a ∷ argv) = host_wr n a ++ host_wr_all n argv

-- CST_CODE_DATA, by the type of the elements.
unfoldable pub data_elements : IrType → List ℕ → Result ValueClass
unfolding host_wr_all
data_elements int64 argv = ok (data_value (host_wr_all 8 argv))
data_elements double argv = ok (data_value (host_wr_all 8 argv))
data_elements int32 argv = ok (data_value (host_wr_all 4 argv))
data_elements float argv = ok (data_value (host_wr_all 4 argv))
data_elements int16 argv = ok (data_value (host_wr_all 2 argv))
data_elements it argv = err parser_error

unfoldable pub data_constant : Types → IrType → List ℕ → Result ValueClass
unfolding data_elements type_get
data_constant types (array n t) argv = type_get types t >>= λ it. data_elements it argv
data_constant types it argv = err parser_error

-- The values of a CST_CODE_CE_GEP: behind an explicit type, if there is one, every second argument.
unfoldable pub gep_values : List ℕ → List ℕ
gep_values [] = []
gep_values (t ∷ []) = []
gep_values (t ∷ v ∷ argv) = to_int v ∷ gep_values argv

unfoldable pub gep_constant : (code : ℕ) → List ℕ → ValueClass
unfolding gep_values
gep_constant code [] = const_expr (ce_gep code [])
gep_constant code (a ∷ argv) =
    if length (a ∷ argv) % 2 == 1
    then const_expr (ce_gep code (gep_values argv))
    else const_expr (ce_gep code (gep_values (a ∷ argv)))

-- What the record makes of the new value.
unfoldable pub constant_class :
    IrUnit → (op : ℕ) → ConstCode → (id type : ℕ) → List ℕ → Result ValueClass
unfolding type_get arg null_constant integer_constant float_constant aggregate_values data_constant
    read_str_from_argv gep_constant
constant_class iu op undef id type argv = type_get ((iu.table).types) type >>= null_constant
constant_class iu op null id type argv = type_get ((iu.table).types) type >>= null_constant
constant_class iu op integer id type [] = err assertion
constant_class iu op integer id type (a ∷ argv) =
    type_get ((iu.table).types) type >>= λ it. integer_constant it a
constant_class iu op float_code id type [] = err assertion
constant_class iu op float_code id type (a ∷ argv) =
    type_get ((iu.table).types) type >>= λ it. float_constant it a
constant_class iu op aggregate_code id type argv =
    aggregate_values iu id type argv >>= λ values. ok (aggregate values)
constant_class iu op data_code id type argv =
    type_get ((iu.table).types) type >>= λ ty. data_constant ((iu.table).types) ty argv
constant_class iu op cstring id type argv = ok (data_value (read_str_from_argv argv))
constant_class iu op ce_cast_code id type argv = arg argv 0 >>= λ cast.
    arg argv 2 >>= λ src. ok (const_expr (ce_cast (to_int cast) (to_int src)))
constant_class iu op ce_gep_code id type argv = ok (gep_constant op argv)
constant_class iu op ce_binop_code id type (binop ∷ lhs ∷ rhs ∷ argv) =
    ok (const_expr (ce_binop (to_int binop) (to_int lhs) (to_int rhs)))
constant_class iu op ce_binop_code id type argv = err parser_error
constant_class iu op ce_cmp_code id type (opty ∷ lhs ∷ rhs ∷ pred ∷ argv) =
    ok (const_expr (ce_cmp (to_int opty) (to_int lhs) (to_int rhs) (to_int pred)))
constant_class iu op ce_cmp_code id type argv = err parser_error
constant_class iu op code id type argv = err parser_error

unfoldable pub constants_rec_handler : IrUnit → (op : ℕ) → List ℕ → Result IrUnit
unfolding value_append put_value constant_class const_code arg
constants_rec_handler iu op argv =
    if op == 1
    then elim argv [ [] ↦ err parser_error | a ∷ rest ↦ ok (record iu { current_type = to_int a }) ]
    else (value_append iu >>= λ (id, iu1).
        constant_class iu1 op (const_code op) id iu.current_type argv >>= λ class.
        ok (put_value id (record { class = class; type = iu.current_type }) iu1))
