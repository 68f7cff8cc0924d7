-- ===== src/Types/Records.antt =====
-- src/vmir_type.c: types_new_rec_handler, which fills the table of types from the records of a
-- bitcode file. `argv` is the list of the 64-bit patterns of a record, and `argc` its length.
pub mod Widths
use vmir.Common.{
  ℕ, zero, suc, ◌+◌, ◌-◌, ◌*◌, ◌%◌, ◌^◌, Bool, true, false, not, ◌&&◌, Option, none, some, List, [],
  ◌∷◌, ◌++◌, ltb, leb, ◌==◌, if◌then◌else◌, get_elem?, length, map,
}
use vmir.Argv.{read_str_from_argv}
use vmir.Types.{
  StructType, IrType, struct, void, int1, int8, int16, int32, int64, intx, float, double, array,
  pointer, function, metadata, label, opaque, Result, ok, err, ◌>>=◌, parser_error, uninitialised,
  assertion,
}
use vmir.Types.Make.{TypeTable, push_type}

-- The codes of the records of a block of types, and any other.
pub data TypeRecord : Type 0 where
  numentry void_type float_type double_type label_type opaque_type integer pointer_type : TypeRecord
  array_type vector metadata_type struct_anon struct_name struct_named function_type : TypeRecord
  unknown : TypeRecord

unfoldable pub type_record : ℕ → TypeRecord
type_record op =
    if op == 1
    then numentry
    else if op == 2
    then void_type
    else if op == 3
    then float_type
    else if op == 4
    then double_type
    else if op == 5
    then label_type
    else if op == 6
    then opaque_type
    else if op == 7
    then integer
    else if op == 8
    then pointer_type
    else if op == 11
    then array_type
    else if op == 12
    then vector
    else if op == 16
    then metadata_type
    else if op == 18
    then struct_anon
    else if op == 19
    then struct_name
    else if op == 20
    then struct_named
    else if op == 21
    then function_type
    else unknown

-- `argv[i].i64`. Behind the last argument stands what the record before left there, or nothing.
unfoldable pub arg : List ℕ → ℕ → Result ℕ
arg argv i = elim (get_elem? argv i) [ none ↦ err uninitialised | some a ↦ ok a ]

-- The same as an `int` or `unsigned`.
abbrev pub to_int : ℕ → ℕ
to_int a = a % 2 ^ 32

-- `a < 64` on an int64_t.
abbrev pub lt64 : ℕ → Bool
lt64 a = ltb ((a + 2 ^ 63) % 2 ^ 64) (64 + 2 ^ 63)

-- TYPE_CODE_INTEGER
unfoldable pub integer_type : ℕ → Result IrType
integer_type width =
    if width == 1
    then ok int1
    else if width == 8
    then ok int8
    else if width == 16
    then ok int16
    else if width == 32
    then ok int32
    else if width == 64
    then ok int64
    else if lt64 width
    then ok (intx (to_int width))
    else err parser_error

-- The struct that a record with these arguments makes: whether it is packed, then the elements. What
-- the layout sets is not yet set.
unfoldable pub struct_type : Option (List ℕ) → List ℕ → Result IrType
struct_type name [] = err uninitialised
struct_type name (packed ∷ elements) = ok (
    struct (record {
      name = name;
      elements = map to_int elements;
      offsets = [];
      size = 0;
      alignment = 0;
      packed = not (packed == 0);
      computed = false;
    }))

unfoldable pub function_type_of : List ℕ → Result IrType
function_type_of (varargs ∷ return_type ∷ parameters) =
    ok (function (map to_int parameters) (to_int return_type) (to_int varargs))
function_type_of argv = err parser_error

-- VECTOR_PUSH_BACK of what the switch has made.
abbrev pub and_push : TypeTable → Result IrType → Result TypeTable
and_push iu it = it >>= λ t. ok (push_type t iu)

-- The switch.
unfoldable pub types_new_switch : TypeTable → TypeRecord → List ℕ → Result TypeTable
unfolding push_type arg integer_type struct_type function_type_of read_str_from_argv
types_new_switch iu numentry [] = err parser_error
types_new_switch iu numentry (n ∷ argv) =
    ok (record iu { capacity = if ltb iu.capacity n then n else iu.capacity })
types_new_switch iu void_type argv = and_push iu (ok void)
types_new_switch iu float_type argv = and_push iu (ok float)
types_new_switch iu double_type argv = and_push iu (ok double)
types_new_switch iu integer argv = and_push iu (arg argv 0 >>= integer_type)
types_new_switch iu array_type argv =
    and_push iu (arg argv 0 >>= λ n. arg argv 1 >>= λ t. ok (array (to_int n) (to_int t)))
types_new_switch iu struct_name argv =
    ok (record iu { current_struct_name = some (read_str_from_argv argv) })
types_new_switch iu struct_named argv =
    and_push (record iu { current_struct_name = none }) (struct_type iu.current_struct_name argv)
types_new_switch iu struct_anon argv = and_push iu (struct_type none argv)
types_new_switch iu pointer_type argv = and_push iu (arg argv 0 >>= λ t. ok (pointer (to_int t)))
types_new_switch iu function_type argv = and_push iu (function_type_of argv)
types_new_switch iu metadata_type argv = and_push iu (ok metadata)
types_new_switch iu label_type argv = and_push iu (ok label)
types_new_switch iu opaque_type argv = and_push iu (ok opaque)
types_new_switch iu vector argv = err parser_error
types_new_switch iu unknown argv = err parser_error

unfoldable pub types_new_rec_handler : TypeTable → (op : ℕ) → (argv : List ℕ) → Result TypeTable
unfolding types_new_switch type_record
types_new_rec_handler iu op argv =
    if iu.types_created then err assertion else types_new_switch iu (type_record op) argv
