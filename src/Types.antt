-- ===== src/Types.antt =====
-- src/vmir_type.c: the table of types, the sizes and alignments of its entries, and the lookups
-- that the parser makes in it. An `int` or `unsigned` is its 32-bit pattern.
pub mod Sizes
pub mod Make
pub mod Layout
pub mod Records
use vmir.Common.{
  ℕ, zero, suc, ◌+◌, ◌-◌, ◌*◌, ◌%◌, ◌^◌, Bool, true, false, not, ◌&&◌, Option, none, some, List, [],
  ◌∷◌, ◌++◌, ltb, leb, ◌==◌, if◌then◌else◌, get_elem?, length,
}
use vmir.Common.Words.{leb_s32}

-- ir_type_code_t
pub data TypeCode : Type 0 where
  c_struct c_void c_int1 c_int8 c_int16 c_int32 c_int64 c_intx c_float c_double : TypeCode
  c_array c_pointer c_function c_metadata c_label c_opaque : TypeCode

-- it_struct. `offset`, `size` and `alignment` mean nothing before the struct is `computed`.
pub record StructType : Type 0 where
  pub name : Option (List ℕ)
  pub elements : List ℕ
  pub offsets : List ℕ
  pub size : ℕ
  pub alignment : ℕ
  pub packed : Bool
  pub computed : Bool

-- ir_type_t: the code with the member of the union that it selects.
pub data IrType : Type 0 where
  struct : StructType → IrType
  void int1 int8 int16 int32 int64 : IrType
  intx : (bits : ℕ) → IrType
  float double : IrType
  array : (num_elements element_type : ℕ) → IrType
  pointer : (pointee : ℕ) → IrType
  function : (parameters : List ℕ) → (return_type varargs : ℕ) → IrType
  metadata label opaque : IrType

-- it_code
unfoldable pub it_code : IrType → TypeCode
it_code (struct s) = c_struct
it_code void = c_void
it_code int1 = c_int1
it_code int8 = c_int8
it_code int16 = c_int16
it_code int32 = c_int32
it_code int64 = c_int64
it_code (intx bits) = c_intx
it_code float = c_float
it_code double = c_double
it_code (array n t) = c_array
it_code (pointer t) = c_pointer
it_code (function ps r v) = c_function
it_code metadata = c_metadata
it_code label = c_label
it_code opaque = c_opaque

-- `parser_error` leaves the parser. The other errors are reads of what was never written, an
-- `assert`, and a recursion that the fuel cuts off.
pub data Error : Type 0 where
  parser_error : Error
  uninitialised : Error
  assertion : Error
  out_of_fuel : Error

pub data Result {ℓ} (A : Type ℓ) : Type ℓ where
  ok : A → Result A
  err : Error → Result A

infixl 5 ◌>>=◌
abbrev pub ◌>>=◌ {ℓ κ} : {A : Type ℓ} {B : Type κ} → Result A → (A → Result B) → Result B
ok a >>= f = f a
err e >>= f = err e

abbrev pub Types : Type 0
Types = List IrType

-- The index is unsigned, so -1 is out of range too.
unfoldable pub type_get : Types → ℕ → Result IrType
type_get types id = elim (get_elem? types id) [ none ↦ err parser_error | some it ↦ ok it ]

-- -1 as an `int`.
abbrev pub minus_one : ℕ
minus_one = 2 ^ 32 - 1

unfoldable pub get_pointee : IrType → Result ℕ
get_pointee (pointer pointee) = if pointee == minus_one then err parser_error else ok pointee
get_pointee it = err parser_error

unfoldable pub type_get_pointee : Types → ℕ → Result ℕ
unfolding type_get get_pointee
type_get_pointee types id = type_get types id >>= get_pointee

-- type_sizeof_ptr. An array recurs on its element; `fuel` bounds the arrays inside one another.
unfoldable pub type_sizeof_ptr : ℕ → Types → IrType → Result ℕ
type_sizeof_ptr fuel types void = ok 0
type_sizeof_ptr fuel types int1 = ok 1
type_sizeof_ptr fuel types int8 = ok 1
type_sizeof_ptr fuel types int16 = ok 2
type_sizeof_ptr fuel types int32 = ok 4
type_sizeof_ptr fuel types float = ok 4
type_sizeof_ptr fuel types int64 = ok 8
type_sizeof_ptr fuel types double = ok 8
type_sizeof_ptr fuel types (intx bits) =
    if leb_s32 bits 32 then ok 4 else if leb_s32 bits 64 then ok 8 else err parser_error
type_sizeof_ptr fuel types (pointer t) = ok 4
type_sizeof_ptr fuel types (struct s) = if s.computed then ok (s.size) else err uninitialised
type_sizeof_ptr zero types (array n t) = err out_of_fuel
type_sizeof_ptr (suc fuel) types (array n t) =
    type_get types t >>= λ it. type_sizeof_ptr fuel types it >>= λ s. ok (s * n % 2 ^ 32)
type_sizeof_ptr fuel types (function ps r v) = err parser_error
type_sizeof_ptr fuel types metadata = err parser_error
type_sizeof_ptr fuel types label = err parser_error
type_sizeof_ptr fuel types opaque = err parser_error

unfoldable pub type_alignment_ptr : ℕ → Types → IrType → Result ℕ
type_alignment_ptr fuel types void = ok 0
type_alignment_ptr fuel types int1 = ok 1
type_alignment_ptr fuel types int8 = ok 1
type_alignment_ptr fuel types int16 = ok 2
type_alignment_ptr fuel types int32 = ok 4
type_alignment_ptr fuel types float = ok 4
type_alignment_ptr fuel types int64 = ok 8
type_alignment_ptr fuel types double = ok 8
type_alignment_ptr fuel types (intx bits) =
    if leb_s32 bits 32 then ok 4 else if leb_s32 bits 64 then ok 8 else err parser_error
type_alignment_ptr fuel types (pointer t) = ok 4
type_alignment_ptr fuel types (struct s) =
    if s.computed then ok (s.alignment) else err uninitialised
type_alignment_ptr zero types (array n t) = err out_of_fuel
type_alignment_ptr (suc fuel) types (array n t) =
    type_get types t >>= λ it. type_alignment_ptr fuel types it
type_alignment_ptr fuel types (function ps r v) = err parser_error
type_alignment_ptr fuel types metadata = err parser_error
type_alignment_ptr fuel types label = err parser_error
type_alignment_ptr fuel types opaque = err parser_error

-- Arrays of arrays of ... are at most as deep as the table is long, if none contains itself.
abbrev pub type_fuel : Types → ℕ
type_fuel types = suc (length types)

unfoldable pub type_sizeof : Types → ℕ → Result ℕ
unfolding type_get type_sizeof_ptr
type_sizeof types index = type_get types index >>= λ it. type_sizeof_ptr (type_fuel types) types it

unfoldable pub type_alignment : Types → ℕ → Result ℕ
unfolding type_get type_alignment_ptr
type_alignment types index =
    type_get types index >>= λ it. type_alignment_ptr (type_fuel types) types it

unfoldable pub type_code_mask : TypeCode → ℕ
type_code_mask c_int1 = 0xff
type_code_mask c_int8 = 0xff
type_code_mask c_int16 = 0xffff
type_code_mask code = 0xffffffff

unfoldable pub type_bitwidth : IrType → Result ℕ
type_bitwidth void = ok 0
type_bitwidth int1 = ok 1
type_bitwidth int8 = ok 8
type_bitwidth int16 = ok 16
type_bitwidth int32 = ok 32
type_bitwidth int64 = ok 64
type_bitwidth (intx bits) = ok bits
type_bitwidth it = err parser_error

unfoldable pub legalize_type : IrType → TypeCode
unfolding it_code
legalize_type (intx bits) =
    if leb_s32 bits 8
    then c_int8
    else if leb_s32 bits 16
    then c_int16
    else if leb_s32 bits 32
    then c_int32
    else if leb_s32 bits 64
    then c_int64
    else c_intx
legalize_type it = it_code it
