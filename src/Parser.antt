-- ===== src/Parser.antt =====
-- The unit as the parser of src/vmir_bitcode_parser.c fills it, and src/vmir_value.c: its values.
pub mod Attributes
pub mod Constants
pub mod Module
pub mod Values
pub mod Unabbrev
use vmir.Common.{
  ℕ, zero, suc, ◌+◌, ◌-◌, ◌*◌, ◌/◌, ◌%◌, ◌^◌, Bool, true, false, not, ◌&&◌, Option, none, some,
  List, [], ◌∷◌, ◌++◌, ltb, leb, ◌==◌, if◌then◌else◌, get_elem?, length, set,
}
use vmir.Common.Words.{leb_s32}
use Prim.Native.Nat.{bit_and}
use vmir.Types.{
  TypeCode, c_struct, c_void, c_int1, c_int8, c_int16, c_int32, c_int64, c_intx, c_float, c_double,
  c_array, c_pointer, c_function, c_metadata, c_label, c_opaque, IrType, struct, void, int1, int8,
  int16, int32, int64, intx, float, double, array, pointer, function, metadata, label, opaque,
  it_code, Types, Result, ok, err, ◌>>=◌, parser_error, uninitialised, assertion, type_get,
  type_code_mask,
}
use vmir.Types.Make.{TypeTable}

-- ir_constexpr_t
pub data ConstExpr : Type 0 where
  ce_cast : (op src : ℕ) → ConstExpr
  ce_gep : (code : ℕ) → (values : List ℕ) → ConstExpr
  ce_binop : (op lhs rhs : ℕ) → ConstExpr
  ce_cmp : (opty lhs rhs pred : ℕ) → ConstExpr

-- ir_globalvar_t
pub record GlobalVar : Type 0 where
  pub type : ℕ
  pub name : Option (List ℕ)
  pub addr : ℕ
  pub size : ℕ

-- ir_value_class_t, each class with what it uses of the union and of `iv_data`. A function is its place
-- in `iu_functions`.
pub data ValueClass : Type 0 where
  undef : ValueClass
  function_value : (gfid : ℕ) → ValueClass
  globalvar : GlobalVar → ValueClass
  constant : (u64 : ℕ) → ValueClass
  temporary : ValueClass
  regframe : (reg : ℕ) → ValueClass
  machinereg : ValueClass
  data_value : (bytes : List ℕ) → ValueClass
  const_expr : ConstExpr → ValueClass
  aggregate : (values : List (ℕ × ℕ)) → ValueClass
  alias : (reg : ℕ) → ValueClass
  zero_initializer : ValueClass
  dead : ValueClass

-- ir_value_t, without its links to instructions.
pub record Value : Type 0 where
  pub class : ValueClass
  pub type : ℕ

-- ir_function_t, as far as the module's record sets it.
pub record Function : Type 0 where
  pub isproto : Bool
  pub type : ℕ
  pub gfid : ℕ

-- ir_attr_t
pub record Attr : Type 0 where
  pub group_id : ℕ
  pub index : ℕ
  pub flags : ℕ

-- The fields of ir_unit that the records of a module set. A NULL in `iu_values` is none.
pub record IrUnit : Type 0 where
  pub table : TypeTable
  pub values : List (Option Value)
  pub next_value : ℕ
  pub functions : List Function
  pub functions_with_bodies : List ℕ
  pub initializers : List (ℕ × ℕ)
  pub data_ptr : ℕ
  pub attribute_groups : List Attr
  pub attrsets : List (List Attr)
  pub current_type : ℕ
  pub version : ℕ
  pub triple : Option (List ℕ)
  pub vstoffset : ℕ

-- `calloc` of a value.
unfoldable pub new_value : Value
new_value = record { class = undef; type = 0 }

-- The place of the next value, and the unit in which a value stands there.
unfoldable pub value_append : IrUnit → Result (ℕ × IrUnit)
unfolding new_value
value_append iu =
    let next = record iu { next_value = suc iu.next_value } in
    if iu.next_value == length iu.values
    then ok (iu.next_value, record next { values = iu.values ++ some new_value ∷ [] })
    else elim (get_elem? iu.values iu.next_value) [
      | none ↦ err assertion
      | some o ↦ elim o [
        | none ↦
            ok
              (iu.next_value, record next { values = set iu.values iu.next_value (some new_value) })
        | some v ↦ ok (iu.next_value, next)
      ]
    ]

-- The value at an index that is not out of range; NULL is returned as it is, and read by no caller.
unfoldable pub value_get : IrUnit → ℕ → Result Value
value_get iu index = elim (get_elem? iu.values index) [
  | none ↦ err parser_error
  | some o ↦ elim o [ none ↦ err uninitialised | some v ↦ ok v ]
]

unfoldable pub put_value : ℕ → Value → IrUnit → IrUnit
put_value id v iu = record iu { values = set iu.values id (some v) }

unfoldable pub class_reg : ValueClass → Result ℕ
class_reg (regframe reg) = ok reg
class_reg class = err assertion

unfoldable pub value_reg : Value → Result ℕ
unfolding class_reg
value_reg iv = class_reg (iv.class)

unfoldable pub regframe_slots : IrType → Result ℕ
regframe_slots int1 = ok 1
regframe_slots int8 = ok 1
regframe_slots int16 = ok 1
regframe_slots int32 = ok 1
regframe_slots float = ok 1
regframe_slots (pointer t) = ok 1
regframe_slots (function ps r v) = ok 1
regframe_slots int64 = ok 2
regframe_slots double = ok 2
regframe_slots (intx bits) = if leb_s32 bits 32 then ok 1 else ok 2
regframe_slots it = err parser_error

unfoldable pub value_regframe_slots : Types → ℕ → Result ℕ
unfolding regframe_slots type_get
value_regframe_slots types type = type_get types type >>= regframe_slots

unfoldable pub value_regframe_size : Types → ℕ → Result ℕ
unfolding value_regframe_slots
value_regframe_size types type = value_regframe_slots types type >>= λ n. ok (n * 4)

-- The bits of a constant of this type, in 32 bits.
unfoldable pub const_bits : IrType → ℕ → Result ℕ
unfolding type_code_mask it_code
const_bits int1 u64 = ok (if u64 % 2 ^ 32 == 0 then 0 else 1)
const_bits int8 u64 = ok (bit_and (u64 % 2 ^ 32) (type_code_mask c_int8))
const_bits int16 u64 = ok (bit_and (u64 % 2 ^ 32) (type_code_mask c_int16))
const_bits int32 u64 = ok (bit_and (u64 % 2 ^ 32) (type_code_mask c_int32))
const_bits (pointer t) u64 = ok (bit_and (u64 % 2 ^ 32) (type_code_mask c_pointer))
const_bits float u64 = ok (bit_and (u64 % 2 ^ 32) (type_code_mask c_float))
const_bits (intx bits) u64 = ok (u64 % 2 ^ 32)
const_bits int64 u64 = ok (u64 % 2 ^ 32)
const_bits double u64 = ok (u64 % 2 ^ 32)
const_bits it u64 = err parser_error

unfoldable pub const_of : IrType → ValueClass → Result ℕ
unfolding const_bits
const_of it (globalvar ig) = ok (ig.addr)
const_of it (constant u64) = const_bits it u64
const_of it class = err parser_error

unfoldable pub value_get_const : IrUnit → Value → Result ℕ
unfolding const_of type_get
value_get_const iu iv = type_get ((iu.table).types) (iv.type) >>= λ it. const_of it (iv.class)

unfoldable pub const64_bits : IrType → ℕ → Result ℕ
const64_bits int1 u64 = ok (if u64 % 2 ^ 32 == 0 then 0 else 1)
const64_bits int8 u64 = ok (u64 % 2 ^ 32)
const64_bits int16 u64 = ok (u64 % 2 ^ 32)
const64_bits int32 u64 = ok (u64 % 2 ^ 32)
const64_bits (pointer t) u64 = ok (u64 % 2 ^ 32)
const64_bits (intx bits) u64 = ok u64
const64_bits int64 u64 = ok u64
const64_bits double u64 = ok u64
const64_bits it u64 = err parser_error

unfoldable pub const64_of : IrType → ValueClass → Result ℕ
unfolding const64_bits
const64_of it (constant u64) = const64_bits it u64
const64_of it class = err assertion

unfoldable pub value_get_const64 : IrUnit → Value → Result ℕ
unfolding const64_of type_get
value_get_const64 iu iv = type_get ((iu.table).types) (iv.type) >>= λ it. const64_of it (iv.class)

unfoldable pub const32_bits : IrType → ℕ → Result ℕ
const32_bits int1 u64 = ok (if u64 % 2 ^ 32 == 0 then 0 else 1)
const32_bits int8 u64 = ok (u64 % 2 ^ 32)
const32_bits int16 u64 = ok (u64 % 2 ^ 32)
const32_bits int32 u64 = ok (u64 % 2 ^ 32)
const32_bits (pointer t) u64 = ok (u64 % 2 ^ 32)
const32_bits float u64 = ok (u64 % 2 ^ 32)
const32_bits (intx bits) u64 = ok (u64 % 2 ^ 32)
const32_bits int64 u64 = ok (u64 % 2 ^ 32)
const32_bits double u64 = ok (u64 % 2 ^ 32)
const32_bits it u64 = err parser_error

unfoldable pub const32_of : IrType → ValueClass → Result ℕ
unfolding const32_bits
const32_of it (globalvar ig) = ok (ig.addr)
const32_of it (constant u64) = const32_bits it u64
const32_of it class = err parser_error

unfoldable pub value_get_const32 : IrUnit → Value → Result ℕ
unfolding const32_of type_get
value_get_const32 iu iv = type_get ((iu.table).types) (iv.type) >>= λ it. const32_of it (iv.class)
