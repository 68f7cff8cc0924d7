-- ===== src/Parser/Module.antt =====
-- src/vmir_bitcode_parser.c: the records of a module.
pub mod Globals
use vmir.Common.{
  ℕ, zero, suc, ◌+◌, ◌-◌, ◌*◌, ◌/◌, ◌%◌, ◌^◌, Bool, true, false, not, ◌&&◌, Option, none, some,
  List, [], ◌∷◌, ◌++◌, ltb, leb, ◌==◌, if◌then◌else◌, get_elem?, length,
}
use vmir.Common.Words.{leb_s32}
use vmir.Argv.{read_str_from_argv}
use vmir.Types.{
  IrType, struct, void, int1, int8, int16, int32, int64, intx, float, double, array, pointer,
  function, metadata, label, opaque, Result, ok, err, ◌>>=◌, parser_error, uninitialised, assertion,
  type_get, type_get_pointee, type_sizeof, minus_one,
}
use vmir.Types.Make.{TypeTable, type_make_pointer}
use vmir.Types.Layout.{vmir_align}
use vmir.Types.Records.{arg, to_int}
use vmir.Parser.{
  ConstExpr, GlobalVar, ValueClass, function_value, globalvar, alias, Value, Function, Attr, IrUnit,
  value_append, put_value,
}

-- A shift by an amount below 0 is not defined.
unfoldable pub vmir_llvm_alignment : (align default_alignment : ℕ) → Result ℕ
vmir_llvm_alignment align default_alignment =
    if align == 0
    then ok default_alignment
    else if leb_s32 10 align
    then ok 256
    else if leb (2 ^ 31) align
    then err uninitialised
    else ok (2 ^ align / 2)

-- The type of a global variable and what it points to.
unfoldable pub globalvar_types : IrUnit → (explicit_type : Bool) → ℕ → Result (ℕ × ℕ)
unfolding type_make_pointer type_get_pointee
globalvar_types iu true a =
    let type = (type_make_pointer iu.table (to_int a) false).0 in
    if type == minus_one then err parser_error else ok (type, to_int a)
globalvar_types iu false a =
    type_get_pointee ((iu.table).types) (to_int a) >>= λ pointee. ok (to_int a, pointee)

-- The initializer is given as its index plus 1.
unfoldable pub push_initializer : (initializer val_id : ℕ) → IrUnit → IrUnit
push_initializer zero val_id iu = iu
push_initializer (suc c) val_id iu = record iu {
  initializers = iu.initializers ++ (val_id, c) ∷ [];
}

-- The part of module_globalvar behind the types: the place in the data and the value.
unfoldable pub place_globalvar : IrUnit → (type pointee alignment initializer : ℕ) → Result IrUnit
unfolding value_append put_value type_sizeof vmir_align push_initializer
place_globalvar iu type pointee alignment initializer = value_append iu >>= λ (val_id, iu1).
    if alignment == 0
    then err assertion
    else (let addr = vmir_align iu1.data_ptr alignment in
        type_sizeof ((iu1.table).types) pointee >>= λ size.
        let ig : GlobalVar = record { type = pointee; name = none; addr = addr; size = size } in
        ok (
          push_initializer initializer val_id
            (record (put_value val_id (record { class = globalvar ig; type = type }) iu1) {
              data_ptr = (addr + size) % 2 ^ 32;
            })))

unfoldable pub module_globalvar : IrUnit → List ℕ → Result IrUnit
unfolding globalvar_types place_globalvar vmir_llvm_alignment arg
module_globalvar iu argv =
    if ltb (length argv) 6
    then err parser_error
    else (arg argv 0 >>= λ a0. arg argv 1 >>= λ a1. arg argv 2 >>= λ a2. arg argv 4 >>= λ a4.
        globalvar_types iu (a1 / 2 % 2 == 1) a0 >>= λ (type, pointee).
        vmir_llvm_alignment (to_int a4) 4 >>= λ alignment.
        place_globalvar iu type pointee alignment (to_int a2))

-- The pointee of a pointer, any other type itself.
unfoldable pub function_type_index : IrType → ℕ → ℕ
function_type_index (pointer pointee) type = pointee
function_type_index it type = type

unfoldable pub push_function : (type : ℕ) → (isproto : Bool) → IrUnit → Result IrUnit
unfolding value_append put_value
push_function type isproto iu =
    let gfid = length iu.functions in
    let f : Function = record { isproto = isproto; type = type; gfid = gfid } in
    let bodies =
      if isproto then iu.functions_with_bodies else iu.functions_with_bodies ++ gfid ∷ [] in
    value_append (record iu { functions = iu.functions ++ f ∷ []; functions_with_bodies = bodies })
    >>= λ (id, iu1). ok (put_value id (record { class = function_value gfid; type = type }) iu1)

unfoldable pub module_function : IrUnit → List ℕ → Result IrUnit
unfolding arg type_get function_type_index push_function
module_function iu argv =
    if ltb (length argv) 8
    then err parser_error
    else (arg argv 0 >>= λ a0. arg argv 2 >>= λ a2.
        type_get ((iu.table).types) (to_int a0) >>= λ it.
        push_function (function_type_index it (to_int a0)) (not (a2 == 0)) iu)

unfoldable pub module_alias : IrUnit → List ℕ → Result IrUnit
unfolding arg value_append put_value
module_alias iu argv =
    if ltb (length argv) 3
    then err parser_error
    else (arg argv 0 >>= λ a0. arg argv 1 >>= λ a1. value_append iu >>= λ (id, iu1).
        ok (put_value id (record { class = alias (to_int a1); type = to_int a0 }) iu1))

unfoldable pub module_vstoffset : IrUnit → List ℕ → Result IrUnit
module_vstoffset iu (a ∷ []) = ok (record iu { vstoffset = to_int a })
module_vstoffset iu argv = err parser_error

-- MODULE_CODE_*, and any other code.
pub data ModuleCode : Type 0 where
  version triple datalayout global_var function_code alias_code comdat vstoffset values_unused :
      ModuleCode
  unknown : ModuleCode

unfoldable pub module_code : ℕ → ModuleCode
module_code op =
    if op == 1
    then version
    else if op == 2
    then triple
    else if op == 3
    then datalayout
    else if op == 7
    then global_var
    else if op == 8
    then function_code
    else if op == 9
    then alias_code
    else if op == 12
    then comdat
    else if op == 13
    then vstoffset
    else if op == 15
    then values_unused
    else unknown

unfoldable pub module_switch : IrUnit → ModuleCode → List ℕ → Result IrUnit
unfolding module_globalvar module_function module_alias module_vstoffset read_str_from_argv arg
module_switch iu version argv = arg argv 0 >>= λ a. ok (record iu { version = to_int a })
module_switch iu triple argv = ok (record iu { triple = some (read_str_from_argv argv) })
module_switch iu datalayout argv = ok iu
module_switch iu global_var argv = module_globalvar iu argv
module_switch iu function_code argv = module_function iu argv
module_switch iu alias_code argv = module_alias iu argv
module_switch iu vstoffset argv = module_vstoffset iu argv
module_switch iu comdat argv = ok iu
module_switch iu values_unused argv = ok iu
module_switch iu unknown argv = err parser_error

unfoldable pub module_rec_handler : IrUnit → (op : ℕ) → List ℕ → Result IrUnit
unfolding module_switch module_code
module_rec_handler iu op argv = module_switch iu (module_code op) argv
