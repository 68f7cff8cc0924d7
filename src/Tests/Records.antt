-- ===== src/Tests/Records.antt =====
-- The records of a module on a small unit.
use vmir.Common.{ℕ, ◌*◌, ◌≤◌, ◌≡◌, ◌≢◌, refl, false, none, List, [], ◌∷◌, arith, length}
use vmir.Argv.SignRotated.{sign_rotated}
use vmir.Types.{
  int16, int32, int64, intx, pointer, ok, err, out_of_fuel, parser_error, type_sizeof,
  type_bitwidth, type_sizeof_ptr,
}
use vmir.Types.Layout.Place.{four}
use vmir.Parser.{Value, IrUnit, value_get, value_get_const64, regframe_slots}
use vmir.Parser.Values.{regframe_slots-fits}
use vmir.Parser.Attributes.{paramattr_group_rec_handler}
use vmir.Parser.Attributes.Encoded.{
  flag, with_key, with_value, attr_codes, paramattr_group_rec_handler-attributes,
}
use vmir.Argv.Strings.{IsChar}
use vmir.Parser.Attributes.Groups.{paramattr_group_rec_handler-ends}
use vmir.Parser.Constants.{constants_rec_handler, data_elements}
use vmir.Parser.Constants.Integers.{length-data_elements, constants_rec_handler-value_get_const64}
use vmir.Parser.Module.{place_globalvar, push_function}
use vmir.Parser.Module.Globals.{
  PlacedAt, place_globalvar-PlacedAt, Declared, push_function-Declared,
}

abbrev unit : IrUnit
unit = record {
  table = record {
    types = int32 ∷ pointer 0 ∷ int64 ∷ [];
    types_created = false;
    current_struct_name = none;
    capacity = 3;
  };
  values = [];
  next_value = 0;
  functions = [];
  functions_with_bodies = [];
  initializers = [];
  data_ptr = 1021;
  attribute_groups = [];
  attrsets = [];
  current_type = 2;
  version = 0;
  triple = none;
  vstoffset = 0;
}

-- An integer attribute with one argument left is not refused, but the loop goes on behind the record.
short_int_attribute :
    paramattr_group_rec_handler unit (9 ∷ 9 ∷ []) 3 (1 ∷ 0 ∷ 1 ∷ 5 ∷ []) ≡ err parser_error
unfolding paramattr_group_rec_handler
short_int_attribute = refl

place_globalvar-PlacedAt_example :
    (iu' : IrUnit) × (place_globalvar unit 1 0 4 0 ≡ ok iu') × PlacedAt unit 1 0 4 4 iu'
unfolding type_sizeof
place_globalvar-PlacedAt_example =
    place_globalvar-PlacedAt unit 1 0 4 0 4 refl (four refl) refl (omega arith)

push_function-Declared_example :
    (iu' : IrUnit) × (push_function 1 false unit ≡ ok iu') × Declared unit 1 false iu'
push_function-Declared_example = push_function-Declared unit 1 false refl

paramattr_group_rec_handler-ends_example :
    paramattr_group_rec_handler unit [] 3 (1 ∷ 0 ∷ 0 ∷ 5 ∷ 3 ∷ 97 ∷ 0 ∷ []) ≢ err out_of_fuel
paramattr_group_rec_handler-ends_example =
    paramattr_group_rec_handler-ends unit [] 3 (1 ∷ 0 ∷ 0 ∷ 5 ∷ 3 ∷ 97 ∷ 0 ∷ [])

-- The flag 5, `a`, and `a` with the value `b`.
paramattr_group_rec_handler-attributes_example :
    paramattr_group_rec_handler unit
      (1 ∷ 2 ∷ [])
      3
      (1 ∷ 0 ∷ attr_codes (flag 5 ∷ with_key (97 ∷ []) ∷ with_value (97 ∷ []) (98 ∷ []) ∷ []))
    ≡ ok (record unit { attribute_groups = record { group_id = 1; index = 0; flags = 32 } ∷ [] })
paramattr_group_rec_handler-attributes_example =
    paramattr_group_rec_handler-attributes unit (1 ∷ 2 ∷ []) 1 0 (flag 5)
      (with_key (97 ∷ []) ∷ with_value (97 ∷ []) (98 ∷ []) ∷ [])
      (omega arith, ((is_a, tt), (((is_a, tt), (is_b, tt)), tt))) (omega arith)
  where
    is_a : IsChar 97
    is_a = (omega arith, omega arith)

    is_b : IsChar 98
    is_b = (omega arith, omega arith)

constants_rec_handler-value_get_const64_example :
    (iu' : IrUnit) × (v : Value) × (constants_rec_handler unit 4 (sign_rotated 77 ∷ []) ≡ ok iu')
    × (value_get iu' (length unit.values) ≡ ok v)
    × (value_get_const64 iu' v ≡ ok 77)
constants_rec_handler-value_get_const64_example =
    constants_rec_handler-value_get_const64 unit 77 [] refl refl (omega arith)

abbrev data_args : List ℕ
data_args = 257 ∷ 2 ∷ []

abbrev data_bytes : List ℕ
data_bytes = 1 ∷ 1 ∷ 2 ∷ 0 ∷ []

length-data_elements_example :
    (s : ℕ) × (type_sizeof_ptr 0 [] int16 ≡ ok s) × (length data_bytes ≡ s * length data_args)
unfolding data_elements
length-data_elements_example = length-data_elements 0 [] int16 data_args data_bytes refl

regframe_slots-fits_example :
    (n : ℕ) × (s : ℕ) × (regframe_slots (intx 33) ≡ ok n)
    × (type_sizeof_ptr 0 [] (intx 33) ≡ ok s)
    × (33 ≤ 32 * n)
    × (s ≤ 4 * n)
unfolding type_bitwidth
regframe_slots-fits_example = regframe_slots-fits 0 33 [] (intx 33) refl (omega arith) (omega arith)
