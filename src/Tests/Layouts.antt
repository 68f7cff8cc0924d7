-- ===== src/Tests/Layouts.antt =====
-- The table of types on small modules.
use vmir.Common.{
  ℕ, zero, suc, ◌+◌, ◌*◌, ◌^◌, ◌≤◌, ◌<◌, ◌≡◌, ◌≢◌, refl, true, false, none, some, [], ◌∷◌, ◌++◌,
  arith, set, get_elem?, subst,
}
use vmir.Types.{
  StructType, IrType, struct, int8, int32, array, pointer, intx, Types, ok, err, type_sizeof,
  out_of_fuel, type_sizeof_ptr, type_alignment, legalize_type, type_bitwidth, type_get,
  type_alignment_ptr,
}
use vmir.Types.Sizes.{code_bits, legalize_type-fits, Ordered, type_sizeof-ends}
use vmir.Types.Make.{TypeTable, type_make_pointer, PointerAt, type_make_pointer-PointerAt}
use vmir.Types.Records.{types_new_rec_handler}
use vmir.Types.Records.Widths.{
  Extends, types_new_rec_handler-Extends, types_new_rec_handler-bitwidth,
}
use vmir.Types.Layout.{type_struct_layout, types_finalize, needs_layout}
use vmir.Types.Layout.Finalize.{Grows, some-injective}
use vmir.Types.Layout.Succeeds.{parts, Parts, InOrder, types_finalize-total}
use vmir.Types.Layout.Place.{Shapes, room, one, four}
use vmir.Types.Layout.Struct.{HasShape, HaveShapes, IsLayout, type_struct_layout-IsLayout}

-- A struct of a byte, a word and a byte.
abbrev padded : StructType
padded = record {
  name = none;
  elements = 0 ∷ 1 ∷ 0 ∷ [];
  offsets = [];
  size = 0;
  alignment = 0;
  packed = false;
  computed = false;
}

abbrev table : Types
table = int8 ∷ int32 ∷ struct padded ∷ []

laid_out :
    types_finalize table
    ≡ ok (
        int8
        ∷ int32
        ∷ struct
            (record padded { offsets = 0 ∷ 4 ∷ 8 ∷ []; size = 12; alignment = 4; computed = true })
        ∷ [])
unfolding types_finalize
laid_out = refl

abbrev shapes : Shapes
shapes = (1, 1) ∷ (4, 4) ∷ (1, 1) ∷ []

have_shapes : HaveShapes table (padded.elements) shapes
unfolding type_get needs_layout type_sizeof_ptr type_alignment_ptr
have_shapes = (byte, (word, (byte, tt)))
  where
    byte : HasShape table 0 1 1
    byte = record {
      ty = int8;
      got = refl;
      laid_out = refl;
      sizeof = refl;
      alignment = refl;
      is_alignment = one refl;
    }

    word : HasShape table 1 4 4
    word = record {
      ty = int32;
      got = refl;
      laid_out = refl;
      sizeof = refl;
      alignment = refl;
      is_alignment = four refl;
    }

small : 8 + room shapes < 2 ^ 31
unfolding room
small = omega arith

type_struct_layout-IsLayout_example :
    (s' : StructType) × (type_struct_layout 1 2 table ≡ ok (set table 2 (struct s')))
    × IsLayout padded shapes s'
type_struct_layout-IsLayout_example =
    type_struct_layout-IsLayout 0 2 table padded shapes refl have_shapes small

legalize_type-fits_example :
    (n : ℕ) × (type_sizeof_ptr 0 [] (intx 48) ≡ ok n)
    × (48 ≤ code_bits (legalize_type (intx 48)))
    × (code_bits (legalize_type (intx 48)) ≤ 8 * n)
unfolding type_bitwidth
legalize_type-fits_example = legalize_type-fits 0 48 [] (intx 48) refl (omega arith) (omega arith)

abbrev arrays : Types
arrays = int32 ∷ array 3 0 ∷ array 5 1 ∷ []

size_of_arrays : type_sizeof arrays 2 ≡ ok 60
unfolding type_sizeof
size_of_arrays = refl

arrays-Ordered : Ordered arrays
arrays-Ordered zero n t e = absurd (ground arith)
arrays-Ordered (suc zero) n t e = ground arith
arrays-Ordered (suc (suc zero)) n t e = ground arith
arrays-Ordered (suc (suc (suc i))) n t e = absurd (ground arith)

type_sizeof-ends_example :
    (type_sizeof arrays 2 ≢ err out_of_fuel) × (type_alignment arrays 2 ≢ err out_of_fuel)
type_sizeof-ends_example = type_sizeof-ends arrays arrays-Ordered 2

abbrev unit : TypeTable
unit = record {
  types = int8 ∷ pointer 0 ∷ [];
  types_created = false;
  current_struct_name = none;
  capacity = 2;
}

type_make_pointer-PointerAt_example :
    PointerAt 1 (type_make_pointer unit 1 true).0 unit (type_make_pointer unit 1 true).1
type_make_pointer-PointerAt_example = type_make_pointer-PointerAt unit 1

types_new_rec_handler-bitwidth_example :
    (it : IrType) × (iu' : TypeTable) × (types_new_rec_handler unit 7 (33 ∷ []) ≡ ok iu')
    × (iu'.types ≡ unit.types ++ it ∷ [])
    × (type_bitwidth it ≡ ok 33)
types_new_rec_handler-bitwidth_example =
    types_new_rec_handler-bitwidth unit 33 [] refl (omega arith)

abbrev unit_array : TypeTable
unit_array = record {
  types = int8 ∷ pointer 0 ∷ array 4 0 ∷ [];
  types_created = false;
  current_struct_name = none;
  capacity = 6;
}

array_added : types_new_rec_handler unit 11 (4 ∷ 0 ∷ []) ≡ ok unit_array
unfolding types_new_rec_handler
array_added = refl

types_new_rec_handler-Extends_example : (unit.types_created ≡ false) × Extends unit unit_array
types_new_rec_handler-Extends_example =
    types_new_rec_handler-Extends unit unit_array 11 (4 ∷ 0 ∷ []) array_added

table-InOrder : InOrder table
table-InOrder zero it e = subst (λ t. Parts table 0 (parts t)) (some-injective e) tt
table-InOrder (suc zero) it e = subst (λ t. Parts table 1 (parts t)) (some-injective e) tt
table-InOrder (suc (suc zero)) it e =
    subst (λ t. Parts table 2 (parts t)) (some-injective e)
      (
        (omega arith, (int8, refl, tt)),
        ((omega arith, (int32, refl, tt)), ((omega arith, (int8, refl, tt)), tt)),
      )
table-InOrder (suc (suc (suc i))) it e = absurd (cc)

types_finalize-total_example :
    (ts' : Types) × (types_finalize table ≡ ok ts')
    × Grows table ts'
    × ((j : ℕ) (it : IrType) → get_elem? ts' j ≡ some it → needs_layout it ≡ false)
types_finalize-total_example = types_finalize-total table table-InOrder
