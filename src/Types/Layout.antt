-- ===== src/Types/Layout.antt =====
-- src/vmir_type.c: type_struct_layout and types_finalize.
pub mod Place
pub mod Struct
pub mod Finalize
pub mod Succeeds
use vmir.Common.{
  ℕ, zero, suc, ◌+◌, ◌-◌, ◌%◌, ◌^◌, Bool, true, false, not, ◌&&◌, Option, none, some, List, [], ◌∷◌,
  if◌then◌else◌, get_elem?, length, set, ltb,
}
use Prim.Native.Nat.{bit_and}
use vmir.Types.{
  StructType, IrType, struct, array, Types, Result, ok, err, ◌>>=◌, uninitialised, out_of_fuel,
  parser_error, type_get, type_sizeof_ptr, type_alignment_ptr, type_fuel,
}

-- `VMIR_ALIGN(a, b)`, `((a) + (b) - 1) & ~((b) - 1)`, on 32-bit words.
unfoldable pub vmir_align : ℕ → ℕ → ℕ
vmir_align a b = bit_and ((a + b + 2 ^ 32 - 1) % 2 ^ 32) ((2 ^ 32 - b) % 2 ^ 32)

-- VMIR_MAX on two `int`s that are not negative.
unfoldable pub vmir_max : ℕ → ℕ → ℕ
vmir_max a b = if ltb b a then a else b

unfoldable pub needs_layout : IrType → Bool
needs_layout (struct s) = not s.computed
needs_layout it = false

-- What the loop over the elements has come to: the offsets given, the end and the biggest alignment.
pub record Laid : Type 0 where
  pub types : Types
  pub offsets : List ℕ
  pub offset : ℕ
  pub ba : ℕ

-- One element: its type is laid out first by `nest`, if that is a struct that is not.
unfoldable pub layout_loop :
    (nest : ℕ → Types → Result Types) (packed : Bool)
    → Types
    → (offset ba : ℕ) → List ℕ
    → Result Laid
unfolding type_get needs_layout vmir_align vmir_max type_sizeof_ptr type_alignment_ptr
layout_loop nest packed types offset ba [] =
    ok (record { types = types; offsets = []; offset = offset; ba = ba })
layout_loop nest packed types offset ba (e ∷ es) = type_get types e >>= λ before.
    (if needs_layout before then nest e types else ok types) >>= λ types1.
    type_get types1 e >>= λ ty. type_sizeof_ptr (type_fuel types1) types1 ty >>= λ s.
    (if packed then ok 1 else type_alignment_ptr (type_fuel types1) types1 ty) >>= λ a.
    let offset1 = if packed then offset else vmir_align offset a in
    let ba1 = if packed then ba else vmir_max ba a in
    layout_loop nest packed types1 ((offset1 + s) % 2 ^ 32) ba1 es >>= λ l.
    ok (record l { offsets = offset1 ∷ l.offsets })

-- The struct with the fields that the layout sets.
unfoldable pub finish : StructType → Laid → StructType
unfolding vmir_align
finish s l = record s {
  offsets = l.offsets;
  size = if s.packed then l.offset else vmir_align l.offset l.ba;
  alignment = l.ba;
  computed = true;
}

-- The body of type_struct_layout, with `nest` for its calls of itself. The offsets are written at the
-- end, since nothing reads them before.
unfoldable pub layout_entry :
    (nest : ℕ → Types → Result Types) → ℕ → Types → Option IrType → Result Types
unfolding layout_loop finish
layout_entry nest idx types (some (struct s)) =
    layout_loop nest s.packed types 0 1 s.elements >>= λ l.
    ok (set l.types idx (struct (finish s l)))
layout_entry nest idx types it = err uninitialised

-- type_struct_layout on the entry `idx`. `fuel` bounds the structs inside one another; they have no
-- end only if one contains itself.
unfoldable pub type_struct_layout : ℕ → ℕ → Types → Result Types
unfolding layout_entry
type_struct_layout zero idx types = err out_of_fuel
type_struct_layout (suc fuel) idx types =
    layout_entry (type_struct_layout fuel) idx types (get_elem? types idx)

-- `for(int i = 0; ...)` of types_finalize, on the `n` entries from `i` on.
unfoldable pub types_finalize_loop : (n i : ℕ) → Types → Result Types
unfolding type_struct_layout
types_finalize_loop zero i types = ok types
types_finalize_loop (suc n) i types = type_get types i >>= λ it.
    (if needs_layout it then type_struct_layout (type_fuel types) i types else ok types)
    >>= λ types1. types_finalize_loop n (suc i) types1

unfoldable pub types_finalize : Types → Result Types
unfolding types_finalize_loop
types_finalize types = types_finalize_loop (length types) 0 types
