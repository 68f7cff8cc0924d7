-- ===== src/Types/Make.antt =====
-- src/vmir_type.c: type_make, type_make_pointer and type_find_by_code, which look a type up in the
-- table and may add it at the end.
use vmir.Common.{
  ℕ, ◌+◌, ◌<◌, ◌≡◌, refl, ◌∙◌, ap, Bool, true, false, Option, none, some, List, [], ◌∷◌, ◌++◌, ◌==◌,
  if◌then◌else◌, find_index, find_index-some, find_index-append, get_elem?, get_elem?-append_self,
  get_elem?-append_lt, length, ltb, ◌*◌, arith, Option-cases, inl, inr,
}
use vmir.Types.{
  TypeCode, c_struct, c_void, c_int1, c_int8, c_int16, c_int32, c_int64, c_intx, c_float, c_double,
  c_array, c_pointer, c_function, c_metadata, c_label, c_opaque, IrType, struct, void, int1, int8,
  int16, int32, int64, float, double, pointer, metadata, label, opaque, it_code, Types, Result, ok,
  ◌>>=◌, err, parser_error, uninitialised, minus_one,
}

-- The fields of the unit that the table of types consists of.
pub record TypeTable : Type 0 where
  pub types : Types
  pub types_created : Bool
  pub current_struct_name : Option (List ℕ)
  pub capacity : ℕ

-- VECTOR_PUSH_BACK on iu_types.
unfoldable pub push_type : IrType → TypeTable → TypeTable
push_type it iu =
    let n = length iu.types + 1 in
    record iu {
      types = iu.types ++ it ∷ [];
      capacity = if ltb iu.capacity n then n * 2 else iu.capacity;
    }

unfoldable pub is_pointer_to : ℕ → IrType → Bool
is_pointer_to type (pointer pointee) = pointee == type
is_pointer_to type it = false

unfoldable pub type_make_pointer : TypeTable → ℕ → Bool → ℕ × TypeTable
unfolding push_type is_pointer_to
type_make_pointer iu type may_create = elim (find_index (is_pointer_to type) (iu.types)) [
  | some i ↦ (i, iu)
  | none ↦
      if may_create
      then (length iu.types, record (push_type (pointer type) iu) { types_created = true })
      else (minus_one, iu)
]

-- The number of a code in the enumeration.
unfoldable pub code_number : TypeCode → ℕ
code_number c_struct = 0
code_number c_void = 1
code_number c_int1 = 2
code_number c_int8 = 3
code_number c_int16 = 4
code_number c_int32 = 5
code_number c_int64 = 6
code_number c_intx = 7
code_number c_float = 8
code_number c_double = 9
code_number c_array = 10
code_number c_pointer = 11
code_number c_function = 12
code_number c_metadata = 13
code_number c_label = 14
code_number c_opaque = 15

unfoldable pub has_code : TypeCode → IrType → Bool
unfolding it_code code_number
has_code code it = code_number (it_code it) == code_number code

-- A type that is set up by its code alone. The union is left as it was, so a code that selects a
-- member of it gives no type.
unfoldable pub of_code : TypeCode → Result IrType
of_code c_void = ok void
of_code c_int1 = ok int1
of_code c_int8 = ok int8
of_code c_int16 = ok int16
of_code c_int32 = ok int32
of_code c_int64 = ok int64
of_code c_float = ok float
of_code c_double = ok double
of_code c_metadata = ok metadata
of_code c_label = ok label
of_code c_opaque = ok opaque
of_code code = err uninitialised

unfoldable pub type_make : TypeTable → TypeCode → Result (ℕ × TypeTable)
unfolding push_type has_code of_code
type_make iu code = elim (find_index (has_code code) (iu.types)) [
  | some i ↦ ok (i, iu)
  | none ↦
      of_code code >>= λ it. ok (length iu.types, record (push_type it iu) { types_created = true })
]

unfoldable pub type_find_by_code : Types → TypeCode → Result ℕ
unfolding has_code
type_find_by_code types code = elim (find_index (has_code code) types) [
  | some i ↦ ok i
  | none ↦ err parser_error
]

is_pointer_to-eq : (type : ℕ) (it : IrType) → is_pointer_to type it ≡ true → it ≡ pointer type
unfolding is_pointer_to
is_pointer_to-eq type (pointer p) e = ground arith
is_pointer_to-eq type (struct s) e = absurd (cc)
is_pointer_to-eq type it e = absurd (cc)

is_pointer_to_self : (type : ℕ) → is_pointer_to type (pointer type) ≡ true
unfolding is_pointer_to
is_pointer_to_self type = ground arith

-- `i` is the place of a pointer to `type` in the new table, which has all that the old one had.
pub record PointerAt (type i : ℕ) (iu iu' : TypeTable) : Type 0 where
  pub found : get_elem? (iu'.types) i ≡ some (pointer type)
  pub kept : (j : ℕ) → j < length (iu.types) → get_elem? (iu'.types) j ≡ get_elem? (iu.types) j
  pub again : (may_create : Bool) → type_make_pointer iu' type may_create ≡ (i, iu')

-- When it may create, type_make_pointer returns the place of a pointer to the type, keeps every type
-- in its place, and a second call finds the same place and adds nothing.
pub type_make_pointer-PointerAt :
    (iu : TypeTable) (type : ℕ)
    → PointerAt type (type_make_pointer iu type true).0 iu (type_make_pointer iu type true).1
unfolding type_make_pointer push_type
type_make_pointer-PointerAt iu type =
    elim (Option-cases (find_index (is_pointer_to type) (iu.types))) [
      | inl e ↦
          rw (e, type_make_pointer)
            (record {
              found = get_elem?-append_self (iu.types) (pointer type);
              kept = λ j h. get_elem?-append_lt (iu.types) (pointer type ∷ []) j h;
              again = λ m. rw (
                find_index-append (is_pointer_to type) (iu.types) (pointer type)
                    (is_pointer_to_self type) e,
                type_make_pointer,
              );
            })
      | inr (i, e) ↦
          rw (e, type_make_pointer)
            (record {
              found =
                  let (it, at, is) = find_index-some (is_pointer_to type) (iu.types) i e in
                  at ∙ ap some (is_pointer_to-eq type it is);
              kept = λ j h. refl;
              again = λ m. rw (e, type_make_pointer);
            })
    ]
