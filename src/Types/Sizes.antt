-- ===== src/Types/Sizes.antt =====
-- src/vmir_type.c: how sizes, bit widths and legal types go together, and how deep the size of a
-- type recurs.
use vmir.Common.{
  ℕ, zero, suc, ◌*◌, ◌^◌, ◌≤◌, ◌<◌, ◌≡◌, ◌≢◌, refl, arith, get_elem?, some, get_elem?-lt, leb, ◌%◌,
  Option-cases, inl, inr, if◌then◌else◌,
}
use vmir.Types.{
  TypeCode, c_int1, c_int8, c_int16, c_int32, c_int64, IrType, void, int1, int8, int16, int32,
  int64, intx, array, Types, Result, ok, err, ◌>>=◌, out_of_fuel, type_get, type_sizeof_ptr,
  type_alignment_ptr, type_sizeof, type_alignment, type_bitwidth, legalize_type, type_fuel,
}

-- The bits of a register of a legal type.
unfoldable pub code_bits : TypeCode → ℕ
code_bits c_int1 = 1
code_bits c_int8 = 8
code_bits c_int16 = 16
code_bits c_int32 = 32
code_bits c_int64 = 64
code_bits code = 0

-- A type of 1 to 64 bits is legalised to an integer type that holds its bits, and has a size in
-- memory whose bits are as many as those of the legal type at least.
pub legalize_type-fits :
    (fuel w : ℕ) (types : Types) (it : IrType)
    → type_bitwidth it ≡ ok w
    → 0 < w
    → w ≤ 64
    → (n : ℕ) × (type_sizeof_ptr fuel types it ≡ ok n)
      × (w ≤ code_bits (legalize_type it))
      × (code_bits (legalize_type it) ≤ 8 * n)
unfolding type_bitwidth type_sizeof_ptr legalize_type code_bits
legalize_type-fits fuel w types (intx bits) e pos h =
    let small : bits ≤ 64 = ground arith in
    (if leb bits 32 then 4 else 8, ground arith, ground arith, ground arith)
legalize_type-fits fuel w types int1 e pos h = (1, refl, ground arith, omega arith)
legalize_type-fits fuel w types int8 e pos h = (1, refl, ground arith, omega arith)
legalize_type-fits fuel w types int16 e pos h = (2, refl, ground arith, omega arith)
legalize_type-fits fuel w types int32 e pos h = (4, refl, ground arith, omega arith)
legalize_type-fits fuel w types int64 e pos h = (8, refl, ground arith, omega arith)
legalize_type-fits fuel w types void e pos h = absurd (ground arith)
legalize_type-fits fuel w types it e pos h = absurd (ground arith)

-- Array elements stand before the arrays in the table.
abbrev pub Ordered : Types → Type 0
Ordered types = (i n t : ℕ) → get_elem? types i ≡ some (array n t) → t < i

times-ends :
    (n : ℕ) (r : Result ℕ)
    → r ≢ err out_of_fuel
    → (r >>= λ s. ok (s * n % 2 ^ 32)) ≢ err out_of_fuel
times-ends n (ok s) h = λ p. cc
times-ends n (err e) h = λ p. h (ground arith)

type_get-ends :
    (types : Types) (t : ℕ) (f : IrType → Result ℕ)
    → ((it : IrType) → get_elem? types t ≡ some it → f it ≢ err out_of_fuel)
    → (type_get types t >>= f) ≢ err out_of_fuel
unfolding type_get
type_get-ends types t f h = elim (Option-cases (get_elem? types t)) [
  | inl e ↦ rw (e, ◌>>=◌) (λ p. cc)
  | inr (it, e) ↦ rw (e, ◌>>=◌) (h it e)
]

sizeof_ptr-ends :
    (types : Types)
    → Ordered types
    → (fuel i : ℕ) (it : IrType) → i < fuel
    → get_elem? types i ≡ some it
    → type_sizeof_ptr fuel types it ≢ err out_of_fuel
unfolding type_sizeof_ptr
sizeof_ptr-ends types ord (suc fuel) i (array n t) h e =
    type_get-ends types t (λ it. type_sizeof_ptr fuel types it >>= λ s. ok (s * n % 2 ^ 32))
      λ it g.
        times-ends n (type_sizeof_ptr fuel types it)
          (sizeof_ptr-ends types ord fuel t it (omega (arith, ord i n t e)) g)
sizeof_ptr-ends types ord zero i it h e = elim h [ ]
sizeof_ptr-ends types ord (suc fuel) i it h e = ground arith

alignment_ptr-ends :
    (types : Types)
    → Ordered types
    → (fuel i : ℕ) (it : IrType) → i < fuel
    → get_elem? types i ≡ some it
    → type_alignment_ptr fuel types it ≢ err out_of_fuel
unfolding type_alignment_ptr
alignment_ptr-ends types ord (suc fuel) i (array n t) h e =
    type_get-ends types t (type_alignment_ptr fuel types)
      λ it g. alignment_ptr-ends types ord fuel t it (omega (arith, ord i n t e)) g
alignment_ptr-ends types ord zero i it h e = elim h [ ]
alignment_ptr-ends types ord (suc fuel) i it h e = ground arith

-- In a table whose arrays come after their elements, the size and the alignment of every index are
-- found, or refused, without the fuel running out.
pub type_sizeof-ends :
    (types : Types)
    → Ordered types
    → (index : ℕ)
    → (type_sizeof types index ≢ err out_of_fuel) × (type_alignment types index ≢ err out_of_fuel)
unfolding type_sizeof type_alignment
type_sizeof-ends types ord index = (
  type_get-ends types index (type_sizeof_ptr (type_fuel types) types) λ it e.
      sizeof_ptr-ends types ord (type_fuel types) index it
        (omega (arith, get_elem?-lt types index e)) e,
  type_get-ends types index (type_alignment_ptr (type_fuel types) types) λ it e.
      alignment_ptr-ends types ord (type_fuel types) index it
        (omega (arith, get_elem?-lt types index e)) e,
)
