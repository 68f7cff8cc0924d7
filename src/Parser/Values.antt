-- ===== src/Parser/Values.antt =====
-- src/vmir_value.c: the end of the list of values, and the registers that a type takes.
use vmir.Common.{
  ℕ, suc, ◌*◌, ◌≤◌, ◌<◌, ◌≡◌, refl, ap, true, Option, some, [], ◌∷◌, ◌++◌, leb, ◌==◌, if◌then◌else◌,
  length, set-append_self, arith,
}
use vmir.Types.{
  IrType, void, int1, int8, int16, int32, int64, intx, Types, ok, type_bitwidth, type_sizeof_ptr,
}
use vmir.Parser.{Value, IrUnit, new_value, value_append, put_value, regframe_slots}

-- The unit with one more value, at the end of a full list.
abbrev pub with_value : IrUnit → Option Value → IrUnit
with_value iu v = record iu { values = iu.values ++ v ∷ []; next_value = suc iu.next_value }

pub value_append_lem :
    (iu : IrUnit)
    → iu.next_value ≡ length iu.values
    → value_append iu ≡ ok (length iu.values, with_value iu (some new_value))
unfolding value_append
value_append_lem iu h =
    let at : (iu.next_value == length iu.values) ≡ true = ground arith in
    rw at (ap (λ (n : ℕ). ok (n, with_value iu (some new_value))) h)

pub put_value-with_value :
    (iu : IrUnit) (v : Value)
    → put_value (length iu.values) v (with_value iu (some new_value)) ≡ with_value iu (some v)
unfolding put_value
put_value-with_value iu v = rw (set-append_self iu.values (some new_value) (some v)) refl

-- A type of 1 to 64 bits is given registers of 32 bits that hold its bits and its bytes in memory.
pub regframe_slots-fits :
    (fuel w : ℕ) (types : Types) (it : IrType)
    → type_bitwidth it ≡ ok w
    → 0 < w
    → w ≤ 64
    → (n : ℕ) × (s : ℕ) × (regframe_slots it ≡ ok n)
      × (type_sizeof_ptr fuel types it ≡ ok s)
      × (w ≤ 32 * n)
      × (s ≤ 4 * n)
unfolding type_bitwidth type_sizeof_ptr regframe_slots
regframe_slots-fits fuel w types (intx bits) e pos h =
    let small : bits ≤ 64 = ground arith in
    (
      if leb bits 32 then 1 else 2,
      if leb bits 32 then 4 else 8,
      ground arith,
      ground arith,
      ground arith,
      ground arith,
    )
regframe_slots-fits fuel w types int1 e pos h = (1, 1, refl, refl, ground arith, omega arith)
regframe_slots-fits fuel w types int8 e pos h = (1, 1, refl, refl, ground arith, omega arith)
regframe_slots-fits fuel w types int16 e pos h = (1, 2, refl, refl, ground arith, omega arith)
regframe_slots-fits fuel w types int32 e pos h = (1, 4, refl, refl, ground arith, omega arith)
regframe_slots-fits fuel w types int64 e pos h = (2, 8, refl, refl, ground arith, omega arith)
regframe_slots-fits fuel w types void e pos h = absurd (ground arith)
regframe_slots-fits fuel w types it e pos h = absurd (ground arith)
