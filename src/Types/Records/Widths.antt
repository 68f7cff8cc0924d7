-- ===== src/Types/Records/Widths.antt =====
-- src/vmir_type.c: what the records of a block of types do to the table.
use vmir.Common.{
  ℕ, ◌≤◌, ◌≡◌, refl, sym, ◌∙◌, ap, Bool, true, false, none, List, [], ◌∷◌, ◌++◌, ◌==◌,
  if◌then◌else◌, arith,
}
use vmir.Types.{
  IrType, Result, assertion, ok, err, ◌>>=◌, type_bitwidth, intx, int1, int8, int16, int32, int64,
  void, float, double, label, opaque, metadata, pointer, array,
}
use vmir.Types.Make.{TypeTable, push_type}
use vmir.Types.Records.{
  TypeRecord, numentry, void_type, float_type, double_type, label_type, opaque_type, integer,
  pointer_type, array_type, vector, metadata_type, struct_anon, struct_name, struct_named,
  function_type, unknown, type_record, to_int, arg, integer_type, struct_type, function_type_of,
  and_push, types_new_switch, types_new_rec_handler,
}

-- `iu'` has the types of `iu` and at most one more, at the end.
pub data Extends (iu iu' : TypeTable) : Type 0 where
  same : iu'.types ≡ iu.types → Extends iu iu'
  pushed : (it : IrType) → iu'.types ≡ iu.types ++ it ∷ [] → Extends iu iu'

ok-injective : {A : Type 0} {a b : A} → Path (Result A) (ok a) (ok b) → a ≡ b
ok-injective e = cc

-- What passes an `assert(!b)`.
asserted :
    (b : Bool) (r : Result TypeTable) (iu : TypeTable)
    → (if b then err assertion else r) ≡ ok iu
    → (b ≡ false) × (r ≡ ok iu)
asserted true r iu e = absurd (cc)
asserted false r iu e = (refl, e)

push-Extends :
    (iu iu0 iu' : TypeTable) (r : Result IrType)
    → iu0.types ≡ iu.types
    → and_push iu0 r ≡ ok iu'
    → Extends iu iu'
unfolding push_type
push-Extends iu iu0 iu' (ok it) h e =
    pushed it (ap (λ (t : TypeTable). t.types) (sym (ok-injective e)) ∙ ap (λ ts. ts ++ it ∷ []) h)
push-Extends iu iu0 iu' (err x) h e = absurd (cc)

-- The type that integer_type makes of a width up to 64.
abbrev width_type : ℕ → IrType
width_type w =
    if w == 1
    then int1
    else if w == 8
    then int8
    else if w == 16
    then int16
    else if w == 32
    then int32
    else if w == 64
    then int64
    else intx w

integer_type-ok : (w : ℕ) → w ≤ 64 → integer_type w ≡ ok (width_type w)
unfolding integer_type
integer_type-ok w h = ground arith

width_type-bitwidth : (w : ℕ) → w ≤ 64 → type_bitwidth (width_type w) ≡ ok w
unfolding type_bitwidth
width_type-bitwidth w h = ground arith

-- While no other types are made, a record for an integer of at most 64 bits appends one type, of
-- just that many bits.
pub types_new_rec_handler-bitwidth :
    (iu : TypeTable) (w : ℕ) (argv : List ℕ)
    → iu.types_created ≡ false
    → w ≤ 64
    → (it : IrType) × (iu' : TypeTable) × (types_new_rec_handler iu 7 (w ∷ argv) ≡ ok iu')
      × (iu'.types ≡ iu.types ++ it ∷ [])
      × (type_bitwidth it ≡ ok w)
unfolding types_new_rec_handler types_new_switch type_record arg push_type
types_new_rec_handler-bitwidth iu w argv hc h = (
  width_type w,
  push_type (width_type w) iu,
  rw (hc, integer_type-ok w h) refl,
  refl,
  width_type-bitwidth w h,
)

switch-Extends :
    (iu iu' : TypeTable) (op : TypeRecord) (argv : List ℕ)
    → types_new_switch iu op argv ≡ ok iu'
    → Extends iu iu'
unfolding types_new_switch
switch-Extends iu iu' numentry [] e = absurd (cc)
switch-Extends iu iu' numentry (n ∷ argv) e =
    same (ap (λ (t : TypeTable). t.types) (sym (ok-injective e)))
switch-Extends iu iu' struct_name argv e =
    same (ap (λ (t : TypeTable). t.types) (sym (ok-injective e)))
switch-Extends iu iu' void_type argv e = push-Extends iu iu iu' (ok void) refl e
switch-Extends iu iu' float_type argv e = push-Extends iu iu iu' (ok float) refl e
switch-Extends iu iu' double_type argv e = push-Extends iu iu iu' (ok double) refl e
switch-Extends iu iu' label_type argv e = push-Extends iu iu iu' (ok label) refl e
switch-Extends iu iu' opaque_type argv e = push-Extends iu iu iu' (ok opaque) refl e
switch-Extends iu iu' metadata_type argv e = push-Extends iu iu iu' (ok metadata) refl e
switch-Extends iu iu' integer argv e = push-Extends iu iu iu' (arg argv 0 >>= integer_type) refl e
switch-Extends iu iu' pointer_type argv e =
    push-Extends iu iu iu' (arg argv 0 >>= λ t. ok (pointer (to_int t))) refl e
switch-Extends iu iu' array_type argv e =
    push-Extends iu iu iu'
      (arg argv 0 >>= λ n. arg argv 1 >>= λ t. ok (array (to_int n) (to_int t))) refl e
switch-Extends iu iu' struct_anon argv e = push-Extends iu iu iu' (struct_type none argv) refl e
switch-Extends iu iu' struct_named argv e =
    push-Extends iu (record iu { current_struct_name = none }) iu'
      (struct_type iu.current_struct_name argv) refl e
switch-Extends iu iu' function_type argv e = push-Extends iu iu iu' (function_type_of argv) refl e
switch-Extends iu iu' vector argv e = absurd (cc)
switch-Extends iu iu' unknown argv e = absurd (cc)

-- A record of a block of types is accepted only before other types are made, and then leaves every
-- type in its place and adds at most one, at the end.
pub types_new_rec_handler-Extends :
    (iu iu' : TypeTable) (op : ℕ) (argv : List ℕ)
    → types_new_rec_handler iu op argv ≡ ok iu'
    → (iu.types_created ≡ false) × Extends iu iu'
unfolding types_new_rec_handler
types_new_rec_handler-Extends iu iu' op argv e =
    let (c, e1) = asserted iu.types_created (types_new_switch iu (type_record op) argv) iu' e in
    (c, switch-Extends iu iu' (type_record op) argv e1)
