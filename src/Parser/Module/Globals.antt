-- ===== src/Parser/Module/Globals.antt =====
-- src/vmir_bitcode_parser.c: where a global variable comes to lie, and what a function's record adds.
use vmir.Common.{
  ℕ, zero, suc, ◌+◌, ◌%◌, ◌^◌, ◌<◌, ◌≡◌, refl, ◌∙◌, ap, Bool, false, none, some, [], ◌∷◌, ◌++◌,
  ◌==◌, if◌then◌else◌, get_elem?, get_elem?-append_self, get_elem?-append_lt, length, arith,
}
use native.Mathlib.Nat.{mod-eq_of_lt}
use vmir.Types.{ok, ◌>>=◌, type_sizeof}
use vmir.Types.Layout.{vmir_align}
use vmir.Types.Layout.Place.{IsAlignment, IsAlignment-le, IsNext, vmir_align-IsNext}
use vmir.Parser.{function_value, globalvar, Value, Function, IrUnit}
use vmir.Parser.Values.{with_value, value_append_lem, put_value-with_value}
use vmir.Parser.Module.{push_initializer, place_globalvar, push_function}

-- The unit `iu'` has the value `v` behind those of `iu`, which are all still there.
pub record Appended (iu : IrUnit) (v : Value) (iu' : IrUnit) : Type 0 where
  pub found : get_elem? iu'.values (length iu.values) ≡ some (some v)
  pub kept : (i : ℕ) → i < length iu.values → get_elem? iu'.values i ≡ get_elem? iu.values i
  pub next : iu'.next_value ≡ suc iu.next_value

-- A global variable of `size` bytes in the data: at the first multiple of its alignment from the end
-- of the data on, which then is right behind it.
pub record PlacedAt (iu : IrUnit) (type pointee alignment size : ℕ) (iu' : IrUnit) : Type 0 where
  pub addr : ℕ
  pub aligned : IsNext iu.data_ptr alignment addr
  pub end : iu'.data_ptr ≡ addr + size
  pub value :
      Appended iu
        (record {
          class = globalvar (record { type = pointee; name = none; addr = addr; size = size });
          type = type;
        })
        iu'

Appended-with_value : (iu : IrUnit) (v : Value) → Appended iu v (with_value iu (some v))
Appended-with_value iu v = record {
  found = get_elem?-append_self iu.values (some v);
  kept = λ i h. get_elem?-append_lt iu.values (some v ∷ []) i h;
  next = refl;
}

Appended-push_initializer :
    (init id d : ℕ) (iu : IrUnit) (v : Value) (iu' : IrUnit)
    → Appended iu v iu'
    → Appended iu v (push_initializer init id (record iu' { data_ptr = d }))
      × ((push_initializer init id (record iu' { data_ptr = d })).data_ptr ≡ d)
unfolding push_initializer
Appended-push_initializer zero id d iu v iu' a =
    (record { found = a.found; kept = a.kept; next = a.next }, refl)
Appended-push_initializer (suc n) id d iu v iu' a =
    (record { found = a.found; kept = a.kept; next = a.next }, refl)

-- With values up to the end of the list and data that ends below 2 ^ 31, a global variable of a
-- known size whose alignment is 1, 2, 4 or 8 is placed at the first multiple of its alignment from
-- the end of the data on, the data then ends behind it, and its value is appended to the others.
pub place_globalvar-PlacedAt :
    (iu : IrUnit) (type pointee alignment init size : ℕ)
    → iu.next_value ≡ length iu.values
    → IsAlignment alignment
    → type_sizeof (iu.table).types pointee ≡ ok size
    → iu.data_ptr + size + 8 < 2 ^ 31
    → (iu' : IrUnit) × (place_globalvar iu type pointee alignment init ≡ ok iu')
      × PlacedAt iu type pointee alignment size iu'
unfolding place_globalvar
place_globalvar-PlacedAt iu type pointee alignment init size h ha hs room = (
  placed,
  rw (value_append_lem iu h, ◌>>=◌, positive, hs)
      (ap (λ (u : IrUnit). ok (after u ((addr + size) % 2 ^ 32))) (put_value-with_value iu v)
        ∙ ap (λ (d : ℕ). ok (after (with_value iu (some v)) d)) wrap),
  record { addr = addr; aligned = next; end = both.1; value = both.0 },
)
  where
    addr : ℕ
    addr = vmir_align iu.data_ptr alignment

    next : IsNext iu.data_ptr alignment addr
    next = vmir_align-IsNext iu.data_ptr alignment ha (omega arith)

    positive : (alignment == 0) ≡ false
    positive = ground (arith, IsAlignment-le alignment ha)

    wrap : (addr + size) % 2 ^ 32 ≡ addr + size
    wrap = mod-eq_of_lt (omega (arith, next.1, IsAlignment-le alignment ha))

    v : Value
    v = record {
      class = globalvar (record { type = pointee; name = none; addr = addr; size = size });
      type = type;
    }

    after : IrUnit → ℕ → IrUnit
    after u d = push_initializer init (length iu.values) (record u { data_ptr = d })

    placed : IrUnit
    placed = after (with_value iu (some v)) (addr + size)

    both : Appended iu v placed × (placed.data_ptr ≡ addr + size)
    both =
        Appended-push_initializer init (length iu.values) (addr + size) iu v
          (with_value iu (some v)) (Appended-with_value iu v)

-- A function's record gives it the next place in the list of functions, appends a value that refers to
-- that place, and queues it for a body exactly if it is no prototype.
pub record Declared (iu : IrUnit) (type : ℕ) (isproto : Bool) (iu' : IrUnit) : Type 0 where
  pub function :
      get_elem? iu'.functions (length iu.functions)
      ≡ some (record { isproto = isproto; type = type; gfid = length iu.functions })
  pub value : Appended iu (record { class = function_value (length iu.functions); type = type }) iu'
  pub bodies : iu'.functions_with_bodies ≡ (
      if isproto
      then iu.functions_with_bodies
      else iu.functions_with_bodies ++ length iu.functions ∷ [])

-- With values up to the end of the list, a function gets the next place in the list of functions, a
-- value that refers to that place is appended to the others, and the function is queued for a body
-- exactly if it is no prototype.
pub push_function-Declared :
    (iu : IrUnit) (type : ℕ) (isproto : Bool)
    → iu.next_value ≡ length iu.values
    → (iu' : IrUnit) × (push_function type isproto iu ≡ ok iu') × Declared iu type isproto iu'
unfolding push_function
push_function-Declared iu type isproto h = (
  with_value iu1 (some v),
  rw (value_append_lem iu1 h, ◌>>=◌, put_value-with_value iu1 v) refl,
  record {
    function = get_elem?-append_self iu.functions _;
    value =
        let a = Appended-with_value iu1 v in
        record { found = a.found; kept = a.kept; next = a.next };
    bodies = refl;
  },
)
  where
    f : Function
    f = record { isproto = isproto; type = type; gfid = length iu.functions }

    iu1 : IrUnit
    iu1 = record iu {
      functions = iu.functions ++ f ∷ [];
      functions_with_bodies =
          if isproto
          then iu.functions_with_bodies
          else iu.functions_with_bodies ++ length iu.functions ∷ [];
    }

    v : Value
    v = record { class = function_value (length iu.functions); type = type }
