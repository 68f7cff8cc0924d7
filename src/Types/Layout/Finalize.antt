-- ===== src/Types/Layout/Finalize.antt =====
-- src/vmir_type.c: types_finalize lays out every struct, those inside others first.
use vmir.Common.{
  ℕ, zero, suc, ◌+◌, ◌%◌, ◌^◌, ◌<◌, ◌≡◌, refl, sym, ◌∙◌, ap, subst, Bool, true, false, List, [],
  ◌∷◌, if◌then◌else◌, arith, inl, inr, Option, none, some, get_elem?, get_elem?-lt,
  get_elem?-set_self, get_elem?-set_ne, set, length, length-set, Eq-cases,
}
use vmir.Types.{
  IrType, struct, Types, Result, ok, err, parser_error, ◌>>=◌, type_get, type_sizeof_ptr,
  type_alignment_ptr, type_fuel,
}
use vmir.Types.Layout.{
  vmir_align, vmir_max, needs_layout, Laid, layout_loop, finish, layout_entry, type_struct_layout,
  types_finalize_loop, types_finalize,
}

-- The table keeps its length, and every entry that needs no layout.
pub record Grows (ts ts' : Types) : Type 0 where
  pub length : length ts' ≡ length ts
  pub kept :
      (i : ℕ) (it : IrType)
      → get_elem? ts i ≡ some it
      → needs_layout it ≡ false
      → get_elem? ts' i ≡ some it

Grows-refl : (ts : Types) → Grows ts ts
Grows-refl ts = record { length = refl; kept = λ i it at h. at }

Grows-trans : (a b c : Types) → Grows a b → Grows b c → Grows a c
Grows-trans a b c f g = record {
  length = g.length ∙ f.length;
  kept = λ i it at h. g.kept i it (f.kept i it at h) h;
}

-- What a chain that succeeds has passed.
pub bind-ok :
    {A B : Type 0} (r : Result A) (f : A → Result B) (b : B)
    → (r >>= f) ≡ ok b
    → (a : A) × (r ≡ ok a) × (f a ≡ ok b)
bind-ok (ok a) f b e = (a, refl, e)
bind-ok (err x) f b e = absurd (cc)

ok-injective : {A : Type 0} {a b : A} → Path (Result A) (ok a) (ok b) → a ≡ b
ok-injective e = cc

pub some-injective : {A : Type 0} {a b : A} → Path (Option A) (some a) (some b) → a ≡ b
some-injective e = cc

ok-found :
    (o : Option IrType) (it : IrType)
    → (let r : Result IrType = elim o [ none ↦ err parser_error | some u ↦ ok u ] in r) ≡ ok it
    → o ≡ some it
ok-found none it e = absurd (cc)
ok-found (some u) it e = ap some (ok-injective e)

pub type_get-found :
    (ts : Types) (i : ℕ) (it : IrType) → type_get ts i ≡ ok it → get_elem? ts i ≡ some it
unfolding type_get
type_get-found ts i it e = ok-found (get_elem? ts i) it e

-- The layout of an entry that needs one keeps the others and finishes this one.
abbrev Nested : (ℕ → Types → Result Types) → Type 0
Nested nest =
    (e : ℕ) (ts ts' : Types) (it : IrType)
    → get_elem? ts e ≡ some it
    → needs_layout it ≡ true
    → nest e ts ≡ ok ts'
    → Grows ts ts'

-- `if(it needs it) type_struct_layout(...)`
guarded-Grows :
    (nest : ℕ → Types → Result Types) (e : ℕ) (ts ts' : Types) (it : IrType) (b : Bool)
    → Nested nest
    → get_elem? ts e ≡ some it
    → needs_layout it ≡ b
    → (if b then nest e ts else ok ts) ≡ ok ts'
    → Grows ts ts'
guarded-Grows nest e ts ts' it true n at h r = n e ts ts' it at h r
guarded-Grows nest e ts ts' it false n at h r = subst (Grows ts) (ok-injective r) (Grows-refl ts)

layout_loop-Grows :
    (nest : ℕ → Types → Result Types) (packed : Bool) (ts : Types) (offset ba : ℕ) (es : List ℕ)
    (l : Laid)
    → Nested nest
    → layout_loop nest packed ts offset ba es ≡ ok l
    → Grows ts l.types
unfolding layout_loop
layout_loop-Grows nest packed ts offset ba [] l n r =
    subst (λ (k : Laid). Grows ts k.types) (ok-injective r) (Grows-refl ts)
layout_loop-Grows nest packed ts offset ba (e ∷ es) l n r =
    let (before, got, r1) = bind-ok (type_get ts e) _ l r in
    let (ts1, nested, r2) = bind-ok (if needs_layout before then nest e ts else ok ts) _ l r1 in
    let (ty, got1, r3) = bind-ok (type_get ts1 e) _ l r2 in
    let (s, size, r4) = bind-ok (type_sizeof_ptr (type_fuel ts1) ts1 ty) _ l r3 in
    let (a, alignment, r5) =
      bind-ok (if packed then ok 1 else type_alignment_ptr (type_fuel ts1) ts1 ty) _ l r4 in
    let o = ((if packed then offset else vmir_align offset a) + s) % 2 ^ 32 in
    let b = if packed then ba else vmir_max ba a in
    let (l1, rest, r6) = bind-ok (layout_loop nest packed ts1 o b es) _ l r5 in
    let first =
      guarded-Grows nest e ts ts1 before (needs_layout before) n (type_get-found ts e before got)
        refl nested in
    let others = layout_loop-Grows nest packed ts1 o b es l1 n rest in
    subst (λ (k : Laid). Grows ts k.types) (ok-injective r6)
      (Grows-trans ts ts1 l1.types first others)

-- What type_struct_layout does to the table: it grows, and the entry needs no layout any more.
pub record LaysOut (idx : ℕ) (ts ts' : Types) : Type 0 where
  pub grows : Grows ts ts'
  pub it : IrType
  pub found : get_elem? ts' idx ≡ some it
  pub laid_out : needs_layout it ≡ false

-- The entry at `idx` is set to what needs no layout, where it needed one.
set-LaysOut :
    (idx : ℕ) (ts ts1 : Types) (before it : IrType)
    → get_elem? ts idx ≡ some before
    → needs_layout before ≡ true
    → needs_layout it ≡ false
    → Grows ts ts1
    → LaysOut idx ts (set ts1 idx it)
set-LaysOut idx ts ts1 before it at needs laid g = record {
  grows = record {
    length = length-set ts1 idx it ∙ g.length;
    kept = λ i u at1 h.
        get_elem?-set_ne ts1 it (λ p. differ (before_is u i at1 p) h) ∙ g.kept i u at1 h;
  };
  it = it;
  found = get_elem?-set_self ts1 idx it (omega (arith, g.length, get_elem?-lt ts idx at));
  laid_out = laid;
}
  where
    before_is : (u : IrType) (i : ℕ) → get_elem? ts i ≡ some u → idx ≡ i → before ≡ u
    before_is u i at1 p = some-injective (sym at ∙ subst (λ j. get_elem? ts j ≡ some u) (sym p) at1)

    differ : {u : IrType} → before ≡ u → needs_layout u ≡ false → ⊥
    differ q h = absurd (cc)

entry-LaysOut :
    (fuel idx : ℕ) (ts ts' : Types) (it : IrType)
    → Nested (type_struct_layout fuel)
    → get_elem? ts idx ≡ some it
    → needs_layout it ≡ true
    → layout_entry (type_struct_layout fuel) idx ts (some it) ≡ ok ts'
    → LaysOut idx ts ts'
unfolding layout_entry finish needs_layout
entry-LaysOut fuel idx ts ts' (struct s) n at needs r =
    let (l, loop, r1) =
      bind-ok (layout_loop (type_struct_layout fuel) s.packed ts 0 1 s.elements) _ ts' r in
    subst (LaysOut idx ts) (ok-injective r1) (
      set-LaysOut idx ts l.types (struct s) (struct (finish s l)) at needs refl
        (layout_loop-Grows (type_struct_layout fuel) s.packed ts 0 1 s.elements l n loop))
entry-LaysOut fuel idx ts ts' it n at needs r = absurd (cc)

type_struct_layout-LaysOut :
    (fuel idx : ℕ) (ts ts' : Types) (it : IrType)
    → get_elem? ts idx ≡ some it
    → needs_layout it ≡ true
    → type_struct_layout fuel idx ts ≡ ok ts'
    → LaysOut idx ts ts'
unfolding type_struct_layout
type_struct_layout-LaysOut zero idx ts ts' it at needs r = absurd (cc)
type_struct_layout-LaysOut (suc fuel) idx ts ts' it at needs r =
    entry-LaysOut fuel idx ts ts' it
      (λ e us us' u at1 h r1. (type_struct_layout-LaysOut fuel e us us' u at1 h r1).grows) at needs
      (ap (layout_entry (type_struct_layout fuel) idx ts) (sym at) ∙ r)

-- The entry at `j` needs no layout.
abbrev pub IsLaid : Types → ℕ → Type 0
IsLaid ts j = (it : IrType) × (get_elem? ts j ≡ some it) × (needs_layout it ≡ false)

Grows-IsLaid : (ts ts' : Types) (j : ℕ) → Grows ts ts' → IsLaid ts j → IsLaid ts' j
Grows-IsLaid ts ts' j g (it, at, h) = (it, g.kept j it at h, h)

-- One round of the loop of types_finalize.
round-LaysOut :
    (fuel i : ℕ) (ts ts1 : Types) (it : IrType) (b : Bool)
    → get_elem? ts i ≡ some it
    → needs_layout it ≡ b
    → (if b then type_struct_layout fuel i ts else ok ts) ≡ ok ts1
    → LaysOut i ts ts1
round-LaysOut fuel i ts ts1 it true at h r = type_struct_layout-LaysOut fuel i ts ts1 it at h r
round-LaysOut fuel i ts ts1 it false at h r =
    subst (LaysOut i ts) (ok-injective r)
      (record { grows = Grows-refl ts; it = it; found = at; laid_out = h })

loop-LaysOut :
    (n i : ℕ) (ts ts' : Types)
    → i + n ≡ length ts
    → ((j : ℕ) → j < i → IsLaid ts j)
    → types_finalize_loop n i ts ≡ ok ts'
    → Grows ts ts' × ((j : ℕ) → j < length ts → IsLaid ts' j)
unfolding types_finalize_loop
loop-LaysOut zero i ts ts' h laid r =
    subst (λ (u : Types). Grows ts u × ((j : ℕ) → j < length ts → IsLaid u j)) (ok-injective r)
      (Grows-refl ts, λ j lt. laid j (omega arith))
loop-LaysOut (suc n) i ts ts' h laid r =
    let (it, got, r1) = bind-ok (type_get ts i) _ ts' r in
    let (ts1, nested, rest) =
      bind-ok (if needs_layout it then type_struct_layout (type_fuel ts) i ts else ok ts) _ ts'
        r1 in
    let out =
      round-LaysOut (type_fuel ts) i ts ts1 it (needs_layout it) (type_get-found ts i it got) refl
        nested in
    let (grows, all) =
      loop-LaysOut n (suc i) ts1 ts' (omega (arith, out.grows.length))
        (λ j lt. elim (Eq-cases j i) [
          | inl e ↦ subst (IsLaid ts1) (sym e) (out.it, out.found, out.laid_out)
          | inr ne ↦ Grows-IsLaid ts ts1 j out.grows (laid j (omega (arith, ne)))
        ])
        rest in
    (Grows-trans ts ts1 ts' out.grows grows, λ j lt. all j (omega (arith, out.grows.length)))

-- If types_finalize succeeds, the table has as many entries as before, none of them needs a layout
-- any more, and all that needed none are as they were.
pub types_finalize-Grows :
    (ts ts' : Types)
    → types_finalize ts ≡ ok ts'
    → Grows ts ts' × ((j : ℕ) (it : IrType) → get_elem? ts' j ≡ some it → needs_layout it ≡ false)
unfolding types_finalize
types_finalize-Grows ts ts' r =
    let (grows, all) =
      loop-LaysOut (length ts) 0 ts ts' (omega arith) (λ j lt. absurd (omega arith)) r in
    (
      grows,
      λ j it at.
          let (u, at1, h) = all j (omega (arith, grows.length, get_elem?-lt ts' j at)) in
          subst (λ v. needs_layout v ≡ false) (some-injective (sym at1 ∙ at)) h,
    )
