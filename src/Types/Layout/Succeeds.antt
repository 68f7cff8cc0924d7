-- ===== src/Types/Layout/Succeeds.antt =====
-- src/vmir_type.c: types_finalize succeeds on a table in the order in which LLVM writes it.
use vmir.Common.{
  ℕ, zero, suc, ◌+◌, ◌*◌, ◌%◌, ◌^◌, ◌≤◌, ◌<◌, ◌≡◌, refl, sym, ◌∙◌, ap, subst, Bool, true, false,
  List, [], ◌∷◌, All, if◌then◌else◌, arith, inl, inr, some, get_elem?, get_elem?-lt,
  get_elem?_total, get_elem?-set_self, get_elem?-set_ne, set, length, length-set, Eq-cases, leb,
}
use vmir.Types.{
  StructType, IrType, struct, void, int1, int8, int16, int32, int64, intx, float, double, array,
  pointer, function, metadata, label, opaque, Types, Result, ok, ◌>>=◌, type_get, type_sizeof_ptr,
  type_alignment_ptr, type_fuel,
}
use vmir.Types.Layout.{
  vmir_align, vmir_max, needs_layout, Laid, layout_loop, finish, layout_entry, type_struct_layout,
  types_finalize_loop, types_finalize,
}
use vmir.Types.Layout.Finalize.{Grows, IsLaid, some-injective, types_finalize-Grows}

-- What a type holds in place.
abbrev pub parts : IrType → List ℕ
parts (struct s) = s.elements
parts (array n t) = t ∷ []
parts it = []

-- A type that has a size, once the structs in it have.
abbrev pub IsSized : IrType → Type 0
IsSized (intx bits) = bits ≤ 64
IsSized (function ps r v) = ⊥
IsSized metadata = ⊥
IsSized label = ⊥
IsSized opaque = ⊥
IsSized it = Unit {0}

-- The parts of a type stand before it, and have a size.
abbrev pub Parts : Types → (i : ℕ) → List ℕ → Type 0
Parts ts i es = All (λ e. (e < i) × ((it : IrType) × (get_elem? ts e ≡ some it) × IsSized it)) es

abbrev pub InOrder : Types → Type 0
InOrder ts = (i : ℕ) (it : IrType) → get_elem? ts i ≡ some it → Parts ts i (parts it)

type_get-some :
    (ts : Types) (i : ℕ) (it : IrType) → get_elem? ts i ≡ some it → type_get ts i ≡ ok it
unfolding type_get
type_get-some ts i it e = rw (type_get, e) refl

-- The structs among the entries below `b` are laid out.
abbrev AllLaid : Types → (b : ℕ) → Type 0
AllLaid ts b = (j : ℕ) → j < b → IsLaid ts j

module _ (ts : Types) (order : InOrder ts) (b : ℕ) (laid : AllLaid ts b) where
  needs_none : (i : ℕ) (it : IrType) → i < b → get_elem? ts i ≡ some it → needs_layout it ≡ false
  needs_none i it h at =
      let (u, at1, none_needed) = laid i h in
      subst (λ v. needs_layout v ≡ false) (some-injective (sym at1 ∙ at)) none_needed

  sizeof_ptr-total :
      (fuel i : ℕ) (it : IrType)
      → i < fuel
      → i < b
      → get_elem? ts i ≡ some it
      → IsSized it
      → (n : ℕ) × (type_sizeof_ptr fuel ts it ≡ ok n)
  unfolding type_sizeof_ptr needs_layout
  sizeof_ptr-total fuel i (struct s) h below at sized =
      (s.size, ground (arith, needs_none i (struct s) below at))
  sizeof_ptr-total (suc fuel) i (array k t) h below at sized =
      let ((lt, (it, at1, sized1)), _) = order i (array k t) at in
      let (m, size) =
        sizeof_ptr-total fuel t it (omega (arith, lt)) (omega (arith, lt)) at1 sized1 in
      (m * k % 2 ^ 32, rw (type_get-some ts t it at1, ◌>>=◌, size) refl)
  sizeof_ptr-total zero i (array k t) h below at sized = elim h [ ]
  sizeof_ptr-total fuel i (intx bits) h below at sized =
      (if leb bits 32 then 4 else 8, ground arith)
  sizeof_ptr-total fuel i void h below at sized = (_, refl)
  sizeof_ptr-total fuel i int1 h below at sized = (_, refl)
  sizeof_ptr-total fuel i int8 h below at sized = (_, refl)
  sizeof_ptr-total fuel i int16 h below at sized = (_, refl)
  sizeof_ptr-total fuel i int32 h below at sized = (_, refl)
  sizeof_ptr-total fuel i int64 h below at sized = (_, refl)
  sizeof_ptr-total fuel i float h below at sized = (_, refl)
  sizeof_ptr-total fuel i double h below at sized = (_, refl)
  sizeof_ptr-total fuel i (pointer t) h below at sized = (_, refl)
  sizeof_ptr-total fuel i it h below at sized = absurd sized

  alignment_ptr-total :
      (fuel i : ℕ) (it : IrType)
      → i < fuel
      → i < b
      → get_elem? ts i ≡ some it
      → IsSized it
      → (n : ℕ) × (type_alignment_ptr fuel ts it ≡ ok n)
  unfolding type_alignment_ptr needs_layout
  alignment_ptr-total fuel i (struct s) h below at sized =
      (s.alignment, ground (arith, needs_none i (struct s) below at))
  alignment_ptr-total (suc fuel) i (array k t) h below at sized =
      let ((lt, (it, at1, sized1)), _) = order i (array k t) at in
      let (m, size) =
        alignment_ptr-total fuel t it (omega (arith, lt)) (omega (arith, lt)) at1 sized1 in
      (m, rw (type_get-some ts t it at1, ◌>>=◌) size)
  alignment_ptr-total zero i (array k t) h below at sized = elim h [ ]
  alignment_ptr-total fuel i (intx bits) h below at sized =
      (if leb bits 32 then 4 else 8, ground arith)
  alignment_ptr-total fuel i void h below at sized = (_, refl)
  alignment_ptr-total fuel i int1 h below at sized = (_, refl)
  alignment_ptr-total fuel i int8 h below at sized = (_, refl)
  alignment_ptr-total fuel i int16 h below at sized = (_, refl)
  alignment_ptr-total fuel i int32 h below at sized = (_, refl)
  alignment_ptr-total fuel i int64 h below at sized = (_, refl)
  alignment_ptr-total fuel i float h below at sized = (_, refl)
  alignment_ptr-total fuel i double h below at sized = (_, refl)
  alignment_ptr-total fuel i (pointer t) h below at sized = (_, refl)
  alignment_ptr-total fuel i it h below at sized = absurd sized

  -- One element that is laid out, and the rest.
  layout_loop_step :
      (nest : ℕ → Types → Result Types) (packed : Bool) (offset ba e n a : ℕ) (es : List ℕ)
      (it : IrType) (l : Laid)
      → type_get ts e ≡ ok it
      → needs_layout it ≡ false
      → type_sizeof_ptr (type_fuel ts) ts it ≡ ok n
      → type_alignment_ptr (type_fuel ts) ts it ≡ ok a
      → let offset1 = if packed then offset else vmir_align offset a in
        layout_loop nest packed ts
            ((offset1 + n) % 2 ^ 32)
            (if packed then ba else vmir_max ba a)
            es
          ≡ ok l
        → layout_loop nest packed ts offset ba (e ∷ es)
          ≡ ok (record l { offsets = offset1 ∷ l.offsets })
  unfolding layout_loop
  layout_loop_step nest true offset ba e n a es it l got laid_out size align run =
      rw (got, ◌>>=◌, laid_out, got, size, run) refl
  layout_loop_step nest false offset ba e n a es it l got laid_out size align run =
      rw (got, ◌>>=◌, laid_out, got, size, align, run) refl

  layout_loop-total :
      (nest : ℕ → Types → Result Types) (packed : Bool) (offset ba : ℕ) (es : List ℕ)
      → b ≤ length ts
      → Parts ts b es
      → (l : Laid) × (layout_loop nest packed ts offset ba es ≡ ok l) × (l.types ≡ ts)
  unfolding layout_loop
  layout_loop-total nest packed offset ba [] h ps =
      (record { types = ts; offsets = []; offset = offset; ba = ba }, refl, refl)
  layout_loop-total nest packed offset ba (e ∷ es) h ((lt, (it, at, sized)), ps) =
      let (n, size) = sizeof_ptr-total (type_fuel ts) e it (omega (arith, lt)) lt at sized in
      let (a, align) = alignment_ptr-total (type_fuel ts) e it (omega (arith, lt)) lt at sized in
      let offset1 = if packed then offset else vmir_align offset a in
      let (l, run, same) =
        layout_loop-total nest packed ((offset1 + n) % 2 ^ 32)
          (if packed then ba else vmir_max ba a) es h ps in
      (
        record l { offsets = offset1 ∷ l.offsets },
        layout_loop_step nest packed offset ba e n a es it l (type_get-some ts e it at)
            (needs_none e it lt at) size align run,
        same,
      )

-- Laying out the entry at `i` succeeds where it is a struct, and only sets the entry.
entry-total :
    (fuel i : ℕ) (ts : Types) (it : IrType)
    → InOrder ts
    → AllLaid ts i
    → get_elem? ts i ≡ some it
    → needs_layout it ≡ true
    → (s s' : StructType) × (it ≡ struct s)
      × (s'.elements ≡ s.elements)
      × (s'.computed ≡ true)
      × (type_struct_layout (suc fuel) i ts ≡ ok (set ts i (struct s')))
unfolding type_struct_layout layout_entry finish needs_layout
entry-total fuel i ts (struct s) order laid at needs =
    let (l, run, same) =
      layout_loop-total ts order i laid (type_struct_layout fuel) s.packed 0 1 s.elements
        (omega (arith, get_elem?-lt ts i at)) (order i (struct s) at) in
    (
      s,
      finish s l,
      refl,
      refl,
      refl,
      rw (at, run, ◌>>=◌) (ap (λ (us : Types). ok (set us i (struct (finish s l)))) same),
    )
entry-total fuel i ts it order laid at needs = absurd (cc)

-- A struct is set to one with the same elements.
module _ (ts : Types) (i : ℕ) (s s' : StructType) (at : get_elem? ts i ≡ some (struct s)) where
  part-set :
      (e : ℕ)
      → (it : IrType) × (get_elem? ts e ≡ some it) × IsSized it
      → (it : IrType) × (get_elem? (set ts i (struct s')) e ≡ some it) × IsSized it
  part-set e (it, found, sized) = elim (Eq-cases i e) [
    | inl same ↦
        subst (λ k. (it : IrType) × (get_elem? (set ts i (struct s')) k ≡ some it) × IsSized it)
          same (struct s', get_elem?-set_self ts i (struct s') (get_elem?-lt ts i at), tt)
    | inr ne ↦ (it, get_elem?-set_ne ts (struct s') ne ∙ found, sized)
  ]

  Parts-set : (j : ℕ) (es : List ℕ) → Parts ts j es → Parts (set ts i (struct s')) j es
  Parts-set j [] ps = tt
  Parts-set j (e ∷ es) ((lt, part), ps) = ((lt, part-set e part), Parts-set j es ps)

  InOrder-set : InOrder ts → s'.elements ≡ s.elements → InOrder (set ts i (struct s'))
  InOrder-set order same j it found = elim (Eq-cases i j) [
    | inl e ↦
        let here : get_elem? (set ts i (struct s')) j ≡ some (struct s') =
          subst (λ k. get_elem? (set ts i (struct s')) k ≡ some (struct s')) e
            (get_elem?-set_self ts i (struct s') (get_elem?-lt ts i at)) in
        let elements : Parts (set ts i (struct s')) j s'.elements =
          subst (Parts (set ts i (struct s')) j) (sym same) (
            Parts-set j s.elements
              (order j (struct s) (subst (λ k. get_elem? ts k ≡ some (struct s)) e at))) in
        subst (λ t. Parts (set ts i (struct s')) j (parts t)) (some-injective (sym here ∙ found))
          elements
    | inr ne ↦
        Parts-set j (parts it) (order j it (sym (get_elem?-set_ne ts (struct s') ne) ∙ found))
  ]

  AllLaid-set : s'.computed ≡ true → AllLaid ts i → AllLaid (set ts i (struct s')) (suc i)
  unfolding needs_layout
  AllLaid-set computed laid j lt = elim (Eq-cases i j) [
    | inl e ↦
        subst (IsLaid (set ts i (struct s'))) e
          (struct s', get_elem?-set_self ts i (struct s') (get_elem?-lt ts i at), rw computed refl)
    | inr ne ↦
        let (it, found, h) = laid j (omega (arith, ne)) in
        (it, get_elem?-set_ne ts (struct s') ne ∙ found, h)
  ]

-- One round of the loop, on a table whose entries below `i` are laid out.
round-total :
    (i : ℕ) (ts : Types) (it : IrType) (b : Bool)
    → InOrder ts
    → AllLaid ts i
    → get_elem? ts i ≡ some it
    → needs_layout it ≡ b
    → (ts1 : Types) × ((if b then type_struct_layout (type_fuel ts) i ts else ok ts) ≡ ok ts1)
      × InOrder ts1
      × AllLaid ts1 (suc i)
      × (length ts1 ≡ length ts)
round-total i ts it false order laid at h = (
  ts,
  refl,
  order,
  λ j lt. elim (Eq-cases i j) [
    | inl e ↦ subst (IsLaid ts) e (it, at, h)
    | inr ne ↦ laid j (omega (arith, ne))
  ],
  refl,
)
round-total i ts it true order laid at h =
    let (s, s', is, elements, computed, run) = entry-total (length ts) i ts it order laid at h in
    let at_struct : get_elem? ts i ≡ some (struct s) = at ∙ ap some is in
    (
      set ts i (struct s'),
      run,
      InOrder-set ts i s s' at_struct order elements,
      AllLaid-set ts i s s' at_struct computed laid,
      length-set ts i (struct s'),
    )

loop-total :
    (n i : ℕ) (ts : Types)
    → i + n ≡ length ts
    → InOrder ts
    → AllLaid ts i
    → (ts' : Types) × (types_finalize_loop n i ts ≡ ok ts')
unfolding types_finalize_loop
loop-total zero i ts h order laid = (ts, refl)
loop-total (suc n) i ts h order laid =
    let (it, at) = get_elem?_total ts i (omega arith) in
    let (ts1, run, order1, laid1, same) =
      round-total i ts it (needs_layout it) order laid at refl in
    let (ts', rest) = loop-total n (suc i) ts1 (omega (arith, same)) order1 laid1 in
    (ts', rw (type_get-some ts i it at, ◌>>=◌, run) rest)

-- On a table in which what a struct or an array holds in place stands before it, and is a type with a
-- size, types_finalize succeeds; the table then has as many entries as before, none of them needs a
-- layout any more, and all that needed none are as they were.
pub types_finalize-total :
    (ts : Types)
    → InOrder ts
    → (ts' : Types) × (types_finalize ts ≡ ok ts')
      × Grows ts ts'
      × ((j : ℕ) (it : IrType) → get_elem? ts' j ≡ some it → needs_layout it ≡ false)
unfolding types_finalize
types_finalize-total ts order =
    let (ts', run) =
      loop-total (length ts) 0 ts (omega arith) order (λ j lt. absurd (omega arith)) in
    let (grows, none_left) = types_finalize-Grows ts ts' run in (ts', run, grows, none_left)
