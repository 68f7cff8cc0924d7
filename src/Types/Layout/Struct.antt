-- ===== src/Types/Layout/Struct.antt =====
-- type_struct_layout on a struct whose elements are laid out already: total correctness.
use vmir.Common.{
  ℕ, suc, ◌+◌, ◌%◌, ◌^◌, ◌≤◌, ◌<◌, ◌≡◌, refl, ◌∙◌, ap, Bool, true, false, List, [], ◌∷◌,
  if◌then◌else◌, arith, All, some, get_elem?, set, ◌⊎◌, inl, inr, ltb, Bool-cases,
}
use native.Mathlib.Nat.{mod-eq_of_lt}
use vmir.Types.{
  StructType, IrType, struct, Types, Result, ok, ◌>>=◌, type_get, type_sizeof_ptr,
  type_alignment_ptr, type_fuel,
}
use vmir.Types.Layout.{
  vmir_align, vmir_max, needs_layout, Laid, layout_loop, finish, layout_entry, type_struct_layout,
}
use vmir.Types.Layout.Place.{
  IsAlignment, one, IsAlignment-le, vmir_align-IsNext, vmir_max-IsAlignment, Shapes, Fits, Placed,
  Placed-le, room,
}

-- The element `e` has a type that needs no layout, with this size and alignment.
pub record HasShape (types : Types) (e s a : ℕ) : Type 0 where
  pub ty : IrType
  pub got : type_get types e ≡ ok ty
  pub laid_out : needs_layout ty ≡ false
  pub sizeof : type_sizeof_ptr (type_fuel types) types ty ≡ ok s
  pub alignment : type_alignment_ptr (type_fuel types) types ty ≡ ok a
  pub is_alignment : IsAlignment a

-- So has every element.
abbrev pub HaveShapes : Types → List ℕ → Shapes → Type 0
HaveShapes types [] [] = Unit {0}
HaveShapes types [] (sa ∷ shapes) = ⊥
HaveShapes types (e ∷ es) [] = ⊥
HaveShapes types (e ∷ es) ((s, a) ∷ shapes) = HasShape types e s a × HaveShapes types es shapes

-- The biggest alignment bounds that of every element, and of what came before.
abbrev pub Bounds : ℕ → Shapes → Type 0
Bounds ba shapes = All (λ (s, a). a ≤ ba) shapes

-- An element has this alignment.
abbrev pub Attains : ℕ → Shapes → Type 0
Attains ba [] = ⊥
Attains ba ((s, a) ∷ shapes) = (ba ≡ a) ⊎ Attains ba shapes

-- The biggest alignment is the one before the loop, or that of an element; of a packed struct the first.
abbrev pub Biggest : (packed : Bool) → (before ba : ℕ) → Shapes → Type 0
Biggest packed before ba shapes = (ba ≡ before) ⊎ ((packed ≡ false) × Attains ba shapes)

-- A loop that gave the offsets.
pub record LaidOut (packed : Bool) (types : Types) (shapes : Shapes) (lo ba : ℕ) (l : Laid)
    : Type 0 where
  pub same : l.types ≡ types
  pub placed : Placed packed shapes l.offsets lo l.offset
  pub is_alignment : IsAlignment l.ba
  pub grown : ba ≤ l.ba
  pub bounds : packed ≡ false → Bounds l.ba shapes
  pub biggest : Biggest packed ba l.ba shapes

-- The offset and the alignment after one element.
abbrev offset_of : Bool → ℕ → ℕ → ℕ
offset_of packed offset a = if packed then offset else vmir_align offset a

abbrev ba_of : Bool → ℕ → ℕ → ℕ
ba_of packed ba a = if packed then ba else vmir_max ba a

module _ (nest : ℕ → Types → Result Types) (types : Types) where
  layout_loop_step :
      (packed : Bool) (offset ba e s a : ℕ) (es : List ℕ) (l : Laid)
      → HasShape types e s a
      → layout_loop nest packed types
          ((offset_of packed offset a + s) % 2 ^ 32)
          (ba_of packed ba a)
          es
        ≡ ok l
      → layout_loop nest packed types offset ba (e ∷ es)
        ≡ ok (record l { offsets = offset_of packed offset a ∷ l.offsets })
  unfolding layout_loop
  layout_loop_step true offset ba e s a es l h r =
      rw (h.got, ◌>>=◌, h.laid_out, h.got, h.sizeof, r) refl
  layout_loop_step false offset ba e s a es l h r =
      rw (h.got, ◌>>=◌, h.laid_out, h.got, h.sizeof, h.alignment, r) refl

  offset_of-Fits :
      (packed : Bool) (offset a : ℕ)
      → IsAlignment a
      → offset + 8 < 2 ^ 31
      → Fits packed a offset (offset_of packed offset a)
  offset_of-Fits true offset a ha h = refl
  offset_of-Fits false offset a ha h = vmir_align-IsNext offset a ha h

  Fits-le : (packed : Bool) (a lo o : ℕ) → IsAlignment a → Fits packed a lo o → o ≤ lo + 8
  Fits-le true a lo o ha f = omega arith
  Fits-le false a lo o ha f = omega (arith, IsAlignment-le a ha)

  ba_of-IsAlignment :
      (packed : Bool) (ba a : ℕ) → IsAlignment ba → IsAlignment a → IsAlignment (ba_of packed ba a)
  ba_of-IsAlignment true ba a hb ha = hb
  ba_of-IsAlignment false ba a hb ha = vmir_max-IsAlignment ba a hb ha

  ba_of-le : (packed : Bool) (ba a : ℕ) → ba ≤ ba_of packed ba a
  unfolding vmir_max
  ba_of-le true ba a = omega arith
  ba_of-le false ba a = ground arith

  -- What is attained behind an element is attained with it, by what came before or by the element.
  Biggest-cons :
      (packed : Bool) (ba s a r : ℕ) (shapes : Shapes)
      → Biggest packed (ba_of packed ba a) r shapes
      → Biggest packed ba r ((s, a) ∷ shapes)
  unfolding vmir_max
  Biggest-cons packed ba s a r shapes (inr (p, h)) = inr (p, inr h)
  Biggest-cons true ba s a r shapes (inl e) = inl e
  Biggest-cons false ba s a r shapes (inl e) = elim (Bool-cases (ltb a ba)) [
    | inl y ↦ inl (ground arith)
    | inr n ↦ inr (refl, inl (ground arith))
  ]

  le-ba_of : (packed : Bool) (ba a : ℕ) → packed ≡ false → a ≤ ba_of packed ba a
  unfolding vmir_max
  le-ba_of true ba a p = absurd (cc)
  le-ba_of false ba a p = ground arith

  layout_loop-LaidOut :
      (packed : Bool) (offset ba : ℕ) (es : List ℕ) (shapes : Shapes)
      → HaveShapes types es shapes
      → IsAlignment ba
      → offset + room shapes < 2 ^ 31
      → (l : Laid) × (layout_loop nest packed types offset ba es ≡ ok l)
        × LaidOut packed types shapes offset ba l
  unfolding layout_loop room
  layout_loop-LaidOut packed offset ba [] [] hs hb h = (
    record { types = types; offsets = []; offset = offset; ba = ba },
    refl,
    record {
      same = refl;
      placed = refl;
      is_alignment = hb;
      grown = omega arith;
      bounds = λ p. tt;
      biggest = inl refl;
    },
  )
  layout_loop-LaidOut packed offset ba [] (sa ∷ shapes) hs hb h = absurd hs
  layout_loop-LaidOut packed offset ba (e ∷ es) [] hs hb h = absurd hs
  layout_loop-LaidOut packed offset ba (e ∷ es) ((s, a) ∷ shapes) hs hb h =
      let o = offset_of packed offset a in
      let ha = (hs.0).is_alignment in
      let fits = offset_of-Fits packed offset a ha (omega arith) in
      let small : (o + s) % 2 ^ 32 ≡ o + s =
        mod-eq_of_lt (omega (arith, Fits-le packed a offset o ha fits)) in
      let (l, run, out) =
        layout_loop-LaidOut packed (o + s) (ba_of packed ba a) es shapes (hs.1)
          (ba_of-IsAlignment packed ba a hb ha)
          (omega (arith, Fits-le packed a offset o ha fits)) in
      (
        record l { offsets = o ∷ l.offsets },
        layout_loop_step packed offset ba e s a es l (hs.0)
            (ap (λ (t : ℕ). layout_loop nest packed types t (ba_of packed ba a) es) small ∙ run),
        record {
          same = out.same;
          placed = (fits, out.placed);
          is_alignment = out.is_alignment;
          grown = omega (arith, out.grown, ba_of-le packed ba a);
          bounds = λ p. (omega (arith, out.grown, le-ba_of packed ba a p), out.bounds p);
          biggest = Biggest-cons packed ba s a l.ba shapes out.biggest;
        },
      )

-- What type_struct_layout promises of the new entry `s'` for the struct `s`: the elements lie one after
-- the other, each at the first multiple of its alignment behind the last, or right behind it if the
-- struct is packed; the size reaches past them and, unless packed, is the next multiple of the
-- alignment, which is the biggest of the elements' and 1, and 1 if it is packed.
pub record IsLayout (s : StructType) (shapes : Shapes) (s' : StructType) : Type 0 where
  pub end : ℕ
  pub computed : s'.computed ≡ true
  pub elements : s'.elements ≡ s.elements
  pub packed : s'.packed ≡ s.packed
  pub placed : Placed s.packed shapes s'.offsets 0 end
  pub size : Fits s.packed s'.alignment end s'.size
  pub is_alignment : IsAlignment s'.alignment
  pub bounds : s.packed ≡ false → Bounds s'.alignment shapes
  pub biggest : Biggest s.packed 1 s'.alignment shapes

HaveShapes-All :
    (types : Types) (es : List ℕ) (shapes : Shapes)
    → HaveShapes types es shapes
    → All (λ (s, a). IsAlignment a) shapes
HaveShapes-All types [] [] hs = tt
HaveShapes-All types [] (sa ∷ shapes) hs = absurd hs
HaveShapes-All types (e ∷ es) [] hs = absurd hs
HaveShapes-All types (e ∷ es) ((s, a) ∷ shapes) hs =
    ((hs.0).is_alignment, HaveShapes-All types es shapes (hs.1))

finish-IsLayout :
    (types : Types) (s : StructType) (shapes : Shapes) (l : Laid)
    → HaveShapes types s.elements shapes
    → 8 + room shapes < 2 ^ 31
    → LaidOut s.packed types shapes 0 1 l
    → IsLayout s shapes (finish s l)
unfolding finish
finish-IsLayout types s shapes l hs h out =
    let (lo, hi) =
      Placed-le s.packed shapes l.offsets 0 l.offset (HaveShapes-All types s.elements shapes hs)
        out.placed in
    record {
      end = l.offset;
      computed = refl;
      elements = refl;
      packed = refl;
      placed = out.placed;
      size =
          offset_of-Fits (λ e ts. ok ts) types s.packed l.offset l.ba out.is_alignment
            (omega arith);
      is_alignment = out.is_alignment;
      bounds = out.bounds;
      biggest = out.biggest;
    }

-- On a struct whose elements need no layout themselves and each have a size and an alignment of 1,
-- 2, 4 or 8, and whose size stays below 2 ^ 31 whatever the padding, type_struct_layout with any fuel
-- but 0 succeeds; it changes this one entry of the table, and that to a layout of the elements: each
-- lies at the first multiple of its alignment behind the last, or right behind it if the struct is
-- packed; the size is where they end, rounded up to the alignment unless packed; the alignment is the
-- biggest of the elements', and 1 of none or if packed.
pub type_struct_layout-IsLayout :
    (fuel idx : ℕ) (types : Types) (s : StructType) (shapes : Shapes)
    → get_elem? types idx ≡ some (struct s)
    → HaveShapes types s.elements shapes
    → 8 + room shapes < 2 ^ 31
    → (s' : StructType) × (type_struct_layout (suc fuel) idx types ≡ ok (set types idx (struct s')))
      × IsLayout s shapes s'
unfolding type_struct_layout layout_entry
type_struct_layout-IsLayout fuel idx types s shapes at hs h =
    let (l, run, out) =
      layout_loop-LaidOut (type_struct_layout fuel) types s.packed 0 1 s.elements shapes hs
        (one refl) (omega arith) in
    (
      finish s l,
      rw (at, run, ◌>>=◌) (ap (λ (ts : Types). ok (set ts idx (struct (finish s l)))) out.same),
      finish-IsLayout types s shapes l hs h out,
    )
