-- ===== src/Heap/Reclaim.antt =====
-- How much of a freed block vmir_heap_free makes available again.
use vmir.Common.{
  ℕ, ◌+◌, ◌^◌, ◌≤◌, ◌<◌, ◌≡◌, refl, List, [], ◌∷◌, Bool, true, false, not, arith, some,
  if◌then◌else◌, ◌==◌, Bool-cases, inl, inr, sym, ◌∙◌,
}
use vmir.Heap.{Block, alloc, is_free, at_payload, done, free_behind, heap_free, sizeof_heap_block}
use vmir.Heap.Tiling.{Tiles, used_at, used_at-below, free_bytes}
use vmir.Heap.Merge.{freed_first, freed_into, free_bytes-behind, release-first, merge_prev-into}
use vmir.Heap.Free.{used_at-head, used_at-tail}

-- The block just before the one with payload `p` is in use.
unfoldable pub prev_used : ℕ → List Block → Bool
prev_used p [] = false
prev_used p (prev ∷ []) = false
prev_used p (prev ∷ hb ∷ bs) =
    let later = prev_used p (hb ∷ bs) in
    if at_payload p hb then not (is_free prev.hb_magic) else later

-- The bytes that the freeing of a block of `n` bytes should add, unless `lost`.
abbrev pub Reclaims : Bool → ℕ → List Block → List Block → Type 0
Reclaims true n bs bs' = free_bytes bs' ≤ free_bytes bs
Reclaims false n bs bs' = free_bytes bs' ≡ free_bytes bs + n

free_bytes-freed_first :
    (hb : Block) (bs : List Block)
    → hb.hb_magic ≡ alloc
    → free_bytes (freed_first hb bs) ≡ free_bytes (hb ∷ bs) + hb.hb_size
unfolding free_bytes
free_bytes-freed_first hb bs used = ground (arith, free_bytes-behind bs)

Reclaims-freed_into :
    (prev hb : Block) (bs : List Block)
    → hb.hb_magic ≡ alloc
    → Reclaims (not (is_free prev.hb_magic)) hb.hb_size (prev ∷ hb ∷ bs) (freed_into prev hb bs)
unfolding free_bytes
Reclaims-freed_into prev hb bs used = elim (Bool-cases (is_free prev.hb_magic)) [
  | inl e ↦ rw e (ground (arith, free_bytes-behind bs))
  | inr e ↦ rw e (ground (arith, free_bytes-behind bs))
]

Reclaims-cons :
    (lost : Bool) (n : ℕ) (b : Block) (bs bs' : List Block)
    → Reclaims lost n bs bs'
    → Reclaims lost n (b ∷ bs) (b ∷ bs')
unfolding free_bytes
Reclaims-cons true n b bs bs' r = omega arith
Reclaims-cons false n b bs bs' r = omega arith

free_behind-Reclaims :
    (lo hi p : ℕ) (prev : Block) (bs : List Block) {n : ℕ}
    → hi < 2 ^ 31
    → Tiles lo hi (prev ∷ bs)
    → used_at p bs ≡ some n
    → (bs' : List Block) × (free_behind p prev bs ≡ done bs')
      × Reclaims (prev_used p (prev ∷ bs)) n (prev ∷ bs) bs'
unfolding free_behind prev_used
free_behind-Reclaims lo hi p prev [] h t u = absurd (unfold used_at in cc)
free_behind-Reclaims lo hi p prev (hb ∷ bs) h t u = elim (Bool-cases (at_payload p hb)) [
  | inl at ↦
      let (used, size) = used_at-head p hb bs at u in
      (
        freed_into prev hb bs,
        rw (at, release-first (lo + prev.hb_size) hi hb bs h (t.3) used)
            (merge_prev-into lo hi prev hb bs h t used),
        rw (at, sym size) (Reclaims-freed_into prev hb bs used),
      )
  | inr away ↦
      let (bs', e, r) =
        free_behind-Reclaims (lo + prev.hb_size) hi p hb bs h (t.3)
          (sym (used_at-tail p hb bs away) ∙ u) in
      (
        prev ∷ bs',
        rw (away, e),
        rw away (Reclaims-cons (prev_used p (hb ∷ bs)) _ prev (hb ∷ bs) bs' r),
      )
]

-- The first block has none before it, and no other block has its address.
prev_used-above :
    (lo hi p : ℕ) (prev : Block) (bs : List Block)
    → Tiles lo hi (prev ∷ bs)
    → p < lo + prev.hb_size + sizeof_heap_block
    → prev_used p (prev ∷ bs) ≡ false
unfolding prev_used
prev_used-above lo hi p prev [] t h = refl
prev_used-above lo hi p prev (hb ∷ bs) t h =
    ground (arith, prev_used-above (lo + prev.hb_size) hi p hb bs (t.3))

prev_used-first :
    (lo hi p : ℕ) (hb : Block) (bs : List Block)
    → Tiles lo hi (hb ∷ bs)
    → at_payload p hb ≡ true
    → prev_used p (hb ∷ bs) ≡ false
prev_used-first lo hi p hb bs t at = prev_used-above lo hi p hb bs t (ground arith)

-- On a heap that is tiled up to an end below 2 ^ 31, freeing a used payload succeeds and makes its
-- whole block available, if that block is the first or has a free one before it; if the block
-- before it is in use, nothing becomes available.
pub heap_free-Reclaims :
    (lo hi p : ℕ) (bs : List Block) {n : ℕ}
    → hi < 2 ^ 31
    → Tiles lo hi bs
    → used_at p bs ≡ some n
    → (bs' : List Block) × (heap_free p bs ≡ done bs') × Reclaims (prev_used p bs) n bs bs'
unfolding heap_free
heap_free-Reclaims lo hi p [] h t u = absurd (unfold used_at in cc)
heap_free-Reclaims lo hi p (hb ∷ bs) {n = n} h t u =
    let given : (p == 0) ≡ false = ground (arith, used_at-below lo hi p (hb ∷ bs) t) in
    elim (Bool-cases (at_payload p hb)) [
      | inl at ↦
          let (used, size) = used_at-head p hb bs at u in
          let first = prev_used-first lo hi p hb bs t at in
          (
            freed_first hb bs,
            rw (given, at) (release-first lo hi hb bs h t used),
            rw (first, sym size) (free_bytes-freed_first hb bs used),
          )
      | inr away ↦
          let (bs', e, r) =
            free_behind-Reclaims lo hi p hb bs h t (sym (used_at-tail p hb bs away) ∙ u) in
          (bs', rw (given, away) e, r)
    ]
