-- ===== src/Heap/Malloc.antt =====
-- vmir_heap_malloc: a block that serves the request, carved from a free one.
use vmir.Common.{
  ℕ, ◌+◌, ◌*◌, ◌%◌, ◌^◌, ◌≤◌, ◌<◌, ◌≡◌, ◌≢◌, refl, List, [], ◌∷◌, Bool, true, false, ◌&&◌, arith,
  none, some, if◌then◌else◌, ltb, Bool-cases, Option-cases, inl, inr, ◌⊎◌, sym, ◌∙◌, All, ◌↔◌,
}
use vmir.Common.Words.{leb_s32, sub32}
use mathlib.Core.Option.{some-injective}
use vmir.Heap.{
  Block, free, is_free, sizeof_heap_block, block_size, take_block, malloc_loop, heap_malloc,
}
use vmir.Heap.Tiling.{Tiles, Tiles-le, used_at, used_at-below}

-- A size that malloc_loop is called with.
pub record IsBlockSize (size : ℕ) : Type 0 where
  pub aligned : size % 16 ≡ 0
  pub room : sizeof_heap_block ≤ size
  pub small : size < 2 ^ 31

-- A request that is not near the end of the ints gets the next multiple of 16 with room for the header.
pub block_size-IsBlockSize :
    (size : ℕ)
    → size + 39 < 2 ^ 31
    → IsBlockSize (block_size size)
      × (size + sizeof_heap_block ≤ block_size size)
      × (block_size size < size + 40)
unfolding block_size
block_size-IsBlockSize size h = (
  record { aligned = omega arith; room = omega arith; small = omega arith },
  omega arith,
  omega arith,
)

-- What a successful search has done to the queue.
pub record Served (size lo hi p : ℕ) (bs bs' : List Block) : Type 0 where
  pub tiles : Tiles lo hi bs'
  pub fresh : used_at p bs ≡ none
  pub size_used : ℕ
  pub used : used_at p bs' ≡ some size_used
  pub enough : size ≤ size_used
  pub same : (q : ℕ) → q ≢ p → used_at q bs' ≡ used_at q bs
  pub above : lo + sizeof_heap_block ≤ p

-- No free block of the size.
abbrev pub TooSmall : ℕ → Block → Type 0
TooSmall size b = is_free b.hb_magic ≡ true → b.hb_size < size

pub false_some {ℓ} : {A : Type ℓ} {a : A} → some a ≡ none → ⊥
false_some e = cc

pub some_inj {ℓ} : {A : Type ℓ} {a b : A} → some a ≡ some b → a ≡ b
some_inj {a = a} {b = b} e = some-injective a b e

module _ (size : ℕ) (is : IsBlockSize size) where
  take_block-Tiles :
      (lo hi : ℕ) (hb : Block) (rest : List Block)
      → hi < 2 ^ 31
      → size ≤ hb.hb_size
      → Tiles lo hi (hb ∷ rest)
      → Tiles lo hi (take_block size hb rest)
  unfolding take_block
  take_block-Tiles lo hi hb rest h le t =
      ground (arith, is.aligned, is.room, is.small, Tiles-le (lo + hb.hb_size) hi rest (t.3))

  -- On a taken block: its payload is used with the size asked for at least, and no other payload
  -- comes or goes.
  take_block-used_at :
      (lo hi : ℕ) (hb : Block) (rest : List Block) (q : ℕ)
      → hi < 2 ^ 31
      → hb.hb_magic ≡ free
      → size ≤ hb.hb_size
      → Tiles lo hi (hb ∷ rest)
      → q ≢ hb.addr + sizeof_heap_block
      → used_at q (take_block size hb rest) ≡ used_at q (hb ∷ rest)
  unfolding take_block used_at
  take_block-used_at lo hi hb rest q h fr le t ne = ground (
    arith,
    is.aligned,
    is.room,
    is.small,
    Tiles-le (lo + hb.hb_size) hi rest (t.3),
    used_at-below (lo + hb.hb_size) hi q rest (t.3),
  )

  -- The size of the block that is taken: all of it, or what was asked for.
  unfoldable pub taken_size : Block → ℕ
  taken_size hb = if ltb (sub32 hb.hb_size size) (sizeof_heap_block * 2) then hb.hb_size else size

  take_block-Served :
      (lo hi : ℕ) (hb : Block) (rest : List Block)
      → hi < 2 ^ 31
      → hb.hb_magic ≡ free
      → size ≤ hb.hb_size
      → Tiles lo hi (hb ∷ rest)
      → Served size lo hi (hb.addr + sizeof_heap_block) (hb ∷ rest) (take_block size hb rest)
  unfolding take_block used_at taken_size
  take_block-Served lo hi hb rest h fr le t = record {
    tiles = take_block-Tiles lo hi hb rest h le t;
    fresh = ground arith;
    size_used = taken_size hb;
    used = ground arith;
    enough = ground arith;
    same = λ q ne. take_block-used_at lo hi hb rest q h fr le t ne;
    above = omega (arith, t.0);
  }

  Served-cons :
      (lo hi p : ℕ) (hb : Block) (bs bs' : List Block)
      → Tiles lo hi (hb ∷ bs)
      → Served size (lo + hb.hb_size) hi p bs bs'
      → Served size lo hi p (hb ∷ bs) (hb ∷ bs')
  unfolding used_at
  Served-cons lo hi p hb bs bs' t s = record {
    tiles = (t.0, t.1, t.2, s.tiles);
    fresh = ground (arith, s.fresh, s.above, t.0, t.2);
    size_used = s.size_used;
    used = ground (arith, s.used, s.above, t.0, t.2);
    enough = s.enough;
    same = λ q ne. ground (arith, s.same q ne);
    above = omega (arith, s.above);
  }

  fits→le : (n : ℕ) → n < 2 ^ 31 → leb_s32 size n ≡ true → size ≤ n
  fits→le n h e = ground (arith, is.small)

  hb-small :
      (lo hi : ℕ) (hb : Block) (bs : List Block)
      → hi < 2 ^ 31
      → Tiles lo hi (hb ∷ bs)
      → hb.hb_size < 2 ^ 31
  hb-small lo hi hb bs h t = omega (arith, Tiles-le (lo + hb.hb_size) hi bs (t.3))

  abbrev fits : Block → Bool
  fits hb = is_free hb.hb_magic && leb_s32 size hb.hb_size

  -- The two ways in which a search succeeds.
  malloc_loop-some :
      (hb : Block) (bs : List Block) (out : ℕ × List Block)
      → malloc_loop size (hb ∷ bs) ≡ some out
      → (fits hb ≡ true) × (out ≡ (hb.addr + sizeof_heap_block, take_block size hb bs))
        ⊎ ((q : ℕ × List Block) × (malloc_loop size bs ≡ some q) × (out ≡ (q.0, hb ∷ q.1)))
  unfolding malloc_loop
  malloc_loop-some hb bs out e = elim (Bool-cases (fits hb)) [
    | inl y ↦ inl (y, some_inj (sym e ∙ rw y))
    | inr n ↦ elim (Option-cases (malloc_loop size bs)) [
      | inl z ↦ absurd (false_some (sym (rw (n, z) at e)))
      | inr (q, z) ↦ inr (q, z, some_inj (sym e ∙ rw (n, z)))
    ]
  ]

  pub malloc_loop-Served :
      (lo hi : ℕ) (bs : List Block) (out : ℕ × List Block)
      → hi < 2 ^ 31
      → Tiles lo hi bs
      → malloc_loop size bs ≡ some out
      → Served size lo hi out.0 bs out.1
  malloc_loop-Served lo hi [] out h t e = absurd (unfold malloc_loop in false_some (sym e))
  malloc_loop-Served lo hi (hb ∷ bs) out h t e = elim (malloc_loop-some hb bs out e) [
    | inl (y, z) ↦ rw z (
        take_block-Served lo hi hb bs h (ground arith)
          (fits→le hb.hb_size (hb-small lo hi hb bs h t) (ground arith)) t)
    | inr (q, z, w) ↦
        rw w (
          Served-cons lo hi q.0 hb bs q.1 t
            (malloc_loop-Served (lo + hb.hb_size) hi bs q h (t.3) z))
  ]

  too_small : (hb : Block) → hb.hb_size < 2 ^ 31 → fits hb ≡ false → TooSmall size hb
  too_small hb h e fr = ground (arith, is.small)

  no_fit : (hb : Block) → hb.hb_size < 2 ^ 31 → TooSmall size hb → fits hb ≡ false
  no_fit hb h small = ground (arith, is.small)

  pub malloc_loop-none :
      (lo hi : ℕ) (bs : List Block)
      → hi < 2 ^ 31
      → Tiles lo hi bs
      → malloc_loop size bs ≡ none
      → All (TooSmall size) bs
  unfolding malloc_loop
  malloc_loop-none lo hi [] h t e = tt
  malloc_loop-none lo hi (hb ∷ bs) h t e = elim (Bool-cases (fits hb)) [
    | inl y ↦ absurd (false_some (rw y at e))
    | inr n ↦ (
      too_small hb (hb-small lo hi hb bs h t) n,
      elim (Option-cases (malloc_loop size bs)) [
        | inl z ↦ malloc_loop-none (lo + hb.hb_size) hi bs h (t.3) z
        | inr (q, z) ↦ absurd (false_some (rw (n, z) at e))
      ],
    )
  ]

  none-malloc_loop :
      (lo hi : ℕ) (bs : List Block)
      → hi < 2 ^ 31
      → Tiles lo hi bs
      → All (TooSmall size) bs
      → malloc_loop size bs ≡ none
  unfolding malloc_loop
  none-malloc_loop lo hi [] h t a = refl
  none-malloc_loop lo hi (hb ∷ bs) h t a = rw (
    no_fit hb (hb-small lo hi hb bs h t) (a.0),
    none-malloc_loop (lo + hb.hb_size) hi bs h (t.3) (a.1),
  )

-- On a heap that is tiled up to an end below 2 ^ 31, where `malloc` of a size that is not within 39
-- of 2 ^ 31 succeeds, it returns a payload that was not in use, in a block with room for the
-- request; the heap stays tiled, and every other used block stays where it is, with its size.
pub heap_malloc-Served :
    (lo hi size : ℕ) (bs : List Block) (out : ℕ × List Block)
    → hi < 2 ^ 31
    → size + 39 < 2 ^ 31
    → Tiles lo hi bs
    → heap_malloc size bs ≡ some out
    → Served (block_size size) lo hi out.0 bs out.1
unfolding heap_malloc
heap_malloc-Served lo hi size bs out h hs t e =
    malloc_loop-Served (block_size size) (block_size-IsBlockSize size hs).0 lo hi bs out h t e

-- On a heap that is tiled up to an end below 2 ^ 31, `malloc` of a size that is not within 39 of 2
-- ^ 31 returns NULL exactly if no free block is as large as the request, its header and the
-- rounding to 16 bytes need.
pub heap_malloc-none :
    (lo hi size : ℕ) (bs : List Block)
    → hi < 2 ^ 31
    → size + 39 < 2 ^ 31
    → Tiles lo hi bs
    → (heap_malloc size bs ≡ none) ↔ All (TooSmall (block_size size)) bs
unfolding heap_malloc
heap_malloc-none lo hi size bs h hs t =
    let is = (block_size-IsBlockSize size hs).0 in
    (
      malloc_loop-none (block_size size) is lo hi bs h t,
      none-malloc_loop (block_size size) is lo hi bs h t,
    )
