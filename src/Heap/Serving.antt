-- ===== src/Heap/Serving.antt =====
-- vmir_heap_malloc: the first request, and those of a negative size.
use vmir.Common.{
  ℕ, ◌+◌, ◌-◌, ◌%◌, ◌^◌, ◌≤◌, ◌<◌, ◌≡◌, List, [], ◌∷◌, arith, none, some, Option-cases, inl, inr,
  sym, ◌∙◌, All, ap,
}
use vmir.Common.Words.{sub32}
use vmir.Heap.{
  Block, free, sizeof_heap_block, sizeof_heap, heap_init, block_size, take_block, malloc_loop,
  heap_malloc,
}
use vmir.Heap.Tiling.{Tiles, Tiles-le, used_at}
use vmir.Heap.Malloc.{
  IsBlockSize, block_size-IsBlockSize, Served, TooSmall, false_some, malloc_loop-Served,
  malloc_loop-none, heap_malloc-Served,
}

-- The end of the memory bounds the blocks.
used_at-le : (lo hi q n : ℕ) (bs : List Block) → Tiles lo hi bs → used_at q bs ≡ some n → n ≤ hi
unfolding used_at
used_at-le lo hi q n [] t e = absurd (false_some (sym e))
used_at-le lo hi q n (b ∷ bs) t e =
    ground
      (arith, used_at-le (lo + b.hb_size) hi q n bs (t.3), Tiles-le (lo + b.hb_size) hi bs (t.3))

-- From 2 ^ 32 - 7 on a request wraps round to a block of 32 bytes.
wrapped_size : (size : ℕ) → 2 ^ 32 - 7 ≤ size → size < 2 ^ 32 → block_size size ≡ 32
unfolding block_size
wrapped_size size h hs = omega arith

-- `malloc` of -7 to -1, which are 2 ^ 32 - 7 to 2 ^ 32 - 1 as the sizes that a program asks for, does
-- not fail on a heap that is tiled up to an end below 2 ^ 31 and has a free block of 32 bytes or more:
-- it returns a payload of a block with fewer bytes than were asked for, as a request for 8 does.
pub heap_malloc-undersized :
    (lo hi size : ℕ) (bs : List Block)
    → hi < 2 ^ 31
    → 2 ^ 32 - 7 ≤ size
    → size < 2 ^ 32
    → Tiles lo hi bs
    → ¬ All (TooSmall 32) bs
    → (out : ℕ × List Block) × (heap_malloc size bs ≡ some out)
      × (heap_malloc 8 bs ≡ some out)
      × ((n : ℕ) × (used_at out.0 out.1 ≡ some n) × (n < size))
unfolding heap_malloc block_size
heap_malloc-undersized lo hi size bs h low high t room = elim (Option-cases (malloc_loop 32 bs)) [
  | inl z ↦ absurd (room (malloc_loop-none 32 of_32 lo hi bs h t z))
  | inr (out, z) ↦
      let served = malloc_loop-Served 32 of_32 lo hi bs out h t z in
      (
        out,
        ap (λ n. malloc_loop n bs) (wrapped_size size low high) ∙ z,
        z,
        (
          served.size_used,
          served.used,
          omega (arith, used_at-le lo hi out.0 served.size_used out.1 served.tiles served.used),
        ),
      )
]
  where
    of_32 : IsBlockSize 32
    of_32 = record { aligned = omega arith; room = omega arith; small = omega arith }

-- In a memory of less than 2 ^ 31 bytes whose heap starts at a multiple of 16 with room for 40
-- bytes, the heap that vmir_heap_init leaves is tiled from behind its own header to the end of the
-- memory, has no payload in use, and serves a first `malloc` whose block fits there: the payload is
-- behind the first header and has room for the request.
pub heap_init-malloc :
    (memsize heap_start size : ℕ)
    → heap_start % 16 ≡ 0
    → heap_start + 40 ≤ memsize
    → memsize < 2 ^ 31
    → size + 39 < 2 ^ 31
    → heap_start + sizeof_heap + block_size size ≤ memsize
    → let bs = heap_init memsize heap_start in
      Tiles (heap_start + sizeof_heap) memsize bs
      × ((q : ℕ) → used_at q bs ≡ none)
      × ((bs' : List Block) × (heap_malloc size bs
            ≡ some (heap_start + sizeof_heap + sizeof_heap_block, bs'))
          × Served
              (block_size size)
              (heap_start + sizeof_heap)
              memsize
              (heap_start + sizeof_heap + sizeof_heap_block)
              bs
              bs')
unfolding heap_init heap_malloc used_at malloc_loop
heap_init-malloc memsize heap_start size aligned room small low whole =
    let (is, enough, le) = block_size-IsBlockSize size low in
    let bs = heap_init memsize heap_start in
    let tiles : Tiles (heap_start + sizeof_heap) memsize bs = omega arith in
    let p = heap_start + sizeof_heap + sizeof_heap_block in
    let hb : Block = record {
      addr = heap_start + sizeof_heap;
      hb_magic = free;
      hb_size = sub32 (sub32 memsize heap_start) sizeof_heap;
    } in
    let served : heap_malloc size bs ≡ some (p, take_block (block_size size) hb []) =
      ground (arith, is.small) in
    (
      tiles,
      λ q. ground arith,
      (
        take_block (block_size size) hb [],
        served,
        heap_malloc-Served (heap_start + sizeof_heap) memsize size bs _ small low tiles served,
      ),
    )
