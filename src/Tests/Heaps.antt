-- ===== src/Tests/Heaps.antt =====
-- The allocator on small heaps.
use vmir.Common.{ℕ, ◌+◌, ◌≡◌, ◌<◌, ◌↔◌, refl, List, [], ◌∷◌, none, some, arith, All}
use vmir.Heap.{
  Block, free, alloc, sizeof_heap, heap_init, block_size, heap_malloc, heap_free, heap_usable_size,
  done, assert_failed,
}
use vmir.Heap.Tiling.{Tiles, free_bytes, used_bytes, free_bytes-add-used_bytes, used_at}
use vmir.Heap.Malloc.{Served, TooSmall, heap_malloc-Served, heap_malloc-none}
use vmir.Heap.Serving.{heap_malloc-undersized, heap_init-malloc}
use vmir.Heap.Free.{Freed, heap_free-Freed}
use vmir.Heap.Reclaim.{Reclaims, prev_used, heap_free-Reclaims}
use vmir.Heap.Libc.{Memory, heap_realloc}
use vmir.Heap.Libc.Realloc.{Realloced, heap_realloc-Realloced}

abbrev block : (addr size : ℕ) → Block
block addr size = record { addr = addr; hb_magic = alloc; hb_size = size }

abbrev gap : (addr size : ℕ) → Block
gap addr size = record { addr = addr; hb_magic = free; hb_size = size }

-- Two used blocks and the free rest of a memory of 64 KiB.
abbrev two_used : List Block
two_used = block 4112 48 ∷ block 4160 64 ∷ gap 4224 61312 ∷ []

abbrev two_used-Tiles : Tiles 4112 65536 two_used
two_used-Tiles = omega arith

-- Two mallocs from the start, and a free of the second payload: the first block has all the memory,
-- and nothing can be allocated any more.
second_malloc : heap_malloc 40 (block 4112 48 ∷ gap 4160 61376 ∷ []) ≡ some (4184, two_used)
unfolding heap_malloc
second_malloc = refl

free_second : heap_free 4184 two_used ≡ done (block 4112 61424 ∷ [])
unfolding heap_free
free_second = refl

malloc_after : heap_malloc 40 (block 4112 61424 ∷ []) ≡ none
unfolding heap_malloc
malloc_after = refl

-- `malloc(-1)` is served.
malloc_minus_one :
    heap_malloc 0xffff_ffff two_used
    ≡ some (4248, block 4112 48 ∷ block 4160 64 ∷ block 4224 32 ∷ gap 4256 61280 ∷ [])
unfolding heap_malloc
malloc_minus_one = refl

-- `realloc(NULL, 8)` reads a header before address 0.
realloc_null :
    (bytes : ℕ → ℕ) → heap_realloc 0 8 (record { blocks = two_used; bytes = bytes }) ≡ assert_failed
unfolding heap_realloc heap_usable_size
realloc_null bytes = refl

heap_init-malloc_example :
    Tiles (4096 + sizeof_heap) 65536 (heap_init 65536 4096)
    × ((q : ℕ) → used_at q (heap_init 65536 4096) ≡ none)
    × ((bs' : List Block) × (heap_malloc 40 (heap_init 65536 4096) ≡ some (4136, bs'))
        × Served (block_size 40) (4096 + sizeof_heap) 65536 4136 (heap_init 65536 4096) bs')
unfolding block_size
heap_init-malloc_example =
    heap_init-malloc 65536 4096 40 (omega arith) (omega arith) (omega arith) (omega arith)
      (omega arith)

free_bytes-add-used_bytes_example : 4112 + (free_bytes two_used + used_bytes two_used) ≡ 65536
free_bytes-add-used_bytes_example = free_bytes-add-used_bytes 4112 65536 two_used two_used-Tiles

heap_malloc-Served_example :
    Served (block_size 40) 4112 65536 4184 (block 4112 48 ∷ gap 4160 61376 ∷ []) two_used
heap_malloc-Served_example =
    heap_malloc-Served 4112 65536 40 (block 4112 48 ∷ gap 4160 61376 ∷ []) (4184, two_used)
      (omega arith) (omega arith) (omega arith) second_malloc

heap_malloc-none_example :
    (heap_malloc 40 two_used ≡ none) ↔ All (TooSmall (block_size 40)) two_used
heap_malloc-none_example =
    heap_malloc-none 4112 65536 40 two_used (omega arith) (omega arith) two_used-Tiles

heap_malloc-undersized_example :
    (out : ℕ × List Block) × (heap_malloc 0xffff_ffff two_used ≡ some out)
    × (heap_malloc 8 two_used ≡ some out)
    × ((n : ℕ) × (used_at (out.0) (out.1) ≡ some n) × (n < 0xffff_ffff))
heap_malloc-undersized_example =
    heap_malloc-undersized 4112 65536 0xffff_ffff two_used (omega arith) (omega arith) (omega arith)
      two_used-Tiles (λ small. absurd (omega (arith, ((small.1).1).0 refl)))

heap_free-Freed_example :
    (bs' : List Block) × (heap_free 4184 two_used ≡ done bs') × Freed 4112 65536 4184 two_used bs'
unfolding used_at
heap_free-Freed_example =
    heap_free-Freed 4112 65536 4184 two_used {n = 64} (omega arith) two_used-Tiles refl

heap_free-Reclaims_example :
    (bs' : List Block) × (heap_free 4184 two_used ≡ done bs')
    × Reclaims (prev_used 4184 two_used) 64 two_used bs'
unfolding used_at
heap_free-Reclaims_example =
    heap_free-Reclaims 4112 65536 4184 two_used {n = 64} (omega arith) two_used-Tiles refl

abbrev zeroed : Memory
zeroed = record { blocks = two_used; bytes = λ a. 0 }

heap_realloc-Realloced_example :
    Realloced 4112 65536 4184 64 100 zeroed (heap_realloc 4184 100 zeroed)
unfolding used_at
heap_realloc-Realloced_example =
    heap_realloc-Realloced 4112 65536 4184 100 zeroed 64 (omega arith) (omega arith) (omega arith)
      two_used-Tiles refl
