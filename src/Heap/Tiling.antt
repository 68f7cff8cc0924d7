-- ===== src/Heap/Tiling.antt =====
-- The blocks of the queue tile the heap's memory.
use vmir.Common.{
  ℕ, ◌+◌, ◌%◌, ◌≤◌, ◌<◌, ◌≡◌, refl, List, [], ◌∷◌, arith, Option, none, some, if◌then◌else◌,
}
use vmir.Heap.{Block, is_free, at_payload, sizeof_heap_block}

-- From `lo` to `hi` the blocks follow one another in address order, with no gap: each starts at a
-- multiple of 16 and has room for its header.
abbrev pub Tiles : ℕ → ℕ → List Block → Type 0
Tiles lo hi [] = lo ≡ hi
Tiles lo hi (b ∷ bs) =
    (b.addr ≡ lo)
    × (b.addr % 16 ≡ 0)
    × (sizeof_heap_block ≤ b.hb_size)
    × Tiles (lo + b.hb_size) hi bs

-- The bytes in free blocks, and in used ones, headers included.
unfoldable pub free_bytes : List Block → ℕ
free_bytes [] = 0
free_bytes (b ∷ bs) = (if is_free b.hb_magic then b.hb_size else 0) + free_bytes bs

unfoldable pub used_bytes : List Block → ℕ
used_bytes [] = 0
used_bytes (b ∷ bs) = (if is_free b.hb_magic then 0 else b.hb_size) + used_bytes bs

-- The size of the used block whose payload is at `ptr`.
unfoldable pub used_at : ℕ → List Block → Option ℕ
used_at ptr [] = none
used_at ptr (b ∷ bs) =
    let later = used_at ptr bs in
    if at_payload ptr b then (if is_free b.hb_magic then none else some b.hb_size) else later

pub Tiles-le : (lo hi : ℕ) (bs : List Block) → Tiles lo hi bs → lo ≤ hi
Tiles-le lo hi [] t = omega arith
Tiles-le lo hi (b ∷ bs) t = omega (arith, Tiles-le (lo + b.hb_size) hi bs t.3)

-- The free and the used blocks share out the tiled memory.
pub free_bytes-add-used_bytes :
    (lo hi : ℕ) (bs : List Block) → Tiles lo hi bs → lo + (free_bytes bs + used_bytes bs) ≡ hi
unfolding free_bytes used_bytes
free_bytes-add-used_bytes lo hi [] t = omega arith
free_bytes-add-used_bytes lo hi (b ∷ bs) t =
    ground (arith, free_bytes-add-used_bytes (lo + b.hb_size) hi bs (t.3))

-- No payload starts below the first block's.
pub used_at-below :
    (lo hi ptr : ℕ) (bs : List Block)
    → Tiles lo hi bs
    → ptr < lo + sizeof_heap_block
    → used_at ptr bs ≡ none
unfolding used_at
used_at-below lo hi ptr [] t h = refl
used_at-below lo hi ptr (b ∷ bs) t h =
    ground (arith, used_at-below (lo + b.hb_size) hi ptr bs (t.3))
