-- ===== src/Heap/Merge.antt =====
-- vmir_heap_merge_next on a tiled heap, and the two places where vmir_heap_free calls it.
use vmir.Common.{
  ℕ, ◌+◌, ◌^◌, ◌<◌, ◌≡◌, refl, List, [], ◌∷◌, arith, if◌then◌else◌, Bool-cases, inl, inr, sym,
}
use native.Mathlib.Nat.{add-zero, add_assoc}
use vmir.Heap.{Block, free, alloc, is_free, done, merge_next, release, merge_prev}
use vmir.Heap.Tiling.{Tiles, Tiles-le, used_at, used_at-below, free_bytes}

-- The bytes that a block gains by merging what is behind it, and the blocks that are then left.
unfoldable pub gain : List Block → ℕ
gain [] = 0
gain (next ∷ rest) = if is_free next.hb_magic then next.hb_size else 0

unfoldable pub behind : List Block → List Block
behind [] = []
behind (next ∷ rest) = if is_free next.hb_magic then rest else next ∷ rest

pub behind-Tiles :
    (lo hi : ℕ) (bs : List Block) → Tiles lo hi bs → Tiles (lo + gain bs) hi (behind bs)
unfolding gain behind
behind-Tiles lo hi [] t = omega arith
behind-Tiles lo hi (b ∷ bs) t = elim (Bool-cases (is_free b.hb_magic)) [
  | inl e ↦ rw e (t.3)
  | inr e ↦ rw (e, add-zero) t
]

pub used_at-behind :
    (lo hi q : ℕ) (bs : List Block) → Tiles lo hi bs → used_at q (behind bs) ≡ used_at q bs
unfolding behind used_at
used_at-behind lo hi q [] t = refl
used_at-behind lo hi q (b ∷ bs) t = ground (arith, used_at-below (lo + b.hb_size) hi q bs (t.3))

pub free_bytes-behind : (bs : List Block) → free_bytes (behind bs) + gain bs ≡ free_bytes bs
unfolding behind gain free_bytes
free_bytes-behind [] = omega arith
free_bytes-behind (b ∷ bs) = ground arith

pub merge_next-gain :
    (lo hi : ℕ) (hb : Block) (bs : List Block)
    → hi < 2 ^ 31
    → Tiles lo hi (hb ∷ bs)
    → merge_next hb bs ≡ done (record hb { hb_size = hb.hb_size + gain bs } ∷ behind bs)
unfolding merge_next gain behind
merge_next-gain lo hi hb [] h t = ground arith
merge_next-gain lo hi hb (b ∷ bs) h t =
    ground (arith, Tiles-le (lo + hb.hb_size + b.hb_size) hi bs (t.3.3))

-- The freed block, first in the queue: it merges with the free block behind it.
abbrev pub freed_first : Block → List Block → List Block
freed_first hb bs = record hb { hb_magic = free; hb_size = hb.hb_size + gain bs } ∷ behind bs

-- The freed block with `prev` before it: all goes to `prev`.
abbrev pub freed_into : Block → Block → List Block → List Block
freed_into prev hb bs = record prev { hb_size = prev.hb_size + (hb.hb_size + gain bs) } ∷ behind bs

module _ (lo hi : ℕ) (hb : Block) (bs : List Block) (h : hi < 2 ^ 31) (t : Tiles lo hi (hb ∷ bs))
    (used : hb.hb_magic ≡ alloc) where
  pub release-first : release hb bs ≡ done (freed_first hb bs)
  unfolding release
  release-first = rw used (merge_next-gain lo hi (record hb { hb_magic = free }) bs h t)

  pub freed_first-Tiles : Tiles lo hi (freed_first hb bs)
  freed_first-Tiles = (
    t.0,
    t.1,
    omega (arith, t.2),
    rw (sym (add_assoc lo hb.hb_size (gain bs))) (behind-Tiles (lo + hb.hb_size) hi bs (t.3)),
  )

module _ (lo hi : ℕ) (prev hb : Block) (bs : List Block) (h : hi < 2 ^ 31)
    (t : Tiles lo hi (prev ∷ hb ∷ bs)) (used : hb.hb_magic ≡ alloc) where
  freed_tail : Tiles (lo + prev.hb_size + (hb.hb_size + gain bs)) hi (behind bs)
  freed_tail = (freed_first-Tiles (lo + prev.hb_size) hi hb bs h (t.3) used).3

  pub merge_prev-into : merge_prev prev (freed_first hb bs) ≡ done (freed_into prev hb bs)
  unfolding merge_prev merge_next
  merge_prev-into = ground (arith, Tiles-le _ hi (behind bs) freed_tail)

  pub freed_into-Tiles : Tiles lo hi (freed_into prev hb bs)
  freed_into-Tiles = (
    t.0,
    t.1,
    omega (arith, t.2),
    rw (sym (add_assoc lo prev.hb_size (hb.hb_size + gain bs))) freed_tail,
  )
