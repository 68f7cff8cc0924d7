-- ===== src/Heap/Libc.antt =====
-- src/vmir_libc.c: vmir_heap_realloc, and the libc entries malloc, calloc, free and realloc of the
-- guest, over the blocks and the contents of the memory. A guest pointer is the offset, NULL is 0.
pub mod Realloc
use vmir.Common.{
  ℕ, zero, suc, ◌+◌, ◌-◌, ◌*◌, ◌%◌, ◌^◌, Bool, true, false, ◌&&◌, Option, none, some, List, ltb,
  leb, ◌==◌, if◌then◌else◌,
}
use vmir.Heap.{Block, Outcome, done, assert_failed, ◌>>=◌, heap_malloc, heap_free, heap_usable_size}

-- `bytes a` is the byte of guest memory at `a`. The headers are not among them.
pub record Memory : Type 0 where
  pub blocks : List Block
  pub bytes : ℕ → ℕ

-- `memcpy(dst, src, n)` and `memset(dst, 0, n)`.
unfoldable pub memcpy : (dst src n : ℕ) → (ℕ → ℕ) → ℕ → ℕ
memcpy dst src n bytes a = if leb dst a && ltb a (dst + n) then bytes (src + (a - dst)) else bytes a

unfoldable pub memset_zero : (dst n : ℕ) → (ℕ → ℕ) → ℕ → ℕ
memset_zero dst n bytes a = if leb dst a && ltb a (dst + n) then 0 else bytes a

-- The tail of vmir_heap_realloc for a size other than 0, on the payload size `cursize`.
unfoldable pub grow : (ptr size cursize : ℕ) → Memory → Outcome (ℕ × Memory)
grow ptr size cursize m = elim (heap_malloc size (m.blocks)) [
  | none ↦ done (0, m)
  | some (n, bs) ↦
      let moved = if ptr == 0 then m.bytes else memcpy n ptr cursize m.bytes in
      heap_free ptr bs >>= λ bs'. done (n, record { blocks = bs'; bytes = moved })
]

-- `size < cursize` compares ints; both are below 2 ^ 31 on a tiled heap.
unfoldable pub heap_realloc : (ptr size : ℕ) → Memory → Outcome (ℕ × Memory)
unfolding grow
heap_realloc ptr size m =
    if size == 0
    then (heap_free ptr (m.blocks) >>= λ bs. done (0, record m { blocks = bs }))
    else (heap_usable_size ptr (m.blocks) >>= λ cursize.
        if ltb ((size + 2 ^ 31) % 2 ^ 32) ((cursize + 2 ^ 31) % 2 ^ 32)
        then done (ptr, m)
        else grow ptr size cursize m)

unfoldable pub vmir_malloc : ℕ → Memory → ℕ × Memory
vmir_malloc size m = elim (heap_malloc size (m.blocks)) [
  | none ↦ (0, m)
  | some (p, bs) ↦ (p, record m { blocks = bs })
]

unfoldable pub vmir_calloc : ℕ → ℕ → Memory → ℕ × Memory
vmir_calloc nmemb size m =
    let total = size * nmemb % 2 ^ 32 in
    elim (heap_malloc total (m.blocks)) [
      | none ↦ (0, m)
      | some (p, bs) ↦ (p, record { blocks = bs; bytes = memset_zero p total m.bytes })
    ]

unfoldable pub vmir_free : ℕ → Memory → Outcome Memory
vmir_free ptr m =
    if ptr == 0 then done m else heap_free ptr (m.blocks) >>= λ bs. done (record m { blocks = bs })

unfoldable pub vmir_realloc : (ptr size : ℕ) → Memory → Outcome (ℕ × Memory)
unfolding heap_realloc
vmir_realloc ptr size m = heap_realloc ptr size m
