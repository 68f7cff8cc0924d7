-- ===== src/Heap.antt =====
-- src/vmir_libc.c: the built-in allocator (the `#else` of VMIR_USE_TLSF) and the libc entries that
-- call it. The queue of blocks is a list in queue order; an address is an offset into `iu_mem`.
-- The headers are those of a 64-bit host. Sizes are `int`s, given by their 32-bit patterns, and
-- signed arithmetic wraps.
pub mod Tiling
pub mod Malloc
pub mod Serving
pub mod Merge
pub mod Free
pub mod Reclaim
pub mod Libc
use vmir.Common.{
  ℕ, zero, suc, ◌+◌, ◌-◌, ◌*◌, ◌/◌, ◌%◌, ◌^◌, Bool, true, false, ◌&&◌, Option, none, some, List, [],
  ◌∷◌, ltb, leb, ◌==◌, if◌then◌else◌,
}
use vmir.Common.Words.{leb_s32, add32, sub32, align32_16}

-- `sizeof(heap_block_t)` and `sizeof(heap_t)`: two ints and two pointers, and two pointers.
abbrev pub sizeof_heap_block : ℕ
sizeof_heap_block = 24

abbrev pub sizeof_heap : ℕ
sizeof_heap = 16

-- HEAP_MAGIC_FREE and HEAP_MAGIC_ALLOC.
pub data Magic : Type 0 where
  free alloc : Magic

pub record Block : Type 0 where
  pub addr : ℕ
  pub hb_magic : Magic
  pub hb_size : ℕ

abbrev pub is_free : Magic → Bool
is_free free = true
is_free alloc = false

-- What the `assert`s and a bad pointer come to.
pub data Outcome {ℓ} (A : Type ℓ) : Type ℓ where
  done : A → Outcome A
  assert_failed : Outcome A

infixl 5 ◌>>=◌
abbrev pub ◌>>=◌ {ℓ κ} : {A : Type ℓ} {B : Type κ} → Outcome A → (A → Outcome B) → Outcome B
done a >>= f = f a
assert_failed >>= f = assert_failed

-- One free block from behind the heap's own header to the end of the memory.
unfoldable pub heap_init : (memsize heap_start : ℕ) → List Block
heap_init memsize heap_start =
    record {
      addr = heap_start + sizeof_heap;
      hb_magic = free;
      hb_size = sub32 (sub32 memsize heap_start) sizeof_heap;
    }
    ∷ []

-- The size of the block that serves a request.
unfoldable pub block_size : ℕ → ℕ
block_size size = align32_16 (add32 size sizeof_heap_block)

-- `(void *)hb + size` for a signed size.
abbrev offset32 : ℕ → ℕ → ℕ
offset32 addr size = if ltb size (2 ^ 31) then addr + size else addr + size - 2 ^ 32

-- The body of the loop of vmir_heap_malloc on a block that is taken.
unfoldable pub take_block : ℕ → Block → List Block → List Block
take_block size hb rest =
    let remain = sub32 hb.hb_size size in
    let split : Block = record {
      addr = offset32 hb.addr size;
      hb_magic = free;
      hb_size = remain;
    } in
    if ltb remain (sizeof_heap_block * 2)
    then record hb { hb_magic = alloc } ∷ rest
    else record hb { hb_magic = alloc; hb_size = size } ∷ split ∷ rest

-- `TAILQ_FOREACH` of vmir_heap_malloc: the pointer to the payload and the new queue.
unfoldable pub malloc_loop : ℕ → List Block → Option (ℕ × List Block)
unfolding take_block
malloc_loop size [] = none
malloc_loop size (hb ∷ rest) =
    let later : Option (ℕ × List Block) = elim (malloc_loop size rest) [
      | none ↦ none
      | some (p, bs) ↦ some (p, hb ∷ bs)
    ] in
    if is_free hb.hb_magic && leb_s32 size hb.hb_size
    then some (hb.addr + sizeof_heap_block, take_block size hb rest)
    else later

unfoldable pub heap_malloc : ℕ → List Block → Option (ℕ × List Block)
unfolding block_size malloc_loop
heap_malloc size blocks = malloc_loop (block_size size) blocks

-- vmir_heap_merge_next on `hb` with the blocks behind it.
unfoldable pub merge_next : Block → List Block → Outcome (List Block)
merge_next hb [] = done (hb ∷ [])
merge_next hb (next ∷ rest) =
    if is_free next.hb_magic
    then (if ltb hb.addr next.addr
        then done (record hb { hb_size = add32 hb.hb_size next.hb_size } ∷ rest)
        else assert_failed)
    else done (hb ∷ next ∷ rest)

-- `*hb` for the block whose payload is at `ptr`; a pointer to no payload fails the magic's `assert`.
abbrev pub at_payload : ℕ → Block → Bool
at_payload ptr hb = hb.addr + sizeof_heap_block == ptr

-- The part of vmir_heap_free that marks the block and merges what is behind it.
unfoldable pub release : Block → List Block → Outcome (List Block)
unfolding merge_next
release hb rest = elim hb.hb_magic [
  | alloc ↦ merge_next (record hb { hb_magic = free }) rest
  | free ↦ assert_failed
]

-- The part that merges the freed block, the head of `blocks`, into the one before it.
unfoldable pub merge_prev : Block → List Block → Outcome (List Block)
unfolding merge_next
merge_prev prev [] = assert_failed
merge_prev prev (hb ∷ rest) =
    if ltb prev.addr hb.addr then merge_next prev (hb ∷ rest) else assert_failed

-- vmir_heap_free on a block that has one before it, `prev`.
unfoldable pub free_behind : ℕ → Block → List Block → Outcome (List Block)
unfolding release merge_prev
free_behind ptr prev [] = assert_failed
free_behind ptr prev (hb ∷ rest) =
    let later = free_behind ptr hb rest >>= λ bs. done (prev ∷ bs) in
    if at_payload ptr hb then release hb rest >>= merge_prev prev else later

unfoldable pub heap_free : ℕ → List Block → Outcome (List Block)
unfolding free_behind release
heap_free ptr [] = if ptr == 0 then done [] else assert_failed
heap_free ptr (hb ∷ rest) =
    if ptr == 0
    then done (hb ∷ rest)
    else if at_payload ptr hb
    then release hb rest
    else free_behind ptr hb rest

-- The size is read from the header before `ptr`, also when `ptr` is NULL.
unfoldable pub heap_usable_size : ℕ → List Block → Outcome ℕ
heap_usable_size ptr [] = assert_failed
heap_usable_size ptr (hb ∷ rest) =
    let later = heap_usable_size ptr rest in
    if at_payload ptr hb
    then elim hb.hb_magic [
      | alloc ↦ done (sub32 hb.hb_size sizeof_heap_block)
      | free ↦ assert_failed
    ]
    else later
