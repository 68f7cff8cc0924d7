-- ===== src/Heap/Libc/Realloc.antt =====
-- vmir_heap_realloc on a tiled heap.
use vmir.Common.{
  ℕ, ◌+◌, ◌-◌, ◌%◌, ◌^◌, ◌≤◌, ◌<◌, ◌≡◌, ◌≢◌, refl, true, false, Option, none, some, List, [], ◌∷◌,
  ltb, leb, ◌==◌, arith, Bool-cases, Option-cases, inl, inr, sym, ◌∙◌,
}
use vmir.Heap.{Block, Outcome, done, heap_malloc, heap_free, heap_usable_size, sizeof_heap_block}
use vmir.Heap.Tiling.{Tiles, Tiles-le, used_at, used_at-below}
use vmir.Heap.Malloc.{heap_malloc-Served, block_size-IsBlockSize, false_some}
use vmir.Heap.Free.{heap_free-Freed, Keeps}
use vmir.Heap.Libc.{Memory, memcpy, grow, heap_realloc}

used_at-small :
    (lo hi p : ℕ) (bs : List Block) {n : ℕ}
    → Tiles lo hi bs
    → used_at p bs ≡ some n
    → (sizeof_heap_block ≤ n) × (n ≤ hi)
unfolding used_at
used_at-small lo hi p [] t u = absurd (cc)
used_at-small lo hi p (b ∷ bs) {n = n} t u = ground (
  arith,
  used_at-small (lo + b.hb_size) hi p bs {n = n} (t.3),
  Tiles-le (lo + b.hb_size) hi bs (t.3),
)

heap_usable_size-used_at :
    (lo hi p : ℕ) (bs : List Block) {n : ℕ}
    → hi < 2 ^ 31
    → Tiles lo hi bs
    → used_at p bs ≡ some n
    → heap_usable_size p bs ≡ done (n - sizeof_heap_block)
unfolding used_at heap_usable_size
heap_usable_size-used_at lo hi p [] h t u = absurd (cc)
heap_usable_size-used_at lo hi p (b ∷ bs) {n = n} h t u = ground (
  arith,
  heap_usable_size-used_at (lo + b.hb_size) hi p bs {n = n} h (t.3),
  Tiles-le (lo + b.hb_size) hi bs (t.3),
)

-- `memcpy` puts the source's bytes at the destination.
memcpy-copied :
    (dst src n i : ℕ) (bytes : ℕ → ℕ) → i < n → memcpy dst src n bytes (dst + i) ≡ bytes (src + i)
unfolding memcpy
memcpy-copied dst src n i bytes h =
    let from : leb dst (dst + i) ≡ true = ground arith in
    let to : ltb (dst + i) (dst + n) ≡ true = ground arith in
    let place : dst + i - dst ≡ i = omega arith in rw (from, to, place)

-- The old payload `p` of `n` bytes has moved to a new one, `q`, with room for `size`.
pub record Moved (lo hi p q n size : ℕ) (m m' : Memory) : Type 0 where
  pub tiles : Tiles lo hi (m'.blocks)
  pub gone : used_at p (m'.blocks) ≡ none
  pub fresh : used_at q (m.blocks) ≡ none
  pub size_used : ℕ
  pub used : used_at q (m'.blocks) ≡ some size_used
  pub enough : size + sizeof_heap_block ≤ size_used
  pub copied : (i : ℕ) → i < n → m'.bytes (q + i) ≡ m.bytes (p + i)
  pub kept : (r : ℕ) → r ≢ p → r ≢ q → Keeps (used_at r (m.blocks)) (used_at r (m'.blocks))

Keeps-some : {n : ℕ} (o : Option ℕ) → Keeps (some n) o → (m : ℕ) × (o ≡ some m) × (n ≤ m)
Keeps-some none k = absurd k
Keeps-some (some m) k = (m, refl, k)

grow-none :
    (p size n : ℕ) (m : Memory) → heap_malloc size (m.blocks) ≡ none → grow p size n m ≡ done (0, m)
unfolding grow
grow-none p size n m e = rw (e, grow)

grow-some :
    (p size n : ℕ) (m : Memory) (q : ℕ) (bs bs' : List Block)
    → heap_malloc size (m.blocks) ≡ some (q, bs)
    → (p == 0) ≡ false
    → heap_free p bs ≡ done bs'
    → grow p size n m ≡ done (q, record { blocks = bs'; bytes = memcpy q p n (m.bytes) })
unfolding grow
grow-some p size n m q bs bs' e given f = rw (e, grow, given, f)

module _ (lo hi p size : ℕ) (m : Memory) (s : ℕ) (h : hi < 2 ^ 31) (hs : size + 39 < 2 ^ 31)
    (t : Tiles lo hi (m.blocks)) (u : used_at p (m.blocks) ≡ some s) where
  grow-Moved :
      (q : ℕ) (bs : List Block)
      → heap_malloc size (m.blocks) ≡ some (q, bs)
      → (m' : Memory) × (grow p size (s - sizeof_heap_block) m ≡ done (q, m'))
        × Moved lo hi p q (s - sizeof_heap_block) size m m'
  grow-Moved q bs e =
      let sv = heap_malloc-Served lo hi size (m.blocks) (q, bs) h hs t e in
      let other : p ≢ q = λ (eq : p ≡ q). false_some (sym u ∙ rw eq (sv.fresh)) in
      let (bs', f, fr) = heap_free-Freed lo hi p bs h (sv.tiles) (sv.same p other ∙ u) in
      let (grown, v, w) =
        Keeps-some (used_at q bs') (rw (sv.used) at (fr.kept q (λ e'. other (sym e')))) in
      let given : (p == 0) ≡ false = ground (arith, used_at-below lo hi p (m.blocks) t) in
      (
        record { blocks = bs'; bytes = memcpy q p (s - sizeof_heap_block) (m.bytes) },
        grow-some p size (s - sizeof_heap_block) m q bs bs' e given f,
        record {
          tiles = fr.tiles;
          gone = fr.gone;
          fresh = sv.fresh;
          size_used = grown;
          used = v;
          enough = omega (arith, sv.enough, (block_size-IsBlockSize size hs).1, w);
          copied = λ i hi'. memcpy-copied q p (s - sizeof_heap_block) i (m.bytes) hi';
          kept = λ r ne nq. rw (sv.same r nq) at (fr.kept r ne);
        },
      )

-- `realloc` of a used payload of `s - 24` bytes to `size` bytes, on a tiled heap: a smaller size
-- returns the same pointer and changes nothing; otherwise, if there is no block for the new size, it
-- returns NULL and changes nothing, and else the old bytes are at the new payload, the old payload is
-- no longer in use and no other block is lost.
pub data Realloced (lo hi p s size : ℕ) (m : Memory) : Outcome (ℕ × Memory) → Type 0 where
  stays : size < s - sizeof_heap_block → Realloced lo hi p s size m (done (p, m))
  fails :
      s - sizeof_heap_block ≤ size
      → heap_malloc size (m.blocks) ≡ none
      → Realloced lo hi p s size m (done (0, m))
  moves :
      (q : ℕ) (m' : Memory)
      → s - sizeof_heap_block ≤ size
      → Moved lo hi p q (s - sizeof_heap_block) size m m'
      → Realloced lo hi p s size m (done (q, m'))

-- On a heap that is tiled up to an end below 2 ^ 31, `realloc` of a used payload to a size that is
-- not 0 and not within 39 of 2 ^ 31 has one of three outcomes: the payload stays, where the size is
-- less than it has; NULL, with nothing changed, where it is not and malloc of the size gives none;
-- or the bytes of the old payload are copied to one with room for the size, which was not in use,
-- the old one is freed, and every other used block stays in use, no smaller than before.
pub heap_realloc-Realloced :
    (lo hi p size : ℕ) (m : Memory) (s : ℕ)
    → hi < 2 ^ 31
    → 0 < size
    → size + 39 < 2 ^ 31
    → Tiles lo hi (m.blocks)
    → used_at p (m.blocks) ≡ some s
    → Realloced lo hi p s size m (heap_realloc p size m)
unfolding heap_realloc
heap_realloc-Realloced lo hi p size m s h pos hs t u =
    let some_size : (size == 0) ≡ false = ground arith in
    let (room, top) = used_at-small lo hi p (m.blocks) t u in
    let usable = heap_usable_size-used_at lo hi p (m.blocks) h t u in
    elim (Bool-cases (ltb ((size + 2 ^ 31) % 2 ^ 32) ((s - sizeof_heap_block + 2 ^ 31) % 2 ^ 32))) [
      | inl less ↦ rw (some_size, usable, less) (stays (ground arith))
      | inr more ↦
          rw (some_size, usable, more)
            (elim (Option-cases (heap_malloc size (m.blocks))) [
              | inl e ↦ rw (grow-none p size (s - sizeof_heap_block) m e) (fails (ground arith) e)
              | inr ((q, bs), e) ↦
                  let (m', g, moved) = grow-Moved lo hi p size m s h hs t u q bs e in
                  rw g (moves q m' (ground arith) moved)
            ])
    ]
