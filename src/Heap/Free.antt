-- ===== src/Heap/Free.antt =====
-- vmir_heap_free on a tiled heap.
use vmir.Common.{
  ℕ, ◌+◌, ◌^◌, ◌≤◌, ◌<◌, ◌≡◌, ◌≢◌, List, [], ◌∷◌, Bool, true, false, arith, Option, none, some,
  if◌then◌else◌, ◌==◌, Bool-cases, inl, inr, sym, ◌∙◌,
}
use vmir.Heap.{Block, alloc, is_free, at_payload, done, free_behind, heap_free}
use vmir.Heap.Tiling.{Tiles, used_at, used_at-below}
use vmir.Heap.Merge.{
  gain, freed_first, freed_into, used_at-behind, release-first, freed_first-Tiles, merge_prev-into,
  freed_into-Tiles,
}

-- A used payload stays used, with its size or a larger one, and an unused one stays unused.
abbrev pub Keeps : Option ℕ → Option ℕ → Type 0
Keeps none none = Unit {0}
Keeps none (some m) = ⊥
Keeps (some n) none = ⊥
Keeps (some n) (some m) = n ≤ m

pub Keeps-refl : (o : Option ℕ) → Keeps o o
Keeps-refl none = tt
Keeps-refl (some n) = omega arith

Keeps-grown :
    (b : Bool) (n m : ℕ) → Keeps (if b then none else some n) (if b then none else some (n + m))
Keeps-grown true n m = tt
Keeps-grown false n m = omega arith

-- What `free` of the payload `p` has done to the queue.
pub record Freed (lo hi p : ℕ) (bs bs' : List Block) : Type 0 where
  pub tiles : Tiles lo hi bs'
  pub gone : used_at p bs' ≡ none
  pub kept : (q : ℕ) → q ≢ p → Keeps (used_at q bs) (used_at q bs')

module _ (lo hi p : ℕ) (hb : Block) (bs : List Block) (h : hi < 2 ^ 31) (t : Tiles lo hi (hb ∷ bs))
    (used : hb.hb_magic ≡ alloc) (at : at_payload p hb ≡ true) where
  freed_first-Freed : Freed lo hi p (hb ∷ bs) (freed_first hb bs)
  unfolding used_at
  freed_first-Freed = record {
    tiles = freed_first-Tiles lo hi hb bs h t used;
    gone = ground arith;
    kept = λ q ne.
        let miss : at_payload q hb ≡ false = ground arith in
        rw (miss, used_at-behind (lo + hb.hb_size) hi q bs (t.3)) (Keeps-refl _);
  }

module _ (lo hi p : ℕ) (prev hb : Block) (bs : List Block) (h : hi < 2 ^ 31)
    (t : Tiles lo hi (prev ∷ hb ∷ bs)) (used : hb.hb_magic ≡ alloc)
    (at : at_payload p hb ≡ true) where
  freed_into-Freed : Freed lo hi p (prev ∷ hb ∷ bs) (freed_into prev hb bs)
  unfolding used_at
  freed_into-Freed = record {
    tiles = freed_into-Tiles lo hi prev hb bs h t used;
    gone = ground (
      arith,
      used_at-behind (lo + prev.hb_size + hb.hb_size) hi p bs (t.3.3),
      used_at-below (lo + prev.hb_size + hb.hb_size) hi p bs (t.3.3),
    );
    kept = λ q ne. elim (Bool-cases (at_payload q prev)) [
      | inl e ↦ rw e (Keeps-grown (is_free prev.hb_magic) prev.hb_size (hb.hb_size + gain bs))
      | inr e ↦
          let miss : at_payload q hb ≡ false = ground arith in
          rw (e, miss, used_at-behind (lo + prev.hb_size + hb.hb_size) hi q bs (t.3.3))
            (Keeps-refl _)
    ];
  }

Freed-cons :
    (lo hi p : ℕ) (b : Block) (bs bs' : List Block)
    → Tiles lo hi (b ∷ bs)
    → at_payload p b ≡ false
    → Freed (lo + b.hb_size) hi p bs bs'
    → Freed lo hi p (b ∷ bs) (b ∷ bs')
unfolding used_at
Freed-cons lo hi p b bs bs' t miss f = record {
  tiles = (t.0, t.1, t.2, f.tiles);
  gone = rw miss (f.gone);
  kept = λ q ne. elim (Bool-cases (at_payload q b)) [
    | inl e ↦ rw e (Keeps-refl _)
    | inr e ↦ rw e (f.kept q ne)
  ];
}

-- The block at a used payload.
pub used_at-head :
    (p : ℕ) (hb : Block) (bs : List Block) {n : ℕ}
    → at_payload p hb ≡ true
    → used_at p (hb ∷ bs) ≡ some n
    → (hb.hb_magic ≡ alloc) × (hb.hb_size ≡ n)
unfolding used_at
used_at-head p hb bs at e = (ground arith, ground arith)

pub used_at-tail :
    (p : ℕ) (hb : Block) (bs : List Block)
    → at_payload p hb ≡ false
    → used_at p (hb ∷ bs) ≡ used_at p bs
unfolding used_at
used_at-tail p hb bs miss = rw miss

free_behind-Freed :
    (lo hi p : ℕ) (prev : Block) (bs : List Block) {n : ℕ}
    → hi < 2 ^ 31
    → Tiles lo hi (prev ∷ bs)
    → at_payload p prev ≡ false
    → used_at p bs ≡ some n
    → (bs' : List Block) × (free_behind p prev bs ≡ done bs') × Freed lo hi p (prev ∷ bs) bs'
unfolding free_behind
free_behind-Freed lo hi p prev [] h t miss u = absurd (unfold used_at in cc)
free_behind-Freed lo hi p prev (hb ∷ bs) h t miss u = elim (Bool-cases (at_payload p hb)) [
  | inl at ↦
      let used = (used_at-head p hb bs at u).0 in
      (
        freed_into prev hb bs,
        rw (at, release-first (lo + prev.hb_size) hi hb bs h (t.3) used)
            (merge_prev-into lo hi prev hb bs h t used),
        freed_into-Freed lo hi p prev hb bs h t used at,
      )
  | inr away ↦
      let (bs', e, f) =
        free_behind-Freed (lo + prev.hb_size) hi p hb bs h (t.3) away
          (sym (used_at-tail p hb bs away) ∙ u) in
      (prev ∷ bs', rw (away, e), Freed-cons lo hi p prev (hb ∷ bs) bs' t miss f)
]

-- On a heap that is tiled from `lo` to an end below 2 ^ 31, `free` of a used payload succeeds: the
-- heap stays tiled, the payload is no longer in use, and every other used block stays in use where
-- it is, no smaller than before.
pub heap_free-Freed :
    (lo hi p : ℕ) (bs : List Block) {n : ℕ}
    → hi < 2 ^ 31
    → Tiles lo hi bs
    → used_at p bs ≡ some n
    → (bs' : List Block) × (heap_free p bs ≡ done bs') × Freed lo hi p bs bs'
unfolding heap_free
heap_free-Freed lo hi p [] h t u = absurd (unfold used_at in cc)
heap_free-Freed lo hi p (hb ∷ bs) {n = n} h t u =
    let given : (p == 0) ≡ false = ground (arith, used_at-below lo hi p (hb ∷ bs) t) in
    elim (Bool-cases (at_payload p hb)) [
      | inl at ↦
          let used = (used_at-head p hb bs at u).0 in
          (
            freed_first hb bs,
            rw (given, at) (release-first lo hi hb bs h t used),
            freed_first-Freed lo hi p hb bs h t used at,
          )
      | inr away ↦
          let (bs', e, f) =
            free_behind-Freed lo hi p hb bs h t away (sym (used_at-tail p hb bs away) ∙ u) in
          (bs', rw (given, away) e, f)
    ]
