-- ===== src/Vm/Exec/Search/Sorted.antt =====
-- The binary search of the switches in src/vmir_vm.c, on keys in order.
use vmir.Common.{
  ℕ, zero, suc, ◌+◌, ◌/◌, ◌≤◌, ◌<◌, ◌≡◌, ◌≢◌, refl, ◌∙◌, ap, ◌⊎◌, inl, inr, true, false, Bool-cases,
  Eq-cases, Option, some, ltb, ◌==◌, arith,
}
use vmir.Vm.Exec.Search.{search_loop, path_found, search_path}

-- The path taken: the first one with the key, or the default if there is none.
abbrev pub Chosen : (k : ℕ → ℕ) → (u p n : ℕ) → Type 0
Chosen k u p n =
    ((n < p) × (k n ≡ u) × ((j : ℕ) → j < n → k j < u)) ⊎ ((n ≡ p) × ((j : ℕ) → j < p → k j ≢ u))

module _ (key : ℕ → Option ℕ) (k : ℕ → ℕ) (u p : ℕ)
    (readable : (i : ℕ) → i < p → key i ≡ some (k i))
    (sorted : (i j : ℕ) → i ≤ j → j < p → k i ≤ k j) where
  -- The keys before `imin` are below `u`, and that at `imax` is not, unless it is the last.
  abbrev Between : (imin imax : ℕ) → Type 0
  Between imin imax =
      (imin ≤ imax) × (imax < p) × ((j : ℕ) → j < imin → k j < u) × ((u ≤ k imax) ⊎ (suc imax ≡ p))

  upper_half :
      (imin imax imid : ℕ) → Between imin imax → imid < imax → k imid < u → Between (suc imid) imax
  upper_half imin imax imid (le, lt, below, above) h small =
      (omega arith, lt, λ j hj. omega (arith, sorted j imid (omega arith) (omega arith)), above)

  lower_half :
      (imin imax imid : ℕ)
      → Between imin imax
      → imin ≤ imid
      → imid < imax
      → u ≤ k imid
      → Between imin imid
  lower_half imin imax imid (le, lt, below, above) h1 h2 big = (h1, omega arith, below, inl big)

  met : (imin imax : ℕ) → imin ≡ imax → Between imin imax → Between imax imax
  met imin imax e (le, lt, below, above) = (omega arith, lt, λ j h. below j (omega arith), above)

  ended :
      (imin imax : ℕ)
      → imin ≡ imax
      → ◌≡◌ {A = Option (ℕ × ℕ)} (some (imin, imax)) (some (imax, imax))
  ended imin imax e = ap (λ i. some (i, imax)) e

  same_place : (n j : ℕ) → suc n ≡ p → j < p → n ≤ j → n ≡ j
  same_place n j a h g = omega arith

  none_equal :
      (n : ℕ)
      → n < p
      → ((j : ℕ) → j < n → k j < u)
      → (u ≤ k n) ⊎ (suc n ≡ p)
      → k n ≢ u
      → (j : ℕ) → j < p
      → k j ≢ u
  none_equal n lt below above ne j h e = elim (Bool-cases (ltb j n)) [
    | inl before ↦ absurd (omega (arith, below j (ground arith), e))
    | inr after ↦ elim above [
      | inl big ↦ ne (omega (arith, sorted n j (ground arith) h, e, big))
      | inr at_end ↦ ne (ap k (same_place n j at_end h (ground arith)) ∙ e)
    ]
  ]

  -- The loop ends, with both bounds the same.
  search_loop-Between :
      (fuel imin imax : ℕ)
      → imax ≤ imin + fuel
      → Between imin imax
      → (n : ℕ) × (search_loop fuel key u imin imax ≡ some (n, n)) × Between n n
  unfolding search_loop
  search_loop-Between zero imin imax h b =
      let stop : ltb imin imax ≡ false = ground arith in
      (imax, rw stop (ended imin imax (omega arith)), met imin imax (omega arith) b)
  search_loop-Between (suc fuel) imin imax h b = elim (Bool-cases (ltb imin imax)) [
    | inr stop ↦ (imax, rw stop (ended imin imax (ground arith)), met imin imax (ground arith) b)
    | inl go ↦
        let imid = (imin + imax) / 2 in
        let inside : (imin ≤ imid) × (imid < imax) = (ground arith, ground arith) in
        let read : key imid ≡ some (k imid) = readable imid (omega (arith, inside, b.1)) in
        elim (Bool-cases (ltb (k imid) u)) [
          | inl small ↦
              let (n, eq_n, b_n) =
                search_loop-Between fuel (suc imid) imax (omega (arith, inside))
                  (upper_half imin imax imid b (inside.1) (ground arith)) in
              (n, rw (go, read, small) eq_n, b_n)
          | inr big ↦
              let (n, eq_n, b_n) =
                search_loop-Between fuel imin imid (omega (arith, inside))
                  (lower_half imin imax imid b (inside.0) (inside.1) (ground arith)) in
              (n, rw (go, read, big) eq_n, b_n)
        ]
  ]

  -- The test after the loop tells the key's path from the default.
  path_found-Chosen :
      (n : ℕ) → Between n n → (i : ℕ) × (path_found key u p (n, n) ≡ some i) × Chosen k u p i
  unfolding path_found
  path_found-Chosen n (le, lt, below, above) =
      let same : (n == n) ≡ true = ground arith in
      elim (Eq-cases (k n) u) [
        | inl e ↦
            let hit : (k n == u) ≡ true = ground arith in
            (n, rw (same, readable n lt, hit) refl, inl (lt, e, below))
        | inr e ↦
            let miss : (k n == u) ≡ false = ground arith in
            (p, rw (same, readable n lt, miss) refl, inr (refl, none_equal n lt below above e))
      ]

-- With `p` keys in order in the text, the search of a switch ends and takes the first path whose key
-- is the value, or the default, numbered `p`, if no key is.
pub search_path-Chosen :
    (key : ℕ → Option ℕ) (k : ℕ → ℕ) (u p : ℕ)
    → ((i : ℕ) → i < p → key i ≡ some (k i))
    → ((i j : ℕ) → i ≤ j → j < p → k i ≤ k j)
    → (n : ℕ) × (search_path key u p ≡ some n) × Chosen k u p n
unfolding search_path
search_path-Chosen key k u zero readable sorted = (0, refl, inr (refl, λ j h. absurd (omega arith)))
search_path-Chosen key k u (suc last) readable sorted =
    let (n, loop, between) =
      search_loop-Between key k u (suc last) readable sorted (suc last) 0 last (omega arith)
        (omega arith, omega arith, λ j h. absurd (omega arith), inr refl) in
    let (i, hit, chosen) = path_found-Chosen key k u (suc last) readable sorted n between in
    (i, rw loop hit, chosen)
