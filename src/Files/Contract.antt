-- ===== src/Files/Contract.antt =====
-- src/vmir_libc.c: what vmir_fd_create and vmir_fd_close promise of the table of live files.
use vmir.Common.{
  ℕ, suc, ◌+◌, ◌%◌, ◌^◌, ◌<◌, ◌≡◌, ◌≢◌, refl, sym, ◌∙◌, ap, subst, Option, none, some, List, [],
  ◌∷◌, ◌++◌, get_elem?, length, set, get_elem?-set_self, get_elem?-set_ne, get_elem?-append_self,
  get_elem?-lt, length-set, length-append, arith, ◌⊎◌, inl, inr, get_elem?-append_cases,
  get_elem?-ge, get_elem?-append_ne, Eq-cases,
}
use vmir.Files.{minus_one, Vfd, Fds, freelist, checked, vfd_get, vmir_fd_create}
use vmir.Files.Table.{
  In, Distinct, Chain, IsValid, Chain-set, checked_closed, checked_open, slot, create_pushed,
  create_reused,
}

module _ {World : Type 0} where
  -- `fd` was closed and is now open with what was passed; nothing changed for any other descriptor; the
  -- table grew only if every descriptor was open.
  pub record Created (iu : Fds World) (new : Vfd World) (fd : ℕ) (iu' : Fds World) : Type 0 where
    pub closed : (t : ℕ) → vfd_get iu fd t ≡ none
    pub opened : vfd_get iu' fd minus_one ≡ some new
    pub others : (j t : ℕ) → j ≢ fd → vfd_get iu' j t ≡ vfd_get iu j t
    pub valid : IsValid iu'
    pub compact :
        (length iu'.vfds ≡ length iu.vfds)
        ⊎ ((length iu'.vfds ≡ suc (length iu.vfds))
            × ((i : ℕ) (v : Vfd World) → get_elem? iu.vfds i ≡ some v → v.type ≢ 0))

  pub some-injective : {a b : Vfd World} → Path (Option (Vfd World)) (some a) (some b) → a ≡ b
  some-injective q = cc

  pub after_set :
      (vfds : List (Vfd World)) (fd i : ℕ) (u v : Vfd World)
      → fd < length vfds
      → get_elem? (set vfds fd u) i ≡ some v
      → ((i ≡ fd) × (u ≡ v)) ⊎ ((i ≢ fd) × (get_elem? vfds i ≡ some v))
  after_set vfds fd i u v h e = elim (Eq-cases i fd) [
    | inl p ↦ inl (
      p,
      some-injective (
          sym (get_elem?-set_self vfds fd u h)
          ∙ subst (λ j. get_elem? (set vfds fd u) j ≡ some v) p e),
    )
    | inr n ↦ inr (n, sym (get_elem?-set_ne vfds u (λ p. n (sym p))) ∙ e)
  ]

  reused-Created :
      (iu : Fds World) (v new : Vfd World) (fd : ℕ) (free : List ℕ)
      → IsValid iu
      → get_elem? iu.vfds fd ≡ some v
      → v.type ≡ 0
      → new.type ≢ 0
      → Chain iu.vfds (freelist v) free
      → Distinct (fd ∷ free)
      → ((i : ℕ) (u : Vfd World) → get_elem? iu.vfds i ≡ some u → u.type ≡ 0 → In i (fd ∷ free))
      → Created iu new fd (record { vfds = set iu.vfds fd new; vfd_free = freelist v })
  unfolding vfd_get
  reused-Created iu v new fd free ok at closed live chain distinct complete = record {
    closed = λ t. ap (checked t) at ∙ checked_closed t v closed;
    opened =
        ap (checked minus_one) (get_elem?-set_self iu.vfds fd new (get_elem?-lt iu.vfds fd at))
        ∙ checked_open new live;
    others = λ j t ne. ap (checked t) (get_elem?-set_ne iu.vfds new (λ p. ne (sym p)));
    valid = record {
      free = free;
      chain = Chain-set iu.vfds (freelist v) fd free new (distinct.0) chain;
      distinct = distinct.1;
      complete = λ i u e z. elim (after_set iu.vfds fd i new u (get_elem?-lt iu.vfds fd at) e) [
        | inl (p, q) ↦ absurd (live (ap (λ (x : Vfd World). x.type) q ∙ z))
        | inr (n, e1) ↦ elim (complete i u e1 z) [ inl p ↦ absurd (n p) | inr m ↦ m ]
      ];
      small = rw (length-set iu.vfds fd new) ok.small;
    };
    compact = inl (length-set iu.vfds fd new);
  }

  pushed-Created :
      (iu : Fds World) (new : Vfd World)
      → IsValid iu
      → iu.vfd_free ≡ minus_one
      → ((i : ℕ) (u : Vfd World) → get_elem? iu.vfds i ≡ some u → u.type ≢ 0)
      → length iu.vfds + 1 < 2 ^ 31
      → new.type ≢ 0
      → Created iu new (length iu.vfds) (record iu { vfds = iu.vfds ++ new ∷ [] })
  unfolding vfd_get
  pushed-Created iu new ok end all_open room live = record {
    closed = λ t. ap (checked t) (get_elem?-ge iu.vfds (length iu.vfds) (omega arith));
    opened = ap (checked minus_one) (get_elem?-append_self iu.vfds new) ∙ checked_open new live;
    others = λ j t ne. ap (checked t) (get_elem?-append_ne iu.vfds new j ne);
    valid = record {
      free = [];
      chain = end;
      distinct = tt;
      complete = λ i u e z. elim (get_elem?-append_cases iu.vfds new i e) [
        | inl e1 ↦ all_open i u e1 z
        | inr q ↦ live (ap (λ (x : Vfd World). x.type) q ∙ z)
      ];
      small = omega (arith, length-append iu.vfds (new ∷ []));
    };
    compact = inr (omega (arith, length-append iu.vfds (new ∷ [])), all_open);
  }

  -- On a valid table of fewer than 2 ^ 31 - 1 entries, vmir_fd_create with a type whose low byte is
  -- not 0 opens a descriptor that was closed, under the type and the handle that were passed; it
  -- leaves all others as they were, keeps the table valid, and adds to the table only if none was
  -- closed.
  pub vmir_fd_create-Created :
      (iu : Fds World) (handle type : ℕ) (relfunc : Option (ℕ → World → World))
      → IsValid iu
      → length iu.vfds + 1 < 2 ^ 31
      → type % 256 ≢ 0
      → Created iu
          (slot handle type relfunc)
          (vmir_fd_create iu handle type relfunc).0
          (vmir_fd_create iu handle type relfunc).1
  vmir_fd_create-Created iu handle type relfunc ok room live = go ok.free refl
    where
      go :
          (free : List ℕ)
          → ok.free ≡ free
          → Created iu
              (slot handle type relfunc)
              (vmir_fd_create iu handle type relfunc).0
              (vmir_fd_create iu handle type relfunc).1
      go [] e =
          let end = subst (Chain iu.vfds iu.vfd_free) e ok.chain in
          rw (create_pushed iu handle type relfunc end) (
            pushed-Created iu (slot handle type relfunc) ok end
              (λ i u at z. subst (In i) e (ok.complete i u at z)) room live)
      go (fd ∷ free) e =
          let (h, v, at, z, chain) = subst (Chain iu.vfds iu.vfd_free) e ok.chain in
          let lt = get_elem?-lt iu.vfds fd at in
          rw (create_reused iu handle type fd relfunc v h (omega (arith, ok.small)) at) (
            reused-Created iu v (slot handle type relfunc) fd free ok at z live chain
              (subst Distinct e ok.distinct)
              (λ i u at1 z1. subst (In i) e (ok.complete i u at1 z1)))
