-- ===== src/Files/Closing.antt =====
-- src/vmir_libc.c: what vmir_fd_create and vmir_fd_close promise of the table of live files.
use vmir.Common.{
  ℕ, ◌^◌, ◌<◌, ◌≡◌, ◌≢◌, refl, sym, ◌∙◌, ap, subst, Option, none, some, List, [], ◌∷◌, get_elem?,
  length, set, All, get_elem?-set_self, get_elem?-set_ne, get_elem?-lt, length-set, arith, ◌⊎◌, inl,
  inr, Option-cases,
}
use vmir.Files.{
  minus_one, Vfd, Fds, freelist, set_freelist, checked, vfd_get, vmir_fd_create, run_release,
  close_slot, vmir_fd_close,
}
use vmir.Files.Table.{Chain, IsValid, Chain-set, checked_closed, checked-some, create_reused}
use vmir.Files.Contract.{some-injective, after_set}

module _ {World : Type 0} where
  freelist-set_freelist : (n : ℕ) (v : Vfd World) → n < 2 ^ 32 → freelist (set_freelist n v) ≡ n
  unfolding freelist set_freelist
  freelist-set_freelist n v h = omega arith

  -- What is left of an open descriptor `fd` that held `vfd`: it is closed, its release function ran once
  -- on its handle, nothing changed for the others, and the next file gets its number.
  pub record Closed (iu : Fds World) (w : World) (vfd : Vfd World) (fd : ℕ) (iu' : Fds World)
      (w' : World) : Type 0 where
    pub closed : (t : ℕ) → vfd_get iu' fd t ≡ none
    pub others : (j t : ℕ) → j ≢ fd → vfd_get iu' j t ≡ vfd_get iu j t
    pub released : w' ≡ run_release vfd w
    pub valid : IsValid iu'
    pub next :
        (handle type : ℕ) (relfunc : Option (ℕ → World → World))
        → (vmir_fd_create iu' handle type relfunc).0 ≡ fd

  not_in-Chain :
      (vfds : List (Vfd World)) (head fd : ℕ) (free : List ℕ) (v : Vfd World)
      → get_elem? vfds fd ≡ some v
      → v.type ≢ 0
      → Chain vfds head free
      → All (λ y. y ≢ fd) free
  not_in-Chain vfds head fd [] v at live c = tt
  not_in-Chain vfds head fd (x ∷ free) v at live (h, u, at1, z, c) = (
    λ e. live (
        ap (λ (y : Vfd World). y.type)
          (some-injective (sym at ∙ subst (λ j. get_elem? vfds j ≡ some u) e at1))
        ∙ z),
    not_in-Chain vfds (freelist u) fd free v at live c,
  )

  head_small :
      (vfds : List (Vfd World)) (head : ℕ) (free : List ℕ)
      → length vfds < 2 ^ 31
      → Chain vfds head free
      → head < 2 ^ 32
  head_small vfds head [] h c = omega arith
  head_small vfds head (x ∷ free) h (e, u, at, z, c) = omega (arith, get_elem?-lt vfds x at)

  open-Closed :
      (iu : Fds World) (w : World) (vfd : Vfd World) (fd : ℕ)
      → IsValid iu
      → get_elem? iu.vfds fd ≡ some vfd
      → vfd.type ≢ 0
      → Closed iu w vfd fd
          (record {
            vfds = set iu.vfds fd (set_freelist iu.vfd_free (record vfd { type = 0 }));
            vfd_free = fd;
          })
          (run_release vfd w)
  unfolding vfd_get set_freelist
  open-Closed iu w vfd fd ok at live = record {
    closed = λ t. ap (checked t) self ∙ checked_closed t left refl;
    others = λ j t ne. ap (checked t) (get_elem?-set_ne iu.vfds left (λ p. ne (sym p)));
    released = refl;
    valid = record {
      free = fd ∷ ok.free;
      chain = (
        refl,
        left,
        self,
        refl,
        subst (λ h. Chain vfds1 h ok.free) (sym next)
            (Chain-set iu.vfds iu.vfd_free fd ok.free left others ok.chain),
      );
      distinct = (others, ok.distinct);
      complete = λ i u e z. elim (after_set iu.vfds fd i left u lt e) [
        | inl (p, q) ↦ inl p
        | inr (n, e1) ↦ inr (ok.complete i u e1 z)
      ];
      small = rw (length-set iu.vfds fd left) ok.small;
    };
    next = λ handle type relfunc.
        ap (λ (r : ℕ × Fds World). r.0)
          (create_reused (record { vfds = vfds1; vfd_free = fd }) handle type fd relfunc left refl
            (omega (arith, ok.small, lt)) self);
  }
    where
      left : Vfd World
      left = set_freelist iu.vfd_free (record vfd { type = 0 })

      vfds1 : List (Vfd World)
      vfds1 = set iu.vfds fd left

      lt : fd < length iu.vfds
      lt = get_elem?-lt iu.vfds fd at

      self : get_elem? vfds1 fd ≡ some left
      self = get_elem?-set_self iu.vfds fd left lt

      others : All (λ y. y ≢ fd) ok.free
      others = not_in-Chain iu.vfds iu.vfd_free fd ok.free vfd at live ok.chain

      next : freelist left ≡ iu.vfd_free
      next =
          freelist-set_freelist iu.vfd_free (record vfd { type = 0 })
            (head_small iu.vfds iu.vfd_free ok.free ok.small ok.chain)

  opened :
      (iu : Fds World) (fd : ℕ) (vfd : Vfd World)
      → vfd_get iu fd minus_one ≡ some vfd
      → (get_elem? iu.vfds fd ≡ some vfd) × (vfd.type ≢ 0)
  unfolding vfd_get
  opened iu fd vfd e = checked-some minus_one (get_elem? iu.vfds fd) vfd e

  -- On a valid table, vmir_fd_close changes nothing for a descriptor that is not open; one that is
  -- open is closed, its release function runs once on its handle, the others stay as they were, the
  -- table stays valid, and the next descriptor created is the one that was closed.
  pub vmir_fd_close-Closed :
      (iu : Fds World) (w : World) (fd : ℕ)
      → IsValid iu
      → ((vfd_get iu fd minus_one ≡ none) × (vmir_fd_close iu w fd ≡ (iu, w)))
        ⊎ ((vfd : Vfd World) × (vfd_get iu fd minus_one ≡ some vfd)
            × Closed iu w vfd fd (vmir_fd_close iu w fd).0 (vmir_fd_close iu w fd).1)
  unfolding vmir_fd_close close_slot
  vmir_fd_close-Closed iu w fd ok = elim (Option-cases (vfd_get iu fd minus_one)) [
    | inl e ↦ inl (e, ap (close_slot iu w fd) e)
    | inr (vfd, e) ↦ inr (
        let (at, live) = opened iu fd vfd e in
        (
          vfd,
          e,
          subst (λ r. Closed iu w vfd fd (r.0) (r.1)) (sym (ap (close_slot iu w fd) e))
              (open-Closed iu w vfd fd ok at live),
        ))
  ]
