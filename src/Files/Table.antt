-- ===== src/Files/Table.antt =====
-- src/vmir_libc.c: the table of open files against its abstract view, a map of descriptors.
use vmir.Common.{
  ℕ, ◌%◌, ◌^◌, ◌<◌, ◌≡◌, ◌≢◌, refl, sym, ◌∙◌, ap, false, Option, none, some, List, [], ◌∷◌, ◌++◌,
  ◌==◌, get_elem?, length, set, All, get_elem?-set_self, get_elem?-set_ne, get_elem?-append_self,
  get_elem?-append_lt, get_elem?-lt, arith, ◌⊎◌, set-set, set-append_self, get_or-some,
}
use vmir.Files.{minus_one, Vfd, Fds, freelist, no_vfd, vfd_create, install, checked, vmir_fd_create}

-- `i` is one of the list.
abbrev pub In : ℕ → List ℕ → Type 0
In i [] = ⊥
In i (x ∷ xs) = (i ≡ x) ⊎ In i xs

abbrev pub Distinct : List ℕ → Type 0
Distinct [] = Unit {0}
Distinct (x ∷ xs) = All (λ y. y ≢ x) xs × Distinct xs

module _ {World : Type 0} where
  -- The closed descriptors, from `head` on along `freelist`.
  abbrev pub Chain : List (Vfd World) → ℕ → List ℕ → Type 0
  Chain vfds head [] = head ≡ minus_one
  Chain vfds head (fd ∷ fds) =
      (head ≡ fd)
      × (v : Vfd World) × (get_elem? vfds fd ≡ some v)
      × (v.type ≡ 0)
      × Chain vfds (freelist v) fds

  -- The chain visits every closed descriptor, and none twice.
  pub record IsValid (iu : Fds World) : Type 0 where
    pub free : List ℕ
    pub chain : Chain iu.vfds iu.vfd_free free
    pub distinct : Distinct free
    pub complete : (i : ℕ) (v : Vfd World) → get_elem? iu.vfds i ≡ some v → v.type ≡ 0 → In i free
    pub small : length iu.vfds < 2 ^ 31

  pub Chain-set :
      (vfds : List (Vfd World)) (head fd : ℕ) (free : List ℕ) (v : Vfd World)
      → All (λ y. y ≢ fd) free
      → Chain vfds head free
      → Chain (set vfds fd v) head free
  Chain-set vfds head fd [] v h c = c
  Chain-set vfds head fd (x ∷ free) v (ne, h) (e, u, at, t, c) = (
    e,
    u,
    get_elem?-set_ne vfds v (λ p. ne (sym p)) ∙ at,
    t,
    Chain-set vfds (freelist u) fd free v h c,
  )

  pub Chain-append :
      (vfds : List (Vfd World)) (head : ℕ) (free : List ℕ) (v : Vfd World)
      → Chain vfds head free
      → Chain (vfds ++ v ∷ []) head free
  Chain-append vfds head [] v c = c
  Chain-append vfds head (x ∷ free) v (e, u, at, t, c) = (
    e,
    u,
    get_elem?-append_lt vfds (v ∷ []) x (get_elem?-lt vfds x at) ∙ at,
    t,
    Chain-append vfds (freelist u) free v c,
  )

  pub checked_closed : (t : ℕ) (v : Vfd World) → v.type ≡ 0 → checked t (some v) ≡ none
  unfolding checked
  checked_closed t v h = rw h refl

  pub checked_open : (v : Vfd World) → v.type ≢ 0 → checked minus_one (some v) ≡ some v
  unfolding checked
  checked_open v h = ground arith

  -- A slot that passes is open, and is the slot itself.
  pub checked-some :
      (t : ℕ) (o : Option (Vfd World)) (v : Vfd World)
      → checked t o ≡ some v
      → (o ≡ some v) × (v.type ≢ 0)
  unfolding checked
  checked-some t none v e = absurd (cc)
  checked-some t (some u) v e = ground arith

  -- The slot of a new file.
  abbrev pub slot : (handle type : ℕ) → Option (ℕ → World → World) → Vfd World
  slot handle type relfunc = record { fh = handle; release = relfunc; type = type % 256 }

  pub create_pushed :
      (iu : Fds World) (handle type : ℕ) (relfunc : Option (ℕ → World → World))
      → iu.vfd_free ≡ minus_one
      → vmir_fd_create iu handle type relfunc
        ≡ (length iu.vfds, record iu { vfds = iu.vfds ++ slot handle type relfunc ∷ [] })
  unfolding vmir_fd_create vfd_create install
  create_pushed iu handle type relfunc h = ap (install handle relfunc) created ∙ installed
    where
      new : Vfd World
      new = record no_vfd { type = type % 256 }

      created : vfd_create iu type ≡ (length iu.vfds, record iu { vfds = iu.vfds ++ new ∷ [] })
      created = rw h refl

      installed :
          install handle relfunc (length iu.vfds, record iu { vfds = iu.vfds ++ new ∷ [] })
          ≡ (length iu.vfds, record iu { vfds = iu.vfds ++ slot handle type relfunc ∷ [] })
      installed =
          rw
            (
              get_or-some (iu.vfds ++ new ∷ []) (length iu.vfds) no_vfd
                  (get_elem?-append_self iu.vfds new),
              set-append_self iu.vfds new (slot handle type relfunc),
            )
            refl

  pub create_reused :
      (iu : Fds World) (handle type fd : ℕ) (relfunc : Option (ℕ → World → World)) (v : Vfd World)
      → iu.vfd_free ≡ fd
      → fd < 2 ^ 31
      → get_elem? iu.vfds fd ≡ some v
      → vmir_fd_create iu handle type relfunc
        ≡ (fd, record { vfds = set iu.vfds fd (slot handle type relfunc); vfd_free = freelist v })
  unfolding vmir_fd_create vfd_create install
  create_reused iu handle type fd relfunc v h lt at =
      ap (install handle relfunc) created ∙ installed
    where
      reused : List (Vfd World)
      reused = set iu.vfds fd (record v { type = type % 256 })

      not_end : (fd == minus_one) ≡ false
      not_end = ground arith

      created : vfd_create iu type ≡ (fd, record { vfds = reused; vfd_free = freelist v })
      created = rw (h, not_end, get_or-some iu.vfds fd no_vfd at) refl

      installed :
          install handle relfunc (fd, record { vfds = reused; vfd_free = freelist v })
          ≡ (fd, record { vfds = set iu.vfds fd (slot handle type relfunc); vfd_free = freelist v })
      installed =
          rw
            (
              get_or-some reused fd no_vfd (
                  get_elem?-set_self iu.vfds fd (record v { type = type % 256 })
                    (get_elem?-lt iu.vfds fd at)),
              set-set iu.vfds fd (record v { type = type % 256 }) (slot handle type relfunc),
            )
            refl
