-- ===== src/Tests/Tables.antt =====
-- The table of open files under a file system that counts what it closes.
use vmir.Common.{
  ℕ, zero, suc, ◌+◌, ◌≡◌, refl, none, some, List, [], ◌∷◌, arith, get_elem?, length, ◌⊎◌, inl,
}
use vmir.Files.{minus_one, Vfd, Fds, FsOps, vfd_get, vmir_fd_create, vmir_fd_close, freelist}
use vmir.Files.Table.{In, IsValid, slot}
use vmir.Files.Contract.{Created, vmir_fd_create-Created}
use vmir.Files.Closing.{Closed, vmir_fd_close-Closed}
use vmir.Files.Posix.{
  find_mode, modetable, vmir_open, vfd_read, vfd_write, vmir_open-vmir_read, toupper, tolower,
  isdigit, isprint, toupper-tolower,
}

abbrev file0 : Vfd ℕ
file0 = record { fh = 7; release = some (λ h n. n + h); type = 1 }

abbrev closed1 : Vfd ℕ
closed1 = record { fh = minus_one; release = none; type = 0 }

-- Descriptor 0 is open, descriptor 1 is closed.
abbrev two : Fds ℕ
two = record { vfds = file0 ∷ closed1 ∷ []; vfd_free = 1 }

two-IsValid : IsValid two
unfolding freelist
two-IsValid = record {
  free = 1 ∷ [];
  chain = (refl, closed1, refl, refl, refl);
  distinct = (tt, tt);
  complete = all;
  small = omega arith;
}
  where
    all : (i : ℕ) (v : Vfd ℕ) → get_elem? two.vfds i ≡ some v → v.type ≡ 0 → In i (1 ∷ [])
    all zero v e z = absurd (ground arith)
    all (suc zero) v e z = inl refl
    all (suc (suc i)) v e z = absurd (cc)

abbrev fsops : FsOps ℕ
fsops = record {
  open_file = λ path flags n. ((0, 40 + length path), n);
  close_file = λ h n. n + h;
  read = λ h size n. ((size, []), n);
  write = λ h buf n. (length buf, n);
  seek = λ h offset whence n. (offset, n);
}

-- There is no mode `ab+`, but a mode `b+`.
no_ab_plus : find_mode (97 ∷ 98 ∷ 43 ∷ []) modetable ≡ 0
unfolding find_mode modetable
no_ab_plus = refl

vmir_fd_create-Created_example :
    Created two
      (slot 9 258 none)
      (vmir_fd_create two 9 258 none).0
      (vmir_fd_create two 9 258 none).1
vmir_fd_create-Created_example =
    vmir_fd_create-Created two 9 258 none two-IsValid (omega arith) (omega arith)

vmir_fd_close-Closed_example :
    ((vfd_get two 0 minus_one ≡ none) × (vmir_fd_close two 5 0 ≡ (two, 5)))
    ⊎ ((vfd : Vfd ℕ) × (vfd_get two 0 minus_one ≡ some vfd)
        × Closed two 5 vfd 0 (vmir_fd_close two 5 0).0 (vmir_fd_close two 5 0).1)
vmir_fd_close-Closed_example = vmir_fd_close-Closed two 5 0 two-IsValid

vmir_open-vmir_read_example :
    (fd : ℕ) × (iu' : Fds ℕ) × (vmir_open fsops two 5 (47 ∷ []) 66 ≡ (fd, iu', 5))
    × ((t : ℕ) → vfd_get two fd t ≡ none)
    × ((u size : ℕ) → vfd_read fsops iu' u fd size ≡ fsops.read 41 size u)
    × ((u : ℕ) (buf : List ℕ) → vfd_write fsops iu' u fd buf ≡ fsops.write 41 buf u)
    × ((u : ℕ) → (vmir_fd_close iu' u fd).1 ≡ fsops.close_file 41 u)
vmir_open-vmir_read_example =
    vmir_open-vmir_read fsops two 5 5 (47 ∷ []) 66 41 two-IsValid (omega arith) refl

toupper-tolower_example :
    (toupper (tolower 65) ≡ toupper 65)
    × (tolower (toupper 65) ≡ tolower 65)
    × (toupper (toupper 65) ≡ toupper 65)
    × (isdigit (toupper 65) ≡ isdigit 65)
    × (isprint (toupper 65) ≡ isprint 65)
toupper-tolower_example = toupper-tolower 65
