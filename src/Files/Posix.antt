-- ===== src/Files/Posix.antt =====
-- src/vmir_libc.c: the posix calls on descriptors, the modes of `fopen`, and the tests on characters.
-- A buffer in the memory of the unit is the list of its bytes.
use vmir.Common.{
  ℕ, ◌+◌, ◌-◌, ◌/◌, ◌%◌, ◌^◌, ◌<◌, ◌≡◌, ap, Bool, true, false, ◌&&◌, Option, none, some, List, [],
  ◌∷◌, leb, ◌==◌, if◌then◌else◌, get_elem?, length, arith,
}
use Prim.Native.Nat.{bit_or}
use vmir.Files.{
  minus_one, filehandle, Fds, FsOps, checked, vfd_get, open_result, vfd_open, vmir_fd_create,
  vmir_fd_create_fh, vmir_fd_close, run_release, close_slot,
}
use vmir.Files.Table.{IsValid, slot, checked-some}
use vmir.Files.Contract.{Created, vmir_fd_create-Created}

-- vmir_openflags_t
abbrev fs_read : ℕ
fs_read = 1

abbrev fs_write : ℕ
fs_write = 2

abbrev fs_rw : ℕ
fs_rw = 3

abbrev fs_create : ℕ
fs_create = 4

abbrev fs_trunc : ℕ
fs_trunc = 8

abbrev fs_append : ℕ
fs_append = 16

-- The flags that vmir_open passes on: bit 6 of `flags` is O_CREAT, its low two bits are the access.
unfoldable pub open_flags : ℕ → ℕ
open_flags flags =
    bit_or (if flags / 64 % 2 == 1 then fs_create else 0)
      (if flags / 2 % 2 == 1 then fs_rw else if flags % 2 == 1 then fs_write else fs_read)

-- -1 as a `ssize_t` or `int64_t`.
abbrev pub minus_one64 : ℕ
minus_one64 = 2 ^ 64 - 1

module _ {World : Type 0} (fsops : FsOps World) where
  unfoldable pub vfd_read : Fds World → World → (fd size : ℕ) → (ℕ × List ℕ) × World
  unfolding vfd_get
  vfd_read iu w fd size = elim (vfd_get iu fd filehandle) [
    | none ↦ ((minus_one64, []), w)
    | some vfd ↦ fsops.read vfd.fh size w
  ]

  unfoldable pub vfd_write : Fds World → World → (fd : ℕ) → (buf : List ℕ) → ℕ × World
  unfolding vfd_get
  vfd_write iu w fd buf = elim (vfd_get iu fd filehandle) [
    | none ↦ (minus_one64, w)
    | some vfd ↦ fsops.write vfd.fh buf w
  ]

  unfoldable pub vfd_seek : Fds World → World → (fd offset whence : ℕ) → ℕ × World
  unfolding vfd_get
  vfd_seek iu w fd offset whence = elim (vfd_get iu fd filehandle) [
    | none ↦ (minus_one64, w)
    | some vfd ↦ fsops.seek vfd.fh offset whence w
  ]

  unfoldable pub vmir_open :
      Fds World → World → (path : List ℕ) → (flags : ℕ) → ℕ × Fds World × World
  unfolding vfd_open open_flags
  vmir_open iu w path flags = vfd_open fsops iu w path (open_flags flags)

  -- The result is returned as 32 bits.
  unfoldable pub vmir_read : Fds World → World → (fd nbyte : ℕ) → (ℕ × List ℕ) × World
  unfolding vfd_read
  vmir_read iu w fd nbyte = let ((r, buf), w1) = vfd_read iu w fd nbyte in ((r % 2 ^ 32, buf), w1)

  unfoldable pub vmir_write : Fds World → World → (fd : ℕ) → (buf : List ℕ) → ℕ × World
  unfolding vfd_write
  vmir_write iu w fd buf = let (r, w1) = vfd_write iu w fd buf in (r % 2 ^ 32, w1)

  unfoldable pub vmir_lseek : Fds World → World → (fd offset whence : ℕ) → ℕ × World
  unfolding vfd_seek
  vmir_lseek iu w fd offset whence = vfd_seek iu w fd offset whence

  unfoldable pub vmir_close : Fds World → World → (fd : ℕ) → ℕ × Fds World × World
  unfolding vmir_fd_close
  vmir_close iu w fd = let (iu1, w1) = vmir_fd_close iu w fd in (0, iu1, w1)

  -- On a valid table of fewer than 2 ^ 31 - 1 entries, opening a file that the file system opens
  -- under a handle gives a descriptor that was not open; a read and a write of the descriptor go to
  -- that handle, and closing it hands the handle back to the file system.
  pub vmir_open-vmir_read :
      (iu : Fds World) (w w1 : World) (path : List ℕ) (flags fh : ℕ)
      → IsValid iu
      → length iu.vfds + 1 < 2 ^ 31
      → fsops.open_file path (open_flags flags) w ≡ ((0, fh), w1)
      → (fd : ℕ) × (iu' : Fds World) × (vmir_open iu w path flags ≡ (fd, iu', w1))
        × ((t : ℕ) → vfd_get iu fd t ≡ none)
        × ((u : World) (size : ℕ) → vfd_read iu' u fd size ≡ fsops.read fh size u)
        × ((u : World) (buf : List ℕ) → vfd_write iu' u fd buf ≡ fsops.write fh buf u)
        × ((u : World) → (vmir_fd_close iu' u fd).1 ≡ fsops.close_file fh u)
  unfolding vmir_open vfd_open open_result vfd_read vfd_write vmir_fd_close vfd_get close_slot
      run_release vmir_fd_create_fh
  vmir_open-vmir_read iu w w1 path flags fh ok room e = (
    r.0,
    r.1,
    ap (open_result fsops iu) e,
    made.closed,
    λ u size.
        ap (λ o. elim o [ none ↦ ((minus_one64, []), u) | some vfd ↦ fsops.read vfd.fh size u ])
          got,
    λ u buf. ap (λ o. elim o [ none ↦ (minus_one64, u) | some vfd ↦ fsops.write vfd.fh buf u ]) got,
    λ u. ap (λ o. (close_slot r.1 u r.0 o).1) made.opened,
  )
    where
      r : ℕ × Fds World
      r = vmir_fd_create iu fh filehandle (some fsops.close_file)

      made : Created iu (slot fh filehandle (some fsops.close_file)) r.0 r.1
      made = vmir_fd_create-Created iu fh filehandle (some fsops.close_file) ok room (ground arith)

      got : vfd_get r.1 r.0 filehandle ≡ some (slot fh filehandle (some fsops.close_file))
      got =
          ap (checked filehandle)
            (checked-some minus_one (get_elem? (r.1).vfds r.0)
              (slot fh filehandle (some fsops.close_file)) made.opened).0

-- The flags and the modes of fopen, in the table's order: r rb w wb a ab r+ rb+ r+b w+ wb+ w+b a+ b+ a+b.
unfoldable pub modetable : List (List ℕ × ℕ)
modetable =
    let r : ℕ = 114 in
    let w : ℕ = 119 in
    let a : ℕ = 97 in
    let b : ℕ = 98 in
    let plus : ℕ = 43 in
    (r ∷ [], fs_read)
    ∷ (r ∷ b ∷ [], fs_read)
    ∷ (w ∷ [], fs_write + fs_create + fs_trunc)
    ∷ (w ∷ b ∷ [], fs_write + fs_create + fs_trunc)
    ∷ (a ∷ [], fs_write + fs_create + fs_append)
    ∷ (a ∷ b ∷ [], fs_write + fs_create + fs_append)
    ∷ (r ∷ plus ∷ [], fs_rw)
    ∷ (r ∷ b ∷ plus ∷ [], fs_rw)
    ∷ (r ∷ plus ∷ b ∷ [], fs_rw)
    ∷ (w ∷ plus ∷ [], fs_rw + fs_create + fs_trunc)
    ∷ (w ∷ b ∷ plus ∷ [], fs_rw + fs_create + fs_trunc)
    ∷ (w ∷ plus ∷ b ∷ [], fs_rw + fs_create + fs_trunc)
    ∷ (a ∷ plus ∷ [], fs_rw + fs_create + fs_append)
    ∷ (b ∷ plus ∷ [], fs_rw + fs_create + fs_append)
    ∷ (a ∷ plus ∷ b ∷ [], fs_rw + fs_create + fs_append)
    ∷ []

-- strcmp, as a test for equality.
unfoldable pub same_chars : List ℕ → List ℕ → Bool
same_chars [] [] = true
same_chars [] (d ∷ ds) = false
same_chars (c ∷ cs) [] = false
same_chars (c ∷ cs) (d ∷ ds) = (c == d) && same_chars cs ds

-- The flags of the first mode that is the same, 0 if none is.
unfoldable pub find_mode : List ℕ → List (List ℕ × ℕ) → ℕ
unfolding same_chars
find_mode mode [] = 0
find_mode mode ((name, flags) ∷ modes) =
    let later = find_mode mode modes in if same_chars mode name then flags else later

-- vFILE_open, up to the stream that the C library builds on the descriptor: none where it returns NULL.
unfoldable pub vfile_open :
    {World : Type 0}
    → FsOps World
    → Fds World
    → World
    → (path mode : List ℕ) → Option ℕ × Fds World × World
unfolding vfd_open find_mode modetable
vfile_open fsops iu w path mode =
    let flags = find_mode mode modetable in
    let r = vfd_open fsops iu w path flags in
    if flags == 0 then (none, iu, w) else (if r.0 == minus_one then none else some r.0, r.1, r.2)

unfoldable pub toupper : ℕ → ℕ
toupper c = if leb 97 c && leb c 122 then c - 32 else c

unfoldable pub tolower : ℕ → ℕ
tolower c = if leb 65 c && leb c 90 then c + 32 else c

unfoldable pub isprint : ℕ → ℕ
isprint c = if leb 32 (c % 128) && leb (c % 128) 126 then 1 else 0

unfoldable pub isdigit : ℕ → ℕ
isdigit c = if leb 48 c && leb c 57 then 1 else 0

-- On every character toupper after tolower is toupper, and the other way round; toupper is idempotent
-- and keeps what isdigit and isprint say.
pub toupper-tolower :
    (c : ℕ)
    → (toupper (tolower c) ≡ toupper c)
      × (tolower (toupper c) ≡ tolower c)
      × (toupper (toupper c) ≡ toupper c)
      × (isdigit (toupper c) ≡ isdigit c)
      × (isprint (toupper c) ≡ isprint c)
unfolding toupper tolower isdigit isprint
toupper-tolower c = (ground arith, ground arith, ground arith, ground arith, ground arith)
