-- ===== src/Files.antt =====
-- src/vmir_libc.c: the table of open files of a unit, and the calls that go through it. The file
-- system (`iu_fsops` with `iu_opaque`) is the embedder's: `World` is its state, and a call of it is a
-- parameter. An `int` is its 32-bit pattern, a handle the 64-bit pattern of an `intptr_t`.
pub mod Table
pub mod Contract
pub mod Closing
pub mod Posix
use vmir.Common.{
  ℕ, zero, suc, ◌+◌, ◌-◌, ◌*◌, ◌/◌, ◌%◌, ◌^◌, Bool, true, false, not, ◌&&◌, Option, none, some,
  List, [], ◌∷◌, ◌++◌, ◌==◌, if◌then◌else◌, get_elem?, get_or, length, set,
}

-- -1 as an `int`.
abbrev pub minus_one : ℕ
minus_one = 2 ^ 32 - 1

-- vmir_fd_t. `fh` is the word of the union, whose low half is `freelist`, as on a host with 64-bit
-- pointers and the low half first. A `release` of C gets the unit; here it gets the world, so one that
-- opens or closes descriptors itself is not covered. The one of the source closes a file handle.
pub record Vfd (World : Type 0) : Type 0 where
  pub fh : ℕ
  pub release : Option (ℕ → World → World)
  pub type : ℕ

-- The two fields of the unit: the table, and the first closed descriptor or -1.
pub record Fds (World : Type 0) : Type 0 where
  pub vfds : List (Vfd World)
  pub vfd_free : ℕ

-- vmir_fsops_t, as far as the calls below use it. `open_file` gives an error code and a handle.
pub record FsOps (World : Type 0) : Type 0 where
  pub open_file : (path : List ℕ) → (flags : ℕ) → World → (ℕ × ℕ) × World
  pub close_file : (fh : ℕ) → World → World
  pub read : (fh size : ℕ) → World → (ℕ × List ℕ) × World
  pub write : (fh : ℕ) → (buf : List ℕ) → World → ℕ × World
  pub seek : (fh offset whence : ℕ) → World → ℕ × World

-- VMIR_FD_TYPE_FILEHANDLE
abbrev pub filehandle : ℕ
filehandle = 1

module _ {World : Type 0} where
  unfoldable pub freelist : Vfd World → ℕ
  freelist v = v.fh % 2 ^ 32

  unfoldable pub set_freelist : ℕ → Vfd World → Vfd World
  set_freelist n v = record v { fh = v.fh / 2 ^ 32 * 2 ^ 32 + n }

  -- `vmir_fd_t vfd = {}`
  unfoldable pub no_vfd : Vfd World
  no_vfd = record { fh = 0; release = none; type = 0 }

  -- The slot that vfd_create writes the type to, and the table with it. The list of closed descriptors
  -- holds places of the table only, so `no_vfd` is not read for one.
  unfoldable pub vfd_create : Fds World → (type : ℕ) → ℕ × Fds World
  unfolding freelist no_vfd
  vfd_create iu type =
      if iu.vfd_free == minus_one
      then (
        length iu.vfds,
        record iu { vfds = iu.vfds ++ record no_vfd { type = type % 256 } ∷ [] },
      )
      else (let v = get_or iu.vfds iu.vfd_free no_vfd in
          (
            iu.vfd_free,
            record {
              vfds = set iu.vfds iu.vfd_free (record v { type = type % 256 });
              vfd_free = freelist v;
            },
          ))

  -- The tests of vfd_get on the slot, if there is one.
  unfoldable pub checked : (type : ℕ) → Option (Vfd World) → Option (Vfd World)
  checked type none = none
  checked type (some v) =
      if v.type == 0
      then none
      else if not (type == minus_one) && not (v.type == type)
      then none
      else some v

  unfoldable pub vfd_get : Fds World → (fd type : ℕ) → Option (Vfd World)
  unfolding checked
  vfd_get iu fd type = checked type (get_elem? iu.vfds fd)

  unfoldable pub vmir_fd_get : Fds World → (fd type : ℕ) → ℕ
  unfolding vfd_get
  vmir_fd_get iu fd type = elim (vfd_get iu fd type) [ none ↦ 0 | some vfd ↦ vfd.fh ]

  -- What vmir_fd_create does with the descriptor that it got.
  unfoldable pub install :
      (handle : ℕ) → (relfunc : Option (ℕ → World → World)) → ℕ × Fds World → ℕ × Fds World
  unfolding no_vfd
  install handle relfunc (fd, iu) =
      let v = get_or iu.vfds fd no_vfd in
      (fd, record iu { vfds = set iu.vfds fd (record v { fh = handle; release = relfunc }) })

  unfoldable pub vmir_fd_create :
      Fds World → (handle type : ℕ) → (relfunc : Option (ℕ → World → World)) → ℕ × Fds World
  unfolding vfd_create install
  vmir_fd_create iu handle type relfunc = install handle relfunc (vfd_create iu type)

  -- The call of the release function, if there is one.
  unfoldable pub run_release : Vfd World → World → World
  run_release vfd w = elim vfd.release [ none ↦ w | some release ↦ release vfd.fh w ]

  -- What vmir_fd_close does with the slot that vfd_get gave.
  unfoldable pub close_slot : Fds World → World → (fd : ℕ) → Option (Vfd World) → Fds World × World
  unfolding run_release set_freelist
  close_slot iu w fd none = (iu, w)
  close_slot iu w fd (some vfd) = (
    record {
      vfds = set iu.vfds fd (set_freelist iu.vfd_free (record vfd { type = 0 }));
      vfd_free = fd;
    },
    run_release vfd w,
  )

  unfoldable pub vmir_fd_close : Fds World → World → (fd : ℕ) → Fds World × World
  unfolding vfd_get close_slot
  vmir_fd_close iu w fd = close_slot iu w fd (vfd_get iu fd minus_one)

  unfoldable pub vmir_fd_create_fh :
      FsOps World → Fds World → (handle : ℕ) → (closable : Bool) → ℕ × Fds World
  unfolding vmir_fd_create
  vmir_fd_create_fh fsops iu handle closable =
      vmir_fd_create iu handle filehandle (if closable then some fsops.close_file else none)

  -- What vfd_open does with the error code and the handle.
  unfoldable pub open_result : FsOps World → Fds World → (ℕ × ℕ) × World → ℕ × Fds World × World
  unfolding vmir_fd_create_fh
  open_result fsops iu ((error, fh), w) =
      let r = vmir_fd_create_fh fsops iu fh true in
      if error == 0 then (r.0, r.1, w) else (minus_one, iu, w)

  unfoldable pub vfd_open : FsOps World → Fds World → World → List ℕ → ℕ → ℕ × Fds World × World
  unfolding open_result
  vfd_open fsops iu w path flags = open_result fsops iu (fsops.open_file path flags w)
