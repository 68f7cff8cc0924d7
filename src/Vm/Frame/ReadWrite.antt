-- ===== src/Vm/Frame/ReadWrite.antt =====
-- Reads after writes of the registers of src/vmir_vm.c.
use vmir.Common.{ℕ, ◌+◌, ◌*◌, ◌/◌, ◌%◌, ◌^◌, ◌≤◌, ◌<◌, ◌≡◌, ◌∙◌, ap, ◌⊎◌, inl, inr, arith}
use vmir.Vm.Frame.{Frame, reg_addr, peek32, poke32, rd32, rd64, wr32, wr64}

-- Two frames are the same but for `n` bytes from `a` on.
abbrev pub SameBut : (a n : ℕ) → Frame → Frame → Type 0
SameBut a n m m' = (k : ℕ) → (k < a) ⊎ (a + n ≤ k) → m' k ≡ m k

-- The bytes of a word.
bytes32 :
    (v : ℕ)
    → v % 2 ^ 8
        + v / 2 ^ 8 % 2 ^ 8 * 2 ^ 8
        + v / 2 ^ 16 % 2 ^ 8 * 2 ^ 16
        + v / 2 ^ 24 % 2 ^ 8 * 2 ^ 24
      ≡ v % 2 ^ 32
bytes32 v = omega arith

peek32-poke32 : (m : Frame) (a v : ℕ) → peek32 (poke32 m a v) a ≡ v % 2 ^ 32
unfolding peek32 poke32
peek32-poke32 m a v = ground (arith, bytes32 v)

poke32-SameBut : (m : Frame) (a v : ℕ) → SameBut a 4 m (poke32 m a v)
unfolding poke32
poke32-SameBut m a v k (inl h) = ground arith
poke32-SameBut m a v k (inr h) = ground arith

pub peek32-lt : (m : Frame) (a : ℕ) → peek32 m a < 2 ^ 32
unfolding peek32
peek32-lt m a = omega arith

pub rd32-lt : (m : Frame) (reg : ℕ) → rd32 m reg < 2 ^ 32
unfolding rd32
rd32-lt m reg = peek32-lt m (reg_addr reg)

pub rd64-lt : (m : Frame) (reg : ℕ) → rd64 m reg < 2 ^ 64
unfolding rd64
rd64-lt m reg = omega (arith, peek32-lt m (reg_addr reg), peek32-lt m (reg_addr reg + 4))

pub rd32-wr32 : (m : Frame) (reg v : ℕ) → rd32 (wr32 m reg v) reg ≡ v % 2 ^ 32
unfolding rd32 wr32
rd32-wr32 m reg v = peek32-poke32 m (reg_addr reg) v

-- A word that is 4 bytes below the one written is kept.
peek32-poke32_below : (m : Frame) (a v : ℕ) → peek32 (poke32 m (a + 4) v) a ≡ peek32 m a
unfolding peek32 poke32
peek32-poke32_below m a v = ground arith

pub rd64-wr64 : (m : Frame) (reg v : ℕ) → rd64 (wr64 m reg v) reg ≡ v % 2 ^ 64
unfolding rd64 wr64
rd64-wr64 m reg v =
    let at = reg_addr reg in
    omega (
      arith,
      peek32-poke32_below (poke32 m at v) at (v / 2 ^ 32),
      peek32-poke32 m at v,
      peek32-poke32 (poke32 m at v) (at + 4) (v / 2 ^ 32),
    )

pub wr32-SameBut : (m : Frame) (reg v : ℕ) → SameBut (reg_addr reg) 4 m (wr32 m reg v)
unfolding wr32
wr32-SameBut m reg v = poke32-SameBut m (reg_addr reg) v

pub wr64-SameBut : (m : Frame) (reg v : ℕ) → SameBut (reg_addr reg) 8 m (wr64 m reg v)
unfolding wr64
wr64-SameBut m reg v k (inl h) =
    let at = reg_addr reg in
    poke32-SameBut (poke32 m at v) (at + 4) (v / 2 ^ 32) k (inl (omega arith))
    ∙ poke32-SameBut m at v k (inl (omega arith))
wr64-SameBut m reg v k (inr h) =
    let at = reg_addr reg in
    poke32-SameBut (poke32 m at v) (at + 4) (v / 2 ^ 32) k (inr (omega arith))
    ∙ poke32-SameBut m at v k (inr (omega arith))

-- A register's number is its low 16 bits.
half-reg_addr : (reg : ℕ) → reg_addr (reg % 2 ^ 16) ≡ reg_addr reg
half-reg_addr reg = omega arith

pub rd32-half : (m : Frame) (reg : ℕ) → rd32 m (reg % 2 ^ 16) ≡ rd32 m reg
unfolding rd32
rd32-half m reg = ap (peek32 m) (half-reg_addr reg)

pub rd64-half : (m : Frame) (reg : ℕ) → rd64 m (reg % 2 ^ 16) ≡ rd64 m reg
unfolding rd64
rd64-half m reg = ap (λ a. peek32 m a + peek32 m (a + 4) * 2 ^ 32) (half-reg_addr reg)

pub wr32-half : (m : Frame) (reg v : ℕ) → wr32 m (reg % 2 ^ 16) v ≡ wr32 m reg v
unfolding wr32
wr32-half m reg v = ap (λ a. poke32 m a v) (half-reg_addr reg)

pub wr64-half : (m : Frame) (reg v : ℕ) → wr64 m (reg % 2 ^ 16) v ≡ wr64 m reg v
unfolding wr64
wr64-half m reg v = ap (λ a. poke32 (poke32 m a v) (a + 4) (v / 2 ^ 32)) (half-reg_addr reg)
