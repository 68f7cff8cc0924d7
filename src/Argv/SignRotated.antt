-- ===== src/Argv/SignRotated.antt =====
-- The sign-rotated form of a 64-bit integer, and `read_sign_rotated` as its reader.
use vmir.Common.{ℕ, ◌+◌, ◌-◌, ◌*◌, ◌^◌, ◌<◌, ◌≡◌, ◌==◌, ltb, if◌then◌else◌, arith}
use vmir.Argv.{read_sign_rotated}

-- LLVM's form of the integer with the 64-bit pattern `w`: the magnitude shifted up, and the sign in
-- the lowest bit. The least integer has no magnitude in 63 bits and is written as 1.
unfoldable pub sign_rotated : ℕ → ℕ
sign_rotated w = if ltb w (2 ^ 63) then 2 * w else if w == 2 ^ 63 then 1 else 2 * (2 ^ 64 - w) + 1

-- Reading the rotated form of a 64-bit integer gives back its pattern.
pub read_sign_rotated-sign_rotated : (w : ℕ) → w < 2 ^ 64 → read_sign_rotated (sign_rotated w) ≡ w
unfolding read_sign_rotated sign_rotated
read_sign_rotated-sign_rotated w h = ground arith

-- Every 64-bit argument is the form of what is read from it.
pub sign_rotated-read_sign_rotated : (u : ℕ) → u < 2 ^ 64 → sign_rotated (read_sign_rotated u) ≡ u
unfolding read_sign_rotated sign_rotated
sign_rotated-read_sign_rotated u h = ground arith
