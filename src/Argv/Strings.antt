-- ===== src/Argv/Strings.antt =====
-- Strings that are carried as arguments.
use vmir.Common.{ℕ, ◌<◌, ◌≡◌, refl, ◌≢◌, none, some, List, [], ◌∷◌, ◌++◌, map, All, arith}
use vmir.Argv.{split_zero, read_zstr_from_argv, to_char}

-- A character of a C string.
abbrev pub IsChar : ℕ → Type 0
IsChar c = (0 < c) × (c < 256)

map-to_char : (s : List ℕ) → All IsChar s → map to_char s ≡ s
map-to_char [] h = refl
map-to_char (c ∷ s) h = ground (arith, map-to_char s h.1)

split_zero_lem : (s rest : List ℕ) → All IsChar s → split_zero (s ++ 0 ∷ rest) ≡ some (s, rest)
unfolding split_zero
split_zero_lem [] rest h = refl
split_zero_lem (c ∷ s) rest h = ground (arith, split_zero_lem s rest h.1)

-- A string of characters other than 0, terminated and followed by other arguments, is read back,
-- and the others are left.
pub read_zstr_from_argv-append :
    (s rest : List ℕ) → All IsChar s → read_zstr_from_argv (s ++ 0 ∷ rest) ≡ some (s, rest)
unfolding read_zstr_from_argv
read_zstr_from_argv-append s rest h = ground (arith, split_zero_lem s rest h, map-to_char s h)

split_zero-none : (argv : List ℕ) → All (λ a. a ≢ 0) argv → split_zero argv ≡ none
unfolding split_zero
split_zero-none [] h = refl
split_zero-none (a ∷ argv) h = ground (arith, split_zero-none argv h.1)
