-- ===== src/Argv.antt =====
-- src/vmir_bitstream.c: the readers of a record's arguments. `argv` is the list of the 64-bit
-- patterns that the record carries, `argc` its length.
pub mod Strings
pub mod SignRotated
use vmir.Common.{
  ℕ, zero, suc, ◌+◌, ◌-◌, ◌*◌, ◌/◌, ◌%◌, ◌^◌, Bool, true, false, Option, none, some, List, [], ◌∷◌,
  ◌==◌, if◌then◌else◌, map,
}

-- The first loop of read_zstr_from_argv: the arguments before the first zero, and those behind it.
unfoldable pub split_zero : List ℕ → Option (List ℕ × List ℕ)
split_zero [] = none
split_zero (a ∷ argv) =
    let later : Option (List ℕ × List ℕ) = elim (split_zero argv) [
      | none ↦ none
      | some (s, rest) ↦ some (a ∷ s, rest)
    ] in
    if a == 0 then some ([], argv) else later

-- A `char` keeps the low byte of an argument.
abbrev pub to_char : ℕ → ℕ
to_char a = a % 256

-- The string with its terminator, and the arguments that are left; NULL (none) where no zero stands.
unfoldable pub read_zstr_from_argv : List ℕ → Option (List ℕ × List ℕ)
read_zstr_from_argv argv = elim (split_zero argv) [
  | none ↦ none
  | some (s, rest) ↦ some (map to_char s, rest)
]

-- Every argument is a character of the string.
unfoldable pub read_str_from_argv : List ℕ → List ℕ
read_str_from_argv argv = map to_char argv

-- The bit pattern of the `int64_t` that is returned: `-(u64 >> 1)` is a negation of words.
unfoldable pub read_sign_rotated : ℕ → ℕ
read_sign_rotated u64 =
    if u64 % 2 == 0 then u64 / 2 else if u64 == 1 then 2 ^ 63 else (2 ^ 64 - u64 / 2) % 2 ^ 64
