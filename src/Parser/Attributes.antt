-- ===== src/Parser/Attributes.antt =====
-- src/vmir_bitcode_parser.c: the records of attribute groups and of sets of attributes.
pub mod Groups
pub mod Encoded
use vmir.Common.{
  ℕ, zero, suc, ◌+◌, ◌-◌, ◌*◌, ◌/◌, ◌%◌, ◌^◌, Bool, true, false, not, ◌&&◌, Option, none, some,
  List, [], ◌∷◌, ◌++◌, ltb, leb, ◌==◌, if◌then◌else◌, get_elem?, length,
}
use Prim.Native.Nat.{bit_or}
use vmir.Argv.{read_zstr_from_argv}
use vmir.Types.{Result, ok, err, ◌>>=◌, parser_error, uninitialised, assertion, out_of_fuel}
use vmir.Types.Records.{to_int}
use vmir.Parser.{Attr, IrUnit}

-- The arguments that are left: `argc` is a 32-bit word, `argv` the memory from the pointer on, which
-- goes on behind the record. Reading where it ends is reading what is not there.
pub record Args : Type 0 where
  pub argc : ℕ
  pub argv : List ℕ

unfoldable pub drop : ℕ → List ℕ → List ℕ
drop zero argv = argv
drop (suc n) [] = []
drop (suc n) (a ∷ argv) = drop n argv

unfoldable pub take : ℕ → List ℕ → List ℕ
take zero argv = []
take (suc n) [] = []
take (suc n) (a ∷ argv) = a ∷ take n argv

-- `argv += n; argc -= n;`
unfoldable pub advance : ℕ → Args → Args
unfolding drop
advance n a = record { argc = (a.argc + 2 ^ 32 - n) % 2 ^ 32; argv = drop n a.argv }

unfoldable pub attr_enum : (flags : ℕ) → Args → Result (ℕ × Args)
unfolding advance
attr_enum flags a = elim (a.argv) [
  | [] ↦ err uninitialised
  | kind ∷ argv ↦
      if ltb kind 64 then ok (bit_or flags (2 ^ kind), advance 1 a) else err uninitialised
]

-- An integer attribute takes two arguments, also where one is left: `argc` wraps round then, and the
-- loop goes on behind the record.
unfoldable pub attr_int : (flags : ℕ) → Args → Result (ℕ × Args)
unfolding advance
attr_int flags a = if ltb a.argc 1 then err parser_error else ok (flags, advance 2 a)

-- What read_zstr_from_argv found among the arguments that it may read, `argc` as an int of them.
unfoldable pub zstr_read : (flags : ℕ) → Args → Option (List ℕ × List ℕ) → Result (ℕ × Args)
unfolding advance
zstr_read flags a none = if ltb (length a.argv) a.argc then err uninitialised else err parser_error
zstr_read flags a (some (s, rest)) = ok (flags, advance (suc (length s)) a)

-- read_zstr_from_argv, and the error for a string without an end. Of an `argc` that is negative as an
-- int it reads nothing and takes one argument.
unfoldable pub attr_key : (flags : ℕ) → Args → Result (ℕ × Args)
unfolding read_zstr_from_argv zstr_read take advance
attr_key flags a =
    if leb (2 ^ 31) a.argc
    then ok (flags, advance 1 a)
    else zstr_read flags a (read_zstr_from_argv (take a.argc a.argv))

unfoldable pub attr_key_value : (flags : ℕ) → Args → Result (ℕ × Args)
unfolding attr_key
attr_key_value flags a = attr_key flags a >>= λ (f, rest). attr_key f rest

unfoldable pub attr_switch : (type flags : ℕ) → Args → Result (ℕ × Args)
unfolding attr_enum attr_int attr_key attr_key_value
attr_switch type flags a =
    if type == 0
    then attr_enum flags a
    else if type == 1
    then attr_int flags a
    else if type == 3
    then attr_key flags a
    else if type == 4
    then attr_key_value flags a
    else err parser_error

-- One round of `while(argc > 0)`.
unfoldable pub attr_step : (flags : ℕ) → Args → Result (ℕ × Args)
unfolding attr_switch advance
attr_step flags a = elim (a.argv) [
  | [] ↦ err uninitialised
  | type ∷ argv ↦
      if (advance 1 a).argc == 0
      then err parser_error
      else attr_switch (to_int type) flags (advance 1 a)
]

-- The loop. Every round goes on in the memory, so as many rounds as it has arguments are enough.
unfoldable pub attr_loop : (fuel flags : ℕ) → Args → Result ℕ
unfolding attr_step
attr_loop zero flags a = if a.argc == 0 then ok flags else err out_of_fuel
attr_loop (suc fuel) flags a =
    let rest = attr_step flags a >>= λ (f, a1). attr_loop fuel f a1 in
    if a.argc == 0 then ok flags else rest

-- `behind` is what the memory holds behind the record.
unfoldable pub attr_entry : IrUnit → (behind : List ℕ) → List ℕ → Result IrUnit
unfolding attr_loop
attr_entry iu behind (id ∷ index ∷ a ∷ argv) =
    attr_loop (suc (length (a ∷ argv ++ behind))) 0
      (record { argc = length (a ∷ argv) % 2 ^ 32; argv = a ∷ argv ++ behind })
    >>= λ flags. ok (record iu {
      attribute_groups =
          record { group_id = to_int id; index = to_int index; flags = flags }
          ∷ iu.attribute_groups;
    })
attr_entry iu behind argv = err parser_error

unfoldable pub paramattr_group_rec_handler :
    IrUnit → (behind : List ℕ) → (op : ℕ) → List ℕ → Result IrUnit
unfolding attr_entry
paramattr_group_rec_handler iu behind op argv =
    if op == 3 then attr_entry iu behind argv else err parser_error

-- The first group with this id; a 64-bit id is compared with the 32 bits of the group.
unfoldable pub find_group : (id : ℕ) → List Attr → Result Attr
find_group id [] = err parser_error
find_group id (ia ∷ groups) =
    let later = find_group id groups in if ia.group_id == id then ok ia else later

unfoldable pub find_groups : List Attr → List ℕ → Result (List Attr)
unfolding find_group
find_groups groups [] = ok []
find_groups groups (id ∷ argv) =
    find_group id groups >>= λ ia. find_groups groups argv >>= λ ias. ok (ia ∷ ias)

unfoldable pub paramattr_rec_handler : IrUnit → (op : ℕ) → List ℕ → Result IrUnit
unfolding find_groups
paramattr_rec_handler iu op argv =
    if op == 2
    then (find_groups iu.attribute_groups argv >>= λ ias.
        ok (record iu { attrsets = iu.attrsets ++ ias ∷ [] }))
    else err parser_error
