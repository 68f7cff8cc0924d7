-- ===== src/Parser/Attributes/Groups.antt =====
-- src/vmir_bitcode_parser.c: the loop over the attributes of a group ends.
use vmir.Common.{
  ℕ, zero, suc, ◌+◌, ◌-◌, ◌%◌, ◌^◌, ◌≤◌, ◌≢◌, Bool, true, false, Option, none, some, List, [], ◌∷◌,
  ◌++◌, ltb, leb, ◌==◌, if◌then◌else◌, length, arith, Bool-cases, inl, inr,
}
use Prim.Native.Nat.{bit_or}
use vmir.Argv.{read_zstr_from_argv}
use vmir.Types.{Result, ok, err, ◌>>=◌, parser_error, uninitialised, assertion, out_of_fuel}
use vmir.Types.Records.{to_int}
use vmir.Parser.{IrUnit}
use vmir.Parser.Attributes.{
  Args, drop, take, advance, attr_enum, attr_int, zstr_read, attr_key, attr_key_value, attr_switch,
  attr_step, attr_loop, attr_entry, paramattr_group_rec_handler,
}

-- A result that is not out of fuel, with `n` arguments left in the memory at most.
abbrev AtMost : ℕ → Result (ℕ × Args) → Type 0
AtMost n (ok (f, a)) = length a.argv ≤ n
AtMost n (err parser_error) = Unit {0}
AtMost n (err uninitialised) = Unit {0}
AtMost n (err assertion) = Unit {0}
AtMost n (err out_of_fuel) = ⊥

length-drop : (k : ℕ) (argv : List ℕ) → length (drop k argv) ≤ length argv
unfolding drop
length-drop zero argv = omega arith
length-drop (suc k) [] = omega arith
length-drop (suc k) (a ∷ argv) = omega (arith, length-drop k argv)

AtMost-le : (n m : ℕ) (r : Result (ℕ × Args)) → n ≤ m → AtMost n r → AtMost m r
AtMost-le n m (ok (f, a)) h s = omega arith
AtMost-le n m (err parser_error) h s = tt
AtMost-le n m (err uninitialised) h s = tt
AtMost-le n m (err assertion) h s = tt
AtMost-le n m (err out_of_fuel) h s = s

AtMost-if :
    (n : ℕ) (b : Bool) (r s : Result (ℕ × Args))
    → AtMost n r
    → AtMost n s
    → AtMost n (if b then r else s)
AtMost-if n true r s hr hs = hr
AtMost-if n false r s hr hs = hs

AtMost-advance : (k flags : ℕ) (a : Args) → AtMost (length a.argv) (ok (flags, advance k a))
unfolding advance
AtMost-advance k flags a = length-drop k a.argv

AtMost-zstr_read :
    (flags : ℕ) (a : Args) (o : Option (List ℕ × List ℕ))
    → AtMost (length a.argv) (zstr_read flags a o)
unfolding zstr_read
AtMost-zstr_read flags a none =
    AtMost-if (length a.argv) (ltb (length a.argv) a.argc) (err uninitialised) (err parser_error) tt
      tt
AtMost-zstr_read flags a (some (s, rest)) = AtMost-advance (suc (length s)) flags a

AtMost-attr_key : (flags : ℕ) (a : Args) → AtMost (length a.argv) (attr_key flags a)
unfolding attr_key
AtMost-attr_key flags a =
    AtMost-if (length a.argv) (leb (2 ^ 31) a.argc) (ok (flags, advance 1 a)) _
      (AtMost-advance 1 flags a)
      (AtMost-zstr_read flags a (read_zstr_from_argv (take a.argc a.argv)))

AtMost-second :
    (n : ℕ) (r : Result (ℕ × Args)) → AtMost n r → AtMost n (r >>= λ (f, a). attr_key f a)
AtMost-second n (ok (f, a)) h = AtMost-le (length a.argv) n (attr_key f a) h (AtMost-attr_key f a)
AtMost-second n (err parser_error) h = tt
AtMost-second n (err uninitialised) h = tt
AtMost-second n (err assertion) h = tt
AtMost-second n (err out_of_fuel) h = h

AtMost-attr_enum :
    (flags argc : ℕ) (argv : List ℕ)
    → AtMost (length argv) (attr_enum flags (record { argc = argc; argv = argv }))
unfolding attr_enum
AtMost-attr_enum flags argc [] = tt
AtMost-attr_enum flags argc (kind ∷ argv) =
    AtMost-if (suc (length argv)) (ltb kind 64)
      (ok (bit_or flags (2 ^ kind), advance 1 (record { argc = argc; argv = kind ∷ argv })))
      (err uninitialised)
      (AtMost-advance 1 (bit_or flags (2 ^ kind)) (record { argc = argc; argv = kind ∷ argv })) tt

AtMost-attr_int : (flags : ℕ) (a : Args) → AtMost (length a.argv) (attr_int flags a)
unfolding attr_int
AtMost-attr_int flags a =
    AtMost-if (length a.argv) (ltb a.argc 1) (err parser_error) (ok (flags, advance 2 a)) tt
      (AtMost-advance 2 flags a)

AtMost-attr_switch : (type flags : ℕ) (a : Args) → AtMost (length a.argv) (attr_switch type flags a)
unfolding attr_switch attr_key_value
AtMost-attr_switch type flags a =
    let n = length a.argv in
    let key = AtMost-attr_key flags a in
    let key_value = AtMost-second n (attr_key flags a) key in
    AtMost-if n (type == 0) (attr_enum flags a) _ (AtMost-attr_enum flags a.argc a.argv) (
      AtMost-if n (type == 1) (attr_int flags a) _ (AtMost-attr_int flags a) (
        AtMost-if n (type == 3) (attr_key flags a) _ key
          (AtMost-if n (type == 4) (attr_key_value flags a) (err parser_error) key_value tt)))

AtMost-attr_step :
    (flags argc type : ℕ) (argv : List ℕ)
    → AtMost (length argv) (attr_step flags (record { argc = argc; argv = type ∷ argv }))
unfolding attr_step advance drop
AtMost-attr_step flags argc type argv =
    AtMost-if (length argv) ((argc + 2 ^ 32 - 1) % 2 ^ 32 == 0) (err parser_error) _ tt (
      AtMost-attr_switch (to_int type) flags
        (record { argc = (argc + 2 ^ 32 - 1) % 2 ^ 32; argv = argv }))

loop-ends :
    (fuel : ℕ) (r : Result (ℕ × Args))
    → AtMost fuel r
    → ((flags : ℕ) (a : Args)
        → length a.argv ≤ fuel
        → attr_loop (suc fuel) flags a ≢ err out_of_fuel)
    → (r >>= λ (f, a). attr_loop (suc fuel) f a) ≢ err out_of_fuel
loop-ends fuel (ok (f, a)) s ih = ih f a s
loop-ends fuel (err parser_error) s ih = λ p. cc
loop-ends fuel (err uninitialised) s ih = λ p. cc
loop-ends fuel (err assertion) s ih = λ p. cc
loop-ends fuel (err out_of_fuel) s ih = absurd s

if-ends :
    (b : Bool) (flags : ℕ) (r : Result ℕ)
    → r ≢ err out_of_fuel
    → (if b then ok flags else r) ≢ err out_of_fuel
if-ends true flags r h = λ p. cc
if-ends false flags r h = h

attr_loop-ends :
    (fuel flags argc : ℕ) (argv : List ℕ)
    → length argv ≤ fuel
    → attr_loop (suc fuel) flags (record { argc = argc; argv = argv }) ≢ err out_of_fuel
unfolding attr_loop attr_step
attr_loop-ends fuel flags argc [] h = if-ends (argc == 0) flags _ (λ p. cc)
attr_loop-ends zero flags argc (type ∷ argv) h = absurd (omega arith)
attr_loop-ends (suc fuel) flags argc (type ∷ argv) h = if-ends (argc == 0) flags _ (
    loop-ends fuel (attr_step flags (record { argc = argc; argv = type ∷ argv }))
      (AtMost-le (length argv) fuel _ (omega arith) (AtMost-attr_step flags argc type argv))
      (λ f a le. attr_loop-ends fuel f a.argc a.argv le))

bind-ends :
    {A : Type 0} (r : Result ℕ) (f : ℕ → A)
    → r ≢ err out_of_fuel
    → (r >>= λ x. ok (f x)) ≢ err out_of_fuel
bind-ends (ok x) f h = λ p. cc
bind-ends (err x) f h = λ p. h (ground arith)

attr_entry-ends : (iu : IrUnit) (behind argv : List ℕ) → attr_entry iu behind argv ≢ err out_of_fuel
unfolding attr_entry
attr_entry-ends iu behind [] = λ p. cc
attr_entry-ends iu behind (a ∷ []) = λ p. cc
attr_entry-ends iu behind (a ∷ b ∷ []) = λ p. cc
attr_entry-ends iu behind (id ∷ index ∷ a ∷ argv) =
    bind-ends
      (attr_loop (suc (length (a ∷ argv ++ behind))) 0
        (record { argc = length (a ∷ argv) % 2 ^ 32; argv = a ∷ argv ++ behind }))
      _
      (attr_loop-ends (length (a ∷ argv ++ behind)) 0 (length (a ∷ argv) % 2 ^ 32)
        (a ∷ argv ++ behind) (omega arith))

-- Whatever the record and the memory behind it hold, the loop over the attributes of a group ends, in
-- the group, in an error or in a read past that memory: each round goes on in it by one argument at
-- least, also after the count of the arguments has wrapped round.
pub paramattr_group_rec_handler-ends :
    (iu : IrUnit) (behind : List ℕ) (op : ℕ) (argv : List ℕ)
    → paramattr_group_rec_handler iu behind op argv ≢ err out_of_fuel
unfolding paramattr_group_rec_handler
paramattr_group_rec_handler-ends iu behind op argv = elim (Bool-cases (op == 3)) [
  | inl e ↦ rw (e, if◌then◌else◌) (attr_entry-ends iu behind argv)
  | inr e ↦ rw (e, if◌then◌else◌) (λ p. cc)
]
