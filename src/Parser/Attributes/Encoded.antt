-- ===== src/Parser/Attributes/Encoded.antt =====
-- src/vmir_bitcode_parser.c: the record of a group of attributes is read as what it encodes.
use vmir.Common.{
  ℕ, zero, suc, ◌+◌, ◌-◌, ◌%◌, ◌^◌, ◌≤◌, ◌<◌, ◌≡◌, refl, ◌∙◌, ap, true, false, List, [], ◌∷◌, ◌++◌,
  All, ltb, leb, ◌==◌, if◌then◌else◌, length, length-append, arith,
}
use Prim.Native.Nat.{bit_or}
use vmir.Argv.Strings.{IsChar, read_zstr_from_argv-append}
use vmir.Types.{ok, err, ◌>>=◌, parser_error}
use vmir.Types.Records.{to_int}
use vmir.Parser.{IrUnit}
use vmir.Parser.Attributes.{
  Args, drop, take, advance, attr_enum, attr_int, zstr_read, attr_key, attr_key_value, attr_switch,
  attr_step, attr_loop, attr_entry, paramattr_group_rec_handler,
}

-- An attribute: a flag, a number, a string, or a string with a value.
pub data Attribute : Type 0 where
  flag : (kind : ℕ) → Attribute
  with_int : (kind value : ℕ) → Attribute
  with_key : (key : List ℕ) → Attribute
  with_value : (key value : List ℕ) → Attribute

-- Its arguments in front of others: how it is given, and the rest with terminated strings.
abbrev kind_of : Attribute → ℕ
kind_of (flag k) = 0
kind_of (with_int k v) = 1
kind_of (with_key s) = 3
kind_of (with_value s v) = 4

abbrev attr_args : Attribute → List ℕ → List ℕ
attr_args (flag k) left = k ∷ left
attr_args (with_int k v) left = k ∷ v ∷ left
attr_args (with_key s) left = s ++ 0 ∷ left
attr_args (with_value s v) left = s ++ 0 ∷ (v ++ 0 ∷ left)

abbrev pub attr_codes : List Attribute → List ℕ
attr_codes [] = []
attr_codes (x ∷ xs) = kind_of x ∷ attr_args x (attr_codes xs)

-- A flag is one of 64, and strings are of characters.
abbrev pub IsAttribute : Attribute → Type 0
IsAttribute (flag k) = k < 64
IsAttribute (with_int k v) = Unit {0}
IsAttribute (with_key s) = All IsChar s
IsAttribute (with_value s v) = All IsChar s × All IsChar v

-- The flags of the group, from those that are set before.
abbrev pub flags_of : ℕ → List Attribute → ℕ
flags_of flags [] = flags
flags_of flags (flag k ∷ xs) = flags_of (bit_or flags (2 ^ k)) xs
flags_of flags (x ∷ xs) = flags_of flags xs

take_append : (xs ys : List ℕ) → take (length xs) (xs ++ ys) ≡ xs
unfolding take
take_append [] ys = refl
take_append (x ∷ xs) ys = ap (λ l. x ∷ l) (take_append xs ys)

drop_string :
    (s left behind : List ℕ) → drop (suc (length s)) ((s ++ 0 ∷ left) ++ behind) ≡ left ++ behind
unfolding drop
drop_string [] left behind = refl
drop_string (c ∷ s) left behind = drop_string s left behind

length-attr_args : (x : Attribute) (left : List ℕ) → length left < length (attr_args x left)
length-attr_args (flag k) left = omega arith
length-attr_args (with_int k v) left = omega arith
length-attr_args (with_key s) left = omega (arith, length-append s (0 ∷ left))
length-attr_args (with_value s v) left =
    omega (arith, length-append s (0 ∷ (v ++ 0 ∷ left)), length-append v (0 ∷ left))

to_int-kind_of : (x : Attribute) → to_int (kind_of x) ≡ kind_of x
to_int-kind_of (flag k) = refl
to_int-kind_of (with_int k v) = refl
to_int-kind_of (with_key s) = refl
to_int-kind_of (with_value s v) = refl

flags_of-cons :
    (flags : ℕ) (x : Attribute) (xs : List Attribute)
    → flags_of (flags_of flags (x ∷ [])) xs ≡ flags_of flags (x ∷ xs)
flags_of-cons flags (flag k) xs = refl
flags_of-cons flags (with_int k v) xs = refl
flags_of-cons flags (with_key s) xs = refl
flags_of-cons flags (with_value s v) xs = refl

module _ (behind : List ℕ) where
  -- The arguments `left` of the record, and the memory behind it.
  abbrev remaining : List ℕ → Args
  remaining left = record { argc = length left; argv = left ++ behind }

  advance-one :
      (x : ℕ) (left : List ℕ)
      → suc (length left) < 2 ^ 31
      → advance 1 (remaining (x ∷ left)) ≡ remaining left
  unfolding advance drop
  advance-one x left h =
      let count : (suc (length left) + 2 ^ 32 - 1) % 2 ^ 32 ≡ length left = omega arith in
      ap (λ n. record { argc = n; argv = left ++ behind }) count

  advance-two :
      (x y : ℕ) (left : List ℕ)
      → suc (suc (length left)) < 2 ^ 31
      → advance 2 (remaining (x ∷ y ∷ left)) ≡ remaining left
  unfolding advance drop
  advance-two x y left h =
      let count : (suc (suc (length left)) + 2 ^ 32 - 2) % 2 ^ 32 ≡ length left = omega arith in
      ap (λ n. record { argc = n; argv = left ++ behind }) count

  advance-string :
      (s left : List ℕ)
      → length (s ++ 0 ∷ left) < 2 ^ 31
      → advance (suc (length s)) (remaining (s ++ 0 ∷ left)) ≡ remaining left
  unfolding advance
  advance-string s left h =
      let count : (length (s ++ 0 ∷ left) + 2 ^ 32 - suc (length s)) % 2 ^ 32 ≡ length left =
        omega (arith, length-append s (0 ∷ left)) in
      ap (λ n. record { argc = n; argv = drop (suc (length s)) ((s ++ 0 ∷ left) ++ behind) }) count
      ∙ ap (λ l. record { argc = length left; argv = l }) (drop_string s left behind)

  attr_key-string :
      (flags : ℕ) (s left : List ℕ)
      → All IsChar s
      → length (s ++ 0 ∷ left) < 2 ^ 31
      → attr_key flags (remaining (s ++ 0 ∷ left)) ≡ ok (flags, remaining left)
  unfolding attr_key zstr_read
  attr_key-string flags s left chars h =
      let small : leb (2 ^ 31) (length (s ++ 0 ∷ left)) ≡ false = ground arith in
      rw (small, take_append (s ++ 0 ∷ left) behind, read_zstr_from_argv-append s left chars)
        (ap (λ a. ok (flags, a)) (advance-string s left h))

  -- The case of each attribute, behind its type.
  attr_switch-attribute :
      (flags : ℕ) (x : Attribute) (left : List ℕ)
      → IsAttribute x
      → length (attr_args x left) < 2 ^ 31
      → attr_switch (kind_of x) flags (remaining (attr_args x left))
        ≡ ok (flags_of flags (x ∷ []), remaining left)
  unfolding attr_switch attr_enum attr_int attr_key_value
  attr_switch-attribute flags (flag k) left is h =
      let set : ltb k 64 ≡ true = ground arith in
      rw set (ap (λ a. ok (bit_or flags (2 ^ k), a)) (advance-one k left h))
  attr_switch-attribute flags (with_int k v) left is h =
      let enough : ltb (suc (suc (length left))) 1 ≡ false = ground arith in
      rw enough (ap (λ a. ok (flags, a)) (advance-two k v left h))
  attr_switch-attribute flags (with_key s) left is h = attr_key-string flags s left is h
  attr_switch-attribute flags (with_value s v) left is h =
      let shorter : length (v ++ 0 ∷ left) < 2 ^ 31 =
        omega (arith, length-append s (0 ∷ (v ++ 0 ∷ left))) in
      rw (attr_key-string flags s (v ++ 0 ∷ left) (is.0) h, ◌>>=◌)
        (attr_key-string flags v left (is.1) shorter)

  -- One round.
  attr_step-attribute :
      (flags : ℕ) (x : Attribute) (left : List ℕ)
      → IsAttribute x
      → suc (length (attr_args x left)) < 2 ^ 31
      → attr_step flags (remaining (kind_of x ∷ attr_args x left))
        ≡ ok (flags_of flags (x ∷ []), remaining left)
  unfolding attr_step
  attr_step-attribute flags x left is h =
      let args = attr_args x left in
      let more : (length args == 0) ≡ false = ground (arith, length-attr_args x left) in
      ap (λ a. if a.argc == 0 then err parser_error else attr_switch (to_int (kind_of x)) flags a)
        (advance-one (kind_of x) args h)
      ∙ ap
          (λ b.
            if b then err parser_error else attr_switch (to_int (kind_of x)) flags (remaining args))
          more
      ∙ ap (λ t. attr_switch t flags (remaining args)) (to_int-kind_of x)
      ∙ attr_switch-attribute flags x left is (omega arith)

  attr_loop-attributes :
      (fuel flags : ℕ) (xs : List Attribute)
      → All IsAttribute xs
      → length (attr_codes xs) < 2 ^ 31
      → length (attr_codes xs) ≤ fuel
      → attr_loop fuel flags (remaining (attr_codes xs)) ≡ ok (flags_of flags xs)
  unfolding attr_loop
  attr_loop-attributes zero flags [] is h f = refl
  attr_loop-attributes (suc fuel) flags [] is h f = refl
  attr_loop-attributes zero flags (x ∷ xs) is h f = absurd (omega arith)
  attr_loop-attributes (suc fuel) flags (x ∷ xs) (is, rest) h f =
      let more : (length (attr_codes (x ∷ xs)) == 0) ≡ false = ground arith in
      rw (more, attr_step-attribute flags x (attr_codes xs) is h, ◌>>=◌)
        (attr_loop-attributes fuel (flags_of flags (x ∷ [])) xs rest
            (omega (arith, length-attr_args x (attr_codes xs)))
            (omega (arith, length-attr_args x (attr_codes xs)))
          ∙ ap ok (flags_of-cons flags x xs))

-- The record of a group with attributes, which takes fewer than 2 ^ 31 arguments, adds the group with
-- its id, its index and the flags among the attributes, whatever the memory behind the record holds;
-- numbers, strings and values are passed over. Provided: each flag is below 64, and the strings hold
-- characters other than 0.
pub paramattr_group_rec_handler-attributes :
    (iu : IrUnit) (behind : List ℕ) (id index : ℕ) (x : Attribute) (xs : List Attribute)
    → All IsAttribute (x ∷ xs)
    → length (attr_codes (x ∷ xs)) < 2 ^ 31
    → paramattr_group_rec_handler iu behind 3 (id ∷ index ∷ attr_codes (x ∷ xs))
      ≡ ok (record iu {
        attribute_groups =
            record { group_id = to_int id; index = to_int index; flags = flags_of 0 (x ∷ xs) }
            ∷ iu.attribute_groups;
      })
unfolding paramattr_group_rec_handler attr_entry
paramattr_group_rec_handler-attributes iu behind id index x xs is h =
    let codes = attr_codes (x ∷ xs) in
    let small : length codes % 2 ^ 32 ≡ length codes = omega arith in
    rw
      (
        small,
        attr_loop-attributes behind (suc (length (codes ++ behind))) 0 (x ∷ xs) is h
            (omega (arith, length-append codes behind)),
        ◌>>=◌,
      )
      refl
