-- ===== src/Vm/Emit/Branches/Fixup.antt =====
-- src/vmir_vm.c: bb_to_offset_delta and branch_fixup, once the basic blocks have their places.
use vmir.Common.{
  ℕ, zero, suc, ◌+◌, ◌*◌, ◌-◌, ◌/◌, ◌^◌, Option, none, some, List, [], ◌∷◌, get_elem?, set, ltb,
  leb, if◌then◌else◌,
}
use vmir.Types.{Result, ok, err, ◌>>=◌, parser_error, uninitialised, assertion}
use vmir.Vm.{
  VmOp, br, bcond, cmp8_br, cmp8_c_br, cmp32_br, cmp32_c_br, jumptable, switch8_bs, switch32_bs,
  switch64_bs, Cell, op, unresolved, half,
}

-- bb_find(f, bbi)->ib_text_offset, none for a block that is not found.
abbrev pub Blocks : Type 0
Blocks = ℕ → Option ℕ

-- `o - (off + 2)` as an int16_t, if it is one.
unfoldable pub offset_delta : (o off : ℕ) → Result ℕ
offset_delta o off =
    if leb (off + 2) o
    then (if ltb (o - (off + 2)) (2 ^ 15) then ok (o - (off + 2)) else err assertion)
    else if leb (off + 2 - o) (2 ^ 15)
    then ok (2 ^ 16 - (off + 2 - o))
    else err assertion

unfoldable pub delta_to : (o : Option ℕ) → (off : ℕ) → Result ℕ
unfolding offset_delta
delta_to none off = err assertion
delta_to (some o) off = offset_delta o off

unfoldable pub bb_to_offset_delta : Blocks → (bbi off : ℕ) → Result ℕ
unfolding delta_to
bb_to_offset_delta blocks bbi off = delta_to (blocks bbi) off

-- The number of a half word of the text.
unfoldable pub number_at : Option Cell → Result ℕ
number_at (some (half n)) = ok n
number_at c = err uninitialised

-- `I[k] = bb_to_offset_delta(iu, f, I[k], off)`, where `I` is `text + off`.
unfoldable pub fixup_branch : Blocks → (off k : ℕ) → List Cell → Result (List Cell)
unfolding number_at bb_to_offset_delta
fixup_branch blocks off k cells = number_at (get_elem? cells (off / 2 + k)) >>= λ bbi.
    bb_to_offset_delta blocks bbi off >>= λ d. ok (set cells (off / 2 + k) (half d))

-- The same for the `n` half words from the one at `k` on.
unfoldable pub fixup_branches : Blocks → (off k n : ℕ) → List Cell → Result (List Cell)
unfolding fixup_branch
fixup_branches blocks off k zero cells = ok cells
fixup_branches blocks off k (suc n) cells =
    fixup_branch blocks off k cells >>= λ cells'. fixup_branches blocks off (suc k) n cells'

-- A switch, whose keys take `size` half words each; the default follows the paths.
unfoldable pub fixup_switch : Blocks → (off size : ℕ) → List Cell → Result (List Cell)
unfolding number_at fixup_branches
fixup_switch blocks off size cells = number_at (get_elem? cells (off / 2 + 2)) >>= λ p.
    fixup_branches blocks off (3 + p * size) (p + 1) cells

-- The branches of one instruction.
unfoldable pub fixup_op : Blocks → (off : ℕ) → VmOp → List Cell → Result (List Cell)
unfolding fixup_branches number_at fixup_switch
fixup_op blocks off br cells = fixup_branches blocks off 1 1 cells
fixup_op blocks off bcond cells = fixup_branches blocks off 2 2 cells
fixup_op blocks off (cmp8_br p) cells = fixup_branches blocks off 1 2 cells
fixup_op blocks off (cmp8_c_br p) cells = fixup_branches blocks off 1 2 cells
fixup_op blocks off (cmp32_br p) cells = fixup_branches blocks off 1 2 cells
fixup_op blocks off (cmp32_c_br p) cells = fixup_branches blocks off 1 2 cells
fixup_op blocks off jumptable cells =
    number_at (get_elem? cells (off / 2 + 2)) >>= λ size. fixup_branches blocks off 3 size cells
fixup_op blocks off switch8_bs cells = fixup_switch blocks off 1 cells
fixup_op blocks off switch32_bs cells = fixup_switch blocks off 2 cells
fixup_op blocks off switch64_bs cells = fixup_switch blocks off 4 cells
fixup_op blocks off o cells = err parser_error

unfoldable pub branch_at : Option Cell → Result VmOp
branch_at (some (unresolved o)) = ok o
branch_at c = err parser_error

-- The body of the loop of branch_fixup.
unfoldable pub fixup_at : Blocks → (off : ℕ) → List Cell → Result (List Cell)
unfolding branch_at fixup_op
fixup_at blocks off cells = branch_at (get_elem? cells (off / 2)) >>= λ o.
    fixup_op blocks off o cells >>= λ cells'. ok (set cells' (off / 2) (op o))

unfoldable pub branch_fixup : Blocks → (fixups : List ℕ) → List Cell → Result (List Cell)
unfolding fixup_at
branch_fixup blocks [] cells = ok cells
branch_fixup blocks (off ∷ fixups) cells =
    fixup_at blocks off cells >>= λ cells'. branch_fixup blocks fixups cells'
