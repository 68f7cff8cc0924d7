-- ===== src/Vm/Emit/Branches/Lands.antt =====
-- The branches of src/vmir_vm.c, fixed up, lead to the basic blocks that they name.
use vmir.Common.{
  ℕ, suc, ◌+◌, ◌*◌, ◌-◌, ◌/◌, ◌%◌, ◌^◌, ◌<◌, ◌≡◌, refl, ◌∙◌, ap, Bool, true, false, some, List, [],
  ◌∷◌, ◌++◌, get_elem?, set, length, get_elem?-append_at, set-append_at, inl, inr, Bool-cases, ◌≤◌,
  leb, if◌then◌else◌, arith,
}
use mathlib.Core.List.{append_assoc}
use native.Mathlib.Nat.{mod-eq_of_lt}
use vmir.Types.{ok}
use vmir.Parser.{IrUnit}
use vmir.Vm.Alu.{c_compare}
use vmir.Vm.Alu.Truncate.{Narrow, n8, n32, bits}
use vmir.Vm.Frame.ReadWrite.{rd32-lt, rd32-half}
use vmir.Vm.Exec.{branch, ◌>>?◌, bit}
use vmir.Vm.Exec.Compare.{exec_cmp_br, compare_words}
use vmir.Vm.Emit.Words.{narrow, width_code, read}
use vmir.Vm.Emit.Runs.{
  Emits, Emits-seq, emit_cells-Emits, emit_i16-Emits, appended, InReg, HasCode, step-append,
}
use vmir.Vm.Emit.Branches.{
  InstrCmpBranch, emit_cmp_head, emit_cmp_br_reg, emit_cmp_br_right, emit_cmp_br_classes,
  emit_cmp_branch, push_fixup,
}
use vmir.Vm.{
  IcmpPred, icmp, VmOp, Text, text_size, emit_branch, cmp8_br, cmp32_br, Cell, op, unresolved, half,
}
use vmir.Vm.Frame.{Frame}
use vmir.Vm.Exec.Float.{Fpu}
use vmir.Vm.Exec.Step.{target, exec_op, step, at, advance}
use vmir.Vm.Emit.Branches.Fixup.{
  Blocks, offset_delta, delta_to, bb_to_offset_delta, fixup_branch, fixup_branches, fixup_op,
  fixup_at, number_at, branch_at,
}

-- The offset that is stored leads from past the opcode to the block.
pub offset_delta-target :
    (pc k d : ℕ) → offset_delta (2 * k) (2 * pc) ≡ ok d → target (suc pc) d ≡ some k
unfolding offset_delta target
offset_delta-target pc k d e = ground arith

-- The block at half word `k` is in reach of a branch at `pc`.
abbrev pub InReach : (k pc : ℕ) → Type 0
InReach k pc = (2 * k < 2 * pc + 2 + 2 ^ 15) × (2 * pc + 2 ≤ 2 * k + 2 ^ 15)

offset_delta_reach : (k pc : ℕ) → InReach k pc → (d : ℕ) × (offset_delta (2 * k) (2 * pc) ≡ ok d)
unfolding offset_delta
offset_delta_reach k pc (h1, h2) = elim (Bool-cases (leb (2 * pc + 2) (2 * k))) [
  | inl e ↦ (2 * k - (2 * pc + 2), ground arith)
  | inr e ↦ (2 ^ 16 - (2 * pc + 2 - 2 * k), ground arith)
]

module _ (blocks : Blocks) (pre : List Cell) where
  -- One branch of the instruction behind `pre`.
  fixup_branch-append :
      (ys : List Cell) (j bbi k d : ℕ)
      → get_elem? ys j ≡ some (half bbi)
      → blocks bbi ≡ some (2 * k)
      → offset_delta (2 * k) (2 * length pre) ≡ ok d
      → fixup_branch blocks (2 * length pre) j (pre ++ ys) ≡ ok (pre ++ set ys j (half d))
  unfolding fixup_branch bb_to_offset_delta delta_to number_at
  fixup_branch-append ys j bbi k d read block delta =
      let off : 2 * length pre / 2 ≡ length pre = omega arith in
      rw (off, get_elem?-append_at pre ys j, read, found, set-append_at pre ys j (half d)) refl
    where
      found : bb_to_offset_delta blocks bbi (2 * length pre) ≡ ok d
      found = ap (λ o. delta_to o (2 * length pre)) block ∙ delta

  -- An instruction whose two branches stand behind its opcode.
  fixup_at-two :
      (o : VmOp) (x y kx ky dx dy : ℕ) (rest : List Cell)
      → ((cells : List Cell)
          → fixup_op blocks (2 * length pre) o cells
            ≡ fixup_branches blocks (2 * length pre) 1 2 cells)
      → blocks x ≡ some (2 * kx)
      → blocks y ≡ some (2 * ky)
      → offset_delta (2 * kx) (2 * length pre) ≡ ok dx
      → offset_delta (2 * ky) (2 * length pre) ≡ ok dy
      → fixup_at blocks (2 * length pre) (pre ++ unresolved o ∷ half x ∷ half y ∷ rest)
        ≡ ok (pre ++ op o ∷ half dx ∷ half dy ∷ rest)
  unfolding fixup_at fixup_branches branch_at
  fixup_at-two o x y kx ky dx dy rest two bx b_y ex ey =
      let off : 2 * length pre / 2 ≡ length pre + 0 = omega arith in
      let whole = unresolved o ∷ half x ∷ half y ∷ rest in
      let once = unresolved o ∷ half dx ∷ half y ∷ rest in
      rw
        (
          off,
          get_elem?-append_at pre whole 0,
          two (pre ++ whole),
          fixup_branch-append whole 1 x kx dx refl bx ex,
          fixup_branch-append once 2 y ky dy refl b_y ey,
          set-append_at pre (unresolved o ∷ half dx ∷ half dy ∷ rest) 0 (op o),
        )
        refl

-- The integers that a comparison with a branch exists for.
pub data BranchWidth : Type 0 where
  b8 b32 : BranchWidth

abbrev pub branch_narrow : BranchWidth → Narrow
branch_narrow b8 = n8
branch_narrow b32 = n32

abbrev branch_op : BranchWidth → IcmpPred → VmOp
branch_op b8 p = cmp8_br p
branch_op b32 p = cmp32_br p

fixup_op-cmp8_br :
    (bs : Blocks) (off : ℕ) (q : IcmpPred) (cells : List Cell)
    → fixup_op bs off (cmp8_br q) cells ≡ fixup_branches bs off 1 2 cells
unfolding fixup_op
fixup_op-cmp8_br bs off q cells = refl

fixup_op-cmp32_br :
    (bs : Blocks) (off : ℕ) (q : IcmpPred) (cells : List Cell)
    → fixup_op bs off (cmp32_br q) cells ≡ fixup_branches bs off 1 2 cells
unfolding fixup_op
fixup_op-cmp32_br bs off q cells = refl

-- The instruction, before and after it is fixed up.
abbrev cmp_args : (x y l r : ℕ) → List Cell
cmp_args x y l r = half x ∷ half y ∷ half (l % 2 ^ 16) ∷ half (r % 2 ^ 16) ∷ []

emit_cmp_head-Emits :
    (o : VmOp) (ii : InstrCmpBranch) (l : ℕ)
    → Emits (emit_cmp_head o ii l) (
        unresolved o
        ∷ half (ii.true_branch % 2 ^ 16)
        ∷ half (ii.false_branch % 2 ^ 16)
        ∷ half (l % 2 ^ 16)
        ∷ [])
unfolding emit_cmp_head emit_branch
emit_cmp_head-Emits o ii l t room =
    Emits-seq (emit_cells-Emits (unresolved o ∷ []))
      (Emits-seq (emit_i16-Emits (ii.true_branch))
        (Emits-seq (emit_i16-Emits (ii.false_branch)) (emit_i16-Emits l)))
      t room

emit_cmp_br_reg-Emits :
    (ii : InstrCmpBranch) (w : BranchWidth) (p : IcmpPred) (l r : ℕ)
    → Emits (emit_cmp_br_reg (icmp p) (width_code (narrow (branch_narrow w))) ii l r) (
        unresolved (branch_op w p)
        ∷ cmp_args (ii.true_branch % 2 ^ 16) (ii.false_branch % 2 ^ 16) l r)
unfolding emit_cmp_br_reg
emit_cmp_br_reg-Emits ii b8 p l r =
    Emits-seq (emit_cmp_head-Emits (cmp8_br p) ii l) (emit_i16-Emits r)
emit_cmp_br_reg-Emits ii b32 p l r =
    Emits-seq (emit_cmp_head-Emits (cmp32_br p) ii l) (emit_i16-Emits r)

emit_cmp_branch-appends :
    (iu : IrUnit) (ii : InstrCmpBranch) (w : BranchWidth) (p : IcmpPred) (l r : ℕ) (t : Text)
    → ii.op ≡ icmp p
    → HasCode iu (ii.lhs_value) (width_code (narrow (branch_narrow w)))
    → InReg iu (ii.lhs_value) l
    → InReg iu (ii.rhs_value) r
    → text_size t + 10 < t.memsize
    → emit_cmp_branch iu ii t
      ≡ ok (
          appended (push_fixup t) (
            unresolved (branch_op w p)
            ∷ cmp_args (ii.true_branch % 2 ^ 16) (ii.false_branch % 2 ^ 16) l r))
unfolding emit_cmp_branch emit_cmp_br_classes emit_cmp_br_right push_fixup text_size
emit_cmp_branch-appends iu ii w p l r t op_eq (it, it_eq, code) (lhs, lhs_eq, lc) (rhs, rhs_eq, rc)
      room =
    rw (lhs_eq, rhs_eq, it_eq, lc, rc, code, op_eq)
      (emit_cmp_br_reg-Emits (record ii { op = icmp p }) w p l r (push_fixup t) (omega arith))

jump-taken :
    (c : Bool) (pc dx dy l r kx ky : ℕ) (more : List Cell) (m : Frame)
    → target (suc pc) dx ≡ some kx
    → target (suc pc) dy ≡ some ky
    → (branch (cmp_args dx dy l r ++ more) m (some (bit c)) 0 1 >>? advance pc)
      ≡ some (at (if c then kx else ky) m)
unfolding branch advance
jump-taken true pc dx dy l r kx ky more m tx ty = ap (λ o. o >>? λ pc'. some (at pc' m)) tx
jump-taken false pc dx dy l r kx ky more m tx ty = ap (λ o. o >>? λ pc'. some (at pc' m)) ty

-- The instruction takes the branch that the comparison selects.
abbrev pub selected : BranchWidth → IcmpPred → Frame → (l r : ℕ) → Bool
selected w p m l r =
    c_compare (bits (branch_narrow w)) p (read (narrow (branch_narrow w)) m l)
      (read (narrow (branch_narrow w)) m r)

exec-branch_op :
    (F : Fpu) (w : BranchWidth) (p : IcmpPred) (dx dy l r : ℕ) (more : List Cell) (m : Frame)
    → exec_op F (branch_op w p) (cmp_args dx dy l r ++ more) m
      ≡ branch (cmp_args dx dy l r ++ more) m (some (bit (selected w p m l r))) 0 1
unfolding exec_op exec_cmp_br compare_words
exec-branch_op F b8 p dx dy l r more m = rw (rd32-half m l, rd32-half m r) refl
exec-branch_op F b32 p dx dy l r more m =
    rw (rd32-half m l, rd32-half m r, mod-eq_of_lt (rd32-lt m l), mod-eq_of_lt (rd32-lt m r)) refl

-- For two registers of 8 or 32 bits and an integer predicate, in a text with room for five half
-- words more, emit_cmp_branch emits a branch and lists its place for branch_fixup; once the body of
-- the loop of branch_fixup has been run on that place, in the text with whatever follows, vm_exec
-- goes on at the first half word of the true block if C compares the words of that width in the low
-- bits of the registers so, and of the false block if not, and the frame is as before. Provided:
-- the blocks with the low 16 bits of the two numbers are found at even places, within 2 ^ 15 bytes
-- of the end of the opcode.
pub emit_cmp_branch-lands :
    (F : Fpu) (iu : IrUnit) (ii : InstrCmpBranch) (w : BranchWidth) (p : IcmpPred) (l r kx ky : ℕ)
    (t : Text) (m : Frame) (blocks : Blocks)
    → ii.op ≡ icmp p
    → HasCode iu (ii.lhs_value) (width_code (narrow (branch_narrow w)))
    → InReg iu (ii.lhs_value) l
    → InReg iu (ii.rhs_value) r
    → text_size t + 10 < t.memsize
    → blocks (ii.true_branch % 2 ^ 16) ≡ some (2 * kx)
    → blocks (ii.false_branch % 2 ^ 16) ≡ some (2 * ky)
    → InReach kx (length t.cells)
    → InReach ky (length t.cells)
    → (t' : Text) × (emit_cmp_branch iu ii t ≡ ok t')
      × (t'.branch_fixups ≡ t.branch_fixups ++ text_size t ∷ [])
      × ((more : List Cell)
          → (cells : List Cell) × (fixup_at blocks (text_size t) (t'.cells ++ more) ≡ ok cells)
            × (step F cells (length t.cells) m
                ≡ some (at (if selected w p m l r then kx else ky) m)))
unfolding text_size push_fixup
emit_cmp_branch-lands F iu ii w p l r kx ky t m blocks op_eq code in_l in_r room bx b_y rx ry =
    let (dx, ex) = offset_delta_reach kx (length t.cells) rx in
    let (dy, ey) = offset_delta_reach ky (length t.cells) ry in
    let x = ii.true_branch % 2 ^ 16 in
    let y = ii.false_branch % 2 ^ 16 in
    (
      appended (push_fixup t) (unresolved (branch_op w p) ∷ cmp_args x y l r),
      emit_cmp_branch-appends iu ii w p l r t op_eq code in_l in_r room,
      refl,
      λ more. (
        t.cells ++ op (branch_op w p) ∷ (cmp_args dx dy l r ++ more),
        ap (fixup_at blocks (2 * length t.cells))
              (append_assoc t.cells (unresolved (branch_op w p) ∷ cmp_args x y l r) more)
            ∙ fixup_at-two blocks t.cells (branch_op w p) x y kx ky dx dy
                (half (l % 2 ^ 16) ∷ half (r % 2 ^ 16) ∷ more)
                (two_branches blocks (2 * length t.cells) w p) bx b_y ex ey,
        step-append F t.cells (cmp_args dx dy l r ++ more) (branch_op w p) m
            ∙ ap (λ o. o >>? advance (length t.cells)) (exec-branch_op F w p dx dy l r more m)
            ∙ jump-taken (selected w p m l r) (length t.cells) dx dy l r kx ky more m
                (offset_delta-target (length t.cells) kx dx ex)
                (offset_delta-target (length t.cells) ky dy ey),
      ),
    )
  where
    two_branches :
        (bs : Blocks) (off : ℕ) (w' : BranchWidth) (q : IcmpPred) (cells : List Cell)
        → fixup_op bs off (branch_op w' q) cells ≡ fixup_branches bs off 1 2 cells
    two_branches bs off b8 q cells = fixup_op-cmp8_br bs off q cells
    two_branches bs off b32 q cells = fixup_op-cmp32_br bs off q cells
