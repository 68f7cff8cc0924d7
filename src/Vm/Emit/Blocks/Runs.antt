-- ===== src/Vm/Emit/Blocks/Runs.antt =====
-- The code that instr_emit of src/vmir_vm.c makes of a straight line of instructions, and what it
-- computes.
use vmir.Common.{
  ℕ, ◌+◌, ◌*◌, ◌%◌, ◌^◌, ◌<◌, ◌≤◌, ◌≡◌, sym, ◌∙◌, ap, subst, Option, some, List, [], ◌∷◌, ◌++◌,
  length, length-append, ◌==◌, if◌then◌else◌, arith,
}
use mathlib.Core.List.{append_assoc, append-nil}
use vmir.Types.{Result, ok, ◌>>=◌}
use vmir.Parser.{IrUnit}
use vmir.Vm.{IcmpPred, icmp, Text, text_size, Cell}
use vmir.Vm.Emit.{ValueType, InstrBinop, InstrCmp}
use vmir.Vm.Emit.Casts.{InstrCast}
use vmir.Vm.Alu.{c_binop, c_compare}
use vmir.Vm.Alu.Truncate.{n32}
use vmir.Vm.Frame.{Frame, rd32}
use vmir.Vm.Exec.{bit}
use vmir.Vm.Exec.Float.{Fpu}
use vmir.Vm.Exec.Step.{State, at, Reaches, here, steps}
use vmir.Vm.Emit.Words.{Width, narrow, width_bits, width_code, read, Computes}
use vmir.Vm.Emit.Runs.{appended, RunsIn, RunsTo, InReg, InConst, HasCode}
use vmir.Vm.Emit.Binops.RegReg.{UpperBitsClear, emit_binop-reg_runs}
use vmir.Vm.Emit.Binops.RegConst.{emit_binop-const_runs}
use vmir.Vm.Emit.Binops.Promoted.{ConstSafe}
use vmir.Vm.Emit.Compares.Runs.{emit_cmp2-reg_runs}
use vmir.Vm.Emit.Compares.Consts.{emit_cmp2-swapped_runs}
use vmir.Vm.Emit.Moves.{single}
use vmir.Vm.Emit.Moves.Runs.{Moves, emit_move-runs}
use vmir.Vm.Emit.Casts.Runs.{CastValue, emit_cast-runs}
use vmir.Vm.Emit.Switches.{InstrSelect}
use vmir.Vm.Emit.Switches.Selected.{emit_select-runs}
use vmir.Vm.Emit.Blocks.{
  Instr, ic_ret, ic_binop, ic_cmp2, ic_br, ic_move, ic_cast, ic_cmp_branch, ic_cmp_select,
  ic_switch, ic_select, emit_instr, instr_emit,
}

-- What an instruction means in a frame: a width, a register and the word that it assigns to it. It has
-- a meaning where its operator is defined and its operands are as the emitter wants them.
pub data Assigns (iu : IrUnit) (m : Frame) : Instr → Width → (ret v : ℕ) → Type 0 where
  binop_regs :
      {ii : InstrBinop} {w : Width} {d l r v : ℕ}
      → HasCode iu (ii.lhs_value) (width_code w)
      → InReg iu (ii.lhs_value) l
      → InReg iu (ii.rhs_value) r
      → InReg iu (ii.ret) d
      → UpperBitsClear w (ii.op) m l r
      → c_binop (width_bits w) (ii.op) (read w m l) (read w m r) ≡ some v
      → Assigns iu m (ic_binop ii) w d v
  binop_const :
      {ii : InstrBinop} {w : Width} {d l c v : ℕ}
      → HasCode iu (ii.lhs_value) (width_code w)
      → InReg iu (ii.lhs_value) l
      → InConst iu w (ii.rhs_value) c
      → InReg iu (ii.ret) d
      → ConstSafe w (ii.op) m l c
      → c_binop (width_bits w) (ii.op) (read w m l) (c % 2 ^ width_bits w) ≡ some v
      → Assigns iu m (ic_binop ii) w d v
  cmp_regs :
      {ii : InstrCmp} (w : Width) {p : IcmpPred} {d l r : ℕ}
      → ii.op ≡ icmp p
      → HasCode iu (ii.lhs_value) (width_code w)
      → InReg iu (ii.lhs_value) l
      → InReg iu (ii.rhs_value) r
      → InReg iu (ii.ret) d
      → Assigns iu m
          (ic_cmp2 ii)
          (narrow n32)
          d
          (bit (c_compare (width_bits w) p (read w m l) (read w m r)))
  cmp_const :
      {ii : InstrCmp} (w : Width) {p : IcmpPred} {d r c : ℕ}
      → ii.op ≡ icmp p
      → HasCode iu (ii.lhs_value) (width_code w)
      → InConst iu w (ii.lhs_value) c
      → InReg iu (ii.rhs_value) r
      → InReg iu (ii.ret) d
      → Assigns iu m
          (ic_cmp2 ii)
          (narrow n32)
          d
          (bit (c_compare (width_bits w) p (c % 2 ^ width_bits w) (read w m r)))
  moves :
      {value ret : ValueType} {w : Width} {d v : ℕ}
      → HasCode iu ret (width_code w)
      → InReg iu ret d
      → Moves iu w value m v
      → Assigns iu m (ic_move (record { value = value; ret = single ret })) w d v
  casts_to :
      {ii : InstrCast} (src : Width) {dst : Width} {d s v : ℕ}
      → HasCode iu (ii.value) (width_code src)
      → HasCode iu (ii.ret) (width_code dst)
      → InReg iu (ii.value) s
      → InReg iu (ii.ret) d
      → CastValue (ii.op) src dst (read src m s) v
      → Assigns iu m (ic_cast ii) dst d v
  selects :
      {ii : InstrSelect} {w : Width} {d p x y : ℕ}
      → HasCode iu (ii.ret) (width_code w)
      → InReg iu (ii.pred) p
      → InReg iu (ii.true_value) x
      → InReg iu (ii.false_value) y
      → InReg iu (ii.ret) d
      → Assigns iu m (ic_select ii) w d (if rd32 m p == 0 then read w m y else read w m x)

-- Every frame in which the assignments, done in order, may end is one of which `Q` holds; the bits of a
-- register above the width of what is assigned may be any.
abbrev pub Sequence : IrUnit → List Instr → Frame → (Frame → Type 0) → Type 0
Sequence iu [] m Q = Q m
Sequence iu (ii ∷ instrs) m Q =
    (w : Width) × (d : ℕ) × (v : ℕ) × Assigns iu m ii w d v
    × ((m' : Frame) → Computes w m d v m' → Sequence iu instrs m' Q)

emit_instr-runs :
    (F : Fpu) (iu : IrUnit) (follows : Option ℕ) (ii : Instr) (t : Text) (m : Frame) (w : Width)
    (d v : ℕ)
    → Assigns iu m ii w d v
    → text_size t + 16 < t.memsize
    → RunsTo F (emit_instr F iu follows ii) t m (Computes w m d v)
unfolding emit_instr text_size
emit_instr-runs F iu follows (ic_binop ii) t m w d v
      (binop_regs {l = l} {r = r} code in_l in_r in_d clear e) room =
    emit_binop-reg_runs F iu ii w d l r v t m code in_l in_r in_d (omega arith) clear e
emit_instr-runs F iu follows (ic_binop ii) t m w d v
      (binop_const {l = l} {c = c} code in_l in_c in_d safe e) room =
    emit_binop-const_runs F iu ii w d l c v t m code in_l in_c in_d room safe e
emit_instr-runs F iu follows (ic_cmp2 ii) t m w d v
      (cmp_regs w' {p = p} {l = l} {r = r} op_eq code in_l in_r in_d) room =
    emit_cmp2-reg_runs F iu ii w' p d l r t m op_eq code in_l in_r in_d (omega arith)
emit_instr-runs F iu follows (ic_cmp2 ii) t m w d v
      (cmp_const w' {p = p} {r = r} {c = c} op_eq code in_c in_r in_d) room =
    emit_cmp2-swapped_runs F iu ii w' p d r c t m op_eq code in_c in_r in_d room
emit_instr-runs F iu follows (ic_move _) t m w d v
      (moves {value = value} {ret = ret} code in_d moved) room =
    emit_move-runs F iu value ret w d v t m code in_d moved (omega arith)
emit_instr-runs F iu follows (ic_cast ii) t m w d v (casts_to src {s = s} sc dc in_s in_d value)
      room =
    emit_cast-runs F iu ii src w d s v t m sc dc in_s in_d (omega arith) value
emit_instr-runs F iu follows (ic_select ii) t m w d v
      (selects {p = p} {x = x} {y = y} code in_p in_x in_y in_d) room =
    emit_select-runs F iu ii w d p x y t m code in_p in_x in_y in_d (omega arith)
emit_instr-runs F iu follows (ic_ret _) t m w d v assigns room = elim assigns [ ]
emit_instr-runs F iu follows (ic_br _) t m w d v assigns room = elim assigns [ ]
emit_instr-runs F iu follows (ic_cmp_branch _) t m w d v assigns room = elim assigns [ ]
emit_instr-runs F iu follows (ic_cmp_select _) t m w d v assigns room = elim assigns [ ]
emit_instr-runs F iu follows (ic_switch _) t m w d v assigns room = elim assigns [ ]

module _ (F : Fpu) {text : List Cell} where
  Reaches-trans :
      {pc pc' : ℕ} {m m' : Frame} {s : State}
      → Reaches F text pc m (at pc' m')
      → Reaches F text pc' m' s
      → Reaches F text pc m s
  Reaches-trans here q = q
  Reaches-trans (steps e p) q = steps e (Reaches-trans p q)

-- Code that runs, and code behind it that runs from where the first leaves off.
RunsIn-seq :
    (F : Fpu) (f g : Text → Result Text) (n k : ℕ) (t : Text) (m : Frame) {P Q : Frame → Type 0}
    → RunsIn n F f t m P
    → ((cs : List Cell) (m' : Frame) → length cs ≤ n → P m' → RunsIn k F g (appended t cs) m' Q)
    → RunsIn (n + k) F (λ t1. f t1 >>= g) t m Q
RunsIn-seq F f g n k t m {Q = Q} (cs, made, short, m', post, reaches) later =
    let (ds, made', short', m2, post', reaches') = later cs m' short post in
    let both : (t.cells ++ cs) ++ ds ≡ t.cells ++ (cs ++ ds) = append_assoc t.cells cs ds in
    (
      cs ++ ds,
      ap (λ (r : Result Text). r >>= g) made
          ∙ made'
          ∙ ap (λ (xs : List Cell). ok (record t { cells = xs })) both,
      omega (arith, length-append cs ds),
      m2,
      post',
      λ more.
          let first : Reaches F (((t.cells ++ cs) ++ ds) ++ more) (length t.cells) m
              (at (length (t.cells ++ cs)) m') =
            subst (λ xs. Reaches F xs (length t.cells) m (at (length (t.cells ++ cs)) m'))
              (sym (append_assoc (t.cells ++ cs) ds more)) (reaches (ds ++ more)) in
          subst (λ xs. Reaches F (xs ++ more) (length t.cells) m (at (length xs) m2)) both
            (Reaches-trans F first (reaches' more)),
    )

-- For a straight line of operations, comparisons, moves, casts and selects of two registers on
-- integers of 8 to 64 bits, in a text with room for eight half words for each, instr_emit emits
-- code that vm_exec runs to its end, whatever stands before and after it, and leaves a frame of
-- which `Q` holds. Provided: `Q` holds of every frame in which the assignments that the
-- instructions mean, done in order, may end, each of which has a meaning in the frame before it and
-- may leave any bits above the width it assigns.
pub instr_emit-runs :
    (F : Fpu) (iu : IrUnit) (follows : Option ℕ) (instrs : List Instr) (t : Text) (m : Frame)
    (Q : Frame → Type 0)
    → Sequence iu instrs m Q
    → text_size t + 16 * length instrs < t.memsize
    → RunsIn (8 * length instrs) F (instr_emit F iu follows instrs) t m Q
unfolding instr_emit text_size
instr_emit-runs F iu follows [] t m Q q room = (
  [],
  ap (λ (xs : List Cell). ok (record t { cells = xs })) (sym (append-nil t.cells)),
  omega arith,
  m,
  q,
  λ more.
      subst (λ xs. Reaches F (xs ++ more) (length t.cells) m (at (length xs) m))
        (sym (append-nil t.cells)) here,
)
instr_emit-runs F iu follows (ii ∷ instrs) t m Q (w, d, v, assigns, rest) room =
    let all : 8 + 8 * length instrs ≡ 8 * length (ii ∷ instrs) = omega arith in
    subst (λ n. RunsIn n F (instr_emit F iu follows (ii ∷ instrs)) t m Q) all
      (RunsIn-seq F (emit_instr F iu follows ii) (instr_emit F iu follows instrs) 8
        (8 * length instrs) t m (emit_instr-runs F iu follows ii t m w d v assigns (omega arith))
        (λ cs m' short post.
          instr_emit-runs F iu follows instrs (appended t cs) m' Q (rest m' post)
            (omega (arith, length-append t.cells cs))))
