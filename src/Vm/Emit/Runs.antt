-- ===== src/Vm/Emit/Runs.antt =====
-- The emitters of src/vmir_vm.c append to the text, and what they append is run where it stands.
use vmir.Common.{
  ℕ, suc, ◌+◌, ◌*◌, ◌/◌, ◌%◌, ◌^◌, ◌≤◌, ◌<◌, ◌≡◌, refl, sym, ◌∙◌, ap, subst, some, List, [], ◌∷◌,
  ◌++◌, ◌==◌, length, length-append, inl, inr, Bool, Bool-cases, if◌then◌else◌, arith,
}
use mathlib.Core.List.{append_assoc}
use vmir.Types.{TypeCode, IrType, Result, ok, ◌>>=◌, type_get, legalize_type}
use vmir.Parser.{
  Value, regframe, constant, IrUnit, value_get, value_reg, value_get_const32, value_get_const64,
}
use vmir.Vm.{
  VmOp, nop, Cell, op, half, Text, text_size, emit_cells, emit_i8, emit_i16, emit_i32, emit_i64,
  emit_op, emit_op1, emit_op2, emit_op3, vm_align32,
}
use vmir.Vm.Frame.{Frame}
use vmir.Vm.Exec.{next, ◌>>?◌}
use vmir.Vm.Exec.Float.{Fpu}
use vmir.Vm.Exec.Step.{exec_op, drop, at, advance, fetch, step, Reaches, here, steps}
use vmir.Vm.Emit.{ValueType, emit_reg_imm8, emit_reg_imm16, emit_reg_imm32, emit_op_imm64}
use vmir.Vm.Emit.Words.{Width, narrow, wide}

-- A text with more half words.
abbrev pub appended : Text → List Cell → Text
appended t cs = record t { cells = t.cells ++ cs }

-- `cs` fits in what is left of the text, and one byte more.
abbrev pub Room : Text → List Cell → Type 0
Room t cs = 2 * length t.cells + 2 * length cs < t.memsize

-- The half words of a number.
abbrev pub halves32 : ℕ → List Cell
halves32 c = half (c % 2 ^ 16) ∷ half (c / 2 ^ 16 % 2 ^ 16) ∷ []

abbrev pub halves64 : ℕ → List Cell
halves64 c =
    half (c % 2 ^ 16)
    ∷ half (c / 2 ^ 16 % 2 ^ 16)
    ∷ half (c / 2 ^ 32 % 2 ^ 16)
    ∷ half (c / 2 ^ 48 % 2 ^ 16)
    ∷ []

-- An emitter that appends `cs` wherever there is room.
abbrev pub Emits : (Text → Result Text) → List Cell → Type 0
Emits f cs = (t : Text) → Room t cs → f t ≡ ok (appended t cs)

pub emit_cells-Emits : (cs : List Cell) → Emits (emit_cells (2 * length cs) cs) cs
unfolding emit_cells text_size
emit_cells-Emits cs t h = ground arith

pub Emits-seq :
    {f g : Text → Result Text} {cs ds : List Cell}
    → Emits f cs
    → Emits g ds
    → Emits (λ t. f t >>= g) (cs ++ ds)
Emits-seq {g = g} {cs = cs} {ds = ds} hf hg t h =
    ap (λ (r : Result Text). r >>= g) (hf t (omega (arith, length-append cs ds)))
    ∙ hg (appended t cs) (omega (arith, length-append cs ds, length-append t.cells cs))
    ∙ ap (λ (xs : List Cell). ok (record t { cells = xs })) (append_assoc t.cells cs ds)

pub emit_i16-Emits : (v : ℕ) → Emits (emit_i16 v) (half (v % 2 ^ 16) ∷ [])
unfolding emit_i16
emit_i16-Emits v = emit_cells-Emits (half (v % 2 ^ 16) ∷ [])

pub emit_op2-Emits :
    (o : VmOp) (a1 a2 : ℕ)
    → Emits (emit_op2 o a1 a2) (op o ∷ half (a1 % 2 ^ 16) ∷ half (a2 % 2 ^ 16) ∷ [])
unfolding emit_op2 emit_op1 emit_op
emit_op2-Emits o a1 a2 =
    Emits-seq (Emits-seq (emit_cells-Emits (op o ∷ [])) (emit_i16-Emits a1)) (emit_i16-Emits a2)

pub emit_op3-Emits :
    (o : VmOp) (a1 a2 a3 : ℕ)
    → Emits
        (emit_op3 o a1 a2 a3)
        (op o ∷ half (a1 % 2 ^ 16) ∷ half (a2 % 2 ^ 16) ∷ half (a3 % 2 ^ 16) ∷ [])
unfolding emit_op3
emit_op3-Emits o a1 a2 a3 = Emits-seq (emit_op2-Emits o a1 a2) (emit_i16-Emits a3)

-- The emitter appends `n` half words at most, which run, wherever they stand and whatever follows them,
-- to their end and leave a frame of which `P` holds.
abbrev pub RunsIn {ℓ} :
    (n : ℕ) → Fpu → (Text → Result Text) → Text → Frame → (Frame → Type ℓ) → Type ℓ
RunsIn n F f t m P =
    (cs : List Cell) × (f t ≡ ok (appended t cs))
    × (length cs ≤ n)
    × (m' : Frame) × P m'
    × ((more : List Cell)
        → Reaches F ((t.cells ++ cs) ++ more) (length t.cells) m (at (length (t.cells ++ cs)) m'))

abbrev pub RunsTo {ℓ} : Fpu → (Text → Result Text) → Text → Frame → (Frame → Type ℓ) → Type ℓ
RunsTo F f t m P = RunsIn 8 F f t m P

pub drop-append : (xs ys : List Cell) → drop (length xs) (xs ++ ys) ≡ ys
drop-append [] ys = refl
drop-append (x ∷ xs) ys = drop-append xs ys

pub step-append :
    (F : Fpu) (xs I : List Cell) (o : VmOp) (m : Frame)
    → step F (xs ++ op o ∷ I) (length xs) m ≡ exec_op F o I m >>? advance (length xs)
unfolding step fetch
step-append F xs I o m =
    ap (λ cells. fetch F (xs ++ op o ∷ I) (length xs) cells m) (drop-append xs (op o ∷ I))

-- One instruction that goes on to the next.
step-one :
    (F : Fpu) (xs : List Cell) (o : VmOp) (args more : List Cell) (m m' : Frame)
    → exec_op F o (args ++ more) m ≡ some (next (length args) m')
    → step F ((xs ++ op o ∷ args) ++ more) (length xs) m ≡ some (at (length (xs ++ op o ∷ args)) m')
unfolding advance
step-one F xs o args more m m' runs =
    let last : suc (length xs) + length args ≡ length (xs ++ op o ∷ args) =
      omega (arith, length-append xs (op o ∷ args)) in
    ap (λ (ys : List Cell). step F ys (length xs) m) (append_assoc xs (op o ∷ args) more)
    ∙ step-append F xs (args ++ more) o m
    ∙ ap (λ r. r >>? advance (length xs)) runs
    ∙ ap (λ (n : ℕ). some (at n m')) last

module _ (F : Fpu) {f : Text → Result Text} (o : VmOp) (args : List Cell) (m m' : Frame)
    {P : Frame → Type 0} (emits : Emits f (op o ∷ args))
    (runs : (more : List Cell) → exec_op F o (args ++ more) m ≡ some (next (length args) m'))
    (post : P m') (short : length args ≤ 6) where
  pub RunsTo-one : (t : Text) → Room t (op o ∷ args) → RunsTo F f t m P
  RunsTo-one t room = (
    op o ∷ args,
    emits t room,
    omega arith,
    m',
    post,
    λ more. steps (step-one F t.cells o args more m m' (runs more)) here,
  )

  after_nop :
      (t : Text) → Room t (op nop ∷ op o ∷ args) → RunsTo F (λ t1. emit_op nop t1 >>= f) t m P
  unfolding emit_op exec_op
  after_nop t room =
      let t1 = appended t (op nop ∷ []) in
      let nop_room : Room t (op nop ∷ []) = omega arith in
      let next_room : Room t1 (op o ∷ args) = omega (arith, length-append t.cells (op nop ∷ [])) in
      let both : t1.cells ++ op o ∷ args ≡ t.cells ++ op nop ∷ op o ∷ args =
        append_assoc t.cells (op nop ∷ []) (op o ∷ args) in
      (
        op nop ∷ op o ∷ args,
        ap (λ (r : Result Text). r >>= f) (emit_cells-Emits (op nop ∷ []) t nop_room)
            ∙ emits t1 next_room
            ∙ ap (λ (xs : List Cell). ok (record t { cells = xs })) both,
        omega arith,
        m',
        post,
        λ more.
            let rest = op o ∷ args ++ more in
            let all : (t.cells ++ op nop ∷ []) ++ rest ≡ (t1.cells ++ op o ∷ args) ++ more =
              sym (append_assoc t1.cells (op o ∷ args) more) in
            let first : step F ((t1.cells ++ op o ∷ args) ++ more) (length t.cells) m
                ≡ some (at (length t1.cells) m) =
              ap (λ (ys : List Cell). step F ys (length t.cells) m) (sym all)
              ∙ step-one F t.cells nop [] rest m m refl in
            subst
              (λ (xs : List Cell). Reaches F (xs ++ more) (length t.cells) m (at (length xs) m'))
              both (steps first (steps (step-one F t1.cells o args more m m' (runs more)) here)),
      )

  -- With a vm_align32 before it.
  pub RunsTo-aligned :
      (k : ℕ) (t : Text)
      → Room t (op nop ∷ op o ∷ args)
      → RunsTo F (λ t1. vm_align32 k t1 >>= f) t m P
  unfolding vm_align32
  RunsTo-aligned k t room = elim (Bool-cases (k == length t.cells % 2)) [
    | inl e ↦
        subst (λ (r : Result Text). OnText (r >>= f)) (sym (ap aligned e))
          (RunsTo-one t (omega arith))
    | inr e ↦ subst (λ (r : Result Text). OnText (r >>= f)) (sym (ap aligned e)) (after_nop t room)
  ]
    where
      aligned : Bool → Result Text
      aligned c = if c then ok t else emit_op nop t

      OnText : Result Text → Type 0
      OnText r = RunsTo F (λ t1. r) t m P

-- The operand is a register, or a constant of the unit.
abbrev pub InReg : IrUnit → ValueType → ℕ → Type 0
InReg iu vt reg = (v : Value) × (value_get iu (vt.value) ≡ ok v) × (v.class ≡ regframe reg)

-- The bits of a constant, as the emitters read them for a width.
abbrev pub width_const : Width → IrUnit → Value → Result ℕ
width_const (narrow n) iu v = value_get_const32 iu v
width_const wide iu v = value_get_const64 iu v

abbrev pub InConst : IrUnit → Width → ValueType → ℕ → Type 0
InConst iu w vt c =
    (v : Value) × (u : ℕ) × (value_get iu (vt.value) ≡ ok v)
    × (v.class ≡ constant u)
    × (width_const w iu v ≡ ok c)

-- The operand's type is one that the machine treats as `code`.
abbrev pub HasCode : IrUnit → ValueType → TypeCode → Type 0
HasCode iu vt code =
    (it : IrType) × (type_get ((iu.table).types) (vt.type) ≡ ok it) × (legalize_type it ≡ code)

-- An operation of a register and a constant, of which the register of the result and the bits are known.
module _ (iu : IrUnit) (o : VmOp) (ret imm : Value) (reg : ℕ) {d c : ℕ}
    (is_reg : value_reg ret ≡ ok d) where
  pub emit_reg_imm8-Emits :
      value_get_const32 iu imm ≡ ok c
      → Emits
          (emit_reg_imm8 iu o ret reg imm)
          (op o ∷ half (d % 2 ^ 16) ∷ half (reg % 2 ^ 16) ∷ half (c % 2 ^ 8) ∷ [])
  unfolding emit_reg_imm8 emit_i8
  emit_reg_imm8-Emits is_const t room =
      rw (is_reg, is_const)
        (Emits-seq (emit_op2-Emits o d reg) (emit_cells-Emits (half (c % 2 ^ 8) ∷ [])) t room)

  pub emit_reg_imm16-Emits :
      value_get_const32 iu imm ≡ ok c
      → Emits
          (emit_reg_imm16 iu o ret reg imm)
          (op o ∷ half (d % 2 ^ 16) ∷ half (reg % 2 ^ 16) ∷ half (c % 2 ^ 16) ∷ [])
  unfolding emit_reg_imm16
  emit_reg_imm16-Emits is_const t room =
      rw (is_reg, is_const) (Emits-seq (emit_op2-Emits o d reg) (emit_i16-Emits c) t room)

  pub emit_reg_imm32-Emits :
      value_get_const32 iu imm ≡ ok c
      → Emits
          (emit_reg_imm32 iu o ret reg imm)
          (op o ∷ half (d % 2 ^ 16) ∷ half (reg % 2 ^ 16) ∷ halves32 c)
  unfolding emit_reg_imm32 emit_i32
  emit_reg_imm32-Emits is_const t room =
      rw (is_reg, is_const)
        (Emits-seq (emit_op2-Emits o d reg) (emit_cells-Emits (halves32 c)) t room)

  pub emit_op_imm64-Emits :
      value_get_const64 iu imm ≡ ok c
      → Emits
          (emit_op_imm64 iu o ret reg imm)
          (op o ∷ half (d % 2 ^ 16) ∷ half (reg % 2 ^ 16) ∷ halves64 c)
  unfolding emit_op_imm64 emit_i64
  emit_op_imm64-Emits is_const t room =
      rw (is_reg, is_const)
        (Emits-seq (emit_op2-Emits o d reg) (emit_cells-Emits (halves64 c)) t room)

-- The number that the half words make up.
pub halves32-sum : (c : ℕ) → c % 2 ^ 16 + c / 2 ^ 16 % 2 ^ 16 * 2 ^ 16 ≡ c % 2 ^ 32
halves32-sum c = omega arith

pub halves64-sum :
    (c : ℕ)
    → c % 2 ^ 16
        + c / 2 ^ 16 % 2 ^ 16 * 2 ^ 16
        + (c / 2 ^ 32 % 2 ^ 16 + c / 2 ^ 48 % 2 ^ 16 * 2 ^ 16) * 2 ^ 32
      ≡ c % 2 ^ 64
halves64-sum c = omega arith
