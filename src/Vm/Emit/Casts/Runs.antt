-- ===== src/Vm/Emit/Casts/Runs.antt =====
-- src/vmir_vm.c: emit_cast between integers, and what vm_exec computes with the code.
use vmir.Common.{ℕ, ◌+◌, ◌%◌, ◌^◌, ◌<◌, ◌≤◌, ◌≡◌, refl, ap, some, List, [], ◌∷◌, subst, arith}
use native.Mathlib.Nat.{mod-eq_of_lt}
use vmir.Parser.{IrUnit, value_reg, class_reg}
use vmir.Vm.{
  CastOp, cast, cast_8_trunc_16, cast_8_trunc_32, cast_8_trunc_64, cast_16_trunc_32,
  cast_16_trunc_64, cast_32_trunc_64, cast_16_zext_8, cast_32_zext_8, cast_32_zext_16,
  cast_64_zext_8, cast_64_zext_16, cast_64_zext_32, cast_16_sext_8, cast_32_sext_8, cast_32_sext_16,
  cast_64_sext_8, cast_64_sext_16, cast_64_sext_32, Cell, half, Text, text_size,
}
use vmir.Vm.Alu.{sext as extend}
use vmir.Vm.Alu.Truncate.{Narrow, n8, n16, n32, bits}
use vmir.Vm.Frame.{Frame, rd32, rd64, wr32, wr64}
use vmir.Vm.Frame.ReadWrite.{rd32-lt, rd32-half, rd64-half, wr32-half, wr64-half}
use vmir.Vm.Exec.{next}
use vmir.Vm.Exec.Float.{Fpu}
use vmir.Vm.Exec.Casts.{exec_cast, cast_value, cast_is_wide}
use vmir.Vm.Exec.Step.{exec_op}
use vmir.Vm.Emit.Words.{
  Width, narrow, wide, width_bits, width_code, read, Computes, Computes-wr32, Computes-wr64,
}
use vmir.Vm.Emit.Runs.{RunsTo, RunsTo-one, InReg, HasCode, emit_op2-Emits}
use vmir.Vm.Emit.Casts.{
  CastCode, trunc, zext, sext, convert, cast_plan, cast_to_int, InstrCast, emit_cast_plan,
  emit_cast,
}

-- The instruction of a cast, and that it computes `v`.
abbrev Casts : Fpu → CastCode → (src dst : Width) → (d s v : ℕ) → Frame → Type 0
Casts F c src dst d s v m =
    (o : CastOp) × (cast_plan (width_code dst) c (width_code src) ≡ convert o)
    × (m' : Frame) × ((more : List Cell)
        → exec_op F (cast o) (half (d % 2 ^ 16) ∷ half (s % 2 ^ 16) ∷ more) m ≡ some (next 2 m'))
    × Computes dst m d v m'

at_least8 : (w : Width) → 8 ≤ width_bits w
at_least8 (narrow n8) = omega arith
at_least8 (narrow n16) = omega arith
at_least8 (narrow n32) = omega arith
at_least8 wide = omega arith

at_most32 : (n : Narrow) → bits n ≤ 32
at_most32 n8 = omega arith
at_most32 n16 = omega arith
at_most32 n32 = omega arith

at_most64 : (w : Width) → width_bits w ≤ 64
at_most64 (narrow n) = omega (arith, at_most32 n)
at_most64 wide = omega arith

module _ (F : Fpu) (d s : ℕ) (m : Frame) where
  truncates :
      (src dst : Width)
      → width_bits dst < width_bits src
      → Casts F trunc src dst d s (read src m s % 2 ^ width_bits dst) m
  unfolding cast_plan cast_to_int exec_op exec_cast cast_value cast_is_wide
  truncates (narrow n16) (narrow n8) h = (
    cast_8_trunc_16,
    refl,
    wr32 m d (rd32 m s % 2 ^ 16),
    λ more. rw (rd32-half m s) (ap (λ f. some (next 2 f)) (wr32-half m d _)),
    Computes-wr32 n8 m d _ _ (omega arith),
  )
  truncates (narrow n32) (narrow n8) h = (
    cast_8_trunc_32,
    refl,
    wr32 m d (rd32 m s),
    λ more. rw (rd32-half m s) (ap (λ f. some (next 2 f)) (wr32-half m d _)),
    Computes-wr32 n8 m d _ _ (omega arith),
  )
  truncates wide (narrow n8) h = (
    cast_8_trunc_64,
    refl,
    wr32 m d (rd64 m s % 2 ^ 32),
    λ more. rw (rd64-half m s) (ap (λ f. some (next 2 f)) (wr32-half m d _)),
    Computes-wr32 n8 m d _ _ (omega arith),
  )
  truncates (narrow n32) (narrow n16) h = (
    cast_16_trunc_32,
    refl,
    wr32 m d (rd32 m s % 2 ^ 16),
    λ more. rw (rd32-half m s) (ap (λ f. some (next 2 f)) (wr32-half m d _)),
    Computes-wr32 n16 m d _ _ (omega arith),
  )
  truncates wide (narrow n16) h = (
    cast_16_trunc_64,
    refl,
    wr32 m d (rd64 m s % 2 ^ 32),
    λ more. rw (rd64-half m s) (ap (λ f. some (next 2 f)) (wr32-half m d _)),
    Computes-wr32 n16 m d _ _ (omega arith),
  )
  truncates wide (narrow n32) h = (
    cast_32_trunc_64,
    refl,
    wr32 m d (rd64 m s % 2 ^ 32),
    λ more. rw (rd64-half m s) (ap (λ f. some (next 2 f)) (wr32-half m d _)),
    Computes-wr32 n32 m d _ _ (omega arith),
  )
  truncates (narrow n8) dst h = absurd (omega (arith, at_least8 dst))
  truncates src dst h = absurd (omega arith)

  zext_extends :
      (src dst : Width)
      → width_bits src < width_bits dst
      → Casts F zext src dst d s (read src m s) m
  unfolding cast_plan cast_to_int exec_op exec_cast cast_value cast_is_wide
  zext_extends (narrow n8) (narrow n16) h = (
    cast_16_zext_8,
    refl,
    wr32 m d (rd32 m s % 2 ^ 8),
    λ more. rw (rd32-half m s) (ap (λ f. some (next 2 f)) (wr32-half m d _)),
    Computes-wr32 n16 m d _ _ (ground arith),
  )
  zext_extends (narrow n8) (narrow n32) h = (
    cast_32_zext_8,
    refl,
    wr32 m d (rd32 m s % 2 ^ 8),
    λ more. rw (rd32-half m s) (ap (λ f. some (next 2 f)) (wr32-half m d _)),
    Computes-wr32 n32 m d _ _ (ground arith),
  )
  zext_extends (narrow n16) (narrow n32) h = (
    cast_32_zext_16,
    refl,
    wr32 m d (rd32 m s % 2 ^ 16),
    λ more. rw (rd32-half m s) (ap (λ f. some (next 2 f)) (wr32-half m d _)),
    Computes-wr32 n32 m d _ _ (ground arith),
  )
  zext_extends (narrow n8) wide h = (
    cast_64_zext_8,
    refl,
    wr64 m d (rd32 m s % 2 ^ 8),
    λ more. rw (rd32-half m s) (ap (λ f. some (next 2 f)) (wr64-half m d _)),
    Computes-wr64 m d _ (ground arith),
  )
  zext_extends (narrow n16) wide h = (
    cast_64_zext_16,
    refl,
    wr64 m d (rd32 m s % 2 ^ 16),
    λ more. rw (rd32-half m s) (ap (λ f. some (next 2 f)) (wr64-half m d _)),
    Computes-wr64 m d _ (ground arith),
  )
  zext_extends (narrow n32) wide h = (
    cast_64_zext_32,
    refl,
    wr64 m d (rd32 m s % 2 ^ 32),
    λ more.
        rw (rd32-half m s, mod-eq_of_lt (rd32-lt m s))
          (ap (λ f. some (next 2 f)) (wr64-half m d _)),
    Computes-wr64 m d _ (ground arith),
  )
  zext_extends (narrow n32) (narrow n) h = absurd (omega (arith, at_most32 n))
  zext_extends wide dst h = absurd (omega (arith, at_most64 dst))
  zext_extends src dst h = absurd (omega arith)

  sext_extends :
      (src dst : Width)
      → width_bits src < width_bits dst
      → Casts F sext src dst d s (extend (width_bits src) (width_bits dst) (read src m s)) m
  unfolding cast_plan cast_to_int exec_op exec_cast cast_value cast_is_wide
  sext_extends (narrow n8) (narrow n16) h = (
    cast_16_sext_8,
    refl,
    wr32 m d (extend 8 32 (rd32 m s % 2 ^ 8)),
    λ more. rw (rd32-half m s) (ap (λ f. some (next 2 f)) (wr32-half m d _)),
    Computes-wr32 n16 m d _ _ (ground arith),
  )
  sext_extends (narrow n8) (narrow n32) h = (
    cast_32_sext_8,
    refl,
    wr32 m d (extend 8 32 (rd32 m s % 2 ^ 8)),
    λ more. rw (rd32-half m s) (ap (λ f. some (next 2 f)) (wr32-half m d _)),
    Computes-wr32 n32 m d _ _ (ground arith),
  )
  sext_extends (narrow n16) (narrow n32) h = (
    cast_32_sext_16,
    refl,
    wr32 m d (extend 16 32 (rd32 m s % 2 ^ 16)),
    λ more. rw (rd32-half m s) (ap (λ f. some (next 2 f)) (wr32-half m d _)),
    Computes-wr32 n32 m d _ _ (ground arith),
  )
  sext_extends (narrow n8) wide h = (
    cast_64_sext_8,
    refl,
    wr64 m d (extend 8 64 (rd32 m s % 2 ^ 8)),
    λ more. rw (rd32-half m s) (ap (λ f. some (next 2 f)) (wr64-half m d _)),
    Computes-wr64 m d _ (ground arith),
  )
  sext_extends (narrow n16) wide h = (
    cast_64_sext_16,
    refl,
    wr64 m d (extend 16 64 (rd32 m s % 2 ^ 16)),
    λ more. rw (rd32-half m s) (ap (λ f. some (next 2 f)) (wr64-half m d _)),
    Computes-wr64 m d _ (ground arith),
  )
  sext_extends (narrow n32) wide h = (
    cast_64_sext_32,
    refl,
    wr64 m d (extend 32 64 (rd32 m s % 2 ^ 32)),
    λ more.
        rw (rd32-half m s, mod-eq_of_lt (rd32-lt m s))
          (ap (λ f. some (next 2 f)) (wr64-half m d _)),
    Computes-wr64 m d _ (ground arith),
  )
  sext_extends (narrow n32) (narrow n) h = absurd (omega (arith, at_most32 n))
  sext_extends wide dst h = absurd (omega (arith, at_most64 dst))
  sext_extends src dst h = absurd (omega arith)

-- What LLVM's trunc, zext and sext of a word of `src` to one of `dst` bits are, where they exist.
abbrev pub CastValue : CastCode → (src dst : Width) → (a v : ℕ) → Type 0
CastValue trunc src dst a v = (width_bits dst < width_bits src) × (a % 2 ^ width_bits dst ≡ v)
CastValue zext src dst a v = (width_bits src < width_bits dst) × (a ≡ v)
CastValue sext src dst a v =
    (width_bits src < width_bits dst) × (extend (width_bits src) (width_bits dst) a ≡ v)
CastValue c src dst a v = ⊥

casts :
    (F : Fpu) (c : CastCode) (src dst : Width) (d s v : ℕ) (m : Frame)
    → CastValue c src dst (read src m s) v
    → Casts F c src dst d s v m
casts F trunc src dst d s v m (h, e) =
    subst (λ x. Casts F trunc src dst d s x m) e (truncates F d s m src dst h)
casts F zext src dst d s v m (h, e) =
    subst (λ x. Casts F zext src dst d s x m) e (zext_extends F d s m src dst h)
casts F sext src dst d s v m (h, e) =
    subst (λ x. Casts F sext src dst d s x m) e (sext_extends F d s m src dst h)
casts F c src dst d s v m h = absurd h

-- For a truncation, a zero extension or a sign extension between integers of 8, 16, 32 and 64 bits,
-- from a wider to a narrower or the other way round as the operation wants, and two registers, in a
-- text with room for three half words more, emit_cast emits code that vm_exec runs to its end,
-- whatever stands before and after it; the register of the result then holds, in the low bits of its
-- width, the remainder modulo two to that width, the word itself or the word with its sign bit
-- repeated, of the low bits of the operand, and all bytes of the frame but those of that register
-- are as before.
pub emit_cast-runs :
    (F : Fpu) (iu : IrUnit) (ii : InstrCast) (src dst : Width) (d s v : ℕ) (t : Text) (m : Frame)
    → HasCode iu (ii.value) (width_code src)
    → HasCode iu (ii.ret) (width_code dst)
    → InReg iu (ii.value) s
    → InReg iu (ii.ret) d
    → text_size t + 6 < t.memsize
    → CastValue (ii.op) src dst (read src m s) v
    → RunsTo F (emit_cast iu ii) t m (Computes dst m d v)
unfolding emit_cast emit_cast_plan value_reg class_reg text_size
emit_cast-runs F iu ii src dst d s v t m (sty, sty_eq, scode) (dty, dty_eq, dcode) (sv, sv_eq, sc)
      (dv, dv_eq, dc) room value =
    let (o, plan, m', runs, computes) = casts F (ii.op) src dst d s v m value in
    RunsTo-one F {f = emit_cast iu ii} (cast o) (half (d % 2 ^ 16) ∷ half (s % 2 ^ 16) ∷ []) m m'
      (λ t1 h.
        rw (sv_eq, dv_eq, sty_eq, dty_eq, sc, dc, scode, dcode, plan)
          (emit_op2-Emits (cast o) d s t1 h))
      runs computes (omega arith) t (omega arith)
