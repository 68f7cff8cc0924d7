-- ===== src/Tests/Machines.antt =====
-- A unit with three registers and a constant, the code for its instructions, and their runs.
use vmir.Common.{
  ℕ, suc, ◌*◌, ◌%◌, ◌^◌, ◌≡◌, refl, true, false, Option, none, some, List, [], ◌∷◌, ◌++◌, length,
  ap, ◌==◌, if◌then◌else◌, arith,
}
use vmir.Types.{int8, int32, Result, ok, ◌>>=◌, c_int8, c_int32, type_get, legalize_type, it_code}
use vmir.Parser.{regframe, constant, IrUnit, value_get, value_get_const32, const32_of, const32_bits}
use vmir.Vm.{add, mul, icmp, slt, Text, text_size, Cell, op, half, select32rc}
use vmir.Vm.Alu.{c_binop, c_compare}
use vmir.Vm.Alu.Truncate.{n8, n32}
use vmir.Vm.Frame.{Frame, rd32, peek32}
use vmir.Vm.Exec.{bit}
use vmir.Vm.Exec.Float.{Fpu}
use vmir.Vm.Exec.Search.{search_path}
use vmir.Vm.Exec.Search.Sorted.{Chosen, search_path-Chosen}
use vmir.Vm.Exec.Step.{State, step, at}
use vmir.Vm.Emit.{ValueType, InstrBinop, InstrCmp}
use vmir.Vm.Emit.Words.{narrow, read, Computes}
use vmir.Vm.Emit.Runs.{RunsIn, RunsTo, InReg, InConst, HasCode}
use vmir.Vm.Emit.Binops.{emit_binop}
use vmir.Vm.Emit.Binops.RegReg.{emit_binop-reg_runs}
use vmir.Vm.Emit.Binops.RegConst.{emit_binop-const_runs}
use vmir.Vm.Emit.Compares.{emit_cmp2}
use vmir.Vm.Emit.Compares.Runs.{emit_cmp2-reg_runs}
use vmir.Vm.Emit.Compares.Consts.{emit_cmp2-swapped_runs}
use vmir.Vm.Emit.Casts.{InstrCast, emit_cast, zext}
use vmir.Vm.Emit.Casts.Runs.{emit_cast-runs}
use vmir.Vm.Emit.Branches.{InstrCmpBranch, emit_cmp_branch}
use vmir.Vm.Emit.Branches.Fixup.{Blocks, fixup_at, branch_fixup}
use vmir.Vm.Emit.Branches.Lands.{b32, selected, emit_cmp_branch-lands}
use vmir.Vm.Emit.Switches.{InstrSwitch, InstrSelect, emit_switch, emit_select}
use vmir.Vm.Emit.Blocks.{ic_binop, instr_emit}
use vmir.Vm.Emit.Blocks.Runs.{binop_regs, binop_const, Sequence, instr_emit-runs}

-- A processor on which every float is 0.
abbrev plain : Fpu
plain = record {
  arith = λ d o x y. 0;
  isnan = λ d x. false;
  equal = λ d x y. true;
  less = λ d x y. false;
  less_equal = λ d x y. true;
  convert = λ o x. 0;
}

abbrev unit : IrUnit
unit = record {
  table = record {
    types = int32 ∷ int8 ∷ [];
    types_created = true;
    current_struct_name = none;
    capacity = 2;
  };
  values =
      some (record { class = regframe 8; type = 0 })
      ∷ some (record { class = regframe 12; type = 0 })
      ∷ some (record { class = regframe 16; type = 0 })
      ∷ some (record { class = constant 5; type = 0 })
      ∷ some (record { class = regframe 20; type = 1 })
      ∷ [];
  next_value = 5;
  functions = [];
  functions_with_bodies = [];
  initializers = [];
  data_ptr = 0;
  attribute_groups = [];
  attrsets = [];
  current_type = 0;
  version = 1;
  triple = none;
  vstoffset = 0;
}

abbrev int : ℕ → ValueType
int n = record { value = n; type = 0 }

abbrev room : Text
room = record { cells = []; memsize = 256; branch_fixups = [] }

-- Every byte is 3, so every word is 0x03030303.
abbrev threes : Frame
threes a = 3

int-HasCode : (n : ℕ) → HasCode unit (int n) c_int32
unfolding type_get legalize_type it_code
int-HasCode n = (int32, refl, refl)

left-InReg : InReg unit (int 0) 8
unfolding value_get
left-InReg = (record { class = regframe 8; type = 0 }, refl, refl)

right-InReg : InReg unit (int 1) 12
unfolding value_get
right-InReg = (record { class = regframe 12; type = 0 }, refl, refl)

result-InReg : InReg unit (int 2) 16
unfolding value_get
result-InReg = (record { class = regframe 16; type = 0 }, refl, refl)

five-InConst : InConst unit (narrow n32) (int 3) 5
unfolding value_get value_get_const32 const32_of const32_bits type_get
five-InConst = (record { class = constant 5; type = 0 }, 5, refl, refl, refl)

abbrev sum : InstrBinop
sum = record { op = add; lhs_value = int 0; rhs_value = int 1; ret = int 2 }

sum-threes : c_binop 32 add (rd32 threes 8 % 2 ^ 32) (rd32 threes 12 % 2 ^ 32) ≡ some 101058054
unfolding c_binop rd32 peek32
sum-threes = refl

emit_binop-reg_runs_example :
    RunsTo plain (emit_binop unit sum) room threes (Computes (narrow n32) threes 16 101058054)
unfolding text_size
emit_binop-reg_runs_example =
    emit_binop-reg_runs plain unit sum (narrow n32) 16 8 12 101058054 room threes (int-HasCode 0)
      left-InReg right-InReg result-InReg (omega arith) tt sum-threes

abbrev product : InstrBinop
product = record { op = mul; lhs_value = int 0; rhs_value = int 3; ret = int 2 }

product-threes : c_binop 32 mul (rd32 threes 8 % 2 ^ 32) (5 % 2 ^ 32) ≡ some 252645135
unfolding c_binop rd32 peek32
product-threes = refl

emit_binop-const_runs_example :
    RunsTo plain (emit_binop unit product) room threes (Computes (narrow n32) threes 16 252645135)
unfolding text_size
emit_binop-const_runs_example =
    emit_binop-const_runs plain unit product (narrow n32) 16 8 5 252645135 room threes
      (int-HasCode 0) left-InReg five-InConst result-InReg (omega arith) tt product-threes

abbrev less : InstrCmp
less = record { op = icmp slt; lhs_value = int 0; rhs_value = int 1; ret = int 2 }

emit_cmp2-reg_runs_example : RunsTo plain (emit_cmp2 plain unit less) room threes (
    Computes
      (narrow n32)
      threes
      16
      (bit (c_compare 32 slt (read (narrow n32) threes 8) (read (narrow n32) threes 12))))
unfolding text_size
emit_cmp2-reg_runs_example =
    emit_cmp2-reg_runs plain unit less (narrow n32) slt 16 8 12 room threes refl (int-HasCode 0)
      left-InReg right-InReg result-InReg (omega arith)

abbrev five_less : InstrCmp
five_less = record { op = icmp slt; lhs_value = int 3; rhs_value = int 1; ret = int 2 }

emit_cmp2-swapped_runs_example : RunsTo plain (emit_cmp2 plain unit five_less) room threes (
    Computes
      (narrow n32)
      threes
      16
      (bit (c_compare 32 slt (5 % 2 ^ 32) (read (narrow n32) threes 12))))
unfolding text_size
emit_cmp2-swapped_runs_example =
    emit_cmp2-swapped_runs plain unit five_less (narrow n32) slt 16 12 5 room threes refl
      (int-HasCode 3) five-InConst right-InReg result-InReg (omega arith)

abbrev byte : ValueType
byte = record { value = 4; type = 1 }

byte-HasCode : HasCode unit byte c_int8
unfolding type_get legalize_type it_code
byte-HasCode = (int8, refl, refl)

byte-InReg : InReg unit byte 20
unfolding value_get
byte-InReg = (record { class = regframe 20; type = 1 }, refl, refl)

abbrev widening : InstrCast
widening = record { value = byte; op = zext; ret = int 2 }

byte-threes : rd32 threes 20 % 2 ^ 8 ≡ 3
unfolding rd32 peek32
byte-threes = refl

emit_cast-runs_example :
    RunsTo plain (emit_cast unit widening) room threes (Computes (narrow n32) threes 16 3)
unfolding text_size
emit_cast-runs_example =
    emit_cast-runs plain unit widening (narrow n8) (narrow n32) 16 20 3 room threes byte-HasCode
      (int-HasCode 2) byte-InReg result-InReg (omega arith) (omega arith, byte-threes)

abbrev loop : InstrCmpBranch
loop = record {
  op = icmp slt;
  lhs_value = int 0;
  rhs_value = int 1;
  true_branch = 0;
  false_branch = 1;
}

-- Block 0 starts the text, and block 1 follows the branch.
abbrev two_blocks : Blocks
two_blocks n = if n == 0 then some 0 else some 10

emit_cmp_branch-lands_example :
    (t' : Text) × (emit_cmp_branch unit loop room ≡ ok t')
    × (t'.branch_fixups ≡ room.branch_fixups ++ text_size room ∷ [])
    × ((more : List Cell)
        → (cells : List Cell) × (fixup_at two_blocks (text_size room) (t'.cells ++ more) ≡ ok cells)
          × (step plain cells (length room.cells) threes
              ≡ some (at (if selected b32 slt threes 8 12 then 0 else 5) threes)))
unfolding text_size
emit_cmp_branch-lands_example =
    emit_cmp_branch-lands plain unit loop b32 slt 8 12 0 5 room threes two_blocks refl
      (int-HasCode 0) left-InReg right-InReg (omega arith) refl refl (omega arith, omega arith)
      (omega arith, omega arith)

-- The keys 10, 20 and 30.
abbrev tens : ℕ → Option ℕ
tens n = some (10 * suc n)

search_path-Chosen_example :
    (n : ℕ) × (search_path tens 20 3 ≡ some n) × Chosen (λ n. 10 * suc n) 20 3 n
search_path-Chosen_example =
    search_path-Chosen tens (λ n. 10 * suc n) 20 3 (λ i h. refl) (λ i j h1 h2. omega arith)

-- The sum of two registers, and then five times the sum.
abbrev times_five : InstrBinop
times_five = record { op = mul; lhs_value = int 2; rhs_value = int 3; ret = int 2 }

abbrev AtEnd : Frame → Type 0
AtEnd m = read (narrow n32) m 16 ≡ 505290270

sum-times_five : (x : ℕ) → x ≡ 101058054 → c_binop 32 mul x (5 % 2 ^ 32) ≡ some 505290270
unfolding c_binop
sum-times_five x e = ap (λ s. c_binop 32 mul s (5 % 2 ^ 32)) e

sum-Sequence : Sequence unit (ic_binop sum ∷ ic_binop times_five ∷ []) threes AtEnd
sum-Sequence = (
  narrow n32,
  16,
  101058054,
  binop_regs (int-HasCode 0) left-InReg right-InReg result-InReg tt sum-threes,
  λ m' sum_done. (
    narrow n32,
    16,
    505290270,
    binop_const (int-HasCode 2) result-InReg five-InConst result-InReg tt
        (sum-times_five (rd32 m' 16 % 2 ^ 32) (sum_done.0)),
    λ m2 all_done. all_done.0,
  ),
)

instr_emit-runs_example :
    RunsIn
      (8 * length (ic_binop sum ∷ ic_binop times_five ∷ []))
      plain
      (instr_emit plain unit none (ic_binop sum ∷ ic_binop times_five ∷ []))
      room
      threes
      AtEnd
unfolding text_size
instr_emit-runs_example =
    instr_emit-runs plain unit none (ic_binop sum ∷ ic_binop times_five ∷ []) room threes AtEnd
      sum-Sequence (omega arith)

-- Two cases, one of them the word that register 8 holds.
abbrev cases : InstrSwitch
cases = record {
  value = int 0;
  defblock = 3;
  paths = record { v64 = 5; block = 1 } ∷ record { v64 = 50529027; block = 2 } ∷ [];
}

abbrev hundreds : Blocks
hundreds b = some (100 * b)

-- The first step of the code that a switch is emitted and resolved to.
abbrev switched : InstrSwitch → Result (Option State)
switched ii = emit_switch unit ii room >>= λ t.
    branch_fixup hundreds (t.branch_fixups) (t.cells) >>= λ cells. ok (step plain cells 0 threes)

switch_takes_case : switched cases ≡ ok (some (at 100 threes))
unfolding emit_switch branch_fixup step
switch_takes_case = refl

switch_takes_default :
    switched (record cases { paths = record { v64 = 5; block = 1 } ∷ [] })
    ≡ ok (some (at 150 threes))
unfolding emit_switch branch_fixup step
switch_takes_default = refl

-- Register 12 or 5, as register 8 says.
abbrev choice : InstrSelect
choice = record { true_value = int 1; false_value = int 3; pred = int 0; ret = int 2 }

select_choice :
    emit_select unit choice room
    ≡ ok (record room { cells = op select32rc ∷ half 16 ∷ half 8 ∷ half 12 ∷ half 5 ∷ half 0 ∷ [] })
unfolding emit_select
select_choice = refl
