-- ===== src/Vm/Exec/Search.antt =====
-- src/vmir_vm.c: vm_exec, the binary searches of the switches.
pub mod Sorted
use vmir.Common.{
  ℕ, zero, suc, ◌+◌, ◌-◌, ◌*◌, ◌/◌, ◌^◌, Bool, true, false, ◌&&◌, Option, none, some, List, ltb,
  leb, ◌==◌, if◌then◌else◌,
}
use vmir.Vm.{Cell}
use vmir.Vm.Frame.{Frame}
use vmir.Vm.Exec.{Effect, jump, ◌>>?◌, cell_arg, imm8, imm32, imm64, reg8, reg32, reg64}

-- The loop `while(imin < imax)`, on the keys of the text; none is a key that cannot be read, or a search
-- longer than the fuel.
unfoldable pub search_loop : (fuel : ℕ) → (ℕ → Option ℕ) → (u imin imax : ℕ) → Option (ℕ × ℕ)
search_loop zero key u imin imax = if ltb imin imax then none else some (imin, imax)
search_loop (suc fuel) key u imin imax =
    let imid = (imin + imax) / 2 in
    let upper = search_loop fuel key u (suc imid) imax in
    let lower = search_loop fuel key u imin imid in
    if ltb imin imax
    then (key imid >>? λ k. if ltb k u then upper else lower)
    else some (imin, imax)

-- The test after the loop: the place of the path, or `p`, which is that of the default.
unfoldable pub path_found : (ℕ → Option ℕ) → (u p : ℕ) → ℕ × ℕ → Option ℕ
path_found key u p (imin, imax) =
    if imax == imin then (key imin >>? λ k. some (if k == u then imin else p)) else some p

-- The place of the path to take. Of no paths, `imax` is -1.
unfoldable pub search_path : (ℕ → Option ℕ) → (u p : ℕ) → Option ℕ
unfolding search_loop path_found
search_path key u zero = some 0
search_path key u (suc n) = search_loop (suc n) key u 0 n >>? path_found key u (suc n)

-- The paths follow the number of them; a key takes `size` half words.
unfoldable pub exec_switch :
    (size : ℕ) → (ℕ → Option ℕ) → Option ℕ → List Cell → Frame → Option Effect
unfolding search_path cell_arg
exec_switch size key v I m = v >>? λ u. cell_arg I 1 >>? λ p.
    search_path key u p >>? λ n. cell_arg I (2 + p * size + n) >>? λ off. some (jump off m)

unfoldable pub exec_switch8 : List Cell → Frame → Option Effect
unfolding exec_switch imm8 reg8
exec_switch8 I m = exec_switch 1 (λ n. imm8 I (2 + n)) (reg8 I m 0) I m

unfoldable pub exec_switch32 : List Cell → Frame → Option Effect
unfolding exec_switch imm32 reg32
exec_switch32 I m = exec_switch 2 (λ n. imm32 I (2 + n * 2)) (reg32 I m 0) I m

unfoldable pub exec_switch64 : List Cell → Frame → Option Effect
unfolding exec_switch imm64 reg64
exec_switch64 I m = exec_switch 4 (λ n. imm64 I (2 + n * 4)) (reg64 I m 0) I m
