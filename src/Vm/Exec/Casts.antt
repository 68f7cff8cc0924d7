-- ===== src/Vm/Exec/Casts.antt =====
-- src/vmir_vm.c: vm_exec, the casts.
use vmir.Common.{ℕ, ◌-◌, ◌%◌, ◌^◌, Bool, true, false, Option, some, List, ◌==◌, if◌then◌else◌}
use vmir.Vm.{
  CastOp, cast_1_trunc_8, cast_1_trunc_16, cast_8_zext_1, cast_8_sext_1, cast_8_trunc_16,
  cast_8_trunc_32, cast_8_trunc_64, cast_16_zext_1, cast_16_zext_8, cast_16_sext_8,
  cast_16_trunc_32, cast_16_trunc_64, cast_16_fptosi_flt, cast_16_fptoui_flt, cast_16_fptosi_dbl,
  cast_16_fptoui_dbl, cast_32_trunc_64, cast_32_sext_1, cast_32_zext_8, cast_32_sext_8,
  cast_32_zext_16, cast_32_sext_16, cast_32_fptosi_flt, cast_32_fptoui_flt, cast_32_fptosi_dbl,
  cast_32_fptoui_dbl, cast_64_zext_1, cast_64_sext_1, cast_64_zext_8, cast_64_sext_8,
  cast_64_zext_16, cast_64_sext_16, cast_64_zext_32, cast_64_sext_32, cast_64_fptosi_flt,
  cast_64_fptoui_flt, cast_64_fptosi_dbl, cast_64_fptoui_dbl, cast_flt_fptrunc_dbl,
  cast_flt_sitofp_8, cast_flt_uitofp_8, cast_flt_sitofp_16, cast_flt_uitofp_16, cast_flt_sitofp_32,
  cast_flt_uitofp_32, cast_flt_sitofp_64, cast_flt_uitofp_64, cast_dbl_fpext_flt, cast_dbl_sitofp_8,
  cast_dbl_uitofp_8, cast_dbl_sitofp_16, cast_dbl_uitofp_16, cast_dbl_sitofp_32, cast_dbl_uitofp_32,
  cast_dbl_sitofp_64, cast_dbl_uitofp_64, Cell,
}
use vmir.Vm.Alu.{sext}
use vmir.Vm.Frame.{Frame}
use vmir.Vm.Exec.{Effect, ◌>>?◌, reg8, reg16, reg32, reg64, ar32, ar64}
use vmir.Vm.Exec.Float.{Fpu}

-- Whether the cast writes a register of 64 bits.
unfoldable pub cast_is_wide : CastOp → Bool
cast_is_wide cast_64_zext_1 = true
cast_is_wide cast_64_sext_1 = true
cast_is_wide cast_64_zext_8 = true
cast_is_wide cast_64_sext_8 = true
cast_is_wide cast_64_zext_16 = true
cast_is_wide cast_64_sext_16 = true
cast_is_wide cast_64_zext_32 = true
cast_is_wide cast_64_sext_32 = true
cast_is_wide cast_64_fptosi_flt = true
cast_is_wide cast_64_fptoui_flt = true
cast_is_wide cast_64_fptosi_dbl = true
cast_is_wide cast_64_fptoui_dbl = true
cast_is_wide cast_dbl_fpext_flt = true
cast_is_wide cast_dbl_sitofp_8 = true
cast_is_wide cast_dbl_uitofp_8 = true
cast_is_wide cast_dbl_sitofp_16 = true
cast_is_wide cast_dbl_uitofp_16 = true
cast_is_wide cast_dbl_sitofp_32 = true
cast_is_wide cast_dbl_uitofp_32 = true
cast_is_wide cast_dbl_sitofp_64 = true
cast_is_wide cast_dbl_uitofp_64 = true
cast_is_wide o = false

module _ (F : Fpu) where
  -- The value that the cast stores.
  unfoldable pub cast_value : CastOp → List Cell → Frame → Option ℕ
  unfolding reg8 reg16 reg32 reg64
  cast_value cast_1_trunc_8 I m = reg8 I m 1 >>? λ x. some (if x == 0 then 0 else 1)
  cast_value cast_1_trunc_16 I m = reg16 I m 1 >>? λ x. some (if x == 0 then 0 else 1)
  cast_value cast_8_zext_1 I m = reg32 I m 1
  cast_value cast_8_sext_1 I m = reg32 I m 1 >>? λ x. some (if x == 0 then 0 else 2 ^ 32 - 1)
  cast_value cast_8_trunc_16 I m = reg16 I m 1
  cast_value cast_8_trunc_32 I m = reg32 I m 1
  cast_value cast_8_trunc_64 I m = reg64 I m 1 >>? λ x. some (x % 2 ^ 32)
  cast_value cast_16_zext_1 I m = reg32 I m 1
  cast_value cast_16_zext_8 I m = reg8 I m 1
  cast_value cast_16_sext_8 I m = reg8 I m 1 >>? λ x. some (sext 8 32 x)
  cast_value cast_16_trunc_32 I m = reg16 I m 1
  cast_value cast_16_trunc_64 I m = reg64 I m 1 >>? λ x. some (x % 2 ^ 32)
  cast_value cast_16_fptosi_flt I m = reg32 I m 1 >>? λ x. some (F.convert cast_16_fptosi_flt x)
  cast_value cast_16_fptoui_flt I m = reg32 I m 1 >>? λ x. some (F.convert cast_16_fptoui_flt x)
  cast_value cast_16_fptosi_dbl I m = reg64 I m 1 >>? λ x. some (F.convert cast_16_fptosi_dbl x)
  cast_value cast_16_fptoui_dbl I m = reg64 I m 1 >>? λ x. some (F.convert cast_16_fptoui_dbl x)
  cast_value cast_32_trunc_64 I m = reg64 I m 1 >>? λ x. some (x % 2 ^ 32)
  cast_value cast_32_sext_1 I m = reg32 I m 1 >>? λ x. some (if x == 0 then 0 else 2 ^ 32 - 1)
  cast_value cast_32_zext_8 I m = reg8 I m 1
  cast_value cast_32_sext_8 I m = reg8 I m 1 >>? λ x. some (sext 8 32 x)
  cast_value cast_32_zext_16 I m = reg16 I m 1
  cast_value cast_32_sext_16 I m = reg16 I m 1 >>? λ x. some (sext 16 32 x)
  cast_value cast_32_fptosi_flt I m = reg32 I m 1 >>? λ x. some (F.convert cast_32_fptosi_flt x)
  cast_value cast_32_fptoui_flt I m = reg32 I m 1 >>? λ x. some (F.convert cast_32_fptoui_flt x)
  cast_value cast_32_fptosi_dbl I m = reg64 I m 1 >>? λ x. some (F.convert cast_32_fptosi_dbl x)
  cast_value cast_32_fptoui_dbl I m = reg64 I m 1 >>? λ x. some (F.convert cast_32_fptoui_dbl x)
  cast_value cast_64_zext_1 I m = reg32 I m 1
  cast_value cast_64_sext_1 I m = reg32 I m 1 >>? λ x. some (if x == 0 then 0 else 2 ^ 64 - 1)
  cast_value cast_64_zext_8 I m = reg8 I m 1
  cast_value cast_64_sext_8 I m = reg8 I m 1 >>? λ x. some (sext 8 64 x)
  cast_value cast_64_zext_16 I m = reg16 I m 1
  cast_value cast_64_sext_16 I m = reg16 I m 1 >>? λ x. some (sext 16 64 x)
  cast_value cast_64_zext_32 I m = reg32 I m 1
  cast_value cast_64_sext_32 I m = reg32 I m 1 >>? λ x. some (sext 32 64 x)
  cast_value cast_64_fptosi_flt I m = reg32 I m 1 >>? λ x. some (F.convert cast_64_fptosi_flt x)
  cast_value cast_64_fptoui_flt I m = reg32 I m 1 >>? λ x. some (F.convert cast_64_fptoui_flt x)
  cast_value cast_64_fptosi_dbl I m = reg64 I m 1 >>? λ x. some (F.convert cast_64_fptosi_dbl x)
  cast_value cast_64_fptoui_dbl I m = reg64 I m 1 >>? λ x. some (F.convert cast_64_fptoui_dbl x)
  cast_value cast_flt_fptrunc_dbl I m = reg64 I m 1 >>? λ x. some (F.convert cast_flt_fptrunc_dbl x)
  cast_value cast_flt_sitofp_8 I m = reg8 I m 1 >>? λ x. some (F.convert cast_flt_sitofp_8 x)
  cast_value cast_flt_uitofp_8 I m = reg8 I m 1 >>? λ x. some (F.convert cast_flt_uitofp_8 x)
  cast_value cast_flt_sitofp_16 I m = reg16 I m 1 >>? λ x. some (F.convert cast_flt_sitofp_16 x)
  cast_value cast_flt_uitofp_16 I m = reg16 I m 1 >>? λ x. some (F.convert cast_flt_uitofp_16 x)
  cast_value cast_flt_sitofp_32 I m = reg32 I m 1 >>? λ x. some (F.convert cast_flt_sitofp_32 x)
  cast_value cast_flt_uitofp_32 I m = reg32 I m 1 >>? λ x. some (F.convert cast_flt_uitofp_32 x)
  cast_value cast_flt_sitofp_64 I m = reg64 I m 1 >>? λ x. some (F.convert cast_flt_sitofp_64 x)
  cast_value cast_flt_uitofp_64 I m = reg64 I m 1 >>? λ x. some (F.convert cast_flt_uitofp_64 x)
  cast_value cast_dbl_fpext_flt I m = reg32 I m 1 >>? λ x. some (F.convert cast_dbl_fpext_flt x)
  cast_value cast_dbl_sitofp_8 I m = reg8 I m 1 >>? λ x. some (F.convert cast_dbl_sitofp_8 x)
  cast_value cast_dbl_uitofp_8 I m = reg8 I m 1 >>? λ x. some (F.convert cast_dbl_uitofp_8 x)
  cast_value cast_dbl_sitofp_16 I m = reg16 I m 1 >>? λ x. some (F.convert cast_dbl_sitofp_16 x)
  cast_value cast_dbl_uitofp_16 I m = reg16 I m 1 >>? λ x. some (F.convert cast_dbl_uitofp_16 x)
  cast_value cast_dbl_sitofp_32 I m = reg32 I m 1 >>? λ x. some (F.convert cast_dbl_sitofp_32 x)
  cast_value cast_dbl_uitofp_32 I m = reg32 I m 1 >>? λ x. some (F.convert cast_dbl_uitofp_32 x)
  cast_value cast_dbl_sitofp_64 I m = reg64 I m 1 >>? λ x. some (F.convert cast_dbl_sitofp_64 x)
  cast_value cast_dbl_uitofp_64 I m = reg64 I m 1 >>? λ x. some (F.convert cast_dbl_uitofp_64 x)

  unfoldable pub exec_cast : CastOp → List Cell → Frame → Option Effect
  unfolding cast_is_wide cast_value ar32 ar64
  exec_cast o I m =
      if cast_is_wide o then ar64 I m 2 (cast_value o I m) else ar32 I m 2 (cast_value o I m)
