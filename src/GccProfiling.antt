-- ===== src/GccProfiling.antt =====
-- libkieker/monitoring/probes/kieker_probe_gcc_profiling.c, and the names of functions in
-- libkieker/monitoring/controller/kieker_controller.c.
pub mod Runs
use kieker_lang_pack_c.Common.{ℕ, ◌+◌, ◌-◌, ◌%◌, ◌^◌, Option}
use kieker_lang_pack_c.Word.{CString, chars}
use kieker_lang_pack_c.Exec.{Exec, the, pure, ◌>>=◌}
use kieker_lang_pack_c.Trace.{UtHash}
use kieker_lang_pack_c.ProbePlain.{before_operation_event, after_operation_event}

-- What the dynamic linker and `sprintf` give: the address at which the object that contains an
-- address is loaded (`dladdr1`, `l_addr`), `none` where no object contains it, and the text of a
-- pointer by "%p".
pub record Linker : Type 0 where
  pub load_address : ℕ → Option ℕ
  pub print_pointer : ℕ → CString

abbrev pub package_structure : CString
package_structure = chars "<package structure>"

module _ (ld : Linker) where
  -- `kieker_controller_convert_to__vma`; the result of `dladdr1` is not tested, and where it fails, the
  -- address is read through a pointer that was never set.
  unfoldable pub convert_to_vma : ℕ → Exec ℕ
  convert_to_vma addr = do
    l_addr ← the (ld.load_address addr)
    pure ((addr + (2 ^ 64 - l_addr)) % 2 ^ 64)

  -- `kieker_controller_get_operation_fqn`; the text stands in one buffer of 19 bytes, from which
  -- each probe sends it before it returns.
  unfoldable pub get_operation_fqn : ℕ → Exec CString
  unfolding convert_to_vma
  get_operation_fqn function_ptr = do vma ← convert_to_vma function_ptr; pure (ld.print_pointer vma)

  module _ (ut : UtHash) (self : ℕ) where
    -- `__cyg_profile_func_enter` and `__cyg_profile_func_exit`
    unfoldable pub cyg_profile_func_enter : ℕ → Exec (Unit {0})
    unfolding get_operation_fqn
    cyg_profile_func_enter this_fn = do
      fqn ← get_operation_fqn this_fn
      before_operation_event ut self package_structure fqn

    unfoldable pub cyg_profile_func_exit : ℕ → Exec (Unit {0})
    unfolding get_operation_fqn
    cyg_profile_func_exit this_fn = do
      fqn ← get_operation_fqn this_fn
      after_operation_event ut self package_structure fqn
