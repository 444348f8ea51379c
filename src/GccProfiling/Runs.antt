-- ===== src/GccProfiling/Runs.antt =====
-- The gcc probes on functions of the objects that are loaded.
use kieker_lang_pack_c.Common.{ℕ, ◌^◌, ◌≤◌, ◌<◌, ◌-◌, ◌+◌, ◌%◌, [], length, some, true, ◌≡◌, arith}
use kieker_lang_pack_c.Word.{CString}
use kieker_lang_pack_c.State.{State, unconfigured}
use kieker_lang_pack_c.Exec.{the, ◌>>=◌}
use kieker_lang_pack_c.Effect.{Represents, max_string}
use kieker_lang_pack_c.Trace.{UtHash}
use kieker_lang_pack_c.Setup.{Process}
use kieker_lang_pack_c.Threads.Reach.{Reach, Reach-runs, before, after, calls, run_call}
use kieker_lang_pack_c.GccProfiling.{
  Linker, package_structure, convert_to_vma, get_operation_fqn, cyg_profile_func_enter,
  cyg_profile_func_exit,
}

module _ (ut : UtHash) (os : Process) (s0 : State) {name : CString}
    (unused : s0.controller.init_state ≡ unconfigured) (empty : Represents s0.lookup [])
    (no_traces : s0.trace.traces ≡ []) (named : os.gethostname ≡ some name)
    (fits_name : length name ≤ max_string) (made : os.rwlock_init ≡ true)
    (registered : os.atexit ≡ true) (ld : Linker)
    (short : (p : ℕ) → length (ld.print_pointer p) ≤ 18) where
  -- In every state that is reached by an initialisation, for which `atexit` succeeds, on a
  -- library that is not configured and has no strings and no traces, on a host whose name has at
  -- most 8180 bytes and where the lock can be made, and then by fewer than 2^27 calls of the two
  -- plain probes, one call at a time, with names of at most 8180 bytes: the gcc probes on entry
  -- and exit of a function that is in an object which the dynamic linker finds, on any thread,
  -- return, in a state that the further call of a plain probe reaches, and do what the plain
  -- probes do for an operation whose name is the printed distance of the function from the
  -- address of the object, if a pointer is printed in at most 18 bytes.
  pub cyg_profile_func-runs :
      {s : State} (self this_fn : ℕ) {l_addr : ℕ} (r : Reach ut os s0 s)
      → ld.load_address this_fn ≡ some l_addr
      → calls ut r < 2 ^ 27
      → let fqn = ld.print_pointer ((this_fn + (2 ^ 64 - l_addr)) % 2 ^ 64) in
        ((s' : State) × (cyg_profile_func_enter ld ut self this_fn s ≡ some (tt, s'))
          × (run_call ut (before self package_structure fqn) s ≡ some (tt, s'))
          × Reach ut os s0 s')
        × ((s' : State) × (cyg_profile_func_exit ld ut self this_fn s ≡ some (tt, s'))
            × (run_call ut (after self package_structure fqn) s ≡ some (tt, s'))
            × Reach ut os s0 s')
  unfolding cyg_profile_func_enter cyg_profile_func_exit get_operation_fqn convert_to_vma
  cyg_profile_func-runs self this_fn {l_addr} r loaded few =
      let vma = (this_fn + (2 ^ 64 - l_addr)) % 2 ^ 64 in
      let fqn = ld.print_pointer vma in
      let fits : length fqn ≤ max_string = omega (arith, short vma) in
      let runs = Reach-runs ut os s0 unused empty no_traces named fits_name made registered in
      let (s1, ran1, r1, range1, after1) =
        runs (before self package_structure fqn) r (omega arith, fits) few in
      let (s2, ran2, r2, range2, after2) =
        runs (after self package_structure fqn) r (omega arith, fits) few in
      ((s1, rw (loaded, the, ◌>>=◌) ran1, ran1, r1), (s2, rw (loaded, the, ◌>>=◌) ran2, ran2, r2))
