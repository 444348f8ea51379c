-- ===== src/Examples/Threads.antt =====
-- The theorems about sequences of probe calls by several threads, after the library is set up in the
-- process of Examples/Start.antt.
use kieker_lang_pack_c.Common.{[], ◌∷◌, ◌++◌, some, ◌≡◌, refl, arith, ◌==◌, if◌then◌else◌}
use kieker_lang_pack_c.Word.{chars}
use kieker_lang_pack_c.Word.Bytes.{be_bytes, length-be_bytes_8}
use kieker_lang_pack_c.State.{State, KiekerTrace}
use kieker_lang_pack_c.Exec.Returns.{Runs}
use kieker_lang_pack_c.Fields.{register_fields, announce_fields}
use kieker_lang_pack_c.ProbeEvents.Message.{time_at}
use kieker_lang_pack_c.ProbeEvents.Events.{before_message}
use kieker_lang_pack_c.ProbePlain.{after_operation_event}
use kieker_lang_pack_c.ProbePlain.Sending.{Probing, message}
use kieker_lang_pack_c.Setup.Start.{initialize-Probing}
use kieker_lang_pack_c.Threads.{WellFormed}
use kieker_lang_pack_c.Threads.Reach.{
  Reach, initialised, called, calls, before, after, run_call, Reach-WellFormed, Reach-runs,
}
use kieker_lang_pack_c.Threads.Race.{both_write_first, both_write_first-lost}
use kieker_lang_pack_c.GccProfiling.{
  Linker, package_structure, cyg_profile_func_enter, cyg_profile_func_exit,
}
use kieker_lang_pack_c.GccProfiling.Runs.{cyg_profile_func-runs}
use kieker_lang_pack_c.Threads.Bounds.{InRange}
use kieker_lang_pack_c.Examples.{
  uthash, zeros, buffer_size, start, start-Ready, in_main, in_main-Probing, main_trace,
  main_signature, pkg,
}
use kieker_lang_pack_c.Examples.Start.{process}

set_up : (s : State) × Reach uthash (process (some 16777343)) start s
set_up =
    let r = initialize-Probing (process (some 16777343)) start refl start-Ready.table refl refl in
    (r.final, initialised r.run)

-- The thread 7 enters `main`.
in_thread :
    (s : State) × (r : Reach uthash (process (some 16777343)) start s) × (calls uthash r ≡ 1)
unfolding set_up
in_thread =
    let (s, ran, r, range, later) =
      Reach-runs uthash (process (some 16777343)) start refl start-Ready.table refl refl
        (omega arith) refl refl (before 7 pkg main_signature) set_up.1 (omega arith, omega arith)
        (omega arith) in
    (s, called (before 7 pkg main_signature) set_up.1 (omega arith, omega arith) ran, refl)

Reach-WellFormed_example : WellFormed uthash in_thread.0
Reach-WellFormed_example =
    Reach-WellFormed uthash (process (some 16777343)) start refl start-Ready.table refl refl
      (omega arith) refl in_thread.1

-- The thread 8 reports a return, although it has reported no call.
Reach-runs_example :
    (s' : State) × (after_operation_event uthash 8 pkg main_signature in_thread.0 ≡ some (tt, s'))
    × Reach uthash (process (some 16777343)) start s'
    × InRange uthash in_thread.0
    × InRange uthash s'
Reach-runs_example =
    Reach-runs uthash (process (some 16777343)) start refl start-Ready.table refl refl (omega arith)
      refl refl (after 8 pkg main_signature) in_thread.1 (omega arith, omega arith)
      (omega (arith, in_thread.2))

-- A thread 8 in its first call.
abbrev other_trace : KiekerTrace
other_trace = record { trace_id = 257; order_index = 0; stack = 1; buffer = 6; thread_id = 8 }

abbrev both_in_main : State
both_in_main = record in_main {
  heap = record in_main.heap {
    traces = λ q. if q == 5 then some other_trace else in_main.heap.traces q;
  };
}

both_in_main-Probing : Probing [] (zeros 8192) both_in_main
both_in_main-Probing =
    let p = in_main-Probing in
    record {
      ready = record {
        table = p.ready.table;
        string_block = zeros 8192;
        string_holds = refl;
        string_room = buffer_size;
      };
      holds = refl;
      room = buffer_size;
      apart = p.apart;
      buffer_old = p.buffer_old;
      string_buffer_old = p.string_buffer_old;
    }

both_write_first-lost_example :
    let first =
      before_message (time_at both_in_main 0) (time_at both_in_main 1) main_trace pkg (chars "f") in
    let second =
      before_message
        (time_at both_in_main 2)
        (time_at both_in_main 3)
        other_trace
        pkg
        (chars "g") in
    let both = message 5 (register_fields [] first) second in
    Runs (both_write_first 3 5 pkg (chars "f") pkg (chars "g")) both_in_main tt (λ s'.
      s'.world.writes
      ≡ []
        ++ ((announce_fields 5 [] first ++ announce_fields 5 (register_fields [] first) second)
            ++ both ∷ both ∷ []))
both_write_first-lost_example =
    both_write_first-lost both_in_main-Probing 3 5 main_trace other_trace refl refl pkg (chars "f")
      pkg (chars "g") (omega arith) (omega arith) (omega arith) (omega arith)

-- An object at the address 4096, and pointers printed as their eight bytes.
abbrev linker : Linker
linker = record { load_address = λ a. some 4096; print_pointer = be_bytes 8 }

cyg_profile_func-runs_example :
    ((s' : State) × (cyg_profile_func_enter linker uthash 7 5000 in_thread.0 ≡ some (tt, s'))
      × (run_call uthash (before 7 package_structure (be_bytes 8 904)) in_thread.0 ≡ some (tt, s'))
      × Reach uthash (process (some 16777343)) start s')
    × ((s' : State) × (cyg_profile_func_exit linker uthash 7 5000 in_thread.0 ≡ some (tt, s'))
        × (run_call uthash (after 7 package_structure (be_bytes 8 904)) in_thread.0 ≡ some (tt, s'))
        × Reach uthash (process (some 16777343)) start s')
cyg_profile_func-runs_example =
    cyg_profile_func-runs uthash (process (some 16777343)) start refl start-Ready.table refl refl
      (omega arith) refl refl linker (λ p. omega (arith, length-be_bytes_8 p)) 7 5000 in_thread.1
      refl (omega (arith, in_thread.2))
