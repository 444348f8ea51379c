-- ===== src/ProbeAspect.antt =====
-- The probes of libkieker/monitoring/probes/aspect/event_trace.c, on the thread `self`.
pub mod Events
pub mod First
pub mod Calls
use kieker_lang_pack_c.Common.{
  ℕ, ◌+◌, Bool, if◌then◌else◌, ◌==◌, some, none, Option, List, ltb, ◌^◌,
}
use kieker_lang_pack_c.Word.{CString, minus_one, increment, decrement}
use kieker_lang_pack_c.State.{Ptr, KiekerTrace}
use kieker_lang_pack_c.Exec.{Exec, pure, fault, load_trace, ◌>>=◌, ◌>>◌}
use kieker_lang_pack_c.Controller.{send}
use kieker_lang_pack_c.Trace.{UtHash, trace_get, trace_remove}
use kieker_lang_pack_c.Adaptive.{Sorting, AdaptiveState, is_class_excluded, load_exclude_file}
use kieker_lang_pack_c.Setup.{Process, initialize, finalize}
use kieker_lang_pack_c.ProbeEvents.{
  create_trace_metadata, create_before_operation_event, create_after_operation_event,
}
use kieker_lang_pack_c.ProbePlain.{update_trace}

-- `trace->stack++`, `trace->stack--` and `trace->order_index++`
abbrev pub deeper : KiekerTrace → KiekerTrace
deeper t = record t { stack = increment t.stack }

abbrev pub shallower : KiekerTrace → KiekerTrace
shallower t = record t { stack = decrement t.stack }

abbrev pub counted : KiekerTrace → KiekerTrace
counted t = record t { order_index = increment t.order_index }

-- What follows the loading of the classes: whether the process goes on, and not `exit(-1)`.
abbrev pub loaded_or_exit : Option (ℕ × AdaptiveState) → Exec (Bool × AdaptiveState)
loaded_or_exit none = fault
loaded_or_exit (some (ret, st)) = pure (ltb ret (2 ^ 31), st)

-- `kieker_probe_aspect_event_initialize`, given the bytes of "exclude_classes.txt", or `none` if it
-- cannot be opened.
unfoldable pub aspect_event_initialize :
    Process → Sorting → AdaptiveState → Option (List ℕ) → Exec (Bool × AdaptiveState)
aspect_event_initialize process os st file = do
  initialize process
  loaded_or_exit (load_exclude_file os st file)

-- `kieker_probe_aspect_event_finalize`
unfoldable pub aspect_event_finalize : Exec (Unit {0})
aspect_event_finalize = finalize

module _ (ut : UtHash) (os : Sorting) (st : AdaptiveState) (self : ℕ) where
  -- `kieker_probe_aspect_event_before_operation`
  unfoldable pub aspect_event_before_operation : CString → CString → Exec Ptr
  aspect_event_before_operation operation_signature class_signature = do
    trace ← trace_get ut self
    let start : ℕ = 0
    t ← load_trace trace
    position ← if t.order_index == minus_one then create_trace_metadata start trace else pure start
    update_trace trace deeper
    if is_class_excluded os st class_signature then pure tt else (do
      update_trace trace counted
      position ← create_before_operation_event position trace class_signature operation_signature
      send position)
    pure trace

  -- `kieker_probe_aspect_event_after_operation`
  unfoldable pub aspect_event_after_operation : Ptr → CString → CString → Exec (Unit {0})
  aspect_event_after_operation trace operation_signature class_signature = do
    if is_class_excluded os st class_signature then pure tt else (do
      let start : ℕ = 0
      position ← create_after_operation_event start trace class_signature operation_signature
      update_trace trace counted
      send position)
    update_trace trace shallower
    t ← load_trace trace
    if t.stack == minus_one then trace_remove ut trace else pure tt
