-- ===== src/ProbePlain.antt =====
-- libkieker/monitoring/probes/kieker_probe_plain.c, on the thread `self`.
pub mod Sending
pub mod At
pub mod Log
pub mod Balanced
pub mod Session
pub mod Root
pub mod Probes
pub mod First
use kieker_lang_pack_c.Common.{ℕ, if◌then◌else◌, ◌==◌}
use kieker_lang_pack_c.Word.{CString, minus_one, increment, decrement}
use kieker_lang_pack_c.State.{Ptr, KiekerTrace}
use kieker_lang_pack_c.Exec.{Exec, pure, load_trace, store_trace, ◌>>=◌, ◌>>◌}
use kieker_lang_pack_c.Common.{some}
use kieker_lang_pack_c.Controller.{send}
use kieker_lang_pack_c.Trace.{UtHash, trace_get, trace_remove}
use kieker_lang_pack_c.ProbeEvents.{
  create_trace_metadata, create_before_operation_event, create_after_operation_event,
}

-- The updates of the counters of a trace at a probe.
abbrev pub entered : KiekerTrace → KiekerTrace
entered t = record t { order_index = increment t.order_index; stack = increment t.stack }

abbrev pub left : KiekerTrace → KiekerTrace
left t = record t { order_index = increment t.order_index; stack = decrement t.stack }

abbrev pub update_trace : Ptr → (KiekerTrace → KiekerTrace) → Exec (Unit {0})
update_trace p f = do t ← load_trace p; store_trace p (some (f t))

module _ (ut : UtHash) (self : ℕ) where
  -- `kieker_probe_before_operation_event`
  unfoldable pub before_operation_event : CString → CString → Exec (Unit {0})
  before_operation_event class_signature operation_signature = do
    let start : ℕ = 0
    trace ← trace_get ut self
    t ← load_trace trace
    position ← if t.order_index == minus_one then create_trace_metadata start trace else pure start
    update_trace trace entered
    position ← create_before_operation_event position trace class_signature operation_signature
    send position

  -- `kieker_probe_after_operation_event`
  unfoldable pub after_operation_event : CString → CString → Exec (Unit {0})
  after_operation_event class_signature operation_signature = do
    let start : ℕ = 0
    trace ← trace_get ut self
    update_trace trace left
    position ← create_after_operation_event start trace class_signature operation_signature
    send position
    t ← load_trace trace
    if t.stack == 0 then trace_remove ut trace else pure tt
