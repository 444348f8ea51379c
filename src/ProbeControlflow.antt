-- ===== src/ProbeControlflow.antt =====
-- The probes of libkieker/monitoring/probes/aspect/controlflow.c, on the thread `self`. A record that
-- is filled in through a pointer is returned.
pub mod Send
use kieker_lang_pack_c.Common.{ℕ, if◌then◌else◌, ◌==◌, some}
use kieker_lang_pack_c.Word.{CString, chars, minus_one, increment, decrement}
use kieker_lang_pack_c.State.{Ptr, KiekerTrace}
use kieker_lang_pack_c.Exec.{Exec, pure, the, load_trace, ◌>>=◌, ◌>>◌}
use kieker_lang_pack_c.Controller.{send, get_time_ms, get_hostname}
use kieker_lang_pack_c.Records.Controlflow.{
  OperationExecutionRecord, operation_execution_record_serialize,
}
use kieker_lang_pack_c.Trace.{UtHash, trace_get, trace_remove}
use kieker_lang_pack_c.ProbePlain.{entered, update_trace}
use kieker_lang_pack_c.ProbeAspect.{shallower}
use kieker_lang_pack_c.Setup.{Process, initialize, finalize}

abbrev pub controlflow_session : CString
controlflow_session = chars "<no session>"

-- `kieker_probe_aspect_controlflow_send`
unfoldable pub controlflow_send : OperationExecutionRecord → Ptr → Exec (Unit {0})
controlflow_send value buffer = do
  let start : ℕ = 0
  len ← operation_execution_record_serialize buffer start value
  send len

-- `kieker_probe_aspect_controlflow_after`
unfoldable pub controlflow_after : Ptr → OperationExecutionRecord → Exec OperationExecutionRecord
controlflow_after trace value = do
  now ← get_time_ms
  update_trace trace shallower
  pure (record value { tout = now })

-- `kieker_probe_aspect_controlflow_initialize` and `kieker_probe_aspect_controlflow_finalize`
unfoldable pub controlflow_initialize : Process → Exec (Unit {0})
controlflow_initialize os = initialize os

unfoldable pub controlflow_finalize : Exec (Unit {0})
controlflow_finalize = finalize

module _ (ut : UtHash) where
  -- `kieker_probe_aspect_controlflow_before`
  unfoldable pub controlflow_before :
      ℕ → OperationExecutionRecord → Exec (Ptr × OperationExecutionRecord)
  controlflow_before self value = do
    trace ← trace_get ut self
    update_trace trace entered
    name ← get_hostname
    hostname ← the name
    t ← load_trace trace
    tin ← get_time_ms
    pure (
      trace,
      record value {
        hostname = hostname;
        session_id = controlflow_session;
        trace_id = t.trace_id;
        eoi = t.order_index;
        ess = t.stack;
        tin = tin;
      },
    )

  -- `kieker_probe_aspect_controlflow_after2`
  unfoldable pub controlflow_after2 : Ptr → OperationExecutionRecord → Exec (Unit {0})
  unfolding controlflow_send
  controlflow_after2 trace value = do
    t ← load_trace trace
    controlflow_send value t.buffer
    t ← load_trace trace
    if t.stack == minus_one then trace_remove ut trace else pure tt
