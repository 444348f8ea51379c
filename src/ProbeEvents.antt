-- ===== src/ProbeEvents.antt =====
-- libkieker/monitoring/probes/kieker_probe_events.c: each function writes the number of the type of
-- a record, the time and the record to the controller's buffer at `position`.
pub mod Message
pub mod Events
use kieker_lang_pack_c.Common.{ℕ}
use kieker_lang_pack_c.Word.{CString, chars, minus_one, sign_extend}
use kieker_lang_pack_c.State.{Ptr}
use kieker_lang_pack_c.Exec.{Exec, the, load_trace, ◌>>=◌}
use kieker_lang_pack_c.Controller.{get_buffer, get_hostname, get_time_ms, prefix_serialize}
use kieker_lang_pack_c.Records.Trace.{TraceMetadata, trace_metadata_serialize}
use kieker_lang_pack_c.Records.Operation.{
  BeforeOperationEvent, before_operation_event_serialize, AfterOperationEvent,
  after_operation_event_serialize,
}

-- `KIEKER_FLOW_TRACE_METADATA` and its like
abbrev pub flow_trace_metadata : ℕ
flow_trace_metadata = 0

abbrev pub flow_before_operation : ℕ
flow_before_operation = 1

abbrev pub flow_after_operation : ℕ
flow_after_operation = 2

abbrev pub no_session : CString
no_session = chars "<no-session>"

unfoldable pub create_trace_metadata : ℕ → Ptr → Exec ℕ
create_trace_metadata position trace = do
  name ← get_hostname
  hostname ← the name
  t ← load_trace trace
  let metadata : TraceMetadata = record {
    trace_id = t.trace_id;
    thread_id = sign_extend t.thread_id;
    session_id = no_session;
    hostname = hostname;
    parent_trace_id = minus_one;
    parent_order_id = 0;
    next_order_id = 1;
  }
  position ← prefix_serialize flow_trace_metadata position
  buffer ← get_buffer
  trace_metadata_serialize buffer position metadata

unfoldable pub create_before_operation_event : ℕ → Ptr → CString → CString → Exec ℕ
create_before_operation_event position trace class_signature operation_signature = do
  timestamp ← get_time_ms
  t ← load_trace trace
  let event : BeforeOperationEvent = record {
    timestamp = timestamp;
    trace_id = t.trace_id;
    order_index = t.order_index;
    operation_signature = operation_signature;
    class_signature = class_signature;
  }
  position ← prefix_serialize flow_before_operation position
  buffer ← get_buffer
  before_operation_event_serialize buffer position event

unfoldable pub create_after_operation_event : ℕ → Ptr → CString → CString → Exec ℕ
create_after_operation_event position trace class_signature operation_signature = do
  timestamp ← get_time_ms
  t ← load_trace trace
  let event : AfterOperationEvent = record {
    timestamp = timestamp;
    trace_id = t.trace_id;
    order_index = t.order_index;
    operation_signature = operation_signature;
    class_signature = class_signature;
  }
  position ← prefix_serialize flow_after_operation position
  buffer ← get_buffer
  after_operation_event_serialize buffer position event
