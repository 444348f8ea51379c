-- ===== src/ProbeEvents/Events.antt =====
-- What the functions of kieker_probe_events.c write.
use kieker_lang_pack_c.Common.{
  ℕ, ◌+◌, ◌≤◌, List, length, Option, some, ◌≡◌, ◌≢◌, arith, splice, ◌∙◌, ap,
}
use kieker_lang_pack_c.Word.{CString, minus_one, sign_extend}
use kieker_lang_pack_c.State.{Ptr, State, KiekerTrace}
use kieker_lang_pack_c.Exec.{Exec, the, ◌>>=◌}
use kieker_lang_pack_c.Exec.Returns.{Runs}
use kieker_lang_pack_c.Registry.{Registry}
use kieker_lang_pack_c.Effect.{Ready, Wrote, max_string}
use kieker_lang_pack_c.Fields.{Field, size, encode, register_fields, announce_fields}
use kieker_lang_pack_c.Controller.{get_hostname, get_time_ms}
use kieker_lang_pack_c.Records.Trace.{
  TraceMetadata, trace_metadata_serialize, trace_metadata_fields, trace_metadata_serialize-fields,
}
use kieker_lang_pack_c.Records.Operation.{
  BeforeOperationEvent, before_operation_event_serialize, before_operation_event_fields,
  before_operation_event_serialize-fields, AfterOperationEvent, after_operation_event_serialize,
  after_operation_event_fields, after_operation_event_serialize-fields,
}
use kieker_lang_pack_c.ProbeEvents.{
  create_trace_metadata, create_before_operation_event, create_after_operation_event,
  flow_trace_metadata, flow_before_operation, flow_after_operation, no_session,
}
use kieker_lang_pack_c.ProbeEvents.Message.{
  prefixed, time_at, get_time_ms-Wrote, message-Wrote, message_after-Wrote,
}

-- The record of a call of a function on the trace `t`, and its message, if the clock shows `timestamp`
-- when the record is made and `logged` when it is written.
abbrev pub before_message : ℕ → ℕ → KiekerTrace → CString → CString → List Field
before_message timestamp logged t class_signature operation_signature =
    prefixed flow_before_operation logged (
      before_operation_event_fields (record {
        timestamp = timestamp;
        trace_id = t.trace_id;
        order_index = t.order_index;
        operation_signature = operation_signature;
        class_signature = class_signature;
      }))

abbrev pub after_message : ℕ → ℕ → KiekerTrace → CString → CString → List Field
after_message timestamp logged t class_signature operation_signature =
    prefixed flow_after_operation logged (
      after_operation_event_fields (record {
        timestamp = timestamp;
        trace_id = t.trace_id;
        order_index = t.order_index;
        operation_signature = operation_signature;
        class_signature = class_signature;
      }))

abbrev pub metadata_message : ℕ → KiekerTrace → CString → List Field
metadata_message logged t hostname = prefixed flow_trace_metadata logged (
    trace_metadata_fields (record {
      trace_id = t.trace_id;
      thread_id = sign_extend t.thread_id;
      session_id = no_session;
      hostname = hostname;
      parent_trace_id = minus_one;
      parent_order_id = 0;
      next_order_id = 1;
    }))

get_hostname_run :
    {name : Option CString} (s : State)
    → s.controller.local_hostname ≡ name
    → get_hostname s ≡ some (name, s)
unfolding get_hostname
get_hostname_run s e = ap (λ n. some (n, s)) e

module _ {b : Ptr} {xs : List ℕ} {reg : Registry} {socket : ℕ} {s : State} (clock : ℕ → ℕ)
    (ready : Ready reg s) (holds : s.heap.blocks b ≡ some xs)
    (apart : b ≢ s.controller.string_buffer) (at_buffer : s.controller.buffer ≡ b)
    (at_socket : s.controller.socket ≡ socket) (at_time : (k : ℕ) → time_at s k ≡ clock k) {p : Ptr}
    {t : KiekerTrace} (tracked : s.heap.traces p ≡ some t) (position : ℕ) where
  -- From `s` on, `fs` is written at `position` while the clock is read `ticks` times.
  abbrev pub Writes : Exec ℕ → List Field → ℕ → Type 0
  Writes m fs ticks = Runs m s (position + size fs) (
      Wrote b (splice xs position (encode reg fs)) (register_fields reg fs)
        (announce_fields socket reg fs) ticks s)

  module _ (class_signature operation_signature : CString)
      (fits_class : length class_signature ≤ max_string)
      (fits_operation : length operation_signature ≤ max_string)
      (room : position + 40 ≤ length xs) where
    pub create_before_operation_event-Wrote :
        Writes
          (create_before_operation_event position p class_signature operation_signature)
          (before_message (clock 0) (clock 1) t class_signature operation_signature)
          2
    unfolding create_before_operation_event
    create_before_operation_event-Wrote =
        let r1 = get_time_ms-Wrote ready holds in
        let w1 = r1.post in
        let timed : get_time_ms s ≡ some (clock 0, r1.final) =
          r1.run ∙ ap (λ (now : ℕ). some (now, r1.final)) (at_time 0) in
        let event : BeforeOperationEvent = record {
          timestamp = clock 0;
          trace_id = t.trace_id;
          order_index = t.order_index;
          operation_signature = operation_signature;
          class_signature = class_signature;
        } in
        let r2 =
          message_after-Wrote clock w1 apart at_buffer at_socket at_time flow_before_operation
            position (before_operation_event_fields event)
            (λ b o. before_operation_event_serialize b o event)
            (λ b o. before_operation_event_serialize-fields b o event) (omega arith)
            (omega arith) in
        record {
          final = r2.final;
          run = rw (timed, ◌>>=◌) (rw (w1.frame.traces, tracked, the, ◌>>=◌) r2.run);
          post = r2.post;
        }

    pub create_after_operation_event-Wrote :
        Writes
          (create_after_operation_event position p class_signature operation_signature)
          (after_message (clock 0) (clock 1) t class_signature operation_signature)
          2
    unfolding create_after_operation_event
    create_after_operation_event-Wrote =
        let r1 = get_time_ms-Wrote ready holds in
        let w1 = r1.post in
        let timed : get_time_ms s ≡ some (clock 0, r1.final) =
          r1.run ∙ ap (λ (now : ℕ). some (now, r1.final)) (at_time 0) in
        let event : AfterOperationEvent = record {
          timestamp = clock 0;
          trace_id = t.trace_id;
          order_index = t.order_index;
          operation_signature = operation_signature;
          class_signature = class_signature;
        } in
        let r2 =
          message_after-Wrote clock w1 apart at_buffer at_socket at_time flow_after_operation
            position (after_operation_event_fields event)
            (λ b o. after_operation_event_serialize b o event)
            (λ b o. after_operation_event_serialize-fields b o event) (omega arith) (omega arith) in
        record {
          final = r2.final;
          run = rw (timed, ◌>>=◌) (rw (w1.frame.traces, tracked, the, ◌>>=◌) r2.run);
          post = r2.post;
        }

  pub create_trace_metadata-Wrote :
      (hostname : CString)
      → s.controller.local_hostname ≡ some hostname
      → length hostname ≤ max_string
      → position + 48 ≤ length xs
      → Writes (create_trace_metadata position p) (metadata_message (clock 0) t hostname) 1
  unfolding create_trace_metadata
  create_trace_metadata-Wrote hostname named fits room =
      let metadata : TraceMetadata = record {
        trace_id = t.trace_id;
        thread_id = sign_extend t.thread_id;
        session_id = no_session;
        hostname = hostname;
        parent_trace_id = minus_one;
        parent_order_id = 0;
        next_order_id = 1;
      } in
      let r =
        message-Wrote ready holds apart at_buffer at_socket (at_time 0) flow_trace_metadata position
          (trace_metadata_fields metadata) (λ b o. trace_metadata_serialize b o metadata)
          (λ b o. trace_metadata_serialize-fields b o metadata) (omega arith) (omega arith) in
      record {
        final = r.final;
        run = rw (get_hostname_run s named, ◌>>=◌) (rw (tracked, the, ◌>>=◌) r.run);
        post = r.post;
      }
