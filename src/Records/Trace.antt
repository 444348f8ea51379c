-- ===== src/Records/Trace.antt =====
-- The records of libkieker/common/record/flow/trace: each struct, its serializer, and the fields that the
-- struct declares, in their order.
use kieker_lang_pack_c.Common.{ℕ, List, [], ◌∷◌, ◌≡◌, refl}
use kieker_lang_pack_c.Word.{CString}
use kieker_lang_pack_c.State.{Ptr}
use kieker_lang_pack_c.Exec.{Exec, pure, ◌>>=◌, ◌+=◌}
use kieker_lang_pack_c.Serialize.{serialize_int32, serialize_int64, serialize_string}
use kieker_lang_pack_c.Fields.{Field, int32, int64, text, serialize_fields}

pub record ApplicationTraceMetadata : Type 0 where
  pub trace_id : ℕ
  pub thread_id : ℕ
  pub session_id : CString
  pub hostname : CString
  pub parent_trace_id : ℕ
  pub parent_order_id : ℕ
  pub next_order_id : ℕ
  pub application_name : CString

unfoldable pub application_trace_metadata_serialize : Ptr → ℕ → ApplicationTraceMetadata → Exec ℕ
application_trace_metadata_serialize buffer offset value = do
  let position = offset
  position ← position += serialize_int64 buffer position value.trace_id
  position ← position += serialize_int64 buffer position value.thread_id
  position ← position += serialize_string buffer position value.session_id
  position ← position += serialize_string buffer position value.hostname
  position ← position += serialize_int64 buffer position value.parent_trace_id
  position ← position += serialize_int32 buffer position value.parent_order_id
  position ← position += serialize_string buffer position value.application_name
  pure position

-- `next_order_id` is not sent.
abbrev pub application_trace_metadata_fields : ApplicationTraceMetadata → List Field
application_trace_metadata_fields value =
    int64 value.trace_id
    ∷ int64 value.thread_id
    ∷ text value.session_id
    ∷ text value.hostname
    ∷ int64 value.parent_trace_id
    ∷ int32 value.parent_order_id
    ∷ text value.application_name
    ∷ []

pub application_trace_metadata_serialize-fields :
    (buffer : Ptr) (offset : ℕ) (value : ApplicationTraceMetadata)
    → application_trace_metadata_serialize buffer offset value
      ≡ serialize_fields buffer offset (application_trace_metadata_fields value)
unfolding application_trace_metadata_serialize serialize_fields
application_trace_metadata_serialize-fields buffer offset value = refl

pub record BeforeReceivedRemoteEvent : Type 0 where
  pub timestamp : ℕ
  pub caller_trace_id : ℕ
  pub caller_order_index : ℕ
  pub trace_id : ℕ
  pub order_index : ℕ

unfoldable pub before_received_remote_event_serialize : Ptr → ℕ → BeforeReceivedRemoteEvent → Exec ℕ
before_received_remote_event_serialize buffer offset value = do
  let position = offset
  position ← position += serialize_int64 buffer position value.timestamp
  position ← position += serialize_int64 buffer position value.caller_trace_id
  position ← position += serialize_int32 buffer position value.caller_order_index
  position ← position += serialize_int64 buffer position value.trace_id
  position ← position += serialize_int32 buffer position value.order_index
  pure position

abbrev pub before_received_remote_event_fields : BeforeReceivedRemoteEvent → List Field
before_received_remote_event_fields value =
    int64 value.timestamp
    ∷ int64 value.caller_trace_id
    ∷ int32 value.caller_order_index
    ∷ int64 value.trace_id
    ∷ int32 value.order_index
    ∷ []

pub before_received_remote_event_serialize-fields :
    (buffer : Ptr) (offset : ℕ) (value : BeforeReceivedRemoteEvent)
    → before_received_remote_event_serialize buffer offset value
      ≡ serialize_fields buffer offset (before_received_remote_event_fields value)
unfolding before_received_remote_event_serialize serialize_fields
before_received_remote_event_serialize-fields buffer offset value = refl

pub record BeforeSentRemoteEvent : Type 0 where
  pub timestamp : ℕ
  pub trace_id : ℕ
  pub order_index : ℕ
  pub technology : CString

unfoldable pub before_sent_remote_event_serialize : Ptr → ℕ → BeforeSentRemoteEvent → Exec ℕ
before_sent_remote_event_serialize buffer offset value = do
  let position = offset
  position ← position += serialize_int64 buffer position value.timestamp
  position ← position += serialize_int64 buffer position value.trace_id
  position ← position += serialize_int32 buffer position value.order_index
  position ← position += serialize_string buffer position value.technology
  pure position

abbrev pub before_sent_remote_event_fields : BeforeSentRemoteEvent → List Field
before_sent_remote_event_fields value =
    int64 value.timestamp
    ∷ int64 value.trace_id
    ∷ int32 value.order_index
    ∷ text value.technology
    ∷ []

pub before_sent_remote_event_serialize-fields :
    (buffer : Ptr) (offset : ℕ) (value : BeforeSentRemoteEvent)
    → before_sent_remote_event_serialize buffer offset value
      ≡ serialize_fields buffer offset (before_sent_remote_event_fields value)
unfolding before_sent_remote_event_serialize serialize_fields
before_sent_remote_event_serialize-fields buffer offset value = refl

pub record ConstructionEvent : Type 0 where
  pub timestamp : ℕ
  pub trace_id : ℕ
  pub order_index : ℕ
  pub class_signature : CString
  pub object_id : ℕ

unfoldable pub construction_event_serialize : Ptr → ℕ → ConstructionEvent → Exec ℕ
construction_event_serialize buffer offset value = do
  let position = offset
  position ← position += serialize_int64 buffer position value.timestamp
  position ← position += serialize_int64 buffer position value.trace_id
  position ← position += serialize_int32 buffer position value.order_index
  position ← position += serialize_string buffer position value.class_signature
  position ← position += serialize_int32 buffer position value.object_id
  pure position

abbrev pub construction_event_fields : ConstructionEvent → List Field
construction_event_fields value =
    int64 value.timestamp
    ∷ int64 value.trace_id
    ∷ int32 value.order_index
    ∷ text value.class_signature
    ∷ int32 value.object_id
    ∷ []

pub construction_event_serialize-fields :
    (buffer : Ptr) (offset : ℕ) (value : ConstructionEvent)
    → construction_event_serialize buffer offset value
      ≡ serialize_fields buffer offset (construction_event_fields value)
unfolding construction_event_serialize serialize_fields
construction_event_serialize-fields buffer offset value = refl

pub record TraceMetadata : Type 0 where
  pub trace_id : ℕ
  pub thread_id : ℕ
  pub session_id : CString
  pub hostname : CString
  pub parent_trace_id : ℕ
  pub parent_order_id : ℕ
  pub next_order_id : ℕ

unfoldable pub trace_metadata_serialize : Ptr → ℕ → TraceMetadata → Exec ℕ
trace_metadata_serialize buffer offset value = do
  let position = offset
  position ← position += serialize_int64 buffer position value.trace_id
  position ← position += serialize_int64 buffer position value.thread_id
  position ← position += serialize_string buffer position value.session_id
  position ← position += serialize_string buffer position value.hostname
  position ← position += serialize_int64 buffer position value.parent_trace_id
  position ← position += serialize_int32 buffer position value.parent_order_id
  pure position

-- `next_order_id` is not sent.
abbrev pub trace_metadata_fields : TraceMetadata → List Field
trace_metadata_fields value =
    int64 value.trace_id
    ∷ int64 value.thread_id
    ∷ text value.session_id
    ∷ text value.hostname
    ∷ int64 value.parent_trace_id
    ∷ int32 value.parent_order_id
    ∷ []

pub trace_metadata_serialize-fields :
    (buffer : Ptr) (offset : ℕ) (value : TraceMetadata)
    → trace_metadata_serialize buffer offset value
      ≡ serialize_fields buffer offset (trace_metadata_fields value)
unfolding trace_metadata_serialize serialize_fields
trace_metadata_serialize-fields buffer offset value = refl
