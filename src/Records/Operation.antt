-- ===== src/Records/Operation.antt =====
-- The records of libkieker/common/record/flow/trace/operation: each struct, its serializer, and the fields that the
-- struct declares, in their order.
use kieker_lang_pack_c.Common.{ℕ, List, [], ◌∷◌, ◌≡◌, refl}
use kieker_lang_pack_c.Word.{CString}
use kieker_lang_pack_c.State.{Ptr}
use kieker_lang_pack_c.Exec.{Exec, pure, ◌>>=◌, ◌+=◌}
use kieker_lang_pack_c.Serialize.{serialize_int32, serialize_int64, serialize_string}
use kieker_lang_pack_c.Fields.{Field, int32, int64, text, serialize_fields}

pub record AfterOperationEvent : Type 0 where
  pub timestamp : ℕ
  pub trace_id : ℕ
  pub order_index : ℕ
  pub operation_signature : CString
  pub class_signature : CString

unfoldable pub after_operation_event_serialize : Ptr → ℕ → AfterOperationEvent → Exec ℕ
after_operation_event_serialize buffer offset value = do
  let position = offset
  position ← position += serialize_int64 buffer position value.timestamp
  position ← position += serialize_int64 buffer position value.trace_id
  position ← position += serialize_int32 buffer position value.order_index
  position ← position += serialize_string buffer position value.operation_signature
  position ← position += serialize_string buffer position value.class_signature
  pure position

abbrev pub after_operation_event_fields : AfterOperationEvent → List Field
after_operation_event_fields value =
    int64 value.timestamp
    ∷ int64 value.trace_id
    ∷ int32 value.order_index
    ∷ text value.operation_signature
    ∷ text value.class_signature
    ∷ []

pub after_operation_event_serialize-fields :
    (buffer : Ptr) (offset : ℕ) (value : AfterOperationEvent)
    → after_operation_event_serialize buffer offset value
      ≡ serialize_fields buffer offset (after_operation_event_fields value)
unfolding after_operation_event_serialize serialize_fields
after_operation_event_serialize-fields buffer offset value = refl

pub record AfterOperationFailedEvent : Type 0 where
  pub timestamp : ℕ
  pub trace_id : ℕ
  pub order_index : ℕ
  pub operation_signature : CString
  pub class_signature : CString
  pub cause : CString

unfoldable pub after_operation_failed_event_serialize : Ptr → ℕ → AfterOperationFailedEvent → Exec ℕ
after_operation_failed_event_serialize buffer offset value = do
  let position = offset
  position ← position += serialize_int64 buffer position value.timestamp
  position ← position += serialize_int64 buffer position value.trace_id
  position ← position += serialize_int32 buffer position value.order_index
  position ← position += serialize_string buffer position value.operation_signature
  position ← position += serialize_string buffer position value.class_signature
  position ← position += serialize_string buffer position value.cause
  pure position

abbrev pub after_operation_failed_event_fields : AfterOperationFailedEvent → List Field
after_operation_failed_event_fields value =
    int64 value.timestamp
    ∷ int64 value.trace_id
    ∷ int32 value.order_index
    ∷ text value.operation_signature
    ∷ text value.class_signature
    ∷ text value.cause
    ∷ []

pub after_operation_failed_event_serialize-fields :
    (buffer : Ptr) (offset : ℕ) (value : AfterOperationFailedEvent)
    → after_operation_failed_event_serialize buffer offset value
      ≡ serialize_fields buffer offset (after_operation_failed_event_fields value)
unfolding after_operation_failed_event_serialize serialize_fields
after_operation_failed_event_serialize-fields buffer offset value = refl

pub record BeforeOperationEvent : Type 0 where
  pub timestamp : ℕ
  pub trace_id : ℕ
  pub order_index : ℕ
  pub operation_signature : CString
  pub class_signature : CString

unfoldable pub before_operation_event_serialize : Ptr → ℕ → BeforeOperationEvent → Exec ℕ
before_operation_event_serialize buffer offset value = do
  let position = offset
  position ← position += serialize_int64 buffer position value.timestamp
  position ← position += serialize_int64 buffer position value.trace_id
  position ← position += serialize_int32 buffer position value.order_index
  position ← position += serialize_string buffer position value.operation_signature
  position ← position += serialize_string buffer position value.class_signature
  pure position

abbrev pub before_operation_event_fields : BeforeOperationEvent → List Field
before_operation_event_fields value =
    int64 value.timestamp
    ∷ int64 value.trace_id
    ∷ int32 value.order_index
    ∷ text value.operation_signature
    ∷ text value.class_signature
    ∷ []

pub before_operation_event_serialize-fields :
    (buffer : Ptr) (offset : ℕ) (value : BeforeOperationEvent)
    → before_operation_event_serialize buffer offset value
      ≡ serialize_fields buffer offset (before_operation_event_fields value)
unfolding before_operation_event_serialize serialize_fields
before_operation_event_serialize-fields buffer offset value = refl

pub record CallOperationEvent : Type 0 where
  pub timestamp : ℕ
  pub trace_id : ℕ
  pub order_index : ℕ
  pub operation_signature : CString
  pub class_signature : CString
  pub callee_operation_signature : CString
  pub callee_class_signature : CString

unfoldable pub call_operation_event_serialize : Ptr → ℕ → CallOperationEvent → Exec ℕ
call_operation_event_serialize buffer offset value = do
  let position = offset
  position ← position += serialize_int64 buffer position value.timestamp
  position ← position += serialize_int64 buffer position value.trace_id
  position ← position += serialize_int32 buffer position value.order_index
  position ← position += serialize_string buffer position value.operation_signature
  position ← position += serialize_string buffer position value.class_signature
  position ← position += serialize_string buffer position value.callee_operation_signature
  position ← position += serialize_string buffer position value.callee_class_signature
  pure position

abbrev pub call_operation_event_fields : CallOperationEvent → List Field
call_operation_event_fields value =
    int64 value.timestamp
    ∷ int64 value.trace_id
    ∷ int32 value.order_index
    ∷ text value.operation_signature
    ∷ text value.class_signature
    ∷ text value.callee_operation_signature
    ∷ text value.callee_class_signature
    ∷ []

pub call_operation_event_serialize-fields :
    (buffer : Ptr) (offset : ℕ) (value : CallOperationEvent)
    → call_operation_event_serialize buffer offset value
      ≡ serialize_fields buffer offset (call_operation_event_fields value)
unfolding call_operation_event_serialize serialize_fields
call_operation_event_serialize-fields buffer offset value = refl
