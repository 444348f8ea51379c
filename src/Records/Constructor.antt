-- ===== src/Records/Constructor.antt =====
-- The records of libkieker/common/record/flow/trace/operation/constructor: each struct, its serializer, and the fields that the
-- struct declares, in their order.
use kieker_lang_pack_c.Common.{ℕ, List, [], ◌∷◌, ◌≡◌, refl}
use kieker_lang_pack_c.Word.{CString}
use kieker_lang_pack_c.State.{Ptr}
use kieker_lang_pack_c.Exec.{Exec, pure, ◌>>=◌, ◌+=◌}
use kieker_lang_pack_c.Serialize.{serialize_int32, serialize_int64, serialize_string}
use kieker_lang_pack_c.Fields.{Field, int32, int64, text, serialize_fields}

pub record AfterConstructorEvent : Type 0 where
  pub timestamp : ℕ
  pub trace_id : ℕ
  pub order_index : ℕ
  pub operation_signature : CString
  pub class_signature : CString

unfoldable pub after_constructor_event_serialize : Ptr → ℕ → AfterConstructorEvent → Exec ℕ
after_constructor_event_serialize buffer offset value = do
  let position = offset
  position ← position += serialize_int64 buffer position value.timestamp
  position ← position += serialize_int64 buffer position value.trace_id
  position ← position += serialize_int32 buffer position value.order_index
  position ← position += serialize_string buffer position value.operation_signature
  position ← position += serialize_string buffer position value.class_signature
  pure position

abbrev pub after_constructor_event_fields : AfterConstructorEvent → List Field
after_constructor_event_fields value =
    int64 value.timestamp
    ∷ int64 value.trace_id
    ∷ int32 value.order_index
    ∷ text value.operation_signature
    ∷ text value.class_signature
    ∷ []

pub after_constructor_event_serialize-fields :
    (buffer : Ptr) (offset : ℕ) (value : AfterConstructorEvent)
    → after_constructor_event_serialize buffer offset value
      ≡ serialize_fields buffer offset (after_constructor_event_fields value)
unfolding after_constructor_event_serialize serialize_fields
after_constructor_event_serialize-fields buffer offset value = refl

pub record AfterConstructorFailedEvent : Type 0 where
  pub timestamp : ℕ
  pub trace_id : ℕ
  pub order_index : ℕ
  pub operation_signature : CString
  pub class_signature : CString
  pub cause : CString

unfoldable pub after_constructor_failed_event_serialize :
    Ptr → ℕ → AfterConstructorFailedEvent → Exec ℕ
after_constructor_failed_event_serialize buffer offset value = do
  let position = offset
  position ← position += serialize_int64 buffer position value.timestamp
  position ← position += serialize_int64 buffer position value.trace_id
  position ← position += serialize_int32 buffer position value.order_index
  position ← position += serialize_string buffer position value.operation_signature
  position ← position += serialize_string buffer position value.class_signature
  position ← position += serialize_string buffer position value.cause
  pure position

abbrev pub after_constructor_failed_event_fields : AfterConstructorFailedEvent → List Field
after_constructor_failed_event_fields value =
    int64 value.timestamp
    ∷ int64 value.trace_id
    ∷ int32 value.order_index
    ∷ text value.operation_signature
    ∷ text value.class_signature
    ∷ text value.cause
    ∷ []

pub after_constructor_failed_event_serialize-fields :
    (buffer : Ptr) (offset : ℕ) (value : AfterConstructorFailedEvent)
    → after_constructor_failed_event_serialize buffer offset value
      ≡ serialize_fields buffer offset (after_constructor_failed_event_fields value)
unfolding after_constructor_failed_event_serialize serialize_fields
after_constructor_failed_event_serialize-fields buffer offset value = refl

pub record BeforeConstructorEvent : Type 0 where
  pub timestamp : ℕ
  pub trace_id : ℕ
  pub order_index : ℕ
  pub operation_signature : CString
  pub class_signature : CString

unfoldable pub before_constructor_event_serialize : Ptr → ℕ → BeforeConstructorEvent → Exec ℕ
before_constructor_event_serialize buffer offset value = do
  let position = offset
  position ← position += serialize_int64 buffer position value.timestamp
  position ← position += serialize_int64 buffer position value.trace_id
  position ← position += serialize_int32 buffer position value.order_index
  position ← position += serialize_string buffer position value.operation_signature
  position ← position += serialize_string buffer position value.class_signature
  pure position

abbrev pub before_constructor_event_fields : BeforeConstructorEvent → List Field
before_constructor_event_fields value =
    int64 value.timestamp
    ∷ int64 value.trace_id
    ∷ int32 value.order_index
    ∷ text value.operation_signature
    ∷ text value.class_signature
    ∷ []

pub before_constructor_event_serialize-fields :
    (buffer : Ptr) (offset : ℕ) (value : BeforeConstructorEvent)
    → before_constructor_event_serialize buffer offset value
      ≡ serialize_fields buffer offset (before_constructor_event_fields value)
unfolding before_constructor_event_serialize serialize_fields
before_constructor_event_serialize-fields buffer offset value = refl

pub record CallConstructorEvent : Type 0 where
  pub timestamp : ℕ
  pub trace_id : ℕ
  pub order_index : ℕ
  pub operation_signature : CString
  pub class_signature : CString
  pub callee_operation_signature : CString
  pub callee_class_signature : CString

unfoldable pub call_constructor_event_serialize : Ptr → ℕ → CallConstructorEvent → Exec ℕ
call_constructor_event_serialize buffer offset value = do
  let position = offset
  position ← position += serialize_int64 buffer position value.timestamp
  position ← position += serialize_int64 buffer position value.trace_id
  position ← position += serialize_int32 buffer position value.order_index
  position ← position += serialize_string buffer position value.operation_signature
  position ← position += serialize_string buffer position value.class_signature
  position ← position += serialize_string buffer position value.callee_operation_signature
  position ← position += serialize_string buffer position value.callee_class_signature
  pure position

abbrev pub call_constructor_event_fields : CallConstructorEvent → List Field
call_constructor_event_fields value =
    int64 value.timestamp
    ∷ int64 value.trace_id
    ∷ int32 value.order_index
    ∷ text value.operation_signature
    ∷ text value.class_signature
    ∷ text value.callee_operation_signature
    ∷ text value.callee_class_signature
    ∷ []

pub call_constructor_event_serialize-fields :
    (buffer : Ptr) (offset : ℕ) (value : CallConstructorEvent)
    → call_constructor_event_serialize buffer offset value
      ≡ serialize_fields buffer offset (call_constructor_event_fields value)
unfolding call_constructor_event_serialize serialize_fields
call_constructor_event_serialize-fields buffer offset value = refl
