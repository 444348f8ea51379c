-- ===== src/Records/OperationObject.antt =====
-- The records of libkieker/common/record/flow/trace/operation/object: each struct, its serializer, and the fields that the
-- struct declares, in their order.
use kieker_lang_pack_c.Common.{ℕ, List, [], ◌∷◌, ◌≡◌, refl}
use kieker_lang_pack_c.Word.{CString}
use kieker_lang_pack_c.State.{Ptr}
use kieker_lang_pack_c.Exec.{Exec, pure, ◌>>=◌, ◌+=◌}
use kieker_lang_pack_c.Serialize.{serialize_int32, serialize_int64, serialize_string}
use kieker_lang_pack_c.Fields.{Field, int32, int64, text, serialize_fields}

pub record AfterOperationFailedObjectEvent : Type 0 where
  pub timestamp : ℕ
  pub trace_id : ℕ
  pub order_index : ℕ
  pub operation_signature : CString
  pub class_signature : CString
  pub cause : CString
  pub object_id : ℕ

unfoldable pub after_operation_failed_object_event_serialize :
    Ptr → ℕ → AfterOperationFailedObjectEvent → Exec ℕ
after_operation_failed_object_event_serialize buffer offset value = do
  let position = offset
  position ← position += serialize_int64 buffer position value.timestamp
  position ← position += serialize_int64 buffer position value.trace_id
  position ← position += serialize_int32 buffer position value.order_index
  position ← position += serialize_string buffer position value.operation_signature
  position ← position += serialize_string buffer position value.class_signature
  position ← position += serialize_string buffer position value.cause
  position ← position += serialize_int32 buffer position value.object_id
  pure position

abbrev pub after_operation_failed_object_event_fields : AfterOperationFailedObjectEvent → List Field
after_operation_failed_object_event_fields value =
    int64 value.timestamp
    ∷ int64 value.trace_id
    ∷ int32 value.order_index
    ∷ text value.operation_signature
    ∷ text value.class_signature
    ∷ text value.cause
    ∷ int32 value.object_id
    ∷ []

pub after_operation_failed_object_event_serialize-fields :
    (buffer : Ptr) (offset : ℕ) (value : AfterOperationFailedObjectEvent)
    → after_operation_failed_object_event_serialize buffer offset value
      ≡ serialize_fields buffer offset (after_operation_failed_object_event_fields value)
unfolding after_operation_failed_object_event_serialize serialize_fields
after_operation_failed_object_event_serialize-fields buffer offset value = refl

pub record AfterOperationObjectEvent : Type 0 where
  pub timestamp : ℕ
  pub trace_id : ℕ
  pub order_index : ℕ
  pub operation_signature : CString
  pub class_signature : CString
  pub object_id : ℕ

unfoldable pub after_operation_object_event_serialize : Ptr → ℕ → AfterOperationObjectEvent → Exec ℕ
after_operation_object_event_serialize buffer offset value = do
  let position = offset
  position ← position += serialize_int64 buffer position value.timestamp
  position ← position += serialize_int64 buffer position value.trace_id
  position ← position += serialize_int32 buffer position value.order_index
  position ← position += serialize_string buffer position value.operation_signature
  position ← position += serialize_string buffer position value.class_signature
  position ← position += serialize_int32 buffer position value.object_id
  pure position

abbrev pub after_operation_object_event_fields : AfterOperationObjectEvent → List Field
after_operation_object_event_fields value =
    int64 value.timestamp
    ∷ int64 value.trace_id
    ∷ int32 value.order_index
    ∷ text value.operation_signature
    ∷ text value.class_signature
    ∷ int32 value.object_id
    ∷ []

pub after_operation_object_event_serialize-fields :
    (buffer : Ptr) (offset : ℕ) (value : AfterOperationObjectEvent)
    → after_operation_object_event_serialize buffer offset value
      ≡ serialize_fields buffer offset (after_operation_object_event_fields value)
unfolding after_operation_object_event_serialize serialize_fields
after_operation_object_event_serialize-fields buffer offset value = refl

pub record BeforeOperationObjectEvent : Type 0 where
  pub timestamp : ℕ
  pub trace_id : ℕ
  pub order_index : ℕ
  pub operation_signature : CString
  pub class_signature : CString
  pub object_id : ℕ

unfoldable pub before_operation_object_event_serialize :
    Ptr → ℕ → BeforeOperationObjectEvent → Exec ℕ
before_operation_object_event_serialize buffer offset value = do
  let position = offset
  position ← position += serialize_int64 buffer position value.timestamp
  position ← position += serialize_int64 buffer position value.trace_id
  position ← position += serialize_int32 buffer position value.order_index
  position ← position += serialize_string buffer position value.operation_signature
  position ← position += serialize_string buffer position value.class_signature
  position ← position += serialize_int32 buffer position value.object_id
  pure position

abbrev pub before_operation_object_event_fields : BeforeOperationObjectEvent → List Field
before_operation_object_event_fields value =
    int64 value.timestamp
    ∷ int64 value.trace_id
    ∷ int32 value.order_index
    ∷ text value.operation_signature
    ∷ text value.class_signature
    ∷ int32 value.object_id
    ∷ []

pub before_operation_object_event_serialize-fields :
    (buffer : Ptr) (offset : ℕ) (value : BeforeOperationObjectEvent)
    → before_operation_object_event_serialize buffer offset value
      ≡ serialize_fields buffer offset (before_operation_object_event_fields value)
unfolding before_operation_object_event_serialize serialize_fields
before_operation_object_event_serialize-fields buffer offset value = refl

pub record BeforeOperationObjectInterfaceEvent : Type 0 where
  pub timestamp : ℕ
  pub trace_id : ℕ
  pub order_index : ℕ
  pub operation_signature : CString
  pub class_signature : CString
  pub object_id : ℕ
  pub interface : CString

unfoldable pub before_operation_object_interface_event_serialize :
    Ptr → ℕ → BeforeOperationObjectInterfaceEvent → Exec ℕ
before_operation_object_interface_event_serialize buffer offset value = do
  let position = offset
  position ← position += serialize_int64 buffer position value.timestamp
  position ← position += serialize_int64 buffer position value.trace_id
  position ← position += serialize_int32 buffer position value.order_index
  position ← position += serialize_string buffer position value.operation_signature
  position ← position += serialize_string buffer position value.class_signature
  position ← position += serialize_int32 buffer position value.object_id
  position ← position += serialize_string buffer position value.interface
  pure position

abbrev pub before_operation_object_interface_event_fields :
    BeforeOperationObjectInterfaceEvent → List Field
before_operation_object_interface_event_fields value =
    int64 value.timestamp
    ∷ int64 value.trace_id
    ∷ int32 value.order_index
    ∷ text value.operation_signature
    ∷ text value.class_signature
    ∷ int32 value.object_id
    ∷ text value.interface
    ∷ []

pub before_operation_object_interface_event_serialize-fields :
    (buffer : Ptr) (offset : ℕ) (value : BeforeOperationObjectInterfaceEvent)
    → before_operation_object_interface_event_serialize buffer offset value
      ≡ serialize_fields buffer offset (before_operation_object_interface_event_fields value)
unfolding before_operation_object_interface_event_serialize serialize_fields
before_operation_object_interface_event_serialize-fields buffer offset value = refl

pub record CallOperationObjectEvent : Type 0 where
  pub timestamp : ℕ
  pub trace_id : ℕ
  pub order_index : ℕ
  pub operation_signature : CString
  pub class_signature : CString
  pub callee_operation_signature : CString
  pub callee_class_signature : CString
  pub object_id : ℕ
  pub callee_object_id : ℕ

unfoldable pub call_operation_object_event_serialize : Ptr → ℕ → CallOperationObjectEvent → Exec ℕ
call_operation_object_event_serialize buffer offset value = do
  let position = offset
  position ← position += serialize_int64 buffer position value.timestamp
  position ← position += serialize_int64 buffer position value.trace_id
  position ← position += serialize_int32 buffer position value.order_index
  position ← position += serialize_string buffer position value.operation_signature
  position ← position += serialize_string buffer position value.class_signature
  position ← position += serialize_string buffer position value.callee_operation_signature
  position ← position += serialize_string buffer position value.callee_class_signature
  position ← position += serialize_int32 buffer position value.object_id
  position ← position += serialize_int32 buffer position value.callee_object_id
  pure position

abbrev pub call_operation_object_event_fields : CallOperationObjectEvent → List Field
call_operation_object_event_fields value =
    int64 value.timestamp
    ∷ int64 value.trace_id
    ∷ int32 value.order_index
    ∷ text value.operation_signature
    ∷ text value.class_signature
    ∷ text value.callee_operation_signature
    ∷ text value.callee_class_signature
    ∷ int32 value.object_id
    ∷ int32 value.callee_object_id
    ∷ []

pub call_operation_object_event_serialize-fields :
    (buffer : Ptr) (offset : ℕ) (value : CallOperationObjectEvent)
    → call_operation_object_event_serialize buffer offset value
      ≡ serialize_fields buffer offset (call_operation_object_event_fields value)
unfolding call_operation_object_event_serialize serialize_fields
call_operation_object_event_serialize-fields buffer offset value = refl
