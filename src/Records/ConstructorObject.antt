-- ===== src/Records/ConstructorObject.antt =====
-- The records of libkieker/common/record/flow/trace/operation/constructor/object: each struct, its serializer, and the fields that the
-- struct declares, in their order.
use kieker_lang_pack_c.Common.{ℕ, List, [], ◌∷◌, ◌≡◌, refl}
use kieker_lang_pack_c.Word.{CString}
use kieker_lang_pack_c.State.{Ptr}
use kieker_lang_pack_c.Exec.{Exec, pure, ◌>>=◌, ◌+=◌}
use kieker_lang_pack_c.Serialize.{serialize_int32, serialize_int64, serialize_string}
use kieker_lang_pack_c.Fields.{Field, int32, int64, text, serialize_fields}

pub record AfterConstructorFailedObjectEvent : Type 0 where
  pub timestamp : ℕ
  pub trace_id : ℕ
  pub order_index : ℕ
  pub operation_signature : CString
  pub class_signature : CString
  pub cause : CString
  pub object_id : ℕ

unfoldable pub after_constructor_failed_object_event_serialize :
    Ptr → ℕ → AfterConstructorFailedObjectEvent → Exec ℕ
after_constructor_failed_object_event_serialize buffer offset value = do
  let position = offset
  position ← position += serialize_int64 buffer position value.timestamp
  position ← position += serialize_int64 buffer position value.trace_id
  position ← position += serialize_int32 buffer position value.order_index
  position ← position += serialize_string buffer position value.operation_signature
  position ← position += serialize_string buffer position value.class_signature
  position ← position += serialize_string buffer position value.cause
  position ← position += serialize_int32 buffer position value.object_id
  pure position

abbrev pub after_constructor_failed_object_event_fields :
    AfterConstructorFailedObjectEvent → List Field
after_constructor_failed_object_event_fields value =
    int64 value.timestamp
    ∷ int64 value.trace_id
    ∷ int32 value.order_index
    ∷ text value.operation_signature
    ∷ text value.class_signature
    ∷ text value.cause
    ∷ int32 value.object_id
    ∷ []

pub after_constructor_failed_object_event_serialize-fields :
    (buffer : Ptr) (offset : ℕ) (value : AfterConstructorFailedObjectEvent)
    → after_constructor_failed_object_event_serialize buffer offset value
      ≡ serialize_fields buffer offset (after_constructor_failed_object_event_fields value)
unfolding after_constructor_failed_object_event_serialize serialize_fields
after_constructor_failed_object_event_serialize-fields buffer offset value = refl

pub record AfterConstructorObjectEvent : Type 0 where
  pub timestamp : ℕ
  pub trace_id : ℕ
  pub order_index : ℕ
  pub operation_signature : CString
  pub class_signature : CString
  pub object_id : ℕ

unfoldable pub after_constructor_object_event_serialize :
    Ptr → ℕ → AfterConstructorObjectEvent → Exec ℕ
after_constructor_object_event_serialize buffer offset value = do
  let position = offset
  position ← position += serialize_int64 buffer position value.timestamp
  position ← position += serialize_int64 buffer position value.trace_id
  position ← position += serialize_int32 buffer position value.order_index
  position ← position += serialize_string buffer position value.operation_signature
  position ← position += serialize_string buffer position value.class_signature
  position ← position += serialize_int32 buffer position value.object_id
  pure position

abbrev pub after_constructor_object_event_fields : AfterConstructorObjectEvent → List Field
after_constructor_object_event_fields value =
    int64 value.timestamp
    ∷ int64 value.trace_id
    ∷ int32 value.order_index
    ∷ text value.operation_signature
    ∷ text value.class_signature
    ∷ int32 value.object_id
    ∷ []

pub after_constructor_object_event_serialize-fields :
    (buffer : Ptr) (offset : ℕ) (value : AfterConstructorObjectEvent)
    → after_constructor_object_event_serialize buffer offset value
      ≡ serialize_fields buffer offset (after_constructor_object_event_fields value)
unfolding after_constructor_object_event_serialize serialize_fields
after_constructor_object_event_serialize-fields buffer offset value = refl

pub record BeforeConstructorObjectEvent : Type 0 where
  pub timestamp : ℕ
  pub trace_id : ℕ
  pub order_index : ℕ
  pub operation_signature : CString
  pub class_signature : CString
  pub object_id : ℕ

unfoldable pub before_constructor_object_event_serialize :
    Ptr → ℕ → BeforeConstructorObjectEvent → Exec ℕ
before_constructor_object_event_serialize buffer offset value = do
  let position = offset
  position ← position += serialize_int64 buffer position value.timestamp
  position ← position += serialize_int64 buffer position value.trace_id
  position ← position += serialize_int32 buffer position value.order_index
  position ← position += serialize_string buffer position value.operation_signature
  position ← position += serialize_string buffer position value.class_signature
  position ← position += serialize_int32 buffer position value.object_id
  pure position

abbrev pub before_constructor_object_event_fields : BeforeConstructorObjectEvent → List Field
before_constructor_object_event_fields value =
    int64 value.timestamp
    ∷ int64 value.trace_id
    ∷ int32 value.order_index
    ∷ text value.operation_signature
    ∷ text value.class_signature
    ∷ int32 value.object_id
    ∷ []

pub before_constructor_object_event_serialize-fields :
    (buffer : Ptr) (offset : ℕ) (value : BeforeConstructorObjectEvent)
    → before_constructor_object_event_serialize buffer offset value
      ≡ serialize_fields buffer offset (before_constructor_object_event_fields value)
unfolding before_constructor_object_event_serialize serialize_fields
before_constructor_object_event_serialize-fields buffer offset value = refl

pub record BeforeConstructorObjectInterfaceEvent : Type 0 where
  pub timestamp : ℕ
  pub trace_id : ℕ
  pub order_index : ℕ
  pub operation_signature : CString
  pub class_signature : CString
  pub object_id : ℕ
  pub interface : CString

unfoldable pub before_constructor_object_interface_event_serialize :
    Ptr → ℕ → BeforeConstructorObjectInterfaceEvent → Exec ℕ
before_constructor_object_interface_event_serialize buffer offset value = do
  let position = offset
  position ← position += serialize_int64 buffer position value.timestamp
  position ← position += serialize_int64 buffer position value.trace_id
  position ← position += serialize_int32 buffer position value.order_index
  position ← position += serialize_string buffer position value.operation_signature
  position ← position += serialize_string buffer position value.class_signature
  position ← position += serialize_int32 buffer position value.object_id
  position ← position += serialize_string buffer position value.interface
  pure position

abbrev pub before_constructor_object_interface_event_fields :
    BeforeConstructorObjectInterfaceEvent → List Field
before_constructor_object_interface_event_fields value =
    int64 value.timestamp
    ∷ int64 value.trace_id
    ∷ int32 value.order_index
    ∷ text value.operation_signature
    ∷ text value.class_signature
    ∷ int32 value.object_id
    ∷ text value.interface
    ∷ []

pub before_constructor_object_interface_event_serialize-fields :
    (buffer : Ptr) (offset : ℕ) (value : BeforeConstructorObjectInterfaceEvent)
    → before_constructor_object_interface_event_serialize buffer offset value
      ≡ serialize_fields buffer offset (before_constructor_object_interface_event_fields value)
unfolding before_constructor_object_interface_event_serialize serialize_fields
before_constructor_object_interface_event_serialize-fields buffer offset value = refl

pub record CallConstructorObjectEvent : Type 0 where
  pub timestamp : ℕ
  pub trace_id : ℕ
  pub order_index : ℕ
  pub operation_signature : CString
  pub class_signature : CString
  pub callee_operation_signature : CString
  pub callee_class_signature : CString
  pub object_id : ℕ
  pub callee_object_id : ℕ

unfoldable pub call_constructor_object_event_serialize :
    Ptr → ℕ → CallConstructorObjectEvent → Exec ℕ
call_constructor_object_event_serialize buffer offset value = do
  let position = offset
  position ← position += serialize_int64 buffer position value.timestamp
  position ← position += serialize_int64 buffer position value.trace_id
  position ← position += serialize_int32 buffer position value.order_index
  position ← position += serialize_string buffer position value.operation_signature
  position ← position += serialize_string buffer position value.class_signature
  position ← position += serialize_string buffer position value.callee_operation_signature
  position ← position += serialize_string buffer position value.callee_class_signature
  position ← position += serialize_int32 buffer position value.object_id
  position ← position += serialize_int32 buffer position value.callee_object_id
  pure position

abbrev pub call_constructor_object_event_fields : CallConstructorObjectEvent → List Field
call_constructor_object_event_fields value =
    int64 value.timestamp
    ∷ int64 value.trace_id
    ∷ int32 value.order_index
    ∷ text value.operation_signature
    ∷ text value.class_signature
    ∷ text value.callee_operation_signature
    ∷ text value.callee_class_signature
    ∷ int32 value.object_id
    ∷ int32 value.callee_object_id
    ∷ []

pub call_constructor_object_event_serialize-fields :
    (buffer : Ptr) (offset : ℕ) (value : CallConstructorObjectEvent)
    → call_constructor_object_event_serialize buffer offset value
      ≡ serialize_fields buffer offset (call_constructor_object_event_fields value)
unfolding call_constructor_object_event_serialize serialize_fields
call_constructor_object_event_serialize-fields buffer offset value = refl
