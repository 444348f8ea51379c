-- ===== src/Records/Thread.antt =====
-- The records of libkieker/common/record/flow/thread: each struct, its serializer, and the fields that the
-- struct declares, in their order.
use kieker_lang_pack_c.Common.{ℕ, List, [], ◌∷◌, ◌≡◌, refl}
use kieker_lang_pack_c.Word.{CString}
use kieker_lang_pack_c.State.{Ptr}
use kieker_lang_pack_c.Exec.{Exec, pure, ◌>>=◌, ◌+=◌}
use kieker_lang_pack_c.Serialize.{serialize_int32, serialize_int64, serialize_string}
use kieker_lang_pack_c.Fields.{Field, int32, int64, text, serialize_fields}

pub record AfterFailedThreadBasedEvent : Type 0 where
  pub timestamp : ℕ
  pub thread_id : ℕ
  pub order_index : ℕ
  pub operation_signature : CString
  pub class_signature : CString
  pub cause : CString

unfoldable pub after_failed_thread_based_event_serialize :
    Ptr → ℕ → AfterFailedThreadBasedEvent → Exec ℕ
after_failed_thread_based_event_serialize buffer offset value = do
  let position = offset
  position ← position += serialize_int64 buffer position value.timestamp
  position ← position += serialize_int64 buffer position value.thread_id
  position ← position += serialize_int32 buffer position value.order_index
  position ← position += serialize_string buffer position value.operation_signature
  position ← position += serialize_string buffer position value.class_signature
  position ← position += serialize_string buffer position value.cause
  pure position

abbrev pub after_failed_thread_based_event_fields : AfterFailedThreadBasedEvent → List Field
after_failed_thread_based_event_fields value =
    int64 value.timestamp
    ∷ int64 value.thread_id
    ∷ int32 value.order_index
    ∷ text value.operation_signature
    ∷ text value.class_signature
    ∷ text value.cause
    ∷ []

pub after_failed_thread_based_event_serialize-fields :
    (buffer : Ptr) (offset : ℕ) (value : AfterFailedThreadBasedEvent)
    → after_failed_thread_based_event_serialize buffer offset value
      ≡ serialize_fields buffer offset (after_failed_thread_based_event_fields value)
unfolding after_failed_thread_based_event_serialize serialize_fields
after_failed_thread_based_event_serialize-fields buffer offset value = refl

pub record AfterThreadBasedEvent : Type 0 where
  pub timestamp : ℕ
  pub thread_id : ℕ
  pub order_index : ℕ
  pub operation_signature : CString
  pub class_signature : CString

unfoldable pub after_thread_based_event_serialize : Ptr → ℕ → AfterThreadBasedEvent → Exec ℕ
after_thread_based_event_serialize buffer offset value = do
  let position = offset
  position ← position += serialize_int64 buffer position value.timestamp
  position ← position += serialize_int64 buffer position value.thread_id
  position ← position += serialize_int32 buffer position value.order_index
  position ← position += serialize_string buffer position value.operation_signature
  position ← position += serialize_string buffer position value.class_signature
  pure position

abbrev pub after_thread_based_event_fields : AfterThreadBasedEvent → List Field
after_thread_based_event_fields value =
    int64 value.timestamp
    ∷ int64 value.thread_id
    ∷ int32 value.order_index
    ∷ text value.operation_signature
    ∷ text value.class_signature
    ∷ []

pub after_thread_based_event_serialize-fields :
    (buffer : Ptr) (offset : ℕ) (value : AfterThreadBasedEvent)
    → after_thread_based_event_serialize buffer offset value
      ≡ serialize_fields buffer offset (after_thread_based_event_fields value)
unfolding after_thread_based_event_serialize serialize_fields
after_thread_based_event_serialize-fields buffer offset value = refl

pub record BeforeThreadBasedEvent : Type 0 where
  pub timestamp : ℕ
  pub thread_id : ℕ
  pub order_index : ℕ
  pub operation_signature : CString
  pub class_signature : CString

unfoldable pub before_thread_based_event_serialize : Ptr → ℕ → BeforeThreadBasedEvent → Exec ℕ
before_thread_based_event_serialize buffer offset value = do
  let position = offset
  position ← position += serialize_int64 buffer position value.timestamp
  position ← position += serialize_int64 buffer position value.thread_id
  position ← position += serialize_int32 buffer position value.order_index
  position ← position += serialize_string buffer position value.operation_signature
  position ← position += serialize_string buffer position value.class_signature
  pure position

abbrev pub before_thread_based_event_fields : BeforeThreadBasedEvent → List Field
before_thread_based_event_fields value =
    int64 value.timestamp
    ∷ int64 value.thread_id
    ∷ int32 value.order_index
    ∷ text value.operation_signature
    ∷ text value.class_signature
    ∷ []

pub before_thread_based_event_serialize-fields :
    (buffer : Ptr) (offset : ℕ) (value : BeforeThreadBasedEvent)
    → before_thread_based_event_serialize buffer offset value
      ≡ serialize_fields buffer offset (before_thread_based_event_fields value)
unfolding before_thread_based_event_serialize serialize_fields
before_thread_based_event_serialize-fields buffer offset value = refl
