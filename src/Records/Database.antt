-- ===== src/Records/Database.antt =====
-- The records of libkieker/common/record/database: each struct, its serializer, and the fields that the
-- struct declares, in their order.
use kieker_lang_pack_c.Common.{ℕ, List, [], ◌∷◌, ◌≡◌, refl}
use kieker_lang_pack_c.Word.{CString}
use kieker_lang_pack_c.State.{Ptr}
use kieker_lang_pack_c.Exec.{Exec, pure, ◌>>=◌, ◌+=◌}
use kieker_lang_pack_c.Serialize.{serialize_int32, serialize_int64, serialize_string}
use kieker_lang_pack_c.Fields.{Field, int32, int64, text, serialize_fields}

pub record AfterDatabaseEvent : Type 0 where
  pub timestamp : ℕ
  pub class_signature : CString
  pub trace_id : ℕ
  pub order_index : ℕ
  pub return_type : CString
  pub return_value : CString

unfoldable pub after_database_event_serialize : Ptr → ℕ → AfterDatabaseEvent → Exec ℕ
after_database_event_serialize buffer offset value = do
  let position = offset
  position ← position += serialize_int64 buffer position value.timestamp
  position ← position += serialize_string buffer position value.class_signature
  position ← position += serialize_int64 buffer position value.trace_id
  position ← position += serialize_int32 buffer position value.order_index
  position ← position += serialize_string buffer position value.return_type
  position ← position += serialize_string buffer position value.return_value
  pure position

abbrev pub after_database_event_fields : AfterDatabaseEvent → List Field
after_database_event_fields value =
    int64 value.timestamp
    ∷ text value.class_signature
    ∷ int64 value.trace_id
    ∷ int32 value.order_index
    ∷ text value.return_type
    ∷ text value.return_value
    ∷ []

pub after_database_event_serialize-fields :
    (buffer : Ptr) (offset : ℕ) (value : AfterDatabaseEvent)
    → after_database_event_serialize buffer offset value
      ≡ serialize_fields buffer offset (after_database_event_fields value)
unfolding after_database_event_serialize serialize_fields
after_database_event_serialize-fields buffer offset value = refl

pub record BeforeDatabaseEvent : Type 0 where
  pub timestamp : ℕ
  pub class_signature : CString
  pub trace_id : ℕ
  pub order_index : ℕ
  pub parameters : CString
  pub technology : CString

unfoldable pub before_database_event_serialize : Ptr → ℕ → BeforeDatabaseEvent → Exec ℕ
before_database_event_serialize buffer offset value = do
  let position = offset
  position ← position += serialize_int64 buffer position value.timestamp
  position ← position += serialize_string buffer position value.class_signature
  position ← position += serialize_int64 buffer position value.trace_id
  position ← position += serialize_int32 buffer position value.order_index
  position ← position += serialize_string buffer position value.parameters
  position ← position += serialize_string buffer position value.technology
  pure position

abbrev pub before_database_event_fields : BeforeDatabaseEvent → List Field
before_database_event_fields value =
    int64 value.timestamp
    ∷ text value.class_signature
    ∷ int64 value.trace_id
    ∷ int32 value.order_index
    ∷ text value.parameters
    ∷ text value.technology
    ∷ []

pub before_database_event_serialize-fields :
    (buffer : Ptr) (offset : ℕ) (value : BeforeDatabaseEvent)
    → before_database_event_serialize buffer offset value
      ≡ serialize_fields buffer offset (before_database_event_fields value)
unfolding before_database_event_serialize serialize_fields
before_database_event_serialize-fields buffer offset value = refl

pub record DatabaseFailedEvent : Type 0 where
  pub timestamp : ℕ
  pub class_signature : CString
  pub trace_id : ℕ
  pub order_index : ℕ
  pub cause : CString

unfoldable pub database_failed_event_serialize : Ptr → ℕ → DatabaseFailedEvent → Exec ℕ
database_failed_event_serialize buffer offset value = do
  let position = offset
  position ← position += serialize_int64 buffer position value.timestamp
  position ← position += serialize_string buffer position value.class_signature
  position ← position += serialize_int64 buffer position value.trace_id
  position ← position += serialize_int32 buffer position value.order_index
  position ← position += serialize_string buffer position value.cause
  pure position

abbrev pub database_failed_event_fields : DatabaseFailedEvent → List Field
database_failed_event_fields value =
    int64 value.timestamp
    ∷ text value.class_signature
    ∷ int64 value.trace_id
    ∷ int32 value.order_index
    ∷ text value.cause
    ∷ []

pub database_failed_event_serialize-fields :
    (buffer : Ptr) (offset : ℕ) (value : DatabaseFailedEvent)
    → database_failed_event_serialize buffer offset value
      ≡ serialize_fields buffer offset (database_failed_event_fields value)
unfolding database_failed_event_serialize serialize_fields
database_failed_event_serialize-fields buffer offset value = refl
