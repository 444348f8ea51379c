-- ===== src/Records/Misc.antt =====
-- The records of libkieker/common/record/misc: each struct, its serializer, and the fields that the
-- struct declares, in their order.
use kieker_lang_pack_c.Common.{ℕ, List, [], ◌∷◌, ◌≡◌, refl}
use kieker_lang_pack_c.Word.{CString}
use kieker_lang_pack_c.State.{Ptr}
use kieker_lang_pack_c.Exec.{Exec, pure, ◌>>=◌, ◌+=◌}
use kieker_lang_pack_c.Serialize.{
  serialize_boolean, serialize_int32, serialize_int64, serialize_string,
}
use kieker_lang_pack_c.Fields.{Field, boolean, int32, int64, text, serialize_fields}

pub record EmptyRecord : Type 0 where

unfoldable pub empty_record_serialize : Ptr → ℕ → EmptyRecord → Exec ℕ
empty_record_serialize buffer offset value = do let position = offset; pure position

abbrev pub empty_record_fields : EmptyRecord → List Field
empty_record_fields value = []

pub empty_record_serialize-fields :
    (buffer : Ptr) (offset : ℕ) (value : EmptyRecord)
    → empty_record_serialize buffer offset value
      ≡ serialize_fields buffer offset (empty_record_fields value)
unfolding empty_record_serialize serialize_fields
empty_record_serialize-fields buffer offset value = refl

pub record HostApplicationMetaData : Type 0 where
  pub system_name : CString
  pub ip_address : CString
  pub hostname : CString
  pub application_name : CString

unfoldable pub host_application_meta_data_serialize : Ptr → ℕ → HostApplicationMetaData → Exec ℕ
host_application_meta_data_serialize buffer offset value = do
  let position = offset
  position ← position += serialize_string buffer position value.system_name
  position ← position += serialize_string buffer position value.ip_address
  position ← position += serialize_string buffer position value.hostname
  position ← position += serialize_string buffer position value.application_name
  pure position

abbrev pub host_application_meta_data_fields : HostApplicationMetaData → List Field
host_application_meta_data_fields value =
    text value.system_name
    ∷ text value.ip_address
    ∷ text value.hostname
    ∷ text value.application_name
    ∷ []

pub host_application_meta_data_serialize-fields :
    (buffer : Ptr) (offset : ℕ) (value : HostApplicationMetaData)
    → host_application_meta_data_serialize buffer offset value
      ≡ serialize_fields buffer offset (host_application_meta_data_fields value)
unfolding host_application_meta_data_serialize serialize_fields
host_application_meta_data_serialize-fields buffer offset value = refl

pub record KiekerMetadataRecord : Type 0 where
  pub version : CString
  pub controller_name : CString
  pub hostname : CString
  pub experiment_id : ℕ
  pub debug_mode : ℕ
  pub time_offset : ℕ
  pub time_unit : CString
  pub number_of_records : ℕ

unfoldable pub kieker_metadata_record_serialize : Ptr → ℕ → KiekerMetadataRecord → Exec ℕ
kieker_metadata_record_serialize buffer offset value = do
  let position = offset
  position ← position += serialize_string buffer position value.version
  position ← position += serialize_string buffer position value.controller_name
  position ← position += serialize_string buffer position value.hostname
  position ← position += serialize_int32 buffer position value.experiment_id
  position ← position += serialize_boolean buffer position value.debug_mode
  position ← position += serialize_int64 buffer position value.time_offset
  position ← position += serialize_string buffer position value.time_unit
  position ← position += serialize_int64 buffer position value.number_of_records
  pure position

abbrev pub kieker_metadata_record_fields : KiekerMetadataRecord → List Field
kieker_metadata_record_fields value =
    text value.version
    ∷ text value.controller_name
    ∷ text value.hostname
    ∷ int32 value.experiment_id
    ∷ boolean value.debug_mode
    ∷ int64 value.time_offset
    ∷ text value.time_unit
    ∷ int64 value.number_of_records
    ∷ []

pub kieker_metadata_record_serialize-fields :
    (buffer : Ptr) (offset : ℕ) (value : KiekerMetadataRecord)
    → kieker_metadata_record_serialize buffer offset value
      ≡ serialize_fields buffer offset (kieker_metadata_record_fields value)
unfolding kieker_metadata_record_serialize serialize_fields
kieker_metadata_record_serialize-fields buffer offset value = refl

pub record ThreadMetaData : Type 0 where
  pub hostname : CString
  pub thread_id : ℕ

unfoldable pub thread_meta_data_serialize : Ptr → ℕ → ThreadMetaData → Exec ℕ
thread_meta_data_serialize buffer offset value = do
  let position = offset
  position ← position += serialize_string buffer position value.hostname
  position ← position += serialize_int64 buffer position value.thread_id
  pure position

abbrev pub thread_meta_data_fields : ThreadMetaData → List Field
thread_meta_data_fields value = text value.hostname ∷ int64 value.thread_id ∷ []

pub thread_meta_data_serialize-fields :
    (buffer : Ptr) (offset : ℕ) (value : ThreadMetaData)
    → thread_meta_data_serialize buffer offset value
      ≡ serialize_fields buffer offset (thread_meta_data_fields value)
unfolding thread_meta_data_serialize serialize_fields
thread_meta_data_serialize-fields buffer offset value = refl

pub record TimestampRecord : Type 0 where
  pub timestamp : ℕ

unfoldable pub timestamp_record_serialize : Ptr → ℕ → TimestampRecord → Exec ℕ
timestamp_record_serialize buffer offset value = do
  let position = offset
  position ← position += serialize_int64 buffer position value.timestamp
  pure position

abbrev pub timestamp_record_fields : TimestampRecord → List Field
timestamp_record_fields value = int64 value.timestamp ∷ []

pub timestamp_record_serialize-fields :
    (buffer : Ptr) (offset : ℕ) (value : TimestampRecord)
    → timestamp_record_serialize buffer offset value
      ≡ serialize_fields buffer offset (timestamp_record_fields value)
unfolding timestamp_record_serialize serialize_fields
timestamp_record_serialize-fields buffer offset value = refl
