-- ===== src/Records/Controlflow.antt =====
-- The records of libkieker/common/record/controlflow: each struct, its serializer, and the fields that the
-- struct declares, in their order.
use kieker_lang_pack_c.Common.{ℕ, List, [], ◌∷◌, ◌≡◌, refl}
use kieker_lang_pack_c.Word.{CString}
use kieker_lang_pack_c.State.{Ptr}
use kieker_lang_pack_c.Exec.{Exec, pure, ◌>>=◌, ◌+=◌}
use kieker_lang_pack_c.Serialize.{serialize_int32, serialize_int64, serialize_string}
use kieker_lang_pack_c.Fields.{Field, int32, int64, text, serialize_fields}

pub record BranchingRecord : Type 0 where
  pub timestamp : ℕ
  pub branch_id : ℕ
  pub branching_outcome : ℕ

unfoldable pub branching_record_serialize : Ptr → ℕ → BranchingRecord → Exec ℕ
branching_record_serialize buffer offset value = do
  let position = offset
  position ← position += serialize_int64 buffer position value.timestamp
  position ← position += serialize_int32 buffer position value.branch_id
  position ← position += serialize_int32 buffer position value.branching_outcome
  pure position

abbrev pub branching_record_fields : BranchingRecord → List Field
branching_record_fields value =
    int64 value.timestamp ∷ int32 value.branch_id ∷ int32 value.branching_outcome ∷ []

pub branching_record_serialize-fields :
    (buffer : Ptr) (offset : ℕ) (value : BranchingRecord)
    → branching_record_serialize buffer offset value
      ≡ serialize_fields buffer offset (branching_record_fields value)
unfolding branching_record_serialize serialize_fields
branching_record_serialize-fields buffer offset value = refl

pub record OperationExecutionRecord : Type 0 where
  pub operation_signature : CString
  pub session_id : CString
  pub trace_id : ℕ
  pub tin : ℕ
  pub tout : ℕ
  pub hostname : CString
  pub eoi : ℕ
  pub ess : ℕ

unfoldable pub operation_execution_record_serialize : Ptr → ℕ → OperationExecutionRecord → Exec ℕ
operation_execution_record_serialize buffer offset value = do
  let position = offset
  position ← position += serialize_string buffer position value.operation_signature
  position ← position += serialize_string buffer position value.session_id
  position ← position += serialize_int64 buffer position value.trace_id
  position ← position += serialize_int64 buffer position value.tin
  position ← position += serialize_int64 buffer position value.tout
  position ← position += serialize_string buffer position value.hostname
  position ← position += serialize_int32 buffer position value.eoi
  position ← position += serialize_int32 buffer position value.ess
  pure position

abbrev pub operation_execution_record_fields : OperationExecutionRecord → List Field
operation_execution_record_fields value =
    text value.operation_signature
    ∷ text value.session_id
    ∷ int64 value.trace_id
    ∷ int64 value.tin
    ∷ int64 value.tout
    ∷ text value.hostname
    ∷ int32 value.eoi
    ∷ int32 value.ess
    ∷ []

pub operation_execution_record_serialize-fields :
    (buffer : Ptr) (offset : ℕ) (value : OperationExecutionRecord)
    → operation_execution_record_serialize buffer offset value
      ≡ serialize_fields buffer offset (operation_execution_record_fields value)
unfolding operation_execution_record_serialize serialize_fields
operation_execution_record_serialize-fields buffer offset value = refl
