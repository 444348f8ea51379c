-- ===== src/Records/Concurrency.antt =====
-- The records of libkieker/common/record/flow/trace/concurrency: each struct, its serializer, and the fields that the
-- struct declares, in their order.
use kieker_lang_pack_c.Common.{ℕ, List, [], ◌∷◌, ◌≡◌, refl}
use kieker_lang_pack_c.State.{Ptr}
use kieker_lang_pack_c.Exec.{Exec, pure, ◌>>=◌, ◌+=◌}
use kieker_lang_pack_c.Serialize.{serialize_int32, serialize_int64}
use kieker_lang_pack_c.Fields.{Field, int32, int64, serialize_fields}

pub record JoinEvent : Type 0 where
  pub timestamp : ℕ
  pub trace_id : ℕ
  pub order_index : ℕ
  pub joined_trace_id : ℕ

unfoldable pub join_event_serialize : Ptr → ℕ → JoinEvent → Exec ℕ
join_event_serialize buffer offset value = do
  let position = offset
  position ← position += serialize_int64 buffer position value.timestamp
  position ← position += serialize_int64 buffer position value.trace_id
  position ← position += serialize_int32 buffer position value.order_index
  position ← position += serialize_int64 buffer position value.joined_trace_id
  pure position

abbrev pub join_event_fields : JoinEvent → List Field
join_event_fields value =
    int64 value.timestamp
    ∷ int64 value.trace_id
    ∷ int32 value.order_index
    ∷ int64 value.joined_trace_id
    ∷ []

pub join_event_serialize-fields :
    (buffer : Ptr) (offset : ℕ) (value : JoinEvent)
    → join_event_serialize buffer offset value
      ≡ serialize_fields buffer offset (join_event_fields value)
unfolding join_event_serialize serialize_fields
join_event_serialize-fields buffer offset value = refl

pub record SplitEvent : Type 0 where
  pub timestamp : ℕ
  pub trace_id : ℕ
  pub order_index : ℕ

unfoldable pub split_event_serialize : Ptr → ℕ → SplitEvent → Exec ℕ
split_event_serialize buffer offset value = do
  let position = offset
  position ← position += serialize_int64 buffer position value.timestamp
  position ← position += serialize_int64 buffer position value.trace_id
  position ← position += serialize_int32 buffer position value.order_index
  pure position

abbrev pub split_event_fields : SplitEvent → List Field
split_event_fields value =
    int64 value.timestamp ∷ int64 value.trace_id ∷ int32 value.order_index ∷ []

pub split_event_serialize-fields :
    (buffer : Ptr) (offset : ℕ) (value : SplitEvent)
    → split_event_serialize buffer offset value
      ≡ serialize_fields buffer offset (split_event_fields value)
unfolding split_event_serialize serialize_fields
split_event_serialize-fields buffer offset value = refl
