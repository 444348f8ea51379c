-- ===== src/Records/Monitor.antt =====
-- The records of libkieker/common/record/flow/trace/concurrency/monitor: each struct, its serializer, and the fields that the
-- struct declares, in their order.
use kieker_lang_pack_c.Common.{ℕ, List, [], ◌∷◌, ◌≡◌, refl}
use kieker_lang_pack_c.State.{Ptr}
use kieker_lang_pack_c.Exec.{Exec, pure, ◌>>=◌, ◌+=◌}
use kieker_lang_pack_c.Serialize.{serialize_int32, serialize_int64}
use kieker_lang_pack_c.Fields.{Field, int32, int64, serialize_fields}

pub record MonitorEntryEvent : Type 0 where
  pub timestamp : ℕ
  pub trace_id : ℕ
  pub order_index : ℕ
  pub lock_id : ℕ

unfoldable pub monitor_entry_event_serialize : Ptr → ℕ → MonitorEntryEvent → Exec ℕ
monitor_entry_event_serialize buffer offset value = do
  let position = offset
  position ← position += serialize_int64 buffer position value.timestamp
  position ← position += serialize_int64 buffer position value.trace_id
  position ← position += serialize_int32 buffer position value.order_index
  position ← position += serialize_int32 buffer position value.lock_id
  pure position

abbrev pub monitor_entry_event_fields : MonitorEntryEvent → List Field
monitor_entry_event_fields value =
    int64 value.timestamp
    ∷ int64 value.trace_id
    ∷ int32 value.order_index
    ∷ int32 value.lock_id
    ∷ []

pub monitor_entry_event_serialize-fields :
    (buffer : Ptr) (offset : ℕ) (value : MonitorEntryEvent)
    → monitor_entry_event_serialize buffer offset value
      ≡ serialize_fields buffer offset (monitor_entry_event_fields value)
unfolding monitor_entry_event_serialize serialize_fields
monitor_entry_event_serialize-fields buffer offset value = refl

pub record MonitorExitEvent : Type 0 where
  pub timestamp : ℕ
  pub trace_id : ℕ
  pub order_index : ℕ
  pub lock_id : ℕ

unfoldable pub monitor_exit_event_serialize : Ptr → ℕ → MonitorExitEvent → Exec ℕ
monitor_exit_event_serialize buffer offset value = do
  let position = offset
  position ← position += serialize_int64 buffer position value.timestamp
  position ← position += serialize_int64 buffer position value.trace_id
  position ← position += serialize_int32 buffer position value.order_index
  position ← position += serialize_int32 buffer position value.lock_id
  pure position

abbrev pub monitor_exit_event_fields : MonitorExitEvent → List Field
monitor_exit_event_fields value =
    int64 value.timestamp
    ∷ int64 value.trace_id
    ∷ int32 value.order_index
    ∷ int32 value.lock_id
    ∷ []

pub monitor_exit_event_serialize-fields :
    (buffer : Ptr) (offset : ℕ) (value : MonitorExitEvent)
    → monitor_exit_event_serialize buffer offset value
      ≡ serialize_fields buffer offset (monitor_exit_event_fields value)
unfolding monitor_exit_event_serialize serialize_fields
monitor_exit_event_serialize-fields buffer offset value = refl

pub record MonitorNotifyAllEvent : Type 0 where
  pub timestamp : ℕ
  pub trace_id : ℕ
  pub order_index : ℕ
  pub lock_id : ℕ

unfoldable pub monitor_notify_all_event_serialize : Ptr → ℕ → MonitorNotifyAllEvent → Exec ℕ
monitor_notify_all_event_serialize buffer offset value = do
  let position = offset
  position ← position += serialize_int64 buffer position value.timestamp
  position ← position += serialize_int64 buffer position value.trace_id
  position ← position += serialize_int32 buffer position value.order_index
  position ← position += serialize_int32 buffer position value.lock_id
  pure position

abbrev pub monitor_notify_all_event_fields : MonitorNotifyAllEvent → List Field
monitor_notify_all_event_fields value =
    int64 value.timestamp
    ∷ int64 value.trace_id
    ∷ int32 value.order_index
    ∷ int32 value.lock_id
    ∷ []

pub monitor_notify_all_event_serialize-fields :
    (buffer : Ptr) (offset : ℕ) (value : MonitorNotifyAllEvent)
    → monitor_notify_all_event_serialize buffer offset value
      ≡ serialize_fields buffer offset (monitor_notify_all_event_fields value)
unfolding monitor_notify_all_event_serialize serialize_fields
monitor_notify_all_event_serialize-fields buffer offset value = refl

pub record MonitorNotifyEvent : Type 0 where
  pub timestamp : ℕ
  pub trace_id : ℕ
  pub order_index : ℕ
  pub lock_id : ℕ

unfoldable pub monitor_notify_event_serialize : Ptr → ℕ → MonitorNotifyEvent → Exec ℕ
monitor_notify_event_serialize buffer offset value = do
  let position = offset
  position ← position += serialize_int64 buffer position value.timestamp
  position ← position += serialize_int64 buffer position value.trace_id
  position ← position += serialize_int32 buffer position value.order_index
  position ← position += serialize_int32 buffer position value.lock_id
  pure position

abbrev pub monitor_notify_event_fields : MonitorNotifyEvent → List Field
monitor_notify_event_fields value =
    int64 value.timestamp
    ∷ int64 value.trace_id
    ∷ int32 value.order_index
    ∷ int32 value.lock_id
    ∷ []

pub monitor_notify_event_serialize-fields :
    (buffer : Ptr) (offset : ℕ) (value : MonitorNotifyEvent)
    → monitor_notify_event_serialize buffer offset value
      ≡ serialize_fields buffer offset (monitor_notify_event_fields value)
unfolding monitor_notify_event_serialize serialize_fields
monitor_notify_event_serialize-fields buffer offset value = refl

pub record MonitorRequestEvent : Type 0 where
  pub timestamp : ℕ
  pub trace_id : ℕ
  pub order_index : ℕ
  pub lock_id : ℕ

unfoldable pub monitor_request_event_serialize : Ptr → ℕ → MonitorRequestEvent → Exec ℕ
monitor_request_event_serialize buffer offset value = do
  let position = offset
  position ← position += serialize_int64 buffer position value.timestamp
  position ← position += serialize_int64 buffer position value.trace_id
  position ← position += serialize_int32 buffer position value.order_index
  position ← position += serialize_int32 buffer position value.lock_id
  pure position

abbrev pub monitor_request_event_fields : MonitorRequestEvent → List Field
monitor_request_event_fields value =
    int64 value.timestamp
    ∷ int64 value.trace_id
    ∷ int32 value.order_index
    ∷ int32 value.lock_id
    ∷ []

pub monitor_request_event_serialize-fields :
    (buffer : Ptr) (offset : ℕ) (value : MonitorRequestEvent)
    → monitor_request_event_serialize buffer offset value
      ≡ serialize_fields buffer offset (monitor_request_event_fields value)
unfolding monitor_request_event_serialize serialize_fields
monitor_request_event_serialize-fields buffer offset value = refl

pub record MonitorWaitEvent : Type 0 where
  pub timestamp : ℕ
  pub trace_id : ℕ
  pub order_index : ℕ
  pub lock_id : ℕ

unfoldable pub monitor_wait_event_serialize : Ptr → ℕ → MonitorWaitEvent → Exec ℕ
monitor_wait_event_serialize buffer offset value = do
  let position = offset
  position ← position += serialize_int64 buffer position value.timestamp
  position ← position += serialize_int64 buffer position value.trace_id
  position ← position += serialize_int32 buffer position value.order_index
  position ← position += serialize_int32 buffer position value.lock_id
  pure position

abbrev pub monitor_wait_event_fields : MonitorWaitEvent → List Field
monitor_wait_event_fields value =
    int64 value.timestamp
    ∷ int64 value.trace_id
    ∷ int32 value.order_index
    ∷ int32 value.lock_id
    ∷ []

pub monitor_wait_event_serialize-fields :
    (buffer : Ptr) (offset : ℕ) (value : MonitorWaitEvent)
    → monitor_wait_event_serialize buffer offset value
      ≡ serialize_fields buffer offset (monitor_wait_event_fields value)
unfolding monitor_wait_event_serialize serialize_fields
monitor_wait_event_serialize-fields buffer offset value = refl
