-- ===== src/Records/Jvm.antt =====
-- The records of libkieker/common/record/jvm: each struct, its serializer, and the fields that the
-- struct declares, in their order.
use kieker_lang_pack_c.Common.{ℕ, List, [], ◌∷◌, ◌≡◌, refl}
use kieker_lang_pack_c.Word.{CString}
use kieker_lang_pack_c.State.{Ptr}
use kieker_lang_pack_c.Exec.{Exec, pure, ◌>>=◌, ◌+=◌}
use kieker_lang_pack_c.Serialize.{serialize_int32, serialize_int64, serialize_string}
use kieker_lang_pack_c.Fields.{Field, int32, int64, text, serialize_fields}

pub record ClassLoadingRecord : Type 0 where
  pub timestamp : ℕ
  pub hostname : CString
  pub vm_name : CString
  pub total_loaded_class_count : ℕ
  pub loaded_class_count : ℕ
  pub unloaded_class_count : ℕ

unfoldable pub class_loading_record_serialize : Ptr → ℕ → ClassLoadingRecord → Exec ℕ
class_loading_record_serialize buffer offset value = do
  let position = offset
  position ← position += serialize_int64 buffer position value.timestamp
  position ← position += serialize_string buffer position value.hostname
  position ← position += serialize_string buffer position value.vm_name
  position ← position += serialize_int64 buffer position value.total_loaded_class_count
  position ← position += serialize_int32 buffer position value.loaded_class_count
  position ← position += serialize_int64 buffer position value.unloaded_class_count
  pure position

abbrev pub class_loading_record_fields : ClassLoadingRecord → List Field
class_loading_record_fields value =
    int64 value.timestamp
    ∷ text value.hostname
    ∷ text value.vm_name
    ∷ int64 value.total_loaded_class_count
    ∷ int32 value.loaded_class_count
    ∷ int64 value.unloaded_class_count
    ∷ []

pub class_loading_record_serialize-fields :
    (buffer : Ptr) (offset : ℕ) (value : ClassLoadingRecord)
    → class_loading_record_serialize buffer offset value
      ≡ serialize_fields buffer offset (class_loading_record_fields value)
unfolding class_loading_record_serialize serialize_fields
class_loading_record_serialize-fields buffer offset value = refl

pub record CompilationRecord : Type 0 where
  pub timestamp : ℕ
  pub hostname : CString
  pub vm_name : CString
  pub jit_compiler_name : CString
  pub total_compilation_time_ms : ℕ

unfoldable pub compilation_record_serialize : Ptr → ℕ → CompilationRecord → Exec ℕ
compilation_record_serialize buffer offset value = do
  let position = offset
  position ← position += serialize_int64 buffer position value.timestamp
  position ← position += serialize_string buffer position value.hostname
  position ← position += serialize_string buffer position value.vm_name
  position ← position += serialize_string buffer position value.jit_compiler_name
  position ← position += serialize_int64 buffer position value.total_compilation_time_ms
  pure position

abbrev pub compilation_record_fields : CompilationRecord → List Field
compilation_record_fields value =
    int64 value.timestamp
    ∷ text value.hostname
    ∷ text value.vm_name
    ∷ text value.jit_compiler_name
    ∷ int64 value.total_compilation_time_ms
    ∷ []

pub compilation_record_serialize-fields :
    (buffer : Ptr) (offset : ℕ) (value : CompilationRecord)
    → compilation_record_serialize buffer offset value
      ≡ serialize_fields buffer offset (compilation_record_fields value)
unfolding compilation_record_serialize serialize_fields
compilation_record_serialize-fields buffer offset value = refl

pub record GcRecord : Type 0 where
  pub timestamp : ℕ
  pub hostname : CString
  pub vm_name : CString
  pub gc_name : CString
  pub collection_count : ℕ
  pub collection_time_ms : ℕ

unfoldable pub gc_record_serialize : Ptr → ℕ → GcRecord → Exec ℕ
gc_record_serialize buffer offset value = do
  let position = offset
  position ← position += serialize_int64 buffer position value.timestamp
  position ← position += serialize_string buffer position value.hostname
  position ← position += serialize_string buffer position value.vm_name
  position ← position += serialize_string buffer position value.gc_name
  position ← position += serialize_int64 buffer position value.collection_count
  position ← position += serialize_int64 buffer position value.collection_time_ms
  pure position

abbrev pub gc_record_fields : GcRecord → List Field
gc_record_fields value =
    int64 value.timestamp
    ∷ text value.hostname
    ∷ text value.vm_name
    ∷ text value.gc_name
    ∷ int64 value.collection_count
    ∷ int64 value.collection_time_ms
    ∷ []

pub gc_record_serialize-fields :
    (buffer : Ptr) (offset : ℕ) (value : GcRecord)
    → gc_record_serialize buffer offset value
      ≡ serialize_fields buffer offset (gc_record_fields value)
unfolding gc_record_serialize serialize_fields
gc_record_serialize-fields buffer offset value = refl

pub record MemoryRecord : Type 0 where
  pub timestamp : ℕ
  pub hostname : CString
  pub vm_name : CString
  pub heap_max_bytes : ℕ
  pub heap_used_bytes : ℕ
  pub heap_committed_bytes : ℕ
  pub heap_init_bytes : ℕ
  pub non_heap_max_bytes : ℕ
  pub non_heap_used_bytes : ℕ
  pub non_heap_committed_bytes : ℕ
  pub non_heap_init_bytes : ℕ
  pub object_pending_finalization_count : ℕ

unfoldable pub memory_record_serialize : Ptr → ℕ → MemoryRecord → Exec ℕ
memory_record_serialize buffer offset value = do
  let position = offset
  position ← position += serialize_int64 buffer position value.timestamp
  position ← position += serialize_string buffer position value.hostname
  position ← position += serialize_string buffer position value.vm_name
  position ← position += serialize_int64 buffer position value.heap_max_bytes
  position ← position += serialize_int64 buffer position value.heap_used_bytes
  position ← position += serialize_int64 buffer position value.heap_committed_bytes
  position ← position += serialize_int64 buffer position value.heap_init_bytes
  position ← position += serialize_int64 buffer position value.non_heap_max_bytes
  position ← position += serialize_int64 buffer position value.non_heap_used_bytes
  position ← position += serialize_int64 buffer position value.non_heap_committed_bytes
  position ← position += serialize_int64 buffer position value.non_heap_init_bytes
  position ← position += serialize_int32 buffer position value.object_pending_finalization_count
  pure position

abbrev pub memory_record_fields : MemoryRecord → List Field
memory_record_fields value =
    int64 value.timestamp
    ∷ text value.hostname
    ∷ text value.vm_name
    ∷ int64 value.heap_max_bytes
    ∷ int64 value.heap_used_bytes
    ∷ int64 value.heap_committed_bytes
    ∷ int64 value.heap_init_bytes
    ∷ int64 value.non_heap_max_bytes
    ∷ int64 value.non_heap_used_bytes
    ∷ int64 value.non_heap_committed_bytes
    ∷ int64 value.non_heap_init_bytes
    ∷ int32 value.object_pending_finalization_count
    ∷ []

pub memory_record_serialize-fields :
    (buffer : Ptr) (offset : ℕ) (value : MemoryRecord)
    → memory_record_serialize buffer offset value
      ≡ serialize_fields buffer offset (memory_record_fields value)
unfolding memory_record_serialize serialize_fields
memory_record_serialize-fields buffer offset value = refl

pub record ThreadsStatusRecord : Type 0 where
  pub timestamp : ℕ
  pub hostname : CString
  pub vm_name : CString
  pub thread_count : ℕ
  pub daemon_thread_count : ℕ
  pub peak_thread_count : ℕ
  pub total_started_thread_count : ℕ

unfoldable pub threads_status_record_serialize : Ptr → ℕ → ThreadsStatusRecord → Exec ℕ
threads_status_record_serialize buffer offset value = do
  let position = offset
  position ← position += serialize_int64 buffer position value.timestamp
  position ← position += serialize_string buffer position value.hostname
  position ← position += serialize_string buffer position value.vm_name
  position ← position += serialize_int64 buffer position value.thread_count
  position ← position += serialize_int64 buffer position value.daemon_thread_count
  position ← position += serialize_int64 buffer position value.peak_thread_count
  position ← position += serialize_int64 buffer position value.total_started_thread_count
  pure position

abbrev pub threads_status_record_fields : ThreadsStatusRecord → List Field
threads_status_record_fields value =
    int64 value.timestamp
    ∷ text value.hostname
    ∷ text value.vm_name
    ∷ int64 value.thread_count
    ∷ int64 value.daemon_thread_count
    ∷ int64 value.peak_thread_count
    ∷ int64 value.total_started_thread_count
    ∷ []

pub threads_status_record_serialize-fields :
    (buffer : Ptr) (offset : ℕ) (value : ThreadsStatusRecord)
    → threads_status_record_serialize buffer offset value
      ≡ serialize_fields buffer offset (threads_status_record_fields value)
unfolding threads_status_record_serialize serialize_fields
threads_status_record_serialize-fields buffer offset value = refl

pub record UptimeRecord : Type 0 where
  pub timestamp : ℕ
  pub hostname : CString
  pub vm_name : CString
  pub uptime_ms : ℕ

unfoldable pub uptime_record_serialize : Ptr → ℕ → UptimeRecord → Exec ℕ
uptime_record_serialize buffer offset value = do
  let position = offset
  position ← position += serialize_int64 buffer position value.timestamp
  position ← position += serialize_string buffer position value.hostname
  position ← position += serialize_string buffer position value.vm_name
  position ← position += serialize_int64 buffer position value.uptime_ms
  pure position

abbrev pub uptime_record_fields : UptimeRecord → List Field
uptime_record_fields value =
    int64 value.timestamp ∷ text value.hostname ∷ text value.vm_name ∷ int64 value.uptime_ms ∷ []

pub uptime_record_serialize-fields :
    (buffer : Ptr) (offset : ℕ) (value : UptimeRecord)
    → uptime_record_serialize buffer offset value
      ≡ serialize_fields buffer offset (uptime_record_fields value)
unfolding uptime_record_serialize serialize_fields
uptime_record_serialize-fields buffer offset value = refl
