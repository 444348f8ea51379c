-- ===== src/Records/System.antt =====
-- The records of libkieker/common/record/system: each struct, its serializer, and the fields that the
-- struct declares, in their order.
use kieker_lang_pack_c.Common.{ℕ, List, [], ◌∷◌, ◌≡◌, refl}
use kieker_lang_pack_c.Word.{CString}
use kieker_lang_pack_c.State.{Ptr}
use kieker_lang_pack_c.Exec.{Exec, pure, ◌>>=◌, ◌+=◌}
use kieker_lang_pack_c.Serialize.{serialize_double, serialize_int64, serialize_string}
use kieker_lang_pack_c.Fields.{Field, double, int64, text, serialize_fields}

pub record CpuUtilizationRecord : Type 0 where
  pub timestamp : ℕ
  pub hostname : CString
  pub cpu_id : CString
  pub user : ℕ
  pub system : ℕ
  pub wait : ℕ
  pub nice : ℕ
  pub irq : ℕ
  pub total_utilization : ℕ
  pub idle : ℕ

unfoldable pub cpu_utilization_record_serialize : Ptr → ℕ → CpuUtilizationRecord → Exec ℕ
cpu_utilization_record_serialize buffer offset value = do
  let position = offset
  position ← position += serialize_int64 buffer position value.timestamp
  position ← position += serialize_string buffer position value.hostname
  position ← position += serialize_string buffer position value.cpu_id
  position ← position += serialize_double buffer position value.user
  position ← position += serialize_double buffer position value.system
  position ← position += serialize_double buffer position value.wait
  position ← position += serialize_double buffer position value.nice
  position ← position += serialize_double buffer position value.irq
  position ← position += serialize_double buffer position value.total_utilization
  position ← position += serialize_double buffer position value.idle
  pure position

abbrev pub cpu_utilization_record_fields : CpuUtilizationRecord → List Field
cpu_utilization_record_fields value =
    int64 value.timestamp
    ∷ text value.hostname
    ∷ text value.cpu_id
    ∷ double value.user
    ∷ double value.system
    ∷ double value.wait
    ∷ double value.nice
    ∷ double value.irq
    ∷ double value.total_utilization
    ∷ double value.idle
    ∷ []

pub cpu_utilization_record_serialize-fields :
    (buffer : Ptr) (offset : ℕ) (value : CpuUtilizationRecord)
    → cpu_utilization_record_serialize buffer offset value
      ≡ serialize_fields buffer offset (cpu_utilization_record_fields value)
unfolding cpu_utilization_record_serialize serialize_fields
cpu_utilization_record_serialize-fields buffer offset value = refl

pub record DiskUsageRecord : Type 0 where
  pub timestamp : ℕ
  pub hostname : CString
  pub device_name : CString
  pub queue : ℕ
  pub read_bytes_per_second : ℕ
  pub reads_per_second : ℕ
  pub service_time : ℕ
  pub write_bytes_per_second : ℕ
  pub writes_per_second : ℕ

unfoldable pub disk_usage_record_serialize : Ptr → ℕ → DiskUsageRecord → Exec ℕ
disk_usage_record_serialize buffer offset value = do
  let position = offset
  position ← position += serialize_int64 buffer position value.timestamp
  position ← position += serialize_string buffer position value.hostname
  position ← position += serialize_string buffer position value.device_name
  position ← position += serialize_double buffer position value.queue
  position ← position += serialize_double buffer position value.read_bytes_per_second
  position ← position += serialize_double buffer position value.reads_per_second
  position ← position += serialize_double buffer position value.service_time
  position ← position += serialize_double buffer position value.write_bytes_per_second
  position ← position += serialize_double buffer position value.writes_per_second
  pure position

abbrev pub disk_usage_record_fields : DiskUsageRecord → List Field
disk_usage_record_fields value =
    int64 value.timestamp
    ∷ text value.hostname
    ∷ text value.device_name
    ∷ double value.queue
    ∷ double value.read_bytes_per_second
    ∷ double value.reads_per_second
    ∷ double value.service_time
    ∷ double value.write_bytes_per_second
    ∷ double value.writes_per_second
    ∷ []

pub disk_usage_record_serialize-fields :
    (buffer : Ptr) (offset : ℕ) (value : DiskUsageRecord)
    → disk_usage_record_serialize buffer offset value
      ≡ serialize_fields buffer offset (disk_usage_record_fields value)
unfolding disk_usage_record_serialize serialize_fields
disk_usage_record_serialize-fields buffer offset value = refl

pub record LoadAverageRecord : Type 0 where
  pub timestamp : ℕ
  pub hostname : CString
  pub one_min_load_average : ℕ
  pub five_min_load_average : ℕ
  pub fifteen_min_load_average : ℕ

unfoldable pub load_average_record_serialize : Ptr → ℕ → LoadAverageRecord → Exec ℕ
load_average_record_serialize buffer offset value = do
  let position = offset
  position ← position += serialize_int64 buffer position value.timestamp
  position ← position += serialize_string buffer position value.hostname
  position ← position += serialize_double buffer position value.one_min_load_average
  position ← position += serialize_double buffer position value.five_min_load_average
  position ← position += serialize_double buffer position value.fifteen_min_load_average
  pure position

abbrev pub load_average_record_fields : LoadAverageRecord → List Field
load_average_record_fields value =
    int64 value.timestamp
    ∷ text value.hostname
    ∷ double value.one_min_load_average
    ∷ double value.five_min_load_average
    ∷ double value.fifteen_min_load_average
    ∷ []

pub load_average_record_serialize-fields :
    (buffer : Ptr) (offset : ℕ) (value : LoadAverageRecord)
    → load_average_record_serialize buffer offset value
      ≡ serialize_fields buffer offset (load_average_record_fields value)
unfolding load_average_record_serialize serialize_fields
load_average_record_serialize-fields buffer offset value = refl

pub record MemSwapUsageRecord : Type 0 where
  pub timestamp : ℕ
  pub hostname : CString
  pub mem_total : ℕ
  pub mem_used : ℕ
  pub mem_free : ℕ
  pub swap_total : ℕ
  pub swap_used : ℕ
  pub swap_free : ℕ

unfoldable pub mem_swap_usage_record_serialize : Ptr → ℕ → MemSwapUsageRecord → Exec ℕ
mem_swap_usage_record_serialize buffer offset value = do
  let position = offset
  position ← position += serialize_int64 buffer position value.timestamp
  position ← position += serialize_string buffer position value.hostname
  position ← position += serialize_int64 buffer position value.mem_total
  position ← position += serialize_int64 buffer position value.mem_used
  position ← position += serialize_int64 buffer position value.mem_free
  position ← position += serialize_int64 buffer position value.swap_total
  position ← position += serialize_int64 buffer position value.swap_used
  position ← position += serialize_int64 buffer position value.swap_free
  pure position

abbrev pub mem_swap_usage_record_fields : MemSwapUsageRecord → List Field
mem_swap_usage_record_fields value =
    int64 value.timestamp
    ∷ text value.hostname
    ∷ int64 value.mem_total
    ∷ int64 value.mem_used
    ∷ int64 value.mem_free
    ∷ int64 value.swap_total
    ∷ int64 value.swap_used
    ∷ int64 value.swap_free
    ∷ []

pub mem_swap_usage_record_serialize-fields :
    (buffer : Ptr) (offset : ℕ) (value : MemSwapUsageRecord)
    → mem_swap_usage_record_serialize buffer offset value
      ≡ serialize_fields buffer offset (mem_swap_usage_record_fields value)
unfolding mem_swap_usage_record_serialize serialize_fields
mem_swap_usage_record_serialize-fields buffer offset value = refl

pub record NetworkUtilizationRecord : Type 0 where
  pub timestamp : ℕ
  pub hostname : CString
  pub interface_name : CString
  pub speed : ℕ
  pub tx_bytes_per_second : ℕ
  pub tx_carrier_per_second : ℕ
  pub tx_collisions_per_second : ℕ
  pub tx_dropped_per_second : ℕ
  pub tx_errors_per_second : ℕ
  pub tx_overruns_per_second : ℕ
  pub tx_packets_per_second : ℕ
  pub rx_bytes_per_second : ℕ
  pub rx_dropped_per_second : ℕ
  pub rx_errors_per_second : ℕ
  pub rx_frame_per_second : ℕ
  pub rx_overruns_per_second : ℕ
  pub rx_packets_per_second : ℕ

unfoldable pub network_utilization_record_serialize : Ptr → ℕ → NetworkUtilizationRecord → Exec ℕ
network_utilization_record_serialize buffer offset value = do
  let position = offset
  position ← position += serialize_int64 buffer position value.timestamp
  position ← position += serialize_string buffer position value.hostname
  position ← position += serialize_string buffer position value.interface_name
  position ← position += serialize_int64 buffer position value.speed
  position ← position += serialize_double buffer position value.tx_bytes_per_second
  position ← position += serialize_double buffer position value.tx_carrier_per_second
  position ← position += serialize_double buffer position value.tx_collisions_per_second
  position ← position += serialize_double buffer position value.tx_dropped_per_second
  position ← position += serialize_double buffer position value.tx_errors_per_second
  position ← position += serialize_double buffer position value.tx_overruns_per_second
  position ← position += serialize_double buffer position value.tx_packets_per_second
  position ← position += serialize_double buffer position value.rx_bytes_per_second
  position ← position += serialize_double buffer position value.rx_dropped_per_second
  position ← position += serialize_double buffer position value.rx_errors_per_second
  position ← position += serialize_double buffer position value.rx_frame_per_second
  position ← position += serialize_double buffer position value.rx_overruns_per_second
  position ← position += serialize_double buffer position value.rx_packets_per_second
  pure position

abbrev pub network_utilization_record_fields : NetworkUtilizationRecord → List Field
network_utilization_record_fields value =
    int64 value.timestamp
    ∷ text value.hostname
    ∷ text value.interface_name
    ∷ int64 value.speed
    ∷ double value.tx_bytes_per_second
    ∷ double value.tx_carrier_per_second
    ∷ double value.tx_collisions_per_second
    ∷ double value.tx_dropped_per_second
    ∷ double value.tx_errors_per_second
    ∷ double value.tx_overruns_per_second
    ∷ double value.tx_packets_per_second
    ∷ double value.rx_bytes_per_second
    ∷ double value.rx_dropped_per_second
    ∷ double value.rx_errors_per_second
    ∷ double value.rx_frame_per_second
    ∷ double value.rx_overruns_per_second
    ∷ double value.rx_packets_per_second
    ∷ []

pub network_utilization_record_serialize-fields :
    (buffer : Ptr) (offset : ℕ) (value : NetworkUtilizationRecord)
    → network_utilization_record_serialize buffer offset value
      ≡ serialize_fields buffer offset (network_utilization_record_fields value)
unfolding network_utilization_record_serialize serialize_fields
network_utilization_record_serialize-fields buffer offset value = refl

pub record ResourceUtilizationRecord : Type 0 where
  pub timestamp : ℕ
  pub hostname : CString
  pub resource_name : CString
  pub utilization : ℕ

unfoldable pub resource_utilization_record_serialize : Ptr → ℕ → ResourceUtilizationRecord → Exec ℕ
resource_utilization_record_serialize buffer offset value = do
  let position = offset
  position ← position += serialize_int64 buffer position value.timestamp
  position ← position += serialize_string buffer position value.hostname
  position ← position += serialize_string buffer position value.resource_name
  position ← position += serialize_double buffer position value.utilization
  pure position

abbrev pub resource_utilization_record_fields : ResourceUtilizationRecord → List Field
resource_utilization_record_fields value =
    int64 value.timestamp
    ∷ text value.hostname
    ∷ text value.resource_name
    ∷ double value.utilization
    ∷ []

pub resource_utilization_record_serialize-fields :
    (buffer : Ptr) (offset : ℕ) (value : ResourceUtilizationRecord)
    → resource_utilization_record_serialize buffer offset value
      ≡ serialize_fields buffer offset (resource_utilization_record_fields value)
unfolding resource_utilization_record_serialize serialize_fields
resource_utilization_record_serialize-fields buffer offset value = refl
