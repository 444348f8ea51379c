-- ===== src/Records.antt =====
-- All the records of libkieker/common/record: a record of any type, its serializer and its layout.
pub mod Controlflow
pub mod Database
pub mod Thread
pub mod Trace
pub mod Concurrency
pub mod Monitor
pub mod Operation
pub mod OperationObject
pub mod Constructor
pub mod ConstructorObject
pub mod Jvm
pub mod Misc
pub mod Remotecontrol
pub mod System
pub mod Wire
use kieker_lang_pack_c.Common.{ℕ, List, ◌≡◌}
use kieker_lang_pack_c.State.{Ptr}
use kieker_lang_pack_c.Exec.{Exec}
use kieker_lang_pack_c.Fields.{Field, serialize_fields}
use Controlflow.{
  BranchingRecord, branching_record_serialize, branching_record_fields,
  branching_record_serialize-fields, OperationExecutionRecord, operation_execution_record_serialize,
  operation_execution_record_fields, operation_execution_record_serialize-fields,
}
use Database.{
  AfterDatabaseEvent, after_database_event_serialize, after_database_event_fields,
  after_database_event_serialize-fields, BeforeDatabaseEvent, before_database_event_serialize,
  before_database_event_fields, before_database_event_serialize-fields, DatabaseFailedEvent,
  database_failed_event_serialize, database_failed_event_fields,
  database_failed_event_serialize-fields,
}
use Thread.{
  AfterFailedThreadBasedEvent, after_failed_thread_based_event_serialize,
  after_failed_thread_based_event_fields, after_failed_thread_based_event_serialize-fields,
  AfterThreadBasedEvent, after_thread_based_event_serialize, after_thread_based_event_fields,
  after_thread_based_event_serialize-fields, BeforeThreadBasedEvent,
  before_thread_based_event_serialize, before_thread_based_event_fields,
  before_thread_based_event_serialize-fields,
}
use Trace.{
  ApplicationTraceMetadata, application_trace_metadata_serialize, application_trace_metadata_fields,
  application_trace_metadata_serialize-fields, BeforeReceivedRemoteEvent,
  before_received_remote_event_serialize, before_received_remote_event_fields,
  before_received_remote_event_serialize-fields, BeforeSentRemoteEvent,
  before_sent_remote_event_serialize, before_sent_remote_event_fields,
  before_sent_remote_event_serialize-fields, ConstructionEvent, construction_event_serialize,
  construction_event_fields, construction_event_serialize-fields, TraceMetadata,
  trace_metadata_serialize, trace_metadata_fields, trace_metadata_serialize-fields,
}
use Concurrency.{
  JoinEvent, join_event_serialize, join_event_fields, join_event_serialize-fields, SplitEvent,
  split_event_serialize, split_event_fields, split_event_serialize-fields,
}
use Monitor.{
  MonitorEntryEvent, monitor_entry_event_serialize, monitor_entry_event_fields,
  monitor_entry_event_serialize-fields, MonitorExitEvent, monitor_exit_event_serialize,
  monitor_exit_event_fields, monitor_exit_event_serialize-fields, MonitorNotifyAllEvent,
  monitor_notify_all_event_serialize, monitor_notify_all_event_fields,
  monitor_notify_all_event_serialize-fields, MonitorNotifyEvent, monitor_notify_event_serialize,
  monitor_notify_event_fields, monitor_notify_event_serialize-fields, MonitorRequestEvent,
  monitor_request_event_serialize, monitor_request_event_fields,
  monitor_request_event_serialize-fields, MonitorWaitEvent, monitor_wait_event_serialize,
  monitor_wait_event_fields, monitor_wait_event_serialize-fields,
}
use Operation.{
  AfterOperationEvent, after_operation_event_serialize, after_operation_event_fields,
  after_operation_event_serialize-fields, AfterOperationFailedEvent,
  after_operation_failed_event_serialize, after_operation_failed_event_fields,
  after_operation_failed_event_serialize-fields, BeforeOperationEvent,
  before_operation_event_serialize, before_operation_event_fields,
  before_operation_event_serialize-fields, CallOperationEvent, call_operation_event_serialize,
  call_operation_event_fields, call_operation_event_serialize-fields,
}
use OperationObject.{
  AfterOperationFailedObjectEvent, after_operation_failed_object_event_serialize,
  after_operation_failed_object_event_fields, after_operation_failed_object_event_serialize-fields,
  AfterOperationObjectEvent, after_operation_object_event_serialize,
  after_operation_object_event_fields, after_operation_object_event_serialize-fields,
  BeforeOperationObjectEvent, before_operation_object_event_serialize,
  before_operation_object_event_fields, before_operation_object_event_serialize-fields,
  BeforeOperationObjectInterfaceEvent, before_operation_object_interface_event_serialize,
  before_operation_object_interface_event_fields,
  before_operation_object_interface_event_serialize-fields, CallOperationObjectEvent,
  call_operation_object_event_serialize, call_operation_object_event_fields,
  call_operation_object_event_serialize-fields,
}
use Constructor.{
  AfterConstructorEvent, after_constructor_event_serialize, after_constructor_event_fields,
  after_constructor_event_serialize-fields, AfterConstructorFailedEvent,
  after_constructor_failed_event_serialize, after_constructor_failed_event_fields,
  after_constructor_failed_event_serialize-fields, BeforeConstructorEvent,
  before_constructor_event_serialize, before_constructor_event_fields,
  before_constructor_event_serialize-fields, CallConstructorEvent, call_constructor_event_serialize,
  call_constructor_event_fields, call_constructor_event_serialize-fields,
}
use ConstructorObject.{
  AfterConstructorFailedObjectEvent, after_constructor_failed_object_event_serialize,
  after_constructor_failed_object_event_fields,
  after_constructor_failed_object_event_serialize-fields, AfterConstructorObjectEvent,
  after_constructor_object_event_serialize, after_constructor_object_event_fields,
  after_constructor_object_event_serialize-fields, BeforeConstructorObjectEvent,
  before_constructor_object_event_serialize, before_constructor_object_event_fields,
  before_constructor_object_event_serialize-fields, BeforeConstructorObjectInterfaceEvent,
  before_constructor_object_interface_event_serialize,
  before_constructor_object_interface_event_fields,
  before_constructor_object_interface_event_serialize-fields, CallConstructorObjectEvent,
  call_constructor_object_event_serialize, call_constructor_object_event_fields,
  call_constructor_object_event_serialize-fields,
}
use Jvm.{
  ClassLoadingRecord, class_loading_record_serialize, class_loading_record_fields,
  class_loading_record_serialize-fields, CompilationRecord, compilation_record_serialize,
  compilation_record_fields, compilation_record_serialize-fields, GcRecord, gc_record_serialize,
  gc_record_fields, gc_record_serialize-fields, MemoryRecord, memory_record_serialize,
  memory_record_fields, memory_record_serialize-fields, ThreadsStatusRecord,
  threads_status_record_serialize, threads_status_record_fields,
  threads_status_record_serialize-fields, UptimeRecord, uptime_record_serialize,
  uptime_record_fields, uptime_record_serialize-fields,
}
use Misc.{
  EmptyRecord, empty_record_serialize, empty_record_fields, empty_record_serialize-fields,
  HostApplicationMetaData, host_application_meta_data_serialize, host_application_meta_data_fields,
  host_application_meta_data_serialize-fields, KiekerMetadataRecord,
  kieker_metadata_record_serialize, kieker_metadata_record_fields,
  kieker_metadata_record_serialize-fields, ThreadMetaData, thread_meta_data_serialize,
  thread_meta_data_fields, thread_meta_data_serialize-fields, TimestampRecord,
  timestamp_record_serialize, timestamp_record_fields, timestamp_record_serialize-fields,
}
use Remotecontrol.{
  ActivationEvent, activation_event_serialize, activation_event_fields,
  activation_event_serialize-fields, ActivationParameterEvent, activation_parameter_event_serialize,
  activation_parameter_event_fields, activation_parameter_event_serialize-fields,
  AddParameterValueEvent, add_parameter_value_event_serialize, add_parameter_value_event_fields,
  add_parameter_value_event_serialize-fields, DeactivationEvent, deactivation_event_serialize,
  deactivation_event_fields, deactivation_event_serialize-fields, RemoveParameterValueEvent,
  remove_parameter_value_event_serialize, remove_parameter_value_event_fields,
  remove_parameter_value_event_serialize-fields, UpdateParameterEvent,
  update_parameter_event_serialize, update_parameter_event_fields,
  update_parameter_event_serialize-fields,
}
use System.{
  CpuUtilizationRecord, cpu_utilization_record_serialize, cpu_utilization_record_fields,
  cpu_utilization_record_serialize-fields, DiskUsageRecord, disk_usage_record_serialize,
  disk_usage_record_fields, disk_usage_record_serialize-fields, LoadAverageRecord,
  load_average_record_serialize, load_average_record_fields, load_average_record_serialize-fields,
  MemSwapUsageRecord, mem_swap_usage_record_serialize, mem_swap_usage_record_fields,
  mem_swap_usage_record_serialize-fields, NetworkUtilizationRecord,
  network_utilization_record_serialize, network_utilization_record_fields,
  network_utilization_record_serialize-fields, ResourceUtilizationRecord,
  resource_utilization_record_serialize, resource_utilization_record_fields,
  resource_utilization_record_serialize-fields,
}

pub data Record : Type 0 where
  branching_record : BranchingRecord → Record
  operation_execution_record : OperationExecutionRecord → Record
  after_database_event : AfterDatabaseEvent → Record
  before_database_event : BeforeDatabaseEvent → Record
  database_failed_event : DatabaseFailedEvent → Record
  after_failed_thread_based_event : AfterFailedThreadBasedEvent → Record
  after_thread_based_event : AfterThreadBasedEvent → Record
  before_thread_based_event : BeforeThreadBasedEvent → Record
  application_trace_metadata : ApplicationTraceMetadata → Record
  before_received_remote_event : BeforeReceivedRemoteEvent → Record
  before_sent_remote_event : BeforeSentRemoteEvent → Record
  construction_event : ConstructionEvent → Record
  trace_metadata : TraceMetadata → Record
  join_event : JoinEvent → Record
  split_event : SplitEvent → Record
  monitor_entry_event : MonitorEntryEvent → Record
  monitor_exit_event : MonitorExitEvent → Record
  monitor_notify_all_event : MonitorNotifyAllEvent → Record
  monitor_notify_event : MonitorNotifyEvent → Record
  monitor_request_event : MonitorRequestEvent → Record
  monitor_wait_event : MonitorWaitEvent → Record
  after_operation_event : AfterOperationEvent → Record
  after_operation_failed_event : AfterOperationFailedEvent → Record
  before_operation_event : BeforeOperationEvent → Record
  call_operation_event : CallOperationEvent → Record
  after_operation_failed_object_event : AfterOperationFailedObjectEvent → Record
  after_operation_object_event : AfterOperationObjectEvent → Record
  before_operation_object_event : BeforeOperationObjectEvent → Record
  before_operation_object_interface_event : BeforeOperationObjectInterfaceEvent → Record
  call_operation_object_event : CallOperationObjectEvent → Record
  after_constructor_event : AfterConstructorEvent → Record
  after_constructor_failed_event : AfterConstructorFailedEvent → Record
  before_constructor_event : BeforeConstructorEvent → Record
  call_constructor_event : CallConstructorEvent → Record
  after_constructor_failed_object_event : AfterConstructorFailedObjectEvent → Record
  after_constructor_object_event : AfterConstructorObjectEvent → Record
  before_constructor_object_event : BeforeConstructorObjectEvent → Record
  before_constructor_object_interface_event : BeforeConstructorObjectInterfaceEvent → Record
  call_constructor_object_event : CallConstructorObjectEvent → Record
  class_loading_record : ClassLoadingRecord → Record
  compilation_record : CompilationRecord → Record
  gc_record : GcRecord → Record
  memory_record : MemoryRecord → Record
  threads_status_record : ThreadsStatusRecord → Record
  uptime_record : UptimeRecord → Record
  empty_record : EmptyRecord → Record
  host_application_meta_data : HostApplicationMetaData → Record
  kieker_metadata_record : KiekerMetadataRecord → Record
  thread_meta_data : ThreadMetaData → Record
  timestamp_record : TimestampRecord → Record
  activation_event : ActivationEvent → Record
  activation_parameter_event : ActivationParameterEvent → Record
  add_parameter_value_event : AddParameterValueEvent → Record
  deactivation_event : DeactivationEvent → Record
  remove_parameter_value_event : RemoveParameterValueEvent → Record
  update_parameter_event : UpdateParameterEvent → Record
  cpu_utilization_record : CpuUtilizationRecord → Record
  disk_usage_record : DiskUsageRecord → Record
  load_average_record : LoadAverageRecord → Record
  mem_swap_usage_record : MemSwapUsageRecord → Record
  network_utilization_record : NetworkUtilizationRecord → Record
  resource_utilization_record : ResourceUtilizationRecord → Record

-- The serializer of the type of the record.
unfoldable pub serialize : Ptr → ℕ → Record → Exec ℕ
serialize buffer offset (branching_record value) = branching_record_serialize buffer offset value
serialize buffer offset (operation_execution_record value) =
    operation_execution_record_serialize buffer offset value
serialize buffer offset (after_database_event value) =
    after_database_event_serialize buffer offset value
serialize buffer offset (before_database_event value) =
    before_database_event_serialize buffer offset value
serialize buffer offset (database_failed_event value) =
    database_failed_event_serialize buffer offset value
serialize buffer offset (after_failed_thread_based_event value) =
    after_failed_thread_based_event_serialize buffer offset value
serialize buffer offset (after_thread_based_event value) =
    after_thread_based_event_serialize buffer offset value
serialize buffer offset (before_thread_based_event value) =
    before_thread_based_event_serialize buffer offset value
serialize buffer offset (application_trace_metadata value) =
    application_trace_metadata_serialize buffer offset value
serialize buffer offset (before_received_remote_event value) =
    before_received_remote_event_serialize buffer offset value
serialize buffer offset (before_sent_remote_event value) =
    before_sent_remote_event_serialize buffer offset value
serialize buffer offset (construction_event value) =
    construction_event_serialize buffer offset value
serialize buffer offset (trace_metadata value) = trace_metadata_serialize buffer offset value
serialize buffer offset (join_event value) = join_event_serialize buffer offset value
serialize buffer offset (split_event value) = split_event_serialize buffer offset value
serialize buffer offset (monitor_entry_event value) =
    monitor_entry_event_serialize buffer offset value
serialize buffer offset (monitor_exit_event value) =
    monitor_exit_event_serialize buffer offset value
serialize buffer offset (monitor_notify_all_event value) =
    monitor_notify_all_event_serialize buffer offset value
serialize buffer offset (monitor_notify_event value) =
    monitor_notify_event_serialize buffer offset value
serialize buffer offset (monitor_request_event value) =
    monitor_request_event_serialize buffer offset value
serialize buffer offset (monitor_wait_event value) =
    monitor_wait_event_serialize buffer offset value
serialize buffer offset (after_operation_event value) =
    after_operation_event_serialize buffer offset value
serialize buffer offset (after_operation_failed_event value) =
    after_operation_failed_event_serialize buffer offset value
serialize buffer offset (before_operation_event value) =
    before_operation_event_serialize buffer offset value
serialize buffer offset (call_operation_event value) =
    call_operation_event_serialize buffer offset value
serialize buffer offset (after_operation_failed_object_event value) =
    after_operation_failed_object_event_serialize buffer offset value
serialize buffer offset (after_operation_object_event value) =
    after_operation_object_event_serialize buffer offset value
serialize buffer offset (before_operation_object_event value) =
    before_operation_object_event_serialize buffer offset value
serialize buffer offset (before_operation_object_interface_event value) =
    before_operation_object_interface_event_serialize buffer offset value
serialize buffer offset (call_operation_object_event value) =
    call_operation_object_event_serialize buffer offset value
serialize buffer offset (after_constructor_event value) =
    after_constructor_event_serialize buffer offset value
serialize buffer offset (after_constructor_failed_event value) =
    after_constructor_failed_event_serialize buffer offset value
serialize buffer offset (before_constructor_event value) =
    before_constructor_event_serialize buffer offset value
serialize buffer offset (call_constructor_event value) =
    call_constructor_event_serialize buffer offset value
serialize buffer offset (after_constructor_failed_object_event value) =
    after_constructor_failed_object_event_serialize buffer offset value
serialize buffer offset (after_constructor_object_event value) =
    after_constructor_object_event_serialize buffer offset value
serialize buffer offset (before_constructor_object_event value) =
    before_constructor_object_event_serialize buffer offset value
serialize buffer offset (before_constructor_object_interface_event value) =
    before_constructor_object_interface_event_serialize buffer offset value
serialize buffer offset (call_constructor_object_event value) =
    call_constructor_object_event_serialize buffer offset value
serialize buffer offset (class_loading_record value) =
    class_loading_record_serialize buffer offset value
serialize buffer offset (compilation_record value) =
    compilation_record_serialize buffer offset value
serialize buffer offset (gc_record value) = gc_record_serialize buffer offset value
serialize buffer offset (memory_record value) = memory_record_serialize buffer offset value
serialize buffer offset (threads_status_record value) =
    threads_status_record_serialize buffer offset value
serialize buffer offset (uptime_record value) = uptime_record_serialize buffer offset value
serialize buffer offset (empty_record value) = empty_record_serialize buffer offset value
serialize buffer offset (host_application_meta_data value) =
    host_application_meta_data_serialize buffer offset value
serialize buffer offset (kieker_metadata_record value) =
    kieker_metadata_record_serialize buffer offset value
serialize buffer offset (thread_meta_data value) = thread_meta_data_serialize buffer offset value
serialize buffer offset (timestamp_record value) = timestamp_record_serialize buffer offset value
serialize buffer offset (activation_event value) = activation_event_serialize buffer offset value
serialize buffer offset (activation_parameter_event value) =
    activation_parameter_event_serialize buffer offset value
serialize buffer offset (add_parameter_value_event value) =
    add_parameter_value_event_serialize buffer offset value
serialize buffer offset (deactivation_event value) =
    deactivation_event_serialize buffer offset value
serialize buffer offset (remove_parameter_value_event value) =
    remove_parameter_value_event_serialize buffer offset value
serialize buffer offset (update_parameter_event value) =
    update_parameter_event_serialize buffer offset value
serialize buffer offset (cpu_utilization_record value) =
    cpu_utilization_record_serialize buffer offset value
serialize buffer offset (disk_usage_record value) = disk_usage_record_serialize buffer offset value
serialize buffer offset (load_average_record value) =
    load_average_record_serialize buffer offset value
serialize buffer offset (mem_swap_usage_record value) =
    mem_swap_usage_record_serialize buffer offset value
serialize buffer offset (network_utilization_record value) =
    network_utilization_record_serialize buffer offset value
serialize buffer offset (resource_utilization_record value) =
    resource_utilization_record_serialize buffer offset value

-- The fields that the struct of the type declares.
unfoldable pub fields : Record → List Field
fields (branching_record value) = branching_record_fields value
fields (operation_execution_record value) = operation_execution_record_fields value
fields (after_database_event value) = after_database_event_fields value
fields (before_database_event value) = before_database_event_fields value
fields (database_failed_event value) = database_failed_event_fields value
fields (after_failed_thread_based_event value) = after_failed_thread_based_event_fields value
fields (after_thread_based_event value) = after_thread_based_event_fields value
fields (before_thread_based_event value) = before_thread_based_event_fields value
fields (application_trace_metadata value) = application_trace_metadata_fields value
fields (before_received_remote_event value) = before_received_remote_event_fields value
fields (before_sent_remote_event value) = before_sent_remote_event_fields value
fields (construction_event value) = construction_event_fields value
fields (trace_metadata value) = trace_metadata_fields value
fields (join_event value) = join_event_fields value
fields (split_event value) = split_event_fields value
fields (monitor_entry_event value) = monitor_entry_event_fields value
fields (monitor_exit_event value) = monitor_exit_event_fields value
fields (monitor_notify_all_event value) = monitor_notify_all_event_fields value
fields (monitor_notify_event value) = monitor_notify_event_fields value
fields (monitor_request_event value) = monitor_request_event_fields value
fields (monitor_wait_event value) = monitor_wait_event_fields value
fields (after_operation_event value) = after_operation_event_fields value
fields (after_operation_failed_event value) = after_operation_failed_event_fields value
fields (before_operation_event value) = before_operation_event_fields value
fields (call_operation_event value) = call_operation_event_fields value
fields (after_operation_failed_object_event value) =
    after_operation_failed_object_event_fields value
fields (after_operation_object_event value) = after_operation_object_event_fields value
fields (before_operation_object_event value) = before_operation_object_event_fields value
fields (before_operation_object_interface_event value) =
    before_operation_object_interface_event_fields value
fields (call_operation_object_event value) = call_operation_object_event_fields value
fields (after_constructor_event value) = after_constructor_event_fields value
fields (after_constructor_failed_event value) = after_constructor_failed_event_fields value
fields (before_constructor_event value) = before_constructor_event_fields value
fields (call_constructor_event value) = call_constructor_event_fields value
fields (after_constructor_failed_object_event value) =
    after_constructor_failed_object_event_fields value
fields (after_constructor_object_event value) = after_constructor_object_event_fields value
fields (before_constructor_object_event value) = before_constructor_object_event_fields value
fields (before_constructor_object_interface_event value) =
    before_constructor_object_interface_event_fields value
fields (call_constructor_object_event value) = call_constructor_object_event_fields value
fields (class_loading_record value) = class_loading_record_fields value
fields (compilation_record value) = compilation_record_fields value
fields (gc_record value) = gc_record_fields value
fields (memory_record value) = memory_record_fields value
fields (threads_status_record value) = threads_status_record_fields value
fields (uptime_record value) = uptime_record_fields value
fields (empty_record value) = empty_record_fields value
fields (host_application_meta_data value) = host_application_meta_data_fields value
fields (kieker_metadata_record value) = kieker_metadata_record_fields value
fields (thread_meta_data value) = thread_meta_data_fields value
fields (timestamp_record value) = timestamp_record_fields value
fields (activation_event value) = activation_event_fields value
fields (activation_parameter_event value) = activation_parameter_event_fields value
fields (add_parameter_value_event value) = add_parameter_value_event_fields value
fields (deactivation_event value) = deactivation_event_fields value
fields (remove_parameter_value_event value) = remove_parameter_value_event_fields value
fields (update_parameter_event value) = update_parameter_event_fields value
fields (cpu_utilization_record value) = cpu_utilization_record_fields value
fields (disk_usage_record value) = disk_usage_record_fields value
fields (load_average_record value) = load_average_record_fields value
fields (mem_swap_usage_record value) = mem_swap_usage_record_fields value
fields (network_utilization_record value) = network_utilization_record_fields value
fields (resource_utilization_record value) = resource_utilization_record_fields value

-- The serializer of each of the 62 record types is the serialization one after another of the
-- fields that its struct declares, in the order of the struct, of which the two kinds of trace
-- metadata leave out the next order index.
pub serialize-fields :
    (buffer : Ptr) (offset : ℕ) (r : Record)
    → serialize buffer offset r ≡ serialize_fields buffer offset (fields r)
unfolding serialize fields
serialize-fields buffer offset (branching_record value) =
    branching_record_serialize-fields buffer offset value
serialize-fields buffer offset (operation_execution_record value) =
    operation_execution_record_serialize-fields buffer offset value
serialize-fields buffer offset (after_database_event value) =
    after_database_event_serialize-fields buffer offset value
serialize-fields buffer offset (before_database_event value) =
    before_database_event_serialize-fields buffer offset value
serialize-fields buffer offset (database_failed_event value) =
    database_failed_event_serialize-fields buffer offset value
serialize-fields buffer offset (after_failed_thread_based_event value) =
    after_failed_thread_based_event_serialize-fields buffer offset value
serialize-fields buffer offset (after_thread_based_event value) =
    after_thread_based_event_serialize-fields buffer offset value
serialize-fields buffer offset (before_thread_based_event value) =
    before_thread_based_event_serialize-fields buffer offset value
serialize-fields buffer offset (application_trace_metadata value) =
    application_trace_metadata_serialize-fields buffer offset value
serialize-fields buffer offset (before_received_remote_event value) =
    before_received_remote_event_serialize-fields buffer offset value
serialize-fields buffer offset (before_sent_remote_event value) =
    before_sent_remote_event_serialize-fields buffer offset value
serialize-fields buffer offset (construction_event value) =
    construction_event_serialize-fields buffer offset value
serialize-fields buffer offset (trace_metadata value) =
    trace_metadata_serialize-fields buffer offset value
serialize-fields buffer offset (join_event value) = join_event_serialize-fields buffer offset value
serialize-fields buffer offset (split_event value) =
    split_event_serialize-fields buffer offset value
serialize-fields buffer offset (monitor_entry_event value) =
    monitor_entry_event_serialize-fields buffer offset value
serialize-fields buffer offset (monitor_exit_event value) =
    monitor_exit_event_serialize-fields buffer offset value
serialize-fields buffer offset (monitor_notify_all_event value) =
    monitor_notify_all_event_serialize-fields buffer offset value
serialize-fields buffer offset (monitor_notify_event value) =
    monitor_notify_event_serialize-fields buffer offset value
serialize-fields buffer offset (monitor_request_event value) =
    monitor_request_event_serialize-fields buffer offset value
serialize-fields buffer offset (monitor_wait_event value) =
    monitor_wait_event_serialize-fields buffer offset value
serialize-fields buffer offset (after_operation_event value) =
    after_operation_event_serialize-fields buffer offset value
serialize-fields buffer offset (after_operation_failed_event value) =
    after_operation_failed_event_serialize-fields buffer offset value
serialize-fields buffer offset (before_operation_event value) =
    before_operation_event_serialize-fields buffer offset value
serialize-fields buffer offset (call_operation_event value) =
    call_operation_event_serialize-fields buffer offset value
serialize-fields buffer offset (after_operation_failed_object_event value) =
    after_operation_failed_object_event_serialize-fields buffer offset value
serialize-fields buffer offset (after_operation_object_event value) =
    after_operation_object_event_serialize-fields buffer offset value
serialize-fields buffer offset (before_operation_object_event value) =
    before_operation_object_event_serialize-fields buffer offset value
serialize-fields buffer offset (before_operation_object_interface_event value) =
    before_operation_object_interface_event_serialize-fields buffer offset value
serialize-fields buffer offset (call_operation_object_event value) =
    call_operation_object_event_serialize-fields buffer offset value
serialize-fields buffer offset (after_constructor_event value) =
    after_constructor_event_serialize-fields buffer offset value
serialize-fields buffer offset (after_constructor_failed_event value) =
    after_constructor_failed_event_serialize-fields buffer offset value
serialize-fields buffer offset (before_constructor_event value) =
    before_constructor_event_serialize-fields buffer offset value
serialize-fields buffer offset (call_constructor_event value) =
    call_constructor_event_serialize-fields buffer offset value
serialize-fields buffer offset (after_constructor_failed_object_event value) =
    after_constructor_failed_object_event_serialize-fields buffer offset value
serialize-fields buffer offset (after_constructor_object_event value) =
    after_constructor_object_event_serialize-fields buffer offset value
serialize-fields buffer offset (before_constructor_object_event value) =
    before_constructor_object_event_serialize-fields buffer offset value
serialize-fields buffer offset (before_constructor_object_interface_event value) =
    before_constructor_object_interface_event_serialize-fields buffer offset value
serialize-fields buffer offset (call_constructor_object_event value) =
    call_constructor_object_event_serialize-fields buffer offset value
serialize-fields buffer offset (class_loading_record value) =
    class_loading_record_serialize-fields buffer offset value
serialize-fields buffer offset (compilation_record value) =
    compilation_record_serialize-fields buffer offset value
serialize-fields buffer offset (gc_record value) = gc_record_serialize-fields buffer offset value
serialize-fields buffer offset (memory_record value) =
    memory_record_serialize-fields buffer offset value
serialize-fields buffer offset (threads_status_record value) =
    threads_status_record_serialize-fields buffer offset value
serialize-fields buffer offset (uptime_record value) =
    uptime_record_serialize-fields buffer offset value
serialize-fields buffer offset (empty_record value) =
    empty_record_serialize-fields buffer offset value
serialize-fields buffer offset (host_application_meta_data value) =
    host_application_meta_data_serialize-fields buffer offset value
serialize-fields buffer offset (kieker_metadata_record value) =
    kieker_metadata_record_serialize-fields buffer offset value
serialize-fields buffer offset (thread_meta_data value) =
    thread_meta_data_serialize-fields buffer offset value
serialize-fields buffer offset (timestamp_record value) =
    timestamp_record_serialize-fields buffer offset value
serialize-fields buffer offset (activation_event value) =
    activation_event_serialize-fields buffer offset value
serialize-fields buffer offset (activation_parameter_event value) =
    activation_parameter_event_serialize-fields buffer offset value
serialize-fields buffer offset (add_parameter_value_event value) =
    add_parameter_value_event_serialize-fields buffer offset value
serialize-fields buffer offset (deactivation_event value) =
    deactivation_event_serialize-fields buffer offset value
serialize-fields buffer offset (remove_parameter_value_event value) =
    remove_parameter_value_event_serialize-fields buffer offset value
serialize-fields buffer offset (update_parameter_event value) =
    update_parameter_event_serialize-fields buffer offset value
serialize-fields buffer offset (cpu_utilization_record value) =
    cpu_utilization_record_serialize-fields buffer offset value
serialize-fields buffer offset (disk_usage_record value) =
    disk_usage_record_serialize-fields buffer offset value
serialize-fields buffer offset (load_average_record value) =
    load_average_record_serialize-fields buffer offset value
serialize-fields buffer offset (mem_swap_usage_record value) =
    mem_swap_usage_record_serialize-fields buffer offset value
serialize-fields buffer offset (network_utilization_record value) =
    network_utilization_record_serialize-fields buffer offset value
serialize-fields buffer offset (resource_utilization_record value) =
    resource_utilization_record_serialize-fields buffer offset value
