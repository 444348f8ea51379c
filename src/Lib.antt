-- ===== src/Lib.antt =====
-- The C part of Kieker, source/libkieker: probes of a monitored program write records about its
-- calls into a buffer, the controller sends the buffer to a collector, and the strings in the
-- records are sent once and then stand as numbers.
--
-- The parts and their modules (paths from source/libkieker):
-- - Numbers, Serialize: common/utilities/kieker_serialize.c, one function for each
--   `kieker_serialize_*`. They write into a block of memory at an offset and return the size of
--   the value. Numbers go out in network order; a `double` is converted to an integer.
-- - Records.*: common/record, the struct and the serializer of each of the 62 record types. Each
--   returns the position behind the record. Records has the sum of all of them. Fields is the
--   layout of a record, a list of typed fields, with its serializer, its encoding and the reader
--   of it.
-- - Lookup: monitoring/controller/kieker_lookup.c, the growing array of strings, the search in
--   it, the announcement of a new string and the reading of the array from a file. Registry is
--   the abstract table, a list of strings whose positions are the numbers.
-- - Controller: the part of monitoring/controller/kieker_controller.c that sends the two
--   buffers, for records and for strings, and the accessors.
-- - Io: monitoring/controller/kieker_io.c, the opening of sockets, given the results of the
--   calls of the system.
-- - Setup: the rest of kieker_controller.c, from the environment to the registration of the
--   event types.
-- - Trace: monitoring/controller/kieker_trace.c, the trace object of each thread.
-- - ProbeEvents, ProbePlain: monitoring/probes/kieker_probe_events.c and kieker_probe_plain.c,
--   the messages of a probe and the probes themselves. ProbePlain/Log, Balanced, Session and
--   Root are about whole traces, programs that call functions between two probes.
-- - Threads: what holds of the trace table and the buffers while several threads call the
--   probes.
-- - Strings, Adaptive: monitoring/utilities/kieker_string.c, and
--   monitoring/controller/kieker_adaptive_monitoring.c, the file of classes and the search in
--   it, with `qsort` and `bsearch` as parameters.
-- - ProbeAspect, ProbeControlflow: monitoring/probes/aspect/event_trace.c and controlflow.c.
-- - GccProfiling: monitoring/probes/kieker_probe_gcc_profiling.c, and the names of functions in
--   kieker_controller.c; the dynamic linker is a parameter.
-- - BasicExample: the program ../examples/basic-example/basic.c.
-- - Collector: the reader at the other end of the connection, as the specification of the stream
--   of bytes: it reads announcements of strings and records, whose types it knows by name. Each
--   round reads one message.
-- - Effect: what a run does, seen from outside: the table represents a registry, the buffers are
--   there, a number of `write` calls are made and nothing else has changed.
-- - Word, State, Exec, Common: machine words and byte orders, the global variables and the heap
--   as one record, and the monad of code that changes it. Examples has concrete runs.
--
-- A plain probe asks Trace for the trace of its thread, ProbeEvents builds the message with the
-- serializers of Records, these ask Lookup for the numbers of strings, Lookup announces a new
-- string through the controller's string buffer, and at the end the controller sends the
-- message.
--
-- The heap is a map from addresses to blocks of bytes and to trace objects. An access outside of a
-- block, or at an address where nothing is, has no result, and stands for undefined behaviour.
-- Bytes are numbers below 256; words are numbers with their wrap-around written out. A signed word
-- is the number of its two's complement, so that the `int` -1 is 2^32 - 1 and the `long long` -1
-- is 2^64 - 1. Raising or lowering a signed counter wraps around, where C leaves the overflow
-- open; Threads/Bounds is about how far the counters get. The `int` that counts through the table
-- of strings and the one that counts the lines of a file are not cut to 32 bits, so that what is
-- said of the table is of the code only below 2^31 strings. The machine has the little end first.
-- The n-th call of `write` sends everything or fails with an error, which the state says for each
-- n, and the calls are logged with their bytes; the n-th reading of the clock is in the state,
-- too. `malloc` succeeds.
--
-- The loop over the table counts its rounds as the source does. The only other loop with a
-- number of rounds is that of `kieker_lookup_create`, which takes the number of bytes of the
-- file: each round reads one byte at least. Strings are lists of bytes without the byte 0.
--
-- uthash is a parameter, a record of the three operations that the code uses with their
-- documented laws. The calls of the probes by several threads are sequences of whole calls, and
-- Threads/Race has two calls that overlap; the state has whether the lock around the trace table
-- has been made and not been destroyed, but not who holds it. Messages on the error stream are
-- left out. The calls of the system in the set-up are parameters, records of their results.
-- Not modelled: the macros that print errors, the aspects of AspectC++ and the programs that
-- they or the compiler instrument.
pub mod Common
pub mod Word
pub mod State
pub mod Exec
pub mod Numbers
pub mod Controller
pub mod Registry
pub mod Effect
pub mod Lookup
pub mod Serialize
pub mod Fields
pub mod Records
pub mod Trace
pub mod ProbeEvents
pub mod ProbePlain
pub mod ProbeAspect
pub mod Threads
pub mod ProbeControlflow
pub mod GccProfiling
pub mod Collector
pub mod BasicExample
pub mod Io
pub mod Strings
pub mod Adaptive
pub mod Setup
pub mod Examples
