-- ===== src/Examples.antt =====
-- The theorems at concrete states: a library that has just been set up on a host named "node", with
-- a send buffer at address 1 and a string buffer at address 2.
mod Start
mod Aspect
mod Values
mod Classes
mod Collected
mod Threads
mod Session
mod Sending
use kieker_lang_pack_c.Common.{
  ℕ, List, [], ◌∷◌, Option, none, some, ◌≡◌, refl, arith, true, if◌then◌else◌, ◌==◌, replicate,
  length, length-replicate, splice,
}
use kieker_lang_pack_c.Word.{CString, chars, minus_one, str_eq}
use kieker_lang_pack_c.State.{Ptr, State, KiekerTrace, unconfigured}
use kieker_lang_pack_c.Exec.Returns.{Runs}
use kieker_lang_pack_c.Registry.{number_of, register}
use kieker_lang_pack_c.Effect.{Ready, Wrote, with_trace}
use kieker_lang_pack_c.Fields.{encode, register_fields, serialize_fields}
use kieker_lang_pack_c.Controller.{send_string}
use kieker_lang_pack_c.Controller.Announce.{announcement}
use kieker_lang_pack_c.Controller.Effects.{send_string-Wrote, send_string_overflow}
use kieker_lang_pack_c.Lookup.{find_key_by_string}
use kieker_lang_pack_c.Lookup.Keys.{find_key_by_string-Wrote, announcements}
use kieker_lang_pack_c.Records.{Record, gc_record, serialize, fields}
use kieker_lang_pack_c.Records.Wire.{Readable, serialize_roundtrip, serialize_overflow}
use kieker_lang_pack_c.Trace.{Table, UtHash}
use kieker_lang_pack_c.Trace.Laws.{removed}
use kieker_lang_pack_c.ProbeEvents.Message.{time_at}
use kieker_lang_pack_c.ProbeEvents.Events.{after_message}
use kieker_lang_pack_c.ProbePlain.{left, after_operation_event}
use kieker_lang_pack_c.ProbePlain.Probes.{after_operation_event_known}
use kieker_lang_pack_c.ProbePlain.Sending.{Probing, sent}

-- A table of uthash as a list that is searched from the front.
find : Table → ℕ → Option Ptr
find [] k = none
find ((j, p) ∷ t) k = if j == k then some p else find t k

del : Table → ℕ → Ptr → Table
del [] k p = []
del ((j, q) ∷ t) k p = let rest = del t k p in if j == k then rest else (j, q) ∷ rest

find-nil_lem : (j : ℕ) → find [] j ≡ none
unfolding find
find-nil_lem j = refl

find-add_lem :
    (t : Table) (k : ℕ) (p : Ptr) (j : ℕ)
    → find t k ≡ none
    → find ((k, p) ∷ t) j ≡ (if k == j then some p else find t j)
unfolding find
find-add_lem t k p j h = refl

find-without :
    (t : Table) (k : ℕ) (p : Ptr) (j : ℕ) → find (del t k p) j ≡ (if k == j then none else find t j)
unfolding find del
find-without [] k p j = ground arith
find-without ((i, q) ∷ t) k p j = ground (arith, find-without t k p j)

find-del_lem :
    (t : Table) (k : ℕ) (p : Ptr) (j : ℕ)
    → find t k ≡ some p
    → find (del t k p) j ≡ (if k == j then none else find t j)
find-del_lem t k p j h = find-without t k p j

abbrev uthash : UtHash
uthash = record {
  find = find;
  add = λ t k p. (k, p) ∷ t;
  del = del;
  find-nil = find-nil_lem;
  find-add = find-add_lem;
  find-del = find-del_lem;
}

abbrev zeros : ℕ → List ℕ
zeros n = replicate n 0

abbrev node : CString
node = chars "node"

abbrev start : State
start = record {
  heap = record {
    blocks = λ q. if q == 1 then some (zeros 8192) else if q == 2 then some (zeros 8192) else none;
    traces = λ q. none;
    next = 3;
  };
  controller = record {
    socket = 5;
    offset = 0;
    error = 0;
    init_state = unconfigured;
    buffer = 1;
    string_buffer = 2;
    local_hostname = some node;
    remote_hostname = some (chars "localhost");
    remote_port = 5678;
    event_types_filename = none;
  };
  lookup = record { string_list = []; table_max = 0; table_top = 0 };
  trace = record { traces = []; current_id = 256; lock = true };
  world = record {
    time_of_day = λ n. record { tv_sec = n; tv_usec = 7 };
    clock_reads = 0;
    write_errno = λ n. if n == 1 then some 32 else none;
    writes = [];
    closed = [];
  };
}

abbrev buffer_size : length (zeros 8192) ≡ 8192
buffer_size = length-replicate {A = ℕ} 8192 0

start-Ready : Ready [] start
start-Ready = record {
  table = record { slack = []; slots = refl; top = refl; limit = refl };
  string_block = zeros 8192;
  string_holds = refl;
  string_room = buffer_size;
}

start-Probing : Probing [] (zeros 8192) start
start-Probing = record {
  ready = start-Ready;
  holds = refl;
  room = buffer_size;
  apart = omega arith;
  buffer_old = omega arith;
  string_buffer_old = omega arith;
}

abbrev main_signature : CString
main_signature = chars "main"

abbrev pkg : CString
pkg = chars "<package structure>"

-- On the thread 7, in the first call of `main`.
abbrev main_trace : KiekerTrace
main_trace = record { trace_id = 256; order_index = 0; stack = 1; buffer = 4; thread_id = 7 }

abbrev in_main : State
in_main = record start {
  heap = record {
    blocks = λ q. if q == 4 then some (zeros 1024) else start.heap.blocks q;
    traces = λ q. if q == 3 then some main_trace else none;
    next = 5;
  };
  trace = record { traces = (7, 3) ∷ []; current_id = 257; lock = true };
}

in_main-Probing : Probing [] (zeros 8192) in_main
in_main-Probing = record {
  ready = record {
    table = record { slack = []; slots = refl; top = refl; limit = refl };
    string_block = zeros 8192;
    string_holds = refl;
    string_room = buffer_size;
  };
  holds = refl;
  room = buffer_size;
  apart = omega arith;
  buffer_old = omega arith;
  string_buffer_old = omega arith;
}

after_operation_event_known_example :
    let fs =
      after_message (time_at in_main 0) (time_at in_main 1) (left main_trace) pkg main_signature in
    Runs (after_operation_event uthash 7 pkg main_signature) in_main tt (λ s'.
      (u : State) × Wrote 1
        (splice (zeros 8192) 0 (encode [] fs))
        (register_fields [] fs)
        (sent 5 [] fs)
        2
        (with_trace 3 (left main_trace) in_main)
        u
      × (s' ≡ (if (left main_trace).stack == 0 then removed uthash 3 (left main_trace) u else u)))
unfolding find
after_operation_event_known_example =
    after_operation_event_known uthash 7 in_main-Probing pkg main_signature (omega arith)
      (omega arith) {p = 3} {t = main_trace} refl refl (zeros 1024) refl (omega arith) (omega arith)

-- A record of the garbage collector, written at offset 100.
abbrev gc : Record
gc = gc_record (record {
  timestamp = 1;
  hostname = node;
  vm_name = chars "vm";
  gc_name = node;
  collection_count = minus_one;
  collection_time_ms = 20;
})

serialize_roundtrip_example :
    Runs (serialize 1 100 gc) start 136 (Readable 1 (zeros 8192) 100 [] (fields gc))
unfolding fields register str_eq
serialize_roundtrip_example =
    serialize_roundtrip gc 100 start-Ready refl (omega arith) (omega arith)
      (omega (arith, buffer_size)) (omega arith)

serialize_overflow_example : serialize 1 8160 gc start ≡ none
unfolding fields
serialize_overflow_example =
    serialize_overflow gc 8160 start-Ready refl (omega arith) (omega arith)
      (omega (arith, buffer_size)) (omega (arith, buffer_size))

send_string-Wrote_example : Runs (send_string node 3) start tt (λ s'.
    Wrote 1 (zeros 8192) [] (announcement 5 3 node ∷ []) 0 start s' × (s'.lookup ≡ start.lookup))
send_string-Wrote_example = send_string-Wrote node 3 start-Ready refl (omega arith) (omega arith)

send_string_overflow_example : send_string (zeros 8181) 3 start ≡ none
send_string_overflow_example =
    send_string_overflow (zeros 8181) 3 start-Ready (omega (arith, length-replicate {A = ℕ} 8181 0))

find_key_by_string-Wrote_example :
    Runs
      (find_key_by_string node)
      start
      0
      (Wrote 1 (zeros 8192) (node ∷ []) (announcement 5 0 node ∷ []) 0 start)
unfolding number_of register announcements
find_key_by_string-Wrote_example =
    find_key_by_string-Wrote node start-Ready refl (omega arith) (omega arith)
