-- ===== src/Collector/Process.antt =====
-- The whole process of the basic example: initialisation, the program, and what a collector that knows
-- no strings has read in the end.
use kieker_lang_pack_c.Common.{
  ℕ, suc, ◌+◌, ◌*◌, ◌≤◌, ◌%◌, ◌^◌, List, [], ◌∷◌, ◌++◌, length, map, Option, some, none, ◌≡◌, true,
  refl, arith, append_assoc, length-append, ◌∙◌, ap,
}
use kieker_lang_pack_c.Word.{CString, increment, decrement}
use kieker_lang_pack_c.Word.Bytes.{be_bytes}
use kieker_lang_pack_c.State.{State, KiekerTrace, Write, unconfigured}
use kieker_lang_pack_c.Exec.{◌>>=◌}
use kieker_lang_pack_c.Exec.Returns.{Runs}
use kieker_lang_pack_c.Registry.{Registry}
use kieker_lang_pack_c.Effect.{Represents, max_string}
use kieker_lang_pack_c.Fields.{Field, int32, text, register_fields}
use kieker_lang_pack_c.Fields.Known.{most_known}
use kieker_lang_pack_c.Trace.{UtHash}
use kieker_lang_pack_c.Io.{client_socket_open}
use kieker_lang_pack_c.ProbeEvents.Message.{time_at}
use kieker_lang_pack_c.ProbePlain.{entered}
use kieker_lang_pack_c.ProbePlain.Root.{fresh, first, last}
use kieker_lang_pack_c.Setup.{Process, initialize}
use kieker_lang_pack_c.Setup.Types.{
  event_types, types_announced, trace_metadata_type, before_operation_type, after_operation_type,
}
use kieker_lang_pack_c.Setup.Start.{host, port, initialize-Probing}
use kieker_lang_pack_c.ProbePlain.Log.{
  Event, enters, leaves, events, event_message, counted_by, log_registry,
}
use kieker_lang_pack_c.Collector.Order.{range_from}
use kieker_lang_pack_c.BasicExample.{basic_example, main_signature, fact_signature, main}
use kieker_lang_pack_c.BasicExample.Runs.{fact_calls, main-calls}
use kieker_lang_pack_c.Collector.{stream, read}
use kieker_lang_pack_c.Collector.Stream.{stream-append, read-announcement}
use kieker_lang_pack_c.Collector.Sessions.{known_last, whole_records, run_calls-collected}

most_known_log :
    (clock : ℕ → ℕ) (es : List Event) (reg : Registry) (n : ℕ) (t : KiekerTrace)
    → length (log_registry clock reg n t es) ≤ length reg + 7 * length es
most_known_log clock [] reg n t = omega arith
most_known_log clock (enters c o ∷ es) reg n t =
    let fs = event_message clock n (enters c o) t in
    omega (
      arith,
      most_known fs reg,
      most_known_log clock es (register_fields reg fs) (n + 2) (counted_by (enters c o) t),
    )
most_known_log clock (leaves c o ∷ es) reg n t =
    let fs = event_message clock n (leaves c o) t in
    omega (
      arith,
      most_known fs reg,
      most_known_log clock es (register_fields reg fs) (n + 2) (counted_by (leaves c o) t),
    )

-- The first three messages of a process.
read-types_announced :
    (socket rounds : ℕ) (rest : List ℕ)
    → read (3 + rounds) [] (stream (types_announced socket) ++ rest) ≡ read rounds event_types rest
unfolding be_bytes
read-types_announced socket rounds rest =
    let b = trace_metadata_type ∷ [] in
    let c = trace_metadata_type ∷ before_operation_type ∷ [] in
    let count : 3 + rounds ≡ suc (suc (suc rounds)) = omega arith in
    rw count (
      read-announcement (suc (suc rounds)) socket [] trace_metadata_type _ (omega arith)
        (omega arith)
      ∙ read-announcement (suc rounds) socket b before_operation_type _ (omega arith) (omega arith)
      ∙ read-announcement rounds socket c after_operation_type rest (omega arith) (omega arith))

-- Of the record of a call or a return: the number of its type, its order index and its operation.
abbrev pub seen : List Field → Option (ℕ × ℕ × CString)
seen (int32 v ∷ logged ∷ timestamp ∷ trace_id ∷ int32 order_index ∷ text operation ∷ fs) =
    some (v, order_index, operation)
seen _ = none

abbrev pub numbered : ℕ → CString → List ℕ → List (Option (ℕ × ℕ × CString))
numbered v o [] = []
numbered v o (k ∷ ks) = some (v, k, o) ∷ numbered v o ks

-- The metadata, the calls of `main` and of eleven times `fact`, and their returns.
abbrev pub expected : List (Option (ℕ × ℕ × CString))
expected =
    none
    ∷ some (1, 0, main_signature)
    ∷ (numbered 1 fact_signature (range_from 1 11)
        ++ (numbered 2 fact_signature (range_from 12 11) ++ some (2, 23, main_signature) ∷ []))

module _ (ut : UtHash) (self : ℕ) (s : State) (hostname : CString) where
  few_known :
      length
        (known_last ut self event_types s basic_example main_signature hostname (fact_calls 10))
      ≤ 2 ^ 32
  few_known =
      let inner = fact_calls 10 in
      let t = entered (fresh ut self event_types s basic_example main_signature hostname inner) in
      let begins = first ut self event_types s basic_example main_signature hostname inner in
      let ends = last ut self event_types s basic_example main_signature hostname inner in
      let known1 = register_fields event_types begins in
      let known2 = log_registry (time_at s) known1 3 t (events inner) in
      omega (
        arith,
        most_known begins event_types,
        most_known_log (time_at s) (events inner) known1 3 t,
        most_known ends known2,
      )

  records_seen :
      map seen
        (whole_records ut self event_types s basic_example main_signature hostname (fact_calls 10))
      ≡ expected
  unfolding increment decrement
  records_seen = refl

module _ (ut : UtHash) (os : Process) (self : ℕ) (s : State) {name : CString}
    (unused : s.controller.init_state ≡ unconfigured) (empty : Represents s.lookup [])
    (no_traces : s.trace.traces ≡ []) (named : os.gethostname ≡ some name)
    (fits_name : length name ≤ max_string) (made : os.rwlock_init ≡ true) where
  -- On a library that is not configured and has no strings and no traces, on a host whose name
  -- has at most 8180 bytes and where the lock can be made, initialisation and then the program of
  -- the basic example run to the end with the result 0, and a collector that knows no strings and
  -- reads the bytes that the calls of `write` were given has read in the end: the metadata of a
  -- trace, the calls of `main` and of eleven times `fact` with the order indices 0 to 11, and
  -- their returns, `fact` first, with the order indices 12 to 23.
  pub main-collected : Runs (initialize os >>= λ _. main ut self) s 0 (λ s'.
      (news : List Write) × (s'.world.writes ≡ s.world.writes ++ news)
      × (reg : Registry) × (rs : List (List Field)) × (read (length news + 1) [] (stream news)
          ≡ some (reg, rs))
      × (map seen rs ≡ expected))
  main-collected =
      let r0 = initialize-Probing os s unused empty named made in
      let (block, probing, hostname, at_socket, writes, clock, traces) = r0.post in
      let s1 = r0.final in
      let r1 =
        run_calls-collected ut self event_types s1 basic_example main_signature name (fact_calls 10)
          (record { metadata = refl; before_operation = refl; after_operation = refl })
          (omega arith) (omega arith) (omega arith) fits_name (few_known ut self s1 name) probing
          hostname
          (ap (λ t. ut.find t (self % 2 ^ 32)) (traces ∙ no_traces) ∙ ut.find-nil (self % 2 ^ 32))
          (omega arith) (omega arith) in
      let (news, sent_then, collected) = r1.post in
      let types = types_announced (client_socket_open os.sockets (host os) (port os)) in
      let after_types : read (length (types ++ news) + 1) [] (stream (types ++ news))
          ≡ read (length news + 1) event_types (stream news) =
        let count : length (types ++ news) + 1 ≡ 3 + (length news + 1) =
          omega (arith, length-append types news) in
        rw (count, stream-append types news)
          (read-types_announced (client_socket_open os.sockets (host os) (port os))
            (length news + 1) (stream news)) in
      record {
        final = r1.final;
        run = rw (r0.run, ◌>>=◌) (rw (main-calls ut self) (rw (r1.run, ◌>>=◌)));
        post = (
          types ++ news,
          sent_then ∙ rw (writes, append_assoc),
          _,
          whole_records ut self event_types s1 basic_example main_signature name (fact_calls 10),
          after_types ∙ collected,
          records_seen ut self s1 name,
        );
      }
