-- ===== src/Setup/Types.antt =====
-- Registration of the three types of events that the probes send.
use kieker_lang_pack_c.Common.{
  ℕ, ◌+◌, ◌≤◌, some, List, [], ◌∷◌, ◌++◌, length, ◌≡◌, ◌≢◌, refl, arith, splice, length-splice, ◌∙◌,
  ap,
}
use kieker_lang_pack_c.Word.{CString, chars, str_eq}
use kieker_lang_pack_c.Word.Bytes.{be_bytes}
use kieker_lang_pack_c.State.{Ptr, State, Write}
use kieker_lang_pack_c.Exec.{◌>>=◌, ◌>>◌}
use kieker_lang_pack_c.Exec.Returns.{Runs}
use kieker_lang_pack_c.Registry.{Registry, number_of, register, index_from}
use kieker_lang_pack_c.Effect.{Ready, Wrote, Wrote-refl, Wrote-trans, Wrote-cast, max_string}
use kieker_lang_pack_c.Controller.Announce.{announcement}
use kieker_lang_pack_c.Serialize.{serialize_string}
use kieker_lang_pack_c.Lookup.Keys.{announcements}
use kieker_lang_pack_c.Fields.Serialized.{serialize_string-Wrote}
use kieker_lang_pack_c.ProbeEvents.{
  flow_trace_metadata, flow_before_operation, flow_after_operation,
}
use kieker_lang_pack_c.Setup.{register_event_type, register_event_types}

abbrev pub trace_metadata_type : CString
trace_metadata_type = chars "kieker.common.record.flow.trace.TraceMetadata"

abbrev pub before_operation_type : CString
before_operation_type = chars "kieker.common.record.flow.trace.operation.BeforeOperationEvent"

abbrev pub after_operation_type : CString
after_operation_type = chars "kieker.common.record.flow.trace.operation.AfterOperationEvent"

-- The registry of a library that has just been set up.
abbrev pub event_types : Registry
event_types = trace_metadata_type ∷ before_operation_type ∷ after_operation_type ∷ []

-- The announcement of each type under the number that the probes put before its events.
abbrev pub types_announced : ℕ → List Write
types_announced socket =
    announcement socket flow_trace_metadata trace_metadata_type
    ∷ announcement socket flow_before_operation before_operation_type
    ∷ announcement socket flow_after_operation after_operation_type
    ∷ []

abbrev pub with_offset : ℕ → State → State
with_offset n s = record s { controller = record (s.controller) { offset = n } }

-- The offset in the controller on both sides of an effect.
Wrote-with_offset :
    {b : Ptr} {block : List ℕ} {reg : Registry} {news : List Write} {n : ℕ} {s t : State} (k : ℕ)
    → Wrote b block reg news n s t
    → Wrote b block reg news n (with_offset k s) (with_offset k t)
Wrote-with_offset k w = record {
  ready = record {
    table = w.ready.table;
    string_block = w.ready.string_block;
    string_holds = w.ready.string_holds;
    string_room = w.ready.string_room;
  };
  holds = w.holds;
  writes = w.writes;
  clock = w.clock;
  frame = record {
    blocks = w.frame.blocks;
    traces = w.frame.traces;
    next = w.frame.next;
    trace = w.frame.trace;
    socket = w.frame.socket;
    buffer = w.frame.buffer;
    string_buffer = w.frame.string_buffer;
    offset = refl;
    local_hostname = w.frame.local_hostname;
    time_of_day = w.frame.time_of_day;
    write_errno = w.frame.write_errno;
  };
}

register_event_type_run :
    (name : CString) {b k : ℕ} (t u : State)
    → t.controller.buffer ≡ b
    → t.controller.offset ≡ k
    → serialize_string b k name t ≡ some (4, u)
    → register_event_type name t ≡ some (tt, with_offset (u.controller.offset + 4) u)
register_event_type_run name {b} t u at_buffer at_offset run =
    let e : serialize_string t.controller.buffer t.controller.offset name t ≡ some (4, u) =
      ap (λ (p : Ptr). serialize_string p t.controller.offset name t) at_buffer
      ∙ ap (λ (o : ℕ). serialize_string b o name t) at_offset
      ∙ run in
    rw (e, ◌>>=◌)

module _ (s : State) (apart : s.controller.buffer ≢ s.controller.string_buffer) where
  -- One type goes into the buffer at the offset of the controller, which moves behind it.
  register_event_type-Wrote :
      {xs : List ℕ} {reg : Registry} {news : List Write} {n k : ℕ} {t : State} (name : CString)
      → Wrote s.controller.buffer xs reg news n (with_offset k s) t
      → length name ≤ max_string
      → k + 4 ≤ length xs
      → Runs (register_event_type name) t tt (
          Wrote s.controller.buffer
            (splice xs k (be_bytes 4 (number_of reg name)))
            (register reg name)
            (news ++ announcements s.controller.socket reg name)
            (n + 0)
            (with_offset (k + 4) s))
  register_event_type-Wrote {xs} {reg} {k} {t} name w fits room =
      let r =
        serialize_string-Wrote w.ready w.holds (rw w.frame.string_buffer apart) k name fits room in
      let whole =
        Wrote-trans w
          (Wrote-cast refl refl (ap (λ so. announcements so reg name) w.frame.socket) r.post) in
      record {
        final = with_offset (k + 4) r.final;
        run =
            register_event_type_run name t r.final w.frame.buffer w.frame.offset r.run
            ∙ ap (λ (o : ℕ). some (tt, with_offset (o + 4) r.final))
                (r.post.frame.offset ∙ w.frame.offset);
        post = Wrote-with_offset (k + 4) whole;
      }

  -- Registration on an empty table.
  pub register_event_types-Wrote :
      {xs : List ℕ}
      → Ready [] s
      → s.heap.blocks s.controller.buffer ≡ some xs
      → 12 ≤ length xs
      → Runs register_event_types (with_offset 0 s) tt (λ s'.
        (ys : List ℕ) × (length ys ≡ length xs)
        × Wrote s.controller.buffer ys event_types
            (types_announced s.controller.socket)
            0
            (with_offset 0 s)
            s')
  unfolding register_event_types register number_of announcements index_from str_eq
  register_event_types-Wrote {xs} ready holds room =
      let r1 =
        register_event_type-Wrote trace_metadata_type (Wrote-with_offset 0 (Wrote-refl ready holds))
          (omega arith) (omega arith) in
      let l1 = length-splice xs 0 (be_bytes 4 0) in
      let r2 =
        register_event_type-Wrote before_operation_type r1.post (omega arith) (omega (arith, l1)) in
      let l2 = length-splice (splice xs 0 (be_bytes 4 0)) 4 (be_bytes 4 1) in
      let r3 =
        register_event_type-Wrote after_operation_type r2.post (omega arith)
          (omega (arith, l1, l2)) in
      let l3 =
        length-splice (splice (splice xs 0 (be_bytes 4 0)) 4 (be_bytes 4 1)) 8 (be_bytes 4 2) in
      record {
        final = with_offset 0 r3.final;
        run = rw (r1.run, ◌>>=◌, ◌>>◌) (rw (r2.run, ◌>>=◌, ◌>>◌) (rw (r3.run, ◌>>=◌, ◌>>◌)));
        post = (_, l3 ∙ l2 ∙ l1, Wrote-with_offset 0 r3.post);
      }
