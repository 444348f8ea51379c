-- ===== src/ProbePlain/First.antt =====
-- The probe before a call on a thread that has no trace yet.
use kieker_lang_pack_c.Common.{ℕ, ◌≤◌, ◌%◌, ◌^◌, List, length, none, some, ◌≡◌, refl, arith, splice}
use kieker_lang_pack_c.Word.{CString}
use kieker_lang_pack_c.State.{State}
use kieker_lang_pack_c.Exec.Returns.{Runs, update_self}
use kieker_lang_pack_c.Registry.{Registry}
use kieker_lang_pack_c.Effect.{Wrote, max_string, with_trace}
use kieker_lang_pack_c.Fields.{encode, register_fields}
use kieker_lang_pack_c.Trace.{UtHash}
use kieker_lang_pack_c.Trace.Laws.{created, new_trace, trace_get_new}
use kieker_lang_pack_c.ProbeEvents.Message.{time_at}
use kieker_lang_pack_c.ProbePlain.{entered, before_operation_event}
use kieker_lang_pack_c.ProbePlain.At.{first_message, before_operation_event_metadata}
use kieker_lang_pack_c.ProbePlain.Sending.{Probing, sent}

-- A new trace object leaves the buffers alone.
pub Probing-created :
    (ut : UtHash) (k : ℕ) {reg : Registry} {xs : List ℕ} {s : State}
    → Probing reg xs s
    → Probing reg xs (created ut k s)
Probing-created ut k probing = record {
  ready = record {
    table = probing.ready.table;
    string_block = probing.ready.string_block;
    string_holds = ground (arith, probing.ready.string_holds, probing.string_buffer_old);
    string_room = probing.ready.string_room;
  };
  holds = ground (arith, probing.holds, probing.buffer_old);
  room = probing.room;
  apart = probing.apart;
  buffer_old = omega (arith, probing.buffer_old);
  string_buffer_old = omega (arith, probing.string_buffer_old);
}

module _ (ut : UtHash) (self : ℕ) {reg : Registry} {xs : List ℕ} {s : State}
    (probing : Probing reg xs s) (class_signature operation_signature hostname : CString)
    (fits_class : length class_signature ≤ max_string)
    (fits_operation : length operation_signature ≤ max_string)
    (named : s.controller.local_hostname ≡ some hostname)
    (fits_hostname : length hostname ≤ max_string)
    (unknown : ut.find s.trace.traces (self % 2 ^ 32) ≡ none) where
  pub before_operation_event_new :
      let fresh = new_trace (self % 2 ^ 32) s in
      let fs = first_message s fresh hostname class_signature operation_signature in
      Runs (before_operation_event ut self class_signature operation_signature) s tt (
        Wrote s.controller.buffer
          (splice xs 0 (encode reg fs))
          (register_fields reg fs)
          (sent s.controller.socket reg fs)
          3
          (with_trace s.heap.next (entered fresh) (created ut (self % 2 ^ 32) s)))
  unfolding time_at
  before_operation_event_new =
      let fresh = new_trace (self % 2 ^ 32) s in
      before_operation_event_metadata ut self {t = fresh} (trace_get_new ut self s unknown)
        (Probing-created ut (self % 2 ^ 32) probing)
        (update_self s.heap.traces s.heap.next (some fresh)) class_signature operation_signature
        fits_class fits_operation hostname named fits_hostname refl
