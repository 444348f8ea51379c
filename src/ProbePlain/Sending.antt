-- ===== src/ProbePlain/Sending.antt =====
-- What the probes share: the state that they start from, and the end of each.
use kieker_lang_pack_c.Common.{
  ℕ, ◌+◌, ◌≤◌, ◌<◌, List, [], ◌∷◌, ◌++◌, length, some, ◌≡◌, ◌≢◌, arith, splice, slice, slice-splice,
  length-splice, ◌==◌, Bool-cases, inl, inr, if◌then◌else◌,
}
use kieker_lang_pack_c.State.{Ptr, State, Write, KiekerTrace}
use kieker_lang_pack_c.Exec.{the, pure, ◌>>=◌}
use kieker_lang_pack_c.Exec.Returns.{Runs}
use kieker_lang_pack_c.Registry.{Registry}
use kieker_lang_pack_c.Effect.{Ready, Wrote, Wrote-trans, with_trace}
use kieker_lang_pack_c.Fields.{Field, size, encode, register_fields, announce_fields}
use kieker_lang_pack_c.Fields.Serialized.{length-encode}
use kieker_lang_pack_c.Controller.{send}
use kieker_lang_pack_c.Controller.Send.{send-Wrote}
use kieker_lang_pack_c.Trace.{UtHash, trace_remove}
use kieker_lang_pack_c.Trace.Laws.{removed, trace_remove_run}
use kieker_lang_pack_c.ProbePlain.{update_trace}

-- The controller is set up: the send buffer has its 8192 bytes beside the string buffer.
pub record Probing (reg : Registry) (xs : List ℕ) (s : State) : Type 0 where
  pub ready : Ready reg s
  pub holds : s.heap.blocks s.controller.buffer ≡ some xs
  pub room : length xs ≡ 8192
  pub apart : s.controller.buffer ≢ s.controller.string_buffer
  pub buffer_old : s.controller.buffer < s.heap.next
  pub string_buffer_old : s.controller.string_buffer < s.heap.next

pub Ready-with_trace :
    {reg : Registry} {s : State} (p : Ptr) (t : KiekerTrace)
    → Ready reg s
    → Ready reg (with_trace p t s)
Ready-with_trace p t ready = record {
  table = ready.table;
  string_block = ready.string_block;
  string_holds = ready.string_holds;
  string_room = ready.string_room;
}

pub Probing-with_trace :
    {reg : Registry} {xs : List ℕ} {s : State} (p : Ptr) (t : KiekerTrace)
    → Probing reg xs s
    → Probing reg xs (with_trace p t s)
Probing-with_trace p t probing = record {
  ready = Ready-with_trace p t probing.ready;
  holds = probing.holds;
  room = probing.room;
  apart = probing.apart;
  buffer_old = probing.buffer_old;
  string_buffer_old = probing.string_buffer_old;
}

-- Writing leaves the controller set up.
pub Probing-Wrote :
    {reg reg' : Registry} {xs ys : List ℕ} {news : List Write} {n : ℕ} {s u : State}
    → Probing reg xs s
    → Wrote s.controller.buffer ys reg' news n s u
    → length ys ≡ 8192
    → Probing reg' ys u
Probing-Wrote probing w size = record {
  ready = w.ready;
  holds = rw w.frame.buffer w.holds;
  room = size;
  apart = rw (w.frame.buffer, w.frame.string_buffer) probing.apart;
  buffer_old = rw (w.frame.buffer, w.frame.next) probing.buffer_old;
  string_buffer_old = rw (w.frame.string_buffer, w.frame.next) probing.string_buffer_old;
}

pub update_trace_run :
    (f : KiekerTrace → KiekerTrace) (p : Ptr) {t : KiekerTrace} (s : State)
    → s.heap.traces p ≡ some t
    → update_trace p f s ≡ some (tt, with_trace p (f t) s)
update_trace_run f p s tracked = rw (tracked, the, ◌>>=◌)

-- The call of `write` for a message of the fields `fs`.
abbrev pub message : ℕ → Registry → List Field → Write
message socket reg fs = record { socket = socket; bytes = encode reg fs }

-- What is written for the fields: the announcements of new strings, and the message.
abbrev pub sent : ℕ → Registry → List Field → List Write
sent socket reg fs = announce_fields socket reg fs ++ message socket reg fs ∷ []

-- Sending the buffer after the fields have been written at its start.
pub send_fields-Wrote :
    (xs : List ℕ) (reg : Registry) (fs : List Field) {news : List Write} {s u : State} {n : ℕ}
    → Wrote s.controller.buffer (splice xs 0 (encode reg fs)) (register_fields reg fs) news n s u
    → size fs ≤ length xs
    → Runs (send (0 + size fs)) u tt (
        Wrote s.controller.buffer
          (splice xs 0 (encode reg fs))
          (register_fields reg fs)
          (news ++ message s.controller.socket reg fs ∷ [])
          (n + 0)
          s)
send_fields-Wrote xs reg fs w fits =
    let bytes = encode reg fs in
    let r =
      send-Wrote (0 + size fs) w.ready w.holds w.frame.socket w.frame.buffer
        (omega (arith, length-splice xs 0 bytes)) in
    let cut : slice (splice xs 0 bytes) 0 (0 + size fs) ≡ bytes =
      slice-splice xs 0 (0 + size fs) bytes (omega (arith, length-encode reg fs)) (omega arith) in
    record { final = r.final; run = r.run; post = Wrote-trans w (rw cut at r.post) }

-- The end of a probe after a call, where the trace ends at the depth `n`.
pub ended_run :
    (ut : UtHash) (n : ℕ) (p : Ptr) {t : KiekerTrace} (u : State) (block : List ℕ)
    → u.heap.traces p ≡ some t
    → u.heap.blocks t.buffer ≡ some block
    → (if t.stack == n then trace_remove ut p else pure tt) u
      ≡ some (tt, if t.stack == n then removed ut p t u else u)
ended_run ut n p {t} u block here held = elim (Bool-cases (t.stack == n)) [
  | inl ends ↦ rw ends (trace_remove_run ut p u here held)
  | inr more ↦ rw more
]

-- A trace object that is removed takes its buffer along, and that is neither of the controller's two.
pub Probing-removed :
    (ut : UtHash) (p : Ptr) (t : KiekerTrace) {reg : Registry} {xs : List ℕ} {s : State}
    → Probing reg xs s
    → t.buffer ≢ s.controller.buffer
    → t.buffer ≢ s.controller.string_buffer
    → Probing reg xs (removed ut p t s)
Probing-removed ut p t probing no_buffer no_string_buffer = record {
  ready = record {
    table = probing.ready.table;
    string_block = probing.ready.string_block;
    string_holds = ground (arith, probing.ready.string_holds);
    string_room = probing.ready.string_room;
  };
  holds = ground (arith, probing.holds);
  room = probing.room;
  apart = probing.apart;
  buffer_old = probing.buffer_old;
  string_buffer_old = probing.string_buffer_old;
}
