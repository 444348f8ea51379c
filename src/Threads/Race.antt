-- ===== src/Threads/Race.antt =====
-- Two threads that are inside the plain probe before a call at the same time: both use the one buffer
-- of the controller, and no lock is held from the writing of a record to its sending.
use kieker_lang_pack_c.Common.{
  ℕ, ◌+◌, ◌≤◌, List, [], ◌∷◌, ◌++◌, length, Option, some, ◌≡◌, refl, arith, splice, length-splice,
  ◌∙◌, ap, append_assoc,
}
use kieker_lang_pack_c.Word.{CString}
use kieker_lang_pack_c.State.{Ptr, State, KiekerTrace}
use kieker_lang_pack_c.Exec.{Exec, ◌>>=◌, ◌>>◌}
use kieker_lang_pack_c.Exec.Returns.{Runs}
use kieker_lang_pack_c.Registry.{Registry}
use kieker_lang_pack_c.Effect.{Wrote-trans, max_string}
use kieker_lang_pack_c.Fields.{encode, register_fields, announce_fields}
use kieker_lang_pack_c.Controller.{send}
use kieker_lang_pack_c.ProbeEvents.{create_before_operation_event}
use kieker_lang_pack_c.ProbeEvents.Message.{time_at, time_at-Wrote}
use kieker_lang_pack_c.ProbeEvents.Events.{before_message, create_before_operation_event-Wrote}
use kieker_lang_pack_c.ProbePlain.Sending.{Probing, message, send_fields-Wrote}

-- The last two statements of the probe, of the threads with the traces at `p` and at `q`, in this
-- order: both threads write, and then both send.
abbrev pub both_write_first : Ptr → Ptr → CString → CString → CString → CString → Exec (Unit {0})
both_write_first p q c o c' o' = do
  let start : ℕ = 0
  position ← create_before_operation_event start p c o
  position' ← create_before_operation_event start q c' o'
  send position
  send position'

module _ {reg : Registry} {xs : List ℕ} {s : State} (probing : Probing reg xs s) (p q : Ptr)
    (t u : KiekerTrace) (at_p : s.heap.traces p ≡ some t) (at_q : s.heap.traces q ≡ some u)
    (c o c' o' : CString) (fits_c : length c ≤ max_string) (fits_o : length o ≤ max_string)
    (fits_c' : length c' ≤ max_string) (fits_o' : length o' ≤ max_string) where
  -- If two threads whose next record is the first of its message, which is so once the metadata
  -- of their traces are sent, are in the plain probe before a call, and both write their record
  -- at the start of the buffer before either of them sends, then both calls of `write` send the
  -- record of the second thread, and the record of the first is lost.
  pub both_write_first-lost :
      let first = before_message (time_at s 0) (time_at s 1) t c o in
      let second = before_message (time_at s 2) (time_at s 3) u c' o' in
      let reg' = register_fields reg first in
      let both = message s.controller.socket reg' second in
      Runs (both_write_first p q c o c' o') s tt (λ s'.
        s'.world.writes
        ≡ s.world.writes
          ++ ((announce_fields s.controller.socket reg first
                ++ announce_fields s.controller.socket reg' second)
              ++ both ∷ both ∷ []))
  both_write_first-lost =
      let first = before_message (time_at s 0) (time_at s 1) t c o in
      let second = before_message (time_at s 2) (time_at s 3) u c' o' in
      let reg' = register_fields reg first in
      let ys = splice xs 0 (encode reg first) in
      let long : length ys ≡ 8192 = length-splice xs 0 (encode reg first) ∙ probing.room in
      let r1 =
        create_before_operation_event-Wrote (time_at s) probing.ready probing.holds probing.apart
          refl refl (λ k. refl) at_p 0 c o fits_c fits_o (omega (arith, probing.room)) in
      let w1 = r1.post in
      let at_q' : r1.final.heap.traces q ≡ some u =
        ap (λ (f : Ptr → Option KiekerTrace). f q) w1.frame.traces ∙ at_q in
      let r2 =
        create_before_operation_event-Wrote (λ k. time_at s (2 + k)) w1.ready w1.holds
          (rw w1.frame.string_buffer probing.apart) w1.frame.buffer w1.frame.socket
          (λ k. time_at-Wrote w1 k) at_q' 0 c' o' fits_c' fits_o' (omega (arith, long)) in
      let w2 = Wrote-trans w1 r2.post in
      let r3 = send_fields-Wrote ys reg' second w2 (omega (arith, long)) in
      let r4 = send_fields-Wrote ys reg' second r3.post (omega (arith, long)) in
      record {
        final = r4.final;
        run = rw (r1.run, ◌>>=◌) (rw (r2.run, ◌>>=◌) (rw (r3.run, ◌>>=◌, ◌>>◌) r4.run));
        post = r4.post.writes ∙ rw append_assoc;
      }
