-- ===== src/ProbeAspect/First.antt =====
-- The aspect probe before a call on a thread that has no trace.
use kieker_lang_pack_c.Common.{
  ℕ, ◌≤◌, ◌%◌, ◌^◌, List, ◌++◌, length, Option, none, some, ◌≡◌, refl, arith, false, splice, ◌∙◌,
  ap,
}
use kieker_lang_pack_c.Word.{CString}
use kieker_lang_pack_c.State.{Ptr, State, KiekerTrace}
use kieker_lang_pack_c.Exec.{the, ◌>>=◌, ◌>>◌}
use kieker_lang_pack_c.Exec.Returns.{Runs, update_self}
use kieker_lang_pack_c.Registry.{Registry}
use kieker_lang_pack_c.Effect.{Wrote, Wrote-with_trace, max_string, with_trace}
use kieker_lang_pack_c.Fields.{Field, encode, register_fields}
use kieker_lang_pack_c.Trace.{UtHash}
use kieker_lang_pack_c.Trace.Laws.{created, new_trace, trace_get_new}
use kieker_lang_pack_c.Adaptive.{Sorting, AdaptiveState, is_class_excluded}
use kieker_lang_pack_c.ProbeEvents.Message.{time_at}
use kieker_lang_pack_c.ProbeEvents.Events.{
  before_message, metadata_message, create_trace_metadata-Wrote,
}
use kieker_lang_pack_c.ProbePlain.At.{event_behind}
use kieker_lang_pack_c.ProbePlain.First.{Probing-created}
use kieker_lang_pack_c.ProbePlain.Sending.{Probing, Probing-with_trace, update_trace_run, sent}
use kieker_lang_pack_c.ProbeAspect.{deeper, counted, aspect_event_before_operation}

-- What is sent for the first call on the thread `self`, and the state with its trace.
abbrev pub aspect_first : State → ℕ → CString → CString → CString → List Field
aspect_first s self hostname class_signature operation_signature =
    metadata_message (time_at s 0) (new_trace (self % 2 ^ 32) s) hostname
    ++ before_message (time_at s 1) (time_at s 2) (counted (deeper (new_trace (self % 2 ^ 32) s)))
        class_signature operation_signature

abbrev pub with_aspect_trace : UtHash → State → ℕ → State
with_aspect_trace ut s self =
    with_trace s.heap.next (counted (deeper (new_trace (self % 2 ^ 32) s)))
      (with_trace s.heap.next (deeper (new_trace (self % 2 ^ 32) s)) (created ut (self % 2 ^ 32) s))

module _ (ut : UtHash) (os : Sorting) (st : AdaptiveState) (self : ℕ) {reg : Registry} {xs : List ℕ}
    {s : State} (probing : Probing reg xs s)
    (operation_signature class_signature hostname : CString)
    (fits_class : length class_signature ≤ max_string)
    (fits_operation : length operation_signature ≤ max_string)
    (named : s.controller.local_hostname ≡ some hostname)
    (fits_hostname : length hostname ≤ max_string)
    (unknown : ut.find s.trace.traces (self % 2 ^ 32) ≡ none)
    (watched : is_class_excluded os st class_signature ≡ false) where
  pub aspect_event_before_operation_new :
      let fs = aspect_first s self hostname class_signature operation_signature in
      Runs
        (aspect_event_before_operation ut os st self operation_signature class_signature)
        s
        s.heap.next
        (Wrote s.controller.buffer
          (splice xs 0 (encode reg fs))
          (register_fields reg fs)
          (sent s.controller.socket reg fs)
          3
          (with_aspect_trace ut s self))
  unfolding aspect_event_before_operation time_at
  aspect_event_before_operation_new =
      let p = s.heap.next in
      let s0 = created ut (self % 2 ^ 32) s in
      let t = new_trace (self % 2 ^ 32) s in
      let t' = counted (deeper t) in
      let set_up = Probing-created ut (self % 2 ^ 32) probing in
      let tracked : s0.heap.traces p ≡ some t = update_self s.heap.traces p (some t) in
      let ms = metadata_message (time_at s 0) t hostname in
      let r0 =
        create_trace_metadata-Wrote {s = s0} (time_at s0) set_up.ready set_up.holds set_up.apart
          refl refl (λ k. refl) tracked 0 hostname named fits_hostname
          (omega (arith, set_up.room)) in
      let u0 = r0.final in
      let still : u0.heap.traces p ≡ some t =
        ap (λ (f : Ptr → Option KiekerTrace). f p) r0.post.frame.traces ∙ tracked in
      let u1 = with_trace p (deeper t) u0 in
      let deep : u1.heap.traces p ≡ some (deeper t) =
        update_self u0.heap.traces p (some (deeper t)) in
      let r2 =
        event_behind ms class_signature operation_signature fits_class fits_operation (omega arith)
          (Probing-with_trace p t' (Probing-with_trace p (deeper t) set_up))
          (Wrote-with_trace p t' (Wrote-with_trace p (deeper t) r0.post))
          (update_self u1.heap.traces p (some t')) in
      record {
        final = r2.final;
        run =
            rw (trace_get_new ut self s unknown, ◌>>=◌)
              (rw (tracked, the, ◌>>=◌)
                (rw (r0.run, ◌>>=◌)
                  (rw (update_trace_run deeper p u0 still, ◌>>=◌, ◌>>◌)
                    (rw watched (
                      rw (update_trace_run counted p u1 deep, ◌>>=◌, ◌>>◌)
                        (rw (r2.run, ◌>>=◌, ◌>>◌)))))));
        post = r2.post;
      }
