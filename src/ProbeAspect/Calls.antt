-- ===== src/ProbeAspect/Calls.antt =====
-- One call between the two aspect probes, the first on its thread.
use kieker_lang_pack_c.Common.{
  ℕ, ◌+◌, ◌≤◌, ◌%◌, ◌^◌, List, ◌++◌, length, Option, none, some, ◌≡◌, arith, false, replicate,
  length-splice, append_assoc, ◌∙◌, ap,
}
use kieker_lang_pack_c.Word.{CString, increment, decrement}
use kieker_lang_pack_c.State.{Ptr, State, TraceState, KiekerTrace, Write}
use kieker_lang_pack_c.Exec.{◌>>=◌}
use kieker_lang_pack_c.Exec.Returns.{Runs, update_self}
use kieker_lang_pack_c.Registry.{Registry}
use kieker_lang_pack_c.Effect.{max_string, with_trace}
use kieker_lang_pack_c.Fields.{encode, register_fields}
use kieker_lang_pack_c.Trace.{UtHash}
use kieker_lang_pack_c.Trace.Laws.{created, new_trace}
use kieker_lang_pack_c.Adaptive.{Sorting, AdaptiveState, is_class_excluded}
use kieker_lang_pack_c.ProbeEvents.Message.{time_at, time_at-Wrote}
use kieker_lang_pack_c.ProbeEvents.Events.{after_message}
use kieker_lang_pack_c.ProbePlain.First.{Probing-created}
use kieker_lang_pack_c.ProbePlain.Sending.{Probing, Probing-with_trace, Probing-Wrote, sent}
use kieker_lang_pack_c.ProbeAspect.{
  deeper, shallower, counted, aspect_event_before_operation, aspect_event_after_operation,
}
use kieker_lang_pack_c.ProbeAspect.Events.{aspect_event_after_operation_known}
use kieker_lang_pack_c.ProbeAspect.First.{aspect_first, aspect_event_before_operation_new}

module _ (ut : UtHash) (os : Sorting) (st : AdaptiveState) (self : ℕ) {reg : Registry} {xs : List ℕ}
    {s : State} (probing : Probing reg xs s)
    (operation_signature class_signature hostname : CString)
    (fits_class : length class_signature ≤ max_string)
    (fits_operation : length operation_signature ≤ max_string)
    (named : s.controller.local_hostname ≡ some hostname)
    (fits_hostname : length hostname ≤ max_string)
    (unknown : ut.find s.trace.traces (self % 2 ^ 32) ≡ none)
    (watched : is_class_excluded os st class_signature ≡ false) where
  -- On a library that is set up, on a thread without a trace, with names and a host name of at
  -- most 8180 bytes, the aspect probes before and after one call in a class that is monitored
  -- send the metadata and the record of the call with order index 0, and then the record of the
  -- return, again with the order index 0, which is raised to 1 only after that; the depth is 0 in
  -- the end, and the trace is still in the table, although its only call has returned.
  pub aspect_event_call-kept :
      let fresh = new_trace (self % 2 ^ 32) s in
      let begins = aspect_first s self hostname class_signature operation_signature in
      let ends =
        after_message
          (time_at s 3)
          (time_at s 4)
          (counted (deeper fresh))
          class_signature
          operation_signature in
      let socket = s.controller.socket in
      Runs
        (aspect_event_before_operation ut os st self operation_signature class_signature
          >>= λ trace.
              aspect_event_after_operation ut os st self trace operation_signature class_signature)
        s
        tt
        (λ s'.
          (s'.world.writes
            ≡ s.world.writes
              ++ (sent socket reg begins ++ sent socket (register_fields reg begins) ends))
          × (ut.find s'.trace.traces (self % 2 ^ 32) ≡ some s.heap.next)
          × (s'.heap.traces s.heap.next ≡ some (record fresh { order_index = 1; stack = 0 })))
  unfolding increment decrement time_at
  aspect_event_call-kept =
      let p = s.heap.next in
      let k = self % 2 ^ 32 in
      let t = counted (deeper (new_trace k s)) in
      let begins = aspect_first s self hostname class_signature operation_signature in
      let r1 =
        aspect_event_before_operation_new ut os st self probing operation_signature class_signature
          hostname fits_class fits_operation named fits_hostname unknown watched in
      let w1 = r1.post in
      let u = r1.final in
      let set_up =
        Probing-Wrote
          (Probing-with_trace p t
            (Probing-with_trace p (deeper (new_trace k s)) (Probing-created ut k probing)))
          w1 (length-splice xs 0 (encode reg begins) ∙ probing.room) in
      let tracked : u.heap.traces p ≡ some t =
        ap (λ (f : Ptr → Option KiekerTrace). f p) w1.frame.traces
        ∙ update_self (with_trace p (deeper (new_trace k s)) (created ut k s)).heap.traces p
            (some t) in
      let held : u.heap.blocks t.buffer ≡ some (replicate 1024 0) =
        w1.frame.blocks (p + 1) (omega (arith, probing.buffer_old))
          (omega (arith, probing.string_buffer_old))
        ∙ ground arith in
      let r2 =
        aspect_event_after_operation_known ut os st self set_up operation_signature class_signature
          fits_class fits_operation tracked (replicate 1024 0) watched held
          (omega (arith, w1.frame.buffer, probing.buffer_old))
          (omega (arith, w1.frame.string_buffer, probing.string_buffer_old)) in
      let (v, w2, ends) = r2.post in
      let ended = shallower (counted t) in
      let stays : r2.final ≡ with_trace p ended v = ends in
      let time_3 : time_at u 0 ≡ time_at s 3 = time_at-Wrote w1 0 in
      let time_4 : time_at u 1 ≡ time_at s 4 = time_at-Wrote w1 1 in
      let second =
        sent s.controller.socket (register_fields reg begins)
          (after_message (time_at s 3) (time_at s 4) t class_signature operation_signature) in
      let later : v.world.writes ≡ u.world.writes ++ second = w2.writes ∙ (λ i.
        u.world.writes
        ++ sent (w1.frame.socket i) (register_fields reg begins)
            (after_message (time_3 i) (time_4 i) t class_signature operation_signature)) in
      let table : v.trace ≡ (created ut k s).trace = w2.frame.trace ∙ w1.frame.trace in
      let found : ut.find v.trace.traces k ≡ some p =
        ap (λ (r : TraceState). ut.find r.traces k) table
        ∙ ground (arith, ut.find-add s.trace.traces k p k unknown) in
      record {
        final = r2.final;
        run = rw (r1.run, ◌>>=◌) r2.run;
        post = rw stays (
          later
              ∙ ap (λ (ws : List Write). ws ++ second) w1.writes
              ∙ append_assoc s.world.writes (sent s.controller.socket reg begins) second,
          found,
          update_self v.heap.traces p (some ended),
        );
      }
