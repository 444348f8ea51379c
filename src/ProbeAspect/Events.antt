-- ===== src/ProbeAspect/Events.antt =====
-- What the aspect probes do on a trace that has begun.
use kieker_lang_pack_c.Common.{
  ℕ, ◌≤◌, ◌%◌, ◌^◌, List, length, Option, some, ◌≡◌, ◌≢◌, refl, arith, false, splice, ◌∙◌, ap, ◌==◌,
  if◌then◌else◌,
}
use kieker_lang_pack_c.Word.{CString, minus_one}
use kieker_lang_pack_c.State.{Ptr, State, KiekerTrace}
use kieker_lang_pack_c.Exec.{the, ◌>>=◌, ◌>>◌}
use kieker_lang_pack_c.Exec.Returns.{Runs, update_self}
use kieker_lang_pack_c.Registry.{Registry}
use kieker_lang_pack_c.Effect.{Wrote, Wrote-with_trace, max_string, with_trace}
use kieker_lang_pack_c.Fields.{encode, register_fields}
use kieker_lang_pack_c.Trace.{UtHash}
use kieker_lang_pack_c.Trace.Laws.{removed, trace_get_known}
use kieker_lang_pack_c.Adaptive.{Sorting, AdaptiveState, is_class_excluded}
use kieker_lang_pack_c.ProbeEvents.Message.{time_at}
use kieker_lang_pack_c.ProbeEvents.Events.{
  before_message, after_message, create_before_operation_event-Wrote,
  create_after_operation_event-Wrote,
}
use kieker_lang_pack_c.ProbePlain.Sending.{
  Probing, Ready-with_trace, update_trace_run, sent, send_fields-Wrote, ended_run,
}
use kieker_lang_pack_c.ProbeAspect.{
  deeper, shallower, counted, aspect_event_before_operation, aspect_event_after_operation,
}

module _ (ut : UtHash) (os : Sorting) (st : AdaptiveState) (self : ℕ) {reg : Registry} {xs : List ℕ}
    {s : State} (probing : Probing reg xs s) (operation_signature class_signature : CString)
    (fits_class : length class_signature ≤ max_string)
    (fits_operation : length operation_signature ≤ max_string) {p : Ptr} {t : KiekerTrace}
    (tracked : s.heap.traces p ≡ some t) where
  -- On a library that is set up, given a trace with a buffer of its own, and with names of at
  -- most 8180 bytes, the aspect probe after a call in a class that is monitored sends a record
  -- with the order index that the trace has, which is raised only after the record is written;
  -- the depth goes down by 1, and exactly when it comes to -1 the trace is taken from the table
  -- and freed with its buffer.
  pub aspect_event_after_operation_known :
      (block : List ℕ)
      → is_class_excluded os st class_signature ≡ false
      → s.heap.blocks t.buffer ≡ some block
      → t.buffer ≢ s.controller.buffer
      → t.buffer ≢ s.controller.string_buffer
      → let fs = after_message (time_at s 0) (time_at s 1) t class_signature operation_signature in
        let t' = shallower (counted t) in
        Runs
          (aspect_event_after_operation ut os st self p operation_signature class_signature)
          s
          tt
          (λ s'.
            (u : State) × Wrote s.controller.buffer
              (splice xs 0 (encode reg fs))
              (register_fields reg fs)
              (sent s.controller.socket reg fs)
              2
              (with_trace p (counted t) s)
              u
            × (s' ≡ (
                if t'.stack == minus_one
                then removed ut p t' (with_trace p t' u)
                else with_trace p t' u)))
  unfolding aspect_event_after_operation time_at
  aspect_event_after_operation_known block watched held apart apart_string =
      let r1 =
        create_after_operation_event-Wrote (time_at s) probing.ready probing.holds probing.apart
          refl refl (λ k. refl) tracked 0 class_signature operation_signature fits_class
          fits_operation (omega (arith, probing.room)) in
      let fs = after_message (time_at s 0) (time_at s 1) t class_signature operation_signature in
      let still : r1.final.heap.traces p ≡ some t =
        ap (λ (f : Ptr → Option KiekerTrace). f p) r1.post.frame.traces ∙ tracked in
      let w = Wrote-with_trace p (counted t) r1.post in
      let r2 = send_fields-Wrote xs reg fs w (omega (arith, probing.room)) in
      let u = r2.final in
      let t' = shallower (counted t) in
      let here : u.heap.traces p ≡ some (counted t) =
        ap (λ (f : Ptr → Option KiekerTrace). f p) r2.post.frame.traces
        ∙ update_self s.heap.traces p (some (counted t)) in
      let held' : u.heap.blocks t.buffer ≡ some block =
        r2.post.frame.blocks t.buffer apart apart_string ∙ held in
      let v = with_trace p t' u in
      let stored : v.heap.traces p ≡ some t' = update_self u.heap.traces p (some t') in
      let ended = ended_run ut minus_one p v block stored held' in
      record {
        final = if t'.stack == minus_one then removed ut p t' v else v;
        run = rw (watched) (
            rw (r1.run, ◌>>=◌)
              (rw (update_trace_run counted p r1.final still, ◌>>=◌, ◌>>◌)
                (rw (r2.run, ◌>>=◌, ◌>>◌)
                  (rw (update_trace_run shallower p u here, ◌>>=◌, ◌>>◌)
                    (rw (stored, the, ◌>>=◌) ended)))));
        post = (u, r2.post, refl);
      }

  module _ (known : ut.find s.trace.traces (self % 2 ^ 32) ≡ some p)
      (old : t.order_index ≢ minus_one) where
    -- On a library that is set up, on a thread that has a trace whose order index is not -1, and
    -- with names of at most 8180 bytes, the aspect probe before a call in a class that is
    -- monitored raises the depth and the order index of the trace, sends the announcements of new
    -- strings and the record of the call with the new order index, and returns the trace.
    pub aspect_event_before_operation_known :
        is_class_excluded os st class_signature ≡ false
        → let t' = counted (deeper t) in
          let fs =
            before_message (time_at s 0) (time_at s 1) t' class_signature operation_signature in
          Runs
            (aspect_event_before_operation ut os st self operation_signature class_signature)
            s
            p
            (Wrote s.controller.buffer
              (splice xs 0 (encode reg fs))
              (register_fields reg fs)
              (sent s.controller.socket reg fs)
              2
              (with_trace p t' (with_trace p (deeper t) s)))
    unfolding aspect_event_before_operation time_at
    aspect_event_before_operation_known watched =
        let s1 = with_trace p (deeper t) s in
        let t' = counted (deeper t) in
        let s2 = with_trace p t' s1 in
        let here : s1.heap.traces p ≡ some (deeper t) =
          update_self s.heap.traces p (some (deeper t)) in
        let r1 =
          create_before_operation_event-Wrote {s = s2} (time_at s)
            (Ready-with_trace p t' (Ready-with_trace p (deeper t) probing.ready)) probing.holds
            probing.apart refl refl (λ k. refl) (update_self s1.heap.traces p (some t')) 0
            class_signature operation_signature fits_class fits_operation
            (omega (arith, probing.room)) in
        let fs =
          before_message (time_at s 0) (time_at s 1) t' class_signature operation_signature in
        let r2 = send_fields-Wrote xs reg fs r1.post (omega (arith, probing.room)) in
        let not_new : (t.order_index == minus_one) ≡ false = ground arith in
        record {
          final = r2.final;
          run =
              rw (trace_get_known ut self s known, ◌>>=◌)
                (rw (tracked, the, ◌>>=◌)
                  (rw not_new (
                    rw (update_trace_run deeper p s tracked, ◌>>=◌, ◌>>◌)
                      (rw watched (
                        rw (update_trace_run counted p s1 here, ◌>>=◌, ◌>>◌)
                          (rw (r1.run, ◌>>=◌) (rw (r2.run, ◌>>=◌, ◌>>◌))))))));
          post = r2.post;
        }
