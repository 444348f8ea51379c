-- ===== src/ProbePlain/At.antt =====
-- The probes once `kieker_trace_get` has returned the trace at `p` and left the state `s0`.
use kieker_lang_pack_c.Common.{
  ℕ, ◌+◌, ◌≤◌, List, ◌++◌, length, Option, some, true, false, ◌≡◌, ◌≢◌, refl, arith, splice,
  splice-splice, length-splice, ◌∙◌, sym, ap, ◌==◌, if◌then◌else◌,
}
use kieker_lang_pack_c.Word.{CString, minus_one}
use kieker_lang_pack_c.State.{Ptr, State, KiekerTrace}
use kieker_lang_pack_c.Exec.{the, ◌>>=◌, ◌>>◌}
use kieker_lang_pack_c.Exec.Returns.{Runs, update_self}
use kieker_lang_pack_c.Registry.{Registry}
use kieker_lang_pack_c.Effect.{
  Wrote, Wrote-trans, Wrote-with_trace, Wrote-cast, max_string, with_trace,
}
use kieker_lang_pack_c.Fields.{Field, size, encode, register_fields, announce_fields}
use kieker_lang_pack_c.Fields.Serialized.{length-encode}
use kieker_lang_pack_c.Fields.Append.{
  encode-append, register_fields-append, announce_fields-append, size-append,
}
use kieker_lang_pack_c.Trace.{UtHash, trace_get}
use kieker_lang_pack_c.Trace.Laws.{removed}
use kieker_lang_pack_c.ProbeEvents.Message.{time_at, time_at-Wrote, time_at-with_trace}
use kieker_lang_pack_c.ProbeEvents.Events.{
  before_message, after_message, metadata_message, create_before_operation_event-Wrote,
  create_after_operation_event-Wrote, create_trace_metadata-Wrote,
}
use kieker_lang_pack_c.Controller.{send}
use kieker_lang_pack_c.ProbeEvents.{create_before_operation_event}
use kieker_lang_pack_c.ProbePlain.{entered, left, before_operation_event, after_operation_event}
use kieker_lang_pack_c.ProbePlain.Sending.{
  Probing, Probing-with_trace, Ready-with_trace, update_trace_run, sent, send_fields-Wrote,
  ended_run,
}

-- The metadata of a trace, and behind that the record of a call.
abbrev pub first_message : State → KiekerTrace → CString → CString → CString → List Field
first_message s t hostname class_signature operation_signature =
    metadata_message (time_at s 0) t hostname
    ++ before_message (time_at s 1) (time_at s 2) (entered t) class_signature operation_signature

-- The record of a call behind the fields `ms`, and the sending of both.
pub event_behind :
    (ms : List Field) {reg : Registry} {xs : List ℕ} {s u : State} {p : Ptr} {t : KiekerTrace}
    (class_signature operation_signature : CString)
    → length class_signature ≤ max_string
    → length operation_signature ≤ max_string
    → size ms ≤ 100
    → Probing reg xs s
    → Wrote s.controller.buffer
        (splice xs 0 (encode reg ms))
        (register_fields reg ms)
        (announce_fields s.controller.socket reg ms)
        1
        s
        u
    → u.heap.traces p ≡ some t
    → let fs = before_message (time_at s 1) (time_at s 2) t class_signature operation_signature in
      let whole = ms ++ fs in
      Runs
        (create_before_operation_event (0 + size ms) p class_signature operation_signature >>= send)
        u
        tt
        (Wrote s.controller.buffer
          (splice xs 0 (encode reg whole))
          (register_fields reg whole)
          (sent s.controller.socket reg whole)
          3
          s)
event_behind ms {reg} {xs} {s} {u} {t} class_signature operation_signature fits_class fits_operation
      few probing w tracked =
    let fs = before_message (time_at s 1) (time_at s 2) t class_signature operation_signature in
    let reg1 = register_fields reg ms in
    let r1 =
      create_before_operation_event-Wrote (λ k. time_at s (1 + k)) w.ready w.holds
        (rw w.frame.string_buffer probing.apart) w.frame.buffer w.frame.socket
        (λ k. time_at-Wrote w k) tracked (0 + size ms) class_signature operation_signature
        fits_class fits_operation
        (omega (arith, few, probing.room, length-splice xs 0 (encode reg ms))) in
    let bytes : splice (splice xs 0 (encode reg ms)) (0 + size ms) (encode reg1 fs)
        ≡ splice xs 0 (encode reg (ms ++ fs)) =
      splice-splice xs 0 (0 + size ms) (encode reg ms) (encode reg1 fs)
        (omega (arith, length-encode reg ms))
      ∙ ap (λ (bs : List ℕ). splice xs 0 bs) (sym (encode-append ms fs reg)) in
    let w1 =
      Wrote-cast bytes (sym (register_fields-append ms fs reg))
        (sym (announce_fields-append s.controller.socket ms fs reg)) (Wrote-trans w r1.post) in
    let r2 =
      send_fields-Wrote xs reg (ms ++ fs) w1
        (omega (arith, size-append ms fs, few, probing.room)) in
    let long : 0 + size (ms ++ fs) ≡ 0 + size ms + size fs = omega (arith, size-append ms fs) in
    record { final = r2.final; run = rw (r1.run, ◌>>=◌) (rw long at r2.run); post = r2.post }

module _ (ut : UtHash) (self : ℕ) {reg : Registry} {xs : List ℕ} {s s0 : State} {p : Ptr}
    {t : KiekerTrace} (got : trace_get ut self s ≡ some (p, s0)) (probing : Probing reg xs s0)
    (tracked : s0.heap.traces p ≡ some t) (class_signature operation_signature : CString)
    (fits_class : length class_signature ≤ max_string)
    (fits_operation : length operation_signature ≤ max_string) where
  -- The order index of the trace is not -1: one record.
  pub before_operation_event_begun :
      t.order_index ≢ minus_one
      → let fs =
          before_message
            (time_at s0 0)
            (time_at s0 1)
            (entered t)
            class_signature
            operation_signature in
        Runs (before_operation_event ut self class_signature operation_signature) s tt (
          Wrote s0.controller.buffer
            (splice xs 0 (encode reg fs))
            (register_fields reg fs)
            (sent s0.controller.socket reg fs)
            2
            (with_trace p (entered t) s0))
  unfolding before_operation_event
  before_operation_event_begun old =
      let s1 = with_trace p (entered t) s0 in
      let r1 =
        create_before_operation_event-Wrote {s = s1} (time_at s0)
          (Ready-with_trace p (entered t) probing.ready) probing.holds probing.apart refl refl
          (time_at-with_trace p (entered t) s0) (update_self s0.heap.traces p (some (entered t))) 0
          class_signature operation_signature fits_class fits_operation
          (omega (arith, probing.room)) in
      let fs =
        before_message (time_at s0 0) (time_at s0 1) (entered t) class_signature
          operation_signature in
      let r2 = send_fields-Wrote xs reg fs r1.post (omega (arith, probing.room)) in
      let not_new : (t.order_index == minus_one) ≡ false = ground arith in
      record {
        final = r2.final;
        run =
            rw (got, ◌>>=◌)
              (rw (tracked, the, ◌>>=◌)
                (rw not_new (
                  rw (update_trace_run entered p s0 tracked, ◌>>=◌, ◌>>◌)
                    (rw (r1.run, ◌>>=◌) r2.run))));
        post = r2.post;
      }

  -- The order index of the trace is -1: its metadata, and a record.
  pub before_operation_event_metadata :
      (hostname : CString)
      → s0.controller.local_hostname ≡ some hostname
      → length hostname ≤ max_string
      → t.order_index ≡ minus_one
      → let fs = first_message s0 t hostname class_signature operation_signature in
        Runs (before_operation_event ut self class_signature operation_signature) s tt (
          Wrote s0.controller.buffer
            (splice xs 0 (encode reg fs))
            (register_fields reg fs)
            (sent s0.controller.socket reg fs)
            3
            (with_trace p (entered t) s0))
  unfolding before_operation_event time_at
  before_operation_event_metadata hostname named fits_hostname new =
      let ms = metadata_message (time_at s0 0) t hostname in
      let t' = entered t in
      let r0 =
        create_trace_metadata-Wrote {s = s0} (time_at s0) probing.ready probing.holds probing.apart
          refl refl (λ k. refl) tracked 0 hostname named fits_hostname
          (omega (arith, probing.room)) in
      let u0 = r0.final in
      let still : u0.heap.traces p ≡ some t =
        ap (λ (f : Ptr → Option KiekerTrace). f p) r0.post.frame.traces ∙ tracked in
      let r2 =
        event_behind ms class_signature operation_signature fits_class fits_operation (omega arith)
          (Probing-with_trace p t' probing) (Wrote-with_trace p t' r0.post)
          (update_self u0.heap.traces p (some t')) in
      let is_new : (t.order_index == minus_one) ≡ true = ground arith in
      record {
        final = r2.final;
        run =
            rw (got, ◌>>=◌)
              (rw (tracked, the, ◌>>=◌)
                (rw is_new (
                  rw (r0.run, ◌>>=◌)
                    (rw (update_trace_run entered p u0 still, ◌>>=◌, ◌>>◌) r2.run))));
        post = r2.post;
      }

  -- The probe after a call, whose trace has a buffer of its own.
  pub after_operation_event_at :
      (block : List ℕ)
      → s0.heap.blocks t.buffer ≡ some block
      → t.buffer ≢ s0.controller.buffer
      → t.buffer ≢ s0.controller.string_buffer
      → let fs =
          after_message
            (time_at s0 0)
            (time_at s0 1)
            (left t)
            class_signature
            operation_signature in
        Runs (after_operation_event ut self class_signature operation_signature) s tt (λ s'.
          (u : State) × Wrote s0.controller.buffer
            (splice xs 0 (encode reg fs))
            (register_fields reg fs)
            (sent s0.controller.socket reg fs)
            2
            (with_trace p (left t) s0)
            u
          × (s' ≡ (if (left t).stack == 0 then removed ut p (left t) u else u)))
  unfolding after_operation_event
  after_operation_event_at block held apart apart_string =
      let s1 = with_trace p (left t) s0 in
      let r1 =
        create_after_operation_event-Wrote {s = s1} (time_at s0)
          (Ready-with_trace p (left t) probing.ready) probing.holds probing.apart refl refl
          (time_at-with_trace p (left t) s0) (update_self s0.heap.traces p (some (left t))) 0
          class_signature operation_signature fits_class fits_operation
          (omega (arith, probing.room)) in
      let fs =
        after_message (time_at s0 0) (time_at s0 1) (left t) class_signature operation_signature in
      let r2 = send_fields-Wrote xs reg fs r1.post (omega (arith, probing.room)) in
      let u = r2.final in
      let still : u.heap.traces p ≡ some (left t) =
        ap (λ (f : Ptr → Option KiekerTrace). f p) r2.post.frame.traces
        ∙ update_self s0.heap.traces p (some (left t)) in
      let block_held : u.heap.blocks t.buffer ≡ some block =
        r2.post.frame.blocks t.buffer apart apart_string ∙ held in
      record {
        final = if (left t).stack == 0 then removed ut p (left t) u else u;
        run =
            rw (got, ◌>>=◌)
              (rw (update_trace_run left p s0 tracked, ◌>>=◌, ◌>>◌)
                (rw (r1.run, ◌>>=◌)
                  (rw (r2.run, ◌>>=◌, ◌>>◌)
                    (rw (still, the, ◌>>=◌) (ended_run ut 0 p u block still block_held)))));
        post = (u, r2.post, refl);
      }
