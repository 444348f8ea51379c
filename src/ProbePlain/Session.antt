-- ===== src/ProbePlain/Session.antt =====
-- The plain probes over a sequence of events on a thread that has a trace.
use native.Mathlib.Nat.{add-zero, add_assoc}
use kieker_lang_pack_c.Common.{
  ℕ, ◌+◌, ◌*◌, ◌%◌, ◌^◌, List, [], ◌∷◌, ◌++◌, length, Option, some, false, ◌≡◌, ◌≢◌, refl, arith,
  append_assoc, append-nil, ap, ◌∙◌, ◌==◌, length-splice,
}
use kieker_lang_pack_c.State.{Ptr, State, TraceState, KiekerTrace, Write}
use kieker_lang_pack_c.Exec.{◌>>=◌, ◌>>◌}
use kieker_lang_pack_c.Exec.Returns.{Runs, update_self}
use kieker_lang_pack_c.Registry.{Registry}
use kieker_lang_pack_c.Effect.{Wrote, with_trace}
use kieker_lang_pack_c.Fields.{register_fields}
use kieker_lang_pack_c.Trace.{UtHash}
use kieker_lang_pack_c.Trace.Laws.{trace_get_known}
use kieker_lang_pack_c.ProbeEvents.Message.{time_at, time_at-Wrote, time_at-with_trace}
use kieker_lang_pack_c.ProbePlain.{entered, left}
use kieker_lang_pack_c.ProbePlain.At.{before_operation_event_begun, after_operation_event_at}
use kieker_lang_pack_c.ProbePlain.Sending.{Probing, Probing-with_trace, Probing-Wrote, sent}
use kieker_lang_pack_c.ProbePlain.Log.{
  Calls, events, calls_made, ShortNames, Event, enters, leaves, counted_by, event_message,
  trace_after, log_registry, log, ticks, Stays, Stays-cons, ShortEvents, ShortEvents-cons,
  run_calls, run_event, run_events, run_calls-events,
}
use kieker_lang_pack_c.ProbePlain.Balanced.{ShortEvents-events, Room, advanced, trace_after-events}

-- From `s0` on, `news` was sent while the clock was read `n` times, and the thread is now inside a
-- trace `t`, at `p`.
pub record Inside (ut : UtHash) (self : ℕ) (p : Ptr) (s0 : State) (reg : Registry)
    (news : List Write) (n : ℕ) (t : KiekerTrace) (s : State) : Type 0 where
  pub xs : List ℕ
  pub probing : Probing reg xs s
  pub known : ut.find s.trace.traces (self % 2 ^ 32) ≡ some p
  pub tracked : s.heap.traces p ≡ some t
  pub block : List ℕ
  pub held : s.heap.blocks t.buffer ≡ some block
  pub no_buffer : t.buffer ≢ s.controller.buffer
  pub no_string_buffer : t.buffer ≢ s.controller.string_buffer
  pub writes : s.world.writes ≡ s0.world.writes ++ news
  pub clock : (k : ℕ) → time_at s k ≡ time_at s0 (n + k)
  pub socket : s.controller.socket ≡ s0.controller.socket
  pub trace : s.trace ≡ s0.trace

module _ (ut : UtHash) (self : ℕ) (p : Ptr) (s0 : State) where
  -- The effect of a probe, seen from `s0`.
  pub Inside-Wrote :
      {reg reg' : Registry} {news more : List Write} {n m : ℕ} {ys : List ℕ} {s s' : State}
      (t t' : KiekerTrace)
      → Inside ut self p s0 reg news n t s
      → t'.buffer ≡ t.buffer
      → Wrote s.controller.buffer ys reg' more m (with_trace p t' s) s'
      → length ys ≡ 8192
      → Inside ut self p s0 reg' (news ++ more) (n + m) t' s'
  Inside-Wrote {m} {ys} {s} t t' i same w size = record {
    xs = ys;
    probing = Probing-Wrote (Probing-with_trace p t' i.probing) w size;
    known = ap (λ (ts : TraceState). ut.find ts.traces (self % 2 ^ 32)) w.frame.trace ∙ i.known;
    tracked =
        ap (λ (f : Ptr → Option KiekerTrace). f p) w.frame.traces
        ∙ update_self s.heap.traces p (some t');
    block = i.block;
    held = rw same (w.frame.blocks t.buffer i.no_buffer i.no_string_buffer ∙ i.held);
    no_buffer = rw (w.frame.buffer, same) i.no_buffer;
    no_string_buffer = rw (w.frame.string_buffer, same) i.no_string_buffer;
    writes = rw (w.writes, i.writes, append_assoc);
    clock =
        λ k. time_at-Wrote w k ∙ time_at-with_trace p t' s (m + k) ∙ i.clock (m + k) ∙ rw add_assoc;
    socket = w.frame.socket ∙ i.socket;
    trace = w.frame.trace ∙ i.trace;
  }

  abbrev clock0 : ℕ → ℕ
  clock0 = time_at s0

  -- One event that neither begins a trace nor ends it.
  run_event-Inside :
      {reg : Registry} {news : List Write} {n : ℕ} {t : KiekerTrace} {s : State} (e : Event)
      → Inside ut self p s0 reg news n t s
      → Stays t (e ∷ [])
      → ShortEvents (e ∷ [])
      → let fs = event_message clock0 n e t in
        Runs (run_event ut self e) s tt (
          Inside ut self p s0
            (register_fields reg fs)
            (news ++ sent s0.controller.socket reg fs)
            (n + 2)
            (counted_by e t))
  run_event-Inside {reg} {n} {t} {s} (enters c o) i (begun, _) ((fits_c, fits_o), _) =
      let r =
        before_operation_event_begun ut self (trace_get_known ut self s i.known) i.probing i.tracked
          c o fits_c fits_o begun in
      let at_0 : time_at s 0 ≡ clock0 n = i.clock 0 ∙ rw add-zero in
      record {
        final = r.final;
        run = r.run;
        post =
            rw (at_0, i.clock 1, i.socket) at
              (Inside-Wrote t (entered t) i refl r.post (length-splice i.xs 0 _ ∙ i.probing.room));
      }
  run_event-Inside {reg} {n} {t} {s} (leaves c o) i (goes_on, _) ((fits_c, fits_o), _) =
      let r =
        after_operation_event_at ut self (trace_get_known ut self s i.known) i.probing i.tracked c o
          fits_c fits_o i.block i.held i.no_buffer i.no_string_buffer in
      let (u, w, ends) = r.post in
      let more : ((left t).stack == 0) ≡ false = ground arith in
      let at_0 : time_at s 0 ≡ clock0 n = i.clock 0 ∙ rw add-zero in
      let last : r.final ≡ u = ends ∙ rw more in
      record {
        final = r.final;
        run = r.run;
        post = rw last (
            rw (at_0, i.clock 1, i.socket) at
              (Inside-Wrote t (left t) i refl w (length-splice i.xs 0 _ ∙ i.probing.room)));
      }

  run_events-Inside :
      (es : List Event) {reg : Registry} {news : List Write} {n : ℕ} {t : KiekerTrace} {s : State}
      → Inside ut self p s0 reg news n t s
      → Stays t es
      → ShortEvents es
      → Runs (run_events ut self es) s tt (
          Inside ut self p s0
            (log_registry clock0 reg n t es)
            (news ++ log clock0 s0.controller.socket reg n t es)
            (ticks n es)
            (trace_after t es))
  run_events-Inside [] {s} i stays short = record { final = s; run = refl; post = rw append-nil i }
  run_events-Inside (e ∷ es) {reg} {n} {t} i stays short =
      let (stays_e, stays_es) = Stays-cons t e es stays in
      let (short_e, short_es) = ShortEvents-cons e es short in
      let fs = event_message clock0 n e t in
      let r1 = run_event-Inside e i stays_e short_e in
      let r2 = run_events-Inside es r1.post stays_es short_es in
      record {
        final = r2.final;
        run = rw (r1.run, ◌>>=◌, ◌>>◌) r2.run;
        post = rw append_assoc at r2.post;
      }

  -- The calls of a program inside a trace.
  pub run_calls-Inside :
      {reg : Registry} {news : List Write} {n : ℕ} {t : KiekerTrace} {s : State} (calls : Calls)
      → Inside ut self p s0 reg news n t s
      → Room calls t
      → ShortNames calls
      → Runs (run_calls ut self calls) s tt (
          Inside ut self p s0
            (log_registry clock0 reg n t (events calls))
            (news ++ log clock0 s0.controller.socket reg n t (events calls))
            (ticks n (events calls))
            (advanced (2 * calls_made calls) t))
  run_calls-Inside {t} calls i room short =
      let (stays, ends) = trace_after-events calls t room in
      let r = run_events-Inside (events calls) i stays (ShortEvents-events calls short) in
      record {
        final = r.final;
        run = rw (run_calls-events ut self calls) r.run;
        post = rw ends at r.post;
      }
