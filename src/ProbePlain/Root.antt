-- ===== src/ProbePlain/Root.antt =====
-- The plain probes over a whole trace: a call on a thread that has no trace, with the calls that it
-- makes.
use native.Mathlib.Nat.{add-zero}
use kieker_lang_pack_c.Common.{
  ℕ, ◌-◌, ◌*◌, ◌≤◌, ◌<◌, ◌%◌, ◌^◌, List, [], ◌++◌, length, some, none, ◌≡◌, refl, arith,
  append_assoc, append-nil, ap, ◌∙◌, ◌==◌, if◌then◌else◌, length-splice, replicate,
}
use kieker_lang_pack_c.Word.{CString, minus_one, increment, decrement}
use kieker_lang_pack_c.State.{State, TraceState, KiekerTrace, Write}
use kieker_lang_pack_c.Exec.{◌>>=◌, ◌>>◌}
use kieker_lang_pack_c.Exec.Returns.{Runs, update_self}
use kieker_lang_pack_c.Registry.{Registry}
use kieker_lang_pack_c.Effect.{max_string}
use kieker_lang_pack_c.Fields.{Field, register_fields}
use kieker_lang_pack_c.Trace.{UtHash}
use kieker_lang_pack_c.Trace.Laws.{created, new_trace, removed, trace_get_known}
use kieker_lang_pack_c.ProbeEvents.Message.{time_at}
use kieker_lang_pack_c.ProbePlain.{entered, left, before_operation_event}
use kieker_lang_pack_c.ProbePlain.At.{first_message, after_operation_event_at}
use kieker_lang_pack_c.ProbePlain.First.{before_operation_event_new, Probing-created}
use kieker_lang_pack_c.ProbePlain.Sending.{Probing, Probing-removed, sent}
use kieker_lang_pack_c.ProbePlain.Log.{
  Calls, done, call, events, calls_made, nesting, ShortNames, leaves, event_message, log_registry,
  log, ticks, run_calls,
}
use kieker_lang_pack_c.ProbePlain.Balanced.{Room, advanced}
use kieker_lang_pack_c.ProbePlain.Session.{Inside, Inside-Wrote, run_calls-Inside}

module _ (ut : UtHash) (self : ℕ) (reg : Registry) (s : State) (c o hostname : CString)
    (inner : Calls) where
  abbrev pub fresh : KiekerTrace
  fresh = new_trace (self % 2 ^ 32) s

  abbrev base : State
  base = created ut (self % 2 ^ 32) s

  abbrev pub first : List Field
  first = first_message s fresh hostname c o

  -- What is sent for the calls inside and for the return.
  abbrev pub known_first : Registry
  known_first = register_fields reg first

  abbrev pub inner_log : List Write
  inner_log = log (time_at s) s.controller.socket known_first 3 (entered fresh) (events inner)

  abbrev pub known_inner : Registry
  known_inner = log_registry (time_at s) known_first 3 (entered fresh) (events inner)

  -- The trace when the call returns.
  abbrev pub returned : KiekerTrace
  returned = left (advanced (2 * calls_made inner) (entered fresh))

  abbrev pub last : List Field
  last =
      event_message (time_at s) (ticks 3 (events inner)) (leaves c o)
        (advanced (2 * calls_made inner) (entered fresh))

  -- The trace is over, and all its records have been sent.
  abbrev pub Ended : State → Type 0
  Ended s' =
      (ys : List ℕ) × Probing (register_fields known_inner last) ys s'
      × (s'.heap.traces s.heap.next ≡ none)
      × ((j : ℕ) → ut.find s'.trace.traces j ≡ ut.find s.trace.traces j)
      × (s'.world.writes
          ≡ s.world.writes
            ++ (sent s.controller.socket reg first
                ++ (inner_log ++ sent s.controller.socket known_inner last)))

  module _ {xs : List ℕ} (probing : Probing reg xs s) (fits_c : length c ≤ max_string)
      (fits_o : length o ≤ max_string) (short : ShortNames inner)
      (named : s.controller.local_hostname ≡ some hostname)
      (fits_hostname : length hostname ≤ max_string)
      (unknown : ut.find s.trace.traces (self % 2 ^ 32) ≡ none)
      (few : 2 * calls_made inner < minus_one) (deep : nesting inner < 2 ^ 32 - 1) where
    entered-Room : Room inner (entered fresh)
    unfolding increment
    entered-Room = record {
      deep = omega arith;
      depth = omega (arith, deep);
      indices = omega (arith, few);
    }

    -- The trace that the probe makes.
    start-Inside : Inside ut self s.heap.next base reg [] 0 fresh base
    start-Inside =
        let created_probing = Probing-created ut (self % 2 ^ 32) probing in
        record {
          xs = xs;
          probing = created_probing;
          known = ground (
            arith,
            ut.find-add s.trace.traces (self % 2 ^ 32) s.heap.next (self % 2 ^ 32) unknown,
          );
          tracked = update_self s.heap.traces s.heap.next (some fresh);
          block = replicate 1024 0;
          held = ground arith;
          no_buffer = omega (arith, probing.buffer_old);
          no_string_buffer = omega (arith, probing.string_buffer_old);
          writes = rw append-nil;
          clock = λ k. ap (time_at base) (omega arith);
          socket = refl;
          trace = refl;
        }

    first-Inside : Runs (before_operation_event ut self c o) s tt (
        Inside ut self s.heap.next base
          (register_fields reg first)
          (sent s.controller.socket reg first)
          3
          (entered fresh))
    first-Inside =
        let r =
          before_operation_event_new ut self probing c o hostname fits_c fits_o named fits_hostname
            unknown in
        record {
          final = r.final;
          run = r.run;
          post =
              Inside-Wrote ut self s.heap.next base fresh (entered fresh) start-Inside refl r.post
                (length-splice xs 0 _ ∙ probing.room);
        }

    returned-stack : returned.stack ≡ 0
    unfolding increment decrement
    returned-stack = refl

    -- The table of traces is as it was before the trace was made.
    found_again :
        (u : State)
        → u.trace ≡ base.trace
        → (j : ℕ)
        → ut.find (removed ut s.heap.next returned u).trace.traces j ≡ ut.find s.trace.traces j
    found_again u same j =
        let k = self % 2 ^ 32 in
        let p = s.heap.next in
        let ts = ut.add s.trace.traces k p in
        let there : (i : ℕ) → ut.find ts i ≡ (if k == i then some p else ut.find s.trace.traces i) =
          λ i. ut.find-add s.trace.traces k p i unknown in
        let away : ut.find (ut.del ts k p) j ≡ (if k == j then none else ut.find ts j) =
          ut.find-del ts k p j (ground (arith, there k)) in
        ap (λ (r : TraceState). ut.find (ut.del r.traces k p) j) same
        ∙ ground (arith, away, there j)

    pub run_calls_session : Runs (run_calls ut self (call c o inner done)) s tt Ended
    unfolding run_calls time_at
    run_calls_session =
        let p = s.heap.next in
        let r1 = first-Inside in
        let r2 = run_calls-Inside ut self p base inner r1.post entered-Room short in
        let i2 = r2.post in
        let r3 =
          after_operation_event_at ut self (trace_get_known ut self r2.final i2.known) i2.probing
            i2.tracked c o fits_c fits_o i2.block i2.held i2.no_buffer i2.no_string_buffer in
        let (u, w, ends) = r3.post in
        let i3 =
          Inside-Wrote ut self p base (advanced (2 * calls_made inner) (entered fresh)) returned i2
            refl w (length-splice i2.xs 0 _ ∙ i2.probing.room) in
        let at_0 : time_at r2.final 0 ≡ time_at base (ticks 3 (events inner)) =
          i2.clock 0 ∙ rw add-zero in
        let i4 = rw (at_0, i2.clock 1, i2.socket) at i3 in
        let gone : r3.final ≡ removed ut p returned u = ends ∙ rw returned-stack in
        record {
          final = r3.final;
          run = rw (r1.run, ◌>>=◌, ◌>>◌) (rw (r2.run, ◌>>=◌, ◌>>◌) (rw (r3.run, ◌>>=◌, ◌>>◌)));
          post = rw gone (
            i4.xs,
            Probing-removed ut p returned i4.probing i4.no_buffer i4.no_string_buffer,
            ground arith,
            λ j. found_again u i4.trace j,
            i4.writes ∙ rw (append_assoc, append_assoc),
          );
        }
