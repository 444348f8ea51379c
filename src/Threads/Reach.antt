-- ===== src/Threads/Reach.antt =====
-- Sequences of probe calls by any threads, one call at a time.
use kieker_lang_pack_c.Common.{
  ℕ, ◌+◌, ◌<◌, ◌≤◌, ◌%◌, ◌^◌, length, Option, some, none, true, ◌≡◌, refl, arith, ◌==◌, Bool-cases,
  inl, inr, length-splice, ap, ◌∙◌, [],
}
use kieker_lang_pack_c.Word.{CString, minus_one}
use kieker_lang_pack_c.State.{Ptr, State, KiekerTrace, TraceState, unconfigured}
use kieker_lang_pack_c.Exec.{Exec}
use kieker_lang_pack_c.Exec.Returns.{Runs, update_self}
use kieker_lang_pack_c.Effect.{Represents, max_string}
use kieker_lang_pack_c.Trace.{UtHash}
use kieker_lang_pack_c.ProbePlain.{entered, left, before_operation_event, after_operation_event}
use kieker_lang_pack_c.ProbePlain.At.{
  first_message, before_operation_event_begun, before_operation_event_metadata,
  after_operation_event_at,
}
use kieker_lang_pack_c.Setup.{Process, initialize}
use kieker_lang_pack_c.Setup.Types.{event_types}
use kieker_lang_pack_c.Setup.Start.{initialize-locked}
use kieker_lang_pack_c.Threads.{WellFormed}
use kieker_lang_pack_c.Threads.Writes.{Wrote-WellFormed}
use kieker_lang_pack_c.Threads.Created.{trace_get-WellFormed}
use kieker_lang_pack_c.Threads.Removed.{removed-WellFormed}
use kieker_lang_pack_c.Threads.Bounds.{
  Within, TraceWithin, InRange, Within-InRange, entered-TraceWithin, left-TraceWithin,
  trace_get-Within, Wrote-Within, removed-Within,
}
use kieker_lang_pack_c.ProbeEvents.Message.{time_at}
use kieker_lang_pack_c.ProbeEvents.Events.{before_message, after_message}

-- A call of one of the two probes on a thread, with the names of the class and the operation.
pub data Call : Type 0 where
  before after : ℕ → CString → CString → Call

abbrev pub Short : Call → Type 0
Short (before self c o) = (length c ≤ max_string) × (length o ≤ max_string)
Short (after self c o) = (length c ≤ max_string) × (length o ≤ max_string)

module _ (ut : UtHash) where
  abbrev pub run_call : Call → Exec (Unit {0})
  run_call (before self c o) = before_operation_event ut self c o
  run_call (after self c o) = after_operation_event ut self c o

  -- A call keeps what has to hold, and the counters within the bounds of one call more.
  Kept : State → State → Type 0
  Kept s s' =
      WellFormed ut s' × ((n : ℕ) → n < 2 ^ 62 → Within ut n n s → Within ut (n + 1) (n + 1) s')

  before-Kept :
      {s : State} (self : ℕ) (c o : CString)
      → length c ≤ max_string
      → length o ≤ max_string
      → WellFormed ut s
      → Runs (before_operation_event ut self c o) s tt (Kept s)
  unfolding Kept
  before-Kept {s} self c o fits_c fits_o wf =
      let (p, s0, got, found, wf0) = trace_get-WellFormed ut self wf in
      let own = wf0.owned (self % 2 ^ 32) p found in
      let t = own.trace in
      let within : (n : ℕ) → n < 2 ^ 62 → Within ut n n s → TraceWithin (n + 1) (entered t) =
        λ n few h.
          entered-TraceWithin n (
            (trace_get-Within ut n few self got h).counters (self % 2 ^ 32) p t found
              own.tracked) in
      elim (Bool-cases (t.order_index == minus_one)) [
        | inl new ↦
            let r =
              before_operation_event_metadata ut self got wf0.probing own.tracked c o fits_c fits_o
                wf0.hostname wf0.named wf0.fits_hostname (ground arith) in
            record {
              final = r.final;
              run = r.run;
              post = (
                Wrote-WellFormed ut p t (entered t) wf0 own.tracked refl refl r.post
                    (length-splice wf0.xs 0 _ ∙ wf0.probing.room),
                λ n few h.
                    Wrote-Within ut n few (first_message s0 t wf0.hostname c o) p (entered t)
                      (omega arith) wf0.probing (within n few h)
                      (trace_get-Within ut n few self got h) r.post,
              );
            }
        | inr begun ↦
            let r =
              before_operation_event_begun ut self got wf0.probing own.tracked c o fits_c fits_o
                (ground arith) in
            record {
              final = r.final;
              run = r.run;
              post = (
                Wrote-WellFormed ut p t (entered t) wf0 own.tracked refl refl r.post
                    (length-splice wf0.xs 0 _ ∙ wf0.probing.room),
                λ n few h.
                    Wrote-Within ut n few
                      (before_message (time_at s0 0) (time_at s0 1) (entered t) c o) p (entered t)
                      (omega arith) wf0.probing (within n few h)
                      (trace_get-Within ut n few self got h) r.post,
              );
            }
      ]

  after-Kept :
      {s : State} (self : ℕ) (c o : CString)
      → length c ≤ max_string
      → length o ≤ max_string
      → WellFormed ut s
      → Runs (after_operation_event ut self c o) s tt (Kept s)
  unfolding Kept
  after-Kept {s} self c o fits_c fits_o wf =
      let (p, s0, got, found, wf0) = trace_get-WellFormed ut self wf in
      let k = self % 2 ^ 32 in
      let own = wf0.owned k p found in
      let t = own.trace in
      let r =
        after_operation_event_at ut self got wf0.probing own.tracked c o fits_c fits_o own.block
          own.held own.no_buffer own.no_string_buffer in
      let (u, w, ends) = r.post in
      let wf1 =
        Wrote-WellFormed ut p t (left t) wf0 own.tracked refl refl w
          (length-splice wf0.xs 0 _ ∙ wf0.probing.room) in
      let there : ut.find u.trace.traces k ≡ some p =
        ap (λ (ts : TraceState). ut.find ts.traces k) w.frame.trace ∙ found in
      let here : u.heap.traces p ≡ some (left t) =
        ap (λ (f : Ptr → Option KiekerTrace). f p) w.frame.traces
        ∙ update_self s0.heap.traces p (some (left t)) in
      let within : (n : ℕ) → n < 2 ^ 62 → Within ut n n s → Within ut (n + 1) (n + 1) u = λ n few h.
        let h0 = trace_get-Within ut n few self got h in
        Wrote-Within ut n few (after_message (time_at s0 0) (time_at s0 1) (left t) c o) p (left t)
          (omega arith) wf0.probing (left-TraceWithin n (h0.counters k p t found own.tracked)) h0
          w in
      record {
        final = r.final;
        run = r.run;
        post = elim (Bool-cases ((left t).stack == 0)) [
          | inl last ↦
              rw (ends, last)
                (
                  removed-WellFormed ut wf1 k p (left t) there here own.key,
                  λ n few h.
                      removed-Within ut (n + 1) (n + 1) p (left t) (rw own.key there)
                        (within n few h),
                )
          | inr more ↦ rw (ends, more) (wf1, within)
        ];
      }

  run_call-Kept :
      {s : State} (c : Call) → Short c → WellFormed ut s → Runs (run_call c) s tt (Kept s)
  run_call-Kept (before self c o) (fits_c, fits_o) wf = before-Kept self c o fits_c fits_o wf
  run_call-Kept (after self c o) (fits_c, fits_o) wf = after-Kept self c o fits_c fits_o wf

  -- The states after an initialisation of the library in `s0` and any calls of the probes.
  pub data Reach (os : Process) (s0 : State) : State → Type 0 where
    initialised : {s : State} → initialize os s0 ≡ some (tt, s) → Reach os s0 s
    called :
        {s s' : State} (c : Call)
        → Reach os s0 s
        → Short c
        → run_call c s ≡ some (tt, s')
        → Reach os s0 s'

  -- The number of the calls.
  abbrev pub calls : {os : Process} {s0 s : State} → Reach os s0 s → ℕ
  calls (initialised e) = 0
  calls (called c r short e) = calls r + 1

  same_end :
      {s : State} {P : State → Type 0} {m : Exec (Unit {0})} {s' : State}
      → Runs m s tt P
      → m s ≡ some (tt, s')
      → P s'
  same_end {s'} r e = let ends : r.final ≡ s' = cc (r.run, e) in rw (← ends) r.post

  module _ (os : Process) (s0 : State) {name : CString}
      (unused : s0.controller.init_state ≡ unconfigured) (empty : Represents s0.lookup [])
      (no_traces : s0.trace.traces ≡ []) (named : os.gethostname ≡ some name)
      (fits_name : length name ≤ max_string) (made : os.rwlock_init ≡ true) where
    start-WellFormed :
        Runs (initialize os) s0 tt (λ s. WellFormed ut s × (os.atexit ≡ true → Within ut 0 0 s))
    start-WellFormed =
        let r = initialize-locked os s0 unused empty named made in
        let (block, probing, hostname, socket, writes, clock, traces, lock, id) = r.post in
        let nothing : (j : ℕ) → ut.find r.final.trace.traces j ≡ none =
          λ j. ap (λ t. ut.find t j) (traces ∙ no_traces) ∙ ut.find-nil j in
        record {
          final = r.final;
          run = r.run;
          post = (
            record {
              reg = event_types;
              xs = block;
              probing = probing;
              hostname = name;
              named = hostname;
              fits_hostname = fits_name;
              owned = λ j p found. absurd (ground (arith, nothing j));
              apart = λ i j p q t u found_i found_j at_p at_q shared.
                  absurd (ground (arith, nothing i));
            },
            λ e. record {
              strings = omega (arith, probing.ready.table.top);
              lock = lock e;
              id = omega (arith, id);
              counters = λ j p t found tracked. absurd (ground (arith, nothing j));
            },
          );
        }

    -- After an initialisation that succeeds on a library that is not configured and has no
    -- strings and no traces, on a host whose name has at most 8180 bytes and where the lock can
    -- be made, and after any calls of the two probes, by any threads one call at a time, in any
    -- order and number, balanced or not, with names of at most 8180 bytes: the library is set up,
    -- each element of the trace table is a trace object that exists, has the number of its thread
    -- and a buffer that exists and is neither of the controller's, and two threads never have the
    -- same buffer.
    pub Reach-WellFormed : {s : State} → Reach os s0 s → WellFormed ut s
    unfolding Kept
    Reach-WellFormed (initialised e) = (same_end start-WellFormed e).0
    Reach-WellFormed (called c r short e) =
        (same_end (run_call-Kept c short (Reach-WellFormed r)) e).0

    module _ (registered : os.atexit ≡ true) where
      Reach-Within :
          {s : State} (r : Reach os s0 s) → calls r < 2 ^ 62 → Within ut (calls r) (calls r) s
      unfolding Kept
      Reach-Within (initialised e) few = (same_end start-WellFormed e).1 registered
      Reach-Within (called c r short e) few =
          (same_end (run_call-Kept c short (Reach-WellFormed r)) e).1 (calls r) (omega (arith, few))
            (Reach-Within r (omega (arith, few)))

      -- In every state that is reached by an initialisation, for which `atexit` succeeds, on a
      -- library that is not configured and has no strings and no traces, on a host whose name has
      -- at most 8180 bytes and where the lock can be made, and then by fewer than 2^27 calls of
      -- the two plain probes by any threads, one call at a time, with names of at most 8180
      -- bytes: each further call of a probe on any thread, with names of at most 8180 bytes,
      -- returns without an access to memory that is freed or outside of a block, also when a
      -- `write` fails or a return is reported without its call; before and after it the lock of
      -- the trace table is one, fewer than 2^31 strings are known, and neither the next
      -- identifier nor the order index or the depth of a trace in the table is at the end of its
      -- signed range, so that raising or lowering it by 1 does not overflow.
      pub Reach-runs :
          {s : State} (c : Call) (r : Reach os s0 s)
          → Short c
          → calls r < 2 ^ 27
          → (s' : State) × (run_call c s ≡ some (tt, s'))
            × Reach os s0 s'
            × InRange ut s
            × InRange ut s'
      unfolding Kept
      Reach-runs {s} c r short few =
          let step = run_call-Kept c short (Reach-WellFormed r) in
          let h = Reach-Within r (omega (arith, few)) in
          let h' = step.post.1 (calls r) (omega (arith, few)) h in
          (
            step.final,
            step.run,
            called c r short step.run,
            Within-InRange ut (calls r) (calls r) (omega (arith, few)) (omega (arith, few)) h,
            Within-InRange ut (calls r + 1) (calls r + 1) (omega (arith, few)) (omega (arith, few))
                h',
          )
