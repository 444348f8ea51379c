-- ===== src/Threads/Bounds.antt =====
-- How far the counters of the library can get in a number of calls of the probes.
use kieker_lang_pack_c.Common.{
  ℕ, ◌+◌, ◌*◌, ◌≤◌, ◌<◌, ◌%◌, ◌^◌, ◌-◌, List, length, Option, some, none, true, ◌≡◌, ◌≢◌, arith,
  ◌∙◌, sym, ap, ◌==◌, if◌then◌else◌, Bool-cases, Option-cases, inl, inr,
}
use kieker_lang_pack_c.Word.{increment, decrement}
use kieker_lang_pack_c.State.{Ptr, State, KiekerTrace, TraceState, Write}
use kieker_lang_pack_c.Registry.{Registry}
use kieker_lang_pack_c.Effect.{Wrote, with_trace}
use kieker_lang_pack_c.Fields.{Field, register_fields}
use kieker_lang_pack_c.Fields.Known.{most_known}
use kieker_lang_pack_c.Trace.{UtHash, trace_get}
use kieker_lang_pack_c.Trace.Laws.{created, new_trace, removed, trace_get_new, trace_get_known}
use kieker_lang_pack_c.ProbePlain.{entered, left}
use kieker_lang_pack_c.ProbePlain.Sending.{Probing}

-- After `n` calls: an order index is from -1 to `n` - 1, a depth from -`n` to `n`.
pub record TraceWithin (n : ℕ) (t : KiekerTrace) : Type 0 where
  pub order : (t.order_index + 1) % 2 ^ 64 ≤ n
  pub depth : (t.stack + n) % 2 ^ 64 ≤ 2 * n

-- After `n` calls, in which `m` traces at most were made: a probe makes at most 15 strings known. The
-- lock is there.
pub record Within (ut : UtHash) (n m : ℕ) (s : State) : Type 0 where
  pub strings : s.lookup.table_top ≤ 3 + 15 * n
  pub lock : s.trace.lock ≡ true
  pub id : s.trace.current_id < 10 ^ 9 * 2 ^ 8 + m
  pub counters :
      (j : ℕ) (p : Ptr) (t : KiekerTrace)
      → ut.find s.trace.traces j ≡ some p
      → s.heap.traces p ≡ some t
      → TraceWithin n t

TraceWithin-next : (n : ℕ) {t : KiekerTrace} → TraceWithin n t → TraceWithin (n + 1) t
TraceWithin-next n {t} h = record { order = omega (arith, h.order); depth = omega (arith, h.depth) }

pub entered-TraceWithin :
    (n : ℕ) {t : KiekerTrace} → TraceWithin n t → TraceWithin (n + 1) (entered t)
unfolding increment
entered-TraceWithin n {t} h = record {
  order = omega (arith, h.order);
  depth = omega (arith, h.depth);
}

pub left-TraceWithin : (n : ℕ) {t : KiekerTrace} → TraceWithin n t → TraceWithin (n + 1) (left t)
unfolding increment decrement
left-TraceWithin n {t} h = record { order = omega (arith, h.order); depth = omega (arith, h.depth) }

new_trace-TraceWithin : (n k : ℕ) (s : State) → n < 2 ^ 62 → TraceWithin n (new_trace k s)
new_trace-TraceWithin n k s few = record { order = omega arith; depth = omega (arith, few) }

module _ (ut : UtHash) (n : ℕ) (few : n < 2 ^ 62) where
  created-Within :
      (k : ℕ) {s : State}
      → ut.find s.trace.traces k ≡ none
      → Within ut n n s
      → Within ut n (n + 1) (created ut k s)
  unfolding increment
  created-Within k {s} unknown h = record {
    strings = h.strings;
    lock = h.lock;
    id = omega (arith, h.id, few);
    counters = λ j p t found tracked.
        let there = ut.find-add s.trace.traces k s.heap.next j unknown in
        elim (Bool-cases (s.heap.next == p)) [
          | inl new ↦
              let its : new_trace k s ≡ t = ground arith in
              rw its at (new_trace-TraceWithin n k s few)
          | inr other ↦ h.counters j p t (ground (arith, there)) (ground arith)
        ];
  }

  pub trace_get-Within :
      (self : ℕ) {s s0 : State} {p : Ptr}
      → trace_get ut self s ≡ some (p, s0)
      → Within ut n n s
      → Within ut n (n + 1) s0
  trace_get-Within self {s} {s0} {p} got h =
      elim (Option-cases (ut.find s.trace.traces (self % 2 ^ 32))) [
        | inl unknown ↦
            let same : created ut (self % 2 ^ 32) s ≡ s0 =
              cc (got, trace_get_new ut self s unknown) in
            rw same at (created-Within (self % 2 ^ 32) unknown h)
        | inr (q, known) ↦
            let same : s ≡ s0 = cc (got, trace_get_known ut self s known) in
            let here : Within ut n (n + 1) s = record {
              strings = h.strings;
              lock = h.lock;
              id = omega (arith, h.id);
              counters = h.counters;
            } in
            rw same at here
      ]

  -- A record of at most 15 fields, and the counters of the trace at `p`.
  pub Wrote-Within :
      (fs : List Field) {b : Ptr} {reg : Registry} {xs ys : List ℕ} {news : List Write} {m : ℕ}
      {s0 s' : State} (p : Ptr) (t' : KiekerTrace)
      → length fs ≤ 15
      → Probing reg xs s0
      → TraceWithin (n + 1) t'
      → Within ut n (n + 1) s0
      → Wrote b ys (register_fields reg fs) news m (with_trace p t' s0) s'
      → Within ut (n + 1) (n + 1) s'
  Wrote-Within fs {reg} {s0} {s'} p t' short probing next h w = record {
    strings =
        omega (arith, w.ready.table.top, probing.ready.table.top, most_known fs reg, h.strings);
    lock = ap (λ (r : TraceState). r.lock) w.frame.trace ∙ h.lock;
    id = rw w.frame.trace h.id;
    counters = λ j q t found tracked.
        let now : s'.heap.traces q ≡ (if p == q then some t' else s0.heap.traces q) =
          ap (λ (f : Ptr → Option KiekerTrace). f q) w.frame.traces in
        let before : ut.find s0.trace.traces j ≡ some q =
          ap (λ (r : TraceState). ut.find r.traces j) (sym w.frame.trace) ∙ found in
        elim (Bool-cases (p == q)) [
          | inl same ↦ let its : t' ≡ t = ground arith in rw its at next
          | inr other ↦ TraceWithin-next n (h.counters j q t before (ground arith))
        ];
  }

pub removed-Within :
    (ut : UtHash) (n m : ℕ) {s : State} (p : Ptr) (t : KiekerTrace)
    → ut.find s.trace.traces t.thread_id ≡ some p
    → Within ut n m s
    → Within ut n m (removed ut p t s)
removed-Within ut n m {s} p t found h = record {
  strings = h.strings;
  lock = h.lock;
  id = h.id;
  counters = λ j q u found_j tracked.
      let there = ut.find-del s.trace.traces t.thread_id p j found in
      h.counters j q u (ground (arith, there)) (ground arith);
}

-- No counter of the program is at the end of its range, so that none overflows when it is raised or
-- lowered by 1: the order index, the depth and the next identifier of 64 bits, and the `int` that
-- counts strings. The lock that the probes take is one.
pub record InRange (ut : UtHash) (s : State) : Type 0 where
  pub strings : s.lookup.table_top < 2 ^ 31
  pub lock : s.trace.lock ≡ true
  pub id : s.trace.current_id < 2 ^ 63 - 1
  pub counters :
      (j : ℕ) (p : Ptr) (t : KiekerTrace)
      → ut.find s.trace.traces j ≡ some p
      → s.heap.traces p ≡ some t
      → (t.order_index ≢ 2 ^ 63 - 1) × (t.stack ≢ 2 ^ 63 - 1) × (t.stack ≢ 2 ^ 63)

pub Within-InRange :
    (ut : UtHash) (n m : ℕ) {s : State} → n ≤ 2 ^ 27 → m ≤ 2 ^ 27 → Within ut n m s → InRange ut s
Within-InRange ut n m few few' h = record {
  strings = omega (arith, h.strings);
  lock = h.lock;
  id = omega (arith, h.id);
  counters = λ j p t found tracked.
      let w = h.counters j p t found tracked in
      (
        λ e. absurd (omega (arith, w.order, e)),
        λ e. absurd (omega (arith, w.depth, e)),
        λ e. absurd (omega (arith, w.depth, e)),
      );
}
