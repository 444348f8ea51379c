-- ===== src/Threads/Writes.antt =====
-- What a probe writes keeps the trace table and the buffers well-formed.
use kieker_lang_pack_c.Common.{
  ℕ, ◌<◌, List, length, Option, some, ◌≡◌, refl, arith, ◌∙◌, sym, ap, ◌==◌, if◌then◌else◌,
  Bool-cases, inl, inr,
}
use kieker_lang_pack_c.State.{Ptr, State, KiekerTrace, TraceState, Write}
use kieker_lang_pack_c.Registry.{Registry}
use kieker_lang_pack_c.Effect.{Wrote, with_trace}
use kieker_lang_pack_c.Trace.{UtHash}
use kieker_lang_pack_c.ProbePlain.Sending.{Probing-with_trace, Probing-Wrote}
use kieker_lang_pack_c.Threads.{Owned, WellFormed}

module _ (ut : UtHash) where
  -- A probe counts in the trace of its thread and writes.
  module _ {s0 s' : State} {ys : List ℕ} {reg : Registry} {news : List Write} {n : ℕ} (p : Ptr)
      (t t' : KiekerTrace) (wf : WellFormed ut s0) (tracked : s0.heap.traces p ≡ some t)
      (same_buffer : t'.buffer ≡ t.buffer) (same_thread : t'.thread_id ≡ t.thread_id)
      (w : Wrote s0.controller.buffer ys reg news n (with_trace p t' s0) s')
      (size : length ys ≡ 8192) where
    found_before :
        {j : ℕ} {q : Ptr} → ut.find s'.trace.traces j ≡ some q → ut.find s0.trace.traces j ≡ some q
    found_before {j} found =
        ap (λ (ts : TraceState). ut.find ts.traces j) (sym w.frame.trace) ∙ found

    traces_now : (q : Ptr) → s'.heap.traces q ≡ (if p == q then some t' else s0.heap.traces q)
    traces_now q = ap (λ (f : Ptr → Option KiekerTrace). f q) w.frame.traces

    -- A trace object has the buffer that it had.
    tracked_before :
        (q : Ptr) (u : KiekerTrace)
        → s'.heap.traces q ≡ some u
        → (u0 : KiekerTrace) × (s0.heap.traces q ≡ some u0) × (u.buffer ≡ u0.buffer)
    tracked_before q u e = elim (Bool-cases (p == q)) [
      | inl same ↦ (t, ground (arith, tracked), ground (arith, traces_now q))
      | inr other ↦ (u, ground (arith, traces_now q), refl)
    ]

    Wrote-Owned : (j : ℕ) (q : Ptr) → ut.find s'.trace.traces j ≡ some q → Owned s' j q
    Wrote-Owned j q found =
        let o = wf.owned j q (found_before found) in
        let block_now : s'.heap.blocks o.trace.buffer ≡ some o.block =
          w.frame.blocks o.trace.buffer o.no_buffer o.no_string_buffer ∙ o.held in
        let old : q < s'.heap.next = rw w.frame.next o.old in
        elim (Bool-cases (p == q)) [
          | inl same ↦
              let its : o.trace ≡ t = ground (arith, o.tracked) in
              record {
                trace = t';
                tracked = ground (arith, traces_now q);
                key = ground (arith, o.key);
                block = o.block;
                held = rw (same_buffer, ← its) block_now;
                old = old;
                buffer_old = rw (w.frame.next, same_buffer, ← its) o.buffer_old;
                no_buffer = rw (w.frame.buffer, same_buffer, ← its) o.no_buffer;
                no_string_buffer =
                    rw (w.frame.string_buffer, same_buffer, ← its) o.no_string_buffer;
              }
          | inr other ↦ record {
            trace = o.trace;
            tracked = ground (arith, traces_now q, o.tracked);
            key = o.key;
            block = o.block;
            held = block_now;
            old = old;
            buffer_old = rw w.frame.next o.buffer_old;
            no_buffer = rw w.frame.buffer o.no_buffer;
            no_string_buffer = rw w.frame.string_buffer o.no_string_buffer;
          }
        ]

    pub Wrote-WellFormed : WellFormed ut s'
    Wrote-WellFormed = record {
      reg = reg;
      xs = ys;
      probing = Probing-Wrote (Probing-with_trace p t' wf.probing) w size;
      hostname = wf.hostname;
      named = w.frame.local_hostname ∙ wf.named;
      fits_hostname = wf.fits_hostname;
      owned = Wrote-Owned;
      apart = λ i j q r u v found_i found_j at_q at_r shared.
          let (u0, before_q, same_u) = tracked_before q u at_q in
          let (v0, before_r, same_v) = tracked_before r v at_r in
          wf.apart i j q r u0 v0 (found_before found_i) (found_before found_j) before_q before_r
            (sym same_u ∙ shared ∙ same_v);
    }
