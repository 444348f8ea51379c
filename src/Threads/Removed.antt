-- ===== src/Threads/Removed.antt =====
-- Taking a trace from the table keeps what is left well-formed.
use kieker_lang_pack_c.Common.{ℕ, some, none, ◌≡◌, ◌≢◌, arith, sym, ◌==◌, if◌then◌else◌}
use kieker_lang_pack_c.State.{Ptr, State, KiekerTrace}
use kieker_lang_pack_c.Trace.{UtHash}
use kieker_lang_pack_c.Trace.Laws.{removed}
use kieker_lang_pack_c.ProbePlain.Sending.{Probing-removed}
use kieker_lang_pack_c.Threads.{Owned, WellFormed}

module _ (ut : UtHash) where
  -- The trace object of a thread is taken from the table and freed.
  module _ {s : State} (wf : WellFormed ut s) (j : ℕ) (p : Ptr) (t : KiekerTrace)
      (found : ut.find s.trace.traces j ≡ some p) (tracked : s.heap.traces p ≡ some t)
      (key : t.thread_id ≡ j) where
    abbrev gone : State
    gone = removed ut p t s

    found_gone :
        (i : ℕ) → ut.find gone.trace.traces i ≡ (if j == i then none else ut.find s.trace.traces i)
    found_gone i = rw key (ut.find-del s.trace.traces j p i found)

    -- What is still in the table is another thread's.
    left_over :
        (i : ℕ) (q : Ptr)
        → ut.find gone.trace.traces i ≡ some q
        → (i ≢ j) × (ut.find s.trace.traces i ≡ some q)
    left_over i q f = (ground (arith, found_gone i), ground (arith, found_gone i))

    removed-Owned : (i : ℕ) (q : Ptr) → ut.find gone.trace.traces i ≡ some q → Owned gone i q
    removed-Owned i q f =
        let (other, there) = left_over i q f in
        let o = wf.owned i q there in
        let not_p : p ≢ q = λ e. other (ground (arith, o.tracked, o.key)) in
        let not_buffer : t.buffer ≢ o.trace.buffer =
          λ e. other (sym (wf.apart j i p q t o.trace found there tracked o.tracked e)) in
        record {
          trace = o.trace;
          tracked = ground (arith, o.tracked);
          key = o.key;
          block = o.block;
          held = ground (arith, o.held);
          old = o.old;
          buffer_old = o.buffer_old;
          no_buffer = o.no_buffer;
          no_string_buffer = o.no_string_buffer;
        }

    -- Its buffer was not one of the controller's, whose content stays.
    pub removed-WellFormed : WellFormed ut gone
    removed-WellFormed =
        let o = wf.owned j p found in
        let its : o.trace ≡ t = ground (arith, o.tracked) in
        let no_buffer : t.buffer ≢ s.controller.buffer = rw (← its) o.no_buffer in
        let no_string_buffer : t.buffer ≢ s.controller.string_buffer =
          rw (← its) o.no_string_buffer in
        record {
          reg = wf.reg;
          xs = wf.xs;
          probing = Probing-removed ut p t wf.probing no_buffer no_string_buffer;
          hostname = wf.hostname;
          named = wf.named;
          fits_hostname = wf.fits_hostname;
          owned = removed-Owned;
          apart = λ i k q r u v f_i f_k at_q at_r shared.
              let (other_i, found_i) = left_over i q f_i in
              let (other_k, found_k) = left_over k r f_k in
              let was_q : s.heap.traces q ≡ some u = ground arith in
              let was_r : s.heap.traces r ≡ some v = ground arith in
              wf.apart i k q r u v found_i found_k was_q was_r shared;
        }
