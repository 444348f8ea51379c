-- ===== src/Threads/Created.antt =====
-- Asking for the trace of a thread keeps the trace table and the buffers well-formed.
use kieker_lang_pack_c.Common.{
  ℕ, ◌+◌, ◌<◌, ◌%◌, ◌^◌, some, none, ◌≡◌, arith, ◌∙◌, sym, ◌==◌, if◌then◌else◌, Bool-cases,
  Option-cases, inl, inr, ◌⊎◌, replicate,
}
use kieker_lang_pack_c.State.{Ptr, State, KiekerTrace}
use kieker_lang_pack_c.Trace.{UtHash, trace_get}
use kieker_lang_pack_c.Trace.Laws.{created, new_trace, trace_get_new, trace_get_known}
use kieker_lang_pack_c.ProbePlain.First.{Probing-created}
use kieker_lang_pack_c.Threads.{Owned, WellFormed}

module _ (ut : UtHash) where
  -- A new trace object for a thread that has none.
  module _ {s : State} (wf : WellFormed ut s) (k : ℕ)
      (unknown : ut.find s.trace.traces k ≡ none) where
    abbrev made : State
    made = created ut k s

    find_now :
        (j : ℕ)
        → ut.find made.trace.traces j
          ≡ (if k == j then some s.heap.next else ut.find s.trace.traces j)
    find_now j = ut.find-add s.trace.traces k s.heap.next j unknown

    pub created-found : ut.find made.trace.traces k ≡ some s.heap.next
    created-found = ground (arith, find_now k)

    created-Owned : (j : ℕ) (q : Ptr) → ut.find made.trace.traces j ≡ some q → Owned made j q
    created-Owned j q found = elim (Bool-cases (k == j)) [
      | inl new ↦
          let at : s.heap.next ≡ q = ground (arith, find_now j) in
          record {
            trace = new_trace k s;
            tracked = ground arith;
            key = ground arith;
            block = replicate 1024 0;
            held = ground arith;
            old = omega arith;
            buffer_old = omega arith;
            no_buffer = omega (arith, wf.probing.buffer_old);
            no_string_buffer = omega (arith, wf.probing.string_buffer_old);
          }
      | inr other ↦
          let o = wf.owned j q (ground (arith, find_now j)) in
          record {
            trace = o.trace;
            tracked = ground (arith, o.tracked, o.old);
            key = o.key;
            block = o.block;
            held = ground (arith, o.held, o.buffer_old);
            old = omega (arith, o.old);
            buffer_old = omega (arith, o.buffer_old);
            no_buffer = o.no_buffer;
            no_string_buffer = o.no_string_buffer;
          }
    ]

    -- The trace objects that were there are those of the other threads.
    buffer_of :
        (j : ℕ) (q : Ptr) (u : KiekerTrace)
        → ut.find made.trace.traces j ≡ some q
        → made.heap.traces q ≡ some u
        → ((j ≡ k) × (u.buffer ≡ s.heap.next + 1))
          ⊎ ((ut.find s.trace.traces j ≡ some q)
              × (s.heap.traces q ≡ some u)
              × (u.buffer < s.heap.next))
    buffer_of j q u found tracked = elim (Bool-cases (k == j)) [
      | inl new ↦
          let at : s.heap.next ≡ q = ground (arith, find_now j) in inl (ground arith, ground arith)
      | inr other ↦
          let found0 : ut.find s.trace.traces j ≡ some q = ground (arith, find_now j) in
          let o = wf.owned j q found0 in
          let here : s.heap.traces q ≡ some u = ground (arith, o.old) in
          inr (found0, here, ground (arith, o.tracked, o.buffer_old))
    ]

    pub created-WellFormed : WellFormed ut made
    created-WellFormed = record {
      reg = wf.reg;
      xs = wf.xs;
      probing = Probing-created ut k wf.probing;
      hostname = wf.hostname;
      named = wf.named;
      fits_hostname = wf.fits_hostname;
      owned = created-Owned;
      apart = λ i j p q t u found_p found_q at_p at_q shared. elim (buffer_of i p t found_p at_p) [
        | inl (new_i, buffer_i) ↦ elim (buffer_of j q u found_q at_q) [
          | inl (new_j, buffer_j) ↦ new_i ∙ sym new_j
          | inr (found_j, at_j, old_j) ↦ absurd (omega arith)
        ]
        | inr (found_i, at_i, old_i) ↦ elim (buffer_of j q u found_q at_q) [
          | inl (new_j, buffer_j) ↦ absurd (omega arith)
          | inr (found_j, at_j, old_j) ↦ wf.apart i j p q t u found_i found_j at_i at_j shared
        ]
      ];
    }

  -- The state of the table once a thread has asked for its trace.
  pub trace_get-WellFormed :
      {s : State} (self : ℕ)
      → WellFormed ut s
      → (p : Ptr) × (s0 : State) × (trace_get ut self s ≡ some (p, s0))
        × (ut.find s0.trace.traces (self % 2 ^ 32) ≡ some p)
        × WellFormed ut s0
  trace_get-WellFormed {s} self wf = elim (Option-cases (ut.find s.trace.traces (self % 2 ^ 32))) [
    | inl unknown ↦ (
      s.heap.next,
      created ut (self % 2 ^ 32) s,
      trace_get_new ut self s unknown,
      created-found wf (self % 2 ^ 32) unknown,
      created-WellFormed wf (self % 2 ^ 32) unknown,
    )
    | inr (p, known) ↦ (p, s, trace_get_known ut self s known, known, wf)
  ]
