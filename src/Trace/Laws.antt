-- ===== src/Trace/Laws.antt =====
-- How the operations on trace objects run.
use kieker_lang_pack_c.Common.{ℕ, ◌+◌, ◌%◌, ◌^◌, none, some, List, ◌≡◌, replicate}
use kieker_lang_pack_c.Word.{minus_one, increment}
use kieker_lang_pack_c.State.{Ptr, State, KiekerTrace, update}
use kieker_lang_pack_c.Exec.{◌>>=◌, ◌>>◌, the, malloc, malloc_trace, free, free_trace}
use kieker_lang_pack_c.Trace.{
  UtHash, get_next_id, trace_create, trace_find, trace_delete, get_or_create, trace_get,
  trace_remove,
}

-- A fresh trace object, of which the buffer is the next block.
abbrev pub new_trace : ℕ → State → KiekerTrace
new_trace thread_id s = record {
  trace_id = s.trace.current_id;
  order_index = minus_one;
  stack = 0;
  buffer = s.heap.next + 1;
  thread_id = thread_id;
}

module _ (ut : UtHash) where
  -- The state after a trace object was made for a thread.
  abbrev pub created : ℕ → State → State
  created thread_id s = record s {
    heap = record {
      blocks = update s.heap.blocks (s.heap.next + 1) (some (replicate 1024 0));
      traces = update s.heap.traces s.heap.next (some (new_trace thread_id s));
      next = s.heap.next + 1 + 1;
    };
    trace = record {
      traces = ut.add s.trace.traces thread_id s.heap.next;
      current_id = increment s.trace.current_id;
      lock = s.trace.lock;
    };
  }

  -- The state after a trace object was removed.
  abbrev pub removed : Ptr → KiekerTrace → State → State
  removed p t s = record s {
    heap = record (s.heap) {
      blocks = update s.heap.blocks t.buffer none;
      traces = update s.heap.traces p none;
    };
    trace = record (s.trace) { traces = ut.del s.trace.traces t.thread_id p };
  }

  pub trace_get_known :
      (self : ℕ) {p : Ptr} (s : State)
      → ut.find s.trace.traces (self % 2 ^ 32) ≡ some p
      → trace_get ut self s ≡ some (p, s)
  unfolding trace_get trace_find
  trace_get_known self s known = rw (known, get_or_create)

  pub trace_get_new :
      (self : ℕ) (s : State)
      → ut.find s.trace.traces (self % 2 ^ 32) ≡ none
      → trace_get ut self s ≡ some (s.heap.next, created (self % 2 ^ 32) s)
  unfolding trace_get trace_find get_or_create malloc_trace malloc trace_create get_next_id
  trace_get_new self s unknown = rw (unknown, get_or_create)

  pub trace_remove_run :
      (p : Ptr) {t : KiekerTrace} {block : List ℕ} (s : State)
      → s.heap.traces p ≡ some t
      → s.heap.blocks t.buffer ≡ some block
      → trace_remove ut p s ≡ some (tt, removed p t s)
  unfolding trace_remove trace_delete free free_trace
  trace_remove_run p s here block =
      rw (here, the, ◌>>=◌)
        (rw (here, the, ◌>>=◌, ◌>>◌) (rw (block, the, ◌>>=◌, ◌>>◌) (rw (here, the, ◌>>=◌))))
