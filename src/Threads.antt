-- ===== src/Threads.antt =====
-- The probes on several threads: the trace table of libkieker/monitoring/controller/kieker_trace.c
-- beside the buffers of the controller, and what has to hold of them.
pub mod Writes
pub mod Created
pub mod Removed
pub mod Bounds
pub mod Reach
pub mod Race
use kieker_lang_pack_c.Common.{ℕ, ◌≤◌, ◌<◌, List, length, some, ◌≡◌, ◌≢◌}
use kieker_lang_pack_c.Word.{CString}
use kieker_lang_pack_c.State.{Ptr, State, KiekerTrace}
use kieker_lang_pack_c.Registry.{Registry}
use kieker_lang_pack_c.Effect.{max_string}
use kieker_lang_pack_c.Trace.{UtHash}
use kieker_lang_pack_c.ProbePlain.Sending.{Probing}

-- The element at `p` of the trace table is the trace object of the thread `j`, with a buffer that is
-- neither of the controller's two.
pub record Owned (s : State) (j : ℕ) (p : Ptr) : Type 0 where
  pub trace : KiekerTrace
  pub tracked : s.heap.traces p ≡ some trace
  pub key : trace.thread_id ≡ j
  pub block : List ℕ
  pub held : s.heap.blocks trace.buffer ≡ some block
  pub old : p < s.heap.next
  pub buffer_old : trace.buffer < s.heap.next
  pub no_buffer : trace.buffer ≢ s.controller.buffer
  pub no_string_buffer : trace.buffer ≢ s.controller.string_buffer

-- The library is set up, each element of the trace table is owned by its thread, and no two threads
-- have one buffer.
pub record WellFormed (ut : UtHash) (s : State) : Type 0 where
  pub reg : Registry
  pub xs : List ℕ
  pub probing : Probing reg xs s
  pub hostname : CString
  pub named : s.controller.local_hostname ≡ some hostname
  pub fits_hostname : length hostname ≤ max_string
  pub owned : (j : ℕ) (p : Ptr) → ut.find s.trace.traces j ≡ some p → Owned s j p
  pub apart :
      (i j : ℕ) (p q : Ptr) (t u : KiekerTrace)
      → ut.find s.trace.traces i ≡ some p
      → ut.find s.trace.traces j ≡ some q
      → s.heap.traces p ≡ some t
      → s.heap.traces q ≡ some u
      → t.buffer ≡ u.buffer
      → i ≡ j
