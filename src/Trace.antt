-- ===== src/Trace.antt =====
-- libkieker/monitoring/controller/kieker_trace.c: the trace object of each thread. The hash table is
-- uthash. Taking the lock around its calls has no effect on one thread and is left out.
pub mod Laws
use kieker_lang_pack_c.Common.{
  ℕ, ◌+◌, ◌*◌, ◌%◌, ◌^◌, Option, none, some, List, [], ◌∷◌, Bool, true, false, if◌then◌else◌, ◌==◌,
  ◌≡◌, refl, arith,
}
use kieker_lang_pack_c.Word.{minus_one, increment}
use kieker_lang_pack_c.State.{Ptr, State, TraceState, KiekerTrace}
use kieker_lang_pack_c.Exec.{
  Exec, pure, gets, modify, load_trace, store_trace, malloc, malloc_trace, free, free_trace, ◌>>=◌,
  ◌>>◌,
}

-- A table of uthash, as the list of its elements, each with its key.
abbrev pub Table : Type 0
Table = List (ℕ × Ptr)

-- `HASH_FIND_INT`, `HASH_ADD_INT` and `HASH_DEL`, and what uthash says of them: an element may be
-- added if its key is not in the table, and deleted if it is in the table.
pub record UtHash : Type 0 where
  pub find : Table → ℕ → Option Ptr
  pub add : Table → ℕ → Ptr → Table
  pub del : Table → ℕ → Ptr → Table
  pub find-nil : (j : ℕ) → find [] j ≡ none
  pub find-add :
      (t : Table) (k : ℕ) (p : Ptr) (j : ℕ)
      → find t k ≡ none
      → find (add t k p) j ≡ (if k == j then some p else find t j)
  pub find-del :
      (t : Table) (k : ℕ) (p : Ptr) (j : ℕ)
      → find t k ≡ some p
      → find (del t k p) j ≡ (if k == j then none else find t j)

abbrev pub set_trace : (TraceState → TraceState) → Exec (Unit {0})
set_trace f = modify (λ s. record s { trace = f s.trace })

-- `kieker_trace_get_next_id`
unfoldable pub get_next_id : Exec ℕ
get_next_id = do
  id ← gets (λ s. s.trace.current_id)
  set_trace (λ t. record t { current_id = increment t.current_id })
  pure id

-- `kieker_trace_init`, given whether the lock could be made and the number that `rand` returns.
unfoldable pub trace_init : Bool → ℕ → Exec ℕ
trace_init false random = pure 0
trace_init true random = do
  let val = random % 1000000000
  set_trace (λ t. record t { current_id = val * 2 ^ 8 % 2 ^ 64; lock = true })
  pure 1

-- `kieker_trace_finalize`
unfoldable pub trace_finalize : Exec (Unit {0})
trace_finalize = set_trace (λ t. record t { lock = false })

-- `kieker_trace_create`
unfoldable pub trace_create : Ptr → ℕ → ℕ → Exec (Unit {0})
trace_create trace thread_id trace_id = do
  buffer ← malloc 1024
  store_trace trace (
      some (record {
        trace_id = trace_id;
        order_index = minus_one;
        stack = 0;
        buffer = buffer;
        thread_id = thread_id;
      }))

module _ (ut : UtHash) where
  -- `kieker_trace_find`
  unfoldable pub trace_find : ℕ → Exec (Option Ptr)
  trace_find thread_id = gets (λ s. ut.find s.trace.traces thread_id)

  -- `kieker_trace_delete`; the key of an element of the table is its `thread_id`.
  unfoldable pub trace_delete : Ptr → Exec (Unit {0})
  trace_delete p = do
    t ← load_trace p
    set_trace (λ tr. record tr { traces = ut.del tr.traces t.thread_id p })

  -- The part of `kieker_trace_get` behind the first lock.
  unfoldable pub get_or_create : Option Ptr → ℕ → Exec Ptr
  get_or_create (some p) thread_id = pure p
  get_or_create none thread_id = do
    p ← malloc_trace
    id ← get_next_id
    trace_create p thread_id id
    set_trace (λ tr. record tr { traces = ut.add tr.traces thread_id p })
    pure p

  -- `kieker_trace_get` on the thread `self`, of which the identifier is cut to an `int`.
  unfoldable pub trace_get : ℕ → Exec Ptr
  unfolding get_or_create
  trace_get self = do
    let thread_id = self % 2 ^ 32
    found ← trace_find thread_id
    get_or_create found thread_id

  -- `kieker_trace_remove`
  unfoldable pub trace_remove : Ptr → Exec (Unit {0})
  trace_remove p = do trace_delete p; t ← load_trace p; free t.buffer; free_trace p
