-- ===== src/State.antt =====
-- The state of the library in one process: the heap, the three groups of global variables, and what
-- the operating system does and sees.
use kieker_lang_pack_c.Common.{ℕ, Bool, Option, List, ◌==◌, if◌then◌else◌}
use kieker_lang_pack_c.Word.{CString}

-- An address of the heap; the null pointer is 0.
abbrev pub Ptr : Type 0
Ptr = ℕ

-- A finite map from addresses, as a function.
abbrev pub update {ℓ} : {A : Type ℓ} → (Ptr → Option A) → Ptr → Option A → Ptr → Option A
update f p v q = if p == q then v else f q

-- `kieker_trace_t`; the links of the hash table belong to the table (`hh`).
pub record KiekerTrace : Type 0 where
  pub trace_id : ℕ
  pub order_index : ℕ
  pub stack : ℕ
  pub buffer : Ptr
  pub thread_id : ℕ

-- `blocks` holds the buffers and `traces` the trace objects; `next` is the next fresh address.
pub record Heap : Type 0 where
  pub blocks : Ptr → Option (List ℕ)
  pub traces : Ptr → Option KiekerTrace
  pub next : Ptr

-- `enum kieker_init_states`
pub data InitState : Type 0 where
  unconfigured configured failed : InitState

-- `kieker_controller_state_t`; a `char *` that is only read is its string, `none` if it is NULL.
pub record ControllerState : Type 0 where
  pub socket : ℕ
  pub offset : ℕ
  pub error : ℕ
  pub init_state : InitState
  pub buffer : Ptr
  pub string_buffer : Ptr
  pub local_hostname : Option CString
  pub remote_hostname : Option CString
  pub remote_port : ℕ
  pub event_types_filename : Option CString

-- `kieker_lookup_string_list`, `kieker_lookup_table_max` and `kieker_lookup_table_top`. A slot that
-- `realloc` added and nothing has filled holds `none`.
pub record LookupState : Type 0 where
  pub string_list : List (Option CString)
  pub table_max : ℕ
  pub table_top : ℕ

-- `kieker_traces`, as the list of its elements with their keys, `kieker_trace_current_id`, and whether
-- `kieker_trace_hash_lock` is a lock: it has been made and not been destroyed.
pub record TraceState : Type 0 where
  pub traces : List (ℕ × Ptr)
  pub current_id : ℕ
  pub lock : Bool

pub record Timeval : Type 0 where
  pub tv_sec : ℕ
  pub tv_usec : ℕ

-- One call of `write` that the library made.
pub record Write : Type 0 where
  pub socket : ℕ
  pub bytes : List ℕ

-- `time_of_day n` is what the n-th call of `gettimeofday` gives, and `write_errno n` the error with
-- which the n-th call of `write` returns -1, or `none`. `writes` are the calls made so far,
-- and `closed` the handles that have been handed to `close`.
pub record World : Type 0 where
  pub time_of_day : ℕ → Timeval
  pub clock_reads : ℕ
  pub write_errno : ℕ → Option ℕ
  pub writes : List Write
  pub closed : List ℕ

pub record State : Type 0 where
  pub heap : Heap
  pub controller : ControllerState
  pub lookup : LookupState
  pub trace : TraceState
  pub world : World
