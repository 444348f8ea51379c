-- ===== src/Effect.antt =====
-- What serializing into a block does to the state, in terms of the registry of strings: the
-- relations that the proofs about the lookup table, the serializers and the probes share.
use kieker_lang_pack_c.Common.{
  ℕ, ◌+◌, Option, some, List, [], ◌++◌, map, length, ◌≡◌, ◌≢◌, refl, ap, arith, append_assoc,
  append-nil, ◌∙◌,
}
use kieker_lang_pack_c.Word.{CString}
use kieker_lang_pack_c.Registry.{Registry}
use kieker_lang_pack_c.State.{Ptr, State, LookupState, Write, KiekerTrace, update}

-- `s` with the trace object `t` at `p`.
abbrev pub with_trace : Ptr → KiekerTrace → State → State
with_trace p t s = record s { heap = record (s.heap) { traces = update s.heap.traces p (some t) } }

-- The slots in use hold the registry, in order, and the counters fit.
pub record Represents (l : LookupState) (reg : Registry) : Type 0 where
  pub slack : List (Option CString)
  pub slots : l.string_list ≡ map some reg ++ slack
  pub top : l.table_top ≡ length reg
  pub limit : l.table_max ≡ length l.string_list

-- The size of `string_buffer`, and the longest string that fits behind the three numbers before it.
abbrev pub string_buffer_size : ℕ
string_buffer_size = 8192

abbrev pub max_string : ℕ
max_string = 8180

-- The library is set up: it has a string buffer and a table that holds the registry.
pub record Ready (reg : Registry) (s : State) : Type 0 where
  pub table : Represents s.lookup reg
  pub string_block : List ℕ
  pub string_holds : s.heap.blocks s.controller.string_buffer ≡ some string_block
  pub string_room : length string_block ≡ string_buffer_size

-- What serializing into the block at `b` leaves as it was. It may change the block at `b`, the
-- string buffer, the table of strings, and what a failed `write` sets.
pub record Frame (b : Ptr) (s s' : State) : Type 0 where
  pub blocks :
      (q : Ptr) → q ≢ b → q ≢ s.controller.string_buffer → s'.heap.blocks q ≡ s.heap.blocks q
  pub traces : s'.heap.traces ≡ s.heap.traces
  pub next : s'.heap.next ≡ s.heap.next
  pub trace : s'.trace ≡ s.trace
  pub socket : s'.controller.socket ≡ s.controller.socket
  pub buffer : s'.controller.buffer ≡ s.controller.buffer
  pub string_buffer : s'.controller.string_buffer ≡ s.controller.string_buffer
  pub offset : s'.controller.offset ≡ s.controller.offset
  pub local_hostname : s'.controller.local_hostname ≡ s.controller.local_hostname
  pub time_of_day : s'.world.time_of_day ≡ s.world.time_of_day
  pub write_errno : s'.world.write_errno ≡ s.world.write_errno

-- From `s` to `s'` the block at `b` came to hold `block`, the registry became `reg`, the messages
-- `news` were sent and the clock was read `ticks` times.
pub record Wrote (b : Ptr) (block : List ℕ) (reg : Registry) (news : List Write) (ticks : ℕ)
    (s s' : State) : Type 0 where
  pub ready : Ready reg s'
  pub holds : s'.heap.blocks b ≡ some block
  pub writes : s'.world.writes ≡ s.world.writes ++ news
  pub clock : s'.world.clock_reads ≡ s.world.clock_reads + ticks
  pub frame : Frame b s s'

pub Frame-refl : (b : Ptr) (s : State) → Frame b s s
Frame-refl b s = record {
  blocks = λ q _ _. refl;
  traces = refl;
  next = refl;
  trace = refl;
  socket = refl;
  buffer = refl;
  string_buffer = refl;
  offset = refl;
  local_hostname = refl;
  time_of_day = refl;
  write_errno = refl;
}

pub Frame-trans : {b : Ptr} {s t u : State} → Frame b s t → Frame b t u → Frame b s u
Frame-trans f g = record {
  blocks = λ q h k. ground (arith, f.blocks q, g.blocks q);
  traces = g.traces ∙ f.traces;
  next = g.next ∙ f.next;
  trace = g.trace ∙ f.trace;
  socket = g.socket ∙ f.socket;
  buffer = g.buffer ∙ f.buffer;
  string_buffer = g.string_buffer ∙ f.string_buffer;
  offset = g.offset ∙ f.offset;
  local_hostname = g.local_hostname ∙ f.local_hostname;
  time_of_day = g.time_of_day ∙ f.time_of_day;
  write_errno = g.write_errno ∙ f.write_errno;
}

pub Wrote-refl :
    {b : Ptr} {block : List ℕ} {reg : Registry} {s : State}
    → Ready reg s
    → s.heap.blocks b ≡ some block
    → Wrote b block reg [] 0 s s
Wrote-refl {b} {s} ready holds = record {
  ready = ready;
  holds = holds;
  writes = rw append-nil;
  clock = omega arith;
  frame = Frame-refl b s;
}

pub Wrote-trans :
    {b : Ptr} {block block' : List ℕ} {reg reg' : Registry} {news news' : List Write} {m n : ℕ}
    {s t u : State}
    → Wrote b block reg news m s t
    → Wrote b block' reg' news' n t u
    → Wrote b block' reg' (news ++ news') (m + n) s u
Wrote-trans f g = record {
  ready = g.ready;
  holds = g.holds;
  writes = rw (g.writes, f.writes, append_assoc);
  clock = omega (arith, f.clock, g.clock);
  frame = Frame-trans f.frame g.frame;
}

-- No part of an effect but the registry depends on the table: not where it ends, ...
pub Wrote-set_lookup :
    {b : Ptr} {block : List ℕ} {reg reg' : Registry} {news : List Write} {n : ℕ} {s t : State}
    (l : LookupState)
    → Wrote b block reg news n s t
    → Represents l reg'
    → Wrote b block reg' news n s (record t { lookup = l })
Wrote-set_lookup l w h = record {
  ready = record {
    table = h;
    string_block = w.ready.string_block;
    string_holds = w.ready.string_holds;
    string_room = w.ready.string_room;
  };
  holds = w.holds;
  writes = w.writes;
  clock = w.clock;
  frame = record {
    blocks = w.frame.blocks;
    traces = w.frame.traces;
    next = w.frame.next;
    trace = w.frame.trace;
    socket = w.frame.socket;
    buffer = w.frame.buffer;
    string_buffer = w.frame.string_buffer;
    offset = w.frame.offset;
    local_hostname = w.frame.local_hostname;
    time_of_day = w.frame.time_of_day;
    write_errno = w.frame.write_errno;
  };
}

-- ... and not where it begins.
pub Wrote-from_lookup :
    {b : Ptr} {block : List ℕ} {reg : Registry} {news : List Write} {n : ℕ} {s t : State}
    (l : LookupState)
    → Wrote b block reg news n (record s { lookup = l }) t
    → Wrote b block reg news n s t
Wrote-from_lookup l w = record {
  ready = w.ready;
  holds = w.holds;
  writes = w.writes;
  clock = w.clock;
  frame = record {
    blocks = w.frame.blocks;
    traces = w.frame.traces;
    next = w.frame.next;
    trace = w.frame.trace;
    socket = w.frame.socket;
    buffer = w.frame.buffer;
    string_buffer = w.frame.string_buffer;
    offset = w.frame.offset;
    local_hostname = w.frame.local_hostname;
    time_of_day = w.frame.time_of_day;
    write_errno = w.frame.write_errno;
  };
}

-- An effect in other words.
pub Wrote-cast :
    {b : Ptr} {block block' : List ℕ} {reg reg' : Registry} {news news' : List Write} {n : ℕ}
    {s t : State}
    → block ≡ block'
    → reg ≡ reg'
    → news ≡ news'
    → Wrote b block reg news n s t
    → Wrote b block' reg' news' n s t
Wrote-cast e f g w = rw (e, f, g) at w

-- A trace object that is stored on both sides.
pub Wrote-with_trace :
    {b : Ptr} {block : List ℕ} {reg : Registry} {news : List Write} {n : ℕ} {s t : State} (p : Ptr)
    (tr : KiekerTrace)
    → Wrote b block reg news n s t
    → Wrote b block reg news n (with_trace p tr s) (with_trace p tr t)
Wrote-with_trace p tr w = record {
  ready = record {
    table = w.ready.table;
    string_block = w.ready.string_block;
    string_holds = w.ready.string_holds;
    string_room = w.ready.string_room;
  };
  holds = w.holds;
  writes = w.writes;
  clock = w.clock;
  frame = record {
    blocks = w.frame.blocks;
    traces = ap (λ (f : Ptr → Option KiekerTrace). update f p (some tr)) w.frame.traces;
    next = w.frame.next;
    trace = w.frame.trace;
    socket = w.frame.socket;
    buffer = w.frame.buffer;
    string_buffer = w.frame.string_buffer;
    offset = w.frame.offset;
    local_hostname = w.frame.local_hostname;
    time_of_day = w.frame.time_of_day;
    write_errno = w.frame.write_errno;
  };
}
