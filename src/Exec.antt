-- ===== src/Exec.antt =====
-- Code that changes the state. `none` is undefined behaviour: an access outside a block, through a
-- null or dangling pointer, or of a value that was never written, or an undefined conversion.
pub mod Returns
use kieker_lang_pack_c.Common.{
  ℕ, ◌+◌, ◌≤◌, length, Option, none, some, List, if◌then◌else◌, leb, splice, slice, replicate, ◌++◌,
  ◌∷◌, [],
}
use kieker_lang_pack_c.State.{Ptr, State, Heap, World, Write, KiekerTrace, update, Timeval}

abbrev pub Exec : Type 0 → Type 0
Exec A = State → Option (A × State)

abbrev pub pure : {A : Type 0} → A → Exec A
pure a s = some (a, s)

abbrev pub fault : {A : Type 0} → Exec A
fault s = none

infixl 5 ◌>>=◌ ◌>>◌
abbrev pub ◌>>=◌ : {A B : Type 0} → Exec A → (A → Exec B) → Exec B
◌>>=◌ m f s = elim (m s) [ none ↦ none | some (a, s') ↦ f a s' ]

abbrev pub ◌>>◌ : {A B : Type 0} → Exec A → Exec B → Exec B
m >> k = m >>= λ _. k

abbrev pub gets : {A : Type 0} → (State → A) → Exec A
gets f s = some (f s, s)

abbrev pub modify : (State → State) → Exec (Unit {0})
modify f s = some (tt, f s)

-- A value that has to be there.
abbrev pub the : {A : Type 0} → Option A → Exec A
the none = fault
the (some a) = pure a

-- `position += m`, with the new value of `position`.
infix 6 ◌+=◌
abbrev pub ◌+=◌ : ℕ → Exec ℕ → Exec ℕ
position += m = do size ← m; pure (position + size)

-- The content of the block at an address, and the trace object at an address.
abbrev pub load_block : Ptr → Exec (List ℕ)
load_block p s = the (s.heap.blocks p) s

abbrev pub load_trace : Ptr → Exec KiekerTrace
load_trace p s = the (s.heap.traces p) s

abbrev pub store_trace : Ptr → Option KiekerTrace → Exec (Unit {0})
store_trace p t =
    modify (λ s. record s { heap = record (s.heap) { traces = update s.heap.traces p t } })

abbrev pub set_block : Ptr → Option (List ℕ) → State → State
set_block p block s = record s { heap = record (s.heap) { blocks = update s.heap.blocks p block } }

-- `memcpy(p + offset, bytes, length bytes)`
unfoldable pub memcpy : Ptr → ℕ → List ℕ → Exec (Unit {0})
memcpy p offset bytes = do
  block ← load_block p
  if leb (offset + length bytes) (length block)
      then modify (set_block p (some (splice block offset bytes)))
      else fault

-- `write(socket, p, size)`: the bytes that it is handed, and -1 with `errno`, here `some errno`, or
-- not.
unfoldable pub write : ℕ → Ptr → ℕ → Exec (Option ℕ)
write socket p size = do
  block ← load_block p
  if leb size (length block)
      then (do
        result ← gets (λ s. s.world.write_errno (length s.world.writes))
        modify (λ s. record s {
          world = record (s.world) {
            writes = s.world.writes ++ record { socket = socket; bytes = slice block 0 size } ∷ [];
          };
        })
        pure result)
      else fault

unfoldable pub gettimeofday : Exec Timeval
gettimeofday = do
  now ← gets (λ s. s.world.time_of_day s.world.clock_reads)
  modify (λ s. record s { world = record (s.world) { clock_reads = s.world.clock_reads + 1 } })
  pure now

-- `malloc(size)` for a buffer, of which the content is read only where it has been written, ...
unfoldable pub malloc : ℕ → Exec Ptr
malloc size = do
  p ← gets (λ s. s.heap.next)
  modify (λ s. record s {
    heap = record (s.heap) {
      blocks = update s.heap.blocks p (some (replicate size 0));
      next = s.heap.next + 1;
    };
  })
  pure p

-- ... and for a trace object, which `kieker_trace_create` fills in.
unfoldable pub malloc_trace : Exec Ptr
malloc_trace = do
  p ← gets (λ s. s.heap.next)
  modify (λ s. record s { heap = record (s.heap) { next = s.heap.next + 1 } })
  pure p

-- `free(p)` of a buffer and of a trace object.
unfoldable pub free : Ptr → Exec (Unit {0})
free p = do block ← load_block p; modify (set_block p none)

unfoldable pub free_trace : Ptr → Exec (Unit {0})
free_trace p = do t ← load_trace p; store_trace p none
