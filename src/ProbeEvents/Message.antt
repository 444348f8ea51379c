-- ===== src/ProbeEvents/Message.antt =====
-- The message of an event: the number of its type, the time, and the fields of its record.
use native.Mathlib.Nat.{add-zero, add_assoc}
use kieker_lang_pack_c.Common.{
  ℕ, ◌+◌, ◌*◌, ◌%◌, ◌^◌, ◌≤◌, List, [], ◌∷◌, ◌++◌, length, some, ◌≡◌, ◌≢◌, refl, arith, splice,
  splice-splice, length-splice, append-nil, append_assoc, ◌∙◌, ap,
}
use kieker_lang_pack_c.State.{Ptr, State, Write, Timeval, KiekerTrace}
use kieker_lang_pack_c.Exec.{Exec, gettimeofday, ◌>>=◌, ◌+=◌}
use kieker_lang_pack_c.Exec.Returns.{Runs}
use kieker_lang_pack_c.Registry.{Registry}
use kieker_lang_pack_c.Effect.{Ready, Wrote, Wrote-trans, with_trace}
use kieker_lang_pack_c.Fields.{
  Field, int32, int64, size, encode, encode_field, register_fields, announce_fields, Fits,
  serialize_field, serialize_fields,
}
use kieker_lang_pack_c.Fields.Serialized.{
  serialize_field-Wrote, serialize_fields-Wrote, length-encode_field, length-encode,
}
use kieker_lang_pack_c.Controller.{get_time_ms, get_buffer, prefix_serialize}

abbrev pub micros : Timeval → ℕ
micros t = (t.tv_sec * 1000000 + t.tv_usec) % 2 ^ 64

-- What the next call of `kieker_controller_get_time_ms` but `k` returns.
unfoldable pub time_at : State → ℕ → ℕ
time_at s k = micros (s.world.time_of_day (s.world.clock_reads + k))

-- A trace object does not change the clock.
pub time_at-with_trace :
    (p : Ptr) (t : KiekerTrace) (s : State) (k : ℕ) → time_at (with_trace p t s) k ≡ time_at s k
unfolding time_at
time_at-with_trace p t s k = refl

module _ {b : Ptr} {xs : List ℕ} {reg : Registry} {s : State} (ready : Ready reg s)
    (holds : s.heap.blocks b ≡ some xs) where
  pub get_time_ms-Wrote : Runs get_time_ms s (time_at s 0) (Wrote b xs reg [] 1 s)
  unfolding get_time_ms gettimeofday time_at
  get_time_ms-Wrote = record {
    final = record s { world = record (s.world) { clock_reads = s.world.clock_reads + 1 } };
    run = rw add-zero;
    post = record {
      ready = record {
        table = ready.table;
        string_block = ready.string_block;
        string_holds = ready.string_holds;
        string_room = ready.string_room;
      };
      holds = holds;
      writes = rw append-nil;
      clock = refl;
      frame = record {
        blocks = λ q h k. refl;
        traces = refl;
        next = refl;
        trace = refl;
        socket = refl;
        buffer = refl;
        string_buffer = refl;
        offset = refl;
        local_hostname = refl;
        time_of_day = refl;
        write_errno = refl;
      };
    };
  }

-- The clock is read once for each tick.
pub time_at-Wrote :
    {b : Ptr} {xs : List ℕ} {reg : Registry} {news : List Write} {n : ℕ} {s t : State}
    (w : Wrote b xs reg news n s t) (k : ℕ)
    → time_at t k ≡ time_at s (n + k)
unfolding time_at
time_at-Wrote w k = rw (w.frame.time_of_day, w.clock, add_assoc)

-- What is sent first in each message.
abbrev pub prefixed : ℕ → ℕ → List Field → List Field
prefixed id time fs = int32 id ∷ int64 time ∷ fs

pub get_buffer_run : {b : Ptr} (s : State) → s.controller.buffer ≡ b → get_buffer s ≡ some (b, s)
unfolding get_buffer
get_buffer_run s e = ap (λ b. some (b, s)) e

module _ {b : Ptr} {xs : List ℕ} {reg : Registry} {socket now : ℕ} {s : State} (ready : Ready reg s)
    (holds : s.heap.blocks b ≡ some xs) (apart : b ≢ s.controller.string_buffer)
    (at_buffer : s.controller.buffer ≡ b) (at_socket : s.controller.socket ≡ socket)
    (at_time : time_at s 0 ≡ now) (id offset : ℕ) where
  prefix_serialize-Wrote :
      offset + 12 ≤ length xs
      → Runs
          (prefix_serialize id offset)
          s
          (offset + 12)
          (Wrote b (splice xs offset (encode reg (prefixed id now []))) reg [] 1 s)
  unfolding prefix_serialize serialize_field
  prefix_serialize-Wrote fits =
      let r1 = serialize_field-Wrote ready holds apart offset (int32 id) tt (omega arith) in
      let w1 = r1.post in
      let r2 = get_time_ms-Wrote w1.ready w1.holds in
      let w2 = Wrote-trans w1 r2.post in
      let now_lem : time_at r1.final 0 ≡ now = time_at-Wrote w1 0 ∙ at_time in
      let r3 =
        serialize_field-Wrote w2.ready w2.holds (rw w2.frame.string_buffer apart) (offset + 4)
          (int64 now) tt (omega (arith, length-splice xs offset (encode_field reg (int32 id)))) in
      let w3 = Wrote-trans w2 r3.post in
      let one : splice (splice xs offset (encode_field reg (int32 id))) (offset + 4)
            (encode_field reg (int64 now))
          ≡ splice xs offset (encode reg (prefixed id now [])) =
        splice-splice xs offset (offset + 4) _ _ (omega (arith, length-encode_field reg (int32 id)))
        ∙ rw append-nil in
      record {
        final = r3.final;
        run =
            rw (get_buffer_run s at_buffer, ◌>>=◌)
              (rw (r1.run, ◌>>=◌, ◌+=◌)
                (rw (r2.run, ◌>>=◌) (rw now_lem (rw (r3.run, ◌>>=◌, ◌+=◌) (rw add_assoc)))));
        post = rw one at w3;
      }

  -- A message of type `id`: the prefix, and behind it a record, given the fields that its serializer
  -- writes.
  pub message-Wrote :
      (fs : List Field) (ser : Ptr → ℕ → Exec ℕ)
      → ((buffer : Ptr) (position : ℕ) → ser buffer position ≡ serialize_fields buffer position fs)
      → Fits fs
      → offset + size (prefixed id now fs) ≤ length xs
      → Runs
          (do position ← prefix_serialize id offset; buffer ← get_buffer; ser buffer position)
          s
          (offset + size (prefixed id now fs))
          (Wrote b
            (splice xs offset (encode reg (prefixed id now fs)))
            (register_fields reg fs)
            (announce_fields socket reg fs)
            1
            s)
  message-Wrote fs ser same ok fits =
      let head = encode reg (prefixed id now []) in
      let r1 = prefix_serialize-Wrote (omega arith) in
      let w1 = r1.post in
      let r2 =
        serialize_fields-Wrote fs (offset + 12) w1.ready w1.holds (rw w1.frame.string_buffer apart)
          ok (omega (arith, length-splice xs offset head)) in
      let joined = rw (w1.frame.socket ∙ at_socket) at (Wrote-trans w1 r2.post) in
      let head_length : length head ≡ 12 = length-encode reg (prefixed id now []) in
      let one : splice (splice xs offset head) (offset + 12) (encode reg fs)
          ≡ splice xs offset (encode reg (prefixed id now fs)) =
        splice-splice xs offset (offset + 12) head (encode reg fs) (omega (arith, head_length))
        ∙ rw (append_assoc, append-nil) in
      let end : offset + 12 + size fs ≡ offset + size (prefixed id now fs) = omega arith in
      record {
        final = r2.final;
        run =
            rw (r1.run, ◌>>=◌)
              (rw (get_buffer_run r1.final (w1.frame.buffer ∙ at_buffer), ◌>>=◌)
                (rw same (r2.run ∙ rw end)));
        post = rw one at joined;
      }

-- A message that is written after something else has been. `clock k` is what the clock shows when it
-- is read for the k-th time from `s` on.
pub message_after-Wrote :
    {b : Ptr} {xs : List ℕ} {reg : Registry} {news : List Write} {n socket : ℕ} {s u : State}
    (clock : ℕ → ℕ) (w : Wrote b xs reg news n s u)
    → b ≢ s.controller.string_buffer
    → s.controller.buffer ≡ b
    → s.controller.socket ≡ socket
    → ((k : ℕ) → time_at s k ≡ clock k)
    → (id offset : ℕ) (fs : List Field) (ser : Ptr → ℕ → Exec ℕ)
    → ((buffer : Ptr) (position : ℕ) → ser buffer position ≡ serialize_fields buffer position fs)
    → Fits fs
    → offset + size (prefixed id (clock n) fs) ≤ length xs
    → Runs
        (do position ← prefix_serialize id offset; buffer ← get_buffer; ser buffer position)
        u
        (offset + size (prefixed id (clock n) fs))
        (Wrote b
          (splice xs offset (encode reg (prefixed id (clock n) fs)))
          (register_fields reg fs)
          (news ++ announce_fields socket reg fs)
          (n + 1)
          s)
message_after-Wrote {n} clock w apart at_buffer at_socket at_time id offset fs ser same ok fits =
    let now = time_at-Wrote w 0 ∙ rw add-zero (at_time n) in
    let r =
      message-Wrote w.ready w.holds (rw w.frame.string_buffer apart) (w.frame.buffer ∙ at_buffer)
        (w.frame.socket ∙ at_socket) now id offset fs ser same ok fits in
    record { final = r.final; run = r.run; post = Wrote-trans w r.post }
