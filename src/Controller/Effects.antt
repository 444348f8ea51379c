-- ===== src/Controller/Effects.antt =====
-- The effect of `kieker_controller_send_string` on a library that is set up, on every branch.
use kieker_lang_pack_c.Common.{
  ℕ, ◌≤◌, ◌<◌, ◌%◌, ◌^◌, Option, none, some, List, [], ◌∷◌, length, ◌≡◌, ◌≢◌, refl, arith, splice,
  length-splice, ◌∙◌,
}
use kieker_lang_pack_c.Word.{CString, minus_one, sign_extend}
use kieker_lang_pack_c.Word.Bytes.{be_bytes}
use kieker_lang_pack_c.State.{Ptr, State, Write, failed}
use kieker_lang_pack_c.Exec.{set_block, ◌>>=◌, ◌>>◌}
use kieker_lang_pack_c.Exec.Returns.{Runs, memcpy_faults, int32_runs, update_self}
use kieker_lang_pack_c.Registry.{Registry}
use kieker_lang_pack_c.Effect.{Ready, Wrote, max_string}
use kieker_lang_pack_c.Controller.{padded, string_sent, send_string}
use kieker_lang_pack_c.Controller.Announce.{
  announcement, announced, filled, length-padded, send_string_run,
}

module _ {b : Ptr} {xs : List ℕ} {reg : Registry} {s : State} (ready : Ready reg s)
    (holds : s.heap.blocks b ≡ some xs) (apart : b ≢ s.controller.string_buffer) (string : CString)
    (id : ℕ) where
  announced-Wrote :
      length string ≤ max_string
      → Wrote b xs reg
          (announcement s.controller.socket id string ∷ [])
          0
          s
          (announced string id ready.string_block s)
  unfolding announced filled
  announced-Wrote fits = record {
    ready = record {
      table = ready.table;
      string_block = filled string id ready.string_block;
      string_holds = ground arith;
      string_room =
          length-splice _ 12 string
          ∙ length-splice _ 8 (be_bytes 4 (length string))
          ∙ length-splice _ 4 (be_bytes 4 id)
          ∙ length-splice _ 0 (be_bytes 4 minus_one)
          ∙ ready.string_room;
    };
    holds = ground (arith, holds);
    writes = refl;
    clock = omega arith;
    frame = record {
      blocks = λ q h k. ground arith;
      traces = refl;
      next = refl;
      trace = refl;
      socket = refl;
      buffer = refl;
      string_buffer = refl;
      offset = refl;
      local_hostname = refl;
      time_of_day = refl;
      write_errno = refl;
    };
  }

-- A failed `write` sets nothing that the effect speaks of.
string_sent-Wrote :
    {b : Ptr} {xs : List ℕ} {reg : Registry} {news : List Write} {n : ℕ} {s t : State}
    (r : Option ℕ)
    → Wrote b xs reg news n s t
    → Runs (string_sent r) t tt (λ s'. Wrote b xs reg news n s s' × (s'.lookup ≡ t.lookup))
unfolding string_sent
string_sent-Wrote {t} none w = record { final = t; run = refl; post = (w, refl) }
string_sent-Wrote {t} (some e) w = record {
  final = record t { controller = record (t.controller) { error = e; init_state = failed } };
  run = refl;
  post = (
    record {
      ready = record {
        table = w.ready.table;
        string_block = w.ready.string_block;
        string_holds = w.ready.string_holds;
        string_room = w.ready.string_room;
      };
      holds = w.holds;
      writes = w.writes;
      clock = w.clock;
      frame = record {
        blocks = w.frame.blocks;
        traces = w.frame.traces;
        next = w.frame.next;
        trace = w.frame.trace;
        socket = w.frame.socket;
        buffer = w.frame.buffer;
        string_buffer = w.frame.string_buffer;
        offset = w.frame.offset;
        local_hostname = w.frame.local_hostname;
        time_of_day = w.frame.time_of_day;
        write_errno = w.frame.write_errno;
      };
    },
    refl,
  );
}

-- Announcing a string of at most 8180 bytes makes one call of `write`, with -1, the number, the
-- length and the bytes of the string, whether it fails or not, and leaves the table of strings
-- and every block but the string buffer as they were.
pub send_string-Wrote :
    {b : Ptr} {xs : List ℕ} {reg : Registry} {s : State} (string : CString) (id : ℕ)
    → Ready reg s
    → s.heap.blocks b ≡ some xs
    → b ≢ s.controller.string_buffer
    → length string ≤ max_string
    → Runs (send_string string id) s tt (λ s'.
      Wrote b xs reg (announcement s.controller.socket id string ∷ []) 0 s s'
      × (s'.lookup ≡ s.lookup))
unfolding announced
send_string-Wrote {s} string id ready holds apart fits =
    let sent =
      string_sent-Wrote (s.world.write_errno (length s.world.writes))
        (announced-Wrote ready holds apart string id fits) in
    let run =
      send_string_run string id ready.string_block s ready.string_holds
        (omega (arith, ready.string_room)) fits in
    record { final = sent.final; run = run ∙ sent.run; post = sent.post }

-- Announcing a string whose length, cut to the 32 bits of an `int`, is more than 8180, which for
-- less than 2^32 bytes is its length, writes past the end of the string buffer, which is
-- undefined behaviour; a negative length becomes a `size_t` that is larger.
pub send_string_overflow :
    {reg : Registry} {s : State} (string : CString) (id : ℕ)
    → Ready reg s
    → max_string < length string % 2 ^ 32
    → send_string string id s ≡ none
unfolding send_string sign_extend
send_string_overflow {s} string id ready long =
    let p = s.controller.string_buffer in
    let block = ready.string_block in
    let b1 = splice block 0 (be_bytes 4 minus_one) in
    let b2 = splice b1 4 (be_bytes 4 id) in
    let b3 = splice b2 8 (be_bytes 4 (length string % 2 ^ 32)) in
    let s1 = set_block p (some b1) s in
    let s2 = set_block p (some b2) s1 in
    let s3 = set_block p (some b3) s2 in
    let l1 : length b1 ≡ length block = length-splice block 0 _ in
    let l2 : length b2 ≡ length block = length-splice b1 4 _ ∙ l1 in
    let l3 : length b3 ≡ length block = length-splice b2 8 _ ∙ l2 in
    let room = ready.string_room in
    let e1 = int32_runs p s ready.string_holds 0 minus_one (omega arith) in
    let e2 = int32_runs p s1 (update_self s.heap.blocks p (some b1)) 4 id (omega arith) in
    let e3 =
      int32_runs p s2 (update_self s1.heap.blocks p (some b2)) 8 (length string % 2 ^ 32)
        (omega arith) in
    let n = sign_extend (length string % 2 ^ 32) in
    let large : max_string < n = ground (arith, long) in
    let e4 =
      memcpy_faults p s3 (update_self s2.heap.blocks p (some b3)) 12 (padded n string)
        (omega (arith, large, length-padded n string)) in
    rw (e1, ◌>>=◌, ◌>>◌) (rw (e2, ◌>>=◌, ◌>>◌) (rw (e3, ◌>>=◌, ◌>>◌) (rw (e4, ◌>>=◌, ◌>>◌))))
