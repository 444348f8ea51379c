-- ===== src/Controller/Send.antt =====
-- The effect of `kieker_controller_send`.
use kieker_lang_pack_c.Common.{
  ℕ, ◌≤◌, Option, none, some, List, [], ◌∷◌, ◌++◌, length, ◌≡◌, refl, arith, slice, ap, ◌∙◌,
}
use kieker_lang_pack_c.State.{Ptr, State, Write}
use kieker_lang_pack_c.Exec.{◌>>=◌}
use kieker_lang_pack_c.Exec.Returns.{Runs, write_runs}
use kieker_lang_pack_c.Registry.{Registry}
use kieker_lang_pack_c.Effect.{Ready, Wrote}
use kieker_lang_pack_c.Controller.{buffer_sent, send}

-- The call of `write` on the first `len` bytes of a buffer.
abbrev pub sending : ℕ → List ℕ → ℕ → Write
sending len xs socket = record { socket = socket; bytes = slice xs 0 len }

module _ {b : Ptr} {xs : List ℕ} {reg : Registry} {s : State} {socket : ℕ} (len : ℕ)
    (ready : Ready reg s) (holds : s.heap.blocks b ≡ some xs)
    (at_socket : s.controller.socket ≡ socket) where
  written : State
  written = record s {
    world = record (s.world) { writes = s.world.writes ++ sending len xs s.controller.socket ∷ [] };
  }

  buffer_sent-Wrote :
      (r : Option ℕ)
      → Runs (buffer_sent r) written tt (Wrote b xs reg (sending len xs socket ∷ []) 0 s)
  unfolding buffer_sent written
  buffer_sent-Wrote none = record {
    final = written;
    run = refl;
    post = record {
      ready = record {
        table = ready.table;
        string_block = ready.string_block;
        string_holds = ready.string_holds;
        string_room = ready.string_room;
      };
      holds = holds;
      writes = ap (λ so. s.world.writes ++ sending len xs so ∷ []) at_socket;
      clock = omega arith;
      frame = record {
        blocks = λ q h k. refl;
        traces = refl;
        next = refl;
        trace = refl;
        socket = refl;
        buffer = refl;
        string_buffer = refl;
        offset = refl;
        local_hostname = refl;
        time_of_day = refl;
        write_errno = refl;
      };
    };
  }
  buffer_sent-Wrote (some e) = record {
    final = record written { controller = record (s.controller) { error = e } };
    run = refl;
    post = record {
      ready = record {
        table = ready.table;
        string_block = ready.string_block;
        string_holds = ready.string_holds;
        string_room = ready.string_room;
      };
      holds = holds;
      writes = ap (λ so. s.world.writes ++ sending len xs so ∷ []) at_socket;
      clock = omega arith;
      frame = record {
        blocks = λ q h k. refl;
        traces = refl;
        next = refl;
        trace = refl;
        socket = refl;
        buffer = refl;
        string_buffer = refl;
        offset = refl;
        local_hostname = refl;
        time_of_day = refl;
        write_errno = refl;
      };
    };
  }

  -- Sending hands the first `len` bytes of the buffer to `write`, whether that fails or not.
  pub send-Wrote :
      s.controller.buffer ≡ b
      → len ≤ length xs
      → Runs (send len) s tt (Wrote b xs reg (sending len xs socket ∷ []) 0 s)
  unfolding send written
  send-Wrote at_buffer fits =
      let here : s.heap.blocks s.controller.buffer ≡ some xs = ap s.heap.blocks at_buffer ∙ holds in
      let r = buffer_sent-Wrote (s.world.write_errno (length s.world.writes)) in
      let e = write_runs s.controller.buffer s here s.controller.socket len fits in
      record { final = r.final; run = rw (e, ◌>>=◌) r.run; post = r.post }
