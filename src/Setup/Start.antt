-- ===== src/Setup/Start.antt =====
-- `kieker_controller_initialize` on a library that has not been used yet.
use kieker_lang_pack_c.Common.{
  ℕ, ◌+◌, ◌<◌, ◌*◌, ◌%◌, ◌^◌, some, List, [], ◌∷◌, ◌++◌, Bool, false, true, inl, inr, Bool-cases,
  length, replicate, length-replicate, ◌≡◌, refl, arith, ◌==◌, ◌∙◌, ap,
}
use kieker_lang_pack_c.Word.{CString, chars, int_minus_one}
use kieker_lang_pack_c.State.{State, TraceState, InitState, unconfigured, failed, update}
use kieker_lang_pack_c.Exec.{◌>>=◌, ◌>>◌, the, malloc}
use kieker_lang_pack_c.Exec.Returns.{Runs}
use kieker_lang_pack_c.Effect.{Ready, Represents}
use kieker_lang_pack_c.Trace.{trace_init}
use kieker_lang_pack_c.Io.{client_socket_open}
use kieker_lang_pack_c.ProbePlain.Sending.{Probing}
use kieker_lang_pack_c.Setup.{
  Process, getenv_string, getenv_ushort, default_remote_hostname, default_remote_port,
  default_event_type_filename, configure_variables, setup_buffer, obtain_local_hostname, connect,
  finalize, initialize, register_event_types,
}
use kieker_lang_pack_c.Setup.Types.{event_types, types_announced, register_event_types-Wrote}

buffer_size : length {A = ℕ} (replicate 8192 0) ≡ 8192
buffer_size = length-replicate {A = ℕ} 8192 0

-- What `connect` sets. If `atexit` fails, the socket is closed and the lock destroyed.
abbrev pub with_socket : ℕ → InitState → Bool → List ℕ → State → State
with_socket socket state lock closed s = record s {
  controller = record (s.controller) { socket = socket; init_state = state };
  trace = record (s.trace) { lock = lock };
  world = record (s.world) { closed = closed };
}

module _ (os : Process) where
  -- Whatever happens, the result of opening the socket becomes the socket of the library.
  connect_run :
      (s : State) {host : CString}
      → s.controller.remote_hostname ≡ some host
      → (state : InitState) × (lock : Bool) × (closed : List ℕ) × (connect os s
          ≡ some (
            tt,
            with_socket
                (client_socket_open os.sockets host s.controller.remote_port)
                state
                lock
                closed
                s,
          ))
        × (os.atexit ≡ true → lock ≡ s.trace.lock)
  unfolding connect finalize
  connect_run s {host} known =
      let socket = client_socket_open os.sockets host s.controller.remote_port in
      elim (Bool-cases (socket == int_minus_one)) [
        | inl bad ↦
            (failed, s.trace.lock, s.world.closed, rw (known, the, ◌>>=◌) (rw bad), λ e. refl)
        | inr good ↦ elim (Bool-cases os.atexit) [
          | inl set ↦ (
            s.controller.init_state,
            s.trace.lock,
            s.world.closed,
            rw (known, the, ◌>>=◌) (rw (good, set)),
            λ e. refl,
          )
          | inr unset ↦ (
            failed,
            false,
            s.world.closed ++ socket % 2 ^ 16 ∷ [],
            rw (known, the, ◌>>=◌) (rw (good, unset)),
            λ e. absurd (cc (e, unset)),
          )
        ]
      ]

  -- The host and the port that the environment names.
  abbrev pub host : CString
  host = getenv_string os (chars "KIEKER_HOSTNAME") default_remote_hostname

  abbrev pub port : ℕ
  port = getenv_ushort os (chars "KIEKER_PORT") default_remote_port

  -- The state before the connection is made.
  abbrev pub prepared : CString → State → State
  prepared name s =
      let b = s.heap.next in
      record s {
        heap = record (s.heap) {
          blocks =
              update
                (update (update s.heap.blocks b (some (replicate 8192 0))) (b + 1)
                  (some (replicate 8192 0)))
                (b + 1 + 1) (some (replicate 200 0));
          next = b + 1 + 1 + 1;
        };
        controller = record (s.controller) {
          remote_hostname = some host;
          remote_port = port;
          event_types_filename =
              some
                (getenv_string os (chars "KIEKER_EVENT_TYPE_FILENAME") default_event_type_filename);
          offset = 0;
          buffer = b;
          string_buffer = b + 1;
          local_hostname = some name;
        };
        trace = record (s.trace) {
          current_id = os.rand % 1000000000 * 2 ^ 8 % 2 ^ 64;
          lock = true;
        };
      }

  module _ (s : State) {name : CString} (unused : s.controller.init_state ≡ unconfigured)
      (empty : Represents s.lookup []) (named : os.gethostname ≡ some name)
      (made : os.rwlock_init ≡ true) where
    initialize_run : initialize os s ≡ (connect os >> register_event_types) (prepared name s)
    unfolding initialize configure_variables setup_buffer obtain_local_hostname trace_init malloc
    initialize_run = rw (unused, named, made)

    Ready-prepared :
        (socket : ℕ) (state : InitState) (lock : Bool) (closed : List ℕ)
        → Ready [] (with_socket socket state lock closed (prepared name s))
    Ready-prepared socket state lock closed = record {
      table = empty;
      string_block = replicate 8192 0;
      string_holds = ground arith;
      string_room = buffer_size;
    }

    -- With what is known of the lock and the identifiers of traces.
    pub initialize-locked :
        let socket = client_socket_open os.sockets host port in
        Runs (initialize os) s tt (λ s'.
          (block : List ℕ) × Probing event_types block s'
          × (s'.controller.local_hostname ≡ some name)
          × (s'.controller.socket ≡ socket)
          × (s'.world.writes ≡ s.world.writes ++ types_announced socket)
          × (s'.world.clock_reads ≡ s.world.clock_reads)
          × (s'.trace.traces ≡ s.trace.traces)
          × (os.atexit ≡ true → s'.trace.lock ≡ true)
          × (s'.trace.current_id < 10 ^ 9 * 2 ^ 8))
    initialize-locked =
        let (state, lock, closed, connected, still_made) = connect_run (prepared name s) refl in
        let socket = client_socket_open os.sockets host port in
        let s1 = with_socket socket state lock closed (prepared name s) in
        let r =
          register_event_types-Wrote s1 (omega arith) {xs = replicate 8192 0}
            (Ready-prepared socket state lock closed) (ground arith) (omega (arith, buffer_size)) in
        let (block, size, w) = r.post in
        record {
          final = r.final;
          run = initialize_run ∙ rw (connected, ◌>>=◌, ◌>>◌) r.run;
          post = (
            block,
            record {
              ready = w.ready;
              holds = rw w.frame.buffer w.holds;
              room = size ∙ buffer_size;
              apart = rw (w.frame.buffer, w.frame.string_buffer) (omega arith);
              buffer_old = rw (w.frame.buffer, w.frame.next) (omega arith);
              string_buffer_old = rw (w.frame.string_buffer, w.frame.next) (omega arith);
            },
            w.frame.local_hostname,
            w.frame.socket,
            w.writes,
            omega (arith, w.clock),
            ap (λ (t : TraceState). t.traces) w.frame.trace,
            λ e. ap (λ (t : TraceState). t.lock) w.frame.trace ∙ still_made e,
            rw w.frame.trace (omega arith),
          );
        }

    pub initialize-Probing :
        let socket = client_socket_open os.sockets host port in
        Runs (initialize os) s tt (λ s'.
          (block : List ℕ) × Probing event_types block s'
          × (s'.controller.local_hostname ≡ some name)
          × (s'.controller.socket ≡ socket)
          × (s'.world.writes ≡ s.world.writes ++ types_announced socket)
          × (s'.world.clock_reads ≡ s.world.clock_reads)
          × (s'.trace.traces ≡ s.trace.traces))
    initialize-Probing =
        let r = initialize-locked in
        let (block, probing, hostname, socket, writes, clock, traces, lock, id) = r.post in
        record {
          final = r.final;
          run = r.run;
          post = (block, probing, hostname, socket, writes, clock, traces);
        }
