-- ===== src/Setup.antt =====
-- The set-up of the library in libkieker/monitoring/controller/kieker_controller.c. What is printed
-- is left out.
pub mod Types
pub mod Variables
pub mod Start
use kieker_lang_pack_c.Common.{
  ℕ, ◌+◌, ◌%◌, ◌^◌, Option, none, some, Bool, true, false, if◌then◌else◌, ◌==◌, leb, ltb, List, [],
  ◌∷◌, ◌++◌,
}
use kieker_lang_pack_c.Word.{CString, chars, int_minus_one}
use kieker_lang_pack_c.State.{State, InitState, ControllerState, unconfigured, failed}
use kieker_lang_pack_c.Exec.{Exec, pure, gets, modify, the, malloc, ◌>>=◌, ◌>>◌}
use kieker_lang_pack_c.Controller.{set_controller}
use kieker_lang_pack_c.Serialize.{serialize_string}
use kieker_lang_pack_c.Trace.{trace_init, trace_finalize}
use kieker_lang_pack_c.Io.{Sockets, client_socket_open}

-- The results of the other calls of the system: `strtol` of base 10 with `none` where there are no
-- digits, `gethostname` with its `errno`, whether the lock could be made, `rand`, and whether
-- `atexit` succeeds.
pub record Process : Type 0 where
  pub getenv : CString → Option CString
  pub strtol : CString → Option ℕ
  pub gethostname : Option CString
  pub gethostname_errno : ℕ
  pub rwlock_init : Bool
  pub rand : ℕ
  pub atexit : Bool
  pub sockets : Sockets

abbrev pub default_remote_hostname : CString
default_remote_hostname = chars "localhost"

abbrev pub default_remote_port : ℕ
default_remote_port = 5678

abbrev pub default_event_type_filename : CString
default_event_type_filename = chars "~/kieker-event-type-file"

abbrev ushrt_max : ℕ
ushrt_max = 65535

abbrev or_default : Option CString → CString → CString
or_default none default_value = default_value
or_default (some value) default_value = value

-- A negative `long` is a number from 2 ^ 63 on.
abbrev port_or_default : Option ℕ → ℕ → ℕ
port_or_default none default_value = default_value
port_or_default (some result) default_value =
    if ltb 0 result then if leb result ushrt_max then result else default_value else default_value

abbrev variable_or_default : (CString → Option ℕ) → Option CString → ℕ → ℕ
variable_or_default strtol none default_value = default_value
variable_or_default strtol (some value) default_value = port_or_default (strtol value) default_value

-- `kieker_controller_setup_buffer`
unfoldable pub setup_buffer : Exec (Unit {0})
setup_buffer = do
  set_controller (λ c. record c { offset = 0 })
  buffer ← malloc 8192
  set_controller (λ c. record c { buffer = buffer })
  string_buffer ← malloc 8192
  set_controller (λ c. record c { string_buffer = string_buffer })

abbrev pub is_some : Option CString → Bool
is_some none = false
is_some (some name) = true

-- The socket of the library, cut to the `unsigned short` that `kieker_io_socket_close` takes, is handed
-- to `close`, whose result is not used.
unfoldable pub close_socket : Exec (Unit {0})
close_socket = modify (λ s. record s {
  world = record (s.world) { closed = s.world.closed ++ s.controller.socket % 2 ^ 16 ∷ [] };
})

-- `kieker_controller_finalize`
unfoldable pub finalize : Exec (Unit {0})
unfolding close_socket trace_finalize
finalize = do
  close_socket
  trace_finalize
  set_controller (λ c. record c { init_state = unconfigured })

abbrev pub fail : Exec (Unit {0})
fail = set_controller (λ c. record c { init_state = failed })

-- One of the three statements of `kieker_controller_register_event_types`.
abbrev pub register_event_type : CString → Exec (Unit {0})
register_event_type name = do
  c ← gets (λ s. s.controller)
  size ← serialize_string c.buffer c.offset name
  set_controller (λ c. record c { offset = c.offset + size })

-- `kieker_controller_register_event_types`
unfoldable pub register_event_types : Exec (Unit {0})
register_event_types = do
  register_event_type (chars "kieker.common.record.flow.trace.TraceMetadata")
  register_event_type (chars "kieker.common.record.flow.trace.operation.BeforeOperationEvent")
  register_event_type (chars "kieker.common.record.flow.trace.operation.AfterOperationEvent")
  set_controller (λ c. record c { offset = 0 })

abbrev is_unconfigured : InitState → Bool
is_unconfigured unconfigured = true
is_unconfigured _ = false

module _ (os : Process) where
  -- `kieker_controller_getenv_string`
  unfoldable pub getenv_string : CString → CString → CString
  getenv_string name default_value = or_default (os.getenv name) default_value

  -- `kieker_controller_getenv_ushort`
  unfoldable pub getenv_ushort : CString → ℕ → ℕ
  getenv_ushort name default_value = variable_or_default os.strtol (os.getenv name) default_value

  -- `kieker_controller_configure_variables`
  unfoldable pub configure_variables : Exec (Unit {0})
  configure_variables = set_controller (λ c. record c {
    remote_hostname = some (getenv_string (chars "KIEKER_HOSTNAME") default_remote_hostname);
    remote_port = getenv_ushort (chars "KIEKER_PORT") default_remote_port;
    event_types_filename =
        some (getenv_string (chars "KIEKER_EVENT_TYPE_FILENAME") default_event_type_filename);
  })

  abbrev pub hostname_obtained : Option CString → ControllerState → ControllerState
  hostname_obtained none c = record c {
    error = os.gethostname_errno;
    local_hostname = some (chars "<failed>");
  }
  hostname_obtained (some name) c = record c { local_hostname = some name }

  -- `kieker_controller_obtain_local_hostname`; the name has less than 200 bytes and stands in a block
  -- of its own.
  unfoldable pub obtain_local_hostname : Exec Bool
  obtain_local_hostname = do
    block ← malloc 200
    set_controller (hostname_obtained os.gethostname)
    pure (is_some os.gethostname)

  -- `kieker_controller_connect`
  unfoldable pub connect : Exec (Unit {0})
  connect = do
    c ← gets (λ s. s.controller)
    host ← the c.remote_hostname
    let socket = client_socket_open os.sockets host c.remote_port
    set_controller (λ c. record c { socket = socket })
    if socket == int_minus_one then fail else if os.atexit then pure tt else (do finalize; fail)

  -- `kieker_controller_initialize`
  unfoldable pub initialize : Exec (Unit {0})
  initialize = do
    c ← gets (λ s. s.controller)
    if is_unconfigured c.init_state
        then (do
          configure_variables
          setup_buffer
          named ← obtain_local_hostname
          if named
              then (do
                made ← trace_init os.rwlock_init os.rand
                if made == 0 then fail else (do connect; register_event_types))
              else fail)
        else pure tt
