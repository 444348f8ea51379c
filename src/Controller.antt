-- ===== src/Controller.antt =====
-- Sending and time in libkieker/monitoring/controller/kieker_controller.c. The results of `fsync`
-- are not used and what is printed is left out.
pub mod Announce
pub mod Effects
pub mod Send
use kieker_lang_pack_c.Common.{
  ℕ, ◌+◌, ◌*◌, ◌%◌, ◌^◌, ◌-◌, Option, none, some, List, ◌++◌, length, take, replicate,
}
use kieker_lang_pack_c.Word.{CString, minus_one, sign_extend}
use kieker_lang_pack_c.State.{Ptr, State, ControllerState, failed}
use kieker_lang_pack_c.Exec.{
  Exec, pure, gets, modify, memcpy, write, gettimeofday, ◌>>=◌, ◌>>◌, ◌+=◌,
}
use kieker_lang_pack_c.Numbers.{serialize_int32, serialize_int64}

abbrev pub set_controller : (ControllerState → ControllerState) → Exec (Unit {0})
set_controller f = modify (λ s. record s { controller = f s.controller })

-- The branch of `send_string` on the result of `write`.
unfoldable pub string_sent : Option ℕ → Exec (Unit {0})
string_sent none = pure tt
string_sent (some errno) = set_controller (λ c. record c { error = errno; init_state = failed })

-- The `n` bytes that `strncpy` writes: those of the string, and zeros behind them.
abbrev pub padded : ℕ → CString → List ℕ
padded n string = take n string ++ replicate (n - length string) 0

-- `kieker_controller_send_string`; the length is an `int`, which becomes a `size_t` where it is handed
-- to `strncpy` and `write`.
unfoldable pub send_string : CString → ℕ → Exec (Unit {0})
unfolding string_sent
send_string string id = do
  let len = length string % 2 ^ 32
  c ← gets (λ s. s.controller)
  serialize_int32 c.string_buffer 0 minus_one
  serialize_int32 c.string_buffer 4 id
  serialize_int32 c.string_buffer 8 len
  memcpy c.string_buffer (4 + 4 + 4) (padded (sign_extend len) string)
  result ← write c.socket c.string_buffer (sign_extend (len + 4 + 4 + 4))
  string_sent result

-- The branch of `send` on the result of `write`.
unfoldable pub buffer_sent : Option ℕ → Exec (Unit {0})
buffer_sent none = pure tt
buffer_sent (some errno) = set_controller (λ c. record c { error = errno })

-- `kieker_controller_send`
unfoldable pub send : ℕ → Exec (Unit {0})
unfolding buffer_sent
send len = do c ← gets (λ s. s.controller); result ← write c.socket c.buffer len; buffer_sent result

-- `kieker_controller_get_time_ms`
unfoldable pub get_time_ms : Exec ℕ
get_time_ms = do
  call_time ← gettimeofday
  pure ((call_time.tv_sec * 1000000 + call_time.tv_usec) % 2 ^ 64)

-- `kieker_controller_get_buffer` and `kieker_controller_get_hostname`
unfoldable pub get_buffer : Exec Ptr
get_buffer = gets (λ s. s.controller.buffer)

unfoldable pub get_hostname : Exec (Option CString)
get_hostname = gets (λ s. s.controller.local_hostname)

-- `kieker_controller_prefix_serialize`
unfoldable pub prefix_serialize : ℕ → ℕ → Exec ℕ
prefix_serialize id offset = do
  buffer ← get_buffer
  position ← offset += serialize_int32 buffer offset id
  now ← get_time_ms
  position ← position += serialize_int64 buffer position now
  pure position
