-- ===== src/Io.antt =====
-- libkieker/monitoring/controller/kieker_io.c. What the system does is a parameter: the results of
-- its calls. An `int` is the number of its two's complement, and -1 of a call is `none` or `false`.
use kieker_lang_pack_c.Common.{ℕ, ◌-◌, ◌%◌, ◌^◌, Option, none, some, Bool, if◌then◌else◌, ◌==◌}
use kieker_lang_pack_c.Word.{CString, int_minus_one, htons, htonl}

-- `socket`, `gethostbyname` with `h_errno`, `bind`, `listen`, `connect` and `close`. The arguments of
-- `bind` are the socket, the port, `none` where it was never set, and the address.
pub record Sockets : Type 0 where
  pub socket : Option ℕ
  pub gethostbyname : CString → Option ℕ
  pub h_errno : ℕ
  pub bind : ℕ → Option ℕ → ℕ → Bool
  pub listen : ℕ → ℕ → Bool
  pub connect : ℕ → ℕ → ℕ → Bool
  pub close : ℕ → ℕ

-- `INADDR_NONE` and `INADDR_ANY`
abbrev inaddr_none : ℕ
inaddr_none = 2 ^ 32 - 1

abbrev inaddr_any : ℕ
inaddr_any = 0

-- The `int` -1 or a handle, cut to the `unsigned short` that is returned.
unfoldable pub bound : Sockets → ℕ → Option ℕ → ℕ → ℕ
bound os s port address =
    if os.bind s port address
    then if os.listen s 1 then s % 2 ^ 16 else int_minus_one % 2 ^ 16
    else int_minus_one % 2 ^ 16

unfoldable pub server_opened : Sockets → Option ℕ → ℕ → ℕ
unfolding bound
server_opened os none port = int_minus_one % 2 ^ 16
server_opened os (some s) port =
    if port == 0
    then bound os s none (htonl inaddr_none)
    else bound os s (some (htons port)) (htonl inaddr_any)

-- `kieker_io_server_socket_open`
unfoldable pub server_socket_open : Sockets → ℕ → ℕ
unfolding server_opened
server_socket_open os port = server_opened os os.socket port

unfoldable pub connected : Sockets → ℕ → ℕ → Option ℕ → ℕ
connected os s port none = os.h_errno
connected os s port (some address) = if os.connect s (htons port) address then s else int_minus_one

unfoldable pub client_opened : Sockets → Option ℕ → CString → ℕ → ℕ
unfolding connected
client_opened os none host port = int_minus_one
client_opened os (some s) host port = connected os s port (os.gethostbyname host)

-- `kieker_io_client_socket_open`
unfoldable pub client_socket_open : Sockets → CString → ℕ → ℕ
unfolding client_opened
client_socket_open os host port = client_opened os os.socket host port

-- `kieker_io_socket_close`, whose argument is cut to an `unsigned short`; the result of `setsockopt`
-- is not used.
unfoldable pub socket_close : Sockets → ℕ → ℕ
socket_close os s = os.close (s % 2 ^ 16)
