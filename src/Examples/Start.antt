-- ===== src/Examples/Start.antt =====
-- The theorem about the set-up at a process on the host "node" that reaches its collector.
use kieker_lang_pack_c.Common.{ℕ, Option, none, some, true}
use kieker_lang_pack_c.Io.{Sockets}
use kieker_lang_pack_c.Setup.{Process}
use kieker_lang_pack_c.Examples.{node}

abbrev network : Option ℕ → Sockets
network found = record {
  socket = some 4;
  gethostbyname = λ name. found;
  h_errno = 1;
  bind = λ s p a. true;
  listen = λ s n. true;
  connect = λ s p a. true;
  close = λ s. 0;
}

abbrev pub process : Option ℕ → Process
process found = record {
  getenv = λ name. none;
  strtol = λ value. none;
  gethostname = some node;
  gethostname_errno = 0;
  rwlock_init = true;
  rand = 77;
  atexit = true;
  sockets = network found;
}
