-- ===== src/Error.antt =====
-- src/error.rs: the error type of every fallible operation, and its classifiers.
-- The payloads of other libraries stand as what the code moves: a `Binary` is its bytes, a `Reason`
-- its number, and an I/O error, a `WebError`, `Settings` and a request are named by numbers.
pub mod Classify
use text.Mathlib.Text.{◌==◌ as str_eq}
use Prim.Native.String.{String}
use dmeng.Prelude.{ℕ, Bool, true, false, Option, List}

pub data TimeoutError : Type 0 where
  connect : String → TimeoutError
  read : String → TimeoutError
  write : String → TimeoutError
  time : String → TimeoutError
  keep_alive : String → TimeoutError
  extension : String → TimeoutError

pub data Initiator : Type 0 where
  user library remote : Initiator

abbrev pub Bytes : Type 0
Bytes = List ℕ

abbrev pub Reason : Type 0
Reason = ℕ

abbrev pub RequestRef : Type 0
RequestRef = ℕ

pub data ProtError : Type 0 where
  io_error : ℕ → ProtError
  web_error : ℕ → ProtError
  extension : String → ProtError
  timeout : TimeoutError → ProtError
  send_error : ProtError
  server_upgrade_http2 : Bytes → Option RequestRef → ProtError
  client_upgrade_http2 : ℕ → ProtError
  server_upgrade_ws : RequestRef → ProtError
  client_upgrade_ws : RequestRef → ProtError
  go_away : Bytes → Reason → Initiator → ProtError

-- The methods of `TimeoutError`.
timeout_is_read : TimeoutError → Bool × Bool
timeout_is_read (TimeoutError.read info) = (true, str_eq info "client")
timeout_is_read _ = (false, false)

pub timeout_is_write : TimeoutError → Bool × Bool
timeout_is_write (TimeoutError.write info) = (true, str_eq info "client")
timeout_is_write _ = (false, false)

pub is_client : TimeoutError → Bool
is_client (TimeoutError.connect info) = str_eq info "client"
is_client (TimeoutError.read info) = str_eq info "client"
is_client (TimeoutError.write info) = str_eq info "client"
is_client (TimeoutError.time info) = str_eq info "client"
is_client (TimeoutError.keep_alive info) = str_eq info "client"
is_client (TimeoutError.extension info) = str_eq info "client"

pub is_server : TimeoutError → Bool
is_server (TimeoutError.connect info) = str_eq info "server"
is_server (TimeoutError.read info) = str_eq info "server"
is_server (TimeoutError.write info) = str_eq info "server"
is_server (TimeoutError.time info) = str_eq info "server"
is_server (TimeoutError.keep_alive info) = str_eq info "server"
is_server (TimeoutError.extension info) = str_eq info "server"

-- The methods of `ProtError`.
unfoldable pub library_go_away : Reason → ProtError
library_go_away reason = ProtError.go_away List.[] reason library

pub is_timeout : ProtError → Bool × Bool
unfolding is_client
is_timeout (ProtError.timeout t) = (true, is_client t)
is_timeout _ = (false, false)

pub is_io : ProtError → Bool
is_io (io_error e) = true
is_io _ = false

pub is_read_timeout : ProtError → Bool × Bool
unfolding timeout_is_read
is_read_timeout (ProtError.timeout t) = timeout_is_read t
is_read_timeout _ = (false, false)

-- The code asks `is_read` here too, not `is_write`.
pub is_write_timeout : ProtError → Bool × Bool
unfolding timeout_is_read
is_write_timeout (ProtError.timeout t) = timeout_is_read t
is_write_timeout _ = (false, false)

pub is_server_upgrade_http2 : ProtError → Bool
is_server_upgrade_http2 (server_upgrade_http2 b r) = true
is_server_upgrade_http2 _ = false

pub is_server_upgrade_ws : ProtError → Bool
is_server_upgrade_ws (server_upgrade_ws r) = true
is_server_upgrade_ws _ = false

unfoldable pub connect_timeout : String → ProtError
connect_timeout val = ProtError.timeout (connect val)

unfoldable pub read_timeout : String → ProtError
read_timeout val = ProtError.timeout (TimeoutError.read val)

unfoldable pub write_timeout : String → ProtError
write_timeout val = ProtError.timeout (TimeoutError.write val)

unfoldable pub time_timeout : String → ProtError
time_timeout val = ProtError.timeout (time val)

unfoldable pub ka_timeout : String → ProtError
ka_timeout val = ProtError.timeout (keep_alive val)
