-- ===== src/Server/Parts.antt =====
-- What src/server.rs calls of its connections, whose awaited operations stand as functions, and of the
-- handlers that it is given. A request is named by its number, as in src/error.rs.
use Prim.Native.String.{String}
use dmeng.Prelude.{ℕ, Bool, Option, List}
use dmeng.Prelude.Poll.{Outcome}
use dmeng.Error.{Bytes, ProtError, RequestRef}
use dmeng.Layer.Timeout.{TimeoutLayer}
use dmeng.Ws.Message.{OwnedMessage, WsOption}

-- A setter of a connection's timeouts, by its name and argument.
pub data Setting : Type 0 where
  read_timeout : Option ℕ → Setting
  write_timeout : Option ℕ → Setting
  timeout : Option ℕ → Setting
  ka_timeout : Option ℕ → Setting
  timeout_layer : Option TimeoutLayer → Setting

pub record Parts : Type 1 where
  pub Io : Type 0
  pub Addr : Type 0
  pub Response : Type 0
  pub status : Response → ℕ
  pub serialize : Response → Bytes
  pub upgrade_protocol : RequestRef → Option String
  -- The serialized answer 101 to an upgrade to `h2c`.
  pub upgrade_h2c : Bytes
  -- src/http1/server_connection.rs.
  pub H1 : Type 0
  pub h1_new : Io → H1
  pub h1_new_by_cache : Bytes → Io → H1
  pub h1_into_io : H1 → Io
  pub h1_set : Setting → H1 → H1
  pub h1_incoming : H1 → Outcome ProtError (Option RequestRef) × H1
  pub h1_poll_write : H1 → H1
  pub h1_send_response : Response → H1 → Outcome ProtError (Unit {0}) × H1
  -- src/http2/server_connection.rs.
  pub H2 : Type 0
  pub h2_into_io : H2 → Io
  pub h2_set : Setting → H2 → H2
  pub h2_incoming : H2 → Outcome ProtError (Option RequestRef) × H2
  pub h2_poll_write : H2 → H2
  pub h2_send_response : Response → ℕ → H2 → Outcome ProtError (Unit {0}) × H2
  pub into_h2 : Bytes → H1 → H2
  -- src/ws/server_connection.rs.
  pub Ws : Type 0
  pub CloseData : Type 0
  pub h1_into_ws : Bytes → H1 → Ws
  pub h2_into_ws : Bytes → H2 → Ws
  pub ws_next : Ws → Outcome ProtError (Option (OwnedMessage CloseData)) × Ws
  pub ws_receiver_close : Option CloseData → Ws → Ws
  pub ws_send_owned_message : OwnedMessage CloseData → Ws → Ws
  -- The handler of requests, and the middlewares.
  pub Http : Type 0
  pub Middle : Type 0
  pub close_connect : Http → Http
  pub is_continue_next : Http → Bool
  pub process_error : ProtError → Middle → Middle
  pub h1_handle_request :
      Option Addr
      → RequestRef
      → Http
      → List Middle
      → H1
      → Outcome ProtError (Option Bool) × Http × List Middle × H1
  pub h2_handle_request :
      Option Addr
      → RequestRef
      → Http
      → List Middle
      → H2
      → Outcome ProtError (Option Bool) × Http × List Middle × H2
  -- The handler of a WebSocket connection.
  pub Callback : Type 0
  pub Receiver : Type 0
  pub channel : Receiver
  pub on_request : RequestRef → Callback → Outcome ProtError Response × Callback
  pub on_open :
      RequestRef → Response → Callback → Outcome ProtError (Option (WsOption Receiver)) × Callback
  pub on_message : OwnedMessage CloseData → Callback → Outcome ProtError (Unit {0}) × Callback
  pub on_close : Option CloseData → Callback → Callback
  pub on_ping : Bytes → Callback → Outcome ProtError (Option (OwnedMessage CloseData)) × Callback
  pub on_pong : Bytes → Callback → Outcome ProtError (Unit {0}) × Callback
  pub on_interval :
      Option (WsOption Receiver)
      → Callback
      → Outcome ProtError (Unit {0}) × Option (WsOption Receiver) × Callback
  pub on_error : ProtError → Callback → Callback
