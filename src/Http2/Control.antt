-- ===== src/Http2/Control.antt =====
-- src/http2/control.rs: the connection's control block over its codec. A `HashMap` of streams is
-- an association list, whose order stands for the order of iteration; the mutex of the response queue is
-- never contended within a poll. `next_id` of the configuration is webparse's.
pub mod Streams
pub mod Receive
pub mod Poll
pub mod Respond
use Prim.Native.String.{String}
use dmeng.Prelude.{
  ℕ, zero, suc, ◌+◌, Bool, true, false, not, ◌&&◌, Option, none, some, List, [], ◌∷◌, ◌++◌, max,
  ◌==◌, if◌then◌else◌,
}
use dmeng.Prelude.Poll.{Outcome, pending, ok, err, panic, spin}
use dmeng.Error.{Bytes, ProtError, Reason, library_go_away}
use dmeng.Http2.Frame
use dmeng.Http2.Frame.{Frame, GoAway, Kind, Settings}
use dmeng.Http2.Platform.{Platform}
use dmeng.Http2.Codec
use dmeng.Http2.Codec.{Codec}
use dmeng.Http2.State.Handshake
use dmeng.Http2.State.Handshake.{StateHandshake}
use dmeng.Http2.State.Settings
use dmeng.Http2.State.Settings.{StateSettings, ControlConfig, get_initial_window_size}
use dmeng.Http2.State.GoAway as GoAwayState
use dmeng.Http2.State.GoAway.{StateGoAway}
use dmeng.Http2.State.PingPong
use dmeng.Http2.State.PingPong.{StatePingPong}
use dmeng.Http2.PriorityQueue
use dmeng.Http2.PriorityQueue.{PriorityQueue}
use dmeng.Http2.Send
use dmeng.Http2.Send.{SendRequest, SendResponse, Request, Response}
use dmeng.Http2.InnerStream
use dmeng.Http2.InnerStream.{InnerStream, RecvRequest, is_nil}

pub record Control (p : Platform) : Type 0 where
  pub recv_frames : List (ℕ × InnerStream p)
  pub ready_queue : List ℕ
  pub last_stream_id : ℕ
  pub send_frames : PriorityQueue p
  pub response_queue : List (SendResponse p)
  pub request_queue : List (SendRequest p)
  pub finish_streams : List ℕ
  pub handshake : StateHandshake
  pub setting : StateSettings
  pub goaway : StateGoAway
  pub ping_pong : StatePingPong
  pub error : Option GoAway
  pub config : ControlConfig
  pub ready_time : ℕ
  pub is_server : Bool

-- A control block with the codec that every poll is handed.
pub record Conn (p : Platform) : Type 0 where
  pub control : Control p
  pub codec : Codec p

abbrev pub M : Platform → Type 0 → Type 0
M p A = Conn p → Outcome ProtError A × Conn p

infixl 5 ◌>>=◌ ◌>>◌
abbrev pub ◌>>=◌ : {p : Platform} {A B : Type 0} → M p A → (A → M p B) → M p B
◌>>=◌ m f s =
    let (out, s') = m s in
    elim out [
      | ok a ↦ f a s'
      | pending ↦ (pending, s')
      | err e ↦ (err e, s')
      | panic ↦ (panic, s')
      | spin ↦ (spin, s')
    ]

abbrev pub ◌>>◌ : {p : Platform} {A B : Type 0} → M p A → M p B → M p B
m >> k = m >>= λ _. k

abbrev pub return : {p : Platform} {A : Type 0} → A → M p A
return a s = (ok a, s)

abbrev pub fail_with : {p : Platform} {A : Type 0} → ProtError → M p A
fail_with e s = (err e, s)

-- `match … { Ready(Err(e)) => return …, _ => () }`: go on where the poll waits.
abbrev pub ignore_pending : {p : Platform} → M p (Unit {0}) → M p (Unit {0})
ignore_pending m s =
    let (out, s') = m s in
    elim out [
      | ok u ↦ (ok tt, s')
      | pending ↦ (ok tt, s')
      | err e ↦ (err e, s')
      | panic ↦ (panic, s')
      | spin ↦ (spin, s')
    ]

-- The streams of the connection.
module _ {A : Type 0} where
  abbrev pub find : ℕ → List (ℕ × A) → Option A
  find k [] = none
  find k ((j, a) ∷ m) = if j == k then some a else find k m

  abbrev pub put : ℕ → A → List (ℕ × A) → List (ℕ × A)
  put k a [] = (k, a) ∷ []
  put k a ((j, b) ∷ m) = if j == k then (k, a) ∷ m else (j, b) ∷ put k a m

  abbrev pub delete : ℕ → List (ℕ × A) → List (ℕ × A)
  delete k [] = []
  delete k ((j, b) ∷ m) = if j == k then delete k m else (j, b) ∷ delete k m

abbrev pub contains : ℕ → List ℕ → Bool
contains k [] = false
contains k (j ∷ s) = if j == k then true else contains k s

module _ (p : Platform) where
  unfoldable pub new : ControlConfig → Bool → ℕ → Control p
  unfolding get_initial_window_size PriorityQueue.new Settings.new Handshake.new_server
      GoAwayState.new PingPong.new
  new config is_server now = record {
    recv_frames = [];
    ready_queue = [];
    last_stream_id = 0;
    send_frames = PriorityQueue.new p (get_initial_window_size config);
    response_queue = [];
    request_queue = [];
    finish_streams = [];
    handshake = Handshake.new_server;
    setting = Settings.new config.settings;
    goaway = GoAwayState.new;
    ping_pong = PingPong.new;
    error = none;
    config = config;
    ready_time = now;
    is_server = is_server;
  }

  unfoldable pub is_read_end : Control p → Bool
  is_read_end k = contains k.last_stream_id k.finish_streams

  unfoldable pub is_write_end : Codec p → Control p → Bool
  is_write_end c k =
      if k.is_server
      then PriorityQueue.is_queue_empty p k.send_frames
        && (Codec.is_write_end p c && is_nil k.response_queue)
      else PriorityQueue.is_queue_empty p k.send_frames
        && (Codec.is_write_end p c && is_nil k.request_queue)

  unfoldable pub is_idle : Codec p → Control p → Bool
  unfolding is_read_end is_write_end
  is_idle c k = is_read_end k && is_write_end c k

  -- The `for` of `encode_response` over the drained list, with what is queued anew.
  encode_responses :
      List (SendResponse p) → PriorityQueue p → List (SendResponse p) × PriorityQueue p
  encode_responses [] q = ([], q)
  encode_responses (l ∷ ls) q =
      let (is_send, vec, l') = Send.encode_response_frames p l in
      let (again, q') = encode_responses ls (PriorityQueue.send_frames p l'.stream_id vec q) in
      (if is_send then again else l' ∷ again, q')

  unfoldable pub encode_response : Control p → Control p
  unfolding encode_responses
  encode_response k =
      let (again, q) = encode_responses k.response_queue k.send_frames in
      record k { response_queue = again; send_frames = q }

  encode_requests : List (SendRequest p) → PriorityQueue p → List (SendRequest p) × PriorityQueue p
  encode_requests [] q = ([], q)
  encode_requests (l ∷ ls) q =
      let (is_end, vec, l') = Send.encode_request_frames p l in
      let (again, q') = encode_requests ls (PriorityQueue.send_frames p l'.stream_id vec q) in
      (if is_end then again else l' ∷ again, q')

  unfoldable pub encode_request : Control p → Control p
  unfolding encode_requests
  encode_request k =
      let (again, q) = encode_requests k.request_queue k.send_frames in
      record k { request_queue = again; send_frames = q }

  unfoldable pub next_stream_id : Control p → ℕ × Control p
  next_stream_id k =
      let (id, next) = p.next_id k.config.next_stream_id in
      (id, record k { config = record k.config { next_stream_id = next } })

  unfoldable pub finish_stream : ℕ → Control p → Control p
  finish_stream id k = record k {
    recv_frames = delete id k.recv_frames;
    finish_streams =
        if contains id k.finish_streams then k.finish_streams else id ∷ k.finish_streams;
  }

  unfoldable pub go_away_now : Reason → Control p → Control p
  unfolding GoAwayState.go_away_now
  go_away_now e k = record k {
    goaway =
        GoAwayState.go_away_now
          (record { last_stream_id = k.last_stream_id; reason = e; debug_data = [] }) k.goaway;
  }

  unfoldable pub go_away_now_data : Reason → Bytes → Control p → Control p
  unfolding GoAwayState.go_away_now
  go_away_now_data e d k = record k {
    goaway =
        GoAwayState.go_away_now
          (record { last_stream_id = k.last_stream_id; reason = e; debug_data = d }) k.goaway;
  }

  unfoldable pub last_goaway_reason : Control p → Reason
  last_goaway_reason k = k.goaway.reason

  unfoldable pub send_response_may_push : Response p → ℕ → Option ℕ → Control p → Control p
  unfolding Send.new_response
  send_response_may_push res id push k = record k {
    response_queue =
        k.response_queue ++ Send.new_response p id push res "GET" (p.body_is_end res.body) ∷ [];
  }

  unfoldable pub send_request : Request p → Control p → Control p
  unfolding next_stream_id Send.new_request
  send_request req k =
      let (id, k') = next_stream_id k in
      record k' {
        request_queue = k'.request_queue ++ Send.new_request p id req (p.body_is_end req.body) ∷ [];
      }

  unfoldable pub send_response : Response p → ℕ → Control p → Control p
  unfolding send_response_may_push
  send_response res id k = send_response_may_push res id none k

  unfoldable pub set_handshake_status : Bytes → Bool → Control p → Control p
  unfolding Handshake.set_handshake_status
  set_handshake_status binary is_client k = record k {
    handshake = Handshake.set_handshake_status binary is_client k.handshake;
  }

  unfoldable pub set_setting_status : Settings → Bool → Control p → Control p
  unfolding Settings.set_settings
  set_setting_status setting is_done k = record k {
    setting = Settings.set_settings setting is_done k.setting;
  }

  unfoldable pub set_setting_done : Control p → Control p
  unfolding Settings.set_settings_done
  set_setting_done k = record k { setting = Settings.set_settings_done k.setting }

  unfoldable pub get_ready_time : Control p → ℕ
  get_ready_time k = k.ready_time
