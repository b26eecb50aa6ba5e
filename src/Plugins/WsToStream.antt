-- ===== src/Plugins/WsToStream.antt =====
-- src/plugins/ws_to_stream.rs: the handler of a WebSocket server that hands its messages to a stream.
use dmeng.Prelude.{Bool, false, Option, none, some, if◌then◌else◌}
use dmeng.Prelude.Poll.{Outcome, ok, err, ◌>>=◌}
use dmeng.Error.{Bytes, ProtError, extension}
use dmeng.Ws.Message
use dmeng.Ws.Message.{OwnedMessage, text, binary, close, ping, pong, WsOption}
use dmeng.Ws.Accept.{Texts, Answer, build_request}

-- tokio's channels: an awaited `send`, which is refused where the receiving end is gone.
pub record Channels : Type 1 where
  pub Sender : Type 0
  pub Receiver : Type 0
  pub send : Bytes → Sender → Bool × Sender

-- `send(v).await.map_err(|_| ProtError::Extension("close"))`.
unfoldable pub send_on : (c : Channels) → Bytes → c.Sender → Outcome ProtError (Unit {0}) × c.Sender
send_on c v s = let r = c.send v s in (if r.0 then ok tt else err (extension "close"), r.1)

-- What both handlers do with a message: a text or a binary one is passed on.
unfoldable pub pass_on :
    {C : Type 0} (c : Channels)
    → OwnedMessage C
    → c.Sender
    → Outcome ProtError (Unit {0}) × c.Sender
unfolding send_on
pass_on c (text v) s = send_on c v s
pass_on c (binary v) s = send_on c v s
pass_on c (close r) s = (ok tt, s)
pass_on c (ping v) s = (ok tt, s)
pass_on c (pong v) s = (ok tt, s)

-- The receiver is given away once.
unfoldable pub options : {R : Type 0} → Option R → WsOption R
options none = Message.new
options (some r) = Message.set_receiver r Message.new

-- A plugin, before it runs.
pub record WsToStream (Io Addr Host : Type 0) : Type 0 where
  pub addr : Addr
  pub domain : Option Host
  pub io : Io

module _ {Io Addr Host : Type 0} where
  unfoldable pub new : Io → Addr → WsToStream Io Addr Host
  new io addr = record { addr = addr; domain = none; io = io }

  unfoldable pub set_domain : Host → WsToStream Io Addr Host → WsToStream Io Addr Host
  set_domain domain w = record w { domain = some domain }

pub record Operate (t : Texts) (c : Channels) : Type 0 where
  pub domain : Option t.Text
  pub stream_sender : c.Sender
  pub receiver : Option c.Receiver

-- The answer to an upgrade: 400 where the host is another one.
pub data HostAnswer (t : Texts) : Type 0 where
  host_not_match : HostAnswer t
  shaken : Answer t → HostAnswer t

module _ (t : Texts) (same : t.Text → t.Text → Bool) where
  abbrev is_host : Option t.Text → t.Text → Bool
  is_host none domain = false
  is_host (some host) domain = same host domain

  shake : Option t.Text → Option t.Text → Option t.Text → Outcome ProtError (HostAnswer t)
  shake key protocol version = build_request t key protocol version >>= λ a. ok (shaken a)

  -- The arguments are the request's host and the three headers of an upgrade.
  unfoldable pub on_request :
      (c : Channels)
      → Option t.Text
      → Option t.Text
      → Option t.Text
      → Option t.Text
      → Operate t c
      → Outcome ProtError (HostAnswer t)
  unfolding shake
  on_request c host key protocol version o = elim o.domain [
    | none ↦ shake key protocol version
    | some domain ↦ if is_host host domain then shake key protocol version else ok host_not_match
  ]

module _ (t : Texts) (c : Channels) where
  unfoldable pub on_open : Operate t c → WsOption c.Receiver × Operate t c
  unfolding options
  on_open o = (options o.receiver, record o { receiver = none })

  unfoldable pub on_message :
      {C : Type 0} → OwnedMessage C → Operate t c → Outcome ProtError (Unit {0}) × Operate t c
  unfolding pass_on
  on_message msg o =
      let r = pass_on c msg o.stream_sender in (r.0, record o { stream_sender = r.1 })
