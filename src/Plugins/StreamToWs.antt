-- ===== src/Plugins/StreamToWs.antt =====
-- src/plugins/stream_to_ws.rs: the handler of a WebSocket client that hands its messages to a stream.
use dmeng.Prelude.{List, Bool, Option, none, some}
use dmeng.Prelude.Poll.{Outcome, ok, err}
use dmeng.Error.{ProtError}
use dmeng.Transport.{Result, good, bad}
use dmeng.Ws.Message.{OwnedMessage, WsOption}
use dmeng.Plugins.Copy
use dmeng.Plugins.Copy.{Event, Copy}
use dmeng.Plugins.WsToStream.{Channels, pass_on, options}

pub record StreamToWs (Io Url Host : Type 0) : Type 0 where
  pub url : Url
  pub domain : Option Host
  pub io : Io

module _ {Io Url Host Given : Type 0} where
  -- `parse` is `Url::try_from`.
  unfoldable pub new :
      (Given → Result Url) → Io → Given → Outcome ProtError (StreamToWs Io Url Host)
  new parse io given = elim (parse given) [
    | good url ↦ ok (record { url = url; domain = none; io = io })
    | bad e ↦ err e
  ]

unfoldable pub set_domain :
    {Io Url Host : Type 0} → Host → StreamToWs Io Url Host → StreamToWs Io Url Host
set_domain domain w = record w { domain = some domain }

pub record Operate (c : Channels) : Type 0 where
  pub stream_sender : c.Sender
  pub receiver : Option c.Receiver

module _ (c : Channels) where
  unfoldable pub on_open : Operate c → WsOption c.Receiver × Operate c
  unfolding options
  on_open o = (options o.receiver, record o { receiver = none })

  unfoldable pub on_message :
      {C : Type 0} → OwnedMessage C → Operate c → Outcome ProtError (Unit {0}) × Operate c
  unfolding pass_on
  on_message msg o =
      let r = pass_on c msg o.stream_sender in (r.0, record o { stream_sender = r.1 })

-- The loop is that of the other plugin.
unfoldable pub bind : List Event → Copy → Outcome ProtError Bool × Copy
bind = Copy.bind
