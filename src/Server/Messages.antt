-- ===== src/Server/Messages.antt =====
-- src/server.rs: `inner_oper_ws`, the loop over the messages of a WebSocket connection, and the whole of
-- `incoming`. An event says which branch of `select!` runs.
use dmeng.Prelude.{ℕ, Bool, true, false, Option, none, some, List, [], ◌∷◌}
use dmeng.Prelude.Poll.{Outcome, pending, ok, err, panic, spin, ◌>>>◌}
use dmeng.Error.{ProtError, extension}
use dmeng.Ws.Message.{OwnedMessage, text, binary, close, ping, pong, WsOption}
use dmeng.Server.Parts.{Parts}
use dmeng.Server.Setup.{Server}
use dmeng.Server.Incoming.{again, ended, upgraded, incoming_loop}

-- The connection has a message, the channel has one or is closed, the interval has passed.
pub data Event (x : Parts) : Type 0 where
  hears : Event x
  receives : Option (OwnedMessage x.CloseData) → Event x
  ticks : Event x

-- What the loop works on.
pub record Talk (x : Parts) : Type 0 where
  pub ws : x.Ws
  pub callback : x.Callback
  pub option : Option (WsOption x.Receiver)

module _ (x : Parts) where
  called : {A : Type 0} → Outcome ProtError A × x.Callback → Talk x → Outcome ProtError A × Talk x
  called a s = (a.0, record s { callback = a.1 })

  sent : Option (OwnedMessage x.CloseData) → Talk x → Talk x
  sent none s = s
  sent (some m) s = record s { ws = x.ws_send_owned_message m s.ws }

  -- A message of the peer.
  unfoldable pub hear : OwnedMessage x.CloseData → Talk x → Outcome ProtError (Unit {0}) × Talk x
  unfolding called sent
  hear (text v) s = called (x.on_message (text v) s.callback) s
  hear (binary v) s = called (x.on_message (binary v) s.callback) s
  hear (close c) s =
      (ok tt, record s { callback = x.on_close c s.callback; ws = x.ws_receiver_close c s.ws })
  hear (ping v) s = called (x.on_ping v s.callback) s >>> λ m t. (ok tt, sent m t)
  hear (pong v) s = called (x.on_pong v s.callback) s

  closing : OwnedMessage x.CloseData → Talk x → Talk x
  closing (close c) s = record s { ws = x.ws_receiver_close c s.ws }
  closing _ s = s

  -- `ok false` is `Ok(())`.
  unfoldable pub turn : Event x → Talk x → Outcome ProtError Bool × Talk x
  unfolding hear closing sent
  turn hears s =
      let a = x.ws_next s.ws in
      (a.0, record s { ws = a.1 }) >>> λ m t. (elim m [
        | none ↦ (ok false, t)
        | some msg ↦ hear msg t >>> λ u v. (ok true, v)
      ])
  turn (receives none) s = (ok false, s)
  turn (receives (some msg)) s = (ok true, sent (some msg) (closing msg s))
  turn ticks s =
      let a = x.on_interval s.option s.callback in
      (a.0, record s { option = a.1; callback = a.2 }) >>> λ u t. (ok true, t)

  -- The loop over the events to come, `ok true` where it still runs.
  unfoldable pub talk : List (Event x) → Talk x → Outcome ProtError Bool × Talk x
  unfolding turn
  talk [] s = (ok true, s)
  talk (e ∷ es) s = turn e s >>> λ more t.
      (let rest = talk es t in elim more [ true ↦ rest | false ↦ (ok false, t) ])

  put_back : Outcome ProtError Bool × Talk x → Server x → Outcome ProtError Bool × Server x
  put_back a s = (a.0, record s { ws = some a.1.ws; callback_ws = some a.1.callback })

  -- Without a connection the loop runs for ever.
  unfoldable pub inner_oper_ws :
      List (Event x) → Option (WsOption x.Receiver) → Server x → Outcome ProtError Bool × Server x
  unfolding talk put_back
  inner_oper_ws es option s = elim s.callback_ws [
    | none ↦ (err (extension "websocket callback is none"), s)
    | some f ↦ elim s.ws [
      | none ↦ (spin, s)
      | some w ↦ put_back (talk es (record { ws = w; callback = f; option = option })) s
    ]
  ]

  -- An error of the WebSocket connection goes to its handler, not to the caller. The `unwrap` is of a
  -- handler that is there, since a connection moves only where it is.
  report : Outcome ProtError Bool × Server x → Outcome ProtError Bool × Server x
  report (err e, s) = elim s.callback_ws [
    | none ↦ (panic, s)
    | some f ↦ (ok false, record s { callback_ws = some (x.on_error e f) })
  ]
  report (ok more, s) = (ok more, s)
  report (pending, s) = (pending, s)
  report (panic, s) = (panic, s)
  report (spin, s) = (spin, s)

  unfoldable pub incoming : ℕ → List (Event x) → Server x → Outcome ProtError Bool × Server x
  unfolding inner_oper_ws report
  incoming fuel es s = incoming_loop x fuel s >>> λ n t. (elim n [
    | again ↦ (ok true, t)
    | ended ↦ (ok false, t)
    | upgraded r o ↦ report (inner_oper_ws es o t)
  ])
