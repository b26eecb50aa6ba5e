-- ===== src/Ws/Message.antt =====
-- webparse's `OwnedMessage`, and src/ws/option.rs: what a handler asks for when a connection opens.
use dmeng.Prelude.{ℕ, ◌+◌, Option, none, some, ltb, if◌then◌else◌}
use dmeng.Prelude.Poll.{Outcome, ok, panic}
use dmeng.Error.{Bytes, ProtError}

-- A text stands as its bytes.
pub data OwnedMessage (C : Type 0) : Type 0 where
  text : Bytes → OwnedMessage C
  binary : Bytes → OwnedMessage C
  close : Option C → OwnedMessage C
  ping : Bytes → OwnedMessage C
  pong : Bytes → OwnedMessage C

-- A time is in milliseconds, and `R` the receiving end of a channel.
pub record WsOption (R : Type 0) : Type 0 where
  pub interval : Option ℕ
  pub receiver : Option R
  pub next_interval : Option ℕ

module _ {R : Type 0} where
  unfoldable pub new : WsOption R
  new = record { interval = none; receiver = none; next_interval = none }

  -- `assert!(interval > Duration::from_millis(1))`.
  unfoldable pub set_interval : ℕ → ℕ → WsOption R → Outcome ProtError (Unit {0}) × WsOption R
  set_interval now interval o =
      if ltb 1 interval
      then (ok tt, record o { interval = some interval; next_interval = some (now + interval) })
      else (panic, o)

  unfoldable pub set_receiver : R → WsOption R → WsOption R
  set_receiver r o = record o { receiver = some r }
