-- ===== src/Ws/State.antt =====
-- src/ws/state/mod.rs: whether a WebSocket connection is open, closing or closed.
use dmeng.Prelude.{Option, none, some}
use dmeng.Ws.Platform.{Platform}

pub data WsState (p : Platform) : Type 0 where
  open_ : WsState p
  closing : p.CloseData → WsState p
  closed : p.CloseData → WsState p

module _ (p : Platform) where
  unfoldable pub set_closing : p.CloseData → WsState p → WsState p
  set_closing close open_ = closing close
  set_closing close (closing d) = closing d
  set_closing close (closed d) = closed d

  unfoldable pub unwrap_or : Option p.CloseData → p.CloseData → p.CloseData
  unwrap_or none d = d
  unwrap_or (some c) d = c

  unfoldable pub set_closed : Option p.CloseData → WsState p → WsState p
  unfolding unwrap_or
  set_closed close open_ = closed (unwrap_or close p.normal)
  set_closed close (closing d) = closed d
  set_closed close (closed d) = closed d
