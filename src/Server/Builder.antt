-- ===== src/Server/Builder.antt =====
-- src/server.rs: the builder, which is its option.
use dmeng.Prelude.{ℕ, Option, none, some, List, [], ◌∷◌, ◌++◌}
use dmeng.Layer.Timeout
use dmeng.Layer.Timeout.{TimeoutLayer, opened}
use dmeng.Server.Parts.{Parts}
use dmeng.Server.Setup
use dmeng.Server.Setup.{Server, cloned}

pub record ServerOption (Addr Middle : Type 0) : Type 0 where
  pub addr : Option Addr
  pub timeout : Option TimeoutLayer
  pub middles : List Middle

module _ {Addr Middle : Type 0} where
  -- `base` is `BaseMiddleware::new(false)`.
  unfoldable pub new : Middle → ServerOption Addr Middle
  new base = record { addr = none; timeout = none; middles = base ∷ [] }

  unfoldable pub connect_timeout : ℕ → ServerOption Addr Middle → ServerOption Addr Middle
  connect_timeout d o = record o {
    timeout = some (Timeout.set_connect_timeout (some d) (opened o.timeout));
  }

  unfoldable pub ka_timeout : ℕ → ServerOption Addr Middle → ServerOption Addr Middle
  ka_timeout d o = record o { timeout = some (Timeout.set_ka_timeout (some d) (opened o.timeout)) }

  unfoldable pub read_timeout : ℕ → ServerOption Addr Middle → ServerOption Addr Middle
  read_timeout d o = record o {
    timeout = some (Timeout.set_read_timeout (some d) (opened o.timeout));
  }

  unfoldable pub write_timeout : ℕ → ServerOption Addr Middle → ServerOption Addr Middle
  write_timeout d o = record o {
    timeout = some (Timeout.set_write_timeout (some d) (opened o.timeout));
  }

  unfoldable pub timeout : ℕ → ServerOption Addr Middle → ServerOption Addr Middle
  timeout d o = record o { timeout = some (Timeout.set_timeout (some d) (opened o.timeout)) }

  unfoldable pub timeout_layer :
      Option TimeoutLayer → ServerOption Addr Middle → ServerOption Addr Middle
  timeout_layer t o = record o { timeout = t }

  unfoldable pub addr : Addr → ServerOption Addr Middle → ServerOption Addr Middle
  addr a o = record o { addr = some a }

  unfoldable pub middle : Middle → ServerOption Addr Middle → ServerOption Addr Middle
  middle m o = record o { middles = o.middles ++ m ∷ [] }

-- The middlewares of the builder are not handed on.
unfoldable pub stream : (x : Parts) → x.Io → ServerOption x.Addr x.Middle → Server x
stream x io o = Setup.set_timeout_layer x (cloned x o.timeout) (Setup.new x io o.addr)
