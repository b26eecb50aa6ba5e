-- ===== src/Layer/Timeout.antt =====
-- src/layer/timeout.rs: the timeouts of a connection. Times are numbers of nanoseconds, `Instant::now()`
-- is an argument, and a `Sleep` is its deadline. Polling a sleep registers the waker; its answer is
-- dropped by the code. `connect_timeout` is only kept here: the connecting code reads it.
pub mod Deadlines
use Prim.Native.String.{String}
use dmeng.Prelude.{ℕ, ◌+◌, Bool, true, false, not, ◌&&◌, Option, none, some, leb, if◌then◌else◌}
use dmeng.Prelude.Poll.{Outcome, ok, err}
use dmeng.Error
use dmeng.Error.{ProtError}

pub record TimeoutLayer : Type 0 where
  pub connect_timeout : Option ℕ
  pub read_timeout : Option ℕ
  pub write_timeout : Option ℕ
  pub timeout : Option ℕ
  pub ka_timeout : Option ℕ
  pub read_timeout_sleep : Option ℕ
  pub write_timeout_sleep : Option ℕ
  pub timeout_sleep : Option ℕ
  pub ka_timeout_sleep : Option ℕ

unfoldable pub new : TimeoutLayer
new = record {
  connect_timeout = none;
  read_timeout = none;
  write_timeout = none;
  timeout = none;
  ka_timeout = none;
  read_timeout_sleep = none;
  write_timeout_sleep = none;
  timeout_sleep = none;
  ka_timeout_sleep = none;
}

-- A clone keeps the configured times and none of the sleeps.
unfoldable pub clone : TimeoutLayer → TimeoutLayer
clone t = record t {
  read_timeout_sleep = none;
  write_timeout_sleep = none;
  timeout_sleep = none;
  ka_timeout_sleep = none;
}

unfoldable pub set_connect_timeout : Option ℕ → TimeoutLayer → TimeoutLayer
set_connect_timeout d t = record t { connect_timeout = d }

unfoldable pub set_read_timeout : Option ℕ → TimeoutLayer → TimeoutLayer
set_read_timeout d t = record t { read_timeout = d }

unfoldable pub set_write_timeout : Option ℕ → TimeoutLayer → TimeoutLayer
set_write_timeout d t = record t { write_timeout = d }

unfoldable pub set_timeout : Option ℕ → TimeoutLayer → TimeoutLayer
set_timeout d t = record t { timeout = d }

unfoldable pub set_ka_timeout : Option ℕ → TimeoutLayer → TimeoutLayer
set_ka_timeout d t = record t { ka_timeout = d }

-- The guarded block that the code writes four times: nothing where the guard fails or no time is
-- configured; else the error once `now >= next`, and otherwise a sleep until `next`.
guarded :
    Bool
    → Option ℕ
    → ℕ
    → ℕ
    → ProtError
    → (ℕ → TimeoutLayer)
    → TimeoutLayer
    → Outcome ProtError (Unit {0}) × TimeoutLayer
guarded false d ready_time now e arm t = (ok tt, t)
guarded true none ready_time now e arm t = (ok tt, t)
guarded true (some d) ready_time now e arm t =
    if leb (ready_time + d) now then (err e, t) else (ok tt, arm (ready_time + d))

check_read : ℕ → String → ℕ → Bool → TimeoutLayer → Outcome ProtError (Unit {0}) × TimeoutLayer
unfolding guarded
check_read now info ready_time is_read_end t =
    guarded (not is_read_end) t.read_timeout ready_time now (Error.read_timeout info)
      (λ next. record t { read_timeout_sleep = some next }) t

check_write : ℕ → String → ℕ → Bool → TimeoutLayer → Outcome ProtError (Unit {0}) × TimeoutLayer
unfolding guarded
check_write now info ready_time is_write_end t =
    guarded (not is_write_end) t.write_timeout ready_time now (Error.write_timeout info)
      (λ next. record t { write_timeout_sleep = some next }) t

check_time : ℕ → String → ℕ → Bool → TimeoutLayer → Outcome ProtError (Unit {0}) × TimeoutLayer
unfolding guarded
check_time now info ready_time both_open t =
    guarded both_open t.timeout ready_time now (Error.time_timeout info)
      (λ next. record t { timeout_sleep = some next }) t

check_ka : ℕ → String → ℕ → Bool → TimeoutLayer → Outcome ProtError (Unit {0}) × TimeoutLayer
unfolding guarded
check_ka now info ready_time is_idle t =
    guarded is_idle t.ka_timeout ready_time now (Error.ka_timeout info)
      (λ next. record t { ka_timeout_sleep = some next }) t

-- Go on with the next block, unless the last one returned.
abbrev and_then :
    Outcome ProtError (Unit {0}) × TimeoutLayer
    → (TimeoutLayer → Outcome ProtError (Unit {0}) × TimeoutLayer)
    → Outcome ProtError (Unit {0}) × TimeoutLayer
and_then (ok u, t) f = f t
and_then (err e, t) f = (err e, t)
and_then (Outcome.pending, t) f = (Outcome.pending, t)
and_then (Outcome.panic, t) f = (Outcome.panic, t)
and_then (Outcome.spin, t) f = (Outcome.spin, t)

unfoldable pub poll_ready :
    ℕ → String → ℕ → Bool → Bool → Bool → TimeoutLayer → Outcome ProtError (Unit {0}) × TimeoutLayer
unfolding check_read check_write check_time check_ka
poll_ready now info ready_time is_read_end is_write_end is_idle t =
    and_then (check_read now info ready_time is_read_end t) λ t1.
      and_then (check_write now info ready_time is_write_end t1) λ t2.
        and_then (check_time now info ready_time (not is_read_end && not is_write_end) t2)
          (check_ka now info ready_time is_idle)

-- `if self.timeout.is_none() { self.timeout = Some(TimeoutLayer::new()) }` of every connection.
unfoldable pub opened : Option TimeoutLayer → TimeoutLayer
opened none = new
opened (some t) = t
