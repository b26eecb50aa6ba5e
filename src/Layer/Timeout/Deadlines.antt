-- ===== src/Layer/Timeout/Deadlines.antt =====
-- Which timeout src/layer/timeout.rs reports, and which sleeps it leaves armed.
use Prim.Native.String.{String}
use dmeng.Prelude.{
  ℕ, ◌+◌, ◌<◌, ◌≡◌, ◌∙◌, Bool, true, false, not, ◌&&◌, Option, none, some, List, [], ◌∷◌, arith,
  leb, if◌then◌else◌,
}
use dmeng.Prelude.Poll.{Outcome, ok, err}
use dmeng.Error
use dmeng.Error.{ProtError}
use dmeng.Layer.Timeout.{TimeoutLayer, poll_ready}

-- A rule: is its side of the connection watched, the time configured for it, and its error.
abbrev pub Rule : Type 0
Rule = Bool × Option ℕ × ProtError

-- The rule's deadline has passed at `now`.
abbrev pub is_due : ℕ → ℕ → Rule → Bool
is_due ready_time now (true, some d, e) = leb (ready_time + d) now
is_due ready_time now (true, none, e) = false
is_due ready_time now (false, d, e) = false

-- The error of the first rule that is due.
abbrev pub first_due : ℕ → ℕ → List Rule → Outcome ProtError (Unit {0})
first_due ready_time now [] = ok tt
first_due ready_time now (r ∷ rs) =
    if is_due ready_time now r then err r.2 else first_due ready_time now rs

-- Where a rule is watched and has a configured time, the deadline is ahead and a sleep armed for it.
abbrev pub IsArmed : ℕ → ℕ → Bool → Option ℕ → Option ℕ → Type 0
IsArmed now ready_time true (some d) sleep =
    (now < ready_time + d) × (sleep ≡ some (ready_time + d))
IsArmed now ready_time true none sleep = Unit {0}
IsArmed now ready_time false d sleep = Unit {0}

module _ (now : ℕ) (info : String) (ready_time : ℕ) (is_read_end is_write_end is_idle : Bool)
    (t : TimeoutLayer) where
  abbrev pub rules : List Rule
  rules =
      (not is_read_end, t.read_timeout, Error.read_timeout info)
      ∷ (not is_write_end, t.write_timeout, Error.write_timeout info)
      ∷ (not is_read_end && not is_write_end, t.timeout, Error.time_timeout info)
      ∷ (is_idle, t.ka_timeout, Error.ka_timeout info)
      ∷ []

  -- On every input `poll_ready` answers with the first rule that is due, in the order read, write,
  -- overall, keep-alive, and is ok where none is due.
  poll_ready-first_due :
      (poll_ready now info ready_time is_read_end is_write_end is_idle t).0
      ≡ first_due ready_time now rules
  unfolding poll_ready
  poll_ready-first_due = ground arith

  abbrev pub result : Outcome ProtError (Unit {0}) × TimeoutLayer
  result = poll_ready now info ready_time is_read_end is_write_end is_idle t

  read-IsArmed :
      result.0 ≡ ok tt
      → IsArmed now ready_time (not is_read_end) t.read_timeout result.1.read_timeout_sleep
  unfolding poll_ready
  read-IsArmed h = ground arith

  write-IsArmed :
      result.0 ≡ ok tt
      → IsArmed now ready_time (not is_write_end) t.write_timeout result.1.write_timeout_sleep
  unfolding poll_ready
  write-IsArmed h = ground arith

  time-IsArmed :
      result.0 ≡ ok tt
      → IsArmed now ready_time
          (not is_read_end && not is_write_end)
          t.timeout
          result.1.timeout_sleep
  unfolding poll_ready
  time-IsArmed h = ground arith

  ka-IsArmed :
      result.0 ≡ ok tt → IsArmed now ready_time is_idle t.ka_timeout result.1.ka_timeout_sleep
  unfolding poll_ready
  ka-IsArmed h = ground arith

  -- Where no rule is due, `poll_ready` is ok, and every watched and configured timeout has its sleep armed
  -- at exactly its deadline, which lies ahead.
  pub poll_ready-IsArmed :
      first_due ready_time now rules ≡ ok tt
      → (result.0 ≡ ok tt)
        × IsArmed now ready_time (not is_read_end) t.read_timeout result.1.read_timeout_sleep
        × IsArmed now ready_time (not is_write_end) t.write_timeout result.1.write_timeout_sleep
        × IsArmed now ready_time
            (not is_read_end && not is_write_end)
            t.timeout
            result.1.timeout_sleep
        × IsArmed now ready_time is_idle t.ka_timeout result.1.ka_timeout_sleep
  poll_ready-IsArmed none_due =
      let h = poll_ready-first_due ∙ none_due in
      (h, read-IsArmed h, write-IsArmed h, time-IsArmed h, ka-IsArmed h)
