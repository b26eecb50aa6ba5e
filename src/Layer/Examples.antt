-- ===== src/Layer/Examples.antt =====
-- Runs of src/layer: a limiter of 100 bytes for each period of 10, and timeouts of 5 and 9.
use dmeng.Prelude.{ℕ, ◌+◌, ◌≤◌, ◌≡◌, refl, Bool, false, true, none, some, List, [], ◌∷◌, ltb}
use dmeng.Prelude.Poll.{ok}
use dmeng.Layer.RateLimit
use dmeng.Layer.RateLimit.{Rate, RateLimitLayer, Op, ready, call, poll_call, run}
use dmeng.Layer.RateLimit.Decay.{run-nums-le}
use dmeng.Layer.Timeout
use dmeng.Layer.Timeout.{TimeoutLayer}
use dmeng.Layer.Timeout.Deadlines.{IsArmed, result, poll_ready-IsArmed}

abbrev sleeps : ℕ → ℕ → Bool
sleeps now deadline = ltb now deadline

abbrev stretch : ℕ → ℕ → ℕ → ℕ
stretch per count nums = per + per

abbrev rate : Rate
rate = record { nums = 100; per = 10 }

abbrev ops : List Op
ops = call 5 30 ∷ call 20 10 ∷ call 21 500 ∷ ready 30 30 30 ∷ ready 99 99 99 ∷ []

-- After 30 bytes in the first period the limiter allows 70 for ever.
rate_falls : (run sleeps stretch (RateLimit.new 0 rate) ops).rate.nums ≡ 70
unfolding run RateLimit.step RateLimit.new RateLimit.poll_ready RateLimit.poll_call
rate_falls = refl

run-nums-le_example : (run sleeps stretch (RateLimit.new 0 rate) ops).rate.nums ≤ 100
run-nums-le_example = run-nums-le sleeps stretch 0 rate ops

abbrev watched : TimeoutLayer
watched = record (unfold Timeout.new in Timeout.new) { read_timeout = some 5; ka_timeout = some 9 }

abbrev checked : Bool → ℕ → TimeoutLayer
checked is_read_end now = (result now "server" 10 is_read_end true true watched).1

poll_ready-IsArmed_example :
    ((result 12 "server" 10 false true true watched).0 ≡ ok tt)
    × IsArmed 12 10 true (some 5) (checked false 12).read_timeout_sleep
    × IsArmed 12 10 false none (checked false 12).write_timeout_sleep
    × IsArmed 12 10 false none (checked false 12).timeout_sleep
    × IsArmed 12 10 true (some 9) (checked false 12).ka_timeout_sleep
poll_ready-IsArmed_example = poll_ready-IsArmed 12 "server" 10 false true true watched refl
