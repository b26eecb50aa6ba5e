-- ===== src/Layer/RateLimit/Budget.antt =====
-- What the budget of src/layer/rate_limit.rs keeps to, and how a rate is displayed.
use dmeng.Prelude.{ℕ, ◌/◌, ◌≤◌, ◌<◌, ◌≡◌, Bool, true, List, [], ◌∷◌, arith, ◌↔◌, ◌≢◌}
use dmeng.Prelude.Poll.{pending}
use dmeng.Layer.RateLimit.{
  Rate, show, shown_millis, RateLimitLayer, new, poll_ready, poll_call, Op, ready, call, step, run,
}

pub record IsWithin (l : RateLimitLayer) : Type 0 where
  pub within : l.left_nums ≤ l.rate.nums

pub new-IsWithin : (now : ℕ) (r : Rate) → IsWithin (new now r)
unfolding new
new-IsWithin now r = omega arith

-- The display loses only what is below a millisecond: it stands for the period in milliseconds.
pub shown_millis-show : (r : Rate) → shown_millis (show r) ≡ r.per / 1_000_000
unfolding show shown_millis
shown_millis-show r = ground arith

module _ (sleep_pending : ℕ → ℕ → Bool) (mul_ratio : ℕ → ℕ → ℕ → ℕ) where
  pub step-IsWithin :
      (l : RateLimitLayer) (o : Op) → IsWithin l → IsWithin (step sleep_pending mul_ratio l o)
  unfolding step poll_ready poll_call
  step-IsWithin l (ready polled now now') v = ground arith
  step-IsWithin l (call now count) v = ground arith

  run_from-IsWithin :
      (l : RateLimitLayer) (os : List Op) → IsWithin l → IsWithin (run sleep_pending mul_ratio l os)
  unfolding run
  run_from-IsWithin l [] v = v
  run_from-IsWithin l (o ∷ os) v =
      run_from-IsWithin (step sleep_pending mul_ratio l o) os (step-IsWithin l o v)

  -- After any calls on a new layer, whatever the times, the sleeps and the ratios answered, the budget
  -- left is at most the rate.
  pub run-IsWithin :
      (now : ℕ) (r : Rate) (os : List Op) → IsWithin (run sleep_pending mul_ratio (new now r) os)
  run-IsWithin now r os = run_from-IsWithin (new now r) os (new-IsWithin now r)

  -- `poll_ready` waits exactly when the budget is spent and the sleep has not elapsed, and then changes
  -- nothing. Where it does not wait and the rate is not zero, there is a budget afterwards.
  pub poll_ready-pending :
      (polled now now' : ℕ) (l : RateLimitLayer)
      → let (out, l') = poll_ready sleep_pending mul_ratio polled now now' l in
        ((out ≡ pending) ↔ ((l.left_nums ≡ 0) × (sleep_pending polled l.sleep ≡ true)))
        × (out ≡ pending → l' ≡ l)
        × (out ≢ pending → 0 < l.rate.nums → 0 < l'.left_nums)
  unfolding poll_ready
  poll_ready-pending polled now now' l = (
    ((λ h. (ground arith, ground arith)), λ h. ground arith),
    (λ h. ground arith),
    λ h k. ground arith,
  )
