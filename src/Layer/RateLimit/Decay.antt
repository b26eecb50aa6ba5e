-- ===== src/Layer/RateLimit/Decay.antt =====
-- How src/layer/rate_limit.rs changes the configured rate: a period that ends with budget left over
-- makes that rest the new rate.
use dmeng.Prelude.{ℕ, ◌≤◌, ◌<◌, ◌≡◌, Bool, List, [], ◌∷◌, arith}
use dmeng.Layer.RateLimit.{
  Rate, RateLimitLayer, new, poll_ready, poll_call, Op, ready, call, step, run,
}
use dmeng.Layer.RateLimit.Budget.{IsWithin, new-IsWithin, step-IsWithin}

module _ (sleep_pending : ℕ → ℕ → Bool) (mul_ratio : ℕ → ℕ → ℕ → ℕ) where
  step-nums-le :
      (l : RateLimitLayer) (o : Op)
      → IsWithin l
      → (step sleep_pending mul_ratio l o).rate.nums ≤ l.rate.nums
  unfolding step poll_ready poll_call
  step-nums-le l (ready polled now now') v = ground arith
  step-nums-le l (call now count) v = ground arith

  run_from-nums-le :
      (l : RateLimitLayer) (os : List Op)
      → IsWithin l
      → (run sleep_pending mul_ratio l os).rate.nums ≤ l.rate.nums
  unfolding run
  run_from-nums-le l [] v = omega arith
  run_from-nums-le l (o ∷ os) v = omega (
    arith,
    step-nums-le l o v,
    run_from-nums-le (step sleep_pending mul_ratio l o) os
        (step-IsWithin sleep_pending mul_ratio l o v),
  )

  -- No sequence of calls on a new layer ever raises the rate above the configured one, so a rate that
  -- was lowered is never restored.
  pub run-nums-le :
      (now : ℕ) (r : Rate) (os : List Op)
      → (run sleep_pending mul_ratio (new now r) os).rate.nums ≤ r.nums
  unfolding new
  run-nums-le now r os = run_from-nums-le (new now r) os (new-IsWithin now r)

  -- A call after the end of the period that finds budget left over, but less than the whole rate, lowers
  -- the rate to that rest instead of refilling the budget; the budget does not grow.
  poll_call-lowers-rate :
      (now count : ℕ) (l : RateLimitLayer)
      → l.util < now
      → 0 < l.left_nums
      → l.left_nums < l.rate.nums
      → let l' = poll_call sleep_pending mul_ratio now count l in
        (l'.rate.nums ≡ l.left_nums) × (l'.rate.nums < l.rate.nums) × (l'.left_nums ≤ l.left_nums)
  unfolding poll_call
  poll_call-lowers-rate now count l late some_left less = ground arith
