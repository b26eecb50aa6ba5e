-- ===== src/Layer/RateLimit.antt =====
-- src/layer/rate_limit.rs: the budget of bytes for one period. A `Duration` and an `Instant` are
-- numbers of nanoseconds, each call of `Instant::now()` is an argument, and the future `Sleep` is its
-- deadline. Parameters: `sleep_pending now deadline` is the answer of polling that future, and
-- `mul_ratio per count nums` is `per.mul_f32(count as f32 / nums as f32 + 1.0)`. `Instant`s do not wrap.
pub mod Budget
pub mod Decay
use dmeng.Prelude.{
  ℕ, suc, ◌+◌, ◌-◌, ◌*◌, ◌/◌, ◌%◌, Bool, true, false, ◌&&◌, List, [], ◌∷◌, ltb, leb, ◌==◌,
  if◌then◌else◌,
}
use dmeng.Prelude.Poll.{Outcome, pending, ok}
use dmeng.Error.{ProtError}

pub record Rate : Type 0 where
  pub nums : ℕ
  pub per : ℕ

unfoldable pub default : Rate
default = record { nums = 0; per = 0 }

-- What `Display` writes: a number and its unit.
pub data Shown : Type 0 where
  ms h min s : ℕ → Shown

unfoldable pub show : Rate → Shown
show r =
    let millis = r.per / 1_000_000 % 1000 in
    let secs = r.per / 1_000_000_000 in
    if ltb 0 millis
    then ms (millis + secs * 1000)
    else if leb 3600 secs && secs % 3600 == 0
    then h (secs / 3600)
    else if leb 60 secs && secs % 60 == 0
    then min (secs / 60)
    else s secs

-- The milliseconds that a shown value stands for.
unfoldable pub shown_millis : Shown → ℕ
shown_millis (ms n) = n
shown_millis (h n) = n * 3_600_000
shown_millis (min n) = n * 60_000
shown_millis (s n) = n * 1000

pub record RateLimitLayer : Type 0 where
  pub rate : Rate
  pub left_nums : ℕ
  pub util : ℕ
  pub sleep : ℕ

unfoldable pub new : ℕ → Rate → RateLimitLayer
new now rate = record { rate = rate; left_nums = rate.nums; util = now; sleep = now }

-- A call of one of the two operations, with the times that it sees.
pub data Op : Type 0 where
  ready : ℕ → ℕ → ℕ → Op
  call : ℕ → ℕ → Op

module _ (sleep_pending : ℕ → ℕ → Bool) (mul_ratio : ℕ → ℕ → ℕ → ℕ) where
  -- The three times are those of the poll and of the two calls of `Instant::now()`.
  unfoldable pub poll_ready :
      ℕ → ℕ → ℕ → RateLimitLayer → Outcome ProtError (Unit {0}) × RateLimitLayer
  poll_ready polled now now' l =
      if ltb 0 l.left_nums
      then (ok tt, l)
      else if sleep_pending polled l.sleep
      then (pending, l)
      else (
        ok tt,
        record l { left_nums = l.rate.nums; util = now + l.rate.per; sleep = now' + l.rate.per },
      )

  -- `self.rate.nums = self.left_nums` stands in the code as it is written here.
  roll_over : ℕ → RateLimitLayer → RateLimitLayer
  roll_over now l =
      if ltb l.util now
      then record l {
        rate = record { nums = l.left_nums; per = l.rate.per };
        util = now + l.rate.per;
      }
      else l

  -- The subtractions run only where they do not wrap.
  spend : ℕ → RateLimitLayer → RateLimitLayer
  spend count l =
      if ltb count l.left_nums
      then record l { left_nums = l.left_nums - count }
      else let util' = l.util + mul_ratio l.rate.per (count - l.left_nums) l.rate.nums in
        record l { left_nums = 0; util = util'; sleep = util' }

  unfoldable pub poll_call : ℕ → ℕ → RateLimitLayer → RateLimitLayer
  unfolding roll_over spend
  poll_call now count l = if l.left_nums == 0 then l else spend count (roll_over now l)

  -- The calls of one body, in order.
  unfoldable pub step : RateLimitLayer → Op → RateLimitLayer
  step l (ready polled now now') = (poll_ready polled now now' l).1
  step l (call now count) = poll_call now count l

  unfoldable pub run : RateLimitLayer → List Op → RateLimitLayer
  run l [] = l
  run l (o ∷ os) = run (step l o) os
