-- ===== src/Delivery/Retry.antt =====
-- internal/delivery/service.go: the retry policy and the time of the next retry.
-- A span of time is a number of nanoseconds, taken from 0: a setting below 0 behaves as 0, for the
-- service tests each by `<= 0` or `> 0`. Spans do not reach 2^62, so doubling one does not wrap.
pub mod Backoff
pub mod Bounds
use notification_service.Base.{
  ℕ, zero, suc, ◌+◌, ◌-◌, ◌*◌, String, Bool, Option, none, some, ◌&&◌, leb, ltb, eqb, if◌then◌else◌,
}
use notification_service.Store.Model.{Time, ResolvedDeliveryPolicy}

pub record RetryPolicy : Type 0 where
  pub max_attempts : ℕ
  pub base_delay : Time
  pub max_delay : Time
  pub exponential_backoff : Bool
  pub jitter : Time
  pub pressure_multiplier : ℕ
  pub pressure_min_delay : Time
  pub queue_depth : Option (String → ℕ)
  pub queue_soft_limit : ℕ
  -- The value that rand.Int63n gives for a bound.
  pub int63n : ℕ → ℕ

abbrev pub second : Time
second = 1000000000

-- The defaults of NewService.
unfoldable pub with_defaults : RetryPolicy → RetryPolicy
with_defaults p = record p {
  max_attempts = if eqb p.max_attempts 0 then 3 else p.max_attempts;
  base_delay = if eqb p.base_delay 0 then 5 * second else p.base_delay;
  max_delay = if eqb p.max_delay 0 then 60 * second else p.max_delay;
  pressure_multiplier = if eqb p.pressure_multiplier 0 then 1 else p.pressure_multiplier;
}

-- The loop `delay *= 2; if delay >= limit { delay = limit; break }`, for so many rounds.
unfoldable pub double_up_to : ℕ → Time → Time → Time
double_up_to limit zero delay = delay
double_up_to limit (suc rounds) delay =
    let rest = double_up_to limit rounds (delay * 2) in
    if leb limit (delay * 2) then limit else rest

-- `*x * time.Second` where x is not nil and positive.
abbrev pub seconds_or : Option ℕ → Time → Time
seconds_or none old = old
seconds_or (some n) old = if ltb 0 n then n * second else old

module _ (policy : RetryPolicy) where
  -- The delay before the policy's own limit.
  unfoldable pub backoff : ResolvedDeliveryPolicy → ℕ → Time
  backoff resolved attempt_number =
      let delay = seconds_or resolved.retry_base_delay_seconds policy.base_delay in
      let max_delay = seconds_or resolved.retry_max_delay_seconds policy.max_delay in
      if policy.exponential_backoff
      then double_up_to max_delay (attempt_number - 1) delay
      else delay

  abbrev pub capped : Time → Time
  capped delay = if ltb policy.max_delay delay then policy.max_delay else delay

  -- The stretch while the channel's queue is at its soft limit.
  unfoldable pub stretched : Time → Time
  stretched delay =
      let longer = double_up_to policy.max_delay (policy.pressure_multiplier - 1) delay in
      if ltb longer policy.pressure_min_delay then policy.pressure_min_delay else longer

  unfoldable pub under_pressure : String → Time → Time
  under_pressure channel delay = elim policy.queue_depth [
    | none ↦ delay
    | some depth ↦
        if ltb 0 policy.queue_soft_limit && leb policy.queue_soft_limit (depth channel)
        then stretched delay
        else delay
  ]

  -- delay + draw - jitter, which `-` stops at 0; then at least one second.
  unfoldable pub jittered : Time → Time
  jittered delay =
      let moved = delay + policy.int63n (policy.jitter * 2 + 1) - policy.jitter in
      if ltb 0 policy.jitter then (if ltb moved second then second else moved) else delay

  unfoldable pub retry_delay : String → ℕ → ResolvedDeliveryPolicy → Time
  retry_delay channel attempt_number resolved =
      jittered (under_pressure channel (capped (backoff resolved attempt_number)))

  unfoldable pub next_retry_at : Time → String → ℕ → ResolvedDeliveryPolicy → Time
  next_retry_at now channel attempt_number resolved =
      now + retry_delay channel attempt_number resolved
