-- ===== src/Delivery/Retry/Bounds.antt =====
-- internal/delivery/service.go: bounds of the delay before a retry.
use notification_service.Base.{
  ℕ, zero, suc, ◌+◌, ◌-◌, ◌*◌, ◌≤◌, ◌<◌, ◌≡◌, ◌⊎◌, String, arith, ltb, if◌then◌else◌,
}
use notification_service.Store.Model.{Time, ResolvedDeliveryPolicy}
use notification_service.Delivery.Retry.{
  RetryPolicy, second, double_up_to, capped, stretched, under_pressure, jittered, backoff,
  retry_delay,
}

double_up_to-le : (limit rounds delay : ℕ) → delay ≤ limit → double_up_to limit rounds delay ≤ limit
unfolding double_up_to
double_up_to-le limit zero delay h = h
double_up_to-le limit (suc n) delay h = ground (arith, double_up_to-le limit n (delay * 2))

module _ (policy : RetryPolicy) where
  -- The longest delay before jitter: the policy's limit, or its least delay under pressure.
  abbrev pub ceiling : Time
  ceiling =
      if ltb policy.max_delay policy.pressure_min_delay
      then policy.pressure_min_delay
      else policy.max_delay

  stretched-le : (delay : Time) → delay ≤ policy.max_delay → stretched policy delay ≤ ceiling
  unfolding stretched
  stretched-le delay h =
      ground (arith, double_up_to-le policy.max_delay (policy.pressure_multiplier - 1) delay h)

  under_pressure-le :
      (channel : String) (delay : Time)
      → delay ≤ policy.max_delay
      → under_pressure policy channel delay ≤ ceiling
  unfolding under_pressure
  under_pressure-le channel delay h = ground (arith, stretched-le delay h)

  capped-le : (delay : Time) → capped policy delay ≤ policy.max_delay
  capped-le delay = ground arith

  unjittered : (delay : Time) → policy.jitter ≡ 0 → jittered policy delay ≡ delay
  unfolding jittered
  unjittered delay none_set = ground arith

  jittered_bounds :
      (delay : Time)
      → 0 < policy.jitter
      → policy.int63n (policy.jitter * 2 + 1) < policy.jitter * 2 + 1
      → (second ≤ jittered policy delay)
        × ((jittered policy delay ≡ second) ⊎ (jittered policy delay ≤ delay + policy.jitter))
  unfolding jittered
  jittered_bounds delay set drawn = ground arith

  module _ (channel : String) (attempt_number : ℕ) (resolved : ResolvedDeliveryPolicy) where
    abbrev before_jitter : Time
    before_jitter =
        under_pressure policy channel (capped policy (backoff policy resolved attempt_number))

    before_jitter-le : before_jitter ≤ ceiling
    before_jitter-le =
        under_pressure-le channel (capped policy (backoff policy resolved attempt_number))
          (capped-le (backoff policy resolved attempt_number))

    -- Without jitter, the delay before a retry is at most the larger of the service's longest
    -- delay and its least delay under pressure, whatever the policy of the tenant says.
    pub retry_delay-le :
        policy.jitter ≡ 0 → retry_delay policy channel attempt_number resolved ≤ ceiling
    unfolding retry_delay
    retry_delay-le none_set = rw (unjittered before_jitter none_set) before_jitter-le

    -- With jitter set and a draw in its range, the delay before a retry is at least a second, and
    -- it is a second or at most the ceiling and the jitter together, where the ceiling is the
    -- larger of the service's longest delay and its least delay under pressure.
    pub retry_delay_bounds :
        0 < policy.jitter
        → policy.int63n (policy.jitter * 2 + 1) < policy.jitter * 2 + 1
        → (second ≤ retry_delay policy channel attempt_number resolved)
          × ((retry_delay policy channel attempt_number resolved ≡ second)
              ⊎ (retry_delay policy channel attempt_number resolved ≤ ceiling + policy.jitter))
    unfolding retry_delay
    retry_delay_bounds set drawn =
        ground (arith, jittered_bounds before_jitter set drawn, before_jitter-le)
