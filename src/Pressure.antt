-- ===== src/Pressure.antt =====
-- internal/pressure/pressure.go: the monitor of the queues' pressure and its counters. The source of
-- snapshots is a parameter: its answer at the time of the call, where `none` is an error. A counter is
-- the 64 bits of an atomic.Int64.
use notification_service.Base.{ℕ, ◌+◌, ◌%◌, ◌^◌, Option, none, some, [], eqb, if◌then◌else◌}
use notification_service.Store.Model.{Time}
use notification_service.Queue.{PressureSnapshot}

pub record Monitor : Type 0 where
  pub soft_limit : ℕ
  pub hard_limit : ℕ
  pub retry_after : Time
  pub rate_limited_total : ℕ
  pub rejected_total : ℕ
  pub worker_saturated : ℕ
  pub throttled_tenants : ℕ

pub record MetricsSnapshot : Type 0 where
  pub queue : PressureSnapshot
  pub rate_limited_total : ℕ
  pub rejected_total : ℕ
  pub worker_saturated : ℕ
  pub tenant_throttled : ℕ
  pub collected_at : Time

abbrev pub new_monitor : ℕ → ℕ → Time → Monitor
new_monitor soft_limit hard_limit retry_after = record {
  soft_limit = soft_limit;
  hard_limit = hard_limit;
  retry_after = retry_after;
  rate_limited_total = 0;
  rejected_total = 0;
  worker_saturated = 0;
  throttled_tenants = 0;
}

abbrev no_depths : ℕ → ℕ → Time → PressureSnapshot
no_depths soft_limit hard_limit retry_after = record {
  depths = [];
  soft_limit = soft_limit;
  hard_limit = hard_limit;
  retry_after = retry_after;
}

abbrev with_limits : Monitor → PressureSnapshot → PressureSnapshot
with_limits m s = record s {
  soft_limit = m.soft_limit;
  hard_limit = m.hard_limit;
  retry_after = if eqb s.retry_after 0 then m.retry_after else s.retry_after;
}

-- The answers: of no source, or of the source, which may fail.
abbrev pub Source : Type 0
Source = Option (Option PressureSnapshot)

unfoldable pub snapshot : Source → Option Monitor → Option PressureSnapshot
snapshot queues none = some (no_depths 0 0 0)
snapshot none (some m) = some (no_depths m.soft_limit m.hard_limit m.retry_after)
snapshot (some none) (some m) = none
snapshot (some (some s)) (some m) = some (with_limits m s)

abbrev increment : ℕ → ℕ
increment n = (n + 1) % 2 ^ 64

abbrev pub inc_rate_limited : Monitor → Monitor
inc_rate_limited m = record m {
  rate_limited_total = increment m.rate_limited_total;
  throttled_tenants = increment m.throttled_tenants;
}

abbrev pub inc_rejected : Monitor → Monitor
inc_rejected m = record m { rejected_total = increment m.rejected_total }

abbrev pub inc_worker_saturated : Monitor → Monitor
inc_worker_saturated m = record m { worker_saturated = increment m.worker_saturated }

abbrev collected : Time → Monitor → Option PressureSnapshot → Option MetricsSnapshot
collected now m none = none
collected now m (some s) = some (record {
  queue = s;
  rate_limited_total = m.rate_limited_total;
  rejected_total = m.rejected_total;
  worker_saturated = m.worker_saturated;
  tenant_throttled = m.throttled_tenants;
  collected_at = now;
})

unfoldable pub metrics : Time → Source → Monitor → Option MetricsSnapshot
metrics now queues m = collected now m (snapshot queues (some m))
