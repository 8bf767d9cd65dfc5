-- ===== src/Queue/Limiter.antt =====
-- internal/queue/redis.go and limiter.go: the rate limiter of the tenants on the counters of Redis.
pub mod Window
use Prim.Native.String.{◌++◌ as concat}
use notification_service.Base.{
  ℕ, zero, suc, ◌+◌, ◌-◌, ◌*◌, ◌/◌, String, Bool, true, false, ◌==◌, Option, none, some, List, [],
  ◌∷◌, leb, eqb, if◌then◌else◌,
}
use notification_service.Delivery.Service.{DispatchJob}
use notification_service.Queue.Resp.{ℤ, pos, negsuc}
use notification_service.Queue.{PressureSnapshot}
use notification_service.Queue.Jobs.{
  Redis, Reply, Outcome, done, nothing, error, Call, ◌>>=◌, ◌>>◌, give, send_for, any_reply,
  number_of,
}

-- The settings of a limiter; the limiter itself may be nil.
pub record TenantRateLimiter : Type 0 where
  pub limit : ℕ
  pub window : ℕ

module _ (R : Redis) where
  -- INCR, then EXPIRE by whole seconds, rounded up and at least one.
  abbrev pub window_seconds : ℕ → ℕ
  window_seconds window =
      let seconds = (window + 999999999) / 1000000000 in if eqb seconds 0 then 1 else seconds

  abbrev positive_or : ℕ → Outcome ℤ → ℕ
  positive_or window (done (pos n)) = if eqb n 0 then window else n * 1000000000
  positive_or window _ = window

  abbrev start_window : String → ℕ → Call R.State (Unit {0})
  start_window key window =
      send_for R any_reply ("EXPIRE" ∷ (key ∷ (R.itoa (window_seconds window) ∷ [])))

  abbrev at_most : ℤ → ℕ → Bool
  at_most (pos n) limit = leb n limit
  at_most (negsuc n) limit = true

  abbrev is_one : ℤ → Bool
  is_one (pos n) = eqb n 1
  is_one (negsuc n) = false

  -- The verdict, and how long to wait.
  abbrev judged : String → ℕ → ℕ → ℤ → Call R.State (Bool × ℕ)
  judged key limit window counted s =
      if at_most counted limit
      then (s, done (true, 0))
      else (let (s', ttl) = send_for R number_of ("TTL" ∷ (key ∷ [])) s in
          (s', done (false, positive_or window ttl)))

  abbrev rate_key : String → String
  rate_key tenant_id = concat "notify:rate:" tenant_id

  unfoldable pub allow_tenant : String → ℕ → ℕ → Call R.State (Bool × ℕ)
  allow_tenant tenant_id limit window =
      if eqb limit 0 then give (true, 0) else if tenant_id == "" then give (true, 0) else (do
        counted ← send_for R number_of ("INCR" ∷ (rate_key tenant_id ∷ []))
        if is_one counted then start_window (rate_key tenant_id) window else give tt
        judged (rate_key tenant_id) limit window counted)

  unfoldable pub allow : Option TenantRateLimiter → String → Call R.State (Bool × ℕ)
  allow none tenant_id = give (true, 0)
  allow (some l) tenant_id = allow_tenant tenant_id l.limit l.window
