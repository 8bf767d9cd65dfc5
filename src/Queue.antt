-- ===== src/Queue.antt =====
-- internal/queue: the connection to Redis, and the pressure of the queues (jobs.go).
pub mod Resp
pub mod Jobs
pub mod Limiter
use notification_service.Base.{ℕ, String, Bool, ◌&&◌, List, any, leb, ltb, not}

-- The depths by the queue's name. A limit of 0 is none.
pub record PressureSnapshot : Type 0 where
  pub depths : List (String × ℕ)
  pub soft_limit : ℕ
  pub hard_limit : ℕ
  pub retry_after : ℕ

unfoldable pub any_soft_limited : PressureSnapshot → Bool
any_soft_limited s = any (λ p. leb s.soft_limit p.1 && ltb 0 s.soft_limit) s.depths

unfoldable pub any_hard_limited : PressureSnapshot → Bool
any_hard_limited s = any (λ p. leb s.hard_limit p.1 && ltb 0 s.hard_limit) s.depths

unfoldable pub accepting_writes : PressureSnapshot → Bool
accepting_writes s = not (any_hard_limited s)
