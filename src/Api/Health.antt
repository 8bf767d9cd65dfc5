-- ===== src/Api/Health.antt =====
-- internal/http/handlers/health.go and metrics.go. What a ping answers at the request is a parameter.
use notification_service.Base.{
  String, Bool, true, false, ◌&&◌, ◌==◌, Option, none, some, List, [], ◌∷◌, is_some, ◌||◌,
  if◌then◌else◌,
}
use notification_service.Pressure.{MetricsSnapshot, metrics as monitor_metrics}
use notification_service.Store.Maintenance.{OperationalMetrics, collect_operational_metrics}
use notification_service.Api.{
  health, readiness, metrics, Response, Env, World, write_json, write_error,
}

-- `none` is a nil Ping, and `false` an error.
pub record DependencyCheck : Type 0 where
  pub name : String
  pub ping : Option Bool

unfoldable pub health_handler : String → World → World × Response
health_handler service_name w =
    let name = if service_name == "" then "notification-platform-api" else service_name in
    (w, write_json 200 (health "ok" name))

abbrev pub status_of : Option Bool → String
status_of none = "unknown"
status_of (some false) = "down"
status_of (some true) = "ok"

abbrev is_up : Option Bool → Bool
is_up none = false
is_up (some up) = up

-- The loop over the checks: the statuses, and whether all are up.
unfoldable pub check_all : List DependencyCheck → List (String × String) × Bool
check_all [] = ([], true)
check_all (c ∷ cs) =
    let (rest, up) = check_all cs in ((c.name, status_of c.ping) ∷ rest, is_up c.ping && up)

unfoldable pub readiness_handler : List DependencyCheck → World → World × Response
readiness_handler checks w =
    let (dependencies, up) = check_all checks in
    (
      w,
      if up
          then write_json 200 (readiness "ready" dependencies)
          else write_json 503 (readiness "not_ready" dependencies),
    )

abbrev answer_metrics : Option MetricsSnapshot → Option OperationalMetrics → Response
answer_metrics pressure operational = write_json 200 (
    metrics (if is_some pressure || is_some operational then "ok" else "disabled") pressure
      operational)

abbrev operational : Bool → Env → World → Option OperationalMetrics
operational false env w = none
operational true env w = some (collect_operational_metrics env.now (some env.now) w.db)

-- The flag says whether there is a provider: collecting its metrics runs queries only.
unfoldable pub metrics_handler : Bool → Env → World → World × Response
metrics_handler provided env w = elim w.monitor [
  | none ↦ (w, answer_metrics none (operational provided env w))
  | some m ↦ elim (monitor_metrics env.now env.queues m) [
    | none ↦ (w, write_error 503 "metrics_unavailable" "unable to collect pressure metrics")
    | some s ↦ (w, answer_metrics (some s) (operational provided env w))
  ]
]
