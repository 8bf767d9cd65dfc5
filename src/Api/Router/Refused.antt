-- ===== src/Api/Router/Refused.antt =====
-- internal/http/router.go: what a request that is answered with an error leaves of the tables.
use notification_service.Base.{refl, arith, ◌≤◌}
use notification_service.Api.{Env, World, ◌>>=◌, read}
use notification_service.Api.Steps.{Kept, Refuses}
use notification_service.Api.Reads.{
  get_notification_handler, get_attempt_handler, list_notification_attempts_handler,
}
use notification_service.Api.Policies.{get_policy_handler, list_policies_handler}
use notification_service.Api.DeadLetters.{get_dead_letter_handler, list_dead_letters_handler}
use notification_service.Api.Health.{metrics_handler, health_handler, readiness_handler}
use notification_service.Api.Notifications.Refused.{
  create_notification-Refuses, cancel_notification-Refuses, redrive_notification-Refuses,
}
use notification_service.Api.Refusals.{
  create_tenant-Refuses, create_template-Refuses, upsert_policy-Refuses, pause_policy-Refuses,
  resume_policy-Refuses, replay_dead_letter-Refuses,
}
use notification_service.Api.Router.{
  Request, Endpoint, RouterDeps, handle, guard, dispatch, route_request,
}

module _ (deps : RouterDeps) (env : Env) (req : Request) where
  handle-Refuses : (endpoint : Endpoint) → Refuses (handle deps env req endpoint)
  unfolding handle health_handler readiness_handler metrics_handler get_notification_handler
      list_notification_attempts_handler get_attempt_handler list_policies_handler
      get_policy_handler list_dead_letters_handler get_dead_letter_handler read ◌>>=◌
  handle-Refuses Endpoint.create_tenant w refused =
      create_tenant-Refuses env req.as_tenant w refused
  handle-Refuses Endpoint.create_template w refused =
      create_template-Refuses env req.as_template w refused
  handle-Refuses Endpoint.create_notification w refused =
      create_notification-Refuses env req.as_notification w refused
  handle-Refuses Endpoint.cancel_notification w refused =
      cancel_notification-Refuses env req.id w refused
  handle-Refuses Endpoint.redrive_notification w refused =
      redrive_notification-Refuses env req.id w refused
  handle-Refuses Endpoint.upsert_policy w refused =
      upsert_policy-Refuses env req.as_policy w refused
  handle-Refuses Endpoint.pause_policy w refused = pause_policy-Refuses env req.id w refused
  handle-Refuses Endpoint.resume_policy w refused = resume_policy-Refuses env req.id w refused
  handle-Refuses Endpoint.replay_dead_letter w refused =
      replay_dead_letter-Refuses env req.id w refused
  handle-Refuses Endpoint.health w refused = ground arith
  handle-Refuses Endpoint.readiness w refused = ground arith
  handle-Refuses Endpoint.metrics w refused = ground arith
  handle-Refuses Endpoint.get_notification w refused = ground arith
  handle-Refuses Endpoint.list_notification_attempts w refused = refl
  handle-Refuses Endpoint.get_attempt w refused = ground arith
  handle-Refuses Endpoint.list_policies w refused = refl
  handle-Refuses Endpoint.get_policy w refused = ground arith
  handle-Refuses Endpoint.list_dead_letters w refused = refl
  handle-Refuses Endpoint.get_dead_letter w refused = ground arith

-- A request to the API that is answered with a status of 400 or more leaves every table but that
-- of the audit events as it was, whichever route it takes, failures of the driver aside.
pub route_request-Refuses :
    (deps : RouterDeps) (env : Env) (req : Request) (w : World)
    → 400 ≤ (route_request deps env req w).1.status
    → Kept w.db (route_request deps env req w).0.db
unfolding route_request dispatch guard
route_request-Refuses deps env req w refused = grind (arith, handle-Refuses)
