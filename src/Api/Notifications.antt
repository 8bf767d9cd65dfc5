-- ===== src/Api/Notifications.antt =====
-- internal/http/handlers/api.go: accepting, cancelling and re-driving notifications.
pub mod Refused
pub mod Resubmitted
pub mod Existing
pub mod Again
use notification_service.Base.{
  ℕ, String, Bool, true, false, ◌||◌, ◌==◌, Option, none, some, List, [], ◌∷◌, is_some, not,
  if◌then◌else◌,
}
use notification_service.Delivery.Text.{is_blank, trim_space}
use notification_service.Store.Model.{
  Time, Variables, Template, Notification, DeliveryAttempt, DispatchIntent, StoreError, conflict,
  not_found,
}
use notification_service.Store.Action.{Result, ok, err}
use notification_service.Store.Rows.{get_tenant_by_id, get_template_by_id}
use notification_service.Store.Policy.{resolve_delivery_policy}
use notification_service.Store.Ingest.{
  CreateNotificationParams, CreateNotificationDispatchParams, Accepted,
  get_notification_by_tenant_and_idempotency_key, create_notification_with_initial_dispatch,
}
use notification_service.Store.Ingest.Recovery.{ensure_initial_attempt}
use notification_service.Store.Scheduling.{cancel_scheduled_notification, redrive_notification}
use notification_service.Api.Accounts.{require_text}
use notification_service.Api.{
  Body, error_response, health, readiness, metrics, tenant, template, notification, inspection,
  attempt, attempts, dead_letter, dead_letters, policy, policies, Response, Verdict, allowed,
  denied, unavailable, Env, World, Step, next, reply, Handler, ◌>>=◌, ◌>>◌, pass, respond, serve,
  write_json, write_error, bad_request, missing, conflicting, internal_error, always_internal,
  or_missing, or_missing_or_invalid, require, call, read, generate_id, record_audit, Content,
  decode_json, enforce_rate_limit, enforce_backpressure, too_large,
}

pub record CreateNotificationRequest : Type 0 where
  pub id : String
  pub tenant_id : String
  pub template_id : String
  pub idempotency_key : String
  pub recipient_email : String
  pub recipient_webhook_url : String
  pub secondary_webhook_url : String
  pub scheduled_for : Option Time
  pub variables : Variables

-- 200 for an attempt that was enqueued, else 202 after an audit event.
unfoldable pub answer_existing : Env → Notification → DeliveryAttempt → Handler Response
answer_existing env existing a =
    if is_some a.dispatch_enqueued_at then respond (write_json 200 (notification existing)) else (do
      record_audit env existing.tenant_id "dispatch_pending" "delivery_attempt" a.id (
          ("notification_id", env.json_string existing.id)
          ∷ (("channel", env.json_string a.channel) ∷ (("source", env.json_string "initial") ∷ [])))
      respond (write_json 202 (notification existing)))

-- ensureInitialAttempt: always an answer.
unfoldable pub recover_existing : Env → Notification → Handler Response
recover_existing env existing = do
  t ← read always_internal (get_template_by_id existing.template_id)
  attempt_id ← generate_id env "attempt"
  intent_id ← generate_id env "intent"
  made ←
      call (or_missing "notification not found")
        (ensure_initial_attempt env.now existing.id t.channel attempt_id intent_id)
  answer_existing env existing made.0

-- The switch on the template's channel.
unfoldable pub check_recipient : CreateNotificationRequest → String → Handler (Unit {0})
check_recipient req channel =
    if channel == "email"
    then require (not (trim_space req.recipient_email == ""))
        (bad_request "recipient_email is required for email templates")
    else if channel == "webhook"
    then require (not (trim_space req.recipient_webhook_url == ""))
        (bad_request "recipient_webhook_url is required for webhook templates")
    else respond internal_error

-- A notification under the request's idempotency key.
unfoldable pub find_existing : CreateNotificationRequest → World → Option Notification
find_existing req w =
    if req.idempotency_key == ""
    then none
    else elim (get_notification_by_tenant_and_idempotency_key req.tenant_id req.idempotency_key
        w.db) [ ok n ↦ some n | err e ↦ none ]

-- Answer with the notification that is there, else go on.
unfoldable pub or_existing : Env → CreateNotificationRequest → Handler Response → Handler Response
or_existing env req go w = elim (find_existing req w) [
  | some n ↦ recover_existing env n w
  | none ↦ go w
]

-- The pointer to a text that is not empty.
abbrev pub optional : String → Option String
optional text = if text == "" then none else some text

abbrev pub params_of : CreateNotificationRequest → CreateNotificationParams
params_of req = record {
  id = req.id;
  tenant_id = req.tenant_id;
  template_id = req.template_id;
  idempotency_key = optional req.idempotency_key;
  recipient_email = optional (trim_space req.recipient_email);
  recipient_webhook_url = optional (trim_space req.recipient_webhook_url);
  secondary_webhook_url = optional (trim_space req.secondary_webhook_url);
  variables = req.variables;
  scheduled_for = req.scheduled_for;
}

-- The audit event after the first, if there is one.
unfoldable pub audit_dispatch : Env → Template → Accepted → Handler (Unit {0})
audit_dispatch env t (n, a, some i) =
    if i.id == ""
    then pass tt
    else record_audit env n.tenant_id "dispatch_intent_created" "dispatch_intent" i.id (
        ("notification_id", env.json_string n.id)
        ∷ (("channel", env.json_string t.channel)
            ∷ (("source", env.json_string "initial")
                ∷ (("attempt_id", env.json_string a.id) ∷ []))))
audit_dispatch env t (n, a, none) = elim n.scheduled_for [
  | none ↦ pass tt
  | some at ↦ record_audit env n.tenant_id "notification_scheduled" "notification" n.id (
      ("template_id", env.json_string n.template_id)
      ∷ (("channel", env.json_string t.channel)
          ∷ (("attempt_id", env.json_string a.id)
              ∷ (("scheduled_for", env.json_string (env.format_time at)) ∷ []))))
]

unfoldable pub answer_accepted : Env → Template → Accepted → Handler Response
answer_accepted env t made = do
  record_audit env made.0.tenant_id "notification_accepted" "notification" made.0.id
      (("template_id", env.json_string made.0.template_id) ∷ [])
  audit_dispatch env t made
  respond (write_json 202 (notification made.0))

abbrev refuse_submission : StoreError → Response
refuse_submission conflict = conflicting "notification already exists"
refuse_submission _ = internal_error

-- On a conflict, the notification that is there meanwhile.
unfoldable pub submitted :
    Env → CreateNotificationRequest → Template → Result Accepted → Handler Response
submitted env req t (ok made) = answer_accepted env t made
submitted env req t (err conflict) = or_existing env req (respond (refuse_submission conflict))
submitted env req t (err e) = respond (refuse_submission e)

abbrev pub dispatch_params :
    CreateNotificationRequest → Template → String → String → CreateNotificationDispatchParams
dispatch_params req t attempt_id intent_id = record {
  notification = params_of req;
  channel = t.channel;
  attempt_id = attempt_id;
  intent_id = intent_id;
}

-- CreateNotificationWithInitialDispatch, and the answer to its result.
unfoldable pub submit_as :
    Env → CreateNotificationRequest → Template → CreateNotificationDispatchParams → Handler Response
submit_as env req t params w =
    let (d, r) = create_notification_with_initial_dispatch env.now params w.db in
    submitted env req t r (record w { db = d })

unfoldable pub submit : Env → CreateNotificationRequest → Template → Handler Response
submit env req t = do
  attempt_id ← generate_id env "attempt"
  intent_id ← generate_id env "intent"
  submit_as env req t (dispatch_params req t attempt_id intent_id)

-- `req.ScheduledFor != nil && !policy.SchedulingEnabled` is refused.
unfoldable pub check_schedule : CreateNotificationRequest → String → Handler (Unit {0})
check_schedule req channel w =
    let policy' = resolve_delivery_policy req.tenant_id channel w.db in
    require (not (is_some req.scheduled_for) || policy'.scheduling_enabled)
      (conflicting "scheduled delivery is disabled for this tenant/channel") w

-- The request that is known, from the lookup of its tenant on.
unfoldable pub accept_request : Env → CreateNotificationRequest → Handler Response
accept_request env req = do
  owner ← read (or_missing "tenant not found") (get_tenant_by_id req.tenant_id)
  t ← read (or_missing "template not found") (get_template_by_id req.template_id)
  require (t.tenant_id == req.tenant_id) (bad_request "template does not belong to tenant")
  check_recipient req t.channel
  or_existing env req (check_schedule req t.channel >>= λ u. submit env req t)

-- Its checks, the limiter's and the monitor's.
unfoldable pub admit : Env → CreateNotificationRequest → Handler (Unit {0})
admit env req = do
  require_text req.id "id is required"
  require_text req.tenant_id "tenant_id is required"
  require_text req.template_id "template_id is required"
  enforce_rate_limit env req.tenant_id
  enforce_backpressure env

unfoldable pub create_notification_handler :
    Env → Content CreateNotificationRequest → World → World × Response
create_notification_handler env content =
    serve do req ← decode_json content; admit env req; accept_request env req

unfoldable pub cancel_notification_handler : Env → String → World → World × Response
cancel_notification_handler env id = serve do
  n ←
      call (or_missing_or_invalid "notification not found" "notification cannot be cancelled")
        (cancel_scheduled_notification env.now id)
  record_audit env n.tenant_id "scheduled_notification_cancelled" "notification" n.id []
  pass (write_json 200 (notification n))

unfoldable pub redrive_notification_handler : Env → String → World → World × Response
redrive_notification_handler env id = serve do
  p ←
      call (or_missing_or_invalid "notification not found" "notification cannot be re-driven")
        (redrive_notification env.now env.now id)
  record_audit env p.notification.tenant_id "manual_redrive_requested" "notification"
      p.notification.id
      (("attempt_id", env.json_string p.attempt.id)
        ∷ (("channel", env.json_string p.attempt.channel) ∷ []))
  record_audit env p.notification.tenant_id "dispatch_intent_created" "dispatch_intent" p.intent.id
      (("notification_id", env.json_string p.notification.id)
        ∷ (("channel", env.json_string p.attempt.channel)
            ∷ (("source", env.json_string p.intent.source)
                ∷ (("attempt_id", env.json_string p.attempt.id) ∷ []))))
  pass (write_json 202 (notification p.notification))
