-- ===== src/Examples/Api.antt =====
-- Requests to the API over the example's tables.
use Prim.Native.String.{◌++◌ as concat}
use notification_service.Base.{
  ◌≡◌, refl, String, true, none, some, [], ◌∷◌, eqb, arith, if◌then◌else◌, ◌⊎◌,
}
use notification_service.Base.Table.{find, update, count}
use notification_service.Delivery.Text.{is_blank, trim_space}
use notification_service.Queue.Resp.{pos}
use notification_service.Store.Status.{AttemptStatus, is_intent_pending}
use notification_service.Store.Model.{Notification, DispatchIntent, Database}
use notification_service.Store.Action.{ok}
use notification_service.Store.Attempts.{recalculate_notification_status}
use notification_service.Store.Records.{record_audit_event}
use notification_service.Store.Outbox.{create_dispatch_intent, find_intent_of}
use notification_service.Store.Ingest.{
  create_notification, create_delivery_attempt, insert_all,
  create_notification_with_initial_dispatch, get_notification_by_tenant_and_idempotency_key,
}
use notification_service.Store.Ingest.Recovery.{ensure_initial_attempt}
use notification_service.Store.Ingest.Early.{ensure_initial_attempt-early}
use notification_service.Api.{
  Response, allowed, Env, World, ◌>>=◌, write_error, require, read, generate_id, record_audit,
  value, end_of_input, broken, decode_json, enforce_rate_limit, enforce_backpressure, too_large,
}
use notification_service.Api.Steps.{Kept}
use notification_service.Api.Notifications.{
  CreateNotificationRequest, create_notification_handler, admit, accept_request, check_recipient,
  find_existing, or_existing, check_schedule, submit, submit_as, submitted, answer_accepted,
  audit_dispatch,
}
use notification_service.Api.Notifications.Existing.{AddsNothing}
use notification_service.Api.Notifications.Again.{sent_as, submission-again}
use notification_service.Api.Router.{
  Request, RouterDeps, routes, provided, after_prefix, unauthorized, is_too_long, is_authorized,
  handle, guard, dispatch, route_request,
}
use notification_service.Api.Router.Guarded.{HasLongBody, route_request-guarded}
use notification_service.Api.Router.Refused.{route_request-Refuses}
use notification_service.Examples.Fixtures.{tables, order, attempt_in}

abbrev env : Env
env = record {
  now = 50;
  limiter = some (λ tenant_id. allowed);
  queues = none;
  generate_id =
      λ prefix n. concat prefix (if eqb n 0 then "_0" else if eqb n 1 then "_1" else "_2");
  json_string = λ s. s;
  format_time = λ t. "then";
}

abbrev start : World
start = record { db = tables AttemptStatus.pending; monitor = none; ids = 0 }

abbrev submission : CreateNotificationRequest
submission = record {
  id = "n2";
  tenant_id = "acme";
  template_id = "t1";
  idempotency_key = "k2";
  recipient_email = "";
  recipient_webhook_url = "https://one";
  secondary_webhook_url = "";
  scheduled_for = none;
  variables = [];
}

abbrev served : World × Response
served = create_notification_handler env (sent_as submission) start

submission-again_example :
    let (w'', r') =
      create_notification_handler (record env { now = 90 }) (sent_as submission) served.0 in
    (r' ≡ served.1) × AddsNothing served.0.db w''.db
unfolding create_notification_handler decode_json ◌>>=◌ admit require enforce_rate_limit
    enforce_backpressure accept_request read check_recipient or_existing find_existing
    get_notification_by_tenant_and_idempotency_key check_schedule submit generate_id submit_as
    submitted create_notification_with_initial_dispatch insert_all create_notification
    create_delivery_attempt create_dispatch_intent recalculate_notification_status update count find
    answer_accepted audit_dispatch record_audit record_audit_event is_blank trim_space
submission-again_example =
    submission-again env (record env { now = 90 }) submission start served.0 served.1 refl refl refl
      refl refl refl

-- A notification for later, whose first attempt has no intent.
abbrev later_order : Notification
later_order = record order { scheduled_for = some 1000 }

abbrev scheduled : Database
scheduled = record (tables AttemptStatus.pending) { notifications = later_order ∷ [] }

ensure_initial_attempt-early_example :
    let (d', r) = ensure_initial_attempt 50 "n1" "webhook" "a7" "i7" scheduled in
    (i : DispatchIntent) × (r ≡ ok (attempt_in AttemptStatus.pending, i))
    × (find_intent_of d' "a1" ≡ some i)
    × (is_intent_pending i.status ≡ true)
unfolding find
ensure_initial_attempt-early_example =
    ensure_initial_attempt-early 50 later_order (attempt_in AttemptStatus.pending) scheduled "n1"
      "webhook" "a7" "i7" refl refl refl refl refl

-- The pattern that the example's mux picks is part of the dependencies.
abbrev deps : String → RouterDeps
deps pattern = record {
  app_name = "api";
  admin_token = "secret";
  max_request_body_bytes = 0;
  checks = [];
  has_store = true;
  collation = λ s t. true;
  sha256 = λ s. s;
  mux = λ patterns req. some pattern;
  unmatched = λ req. write_error 404 "" "404 page not found";
}

abbrev request : Request
request = record {
  method = "POST";
  path = "/v1/tenants";
  id = "";
  admin_token = "";
  authorization = "Bearer guess";
  has_body = true;
  content_length = 10;
  as_tenant = record {
    first = value (record { id = "new"; name = "New"; daily_quota = pos 5 });
    rest = end_of_input;
  };
  as_template = record { first = broken "field"; rest = end_of_input };
  as_notification = record { first = value (record submission { id = "n1" }); rest = end_of_input };
  as_policy = record { first = broken "field"; rest = end_of_input };
}

route_request-guarded_example :
    (HasLongBody (deps "POST /v1/tenants") request
      × (route_request (deps "POST /v1/tenants") env request start ≡ (start, too_large)))
    ⊎ ((¬ HasLongBody (deps "POST /v1/tenants") request)
        × (route_request (deps "POST /v1/tenants") env request start ≡ (start, unauthorized)))
unfolding routes provided after_prefix is_blank trim_space
route_request-guarded_example =
    route_request-guarded (deps "POST /v1/tenants") env request start "POST /v1/tenants" refl refl
      refl refl refl

-- The id is taken.
route_request-Refuses_example :
    Kept start.db (route_request (deps "POST /v1/notifications") env request start).0.db
unfolding create_notification_handler decode_json ◌>>=◌ admit require enforce_rate_limit
    enforce_backpressure accept_request read check_recipient or_existing find_existing
    get_notification_by_tenant_and_idempotency_key check_schedule submit generate_id submit_as
    submitted create_notification_with_initial_dispatch insert_all create_notification find is_blank
    trim_space route_request dispatch guard handle is_authorized is_too_long routes provided
    after_prefix
route_request-Refuses_example =
    route_request-Refuses (deps "POST /v1/notifications") env request start (omega arith)
