-- ===== src/Examples/Fixtures.antt =====
-- Rows and tables that the examples share.
use notification_service.Base.{false, true, none, some, [], ◌∷◌, ◌*◌, eqb, if◌then◌else◌}
use notification_service.Store.Status.{AttemptStatus, NotificationStatus, IntentStatus}
use notification_service.Store.Model.{
  Tenant, Template, Notification, DeliveryAttempt, DispatchIntent, ResolvedDeliveryPolicy, Database,
}
use notification_service.Delivery.Retry.{RetryPolicy, second}
use notification_service.Delivery.Service.{DispatchJob, retryable, taken, refused, Service, World}
use notification_service.Delivery.Postgres.{postgres}

abbrev pub order : Notification
order = record {
  id = "n1";
  tenant_id = "acme";
  template_id = "t1";
  idempotency_key = some "k1";
  status = NotificationStatus.accepted;
  recipient_email = some "a@example.com";
  recipient_webhook_url = some "https://one";
  secondary_webhook_url = some "https://two";
  variables = [];
  scheduled_for = none;
  promoted_at = none;
  cancelled_at = none;
  submitted_at = 1;
  updated_at = 1;
}

abbrev pub attempt_in : AttemptStatus → DeliveryAttempt
attempt_in status = record {
  id = "a1";
  notification_id = "n1";
  channel = "webhook";
  attempt_number = 1;
  status = status;
  error_code = none;
  error_message = none;
  provider_message_id = none;
  last_error = none;
  next_retry_at = none;
  started_at = none;
  completed_at = none;
  sent_at = none;
  failed_at = none;
  dispatch_enqueued_at = none;
  enqueue_kind = "initial";
  provider_used = none;
  failover_used = false;
  dead_letter_id = none;
  replay_of_dead_letter = none;
  created_at = 1;
  updated_at = 1;
}

abbrev pub waiting_intent : DispatchIntent
waiting_intent = record {
  id = "i1";
  notification_id = "n1";
  attempt_id = "a1";
  tenant_id = "acme";
  channel = "webhook";
  source = "initial";
  status = IntentStatus.pending;
  last_error = none;
  created_at = 1;
  claimed_at = none;
  published_at = none;
}

abbrev pub next_intent : DispatchIntent
next_intent = record waiting_intent { id = "i2"; attempt_id = "a2"; created_at = 2 }

abbrev pub leased_intent : DispatchIntent
leased_intent = record waiting_intent { status = IntentStatus.publishing; claimed_at = some 10 }

abbrev pub acme : Tenant
acme = record { id = "acme"; name = "Acme"; status = "active"; daily_quota = 5; created_at = 0 }

abbrev pub greeting : Template
greeting = record {
  id = "t1";
  tenant_id = "acme";
  name = "greeting";
  channel = "webhook";
  version = 1;
  body = "hello";
  created_at = 0;
}

-- One notification, with its attempt in this status.
abbrev pub tables : AttemptStatus → Database
tables status = record {
  tenants = acme ∷ [];
  templates = greeting ∷ [];
  notifications = order ∷ [];
  attempts = attempt_in status ∷ [];
  outbox = [];
  dead_letters = [];
  policies = [];
  audit_events = [];
}

abbrev pub ready : Database
ready = record (tables AttemptStatus.pending) { outbox = waiting_intent ∷ [] }

abbrev pub leased : Database
leased = record (tables AttemptStatus.pending) { outbox = leased_intent ∷ [] }

-- Two intents wait, the first is leased, and both are.
abbrev pub two_ready : Database
two_ready = record ready { outbox = waiting_intent ∷ (next_intent ∷ []) }

abbrev pub first_leased : Database
first_leased = record ready { outbox = leased_intent ∷ (next_intent ∷ []) }

abbrev pub both_leased : Database
both_leased = record ready {
  outbox =
      leased_intent
      ∷ (record next_intent { status = IntentStatus.publishing; claimed_at = some 20 } ∷ []);
}

-- Three attempts from 5 seconds, doubled up to 60, moved by at most 2.
abbrev pub retry_policy : RetryPolicy
retry_policy = record {
  max_attempts = 3;
  base_delay = 5 * second;
  max_delay = 60 * second;
  exponential_backoff = true;
  jitter = 2 * second;
  pressure_multiplier = 2;
  pressure_min_delay = 10 * second;
  queue_depth = none;
  queue_soft_limit = 0;
  int63n = λ n. 0;
}

abbrev pub failover_policy : ResolvedDeliveryPolicy
failover_policy = record {
  tenant_id = "acme";
  channel = "webhook";
  paused = false;
  failover_enabled = true;
  scheduling_enabled = true;
  replay_allowed = true;
  max_attempts_override = none;
  retry_base_delay_seconds = none;
  retry_max_delay_seconds = none;
}

-- The primary providers fail and the backups deliver.
abbrev pub service : Service Database
service = record {
  store = postgres 100;
  policy = retry_policy;
  now = 100;
  id_generator = λ n. if eqb n 0 then "x1" else "x2";
  webhook_sender = λ before m. refused (retryable "502");
  webhook_backup = some (λ before m. taken "m1");
  email_sender = λ before m. refused (retryable "451");
  email_backup = some (λ before m. taken "");
  render_template = λ body variables. some body;
  format_time = λ t. "then";
}

abbrev pub job : DispatchJob
job = record {
  job_id = "j1";
  notification_id = "n1";
  attempt_id = "a1";
  tenant_id = "acme";
  channel = "webhook";
  created_at = 2;
}

abbrev pub world : Database → World Database
world d = record { state = d; sends = []; ids = 0 }
