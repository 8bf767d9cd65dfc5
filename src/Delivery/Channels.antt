-- ===== src/Delivery/Channels.antt =====
-- internal/delivery/service.go: the senders of the two channels, with their failover.
pub mod Failover
use Prim.Native.String.{◌++◌ as concat}
use notification_service.Base.{
  ℕ, ◌==◌, String, Bool, true, false, ◌&&◌, Option, none, some, List, [], ◌∷◌, leb, ltb,
  if◌then◌else◌,
}
use notification_service.Store.Status.{AttemptStatus}
use notification_service.Store.Model.{
  Notification, Template, DeliveryAttempt, ResolvedDeliveryPolicy, StoreError,
  attempt_already_finalized, attempt_already_processing,
}
use notification_service.Store.Action.{Result, ok, err}
use notification_service.Delivery.Text.{is_blank, trim_space}
use notification_service.Delivery.Retry.{RetryPolicy, next_retry_at}
use notification_service.Delivery.Service.{
  DispatchJob, failed_terminal, retry_scheduled, dead_lettered, duplicate_suppressed, Failure,
  terminal, failure_text, is_retryable, maybe_retryable, store_error, delivery_error, empty_result,
  Reply, Provider, webhook_primary, webhook_secondary, smtp_primary, smtp_secondary, provider_name,
  Send, taken, refused, Sender, Service, World, Flow, go, stop, Job, pure, ◌>>=◌, ◌>>◌, call, read,
  attempt, ignore, new_id, send, finish,
}

-- A pointer that is not nil, to a text that is not blank.
abbrev pub present : Option String → Option String
present none = none
present (some t) = if is_blank t then none else some t

-- What the sender of a channel returns.
pub record Delivery : Type 0 where
  pub provider_id : Option String
  pub provider : Option Provider
  pub failover_used : Bool
  pub error : Option Failure

abbrev pub unprepared : String → Delivery
unprepared t = record {
  provider_id = none;
  provider = none;
  failover_used = false;
  error = some (terminal t);
}

abbrev pub delivered : Option String → Provider → Bool → Delivery
delivered provider_id provider failover_used = record {
  provider_id = provider_id;
  provider = some provider;
  failover_used = failover_used;
  error = none;
}

abbrev pub undelivered : Provider → Failure → Delivery
undelivered provider f = record {
  provider_id = none;
  provider = some provider;
  failover_used = false;
  error = some (maybe_retryable f);
}

-- The backup's sender and address, where failover is allowed after this error.
abbrev pub backup_for :
    ResolvedDeliveryPolicy → Failure → Option Sender → Option String → Option (Sender × String)
backup_for policy f (some sender) (some address) =
    if is_retryable (maybe_retryable f) && policy.failover_enabled
    then some (sender, address)
    else none
backup_for policy f _ _ = none

-- A text that is not blank.
abbrev pub string_ptr_or_nil : String → Option String
string_ptr_or_nil t = if is_blank t then none else some t

-- `&providerID` unless it is "".
abbrev pub nonempty : String → Option String
nonempty t = if t == "" then none else some t

module _ {S : Type 0} (v : Service S) (job : DispatchJob) where
  abbrev pub webhook_request : Provider → String → String → Notification → Send
  webhook_request provider url body n = record {
    provider = provider;
    address = url;
    subject = none;
    body = body;
    attempt_id = job.attempt_id;
    notification_id = n.id;
  }

  -- After a failure of the primary endpoint.
  unfoldable pub webhook_failover :
      Failure → Option (Sender × String) → String → Notification → Job S Delivery
  webhook_failover f none body n = pure (undelivered webhook_primary f)
  webhook_failover f (some (sender, url)) body n = do
    answer ← send sender (webhook_request webhook_secondary url body n)
    pure (elim answer [
      | taken id ↦ delivered (string_ptr_or_nil id) webhook_secondary true
      | refused g ↦ undelivered webhook_primary f
    ])

  unfoldable pub webhook_send :
      String → String → Notification → ResolvedDeliveryPolicy → Job S Delivery
  unfolding webhook_failover
  webhook_send url body n policy = do
    answer ← send v.webhook_sender (webhook_request webhook_primary url body n)
    elim answer [
      | taken id ↦ pure (delivered (nonempty id) webhook_primary false)
      | refused f ↦
          webhook_failover f
            (backup_for policy f v.webhook_backup (present n.secondary_webhook_url)) body n
    ]

  unfoldable pub send_webhook : Notification → Template → ResolvedDeliveryPolicy → Job S Delivery
  unfolding webhook_send
  send_webhook n t policy = elim (present n.recipient_webhook_url) [
    | none ↦ pure (unprepared "recipient_webhook_url is required")
    | some url ↦ elim (v.render_template t.body n.variables) [
      | none ↦ pure (unprepared "render template body")
      | some body ↦ webhook_send url body n policy
    ]
  ]

  abbrev pub email_request : Provider → String → String → String → Notification → Send
  email_request provider to subject body n = record {
    provider = provider;
    address = to;
    subject = some subject;
    body = body;
    attempt_id = job.attempt_id;
    notification_id = n.id;
  }

  unfoldable pub email_failover :
      Failure → Option (Sender × String) → String → String → Notification → Job S Delivery
  email_failover f none subject body n = pure (undelivered smtp_primary f)
  email_failover f (some (sender, to)) subject body n = do
    answer ← send sender (email_request smtp_secondary to subject body n)
    pure (elim answer [
      | taken id ↦ delivered none smtp_secondary true
      | refused g ↦ undelivered smtp_primary f
    ])

  unfoldable pub email_send :
      String → String → String → Notification → ResolvedDeliveryPolicy → Job S Delivery
  unfolding email_failover
  email_send to subject body n policy = do
    answer ← send v.email_sender (email_request smtp_primary to subject body n)
    elim answer [
      | taken id ↦ pure (delivered none smtp_primary false)
      | refused f ↦ email_failover f (backup_for policy f v.email_backup (some to)) subject body n
    ]

  -- The template's name, or a text with the notification's identifier.
  abbrev pub subject_of : Notification → Template → String
  subject_of n t =
      if trim_space t.name == "" then concat "notification " n.id else trim_space t.name

  unfoldable pub send_email : Notification → Template → ResolvedDeliveryPolicy → Job S Delivery
  unfolding email_send
  send_email n t policy = elim (present n.recipient_email) [
    | none ↦ pure (unprepared "recipient_email is required")
    | some to ↦ elim (v.render_template t.body n.variables) [
      | none ↦ pure (unprepared "render template body")
      | some body ↦ email_send to (subject_of n t) body n policy
    ]
  ]
