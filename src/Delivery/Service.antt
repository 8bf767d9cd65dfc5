-- ===== src/Delivery/Service.antt =====
-- internal/delivery/service.go: the processing of one job, over the store that it is given, the senders
-- and the template engine. What stands outside of the service is a parameter of it.
use notification_service.Base.{
  ℕ, suc, String, Bool, true, false, Option, none, some, List, [], ◌∷◌, ◌++◌,
}
use notification_service.Store.Model.{
  Time, Variables, Notification, Template, DeliveryAttempt, DeadLetter, ResolvedDeliveryPolicy,
  StoreError,
}
use notification_service.Store.Action.{Result, ok, err}
use notification_service.Delivery.Retry.{RetryPolicy}

-- The payload of a queue job.
pub record DispatchJob : Type 0 where
  pub job_id : String
  pub notification_id : String
  pub attempt_id : String
  pub tenant_id : String
  pub channel : String
  pub created_at : Time

pub data Outcome : Type 0 where
  sent failed_terminal retry_scheduled dead_lettered duplicate_suppressed : Outcome

-- An error of a sender or of the preparation of a message, with its text: a TerminalError, a
-- RetryableError, or one of neither kind.
pub data Failure : Type 0 where
  terminal : String → Failure
  retryable : String → Failure
  unclassified : String → Failure

abbrev pub failure_text : Failure → String
failure_text (terminal t) = t
failure_text (retryable t) = t
failure_text (unclassified t) = t

abbrev pub is_retryable : Failure → Bool
is_retryable (retryable t) = true
is_retryable _ = false

unfoldable pub maybe_retryable : Failure → Failure
maybe_retryable (unclassified t) = retryable t
maybe_retryable f = f

-- The error that `process` returns.
pub data ProcessError : Type 0 where
  store_error : StoreError → ProcessError
  delivery_error : Failure → ProcessError

-- `Result`, whose zero value has the outcome `sent`.
pub record DeliveryResult : Type 0 where
  pub outcome : Outcome
  pub next_retry : Option Time
  pub dead_letter : Option DeadLetter

abbrev pub empty_result : DeliveryResult
empty_result = record { outcome = sent; next_retry = none; dead_letter = none }

abbrev pub Reply : Type 0
Reply = DeliveryResult × Option ProcessError

pub data Provider : Type 0 where
  webhook_primary webhook_secondary smtp_primary smtp_secondary : Provider

abbrev pub provider_name : Provider → String
provider_name webhook_primary = "webhook_primary"
provider_name webhook_secondary = "webhook_secondary"
provider_name smtp_primary = "smtp_primary"
provider_name smtp_secondary = "smtp_secondary"

-- A request to a provider: WebhookRequest or EmailRequest, whose subject is that of an e-mail.
pub record Send : Type 0 where
  pub provider : Provider
  pub address : String
  pub subject : Option String
  pub body : String
  pub attempt_id : String
  pub notification_id : String

-- What a provider answers: the identifier of the message, which e-mail leaves empty, or an error.
pub data Answer : Type 0 where
  taken : String → Answer
  refused : Failure → Answer

-- A provider may answer by what it was sent before.
abbrev pub Sender : Type 0
Sender = List Send → Send → Answer

-- The store that the service depends on, over its state.
pub record NotificationStore (S : Type 0) : Type 0 where
  pub load_delivery_job : String → String → S → Result (Notification × Template × DeliveryAttempt)
  pub get_delivery_attempt_by_id : String → S → Result DeliveryAttempt
  pub resolve_delivery_policy : String → String → S → Result ResolvedDeliveryPolicy
  pub update_attempt_provider : String → String → Bool → S → S × Result (Unit {0})
  pub mark_attempt_in_progress : String → S → S × Result (Unit {0})
  pub mark_attempt_sent : String → Option String → S → S × Result (Unit {0})
  pub mark_attempt_failed : String → String → S → S × Result (Unit {0})
  pub schedule_retry : String → String → Time → S → S × Result (Unit {0})
  pub mark_attempt_dead_lettered : String → String → S → S × Result (Unit {0})
  pub insert_dead_letter : String → String → String → String → S → S × Result DeadLetter
  pub record_audit_event :
      String → String → String → String → String → String → Variables → S → S × Result (Unit {0})

pub record Service (S : Type 0) : Type 0 where
  pub store : NotificationStore S
  pub policy : RetryPolicy
  pub now : Time
  -- The n-th identifier that the generator gives.
  pub id_generator : ℕ → String
  pub webhook_sender : Sender
  pub webhook_backup : Option Sender
  pub email_sender : Sender
  pub email_backup : Option Sender
  -- RenderTemplate, whose engine is text/template: `none` is an error.
  pub render_template : String → Variables → Option String
  pub format_time : Time → String

-- The state of the store, what the providers were sent, and how many identifiers were made.
pub record World (S : Type 0) : Type 0 where
  pub state : S
  pub sends : List Send
  pub ids : ℕ

-- A part of the processing goes on with a value, or ends it with the reply.
pub data Flow (A : Type 0) : Type 0 where
  go : A → Flow A
  stop : Reply → Flow A

abbrev pub reply_of : Flow Reply → Reply
reply_of (go r) = r
reply_of (stop r) = r

abbrev pub Job : Type 0 → Type 0 → Type 0
Job S A = World S → World S × Flow A

abbrev or_stop : {A : Type 0} → Result A → Flow A
or_stop (ok a) = go a
or_stop (err e) = stop (empty_result, some (store_error e))

module _ {S : Type 0} where
  abbrev pub pure : {A : Type 0} → A → Job S A
  pure a w = (w, go a)

  abbrev pub finish : {A : Type 0} → Reply → Job S A
  finish r w = (w, stop r)

  abbrev onward : {A B : Type 0} → World S → Flow A → (A → Job S B) → World S × Flow B
  onward w (go a) f = f a w
  onward w (stop r) f = (w, stop r)

  infixl 5 ◌>>=◌ ◌>>◌
  abbrev pub ◌>>=◌ : {A B : Type 0} → Job S A → (A → Job S B) → Job S B
  ◌>>=◌ m f w = let (w', r) = m w in onward w' r f

  abbrev pub ◌>>◌ : {B : Type 0} → Job S (Unit {0}) → Job S B → Job S B
  m >> k = m >>= λ _. k

  -- `if err != nil { return Result{}, err }` after a call of the store.
  abbrev pub call : {A : Type 0} → (S → S × Result A) → Job S A
  call m w = let (s, r) = m w.state in (record w { state = s }, or_stop r)

  abbrev pub read : {A : Type 0} → (S → Result A) → Job S A
  read q w = (w, or_stop (q w.state))

  -- The outcome of a call, errors included.
  abbrev pub attempt : {A : Type 0} → (S → S × Result A) → Job S (Result A)
  attempt m w = let (s, r) = m w.state in (record w { state = s }, go r)

  -- `_ = ...`: a call whose error is dropped.
  abbrev pub ignore : (S → S × Result (Unit {0})) → Job S (Unit {0})
  ignore m w = let (s, r) = m w.state in (record w { state = s }, go tt)

  abbrev pub new_id : Service S → Job S String
  new_id v w = (record w { ids = suc w.ids }, go (v.id_generator w.ids))

  -- Send.
  abbrev pub send : Sender → Send → Job S Answer
  send sender m w = (record w { sends = w.sends ++ m ∷ [] }, go (sender w.sends m))
