-- ===== src/Store/Model.antt =====
-- internal/store/postgres.go: the rows of the tables, the inputs of the operations and the errors.
-- A time is a number of nanoseconds, and NULL or a nil pointer is `none`.
use notification_service.Base.{ℕ, String, Bool, Option, List}
use notification_service.Store.Status.{AttemptStatus, NotificationStatus, IntentStatus}

-- The instants and spans of time.Time and time.Duration.
abbrev pub Time : Type 0
Time = ℕ

-- map[string]any: a JSON object, with each value as the text of its JSON.
abbrev pub Variables : Type 0
Variables = List (String × String)

pub record Tenant : Type 0 where
  pub id : String
  pub name : String
  pub status : String
  pub daily_quota : ℕ
  pub created_at : Time

pub record Template : Type 0 where
  pub id : String
  pub tenant_id : String
  pub name : String
  pub channel : String
  pub version : ℕ
  pub body : String
  pub created_at : Time

pub record Notification : Type 0 where
  pub id : String
  pub tenant_id : String
  pub template_id : String
  pub idempotency_key : Option String
  pub status : NotificationStatus
  pub recipient_email : Option String
  pub recipient_webhook_url : Option String
  pub secondary_webhook_url : Option String
  pub variables : Variables
  pub scheduled_for : Option Time
  pub promoted_at : Option Time
  pub cancelled_at : Option Time
  pub submitted_at : Time
  pub updated_at : Time

pub record DeliveryAttempt : Type 0 where
  pub id : String
  pub notification_id : String
  pub channel : String
  pub attempt_number : ℕ
  pub status : AttemptStatus
  pub error_code : Option String
  pub error_message : Option String
  pub provider_message_id : Option String
  pub last_error : Option String
  pub next_retry_at : Option Time
  pub started_at : Option Time
  pub completed_at : Option Time
  pub sent_at : Option Time
  pub failed_at : Option Time
  pub dispatch_enqueued_at : Option Time
  pub enqueue_kind : String
  pub provider_used : Option String
  pub failover_used : Bool
  pub dead_letter_id : Option String
  pub replay_of_dead_letter : Option String
  pub created_at : Time
  pub updated_at : Time

pub record DispatchIntent : Type 0 where
  pub id : String
  pub notification_id : String
  pub attempt_id : String
  pub tenant_id : String
  pub channel : String
  pub source : String
  pub status : IntentStatus
  pub last_error : Option String
  pub created_at : Time
  pub claimed_at : Option Time
  pub published_at : Option Time

pub record AuditEvent : Type 0 where
  pub id : String
  pub tenant_id : String
  pub actor : String
  pub action : String
  pub resource_type : String
  pub resource_id : String
  pub metadata : Variables
  pub created_at : Time

pub record DeadLetter : Type 0 where
  pub id : String
  pub notification_id : String
  pub channel : String
  pub final_error : String
  pub dead_lettered_at : Time
  pub replayed_at : Option Time
  pub replay_attempt_id : Option String

pub record DeliveryPolicy : Type 0 where
  pub id : String
  pub tenant_id : Option String
  pub channel : Option String
  pub paused : Option Bool
  pub failover_enabled : Option Bool
  pub scheduling_enabled : Option Bool
  pub replay_allowed : Option Bool
  pub max_attempts_override : Option ℕ
  pub retry_base_delay_seconds : Option ℕ
  pub retry_max_delay_seconds : Option ℕ
  pub created_at : Time
  pub updated_at : Time

pub record ResolvedDeliveryPolicy : Type 0 where
  pub tenant_id : String
  pub channel : String
  pub paused : Bool
  pub failover_enabled : Bool
  pub scheduling_enabled : Bool
  pub replay_allowed : Bool
  pub max_attempts_override : Option ℕ
  pub retry_base_delay_seconds : Option ℕ
  pub retry_max_delay_seconds : Option ℕ

-- What errors.Is tells apart: wrapping an error by fmt.Errorf keeps it. `other` is any other error.
pub data StoreError : Type 0 where
  not_found conflict attempt_already_finalized attempt_already_processing : StoreError
  invalid_state_transition : StoreError
  other : String → StoreError

-- The tables. Rows stand in the order of insertion.
pub record Database : Type 0 where
  pub tenants : List Tenant
  pub templates : List Template
  pub notifications : List Notification
  pub attempts : List DeliveryAttempt
  pub outbox : List DispatchIntent
  pub dead_letters : List DeadLetter
  pub policies : List DeliveryPolicy
  pub audit_events : List AuditEvent
