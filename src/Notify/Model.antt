-- ===== src/Notify/Model.antt =====
-- internal/notify/service.go: the records of the in-memory service and its state.
use notification_service.Base.{ℕ, String, Option, List, []}
use notification_service.Store.Model.{Time, Variables}

pub record Tenant : Type 0 where
  pub id : String
  pub name : String
  pub status : String
  pub daily_quota : ℕ
  pub created_at : Time

pub record Template : Type 0 where
  pub id : String
  pub tenant_id : String
  pub name : String
  pub channel : String
  pub version : ℕ
  pub body : String
  pub created_at : Time

pub record DeliveryAttempt : Type 0 where
  pub id : String
  pub notification_id : String
  pub channel : String
  pub attempt_number : ℕ
  pub status : String
  pub error_code : Option String
  pub next_retry_at : Option Time
  pub completed_at : Option Time

pub record Notification : Type 0 where
  pub id : String
  pub tenant_id : String
  pub template_id : String
  pub channels : List String
  pub recipient : Variables
  pub variables : Variables
  pub idempotency_key : String
  pub status : String
  pub submitted_at : Time
  pub attempts : List DeliveryAttempt

pub record Usage : Type 0 where
  pub tenant_id : String
  pub date : String
  pub accepted_notifications : ℕ
  pub daily_quota : ℕ
  pub remaining_quota : ℕ

pub record CreateTenantInput : Type 0 where
  pub id : String
  pub name : String
  pub daily_quota : ℕ

pub record CreateTemplateInput : Type 0 where
  pub id : String
  pub tenant_id : String
  pub name : String
  pub channel : String
  pub body : String

pub record UpdateTemplateInput : Type 0 where
  pub name : String
  pub body : String

pub record CreateNotificationInput : Type 0 where
  pub tenant_id : String
  pub template_id : String
  pub channels : List String
  pub recipient : Option Variables
  pub variables : Option Variables
  pub idempotency_key : String

pub data NotifyError : Type 0 where
  tenant_exists tenant_not_found template_exists template_not_found : NotifyError
  notification_not_found daily_quota_exceeded : NotifyError

pub data Response (A : Type 0) : Type 0 where
  accepted : A → Response A
  refused : NotifyError → Response A

-- The maps, and how many identifiers were drawn. Nothing writes the map of the dead letters.
pub record Service : Type 0 where
  pub tenants : List Tenant
  pub templates : List Template
  pub notifications : List Notification
  pub idempotency_index : List (String × String)
  pub ids : ℕ

abbrev pub new_service : Service
new_service = record {
  tenants = [];
  templates = [];
  notifications = [];
  idempotency_index = [];
  ids = 0;
}
