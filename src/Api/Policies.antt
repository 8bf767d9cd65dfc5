-- ===== src/Api/Policies.antt =====
-- internal/http/handlers/api.go: the operators' handlers of the delivery policies. The collation of the
-- database orders the listing.
use notification_service.Base.{
  ℕ, String, Bool, true, false, ◌&&◌, Option, none, some, [], if◌then◌else◌,
}
use notification_service.Delivery.Text.{is_blank, trim_space}
use notification_service.Queue.Resp.{ℤ}
use notification_service.Store.Model.{DeliveryPolicy}
use notification_service.Store.Rows.{get_tenant_by_id}
use notification_service.Store.Policy.{
  upsert_delivery_policy, set_delivery_policy_paused, list_delivery_policies,
  get_delivery_policy_by_id,
}
use notification_service.Api.Accounts.{is_positive, to_nat, is_channel, require_text}
use notification_service.Api.{
  policy, policies, Response, Env, World, Handler, ◌>>=◌, ◌>>◌, pass, serve, write_json,
  bad_request, always_internal, or_missing, require, call, read, record_audit, Content, decode_json,
}

pub record UpsertPolicyRequest : Type 0 where
  pub id : String
  pub tenant_id : Option String
  pub channel : Option String
  pub paused : Option Bool
  pub failover_enabled : Option Bool
  pub scheduling_enabled : Option Bool
  pub replay_allowed : Option Bool
  pub max_attempts_override : Option ℤ
  pub retry_base_delay_seconds : Option ℤ
  pub retry_max_delay_seconds : Option ℤ

-- Global policies have no audit event.
unfoldable pub record_policy_audit : Env → DeliveryPolicy → String → Handler (Unit {0})
record_policy_audit env p action = elim p.tenant_id [
  | none ↦ pass tt
  | some tenant_id ↦
      if is_blank tenant_id
      then pass tt
      else record_audit env tenant_id action "delivery_policy" p.id []
]

abbrev is_set_positive : Option ℤ → Bool
is_set_positive none = true
is_set_positive (some n) = is_positive n

abbrev are_positive : UpsertPolicyRequest → Bool
are_positive req =
    is_set_positive req.max_attempts_override
    && is_set_positive req.retry_base_delay_seconds
    && is_set_positive req.retry_max_delay_seconds

abbrev is_optional_channel : Option String → Bool
is_optional_channel none = true
is_optional_channel (some channel) = is_channel channel

abbrev natural : Option ℤ → Option ℕ
natural none = none
natural (some n) = some (to_nat n)

-- The tenant, trimmed and looked up; a blank one is none.
unfoldable pub resolve_tenant : Option String → Handler (Option String)
resolve_tenant none = pass none
resolve_tenant (some text) = if is_blank text then pass none else (do
  owner ← read (or_missing "tenant not found") (get_tenant_by_id (trim_space text))
  pass (some (trim_space text)))

-- The times are those of the statement.
abbrev row_of : UpsertPolicyRequest → Option String → DeliveryPolicy
row_of req tenant_id = record {
  id = req.id;
  tenant_id = tenant_id;
  channel = req.channel;
  paused = req.paused;
  failover_enabled = req.failover_enabled;
  scheduling_enabled = req.scheduling_enabled;
  replay_allowed = req.replay_allowed;
  max_attempts_override = natural req.max_attempts_override;
  retry_base_delay_seconds = natural req.retry_base_delay_seconds;
  retry_max_delay_seconds = natural req.retry_max_delay_seconds;
  created_at = 0;
  updated_at = 0;
}

unfoldable pub upsert_policy_handler : Env → Content UpsertPolicyRequest → World → World × Response
upsert_policy_handler env content = serve do
  req ← decode_json content
  require_text req.id "id is required"
  require (is_optional_channel req.channel) (bad_request "channel must be one of: email, webhook")
  require (are_positive req) (bad_request "numeric policy overrides must be greater than 0")
  tenant_id ← resolve_tenant req.tenant_id
  p ← call always_internal (upsert_delivery_policy env.now (row_of req tenant_id))
  record_policy_audit env p "delivery_policy_updated"
  pass (write_json 200 (policy p))

-- PausePolicy and ResumePolicy.
abbrev set_paused : Bool → String → Env → String → World → World × Response
set_paused paused action env id = serve do
  p ← call (or_missing "policy not found") (set_delivery_policy_paused env.now id paused)
  record_policy_audit env p action
  pass (write_json 200 (policy p))

unfoldable pub pause_policy_handler : Env → String → World → World × Response
pause_policy_handler = set_paused true "delivery_paused"

unfoldable pub resume_policy_handler : Env → String → World → World × Response
resume_policy_handler = set_paused false "delivery_resumed"

unfoldable pub list_policies_handler : (String → String → Bool) → World → World × Response
list_policies_handler collation w =
    (w, write_json 200 (policies (list_delivery_policies collation w.db)))

unfoldable pub get_policy_handler : String → World → World × Response
get_policy_handler id = serve do
  p ← read (or_missing "policy not found") (get_delivery_policy_by_id id)
  pass (write_json 200 (policy p))
