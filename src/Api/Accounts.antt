-- ===== src/Api/Accounts.antt =====
-- internal/http/handlers/api.go: creating tenants and templates.
use notification_service.Base.{ℕ, String, Bool, false, ◌||◌, ◌==◌, eqb, not}
use notification_service.Delivery.Text.{is_blank}
use notification_service.Queue.Resp.{ℤ, pos, negsuc}
use notification_service.Store.Model.{StoreError, conflict}
use notification_service.Store.Rows.{get_tenant_by_id}
use notification_service.Store.Accounts.{create_tenant, create_template}
use notification_service.Api.{
  tenant, template, Response, Env, World, Handler, ◌>>=◌, ◌>>◌, pass, serve, write_json,
  bad_request, conflicting, internal_error, or_missing, require, call, read, Content, decode_json,
}

pub record CreateTenantRequest : Type 0 where
  pub id : String
  pub name : String
  pub daily_quota : ℤ

pub record CreateTemplateRequest : Type 0 where
  pub id : String
  pub tenant_id : String
  pub name : String
  pub channel : String
  pub version : ℤ
  pub body : String

-- n > 0.
abbrev pub is_positive : ℤ → Bool
is_positive (pos n) = not (eqb n 0)
is_positive (negsuc n) = false

-- A number that was tested to be positive.
abbrev pub to_nat : ℤ → ℕ
to_nat (pos n) = n
to_nat (negsuc n) = 0

abbrev pub is_channel : String → Bool
is_channel channel = channel == "email" || channel == "webhook"

abbrev pub require_text : String → String → Handler (Unit {0})
require_text text message = require (not (is_blank text)) (bad_request message)

-- store.IsConflict.
abbrev or_conflict : String → StoreError → Response
or_conflict message conflict = conflicting message
or_conflict message _ = internal_error

unfoldable pub create_tenant_handler : Env → Content CreateTenantRequest → World → World × Response
create_tenant_handler env content = serve do
  req ← decode_json content
  require_text req.id "id is required"
  require_text req.name "name is required"
  require (is_positive req.daily_quota) (bad_request "daily_quota must be greater than 0")
  made ← call (or_conflict "tenant already exists") (
      create_tenant env.now
        (record { id = req.id; name = req.name; daily_quota = to_nat req.daily_quota }))
  pass (write_json 201 (tenant made))

unfoldable pub create_template_handler :
    Env → Content CreateTemplateRequest → World → World × Response
create_template_handler env content = serve do
  req ← decode_json content
  require_text req.id "id is required"
  require_text req.tenant_id "tenant_id is required"
  require_text req.name "name is required"
  require (is_channel req.channel) (bad_request "channel must be one of: email, webhook")
  require (is_positive req.version) (bad_request "version must be greater than 0")
  require_text req.body "body is required"
  owner ← read (or_missing "tenant not found") (get_tenant_by_id req.tenant_id)
  made ← call (or_conflict "template already exists") (
      create_template env.now (record {
        id = req.id;
        tenant_id = req.tenant_id;
        name = req.name;
        channel = req.channel;
        version = to_nat req.version;
        body = req.body;
      }))
  pass (write_json 201 (template made))
