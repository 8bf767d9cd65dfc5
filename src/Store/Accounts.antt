-- ===== src/Store/Accounts.antt =====
-- internal/store/postgres.go: creating tenants and templates. The constraints that an INSERT checks are
-- those of db/schema.sql but for the enum of channels, whose texts the callers check.
use notification_service.Base.{
  ℕ, String, Bool, ◌&&◌, ◌||◌, ◌==◌, [], ◌∷◌, ◌++◌, any, not, eqb, is_some, if◌then◌else◌,
}
use notification_service.Base.Table.{find, by}
use notification_service.Store.Model.{Time, Tenant, Template, conflict, other}
use notification_service.Store.Action.{Action, ok, err}
use notification_service.Store.Records.{foreign_key}

pub record CreateTenantParams : Type 0 where
  pub id : String
  pub name : String
  pub daily_quota : ℕ

pub record CreateTemplateParams : Type 0 where
  pub id : String
  pub tenant_id : String
  pub name : String
  pub channel : String
  pub version : ℕ
  pub body : String

abbrev new_tenant : Time → CreateTenantParams → Tenant
new_tenant now params = record {
  id = params.id;
  name = params.name;
  status = "active";
  daily_quota = params.daily_quota;
  created_at = now;
}

unfoldable pub create_tenant : Time → CreateTenantParams → Action Tenant
create_tenant now params d =
    if eqb params.daily_quota 0
    then (d, err (other "violates check constraint"))
    else if is_some (find (by (λ t. t.id) params.id) d.tenants)
    then (d, err conflict)
    else (
      record d { tenants = d.tenants ++ new_tenant now params ∷ [] },
      ok (new_tenant now params),
    )

abbrev new_template : Time → CreateTemplateParams → Template
new_template now params = record {
  id = params.id;
  tenant_id = params.tenant_id;
  name = params.name;
  channel = params.channel;
  version = params.version;
  body = params.body;
  created_at = now;
}

-- The unique index on the tenant, the name and the channel.
abbrev is_named : CreateTemplateParams → Template → Bool
is_named params t =
    t.tenant_id == params.tenant_id && t.name == params.name && t.channel == params.channel

unfoldable pub create_template : Time → CreateTemplateParams → Action Template
create_template now params d =
    if eqb params.version 0
    then (d, err (other "violates check constraint"))
    else if is_some (find (by (λ t. t.id) params.id) d.templates)
        || any (is_named params) d.templates
    then (d, err conflict)
    else if not (is_some (find (by (λ t. t.id) params.tenant_id) d.tenants))
    then (d, err foreign_key)
    else (
      record d { templates = d.templates ++ new_template now params ∷ [] },
      ok (new_template now params),
    )
