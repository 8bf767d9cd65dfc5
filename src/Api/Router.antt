-- ===== src/Api/Router.antt =====
-- internal/http/router.go: the routes, the administrators' middleware and the limit of a body. The
-- choice of a pattern by http.ServeMux, its answer where none fits, and SHA-256 are parameters. A panic
-- and the log are not modelled, so their middleware pass the request on.
pub mod Guarded
pub mod Refused
use Prim.Native.Char.{code}
use notification_service.Base.{
  ℕ, ◌^◌, String, Bool, true, false, ◌&&◌, ◌||◌, ◌==◌, Option, none, some, List, [], ◌∷◌, map, ltb,
  eqb, not, if◌then◌else◌,
}
use notification_service.Base.Table.{find, by}
use notification_service.Delivery.Text.{is_blank, trim_space}
use notification_service.Api.Accounts.{
  CreateTenantRequest, CreateTemplateRequest, create_tenant_handler, create_template_handler,
}
use notification_service.Api.Notifications.{
  CreateNotificationRequest, create_notification_handler, cancel_notification_handler,
  redrive_notification_handler,
}
use notification_service.Api.Policies.{
  UpsertPolicyRequest, upsert_policy_handler, pause_policy_handler, resume_policy_handler,
  list_policies_handler, get_policy_handler,
}
use notification_service.Api.DeadLetters.{
  list_dead_letters_handler, get_dead_letter_handler, replay_dead_letter_handler,
}
use notification_service.Api.Reads.{
  get_notification_handler, list_notification_attempts_handler, get_attempt_handler,
}
use notification_service.Api.Health.{
  DependencyCheck, health_handler, readiness_handler, metrics_handler,
}
use notification_service.Api.{
  Body, Response, Verdict, allowed, denied, unavailable, Env, World, Step, next, reply, Handler,
  ◌>>=◌, ◌>>◌, pass, respond, serve, write_json, write_error, bad_request, missing, conflicting,
  internal_error, always_internal, or_missing, or_missing_or_invalid, require, call, read,
  generate_id, record_audit, Content, decode_json, enforce_rate_limit, enforce_backpressure,
  too_large,
}

-- `id` is the path's value, and each content is what decoding the body, cut at the limit, into that
-- type finds. `content_length` is 0 where it is not known.
pub record Request : Type 0 where
  pub method : String
  pub path : String
  pub id : String
  pub admin_token : String
  pub authorization : String
  pub has_body : Bool
  pub content_length : ℕ
  pub as_tenant : Content CreateTenantRequest
  pub as_template : Content CreateTemplateRequest
  pub as_notification : Content CreateNotificationRequest
  pub as_policy : Content UpsertPolicyRequest

pub data Endpoint : Type 0 where
  health readiness metrics create_tenant create_template create_notification : Endpoint
  get_notification list_notification_attempts cancel_notification redrive_notification : Endpoint
  get_attempt list_policies upsert_policy get_policy pause_policy resume_policy : Endpoint
  list_dead_letters get_dead_letter replay_dead_letter : Endpoint

-- A mux.Handle, with the administrators' middleware or without.
pub record Route : Type 0 where
  pub pattern : String
  pub is_admin : Bool
  pub endpoint : Endpoint

abbrev public : String → Endpoint → Route
public pattern endpoint = record { pattern = pattern; is_admin = false; endpoint = endpoint }

abbrev admin : String → Endpoint → Route
admin pattern endpoint = record { pattern = pattern; is_admin = true; endpoint = endpoint }

-- The last eleven.
abbrev operator_routes : List Route
operator_routes =
    admin "POST /v1/notifications/{id}/cancel" cancel_notification
    ∷ (admin "POST /v1/notifications/{id}/redrive" redrive_notification
        ∷ (admin "GET /v1/attempts/{id}" get_attempt
            ∷ (admin "GET /v1/policies" list_policies
                ∷ (admin "POST /v1/policies" upsert_policy
                    ∷ (admin "GET /v1/policies/{id}" get_policy
                        ∷ (admin "POST /v1/policies/{id}/pause" pause_policy
                            ∷ (admin "POST /v1/policies/{id}/resume" resume_policy
                                ∷ (admin "GET /v1/dead-letters" list_dead_letters
                                    ∷ (admin "GET /v1/dead-letters/{id}" get_dead_letter
                                        ∷ (admin "POST /v1/dead-letters/{id}/replay"
                                              replay_dead_letter
                                            ∷ []))))))))))

unfoldable pub routes : List Route
routes =
    public "GET /healthz" health
    ∷ (public "GET /readyz" readiness
        ∷ (public "GET /v1/health" health
            ∷ (public "GET /v1/readiness" readiness
                ∷ (admin "GET /metrics" metrics
                    ∷ (admin "GET /v1/metrics" metrics
                        ∷ (admin "POST /v1/tenants" create_tenant
                            ∷ (admin "POST /v1/templates" create_template
                                ∷ (public "POST /v1/notifications" create_notification
                                    ∷ (admin "GET /v1/notifications/{id}" get_notification
                                        ∷ (admin "GET /v1/notifications/{id}/attempts"
                                              list_notification_attempts
                                            ∷ operator_routes))))))))))

-- `mux` gives the pattern that http.ServeMux picks, and `unmatched` its own answer. A limit of 0
-- stands for one that is not positive.
pub record RouterDeps : Type 0 where
  pub app_name : String
  pub admin_token : String
  pub max_request_body_bytes : ℕ
  pub checks : List DependencyCheck
  pub has_store : Bool
  pub collation : String → String → Bool
  pub sha256 : String → String
  pub mux : List String → Request → Option String
  pub unmatched : Request → Response

-- strings.HasPrefix and strings.TrimPrefix.
unfoldable pub after_prefix : String → String → Option String
after_prefix String.[] s = some s
after_prefix (String.◌∷◌ c p) String.[] = none
after_prefix (String.◌∷◌ c p) (String.◌∷◌ d s) =
    let rest = after_prefix p s in if eqb (code c) (code d) then rest else none

abbrev bearer_token : Option String → String
bearer_token none = ""
bearer_token (some rest) = trim_space rest

-- The credentials of a request: the header, else the bearer token.
unfoldable pub provided : Request → String
provided req =
    if trim_space req.admin_token == ""
    then bearer_token (after_prefix "Bearer " (trim_space req.authorization))
    else trim_space req.admin_token

abbrev pub unauthorized : Response
unauthorized = write_error 401 "unauthorized" "admin credentials required"

unfoldable pub is_authorized : RouterDeps → Request → Bool
is_authorized deps req =
    is_blank deps.admin_token || deps.sha256 (provided req) == deps.sha256 deps.admin_token

unfoldable pub is_too_long : RouterDeps → Request → Bool
is_too_long deps req =
    let limit = if eqb deps.max_request_body_bytes 0 then 2 ^ 20 else deps.max_request_body_bytes in
    req.has_body
    && (req.method == "POST" || req.method == "PUT" || req.method == "PATCH")
    && ltb limit req.content_length

module _ (deps : RouterDeps) (env : Env) (req : Request) where
  unfoldable pub handle : Endpoint → World → World × Response
  handle health = health_handler deps.app_name
  handle readiness = readiness_handler deps.checks
  handle metrics = metrics_handler deps.has_store env
  handle create_tenant = create_tenant_handler env req.as_tenant
  handle create_template = create_template_handler env req.as_template
  handle create_notification = create_notification_handler env req.as_notification
  handle get_notification = get_notification_handler req.id
  handle list_notification_attempts = list_notification_attempts_handler req.id
  handle cancel_notification = cancel_notification_handler env req.id
  handle redrive_notification = redrive_notification_handler env req.id
  handle get_attempt = get_attempt_handler req.id
  handle list_policies = list_policies_handler deps.collation
  handle upsert_policy = upsert_policy_handler env req.as_policy
  handle get_policy = get_policy_handler req.id
  handle pause_policy = pause_policy_handler env req.id
  handle resume_policy = resume_policy_handler env req.id
  handle list_dead_letters = list_dead_letters_handler
  handle get_dead_letter = get_dead_letter_handler req.id
  handle replay_dead_letter = replay_dead_letter_handler env req.id

  -- adminMiddleware.
  unfoldable pub guard : Route → World → World × Response
  guard route w =
      if not route.is_admin || is_authorized deps req
      then handle route.endpoint w
      else (w, unauthorized)

  abbrev pub picked : Option Route
  picked = elim (deps.mux (map (λ r. r.pattern) routes) req) [
    | none ↦ none
    | some pattern ↦ find (by (λ r. r.pattern) pattern) routes
  ]

  unfoldable pub dispatch : Option Route → World → World × Response
  dispatch none w = (w, deps.unmatched req)
  dispatch (some route) w = guard route w

  unfoldable pub route_request : World → World × Response
  route_request w = if is_too_long deps req then (w, too_large) else dispatch picked w
