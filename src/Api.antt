-- ===== src/Api.antt =====
-- internal/http/handlers (api.go, response.go): what the handlers of the HTTP API share, as a monad of
-- steps over the store and the monitor; a step may answer the request, which ends the handler. A
-- request sees one instant. The limiter, the queues' depths, encoding/json and the random identifiers
-- are parameters, and a log is not modelled.
pub mod Accounts
pub mod Notifications
pub mod Policies
pub mod DeadLetters
pub mod Reads
pub mod Health
pub mod Router
pub mod Steps
pub mod Refusals
use Prim.Native.String.{◌++◌ as concat}
use notification_service.Base.{
  ℕ, suc, String, Bool, true, ◌==◌, Option, none, some, List, not, if◌then◌else◌,
}
use notification_service.Store.Model.{
  Time, Variables, Tenant, Template, Notification, DeliveryAttempt, DeadLetter, DeliveryPolicy,
  Database, StoreError, not_found, invalid_state_transition,
}
use notification_service.Store.Action.{Action, Result, ok, err}
use notification_service.Store.Maintenance.{OperationalMetrics}
use notification_service.Store.Records.{record_audit_event}
use notification_service.Queue.{
  PressureSnapshot, accepting_writes, any_hard_limited, any_soft_limited,
}
use notification_service.Pressure.{
  Monitor, MetricsSnapshot, Source, snapshot, inc_rate_limited, inc_rejected,
}

-- The values that writeJSON encodes.
pub data Body : Type 0 where
  error_response : String → String → Body
  health : String → String → Body
  readiness : String → List (String × String) → Body
  metrics : String → Option MetricsSnapshot → Option OperationalMetrics → Body
  tenant : Tenant → Body
  template : Template → Body
  notification : Notification → Body
  inspection : Notification → List DeliveryAttempt → Body
  attempt : DeliveryAttempt → Body
  attempts : List DeliveryAttempt → Body
  dead_letter : DeadLetter → Body
  dead_letters : List DeadLetter → Body
  policy : DeliveryPolicy → Body
  policies : List DeliveryPolicy → Body

-- The span of the header Retry-After, before it is printed in seconds.
pub record Response : Type 0 where
  pub status : ℕ
  pub retry_after : Option Time
  pub body : Body

-- What Allow answers.
pub data Verdict : Type 0 where
  allowed : Verdict
  denied : Time → Verdict
  unavailable : Verdict

-- What a request meets: `none` for the limiter is a nil limiter.
pub record Env : Type 0 where
  pub now : Time
  pub limiter : Option (String → Verdict)
  pub queues : Source
  pub generate_id : String → ℕ → String
  pub json_string : String → String
  pub format_time : Time → String

-- `ids` counts the identifiers that were drawn; `none` for the monitor is a nil monitor.
pub record World : Type 0 where
  pub db : Database
  pub monitor : Option Monitor
  pub ids : ℕ

pub data Step (A : Type 0) : Type 0 where
  next : A → Step A
  reply : Response → Step A

abbrev pub Handler : Type 0 → Type 0
Handler A = World → World × Step A

abbrev continue : {A B : Type 0} → World → Step A → (A → Handler B) → World × Step B
continue w (next a) f = f a w
continue w (reply r) f = (w, reply r)

infixl 5 ◌>>=◌ ◌>>◌
unfoldable pub ◌>>=◌ : {A B : Type 0} → Handler A → (A → Handler B) → Handler B
◌>>=◌ m f w = let (w', s) = m w in continue w' s f

abbrev pub ◌>>◌ : {B : Type 0} → Handler (Unit {0}) → Handler B → Handler B
m >> k = m >>= λ _. k

abbrev pub pass : {A : Type 0} → A → Handler A
pass a w = (w, next a)

abbrev pub respond : {A : Type 0} → Response → Handler A
respond r w = (w, reply r)

abbrev pub outcome : Step Response → Response
outcome (next r) = r
outcome (reply r) = r

-- A whole handler: what it answered with, or the response at its end.
abbrev pub serve : Handler Response → World → World × Response
serve m w = let (w', s) = m w in (w', outcome s)

abbrev pub write_json : ℕ → Body → Response
write_json status body = record { status = status; retry_after = none; body = body }

abbrev pub write_error : ℕ → String → String → Response
write_error status code message = write_json status (error_response code message)

abbrev pub bad_request : String → Response
bad_request message = write_error 400 "bad_request" message

abbrev pub missing : String → Response
missing message = write_error 404 "not_found" message

abbrev pub conflicting : String → Response
conflicting message = write_error 409 "conflict" message

abbrev pub internal_error : Response
internal_error = write_error 500 "internal_error" "internal server error"

-- The ways in which a handler maps an error of the store.
abbrev pub always_internal : StoreError → Response
always_internal e = internal_error

abbrev pub or_missing : String → StoreError → Response
or_missing message not_found = missing message
or_missing message _ = internal_error

abbrev pub or_missing_or_invalid : String → String → StoreError → Response
or_missing_or_invalid absent invalid not_found = missing absent
or_missing_or_invalid absent invalid invalid_state_transition = conflicting invalid
or_missing_or_invalid absent invalid _ = internal_error

-- `if ... { writeError(...); return }`.
unfoldable pub require : Bool → Response → Handler (Unit {0})
require good refusal = if good then pass tt else respond refusal

abbrev answered : {A : Type 0} → (StoreError → Response) → Result A → Step A
answered refuse (ok a) = next a
answered refuse (err e) = reply (refuse e)

-- A call of the store.
unfoldable pub call : {A : Type 0} → (StoreError → Response) → Action A → Handler A
call refuse m w = let (d, r) = m w.db in (record w { db = d }, answered refuse r)

unfoldable pub read : {A : Type 0} → (StoreError → Response) → (Database → Result A) → Handler A
read refuse q w = (w, answered refuse (q w.db))

unfoldable pub generate_id : Env → String → Handler String
generate_id env prefix w = (record w { ids = suc w.ids }, next (env.generate_id prefix w.ids))

-- An error of RecordAuditEvent is logged.
unfoldable pub record_audit :
    Env → String → String → String → String → Variables → Handler (Unit {0})
record_audit env tenant_id action resource_type resource_id metadata w =
    let id = env.generate_id "audit" w.ids in
    let (d, r) =
      record_audit_event env.now id tenant_id "api" action resource_type resource_id metadata
        w.db in
    (record w { db = d; ids = suc w.ids }, next tt)

-- json.Decoder.Decode into a value.
pub data Decoding (A : Type 0) : Type 0 where
  value : A → Decoding A
  end_of_input too_many_bytes : Decoding A
  broken : String → Decoding A

-- What the two calls of Decode find in the body.
pub record Content (A : Type 0) : Type 0 where
  pub first : Decoding A
  pub rest : Decoding (Unit {0})

abbrev pub too_large : Response
too_large = write_error 413 "request_too_large" "request body exceeds configured limit"

abbrev invalid_body : String → Response
invalid_body message = bad_request (concat "invalid request body: " message)

-- decodeJSON, and writeDecodeError with its error.
unfoldable pub decode_json : {A : Type 0} → Content A → Handler A
decode_json c w = elim c.first [
  | too_many_bytes ↦ (w, reply too_large)
  | end_of_input ↦ (w, reply (invalid_body "request body must not be empty"))
  | broken message ↦ (w, reply (invalid_body message))
  | value a ↦ elim c.rest [
    | end_of_input ↦ (w, next a)
    | too_many_bytes ↦ (w, reply too_large)
    | broken _ ↦ (w, reply (invalid_body "request body must contain only a single JSON object"))
    | value _ ↦ (w, reply (invalid_body "request body must contain only a single JSON object"))
  ]
]

abbrev pub with_retry_after : Time → Response → Response
with_retry_after span r = record r { retry_after = some span }

abbrev pressure_unavailable : String → Response
pressure_unavailable message = write_error 503 "pressure_unavailable" message

abbrev count_on : (Monitor → Monitor) → Option Monitor → Option Monitor
count_on f none = none
count_on f (some m) = some (f m)

abbrev judge : Verdict → Handler (Unit {0})
judge allowed w = (w, next tt)
judge unavailable w = (w, reply (pressure_unavailable "unable to evaluate request pressure"))
judge (denied span) w = (
  record w { monitor = count_on inc_rate_limited w.monitor },
  reply (with_retry_after span (write_error 429 "rate_limited" "tenant request rate exceeded")),
)

unfoldable pub enforce_rate_limit : Env → String → Handler (Unit {0})
enforce_rate_limit env tenant_id w = elim env.limiter [
  | none ↦ (w, next tt)
  | some allow ↦ if tenant_id == "" then (w, next tt) else judge (allow tenant_id) w
]

abbrev overloaded : PressureSnapshot → Response
overloaded s = with_retry_after s.retry_after (
    write_error (if any_hard_limited s then 429 else 503) "queue_overloaded"
      "notification service is saturated; retry later")

unfoldable pub enforce_backpressure : Env → Handler (Unit {0})
enforce_backpressure env w = elim w.monitor [
  | none ↦ (w, next tt)
  | some m ↦ elim (snapshot env.queues (some m)) [
    | none ↦ (w, reply (pressure_unavailable "unable to evaluate queue pressure"))
    | some s ↦
        if accepting_writes s
        then (w, next tt)
        else (record w { monitor = some (inc_rejected m) }, reply (overloaded s))
  ]
]
