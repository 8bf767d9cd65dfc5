-- ===== src/Api/Steps.antt =====
-- internal/http/handlers: the steps of a handler by what they leave of the tables, and how a chain of
-- steps has the same.
use notification_service.Base.{
  ℕ, ◌<◌, ◌≤◌, ◌≡◌, ◌≢◌, refl, Bool, true, false, String, arith, inl, inr, ◌⊎◌,
}
use notification_service.Store.Model.{
  Variables, Database, StoreError, not_found, conflict, attempt_already_finalized,
  attempt_already_processing, invalid_state_transition, other,
}
use notification_service.Store.Action.{Action, Result, ok, Result-cases}
use notification_service.Store.Records.{record_audit_event}
use notification_service.Store.Atomic.{IsAtomic}
use notification_service.Api.{
  Body, Response, Env, World, Step, next, reply, Handler, ◌>>=◌, ◌>>◌, pass, respond, serve,
  write_json, or_missing, require, call, read, generate_id, record_audit, Content, decode_json,
  enforce_rate_limit, enforce_backpressure,
}

-- No table but that of the audit events differs.
abbrev pub Kept : Database → Database → Type 0
Kept d d' = d' ≡ record d { audit_events = d'.audit_events }

-- A step that keeps the tables, whether it answers or not.
unfoldable pub IsQuiet : {A : Type 0} → Handler A → Type 0
IsQuiet m = (w : World) → Kept w.db (m w).0.db

-- A handler that keeps the tables when it answers with an error.
unfoldable pub IsSafe : Handler Response → Type 0
IsSafe m = (w : World) → 400 ≤ (serve m w).1.status → Kept w.db (serve m w).0.db

-- A handler that answers with no error.
unfoldable pub IsFine : Handler Response → Type 0
IsFine m = (w : World) → (serve m w).1.status < 400

-- The same of a whole handler.
abbrev pub Refuses : (World → World × Response) → Type 0
Refuses handler = (w : World) → 400 ≤ (handler w).1.status → Kept w.db (handler w).0.db

pub serve-Refuses : (m : Handler Response) → IsSafe m → Refuses (serve m)
unfolding IsSafe
serve-Refuses m h w e = h w e

pub Kept-trans : (a b c : Database) → Kept a b → Kept b c → Kept a c
Kept-trans a b c h k = ground (arith, h, k)

Step-cases : {A : Type 0} (s : Step A) → ((a : A) × (s ≡ next a)) ⊎ ((r : Response) × (s ≡ reply r))
Step-cases (next a) = inl (a, refl)
Step-cases (reply r) = inr (r, refl)

module _ {A B : Type 0} (m : Handler A) (f : A → Handler B) where
  pub then-IsQuiet : IsQuiet m → ((a : A) → IsQuiet (f a)) → IsQuiet (m >>= f)
  unfolding IsQuiet ◌>>=◌
  then-IsQuiet h k w = elim (Step-cases (m w).1) [
    | inl (a, e) ↦ rw e (Kept-trans w.db (m w).0.db (f a (m w).0).0.db (h w) (k a (m w).0))
    | inr (r, e) ↦ rw e (h w)
  ]

module _ {A : Type 0} (m : Handler A) (f : A → Handler Response) where
  pub then-IsSafe : IsQuiet m → ((a : A) → IsSafe (f a)) → IsSafe (m >>= f)
  unfolding IsQuiet IsSafe ◌>>=◌
  then-IsSafe h k w = elim (Step-cases (m w).1) [
    | inl (a, e) ↦
        rw e λ refused. Kept-trans w.db (m w).0.db (f a (m w).0).0.db (h w) (k a (m w).0 refused)
    | inr (r, e) ↦ rw e λ refused. h w
  ]

pub quiet-IsSafe : (m : Handler Response) → IsQuiet m → IsSafe m
unfolding IsQuiet IsSafe
quiet-IsSafe m h w e = h w

pub fine-IsSafe : (m : Handler Response) → IsFine m → IsSafe m
unfolding IsFine IsSafe
fine-IsSafe m h w e = let never : true ≡ false = ground (arith, e, h w) in cc never

-- A call of the store that keeps the tables when it fails.
pub call-IsSafe :
    {A : Type 0} (refuse : StoreError → Response) (m : Action A) (f : A → Handler Response)
    → IsAtomic m
    → ((a : A) → IsFine (f a))
    → IsSafe (call refuse m >>= f)
unfolding IsAtomic IsSafe IsFine ◌>>=◌ call
call-IsSafe refuse m f h k w e = elim (Result-cases (m w.db).1) [
  | inl (a, done) ↦
      let w' : World = record w { db = (m w.db).0 } in
      let never : true ≡ false = ground (arith, e, done, k a w') in cc never
  | inr (x, failed) ↦ rw (failed, h w.db x failed) refl
]

pub pass-IsQuiet : {A : Type 0} (a : A) → IsQuiet (pass a)
unfolding IsQuiet
pass-IsQuiet a w = refl

pub respond-IsQuiet : (r : Response) → IsQuiet (respond {A = Response} r)
unfolding IsQuiet
respond-IsQuiet r w = refl

pub read-IsQuiet :
    {A : Type 0} (refuse : StoreError → Response) (q : Database → Result A)
    → IsQuiet (read refuse q)
unfolding IsQuiet read
read-IsQuiet refuse q w = refl

pub generate_id-IsQuiet : (env : Env) (prefix : String) → IsQuiet (generate_id env prefix)
unfolding IsQuiet generate_id
generate_id-IsQuiet env prefix w = refl

pub require-IsQuiet : (good : Bool) (r : Response) → IsQuiet (require good r)
unfolding IsQuiet require
require-IsQuiet good r w = ground arith

pub decode-IsQuiet : {A : Type 0} (content : Content A) → IsQuiet (decode_json content)
unfolding IsQuiet decode_json
decode-IsQuiet content w = ground arith

pub rate_limit-IsQuiet :
    (env : Env) (tenant_id : String) → IsQuiet (enforce_rate_limit env tenant_id)
unfolding IsQuiet enforce_rate_limit
rate_limit-IsQuiet env tenant_id w = ground arith

pub backpressure-IsQuiet : (env : Env) → IsQuiet (enforce_backpressure env)
unfolding IsQuiet enforce_backpressure
backpressure-IsQuiet env w = ground arith

pub audit-IsQuiet :
    (env : Env) (tenant_id action resource_type resource_id : String) (metadata : Variables)
    → IsQuiet (record_audit env tenant_id action resource_type resource_id metadata)
unfolding IsQuiet record_audit record_audit_event
audit-IsQuiet env tenant_id action resource_type resource_id metadata w = ground arith

-- An audit event is no answer.
pub audit-IsFine :
    (env : Env) (tenant_id action resource_type resource_id : String) (metadata : Variables)
    → (f : Handler Response) → IsFine f
    → IsFine (record_audit env tenant_id action resource_type resource_id metadata >> f)
unfolding IsFine record_audit ◌>>=◌
audit-IsFine env tenant_id action resource_type resource_id metadata f h w = h _

pub pass-IsFine : (status : ℕ) (body : Body) → status < 400 → IsFine (pass (write_json status body))
unfolding IsFine
pass-IsFine status body h w = h

-- A step that goes on leads to the rest of the chain, where no answer of its own has the status.
pub then-next :
    {A : Type 0} (m : Handler A) (f : A → Handler Response) (w w' : World) (status : ℕ)
    → (m w).0 ≡ w'
    → ((r : Response) → (m w).1 ≡ reply r → r.status ≢ status)
    → (serve (m >>= f) w).1.status ≡ status
    → (a : A) × ((m w).1 ≡ next a)
      × (serve (m >>= f) w ≡ serve (f a) w')
      × ((serve (f a) w').1.status ≡ status)
unfolding ◌>>=◌
then-next m f w w' status same k h = elim (Step-cases (m w).1) [
  | inl (a, e) ↦ (a, e, rw (e, same) refl, ground (arith, h, e, same))
  | inr (r, e) ↦ let never : true ≡ false = ground (arith, h, e, k r e) in cc never
]

pub read-world :
    {A : Type 0} (refuse : StoreError → Response) (q : Database → Result A) (w : World)
    → (read refuse q w).0 ≡ w
unfolding read
read-world refuse q w = refl

pub require-world : (good : Bool) (refusal : Response) (w : World) → (require good refusal w).0 ≡ w
unfolding require
require-world good refusal w = ground arith

pub require-status :
    (good : Bool) (refusal : Response) (w : World) (r : Response) (status : ℕ)
    → refusal.status ≢ status
    → (require good refusal w).1 ≡ reply r
    → r.status ≢ status
unfolding require
require-status good refusal w r status apart h = ground (arith, h, apart)

pub then-serve :
    {A : Type 0} (m : Handler A) (f : A → Handler Response) (w w' : World) (a : A)
    → m w ≡ (w', next a)
    → serve (m >>= f) w ≡ serve (f a) w'
unfolding ◌>>=◌
then-serve m f w w' a e = rw e refl

pub read-status :
    {A : Type 0} (refuse : StoreError → Response) (q : Database → Result A) (w : World)
    (r : Response)
    → ((e : StoreError) → (refuse e).status ≢ 202)
    → (read refuse q w).1 ≡ reply r
    → r.status ≢ 202
unfolding read
read-status refuse q w r k h = elim (Result-cases (q w.db)) [
  | inl (a, e) ↦ let never : true ≡ false = ground (arith, h, e) in cc never
  | inr (x, e) ↦ ground (arith, h, e, k x)
]

pub or_missing-status : (message : String) (e : StoreError) → (or_missing message e).status ≢ 202
or_missing-status message not_found = omega arith
or_missing-status message conflict = omega arith
or_missing-status message attempt_already_finalized = omega arith
or_missing-status message attempt_already_processing = omega arith
or_missing-status message invalid_state_transition = omega arith
or_missing-status message (other text) = omega arith

pub read-next :
    {A : Type 0} (refuse : StoreError → Response) (q : Database → Result A) (w : World) (a : A)
    → (read refuse q w).1 ≡ next a
    → q w.db ≡ ok a
unfolding read
read-next refuse q w a h = ground (arith, h)

pub quiet-Kept : (m : Handler Response) (w : World) → IsQuiet m → Kept w.db (serve m w).0.db
unfolding IsQuiet
quiet-Kept m w h = h w
