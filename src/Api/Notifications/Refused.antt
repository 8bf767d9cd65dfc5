-- ===== src/Api/Notifications/Refused.antt =====
-- internal/http/handlers/api.go: what the handlers of notifications leave of the tables when they answer
-- with an error.
use notification_service.Base.{◌≡◌, String, true, false, none, some, arith, inl, inr, Option-cases}
use notification_service.Store.Model.{
  Notification, Template, DeliveryAttempt, StoreError, not_found, conflict,
  attempt_already_finalized, attempt_already_processing, invalid_state_transition, other,
}
use notification_service.Store.Action.{err, Result-cases}
use notification_service.Store.Ingest.{
  Accepted, CreateNotificationDispatchParams, create_notification_with_initial_dispatch,
}
use notification_service.Store.Ingest.Acceptance.{accept-atomic}
use notification_service.Store.Atomic.{cancel-IsAtomic}
use notification_service.Store.Atomic.Dispatch.{ensure_initial-IsAtomic}
use notification_service.Store.Atomic.Redrive.{redrive-IsAtomic}
use notification_service.Api.{
  notification, Response, Env, World, next, Handler, ◌>>=◌, require, record_audit, Content,
}
use notification_service.Api.Steps.{
  Refuses, serve-Refuses, pass-IsFine, IsQuiet, IsSafe, IsFine, then-IsQuiet, then-IsSafe,
  quiet-IsSafe, call-IsSafe, respond-IsQuiet, read-IsQuiet, generate_id-IsQuiet, require-IsQuiet,
  decode-IsQuiet, rate_limit-IsQuiet, backpressure-IsQuiet, audit-IsFine,
}
use notification_service.Api.Notifications.{
  CreateNotificationRequest, answer_existing, recover_existing, check_recipient, find_existing,
  or_existing, audit_dispatch, answer_accepted, submitted, submit_as, submit, check_schedule,
  accept_request, admit, create_notification_handler, cancel_notification_handler,
  redrive_notification_handler,
}

answer_existing-IsFine :
    (env : Env) (n : Notification) (a : DeliveryAttempt) → IsFine (answer_existing env n a)
unfolding IsFine answer_existing record_audit ◌>>=◌
answer_existing-IsFine env n a w = ground arith

recover_existing-IsSafe : (env : Env) (n : Notification) → IsSafe (recover_existing env n)
unfolding recover_existing
recover_existing-IsSafe env n = then-IsSafe _ _ (read-IsQuiet _ _) λ t.
    then-IsSafe _ _ (generate_id-IsQuiet env "attempt") λ a.
      then-IsSafe _ _ (generate_id-IsQuiet env "intent") λ i.
        call-IsSafe _ _ _ (ensure_initial-IsAtomic env.now n.id t.channel a i)
          λ made. answer_existing-IsFine env n made.0

or_existing-IsSafe :
    (env : Env) (req : CreateNotificationRequest) (go : Handler Response)
    → IsSafe go
    → IsSafe (or_existing env req go)
unfolding IsSafe or_existing
or_existing-IsSafe env req go h w = elim (Option-cases (find_existing req w)) [
  | inl e ↦ ground (arith, e, h w)
  | inr (n, e) ↦ ground (arith, e, recover_existing-IsSafe env n w)
]

pub audit_dispatch-next :
    (env : Env) (t : Template) (made : Accepted) (w : World)
    → (audit_dispatch env t made w).1 ≡ next tt
unfolding audit_dispatch record_audit
audit_dispatch-next env t (n, a, none) w = ground arith
audit_dispatch-next env t (n, a, some i) w = ground arith

answer_accepted-IsFine :
    (env : Env) (t : Template) (made : Accepted) → IsFine (answer_accepted env t made)
unfolding IsFine answer_accepted record_audit ◌>>=◌
answer_accepted-IsFine env t made w = grind (arith, audit_dispatch-next)

check_recipient-IsQuiet :
    (req : CreateNotificationRequest) (channel : String) → IsQuiet (check_recipient req channel)
unfolding IsQuiet check_recipient require
check_recipient-IsQuiet req channel w = ground arith

check_schedule-IsQuiet :
    (req : CreateNotificationRequest) (channel : String) → IsQuiet (check_schedule req channel)
unfolding IsQuiet check_schedule require
check_schedule-IsQuiet req channel w = ground arith

-- The answers to an error of the store.
submitted-IsSafe :
    (env : Env) (req : CreateNotificationRequest) (t : Template) (e : StoreError)
    → IsSafe (submitted env req t (err e))
unfolding submitted
submitted-IsSafe env req t conflict =
    or_existing-IsSafe env req _ (quiet-IsSafe _ (respond-IsQuiet _))
submitted-IsSafe env req t not_found = quiet-IsSafe _ (respond-IsQuiet _)
submitted-IsSafe env req t attempt_already_finalized = quiet-IsSafe _ (respond-IsQuiet _)
submitted-IsSafe env req t attempt_already_processing = quiet-IsSafe _ (respond-IsQuiet _)
submitted-IsSafe env req t invalid_state_transition = quiet-IsSafe _ (respond-IsQuiet _)
submitted-IsSafe env req t (other message) = quiet-IsSafe _ (respond-IsQuiet _)

submit_as-IsSafe :
    (env : Env) (req : CreateNotificationRequest) (t : Template)
    → (params : CreateNotificationDispatchParams) → IsSafe (submit_as env req t params)
unfolding IsSafe IsFine submit_as submitted
submit_as-IsSafe env req t params w refused =
    let d' = (create_notification_with_initial_dispatch env.now params w.db).0 in
    let w' : World = record w { db = d' } in
    elim (Result-cases (create_notification_with_initial_dispatch env.now params w.db).1) [
      | inl (made, done) ↦
          let never : true ≡ false =
            ground (arith, refused, done, answer_accepted-IsFine env t made w') in
          cc never
      | inr (e, failed) ↦
          let same = accept-atomic env.now params w.db e failed in
          let kept = submitted-IsSafe env req t e w' in ground (arith, refused, failed, same, kept)
    ]

submit-IsSafe :
    (env : Env) (req : CreateNotificationRequest) (t : Template) → IsSafe (submit env req t)
unfolding submit
submit-IsSafe env req t =
    then-IsSafe _ _ (generate_id-IsQuiet env "attempt")
      λ a. then-IsSafe _ _ (generate_id-IsQuiet env "intent") λ i. submit_as-IsSafe env req t _

accept_request-IsSafe :
    (env : Env) (req : CreateNotificationRequest) → IsSafe (accept_request env req)
unfolding accept_request
accept_request-IsSafe env req = then-IsSafe _ _ (read-IsQuiet _ _) λ owner.
    then-IsSafe _ _ (read-IsQuiet _ _) λ t. then-IsSafe _ _ (require-IsQuiet _ _) λ u.
      then-IsSafe _ _ (check_recipient-IsQuiet req t.channel) λ v.
        or_existing-IsSafe env req _
          (then-IsSafe _ _ (check_schedule-IsQuiet req t.channel) λ s. submit-IsSafe env req t)

admit-IsQuiet : (env : Env) (req : CreateNotificationRequest) → IsQuiet (admit env req)
unfolding admit
admit-IsQuiet env req = then-IsQuiet _ _ (require-IsQuiet _ _) λ a.
    then-IsQuiet _ _ (require-IsQuiet _ _) λ b.
      then-IsQuiet _ _ (require-IsQuiet _ _)
        λ c. then-IsQuiet _ _ (rate_limit-IsQuiet env req.tenant_id) λ d. backpressure-IsQuiet env

pub create_notification-Refuses :
    (env : Env) (content : Content CreateNotificationRequest)
    → Refuses (create_notification_handler env content)
unfolding create_notification_handler
create_notification-Refuses env content = serve-Refuses _ (
    then-IsSafe _ _ (decode-IsQuiet content)
      λ req. then-IsSafe _ _ (admit-IsQuiet env req) λ u. accept_request-IsSafe env req)

pub cancel_notification-Refuses :
    (env : Env) (id : String) → Refuses (cancel_notification_handler env id)
unfolding cancel_notification_handler
cancel_notification-Refuses env id = serve-Refuses _ (
    call-IsSafe _ _ _ (cancel-IsAtomic env.now id)
      λ n. audit-IsFine env _ _ _ _ _ _ (pass-IsFine 200 (notification n) (omega arith)))

pub redrive_notification-Refuses :
    (env : Env) (id : String) → Refuses (redrive_notification_handler env id)
unfolding redrive_notification_handler
redrive_notification-Refuses env id = serve-Refuses _ (
    call-IsSafe _ _ _ (redrive-IsAtomic env.now env.now id) λ p.
      audit-IsFine env _ _ _ _ _ _ (
        audit-IsFine env _ _ _ _ _ _ (pass-IsFine 202 (notification p.notification) (omega arith))))
