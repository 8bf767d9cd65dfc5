-- ===== src/Api/Notifications/Existing.antt =====
-- internal/http/handlers/api.go: a request whose notification exists, under its idempotency key.
use notification_service.Base.{
  ◌≡◌, refl, suc, sym, ap, ◌∙◌, subst, String, Bool, true, false, ◌==◌, none, some, arith, map,
}
use notification_service.Base.Table.{find}
use notification_service.Store.Model.{
  Tenant, Template, Notification, DeliveryAttempt, Database, StoreError,
}
use notification_service.Store.Action.{Result, ok}
use notification_service.Store.Rows.{get_tenant_by_id, get_template_by_id}
use notification_service.Store.Records.{record_audit_event}
use notification_service.Store.Ingest.{get_notification_by_tenant_and_idempotency_key, has_key}
use notification_service.Store.Attempts.Transitions.{unstamped}
use notification_service.Store.Ingest.Accepted.{IsSent}
use notification_service.Store.Ingest.Recovery.{
  ensure_initial_attempt, ensure_initial_attempt-there, ensure_initial_attempt-unstamped,
}
use notification_service.Api.{
  notification, Response, Env, World, outcome, next, Handler, ◌>>=◌, serve, write_json, require,
  call, read, generate_id, record_audit,
}
use notification_service.Api.Steps.{then-serve, Kept}
use notification_service.Api.Notifications.{
  CreateNotificationRequest, answer_existing, recover_existing, check_recipient, find_existing,
  or_existing, optional, accept_request,
}

-- Only notifications and the audit log may differ, and the notifications are the same rows but for
-- their statuses and the times of their last change.
abbrev pub AddsNothing : Database → Database → Type 0
AddsNothing d d' =
    (d' ≡ record d { notifications = d'.notifications; audit_events = d'.audit_events })
    × (map unstamped d'.notifications ≡ map unstamped d.notifications)

answer_existing-answers :
    (env : Env) (n : Notification) (a : DeliveryAttempt) (w : World)
    → a.dispatch_enqueued_at ≡ none
    → ((serve (answer_existing env n a) w).1 ≡ write_json 202 (notification n))
      × Kept w.db (serve (answer_existing env n a) w).0.db
unfolding answer_existing record_audit record_audit_event ◌>>=◌
answer_existing-answers env n a w waits = (ground (arith, waits), ground (arith, waits))

module _ (env : Env) (n : Notification) (t : Template) (tenant_id key template_id : String)
    (w : World) (sent : IsSent tenant_id key t.channel template_id n w.db)
    (known : get_template_by_id n.template_id w.db ≡ ok t) where
  pub recover_existing-answers :
      ((serve (recover_existing env n) w).1 ≡ write_json 202 (notification n))
      × AddsNothing w.db (serve (recover_existing env n) w).0.db
  unfolding recover_existing ◌>>=◌ read generate_id call
  recover_existing-answers =
      let attempt_id = env.generate_id "attempt" w.ids in
      let intent_id = env.generate_id "intent" (suc w.ids) in
      let (made, kept) =
        ensure_initial_attempt-there env.now n sent.attempt sent.intent w.db n.id t.channel
          attempt_id intent_id sent.by_id sent.first sent.intended in
      let d' = (ensure_initial_attempt env.now n.id t.channel attempt_id intent_id w.db).0 in
      let w' : World = record w { db = d'; ids = suc (suc w.ids) } in
      let (answer, logged) = answer_existing-answers env n sent.attempt w' sent.waits in
      let same_rows =
        ensure_initial_attempt-unstamped env.now n sent.attempt sent.intent w.db n.id t.channel
          attempt_id intent_id sent.by_id sent.first sent.intended in
      let path : (serve (recover_existing env n) w).0.db
          ≡ (serve (answer_existing env n sent.attempt) w').0.db =
        ground (arith, known, made) in
      let unlogged : (serve (recover_existing env n) w).0.db.notifications ≡ d'.notifications =
        ap (λ e. e.notifications) path ∙ ap (λ e. e.notifications) logged in
      (
        ground (arith, known, made, answer),
        (ground (arith, known, made, kept, logged), ap (map unstamped) unlogged ∙ same_rows),
      )

pub moved :
    (tenant_id key channel template_id : String) (n : Notification) (d e : Database)
    → Kept d e
    → IsSent tenant_id key channel template_id n d
    → IsSent tenant_id key channel template_id n e
moved tenant_id key channel template_id n d e kept sent =
    subst (λ x. IsSent tenant_id key channel template_id n x) (sym kept)
      (record {
        attempt = sent.attempt;
        intent = sent.intent;
        by_key = sent.by_key;
        by_id = sent.by_id;
        first = sent.first;
        intended = sent.intended;
        waits = sent.waits;
        of_template = sent.of_template;
      })

pub found_existing :
    (req : CreateNotificationRequest) (n : Notification) (w : World)
    → (req.idempotency_key == "") ≡ false
    → find (has_key req.tenant_id (some req.idempotency_key)) w.db.notifications ≡ some n
    → find_existing req w ≡ some n
unfolding find_existing get_notification_by_tenant_and_idempotency_key
found_existing req n w keyed there = ground (arith, keyed, there)

pub optional-some : (text : String) → (text == "") ≡ false → optional text ≡ some text
optional-some text h = rw h refl

read-finds :
    {A : Type 0} (refuse : StoreError → Response) (q : Database → Result A) (w : World) (a : A)
    → q w.db ≡ ok a
    → read refuse q w ≡ (w, next a)
unfolding read
read-finds refuse q w a h = ground (arith, h)

require-holds :
    (good : Bool) (refusal : Response) (w : World)
    → good ≡ true
    → require good refusal w ≡ (w, next tt)
unfolding require
require-holds good refusal w h = rw h refl

or_existing-recovers :
    (env : Env) (req : CreateNotificationRequest) (go : Handler Response) (n : Notification)
    (w : World)
    → find_existing req w ≡ some n
    → or_existing env req go w ≡ recover_existing env n w
unfolding or_existing
or_existing-recovers env req go n w there = ground (arith, there)

-- The path of a request whose notification exists.
pub accept_request-recovers :
    (env : Env) (req : CreateNotificationRequest) (owner : Tenant) (t : Template) (n : Notification)
    (w : World)
    → get_tenant_by_id req.tenant_id w.db ≡ ok owner
    → get_template_by_id req.template_id w.db ≡ ok t
    → (t.tenant_id == req.tenant_id) ≡ true
    → check_recipient req t.channel w ≡ (w, next tt)
    → find_existing req w ≡ some n
    → serve (accept_request env req) w ≡ serve (recover_existing env n) w
unfolding accept_request
accept_request-recovers env req owner t n w of_tenant of_template owned addressed there =
    then-serve _ _ w w owner (read-finds _ _ w owner of_tenant)
    ∙ then-serve _ _ w w t (read-finds _ _ w t of_template)
    ∙ then-serve _ _ w w tt (require-holds _ _ w owned)
    ∙ then-serve _ _ w w tt addressed
    ∙ ap (λ p. (p.0, outcome p.1)) (or_existing-recovers env req _ n w there)
