-- ===== src/Api/Notifications/Again.antt =====
-- internal/http/handlers/api.go: the same submission again, under its idempotency key.
use notification_service.Base.{◌≡◌, ◌≢◌, refl, sym, ap, ◌∙◌, subst, false, ◌==◌, none, arith}
use notification_service.Base.Table.{find, by}
use notification_service.Store.Action.{ok, or_not_found}
use notification_service.Store.Rows.{get_tenant_by_id, get_template_by_id}
use notification_service.Store.Ingest.{create_notification_with_initial_dispatch}
use notification_service.Store.Ingest.Sent.{accepted-IsSent}
use notification_service.Api.{
  Response, Env, World, next, reply, ◌>>=◌, serve, require, Content, value, end_of_input,
  decode_json, enforce_rate_limit, enforce_backpressure,
}
use notification_service.Api.Steps.{then-next, then-serve}
use notification_service.Api.Notifications.{
  CreateNotificationRequest, check_recipient, find_existing, dispatch_params, accept_request, admit,
  create_notification_handler,
}
use notification_service.Api.Notifications.Resubmitted.{
  IsAccepted, accept_request-IsAccepted, check_recipient-world, check_recipient-same,
}
use notification_service.Api.Notifications.Existing.{
  AddsNothing, recover_existing-answers, moved, found_existing, optional-some,
  accept_request-recovers,
}

admit-world :
    (env : Env) (req : CreateNotificationRequest) (w : World)
    → (admit env req w).1 ≡ next tt
    → (admit env req w).0 ≡ w
unfolding admit ◌>>=◌ require enforce_rate_limit enforce_backpressure
admit-world env req w h = ground (arith, h)

admit-status :
    (env : Env) (req : CreateNotificationRequest) (w : World) (r : Response)
    → (admit env req w).1 ≡ reply r
    → r.status ≢ 202
unfolding admit ◌>>=◌ require enforce_rate_limit enforce_backpressure
admit-status env req w r h = ground (arith, h)

abbrev pub sent_as : CreateNotificationRequest → Content CreateNotificationRequest
sent_as req = record { first = value req; rest = end_of_input }

decoded :
    (req : CreateNotificationRequest) (w : World) → decode_json (sent_as req) w ≡ (w, next req)
unfolding decode_json
decoded req w = refl

module _ (env later : Env) (req : CreateNotificationRequest) (w w' : World) (r : Response)
    (keyed : (req.idempotency_key == "") ≡ false) (at_once : req.scheduled_for ≡ none)
    (first : IsAccepted env req w w' r) where
  accept_request-answers :
      ((serve (accept_request later req) w').1 ≡ r)
      × AddsNothing w'.db (serve (accept_request later req) w').0.db
  accept_request-answers =
      let params = dispatch_params req first.t first.attempt_id first.intent_id in
      let d' = (create_notification_with_initial_dispatch env.now params w.db).0 in
      let n = first.made.0 in
      let (sent, tenants, templates) =
        accepted-IsSent env.now params w.db req.idempotency_key (optional-some _ keyed) first.made
          at_once first.done in
      let here =
        moved req.tenant_id req.idempotency_key first.t.channel req.template_id n d' w'.db
          first.kept sent in
      let same_tenants : w'.db.tenants ≡ w.db.tenants = ap (λ d. d.tenants) first.kept ∙ tenants in
      let same_templates : w'.db.templates ≡ w.db.templates =
        ap (λ d. d.templates) first.kept ∙ templates in
      let of_tenant : get_tenant_by_id req.tenant_id w'.db ≡ ok first.owner =
        ap (λ ts. or_not_found (find (by (λ t. t.id) req.tenant_id) ts)) same_tenants
        ∙ first.of_tenant in
      let of_template : get_template_by_id req.template_id w'.db ≡ ok first.t =
        ap (λ ts. or_not_found (find (by (λ t. t.id) req.template_id) ts)) same_templates
        ∙ first.of_template in
      let known : get_template_by_id n.template_id w'.db ≡ ok first.t =
        subst (λ id. get_template_by_id id w'.db ≡ ok first.t) (sym here.of_template) of_template in
      let addressed : check_recipient req first.t.channel w' ≡ (w', next tt) = ground (
        arith,
        check_recipient-world req first.t.channel w',
        check_recipient-same req first.t.channel w' w,
        first.addressed,
      ) in
      let there = found_existing req n w' keyed here.by_key in
      let path =
        accept_request-recovers later req first.owner first.t n w' of_tenant of_template first.owned
          addressed there in
      let (answer, added) =
        recover_existing-answers later n first.t req.tenant_id req.idempotency_key req.template_id
          w' here known in
      (
        ap (λ p. p.1) path ∙ answer ∙ sym first.answered,
        subst (λ p. AddsNothing w'.db p.0.db) (sym path) added,
      )

-- The handler, where the request is admitted.
handler-admitted :
    (env : Env) (req : CreateNotificationRequest) (w : World)
    → (admit env req w).1 ≡ next tt
    → create_notification_handler env (sent_as req) w ≡ serve (accept_request env req) w
unfolding create_notification_handler
handler-admitted env req w passed =
    then-serve _ _ w w req (decoded req w)
    ∙ then-serve _ _ w w tt (
        ap (λ x. (x, (admit env req w).1)) (admit-world env req w passed) ∙ ap (λ s. (w, s)) passed)

handler-accepted :
    (env : Env) (req : CreateNotificationRequest) (w : World)
    → (create_notification_handler env (sent_as req) w).1.status ≡ 202
    → (admit env req w).1 ≡ next tt
unfolding create_notification_handler
handler-accepted env req w h =
    let s = then-serve _ _ w w req (decoded req w) in
    let (u, e, s', h') =
      then-next _ _ w (admit env req w).0 202 refl (admit-status env req w)
        (sym (ap (λ p. p.1.status) s) ∙ h) in
    e

-- After a submission to be sent at once, under an idempotency key that its tenant has not used, is
-- accepted (202), the same submission, if the limiter and the monitor let it pass, is answered
-- with the same response whatever the time is, and adds nothing: apart from the audit log the
-- tables are as they were but for the statuses of notifications and the times of their last
-- change.
pub submission-again :
    (env later : Env) (req : CreateNotificationRequest) (w w' : World) (r : Response)
    → (req.idempotency_key == "") ≡ false
    → req.scheduled_for ≡ none
    → find_existing req w ≡ none
    → create_notification_handler env (sent_as req) w ≡ (w', r)
    → r.status ≡ 202
    → (admit later req w').1 ≡ next tt
    → let (w'', r') = create_notification_handler later (sent_as req) w' in
      (r' ≡ r) × AddsNothing w'.db w''.db
submission-again env later req w w' r keyed at_once fresh served h again =
    let status = ap (λ p. p.1.status) served ∙ h in
    let first = handler-admitted env req w (handler-accepted env req w status) in
    let second = handler-admitted later req w' again in
    let reached : serve (accept_request env req) w ≡ (w', r) = sym first ∙ served in
    let accepted =
      accept_request-IsAccepted env req w fresh at_once (ap (λ p. p.1.status) reached ∙ h) in
    let accepted' : IsAccepted env req w w' r =
      subst (λ p. IsAccepted env req w p.0 p.1) reached accepted in
    let (same, added) = accept_request-answers env later req w w' r keyed at_once accepted' in
    (ap (λ p. p.1) second ∙ same, subst (λ p. AddsNothing w'.db p.0.db) (sym second) added)
