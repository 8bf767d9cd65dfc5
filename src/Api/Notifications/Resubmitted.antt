-- ===== src/Api/Notifications/Resubmitted.antt =====
-- internal/http/handlers/api.go: a submission that was accepted, and the same submission again.
use notification_service.Base.{
  ◌≡◌, ◌≢◌, refl, suc, sym, ap, ◌∙◌, subst, String, Bool, true, false, ◌==◌, none, some, arith, inl,
  inr,
}
use notification_service.Store.Model.{
  Tenant, Template, StoreError, not_found, conflict, attempt_already_finalized,
  attempt_already_processing, invalid_state_transition, other,
}
use notification_service.Store.Action.{ok, err, Result-cases}
use notification_service.Store.Rows.{get_tenant_by_id, get_template_by_id}
use notification_service.Store.Ingest.{
  Accepted, CreateNotificationDispatchParams, create_notification_with_initial_dispatch,
}
use notification_service.Store.Ingest.Acceptance.{accept-atomic}
use notification_service.Api.{
  notification, Response, Env, World, outcome, next, reply, Handler, ◌>>=◌, serve, write_json,
  require, generate_id, record_audit,
}
use notification_service.Api.Steps.{
  then-next, then-serve, read-status, or_missing-status, read-next, read-world, require-world,
  require-status, Kept, IsQuiet, then-IsQuiet, audit-IsQuiet, respond-IsQuiet, quiet-Kept,
}
use notification_service.Api.Notifications.Refused.{audit_dispatch-next}
use notification_service.Store.Records.{record_audit_event}
use notification_service.Api.Notifications.{
  CreateNotificationRequest, check_recipient, find_existing, or_existing, audit_dispatch,
  answer_accepted, submitted, submit_as, submit, dispatch_params, check_schedule, accept_request,
}

module _ (req : CreateNotificationRequest) (channel : String) where
  pub check_recipient-world : (w : World) → (check_recipient req channel w).0 ≡ w
  unfolding check_recipient require
  check_recipient-world w = ground arith

  pub check_recipient-same :
      (w w' : World) → (check_recipient req channel w).1 ≡ (check_recipient req channel w').1
  unfolding check_recipient require
  check_recipient-same w w' = ground arith

  check_recipient-status :
      (w : World) (r : Response) → (check_recipient req channel w).1 ≡ reply r → r.status ≢ 202
  unfolding check_recipient require
  check_recipient-status w r h = ground (arith, h)

  check_schedule-now :
      (w : World) → req.scheduled_for ≡ none → check_schedule req channel w ≡ (w, next tt)
  unfolding check_schedule require
  check_schedule-now w h = ground (arith, h)

  require-next :
      (good : Bool) (refusal : Response) (w : World) (u : Unit {0})
      → (require good refusal w).1 ≡ next u
      → good ≡ true
  unfolding require
  require-next good refusal w u h = ground (arith, h)

-- The facts of a submission that was accepted.
pub record IsAccepted (env : Env) (req : CreateNotificationRequest) (w w' : World) (r : Response)
    : Type 0 where
  pub owner : Tenant
  pub t : Template
  pub made : Accepted
  pub attempt_id : String
  pub intent_id : String
  pub of_tenant : get_tenant_by_id req.tenant_id w.db ≡ ok owner
  pub of_template : get_template_by_id req.template_id w.db ≡ ok t
  pub owned : (t.tenant_id == req.tenant_id) ≡ true
  pub addressed : (check_recipient req t.channel w).1 ≡ next tt
  pub done :
      (create_notification_with_initial_dispatch env.now
        (dispatch_params req t attempt_id intent_id)
        w.db).1
      ≡ ok made
  pub answered : r ≡ write_json 202 (notification made.0)
  pub kept :
      Kept
        (create_notification_with_initial_dispatch env.now
          (dispatch_params req t attempt_id intent_id)
          w.db).0
        w'.db

audit_dispatch-IsQuiet :
    (env : Env) (t : Template) (made : Accepted) → IsQuiet (audit_dispatch env t made)
unfolding IsQuiet audit_dispatch record_audit record_audit_event
audit_dispatch-IsQuiet env t (n, a, none) w = ground arith
audit_dispatch-IsQuiet env t (n, a, some i) w = ground arith

answer_accepted-IsQuiet :
    (env : Env) (t : Template) (made : Accepted) → IsQuiet (answer_accepted env t made)
unfolding answer_accepted
answer_accepted-IsQuiet env t made =
    then-IsQuiet _ _ (audit-IsQuiet env _ _ _ _ _)
      λ u. then-IsQuiet _ _ (audit_dispatch-IsQuiet env t made) λ v. respond-IsQuiet _

answer_accepted-answer :
    (env : Env) (t : Template) (made : Accepted) (w : World)
    → (serve (answer_accepted env t made) w).1 ≡ write_json 202 (notification made.0)
unfolding answer_accepted record_audit ◌>>=◌
answer_accepted-answer env t made w = grind (arith, audit_dispatch-next)

find_existing-same :
    (req : CreateNotificationRequest) (w w' : World)
    → w'.db ≡ w.db
    → find_existing req w' ≡ find_existing req w
unfolding find_existing
find_existing-same req w w' same = rw same refl

-- The answer to an error of the store, where no notification has the key.
submitted-refused :
    (env : Env) (req : CreateNotificationRequest) (t : Template) (e : StoreError) (w : World)
    → find_existing req w ≡ none
    → (serve (submitted env req t (err e)) w).1.status ≢ 202
unfolding submitted or_existing
submitted-refused env req t conflict w none' = ground (arith, none')
submitted-refused env req t not_found w none' = omega arith
submitted-refused env req t attempt_already_finalized w none' = omega arith
submitted-refused env req t attempt_already_processing w none' = omega arith
submitted-refused env req t invalid_state_transition w none' = omega arith
submitted-refused env req t (other message) w none' = omega arith

module _ (env : Env) (req : CreateNotificationRequest) (w : World)
    (fresh : find_existing req w ≡ none) (at_once : req.scheduled_for ≡ none) where
  submit_as-accepted :
      (t : Template) (params : CreateNotificationDispatchParams) (w' : World)
      → w'.db ≡ w.db
      → (serve (submit_as env req t params) w').1.status ≡ 202
      → (made : Accepted) × ((create_notification_with_initial_dispatch env.now params w.db).1
          ≡ ok made)
        × ((serve (submit_as env req t params) w').1 ≡ write_json 202 (notification made.0))
        × Kept
            (create_notification_with_initial_dispatch env.now params w.db).0
            (serve (submit_as env req t params) w').0.db
  unfolding submit_as submitted
  submit_as-accepted t params w' same h =
      elim (Result-cases (create_notification_with_initial_dispatch env.now params w.db).1) [
        | inl (made, done) ↦
            let d' = (create_notification_with_initial_dispatch env.now params w.db).0 in
            let w'' : World = record w' { db = d' } in
            let kept =
              quiet-Kept (answer_accepted env t made) w'' (answer_accepted-IsQuiet env t made) in
            (
              made,
              done,
              ground (arith, same, done, answer_accepted-answer env t made w''),
              ground (arith, same, done, kept),
            )
        | inr (e, failed) ↦
            let unchanged = accept-atomic env.now params w.db e failed in
            let d' = (create_notification_with_initial_dispatch env.now params w.db).0 in
            let w'' : World = record w' { db = d' } in
            let none' = find_existing-same req w w'' unchanged ∙ fresh in
            let never : true ≡ false =
              ground (arith, h, same, failed, submitted-refused env req t e w'' none') in
            cc never
      ]

  submit-accepted :
      (t : Template)
      → (serve (submit env req t) w).1.status ≡ 202
      → (attempt_id intent_id : String) × (made : Accepted)
        × ((create_notification_with_initial_dispatch env.now
              (dispatch_params req t attempt_id intent_id)
              w.db).1
            ≡ ok made)
        × ((serve (submit env req t) w).1 ≡ write_json 202 (notification made.0))
        × Kept
            (create_notification_with_initial_dispatch env.now
              (dispatch_params req t attempt_id intent_id)
              w.db).0
            (serve (submit env req t) w).0.db
  unfolding submit generate_id ◌>>=◌
  submit-accepted t h =
      let attempt_id = env.generate_id "attempt" w.ids in
      let intent_id = env.generate_id "intent" (suc w.ids) in
      let params = dispatch_params req t attempt_id intent_id in
      let w' : World = record w { ids = suc (suc w.ids) } in
      let (made, done, answer, kept) = submit_as-accepted t params w' refl h in
      (attempt_id, intent_id, made, done, answer, kept)

  or_existing-go : (go : Handler Response) → or_existing env req go w ≡ go w
  unfolding or_existing
  or_existing-go go = ground (arith, fresh)

  pub accept_request-IsAccepted :
      (serve (accept_request env req) w).1.status ≡ 202
      → IsAccepted env req w
          (serve (accept_request env req) w).0
          (serve (accept_request env req) w).1
  unfolding accept_request
  accept_request-IsAccepted h =
      let (owner, e1, s1, h1) =
        then-next _ _ w w 202 (read-world _ _ w) (λ r. read-status _ _ w r (or_missing-status _))
          h in
      let (t, e2, s2, h2) =
        then-next _ _ w w 202 (read-world _ _ w) (λ r. read-status _ _ w r (or_missing-status _))
          h1 in
      let (u, e3, s3, h3) =
        then-next _ _ w w 202 (require-world _ _ w) (λ r. require-status _ _ w r 202 (omega arith))
          h2 in
      let (v, e4, s4, h4) =
        then-next _ _ w w 202 (check_recipient-world req t.channel w)
          (check_recipient-status req t.channel w) h3 in
      let go = check_schedule req t.channel >>= λ x. submit env req t in
      let s5 : serve (or_existing env req go) w ≡ serve (submit env req t) w =
        ap (λ p. (p.0, outcome p.1)) (or_existing-go go)
        ∙ then-serve _ _ w w tt (check_schedule-now req t.channel w at_once) in
      let all = s1 ∙ s2 ∙ s3 ∙ s4 ∙ s5 in
      let (attempt_id, intent_id, made, done, answer, kept) =
        submit-accepted t (sym (ap (λ p. p.1.status) s5) ∙ h4) in
      record {
        owner = owner;
        t = t;
        made = made;
        attempt_id = attempt_id;
        intent_id = intent_id;
        of_tenant = read-next _ _ w owner e1;
        of_template = read-next _ _ w t e2;
        owned = require-next req t.channel _ _ w u e3;
        addressed = e4;
        done = done;
        answered = ap (λ p. p.1) all ∙ answer;
        kept =
            subst
              (λ p.
                Kept
                  (create_notification_with_initial_dispatch env.now
                    (dispatch_params req t attempt_id intent_id) w.db).0
                  p.0.db)
              (sym all) kept;
      }
