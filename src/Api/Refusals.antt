-- ===== src/Api/Refusals.antt =====
-- internal/http/handlers: what the operators' handlers leave of the tables when they answer with an error.
use notification_service.Base.{refl, String, true, false, Option, none, some, arith}
use notification_service.Store.Model.{DeliveryPolicy, Notification, DeadLetter}
use notification_service.Store.Atomic.{
  IsAtomic, create_tenant-IsAtomic, create_template-IsAtomic, set_paused-IsAtomic,
}
use notification_service.Store.Atomic.Dispatch.{ensure_replay-IsAtomic}
use notification_service.Store.Policy.{upsert_delivery_policy}
use notification_service.Api.{
  tenant, template, attempt, policy, Env, ◌>>=◌, ◌>>◌, pass, write_json, require, read,
  record_audit, Content,
}
use notification_service.Api.Steps.{
  Refuses, serve-Refuses, pass-IsFine, IsQuiet, IsFine, then-IsQuiet, then-IsSafe, call-IsSafe,
  pass-IsQuiet, read-IsQuiet, require-IsQuiet, decode-IsQuiet, backpressure-IsQuiet, audit-IsQuiet,
  audit-IsFine,
}
use notification_service.Api.Accounts.{
  CreateTenantRequest, CreateTemplateRequest, create_tenant_handler, create_template_handler,
}
use notification_service.Api.Policies.{
  UpsertPolicyRequest, upsert_policy_handler, pause_policy_handler, resume_policy_handler,
  record_policy_audit, resolve_tenant,
}
use notification_service.Api.DeadLetters.{replay_dead_letter_handler, admit_replay, check_replay}

pub create_tenant-Refuses :
    (env : Env) (content : Content CreateTenantRequest)
    → Refuses (create_tenant_handler env content)
unfolding create_tenant_handler
create_tenant-Refuses env content = serve-Refuses _ (
    then-IsSafe _ _ (decode-IsQuiet content) λ req. then-IsSafe _ _ (require-IsQuiet _ _) λ a.
      then-IsSafe _ _ (require-IsQuiet _ _) λ b. then-IsSafe _ _ (require-IsQuiet _ _) λ c.
        call-IsSafe _ _ _ (create_tenant-IsAtomic env.now _)
          λ made. pass-IsFine 201 (tenant made) (omega arith))

pub create_template-Refuses :
    (env : Env) (content : Content CreateTemplateRequest)
    → Refuses (create_template_handler env content)
unfolding create_template_handler
create_template-Refuses env content = serve-Refuses _ (
    then-IsSafe _ _ (decode-IsQuiet content) λ req. then-IsSafe _ _ (require-IsQuiet _ _) λ a.
      then-IsSafe _ _ (require-IsQuiet _ _) λ b. then-IsSafe _ _ (require-IsQuiet _ _) λ c.
        then-IsSafe _ _ (require-IsQuiet _ _) λ d. then-IsSafe _ _ (require-IsQuiet _ _) λ e.
          then-IsSafe _ _ (require-IsQuiet _ _) λ f. then-IsSafe _ _ (read-IsQuiet _ _) λ owner.
            call-IsSafe _ _ _ (create_template-IsAtomic env.now _)
              λ made. pass-IsFine 201 (template made) (omega arith))

policy_audit-IsFine :
    (env : Env) (p : DeliveryPolicy) (action : String)
    → IsFine (record_policy_audit env p action >> pass (write_json 200 (policy p)))
unfolding IsFine record_policy_audit record_audit ◌>>=◌
policy_audit-IsFine env p action w = ground arith

upsert-IsAtomic : (env : Env) (row : DeliveryPolicy) → IsAtomic (upsert_delivery_policy env.now row)
unfolding IsAtomic upsert_delivery_policy
upsert-IsAtomic env row d e h = ground (arith, h)

resolve_tenant-IsQuiet : (text : Option String) → IsQuiet (resolve_tenant text)
unfolding IsQuiet resolve_tenant read ◌>>=◌
resolve_tenant-IsQuiet none w = refl
resolve_tenant-IsQuiet (some text) w = ground arith

pub upsert_policy-Refuses :
    (env : Env) (content : Content UpsertPolicyRequest)
    → Refuses (upsert_policy_handler env content)
unfolding upsert_policy_handler
upsert_policy-Refuses env content = serve-Refuses _ (
    then-IsSafe _ _ (decode-IsQuiet content) λ req. then-IsSafe _ _ (require-IsQuiet _ _) λ a.
      then-IsSafe _ _ (require-IsQuiet _ _) λ b. then-IsSafe _ _ (require-IsQuiet _ _) λ c.
        then-IsSafe _ _ (resolve_tenant-IsQuiet req.tenant_id) λ id.
          call-IsSafe _ _ _ (upsert-IsAtomic env _)
            λ p. policy_audit-IsFine env p "delivery_policy_updated")

pub pause_policy-Refuses : (env : Env) (id : String) → Refuses (pause_policy_handler env id)
unfolding pause_policy_handler
pause_policy-Refuses env id = serve-Refuses _ (
    call-IsSafe _ _ _ (set_paused-IsAtomic env.now id true)
      λ p. policy_audit-IsFine env p "delivery_paused")

pub resume_policy-Refuses : (env : Env) (id : String) → Refuses (resume_policy_handler env id)
unfolding resume_policy_handler
resume_policy-Refuses env id = serve-Refuses _ (
    call-IsSafe _ _ _ (set_paused-IsAtomic env.now id false)
      λ p. policy_audit-IsFine env p "delivery_resumed")

check_replay-IsQuiet : (n : Notification) (l : DeadLetter) → IsQuiet (check_replay n l)
unfolding IsQuiet check_replay require
check_replay-IsQuiet n l w = ground arith

admit_replay-IsQuiet : (env : Env) (id : String) → IsQuiet (admit_replay env id)
unfolding admit_replay
admit_replay-IsQuiet env id = then-IsQuiet _ _ (read-IsQuiet _ _) λ l.
    then-IsQuiet _ _ (require-IsQuiet _ _) λ a. then-IsQuiet _ _ (read-IsQuiet _ _) λ n.
      then-IsQuiet _ _ (backpressure-IsQuiet env)
        λ b. then-IsQuiet _ _ (check_replay-IsQuiet n l) λ c. pass-IsQuiet _

pub replay_dead_letter-Refuses :
    (env : Env) (id : String) → Refuses (replay_dead_letter_handler env id)
unfolding replay_dead_letter_handler
replay_dead_letter-Refuses env id = serve-Refuses _ (
    then-IsSafe _ _ (admit_replay-IsQuiet env id) λ admitted.
      then-IsSafe _ _ (audit-IsQuiet env _ _ _ _ _) λ a.
        call-IsSafe _ _ _ (ensure_replay-IsAtomic env.now id _) λ made.
          audit-IsFine env _ _ _ _ _ _ (pass-IsFine 202 (attempt made.attempt) (omega arith)))
