-- ===== src/Notify/Quota.antt =====
-- internal/notify/service.go: the daily quota of a tenant, whatever calls the service serves.
use notification_service.Base.{
  ℕ, ◌≤◌, ◌≡◌, refl, sym, ap, ◌∙◌, String, ◌&&◌, ◌==◌, Option, none, some, List, [], ◌∷◌, arith,
  eq_iff, inl, inr, Bool-cases, Option-cases,
}
use notification_service.Base.Table.{find, count, by, find_key}
use notification_service.Store.Model.{Time}
use notification_service.Notify.{
  Tenant, Notification, CreateTenantInput, CreateTemplateInput, UpdateTemplateInput,
  CreateNotificationInput, Service, new_service, find_tenant, find_template, find_notification,
  create_tenant, create_template, update_template, usage_count, new_notification,
  insert_notification, accept_notification, create_notification, replay_notification, more_attempts,
}
use notification_service.Notify.Entries.{find-put_other, count-put_le, count-put_replaced}

abbrev quota_or_zero : Option Tenant → ℕ
quota_or_zero none = 0
quota_or_zero (some t) = t.daily_quota

-- The quota of a tenant, 0 where there is none.
abbrev pub quota_of : Service → String → ℕ
quota_of s id = quota_or_zero (find_tenant s id)

pub data Call : Type 0 where
  add_tenant : CreateTenantInput → Call
  add_template : CreateTemplateInput → Call
  change_template : String → UpdateTemplateInput → Call
  notify : CreateNotificationInput → Call
  replay : String → Call

module _ (date : Time → String) (new_id : ℕ → String) where
  abbrev pub serve : Time → Call → Service → Service
  serve now (add_tenant input) s = (create_tenant now input s).0
  serve now (add_template input) s = (create_template now input s).0
  serve now (change_template id input) s = (update_template id input s).0
  serve now (notify input) s = (create_notification date new_id now input s).0
  serve now (replay id) s = (replay_notification date new_id id s).0

  abbrev pub serve_all : List (Time × Call) → Service → Service
  serve_all [] s = s
  serve_all ((now, call) ∷ calls) s = serve_all calls (serve now call s)

  abbrev IsWithinQuota : Service → Type 0
  IsWithinQuota s = (id day : String) → usage_count date new_id id day s ≤ quota_of s id

  create_tenant-quota :
      (now : Time) (input : CreateTenantInput) (s : Service) (id : String)
      → quota_of s id ≤ quota_of (create_tenant now input s).0 id
  unfolding create_tenant
  create_tenant-quota now input s id = elim (Option-cases (find_tenant s input.id)) [
    | inr (t, e) ↦ ground (arith, e)
    | inl e ↦
        let t : Tenant = record {
          id = input.id;
          name = input.name;
          status = "active";
          daily_quota = input.daily_quota;
          created_at = now;
        } in
        elim (Bool-cases (input.id == id)) [
          | inr apart ↦ ground (arith, e, find-put_other (λ t. t.id) t s.tenants id apart)
          | inl same ↦
              let one : input.id ≡ id = (eq_iff input.id id).0 same in
              let gone : quota_of s id ≡ 0 = ap (quota_of s) (sym one) ∙ ap quota_or_zero e in
              omega (arith, gone)
        ]
  ]

  create_tenant-notifications :
      (now : Time) (input : CreateTenantInput) (s : Service)
      → (create_tenant now input s).0.notifications ≡ s.notifications
  unfolding create_tenant
  create_tenant-notifications now input s = ground arith

  create_template-rest :
      (now : Time) (input : CreateTemplateInput) (s : Service)
      → let s' = (create_template now input s).0 in
        (s'.notifications ≡ s.notifications) × (s'.tenants ≡ s.tenants)
  unfolding create_template
  create_template-rest now input s = (ground arith, ground arith)

  update_template-rest :
      (id : String) (input : UpdateTemplateInput) (s : Service)
      → let s' = (update_template id input s).0 in
        (s'.notifications ≡ s.notifications) × (s'.tenants ≡ s.tenants)
  unfolding update_template
  update_template-rest id input s = (ground arith, ground arith)

  replay-rest :
      (id tenant_id day : String) (s : Service)
      → let s' = (replay_notification date new_id id s).0 in
        (usage_count date new_id tenant_id day s' ≤ usage_count date new_id tenant_id day s)
        × (s'.tenants ≡ s.tenants)
  unfolding replay_notification usage_count
  replay-rest id tenant_id day s = elim (Option-cases (find_notification s id)) [
    | inl e ↦ (ground (arith, e), ground (arith, e))
    | inr (old, e) ↦
        let n : Notification = record old {
          attempts = (more_attempts date new_id s.ids old.id old.attempts old.channels).0;
          status = "processing";
        } in
        let found : find (by (λ m. m.id) n.id) s.notifications ≡ some old =
          ap (find_notification s) (find_key (λ m. m.id) id s.notifications old e) ∙ e in
        let less =
          count-put_replaced (λ m. m.id)
            (λ m. m.tenant_id == tenant_id && date m.submitted_at == day) n old s.notifications
            found refl in
        (ground (arith, e, less), ground (arith, e))
  ]

  -- A notification that is accepted is one more of its tenant and day, where the quota allowed it.
  accept-quota :
      (now : Time) (input : CreateNotificationInput) (tenant : Tenant) (s : Service)
      (id day : String)
      → find_tenant s input.tenant_id ≡ some tenant
      → usage_count date new_id id day s ≤ quota_of s id
      → usage_count date new_id id day (accept_notification date new_id now input tenant s).0
        ≤ quota_of s id
  unfolding accept_notification insert_notification usage_count new_notification
  accept-quota now input tenant s id day found within =
      let n = new_notification date new_id now input s.ids in
      let test = λ (m : Notification). m.tenant_id == id && date m.submitted_at == day in
      let one = count-put_le (λ m. m.id) test n s.notifications in
      elim (Bool-cases (input.tenant_id == id && date now == day)) [
        | inr apart ↦ ground (arith, within, one, apart)
        | inl same ↦
            let who : input.tenant_id ≡ id = (eq_iff input.tenant_id id).0 (ground (arith, same)) in
            let when : date now ≡ day = (eq_iff (date now) day).0 (ground (arith, same)) in
            let quota : quota_of s id ≡ tenant.daily_quota =
              ap (quota_of s) (sym who) ∙ ap quota_or_zero found in
            let used : usage_count date new_id input.tenant_id (date now) s
                ≡ usage_count date new_id id day s =
              ap (λ k. usage_count date new_id k (date now) s) who
              ∙ ap (λ e. usage_count date new_id id e s) when in
            ground (arith, within, one, same, quota, used)
      ]

  create_notification-tenants :
      (now : Time) (input : CreateNotificationInput) (s : Service)
      → (create_notification date new_id now input s).0.tenants ≡ s.tenants
  unfolding create_notification accept_notification insert_notification
  create_notification-tenants now input s = ground arith

  create_notification-quota :
      (now : Time) (input : CreateNotificationInput) (s : Service) (id day : String)
      → usage_count date new_id id day s ≤ quota_of s id
      → usage_count date new_id id day (create_notification date new_id now input s).0
        ≤ quota_of s id
  unfolding create_notification
  create_notification-quota now input s id day within =
      elim (Option-cases (find_tenant s input.tenant_id)) [
        | inl e ↦ ground (arith, e, within)
        | inr (tenant, e) ↦
            let kept = accept-quota now input tenant s id day e within in
            elim (Option-cases (find_template s input.template_id)) [
              | inl f ↦ ground (arith, e, f, within)
              | inr (template, f) ↦ elim (Bool-cases (template.tenant_id == input.tenant_id)) [
                | inl its ↦ ground (arith, e, f, its, kept)
                | inr foreign ↦ ground (arith, e, f, foreign, within)
              ]
            ]
      ]

  -- The tenants are what the quota is read from, and the notifications what the usage is.
  abbrev quota_in : List Tenant → String → ℕ
  quota_in ts id = quota_or_zero (find (by (λ t. t.id) id) ts)

  abbrev usage_in : List Notification → String → String → ℕ
  usage_in ns id day = count (λ n. n.tenant_id == id && date n.submitted_at == day) ns

  serve-IsWithinQuota :
      (now : Time) (call : Call) (s : Service) → IsWithinQuota s → IsWithinQuota (serve now call s)
  unfolding usage_count
  serve-IsWithinQuota now (add_tenant input) s h id day =
      let used = ap (λ ns. usage_in ns id day) (create_tenant-notifications now input s) in
      omega (arith, used, h id day, create_tenant-quota now input s id)
  serve-IsWithinQuota now (add_template input) s h id day =
      let (notes, tenants) = create_template-rest now input s in
      omega
        (arith, ap (λ ns. usage_in ns id day) notes, ap (λ ts. quota_in ts id) tenants, h id day)
  serve-IsWithinQuota now (change_template template_id input) s h id day =
      let (notes, tenants) = update_template-rest template_id input s in
      omega
        (arith, ap (λ ns. usage_in ns id day) notes, ap (λ ts. quota_in ts id) tenants, h id day)
  serve-IsWithinQuota now (notify input) s h id day = omega (
    arith,
    create_notification-quota now input s id day (h id day),
    ap (λ ts. quota_in ts id) (create_notification-tenants now input s),
  )
  serve-IsWithinQuota now (replay notification_id) s h id day =
      let (less, tenants) = replay-rest notification_id id day s in
      omega (arith, less, ap (λ ts. quota_in ts id) tenants, h id day)

  serve_all-IsWithinQuota :
      (calls : List (Time × Call)) (s : Service)
      → IsWithinQuota s
      → IsWithinQuota (serve_all calls s)
  serve_all-IsWithinQuota [] s h = h
  serve_all-IsWithinQuota ((now, call) ∷ calls) s h =
      serve_all-IsWithinQuota calls (serve now call s) (serve-IsWithinQuota now call s h)

  -- Whatever calls a new service serves, in any order and at any times, no tenant has more
  -- notifications of one day than its daily quota.
  pub usage-le-quota :
      (calls : List (Time × Call)) (id day : String)
      → let s = serve_all calls new_service in usage_count date new_id id day s ≤ quota_of s id
  unfolding usage_count count
  usage-le-quota calls id day =
      serve_all-IsWithinQuota calls new_service (λ id day. omega arith) id day
