-- ===== src/Notify/Idempotency.antt =====
-- internal/notify/service.go: a notification that is submitted again under its idempotency key.
use notification_service.Base.{
  ℕ, ◌≡◌, sym, ap, ◌∙◌, subst, String, Bool, true, false, ◌==◌, some, arith, leb, inl, inr,
  Bool-cases, Option-cases,
}
use notification_service.Base.Table.{find, by}
use notification_service.Store.Model.{Time}
use notification_service.Notify.{
  Tenant, Template, Notification, CreateNotificationInput, Service, accepted, value_or_zero,
  index_key, find_tenant, find_template, find_notification, usage_count, new_notification,
  insert_notification, accept_notification, create_notification,
}
use notification_service.Notify.Entries.{find-put}

module _ (date : Time → String) (new_id : ℕ → String) where
  -- What makes a submission a duplicate of n.
  record IsDuplicate (input : CreateNotificationInput) (n : Notification) (s : Service)
      : Type 0 where
    tenant : Tenant
    template : Template
    entry : String × String
    has_tenant : find_tenant s input.tenant_id ≡ some tenant
    has_template : find_template s input.template_id ≡ some template
    is_its : (template.tenant_id == input.tenant_id) ≡ true
    indexed :
        find (by (λ e. e.0) (index_key input.tenant_id input.idempotency_key)) s.idempotency_index
        ≡ some entry
    stored : value_or_zero (find_notification s entry.1) ≡ n

  duplicate :
      (later : Time) (input : CreateNotificationInput) (n : Notification) (s : Service)
      → IsDuplicate input n s
      → create_notification date new_id later input s ≡ (s, accepted (n, true))
  unfolding create_notification accept_notification
  duplicate later input n s h =
      ground (arith, h.has_tenant, h.has_template, h.is_its, h.indexed, h.stored)

  accept-IsDuplicate :
      (now : Time) (input : CreateNotificationInput) (s : Service) (tenant : Tenant)
      (template : Template) (n : Notification) (b : Bool)
      → find_tenant s input.tenant_id ≡ some tenant
      → find_template s input.template_id ≡ some template
      → (template.tenant_id == input.tenant_id) ≡ true
      → (accept_notification date new_id now input tenant s).1 ≡ accepted (n, b)
      → IsDuplicate input n (accept_notification date new_id now input tenant s).0
  unfolding accept_notification insert_notification new_notification
  accept-IsDuplicate now input s tenant template n b found shown its h =
      elim (Option-cases (
        find (by (λ e. e.0) (index_key input.tenant_id input.idempotency_key))
          s.idempotency_index)) [
            | inr (e, known) ↦
                let same : (accept_notification date new_id now input tenant s).0 ≡ s =
                  ground (arith, known) in
                subst (IsDuplicate input n) (sym same) (record {
                  tenant = tenant;
                  template = template;
                  entry = e;
                  has_tenant = found;
                  has_template = shown;
                  is_its = its;
                  indexed = known;
                  stored = ground (arith, known, h);
                })
            | inl new ↦
                elim (Bool-cases
                  (leb tenant.daily_quota (usage_count date new_id input.tenant_id (date now) s))) [
                    | inl full ↦ let never : true ≡ false = ground (arith, new, full, h) in cc never
                    | inr room ↦
                        let made = new_notification date new_id now input s.ids in
                        let end : (accept_notification date new_id now input tenant s).0
                            ≡ (insert_notification date new_id now input s).0 =
                          ground (arith, new, room) in
                        let given : made ≡ n = ground (arith, new, room, h) in
                        subst (IsDuplicate input n) (sym end) (record {
                          tenant = tenant;
                          template = template;
                          entry = (index_key input.tenant_id input.idempotency_key, made.id);
                          has_tenant = found;
                          has_template = shown;
                          is_its = its;
                          indexed =
                              find-put (λ e. e.0)
                                (index_key input.tenant_id input.idempotency_key, made.id)
                                s.idempotency_index;
                          stored =
                              ap value_or_zero (find-put (λ m. m.id) made s.notifications) ∙ given;
                        })
                  ]
          ]

  create-IsDuplicate :
      (now : Time) (input : CreateNotificationInput) (s : Service) (n : Notification) (b : Bool)
      → (create_notification date new_id now input s).1 ≡ accepted (n, b)
      → IsDuplicate input n (create_notification date new_id now input s).0
  unfolding create_notification
  create-IsDuplicate now input s n b h = elim (Option-cases (find_tenant s input.tenant_id)) [
    | inl e ↦ let never : true ≡ false = ground (arith, e, h) in cc never
    | inr (tenant, e) ↦ elim (Option-cases (find_template s input.template_id)) [
      | inl f ↦ let never : true ≡ false = ground (arith, e, f, h) in cc never
      | inr (template, f) ↦ elim (Bool-cases (template.tenant_id == input.tenant_id)) [
        | inr foreign ↦ let never : true ≡ false = ground (arith, e, f, foreign, h) in cc never
        | inl its ↦
            let same : accept_notification date new_id now input tenant s
                ≡ create_notification date new_id now input s =
              ground (arith, e, f, its) in
            subst (λ r. IsDuplicate input n r.0) same
              (accept-IsDuplicate now input s tenant template n b e f its (ap (λ r. r.1) same ∙ h))
      ]
    ]
  ]

  -- After a submission to the service is accepted, the same submission at any later time gives the
  -- same notification, marked as a duplicate, and changes nothing.
  pub create_notification-again :
      (now later : Time) (input : CreateNotificationInput) (s : Service) (n : Notification)
      (b : Bool)
      → (create_notification date new_id now input s).1 ≡ accepted (n, b)
      → let s' = (create_notification date new_id now input s).0 in
        create_notification date new_id later input s' ≡ (s', accepted (n, true))
  create_notification-again now later input s n b h =
      duplicate later input n (create_notification date new_id now input s).0
        (create-IsDuplicate now input s n b h)
