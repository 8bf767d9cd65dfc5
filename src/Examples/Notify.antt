-- ===== src/Examples/Notify.antt =====
-- A tenant that may send one notification a day.
use notification_service.Base.{
  eqb, if◌then◌else◌, ◌≡◌, ◌≤◌, refl, true, false, none, [], ◌∷◌, List, String, ℕ,
}
use notification_service.Base.Table.{find, count, delete}
use notification_service.Store.Model.{Time}
use notification_service.Notify.{
  CreateNotificationInput, Service, new_service, accepted, create_tenant, create_template,
  create_notification, accept_notification, insert_notification, new_notification, usage_count, put,
}
use notification_service.Notify.Quota.{
  Call, add_tenant, add_template, notify, replay, serve_all, quota_of, usage-le-quota,
}
use notification_service.Notify.Idempotency.{create_notification-again}

abbrev date : Time → String
date t = "today"

abbrev new_id : ℕ → String
new_id n = if eqb n 0 then "n0" else if eqb n 1 then "n1" else "other"

abbrev asked : CreateNotificationInput
asked = record {
  tenant_id = "acme";
  template_id = "t1";
  channels = "email" ∷ [];
  recipient = none;
  variables = none;
  idempotency_key = "k1";
}

abbrev set_up : List (Time × Call)
set_up =
    (1, add_tenant (record { id = "acme"; name = "Acme"; daily_quota = 1 }))
    ∷ ((
      2,
      add_template
          (record { id = "t1"; tenant_id = "acme"; name = "one"; channel = "email"; body = "hi" }),
    )
        ∷ [])

abbrev calls : List (Time × Call)
calls =
    (1, add_tenant (record { id = "acme"; name = "Acme"; daily_quota = 1 }))
    ∷ ((
      2,
      add_template
          (record { id = "t1"; tenant_id = "acme"; name = "one"; channel = "email"; body = "hi" }),
    )
        ∷ ((3, notify asked)
            ∷ ((4, notify (record asked { idempotency_key = "k2" })) ∷ ((5, replay "n0") ∷ []))))

usage-le-quota_example :
    usage_count date new_id "acme" "today" (serve_all date new_id calls new_service)
    ≤ quota_of (serve_all date new_id calls new_service) "acme"
usage-le-quota_example = usage-le-quota date new_id calls "acme" "today"

abbrev open_service : Service
open_service = serve_all date new_id set_up new_service

create_notification-again_example :
    let s' = (create_notification date new_id 3 asked open_service).0 in
    create_notification date new_id 9 asked s'
    ≡ (s', accepted (new_notification date new_id 3 asked 0, true))
unfolding create_notification accept_notification insert_notification create_tenant create_template
    put find count delete usage_count
create_notification-again_example =
    create_notification-again date new_id 3 9 asked open_service
      (new_notification date new_id 3 asked 0) false refl
