-- ===== src/Notify.antt =====
-- internal/notify/service.go: the in-memory service of the API. A Go map is the list of its entries,
-- each under one key; JSON values are texts. A call sees one instant, and the date of an instant
-- (package time) and the identifiers are parameters.
pub mod Model
pub mod Entries
pub mod Quota
pub mod Idempotency
use Prim.Native.String.{◌++◌ as concat}
use notification_service.Base.{
  ℕ, suc, ◌+◌, ◌-◌, String, Bool, true, false, ◌&&◌, ◌==◌, Option, none, some, List, [], ◌∷◌, ◌++◌,
  leb, if◌then◌else◌,
}
use notification_service.Base.Table.{find, count, delete, by}
use notification_service.Store.Model.{Time, Variables}
pub use notification_service.Notify.Model.*

-- m[k] = x.
unfoldable pub put : {A : Type 0} → (A → String) → A → List A → List A
put key x xs = delete (by key (key x)) xs ++ x ∷ []

abbrev pub clone_map : Option Variables → Variables
clone_map none = []
clone_map (some m) = m

-- The zero value, which a missing key reads as.
abbrev pub zero_notification : Notification
zero_notification = record {
  id = "";
  tenant_id = "";
  template_id = "";
  channels = [];
  recipient = [];
  variables = [];
  idempotency_key = "";
  status = "";
  submitted_at = 0;
  attempts = [];
}

abbrev pub value_or_zero : Option Notification → Notification
value_or_zero none = zero_notification
value_or_zero (some n) = n

abbrev pub index_key : String → String → String
index_key tenant_id idempotency_key = concat tenant_id (concat ":" idempotency_key)

abbrev pub find_tenant : Service → String → Option Tenant
find_tenant s id = find (by (λ t. t.id) id) s.tenants

abbrev pub find_template : Service → String → Option Template
find_template s id = find (by (λ t. t.id) id) s.templates

abbrev pub find_notification : Service → String → Option Notification
find_notification s id = find (by (λ n. n.id) id) s.notifications

unfoldable pub create_tenant : Time → CreateTenantInput → Service → Service × Response Tenant
create_tenant now input s = elim (find_tenant s input.id) [
  | some t ↦ (s, refused tenant_exists)
  | none ↦
      let t : Tenant = record {
        id = input.id;
        name = input.name;
        status = "active";
        daily_quota = input.daily_quota;
        created_at = now;
      } in
      (record s { tenants = put (λ t. t.id) t s.tenants }, accepted t)
]

unfoldable pub create_template : Time → CreateTemplateInput → Service → Service × Response Template
create_template now input s = elim (find_tenant s input.tenant_id) [
  | none ↦ (s, refused tenant_not_found)
  | some tenant ↦ elim (find_template s input.id) [
    | some t ↦ (s, refused template_exists)
    | none ↦
        let t : Template = record {
          id = input.id;
          tenant_id = input.tenant_id;
          name = input.name;
          channel = input.channel;
          version = 1;
          body = input.body;
          created_at = now;
        } in
        (record s { templates = put (λ t. t.id) t s.templates }, accepted t)
  ]
]

unfoldable pub update_template :
    String → UpdateTemplateInput → Service → Service × Response Template
update_template id input s = elim (find_template s id) [
  | none ↦ (s, refused template_not_found)
  | some old ↦
      let t = record old { name = input.name; body = input.body; version = old.version + 1 } in
      (record s { templates = put (λ t. t.id) t s.templates }, accepted t)
]

module _ (date : Time → String) (new_id : ℕ → String) where
  -- The tenant's notifications of a day.
  unfoldable pub usage_count : String → String → Service → ℕ
  usage_count tenant_id day s =
      count (λ n. n.tenant_id == tenant_id && date n.submitted_at == day) s.notifications

  abbrev new_attempt : ℕ → String → String → ℕ → DeliveryAttempt
  new_attempt ids notification_id channel attempt_number = record {
    id = new_id ids;
    notification_id = notification_id;
    channel = channel;
    attempt_number = attempt_number;
    status = "pending";
    error_code = none;
    next_retry_at = none;
    completed_at = none;
  }

  -- The loop over the channels: the attempts, and the number of identifiers drawn after it.
  unfoldable pub first_attempts : ℕ → String → List String → List DeliveryAttempt × ℕ
  first_attempts ids notification_id [] = ([], ids)
  first_attempts ids notification_id (c ∷ cs) =
      let (as', after) = first_attempts (suc ids) notification_id cs in
      (new_attempt ids notification_id c 1 ∷ as', after)

  unfoldable pub new_notification : Time → CreateNotificationInput → ℕ → Notification
  new_notification now input ids = record {
    id = new_id ids;
    tenant_id = input.tenant_id;
    template_id = input.template_id;
    channels = input.channels;
    recipient = clone_map input.recipient;
    variables = clone_map input.variables;
    idempotency_key = input.idempotency_key;
    status = "accepted";
    submitted_at = now;
    attempts = (first_attempts (suc ids) (new_id ids) input.channels).0;
  }

  unfoldable pub insert_notification :
      Time → CreateNotificationInput → Service → Service × Response (Notification × Bool)
  insert_notification now input s =
      let n = new_notification now input s.ids in
      (
        record s {
          notifications = put (λ m. m.id) n s.notifications;
          idempotency_index =
              put (λ e. e.0) (index_key input.tenant_id input.idempotency_key, n.id)
                s.idempotency_index;
          ids = (first_attempts (suc s.ids) (new_id s.ids) input.channels).1;
        },
        accepted (n, false),
      )

  -- After the tenant and the template were found.
  unfoldable pub accept_notification :
      Time → CreateNotificationInput → Tenant → Service → Service × Response (Notification × Bool)
  accept_notification now input tenant s =
      elim (find (by (λ e. e.0) (index_key input.tenant_id input.idempotency_key))
        s.idempotency_index) [
          | some e ↦ (s, accepted (value_or_zero (find_notification s e.1), true))
          | none ↦
              if leb tenant.daily_quota (usage_count input.tenant_id (date now) s)
              then (s, refused daily_quota_exceeded)
              else insert_notification now input s
        ]

  unfoldable pub create_notification :
      Time → CreateNotificationInput → Service → Service × Response (Notification × Bool)
  create_notification now input s = elim (find_tenant s input.tenant_id) [
    | none ↦ (s, refused tenant_not_found)
    | some tenant ↦ elim (find_template s input.template_id) [
      | none ↦ (s, refused template_not_found)
      | some template ↦
          if template.tenant_id == input.tenant_id
          then accept_notification now input tenant s
          else (s, refused template_not_found)
    ]
  ]

  -- The loop of ReplayNotification over the channels.
  unfoldable pub more_attempts :
      ℕ → String → List DeliveryAttempt → List String → List DeliveryAttempt × ℕ
  more_attempts ids notification_id as' [] = (as', ids)
  more_attempts ids notification_id as' (c ∷ cs) =
      let number = count (λ a. a.channel == c) as' + 1 in
      more_attempts (suc ids) notification_id (as' ++ new_attempt ids notification_id c number ∷ [])
        cs

  unfoldable pub replay_notification : String → Service → Service × Response Notification
  replay_notification id s = elim (find_notification s id) [
    | none ↦ (s, refused notification_not_found)
    | some old ↦
        let (as', ids) = more_attempts s.ids old.id old.attempts old.channels in
        let n = record old { attempts = as'; status = "processing" } in
        (record s { notifications = put (λ m. m.id) n s.notifications; ids = ids }, accepted n)
  ]

  -- Subtraction stops at 0 here, as the code writes out.
  unfoldable pub usage : Time → String → Service → Response Usage
  usage now tenant_id s = elim (find_tenant s tenant_id) [
    | none ↦ refused tenant_not_found
    | some tenant ↦
        let used = usage_count tenant_id (date now) s in
        accepted (record {
          tenant_id = tenant_id;
          date = date now;
          accepted_notifications = used;
          daily_quota = tenant.daily_quota;
          remaining_quota = tenant.daily_quota - used;
        })
  ]
