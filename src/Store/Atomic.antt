-- ===== src/Store/Atomic.antt =====
-- internal/store/postgres.go: what the operations that the API calls leave of the tables when they fail.
pub mod Dispatch
pub mod Redrive
use notification_service.Base.{
  eq_iff, eq_refl, sym, not, is_some, All, All-weaken, All-select_holds, select, ◌≡◌, refl, ◌∙◌, ap,
  List, [], ◌∷◌, ◌==◌, ◌&&◌, String, Bool, true, false, none, some, arith, inl, inr, Option-cases,
  Bool-cases,
}
use notification_service.Base.Table.{
  find_key, find, All-find, by, count, count-update_none, count-by-none, find-update, update,
}
use notification_service.Store.Model.{
  Time, Notification, DeliveryAttempt, DispatchIntent, DeadLetter, DeliveryPolicy, Database,
  StoreError,
}
use notification_service.Store.Action.{Action, Result, ok, err, transaction, Result-cases}
use notification_service.Store.Rows.{find_notification, find_dead_letter}
use notification_service.Store.Attempts.{recalculate_notification_status}
use notification_service.Store.Attempts.Transitions.{recalculate-ok}
use notification_service.Store.Accounts.{
  CreateTenantParams, CreateTemplateParams, create_tenant, create_template,
}
use notification_service.Store.Policy.{set_delivery_policy_paused}
use notification_service.Store.Outbox.{CreateDispatchIntentParams, create_dispatch_intent}
use notification_service.Store.Ingest.{create_delivery_attempt}
use notification_service.Store.Ingest.Acceptance.{
  create_delivery_attempt-notifications, create_dispatch_intent-notifications,
}
use notification_service.Store.Ingest.Recovery.{ensure_all, insert_first, ensure_initial_attempt}
use notification_service.Store.Retries.{
  ReplayDeadLetterResult, replay_all, replay_child, is_replayed, point_at, ensure_replay_attempt,
}
use notification_service.Store.Scheduling.Joined.{initial_rows-All}
use notification_service.Store.Scheduling.{
  PromotedScheduledNotification, promotion_of, set_promoted, redrive_notification, is_redrivable,
  has_no_intent, initial_rows, redrive_all, redrive_row, promote_row, cancel_scheduled_notification,
  can_cancel, set_cancelled,
}

-- An error leaves the tables as they were.
unfoldable pub IsAtomic : {A : Type 0} → Action A → Type 0
IsAtomic m = (d : Database) (e : StoreError) → (m d).1 ≡ err e → (m d).0 ≡ d

pub create_tenant-IsAtomic :
    (now : Time) (params : CreateTenantParams) → IsAtomic (create_tenant now params)
unfolding IsAtomic create_tenant
create_tenant-IsAtomic now params d e h = ground (arith, h)

pub create_template-IsAtomic :
    (now : Time) (params : CreateTemplateParams) → IsAtomic (create_template now params)
unfolding IsAtomic create_template
create_template-IsAtomic now params d e h = ground (arith, h)

update-missing {ℓ} :
    {A : Type ℓ} (p : A → Bool) (f : A → A) (xs : List A)
    → ((x : A) → p (f x) ≡ p x)
    → find p (update p f xs) ≡ none
    → update p f xs ≡ xs
unfolding find update
update-missing p f [] k h = refl
update-missing p f (x ∷ xs) k h = ground (arith, h, k x, update-missing p f xs k)

pub set_paused-IsAtomic :
    (now : Time) (id : String) (paused : Bool) → IsAtomic (set_delivery_policy_paused now id paused)
unfolding IsAtomic set_delivery_policy_paused
set_paused-IsAtomic now id paused d e h =
    let set : DeliveryPolicy → DeliveryPolicy =
      λ p. record p { paused = some paused; updated_at = now } in
    let missing : find (by (λ p. p.id) id) (update (by (λ p. p.id) id) set d.policies) ≡ none =
      ground (arith, h) in
    ap (λ ps. record d { policies = ps })
      (update-missing (by (λ p. p.id) id) set d.policies (λ p. refl) missing)

pub cancel-IsAtomic :
    (clock : Time) (id : String) → IsAtomic (cancel_scheduled_notification clock id)
unfolding IsAtomic cancel_scheduled_notification
cancel-IsAtomic clock id d e h = elim (Option-cases (find_notification d id)) [
  | inl gone ↦
      let none_left = count-by-none (λ n. n.id) (can_cancel clock d) id d.notifications gone in
      ground (
        arith,
        none_left,
        count-update_none (λ n. n.id == id && can_cancel clock d n) (set_cancelled clock)
            d.notifications,
      )
  | inr (n, found) ↦
      let row =
        find-update (λ n. n.id) (λ n. n.id == id && can_cancel clock d n) (set_cancelled clock) id
          d.notifications (λ n. refl) in
      ground (
        arith,
        h,
        found,
        row,
        count-update_none (λ n. n.id == id && can_cancel clock d n) (set_cancelled clock)
            d.notifications,
      )
]
