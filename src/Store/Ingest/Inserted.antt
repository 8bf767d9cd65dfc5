-- ===== src/Store/Ingest/Inserted.antt =====
-- internal/store/postgres.go: what an INSERT of an attempt that succeeds has written.
use notification_service.Base.{
  true, false, any, eq_refl, ◌≡◌, refl, ◌∙◌, String, none, some, [], ◌∷◌, ◌++◌, arith,
}
use notification_service.Base.Table.{find, by, find-last, find-append, find-insert_self}
use notification_service.Store.Model.{Time, DeliveryAttempt, Database}
use notification_service.Store.Action.{ok}
use notification_service.Store.Rows.{find_attempt}
use notification_service.Store.Ingest.{
  CreateDeliveryAttemptParams, has_number, new_attempt, create_delivery_attempt,
}

module _ (now : Time) (params : CreateDeliveryAttemptParams) (d : Database) (a : DeliveryAttempt)
    (h : (create_delivery_attempt now params d).1 ≡ ok a) where
  pub inserted-row : a ≡ new_attempt now params
  unfolding create_delivery_attempt
  inserted-row = ground (arith, h)

  pub inserted-tables :
      (create_delivery_attempt now params d).0 ≡ record d { attempts = d.attempts ++ a ∷ [] }
  unfolding create_delivery_attempt
  inserted-tables = ground (arith, h)

  inserted-free : find_attempt d params.id ≡ none
  unfolding create_delivery_attempt
  inserted-free = ground (arith, h)

  pub inserted-find : find_attempt (create_delivery_attempt now params d).0 params.id ≡ some a
  inserted-find =
      rw (inserted-tables, inserted-row)
        (find-insert_self (λ b. b.id) d.attempts (new_attempt now params) inserted-free)

  -- The rows that were there are still found.
  pub inserted-keeps :
      (id : String) (b : DeliveryAttempt)
      → find_attempt d id ≡ some b
      → find_attempt (create_delivery_attempt now params d).0 id ≡ some b
  inserted-keeps id b found =
      rw (inserted-tables) (find-append (by (λ b. b.id) id) d.attempts (a ∷ []) ∙ rw found refl)

  -- It is the one of its notification, channel and number.
  pub inserted-first :
      find
        (has_number params.notification_id params.channel params.attempt_number)
        (create_delivery_attempt now params d).0.attempts
      ≡ some a
  unfolding create_delivery_attempt
  inserted-first =
      let test = has_number params.notification_id params.channel params.attempt_number in
      let missing : any test d.attempts ≡ false = ground (arith, h) in
      let hit : test (new_attempt now params) ≡ true =
        ground (arith, eq_refl params.notification_id, eq_refl params.channel) in
      rw (inserted-tables, inserted-row)
        (find-last test d.attempts (new_attempt now params) missing hit)
