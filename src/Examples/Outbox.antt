-- ===== src/Examples/Outbox.antt =====
-- The outbox, on one intent that two publishers want.
use notification_service.Base.{
  ◌⊎◌, ◌≡◌, ◌≤◌, refl, none, some, [], ◌∷◌, String, List, true, false, All, length, arith, ◌*◌,
}
use notification_service.Base.Table.{find, update, or_else, map_row}
use notification_service.Base.Sort.{order_by}
use notification_service.Store.Status.{IntentStatus}
use notification_service.Store.Action.{ok}
use notification_service.Store.Rows.{find_attempt}
use notification_service.Store.Policy.{is_paused, scoped_pause}
use notification_service.Store.Outbox.{
  claim_pending_dispatch_intents, PendingDispatchIntent, with_dead_letter, set_claimed,
  is_claimable, chosen, find_intent, is_held, limit_or_default, CreateDispatchIntentParams,
  create_dispatch_intent, mark_dispatch_intent_published, record_dispatch_intent_error, second,
  created_before,
}
use notification_service.Store.Outbox.Leases.{claim-claim, claim-leases, is_leased}
use notification_service.Store.Outbox.Intents.{IsIndexed, create_dispatch_intent-IsIndexed}
use notification_service.Store.Outbox.Publication.{publish-lost, release-held, publish-held, lost}
use notification_service.Examples.Fixtures.{
  ready, leased, waiting_intent, leased_intent, next_intent, two_ready, first_leased, both_leased,
}

abbrev claimed : List PendingDispatchIntent
claimed = with_dead_letter two_ready (set_claimed 10 waiting_intent) ∷ []

abbrev claimed_next : List PendingDispatchIntent
claimed_next = with_dead_letter first_leased (set_claimed 20 next_intent) ∷ []

-- Each publisher asks for one intent.
claim-claim_example : All (λ p. is_leased claimed p.intent.id ≡ false) claimed_next
unfolding claim_pending_dispatch_intents chosen is_claimable is_paused scoped_pause order_by find
    update created_before
claim-claim_example =
    claim-claim 10 20 1 1 (165 * second) (165 * second) two_ready first_leased both_leased claimed
      claimed_next refl refl (omega arith)

claim-leases_example :
    (length claimed ≤ limit_or_default 1)
    × All
        (λ p.
          (is_held 10 p.intent ≡ true)
          × (is_paused p.intent.tenant_id p.intent.channel two_ready ≡ false)
          × (find_intent first_leased p.intent.id ≡ some p.intent))
        claimed
    × ((id : String)
        → (is_leased claimed id ≡ true) ⊎ (find_intent first_leased id ≡ find_intent two_ready id))
unfolding claim_pending_dispatch_intents chosen is_claimable is_paused scoped_pause order_by find
    update created_before
claim-leases_example =
    claim-leases 10 1 (165 * second) two_ready first_leased claimed (refl, (refl, tt)) refl

abbrev asked : CreateDispatchIntentParams
asked = record {
  id = "i9";
  notification_id = "n1";
  attempt_id = "a9";
  tenant_id = "acme";
  channel = "webhook";
  source = "retry";
  status = none;
  published_at = none;
}

create_dispatch_intent-IsIndexed_example : IsIndexed (create_dispatch_intent 20 asked ready).0
unfolding find
create_dispatch_intent-IsIndexed_example =
    create_dispatch_intent-IsIndexed 20 asked ready
      (record { one_id = (refl, tt); one_intent = (refl, tt) })

publish-lost_example :
    mark_dispatch_intent_published 30 "i1" 9 leased ≡ (leased, lost leased_intent)
unfolding find
publish-lost_example = publish-lost leased (refl, tt) "i1" 9 leased_intent refl 30 refl

release-held_example :
    let (d', r) = record_dispatch_intent_error "i1" 10 "timeout" leased in
    (r ≡ ok tt)
    × (find_intent d' "i1"
        ≡ some (record leased_intent {
          status = IntentStatus.pending;
          claimed_at = none;
          last_error = some "timeout";
        }))
unfolding find
release-held_example = release-held leased (refl, tt) "i1" 10 leased_intent refl "timeout" refl

publish-held_example :
    let (d', r) = mark_dispatch_intent_published 30 "i1" 10 leased in
    (r ≡ ok tt)
    × (find_intent d' "i1"
        ≡ some (record leased_intent {
          status = IntentStatus.published;
          claimed_at = none;
          published_at = or_else leased_intent.published_at (some 30);
          last_error = none;
        }))
    × (find_attempt d' "a1"
        ≡ map_row
            (λ a. record a {
              dispatch_enqueued_at = or_else a.dispatch_enqueued_at (some 30);
              updated_at = 30;
            })
            (find_attempt leased "a1"))
unfolding find
publish-held_example = publish-held leased (refl, tt) "i1" 10 leased_intent refl 30 refl
