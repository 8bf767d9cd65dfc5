-- ===== src/Store/Outbox/Publication.antt =====
-- internal/store/postgres.go: the end of a lease, by publication or release.
use notification_service.Base.{
  String, Bool, true, false, ◌≡◌, refl, ap, ◌∙◌, ◌&&◌, ◌==◌, none, some, arith, eq_iff, eq_refl,
  if◌then◌else◌,
}
use notification_service.Base.Table.{
  find, update, count, by, IsKeyed, find-update, count-by, count_row, count-update_none, find_key,
  or_else, map_row, update_row-hit,
}
use notification_service.Store.Status.{IntentStatus, is_published}
use notification_service.Store.Model.{Time, DispatchIntent, Database, invalid_state_transition}
use notification_service.Store.Action.{Result, ok, err}
use notification_service.Store.Rows.{find_attempt}
use notification_service.Store.Outbox.{
  find_intent, set_published, set_released, set_enqueued, note_publication, is_held,
  mark_dispatch_intent_published, record_dispatch_intent_error,
}

-- A publication that finds the intent in another's hands, or in no one's, changes nothing; it is an
-- error unless the intent is published already.
abbrev pub lost : DispatchIntent → Result (Unit {0})
lost i = if is_published i.status then ok tt else err invalid_state_transition

note_publication-frame :
    (now : Time) (i : DispatchIntent) (d : Database)
    → let (d', r) = note_publication now i d in
      (r ≡ ok tt)
      × (d'.attempts ≡ update (λ a. a.id == i.attempt_id) (set_enqueued now) d.attempts)
      × (d'.outbox ≡ d.outbox)
unfolding note_publication
note_publication-frame now i d = (ground arith, ground arith, ground arith)

module _ (d : Database) (keyed : IsKeyed (λ i. i.id) d.outbox) (id : String)
    (claimed_at : Time) where
  abbrev held_row : DispatchIntent → Bool
  held_row i = i.id == id && is_held claimed_at i

  counted : count held_row d.outbox ≡ count_row (is_held claimed_at) (find_intent d id)
  counted = count-by (λ i. i.id) (is_held claimed_at) id d.outbox keyed

  module _ (i : DispatchIntent) (found : find_intent d id ≡ some i) where
    none_held : is_held claimed_at i ≡ false → count held_row d.outbox ≡ 0
    none_held h = counted ∙ rw found (rw h)

    one_held : is_held claimed_at i ≡ true → count held_row d.outbox ≡ 1
    one_held h = counted ∙ rw found (rw h)

    held_update :
        (f : DispatchIntent → DispatchIntent)
        → ((j : DispatchIntent) → (f j).id ≡ j.id)
        → is_held claimed_at i ≡ true
        → find (by (λ j. j.id) id) (update held_row f d.outbox) ≡ some (f i)
    held_update f keeps h =
        find-update (λ j. j.id) held_row f id d.outbox keeps
        ∙ ground (arith, eq_iff i.id id, find_key (λ j. j.id) id d.outbox i found)

    -- A publication by one who does not hold the intent's lease changes nothing, where no two
    -- intents share a key; it succeeds if the intent is published already and is an invalid
    -- transition otherwise.
    pub publish-lost :
        (now : Time)
        → is_held claimed_at i ≡ false
        → mark_dispatch_intent_published now id claimed_at d ≡ (d, lost i)
    unfolding mark_dispatch_intent_published
    publish-lost now h =
        ground (
          arith,
          none_held h,
          count-update_none held_row (set_published now) d.outbox (none_held h),
        )

    -- A failed publication recorded by one who does not hold the intent's lease changes nothing,
    -- where no two intents share a key; it succeeds if the intent is published already and is an
    -- invalid transition otherwise.
    pub release-lost :
        (last_error : String)
        → is_held claimed_at i ≡ false
        → record_dispatch_intent_error id claimed_at last_error d ≡ (d, lost i)
    unfolding record_dispatch_intent_error
    release-lost last_error h = ground (
      arith,
      none_held h,
      count-update_none held_row (set_released last_error) d.outbox (none_held h),
    )

    -- A failed publication recorded by the holder of the lease, where no two intents share a key,
    -- succeeds and makes the intent pending again, without a claim time and with the error.
    pub release-held :
        (last_error : String)
        → is_held claimed_at i ≡ true
        → (let (d', r) = record_dispatch_intent_error id claimed_at last_error d in
            (r ≡ ok tt)
            × (find_intent d' id
                ≡ some (record i {
                  status = IntentStatus.pending;
                  claimed_at = none;
                  last_error = some last_error;
                })))
    unfolding record_dispatch_intent_error
    release-held last_error h =
        let updated = held_update (set_released last_error) (λ j. refl) h in
        let hit = one_held h in (ground arith, ground arith)

    -- The publication of an intent by the holder of its lease, where no two intents share a key,
    -- succeeds and leaves the intent published, without a claim time or an error, and with a
    -- publication time, which is the present one if it had none; the same goes for the enqueue
    -- time of its attempt, where that exists.
    pub publish-held :
        (now : Time)
        → is_held claimed_at i ≡ true
        → (let (d', r) = mark_dispatch_intent_published now id claimed_at d in
            (r ≡ ok tt)
            × (find_intent d' id
                ≡ some (record i {
                  status = IntentStatus.published;
                  claimed_at = none;
                  published_at = or_else i.published_at (some now);
                  last_error = none;
                }))
            × (find_attempt d' i.attempt_id
                ≡ map_row
                    (λ a. record a {
                      dispatch_enqueued_at = or_else a.dispatch_enqueued_at (some now);
                      updated_at = now;
                    })
                    (find_attempt d i.attempt_id)))
    unfolding mark_dispatch_intent_published
    publish-held now h =
        let updated = held_update (set_published now) (λ j. refl) h in
        let hit = one_held h in
        let leased = record d { outbox = update held_row (set_published now) d.outbox } in
        let (noted, rows, intents) = note_publication-frame now (set_published now i) leased in
        let written : (mark_dispatch_intent_published now id claimed_at d).0.attempts
            ≡ update (λ a. a.id == i.attempt_id) (set_enqueued now) d.attempts =
          ground arith in
        (
          ground arith,
          ground arith,
          ap (find (by (λ a. a.id) i.attempt_id)) written
              ∙ find-update (λ a. a.id) (λ a. a.id == i.attempt_id) (set_enqueued now) i.attempt_id
                  d.attempts (λ a. refl)
              ∙ update_row-hit (λ a. a.id == i.attempt_id) (set_enqueued now)
                  (find_attempt d i.attempt_id)
                  (λ a e. ground (
                    arith,
                    find_key (λ b. b.id) i.attempt_id d.attempts a e,
                    eq_refl i.attempt_id,
                  )),
        )
