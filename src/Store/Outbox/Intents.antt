-- ===== src/Store/Outbox/Intents.antt =====
-- internal/store/postgres.go: one intent for each attempt, and what becomes of it.
use notification_service.Base.{
  ℕ, true, false, ◌≡◌, sym, ap, ◌∙◌, inl, inr, ◌==◌, none, some, [], ◌∷◌, All-weaken, All-both,
  any-of_All, ◌++◌, arith, eq_iff, Option-cases, Bool-cases,
}
use notification_service.Base.Table.{find, by, IsKeyed, insert-IsKeyed, find-insert_self, All-found}
use notification_service.Store.Status.{is_published}
use notification_service.Store.Model.{Time, DispatchIntent, Database, conflict}
use notification_service.Store.Action.{Result, ok, err}
use notification_service.Store.Outbox.{
  CreateDispatchIntentParams, create_dispatch_intent, new_intent, find_intent, find_intent_of,
  is_claimable, chosen, is_among,
}
use notification_service.Store.Outbox.Leases.{chosen-All, chosen-claimable}

-- The two keys of the outbox: its primary key, and the unique index on the attempt.
pub record IsIndexed (d : Database) : Type 0 where
  pub one_id : IsKeyed (λ i. i.id) d.outbox
  pub one_intent : IsKeyed (λ i. i.attempt_id) d.outbox

-- Creating a dispatch intent keeps the intents' keys distinct and keeps the outbox to one intent
-- for each attempt.
pub create_dispatch_intent-IsIndexed :
    (now : Time) (params : CreateDispatchIntentParams) (d : Database)
    → IsIndexed d
    → IsIndexed (create_dispatch_intent now params d).0
unfolding create_dispatch_intent
create_dispatch_intent-IsIndexed now params d x =
    elim (Option-cases (find_intent_of d params.attempt_id)) [
      | inr (i, e) ↦ rw (e, create_dispatch_intent) x
      | inl none_of ↦ elim (Option-cases (find_intent d params.id)) [
        | inr (i, e) ↦ rw (none_of, create_dispatch_intent, e) x
        | inl none_id ↦
            rw (none_of, create_dispatch_intent, none_id)
              (record {
                one_id =
                    insert-IsKeyed (λ i. i.id) d.outbox (new_intent now params) none_id x.one_id;
                one_intent =
                    insert-IsKeyed (λ i. i.attempt_id) d.outbox (new_intent now params) none_of
                      x.one_intent;
              })
      ]
    ]

module _ (now : Time) (params : CreateDispatchIntentParams) (d : Database) where
  create-there :
      (j : DispatchIntent)
      → find_intent_of d params.attempt_id ≡ some j
      → create_dispatch_intent now params d ≡ (d, ok j)
  unfolding create_dispatch_intent
  create-there j e = rw (create_dispatch_intent, e)

  create-clash :
      (j : DispatchIntent)
      → find_intent_of d params.attempt_id ≡ none
      → find_intent d params.id ≡ some j
      → create_dispatch_intent now params d ≡ (d, err conflict)
  unfolding create_dispatch_intent
  create-clash j e k = rw (create_dispatch_intent, e, k)

  create-new :
      find_intent_of d params.attempt_id ≡ none
      → find_intent d params.id ≡ none
      → create_dispatch_intent now params d
        ≡ (record d { outbox = d.outbox ++ new_intent now params ∷ [] }, ok (new_intent now params))
  unfolding create_dispatch_intent
  create-new e k = rw (create_dispatch_intent, e, k)

  -- After a creation the intent that it gives is the attempt's.
  pub create-finds :
      (d' : Database) (i : DispatchIntent)
      → create_dispatch_intent now params d ≡ (d', ok i)
      → find_intent_of d' params.attempt_id ≡ some i
  create-finds d' i h = elim (Option-cases (find_intent_of d params.attempt_id)) [
    | inr (j, e) ↦
        let t : ◌≡◌ {A = Database × Result DispatchIntent} (d, ok j) (d', ok i) =
          sym (create-there j e) ∙ h in
        ground arith
    | inl none_of ↦ elim (Option-cases (find_intent d params.id)) [
      | inr (j, e) ↦
          let t : ◌≡◌ {A = Database × Result DispatchIntent} (d, err conflict) (d', ok i) =
            sym (create-clash j none_of e) ∙ h in
          ground arith
      | inl none_id ↦
          let t : ◌≡◌ {A = Database × Result DispatchIntent}
              (
                record d { outbox = d.outbox ++ new_intent now params ∷ [] },
                ok (new_intent now params),
              )
              (d', ok i) =
            sym (create-new none_of none_id) ∙ h in
          let self : find (by (λ k. k.attempt_id) params.attempt_id)
                (d.outbox ++ new_intent now params ∷ [])
              ≡ some (new_intent now params) =
            find-insert_self (λ k. k.attempt_id) d.outbox (new_intent now params) none_of in
          ground arith
    ]
  ]

-- Once an intent is created for an attempt, creating one for that attempt again, with whatever
-- other parameters, gives the same intent and writes nothing.
pub create-create :
    (now later : Time) (params again : CreateDispatchIntentParams) (d d' : Database)
    (i : DispatchIntent)
    → create_dispatch_intent now params d ≡ (d', ok i)
    → again.attempt_id ≡ params.attempt_id
    → create_dispatch_intent later again d' ≡ (d', ok i)
unfolding create_dispatch_intent
create-create now later params again d d' i h same =
    let found : find_intent_of d' again.attempt_id ≡ some i =
      rw same (create-finds now params d d' i h) in
    rw (create_dispatch_intent, found)

published-unclaimable :
    (now : Time) (seconds : ℕ) (d : Database) (i : DispatchIntent)
    → is_published i.status ≡ true
    → is_claimable now seconds d i ≡ false
unfolding is_claimable
published-unclaimable now seconds d i h = ground arith

-- A published intent is not in the batch of a claim.
pub unclaimed :
    (now : Time) (limit seconds : ℕ) (d : Database) (i : DispatchIntent)
    → IsKeyed (λ j. j.id) d.outbox
    → find_intent d i.id ≡ some i
    → is_published i.status ≡ true
    → is_among (chosen now limit seconds d) i ≡ false
unclaimed now limit seconds d i keyed found done =
    any-of_All (λ j. j.id == i.id) (chosen now limit seconds d)
      (All-weaken (λ j. (find_intent d j.id ≡ some j) × (is_claimable now seconds d j ≡ true))
        (λ j. (j.id == i.id) ≡ false) other (chosen now limit seconds d)
        (All-both _ _ (chosen now limit seconds d)
          (chosen-All (λ j. find_intent d j.id ≡ some j) now limit seconds d
            (All-found (λ j. j.id) d.outbox keyed))
          (chosen-claimable now limit seconds d)))
  where
    other :
        (j : DispatchIntent)
        → (find_intent d j.id ≡ some j) × (is_claimable now seconds d j ≡ true)
        → (j.id == i.id) ≡ false
    other j h = elim (Bool-cases (j.id == i.id)) [
      | inl same ↦
          let e : some j ≡ some i =
            sym h.0 ∙ ap (find_intent d) ((eq_iff j.id i.id).0 same) ∙ found in
          cc (e, h.1, published-unclaimable now seconds d i done)
      | inr apart ↦ apart
    ]
