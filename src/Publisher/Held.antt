-- ===== src/Publisher/Held.antt =====
-- internal/outbox/publisher.go: the intents of a claimed batch, and who holds them.
use notification_service.Base.{
  ℕ, ◌≡◌, refl, sym, ap, ◌∙◌, subst, String, true, false, ◌==◌, none, some, List, [], ◌∷◌, All,
  All-both, arith,
}
use notification_service.Base.Table.{IsKeyed, find, by, find-update, update_row, All-found}
use notification_service.Base.Keyed.{select-IsKeyed, order_by-IsKeyed, take-IsKeyed}
use notification_service.Store.Model.{Time, DispatchIntent, Database}
use notification_service.Store.Action.{ok}
use notification_service.Store.Outbox.{
  PendingDispatchIntent, find_intent, is_held, is_among, set_claimed, set_published, chosen,
  is_claimable, created_before, limit_or_default, whole_seconds, claim_pending_dispatch_intents,
  mark_dispatch_intent_published,
}
use notification_service.Store.Outbox.Leases.{claim-ok, leases, All-leases, chosen-All, All-among}
use notification_service.Store.Outbox.Publication.{publish-held}
use notification_service.Publisher.Progress.{mark-outbox, held}

abbrev pub intent_id : PendingDispatchIntent → String
intent_id p = p.intent.id

-- The intent of p is in the outbox as it was given, claimed at that instant.
abbrev pub IsHeldIn : Time → Database → PendingDispatchIntent → Type 0
IsHeldIn now d p =
    (p.intent.claimed_at ≡ some now)
    × (find_intent d p.intent.id ≡ some p.intent)
    × (is_held now p.intent ≡ true)

chosen-IsKeyed :
    (now : Time) (limit seconds : ℕ) (d : Database)
    → IsKeyed (λ i. i.id) d.outbox
    → IsKeyed (λ i. i.id) (chosen now limit seconds d)
unfolding chosen
chosen-IsKeyed now limit seconds d keyed =
    take-IsKeyed (λ i. i.id) limit _
      (order_by-IsKeyed (λ i. i.id) created_before _
        (select-IsKeyed (λ i. i.id) (is_claimable now seconds d) d.outbox keyed))

find-leases-none :
    (now : Time) (d : Database) (id : String) (batch : List DispatchIntent)
    → find (by (λ i. i.id) id) batch ≡ none
    → find (by intent_id id) (leases now d batch) ≡ none
unfolding find
find-leases-none now d id [] h = refl
find-leases-none now d id (i ∷ batch) h = ground (arith, h, find-leases-none now d id batch)

leases-IsKeyed :
    (now : Time) (d : Database) (batch : List DispatchIntent)
    → IsKeyed (λ i. i.id) batch
    → IsKeyed intent_id (leases now d batch)
leases-IsKeyed now d [] h = tt
leases-IsKeyed now d (i ∷ batch) h =
    (find-leases-none now d i.id batch h.0, leases-IsKeyed now d batch h.1)

-- What a claim gives is held, and no intent is given twice.
pub claim-held :
    (now : Time) (limit stale_after : ℕ) (d d' : Database) (ps : List PendingDispatchIntent)
    → IsKeyed (λ i. i.id) d.outbox
    → claim_pending_dispatch_intents now limit stale_after d ≡ (d', ok ps)
    → All (IsHeldIn now d') ps × IsKeyed intent_id ps
claim-held now limit stale_after d d' ps keyed h =
    let seconds = whole_seconds stale_after in
    let batch = chosen now (limit_or_default limit) seconds d in
    let (rows, given) = claim-ok now limit stale_after d d' ps h in
    let P = λ (i : DispatchIntent). (find_intent d i.id ≡ some i) × (is_among batch i ≡ true) in
    let known =
      All-both (λ i. find_intent d i.id ≡ some i) (λ i. is_among batch i ≡ true) batch
        (chosen-All (λ i. find_intent d i.id ≡ some i) now (limit_or_default limit) seconds d
          (All-found (λ i. i.id) d.outbox keyed))
        (All-among batch) in
    (
      subst (All (IsHeldIn now d')) (sym given) (
          All-leases P (IsHeldIn now d') now d
            (λ i k. (
              refl,
              ap (λ e. find_intent e i.id) rows
                  ∙ find-update (λ i. i.id) (is_among batch) (set_claimed now) i.id d.outbox
                      (λ i. refl)
                  ∙ ap (update_row (is_among batch) (set_claimed now)) k.0
                  ∙ ground (arith, k.1),
              ground arith,
            ))
            batch known),
      subst (IsKeyed intent_id) (sym given) (
          leases-IsKeyed now d batch (chosen-IsKeyed now (limit_or_default limit) seconds d keyed)),
    )

-- The publication of a held intent succeeds, and leaves the others of the batch held.
pub mark-held :
    (later now : Time) (d : Database) (p : PendingDispatchIntent)
    → IsKeyed (λ i. i.id) d.outbox
    → IsHeldIn now d p
    → (mark_dispatch_intent_published later p.intent.id now d).1 ≡ ok tt
mark-held later now d p keyed (at, found, holds) =
    (publish-held d keyed p.intent.id now p.intent found later holds).0

pub mark-others :
    (later now : Time) (d : Database) (p r : PendingDispatchIntent)
    → (mark_dispatch_intent_published later p.intent.id now d).1 ≡ ok tt
    → (r.intent.id == p.intent.id) ≡ false
    → IsHeldIn now d r
    → IsHeldIn now (mark_dispatch_intent_published later p.intent.id now d).0 r
mark-others later now d p r done apart (at, found, holds) = (
  at,
  ap (find (by (λ i. i.id) r.intent.id)) (mark-outbox later p.intent.id now d tt done)
      ∙ find-update (λ i. i.id) (held later p.intent.id now d) (set_published later) r.intent.id
          d.outbox (λ i. refl)
      ∙ ap (update_row (held later p.intent.id now d) (set_published later)) found
      ∙ ground (arith, apart),
  holds,
)
