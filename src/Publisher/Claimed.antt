-- ===== src/Publisher/Claimed.antt =====
-- internal/outbox/publisher.go: the batch that a claim gives the loop.
use notification_service.Base.{
  ℕ, ◌≡◌, refl, sym, ap, ◌∙◌, subst, Bool, true, false, ◌==◌, some, List, [], ◌∷◌, All, All-weaken,
  All-both, any, arith, inl, inr, Bool-cases, eq_iff,
}
use notification_service.Base.Table.{
  IsKeyed, find, count, update, by, All-found, find-update, update-IsKeyed, update_row,
}
use notification_service.Store.Model.{Time, DispatchIntent, Database}
use notification_service.Store.Action.{ok}
use notification_service.Store.Outbox.{
  PendingDispatchIntent, find_intent, is_claimable, is_among, set_claimed, is_held, chosen,
  claim_pending_dispatch_intents, with_dead_letter, whole_seconds, limit_or_default,
}
use notification_service.Store.Outbox.Leases.{chosen-All, chosen-claimable, claim-ok, leases}
use notification_service.Publisher.Progress.{is_unpublished, unpublished, count-update_where}

-- What all the elements have, one that passes the test has.
any-All :
    {A : Type 0} (P : A → Type 0) (p : A → Bool) (xs : List A)
    → any p xs ≡ true
    → All P xs
    → (x : A) × P x × (p x ≡ true)
any-All P p [] h k = let never : false ≡ true = h in cc never
any-All P p (x ∷ xs) h k = elim (Bool-cases (p x)) [
  | inl e ↦ (x, k.0, e)
  | inr e ↦ any-All P p xs (ground (arith, e, h)) k.1
]

module _ (now : Time) (limit seconds : ℕ) (d : Database)
    (keyed : IsKeyed (λ i. i.id) d.outbox) where
  abbrev batch : List DispatchIntent
  batch = chosen now limit seconds d

  batch_rows :
      All (λ i. (find_intent d i.id ≡ some i) × (is_claimable now seconds d i ≡ true)) batch
  batch_rows =
      All-both (λ i. find_intent d i.id ≡ some i) (λ i. is_claimable now seconds d i ≡ true) batch
        (chosen-All (λ i. find_intent d i.id ≡ some i) now limit seconds d
          (All-found (λ i. i.id) d.outbox keyed))
        (chosen-claimable now limit seconds d)

  -- A row that the claim writes is one that it chose.
  written-claimable :
      (i : DispatchIntent)
      → find_intent d i.id ≡ some i
      → is_among batch i ≡ true
      → is_claimable now seconds d i ≡ true
  written-claimable i found among =
      let (j, (row, claimable), same) =
        any-All (λ i. (find_intent d i.id ≡ some i) × (is_claimable now seconds d i ≡ true))
          (λ j. j.id == i.id) batch among batch_rows in
      let one : some j ≡ some i =
        sym row ∙ ap (find_intent d) ((eq_iff j.id i.id).0 same) ∙ found in
      ground (arith, one, claimable)

  claimed-unpublished :
      count is_unpublished (update (is_among batch) (set_claimed now) d.outbox)
      ≡ count is_unpublished d.outbox
  unfolding is_claimable
  claimed-unpublished =
      count-update_where is_unpublished (is_among batch) (set_claimed now) d.outbox (
        All-weaken (λ i. find_intent d i.id ≡ some i)
          (λ i. is_among batch i ≡ true → is_unpublished (set_claimed now i) ≡ is_unpublished i)
          (λ i found among. ground (arith, written-claimable i found among)) d.outbox
          (All-found (λ i. i.id) d.outbox keyed))

  -- The first of the batch is found, held from that instant.
  first-held :
      (j : DispatchIntent) (js : List DispatchIntent)
      → batch ≡ j ∷ js
      → find (by (λ i. i.id) j.id) (update (is_among batch) (set_claimed now) d.outbox)
        ≡ some (set_claimed now j)
  first-held j js e =
      let row : find_intent d j.id ≡ some j =
        (subst (All (λ i. (find_intent d i.id ≡ some i) × (is_claimable now seconds d i ≡ true))) e
          batch_rows).0.0 in
      let among : is_among batch j ≡ true =
        ap (λ b. is_among b j) e ∙ ground (arith, eq_iff j.id j.id) in
      find-update (λ i. i.id) (is_among batch) (set_claimed now) j.id d.outbox (λ i. refl)
      ∙ ap (update_row (is_among batch) (set_claimed now)) row
      ∙ ground (arith, among)

leases-cons :
    (now : Time) (d : Database) (chose : List DispatchIntent) (p : PendingDispatchIntent)
    (ps : List PendingDispatchIntent)
    → leases now d chose ≡ p ∷ ps
    → (j : DispatchIntent) × (js : List DispatchIntent) × (chose ≡ j ∷ js)
leases-cons now d [] p ps h = cc h
leases-cons now d (j ∷ js) p ps h = (j, js, refl)

-- A claim that gives some intent leaves the first leased, and publishes none.
pub claim-first :
    (now : Time) (limit stale_after : ℕ) (d d' : Database) (p : PendingDispatchIntent)
    (ps : List PendingDispatchIntent)
    → IsKeyed (λ i. i.id) d.outbox
    → claim_pending_dispatch_intents now limit stale_after d ≡ (d', ok (p ∷ ps))
    → IsKeyed (λ i. i.id) d'.outbox
      × (unpublished d' ≡ unpublished d)
      × (find_intent d' p.intent.id ≡ some p.intent)
      × (p.intent.claimed_at ≡ some now)
      × (is_held now p.intent ≡ true)
claim-first now limit stale_after d d' p ps keyed h =
    let seconds = whole_seconds stale_after in
    let size = limit_or_default limit in
    let (rows, given) = claim-ok now limit stale_after d d' (p ∷ ps) h in
    let outbox : d'.outbox
        ≡ update (is_among (chosen now size seconds d)) (set_claimed now) d.outbox =
      ap (λ e. e.outbox) rows in
    let (j, js, chose) = leases-cons now d (chosen now size seconds d) p ps (sym given) in
    let head : p ≡ with_dead_letter d (set_claimed now j) = ground (arith, given, chose) in
    let its : p.intent ≡ set_claimed now j = ap (λ x. x.intent) head in
    (
      subst (IsKeyed (λ i. i.id)) (sym outbox) (
          update-IsKeyed (λ i. i.id) (is_among (chosen now size seconds d)) (set_claimed now)
            d.outbox (λ i. refl) keyed),
      ap (count is_unpublished) outbox ∙ claimed-unpublished now size seconds d keyed,
      subst (λ i. find_intent d' i.id ≡ some i) (sym its)
          (ap (find (by (λ i. i.id) j.id)) outbox ∙ first-held now size seconds d keyed j js chose),
      ap (λ i. i.claimed_at) its,
      subst (λ i. is_held now i ≡ true) (sym its) (ground arith),
    )
