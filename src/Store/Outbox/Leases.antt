-- ===== src/Store/Outbox/Leases.antt =====
-- internal/store/postgres.go: the leases on the intents of the outbox.
use notification_service.Base.{
  Bool-cases, inl, inr, ◌⊎◌, ℕ, suc, ◌+◌, ◌*◌, ◌≤◌, ◌<◌, String, Bool, true, false, ◌≡◌, refl, sym,
  ap, ◌∙◌, inl, inr, ◌||◌, ◌==◌, List, [], ◌∷◌, map, select, any, All, All-take, All-select,
  All-select_holds, length, length-take-le, arith, subst, some, All-weaken, All-both, eq_refl,
}
use notification_service.Base.Table.{
  update, find-update, update_row, update_row-skip, find_key, IsKeyed, All-found,
}
use notification_service.Base.Sort.{All-order_by}
use notification_service.Store.Model.{Time, DispatchIntent, Database}
use notification_service.Store.Action.{ok}
use notification_service.Store.Policy.{is_paused}
use notification_service.Store.Outbox.{
  find_intent, second, is_claimable, set_claimed, created_before, chosen, is_among,
  limit_or_default, whole_seconds, PendingDispatchIntent, with_dead_letter,
  claim_pending_dispatch_intents, is_held,
}

-- The rows that a claim picks are rows of the outbox.
pub chosen-All :
    (P : DispatchIntent → Type 0) (now : Time) (limit seconds : ℕ) (d : Database)
    → All P d.outbox
    → All P (chosen now limit seconds d)
unfolding chosen
chosen-All P now limit seconds d h =
    All-take P limit _
      (All-order_by created_before P _ (All-select P (is_claimable now seconds d) d.outbox h))

-- The rows that a claim picks are claimable.
pub chosen-claimable :
    (now : Time) (limit seconds : ℕ) (d : Database)
    → All (λ i. is_claimable now seconds d i ≡ true) (chosen now limit seconds d)
unfolding chosen
chosen-claimable now limit seconds d =
    All-take (λ i. is_claimable now seconds d i ≡ true) limit _
      (All-order_by created_before (λ i. is_claimable now seconds d i ≡ true) _
        (All-select_holds (is_claimable now seconds d) d.outbox))

-- A fresh lease is not claimable.
fresh_lease :
    (now later : Time) (seconds : ℕ) (d : Database) (i : DispatchIntent)
    → later < now + seconds * second
    → is_claimable later seconds d (set_claimed now i) ≡ false
unfolding is_claimable
fresh_lease now later seconds d i h = ground arith

module _ (now later : Time) (seconds : ℕ) (batch : List DispatchIntent) (d : Database)
    (fresh : later < now + seconds * second) where
  abbrev leased : DispatchIntent → Bool
  leased = is_among batch

  select-unleased :
      (is : List DispatchIntent)
      → All
          (λ i. leased i ≡ false)
          (select (is_claimable later seconds d) (update leased (set_claimed now) is))
  unfolding update
  select-unleased [] = tt
  select-unleased (i ∷ is) = elim (Bool-cases (leased i)) [
    | inl held ↦ rw (held, fresh_lease now later seconds d i fresh) (select-unleased is)
    | inr free ↦ rw free (ground (arith, free, select-unleased is))
  ]

  chosen-unleased :
      (limit : ℕ) (is : List DispatchIntent)
      → d.outbox ≡ update leased (set_claimed now) is
      → All (λ i. leased i ≡ false) (chosen later limit seconds d)
  unfolding chosen
  chosen-unleased limit is e =
      All-take (λ i. leased i ≡ false) limit _
        (All-order_by created_before (λ i. leased i ≡ false) _ (simp e (select-unleased is)))

-- What a claim hands out.
abbrev pub leases : Time → Database → List DispatchIntent → List PendingDispatchIntent
leases now d = map (λ i. with_dead_letter d (set_claimed now i))

-- The intents that a publisher was given hold this one.
abbrev pub is_leased : List PendingDispatchIntent → String → Bool
is_leased ps id = any (λ p. p.intent.id == id) ps

is_leased-leases :
    (now : Time) (d : Database) (batch : List DispatchIntent) (i : DispatchIntent)
    → is_leased (leases now d batch) i.id ≡ is_among batch i
is_leased-leases now d [] i = refl
is_leased-leases now d (j ∷ batch) i = ap (λ b. j.id == i.id || b) (is_leased-leases now d batch i)

pub All-leases :
    (P : DispatchIntent → Type 0) (Q : PendingDispatchIntent → Type 0) (now : Time) (d : Database)
    → ((i : DispatchIntent) → P i → Q (with_dead_letter d (set_claimed now i)))
    → (batch : List DispatchIntent) → All P batch
    → All Q (leases now d batch)
All-leases P Q now d f [] h = tt
All-leases P Q now d f (i ∷ batch) h = (f i h.0, All-leases P Q now d f batch h.1)

-- A successful claim, taken apart.
pub claim-ok :
    (now : Time) (limit : ℕ) (stale_after : Time) (d d' : Database)
    (ps : List PendingDispatchIntent)
    → claim_pending_dispatch_intents now limit stale_after d ≡ (d', ok ps)
    → let batch = chosen now (limit_or_default limit) (whole_seconds stale_after) d in
      (d' ≡ record d { outbox = update (is_among batch) (set_claimed now) d.outbox })
      × (ps ≡ leases now d batch)
unfolding claim_pending_dispatch_intents
claim-ok now limit stale_after d d' ps h = ground arith

-- After one claim of the outbox succeeds, a second one that comes before its own stale window has
-- passed since the first leases no intent that the first one leased.
pub claim-claim :
    (now later : Time) (limit limit' : ℕ) (stale_after stale_after' : Time) (d d' d'' : Database)
    (first next : List PendingDispatchIntent)
    → claim_pending_dispatch_intents now limit stale_after d ≡ (d', ok first)
    → claim_pending_dispatch_intents later limit' stale_after' d' ≡ (d'', ok next)
    → later < now + whole_seconds stale_after' * second
    → All (λ p. is_leased first p.intent.id ≡ false) next
claim-claim now later limit limit' stale_after stale_after' d d' d'' first next h h' fresh =
    let batch = chosen now (limit_or_default limit) (whole_seconds stale_after) d in
    let batch' = chosen later (limit_or_default limit') (whole_seconds stale_after') d' in
    let (rows, given) = claim-ok now limit stale_after d d' first h in
    let (rows', given') = claim-ok later limit' stale_after' d' d'' next h' in
    rw given' (
      All-leases (λ i. is_among batch i ≡ false) (λ p. is_leased first p.intent.id ≡ false) later d'
        (λ i free. rw given (is_leased-leases now d batch i ∙ free)) batch'
        (chosen-unleased now later (whole_seconds stale_after') batch d' fresh
          (limit_or_default limit') d.outbox (ap (λ e. e.outbox) rows)))

length-leases :
    (now : Time) (d : Database) (batch : List DispatchIntent)
    → length (leases now d batch) ≡ length batch
length-leases now d [] = refl
length-leases now d (i ∷ batch) = ap suc (length-leases now d batch)

length-chosen :
    (now : Time) (limit seconds : ℕ) (d : Database) → length (chosen now limit seconds d) ≤ limit
unfolding chosen
length-chosen now limit seconds d = length-take-le limit _

claimable-leased :
    (now : Time) (seconds : ℕ) (d : Database) (i : DispatchIntent)
    → is_claimable now seconds d i ≡ true
    → (is_held now (set_claimed now i) ≡ true) × (is_paused i.tenant_id i.channel d ≡ false)
unfolding is_claimable
claimable-leased now seconds d i h = ground arith

-- The rows of a batch are among it.
pub All-among : (batch : List DispatchIntent) → All (λ i. is_among batch i ≡ true) batch
All-among [] = tt
All-among (i ∷ batch) = (
  ground (arith, eq_refl i.id),
  All-weaken (λ j. is_among batch j ≡ true) (λ j. is_among (i ∷ batch) j ≡ true)
      (λ j h. ground (arith, h)) batch (All-among batch),
)

-- A claim that succeeds, where no two intents share a key, gives no more intents than its limit
-- (100 for a limit of 0); each is leased at the instant of the claim, is so in the outbox
-- afterwards, and its tenant and channel are not paused; and any intent is one of those given or
-- is as it was.
pub claim-leases :
    (now : Time) (limit : ℕ) (stale_after : Time) (d d' : Database)
    (ps : List PendingDispatchIntent)
    → IsKeyed (λ i. i.id) d.outbox
    → claim_pending_dispatch_intents now limit stale_after d ≡ (d', ok ps)
    → (length ps ≤ limit_or_default limit)
      × All
          (λ p.
            (is_held now p.intent ≡ true)
            × (is_paused p.intent.tenant_id p.intent.channel d ≡ false)
            × (find_intent d' p.intent.id ≡ some p.intent))
          ps
      × ((id : String) → (is_leased ps id ≡ true) ⊎ (find_intent d' id ≡ find_intent d id))
claim-leases now limit stale_after d d' ps keyed h =
    let seconds = whole_seconds stale_after in
    let batch = chosen now (limit_or_default limit) seconds d in
    let (rows, given) = claim-ok now limit stale_after d d' ps h in
    let found : (id : String)
        → find_intent d' id ≡ update_row (is_among batch) (set_claimed now) (find_intent d id) =
      λ id.
        ap (λ e. find_intent e id) rows
        ∙ find-update (λ i. i.id) (is_among batch) (set_claimed now) id d.outbox (λ i. refl) in
    let P = λ (i : DispatchIntent). (find_intent d i.id ≡ some i) × (is_among batch i ≡ true) in
    let known =
      All-both (λ i. is_claimable now seconds d i ≡ true) P batch
        (chosen-claimable now (limit_or_default limit) seconds d)
        (All-both (λ i. find_intent d i.id ≡ some i) (λ i. is_among batch i ≡ true) batch
          (chosen-All (λ i. find_intent d i.id ≡ some i) now (limit_or_default limit) seconds d
            (All-found (λ i. i.id) d.outbox keyed))
          (All-among batch)) in
    (
      rw (given, length-leases now d batch) (length-chosen now (limit_or_default limit) seconds d),
      subst
          (All (λ p.
            (is_held now p.intent ≡ true)
            × (is_paused p.intent.tenant_id p.intent.channel d ≡ false)
            × (find_intent d' p.intent.id ≡ some p.intent)))
          (sym given)
          (All-leases (λ i. (is_claimable now seconds d i ≡ true) × P i)
            (λ p.
              (is_held now p.intent ≡ true)
              × (is_paused p.intent.tenant_id p.intent.channel d ≡ false)
              × (find_intent d' p.intent.id ≡ some p.intent))
            now d
            (λ i k.
              let (held, open') = claimable-leased now seconds d i k.0 in
              (
                held,
                open',
                found i.id
                    ∙ ap (update_row (is_among batch) (set_claimed now)) k.1.0
                    ∙ ground (arith, k.1.1),
              ))
            batch known),
      λ id. elim (Bool-cases (is_leased ps id)) [
        | inl given_out ↦ inl given_out
        | inr free ↦ inr (
            found id
            ∙ update_row-skip (is_among batch) (set_claimed now) (find_intent d id) (λ i e.
              sym (is_leased-leases now d batch i)
              ∙ ap (λ qs. is_leased qs i.id) (sym given)
              ∙ ap (is_leased ps) (find_key (λ j. j.id) id d.outbox i e)
              ∙ free))
      ],
    )
