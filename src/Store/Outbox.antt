-- ===== src/Store/Outbox.antt =====
-- internal/store/postgres.go: the dispatch outbox. An intent is `pending`, is leased to a publisher by a
-- claim (`publishing`, with the instant of the claim), and is `published` or released by the holder.
pub mod Leases
pub mod Intents
pub mod Publication
use notification_service.Base.{
  ℕ, ◌+◌, ◌*◌, ◌/◌, String, Bool, false, ◌&&◌, ◌||◌, ◌==◌, Option, none, some, List, [], ◌∷◌, ◌++◌,
  map, select, take, any, leb, eqb, not, if◌then◌else◌,
}
use notification_service.Base.Table.{find, update, count, by, or_else}
use notification_service.Base.Sort.{order_by}
use notification_service.Store.Status.{IntentStatus, is_intent_pending, is_publishing, is_published}
use notification_service.Store.Model.{
  Time, DeliveryAttempt, DeadLetter, DispatchIntent, Database, conflict, invalid_state_transition,
  other,
}
use notification_service.Store.Action.{
  Action, Result, ok, err, pure, fail, query, ◌>>=◌, transaction, or_not_found,
}
use notification_service.Store.Rows.{points_to}
use notification_service.Store.Policy.{is_paused}
use notification_service.Store.Attempts.{update_attempts}

pub record CreateDispatchIntentParams : Type 0 where
  pub id : String
  pub notification_id : String
  pub attempt_id : String
  pub tenant_id : String
  pub channel : String
  pub source : String
  pub status : Option IntentStatus
  pub published_at : Option Time

-- "" stands for the default, and is `none` here.
abbrev pub dispatch_intent_status_or_default : Option IntentStatus → IntentStatus
dispatch_intent_status_or_default none = IntentStatus.pending
dispatch_intent_status_or_default (some s) = s

abbrev pub published_intent_status : Option Time → IntentStatus
published_intent_status none = IntentStatus.pending
published_intent_status (some t) = IntentStatus.published

abbrev pub new_intent : Time → CreateDispatchIntentParams → DispatchIntent
new_intent now params = record {
  id = params.id;
  notification_id = params.notification_id;
  attempt_id = params.attempt_id;
  tenant_id = params.tenant_id;
  channel = params.channel;
  source = params.source;
  status = dispatch_intent_status_or_default params.status;
  last_error = none;
  created_at = now;
  claimed_at = none;
  published_at = params.published_at;
}

abbrev pub find_intent : Database → String → Option DispatchIntent
find_intent d id = find (by (λ i. i.id) id) d.outbox

abbrev pub find_intent_of : Database → String → Option DispatchIntent
find_intent_of d attempt_id = find (by (λ i. i.attempt_id) attempt_id) d.outbox

-- INSERT ... ON CONFLICT (attempt_id) DO NOTHING, else the SELECT of the intent that is there. The
-- primary key is checked by the INSERT.
unfoldable pub create_dispatch_intent : Time → CreateDispatchIntentParams → Action DispatchIntent
create_dispatch_intent now params d = elim (find_intent_of d params.attempt_id) [
  | some i ↦ (d, ok i)
  | none ↦ elim (find_intent d params.id) [
    | some i ↦ (d, err conflict)
    | none ↦ let i = new_intent now params in (record d { outbox = d.outbox ++ i ∷ [] }, ok i)
  ]
]

abbrev pub second : ℕ
second = 1000000000

-- claimed_at IS NOT NULL AND claimed_at <= NOW() - n seconds.
abbrev pub is_stale : Time → ℕ → Option Time → Bool
is_stale now seconds none = false
is_stale now seconds (some t) = leb (t + seconds * second) now

-- The WHERE clause of the claim.
unfoldable pub is_claimable : Time → ℕ → Database → DispatchIntent → Bool
is_claimable now seconds d i =
    (is_intent_pending i.status || (is_publishing i.status && is_stale now seconds i.claimed_at))
    && not (is_paused i.tenant_id i.channel d)

abbrev pub set_claimed : Time → DispatchIntent → DispatchIntent
set_claimed now i = record i { status = IntentStatus.publishing; claimed_at = some now }

unfoldable pub created_before : DispatchIntent → DispatchIntent → Bool
created_before i j = leb i.created_at j.created_at

-- The rows that the subquery of the claim picks.
unfoldable pub chosen : Time → ℕ → ℕ → Database → List DispatchIntent
unfolding created_before
chosen now limit seconds d =
    take limit (order_by created_before (select (is_claimable now seconds d) d.outbox))

pub record PendingDispatchIntent : Type 0 where
  pub intent : DispatchIntent
  pub dead_letter_id : Option String

abbrev dead_letter_id_of : Option DeadLetter → Option String
dead_letter_id_of none = none
dead_letter_id_of (some l) = some l.id

-- LEFT JOIN dead_letters ON replay_attempt_id = attempt_id.
abbrev pub with_dead_letter : Database → DispatchIntent → PendingDispatchIntent
with_dead_letter d i = record {
  intent = i;
  dead_letter_id =
      dead_letter_id_of (find (λ l. points_to l.replay_attempt_id i.attempt_id) d.dead_letters);
}

-- WHERE id IN (...).
abbrev pub is_among : List DispatchIntent → DispatchIntent → Bool
is_among is i = any (λ j. j.id == i.id) is

abbrev pub limit_or_default : ℕ → ℕ
limit_or_default limit = if eqb limit 0 then 100 else limit

-- At least one second.
abbrev pub whole_seconds : Time → ℕ
whole_seconds span = if eqb (span / second) 0 then 1 else span / second

unfoldable pub claim_pending_dispatch_intents :
    Time → ℕ → Time → Action (List PendingDispatchIntent)
claim_pending_dispatch_intents now limit stale_after d =
    let batch = chosen now (limit_or_default limit) (whole_seconds stale_after) d in
    if eqb stale_after 0 then (d, err (other "staleAfter must be positive")) else (
      record d { outbox = update (is_among batch) (set_claimed now) d.outbox },
      ok (map (λ i. with_dead_letter d (set_claimed now i)) batch),
    )

-- status = 'publishing' AND claimed_at = $2: the publisher that claimed it at that instant holds it.
abbrev is_at : Option Time → Time → Bool
is_at none t = false
is_at (some s) t = eqb s t

abbrev pub is_held : Time → DispatchIntent → Bool
is_held claimed_at i = is_publishing i.status && is_at i.claimed_at claimed_at

abbrev pub set_published : Time → DispatchIntent → DispatchIntent
set_published now i = record i {
  status = IntentStatus.published;
  claimed_at = none;
  published_at = or_else i.published_at (some now);
  last_error = none;
}

abbrev pub set_enqueued : Time → DeliveryAttempt → DeliveryAttempt
set_enqueued now a = record a {
  dispatch_enqueued_at = or_else a.dispatch_enqueued_at (some now);
  updated_at = now;
}

abbrev set_replayed : Time → DeadLetter → DeadLetter
set_replayed now l = record l { replayed_at = or_else l.replayed_at (some now) }

abbrev update_outbox : (DispatchIntent → Bool) → (DispatchIntent → DispatchIntent) → Action ℕ
update_outbox p f d = (record d { outbox = update p f d.outbox }, ok (count p d.outbox))

abbrev update_dead_letters : (DeadLetter → Bool) → (DeadLetter → DeadLetter) → Action ℕ
update_dead_letters p f d =
    (record d { dead_letters = update p f d.dead_letters }, ok (count p d.dead_letters))

abbrev get_intent : String → Database → Result DispatchIntent
get_intent id d = or_not_found (find_intent d id)

-- What the publication writes beside the intent.
unfoldable pub note_publication : Time → DispatchIntent → Action (Unit {0})
note_publication now i = do
  enqueued ← update_attempts (λ a. a.id == i.attempt_id) (set_enqueued now)
  if i.source == "replay"
      then (update_dead_letters (λ l. points_to l.replay_attempt_id i.attempt_id) (set_replayed now)
          >>= λ _. pure tt)
      else pure tt

unfoldable pub mark_dispatch_intent_published : Time → String → Time → Action (Unit {0})
mark_dispatch_intent_published now intent_id claimed_at = transaction do
  rows ← update_outbox (λ i. i.id == intent_id && is_held claimed_at i) (set_published now)
  i ← query (get_intent intent_id)
  if eqb rows 0
      then (if is_published i.status then pure tt else fail invalid_state_transition)
      else note_publication now i

abbrev pub set_released : String → DispatchIntent → DispatchIntent
set_released last_error i = record i {
  status = IntentStatus.pending;
  claimed_at = none;
  last_error = some last_error;
}

unfoldable pub record_dispatch_intent_error : String → Time → String → Action (Unit {0})
record_dispatch_intent_error intent_id claimed_at last_error = do
  rows ← update_outbox (λ i. i.id == intent_id && is_held claimed_at i) (set_released last_error)
  i ← query (get_intent intent_id)
  if eqb rows 0
      then (if is_published i.status then pure tt else fail invalid_state_transition)
      else pure tt
