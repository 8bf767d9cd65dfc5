-- ===== src/Worker.antt =====
-- internal/worker/runner.go: the fair scheduler that orders the jobs of the tenants of one worker.
-- `pending` and `inflight` are maps from tenants, whose missing keys are nil and 0. The mutex that
-- guards each call makes a run of the worker a sequence of calls.
pub mod Fairness
pub mod Order
pub mod Running
use notification_service.Base.{
  ℕ, suc, zero, ◌+◌, ◌-◌, ◌%◌, String, Bool, true, false, ◌&&◌, ◌||◌, ◌==◌, Option, none, some,
  List, [], ◌∷◌, ◌++◌, length, select, leb, ltb, eqb, not, if◌then◌else◌,
}
use notification_service.Delivery.Service.{DispatchJob}

pub record FairScheduler : Type 0 where
  pub burst : ℕ
  pub inflight : String → ℕ
  pub pending : String → List DispatchJob
  pub order : List String
  pub next : ℕ
  pub max_flight : ℕ
  pub last_tenant : String
  pub current_burst : ℕ

-- `m[key] = value`.
abbrev pub put {ℓ} : {A : Type ℓ} → String → A → (String → A) → String → A
put key value m k = if k == key then value else m k

-- A setting below 1 is 1.
abbrev pub at_least_one : ℕ → ℕ
at_least_one n = if eqb n 0 then 1 else n

unfoldable pub new_fair_scheduler : ℕ → ℕ → FairScheduler
new_fair_scheduler burst max_flight = record {
  burst = at_least_one burst;
  inflight = λ t. 0;
  pending = λ t. [];
  order = [];
  next = 0;
  max_flight = at_least_one max_flight;
  last_tenant = "";
  current_burst = 0;
}

abbrev pub is_empty {ℓ} : {A : Type ℓ} → List A → Bool
is_empty [] = true
is_empty (x ∷ xs) = false

unfoldable pub add : DispatchJob → FairScheduler → FairScheduler
add job s =
    let t = job.tenant_id in
    record s {
      order = if is_empty (s.pending t) then s.order ++ t ∷ [] else s.order;
      pending = put t (s.pending t ++ job ∷ []) s.pending;
    }

unfoldable pub complete : String → FairScheduler → FairScheduler
complete tenant s =
    if ltb 0 (s.inflight tenant)
    then record s { inflight = put tenant (s.inflight tenant - 1) s.inflight }
    else s

unfoldable pub remove_tenant : List String → String → List String
remove_tenant order tenant = select (λ item. not (item == tenant)) order

-- order[idx], which the callers keep in range.
unfoldable pub item_at : ℕ → List String → String
item_at idx [] = ""
item_at zero (t ∷ ts) = t
item_at (suc idx) (t ∷ ts) = item_at idx ts

-- The tenant has no job to take, or all that it may have are in flight.
abbrev pub is_blocked : FairScheduler → String → Bool
is_blocked s t = is_empty (s.pending t) || leb s.max_flight (s.inflight t)

-- The tenant had its burst, and there is another.
abbrev pub is_spent : FairScheduler → String → Bool
is_spent s t = s.last_tenant == t && (leb s.burst s.current_burst && ltb 1 (length s.order))

abbrev pub skip : ℕ → FairScheduler → FairScheduler
skip idx s = record s { next = (idx + 1) % length s.order }

-- The turn of the burst, once the job is taken.
abbrev pub note_turn : String → FairScheduler → FairScheduler
note_turn t s =
    if s.last_tenant == t
    then record s { current_burst = s.current_burst + 1 }
    else record s { last_tenant = t; current_burst = 1 }

-- Where the search goes on next time.
abbrev pub move_on : ℕ → String → FairScheduler → FairScheduler
move_on idx t s =
    let order = remove_tenant s.order t in
    if is_empty (s.pending t)
    then record s {
      order = order;
      next =
          if is_empty order then 0 else (if leb (length order) idx then 0 else idx) % length order;
    }
    else if s.last_tenant == t && ltb s.current_burst s.burst
    then record s { next = idx }
    else record s { next = (idx + 1) % length s.order }

unfoldable pub take_job : ℕ → String → List DispatchJob → FairScheduler → FairScheduler
take_job idx t rest s = move_on idx t (
    note_turn t
      (record s { pending = put t rest s.pending; inflight = put t (s.inflight t + 1) s.inflight }))

-- The loop, for so many rounds.
unfoldable pub search_job : ℕ → FairScheduler → FairScheduler × Option DispatchJob
search_job zero s = (s, none)
search_job (suc rounds) s =
    let idx = s.next % length s.order in
    let t = item_at idx s.order in
    let rest = search_job rounds (skip idx s) in
    if is_blocked s t || is_spent s t
    then rest
    else elim (s.pending t) [ [] ↦ rest | job ∷ jobs ↦ (take_job idx t jobs s, some job) ]

unfoldable pub next_job : FairScheduler → FairScheduler × Option DispatchJob
next_job s = search_job (length s.order) s
