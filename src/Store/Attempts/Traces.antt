-- ===== src/Store/Attempts/Traces.antt =====
-- internal/store/postgres.go: any sequence of writes to the attempts, by any number of workers, retriers
-- and publishers, in the order in which the database serves them.
use notification_service.Base.{
  ℕ, suc, ◌≤◌, String, Bool, true, false, ◌≡◌, refl, ◌∙◌, ◌⊎◌, inl, inr, ◌==◌, ◌&&◌, some, List, [],
  ◌∷◌, arith, eq_iff, if◌then◌else◌, Bool-cases, subst,
}
use notification_service.Store.Status.{AttemptStatus, is_pending, is_attempt_terminal_state}
use notification_service.Store.Model.{Time, DeliveryAttempt, Database}
use notification_service.Store.Action.{Result, ok, err}
use notification_service.Store.Rows.{find_attempt}
use notification_service.Store.Attempts.{mark_attempt_in_progress, set_in_progress}
use notification_service.Store.Attempts.Lifecycle.{
  start, run_call, IsAttemptKeyed, Edge-not-terminal, start_ok-pending, start_ok-not_pending,
}
use notification_service.Store.Attempts.Touched.{
  Moves, Moves-not-pending, Touched-find, Touched-IsAttemptKeyed,
}
use notification_service.Store.Attempts.Writes.{Write, moves, run_write, run_write-Touched}

pub record Request : Type 0 where
  pub now : Time
  pub write : Write

-- The tables after a request.
abbrev serve : Request → Database → Database
serve r = run_write r.now r.write

pub run : List Request → Database → Database
run [] d = d
run (r ∷ rs) d = run rs (serve r d)

serve-find :
    (r : Request) (d : Database) (j : String) (a : DeliveryAttempt)
    → find_attempt d j ≡ some a
    → (b : DeliveryAttempt) × (find_attempt (serve r d) j ≡ some b) × Moves a.status b.status
serve-find r d j a h = Touched-find d (serve r d) j a (run_write-Touched r.now r.write d) h

serve-IsAttemptKeyed : (r : Request) (d : Database) → IsAttemptKeyed d → IsAttemptKeyed (serve r d)
serve-IsAttemptKeyed r d = Touched-IsAttemptKeyed d (serve r d) (run_write-Touched r.now r.write d)

-- The status stays, or is that of a retry that was followed.
abbrev pub Stays : AttemptStatus → AttemptStatus → Type 0
Stays s t = (t ≡ s) ⊎ ((s ≡ AttemptStatus.retry_scheduled) × (t ≡ AttemptStatus.failed))

Moves-Stays : (s t : AttemptStatus) → Moves s t → is_attempt_terminal_state s ≡ true → Stays s t
Moves-Stays s t (inl same) h = inl same
Moves-Stays s t (inr (inl edge)) h = cc (h, Edge-not-terminal edge)
Moves-Stays s t (inr (inr followed)) h = inr followed

Stays-terminal :
    (s t : AttemptStatus)
    → Stays s t
    → is_attempt_terminal_state s ≡ true
    → is_attempt_terminal_state t ≡ true
Stays-terminal s t (inl same) h = rw same h
Stays-terminal s t (inr (from, to)) h = rw to refl

Stays-trans : (s t u : AttemptStatus) → Stays s t → Stays t u → Stays s u
Stays-trans s t u (inl same) k = subst (λ x. Stays x u) same k
Stays-trans s t u (inr (from, to)) (inl same) = inr (from, same ∙ to)
Stays-trans s t u (inr (from, to)) (inr (from', to')) = inr (from, to')

-- An attempt in a finished status stays in the table and keeps its status through any sequence of
-- the store's writes to the attempts (transitions, marks, retirements and insertions), except that
-- one whose retry is scheduled may become failed.
pub run-terminal :
    (rs : List Request) (d : Database) (j : String) (a : DeliveryAttempt)
    → find_attempt d j ≡ some a
    → is_attempt_terminal_state a.status ≡ true
    → (b : DeliveryAttempt) × (find_attempt (run rs d) j ≡ some b)
      × ((b.status ≡ a.status)
          ⊎ ((a.status ≡ AttemptStatus.retry_scheduled) × (b.status ≡ AttemptStatus.failed)))
unfolding run
run-terminal [] d j a h t = (a, h, inl refl)
run-terminal (r ∷ rs) d j a h t =
    let (b, found, moved) = serve-find r d j a h in
    let stays = Moves-Stays a.status b.status moved t in
    let (c, last, later) =
      run-terminal rs (serve r d) j b found (Stays-terminal a.status b.status stays t) in
    (c, last, Stays-trans a.status b.status c.status stays later)

abbrev is_ok : {A : Type 0} → Result A → Bool
is_ok (ok a) = true
is_ok (err e) = false

-- A call of MarkAttemptInProgress on the attempt that succeeds.
abbrev wins : String → Time → Write → Database → Bool
wins j now (moves id start) d = id == j && is_ok (mark_attempt_in_progress now id d).1
wins j now _ d = false

abbrev is_won : String → Request → Database → Bool
is_won j r = wins j r.now r.write

-- How many there are.
pub starts : String → List Request → Database → ℕ
starts j [] d = 0
starts j (r ∷ rs) d = let rest = starts j rs (serve r d) in if is_won j r d then suc rest else rest

is_ok_lem : (r : Result (Unit {0})) → is_ok r ≡ true → r ≡ ok tt
is_ok_lem (ok tt) h = refl
is_ok_lem (err e) h = cc

wins-pending :
    (j : String) (now : Time) (w : Write) (d : Database)
    → IsAttemptKeyed d
    → wins j now w d ≡ true
    → (a : DeliveryAttempt) × (find_attempt d j ≡ some a)
      × (is_pending a.status ≡ true)
      × (find_attempt (run_write now w d) j ≡ some (set_in_progress now a))
unfolding run_call run_write
wins-pending j now (moves id start) d keyed h =
    let named : id ≡ j = ground (arith, eq_iff id j) in
    let fine : is_ok (mark_attempt_in_progress now id d).1 ≡ true = ground arith in
    let (a, found, pending) = start_ok-pending now id d keyed (is_ok_lem _ fine) in
    (a, rw named at found, pending, rw (← named) (start_ok-not_pending now id d a found pending))
wins-pending j now (moves id _) d keyed h = cc
wins-pending j now _ d keyed h = cc

starts-not_pending :
    (rs : List Request) (d : Database) (j : String) (a : DeliveryAttempt)
    → IsAttemptKeyed d
    → find_attempt d j ≡ some a
    → is_pending a.status ≡ false
    → starts j rs d ≡ 0
unfolding starts
starts-not_pending [] d j a keyed h n = refl
starts-not_pending (r ∷ rs) d j a keyed h n =
    let (b, found, moved) = serve-find r d j a h in
    let rest : starts j rs (serve r d) ≡ 0 =
      starts-not_pending rs (serve r d) j b (serve-IsAttemptKeyed r d keyed) found
        (Moves-not-pending a.status b.status moved n) in
    elim (Bool-cases (is_won j r d)) [
      | inl won ↦
          let (c, there, pending, after) = wins-pending j r.now r.write d keyed won in ground arith
      | inr lost ↦ rw lost rest
    ]

-- In any sequence of the store's writes to the attempts (the transitions, UpdateAttemptProvider,
-- MarkAttemptEnqueued, the marks of publications, the retirement of a retried attempt, and the
-- insertion of new ones), served in any order, at most one call of MarkAttemptInProgress on a
-- given attempt succeeds, where no two attempts share a key.
pub starts-le-one :
    (rs : List Request) (d : Database) (j : String) → IsAttemptKeyed d → starts j rs d ≤ 1
unfolding starts set_in_progress
starts-le-one [] d j keyed = omega arith
starts-le-one (r ∷ rs) d j keyed = elim (Bool-cases (is_won j r d)) [
  | inl won ↦
      let (a, there, pending, after) = wins-pending j r.now r.write d keyed won in
      let rest : starts j rs (serve r d) ≡ 0 =
        starts-not_pending rs (serve r d) j (set_in_progress r.now a)
          (serve-IsAttemptKeyed r d keyed) after refl in
      rw (won, rest) (omega arith)
  | inr lost ↦ rw lost (starts-le-one rs (serve r d) j (serve-IsAttemptKeyed r d keyed))
]
