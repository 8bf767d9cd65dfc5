-- ===== src/Store/Attempts/Touched.antt =====
-- internal/store/postgres.go: what a statement on delivery_attempts does to its rows.
use notification_service.Base.{
  String, Bool, true, false, ◌≡◌, refl, ap, ◌∙◌, ◌⊎◌, inl, inr, none, some, [], ◌∷◌, ◌++◌,
  Bool-cases,
}
use notification_service.Base.Table.{
  find, update, by, update_row, find-update, update-IsKeyed, insert-IsKeyed, find-append,
}
use notification_service.Store.Status.{AttemptStatus, is_pending}
use notification_service.Store.Model.{DeliveryAttempt, Database}
use notification_service.Store.Rows.{find_attempt}
use notification_service.Store.Attempts.Lifecycle.{Edge, IsAttemptKeyed, Edge-not-pending}

-- A status stays, moves along the lifecycle, or is that of a retry that was followed.
abbrev pub Moves : AttemptStatus → AttemptStatus → Type 0
Moves s t =
    (t ≡ s) ⊎ (Edge s t ⊎ ((s ≡ AttemptStatus.retry_scheduled) × (t ≡ AttemptStatus.failed)))

pub Moves-not-pending :
    (s t : AttemptStatus) → Moves s t → is_pending s ≡ false → is_pending t ≡ false
Moves-not-pending s t (inl same) h = rw same h
Moves-not-pending s t (inr (inl edge)) h = Edge-not-pending edge
Moves-not-pending s t (inr (inr (from, to))) h = rw to refl

-- One UPDATE that keeps the keys, or one INSERT under a new key.
pub record Updated (d d' : Database) : Type 0 where
  pub test : DeliveryAttempt → Bool
  pub set : DeliveryAttempt → DeliveryAttempt
  pub keeps : (a : DeliveryAttempt) → (set a).id ≡ a.id
  pub moved : (a : DeliveryAttempt) → test a ≡ true → Moves a.status (set a).status
  pub rows : d'.attempts ≡ update test set d.attempts

abbrev pub Touched : Database → Database → Type 0
Touched d d' =
    (d'.attempts ≡ d.attempts)
    ⊎ (Updated d d'
        ⊎ ((a : DeliveryAttempt) × (find_attempt d a.id ≡ none)
            × (d'.attempts ≡ d.attempts ++ a ∷ [])))

-- An attempt stays in the table, and its status stays or moves.
pub Touched-find :
    (d d' : Database) (j : String) (a : DeliveryAttempt)
    → Touched d d'
    → find_attempt d j ≡ some a
    → (b : DeliveryAttempt) × (find_attempt d' j ≡ some b) × Moves a.status b.status
Touched-find d d' j a (inl same) h = (a, ap (find (by (λ b. b.id) j)) same ∙ h, inl refl)
Touched-find d d' j a (inr (inl u)) h =
    let row =
      ap (find (by (λ b. b.id) j)) u.rows
      ∙ find-update (λ b. b.id) u.test u.set j d.attempts u.keeps
      ∙ ap (update_row u.test u.set) h in
    elim (Bool-cases (u.test a)) [
      | inl hit ↦ (u.set a, row ∙ rw hit refl, u.moved a hit)
      | inr miss ↦ (a, row ∙ rw miss refl, inl refl)
    ]
Touched-find d d' j a (inr (inr (c, fresh, rows))) h = (
  a,
  ap (find (by (λ b. b.id) j)) rows
      ∙ find-append (by (λ b. b.id) j) d.attempts (c ∷ [])
      ∙ rw h refl,
  inl refl,
)

pub Touched-IsAttemptKeyed : (d d' : Database) → Touched d d' → IsAttemptKeyed d → IsAttemptKeyed d'
Touched-IsAttemptKeyed d d' (inl same) h = rw same h
Touched-IsAttemptKeyed d d' (inr (inl u)) h =
    rw u.rows (update-IsKeyed (λ a. a.id) u.test u.set d.attempts u.keeps h)
Touched-IsAttemptKeyed d d' (inr (inr (c, fresh, rows))) h =
    rw rows (insert-IsKeyed (λ a. a.id) d.attempts c fresh h)
