-- ===== src/Store/Action.antt =====
-- Operations of the store as actions on the tables: the tables come back beside an error too, for a
-- statement outside a transaction stays done. A driver failure (a lost connection) is not an outcome
-- of these actions: each statement runs.
use notification_service.Base.{◌≡◌, refl, ◌⊎◌, inl, inr, Option, none, some}
use notification_service.Store.Model.{Database, StoreError, not_found}

pub data Result {ℓ} (A : Type ℓ) : Type ℓ where
  ok : A → Result A
  err : StoreError → Result A

abbrev pub Action : Type 0 → Type 0
Action A = Database → Database × Result A

abbrev pub pure : {A : Type 0} → A → Action A
pure a d = (d, ok a)

abbrev pub fail : {A : Type 0} → StoreError → Action A
fail e d = (d, err e)

-- A SELECT.
abbrev pub query : {A : Type 0} → (Database → Result A) → Action A
query q d = (d, q d)

abbrev continue : {A B : Type 0} → Database → Result A → (A → Action B) → Database × Result B
continue d (ok a) f = f a d
continue d (err e) f = (d, err e)

infixl 5 ◌>>=◌ ◌>>◌
abbrev pub ◌>>=◌ : {A B : Type 0} → Action A → (A → Action B) → Action B
◌>>=◌ m f d = let (d', r) = m d in continue d' r f

abbrev pub ◌>>◌ : {B : Type 0} → Action (Unit {0}) → Action B → Action B
m >> k = m >>= λ _. k

abbrev commit : {A : Type 0} → Database → Database → Result A → Database × Result A
commit old new (ok a) = (new, ok a)
commit old new (err e) = (old, err e)

-- BeginTx, with Commit at the end and the deferred Rollback: an error undoes the statements.
abbrev pub transaction : {A : Type 0} → Action A → Action A
transaction m d = let (d', r) = m d in commit d d' r

-- Scan of a row that may be missing: sql.ErrNoRows becomes ErrNotFound.
abbrev pub or_not_found : {A : Type 0} → Option A → Result A
or_not_found none = err not_found
or_not_found (some a) = ok a

-- To split on a computed result and keep the equation.
pub Result-cases {ℓ} :
    {A : Type ℓ} (r : Result A) → ((a : A) × (r ≡ ok a)) ⊎ ((e : StoreError) × (r ≡ err e))
Result-cases (ok a) = inl (a, refl)
Result-cases (err e) = inr (e, refl)
