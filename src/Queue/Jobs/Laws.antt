-- ===== src/Queue/Jobs/Laws.antt =====
-- What internal/queue relies on in Redis, as its documentation has it, for a Redis that answers: lists
-- by name, from the head to the tail, and counters.
use notification_service.Base.{
  ◌≡◌, ◌≢◌, ℕ, suc, String, false, ◌==◌, List, [], ◌∷◌, ◌++◌, if◌then◌else◌,
}
use notification_service.Queue.Resp.{pos}
use notification_service.Queue.Jobs.{Redis, nil, failed, text, number}

-- One list is set, the others are as they were.
abbrev pub with_list : String → List String → (String → List String) → String → List String
with_list name xs lists key = if key == name then xs else lists key

-- The tail of one list goes to the head of another.
abbrev pub moved :
    String → String → List String → String → (String → List String) → String → List String
moved source destination xs x lists =
    with_list source xs (with_list destination (x ∷ lists destination) lists)

pub record ListLaws (R : Redis) : Type 0 where
  pub list : R.State → String → List String
  pub rpoplpush_nil :
      (source destination : String) (s : R.State)
      → list s source ≡ []
      → let (s', r) = R.send ("RPOPLPUSH" ∷ (source ∷ (destination ∷ []))) s in
        (r ≡ nil) × ((key : String) → list s' key ≡ list s key)
  pub rpoplpush_moves :
      (source destination : String) (s : R.State) (xs : List String) (x : String)
      → (source == destination) ≡ false
      → list s source ≡ xs ++ x ∷ []
      → let (s', r) = R.send ("RPOPLPUSH" ∷ (source ∷ (destination ∷ []))) s in
        (r ≡ text x) × ((key : String) → list s' key ≡ moved source destination xs x (list s) key)
  pub brpoplpush_moves :
      (source destination timeout : String) (s : R.State) (xs : List String) (x : String)
      → (source == destination) ≡ false
      → list s source ≡ xs ++ x ∷ []
      → let (s', r) = R.send ("BRPOPLPUSH" ∷ (source ∷ (destination ∷ (timeout ∷ [])))) s in
        (r ≡ text x) × ((key : String) → list s' key ≡ moved source destination xs x (list s) key)
  pub lrem_head :
      (name payload : String) (s : R.State) (xs : List String)
      → list s name ≡ payload ∷ xs
      → let (s', r) = R.send ("LREM" ∷ (name ∷ (R.itoa 1 ∷ (payload ∷ [])))) s in
        (r ≡ number (pos 1)) × ((key : String) → list s' key ≡ with_list name xs (list s) key)

pub record CounterLaws (R : Redis) : Type 0 where
  pub counter : R.State → String → ℕ
  pub incr_counts :
      (key : String) (s : R.State)
      → let (s', r) = R.send ("INCR" ∷ (key ∷ [])) s in
        (r ≡ number (pos (suc (counter s key)))) × (counter s' key ≡ suc (counter s key))
  pub expire_keeps :
      (key seconds : String) (s : R.State)
      → let (s', r) = R.send ("EXPIRE" ∷ (key ∷ (seconds ∷ []))) s in
        (r ≢ failed) × (counter s' key ≡ counter s key)
  pub ttl_keeps :
      (key : String) (s : R.State) → counter (R.send ("TTL" ∷ (key ∷ [])) s).0 key ≡ counter s key
