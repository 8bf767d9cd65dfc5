-- ===== src/Queue/Jobs/Recovery.antt =====
-- internal/queue/redis.go: what RecoverProcessingQueue does.
use Prim.Native.String.{◌++◌ as concat}
use package.text.Mathlib.TextLemmas.{nil-append, cons-append}
use notification_service.Base.{
  ◌≡◌, ◌≢◌, Bool-cases, refl, sym, ap, ◌∙◌, subst, ℕ, zero, suc, ◌+◌, ◌<◌, String, true, false,
  ◌==◌, ◌⊎◌, inl, inr, List, [], ◌∷◌, ◌++◌, length, length-append, arith, eq_iff, eq_refl,
}
use notification_service.Queue.Jobs.{
  Redis, nil, text, Outcome, done, processing_queue_name, recover_loop, recover_processing_queue,
  rpoplpush,
}
use notification_service.Queue.Jobs.Laws.{ListLaws}

-- The end of a list.
last-cases {ℓ} :
    {A : Type ℓ} (xs : List A) → (xs ≡ []) ⊎ ((ys : List A) × (y : A) × (xs ≡ ys ++ y ∷ []))
last-cases [] = inl refl
last-cases (x ∷ xs) = inr (elim (last-cases xs) [
  | inl e ↦ ([], x, ap (λ l. x ∷ l) e)
  | inr (ys, y, e) ↦ (x ∷ ys, y, ap (λ l. x ∷ l) e)
])

append_assoc {ℓ} : {A : Type ℓ} (xs ys zs : List A) → (xs ++ ys) ++ zs ≡ xs ++ (ys ++ zs)
append_assoc [] ys zs = refl
append_assoc (x ∷ xs) ys zs = ap (λ l. x ∷ l) (append_assoc xs ys zs)

concat-ne : (s : String) → concat s ":processing" ≢ s
concat-ne String.[] e = cc (e, nil-append ":processing")
concat-ne (String.◌∷◌ c s) e = concat-ne s (cc (e, cons-append c s ":processing"))

-- A queue is not its processing queue.
pub processing-ne : (name : String) → (processing_queue_name name == name) ≡ false
processing-ne name = elim (Bool-cases (processing_queue_name name == name)) [
  | inr e ↦ e
  | inl e ↦
      let never = concat-ne name ((eq_iff (processing_queue_name name) name).0 e) in absurd never
]

module _ (R : Redis) (laws : ListLaws R) (name : String) where
  abbrev processing : String
  processing = processing_queue_name name

  -- What the lists are when the rest `xs` of the processing queue is back.
  abbrev pub Restored : List String → List String → R.State → R.State → Type 0
  Restored xs ys s s' =
      (laws.list s' name ≡ xs ++ ys)
      × (laws.list s' processing ≡ [])
      × ((key : String)
          → (key == name) ≡ false
          → (key == processing) ≡ false
          → laws.list s' key ≡ laws.list s key)

  module _ (fuel recovered : ℕ) (s : R.State) where
    stops :
        (R.send ("RPOPLPUSH" ∷ (processing ∷ (name ∷ []))) s).1 ≡ nil
        → recover_loop R (suc fuel) recovered name s
          ≡ ((rpoplpush R processing name s).0, recovered, done tt)
    unfolding recover_loop
    stops reply = ground (arith, reply)

    goes_on :
        (x : String)
        → (R.send ("RPOPLPUSH" ∷ (processing ∷ (name ∷ []))) s).1 ≡ text x
        → recover_loop R (suc fuel) recovered name s
          ≡ recover_loop R fuel (suc recovered) name (rpoplpush R processing name s).0
    unfolding recover_loop
    goes_on x reply = ground (arith, reply)

  abbrev Result :
      ℕ → List String → List String → R.State → R.State × ℕ × Outcome (Unit {0}) → Type 0
  Result recovered xs ys s r =
      (r.2 ≡ done tt) × (r.1 ≡ length xs + recovered) × Restored xs ys s r.0

  loop-restores :
      (fuel recovered : ℕ) (s : R.State) (xs ys : List String)
      → laws.list s processing ≡ xs
      → laws.list s name ≡ ys
      → length xs < fuel
      → Result recovered xs ys s (recover_loop R fuel recovered name s)
  loop-restores zero recovered s xs ys hx hy enough =
      let never : true ≡ false = ground (arith, enough) in cc never
  loop-restores (suc fuel) recovered s xs ys hx hy enough = elim (last-cases xs) [
    | inl e ↦
        let (reply, same) = laws.rpoplpush_nil processing name s (hx ∙ e) in
        let s' = (rpoplpush R processing name s).0 in
        let here : laws.list s' name ≡ xs ++ ys = same name ∙ hy ∙ rw e refl in
        let gone : laws.list s' processing ≡ [] = same processing ∙ hx ∙ e in
        subst (Result recovered xs ys s) (sym (stops fuel recovered s reply))
          (refl, omega (arith, ap length e), (here, gone, λ key a b. same key))
    | inr (zs, z, e) ↦
        let apart : (name == processing) ≡ false =
          ground (arith, processing-ne name, eq_iff name processing, eq_iff processing name) in
        let (reply, lists) =
          laws.rpoplpush_moves processing name s zs z (processing-ne name) (hx ∙ e) in
        let s' = (rpoplpush R processing name s).0 in
        let left : laws.list s' processing ≡ zs = lists processing ∙ rw (eq_refl processing) refl in
        let back : laws.list s' name ≡ z ∷ ys =
          lists name ∙ rw (apart, eq_refl name) (ap (λ l. z ∷ l) hy) in
        let shorter : length zs < fuel =
          omega (arith, enough, ap length e, length-append zs (z ∷ [])) in
        let (ended, counted, (at_name, at_processing, others)) =
          loop-restores fuel (suc recovered) s' zs (z ∷ ys) left back shorter in
        subst (Result recovered xs ys s) (sym (goes_on fuel recovered s z reply)) (
          ended,
          omega (arith, counted, ap length e, length-append zs (z ∷ [])),
          (
            at_name ∙ sym (append_assoc zs (z ∷ []) ys) ∙ ap (λ l. l ++ ys) (sym e),
            at_processing,
            λ key a b. others key a b ∙ lists key ∙ rw (b, a) refl,
          ),
        )
  ]

-- Over a Redis that answers as documented, with more rounds than the processing queue has jobs,
-- recovering it ends without an error and gives their number; the jobs are before those of the
-- queue, in their order, none is lost or added, the processing queue is empty and every other list
-- is as it was.
pub recover-restores :
    (R : Redis) (laws : ListLaws R) (name : String) (fuel : ℕ) (s : R.State)
    → length (laws.list s (processing_queue_name name)) < fuel
    → let (s', n, r) = recover_processing_queue R fuel name s in
      let queue = processing_queue_name name in
      (r ≡ done tt)
      × (n ≡ length (laws.list s queue))
      × (laws.list s' name ≡ laws.list s queue ++ laws.list s name)
      × (laws.list s' queue ≡ [])
      × ((key : String)
          → (key == name) ≡ false
          → (key == queue) ≡ false
          → laws.list s' key ≡ laws.list s key)
unfolding recover_processing_queue
recover-restores R laws name fuel s enough =
    let queue = processing_queue_name name in
    let (ended, counted, (at_name, at_processing, others)) =
      loop-restores R laws name fuel 0 s (laws.list s queue) (laws.list s name) refl refl enough in
    (ended, omega (arith, counted), at_name, at_processing, others)
