-- ===== src/Queue/Limiter/Window.antt =====
-- internal/queue/redis.go: AllowTenant, called again and again in one window.
use Prim.Native.String.{◌++◌ as concat}
use notification_service.Base.{
  ◌≡◌, ◌≢◌, refl, ℕ, zero, suc, ◌+◌, ◌-◌, ◌<◌, String, Bool, true, false, ◌==◌, [], ◌∷◌, arith, leb,
  if◌then◌else◌,
}
use notification_service.Queue.Jobs.{
  Redis, Reply, number, any_reply, nil, failed, text, number, array, Outcome, done,
}
use notification_service.Queue.Limiter.{allow_tenant, window_seconds}
use notification_service.Queue.Jobs.Laws.{CounterLaws}

abbrev granted : Outcome (Bool × ℕ) → ℕ
granted (done (true, wait)) = 1
granted _ = 0

any_reply-done : (r : Reply) → r ≢ failed → any_reply r ≡ done tt
any_reply-done nil h = refl
any_reply-done failed h = absurd (h refl)
any_reply-done (text t) h = refl
any_reply-done (number n) h = refl
any_reply-done (array items) h = refl

module _ (R : Redis) (tenant_id : String) (limit window : ℕ) where
  -- How many of a number of calls, one after the other, are allowed.
  unfoldable pub grants : ℕ → R.State → ℕ
  grants zero s = 0
  grants (suc calls) s =
      let (s', r) = allow_tenant R tenant_id limit window s in granted r + grants calls s'

  abbrev pub counter_key : String
  counter_key = concat "notify:rate:" tenant_id

  module _ (laws : CounterLaws R) (limited : 0 < limit) (named : (tenant_id == "") ≡ false) where
    -- One call counts, and is allowed up to the limit.
    allow-counts :
        (s : R.State)
        → let (s', r) = allow_tenant R tenant_id limit window s in
          (laws.counter s' counter_key ≡ suc (laws.counter s counter_key))
          × (granted r ≡ (if leb (suc (laws.counter s counter_key)) limit then 1 else 0))
    unfolding allow_tenant
    allow-counts s =
        let a = (R.send ("INCR" ∷ (counter_key ∷ [])) s).0 in
        let (reply, counted) = laws.incr_counts counter_key s in
        let seconds = R.itoa (window_seconds R window) in
        let b = (R.send ("EXPIRE" ∷ (counter_key ∷ (seconds ∷ []))) a).0 in
        let (fine, kept) = laws.expire_keeps counter_key seconds a in
        let started =
          any_reply-done (R.send ("EXPIRE" ∷ (counter_key ∷ (seconds ∷ []))) a).1 fine in
        ground (
          arith,
          limited,
          named,
          reply,
          counted,
          kept,
          started,
          laws.ttl_keeps counter_key a,
          laws.ttl_keeps counter_key b,
        )

    grants-from :
        (calls : ℕ) (s : R.State)
        → grants calls s ≡ (
            if leb (laws.counter s counter_key + calls) limit
            then calls
            else limit - laws.counter s counter_key)
    unfolding grants
    grants-from zero s = ground arith
    grants-from (suc calls) s =
        let s' = (allow_tenant R tenant_id limit window s).0 in
        let (counted, allowed) = allow-counts s in
        ground (arith, counted, allowed, grants-from calls s')

-- Over a Redis that answers as documented, where a limit and a tenant are given, of any number of
-- calls in one window of the tenant, in which its counter starts at 0 and does not expire, exactly
-- so many are allowed as the limit has room for: all, or the limit.
pub grants-exact :
    (R : Redis) (laws : CounterLaws R) (tenant_id : String) (limit window calls : ℕ) (s : R.State)
    → 0 < limit
    → (tenant_id == "") ≡ false
    → laws.counter s (counter_key R tenant_id limit window) ≡ 0
    → grants R tenant_id limit window calls s ≡ (if leb calls limit then calls else limit)
grants-exact R laws tenant_id limit window calls s limited named new =
    ground (arith, new, grants-from R tenant_id limit window laws limited named calls s)
