-- ===== src/Store/Policy.antt =====
-- internal/store/postgres.go: delivery policies, their resolution and the pause gate of the queries
-- that claim and promote work.
use notification_service.Base.{
  ℕ, ◌^◌, String, Bool, true, false, ◌&&◌, ◌||◌, ◌==◌, Option, none, some, List, [], ◌∷◌, ◌++◌,
  select, ltb, leb, eqb, is_some, not, if◌then◌else◌,
}
use notification_service.Base.Table.{find, update, by, or_else}
use notification_service.Base.Sort.{order_by}
use notification_service.Store.Model.{Time, DeliveryPolicy, ResolvedDeliveryPolicy, Database, other}
use notification_service.Store.Records.{foreign_key}
use notification_service.Store.Action.{Action, Result, ok, err, or_not_found}

-- `*row.X` where it is not nil, else the value so far.
abbrev pub override {ℓ} : {A : Type ℓ} → Option A → A → A
override none old = old
override (some new) old = new

unfoldable pub apply_policy_row : ResolvedDeliveryPolicy → DeliveryPolicy → ResolvedDeliveryPolicy
apply_policy_row resolved row = record resolved {
  paused = override row.paused resolved.paused;
  failover_enabled = override row.failover_enabled resolved.failover_enabled;
  scheduling_enabled = override row.scheduling_enabled resolved.scheduling_enabled;
  replay_allowed = override row.replay_allowed resolved.replay_allowed;
  max_attempts_override = or_else row.max_attempts_override resolved.max_attempts_override;
  retry_base_delay_seconds = or_else row.retry_base_delay_seconds resolved.retry_base_delay_seconds;
  retry_max_delay_seconds = or_else row.retry_max_delay_seconds resolved.retry_max_delay_seconds;
}

-- column = $1, which NULL does not satisfy.
abbrev pub is_text : Option String → String → Bool
is_text none t = false
is_text (some s) t = s == t

abbrev pub default_policy : String → String → ResolvedDeliveryPolicy
default_policy tenant_id channel = record {
  tenant_id = tenant_id;
  channel = channel;
  paused = false;
  failover_enabled = false;
  scheduling_enabled = true;
  replay_allowed = true;
  max_attempts_override = none;
  retry_base_delay_seconds = none;
  retry_max_delay_seconds = none;
}

-- The `paused` column of the first row.
abbrev pub first_pause : List DeliveryPolicy → Option Bool
first_pause [] = none
first_pause (p ∷ ps) = p.paused

-- ORDER BY updated_at DESC.
pub newest_before : DeliveryPolicy → DeliveryPolicy → Bool
newest_before p q = leb q.updated_at p.updated_at

-- SELECT paused ... WHERE scope ORDER BY updated_at DESC LIMIT 1.
unfoldable pub scoped_pause : (DeliveryPolicy → Bool) → List DeliveryPolicy → Option Bool
unfolding newest_before
scoped_pause scope ps = first_pause (order_by newest_before (select scope ps))

module _ (tenant_id channel : String) where
  -- The WHERE clause of ResolveDeliveryPolicy.
  unfoldable pub applies : DeliveryPolicy → Bool
  applies p =
      (is_text p.tenant_id tenant_id || not (is_some p.tenant_id))
      && (is_text p.channel channel || not (is_some p.channel))

  -- The CASE of its ORDER BY.
  unfoldable pub rank : DeliveryPolicy → ℕ
  rank p =
      if is_text p.tenant_id tenant_id && is_text p.channel channel
      then 1
      else if is_text p.tenant_id tenant_id && not (is_some p.channel)
      then 2
      else if not (is_some p.tenant_id) && is_text p.channel channel
      then 3
      else 4

  -- ORDER BY the rank, then updated_at DESC, then created_at DESC.
  pub ranked_before : DeliveryPolicy → DeliveryPolicy → Bool
  ranked_before p q =
      if eqb (rank p) (rank q)
      then (if eqb p.updated_at q.updated_at
          then leb q.created_at p.created_at
          else ltb q.updated_at p.updated_at)
      else ltb (rank p) (rank q)

  -- The loop from the last row to the first.
  pub apply_rows : List DeliveryPolicy → ResolvedDeliveryPolicy
  apply_rows [] = default_policy tenant_id channel
  apply_rows (p ∷ ps) = apply_policy_row (apply_rows ps) p

  unfoldable pub resolve_delivery_policy : Database → ResolvedDeliveryPolicy
  unfolding apply_rows ranked_before
  resolve_delivery_policy d = apply_rows (order_by ranked_before (select applies d.policies))

  -- COALESCE over the four scopes, in the queries that claim intents and promote notifications.
  unfoldable pub is_paused : Database → Bool
  unfolding scoped_pause
  is_paused d =
      override
        (or_else
          (scoped_pause (λ p. is_text p.tenant_id tenant_id && is_text p.channel channel)
            d.policies)
          (or_else
            (scoped_pause (λ p. is_text p.tenant_id tenant_id && not (is_some p.channel))
              d.policies)
            (or_else
              (scoped_pause (λ p. not (is_some p.tenant_id) && is_text p.channel channel)
                d.policies)
              (scoped_pause (λ p. not (is_some p.tenant_id) && not (is_some p.channel))
                d.policies))))
        false

-- An INTEGER column, and its CHECK that what is set is above 0.
abbrev is_integer : Option ℕ → Bool
is_integer none = true
is_integer (some n) = ltb n (2 ^ 31)

abbrev is_above_zero : Option ℕ → Bool
is_above_zero none = true
is_above_zero (some n) = ltb 0 n

abbrev overrides_hold : (Option ℕ → Bool) → DeliveryPolicy → Bool
overrides_hold good p =
    good p.max_attempts_override
    && good p.retry_base_delay_seconds
    && good p.retry_max_delay_seconds

abbrev is_policy_channel : Option String → Bool
is_policy_channel none = true
is_policy_channel (some c) = c == "email" || c == "webhook"

-- REFERENCES tenants(id), of a column that may be NULL.
abbrev has_tenant : Option String → Database → Bool
has_tenant none d = true
has_tenant (some id) d = is_some (find (by (λ t. t.id) id) d.tenants)

-- UpsertDeliveryPolicy: INSERT ... ON CONFLICT (id) DO UPDATE. The row given has the columns of the
-- parameters; a row of that id keeps its created_at.
unfoldable pub upsert_delivery_policy : Time → DeliveryPolicy → Action DeliveryPolicy
upsert_delivery_policy now params d =
    if not (overrides_hold is_integer params)
    then (d, err (other "integer out of range"))
    else if not (overrides_hold is_above_zero params && is_policy_channel params.channel)
    then (d, err (other "violates check constraint"))
    else if not (has_tenant params.tenant_id d)
    then (d, err foreign_key)
    else elim (find (by (λ p. p.id) params.id) d.policies) [
      | none ↦
          let row = record params { created_at = now; updated_at = now } in
          (record d { policies = d.policies ++ row ∷ [] }, ok row)
      | some old ↦
          let row = record params { created_at = old.created_at; updated_at = now } in
          (record d { policies = update (by (λ p. p.id) params.id) (λ _. row) d.policies }, ok row)
    ]

abbrev set_paused : Time → Bool → DeliveryPolicy → DeliveryPolicy
set_paused now paused p = record p { paused = some paused; updated_at = now }

unfoldable pub set_delivery_policy_paused : Time → String → Bool → Action DeliveryPolicy
set_delivery_policy_paused now id paused d =
    let ps = update (by (λ p. p.id) id) (set_paused now paused) d.policies in
    (record d { policies = ps }, or_not_found (find (by (λ p. p.id) id) ps))

pub get_delivery_policy_by_id : String → Database → Result DeliveryPolicy
get_delivery_policy_by_id id d = or_not_found (find (by (λ p. p.id) id) d.policies)

-- a <= b in an ORDER BY ... NULLS FIRST, over the collation of the texts.
abbrev nulls_first : (String → String → Bool) → Option String → Option String → Bool
nulls_first collation none b = true
nulls_first collation (some s) none = false
nulls_first collation (some s) (some t) = collation s t

abbrev is_equal_by : (String → String → Bool) → Option String → Option String → Bool
is_equal_by collation a b = nulls_first collation a b && nulls_first collation b a

-- ORDER BY tenant_id NULLS FIRST, channel NULLS FIRST, created_at ASC.
listed_before : (String → String → Bool) → DeliveryPolicy → DeliveryPolicy → Bool
listed_before collation p q =
    if is_equal_by collation p.tenant_id q.tenant_id
    then (if is_equal_by collation p.channel q.channel
        then leb p.created_at q.created_at
        else nulls_first collation p.channel q.channel)
    else nulls_first collation p.tenant_id q.tenant_id

pub list_delivery_policies : (String → String → Bool) → Database → List DeliveryPolicy
unfolding listed_before
list_delivery_policies collation d = order_by (listed_before collation) d.policies
