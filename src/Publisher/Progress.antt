-- ===== src/Publisher/Progress.antt =====
-- internal/outbox/publisher.go: what the store's operations do to the number of intents that are not
-- published yet.
use notification_service.Base.{
  All-of, ℕ, ◌+◌, ◌≤◌, ◌<◌, ◌≡◌, refl, sym, ap, ◌∙◌, subst, String, Bool, true, false, ◌&&◌, ◌==◌,
  some, List, [], ◌∷◌, All, arith, not, inl, inr, Bool-cases,
}
use notification_service.Base.Table.{IsKeyed, count, update, update-IsKeyed, count-by, count_row}
use notification_service.Store.Status.{is_published}
use notification_service.Store.Model.{Time, DispatchIntent, Database, Variables}
use notification_service.Store.Action.{ok}
use notification_service.Store.Outbox.{
  find_intent, set_published, set_released, is_held, mark_dispatch_intent_published,
  record_dispatch_intent_error, note_publication,
}
use notification_service.Store.Records.{record_audit_event}

abbrev pub is_unpublished : DispatchIntent → Bool
is_unpublished i = not (is_published i.status)

abbrev pub unpublished : Database → ℕ
unpublished d = count is_unpublished d.outbox

-- The intents keep their keys, and no intent stops being published.
pub record Proceeds (d d' : Database) : Type 0 where
  pub keyed : IsKeyed (λ i. i.id) d.outbox → IsKeyed (λ i. i.id) d'.outbox
  pub fewer : unpublished d' ≤ unpublished d

pub then-Proceeds : (d e f : Database) → Proceeds d e → Proceeds e f → Proceeds d f
then-Proceeds d e f h k = record {
  keyed = λ x. k.keyed (h.keyed x);
  fewer = omega (arith, h.fewer, k.fewer);
}

pub same-Proceeds : (d d' : Database) → d'.outbox ≡ d.outbox → Proceeds d d'
same-Proceeds d d' e = record {
  keyed = λ k. subst (IsKeyed (λ i. i.id)) (sym e) k;
  fewer = omega (arith, ap (count is_unpublished) e);
}

module _ {A : Type 0} (p q : A → Bool) (f : A → A) where
  pub count-update_where :
      (xs : List A)
      → All (λ x. q x ≡ true → p (f x) ≡ p x) xs
      → count p (update q f xs) ≡ count p xs
  unfolding count update
  count-update_where [] h = refl
  count-update_where (x ∷ xs) h = elim (Bool-cases (q x)) [
    | inl e ↦ let same : p (f x) ≡ p x = h.0 e in ground (arith, e, same, count-update_where xs h.1)
    | inr e ↦ ground (arith, e, count-update_where xs h.1)
  ]

  count-update_leaves :
      (xs : List A)
      → ((x : A) → q x ≡ true → p x ≡ true)
      → ((x : A) → p (f x) ≡ false)
      → count p (update q f xs) + count q xs ≡ count p xs
  unfolding count update
  count-update_leaves [] h k = refl
  count-update_leaves (x ∷ xs) h k = ground (arith, h x, k x, count-update_leaves xs h k)

module _ (now : Time) (id : String) (claimed_at : Time) (d : Database) where
  abbrev pub held : DispatchIntent → Bool
  held i = i.id == id && is_held claimed_at i

  held-is_unpublished : (i : DispatchIntent) → held i ≡ true → is_unpublished i ≡ true
  held-is_unpublished i h = ground (arith, h)

  pub mark-outbox :
      (u : Unit {0})
      → (mark_dispatch_intent_published now id claimed_at d).1 ≡ ok u
      → (mark_dispatch_intent_published now id claimed_at d).0.outbox
        ≡ update held (set_published now) d.outbox
  unfolding mark_dispatch_intent_published note_publication
  mark-outbox u h = ground (arith, h)

  pub mark-Proceeds :
      (u : Unit {0})
      → (mark_dispatch_intent_published now id claimed_at d).1 ≡ ok u
      → Proceeds d (mark_dispatch_intent_published now id claimed_at d).0
  mark-Proceeds u h =
      let rows = mark-outbox u h in
      let left =
        count-update_leaves is_unpublished held (set_published now) d.outbox held-is_unpublished
          (λ i. refl) in
      record {
        keyed = λ k.
            subst (IsKeyed (λ i. i.id)) (sym rows)
              (update-IsKeyed (λ i. i.id) held (set_published now) d.outbox (λ i. refl) k);
        fewer = omega (arith, ap (count is_unpublished) rows, left);
      }

  -- The holder's publication publishes one intent.
  pub mark-lt :
      (u : Unit {0}) (i : DispatchIntent)
      → (mark_dispatch_intent_published now id claimed_at d).1 ≡ ok u
      → IsKeyed (λ i. i.id) d.outbox
      → find_intent d id ≡ some i
      → is_held claimed_at i ≡ true
      → unpublished (mark_dispatch_intent_published now id claimed_at d).0 < unpublished d
  mark-lt u i h keyed found holds =
      let left =
        count-update_leaves is_unpublished held (set_published now) d.outbox held-is_unpublished
          (λ i. refl) in
      let one : count held d.outbox ≡ 1 =
        count-by (λ i. i.id) (is_held claimed_at) id d.outbox keyed
        ∙ ap (count_row (is_held claimed_at)) found
        ∙ ground (arith, holds) in
      omega (arith, ap (count is_unpublished) (mark-outbox u h), left, one)

  release-outbox :
      (e : String)
      → (record_dispatch_intent_error id claimed_at e d).0.outbox
        ≡ update held (set_released e) d.outbox
  unfolding record_dispatch_intent_error
  release-outbox e = ground arith

  pub release-Proceeds :
      (e : String) → Proceeds d (record_dispatch_intent_error id claimed_at e d).0
  release-Proceeds e = record {
    keyed = λ k.
        subst (IsKeyed (λ i. i.id)) (sym (release-outbox e))
          (update-IsKeyed (λ i. i.id) held (set_released e) d.outbox (λ i. refl) k);
    fewer = omega (
      arith,
      ap (count is_unpublished) (release-outbox e),
      count-update_where is_unpublished held (set_released e) d.outbox (
          All-of (λ i. held i ≡ true → is_unpublished (set_released e i) ≡ is_unpublished i)
            d.outbox (λ i h. ground (arith, h))),
    );
  }

pub audit-Proceeds :
    (now : Time) (id tenant_id actor action resource_type resource_id : String)
    (metadata : Variables) (d : Database)
    → Proceeds d
        (record_audit_event now id tenant_id actor action resource_type resource_id metadata d).0
unfolding record_audit_event
audit-Proceeds now id tenant_id actor action resource_type resource_id metadata d =
    same-Proceeds d
      (record_audit_event now id tenant_id actor action resource_type resource_id metadata d).0
      (ground arith)
