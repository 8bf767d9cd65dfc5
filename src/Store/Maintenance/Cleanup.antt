-- ===== src/Store/Maintenance/Cleanup.antt =====
-- internal/store/postgres.go: what RunMaintenance deletes.
use notification_service.Base.{
  ◌≡◌, refl, Bool, true, false, some, List, [], ◌∷◌, arith, inl, inr, Bool-cases, is_some,
}
use notification_service.Base.Table.{find, count, delete, by}
use notification_service.Store.Status.{is_published}
use notification_service.Store.Model.{Time, DispatchIntent, DeadLetter, Database}
use notification_service.Store.Action.{Result, ok, err}
use notification_service.Store.Rows.{find_dead_letter}
use notification_service.Store.Outbox.{find_intent}
use notification_service.Store.Policy.{override}
use notification_service.Store.Maintenance.{
  CleanupParams, CleanupResult, old_event, old_intent, old_letter, count_old, delete_old,
  run_cleanup, run_maintenance,
}

-- The report of a run, as that of a dry run.
abbrev pub as_dry_run : Result CleanupResult → Result CleanupResult
as_dry_run (ok r) = ok (record r { dry_run = true })
as_dry_run (err e) = err e

-- A dry run of the maintenance changes nothing, and its report, or its error, is that of a real
-- run with the same parameters but for the dry-run mark.
pub dry_run-run_maintenance :
    (clock : Time) (params : CleanupParams) (d : Database)
    → let dry = run_maintenance clock (record params { dry_run = true }) d in
      (dry.0 ≡ d) × (dry.1 ≡ as_dry_run (run_maintenance clock params d).1)
unfolding run_maintenance run_cleanup delete_old count_old old_event old_intent old_letter
dry_run-run_maintenance clock params d = (ground arith, ground arith)

module _ {ℓ} {A : Type ℓ} where
  find-delete_kept :
      (p q : A → Bool) (xs : List A) (x : A)
      → find q xs ≡ some x
      → p x ≡ false
      → find q (delete p xs) ≡ some x
  unfolding find delete
  find-delete_kept p q [] x h k = cc h
  find-delete_kept p q (y ∷ ys) x h k = elim (Bool-cases (q y)) [
    | inl e ↦ ground (arith, e, h, k)
    | inr e ↦ ground (arith, e, find-delete_kept p q ys x, h, k)
  ]

  count-delete : (p : A → Bool) (xs : List A) → count p (delete p xs) ≡ 0
  unfolding count delete
  count-delete p [] = refl
  count-delete p (x ∷ xs) = ground (arith, count-delete p xs)

  delete-delete : (p : A → Bool) (xs : List A) → delete p (delete p xs) ≡ delete p xs
  unfolding delete
  delete-delete p [] = refl
  delete-delete p (x ∷ xs) = ground (arith, delete-delete p xs)

-- A maintenance run, whatever its parameters, leaves alone every table but the audit events, the
-- outbox and the dead letters; an intent that is not published and a dead letter that was not
-- replayed are found after it as before.
pub run_maintenance-keeps :
    (clock : Time) (params : CleanupParams) (d : Database) (i : DispatchIntent) (l : DeadLetter)
    → find_intent d i.id ≡ some i
    → is_published i.status ≡ false
    → find_dead_letter d l.id ≡ some l
    → is_some l.replayed_at ≡ false
    → let d' = (run_maintenance clock params d).0 in
      (find_intent d' i.id ≡ some i)
      × (find_dead_letter d' l.id ≡ some l)
      × (d' ≡ record d {
        audit_events = d'.audit_events;
        outbox = d'.outbox;
        dead_letters = d'.dead_letters;
      })
unfolding run_maintenance run_cleanup delete_old old_intent old_letter
run_maintenance-keeps clock params d i l intent live letter waiting =
    let now = override params.now clock in
    let spared : old_intent now params i ≡ false = ground (arith, live) in
    let spared' : old_letter now params l ≡ false = ground (arith, waiting) in
    let kept =
      find-delete_kept (old_intent now params) (by (λ i. i.id) i.id) d.outbox i intent spared in
    let kept' =
      find-delete_kept (old_letter now params) (by (λ l. l.id) l.id) d.dead_letters l letter
        spared' in
    (ground (arith, kept, intent), ground (arith, kept', letter), ground arith)

-- After a real maintenance run at a given time succeeds, a second one with the same parameters
-- deletes nothing, changes nothing and reports zeros.
pub run_maintenance-run_maintenance :
    (clock later : Time) (params : CleanupParams) (d : Database) (r : CleanupResult)
    → (run_maintenance clock params d).1 ≡ ok r
    → is_some params.now ≡ true
    → params.dry_run ≡ false
    → let d' = (run_maintenance clock params d).0 in
      run_maintenance later params d' ≡ (
        d',
        ok (record r {
          audit_events_deleted = 0;
          published_outbox_deleted = 0;
          dead_letters_deleted = 0;
        }),
      )
unfolding run_maintenance run_cleanup delete_old count_old
run_maintenance-run_maintenance clock later params d r h fixed real =
    let now = override params.now clock in
    let gone = count-delete (old_event now params) d.audit_events in
    let gone' = count-delete (old_intent now params) d.outbox in
    let gone'' = count-delete (old_letter now params) d.dead_letters in
    let same = delete-delete (old_event now params) d.audit_events in
    let same' = delete-delete (old_intent now params) d.outbox in
    let same'' = delete-delete (old_letter now params) d.dead_letters in
    ground (arith, h, fixed, real, gone, gone', gone'', same, same', same'')
