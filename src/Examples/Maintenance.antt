-- ===== src/Examples/Maintenance.antt =====
-- A cleanup of tables with an old event and an old intent, and with work that is not done.
use notification_service.Base.{◌≡◌, refl, false, true, none, some, [], ◌∷◌}
use notification_service.Base.Table.{find}
use notification_service.Store.Status.{IntentStatus}
use notification_service.Store.Model.{DispatchIntent, DeadLetter, AuditEvent, Database}
use notification_service.Store.Rows.{find_dead_letter}
use notification_service.Store.Outbox.{find_intent}
use notification_service.Store.Maintenance.{CleanupParams, CleanupResult, run_maintenance}
use notification_service.Store.Maintenance.Cleanup.{
  as_dry_run, dry_run-run_maintenance, run_maintenance-keeps,
}
use notification_service.Examples.Fixtures.{ready, waiting_intent, next_intent}

abbrev old : DispatchIntent
old = record next_intent { status = IntentStatus.published; published_at = some 3 }

abbrev event : AuditEvent
event = record {
  id = "e1";
  tenant_id = "acme";
  actor = "worker";
  action = "dead_lettered";
  resource_type = "attempt";
  resource_id = "a0";
  metadata = [];
  created_at = 4;
}

abbrev letter : DeadLetter
letter = record {
  id = "l1";
  notification_id = "n1";
  channel = "email";
  final_error = "451";
  dead_lettered_at = 4;
  replayed_at = none;
  replay_attempt_id = none;
}

abbrev full : Database
full = record ready {
  outbox = old ∷ (waiting_intent ∷ []);
  dead_letters = letter ∷ [];
  audit_events = event ∷ [];
}

abbrev params : CleanupParams
params = record {
  now = some 100;
  audit_retention = 50;
  outbox_retention = 60;
  dead_letter_retention = 10;
  dry_run = false;
}

abbrev report : CleanupResult
report = record {
  dry_run = false;
  audit_events_deleted = 1;
  published_outbox_deleted = 1;
  dead_letters_deleted = 0;
  executed_at = 100;
}

dry_run-run_maintenance_example :
    let dry = run_maintenance 1 (record params { dry_run = true }) full in
    (dry.0 ≡ full) × (dry.1 ≡ as_dry_run (run_maintenance 1 params full).1)
dry_run-run_maintenance_example = dry_run-run_maintenance 1 params full

run_maintenance-keeps_example :
    let d' = (run_maintenance 1 params full).0 in
    (find_intent d' "i1" ≡ some waiting_intent)
    × (find_dead_letter d' "l1" ≡ some letter)
    × (d' ≡ record full {
      audit_events = d'.audit_events;
      outbox = d'.outbox;
      dead_letters = d'.dead_letters;
    })
unfolding find
run_maintenance-keeps_example =
    run_maintenance-keeps 1 params full waiting_intent letter refl refl refl refl
