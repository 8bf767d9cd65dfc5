-- ===== src/Api/DeadLetters.antt =====
-- internal/http/handlers/api.go: the operators' handlers of the dead letters.
use Prim.Native.String.{◌++◌ as concat}
use notification_service.Base.{String, [], ◌∷◌, is_some, not}
use notification_service.Store.Model.{Notification, DeadLetter}
use notification_service.Store.Rows.{
  get_dead_letter_by_id, get_notification_by_id, list_dead_letters,
}
use notification_service.Store.Policy.{resolve_delivery_policy}
use notification_service.Store.Retries.{ensure_replay_attempt}
use notification_service.Api.{
  attempt, dead_letter, dead_letters, Response, Env, World, Handler, ◌>>=◌, ◌>>◌, pass, serve,
  write_json, conflicting, always_internal, or_missing, require, call, read, record_audit,
  enforce_backpressure,
}

unfoldable pub list_dead_letters_handler : World → World × Response
list_dead_letters_handler w = (w, write_json 200 (dead_letters (list_dead_letters 100 w.db)))

unfoldable pub get_dead_letter_handler : String → World → World × Response
get_dead_letter_handler id = serve do
  l ← read (or_missing "dead letter not found") (get_dead_letter_by_id id)
  pass (write_json 200 (dead_letter l))

abbrev pub replay_attempt_id : String → String
replay_attempt_id dead_letter_id = concat "replay_" dead_letter_id

unfoldable pub check_replay : Notification → DeadLetter → Handler (Unit {0})
check_replay n l w =
    require (resolve_delivery_policy n.tenant_id l.channel w.db).replay_allowed
      (conflicting "replay is disabled for this tenant/channel") w

-- What is asked before the replay.
unfoldable pub admit_replay : Env → String → Handler (DeadLetter × Notification)
admit_replay env id = do
  l ← read (or_missing "dead letter not found") (get_dead_letter_by_id id)
  require (not (is_some l.replayed_at)) (conflicting "dead letter already replayed")
  n ← read always_internal (get_notification_by_id l.notification_id)
  enforce_backpressure env
  check_replay n l
  pass (l, n)

unfoldable pub replay_dead_letter_handler : Env → String → World → World × Response
replay_dead_letter_handler env id = serve do
  admitted ← admit_replay env id
  record_audit env admitted.1.tenant_id "replay_requested" "dead_letter" id (
      ("notification_id", env.json_string admitted.0.notification_id)
      ∷ (("channel", env.json_string admitted.0.channel) ∷ []))
  made ←
      call (or_missing "dead letter not found")
        (ensure_replay_attempt env.now id (replay_attempt_id id))
  record_audit env admitted.1.tenant_id "dispatch_intent_created" "dispatch_intent"
      (concat "intent-" made.attempt.id)
      (("notification_id", env.json_string made.attempt.notification_id)
        ∷ (("dead_letter_id", env.json_string id)
            ∷ (("channel", env.json_string made.attempt.channel)
                ∷ (("source", env.json_string "replay")
                    ∷ (("attempt_id", env.json_string made.attempt.id) ∷ [])))))
  pass (write_json 202 (attempt made.attempt))
