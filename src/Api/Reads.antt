-- ===== src/Api/Reads.antt =====
-- internal/http/handlers/api.go: reading notifications and attempts.
use notification_service.Base.{String}
use notification_service.Store.Rows.{
  get_notification_by_id, get_delivery_attempt_by_id, list_delivery_attempts_by_notification_id,
}
use notification_service.Api.{
  inspection, attempt, attempts, Response, World, next, ◌>>=◌, pass, serve, write_json, or_missing,
  read,
}

unfoldable pub get_notification_handler : String → World → World × Response
get_notification_handler id = serve do
  n ← read (or_missing "notification not found") (get_notification_by_id id)
  λ w. (w, next (write_json 200 (inspection n (list_delivery_attempts_by_notification_id id w.db))))

unfoldable pub list_notification_attempts_handler : String → World → World × Response
list_notification_attempts_handler id w =
    (w, write_json 200 (attempts (list_delivery_attempts_by_notification_id id w.db)))

unfoldable pub get_attempt_handler : String → World → World × Response
get_attempt_handler id = serve do
  a ← read (or_missing "attempt not found") (get_delivery_attempt_by_id id)
  pass (write_json 200 (attempt a))
