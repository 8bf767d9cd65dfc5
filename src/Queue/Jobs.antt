-- ===== src/Queue/Jobs.antt =====
-- internal/queue/redis.go: the jobs on the lists of Redis. Redis with the connection to it is a parameter, which takes the parts of a command and
-- gives a reply; so are the JSON of a job, the decimal texts of package strconv, and how often the
-- context is looked at before it ends.
pub mod Laws
pub mod Recovery
pub mod Settled
use Prim.Native.String.{◌++◌ as concat}
use notification_service.Base.{
  ℕ, zero, suc, ◌+◌, ◌-◌, ◌*◌, ◌/◌, String, Bool, true, false, ◌==◌, Option, none, some, List, [],
  ◌∷◌, leb, eqb, if◌then◌else◌,
}
use notification_service.Delivery.Service.{DispatchJob}
use notification_service.Queue.Resp.{ℤ, pos, negsuc}
use notification_service.Queue.{PressureSnapshot}

-- An item of an array: a number, or anything else.
pub data Item : Type 0 where
  count : ℤ → Item
  other : Item

-- What readResponseLocked gives; `failed` is any error, that of the connection included.
pub data Reply : Type 0 where
  nil failed : Reply
  text : String → Reply
  number : ℤ → Reply
  array : List Item → Reply

-- `nothing` is errRedisNil.
pub data Outcome (A : Type 0) : Type 0 where
  done : A → Outcome A
  nothing error : Outcome A

pub record Redis : Type 1 where
  pub State : Type 0
  pub send : List String → State → State × Reply
  pub itoa : ℕ → String
  pub marshal : DispatchJob → String
  pub unmarshal : String → Option DispatchJob

pub record ReservedJob : Type 0 where
  pub job : DispatchJob
  pub queue_name : String
  pub processing_queue : String
  pub payload : String

abbrev pub dispatch_queue_name : String
dispatch_queue_name = "notify:dispatch"

abbrev pub dispatch_webhook_queue_name : String
dispatch_webhook_queue_name = "notify:dispatch:webhook"

abbrev pub dispatch_email_queue_name : String
dispatch_email_queue_name = "notify:dispatch:email"

abbrev pub processing_queue_name : String → String
processing_queue_name queue_name = concat queue_name ":processing"

unfoldable pub queue_name_for_channel : String → Option String
queue_name_for_channel channel =
    if channel == "webhook"
    then some dispatch_webhook_queue_name
    else if channel == "email"
    then some dispatch_email_queue_name
    else none

-- The checks of a reply's type.
abbrev pub any_reply : Reply → Outcome (Unit {0})
any_reply failed = error
any_reply _ = done tt

abbrev text_or_nil : Reply → Outcome String
text_or_nil nil = nothing
text_or_nil (text payload) = done payload
text_or_nil _ = error

abbrev pub number_of : Reply → Outcome ℤ
number_of (number n) = done n
number_of _ = error

abbrev removed : Reply → Outcome (Unit {0})
removed (number (pos n)) = if eqb n 0 then error else done tt
removed (number (negsuc n)) = done tt
removed _ = error

abbrev transacted : Reply → Outcome (Unit {0})
transacted (array (count (pos n) ∷ (count m ∷ []))) = if eqb n 0 then error else done tt
transacted (array (count (negsuc n) ∷ (count m ∷ []))) = done tt
transacted _ = error

abbrev pub Call : Type 0 → Type 0 → Type 0
Call S A = S → S × Outcome A

abbrev continue : {S A B : Type 0} → S → Outcome A → (A → Call S B) → S × Outcome B
continue s (done a) f = f a s
continue s nothing f = (s, nothing)
continue s error f = (s, error)

infixl 5 ◌>>=◌ ◌>>◌
abbrev pub ◌>>=◌ : {S A B : Type 0} → Call S A → (A → Call S B) → Call S B
◌>>=◌ m f s = let (s', r) = m s in continue s' r f

abbrev pub ◌>>◌ : {S B : Type 0} → Call S (Unit {0}) → Call S B → Call S B
m >> k = m >>= λ _. k

abbrev pub give : {S A : Type 0} → A → Call S A
give a s = (s, done a)

module _ (R : Redis) where
  abbrev pub send_for : {A : Type 0} → (Reply → Outcome A) → List String → Call R.State A
  send_for check parts s = let (s', r) = R.send parts s in (s', check r)

  unfoldable pub enqueue : String → DispatchJob → Call R.State (Unit {0})
  enqueue queue_name job = send_for any_reply ("RPUSH" ∷ (queue_name ∷ (R.marshal job ∷ [])))

  unfoldable pub enqueue_dispatch : DispatchJob → Call R.State (Unit {0})
  enqueue_dispatch job = enqueue dispatch_queue_name job

  unfoldable pub enqueue_channel : DispatchJob → Call R.State (Unit {0})
  enqueue_channel job s = elim (queue_name_for_channel job.channel) [
    | none ↦ (s, error)
    | some queue_name ↦ enqueue queue_name job s
  ]

  abbrev pub brpoplpush : String → String → ℕ → Call R.State String
  brpoplpush source destination timeout_seconds =
      send_for text_or_nil ("BRPOPLPUSH" ∷ (source ∷ (destination ∷ (R.itoa timeout_seconds ∷ []))))

  abbrev pub rpoplpush : String → String → Call R.State String
  rpoplpush source destination = send_for text_or_nil ("RPOPLPUSH" ∷ (source ∷ (destination ∷ [])))

  abbrev pub lrem : String → ℕ → String → Call R.State (Unit {0})
  lrem queue_name times payload =
      send_for removed ("LREM" ∷ (queue_name ∷ (R.itoa times ∷ (payload ∷ []))))

  abbrev reserved_as : String → String → Option DispatchJob → Outcome ReservedJob
  reserved_as queue_name payload none = error
  reserved_as queue_name payload (some job) = done (record {
    job = job;
    queue_name = queue_name;
    processing_queue = processing_queue_name queue_name;
    payload = payload;
  })

  -- The loop, as long as the context lives; a round that finds nothing is followed by the next.
  unfoldable pub reserve_loop : ℕ → String → ℕ → Call R.State ReservedJob
  reserve_loop zero queue_name timeout_seconds s = (s, error)
  reserve_loop (suc rounds) queue_name timeout_seconds s =
      let (s', r) = brpoplpush queue_name (processing_queue_name queue_name) timeout_seconds s in
      elim r [
        | done payload ↦ (s', reserved_as queue_name payload (R.unmarshal payload))
        | nothing ↦ reserve_loop rounds queue_name timeout_seconds s'
        | error ↦ (s', error)
      ]

  unfoldable pub reserve_channel : ℕ → String → ℕ → Call R.State ReservedJob
  reserve_channel rounds queue_name timeout_seconds =
      reserve_loop rounds queue_name (if eqb timeout_seconds 0 then 1 else timeout_seconds)

  unfoldable pub ack_reserved : ReservedJob → Call R.State (Unit {0})
  ack_reserved r = lrem r.processing_queue 1 r.payload

  unfoldable pub consume_channel : ℕ → String → ℕ → Call R.State DispatchJob
  consume_channel rounds queue_name timeout_seconds = do
    reserved ← reserve_channel rounds queue_name timeout_seconds
    ack_reserved reserved
    give reserved.job

  -- MULTI, LREM, LPUSH and EXEC: the reply of EXEC has those of the two commands between.
  unfoldable pub requeue_reserved : ReservedJob → Call R.State (Unit {0})
  requeue_reserved r = do
    send_for any_reply ("MULTI" ∷ [])
    send_for any_reply ("LREM" ∷ (r.processing_queue ∷ ("1" ∷ (r.payload ∷ []))))
    send_for any_reply ("LPUSH" ∷ (r.queue_name ∷ (r.payload ∷ [])))
    send_for transacted ("EXEC" ∷ [])

  -- The loop of RecoverProcessingQueue: the number of jobs that were moved, and how it ended. Fuel
  -- that runs out is `nothing`, which the code cannot give.
  unfoldable pub recover_loop : ℕ → ℕ → String → R.State → R.State × ℕ × Outcome (Unit {0})
  recover_loop zero recovered queue_name s = (s, recovered, nothing)
  recover_loop (suc fuel) recovered queue_name s =
      let (s', r) = rpoplpush (processing_queue_name queue_name) queue_name s in
      elim r [
        | done payload ↦ recover_loop fuel (suc recovered) queue_name s'
        | nothing ↦ (s', recovered, done tt)
        | error ↦ (s', recovered, error)
      ]

  unfoldable pub recover_processing_queue : ℕ → String → R.State → R.State × ℕ × Outcome (Unit {0})
  recover_processing_queue fuel queue_name = recover_loop fuel 0 queue_name

  unfoldable pub queue_depth : String → Call R.State ℤ
  queue_depth queue_name = send_for number_of ("LLEN" ∷ (queue_name ∷ []))

  -- LLEN is not negative.
  abbrev depth_of : ℤ → ℕ
  depth_of (pos n) = n
  depth_of (negsuc n) = 0

  unfoldable pub pressure_snapshot : Call R.State PressureSnapshot
  pressure_snapshot = do
    shared ← queue_depth dispatch_queue_name
    email ← queue_depth dispatch_email_queue_name
    webhook ← queue_depth dispatch_webhook_queue_name
    give (record {
      depths =
          (dispatch_queue_name, depth_of shared)
          ∷ ((dispatch_email_queue_name, depth_of email)
              ∷ ((dispatch_webhook_queue_name, depth_of webhook) ∷ []));
      soft_limit = 0;
      hard_limit = 0;
      retry_after = 0;
    })

  -- The loop of RecoverKnownProcessingQueues over the queues: the counts of those that were done.
  unfoldable pub recover_all :
      ℕ → List String → R.State → R.State × List (String × ℕ) × Outcome (Unit {0})
  recover_all fuel [] s = (s, [], done tt)
  recover_all fuel (name ∷ names) s =
      let (s', recovered, r) = recover_processing_queue fuel name s in
      let (s'', counts, rest) = recover_all fuel names s' in
      elim r [
        | done u ↦ (s'', (name, recovered) ∷ counts, rest)
        | nothing ↦ (s', [], nothing)
        | error ↦ (s', [], error)
      ]

  unfoldable pub recover_known_processing_queues :
      ℕ → R.State → R.State × List (String × ℕ) × Outcome (Unit {0})
  recover_known_processing_queues fuel =
      recover_all fuel
        (dispatch_queue_name ∷ (dispatch_webhook_queue_name ∷ (dispatch_email_queue_name ∷ [])))
