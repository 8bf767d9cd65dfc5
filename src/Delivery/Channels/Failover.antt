-- ===== src/Delivery/Channels/Failover.antt =====
-- internal/delivery/service.go: what the two senders send, and when they turn to the backup.
use notification_service.Base.{
  ◌≡◌, ◌≤◌, sym, refl, ◌⊎◌, true, false, Option, none, some, List, [], ◌∷◌, ◌++◌, arith, inl, inr,
  Option-cases, String, length, All, is_some,
}
use mathlib.Core.List.{append_assoc, append-nil}
use notification_service.Store.Model.{Notification, Template, ResolvedDeliveryPolicy}
use notification_service.Delivery.Service.{
  DispatchJob, Send, Sender, Service, World, Flow, go, Failure, taken, refused, Answer,
  webhook_primary, webhook_secondary, smtp_primary, smtp_secondary,
}
use notification_service.Delivery.Channels.{
  Delivery, send_webhook, send_email, webhook_send, webhook_failover, email_send, email_failover,
  backup_for, present, webhook_request, delivered, undelivered, nonempty, email_request, unprepared,
  subject_of,
}

-- The messages of one delivery and the report of them: none where the message cannot be prepared, one
-- to the primary provider, or a second one to the backup where the policy enables failover.
pub data Sending (job : DispatchJob) (policy : ResolvedDeliveryPolicy)
    : List Send → Delivery → Type 0 where
  nothing : (t : String) → Sending job policy [] (unprepared t)
  once :
      (q : Send) (m : Delivery)
      → q.attempt_id ≡ job.attempt_id
      → m.failover_used ≡ false
      → Sending job policy (q ∷ []) m
  twice :
      (q r : Send) (m : Delivery)
      → q.attempt_id ≡ job.attempt_id
      → r.attempt_id ≡ job.attempt_id
      → policy.failover_enabled ≡ true
      → Sending job policy (q ∷ (r ∷ [])) m

module _ {S : Type 0} (job : DispatchJob) (policy : ResolvedDeliveryPolicy) (w : World S) where
  -- A sender goes on, with the store as it was, after such messages.
  abbrev pub IsBounded : World S × Flow Delivery → Type 0
  IsBounded r =
      (m : Delivery) × (ms : List Send) × (r.1 ≡ go m)
      × (r.0.state ≡ w.state)
      × (r.0.sends ≡ w.sends ++ ms)
      × Sending job policy ms m

module _ {S : Type 0} (v : Service S) (job : DispatchJob) (policy : ResolvedDeliveryPolicy) where
  backup_for-enabled :
      (f : Failure) (s : Option Sender) (a : Option String) (b : Sender × String)
      → backup_for policy f s a ≡ some b
      → policy.failover_enabled ≡ true
  backup_for-enabled f none a b h = cc h
  backup_for-enabled f (some s) none b h = cc h
  backup_for-enabled f (some s) (some a) b h = ground arith

  Answer-cases : (a : Answer) → ((id : String) × (a ≡ taken id)) ⊎ ((f : Failure) × (a ≡ refused f))
  Answer-cases (taken id) = inl (id, refl)
  Answer-cases (refused f) = inr (f, refl)

  -- One message, and the report of it.
  one-IsBounded :
      (w : World S) (q : Send) (m : Delivery)
      → q.attempt_id ≡ job.attempt_id
      → m.failover_used ≡ false
      → IsBounded job policy w (record w { sends = w.sends ++ q ∷ [] }, go m)
  one-IsBounded w q m mine primary = (m, q ∷ [], refl, refl, refl, once q m mine primary)

  two-IsBounded :
      (w : World S) (q r : Send) (m : Delivery)
      → q.attempt_id ≡ job.attempt_id
      → r.attempt_id ≡ job.attempt_id
      → policy.failover_enabled ≡ true
      → IsBounded job policy w (record w { sends = (w.sends ++ q ∷ []) ++ r ∷ [] }, go m)
  two-IsBounded w q r m mine mine_too enabled = (
    m,
    q ∷ (r ∷ []),
    refl,
    refl,
    append_assoc w.sends (q ∷ []) (r ∷ []),
    twice q r m mine mine_too enabled,
  )

  webhook_send-IsBounded :
      (url body : String) (n : Notification) (w : World S)
      → IsBounded job policy w (webhook_send v job url body n policy w)
  unfolding webhook_send webhook_failover
  webhook_send-IsBounded url body n w =
      let q = webhook_request v job webhook_primary url body n in
      elim (Answer-cases (v.webhook_sender w.sends q)) [
        | inl (id, e) ↦
            rw e (one-IsBounded w q (delivered (nonempty id) webhook_primary false) refl refl)
        | inr (f, e) ↦
            elim (Option-cases
              (backup_for policy f v.webhook_backup (present n.secondary_webhook_url))) [
                | inl b ↦ rw (e, b) (one-IsBounded w q (undelivered webhook_primary f) refl refl)
                | inr (backup, b) ↦
                    rw (e, b)
                      (two-IsBounded w q (webhook_request v job webhook_secondary backup.1 body n) _
                        refl refl (backup_for-enabled f _ _ backup b))
              ]
      ]

  email_send-IsBounded :
      (to subject body : String) (n : Notification) (w : World S)
      → IsBounded job policy w (email_send v job to subject body n policy w)
  unfolding email_send email_failover
  email_send-IsBounded to subject body n w =
      let q = email_request v job smtp_primary to subject body n in
      elim (Answer-cases (v.email_sender w.sends q)) [
        | inl (id, e) ↦ rw e (one-IsBounded w q (delivered none smtp_primary false) refl refl)
        | inr (f, e) ↦ elim (Option-cases (backup_for policy f v.email_backup (some to))) [
          | inl b ↦ rw (e, b) (one-IsBounded w q (undelivered smtp_primary f) refl refl)
          | inr (backup, b) ↦
              rw (e, b)
                (two-IsBounded w q (email_request v job smtp_secondary backup.1 subject body n) _
                  refl refl (backup_for-enabled f _ _ backup b))
        ]
      ]

  -- A message that cannot be prepared is not sent.
  unprepared-IsBounded : (w : World S) (t : String) → IsBounded job policy w (w, go (unprepared t))
  unprepared-IsBounded w t = (unprepared t, [], refl, refl, sym (append-nil w.sends), nothing t)

  -- The webhook sender always hands a report to the caller and leaves the store as it was. It
  -- sends no message and reports a terminal error; or one message of the job's attempt, without
  -- failover in the report; or two of them, which it does only under a policy that enables
  -- failover.
  pub send_webhook-IsBounded :
      (n : Notification) (t : Template) (w : World S)
      → IsBounded job policy w (send_webhook v job n t policy w)
  unfolding send_webhook
  send_webhook-IsBounded n t w = elim (Option-cases (present n.recipient_webhook_url)) [
    | inl e ↦ rw (send_webhook, e) (unprepared-IsBounded w "recipient_webhook_url is required")
    | inr (url, e) ↦ elim (Option-cases (v.render_template t.body n.variables)) [
      | inl r ↦ rw (send_webhook, e, r) (unprepared-IsBounded w "render template body")
      | inr (body, r) ↦ rw (send_webhook, e, r) (webhook_send-IsBounded url body n w)
    ]
  ]

  -- The e-mail sender always hands a report to the caller and leaves the store as it was. It sends
  -- no message and reports a terminal error; or one message of the job's attempt, without failover
  -- in the report; or two of them, which it does only under a policy that enables failover.
  pub send_email-IsBounded :
      (n : Notification) (t : Template) (w : World S)
      → IsBounded job policy w (send_email v job n t policy w)
  unfolding send_email
  send_email-IsBounded n t w = elim (Option-cases (present n.recipient_email)) [
    | inl e ↦ rw (send_email, e) (unprepared-IsBounded w "recipient_email is required")
    | inr (to, e) ↦ elim (Option-cases (v.render_template t.body n.variables)) [
      | inl r ↦ rw (send_email, e, r) (unprepared-IsBounded w "render template body")
      | inr (body, r) ↦
          rw (send_email, e, r) (email_send-IsBounded to (subject_of v job n t) body n w)
    ]
  ]

-- What such messages amount to.
pub Sending-few :
    (job : DispatchJob) (policy : ResolvedDeliveryPolicy) (ms : List Send) (m : Delivery)
    → Sending job policy ms m
    → (length ms ≤ 2)
      × All (λ q. q.attempt_id ≡ job.attempt_id) ms
      × ((is_some m.error ≡ true) ⊎ (1 ≤ length ms))
Sending-few job policy _ _ (nothing t) = (omega arith, tt, inl refl)
Sending-few job policy _ _ (once q m mine primary) = (omega arith, (mine, tt), inr (omega arith))
Sending-few job policy _ _ (twice q r m mine mine_too enabled) =
    (omega arith, (mine, (mine_too, tt)), inr (omega arith))
