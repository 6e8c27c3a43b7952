-- ===== src/Worker/Crash.antt =====
-- A device token that is shorter than what the log line of the iOS sender cuts off.
use Prim.Native.String.{len}
use notification_system.Base.{
  ◌<◌, String, Bool, true, false, Option, none, some, ◌≡◌, refl, arith, ◌==◌, eq_refl, ◌⊎◌, inl,
  inr, ◌∙◌,
}
use notification_system.Failure.{Failure, Result, ok, err, wrap}
use notification_system.Effect.{Outcome, returns, panics}
use notification_system.Domain.{Notification, Time}
use notification_system.Runtime.{Runtime}
use notification_system.Retry.{Context, retry_do}
use notification_system.Sender.{apns_send, apns_sender}
use notification_system.Domain.Repository.{DeliveryLogRepository}
use notification_system.Store.Tables.{Tables, has_sent}
use notification_system.Worker.{
  Worker, new_worker, delivery_log, deliver, after_insert, attempt_delivery, after_check, process,
}
use notification_system.Worker.Laws.{WorkerLaws}
use notification_system.Worker.Order.{has_pending, has_pending-append}
use notification_system.Worker.Effects.{
  Effect, skipped, unchecked, unlogged, crashed, delivered, failed,
}
use notification_system.Worker.Logs.{process-Effect}

pending_after :
    {W : Type 0} (w : Worker W) (n : Notification) {t t' : Tables} {r : Outcome (Option Failure)}
    → Effect w n t r t'
    → r ≡ panics
    → has_pending n.id t'.delivery_logs ≡ true
pending_after w n (skipped h q k) e = absurd (cc)
pending_after w n (unchecked f q k) e = absurd (cc)
pending_after w n (unlogged f id at h q k) e = absurd (cc)
pending_after w n (crashed id at h f q k) e = rw k (has_pending-append n.id _ _ (eq_refl n.id) refl)
pending_after w n (delivered s id at h f q k) e = absurd (cc)
pending_after w n (failed f id at h q r k) e = absurd (cc)

module _ {W : Type 0} (runtime : Runtime W) (repo : DeliveryLogRepository W) (ctx : Context W) where
  abbrev pub ios_worker : Worker W
  ios_worker = new_worker runtime repo ctx apns_sender

  module _ (n : Notification) (present : (n.recipient_token == "") ≡ false)
      (short : len n.recipient_token < 8) where
    sends : (x : W) → apns_send n x ≡ (panics, x)
    unfolding apns_send
    sends x = ground arith

    deliver-panics : (x : W) → deliver ios_worker n x ≡ (panics, x)
    unfolding deliver retry_do
    deliver-panics x = rw (sends x) refl

    inserted-panics :
        (start : Time) (id : String) (x : W)
        → (after_insert ios_worker start n id none x) ≡ (panics, x)
    unfolding after_insert
    inserted-panics start id x = rw (deliver-panics x) refl

    -- The check or the insert failed, or the process panicked.
    abbrev Crashes : Outcome (Option Failure) → Type 0
    Crashes r =
        (r ≡ panics)
        ⊎ (((e : Failure) × (r ≡ returns (some (wrap "idempotency check" e))))
            ⊎ ((e : Failure) × (r ≡ returns (some (wrap "persist delivery log" e)))))

    inserted :
        (start : Time) (id : String) (e : Option Failure) (x : W)
        → Crashes (after_insert ios_worker start n id e x).0
    inserted start id none x = rw (inserted-panics start id x) (inl refl)
    inserted start id (some e) x = unfold after_insert in inr (inr (e, refl))

    attempted : (start : Time) (x : W) → Crashes (attempt_delivery ios_worker start n x).0
    unfolding attempt_delivery
    attempted start x =
        let (id, x1) = runtime.new_string x in
        let (at, x2) = runtime.now x1 in
        let (reply, x3) = repo.insert (delivery_log ios_worker id n at) x2 in
        inserted start id reply x3

    checked :
        (start : Time) (x : W) (reply : Result Bool)
        → ((b : Bool) → reply ≡ ok b → b ≡ false)
        → Crashes (after_check ios_worker start n reply x).0
    unfolding after_check
    checked start x (err e) h = inr (inl (_, refl))
    checked start x (ok true) h = absurd (let no = h true refl in cc)
    checked start x (ok false) h = attempted start x

    module _ (tables : W → Tables) (laws : WorkerLaws ios_worker tables) (x : W)
        (unsent : has_sent n.id (tables x).delivery_logs ≡ false) where
      crashes : Crashes (process ios_worker n x).0
      unfolding process
      crashes =
          let (start, x1) = runtime.now x in
          let (reply, x2) = repo.exists_sent n.id x1 in
          let kept : tables x1 ≡ tables x = laws.runtime.now_keeps x in
          checked start x2 reply (λ b e. laws.log_repo.exists_ok n.id x1 b e ∙ rw kept unsent)

      -- The worker for iOS with a notification that has no sent log and a device token of one to
      -- seven bytes, where no other process writes to the tables: unless the check or the insert of
      -- the log fails, `process` panics, and a log of the notification is left pending.
      pub process_short_token :
          let (r, y) = process ios_worker n x in
          ((r ≡ panics) × (has_pending n.id (tables y).delivery_logs ≡ true))
          ⊎ (((e : Failure) × (r ≡ returns (some (wrap "idempotency check" e))))
              ⊎ ((e : Failure) × (r ≡ returns (some (wrap "persist delivery log" e)))))
      process_short_token = elim (crashes) [
        | inl e ↦ inl (e, pending_after ios_worker n (process-Effect ios_worker tables laws n x) e)
        | inr (inl f) ↦ inr (inl f)
        | inr (inr f) ↦ inr (inr f)
      ]
