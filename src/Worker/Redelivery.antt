-- ===== src/Worker/Redelivery.antt =====
-- A message that comes again, and a message for another channel.
use mathlib.Core.Path.{fun_ext}
use notification_system.Base.{
  String, Bool, true, false, Option, none, some, ◌≡◌, refl, ap, ◌∙◌, ◌⊎◌, inl, inr, eq_refl, arith,
}
use notification_system.Failure.{Failure, Result, ok, err}
use notification_system.Effect.{Outcome, returns, call, continue, ◌>>=◌}
use notification_system.Domain.{Notification, Channel, Time, status_sent}
use notification_system.Runtime.{notifications_skipped_total}
use notification_system.Retry.{retry_do}
use notification_system.Store.Tables.{Tables, has_sent}
use notification_system.Worker.{
  Worker, delivery_log, deliver, conclude, after_insert, attempt_delivery, after_check, process,
}
use notification_system.Worker.Laws.{WorkerLaws}
use notification_system.Worker.Order.{has_pending, has_pending-append}
use notification_system.Worker.Effects.{
  Effect, skipped, unchecked, unlogged, crashed, delivered, failed, log_with,
}
use notification_system.Worker.Logs.{process-Effect}
use notification_system.Store.Records.{has_sent-append}

module _ {W : Type 0} (w : Worker W) (tables : W → Tables) (laws : WorkerLaws w tables) where
  -- A duplicate is counted.
  abbrev duplicate : W → W
  duplicate y = w.runtime.inc (notifications_skipped_total w.sender.channel "duplicate") y

  skips :
      (n : Notification) (x y : W) (found : Bool)
      → has_sent n.id (tables x).delivery_logs ≡ true
      → w.log_repo.exists_sent n.id (w.runtime.now x).1 ≡ (ok found, y)
      → process w n x ≡ (returns none, duplicate y)
  unfolding process after_check
  skips n x y found sent e =
      let kept : tables (w.runtime.now x).1 ≡ tables x = laws.runtime.now_keeps x in
      let right = laws.log_repo.exists_ok n.id (w.runtime.now x).1 found (ap (λ p. p.0) e) in
      let yes : found ≡ true = right ∙ rw kept sent in rw (e, yes) refl

  answered_nil :
      (n : Notification) {t t' : Tables} {r : Outcome (Option Failure)}
      → Effect w n t r t'
      → r ≡ returns none
      → (has_sent n.id t'.delivery_logs ≡ true) ⊎ (has_pending n.id t'.delivery_logs ≡ true)
  answered_nil n (skipped h q k) e = inl (rw k h)
  answered_nil n (unchecked f q k) e = absurd (cc)
  answered_nil n (unlogged f id at h q k) e = absurd (cc)
  answered_nil n (crashed id at h f q k) e = absurd (cc)
  answered_nil n (delivered s id at h f q (inl k)) e =
      inr (rw k (has_pending-append n.id _ _ (eq_refl n.id) refl))
  answered_nil n {t = t} (delivered s id at h f q (inr k)) e = inl (
      ground (
        arith,
        has_sent-append n.id t.delivery_logs (log_with w id n at status_sent ""),
        eq_refl n.id,
      ))
  answered_nil n (failed f id at h q r k) e = absurd (cc)

  -- Where no other process writes to the tables: a notification for which `process` answered nil is
  -- not sent again when it comes once more and the check is answered. The second run only counts a
  -- duplicate, unless the update of a log did not go through and a log still reads pending.
  pub process_redelivered :
      (n : Notification) (x y z : W) (found : Bool)
      → process w n x ≡ (returns none, y)
      → w.log_repo.exists_sent n.id (w.runtime.now y).1 ≡ (ok found, z)
      → (process w n y ≡ (returns none, duplicate z))
        ⊎ (has_pending n.id (tables y).delivery_logs ≡ true)
  process_redelivered n x y z found first again =
      let effect = process-Effect w tables laws n x in
      elim (answered_nil n (rw first at effect) refl) [
        | inl sent ↦ inl (skips n y z found sent again)
        | inr pending ↦ inr pending
      ]

module _ {W : Type 0} (w : Worker W) (n : Notification) (channel : Channel) where
  abbrev moved : Notification
  moved = record n { channel = channel }

  module _ (same : w.sender.send moved ≡ w.sender.send n) where
    after_insert-moved :
        (start : Time) (id : String) (e : Option Failure)
        → after_insert w start moved id e ≡ after_insert w start n id e
    unfolding after_insert deliver
    after_insert-moved start id (some e) = refl
    after_insert-moved start id none =
        ap (λ s. retry_do w.context w.retry_cfg (λ _. s) >>= conclude w id start) same

    attempt_delivery-moved :
        (start : Time) (x : W) → attempt_delivery w start moved x ≡ attempt_delivery w start n x
    unfolding attempt_delivery
    attempt_delivery-moved start x =
        let (id, x1) = w.runtime.new_string x in
        let (at, x2) = w.runtime.now x1 in
        let (reply, x3) = w.log_repo.insert (delivery_log w id n at) x2 in
        ap (λ f. continue f (returns reply, x3)) (fun_ext (after_insert-moved start id))

    after_check-moved :
        (start : Time) (r : Result Bool) → after_check w start moved r ≡ after_check w start n r
    unfolding after_check
    after_check-moved start (err e) = refl
    after_check-moved start (ok true) = refl
    after_check-moved start (ok false) = fun_ext (attempt_delivery-moved start)

    -- `process` never looks at the channel of the notification: where the sender does the same for
    -- the notification and for the one with another channel, so does the whole run.
    pub process-ignores_channel : (x : W) → process w moved x ≡ process w n x
    unfolding process
    process-ignores_channel x =
        let (start, y) = w.runtime.now x in
        ap (λ f. continue f (call (w.log_repo.exists_sent n.id) y))
          (fun_ext (after_check-moved start))
