-- ===== src/Worker/Counts.antt =====
-- What one call of `process` counts.
use notification_system.Base.{
  ℕ, ◌<◌, String, Bool, true, false, Option, none, some, List, ◌∷◌, ◌≡◌, refl, ◌∙◌,
}
use notification_system.Failure.{Failure, Result, ok, err, wrap}
use notification_system.Effect.{Outcome, returns, panics, continue}
use notification_system.Domain.{Notification, DeliveryLog, Status, Time}
use notification_system.Runtime.{
  Metric, notifications_sent_total, notifications_failed_total, notifications_skipped_total,
}
use notification_system.Retry.Keeps.{retry_do-keeps}
use notification_system.Worker.{
  Worker, deliver, conclude, after_insert, attempt_delivery, after_check, process,
}

-- `counted` shows the counters that were incremented, the last one first; nothing else touches it.
pub record CountLaws {W : Type 0} (w : Worker W) (counted : W → List Metric) : Type 0 where
  pub inc_adds : (m : Metric) (x : W) → counted (w.runtime.inc m x) ≡ m ∷ counted x
  pub new_string_keeps : (x : W) → counted (w.runtime.new_string x).1 ≡ counted x
  pub now_keeps : (x : W) → counted (w.runtime.now x).1 ≡ counted x
  pub observe_keeps :
      (m : Metric) (t : Time) (x : W) → counted (w.runtime.observe m t x) ≡ counted x
  pub insert_keeps : (log : DeliveryLog) (x : W) → counted (w.log_repo.insert log x).1 ≡ counted x
  pub update_keeps :
      (id : String) (status : Status) (message : String) (x : W)
      → counted (w.log_repo.update_delivery_status id status message x).1 ≡ counted x
  pub exists_keeps : (id : String) (x : W) → counted (w.log_repo.exists_sent id x).1 ≡ counted x
  pub wait_keeps : (d : ℕ) (x : W) → counted (w.context.wait d x).1 ≡ counted x
  pub send_keeps : (n : Notification) (x : W) → counted (w.sender.send n x).1 ≡ counted x
  pub tries : 0 < w.retry_cfg.max_attempts

module _ {W : Type 0} (w : Worker W) (counted : W → List Metric) where
  -- From the counters `l`: the answer, and what was counted beside them.
  pub data Counts (l : List Metric) (q : Outcome (Option Failure) × W) : Type 0 where
    skipped :
        q.0 ≡ returns none
        → counted q.1 ≡ notifications_skipped_total w.sender.channel "duplicate" ∷ l
        → Counts l q
    sent :
        q.0 ≡ returns none
        → counted q.1 ≡ notifications_sent_total w.sender.channel ∷ l
        → Counts l q
    failed :
        (e : Failure)
        → q.0 ≡ returns (some (wrap "send failed after retries" e))
        → counted q.1 ≡ notifications_failed_total w.sender.channel ∷ l
        → Counts l q
    unchecked :
        (e : Failure)
        → q.0 ≡ returns (some (wrap "idempotency check" e))
        → counted q.1 ≡ l
        → Counts l q
    unlogged :
        (e : Failure)
        → q.0 ≡ returns (some (wrap "persist delivery log" e))
        → counted q.1 ≡ l
        → Counts l q
    crashed : q.0 ≡ panics → counted q.1 ≡ l → Counts l q

  module _ (laws : CountLaws w counted) (l : List Metric) where
    conclude-Counts :
        (id : String) (start : Time) (e : Option Failure) (x : W)
        → counted x ≡ l
        → Counts l (conclude w id start e x)
    unfolding conclude
    conclude-Counts id start (some e) x k =
        failed e refl (rw (laws.inc_adds, laws.update_keeps, k) refl)
    conclude-Counts id start none x k =
        sent refl
          (rw (laws.observe_keeps, laws.now_keeps, laws.inc_adds, laws.update_keeps, k) refl)

    concluded-Counts :
        (id : String) (start : Time) (q : Outcome (Option Failure) × W)
        → counted q.1 ≡ l
        → Counts l (continue (conclude w id start) q)
    concluded-Counts id start (returns e, x) k = conclude-Counts id start e x k
    concluded-Counts id start (panics, x) k = crashed refl k

    after_insert-Counts :
        (start : Time) (n : Notification) (id : String) (e : Option Failure) (x : W)
        → counted x ≡ l
        → Counts l (after_insert w start n id e x)
    unfolding after_insert deliver
    after_insert-Counts start n id (some e) x k = unlogged e refl k
    after_insert-Counts start n id none x k = concluded-Counts id start (deliver w n x) (
        retry_do-keeps w.context w.retry_cfg (λ y. counted y ≡ l) (λ d y h. laws.wait_keeps d y ∙ h)
          (λ attempt. w.sender.send n) (λ attempt y h. laws.send_keeps n y ∙ h) laws.tries x k)

    after_check-Counts :
        (start : Time) (n : Notification) (r : Result Bool) (x : W)
        → counted x ≡ l
        → Counts l (after_check w start n r x)
    unfolding after_check attempt_delivery
    after_check-Counts start n (err e) x k = unchecked e refl k
    after_check-Counts start n (ok true) x k = skipped refl (rw (laws.inc_adds, k) refl)
    after_check-Counts start n (ok false) x k =
        after_insert-Counts start n _ _ _
          (laws.insert_keeps _ _ ∙ (laws.now_keeps _ ∙ (laws.new_string_keeps x ∙ k)))

  -- `process` increments at most one counter, under the channel of the sender and fitting its answer:
  -- with nil the one of the sent or of the skipped notifications, with the error after the retries
  -- the one of the failed ones. Where the check or the insert of the log fails, or the process
  -- panics, it increments none.
  pub process-Counts :
      CountLaws w counted → (n : Notification) (x : W) → Counts (counted x) (process w n x)
  unfolding process
  process-Counts laws n x =
      after_check-Counts laws (counted x) _ n _ _ (laws.exists_keeps _ _ ∙ laws.now_keeps x)
