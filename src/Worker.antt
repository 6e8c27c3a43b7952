-- ===== src/Worker.antt =====
-- internal/worker/worker.go: one notification from the queue to the provider.
pub mod Laws
pub mod Order
pub mod Effects
pub mod Logs
pub mod Redelivery
pub mod Running
pub mod Ending
pub mod Keeps
pub mod Draining
pub mod Counts
pub mod Settled
pub mod Growth
pub mod Crash
pub mod Interleaving
use notification_system.Base.{
  ℕ, zero, suc, ◌-◌, ◌||◌, String, Bool, true, false, Option, none, some, ltb, if◌then◌else◌,
}
use notification_system.Failure.{
  Failure, Sentinel, canceled, deadline_exceeded, wrap, is, text, Result, ok, err,
}
use notification_system.Effect.{Exec, pure, call, ◌>>=◌, ◌>>◌}
use notification_system.Domain.{
  Notification, DeliveryLog, Channel, Time, status_pending, status_sent, status_failed,
}
use notification_system.Runtime.{
  Runtime, tick, notifications_sent_total, notifications_failed_total, notifications_skipped_total,
  delivery_duration,
}
use notification_system.Retry
use notification_system.Retry.{Context, retry_do, default_config}
use notification_system.Sender.{Sender}
use notification_system.Domain.Repository.{DeliveryLogRepository}
use notification_system.Kafka.{Consumer, read_one}

-- The fields of a `Worker` besides its consumer and its logger, and the context of its run.
pub record Worker (W : Type 0) : Type 0 where
  pub runtime : Runtime W
  pub log_repo : DeliveryLogRepository W
  pub context : Context W
  pub sender : Sender W
  pub retry_cfg : Retry.Config

-- `New` takes the default retry configuration.
abbrev pub new_worker :
    {W : Type 0} → Runtime W → DeliveryLogRepository W → Context W → Sender W → Worker W
new_worker runtime log_repo context sender = record {
  runtime = runtime;
  log_repo = log_repo;
  context = context;
  sender = sender;
  retry_cfg = default_config;
}

module _ {W : Type 0} (w : Worker W) where
  abbrev pub delivery_log : String → Notification → Time → DeliveryLog
  delivery_log id n at = record {
    id = id;
    notification_id = n.id;
    channel = w.sender.channel;
    attempt = 1;
    status = status_pending;
    error_message = "";
    attempted_at = at;
  }

  -- Step 3: the send with its retries. Each attempt passes the same notification.
  unfoldable pub deliver : Notification → Exec W (Option Failure)
  deliver n = retry_do w.context w.retry_cfg (λ attempt. w.sender.send n)

  -- Step 4. An update that fails is only logged.
  unfoldable pub conclude : String → Time → Option Failure → Exec W (Option Failure)
  conclude id start (some e) = do
    call (w.log_repo.update_delivery_status id status_failed (text e))
    tick (w.runtime.inc (notifications_failed_total w.sender.channel))
    pure (some (wrap "send failed after retries" e))
  conclude id start none = do
    call (w.log_repo.update_delivery_status id status_sent "")
    tick (w.runtime.inc (notifications_sent_total w.sender.channel))
    done ← call w.runtime.now
    tick (w.runtime.observe (delivery_duration w.sender.channel) (done - start))
    pure none

  unfoldable pub after_insert :
      Time → Notification → String → Option Failure → Exec W (Option Failure)
  after_insert start n id (some e) = pure (some (wrap "persist delivery log" e))
  after_insert start n id none = deliver n >>= conclude id start

  -- Step 2 and what follows it.
  unfoldable pub attempt_delivery : Time → Notification → Exec W (Option Failure)
  attempt_delivery start n = do
    id ← call w.runtime.new_string
    at ← call w.runtime.now
    persisted ← call (w.log_repo.insert (delivery_log id n at))
    after_insert start n id persisted

  -- Step 1: what the idempotency check answers.
  unfoldable pub after_check : Time → Notification → Result Bool → Exec W (Option Failure)
  after_check start n (err e) = pure (some (wrap "idempotency check" e))
  after_check start n (ok true) = do
    tick (w.runtime.inc (notifications_skipped_total w.sender.channel "duplicate"))
    pure none
  after_check start n (ok false) = attempt_delivery start n

  unfoldable pub process : Notification → Exec W (Option Failure)
  process n = do
    start ← call w.runtime.now
    already ← call (w.log_repo.exists_sent n.id)
    after_check start n already

  -- Which errors of a read end the loop.
  unfoldable pub ends : Failure → Bool
  ends e = is e canceled || is e deadline_exceeded

  -- The loop of `Run` for so many rounds: true where it has returned, false where it goes on.
  -- An error of `process` is only logged; a panic ends the process.
  pub run : ℕ → Consumer W → Exec W Bool
  run zero c = pure false
  run (suc rounds) c = read_one c >>= elim [
    | ok n ↦ process n >>= λ _. run rounds c
    | err e ↦ let rest = run rounds c in if ends e then pure true else rest
  ]
