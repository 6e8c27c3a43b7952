-- ===== src/Worker/Interleaving.antt =====
-- Several deliveries at once: the steps of `process` between two calls of the store, and what other
-- deliveries may do to the logs between two steps of one.
pub mod Rows
pub mod Owned
pub mod Apart
pub mod Alone
pub mod Kept
pub mod Sole
pub mod Sents
use notification_system.Base.{
  String, Bool, true, false, Option, none, some, List, [], ◌∷◌, ◌++◌, map, ◌≡◌, ◌==◌, ◌-◌, refl,
}
use notification_system.Failure.{Failure, Result, ok, err, wrap, text}
use notification_system.Effect.{Outcome, returns, panics}
use notification_system.Domain.{Notification, DeliveryLog, Time, Status, status_sent, status_failed}
use notification_system.Store.{exists_sent, insert}
use notification_system.Store.Tables.{Tables, set_delivery}
use notification_system.Runtime.{
  notifications_sent_total, notifications_failed_total, notifications_skipped_total,
  delivery_duration,
}
use notification_system.Worker.{Worker, delivery_log, deliver, conclude}

-- Where a delivery stands; the text is the identifier of the log that it has inserted.
pub data Stage : Type 0 where
  arrived : Stage
  unsent : Stage
  logged : String → Stage
  tried : String → Option Failure → Stage
  ended : Option String → Outcome (Option Failure) → Stage

abbrev pub owned : Stage → Option String
owned arrived = none
owned unsent = none
owned (logged id) = some id
owned (tried id e) = some id
owned (ended log r) = log

-- One step of the delivery of `n`, which started at `start`. The retries are one step: they do not
-- touch the tables.
pub data Step {W : Type 0} (w : Worker W) (n : Notification) (start : Time) (x y : W)
    : Stage → Stage → Type 0 where
  check : w.log_repo.exists_sent n.id x ≡ (ok false, y) → Step w n start x y arrived unsent
  refuse :
      (e : Failure)
      → w.log_repo.exists_sent n.id x ≡ (err e, y)
      → Step w n start x y arrived (ended none (returns (some (wrap "idempotency check" e))))
  skip :
      {z : W}
      → w.log_repo.exists_sent n.id x ≡ (ok true, z)
      → w.runtime.inc (notifications_skipped_total w.sender.channel "duplicate") z ≡ y
      → Step w n start x y arrived (ended none (returns none))
  log :
      (id : String) (at : Time) (x1 x2 : W)
      → w.runtime.new_string x ≡ (id, x1)
      → w.runtime.now x1 ≡ (at, x2)
      → w.log_repo.insert (delivery_log w id n at) x2 ≡ (none, y)
      → Step w n start x y unsent (logged id)
  lose :
      (id : String) (at : Time) (x1 x2 : W) (e : Failure)
      → w.runtime.new_string x ≡ (id, x1)
      → w.runtime.now x1 ≡ (at, x2)
      → w.log_repo.insert (delivery_log w id n at) x2 ≡ (some e, y)
      → Step w n start x y unsent (ended none (returns (some (wrap "persist delivery log" e))))
  try :
      {id : String} (e : Option Failure)
      → deliver w n x ≡ (returns e, y)
      → Step w n start x y (logged id) (tried id e)
  crash :
      {id : String}
      → deliver w n x ≡ (panics, y)
      → Step w n start x y (logged id) (ended (some id) panics)
  fail :
      {id : String} {e : Failure} {z : W} (reply : Option Failure)
      → w.log_repo.update_delivery_status id status_failed (text e) x ≡ (reply, z)
      → w.runtime.inc (notifications_failed_total w.sender.channel) z ≡ y
      → Step w n start x y
          (tried id (some e))
          (ended (some id) (returns (some (wrap "send failed after retries" e))))
  succeed :
      {id : String} {z v : W} (reply : Option Failure) (done : Time)
      → w.log_repo.update_delivery_status id status_sent "" x ≡ (reply, z)
      → w.runtime.now (w.runtime.inc (notifications_sent_total w.sender.channel) z) ≡ (done, v)
      → w.runtime.observe (delivery_duration w.sender.channel) (done - start) v ≡ y
      → Step w n start x y (tried id none) (ended (some id) (returns none))

-- The last step is the end of `process`.
module _ {W : Type 0} (w : Worker W) (start : Time) (id : String) where
  pub conclude-failed :
      (e : Failure) (x y z : W) (reply : Option Failure)
      → w.log_repo.update_delivery_status id status_failed (text e) x ≡ (reply, z)
      → w.runtime.inc (notifications_failed_total w.sender.channel) z ≡ y
      → conclude w id start (some e) x ≡ (returns (some (wrap "send failed after retries" e)), y)
  unfolding conclude
  conclude-failed e x y z reply a b = rw (a, b) refl

  pub conclude-sent :
      (x y z v : W) (reply : Option Failure) (done : Time)
      → w.log_repo.update_delivery_status id status_sent "" x ≡ (reply, z)
      → w.runtime.now (w.runtime.inc (notifications_sent_total w.sender.channel) z) ≡ (done, v)
      → w.runtime.observe (delivery_duration w.sender.channel) (done - start) v ≡ y
      → conclude w id start none x ≡ (returns none, y)
  unfolding conclude
  conclude-sent x y z v reply done a b c = rw (a, b, c) refl

-- A change of the logs by somebody else than the owner of the log `id`: a new log, or a change of
-- another one.
pub data Other (id : String) (t t' : Tables) : Type 0 where
  same : t'.delivery_logs ≡ t.delivery_logs → Other id t t'
  added :
      (l : DeliveryLog)
      → (l.id == id) ≡ false
      → t'.delivery_logs ≡ t.delivery_logs ++ l ∷ []
      → Other id t t'
  changed :
      (j : String) (status : Status) (message : String)
      → (j == id) ≡ false
      → t'.delivery_logs ≡ map (set_delivery status message j) t.delivery_logs
      → Other id t t'

-- Between two steps anything may happen to logs that the delivery does not own.
abbrev pub Undisturbed : Stage → Tables → Tables → Type 0
Undisturbed s t t' = (id : String) → owned s ≡ some id → Other id t t'
