-- ===== src/Worker/Settled.antt =====
-- What one call of `process` does where the store answers every statement and query.
use notification_system.Base.{arith, String, Bool, false, Option, none, some, ◌≡◌, refl, ap, ◌∙◌}
use notification_system.Failure.{Failure, ok, wrap, text}
use notification_system.Effect.{Outcome, returns, panics, continue}
use notification_system.Domain.{Notification, DeliveryLog, Time, Status, status_sent, status_failed}
use notification_system.Retry.Runs.{first, success, retry_do_iff}
use notification_system.Store.Tables.{
  Tables, NotificationRow, apply, Admissible, insert_delivery_log, find_notification, find_log,
  has_sent,
}
use notification_system.Store.Records.{set_delivery-last}
use notification_system.Worker.{
  Worker, delivery_log, deliver, conclude, after_insert, attempt_delivery, after_check, process,
}
use notification_system.Worker.Effects.{append_log, log_with}
use notification_system.Worker.Laws.{WorkerLaws}
use notification_system.Worker.Logs.{deliver-keeps}

-- No query fails, no update fails, and an insert fails only where the keys of the schema forbid it.
pub record Answering {W : Type 0} (w : Worker W) (tables : W → Tables) : Type 0 where
  pub checks : (id : String) (x : W) → (b : Bool) × ((w.log_repo.exists_sent id x).0 ≡ ok b)
  pub inserts :
      (log : DeliveryLog) (x : W)
      → Admissible (insert_delivery_log log) (tables x)
      → (w.log_repo.insert log x).0 ≡ none
  pub updates :
      (id : String) (status : Status) (message : String) (x : W)
      → (w.log_repo.update_delivery_status id status message x).0 ≡ none

-- The answer of `process` after a delivery, and the log that it leaves.
abbrev pub answer_of : Outcome (Option Failure) → Outcome (Option Failure)
answer_of (returns none) = returns none
answer_of (returns (some e)) = returns (some (wrap "send failed after retries" e))
answer_of panics = panics

abbrev pub settled_log :
    {W : Type 0} → Worker W → String → Notification → Time → Outcome (Option Failure) → DeliveryLog
settled_log w id n at (returns none) = log_with w id n at status_sent ""
settled_log w id n at (returns (some e)) = log_with w id n at status_failed (text e)
settled_log w id n at panics = delivery_log w id n at

module _ {W : Type 0} (w : Worker W) (n : Notification) where
  -- The worlds that `process` passes before it sends, the identifier of the log and its time.
  abbrev pub checked : W → W
  checked x = (w.log_repo.exists_sent n.id (w.runtime.now x).1).1

  abbrev pub log_id : W → String
  log_id x = (w.runtime.new_string (checked x)).0

  abbrev pub log_time : W → Time
  log_time x = (w.runtime.now (w.runtime.new_string (checked x)).1).0

  abbrev pub ready : W → W
  ready x = (w.runtime.now (w.runtime.new_string (checked x)).1).1

  abbrev pub logged : W → W
  logged x = (w.log_repo.insert (delivery_log w (log_id x) n (log_time x)) (ready x)).1

module _ {W : Type 0} (w : Worker W) (tables : W → Tables) (laws : WorkerLaws w tables)
    (answering : Answering w tables) (n : Notification) where
  -- In the tables `t` with the pending log of `id` at the end.
  module _ (t : Tables) (id : String) (at start : Time)
      (fresh : find_log id t.delivery_logs ≡ none) where
    recorded :
        (status : Status) (message : String) (y : W)
        → tables y ≡ append_log t (delivery_log w id n at)
        → tables (w.log_repo.update_delivery_status id status message y).1
          ≡ append_log t (log_with w id n at status message)
    unfolding apply
    recorded status message y h =
        let done =
          ((laws.log_repo.update id status message y).nil
            (answering.updates id status message y)).1 in
        done
        ∙ rw h (
            ap (λ logs. record t { delivery_logs = logs })
              (set_delivery-last status message t.delivery_logs (delivery_log w id n at) fresh))

    pub concluded_as :
        (p : Outcome (Option Failure) × W)
        → tables p.1 ≡ append_log t (delivery_log w id n at)
        → let (r, y) = continue (conclude w id start) p in
          (r ≡ answer_of p.0) × (tables y ≡ append_log t (settled_log w id n at p.0))
    unfolding conclude
    concluded_as (returns none, y) h = (
      refl,
      rw (laws.runtime.observe_keeps, laws.runtime.now_keeps, laws.runtime.inc_keeps)
          (recorded status_sent "" y h),
    )
    concluded_as (returns (some e), y) h =
        (refl, rw laws.runtime.inc_keeps (recorded status_failed (text e) y h))
    concluded_as (panics, y) h = (refl, h)

  checked-keeps : (x : W) → tables (checked w n x) ≡ tables x
  checked-keeps x = laws.log_repo.exists_keeps n.id _ ∙ laws.runtime.now_keeps x

  ready-keeps : (x : W) → tables (ready w n x) ≡ tables x
  ready-keeps x = laws.runtime.now_keeps _ ∙ laws.runtime.new_string_keeps _ ∙ checked-keeps x

  reply-eq :
      (x : W)
      → has_sent n.id (tables x).delivery_logs ≡ false
      → (w.log_repo.exists_sent n.id (w.runtime.now x).1).0 ≡ ok false
  reply-eq x unsent =
      let (b, e) = answering.checks n.id (w.runtime.now x).1 in
      let right = laws.log_repo.exists_ok n.id (w.runtime.now x).1 b e in
      let no : b ≡ false = right ∙ rw (laws.runtime.now_keeps x) unsent in e ∙ ap ok no

  -- A sender that returns nil is called once.
  pub deliver-nil :
      (x : W) → (w.sender.send n x).0 ≡ returns none → (deliver w n x).0 ≡ returns none
  unfolding deliver
  deliver-nil x h =
      let y = (w.sender.send n x).1 in
      let sent : w.sender.send n x ≡ (returns none, y) = ap (λ o. (o, y)) h in
      let run =
        (retry_do_iff w.context w.retry_cfg (λ _. w.sender.send n) laws.tries x y (returns none)).1
          (success first (omega (arith, laws.tries)) sent refl) in
      ap (λ q. q.0) run

  module _ (x : W) (row : NotificationRow) (unsent : has_sent n.id (tables x).delivery_logs ≡ false)
      (known : find_notification n.id (tables x).notifications ≡ some row)
      (fresh : find_log (log_id w n x) (tables x).delivery_logs ≡ none) where
    insert-nil :
        (w.log_repo.insert (delivery_log w (log_id w n x) n (log_time w n x)) (ready w n x)).0
        ≡ none
    insert-nil =
        answering.inserts _ (ready w n x)
          (rw (ready-keeps x) fresh, (row, rw (ready-keeps x) known))

    insert-appends :
        tables (logged w n x)
        ≡ append_log (tables x) (delivery_log w (log_id w n x) n (log_time w n x))
    unfolding apply
    insert-appends =
        ((laws.log_repo.insert _ (ready w n x)).nil insert-nil).1
        ∙ ap (λ t. append_log t (delivery_log w (log_id w n x) n (log_time w n x))) (ready-keeps x)

    process-runs :
        process w n x
        ≡ continue (conclude w (log_id w n x) (w.runtime.now x).0) (deliver w n (logged w n x))
    unfolding process after_check attempt_delivery after_insert
    process-runs = rw (reply-eq x unsent, insert-nil) refl

    -- Where the store answers every statement and query, no other process writes to the tables, and
    -- the identifier of the log is new: of a notification that is stored and was not sent, `process`
    -- stores one log, which says how the delivery ended. It reads sent where the delivery answered nil,
    -- failed with the text of the error where it answered one, and pending where it panicked, and
    -- `process` answers accordingly.
    pub process-Settles :
        let o = (deliver w n (logged w n x)).0 in
        ((process w n x).0 ≡ answer_of o)
        × (tables (process w n x).1
            ≡ append_log (tables x) (settled_log w (log_id w n x) n (log_time w n x) o))
    process-Settles = rw process-runs (
        concluded_as (tables x) (log_id w n x) (log_time w n x) (w.runtime.now x).0 fresh
          (deliver w n (logged w n x))
          (deliver-keeps w tables laws n (tables x) (log_id w n x) (log_time w n x) (logged w n x)
            fresh insert-appends))
