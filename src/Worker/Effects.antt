-- ===== src/Worker/Effects.antt =====
-- What one call of `process` may do to the tables.
use notification_system.Base.{
  String, true, false, Option, none, some, [], ◌∷◌, ◌++◌, ◌≡◌, refl, ◌⊎◌, arith,
}
use notification_system.Failure.{Failure, wrap, text}
use notification_system.Effect.{Outcome, returns, panics}
use notification_system.Domain.{Notification, DeliveryLog, Time, Status, status_sent, status_failed}
use notification_system.Store.Tables.{Tables, find_log, has_sent}
use notification_system.Worker.{Worker, delivery_log}

abbrev pub append_log : Tables → DeliveryLog → Tables
append_log t l = record t { delivery_logs = t.delivery_logs ++ l ∷ [] }

-- The log of one delivery, in its later states.
abbrev pub log_with :
    {W : Type 0} → Worker W → String → Notification → Time → Status → String → DeliveryLog
log_with w id n at status message = record (delivery_log w id n at) {
  status = status;
  error_message = message;
}

-- The sender returned nil for the notification.
abbrev pub Accepts : {W : Type 0} → Worker W → Notification → Type 0
Accepts {W} w n = (u : W) × (v : W) × (w.sender.send n u ≡ (returns none, v))

-- From the tables `t`, the call answered `r` and left `t'`.
pub data Effect {W : Type 0} (w : Worker W) (n : Notification) (t : Tables)
    (r : Outcome (Option Failure)) (t' : Tables) : Type 0 where
  skipped : has_sent n.id t.delivery_logs ≡ true → r ≡ returns none → t' ≡ t → Effect w n t r t'
  unchecked :
      (e : Failure) → r ≡ returns (some (wrap "idempotency check" e)) → t' ≡ t → Effect w n t r t'
  unlogged :
      (e : Failure) (id : String) (at : Time)
      → has_sent n.id t.delivery_logs ≡ false
      → r ≡ returns (some (wrap "persist delivery log" e))
      → (t' ≡ t) ⊎ (t' ≡ append_log t (delivery_log w id n at))
      → Effect w n t r t'
  crashed :
      (id : String) (at : Time)
      → has_sent n.id t.delivery_logs ≡ false
      → find_log id t.delivery_logs ≡ none
      → r ≡ panics
      → t' ≡ append_log t (delivery_log w id n at)
      → Effect w n t r t'
  delivered :
      Accepts w n
      → (id : String) (at : Time) → has_sent n.id t.delivery_logs ≡ false
      → find_log id t.delivery_logs ≡ none
      → r ≡ returns none
      → (t' ≡ append_log t (delivery_log w id n at))
        ⊎ (t' ≡ append_log t (log_with w id n at status_sent ""))
      → Effect w n t r t'
  failed :
      (e : Failure) (id : String) (at : Time)
      → has_sent n.id t.delivery_logs ≡ false
      → find_log id t.delivery_logs ≡ none
      → r ≡ returns (some (wrap "send failed after retries" e))
      → (t' ≡ append_log t (delivery_log w id n at))
        ⊎ (t' ≡ append_log t (log_with w id n at status_failed (text e)))
      → Effect w n t r t'

-- The rows of the notifications stay.
pub Effect-notifications :
    {W : Type 0} (w : Worker W) (n : Notification) {t t' : Tables} {r : Outcome (Option Failure)}
    → Effect w n t r t'
    → t'.notifications ≡ t.notifications
Effect-notifications w n (skipped h r k) = rw k refl
Effect-notifications w n (unchecked e r k) = rw k refl
Effect-notifications w n (unlogged e id at h r k) = ground arith
Effect-notifications w n (crashed id at h f r k) = rw k refl
Effect-notifications w n (delivered s id at h f r k) = ground arith
Effect-notifications w n (failed e id at h f r k) = ground arith
