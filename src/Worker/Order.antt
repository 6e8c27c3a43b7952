-- ===== src/Worker/Order.antt =====
-- The log is written before the send.
use mathlib.Core.Path.{fun_ext}
use notification_system.Base.{
  String, Bool, true, false, ◌&&◌, ◌||◌, ◌==◌, eq_refl, Option, none, some, List, [], ◌∷◌, ◌++◌,
  ◌≡◌, refl, ap, arith,
}
use notification_system.Failure.{Failure, Result, ok, err}
use notification_system.Effect.{Exec, call, continue}
use notification_system.Domain.{Notification, DeliveryLog, Time, status_pending}
use notification_system.Retry.Keeps.{retry_do-agree}
use notification_system.Store.Tables.{Tables, apply}
use notification_system.Worker.{
  Worker, delivery_log, deliver, conclude, after_insert, attempt_delivery, after_check, process,
}
use notification_system.Worker.Laws.{WorkerLaws}

-- A log of the notification with status `pending`.
unfoldable pub has_pending : String → List DeliveryLog → Bool
has_pending id [] = false
has_pending id (r ∷ rs) = r.notification_id == id && r.status == status_pending || has_pending id rs

pub has_pending-append :
    (id : String) (xs : List DeliveryLog) (r : DeliveryLog)
    → (r.notification_id == id) ≡ true
    → (r.status == status_pending) ≡ true
    → has_pending id (xs ++ r ∷ []) ≡ true
unfolding has_pending
has_pending-append id [] r h k = ground arith
has_pending-append id (x ∷ xs) r h k = ground (arith, has_pending-append id xs r h k)

module _ {W : Type 0} (w : Worker W) (tables : W → Tables) (laws : WorkerLaws w tables)
    (n : Notification) (other : Notification → Exec W (Option Failure)) where
  abbrev Pending : W → Type 0
  Pending x = has_pending n.id (tables x).delivery_logs ≡ true

  -- The same worker with another function in its sender.
  abbrev pub swapped : Worker W
  swapped = record w { sender = record (w.sender) { send = other } }

  conclude-swapped :
      (id : String) (start : Time) (e : Option Failure)
      → conclude swapped id start e ≡ conclude w id start e
  unfolding conclude
  conclude-swapped id start none = refl
  conclude-swapped id start (some e) = refl

  module _ (agree : (x : W) → Pending x → other n x ≡ w.sender.send n x) where
    deliver-swapped : (x : W) → Pending x → deliver swapped n x ≡ deliver w n x
    unfolding deliver
    deliver-swapped x p =
        retry_do-agree w.context w.retry_cfg Pending (λ d y q. rw laws.wait_keeps q)
          (λ _. w.sender.send n) (λ _ y q. rw laws.send_keeps q) (λ _. other n) (λ _ y q. agree y q)
          laws.tries x p

    after_insert-swapped :
        (start : Time) (id : String) (e : Option Failure) (x : W)
        → (e ≡ none → Pending x)
        → after_insert swapped start n id e x ≡ after_insert w start n id e x
    unfolding after_insert
    after_insert-swapped start id (some e) x h = refl
    after_insert-swapped start id none x h =
        rw (deliver-swapped x (h refl), fun_ext (conclude-swapped id start)) refl

    insert-Pending :
        (id : String) (at : Time) (x : W)
        → let q = w.log_repo.insert (delivery_log w id n at) x in q.0 ≡ none → Pending q.1
    unfolding apply
    insert-Pending id at x h =
        rw (((laws.log_repo.insert (delivery_log w id n at) x).nil h).1)
          (has_pending-append n.id (tables x).delivery_logs _ (eq_refl n.id) refl)

    attempt_delivery-swapped :
        (start : Time) (x : W) → attempt_delivery swapped start n x ≡ attempt_delivery w start n x
    unfolding attempt_delivery
    attempt_delivery-swapped start x =
        let (id, x1) = w.runtime.new_string x in
        let (at, x2) = w.runtime.now x1 in
        after_insert-swapped start id _ _ (insert-Pending id at x2)

    after_check-swapped :
        (start : Time) (r : Result Bool) → after_check swapped start n r ≡ after_check w start n r
    unfolding after_check
    after_check-swapped start (err e) = refl
    after_check-swapped start (ok true) = refl
    after_check-swapped start (ok false) = fun_ext (attempt_delivery-swapped start)

    -- Where no other process writes to the tables: `process` behaves alike for two send functions that
    -- agree in the worlds whose tables hold a pending log of the notification, so it sends nowhere else.
    pub process-swapped : (x : W) → process swapped n x ≡ process w n x
    unfolding process
    process-swapped x =
        let (start, y) = w.runtime.now x in
        ap (λ f. continue f (call (w.log_repo.exists_sent n.id) y))
          (fun_ext (after_check-swapped start))
