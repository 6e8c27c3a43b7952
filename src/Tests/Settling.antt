-- ===== src/Tests/Settling.antt =====
-- A worker whose store answers every statement.
use notification_system.Base.{◌≡◌, refl, true}
use notification_system.Domain.{DeliveryLog}
use notification_system.Store.{insert, exists_sent, exists_reply, update_delivery_status}
use notification_system.Store.Tables.{
  Admissible, insert_delivery_log, has_sent, find_log, find_notification, row_of, Tables,
}
use notification_system.Worker.{process, deliver}
use notification_system.Worker.Effects.{append_log}
use notification_system.Worker.Settled.{
  Answering, answer_of, settled_log, log_id, log_time, logged, process-Settles,
}
use notification_system.Tests.Memory.{memory_pool, admissible}
use notification_system.Tests.Delivery.{order_confirmed, start, email_worker, email_worker-laws}

Admissible-admissible :
    (log : DeliveryLog) (t : Tables)
    → Admissible (insert_delivery_log log) t
    → admissible (insert_delivery_log log) t ≡ true
unfolding admissible
Admissible-admissible log t (fresh, (row, known)) = rw (fresh, known) refl

pub email_worker-Answering : Answering email_worker (λ w. w.tables)
unfolding insert exists_sent exists_reply update_delivery_status memory_pool
email_worker-Answering = record {
  checks = λ id x. (_, refl);
  inserts = λ log x h. rw (Admissible-admissible log x.tables h) refl;
  updates = λ id status message x. refl;
}

process-Settles_example :
    let o = (deliver email_worker order_confirmed (logged email_worker order_confirmed start)).0 in
    ((process email_worker order_confirmed start).0 ≡ answer_of o)
    × ((process email_worker order_confirmed start).1.tables
        ≡ append_log start.tables (
            settled_log email_worker
              (log_id email_worker order_confirmed start)
              order_confirmed
              (log_time email_worker order_confirmed start)
              o))
unfolding has_sent find_log find_notification row_of
process-Settles_example =
    process-Settles email_worker (λ w. w.tables) email_worker-laws email_worker-Answering
      order_confirmed start (row_of order_confirmed) refl refl refl
