-- ===== src/Tests/Running.antt =====
-- The loop of a worker, a message that comes again, and GET after a delivery.
use notification_system.Base.{◌≡◌, refl, ◌↔◌, ◌⊎◌, none, some, [], ◌∷◌, true, arith, itoa}
use notification_system.Effect.{returns, panics}
use notification_system.Domain.{Notification}
use notification_system.Config.{to}
use notification_system.Kafka.{Consumer, message_of}
use notification_system.Runtime.{notifications_skipped_total}
use notification_system.Sender.{email_send, apns_send}
use notification_system.Failure.{Failure, wrap}
use notification_system.Worker.{
  Worker, process, run, after_check, attempt_delivery, after_insert, deliver, conclude,
}
use notification_system.Store.{insert, exists_sent, exists_reply, update_delivery_status}
use notification_system.Store.Tables.{
  apply, find_notification, find_log, has_sent, set_delivery, row_of, scan_notification,
  microseconds,
}
use notification_system.Retry.{retry_do, backoff}
use notification_system.Worker.Order.{has_pending}
use notification_system.Worker.Redelivery.{process_redelivered, process-ignores_channel}
use notification_system.Worker.Laws.{WorkerLaws}
use notification_system.Worker.Crash.{ios_worker, process_short_token}
use notification_system.Worker.Running.{Stops, run_iff}
use notification_system.Worker.Growth.{Grows, run-Grows}
use notification_system.Api.Handler.{get_notification_status}
use notification_system.Api.Handler.Status.{get_notification_status-process}
use notification_system.Tests.Memory.{
  World, memory_pool, memory_logs, memory_runtime, patient, memory_broker, unary_times,
}
use notification_system.Tests.Memory.Laws.{
  memory_logs-laws, memory_notifications-laws, memory_runtime-laws,
}
use notification_system.Tests.Delivery.{order_confirmed, start, email_worker, email_worker-laws}
use notification_system.Tests.Requests.{memory_handler}

abbrev pub email_consumer : Consumer World
email_consumer = record { reader = memory_broker; formats = unary_times; channel = "email" }

-- The same message twice.
abbrev twice : World
twice = record start {
  published =
      message_of unary_times (to "worker-email") order_confirmed 8
      ∷ message_of unary_times (to "worker-email") order_confirmed 8
      ∷ [];
}

run_iff_example :
    let x = (run email_worker 3 email_consumer twice).1 in
    (run email_worker 3 email_consumer twice ≡ (returns true, x))
    ↔ Stops email_worker email_consumer 3 twice x
run_iff_example = run_iff email_worker email_consumer 3 twice _

reads : (x : World) → (memory_broker.read_message x).1.tables ≡ x.tables
unfolding memory_broker
reads x = ground arith

run-Grows_example : Grows (twice.tables) ((run email_worker 3 email_consumer twice).1.tables)
run-Grows_example =
    run-Grows email_worker (λ w. w.tables) email_worker-laws email_consumer reads 3 twice

abbrev delivered : World
delivered = (process email_worker order_confirmed start).1

process_redelivered_example :
    let z = (memory_runtime.now delivered).1 in
    (process email_worker order_confirmed delivered
      ≡ (returns none, memory_runtime.inc (notifications_skipped_total "email" "duplicate") z))
    ⊎ (has_pending "n-1" delivered.tables.delivery_logs ≡ true)
unfolding process after_check attempt_delivery after_insert deliver conclude insert exists_sent
    exists_reply update_delivery_status retry_do backoff email_send memory_pool memory_runtime apply
    find_notification find_log has_sent set_delivery row_of itoa
process_redelivered_example =
    process_redelivered email_worker (λ w. w.tables) email_worker-laws order_confirmed start
      delivered _ true refl refl

process-ignores_channel_example :
    process email_worker (record order_confirmed { channel = "sms" }) start
    ≡ process email_worker order_confirmed start
unfolding email_send
process-ignores_channel_example =
    process-ignores_channel email_worker order_confirmed "sms" refl start

-- What a lookup of the row finds.
abbrev read_back : Notification
read_back = record order_confirmed {
  created_at = microseconds order_confirmed.created_at;
  scheduled_at = none;
  recipient_email = "";
  recipient_phone = "";
  recipient_token = "";
}

get_notification_status-process_example :
    (get_notification_status memory_handler "n-1" delivered).0
    ≡ (get_notification_status memory_handler "n-1" start).0
unfolding process after_check attempt_delivery after_insert deliver conclude insert exists_sent
    exists_reply update_delivery_status retry_do backoff email_send memory_pool memory_runtime apply
    find_notification find_log has_sent set_delivery row_of scan_notification
    notification_system.Store.find_by_id notification_system.Store.found_reply
get_notification_status-process_example =
    get_notification_status-process memory_handler email_worker (λ w. w.tables)
      memory_notifications-laws email_worker-laws "n-1" order_confirmed read_back read_back start
      refl refl

abbrev short_token : Notification
short_token = record order_confirmed { channel = "ios"; recipient_token = "abc" }

apns_send-keeps : (n : Notification) (w : World) → (apns_send n w).1.tables ≡ w.tables
unfolding apns_send
apns_send-keeps n w = ground arith

abbrev ios : Worker World
ios = ios_worker memory_runtime memory_logs patient

ios-laws : WorkerLaws ios (λ w. w.tables)
ios-laws = record {
  log_repo = memory_logs-laws;
  runtime = memory_runtime-laws;
  wait_keeps = λ d x. refl;
  send_keeps = apns_send-keeps;
  tries = omega arith;
}

process_short_token_example :
    let (r, y) = process ios short_token start in
    ((r ≡ panics) × (has_pending "n-1" y.tables.delivery_logs ≡ true))
    ⊎ (((e : Failure) × (r ≡ returns (some (wrap "idempotency check" e))))
        ⊎ ((e : Failure) × (r ≡ returns (some (wrap "persist delivery log" e)))))
unfolding has_sent
process_short_token_example =
    process_short_token memory_runtime memory_logs patient short_token refl (omega arith)
      (λ w. w.tables) ios-laws start refl
