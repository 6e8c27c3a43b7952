-- ===== src/Tests/Counting.antt =====
-- Counters and the gauge at concrete inputs: the world is the list of the counters, or the gauge.
use notification_system.Base.{ℕ, ◌+◌, ◌-◌, none, List, [], ◌∷◌, ◌≡◌, refl, arith, false}
use notification_system.Failure.{ok}
use notification_system.Effect.{panics}
use notification_system.Domain.{Notification}
use notification_system.Runtime.{Runtime, Metric, http_requests_in_flight}
use notification_system.Sender.{sms_sender, sms_send}
use notification_system.Domain.Repository.{DeliveryLogRepository}
use notification_system.Worker.{Worker, new_worker, process}
use notification_system.Worker.Counts.{CountLaws, Counts, process-Counts}
use notification_system.Api.Middleware.{Serve, fresh_exchange, wrapped}
use notification_system.Api.Middleware.Gauge.{GaugeLaws, gauge_after, wrapped-gauge}
use notification_system.Tests.Delivery.{order_confirmed}
use notification_system.Tests.Requests.{post_unreadable}

abbrev listing : Runtime (List Metric)
listing = record {
  new_string = λ w. ("id", w);
  now = λ w. (5, w);
  inc = λ m w. m ∷ w;
  dec = λ m w. w;
  observe = λ m t w. w;
}

abbrev silent_logs : DeliveryLogRepository (List Metric)
silent_logs = record {
  insert = λ log w. (none, w);
  update_delivery_status = λ id status message w. (none, w);
  exists_sent = λ id w. (ok false, w);
}

-- The recipient of the notification has no phone number, so the send fails.
abbrev sms_worker : Worker (List Metric)
sms_worker = new_worker listing silent_logs (record { wait = λ d w. (none, w) }) sms_sender

sms_send-keeps : (n : Notification) (w : List Metric) → (sms_send n w).1 ≡ w
unfolding sms_send
sms_send-keeps n w = ground arith

sms_worker-laws : CountLaws sms_worker (λ w. w)
sms_worker-laws = record {
  inc_adds = λ m w. refl;
  new_string_keeps = λ w. refl;
  now_keeps = λ w. refl;
  observe_keeps = λ m t w. refl;
  insert_keeps = λ log w. refl;
  update_keeps = λ id status message w. refl;
  exists_keeps = λ id w. refl;
  wait_keeps = λ d w. refl;
  send_keeps = sms_send-keeps;
  tries = omega arith;
}

process-Counts_example : Counts sms_worker (λ w. w) [] (process sms_worker order_confirmed [])
process-Counts_example = process-Counts sms_worker (λ w. w) sms_worker-laws order_confirmed []

step : Metric → ℕ → ℕ
step http_requests_in_flight d = d
step m d = 0

abbrev gauging : Runtime ℕ
gauging = record {
  new_string = λ w. ("id", w);
  now = λ w. (5, w);
  inc = λ m w. w + step m 1;
  dec = λ m w. w - step m 1;
  observe = λ m t w. w;
}

gauging-laws : GaugeLaws gauging (λ w. w)
unfolding step
gauging-laws = record {
  inc_gauge = λ w. refl;
  dec_gauge = λ w. refl;
  inc_total = λ method path status w. omega arith;
  observe_keeps = λ m t w. refl;
  now_keeps = λ w. refl;
  new_string_keeps = λ w. refl;
}

-- Every request panics.
abbrev panicking : Serve ℕ
panicking r s = (panics, s)

wrapped-gauge_example :
    gauge_after (λ w. w) (wrapped gauging panicking post_unreadable (3, fresh_exchange)) ≡ 3
wrapped-gauge_example =
    wrapped-gauge gauging (λ w. w) gauging-laws panicking 3 (λ r s k. k) post_unreadable
      (3, fresh_exchange) refl
