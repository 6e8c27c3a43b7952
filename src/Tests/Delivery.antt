-- ===== src/Tests/Delivery.antt =====
-- The retry loop and the worker at concrete inputs.
use notification_system.Base.{
  ℕ, ◌≡◌, refl, ◌↔◌, Option, none, some, [], ◌∷◌, arith, leb, if◌then◌else◌,
}
use notification_system.Failure.{Failure, other}
use notification_system.Effect.{returns, panics, Exec, pure}
use notification_system.Domain.{Notification}
use notification_system.Retry.{default_config, backoff, retry_do}
use notification_system.Retry.Delay.{backoff-eq-min}
use notification_system.Retry.Runs.{Ending, retry_do_iff}
use notification_system.Sender.{email_sender, email_send}
use notification_system.Store.Tables.{row_of}
use notification_system.Worker.{Worker, new_worker, process}
use notification_system.Worker.Laws.{WorkerLaws}
use notification_system.Worker.Order.{process-swapped, has_pending}
use notification_system.Worker.Effects.{Effect}
use notification_system.Worker.Logs.{process-Effect}
use notification_system.Tests.Memory.{World, memory_logs, memory_runtime, patient, empty_world}
use notification_system.Tests.Memory.Laws.{memory_logs-laws, memory_runtime-laws}

abbrev pub order_confirmed : Notification
order_confirmed = record {
  id = "n-1";
  user_id = "user-123";
  channel = "email";
  template_id = "order-confirmed";
  payload = some (("order_id", "ORD-456") ∷ []);
  status = "pending";
  created_at = 7;
  scheduled_at = none;
  recipient_email = "a@example.com";
  recipient_phone = "";
  recipient_token = "";
}

abbrev pub start : World
start = record empty_world {
  tables = record {
    users = [];
    user_preferences = [];
    notifications = row_of order_confirmed ∷ [];
    delivery_logs = [];
  };
}

abbrev pub email_worker : Worker World
email_worker = new_worker memory_runtime memory_logs patient email_sender

email_send-keeps : (n : Notification) (w : World) → (email_send n w).1.tables ≡ w.tables
unfolding email_send
email_send-keeps n w = ground arith

pub email_worker-laws : WorkerLaws email_worker (λ w. w.tables)
email_worker-laws = record {
  log_repo = memory_logs-laws;
  runtime = memory_runtime-laws;
  wait_keeps = λ d x. refl;
  send_keeps = email_send-keeps;
  tries = omega arith;
}

backoff-eq-min_example : backoff default_config 3 ≡ 400000000
backoff-eq-min_example = backoff-eq-min default_config 3 (omega arith) (omega arith) (omega arith)

-- Fails twice and then succeeds.
abbrev flaky : ℕ → Exec World (Option Failure)
flaky k = pure (if leb k 2 then some (other "refused") else none)

retry_do_iff_example :
    (retry_do patient default_config flaky start
      ≡ (returns none, record start { clock = 300000010 }))
    ↔ Ending patient default_config flaky start (returns none) (record start { clock = 300000010 })
retry_do_iff_example =
    retry_do_iff patient default_config flaky (omega arith) start
      (record start { clock = 300000010 }) (returns none)

-- A sender that panics where no pending log is stored.
abbrev strict : Notification → Exec World (Option Failure)
strict n x = if has_pending n.id x.tables.delivery_logs then email_send n x else (panics, x)

process-swapped_example :
    process
      (record email_worker { sender = record { channel = "email"; send = strict } })
      order_confirmed
      start
    ≡ process email_worker order_confirmed start
process-swapped_example =
    process-swapped email_worker (λ w. w.tables) email_worker-laws order_confirmed strict
      (λ x h. rw h) start

process-Effect_example :
    let (r, y) = process email_worker order_confirmed start in
    Effect email_worker order_confirmed start.tables r y.tables
process-Effect_example =
    process-Effect email_worker (λ w. w.tables) email_worker-laws order_confirmed start
