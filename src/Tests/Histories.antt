-- ===== src/Tests/Histories.antt =====
-- Requests and deliveries together, at concrete inputs.
use notification_system.Base.{String, Option, none, some, List, [], ◌∷◌, ◌≡◌, refl, inl, arith}
use notification_system.Json.{Bytes}
use notification_system.Store.Tables.{
  Statement, insert_notification, insert_delivery_log, update_delivery_log, UserRow, find_user,
}
use notification_system.Cache.Coherence.{IsCoherent}
use notification_system.Api.Request.{SendRequest, decode_request, lacks_field, valid_channel}
use notification_system.Api.Handler.{send_notification}
use notification_system.Store.{save, insert, update_delivery_status, exists_sent}
use notification_system.Api.Handler.Unscanned.{IsRefused, send_notification-IsRefused}
use notification_system.Sender.{email_send}
use notification_system.Domain.{Notification}
use notification_system.Runtime.{RuntimeLaws}
use notification_system.History.{Event, posted, queried, round, history}
use notification_system.History.Laws.{shown, HandlerQuiet, WorkerQuiet}
use notification_system.History.Sound.{Sound, history-Sound}
use notification_system.Tests.Memory.{
  World, empty_world, memory_broker, memory_pool, memory_notifications, memory_runtime, with_user,
}
use notification_system.Tests.Memory.Laws.{with_user-IsCoherent}
use notification_system.Tests.Requests.{memory_handler, memory_handler-laws, sms_request}
use notification_system.Tests.Delivery.{email_worker, email_worker-laws}
use notification_system.Tests.Running.{email_consumer}

-- A user without a phone number.
abbrev no_phone : UserRow
no_phone = record {
  id = "user-123";
  email = "a@example.com";
  phone = none;
  device_token = some "token";
  platform = some "ios";
}

abbrev without_phone : World
without_phone = record empty_world { tables = record empty_world.tables { users = no_phone ∷ [] } }

without_phone-IsCoherent : IsCoherent (λ key w. w.cell key) (λ w. w.tables) without_phone
without_phone-IsCoherent = record {
  users = λ id b u e d. absurd (cc);
  preferences = λ id b p e d. absurd (cc);
}

abbrev asked : SendRequest
asked = record {
  user_id = "user-123";
  channel = "sms";
  template_id = "order-confirmed";
  payload = none;
}

send_notification-IsRefused_example :
    let (r, x) = send_notification memory_handler sms_request without_phone in
    IsRefused r × (x.tables ≡ without_phone.tables)
unfolding decode_request lacks_field valid_channel find_user notification_system.Json.same_name
    notification_system.Json.into_text
send_notification-IsRefused_example =
    send_notification-IsRefused memory_handler (λ key w. w.cell key) (λ w. w.tables)
      memory_handler-laws sms_request asked without_phone no_phone without_phone-IsCoherent
      (refl, refl, refl) refl (inl refl)

abbrev pub cell : String → World → Option Bytes
cell key w = w.cell key

pub runtime-quiet : RuntimeLaws memory_runtime (shown cell)
unfolding memory_runtime
runtime-quiet = record {
  new_string_keeps = λ w. refl;
  now_keeps = λ w. refl;
  inc_keeps = λ m w. refl;
  dec_keeps = λ m w. refl;
  observe_keeps = λ m t w. refl;
}

pub exec-quiet : (s : Statement) (x : World) → shown cell (memory_pool.exec s x).1 ≡ shown cell x
unfolding memory_pool
exec-quiet s x = ground arith

notifications-quiet :
    (n : Notification) (x : World) → shown cell (memory_notifications.save n x).1 ≡ shown cell x
unfolding save
notifications-quiet n x = exec-quiet (insert_notification n) x

pub handler-quiet : HandlerQuiet cell (λ w. w.tables) memory_handler
unfolding memory_runtime memory_broker memory_pool notification_system.Store.find_by_id
handler-quiet = record {
  laws = memory_handler-laws;
  runtime = runtime-quiet;
  stamp = λ x. refl;
  write = λ m x. refl;
  save = notifications-quiet;
  find = λ id x. refl;
}

module _ (x : World) where
  send-quiet : (n : Notification) → shown cell (email_send n x).1 ≡ shown cell x
  unfolding email_send
  send-quiet n = ground arith

  pub read-quiet : shown cell (memory_broker.read_message x).1 ≡ shown cell x
  unfolding memory_broker
  read-quiet = ground arith

  pub read-tables : (memory_broker.read_message x).1.tables ≡ x.tables
  unfolding memory_broker
  read-tables = ground arith

worker-quiet : WorkerQuiet cell (λ w. w.tables) email_worker email_consumer
unfolding memory_pool insert update_delivery_status exists_sent
worker-quiet = record {
  laws = email_worker-laws;
  runtime = runtime-quiet;
  insert = λ log x. exec-quiet (insert_delivery_log log) x;
  update = λ id status message x. exec-quiet (update_delivery_log status message id) x;
  exists_sent = λ id x. refl;
  wait = λ d x. refl;
  send = λ n x. send-quiet x n;
  read = read-quiet;
  read_keeps = read-tables;
}

with_user-Sound : Sound cell (λ w. w.tables) with_user.tables with_user
with_user-Sound = record {
  users = refl;
  preferences = refl;
  coherent = with_user-IsCoherent;
  typed = (tt, tt);
}

-- A request, its delivery, and a question about it.
abbrev events : List Event
events = posted sms_request ∷ round 0 ∷ queried "id-10" ∷ []

history-Sound_example :
    Sound cell
      (λ w. w.tables)
      with_user.tables
      (history memory_handler ((email_worker, email_consumer) ∷ []) events with_user)
history-Sound_example =
    history-Sound cell (λ w. w.tables) with_user.tables memory_handler
      ((email_worker, email_consumer) ∷ []) handler-quiet (worker-quiet, tt) events with_user
      with_user-Sound
