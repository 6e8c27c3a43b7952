-- ===== src/Tests/Arriving.antt =====
-- A request and its delivery, in services that keep everything in memory.
use notification_system.Base.{Option, ◌≡◌, refl, none, some, [], ◌∷◌}
use notification_system.Failure.{ok}
use notification_system.Effect.{returns}
use notification_system.Api.Handler.{
  send_notification, after_decode, after_limit, after_user, after_preferences, is_channel_enabled,
  enqueue, after_save, after_publish,
}
use notification_system.Api.Request.{decode_request, lacks_field, valid_channel}
use notification_system.RateLimit.{allow}
use notification_system.Kafka.{Message, publish}
use notification_system.Store.{save, insert, exists_sent, exists_reply, update_delivery_status}
use notification_system.Store.Tables.{find_user, scan_user, has_sent, find_log}
use notification_system.Worker.{Worker}
use notification_system.Worker.Laws.{WorkerLaws}
use notification_system.Worker.Settled.{Answering}
use notification_system.Api.{Response, write_json, sent}
use notification_system.Journey.{QueueLaws}
use notification_system.Journey.Arrival.{Ready, Arrives, send_notification-Arrives}
use notification_system.Tests.Memory.{
  World, memory_broker, memory_pool, memory_runtime, memory_redis, with_user,
}
use notification_system.Tests.Memory.Laws.{unary_times-parse, with_user-IsCoherent}
use notification_system.Tests.Delivery.{email_worker, email_worker-laws}
use notification_system.Tests.Requests.{memory_handler, memory_handler-laws, sms_request}
use notification_system.Tests.Running.{email_consumer}
use notification_system.Tests.Settling.{email_worker-Answering}

abbrev newest : World → Option Message
newest w = elim w.published [ [] ↦ none | m ∷ ms ↦ some m ]

newest-laws : QueueLaws memory_handler newest
unfolding memory_broker memory_runtime
newest-laws = record { written = λ m w e. refl; inc_keeps = λ m w. refl }

abbrev answer : Response
answer = write_json 202 (
    sent (record {
      notification_id = "id-10";
      status = "queued";
      message = "notification accepted for delivery";
    }))

-- The worlds after the request and after the read of its message.
abbrev accepted : World
accepted = (send_notification memory_handler sms_request with_user).1

abbrev fetched : World
fetched = (memory_broker.read_message accepted).1

-- What the request does: it is answered with 202, writes a message and no log.
record Post : Type 0 where
  answered : (send_notification memory_handler sms_request with_user).0 ≡ returns answer
  message : Message
  written : newest accepted ≡ some message
  read : memory_broker.read_message accepted ≡ (ok (record message { offset = 0 }), fetched)
  logs : fetched.tables.delivery_logs ≡ []
  rows : fetched.tables.notifications ≡ accepted.tables.notifications

post : Post
unfolding send_notification after_decode decode_request lacks_field valid_channel after_limit allow
    after_user after_preferences is_channel_enabled enqueue save after_save publish after_publish
    find_user scan_user notification_system.Json.same_name notification_system.Json.into_text
    notification_system.Cache.find_by_id notification_system.Cache.find_preferences_cached
    notification_system.Cache.cached_user notification_system.Cache.load_user
    notification_system.Cache.cached_preferences notification_system.Cache.load_preferences
    notification_system.Store.find_user_by_id notification_system.Store.find_preferences
    notification_system.Store.Tables.find_row_of notification_system.Store.Tables.apply
    notification_system.Store.Tables.find_notification notification_system.Config.route
    notification_system.Store.found_reply notification_system.Store.preferences_reply
    notification_system.Failure.is notification_system.Base.itoa memory_redis memory_pool
    memory_runtime memory_broker
post = record {
  answered = refl;
  message = _;
  written = refl;
  read = refl;
  logs = refl;
  rows = refl;
}

-- A provider that accepts everything.
abbrev pub willing : Worker World
willing = record email_worker {
  sender = record { channel = "sms"; send = λ n x. (returns none, x) };
}

pub willing-laws : WorkerLaws willing (λ w. w.tables)
willing-laws = record {
  log_repo = email_worker-laws.log_repo;
  runtime = email_worker-laws.runtime;
  wait_keeps = email_worker-laws.wait_keeps;
  send_keeps = λ n x. refl;
  tries = email_worker-laws.tries;
}

pub willing-Answering : Answering willing (λ w. w.tables)
willing-Answering = record {
  checks = email_worker-Answering.checks;
  inserts = email_worker-Answering.inserts;
  updates = email_worker-Answering.updates;
}

fetched-Ready : Ready (λ w. w.tables) willing answer accepted fetched
unfolding has_sent find_log
fetched-Ready = record {
  kept = λ id row h. (row, rw post.rows h);
  unsent = λ n e. rw post.logs refl;
  fresh = λ n e. rw post.logs refl;
  accepts = λ n e y. refl;
}

send_notification-Arrives_example :
    Arrives memory_handler
      (λ w. w.tables)
      sms_request
      with_user.tables
      answer
      willing
      4
      email_consumer
      accepted
      fetched
send_notification-Arrives_example =
    send_notification-Arrives memory_handler (λ key w. w.cell key) (λ w. w.tables) newest
      memory_handler-laws newest-laws willing willing-laws willing-Answering sms_request with_user
      answer with_user-IsCoherent post.answered refl email_consumer 4 refl unary_times-parse
      post.message 0 accepted fetched post.written post.read fetched-Ready
