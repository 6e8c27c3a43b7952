-- ===== src/Tests/Together.antt =====
-- Two workers and a request at work at once, in services that keep everything in memory.
use notification_system.Base.{
  String, Option, none, some, false, List, [], ◌∷◌, ◌≡◌, refl, sym, subst, ap,
}
use notification_system.Failure.{ok}
use notification_system.Effect.{returns}
use notification_system.Domain.{Notification, Time}
use notification_system.Config.{to}
use notification_system.Kafka.{Consumer, Message, message_of, read_one}
use notification_system.Kafka.Delivery.{read_one-message_of}
use notification_system.Store.{insert, exists_sent, exists_reply, update_delivery_status}
use notification_system.Store.Tables.{
  row_of, apply, find_notification, find_log, has_sent, set_delivery, insert_delivery_log,
  update_delivery_log,
}
use notification_system.Worker.{Worker, deliver, conclude}
use notification_system.Worker.Interleaving.{arrived, ended}
use notification_system.Worker.Effects.{append_log}
use notification_system.Retry.{retry_do}
use notification_system.Api.Request.{SendRequest, decode_request, lacks_field, valid_channel}
use notification_system.Api.Handler.Outcomes.{IsValid}
use notification_system.Api.Handler.{send_notification}
use notification_system.Api.Handler.Interleaving.{answered}
use notification_system.Api.Handler.Interleaving.Alone.{Moves, send_notification-Moves}
use notification_system.History.Laws.{WorkerQuiet}
use notification_system.History.Sound.{Sound}
use notification_system.System.{Thread, request, delivery, Reach, begin, fetch, post, Reach-Moves}
use notification_system.System.Reached.{GoodThreads, Separate, Reach-Good}
use notification_system.Worker.Interleaving.Sole.{next_id, sent_log, concluded}
use notification_system.System.Twice.{both, one, Reach-Twice}
use notification_system.Tests.Memory.{
  World, memory_broker, memory_pool, memory_runtime, unary_times, with_user,
}
use notification_system.Tests.Memory.Laws.{unary_times-parse}
use notification_system.Tests.Delivery.{order_confirmed}
use notification_system.Tests.Requests.{memory_handler, sms_request}
use notification_system.Tests.Running.{email_consumer}
use notification_system.Tests.Arriving.{willing, willing-laws, willing-Answering}
use notification_system.Tests.Histories.{
  cell, runtime-quiet, exec-quiet, handler-quiet, read-quiet, read-tables,
}

abbrev message : Message
message = message_of unary_times (to "worker-email") order_confirmed 8

-- A notification is stored, and its message is there for two consumer groups.
abbrev pub stored : World
stored = record with_user {
  tables = record with_user.tables { notifications = row_of order_confirmed ∷ [] };
  published = message ∷ message ∷ [];
}

pub stored-Sound : Sound cell (λ w. w.tables) stored.tables stored
unfolding row_of valid_channel
stored-Sound = record {
  users = refl;
  preferences = refl;
  coherent = record { users = λ id b u e d. absurd (cc); preferences = λ id b p e d. absurd (cc) };
  typed = (((refl, refl), tt), tt);
}

-- The workers of this process are all alike.
abbrev pub Runs : Worker World → Consumer World → Type 0
Runs w c = (w ≡ willing) × (c ≡ email_consumer)

willing-quiet : WorkerQuiet cell (λ w. w.tables) willing email_consumer
unfolding memory_pool insert update_delivery_status exists_sent
willing-quiet = record {
  laws = willing-laws;
  runtime = runtime-quiet;
  insert = λ log x. exec-quiet (insert_delivery_log log) x;
  update = λ id status message x. exec-quiet (update_delivery_log status message id) x;
  exists_sent = λ id x. refl;
  wait = λ d x. refl;
  send = λ n x. refl;
  read = read-quiet;
  read_keeps = read-tables;
}

pub all-quiet :
    (w : Worker World) (c : Consumer World) → Runs w c → WorkerQuiet cell (λ w. w.tables) w c
all-quiet w c (e, f) =
    subst (λ v. WorkerQuiet cell (λ w. w.tables) v c) (sym e)
      (subst (WorkerQuiet cell (λ w. w.tables) willing) (sym f) willing-quiet)

-- After each of the two reads, and after the clock was read.
abbrev read_first : World
read_first = (memory_broker.read_message stored).1

abbrev started : World
started = (memory_runtime.now read_first).1

abbrev read_second : World
read_second = (memory_broker.read_message started).1

abbrev pub arrived_both : World
arrived_both = (memory_runtime.now read_second).1

abbrev pub first_start : Time
first_start = (memory_runtime.now read_first).0

abbrev pub second_start : Time
second_start = (memory_runtime.now read_second).0

pub reads_first : read_one email_consumer stored ≡ (returns (ok order_confirmed), read_first)
unfolding memory_broker
reads_first =
    read_one-message_of email_consumer unary_times-parse (to "worker-email") order_confirmed 8 0
      stored read_first refl

pub reads_second : read_one email_consumer started ≡ (returns (ok order_confirmed), read_second)
unfolding memory_broker memory_runtime
reads_second =
    read_one-message_of email_consumer unary_times-parse (to "worker-email") order_confirmed 8 0
      started read_second refl

arrivals :
    Reach memory_handler Runs stored
      (delivery willing order_confirmed second_start arrived
        ∷ delivery willing order_confirmed first_start arrived
        ∷ [])
      arrived_both
arrivals = fetch (fetch begin (refl, refl) reads_first refl) (refl, refl) reads_second refl

abbrev first_done : World
first_done = one willing willing order_confirmed second_start arrived_both

abbrev both_done : World
both_done = concluded willing order_confirmed first_start first_done

abbrev first_id : String
first_id =
    next_id willing order_confirmed second_start
      (both willing willing order_confirmed second_start arrived_both)

abbrev second_id : String
second_id = next_id willing order_confirmed first_start first_done

abbrev twice : List (Thread World)
twice =
    delivery willing order_confirmed second_start (ended (some first_id) (returns none))
    ∷ delivery willing order_confirmed first_start (ended (some second_id) (returns none))
    ∷ []

Reach-Twice_example :
    Reach memory_handler Runs stored twice both_done
    × (both_done.tables
        ≡ append_log
            (append_log arrived_both.tables (
              sent_log willing order_confirmed second_start
                (both willing willing order_confirmed second_start arrived_both)))
            (sent_log willing order_confirmed first_start first_done))
unfolding has_sent find_notification row_of find_log memory_broker memory_runtime memory_pool
    conclude deliver retry_do insert update_delivery_status exists_sent exists_reply apply
    set_delivery notification_system.Base.itoa
Reach-Twice_example =
    Reach-Twice memory_handler Runs (λ w. w.tables) willing willing willing-laws willing-laws
      willing-Answering willing-Answering order_confirmed second_start first_start stored
      arrived_both [] (row_of order_confirmed) refl refl refl refl (λ z. refl) (λ z. refl) arrivals

-- A request that is answered while both deliveries have arrived.
abbrev asked : SendRequest
asked = record {
  user_id = "user-123";
  channel = "sms";
  template_id = "order-confirmed";
  payload = none;
}

sms_request-IsValid : IsValid sms_request asked
unfolding decode_request lacks_field valid_channel notification_system.Json.same_name
    notification_system.Json.into_text
sms_request-IsValid = (refl, refl, refl)

send_notification-Moves_example :
    let (r, z) = send_notification memory_handler sms_request arrived_both in
    (mine : Option Notification) × Moves memory_handler asked arrived_both (answered mine r) z
send_notification-Moves_example =
    send_notification-Moves memory_handler asked arrived_both sms_request sms_request-IsValid

moves :
    let (r, z) = send_notification memory_handler sms_request arrived_both in
    (mine : Option Notification) × Moves memory_handler asked arrived_both (answered mine r) z
moves = send_notification-Moves memory_handler asked arrived_both sms_request sms_request-IsValid

abbrev threads : List (Thread World)
threads =
    request asked (answered moves.0 (send_notification memory_handler sms_request arrived_both).0)
    ∷ delivery willing order_confirmed second_start arrived
    ∷ delivery willing order_confirmed first_start arrived
    ∷ []

Reach-Good_example :
    let y = (send_notification memory_handler sms_request arrived_both).1 in
    Sound cell (λ w. w.tables) stored.tables y
    × GoodThreads memory_handler Runs cell
        (λ w. w.tables)
        handler-quiet
        all-quiet
        stored.tables
        threads
        y
    × Separate memory_handler Runs cell
        (λ w. w.tables)
        handler-quiet
        all-quiet
        stored.tables
        threads
Reach-Good_example =
    Reach-Good memory_handler Runs cell (λ w. w.tables) handler-quiet all-quiet stored.tables stored
      (send_notification memory_handler sms_request arrived_both).1 threads stored-Sound
      (Reach-Moves memory_handler Runs (post sms_request arrivals sms_request-IsValid) moves.1)
