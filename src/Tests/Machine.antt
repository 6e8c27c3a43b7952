-- ===== src/Tests/Machine.antt =====
-- Libraries for the two processes: the world counts what is open, always has the next message ready
-- for a reader, and knows whether the workers have been cancelled and how many reads still take the
-- message then.
pub mod Laws
use notification_system.Base.{
  ℕ, zero, suc, ◌+◌, ◌-◌, ◌≤◌, String, Bool, true, false, Option, none, some, ◌≡◌, refl, arith,
  subst,
}
use notification_system.Failure.{sentinel, canceled, no_rows, redis_nil, other, is, Result, ok, err}
use notification_system.Effect.{pure}
use notification_system.Config
use notification_system.Config.{to}
use notification_system.Domain.{Notification}
use notification_system.Runtime.{Runtime}
use notification_system.Redis.{Redis}
use notification_system.Kafka.{Message, Broker, message_of}
use notification_system.Sender.{
  Sender, apns_send, fcm_send, sms_send, email_send, apns_sender, fcm_sender, sms_sender,
  email_sender,
}
use notification_system.Store.Connection.{Pool}
use notification_system.Store.Opening.{Driver}
use notification_system.Store.Opening.Origin.{Made}
use notification_system.Store.{insert, update_delivery_status, exists_sent, delivery_logs}
use notification_system.Store.Tables.{Statement, insert_delivery_log, update_delivery_log}
use notification_system.Worker.{new_worker}
use notification_system.Worker.Keeps.{Keeps}
use notification_system.Worker.Draining.{Bounded, Drains}
use notification_system.Server
use notification_system.Server.{signalled}
use notification_system.Server.Laws.{Held, IsSteady, PlatformLaws}
use notification_system.WorkerProcess
use notification_system.WorkerProcess.{all_senders}
use notification_system.WorkerProcess.Starting.{consumer_for}
use notification_system.WorkerProcess.Stopping.{StoppingLaws}
use notification_system.Tests.Memory.{unary_times}
use notification_system.Tests.Delivery.{order_confirmed}

pub record Machine : Type 0 where
  pub held : Held
  pub next : Message
  pub late : ℕ
  pub stopping : Bool

abbrev pub switched_on : Machine
switched_on = record {
  held = record { pools = 0; clients = 0; writers = 0 };
  next = message_of unary_times (to "worker-email") order_confirmed 8;
  late = 2;
  stopping = false;
}

abbrev machine_runtime : Runtime Machine
machine_runtime = record {
  new_string = λ w. ("id", w);
  now = λ w. (5, w);
  inc = λ m w. w;
  dec = λ m w. w;
  observe = λ m t w. w;
}

abbrev pub blank_pool : Pool Machine
blank_pool = record {
  exec = λ s w. (none, w);
  query_notification = λ id w. (err (sentinel no_rows), w);
  query_exists_sent = λ id w. (ok false, w);
  query_user = λ id w. (err (sentinel no_rows), w);
  query_preferences = λ id w. (err (sentinel no_rows), w);
}

abbrev machine_driver : Driver Machine
machine_driver = record {
  parse_config = λ dsn. ok (record {
    dsn = dsn;
    max_conns = Config.pos 4;
    min_conns = Config.pos 0;
    max_conn_lifetime = 3600;
  });
  new_with_config =
      λ c w. (ok blank_pool, record w { held = record w.held { pools = w.held.pools + 1 } });
  ping = λ pool w. (none, w);
  close = λ pool w. record w { held = record w.held { pools = w.held.pools - 1 } };
}

abbrev blank_redis : Redis Machine
blank_redis = record {
  incr = λ key w. (ok 1, w);
  expire = λ key d w. (none, w);
  get = λ key w. (err (sentinel redis_nil), w);
  set = λ key b d w. (none, w);
}

-- A reader that waits answers an error until the workers are cancelled.
unfoldable pub machine_broker : Broker Machine
machine_broker = record {
  write_messages = λ m w. (none, w);
  read_message = λ w. elim w.stopping [
    | false ↦ (ok w.next, w)
    | true ↦ elim w.late [
      | zero ↦ (err (sentinel canceled), w)
      | suc k ↦ (ok w.next, record w { late = k })
    ]
  ];
}

-- The client of Redis does not answer.
abbrev pub server_machine : Server.Platform Machine
server_machine = record {
  getenv = λ key. "";
  parse_duration = λ s. none;
  driver = machine_driver;
  new_client =
      λ c w. (blank_redis, record w { held = record w.held { clients = w.held.clients + 1 } });
  ping_redis = λ rdb w. (some (other "connection refused"), w);
  close_redis = λ rdb w. record w { held = record w.held { clients = w.held.clients - 1 } };
  new_writer = λ addr w.
      (machine_broker, record w { held = record w.held { writers = w.held.writers + 1 } });
  close_writer = λ b w. record w { held = record w.held { writers = w.held.writers - 1 } };
  runtime = machine_runtime;
  formats = unary_times;
  rfc3339 = λ t. "2024-01-01T00:00:00Z";
  mount = λ routes r. pure tt;
  metrics = λ r. pure tt;
  listen = λ s w. (signalled, w);
  shutdown = λ s w. (none, w);
}

-- The same where it answers.
abbrev pub answering_machine : Server.Platform Machine
answering_machine = record server_machine { ping_redis = λ rdb w. (none, w) }

abbrev pub worker_machine : WorkerProcess.Platform Machine
worker_machine = record {
  getenv = λ key. "";
  parse_duration = λ s. none;
  driver = machine_driver;
  runtime = machine_runtime;
  formats = unary_times;
  context = record {
    wait = λ d w. ((elim w.stopping [ true ↦ some (sentinel canceled) | false ↦ none ]), w);
  };
  open_reader = λ c. machine_broker;
  close_reader = λ b w. (none, w);
  cancel = λ w. record w { stopping = true };
}

abbrev pub IsStopping : Machine → Type 0
IsStopping w = w.stopping ≡ true

abbrev pub late_reads : Machine → ℕ
late_reads w = w.late
