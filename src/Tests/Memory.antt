-- ===== src/Tests/Memory.antt =====
-- Services that keep everything in memory: tables as lists, a counter for identifiers and for the
-- clock.
pub mod Laws
use mathlib.Core.Option
use notification_system.Base.{
  ℕ, zero, suc, ap, ◌==◌, eq_refl, eq_iff, ◌⊎◌, ◌+◌, ◌≡◌, refl, sym, Bool, true, false, ◌&&◌,
  Option, none, some, inl, inr, String, List, [], ◌∷◌, arith, Bool-cases, itoa, ◌<>◌, if◌then◌else◌,
}
use notification_system.Failure.{
  Failure, sentinel, canceled, redis_nil, other, no_rows, is, Result, ok, err,
}
use notification_system.Runtime.{Runtime, RuntimeLaws, Metric}
use notification_system.Retry.{Context}
use notification_system.Store.Tables.{
  Tables, Statement, insert_notification, insert_delivery_log, apply, Admissible, find_notification,
  find_user, find_row_of, find_log, has_sent, scan_notification, scan_user, scan_preferences,
}
use notification_system.Store.Connection.{Pool}
use notification_system.Json.{Bytes, TimeFormat}
use notification_system.Kafka.{Message, Broker}
use notification_system.Redis.{Redis}
use notification_system.RateLimit.Window.{Answers}
use notification_system.Cache.{UserCache}
use notification_system.Cache.Coherence.{CacheLaws, IsCoherent}
use notification_system.Domain.Repository.{NotificationRepository, DeliveryLogRepository}
use notification_system.Store.{notifications, delivery_logs}
use notification_system.Store.Laws.{PoolLaws}
use notification_system.Store.Contracts.{NotificationLaws, DeliveryLogLaws, store-Laws}

pub record World : Type 0 where
  pub tables : Tables
  pub clock : ℕ
  pub metrics : List Metric
  pub cell : String → Option Bytes
  pub counter : String → ℕ
  pub published : List Message

abbrev is_none {ℓ} : {A : Type ℓ} → Option A → Bool
is_none none = true
is_none (some a) = false

abbrev is_some {ℓ} : {A : Type ℓ} → Option A → Bool
is_some none = false
is_some (some a) = true

unfoldable pub admissible : Statement → Tables → Bool
admissible (insert_notification n) t =
    is_none (find_notification n.id t.notifications) && is_some (find_user n.user_id t.users)
admissible (insert_delivery_log log) t =
    is_none (find_log log.id t.delivery_logs)
    && is_some (find_notification log.notification_id t.notifications)
admissible _ t = true

-- A missing row and a NULL are both errors of the query.
abbrev answer {ℓ} : {A B : Type ℓ} → Option A → (A → Option B) → Result B
answer none scan = err (sentinel no_rows)
answer (some a) scan = elim (scan a) [ none ↦ err (other "cannot scan NULL") | some b ↦ ok b ]

unfoldable pub memory_pool : Pool World
unfolding admissible
memory_pool = record {
  exec = λ s w.
      if admissible s w.tables
      then (none, record w { tables = apply s w.tables })
      else (some (other "violates a key constraint"), w);
  query_notification =
      λ id w. (answer (find_notification id w.tables.notifications) scan_notification, w);
  query_exists_sent = λ id w. (ok (has_sent id w.tables.delivery_logs), w);
  query_user = λ id w. (answer (find_user id w.tables.users) scan_user, w);
  query_preferences =
      λ id w. (answer (find_row_of id w.tables.user_preferences) scan_preferences, w);
}

-- The store over this pool, behind the two interfaces.
abbrev pub memory_notifications : NotificationRepository World
memory_notifications = notifications memory_pool

abbrev pub memory_logs : DeliveryLogRepository World
memory_logs = delivery_logs memory_pool

-- The clock counts its readings, and an identifier is the reading at which it was made.
unfoldable pub memory_runtime : Runtime World
memory_runtime = record {
  new_string = λ w. ("id-" <> itoa w.clock, record w { clock = w.clock + 1 });
  now = λ w. (w.clock, record w { clock = w.clock + 1 });
  inc = λ m w. record w { metrics = m ∷ w.metrics };
  dec = λ m w. record w { metrics = m ∷ w.metrics };
  observe = λ m t w. record w { metrics = m ∷ w.metrics };
}

-- A context that never ends; a wait moves the clock.
abbrev pub patient : Context World
patient = record { wait = λ d w. (none, record w { clock = w.clock + d }) }

-- A context that has ended: every wait is cut off at once.
abbrev pub cancelled : Context World
cancelled = record { wait = λ d w. (some (sentinel canceled), w) }

-- No key expires.
unfoldable pub memory_redis : Redis World
memory_redis = record {
  incr = λ key w. (
    ok (w.counter key + 1),
    record w { counter = λ j. if key == j then w.counter key + 1 else w.counter j },
  );
  expire = λ key d w. (none, w);
  get = λ key w. (elim (w.cell key) [ none ↦ err (sentinel redis_nil) | some b ↦ ok b ], w);
  set = λ key b d w. (none, record w { cell = λ j. if key == j then some b else w.cell j });
}

abbrev pub memory_cache : UserCache World
memory_cache = record { rdb = memory_redis; store = memory_pool; ttl = 300 }

-- A message that is written is the next one to be read.
unfoldable pub memory_broker : Broker World
memory_broker = record {
  write_messages = λ m w. (none, record w { published = m ∷ w.published });
  read_message = λ w. elim w.published [
    | [] ↦ (err (sentinel canceled), w)
    | m ∷ ms ↦ (ok m, record w { published = ms })
  ];
}

-- Times in unary.
abbrev strokes : ℕ → String
strokes zero = String.[]
strokes (suc n) = String.◌∷◌ "|" (strokes n)

abbrev count_strokes : String → ℕ
count_strokes String.[] = 0
count_strokes (String.◌∷◌ c s) = suc (count_strokes s)

abbrev pub unary_times : TimeFormat
unary_times = record { format = strokes; parse = λ s. some (count_strokes s) }

abbrev pub empty_world : World
empty_world = record {
  tables = record { users = []; user_preferences = []; notifications = []; delivery_logs = [] };
  clock = 10;
  metrics = [];
  cell = λ key. none;
  counter = λ key. 0;
  published = [];
}

-- A user without a row of preferences, and an empty cache.
abbrev pub with_user : World
with_user = record empty_world {
  tables = record {
    users =
        record {
          id = "user-123";
          email = "a@example.com";
          phone = some "+4912";
          device_token = some "token";
          platform = some "ios";
        }
        ∷ [];
    user_preferences = [];
    notifications = [];
    delivery_logs = [];
  };
}
