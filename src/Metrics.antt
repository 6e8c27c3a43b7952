-- ===== src/Metrics.antt =====
-- pkg/metrics/metrics.go: the ten metrics, which promauto registers in the order of their
-- declarations before the main function of a process runs. The uses of a metric are `Metric` in
-- Runtime.antt.
pub mod Registry
pub mod Registered
use notification_system.Base.{String, List, [], ◌∷◌}
use notification_system.Effect.{Exec, pure, ◌>>◌}
use notification_system.Runtime.{Metric}
use notification_system.Runtime

-- Which of the constructors of promauto makes a metric; a histogram comes with its buckets.
pub data Kind (B : Type 0) : Type 0 where
  counter_vec : Kind B
  histogram_vec : B → Kind B
  gauge : Kind B
  gauge_vec : Kind B

pub record Opts (B : Type 0) : Type 0 where
  pub kind : Kind B
  pub name : String
  pub help : String
  pub labels : List String

-- `prometheus.DefBuckets`, and the registration of one metric, which panics where it fails.
pub record Prometheus (B W : Type 0) : Type 0 where
  pub def_buckets : B
  pub register : Opts B → Exec W Unit

module _ {B W : Type 0} (p : Prometheus B W) where
  abbrev pub http_requests_total : Opts B
  http_requests_total = record {
    kind = counter_vec;
    name = "http_requests_total";
    help = "Total number of HTTP requests received.";
    labels = "method" ∷ "path" ∷ "status" ∷ [];
  }

  abbrev pub http_request_duration : Opts B
  http_request_duration = record {
    kind = histogram_vec p.def_buckets;
    name = "http_request_duration_seconds";
    help = "HTTP request latency.";
    labels = "method" ∷ "path" ∷ [];
  }

  abbrev pub http_requests_in_flight : Opts B
  http_requests_in_flight = record {
    kind = gauge;
    name = "http_requests_in_flight";
    help = "Number of HTTP requests currently being processed.";
    labels = [];
  }

  abbrev pub notifications_sent_total : Opts B
  notifications_sent_total = record {
    kind = counter_vec;
    name = "notifications_sent_total";
    help = "Total notifications successfully delivered.";
    labels = "channel" ∷ [];
  }

  abbrev pub notifications_failed_total : Opts B
  notifications_failed_total = record {
    kind = counter_vec;
    name = "notifications_failed_total";
    help = "Total notification delivery failures.";
    labels = "channel" ∷ [];
  }

  abbrev pub notifications_skipped_total : Opts B
  notifications_skipped_total = record {
    kind = counter_vec;
    name = "notifications_skipped_total";
    help = "Notifications skipped (rate limited or opted out).";
    labels = "channel" ∷ "reason" ∷ [];
  }

  abbrev pub delivery_duration : Opts B
  delivery_duration = record {
    kind = histogram_vec p.def_buckets;
    name = "notification_delivery_duration_seconds";
    help = "End-to-end delivery latency.";
    labels = "channel" ∷ [];
  }

  abbrev pub kafka_publish_total : Opts B
  kafka_publish_total = record {
    kind = counter_vec;
    name = "kafka_publish_total";
    help = "Total Kafka publish attempts.";
    labels = "channel" ∷ "status" ∷ [];
  }

  abbrev pub kafka_consumer_lag : Opts B
  kafka_consumer_lag = record {
    kind = gauge_vec;
    name = "kafka_consumer_lag";
    help = "Number of messages worker is behind in Kafka partition.";
    labels = "partition" ∷ [];
  }

  abbrev pub active_workers : Opts B
  active_workers = record {
    kind = gauge;
    name = "active_workers";
    help = "Number of worker goroutines currently running.";
    labels = [];
  }

  unfoldable pub register_all : List (Opts B) → Exec W Unit
  register_all [] = pure tt
  register_all (o ∷ os) = p.register o >> register_all os

  unfoldable pub variables : List (Opts B)
  variables =
      http_requests_total ∷ http_request_duration ∷ http_requests_in_flight
      ∷ notifications_sent_total ∷ notifications_failed_total ∷ notifications_skipped_total
      ∷ delivery_duration ∷ kafka_publish_total ∷ kafka_consumer_lag ∷ active_workers ∷ []

  -- What the package does when it is initialised.
  abbrev pub init : Exec W Unit
  init = register_all variables

  -- The variable that the code uses.
  unfoldable pub variable_of : Metric → Opts B
  variable_of (Runtime.http_requests_total _ _ _) = http_requests_total
  variable_of (Runtime.http_request_duration _ _) = http_request_duration
  variable_of Runtime.http_requests_in_flight = http_requests_in_flight
  variable_of (Runtime.notifications_sent_total _) = notifications_sent_total
  variable_of (Runtime.notifications_failed_total _) = notifications_failed_total
  variable_of (Runtime.notifications_skipped_total _ _) = notifications_skipped_total
  variable_of (Runtime.delivery_duration _) = delivery_duration
  variable_of (Runtime.kafka_publish_total _ _) = kafka_publish_total

-- What the code passes to `WithLabelValues`.
unfoldable pub label_values : Metric → List String
label_values (Runtime.http_requests_total method path status) = method ∷ path ∷ status ∷ []
label_values (Runtime.http_request_duration method path) = method ∷ path ∷ []
label_values Runtime.http_requests_in_flight = []
label_values (Runtime.notifications_sent_total channel) = channel ∷ []
label_values (Runtime.notifications_failed_total channel) = channel ∷ []
label_values (Runtime.notifications_skipped_total channel reason) = channel ∷ reason ∷ []
label_values (Runtime.delivery_duration channel) = channel ∷ []
label_values (Runtime.kafka_publish_total channel status) = channel ∷ status ∷ []
