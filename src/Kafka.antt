-- ===== src/Kafka.antt =====
-- internal/kafka: the producer and the consumer around kafka-go's `Writer` and `Reader`, which are
-- parameters. `Close` of either only passes the call on.
pub mod Delivery
use notification_system.Base.{ℕ, ◌^◌, String, Option, none, some, List, [], ◌∷◌, ◌<>◌, itoa}
use notification_system.Failure.{Failure, other, wrap, Result, ok, err}
use notification_system.Effect.{Exec, pure, call, ◌>>=◌}
use notification_system.Domain.{Notification, Channel, Time}
use notification_system.Domain.Codec.{marshal, unmarshal}
use notification_system.Json.{Bytes, TimeFormat}
use notification_system.Runtime.{Runtime}
use notification_system.Config.{KafkaConfig, RoutingMap, ChannelRouting, route}

-- The fields of a `kafka.Message` that the program sets or reads.
pub record Message : Type 0 where
  pub topic : String
  pub partition : ℕ
  pub offset : ℕ
  pub key : String
  pub value : Bytes
  pub time : Time
  pub headers : List (String × String)

pub record Broker (W : Type 0) : Type 0 where
  pub write_messages : Message → W → Option Failure × W
  pub read_message : W → Result Message × W

-- `%q`; what Go escapes inside the quotes is left as it is.
abbrev quote : String → String
quote s = "\"" <> s <> "\""

-- `writer` is shared by all the channels, and its balancer chooses the partition.
pub record Producer (W : Type 0) : Type 0 where
  pub writer : Broker W
  pub runtime : Runtime W
  pub formats : TimeFormat
  pub routing : RoutingMap

abbrev pub new_producer :
    {W : Type 0} → Broker W → Runtime W → TimeFormat → KafkaConfig → Producer W
new_producer writer runtime formats cfg = record {
  writer = writer;
  runtime = runtime;
  formats = formats;
  routing = cfg.routing;
}

abbrev pub message_of : TimeFormat → ChannelRouting → Notification → Time → Message
message_of tf r n now = record {
  topic = r.topic;
  partition = r.partition;
  offset = 0;
  key = n.user_id;
  value = some (marshal tf n);
  time = now;
  headers = ("channel", n.channel) ∷ ("notification_id", n.id) ∷ [];
}

-- The structs that are marshalled hold texts and times of four-digit years, so `json.Marshal`
-- returns no error.
unfoldable pub publish : {W : Type 0} → Producer W → Notification → Exec W (Option Failure)
publish p n = elim (route n.channel p.routing) [
  | none ↦ pure (some (other ("publish: no routing config for channel " <> quote n.channel)))
  | some r ↦ call p.runtime.now >>= λ now.
      call (p.writer.write_messages (message_of p.formats r n now)) >>= elim [
        | none ↦ pure none
        | some e ↦ pure (
            some (
              wrap
                ("publish: write to kafka [topic="
                  <> r.topic
                  <> " partition="
                  <> itoa r.partition
                  <> "]")
                e))
      ]
]

pub record Consumer (W : Type 0) : Type 0 where
  pub reader : Broker W
  pub formats : TimeFormat
  pub channel : Channel

-- What `NewReader` is asked for.
pub record ReaderConfig : Type 0 where
  pub brokers : List String
  pub topic : String
  pub group_id : String
  pub min_bytes : ℕ
  pub max_bytes : ℕ
  pub commit_interval : ℕ
  pub start_offset : String

-- The reader is opened by kafka-go from the configuration; without a route there is an error.
unfoldable pub new_consumer :
    {W : Type 0}
    → (ReaderConfig → Broker W)
    → TimeFormat
    → KafkaConfig
    → Channel
    → Result (Consumer W)
new_consumer open_reader tf cfg channel = elim (route channel cfg.routing) [
  | none ↦ err (other ("consumer: no routing config for channel " <> quote channel))
  | some r ↦ ok (record {
    reader = open_reader (record {
      brokers = cfg.broker_addr ∷ [];
      topic = r.topic;
      group_id = r.group_id;
      min_bytes = 1;
      max_bytes = 2 ^ 20;
      commit_interval = 1000000000;
      start_offset = "last";
    });
    formats = tf;
    channel = channel;
  })
]

-- The text of the JSON error is not modelled.
unfoldable pub read_one : {W : Type 0} → Consumer W → Exec W (Result Notification)
read_one c = call c.reader.read_message >>= elim [
  | err e ↦ pure (err (wrap ("consumer [" <> c.channel <> "]: read message") e))
  | ok m ↦ elim (unmarshal c.formats m.value) [
    | some n ↦ pure (ok n)
    | none ↦ pure (
        err (
          wrap ("consumer [" <> c.channel <> "]: unmarshal message offset=" <> itoa m.offset)
            (other "invalid JSON")))
  ]
]
