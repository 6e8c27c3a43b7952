-- ===== src/WorkerProcess/Starting.antt =====
-- The workers that the process creates.
use notification_system.Base.{◌^◌, String, true, some, [], ◌∷◌, ◌<>◌, map, ◌≡◌, refl}
use notification_system.Failure.{ok}
use notification_system.Domain.{Channel}
use notification_system.Json.{TimeFormat}
use notification_system.Config
use notification_system.Config.{KafkaConfig, ChannelRouting, load, route}
use notification_system.Config.Routing.{OneOf, load-route_iff}
use notification_system.Kafka.{Broker, ReaderConfig, Consumer, new_consumer}
use notification_system.Sender.{Sender}
use notification_system.Store.{delivery_logs}
use notification_system.Store.Connection.{Pool}
use notification_system.Worker.{new_worker}
use notification_system.WorkerProcess.{Platform, Slot, Senders, start}

module _ {W : Type 0} where
  pub data Known : Senders W → Type 0 where
    none_left : Known []
    known :
        {channel : Channel} {sender : Sender W} {rest : Senders W}
        → OneOf channel
        → Known rest
        → Known ((channel, sender) ∷ rest)

  abbrev pub consumer_for : (ReaderConfig → Broker W) → TimeFormat → String → Channel → Consumer W
  consumer_for open_reader tf address channel = record {
    reader = open_reader (record {
      brokers = address ∷ [];
      topic = "notifications";
      group_id = "worker-" <> channel;
      min_bytes = 1;
      max_bytes = 2 ^ 20;
      commit_interval = 1000000000;
      start_offset = "last";
    });
    formats = tf;
    channel = channel;
  }

  -- The worker of a channel: the sender is its own, the pool and the context are those of all.
  abbrev pub slot_for : Platform W → String → Pool W → Channel × Sender W → Slot W
  slot_for p address db s = record {
    worker = new_worker p.runtime (delivery_logs db) p.context s.1;
    consumer = consumer_for p.open_reader p.formats address s.0;
    live = true;
  }

new_consumer_known :
    {W : Type 0} (open_reader : ReaderConfig → Broker W) (tf : TimeFormat) (cfg : KafkaConfig)
    (channel : Channel)
    → route channel cfg.routing
      ≡ some (record { topic = "notifications"; partition = 0; group_id = "worker-" <> channel })
    → new_consumer open_reader tf cfg channel
      ≡ ok (consumer_for open_reader tf cfg.broker_addr channel)
unfolding new_consumer
new_consumer_known open_reader tf cfg channel h = rw (h, new_consumer) refl

module _ {W : Type 0} (p : Platform W) (c : Config.Config) (db : Pool W)
    (loaded : load p.getenv p.parse_duration ≡ ok c) where
  -- From a configuration that was loaded, whatever the environment holds, the process creates all
  -- its workers, in whatever order it goes through senders for known channels: for each sender one
  -- worker that is live and whose consumer reads the topic "notifications" of the configured broker
  -- in the consumer group of the sender's own channel.
  pub start-map :
      (senders : Senders W)
      → Known senders
      → start p c.kafka db senders ≡ ok (map (slot_for p c.kafka.broker_addr db) senders)
  unfolding start
  start-map [] none_left = refl
  start-map ((channel, sender) ∷ rest) (known k ks) =
      let routed = (load-route_iff p.getenv p.parse_duration c channel _ loaded).1 (k, refl) in
      rw
        (
          new_consumer_known p.open_reader p.formats c.kafka channel routed,
          start-map rest ks,
          start,
        )
        refl
