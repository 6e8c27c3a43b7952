-- ===== src/Kafka/Delivery.antt =====
-- From the producer to a consumer.
use notification_system.Base.{ℕ, some, ◌≡◌, arith}
use notification_system.Failure.{ok}
use notification_system.Effect.{returns}
use notification_system.Domain.{Notification, Time}
use notification_system.Domain.Codec.RoundTrip.{unmarshal-marshal}
use notification_system.Kafka.{Consumer, read_one, message_of}
use notification_system.Config.{ChannelRouting}

-- Where the time format reads back what it writes: a consumer that is given the message of a
-- notification, at whatever offset, reads that very notification, every field of it, whatever the
-- channel of the consumer is.
pub read_one-message_of :
    {W : Type 0} (c : Consumer W)
    → ((t : Time) → c.formats.parse (c.formats.format t) ≡ some t)
    → (r : ChannelRouting) (n : Notification) (now : Time) (offset : ℕ) (w x : W)
    → c.reader.read_message w ≡ (ok (record (message_of c.formats r n now) { offset = offset }), x)
    → read_one c w ≡ (returns (ok n), x)
unfolding read_one
read_one-message_of c parse-format r n now offset w x h =
    ground (arith, unmarshal-marshal c.formats parse-format n)
