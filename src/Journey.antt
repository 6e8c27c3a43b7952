-- ===== src/Journey.antt =====
-- The way of a notification from internal/api/handler.go through Kafka to internal/worker/worker.go.
pub mod Arrival
use notification_system.Base.{
  ℕ, suc, String, Option, none, some, ◌≡◌, refl, sym, ◌∙◌, ap, some_inj, arith,
}
use notification_system.Failure.{ok}
use notification_system.Effect.{Outcome, returns, ◌>>=◌}
use notification_system.Domain.{Notification, Time}
use notification_system.Json.{Bytes}
use notification_system.Config.{ChannelRouting}
use notification_system.Runtime.{Metric}
use notification_system.Kafka.{Message, Consumer, message_of}
use notification_system.Kafka.Delivery.{read_one-message_of}
use notification_system.Store.Tables.{Tables, row_of, find_notification}
use notification_system.Store.Records.{find_notification-append}
use notification_system.Cache.Coherence.{IsCoherent}
use notification_system.Api.{Response}
use notification_system.Api.Request.{SendRequest}
use notification_system.Api.Handler.{Handler, send_notification}
use notification_system.Api.Handler.Laws.{HandlerLaws}
use notification_system.Api.Handler.Outcomes.{
  queued_response, IsValid, Accepted, Handled, invalid, limited, unknown, unread, opted_out,
  unsaved, unqueued, queued,
}
use notification_system.Api.Handler.Sending.{send_notification-Handled}
use notification_system.Worker
use notification_system.Worker.{Worker, process}
use notification_system.Worker.Running.{run_message}

-- `last` shows the last message that was written to Kafka.
pub record QueueLaws {W : Type 0} (h : Handler W) (last : W → Option Message) : Type 0 where
  pub written :
      (m : Message) (w : W)
      → (h.producer.writer.write_messages m w).0 ≡ none
      → last (h.producer.writer.write_messages m w).1 ≡ some m
  pub inc_keeps : (m : Metric) (w : W) → last (h.runtime.inc m w) ≡ last w

module _ {W : Type 0} (h : Handler W) (tables : W → Tables) (last : W → Option Message)
    (queue : QueueLaws h last) where
  -- A request that was accepted: its row is in the tables `x`, and its message is the last one.
  pub record Queued (body : Bytes) (t : Tables) (p : Response) (x : W) : Type 0 where
    pub request : SendRequest
    pub notification : Notification
    pub to : ChannelRouting
    pub at : Time
    pub valid : IsValid body request
    pub accepted : Accepted h request t notification
    pub answer : p ≡ queued_response notification
    pub stored :
        find_notification notification.id (tables x).notifications ≡ some (row_of notification)
    pub message : last x ≡ some (message_of h.producer.formats to notification at)

  accepted-Queued :
      (body : Bytes) (t : Tables) (p : Response) (r : Outcome Response) (x : W)
      → r ≡ returns p
      → p.status ≡ 202
      → Handled h tables body t r x
      → Queued body t p x
  unfolding row_of
  accepted-Queued body t p r x e s (invalid message code never q k) = absurd (ground arith)
  accepted-Queued body t p r x e s (limited req v q k) = absurd (ground arith)
  accepted-Queued body t p r x e s (unknown req v q k) = absurd (ground arith)
  accepted-Queued body t p r x e s (unread req u v g q k) = absurd (ground arith)
  accepted-Queued body t p r x e s (opted_out req u ps v g d f q k) = absurd (ground arith)
  accepted-Queued body t p r x e s (unsaved req n v a q k) = absurd (ground arith)
  accepted-Queued body t p r x e s (unqueued req n v a f q k) = absurd (ground arith)
  accepted-Queued body t p r x e s (queued req n v a f q y d i k) = record {
    request = req;
    notification = n;
    to = d.to;
    at = d.at;
    valid = v;
    accepted = a;
    answer = cc;
    stored = rw k (find_notification-append n.id t.notifications (row_of n) f refl);
    message =
        let m = message_of h.producer.formats d.to n d.at in
        let wrote : last y ≡ some m =
          rw d.acknowledged at (queue.written m d.before (ap (λ a. a.0) d.acknowledged)) in
        rw i (queue.inc_keeps _ y ∙ wrote);
  }

-- The notification that the next round of a worker processes: its recipient and its payload are what
-- the user and the request said when the request was accepted, and the row that the worker's
-- delivery log refers to was stored by then.
pub record Reaches {W : Type 0} (h : Handler W) (tables : W → Tables) (body : Bytes) (t : Tables)
    (p : Response) (x : W) (w : Worker W) (k : ℕ) (c : Consumer W) (u v : W) : Type 0 where
  pub request : SendRequest
  pub notification : Notification
  pub valid : IsValid body request
  pub accepted : Accepted h request t notification
  pub answer : p ≡ queued_response notification
  pub stored :
      find_notification notification.id (tables x).notifications ≡ some (row_of notification)
  pub processed : Worker.run w (suc k) c u ≡ (process w notification >>= λ _. Worker.run w k c) v

module _ {W : Type 0} (h : Handler W) (cached : String → W → Option Bytes) (tables : W → Tables)
    (last : W → Option Message) (laws : HandlerLaws h cached tables)
    (queue : QueueLaws h last) where
  -- A request that is answered with 202 reaches a worker: when the message that was written last is
  -- read, at whatever offset and by the consumer of any channel, whose time format reads back what
  -- the producer's writes, the next round of the worker processes exactly the notification that was
  -- accepted, with all its fields, and its row is in the tables that the request left.
  pub send_notification-Reaches :
      (body : Bytes) (w : W) (p : Response)
      → IsCoherent cached tables w
      → (send_notification h body w).0 ≡ returns p
      → p.status ≡ 202
      → (worker : Worker W) (c : Consumer W) (k : ℕ) → c.formats ≡ h.producer.formats
      → ((at : Time) → c.formats.parse (c.formats.format at) ≡ some at)
      → (m : Message) (offset : ℕ) (u v : W) → last (send_notification h body w).1 ≡ some m
      → c.reader.read_message u ≡ (ok (record m { offset = offset }), v)
      → Reaches h tables body (tables w) p (send_notification h body w).1 worker k c u v
  send_notification-Reaches body w p coherent answered status worker c k same reads m offset u v
        wrote got =
      let q =
        accepted-Queued h tables last queue body (tables w) p _ _ answered status
          (send_notification-Handled h cached tables laws body w coherent) in
      let message : m ≡ message_of c.formats q.to q.notification q.at =
        some_inj (sym wrote ∙ q.message)
        ∙ ap (λ f. message_of f q.to q.notification q.at) (sym same) in
      let given = rw message at got in
      record {
        request = q.request;
        notification = q.notification;
        valid = q.valid;
        accepted = q.accepted;
        answer = q.answer;
        stored = q.stored;
        processed =
            run_message worker c k q.notification u v
              (read_one-message_of c reads q.to q.notification q.at offset u v given);
      }
