-- ===== src/Journey/Arrival.antt =====
-- A notification on its whole way, from the request of internal/api/handler.go to the log of a
-- delivery that internal/worker/worker.go has made.
use notification_system.Base.{ℕ, suc, String, Option, none, some, ◌≡◌, ◌∙◌, ap, false}
use notification_system.Failure.{ok}
use notification_system.Effect.{returns, continue}
use notification_system.Domain.{Notification, Time, status_sent}
use notification_system.Json.{Bytes}
use notification_system.Kafka.{Message, Consumer}
use notification_system.Store.Tables.{
  Tables, NotificationRow, find_notification, find_log, has_sent,
}
use notification_system.Cache.Coherence.{IsCoherent}
use notification_system.Api.{Response}
use notification_system.Api.Request.{SendRequest}
use notification_system.Api.Handler.{Handler, send_notification}
use notification_system.Api.Handler.Laws.{HandlerLaws}
use notification_system.Api.Handler.Outcomes.{queued_response, IsValid, Accepted}
use notification_system.Worker
use notification_system.Worker.{Worker, process}
use notification_system.Worker.Effects.{append_log, log_with}
use notification_system.Worker.Laws.{WorkerLaws}
use notification_system.Worker.Settled.{
  Answering, answer_of, settled_log, log_id, log_time, logged, deliver-nil, process-Settles,
}
use notification_system.Journey.{QueueLaws, Reaches, send_notification-Reaches}

-- Between the end `x` of the request that was answered with `p` and the world `v` in which its
-- message has been read: no row of a notification is deleted, no log says that it was sent, and the
-- identifier that the worker takes for its log is new. The provider accepts
-- the notification.
pub record Ready {W : Type 0} (tables : W → Tables) (w : Worker W) (p : Response) (x v : W)
    : Type 0 where
  pub kept :
      (id : String) (row : NotificationRow)
      → find_notification id (tables x).notifications ≡ some row
      → (r : NotificationRow) × (find_notification id (tables v).notifications ≡ some r)
  pub unsent :
      (n : Notification) → p ≡ queued_response n → has_sent n.id (tables v).delivery_logs ≡ false
  pub fresh :
      (n : Notification)
      → p ≡ queued_response n
      → find_log (log_id w n v) (tables v).delivery_logs ≡ none
  pub accepts :
      (n : Notification) → p ≡ queued_response n → (y : W) → (w.sender.send n y).0 ≡ returns none

-- The round that reads the message delivers the notification that the request described, leaves one
-- log of it, which reads sent, and goes on.
pub record Arrives {W : Type 0} (h : Handler W) (tables : W → Tables) (body : Bytes) (t : Tables)
    (p : Response) (w : Worker W) (k : ℕ) (c : Consumer W) (u v : W) : Type 0 where
  pub request : SendRequest
  pub notification : Notification
  pub valid : IsValid body request
  pub accepted : Accepted h request t notification
  pub answer : p ≡ queued_response notification
  pub log : String
  pub at : Time
  pub after : W
  pub delivered : process w notification v ≡ (returns none, after)
  pub goes_on : Worker.run w (suc k) c u ≡ Worker.run w k c after
  pub recorded :
      tables after ≡ append_log (tables v) (log_with w log notification at status_sent "")

module _ {W : Type 0} (h : Handler W) (cached : String → W → Option Bytes) (tables : W → Tables)
    (last : W → Option Message) (laws : HandlerLaws h cached tables) (queue : QueueLaws h last)
    (worker : Worker W) (worker_laws : WorkerLaws worker tables)
    (answering : Answering worker tables) where
  Reaches-Arrives :
      (body : Bytes) (t : Tables) (p : Response) (x : W) (k : ℕ) (c : Consumer W) (u v : W)
      → Reaches h tables body t p x worker k c u v
      → Ready tables worker p x v
      → Arrives h tables body t p worker k c u v
  Reaches-Arrives body t p x k c u v q ready =
      let n = q.notification in
      let (row, known) = ready.kept n.id _ q.stored in
      let (answered, settled) =
        process-Settles worker tables worker_laws answering n v row (ready.unsent n q.answer) known
          (ready.fresh n q.answer) in
      let nil =
        deliver-nil worker tables worker_laws answering n _
          (ready.accepts n q.answer (logged worker n v)) in
      let after = (process worker n v).1 in
      let done : process worker n v ≡ (returns none, after) =
        ap (λ o. (o, after)) (answered ∙ ap answer_of nil) in
      record {
        request = q.request;
        notification = n;
        valid = q.valid;
        accepted = q.accepted;
        answer = q.answer;
        log = log_id worker n v;
        at = log_time worker n v;
        after = after;
        delivered = done;
        goes_on = q.processed ∙ ap (continue (λ _. Worker.run worker k c)) done;
        recorded =
            settled
            ∙ ap
                (λ o.
                  append_log (tables v)
                    (settled_log worker (log_id worker n v) n (log_time worker n v) o))
                nil;
      }

  -- A request that is answered with 202 is delivered once its message is read, where the provider
  -- accepts it: nothing fails in the database of the worker and no other process writes to it in this
  -- round, the row is still there and was not sent before, and the identifier of the log is new. The
  -- round, by the consumer of any channel, answers nil, leaves one log of this notification, which
  -- reads sent, and `Run` goes on from there.
  pub send_notification-Arrives :
      (body : Bytes) (w : W) (p : Response)
      → IsCoherent cached tables w
      → (send_notification h body w).0 ≡ returns p
      → p.status ≡ 202
      → (c : Consumer W) (k : ℕ) → c.formats ≡ h.producer.formats
      → ((at : Time) → c.formats.parse (c.formats.format at) ≡ some at)
      → (m : Message) (offset : ℕ) (u v : W) → last (send_notification h body w).1 ≡ some m
      → c.reader.read_message u ≡ (ok (record m { offset = offset }), v)
      → Ready tables worker p (send_notification h body w).1 v
      → Arrives h tables body (tables w) p worker k c u v
  send_notification-Arrives body w p coherent answered status c k same reads m offset u v wrote got
        ready =
      Reaches-Arrives body (tables w) p (send_notification h body w).1 k c u v
        (send_notification-Reaches h cached tables last laws queue body w p coherent answered status
          worker c k same reads m offset u v wrote got)
        ready
