-- ===== src/System/Good.antt =====
-- What holds however the steps of requests and deliveries lie between each other.
use notification_system.Base.{String, true, Option, none, some, ◌≡◌, ◌≢◌, ◌⊎◌, refl}
use notification_system.Json.{Bytes}
use notification_system.Domain.{DeliveryLog}
use notification_system.Kafka.{Consumer}
use notification_system.Store.Tables.{Tables, NotificationRow, find_notification, find_log}
use notification_system.Store.Records.{find_notification-stays}
use notification_system.Worker.{Worker}
use notification_system.Worker.Interleaving.{Other}
use notification_system.Worker.Interleaving.{same as unchanged}
use notification_system.Worker.Interleaving.Owned.{Good, Good-Step}
use notification_system.Worker.Interleaving.Apart.{Step-Other}
use notification_system.Worker.Interleaving.Kept.{Step-keeps, Step-notifications, Step-owned}
use notification_system.Api.Request.{valid_channel}
use notification_system.Api.Handler.{Handler}
use notification_system.History.Laws.{HandlerQuiet, WorkerQuiet}
use notification_system.History.Sound.{Sound, worker-Keeps}
use notification_system.System.{Thread, request, delivery, owner, ThreadStep, moves, delivers}
use notification_system.System.Requests.{PhaseGood, Move-Sound}
use notification_system.System.Left.{Left, kept, put, Move-Left}
use notification_system.System.Phases.{Move-PhaseGood}

module _ {W : Type 0} (h : Handler W) (Runs : Worker W → Consumer W → Type 0)
    (cached : String → W → Option Bytes) (tables : W → Tables)
    (quiet : HandlerQuiet cached tables h)
    (all : (w : Worker W) (c : Consumer W) → Runs w c → WorkerQuiet cached tables w c)
    (t₀ : Tables) where
  -- A request is one for a channel, and knows what its phase says; the log of a delivery reads what
  -- its stage says.
  abbrev pub ThreadGood : Thread W → Tables → Type 0
  ThreadGood (request req s) t = (valid_channel req.channel ≡ true) × PhaseGood h req t₀ s t
  ThreadGood (delivery w n start s) t =
      (c : Consumer W) × (r : Runs w c) × Good w tables (all w c r).laws n s t

  -- Two threads do not own the same log.
  abbrev pub Apart : Thread W → Thread W → Type 0
  Apart a b = (id : String) → owner a ≡ some id → owner b ≢ some id

  -- A step from the world `x` to the world `y`, of a thread that becomes `t'`.
  pub record Steps (x y : W) (t t' : Thread W) : Type 0 where
    pub sound : Sound cached tables t₀ y
    pub good : ThreadGood t' (tables y)
    pub rows :
        (id : String) (r : NotificationRow)
        → find_notification id (tables x).notifications ≡ some r
        → find_notification id (tables y).notifications ≡ some r
    pub logs :
        (id : String) (r : DeliveryLog)
        → find_log id (tables x).delivery_logs ≡ some r
        → owner t ≢ some id
        → Other id (tables x) (tables y)
    pub fresh :
        (id : String)
        → owner t' ≡ some id
        → (owner t ≡ some id) ⊎ (find_log id (tables x).delivery_logs ≡ none)

  Left-rows :
      {t t' : Tables} (id : String) (r : NotificationRow)
      → Left t t'
      → find_notification id t.notifications ≡ some r
      → find_notification id t'.notifications ≡ some r
  Left-rows id r (kept e) f = rw e f
  Left-rows {t} id r (put n fresh e) f = rw e (find_notification-stays id t.notifications _ r f)

  pub Left-logs : {t t' : Tables} → Left t t' → t'.delivery_logs ≡ t.delivery_logs
  Left-logs (kept e) = rw e refl
  Left-logs (put n fresh e) = rw e refl

  pub ThreadStep-Steps :
      (x y : W) (t t' : Thread W)
      → ThreadStep h Runs x y t t'
      → Sound cached tables t₀ x
      → ThreadGood t (tables x)
      → Steps x y t t'
  ThreadStep-Steps x y t t' (moves {req} {s} {s'} m) k (valid, g) =
      let left = Move-Left h cached tables quiet req x y k.coherent s s' m in
      record {
        sound = Move-Sound h cached tables quiet req t₀ valid x y s s' m g k;
        good = (valid, Move-PhaseGood h cached tables quiet req t₀ x y k s s' m g);
        rows = λ id r f. Left-rows id r left f;
        logs = λ id r f o. unchanged (Left-logs left);
        fresh = λ id o. absurd (cc);
      }
  ThreadStep-Steps x y t t' (delivers {w} {n} {start} {s} {s'} m) k (c, r, g) =
      let q = all w c r in
      let same = Step-notifications w tables q.laws n start x y s s' m in
      record {
        sound =
            Step-keeps w (Sound cached tables t₀) (worker-Keeps cached tables t₀ w c q) n start x y
              s s' m k;
        good = (c, r, Good-Step w tables q.laws n start x y s s' m g);
        rows = λ id row f. rw same f;
        logs = λ id row f o. Step-Other w tables q.laws n start id row x y s s' m f o;
        fresh = λ id o. Step-owned w tables q.laws n start x y s s' id m o;
      }
