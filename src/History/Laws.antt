-- ===== src/History/Laws.antt =====
-- What a history assumes: nothing but the cache changes an entry of it, and nothing else writes to the
-- tables.
use notification_system.Base.{ℕ, String, Option, List, [], ◌∷◌, ◌≡◌}
use notification_system.Json.{Bytes}
use notification_system.Domain.{Notification, DeliveryLog, Status}
use notification_system.Runtime.{RuntimeLaws}
use notification_system.Kafka.{Consumer, Message}
use notification_system.Store.Tables.{Tables}
use notification_system.Worker.{Worker}
use notification_system.Worker.Laws.{WorkerLaws}
use notification_system.Api.Handler.{Handler}
use notification_system.Api.Handler.Laws.{HandlerLaws}

-- The cache of a world, as a function of the key.
abbrev pub shown : {W : Type 0} → (String → W → Option Bytes) → W → String → Option Bytes
shown cached x key = cached key x

module _ {W : Type 0} (cached : String → W → Option Bytes) (tables : W → Tables) where
  -- Besides what its laws say, nothing that the handler uses but the cache changes an entry of it.
  pub record HandlerQuiet (h : Handler W) : Type 0 where
    pub laws : HandlerLaws h cached tables
    pub runtime : RuntimeLaws h.runtime (shown cached)
    pub stamp : (x : W) → shown cached (h.producer.runtime.now x).1 ≡ shown cached x
    pub write :
        (m : Message) (x : W)
        → shown cached (h.producer.writer.write_messages m x).1 ≡ shown cached x
    pub save : (n : Notification) (x : W) → shown cached (h.notif_repo.save n x).1 ≡ shown cached x
    pub find :
        (id : String) (x : W) → shown cached (h.notif_repo.find_by_id id x).1 ≡ shown cached x

  pub record WorkerQuiet (w : Worker W) (c : Consumer W) : Type 0 where
    pub laws : WorkerLaws w tables
    pub runtime : RuntimeLaws w.runtime (shown cached)
    pub insert :
        (log : DeliveryLog) (x : W) → shown cached (w.log_repo.insert log x).1 ≡ shown cached x
    pub update :
        (id : String) (status : Status) (message : String) (x : W)
        → shown cached (w.log_repo.update_delivery_status id status message x).1 ≡ shown cached x
    pub exists_sent :
        (id : String) (x : W) → shown cached (w.log_repo.exists_sent id x).1 ≡ shown cached x
    pub wait : (d : ℕ) (x : W) → shown cached (w.context.wait d x).1 ≡ shown cached x
    pub send : (n : Notification) (x : W) → shown cached (w.sender.send n x).1 ≡ shown cached x
    pub read : (x : W) → shown cached (c.reader.read_message x).1 ≡ shown cached x
    pub read_keeps : (x : W) → tables (c.reader.read_message x).1 ≡ tables x

  abbrev pub AllQuiet : List (Worker W × Consumer W) → Type 0
  AllQuiet [] = Unit
  AllQuiet ((w, c) ∷ ws) = WorkerQuiet w c × AllQuiet ws
