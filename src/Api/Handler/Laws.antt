-- ===== src/Api/Handler/Laws.antt =====
-- What the theorems about the handlers assume of the services behind them. They speak of a request
-- during which nothing else writes to the tables.
use notification_system.Base.{ℕ, String, Option, ◌≡◌, ◌≢◌, ◌⊎◌, none}
use notification_system.Json.{Bytes}
use notification_system.Runtime.{RuntimeLaws}
use notification_system.Store.Tables.{Tables}
use notification_system.Store.Contracts.{NotificationLaws}
use notification_system.Cache.Coherence.{CacheLaws}
use notification_system.Kafka.{Message}
use notification_system.Api.Handler.{Handler}

-- An operation on one key shows no value of another key that was not there.
abbrev pub Leaves : {W : Type 0} → (String → W → Option Bytes) → String → W → W → Type 0
Leaves cached key w x = (j : String) → j ≢ key → (cached j x ≡ cached j w) ⊎ (cached j x ≡ none)

pub record HandlerLaws {W : Type 0} (h : Handler W) (cached : String → W → Option Bytes)
    (tables : W → Tables) : Type 0 where
  pub cache : CacheLaws h.user_cache cached tables
  pub notif_repo : NotificationLaws tables h.notif_repo
  pub runtime : RuntimeLaws h.runtime tables
  pub producer_runtime : RuntimeLaws h.producer.runtime tables
  pub write_keeps :
      (m : Message) (w : W) → tables (h.producer.writer.write_messages m w).1 ≡ tables w
  pub incr_keeps : (key : String) (w : W) → tables (h.limiter.redis.incr key w).1 ≡ tables w
  pub expire_keeps :
      (key : String) (d : ℕ) (w : W) → tables (h.limiter.redis.expire key d w).1 ≡ tables w
  pub incr_leaves : (key : String) (w : W) → Leaves cached key w (h.limiter.redis.incr key w).1
  pub expire_leaves :
      (key : String) (d : ℕ) (w : W) → Leaves cached key w (h.limiter.redis.expire key d w).1
