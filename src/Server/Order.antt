-- ===== src/Server/Order.antt =====
-- The server listens only when everything it needs is open.
use mathlib.Core.Path.{fun_ext}
use notification_system.Base.{◌+◌, Option, none, some, ◌≡◌, refl, ap, ◌∙◌, Option-cases, inl, inr}
use notification_system.Failure.{Failure, Result, ok, err}
use notification_system.Effect.{◌>>=◌}
use notification_system.Config
use notification_system.Config.{load}
use notification_system.Redis.{Redis}
use notification_system.Store.{migrate}
use notification_system.Store.Connection.{Pool}
use notification_system.Store.Opening
use notification_system.Store.Opening.{PoolConfig}
use notification_system.Server.{
  Stop, HttpServer, Platform, server_of, handler_of, listen_failed, closed, signalled, after_listen,
  serve, after_redis_ping, after_migrate, after_connect, after_load, run,
}
use notification_system.Server.Laws.{Held, IsSteady, PlatformLaws}
use notification_system.Server.Release.{migrate-keeps}

-- One more pool, one more client and one more writer than in `h` are open.
abbrev pub IsReady : {W : Type 0} → (W → Held) → Held → W → Type 0
IsReady held h x =
    held x ≡ record { pools = h.pools + 1; clients = h.clients + 1; writers = h.writers + 1 }

module _ {W : Type 0} (p : Platform W) (held : W → Held) (laws : PlatformLaws p held) (h : Held)
    (other : HttpServer W → W → Stop × W) where
  -- The same platform with another `listen`.
  abbrev pub swapped : Platform W
  swapped = record p { listen = other }

  module _ (agree : (s : HttpServer W) (x : W) → IsReady held h x → other s x ≡ p.listen s x) where
    after_listen-swapped :
        (server : HttpServer W) (s : Stop) → after_listen swapped server s ≡ after_listen p server s
    unfolding after_listen
    after_listen-swapped server (listen_failed e) = refl
    after_listen-swapped server closed = refl
    after_listen-swapped server signalled = refl

    serve-swapped :
        (cfg : Config.Config) (db : Pool W) (rdb : Redis W) (w : W)
        → held w ≡ record h { pools = h.pools + 1; clients = h.clients + 1 }
        → serve swapped cfg db rdb w ≡ serve p cfg db rdb w
    unfolding serve
    serve-swapped cfg db rdb w k =
        let (writer, x) = p.new_writer cfg.kafka.broker_addr w in
        let server = server_of p cfg (handler_of p cfg db rdb writer) in
        let ready : IsReady held h x = laws.writer_opened cfg.kafka.broker_addr w ∙ (rw k refl) in
        rw (agree server x ready, fun_ext (after_listen-swapped server)) refl

    after_migrate-swapped :
        (cfg : Config.Config) (db : Pool W) (m : Option Failure) (w : W)
        → held w ≡ record h { pools = h.pools + 1 }
        → after_migrate swapped cfg db m w ≡ after_migrate p cfg db m w
    unfolding after_migrate after_redis_ping
    after_migrate-swapped cfg db (some e) w k = refl
    after_migrate-swapped cfg db none w k =
        let (rdb, x) = p.new_client cfg.redis w in
        let y = (p.ping_redis rdb x).1 in
        let opened : held y ≡ record h { pools = h.pools + 1; clients = h.clients + 1 } =
          laws.client_ping rdb x ∙ (laws.client_opened cfg.redis w ∙ (rw k refl)) in
        elim (Option-cases (p.ping_redis rdb x).0) [
          | inl e ↦
              rw e (ap (λ q. (q.0, p.close_redis rdb q.1)) (serve-swapped cfg db rdb y opened))
          | inr (f, e) ↦ rw e refl
        ]

    connected-swapped :
        (cfg : Config.Config) (db : Pool W) (w : W)
        → IsSteady held db
        → held w ≡ record h { pools = h.pools + 1 }
        → after_connect swapped cfg (ok db) w ≡ after_connect p cfg (ok db) w
    unfolding after_connect migrate
    connected-swapped cfg db w steady k =
        let x = (migrate db w).1 in
        ap (λ q. (q.0, p.driver.close db q.1))
          (after_migrate-swapped cfg db _ x (migrate-keeps p held laws db steady w ∙ k))

    created-swapped :
        (cfg : Config.Config) (r : Result (Pool W)) (w : W)
        → ((db : Pool W) → r ≡ ok db → held w ≡ record h { pools = h.pools + 1 })
        → ((db : Pool W) → r ≡ ok db → IsSteady held db)
        → (Opening.after_create p.driver r >>= after_connect swapped cfg) w
          ≡ (Opening.after_create p.driver r >>= after_connect p cfg) w
    unfolding Opening.after_create
    created-swapped cfg (err e) w good steady = unfold after_connect in refl
    created-swapped cfg (ok db) w good steady =
        let opened = laws.pool_ping db w ∙ good db refl in
        elim (Option-cases (p.driver.ping db w).0) [
          | inl e ↦ rw e (connected-swapped cfg db _ (steady db refl) opened)
          | inr (f, e) ↦ rw e (unfold after_connect in refl)
        ]

    parsed-swapped :
        (cfg : Config.Config) (r : Result PoolConfig) (w : W)
        → held w ≡ h
        → (Opening.after_parse p.driver cfg.postgres r >>= after_connect swapped cfg) w
          ≡ (Opening.after_parse p.driver cfg.postgres r >>= after_connect p cfg) w
    unfolding Opening.after_parse
    parsed-swapped cfg (err e) w k = unfold after_connect in refl
    parsed-swapped cfg (ok c) w k =
        created-swapped cfg _ _ (λ db e. laws.pool_opened _ w db e ∙ (rw k refl))
          (λ db. laws.pool_steady _ w db)

-- The server listens only where its pool, its client of Redis and its writer of Kafka are all open,
-- each once more than at the start: with another `listen` that agrees in those worlds, the whole
-- run is the same.
pub run-swapped :
    {W : Type 0} (p : Platform W) (held : W → Held)
    → PlatformLaws p held
    → (other : HttpServer W → W → Stop × W) (w : W)
    → ((s : HttpServer W) (x : W) → IsReady held (held w) x → other s x ≡ p.listen s x)
    → run (record p { listen = other }) w ≡ run p w
unfolding run after_load load Opening.new
run-swapped p held laws other w agree = parsed-swapped p held laws (held w) other agree _ _ w refl
