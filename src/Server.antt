-- ===== src/Server.antt =====
-- cmd/server/main.go: the API server, from its start to its shutdown.
pub mod Laws
pub mod Release
pub mod Order
use notification_system.Base.{ℕ, ◌*◌, String, Option, none, some, List, ◌<>◌}
use notification_system.Failure.{Failure, Result, ok, err, wrap}
use notification_system.Effect.{Outcome, returns, panics, Exec, pure, call, defer, ◌>>=◌}
use notification_system.Domain.{Time}
use notification_system.Json.{TimeFormat}
use notification_system.Runtime.{Runtime}
use notification_system.Redis.{Redis}
use notification_system.Config
use notification_system.Config.{ServerConfig, RedisConfig, load}
use notification_system.Kafka.{Broker, Producer, new_producer}
use notification_system.RateLimit.{Limiter, new_limiter}
use notification_system.Cache.{UserCache, new_user_cache}
use notification_system.Store.{migrate, notifications}
use notification_system.Store.Connection.{Pool}
use notification_system.Store.Opening
use notification_system.Store.Opening.{Driver}
use notification_system.Api.Handler.{Handler, new_handler}
use notification_system.Api.Middleware.{Serve, new_router}

-- Why the `select` at the end of `run` goes on: `ListenAndServe` failed, or returned because the
-- server was closed, or a signal came.
pub data Stop : Type 0 where
  listen_failed : Failure → Stop
  closed : Stop
  signalled : Stop

-- The fields of the `http.Server`.
pub record HttpServer (W : Type 0) : Type 0 where
  pub addr : String
  pub handler : Serve W
  pub read_timeout : ℕ
  pub write_timeout : ℕ

-- What the process takes from the libraries. `listen` serves requests until one of the three
-- events; of two that are ready the `select` takes either, which is left to it.
pub record Platform (W : Type 0) : Type 0 where
  pub getenv : String → String
  pub parse_duration : String → Option ℕ
  pub driver : Driver W
  pub new_client : RedisConfig → W → Redis W × W
  pub ping_redis : Redis W → W → Option Failure × W
  pub close_redis : Redis W → W → W
  pub new_writer : String → W → Broker W × W
  pub close_writer : Broker W → W → W
  pub runtime : Runtime W
  pub formats : TimeFormat
  pub rfc3339 : Time → String
  pub mount : List (String × String × Serve W) → Serve W
  pub metrics : Serve W
  pub listen : HttpServer W → W → Stop × W
  pub shutdown : HttpServer W → W → Option Failure × W

abbrev hour : ℕ
hour = 3600 * 1000000000

-- The status of the process: a panic ends it with 2.
abbrev pub exit_status : Outcome (Option Failure) → ℕ
exit_status (returns none) = 0
exit_status (returns (some e)) = 1
exit_status panics = 2

module _ {W : Type 0} (p : Platform W) where
  -- The handler and everything below it.
  abbrev pub handler_of : Config.Config → Pool W → Redis W → Broker W → Handler W
  handler_of cfg db rdb writer =
      new_handler (new_producer writer p.runtime p.formats cfg.kafka)
        (new_user_cache rdb db cfg.redis.cache_ttl) (notifications db) (new_limiter rdb 100 hour)
        p.runtime p.rfc3339

  abbrev pub server_of : Config.Config → Handler W → HttpServer W
  server_of cfg h = record {
    addr = ":" <> cfg.server.port;
    handler = new_router p.mount h p.metrics;
    read_timeout = cfg.server.read_timeout;
    write_timeout = cfg.server.write_timeout;
  }

  -- The `select`, and the shutdown after a signal.
  pub after_listen : HttpServer W → Stop → Exec W (Option Failure)
  after_listen server (listen_failed e) = pure (some (wrap "server listen" e))
  after_listen server closed = pure none
  after_listen server signalled =
      call (p.shutdown server)
      >>= elim [ some e ↦ pure (some (wrap "graceful shutdown" e)) | none ↦ pure none ]

  pub serve : Config.Config → Pool W → Redis W → Exec W (Option Failure)
  serve cfg db rdb = call (p.new_writer cfg.kafka.broker_addr) >>= λ writer.
      let server = server_of cfg (handler_of cfg db rdb writer) in
      defer (p.close_writer writer) (call (p.listen server) >>= after_listen server)

  -- A client that does not answer is not closed.
  pub after_redis_ping : Config.Config → Pool W → Redis W → Option Failure → Exec W (Option Failure)
  after_redis_ping cfg db rdb (some e) = pure (some (wrap "connect to redis" e))
  after_redis_ping cfg db rdb none = defer (p.close_redis rdb) (serve cfg db rdb)

  pub after_migrate : Config.Config → Pool W → Option Failure → Exec W (Option Failure)
  after_migrate cfg db (some e) = pure (some (wrap "run migrations" e))
  after_migrate cfg db none = call (p.new_client cfg.redis) >>= λ rdb.
      call (p.ping_redis rdb) >>= after_redis_ping cfg db rdb

  pub after_connect : Config.Config → Result (Pool W) → Exec W (Option Failure)
  after_connect cfg (err e) = pure (some (wrap "connect to postgres" e))
  after_connect cfg (ok db) = defer (p.driver.close db) (call (migrate db) >>= after_migrate cfg db)

  pub after_load : Result Config.Config → Exec W (Option Failure)
  after_load (err e) = pure (some (wrap "load config" e))
  after_load (ok cfg) = Opening.new p.driver cfg.postgres >>= after_connect cfg

  unfoldable pub run : Exec W (Option Failure)
  run = after_load (load p.getenv p.parse_duration)

  unfoldable pub main : W → ℕ × W
  main w = let (r, x) = run w in (exit_status r, x)
