-- ===== src/Server/Laws.antt =====
-- What the theorems about the server process assume of the libraries: which calls open a connection
-- and which close one.
use notification_system.Base.{ℕ, ◌+◌, ◌-◌, String, ◌≡◌}
use notification_system.Failure.{Failure, ok, err}
use notification_system.Config.{RedisConfig}
use notification_system.Kafka.{Broker}
use notification_system.Redis.{Redis}
use notification_system.Store.Connection.{Pool}
use notification_system.Store.Tables.{Statement}
use notification_system.Store.Opening.{PoolConfig}
use notification_system.Server.{Platform, HttpServer}

-- How many pools, clients of Redis and writers of Kafka are open.
pub record Held : Type 0 where
  pub pools : ℕ
  pub clients : ℕ
  pub writers : ℕ

-- No statement that the pool runs opens or closes a connection.
abbrev pub IsSteady : {W : Type 0} → (W → Held) → Pool W → Type 0
IsSteady {W} held pool = (s : Statement) (w : W) → held (pool.exec s w).1 ≡ held w

pub record PlatformLaws {W : Type 0} (p : Platform W) (held : W → Held) : Type 0 where
  pub pool_opened :
      (c : PoolConfig) (w : W) (pool : Pool W)
      → (p.driver.new_with_config c w).0 ≡ ok pool
      → held (p.driver.new_with_config c w).1 ≡ record (held w) { pools = (held w).pools + 1 }
  pub pool_refused :
      (c : PoolConfig) (w : W) (e : Failure)
      → (p.driver.new_with_config c w).0 ≡ err e
      → held (p.driver.new_with_config c w).1 ≡ held w
  pub pool_closed :
      (pool : Pool W) (w : W)
      → held (p.driver.close pool w) ≡ record (held w) { pools = (held w).pools - 1 }
  pub pool_ping : (pool : Pool W) (w : W) → held (p.driver.ping pool w).1 ≡ held w
  pub pool_steady :
      (c : PoolConfig) (w : W) (pool : Pool W)
      → (p.driver.new_with_config c w).0 ≡ ok pool
      → IsSteady held pool
  pub client_opened :
      (c : RedisConfig) (w : W)
      → held (p.new_client c w).1 ≡ record (held w) { clients = (held w).clients + 1 }
  pub client_closed :
      (rdb : Redis W) (w : W)
      → held (p.close_redis rdb w) ≡ record (held w) { clients = (held w).clients - 1 }
  pub client_ping : (rdb : Redis W) (w : W) → held (p.ping_redis rdb w).1 ≡ held w
  pub writer_opened :
      (addr : String) (w : W)
      → held (p.new_writer addr w).1 ≡ record (held w) { writers = (held w).writers + 1 }
  pub writer_closed :
      (writer : Broker W) (w : W)
      → held (p.close_writer writer w) ≡ record (held w) { writers = (held w).writers - 1 }
  pub listen_keeps : (s : HttpServer W) (w : W) → held (p.listen s w).1 ≡ held w
  pub shutdown_keeps : (s : HttpServer W) (w : W) → held (p.shutdown s w).1 ≡ held w
