-- ===== src/Store/Opening/Origin.antt =====
-- Where the pool that `New` returns comes from.
use notification_system.Base.{◌≡◌, Option-cases, inl, inr}
use notification_system.Failure.{Result, ok, err}
use notification_system.Effect.{returns}
use notification_system.Config.{PostgresConfig}
use notification_system.Store.Connection.{Pool}
use notification_system.Store.Opening.{
  PoolConfig, Driver, pool_config, after_create, after_parse, new,
}

module _ {W : Type 0} (driver : Driver W) where
  -- The driver made that pool.
  pub record Made (db : Pool W) : Type 0 where
    pub config : PoolConfig
    pub world : W
    pub made : (driver.new_with_config config world).0 ≡ ok db

  after_create-ok :
      (r : Result (Pool W)) (w y : W) (db : Pool W)
      → after_create driver r w ≡ (returns (ok db), y)
      → r ≡ ok db
  unfolding after_create
  after_create-ok (err e) w y db h = absurd (cc)
  after_create-ok (ok pool) w y db h = elim (Option-cases (driver.ping pool w).0) [
    | inl e ↦ cc (rw e at h)
    | inr (f, e) ↦ absurd (cc (rw e at h))
  ]

  after_parse-Made :
      (cfg : PostgresConfig) (r : Result PoolConfig) (w y : W) (db : Pool W)
      → after_parse driver cfg r w ≡ (returns (ok db), y)
      → Made db
  unfolding after_parse
  after_parse-Made cfg (err e) w y db h = absurd (cc)
  after_parse-Made cfg (ok c) w y db h = record {
    config = pool_config cfg c;
    world = w;
    made = after_create-ok _ _ y db h;
  }

  pub new-Made :
      (cfg : PostgresConfig) (w y : W) (db : Pool W)
      → new driver cfg w ≡ (returns (ok db), y)
      → Made db
  unfolding new
  new-Made cfg w = after_parse-Made cfg (driver.parse_config cfg.dsn) w
