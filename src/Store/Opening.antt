-- ===== src/Store/Opening.antt =====
-- internal/store/postgres.go: New and Close. The driver (pgxpool) is a parameter.
pub mod Limits
pub mod Origin
use notification_system.Base.{ℕ, ◌-◌, ◌%◌, ◌^◌, String, Option, none, some, ltb, if◌then◌else◌}
use notification_system.Failure.{Failure, Result, ok, err, wrap}
use notification_system.Effect.{Exec, pure, call, ◌>>=◌}
use notification_system.Config.{ℤ, pos, negsuc, PostgresConfig}
use notification_system.Store.Connection.{Pool}

-- The fields of a `pgxpool.Config` that the program sets, beside the text it was parsed from.
pub record PoolConfig : Type 0 where
  pub dsn : String
  pub max_conns : ℤ
  pub min_conns : ℤ
  pub max_conn_lifetime : ℕ

pub record Driver (W : Type 0) : Type 0 where
  pub parse_config : String → Result PoolConfig
  pub new_with_config : PoolConfig → W → Result (Pool W) × W
  pub ping : Pool W → W → Option Failure × W
  pub close : Pool W → W → W

-- The conversion `int32(z)` of an `int` keeps the low 32 bits.
low_bits : ℤ → ℕ
low_bits (pos n) = n % 2 ^ 32
low_bits (negsuc n) = 2 ^ 32 - 1 - n % 2 ^ 32

unfoldable pub int32 : ℤ → ℤ
unfolding low_bits
int32 z = let b = low_bits z in if ltb b (2 ^ 31) then pos b else negsuc (2 ^ 32 - 1 - b)

abbrev pub pool_config : PostgresConfig → PoolConfig → PoolConfig
pool_config cfg parsed = record parsed {
  max_conns = int32 cfg.max_open_conns;
  min_conns = int32 cfg.max_idle_conns;
  max_conn_lifetime = cfg.conn_max_lifetime;
}

module _ {W : Type 0} (driver : Driver W) where
  -- Where the ping fails the pool stays open.
  unfoldable pub after_create : Result (Pool W) → Exec W (Result (Pool W))
  after_create (err e) = pure (err (wrap "store: create pool" e))
  after_create (ok pool) =
      call (driver.ping pool)
      >>= elim [ some e ↦ pure (err (wrap "store: ping database" e)) | none ↦ pure (ok pool) ]

  unfoldable pub after_parse : PostgresConfig → Result PoolConfig → Exec W (Result (Pool W))
  after_parse cfg (err e) = pure (err (wrap "store: parse DSN" e))
  after_parse cfg (ok parsed) =
      call (driver.new_with_config (pool_config cfg parsed)) >>= after_create

  unfoldable pub new : PostgresConfig → Exec W (Result (Pool W))
  new cfg = after_parse cfg (driver.parse_config cfg.dsn)
