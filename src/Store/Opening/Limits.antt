-- ===== src/Store/Opening/Limits.antt =====
-- The numbers of connections on the way from the configuration to the pool.
use notification_system.Base.{◌<◌, ◌^◌, ◌≡◌, ◌↔◌, arith}
use notification_system.Config.{ℤ, pos, negsuc, PostgresConfig}
use notification_system.Store.Opening.{int32, pool_config, PoolConfig}

-- The numbers of 32 bits with sign.
abbrev pub Fits : ℤ → Type 0
Fits (pos n) = n < 2 ^ 31
Fits (negsuc n) = n < 2 ^ 31

int32-Fits : (z : ℤ) → Fits (int32 z) × ((int32 z ≡ z) ↔ Fits z)
unfolding int32
int32-Fits (pos n) = (ground arith, (λ h. ground arith, λ h. ground arith))
int32-Fits (negsuc n) = (ground arith, (λ h. ground arith, λ h. ground arith))

-- Both limits of the pool that `New` asks for fit 32 bits, and each is the configured number
-- exactly where that fits; any other becomes a different number with no error.
pub pool_config-Fits :
    (cfg : PostgresConfig) (parsed : PoolConfig)
    → let p = pool_config cfg parsed in
      (Fits p.max_conns × ((p.max_conns ≡ cfg.max_open_conns) ↔ Fits cfg.max_open_conns))
      × (Fits p.min_conns × ((p.min_conns ≡ cfg.max_idle_conns) ↔ Fits cfg.max_idle_conns))
pool_config-Fits cfg parsed = (int32-Fits cfg.max_open_conns, int32-Fits cfg.max_idle_conns)
