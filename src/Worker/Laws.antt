-- ===== src/Worker/Laws.antt =====
-- What the theorems about a worker assume of its surroundings: what one call does to the tables that
-- it finds.
use notification_system.Base.{ℕ, ◌<◌, ◌≡◌}
use notification_system.Domain.{Notification}
use notification_system.Runtime.{RuntimeLaws}
use notification_system.Store.Tables.{Tables}
use notification_system.Store.Contracts.{DeliveryLogLaws}
use notification_system.Worker.{Worker}

pub record WorkerLaws {W : Type 0} (w : Worker W) (tables : W → Tables) : Type 0 where
  pub log_repo : DeliveryLogLaws tables w.log_repo
  pub runtime : RuntimeLaws w.runtime tables
  pub wait_keeps : (d : ℕ) (x : W) → tables (w.context.wait d x).1 ≡ tables x
  pub send_keeps : (n : Notification) (x : W) → tables (w.sender.send n x).1 ≡ tables x
  pub tries : 0 < w.retry_cfg.max_attempts
