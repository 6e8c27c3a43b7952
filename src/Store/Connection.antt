-- ===== src/Store/Connection.antt =====
-- The connection pool (pgxpool, not in the repository) as the store uses it: `exec` runs a
-- statement, and each query is `QueryRow` with its `Scan`.
use notification_system.Base.{String, Bool, Option}
use notification_system.Failure.{Failure, Result}
use notification_system.Domain.{Notification, User, UserPreferences}
use notification_system.Store.Tables.{Statement}

pub record Pool (W : Type 0) : Type 0 where
  pub exec : Statement → W → Option Failure × W
  pub query_notification : String → W → Result Notification × W
  pub query_exists_sent : String → W → Result Bool × W
  pub query_user : String → W → Result User × W
  pub query_preferences : String → W → Result UserPreferences × W
