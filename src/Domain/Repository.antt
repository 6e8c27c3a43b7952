-- ===== src/Domain/Repository.antt =====
-- internal/domain/repository.go: the interfaces behind which the program sees the database. A method
-- does not panic. No code takes a `UserRepository`: the handlers take the cache itself (Cache.antt).
use notification_system.Base.{String, Bool, Option}
use notification_system.Failure.{Failure, Result}
use notification_system.Domain.{Notification, DeliveryLog, Status}

pub record NotificationRepository (W : Type 0) : Type 0 where
  pub save : Notification → W → Option Failure × W
  pub find_by_id : String → W → Result Notification × W
  pub update_status : String → Status → W → Option Failure × W

pub record DeliveryLogRepository (W : Type 0) : Type 0 where
  pub insert : DeliveryLog → W → Option Failure × W
  pub update_delivery_status : String → Status → String → W → Option Failure × W
  pub exists_sent : String → W → Result Bool × W
