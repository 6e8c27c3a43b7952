-- ===== src/History.antt =====
-- The two processes together: requests to internal/api/handler.go and rounds of the workers of
-- internal/worker/worker.go, one after the other in any order.
pub mod Laws
pub mod Typed
pub mod Sound
use notification_system.Base.{ℕ, zero, suc, String, List, [], ◌∷◌}
use notification_system.Json.{Bytes}
use notification_system.Kafka.{Consumer}
use notification_system.Worker
use notification_system.Worker.{Worker}
use notification_system.Api.Handler.{Handler, send_notification, get_notification_status}

-- POST with a body, GET with an identifier, or a round of the worker at that place.
pub data Event : Type 0 where
  posted : Bytes → Event
  queried : String → Event
  round : ℕ → Event

module _ {W : Type 0} where
  pub round_of : ℕ → List (Worker W × Consumer W) → W → W
  round_of i [] x = x
  round_of zero ((w, c) ∷ ws) x = (Worker.run w 1 c x).1
  round_of (suc i) (v ∷ ws) x = round_of i ws x

module _ {W : Type 0} (h : Handler W) (workers : List (Worker W × Consumer W)) where
  pub happen : Event → W → W
  happen (posted body) x = (send_notification h body x).1
  happen (queried id) x = (get_notification_status h id x).1
  happen (round i) x = round_of i workers x

  pub history : List Event → W → W
  history [] x = x
  history (e ∷ es) x = history es (happen e x)
