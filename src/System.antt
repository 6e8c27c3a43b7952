-- ===== src/System.antt =====
-- The two processes at work at once: requests to internal/api/handler.go and deliveries of
-- internal/worker/worker.go whose steps lie between each other in any order.
pub mod Requests
pub mod Left
pub mod Phases
pub mod Good
pub mod Frames
pub mod Reached
pub mod Twice
pub mod Exclusive
pub mod Once
use notification_system.Base.{String, Option, none, some, List, [], ◌∷◌, ◌≡◌}
use notification_system.Failure.{Failure, ok, err}
use notification_system.Effect.{returns}
use notification_system.Json.{Bytes}
use notification_system.Domain.{Notification, Time}
use notification_system.Kafka.{Consumer, read_one}
use notification_system.Worker.{Worker}
use notification_system.Worker.Interleaving.{Stage, arrived, owned, Step}
use notification_system.Api.Request.{SendRequest}
use notification_system.Api.Handler.{Handler, get_notification_status}
use notification_system.Api.Handler.Outcomes.{IsValid}
use notification_system.Api.Handler.Interleaving.{Phase, received, Move}
use notification_system.Api.Handler.Interleaving.Alone
use notification_system.Api.Handler.Interleaving.Alone.{Moves, go}

-- A valid request, or the delivery of a notification that started at a time.
pub data Thread (W : Type 0) : Type 0 where
  request : SendRequest → Phase → Thread W
  delivery : Worker W → Notification → Time → Stage → Thread W

-- The log that a thread has inserted.
abbrev pub owner : {W : Type 0} → Thread W → Option String
owner (request req s) = none
owner (delivery w n start s) = owned s

-- `Runs w c`: the worker process runs the worker `w` with the consumer `c`.
module _ {W : Type 0} (h : Handler W) (Runs : Worker W → Consumer W → Type 0) where
  pub data ThreadStep (x y : W) : Thread W → Thread W → Type 0 where
    moves :
        {req : SendRequest} {s s' : Phase}
        → Move h req x y s s'
        → ThreadStep x y (request req s) (request req s')
    delivers :
        {w : Worker W} {n : Notification} {start : Time} {s s' : Stage}
        → Step w n start x y s s'
        → ThreadStep x y (delivery w n start s) (delivery w n start s')

  -- One of the threads makes a step.
  pub data Turn (x y : W) : List (Thread W) → List (Thread W) → Type 0 where
    first :
        {t t' : Thread W} {ts : List (Thread W)} → ThreadStep x y t t' → Turn x y (t ∷ ts) (t' ∷ ts)
    later :
        {t : Thread W} {ts ts' : List (Thread W)} → Turn x y ts ts' → Turn x y (t ∷ ts) (t ∷ ts')

  -- The threads and the world that are reached from `x`, where no thread is at work. A request whose
  -- body is not valid calls no service. A worker may start a delivery before its last one has ended,
  -- which it does not do.
  pub data Reach (x : W) : List (Thread W) → W → Type 0 where
    begin : Reach x [] x
    advance : {ts ts' : List (Thread W)} {u v : W} → Reach x ts u → Turn u v ts ts' → Reach x ts' v
    post :
        {ts : List (Thread W)} {u : W} {req : SendRequest} (body : Bytes)
        → Reach x ts u
        → IsValid body req
        → Reach x (request req received ∷ ts) u
    query :
        {ts : List (Thread W)} {u v : W} (id : String)
        → Reach x ts u
        → (get_notification_status h id u).1 ≡ v
        → Reach x ts v
    fetch :
        {ts : List (Thread W)} {u z v : W} {w : Worker W} {c : Consumer W} {n : Notification}
        {start : Time}
        → Reach x ts u
        → Runs w c
        → read_one c u ≡ (returns (ok n), z)
        → w.runtime.now z ≡ (start, v)
        → Reach x (delivery w n start arrived ∷ ts) v
    idle :
        {ts : List (Thread W)} {u v : W} {w : Worker W} {c : Consumer W} {e : Failure}
        → Reach x ts u
        → Runs w c
        → read_one c u ≡ (returns (err e), v)
        → Reach x ts v

  -- What a request does without interruption is reached.
  pub Reach-Moves :
      {x u : W} {ts : List (Thread W)} {req : SendRequest} {v : W} {s : Phase}
      → Reach x (request req received ∷ ts) u
      → Moves h req u s v
      → Reach x (request req s ∷ ts) v
  Reach-Moves r Alone.begin = r
  Reach-Moves r (go m step) = advance (Reach-Moves r m) (first (moves step))
