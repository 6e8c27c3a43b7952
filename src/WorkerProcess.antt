-- ===== src/WorkerProcess.antt =====
-- cmd/worker/main.go: the worker process, from its start to its shutdown.
pub mod Starting
pub mod Turns
pub mod Stopping
use notification_system.Base.{
  ℕ, zero, suc, String, Bool, true, false, not, ◌||◌, Option, none, some, List, [], ◌∷◌, ◌<>◌,
  if◌then◌else◌,
}
use notification_system.Failure.{Failure, Result, ok, err, wrap}
use notification_system.Effect.{Outcome, returns, panics, Exec, pure, call, ◌>>=◌}
use notification_system.Domain.{Channel}
use notification_system.Json.{TimeFormat}
use notification_system.Runtime.{Runtime}
use notification_system.Retry.{Context}
use notification_system.Config
use notification_system.Config.{KafkaConfig, load}
use notification_system.Kafka.{Broker, ReaderConfig, Consumer, new_consumer}
use notification_system.Sender.{Sender, apns_sender, fcm_sender, sms_sender, email_sender}
use notification_system.Store.{delivery_logs}
use notification_system.Store.Connection.{Pool}
use notification_system.Store.Opening
use notification_system.Store.Opening.{Driver}
use notification_system.Worker
use notification_system.Worker.{Worker, new_worker}

-- What the process takes from the libraries; `cancel` is `cancelWorkers`, and `context` the context
-- that it ends.
pub record Platform (W : Type 0) : Type 0 where
  pub getenv : String → String
  pub parse_duration : String → Option ℕ
  pub driver : Driver W
  pub runtime : Runtime W
  pub formats : TimeFormat
  pub context : Context W
  pub open_reader : ReaderConfig → Broker W
  pub close_reader : Broker W → W → Option Failure × W
  pub cancel : W → W

-- A worker with its consumer; `live` until its `Run` has returned.
pub record Slot (W : Type 0) : Type 0 where
  pub worker : Worker W
  pub consumer : Consumer W
  pub live : Bool

-- The senders by channel. The map has no order: a run goes through it in any.
abbrev pub Senders : Type 0 → Type 0
Senders W = List (Channel × Sender W)

abbrev pub all_senders : {W : Type 0} → Senders W
all_senders =
    ("ios", apns_sender)
    ∷ ("android", fcm_sender)
    ∷ ("sms", sms_sender)
    ∷ ("email", email_sender)
    ∷ []

module _ {W : Type 0} where
  -- A round of the loop of the worker at that place, if it is there and live.
  pub turn : ℕ → List (Slot W) → Exec W (List (Slot W))
  turn i [] = pure []
  turn zero (s ∷ ss) =
      if s.live
      then Worker.run s.worker 1 s.consumer
        >>= (λ stopped. pure (record s { live = not stopped } ∷ ss))
      else pure (s ∷ ss)
  turn (suc i) (s ∷ ss) = turn i ss >>= λ ts. pure (s ∷ ts)

  -- The goroutines take turns in any order. A panic in one of them ends the process.
  pub play : List ℕ → List (Slot W) → Exec W (List (Slot W))
  play [] ss = pure ss
  play (i ∷ is) ss = turn i ss >>= play is

  pub any_live : List (Slot W) → Bool
  any_live [] = false
  any_live (s ∷ ss) = s.live || any_live ss

-- The process died by a panic, still waits for a worker, or `run` has returned.
pub data End : Type 0 where
  died : End
  waiting : End
  exit : Option Failure → End

-- The status of the process once it is over; a panic ends it with 2.
abbrev pub exit_status : End → Option ℕ
exit_status died = some 2
exit_status waiting = none
exit_status (exit none) = some 0
exit_status (exit (some e)) = some 1

module _ {W : Type 0} (p : Platform W) where
  -- The loop that creates the workers. They start at once; their turns are all put behind the loop,
  -- which touches nothing of what they use.
  pub start : KafkaConfig → Pool W → Senders W → Result (List (Slot W))
  start cfg db [] = ok []
  start cfg db ((channel, sender) ∷ rest) =
      elim (new_consumer p.open_reader p.formats cfg channel) [
        | err e ↦ err (wrap ("create consumer for " <> channel) e)
        | ok consumer ↦ elim (start cfg db rest) [
          | err e ↦ err e
          | ok slots ↦ ok (
              record {
                worker = new_worker p.runtime (delivery_logs db) p.context sender;
                consumer = consumer;
                live = true;
              }
              ∷ slots)
        ]
      ]

  -- An error of a `Close` is only logged.
  pub close_all : List (Slot W) → W → W
  close_all [] w = w
  close_all (s ∷ ss) w = close_all ss (p.close_reader s.consumer.reader w).1

  -- The deferred calls: the context is cancelled, also a second time, and the pool is closed.
  pub deferred : Pool W → W → W
  deferred db w = p.driver.close db (p.cancel w)

  -- `wg.Wait()` returns when no worker is live.
  pub after_wait : Pool W → Outcome (List (Slot W)) × W → End × W
  after_wait db (panics, w) = (died, w)
  after_wait db (returns ss, w) =
      if any_live ss then (waiting, w) else (exit none, deferred db (close_all ss w))

  -- The turns until the signal are over: the workers are cancelled and take the turns `later`.
  pub after_signal : Pool W → List ℕ → Outcome (List (Slot W)) × W → End × W
  after_signal db later (panics, w) = (died, w)
  after_signal db later (returns ss, w) = after_wait db (play later ss (p.cancel w))

  pub after_start : Pool W → List ℕ → List ℕ → Result (List (Slot W)) → W → End × W
  after_start db early later (err e) w = (exit (some e), deferred db w)
  after_start db early later (ok slots) w = after_signal db later (play early slots w)

  pub after_connect :
      Config.Config → Senders W → List ℕ → List ℕ → Outcome (Result (Pool W)) × W → End × W
  after_connect cfg senders early later (panics, w) = (died, w)
  after_connect cfg senders early later (returns (err e), w) =
      (exit (some (wrap "connect to postgres" e)), w)
  after_connect cfg senders early later (returns (ok db), w) =
      after_start db early later (start cfg.kafka db senders) w

  pub after_load : Result Config.Config → Senders W → List ℕ → List ℕ → W → End × W
  after_load (err e) senders early later w = (exit (some (wrap "load config" e)), w)
  after_load (ok cfg) senders early later w =
      after_connect cfg senders early later (Opening.new p.driver cfg.postgres w)

  -- `early` and `later` are the turns of the workers before and after the signal.
  pub run : Senders W → List ℕ → List ℕ → W → End × W
  run = after_load (load p.getenv p.parse_duration)

  unfoldable pub main : Senders W → List ℕ → List ℕ → W → Option ℕ × W
  main senders early later w = let (e, x) = run senders early later w in (exit_status e, x)
