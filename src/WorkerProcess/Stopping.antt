-- ===== src/WorkerProcess/Stopping.antt =====
-- After a signal the process ends.
use notification_system.Base.{ℕ, ◌<◌, Option, List, String, map, length, ◌≡◌, ◌⊎◌}
use notification_system.Failure.{Failure}
use notification_system.Effect.{Outcome, returns, panics}
use notification_system.Config
use notification_system.Store.Connection.{Pool}
use notification_system.Store.Opening
use notification_system.Store.Opening.Origin.{Made}
use notification_system.WorkerProcess.{Platform, Slot, Senders, End, died, exit}
use notification_system.WorkerProcess.Starting.{slot_for}
use notification_system.WorkerProcess.Turns.{count, AllDrain}

-- The process is over, by a panic or since `run` has returned.
abbrev pub Ended : {W : Type 0} → End × W → Type 0
Ended q = (q.0 ≡ died) ⊎ ((e : Option Failure) × (q.0 ≡ exit e))

module _ {W : Type 0} (Cancelled : W → Type 0) (left : W → ℕ) where
  -- The turns before the signal change no worker and no consumer.
  abbrev Kept : ℕ → Outcome (List (Slot W)) × W → Type 0
  Kept n (panics, y) = Unit {0}
  Kept n (returns ts, y) = AllDrain Cancelled left ts × (length ts ≡ n)

  -- What is assumed of the libraries: the signal cancels the context, and the readers of the workers
  -- come to report it.
  pub record StoppingLaws (p : Platform W) (senders : Senders W) : Type 0 where
    pub cancels : (x : W) → Cancelled (p.cancel x)
    pub drains :
        (db : Pool W) (address : String)
        → Made p.driver db
        → AllDrain Cancelled left (map (slot_for p address db) senders)

  -- With some number of turns for each of `n` workers, whatever their order, this holds.
  abbrev pub WithTurns : ℕ → (List ℕ → Type 0) → Type 0
  WithTurns n P =
      (turns : ℕ) × ((later : List ℕ) → ((i : ℕ) → i < n → turns < count i later) → P later)
