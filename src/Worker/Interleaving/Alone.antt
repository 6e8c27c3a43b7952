-- ===== src/Worker/Interleaving/Alone.antt =====
-- `process` is the steps of a delivery, one after the other.
use notification_system.Base.{String, Bool, true, false, Option, none, some, ◌≡◌, refl}
use notification_system.Failure.{Failure, Result, ok, err}
use notification_system.Effect.{Outcome, returns, panics, continue}
use notification_system.Domain.{Notification, Time}
use notification_system.Worker.{
  Worker, delivery_log, deliver, conclude, after_check, after_insert, attempt_delivery, process,
}
use notification_system.Worker.Interleaving.{
  Stage, arrived, unsent, logged, ended, Step, check, refuse, skip, log, lose, try, crash, fail,
  succeed,
}

-- Steps of one delivery with nothing in between.
pub data Steps {W : Type 0} (w : Worker W) (n : Notification) (start : Time) (x : W)
    : Stage → W → Type 0 where
  begin : Steps w n start x arrived x
  go :
      {s s' : Stage} {u v : W}
      → Steps w n start x s u
      → Step w n start u v s s'
      → Steps w n start x s' v

module _ {W : Type 0} (w : Worker W) (n : Notification) (start : Time) (x : W) where
  abbrev Reaches : Stage → W → Type 0
  Reaches = Steps w n start x

  -- The delivery has ended with that answer.
  abbrev Ends : Outcome (Option Failure) × W → Type 0
  Ends p = (mine : Option String) × Reaches (ended mine p.0) p.1

  from_tried :
      (id : String) (u : W) (p : Outcome (Option Failure) × W)
      → deliver w n u ≡ p
      → Reaches (logged id) u
      → Ends (continue (conclude w id start) p)
  unfolding conclude
  from_tried id u (returns (some e), v) h d =
      (some id, go (go d (try (some e) h)) (fail _ refl refl))
  from_tried id u (returns none, v) h d =
      (some id, go (go d (try none h)) (succeed _ _ refl refl refl))
  from_tried id u (panics, v) h d = (some id, go d (crash h))

  from_logged :
      (id : String) (u : W) → Reaches (logged id) u → Ends (after_insert w start n id none u)
  unfolding after_insert
  from_logged id u d = from_tried id u (deliver w n u) refl d

  from_inserted :
      (u : W) (d : Reaches unsent u)
      → let (id, u1) = w.runtime.new_string u in
        let (at, u2) = w.runtime.now u1 in
        (reply : Option Failure) (v : W)
        → w.log_repo.insert (delivery_log w id n at) u2 ≡ (reply, v)
        → Ends (after_insert w start n id reply v)
  unfolding after_insert
  from_inserted u d none v h = from_logged _ v (go d (log _ _ _ _ refl refl h))
  from_inserted u d (some e) v h = (none, go d (lose _ _ _ _ e refl refl h))

  from_unsent : (u : W) → Reaches unsent u → Ends (attempt_delivery w start n u)
  unfolding attempt_delivery
  from_unsent u d = from_inserted u d _ _ refl

  from_check :
      (u : W) (reply : Result Bool) (v : W)
      → Reaches arrived u
      → w.log_repo.exists_sent n.id u ≡ (reply, v)
      → Ends (after_check w start n reply v)
  unfolding after_check
  from_check u (err e) v d h = (none, go d (refuse e h))
  from_check u (ok true) v d h = (none, go d (skip h refl))
  from_check u (ok false) v d h = from_unsent v (go d (check h))

-- What `process` does without interruption is the steps of one delivery, which write out what each
-- answer of the store and of the provider leads to: they go from the arrival, after the clock was
-- read, to the end with the answer of `process` in the world that it leaves.
pub process-Steps :
    {W : Type 0} (w : Worker W) (n : Notification) (x : W)
    → let (start, y) = w.runtime.now x in
      let (r, z) = process w n x in (mine : Option String) × Steps w n start y (ended mine r) z
unfolding process
process-Steps w n x = let (start, y) = w.runtime.now x in from_check w n start y y _ _ begin refl
