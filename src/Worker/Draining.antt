-- ===== src/Worker/Draining.antt =====
-- A round of the loop of `Run` in a context that is cancelled.
use notification_system.Base.{
  ℕ, ◌<◌, ◌≤◌, Bool, true, false, Option, ◌≡◌, refl, inl, inr, arith, Option-cases, Bool-cases, ap,
  ◌⊎◌, ◌<>◌, if◌then◌else◌,
}
use notification_system.Failure.{Failure, Result, ok, err, wrap, is, canceled}
use notification_system.Effect.{Outcome, returns, panics, continue, pure}
use notification_system.Domain.Codec.{unmarshal}
use notification_system.Kafka.{Message, Consumer, read_one}
use notification_system.Worker.{Worker, process, ends, run}
use notification_system.Worker.Keeps.{Keeps, process-keeps}

module _ {W : Type 0} (Cancelled : W → Type 0) (left : W → ℕ) where
  -- The context is cancelled and at most so many reads are left.
  abbrev pub Bounded : ℕ → W → Type 0
  Bounded k x = Cancelled x × (left x ≤ k)

  -- `ReadMessage` waits in a select for the end of its context, for the next message and for an error
  -- of the reader. Where the context has ended and another case is ready as well, Go's select takes
  -- one of them at random, and messages may go on coming in. `left x` is how many reads from the
  -- world `x` on, which holds the random choices, still take another case: no bound on it is known
  -- beforehand, but the case of the context, which stays ready, is not passed over for ever. What a
  -- worker calls for a message reads none.
  pub record Drains (w : Worker W) (c : Consumer W) : Type 0 where
    pub keeps : (k : ℕ) → Keeps w (Bounded k)
    pub read_cancelled : (x : W) → Cancelled x → Cancelled (c.reader.read_message x).1
    pub read_failed :
        (x : W) (e : Failure)
        → Cancelled x
        → (c.reader.read_message x).0 ≡ err e
        → ((is e canceled ≡ true) × (left (c.reader.read_message x).1 ≤ left x))
          ⊎ (left (c.reader.read_message x).1 < left x)
    pub read_message :
        (x : W) (m : Message)
        → Cancelled x
        → (c.reader.read_message x).0 ≡ ok m
        → left (c.reader.read_message x).1 < left x

  -- After a round that began with `k` reads left: the loop has returned, or there are fewer.
  abbrev pub Round : ℕ → Outcome Bool × W → Type 0
  Round k (panics, y) = Unit {0}
  Round k (returns true, y) = Bounded k y
  Round k (returns false, y) = Cancelled y × (left y < k)

  module _ (w : Worker W) (c : Consumer W) (d : Drains w c) where
    processed-Round :
        (k : ℕ) (q : Outcome (Option Failure) × W)
        → Cancelled q.1 × (left q.1 < k)
        → Round k (continue (λ _. run w 0 c) q)
    unfolding run
    processed-Round k (returns e, y) p = p
    processed-Round k (panics, y) p = tt

    -- A read that failed otherwise is reported, and the loop goes on.
    failed-Round :
        (x y : W) (e : Failure)
        → Cancelled y
        → left y < left x
        → Round (left x) ((if ends w e then pure true else run w 0 c) y)
    unfolding run
    failed-Round x y e still fewer = elim (Bool-cases (ends w e)) [
      | inl q ↦ rw q (still, omega (arith, fewer))
      | inr q ↦ rw q (still, fewer)
    ]

    reply-Round :
        (x : W)
        → Cancelled x
        → (q : Result Message × W) → c.reader.read_message x ≡ q
        → Round (left x) (run w 1 c x)
    unfolding run read_one ends is
    reply-Round x p (err e, y) h =
        let still : Cancelled y = rw h at (d.read_cancelled x p) in
        elim (d.read_failed x e p (ap (λ q. q.0) h)) [
          | inl (stop, few) ↦
              let few_left : left y ≤ left x = rw h at few in rw (h, stop) (still, few_left)
          | inr less ↦
              let fewer : left y < left x = rw h at less in
              rw h (
                failed-Round x y (wrap ("consumer [" <> c.channel <> "]: read message") e) still
                  fewer)
        ]
    reply-Round x p (ok m, y) h =
        let fewer : left y < left x = rw h at (d.read_message x m p (ap (λ q. q.0) h)) in
        let still : Cancelled y = rw h at (d.read_cancelled x p) in
        elim (Option-cases (unmarshal c.formats m.value)) [
          | inl e ↦ rw (h, e) (still, fewer)
          | inr (n, e) ↦
              let (on, same) =
                process-keeps w (Bounded (left y)) (d.keeps (left y)) n y (still, omega arith) in
              rw (h, e) (processed-Round (left x) (process w n y) (on, omega (arith, same, fewer)))
        ]

    pub run-Round : (x : W) → Cancelled x → Round (left x) (run w 1 c x)
    run-Round x p = reply-Round x p (c.reader.read_message x) refl
