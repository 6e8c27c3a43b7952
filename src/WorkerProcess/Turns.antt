-- ===== src/WorkerProcess/Turns.antt =====
-- The turns of the workers after the signal.
use notification_system.Base.{
  ℕ, zero, suc, ◌+◌, ◌<◌, ◌≤◌, Bool, true, false, List, [], ◌∷◌, ◌≡◌, refl, inl, inr, arith, eqb,
  if◌then◌else◌, Bool-cases, not,
}
use notification_system.Effect.{Outcome, returns, panics, continue, pure}
use notification_system.Worker.Draining.{Drains, Round, run-Round}
use notification_system.WorkerProcess.{Slot, turn, play, any_live}

abbrev pub count : ℕ → List ℕ → ℕ
count i [] = 0
count i (j ∷ js) = (if eqb i j then 1 else 0) + count i js

module _ {W : Type 0} where
  abbrev pub live_at : ℕ → List (Slot W) → Bool
  live_at i [] = false
  live_at zero (s ∷ ss) = s.live
  live_at (suc i) (s ∷ ss) = live_at i ss

  all_stopped : (ss : List (Slot W)) → ((i : ℕ) → live_at i ss ≡ true → 1 ≤ 0) → any_live ss ≡ false
  unfolding any_live
  all_stopped [] none_live = refl
  all_stopped (s ∷ ss) none_live = elim (Bool-cases s.live) [
    | inl e ↦ absurd (omega (arith, none_live 0 e))
    | inr e ↦ rw e (all_stopped ss (λ i. none_live (suc i)))
  ]

module _ {W : Type 0} where
  -- Who is live in `ts` was live in `ss`, and if the worker at `i` is, then `L` holds.
  abbrev Lives : ℕ → List (Slot W) → List (Slot W) → Type 0 → Type 0
  Lives i ss ts L = (j : ℕ) → live_at j ts ≡ true → (live_at j ss ≡ true) × (j ≡ i → L)

  Lives-first :
      (s t : Slot W) (ss : List (Slot W)) (L : Type 0)
      → (t.live ≡ true → (s.live ≡ true) × L)
      → Lives zero (s ∷ ss) (t ∷ ss) L
  Lives-first s t ss L f zero h = ((f h).0, λ e. (f h).1)
  Lives-first s t ss L f (suc j) h = (h, λ e. absurd (omega (arith, e)))

  Lives-later :
      (i : ℕ) (s : Slot W) (ss ts : List (Slot W)) (L : Type 0)
      → Lives i ss ts L
      → Lives (suc i) (s ∷ ss) (s ∷ ts) L
  Lives-later i s ss ts L f zero h = (h, λ e. absurd (omega (arith, e)))
  Lives-later i s ss ts L f (suc j) h =
      let (before, sooner) = f j h in (before, λ e. sooner (omega (arith, e)))

module _ {W : Type 0} (Cancelled : W → Type 0) (left : W → ℕ) where
  abbrev pub AllDrain : List (Slot W) → Type 0
  AllDrain [] = Unit
  AllDrain (s ∷ ss) = Drains Cancelled left s.worker s.consumer × AllDrain ss

  -- Each live worker has more turns to come than messages are left.
  abbrev pub Fair : List ℕ → List (Slot W) → W → Type 0
  Fair is ss x = (i : ℕ) → live_at i ss ≡ true → left x < count i is

  -- After the turn of the worker at `i`, with `k` messages before it: no worker has come to life, no
  -- message has been added, and where that worker is still live there are fewer.
  abbrev Turned : ℕ → List (Slot W) → ℕ → Outcome (List (Slot W)) × W → Type 0
  Turned i ss k (panics, y) = Unit {0}
  Turned i ss k (returns ts, y) =
      AllDrain ts × Cancelled y × (left y ≤ k) × Lives i ss ts (left y < k)

  ran-Turned :
      (s : Slot W) (ss : List (Slot W)) (k : ℕ)
      → AllDrain (s ∷ ss)
      → s.live ≡ true
      → (q : Outcome Bool × W) → Round Cancelled left k q
      → Turned zero (s ∷ ss) k (continue (λ stopped. pure (record s { live = not stopped } ∷ ss)) q)
  ran-Turned s ss k d live (panics, y) r = tt
  ran-Turned s ss k d live (returns true, y) (p, few) =
      (d, p, few, Lives-first s (record s { live = false }) ss _ (λ h. absurd (cc)))
  ran-Turned s ss k d live (returns false, y) (p, fewer) = (
    d,
    p,
    omega (arith, fewer),
    Lives-first s (record s { live = true }) ss _ (λ h. (live, fewer)),
  )

  later-Turned :
      (i : ℕ) (s : Slot W) (ss : List (Slot W)) (k : ℕ)
      → Drains Cancelled left s.worker s.consumer
      → (q : Outcome (List (Slot W)) × W) → Turned i ss k q
      → Turned (suc i) (s ∷ ss) k (continue (λ ts. pure (s ∷ ts)) q)
  later-Turned i s ss k d (panics, y) r = tt
  later-Turned i s ss k d (returns ts, y) (ds, p, few, lives) =
      ((d, ds), p, few, Lives-later i s ss ts _ lives)

  turn-Turned :
      (i : ℕ) (ss : List (Slot W)) (x : W)
      → AllDrain ss
      → Cancelled x
      → Turned i ss (left x) (turn i ss x)
  unfolding turn
  turn-Turned i [] x d p = (d, p, omega arith, λ j h. absurd (cc))
  turn-Turned zero (s ∷ ss) x d p = elim (Bool-cases s.live) [
    | inl e ↦
        simp e
          (ran-Turned s ss (left x) d e _ (run-Round Cancelled left s.worker s.consumer d.0 x p))
    | inr e ↦ simp e (d, p, omega arith, Lives-first s s ss _ (λ h. absurd (cc)))
  ]
  turn-Turned (suc i) (s ∷ ss) x d p =
      later-Turned i s ss (left x) d.0 (turn i ss x) (turn-Turned i ss x d.1 p)

  -- The process died, or no worker is live.
  abbrev pub Over : Outcome (List (Slot W)) × W → Type 0
  Over (panics, y) = Unit {0}
  Over (returns ts, y) = any_live ts ≡ false

  played :
      (i : ℕ) (is : List ℕ)
      → ((ts : List (Slot W)) (y : W)
          → AllDrain ts
          → Cancelled y
          → Fair is ts y
          → Over (play is ts y))
      → (ss : List (Slot W)) (k : ℕ) → ((j : ℕ) → live_at j ss ≡ true → k < count j (i ∷ is))
      → (q : Outcome (List (Slot W)) × W) → Turned i ss k q
      → Over (continue (play is) q)
  played i is later ss k fair (panics, y) r = tt
  played i is later ss k fair (returns ts, y) (d, p, few, lives) = later ts y d p (λ j h.
      let (before, sooner) = lives j h in
      let enough = fair j before in ground (arith, enough, sooner, few))

  pub play-Over :
      (is : List ℕ) (ss : List (Slot W)) (x : W)
      → AllDrain ss
      → Cancelled x
      → Fair is ss x
      → Over (play is ss x)
  unfolding play
  play-Over [] ss x d p fair = all_stopped ss (λ i h. omega (arith, fair i h))
  play-Over (i ∷ is) ss x d p fair =
      played i is (play-Over is) ss (left x) fair (turn i ss x) (turn-Turned i ss x d p)
