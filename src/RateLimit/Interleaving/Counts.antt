-- ===== src/RateLimit/Interleaving/Counts.antt =====
-- Concurrent calls of `Allow` (internal/ratelimit/limiter.go): how many of them are allowed.
use notification_system.Base.{
  ℕ, zero, suc, ◌+◌, ◌-◌, String, Bool, List, [], ◌∷◌, ◌≡◌, refl, ap, min, arith, leb, length, map,
  ◌⊎◌, inl, inr, if◌then◌else◌,
}
use notification_system.RateLimit.{Limiter, rate_key}
use notification_system.RateLimit.Interleaving.{
  Call, waiting, counted, finished, CallStep, incr_err, incr_first, incr_later, expire_err,
  expire_ok, CallsStep, this, that, CallsReach, begin, go,
}
use notification_system.RateLimit.Window.{Answers}

-- n calls that have not begun.
unfoldable pub all_waiting : ℕ → List Call
all_waiting zero = []
all_waiting (suc n) = waiting ∷ all_waiting n

-- How many of the answers are true.
unfoldable pub granted : List Bool → ℕ
granted [] = 0
granted (b ∷ bs) = (if b then 1 else 0) + granted bs

unfoldable started_one : Call → ℕ
started_one waiting = 0
started_one counted = 1
started_one (finished _) = 1

-- How many calls have had their INCR.
unfoldable started : List Call → ℕ
started [] = 0
started (c ∷ cs) = started_one c + started cs

module _ {W : Type 0} (l : Limiter W) (count : String → W → ℕ) (answers : Answers l.redis count)
    (user_id channel : String) where
  abbrev key : String
  key = rate_key user_id channel

  unfoldable score_one : Call → ℕ
  score_one waiting = 0
  score_one counted = if leb 1 l.limit then 1 else 0
  score_one (finished b) = if b then 1 else 0

  -- How many calls are allowed, or will be.
  unfoldable score : List Call → ℕ
  score [] = 0
  score (c ∷ cs) = score_one c + score cs

  -- A step is an INCR, or it changes nothing that counts.
  abbrev Counts : W → W → ℕ → ℕ → ℕ → ℕ → Type 0
  Counts x y s s' g g' =
      ((count key y ≡ count key x) × (s' ≡ s) × (g' ≡ g))
      ⊎ ((count key y ≡ count key x + 1)
          × (s' ≡ s + 1)
          × (g' ≡ g + (if leb (count key x + 1) l.limit then 1 else 0)))

  CallStep-Counts :
      {x y : W} {c c' : Call}
      → CallStep l user_id channel x y c c'
      → Counts x y (started_one c) (started_one c') (score_one c) (score_one c')
  unfolding started_one score_one
  CallStep-Counts {x = x} (incr_err e h) = ground (arith, h, answers.incr_ok key x)
  CallStep-Counts {x = x} (incr_first h) =
      inr (ground (arith, h, answers.incr_ok key x, answers.incr_adds key x))
  CallStep-Counts {x = x} (incr_later n h q) =
      inr (ground (arith, h, answers.incr_ok key x, answers.incr_adds key x))
  CallStep-Counts {x = x} (expire_err e h) = ground (arith, h, answers.expire_ok key l.window x)
  CallStep-Counts {x = x} (expire_ok h) =
      inl (ground (arith, h, answers.expire_keeps key l.window x))

  CallsStep-Counts :
      {x y : W} {cs ds : List Call}
      → CallsStep l user_id channel x y cs ds
      → Counts x y (started cs) (started ds) (score cs) (score ds)
  unfolding started score
  CallsStep-Counts (this s) = let one = CallStep-Counts s in ground arith
  CallsStep-Counts (that s) = let later = CallsStep-Counts s in ground arith

  CallsStep-length :
      {x y : W} {cs ds : List Call} → CallsStep l user_id channel x y cs ds → length ds ≡ length cs
  CallsStep-length (this s) = refl
  CallsStep-length (that s) = ap suc (CallsStep-length s)

  -- After any steps of calls that had not begun: what Redis counts, and how many of those that
  -- have begun are allowed.
  abbrev Reached : W → ℕ → List Call → W → Type 0
  Reached x n es v =
      (length es ≡ n)
      × (count key v ≡ count key x + started es)
      × (score es ≡ min (started es) (l.limit - count key x))

  all_waiting-Reached : (n : ℕ) (x : W) → Reached x n (all_waiting n) x
  unfolding started score all_waiting started_one score_one
  all_waiting-Reached zero x = (refl, ground arith, ground arith)
  all_waiting-Reached (suc n) x = let later = all_waiting-Reached n x in ground arith

  CallsReach-Reached :
      {n : ℕ} {x v : W} {es : List Call}
      → CallsReach l user_id channel x (all_waiting n) es v
      → Reached x n es v
  CallsReach-Reached {n = n} {x = x} begin = all_waiting-Reached n x
  CallsReach-Reached (go before s) =
      let past = CallsReach-Reached before in
      let step = CallsStep-Counts s in let same = CallsStep-length s in ground arith

  started-finished : (bs : List Bool) → started (map finished bs) ≡ length bs
  unfolding started started_one
  started-finished [] = refl
  started-finished (b ∷ bs) = ground (arith, started-finished bs)

  score-finished : (bs : List Bool) → score (map finished bs) ≡ granted bs
  unfolding score score_one granted
  score-finished [] = refl
  score-finished (b ∷ bs) = ground (arith, score-finished bs)

  length-finished : (bs : List Bool) → length (map finished bs) ≡ length bs
  length-finished [] = refl
  length-finished (b ∷ bs) = ap suc (length-finished bs)

  -- While Redis answers and the window does not end: of n calls for one user and channel at once,
  -- whose commands Redis takes in any order, those up to the limit are allowed and the others
  -- refused, counting from the calls that the window has seen before.
  pub granted-eq-min :
      (n : ℕ) (x v : W) (bs : List Bool)
      → CallsReach l user_id channel x (all_waiting n) (map finished bs) v
      → granted bs ≡ min n (l.limit - count key x)
  granted-eq-min n x v bs h =
      ground
        (arith, CallsReach-Reached h, started-finished bs, score-finished bs, length-finished bs)
