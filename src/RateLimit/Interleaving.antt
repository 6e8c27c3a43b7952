-- ===== src/RateLimit/Interleaving.antt =====
-- Several calls of `Allow` (internal/ratelimit/limiter.go) for one user and channel at once: the
-- INCR of one call and its EXPIRE may lie between those of others.
pub mod Counts
use notification_system.Base.{
  ℕ, ◌+◌, String, Bool, true, false, Option, none, some, List, [], ◌∷◌, ◌≡◌, refl, ap, ◌∙◌, arith,
  leb, eqb, Bool-cases, Option-cases, inl, inr, if◌then◌else◌,
}
use notification_system.Failure.{Failure, Result, ok, err, Result-cases}
use notification_system.Effect.{Outcome, returns}
use notification_system.Redis.{Redis}
use notification_system.RateLimit.{Limiter, rate_key, allow}

-- A call before its INCR, after an INCR that answered 1, and with its answer.
pub data Call : Type 0 where
  waiting : Call
  counted : Call
  finished : Bool → Call

module _ {W : Type 0} (l : Limiter W) (user_id channel : String) where
  abbrev key : String
  key = rate_key user_id channel

  -- One command of a call to Redis, and what the call goes on to.
  pub data CallStep (x y : W) : Call → Call → Type 0 where
    incr_err :
        (e : Failure) → l.redis.incr key x ≡ (err e, y) → CallStep x y waiting (finished true)
    incr_first : l.redis.incr key x ≡ (ok 1, y) → CallStep x y waiting counted
    incr_later :
        (n : ℕ)
        → l.redis.incr key x ≡ (ok n, y)
        → eqb n 1 ≡ false
        → CallStep x y waiting (finished (leb n l.limit))
    expire_err :
        (e : Failure)
        → l.redis.expire key l.window x ≡ (some e, y)
        → CallStep x y counted (finished true)
    expire_ok :
        l.redis.expire key l.window x ≡ (none, y) → CallStep x y counted (finished (leb 1 l.limit))

  pub data CallsStep (x y : W) : List Call → List Call → Type 0 where
    this : {c c' : Call} {cs : List Call} → CallStep x y c c' → CallsStep x y (c ∷ cs) (c' ∷ cs)
    that : {c : Call} {cs cs' : List Call} → CallsStep x y cs cs' → CallsStep x y (c ∷ cs) (c ∷ cs')

  -- The calls go on in any order.
  pub data CallsReach (x : W) (cs : List Call) : List Call → W → Type 0 where
    begin : CallsReach x cs cs x
    go :
        {ds es : List Call} {u v : W}
        → CallsReach x cs ds u
        → CallsStep u v ds es
        → CallsReach x cs es v

  -- What `Allow` does without interruption is the steps of one call.
  pub allow-CallsReach :
      (x : W)
      → (b : Bool) × (e : Option Failure) × ((allow l user_id channel x).0 ≡ returns (b, e))
        × CallsReach x (waiting ∷ []) (finished b ∷ []) (allow l user_id channel x).1
  unfolding allow
  allow-CallsReach x =
      let y = (l.redis.incr key x).1 in
      let z = (l.redis.expire key l.window y).1 in
      elim (Result-cases (l.redis.incr key x).0) [
        | inr (f, e) ↦ rw (allow, e) (_, _, refl, go begin (this (incr_err f (ap (λ r. (r, y)) e))))
        | inl (n, e) ↦ elim (Bool-cases (eqb n 1)) [
          | inr q ↦
              rw (allow, e, q) (_, _, refl, go begin (this (incr_later n (ap (λ r. (r, y)) e) q)))
          | inl q ↦
              let one : n ≡ 1 = ground arith in
              let counts : l.redis.incr key x ≡ (ok 1, y) = ap (λ r. (r, y)) (e ∙ ap ok one) in
              elim (Option-cases (l.redis.expire key l.window y).0) [
                | inl r ↦
                    rw (allow, e, q, r)
                      (
                        leb 1 l.limit,
                        _,
                        ap (λ k. returns (leb k l.limit, none)) one,
                        go (go begin (this (incr_first counts)))
                            (this (expire_ok (ap (λ o. (o, z)) r))),
                      )
                | inr (f, r) ↦
                    rw (allow, e, q, r)
                      (
                        _,
                        _,
                        refl,
                        go (go begin (this (incr_first counts)))
                            (this (expire_err f (ap (λ o. (o, z)) r))),
                      )
              ]
        ]
      ]
