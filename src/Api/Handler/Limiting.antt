-- ===== src/Api/Handler/Limiting.antt =====
-- The rate limiter and the cache in one Redis: the keys are different, so a check of the limit
-- leaves a coherent cache coherent.
use text.Mathlib.TextLemmas.{cons-append}
use notification_system.Base.{
  String, Bool, Option, ◌≡◌, ◌≢◌, refl, sym, ap, ◌∙◌, inl, inr, arith, Bool-cases, Option-cases,
  eqb,
}
use notification_system.Failure.{Failure, Result-cases}
use notification_system.Effect.{Outcome, returns}
use notification_system.Json.{Bytes}
use notification_system.Store.Tables.{Tables}
use notification_system.Cache.{user_key, prefs_key}
use notification_system.Cache.Coherence.{IsCoherent, first}
use notification_system.RateLimit.{allow, rate_key}
use notification_system.Api.Handler.{Handler}
use notification_system.Api.Handler.Laws.{HandlerLaws, Leaves}

first-rate_key : (a b : String) → first (rate_key a b) ≡ b'r'
first-rate_key a b = rw (cons-append, cons-append, cons-append) refl

user_key-ne-rate_key : (a b c : String) → user_key a ≢ rate_key b c
user_key-ne-rate_key a b c h =
    let same : first (user_key a) ≡ first (rate_key b c) = ap first h in
    let u : first (user_key a) ≡ b'u' = rw cons-append refl in omega (arith, first-rate_key b c)

prefs_key-ne-rate_key : (a b c : String) → prefs_key a ≢ rate_key b c
prefs_key-ne-rate_key a b c h =
    let same : first (prefs_key a) ≡ first (rate_key b c) = ap first h in
    let p : first (prefs_key a) ≡ b'p' = rw cons-append refl in omega (arith, first-rate_key b c)

module _ {W : Type 0} (h : Handler W) (cached : String → W → Option Bytes) (tables : W → Tables)
    (laws : HandlerLaws h cached tables) (user_id channel : String) where
  Leaves-IsCoherent :
      {w x : W}
      → Leaves cached (rate_key user_id channel) w x
      → tables x ≡ tables w
      → IsCoherent cached tables w
      → IsCoherent cached tables x
  Leaves-IsCoherent s k c = record {
    users = λ id b u e d. elim (s (user_key id) (user_key-ne-rate_key id user_id channel)) [
      | inl same ↦ rw k (c.users id b u (sym same ∙ e) d)
      | inr gone ↦ absurd (cc)
    ];
    preferences = λ id b p e d. elim (s (prefs_key id) (prefs_key-ne-rate_key id user_id channel)) [
      | inl same ↦ rw k (c.preferences id b p (sym same ∙ e) d)
      | inr gone ↦ absurd (cc)
    ];
  }

  -- The check returns, leaves the tables, and keeps the cache coherent.
  pub record Limits (w : W) (p : Outcome (Bool × Option Failure) × W) : Type 0 where
    pub answered : (b : Bool) × (e : Option Failure) × (p.0 ≡ returns (b, e))
    pub kept : tables p.1 ≡ tables w
    pub coherent : IsCoherent cached tables p.1

  pub allow-Limits :
      (w : W) → IsCoherent cached tables w → Limits w (allow h.limiter user_id channel w)
  unfolding allow
  allow-Limits w c =
      let key = rate_key user_id channel in
      let x = (h.limiter.redis.incr key w).1 in
      let kept : tables x ≡ tables w = laws.incr_keeps key w in
      let once : IsCoherent cached tables x = Leaves-IsCoherent (laws.incr_leaves key w) kept c in
      elim (Result-cases (h.limiter.redis.incr key w).0) [
        | inr (f, e) ↦
            rw (allow, e) (record { answered = (_, _, refl); kept = kept; coherent = once })
        | inl (n, e) ↦ elim (Bool-cases (eqb n 1)) [
          | inr q ↦
              rw (allow, e, q) (record { answered = (_, _, refl); kept = kept; coherent = once })
          | inl q ↦
              let again : tables (h.limiter.redis.expire key h.limiter.window x).1 ≡ tables x =
                laws.expire_keeps key h.limiter.window x in
              let twice =
                Leaves-IsCoherent (laws.expire_leaves key h.limiter.window x) again once in
              elim (Option-cases (h.limiter.redis.expire key h.limiter.window x).0) [
                | inl r ↦
                    rw (allow, e, q, r)
                      (record { answered = (_, _, refl); kept = again ∙ kept; coherent = twice })
                | inr (f, r) ↦
                    rw (allow, e, q, r)
                      (record { answered = (_, _, refl); kept = again ∙ kept; coherent = twice })
              ]
        ]
      ]
