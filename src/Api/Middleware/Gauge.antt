-- ===== src/Api/Middleware/Gauge.antt =====
-- The gauge of the requests that are in flight.
use notification_system.Base.{
  ℕ, ◌+◌, ◌-◌, String, ◌≡◌, refl, ◌∙◌, arith, ◌==◌, Bool-cases, inl, inr,
}
use notification_system.Effect.{Outcome, returns, panics, continue}
use notification_system.Domain.{Time}
use notification_system.Runtime.{Runtime, Metric, http_requests_total, http_requests_in_flight}
use notification_system.Api.Middleware.{
  RawText, utf8, not_utf8, Request, Exchange, Serve, count_request, after_panic, recoverer, with_id,
  after_next, logger, request_id, wrapped,
}

-- `gauge` shows how many requests are in flight; nothing else touches it.
pub record GaugeLaws {W : Type 0} (runtime : Runtime W) (gauge : W → ℕ) : Type 0 where
  pub inc_gauge : (w : W) → gauge (runtime.inc http_requests_in_flight w) ≡ gauge w + 1
  pub dec_gauge : (w : W) → gauge (runtime.dec http_requests_in_flight w) ≡ gauge w - 1
  pub inc_total :
      (method path status : String) (w : W)
      → gauge (runtime.inc (http_requests_total method path status) w) ≡ gauge w
  pub observe_keeps : (m : Metric) (t : Time) (w : W) → gauge (runtime.observe m t w) ≡ gauge w
  pub now_keeps : (w : W) → gauge (runtime.now w).1 ≡ gauge w
  pub new_string_keeps : (w : W) → gauge (runtime.new_string w).1 ≡ gauge w

-- The gauge at the end of a call, which returned or panicked.
abbrev pub gauge_after : {W : Type 0} → (W → ℕ) → Outcome (Unit {0}) × (W × Exchange) → ℕ
gauge_after gauge q = gauge q.1.0

module _ {W : Type 0} (runtime : Runtime W) (gauge : W → ℕ) (laws : GaugeLaws runtime gauge) where
  count_request-gauge :
      (d : Time) (method path : RawText) (s : W × Exchange)
      → gauge_after gauge (count_request runtime d method path s) ≡ gauge s.0
  unfolding count_request
  count_request-gauge d (utf8 m) (utf8 p) (w, e) = rw (laws.observe_keeps, laws.inc_total) refl
  count_request-gauge d (utf8 m) (not_utf8 p) s = refl
  count_request-gauge d (not_utf8 m) p s = refl

  -- What `Logger` does after the handler touches the gauge on none of its paths.
  after_next-gauge :
      (start : Time) (r : Request) (q : Outcome (Unit {0}) × (W × Exchange))
      → gauge_after gauge (continue (λ _. after_next runtime start r) q) ≡ gauge_after gauge q
  unfolding after_next
  after_next-gauge start r (returns u, (w, e)) =
      count_request-gauge _ r.method r.path _ ∙ laws.now_keeps w
  after_next-gauge start r (panics, s) = refl

  after_panic-gauge :
      (q : Outcome (Unit {0}) × (W × Exchange))
      → gauge_after gauge (after_panic q) ≡ gauge_after gauge q
  unfolding after_panic
  after_panic-gauge (returns u, (w, e)) = refl
  after_panic-gauge (panics, (w, e)) = refl

  module _ (next : Serve W) (n : ℕ)
      (nested : (r : Request) (s : W × Exchange)
        → gauge s.0 ≡ n + 1
        → gauge_after gauge (next r s) ≡ n + 1) where
    logger-gauge :
        (r : Request) (s : W × Exchange)
        → gauge s.0 ≡ n
        → gauge_after gauge (logger runtime (recoverer next) r s) ≡ n
    unfolding logger recoverer
    logger-gauge r (w, e) k =
        let (start, w1) = runtime.now w in
        let w2 = runtime.inc http_requests_in_flight w1 in
        let s2 : W × Exchange = (w2, record e { recorded = 200 }) in
        let up : gauge w2 ≡ n + 1 = omega (arith, laws.inc_gauge w1, laws.now_keeps w, k) in
        let down = nested r s2 up in
        let same = after_next-gauge start r (after_panic (next r s2)) in
        laws.dec_gauge _ ∙ omega (arith, same, after_panic-gauge (next r s2), down)

    -- While the handler below counts as one request in flight more, and leaves the gauge as it finds
    -- it: the middleware leaves the gauge as it was, also where the handler panics, and where `Logger`
    -- itself panics because the method or the path of the request is not valid UTF-8.
    pub wrapped-gauge :
        (r : Request) (s : W × Exchange)
        → gauge s.0 ≡ n
        → gauge_after gauge (wrapped runtime next r s) ≡ n
    unfolding request_id with_id
    wrapped-gauge r (w, e) k = elim (Bool-cases (r.request_id == "")) [
      | inl q ↦ rw q (logger-gauge _ _ (laws.new_string_keeps w ∙ k))
      | inr q ↦ rw q (logger-gauge _ _ k)
    ]
