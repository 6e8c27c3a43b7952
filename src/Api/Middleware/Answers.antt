-- ===== src/Api/Middleware/Answers.antt =====
-- What a client gets through the middleware.
use notification_system.Base.{
  ℕ, String, false, some, List, [], ◌∷◌, ◌≡◌, refl, ◌==◌, itoa, Bool-cases, inl, inr, ◌↔◌,
}
use notification_system.Effect.{Outcome, returns, panics, Exec, continue}
use notification_system.Domain.{Time}
use notification_system.Runtime.{
  Runtime, http_requests_total, http_request_duration, http_requests_in_flight,
}
use notification_system.Api.{Response, write_error}
use notification_system.Api.Middleware.{
  RawText, utf8, not_utf8, Request, Exchange, count_request, fresh_exchange, Serve, respond,
  context_with_request_id, after_panic, recoverer, after_next, logger, with_id, request_id,
  new_router,
}
use notification_system.Api.Handler.{Handler}

-- This response alone was written, under this identifier.
pub record Got (id : String) (p : Response) (e : Exchange) : Type 0 where
  pub status : e.sent ≡ some p.status
  pub bodies : e.bodies ≡ p.body ∷ []
  pub headers : e.headers ≡ ("X-Request-ID", id) ∷ ("Content-Type", p.content_type) ∷ []

-- The method and the path of the request are valid UTF-8, and read so.
abbrev pub Reads : Request → String → String → Type 0
Reads r method path = (r.method ≡ utf8 method) × (r.path ≡ utf8 path)

-- How the middleware ended, and the world that it left: the request was counted under the status
-- and the middleware returned, or it panicked on a label that is not valid UTF-8 and counted
-- nothing. The gauge is decremented last.
pub data Counted {W : Type 0} (runtime : Runtime W) (r : Request) (status : ℕ)
    (o : Outcome (Unit {0})) (x : W) : Type 0 where
  counted :
      (method path : String) (before : W) (duration : Time)
      → Reads r method path
      → o ≡ returns tt
      → x
        ≡ runtime.dec http_requests_in_flight (
            runtime.observe
              (http_request_duration method path)
              duration
              (runtime.inc (http_requests_total method path (itoa status)) before))
      → Counted runtime r status o x
  uncounted :
      (before : W)
      → ((method path : String) → ¬ Reads r method path)
      → o ≡ panics
      → x ≡ runtime.dec http_requests_in_flight before
      → Counted runtime r status o x

module _ {W : Type 0} (runtime : Runtime W) (f : Request → Exec W Response) (r : Request) where
  -- The handler ran with the identifier in the context of its request: what it returned was written,
  -- or 500 where it panicked.
  pub data Answered (id : String) (o : Outcome (Unit {0})) (x : W) (e : Exchange) : Type 0 where
    answered :
        {u v : W} (p : Response)
        → f (record r { context = context_with_request_id r.context id }) u ≡ (returns p, v)
        → Got id p e
        → Counted runtime r p.status o x
        → Answered id o x e
    recovered :
        {u v : W}
        → f (record r { context = context_with_request_id r.context id }) u ≡ (panics, v)
        → Got id (write_error "internal server error" "INTERNAL_ERROR" 500) e
        → Counted runtime r 500 o x
        → Answered id o x e

  -- The whole answer, under the identifier of the request where that has one.
  pub record Serves (p : Outcome (Unit {0}) × (W × Exchange)) : Type 0 where
    pub id : String
    pub given : (r.request_id == "") ≡ false → id ≡ r.request_id
    pub served : Answered id p.0 (p.1.0) (p.1.1)

  abbrev served_by : String → W → Outcome (Unit {0}) × (W × Exchange)
  served_by id w = with_id (logger runtime (recoverer (respond f))) id r (w, fresh_exchange)

  -- The response as the handler finds it.
  abbrev under : String → Exchange
  under id = record fresh_exchange { headers = ("X-Request-ID", id) ∷ []; recorded = 200 }

after_panic-returns :
    {W : Type 0} (p : Outcome (Unit {0}) × (W × Exchange)) → (after_panic p).0 ≡ returns tt
unfolding after_panic
after_panic-returns (returns u, s) = refl
after_panic-returns (panics, s) = refl

count_request-returns :
    {W : Type 0} (runtime : Runtime W) (d : Time) (method path : RawText) (s : W × Exchange)
    → ((count_request runtime d method path s).0 ≡ returns tt)
      ↔ ((m : String) × (p : String) × ((method ≡ utf8 m) × (path ≡ utf8 p)))
unfolding count_request
count_request-returns runtime d (utf8 m) (utf8 p) s = ((λ h. (m, p, (refl, refl))), λ h. refl)
count_request-returns runtime d (utf8 m) (not_utf8 p) s =
    ((λ h. absurd (let no = h in cc)), λ (m', p', (a, b)). absurd (let no = b in cc))
count_request-returns runtime d (not_utf8 m) p s =
    ((λ h. absurd (let no = h in cc)), λ (m', p', (a, b)). absurd (let no = a in cc))

after_next-returns :
    {W : Type 0} (runtime : Runtime W) (start : Time) (r : Request)
    (q : Outcome (Unit {0}) × (W × Exchange))
    → q.0 ≡ returns tt
    → ((continue (λ _. after_next runtime start r) q).0 ≡ returns tt)
      ↔ ((m : String) × (p : String) × Reads r m p)
unfolding after_next
after_next-returns runtime start r (returns u, (w, e)) h =
    count_request-returns runtime _ r.method r.path _
after_next-returns runtime start r (panics, s) h = absurd (cc)

-- The router returns exactly for the requests whose method and path are valid UTF-8, from every
-- state of the response and whatever handler is found: no panic of a handler leaves it, also not one
-- halfway through the response, but `Logger`, which stands outside `Recoverer`, panics on a label that
-- is not valid UTF-8.
pub new_router-returns_iff :
    {W : Type 0} (mount : List (String × String × Serve W) → Serve W) (h : Handler W)
    (metrics : Serve W) (r : Request) (s : W × Exchange)
    → ((new_router mount h metrics r s).0 ≡ returns tt)
      ↔ ((method : String) × (path : String) × Reads r method path)
unfolding request_id with_id logger recoverer
new_router-returns_iff mount h metrics r s = elim (Bool-cases (r.request_id == "")) [
  | inl q ↦ rw q (after_next-returns h.runtime _ _ _ (after_panic-returns _))
  | inr q ↦ rw q (after_next-returns h.runtime _ _ _ (after_panic-returns _))
]
