-- ===== src/Api/Middleware.antt =====
-- internal/api/middleware.go and router.go: the wrappers around every handler. Of chi, which finds
-- the handler for a request, only the mounting of the routes is used, a parameter.
pub mod Answers
pub mod Contexts
pub mod Gauge
use notification_system.Base.{
  ℕ, ◌-◌, String, Option, none, some, List, [], ◌∷◌, ◌++◌, ◌==◌, itoa, if◌then◌else◌,
}
use notification_system.Values.{request_id_key, Value, string_value, Values, with_value, value}
use notification_system.Effect.{Outcome, returns, panics, Exec, continue, defer, ◌>>=◌, ◌>>◌}
use notification_system.Json.{Bytes}
use notification_system.Domain.{Time}
use notification_system.Runtime.{
  Runtime, http_requests_total, http_request_duration, http_requests_in_flight,
}
use notification_system.Api.{Response, Body, write_error}
use notification_system.Api.Handler.{
  Handler, send_notification, get_notification_status, health_check,
}

-- A Go string: text, or bytes that are not valid UTF-8, as in the path of `GET /%ff`.
pub data RawText : Type 0 where
  utf8 : String → RawText
  not_utf8 : List ℕ → RawText

-- Of a request: `request_id` is its X-Request-ID header, empty where there is none, and
-- `context` the values of its context.
pub record Request : Type 0 where
  pub method : RawText
  pub path : RawText
  pub request_id : String
  pub context : Values
  pub body : Bytes
  pub query_id : String

unfoldable pub context_with_request_id : Values → String → Values
context_with_request_id c id = with_value c request_id_key (string_value id)

-- The assertion of the type `string` on what was found, with "" where it fails.
unfoldable pub asserted_text : Option Value → String
asserted_text (some (string_value id)) = id
asserted_text _ = ""

unfoldable pub request_id_from_context : Values → String
request_id_from_context c = asserted_text (value c request_id_key)

-- What goes to the client through an `http.ResponseWriter`: the status of the first `WriteHeader`,
-- the headers set before it, the bodies. `recorded` is the status of the wrapper of `Logger`.
pub record Exchange : Type 0 where
  pub sent : Option ℕ
  pub headers : List (String × String)
  pub bodies : List Body
  pub recorded : ℕ

abbrev pub fresh_exchange : Exchange
fresh_exchange = record { sent = none; headers = []; bodies = []; recorded = 0 }

-- A header that is set after the status was sent does not go out.
unfoldable pub set_header : String → String → Exchange → Exchange
set_header key value e = elim e.sent [
  | none ↦ record e { headers = e.headers ++ (key, value) ∷ [] }
  | some s ↦ e
]

-- `WriteHeader` of the wrapper: it records every status, and the first one is sent.
unfoldable pub write_header : ℕ → Exchange → Exchange
write_header status e = record e {
  recorded = status;
  sent = elim e.sent [ none ↦ some status | some s ↦ some s ];
}

unfoldable pub write_body : Body → Exchange → Exchange
write_body b e = record e {
  sent = elim e.sent [ none ↦ some 200 | some s ↦ some s ];
  bodies = e.bodies ++ b ∷ [];
}

-- `writeJSON` on the writer.
unfoldable pub write_response : Response → Exchange → Exchange
write_response p e =
    write_body p.body (write_header p.status (set_header "Content-Type" p.content_type e))

abbrev pub Serve : Type 0 → Type 0
Serve W = Request → Exec (W × Exchange) (Unit {0})

module _ {W : Type 0} where
  pub written : Exchange → Outcome Response × W → Outcome (Unit {0}) × (W × Exchange)
  written e (returns p, w) = (returns tt, (w, write_response p e))
  written e (panics, w) = (panics, (w, e))

  -- A handler that writes its one response at the end.
  pub respond : (Request → Exec W Response) → Serve W
  respond f r (w, e) = written e (f r w)

  -- `Recoverer`: a panic is answered with 500.
  pub after_panic : Outcome (Unit {0}) × (W × Exchange) → Outcome (Unit {0}) × (W × Exchange)
  after_panic (returns u, s) = (returns u, s)
  after_panic (panics, (w, e)) =
      (returns tt, (w, write_response (write_error "internal server error" "INTERNAL_ERROR" 500) e))

  pub recoverer : Serve W → Serve W
  recoverer next r s = after_panic (next r s)

  -- The identifier of the request goes into the response and the context.
  pub with_id : Serve W → String → Serve W
  with_id next id r (w, e) =
      next (record r { context = context_with_request_id r.context id })
        (w, set_header "X-Request-ID" id e)

module _ {W : Type 0} (runtime : Runtime W) where
  -- The two `WithLabelValues` with what follows them: client_golang panics on a label that is not
  -- valid UTF-8, before anything is counted.
  pub count_request : Time → RawText → RawText → Exec (W × Exchange) (Unit {0})
  count_request duration (utf8 method) (utf8 path) (w, e) =
      let counted = runtime.inc (http_requests_total method path (itoa e.recorded)) w in
      (returns tt, (runtime.observe (http_request_duration method path) duration counted, e))
  count_request duration (utf8 method) (not_utf8 path) s = (panics, s)
  count_request duration (not_utf8 method) path s = (panics, s)

  -- What `Logger` does after a handler that has returned.
  pub after_next : Time → Request → Exec (W × Exchange) (Unit {0})
  after_next start r (w, e) =
      let (done, w1) = runtime.now w in count_request (done - start) r.method r.path (w1, e)

  -- The deferred decrement of the gauge.
  abbrev pub land : W × Exchange → W × Exchange
  land (w, e) = (runtime.dec http_requests_in_flight w, e)

  pub logger : Serve W → Serve W
  logger next r (w, e) =
      let (start, w1) = runtime.now w in
      let w2 = runtime.inc http_requests_in_flight w1 in
      defer land (λ s. continue (λ _. after_next start r) (next r s))
        (w2, record e { recorded = 200 })

  -- `RequestID`: a request without an identifier in its header gets a new one.
  pub request_id : Serve W → Serve W
  request_id next r (w, e) =
      let (id, w1) = runtime.new_string w in
      let fresh = with_id next id r (w1, e) in
      let given = with_id next r.request_id r (w, e) in if r.request_id == "" then fresh else given

  abbrev pub wrapped : Serve W → Serve W
  wrapped next = request_id (logger (recoverer next))

-- The routes by method and path; `metrics` is the handler of the Prometheus library, and `mount`
-- finds the handler.
abbrev pub routes : {W : Type 0} → Handler W → Serve W → List (String × String × Serve W)
routes h metrics =
    ("GET", "/health", respond (λ r. health_check h))
    ∷ ("*", "/metrics", metrics)
    ∷ ("POST", "/api/v1/notify", respond (λ r. send_notification h r.body))
    ∷ ("GET", "/api/v1/notifications", respond (λ r. get_notification_status h r.query_id))
    ∷ []

abbrev pub new_router :
    {W : Type 0} → (List (String × String × Serve W) → Serve W) → Handler W → Serve W → Serve W
new_router mount h metrics = wrapped h.runtime (mount (routes h metrics))
