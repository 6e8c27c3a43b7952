-- ===== src/Api/Handler/Unscanned.antt =====
-- A request for a user whose row has a NULL that `FindUserByID` cannot scan.
use mathlib.Core.Option
use notification_system.Base.{
  String, Option, none, some, ◌≡◌, ◌∙◌, sym, ◌⊎◌, inl, inr, arith, some_inj,
}
use notification_system.Domain.{User}
use notification_system.Json.{Bytes}
use notification_system.Effect.{Outcome, returns}
use notification_system.Store.Tables.{Tables, UserRow, find_user, scan_user}
use notification_system.Cache.Coherence.{IsCoherent, stored_user}
use notification_system.Api.{Response, write_error}
use notification_system.Api.Request.{SendRequest}
use notification_system.Api.Handler.{Handler, send_notification}
use notification_system.Api.Handler.Laws.{HandlerLaws}
use notification_system.Api.Handler.Outcomes.{
  IsValid, Handled, invalid, limited, unknown, unread, opted_out, unsaved, unqueued, queued,
}
use notification_system.Api.Handler.Sending.{send_notification-Handled}

-- The schema lets each of these three columns be NULL.
abbrev pub HasNull : UserRow → Type 0
HasNull row = (row.phone ≡ none) ⊎ ((row.device_token ≡ none) ⊎ (row.platform ≡ none))

scan_user_null : (row : UserRow) → HasNull row → scan_user row ≡ none
unfolding scan_user
scan_user_null row h = ground arith

-- The answer is 404 or 429.
abbrev pub IsRefused : Outcome Response → Type 0
IsRefused r =
    (r ≡ returns (write_error "user not found" "USER_NOT_FOUND" 404))
    ⊎ (r ≡ returns (write_error "rate limit exceeded for this channel" "RATE_LIMITED" 429))

module _ {W : Type 0} (h : Handler W) (tables : W → Tables) (body : Bytes) (req : SendRequest)
    (valid : IsValid body req) (t : Tables) (missing : stored_user req.user_id t ≡ none) where
  never_stored :
      (other : SendRequest)
      → IsValid body other
      → (u : User) → ¬ (stored_user other.user_id t ≡ some u)
  never_stored other v u k = let same : req ≡ other = some_inj (sym valid.0 ∙ v.0) in cc

  refused :
      (r : Outcome Response) (x : W) → Handled h tables body t r x → IsRefused r × (tables x ≡ t)
  refused r x (invalid message code never e k) = absurd (never req valid)
  refused r x (limited other v e k) = (inr e, k)
  refused r x (unknown other v e k) = (inl e, k)
  refused r x (unread other u v s e k) = absurd (never_stored other v u s)
  refused r x (opted_out other u p v s g d e k) = absurd (never_stored other v u s)
  refused r x (unsaved other n v a e k) = absurd (never_stored other v a.user a.known)
  refused r x (unqueued other n v a f e k) = absurd (never_stored other v a.user a.known)
  refused r x (queued other n v a f e y d i k) = absurd (never_stored other v a.user a.known)

module _ {W : Type 0} (h : Handler W) (cached : String → W → Option Bytes) (tables : W → Tables)
    (laws : HandlerLaws h cached tables) where
  -- Where nothing else writes to the tables and the cache is coherent: a valid request for a user
  -- whose row has NULL as its phone, its device token or its platform is answered with 404, or with
  -- 429 where the limiter refuses it, whatever its channel is, and leaves the tables as they were.
  pub send_notification-IsRefused :
      (body : Bytes) (req : SendRequest) (w : W) (row : UserRow)
      → IsCoherent cached tables w
      → IsValid body req
      → find_user req.user_id (tables w).users ≡ some row
      → HasNull row
      → let (r, x) = send_notification h body w in IsRefused r × (tables x ≡ tables w)
  unfolding Option.bind
  send_notification-IsRefused body req w row coherent valid there null =
      let missing : stored_user req.user_id (tables w) ≡ none =
        rw there (scan_user_null row null) in
      refused h tables body req valid (tables w) missing _ _
        (send_notification-Handled h cached tables laws body w coherent)
