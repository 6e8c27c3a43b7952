-- ===== src/Api/Handler/Sending.antt =====
-- What `SendNotification` does for a request.
use notification_system.Base.{
  String, Option, ◌≡◌, refl, ◌∙◌, sym, some_inj, inl, inr, Bool-cases, Option-cases,
}
use notification_system.Json.{Bytes}
use notification_system.Store.Tables.{Tables}
use notification_system.Cache.Coherence.{IsCoherent}
use notification_system.Api.Request.{decode_request, lacks_field, valid_channel}
use notification_system.Api.Handler.{Handler, after_decode, send_notification}
use notification_system.Api.Handler.Steps.{after_limit-Handled}
use notification_system.Api.Handler.Laws.{HandlerLaws}
use notification_system.Api.Handler.Limiting.{allow-Limits}
use notification_system.Api.Handler.Outcomes.{Handled, invalid}

module _ {W : Type 0} (h : Handler W) (cached : String → W → Option Bytes) (tables : W → Tables)
    (laws : HandlerLaws h cached tables) where
  -- Where nothing else writes to the tables and the cache is coherent, `SendNotification` returns
  -- in one of eight ways. It answers 400 exactly where the request is not valid. 202 comes with one
  -- new pending row, of a user in the tables who receives on the channel, and after the message was
  -- written with the row in place; the 500 of a failed publish comes with the same row. Every other
  -- answer leaves the tables, but for a 500 of a `Save` whose row may be there all the same.
  pub send_notification-Handled :
      (body : Bytes) (w : W)
      → IsCoherent cached tables w
      → let (r, x) = send_notification h body w in Handled h tables body (tables w) r x
  send_notification-Handled body w coherent = elim (Option-cases (decode_request body)) [
    | inl e ↦
        unfold send_notification after_decode in rw e (invalid _ _ (λ req v. absurd (cc)) refl refl)
    | inr (req, e) ↦
        unfold send_notification after_decode in
        rw e (elim (Bool-cases (lacks_field req)) [
          | inl q ↦ rw q (
              invalid _ _
                (λ other v.
                  let same : req ≡ other = some_inj (sym e ∙ v.0) in
                  absurd (cc (rw (← same) at v.1)))
                refl refl)
          | inr q ↦ elim (Bool-cases (valid_channel req.channel)) [
            | inl v ↦
                let limits = allow-Limits h cached tables laws req.user_id req.channel w coherent in
                let (b, f, r) = limits.answered in
                rw (q, v, r)
                  (after_limit-Handled h cached tables laws body req (e, q, v) (tables w) b f _
                    limits.kept limits.coherent)
            | inr v ↦
                rw (q, v)
                  (invalid _ _
                    (λ other k. let same : req ≡ other = some_inj (sym e ∙ k.0) in absurd (cc)) refl
                    refl)
          ]
        ])
  ]
