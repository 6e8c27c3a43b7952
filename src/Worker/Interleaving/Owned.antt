-- ===== src/Worker/Interleaving/Owned.antt =====
-- The log that a delivery owns, whatever other deliveries do.
use notification_system.Base.{String, Option, none, some, ◌≡◌, refl, sym, ap, ◌∙◌, ◌⊎◌, inl, inr}
use notification_system.Failure.{Failure, wrap, text}
use notification_system.Effect.{Outcome, returns}
use notification_system.Domain.{
  Notification, Time, Status, status_pending, status_sent, status_failed,
}
use notification_system.Retry.Keeps.{retry_do-keeps}
use notification_system.Store.Tables.{Tables, find_log, apply}
use notification_system.Worker.{Worker, delivery_log, deliver, conclude}
use notification_system.Worker.Laws.{WorkerLaws}
use notification_system.Worker.Effects.{log_with}
use notification_system.Worker.Logs.{update_cases}
use notification_system.Worker.Interleaving.{
  Stage, arrived, unsent, logged, tried, ended, Step, check, refuse, skip, log, lose, try, crash,
  fail, succeed, conclude-failed, conclude-sent, Other, Undisturbed,
}
use notification_system.Worker.Interleaving.Rows.{find_log-new, find_log-own, Other-find_log}

module _ {W : Type 0} (w : Worker W) (tables : W → Tables) (laws : WorkerLaws w tables)
    (n : Notification) where
  abbrev pub Reads : String → Status → String → Tables → Type 0
  Reads id status message t =
      (at : Time) × (find_log id t.delivery_logs ≡ some (log_with w id n at status message))

  -- The log of a delivery that has ended reads what the answer says, or still pending.
  abbrev pub Settled : String → Outcome (Option Failure) → Tables → Type 0
  Settled id r t =
      Reads id status_pending "" t
      ⊎ (((r ≡ returns none) × Reads id status_sent "" t)
          ⊎ ((e : Failure) × (r ≡ returns (some (wrap "send failed after retries" e)))
              × Reads id status_failed (text e) t))

  abbrev pub Good : Stage → Tables → Type 0
  Good arrived t = Unit
  Good unsent t = Unit
  Good (logged id) t = Reads id status_pending "" t
  Good (tried id e) t = Reads id status_pending "" t
  Good (ended none r) t = Unit
  Good (ended (some id) r) t = Settled id r t

  Reads-Other :
      (id : String) (status : Status) (message : String) (t t' : Tables)
      → Other id t t'
      → Reads id status message t
      → Reads id status message t'
  Reads-Other id status message t t' o (at, h) = (at, Other-find_log id _ t t' o h)

  pub Good-Other : (s : Stage) (t t' : Tables) → Undisturbed s t t' → Good s t → Good s t'
  Good-Other arrived t t' o g = tt
  Good-Other unsent t t' o g = tt
  Good-Other (logged id) t t' o g = Reads-Other id _ _ t t' (o id refl) g
  Good-Other (tried id e) t t' o g = Reads-Other id _ _ t t' (o id refl) g
  Good-Other (ended none r) t t' o g = tt
  Good-Other (ended (some id) r) t t' o (inl g) = inl (Reads-Other id _ _ t t' (o id refl) g)
  Good-Other (ended (some id) r) t t' o (inr (inl (e, g))) =
      inr (inl (e, Reads-Other id _ _ t t' (o id refl) g))
  Good-Other (ended (some id) r) t t' o (inr (inr (f, e, g))) =
      inr (inr (f, e, Reads-Other id _ _ t t' (o id refl) g))

  pub deliver-tables : (x : W) → tables (deliver w n x).1 ≡ tables x
  unfolding deliver
  deliver-tables x =
      retry_do-keeps w.context w.retry_cfg (λ y. tables y ≡ tables x)
        (λ d y h. rw laws.wait_keeps h) (λ _. w.sender.send n) (λ _ y h. rw laws.send_keeps h)
        laws.tries x refl

  logged-Reads :
      (id : String) (at : Time) (x y : W)
      → w.log_repo.insert (delivery_log w id n at) x ≡ (none, y)
      → Reads id status_pending "" (tables y)
  unfolding apply
  logged-Reads id at x y h =
      let (fresh, after) =
        (laws.log_repo.insert (delivery_log w id n at) x).nil (ap (λ p. p.0) h) in
      (
        at,
        rw (rw h at after) (find_log-new (tables x).delivery_logs (delivery_log w id n at) fresh.0),
      )

  updated :
      (id : String) (status : Status) (message : String) (x : W)
      → Reads id status_pending "" (tables x)
      → let t' = tables (w.log_repo.update_delivery_status id status message x).1 in
        Reads id status_pending "" t' ⊎ Reads id status message t'
  unfolding apply
  updated id status message x (at, h) = elim (update_cases w tables laws n id status message x) [
    | inl k ↦ inl (at, rw k h)
    | inr k ↦ inr (at, rw k (find_log-own id status message (tables x).delivery_logs _ h))
  ]

  conclude-Settled :
      (id : String) (start : Time) (e : Option Failure) (x : W)
      → Reads id status_pending "" (tables x)
      → Settled id (conclude w id start e x).0 (tables (conclude w id start e x).1)
  unfolding conclude
  conclude-Settled id start (some e) x h =
      rw laws.runtime.inc_keeps (elim (updated id status_failed (text e) x h) [
        | inl p ↦ inl p
        | inr q ↦ inr (inr (e, refl, q))
      ])
  conclude-Settled id start none x h =
      rw (laws.runtime.observe_keeps, laws.runtime.now_keeps, laws.runtime.inc_keeps)
        (elim (updated id status_sent "" x h) [ inl p ↦ inl p | inr q ↦ inr (inl (refl, q)) ])

  module _ (start : Time) where
    pub Good-Step :
        (x y : W) (s s' : Stage) → Step w n start x y s s' → Good s (tables x) → Good s' (tables y)
    Good-Step x y s s' (check h) g = tt
    Good-Step x y s s' (refuse e h) g = tt
    Good-Step x y s s' (skip h k) g = tt
    Good-Step x y s s' (log id at x1 x2 h k q) g = logged-Reads id at x2 y q
    Good-Step x y s s' (lose id at x1 x2 e h k q) g = tt
    Good-Step x y s s' (try e h) g = rw (sym (ap (λ p. tables p.1) h) ∙ deliver-tables x) g
    Good-Step x y s s' (crash h) g = inl (rw (sym (ap (λ p. tables p.1) h) ∙ deliver-tables x) g)
    Good-Step x y s s' (fail {id} {e} {z} r a b) g =
        rw (conclude-failed w start id e x y z r a b) at (conclude-Settled id start (some e) x g)
    Good-Step x y s s' (succeed {id} {z} {v} r done a b c) g =
        rw (conclude-sent w start id x y z v r done a b c) at (conclude-Settled id start none x g)
