-- ===== src/Retry/Keeps.antt =====
-- What a run of `Do` keeps: rules for its callers.
use notification_system.Base.{ℕ, ap, subst, ◌<◌, ◌≡◌, refl, ◌∙◌, Option, none}
use notification_system.Failure.{Failure}
use notification_system.Effect.{Outcome, returns, Exec}
use notification_system.Retry.{Config, Context, retry_do}
use notification_system.Retry.Runs.{
  Failed, first, again, Ending, success, crash, cancel, exhaust, retry_do_iff,
}

-- A predicate on worlds that the waits keep.
module _ {W : Type 0} (ctx : Context W) (cfg : Config) (P : W → Type 0)
    (wait_keeps : (d : ℕ) (w : W) → P w → P (ctx.wait d w).1) where
  module _ (fn : ℕ → Exec W (Option Failure))
      (fn_keeps : (k : ℕ) (w : W) → P w → P (fn k w).1) where
    Failed-keeps : {w u : W} {k : ℕ} → Failed ctx cfg fn w k u → P w → P u
    Failed-keeps first p = p
    Failed-keeps (again {k} {u} {v} n f h d) p =
        subst P (ap (λ q. q.1) d)
          (wait_keeps _ v (subst P (ap (λ q. q.1) h) (fn_keeps k u (Failed-keeps f p))))

    Ending-keeps : {w x : W} {r : Outcome (Option Failure)} → Ending ctx cfg fn w r x → P w → P x
    Ending-keeps (success {k} {u} f n h e) p =
        subst P (ap (λ q. q.1) h) (fn_keeps k u (Failed-keeps f p))
    Ending-keeps (crash {k} {u} f n h e) p =
        subst P (ap (λ q. q.1) h) (fn_keeps k u (Failed-keeps f p))
    Ending-keeps (cancel {k} {u} {v} f n h d e) p =
        subst P (ap (λ q. q.1) d)
          (wait_keeps _ v (subst P (ap (λ q. q.1) h) (fn_keeps k u (Failed-keeps f p))))
    Ending-keeps (exhaust {u} f h e) p =
        subst P (ap (λ q. q.1) h) (fn_keeps cfg.max_attempts u (Failed-keeps f p))

    pub retry_do-keeps : 0 < cfg.max_attempts → (w : W) → P w → P (retry_do ctx cfg fn w).1
    retry_do-keeps n w p = Ending-keeps ((retry_do_iff ctx cfg fn n w _ _).0 refl) p

    -- A nil result comes from an attempt that returned nil, in a world that `P` holds of.
    pub retry_do-success :
        0 < cfg.max_attempts
        → {w x : W} → P w
        → retry_do ctx cfg fn w ≡ (returns none, x)
        → (k : ℕ) × (u : W) × P u × (fn k u ≡ (returns none, x))
    retry_do-success n {w} {x} p h = go ((retry_do_iff ctx cfg fn n w x _).0 h)
      where
        go :
            Ending ctx cfg fn w (returns none) x
            → (k : ℕ) × (u : W) × P u × (fn k u ≡ (returns none, x))
        go (success {k} {u} f m e _) = (k, u, Failed-keeps f p, e)
        go (crash f m e q) = cc
        go (cancel f m e d q) = cc
        go (exhaust f e q) = cc

    -- Two functions that agree on the worlds of `P` are retried alike.
    module _ (other : ℕ → Exec W (Option Failure))
        (agree : (k : ℕ) (w : W) → P w → other k w ≡ fn k w) where
      Failed-agree : {w u : W} {k : ℕ} → P w → Failed ctx cfg fn w k u → Failed ctx cfg other w k u
      Failed-agree p first = first
      Failed-agree p (again {k} {u = u} n f h d) =
          again n (Failed-agree p f) (agree k u (Failed-keeps f p) ∙ h) d

      Ending-agree :
          {w x : W} {r : Outcome (Option Failure)}
          → P w
          → Ending ctx cfg fn w r x
          → Ending ctx cfg other w r x
      Ending-agree p (success {k} {u} f n h e) =
          success (Failed-agree p f) n (agree k u (Failed-keeps f p) ∙ h) e
      Ending-agree p (crash {k} {u} f n h e) =
          crash (Failed-agree p f) n (agree k u (Failed-keeps f p) ∙ h) e
      Ending-agree p (cancel {k} {u} f n h d e) =
          cancel (Failed-agree p f) n (agree k u (Failed-keeps f p) ∙ h) d e
      Ending-agree p (exhaust {u} f h e) =
          exhaust (Failed-agree p f) (agree cfg.max_attempts u (Failed-keeps f p) ∙ h) e

      pub retry_do-agree :
          0 < cfg.max_attempts → (w : W) → P w → retry_do ctx cfg other w ≡ retry_do ctx cfg fn w
      retry_do-agree n w p =
          (retry_do_iff ctx cfg other n w _ _).1
            (Ending-agree p ((retry_do_iff ctx cfg fn n w _ _).0 refl))
