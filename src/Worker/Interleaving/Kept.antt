-- ===== src/Worker/Interleaving/Kept.antt =====
-- What the steps of a delivery keep, if every operation that they use keeps it.
use notification_system.Base.{
  String, none, some, ◌≡◌, refl, sym, ap, ◌∙◌, subst, List, inl, inr, ◌⊎◌, some_inj,
}
use notification_system.Domain.{Notification, Time}
use notification_system.Store.Contracts.{Executes-cases}
use notification_system.Store.Tables.{Tables, NotificationRow, find_log, apply}
use notification_system.Worker.{Worker, delivery_log}
use notification_system.Worker.Keeps.{Keeps, deliver-keeps, conclude-keeps}
use notification_system.Worker.Laws.{WorkerLaws}
use notification_system.Worker.Logs.{update_cases}
use notification_system.Worker.Interleaving.{
  Stage, owned, Step, check, refuse, skip, log, lose, try, crash, fail, succeed, conclude-failed,
  conclude-sent,
}

module _ {W : Type 0} (w : Worker W) (P : W → Type 0) (k : Keeps w P) (n : Notification)
    (start : Time) where
  at_end : {A : Type 0} {p : A × W} {a : A} {y : W} → p ≡ (a, y) → P p.1 → P y
  at_end e h = subst P (ap (λ (r : _ × W). r.1) e) h

  pub Step-keeps : (x y : W) (s s' : Stage) → Step w n start x y s s' → P x → P y
  Step-keeps x y s s' (check h) p = at_end h (k.exists_sent n.id x p)
  Step-keeps x y s s' (refuse e h) p = at_end h (k.exists_sent n.id x p)
  Step-keeps x y s s' (skip h r) p = subst P r (k.inc _ _ (at_end h (k.exists_sent n.id x p)))
  Step-keeps x y s s' (log id at x1 x2 a b c) p =
      at_end c (k.insert _ refl x2 (at_end b (k.now x1 (at_end a (k.new_string x p)))))
  Step-keeps x y s s' (lose id at x1 x2 e a b c) p =
      at_end c (k.insert _ refl x2 (at_end b (k.now x1 (at_end a (k.new_string x p)))))
  Step-keeps x y s s' (try e h) p = at_end h (deliver-keeps w P k n x p)
  Step-keeps x y s s' (crash h) p = at_end h (deliver-keeps w P k n x p)
  Step-keeps x y s s' (fail {id} {e} {z} r a b) p =
      at_end (conclude-failed w start id e x y z r a b) (conclude-keeps w P k id start (some e) x p)
  Step-keeps x y s s' (succeed {id} {z} {v} r done a b c) p =
      at_end (conclude-sent w start id x y z v r done a b c)
        (conclude-keeps w P k id start none x p)

module _ {W : Type 0} (w : Worker W) (tables : W → Tables) (laws : WorkerLaws w tables)
    (n : Notification) (start : Time) where
  -- The rows of the notifications.
  rows-Keeps : (rows : List NotificationRow) → Keeps w (λ x. (tables x).notifications ≡ rows)
  unfolding apply
  rows-Keeps rows = record {
    new_string = λ x p. rw laws.runtime.new_string_keeps p;
    now = λ x p. rw laws.runtime.now_keeps p;
    inc = λ m x p. rw laws.runtime.inc_keeps p;
    observe = λ m t x p. rw laws.runtime.observe_keeps p;
    insert = λ l s x p. elim (Executes-cases tables _ x _ (laws.log_repo.insert l x)) [
      | inl e ↦ rw e p
      | inr e ↦ rw e p
    ];
    update = λ id status message s x p. elim (update_cases w tables laws n id status message x) [
      | inl e ↦ rw e p
      | inr e ↦ rw e p
    ];
    exists_sent = λ id x p. rw laws.log_repo.exists_keeps p;
    wait = λ d x p. rw laws.wait_keeps p;
    send = λ m x p. rw laws.send_keeps p;
    tries = laws.tries;
  }

  pub Step-notifications :
      (x y : W) (s s' : Stage)
      → Step w n start x y s s'
      → (tables y).notifications ≡ (tables x).notifications
  Step-notifications x y s s' step =
      Step-keeps w _ (rows-Keeps (tables x).notifications) n start x y s s' step refl

  inserted-fresh :
      (x x1 x2 y : W) (id : String) (at : Time)
      → w.runtime.new_string x ≡ (id, x1)
      → w.runtime.now x1 ≡ (at, x2)
      → w.log_repo.insert (delivery_log w id n at) x2 ≡ (none, y)
      → find_log id (tables x).delivery_logs ≡ none
  inserted-fresh x x1 x2 y id at a b c =
      let same : tables x2 ≡ tables x =
        sym (ap (λ p. tables p.1) b)
        ∙ (laws.runtime.now_keeps x1
            ∙ (sym (ap (λ p. tables p.1) a) ∙ laws.runtime.new_string_keeps x)) in
      let (fresh, done) =
        (laws.log_repo.insert (delivery_log w id n at) x2).nil (ap (λ p. p.0) c) in
      rw (← same) fresh.0

  -- A log that a step begins to own is new.
  pub Step-owned :
      (x y : W) (s s' : Stage) (id : String)
      → Step w n start x y s s'
      → owned s' ≡ some id
      → (owned s ≡ some id) ⊎ (find_log id (tables x).delivery_logs ≡ none)
  Step-owned x y s s' id (check h) o = inl o
  Step-owned x y s s' id (refuse e h) o = inl o
  Step-owned x y s s' id (skip h r) o = inl o
  Step-owned x y s s' id (log j at x1 x2 a b c) o = inr (
      subst (λ i. find_log i (tables x).delivery_logs ≡ none) (some_inj o)
        (inserted-fresh x x1 x2 y j at a b c))
  Step-owned x y s s' id (lose j at x1 x2 e a b c) o = inl o
  Step-owned x y s s' id (try e h) o = inl o
  Step-owned x y s s' id (crash h) o = inl o
  Step-owned x y s s' id (fail r a b) o = inl o
  Step-owned x y s s' id (succeed r done a b c) o = inl o
