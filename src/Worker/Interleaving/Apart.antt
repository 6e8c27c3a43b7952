-- ===== src/Worker/Interleaving/Apart.antt =====
-- What a step of one delivery does to the logs of the others: nothing.
use notification_system.Base.{
  String, Bool, false, ◌==◌, eq_iff, Option, none, some, List, ◌≡◌, ◌≢◌, refl, sym, ap, ◌∙◌, inl,
  inr, subst, Bool-cases, Option-cases,
}
use notification_system.Failure.{Failure, Result}
use notification_system.Domain.{Notification, DeliveryLog, Time, Status}
use notification_system.Store.Tables.{Tables, find_log, apply, insert_delivery_log}
use notification_system.Worker.{Worker, conclude}
use notification_system.Worker.Laws.{WorkerLaws}
use notification_system.Worker.Logs.{update_cases}
use notification_system.Worker.Interleaving.{
  Stage, owned, Step, check, refuse, skip, log, lose, try, crash, fail, succeed, conclude-failed,
  conclude-sent, Other, same, added, changed,
}
use notification_system.Worker.Interleaving.Owned.{deliver-tables}

different :
    (id j : String) (rs : List DeliveryLog) (r : DeliveryLog)
    → find_log id rs ≡ some r
    → find_log j rs ≡ none
    → (j == id) ≡ false
different id j rs r h k = elim (Bool-cases (j == id)) [
  | inl e ↦ absurd (let q = (eq_iff j id).0 e in cc)
  | inr e ↦ e
]

module _ {W : Type 0} (w : Worker W) (tables : W → Tables) (laws : WorkerLaws w tables)
    (n : Notification) (start : Time) (id : String) (r : DeliveryLog) where
  alike : {t t' : Tables} → t' ≡ t → Other id t t'
  alike k = same (rw k refl)

  check-tables :
      (x z : W) (reply : Result Bool)
      → w.log_repo.exists_sent n.id x ≡ (reply, z)
      → tables z ≡ tables x
  check-tables x z reply h = sym (ap (λ p. tables p.1) h) ∙ laws.log_repo.exists_keeps n.id x

  insert-Other :
      (l : DeliveryLog) (x : W)
      → find_log id (tables x).delivery_logs ≡ some r
      → Other id (tables x) (tables (w.log_repo.insert l x).1)
  unfolding apply
  insert-Other l x h =
      let put =
        λ (fresh : find_log l.id (tables x).delivery_logs ≡ none)
            (k : tables (w.log_repo.insert l x).1 ≡ apply (insert_delivery_log l) (tables x)).
          let o : Other id (tables x) (tables (w.log_repo.insert l x).1) =
            added l (different id l.id (tables x).delivery_logs r h fresh) (rw k refl) in
          o in
      let inserts = laws.log_repo.insert l x in
      elim (Option-cases (w.log_repo.insert l x).0) [
        | inl e ↦ let (fresh, done) = inserts.nil e in put fresh.0 done
        | inr (f, e) ↦ elim (inserts.failed f e) [
          | inl k ↦ alike k
          | inr (fresh, done) ↦ put fresh.0 done
        ]
      ]

  update-Other :
      (j : String) (status : Status) (message : String) (x : W)
      → (j == id) ≡ false
      → Other id (tables x) (tables (w.log_repo.update_delivery_status j status message x).1)
  unfolding apply
  update-Other j status message x h = elim (update_cases w tables laws n j status message x) [
    | inl k ↦ alike k
    | inr k ↦ changed j status message h (rw k refl)
  ]

  conclude-Other :
      (j : String) (e : Option Failure) (x : W)
      → (j == id) ≡ false
      → Other id (tables x) (tables (conclude w j start e x).1)
  unfolding conclude
  conclude-Other j (some e) x h = rw laws.runtime.inc_keeps (update-Other j _ _ x h)
  conclude-Other j none x h =
      rw (laws.runtime.observe_keeps, laws.runtime.now_keeps, laws.runtime.inc_keeps)
        (update-Other j _ _ x h)

  attempt-Other :
      (l : DeliveryLog) (x x1 x2 z : W) (j : String) (at : Time) (reply : Option Failure)
      → w.runtime.new_string x ≡ (j, x1)
      → w.runtime.now x1 ≡ (at, x2)
      → w.log_repo.insert l x2 ≡ (reply, z)
      → find_log id (tables x).delivery_logs ≡ some r
      → Other id (tables x) (tables z)
  attempt-Other l x x1 x2 z j at reply h k q g =
      let both : tables x2 ≡ tables x =
        sym (ap (λ p. tables p.1) k)
        ∙ (laws.runtime.now_keeps x1
            ∙ (sym (ap (λ p. tables p.1) h) ∙ laws.runtime.new_string_keeps x)) in
      let last : tables (w.log_repo.insert l x2).1 ≡ tables z = ap (λ p. tables p.1) q in
      subst (λ t. Other id t (tables z)) both
        (subst (Other id (tables x2)) last (insert-Other l x2 (rw both g)))

  apart : (j : String) → some j ≢ some id → (j == id) ≡ false
  apart j o = elim (Bool-cases (j == id)) [
    | inl e ↦ absurd (o (ap some ((eq_iff j id).0 e)))
    | inr e ↦ e
  ]

  -- A step of one delivery is, for each log that is there and that the delivery does not own, a
  -- change of others: it adds a log under another identifier, changes its own log, or no log.
  pub Step-Other :
      (x y : W) (s s' : Stage)
      → Step w n start x y s s'
      → find_log id (tables x).delivery_logs ≡ some r
      → owned s ≢ some id
      → Other id (tables x) (tables y)
  Step-Other x y s s' (check h) g o = alike (check-tables x y _ h)
  Step-Other x y s s' (refuse e h) g o = alike (check-tables x y _ h)
  Step-Other x y s s' (skip {z = z} h k) g o =
      alike (ap tables (sym k) ∙ laws.runtime.inc_keeps _ z ∙ check-tables x z _ h)
  Step-Other x y s s' (log j at x1 x2 h k q) g o = attempt-Other _ x x1 x2 y j at none h k q g
  Step-Other x y s s' (lose j at x1 x2 e h k q) g o =
      attempt-Other _ x x1 x2 y j at (some e) h k q g
  Step-Other x y s s' (try e h) g o =
      alike (sym (ap (λ p. tables p.1) h) ∙ deliver-tables w tables laws n x)
  Step-Other x y s s' (crash h) g o =
      alike (sym (ap (λ p. tables p.1) h) ∙ deliver-tables w tables laws n x)
  Step-Other x y s s' (fail {id = j} {e = e} {z = z} r a b) g o =
      subst (Other id (tables x)) (ap (λ p. tables p.1) (conclude-failed w start j e x y z r a b))
        (conclude-Other j (some e) x (apart j o))
  Step-Other x y s s' (succeed {id = j} {z = z} {v = v} r done a b c) g o =
      subst (Other id (tables x))
        (ap (λ p. tables p.1) (conclude-sent w start j x y z v r done a b c))
        (conclude-Other j none x (apart j o))
