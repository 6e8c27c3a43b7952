-- ===== src/Worker/Interleaving/Sents.antt =====
-- What a step of a delivery does to the logs that read sent, which is what the check of
-- internal/worker/worker.go looks for.
use notification_system.Base.{
  String, Bool, true, false, ◌==◌, eq_iff, Option, none, some, List, [], ◌∷◌, ◌++◌, map, ◌≡◌, ◌≢◌,
  ◌⊎◌, refl, sym, ap, ◌∙◌, inl, inr, subst, some_inj, arith, Bool-cases,
}
use notification_system.Failure.{Failure, text, Result}
use notification_system.Effect.{Outcome}
use notification_system.Domain.{
  Notification, DeliveryLog, Time, Status, status_pending, status_sent, status_failed,
}
use notification_system.Store.Contracts.{Executes-cases}
use notification_system.Store.Tables.{Tables, find_log, has_sent, set_delivery, apply}
use notification_system.Worker.{Worker, delivery_log, conclude}
use notification_system.Worker.Laws.{WorkerLaws}
use notification_system.Worker.Effects.{log_with}
use notification_system.Worker.Logs.{update_cases}
use notification_system.Worker.Interleaving.{
  Stage, arrived, unsent, logged, tried, ended, owned, Step, check, refuse, skip, log, lose, try,
  crash, fail, succeed, conclude-failed, conclude-sent,
}
use notification_system.Worker.Interleaving.Owned.{Good, deliver-tables}
use notification_system.Worker.Interleaving.Rows.{find_log-own, find_log-other}

-- The log `a` is one of the notification `i` and reads sent.
abbrev pub SentAs : String → String → List DeliveryLog → Type 0
SentAs i a rs =
    (r : DeliveryLog) × (find_log a rs ≡ some r)
    × (r.notification_id ≡ i)
    × (r.status ≡ status_sent)

-- The notification of a delivery that has made its check and has not ended.
abbrev pub busy : Notification → Stage → Option String
busy n arrived = none
busy n unsent = some n.id
busy n (logged id) = some n.id
busy n (tried id e) = some n.id
busy n (ended id r) = none

pending-ne-sent : ◌≢◌ {A = String} status_pending status_sent
pending-ne-sent h = absurd (let no = (eq_iff "pending" "sent").1 h in cc)

find_log-appended :
    (a : String) (rs : List DeliveryLog) (l r : DeliveryLog)
    → find_log a (rs ++ l ∷ []) ≡ some r
    → (find_log a rs ≡ some r) ⊎ (r ≡ l)
unfolding find_log
find_log-appended a [] l r h = ground arith
find_log-appended a (x ∷ xs) l r h = let rest = find_log-appended a xs l r in ground arith

-- A log that reads sent is one that the check finds.
pub has_sent-SentAs : (i a : String) (rs : List DeliveryLog) → SentAs i a rs → has_sent i rs ≡ true
unfolding find_log has_sent
has_sent-SentAs i a [] (r, f, e, s) = absurd (let no = f in cc)
has_sent-SentAs i a (x ∷ xs) (r, f, e, s) = elim (Bool-cases (x.id == a)) [
  | inl q ↦
      let same : x ≡ r = ground arith in
      let about = (eq_iff x.notification_id i).1 (rw same e) in
      let sent = (eq_iff x.status status_sent).1 (rw same s) in rw (about, sent) refl
  | inr q ↦ let later = has_sent-SentAs i a xs (r, ground arith, e, s) in ground arith
]

module _ (i a : String) (rs : List DeliveryLog) where
  append-SentAs :
      (l : DeliveryLog) → l.status ≡ status_pending → SentAs i a (rs ++ l ∷ []) → SentAs i a rs
  append-SentAs l p (r, f, e, s) = elim (find_log-appended a rs l r f) [
    | inl found ↦ (r, found, e, s)
    | inr new ↦ absurd (pending-ne-sent (sym p ∙ ap (λ l. l.status) (sym new) ∙ s))
  ]

  -- An update may make the log that it is for read sent, and no other.
  map-SentAs :
      (id : String) (status : Status) (message : String) (l : DeliveryLog)
      → find_log id rs ≡ some l
      → SentAs i a (map (set_delivery status message id) rs)
      → SentAs i a rs ⊎ ((id ≡ a) × (l.notification_id ≡ i))
  map-SentAs id status message l own (r, f, e, s) = elim (Bool-cases (id == a)) [
    | inr q ↦ inl (r, sym (find_log-other a id status message rs q) ∙ f, e, s)
    | inl q ↦
        let same : id ≡ a = (eq_iff id a).0 q in
        let l' : DeliveryLog = record l { status = status; error_message = message } in
        let after : find_log a (map (set_delivery status message id) rs) ≡ some l' =
          subst (λ j. find_log j (map (set_delivery status message id) rs) ≡ some l') same
            (find_log-own id status message rs l own) in
        let changed : some r ≡ some l' = sym f ∙ after in
        inr (same, ap (λ x. x.notification_id) (sym (some_inj changed)) ∙ e)
  ]

module _ {W : Type 0} (w : Worker W) (tables : W → Tables) (laws : WorkerLaws w tables)
    (n : Notification) (start : Time) (i a : String) where
  abbrev pub SentAt : W → Type 0
  SentAt x = SentAs i a (tables x).delivery_logs

  alike : (x y : W) → tables y ≡ tables x → SentAt y → SentAt x
  alike x y k h = subst (λ t. SentAs i a t.delivery_logs) k h

  check-tables :
      (x z : W) (reply : Result Bool)
      → w.log_repo.exists_sent n.id x ≡ (reply, z)
      → tables z ≡ tables x
  check-tables x z reply h = sym (ap (λ p. tables p.1) h) ∙ laws.log_repo.exists_keeps n.id x

  insert-SentAs :
      (id : String) (at : Time) (x : W)
      → SentAt (w.log_repo.insert (delivery_log w id n at) x).1
      → SentAt x
  unfolding apply
  insert-SentAs id at x h =
      elim (Executes-cases tables _ x _ (laws.log_repo.insert (delivery_log w id n at) x)) [
        | inl k ↦ alike x _ k h
        | inr k ↦
            append-SentAs i a (tables x).delivery_logs (delivery_log w id n at) refl
              (subst (λ t. SentAs i a t.delivery_logs) k h)
      ]

  update-SentAs :
      (id : String) (status : Status) (message : String) (x : W) (at : Time)
      → find_log id (tables x).delivery_logs ≡ some (log_with w id n at status_pending "")
      → SentAt (w.log_repo.update_delivery_status id status message x).1
      → SentAt x ⊎ ((id ≡ a) × (n.id ≡ i))
  unfolding apply
  update-SentAs id status message x at own h =
      elim (update_cases w tables laws n id status message x) [
        | inl k ↦ inl (alike x _ k h)
        | inr k ↦
            map-SentAs i a (tables x).delivery_logs id status message
              (log_with w id n at status_pending "") own
              (subst (λ t. SentAs i a t.delivery_logs) k h)
      ]

  conclude-SentAs :
      (id : String) (e : Option Failure) (x : W) (at : Time)
      → find_log id (tables x).delivery_logs ≡ some (log_with w id n at status_pending "")
      → SentAt (conclude w id start e x).1
      → SentAt x ⊎ ((id ≡ a) × (n.id ≡ i))
  unfolding conclude
  conclude-SentAs id (some e) x at own h = update-SentAs id status_failed (text e) x at own (
      alike (w.log_repo.update_delivery_status id status_failed (text e) x).1 _
        (laws.runtime.inc_keeps _ _) h)
  conclude-SentAs id none x at own h = update-SentAs id status_sent "" x at own (
      alike (w.log_repo.update_delivery_status id status_sent "" x).1 _
        (laws.runtime.observe_keeps _ _ _ ∙ laws.runtime.now_keeps _ ∙ laws.runtime.inc_keeps _ _)
        h)

  attempt-SentAs :
      (x x1 x2 z : W) (id : String) (at : Time) (reply : Option Failure)
      → w.runtime.new_string x ≡ (id, x1)
      → w.runtime.now x1 ≡ (at, x2)
      → w.log_repo.insert (delivery_log w id n at) x2 ≡ (reply, z)
      → SentAt z
      → SentAt x
  attempt-SentAs x x1 x2 z id at reply h k q s =
      let both : tables x2 ≡ tables x =
        sym (ap (λ p. tables p.1) k)
        ∙ laws.runtime.now_keeps x1
        ∙ sym (ap (λ p. tables p.1) h)
        ∙ laws.runtime.new_string_keeps x in
      alike x x2 both (insert-SentAs id at x2 (alike _ z (sym (ap (λ p. tables p.1) q)) s))

  concluded-SentAs :
      (id : String) (e : Option Failure) (x y : W) (at : Time)
      → find_log id (tables x).delivery_logs ≡ some (log_with w id n at status_pending "")
      → (r : Outcome (Option Failure)) → conclude w id start e x ≡ (r, y)
      → SentAt y
      → SentAt x ⊎ ((some id ≡ some a) × (some n.id ≡ some i) × ◌≡◌ {A = Option String} none none)
  concluded-SentAs id e x y at own r h p =
      elim (conclude-SentAs id e x at own (alike _ y (sym (ap (λ o. tables o.1) h)) p)) [
        | inl old ↦ inl old
        | inr (same, about) ↦ inr (ap some same, ap some about, refl)
      ]

  -- What reads sent after a step read sent before it, or the step has concluded the delivery of that
  -- notification, which owns the log.
  pub Step-SentAs :
      (x y : W) (s s' : Stage)
      → Step w n start x y s s'
      → Good w tables laws n s (tables x)
      → SentAt y
      → SentAt x ⊎ ((owned s ≡ some a) × (busy n s ≡ some i) × (busy n s' ≡ none))
  Step-SentAs x y s s' (check h) g p = inl (alike x y (check-tables x y _ h) p)
  Step-SentAs x y s s' (refuse e h) g p = inl (alike x y (check-tables x y _ h) p)
  Step-SentAs x y s s' (skip {z = z} h k) g p =
      inl (alike x y (ap tables (sym k) ∙ laws.runtime.inc_keeps _ z ∙ check-tables x z _ h) p)
  Step-SentAs x y s s' (log id at x1 x2 h k q) g p =
      inl (attempt-SentAs x x1 x2 y id at none h k q p)
  Step-SentAs x y s s' (lose id at x1 x2 e h k q) g p =
      inl (attempt-SentAs x x1 x2 y id at (some e) h k q p)
  Step-SentAs x y s s' (try e h) g p =
      inl (alike x y (sym (ap (λ o. tables o.1) h) ∙ deliver-tables w tables laws n x) p)
  Step-SentAs x y s s' (crash h) g p =
      inl (alike x y (sym (ap (λ o. tables o.1) h) ∙ deliver-tables w tables laws n x) p)
  Step-SentAs x y s s' (fail {id} {e} {z} r a b) (at, own) p =
      concluded-SentAs id (some e) x y at own _ (conclude-failed w start id e x y z r a b) p
  Step-SentAs x y s s' (succeed {id} {z} {v} r done a b c) (at, own) p =
      concluded-SentAs id none x y at own _ (conclude-sent w start id x y z v r done a b c) p

  -- A delivery that has just made its check has found no log of its notification that reads sent.
  pub Step-checked :
      (x y : W) (s s' : Stage)
      → Step w n start x y s s'
      → busy n s' ≡ some i
      → (busy n s ≡ some i) ⊎ ¬ SentAt x
  Step-checked x y s s' (check h) b = inr (λ p.
      let no = laws.log_repo.exists_ok n.id x false (ap (λ o. o.0) h) in
      let yes = has_sent-SentAs i a (tables x).delivery_logs p in
      let same = some_inj b in absurd (cc))
  Step-checked x y s s' (refuse e h) b = absurd (let no = b in cc)
  Step-checked x y s s' (skip h k) b = absurd (let no = b in cc)
  Step-checked x y s s' (log id at x1 x2 h k q) b = inl b
  Step-checked x y s s' (lose id at x1 x2 e h k q) b = absurd (let no = b in cc)
  Step-checked x y s s' (try e h) b = inl b
  Step-checked x y s s' (crash h) b = absurd (let no = b in cc)
  Step-checked x y s s' (fail r h k) b = absurd (let no = b in cc)
  Step-checked x y s s' (succeed r done h k c) b = absurd (let no = b in cc)
