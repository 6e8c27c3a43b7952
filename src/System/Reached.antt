-- ===== src/System/Reached.antt =====
-- What holds of every thread and of the tables, however the steps lie between each other.
use notification_system.Base.{
  String, Option, none, List, [], ◌∷◌, ◌≡◌, refl, sym, ap, ◌∙◌, inl, inr, subst, Bool-cases, ◌==◌,
}
use notification_system.Effect.{returns}
use notification_system.Failure.{ok, Result-cases}
use notification_system.Domain.{Notification, Time}
use notification_system.Json.{Bytes}
use notification_system.Kafka.{Consumer, read_one}
use notification_system.Store.Tables.{Tables}
use notification_system.Worker.{Worker}
use notification_system.Worker.Keeps.{read_one-keeps}
use notification_system.Worker.Interleaving.{arrived}
use notification_system.Api.Handler.{Handler, get_notification_status}
use notification_system.Api.Handler.Keeps.{get_notification_status-keeps}
use notification_system.Api.Handler.Interleaving.{received}
use notification_system.History.Laws.{HandlerQuiet, WorkerQuiet}
use notification_system.History.Sound.{Sound, same, worker-Keeps, handler-HandlerKeeps}
use notification_system.System.{
  Thread, request, delivery, owner, Reach, begin, advance, post, query, fetch, idle,
}
use notification_system.System.Good.{ThreadGood}
use notification_system.System.Frames.{AllGood, AllApart, Distinct, Turn-Good}

module _ {W : Type 0} (h : Handler W) (Runs : Worker W → Consumer W → Type 0)
    (cached : String → W → Option Bytes) (tables : W → Tables)
    (quiet : HandlerQuiet cached tables h)
    (all : (w : Worker W) (c : Consumer W) → Runs w c → WorkerQuiet cached tables w c)
    (t₀ : Tables) where
  abbrev pub GoodThreads : List (Thread W) → W → Type 0
  GoodThreads = AllGood h Runs cached tables quiet all t₀

  abbrev pub Separate : List (Thread W) → Type 0
  Separate = Distinct h Runs cached tables quiet all t₀

  -- A change outside the threads that leaves the tables.
  GoodThreads-same :
      (x y : W) (ts : List (Thread W)) → tables y ≡ tables x → GoodThreads ts x → GoodThreads ts y
  GoodThreads-same x y [] e g = tt
  GoodThreads-same x y (t ∷ ts) e (g, gs) = (
    subst (ThreadGood h Runs cached tables quiet all t₀ t) (sym e) g,
    GoodThreads-same x y ts e gs,
  )

  -- A thread without a log is apart from all others.
  AllApart-new :
      (u : Thread W) (ts : List (Thread W))
      → owner u ≡ none
      → AllApart h Runs cached tables quiet all t₀ u ts
  AllApart-new u [] e = tt
  AllApart-new u (t ∷ ts) e = ((λ id o p. absurd (cc)), AllApart-new u ts e)

  pub query-tables : (id : String) (x : W) → tables (get_notification_status h id x).1 ≡ tables x
  unfolding get_notification_status
  query-tables id x = elim (Bool-cases (id == "")) [
    | inl e ↦ rw e refl
    | inr e ↦ elim (Result-cases (h.notif_repo.find_by_id id x).0) [
      | inl (n, r) ↦ rw (e, r) (quiet.laws.notif_repo.find_keeps id x)
      | inr (f, r) ↦ rw (e, r) (quiet.laws.notif_repo.find_keeps id x)
    ]
  ]

  module _ {w : Worker W} {c : Consumer W} (runs : Runs w c) (u : W) where
    pub read-tables : tables (read_one c u).1 ≡ tables u
    read-tables =
        read_one-keeps (λ x. tables x ≡ tables u) c (λ x e. (all w c runs).read_keeps x ∙ e) u refl

    read-Sound : Sound cached tables t₀ u → Sound cached tables t₀ (read_one c u).1
    read-Sound =
        read_one-keeps (Sound cached tables t₀) c
          (λ x. same cached tables t₀ x _ ((all w c runs).read x) ((all w c runs).read_keeps x)) u

    -- A read that replies with a notification, and the look at the clock after it.
    module _ (z y : W) (n : Notification) (start : Time) (e : read_one c u ≡ (returns (ok n), z))
        (f : w.runtime.now z ≡ (start, y)) where
      pub fetched-tables : tables y ≡ tables u
      fetched-tables =
          sym (ap (λ p. tables p.1) f)
          ∙ (all w c runs).laws.runtime.now_keeps z
          ∙ sym (ap (λ p. tables p.1) e)
          ∙ read-tables

      fetched-Sound : Sound cached tables t₀ u → Sound cached tables t₀ y
      fetched-Sound sound = subst (Sound cached tables t₀) (ap (λ p. p.1) f) (
          (worker-Keeps cached tables t₀ w c (all w c runs)).now z
            (subst (Sound cached tables t₀) (ap (λ p. p.1) e) (read-Sound sound)))

  -- However the steps of requests and of deliveries lie between each other, where nothing else writes
  -- to the tables or the cache: what holds of every history holds, each request knows what its phase
  -- says and answers 202 only for the notification that it has stored, each delivery that has inserted
  -- a log finds it pending until it concludes, and then as its answer says or still pending, and no
  -- two deliveries have the same log.
  pub Reach-Good :
      (x y : W) (ts : List (Thread W))
      → Sound cached tables t₀ x
      → Reach h Runs x ts y
      → Sound cached tables t₀ y × GoodThreads ts y × Separate ts
  Reach-Good x y ts k begin = (k, tt, tt)
  Reach-Good x y ts k (advance {ts = us} {u = u} r m) =
      let (sound, goods, distinct) = Reach-Good x u us k r in
      Turn-Good h Runs cached tables quiet all t₀ u y sound us ts m goods distinct
  Reach-Good x y ts k (post {ts = us} {req = req} body r valid) =
      let (sound, goods, distinct) = Reach-Good x y us k r in
      (sound, ((valid.2, tt), goods), (AllApart-new (request req received) us refl, distinct))
  Reach-Good x y ts k (query {u = u} id r e) =
      let (sound, goods, distinct) = Reach-Good x u ts k r in
      let kept : tables y ≡ tables u = sym (ap tables e) ∙ query-tables id u in
      (
        subst (Sound cached tables t₀) e (
            get_notification_status-keeps h (Sound cached tables t₀)
              (handler-HandlerKeeps cached tables t₀ h quiet) id u sound),
        GoodThreads-same u y ts kept goods,
        distinct,
      )
  Reach-Good x y ts k
        (fetch {ts = us} {u = u} {z = z} {w = w} {c = c} {n = n} {start = start} r runs e f) =
      let (sound, goods, distinct) = Reach-Good x u us k r in
      (
        fetched-Sound runs u z y n start e f sound,
        ((c, runs, tt), GoodThreads-same u y us (fetched-tables runs u z y n start e f) goods),
        (AllApart-new (delivery w n start arrived) us refl, distinct),
      )
  Reach-Good x y ts k (idle {u = u} {w = w} {c = c} r runs e) =
      let (sound, goods, distinct) = Reach-Good x u ts k r in
      (
        subst (Sound cached tables t₀) (ap (λ p. p.1) e) (read-Sound runs u sound),
        GoodThreads-same u y ts (sym (ap (λ p. tables p.1) e) ∙ read-tables runs u) goods,
        distinct,
      )
