-- ===== src/System/Frames.antt =====
-- A step of one thread, and what it leaves to the others.
use notification_system.Base.{
  String, Option, none, some, List, [], ◌∷◌, ◌≡◌, inl, inr, subst, some_inj,
}
use notification_system.Json.{Bytes}
use notification_system.Domain.{Notification, DeliveryLog}
use notification_system.Kafka.{Consumer}
use notification_system.Store.Tables.{Tables, NotificationRow, find_notification, find_log}
use notification_system.Worker.{Worker}
use notification_system.Worker.Laws.{WorkerLaws}
use notification_system.Worker.Interleaving.{Stage, arrived, unsent, logged, tried, ended, owned}
use notification_system.Worker.Interleaving.Owned.{Good, Good-Other}
use notification_system.Api.Request.{SendRequest}
use notification_system.Api.Handler.{Handler}
use notification_system.Api.Handler.Interleaving.{
  Phase, received, allowed, user_missed, user_read, known, preferences_missed, preferences_read,
  preferred, saved, answered,
}
use notification_system.History.Laws.{HandlerQuiet, WorkerQuiet}
use notification_system.History.Sound.{Sound}
use notification_system.System.{Thread, request, delivery, ThreadStep, Turn, first, later}
use notification_system.System.Requests.{PhaseGood}
use notification_system.System.Good.{ThreadGood, Apart, Steps, ThreadStep-Steps}

found_as :
    (logs : List DeliveryLog) {i j : String} {r : DeliveryLog}
    → some j ≡ some i
    → find_log j logs ≡ some r
    → (r : DeliveryLog) × (find_log i logs ≡ some r)
found_as logs {r = r} o f = (r, subst (λ k. find_log k logs ≡ some r) (some_inj o) f)

owned-found :
    {W : Type 0} (w : Worker W) (tables : W → Tables) (laws : WorkerLaws w tables)
    (n : Notification) (s : Stage) (t : Tables) (id : String)
    → Good w tables laws n s t
    → owned s ≡ some id
    → (r : DeliveryLog) × (find_log id t.delivery_logs ≡ some r)
owned-found w tables laws n arrived t id g o = absurd (cc)
owned-found w tables laws n unsent t id g o = absurd (cc)
owned-found w tables laws n (logged j) t id (at, f) o = found_as t.delivery_logs o f
owned-found w tables laws n (tried j e) t id (at, f) o = found_as t.delivery_logs o f
owned-found w tables laws n (ended none r) t id g o = absurd (cc)
owned-found w tables laws n (ended (some j) r) t id (inl (at, f)) o = found_as t.delivery_logs o f
owned-found w tables laws n (ended (some j) r) t id (inr (inl (e, (at, f)))) o =
    found_as t.delivery_logs o f
owned-found w tables laws n (ended (some j) r) t id (inr (inr (e, q, (at, f)))) o =
    found_as t.delivery_logs o f

PhaseGood-rows :
    {W : Type 0} (h : Handler W) (req : SendRequest) (t₀ t t' : Tables)
    → ((id : String) (r : NotificationRow)
        → find_notification id t.notifications ≡ some r
        → find_notification id t'.notifications ≡ some r)
    → (s : Phase) → PhaseGood h req t₀ s t
    → PhaseGood h req t₀ s t'
PhaseGood-rows h req t₀ t t' rows received g = tt
PhaseGood-rows h req t₀ t t' rows allowed g = tt
PhaseGood-rows h req t₀ t t' rows user_missed g = tt
PhaseGood-rows h req t₀ t t' rows (user_read u) g = g
PhaseGood-rows h req t₀ t t' rows (known u) g = g
PhaseGood-rows h req t₀ t t' rows (preferences_missed u) g = g
PhaseGood-rows h req t₀ t t' rows (preferences_read u p) g = g
PhaseGood-rows h req t₀ t t' rows (preferred u p) g = g
PhaseGood-rows h req t₀ t t' rows (saved n) (a, f) = (a, rows n.id _ f)
PhaseGood-rows h req t₀ t t' rows (answered (some n) r) (e, a, f) = (e, a, rows n.id _ f)
PhaseGood-rows h req t₀ t t' rows (answered none r) g = g

module _ {W : Type 0} (h : Handler W) (Runs : Worker W → Consumer W → Type 0)
    (cached : String → W → Option Bytes) (tables : W → Tables)
    (quiet : HandlerQuiet cached tables h)
    (all : (w : Worker W) (c : Consumer W) → Runs w c → WorkerQuiet cached tables w c)
    (t₀ : Tables) where
  abbrev pub IsGood : Thread W → W → Type 0
  IsGood t x = ThreadGood h Runs cached tables quiet all t₀ t (tables x)

  abbrev pub AreApart : Thread W → Thread W → Type 0
  AreApart = Apart h Runs cached tables quiet all t₀

  abbrev Stepped : W → W → Thread W → Thread W → Type 0
  Stepped = Steps h Runs cached tables quiet all t₀

  -- Another thread keeps what it knows, and its log.
  frame :
      (x y : W) (t t' u : Thread W)
      → Stepped x y t t'
      → AreApart t u
      → IsGood u x
      → IsGood u y × AreApart t' u
  frame x y t t' (request req s) m a (valid, g) =
      ((valid, PhaseGood-rows h req t₀ (tables x) (tables y) m.rows s g), λ id o p. absurd (cc))
  frame x y t t' (delivery w n start s) m a (c, r, g) =
      let laws = (all w c r).laws in
      let undisturbed = λ (id : String) (o : owned s ≡ some id).
        let (row, f) = owned-found w tables laws n s (tables x) id g o in
        m.logs id row f (λ e. a id e o) in
      (
        (c, r, Good-Other w tables laws n s (tables x) (tables y) undisturbed g),
        λ id o p. elim (m.fresh id o) [
          | inl e ↦ a id e p
          | inr e ↦ let (row, f) = owned-found w tables laws n s (tables x) id g p in absurd (cc)
        ],
      )

  abbrev pub AllGood : List (Thread W) → W → Type 0
  AllGood [] x = Unit
  AllGood (t ∷ ts) x = IsGood t x × AllGood ts x

  abbrev pub AllApart : Thread W → List (Thread W) → Type 0
  AllApart u [] = Unit
  AllApart u (t ∷ ts) = AreApart t u × AllApart u ts

  abbrev pub Distinct : List (Thread W) → Type 0
  Distinct [] = Unit
  Distinct (t ∷ ts) = AllApart t ts × Distinct ts

  flip : (t u : Thread W) → AreApart t u → AreApart u t
  flip t u a id o p = a id p o

  frame_all :
      (x y : W) (t t' : Thread W) (ts : List (Thread W))
      → Stepped x y t t'
      → AllApart t ts
      → AllGood ts x
      → AllGood ts y × AllApart t' ts
  frame_all x y t t' [] m a g = (tt, tt)
  frame_all x y t t' (u ∷ us) m (a, as') (g, gs) =
      let (good, apart) = frame x y t t' u m (flip u t a) g in
      let (goods, aparts) = frame_all x y t t' us m as' gs in
      ((good, goods), (flip t' u apart, aparts))

  module _ (x y : W) (k : Sound cached tables t₀ x) where
    step : (t t' : Thread W) → ThreadStep h Runs x y t t' → IsGood t x → Stepped x y t t'
    step t t' m g = ThreadStep-Steps h Runs cached tables quiet all t₀ x y t t' m k g

    outside :
        (u : Thread W) (ts ts' : List (Thread W))
        → Turn h Runs x y ts ts'
        → AllGood ts x
        → AllApart u ts
        → IsGood u x
        → IsGood u y × AllApart u ts'
    outside u ts ts' (first {t = t} {t' = t'} {ts = us} m) (g, gs) (a, as') k' =
        let (good, apart) = frame x y t t' u (step t t' m g) a k' in (good, (apart, as'))
    outside u ts ts' (later {t = t} {ts = us} {ts' = us'} m) (g, gs) (a, as') k' =
        let (good, aparts) = outside u us us' m gs as' k' in (good, (a, aparts))

    pub Turn-Good :
        (ts ts' : List (Thread W))
        → Turn h Runs x y ts ts'
        → AllGood ts x
        → Distinct ts
        → Sound cached tables t₀ y × AllGood ts' y × Distinct ts'
    Turn-Good ts ts' (first {t = t} {t' = t'} {ts = us} m) (g, gs) (a, d) =
        let s = step t t' m g in
        let (goods, aparts) = frame_all x y t t' us s a gs in
        (s.sound, (s.good, goods), (aparts, d))
    Turn-Good ts ts' (later {t = t} {ts = us} {ts' = us'} m) (g, gs) (a, d) =
        let (sound, goods, distinct) = Turn-Good us us' m gs d in
        let (good, aparts) = outside t us us' m gs a g in (sound, (good, goods), (aparts, distinct))
