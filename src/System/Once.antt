-- ===== src/System/Once.antt =====
-- Deliveries of internal/worker/worker.go of which no two are of one notification between their check
-- and their end: a notification has at most one log that reads sent.
use notification_system.Base.{String, Option, List, ◌≡◌, sym, ap, ◌∙◌, subst}
use notification_system.Json.{Bytes}
use notification_system.Kafka.{Consumer}
use notification_system.Store.Tables.{Tables}
use notification_system.Worker.{Worker}
use notification_system.Api.Handler.{Handler}
use notification_system.History.Laws.{HandlerQuiet, WorkerQuiet}
use notification_system.History.Sound.{Sound}
use notification_system.System.{
  Thread, Turn, first, later, Reach, begin, advance, post, query, fetch, idle,
}
use notification_system.System.Reached.{
  GoodThreads, Reach-Good, query-tables, fetched-tables, read-tables,
}
use notification_system.System.Exclusive.{
  Alone, Exclusive, AtMostOneSent, Clear, AllClear, Exclusively, ThreadStep-Sends, once, Clear-own,
  Clear-other, AllClear-others,
}

module _ {W : Type 0} (h : Handler W) (Runs : Worker W → Consumer W → Type 0)
    (cached : String → W → Option Bytes) (tables : W → Tables)
    (quiet : HandlerQuiet cached tables h)
    (all : (w : Worker W) (c : Consumer W) → Runs w c → WorkerQuiet cached tables w c)
    (t₀ : Tables) where
  module _ (x y : W) (k : Sound cached tables t₀ x) where
    outside :
        (u : Thread W) (ts ts' : List (Thread W))
        → Turn h Runs x y ts ts'
        → GoodThreads h Runs cached tables quiet all t₀ ts x
        → Alone u ts
        → Clear u (tables x)
        → Clear u (tables y)
    outside u ts ts' (first {t = t} {t' = t'} m) (g, gs) (apart, alone) clear =
        Clear-other h Runs cached tables quiet all t₀ x y t t'
          (ThreadStep-Sends h Runs cached tables quiet all t₀ x y t t' m k g) u
          (λ i e f. apart i f e) clear
    outside u ts ts' (later {ts = us} {ts' = us'} m) (g, gs) (apart, alone) clear =
        outside u us us' m gs alone clear

    Turn-once :
        (ts ts' : List (Thread W))
        → Turn h Runs x y ts ts'
        → GoodThreads h Runs cached tables quiet all t₀ ts x
        → Exclusive ts
        → AllClear ts (tables x)
        → AtMostOneSent (tables x)
        → AllClear ts' (tables y) × AtMostOneSent (tables y)
    Turn-once ts ts' (first {t = t} {t' = t'} {ts = us} m) (g, gs) (alone, ex) (clear, rest) one =
        let sends = ThreadStep-Sends h Runs cached tables quiet all t₀ x y t t' m k g in
        (
          (
            Clear-own h Runs cached tables quiet all t₀ x y t t' sends clear,
            AllClear-others h Runs cached tables quiet all t₀ x y t t' sends us alone rest,
          ),
          once h Runs cached tables quiet all t₀ x y t t' sends clear one,
        )
    Turn-once ts ts' (later {t = t} {ts = us} {ts' = us'} m) (g, gs) (alone, ex) (clear, rest) one =
        let (rest', one') = Turn-once us us' m gs ex rest one in
        ((outside t us us' m gs alone clear, rest'), one')

  AllClear-same :
      (x y : W) (ts : List (Thread W))
      → tables y ≡ tables x
      → AllClear ts (tables x) × AtMostOneSent (tables x)
      → AllClear ts (tables y) × AtMostOneSent (tables y)
  AllClear-same x y ts e = subst (λ t. AllClear ts t × AtMostOneSent t) (sym e)

  Reach-Clear :
      (x y : W) (ts : List (Thread W)) (r : Reach h Runs x ts y)
      → Sound cached tables t₀ x
      → AtMostOneSent (tables x)
      → Exclusively h Runs r
      → AllClear ts (tables y) × AtMostOneSent (tables y)
  unfolding Exclusively
  Reach-Clear x y ts begin k one ex = (tt, one)
  Reach-Clear x y ts (advance {ts = us} {u = u} r m) k one (now, ex) =
      let (sound, goods, _) = Reach-Good h Runs cached tables quiet all t₀ x u us k r in
      let (clear, one') = Reach-Clear x u us r k one ex in
      Turn-once u y sound us ts m goods now clear one'
  Reach-Clear x y ts (post {ts = us} {req = req} body r valid) k one ex =
      let (clear, one') = Reach-Clear x y us r k one ex in ((λ i a e. absurd (cc), clear), one')
  Reach-Clear x y ts (query {u = u} id r e) k one ex =
      let kept = query-tables h Runs cached tables quiet all t₀ id u in
      AllClear-same u y ts (sym (ap tables e) ∙ kept) (Reach-Clear x u ts r k one ex)
  Reach-Clear x y ts (fetch {ts = us} {u = u} {z = z} {n = n} {start = start} r runs e f) k one ex =
      let kept = fetched-tables h Runs cached tables quiet all t₀ runs u z y n start e f in
      let (clear, one') = AllClear-same u y us kept (Reach-Clear x u us r k one ex) in
      ((λ i a e. absurd (cc), clear), one')
  Reach-Clear x y ts (idle {u = u} r runs e) k one ex =
      let kept = read-tables h Runs cached tables quiet all t₀ runs u in
      AllClear-same u y ts (sym (ap (λ p. tables p.1) e) ∙ kept) (Reach-Clear x u ts r k one ex)

  -- Where no two deliveries of one notification are between their check and their end at the same
  -- time, and nothing else writes to the tables: a notification gets at most one log that reads sent,
  -- however the steps lie between each other and however often its message is read.
  pub Reach-AtMostOneSent :
      (x y : W) (ts : List (Thread W)) (r : Reach h Runs x ts y)
      → Sound cached tables t₀ x
      → AtMostOneSent (tables x)
      → Exclusively h Runs r
      → AtMostOneSent (tables y)
  Reach-AtMostOneSent x y ts r k one ex = (Reach-Clear x y ts r k one ex).1
