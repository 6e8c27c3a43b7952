-- ===== src/System/Exclusive.antt =====
-- The logs that read sent, and the deliveries of internal/worker/worker.go between their check for
-- one and their end: what a step of a thread does to them.
use notification_system.Base.{
  String, Option, none, some, List, [], ◌∷◌, ◌≡◌, ◌≢◌, ◌⊎◌, sym, ◌∙◌, inl, inr, subst, some_inj,
}
use notification_system.Json.{Bytes}
use notification_system.Kafka.{Consumer}
use notification_system.Store.Tables.{Tables}
use notification_system.Worker.{Worker}
use notification_system.Worker.Interleaving.Sents.{SentAs, busy, Step-SentAs, Step-checked}
use notification_system.Api.Handler.{Handler}
use notification_system.History.Laws.{HandlerQuiet, WorkerQuiet}
use notification_system.History.Sound.{Sound}
use notification_system.System.{
  Thread, request, delivery, owner, ThreadStep, moves, delivers, Reach, begin, advance, post, query,
  fetch, idle,
}
use notification_system.System.Left.{Move-Left}
use notification_system.System.Good.{ThreadGood, Left-logs}

-- The notification that a thread may be about to send.
abbrev pub sending : {W : Type 0} → Thread W → Option String
sending (request req s) = none
sending (delivery w n start s) = busy n s

-- No other thread is about to send the same notification.
abbrev pub Alone : {W : Type 0} → Thread W → List (Thread W) → Type 0
Alone t [] = Unit
Alone t (u ∷ us) = ((i : String) → sending t ≡ some i → sending u ≢ some i) × Alone t us

abbrev pub Exclusive : {W : Type 0} → List (Thread W) → Type 0
Exclusive [] = Unit
Exclusive (t ∷ ts) = Alone t ts × Exclusive ts

-- No notification has two logs that read sent.
abbrev pub AtMostOneSent : Tables → Type 0
AtMostOneSent t = (i a b : String) → SentAs i a t.delivery_logs → SentAs i b t.delivery_logs → a ≡ b

-- A thread that is about to send has a notification of which no log reads sent.
abbrev pub Clear : {W : Type 0} → Thread W → Tables → Type 0
Clear t tables = (i a : String) → sending t ≡ some i → ¬ SentAs i a tables.delivery_logs

abbrev pub AllClear : {W : Type 0} → List (Thread W) → Tables → Type 0
AllClear [] t = Unit
AllClear (u ∷ us) t = Clear u t × AllClear us t

module _ {W : Type 0} (h : Handler W) (Runs : Worker W → Consumer W → Type 0) where
  -- Whenever a thread has had a turn, no two were about to send one notification before it.
  unfoldable pub Exclusively : {x : W} {ts : List (Thread W)} {y : W} → Reach h Runs x ts y → Type 0
  Exclusively begin = Unit
  Exclusively (advance {ts = ts} r m) = Exclusive ts × Exclusively r
  Exclusively (post body r valid) = Exclusively r
  Exclusively (query id r e) = Exclusively r
  Exclusively (fetch r runs e f) = Exclusively r
  Exclusively (idle r runs e) = Exclusively r

module _ {W : Type 0} (h : Handler W) (Runs : Worker W → Consumer W → Type 0)
    (cached : String → W → Option Bytes) (tables : W → Tables)
    (quiet : HandlerQuiet cached tables h)
    (all : (w : Worker W) (c : Consumer W) → Runs w c → WorkerQuiet cached tables w c)
    (t₀ : Tables) where
  abbrev SentAt : String → String → W → Type 0
  SentAt i a x = SentAs i a (tables x).delivery_logs

  -- What a step of a thread that becomes `t'` does to the logs that read sent.
  pub record Sends (x y : W) (t t' : Thread W) : Type 0 where
    pub before :
        (i a : String)
        → SentAt i a y
        → SentAt i a x ⊎ ((owner t ≡ some a) × (sending t ≡ some i) × (sending t' ≡ none))
    pub checked : (i a : String) → sending t' ≡ some i → (sending t ≡ some i) ⊎ ¬ SentAt i a x

  pub ThreadStep-Sends :
      (x y : W) (t t' : Thread W)
      → ThreadStep h Runs x y t t'
      → Sound cached tables t₀ x
      → ThreadGood h Runs cached tables quiet all t₀ t (tables x)
      → Sends x y t t'
  ThreadStep-Sends x y t t' (moves {req} {s} {s'} m) k g =
      let left = Move-Left h cached tables quiet req x y k.coherent s s' m in
      record {
        before =
            λ i a p. inl (subst (SentAs i a) (Left-logs h Runs cached tables quiet all t₀ left) p);
        checked = λ i a o. absurd (cc);
      }
  ThreadStep-Sends x y t t' (delivers {w} {n} {start} {s} {s'} m) k (c, r, g) =
      let laws = (all w c r).laws in
      record {
        before = λ i a p. Step-SentAs w tables laws n start i a x y s s' m g p;
        checked = λ i a o. Step-checked w tables laws n start i a x y s s' m o;
      }

  module _ (x y : W) (t t' : Thread W) (sends : Sends x y t t') where
    pub once : Clear t (tables x) → AtMostOneSent (tables x) → AtMostOneSent (tables y)
    once clear one i a b p q = elim (sends.before i a p) [
      | inl p' ↦ elim (sends.before i b q) [
        | inl q' ↦ one i a b p' q'
        | inr (_, e, _) ↦ absurd (clear i a e p')
      ]
      | inr (o, e, _) ↦ elim (sends.before i b q) [
        | inl q' ↦ absurd (clear i b e q')
        | inr (o', _, _) ↦ some_inj (sym o ∙ o')
      ]
    ]

    pub Clear-own : Clear t (tables x) → Clear t' (tables y)
    Clear-own clear i a e p = elim (sends.before i a p) [
      | inr (_, _, none') ↦ absurd (let no = sym none' ∙ e in cc)
      | inl p' ↦ elim (sends.checked i a e) [ inl e' ↦ clear i a e' p' | inr never ↦ never p' ]
    ]

    pub Clear-other :
        (u : Thread W)
        → ((i : String) → sending t ≡ some i → sending u ≢ some i)
        → Clear u (tables x)
        → Clear u (tables y)
    Clear-other u apart clear i a e p = elim (sends.before i a p) [
      | inl p' ↦ clear i a e p'
      | inr (_, f, _) ↦ absurd (apart i f e)
    ]

    pub AllClear-others :
        (us : List (Thread W)) → Alone t us → AllClear us (tables x) → AllClear us (tables y)
    AllClear-others [] alone clear = tt
    AllClear-others (u ∷ us) (apart, alone) (clear, rest) =
        (Clear-other u apart clear, AllClear-others us alone rest)
