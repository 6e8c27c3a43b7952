-- ===== src/Tests/Memory/Laws.antt =====
-- The services in memory satisfy the laws that the theorems assume of the real ones.
use mathlib.Core.Option
use notification_system.Base.{
  ℕ, zero, suc, ap, ◌==◌, eq_refl, eq_iff, ◌⊎◌, ◌≡◌, refl, sym, true, Option, none, some, inl, inr,
  String, arith, Bool-cases,
}
use notification_system.Failure.{Failure, no_rows, is, ok, err}
use notification_system.Runtime.{RuntimeLaws}
use notification_system.Store.Tables.{
  Tables, Statement, insert_notification, insert_delivery_log, apply, Admissible, scan_notification,
  scan_user, scan_preferences,
}
use notification_system.Json.{Bytes}
use notification_system.RateLimit.Window.{Answers}
use notification_system.Cache.Coherence.{CacheLaws, IsCoherent}
use notification_system.Store.Laws.{PoolLaws}
use notification_system.Store.Contracts.{NotificationLaws, DeliveryLogLaws, store-Laws}
use notification_system.Tests.Memory.{
  World, admissible, answer, count_strokes, memory_cache, memory_logs, memory_notifications,
  memory_pool, memory_redis, memory_runtime, strokes, unary_times, with_user,
}

admissible-Admissible : (s : Statement) (t : Tables) → admissible s t ≡ true → Admissible s t
unfolding admissible
admissible-Admissible (insert_notification n) t h = ground arith
admissible-Admissible (insert_delivery_log log) t h = ground arith
admissible-Admissible _ t h = tt

answer-ok {ℓ} :
    {A B : Type ℓ} (o : Option A) (scan : A → Option B) (b : B)
    → answer o scan ≡ ok b
    → Option.bind o scan ≡ some b
unfolding Option.bind
answer-ok none scan b h = cc
answer-ok (some a) scan b h = ground arith

exec-ok :
    (s : Statement) (w : World)
    → (memory_pool.exec s w).0 ≡ none
    → Admissible s w.tables × ((memory_pool.exec s w).1.tables ≡ apply s w.tables)
unfolding memory_pool
exec-ok s w h = elim (Bool-cases (admissible s w.tables)) [
  | inl e ↦ (admissible-Admissible s w.tables e, rw e)
  | inr e ↦ absurd (cc (rw e at h))
]

exec-err :
    (s : Statement) (w : World) (e : Failure)
    → (memory_pool.exec s w).0 ≡ some e
    → (memory_pool.exec s w).1.tables ≡ w.tables
unfolding memory_pool
exec-err s w e h = ground arith

answer-no_rows {ℓ} :
    {A B : Type ℓ} (o : Option A) (scan : A → Option B) (e : Failure)
    → answer o scan ≡ err e
    → is e no_rows ≡ true
    → o ≡ none
unfolding is
answer-no_rows none scan e h k = refl
answer-no_rows (some a) scan e h k = ground arith

pub memory_pool-laws : PoolLaws memory_pool (λ w. w.tables)
unfolding memory_pool
memory_pool-laws = record {
  exec_ok = exec-ok;
  exec_err = λ s w e h. inl (exec-err s w e h);
  exists_keeps = λ id w. refl;
  exists_ok = λ id w found h. cc;
  notification_keeps = λ id w. refl;
  notification_ok = λ id w n h. answer-ok _ scan_notification n h;
  notification_no_rows = λ id w e h. answer-no_rows _ scan_notification e h;
  preferences_no_rows = λ id w e h. answer-no_rows _ scan_preferences e h;
  user_keeps = λ id w. refl;
  user_ok = λ id w u h. answer-ok _ scan_user u h;
  preferences_keeps = λ id w. refl;
  preferences_ok = λ id w p h. answer-ok _ scan_preferences p h;
}

pub memory_notifications-laws : NotificationLaws (λ w. w.tables) memory_notifications
memory_notifications-laws = (store-Laws memory_pool (λ w. w.tables) memory_pool-laws).0

pub memory_logs-laws : DeliveryLogLaws (λ w. w.tables) memory_logs
memory_logs-laws = (store-Laws memory_pool (λ w. w.tables) memory_pool-laws).1

pub memory_runtime-laws : RuntimeLaws memory_runtime (λ w. w.tables)
unfolding memory_runtime
memory_runtime-laws = record {
  new_string_keeps = λ w. refl;
  now_keeps = λ w. refl;
  inc_keeps = λ m w. refl;
  dec_keeps = λ m w. refl;
  observe_keeps = λ m t w. refl;
}

pub memory_redis-Answers : Answers memory_redis (λ key w. w.counter key)
unfolding memory_redis
memory_redis-Answers = record {
  incr_ok = λ key w. refl;
  incr_adds = λ key w. rw eq_refl;
  expire_ok = λ key d w. refl;
  expire_keeps = λ key d w. refl;
}

set-cases :
    (key : String) (b : Bytes) (d : ℕ) (w : World) (j : String)
    → ((j ≡ key) × ((memory_redis.set key b d w).1.cell j ≡ some b))
      ⊎ (((memory_redis.set key b d w).1.cell j ≡ w.cell j)
          ⊎ ((memory_redis.set key b d w).1.cell j ≡ none))
unfolding memory_redis
set-cases key b d w j = elim (Bool-cases (key == j)) [
  | inl e ↦ inl (sym ((eq_iff key j).0 e), rw e)
  | inr e ↦ inr (inl (rw e))
]

get-some :
    (key : String) (w : World) (b : Bytes) → (memory_redis.get key w).0 ≡ ok b → w.cell key ≡ some b
unfolding memory_redis
get-some key w b h = ground arith

pub memory_cache-laws : CacheLaws memory_cache (λ key w. w.cell key) (λ w. w.tables)
unfolding memory_redis memory_pool
memory_cache-laws = record {
  pool = memory_pool-laws;
  get_ok = get-some;
  get_shrinks = λ key w j. inl refl;
  get_keeps = λ key w. refl;
  set_shrinks = set-cases;
  set_keeps = λ key b d w. refl;
  user_shrinks = λ id w j. inl refl;
  preferences_shrinks = λ id w j. inl refl;
}

count_strokes-strokes : (n : ℕ) → count_strokes (strokes n) ≡ n
count_strokes-strokes zero = refl
count_strokes-strokes (suc n) = ap suc (count_strokes-strokes n)

pub unary_times-parse : (t : ℕ) → unary_times.parse (unary_times.format t) ≡ some t
unary_times-parse t = ap some (count_strokes-strokes t)

pub with_user-IsCoherent : IsCoherent (λ key w. w.cell key) (λ w. w.tables) with_user
with_user-IsCoherent = record {
  users = λ id b u e d. absurd (cc);
  preferences = λ id b p e d. absurd (cc);
}
