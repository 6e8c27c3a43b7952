-- ===== src/History/Sound.antt =====
-- What holds at every point of a history.
use notification_system.Base.{
  ℕ, zero, suc, String, Option, List, [], ◌∷◌, ◌≡◌, refl, sym, ap, ◌∙◌, inl, inr,
}
use notification_system.Json.{Bytes}
use notification_system.Kafka.{Consumer}
use notification_system.Failure.{Failure}
use notification_system.Store.Contracts.{Executes, Executes-cases}
use notification_system.Store.Tables.{
  Tables, Statement, apply, insert_notification, insert_delivery_log, update_delivery_log,
}
use notification_system.Cache.{user_key, prefs_key}
use notification_system.Cache.Coherence.{IsCoherent}
use notification_system.Cache.Serving.{find_by_id-Serves, find_preferences_cached-Serves}
use notification_system.Worker.{Worker}
use notification_system.Worker.Keeps.{Keeps, process-keeps, run-keeps}
use notification_system.Api.Handler.{Handler}
use notification_system.Api.Handler.Limiting.{allow-Limits}
use notification_system.Api.Handler.Keeps.{
  HandlerKeeps, send_notification-keeps, get_notification_status-keeps,
}
use notification_system.History.{Event, posted, queried, round, round_of, happen, history}
use notification_system.History.Laws.{shown, HandlerQuiet, WorkerQuiet, AllQuiet}
use notification_system.History.Typed.{IsTyped, IsTyped-log, IsTyped-update, IsTyped-insert}

module _ {W : Type 0} (cached : String → W → Option Bytes) (tables : W → Tables) where
  -- The users and the preferences are those of `t`, the cache is coherent, and every row holds the
  -- words that it may.
  pub record Sound (t : Tables) (x : W) : Type 0 where
    pub users : (tables x).users ≡ t.users
    pub preferences : (tables x).user_preferences ≡ t.user_preferences
    pub coherent : IsCoherent cached tables x
    pub typed : IsTyped (tables x)

  module _ (t : Tables) where
    moved :
        (x y : W)
        → shown cached y ≡ shown cached x
        → (tables y).users ≡ (tables x).users
        → (tables y).user_preferences ≡ (tables x).user_preferences
        → IsTyped (tables y)
        → Sound t x
        → Sound t y
    moved x y s u p typed k = record {
      users = u ∙ k.users;
      preferences = p ∙ k.preferences;
      coherent = record {
        users =
            λ id b v e d. rw u (k.coherent.users id b v (sym (ap (λ f. f (user_key id)) s) ∙ e) d);
        preferences = λ id b v e d.
            rw p (k.coherent.preferences id b v (sym (ap (λ f. f (prefs_key id)) s) ∙ e) d);
      };
      typed = typed;
    }

    pub same :
        (x y : W) → shown cached y ≡ shown cached x → tables y ≡ tables x → Sound t x → Sound t y
    same x y s e k =
        moved x y s (ap (λ a. a.users) e) (ap (λ a. a.user_preferences) e) (rw e k.typed) k

    pub served :
        (x y : W) → tables y ≡ tables x → IsCoherent cached tables y → Sound t x → Sound t y
    served x y e coherent k = record {
      users = ap (λ a. a.users) e ∙ k.users;
      preferences = ap (λ a. a.user_preferences) e ∙ k.preferences;
      coherent = coherent;
      typed = rw e k.typed;
    }

    pub executed :
        (s : Statement)
        → ((a : Tables) → IsTyped a → IsTyped (apply s a))
        → ((a : Tables) → (apply s a).users ≡ a.users)
        → ((a : Tables) → (apply s a).user_preferences ≡ a.user_preferences)
        → (x : W) (q : Option Failure × W) → Executes tables s x q
        → shown cached q.1 ≡ shown cached x
        → Sound t x
        → Sound t q.1
    executed s typed users preferences x q done quiet k = elim (Executes-cases tables s x q done) [
      | inl kept ↦ same x q.1 quiet kept k
      | inr e ↦
          moved x q.1 quiet (ap (λ a. a.users) e ∙ users (tables x))
            (ap (λ a. a.user_preferences) e ∙ preferences (tables x))
            (rw e (typed (tables x) k.typed)) k
    ]

    pub worker-Keeps :
        (w : Worker W) (c : Consumer W) → WorkerQuiet cached tables w c → Keeps w (Sound t)
    worker-Keeps w c q = record {
      new_string = λ x. same x _ (q.runtime.new_string_keeps x) (q.laws.runtime.new_string_keeps x);
      now = λ x. same x _ (q.runtime.now_keeps x) (q.laws.runtime.now_keeps x);
      inc = λ m x. same x _ (q.runtime.inc_keeps m x) (q.laws.runtime.inc_keeps m x);
      observe =
          λ m d x. same x _ (q.runtime.observe_keeps m d x) (q.laws.runtime.observe_keeps m d x);
      insert = λ log s x.
          executed (insert_delivery_log log) (λ a. IsTyped-log log a s) (λ a. unfold apply in refl)
            (λ a. unfold apply in refl) x _ (q.laws.log_repo.insert log x) (q.insert log x);
      update = λ id status message s x.
          executed (update_delivery_log status message id)
            (λ a. IsTyped-update status message id a s) (λ a. unfold apply in refl)
            (λ a. unfold apply in refl) x _ (q.laws.log_repo.update id status message x)
            (q.update id status message x);
      exists_sent = λ id x. same x _ (q.exists_sent id x) (q.laws.log_repo.exists_keeps id x);
      wait = λ d x. same x _ (q.wait d x) (q.laws.wait_keeps d x);
      send = λ n x. same x _ (q.send n x) (q.laws.send_keeps n x);
      tries = q.laws.tries;
    }

    pub handler-HandlerKeeps :
        (h : Handler W) → HandlerQuiet cached tables h → HandlerKeeps h (Sound t)
    handler-HandlerKeeps h q = record {
      new_string = λ x. same x _ (q.runtime.new_string_keeps x) (q.laws.runtime.new_string_keeps x);
      now = λ x. same x _ (q.runtime.now_keeps x) (q.laws.runtime.now_keeps x);
      inc = λ m x. same x _ (q.runtime.inc_keeps m x) (q.laws.runtime.inc_keeps m x);
      save = λ n v s x.
          executed (insert_notification n) (λ a. IsTyped-insert n a v s) (λ a. unfold apply in refl)
            (λ a. unfold apply in refl) x _ (q.laws.notif_repo.save n x) (q.save n x);
      find = λ id x. same x _ (q.find id x) (q.laws.notif_repo.find_keeps id x);
      stamp = λ x. same x _ (q.stamp x) (q.laws.producer_runtime.now_keeps x);
      write = λ m x. same x _ (q.write m x) (q.laws.write_keeps m x);
      limit = λ user_id channel x k.
          let l = allow-Limits h cached tables q.laws user_id channel x k.coherent in
          served x _ l.kept l.coherent k;
      user = λ id x k.
          let s = find_by_id-Serves h.user_cache cached tables q.laws.cache id x k.coherent in
          served x _ s.kept s.coherent k;
      preferences = λ id x k.
          let s =
            find_preferences_cached-Serves h.user_cache cached tables q.laws.cache id x
              k.coherent in
          served x _ s.kept s.coherent k;
    }

    round_of-Sound :
        (i : ℕ) (workers : List (Worker W × Consumer W)) (x : W)
        → AllQuiet cached tables workers
        → Sound t x
        → Sound t (round_of i workers x)
    unfolding round_of
    round_of-Sound i [] x q k = k
    round_of-Sound zero ((w, c) ∷ ws) x q k =
        run-keeps w (Sound t) c (process-keeps w (Sound t) (worker-Keeps w c q.0))
          (λ y. same y _ (q.0.read y) (q.0.read_keeps y)) 1 x k
    round_of-Sound (suc i) (v ∷ ws) x q k = round_of-Sound i ws x q.1 k

    module _ (h : Handler W) (workers : List (Worker W × Consumer W))
        (quiet : HandlerQuiet cached tables h) (all : AllQuiet cached tables workers) where
      happen-Sound : (e : Event) (x : W) → Sound t x → Sound t (happen h workers e x)
      unfolding happen
      happen-Sound (posted body) x k =
          send_notification-keeps h (Sound t) (handler-HandlerKeeps h quiet) body x k
      happen-Sound (queried id) x k =
          get_notification_status-keeps h (Sound t) (handler-HandlerKeeps h quiet) id x k
      happen-Sound (round i) x k = round_of-Sound i workers x all k

      -- However requests to the API and rounds of the workers follow each other, each finished before
      -- the next, where nothing else writes to the tables or the cache: the users and the preferences
      -- stay, the cache stays coherent, a row of `notifications` has one of the four channels and is
      -- still pending, and a row of `delivery_logs` is pending, sent or failed.
      pub history-Sound :
          (events : List Event) (x : W) → Sound t x → Sound t (history h workers events x)
      unfolding history
      history-Sound [] x k = k
      history-Sound (e ∷ es) x k = history-Sound es (happen h workers e x) (happen-Sound e x k)
