-- ===== src/Cache/Coherence.antt =====
-- The cache answers what the database would answer, as long as the rows that are cached do not
-- change.
use mathlib.Core.Option
use Prim.Native.Char.{code}
use text.Mathlib.TextLemmas.{append_cancel_left, cons-append}
use notification_system.Base.{
  ℕ, String, true, Option, none, some, ◌≡◌, ◌≢◌, refl, sym, ap, ◌∙◌, ◌⊎◌, inl, inr, some_inj, arith,
}
use notification_system.Failure.{ok}
use notification_system.Domain.{User, UserPreferences}
use notification_system.Json.{Bytes}
use notification_system.Store.Tables.{
  Tables, find_user, find_row_of, scan_user, scan_preferences, PreferencesRow,
}
use notification_system.Store.Laws.{PoolLaws}
use notification_system.Cache.Codec.{
  marshal_user, unmarshal_user, marshal_preferences, unmarshal_preferences,
  unmarshal_user-marshal_user, unmarshal_preferences-marshal_preferences,
}
use notification_system.Cache.{UserCache, user_key, prefs_key}

-- What the database has of a user, and of the preferences: all enabled where there is no row.
abbrev pub stored_user : String → Tables → Option User
stored_user id t = Option.bind (find_user id t.users) scan_user

abbrev pub preferences_of : String → Option PreferencesRow → Option UserPreferences
preferences_of id none =
    some (record { user_id = id; email_enabled = true; sms_enabled = true; push_enabled = true })
preferences_of id (some r) = scan_preferences r

abbrev pub stored_preferences : String → Tables → Option UserPreferences
stored_preferences id t = preferences_of id (find_row_of id t.user_preferences)

-- No operation shows a value of a key that was not there, except the one that `set` writes: keys
-- may expire at any time.
abbrev pub Shrinks : {W : Type 0} → (String → W → Option Bytes) → W → W → Type 0
Shrinks cached w x = (key : String) → (cached key x ≡ cached key w) ⊎ (cached key x ≡ none)

pub record CacheLaws {W : Type 0} (c : UserCache W) (cached : String → W → Option Bytes)
    (tables : W → Tables) : Type 0 where
  pub pool : PoolLaws c.store tables
  pub get_ok :
      (key : String) (w : W) (b : Bytes) → (c.rdb.get key w).0 ≡ ok b → cached key w ≡ some b
  pub get_shrinks : (key : String) (w : W) → Shrinks cached w (c.rdb.get key w).1
  pub get_keeps : (key : String) (w : W) → tables (c.rdb.get key w).1 ≡ tables w
  pub set_shrinks :
      (key : String) (b : Bytes) (d : ℕ) (w : W) (j : String)
      → ((j ≡ key) × (cached j (c.rdb.set key b d w).1 ≡ some b))
        ⊎ ((cached j (c.rdb.set key b d w).1 ≡ cached j w)
            ⊎ (cached j (c.rdb.set key b d w).1 ≡ none))
  pub set_keeps :
      (key : String) (b : Bytes) (d : ℕ) (w : W) → tables (c.rdb.set key b d w).1 ≡ tables w
  pub user_shrinks : (id : String) (w : W) → Shrinks cached w (c.store.query_user id w).1
  pub preferences_shrinks :
      (id : String) (w : W) → Shrinks cached w (c.store.query_preferences id w).1

-- Every cached value that decodes is the one that the database has.
pub record IsCoherent {W : Type 0} (cached : String → W → Option Bytes) (tables : W → Tables)
    (w : W) : Type 0 where
  pub users :
      (id : String) (b : Bytes) (u : User)
      → cached (user_key id) w ≡ some b
      → unmarshal_user b ≡ some u
      → stored_user id (tables w) ≡ some u
  pub preferences :
      (id : String) (b : Bytes) (p : UserPreferences)
      → cached (prefs_key id) w ≡ some b
      → unmarshal_preferences b ≡ some p
      → stored_preferences id (tables w) ≡ some p

user_key-injective : (a b : String) → user_key a ≡ user_key b → a ≡ b
user_key-injective a b h = append_cancel_left "user:" a b h

prefs_key-injective : (a b : String) → prefs_key a ≡ prefs_key b → a ≡ b
prefs_key-injective a b h = append_cancel_left "prefs:" a b h

abbrev pub first : String → ℕ
first String.[] = 0
first (String.◌∷◌ c s) = code c

user_key-ne-prefs_key : (a b : String) → user_key a ≢ prefs_key b
user_key-ne-prefs_key a b h =
    let same : first (user_key a) ≡ first (prefs_key b) = ap first h in
    let u : first (user_key a) ≡ b'u' = rw cons-append refl in
    let p : first (prefs_key b) ≡ b'p' = rw cons-append refl in omega arith

module _ {W : Type 0} (c : UserCache W) (cached : String → W → Option Bytes) (tables : W → Tables)
    (laws : CacheLaws c cached tables) where
  pub shrink-IsCoherent :
      {w x : W}
      → Shrinks cached w x
      → tables x ≡ tables w
      → IsCoherent cached tables w
      → IsCoherent cached tables x
  shrink-IsCoherent s k h = record {
    users = λ id b u e d. elim (s (user_key id)) [
      | inl same ↦ rw k (h.users id b u (sym same ∙ e) d)
      | inr gone ↦ absurd (cc)
    ];
    preferences = λ id b p e d. elim (s (prefs_key id)) [
      | inl same ↦ rw k (h.preferences id b p (sym same ∙ e) d)
      | inr gone ↦ absurd (cc)
    ];
  }

  -- Writing what the database has keeps the cache coherent.
  pub set_user-IsCoherent :
      (id : String) (u : User) (w : W)
      → stored_user id (tables w) ≡ some u
      → IsCoherent cached tables w
      → IsCoherent cached tables (c.rdb.set (user_key id) (some (marshal_user u)) c.ttl w).1
  set_user-IsCoherent id u w stored h =
      let b = some (marshal_user u) in
      let s = laws.set_shrinks (user_key id) b c.ttl w in
      let kept = laws.set_keeps (user_key id) b c.ttl w in
      record {
        users = λ j d v e r. rw kept (elim (s (user_key j)) [
          | inl (k, now) ↦
              let same : v ≡ u = some_inj (
                sym r
                ∙ (ap unmarshal_user (some_inj (sym e ∙ now)) ∙ unmarshal_user-marshal_user u)) in
              rw (user_key-injective j id k, same) stored
          | inr (inl old) ↦ h.users j d v (sym old ∙ e) r
          | inr (inr gone) ↦ absurd (cc)
        ]);
        preferences = λ j d p e r. rw kept (elim (s (prefs_key j)) [
          | inl (k, now) ↦ absurd (user_key-ne-prefs_key id j (sym k))
          | inr (inl old) ↦ h.preferences j d p (sym old ∙ e) r
          | inr (inr gone) ↦ absurd (cc)
        ]);
      }

  pub set_preferences-IsCoherent :
      (id : String) (p : UserPreferences) (w : W)
      → stored_preferences id (tables w) ≡ some p
      → IsCoherent cached tables w
      → IsCoherent cached tables (c.rdb.set (prefs_key id) (some (marshal_preferences p)) c.ttl w).1
  set_preferences-IsCoherent id p w stored h =
      let b = some (marshal_preferences p) in
      let s = laws.set_shrinks (prefs_key id) b c.ttl w in
      let kept = laws.set_keeps (prefs_key id) b c.ttl w in
      record {
        users = λ j d v e r. rw kept (elim (s (user_key j)) [
          | inl (k, now) ↦ absurd (user_key-ne-prefs_key j id k)
          | inr (inl old) ↦ h.users j d v (sym old ∙ e) r
          | inr (inr gone) ↦ absurd (cc)
        ]);
        preferences = λ j d q e r. rw kept (elim (s (prefs_key j)) [
          | inl (k, now) ↦
              let same : q ≡ p = some_inj (
                sym r
                ∙ (ap unmarshal_preferences (some_inj (sym e ∙ now))
                    ∙ unmarshal_preferences-marshal_preferences p)) in
              rw (prefs_key-injective j id k, same) stored
          | inr (inl old) ↦ h.preferences j d q (sym old ∙ e) r
          | inr (inr gone) ↦ absurd (cc)
        ]);
      }
