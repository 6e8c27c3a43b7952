-- ===== src/RateLimit/Keys.antt =====
-- The keys of the limiter: each user and channel has a counter of its own.
use Prim.Native.Char.{code}
use text.Mathlib.TextLemmas.{append_cancel_left, append_cancel_right, nil-append, cons-append}
use notification_system.Base.{
  ℕ, ◌+◌, ◌*◌, ◌^◌, String, ◌≡◌, ◌≢◌, refl, sym, ap, ◌∙◌, inl, inr, ◌<>◌, eqb, if◌then◌else◌, arith,
}
use notification_system.Config.Routing.{OneOf}
use notification_system.RateLimit.{Limiter, rate_key, allow}

-- The codes of the last two characters, as one number.
last_two : ℕ → ℕ → String → ℕ
last_two a b String.[] = a * 2 ^ 21 + b
last_two a b (String.◌∷◌ c s) = last_two b (code c) s

abbrev mark : String → ℕ
mark s = last_two 0 0 s

-- What comes before a text of two characters or more does not count.
last_two-append :
    (s t : String)
    → ((a b : ℕ) → last_two a b t ≡ mark t)
    → (a b : ℕ) → last_two a b (s <> t) ≡ mark t
unfolding last_two
last_two-append String.[] t h a b = rw nil-append (h a b)
last_two-append (String.◌∷◌ c s) t h a b = rw cons-append (last_two-append s t h b (code c))

long : (channel : String) → OneOf channel → (a b : ℕ) → last_two a b channel ≡ mark channel
unfolding last_two
long channel (inl (inl e)) a b = rw e refl
long channel (inl (inr e)) a b = rw e refl
long channel (inr (inl e)) a b = rw e refl
long channel (inr (inr e)) a b = rw e refl

channel_of : ℕ → String
channel_of k =
    if eqb k (mark "ios")
    then "ios"
    else if eqb k (mark "android")
    then "android"
    else if eqb k (mark "sms")
    then "sms"
    else "email"

channel_of-mark : (channel : String) → OneOf channel → channel_of (mark channel) ≡ channel
unfolding last_two channel_of
channel_of-mark channel (inl (inl e)) = rw e refl
channel_of-mark channel (inl (inr e)) = rw e refl
channel_of-mark channel (inr (inl e)) = rw e refl
channel_of-mark channel (inr (inr e)) = rw e refl

rate_key-injective :
    (u v c d : String) → OneOf c → OneOf d → rate_key u c ≡ rate_key v d → (u ≡ v) × (c ≡ d)
rate_key-injective u v c d p q h =
    let same : mark c ≡ mark d =
      sym (last_two-append _ c (long c p) 0 0) ∙ (ap mark h ∙ last_two-append _ d (long d q) 0 0) in
    let channel : c ≡ d = sym (channel_of-mark c p) ∙ (ap channel_of same ∙ channel_of-mark d q) in
    let keys : rate_key u d ≡ rate_key v d = ap (rate_key u) (sym channel) ∙ h in
    (
      append_cancel_left "rate:" u v (append_cancel_right _ _ ":" (append_cancel_right _ _ d keys)),
      channel,
    )

-- Where INCR and EXPIRE of one key leave the counters of the others: a call of `Allow` for one user
-- and channel leaves the counter of every other user, and of every other channel of that user, for
-- the four channels.
pub allow-separate :
    {W : Type 0} (l : Limiter W) (count : String → W → ℕ)
    → ((key j : String) (w : W) → j ≢ key → count j (l.redis.incr key w).1 ≡ count j w)
    → ((key j : String) (d : ℕ) (w : W) → j ≢ key → count j (l.redis.expire key d w).1 ≡ count j w)
    → (u v c d : String) → OneOf c
    → OneOf d
    → ¬ ((u ≡ v) × (c ≡ d))
    → (w : W) → count (rate_key v d) (allow l u c w).1 ≡ count (rate_key v d) w
unfolding allow
allow-separate l count incr_leaves expire_leaves u v c d p q different w =
    let key = rate_key u c in
    let x = (l.redis.incr key w).1 in
    let other : rate_key v d ≢ key = λ h. different (rate_key-injective u v c d p q (sym h)) in
    let first = incr_leaves key (rate_key v d) w other in
    let second = expire_leaves key (rate_key v d) l.window x other in ground (arith, first, second)
