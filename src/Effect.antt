-- ===== src/Effect.antt =====
-- Code that acts on the world: it returns a value or panics, and what it has done stays done.
-- `W` stands for everything outside the process; a service's operation is a function of it.

use notification_system.Base.{◌≡◌, refl, ◌⊎◌, inl, inr, Option, none, some}

pub data Outcome {ℓ} (A : Type ℓ) : Type ℓ where
  returns : A → Outcome A
  panics : Outcome A

abbrev pub Exec {ℓ} : Type ℓ → Type ℓ → Type ℓ
Exec W A = W → Outcome A × W

module _ {ℓ} {W A : Type ℓ} where
  abbrev pub pure : A → Exec W A
  pure a w = (returns a, w)

  abbrev pub panic : Exec W A
  panic w = (panics, w)

  -- An operation of a service, which does not panic.
  abbrev pub call : (W → A × W) → Exec W A
  call f w = (returns (f w).0, (f w).1)

module _ {ℓ} {W A B : Type ℓ} where
  abbrev pub continue : (A → Exec W B) → Outcome A × W → Outcome B × W
  continue f (returns a, w) = f a w
  continue f (panics, w) = (panics, w)

  infixl 5 ◌>>=◌ ◌>>◌
  abbrev pub ◌>>=◌ : Exec W A → (A → Exec W B) → Exec W B
  ◌>>=◌ m f w = continue f (m w)

  abbrev pub ◌>>◌ : Exec W A → Exec W B → Exec W B
  m >> n = m >>= λ _. n

-- What an action that ends in an `error` value did, with the equation.
pub error_cases {ℓ} :
    {W A : Type ℓ} (p : Outcome (Option A) × W)
    → ((w : W) × (p ≡ (returns none, w)))
      ⊎ (((a : A) × (w : W) × (p ≡ (returns (some a), w))) ⊎ ((w : W) × (p ≡ (panics, w))))
error_cases (returns none, w) = inl (w, refl)
error_cases (returns (some a), w) = inr (inl (a, w, refl))
error_cases (panics, w) = inr (inr (w, refl))

pub reply_cases {ℓ} :
    {W A : Type ℓ} (p : Option A × W)
    → ((w : W) × (p ≡ (none, w))) ⊎ ((a : A) × (w : W) × (p ≡ (some a, w)))
reply_cases (none, w) = inl (w, refl)
reply_cases (some a, w) = inr (a, w, refl)

-- `defer f()` around the rest of a function: it runs after a return and after a panic.
abbrev pub defer {ℓ} : {W A : Type ℓ} → (W → W) → Exec W A → Exec W A
defer f m w = ((m w).0, f (m w).1)
