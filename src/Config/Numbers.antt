-- ===== src/Config/Numbers.antt =====
-- `getInt` of internal/config/config.go on numbers as they are written in decimal.
use Prim.Native.Char.{Char, code}
use text.Mathlib.TextLemmas.{nil-append, cons-append}
use notification_system.Base.{
  ℕ, zero, suc, ◌+◌, ◌-◌, ◌*◌, ◌/◌, ◌%◌, ◌^◌, ◌≤◌, ◌<◌, String, Bool, true, false, Option, none,
  some, ◌≡◌, refl, sym, ◌∙◌, ap, leb, eqb, ltb, ◌==◌, eq_iff, itoa, digits, digit, ◌<>◌, arith,
  Bool-cases, inl, inr, if◌then◌else◌,
}
use notification_system.Config.{
  ℤ, pos, negsuc, digits_value, natural, positive, negative, atoi, get_int,
}

-- A character of its own for each digit, in the order of their codes.
digit-one : (d : ℕ) → d < 10 → (c : Char) × ((digit d ≡ String.◌∷◌ c "") × (code c ≡ b'0' + d))
unfolding digit
digit-one zero h = ("0", (refl, refl))
digit-one (suc zero) h = ("1", (refl, refl))
digit-one (suc (suc zero)) h = ("2", (refl, refl))
digit-one (suc (suc (suc zero))) h = ("3", (refl, refl))
digit-one (suc (suc (suc (suc zero)))) h = ("4", (refl, refl))
digit-one (suc (suc (suc (suc (suc zero))))) h = ("5", (refl, refl))
digit-one (suc (suc (suc (suc (suc (suc zero)))))) h = ("6", (refl, refl))
digit-one (suc (suc (suc (suc (suc (suc (suc zero))))))) h = ("7", (refl, refl))
digit-one (suc (suc (suc (suc (suc (suc (suc (suc zero)))))))) h = ("8", (refl, refl))
digit-one (suc (suc (suc (suc (suc (suc (suc (suc (suc zero))))))))) h = ("9", (refl, refl))
digit-one (suc (suc (suc (suc (suc (suc (suc (suc (suc (suc d)))))))))) h = absurd (omega arith)

digit-append :
    (d : ℕ) (rest : String)
    → d < 10
    → (c : Char) × ((digit d <> rest ≡ String.◌∷◌ c rest) × (code c ≡ b'0' + d))
digit-append d rest h =
    let (c, (e, k)) = digit-one d h in (c, (rw (e, cons-append, nil-append) refl, k))

digits_value-digit :
    (a d m : ℕ) (rest : String)
    → d < 10
    → a * 10 + d ≡ m
    → digits_value a (digit d <> rest) ≡ digits_value m rest
unfolding digits_value
digits_value-digit a d m rest h same =
    let (c, (e, k)) = digit-append d rest h in
    let low : leb b'0' (code c) ≡ true = ground arith in
    let high : leb (code c) b'9' ≡ true = ground arith in
    let total : a * 10 + (code c - b'0') ≡ m = omega arith in rw (e, low, high, total) refl

digits_value-digits :
    (fuel n : ℕ) (rest : String)
    → n < fuel
    → digits_value 0 (digits fuel n rest) ≡ digits_value n rest
unfolding digits
digits_value-digits zero n rest h = absurd (omega arith)
digits_value-digits (suc fuel) n rest h = elim (Bool-cases (ltb n 10)) [
  | inl q ↦ rw q (digits_value-digit 0 n n rest (ground arith) (omega arith))
  | inr q ↦ rw q (
      digits_value-digits fuel (n / 10) _ (ground arith)
      ∙ digits_value-digit (n / 10) (n % 10) n rest (omega arith) (omega arith))
]

-- A decimal numeral begins with a digit.
digits-first :
    (fuel n : ℕ) (rest : String)
    → n < fuel
    → (c : Char) × ((t : String) × ((digits fuel n rest ≡ String.◌∷◌ c t) × (b'0' ≤ code c)))
unfolding digits
digits-first zero n rest h = absurd (omega arith)
digits-first (suc fuel) n rest h = elim (Bool-cases (ltb n 10)) [
  | inl q ↦
      let (c, (e, k)) = digit-append n rest (ground arith) in (c, (rest, (rw q e, omega arith)))
  | inr q ↦
      let (c, (t, (e, k))) = digits-first fuel (n / 10) (digit (n % 10) <> rest) (ground arith) in
      (c, (t, (rw q e, k)))
]

natural-itoa : (n : ℕ) → natural (itoa n) ≡ some n
unfolding natural itoa digits_value
natural-itoa n =
    let (c, (t, (e, k))) = digits-first (suc n) n "" (omega arith) in
    let v : digits_value 0 (digits (suc n) n "") ≡ some n =
      digits_value-digits (suc n) n "" (omega arith) in
    rw e (sym (ap (digits_value 0) e) ∙ v)

-- A number in decimal, and whether it is one of 64 bits.
abbrev pub decimal : ℤ → String
decimal (pos n) = itoa n
decimal (negsuc n) = "-" <> itoa (suc n)

abbrev pub fits : ℤ → Bool
fits (pos n) = ltb n (2 ^ 63)
fits (negsuc n) = ltb n (2 ^ 63)

abbrev within : ℤ → Option ℤ
within z = if fits z then some z else none

positive-itoa : (n : ℕ) → positive (itoa n) ≡ within (pos n)
unfolding positive
positive-itoa n = rw (positive, natural-itoa n) (ground arith)

negative-itoa : (n : ℕ) → negative (itoa (suc n)) ≡ within (negsuc n)
unfolding negative
negative-itoa n = rw (negative, natural-itoa (suc n)) (ground arith)

atoi-itoa : (n : ℕ) → atoi (itoa n) ≡ within (pos n)
unfolding atoi itoa
atoi-itoa n =
    let (c, (t, (e, k))) = digits-first (suc n) n "" (omega arith) in
    let minus : eqb (code c) b'-' ≡ false = ground arith in
    let plus : eqb (code c) b'+' ≡ false = ground arith in
    rw (e, minus, plus) (ap positive (sym e) ∙ positive-itoa n)

atoi-decimal : (z : ℤ) → atoi (decimal z) ≡ within z
unfolding atoi
atoi-decimal (pos n) = atoi-itoa n
atoi-decimal (negsuc n) = rw (cons-append, nil-append) (negative-itoa n)

cons-filled : (c : Char) (t : String) → (String.◌∷◌ c t == "") ≡ false
cons-filled c t = elim (Bool-cases (String.◌∷◌ c t == "")) [
  | inl q ↦ let e = (eq_iff (String.◌∷◌ c t) "").0 q in absurd (cc)
  | inr q ↦ q
]

decimal-filled : (z : ℤ) → (decimal z == "") ≡ false
unfolding itoa
decimal-filled (pos n) =
    let (c, (t, (e, k))) = digits-first (suc n) n "" (omega arith) in rw e (cons-filled c t)
decimal-filled (negsuc n) = rw cons-append (cons-filled _ _)

read_back :
    (z fallback : ℤ) (b : Bool)
    → elim (if b then some z else none) [ none ↦ fallback | some n ↦ n ]
      ≡ (if b then z else fallback)
read_back z fallback true = refl
read_back z fallback false = refl

-- A variable of the environment that holds an integer in decimal is read back, where the integer
-- has 64 bits; where it has more, getInt answers the fallback.
pub get_int-decimal :
    (getenv : String → String) (key : String) (fallback z : ℤ)
    → getenv key ≡ decimal z
    → get_int getenv key fallback ≡ (if fits z then z else fallback)
unfolding get_int
get_int-decimal getenv key fallback z h =
    rw (h, decimal-filled z, atoi-decimal z) (read_back z fallback (fits z))
