-- ===== src/Base/Text.antt =====
-- Text as the program builds it: concatenation, and `%d` of a natural number.
use Prim.Native.Nat.{ℕ, zero, suc, ◌/◌, ◌%◌}
use Prim.Native.String.{String}
use Prim.Native.String
use notification_system.Base.Check.{ltb, if◌then◌else◌}

infixl 66 ◌<>◌
abbrev pub ◌<>◌ : String → String → String
s <> t = String.◌++◌ s t

unfoldable pub digit : ℕ → String
digit zero = "0"
digit (suc zero) = "1"
digit (suc (suc zero)) = "2"
digit (suc (suc (suc zero))) = "3"
digit (suc (suc (suc (suc zero)))) = "4"
digit (suc (suc (suc (suc (suc zero))))) = "5"
digit (suc (suc (suc (suc (suc (suc zero)))))) = "6"
digit (suc (suc (suc (suc (suc (suc (suc zero))))))) = "7"
digit (suc (suc (suc (suc (suc (suc (suc (suc zero)))))))) = "8"
digit _ = "9"

-- The digits of `n` in front of `acc`; each round divides by ten, so `n + 1` rounds are enough.
unfoldable pub digits : ℕ → ℕ → String → String
digits zero n acc = acc
digits (suc fuel) n acc =
    let shorter = digits fuel (n / 10) (digit (n % 10) <> acc) in
    if ltb n 10 then digit n <> acc else shorter

unfoldable pub itoa : ℕ → String
unfolding digits digit
itoa n = digits (suc n) n ""
