-- ===== src/Sender/Masking.antt =====
-- What `mask` shows of a text.
use notification_system.Base.{
  ℕ, ◌-◌, leb, false, List, [], ◌∷◌, ◌++◌, length, length-append, drop, ◌≡◌, refl, arith,
}
use notification_system.Sender.{mask}

drop-length : (xs ys : List ℕ) → drop (length xs) (xs ++ ys) ≡ ys
drop-length [] ys = refl
drop-length (x ∷ xs) ys = drop-length xs ys

-- A text of at least five bytes is masked to its first two and last two bytes around four stars,
-- so two such texts that differ only in between are masked alike.
mask_middle :
    (a b x c d : ℕ) (middle : List ℕ)
    → mask ((a ∷ b ∷ x ∷ middle) ++ (c ∷ d ∷ [])) ≡ a ∷ b ∷ b'*' ∷ b'*' ∷ b'*' ∷ b'*' ∷ c ∷ d ∷ []
unfolding mask
mask_middle a b x c d middle =
    let text : List ℕ = (a ∷ b ∷ x ∷ middle) ++ (c ∷ d ∷ []) in
    let n = length-append middle (c ∷ d ∷ []) in
    let long : leb (length text) 4 ≡ false = ground (arith, n) in
    let cut : length text - 2 ≡ length (a ∷ b ∷ x ∷ middle) = omega (arith, n) in
    rw (long, cut, drop-length (a ∷ b ∷ x ∷ middle) (c ∷ d ∷ [])) refl
