-- ===== src/Json.antt =====
-- JSON values, and the parts of encoding/json that the program uses: field names are matched
-- without regard to case, unknown members are ignored, of two members of one name the later one
-- counts, and `null` leaves a text or a time as it is. The text of a value is not modelled: bytes
-- are what the parser makes of them.
use Prim.Native.Char.{code}
use notification_system.Base.{
  ℕ, ◌+◌, String, Bool, true, false, ◌&&◌, Option, none, some, List, [], ◌∷◌, leb, eqb,
  if◌then◌else◌,
}
use notification_system.Domain.{Time}

mutual
  pub data Json : Type 0 where
    null : Json
    bool : Bool → Json
    number : String → Json
    text : String → Json
    array : Items → Json
    object : Members → Json

  pub data Items : Type 0 where
    nil : Items
    cons : Json → Items → Items

  pub data Members : Type 0 where
    end : Members
    member : String → Json → Members → Members

-- The bytes of a body, a message or a cache entry; `none` where they are no JSON value.
abbrev pub Bytes : Type 0
Bytes = Option Json

-- The text of a time, RFC 3339 with fractions of a second (package time).
pub record TimeFormat : Type 0 where
  pub format : Time → String
  pub parse : String → Option Time

-- A letter in the form that is compared: beside A to Z, two signs fold to the letters s and k.
fold_code : ℕ → ℕ
fold_code c =
    if leb b'A' c && leb c b'Z'
    then c + 32
    else if eqb c 0x17f
    then b's'
    else if eqb c 0x212a
    then b'k'
    else c

same_codes : String → String → Bool
same_codes String.[] String.[] = true
same_codes String.[] (String.◌∷◌ d t) = false
same_codes (String.◌∷◌ c s) String.[] = false
same_codes (String.◌∷◌ c s) (String.◌∷◌ d t) =
    eqb (fold_code (code c)) (fold_code (code d)) && same_codes s t

unfoldable pub same_name : String → String → Bool
unfolding same_codes fold_code
same_name key name = same_codes key name

-- Decoding into a variable of each type, which holds the second argument so far.
unfoldable pub into_text : Json → String → Option String
into_text null old = some old
into_text (text s) old = some s
into_text _ old = none

unfoldable pub into_bool : Json → Bool → Option Bool
into_bool null old = some old
into_bool (bool b) old = some b
into_bool _ old = none

-- The members of a map of texts; `null` leaves the new entry empty.
unfoldable pub entries : Members → Option (List (String × String))
entries end = some []
entries (member key (text s) ms) = elim (entries ms) [
  | none ↦ none
  | some es ↦ some ((key, s) ∷ es)
]
entries (member key null ms) = elim (entries ms) [ none ↦ none | some es ↦ some ((key, "") ∷ es) ]
entries (member key _ ms) = none

unfoldable pub of_entries : List (String × String) → Members
of_entries [] = end
of_entries ((key, s) ∷ es) = member key (text s) (of_entries es)
