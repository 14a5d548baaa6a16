-- ===== src/Base/Text.antt =====
-- include/opencattus/utils/string.h, and the character classes of the C library, over the native
-- `String`. A byte above 127 is in no class, so a code point is classed as its bytes are.
use Prim.Native.Nat.{ℕ, ◌+◌}
use Prim.Native.Char.{Char, code}
use Prim.Native.String
use Prim.Native.String.{String, [], ◌∷◌}
use mathlib.Core.Path.{◌≡◌, refl}
use mathlib.Core.Bool.{Bool, true, false, ◌&&◌, ◌||◌}
use mathlib.Core.List.{List}
use text.Mathlib.TextLemmas.{cons-append, nil-append}
use opencattus.Base.Tests.{leb, ◌==◌, if◌then◌else◌}

infixl 65 ◌<>◌
abbrev pub ◌<>◌ : String → String → String
s <> t = String.◌++◌ s t

abbrev pub is_empty : String → Bool
is_empty [] = true
is_empty (c ∷ s) = false

abbrev pub all_of : (Char → Bool) → String → Bool
all_of p [] = true
all_of p (c ∷ s) = p c && all_of p s

abbrev pub is_digit : Char → Bool
is_digit c = leb b'0' (code c) && leb (code c) b'9'

abbrev pub is_alnum : Char → Bool
is_alnum c =
    is_digit c
    || (leb b'A' (code c) && leb (code c) b'Z')
    || (leb b'a' (code c) && leb (code c) b'z')

-- A hexadecimal digit.
abbrev pub is_hex : Char → Bool
is_hex c =
    is_digit c
    || (leb b'A' (code c) && leb (code c) b'F')
    || (leb b'a' (code c) && leb (code c) b'f')

-- A text of which each character is in its class.
abbrev pub matches : List (Char → Bool) → String → Bool
matches List.[] [] = true
matches List.[] (c ∷ s) = false
matches (List.◌∷◌ p ps) [] = false
matches (List.◌∷◌ p ps) (c ∷ s) = p c && matches ps s

-- The character at the same place of the second text, for one of the first.
unfoldable pub transliterate : Char → String → String → Char
transliterate c (u ∷ us) (l ∷ ls) = if code c == code u then l else transliterate c us ls
transliterate c _ _ = c

-- `std::tolower` in the C locale.
unfoldable pub to_lower : Char → Char
unfolding transliterate
to_lower c = transliterate c "ABCDEFGHIJKLMNOPQRSTUVWXYZ" "abcdefghijklmnopqrstuvwxyz"

unfoldable pub lower : String → String
unfolding to_lower
lower [] = []
lower (c ∷ s) = to_lower c ∷ lower s

-- `std::string::size`
abbrev pub size : String → ℕ
size [] = 0
size (c ∷ s) = 1 + size s

-- `starts_with` of a text, and `substr` behind as many characters.
abbrev pub starts_with : String → String → Bool
starts_with [] s = true
starts_with (d ∷ p) [] = false
starts_with (d ∷ p) (c ∷ s) = code c == code d && starts_with p s

abbrev pub drop_as_long : String → String → String
drop_as_long [] s = s
drop_as_long (d ∷ p) [] = []
drop_as_long (d ∷ p) (c ∷ s) = drop_as_long p s

-- `std::string::starts_with` and `ends_with` of one character.
abbrev pub first_is : Char → String → Bool
first_is d [] = false
first_is d (c ∷ s) = code c == code d

abbrev pub last_is : Char → String → Bool
last_is d [] = false
last_is d (c ∷ []) = code c == code d
last_is d (c ∷ s) = last_is d s

-- The text before the first `d`, and the text behind it; both are whole where `d` is missing,
-- as `substr(0, npos)` and `substr(npos + 1)` are.
abbrev pub before : Char → String → String
before d [] = []
before d (c ∷ s) = if code c == code d then [] else c ∷ before d s

abbrev pub has_char : Char → String → Bool
has_char d [] = false
has_char d (c ∷ s) = code c == code d || has_char d s

abbrev pub behind : Char → String → String
behind d [] = []
behind d (c ∷ s) = if code c == code d then s else behind d s

abbrev pub after_first : Char → String → String
after_first d s = if has_char d s then behind d s else s

-- `value.erase(std::remove(...))`
abbrev pub without : Char → String → String
without d [] = []
without d (c ∷ s) = if code c == code d then without d s else c ∷ without d s

pub all_of-append :
    (p : Char → Bool) (s t : String) → all_of p (s <> t) ≡ (all_of p s && all_of p t)
all_of-append p [] t = rw nil-append
all_of-append p (c ∷ s) t = rw (cons-append, all_of-append p s t) (ground_and (p c) _ _)
  where
    ground_and : (a b d : Bool) → (a && (b && d)) ≡ ((a && b) && d)
    ground_and true b d = refl
    ground_and false b d = refl

lower_test : lower "Rocky-9 ALMA" ≡ "rocky-9 alma"
unfolding lower
lower_test = refl

cut_test : (before "." "24.04.2" ≡ "24") × (after_first "." "24.04.2" ≡ "04.2")
cut_test = (refl, refl)
