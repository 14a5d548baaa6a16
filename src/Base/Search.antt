-- ===== src/Base/Search.antt =====
-- Positions in texts (`find`, `rfind`, `contains`, `substr`) and signed numbers (`std::stoi`,
-- `std::stoll`), over the native `String`.
use Prim.Native.Nat.{ℕ, zero, suc, ◌-◌, ◌^◌}
use Prim.Native.Char.{code}
use Prim.Native.String.{String, [], ◌∷◌}
use mathlib.Core.Path.{◌≡◌, refl}
use mathlib.Core.Bool.{Bool, true, false}
use mathlib.Core.Option.{Option, none, some}
use opencattus.Base.Tests.{ltb, leb, ◌==◌, if◌then◌else◌}
use opencattus.Base.Lists.{has_value}
use opencattus.Base.Text.{is_empty, starts_with}
use opencattus.Base.Decimal.{decimal}
use opencattus.Base.Stoul.{skip_spaces, leading_digits}
use opencattus.Base.Results.{Result, ok, err, invalid_argument, out_of_range, says}

abbrev pub next_position : Option ℕ → Option ℕ
next_position none = none
next_position (some n) = some (suc n)

-- The first and the last position of a text in another.
abbrev pub find : String → String → Option ℕ
find needle [] = if is_empty needle then some 0 else none
find needle (c ∷ s) =
    let rest = next_position (find needle s) in if starts_with needle (c ∷ s) then some 0 else rest

abbrev pub last_position : Option ℕ → Bool → Option ℕ
last_position (some n) here = some (suc n)
last_position none true = some 0
last_position none false = none

abbrev pub rfind : String → String → Option ℕ
rfind needle [] = if is_empty needle then some 0 else none
rfind needle (c ∷ s) = last_position (rfind needle s) (starts_with needle (c ∷ s))

abbrev pub contains : String → String → Bool
contains needle s = has_value (find needle s)

-- `substr(from)`, and `substr(0, count)`.
abbrev pub drop : ℕ → String → String
drop zero s = s
drop (suc n) [] = []
drop (suc n) (c ∷ s) = drop n s

abbrev pub take : ℕ → String → String
take zero s = []
take (suc n) [] = []
take (suc n) (c ∷ s) = c ∷ take n s

-- A signed number: `pos n` is n, and `negsuc n` is -(n + 1).
pub data ℤ : Type 0 where
  pos negsuc : ℕ → ℤ

abbrev pub less : ℤ → ℤ → Bool
less (pos m) (pos n) = ltb m n
less (pos m) (negsuc n) = false
less (negsuc m) (pos n) = true
less (negsuc m) (negsuc n) = ltb n m

abbrev negated : ℕ → ℤ
negated zero = pos 0
negated (suc n) = negsuc n

-- The value of digits as a number of so many bits.
in_width : ℕ → Bool → String → Result ℤ
in_width bits negative digits =
    if is_empty digits
    then err (invalid_argument (says "sto"))
    else if negative
    then (if leb (decimal 0 digits) (2 ^ (bits - 1))
        then ok (negated (decimal 0 digits))
        else err (out_of_range (says "sto")))
    else (if ltb (decimal 0 digits) (2 ^ (bits - 1))
        then ok (pos (decimal 0 digits))
        else err (out_of_range (says "sto")))

signed_number : ℕ → String → Result ℤ
unfolding in_width
signed_number bits [] = in_width bits false []
signed_number bits (c ∷ s) =
    if code c == code "-"
    then in_width bits true (leading_digits s)
    else if code c == code "+"
    then in_width bits false (leading_digits s)
    else in_width bits false (leading_digits (c ∷ s))

-- `std::stoi` and `std::stoll`, for 32 and 64 bits.
unfoldable pub signed_value : ℕ → String → Result ℤ
unfolding signed_number
signed_value bits s = signed_number bits (skip_spaces s)

search_test :
    (find "ab" "xabab" ≡ some 1) × (rfind "ab" "xabab" ≡ some 3) × (contains "lts" "latest" ≡ false)
search_test = (refl, refl, refl)

signed_test : (signed_value 32 "-12x" ≡ ok (negsuc 11)) × (signed_value 32 " 7" ≡ ok (pos 7))
unfolding signed_value signed_number in_width skip_spaces leading_digits
signed_test = (refl, refl)
