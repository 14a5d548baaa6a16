-- ===== src/Base/Stoul.antt =====
-- `std::stoul` of the C++ library in base ten: blanks, a sign, digits, and whatever follows them.
use Prim.Native.Nat.{ℕ, ◌-◌, ◌%◌, ◌^◌, ◌<◌}
use Prim.Native.Char.{Char, code}
use Prim.Native.String.{String, [], ◌∷◌}
use mathlib.Core.Path.{◌≡◌, refl}
use mathlib.Core.Bool.{Bool, true, false, ◌&&◌, ◌||◌}
use native.Mathlib.Omega.{arith}
use opencattus.Base.Tests.{ltb, leb, ◌==◌, if◌then◌else◌}
use opencattus.Base.Text.{is_empty, all_of, is_digit}
use opencattus.Base.Decimal.{
  to_string, decimal, decimal-to_string, digits-to_string, to_string-ne-empty,
}
use opencattus.Base.Results.{Result, ok, err, invalid_argument, out_of_range, says}

unfoldable pub is_space : Char → Bool
is_space c = code c == 32 || (leb 9 (code c) && leb (code c) 13)

unfoldable pub skip_spaces : String → String
unfolding is_space
skip_spaces [] = []
skip_spaces (c ∷ s) = if is_space c then skip_spaces s else c ∷ s

unfoldable pub leading_digits : String → String
leading_digits [] = []
leading_digits (c ∷ s) = if is_digit c then c ∷ leading_digits s else []

magnitude : String → Result ℕ
magnitude digits =
    if is_empty digits
    then err (invalid_argument (says "stoul"))
    else if ltb (decimal 0 digits) (2 ^ 64)
    then ok (decimal 0 digits)
    else err (out_of_range (says "stoul"))

negate : Result ℕ → Result ℕ
negate (ok n) = ok ((2 ^ 64 - n) % 2 ^ 64)
negate (err e) = err e

signed : String → Result ℕ
unfolding magnitude leading_digits negate
signed [] = magnitude []
signed (c ∷ s) =
    if code c == code "-"
    then negate (magnitude (leading_digits s))
    else if code c == code "+"
    then magnitude (leading_digits s)
    else magnitude (leading_digits (c ∷ s))

unfoldable pub stoul : String → Result ℕ
unfolding skip_spaces signed
stoul s = signed (skip_spaces s)

leading_digits-all : (s : String) → all_of is_digit s ≡ true → leading_digits s ≡ s
unfolding leading_digits
leading_digits-all [] h = refl
leading_digits-all (c ∷ s) h = ground (arith, leading_digits-all s)

-- A text of digits whose value fits is read as that value.
pub stoul-digits :
    (s : String)
    → is_empty s ≡ false
    → all_of is_digit s ≡ true
    → decimal 0 s < 2 ^ 64
    → stoul s ≡ ok (decimal 0 s)
unfolding stoul skip_spaces is_space signed magnitude
stoul-digits [] e h m = cc
stoul-digits (c ∷ s) e h m = ground (arith, leading_digits-all (c ∷ s))

pub stoul-to_string : (n : ℕ) → n < 2 ^ 64 → stoul (to_string n) ≡ ok n
stoul-to_string n h = rw (
  stoul-digits (to_string n) (to_string-ne-empty n) (digits-to_string n)
      (rw (decimal-to_string n) h),
  decimal-to_string n,
)

stoul_test : stoul " 42x" ≡ ok 42
unfolding stoul skip_spaces is_space signed magnitude leading_digits
stoul_test = refl

stoul_negative_test : stoul "-1" ≡ ok (2 ^ 64 - 1)
unfolding stoul skip_spaces is_space signed magnitude leading_digits negate
stoul_negative_test = refl

-- What is read fits in 64 bits.
pub stoul_bounded : (s : String) {n : ℕ} → stoul s ≡ ok n → n < 2 ^ 64
unfolding stoul signed magnitude negate
stoul_bounded s {n} h = within (skip_spaces s) h
  where
    within : (t : String) → signed t ≡ ok n → n < 2 ^ 64
    within [] h = ground arith
    within (c ∷ t) h = ground arith
