-- ===== src/Base/Decimal.antt =====
-- Decimal numbers: `std::to_string`, and the value of a text of digits.
use Prim.Native.Nat.{ℕ, zero, suc, ◌+◌, ◌-◌, ◌*◌, ◌/◌, ◌%◌, ◌<◌}
use Prim.Native.Char.{Char, code}
use Prim.Native.String.{String, [], ◌∷◌}
use mathlib.Core.Path.{◌≡◌, refl}
use mathlib.Core.Bool.{true, false}
use mathlib.Core.Logic.{inl, inr}
use native.Mathlib.Omega.{arith}
use text.Mathlib.TextLemmas.{cons-append, nil-append}
use opencattus.Base.Tests.{ltb, if◌then◌else◌, Bool-cases, ltb→lt}
use opencattus.Base.Text.{◌<>◌, is_empty, all_of, is_digit, all_of-append}

-- The digit of a number below ten.
digit : ℕ → Char
digit zero = "0"
digit (suc zero) = "1"
digit (suc (suc zero)) = "2"
digit (suc (suc (suc zero))) = "3"
digit (suc (suc (suc (suc zero)))) = "4"
digit (suc (suc (suc (suc (suc zero))))) = "5"
digit (suc (suc (suc (suc (suc (suc zero)))))) = "6"
digit (suc (suc (suc (suc (suc (suc (suc zero))))))) = "7"
digit (suc (suc (suc (suc (suc (suc (suc (suc zero)))))))) = "8"
digit _ = "9"

-- One digit for each round; the number itself is fuel enough.
print : ℕ → ℕ → String
print zero n = []
print (suc f) n =
    let more = print f (n / 10) <> (digit (n % 10) ∷ []) in if ltb n 10 then digit n ∷ [] else more

-- `std::to_string` of an unsigned number.
unfoldable pub to_string : ℕ → String
unfolding print digit
to_string n = print (suc n) n

-- The value of a text of digits, read behind `acc`.
abbrev pub decimal : ℕ → String → ℕ
decimal acc [] = acc
decimal acc (c ∷ s) = decimal (acc * 10 + (code c - b'0')) s

decimal-snoc :
    (acc : ℕ) (s : String) (c : Char)
    → decimal acc (s <> (c ∷ [])) ≡ decimal acc s * 10 + (code c - b'0')
decimal-snoc acc [] c = rw nil-append
decimal-snoc acc (d ∷ s) c = rw cons-append (decimal-snoc (acc * 10 + (code d - b'0')) s c)

digit_value : (n : ℕ) → n < 10 → code (digit n) - b'0' ≡ n
unfolding digit
digit_value zero h = refl
digit_value (suc zero) h = refl
digit_value (suc (suc zero)) h = refl
digit_value (suc (suc (suc zero))) h = refl
digit_value (suc (suc (suc (suc zero)))) h = refl
digit_value (suc (suc (suc (suc (suc zero))))) h = refl
digit_value (suc (suc (suc (suc (suc (suc zero)))))) h = refl
digit_value (suc (suc (suc (suc (suc (suc (suc zero))))))) h = refl
digit_value (suc (suc (suc (suc (suc (suc (suc (suc zero)))))))) h = refl
digit_value (suc (suc (suc (suc (suc (suc (suc (suc (suc zero))))))))) h = refl
digit_value (suc (suc (suc (suc (suc (suc (suc (suc (suc (suc n)))))))))) h = absurd (omega arith)

digit-is_digit : (n : ℕ) → is_digit (digit n) ≡ true
unfolding digit
digit-is_digit zero = refl
digit-is_digit (suc zero) = refl
digit-is_digit (suc (suc zero)) = refl
digit-is_digit (suc (suc (suc zero))) = refl
digit-is_digit (suc (suc (suc (suc zero)))) = refl
digit-is_digit (suc (suc (suc (suc (suc zero))))) = refl
digit-is_digit (suc (suc (suc (suc (suc (suc zero)))))) = refl
digit-is_digit (suc (suc (suc (suc (suc (suc (suc zero))))))) = refl
digit-is_digit (suc (suc (suc (suc (suc (suc (suc (suc zero)))))))) = refl
digit-is_digit _ = refl

decimal-print : (f n : ℕ) → n < f → decimal 0 (print f n) ≡ n
unfolding print
decimal-print zero n h = elim h [ ]
decimal-print (suc f) n h = elim (Bool-cases (ltb n 10)) [
  | inl small ↦ rw small (omega (arith, digit_value n (ltb→lt n 10 small)))
  | inr big ↦
      rw (big, decimal-snoc 0 (print f (n / 10)) (digit (n % 10)))
        (omega (arith, decimal-print f (n / 10) (ground arith), digit_value (n % 10) (omega arith)))
]

digits-print : (f n : ℕ) → all_of is_digit (print f n) ≡ true
unfolding print
digits-print zero n = refl
digits-print (suc f) n = elim (Bool-cases (ltb n 10)) [
  | inl small ↦ rw small (rw (digit-is_digit n) refl)
  | inr big ↦ rw (
    big,
    all_of-append is_digit (print f (n / 10)) (digit (n % 10) ∷ []),
    digits-print f (n / 10),
    digit-is_digit (n % 10),
  )
]

-- A printed number reads back as itself.
pub decimal-to_string : (n : ℕ) → decimal 0 (to_string n) ≡ n
unfolding to_string
decimal-to_string n = decimal-print (suc n) n (omega arith)

pub digits-to_string : (n : ℕ) → all_of is_digit (to_string n) ≡ true
unfolding to_string
digits-to_string n = digits-print (suc n) n

snoc-ne-empty : (s : String) (c : Char) → is_empty (s <> (c ∷ [])) ≡ false
snoc-ne-empty [] c = rw nil-append
snoc-ne-empty (d ∷ s) c = rw cons-append

pub to_string-ne-empty : (n : ℕ) → is_empty (to_string n) ≡ false
unfolding to_string
to_string-ne-empty n = ground (arith, snoc-ne-empty (print n (n / 10)) (digit (n % 10)))
