-- ===== src/AnswerFile/Checks/Unsigned.antt =====
-- The numeric fields of an answerfile: what `parseUnsignedAnswerfileField` and
-- `parsePortAnswerfileField` of src/models/answerfile.cpp accept.
use opencattus.Base.{
  ℕ, ◌≤◌, ◌<◌, String, ◌≡◌, ◌↔◌, Bool, true, false, arith, ok, Option, some, none,
}
use opencattus.Base.Text.{is_empty, all_of, is_digit}
use opencattus.Base.Decimal.{
  decimal, to_string, decimal-to_string, digits-to_string, to_string-ne-empty,
}
use opencattus.AnswerFile.Checks.{
  parse_unsigned_answerfile_field, parse_port_answerfile_field, validate_unsigned_answerfile_field,
  size_limit,
}

-- The texts that a numeric field may hold.
pub record IsUnsigned (v : String) (allow_zero : Bool) : Type 0 where
  pub filled : is_empty v ≡ false
  pub digits : all_of is_digit v ≡ true
  pub in_range : decimal 0 v < size_limit
  pub nonzero : allow_zero ≡ false → 0 < decimal 0 v

module _ (section field v : String) (allow_zero : Bool) where
  pub IsUnsigned-parse :
      (n : ℕ)
      → parse_unsigned_answerfile_field section field v allow_zero ≡ ok n
      → IsUnsigned v allow_zero × (n ≡ decimal 0 v)
  unfolding parse_unsigned_answerfile_field
  IsUnsigned-parse n e = (
    record {
      filled = ground arith;
      digits = ground arith;
      in_range = ground arith;
      nonzero = λ z. ground arith;
    },
    ground arith,
  )

  pub parse-IsUnsigned :
      IsUnsigned v allow_zero
      → parse_unsigned_answerfile_field section field v allow_zero ≡ ok (decimal 0 v)
  unfolding parse_unsigned_answerfile_field
  parse-IsUnsigned u = ground (arith, u.nonzero)

-- A numeric field is accepted with the value n exactly when it is a nonempty text of digits whose
-- decimal value is n, below 2^64, and not zero unless zero is allowed.
pub parse_field-ok_iff :
    (section field v : String) (allow_zero : Bool) (n : ℕ)
    → (parse_unsigned_answerfile_field section field v allow_zero ≡ ok n)
      ↔ (IsUnsigned v allow_zero × (n ≡ decimal 0 v))
parse_field-ok_iff section field v allow_zero n = (
  IsUnsigned-parse section field v allow_zero n,
  λ h. rw h.1 (parse-IsUnsigned section field v allow_zero h.0),
)

-- Every accepted port is the decimal value of its text and lies between 1 and 65535.
pub parse_port_bounds :
    (section field v : String) (port : ℕ)
    → parse_port_answerfile_field section field v ≡ ok port
    → (port ≡ decimal 0 v) × (0 < port) × (port ≤ 65535)
unfolding parse_port_answerfile_field
parse_port_bounds section field v port e = ground arith

-- A port between 1 and 65535 that `std::to_string` has written is read back as itself.
pub parse_port-to_string :
    (section field : String) (port : ℕ)
    → 0 < port
    → port ≤ 65535
    → parse_port_answerfile_field section field (to_string port) ≡ ok port
unfolding parse_port_answerfile_field
parse_port-to_string section field port lo hi =
    ground (arith, decimal-to_string port, digits-to_string port, to_string-ne-empty port)

-- A checked optional field is missing, or holds an accepted text.
abbrev pub IsUnsignedOpt : Option String → Bool → Type 0
IsUnsignedOpt none allow_zero = Unit {0}
IsUnsignedOpt (some v) allow_zero = IsUnsigned v allow_zero

pub validate_unsigned-IsUnsignedOpt :
    (section field : String) (o : Option String) (allow_zero : Bool)
    → validate_unsigned_answerfile_field section field o allow_zero ≡ ok tt
    → IsUnsignedOpt o allow_zero
unfolding validate_unsigned_answerfile_field
validate_unsigned-IsUnsignedOpt section field none allow_zero e = tt
validate_unsigned-IsUnsignedOpt section field (some v) allow_zero e = record {
  filled = ground arith;
  digits = ground arith;
  in_range = ground arith;
  nonzero = λ z. ground arith;
}
