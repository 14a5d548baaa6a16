-- ===== src/Connection/Formats.antt =====
-- The MAC addresses and host names that src/connection.cpp accepts.
use opencattus.Base.{
  ℕ, subst, sym, ◌≤◌, String, ◌≡◌, refl, ◌↔◌, ◌⊎◌, inl, inr, Bool, true, false, ◌||◌, ◌&&◌, List,
  [], ◌∷◌, length, ok, Bool-cases, arith,
}
use Prim.Native.Char.{Char, code}
use Prim.Native.Nat.{zero, suc}
use opencattus.Base.Text.{size, all_of, is_digit, is_hex, first_is, last_is, matches}
use opencattus.Connection.{
  Connection, in_pair_separator, is_dot, pair_format, cisco_format, validate_mac, in_hostname,
  set_hostname, is_empty_text,
}

-- A text in a format is as long as the format.
size-matches : (ps : List (Char → Bool)) (s : String) → matches ps s ≡ true → size s ≡ length ps
size-matches [] String.[] h = refl
size-matches [] (String.◌∷◌ c s) h = cc
size-matches (p ∷ ps) String.[] h = cc
size-matches (p ∷ ps) (String.◌∷◌ c s) h = ground (arith, size-matches ps s)

-- A text that the pattern of the source matches.
abbrev pub IsInFormat : String → Type 0
IsInFormat mac = (matches pair_format mac ≡ true) ⊎ (matches cisco_format mac ≡ true)

-- A hexadecimal digit.
abbrev pub IsHexDigit : Char → Type 0
IsHexDigit c =
    ((b'0' ≤ code c) × (code c ≤ b'9'))
    ⊎ ((b'A' ≤ code c) × (code c ≤ b'F'))
    ⊎ ((b'a' ≤ code c) × (code c ≤ b'f'))

abbrev pub IsColonOrHyphen : Char → Type 0
IsColonOrHyphen c = (code c ≡ b':') ⊎ (code c ≡ b'-')

abbrev pub IsDot : Char → Type 0
IsDot c = code c ≡ b'.'

-- Groups of hexadecimal digits with a separator between them: so many digits are left of the first
-- group, and so many groups of a size come behind it, and nothing else.
unfoldable pub IsGroups : (Char → Type 0) → ℕ → ℕ → ℕ → String → Type 0
IsGroups IsSeparator group zero zero String.[] = Unit {0}
IsGroups IsSeparator group (suc left) more (String.◌∷◌ c s) =
    IsHexDigit c × IsGroups IsSeparator group left more s
IsGroups IsSeparator group zero (suc more) (String.◌∷◌ c s) =
    IsSeparator c × IsGroups IsSeparator group group more s
IsGroups IsSeparator group left more s = ⊥

-- A MAC address: six pairs with colons or hyphens between them, or three groups of four with dots.
abbrev pub IsMac : String → Type 0
IsMac mac = IsGroups IsColonOrHyphen 2 2 5 mac ⊎ IsGroups IsDot 4 4 2 mac

hex-IsHexDigit : (c : Char) → is_hex c ≡ true → IsHexDigit c
hex-IsHexDigit c h = ground arith

IsHexDigit-hex : (c : Char) → IsHexDigit c → is_hex c ≡ true
IsHexDigit-hex c h = ground arith

both : (a b : Bool) → (a && b) ≡ true → (a ≡ true) × (b ≡ true)
both a b h = (ground arith, ground arith)

and_true : (a b : Bool) → a ≡ true → b ≡ true → (a && b) ≡ true
and_true a b h k = rw (h, k) refl

separator-IsColon : (c : Char) → in_pair_separator c ≡ true → (code c ≡ b':') ⊎ (code c ≡ b'-')
separator-IsColon c h = ground arith

IsColon-separator : (c : Char) → (code c ≡ b':') ⊎ (code c ≡ b'-') → in_pair_separator c ≡ true
IsColon-separator c h = ground arith

dot-code : (c : Char) → is_dot c ≡ true → code c ≡ b'.'
dot-code c h = ground arith

code-dot : (c : Char) → code c ≡ b'.' → is_dot c ≡ true
code-dot c h = ground arith

-- The format of such groups.
groups : (Char → Bool) → ℕ → ℕ → ℕ → List (Char → Bool)
groups separator group zero zero = []
groups separator group (suc left) more = is_hex ∷ groups separator group left more
groups separator group zero (suc more) = separator ∷ groups separator group group more

groups-IsGroups :
    (separator : Char → Bool) (IsSeparator : Char → Type 0)
    → ((c : Char) → separator c ≡ true → IsSeparator c)
    → (group left more : ℕ) (s : String) → matches (groups separator group left more) s ≡ true
    → IsGroups IsSeparator group left more s
unfolding groups IsGroups
groups-IsGroups separator IsSeparator sound group zero zero String.[] h = tt
groups-IsGroups separator IsSeparator sound group zero zero (String.◌∷◌ c s) h = cc
groups-IsGroups separator IsSeparator sound group (suc left) more String.[] h = cc
groups-IsGroups separator IsSeparator sound group (suc left) more (String.◌∷◌ c s) h =
    let (hc, r) = both _ _ h in
    (hex-IsHexDigit c hc, groups-IsGroups separator IsSeparator sound group left more s r)
groups-IsGroups separator IsSeparator sound group zero (suc more) String.[] h = cc
groups-IsGroups separator IsSeparator sound group zero (suc more) (String.◌∷◌ c s) h =
    let (hc, r) = both _ _ h in
    (sound c hc, groups-IsGroups separator IsSeparator sound group group more s r)

IsGroups-groups :
    (separator : Char → Bool) (IsSeparator : Char → Type 0)
    → ((c : Char) → IsSeparator c → separator c ≡ true)
    → (group left more : ℕ) (s : String) → IsGroups IsSeparator group left more s
    → matches (groups separator group left more) s ≡ true
unfolding groups IsGroups
IsGroups-groups separator IsSeparator complete group zero zero String.[] h = refl
IsGroups-groups separator IsSeparator complete group zero zero (String.◌∷◌ c s) h = absurd h
IsGroups-groups separator IsSeparator complete group (suc left) more String.[] h = absurd h
IsGroups-groups separator IsSeparator complete group (suc left) more (String.◌∷◌ c s) (hc, h) =
    and_true _ _ (IsHexDigit-hex c hc)
      (IsGroups-groups separator IsSeparator complete group left more s h)
IsGroups-groups separator IsSeparator complete group zero (suc more) String.[] h = absurd h
IsGroups-groups separator IsSeparator complete group zero (suc more) (String.◌∷◌ c s) (hc, h) =
    and_true _ _ (complete c hc)
      (IsGroups-groups separator IsSeparator complete group group more s h)

pair_format-groups : pair_format ≡ groups in_pair_separator 2 2 5
unfolding groups
pair_format-groups = refl

cisco_format-groups : cisco_format ≡ groups is_dot 4 4 2
unfolding groups
cisco_format-groups = refl

pub IsInFormat-IsMac : (mac : String) → IsInFormat mac → IsMac mac
IsInFormat-IsMac mac (inl h) = inl (
    groups-IsGroups in_pair_separator IsColonOrHyphen separator-IsColon 2 2 5 mac
      (subst (λ ps. matches ps mac ≡ true) pair_format-groups h))
IsInFormat-IsMac mac (inr h) = inr (
    groups-IsGroups is_dot IsDot dot-code 4 4 2 mac
      (subst (λ ps. matches ps mac ≡ true) cisco_format-groups h))

pub IsMac-IsInFormat : (mac : String) → IsMac mac → IsInFormat mac
IsMac-IsInFormat mac (inl h) = inl (
    subst (λ ps. matches ps mac ≡ true) (sym pair_format-groups)
      (IsGroups-groups in_pair_separator IsColonOrHyphen IsColon-separator 2 2 5 mac h))
IsMac-IsInFormat mac (inr h) = inr (
    subst (λ ps. matches ps mac ≡ true) (sym cisco_format-groups)
      (IsGroups-groups is_dot IsDot code-dot 4 4 2 mac h))

pub IsMac-validate_mac : (mac : String) {valid : Bool} → validate_mac mac ≡ ok valid → IsMac mac
unfolding validate_mac
IsMac-validate_mac mac h = IsInFormat-IsMac mac (elim (Bool-cases (matches pair_format mac)) [
  | inl a ↦ inl a
  | inr a ↦ elim (Bool-cases (matches cisco_format mac)) [
    | inl b ↦ inr b
    | inr b ↦ absurd (ground arith)
  ]
])

or_true : (b : Bool) → (b || true) ≡ true
or_true true = refl
or_true false = refl

validate_mac-IsInFormat : (mac : String) → IsInFormat mac → validate_mac mac ≡ ok true
unfolding validate_mac
validate_mac-IsInFormat mac (inl a) = simp (size-matches pair_format mac a, a)
validate_mac-IsInFormat mac (inr b) = simp (size-matches cisco_format mac b, b, or_true)

-- A MAC address is accepted exactly when it is six pairs of hexadecimal digits with colons or
-- hyphens between them, or three groups of four of them with dots between the groups.
pub validate_mac-ok_iff : (mac : String) → (validate_mac mac ≡ ok true) ↔ IsMac mac
validate_mac-ok_iff mac =
    (IsMac-validate_mac mac, λ m. validate_mac-IsInFormat mac (IsMac-IsInFormat mac m))

-- A host name that the program accepts.
pub record IsHostname (name : String) : Type 0 where
  pub filled : is_empty_text name ≡ false
  pub short : size name ≤ 63
  pub no_hyphen_first : first_is "-" name ≡ false
  pub no_hyphen_last : last_is "-" name ≡ false
  pub no_number : all_of is_digit name ≡ false
  pub in_class : all_of in_hostname name ≡ true

module _ {Address : Type 0} (name : String) (connection : Connection Address) where
  IsHostname-set_hostname :
      set_hostname name connection ≡ ok (record connection { hostname = name }) → IsHostname name
  unfolding set_hostname
  IsHostname-set_hostname h = record {
    filled = ground arith;
    short = ground arith;
    no_hyphen_first = ground arith;
    no_hyphen_last = ground arith;
    no_number = ground arith;
    in_class = ground arith;
  }

  set_hostname-IsHostname :
      IsHostname name → set_hostname name connection ≡ ok (record connection { hostname = name })
  unfolding set_hostname
  set_hostname-IsHostname s =
      ground
        (arith, s.filled, s.short, s.no_hyphen_first, s.no_hyphen_last, s.no_number, s.in_class)

  -- `set_hostname` accepts a name exactly when it is a host name: nonempty, of at most 63 letters,
  -- digits and hyphens, with no hyphen at its ends, and not a number.
  pub set_hostname-ok_iff :
      (set_hostname name connection ≡ ok (record connection { hostname = name })) ↔ IsHostname name
  set_hostname-ok_iff = (IsHostname-set_hostname, set_hostname-IsHostname)
