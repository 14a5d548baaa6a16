-- ===== src/Os/RoundTrip.antt =====
-- `setVersion` of src/models/os.cpp reads what `getVersion` writes.
use opencattus.Base.{
  ℕ, ◌+◌, ◌*◌, ◌/◌, ◌%◌, ◌^◌, ◌<◌, String, ◌≡◌, refl, sym, ap, ◌∙◌, true, false, some,
  if◌then◌else◌, ltb, Bool-cases, inl, inr, arith, ok, ◌>>=◌,
}
use opencattus.Base.Text.{◌<>◌, is_empty, all_of, is_digit, has_char, before, behind}
use opencattus.Base.Decimal.{
  to_string, decimal, digits-to_string, decimal-to_string, to_string-ne-empty,
}
use opencattus.Base.Stoul.{stoul-digits}
use opencattus.Enums.{Distro, rhel, ol, rocky, alma_linux, ubuntu, el8, el9, el10, ubuntu2404}
use opencattus.Os.{Os, set_major_version}
use opencattus.Os.Version.{
  get_version, set_version, set_ubuntu_version, set_el_version, is_ubuntu, two_digits, to_unsigned,
}
use text.Mathlib.TextLemmas.{cons-append, nil-append, append_assoc}
use opencattus.Os.Release.{release, IsMatched, set_major_version-matched}

-- Cutting at a dot that stands behind a text without dots.
module _ (b : String) where
  before-dot : (a : String) → has_char "." a ≡ false → before "." (a <> "." <> b) ≡ a
  before-dot String.[] h = rw (nil-append, cons-append)
  before-dot (String.◌∷◌ c a) h = rw (cons-append, cons-append) (ground (arith, before-dot a))

  behind-dot : (a : String) → has_char "." a ≡ false → behind "." (a <> "." <> b) ≡ b
  behind-dot String.[] h = rw (nil-append, cons-append, nil-append)
  behind-dot (String.◌∷◌ c a) h = rw (cons-append, cons-append) (ground (arith, behind-dot a))

  has-dot : (a : String) → has_char "." (a <> "." <> b) ≡ true
  has-dot String.[] = rw (nil-append, cons-append)
  has-dot (String.◌∷◌ c a) = rw (cons-append, cons-append) (ground (arith, has-dot a))

no-dot : (a : String) → all_of is_digit a ≡ true → has_char "." a ≡ false
no-dot String.[] h = refl
no-dot (String.◌∷◌ c a) h = ground (arith, no-dot a)

before-none : (a : String) → has_char "." a ≡ false → before "." a ≡ a
before-none String.[] h = refl
before-none (String.◌∷◌ c a) h = ground (arith, before-none a)

-- A text of digits and its value.
abbrev IsNumeral : String → ℕ → Type 0
IsNumeral s n = (is_empty s ≡ false) × (all_of is_digit s ≡ true) × (decimal 0 s ≡ n)

to_string-IsNumeral : (n : ℕ) → IsNumeral (to_string n) n
to_string-IsNumeral n = (to_string-ne-empty n, digits-to_string n, decimal-to_string n)

zero-IsNumeral : (s : String) (n : ℕ) → IsNumeral s n → IsNumeral ("0" <> s) n
zero-IsNumeral s n (e, digits, v) = rw (cons-append, nil-append) (refl, digits, v)

two_digits-IsNumeral : (n : ℕ) → IsNumeral (two_digits n) n
two_digits-IsNumeral n = elim (Bool-cases (ltb n 10)) [
  | inl small ↦ rw small (zero-IsNumeral (to_string n) n (to_string-IsNumeral n))
  | inr big ↦ rw big (to_string-IsNumeral n)
]

unsigned_small : (n : ℕ) → n < 2 ^ 32 → n % 2 ^ 32 ≡ n
unsigned_small n h = omega arith

to_unsigned-IsNumeral : (s : String) (n : ℕ) → IsNumeral s n → n < 2 ^ 32 → to_unsigned s ≡ ok n
to_unsigned-IsNumeral s n (e, digits, v) h =
    rw (stoul-digits s e digits (rw v (omega arith)), v) (rw (unsigned_small n h))

module _ (os : Os) (matched : IsMatched os) (small : os.minor_version < 2 ^ 32) where
  major_small : os.major_version < 2 ^ 32
  major_small =
      elim matched.0 as (λ p. os.major_version ≡ release p → os.major_version < 2 ^ 32) [
        | el8 ↦ λ m. omega (arith, m)
        | el9 ↦ λ m. omega (arith, m)
        | el10 ↦ λ m. omega (arith, m)
        | ubuntu2404 ↦ λ m. omega (arith, m)
      ]
        matched.2

  el_read :
      (a b : String)
      → IsNumeral a os.major_version
      → IsNumeral b os.minor_version
      → set_el_version (a <> "." <> b) os ≡ ok os
  unfolding set_el_version
  el_read a b major minor = simp (
    before-dot b a (no-dot a major.1),
    behind-dot b a (no-dot a major.1),
    to_unsigned-IsNumeral a os.major_version major major_small,
    to_unsigned-IsNumeral b os.minor_version minor small,
    set_major_version-matched os matched,
  )

  -- The texts of the year, the month and the point release.
  module _ (y m : String) (year : IsNumeral y (os.major_version / 100))
      (month : IsNumeral m (os.major_version % 100)) where
    year_read : to_unsigned y ≡ ok (os.major_version / 100)
    year_read = to_unsigned-IsNumeral y (os.major_version / 100) year (omega (arith, major_small))

    month_read : to_unsigned m ≡ ok (os.major_version % 100)
    month_read = to_unsigned-IsNumeral m (os.major_version % 100) month (omega arith)

    release_read :
        set_major_version ((os.major_version / 100 * 100 + os.major_version % 100) % 2 ^ 32) os
        ≡ ok os
    release_read =
        let e : (os.major_version / 100 * 100 + os.major_version % 100) % 2 ^ 32
            ≡ os.major_version =
          omega (arith, major_small) in
        simp (e, set_major_version-matched os matched)

    ubuntu_base_read : os.minor_version ≡ 0 → set_ubuntu_version (y <> "." <> m) os ≡ ok os
    unfolding set_ubuntu_version
    ubuntu_base_read none_there =
        simp
          (
            before-dot m y (no-dot y year.1),
            behind-dot m y (no-dot y year.1),
            before-none m (no-dot m month.1),
            no-dot m month.1,
            year_read,
            month_read,
            release_read,
          )
          (ap (λ x. ok (record os { minor_version = x })) (sym none_there))

    ubuntu_point_read :
        (t : String)
        → IsNumeral t os.minor_version
        → set_ubuntu_version (y <> "." <> m <> "." <> t) os ≡ ok os
    unfolding set_ubuntu_version
    ubuntu_point_read t point =
        let whole : y <> "." <> m <> "." <> t ≡ y <> "." <> (m <> "." <> t) =
          ap (λ u. u <> t) (append_assoc (y <> ".") m ".") ∙ append_assoc (y <> ".") (m <> ".") t in
        simp (
          whole,
          before-dot (m <> "." <> t) y (no-dot y year.1),
          behind-dot (m <> "." <> t) y (no-dot y year.1),
          before-dot t m (no-dot m month.1),
          behind-dot t m (no-dot m month.1),
          has-dot t m,
          year_read,
          month_read,
          release_read,
          to_unsigned-IsNumeral t os.minor_version point small,
        )

  set_version-dotted :
      (version : String) (x : Distro)
      → os.distro ≡ some x
      → has_char "." version ≡ true
      → set_version version os
        ≡ (if is_ubuntu x then set_ubuntu_version version os else set_el_version version os)
  unfolding set_version
  set_version-dotted version x e dot = simp (e, dot)

  el_shown :
      (x : Distro)
      → os.distro ≡ some x
      → is_ubuntu x ≡ false
      → (get_version os >>= λ version. set_version version os) ≡ ok os
  unfolding get_version
  el_shown x e el =
      let major = to_string os.major_version in
      let minor = to_string os.minor_version in
      simp (
        e,
        el,
        set_version-dotted (major <> "." <> minor) x e (has-dot minor major),
        el_read major minor (to_string-IsNumeral os.major_version)
            (to_string-IsNumeral os.minor_version),
      )

  ubuntu_shown :
      os.distro ≡ some ubuntu → (get_version os >>= λ version. set_version version os) ≡ ok os
  unfolding get_version
  ubuntu_shown e =
      let y = to_string (os.major_version / 100) in
      let m = two_digits (os.major_version % 100) in
      let t = to_string os.minor_version in
      let year = to_string-IsNumeral (os.major_version / 100) in
      let month = two_digits-IsNumeral (os.major_version % 100) in
      elim (Bool-cases (ltb 0 os.minor_version)) [
        | inl more ↦ simp (
          e,
          more,
          set_version-dotted (y <> "." <> m <> "." <> t) ubuntu e (has-dot t (y <> "." <> m)),
          ubuntu_point_read y m year month t (to_string-IsNumeral os.minor_version),
        )
        | inr base ↦ simp (
          e,
          base,
          set_version-dotted (y <> "." <> m) ubuntu e (has-dot m y),
          ubuntu_base_read y m year month (ground arith),
        )
      ]

  shown_read :
      (x : Distro)
      → os.distro ≡ some x
      → (get_version os >>= λ version. set_version version os) ≡ ok os
  shown_read ubuntu e = ubuntu_shown e
  shown_read rhel e = el_shown rhel e refl
  shown_read ol e = el_shown ol e refl
  shown_read rocky e = el_shown rocky e refl
  shown_read alma_linux e = el_shown alma_linux e refl

-- A system whose platform and major version name the same release, which has a distribution and a
-- minor version of 32 bits, is unchanged when it is given the version text that it shows.
pub set_version-get_version :
    (os : Os) (x : Distro)
    → os.distro ≡ some x
    → IsMatched os
    → os.minor_version < 2 ^ 32
    → (get_version os >>= λ version. set_version version os) ≡ ok os
set_version-get_version os x e matched small = shown_read os matched small x e
