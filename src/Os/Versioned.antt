-- ===== src/Os/Versioned.antt =====
-- The version that `OS::setVersion` of src/models/os.cpp reads from a text.
use opencattus.Base.{
  ℕ, ◌+◌, ◌*◌, ◌%◌, ◌^◌, String, ◌≡◌, refl, sym, ap, ◌∙◌, Bool, true, false, not, some,
  if◌then◌else◌, arith, ok, err, ◌>>=◌, >>=-eq-ok, Error, subst,
}
use opencattus.Base.Text.{has_char, before, behind}
use opencattus.Enums.{Distro, rhel, ol, rocky, alma_linux, ubuntu}
use opencattus.Os.{Os, set_major_version, set_minor_version, get_distro}
use opencattus.Os.Version.{set_version, set_ubuntu_version, set_el_version, is_ubuntu, to_unsigned}

-- A system of an enterprise Linux has the numbers in front of the first dot and behind it.
pub record IsElVersion (text : String) (os : Os) : Type 0 where
  pub major : to_unsigned (before "." text) ≡ ok os.major_version
  pub minor : to_unsigned (behind "." text) ≡ ok os.minor_version

-- A system of Ubuntu has the year and the month in its major version, and the point release, or
-- zero where the text has none, in its minor version.
pub record IsUbuntuVersion (text : String) (os : Os) : Type 0 where
  pub year : ℕ
  pub year_read : to_unsigned (before "." text) ≡ ok year
  pub month : ℕ
  pub month_read : to_unsigned (before "." (behind "." text)) ≡ ok month
  pub major : os.major_version ≡ (year * 100 + month) % 2 ^ 32
  pub point :
      has_char "." (behind "." text) ≡ true
      → to_unsigned (behind "." (behind "." text)) ≡ ok os.minor_version
  pub no_point : has_char "." (behind "." text) ≡ false → os.minor_version ≡ 0

-- The system has the version that a text with a dot names for its distribution.
abbrev pub IsVersionOf : Distro → String → Os → Type 0
IsVersionOf ubuntu text os = (has_char "." text ≡ true) × IsUbuntuVersion text os
IsVersionOf rhel text os = (has_char "." text ≡ true) × IsElVersion text os
IsVersionOf ol text os = (has_char "." text ≡ true) × IsElVersion text os
IsVersionOf rocky text os = (has_char "." text ≡ true) × IsElVersion text os
IsVersionOf alma_linux text os = (has_char "." text ≡ true) × IsElVersion text os

ok-same : {A : Type 0} {a b : A} → ok a ≡ ok b → a ≡ b
ok-same h = cc

module _ (os : Os) where
  set_major_version-major :
      (n : ℕ) {os' : Os} → set_major_version n os ≡ ok os' → os'.major_version ≡ n
  unfolding set_major_version
  set_major_version-major n {os'} h = ground arith

  el_version : (text : String) {os' : Os} → set_el_version text os ≡ ok os' → IsElVersion text os'
  unfolding set_el_version
  el_version text h =
      let (major, e, h1) = >>=-eq-ok (to_unsigned (before "." text)) _ h in
      let (released, r, h2) = >>=-eq-ok (set_major_version major os) _ h1 in
      let (minor, m, h3) = >>=-eq-ok (to_unsigned (behind "." text)) _ h2 in
      let last = ok-same h3 in
      record {
        major =
            e
            ∙ ap ok (sym (sym (ap (λ o. o.major_version) last) ∙ set_major_version-major major r));
        minor = m ∙ ap ok (ap (λ o. o.minor_version) last);
      }

  ubuntu_version :
      (text : String) {os' : Os} → set_ubuntu_version text os ≡ ok os' → IsUbuntuVersion text os'
  unfolding set_ubuntu_version
  ubuntu_version text {os'} h =
      let (year, e, h1) = >>=-eq-ok (to_unsigned (before "." text)) _ h in
      let (month, m, h2) = >>=-eq-ok (to_unsigned (before "." (behind "." text))) _ h1 in
      let (released, r, h3) =
        >>=-eq-ok (set_major_version ((year * 100 + month) % 2 ^ 32) os) _ h2 in
      let (major, point, none) = finished released _ refl h3 in
      record {
        year = year;
        year_read = e;
        month = month;
        month_read = m;
        major = major ∙ set_major_version-major _ r;
        point = point;
        no_point = none;
      }
    where
      finished :
          (released : Os) (more : Bool)
          → has_char "." (behind "." text) ≡ more
          → (if more
              then (to_unsigned (behind "." (behind "." text)) >>= λ point.
                  ok (set_minor_version point released))
              else ok (set_minor_version 0 released))
            ≡ ok os'
          → (os'.major_version ≡ released.major_version)
            × (has_char "." (behind "." text) ≡ true
                → to_unsigned (behind "." (behind "." text)) ≡ ok os'.minor_version)
            × (has_char "." (behind "." text) ≡ false → os'.minor_version ≡ 0)
      finished released true b h =
          let (point, p, h1) = >>=-eq-ok (to_unsigned (behind "." (behind "." text))) _ h in
          let last = ok-same h1 in
          (
            sym (ap (λ o. o.major_version) last),
            λ _. p ∙ ap ok (ap (λ o. o.minor_version) last),
            λ c. cc,
          )
      finished released false b h =
          let last = ok-same h in
          (sym (ap (λ o. o.major_version) last), λ c. cc, λ _. sym (ap (λ o. o.minor_version) last))

  -- The version of a system is the one that the accepted text names.
  pub set_version-IsVersionOf :
      (text : String) (x : Distro) {os' : Os}
      → os.distro ≡ some x
      → set_version text os ≡ ok os'
      → IsVersionOf x text os'
  unfolding set_version
  set_version-IsVersionOf text x {os'} distro h = guarded (has_char "." text) refl _ h
    where
      chosen :
          (y : Distro)
          → has_char "." text ≡ true
          → (if is_ubuntu y then set_ubuntu_version text os else set_el_version text os) ≡ ok os'
          → IsVersionOf y text os'
      chosen ubuntu b h = (b, ubuntu_version text h)
      chosen rhel b h = (b, el_version text h)
      chosen ol b h = (b, el_version text h)
      chosen rocky b h = (b, el_version text h)
      chosen alma_linux b h = (b, el_version text h)

      guarded :
          (dot : Bool)
          → has_char "." text ≡ dot
          → (error : Error)
          → (if not dot
              then err error
              else (get_distro os >>= λ y.
                  if is_ubuntu y then set_ubuntu_version text os else set_el_version text os))
            ≡ ok os'
          → IsVersionOf x text os'
      guarded true b error h =
          let (y, e, h1) = >>=-eq-ok (get_distro os) _ h in
          let known : ok x ≡ ok y = rw distro at e in
          subst (λ z. IsVersionOf z text os') (sym (ok-same known)) (chosen y b h1)
      guarded false b error h = cc
