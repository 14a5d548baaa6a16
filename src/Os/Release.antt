-- ===== src/Os/Release.antt =====
-- The release of an operating system: src/models/os.cpp keeps the platform and the major version
-- in step.
use opencattus.Base.{
  ℕ, ◌+◌, ◌*◌, ◌%◌, ◌^◌, ◌<◌, String, ◌≡◌, refl, sym, ap, ◌∙◌, Bool, true, false, not, some,
  if◌then◌else◌, ◌==◌, arith, ok, err, ◌>>=◌, >>=-eq-ok, Error, subst,
}
use opencattus.Base.Text.{has_char, before, behind}
use opencattus.Base.Stoul.{stoul}
use opencattus.Enums.{
  Distro, rhel, ol, rocky, alma_linux, ubuntu, Platform, el8, el9, el10, ubuntu2404,
}
use opencattus.Os.{Os, set_major_version, set_minor_version, get_distro}
use opencattus.Os.Version.{set_version, set_ubuntu_version, set_el_version, is_ubuntu, to_unsigned}

-- The major version that a platform stands for.
abbrev pub release : Platform → ℕ
release el8 = 8
release el9 = 9
release el10 = 10
release ubuntu2404 = 2404

-- The platform and the major version name the same release.
abbrev pub IsMatched : Os → Type 0
IsMatched os = (p : Platform) × (os.platform ≡ some p) × (os.major_version ≡ release p)

-- The second system is the first at a release: nothing else has changed.
pub record IsReleased (os os' : Os) : Type 0 where
  pub matched : IsMatched os'
  pub arch : os'.arch ≡ os.arch
  pub family : os'.family ≡ os.family
  pub distro : os'.distro ≡ os.distro
  pub kernel : os'.kernel ≡ os.kernel

to_unsigned-small : (s : String) {n : ℕ} → to_unsigned s ≡ ok n → n < 2 ^ 32
to_unsigned-small s {n} h =
    let (m, e, h1) = >>=-eq-ok (stoul s) _ h in
    let same : m % 2 ^ 32 ≡ n = cc in omega (arith, same)

module _ (os : Os) where
  -- The system moved to the release of a platform.
  abbrev moved : Platform → Os
  moved p = record os { platform = some p; major_version = release p }

  moved-matched :
      (p : Platform) → os.platform ≡ some p → os.major_version ≡ release p → ok (moved p) ≡ ok os
  moved-matched p e m =
      ap (λ x. ok (record os { platform = x; major_version = release p })) (sym e)
      ∙ ap (λ y. ok (record os { major_version = y })) (sym m)

  moved-IsReleased : (p : Platform) {os' : Os} → ok (moved p) ≡ ok os' → IsReleased os os'
  moved-IsReleased p {os'} h =
      let e : moved p ≡ os' = cc in
      subst (λ o. IsReleased os o) e
        (record {
          matched = (p, refl, refl);
          arch = refl;
          family = refl;
          distro = refl;
          kernel = refl;
        })

  chosen-IsReleased :
      (a b c e : Bool) (error : Error) {os' : Os}
      → (if a
          then ok (moved el8)
          else if b
          then ok (moved el9)
          else if c
          then ok (moved el10)
          else if e
          then ok (moved ubuntu2404)
          else err error)
        ≡ ok os'
      → IsReleased os os'
  chosen-IsReleased true b c e error h = moved-IsReleased el8 h
  chosen-IsReleased false true c e error h = moved-IsReleased el9 h
  chosen-IsReleased false false true e error h = moved-IsReleased el10 h
  chosen-IsReleased false false false true error h = moved-IsReleased ubuntu2404 h
  chosen-IsReleased false false false false error h = cc

  set_major_version-IsReleased :
      (n : ℕ) {os' : Os} → set_major_version n os ≡ ok os' → IsReleased os os'
  unfolding set_major_version
  set_major_version-IsReleased n h = chosen-IsReleased (n == 8) (n == 9) (n == 10) (n == 2404) _ h

  pub set_major_version-matched : IsMatched os → set_major_version os.major_version os ≡ ok os
  unfolding set_major_version
  set_major_version-matched (el8, e, m) = simp m (moved-matched el8 e m)
  set_major_version-matched (el9, e, m) = simp m (moved-matched el9 e m)
  set_major_version-matched (el10, e, m) = simp m (moved-matched el10 e m)
  set_major_version-matched (ubuntu2404, e, m) = simp m (moved-matched ubuntu2404 e m)

  with_minor :
      {released os' : Os} (minor : ℕ)
      → IsReleased os released
      → minor < 2 ^ 32
      → ok (set_minor_version minor released) ≡ ok os'
      → IsReleased os os' × (os'.minor_version < 2 ^ 32)
  with_minor {released} {os'} minor r small h =
      let e : set_minor_version minor released ≡ os' = cc in
      subst (λ o. IsReleased os o × (o.minor_version < 2 ^ 32)) e
        (
          record {
            matched = r.matched;
            arch = r.arch;
            family = r.family;
            distro = r.distro;
            kernel = r.kernel;
          },
          small,
        )

  set_el_version-IsReleased :
      (version : String) {os' : Os}
      → set_el_version version os ≡ ok os'
      → IsReleased os os' × (os'.minor_version < 2 ^ 32)
  unfolding set_el_version
  set_el_version-IsReleased version h =
      let (major, e, h1) = >>=-eq-ok (to_unsigned (before "." version)) _ h in
      let (released, r, h2) = >>=-eq-ok (set_major_version major os) _ h1 in
      let (minor, m, h3) = >>=-eq-ok (to_unsigned (behind "." version)) _ h2 in
      with_minor minor (set_major_version-IsReleased major r) (to_unsigned-small _ m) h3

  set_ubuntu_version-IsReleased :
      (version : String) {os' : Os}
      → set_ubuntu_version version os ≡ ok os'
      → IsReleased os os' × (os'.minor_version < 2 ^ 32)
  unfolding set_ubuntu_version
  set_ubuntu_version-IsReleased version {os'} h =
      let rest = behind "." version in
      let (year, e, h1) = >>=-eq-ok (to_unsigned (before "." version)) _ h in
      let (month, m, h2) = >>=-eq-ok (to_unsigned (before "." rest)) _ h1 in
      let (released, r, h3) =
        >>=-eq-ok (set_major_version ((year * 100 + month) % 2 ^ 32) os) _ h2 in
      let moved = set_major_version-IsReleased ((year * 100 + month) % 2 ^ 32) r in
      finished (has_char "." rest) rest released moved h3
    where
      finished :
          (more : Bool) (rest : String) (released : Os)
          → IsReleased os released
          → (if more
              then (to_unsigned (behind "." rest) >>= λ point.
                  ok (set_minor_version point released))
              else ok (set_minor_version 0 released))
            ≡ ok os'
          → IsReleased os os' × (os'.minor_version < 2 ^ 32)
      finished true rest released moved h3 =
          let (point, p, h4) = >>=-eq-ok (to_unsigned (behind "." rest)) _ h3 in
          with_minor point moved (to_unsigned-small _ p) h4
      finished false rest released moved h3 = with_minor 0 moved (omega arith) h3

  -- When `set_version` accepts a text, only the platform, the major version and the minor version
  -- may change, platform and major version then name the same release, and the minor version has
  -- 32 bits.
  pub set_version-IsReleased :
      (version : String) {os' : Os}
      → set_version version os ≡ ok os'
      → IsReleased os os' × (os'.minor_version < 2 ^ 32)
  unfolding set_version
  set_version-IsReleased version {os'} h = guarded (has_char "." version) _ h
    where
      chosen :
          (x : Distro)
          → (if is_ubuntu x then set_ubuntu_version version os else set_el_version version os)
            ≡ ok os'
          → IsReleased os os' × (os'.minor_version < 2 ^ 32)
      chosen ubuntu h = set_ubuntu_version-IsReleased version h
      chosen rhel h = set_el_version-IsReleased version h
      chosen ol h = set_el_version-IsReleased version h
      chosen rocky h = set_el_version-IsReleased version h
      chosen alma_linux h = set_el_version-IsReleased version h

      guarded :
          (dot : Bool) (error : Error)
          → (if not dot
              then err error
              else (get_distro os >>= λ x.
                  if is_ubuntu x then set_ubuntu_version version os else set_el_version version os))
            ≡ ok os'
          → IsReleased os os' × (os'.minor_version < 2 ^ 32)
      guarded true error h = let (x, e, h1) = >>=-eq-ok (get_distro os) _ h in chosen x h1
      guarded false error h = cc
