-- ===== src/Os/Host.antt =====
-- The system that the constructor without arguments of src/models/os.cpp makes.
use opencattus.Base.{
  String, ◌≡◌, refl, subst, after, eq_iff, sym, ap, ◌∙◌, Bool, true, false, Option, none, some,
  if◌then◌else◌, str_eq, ok, err, ◌>>=◌, Error, or_throw,
}
use opencattus.Base.Text.{lower}
use opencattus.Deps.{Deps, lookup_lower, lookup_exact}
use opencattus.Enums.{
  Distro, Family, Platform, distros, families, platforms, of_string_opt, of_string_exact,
}
use opencattus.Os.{
  Os, x86_64, blank_os, set_arch, set_family, set_platform, set_distro, set_kernel,
  normalized_distro,
}
use opencattus.Os.Version.{get_version, set_version}
use opencattus.Os.Probe.{HostOsProbe, host_os, set_platform_opt}
use opencattus.Os.Release.{IsMatched, set_version-IsReleased}
use opencattus.Os.Versioned.{IsVersionOf, set_version-IsVersionOf}
use opencattus.Os.Named.{lower-lower, looked_up-IsOneOf}
use opencattus.Os.Spelling.{spellings, IsOneOf}
use opencattus.Os.RoundTrip.{set_version-get_version}

set_arch-eq-ok :
    (name : String) (os : Os) {os' : Os}
    → set_arch name os ≡ ok os'
    → (name ≡ "x86_64") × (os' ≡ record os { arch = some x86_64 })
unfolding set_arch
set_arch-eq-ok name os {os'} h = chosen (str_eq name "x86_64") _ (eq_iff name "x86_64").0 h
  where
    chosen :
        (b : Bool) (error : Error)
        → (b ≡ true → name ≡ "x86_64")
        → (if b then ok (record os { arch = some x86_64 }) else err error) ≡ ok os'
        → (name ≡ "x86_64") × (os' ≡ record os { arch = some x86_64 })
    chosen true error f h = (f refl, cc)
    chosen false error f h = cc

found : {A : Type 0} (o : Option A) (e : Error) {a : A} → or_throw o e ≡ ok a → o ≡ some a
found none e h = cc
found (some a) e h = cc

-- The text is an enumerator, in letters of any case, where there is one.
abbrev pub IsPlatformName : Option String → Type 0
IsPlatformName none = Unit {0}
IsPlatformName (some name) = (p : Platform) × (lookup_lower name platforms ≡ some p)

module _ (d : Deps) where
  set_family-eq-ok :
      (name : String) (os : Os) {os' : Os}
      → set_family d name os ≡ ok os'
      → (f : Family) × (lookup_exact name families ≡ some f) × (os' ≡ record os { family = some f })
  unfolding set_family
  set_family-eq-ok name os {os'} h =
      after (or_throw (of_string_exact d families name) _) _ h
        λ f e h1. (f, sym (d.enum_cast_exact-eq-lookup_exact families name) ∙ found _ _ e, cc)

  set_platform_opt-eq-ok :
      (name : Option String) (os : Os) {os' : Os}
      → set_platform_opt d name os ≡ ok os'
      → IsPlatformName name × (os' ≡ record os { platform = os'.platform })
  unfolding set_platform
  set_platform_opt-eq-ok none os {os'} h =
      let e : os ≡ os' = cc in (tt, subst (λ x. x ≡ record os { platform = x.platform }) e refl)
  set_platform_opt-eq-ok (some name) os {os'} h =
      after (or_throw (of_string_opt d platforms name) _) _ h λ p e h1.
        let same : record os { platform = some p } ≡ os' = cc in
        (
          (p, sym (d.enum_cast-eq-lookup_lower platforms name) ∙ found _ _ e),
          subst (λ x. x ≡ record os { platform = x.platform }) same refl,
        )

  set_distro-eq-ok :
      (name : String) (os : Os) {os' : Os}
      → set_distro d name os ≡ ok os'
      → (x : Distro) × IsOneOf (lower name) (spellings x) × (os' ≡ record os { distro = some x })
  unfolding set_distro
  set_distro-eq-ok name os {os'} h =
      after (or_throw (of_string_opt d distros (normalized_distro (lower name))) _) _ h λ x e h1. (
        x,
        looked_up-IsOneOf (lower name) x (lower-lower name) (
            sym (d.enum_cast-eq-lookup_lower distros (normalized_distro (lower name)))
            ∙ found _ _ e),
        cc,
      )

  -- A system that is constructed from the running one.
  pub record IsHost (host : HostOsProbe) (os : Os) : Type 0 where
    pub architecture : host.architecture ≡ "x86_64"
    pub arch : os.arch ≡ some x86_64
    pub family : (f : Family) × (lookup_exact host.family families ≡ some f) × (os.family ≡ some f)
    pub kernel : os.kernel ≡ some host.kernel
    pub platform : IsPlatformName host.platform
    pub distro : Distro
    pub spelled : IsOneOf (lower host.distro) (spellings distro)
    pub distro_set : os.distro ≡ some distro
    pub version_read : IsVersionOf distro host.version os
    pub matched : IsMatched os
    pub version_again : (get_version os >>= λ version. set_version version os) ≡ ok os

  -- Whenever the constructor returns a system for a probe, the architecture of the probe is x86_64
  -- and so is that of the system; the family is the one with the name that was probed; the kernel
  -- is the one that was probed; a platform that was probed is the name of one; the distribution is
  -- one that the probed name spells; the major and the minor version are the numbers in the probed
  -- version text, in the form of that distribution; platform and major version name one release;
  -- and setting the version that the system tells gives the same system again.
  pub host_os-IsHost : (host : HostOsProbe) (os : Os) → host_os d host ≡ ok os → IsHost host os
  unfolding host_os
  host_os-IsHost host os h = after (set_arch host.architecture blank_os) _ h λ o1 e1 h1.
      after (set_family d host.family o1) _ h1 λ o2 e2 h2.
        after (set_platform_opt d host.platform (set_kernel host.kernel o2)) _ h2 λ o3 e3 h3.
          after (set_distro d host.distro o3) _ h3 λ o4 e4 h4.
            let (name, s1) = set_arch-eq-ok host.architecture blank_os e1 in
            let (f, named, s2) = set_family-eq-ok host.family o1 e2 in
            let (platform, s3) = set_platform_opt-eq-ok host.platform _ e3 in
            let (x, spelled, s4) = set_distro-eq-ok host.distro o3 e4 in
            let (r, small) = set_version-IsReleased o4 host.version h4 in
            let distro = ap (λ o. o.distro) s4 in
            record {
              architecture = name;
              arch =
                  r.arch
                  ∙ ap (λ o. o.arch) s4
                  ∙ ap (λ o. o.arch) s3
                  ∙ ap (λ o. o.arch) s2
                  ∙ ap (λ o. o.arch) s1;
              family = (
                f,
                named,
                r.family ∙ ap (λ o. o.family) s4 ∙ ap (λ o. o.family) s3 ∙ ap (λ o. o.family) s2,
              );
              kernel = r.kernel ∙ ap (λ o. o.kernel) s4 ∙ ap (λ o. o.kernel) s3;
              platform = platform;
              distro = x;
              spelled = spelled;
              distro_set = r.distro ∙ distro;
              version_read = set_version-IsVersionOf o4 host.version x distro h4;
              matched = r.matched;
              version_again = set_version-get_version os x (r.distro ∙ distro) r.matched small;
            }
