-- ===== src/Os.antt =====
-- The operating system of a machine: include/opencattus/models/os.h and src/models/os.cpp.
pub mod Version
pub mod Probe
pub mod Lines
pub mod Release
pub mod Versioned
pub mod Host
pub mod RoundTrip
pub mod Spelling
pub mod Named
use opencattus.Base.{
  ℕ, String, Bool, true, false, ◌||◌, not, Option, none, some, if◌then◌else◌, ◌==◌, str_eq, Result,
  ok, err, ◌>>=◌, or_throw, runtime_error, bad_variant_access, says, about,
}
use opencattus.Base.Text.{◌<>◌, lower}
use opencattus.Enums.{
  Distro, rhel, ol, rocky, alma_linux, ubuntu, distros, Platform, el8, el9, el10, ubuntu2404,
  platforms, Family, families, of_string_opt, of_string_exact,
}
use opencattus.Deps.{Deps}

-- OS::Arch
pub data Arch : Type 0 where
  x86_64 ppc64le : Arch

-- OS::PackageType
pub data PackageType : Type 0 where
  rpm deb : PackageType

-- The members of class OS; a variant that holds std::monostate is `none`.
pub record Os : Type 0 where
  pub arch : Option Arch
  pub family : Option Family
  pub platform : Option Platform
  pub distro : Option Distro
  pub kernel : Option String
  pub major_version : ℕ
  pub minor_version : ℕ

-- What the constructors start from.
abbrev pub blank_os : Os
blank_os = record {
  arch = none;
  family = none;
  platform = none;
  distro = none;
  kernel = none;
  major_version = 0;
  minor_version = 0;
}

-- `OS::OS` for given members (ctr 2).
unfoldable pub new_os : Distro → Platform → ℕ → Arch → Family → Os
new_os distro platform minor_version arch family = record {
  arch = some arch;
  family = some family;
  platform = some platform;
  distro = some distro;
  kernel = none;
  major_version = major_of_platform platform;
  minor_version = minor_version;
}
  where
    major_of_platform : Platform → ℕ
    major_of_platform el10 = 10
    major_of_platform el9 = 9
    major_of_platform el8 = 8
    major_of_platform ubuntu2404 = 2404

-- `OS::setArch` for a text.
unfoldable pub set_arch : String → Os → Result Os
set_arch arch os =
    if str_eq arch "x86_64"
    then ok (record os { arch = some x86_64 })
    else err (runtime_error (about "Unsupported architecture" arch))

-- `OS::setKernel`
abbrev pub set_kernel : String → Os → Os
set_kernel kernel os = record os { kernel = some kernel }

-- `OS::getDistro`
abbrev pub get_distro : Os → Result Distro
get_distro os = or_throw os.distro bad_variant_access

-- `OS::getDistroString`, the name in front of the version.
abbrev pub distro_lower_name : Distro → String
distro_lower_name rhel = "rhel"
distro_lower_name alma_linux = "almalinux"
distro_lower_name rocky = "rocky"
distro_lower_name ol = "ol"
distro_lower_name ubuntu = "ubuntu"

abbrev pub package_type_of : Distro → PackageType
package_type_of rhel = rpm
package_type_of ol = rpm
package_type_of rocky = rpm
package_type_of alma_linux = rpm
package_type_of ubuntu = deb

-- `OS::getPackageType`
unfoldable pub get_package_type : Os → Result PackageType
get_package_type os = do distro ← get_distro os; ok (package_type_of distro)

-- `OS::setMajorVersion`
unfoldable pub set_major_version : ℕ → Os → Result Os
set_major_version major os =
    if major == 8
    then ok (record os { platform = some el8; major_version = 8 })
    else if major == 9
    then ok (record os { platform = some el9; major_version = 9 })
    else if major == 10
    then ok (record os { platform = some el10; major_version = 10 })
    else if major == 2404
    then ok (record os { platform = some ubuntu2404; major_version = 2404 })
    else err (runtime_error (says "Unsupported release"))

-- `OS::setMinorVersion`
abbrev pub set_minor_version : ℕ → Os → Os
set_minor_version minor os = record os { minor_version = minor }

-- The aliases that `OS::setDistro` replaces.
unfoldable pub normalized_distro : String → String
normalized_distro name =
    if str_eq name "alma"
    then "almalinux"
    else if str_eq name "ubuntu2404" || str_eq name "ubuntu24" || str_eq name "ubuntu24.04"
    then "ubuntu"
    else name

module _ (d : Deps) where
  -- `OS::setFamily` for a text.
  unfoldable pub set_family : String → Os → Result Os
  set_family family os = do
    value ←
        or_throw (of_string_exact d families family) (runtime_error (about "Unsupported OS" family))
    ok (record os { family = some value })

  -- `OS::setPlatform` for a text.
  unfoldable pub set_platform : String → Os → Result Os
  set_platform platform os = do
    value ←
        or_throw (of_string_opt d platforms platform)
          (runtime_error (about "Unsupported Platform" platform))
    ok (record os { platform = some value })

  -- `OS::setDistro` for a text.
  unfoldable pub set_distro : String → Os → Result Os
  unfolding normalized_distro
  set_distro distro os = do
    value ←
        or_throw (of_string_opt d distros (normalized_distro (lower distro)))
          (runtime_error (about "Unsupported Distribution" distro))
    ok (record os { distro = some value })
