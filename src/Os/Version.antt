-- ===== src/Os/Version.antt =====
-- The version text of an operating system: `OS::getVersion`, `OS::getDistroString` and
-- `OS::setVersion` of src/models/os.cpp. An `unsigned` has 32 bits, `unsigned long` 64.
use opencattus.Base.{
  ℕ, ◌+◌, ◌*◌, ◌/◌, ◌%◌, ◌^◌, String, Bool, true, false, not, if◌then◌else◌, ltb, Result, ok, err,
  ◌>>=◌, runtime_error, about,
}
use opencattus.Base.Text.{◌<>◌, before, behind, has_char}
use opencattus.Base.Decimal.{to_string}
use opencattus.Base.Stoul.{stoul}
use opencattus.Enums.{Distro, rhel, ol, rocky, alma_linux, ubuntu}
use opencattus.Os.{Os, get_distro, distro_lower_name, set_major_version, set_minor_version}

-- fmt's "{:02}"
abbrev pub two_digits : ℕ → String
two_digits n = if ltb n 10 then "0" <> to_string n else to_string n

abbrev pub is_ubuntu : Distro → Bool
is_ubuntu ubuntu = true
is_ubuntu rhel = false
is_ubuntu ol = false
is_ubuntu rocky = false
is_ubuntu alma_linux = false

abbrev ubuntu_base : ℕ → String
ubuntu_base major = to_string (major / 100) <> "." <> two_digits (major % 100)

-- `OS::getVersion`
unfoldable pub get_version : Os → Result String
get_version os = do
  distro ← get_distro os
  ok (
      if is_ubuntu distro
      then (if ltb 0 os.minor_version
          then ubuntu_base os.major_version <> "." <> to_string os.minor_version
          else ubuntu_base os.major_version)
      else to_string os.major_version <> "." <> to_string os.minor_version)

-- `OS::getDistroString`
unfoldable pub get_distro_string : Os → Result String
unfolding get_version
get_distro_string os = do
  distro ← get_distro os
  version ← get_version os
  ok (distro_lower_name distro <> "-" <> version)

-- `static_cast<unsigned>(std::stoul(...))`
abbrev pub to_unsigned : String → Result ℕ
to_unsigned s = do n ← stoul s; ok (n % 2 ^ 32)

-- `OS::setVersion` for Ubuntu: year, month, and perhaps a point release.
unfoldable pub set_ubuntu_version : String → Os → Result Os
set_ubuntu_version version os = do
  year ← to_unsigned (before "." version)
  month ← to_unsigned (before "." (behind "." version))
  released ← set_major_version ((year * 100 + month) % 2 ^ 32) os
  if has_char "." (behind "." version)
      then (do
        point ← to_unsigned (behind "." (behind "." version))
        ok (set_minor_version point released))
      else ok (set_minor_version 0 released)

unfoldable pub set_el_version : String → Os → Result Os
set_el_version version os = do
  major ← to_unsigned (before "." version)
  released ← set_major_version major os
  minor ← to_unsigned (behind "." version)
  ok (set_minor_version minor released)

-- `OS::setVersion`
unfoldable pub set_version : String → Os → Result Os
unfolding set_ubuntu_version set_el_version
set_version version os =
    if not (has_char "." version)
    then err (runtime_error (about "Unexpected value for system.version" version))
    else do
      distro ← get_distro os
      if is_ubuntu distro then set_ubuntu_version version os else set_el_version version os
