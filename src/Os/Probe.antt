-- ===== src/Os/Probe.antt =====
-- The operating system that the program runs on: `probeHostOS` and the constructor without
-- arguments of src/models/os.cpp. The answers of uname, the lines of the os-release file and its
-- failures are arguments.
use opencattus.Base.{
  String, Bool, ◌&&◌, Option, none, some, List, [], ◌∷◌, if◌then◌else◌, str_eq, Result, ok, err,
  ◌>>=◌, runtime_error, about,
}
use opencattus.Base.Text.{is_empty, starts_with, drop_as_long, after_first, without}
use opencattus.Deps.{Deps}
use opencattus.Os.{Os, blank_os, set_arch, set_kernel, set_family, set_platform, set_distro}
use opencattus.Os.Version.{set_version}

-- HostOSProbe
pub record HostOsProbe : Type 0 where
  pub architecture : String
  pub family : String
  pub kernel : String
  pub platform : Option String
  pub distro : String
  pub version : String

-- `OS::getValueFromKey`
unfoldable pub get_value_from_key : String → String
get_value_from_key line = without "\"" (after_first "=" line)

-- `valueFromOsReleaseLine`
unfoldable pub value_from_os_release_line : String → String
value_from_os_release_line line = without "\"" (after_first "=" line)

-- The text behind "platform:", which may be missing.
abbrev pub platform_value : String → String
platform_value value =
    if starts_with "platform:" value then drop_as_long "platform:" value else value

abbrev pub read_platform : Bool → String → HostOsProbe → HostOsProbe
read_platform is_test line probe =
    if starts_with "PLATFORM_ID=" line
    then record probe {
      platform = some (if is_test then "el9" else platform_value (value_from_os_release_line line));
    }
    else probe

abbrev pub read_distro : Bool → String → HostOsProbe → HostOsProbe
read_distro is_test line probe =
    if starts_with "ID=" line
    then record probe { distro = if is_test then "rocky" else value_from_os_release_line line }
    else probe

abbrev pub read_version : Bool → String → HostOsProbe → HostOsProbe
read_version is_test line probe =
    if starts_with "VERSION_ID=" line
    then record probe { version = if is_test then "9.5" else value_from_os_release_line line }
    else if is_empty probe.version && starts_with "VERSION=" line
    then record probe { version = if is_test then "9.5" else value_from_os_release_line line }
    else probe

-- The loop over the lines of the file.
unfoldable pub read_lines : Bool → List String → HostOsProbe → HostOsProbe
read_lines is_test [] probe = probe
read_lines is_test (line ∷ lines) probe =
    read_lines is_test lines
      (read_version is_test line (read_distro is_test line (read_platform is_test line probe)))

-- `probeHostOS`: no lines where the file does not open; `bad` where reading fails.
unfoldable pub probe_host_os :
    String → String → String → Option (List String) → Bool → Bool → Result HostOsProbe
unfolding read_lines
probe_host_os machine sysname release lines bad is_test =
    if str_eq sysname "Linux" then read lines else ok probe
  where
    probe : HostOsProbe
    probe = record {
      architecture = machine;
      family = sysname;
      kernel = release;
      platform = none;
      distro = "";
      version = "";
    }

    read : Option (List String) → Result HostOsProbe
    read none = err (runtime_error (about "Error while opening file" "/etc/os-release"))
    read (some ls) =
        if bad
        then err (runtime_error (about "Error while reading file" "/etc/os-release"))
        else ok (read_lines is_test ls probe)

module _ (d : Deps) where
  -- `if (host.platform) setPlatform(*host.platform);`
  abbrev pub set_platform_opt : Option String → Os → Result Os
  set_platform_opt none os = ok os
  set_platform_opt (some platform) os = set_platform d platform os

  -- `OS::OS` without arguments (ctr 1), behind the probe.
  unfoldable pub host_os : HostOsProbe → Result Os
  host_os host = do
    with_arch ← set_arch host.architecture blank_os
    with_family ← set_family d host.family with_arch
    with_platform ← set_platform_opt host.platform (set_kernel host.kernel with_family)
    with_distro ← set_distro d host.distro with_platform
    set_version host.version with_distro
