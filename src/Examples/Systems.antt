-- ===== src/Examples/Systems.antt =====
-- Operating systems at concrete values.
use opencattus.Base.{
  List, [], ◌∷◌, String, false, none, ◌^◌, ◌<◌, ◌≡◌, refl, inl, inr, none, some, ok, ◌>>=◌, arith,
}
use opencattus.Base.Text.{lower}
use opencattus.Base.Stoul.{stoul}
use opencattus.Deps.Assoc.{assoc}
use opencattus.Enums.{rocky, ubuntu, el9, el8, ubuntu2404, linux, alma_linux}
use opencattus.Os.{
  Os, x86_64, set_distro, get_package_type, set_major_version, set_arch, set_family, set_platform,
  normalized_distro, package_type_of,
}
use opencattus.Os.Version.{get_version, set_version, set_el_version}
use opencattus.Os.Lines.{last_value, read_lines-last_value}
use opencattus.Os.Probe.{
  value_from_os_release_line, platform_value, read_lines, HostOsProbe, host_os,
}
use opencattus.Os.Release.{IsReleased, set_version-IsReleased}
use opencattus.Os.RoundTrip.{set_version-get_version}
use opencattus.Os.Host.{IsHost, host_os-IsHost}
use opencattus.Os.Spelling.{set_distro-spellings}

abbrev noble : Os
noble = record {
  arch = some x86_64;
  family = some linux;
  platform = some ubuntu2404;
  distro = some ubuntu;
  kernel = none;
  major_version = 2404;
  minor_version = 2;
}

set_version-get_version_example :
    (get_version noble >>= λ version. set_version version noble) ≡ ok noble
set_version-get_version_example =
    set_version-get_version noble ubuntu refl (ubuntu2404, refl, refl) (omega arith)

abbrev rocky_85 : Os
rocky_85 = record noble {
  platform = some el8;
  distro = some rocky;
  major_version = 8;
  minor_version = 5;
}

abbrev rocky_93 : Os
rocky_93 = record rocky_85 { platform = some el9; major_version = 9; minor_version = 3 }

updated : set_version "9.3" rocky_85 ≡ ok rocky_93
unfolding set_version set_el_version set_major_version stoul
updated = refl

set_version-IsReleased_example : IsReleased rocky_85 rocky_93 × (3 < 2 ^ 32)
set_version-IsReleased_example = set_version-IsReleased rocky_85 "9.3" updated

abbrev probe : HostOsProbe
probe = record {
  architecture = "x86_64";
  family = "Linux";
  kernel = "5.14.0";
  platform = some "el9";
  distro = "rocky";
  version = "9.3";
}

abbrev host : Os
host = record rocky_93 { kernel = some "5.14.0" }

constructed : host_os assoc probe ≡ ok host
unfolding host_os set_arch set_family set_platform set_distro normalized_distro lower set_version
    set_el_version set_major_version stoul
constructed = refl

host_os-IsHost_example : IsHost assoc probe host
host_os-IsHost_example = host_os-IsHost assoc probe host constructed

alma_spelled : lower "ALMA" ≡ "alma"
unfolding lower
alma_spelled = refl

set_distro-spellings_example :
    (set_distro assoc "ALMA" rocky_85 ≡ ok (record rocky_85 { distro = some alma_linux }))
    × ((set_distro assoc "ALMA" rocky_85 >>= get_package_type) ≡ ok (package_type_of alma_linux))
set_distro-spellings_example =
    set_distro-spellings assoc "ALMA" rocky_85 alma_linux (inr (inl alma_spelled))

abbrev lines : List String
lines = "NAME=Rocky" ∷ "ID=\"rocky\"" ∷ "PLATFORM_ID=\"platform:el9\"" ∷ []

read_lines-last_value_example :
    ((read_lines false lines probe).distro
      ≡ last_value "ID=" value_from_os_release_line lines "rocky")
    × ((read_lines false lines probe).platform
        ≡ last_value "PLATFORM_ID="
            (λ line. some (platform_value (value_from_os_release_line line)))
            lines
            (some "el9"))
read_lines-last_value_example = read_lines-last_value lines probe

platform_test :
    last_value "PLATFORM_ID="
      (λ line. some (platform_value (value_from_os_release_line line)))
      lines
      none
    ≡ some "el9"
unfolding value_from_os_release_line
platform_test = refl
