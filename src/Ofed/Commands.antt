-- ===== src/Ofed/Commands.antt =====
-- The commands that src/ofed.cpp builds.
use opencattus.Base.{
  String, Bool, true, false, ◌||◌, Option, none, some, if◌then◌else◌, str_eq, Result, ok, err,
  ◌>>=◌, undefined_behavior, or_throw, bad_variant_access,
}
use opencattus.Base.Text.{◌<>◌}
use opencattus.Enums.{Distro, rocky, Platform, el8, el9, el10, ubuntu2404}
use opencattus.Os.{Os, Arch, x86_64, ppc64le, PackageType, rpm, deb, get_package_type, get_distro}
use opencattus.Os.Version.{get_version}
use opencattus.Cluster.Support.{get_platform}

-- `buildDocaLegacyPrereqCommand`
unfoldable pub build_legacy_prereq_command : Option String → String
build_legacy_prereq_command (some kernel) =
    "dnf -y --nogpg install kernel-" <> kernel <> " kernel-devel-" <> kernel <> " kernel-headers-"
    <> kernel <> " doca-extra tar"
build_legacy_prereq_command none =
    "bash -lc \"dnf -y --nogpg install kernel-$(uname -r) kernel-devel-$(uname -r) kernel-headers-$(uname -r) doca-extra tar\""

-- `buildDocaDkmsPrereqCommand`
unfoldable pub build_dkms_prereq_command : Option String → String
build_dkms_prereq_command (some kernel) =
    "dnf -y --nogpg install dkms gcc make perl mokutil kernel-devel-" <> kernel
    <> " kernel-headers-" <> kernel
build_dkms_prereq_command none =
    "dnf -y --nogpg install dkms gcc make perl mokutil kernel-devel-$(uname -r) kernel-headers-$(uname -r)"

-- `buildDocaHostInstallCommand`
unfoldable pub build_host_install_command : String
build_host_install_command =
    "dnf install --nogpg -y --exclude=kernel --exclude=kernel-core --exclude=kernel-modules --exclude=kernel-modules-core --exclude=kernel-devel\\* --exclude=kernel-headers\\* doca-ofed mlnx-fw-updater"

abbrev pub inbox_installed_text : PackageType → String
inbox_installed_text rpm = "dnf group info \"Infiniband Support\""
inbox_installed_text deb = "dpkg-query -W rdma-core ibverbs-providers infiniband-diags"

-- `buildInboxOFEDInstalledCommand`
unfoldable pub build_inbox_installed_command : Os → Result String
build_inbox_installed_command os = do
  package_type ← get_package_type os
  ok (inbox_installed_text package_type)

abbrev pub inbox_install_text : PackageType → String
inbox_install_text rpm = "Infiniband Support"
inbox_install_text deb =
    "DEBIAN_FRONTEND=noninteractive apt install -y rdma-core ibverbs-providers infiniband-diags perftest"

-- `buildInboxOFEDInstallCommand`
unfoldable pub build_inbox_install_command : Os → Result String
build_inbox_install_command os = do
  package_type ← get_package_type os
  ok (inbox_install_text package_type)

abbrev pub later_component : String → String
later_component name =
    if str_eq name "kernel-devel" || str_eq name "kernel-headers" then "AppStream" else "BaseOS"

-- `rockyKernelPackageRepositoryComponent`, for a platform.
abbrev pub component_on : Platform → String → Result String
component_on el8 name = ok "BaseOS"
component_on el9 name = ok (later_component name)
component_on el10 name = ok (later_component name)
component_on ubuntu2404 name = err undefined_behavior

unfoldable pub rocky_repository_component : Os → String → Result String
rocky_repository_component os name = do platform ← get_platform os; component_on platform name

abbrev pub arch_name : Arch → String
arch_name x86_64 = "x86_64"
arch_name ppc64le = "ppc64le"

abbrev pub is_rocky : Distro → Bool
is_rocky rocky = true
is_rocky _ = false

abbrev pub rocky_url : String → String → String → String → String → String
rocky_url version component arch name kernel =
    "https://download.rockylinux.org/pub/rocky/" <> version <> "/" <> component <> "/" <> arch
    <> "/os/Packages/k/" <> name <> "-" <> kernel <> ".rpm"

-- The address on Rocky Linux.
abbrev pub rocky_package_url : Os → String → String → Result (Option String)
rocky_package_url os name kernel = do
  version ← get_version os
  component ← rocky_repository_component os name
  arch ← or_throw os.arch bad_variant_access
  ok (some (rocky_url version component (arch_name arch) name kernel))

-- `buildRockyKernelPackageUrl`
unfoldable pub build_rocky_package_url : Os → String → String → Result (Option String)
build_rocky_package_url os name kernel = do
  distro ← get_distro os
  if is_rocky distro then rocky_package_url os name kernel else ok none

-- The command of the addresses, where all are there.
abbrev pub legacy_with : Option String → Option String → Option String → Option String
legacy_with (some kernel) (some devel) (some headers) =
    some ("dnf -y --nogpg install doca-extra tar " <> kernel <> " " <> devel <> " " <> headers)
legacy_with _ _ _ = none

abbrev pub dkms_with : Option String → Option String → Option String
dkms_with (some devel) (some headers) =
    some ("dnf -y --nogpg install dkms gcc make perl mokutil " <> devel <> " " <> headers)
dkms_with _ _ = none

-- `buildRockyLegacyPrereqFallbackCommand`
unfoldable pub build_legacy_fallback_command : Os → String → Result (Option String)
unfolding build_rocky_package_url
build_legacy_fallback_command os kernel_version = do
  kernel ← build_rocky_package_url os "kernel" kernel_version
  devel ← build_rocky_package_url os "kernel-devel" kernel_version
  headers ← build_rocky_package_url os "kernel-headers" kernel_version
  ok (legacy_with kernel devel headers)

-- `buildRockyDkmsPrereqFallbackCommand`
unfoldable pub build_dkms_fallback_command : Os → String → Result (Option String)
unfolding build_rocky_package_url
build_dkms_fallback_command os kernel_version = do
  devel ← build_rocky_package_url os "kernel-devel" kernel_version
  headers ← build_rocky_package_url os "kernel-headers" kernel_version
  ok (dkms_with devel headers)
