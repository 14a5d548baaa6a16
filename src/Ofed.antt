-- ===== src/Ofed.antt =====
-- The OFED installer: src/ofed.cpp. The options and the answers of the system are arguments; the
-- log lines are left out.
pub mod Commands
pub mod Newest
pub mod Latest
pub mod Kernels
pub mod Steps
pub mod Modes
pub mod Planned
use opencattus.Base.{
  ℕ, ◌+◌, ◌-◌, String, ◌≡◌, refl, Bool, true, false, ◌&&◌, ◌||◌, not, Option, none, some, List, [],
  ◌∷◌, if◌then◌else◌, leb, ◌==◌, str_eq, value_or, has_value, Result, ok, err, Error, runtime_error,
  logic_error, undefined_behavior, says,
}
use opencattus.Base.Text.{◌<>◌, lower, size, is_empty}
use opencattus.Base.Search.{find, rfind, contains, take, drop, ℤ, pos, less, signed_value}
use opencattus.Enums.{OfedKind, inbox, doca, oracle, Platform, el8, el9, el10, ubuntu2404}
use opencattus.Os.{Os, PackageType, rpm, deb, get_package_type}
use opencattus.Cluster.{Ofed}
use opencattus.Cluster.Support.{get_platform}
use opencattus.Runner.{
  Runner, Procedure, ◌>>=◌, ◌>>◌, pure, throw, lift, perform, check_output, execute_command, check,
  enable, group_install, shell,
}
use opencattus.Ofed.Commands.{
  build_inbox_installed_command, build_inbox_install_command, build_legacy_prereq_command,
  build_dkms_prereq_command, build_host_install_command, build_legacy_fallback_command,
  build_dkms_fallback_command,
}
use opencattus.Ofed.Kernels.{
  install_prereqs_with_fallback, prime_dkms_for_installed_kernel, find_latest_generated_repo_rpm,
}

-- DocaInstallMode
pub data DocaInstallMode : Type 0 where
  legacy_kernel_support repo_dkms : DocaInstallMode

-- `isDocaLtsStream`, over `normalizeOFEDVersion`.
unfoldable pub is_doca_lts_stream : String → Bool
is_doca_lts_stream version = contains "lts" (lower version)

-- Two numbers that are read, or none where a conversion throws.
abbrev pub both_read : Result ℤ → Result ℤ → Option (ℤ × ℤ)
both_read (ok major) (ok minor) = some (major, minor)
both_read (ok major) (err e) = none
both_read (err e) minor = none

-- The two numbers around the first dot.
abbrev pub around_dot : String → Option ℕ → Option (ℤ × ℤ)
around_dot token none = none
around_dot token (some dot) =
    both_read (signed_value 32 (take dot token)) (signed_value 32 (drop (dot + 1) token))

-- The text between "latest-" and the last "-lts", for their positions.
abbrev pub between_marks : String → Option ℕ → Option ℕ → Option (ℤ × ℤ)
between_marks version none suffix = none
between_marks version (some prefix) none = none
between_marks version (some prefix) (some suffix) =
    let token = take (suffix - (prefix + 7)) (drop (prefix + 7) version) in
    if leb suffix (prefix + 7) then none else around_dot token (find "." token)

-- `parseDocaLtsVersion`
unfoldable pub parse_doca_lts_version : String → Option (ℤ × ℤ)
parse_doca_lts_version version =
    let normalized = lower version in
    if contains "lts" normalized
    then between_marks normalized (find "latest-" normalized) (rfind "-lts" normalized)
    else none

-- `<` on std::pair.
abbrev pub pair_less : ℤ × ℤ → ℤ × ℤ → Bool
pair_less (a, b) (c, e) = less a c || (not (less c a) && less b e)

abbrev pub is_old_lts : Option (ℤ × ℤ) → Bool
is_old_lts none = true
is_old_lts (some parsed) = pair_less parsed (pos 3, pos 2)

-- `usesDocaLegacyKernelSupport`
unfoldable pub uses_doca_legacy_kernel_support : String → Bool
uses_doca_legacy_kernel_support version =
    is_doca_lts_stream version && is_old_lts (parse_doca_lts_version version)

-- A pinned kernel that is not the running one.
abbrev pub is_pinned_elsewhere : Option String → String → Bool
is_pinned_elsewhere none running = false
is_pinned_elsewhere (some requested) running = not (str_eq requested running)

abbrev pub mode_for : String → Option String → String → DocaInstallMode
mode_for version requested running =
    if is_pinned_elsewhere requested running || uses_doca_legacy_kernel_support version
    then legacy_kernel_support
    else repo_dkms

abbrev pub mode_on : Platform → DocaInstallMode → Result DocaInstallMode
mode_on ubuntu2404 mode = err undefined_behavior
mode_on el8 mode = ok mode
mode_on el9 mode = ok mode
mode_on el10 mode = ok mode

-- `selectDocaInstallMode`
unfoldable pub select_doca_install_mode :
    String → Os → Option String → String → Result DocaInstallMode
select_doca_install_mode version os requested running = select (get_platform os)
  where
    select : Result Platform → Result DocaInstallMode
    select (err e) = err e
    select (ok platform) = mode_on platform (mode_for version requested running)

-- What the installer reads: the options, the system, the kernel that the answerfile pins, and the
-- running kernel.
pub record OfedSite : Type 0 where
  pub dry_run : Bool
  pub forced : Bool
  pub skip_compile : Bool
  pub os : Os
  pub requested_kernel : Option String
  pub running_kernel : String

-- `if (!opts->shouldSkip("compile-doca-driver"))` on the legacy path.
abbrev pub compile_for : Option String → Procedure (Unit {0})
compile_for none = perform (check "/opt/mellanox/doca/tools/doca-kernel-support")
compile_for (some kernel) =
    perform (check ("/opt/mellanox/doca/tools/doca-kernel-support -k " <> kernel))

abbrev pub install_generated_repo : Procedure (Unit {0})
install_generated_repo = do
  rpm_path ← find_latest_generated_repo_rpm
  perform (check ("dnf install -y " <> rpm_path))

module _ (site : OfedSite) where
  abbrev pub doca_installed : PackageType → Procedure Bool
  doca_installed deb =
      throw (runtime_error (says "DOCA OFED is only implemented for Enterprise Linux head nodes"))
  doca_installed rpm = do code ← execute_command "rpm -q doca-ofed"; pure (code == 0)

  abbrev pub kind_installed : OfedKind → Procedure Bool
  kind_installed doca = do
    package_type ← lift (get_package_type site.os)
    doca_installed package_type
  kind_installed inbox = do
    command ← lift (build_inbox_installed_command site.os)
    code ← execute_command command
    pure (code == 0)
  kind_installed oracle = throw (logic_error (says "Not implemented"))

  -- `OFED::installed`
  unfoldable pub installed : Ofed → Procedure Bool
  installed ofed = if site.forced || site.dry_run then pure false else kind_installed ofed.kind

  abbrev pub inbox_install : String → PackageType → Procedure (Unit {0})
  inbox_install command deb = perform (shell command)
  inbox_install command rpm = perform (group_install command)

  abbrev pub install_mode : DocaInstallMode → Procedure (Unit {0})
  install_mode legacy_kernel_support = do
    let kernel = value_or site.requested_kernel site.running_kernel
    fallback ← lift (build_legacy_fallback_command site.os kernel)
    install_prereqs_with_fallback (build_legacy_prereq_command (some kernel)) fallback
    if site.skip_compile then pure tt else compile_for site.requested_kernel
    install_generated_repo
  install_mode repo_dkms = do
    perform (enable "epel")
    perform (check "dnf makecache --repo=epel")
    fallback ← lift (build_dkms_fallback_command site.os site.running_kernel)
    install_prereqs_with_fallback (build_dkms_prereq_command (some site.running_kernel)) fallback
    perform (check "dnf -y --nogpg install doca-extra tar")
    if site.skip_compile then pure tt else (do
      perform (check "/opt/mellanox/doca/tools/doca-kernel-support")
      install_generated_repo)

  -- The `switch` of `OFED::install`.
  unfoldable pub install_kind : Ofed → OfedKind → Procedure (Unit {0})
  install_kind ofed inbox = do
    command ← lift (build_inbox_install_command site.os)
    package_type ← lift (get_package_type site.os)
    inbox_install command package_type
  install_kind ofed doca = do
    mode ←
        lift
          (select_doca_install_mode ofed.version site.os site.requested_kernel site.running_kernel)
    perform (enable "doca")
    perform (check "dnf makecache --repo=doca")
    install_mode mode
    perform (check "dnf makecache --repo=doca*")
    perform (check build_host_install_command)
    prime_dkms_for_installed_kernel site.running_kernel
    code ← execute_command "systemctl restart openibd || true"
    pure tt
  install_kind ofed oracle = throw (logic_error (says "Oracle RDMA release is not yet supported"))

  -- `OFED::install`
  unfoldable pub install : Ofed → Procedure (Unit {0})
  unfolding installed install_kind
  install ofed =
      if site.dry_run
      then pure tt
      else do there ← installed ofed; if there then pure tt else install_kind ofed ofed.kind
