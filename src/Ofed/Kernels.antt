-- ===== src/Ofed/Kernels.antt =====
-- The procedures of src/ofed.cpp on kernels: the prerequisites with their fallback, the latest
-- kernel that is installed, and the generated repository.
use opencattus.Base.{
  String, Bool, true, false, Option, none, some, List, [], ◌∷◌, if◌then◌else◌, Result, ok, err,
  Error, runtime_error, range_error, system_error, says,
}
use opencattus.Base.Text.{is_empty}
use opencattus.Ofed.Newest.{latest_kernel}
use opencattus.Runner.{Runner, Action, Procedure, ◌>>=◌, pure, lift, perform, check_output, check}

-- The classes that are std::runtime_error or derived from it.
abbrev pub is_runtime_error : Error → Bool
is_runtime_error (runtime_error m) = true
is_runtime_error (range_error m) = true
is_runtime_error system_error = true
is_runtime_error other = false

-- `catch (const std::runtime_error&)`: the handler, or the exception again where there is no
-- fallback.
abbrev pub retry :
    Option String → List Action × Result (Unit {0}) → Runner → List Action × Result (Unit {0})
retry fallback (done, ok u) runner = (done, ok u)
retry none (done, err e) runner = (done, err e)
retry (some fallback) (done, err e) runner =
    if is_runtime_error e then perform (check fallback) runner done else (done, err e)

-- `installDocaPrereqsWithFallback`
unfoldable pub install_prereqs_with_fallback : String → Option String → Procedure (Unit {0})
install_prereqs_with_fallback primary fallback runner done =
    retry fallback (perform (check primary) runner done) runner

abbrev pub kernel_query : String
kernel_query =
    "bash -lc \"rpm -q kernel-core --qf '%{INSTALLTIME} %{VERSION}-%{RELEASE}.%{ARCH}\\n'\""

-- `latestInstalledKernelCore`
unfoldable pub latest_installed_kernel_core : Procedure String
latest_installed_kernel_core = do kernels ← check_output kernel_query; lift (latest_kernel kernels)

-- `primeDocaDkmsForInstalledKernel`: both branches return, one of them with a warning.
unfoldable pub prime_dkms_for_installed_kernel : String → Procedure (Unit {0})
unfolding latest_installed_kernel_core
prime_dkms_for_installed_kernel running = do newest ← latest_installed_kernel_core; pure tt

abbrev pub repo_query : String
repo_query =
    "bash -c \"find /tmp/DOCA*/ -name 'doca-kernel-repo-*.rpm' -printf '%T@ %p\\n' | sort -nk1 | tail -1 | awk '{print $2}'\""

abbrev pub no_repo : Error
no_repo = runtime_error (says "Could not locate the generated DOCA kernel repo RPM")

abbrev pub first_path : List String → Result String
first_path [] = err no_repo
first_path (path ∷ paths) = if is_empty path then err no_repo else ok path

-- `findLatestGeneratedDocaKernelRepoRpm`
unfoldable pub find_latest_generated_repo_rpm : Procedure String
find_latest_generated_repo_rpm = do paths ← check_output repo_query; lift (first_path paths)
