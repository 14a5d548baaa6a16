-- ===== src/Examples/Ofeds.antt =====
-- The OFED installer at concrete values.
use opencattus.Base.{
  ℕ, String, ◌≡◌, refl, Bool, true, false, some, none, List, [], ◌∷◌, ◌++◌, All, Result, ok, err,
  ◌==◌,
}
use opencattus.Base.Text.{lower}
use opencattus.Base.Search.{ℤ}
use opencattus.Enums.{doca}
use opencattus.Cluster.{Ofed}
use opencattus.Runner.{Action, Runner}
use opencattus.Ofed.{OfedSite, select_doca_install_mode, install}
use opencattus.Ofed.Newest.{parts_of, newest_of, latest_kernel}
use opencattus.Ofed.Latest.{IsListed, IsNotAfter, latest_kernel-IsListed}
use opencattus.Ofed.Planned.{IsInstallOf, install-IsInstallOf}
use opencattus.Examples.Sites.{is_ok, rocky_9}

abbrev lines : List String
lines = "100 5.14.0-1.el9.x86_64" ∷ "200 5.14.0-2.el9.x86_64" ∷ []

newest : latest_kernel lines ≡ ok "5.14.0-2.el9.x86_64"
unfolding latest_kernel newest_of opencattus.Base.Search.signed_value
    opencattus.Base.Stoul.skip_spaces opencattus.Base.Stoul.leading_digits
newest = refl

latest_kernel-IsListed_example :
    (time : ℤ) × IsListed time "5.14.0-2.el9.x86_64" lines
    × All (λ line. IsNotAfter time (parts_of line)) lines
latest_kernel-IsListed_example = latest_kernel-IsListed lines "5.14.0-2.el9.x86_64" newest

-- A system on which every command succeeds, DOCA is not there, and the kernels are those above.
abbrev system : Runner
system = record {
  performs = λ done action. ok tt;
  outputs = λ done command. ok lines;
  exit_code = λ done command. 1;
}

abbrev site : OfedSite
site = record {
  dry_run = false;
  forced = false;
  skip_compile = false;
  os = rocky_9;
  requested_kernel = none;
  running_kernel = "5.14.0-2.el9.x86_64";
}

abbrev ofed : Ofed
ofed = record { kind = doca; version = "latest" }

abbrev trace : List Action
trace = (install site ofed system []).0

returns : is_ok (install site ofed system []).1 ≡ true
unfolding install latest_kernel newest_of opencattus.Base.Search.signed_value
    opencattus.Os.get_package_type select_doca_install_mode
    opencattus.Ofed.uses_doca_legacy_kernel_support opencattus.Ofed.is_doca_lts_stream lower
    opencattus.Ofed.Commands.build_dkms_fallback_command opencattus.Os.Version.get_version
    opencattus.Ofed.Commands.rocky_repository_component
    opencattus.Ofed.Kernels.install_prereqs_with_fallback
    opencattus.Ofed.Kernels.find_latest_generated_repo_rpm
    opencattus.Ofed.Kernels.prime_dkms_for_installed_kernel opencattus.Base.Stoul.skip_spaces
    opencattus.Base.Stoul.leading_digits
returns = refl

outcome :
    (r : List Action × Result (Unit {0}))
    → is_ok r.1 ≡ true
    → ◌≡◌ {A = List Action × Result (Unit {0})} r (r.0, ok tt)
outcome (done, ok u) h = refl
outcome (done, err e) h = cc

install-IsInstallOf_example :
    (added : List Action) × IsInstallOf site ofed system [] added × (trace ≡ [] ++ added)
install-IsInstallOf_example =
    install-IsInstallOf site ofed system [] trace refl
      (outcome (install site ofed system []) returns)
