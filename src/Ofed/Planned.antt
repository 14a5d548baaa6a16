-- ===== src/Ofed/Planned.antt =====
-- What `OFED::install` of src/ofed.cpp does to the system, in which order, whenever it returns.
use opencattus.Base.{
  sym, ◌≢◌, arith, ◌≡◌, refl, ap, ◌∙◌, subst, Bool, true, false, ◌||◌, List, [], ◌∷◌, ◌++◌,
  if◌then◌else◌, ◌==◌, Result, ok, err, runtime_error, says,
}
use mathlib.Core.List.{append_assoc}
use opencattus.Enums.{OfedKind, doca}
use opencattus.Os.{PackageType, rpm, deb, get_package_type}
use opencattus.Cluster.{Ofed}
use opencattus.Runner.{Action, check, execute, enable, Runner, Procedure, ◌>>=◌, pure, lift}
use opencattus.Runner.Traces.{Traces, lift-Traces, pure-Traces, then-Traces}
use opencattus.Ofed.{
  doca_installed, DocaInstallMode, select_doca_install_mode, OfedSite, installed, kind_installed,
  install_kind, install,
}
use opencattus.Ofed.Steps.{last_steps, after-Traces, last-Traces}
use opencattus.Ofed.Modes.{IsModePart, mode-Traces}

module _ (site : OfedSite) where
  -- The steps after the choice of the mode, for what the mode does.
  abbrev pub planned : List Action → List Action
  planned part = enable "doca" ∷ check "dnf makecache --repo=doca" ∷ (part ++ last_steps)

  -- The steps of one install mode in their frame: the repository before them, the packages after.
  abbrev pub IsDocaInstalled : Ofed → List Action → Type 0
  IsDocaInstalled ofed added =
      (mode : DocaInstallMode) × (part : List Action) × (select_doca_install_mode ofed.version
          site.os site.requested_kernel site.running_kernel
        ≡ ok mode)
      × IsModePart site part mode
      × (added ≡ planned part)

  doca-Traces :
      (ofed : Ofed) → Traces (install_kind site ofed doca) (λ u added. IsDocaInstalled ofed added)
  unfolding install_kind
  doca-Traces ofed =
      then-Traces (λ mode xs. (xs ≡ []) × (chosen ≡ ok mode))
        (λ mode u added. (part : List Action) × IsModePart site part mode × (added ≡ planned part))
        _ _ _ (lift-Traces chosen)
        (λ mode runner done trace u h.
          let (all, (rest, (more, (part, last, p, e3, e4), e2), e1), e) =
            after-Traces (enable "doca") _ _
              (after-Traces (check "dnf makecache --repo=doca") _ _ (
                then-Traces (λ u part. IsModePart site part mode) (λ u v last. last ≡ last_steps)
                  (λ v added.
                    (part last : List Action) × IsModePart site part mode
                    × (last ≡ last_steps)
                    × (added ≡ part ++ last))
                  _ _ (mode-Traces site mode) (λ u. last-Traces site.running_kernel)
                  (λ u v part last p l. (part, last, p, l, refl))))
              runner done trace u h in
          (
            all,
            (
              part,
              p,
              e1
                  ∙ ap (λ l. enable "doca" ∷ l)
                      (e2
                        ∙ ap (λ l. check "dnf makecache --repo=doca" ∷ l)
                            (e4 ∙ ap (λ l. part ++ l) e3)),
            ),
            e,
          ))
        (λ mode u xs added (none_yet, e) (part, p, f).
          (mode, part, e, p, ap (λ l. l ++ added) none_yet ∙ f))
    where
      chosen : Result DocaInstallMode
      chosen =
          select_doca_install_mode ofed.version site.os site.requested_kernel site.running_kernel

  -- What `installed` has added, where it was asked,
  -- and the exit code that the query had.
  pub data IsInstallOf (ofed : Ofed) (runner : Runner) (done added : List Action) : Type 0 where
    dry_run_only : site.dry_run ≡ true → added ≡ [] → IsInstallOf ofed runner done added
    already_there :
        site.dry_run ≡ false
        → site.forced ≡ false
        → runner.exit_code done "rpm -q doca-ofed" ≡ 0
        → added ≡ execute "rpm -q doca-ofed" ∷ []
        → IsInstallOf ofed runner done added
    forced_anew :
        (steps : List Action)
        → site.dry_run ≡ false
        → site.forced ≡ true
        → IsDocaInstalled ofed steps
        → added ≡ steps
        → IsInstallOf ofed runner done added
    found_missing :
        (steps : List Action)
        → site.dry_run ≡ false
        → site.forced ≡ false
        → runner.exit_code done "rpm -q doca-ofed" ≢ 0
        → IsDocaInstalled ofed steps
        → added ≡ execute "rpm -q doca-ofed" ∷ steps
        → IsInstallOf ofed runner done added

-- The answer of the query, and what it leads to.
answered :
    (site : OfedSite) (ofed : Ofed) (runner : Runner) (done trace : List Action)
    → site.dry_run ≡ false
    → site.forced ≡ false
    → (there : Bool) → (runner.exit_code done "rpm -q doca-ofed" == 0) ≡ there
    → (if there then pure tt else install_kind site ofed doca) runner
        (done ++ (execute "rpm -q doca-ofed" ∷ []))
      ≡ (trace, ok tt)
    → (added : List Action) × IsInstallOf site ofed runner done added × (trace ≡ done ++ added)
answered site ofed runner done trace d f true code h =
    (execute "rpm -q doca-ofed" ∷ [], already_there d f (ground arith) refl, ap (λ p. p.0) (sym h))
answered site ofed runner done trace d f false code h =
    let (steps, planned_steps, e) =
      doca-Traces site ofed runner (done ++ (execute "rpm -q doca-ofed" ∷ [])) trace tt h in
    (
      execute "rpm -q doca-ofed" ∷ steps,
      found_missing steps d f (ground arith) planned_steps refl,
      e ∙ append_assoc done (execute "rpm -q doca-ofed" ∷ []) steps,
    )

-- The DOCA installer, whenever it returns: a dry run does nothing; without the option that forces
-- it, it asks for the package first, and stops there where that query exits with 0; where it exits
-- with another code, or is not asked since the option forces the installation, it enables the
-- repository, does the steps of the install mode that the version, the pinned and the running
-- kernel select, and installs the packages, looks for the newest kernel and restarts the service
-- after them, in this order and with nothing else between.
pub install-IsInstallOf :
    (site : OfedSite) (ofed : Ofed) (runner : Runner) (done trace : List Action)
    → ofed.kind ≡ doca
    → install site ofed runner done ≡ (trace, ok tt)
    → (added : List Action) × IsInstallOf site ofed runner done added × (trace ≡ done ++ added)
unfolding install installed
install-IsInstallOf site ofed runner done trace k h =
    by_options site.dry_run site.forced refl refl
      (subst (λ kind. run site.dry_run site.forced kind runner done ≡ (trace, ok tt)) k h)
  where
    Outcome : Type 0
    Outcome =
        (added : List Action) × IsInstallOf site ofed runner done added × (trace ≡ done ++ added)

    run : Bool → Bool → OfedKind → Procedure (Unit {0})
    run dry forced kind =
        if dry
        then pure tt
        else ((if forced || dry then pure false else kind_installed site kind) >>= λ there.
            if there then pure tt else install_kind site ofed kind)

    by_type :
        site.dry_run ≡ false
        → site.forced ≡ false
        → (t : Result PackageType)
        → (lift t >>= doca_installed site >>= λ there.
              if there then pure tt else install_kind site ofed doca)
            runner done
          ≡ (trace, ok tt)
        → Outcome
    by_type d f (err e) h =
        let never : ◌≡◌ {A = Result (Unit {0})} (err e) (ok tt) = ap (λ p. p.1) h in cc
    by_type d f (ok deb) h =
        let never : ◌≡◌ {A = Result (Unit {0})}
            (err (
              runtime_error (says "DOCA OFED is only implemented for Enterprise Linux head nodes")))
            (ok tt) =
          ap (λ p. p.1) h in
        cc
    by_type d f (ok rpm) h = answered site ofed runner done trace d f _ refl h

    by_options :
        (dry forced : Bool)
        → site.dry_run ≡ dry
        → site.forced ≡ forced
        → run dry forced doca runner done ≡ (trace, ok tt)
        → Outcome
    by_options true forced d f h =
        let (xs, nothing, e) = pure-Traces tt runner done trace tt h in
        (xs, dry_run_only d nothing, e)
    by_options false true d f h =
        let (xs, steps, e) = doca-Traces site ofed runner done trace tt h in
        (xs, forced_anew xs d f steps refl, e)
    by_options false false d f h = by_type d f (get_package_type site.os) h
