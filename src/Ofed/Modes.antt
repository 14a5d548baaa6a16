-- ===== src/Ofed/Modes.antt =====
-- What the two install modes of `OFED::install` of src/ofed.cpp do to the system.
use opencattus.Base.{
  String, ◌≡◌, refl, ap, ◌∙◌, Option, none, some, List, [], ◌∷◌, ◌++◌, if◌then◌else◌, value_or, ok,
}
use opencattus.Runner.{Action, check, enable, ◌>>=◌, ◌>>◌, pure, lift, perform}
use opencattus.Runner.Traces.{Traces, perform-Traces, lift-Traces, then-Traces}
use opencattus.Ofed.{
  DocaInstallMode, legacy_kernel_support, repo_dkms, OfedSite, compile_for, install_generated_repo,
  install_mode,
}
use opencattus.Ofed.Commands.{
  build_legacy_prereq_command, build_dkms_prereq_command, build_legacy_fallback_command,
  build_dkms_fallback_command,
}
use opencattus.Ofed.Kernels.{install_prereqs_with_fallback}
use opencattus.Ofed.Steps.{
  IsPrereq, UnlessSkipped, compile_action, IsRepoInstalled, prereqs-Traces, repo-Traces,
  skipped-Traces, after-Traces,
}

module _ (site : OfedSite) where
  abbrev pub legacy_kernel : String
  legacy_kernel = value_or site.requested_kernel site.running_kernel

  abbrev pub IsLegacyPrereq : List Action → Type 0
  IsLegacyPrereq added =
      (fallback : Option String) × (build_legacy_fallback_command site.os legacy_kernel
        ≡ ok fallback)
      × IsPrereq (build_legacy_prereq_command (some legacy_kernel)) fallback added

  abbrev pub IsDkmsPrereq : List Action → Type 0
  IsDkmsPrereq added =
      (fallback : Option String) × (build_dkms_fallback_command site.os site.running_kernel
        ≡ ok fallback)
      × IsPrereq (build_dkms_prereq_command (some site.running_kernel)) fallback added

  -- What one install mode does: on the legacy path the prerequisites, the compilation unless it is
  -- skipped, and the installation of the generated repository; on the DKMS path the EPEL
  -- repository, the prerequisites, the tools, and the compilation with its installation unless
  -- they are skipped.
  pub data IsModePart (added : List Action) : DocaInstallMode → Type 0 where
    by_legacy :
        (prereqs compiled repo : List Action)
        → IsLegacyPrereq prereqs
        → UnlessSkipped site.skip_compile
            (λ l. l ≡ compile_action site.requested_kernel ∷ [])
            compiled
        → IsRepoInstalled repo
        → added ≡ prereqs ++ (compiled ++ repo)
        → IsModePart added legacy_kernel_support
    by_dkms :
        (prereqs compiled : List Action)
        → IsDkmsPrereq prereqs
        → UnlessSkipped site.skip_compile
            (λ l. (repo : List Action) × IsRepoInstalled repo × (l ≡ compile_action none ∷ repo))
            compiled
        → added
          ≡ enable "epel"
            ∷ check "dnf makecache --repo=epel"
            ∷ (prereqs ++ (check "dnf -y --nogpg install doca-extra tar" ∷ compiled))
        → IsModePart added repo_dkms

  compile-Traces :
      Traces
        (compile_for site.requested_kernel)
        (λ u added. added ≡ compile_action site.requested_kernel ∷ [])
  compile-Traces = by_kernel site.requested_kernel
    where
      by_kernel :
          (kernel : Option String)
          → Traces (compile_for kernel) (λ u added. added ≡ compile_action kernel ∷ [])
      by_kernel none = perform-Traces _
      by_kernel (some kernel) = perform-Traces _

  legacy-Traces :
      Traces
        (install_mode site legacy_kernel_support)
        (λ u added. IsModePart added legacy_kernel_support)
  legacy-Traces =
      then-Traces (λ f xs. (xs ≡ []) × (build_legacy_fallback_command site.os legacy_kernel ≡ ok f))
        (λ f u added.
          (prereqs compiled repo : List Action) × IsPrereq
            (build_legacy_prereq_command (some legacy_kernel)) f prereqs
          × UnlessSkipped site.skip_compile (λ l. l ≡ compile_action site.requested_kernel ∷ [])
              compiled
          × IsRepoInstalled repo
          × (added ≡ prereqs ++ (compiled ++ repo)))
        _ _ _ (lift-Traces (build_legacy_fallback_command site.os legacy_kernel))
        (λ f.
          then-Traces
            (λ u prereqs. IsPrereq (build_legacy_prereq_command (some legacy_kernel)) f prereqs)
            (λ u v added.
              (compiled repo : List Action) × UnlessSkipped site.skip_compile
                (λ l. l ≡ compile_action site.requested_kernel ∷ []) compiled
              × IsRepoInstalled repo
              × (added ≡ compiled ++ repo))
            _ _ _ (prereqs-Traces (build_legacy_prereq_command (some legacy_kernel)) f)
            (λ u.
              then-Traces
                (λ u compiled.
                  UnlessSkipped site.skip_compile
                    (λ l. l ≡ compile_action site.requested_kernel ∷ []) compiled)
                (λ u v repo. IsRepoInstalled repo) _ _ _
                (skipped-Traces site.skip_compile (compile_for site.requested_kernel)
                  (λ l. l ≡ compile_action site.requested_kernel ∷ []) compile-Traces)
                (λ u. repo-Traces) (λ u v compiled repo c r. (compiled, repo, c, r, refl)))
            (λ u v prereqs rest p (compiled, repo, c, r, e).
              (prereqs, compiled, repo, p, c, r, ap (λ l. prereqs ++ l) e)))
        (λ f u xs added (none_yet, built) (prereqs, compiled, repo, p, c, r, e).
          by_legacy prereqs compiled repo (f, built, p) c r (ap (λ l. l ++ added) none_yet ∙ e))

  IsCompiled : List Action → Type 0
  IsCompiled l = (repo : List Action) × IsRepoInstalled repo × (l ≡ compile_action none ∷ repo)

  dkms-Traces : Traces (install_mode site repo_dkms) (λ u added. IsModePart added repo_dkms)
  unfolding IsCompiled
  dkms-Traces runner done trace u h =
      let (all, (rest, (more, (prereqs, tools, p, (compiled, c, e4), e3), e2), e1), e) =
        after-Traces (enable "epel") _ _
          (after-Traces (check "dnf makecache --repo=epel") _ _ rest-Traces) runner done trace u
          h in
      (
        all,
        by_dkms prereqs compiled p c (
            e1
            ∙ ap (λ l. enable "epel" ∷ l)
                (e2
                  ∙ ap (λ l. check "dnf makecache --repo=epel" ∷ l)
                      (e3 ∙ ap (λ l. prereqs ++ l) e4))),
        e,
      )
    where
      Tools : List Action → Type 0
      Tools tools =
          (compiled : List Action) × UnlessSkipped site.skip_compile IsCompiled compiled
          × (tools ≡ check "dnf -y --nogpg install doca-extra tar" ∷ compiled)

      Rest : List Action → Type 0
      Rest rest =
          (prereqs tools : List Action) × IsDkmsPrereq prereqs
          × Tools tools
          × (rest ≡ prereqs ++ tools)

      tools-Traces :
          Traces
            (perform (check "dnf -y --nogpg install doca-extra tar")
              >> (if site.skip_compile
                  then pure tt
                  else (perform (check "/opt/mellanox/doca/tools/doca-kernel-support")
                      >> install_generated_repo)))
            (λ u added. Tools added)
      tools-Traces = after-Traces (check "dnf -y --nogpg install doca-extra tar") _ _ (
          skipped-Traces site.skip_compile _ IsCompiled
            (after-Traces (compile_action none) _ IsRepoInstalled repo-Traces))

      rest-Traces :
          Traces
            (lift (build_dkms_fallback_command site.os site.running_kernel) >>= (λ f.
              install_prereqs_with_fallback (build_dkms_prereq_command (some site.running_kernel)) f
              >> (perform (check "dnf -y --nogpg install doca-extra tar")
                  >> (if site.skip_compile
                      then pure tt
                      else (perform (check "/opt/mellanox/doca/tools/doca-kernel-support")
                          >> install_generated_repo)))))
            (λ u added. Rest added)
      rest-Traces =
          then-Traces
            (λ f xs. (xs ≡ []) × (build_dkms_fallback_command site.os site.running_kernel ≡ ok f))
            (λ f u added.
              (prereqs tools : List Action) × IsPrereq
                (build_dkms_prereq_command (some site.running_kernel)) f prereqs
              × Tools tools
              × (added ≡ prereqs ++ tools))
            _ _ _ (lift-Traces (build_dkms_fallback_command site.os site.running_kernel))
            (λ f.
              then-Traces
                (λ u prereqs.
                  IsPrereq (build_dkms_prereq_command (some site.running_kernel)) f prereqs)
                (λ u v tools. Tools tools) _ _ _
                (prereqs-Traces (build_dkms_prereq_command (some site.running_kernel)) f)
                (λ u. tools-Traces) (λ u v prereqs tools p t. (prereqs, tools, p, t, refl)))
            (λ f u xs added (none_yet, built) (prereqs, tools, p, t, e).
              (prereqs, tools, (f, built, p), t, ap (λ l. l ++ added) none_yet ∙ e))

  pub mode-Traces :
      (mode : DocaInstallMode) → Traces (install_mode site mode) (λ u added. IsModePart added mode)
  mode-Traces legacy_kernel_support = legacy-Traces
  mode-Traces repo_dkms = dkms-Traces
