-- ===== src/Ofed/Steps.antt =====
-- The steps of `OFED::install` of src/ofed.cpp, each with the actions that it adds.
use opencattus.Base.{
  String, ◌≡◌, refl, sym, ap, ◌∙◌, Bool, true, false, Option, none, some, List, [], ◌∷◌, ◌++◌,
  if◌then◌else◌, Result, ok, err, Error,
}
use mathlib.Core.List.{append_assoc}
use opencattus.Base.Text.{◌<>◌}
use opencattus.Runner.{
  Action, check, output, execute, Procedure, ◌>>=◌, ◌>>◌, pure, perform, execute_command,
}
use opencattus.Runner.Traces.{
  Traces, perform-Traces, output-Traces, execute-Traces, lift-Traces, pure-Traces, then-Traces,
}
use opencattus.Ofed.{install_generated_repo}
use opencattus.Ofed.Commands.{build_host_install_command}
use opencattus.Ofed.Newest.{latest_kernel}
use opencattus.Ofed.Kernels.{
  is_runtime_error, retry, install_prereqs_with_fallback, kernel_query,
  latest_installed_kernel_core, prime_dkms_for_installed_kernel, repo_query, first_path,
  find_latest_generated_repo_rpm,
}

-- The prerequisites: the first command, or it and the fallback.
pub data IsPrereq (primary : String) (fallback : Option String) (added : List Action) : Type 0 where
  direct : added ≡ check primary ∷ [] → IsPrereq primary fallback added
  retried :
      (second : String)
      → fallback ≡ some second
      → added ≡ check primary ∷ check second ∷ []
      → IsPrereq primary fallback added

pub prereqs-Traces :
    (primary : String) (fallback : Option String)
    → Traces
        (install_prereqs_with_fallback primary fallback)
        (λ u added. IsPrereq primary fallback added)
unfolding install_prereqs_with_fallback
prereqs-Traces primary fallback runner done trace u h =
    outcome fallback refl (runner.performs done (check primary)) h
  where
    first_alone : List Action
    first_alone = done ++ (check primary ∷ [])

    returned :
        first_alone ≡ trace
        → (added : List Action) × IsPrereq primary fallback added × (trace ≡ done ++ added)
    returned e = (check primary ∷ [], direct refl, sym e)

    failed :
        {e : Error}
        → ◌≡◌ {A = List Action × Result (Unit {0})} (first_alone, err e) (trace, ok u)
        → ⊥
    failed {e} h = let never : ◌≡◌ {A = Result (Unit {0})} (err e) (ok u) = ap (λ p. p.1) h in cc

    outcome :
        (f : Option String)
        → fallback ≡ f
        → (r : Result (Unit {0})) → retry f (first_alone, r) runner ≡ (trace, ok u)
        → (added : List Action) × IsPrereq primary fallback added × (trace ≡ done ++ added)
    outcome none e (ok v) h = returned (ap (λ p. p.0) h)
    outcome (some f) e (ok v) h = returned (ap (λ p. p.0) h)
    outcome none e (err error) h = absurd (failed h)
    outcome (some f) e (err error) h = caught (is_runtime_error error) h
      where
        caught :
            (b : Bool)
            → (if b then perform (check f) runner first_alone else (first_alone, err error))
              ≡ (trace, ok u)
            → (added : List Action) × IsPrereq primary fallback added × (trace ≡ done ++ added)
        caught true h = (
          check primary ∷ check f ∷ [],
          retried f e refl,
          ap (λ p. p.0) (sym h) ∙ append_assoc done (check primary ∷ []) (check f ∷ []),
        )
        caught false h = absurd (failed h)

abbrev pub compile_action : Option String → Action
compile_action none = check "/opt/mellanox/doca/tools/doca-kernel-support"
compile_action (some kernel) = check ("/opt/mellanox/doca/tools/doca-kernel-support -k " <> kernel)

-- The search for the generated repository, and its installation.
abbrev pub repo_actions : String → List Action
repo_actions path = output repo_query ∷ check ("dnf install -y " <> path) ∷ []

pub repo-Traces :
    Traces install_generated_repo (λ u added. (path : String) × (added ≡ repo_actions path))
unfolding find_latest_generated_repo_rpm
repo-Traces =
    then-Traces (λ path added. added ≡ output repo_query ∷ [])
      (λ path u added. added ≡ check ("dnf install -y " <> path) ∷ []) _
      find_latest_generated_repo_rpm _
      (then-Traces (λ paths added. added ≡ output repo_query ∷ [])
        (λ paths path added. (added ≡ []) × (first_path paths ≡ ok path)) _ _ _
        (output-Traces repo_query) (λ paths. lift-Traces (first_path paths))
        (λ paths path xs ys e f. ap (λ l. l ++ ys) e ∙ ap (λ l. output repo_query ∷ l) f.0))
      (λ path. perform-Traces (check ("dnf install -y " <> path)))
      (λ path u xs ys e f. (path, ap (λ l. l ++ ys) e ∙ ap (λ l. output repo_query ∷ l) f))

-- A step that is skipped adds nothing.
unfoldable pub UnlessSkipped : Bool → (List Action → Type 0) → List Action → Type 0
UnlessSkipped true Adds added = added ≡ []
UnlessSkipped false Adds added = Adds added

pub skipped-Traces :
    (skipped : Bool) (procedure : Procedure (Unit {0})) (Adds : List Action → Type 0)
    → Traces procedure (λ u added. Adds added)
    → Traces (if skipped then pure tt else procedure) (λ u added. UnlessSkipped skipped Adds added)
unfolding UnlessSkipped
skipped-Traces true procedure Adds traces = pure-Traces tt
skipped-Traces false procedure Adds traces = traces

-- The search for the generated repository, and the installation of what it found.
abbrev pub IsRepoInstalled : List Action → Type 0
IsRepoInstalled added = (path : String) × (added ≡ repo_actions path)

-- An action, and what follows it.
pub after-Traces :
    (action : Action) (procedure : Procedure (Unit {0})) (Adds : List Action → Type 0)
    → Traces procedure (λ u added. Adds added)
    → Traces
        (perform action >> procedure)
        (λ u added. (rest : List Action) × Adds rest × (added ≡ action ∷ rest))
after-Traces action procedure Adds traces =
    then-Traces (λ u xs. xs ≡ action ∷ []) (λ u v rest. Adds rest) _ _ _ (perform-Traces action)
      (λ u. traces) (λ u v xs rest e adds. (rest, adds, ap (λ l. l ++ rest) e))

pub last_steps : List Action
last_steps =
    check "dnf makecache --repo=doca*"
    ∷ check build_host_install_command
    ∷ output kernel_query
    ∷ execute "systemctl restart openibd || true"
    ∷ []

prime-Traces :
    (running : String)
    → Traces (prime_dkms_for_installed_kernel running) (λ u added. added ≡ output kernel_query ∷ [])
unfolding prime_dkms_for_installed_kernel latest_installed_kernel_core
prime-Traces running =
    then-Traces (λ newest added. added ≡ output kernel_query ∷ []) (λ newest u added. added ≡ []) _
      _ _
      (then-Traces (λ kernels added. added ≡ output kernel_query ∷ [])
        (λ kernels newest added. (added ≡ []) × (latest_kernel kernels ≡ ok newest)) _ _ _
        (output-Traces kernel_query) (λ kernels. lift-Traces (latest_kernel kernels))
        (λ kernels newest xs ys e (f, k).
          ap (λ l. l ++ ys) e ∙ ap (λ l. output kernel_query ∷ l) f))
      (λ newest. pure-Traces tt)
      (λ newest u xs ys e f. ap (λ l. l ++ ys) e ∙ ap (λ l. output kernel_query ∷ l) f)

restart-Traces :
    Traces
      (execute_command "systemctl restart openibd || true" >>= (λ code. pure (tt {0})))
      (λ u added. added ≡ execute "systemctl restart openibd || true" ∷ [])
restart-Traces =
    then-Traces (λ code added. added ≡ execute "systemctl restart openibd || true" ∷ [])
      (λ code u added. added ≡ []) _ _ _ (execute-Traces _) (λ code. pure-Traces tt)
      (λ code u xs ys e f.
        ap (λ l. l ++ ys) e ∙ ap (λ l. execute "systemctl restart openibd || true" ∷ l) f)

pub last-Traces :
    (running : String)
    → Traces
        (perform (check "dnf makecache --repo=doca*")
          >> (perform (check build_host_install_command)
              >> (prime_dkms_for_installed_kernel running
                  >> (execute_command "systemctl restart openibd || true"
                      >>= (λ code. pure (tt {0}))))))
        (λ u added. added ≡ last_steps)
unfolding last_steps
last-Traces running =
    then-Traces (λ u added. added ≡ check "dnf makecache --repo=doca*" ∷ []) _ _ _ _
      (perform-Traces _)
      (λ u.
        then-Traces (λ u added. added ≡ check build_host_install_command ∷ []) _ _ _ _
          (perform-Traces _)
          (λ u.
            then-Traces (λ u added. added ≡ output kernel_query ∷ [])
              (λ u v added. added ≡ execute "systemctl restart openibd || true" ∷ [])
              (λ v added.
                added ≡ output kernel_query ∷ execute "systemctl restart openibd || true" ∷ [])
              _ _ (prime-Traces running) (λ u. restart-Traces)
              (λ u v xs ys e f. ap (λ l. l ++ ys) e ∙ ap (λ l. output kernel_query ∷ l) f))
          (λ u v xs ys e f. ap (λ l. l ++ ys) e ∙ ap (λ l. check build_host_install_command ∷ l) f))
      (λ u v xs ys e f. ap (λ l. l ++ ys) e ∙ ap (λ l. check "dnf makecache --repo=doca*" ∷ l) f)
