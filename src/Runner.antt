-- ===== src/Runner.antt =====
-- The commands that the program runs, in order: a procedure extends the list of what was done, and
-- each answer may depend on that list. The interface is that of src/services/runner.cpp, of
-- include/opencattus/services/repos.h and of include/opencattus/services/osservice.h; what the
-- commands do to the system is not modelled.
pub mod Traces
use opencattus.Base.{
  ℕ, String, ◌≡◌, refl, Bool, true, false, Option, none, some, List, [], ◌∷◌, ◌++◌, Result, ok, err,
  Error,
}

-- `checkCommand`, `checkOutput`, `executeCommand`, `RepoManager::enable`,
-- `IOSService::groupInstall`, and `shell::cmd`.
pub data Action : Type 0 where
  check output execute enable group_install shell : String → Action

-- The answers of the system, by what was done before, in order.
pub record Runner : Type 0 where
  -- an action that throws or returns nothing
  pub performs : List Action → Action → Result (Unit {0})
  pub outputs : List Action → String → Result (List String)
  pub exit_code : List Action → String → ℕ

-- A procedure: from what was done to what is done in the end, with its result.
abbrev pub Procedure {ℓ} : Type ℓ → Type ℓ
Procedure A = Runner → List Action → List Action × Result A

abbrev pub after_result {ℓ κ} :
    {A : Type ℓ} {B : Type κ}
    → Runner
    → List Action × Result A
    → (A → Procedure B)
    → List Action × Result B
after_result runner (done, err e) next = (done, err e)
after_result runner (done, ok a) next = next a runner done

infixl 5 ◌>>=◌
abbrev pub ◌>>=◌ {ℓ κ} : {A : Type ℓ} {B : Type κ} → Procedure A → (A → Procedure B) → Procedure B
(first >>= next) runner done = after_result runner (first runner done) next

infixl 5 ◌>>◌
abbrev pub ◌>>◌ {ℓ} : {B : Type ℓ} → Procedure (Unit {0}) → Procedure B → Procedure B
first >> rest = first >>= λ u. rest

abbrev pub pure {ℓ} : {A : Type ℓ} → A → Procedure A
pure a runner done = (done, ok a)

abbrev pub throw {ℓ} : {A : Type ℓ} → Error → Procedure A
throw e runner done = (done, err e)

-- A value that is computed without the system.
abbrev pub lift {ℓ} : {A : Type ℓ} → Result A → Procedure A
lift r runner done = (done, r)

abbrev pub perform : Action → Procedure (Unit {0})
perform action runner done = (done ++ (action ∷ []), runner.performs done action)

abbrev pub check_output : String → Procedure (List String)
check_output command runner done = (done ++ (output command ∷ []), runner.outputs done command)

abbrev pub execute_command : String → Procedure ℕ
execute_command command runner done =
    (done ++ (execute command ∷ []), ok (runner.exit_code done command))
