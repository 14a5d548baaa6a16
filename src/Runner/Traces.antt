-- ===== src/Runner/Traces.antt =====
-- What a procedure does when it returns: the actions that it adds, by its parts.
use opencattus.Base.{String, ◌≡◌, refl, sym, ap, ◌∙◌, List, [], ◌∷◌, ◌++◌, Result, ok, err}
use mathlib.Core.List.{append_assoc, append-nil}
use opencattus.Runner.{
  Action, output, execute, Runner, Procedure, after_result, ◌>>=◌, pure, lift, perform,
  check_output, execute_command,
}

-- Whenever the procedure returns a value, it has added actions that the relation has for it.
abbrev pub Traces {ℓ} : {A : Type ℓ} → Procedure A → (A → List Action → Type 0) → Type ℓ
Traces {A = A} procedure Adds =
    (runner : Runner) (done trace : List Action) (a : A)
    → procedure runner done ≡ (trace, ok a)
    → (added : List Action) × Adds a added × (trace ≡ done ++ added)

pub perform-Traces : (action : Action) → Traces (perform action) (λ u added. added ≡ action ∷ [])
perform-Traces action runner done trace u h = (action ∷ [], refl, ap (λ p. p.0) (sym h))

pub output-Traces :
    (command : String) → Traces (check_output command) (λ u added. added ≡ output command ∷ [])
output-Traces command runner done trace u h = (output command ∷ [], refl, ap (λ p. p.0) (sym h))

pub execute-Traces :
    (command : String) → Traces (execute_command command) (λ u added. added ≡ execute command ∷ [])
execute-Traces command runner done trace u h = (execute command ∷ [], refl, ap (λ p. p.0) (sym h))

pub lift-Traces :
    {A : Type 0} (r : Result A) → Traces (lift r) (λ a added. (added ≡ []) × (r ≡ ok a))
lift-Traces r runner done trace a h =
    ([], (refl, ap (λ p. p.1) h), ap (λ p. p.0) (sym h) ∙ sym (append-nil done))

pub pure-Traces : {A : Type 0} (x : A) → Traces (pure x) (λ a added. added ≡ [])
pure-Traces x runner done trace a h = ([], refl, ap (λ p. p.0) (sym h) ∙ sym (append-nil done))

-- A part and what follows it: the actions of both.
pub then-Traces {ℓ κ} :
    {A : Type ℓ} {B : Type κ} (First : A → List Action → Type 0)
    (Rest : A → B → List Action → Type 0) (Whole : B → List Action → Type 0) (first : Procedure A)
    (next : A → Procedure B)
    → Traces first First
    → ((a : A) → Traces (next a) (Rest a))
    → ((a : A) (b : B) (xs ys : List Action) → First a xs → Rest a b ys → Whole b (xs ++ ys))
    → Traces (first >>= next) Whole
then-Traces {A = A} {B = B} First Rest Whole first next firsts rests whole runner done trace b h =
    began (first runner done) refl h
  where
    began :
        (r : List Action × Result A)
        → first runner done ≡ r
        → after_result runner r next ≡ (trace, ok b)
        → (added : List Action) × Whole b added × (trace ≡ done ++ added)
    began (mid, err e) e' h = let never : err e ≡ ok b = ap (λ p. p.1) h in cc
    began (mid, ok a) e' h =
        let (xs, first_added, mid_is) = firsts runner done mid a e' in
        let (ys, rest_added, trace_is) = rests a runner mid trace b h in
        (
          xs ++ ys,
          whole a b xs ys first_added rest_added,
          trace_is ∙ ap (λ l. l ++ ys) mid_is ∙ append_assoc done xs ys,
        )
