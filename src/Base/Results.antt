-- ===== src/Base/Results.antt =====
-- Exceptions as values. A `throw` is `err`; a message keeps the arguments of its format string.
use Prim.Native.String.{String}
use Prim.Native.Nat.{ℕ}
use mathlib.Core.Path.{◌≡◌, refl}
use mathlib.Core.Bool.{Bool, true, false}
use mathlib.Core.Logic.{◌⊎◌, inl, inr}
use mathlib.Core.Option.{Option, none, some}

pub data Message : Type 0 where
  -- a literal message
  says : String → Message
  -- "no such entry [group].key" of the key file
  no_such_entry : String → String → Message
  -- "[section].field validation failed - reason"
  field_invalid : String → String → Message → Message
  -- "Duplicate field value used by owner and owner"
  duplicate : String → String → String → String → Message
  -- "section must have a key or you must inform a generic value"
  no_generic : String → String → Message
  -- "Section node.counter validation failed - reason", and its missing hostname
  node_invalid : ℕ → Message → Message
  -- a literal message that ends in the offending text
  about : String → String → Message

-- The exception classes that the modelled code throws or lets through.
pub data Error : Type 0 where
  runtime_error invalid_argument out_of_range length_error range_error : Message → Error
  answerfile_invalid logic_error : Message → Error
  -- what C++ leaves undefined, as the value behind `->` of an empty optional
  undefined_behavior : Error
  key_file_error bad_optional_access bad_variant_access system_error : Error

pub data Result {ℓ} (A : Type ℓ) : Type ℓ where
  err : Error → Result A
  ok : A → Result A

-- What follows runs on the value of what returned; an exception passes it by.
infixl 5 ◌>>=◌
abbrev pub ◌>>=◌ {ℓ κ} :
    {Value : Type ℓ} {Next : Type κ} → Result Value → (Value → Result Next) → Result Next
err error >>= next = err error
ok returned >>= next = next returned

-- `try { ... } catch (boost::system::system_error&) { throw e; }`
abbrev pub catch_system {ℓ} : {A : Type ℓ} → Error → Result A → Result A
catch_system e (ok a) = ok a
catch_system e (err system_error) = err e
catch_system e (err other) = err other

-- `if (b) throw e;`
abbrev pub throw_if : Bool → Error → Result (Unit {0})
throw_if true e = err e
throw_if false e = ok tt

-- A statement, and those behind it.
infixl 5 ◌>>◌
abbrev pub ◌>>◌ {ℓ} : {Next : Type ℓ} → Result (Unit {0}) → Result Next → Result Next
first >> rest = first >>= λ done. rest

-- The value of an optional, or the exception.
abbrev pub or_throw {ℓ} : {A : Type ℓ} → Option A → Error → Result A
or_throw none e = err e
or_throw (some a) e = ok a

-- `optional.value()`
abbrev pub value {ℓ} : {A : Type ℓ} → Option A → Result A
value o = or_throw o bad_optional_access

pub Result-cases {ℓ} :
    {A : Type ℓ} (r : Result A) → ((a : A) × (r ≡ ok a)) ⊎ ((e : Error) × (r ≡ err e))
Result-cases (ok a) = inl (a, refl)
Result-cases (err e) = inr (e, refl)

-- Where the whole returned, so did its first part.
pub >>=-eq-ok {ℓ κ} :
    {Value : Type ℓ} {Next : Type κ} (first : Result Value) (next : Value → Result Next)
    {last : Next}
    → (first >>= next) ≡ ok last
    → (returned : Value) × (first ≡ ok returned) × (next returned ≡ ok last)
>>=-eq-ok (err error) next e = cc
>>=-eq-ok (ok returned) next e = (returned, refl, e)

-- The same for a proof that goes on with the parts.
pub after {ℓ κ ι} :
    {Value : Type ℓ} {Next : Type κ} {Goal : Type ι} (first : Result Value)
    (next : Value → Result Next) {last : Next}
    → (first >>= next) ≡ ok last
    → ((returned : Value) → first ≡ ok returned → next returned ≡ ok last → Goal)
    → Goal
after first next e proof =
    let (returned, began, ended) = >>=-eq-ok first next e in proof returned began ended

-- Where the first part returns, the rest decides.
pub begin {ℓ κ} :
    {Value : Type ℓ} {Next : Type κ} (first : Result Value) (next : Value → Result Next)
    {returned : Value} {whole : Result Next}
    → first ≡ ok returned
    → next returned ≡ whole
    → (first >>= next) ≡ whole
begin first next began ended = rw began ended

pub throw_if-eq-ok : (b : Bool) (e : Error) → throw_if b e ≡ ok tt → b ≡ false
throw_if-eq-ok true e h = cc
throw_if-eq-ok false e h = refl
