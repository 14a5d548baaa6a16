-- ===== src/Machine/Named.antt =====
-- Host names and domains are kept apart: what `discoverNames` of src/models/headnode.cpp and the
-- setters of src/models/cluster.cpp leave in the head node.
use opencattus.Base.{
  String, ◌≡◌, refl, Bool, true, false, inl, inr, Bool-cases, arith, if◌then◌else◌, ◌==◌, ==_iff,
  sym, ap,
}
use Prim.Native.Char.{code}
use text.Mathlib.TextEquality.{Char-path}
use opencattus.Base.Text.{◌<>◌, is_empty, before, behind, has_char, after_first}
use text.Mathlib.TextLemmas.{nil-append, cons-append, append_assoc}
use opencattus.Machine.{Server}
use opencattus.Machine.Names.{
  has_domain, first_part, discover_names, get_domain_name, set_domain_name, after_first-dot,
}

before-has_char : (name : String) → has_char "." (before "." name) ≡ false
before-has_char String.[] = refl
before-has_char (String.◌∷◌ c s) = elim (Bool-cases (code c == code ".")) [
  | inl e ↦ rw e refl
  | inr e ↦ rw (e, e) (before-has_char s)
]

before-behind :
    (name : String) → has_char "." name ≡ true → before "." name <> "." <> behind "." name ≡ name
before-behind String.[] h = cc
before-behind (String.◌∷◌ c s) h = elim (Bool-cases (code c == code ".")) [
  | inl e ↦
      rw (e, nil-append, cons-append, nil-append)
        (ap (λ x. String.◌∷◌ x s) (sym (Char-path c "." ((==_iff (code c) (code ".")).0 e))))
  | inr e ↦ rw (e, cons-append, cons-append) (ap (String.◌∷◌ c) (before-behind s (rw e at h)))
]

-- A machine whose host name has no dot, and whose full name is the host name, a dot, and a domain.
pub record IsNamed {Address : Type 0} (server : Server Address) : Type 0 where
  pub no_dot : has_char "." server.hostname ≡ false
  pub full : server.fqdn ≡ server.hostname <> "." <> get_domain_name server

first_part-has_char : (name : String) → has_char "." (first_part name) ≡ false
first_part-has_char name = elim (Bool-cases (is_empty name)) [
  | inl e ↦ rw e refl
  | inr e ↦ rw e (before-has_char name)
]

full_of :
    (b : Bool) (name : String)
    → has_domain name ≡ b
    → (if b then name else first_part name <> ".localdomain")
      ≡ first_part name
        <> "."
        <> after_first "." (if b then name else first_part name <> ".localdomain")
unfolding has_domain
full_of true String.[] h = cc
full_of true (String.◌∷◌ c s) h =
    let dotted : has_char "." (String.◌∷◌ c s) ≡ true = ground arith in
    rw dotted (sym (before-behind (String.◌∷◌ c s) dotted))
full_of false name h =
    rw (← split_dot, after_first-dot (first_part name) "localdomain" (first_part-has_char name))
      refl
  where
    split_dot : first_part name <> "." <> "localdomain" ≡ first_part name <> ".localdomain"
    split_dot = append_assoc (first_part name) "." "localdomain"

module _ {Address : Type 0} where
  -- Setting the domain of a machine whose host name has no dot gives it the full name of both,
  -- from which the domain reads back.
  pub set_domain_name-IsNamed :
      (domain : String) (server : Server Address)
      → has_char "." server.hostname ≡ false
      → IsNamed (set_domain_name domain server)
        × (get_domain_name (set_domain_name domain server) ≡ domain)
  set_domain_name-IsNamed domain server h =
      let e = after_first-dot server.hostname domain h in
      (record { no_dot = h; full = ap (λ x. server.hostname <> "." <> x) (sym e) }, e)

  -- Whatever node name the system tells, the names that are discovered are a host name with no dot
  -- and a full name that begins with it.
  pub discover_names-IsNamed :
      (name : String) (server : Server Address) → IsNamed (discover_names name server)
  unfolding discover_names
  discover_names-IsNamed name server = record {
    no_dot = first_part-has_char name;
    full = full_of (has_domain name) name refl;
  }
