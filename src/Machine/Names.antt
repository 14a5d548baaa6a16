-- ===== src/Machine/Names.antt =====
-- The names of the head node: `discoverNames` of src/models/headnode.cpp, and the domain that
-- src/models/cluster.cpp reads off the full name.
use opencattus.Base.{String, ◌≡◌, refl, Bool, true, false, ◌&&◌, not, if◌then◌else◌, str_eq, arith}
use opencattus.Base.Text.{◌<>◌, is_empty, before, behind, has_char, after_first}
use text.Mathlib.TextLemmas.{nil-append, cons-append}
use opencattus.Machine.{Server}

-- `hostparts.size() > 1 && !hostparts[1].empty() && hostparts[1] != "(none)"`, for the parts
-- between the dots of a name.
unfoldable pub has_domain : String → Bool
has_domain name =
    has_char "." name
    && not (is_empty (before "." (behind "." name)))
    && not (str_eq (before "." (behind "." name)) "(none)")

-- The first part of a name, or "localhost" for no name.
abbrev pub first_part : String → String
first_part name = if is_empty name then "localhost" else before "." name

module _ {Address : Type 0} where
  -- `Headnode::discoverNames`, for the node name that uname tells.
  unfoldable pub discover_names : String → Server Address → Server Address
  discover_names name server = record server {
    hostname = first_part name;
    fqdn = if has_domain name then name else first_part name <> ".localdomain";
  }

  -- `Cluster::getDomainName`
  abbrev pub get_domain_name : Server Address → String
  get_domain_name server = after_first "." server.fqdn

  -- `Cluster::setDomainName`
  abbrev pub set_domain_name : String → Server Address → Server Address
  set_domain_name domain server = record server { fqdn = server.hostname <> "." <> domain }

before-dot : (h s : String) → has_char "." h ≡ false → before "." (h <> "." <> s) ≡ h
before-dot String.[] s h = rw (nil-append, cons-append) refl
before-dot (String.◌∷◌ c h) s m = rw (cons-append, cons-append) (ground (arith, before-dot h s))

has_char-dot : (h s : String) → has_char "." (h <> "." <> s) ≡ true
has_char-dot String.[] s = rw (nil-append, cons-append) refl
has_char-dot (String.◌∷◌ c h) s = rw (cons-append, cons-append) (ground (arith, has_char-dot h s))

behind-dot : (h s : String) → has_char "." h ≡ false → behind "." (h <> "." <> s) ≡ s
behind-dot String.[] s h = rw (nil-append, cons-append, nil-append) refl
behind-dot (String.◌∷◌ c h) s m = rw (cons-append, cons-append) (ground (arith, behind-dot h s))

pub after_first-dot : (h s : String) → has_char "." h ≡ false → after_first "." (h <> "." <> s) ≡ s
after_first-dot h s m = rw (has_char-dot h s) (behind-dot h s m)
