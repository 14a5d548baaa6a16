-- ===== src/Network/Configured.antt =====
-- What holds of a network that the constructors of src/network.cpp for given members make.
use opencattus.Base.{
  ℕ, ◌≤◌, ◌<◌, String, ◌≡◌, refl, sym, ap, ◌∙◌, subst, ◌↔◌, Bool, true, false, not, Option, none,
  some, List, ◌++◌, if◌then◌else◌, Result, ok, err, or_throw, catch_system, system_error, Error,
  >>=-eq-ok, arith,
}
use opencattus.Base.Text.{is_empty, size, all_of, is_digit, first_is, last_is}
use opencattus.Enums.{Profile, NetworkType}
use opencattus.Deps.{Deps}
use opencattus.Network.Cidr.{cidr_contains}
use opencattus.Network.{
  Network, in_domain_name, set_vlan, set_domain_name, set_nameservers, new_network, make,
  set_address, set_address_text, set_subnet_mask, set_subnet_mask_text, set_gateway_text, make_all,
  set_nameservers_text, configured, new_configured_network_text,
}

-- A domain name that the program accepts.
pub record IsDomainName (name : String) : Type 0 where
  pub filled : is_empty name ≡ false
  pub short : size name ≤ 255
  pub no_hyphen_first : first_is "-" name ≡ false
  pub no_hyphen_last : last_is "-" name ≡ false
  pub no_number : all_of is_digit name ≡ false
  pub in_class : all_of in_domain_name name ≡ true

module _ {Address : Type 0} (name : String) (network : Network Address) where
  IsDomainName-set_domain_name :
      {network' : Network Address}
      → set_domain_name name network ≡ ok network'
      → IsDomainName name × (network' ≡ record network { domain_name = name })
  unfolding set_domain_name
  IsDomainName-set_domain_name {network'} h = (
    record {
      filled = ground arith;
      short = ground arith;
      no_hyphen_first = ground arith;
      no_hyphen_last = ground arith;
      no_number = ground arith;
      in_class = ground arith;
    },
    ground arith,
  )

  set_domain_name-IsDomainName :
      IsDomainName name → set_domain_name name network ≡ ok (record network { domain_name = name })
  unfolding set_domain_name
  set_domain_name-IsDomainName s =
      ground
        (arith, s.filled, s.short, s.no_hyphen_first, s.no_hyphen_last, s.no_number, s.in_class)

  -- `set_domain_name` accepts a name exactly when it is a domain name: nonempty, of at most 255
  -- letters, digits, hyphens and dots, with no hyphen at its ends, and not a number.
  pub set_domain_name-ok_iff :
      (set_domain_name name network ≡ ok (record network { domain_name = name }))
      ↔ IsDomainName name
  set_domain_name-ok_iff = (λ h. (IsDomainName-set_domain_name h).0, set_domain_name-IsDomainName)

set_vlan-small :
    {Address : Type 0} (vlan : ℕ) (network : Network Address) {network' : Network Address}
    → set_vlan vlan network ≡ ok network'
    → (vlan < 4096) × (network' ≡ record network { vlan = vlan })
unfolding set_vlan
set_vlan-small vlan network h = (ground arith, ground arith)

pub catch_system-eq-ok :
    {A : Type 0} (e : Error) (m : Result A) {a : A} → catch_system e m ≡ ok a → m ≡ ok a
catch_system-eq-ok e (ok b) h = h
catch_system-eq-ok e (err system_error) h = cc
catch_system-eq-ok e (err other) h = h

module _ (d : Deps) where
  pub make-eq-ok : (s : String) {a : d.Address} → make d s ≡ ok a → d.make_address s ≡ some a
  make-eq-ok s {a} h = inverted (d.make_address s) h
    where
      inverted : (o : Option d.Address) → or_throw o system_error ≡ ok a → o ≡ some a
      inverted none h = cc
      inverted (some b) h = cc

  -- An address that is not 0.0.0.0.
  abbrev pub IsHostAddress : d.Address → Type 0
  IsHostAddress a =
      (unspecified : d.Address)
      → d.make_address "0.0.0.0" ≡ some unspecified
      → d.same_address a unspecified ≡ false

  pub set_address-eq-ok :
      (a : d.Address) (n : Network d.Address) {n' : Network d.Address}
      → set_address d a n ≡ ok n'
      → IsHostAddress a × (n' ≡ record n { address = a })
  unfolding set_address
  set_address-eq-ok a n {n'} h =
      let (z, zero, h2) = >>=-eq-ok (make d "0.0.0.0") _ h in
      let (apart, same) = checked (d.same_address a z) _ (record n { address = a }) h2 in
      (
        (λ u there.
            let equal : z ≡ u = some_injective (sym (make-eq-ok "0.0.0.0" zero) ∙ there) in
            subst (λ x. d.same_address a x ≡ false) equal apart),
        same,
      )
    where
      some_injective : {x y : d.Address} → some x ≡ some y → x ≡ y
      some_injective e = cc

      checked :
          (b : Bool) (error : Error) (set : Network d.Address)
          → (if b then err error else ok set) ≡ ok n'
          → (b ≡ false) × (n' ≡ set)
      checked true error set h = cc
      checked false error set h = (refl, cc)

  set_address_text-eq-ok :
      (ip : String) (n : Network d.Address) {n' : Network d.Address}
      → set_address_text d ip n ≡ ok n'
      → (a : d.Address) × (d.make_address ip ≡ some a)
        × IsHostAddress a
        × (n' ≡ record n { address = a })
  unfolding set_address_text
  set_address_text-eq-ok ip n h =
      let (a, e, h1) = >>=-eq-ok (make d ip) _ (catch_system-eq-ok _ _ h) in
      let (apart, same) = set_address-eq-ok a n h1 in (a, make-eq-ok ip e, apart, same)

  set_subnet_mask_text-eq-ok :
      (mask : String) (n : Network d.Address) {n' : Network d.Address}
      → set_subnet_mask_text d mask n ≡ ok n'
      → (a : d.Address) × (d.make_address mask ≡ some a)
        × (cidr_contains (d.address_string a) ≡ true)
        × (n' ≡ record n { subnet_mask = a })
  unfolding set_subnet_mask_text set_subnet_mask
  set_subnet_mask_text-eq-ok mask n {n'} h =
      let (a, e, h1) = >>=-eq-ok (make d mask) _ (catch_system-eq-ok _ _ h) in
      let (listed, same) =
        checked (cidr_contains (d.address_string a)) _ (record n { subnet_mask = a }) h1 in
      (a, make-eq-ok mask e, listed, same)
    where
      checked :
          (b : Bool) (error : Error) (set : Network d.Address)
          → (if not b then err error else ok set) ≡ ok n'
          → (b ≡ true) × (n' ≡ set)
      checked false error set h = cc
      checked true error set h = (refl, cc)

  set_gateway_text-eq-ok :
      (gateway : String) (n : Network d.Address) {n' : Network d.Address}
      → set_gateway_text d gateway n ≡ ok n'
      → (a : d.Address) × (d.make_address gateway ≡ some a) × (n' ≡ record n { gateway = a })
  unfolding set_gateway_text
  set_gateway_text-eq-ok gateway n h =
      let (a, e, h1) = >>=-eq-ok (make d gateway) _ (catch_system-eq-ok _ _ h) in
      (a, make-eq-ok gateway e, cc)

  abbrev made :
      Profile
      → NetworkType
      → (ip mask gateway : d.Address) (vlan : ℕ) (domain_name : String)
        (nameservers : List d.Address)
      → Network d.Address
  made profile kind ip mask gateway vlan domain_name nameservers = record {
    profile = profile;
    kind = kind;
    address = ip;
    subnet_mask = mask;
    gateway = gateway;
    vlan = vlan;
    domain_name = domain_name;
    nameservers = nameservers;
  }

  -- A network that has the given members, each of them valid.
  pub record IsConfigured (profile : Profile) (kind : NetworkType) (ip mask gateway : String)
      (vlan : ℕ) (domain_name : String) (nameservers : List String) (n : Network d.Address)
      : Type 0 where
    pub profile_kept : n.profile ≡ profile
    pub kind_kept : n.kind ≡ kind
    pub address_read : d.make_address ip ≡ some n.address
    pub address_usable : IsHostAddress n.address
    pub mask_read : d.make_address mask ≡ some n.subnet_mask
    pub mask_listed : cidr_contains (d.address_string n.subnet_mask) ≡ true
    pub gateway_read : d.make_address gateway ≡ some n.gateway
    pub vlan_kept : n.vlan ≡ vlan
    pub vlan_small : n.vlan < 4096
    pub domain_name_kept : n.domain_name ≡ domain_name
    pub domain_name_valid : IsDomainName domain_name
    pub nameservers_read : make_all d nameservers ≡ ok n.nameservers

  -- A network that the constructor for given members makes has these members, with an address
  -- other than 0.0.0.0, a listed subnet mask, a VLAN below 4096 and a valid domain name, and the
  -- name servers are exactly those given.
  pub new_configured_network_text-IsConfigured :
      (profile : Profile) (kind : NetworkType) (ip mask gateway : String) (vlan : ℕ)
      (domain_name : String) (nameservers : List String) (n : Network d.Address)
      → new_configured_network_text d profile kind ip mask gateway vlan domain_name nameservers
        ≡ ok n
      → IsConfigured profile kind ip mask gateway vlan domain_name nameservers n
  unfolding new_configured_network_text configured new_network set_nameservers_text set_nameservers
  new_configured_network_text-IsConfigured profile kind ip mask gateway vlan domain_name nameservers
        n h =
      let (n5, e5, h6) =
        >>=-eq-ok (configured d profile kind ip mask gateway vlan domain_name) _ h in
      let (n1, e1, h1) = >>=-eq-ok (set_address_text d ip (new_network d profile kind)) _ e5 in
      let (n2, e2, h2) = >>=-eq-ok (set_subnet_mask_text d mask n1) _ h1 in
      let (n3, e3, h3) = >>=-eq-ok (set_gateway_text d gateway n2) _ h2 in
      let (n4, e4, h4) = >>=-eq-ok (set_vlan vlan n3) _ h3 in
      let (ns, read, h7) = >>=-eq-ok (make_all d nameservers) _ h6 in
      let (a, there, usable, s1) = set_address_text-eq-ok ip (new_network d profile kind) e1 in
      let (m, mask_there, listed, s2) = set_subnet_mask_text-eq-ok mask n1 e2 in
      let (g, gateway_there, s3) = set_gateway_text-eq-ok gateway n2 e3 in
      let (small, s4) = set_vlan-small vlan n3 e4 in
      let (valid, s5) = IsDomainName-set_domain_name domain_name n4 h4 in
      let last : record n5 { nameservers = n5.nameservers ++ ns } ≡ n = cc in
      let steps : n ≡ made profile kind a m g vlan domain_name ns =
        sym last
        ∙ ap (λ (x : Network d.Address). record x { nameservers = x.nameservers ++ ns })
            (s5
              ∙ ap (λ (x : Network d.Address). record x { domain_name = domain_name })
                  (s4
                    ∙ ap (λ (x : Network d.Address). record x { vlan = vlan })
                        (s3
                          ∙ ap (λ (x : Network d.Address). record x { gateway = g })
                              (s2
                                ∙ ap (λ (x : Network d.Address). record x { subnet_mask = m })
                                    s1)))) in
      subst (IsConfigured profile kind ip mask gateway vlan domain_name nameservers) (sym steps)
        (record {
          profile_kept = refl;
          kind_kept = refl;
          address_read = there;
          address_usable = usable;
          mask_read = mask_there;
          mask_listed = listed;
          gateway_read = gateway_there;
          vlan_kept = refl;
          vlan_small = small;
          domain_name_kept = refl;
          domain_name_valid = valid;
          nameservers_read = read;
        })
