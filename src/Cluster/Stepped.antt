-- ===== src/Cluster/Stepped.antt =====
-- What the steps by which `fillData` of src/models/cluster.cpp makes a network change of it.
use opencattus.Base.{
  String, ◌≡◌, refl, sym, ap, ◌∙◌, subst, Bool, true, false, Option, none, some, List,
  if◌then◌else◌, ok, ◌>>=◌, after, value, arith,
}
use opencattus.Base.Text.{is_empty}
use opencattus.Enums.{Profile}
use opencattus.Deps.{Deps}
use opencattus.Site.{Site}
use opencattus.Network.{
  Network, set_subnet_mask, set_domain_name, set_nameservers, set_nameservers_text, make_all,
}
use opencattus.Network.Fetch.{fetch_nameservers, fetch_domain_name, fetch_subnet_mask}
use opencattus.Cluster.Fetched.{
  gateway_given, mask_given, domain_given, nameservers_given, nameservers_or_fetched,
  mask_or_fetched, external_domain, service_domain, service_gateway,
}

pub value-equal : {A : Type 0} (o : Option A) {a b : A} → value o ≡ ok a → o ≡ some b → a ≡ b
value-equal none h e = cc
value-equal (some a) h e = cc

-- A network of the profile, with the mask, the gateway and the domain of the section where the
-- section has them.
pub record IsMadeOf {Address : Type 0} (profile : Profile) (mask gateway : Option Address)
    (domain : Option String) (n : Network Address) : Type 0 where
  pub profiled : n.profile ≡ profile
  pub masked : (a : Address) → mask ≡ some a → n.subnet_mask ≡ a
  pub gated : (a : Address) → gateway ≡ some a → n.gateway ≡ a
  pub named : (s : String) → domain ≡ some s → is_empty s ≡ false → n.domain_name ≡ s

module _ {Address : Type 0} where
  -- A step that changes the mask only, and sets one that is given.
  abbrev Masks : Option Address → Network Address → Network Address → Type 0
  Masks mask n n' =
      (n' ≡ record n { subnet_mask = n'.subnet_mask })
      × ((a : Address) → mask ≡ some a → n'.subnet_mask ≡ a)

  abbrev Gates : Option Address → Network Address → Network Address → Type 0
  Gates gateway n n' =
      (n' ≡ record n { gateway = n'.gateway }) × ((a : Address) → gateway ≡ some a → n'.gateway ≡ a)

  abbrev Names : Option String → Network Address → Network Address → Type 0
  Names domain n n' =
      (n' ≡ record n { domain_name = n'.domain_name })
      × ((s : String) → domain ≡ some s → is_empty s ≡ false → n'.domain_name ≡ s)

  abbrev Serves : Network Address → Network Address → Type 0
  Serves n n' = n' ≡ record n { nameservers = n'.nameservers }

  -- The four steps from a blank network of a profile.
  pub steps-IsMadeOf :
      (profile : Profile) (mask gateway : Option Address) (domain : Option String)
      (blank masked gated named served : Network Address)
      → blank.profile ≡ profile
      → Masks mask blank masked
      → Gates gateway masked gated
      → Names domain gated named
      → Serves named served
      → IsMadeOf profile mask gateway domain served
  steps-IsMadeOf profile mask gateway domain blank masked gated named served p (m, mask_set)
        (g, gateway_set) (n, domain_set) s =
      record {
        profiled =
            ap (λ x. x.profile) s
            ∙ ap (λ x. x.profile) n
            ∙ ap (λ x. x.profile) g
            ∙ ap (λ x. x.profile) m
            ∙ p;
        masked = λ a e.
            ap (λ x. x.subnet_mask) s
            ∙ ap (λ x. x.subnet_mask) n
            ∙ ap (λ x. x.subnet_mask) g
            ∙ mask_set a e;
        gated = λ a e. ap (λ x. x.gateway) s ∙ ap (λ x. x.gateway) n ∙ gateway_set a e;
        named = λ a e f. ap (λ x. x.domain_name) s ∙ domain_set a e f;
      }

  set_domain_name-eq-ok :
      (name : String) (n : Network Address) {n' : Network Address}
      → set_domain_name name n ≡ ok n'
      → n' ≡ record n { domain_name = name }
  unfolding set_domain_name
  set_domain_name-eq-ok name n h = ground arith

  pub set_domain_name-Names :
      (name : String) (n : Network Address) {n' : Network Address}
      → set_domain_name name n ≡ ok n'
      → Names (some name) n n'
  set_domain_name-Names name n {n'} h =
      subst (λ x. Names (some name) n x) (sym (set_domain_name-eq-ok name n h)) (refl, λ s e f. cc)

  renamed :
      (o : Option String) (name : String) (n : Network Address) {n' : Network Address}
      → ((s : String) → o ≡ some s → is_empty s ≡ false → ⊥)
      → set_domain_name name n ≡ ok n'
      → Names o n n'
  renamed o name n {n'} unnamed h =
      subst (λ x. Names o n x) (sym (set_domain_name-eq-ok name n h))
        (refl, λ s e f. absurd (unnamed s e f))

module _ (d : Deps) where
  pub set_subnet_mask-Masks :
      (mask : d.Address) (n : Network d.Address) {n' : Network d.Address}
      → set_subnet_mask d mask n ≡ ok n'
      → Masks (some mask) n n'
  unfolding set_subnet_mask
  set_subnet_mask-Masks mask n {n'} h =
      let same : n' ≡ record n { subnet_mask = mask } = ground arith in
      subst (λ x. Masks (some mask) n x) (sym same) (refl, λ a e. cc)

  pub nameservers_text-Serves :
      (servers : List String) (n : Network d.Address) {n' : Network d.Address}
      → set_nameservers_text d servers n ≡ ok n'
      → Serves n n'
  unfolding set_nameservers_text set_nameservers
  nameservers_text-Serves servers n {n'} h = after (make_all d servers) _ h λ addresses e h1.
      let same : set_nameservers addresses n ≡ n' = cc in subst (λ x. Serves n x) same refl

  pub gateway_given-Gates :
      (gateway : Option d.Address) (n : Network d.Address)
      → Gates gateway n (gateway_given d gateway n)
  gateway_given-Gates none n = (refl, λ a e. cc)
  gateway_given-Gates (some g) n = (refl, λ a e. cc)

  pub same-Masks : (n : Network d.Address) → Masks none n n
  same-Masks n = (refl, λ a e. cc)

  pub mask_given-Masks :
      (mask : Option d.Address) (n : Network d.Address) {n' : Network d.Address}
      → mask_given d mask n ≡ ok n'
      → Masks mask n n'
  mask_given-Masks none n {n'} h =
      let same : n ≡ n' = cc in subst (λ x. Masks none n x) same (same-Masks n)
  mask_given-Masks (some mask) n h = set_subnet_mask-Masks mask n h

  pub domain_given-Names :
      (name : Option String) (n : Network d.Address) {n' : Network d.Address}
      → domain_given d name n ≡ ok n'
      → Names name n n'
  domain_given-Names none n {n'} h =
      let same : n ≡ n' = cc in subst (λ x. Names none n x) same (refl, λ s e f. cc)
  domain_given-Names (some name) n h = set_domain_name-Names name n h

  pub nameservers_given-Serves :
      (servers : Option (List String)) (n : Network d.Address) {n' : Network d.Address}
      → nameservers_given d servers n ≡ ok n'
      → Serves n n'
  nameservers_given-Serves none n {n'} h =
      let same : n ≡ n' = cc in subst (λ x. Serves n x) same refl
  nameservers_given-Serves (some servers) n h = nameservers_text-Serves servers n h

module _ (d : Deps) (site : Site d) where
  pub nameservers_or-Serves :
      (servers : Option (List String)) (n : Network d.Address) {n' : Network d.Address}
      → nameservers_or_fetched d site servers n ≡ ok n'
      → Serves n n'
  unfolding set_nameservers
  nameservers_or-Serves none n {n'} h = after (fetch_nameservers d site) _ h λ servers e h1.
      let same : set_nameservers servers n ≡ n' = cc in subst (λ x. Serves n x) same refl
  nameservers_or-Serves (some servers) n h = nameservers_text-Serves d servers n h

  pub mask_or-Masks :
      (mask : Option d.Address) (interface : Option String) (n : Network d.Address)
      {n' : Network d.Address}
      → mask_or_fetched d site mask interface n ≡ ok n'
      → Masks mask n n'
  mask_or-Masks none interface n h = after (value interface) _ h λ name e h1.
      after (fetch_subnet_mask d site name) _ h1
        λ mask e' h2. ((set_subnet_mask-Masks d mask n h2).0, λ a k. cc)
  mask_or-Masks (some mask) interface n h = set_subnet_mask-Masks d mask n h

  pub fetched_domain-Names :
      (o : Option String) (n : Network d.Address) {n' : Network d.Address}
      → ((s : String) → o ≡ some s → is_empty s ≡ false → ⊥)
      → (fetch_domain_name d site >>= λ fetched. set_domain_name fetched n) ≡ ok n'
      → Names o n n'
  fetched_domain-Names o n unnamed h =
      after (fetch_domain_name d site) _ h λ name e h1. renamed o name n unnamed h1

  pub named_domain-Names :
      (b : Bool) (name : String) (n : Network d.Address) {n' : Network d.Address}
      → is_empty name ≡ b
      → (if b
          then (fetch_domain_name d site >>= λ fetched. set_domain_name fetched n)
          else set_domain_name name n)
        ≡ ok n'
      → Names (some name) n n'
  named_domain-Names true name n e h = fetched_domain-Names (some name) n (λ s k f. cc) h
  named_domain-Names false name n e h = set_domain_name-Names name n h

  pub external_domain-Names :
      (name : Option String) (n : Network d.Address) {n' : Network d.Address}
      → external_domain d site name n ≡ ok n'
      → Names name n n'
  external_domain-Names none n h = cc
  external_domain-Names (some name) n h = named_domain-Names (is_empty name) name n refl h

  pub service_domain-Names :
      (name : Option String) (n : Network d.Address) {n' : Network d.Address}
      → service_domain d site name n ≡ ok n'
      → Names name n n'
  service_domain-Names none n h = fetched_domain-Names none n (λ s k f. cc) h
  service_domain-Names (some name) n h = named_domain-Names (is_empty name) name n refl h

  pub service_gateway-Gates :
      (gateway : Option d.Address) (interface : String) (n : Network d.Address)
      → Gates gateway n (service_gateway d site gateway interface n)
  service_gateway-Gates none interface n = (refl, λ a e. cc)
  service_gateway-Gates (some g) interface n = (refl, λ a e. cc)
