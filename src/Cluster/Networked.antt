-- ===== src/Cluster/Networked.antt =====
-- What the networks that `fillData` of src/models/cluster.cpp makes have of their sections.
use opencattus.Base.{String, ◌≡◌, refl, sym, ap, subst, some, ok, after, value}
use opencattus.Enums.{Profile, external, management, service, application, ethernet}
use opencattus.Deps.{Deps}
use opencattus.Site.{Site}
use opencattus.AnswerFile.{AfNetwork}
use opencattus.Network.{Network, new_network, set_address, set_subnet_mask, set_domain_name}
use opencattus.Network.Configured.{set_address-eq-ok}
use opencattus.Network.Fetch.{calculate_address}
use opencattus.Cluster.Fetched.{
  gateway_given, mask_given, domain_given, nameservers_or_fetched, mask_or_fetched, external_domain,
  service_domain, service_gateway, management_network, external_network, service_network,
  application_network,
}
use opencattus.Cluster.Stepped.{
  value-equal, IsMadeOf, steps-IsMadeOf, set_domain_name-Names, set_subnet_mask-Masks,
  gateway_given-Gates, mask_given-Masks, domain_given-Names, nameservers_given-Serves,
  nameservers_or-Serves, mask_or-Masks, external_domain-Names, service_domain-Names,
  service_gateway-Gates,
}

module _ (d : Deps) (site : Site d) where
  -- A network of the profile that was made of the section.
  abbrev pub IsNetworkOf : Profile → AfNetwork d.Address → Network d.Address → Type 0
  IsNetworkOf profile section n =
      IsMadeOf profile section.subnet_mask section.gateway section.domain_name n

  moved-IsNetworkOf :
      (profile : Profile) (section : AfNetwork d.Address) (address : d.Address)
      (n : Network d.Address) {n' : Network d.Address}
      → set_address d address n ≡ ok n'
      → IsNetworkOf profile section n
      → IsNetworkOf profile section n'
  moved-IsNetworkOf profile section address n h is =
      subst (IsNetworkOf profile section) (sym (set_address-eq-ok d address n h).1)
        (record { profiled = is.profiled; masked = is.masked; gated = is.gated; named = is.named })

  pub management-IsNetworkOf :
      (section : AfNetwork d.Address) {n : Network d.Address}
      → management_network d site section ≡ ok n
      → IsNetworkOf management section n
  unfolding management_network new_network
  management-IsNetworkOf section h = after (value section.subnet_mask) _ h λ mask e1 h1.
      after (set_subnet_mask d mask (new_network d management ethernet)) _ h1 λ masked e2 h2.
        after (value section.domain_name) _ h2 λ name e3 h3.
          after (set_domain_name name (gateway_given d section.gateway masked)) _ h3 λ named e4 h4.
            after (nameservers_or_fetched d site section.nameservers named) _ h4 λ served e5 h5.
              after (value section.con_ip_addr) _ h5 λ ip e6 h6.
                after (calculate_address d site served ip) _ h6 λ address e7 h7.
                  let (m, mask_set) = set_subnet_mask-Masks d mask _ e2 in
                  let (k, name_set) = set_domain_name-Names name _ e4 in
                  moved-IsNetworkOf management section address served h7 (
                    steps-IsMadeOf management section.subnet_mask section.gateway
                      section.domain_name (new_network d management ethernet) masked
                      (gateway_given d section.gateway masked) named served refl
                      (m, λ a e. mask_set a (ap some (value-equal section.subnet_mask e1 e)))
                      (gateway_given-Gates d section.gateway masked)
                      (k, λ s e. name_set s (ap some (value-equal section.domain_name e3 e)))
                      (nameservers_or-Serves d site section.nameservers named e5))

  pub external-IsNetworkOf :
      (section : AfNetwork d.Address) {n : Network d.Address}
      → external_network d site section ≡ ok n
      → IsNetworkOf external section n
  unfolding external_network new_network
  external-IsNetworkOf section h =
      after
        (mask_or_fetched d site section.subnet_mask section.con_interface
          (new_network d external ethernet))
        _ h
        λ masked e1 h1.
          after
            (external_domain d site section.domain_name (gateway_given d section.gateway masked)) _
            h1
            λ named e2 h2.
              steps-IsMadeOf external section.subnet_mask section.gateway section.domain_name
                (new_network d external ethernet) masked (gateway_given d section.gateway masked)
                named _ refl (mask_or-Masks d site section.subnet_mask section.con_interface _ e1)
                (gateway_given-Gates d section.gateway masked)
                (external_domain-Names d site section.domain_name _ e2)
                (nameservers_or-Serves d site section.nameservers named h2)

  pub service-IsNetworkOf :
      (interface : String) (section : AfNetwork d.Address) {n : Network d.Address}
      → service_network d site interface section ≡ ok n
      → IsNetworkOf service section n
  unfolding service_network new_network
  service-IsNetworkOf interface section h =
      after
        (mask_or_fetched d site section.subnet_mask (some interface)
          (new_network d service ethernet))
        _ h
        λ masked e1 h1.
          after
            (service_domain d site section.domain_name
              (service_gateway d site section.gateway interface masked))
            _ h1
            λ named e2 h2.
              steps-IsMadeOf service section.subnet_mask section.gateway section.domain_name
                (new_network d service ethernet) masked
                (service_gateway d site section.gateway interface masked) named _ refl
                (mask_or-Masks d site section.subnet_mask (some interface) _ e1)
                (service_gateway-Gates d site section.gateway interface masked)
                (service_domain-Names d site section.domain_name _ e2)
                (nameservers_or-Serves d site section.nameservers named h2)

  pub application-IsNetworkOf :
      (section : AfNetwork d.Address) {n : Network d.Address}
      → application_network d site section ≡ ok n
      → IsNetworkOf application section n
  unfolding application_network new_network
  application-IsNetworkOf section h =
      after (mask_given d section.subnet_mask (new_network d application ethernet)) _ h
        λ masked e1 h1.
          after (domain_given d section.domain_name (gateway_given d section.gateway masked)) _ h1
            λ named e2 h2.
              steps-IsMadeOf application section.subnet_mask section.gateway section.domain_name
                (new_network d application ethernet) masked (gateway_given d section.gateway masked)
                named _ refl (mask_given-Masks d section.subnet_mask _ e1)
                (gateway_given-Gates d section.gateway masked)
                (domain_given-Names d section.domain_name _ e2)
                (nameservers_given-Serves d section.nameservers named h2)
