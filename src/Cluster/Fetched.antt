-- ===== src/Cluster/Fetched.antt =====
-- The networks that `fillData` of src/models/cluster.cpp makes of the sections of an answerfile.
use opencattus.Base.{
  String, Option, none, some, List, if◌then◌else◌, Result, ok, err, ◌>>=◌, value,
  undefined_behavior,
}
use opencattus.Base.Text.{is_empty}
use opencattus.Enums.{external, management, service, application, ethernet}
use opencattus.Deps.{Deps}
use opencattus.Site.{Site}
use opencattus.AnswerFile.{AfNetwork}
use opencattus.Network.{
  Network, new_network, set_address, set_subnet_mask, set_domain_name, set_nameservers,
  set_nameservers_text,
}
use opencattus.Network.Fetch.{
  fetch_nameservers, fetch_domain_name, fetch_subnet_mask, fetch_gateway, calculate_address,
}

module _ (d : Deps) where
  -- `if (gateway.has_value()) setGateway(gateway.value());`
  abbrev pub gateway_given : Option d.Address → Network d.Address → Network d.Address
  gateway_given none network = network
  gateway_given (some gateway) network = record network { gateway = gateway }

  -- The same for the mask, the domain and the name servers of the application network.
  abbrev pub mask_given : Option d.Address → Network d.Address → Result (Network d.Address)
  mask_given none network = ok network
  mask_given (some mask) network = set_subnet_mask d mask network

  abbrev pub domain_given : Option String → Network d.Address → Result (Network d.Address)
  domain_given none network = ok network
  domain_given (some name) network = set_domain_name name network

  abbrev pub nameservers_given :
      Option (List String) → Network d.Address → Result (Network d.Address)
  nameservers_given none network = ok network
  nameservers_given (some servers) network = set_nameservers_text d servers network

module _ (d : Deps) (site : Site d) where
  -- The value that was given, or else the one that is fetched.
  abbrev pub nameservers_or_fetched :
      Option (List String) → Network d.Address → Result (Network d.Address)
  nameservers_or_fetched (some servers) network = set_nameservers_text d servers network
  nameservers_or_fetched none network = do
    servers ← fetch_nameservers d site
    ok (set_nameservers servers network)

  abbrev pub mask_or_fetched :
      Option d.Address → Option String → Network d.Address → Result (Network d.Address)
  mask_or_fetched (some mask) interface network = set_subnet_mask d mask network
  mask_or_fetched none interface network = do
    name ← value interface
    mask ← fetch_subnet_mask d site name
    set_subnet_mask d mask network

  -- `domain_name->empty()` for the external network reads an optional that may be empty.
  abbrev pub external_domain : Option String → Network d.Address → Result (Network d.Address)
  external_domain none network = err undefined_behavior
  external_domain (some name) network =
      if is_empty name
      then (fetch_domain_name d site >>= λ fetched. set_domain_name fetched network)
      else set_domain_name name network

  abbrev pub service_domain : Option String → Network d.Address → Result (Network d.Address)
  service_domain none network =
      fetch_domain_name d site >>= λ fetched. set_domain_name fetched network
  service_domain (some name) network =
      if is_empty name
      then (fetch_domain_name d site >>= λ fetched. set_domain_name fetched network)
      else set_domain_name name network

  abbrev pub service_gateway : Option d.Address → String → Network d.Address → Network d.Address
  service_gateway none interface network = record network {
    gateway = fetch_gateway d site interface;
  }
  service_gateway (some gateway) interface network = record network { gateway = gateway }

  -- `managementNetwork`
  unfoldable pub management_network : AfNetwork d.Address → Result (Network d.Address)
  management_network section = do
    mask ← value section.subnet_mask
    masked ← set_subnet_mask d mask (new_network d management ethernet)
    name ← value section.domain_name
    named ← set_domain_name name (gateway_given d section.gateway masked)
    served ← nameservers_or_fetched section.nameservers named
    ip ← value section.con_ip_addr
    address ← calculate_address d site served ip
    set_address d address served

  -- `externalNetwork`
  unfoldable pub external_network : AfNetwork d.Address → Result (Network d.Address)
  external_network section = do
    masked ←
        mask_or_fetched section.subnet_mask section.con_interface (new_network d external ethernet)
    named ← external_domain section.domain_name (gateway_given d section.gateway masked)
    nameservers_or_fetched section.nameservers named

  -- `serviceNetwork`, for the name of its interface.
  unfoldable pub service_network : String → AfNetwork d.Address → Result (Network d.Address)
  service_network interface section = do
    masked ← mask_or_fetched section.subnet_mask (some interface) (new_network d service ethernet)
    named ← service_domain section.domain_name (service_gateway section.gateway interface masked)
    nameservers_or_fetched section.nameservers named

  -- `applicationNetwork`
  unfoldable pub application_network : AfNetwork d.Address → Result (Network d.Address)
  application_network section = do
    masked ← mask_given d section.subnet_mask (new_network d application ethernet)
    named ← domain_given d section.domain_name (gateway_given d section.gateway masked)
    nameservers_given d section.nameservers named
