-- ===== src/Network/Fetch.antt =====
-- The values that src/network.cpp reads off the running system, and the address of a network
-- behind the address of a machine in it (`calculateAddress`). The trace lines are left out.
use opencattus.Base.{
  String, Option, none, some, List, [], ◌∷◌, if◌then◌else◌, str_eq, bit_and, Result, ok, err, ◌>>=◌,
  or_throw, runtime_error, says, about,
}
use opencattus.Deps.{Deps}
use opencattus.Site.{Site}
use opencattus.Network.{Network, make}
use opencattus.Network.Routes.{fetch_route_gateway, fetch_device_gateway}

module _ (d : Deps) (site : Site d) where
  -- The addresses but those that print as "0.0.0.0".
  abbrev pub specified : List d.Address → List d.Address
  specified [] = []
  specified (a ∷ as_) =
      let rest = specified as_ in if str_eq (d.address_string a) "0.0.0.0" then rest else a ∷ rest

  -- `Network::fetchNameservers`
  unfoldable pub fetch_nameservers : Result (List d.Address)
  fetch_nameservers = do
    servers ←
        or_throw site.resolver (runtime_error (says "Failed to initialize domain name resolution"))
    ok (specified servers)

  -- `Network::fetchDomainName`
  unfoldable pub fetch_domain_name : Result String
  fetch_domain_name = do
    name ← or_throw site.getdomainname (runtime_error (says "Failed to fetch domain name"))
    ok (if str_eq name "(none)" then "" else name)

  -- `Network::fetchSubnetMask`; the message is that of an interface with no mask.
  unfoldable pub fetch_subnet_mask : String → Result d.Address
  fetch_subnet_mask interface =
      or_throw (site.interface_mask interface)
        (runtime_error (about "Interface does not have a netmask address defined" interface))

  abbrev or_unspecified : Option d.Address → d.Address
  or_unspecified none = d.unspecified
  or_unspecified (some found) = found

  -- `Connection::fetchAddress`: its last `throw` stands behind a `return`, so an interface with no
  -- address has the unspecified one.
  unfoldable pub fetch_address : String → Result d.Address
  fetch_address interface = do found ← site.interface_address interface; ok (or_unspecified found)

  abbrev first_gateway : Option d.Address → Option d.Address → d.Address
  first_gateway (some gateway) dhcp = gateway
  first_gateway none (some gateway) = gateway
  first_gateway none none = d.unspecified

  -- `Network::fetchGateway`
  unfoldable pub fetch_gateway : String → d.Address
  fetch_gateway interface =
      first_gateway (fetch_route_gateway d site interface) (fetch_device_gateway d site interface)

  -- `Network::calculateAddress`
  unfoldable pub calculate_address : Network d.Address → d.Address → Result d.Address
  calculate_address network ip =
      if d.is_unspecified network.subnet_mask
      then err (
          runtime_error (says "Network must have a specified subnet mask to calculate the address"))
      else make d (
          site.inet_ntoa (
            bit_and (site.inet_aton (d.address_string ip))
              (site.inet_aton (d.address_string network.subnet_mask))))
