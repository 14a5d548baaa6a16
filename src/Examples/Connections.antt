-- ===== src/Examples/Connections.antt =====
-- Networks and connections at concrete values.
use opencattus.Base.{◌≡◌, refl, ◌↔◌, true, some, [], ◌∷◌, ok}
use opencattus.Base.Text.{lower}
use opencattus.Deps.Assoc.{assoc}
use opencattus.Enums.{management, application, ethernet, infiniband}
use opencattus.Network.Cidr.{cidr, cidr_contains}
use opencattus.Network.{
  Network, new_network, set_vlan, set_domain_name, set_nameservers, set_address, set_address_text,
  set_subnet_mask, set_subnet_mask_text, set_gateway_text, make_all, set_nameservers_text,
  configured, new_configured_network_text,
}
use opencattus.Network.Configured.{
  IsDomainName, set_domain_name-ok_iff, IsConfigured, new_configured_network_text-IsConfigured,
}
use opencattus.Connection
use opencattus.Connection.{
  Connection, validate_mac, set_hostname, set_interface, set_mac, set_mtu,
  new_configured_connection, NetworkRef,
}
use opencattus.Connection.Formats.{IsMac, validate_mac-ok_iff, IsHostname, set_hostname-ok_iff}
use opencattus.Connection.Configured.{IsConnected, new_configured_connection-IsConnected}

abbrev network : Network assoc.Address
network = record {
  profile = management;
  kind = ethernet;
  address = "172.26.0.1";
  subnet_mask = "255.255.0.0";
  gateway = "0.0.0.0";
  vlan = 100;
  domain_name = "cattus.local";
  nameservers = "1.1.1.1" ∷ [];
}

set_domain_name-ok_iff_example :
    (set_domain_name "cattus.local" network ≡ ok (record network { domain_name = "cattus.local" }))
    ↔ IsDomainName "cattus.local"
set_domain_name-ok_iff_example = set_domain_name-ok_iff "cattus.local" network

network_made :
    new_configured_network_text assoc management ethernet "172.26.0.1" "255.255.0.0" "0.0.0.0" 100
      "cattus.local"
      ("1.1.1.1" ∷ [])
    ≡ ok network
unfolding new_configured_network_text configured new_network set_vlan set_domain_name
    set_nameservers set_address set_address_text set_subnet_mask set_subnet_mask_text
    set_gateway_text make_all set_nameservers_text cidr cidr_contains
network_made = refl

new_configured_network_text-IsConfigured_example :
    IsConfigured assoc management ethernet "172.26.0.1" "255.255.0.0" "0.0.0.0" 100 "cattus.local"
      ("1.1.1.1" ∷ [])
      network
new_configured_network_text-IsConfigured_example =
    new_configured_network_text-IsConfigured assoc management ethernet "172.26.0.1" "255.255.0.0"
      "0.0.0.0" 100 "cattus.local" ("1.1.1.1" ∷ []) network network_made

validate_mac-ok_iff_example :
    (validate_mac "52:54:00:AB:cd:01" ≡ ok true) ↔ IsMac "52:54:00:AB:cd:01"
validate_mac-ok_iff_example = validate_mac-ok_iff "52:54:00:AB:cd:01"

-- The pointer to the third network.
abbrev third : NetworkRef
third = record { place = 2; profile = application; kind = infiniband }

abbrev connection : Connection assoc.Address
connection = record {
  network = third;
  interface = some "ib0";
  mac = some "5254.00ab.cd01";
  address = "10.149.0.1";
  mtu = 2044;
  hostname = "";
  fqdn = "";
}

set_hostname-ok_iff_example :
    (set_hostname "head-01" connection ≡ ok (record connection { hostname = "head-01" }))
    ↔ IsHostname "head-01"
set_hostname-ok_iff_example = set_hostname-ok_iff "head-01" connection

connection_made :
    new_configured_connection assoc true
      ("lo" ∷ "ib0" ∷ [])
      third
      (some "ib0")
      (some "5254.00AB.CD01")
      "10.149.0.1"
    ≡ ok connection
unfolding new_configured_connection set_interface set_mac validate_mac lower set_mtu
    opencattus.Connection.set_address opencattus.Connection.set_address_text
connection_made = refl

new_configured_connection-IsConnected_example :
    IsConnected assoc true
      ("lo" ∷ "ib0" ∷ [])
      third
      (some "ib0")
      (some "5254.00AB.CD01")
      "10.149.0.1"
      connection
new_configured_connection-IsConnected_example =
    new_configured_connection-IsConnected assoc true ("lo" ∷ "ib0" ∷ []) third (some "ib0")
      (some "5254.00AB.CD01") "10.149.0.1" connection connection_made
