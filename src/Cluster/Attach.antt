-- ===== src/Cluster/Attach.antt =====
-- The connections of the head node that `fillData` of src/models/cluster.cpp makes: a network is
-- added to the cluster, and a connection to it to the head node.
use opencattus.Base.{
  String, Option, none, some, if◌then◌else◌, Result, ok, err, ◌>>=◌, value, undefined_behavior,
}
use opencattus.Base.Text.{is_empty}
use opencattus.Enums.{Profile, external, management, service, application}
use opencattus.Deps.{Deps}
use opencattus.Site.{Site}
use opencattus.AnswerFile.{AfNetwork}
use opencattus.Network.{Network}
use opencattus.Network as network
use opencattus.Network.Fetch.{fetch_address, calculate_address}
use opencattus.Connection.{Connection, new_connection, set_interface, set_mac, set_address}
use opencattus.Machine.{add_connection}
use opencattus.Cluster.{Cluster}
use opencattus.Cluster.Networks.{get_network, network_pointer, add_network, update_network}
use opencattus.Cluster.Fetched.{service_network, application_network}

-- `if (!con_mac_addr->empty()) setMAC(con_mac_addr.value());`
abbrev pub mac_unless_empty :
    {Address : Type 0} → Option String → Connection Address → Result (Connection Address)
mac_unless_empty none connection = err undefined_behavior
mac_unless_empty (some mac) connection =
    if is_empty mac then ok connection else set_mac mac connection

module _ (d : Deps) (site : Site d) where
  -- `Connection(&getNetwork(profile))`
  abbrev pub connect : Profile → Cluster d.Address → Result (Connection d.Address)
  connect profile cluster = do network ← network_pointer profile cluster; new_connection d network

  -- `getNetwork(profile).setAddress(getNetwork(profile).calculateAddress(ip))`
  unfoldable pub address_network :
      Profile → d.Address → Cluster d.Address → Result (Cluster d.Address)
  address_network profile ip cluster = do
    found ← get_network profile cluster
    address ← calculate_address d site found ip
    changed ← network.set_address d address found
    ok (record cluster { networks = update_network profile changed cluster.networks })

  -- `getHeadnode().addConnection(connection)`
  abbrev pub attach : Connection d.Address → Cluster d.Address → Cluster d.Address
  attach connection cluster = record cluster {
    headnode = add_connection connection cluster.headnode;
  }

  unfoldable pub attach_management :
      Network d.Address → AfNetwork d.Address → Cluster d.Address → Result (Cluster d.Address)
  attach_management made section cluster = do
    let grown = add_network made cluster
    blank ← connect management grown
    interface ← value section.con_interface
    wired ← set_interface site.release site.interfaces interface blank
    ip ← value section.con_ip_addr
    addressed ← set_address d ip wired
    done ← mac_unless_empty section.con_mac_addr addressed
    ok (attach done grown)

  -- The address in the section, or else that of the interface.
  abbrev pub ip_or_fetched : Option d.Address → String → Result d.Address
  ip_or_fetched (some ip) interface = ok ip
  ip_or_fetched none interface = fetch_address d site interface

  unfoldable pub attach_external :
      Network d.Address → AfNetwork d.Address → Cluster d.Address → Result (Cluster d.Address)
  unfolding address_network
  attach_external made section cluster = do
    let grown = add_network made cluster
    blank ← connect external grown
    interface ← value section.con_interface
    wired ← set_interface site.release site.interfaces interface blank
    ip ← ip_or_fetched section.con_ip_addr interface
    addressed ← set_address d ip wired
    known ← address_network external ip grown
    done ← mac_unless_empty section.con_mac_addr addressed
    ok (attach done known)

  -- The service and the application connection, behind their networks.
  unfoldable pub attach_behind :
      Profile
      → Network d.Address
      → String
      → AfNetwork d.Address
      → Cluster d.Address
      → Result (Cluster d.Address)
  unfolding address_network
  attach_behind profile made interface section cluster = do
    let grown = add_network made cluster
    blank ← connect profile grown
    marked ← mac_unless_empty section.con_mac_addr blank
    wired ← set_interface site.release site.interfaces interface marked
    ip ← value section.con_ip_addr
    done ← set_address d ip wired
    known ← address_network profile ip grown
    ok (attach done known)

  -- The service network is there where its interface is.
  abbrev pub attach_service_on :
      Option String → AfNetwork d.Address → Cluster d.Address → Result (Cluster d.Address)
  attach_service_on none section cluster = ok cluster
  attach_service_on (some interface) section cluster = do
    made ← service_network d site interface section
    attach_behind service made interface section cluster

  abbrev pub attach_application_on :
      Option String → AfNetwork d.Address → Cluster d.Address → Result (Cluster d.Address)
  attach_application_on none section cluster = ok cluster
  attach_application_on (some interface) section cluster = do
    made ← application_network d site section
    attach_behind application made interface section cluster
