-- ===== src/Machine.antt =====
-- A machine of the cluster: src/models/server.cpp, src/models/node.cpp and src/services/bmc.cpp.
-- A connection points to a network of the cluster; it is kept here with the profile of that
-- network, by which `Cluster::getNetwork` finds it.
pub mod Topology
pub mod Names
pub mod Accepting
pub mod Named
use opencattus.Base.{
  ℕ, String, ◌≡◌, Bool, true, false, ◌&&◌, not, Option, none, some, List, [], ◌∷◌, ◌++◌,
  if◌then◌else◌, str_eq, Result, ok, err, ◌>>=◌, runtime_error, says, about,
}
use opencattus.Base.Text.{◌<>◌, lower, is_empty}
use opencattus.Enums.{Profile, external, management, service, application, NetworkType}
use opencattus.Deps.{Deps}
use opencattus.Os.{Os}
use opencattus.Connection.{Connection, NetworkRef, new_connection, new_configured_connection}
use opencattus.Machine.Topology.{Cpu, blank_cpu}

-- The members of struct BMC; its kind is always IPMI.
pub record Bmc : Type 0 where
  pub address : String
  pub username : String
  pub password : String
  pub serial_port : ℕ
  pub serial_speed : ℕ

-- `BMC::BMC`
abbrev pub blank_bmc : Bmc
blank_bmc = record {
  address = "";
  username = "";
  password = "";
  serial_port = 0;
  serial_speed = 115200;
}

-- The members of class Server.
pub record Server (Address : Type 0) : Type 0 where
  pub hostname : String
  pub os : Os
  pub cpu : Cpu
  pub connections : List (Connection Address)
  pub bmc : Option Bmc
  pub fqdn : String

-- The members of class Node.
pub record Node (Address : Type 0) : Type 0 where
  pub server : Server Address
  pub prefix : Option String
  pub padding : Option ℕ
  pub node_start_ip : Option Address
  pub mac_address : String
  pub node_root_password : Option String

-- `==` on Network::Profile
abbrev pub same_profile : Profile → Profile → Bool
same_profile external external = true
same_profile management management = true
same_profile service service = true
same_profile application application = true
same_profile _ _ = false

abbrev pub profile_name : Profile → String
profile_name external = "External"
profile_name management = "Management"
profile_name service = "Service"
profile_name application = "Application"

module _ {Address : Type 0} where
  -- `Server::Server()` over a system.
  abbrev pub blank_server : Os → Server Address
  blank_server os = record {
    hostname = "";
    os = os;
    cpu = blank_cpu;
    connections = [];
    bmc = none;
    fqdn = "";
  }

  -- `Server::Server` for given members.
  unfoldable pub new_server :
      String → Os → Cpu → List (Connection Address) → Option Bmc → Server Address
  new_server hostname os cpu connections bmc = record {
    hostname = hostname;
    os = os;
    cpu = cpu;
    connections = connections;
    bmc = bmc;
    fqdn = "";
  }

  -- `Node::Node()` over a system.
  abbrev pub blank_node : Os → Node Address
  blank_node os = record {
    server = blank_server os;
    prefix = none;
    padding = none;
    node_start_ip = none;
    mac_address = "";
    node_root_password = none;
  }

  -- `Node::Node` for given members.
  unfoldable pub new_node :
      String → Os → Cpu → List (Connection Address) → Option Bmc → Node Address
  unfolding new_server
  new_node hostname os cpu connections bmc = record (blank_node os) {
    server = new_server hostname os cpu connections bmc;
  }

  -- `Node::setMACAddress`
  abbrev pub set_mac_address : String → Node Address → Node Address
  set_mac_address mac node = record node { mac_address = lower mac }

  find_connection : Profile → List (Connection Address) → Option (Connection Address)
  find_connection profile [] = none
  find_connection profile (connection ∷ connections) =
      if same_profile connection.network.profile profile
      then some connection
      else find_connection profile connections

  abbrev or_no_connection : Profile → Option (Connection Address) → Result (Connection Address)
  or_no_connection profile none =
      err (runtime_error (about "Cannot get any connection with profile" (profile_name profile)))
  or_no_connection profile (some connection) = ok connection

  -- `Server::getConnection`
  unfoldable pub get_connection : Profile → Server Address → Result (Connection Address)
  unfolding find_connection
  get_connection profile server =
      or_no_connection profile (find_connection profile server.connections)

  -- `Server::addConnection` for a connection.
  abbrev pub add_connection : Connection Address → Server Address → Server Address
  add_connection connection server = record server {
    connections = server.connections ++ (connection ∷ []);
  }

module _ (d : Deps) where
  -- `Server::addConnection` for a network.
  unfoldable pub add_new_connection : NetworkRef → Server d.Address → Result (Server d.Address)
  add_new_connection network server = do
    connection ← new_connection d network
    ok (add_connection connection server)

  -- `Server::addConnection` for a network and the members of the connection.
  unfoldable pub add_configured_connection :
      Bool
      → List String
      → NetworkRef
      → Option String
      → String
      → String
      → Server d.Address
      → Result (Server d.Address)
  add_configured_connection release interfaces network interface mac ip server = do
    connection ← new_configured_connection d release interfaces network interface (some mac) ip
    ok (add_connection connection server)
