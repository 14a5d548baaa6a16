-- ===== src/Cluster/Nodes.antt =====
-- The loop over the nodes in `fillData` of src/models/cluster.cpp.
pub mod Filled
pub mod Returning
pub mod Dumped
use opencattus.Base.{
  ℕ, String, ◌≡◌, Bool, true, false, Option, none, some, List, [], ◌∷◌, if◌then◌else◌, Result, ok,
  err, ◌>>=◌, value, Message, Error, answerfile_invalid, invalid_argument, about,
}
use opencattus.Base.Text.{is_empty, lower}
use opencattus.Base.Stoul.{stoul}
use opencattus.Enums.{management}
use opencattus.Deps.{Deps}
use opencattus.Site.{Site}
use opencattus.AnswerFile.{AfNode}
use opencattus.Os.{Os}
use opencattus.Os.Probe.{host_os}
use opencattus.Connection.{Connection, validate_mac, set_mac, set_address}
use opencattus.Machine.{Bmc, Node, blank_node, blank_bmc, set_mac_address}
use opencattus.Machine.Topology as topology
use opencattus.Cluster.{Cluster, add_node}
use opencattus.Cluster.Attach.{connect}

-- `catch (std::invalid_argument&)`, which throws another class.
abbrev pub catch_invalid : Error → Result ℕ → Result ℕ
catch_invalid e (ok n) = ok n
catch_invalid e (err (invalid_argument m)) = err e
catch_invalid e (err other) = err other

-- `convertOrError`; the message keeps the name of the field and the value.
unfoldable pub convert_or_error : String → String → Result ℕ
convert_or_error field written =
    catch_invalid (answerfile_invalid (about field written)) (stoul written)

-- `CONVERT_OR_ERROR`
abbrev pub convert_field : String → Option String → Result ℕ
convert_field field written = do text ← value written; convert_or_error field text

-- An unexpected value is thrown on as another class.
abbrev pub accept_mac : String → String → Result Bool → Result String
accept_mac mac name (ok valid) = ok (lower mac)
accept_mac mac name (err e) = err (answerfile_invalid (about "Error decoding MAC address" name))

-- The MAC address as `setMACAddress` keeps it.
unfoldable pub fill_mac : String → Option String → Result String
fill_mac name none = err (answerfile_invalid (about "Missing MAC address on node" name))
fill_mac name (some mac) = accept_mac mac name (validate_mac mac)

abbrev missing_field : String → Result String
missing_field field = err (invalid_argument (about "BMC address but is missing" field))

-- `requireBMCField`
unfoldable pub require_bmc_field : String → Option String → Result String
require_bmc_field field none = missing_field field
require_bmc_field field (some written) =
    if is_empty written then missing_field field else ok written

-- `CPU newNodeCPU`, of which three members are set.
abbrev pub node_cpu : ℕ → ℕ → ℕ → topology.Cpu
node_cpu sockets cores threads = record topology.blank_cpu {
  sockets = sockets;
  cores_per_socket = cores;
  threads_per_core = threads;
}

module _ {Address : Type 0} where
  abbrev pub fill_bmc_fields : AfNode Address → Result (Option Bmc)
  fill_bmc_fields node = do
    address ← require_bmc_field "bmc_address" node.bmc_address
    username ← require_bmc_field "bmc_username" node.bmc_username
    password ← require_bmc_field "bmc_password" node.bmc_password
    port_text ← require_bmc_field "bmc_serialport" node.bmc_serialport
    port ← convert_or_error "bmc_serialport" port_text
    speed_text ← require_bmc_field "bmc_serialspeed" node.bmc_serialspeed
    speed ← convert_or_error "bmc_serialspeed" speed_text
    ok (
        some (record blank_bmc {
          address = address;
          username = username;
          password = password;
          serial_port = port;
          serial_speed = speed;
        }))

  -- The controller of a node, where it has a nonempty address.
  abbrev pub fill_bmc_at : Option String → AfNode Address → Result (Option Bmc)
  fill_bmc_at none node = ok none
  fill_bmc_at (some address) node = if is_empty address then ok none else fill_bmc_fields node

  unfoldable pub fill_bmc : AfNode Address → Result (Option Bmc)
  fill_bmc node = fill_bmc_at node.bmc_address node

  -- `newNode` behind its setters.
  abbrev pub made_node :
      Os
      → Os
      → String
      → Address
      → String
      → String
      → topology.Cpu
      → Option Bmc
      → Connection Address
      → Node Address
  made_node node_os probed name start mac password cpu bmc connection = record (blank_node probed) {
    server = record {
      hostname = name;
      os = node_os;
      cpu = cpu;
      connections = connection ∷ [];
      bmc = bmc;
      fqdn = "";
    };
    node_start_ip = some start;
    mac_address = mac;
    node_root_password = some password;
  }

module _ (d : Deps) (site : Site d) where
  -- One round: the node that `addNode` takes.
  unfoldable pub fill_node : Os → Cluster d.Address → AfNode d.Address → Result (Node d.Address)
  fill_node node_os cluster node = do
    name ← value node.hostname
    blank ← connect d site management cluster
    probed ← host_os d site.host
    start ← value node.start_ip
    mac ← fill_mac name node.mac_address
    password ← value node.root_password
    sockets ← convert_field "sockets" node.sockets
    cores ← convert_field "cores_per_socket" node.cores_per_socket
    threads ← convert_field "threads_per_core" node.threads_per_core
    bmc ← fill_bmc node
    marked ← set_mac mac blank
    addressed ← set_address d start marked
    ok (
        made_node node_os probed name start mac password (node_cpu sockets cores threads) bmc
          addressed)

  -- The loop.
  unfoldable pub fill_nodes :
      Os → List (AfNode d.Address) → Cluster d.Address → Result (Cluster d.Address)
  unfolding fill_node
  fill_nodes node_os [] cluster = ok cluster
  fill_nodes node_os (node ∷ nodes) cluster = do
    filled ← fill_node node_os cluster node
    fill_nodes node_os nodes (add_node filled cluster)
