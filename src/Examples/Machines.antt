-- ===== src/Examples/Machines.antt =====
-- Machines: nodes of an answerfile, processors and names.
use opencattus.Base.{
  ℕ, ◌*◌, ◌^◌, ◌<◌, String, ◌≡◌, ◌≢◌, ◌↔◌, refl, subst, inl, inr, Bool, true, false, some, none,
  List, [], ◌∷◌, ◌++◌, All, Result, ok, err, arith,
}
use opencattus.Base.Text.{◌<>◌, has_char, lower}
use opencattus.Base.Stoul.{stoul}
use opencattus.Deps.Assoc.{assoc}
use opencattus.Enums.{management, ethernet}
use opencattus.AnswerFile.{AfNode}
use opencattus.AnswerFile.Checks.Unsigned.{IsUnsigned}
use opencattus.AnswerFile.Nodes.Resolved.{IsResolved}
use opencattus.Os.{Os, get_package_type}
use opencattus.Os.Probe.{host_os}
use opencattus.Connection.Formats.{IsInFormat-IsMac}
use opencattus.Connection.{Connection, NetworkRef, blank_connection}
use opencattus.Machine.{Server, Node, blank_server, blank_node}
use opencattus.Machine.Topology.{new_cpu}
use opencattus.Machine.Accepting.{product_cpu, new_cpu-ok_iff}
use opencattus.Machine.Names.{get_domain_name, set_domain_name, discover_names}
use opencattus.Machine.Named.{IsNamed, set_domain_name-IsNamed, discover_names-IsNamed}
use opencattus.Network.{new_network}
use opencattus.Network.Fetch.{fetch_gateway}
use opencattus.Cluster.{Cluster}
use opencattus.Cluster.Networks.{add_network}
use opencattus.Cluster.Attach.{connect}
use opencattus.Cluster.Nodes.{fill_node, fill_nodes}
use opencattus.Cluster.Nodes.Filled.{AreNodesOf, fill_node-IsNodeOf, fill_nodes-AreNodesOf}
use opencattus.Cluster.Nodes.Returning.{IsReady, Returns, fill_nodes-Returns}
use opencattus.Cluster.Nodes.Dumped.{IsDumpOf, dump_node-IsDumpOf}
use opencattus.Cluster.Dump.{dump_node}
use opencattus.Examples.Sites.{got, is_ok, ok-got, rocky_9, machine, first, second, blank_cluster}

new_cpu-ok_iff_example : (new_cpu 2 8 2 ≡ ok (product_cpu 2 8 2)) ↔ (
    (◌≢◌ {A = ℕ} 2 0)
    × (◌≢◌ {A = ℕ} 8 0)
    × (◌≢◌ {A = ℕ} 2 0)
    × (product_cpu 2 8 2 ≡ product_cpu 2 8 2))
new_cpu-ok_iff_example = new_cpu-ok_iff 2 8 2 (omega arith)

abbrev named : Server assoc.Address
named = record (blank_server rocky_9) { hostname = "head" }

set_domain_name-IsNamed_example :
    IsNamed (set_domain_name "example.com" named)
    × (get_domain_name (set_domain_name "example.com" named) ≡ "example.com")
set_domain_name-IsNamed_example = set_domain_name-IsNamed "example.com" named refl

discover_names-IsNamed_example : IsNamed (discover_names "head.(none)" named)
discover_names-IsNamed_example = discover_names-IsNamed "head.(none)" named

-- A cluster with a management network.
abbrev wired : Cluster assoc.Address
wired = add_network (new_network assoc management ethernet) blank_cluster

abbrev wired_nodes : Cluster assoc.Address
wired_nodes = got wired (fill_nodes assoc machine rocky_9 (first ∷ second ∷ []) wired)

nodes_filled : is_ok (fill_nodes assoc machine rocky_9 (first ∷ second ∷ []) wired) ≡ true
unfolding opencattus.Cluster.Nodes.fill_node fill_nodes opencattus.Cluster.Nodes.convert_or_error
    opencattus.Cluster.Nodes.fill_bmc opencattus.Cluster.Nodes.fill_mac
    opencattus.Cluster.Nodes.require_bmc_field opencattus.Cluster.Networks.find_network
    opencattus.Cluster.Networks.get_network opencattus.Cluster.Networks.place_of
    opencattus.Cluster.Networks.network_pointer opencattus.Connection.new_connection
    opencattus.Connection.set_address opencattus.Connection.set_mac
    opencattus.Connection.validate_mac opencattus.Network.new_network host_os stoul lower
    opencattus.Base.Stoul.is_space opencattus.Base.Stoul.leading_digits
    opencattus.Base.Stoul.skip_spaces opencattus.Base.Text.to_lower
    opencattus.Base.Text.transliterate opencattus.Os.set_arch opencattus.Os.set_family
    opencattus.Os.set_platform opencattus.Os.set_distro opencattus.Os.normalized_distro
    opencattus.Os.set_major_version opencattus.Os.Version.set_version
    opencattus.Os.Version.set_el_version get_package_type
nodes_filled = refl

fill_nodes-AreNodesOf_example :
    (made : List (Node assoc.Address)) × AreNodesOf assoc machine rocky_9 (first ∷ second ∷ []) made
    × (wired_nodes ≡ record wired { nodes = wired.nodes ++ made })
fill_nodes-AreNodesOf_example =
    fill_nodes-AreNodesOf assoc machine rocky_9 (first ∷ second ∷ []) wired
      (ok-got wired (fill_nodes assoc machine rocky_9 (first ∷ second ∷ []) wired) nodes_filled)

abbrev made : Node assoc.Address
made = got (blank_node rocky_9) (fill_node assoc machine rocky_9 wired first)

node_filled : is_ok (fill_node assoc machine rocky_9 wired first) ≡ true
unfolding opencattus.Cluster.Nodes.fill_node fill_nodes opencattus.Cluster.Nodes.convert_or_error
    opencattus.Cluster.Nodes.fill_bmc opencattus.Cluster.Nodes.fill_mac
    opencattus.Cluster.Nodes.require_bmc_field opencattus.Cluster.Networks.find_network
    opencattus.Cluster.Networks.get_network opencattus.Cluster.Networks.place_of
    opencattus.Cluster.Networks.network_pointer opencattus.Connection.new_connection
    opencattus.Connection.set_address opencattus.Connection.set_mac
    opencattus.Connection.validate_mac opencattus.Network.new_network host_os stoul lower
    opencattus.Base.Stoul.is_space opencattus.Base.Stoul.leading_digits
    opencattus.Base.Stoul.skip_spaces opencattus.Base.Text.to_lower
    opencattus.Base.Text.transliterate opencattus.Os.set_arch opencattus.Os.set_family
    opencattus.Os.set_platform opencattus.Os.set_distro opencattus.Os.normalized_distro
    opencattus.Os.set_major_version opencattus.Os.Version.set_version
    opencattus.Os.Version.set_el_version get_package_type
node_filled = refl

dump_node-IsDumpOf_example : IsDumpOf assoc first (dump_node assoc made) made.server.bmc
dump_node-IsDumpOf_example = dump_node-IsDumpOf assoc rocky_9 first made (
    fill_node-IsNodeOf assoc machine rocky_9 wired first
      (ok-got (blank_node rocky_9) (fill_node assoc machine rocky_9 wired first) node_filled))

abbrev nowhere : NetworkRef
nowhere = record { place = 0; profile = management; kind = ethernet }

abbrev blank : Connection assoc.Address
blank = got (blank_connection assoc nowhere) (connect assoc machine management wired)

connects : is_ok (connect assoc machine management wired) ≡ true
unfolding opencattus.Cluster.Networks.find_network opencattus.Cluster.Networks.get_network
    opencattus.Connection.new_connection opencattus.Connection.set_mtu
    opencattus.Network.new_network opencattus.Cluster.Networks.network_pointer
    opencattus.Cluster.Networks.place_of
connects = refl

abbrev probed : Os
probed = got rocky_9 (host_os assoc machine.host)

probes : is_ok (host_os assoc machine.host) ≡ true
unfolding host_os opencattus.Os.set_arch opencattus.Os.set_family opencattus.Os.set_platform
    opencattus.Os.set_distro opencattus.Os.normalized_distro opencattus.Os.set_major_version lower
    opencattus.Base.Text.to_lower opencattus.Base.Text.transliterate stoul
    opencattus.Os.Version.set_version opencattus.Os.Version.set_el_version get_package_type
probes = refl

-- A node with one socket, a core, a thread and no controller.
abbrev plain : AfNode assoc.Address
plain = record second {
  sockets = some "1";
  cores_per_socket = some "1";
  threads_per_core = some "1";
}

one : IsUnsigned "1" false
one = record { filled = refl; digits = refl; in_range = omega arith; nonzero = λ e. omega arith }

plain-IsResolved : IsResolved assoc plain
plain-IsResolved = record {
  addressed = refl;
  has_password = refl;
  has_sockets = refl;
  has_cores = refl;
  has_threads = refl;
  bmc = inr refl;
  sockets_number = one;
  cores_number = one;
  threads_number = one;
  serialport_number = record {
    filled = refl;
    digits = refl;
    in_range = omega arith;
    nonzero = λ e. cc;
  };
  serialspeed_number = record {
    filled = refl;
    digits = refl;
    in_range = omega arith;
    nonzero = λ e. omega arith;
  };
}

plain-IsReady : IsReady assoc plain
plain-IsReady = record {
  resolved = plain-IsResolved;
  named = ("n02", refl);
  has_mac = ("aa:bb:cc:dd:ee:02", refl, IsInFormat-IsMac "aa:bb:cc:dd:ee:02" (inl refl));
  has_start = ("10.0.0.102", refl, apart);
}
  where
    apart :
        (zero : String) → some "0.0.0.0" ≡ some zero → assoc.same_address "10.0.0.102" zero ≡ false
    apart zero h = subst (λ z. assoc.same_address "10.0.0.102" z ≡ false) (injective h) refl
      where
        injective : some "0.0.0.0" ≡ some zero → "0.0.0.0" ≡ zero
        injective e = cc

fill_nodes-Returns_example : Returns (fill_nodes assoc machine rocky_9 (plain ∷ []) wired)
fill_nodes-Returns_example =
    fill_nodes-Returns assoc machine probed "0.0.0.0"
      (ok-got rocky_9 (host_os assoc machine.host) probes) refl rocky_9 (plain ∷ []) wired blank
      (ok-got (blank_connection assoc nowhere) (connect assoc machine management wired) connects)
      (plain-IsReady, tt)

-- The gateways of the test cases of src/network.cpp: 172.21.1.1 is 2887057665.
route_test : fetch_gateway assoc machine "eth1" ≡ "2887057665"
unfolding fetch_gateway opencattus.Network.Routes.fetch_route_gateway
    opencattus.Network.Routes.stoul_hex opencattus.Base.Stoul.is_space
    opencattus.Base.Stoul.skip_spaces opencattus.Base.Decimal.to_string
route_test = refl

device_test : fetch_gateway assoc machine "eth2" ≡ "10.20.0.1"
unfolding fetch_gateway opencattus.Network.Routes.fetch_route_gateway
    opencattus.Network.Routes.fetch_device_gateway
    opencattus.Network.Routes.parse_first_address_token opencattus.Base.Stoul.is_space
    opencattus.Base.Stoul.skip_spaces
device_test = refl
