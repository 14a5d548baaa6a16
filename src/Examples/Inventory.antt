-- ===== src/Examples/Inventory.antt =====
-- A whole answerfile that is loaded.
use opencattus.Base.{◌↔◌, Bool, true, false, ◌≡◌, refl, true, none, some, [], ◌∷◌, Result, ok, err}
use opencattus.Base.Text.{lower}
use opencattus.Base.Decimal.{to_string}
use opencattus.Deps.Assoc.{assoc}
use opencattus.Enums.{rocky, local}
use opencattus.Network.Cidr.{cidr, cidr_contains}
use opencattus.KeyFile.{get_string, get_string_or, get_string_opt, list_all_prefixed_entries}
use opencattus.AnswerFile.{
  AfNode, AfNodes, AnswerFile, default_node, default_network, new_answer_file,
}
use opencattus.AnswerFile.Checks.{
  remember_unique_node_value, remember_hostname, remember_mac, remember_start_ip, remember_bmc,
  remember_node, remember_nodes, validate_node_inventory_topology, validate_generic_node_scalars,
  validate_resolved_node_scalars, validate_unsigned_answerfile_field,
  parse_unsigned_answerfile_field, validate_subnet_mask, validate_gateway_in_subnet,
  ipv4_network_address, validate_single_queue_system,
}
use opencattus.AnswerFile.Checks.Distinct.{DistinctFrom, hostnames_of, macs_of, addresses_of}
use opencattus.AnswerFile.Checks.Accepting.{validate_topology-ok_iff}
use opencattus.AnswerFile.Checks.Gateway.{IsConsistent}
use opencattus.AnswerFile.Load.{
  convert_network_address_and_validate, load_network, load_optional_network, load_information,
  load_time_settings, load_hostname_settings, load_release, load_distro, load_enabled,
  load_system_settings, load_repositories, load_ohpc, load_postfix, load_ofed, load_slurm, load_pbs,
}
use opencattus.AnswerFile.Nodes.{
  stoi_digits, validate_text_attribute, validate_address_attribute, validate_bmc, validate_node,
  load_start_ip, load_generic_node, load_single_node, load_node, name_node, load_numbered_node,
  load_node_sections, load_nodes, load_options,
}
use opencattus.AnswerFile.Nodes.Loaded.{IsInventory, load_nodes-IsInventory}
use opencattus.AnswerFile.Accepted.{IsAccepted, load_options-IsAccepted}

abbrev first : AfNode assoc.Address
first = record (default_node assoc) {
  hostname = some "n01";
  mac_address = some "AA:BB:CC:DD:EE:01";
  start_ip = some "10.0.0.101";
  bmc_address = some "10.1.0.101";
}

abbrev second : AfNode assoc.Address
second = record first {
  hostname = some "n02";
  mac_address = some "aa:bb:cc:dd:ee:02";
  start_ip = some "10.0.0.102";
  bmc_address = some "";
}

validate_topology-ok_iff_example :
    (validate_node_inventory_topology assoc (first ∷ second ∷ []) ≡ ok tt) ↔ (
      DistinctFrom [] (hostnames_of assoc (first ∷ second ∷ []))
      × DistinctFrom [] (macs_of assoc (first ∷ second ∷ []))
      × DistinctFrom [] (addresses_of assoc (first ∷ second ∷ [])))
validate_topology-ok_iff_example = validate_topology-ok_iff assoc (first ∷ second ∷ [])

-- The two nodes pass the check, and the first twice does not.
pair_passes : validate_node_inventory_topology assoc (first ∷ second ∷ []) ≡ ok tt
unfolding validate_node_inventory_topology remember_nodes remember_node remember_hostname
    remember_mac remember_start_ip remember_bmc remember_unique_node_value lower
pair_passes = refl

passes : Result (Unit {0}) → Bool
passes (ok done) = true
passes (err e) = false

twice_fails : passes (validate_node_inventory_topology assoc (first ∷ first ∷ [])) ≡ false
unfolding passes validate_node_inventory_topology remember_nodes remember_node remember_hostname
    remember_mac remember_start_ip remember_bmc remember_unique_node_value lower
twice_fails = refl

abbrev file : assoc.Store
file =
    ("node.1", "mac_address", "52:54:00:00:00:01")
    ∷ ("node.1", "node_ip", "10.0.0.101")
    ∷ ("node", "node_ip", "10.0.0.100")
    ∷ ("node", "bmc_serialspeed", "115200")
    ∷ ("node", "bmc_serialport", "0")
    ∷ ("node", "bmc_password", "admin")
    ∷ ("node", "bmc_username", "admin")
    ∷ ("node", "real_memory", "4096")
    ∷ ("node", "threads_per_core", "1")
    ∷ ("node", "cpus_per_node", "8")
    ∷ ("node", "cores_per_socket", "4")
    ∷ ("node", "sockets", "2")
    ∷ ("node", "node_root_password", "secret")
    ∷ ("node", "padding", "2")
    ∷ ("node", "prefix", "n")
    ∷ ("system", "provisioner", "xcat")
    ∷ ("system", "version", "9.5")
    ∷ ("system", "distro", "alma")
    ∷ ("system", "disk_image", "/root/alma.iso")
    ∷ ("hostname", "domain_name", "cattus.local")
    ∷ ("hostname", "hostname", "head")
    ∷ ("time", "locale", "en_US.utf8")
    ∷ ("time", "timeserver", "pool.ntp.org")
    ∷ ("time", "timezone", "UTC")
    ∷ ("information", "administrator_email", "root@cattus")
    ∷ ("information", "company_name", "Versatus")
    ∷ ("information", "cluster_name", "cattus")
    ∷ ("network_management", "subnet_mask", "255.255.255.0")
    ∷ ("network_management", "ip_address", "10.0.0.1")
    ∷ ("network_management", "interface", "eth1")
    ∷ ("network_external", "interface", "eth0")
    ∷ []

-- The value of a result that is there.
abbrev or_else {ℓ} : {A : Type ℓ} → Result A → A → A
or_else (ok a) b = a
or_else (err e) b = b

abbrev no_nodes : AfNodes assoc.Address
no_nodes = record { generic = none; nodes = [] }

abbrev loaded_nodes : AfNodes assoc.Address
loaded_nodes = or_else (load_nodes assoc file no_nodes) no_nodes

nodes_load : load_nodes assoc file no_nodes ≡ ok loaded_nodes
unfolding load_nodes load_node load_start_ip load_generic_node load_single_node load_node_sections
    load_numbered_node name_node stoi_digits validate_text_attribute validate_address_attribute
    validate_bmc validate_node validate_generic_node_scalars validate_resolved_node_scalars
    validate_unsigned_answerfile_field parse_unsigned_answerfile_field
    validate_node_inventory_topology remember_nodes remember_node remember_hostname remember_mac
    remember_start_ip remember_bmc remember_unique_node_value lower get_string get_string_or
    get_string_opt list_all_prefixed_entries to_string
nodes_load = refl

load_nodes-IsInventory_example : IsInventory assoc loaded_nodes.nodes
load_nodes-IsInventory_example =
    load_nodes-IsInventory assoc file no_nodes loaded_nodes tt nodes_load

abbrev start : AnswerFile assoc.Address assoc.Store
start = new_answer_file assoc rocky local file

abbrev loaded : AnswerFile assoc.Address assoc.Store
loaded = or_else (load_options assoc true start) start

answerfile_loads : load_options assoc true start ≡ ok loaded
unfolding load_options load_network load_optional_network load_information load_time_settings
    load_hostname_settings load_release load_distro load_enabled load_system_settings
    load_repositories load_ohpc load_postfix load_ofed load_slurm load_pbs
    convert_network_address_and_validate validate_subnet_mask validate_gateway_in_subnet
    ipv4_network_address validate_single_queue_system cidr cidr_contains load_nodes load_node
    load_start_ip load_generic_node load_single_node load_node_sections load_numbered_node name_node
    stoi_digits validate_text_attribute validate_address_attribute validate_bmc validate_node
    validate_generic_node_scalars validate_resolved_node_scalars validate_unsigned_answerfile_field
    parse_unsigned_answerfile_field validate_node_inventory_topology remember_nodes remember_node
    remember_hostname remember_mac remember_start_ip remember_bmc remember_unique_node_value lower
    get_string get_string_or get_string_opt list_all_prefixed_entries to_string
answerfile_loads = refl

default-IsConsistent : IsConsistent assoc (default_network assoc)
default-IsConsistent = record {
  mask_listed = λ mask m. cc;
  gateway_reachable = λ host mask gateway h m g. cc;
}

load_options-IsAccepted_example : IsAccepted assoc loaded
load_options-IsAccepted_example =
    load_options-IsAccepted assoc true start loaded default-IsConsistent default-IsConsistent tt
      answerfile_loads
