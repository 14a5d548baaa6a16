-- ===== src/AnswerFile/Checks.antt =====
-- The free functions of src/models/answerfile.cpp: the checks that the loaders call.
pub mod Unsigned
pub mod Gateway
pub mod Distinct
pub mod Topology
pub mod Accepting
use opencattus.Base.{
  ℕ, suc, ◌^◌, String, Bool, true, false, not, ◌&&◌, ◌||◌, Option, none, some, List, [], ◌∷◌, ltb,
  ◌==◌, if◌then◌else◌, bit_and, Result, ok, err, ◌>>=◌, ◌>>◌, throw_if, invalid_argument,
  out_of_range, says, about, field_invalid, duplicate, value_or, str_eq, has_value,
}
use opencattus.Base.Text.{◌<>◌, is_empty, all_of, is_digit, lower}
use opencattus.Base.Decimal.{decimal, to_string}
use opencattus.Enums.{ofed_kinds, of_string_opt}
use opencattus.Deps.{Deps}
use opencattus.Network.Cidr.{cidr_contains, find_text}
use opencattus.AnswerFile.{AfNode}

-- The entries of a `std::map<std::string, std::string>`.
abbrev pub Seen : Type 0
Seen = List (String × String)

unfoldable pub remember_unique_node_value : Seen → String → String → String → Result Seen
remember_unique_node_value seen field_name v owner =
    if is_empty v then ok seen else elim (find_text v seen) [
      | none ↦ ok ((v, owner) ∷ seen)
      | some first ↦ err (invalid_argument (duplicate field_name v first owner))
    ]

-- The five maps of `validateNodeInventoryTopology`.
pub record Inventory : Type 0 where
  pub hostnames : Seen
  pub mac_addresses : Seen
  pub node_addresses : Seen
  pub bmc_addresses : Seen
  pub all_addresses : Seen

abbrev pub size_limit : ℕ
size_limit = 2 ^ 64

unfoldable pub parse_unsigned_answerfile_field : String → String → String → Bool → Result ℕ
parse_unsigned_answerfile_field section field v allow_zero =
    let fail = λ (reason : String). invalid_argument (field_invalid section field (says reason)) in
    do
      throw_if (is_empty v) (fail "empty value")
      throw_if (not (all_of is_digit v)) (fail "not a number")
      throw_if (not (ltb (decimal 0 v) size_limit)) (fail "value is out of range")
      throw_if (not allow_zero && (decimal 0 v == 0)) (fail "zero is not valid")
      ok (decimal 0 v)

unfoldable pub validate_unsigned_answerfile_field :
    String → String → Option String → Bool → Result (Unit {0})
unfolding parse_unsigned_answerfile_field
validate_unsigned_answerfile_field section field none allow_zero = ok tt
validate_unsigned_answerfile_field section field (some v) allow_zero = do
  parsed ← parse_unsigned_answerfile_field section field v allow_zero
  ok tt

unfoldable pub parse_port_answerfile_field : String → String → String → Result ℕ
unfolding parse_unsigned_answerfile_field
parse_port_answerfile_field section field v = do
  port ← parse_unsigned_answerfile_field section field v false
  throw_if (ltb 65535 port)
      (invalid_argument (field_invalid section field (says "port is out of range")))
  ok port

unfoldable pub validate_single_queue_system : Bool → Bool → Result (Unit {0})
validate_single_queue_system slurm_enabled pbs_enabled =
    throw_if (slurm_enabled && pbs_enabled)
      (invalid_argument (says "answerfile cannot contain both [slurm] and [pbs] sections"))

module _ (d : Deps) where
  -- The result is the number of an `address_v4`.
  unfoldable pub ipv4_network_address : d.Address → d.Address → Result ℕ
  ipv4_network_address ip subnet_mask =
      if not (d.is_v4 ip) || not (d.is_v4 subnet_mask)
      then err (invalid_argument (says "only IPv4 network sections are supported"))
      else ok (bit_and (d.to_uint ip) (d.to_uint subnet_mask))

  unfoldable pub validate_subnet_mask : String → d.Address → Result (Unit {0})
  validate_subnet_mask section subnet_mask =
      throw_if (not (d.is_v4 subnet_mask) || not (cidr_contains (d.address_string subnet_mask))) (
        invalid_argument (
          field_invalid section "subnet_mask"
            (about "invalid subnet mask" (d.address_string subnet_mask))))

  -- The message of the exception looks the mask up with `cidr.at`, which throws itself.
  unfoldable pub outside_subnet : String → d.Address → d.Address → Result (Unit {0})
  outside_subnet section subnet_mask gateway =
      if cidr_contains (d.address_string subnet_mask)
      then err (
          invalid_argument
            (field_invalid section "gateway" (about "outside" (d.address_string gateway))))
      else err (out_of_range (says "cidr"))

  unfoldable pub validate_gateway_in_subnet :
      String → d.Address → d.Address → d.Address → Result (Unit {0})
  unfolding outside_subnet ipv4_network_address
  validate_gateway_in_subnet section host_address subnet_mask gateway =
      if d.is_unspecified gateway then ok tt else do
        network_address ← ipv4_network_address host_address subnet_mask
        gateway_network ← ipv4_network_address gateway subnet_mask
        if network_address == gateway_network
            then ok tt
            else outside_subnet section subnet_mask gateway

  -- "node 'name'", where a node with no hostname goes by its number.
  unfoldable pub owner_label : ℕ → AfNode d.Address → String
  owner_label node_number node =
      "node '" <> value_or node.hostname ("#" <> to_string node_number) <> "'"

  unfoldable pub remember_hostname : Option String → String → Inventory → Result Inventory
  remember_hostname none owner seen = ok seen
  remember_hostname (some hostname) owner seen = do
    hostnames ← remember_unique_node_value seen.hostnames "hostname" hostname owner
    ok (record seen { hostnames = hostnames })

  unfoldable pub remember_mac : Option String → String → Inventory → Result Inventory
  remember_mac none owner seen = ok seen
  remember_mac (some mac) owner seen = do
    macs ← remember_unique_node_value seen.mac_addresses "mac_address" (lower mac) owner
    ok (record seen { mac_addresses = macs })

  unfoldable pub remember_start_ip : Option d.Address → String → Inventory → Result Inventory
  remember_start_ip none owner seen = ok seen
  remember_start_ip (some start_ip) owner seen = if d.is_unspecified start_ip then ok seen else do
    let text = d.address_string start_ip
    nodes ← remember_unique_node_value seen.node_addresses "node_ip" text owner
    every ←
        remember_unique_node_value seen.all_addresses "node/BMC address" text (owner <> " node_ip")
    ok (record seen { node_addresses = nodes; all_addresses = every })

  unfoldable pub remember_bmc : Option String → String → Inventory → Result Inventory
  remember_bmc none owner seen = ok seen
  remember_bmc (some bmc) owner seen = if is_empty bmc then ok seen else do
    bmcs ← remember_unique_node_value seen.bmc_addresses "bmc_address" bmc owner
    every ←
        remember_unique_node_value seen.all_addresses "node/BMC address" bmc
          (owner <> " bmc_address")
    ok (record seen { bmc_addresses = bmcs; all_addresses = every })

  -- One round of the loop.
  unfoldable pub remember_node : ℕ → AfNode d.Address → Inventory → Result Inventory
  unfolding remember_hostname remember_mac remember_start_ip remember_bmc owner_label
  remember_node node_number node seen = do
    let owner = owner_label node_number node
    s1 ← remember_hostname node.hostname owner seen
    s2 ← remember_mac node.mac_address owner s1
    s3 ← remember_start_ip node.start_ip owner s2
    remember_bmc node.bmc_address owner s3

  unfoldable pub remember_nodes : ℕ → List (AfNode d.Address) → Inventory → Result Inventory
  remember_nodes node_number [] seen = ok seen
  remember_nodes node_number (node ∷ nodes) seen = do
    next ← remember_node (suc node_number) node seen
    remember_nodes (suc node_number) nodes next

  unfoldable pub validate_node_inventory_topology : List (AfNode d.Address) → Result (Unit {0})
  unfolding remember_nodes remember_node
  validate_node_inventory_topology nodes = do
    seen ← remember_nodes 0 nodes (record {
      hostnames = [];
      mac_addresses = [];
      node_addresses = [];
      bmc_addresses = [];
      all_addresses = [];
    })
    ok tt

  unfoldable pub normalize_ofed_kind : String → Option String
  normalize_ofed_kind raw_kind =
      if str_eq (lower raw_kind) "mellanox"
      then some "doca"
      else if has_value (of_string_opt d ofed_kinds (lower raw_kind))
      then some (lower raw_kind)
      else none

  unfoldable pub validate_generic_node_scalars : AfNode d.Address → Result (Unit {0})
  validate_generic_node_scalars node = do
    validate_unsigned_answerfile_field "node" "padding" node.padding true
    validate_unsigned_answerfile_field "node" "sockets" node.sockets false
    validate_unsigned_answerfile_field "node" "cores_per_socket" node.cores_per_socket false
    validate_unsigned_answerfile_field "node" "cpus_per_node" node.cpus_per_node false
    validate_unsigned_answerfile_field "node" "threads_per_core" node.threads_per_core false
    validate_unsigned_answerfile_field "node" "real_memory" node.real_memory false
    validate_unsigned_answerfile_field "node" "bmc_serialport" node.bmc_serialport true
    validate_unsigned_answerfile_field "node" "bmc_serialspeed" node.bmc_serialspeed false

  unfoldable pub validate_resolved_node_scalars : String → AfNode d.Address → Result (Unit {0})
  validate_resolved_node_scalars section node = do
    validate_unsigned_answerfile_field section "sockets" node.sockets false
    validate_unsigned_answerfile_field section "cores_per_socket" node.cores_per_socket false
    validate_unsigned_answerfile_field section "threads_per_core" node.threads_per_core false
    validate_unsigned_answerfile_field section "bmc_serialport" node.bmc_serialport true
    validate_unsigned_answerfile_field section "bmc_serialspeed" node.bmc_serialspeed false
