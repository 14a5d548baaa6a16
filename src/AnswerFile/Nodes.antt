-- ===== src/AnswerFile/Nodes.antt =====
-- The loaders of the nodes in src/models/answerfile.cpp, and the order in which `loadOptions` and
-- `loadFile` call all loaders.
pub mod Resolved
pub mod Loaded
use opencattus.Base.{
  ℕ, ◌^◌, String, Bool, true, false, ◌&&◌, ◌||◌, not, Option, none, some, List, [], ◌∷◌, ◌++◌, ltb,
  if◌then◌else◌, Result, ok, err, ◌>>=◌, ◌>>◌, throw_if, or_throw, invalid_argument, runtime_error,
  out_of_range, Message, says, no_generic, node_invalid, field_invalid, value_or, str_eq,
}
use opencattus.Base.Text.{◌<>◌, is_empty, after_first}
use opencattus.Base.Decimal.{decimal}
use opencattus.Deps.{Deps}
use opencattus.KeyFile.{get_string, get_string_or, get_string_opt, list_all_prefixed_entries}
use opencattus.AnswerFile.{AfNode, AfNodes, AnswerFile, default_node}
use opencattus.AnswerFile.Checks.{
  validate_generic_node_scalars, validate_resolved_node_scalars, validate_node_inventory_topology,
  validate_single_queue_system,
}
use opencattus.AnswerFile.Load.{
  rethrow_invalid, convert_string_to_address, load_network, load_optional_network, load_information,
  load_time_settings, load_hostname_settings, load_system_settings, load_repositories, load_ohpc,
  load_postfix, load_ofed, load_slurm, load_pbs,
}

-- `std::stoi` of a text of digits, which `validate_generic_node_scalars` has checked.
unfoldable pub stoi_digits : String → Result ℕ
stoi_digits s =
    if ltb (decimal 0 s) (2 ^ 31) then ok (decimal 0 s) else err (out_of_range (says "stoi"))

-- `value.has_value() && !value->empty()`
abbrev pub has_text : Option String → Bool
has_text none = false
has_text (some v) = not (is_empty v)

abbrev pub clear_if_empty : Option String → Option String
clear_if_empty none = none
clear_if_empty (some v) = if is_empty v then none else some v

-- `validateAttribute` for texts.
unfoldable pub validate_text_attribute :
    String → String → Option String → Option String → Result (Option String)
validate_text_attribute section attribute object_attr generic_attr =
    if has_text object_attr
    then ok object_attr
    else if has_text generic_attr
    then ok generic_attr
    else err (invalid_argument (no_generic section attribute))

module _ (d : Deps) where
  abbrev pub has_address : Option d.Address → Bool
  has_address none = false
  has_address (some a) = not (d.is_unspecified a)

  -- `validateAttribute` for addresses.
  unfoldable pub validate_address_attribute :
      String → String → Option d.Address → Option d.Address → Result (Option d.Address)
  validate_address_attribute section attribute object_attr generic_attr =
      if has_address object_attr
      then ok object_attr
      else if has_address generic_attr
      then ok generic_attr
      else err (invalid_argument (no_generic section attribute))

  -- The BMC fields: all of them where the node or the generic node has an address, else cleared
  -- where they are empty.
  unfoldable pub validate_bmc : AfNode d.Address → AfNode d.Address → Result (AfNode d.Address)
  validate_bmc generic node =
      if has_text node.bmc_address || has_text generic.bmc_address
      then (do
        address ← validate_text_attribute "node" "bmc_address" node.bmc_address generic.bmc_address
        username ←
            validate_text_attribute "node" "bmc_username" node.bmc_username generic.bmc_username
        password ←
            validate_text_attribute "node" "bmc_password" node.bmc_password generic.bmc_password
        serialport ←
            validate_text_attribute "node" "bmc_serialport" node.bmc_serialport
              generic.bmc_serialport
        serialspeed ←
            validate_text_attribute "node" "bmc_serialspeed" node.bmc_serialspeed
              generic.bmc_serialspeed
        ok (record node {
          bmc_address = address;
          bmc_username = username;
          bmc_password = password;
          bmc_serialport = serialport;
          bmc_serialspeed = serialspeed;
        }))
      else ok (record node {
        bmc_address = clear_if_empty node.bmc_address;
        bmc_username = clear_if_empty node.bmc_username;
        bmc_password = clear_if_empty node.bmc_password;
        bmc_serialport = clear_if_empty node.bmc_serialport;
        bmc_serialspeed = clear_if_empty node.bmc_serialspeed;
      })

  unfoldable pub validate_node :
      AfNode d.Address → AfNode d.Address → String → Result (AfNode d.Address)
  validate_node generic node section = do
    start_ip ← validate_address_attribute "node" "node_ip" node.start_ip generic.start_ip
    root_password ←
        validate_text_attribute "node" "node_root_password" node.root_password generic.root_password
    sockets ← validate_text_attribute "node" "sockets" node.sockets generic.sockets
    cores ←
        validate_text_attribute "node" "cores_per_socket" node.cores_per_socket
          generic.cores_per_socket
    threads ←
        validate_text_attribute "node" "threads_per_core" node.threads_per_core
          generic.threads_per_core
    resolved ← validate_bmc generic (record node {
      start_ip = start_ip;
      root_password = root_password;
      sockets = sockets;
      cores_per_socket = cores;
      threads_per_core = threads;
    })
    validate_resolved_node_scalars d section resolved
    ok resolved

  -- The start address of a section, which `loadNode` reads in two places.
  unfoldable pub load_start_ip : d.Store → String → Result (Option d.Address)
  load_start_ip file section = do
    text ← get_string d file section "node_ip"
    start_ip ← rethrow_invalid (field_invalid section "node_ip") (convert_string_to_address d text)
    ok (some start_ip)

  unfoldable pub load_generic_node : d.Store → Result (AfNode d.Address)
  load_generic_node file = do
    prefix ← get_string d file "node" "prefix"
    padding ← get_string d file "node" "padding"
    root_password ← get_string d file "node" "node_root_password"
    sockets ← get_string d file "node" "sockets"
    cores_per_socket ← get_string d file "node" "cores_per_socket"
    cpus_per_node ← get_string d file "node" "cpus_per_node"
    threads_per_core ← get_string d file "node" "threads_per_core"
    real_memory ← get_string d file "node" "real_memory"
    bmc_username ← get_string d file "node" "bmc_username"
    bmc_password ← get_string d file "node" "bmc_password"
    bmc_serialport ← get_string d file "node" "bmc_serialport"
    bmc_serialspeed ← get_string d file "node" "bmc_serialspeed"
    start_ip ← load_start_ip file "node"
    let node : AfNode d.Address = record (default_node d) {
      prefix = some prefix;
      padding = some padding;
      start_ip = start_ip;
      root_password = some root_password;
      sockets = some sockets;
      cores_per_socket = some cores_per_socket;
      cpus_per_node = some cpus_per_node;
      threads_per_core = some threads_per_core;
      real_memory = some real_memory;
      bmc_username = some bmc_username;
      bmc_password = some bmc_password;
      bmc_serialport = some bmc_serialport;
      bmc_serialspeed = some bmc_serialspeed;
    }
    validate_generic_node_scalars d node
    ok node

  unfoldable pub load_single_node : d.Store → String → Result (AfNode d.Address)
  load_single_node file section = do
    mac_address ← get_string d file section "mac_address"
    given ← get_string_opt d file section "node_ip"
    start_ip ← elim given [ none ↦ ok (some d.unspecified) | some _ ↦ load_start_ip file section ]
    hostname ← get_string_or d file section "hostname" ""
    root_password ← get_string_or d file section "node_root_password" ""
    sockets ← get_string_or d file section "sockets" ""
    cores_per_socket ← get_string_or d file section "cores_per_socket" ""
    threads_per_core ← get_string_or d file section "threads_per_core" ""
    bmc_address ← get_string_or d file section "bmc_address" ""
    bmc_username ← get_string_or d file section "bmc_username" ""
    bmc_password ← get_string_or d file section "bmc_password" ""
    bmc_serialport ← get_string_or d file section "bmc_serialport" ""
    bmc_serialspeed ← get_string_or d file section "bmc_serialspeed" ""
    ok (record (default_node d) {
      start_ip = start_ip;
      hostname = some hostname;
      root_password = some root_password;
      mac_address = some mac_address;
      sockets = some sockets;
      cores_per_socket = some cores_per_socket;
      threads_per_core = some threads_per_core;
      bmc_address = some bmc_address;
      bmc_username = some bmc_username;
      bmc_password = some bmc_password;
      bmc_serialport = some bmc_serialport;
      bmc_serialspeed = some bmc_serialspeed;
    })

  unfoldable pub load_node : d.Store → String → Result (AfNode d.Address)
  unfolding load_generic_node load_single_node load_start_ip
  load_node file section =
      if str_eq section "node" then load_generic_node file else load_single_node file section

  -- `node_counter`: none is a throw of bad_lexical_cast.
  abbrev pub node_counter : String → Option ℕ
  node_counter section = d.lexical_cast (after_first "." section)

  -- The hostname of a node that has none: the generic prefix and the padded number.
  unfoldable pub name_node : AfNode d.Address → ℕ → AfNode d.Address → Result (AfNode d.Address)
  name_node generic counter node =
      if not (is_empty (value_or node.hostname ""))
      then ok node
      else if is_empty (value_or generic.prefix "")
      then err (invalid_argument (node_invalid counter (no_generic "hostname" "prefix")))
      else if is_empty (value_or generic.padding "")
      then err (invalid_argument (node_invalid counter (no_generic "hostname" "padding")))
      else do
        width ← stoi_digits (value_or generic.padding "")
        ok (record node {
          hostname = some (value_or generic.prefix "" <> d.pad_number counter width);
        })

  -- The body of the loop of `loadNodes`, for a section with a number.
  unfoldable pub load_numbered_node :
      d.Store → AfNode d.Address → String → ℕ → Result (AfNode d.Address)
  unfolding name_node
  load_numbered_node file generic section counter = do
    node ← load_node file section
    named ← name_node generic counter node
    rethrow_invalid (node_invalid counter) (validate_node generic named section)

  -- The loop of `loadNodes`: sections whose suffix is no positive number are passed over.
  unfoldable pub load_node_sections :
      d.Store → AfNode d.Address → List String → Result (List (AfNode d.Address))
  load_node_sections file generic [] = ok []
  load_node_sections file generic (section ∷ sections) =
      let rest = load_node_sections file generic sections in
      elim (node_counter section) [
        | none ↦ rest
        | some counter ↦
            if ltb 0 counter
            then (do
              node ← load_numbered_node file generic section counter
              nodes ← rest
              ok (node ∷ nodes))
            else rest
      ]

  unfoldable pub load_nodes : d.Store → AfNodes d.Address → Result (AfNodes d.Address)
  unfolding load_node_sections
  load_nodes file nodes = do
    generic ← load_node file "node"
    loaded ← load_node_sections file generic (list_all_prefixed_entries d file "node.")
    validate_node_inventory_topology d (nodes.nodes ++ loaded)
    ok (record { generic = some generic; nodes = nodes.nodes ++ loaded })

  unfoldable pub load_options :
      Bool → AnswerFile d.Address d.Store → Result (AnswerFile d.Address d.Store)
  load_options dry_run af = do
    external ← load_network d af.keyfile "network_external" af.external
    management ← load_network d af.keyfile "network_management" af.management
    service ← load_optional_network d af.keyfile "network_service" af.service
    application ← load_optional_network d af.keyfile "network_application" af.application
    information ← load_information d af.keyfile
    time ← load_time_settings d af.keyfile
    hostname ← load_hostname_settings d af.keyfile
    system ← load_system_settings d dry_run af.keyfile af.system
    repositories ← load_repositories d af.keyfile af.repositories
    ohpc ← load_ohpc d af.keyfile af.ohpc
    nodes ← load_nodes af.keyfile af.nodes
    postfix ← load_postfix d af.keyfile af.postfix
    ofed ← load_ofed d af.keyfile af.ofed
    slurm ← load_slurm d af.keyfile af.slurm
    pbs ← load_pbs d af.keyfile af.pbs
    validate_single_queue_system slurm.enabled pbs.enabled
    ok (record {
      keyfile = af.keyfile;
      external = external;
      management = management;
      application = application;
      service = service;
      information = information;
      time = time;
      hostname = hostname;
      system = system;
      nodes = nodes;
      postfix = postfix;
      ofed = ofed;
      repositories = repositories;
      ohpc = ohpc;
      slurm = slurm;
      pbs = pbs;
    })
