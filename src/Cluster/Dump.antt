-- ===== src/Cluster/Dump.antt =====
-- `dumpData` of src/models/cluster.cpp: an answerfile made of a cluster. What reads an optional
-- member leaves the field of the new answerfile as it is where the member is missing.
use opencattus.Base.{
  ℕ, String, Option, none, some, List, [], ◌∷◌, ◌++◌, map, Result, ok, err, ◌>>=◌,
}
use opencattus.Base.Decimal.{to_string}
use opencattus.Enums.{Distro, Profile, external, management, service, application, MailProfile}
use opencattus.Deps.{Deps}
use opencattus.AnswerFile as answer
use opencattus.AnswerFile.{
  AfNode, AfNetwork, AfSystem, AfSlurm, AfPbs, AfPostfix, AfOfed, Smtp, Sasl, default_node,
  default_network, new_answer_file,
}
use opencattus.AnswerFile.Dump.{dump_options}
use opencattus.Network as network
use opencattus.Connection.{Connection}
use opencattus.Machine.{Node, Bmc, Server, get_connection}
use opencattus.Machine.Names.{get_domain_name}
use opencattus.Cluster.{Cluster, Common, get_compute_node_os}
use opencattus.Cluster.Sections.{
  replaced, texts, ofed_section, slurm_section, pbs_section, postfix_section, first_or,
  system_section,
}

module _ (d : Deps) where
  unfoldable pub generic_node : Common d.Address → AfNode d.Address
  generic_node common = record (default_node d) {
    prefix = some common.node_prefix;
    padding = some (to_string common.node_padding);
    start_ip = some common.node_start_ip;
    root_password = some common.node_root_password;
    sockets = some (to_string common.node_sockets);
    cores_per_socket = some (to_string common.node_cores_per_socket);
    threads_per_core = some (to_string common.node_threads_per_core);
    cpus_per_node = some (to_string common.node_cpus_per_node);
    real_memory = some (to_string common.node_real_memory);
    bmc_username = some common.node_bmc_username;
    bmc_password = some common.node_bmc_password;
    bmc_serialport = some (to_string common.node_bmc_serial_port);
    bmc_serialspeed = some (to_string common.node_bmc_serial_speed);
  }

  abbrev pub padding_text : Option ℕ → Option String
  padding_text none = none
  padding_text (some padding) = some (to_string padding)

  -- The controller's fields, where the node has one.
  abbrev pub bmc_into : Option Bmc → AfNode d.Address → AfNode d.Address
  bmc_into none node = node
  bmc_into (some bmc) node = record node {
    bmc_address = some bmc.address;
    bmc_username = some bmc.username;
    bmc_password = some bmc.password;
    bmc_serialport = some (to_string bmc.serial_port);
    bmc_serialspeed = some (to_string bmc.serial_speed);
  }

  -- One round of the loop over the nodes.
  unfoldable pub dump_node : Node d.Address → AfNode d.Address
  dump_node node = bmc_into node.server.bmc (record (default_node d) {
    hostname = some node.server.hostname;
    mac_address = some node.mac_address;
    start_ip = node.node_start_ip;
    prefix = node.prefix;
    padding = padding_text node.padding;
    cores_per_socket = some (to_string node.server.cpu.cores_per_socket);
    threads_per_core = some (to_string node.server.cpu.threads_per_core);
    sockets = some (to_string node.server.cpu.sockets);
  })

  -- The fields of the connection of the head node, or the address of the network for none.
  abbrev pub connection_into :
      network.Network d.Address
      → Result (Connection d.Address)
      → AfNetwork d.Address
      → AfNetwork d.Address
  connection_into net (err e) field = record field { con_ip_addr = some net.address }
  connection_into net (ok connection) field = record field {
    con_interface = replaced connection.interface field.con_interface;
    con_mac_addr = replaced connection.mac field.con_mac_addr;
    con_ip_addr = some connection.address;
  }

  unfoldable pub network_field :
      Server d.Address → network.Network d.Address → AfNetwork d.Address → AfNetwork d.Address
  network_field headnode net field =
      connection_into net (get_connection net.profile headnode) (record field {
        subnet_mask = some net.subnet_mask;
        gateway = some net.gateway;
        domain_name = some net.domain_name;
        nameservers = texts d.address_string net.nameservers field.nameservers;
      })

  -- `getNetworkField`, with what the loop does to the field.
  abbrev pub at_field :
      Profile
      → (AfNetwork d.Address → AfNetwork d.Address)
      → answer.AnswerFile d.Address d.Store
      → answer.AnswerFile d.Address d.Store
  at_field management f file = record file { management = f file.management }
  at_field service f file = record file { service = f file.service }
  at_field external f file = record file { external = f file.external }
  at_field application f file = record file { application = f file.application }

  unfoldable pub dump_networks :
      Server d.Address
      → List (network.Network d.Address)
      → answer.AnswerFile d.Address d.Store
      → answer.AnswerFile d.Address d.Store
  unfolding network_field
  dump_networks headnode [] file = file
  dump_networks headnode (net ∷ nets) file =
      dump_networks headnode nets (at_field net.profile (network_field headnode net) file)

  -- The members of the answerfile that `dumpData` sets, behind its networks.
  unfoldable pub dump_sections :
      Cluster d.Address
      → answer.AnswerFile d.Address d.Store
      → Result (answer.AnswerFile d.Address d.Store)
  unfolding dump_node generic_node system_section
  dump_sections cluster file = do
    system ←
        system_section (get_compute_node_os cluster) cluster.disk_image.path cluster.provisioner
          file.system
    ok (record file {
      system = system;
      ofed = ofed_section cluster.ofed file.ofed;
      repositories = record {
        enabled = replaced cluster.enabled_repositories file.repositories.enabled;
      };
      ohpc = record { enabled = replaced cluster.enabled_openhpc_bundles file.ohpc.enabled };
      slurm = slurm_section cluster.queue_system cluster.slurm_passwords file.slurm;
      pbs = pbs_section cluster.queue_system file.pbs;
      postfix = postfix_section cluster.mail_system file.postfix;
      information = record {
        cluster_name = cluster.name;
        company_name = cluster.company_name;
        administrator_email = cluster.admin_mail;
      };
      time = record {
        timezone = cluster.timezone.timezone;
        timeserver = first_or cluster.timezone.timeservers file.time.timeserver;
        locale = cluster.locale;
      };
      hostname = record {
        hostname = cluster.headnode.hostname;
        domain_name = get_domain_name cluster.headnode;
      };
      nodes = record {
        generic = some (generic_node cluster.common);
        nodes = file.nodes.nodes ++ map dump_node cluster.nodes;
      };
    })

  -- `Cluster::dumpData`, for an empty key file: the answerfile whose key file is written.
  unfoldable pub dump_data :
      Distro
      → MailProfile
      → d.Store
      → Cluster d.Address
      → Result (answer.AnswerFile d.Address d.Store)
  unfolding dump_sections dump_networks
  dump_data distro profile blank cluster = do
    filled ←
        dump_sections cluster
          (dump_networks cluster.headnode cluster.networks (new_answer_file d distro profile blank))
    ok (dump_options d filled)
